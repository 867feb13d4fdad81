-- ===== src/Nonces.antt =====
-- packages/msp-core/src/domain/grant-nonces.mjs over the table of migrations/0013. The two reads
-- of the clock are the arguments `checked_at` and `now`; a stored time is its milliseconds, whose
-- order is that of the ISO texts. The expired rows are purged in the order of the table.
pub mod Replay
pub mod OnceOnly
pub mod Table
pub mod Examples
use memory_and_soul_passport.Prelude.{
  ℕ, zero, suc, ◌+◌, ◌-◌, ◌*◌, String, Bool, true, false, ◌&&◌, ◌||◌, Option, List, [], ◌∷◌, ◌++◌,
  ltb, leb, if◌then◌else◌, ◌==◌, same, dec_text,
}
use memory_and_soul_passport.Errors.{
  Result, ok, err, ◌>>=◌, ◌>>◌, guard, validation_failed, grant_replayed, state_after,
}
use memory_and_soul_passport.Grant.{Claim, text, whole, text_length, max_claim_length}

-- A row of grant_nonces; the tenant of a global-private grant is NULL.
pub record NonceRow : Type 0 where
  pub tenant_id : Option String
  pub nonce : String
  pub expires_at : ℕ

abbrev pub ten_years : ℕ
ten_years = 10 * 365 * 24 * 60 * 60 * 1000

abbrev pub purge_limit : ℕ
purge_limit = 200

-- DELETE of at most `budget` rows with `expires_at < now`
unfoldable pub purge : ℕ → ℕ → List NonceRow → List NonceRow
purge zero now rows = rows
purge (suc budget) now [] = []
purge (suc budget) now (r ∷ rows) = elim (ltb r.expires_at now) [
  | true ↦ purge budget now rows
  | false ↦ r ∷ purge (suc budget) now rows
]

-- Whether an insert meets the primary key, or the unique index of the rows without a tenant.
unfoldable pub is_used : Option String → String → List NonceRow → Bool
is_used t n [] = false
is_used t n (r ∷ rows) = (same r.tenant_id t && r.nonce == n) || is_used t n rows

unfoldable pub nonce_text : Claim → Result String
nonce_text (text n) =
    if ltb 0 (text_length n) && leb (text_length n) max_claim_length
    then ok n
    else err validation_failed
nonce_text _ = err validation_failed

-- `Number.isInteger(expiresAt)` and within ten years of the clock, either way
unfoldable pub plausible_expiry : Claim → ℕ → Result ℕ
plausible_expiry (whole t) now =
    if leb ((t - now) + (now - t)) ten_years then ok t else err validation_failed
plausible_expiry _ now = err validation_failed

unfoldable pub insert_nonce : Option String → String → ℕ → List NonceRow → Result (List NonceRow)
insert_nonce t n expires rows =
    if is_used t n rows
    then err grant_replayed
    else ok (rows ++ record { tenant_id = t; nonce = n; expires_at = expires } ∷ [])

-- consumeGrantNonce: the table after it. An error rolls the caller's transaction back.
unfoldable pub consume_grant_nonce :
    Option String → Claim → Claim → ℕ → ℕ → List NonceRow → Result (List NonceRow)
unfolding nonce_text plausible_expiry insert_nonce
consume_grant_nonce t nonce expires_at checked_at now rows = do
  n ← nonce_text nonce
  e ← plausible_expiry expires_at checked_at
  insert_nonce t n e (purge purge_limit now rows)

-- One call of consumeGrantNonce, with what it reads of the clock.
pub record Attempt : Type 0 where
  pub tenant_id : Option String
  pub nonce : Claim
  pub expires_at : Claim
  pub checked_at : ℕ
  pub now : ℕ

unfoldable pub attempt : List NonceRow → Attempt → List NonceRow
unfolding consume_grant_nonce
attempt rows a =
    elim (consume_grant_nonce a.tenant_id a.nonce a.expires_at a.checked_at a.now rows) [
      | ok rows' ↦ rows'
      | err _ ↦ rows
    ]

unfoldable pub attempts : List NonceRow → List Attempt → List NonceRow
attempts rows [] = rows
attempts rows (a ∷ as') = attempts (attempt rows a) as'
