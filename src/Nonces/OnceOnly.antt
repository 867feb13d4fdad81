-- ===== src/Nonces/OnceOnly.antt =====
-- Grants and nonces together: a signed grant authorises one write.
use memory_and_soul_passport.Prelude.{
  ℕ, ◌+◌, ◌-◌, ◌≤◌, ◌<◌, String, ◌≡◌, Option, List, [], ◌∷◌, arith, All, All-mono,
}
use memory_and_soul_passport.Errors.{ok, err, grant_replayed}
use memory_and_soul_passport.Grant.{
  Claim, text, whole, Grant, claim, Access, KeySource, Crypto, verify_signed_grant, text_length,
  max_claim_length,
}
use memory_and_soul_passport.Grant.Verify.{verify_signed_grant-IsVerified}
use memory_and_soul_passport.Nonces.{
  NonceRow, ten_years, purge, is_used, nonce_text, insert_nonce, plausible_expiry,
  consume_grant_nonce, Attempt, attempts,
}
use memory_and_soul_passport.Nonces.Replay.{
  IsRecorded, IsConsumed, IsRecorded-append_last, consume_grant_nonce-IsConsumed,
  attempts-IsRecorded, consume_of_IsRecorded,
}

consume-IsRecorded :
    (t : Option String) (nonce expires_at : Claim) (now : ℕ) (rows rows' : List NonceRow)
    → (k : IsConsumed t nonce expires_at now rows rows') → IsRecorded t k.n k.e rows'
consume-IsRecorded t nonce expires_at now rows rows' k =
    rw k.table_is (IsRecorded-append_last t k.n k.e _)

-- A consumed nonce is refused as long as no reading of the clock for a purge has passed its expiry.
pub consume-replayed :
    (t : Option String) (nonce expires_at : Claim) (e checked_at now checked_again_at later : ℕ)
    (rows rows' : List NonceRow) (history : List Attempt)
    → consume_grant_nonce t nonce expires_at checked_at now rows ≡ ok rows'
    → expires_at ≡ whole e
    → (e - checked_again_at) + (checked_again_at - e) ≤ ten_years
    → later ≤ e
    → All (λ a. a.now ≤ e) history
    → consume_grant_nonce t nonce expires_at checked_again_at later (attempts rows' history)
      ≡ err grant_replayed
consume-replayed t nonce expires_at e checked_at now checked_again_at later rows rows' history first
      is_e near early between =
    let k = consume_grant_nonce-IsConsumed t nonce expires_at checked_at now rows rows' first in
    let same_time : e ≡ k.e = cc (is_e, k.expiry_is) in
    rw (k.nonce_is, k.expiry_is)
      (consume_of_IsRecorded t k.n k.e checked_again_at later (attempts rows' history) k.named
        (rw same_time at near) (omega (arith, same_time, early))
        (attempts-IsRecorded t k.n k.e rows' history
          (All-mono (λ a. a.now ≤ e) (λ a. a.now ≤ k.e) (λ a h. omega (arith, same_time, h)) history
            between)
          (consume-IsRecorded t nonce expires_at now rows rows' k)))

-- Once a grant's nonce is consumed, a later call with the same grant is refused as a replay:
-- whatever calls by anyone came between, as long as the grant itself still verifies at the moment
-- at which the nonce is looked up, and no call in between read a later time.
pub consume-verify_replayed :
    (c : Crypto) (name input : String) (access : Access) (keys : KeySource) (required : List String)
    (g : Grant) (t : Option String) (checked_at now later : ℕ) (rows rows' : List NonceRow)
    (history : List Attempt)
    → consume_grant_nonce t (claim "nonce" g) (claim "expiresAt" g) checked_at now rows ≡ ok rows'
    → All (λ a. a.now ≤ later) history
    → verify_signed_grant c name input access keys required later ≡ ok g
    → consume_grant_nonce t
        (claim "nonce" g)
        (claim "expiresAt" g)
        later
        later
        (attempts rows' history)
      ≡ err grant_replayed
consume-verify_replayed c name input access keys required g t checked_at now later rows rows'
      history first between still =
    let k =
      consume_grant_nonce-IsConsumed t (claim "nonce" g) (claim "expiresAt" g) checked_at now rows
        rows' first in
    let v = verify_signed_grant-IsVerified c name input access keys required later g still in
    let same_time : v.expires_at ≡ k.e = cc (v.expires, k.expiry_is) in
    let not_expired : later < v.expires_at = v.not_expired in
    let near : v.expires_at ≤ later + 65000 = v.not_too_long in
    rw (k.nonce_is, k.expiry_is)
      (consume_of_IsRecorded t k.n k.e later later (attempts rows' history) k.named (omega arith)
        (omega arith)
        (attempts-IsRecorded t k.n k.e rows' history
          (All-mono (λ a. a.now ≤ later) (λ a. a.now ≤ k.e) (λ a h. omega arith) history between)
          (consume-IsRecorded t (claim "nonce" g) (claim "expiresAt" g) now rows rows' k)))

-- Where the only row of the table is that of a consumed nonce, and its expiry lies before the time
-- of the purge, the same nonce with the same expiry is accepted again, and the table is as before.
pub consume_after_expiry :
    (t : Option String) (n : String) (e checked_at now : ℕ)
    → 0 < text_length n
    → text_length n ≤ max_claim_length
    → (e - checked_at) + (checked_at - e) ≤ ten_years
    → e < now
    → let r : NonceRow = record { tenant_id = t; nonce = n; expires_at = e } in
      consume_grant_nonce t (text n) (whole e) checked_at now (r ∷ []) ≡ ok (r ∷ [])
unfolding consume_grant_nonce nonce_text plausible_expiry insert_nonce purge is_used
consume_after_expiry t n e checked_at now some_text short near past = ground arith
