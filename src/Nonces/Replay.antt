-- ===== src/Nonces/Replay.antt =====
-- A nonce is good for one call for as long as its grant can be verified.
use memory_and_soul_passport.Prelude.{
  ap, subst, ℕ, zero, suc, ◌+◌, ◌-◌, ◌≤◌, String, ◌≡◌, refl, ◌⊎◌, inl, inr, true, false, Option,
  List, [], ◌∷◌, ◌++◌, arith, All,
}
use memory_and_soul_passport.Errors.{ok, err, grant_replayed, >>=-eq-ok, Result-cases}
use memory_and_soul_passport.Grant.{Claim, text, whole}
use memory_and_soul_passport.Nonces.{
  NonceRow, ten_years, purge_limit, purge, is_used, nonce_text, plausible_expiry, insert_nonce,
  consume_grant_nonce, Attempt, attempt, attempts,
}

-- The table holds this nonce, under this expiry.
abbrev pub IsRecorded : Option String → String → ℕ → List NonceRow → Type 0
IsRecorded t n e [] = ⊥
IsRecorded t n e (r ∷ rows) =
    ((r.tenant_id ≡ t) × (r.nonce ≡ n) × (r.expires_at ≡ e)) ⊎ IsRecorded t n e rows

IsRecorded-purge :
    (t : Option String) (n : String) (e k now : ℕ) (rows : List NonceRow)
    → now ≤ e
    → IsRecorded t n e rows
    → IsRecorded t n e (purge k now rows)
unfolding purge
IsRecorded-purge t n e zero now rows h r = r
IsRecorded-purge t n e (suc k) now [] h r = elim r [ ]
IsRecorded-purge t n e (suc k) now (x ∷ rows) h r =
    ground (arith, IsRecorded-purge t n e k now rows h, IsRecorded-purge t n e (suc k) now rows h)

IsRecorded-append :
    (t : Option String) (n : String) (e : ℕ) (rows more : List NonceRow)
    → IsRecorded t n e rows
    → IsRecorded t n e (rows ++ more)
IsRecorded-append t n e [] more r = elim r [ ]
IsRecorded-append t n e (x ∷ rows) more (inl p) = inl p
IsRecorded-append t n e (x ∷ rows) more (inr r) = inr (IsRecorded-append t n e rows more r)

pub IsRecorded-append_last :
    (t : Option String) (n : String) (e : ℕ) (rows : List NonceRow)
    → IsRecorded t n e (rows ++ record { tenant_id = t; nonce = n; expires_at = e } ∷ [])
IsRecorded-append_last t n e [] = inl (refl, refl, refl)
IsRecorded-append_last t n e (x ∷ rows) = inr (IsRecorded-append_last t n e rows)

is_used_of_IsRecorded :
    (t : Option String) (n : String) (e : ℕ) (rows : List NonceRow)
    → IsRecorded t n e rows
    → is_used t n rows ≡ true
unfolding is_used
is_used_of_IsRecorded t n e [] r = elim r [ ]
is_used_of_IsRecorded t n e (x ∷ rows) r = ground (arith, is_used_of_IsRecorded t n e rows)

nonce_text_sound :
    (v : Claim) {n : String} → nonce_text v ≡ ok n → (v ≡ text n) × (nonce_text (text n) ≡ ok n)
unfolding nonce_text
nonce_text_sound (text s) {n} h =
    let same_text : s ≡ n = ground arith in
    (ap text same_text, subst (λ x. nonce_text (text x) ≡ ok n) same_text h)
nonce_text_sound (whole k) h = cc
nonce_text_sound _ h = cc

plausible_expiry_sound : (v : Claim) (at : ℕ) {e : ℕ} → plausible_expiry v at ≡ ok e → v ≡ whole e
unfolding plausible_expiry
plausible_expiry_sound (whole k) at h = ground arith
plausible_expiry_sound (text s) at h = cc
plausible_expiry_sound _ at h = cc

-- What a call that succeeds has found and done.
pub record IsConsumed (t : Option String) (nonce expires_at : Claim) (now : ℕ)
    (rows rows' : List NonceRow) : Type 0 where
  pub n : String
  pub e : ℕ
  pub nonce_is : nonce ≡ text n
  pub named : nonce_text (text n) ≡ ok n
  pub expiry_is : expires_at ≡ whole e
  pub was_unused : is_used t n (purge purge_limit now rows) ≡ false
  pub table_is :
      rows' ≡ purge purge_limit now rows ++ record { tenant_id = t; nonce = n; expires_at = e } ∷ []

pub consume_grant_nonce-IsConsumed :
    (t : Option String) (nonce expires_at : Claim) (checked_at now : ℕ) (rows rows' : List NonceRow)
    → consume_grant_nonce t nonce expires_at checked_at now rows ≡ ok rows'
    → IsConsumed t nonce expires_at now rows rows'
unfolding consume_grant_nonce
consume_grant_nonce-IsConsumed t nonce expires_at checked_at now rows rows' h =
    let (n, named, h₁) = >>=-eq-ok (nonce_text nonce) _ h in
    let (e, plausible, h₂) = >>=-eq-ok (plausible_expiry expires_at checked_at) _ h₁ in
    record {
      n = n;
      e = e;
      nonce_is = (nonce_text_sound nonce named).0;
      named = (nonce_text_sound nonce named).1;
      expiry_is = plausible_expiry_sound expires_at checked_at plausible;
      was_unused = unused n e h₂;
      table_is = appended n e h₂;
    }
  where
    unused :
        (n : String) (e : ℕ)
        → insert_nonce t n e (purge purge_limit now rows) ≡ ok rows'
        → is_used t n (purge purge_limit now rows) ≡ false
    unused n e i = ground arith

    appended :
        (n : String) (e : ℕ)
        → insert_nonce t n e (purge purge_limit now rows) ≡ ok rows'
        → rows'
          ≡ purge purge_limit now rows ++ record { tenant_id = t; nonce = n; expires_at = e } ∷ []
    appended n e i = ground arith

attempt-IsRecorded :
    (t : Option String) (n : String) (e : ℕ) (rows : List NonceRow) (a : Attempt)
    → a.now ≤ e
    → IsRecorded t n e rows
    → IsRecorded t n e (attempt rows a)
unfolding attempt
attempt-IsRecorded t n e rows a h r =
    elim (Result-cases
      (consume_grant_nonce a.tenant_id a.nonce a.expires_at a.checked_at a.now rows)) [
        | inl (x, failed) ↦ rw (failed, attempt) r
        | inr (rows', done) ↦
            let c =
              consume_grant_nonce-IsConsumed a.tenant_id a.nonce a.expires_at a.checked_at a.now
                rows rows' done in
            rw (done, attempt, c.table_is)
              (IsRecorded-append t n e _ _ (IsRecorded-purge t n e purge_limit a.now rows h r))
      ]

pub attempts-IsRecorded :
    (t : Option String) (n : String) (e : ℕ) (rows : List NonceRow) (history : List Attempt)
    → All (λ a. a.now ≤ e) history
    → IsRecorded t n e rows
    → IsRecorded t n e (attempts rows history)
unfolding attempts
attempts-IsRecorded t n e rows [] h r = r
attempts-IsRecorded t n e rows (a ∷ history) (early, h) r =
    attempts-IsRecorded t n e (attempt rows a) history h (attempt-IsRecorded t n e rows a early r)

-- Where the nonce is recorded and its row is not past its expiry, a call is refused.
pub consume_of_IsRecorded :
    (t : Option String) (n : String) (e checked_at now : ℕ) (rows : List NonceRow)
    → nonce_text (text n) ≡ ok n
    → (e - checked_at) + (checked_at - e) ≤ ten_years
    → now ≤ e
    → IsRecorded t n e rows
    → consume_grant_nonce t (text n) (whole e) checked_at now rows ≡ err grant_replayed
unfolding consume_grant_nonce plausible_expiry insert_nonce
consume_of_IsRecorded t n e checked_at now rows named near h r = ground (
  arith,
  is_used_of_IsRecorded t n e (purge purge_limit now rows)
      (IsRecorded-purge t n e purge_limit now rows h r),
)
