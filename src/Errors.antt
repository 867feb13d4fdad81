-- ===== src/Errors.antt =====
-- The typed errors of packages/msp-core/src/domain/errors.mjs and
-- packages/msp-contracts/src/contracts/errors.mjs, by their `code`, and results that carry them.
-- `type_error` is the TypeError of an argument check; the `sqlite_` codes are those of a failed
-- constraint of the database. The texts of the messages are left out.
use memory_and_soul_passport.Prelude.{Bool, true, false, ◌≡◌, refl, ◌⊎◌, inl, inr}

pub data Error : Type 0 where
  grant_required grant_unconfigured grant_signature_invalid grant_expired : Error
  grant_payload_mismatch grant_nonce_required grant_replayed : Error
  vault_scope_denied access_context_required access_context_denied thread_scope_denied : Error
  not_found invalid_request validation_failed vault_provision_conflict : Error
  thread_conflict compaction_lease_conflict : Error
  type_error sqlite_primary_key sqlite_unique sqlite_check sqlite_foreign_key sqlite_trigger : Error

-- `error.code.startsWith("grant_")`
abbrev pub is_grant_error : Error → Bool
is_grant_error grant_required = true
is_grant_error grant_unconfigured = true
is_grant_error grant_signature_invalid = true
is_grant_error grant_expired = true
is_grant_error grant_payload_mismatch = true
is_grant_error grant_nonce_required = true
is_grant_error grant_replayed = true
is_grant_error _ = false

-- What a call returns or throws.
pub data Result {ℓ} (Value : Type ℓ) : Type ℓ where
  err : Error → Result Value
  ok : Value → Result Value

-- A check that throws when it fails.
abbrev pub guard : Bool → Error → Result (Unit {0})
guard false thrown = err thrown
guard true thrown = ok tt

module _ {ℓ κ} {Value : Type ℓ} {Next : Type κ} where
  infixl 5 ◌>>=◌
  abbrev pub ◌>>=◌ : Result Value → (Value → Result Next) → Result Next
  err thrown >>= next = err thrown
  ok value >>= next = next value

  -- Where two calls in a row succeed, each of them did.
  pub >>=-eq-ok :
      (first : Result Value) (next : Value → Result Next) {last : Next}
      → (first >>= next) ≡ ok last
      → (value : Value) × (first ≡ ok value) × (next value ≡ ok last)
  >>=-eq-ok (err thrown) next returned = cc
  >>=-eq-ok (ok value) next returned = (value, refl, returned)

  -- Where two calls in a row throw, the first one did, or the second one after it.
  pub >>=-eq-err :
      (first : Result Value) (next : Value → Result Next) {thrown : Error}
      → (first >>= next) ≡ err thrown
      → (first ≡ err thrown) ⊎ ((value : Value) × (first ≡ ok value) × (next value ≡ err thrown))
  >>=-eq-err (err e) next raised = inl cc
  >>=-eq-err (ok value) next raised = inr (value, refl, raised)

module _ {ℓ} {Value : Type ℓ} where
  infixl 5 ◌>>◌
  abbrev pub ◌>>◌ : Result (Unit {0}) → Result Value → Result Value
  check >> rest = check >>= λ done. rest

  abbrev pub is_ok : Result Value → Bool
  is_ok (err thrown) = false
  is_ok (ok value) = true

  pub Result-cases :
      (r : Result Value) → ((e : Error) × (r ≡ err e)) ⊎ ((value : Value) × (r ≡ ok value))
  Result-cases (err thrown) = inl (thrown, refl)
  Result-cases (ok value) = inr (value, refl)

  -- Code after a check that returns means that the check has passed.
  pub guard-eq-ok :
      (test : Bool) (thrown : Error) (rest : Result Value) {last : Value}
      → (guard test thrown >> rest) ≡ ok last
      → (test ≡ true) × (rest ≡ ok last)
  guard-eq-ok false thrown rest returned = cc
  guard-eq-ok true thrown rest returned = (refl, returned)

-- What a step that throws leaves behind: the transaction is rolled back.
abbrev pub state_after {ℓ κ} :
    {State : Type ℓ} {Value : Type κ} → State → Result (State × Value) → State
state_after before (err thrown) = before
state_after before (ok (after, value)) = after
