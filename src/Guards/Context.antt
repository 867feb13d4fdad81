-- ===== src/Guards/Context.antt =====
-- packages/msp-contracts/src/contracts/context-scope-guard.mjs: who may read a stored context.
use memory_and_soul_passport.Prelude.{
  ℕ, String, ◌≡◌, refl, ap, Bool-cases, ◌↔◌, inl, inr, Bool, true, false, not, ◌&&◌, Option, none,
  some, List, [], ◌∷◌, if◌then◌else◌, dec_text, arith,
}
use memory_and_soul_passport.Errors.{
  Error, Result, ok, err, guard, invalid_request, is_grant_error, is_ok, Result-cases,
}
use memory_and_soul_passport.Grant.{
  Claim, absent, text, Grant, claim, Access, KeySource, Crypto, verify_signed_grant,
}
use memory_and_soul_passport.Grant.Verify.{
  IsVerified, verify_signed_grant-IsVerified, verify_signed_grant_complete,
  verify_signed_grant-error,
}

-- The owner columns of a row of `contexts`.
pub record ContextOwner : Type 0 where
  pub tenant_id : Option String
  pub principal_id : Option String

abbrev is_present : Option String → Bool
is_present none = false
is_present (some s) = true

pub assert_scope_columns_consistent : Option String → Option String → Result (Unit {0})
assert_scope_columns_consistent none none = ok tt
assert_scope_columns_consistent (some t) (some p) = ok tt
assert_scope_columns_consistent _ _ = err invalid_request

pub data ContextAccess : Type 0 where
  unscoped denied allowed : ContextAccess

-- `claims.tenantId === row.tenant_id` for a column that is not NULL
abbrev is_claimed : String → Claim → Bool
is_claimed s (text t) = elim (dec_text t s) [ yes _ ↦ true | no _ ↦ false ]
is_claimed s _ = false

classify_owner : Option String → Option String → Option Grant → ContextAccess
classify_owner none none g = unscoped
classify_owner (some t) (some p) (some g) =
    if is_claimed t (claim "tenantId" g) && is_claimed p (claim "principalId" g)
    then allowed
    else denied
classify_owner _ _ _ = denied

-- classifyContextAccess: null, "denied" and "ok"
pub classify_context_access : ContextOwner → Option Grant → ContextAccess
unfolding classify_owner
classify_context_access row claims = classify_owner row.tenant_id row.principal_id claims

abbrev is_unscoped : ContextAccess → Bool
is_unscoped unscoped = true
is_unscoped _ = false

abbrev is_allowed : ContextAccess → Bool
is_allowed allowed = true
is_allowed _ = false

abbrev pub context_claims : List String
context_claims = "tenantId" ∷ "principalId" ∷ []

-- What is left of a verification: its claims are compared, and a grant error is a plain refusal.
abbrev compare_or_refuse : ContextOwner → Result Grant → Result Bool
compare_or_refuse row (ok g) = ok (is_allowed (classify_context_access row (some g)))
compare_or_refuse row (err e) = if is_grant_error e then ok false else err e

pub can_read_context :
    Crypto → Option ContextOwner → String → String → Access → KeySource → ℕ → Result Bool
unfolding classify_context_access
can_read_context c none name input access keys now = ok false
can_read_context c (some row) name input access keys now =
    if is_unscoped (classify_context_access row none)
    then ok false
    else compare_or_refuse row (verify_signed_grant c name input access keys context_claims now)

abbrev pub assert_payload_not_requested_for_scoped_diff : Bool → Bool → Result (Unit {0})
assert_payload_not_requested_for_scoped_diff requested scoped =
    guard (not (requested && scoped)) invalid_request

-- The row has an owner, and the grant names it.
abbrev pub IsOwner : ContextOwner → Grant → Type 0
IsOwner row g =
    (t : String) × (p : String) × (row.tenant_id ≡ some t)
    × (row.principal_id ≡ some p)
    × (claim "tenantId" g ≡ text t)
    × (claim "principalId" g ≡ text p)

is_claimed_sound : (s : String) (v : Claim) → is_claimed s v ≡ true → v ≡ text s
is_claimed_sound s (text t) h = ground arith
is_claimed_sound s absent h = cc
is_claimed_sound s _ h = cc

classify_owner_iff :
    (tenant principal : Option String) (g : Grant)
    → (is_allowed (classify_owner tenant principal (some g)) ≡ true) ↔ (
        (t : String) × (p : String) × (tenant ≡ some t)
        × (principal ≡ some p)
        × (claim "tenantId" g ≡ text t)
        × (claim "principalId" g ≡ text p))
unfolding classify_owner
classify_owner_iff none none g = (λ h. cc, λ (t, p, a, b, d, e). cc)
classify_owner_iff none (some q) g = (λ h. cc, λ (t, p, a, b, d, e). cc)
classify_owner_iff (some s) none g = (λ h. cc, λ (t, p, a, b, d, e). cc)
classify_owner_iff (some s) (some q) g = (
  λ h. (
    s,
    q,
    refl,
    refl,
    is_claimed_sound s (claim "tenantId" g) (ground arith),
    is_claimed_sound q (claim "principalId" g) (ground arith),
  ),
  λ (t, p, a, b, d, e).
      let same_tenant : s ≡ t = cc in let same_principal : q ≡ p = cc in rw (d, e) (ground arith),
)

unscoped_denied :
    (tenant principal : Option String) (g : Grant)
    → is_unscoped (classify_owner tenant principal none) ≡ true
    → is_allowed (classify_owner tenant principal (some g)) ≡ false
unfolding classify_owner
unscoped_denied none none g h = refl
unscoped_denied none (some p) g h = cc
unscoped_denied (some t) none g h = cc
unscoped_denied (some t) (some p) g h = cc

module _ (c : Crypto) (row : ContextOwner) (name input : String) (access : Access)
    (keys : KeySource) (now : ℕ) where
  can_read_accepted :
      (g : Grant)
      → verify_signed_grant c name input access keys context_claims now ≡ ok g
      → can_read_context c (some row) name input access keys now
        ≡ ok (is_allowed (classify_context_access row (some g)))
  unfolding can_read_context classify_context_access
  can_read_accepted g accepted =
      elim (Bool-cases (is_unscoped (classify_owner row.tenant_id row.principal_id none))) [
        | inl bare ↦ rw (bare, unscoped_denied row.tenant_id row.principal_id g bare) refl
        | inr owned ↦ rw (owned, accepted) refl
      ]

  can_read_refused :
      (e : Error)
      → verify_signed_grant c name input access keys context_claims now ≡ err e
      → can_read_context c (some row) name input access keys now ≡ ok false
  unfolding can_read_context
  can_read_refused e refused =
      let code = verify_signed_grant-error c name input access keys context_claims now e refused in
      rw refused (ground arith)

  -- A context is readable exactly when its row has a tenant and a principal and the request carries
  -- a verified grant whose claims are these two; the check never throws.
  pub can_read_context_iff :
      (is_ok (can_read_context c (some row) name input access keys now) ≡ true)
      × ((can_read_context c (some row) name input access keys now ≡ ok true) ↔ (
          (g : Grant) × IsVerified c name input access keys context_claims now g × IsOwner row g))
  unfolding classify_context_access classify_owner
  can_read_context_iff =
      elim (Result-cases (verify_signed_grant c name input access keys context_claims now)) [
        | inl (e, refused) ↦
            let no = can_read_refused e refused in
            (
              rw no refl,
              (
                λ h. absurd (cc),
                λ (g, v, o).
                    let accepted =
                      verify_signed_grant_complete c name input access keys context_claims now g
                        v in
                    absurd (cc),
              ),
            )
        | inr (g, accepted) ↦
            let eq = can_read_accepted g accepted in
            let owner = classify_owner_iff row.tenant_id row.principal_id g in
            (
              rw eq refl,
              (
                λ h. (
                  g,
                  verify_signed_grant-IsVerified c name input access keys context_claims now g
                      accepted,
                  owner.0 (cc),
                ),
                λ (g', v, o).
                    let again =
                      verify_signed_grant_complete c name input access keys context_claims now g'
                        v in
                    let same_grant : g' ≡ g = cc in rw eq (ap ok (owner.1 (rw same_grant at o))),
              ),
            )
      ]
