-- ===== src/Memory/Authorized.antt =====
-- What checkAccess of memory-handlers.mjs decides on a principal vault.
use memory_and_soul_passport.Prelude.{
  ℕ, ◌≡◌, refl, ◌∙◌, sym, Bool, true, Option, none, some, arith, inl, inr,
}
use memory_and_soul_passport.Errors.{
  Error, Result, ok, err, not_found, >>=-eq-ok, guard-eq-ok, Result-cases,
}
use memory_and_soul_passport.Grant.{Grant, Access}
use memory_and_soul_passport.Vaults.{
  Vault, VaultType, shared, workspace_private, global_private, principal_private,
  principal_passport, active, Registry, is_principal,
}
use memory_and_soul_passport.Vaults.Access.{
  AccessOutcome, not_principal, access_context_denied, classify_principal_access, ok as granted,
}
use memory_and_soul_passport.Vaults.Access.Isolation.{MayReach, classify_principal_access_iff}
use memory_and_soul_passport.Guards.{verify_vault_grant, assert_global_private_grant}
use memory_and_soul_passport.Memory.{
  Gate, Envelope, caller_of, is_allowed, is_granted, nonce_if, or_throw, verified, check_principal,
  check_by_type, check_access, check_global, check_global_grant,
}

is_granted_sound : (o : AccessOutcome) → is_granted o ≡ true → o ≡ granted
is_granted_sound granted h = refl
is_granted_sound not_principal h = cc
is_granted_sound access_context_denied h = cc

or_throw-eq-ok :
    (e : Error) (r : Result Grant) {o : Option Grant}
    → or_throw e r ≡ ok o
    → (g : Grant) × (r ≡ ok g) × (o ≡ some g)
or_throw-eq-ok e (err _) h = cc
or_throw-eq-ok e (ok g) h = (g, refl, ground arith)

or_throw-error : (e thrown : Error) (r : Result Grant) → or_throw e r ≡ err thrown → thrown ≡ e
or_throw-error e thrown (err _) h = ground arith
or_throw-error e thrown (ok g) h = cc

module _ (gate : Gate) (registry : Registry) (vault : Vault) (request : Envelope)
    (nonce_required : Bool) (now later : ℕ) where
  check_global-none :
      (a : Option Access)
      → check_global gate registry vault request nonce_required now a ≡ ok none
      → check_global gate registry vault request nonce_required later a ≡ ok none
  unfolding check_global check_global_grant
  check_global-none none h = h
  check_global-none (some access) h =
      elim (Result-cases (verified gate registry vault request nonce_required now access)) [
        | inl (e, p) ↦ let k = rw (check_global, p) at h in absurd cc
        | inr (g, p) ↦
            let k = rw (check_global, p) at h in
            let (_, _, k₁) = >>=-eq-ok (assert_global_private_grant vault (some g)) _ k in
            let (_, _, k₂) = >>=-eq-ok (nonce_if nonce_required g) (λ _. ok (some g)) k₁ in
            absurd cc
      ]

  check_by_type-none :
      (type : VaultType)
      → check_by_type gate registry vault request nonce_required now type ≡ ok none
      → check_by_type gate registry vault request nonce_required later type ≡ ok none
  unfolding check_by_type
  check_by_type-none shared h = refl
  check_by_type-none workspace_private h = refl
  check_by_type-none global_private h = check_global-none request.access h
  check_by_type-none principal_private h =
      let (g, _, is_g) = or_throw-eq-ok not_found _ h in absurd cc
  check_by_type-none principal_passport h =
      let (g, _, is_g) = or_throw-eq-ok not_found _ h in absurd cc

  -- A check that asks for no grant asks for none at any time.
  pub check_access-none :
      check_access gate registry vault request nonce_required now ≡ ok none
      → check_access gate registry vault request nonce_required later ≡ ok none
  unfolding check_access
  check_access-none h = check_by_type-none vault.vault_type h

module _ (gate : Gate) (registry : Registry) (vault : Vault) (request : Envelope)
    (nonce_required : Bool) (now : ℕ) where
  -- What a principal vault asks of a request: a grant that verifies and whose claims reach the vault.
  pub record IsAuthorized (g : Grant) : Type 0 where
    pub access : Access
    pub presented : request.access ≡ some access
    pub verifies :
        verify_vault_grant gate.crypto request.tool request.input access gate.keys vault.vault_type
          now
        ≡ ok g
    pub status : vault.status ≡ active
    pub reaches : MayReach registry vault (caller_of g) vault.vault_type

  principal_branch :
      is_principal vault.vault_type ≡ true
      → check_access gate registry vault request nonce_required now
        ≡ or_throw not_found
            (check_principal gate registry vault request nonce_required now request.access)
  unfolding check_access check_by_type
  principal_branch p = ground arith

  check_principal_sound :
      (a : Option Access) (g : Grant)
      → check_principal gate registry vault request nonce_required now a ≡ ok g
      → (access : Access) × (a ≡ some access)
        × (verify_vault_grant gate.crypto request.tool request.input access gate.keys
              vault.vault_type now
            ≡ ok g)
        × (classify_principal_access registry (some vault) (some (caller_of g)) ≡ granted)
  unfolding check_principal verified
  check_principal_sound none g h = cc
  check_principal_sound (some access) g h =
      let (g', ver, h₁) =
        >>=-eq-ok (verified gate registry vault request nonce_required now access) _ h in
      let (reach, h₂) =
        guard-eq-ok
          (is_granted (classify_principal_access registry (some vault) (some (caller_of g')))) _ _
          h₁ in
      let (_, h₃) = guard-eq-ok (is_allowed vault.vault_type g') _ _ h₂ in
      let (_, _, h₄) = >>=-eq-ok (nonce_if nonce_required g') (λ _. ok g') h₃ in
      let same : g' ≡ g = ground arith in rw (← same) (access, refl, ver, is_granted_sound _ reach)

  pub check_access-IsAuthorized :
      (o : Option Grant)
      → is_principal vault.vault_type ≡ true
      → check_access gate registry vault request nonce_required now ≡ ok o
      → (g : Grant) × (o ≡ some g) × IsAuthorized g
  check_access-IsAuthorized o p h =
      let (g, checked, is_g) = or_throw-eq-ok not_found _ (sym (principal_branch p) ∙ h) in
      let (access, presented, ver, reach) = check_principal_sound request.access g checked in
      let (_, (c, same, act, may)) = (classify_principal_access_iff registry vault _).0 reach in
      let is_c : caller_of g ≡ c = ground arith in
      (
        g,
        is_g,
        record {
          access = access;
          presented = presented;
          verifies = ver;
          status = act;
          reaches = rw is_c may;
        },
      )

  -- Every failure of the check on a principal vault has the error of a vault that does not exist.
  pub check_access-hidden :
      (e : Error)
      → is_principal vault.vault_type ≡ true
      → check_access gate registry vault request nonce_required now ≡ err e
      → e ≡ not_found
  check_access-hidden e p h = or_throw-error not_found e _ (sym (principal_branch p) ∙ h)
