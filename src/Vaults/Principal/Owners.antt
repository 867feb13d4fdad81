-- ===== src/Vaults/Principal/Owners.antt =====
-- One principal vault for each owner, whatever the number of calls.
use memory_and_soul_passport.Prelude.{
  ℕ, String, ◌≡◌, sym, ap, ◌∙◌, ◌≢◌, inl, inr, some, List, [], ◌∷◌, Bool, true, arith, find,
  find-append, find-IsSelected, find-All, Bool-cases, Pairwise,
}
use memory_and_soul_passport.Errors.{ok}
use memory_and_soul_passport.Vaults.{Vault, Registry, active_passport_of}
use memory_and_soul_passport.Vaults.Keeps.{IsValid, DistinctIds, insert_vault-IsInserted}
use memory_and_soul_passport.Vaults.Principal.{
  Owner, provision_principal, private_row, passport_row, private_of,
  provision_principal_private_vault, provision_principal_passport_vault,
}
use memory_and_soul_passport.Vaults.Principal.Provision.{
  IsProvisioned, found, inserted, private-IsProvisioned, passport-IsProvisioned,
  find_of_IsProvisioned, IsProvisioned-IsValid,
}

private_fits :
    (o : Owner) (now : ℕ) (id : String)
    → private_of o (record (private_row o now) { vault_id = id }) ≡ true
private_fits o now id = ground arith

passport_fits :
    (tenant principal : String) (now : ℕ) (id : String)
    → active_passport_of tenant principal
        (record (passport_row tenant principal now) { vault_id = id })
      ≡ true
passport_fits tenant principal now id = ground arith

-- A principal_private vault is provisioned once: any later call for the same owner, at any time and
-- with any ids to mint, returns the same vault and changes nothing.
pub provision_private_twice :
    (o : Owner) (now later : ℕ) (mint mint' : ℕ → String) (reg reg' : Registry) (v : Vault)
    → provision_principal_private_vault o now mint reg ≡ ok (reg', v)
    → provision_principal_private_vault o later mint' reg' ≡ ok (reg', v)
unfolding provision_principal_private_vault provision_principal
provision_private_twice o now later mint mint' reg reg' v h = ground (
  arith,
  find_of_IsProvisioned (private_of o) (private_row o now) v reg reg' (private_fits o now)
      (private-IsProvisioned o now mint reg reg' v h),
)

-- A principal_passport vault is provisioned once: any later call for the same tenant and principal,
-- at any time and with any ids to mint, returns the same vault and changes nothing.
pub provision_passport_twice :
    (tenant principal : String) (now later : ℕ) (mint mint' : ℕ → String) (reg reg' : Registry)
    (v : Vault)
    → provision_principal_passport_vault tenant principal now mint reg ≡ ok (reg', v)
    → provision_principal_passport_vault tenant principal later mint' reg' ≡ ok (reg', v)
unfolding provision_principal_passport_vault provision_principal
provision_passport_twice tenant principal now later mint mint' reg reg' v h = ground (
  arith,
  find_of_IsProvisioned (active_passport_of tenant principal) (passport_row tenant principal now) v
      reg reg' (passport_fits tenant principal now)
      (passport-IsProvisioned tenant principal now mint reg reg' v h),
)

-- Two rows that are found in one table and have one id are one row.
pub same_row_of_same_id :
    (p q : Vault → Bool) (vs : List Vault) (v w : Vault)
    → Pairwise DistinctIds vs
    → find p vs ≡ some v
    → find q vs ≡ some w
    → v.vault_id ≡ w.vault_id
    → v ≡ w
unfolding find
same_row_of_same_id p q [] v w d e f s = cc
same_row_of_same_id p q (x ∷ vs) v w (h, d) e f s = elim (Bool-cases (p x)) [
  | inl px ↦ elim (Bool-cases (q x)) [
    | inl qx ↦ ground arith
    | inr nq ↦
        let is : x ≡ v = ground arith in
        let later : find q vs ≡ some w = ground arith in
        absurd (find-All q (DistinctIds x) vs h later (ap (λ (y : Vault). y.vault_id) is ∙ s))
  ]
  | inr np ↦ elim (Bool-cases (q x)) [
    | inl qx ↦
        let is : x ≡ w = ground arith in
        let later : find p vs ≡ some v = ground arith in
        absurd (find-All p (DistinctIds x) vs h later (ap (λ (y : Vault). y.vault_id) is ∙ sym s))
    | inr nq ↦ same_row_of_same_id p q vs v w d (ground arith) (ground arith) s
  ]
]

owner_of_fits : (o o' : Owner) (v : Vault) → private_of o v ≡ true → private_of o' v ≡ true → o ≡ o'
owner_of_fits o o' v h k = ground arith

find-later :
    (p w : Vault → Bool) (row x v : Vault) (reg reg' : Registry)
    → IsProvisioned w row reg reg' v
    → find p reg.vaults ≡ some x
    → find p reg'.vaults ≡ some x
find-later p w row x v reg reg' (found there same_reg) e = rw same_reg e
find-later p w row x v reg reg' (inserted id missing is done) e =
    let k = insert_vault-IsInserted v reg reg' done in
    rw (k.result, find-append p reg.vaults (v ∷ []), e)

-- On valid tables, two owners that differ in any field get vaults with different ids: two agents
-- that serve one person, too.
pub provision_private_separates :
    (o o' : Owner) (now later : ℕ) (mint mint' : ℕ → String) (reg reg₁ reg₂ : Registry)
    (v v' : Vault)
    → IsValid reg
    → o ≢ o'
    → provision_principal_private_vault o now mint reg ≡ ok (reg₁, v)
    → provision_principal_private_vault o' later mint' reg₁ ≡ ok (reg₂, v')
    → v.vault_id ≢ v'.vault_id
provision_private_separates o o' now later mint mint' reg reg₁ reg₂ v v' i different h h' same_id =
    let p = private-IsProvisioned o now mint reg reg₁ v h in
    let p' = private-IsProvisioned o' later mint' reg₁ reg₂ v' h' in
    let e = find_of_IsProvisioned _ _ v reg reg₁ (private_fits o now) p in
    let e' = find_of_IsProvisioned _ _ v' reg₁ reg₂ (private_fits o' later) p' in
    let e₂ = find-later (private_of o) _ _ v v' reg₁ reg₂ p' e in
    let i₂ = IsProvisioned-IsValid p' (IsProvisioned-IsValid p i) in
    let same_row =
      same_row_of_same_id (private_of o) (private_of o') reg₂.vaults v v' i₂.ids e₂ e' same_id in
    different (
      owner_of_fits o o' v' (rw same_row at (find-IsSelected (private_of o) reg₂.vaults e₂))
        (find-IsSelected (private_of o') reg₂.vaults e'))
