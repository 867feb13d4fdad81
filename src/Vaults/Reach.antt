-- ===== src/Vaults/Reach.antt =====
-- Every operation of VaultRegistry that writes, and what holds of the tables after any of them.
use memory_and_soul_passport.Prelude.{
  ℕ, String, ◌≡◌, refl, ap, ◌∙◌, inl, inr, Option, none, some, List, [], ◌∷◌, not, ◌&&◌, arith,
  ◌==◌, find, truthy, Option-cases, Bool-cases,
}
use memory_and_soul_passport.Errors.{Result, ok, err, >>=-eq-ok}
use memory_and_soul_passport.Vaults.{
  Vault, AccessMode, Registry, StableId, shared_of, workspace_private_of, global_private_of,
  get_vault_by_id, backfill, insert_vault, add_legacy, reread, shared_row, workspace_private_row,
  global_private_row, found_workspace, provision_shared_vault, provision_workspace_private_vault,
  provision_global_private_vault,
}
use memory_and_soul_passport.Vaults.Keeps.{IsValid, insert_vault-IsValid, backfill-IsValid}
use memory_and_soul_passport.Vaults.Principal.{
  Owner, provision_principal_private_vault, provision_principal_passport_vault,
}
use memory_and_soul_passport.Vaults.Principal.Provision.{
  private-IsProvisioned, passport-IsProvisioned, IsProvisioned-IsValid,
}
use memory_and_soul_passport.Vaults.Mounts.{mount_vault}
use memory_and_soul_passport.Vaults.Mounts.Laws.{mount_vault-IsLawful, IsMountedBy-IsValid}

-- A call of the registry, with the time and the minted ids that it is given.
pub data Operation : Type 0 where
  provisions_shared : (project : String) → ℕ → Operation
  provisions_workspace : (workspace : String) (project : Option String) → ℕ → Operation
  provisions_global : (agent : String) (role : Option String) → ℕ → Operation
  provisions_private : Owner → ℕ → (ℕ → String) → Operation
  provisions_passport : (tenant principal : String) → ℕ → (ℕ → String) → Operation
  mounts_vault : (vault workspace mount_alias : String) → AccessMode → ℕ → Operation

abbrev registry_of {ℓ} : {A : Type ℓ} → Registry → Result (Registry × A) → Registry
registry_of reg (ok (reg', a)) = reg'
registry_of reg (err e) = reg

module _ (stable_id : StableId) where
  pub step : Registry → Operation → Registry
  step reg (provisions_shared project now) =
      registry_of reg (provision_shared_vault stable_id project now reg)
  step reg (provisions_workspace workspace project now) =
      registry_of reg (provision_workspace_private_vault stable_id workspace project now reg)
  step reg (provisions_global agent role now) =
      registry_of reg (provision_global_private_vault stable_id agent role now reg)
  step reg (provisions_private owner now mint) =
      registry_of reg (provision_principal_private_vault owner now mint reg)
  step reg (provisions_passport tenant principal now mint) =
      registry_of reg (provision_principal_passport_vault tenant principal now mint reg)
  step reg (mounts_vault vault workspace mount_alias mode now) =
      registry_of reg (mount_vault stable_id vault workspace mount_alias mode now reg)

  pub run : Registry → List Operation → Registry
  unfolding step
  run reg [] = reg
  run reg (o ∷ os) = run (step reg o) os

registry_of-IsValid :
    {A : Type 0} (reg : Registry) (r : Result (Registry × A))
    → IsValid reg
    → ((reg' : Registry) (a : A) → r ≡ ok (reg', a) → IsValid reg')
    → IsValid (registry_of reg r)
registry_of-IsValid reg (ok (reg', a)) i f = f reg' a refl
registry_of-IsValid reg (err e) i f = i

add_legacy-IsValid :
    (v w : Vault) (reg reg' : Registry)
    → add_legacy v reg ≡ ok (reg', w)
    → IsValid reg
    → IsValid reg'
unfolding add_legacy
add_legacy-IsValid v w reg reg' h i =
    let (r, done, e) = >>=-eq-ok (insert_vault v reg) _ h in
    let same_reg : r ≡ reg' = ground arith in
    insert_vault-IsValid v reg reg' (done ∙ ap ok same_reg) i

reread-IsValid :
    (id : String) (w : Vault) (reg reg' : Registry)
    → reread id reg ≡ ok (reg', w)
    → IsValid reg
    → IsValid reg'
unfolding reread
reread-IsValid id w reg reg' h i = elim (Option-cases (get_vault_by_id id reg)) [
  | inl missing ↦ absurd (ground arith)
  | inr (v, there) ↦ let same_reg : reg' ≡ reg = ground arith in rw same_reg i
]

module _ (stable_id : StableId) where
  pub shared-IsValid :
      (project : String) (now : ℕ) (v : Vault) (reg reg' : Registry)
      → provision_shared_vault stable_id project now reg ≡ ok (reg', v)
      → IsValid reg
      → IsValid reg'
  unfolding provision_shared_vault
  shared-IsValid project now v reg reg' h i =
      elim (Option-cases (find (shared_of project) reg.vaults)) [
        | inl missing ↦
            add_legacy-IsValid (shared_row stable_id project now) v reg reg' (ground arith) i
        | inr (x, there) ↦ let same_reg : reg' ≡ reg = ground arith in rw same_reg i
      ]

  found_workspace-IsValid :
      (project : Option String) (x v : Vault) (reg reg' : Registry)
      → found_workspace stable_id project reg x ≡ ok (reg', v)
      → IsValid reg
      → IsValid reg'
  unfolding found_workspace
  found_workspace-IsValid none x v reg reg' h i =
      let same_reg : reg' ≡ reg = ground arith in rw same_reg i
  found_workspace-IsValid (some project) x v reg reg' h i =
      elim (Bool-cases (not (project == "") && not (truthy x.project_id))) [
        | inl fills ↦
            reread-IsValid x.vault_id v
              (record reg { vaults = backfill x.vault_id project reg.vaults }) reg' (ground arith)
              (backfill-IsValid x.vault_id project reg i)
        | inr keeps ↦ let same_reg : reg' ≡ reg = ground arith in rw same_reg i
      ]

  pub workspace-IsValid :
      (workspace : String) (project : Option String) (now : ℕ) (v : Vault) (reg reg' : Registry)
      → provision_workspace_private_vault stable_id workspace project now reg ≡ ok (reg', v)
      → IsValid reg
      → IsValid reg'
  unfolding provision_workspace_private_vault
  workspace-IsValid workspace project now v reg reg' h i =
      elim (Option-cases (find (workspace_private_of workspace) reg.vaults)) [
        | inl missing ↦
            add_legacy-IsValid (workspace_private_row stable_id workspace project now) v reg reg'
              (ground arith) i
        | inr (x, there) ↦ found_workspace-IsValid project x v reg reg' (ground arith) i
      ]

  pub global-IsValid :
      (agent : String) (role : Option String) (now : ℕ) (v : Vault) (reg reg' : Registry)
      → provision_global_private_vault stable_id agent role now reg ≡ ok (reg', v)
      → IsValid reg
      → IsValid reg'
  unfolding provision_global_private_vault
  global-IsValid agent role now v reg reg' h i =
      elim (Option-cases (find (global_private_of agent) reg.vaults)) [
        | inl missing ↦
            add_legacy-IsValid (global_private_row stable_id agent role now) v reg reg'
              (ground arith) i
        | inr (x, there) ↦ let same_reg : reg' ≡ reg = ground arith in rw same_reg i
      ]

  step-IsValid : (reg : Registry) (o : Operation) → IsValid reg → IsValid (step stable_id reg o)
  unfolding step
  step-IsValid reg (provisions_shared project now) i =
      registry_of-IsValid reg _ i (λ reg' v h. shared-IsValid project now v reg reg' h i)
  step-IsValid reg (provisions_workspace workspace project now) i =
      registry_of-IsValid reg _ i
        (λ reg' v h. workspace-IsValid workspace project now v reg reg' h i)
  step-IsValid reg (provisions_global agent role now) i =
      registry_of-IsValid reg _ i (λ reg' v h. global-IsValid agent role now v reg reg' h i)
  step-IsValid reg (provisions_private owner now mint) i =
      registry_of-IsValid reg _ i
        (λ reg' v h. IsProvisioned-IsValid (private-IsProvisioned owner now mint reg reg' v h) i)
  step-IsValid reg (provisions_passport tenant principal now mint) i =
      registry_of-IsValid reg _ i (λ reg' v h.
        IsProvisioned-IsValid (passport-IsProvisioned tenant principal now mint reg reg' v h) i)
  step-IsValid reg (mounts_vault vault workspace mount_alias mode now) i =
      registry_of-IsValid reg _ i (λ reg' m h.
        let (v, there, legacy, named, mounted) =
          mount_vault-IsLawful stable_id vault workspace mount_alias mode now reg reg' m h in
        IsMountedBy-IsValid v there legacy mounted i)

  -- After any sequence of calls of the provisioners and of mountVault on tables for which this
  -- holds already, the ids are distinct, no owner has two active principal vaults, and every
  -- mount has an id of its own and names a vault of the registry that is no principal vault.
  pub run-IsValid :
      (reg : Registry) (os : List Operation) → IsValid reg → IsValid (run stable_id reg os)
  unfolding run
  run-IsValid reg [] i = i
  run-IsValid reg (o ∷ os) i = run-IsValid (step stable_id reg o) os (step-IsValid reg o i)
