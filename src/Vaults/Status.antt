-- ===== src/Vaults/Status.antt =====
-- getVaultStatus of vault-registry.mjs. Each provisioner is a transaction of its own, so an error
-- keeps what the ones before it have written; each reads the clock once.
use memory_and_soul_passport.Prelude.{
  ℕ, String, Option, none, some, List, [], ◌∷◌, ◌++◌, if◌then◌else◌, ◌==◌, ◌≡◌, refl, inl, inr,
  Bool-cases,
}
use memory_and_soul_passport.Errors.{Result, ok, err}
use memory_and_soul_passport.Vaults.{
  Vault, Registry, StableId, provision_shared_vault, provision_workspace_private_vault,
  provision_global_private_vault,
}
use memory_and_soul_passport.Vaults.Keeps.{IsValid}
use memory_and_soul_passport.Vaults.Reach.{shared-IsValid, workspace-IsValid, global-IsValid}

abbrev Outcome : Type 0
Outcome = Registry × Result (List Vault)

-- `vaults.push(...)` of what a provisioner returns
add_vault : List Vault → Registry → Result (Registry × Vault) → Outcome
add_vault vs reg (ok (reg', v)) = (reg', ok (vs ++ v ∷ []))
add_vault vs reg (err e) = (reg, err e)

module _ (stable_id : StableId) where
  add_shared : Option String → Vault → ℕ → Registry → Outcome
  add_shared none v now reg = (reg, ok (v ∷ []))
  add_shared (some project) v now reg =
      if project == ""
      then (reg, ok (v ∷ []))
      else add_vault (v ∷ []) reg (provision_shared_vault stable_id project now reg)

  after_workspace : ℕ → Registry → Result (Registry × Vault) → Outcome
  after_workspace now reg (ok (reg', v)) = add_shared v.project_id v now reg'
  after_workspace now reg (err e) = (reg, err e)

  workspace_status : Option String → ℕ → ℕ → Registry → Outcome
  workspace_status none now₁ now₂ reg = (reg, ok [])
  workspace_status (some workspace) now₁ now₂ reg =
      if workspace == ""
      then (reg, ok [])
      else after_workspace now₂ reg
          (provision_workspace_private_vault stable_id workspace none now₁ reg)

  agent_status : Option String → ℕ → Outcome → Outcome
  agent_status agent now (reg, err e) = (reg, err e)
  agent_status none now (reg, ok vs) = (reg, ok vs)
  agent_status (some agent) now (reg, ok vs) =
      if agent == ""
      then (reg, ok vs)
      else add_vault vs reg (provision_global_private_vault stable_id agent none now reg)

  pub get_vault_status : Option String → Option String → ℕ → ℕ → ℕ → Registry → Outcome
  get_vault_status workspace agent now₁ now₂ now₃ reg =
      agent_status agent now₃ (workspace_status workspace now₁ now₂ reg)

  add_vault-IsValid :
      (vs : List Vault) (reg : Registry) (r : Result (Registry × Vault))
      → IsValid reg
      → ((reg' : Registry) (v : Vault) → r ≡ ok (reg', v) → IsValid reg')
      → IsValid (add_vault vs reg r).0
  unfolding add_vault
  add_vault-IsValid vs reg (ok (reg', v)) i f = f reg' v refl
  add_vault-IsValid vs reg (err e) i f = i

  add_shared-IsValid :
      (project : Option String) (v : Vault) (now : ℕ) (reg : Registry)
      → IsValid reg
      → IsValid (add_shared project v now reg).0
  unfolding add_shared
  add_shared-IsValid none v now reg i = i
  add_shared-IsValid (some project) v now reg i = elim (Bool-cases (project == "")) [
    | inl blank ↦ rw blank i
    | inr named ↦ rw named (
        add_vault-IsValid (v ∷ []) reg (provision_shared_vault stable_id project now reg) i
          (λ reg' w h. shared-IsValid stable_id project now w reg reg' h i))
  ]

  after_workspace-IsValid :
      (now : ℕ) (reg : Registry) (r : Result (Registry × Vault))
      → IsValid reg
      → ((reg' : Registry) (v : Vault) → r ≡ ok (reg', v) → IsValid reg')
      → IsValid (after_workspace now reg r).0
  unfolding after_workspace
  after_workspace-IsValid now reg (ok (reg', v)) i f =
      add_shared-IsValid v.project_id v now reg' (f reg' v refl)
  after_workspace-IsValid now reg (err e) i f = i

  workspace_status-IsValid :
      (workspace : Option String) (now₁ now₂ : ℕ) (reg : Registry)
      → IsValid reg
      → IsValid (workspace_status workspace now₁ now₂ reg).0
  unfolding workspace_status
  workspace_status-IsValid none now₁ now₂ reg i = i
  workspace_status-IsValid (some workspace) now₁ now₂ reg i = elim (Bool-cases (workspace == "")) [
    | inl blank ↦ rw blank i
    | inr named ↦ rw named (
        after_workspace-IsValid now₂ reg
          (provision_workspace_private_vault stable_id workspace none now₁ reg) i
          (λ reg' v h. workspace-IsValid stable_id workspace none now₁ v reg reg' h i))
  ]

  agent_status-IsValid :
      (agent : Option String) (now : ℕ) (o : Outcome)
      → IsValid o.0
      → IsValid (agent_status agent now o).0
  unfolding agent_status
  agent_status-IsValid agent now (reg, err e) i = i
  agent_status-IsValid none now (reg, ok vs) i = i
  agent_status-IsValid (some agent) now (reg, ok vs) i = elim (Bool-cases (agent == "")) [
    | inl blank ↦ rw blank i
    | inr named ↦ rw named (
        add_vault-IsValid vs reg (provision_global_private_vault stable_id agent none now reg) i
          (λ reg' v h. global-IsValid stable_id agent none now v reg reg' h i))
  ]

  -- A status call on valid tables leaves valid tables, also where it fails between two of its
  -- provisioners and keeps what the first has written.
  get_vault_status-IsValid :
      (workspace agent : Option String) (now₁ now₂ now₃ : ℕ) (reg : Registry)
      → IsValid reg
      → IsValid (get_vault_status workspace agent now₁ now₂ now₃ reg).0
  unfolding get_vault_status
  get_vault_status-IsValid workspace agent now₁ now₂ now₃ reg i =
      agent_status-IsValid agent now₃ (workspace_status workspace now₁ now₂ reg)
        (workspace_status-IsValid workspace now₁ now₂ reg i)
