-- ===== src/Vaults/Principal.antt =====
-- #provisionPrincipalVault of vault-registry.mjs and its two callers. `mint i` is the id that
-- the i-th call of mintVaultId() returns. The call runs alone (an immediate transaction), so its
-- insert meets no snapshot of another writer.
pub mod Provision
pub mod Owners
pub mod Minting
use memory_and_soul_passport.Prelude.{
  ℕ, zero, suc, String, ◌≡◌, refl, Option, none, some, List, Bool, true, false, ◌||◌, if◌then◌else◌,
  ◌==◌, find, any, dec_text,
}
use memory_and_soul_passport.Errors.{
  Error, Result, ok, err, vault_provision_conflict, type_error, sqlite_primary_key, sqlite_unique,
}
use memory_and_soul_passport.Vaults.{
  Vault, principal_private, principal_passport, active, ebbinghaus, pinned, Registry,
  active_private_of, active_passport_of, insert_vault,
}

abbrev pub provision_id_mint_retry_limit : ℕ
provision_id_mint_retry_limit = 5

-- The owner of a principal vault.
pub record Owner : Type 0 where
  pub tenant_id : String
  pub principal_id : String
  pub agent_id : String
  pub workspace_id : String

-- The loop of the insert: `retries` more ids may be minted after the one of `attempt`.
unfoldable pub insert_minted : ℕ → (ℕ → String) → ℕ → Vault → Registry → Result (Registry × Vault)
insert_minted zero mint attempt row reg =
    elim (insert_vault (record row { vault_id = mint attempt }) reg) [
      | ok reg' ↦ ok (reg', record row { vault_id = mint attempt })
      | err sqlite_primary_key ↦ err vault_provision_conflict
      | err sqlite_unique ↦ err vault_provision_conflict
      | err e ↦ err e
    ]
insert_minted (suc retries) mint attempt row reg =
    elim (insert_vault (record row { vault_id = mint attempt }) reg) [
      | ok reg' ↦ ok (reg', record row { vault_id = mint attempt })
      | err sqlite_primary_key ↦ insert_minted retries mint (suc attempt) row reg
      | err sqlite_unique ↦ err vault_provision_conflict
      | err e ↦ err e
    ]

unfoldable pub provision_principal :
    (Vault → Bool) → Vault → (ℕ → String) → Registry → Result (Registry × Vault)
unfolding insert_minted
provision_principal active_where row mint reg = elim (find active_where reg.vaults) [
  | some v ↦ ok (reg, v)
  | none ↦ insert_minted provision_id_mint_retry_limit mint 0 row reg
]

-- The row before its id is minted.
abbrev pub private_row : Owner → ℕ → Vault
private_row o now = record {
  vault_id = "";
  vault_type = principal_private;
  project_id = none;
  workspace_id = some o.workspace_id;
  agent_id = some o.agent_id;
  tenant_id = some o.tenant_id;
  principal_id = some o.principal_id;
  role = none;
  status = active;
  decay_policy = ebbinghaus;
  created_at = now;
}

abbrev pub passport_row : String → String → ℕ → Vault
passport_row tenant principal now = record {
  vault_id = "";
  vault_type = principal_passport;
  project_id = none;
  workspace_id = none;
  agent_id = none;
  tenant_id = some tenant;
  principal_id = some principal;
  role = none;
  status = active;
  decay_policy = pinned;
  created_at = now;
}

abbrev pub private_of : Owner → Vault → Bool
private_of o = active_private_of o.tenant_id o.principal_id o.agent_id o.workspace_id

unfoldable pub provision_principal_private_vault :
    Owner → ℕ → (ℕ → String) → Registry → Result (Registry × Vault)
unfolding provision_principal
provision_principal_private_vault o now mint reg =
    if o.tenant_id == "" || o.principal_id == "" || o.agent_id == "" || o.workspace_id == ""
    then err type_error
    else provision_principal (private_of o) (private_row o now) mint reg

unfoldable pub provision_principal_passport_vault :
    String → String → ℕ → (ℕ → String) → Registry → Result (Registry × Vault)
unfolding provision_principal
provision_principal_passport_vault tenant principal now mint reg =
    if tenant == "" || principal == ""
    then err type_error
    else provision_principal (active_passport_of tenant principal)
        (passport_row tenant principal now) mint reg

pub has_active_principal_private_vault : Owner → Registry → Bool
has_active_principal_private_vault o reg = any (private_of o) reg.vaults

pub has_active_principal_passport_vault : String → String → Registry → Bool
has_active_principal_passport_vault tenant principal reg =
    any (active_passport_of tenant principal) reg.vaults
