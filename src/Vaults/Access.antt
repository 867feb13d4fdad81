-- ===== src/Vaults/Access.antt =====
-- isVaultAccessibleTo, #isVaultRowAccessibleTo and classifyPrincipalAccess of vault-registry.mjs,
-- and what they decide.
pub mod Isolation
use memory_and_soul_passport.Prelude.{
  ℕ, String, ◌≡◌, refl, ◌↔◌, ◌⊎◌, inl, inr, Option, none, some, List, Bool, true, false, not, ◌&&◌,
  ◌||◌, arith, if◌then◌else◌, ◌==◌, same, holds, truthy, find, any, dec_text,
}
use memory_and_soul_passport.Vaults.{
  Vault, VaultType, shared, workspace_private, global_private, principal_private,
  principal_passport, active, erased, Mount, Registry, is_active, is_principal, get_vault_by_id,
  workspace_private_of, any_mount_of,
}

-- The second argument of the check, with null for what it leaves out.
pub record Caller : Type 0 where
  pub workspace_id : Option String
  pub agent_id : Option String
  pub tenant_id : Option String
  pub principal_id : Option String
  pub allow_passport : Bool

-- `workspaceId && this.#selectAnyMount.get(vault.vault_id, workspaceId)`
unfoldable pub is_mounted_for : Registry → String → Option String → Bool
is_mounted_for reg vault none = false
is_mounted_for reg vault (some workspace) =
    not (workspace == "") && any (any_mount_of vault workspace) reg.mounts

-- The project that the caller's own workspace vault knows.
pub project_of_workspace : Registry → String → Option String
project_of_workspace reg workspace = elim (find (workspace_private_of workspace) reg.vaults) [
  | none ↦ none
  | some v ↦ v.project_id
]

pub shares_project : Registry → Vault → Option String → Bool
shares_project reg v none = false
shares_project reg v (some workspace) =
    not (workspace == "")
    && truthy (project_of_workspace reg workspace)
    && same (project_of_workspace reg workspace) v.project_id

unfoldable pub accessible_by_type : Registry → Vault → Caller → VaultType → Bool
accessible_by_type reg v c principal_private =
    truthy c.tenant_id
    && truthy c.principal_id
    && truthy c.agent_id
    && truthy c.workspace_id
    && same v.tenant_id c.tenant_id
    && same v.principal_id c.principal_id
    && same v.agent_id c.agent_id
    && same v.workspace_id c.workspace_id
accessible_by_type reg v c principal_passport =
    truthy c.tenant_id
    && truthy c.principal_id
    && c.allow_passport
    && same v.tenant_id c.tenant_id
    && same v.principal_id c.principal_id
accessible_by_type reg v c workspace_private =
    is_mounted_for reg v.vault_id c.workspace_id
    || (truthy c.workspace_id && same v.workspace_id c.workspace_id)
accessible_by_type reg v c global_private =
    is_mounted_for reg v.vault_id c.workspace_id
    || (truthy c.agent_id && same v.agent_id c.agent_id)
accessible_by_type reg v c shared =
    is_mounted_for reg v.vault_id c.workspace_id || shares_project reg v c.workspace_id

unfoldable pub is_vault_row_accessible_to : Registry → Option Vault → Caller → Bool
is_vault_row_accessible_to reg none c = false
is_vault_row_accessible_to reg (some v) c =
    is_active v.status && accessible_by_type reg v c v.vault_type

pub is_vault_accessible_to : Registry → String → Caller → Bool
is_vault_accessible_to reg id c = is_vault_row_accessible_to reg (get_vault_by_id id reg) c

pub data AccessOutcome : Type 0 where
  not_principal ok access_context_denied : AccessOutcome

-- The claims are those of a verified grant, or null.
unfoldable pub classify_principal_access : Registry → Option Vault → Option Caller → AccessOutcome
classify_principal_access reg none claims = not_principal
classify_principal_access reg (some v) none =
    if is_principal v.vault_type then access_context_denied else not_principal
classify_principal_access reg (some v) (some c) =
    if is_principal v.vault_type
    then (if is_vault_row_accessible_to reg (some v) c then ok else access_context_denied)
    else not_principal
