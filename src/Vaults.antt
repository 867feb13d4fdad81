-- ===== src/Vaults.antt =====
-- packages/msp-core/src/domain/vault-registry.mjs: the tables `vaults` and `vault_mounts`, and the
-- operations of VaultRegistry on them. A row stands for its projection (rowToVault, rowToMount),
-- which only adds the two refs. Ids that are hashes come from `stable_id`, random ones are given.
pub mod Principal
pub mod Access
pub mod Mounts
pub mod Keeps
pub mod Reach
pub mod Status
pub mod Examples
use memory_and_soul_passport.Prelude.{
  ℕ, zero, suc, ◌+◌, String, Bool, true, false, not, ◌&&◌, ◌||◌, Option, none, some, List, [], ◌∷◌,
  ◌++◌, if◌then◌else◌, ◌==◌, same, holds, truthy, find, any, dec_text,
}
use memory_and_soul_passport.Errors.{
  Error, Result, ok, err, ◌>>=◌, ◌>>◌, guard, not_found, invalid_request, vault_provision_conflict,
  type_error, sqlite_primary_key, sqlite_unique,
}

pub data VaultType : Type 0 where
  shared workspace_private global_private principal_private principal_passport : VaultType

pub data VaultStatus : Type 0 where
  active erased : VaultStatus

pub data DecayPolicy : Type 0 where
  ebbinghaus pinned : DecayPolicy

pub record Vault : Type 0 where
  pub vault_id : String
  pub vault_type : VaultType
  pub project_id : Option String
  pub workspace_id : Option String
  pub agent_id : Option String
  pub tenant_id : Option String
  pub principal_id : Option String
  pub role : Option String
  pub status : VaultStatus
  pub decay_policy : DecayPolicy
  pub created_at : ℕ

pub data AccessMode : Type 0 where
  read read_write : AccessMode
  -- any other value of the request
  unknown_mode : AccessMode

-- The only status that is written to a row.
pub data MountStatus : Type 0 where
  mounted : MountStatus

pub record Mount : Type 0 where
  pub mount_id : String
  pub vault_id : String
  pub workspace_id : String
  pub mount_alias : String
  pub access_mode : AccessMode
  pub status : MountStatus
  pub mounted_at : ℕ

pub record Registry : Type 0 where
  pub vaults : List Vault
  pub mounts : List Mount

-- stableId(prefix, ...parts) of ids.mjs, a hash.
abbrev pub StableId : Type 0
StableId = String → List String → String

abbrev pub is_shared : VaultType → Bool
is_shared shared = true
is_shared _ = false

abbrev pub is_workspace_private : VaultType → Bool
is_workspace_private workspace_private = true
is_workspace_private _ = false

abbrev pub is_global_private : VaultType → Bool
is_global_private global_private = true
is_global_private _ = false

abbrev pub is_principal_private : VaultType → Bool
is_principal_private principal_private = true
is_principal_private _ = false

abbrev pub is_principal_passport : VaultType → Bool
is_principal_passport principal_passport = true
is_principal_passport _ = false

abbrev pub is_principal : VaultType → Bool
is_principal t = is_principal_private t || is_principal_passport t

abbrev pub is_active : VaultStatus → Bool
is_active active = true
is_active erased = false

-- The prepared selects.
abbrev pub by_id : String → Vault → Bool
by_id id v = v.vault_id == id

abbrev pub shared_of : String → Vault → Bool
shared_of project v = is_shared v.vault_type && holds v.project_id project

abbrev pub workspace_private_of : String → Vault → Bool
workspace_private_of workspace v =
    is_workspace_private v.vault_type && holds v.workspace_id workspace

abbrev pub global_private_of : String → Vault → Bool
global_private_of agent v = is_global_private v.vault_type && holds v.agent_id agent

abbrev pub active_private_of : String → String → String → String → Vault → Bool
active_private_of tenant principal agent workspace v =
    is_principal_private v.vault_type
    && holds v.tenant_id tenant
    && holds v.principal_id principal
    && holds v.agent_id agent
    && holds v.workspace_id workspace
    && is_active v.status

abbrev pub active_passport_of : String → String → Vault → Bool
active_passport_of tenant principal v =
    is_principal_passport v.vault_type
    && holds v.tenant_id tenant
    && holds v.principal_id principal
    && is_active v.status

abbrev pub mount_of : String → String → String → Mount → Bool
mount_of vault workspace mount_alias m =
    m.vault_id == vault && m.workspace_id == workspace && m.mount_alias == mount_alias

abbrev pub is_mounted : MountStatus → Bool
is_mounted mounted = true

abbrev pub any_mount_of : String → String → Mount → Bool
any_mount_of vault workspace m =
    m.vault_id == vault && m.workspace_id == workspace && is_mounted m.status

abbrev pub get_vault_by_id : String → Registry → Option Vault
get_vault_by_id id reg = find (by_id id) reg.vaults

-- Equality of two columns under a unique index, where NULL differs from NULL.
abbrev both_hold : Option String → Option String → Bool
both_hold a none = false
both_hold a (some t) = holds a t

-- The partial unique indexes of migrations/0011.
pub same_active_owner : Vault → Vault → Bool
same_active_owner v w =
    is_active v.status
    && is_active w.status
    && ((is_principal_private v.vault_type
          && is_principal_private w.vault_type
          && both_hold v.tenant_id w.tenant_id
          && both_hold v.principal_id w.principal_id
          && both_hold v.agent_id w.agent_id
          && both_hold v.workspace_id w.workspace_id)
        || (is_principal_passport v.vault_type
            && is_principal_passport w.vault_type
            && both_hold v.tenant_id w.tenant_id
            && both_hold v.principal_id w.principal_id))

pub insert_vault : Vault → Registry → Result Registry
unfolding same_active_owner
insert_vault v reg =
    if any (by_id v.vault_id) reg.vaults
    then err sqlite_primary_key
    else if any (same_active_owner v) reg.vaults
    then err sqlite_unique
    else ok (record reg { vaults = reg.vaults ++ v ∷ [] })

abbrev legacy_row :
    String → VaultType → Option String → Option String → Option String → Option String → ℕ → Vault
legacy_row id type project workspace agent role now = record {
  vault_id = id;
  vault_type = type;
  project_id = project;
  workspace_id = workspace;
  agent_id = agent;
  tenant_id = none;
  principal_id = none;
  role = role;
  status = active;
  decay_policy = ebbinghaus;
  created_at = now;
}

-- The end of each provisioner of a legacy vault.
add_legacy : Vault → Registry → Result (Registry × Vault)
add_legacy v reg = do reg' ← insert_vault v reg; ok (reg', v)

-- UPDATE vaults SET project_id = ... WHERE vault_id = ... AND project_id IS NULL
pub backfill_row : String → String → Vault → Vault
backfill_row id project v =
    if v.vault_id == id
    then elim v.project_id [ none ↦ record v { project_id = some project } | some _ ↦ v ]
    else v

pub backfill : String → String → List Vault → List Vault
backfill id project [] = []
backfill id project (v ∷ vs) = backfill_row id project v ∷ backfill id project vs

-- A select that must find its row, `rowToVault(selectById.get(id))`; null otherwise.
reread : String → Registry → Result (Registry × Vault)
reread id reg = elim (get_vault_by_id id reg) [ none ↦ err not_found | some v ↦ ok (reg, v) ]

module _ (stable_id : StableId) where
  -- The rows that the three provisioners insert.
  abbrev shared_row : String → ℕ → Vault
  shared_row project now =
      legacy_row (stable_id "vault" ("shared" ∷ project ∷ [])) shared (some project) none none none
        now

  abbrev workspace_private_row : String → Option String → ℕ → Vault
  workspace_private_row workspace project now =
      legacy_row (stable_id "vault" ("workspace-private" ∷ workspace ∷ [])) workspace_private
        project (some workspace) none none now

  -- `role ?? agentId`
  abbrev global_private_row : String → Option String → ℕ → Vault
  global_private_row agent role now =
      legacy_row (stable_id "vault" ("global-private" ∷ agent ∷ [])) global_private none none
        (some agent) (elim role [ none ↦ some agent | some r ↦ some r ]) now

  pub provision_shared_vault : String → ℕ → Registry → Result (Registry × Vault)
  provision_shared_vault project now reg =
      if project == "" then err type_error else elim (find (shared_of project) reg.vaults) [
        | some v ↦ ok (reg, v)
        | none ↦ add_legacy (shared_row project now) reg
      ]

  -- `project` is what the call knows of the project.
  found_workspace : Option String → Registry → Vault → Result (Registry × Vault)
  found_workspace none reg v = ok (reg, v)
  found_workspace (some project) reg v =
      if not (project == "") && not (truthy v.project_id)
      then reread v.vault_id (record reg { vaults = backfill v.vault_id project reg.vaults })
      else ok (reg, v)

  pub provision_workspace_private_vault :
      String → Option String → ℕ → Registry → Result (Registry × Vault)
  provision_workspace_private_vault workspace project now reg =
      if workspace == ""
      then err type_error
      else elim (find (workspace_private_of workspace) reg.vaults) [
        | some v ↦ found_workspace project reg v
        | none ↦ add_legacy (workspace_private_row workspace project now) reg
      ]

  pub provision_global_private_vault :
      String → Option String → ℕ → Registry → Result (Registry × Vault)
  provision_global_private_vault agent role now reg =
      if agent == "" then err type_error else elim (find (global_private_of agent) reg.vaults) [
        | some v ↦ ok (reg, v)
        | none ↦ add_legacy (global_private_row agent role now) reg
      ]
