-- ===== src/Vaults/Mounts.antt =====
-- mountVault of vault-registry.mjs.
pub mod Laws
use memory_and_soul_passport.Prelude.{
  ℕ, String, ◌≡◌, refl, Option, none, some, List, [], ◌∷◌, ◌++◌, Bool, true, false, ◌||◌, arith,
  if◌then◌else◌, ◌==◌, find, any, dec_text,
}
use memory_and_soul_passport.Errors.{
  Result, ok, err, ◌>>=◌, not_found, invalid_request, type_error, sqlite_primary_key,
}
use memory_and_soul_passport.Vaults.{
  mounted, Vault, VaultType, is_principal, Mount, AccessMode, read, read_write, unknown_mode,
  Registry, StableId, get_vault_by_id, mount_of,
}

abbrev is_known_mode : AccessMode → Bool
is_known_mode unknown_mode = false
is_known_mode _ = true

-- The id is the primary key of vault_mounts.
unfoldable pub insert_mount : Mount → Registry → Result (Registry × Mount)
insert_mount m reg =
    if any (λ (x : Mount). x.mount_id == m.mount_id) reg.mounts
    then err sqlite_primary_key
    else ok (record reg { mounts = reg.mounts ++ m ∷ [] }, m)

module _ (stable_id : StableId) where
  unfoldable pub mount_known :
      String → String → String → AccessMode → ℕ → Registry → Result (Registry × Mount)
  mount_known vault workspace mount_alias mode now reg =
      elim (find (mount_of vault workspace mount_alias) reg.mounts) [
        | some m ↦ ok (reg, m)
        | none ↦
            insert_mount
              (record {
                mount_id = stable_id "vault-mount" (vault ∷ workspace ∷ mount_alias ∷ []);
                vault_id = vault;
                workspace_id = workspace;
                mount_alias = mount_alias;
                access_mode = mode;
                status = mounted;
                mounted_at = now;
              })
              reg
      ]

  unfoldable pub mount_vault :
      String → String → String → AccessMode → ℕ → Registry → Result (Registry × Mount)
  mount_vault vault workspace mount_alias mode now reg =
      if vault == "" || workspace == "" || mount_alias == ""
      then err type_error
      else elim (get_vault_by_id vault reg) [
        | none ↦ err not_found
        | some v ↦
            if is_principal v.vault_type
            then err not_found
            else if is_known_mode mode
            then mount_known vault workspace mount_alias mode now reg
            else err invalid_request
      ]
