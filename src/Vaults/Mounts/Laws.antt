-- ===== src/Vaults/Mounts/Laws.antt =====
-- What a mount grants, and what cannot be mounted.
use memory_and_soul_passport.Prelude.{
  ℕ, String, ◌≡◌, sym, ap, subst, ◌≢◌, inl, inr, none, some, List, [], ◌∷◌, ◌++◌, Bool, true, false,
  arith, ◌==◌, find, any, any-append, find-append, find-IsSelected, Bool-cases, Option-cases,
  All-mono, All-append, All_of_any, Pairwise-append_last,
}
use memory_and_soul_passport.Errors.{ok}
use memory_and_soul_passport.Vaults.{
  mounted as mounted_status, Vault, VaultType, shared, workspace_private, global_private,
  principal_private, principal_passport, active, is_principal, Mount, AccessMode, Registry,
  StableId, get_vault_by_id, mount_of, any_mount_of, by_id,
}
use memory_and_soul_passport.Vaults.Access.{Caller, is_vault_row_accessible_to}
use memory_and_soul_passport.Vaults.Access.Isolation.{
  MayReach, IsMounted, is_vault_row_accessible_to_iff,
}
use memory_and_soul_passport.Vaults.Keeps.{IsValid, IsLawful, DistinctMounts}
use memory_and_soul_passport.Vaults.Mounts.{mount_known, insert_mount, mount_vault}

-- A mount is found, or it is inserted under a new id.
pub data IsMountedBy (vault workspace mount_alias : String) (reg reg' : Registry) (m : Mount)
    : Type 0 where
  found :
      find (mount_of vault workspace mount_alias) reg.mounts ≡ some m
      → reg' ≡ reg
      → IsMountedBy vault workspace mount_alias reg reg' m
  inserted :
      find (mount_of vault workspace mount_alias) reg.mounts ≡ none
      → any (λ (x : Mount). x.mount_id == m.mount_id) reg.mounts ≡ false
      → mount_of vault workspace mount_alias m ≡ true
      → reg' ≡ record reg { mounts = reg.mounts ++ m ∷ [] }
      → IsMountedBy vault workspace mount_alias reg reg' m

insert_mount-inserted :
    (x m : Mount) (reg reg' : Registry)
    → insert_mount x reg ≡ ok (reg', m)
    → (any (λ (y : Mount). y.mount_id == x.mount_id) reg.mounts ≡ false)
      × (m ≡ x)
      × (reg' ≡ record reg { mounts = reg.mounts ++ x ∷ [] })
unfolding insert_mount
insert_mount-inserted x m reg reg' h =
    elim (Bool-cases (any (λ (y : Mount). y.mount_id == x.mount_id) reg.mounts)) [
      | inl taken ↦ absurd (ground arith)
      | inr free ↦ (free, ground arith, ground arith)
    ]

module _ (stable_id : StableId) (vault workspace mount_alias : String) (mode : AccessMode) (now : ℕ)
    (reg reg' : Registry) (m : Mount) where
  mount_known-IsMountedBy :
      mount_known stable_id vault workspace mount_alias mode now reg ≡ ok (reg', m)
      → IsMountedBy vault workspace mount_alias reg reg' m
  unfolding mount_known
  mount_known-IsMountedBy h =
      elim (Option-cases (find (mount_of vault workspace mount_alias) reg.mounts)) [
        | inl missing ↦
            let x : Mount = record {
              mount_id = stable_id "vault-mount" (vault ∷ workspace ∷ mount_alias ∷ []);
              vault_id = vault;
              workspace_id = workspace;
              mount_alias = mount_alias;
              access_mode = mode;
              status = mounted_status;
              mounted_at = now;
            } in
            let done : insert_mount x reg ≡ ok (reg', m) = rw (missing, mount_known) at h in
            let (free, is, result) = insert_mount-inserted x m reg reg' done in
            inserted missing (rw is free) (rw is (ground arith)) (rw is result)
        | inr (x, there) ↦
            let same_row : x ≡ m = ground arith in found (rw same_row at there) (ground arith)
      ]

  -- Whatever is mounted is a vault of the registry that is no principal vault.
  pub mount_vault-IsLawful :
      mount_vault stable_id vault workspace mount_alias mode now reg ≡ ok (reg', m)
      → (v : Vault) × (get_vault_by_id vault reg ≡ some v)
        × (is_principal v.vault_type ≡ false)
        × (workspace ≢ "")
        × IsMountedBy vault workspace mount_alias reg reg' m
  unfolding mount_vault
  mount_vault-IsLawful h = elim (Option-cases (get_vault_by_id vault reg)) [
    | inl missing ↦ absurd (ground arith)
    | inr (v, there) ↦
        (v, there, ground arith, ground arith, mount_known-IsMountedBy (ground arith))
  ]

find-any : {A : Type 0} (p : A → Bool) (xs : List A) {x : A} → find p xs ≡ some x → any p xs ≡ true
unfolding find any
find-any p [] h = cc
find-any p (y ∷ xs) {x} h = ground (arith, find-any p xs {x = x})

any-weaken :
    {A : Type 0} (p q : A → Bool) (xs : List A)
    → ((x : A) → p x ≡ true → q x ≡ true)
    → any p xs ≡ true
    → any q xs ≡ true
unfolding any
any-weaken p q [] f h = cc
any-weaken p q (x ∷ xs) f h = ground (arith, f x, any-weaken p q xs f)

IsMountedBy-any :
    {vault workspace mount_alias : String} {reg reg' : Registry} {m : Mount}
    → IsMountedBy vault workspace mount_alias reg reg' m
    → any (any_mount_of vault workspace) reg'.mounts ≡ true
unfolding any
IsMountedBy-any {vault} {workspace} {mount_alias} {reg} (found there same_reg) = rw same_reg (
    any-weaken (mount_of vault workspace mount_alias) (any_mount_of vault workspace) reg.mounts
      (λ x h. ground arith) (find-any (mount_of vault workspace mount_alias) reg.mounts there))
IsMountedBy-any {vault} {workspace} {reg} {m} (inserted missing free fits result) =
    rw (result, any-append (any_mount_of vault workspace) reg.mounts (m ∷ [])) (ground arith)

same_vaults :
    {vault workspace mount_alias : String} {reg reg' : Registry} {m : Mount}
    → IsMountedBy vault workspace mount_alias reg reg' m
    → reg'.vaults ≡ reg.vaults
same_vaults (found there same_reg) = ap (λ (r : Registry). r.vaults) same_reg
same_vaults (inserted missing free fits result) = ap (λ (r : Registry). r.vaults) result

find_of_IsMountedBy :
    {vault workspace mount_alias : String} {reg reg' : Registry} {m : Mount}
    → IsMountedBy vault workspace mount_alias reg reg' m
    → find (mount_of vault workspace mount_alias) reg'.mounts ≡ some m
unfolding find
find_of_IsMountedBy (found there same_reg) = rw same_reg there
find_of_IsMountedBy {vault} {workspace} {mount_alias} {reg} {m}
      (inserted missing free fits result) =
    rw (
      result,
      find-append (mount_of vault workspace mount_alias) reg.mounts (m ∷ []),
      missing,
      fits,
    )

reach_of_mount :
    (reg : Registry) (v : Vault) (c : Caller) (t : VaultType)
    → is_principal t ≡ false
    → IsMounted reg v.vault_id c.workspace_id
    → MayReach reg v c t
reach_of_mount reg v c shared p m = inl m
reach_of_mount reg v c workspace_private p m = inl m
reach_of_mount reg v c global_private p m = inl m
reach_of_mount reg v c principal_private p m = cc
reach_of_mount reg v c principal_passport p m = cc

-- Mounting a vault for a workspace lets every caller of that workspace reach the vault, if it is
-- active.
pub mount_vault-accessible :
    (stable_id : StableId) (vault workspace mount_alias : String) (mode : AccessMode) (now : ℕ)
    (reg reg' : Registry) (m : Mount) (v : Vault) (c : Caller)
    → mount_vault stable_id vault workspace mount_alias mode now reg ≡ ok (reg', m)
    → get_vault_by_id vault reg' ≡ some v
    → v.status ≡ active
    → c.workspace_id ≡ some workspace
    → is_vault_row_accessible_to reg' (some v) c ≡ true
mount_vault-accessible stable_id vault workspace mount_alias mode now reg reg' m v c h there on
      caller =
    let (v₀, there₀, legacy, named, mounted) =
      mount_vault-IsLawful stable_id vault workspace mount_alias mode now reg reg' m h in
    let there₁ : get_vault_by_id vault reg ≡ some v = rw (same_vaults mounted) at there in
    let same_row : v₀ ≡ v = cc in
    let id : v.vault_id ≡ vault = id_of_found (find-IsSelected (by_id vault) reg.vaults there₁) in
    (is_vault_row_accessible_to_iff reg' v c).1 (
      on,
      reach_of_mount reg' v c v.vault_type (rw same_row at legacy)
          (workspace, caller, named, rw id (IsMountedBy-any mounted)),
    )
  where
    id_of_found : (v.vault_id == vault) ≡ true → v.vault_id ≡ vault
    id_of_found e = ground arith

-- A successful mount made again, at any time, returns the first one and changes nothing.
mount_vault_twice :
    (stable_id : StableId) (vault workspace mount_alias : String) (mode : AccessMode)
    (now later : ℕ) (reg reg' : Registry) (m : Mount)
    → mount_vault stable_id vault workspace mount_alias mode now reg ≡ ok (reg', m)
    → mount_vault stable_id vault workspace mount_alias mode later reg' ≡ ok (reg', m)
unfolding mount_vault mount_known
mount_vault_twice stable_id vault workspace mount_alias mode now later reg reg' m h =
    let (v, there, legacy, named, mounted) =
      mount_vault-IsLawful stable_id vault workspace mount_alias mode now reg reg' m h in
    let there' : get_vault_by_id vault reg' ≡ some v =
      subst (λ vs. find (by_id vault) vs ≡ some v) (sym (same_vaults mounted)) there in
    ground (arith, find_of_IsMountedBy mounted)

-- Mounting a principal vault has the same outcome, for any workspace, alias, mode and time, as
-- mounting an id that names no vault.
pub mount_vault-principal_hidden :
    (stable_id : StableId) (vault unknown workspace mount_alias : String) (mode : AccessMode)
    (now : ℕ) (reg : Registry) (v : Vault)
    → get_vault_by_id vault reg ≡ some v
    → is_principal v.vault_type ≡ true
    → vault ≢ ""
    → get_vault_by_id unknown reg ≡ none
    → unknown ≢ ""
    → mount_vault stable_id vault workspace mount_alias mode now reg
      ≡ mount_vault stable_id unknown workspace mount_alias mode now reg
unfolding mount_vault
mount_vault-principal_hidden stable_id vault unknown workspace mount_alias mode now reg v there p n
      missing n' =
    ground arith

pub IsMountedBy-IsValid :
    {vault workspace mount_alias : String} {reg reg' : Registry} {m : Mount} (v : Vault)
    → get_vault_by_id vault reg ≡ some v
    → is_principal v.vault_type ≡ false
    → IsMountedBy vault workspace mount_alias reg reg' m
    → IsValid reg
    → IsValid reg'
IsMountedBy-IsValid v there legacy (found e same_reg) i = rw same_reg i
IsMountedBy-IsValid {vault} {reg} {m} v there legacy (inserted missing free fits result) i =
    rw result (record {
      ids = i.ids;
      owners = i.owners;
      lawful =
          All-append (IsLawful reg.vaults) reg.mounts (m ∷ []) i.lawful
            ((v, rw names there, legacy), tt);
      mount_ids = Pairwise-append_last DistinctMounts reg.mounts m i.mount_ids (
          All-mono (λ x. (x.mount_id == m.mount_id) ≡ false) (λ x. DistinctMounts x m)
            (λ x e. ground arith) reg.mounts
            (All_of_any (λ (x : Mount). x.mount_id == m.mount_id) reg.mounts free));
    })
  where
    names : m.vault_id ≡ vault
    names = ground arith
