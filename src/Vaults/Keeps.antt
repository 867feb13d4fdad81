-- ===== src/Vaults/Keeps.antt =====
-- The invariant of the two tables, and the writes that keep it.
use memory_and_soul_passport.Prelude.{
  String, ◌≡◌, sym, ap, ◌∙◌, ◌≢◌, ◌⊎◌, inl, inr, some, List, [], ◌∷◌, ◌++◌, false, arith, find, any,
  All, All-mono, All_of_any, Pairwise, Pairwise-append_last, find-append, Bool-cases,
}
use mathlib.Core.Path.{ap₂}
use memory_and_soul_passport.Errors.{ok}
use memory_and_soul_passport.Vaults.{
  Vault, is_principal, Mount, Registry, by_id, same_active_owner, insert_vault, backfill_row,
  backfill,
}

abbrev pub DistinctIds : Vault → Vault → Type 0
DistinctIds v w = v.vault_id ≢ w.vault_id

abbrev pub DistinctOwners : Vault → Vault → Type 0
DistinctOwners v w = same_active_owner w v ≡ false

-- The mount names a vault of the registry that is no principal vault.
abbrev pub IsLawful : List Vault → Mount → Type 0
IsLawful vaults m =
    (v : Vault) × (find (by_id m.vault_id) vaults ≡ some v) × (is_principal v.vault_type ≡ false)

abbrev pub DistinctMounts : Mount → Mount → Type 0
DistinctMounts m n = m.mount_id ≢ n.mount_id

pub record IsValid (reg : Registry) : Type 0 where
  pub ids : Pairwise DistinctIds reg.vaults
  pub owners : Pairwise DistinctOwners reg.vaults
  pub lawful : All (IsLawful reg.vaults) reg.mounts
  pub mount_ids : Pairwise DistinctMounts reg.mounts

IsLawful-append :
    (vaults : List Vault) (w : Vault) (m : Mount)
    → IsLawful vaults m
    → IsLawful (vaults ++ w ∷ []) m
IsLawful-append vaults w m (v, e, p) =
    (v, rw (find-append (by_id m.vault_id) vaults (w ∷ []), e), p)

-- What an insert that succeeds has found and done.
pub record IsInserted (v : Vault) (reg reg' : Registry) : Type 0 where
  pub new_id : any (by_id v.vault_id) reg.vaults ≡ false
  pub new_owner : any (same_active_owner v) reg.vaults ≡ false
  pub result : reg' ≡ record reg { vaults = reg.vaults ++ v ∷ [] }

pub insert_vault-IsInserted :
    (v : Vault) (reg reg' : Registry) → insert_vault v reg ≡ ok reg' → IsInserted v reg reg'
unfolding insert_vault
insert_vault-IsInserted v reg reg' h = elim (Bool-cases (any (by_id v.vault_id) reg.vaults)) [
  | inl old ↦ absurd (ground arith)
  | inr new ↦ elim (Bool-cases (any (same_active_owner v) reg.vaults)) [
    | inl owned ↦ absurd (ground arith)
    | inr free ↦ record { new_id = new; new_owner = free; result = ground arith }
  ]
]

-- A new row keeps the invariant, by the checks of the insert alone.
pub insert_vault-IsValid :
    (v : Vault) (reg reg' : Registry) → insert_vault v reg ≡ ok reg' → IsValid reg → IsValid reg'
insert_vault-IsValid v reg reg' h i =
    let k = insert_vault-IsInserted v reg reg' h in
    rw k.result (record {
      ids = Pairwise-append_last DistinctIds reg.vaults v i.ids (
          All-mono (λ x. by_id v.vault_id x ≡ false) (λ x. DistinctIds x v) (λ x e. ground arith)
            reg.vaults (All_of_any (by_id v.vault_id) reg.vaults k.new_id));
      owners =
          Pairwise-append_last DistinctOwners reg.vaults v i.owners
            (All_of_any (same_active_owner v) reg.vaults k.new_owner);
      lawful =
          All-mono (IsLawful reg.vaults) (IsLawful (reg.vaults ++ v ∷ []))
            (IsLawful-append reg.vaults v) reg.mounts i.lawful;
      mount_ids = i.mount_ids;
    })

-- `backfill` changes nothing that the invariant reads.
backfill_row-cases :
    (id project : String) (v : Vault)
    → (backfill_row id project v ≡ v)
      ⊎ (backfill_row id project v ≡ record v { project_id = some project })
unfolding backfill_row
backfill_row-cases id project v = ground arith

backfill_row-parts :
    (id project : String) (v : Vault)
    → ((backfill_row id project v).vault_id ≡ v.vault_id)
      × ((backfill_row id project v).vault_type ≡ v.vault_type)
unfolding backfill_row
backfill_row-parts id project v = ground arith

same_active_owner-backfill_row :
    (id project : String) (v w : Vault)
    → same_active_owner (backfill_row id project v) (backfill_row id project w)
      ≡ same_active_owner v w
unfolding same_active_owner
same_active_owner-backfill_row id project v w = elim (backfill_row-cases id project v) [
  | inl p ↦ elim (backfill_row-cases id project w) [
    | inl q ↦ ap₂ same_active_owner p q
    | inr q ↦ ap₂ same_active_owner p q
  ]
  | inr p ↦ elim (backfill_row-cases id project w) [
    | inl q ↦ ap₂ same_active_owner p q
    | inr q ↦ ap₂ same_active_owner p q
  ]
]

Pairwise-backfill :
    (R : Vault → Vault → Type 0) (id project : String)
    → ((v w : Vault) → R v w → R (backfill_row id project v) (backfill_row id project w))
    → (vs : List Vault) → Pairwise R vs
    → Pairwise R (backfill id project vs)
unfolding backfill
Pairwise-backfill R id project f [] p = tt
Pairwise-backfill R id project f (v ∷ vs) (h, p) =
    (along (λ w. R v w) (f v) vs h, Pairwise-backfill R id project f vs p)
  where
    along :
        (P : Vault → Type 0)
        → ((w : Vault) → P w → R (backfill_row id project v) (backfill_row id project w))
        → (ws : List Vault) → All P ws
        → All (R (backfill_row id project v)) (backfill id project ws)
    along P g [] q = tt
    along P g (w ∷ ws) (q, qs) = (g w q, along P g ws qs)

find-backfill :
    (j id project : String) (vs : List Vault) {v : Vault}
    → find (by_id j) vs ≡ some v
    → find (by_id j) (backfill id project vs) ≡ some (backfill_row id project v)
unfolding find backfill backfill_row
find-backfill j id project [] h = cc
find-backfill j id project (x ∷ vs) {v} h =
    let (same_id, _) = backfill_row-parts id project x in
    elim (Bool-cases (by_id j x)) [
      | inl here ↦
          let is : x ≡ v = ground arith in
          rw (same_id, here) (ap (λ y. some (backfill_row id project y)) is)
      | inr there ↦ rw (same_id, there) (find-backfill j id project vs (ground arith))
    ]

-- So does a backfill of a project.
pub backfill-IsValid :
    (id project : String) (reg : Registry)
    → IsValid reg
    → IsValid (record reg { vaults = backfill id project reg.vaults })
backfill-IsValid id project reg i = record {
  ids =
      Pairwise-backfill DistinctIds id project
        (λ v w d e.
          d (sym (backfill_row-parts id project v).0 ∙ e ∙ (backfill_row-parts id project w).0))
        reg.vaults i.ids;
  owners =
      Pairwise-backfill DistinctOwners id project
        (λ v w d. same_active_owner-backfill_row id project w v ∙ d) reg.vaults i.owners;
  lawful =
      All-mono (IsLawful reg.vaults) (IsLawful (backfill id project reg.vaults))
        (λ m (v, e, p). (
          backfill_row id project v,
          find-backfill m.vault_id id project reg.vaults e,
          rw (backfill_row-parts id project v).1 p,
        ))
        reg.mounts i.lawful;
  mount_ids = i.mount_ids;
}
