-- ===== src/Vaults/Principal/Minting.antt =====
-- The retries of the random id: six ids at most, and the first free one is taken.
use memory_and_soul_passport.Prelude.{
  ℕ, zero, suc, ◌+◌, ◌≤◌, String, ◌≡◌, refl, ◌≢◌, inl, inr, none, List, [], ◌∷◌, ◌++◌, true, false,
  arith, find, any, Bool-cases, Option-cases,
}
use memory_and_soul_passport.Errors.{ok, err, vault_provision_conflict, sqlite_primary_key}
use memory_and_soul_passport.Vaults.{Vault, Registry, insert_vault, by_id, same_active_owner}
use memory_and_soul_passport.Vaults.Principal.{
  Owner, insert_minted, provision_principal, private_row, private_of,
  provision_principal_private_vault,
}

abbrev IsTaken : (ℕ → String) → Registry → ℕ → Type 0
IsTaken mint reg i = any (by_id (mint i)) reg.vaults ≡ true

-- An active vault of the owner is what the unique index looks for.
same_active_owner_of_free :
    (o : Owner) (now : ℕ) (id : String) (vs : List Vault)
    → find (private_of o) vs ≡ none
    → any (same_active_owner (record (private_row o now) { vault_id = id })) vs ≡ false
unfolding find any same_active_owner
same_active_owner_of_free o now id [] h = refl
same_active_owner_of_free o now id (x ∷ vs) h =
    ground (arith, same_active_owner_of_free o now id vs)

insert_taken :
    (v : Vault) (reg : Registry)
    → any (by_id v.vault_id) reg.vaults ≡ true
    → insert_vault v reg ≡ err sqlite_primary_key
unfolding insert_vault
insert_taken v reg h = rw h

insert_free :
    (v : Vault) (reg : Registry)
    → any (by_id v.vault_id) reg.vaults ≡ false
    → any (same_active_owner v) reg.vaults ≡ false
    → insert_vault v reg ≡ ok (record reg { vaults = reg.vaults ++ v ∷ [] })
unfolding insert_vault
insert_free v reg h k = rw (h, k)

minted_all_taken :
    (retries : ℕ) (mint : ℕ → String) (i : ℕ) (row : Vault) (reg : Registry)
    → ((j : ℕ) → i ≤ j → j ≤ i + retries → IsTaken mint reg j)
    → insert_minted retries mint i row reg ≡ err vault_provision_conflict
unfolding insert_minted
minted_all_taken zero mint i row reg taken = ground (
  arith,
  insert_taken (record row { vault_id = mint i }) reg (taken i (omega arith) (omega arith)),
)
minted_all_taken (suc retries) mint i row reg taken = ground (
  arith,
  insert_taken (record row { vault_id = mint i }) reg (taken i (omega arith) (omega arith)),
  minted_all_taken retries mint (suc i) row reg (λ j lo hi. taken j (omega arith) (omega arith)),
)

module _ (mint : ℕ → String) (row : Vault) (reg : Registry)
    (free : (id : String)
      → any (same_active_owner (record row { vault_id = id })) reg.vaults ≡ false) where
  minted_at_once :
      (retries i : ℕ)
      → any (by_id (mint i)) reg.vaults ≡ false
      → (reg' : Registry) × (v : Vault) × (insert_minted retries mint i row reg ≡ ok (reg', v))
  unfolding insert_minted
  minted_at_once zero i unused = (
    record reg { vaults = reg.vaults ++ record row { vault_id = mint i } ∷ [] },
    record row { vault_id = mint i },
    rw (insert_free (record row { vault_id = mint i }) reg unused (free (mint i)), insert_minted)
        refl,
  )
  minted_at_once (suc retries) i unused = (
    record reg { vaults = reg.vaults ++ record row { vault_id = mint i } ∷ [] },
    record row { vault_id = mint i },
    rw (insert_free (record row { vault_id = mint i }) reg unused (free (mint i)), insert_minted)
        refl,
  )

  minted_one_free :
      (retries i k : ℕ)
      → i ≤ k
      → k ≤ i + retries
      → any (by_id (mint k)) reg.vaults ≡ false
      → (reg' : Registry) × (v : Vault) × (insert_minted retries mint i row reg ≡ ok (reg', v))
  unfolding insert_minted
  minted_one_free zero i k lo hi unused =
      let same : k ≡ i = omega arith in minted_at_once zero i (rw same at unused)
  minted_one_free (suc retries) i k lo hi unused =
      elim (Bool-cases (any (by_id (mint i)) reg.vaults)) [
        | inl taken ↦
            rw (insert_taken (record row { vault_id = mint i }) reg taken, insert_minted)
              (let differs : i ≢ k = λ e. cc in
                minted_one_free retries (suc i) k (omega arith) (omega arith) unused)
        | inr unused_i ↦ minted_at_once (suc retries) i unused_i
      ]

-- Where the owner has no vault yet and the first six minted ids are all in use, a call with
-- four owner fields that are not empty ends with a conflict.
pub provision_private_exhausted :
    (o : Owner) (now : ℕ) (mint : ℕ → String) (reg : Registry)
    → (o.tenant_id ≢ "") × (o.principal_id ≢ "") × (o.agent_id ≢ "") × (o.workspace_id ≢ "")
    → find (private_of o) reg.vaults ≡ none
    → ((i : ℕ) → i ≤ 5 → any (by_id (mint i)) reg.vaults ≡ true)
    → provision_principal_private_vault o now mint reg ≡ err vault_provision_conflict
unfolding provision_principal_private_vault provision_principal
provision_private_exhausted o now mint reg named missing taken =
    ground
      (arith, minted_all_taken 5 mint 0 (private_row o now) reg (λ j lo hi. taken j (omega arith)))

-- One free id among the first six is enough: a call with four owner fields that are not empty then
-- returns a vault.
pub provision_private_succeeds :
    (o : Owner) (now : ℕ) (mint : ℕ → String) (reg : Registry) (k : ℕ)
    → (o.tenant_id ≢ "") × (o.principal_id ≢ "") × (o.agent_id ≢ "") × (o.workspace_id ≢ "")
    → k ≤ 5
    → any (by_id (mint k)) reg.vaults ≡ false
    → (reg' : Registry) × (v : Vault) × (provision_principal_private_vault o now mint reg
        ≡ ok (reg', v))
unfolding provision_principal_private_vault provision_principal
provision_private_succeeds o now mint reg k named few unused =
    elim (Option-cases (find (private_of o) reg.vaults)) [
      | inl missing ↦
          let (reg', v, done) =
            minted_one_free mint (private_row o now) reg
              (λ id. same_active_owner_of_free o now id reg.vaults missing) 5 0 k (omega arith)
              (omega arith) unused in
          (reg', v, ground arith)
      | inr (v, there) ↦ (reg, v, ground arith)
    ]
