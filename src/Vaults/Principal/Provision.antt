-- ===== src/Vaults/Principal/Provision.antt =====
-- What provisioning a principal vault returns, the second time too, and when it fails.
use memory_and_soul_passport.Prelude.{
  ℕ, zero, suc, String, ◌≡◌, sym, ap, subst, ◌∙◌, inl, inr, none, some, [], ◌∷◌, Bool, true, arith,
  find, find-append, Option-cases,
}
use memory_and_soul_passport.Errors.{ok, Result-cases}
use memory_and_soul_passport.Vaults.{Vault, Registry, active_passport_of, insert_vault}
use memory_and_soul_passport.Vaults.Keeps.{IsValid, insert_vault-IsInserted, insert_vault-IsValid}
use memory_and_soul_passport.Vaults.Principal.{
  Owner, insert_minted, provision_principal, private_row, passport_row, private_of,
  provision_principal_private_vault, provision_principal_passport_vault,
  provision_id_mint_retry_limit,
}

-- What the loop returns is the row under an id that it minted, inserted in the registry it got.
insert_minted-inserted :
    (retries : ℕ) (mint : ℕ → String) (i : ℕ) (row v : Vault) (reg reg' : Registry)
    → insert_minted retries mint i row reg ≡ ok (reg', v)
    → (j : ℕ) × (v ≡ record row { vault_id = mint j }) × (insert_vault v reg ≡ ok reg')
unfolding insert_minted
insert_minted-inserted zero mint i row v reg reg' h =
    elim (Result-cases (insert_vault (record row { vault_id = mint i }) reg)) [
      | inl (e, failed) ↦ absurd (ground arith)
      | inr (r, done) ↦
          let row_is : v ≡ record row { vault_id = mint i } = ground arith in
          let reg_is : r ≡ reg' = ground arith in
          (i, row_is, subst (λ x. insert_vault x reg ≡ ok reg') (sym row_is) (done ∙ ap ok reg_is))
    ]
insert_minted-inserted (suc retries) mint i row v reg reg' h =
    elim (Result-cases (insert_vault (record row { vault_id = mint i }) reg)) [
      | inl (e, failed) ↦ insert_minted-inserted retries mint (suc i) row v reg reg' (ground arith)
      | inr (r, done) ↦
          let row_is : v ≡ record row { vault_id = mint i } = ground arith in
          let reg_is : r ≡ reg' = ground arith in
          (i, row_is, subst (λ x. insert_vault x reg ≡ ok reg') (sym row_is) (done ∙ ap ok reg_is))
    ]

-- A principal vault is found, with nothing changed, or it is inserted under a minted id.
pub data IsProvisioned (active_where : Vault → Bool) (row : Vault) (reg reg' : Registry) (v : Vault)
    : Type 0 where
  found :
      find active_where reg.vaults ≡ some v → reg' ≡ reg → IsProvisioned active_where row reg reg' v
  inserted :
      (id : String)
      → find active_where reg.vaults ≡ none
      → v ≡ record row { vault_id = id }
      → insert_vault v reg ≡ ok reg'
      → IsProvisioned active_where row reg reg' v

provision_principal-IsProvisioned :
    (w : Vault → Bool) (row v : Vault) (mint : ℕ → String) (reg reg' : Registry)
    → provision_principal w row mint reg ≡ ok (reg', v)
    → IsProvisioned w row reg reg' v
unfolding provision_principal
provision_principal-IsProvisioned w row v mint reg reg' h =
    elim (Option-cases (find w reg.vaults)) [
      | inl missing ↦
          let (j, is, done) =
            insert_minted-inserted provision_id_mint_retry_limit mint 0 row v reg reg'
              (rw (missing, provision_principal) at h) in
          inserted (mint j) missing is done
      | inr (x, there) ↦
          let same_row : x ≡ v = ground arith in found (rw same_row at there) (ground arith)
    ]

pub private-IsProvisioned :
    (o : Owner) (now : ℕ) (mint : ℕ → String) (reg reg' : Registry) (v : Vault)
    → provision_principal_private_vault o now mint reg ≡ ok (reg', v)
    → IsProvisioned (private_of o) (private_row o now) reg reg' v
unfolding provision_principal_private_vault
private-IsProvisioned o now mint reg reg' v h =
    provision_principal-IsProvisioned (private_of o) (private_row o now) v mint reg reg'
      (ground arith)

pub passport-IsProvisioned :
    (tenant principal : String) (now : ℕ) (mint : ℕ → String) (reg reg' : Registry) (v : Vault)
    → provision_principal_passport_vault tenant principal now mint reg ≡ ok (reg', v)
    → IsProvisioned
        (active_passport_of tenant principal)
        (passport_row tenant principal now)
        reg
        reg'
        v
unfolding provision_principal_passport_vault
passport-IsProvisioned tenant principal now mint reg reg' v h =
    provision_principal-IsProvisioned (active_passport_of tenant principal)
      (passport_row tenant principal now) v mint reg reg' (ground arith)

-- After it, the select of the same owner finds the vault.
pub find_of_IsProvisioned :
    (w : Vault → Bool) (row v : Vault) (reg reg' : Registry)
    → ((id : String) → w (record row { vault_id = id }) ≡ true)
    → IsProvisioned w row reg reg' v
    → find w reg'.vaults ≡ some v
unfolding find
find_of_IsProvisioned w row v reg reg' fits (found there same_reg) = rw same_reg there
find_of_IsProvisioned w row v reg reg' fits (inserted id missing is done) =
    let k = insert_vault-IsInserted v reg reg' done in
    rw (k.result, find-append w reg.vaults (v ∷ []), missing, is, fits id)

pub IsProvisioned-IsValid :
    {w : Vault → Bool} {row v : Vault} {reg reg' : Registry}
    → IsProvisioned w row reg reg' v
    → IsValid reg
    → IsValid reg'
IsProvisioned-IsValid (found there same_reg) i = rw same_reg i
IsProvisioned-IsValid {v} {reg} {reg'} (inserted id missing is done) i =
    insert_vault-IsValid v reg reg' done i
