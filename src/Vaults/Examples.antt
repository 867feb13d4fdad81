-- ===== src/Vaults/Examples.antt =====
-- A small registry, and the theorems on vaults applied to it.
use memory_and_soul_passport.Prelude.{
  ℕ, zero, suc, String, ◌≡◌, ◌≢◌, ◌↔◌, ap, refl, true, false, none, some, List, [], ◌∷◌, find, any,
  ◌==◌, dec_text, arith,
}
use memory_and_soul_passport.Errors.{ok, err, vault_provision_conflict}
use memory_and_soul_passport.Vaults.{
  mounted as mounted_status, Vault, shared, principal_private, active, ebbinghaus, Mount, read,
  Registry, StableId, same_active_owner, insert_vault, get_vault_by_id, by_id, is_principal,
}
use memory_and_soul_passport.Vaults.Access.{
  Caller, accessible_by_type, is_vault_row_accessible_to, classify_principal_access, ok as granted,
}
use memory_and_soul_passport.Vaults.Access.Isolation.{
  MayReach, is_vault_row_accessible_to_iff, accessible-one_owner, accessible-principal_local,
  classify_principal_access_iff,
}
use memory_and_soul_passport.Vaults.Keeps.{IsValid}
use memory_and_soul_passport.Vaults.Mounts.{mount_vault, mount_known, insert_mount}
use memory_and_soul_passport.Vaults.Mounts.Laws.{
  mount_vault-accessible, mount_vault-principal_hidden,
}
use memory_and_soul_passport.Vaults.Principal.{
  Owner, private_row, passport_row, private_of, insert_minted, provision_principal,
  provision_principal_private_vault, provision_principal_passport_vault,
}
use memory_and_soul_passport.Vaults.Principal.Owners.{
  provision_private_twice, provision_private_separates,
}
use memory_and_soul_passport.Vaults.Principal.Minting.{
  provision_private_succeeds, provision_private_exhausted,
}
use memory_and_soul_passport.Vaults.Reach.{
  Operation, provisions_shared, provisions_private, mounts_vault, run, run-IsValid,
}

differ : {s t : String} → (s == t) ≡ false → s ≢ t
differ h e = ground arith

-- Two agents of one person.
abbrev first_owner : Owner
first_owner = record { tenant_id = "t"; principal_id = "p"; agent_id = "a"; workspace_id = "w" }

abbrev second_owner : Owner
second_owner = record { tenant_id = "t"; principal_id = "p"; agent_id = "b"; workspace_id = "w" }

abbrev first_vault : Vault
first_vault = record (private_row first_owner 10) { vault_id = "v1" }

abbrev second_vault : Vault
second_vault = record (private_row second_owner 20) { vault_id = "v2" }

abbrev passport : Vault
passport = record (passport_row "t" "p" 10) { vault_id = "v3" }

abbrev pub shared_vault : Vault
shared_vault = record {
  vault_id = "v4";
  vault_type = shared;
  project_id = some "x";
  workspace_id = none;
  agent_id = none;
  tenant_id = none;
  principal_id = none;
  role = none;
  status = active;
  decay_policy = ebbinghaus;
  created_at = 5;
}

abbrev empty : Registry
empty = record { vaults = []; mounts = [] }

abbrev registry : List Vault → Registry
registry vs = record { vaults = vs; mounts = [] }

abbrev first_caller : Caller
first_caller = record {
  workspace_id = some "w";
  agent_id = some "a";
  tenant_id = some "t";
  principal_id = some "p";
  allow_passport = false;
}

abbrev stable : StableId
stable prefix parts = prefix

abbrev mount : Mount
mount = record {
  mount_id = "vault-mount";
  vault_id = "v4";
  workspace_id = "w";
  mount_alias = "m";
  access_mode = read;
  status = mounted_status;
  mounted_at = 7;
}

abbrev mounted : Registry
mounted = record { vaults = shared_vault ∷ []; mounts = mount ∷ [] }

first_provisioned :
    provision_principal_private_vault first_owner 10 (λ i. "v1") empty
    ≡ ok (registry (first_vault ∷ []), first_vault)
unfolding provision_principal_private_vault provision_principal insert_minted insert_vault
    same_active_owner find any dec_text
first_provisioned = refl

second_provisioned :
    provision_principal_private_vault second_owner 20 (λ i. "v2") (registry (first_vault ∷ []))
    ≡ ok (registry (first_vault ∷ second_vault ∷ []), second_vault)
unfolding provision_principal_private_vault provision_principal insert_minted insert_vault
    same_active_owner find any dec_text
second_provisioned = refl

passport_provisioned :
    provision_principal_passport_vault "t" "p" 10 (λ i. "v3") empty
    ≡ ok (registry (passport ∷ []), passport)
unfolding provision_principal_passport_vault provision_principal insert_minted insert_vault
    same_active_owner find any dec_text
passport_provisioned = refl

first_accessible : is_vault_row_accessible_to empty (some first_vault) first_caller ≡ true
unfolding is_vault_row_accessible_to accessible_by_type dec_text
first_accessible = refl

was_mounted :
    mount_vault stable "v4" "w" "m" read 7 (registry (shared_vault ∷ [])) ≡ ok (mounted, mount)
unfolding mount_vault mount_known insert_mount find any dec_text
was_mounted = refl

empty-IsValid : IsValid empty
empty-IsValid = record { ids = tt; owners = tt; lawful = tt; mount_ids = tt }

is_vault_row_accessible_to_iff_example :
    (is_vault_row_accessible_to empty (some first_vault) first_caller ≡ true)
    ↔ ((first_vault.status ≡ active) × MayReach empty first_vault first_caller principal_private)
is_vault_row_accessible_to_iff_example =
    is_vault_row_accessible_to_iff empty first_vault first_caller

accessible-one_owner_example :
    (first_caller.tenant_id ≡ first_caller.tenant_id)
    × (first_caller.principal_id ≡ first_caller.principal_id)
    × (first_caller.agent_id ≡ first_caller.agent_id)
    × (first_caller.workspace_id ≡ first_caller.workspace_id)
accessible-one_owner_example =
    accessible-one_owner empty empty first_vault first_caller first_caller refl first_accessible
      first_accessible

accessible-principal_local_example :
    is_vault_row_accessible_to mounted (some first_vault) first_caller
    ≡ is_vault_row_accessible_to empty (some first_vault) first_caller
accessible-principal_local_example =
    accessible-principal_local mounted empty first_vault first_caller refl

classify_principal_access_iff_example :
    (classify_principal_access empty (some first_vault) (some first_caller) ≡ granted) ↔ (
      (is_principal first_vault.vault_type ≡ true)
      × ((c : Caller) × (some first_caller ≡ some c)
          × (first_vault.status ≡ active)
          × MayReach empty first_vault c first_vault.vault_type))
classify_principal_access_iff_example =
    classify_principal_access_iff empty first_vault (some first_caller)

provision_private_twice_example :
    provision_principal_private_vault first_owner 99 (λ i. "v9") (registry (first_vault ∷ []))
    ≡ ok (registry (first_vault ∷ []), first_vault)
provision_private_twice_example =
    provision_private_twice first_owner 10 99 (λ i. "v1") (λ i. "v9") empty
      (registry (first_vault ∷ [])) first_vault first_provisioned

owners_differ : first_owner ≢ second_owner
unfolding dec_text
owners_differ e = differ {s = "a"} {t = "b"} refl (ap (λ o. o.agent_id) e)

provision_private_separates_example : first_vault.vault_id ≢ second_vault.vault_id
provision_private_separates_example =
    provision_private_separates first_owner second_owner 10 20 (λ i. "v1") (λ i. "v2") empty
      (registry (first_vault ∷ [])) (registry (first_vault ∷ second_vault ∷ [])) first_vault
      second_vault empty-IsValid owners_differ first_provisioned second_provisioned

named :
    (first_owner.tenant_id ≢ "")
    × (first_owner.principal_id ≢ "")
    × (first_owner.agent_id ≢ "")
    × (first_owner.workspace_id ≢ "")
unfolding dec_text
named = (differ refl, differ refl, differ refl, differ refl)

unused : any (by_id "v1") (shared_vault ∷ []) ≡ false
unfolding any dec_text
unused = refl

used : any (by_id "v4") (shared_vault ∷ []) ≡ true
unfolding any dec_text
used = refl

missing : find (private_of first_owner) (shared_vault ∷ []) ≡ none
unfolding find
missing = refl

-- The first three ids are in use, the fourth is not.
abbrev fourth_is_free : ℕ → String
fourth_is_free zero = "v4"
fourth_is_free (suc zero) = "v4"
fourth_is_free (suc (suc zero)) = "v4"
fourth_is_free _ = "v1"

provision_private_succeeds_example :
    (reg : Registry) × (v : Vault) × (provision_principal_private_vault first_owner 10
        fourth_is_free
        (registry (shared_vault ∷ []))
      ≡ ok (reg, v))
provision_private_succeeds_example =
    provision_private_succeeds first_owner 10 fourth_is_free (registry (shared_vault ∷ [])) 3 named
      (omega arith) unused

provision_private_exhausted_example :
    provision_principal_private_vault first_owner 10 (λ i. "v4") (registry (shared_vault ∷ []))
    ≡ err vault_provision_conflict
provision_private_exhausted_example =
    provision_private_exhausted first_owner 10 (λ i. "v4") (registry (shared_vault ∷ [])) named
      missing (λ i h. used)

found_v4 : get_vault_by_id "v4" mounted ≡ some shared_vault
unfolding find dec_text
found_v4 = refl

mount_vault-accessible_example :
    is_vault_row_accessible_to mounted (some shared_vault) first_caller ≡ true
mount_vault-accessible_example =
    mount_vault-accessible stable "v4" "w" "m" read 7 (registry (shared_vault ∷ [])) mounted mount
      shared_vault first_caller was_mounted found_v4 refl refl

found_v1 : get_vault_by_id "v1" (registry (first_vault ∷ [])) ≡ some first_vault
unfolding find dec_text
found_v1 = refl

not_found_v2 : get_vault_by_id "v2" (registry (first_vault ∷ [])) ≡ none
unfolding find dec_text
not_found_v2 = refl

vault_names : (first_vault.vault_id ≢ "") × (second_vault.vault_id ≢ "")
unfolding dec_text
vault_names = (differ refl, differ refl)

mount_vault-principal_hidden_example :
    mount_vault stable "v1" "w" "m" read 7 (registry (first_vault ∷ []))
    ≡ mount_vault stable "v2" "w" "m" read 7 (registry (first_vault ∷ []))
mount_vault-principal_hidden_example =
    mount_vault-principal_hidden stable "v1" "v2" "w" "m" read 7 (registry (first_vault ∷ []))
      first_vault found_v1 refl vault_names.0 not_found_v2 vault_names.1

abbrev history : List Operation
history =
    provisions_shared "x" 1
    ∷ provisions_private first_owner 2 (λ i. "v1")
    ∷ mounts_vault "vault" "w" "m" read 3
    ∷ []

run-IsValid_example : IsValid (run stable empty history)
run-IsValid_example = run-IsValid stable empty history empty-IsValid
