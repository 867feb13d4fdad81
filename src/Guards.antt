-- ===== src/Guards.antt =====
-- packages/msp-contracts/src/contracts/vault-grant-guard.mjs and vault-scope-guard.mjs; the child
-- Context is context-scope-guard.mjs.
pub mod Context
pub mod Examples
use memory_and_soul_passport.Prelude.{
  ℕ, String, Bool, true, false, ◌&&◌, Option, none, some, List, [], ◌∷◌, ltb, leb, if◌then◌else◌,
  ◌==◌, holds, dec_text,
}
use memory_and_soul_passport.Errors.{
  Result, ok, err, ◌>>=◌, ◌>>◌, guard, grant_nonce_required, vault_scope_denied,
  access_context_denied,
}
use memory_and_soul_passport.Grant.{
  Claim, absent, text, whole, other, Grant, claim, Access, KeySource, fixed, resolver, Crypto,
  verify_signed_grant, text_length, max_claim_length,
}
use memory_and_soul_passport.Vaults.{
  Vault, VaultType, shared, workspace_private, global_private, principal_private,
  principal_passport,
}
use memory_and_soul_passport.Vaults.Access as VaultAccess

-- The claims that a grant needs, by the type of the vault. `legacy_access` is no vault's type.
unfoldable pub required_claims : VaultType → List String
required_claims principal_private = "tenantId" ∷ "principalId" ∷ "agentId" ∷ "workspaceId" ∷ []
required_claims global_private = "agentId" ∷ []
required_claims _ = "tenantId" ∷ "principalId" ∷ []

-- A global-private grant is verified under the key of no tenant.
abbrev pub keys_for : VaultType → KeySource → KeySource
keys_for global_private (resolver f) = resolver (λ tenant. f absent)
keys_for _ keys = keys

unfoldable pub verify_vault_grant :
    Crypto → String → String → Access → KeySource → VaultType → ℕ → Result Grant
verify_vault_grant c name input access keys type now =
    verify_signed_grant c name input access (keys_for type keys) (required_claims type) now

unfoldable pub require_grant_nonce : Grant → Result String
require_grant_nonce g = elim (claim "nonce" g) [
  | text n ↦
      if ltb 0 (text_length n) && leb (text_length n) max_claim_length
      then ok n
      else err grant_nonce_required
  | _ ↦ err grant_nonce_required
]

-- `grant.agentId === vault.agent_id`, where null is the only other value that a column has.
abbrev pub claim_is : Claim → Option String → Bool
claim_is (text s) column = holds column s
claim_is (other t) none = t == "null"
claim_is _ _ = false

unfoldable pub assert_global_private_grant : Vault → Option Grant → Result (Unit {0})
assert_global_private_grant v none = err vault_scope_denied
assert_global_private_grant v (some g) =
    guard (claim_is (claim "agentId" g) v.agent_id) vault_scope_denied

abbrev pub assert_vault_scope : Bool → Result (Unit {0})
assert_vault_scope is_accessible = guard is_accessible vault_scope_denied

-- assertAccessContext on the outcomes of classifyPrincipalAccess
abbrev pub assert_access_context : VaultAccess.AccessOutcome → Result (Unit {0})
assert_access_context VaultAccess.access_context_denied = err access_context_denied
assert_access_context _ = ok tt
