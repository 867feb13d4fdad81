-- ===== src/Memory.antt =====
-- apps/msp-server/src/transport/handlers/memory-handlers.mjs: who may call a memory tool, and the
-- consumption of its grant. The tools themselves are in Memory/Tools.
pub mod Tools
pub mod Reads
pub mod Writes
pub mod Authorized
pub mod Calls
pub mod Histories
pub mod Examples
use memory_and_soul_passport.Prelude.{
  ℕ, ◌+◌, String, Bool, true, false, not, ◌&&◌, ◌||◌, Option, none, some, List, [], ◌∷◌, ◌++◌,
  if◌then◌else◌, ◌==◌, find, dec_text,
}
use memory_and_soul_passport.Errors.{
  Error, Result, ok, err, ◌>>=◌, ◌>>◌, guard, not_found, invalid_request, vault_scope_denied,
  access_context_denied, grant_replayed, type_error,
}
use memory_and_soul_passport.Grant.{
  Claim, absent, text, whole, boolean, other, Grant, claim, Access, KeySource, Crypto,
}
use memory_and_soul_passport.Json.{Json}
use memory_and_soul_passport.Nonces.{NonceRow, consume_grant_nonce}
use memory_and_soul_passport.Vaults.{
  Vault, VaultType, shared, workspace_private, global_private, principal_private,
  principal_passport, Registry, get_vault_by_id, is_principal, is_global_private,
  is_principal_passport,
}
use memory_and_soul_passport.Vaults.Access.{
  Caller, AccessOutcome, classify_principal_access, ok as granted,
}
use memory_and_soul_passport.Guards.{
  verify_vault_grant, require_grant_nonce, assert_global_private_grant,
}

-- A member of a request that a tool reads.
pub data Member : Type 0 where
  value : Claim → Member
  json : Option Json → Member

-- The deployment: the keys, the JSON text of the members that a tool reads and the others, what node:crypto gives, and the gate MSP_GLOBAL_PRIVATE_GRANT.
pub record Gate : Type 0 where
  pub crypto : Crypto
  pub keys : KeySource
  pub text_of_members : List (String × Member) → String → String
  pub global_private_grant_required : Bool

-- What a call sends besides the members that its tool reads: `access`, none where it is undefined,
-- and the text of the members that no tool reads.
pub record Sent : Type 0 where
  pub access : Option Access
  pub others : String

-- What checkAccess is given: the name of the tool, and `const { access, ...input } = args`.
pub record Envelope : Type 0 where
  pub tool : String
  pub access : Option Access
  pub input : String

abbrev pub envelope : Gate → String → List (String × Member) → Sent → Envelope
envelope gate tool members sent = record {
  tool = tool;
  access = sent.access;
  input = gate.text_of_members members sent.others;
}

-- The readings of the clock in a call: now() of a check, and of the second one where there are two,
-- the two of consumeGrantNonce, that of a link's `validFrom`, and those of the writes.
pub record Times : Type 0 where
  pub granted_at : ℕ
  pub granted_again_at : ℕ
  pub checked_at : ℕ
  pub purged_at : ℕ
  pub valid_from : ℕ
  pub written_at : ℕ
  pub journaled_at : ℕ

-- `claims.x ?? null`, where a value that is no text equals no column.
abbrev pub text_of : Claim → Option String
text_of (text s) = some s
text_of _ = none

abbrev pub is_true : Claim → Bool
is_true (boolean b) = b
is_true _ = false

abbrev pub caller_of : Grant → Caller
caller_of g = record {
  workspace_id = text_of (claim "workspaceId" g);
  agent_id = text_of (claim "agentId" g);
  tenant_id = text_of (claim "tenantId" g);
  principal_id = text_of (claim "principalId" g);
  allow_passport = is_true (claim "allowPassport" g);
}

-- A passport asks for a grant that allows it.
abbrev pub is_allowed : VaultType → Grant → Bool
is_allowed type g = if is_principal_passport type then is_true (claim "allowPassport" g) else true

abbrev pub is_granted : AccessOutcome → Bool
is_granted granted = true
is_granted _ = false

abbrev pub nonce_if : Bool → Grant → Result (Unit {0})
nonce_if true g = require_grant_nonce g >>= λ n. ok tt
nonce_if false g = ok tt

-- `catch { throw new ...Error(...) }`
abbrev pub or_throw : Error → Result Grant → Result (Option Grant)
or_throw e (ok g) = ok (some g)
or_throw e (err _) = err e

module _ (gate : Gate) (registry : Registry) (vault : Vault) (request : Envelope)
    (nonce_required : Bool) (now : ℕ) where
  verified : Access → Result Grant
  verified access =
      verify_vault_grant gate.crypto request.tool request.input access gate.keys vault.vault_type
        now

  -- The grant was verified before the two checks outside of the `try`.
  check_global_grant : Grant → Result (Option Grant)
  check_global_grant g = do
    assert_global_private_grant vault (some g)
    nonce_if nonce_required g
    ok (some g)

  check_global : Option Access → Result (Option Grant)
  unfolding check_global_grant verified
  check_global none = if gate.global_private_grant_required then err vault_scope_denied else ok none
  check_global (some access) = elim (verified access) [
    | err e ↦ err vault_scope_denied
    | ok g ↦ check_global_grant g
  ]

  -- The body of the `try`; the codes of its own errors are lost.
  check_principal : Option Access → Result Grant
  unfolding verified
  check_principal none = err invalid_request
  check_principal (some access) = do
    g ← verified access
    guard (is_granted (classify_principal_access registry (some vault) (some (caller_of g))))
        access_context_denied
    guard (is_allowed vault.vault_type g) access_context_denied
    nonce_if nonce_required g
    ok g

  check_by_type : VaultType → Result (Option Grant)
  check_by_type shared = ok none
  check_by_type workspace_private = ok none
  check_by_type global_private = check_global request.access
  check_by_type _ = or_throw not_found (check_principal request.access)

  unfoldable pub check_access : Result (Option Grant)
  unfolding check_by_type check_global check_principal
  check_access = check_by_type vault.vault_type

-- A replay on a principal vault is hidden.
abbrev pub hide_replay : Vault → Result (List NonceRow) → Result (List NonceRow)
hide_replay v (ok rows) = ok rows
hide_replay v (err grant_replayed) =
    if is_principal v.vault_type then err not_found else err grant_replayed
hide_replay v (err e) = err e

unfoldable pub consume_authorized_grant :
    Vault → Option Grant → Times → List NonceRow → Result (List NonceRow)
consume_authorized_grant v none times rows = ok rows
consume_authorized_grant v (some g) times rows = hide_replay v (
    consume_grant_nonce
      (if is_global_private v.vault_type then none else text_of (claim "tenantId" g))
      (claim "nonce" g) (claim "expiresAt" g) times.checked_at times.purged_at rows)

unfoldable pub require_known_vault : String → Registry → Result Vault
require_known_vault id registry = elim (get_vault_by_id id registry) [
  | none ↦ err not_found
  | some v ↦ ok v
]

-- The vault of an entity that was found; `checkAccess` of undefined is a TypeError.
pub vault_of_entity : String → Registry → Result Vault
vault_of_entity id registry = elim (get_vault_by_id id registry) [
  | none ↦ err type_error
  | some v ↦ ok v
]
