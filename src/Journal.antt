-- ===== src/Journal.antt =====
-- packages/msp-core/src/domain/journal.mjs: the append-only audit log. A payload is a JSON object by
-- its members. `read` matches by SQL patterns and is left out.
use memory_and_soul_passport.Prelude.{
  ℕ, String, Bool, true, false, ◌&&◌, ◌||◌, Option, List, [], ◌∷◌, ◌++◌, if◌then◌else◌, ◌==◌, holds,
  any,
}
use memory_and_soul_passport.Errors.{Result, ok, err, type_error}
use memory_and_soul_passport.Grant.{Grant}

pub data PolicyDecision : Type 0 where
  allow deny shadow : PolicyDecision

-- `journal_id` is the place in the list: rows are never removed.
pub record JournalRow : Type 0 where
  pub occurred_at : ℕ
  pub actor : String
  pub tool_name : String
  pub ref : Option String
  pub workspace_id : Option String
  pub payload : Grant
  pub policy_decision : PolicyDecision
  pub reason : Option String

abbrev pub Journal : Type 0
Journal = List JournalRow

abbrev is_allow : PolicyDecision → Bool
is_allow allow = true
is_allow _ = false

unfoldable pub append : JournalRow → Journal → Result Journal
append r j = if r.actor == "" || r.tool_name == "" then err type_error else ok (j ++ r ∷ [])

abbrev is_proof_receipt : String → String → JournalRow → Bool
is_proof_receipt ref workspace r =
    holds r.ref ref
    && holds r.workspace_id workspace
    && r.tool_name == "msp_evidence_record"
    && is_allow r.policy_decision

pub has_proof_receipt : String → String → Journal → Bool
has_proof_receipt ref workspace j = any (is_proof_receipt ref workspace) j
