-- ===== src/Threads.antt =====
-- packages/msp-core/src/domain/thread-memory.mjs: the tables of the thread memory that the compaction
-- of a session reads and writes (migrations/0008). A time is milliseconds.
pub mod Compaction
pub mod Injections
pub mod Examples
use memory_and_soul_passport.Prelude.{
  ℕ, ◌+◌, String, Bool, true, false, not, ◌&&◌, ◌||◌, Option, none, some, List, [], ◌∷◌, ltb, leb,
  max, if◌then◌else◌, ◌==◌, select, dec_text,
}
use memory_and_soul_passport.Nonces.{NonceRow}

pub data JobStatus : Type 0 where
  pending running committed retryable failed : JobStatus

-- A row of `session_compaction_jobs`.
pub record Job : Type 0 where
  pub job_id : String
  pub tenant_id : String
  pub session_id : String
  pub thread_id : String
  pub status : JobStatus
  pub source_start_sequence : ℕ
  pub source_end_sequence : ℕ
  pub idempotency_key : String
  pub attempts : ℕ
  pub leased_until : Option ℕ
  pub lease_token : Option String
  pub worker_id : Option String
  pub invocation_state : Option String
  pub summary_id : Option String
  pub last_error : Option String
  pub updated_at : ℕ

pub data MessageDirection : Type 0 where
  inbound outbound : MessageDirection

pub data DeliveryState : Type 0 where
  received queued accepted delivered delivery_failed delivery_unknown : DeliveryState

-- The columns of `thread_messages` that a source has, and those that select them.
pub record Message : Type 0 where
  pub message_id : String
  pub thread_id : String
  pub session_id : String
  pub exchange_id : String
  pub sequence : ℕ
  pub speaker_id : String
  pub direction : MessageDirection
  pub delivery_state : DeliveryState
  pub text : String
  pub received_at : ℕ

-- A row of `thread_delivery_receipts`; the order of the table is that of its row ids.
pub record Delivery : Type 0 where
  pub message_id : String
  pub outcome : DeliveryState
  pub text : String
  pub recorded_at : ℕ

pub data InjectionState : Type 0 where
  resolved submitted completed injection_failed injection_unknown : InjectionState

-- A row of `thread_injection_receipts`.
pub record Injection : Type 0 where
  pub injection_id : String
  pub thread_id : String
  pub exchange_id : String
  pub packet_hash : String
  pub policy_revision : String
  pub model_ref : String
  pub state : InjectionState
  pub version : ℕ
  pub updated_at : ℕ

-- The columns of `threads` and of `chat_sessions` that are read here.
pub record Thread : Type 0 where
  pub thread_id : String
  pub tenant_id : String
  pub is_revoked : Bool

pub data SessionStatus : Type 0 where
  open_session closing closed : SessionStatus

pub record Session : Type 0 where
  pub session_id : String
  pub status : SessionStatus

pub record ThreadTables : Type 0 where
  pub threads : List Thread
  pub sessions : List Session
  pub jobs : List Job
  pub messages : List Message
  pub deliveries : List Delivery
  pub injections : List Injection
  pub nonces : List NonceRow

-- `outcome IN ('ACCEPTED', 'DELIVERED')`
abbrev pub is_success : DeliveryState → Bool
is_success accepted = true
is_success delivered = true
is_success _ = false

-- Whether the first receipt stays before a later row: ORDER BY success DESC, recorded_at DESC, rowid DESC
abbrev pub stays_first : Delivery → Delivery → Bool
stays_first d later =
    if is_success d.outcome
    then not (is_success later.outcome) || ltb later.recorded_at d.recorded_at
    else not (is_success later.outcome) && ltb later.recorded_at d.recorded_at

abbrev better : Delivery → Option Delivery → Delivery
better d none = d
better d (some later) = if stays_first d later then d else later

unfoldable pub best_delivery : String → List Delivery → Option Delivery
best_delivery id [] = none
best_delivery id (d ∷ ds) =
    let rest = best_delivery id ds in if d.message_id == id then some (better d rest) else rest

abbrev with_delivery : Message → Option Delivery → Message
with_delivery m none = m
with_delivery m (some d) = record m { delivery_state = d.outcome; text = d.text }

unfoldable pub insert_by_sequence : Message → List Message → List Message
insert_by_sequence m [] = m ∷ []
insert_by_sequence m (x ∷ xs) =
    if ltb x.sequence m.sequence then x ∷ insert_by_sequence m xs else m ∷ x ∷ xs

unfoldable pub sort_by_sequence : List Message → List Message
sort_by_sequence [] = []
sort_by_sequence (m ∷ ms) = insert_by_sequence m (sort_by_sequence ms)

unfoldable pub with_deliveries : List Delivery → List Message → List Message
with_deliveries ds [] = []
with_deliveries ds (m ∷ ms) =
    with_delivery m (best_delivery m.message_id ds) ∷ with_deliveries ds ms

abbrev in_range : String → ℕ → ℕ → Message → Bool
in_range session start end m = m.session_id == session && leb start m.sequence && leb m.sequence end

-- The messages of a session in a range, as they were delivered.
unfoldable pub source_rows : String → ℕ → ℕ → ThreadTables → List Message
unfolding best_delivery sort_by_sequence insert_by_sequence with_deliveries
source_rows session start end t =
    with_deliveries t.deliveries (sort_by_sequence (select (in_range session start end) t.messages))
