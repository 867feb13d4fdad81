-- ===== src/Threads/Injections.antt =====
-- recordInjection of thread-memory.mjs: the receipts of the model requests of an exchange. The texts of
-- a call are trimmed and not blank, and its state is one of the five; the rows of a session are found
-- by its messages.
pub mod Forward
pub mod Calls
use Prim.Native.Char.{code}
use Prim.Native.String
use memory_and_soul_passport.Prelude.{
  ℕ, ◌+◌, String, Bool, true, false, not, ◌&&◌, ◌||◌, Option, none, some, List, [], ◌∷◌, ◌++◌, ltb,
  leb, nat_eq, if◌then◌else◌, ◌==◌, find, any, select, map, dec_text,
}
use memory_and_soul_passport.Errors.{
  Result, ok, err, ◌>>=◌, ◌>>◌, guard, state_after, not_found, validation_failed, thread_conflict,
  type_error,
}
use memory_and_soul_passport.Grant.{text_length}
use memory_and_soul_passport.Nonces.{consume_grant_nonce}
use memory_and_soul_passport.Threads.{
  Job, Message, InjectionState, resolved, submitted, completed, injection_failed, injection_unknown,
  Injection, Thread, SessionStatus, closed, Session, ThreadTables,
}
use memory_and_soul_passport.Threads.Compaction.{
  Clock, Spent, LeaseCall, after_lease_call, is_running,
}

unfoldable pub is_hex_text : String → Bool
is_hex_text String.[] = true
is_hex_text (String.◌∷◌ c s) =
    ((leb 48 (code c) && leb (code c) 57) || (leb 97 (code c) && leb (code c) 102)) && is_hex_text s

-- /^[a-f0-9]{64}$/
abbrev is_packet_hash : String → Bool
is_packet_hash s = is_hex_text s && nat_eq (text_length s) 64

abbrev pub has_injection_id : String → Injection → Bool
has_injection_id id r = r.injection_id == id

abbrev has_thread_id : String → Thread → Bool
has_thread_id id t = t.thread_id == id

abbrev of_exchange : String → String → Message → Bool
of_exchange thread exchange m = m.thread_id == thread && m.exchange_id == exchange

abbrev has_session_id : String → Session → Bool
has_session_id id s = s.session_id == id

abbrev is_leased : String → Job → Bool
is_leased session j = j.session_id == session && is_running j.status

abbrev is_closed : SessionStatus → Bool
is_closed closed = true
is_closed _ = false

-- The states by number: equal states have equal numbers.
abbrev pub state_number : InjectionState → ℕ
state_number resolved = 0
state_number submitted = 1
state_number completed = 2
state_number injection_failed = 3
state_number injection_unknown = 4

abbrev pub same_state : InjectionState → InjectionState → Bool
same_state a b = nat_eq (state_number a) (state_number b)

-- allowed[old.state]?.includes(status)
unfoldable pub may_follow : InjectionState → InjectionState → Bool
may_follow resolved submitted = true
may_follow resolved injection_failed = true
may_follow submitted completed = true
may_follow submitted injection_failed = true
may_follow submitted injection_unknown = true
may_follow _ _ = false

pub record InjectionInput : Type 0 where
  pub thread_id : String
  pub exchange_id : String
  pub injection_id : String
  pub packet_hash : String
  pub policy_revision : String
  pub model_ref : String
  pub state : InjectionState

abbrev pub is_same_injection : InjectionInput → Injection → Bool
is_same_injection i r =
    r.thread_id == i.thread_id
    && r.exchange_id == i.exchange_id
    && r.packet_hash == i.packet_hash
    && r.policy_revision == i.policy_revision
    && r.model_ref == i.model_ref

abbrev pub new_injection : InjectionInput → ℕ → Injection
new_injection i now = record {
  injection_id = i.injection_id;
  thread_id = i.thread_id;
  exchange_id = i.exchange_id;
  packet_hash = i.packet_hash;
  policy_revision = i.policy_revision;
  model_ref = i.model_ref;
  state = i.state;
  version = 1;
  updated_at = now;
}

abbrev pub advance : String → InjectionState → ℕ → Injection → Injection
advance id state now r =
    if has_injection_id id r
    then record r { state = state; version = r.version + 1; updated_at = now }
    else r

-- The session of the exchange takes new requests: it is not closed, nor leased for a summary.
abbrev is_open_for : Session → List Job → Bool
is_open_for s jobs = not (is_closed s.status || any (is_leased s.session_id) jobs)

unfoldable pub session_of : String → String → ThreadTables → Result Session
session_of thread exchange t = elim (find (of_exchange thread exchange) t.messages) [
  | none ↦ err type_error
  | some m ↦ elim (find (has_session_id m.session_id) t.sessions) [
    | none ↦ err type_error
    | some s ↦ ok s
  ]
]

-- A receipt begins as RESOLVED.
unfoldable pub start_injection : InjectionInput → ℕ → ThreadTables → Result (List Injection × ℕ)
unfolding session_of
start_injection i now t = do
  guard (same_state i.state resolved) thread_conflict
  s ← session_of i.thread_id i.exchange_id t
  guard (is_open_for s t.jobs) thread_conflict
  ok (t.injections ++ new_injection i now ∷ [], 1)

unfoldable pub move_injection :
    InjectionInput → ℕ → Injection → ThreadTables → Result (List Injection × ℕ)
unfolding may_follow
move_injection i now old t =
    if not (is_same_injection i old)
    then err thread_conflict
    else if same_state old.state i.state
    then ok (t.injections, old.version)
    else if may_follow old.state i.state
    then ok (map (advance i.injection_id i.state now) t.injections, old.version + 1)
    else err thread_conflict

unfoldable pub write_injection : InjectionInput → ℕ → ThreadTables → Result (List Injection × ℕ)
unfolding start_injection move_injection
write_injection i now t = elim (find (has_injection_id i.injection_id) t.injections) [
  | none ↦ start_injection i now t
  | some old ↦ move_injection i now old t
]

-- The tables after it, and the version of the receipt.
unfoldable pub record_injection :
    InjectionInput → Spent → Clock → ThreadTables → Result (ThreadTables × ℕ)
unfolding write_injection is_hex_text
record_injection i spent clock t = elim (find (has_thread_id i.thread_id) t.threads) [
  | none ↦ err not_found
  | some thread ↦ do
    guard (not thread.is_revoked) thread_conflict
    guard (is_packet_hash i.packet_hash) validation_failed
    guard (any (of_exchange i.thread_id i.exchange_id) t.messages) validation_failed
    rows ←
        consume_grant_nonce (some thread.tenant_id) spent.nonce spent.expires_at clock.checked_at
          clock.purged_at t.nonces
    done ← write_injection i clock.now t
    ok (record t { injections = done.0; nonces = rows }, done.1)
]

-- A call of this operation or of those on leases.
pub data ThreadCall : Type 0 where
  leases : LeaseCall → ThreadCall
  records : InjectionInput → Spent → Clock → ThreadCall

-- The tables after a call: an error rolls its transaction back.
unfoldable pub after_thread_call : ThreadCall → ThreadTables → ThreadTables
unfolding record_injection after_lease_call
after_thread_call (leases c) t = after_lease_call c t
after_thread_call (records i spent clock) t = state_after t (record_injection i spent clock t)

unfoldable pub after_thread_calls : List ThreadCall → ThreadTables → ThreadTables
unfolding after_thread_call
after_thread_calls [] t = t
after_thread_calls (c ∷ cs) t = after_thread_calls cs (after_thread_call c t)
