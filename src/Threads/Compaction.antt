-- ===== src/Threads/Compaction.antt =====
-- claimCompaction and retryCompaction of thread-memory.mjs: the lease under which one worker at a time
-- summarises a session. Ids, workers and errors are trimmed texts that are not blank, an error has at
-- most 1000 characters, and a lease is a whole
-- number of seconds; tokens are minted at random and are an argument.
pub mod Leases
pub mod Blocked
use memory_and_soul_passport.Prelude.{
  ℕ, ◌+◌, ◌*◌, String, Bool, true, false, not, ◌&&◌, ◌||◌, Option, none, some, List, [], ◌∷◌, ltb,
  leb, max, nat_eq, if◌then◌else◌, ◌==◌, holds, find, any, select, map, dec_text,
}
use memory_and_soul_passport.Errors.{
  Result, ok, err, ◌>>=◌, ◌>>◌, guard, state_after, validation_failed, thread_conflict,
  compaction_lease_conflict, sqlite_trigger,
}
use memory_and_soul_passport.Grant.{Claim}
use memory_and_soul_passport.Nonces.{NonceRow, consume_grant_nonce}
use memory_and_soul_passport.Threads.{
  JobStatus, pending, running, committed, retryable, failed, Job, MessageDirection, inbound,
  outbound, DeliveryState, queued, Message, InjectionState, resolved, submitted, injection_unknown,
  Injection, ThreadTables, source_rows,
}

-- The readings of the clock: the caller's `now`, and the two of consumeGrantNonce.
pub record Clock : Type 0 where
  pub now : ℕ
  pub checked_at : ℕ
  pub purged_at : ℕ

pub record Spent : Type 0 where
  pub nonce : Claim
  pub expires_at : Claim

abbrev pub has_job_id : String → Job → Bool
has_job_id id j = j.job_id == id

abbrev pub is_terminal : JobStatus → Bool
is_terminal committed = true
is_terminal failed = true
is_terminal _ = false

abbrev pub is_running : JobStatus → Bool
is_running running = true
is_running _ = false

-- `Date.parse(leased_until) > Date.parse(timestamp)`, which is false where there is no date
abbrev pub is_later : Option ℕ → ℕ → Bool
is_later none now = false
is_later (some t) now = ltb now t

abbrev pub is_live : InjectionState → Bool
is_live resolved = true
is_live submitted = true
is_live _ = false

abbrev is_inbound : MessageDirection → Bool
is_inbound inbound = true
is_inbound outbound = false

abbrev is_queued : DeliveryState → Bool
is_queued queued = true
is_queued _ = false

-- EXISTS (SELECT 1 FROM thread_messages m ...)
abbrev of_session : String → Injection → Message → Bool
of_session session r m =
    m.session_id == session && m.exchange_id == r.exchange_id && m.thread_id == r.thread_id

abbrev pub is_invocation : String → List Message → Injection → Bool
is_invocation session messages r = is_live r.state && any (of_session session r) messages

abbrev is_active_at : ℕ → Injection → Bool
is_active_at now r = ltb now (r.updated_at + 120000)

-- UPDATE thread_injection_receipts SET state = 'UNKNOWN', ...
abbrev pub expire : String → List Message → ℕ → Injection → Injection
expire session messages now r =
    if is_invocation session messages r
    then record r { state = injection_unknown; version = r.version + 1; updated_at = now }
    else r

abbrev is_resolved : InjectionState → Bool
is_resolved resolved = true
is_resolved _ = false

-- The trigger on that update refuses it: a RESOLVED row may become SUBMITTED or FAILED only.
abbrev pub is_refused : String → List Message → Injection → Bool
is_refused session messages r = is_resolved r.state && any (of_session session r) messages

-- The loop of UPDATEs over the invocations; injection ids are the key of the table. The first one
-- that the trigger trg_thread_injection_receipts_update_guard aborts ends the transaction.
unfoldable pub expire_invocations :
    String → List Message → ℕ → List Injection → Result (List Injection)
expire_invocations session messages now rs =
    if any (is_refused session messages) rs
    then err sqlite_trigger
    else ok (map (expire session messages now) rs)

abbrev answers : Message → Message → Bool
answers r o = not (is_inbound o.direction) && o.exchange_id == r.exchange_id

abbrev is_unanswered : List Message → Message → Bool
is_unanswered rows r =
    (is_inbound r.direction && not (any (answers r) rows))
    || (not (is_inbound r.direction) && is_queued r.delivery_state)

unfoldable pub awaiting_reply : List Message → Bool
awaiting_reply rows = any (is_unanswered rows) rows

-- SELECT MAX(received_at)
unfoldable pub last_received : String → List Message → Option ℕ
last_received session [] = none
last_received session (m ∷ ms) =
    let rest = last_received session ms in
    if m.session_id == session
    then some (elim rest [ none ↦ m.received_at | some t ↦ max m.received_at t ])
    else rest

abbrev deadline_of : Option ℕ → Option ℕ
deadline_of none = none
deadline_of (some t) = some (t + 120000)

abbrev pub sources_of : Job → ThreadTables → List Message
sources_of job t = source_rows job.session_id job.source_start_sequence job.source_end_sequence t

-- A model request of the session is younger than two minutes.
unfoldable pub is_replying : Job → ThreadTables → ℕ → Bool
is_replying job t now =
    any (is_active_at now) (select (is_invocation job.session_id t.messages) t.injections)

-- A reply is due, and the last message is younger than two minutes.
unfoldable pub is_awaiting : Job → ThreadTables → ℕ → Bool
unfolding awaiting_reply last_received source_rows
is_awaiting job t now =
    awaiting_reply (sources_of job t)
    && is_later (deadline_of (last_received job.session_id t.messages)) now

abbrev pub lease : String → String → ℕ → ℕ → Job → Job
lease token worker until now j = record j {
  status = running;
  lease_token = some token;
  worker_id = some worker;
  leased_until = some until;
  attempts = j.attempts + 1;
  invocation_state = some "RUNNING";
  updated_at = now;
}

-- UPDATE session_compaction_jobs ... WHERE job_id = ...
unfoldable pub update_job : String → (Job → Job) → List Job → List Job
update_job id f [] = []
update_job id f (j ∷ js) = (if has_job_id id j then f j else j) ∷ update_job id f js

-- The answer of a claim, without the digest of the sources, which is a hash of them.
pub record Claimed : Type 0 where
  pub job : Job
  pub lease_token : String
  pub leased_until : ℕ
  pub sources : List Message

-- The transaction of claimCompaction, once the job is known.
unfoldable pub claim_job :
    Job → String → ℕ → Spent → String → Clock → ThreadTables → Result (ThreadTables × Claimed)
unfolding is_replying is_awaiting expire_invocations update_job
claim_job job worker seconds spent token clock t = do
  guard (not (is_terminal job.status)) compaction_lease_conflict
  rows ←
      consume_grant_nonce (some job.tenant_id) spent.nonce spent.expires_at clock.checked_at
        clock.purged_at t.nonces
  guard (not (is_running job.status && is_later job.leased_until clock.now))
      compaction_lease_conflict
  guard (not (is_replying job t clock.now)) thread_conflict
  expired ← expire_invocations job.session_id t.messages clock.now t.injections
  guard (not (is_awaiting job t clock.now)) thread_conflict
  let until = clock.now + seconds * 1000 in
      ok (
        record t {
          jobs = update_job job.job_id (lease token worker until clock.now) t.jobs;
          injections = expired;
          nonces = rows;
        },
        record {
          job = record job { status = running };
          lease_token = token;
          leased_until = until;
          sources = sources_of job t;
        },
      )

unfoldable pub claim_compaction :
    String → String → ℕ → Spent → String → Clock → ThreadTables → Result (ThreadTables × Claimed)
unfolding claim_job
claim_compaction id worker seconds spent token clock t =
    if nat_eq seconds 0 || ltb 300 seconds
    then err validation_failed
    else elim (find (has_job_id id) t.jobs) [
      | none ↦ err compaction_lease_conflict
      | some job ↦ claim_job job worker seconds spent token clock t
    ]

abbrev pub retry : String → ℕ → Job → Job
retry message now j = record j {
  status = retryable;
  invocation_state = some "FAILED";
  last_error = some message;
  updated_at = now;
}

-- retryCompaction; the row is not changed between its two reads.
unfoldable pub retry_compaction :
    String → String → String → Spent → Clock → ThreadTables → Result ThreadTables
unfolding update_job
retry_compaction id message token spent clock t =
    if token == "" then err validation_failed else elim (find (has_job_id id) t.jobs) [
      | none ↦ err compaction_lease_conflict
      | some job ↦ do
        rows ←
            consume_grant_nonce (some job.tenant_id) spent.nonce spent.expires_at clock.checked_at
              clock.purged_at t.nonces
        guard
            (is_running job.status
              && holds job.lease_token token
              && is_later job.leased_until clock.now)
            compaction_lease_conflict
        ok (record t { jobs = update_job id (retry message clock.now) t.jobs; nonces = rows })
    ]

-- A call of either operation.
pub data LeaseCall : Type 0 where
  claims : String → String → ℕ → Spent → String → Clock → LeaseCall
  retries : String → String → String → Spent → Clock → LeaseCall

abbrev pub clock_of : LeaseCall → Clock
clock_of (claims id worker seconds spent token clock) = clock
clock_of (retries id message token spent clock) = clock

abbrev tables_or : ThreadTables → Result ThreadTables → ThreadTables
tables_or t (err e) = t
tables_or t (ok t') = t'

-- The tables after a call: an error rolls its transaction back.
unfoldable pub after_lease_call : LeaseCall → ThreadTables → ThreadTables
unfolding claim_compaction retry_compaction
after_lease_call (claims id worker seconds spent token clock) t =
    state_after t (claim_compaction id worker seconds spent token clock t)
after_lease_call (retries id message token spent clock) t =
    tables_or t (retry_compaction id message token spent clock t)

unfoldable pub after_lease_calls : List LeaseCall → ThreadTables → ThreadTables
unfolding after_lease_call
after_lease_calls [] t = t
after_lease_calls (c ∷ cs) t = after_lease_calls cs (after_lease_call c t)
