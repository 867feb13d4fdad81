-- ===== src/Threads/Examples.antt =====
-- A job whose session has ended, claimed by one worker and then by another, and the receipt of a request.
use memory_and_soul_passport.Prelude.{
  true, ℕ, String, ◌≡◌, ◌≢◌, refl, false, none, some, [], ◌∷◌, find, any, select, arith, ◌==◌,
  dec_text,
}
use memory_and_soul_passport.Errors.{ok, is_ok}
use memory_and_soul_passport.Grant.{text, whole, text_length}
use memory_and_soul_passport.Nonces.{
  consume_grant_nonce, nonce_text, plausible_expiry, insert_nonce, purge, is_used,
}
use memory_and_soul_passport.Threads.{
  Injection, resolved, submitted, completed, Job, pending, closing, running, inbound, outbound,
  received, delivered, Message, ThreadTables, source_rows, best_delivery, sort_by_sequence,
  insert_by_sequence, with_deliveries,
}
use memory_and_soul_passport.Threads.Compaction.{
  is_refused, has_job_id, Clock, Spent, Claimed, claim_compaction, claim_job, is_replying,
  is_awaiting, awaiting_reply, last_received, expire_invocations, update_job, lease, claims,
  retries, after_lease_calls,
}
use memory_and_soul_passport.Threads.Injections.{
  InjectionInput, leases, records, after_thread_call, after_thread_calls, record_injection,
  write_injection, move_injection, may_follow, is_hex_text,
}
use memory_and_soul_passport.Threads.Injections.Forward.{MovesForward}
use memory_and_soul_passport.Threads.Injections.Calls.{after_thread_calls-MovesForward}
use memory_and_soul_passport.Threads.Compaction.Blocked.{claim_compaction_blocked}
use memory_and_soul_passport.Threads.Compaction.Leases.{claim_compaction-IsExclusive}

abbrev job : Job
job = record {
  job_id = "job";
  tenant_id = "t";
  session_id = "s";
  thread_id = "th";
  status = pending;
  source_start_sequence = 1;
  source_end_sequence = 2;
  idempotency_key = "s:1:2";
  attempts = 0;
  leased_until = none;
  lease_token = none;
  worker_id = none;
  invocation_state = none;
  summary_id = none;
  last_error = none;
  updated_at = 0;
}

abbrev question : Message
question = record {
  message_id = "m1";
  thread_id = "th";
  session_id = "s";
  exchange_id = "x";
  sequence = 1;
  speaker_id = "p";
  direction = inbound;
  delivery_state = received;
  text = "hello";
  received_at = 1000;
}

abbrev reply : Message
reply = record question {
  message_id = "m2";
  sequence = 2;
  speaker_id = "a";
  direction = outbound;
  delivery_state = delivered;
}

abbrev tables : ThreadTables
tables = record {
  threads = record { thread_id = "th"; tenant_id = "t"; is_revoked = false } ∷ [];
  sessions = record { session_id = "s"; status = closing } ∷ [];
  jobs = job ∷ [];
  messages = reply ∷ question ∷ [];
  deliveries = [];
  injections = [];
  nonces = [];
}

abbrev spent : Spent
spent = record { nonce = text "n"; expires_at = whole 61000 }

abbrev at_time : ℕ → Clock
at_time n = record { now = n; checked_at = n; purged_at = n }

abbrev leased_job : Job
leased_job = lease "token" "w" 122000 2000 job

abbrev leased : ThreadTables
leased = record tables {
  jobs = leased_job ∷ [];
  nonces = record { tenant_id = some "t"; nonce = "n"; expires_at = 61000 } ∷ [];
}

abbrev claimed : Claimed
claimed = record {
  job = record job { status = running };
  lease_token = "token";
  leased_until = 122000;
  sources = question ∷ reply ∷ [];
}

was_claimed :
    claim_compaction "job" "w" 120 spent "token" (at_time 2000) tables ≡ ok (leased, claimed)
unfolding claim_compaction claim_job is_replying is_awaiting awaiting_reply last_received
    expire_invocations update_job source_rows best_delivery sort_by_sequence insert_by_sequence
    with_deliveries consume_grant_nonce nonce_text plausible_expiry insert_nonce purge is_used
    text_length find any select dec_text
was_claimed = refl

differ : {s t : String} → (s == t) ≡ false → s ≢ t
differ h e = ground arith

wrong_token : ◌≢◌ {A = String} "guess" "token"
unfolding dec_text
wrong_token = differ refl

claim_compaction-IsExclusive_example :
    is_ok (
      claim_compaction "job" "w2" 300 spent "other" (at_time 121000) (
        after_lease_calls
          (claims "job" "w2" 300 spent "other" (at_time 60000)
            ∷ retries "job" "failed" "guess" spent (at_time 61000)
            ∷ [])
          leased))
    ≡ false
claim_compaction-IsExclusive_example =
    claim_compaction-IsExclusive "job" "w" "w2" 120 300 spent spent "token" "other" (at_time 2000)
      (at_time 121000) tables leased claimed
      (claims "job" "w2" 300 spent "other" (at_time 60000)
        ∷ retries "job" "failed" "guess" spent (at_time 61000)
        ∷ [])
      was_claimed ((omega arith, tt), ((omega arith, wrong_token), tt)) (omega arith)

abbrev receipt : Injection
receipt = record {
  injection_id = "i";
  thread_id = "th";
  exchange_id = "x";
  packet_hash = "0123456789abcdef0123456789abcdef0123456789abcdef0123456789abcdef";
  policy_revision = "1";
  model_ref = "m";
  state = resolved;
  version = 1;
  updated_at = 1000;
}

abbrev submission : InjectionInput
submission = record {
  thread_id = "th";
  exchange_id = "x";
  injection_id = "i";
  packet_hash = receipt.packet_hash;
  policy_revision = "1";
  model_ref = "m";
  state = submitted;
}

abbrev with_receipt : ThreadTables
with_receipt = record tables { injections = receipt ∷ [] }

was_submitted :
    after_thread_call (records submission spent (at_time 2000)) with_receipt
    ≡ (record with_receipt {
      injections = record receipt { state = submitted; version = 2; updated_at = 2000 } ∷ [];
      nonces = record { tenant_id = some "t"; nonce = "n"; expires_at = 61000 } ∷ [];
    })
unfolding after_thread_call record_injection write_injection move_injection may_follow is_hex_text
    consume_grant_nonce nonce_text plausible_expiry insert_nonce purge is_used text_length find any
    dec_text
was_submitted = refl

after_thread_calls-MovesForward_example :
    MovesForward
      (receipt ∷ [])
      (after_thread_calls
        (records submission spent (at_time 2000)
          ∷ leases (claims "job" "w" 120 spent "token" (at_time 3000))
          ∷ records (record submission { state = completed }) spent (at_time 4000)
          ∷ [])
        with_receipt).injections
after_thread_calls-MovesForward_example =
    after_thread_calls-MovesForward
      (records submission spent (at_time 2000)
        ∷ leases (claims "job" "w" 120 spent "token" (at_time 3000))
        ∷ records (record submission { state = completed }) spent (at_time 4000)
        ∷ [])
      with_receipt

-- The receipt is left RESOLVED, and a day later its session cannot be summarised.
stuck : any (is_refused "s" with_receipt.messages) with_receipt.injections ≡ true
unfolding any dec_text
stuck = refl

job_there : find (has_job_id "job") with_receipt.jobs ≡ some job
unfolding find dec_text
job_there = refl

claim_compaction_blocked_example :
    is_ok (claim_compaction "job" "w" 120 spent "token" (at_time 86400000) with_receipt) ≡ false
claim_compaction_blocked_example =
    claim_compaction_blocked "job" "w" 120 spent "token" (at_time 86400000) with_receipt job
      job_there stuck
