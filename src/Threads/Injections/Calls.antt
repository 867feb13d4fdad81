-- ===== src/Threads/Injections/Calls.antt =====
-- What any sequence of calls makes of the receipts.
use memory_and_soul_passport.Prelude.{
  ℕ, String, ◌≡◌, sym, ap, subst, inl, inr, not, ◌&&◌, ◌||◌, some, List, [], ◌∷◌, ltb, nat_eq, ◌==◌,
  holds, find, any, Bool-cases, Option-cases,
}
use memory_and_soul_passport.Errors.{Result, ok, err, >>=-eq-ok, guard-eq-ok, Result-cases}
use memory_and_soul_passport.Entities.Upsert.Outcome.{ok-injective}
use memory_and_soul_passport.Nonces.{consume_grant_nonce}
use memory_and_soul_passport.Threads.{Job, Injection, resolved, ThreadTables}
use memory_and_soul_passport.Threads.Compaction.{
  expire_invocations, Clock, Spent, Claimed, claims, retries, after_lease_call, has_job_id,
  is_terminal, is_running, is_later, is_replying, is_awaiting, claim_job, claim_compaction,
  retry_compaction,
}
use memory_and_soul_passport.Threads.Injections.{
  InjectionInput, has_injection_id, has_thread_id, may_follow, same_state, is_same_injection,
  new_injection, is_open_for, session_of, start_injection, move_injection, write_injection,
  record_injection, is_packet_hash, of_exchange, ThreadCall, leases, records, after_thread_call,
  after_thread_calls,
}
use memory_and_soul_passport.Threads.Injections.Forward.{
  MovesForward, MovesForward-refl, MovesForward-trans, expire_invocations-MovesForward,
  append-MovesForward, advance-MovesForward,
}

start_injection-MovesForward :
    (i : InjectionInput) (now : ℕ) (t : ThreadTables) (rs : List Injection) (v : ℕ)
    → start_injection i now t ≡ ok (rs, v)
    → MovesForward t.injections rs
unfolding start_injection
start_injection-MovesForward i now t rs v h =
    let (_, h₁) = guard-eq-ok (same_state i.state resolved) _ _ h in
    let (s, _, h₂) = >>=-eq-ok (session_of i.thread_id i.exchange_id t) _ h₁ in
    let (_, h₃) = guard-eq-ok (is_open_for s t.jobs) _ _ h₂ in
    let (a, _) = ok-injective h₃ in
    subst (MovesForward t.injections) a (append-MovesForward t.injections (new_injection i now))

move_injection-MovesForward :
    (i : InjectionInput) (now : ℕ) (old : Injection) (t : ThreadTables) (rs : List Injection)
    (v : ℕ)
    → find (has_injection_id i.injection_id) t.injections ≡ some old
    → move_injection i now old t ≡ ok (rs, v)
    → MovesForward t.injections rs
unfolding move_injection
move_injection-MovesForward i now old t rs v found h = elim (Bool-cases (is_same_injection i old)) [
  | inr other ↦ let k = rw other at h in absurd cc
  | inl mine ↦ elim (Bool-cases (same_state old.state i.state)) [
    | inl same ↦
        let (a, _) = ok-injective (rw (mine, same) at h) in
        subst (MovesForward t.injections) a (MovesForward-refl t.injections)
    | inr moved ↦ elim (Bool-cases (may_follow old.state i.state)) [
      | inl allowed ↦
          let (a, _) = ok-injective (rw (mine, moved, allowed) at h) in
          subst (MovesForward t.injections) a
            (advance-MovesForward i now old t.injections found allowed)
      | inr refused ↦ let k = rw (mine, moved, refused) at h in absurd cc
    ]
  ]
]

write_injection-MovesForward :
    (i : InjectionInput) (now : ℕ) (t : ThreadTables) (rs : List Injection) (v : ℕ)
    → write_injection i now t ≡ ok (rs, v)
    → MovesForward t.injections rs
unfolding write_injection
write_injection-MovesForward i now t rs v h =
    elim (Option-cases (find (has_injection_id i.injection_id) t.injections)) [
      | inl absent ↦ start_injection-MovesForward i now t rs v (rw (write_injection, absent) at h)
      | inr (old, found) ↦
          move_injection-MovesForward i now old t rs v found (rw (write_injection, found) at h)
    ]

record_injection-MovesForward :
    (i : InjectionInput) (spent : Spent) (clock : Clock) (t t' : ThreadTables) (v : ℕ)
    → record_injection i spent clock t ≡ ok (t', v)
    → MovesForward t.injections t'.injections
unfolding record_injection
record_injection-MovesForward i spent clock t t' v h =
    elim (Option-cases (find (has_thread_id i.thread_id) t.threads)) [
      | inl absent ↦ let k = rw (record_injection, absent) at h in absurd cc
      | inr (thread, found) ↦
          let (_, h₁) =
            guard-eq-ok (not thread.is_revoked) _ _ (rw (record_injection, found) at h) in
          let (_, h₂) = guard-eq-ok (is_packet_hash i.packet_hash) _ _ h₁ in
          let (_, h₃) =
            guard-eq-ok (any (of_exchange i.thread_id i.exchange_id) t.messages) _ _ h₂ in
          let (rows, _, h₄) =
            >>=-eq-ok
              (consume_grant_nonce (some thread.tenant_id) spent.nonce spent.expires_at
                clock.checked_at clock.purged_at t.nonces)
              _ h₃ in
          let ((rs, w), wrote, h₅) = >>=-eq-ok (write_injection i clock.now t) _ h₄ in
          let (a, _) = ok-injective h₅ in
          subst (λ x. MovesForward t.injections x.injections) a
            (write_injection-MovesForward i clock.now t rs w wrote)
    ]

claim_job-MovesForward :
    (job : Job) (worker : String) (seconds : ℕ) (spent : Spent) (token : String) (clock : Clock)
    (t t' : ThreadTables) (c : Claimed)
    → claim_job job worker seconds spent token clock t ≡ ok (t', c)
    → MovesForward t.injections t'.injections
unfolding claim_job
claim_job-MovesForward job worker seconds spent token clock t t' c h =
    let (_, h₁) = guard-eq-ok (not (is_terminal job.status)) _ _ h in
    let (rows, _, h₂) = >>=-eq-ok (consume_grant_nonce _ _ _ _ _ _) _ h₁ in
    let (_, h₃) =
      guard-eq-ok (not (is_running job.status && is_later job.leased_until clock.now)) _ _ h₂ in
    let (_, h₄) = guard-eq-ok (not (is_replying job t clock.now)) _ _ h₃ in
    let (expired, ran, h₅) =
      >>=-eq-ok (expire_invocations job.session_id t.messages clock.now t.injections) _ h₄ in
    let (_, h₆) = guard-eq-ok (not (is_awaiting job t clock.now)) _ _ h₅ in
    let (a, _) = ok-injective h₆ in
    subst (λ x. MovesForward t.injections x.injections) a
      (expire_invocations-MovesForward job.session_id t.messages clock.now t.injections expired ran)

claim_compaction-MovesForward :
    (id worker : String) (seconds : ℕ) (spent : Spent) (token : String) (clock : Clock)
    (t t' : ThreadTables) (c : Claimed)
    → claim_compaction id worker seconds spent token clock t ≡ ok (t', c)
    → MovesForward t.injections t'.injections
unfolding claim_compaction
claim_compaction-MovesForward id worker seconds spent token clock t t' c h =
    elim (Bool-cases (nat_eq seconds 0 || ltb 300 seconds)) [
      | inl bad ↦ let k = rw bad at h in absurd cc
      | inr good ↦ elim (Option-cases (find (has_job_id id) t.jobs)) [
        | inl absent ↦ let k = rw (good, absent) at h in absurd cc
        | inr (job, found) ↦
            claim_job-MovesForward job worker seconds spent token clock t t' c
              (rw (good, found) at h)
      ]
    ]

retry_compaction-MovesForward :
    (id message token : String) (spent : Spent) (clock : Clock) (t t' : ThreadTables)
    → retry_compaction id message token spent clock t ≡ ok t'
    → MovesForward t.injections t'.injections
unfolding retry_compaction
retry_compaction-MovesForward id message token spent clock t t' h =
    elim (Bool-cases (token == "")) [
      | inl blank ↦ let k = rw blank at h in absurd cc
      | inr given ↦ elim (Option-cases (find (has_job_id id) t.jobs)) [
        | inl absent ↦ let k = rw (given, absent) at h in absurd cc
        | inr (job, found) ↦
            let (rows, _, k) =
              >>=-eq-ok
                (consume_grant_nonce (some job.tenant_id) spent.nonce spent.expires_at
                  clock.checked_at clock.purged_at t.nonces)
                _ (rw (given, found) at h) in
            let (_, k₁) =
              guard-eq-ok
                (is_running job.status
                  && holds job.lease_token token
                  && is_later job.leased_until clock.now)
                _ _ k in
            let same : t'.injections ≡ t.injections =
              ap (λ r. injections_of t.injections r) (sym k₁) in
            subst (MovesForward t.injections) (sym same) (MovesForward-refl t.injections)
      ]
    ]
  where
    injections_of : List Injection → Result ThreadTables → List Injection
    injections_of js (ok x) = x.injections
    injections_of js (err e) = js

after_thread_call-MovesForward :
    (c : ThreadCall) (t : ThreadTables)
    → MovesForward t.injections (after_thread_call c t).injections
unfolding after_thread_call after_lease_call
after_thread_call-MovesForward (leases (claims id worker seconds spent token clock)) t =
    elim (Result-cases (claim_compaction id worker seconds spent token clock t)) [
      | inl (e, h) ↦ rw (after_thread_call, after_lease_call, h) (MovesForward-refl t.injections)
      | inr ((t', c), h) ↦
          rw (after_thread_call, after_lease_call, h)
            (claim_compaction-MovesForward id worker seconds spent token clock t t' c h)
    ]
after_thread_call-MovesForward (leases (retries id message token spent clock)) t =
    elim (Result-cases (retry_compaction id message token spent clock t)) [
      | inl (e, h) ↦ rw (after_thread_call, after_lease_call, h) (MovesForward-refl t.injections)
      | inr (t', h) ↦
          rw (after_thread_call, after_lease_call, h)
            (retry_compaction-MovesForward id message token spent clock t t' h)
    ]
after_thread_call-MovesForward (records i spent clock) t =
    elim (Result-cases (record_injection i spent clock t)) [
      | inl (e, h) ↦ rw (after_thread_call, h) (MovesForward-refl t.injections)
      | inr ((t', v), h) ↦
          rw (after_thread_call, h) (record_injection-MovesForward i spent clock t t' v h)
    ]

-- Over any sequence of calls that record receipts, claim jobs and retry them, a receipt that is in the
-- table stays in it: for the same thread, exchange, packet, policy and model, with no lower version and
-- no earlier state; one that is neither RESOLVED nor SUBMITTED is not changed at all.
pub after_thread_calls-MovesForward :
    (cs : List ThreadCall) (t : ThreadTables)
    → MovesForward t.injections (after_thread_calls cs t).injections
unfolding after_thread_calls
after_thread_calls-MovesForward [] t = MovesForward-refl t.injections
after_thread_calls-MovesForward (c ∷ cs) t =
    MovesForward-trans t.injections (after_thread_call c t).injections
      (after_thread_calls cs (after_thread_call c t)).injections
      (after_thread_call-MovesForward c t)
      (after_thread_calls-MovesForward cs (after_thread_call c t))
