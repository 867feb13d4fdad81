-- ===== src/Threads/Compaction/Blocked.antt =====
-- What a receipt that stays RESOLVED does to the job of its session.
use memory_and_soul_passport.Prelude.{
  ℕ, String, ◌≡◌, refl, inl, inr, true, false, not, ◌&&◌, ◌||◌, some, List, ltb, nat_eq, find, any,
  Bool-cases,
}
use memory_and_soul_passport.Errors.{
  ok, err, sqlite_trigger, >>=-eq-ok, guard-eq-ok, Result-cases, is_ok,
}
use memory_and_soul_passport.Nonces.{consume_grant_nonce}
use memory_and_soul_passport.Threads.{Job, Message, Injection, ThreadTables}
use memory_and_soul_passport.Threads.Compaction.{
  Clock, Spent, Claimed, has_job_id, is_terminal, is_running, is_later, is_replying, is_refused,
  expire_invocations, claim_job, claim_compaction,
}

expire_invocations_refused :
    (session : String) (messages : List Message) (now : ℕ) (rs : List Injection)
    → any (is_refused session messages) rs ≡ true
    → expire_invocations session messages now rs ≡ err sqlite_trigger
unfolding expire_invocations
expire_invocations_refused session messages now rs h = rw h refl

claim_job_refused :
    (job : Job) (worker : String) (seconds : ℕ) (spent : Spent) (token : String) (clock : Clock)
    (t t' : ThreadTables) (c : Claimed)
    → any (is_refused job.session_id t.messages) t.injections ≡ true
    → claim_job job worker seconds spent token clock t ≡ ok (t', c)
    → ⊥
unfolding claim_job
claim_job_refused job worker seconds spent token clock t t' c stuck h =
    let (_, h₁) = guard-eq-ok (not (is_terminal job.status)) _ _ h in
    let (rows, _, h₂) = >>=-eq-ok (consume_grant_nonce _ _ _ _ _ _) _ h₁ in
    let (_, h₃) =
      guard-eq-ok (not (is_running job.status && is_later job.leased_until clock.now)) _ _ h₂ in
    let (_, h₄) = guard-eq-ok (not (is_replying job t clock.now)) _ _ h₃ in
    let (expired, ran, _) =
      >>=-eq-ok (expire_invocations job.session_id t.messages clock.now t.injections) _ h₄ in
    let refused =
      expire_invocations_refused job.session_id t.messages clock.now t.injections stuck in
    cc

-- While a receipt of a message of the job's session and thread is RESOLVED, no claim of the job
-- succeeds: at any time, however old the receipt is, by any worker and with any grant.
pub claim_compaction_blocked :
    (id worker : String) (seconds : ℕ) (spent : Spent) (token : String) (clock : Clock)
    (t : ThreadTables) (job : Job)
    → find (has_job_id id) t.jobs ≡ some job
    → any (is_refused job.session_id t.messages) t.injections ≡ true
    → is_ok (claim_compaction id worker seconds spent token clock t) ≡ false
unfolding claim_compaction
claim_compaction_blocked id worker seconds spent token clock t job found stuck =
    elim (Bool-cases (nat_eq seconds 0 || ltb 300 seconds)) [
      | inl bad ↦ rw bad refl
      | inr good ↦ elim (Result-cases (claim_job job worker seconds spent token clock t)) [
        | inl (e, h) ↦ rw (good, found, h) refl
        | inr ((t', c), h) ↦
            absurd (claim_job_refused job worker seconds spent token clock t t' c stuck h)
      ]
    ]
