-- ===== src/Threads/Compaction/Leases.antt =====
-- A lease is exclusive: while it runs, no other worker claims the job.
use memory_and_soul_passport.Prelude.{
  ℕ, ◌+◌, ◌*◌, ◌<◌, String, ◌≡◌, refl, sym, ap, subst, ◌∙◌, ◌≢◌, inl, inr, true, false, not, ◌&&◌,
  some, List, [], ◌∷◌, ltb, arith, nat_eq, ◌||◌, ◌==◌, holds, find, find-IsSelected, All,
  Bool-cases, Option-cases,
}
use memory_and_soul_passport.Errors.{Result, ok, err, >>=-eq-ok, guard-eq-ok, Result-cases, is_ok}
use memory_and_soul_passport.Entities.Upsert.Outcome.{ok-injective}
use memory_and_soul_passport.Nonces.{consume_grant_nonce}
use memory_and_soul_passport.Threads.{Job, running, ThreadTables}
use memory_and_soul_passport.Threads.Compaction.{
  Clock, Spent, Claimed, has_job_id, is_terminal, is_running, is_later, is_replying, is_awaiting,
  expire_invocations, lease, retry, update_job, claim_job, claim_compaction, retry_compaction,
  LeaseCall, claims, retries, clock_of, after_lease_call, after_lease_calls,
}

module _ (f : Job → Job) (keeps : (j : Job) → (f j).job_id ≡ j.job_id) where
  find-update_job_other :
      (id other : String) (js : List Job)
      → id ≢ other
      → find (has_job_id id) (update_job other f js) ≡ find (has_job_id id) js
  unfolding find update_job
  find-update_job_other id other [] n = refl
  find-update_job_other id other (j ∷ js) n =
      let same = keeps j in ground (arith, find-update_job_other id other js n)

  find-update_job :
      (id : String) (js : List Job) (j : Job)
      → find (has_job_id id) js ≡ some j
      → find (has_job_id id) (update_job id f js) ≡ some (f j)
  unfolding find update_job
  find-update_job id [] j h = cc
  find-update_job id (x ∷ js) j h = elim (Bool-cases (has_job_id id x)) [
    | inl here ↦
        let same : x ≡ j = ground arith in
        let kept = keeps x in
        let there : has_job_id id (f x) ≡ true = ground arith in
        rw (here, there) (ap (λ y. some (f y)) same)
    | inr other ↦ rw (other, other) (find-update_job id js j (ground arith))
  ]

-- A job is leased under this token until then.
pub record IsLeased (id token : String) (until : ℕ) (t : ThreadTables) : Type 0 where
  pub job : Job
  pub there : find (has_job_id id) t.jobs ≡ some job
  pub is_running : job.status ≡ running
  pub has_token : job.lease_token ≡ some token
  pub has_end : job.leased_until ≡ some until

claim_job_sound :
    (job : Job) (worker : String) (seconds : ℕ) (spent : Spent) (token : String) (clock : Clock)
    (t t' : ThreadTables) (c : Claimed)
    → claim_job job worker seconds spent token clock t ≡ ok (t', c)
    → ((is_running job.status && is_later job.leased_until clock.now) ≡ false)
      × (t'.jobs
          ≡ update_job job.job_id
              (lease token worker (clock.now + seconds * 1000) clock.now)
              t.jobs)
      × (c.lease_token ≡ token)
      × (c.leased_until ≡ clock.now + seconds * 1000)
unfolding claim_job
claim_job_sound job worker seconds spent token clock t t' c h =
    let (_, h₁) = guard-eq-ok (not (is_terminal job.status)) _ _ h in
    let (rows, _, h₂) = >>=-eq-ok (consume_grant_nonce _ _ _ _ _ _) _ h₁ in
    let (free, h₃) =
      guard-eq-ok (not (is_running job.status && is_later job.leased_until clock.now)) _ _ h₂ in
    let (_, h₄) = guard-eq-ok (not (is_replying job t clock.now)) _ _ h₃ in
    let (expired, _, h₅) =
      >>=-eq-ok (expire_invocations job.session_id t.messages clock.now t.injections) _ h₄ in
    let (_, h₆) = guard-eq-ok (not (is_awaiting job t clock.now)) _ _ h₅ in
    let (a, b) = ok-injective h₆ in
    (
      ground arith,
      ap (λ x. x.jobs) (sym a),
      ap (λ x. x.lease_token) (sym b),
      ap (λ x. x.leased_until) (sym b),
    )

module _ (id token : String) (until : ℕ) where
  -- A live lease is in the way of every claim.
  claim_refused :
      (worker : String) (seconds : ℕ) (spent : Spent) (fresh : String) (clock : Clock)
      (t t' : ThreadTables) (c : Claimed)
      → IsLeased id token until t
      → clock.now < until
      → claim_compaction id worker seconds spent fresh clock t ≡ ok (t', c)
      → ⊥
  unfolding claim_compaction
  claim_refused worker seconds spent fresh clock t t' c l early h =
      elim (Bool-cases (nat_eq seconds 0 || ltb 300 seconds)) [
        | inl bad ↦ let k = rw bad at h in cc
        | inr good ↦
            let there = l.there in
            let k : claim_job l.job worker seconds spent fresh clock t ≡ ok (t', c) =
              rw (good, there) at h in
            let (free, _, _, _) = claim_job_sound l.job worker seconds spent fresh clock t t' c k in
            let busy : (is_running l.job.status && is_later l.job.leased_until clock.now) ≡ true =
              rw (l.is_running, l.has_end) (ground arith) in
            cc
      ]

  IsLeased-jobs :
      (t t' : ThreadTables)
      → find (has_job_id id) t'.jobs ≡ find (has_job_id id) t.jobs
      → IsLeased id token until t
      → IsLeased id token until t'
  IsLeased-jobs t t' same l = record {
    job = l.job;
    there = same ∙ l.there;
    is_running = l.is_running;
    has_token = l.has_token;
    has_end = l.has_end;
  }

  claim-IsLeased :
      (other worker : String) (seconds : ℕ) (spent : Spent) (fresh : String) (clock : Clock)
      (t t' : ThreadTables) (c : Claimed)
      → IsLeased id token until t
      → clock.now < until
      → claim_compaction other worker seconds spent fresh clock t ≡ ok (t', c)
      → IsLeased id token until t'
  unfolding claim_compaction
  claim-IsLeased other worker seconds spent fresh clock t t' c l early h =
      elim (Bool-cases (id == other)) [
        | inl same ↦
            let is : other ≡ id = ground arith in
            absurd (
              claim_refused worker seconds spent fresh clock t t' c l early (
                subst (λ x. claim_compaction x worker seconds spent fresh clock t ≡ ok (t', c)) is
                  h))
        | inr differs ↦ elim (Bool-cases (nat_eq seconds 0 || ltb 300 seconds)) [
          | inl bad ↦ let k = rw bad at h in absurd cc
          | inr good ↦ elim (Option-cases (find (has_job_id other) t.jobs)) [
            | inl absent ↦ let k = rw (good, absent) at h in absurd cc
            | inr (job, found) ↦
                let k : claim_job job worker seconds spent fresh clock t ≡ ok (t', c) =
                  rw (good, found) at h in
                let (_, jobs, _, _) =
                  claim_job_sound job worker seconds spent fresh clock t t' c k in
                let here = find-IsSelected (has_job_id other) t.jobs found in
                let apart : id ≢ job.job_id = ground arith in
                IsLeased-jobs t t'
                  (ap (find (has_job_id id)) jobs
                    ∙ find-update_job_other
                        (lease fresh worker (clock.now + seconds * 1000) clock.now) (λ j. refl) id
                        job.job_id t.jobs apart)
                  l
          ]
        ]
      ]

  -- A retry under another token leaves the lease.
  retry-IsLeased :
      (other message wrong : String) (spent : Spent) (clock : Clock) (t t' : ThreadTables)
      → IsLeased id token until t
      → wrong ≢ token
      → retry_compaction other message wrong spent clock t ≡ ok t'
      → IsLeased id token until t'
  unfolding retry_compaction
  retry-IsLeased other message wrong spent clock t t' l stranger h =
      elim (Bool-cases (wrong == "")) [
        | inl blank ↦ let k = rw blank at h in absurd cc
        | inr given ↦ elim (Option-cases (find (has_job_id other) t.jobs)) [
          | inl absent ↦ let k = rw (given, absent) at h in absurd cc
          | inr (job, found) ↦
              let (rows, _, k) =
                >>=-eq-ok
                  (consume_grant_nonce (some job.tenant_id) spent.nonce spent.expires_at
                    clock.checked_at clock.purged_at t.nonces)
                  _ (rw (given, found) at h) in
              let (held, k₁) =
                guard-eq-ok
                  (is_running job.status
                    && holds job.lease_token wrong
                    && is_later job.leased_until clock.now)
                  _ _ k in
              let jobs : t'.jobs ≡ update_job other (retry message clock.now) t.jobs =
                ap (λ r. jobs_of t.jobs r) (sym k₁) in
              elim (Bool-cases (id == other)) [
                | inl same ↦
                    let is : id ≡ other = ground arith in
                    let is_job : some job ≡ some l.job =
                      sym found ∙ ap (λ x. find (has_job_id x) t.jobs) (sym is) ∙ l.there in
                    let one : job ≡ l.job = cc in
                    let its_token : job.lease_token ≡ some token = rw one l.has_token in
                    let kept : holds job.lease_token wrong ≡ true = ground arith in
                    let held' : holds (some token) wrong ≡ true = rw its_token at kept in
                    absurd (ground arith)
                | inr differs ↦
                    IsLeased-jobs t t'
                      (ap (find (has_job_id id)) jobs
                        ∙ find-update_job_other (retry message clock.now) (λ j. refl) id other
                            t.jobs (ground arith))
                      l
              ]
        ]
      ]
    where
      jobs_of : List Job → Result ThreadTables → List Job
      jobs_of js (ok x) = x.jobs
      jobs_of js (err e) = js

  -- What the others do: they do not know the token.
  abbrev pub IsStranger : LeaseCall → Type 0
  IsStranger (claims other worker seconds spent fresh clock) = Unit
  IsStranger (retries other message wrong spent clock) = wrong ≢ token

  after_lease_call-IsLeased :
      (c : LeaseCall) (t : ThreadTables)
      → (clock_of c).now < until
      → IsStranger c
      → IsLeased id token until t
      → IsLeased id token until (after_lease_call c t)
  unfolding after_lease_call
  after_lease_call-IsLeased (claims other worker seconds spent fresh clock) t early s l =
      elim (Result-cases (claim_compaction other worker seconds spent fresh clock t)) [
        | inl (e, h) ↦ rw (after_lease_call, h) l
        | inr ((t', c), h) ↦
            rw (after_lease_call, h)
              (claim-IsLeased other worker seconds spent fresh clock t t' c l early h)
      ]
  after_lease_call-IsLeased (retries other message wrong spent clock) t early s l =
      elim (Result-cases (retry_compaction other message wrong spent clock t)) [
        | inl (e, h) ↦ rw (after_lease_call, h) l
        | inr (t', h) ↦
            rw (after_lease_call, h) (retry-IsLeased other message wrong spent clock t t' l s h)
      ]

  after_lease_calls-IsLeased :
      (cs : List LeaseCall) (t : ThreadTables)
      → All (λ c. ((clock_of c).now < until) × IsStranger c) cs
      → IsLeased id token until t
      → IsLeased id token until (after_lease_calls cs t)
  unfolding after_lease_calls
  after_lease_calls-IsLeased [] t a l = l
  after_lease_calls-IsLeased (c ∷ cs) t ((early, s), a) l =
      after_lease_calls-IsLeased cs (after_lease_call c t) a
        (after_lease_call-IsLeased c t early s l)

-- A claim that succeeds leases the job.
claim_compaction-IsLeased :
    (id worker : String) (seconds : ℕ) (spent : Spent) (token : String) (clock : Clock)
    (t t' : ThreadTables) (c : Claimed)
    → claim_compaction id worker seconds spent token clock t ≡ ok (t', c)
    → IsLeased id token (clock.now + seconds * 1000) t'
unfolding claim_compaction
claim_compaction-IsLeased id worker seconds spent token clock t t' c h =
    elim (Bool-cases (nat_eq seconds 0 || ltb 300 seconds)) [
      | inl bad ↦ let k = rw bad at h in absurd cc
      | inr good ↦ elim (Option-cases (find (has_job_id id) t.jobs)) [
        | inl absent ↦ let k = rw (good, absent) at h in absurd cc
        | inr (job, found) ↦
            let k : claim_job job worker seconds spent token clock t ≡ ok (t', c) =
              rw (good, found) at h in
            let (_, jobs, _, _) = claim_job_sound job worker seconds spent token clock t t' c k in
            let here = find-IsSelected (has_job_id id) t.jobs found in
            let is : job.job_id ≡ id = ground arith in
            let f = lease token worker (clock.now + seconds * 1000) clock.now in
            record {
              job = f job;
              there =
                  ap (find (has_job_id id)) (jobs ∙ ap (λ x. update_job x f t.jobs) is)
                  ∙ find-update_job f (λ j. refl) id t.jobs job found;
              is_running = refl;
              has_token = refl;
              has_end = refl;
            }
      ]
    ]

-- After a successful claim of a job, no claim of it succeeds before the lease has run out, by any
-- worker and with any grant: whatever claims and retries of any jobs came between, all before that
-- time too, as long as no retry presents the token of the lease.
pub claim_compaction-IsExclusive :
    (id worker worker' : String) (seconds seconds' : ℕ) (spent spent' : Spent)
    (token token' : String) (clock clock' : Clock) (t t' : ThreadTables) (c : Claimed)
    (cs : List LeaseCall)
    → claim_compaction id worker seconds spent token clock t ≡ ok (t', c)
    → All
        (λ x.
          ((clock_of x).now < clock.now + seconds * 1000)
          × IsStranger id token (clock.now + seconds * 1000) x)
        cs
    → clock'.now < clock.now + seconds * 1000
    → is_ok (claim_compaction id worker' seconds' spent' token' clock' (after_lease_calls cs t'))
      ≡ false
claim_compaction-IsExclusive id worker worker' seconds seconds' spent spent' token token' clock
      clock' t t' c cs h strangers early =
    let until = clock.now + seconds * 1000 in
    let leased =
      after_lease_calls-IsLeased id token until cs t' strangers
        (claim_compaction-IsLeased id worker seconds spent token clock t t' c h) in
    let t₂ = after_lease_calls cs t' in
    elim (Result-cases (claim_compaction id worker' seconds' spent' token' clock' t₂)) [
      | inl (e, refused) ↦ rw refused refl
      | inr ((t₃, d), again) ↦ absurd (
          claim_refused id token until worker' seconds' spent' token' clock' t₂ t₃ d leased early
            again)
    ]
