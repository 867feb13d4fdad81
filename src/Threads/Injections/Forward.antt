-- ===== src/Threads/Injections/Forward.antt =====
-- The receipts of model requests move forward only.
use memory_and_soul_passport.Prelude.{
  ℕ, ◌+◌, ◌≤◌, ◌<◌, String, ◌≡◌, refl, sym, ap, subst, ◌∙◌, inl, inr, Bool, true, some, List, [],
  ◌∷◌, ◌++◌, arith, find, find-append, find-IsSelected, any, map, Bool-cases,
}
use memory_and_soul_passport.Errors.{Result, ok}
use memory_and_soul_passport.Threads.{Message, InjectionState, resolved, submitted, Injection}
use memory_and_soul_passport.Threads.Compaction.{
  is_live, is_invocation, is_refused, expire, expire_invocations,
}
use memory_and_soul_passport.Threads.Injections.{
  InjectionInput, has_injection_id, advance, may_follow,
}

abbrev stage : InjectionState → ℕ
stage resolved = 0
stage submitted = 1
stage _ = 2

-- What may become of a receipt.
pub record IsForward (r s : Injection) : Type 0 where
  pub same_thread : s.thread_id ≡ r.thread_id
  pub same_exchange : s.exchange_id ≡ r.exchange_id
  pub same_packet : s.packet_hash ≡ r.packet_hash
  pub same_policy : s.policy_revision ≡ r.policy_revision
  pub same_model : s.model_ref ≡ r.model_ref
  pub stages : stage r.state ≤ stage s.state
  pub versions : r.version ≤ s.version
  pub final : 1 < stage r.state → s ≡ r

IsForward-refl : (r : Injection) → IsForward r r
IsForward-refl r = record {
  same_thread = refl;
  same_exchange = refl;
  same_packet = refl;
  same_policy = refl;
  same_model = refl;
  stages = omega arith;
  versions = omega arith;
  final = λ h. refl;
}

IsForward-trans : (a b c : Injection) → IsForward a b → IsForward b c → IsForward a c
IsForward-trans a b c k l = record {
  same_thread = l.same_thread ∙ k.same_thread;
  same_exchange = l.same_exchange ∙ k.same_exchange;
  same_packet = l.same_packet ∙ k.same_packet;
  same_policy = l.same_policy ∙ k.same_policy;
  same_model = l.same_model ∙ k.same_model;
  stages = let x = k.stages in let y = l.stages in omega (arith, x, y);
  versions = let x = k.versions in let y = l.versions in omega (arith, x, y);
  final = λ h. let same = k.final h in l.final (rw same h) ∙ same;
}

find-map :
    (p : Injection → Bool) (f : Injection → Injection)
    → ((r : Injection) → p (f r) ≡ p r)
    → (rs : List Injection) (r : Injection) → find p rs ≡ some r
    → find p (map f rs) ≡ some (f r)
unfolding find
find-map p f keeps [] r h = cc
find-map p f keeps (x ∷ rs) r h =
    let k = keeps x in
    elim (Bool-cases (p x)) [
      | inl here ↦ let same : x ≡ r = ground arith in rw (k, here) (ap (λ y. some (f y)) same)
      | inr other ↦ rw (k, other) (find-map p f keeps rs r (ground arith))
    ]

may_follow-IsForward :
    (r : Injection) (s : InjectionState) (now : ℕ)
    → may_follow r.state s ≡ true
    → IsForward r (record r { state = s; version = r.version + 1; updated_at = now })
unfolding may_follow
may_follow-IsForward r s now h = record {
  same_thread = refl;
  same_exchange = refl;
  same_packet = refl;
  same_policy = refl;
  same_model = refl;
  stages = ground arith;
  versions = omega arith;
  final = λ k. absurd (ground arith);
}

expire-IsForward :
    (session : String) (ms : List Message) (now : ℕ) (r : Injection)
    → IsForward r (expire session ms now r)
expire-IsForward session ms now r = elim (Bool-cases (is_invocation session ms r)) [
  | inr kept ↦ rw kept (IsForward-refl r)
  | inl live ↦
      let moves : is_live r.state ≡ true = ground arith in
      rw live (record {
        same_thread = refl;
        same_exchange = refl;
        same_packet = refl;
        same_policy = refl;
        same_model = refl;
        stages = ground arith;
        versions = omega arith;
        final = λ k. absurd (ground arith);
      })
]

-- Every receipt of the first table is in the second, and has moved forward.
abbrev pub MovesForward : List Injection → List Injection → Type 0
MovesForward rs ss =
    (id : String) (r : Injection)
    → find (has_injection_id id) rs ≡ some r
    → (s : Injection) × (find (has_injection_id id) ss ≡ some s) × IsForward r s

pub MovesForward-refl : (rs : List Injection) → MovesForward rs rs
MovesForward-refl rs id r h = (r, h, IsForward-refl r)

pub MovesForward-trans :
    (a b c : List Injection) → MovesForward a b → MovesForward b c → MovesForward a c
MovesForward-trans a b c k l id r h =
    let (s, found, f) = k id r h in
    let (u, found', g) = l id s found in (u, found', IsForward-trans r s u f g)

expire-MovesForward :
    (session : String) (ms : List Message) (now : ℕ) (rs : List Injection)
    → MovesForward rs (map (expire session ms now) rs)
expire-MovesForward session ms now rs id r h = (
  expire session ms now r,
  find-map (has_injection_id id) (expire session ms now) (λ x. keeps_id x) rs r h,
  expire-IsForward session ms now r,
)
  where
    keeps_id :
        (x : Injection) → has_injection_id id (expire session ms now x) ≡ has_injection_id id x
    keeps_id x = elim (Bool-cases (is_invocation session ms x)) [
      | inl live ↦ rw live refl
      | inr kept ↦ rw kept refl
    ]

pub expire_invocations-MovesForward :
    (session : String) (ms : List Message) (now : ℕ) (rs ss : List Injection)
    → expire_invocations session ms now rs ≡ ok ss
    → MovesForward rs ss
unfolding expire_invocations
expire_invocations-MovesForward session ms now rs ss h =
    elim (Bool-cases (any (is_refused session ms) rs)) [
      | inl bad ↦ let k = rw bad at h in absurd cc
      | inr good ↦
          let k : ◌≡◌ {A = Result (List Injection)} (ok (map (expire session ms now) rs)) (ok ss) =
            rw good at h in
          let is : map (expire session ms now) rs ≡ ss = cc in
          subst (MovesForward rs) is (expire-MovesForward session ms now rs)
    ]

pub append-MovesForward : (rs : List Injection) (x : Injection) → MovesForward rs (rs ++ x ∷ [])
append-MovesForward rs x id r h =
    (r, rw (find-append (has_injection_id id) rs (x ∷ []), h) refl, IsForward-refl r)

pub advance-MovesForward :
    (i : InjectionInput) (now : ℕ) (old : Injection) (rs : List Injection)
    → find (has_injection_id i.injection_id) rs ≡ some old
    → may_follow old.state i.state ≡ true
    → MovesForward rs (map (advance i.injection_id i.state now) rs)
advance-MovesForward i now old rs found allowed id r h = (
  advance i.injection_id i.state now r,
  find-map (has_injection_id id) (advance i.injection_id i.state now) keeps_id rs r h,
  elim (Bool-cases (has_injection_id i.injection_id r)) [
    | inr other ↦ rw other (IsForward-refl r)
    | inl here ↦
        let mine = find-IsSelected (has_injection_id id) rs h in
        let same_id : i.injection_id ≡ id = ground arith in
        let same : some old ≡ some r =
          sym found ∙ ap (λ x. find (has_injection_id x) rs) same_id ∙ h in
        let one : old ≡ r = cc in rw here (may_follow-IsForward r i.state now (rw one at allowed))
  ],
)
  where
    keeps_id :
        (x : Injection)
        → has_injection_id id (advance i.injection_id i.state now x) ≡ has_injection_id id x
    keeps_id x = elim (Bool-cases (has_injection_id i.injection_id x)) [
      | inl here ↦ rw here refl
      | inr other ↦ rw other refl
    ]
