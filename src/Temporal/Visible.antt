-- ===== src/Temporal/Visible.antt =====
-- When a version is visible, and how versions follow one another.
use memory_and_soul_passport.Prelude.{
  ℕ, ◌≤◌, ◌<◌, ◌≡◌, refl, ◌↔◌, ◌≢◌, ◌⊎◌, Bool, true, false, none, List, [], ◌++◌, arith,
}
use memory_and_soul_passport.Temporal.{
  Stamp, missing, blank, invalid, at, parse, TemporalItem, is_temporal_visible, not_after,
  strictly_before, OrderError, is_bad, is_after, report, compare_temporal_order,
}

-- At or before the bound, where there is one that Date.parse reads.
abbrev pub Until : ℕ → Stamp → Type 0
Until v (at t) = v ≤ t
Until v _ = Unit

abbrev pub Before : ℕ → Stamp → Type 0
Before v (at t) = v < t
Before v _ = Unit

Until-iff : (v : ℕ) (s : Stamp) → (not_after v (parse s) ≡ true) ↔ Until v s
Until-iff v missing = ground arith
Until-iff v blank = ground arith
Until-iff v invalid = ground arith
Until-iff v (at t) = ground arith

Before-iff : (v : ℕ) (s : Stamp) → (strictly_before v (parse s) ≡ true) ↔ Before v s
Before-iff v missing = ground arith
Before-iff v blank = ground arith
Before-iff v invalid = ground arith
Before-iff v (at t) = ground arith

-- An item whose two starts are given and readable is visible, at a valid time and a recorded time
-- that are given, exactly when both lie in its two intervals: the valid one is closed, the
-- recorded one open at its end, and an end that is not readable bounds nothing.
pub is_temporal_visible_iff :
    (item : TemporalItem) (v r from since now₁ now₂ : ℕ)
    → item.valid_from ≡ at from
    → item.recorded_at ≡ at since
    → (is_temporal_visible item (at v) (at r) now₁ now₂ ≡ true)
      ↔ ((from ≤ v) × Until v item.valid_to × (since ≤ r) × Before r item.superseded_at)
unfolding is_temporal_visible
is_temporal_visible_iff item v r from since now₁ now₂ e d =
    rw (e, d)
      (
        λ h. (
          ground arith,
          (Until-iff v item.valid_to).0 (ground arith),
          ground arith,
          (Before-iff r item.superseded_at).0 (ground arith),
        ),
        λ (lo, hi, lo', hi').
            ground
              (arith, (Until-iff v item.valid_to).1 hi, (Before-iff r item.superseded_at).1 hi'),
      )

-- An item with a start of either kind that is set and cannot be read is never visible.
pub not-visible_of_unreadable :
    (item : TemporalItem) (v r : Stamp) (now₁ now₂ : ℕ)
    → (parse item.valid_from ≡ none) × (item.valid_from ≢ missing)
      ⊎ (parse item.recorded_at ≡ none) × (item.recorded_at ≢ missing)
    → is_temporal_visible item v r now₁ now₂ ≡ false
unfolding is_temporal_visible
not-visible_of_unreadable item v r now₁ now₂ h = ground arith

abbrev pub IsReadable : Stamp → Type 0
IsReadable s = s ≢ invalid

abbrev pub InOrder : Stamp → Stamp → Type 0
InOrder (at a) (at b) = a ≤ b
InOrder _ _ = Unit {0}

report-nil :
    (b : Bool) (e : OrderError) (rest : List OrderError)
    → (report b e ++ rest ≡ []) ↔ ((b ≡ false) × (rest ≡ []))
report-nil true e rest = (λ h. cc, λ (h, _). cc)
report-nil false e rest = (λ h. (refl, h), λ (_, h). h)

last-nil : (b : Bool) (e : OrderError) → (report b e ≡ []) ↔ (b ≡ false)
last-nil true e = (λ h. cc, λ h. cc)
last-nil false e = (λ h. refl, λ h. refl)

IsReadable-iff : (s : Stamp) → (is_bad s ≡ false) ↔ IsReadable s
IsReadable-iff missing = (λ h. λ e. cc, λ h. refl)
IsReadable-iff blank = (λ h. λ e. cc, λ h. refl)
IsReadable-iff (at t) = (λ h. λ e. cc, λ h. refl)
IsReadable-iff invalid = (λ h. cc, λ h. absurd (h refl))

InOrder-iff : (a b : Stamp) → (is_after a b ≡ false) ↔ InOrder a b
InOrder-iff (at s) (at t) = ground arith
InOrder-iff (at s) missing = (λ h. tt, λ h. refl)
InOrder-iff (at s) blank = (λ h. tt, λ h. refl)
InOrder-iff (at s) invalid = (λ h. tt, λ h. refl)
InOrder-iff _ b = (λ h. tt, λ h. refl)

-- No error is reported exactly for an item that has no unreadable field and whose two intervals
-- end no earlier than they start.
pub compare_temporal_order_iff :
    (item : TemporalItem)
    → (compare_temporal_order item ≡ []) ↔ (
        IsReadable item.valid_from
        × IsReadable item.valid_to
        × IsReadable item.recorded_at
        × IsReadable item.superseded_at
        × InOrder item.valid_from item.valid_to
        × InOrder item.recorded_at item.superseded_at)
unfolding compare_temporal_order
compare_temporal_order_iff item = (
  λ h.
      let (a, h₁) = (report-nil (is_bad item.valid_from) _ _).0 h in
      let (b, h₂) = (report-nil (is_bad item.valid_to) _ _).0 h₁ in
      let (c, h₃) = (report-nil (is_bad item.recorded_at) _ _).0 h₂ in
      let (d, h₄) = (report-nil (is_bad item.superseded_at) _ _).0 h₃ in
      let (e, h₅) = (report-nil (is_after item.valid_from item.valid_to) _ _).0 h₄ in
      let f = (last-nil (is_after item.recorded_at item.superseded_at) _).0 h₅ in
      (
        (IsReadable-iff _).0 a,
        (IsReadable-iff _).0 b,
        (IsReadable-iff _).0 c,
        (IsReadable-iff _).0 d,
        (InOrder-iff _ _).0 e,
        (InOrder-iff _ _).0 f,
      ),
  λ (a, b, c, d, e, f). ground (
    arith,
    (IsReadable-iff item.valid_from).1 a,
    (IsReadable-iff item.valid_to).1 b,
    (IsReadable-iff item.recorded_at).1 c,
    (IsReadable-iff item.superseded_at).1 d,
    (InOrder-iff item.valid_from item.valid_to).1 e,
    (InOrder-iff item.recorded_at item.superseded_at).1 f,
  ),
)
