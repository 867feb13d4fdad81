-- ===== src/Entities/Decay/Ratchet.antt =====
-- How the state of one entity moves in a sweep.
use memory_and_soul_passport.Prelude.{
  max, true, if◌then◌else◌, ◌≤◌, ◌≡◌, refl, arith, Bool-cases, inl, inr,
}
use memory_and_soul_passport.Entities.{Lifecycle, active, decayed, archived, forgotten}
use memory_and_soul_passport.Entities.Decay.{Scores, Thresholds, rank, next_lifecycle_state}

-- The state that a score alone implies.
abbrev pub implied : {Score : Type 0} → Scores Score → Thresholds Score → Score → Lifecycle
implied f th score =
    if f.le score th.to_archived
    then archived
    else if f.le score th.to_decayed
    then decayed
    else active

-- Where a score under the second threshold is under the first one too, one tick leads to the later of
-- the state there was and the state that the score implies, in the order active, decayed, archived,
-- forgotten: it catches up in one step, never goes back, and leaves a forgotten entity forgotten.
pub next_lifecycle_state-max :
    {Score : Type 0} (f : Scores Score) (th : Thresholds Score) (score : Score) (state : Lifecycle)
    → (f.le score th.to_archived ≡ true → f.le score th.to_decayed ≡ true)
    → rank (next_lifecycle_state f state score th) ≡ max (rank state) (rank (implied f th score))
unfolding next_lifecycle_state
next_lifecycle_state-max f th score active ordered = elim (Bool-cases (f.le score th.to_decayed)) [
  | inl low ↦ elim (Bool-cases (f.le score th.to_archived)) [
    | inl lower ↦ rw (low, lower) refl
    | inr kept ↦ rw (low, kept) refl
  ]
  | inr high ↦ elim (Bool-cases (f.le score th.to_archived)) [
    | inl lower ↦ let k = ordered lower in absurd cc
    | inr kept ↦ rw (high, kept) refl
  ]
]
next_lifecycle_state-max f th score decayed ordered =
    elim (Bool-cases (f.le score th.to_archived)) [
      | inl lower ↦ rw lower refl
      | inr kept ↦ elim (Bool-cases (f.le score th.to_decayed)) [
        | inl low ↦ rw (kept, low) refl
        | inr high ↦ rw (kept, high) refl
      ]
    ]
next_lifecycle_state-max f th score archived ordered =
    elim (Bool-cases (f.le score th.to_archived)) [
      | inl lower ↦ rw lower refl
      | inr kept ↦ elim (Bool-cases (f.le score th.to_decayed)) [
        | inl low ↦ rw (kept, low) refl
        | inr high ↦ rw (kept, high) refl
      ]
    ]
next_lifecycle_state-max f th score forgotten ordered =
    elim (Bool-cases (f.le score th.to_archived)) [
      | inl lower ↦ rw lower refl
      | inr kept ↦ elim (Bool-cases (f.le score th.to_decayed)) [
        | inl low ↦ rw (kept, low) refl
        | inr high ↦ rw (kept, high) refl
      ]
    ]

-- The state only moves forward, it becomes forgotten only if it was, and trying the same score again
-- moves it no further.
next_lifecycle_state-Forward :
    {Score : Type 0} (f : Scores Score) (th : Thresholds Score) (score : Score) (state : Lifecycle)
    → (rank state ≤ rank (next_lifecycle_state f state score th))
      × (next_lifecycle_state f state score th ≡ forgotten → state ≡ forgotten)
      × (next_lifecycle_state f (next_lifecycle_state f state score th) score th
          ≡ next_lifecycle_state f state score th)
unfolding next_lifecycle_state
next_lifecycle_state-Forward f th score active = elim (Bool-cases (f.le score th.to_decayed)) [
  | inl low ↦ elim (Bool-cases (f.le score th.to_archived)) [
    | inl lower ↦ rw (low, lower) (omega arith, λ h. cc, refl)
    | inr kept ↦ rw (low, kept) (omega arith, λ h. cc, rw kept refl)
  ]
  | inr high ↦ rw high (omega arith, λ h. cc, rw high refl)
]
next_lifecycle_state-Forward f th score decayed = elim (Bool-cases (f.le score th.to_archived)) [
  | inl lower ↦ rw lower (omega arith, λ h. cc, refl)
  | inr kept ↦ rw kept (omega arith, λ h. cc, rw kept refl)
]
next_lifecycle_state-Forward f th score archived = (omega arith, λ h. h, refl)
next_lifecycle_state-Forward f th score forgotten = (omega arith, λ h. h, refl)
