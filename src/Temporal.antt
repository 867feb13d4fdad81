-- ===== src/Temporal.antt =====
-- packages/msp-core/src/domain/temporal-engine.mjs. A time is milliseconds since the epoch (1970 or
-- later), and a field that should hold one is a `Stamp`. `new Date()` is an argument.
pub mod Visible
pub mod Examples
use memory_and_soul_passport.Prelude.{
  ℕ, suc, ◌+◌, Bool, true, false, not, ◌&&◌, ◌||◌, Option, none, some, List, [], ◌∷◌, ◌++◌, ltb,
  leb, if◌then◌else◌, max,
}

-- null or undefined, the empty text, a text that Date.parse refuses, a text that it reads.
pub data Stamp : Type 0 where
  missing blank invalid : Stamp
  at : ℕ → Stamp

-- `a ?? b`
abbrev pub or_else : Stamp → Stamp → Stamp
or_else missing b = b
or_else a b = a

-- `a || b`
abbrev pub or_if_falsy : Stamp → Stamp → Stamp
or_if_falsy missing b = b
or_if_falsy blank b = b
or_if_falsy a b = a

-- Date.parse, where none is NaN.
abbrev pub parse : Stamp → Option ℕ
parse (at t) = some t
parse _ = none

abbrev pub is_falsy : Stamp → Bool
is_falsy missing = true
is_falsy blank = true
is_falsy _ = false

pub record TemporalItem : Type 0 where
  pub valid_from : Stamp
  pub valid_to : Stamp
  pub recorded_at : Stamp
  pub superseded_at : Stamp

-- `v < from`, `to !== undefined && !isNaN(to) && v > to` and so on, on what Date.parse returned.
abbrev not_before : ℕ → ℕ → Bool
not_before v from = not (ltb v from)

abbrev not_after : ℕ → Option ℕ → Bool
not_after v none = true
not_after v (some to) = not (ltb to v)

abbrev strictly_before : ℕ → Option ℕ → Bool
strictly_before v none = true
strictly_before v (some to) = not (leb to v)

visible_at : Option ℕ → Option ℕ → Option ℕ → Option ℕ → Option ℕ → Option ℕ → Bool
visible_at (some valid) (some recorded) (some from) to (some since) superseded =
    not_before valid from
    && not_after valid to
    && not_before recorded since
    && strictly_before recorded superseded
visible_at _ _ _ _ _ _ = false

-- isTemporalVisible(item, { asOfValidAt, asOfRecordedAt }); the clock is read for each default.
pub is_temporal_visible : TemporalItem → Stamp → Stamp → ℕ → ℕ → Bool
unfolding visible_at
is_temporal_visible item as_of_valid_at as_of_recorded_at now₁ now₂ =
    visible_at (parse (or_else as_of_valid_at (at now₁)))
      (parse (or_else as_of_recorded_at (at now₂)))
      (parse (or_else item.valid_from (or_else item.recorded_at (at 0)))) (parse item.valid_to)
      (parse (or_else item.recorded_at (at 0))) (parse item.superseded_at)

pub data OrderError : Type 0 where
  valid_from_invalid valid_to_invalid recorded_at_invalid superseded_at_invalid : OrderError
  valid_from_after_valid_to recorded_at_after_superseded_at : OrderError

-- A field that is set and that Date.parse refuses.
abbrev is_bad : Stamp → Bool
is_bad invalid = true
is_bad _ = false

abbrev is_after : Stamp → Stamp → Bool
is_after (at a) (at b) = ltb b a
is_after _ _ = false

abbrev report : Bool → OrderError → List OrderError
report true e = e ∷ []
report false e = []

pub compare_temporal_order : TemporalItem → List OrderError
compare_temporal_order item =
    report (is_bad item.valid_from) valid_from_invalid
    ++ (report (is_bad item.valid_to) valid_to_invalid
        ++ (report (is_bad item.recorded_at) recorded_at_invalid
            ++ (report (is_bad item.superseded_at) superseded_at_invalid
                ++ (report (is_after item.valid_from item.valid_to) valid_from_after_valid_to
                    ++ report (is_after item.recorded_at item.superseded_at)
                        recorded_at_after_superseded_at))))

-- createTemporalVersion without its `version` text.
pub create_temporal_version : TemporalItem → Stamp → TemporalItem
create_temporal_version input now = record {
  valid_from = or_if_falsy input.valid_from now;
  valid_to = or_if_falsy input.valid_to missing;
  recorded_at = or_if_falsy input.recorded_at now;
  superseded_at = or_if_falsy input.superseded_at missing;
}
