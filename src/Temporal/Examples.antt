-- ===== src/Temporal/Examples.antt =====
-- The theorems on times, applied to one item.
use memory_and_soul_passport.Prelude.{◌≤◌, ◌≡◌, ◌↔◌, refl, true, []}
use memory_and_soul_passport.Temporal.{
  missing, at, TemporalItem, is_temporal_visible, compare_temporal_order,
}
use memory_and_soul_passport.Temporal.Visible.{
  Until, Before, IsReadable, InOrder, is_temporal_visible_iff, compare_temporal_order_iff,
}

abbrev item : TemporalItem
item = record { valid_from = at 10; valid_to = at 20; recorded_at = at 12; superseded_at = missing }

is_temporal_visible_iff_example :
    (is_temporal_visible item (at 20) (at 12) 0 0 ≡ true)
    ↔ ((10 ≤ 20) × Until 20 item.valid_to × (12 ≤ 12) × Before 12 item.superseded_at)
is_temporal_visible_iff_example = is_temporal_visible_iff item 20 12 10 12 0 0 refl refl

compare_temporal_order_iff_example : (compare_temporal_order item ≡ []) ↔ (
    IsReadable item.valid_from
    × IsReadable item.valid_to
    × IsReadable item.recorded_at
    × IsReadable item.superseded_at
    × InOrder item.valid_from item.valid_to
    × InOrder item.recorded_at item.superseded_at)
compare_temporal_order_iff_example = compare_temporal_order_iff item
