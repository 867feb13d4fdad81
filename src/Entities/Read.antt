-- ===== src/Entities/Read.antt =====
-- The reads of entity-store.mjs: getById, get, history and list. ORDER BY is a stable insertion sort, of
-- texts by their code points (SQLite's BINARY collation of UTF-8).
pub mod History
pub mod Written
pub mod Order
pub mod Pages
use Prim.Native.Char.{code}
use Prim.Native.String
use memory_and_soul_passport.Prelude.{
  ℕ, zero, suc, ◌+◌, String, Bool, true, false, not, ◌&&◌, ◌||◌, Option, none, some, List, [], ◌∷◌,
  ◌++◌, ltb, leb, nat_eq, max, min, if◌then◌else◌, ◌==◌, length, truthy, holds, find, select,
  dec_text,
}
use memory_and_soul_passport.Errors.{Result, ok, err, type_error}
use memory_and_soul_passport.Temporal.{
  Stamp, missing, at, is_falsy, TemporalItem, is_temporal_visible,
}
use memory_and_soul_passport.Entities.{
  Lifecycle, active, decayed, archived, forgotten, Content, Entity, HistoryRow, Store, by_key,
  get_by_id,
}

-- ORDER BY version ASC: a row goes before the first one of a greater version.
unfoldable pub insert_by_version : HistoryRow → List HistoryRow → List HistoryRow
insert_by_version r [] = r ∷ []
insert_by_version r (x ∷ xs) =
    if ltb x.version r.version then x ∷ insert_by_version r xs else r ∷ x ∷ xs

unfoldable pub sort_by_version : List HistoryRow → List HistoryRow
sort_by_version [] = []
sort_by_version (r ∷ rs) = insert_by_version r (sort_by_version rs)

abbrev pub of_entity : String → HistoryRow → Bool
of_entity id r = r.entity_id == id

-- #selectHistoryAsc
unfoldable pub history_asc : String → List HistoryRow → List HistoryRow
unfolding insert_by_version sort_by_version
history_asc id rows = sort_by_version (select (of_entity id) rows)

unfoldable pub reverse_rows : List HistoryRow → List HistoryRow
reverse_rows [] = []
reverse_rows (r ∷ rs) = reverse_rows rs ++ r ∷ []

-- The item that `get` builds of a version and the next one. A row's own `superseded_at` is NULL.
abbrev pub temporal_item : HistoryRow → Option HistoryRow → TemporalItem
temporal_item r next = record {
  valid_from = r.content.valid_from;
  valid_to = r.content.valid_to;
  recorded_at = at r.content.recorded_at;
  superseded_at = elim next [ none ↦ missing | some n ↦ at n.content.recorded_at ];
}

abbrev pub head_of : List HistoryRow → Option HistoryRow
head_of [] = none
head_of (r ∷ rs) = some r

-- `if (asOfValidAt) options.asOfValidAt = asOfValidAt`
abbrev pub given : Stamp → Stamp
given s = if is_falsy s then missing else s

-- The loop from the last version to the first: the rows that follow are tried before their row. Both
-- readings of the clock are arguments, one for all rows.
unfoldable pub visible_version : Stamp → Stamp → ℕ → ℕ → List HistoryRow → Option HistoryRow
visible_version valid recorded now₁ now₂ [] = none
visible_version valid recorded now₁ now₂ (r ∷ rs) =
    elim (visible_version valid recorded now₁ now₂ rs) [
      | some x ↦ some x
      | none ↦
          if is_temporal_visible (temporal_item r (head_of rs)) (given valid) (given recorded) now₁
            now₂
          then some r
          else none
    ]

-- What `get` returns: the current row, or a version.
pub data Found (Score : Type 0) : Type 0 where
  nothing : Found Score
  current : Entity Score → Found Score
  version_of : Entity Score → HistoryRow → Found Score

module _ {Score : Type 0} where
  abbrev point_in_time : Entity Score → Option HistoryRow → Found Score
  point_in_time e none = nothing
  point_in_time e (some r) = version_of e r

  unfoldable pub get_entity :
      String → String → String → Stamp → Stamp → ℕ → ℕ → Store Score → Result (Found Score)
  unfolding visible_version history_asc
  get_entity vault category key valid recorded now₁ now₂ s =
      if vault == "" then err type_error else elim (find (by_key vault category key) s.entities) [
        | none ↦ ok nothing
        | some e ↦
            if is_falsy valid && is_falsy recorded
            then ok (current e)
            else ok (
                point_in_time e
                  (visible_version valid recorded now₁ now₂ (history_asc e.entity_id s.history)))
      ]

  -- Newest first.
  unfoldable pub history_of : String → String → String → Store Score → Result (List HistoryRow)
  unfolding history_asc reverse_rows
  history_of vault category key s =
      if vault == "" then err type_error else elim (find (by_key vault category key) s.entities) [
        | none ↦ ok []
        | some e ↦ ok (reverse_rows (history_asc e.entity_id s.history))
      ]

-- `a < b` of two texts
unfoldable pub text_lt : String → String → Bool
text_lt s String.[] = false
text_lt String.[] (String.◌∷◌ d t) = true
text_lt (String.◌∷◌ c s) (String.◌∷◌ d t) =
    let rest = text_lt s t in
    if ltb (code c) (code d) then true else if ltb (code d) (code c) then false else rest

abbrev pub state_name : Lifecycle → String
state_name active = "active"
state_name decayed = "decayed"
state_name archived = "archived"
state_name forgotten = "forgotten"

abbrev pub is_listed : Lifecycle → Bool
is_listed archived = false
is_listed forgotten = false
is_listed _ = true

-- `Math.max(1, Math.min(Number(limit) || 50, 200))`, where none is a limit that is missing or no
-- number; negative and fractional limits are left out
abbrev pub bounded_limit : Option ℕ → ℕ
bounded_limit none = 50
bounded_limit (some zero) = 50
bounded_limit (some (suc n)) = min (suc n) 200

pub record ListInput : Type 0 where
  pub vault_id : String
  pub category : Option String
  pub lifecycle_state : Option String
  pub limit : Option ℕ
  pub cursor : Option String

module _ {Score : Type 0} where
  -- ORDER BY entity_id ASC
  unfoldable pub insert_by_id : Entity Score → List (Entity Score) → List (Entity Score)
  insert_by_id e [] = e ∷ []
  insert_by_id e (x ∷ xs) =
      if text_lt x.entity_id e.entity_id then x ∷ insert_by_id e xs else e ∷ x ∷ xs

  unfoldable pub sort_by_id : List (Entity Score) → List (Entity Score)
  sort_by_id [] = []
  sort_by_id (e ∷ es) = insert_by_id e (sort_by_id es)

  abbrev pub is_wanted : ListInput → Entity Score → Bool
  is_wanted i e =
      e.vault_id == i.vault_id
      && (if truthy i.category then holds i.category e.category else true)
      && (if truthy i.lifecycle_state
          then holds i.lifecycle_state (state_name e.lifecycle_state)
          else is_listed e.lifecycle_state)

  abbrev pub is_after_cursor : Option String → Entity Score → Bool
  is_after_cursor none e = true
  is_after_cursor (some c) e = if c == "" then true else text_lt c e.entity_id

  abbrev pub is_on_page : ListInput → Entity Score → Bool
  is_on_page i e = is_wanted i e && is_after_cursor i.cursor e

  -- `rows.slice(0, n)`
  pub take_rows : ℕ → List (Entity Score) → List (Entity Score)
  take_rows zero es = []
  take_rows (suc n) [] = []
  take_rows (suc n) (e ∷ es) = e ∷ take_rows n es

  pub last_id : List (Entity Score) → Option String
  last_id [] = none
  last_id (e ∷ []) = some e.entity_id
  last_id (e ∷ x ∷ es) = last_id (x ∷ es)

  -- `rows` is read with LIMIT n + 1.
  abbrev pub page_of : ℕ → List (Entity Score) → List (Entity Score) × Option String
  page_of n rows =
      (take_rows n rows, if ltb n (length rows) then last_id (take_rows n rows) else none)

  pub list_entities : ListInput → Store Score → Result (List (Entity Score) × Option String)
  unfolding sort_by_id insert_by_id take_rows last_id
  list_entities i s =
      if i.vault_id == ""
      then err type_error
      else ok (
          page_of (bounded_limit i.limit)
            (take_rows (bounded_limit i.limit + 1) (sort_by_id (select (is_on_page i) s.entities))))
