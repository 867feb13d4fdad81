-- ===== src/Entities/Examples.antt =====
-- One entity over its life, and the theorems on entities applied to it.
use memory_and_soul_passport.Prelude.{
  max, select, All, Pairwise, ◌<◌, arith, ◌==◌, false, ◌≢◌, ◌-◌, leb, map, ℕ, ◌≤◌, String, ◌≡◌,
  refl, inl, true, false, none, some, List, [], ◌∷◌, ◌++◌, length, find, any, dec_text,
}
use memory_and_soul_passport.Errors.{ok, is_ok}
use memory_and_soul_passport.Json.{Json, scalar}
use memory_and_soul_passport.Temporal.{missing}
use memory_and_soul_passport.Entities.{
  active, forgotten, Entity, HistoryRow, Store, UpsertInput, Upserted, by_key, has_id, is_epistemic,
  has_vault, insert_entity, insert_history, update_where, reread, create_entity, upsert, new_entity,
  history_row, content_of,
}
use memory_and_soul_passport.Entities.Decay.{
  Scores, Thresholds, Report, rank, is_swept, next_lifecycle_state, run_decay_tick,
}
use memory_and_soul_passport.Entities.Decay.Ratchet.{implied, next_lifecycle_state-max}
use memory_and_soul_passport.Entities.Decay.Sweep.{swept, run_decay_tick-map}
use memory_and_soul_passport.Entities.Forget.{
  forget, forget_entity, forget_row, forget_history, reread_forgotten,
}
use memory_and_soul_passport.Entities.Forget.Laws.{forget-keeps_row}
use memory_and_soul_passport.Entities.Ledger.{DistinctIds, IsValid}
use memory_and_soul_passport.Entities.Read.{
  current, get_entity, ListInput, text_lt, insert_by_id, sort_by_id,
}
use memory_and_soul_passport.Entities.Read.Order.{Sorted}
use memory_and_soul_passport.Entities.Read.Pages.{wanted}
use memory_and_soul_passport.Entities.Read.Pages.Walk.{walk, walk-wanted}
use memory_and_soul_passport.Entities.Read.Written.{get_entity-upsert}
use memory_and_soul_passport.Entities.Reach.{
  Operation, upsert_op, forget_op, decay_op, touch_op, empty_store, apply_all, apply_all-IsValid,
  upsert_after_forget,
}
use memory_and_soul_passport.Entities.Upsert.Outcome.{is_incomplete}
use memory_and_soul_passport.Entities.Upsert.Laws.{
  upsert-IsValid, upsert-Appends, upsert_twice, upsert_succeeds,
}

-- A hash that reads the epistemic state, an id that is the key, a score that is a number.
abbrev hash : Json → String → Json → String
hash body state confidence = state

abbrev id : String → String → String → String
id vault category key = key

abbrev input : UpsertInput
input = record {
  vault_id = "v";
  category = "fact";
  key = "k";
  body = scalar "1";
  epistemic_state = "hypothesis";
  confidence = scalar "0.5";
  reason = none;
  actor = "a";
  valid_from = missing;
  valid_to = missing;
}

abbrev one : ℕ
one = 1

abbrev start : Store ℕ
start = empty_store ("v" ∷ [])

abbrev row : Entity ℕ
row = new_entity one hash id input 100

abbrev stored : Store ℕ
stored = record start {
  entities = row ∷ [];
  history = history_row one hash id "k" 1 (content_of one hash id input 100) "initial" "a" ∷ [];
}

abbrev forgotten_row : Entity ℕ
forgotten_row = forget_row 2 200 row

abbrev forgotten_store : Store ℕ
forgotten_store = record stored {
  entities = forgotten_row ∷ [];
  history = stored.history ++ forget_history row 200 none "a" ∷ [];
}

start-IsValid : IsValid start
start-IsValid = record { ids = tt; keys = tt; ledgers = tt; owned = tt }

created :
    upsert one hash id input 100 start
    ≡ ok (stored, record { entity = row; created = true; changed = true })
unfolding upsert create_entity insert_entity is_epistemic insert_history reread find any dec_text
created = refl

admitted : is_epistemic "hypothesis" ≡ true
unfolding is_epistemic dec_text
admitted = refl

has_v : has_vault "v" start ≡ true
unfolding any dec_text
has_v = refl

stored-IsValid : IsValid stored
stored-IsValid = upsert-IsValid one hash id input 100 start start-IsValid created

was_forgotten : forget "v" "fact" "k" none "a" 200 stored ≡ ok (forgotten_store, forgotten_row)
unfolding forget forget_entity insert_history update_where reread_forgotten find any dec_text
was_forgotten = refl

complete : is_incomplete one hash id input 100 start ≡ false
unfolding dec_text
complete = refl

nothing_there : any (has_id "k") start.entities ≡ false
unfolding any
nothing_there = refl

upsert_twice_example :
    upsert one hash id input 300 stored
    ≡ ok (stored, record { entity = row; created = false; changed = false })
upsert_twice_example = upsert_twice one hash id input 100 start 300 start-IsValid created

upsert-Appends_example :
    ((rows : List HistoryRow) × (stored.history ≡ start.history ++ rows) × length rows ≤ 1)
    × (true ≡ false → stored ≡ start)
upsert-Appends_example = upsert-Appends one hash id input 100 start start-IsValid created

upsert_succeeds_example : is_ok (upsert one hash id input 100 start) ≡ true
upsert_succeeds_example =
    upsert_succeeds one hash id input 100 start start-IsValid complete admitted has_v
      (inl nothing_there)

forget-keeps_row_example :
    (find (by_key "v" "fact" "k") forgotten_store.entities ≡ some forgotten_row)
    × (forgotten_row.lifecycle_state ≡ forgotten)
forget-keeps_row_example =
    forget-keeps_row "v" "fact" "k" none "a" 200 stored stored-IsValid was_forgotten

-- Scores that fall by one for each millisecond.
abbrev scores : Scores ℕ
scores = record { exp = λ elapsed days. 100 - elapsed; clamp = λ x. x; le = leb }

abbrev limits : Thresholds ℕ
limits = record { to_decayed = 50; to_archived = 15 }

differ : {s t : String} → (s == t) ≡ false → s ≢ t
differ h e = ground arith

v_is_named : row.vault_id ≢ ""
unfolding dec_text
v_is_named = differ refl

run_decay_tick-map_example :
    (report : Report) × (run_decay_tick scores limits "v" false 150 stored
      ≡ ok (
        record stored {
          entities = map (swept scores limits 150 (is_swept scores "v")) stored.entities;
        },
        report,
      ))
    × (run_decay_tick scores limits "v" true 150 stored ≡ ok (stored, report))
run_decay_tick-map_example =
    run_decay_tick-map scores limits 150 "v" stored v_is_named stored-IsValid.ids

next_lifecycle_state-max_example :
    rank (next_lifecycle_state scores active 10 limits)
    ≡ max (rank active) (rank (implied scores limits 10))
next_lifecycle_state-max_example = next_lifecycle_state-max scores limits 10 active (λ h. refl)

abbrev life : List (Operation ℕ)
life =
    upsert_op input 100
    ∷ decay_op limits "v" false 150
    ∷ touch_op "k" 160
    ∷ forget_op "v" "fact" "k" none "a" 200
    ∷ upsert_op input 300
    ∷ []

apply_all-IsValid_example : IsValid (apply_all one hash id scores life (empty_store ("v" ∷ [])))
apply_all-IsValid_example = apply_all-IsValid one hash id scores life ("v" ∷ [])

upsert_after_forget_example :
    (u : Upserted ℕ) × (r : Store ℕ) × (upsert one hash id input 300 forgotten_store ≡ ok (r, u))
    × (u.created ≡ false)
    × (u.changed ≡ true)
    × (u.entity.lifecycle_state ≡ active)
    × (u.entity.entity_id ≡ "k")
    × (u.entity.current_version ≡ 3)
    × (u.entity.created_at ≡ 100)
    × (u.entity.access_count ≡ 0)
    × (u.entity.decay_score ≡ one)
upsert_after_forget_example =
    upsert_after_forget one hash id input none "a" 200 300 stored forgotten_store forgotten_row
      stored-IsValid was_forgotten complete admitted

get_entity-upsert_example :
    (get_entity "v" "fact" "k" missing missing 300 300 stored ≡ ok (current row))
    × (row.content.source_hash ≡ "hypothesis")
    × (true ≡ true → row.content.body ≡ scalar "1")
get_entity-upsert_example =
    get_entity-upsert one hash id input 100 start 300 300 start-IsValid created

-- A second row, whose id comes before that of the first, read with pages of one row.
abbrev two_rows : Store ℕ
two_rows = record stored { entities = row ∷ record row { entity_id = "j"; key = "j" } ∷ [] }

abbrev pages_of_one : ListInput
pages_of_one = record {
  vault_id = "v";
  category = none;
  lifecycle_state = none;
  limit = some 1;
  cursor = none;
}

two_ids : Pairwise DistinctIds two_rows.entities
unfolding dec_text
two_ids = ((differ refl, tt), (tt, tt))

two_named : All (λ e. e.entity_id ≢ "") two_rows.entities
unfolding dec_text
two_named = (differ refl, (differ refl, tt))

named_vault : pages_of_one.vault_id ≢ ""
unfolding dec_text
named_vault = differ refl

few_wanted : length (wanted pages_of_one two_rows) < 3
unfolding sort_by_id insert_by_id select text_lt dec_text
few_wanted = omega arith

walk-wanted_example :
    (walk 3 pages_of_one two_rows ≡ wanted pages_of_one two_rows)
    × Sorted (wanted pages_of_one two_rows)
walk-wanted_example =
    walk-wanted two_rows two_ids two_named 3 pages_of_one named_vault refl few_wanted
