-- ===== src/Entities/Forget.antt =====
-- `forget` of entity-store.mjs: a soft delete. The time is read after the row.
pub mod Laws
use memory_and_soul_passport.Prelude.{
  ℕ, ◌+◌, String, Bool, true, false, ◌||◌, Option, none, some, List, if◌then◌else◌, ◌==◌, find,
}
use memory_and_soul_passport.Errors.{Result, ok, err, ◌>>=◌, not_found, type_error}
use memory_and_soul_passport.Temporal.{at}
use memory_and_soul_passport.Entities.{
  forgotten, is_forgotten, Content, Entity, HistoryRow, Store, by_key, get_by_id, insert_history,
  update, or_default,
}

module _ {Score : Type 0} where
  abbrev pub forget_row : ℕ → ℕ → Entity Score → Entity Score
  forget_row version now e = record e {
    content = record (e.content) { valid_to = at now };
    current_version = version;
    lifecycle_state = forgotten;
    updated_at = now;
  }

  abbrev pub forget_history : Entity Score → ℕ → Option String → String → HistoryRow
  forget_history e now reason actor = record {
    entity_id = e.entity_id;
    version = e.current_version + 1;
    content = record (e.content) { valid_to = at now; recorded_at = now };
    change_reason = or_default reason "forget";
    actor = actor;
  }

  unfoldable pub reread_forgotten : String → Store Score → Result (Store Score × Entity Score)
  reread_forgotten id s = elim (get_by_id id s) [ none ↦ err not_found | some e ↦ ok (s, e) ]

  unfoldable pub forget_entity :
      Entity Score → ℕ → Option String → String → Store Score → Result (Store Score × Entity Score)
  unfolding reread_forgotten
  forget_entity e now reason actor s = do
    s₁ ←
        insert_history (forget_history e now reason actor)
          (update e.entity_id (forget_row (e.current_version + 1) now) s)
    reread_forgotten e.entity_id s₁

  -- The transaction of `forget`.
  unfoldable pub forget :
      String
      → String
      → String
      → Option String
      → String
      → ℕ
      → Store Score
      → Result (Store Score × Entity Score)
  forget vault category key reason actor now s =
      if vault == "" || actor == ""
      then err type_error
      else elim (find (by_key vault category key) s.entities) [
        | none ↦ err not_found
        | some e ↦
            if is_forgotten e.lifecycle_state then ok (s, e) else forget_entity e now reason actor s
      ]
