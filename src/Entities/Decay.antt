-- ===== src/Entities/Decay.antt =====
-- packages/msp-core/src/domain/decay-engine.mjs: the sweep over a vault and the reinforcement of one
-- entity. What the scores take from floating-point arithmetic is the record `Scores`; a time is
-- milliseconds, and a TypeError is raised for a missing vault.
pub mod Ratchet
pub mod Sweep
pub mod Keeps
use memory_and_soul_passport.Prelude.{
  ℕ, ◌+◌, ◌-◌, ◌*◌, String, Bool, true, false, not, ◌&&◌, Option, none, some, List, [], ◌∷◌, ◌++◌,
  length, nat_eq, if◌then◌else◌, ◌==◌, select, dec_text,
}
use memory_and_soul_passport.Errors.{Result, ok, err, type_error}
use memory_and_soul_passport.Entities.{
  Lifecycle, active, decayed, archived, forgotten, is_forgotten, Entity, Store, update_where,
  update,
}

-- `exp elapsed days` is Math.exp(-(elapsed / MS_PER_DAY) / days), `clamp` is
-- Math.min(1, Math.max(0, _)), `le` is `<=` on numbers.
pub record Scores (Score : Type 0) : Type 0 where
  pub exp : ℕ → ℕ → Score
  pub clamp : Score → Score
  pub le : Score → Score → Bool

pub record Thresholds (Score : Type 0) : Type 0 where
  pub to_decayed : Score
  pub to_archived : Score

pub record Transition : Type 0 where
  pub entity_id : String
  pub from_state : Lifecycle
  pub to_state : Lifecycle

-- `transitioned` and `perStateCount`, which has no other state.
pub record Tally : Type 0 where
  pub transitioned : List Transition
  pub active_count : ℕ
  pub decayed_count : ℕ
  pub archived_count : ℕ

pub record Report : Type 0 where
  pub evaluated : ℕ
  pub tally : Tally

-- The states in their order; different states have different numbers.
abbrev pub rank : Lifecycle → ℕ
rank active = 0
rank decayed = 1
rank archived = 2
rank forgotten = 3

abbrev pub base_stability_days : ℕ
base_stability_days = 3

abbrev pub reinforcement_days_per_access : ℕ
reinforcement_days_per_access = 2

abbrev pub count_state : Lifecycle → Tally → Tally
count_state active t = record t { active_count = t.active_count + 1 }
count_state decayed t = record t { decayed_count = t.decayed_count + 1 }
count_state archived t = record t { archived_count = t.archived_count + 1 }
count_state forgotten t = t

abbrev pub no_tally : Tally
no_tally = record { transitioned = []; active_count = 0; decayed_count = 0; archived_count = 0 }

module _ {Score : Type 0} (f : Scores Score) where
  open f use {exp, clamp, le}

  pub recompute_decay_score : Option ℕ → ℕ → ℕ → ℕ → Score
  recompute_decay_score last_accessed_at created_at access_count now = clamp (
      exp (now - (elim last_accessed_at [ none ↦ created_at | some t ↦ t ]))
        (base_stability_days + access_count * reinforcement_days_per_access))

  -- Both thresholds are tried in one call.
  abbrev pub to_decayed_if : Thresholds Score → Score → Lifecycle → Lifecycle
  to_decayed_if th score active = if le score th.to_decayed then decayed else active
  to_decayed_if th score s = s

  abbrev pub to_archived_if : Thresholds Score → Score → Lifecycle → Lifecycle
  to_archived_if th score decayed = if le score th.to_archived then archived else decayed
  to_archived_if th score s = s

  pub next_lifecycle_state : Lifecycle → Score → Thresholds Score → Lifecycle
  next_lifecycle_state state score th = to_archived_if th score (to_decayed_if th score state)

  abbrev pub score_of : ℕ → Entity Score → Score
  score_of now e = recompute_decay_score e.last_accessed_at e.created_at e.access_count now

  abbrev pub next_state_of : Thresholds Score → ℕ → Entity Score → Lifecycle
  next_state_of th now e = next_lifecycle_state e.lifecycle_state (score_of now e) th

  -- updateStatement, with what is computed from the row `e`
  abbrev pub decay_update : Thresholds Score → ℕ → Entity Score → Entity Score → Entity Score
  decay_update th now e x = record x {
    decay_score = score_of now e;
    lifecycle_state = next_state_of th now e;
    updated_at = now;
  }

  abbrev pub note_transition : Lifecycle → Entity Score → Tally → Tally
  note_transition next e t = if nat_eq (rank next) (rank e.lifecycle_state) then t else record t {
    transitioned =
        t.transitioned
        ++ record { entity_id = e.entity_id; from_state = e.lifecycle_state; to_state = next } ∷ [];
  }

  abbrev pub tally_row : Thresholds Score → ℕ → Entity Score → Tally → Tally
  tally_row th now e t =
      note_transition (next_state_of th now e) e (count_state (next_state_of th now e) t)

  -- `apply`: the loop over the rows that were selected.
  pub sweep :
      Thresholds Score → ℕ → Bool → List (Entity Score) → Store Score → Tally → Store Score × Tally
  sweep th now dry_run [] s t = (s, t)
  sweep th now dry_run (e ∷ es) s t =
      sweep th now dry_run es (if dry_run then s else update e.entity_id (decay_update th now e) s)
        (tally_row th now e t)

  abbrev pub is_swept : String → Entity Score → Bool
  is_swept vault e = e.vault_id == vault && not (is_forgotten e.lifecycle_state)

  unfoldable pub run_decay_tick :
      Thresholds Score → String → Bool → ℕ → Store Score → Result (Store Score × Report)
  run_decay_tick th vault dry_run now s =
      if vault == ""
      then err type_error
      else let rows = select (is_swept vault) s.entities in
        let (t, tally) = sweep th now dry_run rows s no_tally in
        ok (t, record { evaluated = length rows; tally = tally })

module _ {Score : Type 0} where
  abbrev pub reinforce : ℕ → Entity Score → Entity Score
  reinforce now e = record e {
    access_count = e.access_count + 1;
    last_accessed_at = some now;
    updated_at = now;
  }

  unfoldable pub touch : String → ℕ → Store Score → Result (Store Score)
  touch id now s = if id == "" then err type_error else ok (update id (reinforce now) s)
