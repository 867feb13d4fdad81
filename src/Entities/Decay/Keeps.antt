-- ===== src/Entities/Decay/Keeps.antt =====
-- Sweeps and reinforcement write neither keys nor contents nor versions.
use memory_and_soul_passport.Prelude.{
  ℕ, String, ◌≡◌, refl, inl, inr, Bool, true, false, List, [], ◌∷◌, if◌then◌else◌, ◌==◌, Bool-cases,
  select, arith,
}
use memory_and_soul_passport.Errors.{ok, err, type_error}
use memory_and_soul_passport.Entities.{Entity, Store, has_id, update}
use memory_and_soul_passport.Entities.Decay.{
  Scores, Thresholds, Tally, no_tally, Report, sweep, tally_row, decay_update, is_swept,
  run_decay_tick, reinforce, touch,
}
use memory_and_soul_passport.Entities.Ledger.{HasLedger, IsValid}
use memory_and_soul_passport.Entities.Ledger.Writes.{
  KeepsKey, All-update_where, DistinctIds-update_where, DistinctKeys-update_where,
  HasOwner-update_where,
}

-- An update of other columns.
record KeepsLedger {Score : Type 0} (f : Entity Score → Entity Score) : Type 0 where
  keys : KeepsKey f
  content : (e : Entity Score) → (f e).content ≡ e.content
  current_version : (e : Entity Score) → (f e).current_version ≡ e.current_version

module _ {Score : Type 0} (f : Entity Score → Entity Score) (k : KeepsLedger f) (id : String)
    (s : Store Score) where
  ledger_of_update :
      (e : Entity Score)
      → HasLedger s.history e
      → HasLedger s.history (if has_id id e then f e else e)
  ledger_of_update e l = elim (Bool-cases (has_id id e)) [
    | inl here ↦ rw here (record {
      complete = rw (k.keys.id e, k.current_version e) l.complete;
      last = l.last;
      is_last = rw (k.keys.id e) l.is_last;
      agrees = rw (k.content e) l.agrees;
    })
    | inr there ↦ rw there l
  ]

  update-IsValid : IsValid s → IsValid (update id f s)
  update-IsValid v = record {
    ids = DistinctIds-update_where id f k.keys s.entities v.ids;
    keys = DistinctKeys-update_where id f k.keys s.entities v.keys;
    ledgers =
        All-update_where id f (HasLedger s.history) (HasLedger s.history) ledger_of_update
          s.entities v.ledgers;
    owned = HasOwner-update_where id f k.keys s.entities s.history v.owned;
  }

module _ {Score : Type 0} (f : Scores Score) (th : Thresholds Score) (now : ℕ) where
  decay_update-KeepsLedger : (e : Entity Score) → KeepsLedger (decay_update f th now e)
  decay_update-KeepsLedger e = record {
    keys = record { id = λ x. refl; vault = λ x. refl; category = λ x. refl; key = λ x. refl };
    content = λ x. refl;
    current_version = λ x. refl;
  }

  sweep-IsValid :
      (dry_run : Bool) (es : List (Entity Score)) (s : Store Score) (t : Tally)
      → IsValid s
      → IsValid (sweep f th now dry_run es s t).0
  unfolding sweep
  sweep-IsValid dry_run [] s t v = v
  sweep-IsValid true (e ∷ es) s t v = sweep-IsValid true es s (tally_row f th now e t) v
  sweep-IsValid false (e ∷ es) s t v =
      sweep-IsValid false es (update e.entity_id (decay_update f th now e) s)
        (tally_row f th now e t)
        (update-IsValid (decay_update f th now e) (decay_update-KeepsLedger e) e.entity_id s v)

  pub run_decay_tick-IsValid :
      (vault : String) (dry_run : Bool) (s t : Store Score) (report : Report)
      → run_decay_tick f th vault dry_run now s ≡ ok (t, report)
      → IsValid s
      → IsValid t
  unfolding run_decay_tick
  run_decay_tick-IsValid vault dry_run s t report h v = elim (Bool-cases (vault == "")) [
    | inl blank ↦
        let no : run_decay_tick f th vault dry_run now s ≡ err type_error = rw blank refl in
        absurd cc
    | inr named ↦
        let rows = select (is_swept f vault) s.entities in
        let same : t ≡ (sweep f th now dry_run rows s no_tally).0 = ground arith in
        rw same (sweep-IsValid dry_run rows s no_tally v)
  ]

pub touch-IsValid :
    {Score : Type 0} (id : String) (now : ℕ) (s t : Store Score)
    → touch id now s ≡ ok t
    → IsValid s
    → IsValid t
unfolding touch
touch-IsValid id now s t h v = elim (Bool-cases (id == "")) [
  | inl blank ↦ let no : touch id now s ≡ err type_error = rw blank refl in absurd cc
  | inr named ↦
      let same : t ≡ update id (reinforce now) s = ground arith in
      rw same (
        update-IsValid (reinforce now)
          (record {
            keys = record {
              id = λ x. refl;
              vault = λ x. refl;
              category = λ x. refl;
              key = λ x. refl;
            };
            content = λ x. refl;
            current_version = λ x. refl;
          })
          id s v)
]
