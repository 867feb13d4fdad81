-- ===== src/Entities/Decay/Sweep.antt =====
-- The loop of UPDATEs of a sweep, and what a dry run says of it.
use memory_and_soul_passport.Prelude.{
  ℕ, String, ◌≡◌, ◌≢◌, refl, sym, ap, ◌∙◌, inl, inr, Bool, true, false, List, [], ◌∷◌, map, length,
  select, All-select, if◌then◌else◌, ◌==◌, arith, Bool-cases, All, All-mono, Pairwise,
}
use memory_and_soul_passport.Errors.{ok}
use memory_and_soul_passport.Entities.{Entity, Store, has_id, update_where}
use memory_and_soul_passport.Entities.Decay.{
  Scores, Thresholds, Tally, no_tally, Report, sweep, tally_row, decay_update, is_swept,
  run_decay_tick,
}
use memory_and_soul_passport.Entities.Ledger.{DistinctIds}

module _ {Score : Type 0} (f : Scores Score) (th : Thresholds Score) (now : ℕ) where
  tallies : List (Entity Score) → Tally → Tally
  tallies [] t = t
  tallies (e ∷ es) t = tallies es (tally_row f th now e t)

  updates : List (Entity Score) → List (Entity Score) → List (Entity Score)
  updates [] table = table
  updates (e ∷ es) table = updates es (update_where e.entity_id (decay_update f th now e) table)

  sweep_dry :
      (es : List (Entity Score)) (s : Store Score) (t : Tally)
      → sweep f th now true es s t ≡ (s, tallies es t)
  unfolding sweep tallies
  sweep_dry [] s t = refl
  sweep_dry (e ∷ es) s t = sweep_dry es s (tally_row f th now e t)

  sweep_wet :
      (es : List (Entity Score)) (s : Store Score) (t : Tally)
      → sweep f th now false es s t ≡ (record s { entities = updates es s.entities }, tallies es t)
  unfolding sweep tallies updates
  sweep_wet [] s t = refl
  sweep_wet (e ∷ es) s t =
      sweep_wet es
        (record s { entities = update_where e.entity_id (decay_update f th now e) s.entities })
        (tally_row f th now e t)

  -- A row that no update names stays.
  update_where_others :
      (id : String) (g : Entity Score → Entity Score) (es : List (Entity Score))
      → All (λ x. x.entity_id ≢ id) es
      → update_where id g es ≡ es
  unfolding update_where
  update_where_others id g [] n = refl
  update_where_others id g (x ∷ es) (n, ns) =
      let other : has_id id x ≡ false = ground arith in
      rw (other, update_where_others id g es ns) refl

  updates_others :
      (rows : List (Entity Score)) (x : Entity Score) (table : List (Entity Score))
      → All (λ r. x.entity_id ≢ r.entity_id) rows
      → updates rows (x ∷ table) ≡ x ∷ updates rows table
  unfolding updates update_where
  updates_others [] x table n = refl
  updates_others (r ∷ rows) x table (n, ns) =
      let other : has_id r.entity_id x ≡ false = ground arith in
      rw other (updates_others rows x (update_where r.entity_id (decay_update f th now r) table) ns)

  update_where_first :
      (e : Entity Score) (g : Entity Score → Entity Score) (es : List (Entity Score))
      → All (DistinctIds e) es
      → update_where e.entity_id g (e ∷ es) ≡ g e ∷ es
  unfolding update_where
  update_where_first e g es n =
      let self : has_id e.entity_id e ≡ true = ground arith in
      rw
        (
          self,
          update_where_others e.entity_id g es (
              All-mono (DistinctIds e) (λ x. x.entity_id ≢ e.entity_id) (λ x ne same. ne (sym same))
                es n),
        )
        refl

  updates_first :
      (e : Entity Score) (rows es : List (Entity Score))
      → All (DistinctIds e) es
      → All (DistinctIds e) rows
      → updates (e ∷ rows) (e ∷ es) ≡ decay_update f th now e e ∷ updates rows es
  unfolding updates
  updates_first e rows es n m =
      ap (λ table. updates rows table) (update_where_first e (decay_update f th now e) es n)
      ∙ updates_others rows (decay_update f th now e e) es m

  -- One row after a sweep.
  abbrev pub swept : (Entity Score → Bool) → Entity Score → Entity Score
  swept p e = if p e then decay_update f th now e e else e

  updates-map :
      (p : Entity Score → Bool) (es : List (Entity Score))
      → Pairwise DistinctIds es
      → updates (select p es) es ≡ map (swept p) es
  unfolding select updates update_where
  updates-map p [] d = refl
  updates-map p (e ∷ es) (n, d) = elim (Bool-cases (p e)) [
    | inl here ↦ rw here (
        updates_first e (select p es) es n (All-select p (DistinctIds e) es n)
        ∙ ap (λ xs. decay_update f th now e e ∷ xs) (updates-map p es d))
    | inr there ↦ rw there (
        updates_others (select p es) e es (All-select p (DistinctIds e) es n)
        ∙ ap (λ xs. e ∷ xs) (updates-map p es d))
  ]

  -- Where ids are distinct, the loop of UPDATEs does to every active, decayed or archived entity of the
  -- vault exactly its own decay step, and leaves every other row and the history as they were. A
  -- dry run writes nothing and returns the same report.
  pub run_decay_tick-map :
      (vault : String) (s : Store Score)
      → vault ≢ ""
      → Pairwise DistinctIds s.entities
      → (report : Report) × (run_decay_tick f th vault false now s
          ≡ ok (record s { entities = map (swept (is_swept f vault)) s.entities }, report))
        × (run_decay_tick f th vault true now s ≡ ok (s, report))
  unfolding run_decay_tick
  run_decay_tick-map vault s n d =
      let rows = select (is_swept f vault) s.entities in
      let named : (vault == "") ≡ false = ground arith in
      let loop : updates rows s.entities ≡ map (swept (is_swept f vault)) s.entities =
        updates-map (is_swept f vault) s.entities d in
      (
        record { evaluated = length rows; tally = tallies rows no_tally },
        rw (named, sweep_wet rows s no_tally, loop) refl,
        rw (named, sweep_dry rows s no_tally) refl,
      )
