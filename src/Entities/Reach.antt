-- ===== src/Entities/Reach.antt =====
-- The entity tables over the life of a database: any sequence of its writing operations.
use memory_and_soul_passport.Prelude.{
  ℕ, ◌+◌, String, ◌≡◌, refl, inl, inr, Option, List, Bool, [], ◌∷◌, true, false, arith,
}
use memory_and_soul_passport.Json.{Json}
use memory_and_soul_passport.Errors.{Result, ok, err, Result-cases, state_after}
use memory_and_soul_passport.Entities.{
  active, Entity, Store, UpsertInput, Upserted, upsert, is_epistemic,
}
use memory_and_soul_passport.Entities.Decay.{Scores, Thresholds, run_decay_tick, touch}
use memory_and_soul_passport.Entities.Decay.Keeps.{run_decay_tick-IsValid, touch-IsValid}
use memory_and_soul_passport.Entities.Forget.{forget}
use memory_and_soul_passport.Entities.Forget.Laws.{forget-IsValid, forget-keeps_row}
use memory_and_soul_passport.Entities.Ledger.{IsValid}
use memory_and_soul_passport.Entities.Upsert.Laws.{upsert-IsValid}
use memory_and_soul_passport.Entities.Upsert.Outcome.{
  revise_entity-eq, is_incomplete, is_same, revision, revised_store,
}

-- A call, with the times and thresholds that it is given.
pub data Operation (Score : Type 0) : Type 0 where
  upsert_op : UpsertInput → ℕ → Operation Score
  forget_op : String → String → String → Option String → String → ℕ → Operation Score
  decay_op : Thresholds Score → String → Bool → ℕ → Operation Score
  touch_op : String → ℕ → Operation Score

abbrev pub empty_store : {Score : Type 0} → List String → Store Score
empty_store vaults = record { entities = []; history = []; vaults = vaults }

abbrev pub store_or {ℓ} : {S : Type ℓ} → S → Result S → S
store_or s (err e) = s
store_or s (ok t) = t

module _ {Score : Type 0} (one : Score) (hash_of : Json → String → Json → String)
    (id_of : String → String → String → String) (f : Scores Score) where
  -- A failed operation leaves the tables as they were: its transaction is rolled back.
  unfoldable pub apply : Operation Score → Store Score → Store Score
  apply (upsert_op i now) s = state_after s (upsert one hash_of id_of i now s)
  apply (forget_op vault category key reason actor now) s =
      state_after s (forget vault category key reason actor now s)
  apply (decay_op th vault dry_run now) s = state_after s (run_decay_tick f th vault dry_run now s)
  apply (touch_op id now) s = store_or s (touch id now s)

  pub apply_all : List (Operation Score) → Store Score → Store Score
  apply_all [] s = s
  apply_all (o ∷ os) s = apply_all os (apply o s)

  pub apply-IsValid : (o : Operation Score) (s : Store Score) → IsValid s → IsValid (apply o s)
  unfolding apply
  apply-IsValid (upsert_op i now) s v = elim (Result-cases (upsert one hash_of id_of i now s)) [
    | inl (e, h) ↦ rw h v
    | inr ((t, u), h) ↦ rw h (upsert-IsValid one hash_of id_of i now s v h)
  ]
  apply-IsValid (forget_op vault category key reason actor now) s v =
      elim (Result-cases (forget vault category key reason actor now s)) [
        | inl (e, h) ↦ rw h v
        | inr ((t, d), h) ↦ rw h (forget-IsValid vault category key reason actor now s v h)
      ]
  apply-IsValid (decay_op th vault dry_run now) s v =
      elim (Result-cases (run_decay_tick f th vault dry_run now s)) [
        | inl (e, h) ↦ rw h v
        | inr ((t, report), h) ↦ rw h (run_decay_tick-IsValid f th now vault dry_run s t report h v)
      ]
  apply-IsValid (touch_op id now) s v = elim (Result-cases (touch id now s)) [
    | inl (e, h) ↦ rw h v
    | inr (t, h) ↦ rw h (touch-IsValid id now s t h v)
  ]

  apply_all_from :
      (os : List (Operation Score)) (s : Store Score) → IsValid s → IsValid (apply_all os s)
  unfolding apply_all
  apply_all_from [] s v = v
  apply_all_from (o ∷ os) s v = apply_all_from os (apply o s) (apply-IsValid o s v)

  -- After any sequence of upserts, forgets, decay sweeps and reinforcements from empty tables, with
  -- any inputs, times and vaults, ids and keys are distinct, every row has the versions 1, 2, ..., its
  -- current one, in this order, the newest with the content of the row, and no version is without
  -- its row.
  pub apply_all-IsValid :
      (os : List (Operation Score)) (vaults : List String)
      → IsValid (apply_all os (empty_store vaults))
  apply_all-IsValid os vaults =
      apply_all_from os (empty_store vaults)
        (record { ids = tt; keys = tt; ledgers = tt; owned = tt })

module _ {Score : Type 0} (one : Score) (hash_of : Json → String → Json → String)
    (id_of : String → String → String → String) where
  -- After a successful forget on valid tables, an upsert with its vault, category and key, none
  -- of them empty, an actor and an epistemic state that the table admits makes the forgotten entity active again under its old id, as the
  -- next version, with the score, the count of accesses and the time of creation that it had.
  pub upsert_after_forget :
      (i : UpsertInput) (reason : Option String) (actor : String) (now later : ℕ)
      (s t : Store Score) (d : Entity Score)
      → IsValid s
      → forget i.vault_id i.category i.key reason actor now s ≡ ok (t, d)
      → is_incomplete one hash_of id_of i later t ≡ false
      → is_epistemic i.epistemic_state ≡ true
      → (u : Upserted Score) × (r : Store Score) × (upsert one hash_of id_of i later t ≡ ok (r, u))
        × (u.created ≡ false)
        × (u.changed ≡ true)
        × (u.entity.lifecycle_state ≡ active)
        × (u.entity.entity_id ≡ d.entity_id)
        × (u.entity.current_version ≡ d.current_version + 1)
        × (u.entity.created_at ≡ d.created_at)
        × (u.entity.access_count ≡ d.access_count)
        × (u.entity.decay_score ≡ d.decay_score)
  unfolding upsert
  upsert_after_forget i reason actor now later s t d v h good allowed =
      let (found, gone) = forget-keeps_row i.vault_id i.category i.key reason actor now s v h in
      let w = forget-IsValid i.vault_id i.category i.key reason actor now s v h in
      let other : is_same one hash_of id_of i later t d ≡ false = rw gone (ground arith) in
      (
        record {
          entity = revision one hash_of id_of i later t d found w d;
          created = false;
          changed = true;
        },
        revised_store one hash_of id_of i later t d found w,
        rw (good, found, other) (revise_entity-eq one hash_of id_of i later t d found w allowed),
        refl,
        refl,
        refl,
        refl,
        refl,
        refl,
        refl,
        refl,
      )
