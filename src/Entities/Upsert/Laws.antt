-- ===== src/Entities/Upsert/Laws.antt =====
-- What `upsert` of entity-store.mjs promises on valid tables.
use memory_and_soul_passport.Prelude.{
  ℕ, ◌≤◌, String, ◌≡◌, refl, sym, ap, subst, ◌∙◌, ◌⊎◌, inl, inr, some, List, [], ◌∷◌, ◌++◌, length,
  true, false, arith, find, any, Bool-cases, Option-cases, any_of_find-eq-none,
}
use memory_and_soul_passport.Json.{Json}
use memory_and_soul_passport.Errors.{ok, err, is_ok, type_error}
use memory_and_soul_passport.Entities.{
  Entity, HistoryRow, Store, UpsertInput, Upserted, by_key, has_id, upsert, update_where,
  is_epistemic, has_vault,
}
use memory_and_soul_passport.Entities.Ledger.{IsValid}
use memory_and_soul_passport.Entities.Upsert.{find-update_where}
use memory_and_soul_passport.Entities.Upsert.Outcome.{
  created_row, created_store, revision, next_row, is_incomplete, is_same, created-IsValid,
  revised-IsValid, create_entity-eq, revise_entity-eq, unchanged, new_row, new_version, outcome,
  last_of_append, self, first_version,
}

append-[] : {A : Type 0} (xs : List A) → xs ≡ xs ++ []
append-[] [] = refl
append-[] (x ∷ xs) = ap (λ ys. x ∷ ys) (append-[] xs)

changed_absurd :
    {Score : Type 0} {u w : Upserted Score} → u ≡ w → w.changed ≡ true → u.changed ≡ false → ⊥
changed_absurd {u = u} {w = w} h is_changed is_not =
    let same : u.changed ≡ w.changed = ap (λ x. x.changed) h in cc

module _ {Score : Type 0} (one : Score) (hash_of : Json → String → Json → String)
    (id_of : String → String → String → String) (i : UpsertInput) (now : ℕ) (s : Store Score) where
  -- A successful upsert on valid tables leaves valid tables: distinct ids and keys, for every row
  -- the versions 1, 2, ..., its current one, the newest with the content of the row, and no
  -- version without its row.
  pub upsert-IsValid :
      {t : Store Score} {u : Upserted Score}
      → IsValid s
      → upsert one hash_of id_of i now s ≡ ok (t, u)
      → IsValid t
  upsert-IsValid {t} {u} v h = elim (outcome one hash_of id_of i now s v h) [
    | unchanged e found same alive is_t is_u ↦ subst IsValid (sym is_t) v
    | new_row fresh free is_t is_u ↦
        subst IsValid (sym is_t) (created-IsValid one hash_of id_of i now s fresh free v)
    | new_version e found w is_t is_u ↦
        subst IsValid (sym is_t) (revised-IsValid one hash_of id_of i now s e found w)
  ]

  -- A successful upsert on valid tables only appends to the history, one row at most, and one
  -- that reports no change has changed nothing.
  pub upsert-Appends :
      {t : Store Score} {u : Upserted Score}
      → IsValid s
      → upsert one hash_of id_of i now s ≡ ok (t, u)
      → ((rows : List HistoryRow) × (t.history ≡ s.history ++ rows) × length rows ≤ 1)
        × (u.changed ≡ false → t ≡ s)
  upsert-Appends {t} {u} v h = elim (outcome one hash_of id_of i now s v h) [
    | unchanged e found same alive is_t is_u ↦
        (([], ap (λ x. x.history) is_t ∙ append-[] s.history, omega arith), λ _. is_t)
    | new_row fresh free is_t is_u ↦ (
      (first_version one hash_of id_of i now s ∷ [], ap (λ x. x.history) is_t, omega arith),
      λ no. absurd (changed_absurd is_u refl no),
    )
    | new_version e found w is_t is_u ↦ (
      (next_row one hash_of id_of i now s e found w ∷ [], ap (λ x. x.history) is_t, omega arith),
      λ no. absurd (changed_absurd is_u refl no),
    )
  ]

  pub upsert_complete :
      {t : Store Score} {u : Upserted Score}
      → upsert one hash_of id_of i now s ≡ ok (t, u)
      → is_incomplete one hash_of id_of i now s ≡ false
  unfolding upsert
  upsert_complete h = elim (Bool-cases (is_incomplete one hash_of id_of i now s)) [
    | inl bad ↦
        let no : upsert one hash_of id_of i now s ≡ err type_error = rw bad refl in absurd cc
    | inr good ↦ good
  ]

  -- An entity with the content of the input is left as it is.
  upsert_same :
      (t : Store Score) (e : Entity Score) (later : ℕ)
      → is_incomplete one hash_of id_of i now s ≡ false
      → find (by_key i.vault_id i.category i.key) t.entities ≡ some e
      → is_same one hash_of id_of i now s e ≡ true
      → upsert one hash_of id_of i later t
        ≡ ok (t, record { entity = e; created = false; changed = false })
  unfolding upsert
  upsert_same t e later good found same = rw (good, found, same) refl

  -- After a successful upsert on valid tables, the same upsert at any time finds the entity that
  -- the first one returned, reports that it neither created nor changed it, and writes nothing.
  pub upsert_twice :
      {t : Store Score} {u : Upserted Score} (later : ℕ)
      → IsValid s
      → upsert one hash_of id_of i now s ≡ ok (t, u)
      → upsert one hash_of id_of i later t
        ≡ ok (t, record { entity = u.entity; created = false; changed = false })
  upsert_twice {t} {u} later v h =
      let good = upsert_complete h in
      elim (outcome one hash_of id_of i now s v h) [
        | unchanged e found same alive is_t is_u ↦
            rw (is_t, is_u) (upsert_same s e later good found (ground arith))
        | new_row fresh free is_t is_u ↦
            rw (is_t, is_u)
              (upsert_same (created_store one hash_of id_of i now s)
                (created_row one hash_of id_of i now s) later good
                (last_of_append (by_key i.vault_id i.category i.key) s.entities
                  (created_row one hash_of id_of i now s) free (ground arith))
                (ground arith))
        | new_version e found w is_t is_u ↦
            let f = revision one hash_of id_of i now s e found w in
            let there : find (by_key i.vault_id i.category i.key)
                  (update_where e.entity_id f s.entities)
                ≡ some (f e) =
              find-update_where (by_key i.vault_id i.category i.key) e.entity_id f (λ x. refl)
                s.entities e found
              ∙ rw (self one hash_of id_of i now s e found w) refl in
            rw (is_t, is_u)
              (upsert_same
                (record s {
                  entities = update_where e.entity_id f s.entities;
                  history = s.history ++ next_row one hash_of id_of i now s e found w ∷ [];
                })
                (f e) later good there (ground arith))
      ]

  -- On valid tables an upsert with a vault, a category, a key and an actor succeeds, where the vault is
  -- in the table of vaults and the epistemic state is one of the four that the table admits, unless
  -- its key is new and another key has its id.
  pub upsert_succeeds :
      IsValid s
      → is_incomplete one hash_of id_of i now s ≡ false
      → is_epistemic i.epistemic_state ≡ true
      → has_vault i.vault_id s ≡ true
      → any (has_id (id_of i.vault_id i.category i.key)) s.entities ≡ false
        ⊎ any (by_key i.vault_id i.category i.key) s.entities ≡ true
      → is_ok (upsert one hash_of id_of i now s) ≡ true
  unfolding upsert
  upsert_succeeds v good allowed known free =
      elim (Option-cases (find (by_key i.vault_id i.category i.key) s.entities)) [
        | inl absent ↦
            let key_free =
              any_of_find-eq-none (by_key i.vault_id i.category i.key) s.entities absent in
            let fresh : any (has_id (id_of i.vault_id i.category i.key)) s.entities ≡ false =
              ground arith in
            rw
              (
                good,
                absent,
                create_entity-eq one hash_of id_of i now s fresh key_free allowed known v,
              )
              refl
        | inr (e, found) ↦ elim (Bool-cases (is_same one hash_of id_of i now s e)) [
          | inl same ↦ rw (good, found, same) refl
          | inr other ↦
              rw (good, found, other, revise_entity-eq one hash_of id_of i now s e found v allowed)
                refl
        ]
      ]
