-- ===== src/Entities/Read/Written.antt =====
-- A write is read back.
use memory_and_soul_passport.Prelude.{
  ℕ, String, ◌≡◌, refl, ◌∙◌, true, false, some, arith, ◌==◌, find,
}
use memory_and_soul_passport.Json.{Json}
use memory_and_soul_passport.Temporal.{missing}
use memory_and_soul_passport.Errors.{ok}
use memory_and_soul_passport.Entities.{
  Entity, Store, UpsertInput, Upserted, by_key, upsert, hash_of_input,
}
use memory_and_soul_passport.Entities.Ledger.{IsValid}
use memory_and_soul_passport.Entities.Upsert.{find-update_where}
use memory_and_soul_passport.Entities.Upsert.Outcome.{
  unchanged, new_row, new_version, outcome, created_row, revision, last_of_append, self,
  is_incomplete,
}
use memory_and_soul_passport.Entities.Upsert.Laws.{upsert_complete}
use memory_and_soul_passport.Entities.Read.{current, get_entity}

module _ {Score : Type 0} where
  get_entity-found :
      (vault category key : String) (now₁ now₂ : ℕ) (s : Store Score) (e : Entity Score)
      → (vault == "") ≡ false
      → find (by_key vault category key) s.entities ≡ some e
      → get_entity vault category key missing missing now₁ now₂ s ≡ ok (current e)
  unfolding get_entity
  get_entity-found vault category key now₁ now₂ s e named found = rw (get_entity, named, found) refl

module _ {Score : Type 0} (one : Score) (hash_of : Json → String → Json → String)
    (id_of : String → String → String → String) (i : UpsertInput) (now : ℕ) (s : Store Score) where
  upsert-found :
      {t : Store Score} {u : Upserted Score}
      → IsValid s
      → upsert one hash_of id_of i now s ≡ ok (t, u)
      → (find (by_key i.vault_id i.category i.key) t.entities ≡ some u.entity)
        × (u.entity.content.source_hash ≡ hash_of_input one hash_of id_of i)
        × (u.changed ≡ true → u.entity.content.body ≡ i.body)
  upsert-found {t} {u} v h = elim (outcome one hash_of id_of i now s v h) [
    | unchanged e found same alive is_t is_u ↦ rw (is_t, is_u) (found, same, λ k. absurd cc)
    | new_row fresh free is_t is_u ↦
        let row = created_row one hash_of id_of i now s in
        rw (is_t, is_u)
          (
            last_of_append (by_key i.vault_id i.category i.key) s.entities row free (ground arith),
            refl,
            λ k. refl,
          )
    | new_version e found w is_t is_u ↦
        let f = revision one hash_of id_of i now s e found w in
        rw (is_t, is_u)
          (
            find-update_where (by_key i.vault_id i.category i.key) e.entity_id f (λ x. refl)
                  s.entities e found
                ∙ rw (self one hash_of id_of i now s e found w) refl,
            refl,
            λ k. refl,
          )
  ]

  -- After a successful upsert on valid tables, a read of the present of its vault, category and key
  -- finds the entity that the upsert returned, whose hash is that of the input and whose body is the
  -- input's, if the upsert reports a change.
  pub get_entity-upsert :
      {t : Store Score} {u : Upserted Score} (now₁ now₂ : ℕ)
      → IsValid s
      → upsert one hash_of id_of i now s ≡ ok (t, u)
      → (get_entity i.vault_id i.category i.key missing missing now₁ now₂ t ≡ ok (current u.entity))
        × (u.entity.content.source_hash ≡ hash_of_input one hash_of id_of i)
        × (u.changed ≡ true → u.entity.content.body ≡ i.body)
  get_entity-upsert {t} {u} now₁ now₂ v h =
      let (found, hash, body) = upsert-found v h in
      let whole : is_incomplete one hash_of id_of i now s ≡ false =
        upsert_complete one hash_of id_of i now s h in
      let named : (i.vault_id == "") ≡ false = ground arith in
      (get_entity-found i.vault_id i.category i.key now₁ now₂ t u.entity named found, hash, body)
