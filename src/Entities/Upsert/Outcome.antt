-- ===== src/Entities/Upsert/Outcome.antt =====
-- The ways in which `upsert` of entity-store.mjs ends on valid tables.
use memory_and_soul_passport.Prelude.{
  ℕ, ◌+◌, String, ◌≡◌, refl, sym, ◌∙◌, inl, inr, some, List, [], ◌∷◌, ◌++◌, Bool, true, false, not,
  ◌&&◌, ◌||◌, arith, ◌==◌, find, find-All, find-append, find-eq-none_of_any, any_of_find-eq-none,
  any, Bool-cases, Option-cases,
}
use memory_and_soul_passport.Json.{Json}
use memory_and_soul_passport.Errors.{Result, ok, err, type_error, guard-eq-ok}
use memory_and_soul_passport.Entities.{
  is_forgotten, Entity, HistoryRow, Store, UpsertInput, Upserted, by_key, has_id, is_version,
  insert_entity, insert_history, update_where, reread, create_entity, revise, revise_entity, upsert,
  new_entity, history_row, content_of, or_default, hash_of_input, is_epistemic, has_vault,
}
use memory_and_soul_passport.Entities.Ledger.{
  HasLedger, IsValid, versions_of_unowned, free_version, up_to-zero,
}
use memory_and_soul_passport.Entities.Ledger.Writes.{next_version-IsValid}
use memory_and_soul_passport.Entities.Upsert.{find_by_id, find-update_where, new_row-IsValid}

pub ok-injective :
    {A B : Type 0} {a a' : A} {b b' : B}
    → ◌≡◌ {A = Result (A × B)} (ok (a, b)) (ok (a', b'))
    → (a ≡ a') × (b ≡ b')
ok-injective h = (cc, cc)

module _ {Score : Type 0} where
  insert_entity-eq :
      (e : Entity Score) (s : Store Score)
      → any (has_id e.entity_id) s.entities ≡ false
      → any (by_key e.vault_id e.category e.key) s.entities ≡ false
      → is_epistemic e.content.epistemic_state ≡ true
      → has_vault e.vault_id s ≡ true
      → insert_entity e s ≡ ok (record s { entities = s.entities ++ e ∷ [] })
  unfolding insert_entity
  insert_entity-eq e s fresh free allowed known = rw (allowed, fresh, free, known) refl

  pub insert_history-eq :
      (r : HistoryRow) (s : Store Score)
      → any (is_version r.entity_id r.version) s.history ≡ false
      → insert_history r s ≡ ok (record s { history = s.history ++ r ∷ [] })
  unfolding insert_history
  insert_history-eq r s free = rw free refl

  reread-eq :
      (id : String) (b : Bool) (s : Store Score) (e : Entity Score)
      → find (has_id id) s.entities ≡ some e
      → reread id b s ≡ ok (s, record { entity = e; created = b; changed = true })
  unfolding reread
  reread-eq id b s e h = rw (reread, h) refl

  first_free :
      (id : String) (s : Store Score)
      → any (has_id id) s.entities ≡ false
      → IsValid s
      → any (is_version id 1) s.history ≡ false
  first_free id s fresh v =
      free_version id 0 s.history
        (versions_of_unowned id s.entities s.history fresh v.owned ∙ sym up_to-zero)

  pub any_of_find :
      (p : Entity Score → Bool) (es : List (Entity Score)) {e : Entity Score}
      → find p es ≡ some e
      → any p es ≡ true
  unfolding find any
  any_of_find p [] h = cc
  any_of_find p (x ∷ es) {e} h = ground (arith, any_of_find p es {e = e})

  pub last_of_append :
      (p : Entity Score → Bool) (es : List (Entity Score)) (e : Entity Score)
      → any p es ≡ false
      → p e ≡ true
      → find p (es ++ e ∷ []) ≡ some e
  unfolding find
  last_of_append p es e h q = rw (find-append p es (e ∷ []), find-eq-none_of_any p es h, q) refl

module _ {Score : Type 0} (one : Score) (hash_of : Json → String → Json → String)
    (id_of : String → String → String → String) (i : UpsertInput) (now : ℕ) (s : Store Score) where
  abbrev pub id : String
  id = id_of i.vault_id i.category i.key

  abbrev pub created_row : Entity Score
  created_row = new_entity one hash_of id_of i now

  abbrev pub first_version : HistoryRow
  first_version =
      history_row one hash_of id_of id 1 (content_of one hash_of id_of i now)
        (or_default i.reason "initial") i.actor

  abbrev pub created_store : Store Score
  created_store = record s {
    entities = s.entities ++ created_row ∷ [];
    history = s.history ++ first_version ∷ [];
  }

  -- The new row is written when its id and its key are free.
  pub create_entity-eq :
      any (has_id id) s.entities ≡ false
      → any (by_key i.vault_id i.category i.key) s.entities ≡ false
      → is_epistemic i.epistemic_state ≡ true
      → has_vault i.vault_id s ≡ true
      → IsValid s
      → create_entity one hash_of id_of i now s
        ≡ ok (created_store, record { entity = created_row; created = true; changed = true })
  unfolding create_entity
  create_entity-eq fresh free allowed known v =
      rw
        (
          insert_entity-eq created_row s fresh free allowed known,
          insert_history-eq first_version (record s { entities = s.entities ++ created_row ∷ [] })
              (first_free id s fresh v),
          reread-eq id true created_store created_row
              (last_of_append (has_id id) s.entities created_row fresh (ground arith)),
        )
        refl

  pub created-IsValid :
      any (has_id id) s.entities ≡ false
      → any (by_key i.vault_id i.category i.key) s.entities ≡ false
      → IsValid s
      → IsValid created_store
  created-IsValid fresh free v =
      new_row-IsValid created_row first_version s fresh free refl v refl refl (record {
        body = refl;
        epistemic_state = refl;
        confidence = refl;
        valid_from = refl;
        valid_to = refl;
        source_hash = refl;
      })

  module _ (e : Entity Score)
      (found : find (by_key i.vault_id i.category i.key) s.entities ≡ some e) (v : IsValid s) where
    abbrev pub version : ℕ
    version = e.current_version + 1

    abbrev pub revision : Entity Score → Entity Score
    revision = revise one hash_of id_of (content_of one hash_of id_of i now) version now

    abbrev pub next_row : HistoryRow
    next_row =
        history_row one hash_of id_of e.entity_id version (content_of one hash_of id_of i now)
          (or_default i.reason "update") i.actor

    abbrev pub revised_store : Store Score
    revised_store = record s {
      entities = update_where e.entity_id revision s.entities;
      history = s.history ++ next_row ∷ [];
    }

    ledger : HasLedger s.history e
    ledger =
        find-All (by_key i.vault_id i.category i.key) (HasLedger s.history) s.entities v.ledgers
          found

    by_id : find (has_id e.entity_id) s.entities ≡ some e
    by_id = find_by_id (by_key i.vault_id i.category i.key) s.entities e v.ids found

    pub self : has_id e.entity_id e ≡ true
    self = ground arith

    pub revise_entity-eq :
        is_epistemic i.epistemic_state ≡ true
        → revise_entity one hash_of id_of i now e s
          ≡ ok (revised_store, record { entity = revision e; created = false; changed = true })
    unfolding revise_entity
    revise_entity-eq allowed =
        rw
          (
            allowed,
            insert_history-eq next_row
                (record s { entities = update_where e.entity_id revision s.entities })
                (free_version e.entity_id e.current_version s.history ledger.complete),
            reread-eq e.entity_id false revised_store (revision e) (
                find-update_where (has_id e.entity_id) e.entity_id revision (λ x. refl) s.entities e
                  by_id
                ∙ rw self refl),
          )
          refl

    pub revised-IsValid : IsValid revised_store
    revised-IsValid =
        next_version-IsValid e revision next_row s
          (record {
            same_id = refl;
            next = refl;
            keeps = record {
              id = λ x. refl;
              vault = λ x. refl;
              category = λ x. refl;
              key = λ x. refl;
            };
            writes = λ x k is. (
              refl,
              record {
                body = refl;
                epistemic_state = refl;
                confidence = refl;
                valid_from = refl;
                valid_to = refl;
                source_hash = refl;
              },
            );
          })
          (any_of_find (has_id e.entity_id) s.entities by_id) ledger v

  -- How a successful upsert ended: unchanged, a new row, or a new version.
  pub data Outcome (t : Store Score) (u : Upserted Score) : Type 0 where
    unchanged :
        (e : Entity Score)
        → find (by_key i.vault_id i.category i.key) s.entities ≡ some e
        → e.content.source_hash ≡ hash_of_input one hash_of id_of i
        → is_forgotten e.lifecycle_state ≡ false
        → t ≡ s
        → u ≡ record { entity = e; created = false; changed = false }
        → Outcome t u
    new_row :
        any (has_id id) s.entities ≡ false
        → any (by_key i.vault_id i.category i.key) s.entities ≡ false
        → t ≡ created_store
        → u ≡ record { entity = created_row; created = true; changed = true }
        → Outcome t u
    new_version :
        (e : Entity Score) (found : find (by_key i.vault_id i.category i.key) s.entities ≡ some e)
        (v : IsValid s)
        → t ≡ revised_store e found v
        → u ≡ record { entity = revision e found v e; created = false; changed = true }
        → Outcome t u

  abbrev pub is_incomplete : Bool
  is_incomplete = i.vault_id == "" || i.category == "" || i.key == "" || i.actor == ""

  abbrev pub is_same : Entity Score → Bool
  is_same e =
      e.content.source_hash == hash_of_input one hash_of id_of i
      && not (is_forgotten e.lifecycle_state)

  -- A new row is refused unless its state and its vault are known.
  create_checked :
      {t : Store Score} {u : Upserted Score}
      → create_entity one hash_of id_of i now s ≡ ok (t, u)
      → (is_epistemic i.epistemic_state ≡ true)
        × (any (has_id id) s.entities ≡ false)
        × (has_vault i.vault_id s ≡ true)
  unfolding create_entity insert_entity
  create_checked {t} {u} made = elim (Bool-cases (is_epistemic i.epistemic_state)) [
    | inr bad ↦ let k = rw bad at made in absurd cc
    | inl allowed ↦ elim (Bool-cases (any (has_id id) s.entities)) [
      | inl taken ↦ let k = rw (allowed, taken) at made in absurd cc
      | inr fresh ↦ elim (Bool-cases (any (by_key i.vault_id i.category i.key) s.entities)) [
        | inl double ↦ let k = rw (allowed, fresh, double) at made in absurd cc
        | inr free ↦ elim (Bool-cases (has_vault i.vault_id s)) [
          | inr unknown ↦ let k = rw (allowed, fresh, free, unknown) at made in absurd cc
          | inl known ↦ (allowed, fresh, known)
        ]
      ]
    ]
  ]

  -- A revision is refused unless its state is known.
  revise_checked :
      (e : Entity Score) {t : Store Score} {u : Upserted Score}
      → revise_entity one hash_of id_of i now e s ≡ ok (t, u)
      → is_epistemic i.epistemic_state ≡ true
  unfolding revise_entity
  revise_checked e made = (guard-eq-ok (is_epistemic i.epistemic_state) _ _ made).0

  Outcome-new :
      {t : Store Score} {u : Upserted Score}
      → IsValid s
      → any (by_key i.vault_id i.category i.key) s.entities ≡ false
      → create_entity one hash_of id_of i now s ≡ ok (t, u)
      → Outcome t u
  Outcome-new {t} {u} v free made =
      let (allowed, fresh, known) = create_checked made in
      let (a, b) = ok-injective (sym made ∙ create_entity-eq fresh free allowed known v) in
      new_row fresh free a b

  pub outcome :
      {t : Store Score} {u : Upserted Score}
      → IsValid s
      → upsert one hash_of id_of i now s ≡ ok (t, u)
      → Outcome t u
  unfolding upsert
  outcome {t} {u} v h = elim (Bool-cases is_incomplete) [
    | inl bad ↦
        let no : upsert one hash_of id_of i now s ≡ err type_error = rw bad refl in absurd cc
    | inr good ↦ elim (Option-cases (find (by_key i.vault_id i.category i.key) s.entities)) [
      | inl absent ↦
          let free = any_of_find-eq-none (by_key i.vault_id i.category i.key) s.entities absent in
          let made : create_entity one hash_of id_of i now s ≡ ok (t, u) =
            sym (rw (good, absent) refl) ∙ h in
          Outcome-new v free made
      | inr (e, found) ↦ elim (Bool-cases (is_same e)) [
        | inl same ↦
            let kept : upsert one hash_of id_of i now s
                ≡ ok (s, record { entity = e; created = false; changed = false }) =
              rw (good, found, same) refl in
            let (a, b) = ok-injective (sym h ∙ kept) in
            let hash : e.content.source_hash ≡ hash_of_input one hash_of id_of i = ground arith in
            let alive : is_forgotten e.lifecycle_state ≡ false = ground arith in
            unchanged e found hash alive a b
        | inr other ↦
            let made : revise_entity one hash_of id_of i now e s ≡ ok (t, u) =
              sym (rw (good, found, other) refl) ∙ h in
            let allowed = revise_checked e made in
            let (a, b) = ok-injective (sym made ∙ revise_entity-eq e found v allowed) in
            new_version e found v a b
      ]
    ]
  ]
