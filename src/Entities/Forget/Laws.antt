-- ===== src/Entities/Forget/Laws.antt =====
-- What `forget` of entity-store.mjs promises on valid tables.
use memory_and_soul_passport.Prelude.{
  ℕ, ◌+◌, String, ◌≡◌, refl, sym, ap, subst, ◌∙◌, inl, inr, Option, some, [], ◌∷◌, ◌++◌, Bool, true,
  ◌||◌, arith, ◌==◌, find, find-All, Bool-cases, Option-cases,
}
use memory_and_soul_passport.Errors.{ok, err, type_error, not_found}
use memory_and_soul_passport.Entities.{
  Lifecycle, active, decayed, archived, forgotten, is_forgotten, Entity, Store, by_key, has_id,
  update_where,
}
use memory_and_soul_passport.Entities.Ledger.{newest, Agrees, HasLedger, IsValid, free_version}
use memory_and_soul_passport.Entities.Ledger.Writes.{next_version-IsValid}
use memory_and_soul_passport.Entities.Upsert.{find_by_id, find-update_where}
use memory_and_soul_passport.Entities.Upsert.Outcome.{insert_history-eq, any_of_find, ok-injective}
use memory_and_soul_passport.Entities.Forget.{
  forget_row, forget_history, reread_forgotten, forget_entity, forget,
}

is_forgotten-eq : (l : Lifecycle) → is_forgotten l ≡ true → l ≡ forgotten
is_forgotten-eq active h = cc
is_forgotten-eq decayed h = cc
is_forgotten-eq archived h = cc
is_forgotten-eq forgotten h = refl

module _ {Score : Type 0} (vault category key : String) (reason : Option String) (actor : String)
    (now : ℕ) (s : Store Score) where
  module _ (e : Entity Score) (found : find (by_key vault category key) s.entities ≡ some e)
      (v : IsValid s) where
    abbrev pub f : Entity Score → Entity Score
    f = forget_row (e.current_version + 1) now

    abbrev pub forgotten_store : Store Score
    forgotten_store = record s {
      entities = update_where e.entity_id f s.entities;
      history = s.history ++ forget_history e now reason actor ∷ [];
    }

    ledger : HasLedger s.history e
    ledger = find-All (by_key vault category key) (HasLedger s.history) s.entities v.ledgers found

    by_id : find (has_id e.entity_id) s.entities ≡ some e
    by_id = find_by_id (by_key vault category key) s.entities e v.ids found

    self : has_id e.entity_id e ≡ true
    self = ground arith

    -- Rows with one id have one content, that of the newest version.
    Agrees-forgotten :
        (x : Entity Score)
        → HasLedger s.history x
        → x.entity_id ≡ e.entity_id
        → Agrees (f x).content (forget_history e now reason actor).content
    Agrees-forgotten x k is =
        let same_newest : some k.last ≡ some ledger.last =
          sym k.is_last ∙ ap (λ id. newest id s.history) is ∙ ledger.is_last in
        let same : k.last ≡ ledger.last = cc in
        record {
          body = k.agrees.body ∙ ap (λ c. c.body) same ∙ sym ledger.agrees.body;
          epistemic_state =
              k.agrees.epistemic_state
              ∙ ap (λ c. c.epistemic_state) same
              ∙ sym ledger.agrees.epistemic_state;
          confidence =
              k.agrees.confidence ∙ ap (λ c. c.confidence) same ∙ sym ledger.agrees.confidence;
          valid_from =
              k.agrees.valid_from ∙ ap (λ c. c.valid_from) same ∙ sym ledger.agrees.valid_from;
          valid_to = refl;
          source_hash =
              k.agrees.source_hash ∙ ap (λ c. c.source_hash) same ∙ sym ledger.agrees.source_hash;
        }

    reread_there : find (has_id e.entity_id) (update_where e.entity_id f s.entities) ≡ some (f e)
    reread_there =
        find-update_where (has_id e.entity_id) e.entity_id f (λ x. refl) s.entities e by_id
        ∙ rw self refl

    key_there :
        find (by_key vault category key) (update_where e.entity_id f s.entities) ≡ some (f e)
    key_there =
        find-update_where (by_key vault category key) e.entity_id f (λ x. refl) s.entities e found
        ∙ rw self refl

    forget_entity-eq : forget_entity e now reason actor s ≡ ok (forgotten_store, f e)
    unfolding forget_entity reread_forgotten
    forget_entity-eq =
        rw
          (
            insert_history-eq (forget_history e now reason actor)
                (record s { entities = update_where e.entity_id f s.entities })
                (free_version e.entity_id e.current_version s.history ledger.complete),
            reread_forgotten,
            reread_there,
          )
          refl

    forgotten-IsValid : IsValid forgotten_store
    forgotten-IsValid =
        next_version-IsValid e f (forget_history e now reason actor) s
          (record {
            same_id = refl;
            next = refl;
            keeps = record {
              id = λ x. refl;
              vault = λ x. refl;
              category = λ x. refl;
              key = λ x. refl;
            };
            writes = λ x k is. (refl, Agrees-forgotten x k is);
          })
          (any_of_find (has_id e.entity_id) s.entities by_id) ledger v

  -- How a successful forget ended: it was forgotten before, or it is now.
  pub data Forgot (t : Store Score) (d : Entity Score) : Type 0 where
    before :
        find (by_key vault category key) s.entities ≡ some d
        → is_forgotten d.lifecycle_state ≡ true
        → t ≡ s
        → Forgot t d
    now_forgotten :
        (e : Entity Score) (found : find (by_key vault category key) s.entities ≡ some e)
        (v : IsValid s)
        → t ≡ forgotten_store e found v
        → d ≡ f e found v e
        → Forgot t d

  abbrev is_refused : Bool
  is_refused = vault == "" || actor == ""

  pub outcome :
      {t : Store Score} {d : Entity Score}
      → IsValid s
      → forget vault category key reason actor now s ≡ ok (t, d)
      → Forgot t d
  unfolding forget
  outcome {t} {d} v h = elim (Bool-cases is_refused) [
    | inl bad ↦
        let no : forget vault category key reason actor now s ≡ err type_error = rw bad refl in
        absurd cc
    | inr good ↦ elim (Option-cases (find (by_key vault category key) s.entities)) [
      | inl absent ↦
          let no : forget vault category key reason actor now s ≡ err not_found =
            rw (good, absent) refl in
          absurd cc
      | inr (e, found) ↦ elim (Bool-cases (is_forgotten e.lifecycle_state)) [
        | inl gone ↦
            let kept : forget vault category key reason actor now s ≡ ok (s, e) =
              rw (good, found, gone) refl in
            let (a, b) = ok-injective (sym h ∙ kept) in before (rw b found) (rw b gone) a
        | inr alive ↦
            let made : forget vault category key reason actor now s
                ≡ forget_entity e now reason actor s =
              rw (good, found, alive) refl in
            let (a, b) = ok-injective (sym h ∙ made ∙ forget_entity-eq e found v) in
            now_forgotten e found v a b
      ]
    ]
  ]

  -- A successful forget on valid tables leaves valid tables.
  pub forget-IsValid :
      {t : Store Score} {d : Entity Score}
      → IsValid s
      → forget vault category key reason actor now s ≡ ok (t, d)
      → IsValid t
  forget-IsValid v h = elim (outcome v h) [
    | before found gone is_t ↦ subst IsValid (sym is_t) v
    | now_forgotten e found w is_t is_d ↦ subst IsValid (sym is_t) (forgotten-IsValid e found w)
  ]

  -- After a successful forget on valid tables, the row with the key is still there and is forgotten.
  pub forget-keeps_row :
      {t : Store Score} {d : Entity Score}
      → IsValid s
      → forget vault category key reason actor now s ≡ ok (t, d)
      → (find (by_key vault category key) t.entities ≡ some d) × (d.lifecycle_state ≡ forgotten)
  forget-keeps_row v h = elim (outcome v h) [
    | before found gone is_t ↦ (rw is_t found, is_forgotten-eq _ gone)
    | now_forgotten e found w is_t is_d ↦ (rw (is_t, is_d) (key_there e found w), rw is_d refl)
  ]
