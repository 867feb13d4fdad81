-- ===== src/Entities/Upsert.antt =====
-- `upsert` of entity-store.mjs on valid tables: what its two writes leave.
pub mod Outcome
pub mod Laws
use memory_and_soul_passport.Prelude.{
  ℕ, zero, suc, ◌+◌, String, ◌≡◌, refl, sym, ap, subst, ◌∙◌, ◌≢◌, inl, inr, Option, none, some,
  List, [], ◌∷◌, ◌++◌, Bool, true, false, not, ◌&&◌, ◌||◌, arith, ◌==◌, find, find-All,
  find-IsSelected, find-append, find-eq-none_of_any, any_of_find-eq-none, any, any-append, All,
  All-mono, All-append, All_of_any, Pairwise, Pairwise-append_last, Bool-cases, if◌then◌else◌,
  dec_text,
}
use memory_and_soul_passport.Json.{Json}
use memory_and_soul_passport.Errors.{Result, ok, err, ◌>>=◌}
use memory_and_soul_passport.Entities.{
  Content, Entity, HistoryRow, Store, UpsertInput, Upserted, by_key, has_id, is_version,
  insert_entity, insert_history, update_where, reread, create_entity, revise, revise_entity, upsert,
  new_entity, history_row, content_of, or_default,
}
use memory_and_soul_passport.Entities.Ledger.{
  versions, up_to, newest, Agrees, DistinctIds, DistinctKeys, HasLedger, HasOwner, IsValid,
  versions-append, newest-append, versions_of_unowned, free_version, up_to-one,
}
use memory_and_soul_passport.Entities.Ledger.Writes.{KeepsKey, IsNextVersion, next_version-IsValid}

module _ {Score : Type 0} where
  -- The ids are a key: a row that any condition finds is found again by its id.
  pub find_by_id :
      (p : Entity Score → Bool) (es : List (Entity Score)) (e : Entity Score)
      → Pairwise DistinctIds es
      → find p es ≡ some e
      → find (has_id e.entity_id) es ≡ some e
  unfolding find
  find_by_id p [] e d h = cc
  find_by_id p (x ∷ es) e (a, d) h = elim (Bool-cases (p x)) [
    | inl here ↦ let same : x ≡ e = ground arith in ground (arith, same)
    | inr there ↦
        let rest : find p es ≡ some e = ground arith in
        let ne : x.entity_id ≢ e.entity_id =
          find-All p (λ y. x.entity_id ≢ y.entity_id) es a rest in
        ground (arith, find_by_id p es e d rest)
  ]

  -- An update that a condition does not see is found where the row was.
  pub find-update_where :
      (p : Entity Score → Bool) (id : String) (f : Entity Score → Entity Score)
      → ((x : Entity Score) → p (f x) ≡ p x)
      → (es : List (Entity Score)) (e : Entity Score) → find p es ≡ some e
      → find p (update_where id f es) ≡ some (if has_id id e then f e else e)
  unfolding find update_where
  find-update_where p id f k [] e h = cc
  find-update_where p id f k (x ∷ es) e h = elim (Bool-cases (p x)) [
    | inl here ↦ let same : x ≡ e = ground arith in let kx = k x in ground (arith, same)
    | inr there ↦
        let rest : find p es ≡ some e = ground arith in
        let kx = k x in ground (arith, find-update_where p id f k es e rest)
  ]

  -- A new row with its first version keeps the tables valid.
  module _ (e : Entity Score) (r : HistoryRow) (s : Store Score)
      (fresh : any (has_id e.entity_id) s.entities ≡ false)
      (free : any (by_key e.vault_id e.category e.key) s.entities ≡ false)
      (own : r.entity_id ≡ e.entity_id) (v : IsValid s) where
    other_ids : All (λ x. x.entity_id ≢ e.entity_id) s.entities
    other_ids =
        All-mono (λ x. has_id e.entity_id x ≡ false) (λ x. x.entity_id ≢ e.entity_id)
          (λ x h. ground arith) s.entities (All_of_any (has_id e.entity_id) s.entities fresh)

    old_ledger :
        (x : Entity Score)
        → x.entity_id ≢ e.entity_id
        → HasLedger s.history x
        → HasLedger (s.history ++ r ∷ []) x
    old_ledger x ne k =
        let foreign : (r.entity_id == x.entity_id) ≡ false = ground (arith, own) in
        record {
          complete = rw (versions-append x.entity_id s.history r, foreign) k.complete;
          last = k.last;
          is_last = rw (newest-append x.entity_id s.history r, foreign) k.is_last;
          agrees = k.agrees;
        }

    old_ledgers :
        (xs : List (Entity Score))
        → All (λ x. x.entity_id ≢ e.entity_id) xs
        → All (HasLedger s.history) xs
        → All (HasLedger (s.history ++ r ∷ [])) xs
    old_ledgers [] n k = tt
    old_ledgers (x ∷ xs) (n, ns) (k, ks) = (old_ledger x n k, old_ledgers xs ns ks)

    new_ledger :
        e.current_version ≡ 1
        → r.version ≡ 1
        → Agrees e.content r.content
        → HasLedger (s.history ++ r ∷ []) e
    new_ledger one first agree =
        let here : (r.entity_id == e.entity_id) ≡ true = ground (arith, own) in
        record {
          complete =
              rw
                (
                  versions-append e.entity_id s.history r,
                  here,
                  one,
                  first,
                  versions_of_unowned e.entity_id s.entities s.history fresh v.owned,
                )
                (sym up_to-one);
          last = r.content;
          is_last = rw (newest-append e.entity_id s.history r, here) refl;
          agrees = agree;
        }

    still_owned : (x : HistoryRow) → HasOwner s.entities x → HasOwner (s.entities ++ e ∷ []) x
    still_owned x h = rw (any-append (has_id x.entity_id) s.entities (e ∷ []), h) refl

    pub new_row-IsValid :
        e.current_version ≡ 1
        → r.version ≡ 1
        → Agrees e.content r.content
        → IsValid (record s { entities = s.entities ++ e ∷ []; history = s.history ++ r ∷ [] })
    unfolding any
    new_row-IsValid one first agree = record {
      ids = Pairwise-append_last DistinctIds s.entities e v.ids other_ids;
      keys =
          Pairwise-append_last DistinctKeys s.entities e v.keys
            (All_of_any (by_key e.vault_id e.category e.key) s.entities free);
      ledgers =
          All-append (HasLedger (s.history ++ r ∷ [])) s.entities (e ∷ [])
            (old_ledgers s.entities other_ids v.ledgers) (new_ledger one first agree, tt);
      owned =
          All-append (HasOwner (s.entities ++ e ∷ [])) s.history (r ∷ [])
            (All-mono (HasOwner s.entities) (HasOwner (s.entities ++ e ∷ [])) still_owned s.history
              v.owned)
            (rw (any-append (has_id r.entity_id) s.entities (e ∷ [])) (ground (arith, own)), tt);
    }
