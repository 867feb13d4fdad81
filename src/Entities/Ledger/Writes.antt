-- ===== src/Entities/Ledger/Writes.antt =====
-- The writes that keep the invariant: a new row with its first version, and a new version.
use memory_and_soul_passport.Prelude.{
  ◌+◌, String, ◌≡◌, refl, sym, ◌∙◌, inl, inr, List, [], ◌∷◌, ◌++◌, Bool, true, false, arith, ◌==◌,
  any, All, All-mono, All-append, Pairwise, Bool-cases, if◌then◌else◌,
}
use memory_and_soul_passport.Entities.{Entity, HistoryRow, Store, has_id, update_where}
use memory_and_soul_passport.Entities.Ledger.{
  Agrees, DistinctIds, DistinctKeys, HasLedger, HasOwner, IsValid, versions-append, newest-append,
  up_to-add_one,
}

module _ {Score : Type 0} (id : String) (f : Entity Score → Entity Score) where
  abbrev updated : Entity Score → Entity Score
  updated e = if has_id id e then f e else e

  pub All-update_where :
      (P Q : Entity Score → Type 0)
      → ((e : Entity Score) → P e → Q (updated e))
      → (es : List (Entity Score)) → All P es
      → All Q (update_where id f es)
  unfolding update_where
  All-update_where P Q g [] h = tt
  All-update_where P Q g (e ∷ es) (p, h) = (g e p, All-update_where P Q g es h)

  pub Pairwise-update_where :
      (R : Entity Score → Entity Score → Type 0)
      → ((d e : Entity Score) → R d e → R (updated d) (updated e))
      → (es : List (Entity Score)) → Pairwise R es
      → Pairwise R (update_where id f es)
  unfolding update_where
  Pairwise-update_where R g [] p = tt
  Pairwise-update_where R g (e ∷ es) (h, p) =
      (All-update_where (R e) (R (updated e)) (g e) es h, Pairwise-update_where R g es p)

  pub any-update_where :
      (p : Entity Score → Bool)
      → ((e : Entity Score) → p (updated e) ≡ p e)
      → (es : List (Entity Score)) → any p (update_where id f es) ≡ any p es
  unfolding any update_where
  any-update_where p g [] = refl
  any-update_where p g (e ∷ es) = rw (g e, any-update_where p g es)

-- An update that leaves the id and the key of a row.
pub record KeepsKey {Score : Type 0} (f : Entity Score → Entity Score) : Type 0 where
  pub id : (e : Entity Score) → (f e).entity_id ≡ e.entity_id
  pub vault : (e : Entity Score) → (f e).vault_id ≡ e.vault_id
  pub category : (e : Entity Score) → (f e).category ≡ e.category
  pub key : (e : Entity Score) → (f e).key ≡ e.key

module _ {Score : Type 0} (id : String) (f : Entity Score → Entity Score) (keeps : KeepsKey f) where
  updated_id : (e : Entity Score) → (updated id f e).entity_id ≡ e.entity_id
  updated_id e = ground (arith, keeps.id e)

  updated_key :
      (e : Entity Score)
      → ((updated id f e).vault_id ≡ e.vault_id)
        × ((updated id f e).category ≡ e.category)
        × ((updated id f e).key ≡ e.key)
  updated_key e = ground (arith, keeps.vault e, keeps.category e, keeps.key e)

  pub DistinctIds-update_where :
      (es : List (Entity Score))
      → Pairwise DistinctIds es
      → Pairwise DistinctIds (update_where id f es)
  DistinctIds-update_where es p =
      Pairwise-update_where id f DistinctIds
        (λ d e ne same. ne (sym (updated_id d) ∙ same ∙ updated_id e)) es p

  pub DistinctKeys-update_where :
      (es : List (Entity Score))
      → Pairwise DistinctKeys es
      → Pairwise DistinctKeys (update_where id f es)
  DistinctKeys-update_where es p =
      Pairwise-update_where id f DistinctKeys
        (λ d e h.
          let (a, b, c) = updated_key d in
          let (a', b', c') = updated_key e in rw (a, b, c, a', b', c') h)
        es p

  pub HasOwner-update_where :
      (es : List (Entity Score)) (rs : List HistoryRow)
      → All (HasOwner es) rs
      → All (HasOwner (update_where id f es)) rs
  HasOwner-update_where es rs o =
      All-mono (HasOwner es) (HasOwner (update_where id f es))
        (λ r h. any-update_where id f (has_id r.entity_id) (λ e. rw (updated_id e)) es ∙ h) rs o

module _ {Score : Type 0} (e : Entity Score) (f : Entity Score → Entity Score) (r : HistoryRow)
    (s : Store Score) where
  -- What a new version of `e` must write: the next number, and the same content in both tables.
  pub record IsNextVersion : Type 0 where
    pub same_id : r.entity_id ≡ e.entity_id
    pub next : r.version ≡ e.current_version + 1
    pub keeps : KeepsKey f
    pub writes :
        (x : Entity Score)
        → HasLedger s.history x
        → x.entity_id ≡ e.entity_id
        → ((f x).current_version ≡ e.current_version + 1) × Agrees (f x).content r.content

  -- The row that is written gets one more version.
  next_ledger_here :
      IsNextVersion
      → HasLedger s.history e
      → (x : Entity Score) → HasLedger s.history x
      → x.entity_id ≡ e.entity_id
      → HasLedger (s.history ++ r ∷ []) (f x)
  next_ledger_here n l x k is =
      let (at_next, agree) = n.writes x k is in
      let id : (f x).entity_id ≡ e.entity_id = n.keeps.id x ∙ is in
      let own : (r.entity_id == e.entity_id) ≡ true = ground (arith, n.same_id) in
      record {
        complete =
            rw (id, at_next, versions-append e.entity_id s.history r, own, l.complete, n.next)
              (sym (up_to-add_one e.current_version));
        last = r.content;
        is_last = rw (id, newest-append e.entity_id s.history r, own) refl;
        agrees = agree;
      }

  -- The ledger of every other row is as before.
  next_ledger_there :
      IsNextVersion
      → (x : Entity Score) → HasLedger s.history x
      → (x.entity_id == e.entity_id) ≡ false
      → HasLedger (s.history ++ r ∷ []) x
  next_ledger_there n x k other =
      let same_id = n.same_id in
      let foreign : (r.entity_id == x.entity_id) ≡ false = ground arith in
      record {
        complete = rw (versions-append x.entity_id s.history r, foreign) k.complete;
        last = k.last;
        is_last = rw (newest-append x.entity_id s.history r, foreign) k.is_last;
        agrees = k.agrees;
      }

  next_ledger :
      IsNextVersion
      → HasLedger s.history e
      → (x : Entity Score) → HasLedger s.history x
      → HasLedger (s.history ++ r ∷ []) (updated e.entity_id f x)
  next_ledger n l x k = elim (Bool-cases (x.entity_id == e.entity_id)) [
    | inl same ↦
        let is : x.entity_id ≡ e.entity_id = ground arith in rw same (next_ledger_here n l x k is)
    | inr other ↦ rw other (next_ledger_there n x k other)
  ]

  pub next_version-IsValid :
      IsNextVersion
      → any (has_id e.entity_id) s.entities ≡ true
      → HasLedger s.history e
      → IsValid s
      → IsValid (record s {
        entities = update_where e.entity_id f s.entities;
        history = s.history ++ r ∷ [];
      })
  next_version-IsValid n there l v = record {
    ids = DistinctIds-update_where e.entity_id f n.keeps s.entities v.ids;
    keys = DistinctKeys-update_where e.entity_id f n.keeps s.entities v.keys;
    ledgers =
        All-update_where e.entity_id f (HasLedger s.history) (HasLedger (s.history ++ r ∷ []))
          (next_ledger n l) s.entities v.ledgers;
    owned =
        HasOwner-update_where e.entity_id f n.keeps s.entities (s.history ++ r ∷ [])
          (All-append (HasOwner s.entities) s.history (r ∷ []) v.owned (rw n.same_id there, tt));
  }
