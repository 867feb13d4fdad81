-- ===== src/Entities/Read/History.antt =====
-- What the reads find: the row with the key, and its ledger.
use memory_and_soul_passport.Prelude.{
  ℕ, zero, suc, ◌<◌, String, ◌≡◌, refl, sym, ap, ◌∙◌, subst, inl, inr, Bool, false, ◌&&◌, Option,
  none, some, List, [], ◌∷◌, ◌++◌, arith, ◌==◌, find, find-All, select, map, All, All-append,
  Pairwise, Pairwise-append_last, Bool-cases, Option-cases,
}
use memory_and_soul_passport.Errors.{ok}
use memory_and_soul_passport.Temporal.{Stamp, is_falsy}
use memory_and_soul_passport.Entities.{Entity, HistoryRow, Store, by_key}
use memory_and_soul_passport.Entities.Ledger.{versions, up_to, DistinctKeys, HasLedger, IsValid}
use memory_and_soul_passport.Entities.Read.{
  current, point_in_time, visible_version, history_asc, get_entity, of_entity, insert_by_version,
  sort_by_version, reverse_rows, history_of,
}

module _ {Score : Type 0} where
  point_in_time_past :
      (e e' : Entity Score) (r : Option HistoryRow) → ok (point_in_time e r) ≡ ok (current e') → ⊥
  point_in_time_past e e' none h = cc
  point_in_time_past e e' (some r) h = cc

  -- What `get` calls the current row is the row with the key.
  pub get_entity-eq_current :
      (vault category key : String) (valid recorded : Stamp) (now₁ now₂ : ℕ) (s : Store Score)
      (e : Entity Score)
      → get_entity vault category key valid recorded now₁ now₂ s ≡ ok (current e)
      → find (by_key vault category key) s.entities ≡ some e
  unfolding get_entity
  get_entity-eq_current vault category key valid recorded now₁ now₂ s e h =
      elim (Bool-cases (vault == "")) [
        | inl blank ↦ let k = rw (get_entity, blank) at h in absurd cc
        | inr named ↦ elim (Option-cases (find (by_key vault category key) s.entities)) [
          | inl absent ↦ let k = rw (get_entity, named, absent) at h in absurd cc
          | inr (x, found) ↦ elim (Bool-cases (is_falsy valid && is_falsy recorded)) [
            | inl now ↦ let k = rw (get_entity, named, found, now) at h in found ∙ cc
            | inr past ↦ absurd (
                point_in_time_past x e
                  (visible_version valid recorded now₁ now₂ (history_asc x.entity_id s.history))
                  (rw (get_entity, named, found, past) at h))
          ]
        ]
      ]

  -- The keys are a key: a row is found again by its own key.
  pub find-by_key :
      (p : Entity Score → Bool) (es : List (Entity Score)) (e : Entity Score)
      → Pairwise DistinctKeys es
      → find p es ≡ some e
      → find (by_key e.vault_id e.category e.key) es ≡ some e
  unfolding find
  find-by_key p [] e d h = cc
  find-by_key p (x ∷ es) e (a, d) h = elim (Bool-cases (p x)) [
    | inl here ↦ let same : x ≡ e = ground arith in ground (arith, same)
    | inr there ↦
        let rest : find p es ≡ some e = ground arith in
        let other : by_key e.vault_id e.category e.key x ≡ false =
          find-All p (λ y. by_key y.vault_id y.category y.key x ≡ false) es a rest in
        rw other (find-by_key p es e d rest)
  ]

-- The versions of some rows, in their order.
abbrev pub versions_of : List HistoryRow → List ℕ
versions_of rows = map (λ r. r.version) rows

abbrev Ascend : List ℕ → Type 0
Ascend vs = Pairwise (λ v w. v < w) vs

versions_of-select :
    (id : String) (rows : List HistoryRow)
    → versions_of (select (of_entity id) rows) ≡ versions id rows
unfolding select versions
versions_of-select id [] = refl
versions_of-select id (r ∷ rows) = ground (arith, versions_of-select id rows)

up_to-below : (n m : ℕ) → n < m → All (λ v. v < m) (up_to n)
unfolding up_to
up_to-below zero m h = tt
up_to-below (suc n) m h =
    All-append (λ v. v < m) (up_to n) (suc n ∷ []) (up_to-below n m (omega arith)) (h, tt)

up_to-Ascend : (n : ℕ) → Ascend (up_to n)
unfolding up_to
up_to-Ascend zero = tt
up_to-Ascend (suc n) =
    Pairwise-append_last (λ v w. v < w) (up_to n) (suc n) (up_to-Ascend n)
      (up_to-below n (suc n) (omega arith))

insert_by_version-first :
    (r : HistoryRow) (rows : List HistoryRow)
    → All (λ v. r.version < v) (versions_of rows)
    → insert_by_version r rows ≡ r ∷ rows
unfolding insert_by_version
insert_by_version-first r [] a = refl
insert_by_version-first r (x ∷ rows) (h, a) = ground arith

-- Rows that stand in order are not moved.
sort_by_version-Ascend :
    (rows : List HistoryRow) → Ascend (versions_of rows) → sort_by_version rows ≡ rows
unfolding sort_by_version
sort_by_version-Ascend [] a = refl
sort_by_version-Ascend (r ∷ rows) (first, a) =
    rw (sort_by_version-Ascend rows a) (insert_by_version-first r rows first)

reverse_rows-append :
    (xs : List HistoryRow) (r : HistoryRow) → reverse_rows (xs ++ r ∷ []) ≡ r ∷ reverse_rows xs
unfolding reverse_rows
reverse_rows-append [] r = refl
reverse_rows-append (x ∷ xs) r = ap (λ ys. ys ++ x ∷ []) (reverse_rows-append xs r)

pub reverse_rows_twice : (xs : List HistoryRow) → reverse_rows (reverse_rows xs) ≡ xs
unfolding reverse_rows
reverse_rows_twice [] = refl
reverse_rows_twice (x ∷ xs) =
    reverse_rows-append (reverse_rows xs) x ∙ ap (λ ys. x ∷ ys) (reverse_rows_twice xs)

-- On a valid ledger the rows of the entity stand in the order of their versions already.
pub history_asc-HasLedger :
    {Score : Type 0} (e : Entity Score) (history : List HistoryRow)
    → HasLedger history e
    → (history_asc e.entity_id history ≡ select (of_entity e.entity_id) history)
      × (versions_of (history_asc e.entity_id history) ≡ up_to e.current_version)
unfolding history_asc
history_asc-HasLedger e history l =
    let rows = select (of_entity e.entity_id) history in
    let complete : versions_of rows ≡ up_to e.current_version =
      versions_of-select e.entity_id history ∙ l.complete in
    let sorted : sort_by_version rows ≡ rows =
      sort_by_version-Ascend rows (subst Ascend (sym complete) (up_to-Ascend e.current_version)) in
    (sorted, ap versions_of sorted ∙ complete)

-- What `history` returns on valid tables for an entity: every row of it, the newest first.
pub history_of_complete :
    {Score : Type 0} (s : Store Score) (e : Entity Score) (p : Entity Score → Bool)
    (rows : List HistoryRow)
    → IsValid s
    → find p s.entities ≡ some e
    → history_of e.vault_id e.category e.key s ≡ ok rows
    → (reverse_rows rows ≡ select (of_entity e.entity_id) s.history)
      × (versions_of (reverse_rows rows) ≡ up_to e.current_version)
unfolding history_of
history_of_complete s e p rows valid found h = elim (Bool-cases (e.vault_id == "")) [
  | inl blank ↦ let k = rw (history_of, blank) at h in absurd cc
  | inr named ↦
      let there = find-by_key p s.entities e valid.keys found in
      let k = rw (history_of, named, there) at h in
      let is : reverse_rows (history_asc e.entity_id s.history) ≡ rows = cc in
      let back : reverse_rows rows ≡ history_asc e.entity_id s.history =
        ap reverse_rows (sym is) ∙ reverse_rows_twice (history_asc e.entity_id s.history) in
      let (all, vs) =
        history_asc-HasLedger e s.history
          (find-All p (HasLedger s.history) s.entities valid.ledgers found) in
      (back ∙ all, ap versions_of back ∙ vs)
]
