-- ===== src/Entities/Read/Pages/Walk.antt =====
-- Reading a vault page by page, as a client that hands each cursor back.
use memory_and_soul_passport.Prelude.{
  ℕ, zero, suc, ◌≤◌, ◌<◌, String, ◌≡◌, refl, sym, ap, subst, ◌∙◌, ◌≢◌, inl, inr, Bool, true, false,
  ◌&&◌, ltb, Option, none, some, List, [], ◌∷◌, ◌++◌, length, arith, ◌==◌, select, All, All-mono,
  All-select, Pairwise, Bool-cases, Option-cases,
}
use memory_and_soul_passport.Errors.{ok, err}
use memory_and_soul_passport.Entities.{Entity, Store}
use memory_and_soul_passport.Entities.Ledger.{DistinctIds}
use memory_and_soul_passport.Entities.Read.{
  text_lt, ListInput, bounded_limit, is_wanted, is_after_cursor, take_rows, last_id, list_entities,
}
use memory_and_soul_passport.Entities.Read.Order.{text_lt_trans, Sorted, All-sort_by_id}
use memory_and_soul_passport.Entities.Read.Pages.{
  select-and, drop_rows, take_rows-drop_rows, take_rows_all, length-drop_rows, is_after,
  last_id-All, select_all, take_rows_none, after_last, wanted, left_of, left_of-Sorted,
  list_entities-eq,
}

-- The pages, one after another: at most as many as the fuel.
pub walk : {Score : Type 0} → ℕ → ListInput → Store Score → List (Entity Score)
walk zero i s = []
walk (suc fuel) i s = elim (list_entities i s) [
  | err e ↦ []
  | ok (rows, next) ↦
      rows ++ elim next [ none ↦ [] | some d ↦ walk fuel (record i { cursor = some d }) s ]
]

bounded_limit-positive : (l : Option ℕ) → 0 < bounded_limit l
bounded_limit-positive none = omega arith
bounded_limit-positive (some zero) = omega arith
bounded_limit-positive (some (suc n)) = omega arith

module _ {Score : Type 0} where
  select-ext :
      (p q : Entity Score → Bool) (es : List (Entity Score))
      → ((e : Entity Score) → p e ≡ q e)
      → select p es ≡ select q es
  unfolding select
  select-ext p q [] h = refl
  select-ext p q (e ∷ es) h = rw (h e, select-ext p q es h) refl

  All-selected :
      (p : Entity Score → Bool) (es : List (Entity Score)) → All (λ e. p e ≡ true) (select p es)
  unfolding select
  All-selected p [] = tt
  All-selected p (e ∷ es) = elim (Bool-cases (p e)) [
    | inl kept ↦ rw kept (kept, All-selected p es)
    | inr dropped ↦ rw dropped (All-selected p es)
  ]

  after_given : (d : String) (e : Entity Score) → d ≢ "" → is_after_cursor (some d) e ≡ is_after d e
  after_given d e n = ground arith

  -- A later cursor asks for more than an earlier one.
  after_both :
      (c : Option String) (d : String) (e : Entity Score)
      → ((x : String) → c ≡ some x → x ≢ "" → text_lt x d ≡ true)
      → (is_after_cursor c e && is_after d e) ≡ is_after d e
  after_both none d e later = refl
  after_both (some x) d e later = elim (Bool-cases (x == "")) [
    | inl blank ↦ rw blank refl
    | inr named ↦
        let less : text_lt x d ≡ true = later x refl (ground arith) in
        elim (Bool-cases (text_lt d e.entity_id)) [
          | inl more ↦
              let all : text_lt x e.entity_id ≡ true = text_lt_trans x d e.entity_id less more in
              rw (named, all, more) refl
          | inr no_more ↦ ground arith
        ]
  ]

  module _ (i : ListInput) (s : Store Score) (ids : Pairwise DistinctIds s.entities) (d : String)
      (last : last_id (take_rows (bounded_limit i.limit) (left_of i s)) ≡ some d)
      (named : d ≢ "") where
    cursor_before : (x : String) → i.cursor ≡ some x → x ≢ "" → text_lt x d ≡ true
    cursor_before x is n =
        last_id-All (λ y. text_lt x y ≡ true) (bounded_limit i.limit) (left_of i s) d
          (All-mono (λ e. is_after_cursor i.cursor e ≡ true) (λ e. text_lt x e.entity_id ≡ true)
            (λ e h. sym (after_given x e n) ∙ (ap (λ c. is_after_cursor c e) (sym is) ∙ h))
            (left_of i s) (All-selected (is_after_cursor i.cursor) (wanted i s)))
          last

    -- The next page begins where this one ends.
    next_left :
        left_of (record i { cursor = some d }) s ≡ drop_rows (bounded_limit i.limit) (left_of i s)
    next_left =
        select-ext (is_after_cursor (some d)) (is_after d) (wanted i s) (λ e. after_given d e named)
        ∙ select-ext (is_after d) (λ e. is_after_cursor i.cursor e && is_after d e) (wanted i s)
            (λ e. sym (after_both i.cursor d e cursor_before))
        ∙ select-and (is_after_cursor i.cursor) (is_after d) (wanted i s)
        ∙ after_last (bounded_limit i.limit) (left_of i s) d (left_of-Sorted i s ids) last

  append-nil : (es : List (Entity Score)) → es ++ [] ≡ es
  append-nil [] = refl
  append-nil (e ∷ es) = ap (λ xs. e ∷ xs) (append-nil es)

  last_id-none : (es : List (Entity Score)) → last_id es ≡ none → es ≡ []
  unfolding last_id
  last_id-none [] h = refl
  last_id-none (e ∷ []) h = cc
  last_id-none (e ∷ x ∷ es) h = let empty = last_id-none (x ∷ es) h in absurd cc

  module _ (s : Store Score) (ids : Pairwise DistinctIds s.entities)
      (named_ids : All (λ e. e.entity_id ≢ "") s.entities) where
    left_of-named : (i : ListInput) → All (λ e. e.entity_id ≢ "") (left_of i s)
    left_of-named i =
        All-select (is_after_cursor i.cursor) (λ e. e.entity_id ≢ "") (wanted i s)
          (All-sort_by_id (λ e. e.entity_id ≢ "") (select (is_wanted i) s.entities)
            (All-select (is_wanted i) (λ e. e.entity_id ≢ "") s.entities named_ids))

    walk-left_of :
        (fuel : ℕ) (i : ListInput)
        → (i.vault_id == "") ≡ false
        → length (left_of i s) < fuel
        → walk fuel i s ≡ left_of i s
    unfolding walk
    walk-left_of zero i v enough = absurd (omega (arith, enough))
    walk-left_of (suc fuel) i v enough =
        let n = bounded_limit i.limit in
        let rows = left_of i s in
        let positive : 0 < n = bounded_limit-positive i.limit in
        elim (Bool-cases (ltb n (length rows))) [
          | inr whole ↦
              let few : length rows ≤ n = ground arith in
              rw (walk, list_entities-eq i s v ids, whole)
                (append-nil (take_rows n rows) ∙ take_rows_all n rows few)
          | inl more ↦ elim (Option-cases (last_id (take_rows n rows))) [
            | inl no_last ↦
                let empty = last_id-none (take_rows n rows) no_last in
                let same : length (drop_rows n rows) ≡ length rows =
                  ap length (take_rows_none n rows empty) in
                let cut = length-drop_rows n rows in
                let many : n < length rows = ground arith in
                absurd (omega (arith, same, cut, many, positive))
            | inr (d, last) ↦
                let named : d ≢ "" = last_id-All (λ x. x ≢ "") n rows d (left_of-named i) last in
                let rest = next_left i s ids d last named in
                let cut = length-drop_rows n rows in
                let many : n < length rows = ground arith in
                let shorter : length (left_of (record i { cursor = some d }) s) < fuel =
                  rw rest (omega (arith, cut, many, positive, enough)) in
                let ih = walk-left_of fuel (record i { cursor = some d }) v shorter in
                rw (walk, list_entities-eq i s v ids, more, last, ih, rest)
                  (take_rows-drop_rows n rows)
          ]
        ]

    -- On entity tables with distinct ids that are not empty, a client that starts without a cursor and
    -- hands every cursor back gets all the rows of the vault that pass the filters, in the order of
    -- their ids and each of them once: with more calls allowed than such rows, whatever the limit.
    pub walk-wanted :
        (fuel : ℕ) (i : ListInput)
        → i.vault_id ≢ ""
        → i.cursor ≡ none
        → length (wanted i s) < fuel
        → (walk fuel i s ≡ wanted i s) × Sorted (wanted i s)
    walk-wanted fuel i v start enough =
        let all : left_of i s ≡ wanted i s =
          rw start (select_all (λ e. true) (wanted i s) (everything (wanted i s))) in
        let v' : (i.vault_id == "") ≡ false = ground arith in
        (walk-left_of fuel i v' (rw all enough) ∙ all, subst Sorted all (left_of-Sorted i s ids))
      where
        everything : (es : List (Entity Score)) → All (λ e. true ≡ true) es
        everything [] = tt
        everything (e ∷ es) = (refl, everything es)
