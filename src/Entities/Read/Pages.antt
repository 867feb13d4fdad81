-- ===== src/Entities/Read/Pages.antt =====
-- What one page of `list` holds.
pub mod Walk
use memory_and_soul_passport.Prelude.{
  ℕ, zero, suc, ◌+◌, ◌-◌, ◌≤◌, ◌<◌, String, ◌≡◌, refl, sym, ap, subst, ◌∙◌, ◌≢◌, ◌⊎◌, inl, inr,
  Bool, true, false, ◌&&◌, ltb, min, Option, none, some, List, [], ◌∷◌, ◌++◌, length, arith,
  if◌then◌else◌, ◌==◌, select, All, All-mono, All-select, Pairwise, Bool-cases, Option-cases,
  dec_text,
}
use memory_and_soul_passport.Errors.{Result, ok, err, type_error}
use memory_and_soul_passport.Entities.{Entity, Store}
use memory_and_soul_passport.Entities.Ledger.{DistinctIds}
use memory_and_soul_passport.Entities.Read.{
  text_lt, sort_by_id, ListInput, bounded_limit, is_wanted, is_after_cursor, is_on_page, take_rows,
  last_id, page_of, list_entities,
}
use memory_and_soul_passport.Entities.Read.Order.{
  Before, Sorted, text_lt_asym, Before-irrefl, text_lt_trans, sort_by_id-Sorted, select-sort_by_id,
}

pub select-and {ℓ} :
    {A : Type ℓ} (p q : A → Bool) (xs : List A)
    → select (λ x. p x && q x) xs ≡ select q (select p xs)
unfolding select
select-and p q [] = refl
select-and p q (x ∷ xs) = ground (arith, select-and p q xs)

-- `rows.slice(n)`
pub drop_rows : {Score : Type 0} → ℕ → List (Entity Score) → List (Entity Score)
drop_rows zero es = es
drop_rows (suc n) [] = []
drop_rows (suc n) (e ∷ es) = drop_rows n es

module _ {Score : Type 0} where
  take_rows-take_rows :
      (n : ℕ) (es : List (Entity Score)) → take_rows n (take_rows (suc n) es) ≡ take_rows n es
  unfolding take_rows
  take_rows-take_rows zero es = refl
  take_rows-take_rows (suc n) [] = refl
  take_rows-take_rows (suc n) (e ∷ es) = ap (λ xs. e ∷ xs) (take_rows-take_rows n es)

  more_than :
      (n : ℕ) (es : List (Entity Score)) → ltb n (length (take_rows (suc n) es)) ≡ ltb n (length es)
  unfolding take_rows
  more_than zero [] = refl
  more_than zero (e ∷ es) = ground arith
  more_than (suc n) [] = refl
  more_than (suc n) (e ∷ es) = let ih = more_than n es in ground (arith, ih)

  pub take_rows-drop_rows :
      (n : ℕ) (es : List (Entity Score)) → take_rows n es ++ drop_rows n es ≡ es
  unfolding take_rows drop_rows
  take_rows-drop_rows zero es = refl
  take_rows-drop_rows (suc n) [] = refl
  take_rows-drop_rows (suc n) (e ∷ es) = ap (λ xs. e ∷ xs) (take_rows-drop_rows n es)

  pub take_rows_all : (n : ℕ) (es : List (Entity Score)) → length es ≤ n → take_rows n es ≡ es
  unfolding take_rows
  take_rows_all zero [] h = refl
  take_rows_all zero (e ∷ es) h = absurd (omega (arith, h))
  take_rows_all (suc n) [] h = refl
  take_rows_all (suc n) (e ∷ es) h = ap (λ xs. e ∷ xs) (take_rows_all n es (omega (arith, h)))

  pub length-drop_rows :
      (n : ℕ) (es : List (Entity Score)) → length (drop_rows n es) ≡ length es - n
  unfolding drop_rows
  length-drop_rows zero es = omega arith
  length-drop_rows (suc n) [] = omega arith
  length-drop_rows (suc n) (e ∷ es) = omega (arith, length-drop_rows n es)

  abbrev pub is_after : String → Entity Score → Bool
  is_after d e = text_lt d e.entity_id

  pub select_all :
      (p : Entity Score → Bool) (es : List (Entity Score))
      → All (λ e. p e ≡ true) es
      → select p es ≡ es
  unfolding select
  select_all p [] a = refl
  select_all p (e ∷ es) (h, a) = rw h (ap (λ xs. e ∷ xs) (select_all p es a))

  last_id-cons :
      (e : Entity Score) (es : List (Entity Score)) (d : String)
      → last_id (e ∷ es) ≡ some d
      → ((es ≡ []) × (e.entity_id ≡ d)) ⊎ (last_id es ≡ some d)
  unfolding last_id
  last_id-cons e [] d h = inl (refl, ground arith)
  last_id-cons e (x ∷ es) d h = inr h

  pub take_rows_none :
      (n : ℕ) (es : List (Entity Score)) → take_rows n es ≡ [] → drop_rows n es ≡ es
  unfolding take_rows drop_rows
  take_rows_none zero es h = refl
  take_rows_none (suc n) [] h = refl
  take_rows_none (suc n) (e ∷ es) h = absurd cc

  -- What holds of all ids holds of the last one of the page.
  pub last_id-All :
      (P : String → Type 0) (n : ℕ) (es : List (Entity Score)) (d : String)
      → All (λ e. P e.entity_id) es
      → last_id (take_rows n es) ≡ some d
      → P d
  unfolding take_rows last_id
  last_id-All P zero es d a h = cc
  last_id-All P (suc n) [] d a h = cc
  last_id-All P (suc n) (e ∷ es) d (b, a) h = elim (last_id-cons e (take_rows n es) d h) [
    | inl (_, here) ↦ subst P here b
    | inr there ↦ last_id-All P n es d a there
  ]

  -- In sorted rows, what comes after the last of the first n is the rest.
  pub after_last :
      (n : ℕ) (es : List (Entity Score)) (d : String)
      → Sorted es
      → last_id (take_rows n es) ≡ some d
      → select (is_after d) es ≡ drop_rows n es
  unfolding take_rows drop_rows select last_id
  after_last zero es d o h = cc
  after_last (suc n) [] d o h = cc
  after_last (suc n) (e ∷ es) d (a, o) h = elim (last_id-cons e (take_rows n es) d h) [
    | inl (none_left, here) ↦
        let self : text_lt d e.entity_id ≡ false =
          subst (λ i. text_lt i e.entity_id ≡ false) here (Before-irrefl e) in
        let later : All (λ x. is_after d x ≡ true) es =
          subst (λ i. All (λ x. text_lt i x.entity_id ≡ true) es) here a in
        rw self (select_all (is_after d) es later ∙ sym (take_rows_none n es none_left))
    | inr there ↦
        let before = last_id-All (λ i. text_lt e.entity_id i ≡ true) n es d a there in
        let not_after : text_lt d e.entity_id ≡ false = text_lt_asym e.entity_id d before in
        rw not_after (after_last n es d o there)
  ]

  -- The rows that a list is to return, in the order of their ids.
  abbrev pub wanted : ListInput → Store Score → List (Entity Score)
  wanted i s = sort_by_id (select (is_wanted i) s.entities)

  -- Those that are left after the cursor.
  abbrev pub left_of : ListInput → Store Score → List (Entity Score)
  left_of i s = select (is_after_cursor i.cursor) (wanted i s)

  on_page :
      (i : ListInput) (s : Store Score)
      → Pairwise DistinctIds s.entities
      → sort_by_id (select (is_on_page i) s.entities) ≡ left_of i s
  on_page i s d =
      sym (select-sort_by_id (is_on_page i) s.entities d)
      ∙ select-and (is_wanted i) (is_after_cursor i.cursor) (sort_by_id s.entities)
      ∙ ap (select (is_after_cursor i.cursor)) (select-sort_by_id (is_wanted i) s.entities d)

  Pairwise-select :
      (p : Entity Score → Bool) (es : List (Entity Score)) → Sorted es → Sorted (select p es)
  unfolding select
  Pairwise-select p [] o = tt
  Pairwise-select p (e ∷ es) (a, o) = elim (Bool-cases (p e)) [
    | inl kept ↦ rw kept (All-select p (Before e) es a, Pairwise-select p es o)
    | inr dropped ↦ rw dropped (Pairwise-select p es o)
  ]

  pub left_of-Sorted :
      (i : ListInput) (s : Store Score) → Pairwise DistinctIds s.entities → Sorted (left_of i s)
  left_of-Sorted i s d = subst Sorted (on_page i s d) (
      subst Sorted (select-sort_by_id (is_on_page i) s.entities d)
        (Pairwise-select (is_on_page i) (sort_by_id s.entities) (sort_by_id-Sorted s.entities d)))

  -- One page: the first rows that are left, and a cursor where there are more.
  pub list_entities-eq :
      (i : ListInput) (s : Store Score)
      → (i.vault_id == "") ≡ false
      → Pairwise DistinctIds s.entities
      → list_entities i s
        ≡ ok (
          take_rows (bounded_limit i.limit) (left_of i s),
          if ltb (bounded_limit i.limit) (length (left_of i s))
              then last_id (take_rows (bounded_limit i.limit) (left_of i s))
              else none,
        )
  unfolding list_entities
  list_entities-eq i s named d =
      let n = bounded_limit i.limit in
      let more : n + 1 ≡ suc n = omega arith in
      rw
        (
          list_entities,
          named,
          more,
          on_page i s d,
          take_rows-take_rows n (left_of i s),
          more_than n (left_of i s),
        )
        refl
