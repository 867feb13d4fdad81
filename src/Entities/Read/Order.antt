-- ===== src/Entities/Read/Order.antt =====
-- The order of texts, and rows sorted by it.
use Prim.Native.Char.{code}
use text.Mathlib.TextEquality.{Char-path}
use memory_and_soul_passport.Prelude.{
  String, ◌≡◌, refl, sym, ap, ◌∙◌, ◌≢◌, inl, inr, Bool, true, false, ltb, arith, List, [], ◌∷◌,
  select, All, All-mono, All-select, Pairwise, Bool-cases,
}
use memory_and_soul_passport.Entities.{Entity}
use memory_and_soul_passport.Entities.Ledger.{DistinctIds}
use memory_and_soul_passport.Entities.Read.{text_lt, insert_by_id, sort_by_id}

text_lt_irrefl : (s : String) → text_lt s s ≡ false
unfolding text_lt
text_lt_irrefl String.[] = refl
text_lt_irrefl (String.◌∷◌ c s) = ground (arith, text_lt_irrefl s)

pub text_lt_trans : (s t u : String) → text_lt s t ≡ true → text_lt t u ≡ true → text_lt s u ≡ true
unfolding text_lt
text_lt_trans s String.[] u h k = cc
text_lt_trans s t String.[] h k = cc
text_lt_trans String.[] (String.◌∷◌ c t) (String.◌∷◌ d u) h k = refl
text_lt_trans (String.◌∷◌ b s) (String.◌∷◌ c t) (String.◌∷◌ d u) h k =
    ground (arith, text_lt_trans s t u)

pub text_lt_asym : (s t : String) → text_lt s t ≡ true → text_lt t s ≡ false
text_lt_asym s t h = elim (Bool-cases (text_lt t s)) [
  | inl back ↦ let loop = text_lt_trans s t s h back in let no_loop = text_lt_irrefl s in absurd cc
  | inr fine ↦ fine
]

text_lt_total : (s t : String) → text_lt s t ≡ false → s ≢ t → text_lt t s ≡ true
unfolding text_lt
text_lt_total String.[] String.[] h n = absurd (n refl)
text_lt_total (String.◌∷◌ c s) String.[] h n = refl
text_lt_total String.[] (String.◌∷◌ d t) h n = cc
text_lt_total (String.◌∷◌ c s) (String.◌∷◌ d t) h n = elim (Bool-cases (ltb (code d) (code c))) [
  | inl less ↦ rw less refl
  | inr not_less ↦
      let same_code : code c ≡ code d = ground arith in
      let same_char : c ≡ d = Char-path c d same_code in
      let rest : s ≢ t = λ e. n (rw (same_char, e) refl) in
      let smaller : text_lt s t ≡ false = ground arith in
      let ih = text_lt_total s t smaller rest in ground arith
]

module _ {Score : Type 0} where
  -- The id of one row comes before that of another.
  abbrev pub Before : Entity Score → Entity Score → Type 0
  Before e f = text_lt e.entity_id f.entity_id ≡ true

  -- Strictly in the order of ids.
  abbrev pub Sorted : List (Entity Score) → Type 0
  Sorted es = Pairwise Before es

  pub Before-irrefl : (e : Entity Score) → text_lt e.entity_id e.entity_id ≡ false
  Before-irrefl e = text_lt_irrefl e.entity_id

  All-insert :
      (P : Entity Score → Type 0) (e : Entity Score) (es : List (Entity Score))
      → P e
      → All P es
      → All P (insert_by_id e es)
  unfolding insert_by_id
  All-insert P e [] p a = (p, tt)
  All-insert P e (x ∷ es) p (q, a) = elim (Bool-cases (text_lt x.entity_id e.entity_id)) [
    | inl after ↦ rw after (q, All-insert P e es p a)
    | inr here ↦ rw here (p, (q, a))
  ]

  insert_by_id-Sorted :
      (e : Entity Score) (es : List (Entity Score))
      → All (DistinctIds e) es
      → Sorted es
      → Sorted (insert_by_id e es)
  unfolding insert_by_id
  insert_by_id-Sorted e [] n o = (tt, tt)
  insert_by_id-Sorted e (x ∷ es) (n, ns) (a, o) =
      elim (Bool-cases (text_lt x.entity_id e.entity_id)) [
        | inl after ↦ rw after (All-insert (Before x) e es after a, insert_by_id-Sorted e es ns o)
        | inr here ↦
            let first : Before e x =
              text_lt_total x.entity_id e.entity_id here (λ same. n (sym same)) in
            rw here (
              (
                first,
                All-mono (Before x) (Before e)
                    (λ y h. text_lt_trans e.entity_id x.entity_id y.entity_id first h) es a,
              ),
              (a, o),
            )
      ]

  pub All-sort_by_id :
      (P : Entity Score → Type 0) (es : List (Entity Score)) → All P es → All P (sort_by_id es)
  unfolding sort_by_id
  All-sort_by_id P [] a = tt
  All-sort_by_id P (e ∷ es) (p, a) = All-insert P e (sort_by_id es) p (All-sort_by_id P es a)

  -- Rows with distinct ids are sorted strictly.
  pub sort_by_id-Sorted :
      (es : List (Entity Score)) → Pairwise DistinctIds es → Sorted (sort_by_id es)
  unfolding sort_by_id
  sort_by_id-Sorted [] d = tt
  sort_by_id-Sorted (e ∷ es) (n, d) =
      insert_by_id-Sorted e (sort_by_id es) (All-sort_by_id (DistinctIds e) es n)
        (sort_by_id-Sorted es d)

  insert_by_id-first :
      (e : Entity Score) (es : List (Entity Score))
      → All (λ y. text_lt y.entity_id e.entity_id ≡ false) es
      → insert_by_id e es ≡ e ∷ es
  unfolding insert_by_id
  insert_by_id-first e [] a = refl
  insert_by_id-first e (x ∷ es) (h, a) = rw h refl

  -- What follows a row that does not come before another does not either.
  none-Before :
      (e x y : Entity Score)
      → text_lt x.entity_id e.entity_id ≡ false
      → Before x y
      → text_lt y.entity_id e.entity_id ≡ false
  none-Before e x y h b = elim (Bool-cases (text_lt y.entity_id e.entity_id)) [
    | inl less ↦ let k = text_lt_trans x.entity_id y.entity_id e.entity_id b less in absurd cc
    | inr fine ↦ fine
  ]

  module _ (p : Entity Score → Bool) where
    select-insert_kept :
        (e : Entity Score) (es : List (Entity Score))
        → p e ≡ true
        → Sorted es
        → select p (insert_by_id e es) ≡ insert_by_id e (select p es)
    unfolding select insert_by_id
    select-insert_kept e [] h o = rw h refl
    select-insert_kept e (x ∷ es) h (a, o) = elim (Bool-cases (text_lt x.entity_id e.entity_id)) [
      | inl after ↦ elim (Bool-cases (p x)) [
        | inl kept ↦ rw (after, kept, after) (ap (λ ys. x ∷ ys) (select-insert_kept e es h o))
        | inr dropped ↦ rw (after, dropped) (select-insert_kept e es h o)
      ]
      | inr here ↦
          let later =
            All-mono (Before x) (λ y. text_lt y.entity_id e.entity_id ≡ false)
              (λ y b. none-Before e x y here b) es a in
          rw (here, h)
            (sym (
              insert_by_id-first e (select p (x ∷ es)) (
                All-select p (λ y. text_lt y.entity_id e.entity_id ≡ false) (x ∷ es)
                  (here, later))))
    ]

    select-insert_dropped :
        (e : Entity Score) (es : List (Entity Score))
        → p e ≡ false
        → select p (insert_by_id e es) ≡ select p es
    unfolding select insert_by_id
    select-insert_dropped e [] h = rw h refl
    select-insert_dropped e (x ∷ es) h = elim (Bool-cases (text_lt x.entity_id e.entity_id)) [
      | inl after ↦ rw (after, select-insert_dropped e es h) refl
      | inr here ↦ rw (here, h) refl
    ]

    -- WHERE and ORDER BY commute.
    pub select-sort_by_id :
        (es : List (Entity Score))
        → Pairwise DistinctIds es
        → select p (sort_by_id es) ≡ sort_by_id (select p es)
    unfolding select sort_by_id
    select-sort_by_id [] d = refl
    select-sort_by_id (e ∷ es) (n, d) = elim (Bool-cases (p e)) [
      | inl kept ↦ rw kept (
          select-insert_kept e (sort_by_id es) kept (sort_by_id-Sorted es d)
          ∙ ap (insert_by_id e) (select-sort_by_id es d))
      | inr dropped ↦
          rw dropped (select-insert_dropped e (sort_by_id es) dropped ∙ select-sort_by_id es d)
    ]
