-- ===== src/Prelude/Lists.antt =====
-- Lists measured by native numbers, and predicates on their members.
use Prim.Native.Nat.{ℕ, suc, ◌+◌}
use mathlib.Core.Path.{◌≡◌, refl, subst}
use mathlib.Core.Bool.{Bool, true, false, ◌||◌}
use mathlib.Core.Logic.{inl, inr}
use mathlib.Core.Option.{Option, none, some}
use mathlib.Core.List.{List, [], ◌∷◌, ◌++◌}
use native.Mathlib.Omega.{arith}
use memory_and_soul_passport.Prelude.Tests.{if◌then◌else◌, Bool-cases}

module _ {ℓ} {A : Type ℓ} where
  abbrev pub length : List A → ℕ
  length [] = 0
  length (x ∷ xs) = suc (length xs)

  pub length-append : (xs ys : List A) → length (xs ++ ys) ≡ length xs + length ys
  length-append [] ys = omega arith
  length-append (x ∷ xs) ys = omega (arith, length-append xs ys)

module _ {ℓ κ} {A : Type ℓ} (P : A → Type κ) where
  -- A predicate on every member, by recursion.
  abbrev pub All : List A → Type κ
  All [] = Unit
  All (x ∷ xs) = P x × All xs

  pub All-append : (xs ys : List A) → All xs → All ys → All (xs ++ ys)
  All-append [] ys hx hy = hy
  All-append (x ∷ xs) ys (h, hx) hy = (h, All-append xs ys hx hy)

pub All-mono {ℓ κ ι} :
    {A : Type ℓ} (P : A → Type κ) (Q : A → Type ι)
    → ((a : A) → P a → Q a)
    → (xs : List A) → All P xs
    → All Q xs
All-mono P Q f [] h = tt
All-mono P Q f (x ∷ xs) (p, h) = (f x p, All-mono P Q f xs h)

-- Rows of a table, selected by a Boolean condition.
module _ {ℓ} {A : Type ℓ} (p : A → Bool) where
  -- `SELECT ... LIMIT 1`, or `.get()`: the first row in the order of the table.
  unfoldable pub find : List A → Option A
  find [] = none
  find (x ∷ xs) = if p x then some x else find xs

  -- `SELECT 1`
  unfoldable pub any : List A → Bool
  any [] = false
  any (x ∷ xs) = p x || any xs

  -- `.all()`
  unfoldable pub select : List A → List A
  select [] = []
  select (x ∷ xs) = if p x then x ∷ select xs else select xs

  pub find-IsSelected : (xs : List A) {x : A} → find xs ≡ some x → p x ≡ true
  unfolding find
  find-IsSelected [] h = cc
  find-IsSelected (y ∷ xs) {x} h = ground (arith, find-IsSelected xs {x = x})

  pub find-append :
      (xs ys : List A) → find (xs ++ ys) ≡ (elim (find xs) [ none ↦ find ys | some x ↦ some x ])
  unfolding find
  find-append [] ys = refl
  find-append (x ∷ xs) ys = ground (arith, find-append xs ys)

  pub any-append : (xs ys : List A) → any (xs ++ ys) ≡ (any xs || any ys)
  unfolding any
  any-append [] ys = refl
  any-append (x ∷ xs) ys = ground (arith, any-append xs ys)

  pub find-eq-none_of_any : (xs : List A) → any xs ≡ false → find xs ≡ none
  unfolding find any
  find-eq-none_of_any [] h = refl
  find-eq-none_of_any (x ∷ xs) h = ground (arith, find-eq-none_of_any xs)

  pub any_of_find-eq-none : (xs : List A) → find xs ≡ none → any xs ≡ false
  unfolding find any
  any_of_find-eq-none [] h = refl
  any_of_find-eq-none (x ∷ xs) h = ground (arith, any_of_find-eq-none xs)

  pub find-All {κ} : (P : A → Type κ) (xs : List A) {x : A} → All P xs → find xs ≡ some x → P x
  unfolding find
  find-All P [] a h = cc
  find-All P (y ∷ xs) {x} (q, a) h = elim (Bool-cases (p y)) [
    | inl here ↦ let same : y ≡ x = ground arith in subst P same q
    | inr there ↦ find-All P xs a (ground arith)
  ]

pub All-select {ℓ κ} :
    {A : Type ℓ} (p : A → Bool) (P : A → Type κ) (xs : List A) → All P xs → All P (select p xs)
unfolding select
All-select p P [] a = tt
All-select p P (x ∷ xs) (h, a) = elim (Bool-cases (p x)) [
  | inl here ↦ rw here (h, All-select p P xs a)
  | inr there ↦ rw there (All-select p P xs a)
]

-- Every member stands in the relation to all that follow it.
module _ {ℓ κ} {A : Type ℓ} (R : A → A → Type κ) where
  abbrev pub Pairwise : List A → Type (ℓ ⊔ κ)
  Pairwise [] = Unit
  Pairwise (x ∷ xs) = All (R x) xs × Pairwise xs

  pub Pairwise-append_last :
      (xs : List A) (y : A) → Pairwise xs → All (λ x. R x y) xs → Pairwise (xs ++ y ∷ [])
  Pairwise-append_last [] y h k = (tt, tt)
  Pairwise-append_last (x ∷ xs) y (h, hs) (k, ks) =
      (All-append (R x) xs (y ∷ []) h (k, tt), Pairwise-append_last xs y hs ks)

pub All_of_any {ℓ} :
    {A : Type ℓ} (p : A → Bool) (xs : List A) → any p xs ≡ false → All (λ x. p x ≡ false) xs
unfolding any
All_of_any p [] h = tt
All_of_any p (x ∷ xs) h = (ground arith, All_of_any p xs (ground arith))
