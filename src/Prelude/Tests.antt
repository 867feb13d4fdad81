-- ===== src/Prelude/Tests.antt =====
-- Boolean tests on numbers and texts, and the conditional.
use Prim.Native.Nat.{ℕ, compare, Ordering}
use Prim.Native.String.{String}
use mathlib.Core.Path.{◌≡◌, refl}
use mathlib.Core.Logic.{◌↔◌, ◌⊎◌, inl, inr}
use mathlib.Core.Bool.{Bool, true, false, not}
use mathlib.Core.Option.{Option, none, some}
use text.Mathlib.Text.{◌==◌ as text_eq}
use text.Mathlib.TextEquality.{eq_iff}

abbrev pub ltb : ℕ → ℕ → Bool
ltb a b = elim (compare a b) [ Ordering.lt ↦ true | _ ↦ false ]

abbrev pub leb : ℕ → ℕ → Bool
leb a b = elim (compare a b) [ Ordering.gt ↦ false | _ ↦ true ]

abbrev pub nat_eq : ℕ → ℕ → Bool
nat_eq a b = elim (compare a b) [ Ordering.eq ↦ true | _ ↦ false ]

infix 1 if◌then◌else◌
abbrev pub if◌then◌else◌ {ℓ} : {A : Type ℓ} → Bool → A → A → A
if true then x else y = x
if false then x else y = y

pub Bool-cases : (b : Bool) → (b ≡ true) ⊎ (b ≡ false)
Bool-cases true = inl refl
Bool-cases false = inr refl

pub Option-cases {ℓ} : {A : Type ℓ} (o : Option A) → (o ≡ none) ⊎ ((a : A) × (o ≡ some a))
Option-cases none = inl refl
Option-cases (some a) = inr (a, refl)

dec_from : (s t : String) (b : Bool) → (b ≡ true) ↔ (s ≡ t) → Dec (s ≡ t)
dec_from s t true e = yes (e.0 refl)
dec_from s t false e = no (λ p. cc (e.1 p))

-- Texts are compared by a decision, whose proof the tactics read.
unfoldable pub dec_text : (s t : String) → Dec (s ≡ t)
unfolding dec_from
dec_text s t = dec_from s t (text_eq s t) (eq_iff s t)

infix 50 ◌==◌
abbrev pub ◌==◌ : String → String → Bool
s == t = elim (dec_text s t) [ yes _ ↦ true | no _ ↦ false ]

-- A nullable column or field, compared by `===`: null is equal to null.
abbrev pub same : Option String → Option String → Bool
same none none = true
same (some s) (some t) = s == t
same _ _ = false

-- A nullable column in a SQL condition `column = ?`: NULL is equal to nothing.
abbrev pub holds : Option String → String → Bool
holds none t = false
holds (some s) t = s == t

-- `Boolean(s)` of a string or null: the empty string is falsy.
abbrev pub truthy : Option String → Bool
truthy none = false
truthy (some s) = not (s == "")
