-- ===== src/Json/Examples.antt =====
-- Two bodies that differ in the order of their members, with texts ordered by their code units.
use Prim.Native.Char.{code}
use text.Mathlib.TextEquality.{Char-path}
use memory_and_soul_passport.Prelude.{
  String, ◌≡◌, ◌≢◌, ◌⊎◌, refl, inl, inr, Bool, true, false, ltb, if◌then◌else◌, arith, ◌==◌,
  dec_text,
}
use memory_and_soul_passport.Json.{Json, scalar, obj, end, member, JsonText, compute_source_hash}
use memory_and_soul_passport.Json.MemberOrder.{
  IsTotalOrder, SameJson, objects, swapped, compute_source_hash-SameJson,
}

text_le : String → String → Bool
text_le String.[] t = true
text_le (String.◌∷◌ c s) String.[] = false
text_le (String.◌∷◌ c s) (String.◌∷◌ d t) =
    let rest = text_le s t in
    if ltb (code c) (code d) then true else if ltb (code d) (code c) then false else rest

text_le-antisymmetric : (s t : String) → text_le s t ≡ true → text_le t s ≡ true → s ≡ t
unfolding text_le
text_le-antisymmetric String.[] String.[] h k = refl
text_le-antisymmetric String.[] (String.◌∷◌ d t) h k = cc
text_le-antisymmetric (String.◌∷◌ c s) String.[] h k = cc
text_le-antisymmetric (String.◌∷◌ c s) (String.◌∷◌ d t) h k =
    let same_code : code c ≡ code d = ground arith in
    let same_char : c ≡ d = Char-path c d same_code in
    let same_rest : s ≡ t = ground (arith, text_le-antisymmetric s t) in cc

text_le-transitive : (s t u : String) → text_le s t ≡ true → text_le t u ≡ true → text_le s u ≡ true
unfolding text_le
text_le-transitive String.[] t u h k = refl
text_le-transitive (String.◌∷◌ c s) String.[] u h k = cc
text_le-transitive (String.◌∷◌ c s) (String.◌∷◌ d t) String.[] h k = cc
text_le-transitive (String.◌∷◌ c s) (String.◌∷◌ d t) (String.◌∷◌ e u) h k =
    ground (arith, text_le-transitive s t u)

text_le-total : (s t : String) → (text_le s t ≡ true) ⊎ (text_le t s ≡ true)
unfolding text_le
text_le-total String.[] t = inl refl
text_le-total (String.◌∷◌ c s) String.[] = inr refl
text_le-total (String.◌∷◌ c s) (String.◌∷◌ d t) = ground (arith, text_le-total s t)

abbrev texts : JsonText
texts = record { quote = λ s. s; key_le = text_le }

text_le-IsTotalOrder : IsTotalOrder text_le
text_le-IsTotalOrder = record {
  antisymmetric = text_le-antisymmetric;
  transitive = text_le-transitive;
  total = text_le-total;
}

abbrev left : Json
left = obj (member "a" (scalar "1") (member "b" (scalar "2") end))

abbrev right : Json
right = obj (member "b" (scalar "2") (member "a" (scalar "1") end))

differ : {s t : String} → (s == t) ≡ false → s ≢ t
differ h e = ground arith

members_swapped : SameJson left right
unfolding dec_text
members_swapped = objects (swapped (differ refl))

compute_source_hash-SameJson_example :
    compute_source_hash texts (λ s. s) left "verified" (scalar "1")
    ≡ compute_source_hash texts (λ s. s) right "verified" (scalar "1")
compute_source_hash-SameJson_example =
    compute_source_hash-SameJson texts text_le-IsTotalOrder (λ s. s) left right "verified"
      (scalar "1") members_swapped
