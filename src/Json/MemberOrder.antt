-- ===== src/Json/MemberOrder.antt =====
-- The order in which an object lists its members does not change the text that is hashed.
use memory_and_soul_passport.Prelude.{
  String, ◌≡◌, refl, ◌∙◌, ◌≢◌, ◌⊎◌, Bool, true, List, [], ◌∷◌, arith,
}
use memory_and_soul_passport.Json.{
  Json, scalar, arr, obj, Elements, nil, cons, Members, end, member, JsonText, insert_key,
  sort_keys, object_text, stable_stringify, stable_elements, stable_members, compute_source_hash,
}

-- The order of sort, as documented: by the code units, a total order.
pub record IsTotalOrder (le : String → String → Bool) : Type 0 where
  pub antisymmetric : (a b : String) → le a b ≡ true → le b a ≡ true → a ≡ b
  pub transitive : (a b c : String) → le a b ≡ true → le b c ≡ true → le a c ≡ true
  pub total : (a b : String) → (le a b ≡ true) ⊎ (le b a ≡ true)

-- Two values that differ in the order of members only, at any depth.
mutual
  pub data SameJson : Json → Json → Type 0 where
    scalars : {t : String} → SameJson (scalar t) (scalar t)
    arrays : {xs ys : Elements} → SameElements xs ys → SameJson (arr xs) (arr ys)
    objects : {ms ns : Members} → SameMembers ms ns → SameJson (obj ms) (obj ns)

  pub data SameElements : Elements → Elements → Type 0 where
    none_left : SameElements nil nil
    both :
        {x y : Json} {xs ys : Elements}
        → SameJson x y
        → SameElements xs ys
        → SameElements (cons x xs) (cons y ys)

  pub data SameMembers : Members → Members → Type 0 where
    no_members : SameMembers end end
    same_member :
        {k : String} {v w : Json} {ms ns : Members}
        → SameJson v w
        → SameMembers ms ns
        → SameMembers (member k v ms) (member k w ns)
    swapped :
        {k l : String} {v w : Json} {ms : Members}
        → k ≢ l
        → SameMembers (member k v (member l w ms)) (member l w (member k v ms))
    then_members : {ms ns os : Members} → SameMembers ms ns → SameMembers ns os → SameMembers ms os

module _ (j : JsonText) (order : IsTotalOrder j.key_le) where
  insert_key_comm :
      (k l : String) (t u : String) (ms : List (String × String))
      → k ≢ l
      → insert_key j (k, t) (insert_key j (l, u) ms) ≡ insert_key j (l, u) (insert_key j (k, t) ms)
  unfolding insert_key
  insert_key_comm k l t u [] ne = ground (arith, order.antisymmetric k l, order.total k l)
  insert_key_comm k l t u ((m, x) ∷ ms) ne = ground (
    arith,
    order.antisymmetric k l,
    order.total k l,
    order.total k m,
    order.total l m,
    order.transitive k l m,
    order.transitive l k m,
    order.transitive k m l,
    order.transitive l m k,
    insert_key_comm k l t u ms ne,
  )

  mutual
    unfolding stable_stringify object_text sort_keys

    json-eq : {x y : Json} → SameJson x y → stable_stringify j x ≡ stable_stringify j y
    json-eq scalars = refl
    json-eq (arrays e) = rw (elements-eq e)
    json-eq (objects e) = rw (members-eq e)

    elements-eq :
        {xs ys : Elements} → SameElements xs ys → stable_elements j xs ≡ stable_elements j ys
    elements-eq none_left = refl
    elements-eq (both e es) = rw (json-eq e, elements-eq es)

    members-eq :
        {ms ns : Members}
        → SameMembers ms ns
        → sort_keys j (stable_members j ms) ≡ sort_keys j (stable_members j ns)
    members-eq no_members = refl
    members-eq (same_member e es) = rw (json-eq e, members-eq es)
    members-eq (swapped {k} {l} {v} {w} {ms} ne) =
        insert_key_comm k l (stable_stringify j v) (stable_stringify j w)
          (sort_keys j (stable_members j ms)) ne
    members-eq (then_members e f) = members-eq e ∙ members-eq f

  -- Where the order of sort is total, two bodies that differ in the order of object members only
  -- have the same source hash, under the same epistemic state and confidence.
  pub compute_source_hash-SameJson :
      (sha256_hex : String → String) (x y : Json) (epistemic_state : String) (confidence : Json)
      → SameJson x y
      → compute_source_hash j sha256_hex x epistemic_state confidence
        ≡ compute_source_hash j sha256_hex y epistemic_state confidence
  unfolding compute_source_hash stable_stringify
  compute_source_hash-SameJson sha256_hex x y epistemic_state confidence e = rw (json-eq e)
