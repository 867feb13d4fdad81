-- ===== src/Json.antt =====
-- stableStringify and computeSourceHash of packages/msp-core/src/domain/entity-store.mjs over JSON
-- values. JSON.stringify of a scalar and the order of Array.prototype.sort on texts are arguments.
pub mod MemberOrder
pub mod Examples
use memory_and_soul_passport.Prelude.{ℕ, String, Bool, true, false, List, [], ◌∷◌, if◌then◌else◌}
use Prim.Native.String

-- A scalar carries what JSON.stringify prints of it.
mutual
  pub data Json : Type 0 where
    scalar : String → Json
    arr : Elements → Json
    obj : Members → Json

  pub data Elements : Type 0 where
    nil : Elements
    cons : Json → Elements → Elements

  pub data Members : Type 0 where
    end : Members
    member : String → Json → Members → Members

infixr 65 ◌⧺◌
abbrev pub ◌⧺◌ : String → String → String
s ⧺ t = String.◌++◌ s t

-- `parts.join(separator)`
pub join : String → List String → String
join sep [] = ""
join sep (s ∷ []) = s
join sep (s ∷ t ∷ ss) = s ⧺ (sep ⧺ join sep (t ∷ ss))

-- What the code takes from node: JSON.stringify of a key, and `a <= b` for the order of sort.
pub record JsonText : Type 0 where
  pub quote : String → String
  pub key_le : String → String → Bool

module _ (j : JsonText) where
  open j use {quote, key_le}

  -- `Object.keys(value).sort()`, each key with the text of its value
  pub insert_key : String × String → List (String × String) → List (String × String)
  insert_key (k, t) [] = (k, t) ∷ []
  insert_key (k, t) ((l, u) ∷ ms) =
      if key_le k l then (k, t) ∷ (l, u) ∷ ms else (l, u) ∷ insert_key (k, t) ms

  pub sort_keys : List (String × String) → List (String × String)
  unfolding insert_key
  sort_keys [] = []
  sort_keys (m ∷ ms) = insert_key m (sort_keys ms)

  pub member_texts : List (String × String) → List String
  member_texts [] = []
  member_texts ((k, t) ∷ ms) = (quote k ⧺ (":" ⧺ t)) ∷ member_texts ms

  pub object_text : List (String × String) → String
  unfolding sort_keys member_texts join
  object_text ms = "{" ⧺ (join "," (member_texts (sort_keys ms)) ⧺ "}")

  mutual
    unfolding object_text

    pub stable_stringify : Json → String
    stable_stringify (scalar t) = t
    stable_stringify (arr xs) = "[" ⧺ (join "," (stable_elements xs) ⧺ "]")
    stable_stringify (obj ms) = object_text (stable_members ms)

    pub stable_elements : Elements → List String
    stable_elements nil = []
    stable_elements (cons x xs) = stable_stringify x ∷ stable_elements xs

    pub stable_members : Members → List (String × String)
    stable_members end = []
    stable_members (member k v ms) = (k, stable_stringify v) ∷ stable_members ms

  -- sha256Hex(stableStringify({ bodyJson, epistemicState, confidence }))
  pub compute_source_hash : (String → String) → Json → String → Json → String
  compute_source_hash sha256_hex body epistemic_state confidence = sha256_hex (
      stable_stringify (
        obj (
          member "bodyJson" body (
            member "epistemicState" (scalar (quote epistemic_state))
              (member "confidence" confidence end)))))
