-- ===== src/Entities/Ledger.antt =====
-- The invariant of the two tables: one row for each key, and for each row its whole ledger.
pub mod Writes
use memory_and_soul_passport.Prelude.{
  ℕ, zero, suc, ◌+◌, ◌≤◌, ◌<◌, String, ◌≡◌, refl, sym, ap, subst, ◌∙◌, ◌≢◌, inl, inr, Option, none,
  some, List, [], ◌∷◌, ◌++◌, Bool, true, false, ◌&&◌, arith, ◌==◌, find, any, any-append, nat_eq,
  All, All-mono, All-append, All_of_any, Pairwise, Bool-cases, if◌then◌else◌,
}
use memory_and_soul_passport.Entities.{
  Content, Entity, HistoryRow, Store, by_key, has_id, is_version, update_where,
}

-- The versions of one entity in the order in which they were written.
unfoldable pub versions : String → List HistoryRow → List ℕ
versions id [] = []
versions id (r ∷ rs) = if r.entity_id == id then r.version ∷ versions id rs else versions id rs

-- 1, 2, ..., n
unfoldable pub up_to : ℕ → List ℕ
up_to zero = []
up_to (suc n) = up_to n ++ suc n ∷ []

-- What the last row of an entity says.
pub newest : String → List HistoryRow → Option Content
newest id [] = none
newest id (r ∷ rs) = elim (newest id rs) [
  | some c ↦ some c
  | none ↦ if r.entity_id == id then some r.content else none
]

-- The row agrees with the newest of its ledger in what a reader sees.
pub record Agrees (c d : Content) : Type 0 where
  pub body : c.body ≡ d.body
  pub epistemic_state : c.epistemic_state ≡ d.epistemic_state
  pub confidence : c.confidence ≡ d.confidence
  pub valid_from : c.valid_from ≡ d.valid_from
  pub valid_to : c.valid_to ≡ d.valid_to
  pub source_hash : c.source_hash ≡ d.source_hash

module _ {Score : Type 0} where
  abbrev pub DistinctIds : Entity Score → Entity Score → Type 0
  DistinctIds e f = e.entity_id ≢ f.entity_id

  abbrev pub DistinctKeys : Entity Score → Entity Score → Type 0
  DistinctKeys e f = by_key f.vault_id f.category f.key e ≡ false

  pub record HasLedger (history : List HistoryRow) (e : Entity Score) : Type 0 where
    pub complete : versions e.entity_id history ≡ up_to e.current_version
    pub last : Content
    pub is_last : newest e.entity_id history ≡ some last
    pub agrees : Agrees e.content last

  abbrev pub HasOwner : List (Entity Score) → HistoryRow → Type 0
  HasOwner es r = any (has_id r.entity_id) es ≡ true

  pub record IsValid (s : Store Score) : Type 0 where
    pub ids : Pairwise DistinctIds s.entities
    pub keys : Pairwise DistinctKeys s.entities
    pub ledgers : All (HasLedger s.history) s.entities
    pub owned : All (HasOwner s.entities) s.history

pub versions-append :
    (id : String) (rs : List HistoryRow) (r : HistoryRow)
    → versions id (rs ++ r ∷ [])
      ≡ (if r.entity_id == id then versions id rs ++ r.version ∷ [] else versions id rs)
unfolding versions
versions-append id [] r = refl
versions-append id (x ∷ rs) r = ground (arith, versions-append id rs r)

pub newest-append :
    (id : String) (rs : List HistoryRow) (r : HistoryRow)
    → newest id (rs ++ r ∷ []) ≡ (if r.entity_id == id then some r.content else newest id rs)
unfolding newest
newest-append id [] r = refl
newest-append id (x ∷ rs) r = ground (arith, newest-append id rs r)

-- A version that no row has is a free key of entity_history.
any_version-versions :
    (id : String) (n m : ℕ) (rs : List HistoryRow)
    → any (is_version id n) rs ≡ any (λ v. nat_eq v n) (versions id rs)
unfolding versions any
any_version-versions id n m [] = refl
any_version-versions id n m (r ∷ rs) = ground (arith, any_version-versions id n m rs)

any-up_to : (n k : ℕ) → n < k → any (λ v. nat_eq v k) (up_to n) ≡ false
unfolding any up_to
any-up_to zero k h = refl
any-up_to (suc n) k h =
    rw (any-append (λ v. nat_eq v k) (up_to n) (suc n ∷ []), any-up_to n k (omega arith))
      (ground arith)

pub free_version :
    (id : String) (n : ℕ) (rs : List HistoryRow)
    → versions id rs ≡ up_to n
    → any (is_version id (n + 1)) rs ≡ false
free_version id n rs h =
    rw (any_version-versions id (n + 1) 0 rs, h) (any-up_to n (n + 1) (omega arith))

pub versions_of_unowned :
    {Score : Type 0} (id : String) (es : List (Entity Score)) (rs : List HistoryRow)
    → any (has_id id) es ≡ false
    → All (HasOwner es) rs
    → versions id rs ≡ []
unfolding versions
versions_of_unowned id es [] h o = refl
versions_of_unowned id es (r ∷ rs) h (p, o) = elim (Bool-cases (r.entity_id == id)) [
  | inl same ↦
      let is : r.entity_id ≡ id = ground arith in
      let there : any (has_id id) es ≡ true = subst (λ x. any (has_id x) es ≡ true) is p in
      absurd (ground arith)
  | inr other ↦ rw other (versions_of_unowned id es rs h o)
]

pub up_to-add_one : (n : ℕ) → up_to (n + 1) ≡ up_to n ++ (n + 1) ∷ []
unfolding up_to
up_to-add_one n = let e : n + 1 ≡ suc n = omega arith in rw e refl

pub up_to-one : up_to 1 ≡ 1 ∷ []
unfolding up_to
up_to-one = refl

pub up_to-zero : up_to 0 ≡ []
unfolding up_to
up_to-zero = refl
