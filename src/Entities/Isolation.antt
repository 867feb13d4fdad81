-- ===== src/Entities/Isolation.antt =====
-- The writes of the entity store stay in their vault: the rows of all other vaults are left in place.
use memory_and_soul_passport.Prelude.{
  ℕ, String, ◌≡◌, refl, sym, ap, subst, ◌∙◌, inl, inr, Option, some, List, [], ◌∷◌, ◌++◌, map, Bool,
  true, false, not, arith, ◌==◌, find, find-IsSelected, select, All, Pairwise, Bool-cases,
}
use memory_and_soul_passport.Json.{Json}
use memory_and_soul_passport.Errors.{ok, err, type_error, Result-cases}
use memory_and_soul_passport.Entities.{
  Entity, Store, UpsertInput, Upserted, by_key, has_id, get_by_id, update_where, upsert,
}
use memory_and_soul_passport.Entities.Ledger.{DistinctIds, IsValid}
use memory_and_soul_passport.Entities.Upsert.{find_by_id}
use memory_and_soul_passport.Entities.Upsert.Outcome.{
  unchanged, new_row, new_version, created_row, revision,
}
use memory_and_soul_passport.Entities.Upsert.Outcome
use memory_and_soul_passport.Entities.Forget.{forget}
use memory_and_soul_passport.Entities.Forget.Laws
use memory_and_soul_passport.Entities.Decay.{
  Scores, Thresholds, Report, is_swept, run_decay_tick, reinforce, touch,
}
use memory_and_soul_passport.Entities.Reach.{
  Operation, upsert_op, forget_op, decay_op, touch_op, apply,
}
use memory_and_soul_passport.Entities.Decay.Sweep.{swept, run_decay_tick-map}

pub select-append {ℓ} :
    {A : Type ℓ} (p : A → Bool) (xs ys : List A) → select p (xs ++ ys) ≡ select p xs ++ select p ys
unfolding select
select-append p [] ys = refl
select-append p (x ∷ xs) ys = ground (arith, select-append p xs ys)

module _ {Score : Type 0} where
  -- The row belongs to another vault.
  abbrev pub is_outside : String → Entity Score → Bool
  is_outside vault e = not (e.vault_id == vault)

  -- What the other vaults hold, in the order of the table.
  abbrev pub outside : String → Store Score → List (Entity Score)
  outside vault s = select (is_outside vault) s.entities

  -- Where ids are distinct, every row with the id of a row is that row.
  rows_of_id :
      (vault : String) (e : Entity Score) (es : List (Entity Score))
      → Pairwise DistinctIds es
      → find (has_id e.entity_id) es ≡ some e
      → e.vault_id ≡ vault
      → All (λ x. has_id e.entity_id x ≡ true → x.vault_id ≡ vault) es
  unfolding find
  rows_of_id vault e [] d h is = tt
  rows_of_id vault e (x ∷ es) (a, d) h is = elim (Bool-cases (has_id e.entity_id x)) [
    | inl here ↦
        let same : x ≡ e = ground arith in (λ k. ap (λ y. y.vault_id) same ∙ is, others x es here a)
    | inr there ↦ (λ k. absurd cc, rows_of_id vault e es d (ground arith) is)
  ]
    where
      others :
          (x : Entity Score) (xs : List (Entity Score))
          → has_id e.entity_id x ≡ true
          → All (DistinctIds x) xs
          → All (λ y. has_id e.entity_id y ≡ true → y.vault_id ≡ vault) xs
      others x [] here n = tt
      others x (y ∷ ys) here (n, ns) = (λ k. absurd (ground arith), others x ys here ns)

  select-update_where :
      (vault id : String) (f : Entity Score → Entity Score)
      → ((x : Entity Score) → (f x).vault_id ≡ x.vault_id)
      → (es : List (Entity Score)) → All (λ x. has_id id x ≡ true → x.vault_id ≡ vault) es
      → select (is_outside vault) (update_where id f es) ≡ select (is_outside vault) es
  unfolding select update_where
  select-update_where vault id f keeps [] local = refl
  select-update_where vault id f keeps (x ∷ es) (h, local) =
      let kept = keeps x in ground (arith, h, select-update_where vault id f keeps es local)

  -- An update of one row of the vault.
  outside-update :
      (vault : String) (e : Entity Score) (f : Entity Score → Entity Score) (s : Store Score)
      → ((x : Entity Score) → (f x).vault_id ≡ x.vault_id)
      → IsValid s
      → find (has_id e.entity_id) s.entities ≡ some e
      → e.vault_id ≡ vault
      → select (is_outside vault) (update_where e.entity_id f s.entities) ≡ outside vault s
  outside-update vault e f s keeps v found is =
      select-update_where vault e.entity_id f keeps s.entities
        (rows_of_id vault e s.entities v.ids found is)

  outside-append :
      (vault : String) (e : Entity Score) (es : List (Entity Score))
      → e.vault_id ≡ vault
      → select (is_outside vault) (es ++ e ∷ []) ≡ select (is_outside vault) es
  unfolding select
  outside-append vault e [] is = ground arith
  outside-append vault e (x ∷ es) is = ground (arith, outside-append vault e es is)

module _ {Score : Type 0} (one : Score) (hash_of : Json → String → Json → String)
    (id_of : String → String → String → String) where
  -- An upsert.
  pub upsert-outside :
      (i : UpsertInput) (now : ℕ) (s t : Store Score) (u : Upserted Score)
      → IsValid s
      → upsert one hash_of id_of i now s ≡ ok (t, u)
      → outside i.vault_id t ≡ outside i.vault_id s
  upsert-outside i now s t u v h = elim (Outcome.outcome one hash_of id_of i now s v h) [
    | unchanged e found same alive is_t is_u ↦ ap (outside i.vault_id) is_t
    | new_row fresh free is_t is_u ↦
        ap (outside i.vault_id) is_t
        ∙ outside-append i.vault_id (created_row one hash_of id_of i now s) s.entities refl
    | new_version e found w is_t is_u ↦
        let here = find-IsSelected (by_key i.vault_id i.category i.key) s.entities found in
        ap (outside i.vault_id) is_t
        ∙ outside-update i.vault_id e (revision one hash_of id_of i now s e found w) s (λ x. refl) v
            (find_by_id (by_key i.vault_id i.category i.key) s.entities e v.ids found)
            (ground arith)
  ]

module _ {Score : Type 0} where
  -- A forget.
  pub forget-outside :
      (vault category key : String) (reason : Option String) (actor : String) (now : ℕ)
      (s t : Store Score) (d : Entity Score)
      → IsValid s
      → forget vault category key reason actor now s ≡ ok (t, d)
      → outside vault t ≡ outside vault s
  forget-outside vault category key reason actor now s t d v h =
      elim (Laws.outcome vault category key reason actor now s v h) [
        | Laws.before found gone is_t ↦ ap (outside vault) is_t
        | Laws.now_forgotten e found w is_t is_d ↦
            let here = find-IsSelected (by_key vault category key) s.entities found in
            ap (outside vault) is_t
            ∙ outside-update vault e (Laws.f vault category key reason actor now s e found w) s
                (λ x. refl) v (find_by_id (by_key vault category key) s.entities e v.ids found)
                (ground arith)
      ]

  -- A reinforcement.
  pub touch-outside :
      (vault : String) (e : Entity Score) (now : ℕ) (s t : Store Score)
      → IsValid s
      → get_by_id e.entity_id s ≡ some e
      → e.vault_id ≡ vault
      → touch e.entity_id now s ≡ ok t
      → outside vault t ≡ outside vault s
  unfolding touch
  touch-outside vault e now s t v found is h = elim (Bool-cases (e.entity_id == "")) [
    | inl blank ↦ let no : touch e.entity_id now s ≡ err type_error = rw blank refl in absurd cc
    | inr named ↦
        let same : t ≡ record s { entities = update_where e.entity_id (reinforce now) s.entities } =
          ground arith in
        ap (outside vault) same ∙ outside-update vault e (reinforce now) s (λ x. refl) v found is
  ]

module _ {Score : Type 0} (f : Scores Score) (th : Thresholds Score) (now : ℕ)
    (vault : String) where
  select-swept :
      (es : List (Entity Score))
      → select (is_outside vault) (map (swept f th now (is_swept f vault)) es)
        ≡ select (is_outside vault) es
  unfolding select
  select-swept [] = refl
  select-swept (e ∷ es) = ground (arith, select-swept es)

  -- A decay sweep.
  pub run_decay_tick-outside :
      (dry_run : Bool) (s t : Store Score) (report : Report)
      → IsValid s
      → run_decay_tick f th vault dry_run now s ≡ ok (t, report)
      → outside vault t ≡ outside vault s
  unfolding run_decay_tick
  run_decay_tick-outside dry_run s t report v h = elim (Bool-cases (vault == "")) [
    | inl blank ↦
        let no : run_decay_tick f th vault dry_run now s ≡ err type_error = rw blank refl in
        absurd cc
    | inr named ↦
        let (r, wet, dry) = run_decay_tick-map f th now vault s (ground arith) v.ids in
        by_mode dry_run r wet dry h
  ]
    where
      by_mode :
          (d : Bool) (r : Report)
          → run_decay_tick f th vault false now s
            ≡ ok (record s { entities = map (swept f th now (is_swept f vault)) s.entities }, r)
          → run_decay_tick f th vault true now s ≡ ok (s, r)
          → run_decay_tick f th vault d now s ≡ ok (t, report)
          → outside vault t ≡ outside vault s
      by_mode false r wet dry k =
          let (a, b) = Outcome.ok-injective (sym k ∙ wet) in
          ap (outside vault) a ∙ select-swept s.entities
      by_mode true r wet dry k =
          let (a, b) = Outcome.ok-injective (sym k ∙ dry) in ap (outside vault) a

-- An operation of the entity store on a row of this vault.
abbrev pub IsLocal : {Score : Type 0} → String → Store Score → Operation Score → Type 0
IsLocal vault s (upsert_op i now) = i.vault_id ≡ vault
IsLocal vault s (forget_op v category key reason actor now) = v ≡ vault
IsLocal vault s (decay_op th v dry_run now) = v ≡ vault
IsLocal {Score = Score} vault s (touch_op id now) =
    (e : Entity Score) × (p : Entity Score → Bool) × (e.entity_id ≡ id)
    × (find p s.entities ≡ some e)
    × (e.vault_id ≡ vault)

module _ {Score : Type 0} (one : Score) (hash_of : Json → String → Json → String)
    (id_of : String → String → String → String) (f : Scores Score) (s : Store Score)
    (v : IsValid s) where
  -- Whatever operation is tried on a vault, all rows of the others stay.
  pub apply-outside :
      (vault : String) (o : Operation Score)
      → IsLocal vault s o
      → outside vault (apply one hash_of id_of f o s) ≡ outside vault s
  unfolding apply
  apply-outside vault (upsert_op i now) is =
      elim (Result-cases (upsert one hash_of id_of i now s)) [
        | inl (e, h) ↦ rw h refl
        | inr ((t, u), h) ↦ rw (h, ← is) (upsert-outside one hash_of id_of i now s t u v h)
      ]
  apply-outside vault (forget_op w category key reason actor now) is =
      elim (Result-cases (forget w category key reason actor now s)) [
        | inl (e, h) ↦ rw h refl
        | inr ((t, d), h) ↦ rw (h, ← is) (forget-outside w category key reason actor now s t d v h)
      ]
  apply-outside vault (decay_op th w dry_run now) is =
      elim (Result-cases (run_decay_tick f th w dry_run now s)) [
        | inl (e, h) ↦ rw h refl
        | inr ((t, report), h) ↦
            rw (h, ← is) (run_decay_tick-outside f th now w dry_run s t report v h)
      ]
  apply-outside vault (touch_op id now) (e, p, named, found, is) =
      elim (Result-cases (touch id now s)) [
        | inl (thrown, h) ↦ rw h refl
        | inr (t, h) ↦
            let there = find_by_id p s.entities e v.ids found in
            let done = subst (λ x. touch x now s ≡ ok t) (sym named) h in
            rw h (touch-outside vault e now s t v there is done)
      ]
