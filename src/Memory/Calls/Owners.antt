-- ===== src/Memory/Calls/Owners.antt =====
-- Whose rows a call of a tool can change, and what any sequence of calls keeps.
use memory_and_soul_passport.Prelude.{
  String, ◌≡◌, refl, sym, ap, subst, ◌∙◌, ◌≢◌, ◌⊎◌, inl, inr, true, some, List, [], ◌∷◌, arith,
  ◌==◌, select, Bool-cases,
}
use memory_and_soul_passport.Errors.{Result, ok, err, Result-cases}
use memory_and_soul_passport.Grant.{Grant}
use memory_and_soul_passport.Vaults.{Vault, get_vault_by_id, is_principal}
use memory_and_soul_passport.Entities.{Entity, Store}
use memory_and_soul_passport.Entities.Ledger.{IsValid}
use memory_and_soul_passport.Entities.Reach.{apply-IsValid}
use memory_and_soul_passport.Entities.Isolation.{outside, is_outside, apply-outside}
use memory_and_soul_passport.Memory.{Times, check_access}
use memory_and_soul_passport.Memory.Authorized.{IsAuthorized, check_access-IsAuthorized}
use memory_and_soul_passport.Memory.Tools.{Tables, Server}
use memory_and_soul_passport.Memory.Calls.{
  Call, upsert, get, list, history, forget, decay_tick, links_list, links_create, Answer, upserted,
  got, listed, versions_are, forgotten, ticked, links_are, linked, envelope_of, needs_nonce,
  map_answer, read_answer, answer, after_call, after_calls,
}
use memory_and_soul_passport.Memory.Calls.Effects.{IsStep, links_inside}
use memory_and_soul_passport.Memory.Calls.Effects.Upserts.{memory_upsert-IsStep}
use memory_and_soul_passport.Memory.Calls.Effects.Forgets.{
  memory_forget-IsStep, memory_decay_tick-IsStep,
}
use memory_and_soul_passport.Memory.Calls.Effects.Reads.{
  memory_get-IsStep, memory_list-IsStep, memory_history-IsStep, memory_links_list-IsStep,
}
use memory_and_soul_passport.Memory.Calls.Effects.Links.{memory_links_create-IsStep}

map_answer-eq-ok :
    {State Value Said : Type 0} (f : Value → Said) (r : Result (State × Value)) {s : State}
    {a : Said}
    → map_answer f r ≡ ok (s, a)
    → (v : Value) × (r ≡ ok (s, v))
map_answer-eq-ok f (err e) h = cc
map_answer-eq-ok f (ok (s', v)) {s} h = let same : s' ≡ s = cc in (v, ap (λ x. ok (x, v)) same)

read_answer-eq-ok :
    {State Value Said : Type 0} (f : Value → Said) (s : State) (r : Result Value) {s' : State}
    {a : Said}
    → read_answer f s r ≡ ok (s', a)
    → (v : Value) × (r ≡ ok v) × (s ≡ s')
read_answer-eq-ok f s (err e) h = cc
read_answer-eq-ok f s (ok v) h = (v, refl, cc)

-- What a vault holds, in the order of the table.
abbrev pub inside : {Score : Type 0} → String → Store Score → List (Entity Score)
inside vault s = select (λ e. e.vault_id == vault) s.entities

inside-outside :
    {Score : Type 0} (v w : String) (es : List (Entity Score))
    → w ≢ v
    → select (λ e. e.vault_id == w) (select (is_outside v) es) ≡ select (λ e. e.vault_id == w) es
unfolding select
inside-outside v w [] n = refl
inside-outside v w (e ∷ es) n = ground (arith, inside-outside v w es n)

module _ {Score : Type 0} (server : Server Score) where
  -- Every tool's success is a step.
  pub answer-IsStep :
      (c : Call) (times : Times) (t t' : Tables Score) (a : Answer Score)
      → answer server c times t ≡ ok (t', a)
      → IsStep server c times t t'
  unfolding answer
  answer-IsStep (upsert r) times t t' a h =
      let (u, k) = map_answer-eq-ok upserted _ h in memory_upsert-IsStep server r times t t' u k
  answer-IsStep (get r) times t t' a h =
      let (u, k) = map_answer-eq-ok got _ h in memory_get-IsStep server r times t t' u k
  answer-IsStep (list r) times t t' a h =
      let (u, k, is) = read_answer-eq-ok (λ p. listed p.0 p.1) t _ h in
      subst (IsStep server (list r) times t) is (memory_list-IsStep server r times t k)
  answer-IsStep (history r) times t t' a h =
      let (u, k, is) = read_answer-eq-ok versions_are t _ h in
      subst (IsStep server (history r) times t) is (memory_history-IsStep server r times t k)
  answer-IsStep (forget r) times t t' a h =
      let (u, k) = map_answer-eq-ok forgotten _ h in memory_forget-IsStep server r times t t' u k
  answer-IsStep (decay_tick r) times t t' a h =
      let (u, k) = map_answer-eq-ok ticked _ h in memory_decay_tick-IsStep server r times t t' u k
  answer-IsStep (links_list r d) times t t' a h =
      let (u, k, is) = read_answer-eq-ok links_are t _ h in
      subst (IsStep server (links_list r d) times t) is
        (memory_links_list-IsStep server r d times t k)
  answer-IsStep (links_create r) times t t' a h =
      let (u, k) = map_answer-eq-ok linked _ h in memory_links_create-IsStep server r times t t' u k

  module _ (c : Call) (times : Times) (t t' : Tables Score) (step : IsStep server c times t t')
      (valid : IsValid t.store) where
    step-IsValid : IsValid t'.store
    step-IsValid = elim step.store_after [
      | inl kept ↦ subst IsValid (sym kept) valid
      | inr (o, _, ran) ↦ subst IsValid (sym ran) (
          apply-IsValid server.one server.hash_of server.entity_id_of server.scores o t.store valid)
    ]

    step-outside : outside step.vault.vault_id t'.store ≡ outside step.vault.vault_id t.store
    step-outside = elim step.store_after [
      | inl kept ↦ ap (outside step.vault.vault_id) kept
      | inr (o, local, ran) ↦
          ap (outside step.vault.vault_id) ran
          ∙ apply-outside server.one server.hash_of server.entity_id_of server.scores t.store valid
              step.vault.vault_id o local
    ]

    step-inside : (w : String) → w ≢ step.vault.vault_id → inside w t'.store ≡ inside w t.store
    step-inside w other =
        sym (inside-outside step.vault.vault_id w t'.store.entities other)
        ∙ ap (select (λ e. e.vault_id == w)) step-outside
        ∙ inside-outside step.vault.vault_id w t.store.entities other

  -- A call that changes an entity or a link of a principal vault had a grant that verifies for the
  -- name of its tool and for its members, and whose claims reach the vault: where the entity tables
  -- are valid, for each of the eight calls.
  pub answer-IsAuthorized :
      (c : Call) (times : Times) (t t' : Tables Score) (a : Answer Score) (w : Vault)
      → IsValid t.store
      → get_vault_by_id w.vault_id t.registry ≡ some w
      → is_principal w.vault_type ≡ true
      → answer server c times t ≡ ok (t', a)
      → (inside w.vault_id t'.store ≢ inside w.vault_id t.store)
        ⊎ (links_inside w.vault_id t'.links ≢ links_inside w.vault_id t.links)
      → (g : Grant) × IsAuthorized server.gate t.registry w
          (envelope_of server.gate c)
          (needs_nonce c)
          times.granted_at
          g
  answer-IsAuthorized c times t t' a w valid there principal h changed =
      let step = answer-IsStep c times t t' a h in
      elim (Bool-cases (w.vault_id == step.vault.vault_id)) [
        | inl same ↦
            let same_id : w.vault_id ≡ step.vault.vault_id = ground arith in
            let same_vault : some step.vault ≡ some w =
              sym step.target ∙ ap (λ x. get_vault_by_id x t.registry) (sym same_id) ∙ there in
            let is_w : step.vault ≡ w = cc in
            let checked =
              subst
                (λ x.
                  check_access server.gate t.registry x (envelope_of server.gate c) (needs_nonce c)
                    times.granted_at
                  ≡ ok step.grant)
                is_w step.checked in
            let (g, _, authorized) =
              check_access-IsAuthorized server.gate t.registry w (envelope_of server.gate c)
                (needs_nonce c) times.granted_at step.grant principal checked in
            (g, authorized)
        | inr other ↦
            let apart : w.vault_id ≢ step.vault.vault_id = ground arith in
            absurd (elim changed [
              | inl entities ↦ entities (step-inside c times t t' step valid w.vault_id apart)
              | inr links ↦ links (step.links_after w.vault_id apart)
            ])
      ]

  after_call-IsValid :
      (c : Call) (times : Times) (t : Tables Score)
      → IsValid t.store
      → IsValid (after_call server (c, times) t).store
        × ((after_call server (c, times) t).registry ≡ t.registry)
  unfolding after_call
  after_call-IsValid c times t valid = elim (Result-cases (answer server c times t)) [
    | inl (e, h) ↦ rw (after_call, h) (valid, refl)
    | inr ((t', a), h) ↦
        let step = answer-IsStep c times t t' a h in
        rw (after_call, h) (step-IsValid c times t t' step valid, step.registry_after)
  ]

  -- Any sequence of calls, of any tools and with any requests, some of which fail, keeps the entity
  -- tables valid and writes nothing to the registry.
  pub after_calls-IsValid :
      (cs : List (Call × Times)) (t : Tables Score)
      → IsValid t.store
      → IsValid (after_calls server cs t).store × ((after_calls server cs t).registry ≡ t.registry)
  unfolding after_calls
  after_calls-IsValid [] t valid = (valid, refl)
  after_calls-IsValid ((c, times) ∷ cs) t valid =
      let (v, same) = after_call-IsValid c times t valid in
      let (w, kept) = after_calls-IsValid cs (after_call server (c, times) t) v in (w, kept ∙ same)
