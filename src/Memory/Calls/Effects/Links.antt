-- ===== src/Memory/Calls/Effects/Links.antt =====
-- msp_memory_links_create: what a call that succeeds has done.
use memory_and_soul_passport.Prelude.{
  ℕ, String, ◌≡◌, refl, sym, ap, subst, ◌∙◌, inl, inr, true, Option, none, some, arith, ◌==◌, ◌≢◌,
  ◌||◌, List, [], ◌∷◌, ◌++◌, select, Option-cases, Bool-cases,
}
use memory_and_soul_passport.Errors.{ok, >>=-eq-ok, guard-eq-ok}
use memory_and_soul_passport.Grant.{Grant}
use memory_and_soul_passport.Vaults.{Vault, Registry, get_vault_by_id}
use memory_and_soul_passport.Entities.Upsert.Outcome.{ok-injective}
use memory_and_soul_passport.Memory.{
  Gate, Envelope, Times, check_access, consume_authorized_grant, vault_of_entity,
}
use memory_and_soul_passport.Memory.Tools.{Tables, Server, require_string, spend}
use memory_and_soul_passport.Memory.Authorized.{check_access-none}
use memory_and_soul_passport.Memory.Reads.{require_entity}
use memory_and_soul_passport.Memory.Calls.{links_create as links_create_call}
use memory_and_soul_passport.Memory.Calls.Effects.{
  links_inside, vault_of_entity_sound, IsStep, spend_sound, SameCore, log-SameCore,
}
use memory_and_soul_passport.Links.{
  Link, LinkInput, LinkCreated, find_link, new_link, insert_link, create_link,
}
use memory_and_soul_passport.Memory.Tools.{resolve_actor}
use memory_and_soul_passport.Memory.Writes.{
  links_create_envelope, LinkRequest, or_grant, log_link, link_write, memory_links_create,
}

select_append_other :
    (w : String) (ls : List Link) (l : Link)
    → w ≢ l.vault_id
    → links_inside w (ls ++ l ∷ []) ≡ links_inside w ls
unfolding select
select_append_other w [] l other = ground arith
select_append_other w (x ∷ ls) l other = ground (arith, select_append_other w ls l other)

insert_link_sound :
    (l : Link) (ls : List Link) {added : List Link}
    → insert_link l ls ≡ ok added
    → added ≡ ls ++ l ∷ []
unfolding insert_link
insert_link_sound l ls h = ground arith

-- A link is added to its vault at most.
create_link_outside :
    (id_of : String → String → String → String → String) (i : LinkInput) (now : ℕ) (ls : List Link)
    {ls' : List Link} {made : LinkCreated} (w : String)
    → create_link id_of i now ls ≡ ok (ls', made)
    → w ≢ i.vault_id
    → links_inside w ls' ≡ links_inside w ls
unfolding create_link insert_link
create_link_outside id_of i now ls {ls'} {made} w h other =
    elim (Bool-cases
      (i.vault_id == "" || i.from_entity_id == "" || i.to_entity_id == "" || i.link_type == "")) [
        | inl bad ↦ let k = rw (create_link, bad) at h in absurd cc
        | inr good ↦ elim (Option-cases (find_link i ls)) [
          | inr (l, found) ↦
              let (a, _) = ok-injective (rw (create_link, good, found) at h) in
              ap (links_inside w) (sym a)
          | inl absent ↦
              let (added, inserted, k) =
                >>=-eq-ok (insert_link (new_link id_of i now) ls) _
                  (rw (create_link, good, absent) at h) in
              let (a, _) = ok-injective k in
              ap (links_inside w) (sym a ∙ insert_link_sound (new_link id_of i now) ls inserted)
              ∙ select_append_other w ls (new_link id_of i now) other
        ]
      ]

module _ {Score : Type 0} (server : Server Score) where
  log_link-SameCore :
      (actor : String) (times : Times) (t : Tables Score) (done : LinkCreated) {t' : Tables Score}
      → log_link server actor times t done ≡ ok t'
      → SameCore server t t'
  unfolding log_link
  log_link-SameCore actor times t done {t'} h = elim (Bool-cases done.created) [
    | inl new ↦ log-SameCore server _ t (rw (log_link, new) at h)
    | inr old ↦
        let k = rw (log_link, old) at h in
        let same : t ≡ t' = cc in subst (SameCore server t) same (refl, refl, refl)
  ]

  link_write_sound :
      (v : Vault) (g : Option Grant) (i : LinkInput) (actor : String) (times : Times)
      (t t' : Tables Score) (done : LinkCreated)
      → link_write server v g i actor times t ≡ ok (t', done)
      → (t'.registry ≡ t.registry)
        × (consume_authorized_grant v g times t.nonces ≡ ok t'.nonces)
        × (t'.store ≡ t.store)
        × ((w : String) → w ≢ i.vault_id → links_inside w t'.links ≡ links_inside w t.links)
  unfolding link_write
  link_write_sound v g i actor times t t' done h =
      let (t₁, spent, h₁) = >>=-eq-ok (spend server v g times t) _ h in
      let (rows, consumed, is₁) = spend_sound server v g times t spent in
      let ((links, made), created, h₂) =
        >>=-eq-ok (create_link server.link_id_of i times.written_at t₁.links) _ h₁ in
      let (t₂, logged, h₃) = >>=-eq-ok (log_link server actor times _ made) _ h₂ in
      let (same, _) = ok-injective h₃ in
      let (a, b, c) =
        subst (SameCore server (record t₁ { links = links })) same
          (log_link-SameCore actor times _ made logged) in
      (
        ap (λ x. x.0) a ∙ ap (λ x. x.registry) is₁,
        consumed ∙ ap (λ x. ok x) (sym (b ∙ ap (λ x. x.nonces) is₁)),
        c ∙ ap (λ x. x.store) is₁,
        λ w other.
            ap (λ x. links_inside w x.1) a
            ∙ create_link_outside server.link_id_of i times.written_at t₁.links w created other
            ∙ ap (λ x. links_inside w x.links) is₁,
      )

  -- Both endpoints lie in one vault, so both checks gave one grant.
  same_grant :
      (gate : Gate) (registry : Registry) (request : Envelope) (now later : ℕ) (v w : Vault)
      (g g' : Option Grant)
      → v ≡ w
      → check_access gate registry v request true now ≡ ok g
      → check_access gate registry w request true later ≡ ok g'
      → or_grant g g' ≡ g
  same_grant gate registry request now later v w none g' same a b =
      let none_again = check_access-none gate registry v request true now later a in
      let is_none : check_access gate registry w request true later ≡ ok none =
        subst (λ x. check_access gate registry x request true later ≡ ok none) same none_again in
      cc
  same_grant gate registry request now later v w (some g) g' same a b = refl

  pub memory_links_create-IsStep :
      (r : LinkRequest) (times : Times) (t t' : Tables Score) (done : LinkCreated)
      → memory_links_create server r times t ≡ ok (t', done)
      → IsStep server (links_create_call r) times t t'
  unfolding memory_links_create
  memory_links_create-IsStep r times t t' done h =
      let (from_id, _, h₁) = >>=-eq-ok (require_string r.from_entity_id) _ h in
      let (to_id, _, h₂) = >>=-eq-ok (require_string r.to_entity_id) _ h₁ in
      let (type, _, h₃) = >>=-eq-ok (require_string r.link_type) _ h₂ in
      let (e, _, h₄) = >>=-eq-ok (require_entity from_id t.store) _ h₃ in
      let (v, known, h₅) = >>=-eq-ok (vault_of_entity e.vault_id t.registry) _ h₄ in
      let (g, checked, h₆) =
        >>=-eq-ok
          (check_access server.gate t.registry v (links_create_envelope server.gate r) true
            times.granted_at)
          _ h₅ in
      let (e', _, h₇) = >>=-eq-ok (require_entity to_id t.store) _ h₆ in
      let (v', known', h₈) = >>=-eq-ok (vault_of_entity e'.vault_id t.registry) _ h₇ in
      let (g', checked', h₉) =
        >>=-eq-ok
          (check_access server.gate t.registry v' (links_create_envelope server.gate r) true
            times.granted_again_at)
          _ h₈ in
      let (one_vault, wrote) = guard-eq-ok (e.vault_id == e'.vault_id) _ _ h₉ in
      let (found, named) = vault_of_entity_sound e.vault_id t.registry known in
      let (found', named') = vault_of_entity_sound e'.vault_id t.registry known' in
      let same_id : e.vault_id ≡ e'.vault_id = ground arith in
      let same_vault : v ≡ v' =
        some-injective (sym found ∙ ap (λ x. get_vault_by_id x t.registry) same_id ∙ found') in
      let (a, b, c, d) =
        link_write_sound v (or_grant g g') _ (resolve_actor r.actor) times t t' done wrote in
      record {
        vault = v;
        grant = g;
        target = subst (λ x. get_vault_by_id x t.registry ≡ some v) (sym named) found;
        checked = checked;
        registry_after = a;
        links_after = λ w other. d w (λ is. other (is ∙ sym named));
        nonces_after =
            subst (λ x. consume_authorized_grant v x times t.nonces ≡ ok t'.nonces)
              (same_grant server.gate t.registry (links_create_envelope server.gate r)
                times.granted_at times.granted_again_at v v' g g' same_vault checked checked')
              b;
        store_after = inl c;
      }
    where
      some-injective : {v w : Vault} → some v ≡ some w → v ≡ w
      some-injective k = cc
