-- ===== src/Memory/Calls/Effects/Reads.antt =====
-- The tools that read: what a call that succeeds has done.
use memory_and_soul_passport.Prelude.{
  String, ◌≡◌, refl, sym, ap, subst, ◌∙◌, ◌⊎◌, inl, inr, false, Option, some, List, arith,
  find-IsSelected,
}
use memory_and_soul_passport.Errors.{ok, >>=-eq-ok}
use memory_and_soul_passport.Grant.{Claim, Grant}
use memory_and_soul_passport.Vaults.{Vault, get_vault_by_id}
use memory_and_soul_passport.Entities.{Entity}
use memory_and_soul_passport.Entities.Upsert.Outcome.{ok-injective}
use memory_and_soul_passport.Entities.Reach.{Operation, touch_op, apply, store_or}
use memory_and_soul_passport.Entities.Isolation.{IsLocal}
use memory_and_soul_passport.Memory.{Times, check_access, require_known_vault, vault_of_entity}
use memory_and_soul_passport.Memory.Tools.{Tables, Server, require_string}
use memory_and_soul_passport.Memory.Reads.{
  get_envelope, list_envelope, history_envelope, links_list_envelope, require_entity,
}
use memory_and_soul_passport.Memory.Calls.{
  Call, envelope_of, get as get_call, list as list_call, history as history_call,
  links_list as links_list_call, needs_nonce,
}
use memory_and_soul_passport.Memory.Calls.Effects.{
  frame, links_inside, require_known_vault_sound, vault_of_entity_sound, apply_here, IsStep,
}
use memory_and_soul_passport.Entities.Decay.{touch}
use memory_and_soul_passport.Entities.Read.{Found, nothing, current, version_of, get_entity}
use memory_and_soul_passport.Links.{Link}
use memory_and_soul_passport.Memory.Reads.{
  GetRequest, ListRequest, EntityRequest, HistoryEntry, reinforce_found, get_granted, memory_get,
  memory_list, memory_history, memory_links_list,
}
use memory_and_soul_passport.Entities.Read.History.{get_entity-eq_current}
use memory_and_soul_passport.Temporal.{Stamp}
use memory_and_soul_passport.Entities.{by_key}

module _ {Score : Type 0} (server : Server Score) where
  -- A read of the present reinforces the entity that it found.
  reinforce_found_sound :
      (v : Vault) (g : Option Grant) (category key : String) (valid recorded : Stamp)
      (times : Times) (t t' : Tables Score) (f a : Found Score)
      → get_entity v.vault_id category key valid recorded times.checked_at times.purged_at t.store
        ≡ ok f
      → reinforce_found server times t f ≡ ok (t', a)
      → (frame t' ≡ frame t)
        × (t'.nonces ≡ t.nonces)
        × ((t'.store ≡ t.store)
            ⊎ ((o : Operation Score) × IsLocal v.vault_id t.store o
                × (t'.store ≡ apply_here server o t.store)))
  unfolding reinforce_found apply
  reinforce_found_sound v g category key valid recorded times t t' nothing a found h = cc
  reinforce_found_sound v g category key valid recorded times t t' (version_of e r) a found h =
      let (same, _) = ok-injective h in
      (
        ap (λ x. frame x) (sym same),
        ap (λ x. x.nonces) (sym same),
        inl (ap (λ x. x.store) (sym same)),
      )
  reinforce_found_sound v g category key valid recorded times t t' (current e) a found h =
      let (s, touched, h₁) = >>=-eq-ok (touch e.entity_id times.written_at t.store) _ h in
      let (same, _) = ok-injective h₁ in
      let there =
        get_entity-eq_current v.vault_id category key valid recorded _ _ t.store e found in
      let here = find-IsSelected (by_key v.vault_id category key) t.store.entities there in
      (
        ap (λ x. frame x) (sym same),
        ap (λ x. x.nonces) (sym same),
        inr (
          touch_op e.entity_id times.written_at,
          (e, by_key v.vault_id category key, refl, there, ground arith),
          ap (λ x. x.store) (sym same) ∙ sym (ap (λ x. store_or t.store x) touched),
        ),
      )

  get_granted_sound :
      (r : GetRequest) (v : Vault) (g : Option Grant) (times : Times) (t t' : Tables Score)
      (a : Found Score)
      → get_granted server r v.vault_id times t ≡ ok (t', a)
      → (frame t' ≡ frame t)
        × (t'.nonces ≡ t.nonces)
        × ((t'.store ≡ t.store)
            ⊎ ((o : Operation Score) × IsLocal v.vault_id t.store o
                × (t'.store ≡ apply_here server o t.store)))
  unfolding get_granted
  get_granted_sound r v g times t t' a h =
      let (category, _, h₁) = >>=-eq-ok (require_string r.category) _ h in
      let (key, _, h₂) = >>=-eq-ok (require_string r.key) _ h₁ in
      let (f, found, h₃) = >>=-eq-ok (get_entity v.vault_id category key _ _ _ _ t.store) _ h₂ in
      reinforce_found_sound v g category key _ _ times t t' f a found h₃

  pub memory_get-IsStep :
      (r : GetRequest) (times : Times) (t t' : Tables Score) (a : Found Score)
      → memory_get server r times t ≡ ok (t', a)
      → IsStep server (get_call r) times t t'
  unfolding memory_get
  memory_get-IsStep r times t t' a h =
      let (id, _, h₁) = >>=-eq-ok (require_string r.vault_id) _ h in
      let (v, known, h₂) = >>=-eq-ok (require_known_vault id t.registry) _ h₁ in
      let (g, checked, h₃) =
        >>=-eq-ok
          (check_access server.gate t.registry v (get_envelope server.gate r) false
            times.granted_at)
          _ h₂ in
      let (found, named) = require_known_vault_sound id t.registry known in
      let (b, c, d) =
        get_granted_sound r v g times t t' a
          (subst (λ x. get_granted server r x times t ≡ ok (t', a)) (sym named) h₃) in
      record {
        vault = v;
        grant = g;
        target = subst (λ x. get_vault_by_id x t.registry ≡ some v) (sym named) found;
        checked = checked;
        registry_after = ap (λ x. x.0) b;
        links_after = λ w other. ap (λ x. links_inside w x.1) (b);
        nonces_after = ap (λ x. ok x) (sym c);
        store_after = d;
      }

  -- A call that only reads.
  IsStep-read :
      (c : Call) (id : String) (v : Vault) (g : Option Grant) (times : Times) (t : Tables Score)
      → needs_nonce c ≡ false
      → get_vault_by_id id t.registry ≡ some v
      → v.vault_id ≡ id
      → check_access server.gate t.registry v
          (envelope_of server.gate c)
          (needs_nonce c)
          times.granted_at
        ≡ ok g
      → IsStep server c times t t
  IsStep-read c id v g times t reads found named checked = record {
    vault = v;
    grant = g;
    target = subst (λ x. get_vault_by_id x t.registry ≡ some v) (sym named) found;
    checked = checked;
    registry_after = refl;
    links_after = λ w other. refl;
    nonces_after = rw reads refl;
    store_after = inl refl;
  }

  pub memory_list-IsStep :
      (r : ListRequest) (times : Times) (t : Tables Score) {a : List (Entity Score) × Option String}
      → memory_list server r times t ≡ ok a
      → IsStep server (list_call r) times t t
  unfolding memory_list
  memory_list-IsStep r times t h =
      let (id, _, h₁) = >>=-eq-ok (require_string r.vault_id) _ h in
      let (v, known, h₂) = >>=-eq-ok (require_known_vault id t.registry) _ h₁ in
      let (g, checked, _) =
        >>=-eq-ok
          (check_access server.gate t.registry v (list_envelope server.gate r) false
            times.granted_at)
          _ h₂ in
      let (found, named) = require_known_vault_sound id t.registry known in
      IsStep-read (list_call r) id v g times t refl found named checked

  pub memory_history-IsStep :
      (r : EntityRequest) (times : Times) (t : Tables Score) {a : List HistoryEntry}
      → memory_history server r times t ≡ ok a
      → IsStep server (history_call r) times t t
  unfolding memory_history
  memory_history-IsStep r times t h =
      let (id, _, h₁) = >>=-eq-ok (require_string r.entity_id) _ h in
      let (e, _, h₂) = >>=-eq-ok (require_entity id t.store) _ h₁ in
      let (v, known, h₃) = >>=-eq-ok (vault_of_entity e.vault_id t.registry) _ h₂ in
      let (g, checked, _) =
        >>=-eq-ok
          (check_access server.gate t.registry v (history_envelope server.gate r) false
            times.granted_at)
          _ h₃ in
      let (found, named) = vault_of_entity_sound e.vault_id t.registry known in
      IsStep-read (history_call r) e.vault_id v g times t refl found named checked

  pub memory_links_list-IsStep :
      (r : EntityRequest) (d : Claim) (times : Times) (t : Tables Score) {a : List Link}
      → memory_links_list server r d times t ≡ ok a
      → IsStep server (links_list_call r d) times t t
  unfolding memory_links_list
  memory_links_list-IsStep r d times t h =
      let (id, _, h₁) = >>=-eq-ok (require_string r.entity_id) _ h in
      let (e, _, h₂) = >>=-eq-ok (require_entity id t.store) _ h₁ in
      let (v, known, h₃) = >>=-eq-ok (vault_of_entity e.vault_id t.registry) _ h₂ in
      let (g, checked, _) =
        >>=-eq-ok
          (check_access server.gate t.registry v (links_list_envelope server.gate r d) false
            times.granted_at)
          _ h₃ in
      let (found, named) = vault_of_entity_sound e.vault_id t.registry known in
      IsStep-read (links_list_call r d) e.vault_id v g times t refl found named checked
