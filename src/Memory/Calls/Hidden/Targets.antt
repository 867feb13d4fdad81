-- ===== src/Memory/Calls/Hidden/Targets.antt =====
-- msp_memory_links_create: the entity that a link leads to.
use memory_and_soul_passport.Prelude.{String, ◌≡◌, refl, inl, inr, true, some, none}
use memory_and_soul_passport.Errors.{Error, ok, err, not_found, Result-cases}
use memory_and_soul_passport.Grant.{Grant}
use memory_and_soul_passport.Vaults.{Vault, is_principal}
use memory_and_soul_passport.Entities.{Entity, Store, get_by_id}
use memory_and_soul_passport.Memory.{Times, check_access, vault_of_entity}
use memory_and_soul_passport.Memory.Authorized.{IsAuthorized}
use memory_and_soul_passport.Memory.Tools.{Tables, Server, require_string}
use memory_and_soul_passport.Memory.Reads.{require_entity}
use memory_and_soul_passport.Memory.Writes.{LinkRequest, links_create_envelope, memory_links_create}
use memory_and_soul_passport.Memory.Calls.Hidden.{AimsAtEntity, NoEntity, check_access-refused}

same_entity :
    {Score : Type 0} (id : String) (s s' : Store Score)
    → get_by_id id s' ≡ get_by_id id s
    → require_entity id s' ≡ require_entity id s
unfolding require_entity
same_entity id s s' same = rw (require_entity, same) refl

require_entity-known :
    {Score : Type 0} (id : String) (s : Store Score) {e : Entity Score}
    → get_by_id id s ≡ some e
    → require_entity id s ≡ ok e
unfolding require_entity
require_entity-known id s found = rw (require_entity, found) refl

require_entity-unknown :
    {Score : Type 0} (id : String) (s : Store Score)
    → get_by_id id s ≡ none
    → require_entity id s ≡ err not_found
unfolding require_entity
require_entity-unknown id s absent = rw (require_entity, absent) refl

module _ {Score : Type 0} (server : Server Score) where
  -- Where the entity that a link should lead to lies in a principal vault, and no grant is authorized
  -- for the link when that vault is checked, msp_memory_links_create throws an error with the same
  -- code as on any tables with the same vaults and the same entity to start from, but without that
  -- target, where the first check reads the same time.
  pub links_create_target-hidden :
      (r : LinkRequest) (times times' : Times) (t t' : Tables Score) (v : Vault)
      → AimsAtEntity r.to_entity_id t v
      → is_principal v.vault_type ≡ true
      → ((g : Grant)
          → ¬ IsAuthorized server.gate t.registry v
              (links_create_envelope server.gate r)
              true
              times.granted_again_at
              g)
      → NoEntity r.to_entity_id t'
      → t'.registry ≡ t.registry
      → ((id : String)
          → require_string r.from_entity_id ≡ ok id
          → get_by_id id t'.store ≡ get_by_id id t.store)
      → times'.granted_at ≡ times.granted_at
      → (e : Error) × (memory_links_create server r times t ≡ err e)
        × (memory_links_create server r times' t' ≡ err e)
  unfolding memory_links_create vault_of_entity
  links_create_target-hidden r times times' t t' v (to_id, given, (to_e, found, there)) p refuses
        unknown vaults same now =
      let request = links_create_envelope server.gate r in
      let refused =
        check_access-refused server.gate t.registry v request true times.granted_again_at p
          refuses in
      let known = require_entity-known to_id t.store found in
      elim (Result-cases (require_string r.from_entity_id)) [
        | inl (x, bad) ↦ (x, rw (memory_links_create, bad) refl, rw (memory_links_create, bad) refl)
        | inr (from_id, named) ↦
            let alike = same_entity from_id t.store t'.store (same from_id named) in
            elim (Result-cases (require_string r.link_type)) [
              | inl (x, bad) ↦ (
                x,
                rw (memory_links_create, named, given, bad) refl,
                rw (memory_links_create, named, given, bad) refl,
              )
              | inr (type, typed) ↦ elim (Result-cases (require_entity from_id t.store)) [
                | inl (x, bad) ↦ (
                  x,
                  rw (memory_links_create, named, given, typed, bad) refl,
                  rw (memory_links_create, named, given, typed, alike, bad) refl,
                )
                | inr (e, good) ↦ elim (Result-cases (vault_of_entity e.vault_id t.registry)) [
                  | inl (x, bad) ↦ (
                    x,
                    rw (memory_links_create, named, given, typed, good, bad) refl,
                    rw (memory_links_create, named, given, typed, alike, good, vaults, bad) refl,
                  )
                  | inr (w, its) ↦
                      elim (Result-cases
                        (check_access server.gate t.registry w request true times.granted_at)) [
                          | inl (x, bad) ↦ (
                            x,
                            rw (memory_links_create, named, given, typed, good, its, bad) refl,
                            rw
                                (
                                  memory_links_create, named, given, typed, alike, good, vaults,
                                  its, now, bad,
                                )
                                refl,
                          )
                          | inr (g, passed) ↦ (
                            not_found,
                            rw
                                (
                                  memory_links_create, named, given, typed, good, its, passed,
                                  known, vault_of_entity, there, refused,
                                )
                                refl,
                            rw
                                (
                                  memory_links_create,
                                  named,
                                  given,
                                  typed,
                                  alike,
                                  good,
                                  vaults,
                                  its,
                                  now,
                                  passed,
                                  require_entity-unknown to_id t'.store (unknown to_id given),
                                )
                                refl,
                          )
                        ]
                ]
              ]
            ]
      ]
