-- ===== src/Memory/Calls/Hidden.antt =====
-- A caller without a grant learns nothing of a principal vault, not even that it is there. An error is
-- its code; Targets has the second entity of a link.
pub mod Targets
use memory_and_soul_passport.Prelude.{
  ℕ, String, ◌≡◌, refl, inl, inr, Bool, true, false, not, none, some,
}
use memory_and_soul_passport.Errors.{Error, Result, ok, err, not_found, Result-cases}
use memory_and_soul_passport.Grant.{Claim, Grant}
use memory_and_soul_passport.Vaults.{Vault, Registry, get_vault_by_id, is_principal}
use memory_and_soul_passport.Entities.{Entity, get_by_id}
use memory_and_soul_passport.Memory.{
  Gate, Envelope, Times, check_access, require_known_vault, vault_of_entity, is_true,
}
use memory_and_soul_passport.Memory.Authorized.{
  IsAuthorized, check_access-IsAuthorized, check_access-hidden,
}
use memory_and_soul_passport.Memory.Tools.{
  upsert_envelope, Tables, Server, UpsertRequest, require_string, memory_upsert,
}
use memory_and_soul_passport.Memory.Reads.{
  get_envelope, list_envelope, history_envelope, links_list_envelope, GetRequest, ListRequest,
  EntityRequest, require_entity, memory_get, memory_list, memory_history, memory_links_list,
}
use memory_and_soul_passport.Memory.Writes.{
  forget_envelope, decay_tick_envelope, links_create_envelope, ForgetRequest, DecayRequest,
  LinkRequest, memory_forget, memory_decay_tick, memory_links_create,
}
use memory_and_soul_passport.Memory.Calls.{
  Call, upsert, get, list, history, forget, decay_tick, links_list, links_create, envelope_of,
  needs_nonce, map_answer, read_answer, upserted, got, listed, versions_are, forgotten, ticked,
  links_are, linked, answer,
}

module _ {Score : Type 0} where
  -- The vault with this id is the target.
  abbrev AimsAtVault : Claim → Tables Score → Vault → Type 0
  AimsAtVault c t v =
      (id : String) × (require_string c ≡ ok id) × (get_vault_by_id id t.registry ≡ some v)

  -- The vault of the entity with this id is the target.
  abbrev pub AimsAtEntity : Claim → Tables Score → Vault → Type 0
  AimsAtEntity c t v =
      (id : String) × (require_string c ≡ ok id)
      × ((e : Entity Score) × (get_by_id id t.store ≡ some e)
          × (get_vault_by_id e.vault_id t.registry ≡ some v))

  abbrev pub Aims : Call → Tables Score → Vault → Type 0
  Aims (upsert r) t v = AimsAtVault r.vault_id t v
  Aims (get r) t v = AimsAtVault r.vault_id t v
  Aims (list r) t v = AimsAtVault r.vault_id t v
  Aims (decay_tick r) t v = AimsAtVault r.vault_id t v
  Aims (history r) t v = AimsAtEntity r.entity_id t v
  Aims (forget r) t v = AimsAtEntity r.entity_id t v
  Aims (links_list r d) t v = AimsAtEntity r.entity_id t v
  Aims (links_create r) t v = AimsAtEntity r.from_entity_id t v

  abbrev NoVault : Claim → Tables Score → Type 0
  NoVault c t = (id : String) → require_string c ≡ ok id → get_vault_by_id id t.registry ≡ none

  abbrev pub NoEntity : Claim → Tables Score → Type 0
  NoEntity c t = (id : String) → require_string c ≡ ok id → get_by_id id t.store ≡ none

  -- The vault or entity that the call names is in no table.
  abbrev pub IsUnknown : Call → Tables Score → Type 0
  IsUnknown (upsert r) t = NoVault r.vault_id t
  IsUnknown (get r) t = NoVault r.vault_id t
  IsUnknown (list r) t = NoVault r.vault_id t
  IsUnknown (decay_tick r) t = NoVault r.vault_id t
  IsUnknown (history r) t = NoEntity r.entity_id t
  IsUnknown (forget r) t = NoEntity r.entity_id t
  IsUnknown (links_list r d) t = NoEntity r.entity_id t
  IsUnknown (links_create r) t = NoEntity r.from_entity_id t

-- Both calls throw the same error.
abbrev FailsAlike : {A : Type 0} → Result A → Result A → Type 0
FailsAlike a b = (e : Error) × (a ≡ err e) × (b ≡ err e)

map_answer-FailsAlike :
    {State Value Said : Type 0} (f : Value → Said) (a b : Result (State × Value))
    → FailsAlike a b
    → FailsAlike (map_answer f a) (map_answer f b)
map_answer-FailsAlike f a b (e, p, q) = (e, rw p refl, rw q refl)

read_answer-FailsAlike :
    {State Value Said : Type 0} (f : Value → Said) (s t : State) (a b : Result Value)
    → FailsAlike a b
    → FailsAlike (read_answer f s a) (read_answer f t b)
read_answer-FailsAlike f s t a b (e, p, q) = (e, rw p refl, rw q refl)

module _ (gate : Gate) (registry : Registry) (v : Vault) (request : Envelope) (b : Bool)
    (now : ℕ) where
  pub check_access-refused :
      is_principal v.vault_type ≡ true
      → ((g : Grant) → ¬ IsAuthorized gate registry v request b now g)
      → check_access gate registry v request b now ≡ err not_found
  check_access-refused p none_is =
      elim (Result-cases (check_access gate registry v request b now)) [
        | inl (e, h) ↦
            let hidden = check_access-hidden gate registry v request b now e p h in
            rw (h, hidden) refl
        | inr (o, h) ↦
            let (g, _, k) = check_access-IsAuthorized gate registry v request b now o p h in
            absurd (none_is g k)
      ]

module _ {Score : Type 0} (server : Server Score) (times times' : Times) (t t' : Tables Score)
    (v : Vault) (p : is_principal v.vault_type ≡ true) where
  abbrev Refuses : Envelope → Bool → Type 0
  Refuses request b =
      (g : Grant) → ¬ IsAuthorized server.gate t.registry v request b times.granted_at g

  upsert_hidden :
      (r : UpsertRequest)
      → AimsAtVault r.vault_id t v
      → Refuses (upsert_envelope server.gate r) true
      → NoVault r.vault_id t'
      → FailsAlike (memory_upsert server r times t) (memory_upsert server r times' t')
  unfolding memory_upsert require_known_vault
  upsert_hidden r (id, named, there) refuses unknown =
      let refused =
        check_access-refused server.gate t.registry v (upsert_envelope server.gate r) true
          times.granted_at p refuses in
      (
        not_found,
        rw (memory_upsert, named, require_known_vault, there, refused) refl,
        rw (memory_upsert, named, require_known_vault, unknown id named) refl,
      )

  get_hidden :
      (r : GetRequest)
      → AimsAtVault r.vault_id t v
      → Refuses (get_envelope server.gate r) false
      → NoVault r.vault_id t'
      → FailsAlike (memory_get server r times t) (memory_get server r times' t')
  unfolding memory_get require_known_vault
  get_hidden r (id, named, there) refuses unknown =
      let refused =
        check_access-refused server.gate t.registry v (get_envelope server.gate r) false
          times.granted_at p refuses in
      (
        not_found,
        rw (memory_get, named, require_known_vault, there, refused) refl,
        rw (memory_get, named, require_known_vault, unknown id named) refl,
      )

  list_hidden :
      (r : ListRequest)
      → AimsAtVault r.vault_id t v
      → Refuses (list_envelope server.gate r) false
      → NoVault r.vault_id t'
      → FailsAlike (memory_list server r times t) (memory_list server r times' t')
  unfolding memory_list require_known_vault
  list_hidden r (id, named, there) refuses unknown =
      let refused =
        check_access-refused server.gate t.registry v (list_envelope server.gate r) false
          times.granted_at p refuses in
      (
        not_found,
        rw (memory_list, named, require_known_vault, there, refused) refl,
        rw (memory_list, named, require_known_vault, unknown id named) refl,
      )

  decay_tick_hidden :
      (r : DecayRequest)
      → AimsAtVault r.vault_id t v
      → Refuses (decay_tick_envelope server.gate r) (not (is_true r.dry_run))
      → NoVault r.vault_id t'
      → FailsAlike (memory_decay_tick server r times t) (memory_decay_tick server r times' t')
  unfolding memory_decay_tick require_known_vault
  decay_tick_hidden r (id, named, there) refuses unknown =
      let refused =
        check_access-refused server.gate t.registry v (decay_tick_envelope server.gate r)
          (not (is_true r.dry_run)) times.granted_at p refuses in
      (
        not_found,
        rw (memory_decay_tick, named, require_known_vault, there, refused) refl,
        rw (memory_decay_tick, named, require_known_vault, unknown id named) refl,
      )

  history_hidden :
      (r : EntityRequest)
      → AimsAtEntity r.entity_id t v
      → Refuses (history_envelope server.gate r) false
      → NoEntity r.entity_id t'
      → FailsAlike (memory_history server r times t) (memory_history server r times' t')
  unfolding memory_history require_entity vault_of_entity
  history_hidden r (id, named, (e, found, there)) refuses unknown =
      let refused =
        check_access-refused server.gate t.registry v (history_envelope server.gate r) false
          times.granted_at p refuses in
      (
        not_found,
        rw (memory_history, named, require_entity, found, vault_of_entity, there, refused) refl,
        rw (memory_history, named, require_entity, unknown id named) refl,
      )

  links_list_hidden :
      (r : EntityRequest) (d : Claim)
      → AimsAtEntity r.entity_id t v
      → Refuses (links_list_envelope server.gate r d) false
      → NoEntity r.entity_id t'
      → FailsAlike (memory_links_list server r d times t) (memory_links_list server r d times' t')
  unfolding memory_links_list require_entity vault_of_entity
  links_list_hidden r d (id, named, (e, found, there)) refuses unknown =
      let refused =
        check_access-refused server.gate t.registry v (links_list_envelope server.gate r d) false
          times.granted_at p refuses in
      (
        not_found,
        rw (memory_links_list, named, require_entity, found, vault_of_entity, there, refused) refl,
        rw (memory_links_list, named, require_entity, unknown id named) refl,
      )

  -- A reason that is missing is reported first, in both.
  forget_hidden :
      (r : ForgetRequest)
      → AimsAtEntity r.entity_id t v
      → Refuses (forget_envelope server.gate r) true
      → NoEntity r.entity_id t'
      → FailsAlike (memory_forget server r times t) (memory_forget server r times' t')
  unfolding memory_forget require_entity vault_of_entity
  forget_hidden r (id, named, (e, found, there)) refuses unknown =
      let refused =
        check_access-refused server.gate t.registry v (forget_envelope server.gate r) true
          times.granted_at p refuses in
      elim (Result-cases (require_string r.reason)) [
        | inl (x, bad) ↦
            (x, rw (memory_forget, named, bad) refl, rw (memory_forget, named, bad) refl)
        | inr (x, good) ↦ (
          not_found,
          rw (memory_forget, named, good, require_entity, found, vault_of_entity, there, refused)
              refl,
          rw (memory_forget, named, good, require_entity, unknown id named) refl,
        )
      ]

  links_create_hidden :
      (r : LinkRequest)
      → AimsAtEntity r.from_entity_id t v
      → Refuses (links_create_envelope server.gate r) true
      → NoEntity r.from_entity_id t'
      → FailsAlike (memory_links_create server r times t) (memory_links_create server r times' t')
  unfolding memory_links_create require_entity vault_of_entity
  links_create_hidden r (id, named, (e, found, there)) refuses unknown =
      let refused =
        check_access-refused server.gate t.registry v (links_create_envelope server.gate r) true
          times.granted_at p refuses in
      elim (Result-cases (require_string r.to_entity_id)) [
        | inl (x, bad) ↦ (
          x,
          rw (memory_links_create, named, bad) refl,
          rw (memory_links_create, named, bad) refl,
        )
        | inr (to_id, good) ↦ elim (Result-cases (require_string r.link_type)) [
          | inl (x, bad) ↦ (
            x,
            rw (memory_links_create, named, good, bad) refl,
            rw (memory_links_create, named, good, bad) refl,
          )
          | inr (type, given) ↦ (
            not_found,
            rw
                (
                  memory_links_create, named, good, given, require_entity, found, vault_of_entity,
                  there, refused,
                )
                refl,
            rw (memory_links_create, named, good, given, require_entity, unknown id named) refl,
          )
        ]
      ]

module _ {Score : Type 0} (server : Server Score) where
  -- A call on a principal vault, or on an entity in one, without a grant that is authorized for it
  -- throws an error with the same code as on any tables without the vault or entity that it names,
  -- whatever the clock reads there: for each of the eight calls, where the entity that
  -- msp_memory_links_create names is the one that the link starts from.
  pub answer-hidden :
      (c : Call) (times times' : Times) (t t' : Tables Score) (v : Vault)
      → Aims c t v
      → is_principal v.vault_type ≡ true
      → ((g : Grant)
          → ¬ IsAuthorized server.gate t.registry v
              (envelope_of server.gate c)
              (needs_nonce c)
              times.granted_at
              g)
      → IsUnknown c t'
      → (e : Error) × (answer server c times t ≡ err e) × (answer server c times' t' ≡ err e)
  unfolding answer
  answer-hidden (upsert r) times times' t t' v aims p refuses unknown =
      map_answer-FailsAlike upserted _ _
        (upsert_hidden server times times' t t' v p r aims refuses unknown)
  answer-hidden (get r) times times' t t' v aims p refuses unknown =
      map_answer-FailsAlike got _ _ (get_hidden server times times' t t' v p r aims refuses unknown)
  answer-hidden (list r) times times' t t' v aims p refuses unknown =
      read_answer-FailsAlike (λ x. listed x.0 x.1) t t' _ _
        (list_hidden server times times' t t' v p r aims refuses unknown)
  answer-hidden (decay_tick r) times times' t t' v aims p refuses unknown =
      map_answer-FailsAlike ticked _ _
        (decay_tick_hidden server times times' t t' v p r aims refuses unknown)
  answer-hidden (history r) times times' t t' v aims p refuses unknown =
      read_answer-FailsAlike versions_are t t' _ _
        (history_hidden server times times' t t' v p r aims refuses unknown)
  answer-hidden (links_list r d) times times' t t' v aims p refuses unknown =
      read_answer-FailsAlike links_are t t' _ _
        (links_list_hidden server times times' t t' v p r d aims refuses unknown)
  answer-hidden (forget r) times times' t t' v aims p refuses unknown =
      map_answer-FailsAlike forgotten _ _
        (forget_hidden server times times' t t' v p r aims refuses unknown)
  answer-hidden (links_create r) times times' t t' v aims p refuses unknown =
      map_answer-FailsAlike linked _ _
        (links_create_hidden server times times' t t' v p r aims refuses unknown)
