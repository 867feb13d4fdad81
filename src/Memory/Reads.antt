-- ===== src/Memory/Reads.antt =====
-- The tools of memory-handlers.mjs that read: msp_memory_get, which reinforces what it finds,
-- msp_memory_list, msp_memory_history and msp_memory_links_list. `msp_memory_search` asks the
-- retrieval and is left out. A JSON member that the tool reads is a claim.
use memory_and_soul_passport.Prelude.{
  ℕ, String, [], ◌∷◌, false, Option, none, some, List, map, if◌then◌else◌, ◌==◌,
}
use memory_and_soul_passport.Errors.{Result, ok, err, ◌>>=◌, not_found}
use memory_and_soul_passport.Text.{optional_string}
use memory_and_soul_passport.Grant.{Claim, text, whole}
use memory_and_soul_passport.Entities.{Entity, HistoryRow, Store, get_by_id}
use memory_and_soul_passport.Entities.Decay.{touch}
use memory_and_soul_passport.Entities.Read.{
  Found, nothing, current, version_of, get_entity, history_of, reverse_rows, ListInput,
  list_entities,
}
use memory_and_soul_passport.Links.{Link, Direction, outgoing, incoming, both, list_links}
use memory_and_soul_passport.Memory.{
  Gate, Sent, Envelope, envelope, value, Times, check_access, require_known_vault, vault_of_entity,
}
use memory_and_soul_passport.Memory.Tools.{Tables, Server, require_string, stamp_of}

pub record GetRequest : Type 0 where
  pub sent : Sent
  pub vault_id : Claim
  pub category : Claim
  pub key : Claim
  pub as_of_valid_at : Claim
  pub as_of_recorded_at : Claim

pub record ListRequest : Type 0 where
  pub sent : Sent
  pub vault_id : Claim
  pub category : Claim
  pub lifecycle_state : Claim
  pub page_size : Claim
  pub page_token : Claim

pub record EntityRequest : Type 0 where
  pub sent : Sent
  pub entity_id : Claim

-- A version with the identity of its entity.
pub record HistoryEntry : Type 0 where
  pub vault_id : String
  pub category : String
  pub key : String
  pub row : HistoryRow

abbrev pub get_envelope : Gate → GetRequest → Envelope
get_envelope gate r =
    envelope gate "msp_memory_get"
      (("vault.vault_id", value r.vault_id)
        ∷ ("category", value r.category)
        ∷ ("key", value r.key)
        ∷ ("as_of_valid_at", value r.as_of_valid_at)
        ∷ ("as_of_recorded_at", value r.as_of_recorded_at)
        ∷ [])
      r.sent

abbrev pub list_envelope : Gate → ListRequest → Envelope
list_envelope gate r =
    envelope gate "msp_memory_list"
      (("vault.vault_id", value r.vault_id)
        ∷ ("category", value r.category)
        ∷ ("lifecycle_state", value r.lifecycle_state)
        ∷ ("page_size", value r.page_size)
        ∷ ("page_token", value r.page_token)
        ∷ [])
      r.sent

abbrev pub history_envelope : Gate → EntityRequest → Envelope
history_envelope gate r =
    envelope gate "msp_memory_history" (("entity_id", value r.entity_id) ∷ []) r.sent

abbrev pub links_list_envelope : Gate → EntityRequest → Claim → Envelope
links_list_envelope gate r direction =
    envelope gate "msp_memory_links_list"
      (("entity_id", value r.entity_id) ∷ ("direction", value direction) ∷ []) r.sent

-- `typeof args.page_size === "number" ? args.page_size : undefined`, of whole numbers
abbrev pub number_of : Claim → Option ℕ
number_of (whole n) = some n
number_of _ = none

-- Any other word means both.
abbrev pub direction_of : Claim → Direction
direction_of (text s) =
    if s == "outgoing" then outgoing else if s == "incoming" then incoming else both
direction_of _ = both

module _ {Score : Type 0} where
  unfoldable pub require_entity : String → Store Score → Result (Entity Score)
  require_entity id s = elim (get_by_id id s) [ none ↦ err not_found | some e ↦ ok e ]

  abbrev pub entry_of : Entity Score → HistoryRow → HistoryEntry
  entry_of e r = record { vault_id = e.vault_id; category = e.category; key = e.key; row = r }

module _ {Score : Type 0} (server : Server Score) where
  open server use {gate}

  -- A read of the present reinforces the entity; one of the past does not.
  unfoldable pub reinforce_found :
      Times → Tables Score → Found Score → Result (Tables Score × Found Score)
  reinforce_found times t nothing = err not_found
  reinforce_found times t (current e) = do
    s ← touch e.entity_id times.written_at t.store
    ok (record t { store = s }, current e)
  reinforce_found times t (version_of e r) = ok (t, version_of e r)

  -- Everything after the access check.
  unfoldable pub get_granted :
      GetRequest → String → Times → Tables Score → Result (Tables Score × Found Score)
  unfolding reinforce_found
  get_granted r vault_id times t = do
    category ← require_string r.category
    key ← require_string r.key
    found ←
        get_entity vault_id category key (stamp_of server r.as_of_valid_at)
          (stamp_of server r.as_of_recorded_at) times.checked_at times.purged_at t.store
    reinforce_found times t found

  unfoldable pub memory_get :
      GetRequest → Times → Tables Score → Result (Tables Score × Found Score)
  unfolding get_granted
  memory_get r times t = do
    vault_id ← require_string r.vault_id
    v ← require_known_vault vault_id t.registry
    grant ← check_access gate t.registry v (get_envelope gate r) false times.granted_at
    get_granted r vault_id times t

  abbrev pub list_input : ListRequest → String → ListInput
  list_input r vault_id = record {
    vault_id = vault_id;
    category = optional_string r.category;
    lifecycle_state = optional_string r.lifecycle_state;
    limit = number_of r.page_size;
    cursor = optional_string r.page_token;
  }

  unfoldable pub memory_list :
      ListRequest → Times → Tables Score → Result (List (Entity Score) × Option String)
  memory_list r times t = do
    vault_id ← require_string r.vault_id
    v ← require_known_vault vault_id t.registry
    grant ← check_access gate t.registry v (list_envelope gate r) false times.granted_at
    list_entities (list_input r vault_id) t.store

  unfoldable pub memory_history : EntityRequest → Times → Tables Score → Result (List HistoryEntry)
  unfolding require_entity
  memory_history r times t = do
    id ← require_string r.entity_id
    e ← require_entity id t.store
    v ← vault_of_entity e.vault_id t.registry
    grant ← check_access gate t.registry v (history_envelope gate r) false times.granted_at
    rows ← history_of e.vault_id e.category e.key t.store
    ok (map (entry_of e) (reverse_rows rows))

  unfoldable pub memory_links_list :
      EntityRequest → Claim → Times → Tables Score → Result (List Link)
  unfolding require_entity
  memory_links_list r direction times t = do
    id ← require_string r.entity_id
    e ← require_entity id t.store
    v ← vault_of_entity e.vault_id t.registry
    grant ←
        check_access gate t.registry v (links_list_envelope gate r direction) false times.granted_at
    list_links id (direction_of direction) t.links
