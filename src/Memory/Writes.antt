-- ===== src/Memory/Writes.antt =====
-- The other tools of memory-handlers.mjs that write: msp_memory_forget, msp_memory_decay_tick and
-- msp_memory_links_create.
use memory_and_soul_passport.Prelude.{
  ℕ, String, Bool, true, false, not, Option, none, some, [], ◌∷◌, length, if◌then◌else◌, ◌==◌,
}
use memory_and_soul_passport.Errors.{Result, ok, ◌>>=◌, ◌>>◌}
use memory_and_soul_passport.Grant.{Claim, text, whole, boolean, Grant}
use memory_and_soul_passport.Json.{scalar}
use memory_and_soul_passport.Temporal.{missing, at}
use memory_and_soul_passport.Vaults.{Vault, DecayPolicy, ebbinghaus, pinned}
use memory_and_soul_passport.Entities.{Entity, Store}
use memory_and_soul_passport.Entities.Forget.{forget}
use memory_and_soul_passport.Entities.Decay.{Report, no_tally, run_decay_tick}
use memory_and_soul_passport.Links.{LinkInput, LinkCreated, create_link}
use memory_and_soul_passport.Guards.{assert_vault_scope}
use memory_and_soul_passport.Memory.{
  Gate, Sent, Envelope, envelope, value, Times, check_access, require_known_vault, vault_of_entity,
  is_true,
}
use memory_and_soul_passport.Memory.Tools.{
  Tables, Server, require_string, resolve_actor, journal_row, log, spend,
}
use memory_and_soul_passport.Memory.Reads.{require_entity}

pub record ForgetRequest : Type 0 where
  pub sent : Sent
  pub entity_id : Claim
  pub reason : Claim
  pub actor : Claim

pub record DecayRequest : Type 0 where
  pub sent : Sent
  pub vault_id : Claim
  pub dry_run : Claim
  pub actor : Claim

pub record LinkRequest : Type 0 where
  pub sent : Sent
  pub from_entity_id : Claim
  pub to_entity_id : Claim
  pub link_type : Claim
  pub actor : Claim

abbrev pub forget_envelope : Gate → ForgetRequest → Envelope
forget_envelope gate r =
    envelope gate "msp_memory_forget"
      (("entity_id", value r.entity_id)
        ∷ ("reason", value r.reason)
        ∷ ("actor", value r.actor)
        ∷ [])
      r.sent

abbrev pub decay_tick_envelope : Gate → DecayRequest → Envelope
decay_tick_envelope gate r =
    envelope gate "msp_memory_decay_tick"
      (("vault.vault_id", value r.vault_id)
        ∷ ("dry_run", value r.dry_run)
        ∷ ("actor", value r.actor)
        ∷ [])
      r.sent

abbrev pub links_create_envelope : Gate → LinkRequest → Envelope
links_create_envelope gate r =
    envelope gate "msp_memory_links_create"
      (("from_entity_id", value r.from_entity_id)
        ∷ ("to_entity_id", value r.to_entity_id)
        ∷ ("link_type", value r.link_type)
        ∷ ("actor", value r.actor)
        ∷ [])
      r.sent

abbrev pub is_pinned : DecayPolicy → Bool
is_pinned pinned = true
is_pinned ebbinghaus = false

-- `fromGrant ?? toGrant`
abbrev pub or_grant : Option Grant → Option Grant → Option Grant
or_grant none g = g
or_grant (some f) g = some f

abbrev pub no_report : Report
no_report = record { evaluated = 0; tally = no_tally }

module _ {Score : Type 0} (server : Server Score) where
  open server use {gate, link_id_of, scores, thresholds}

  -- The transaction of msp_memory_forget.
  unfoldable pub forget_write :
      Vault
      → Option Grant
      → Entity Score
      → String
      → String
      → Times
      → Tables Score
      → Result (Tables Score × Entity Score)
  forget_write v grant e reason actor times t = do
    t₁ ← spend server v grant times t
    done ← forget e.vault_id e.category e.key (some reason) actor times.written_at t₁.store
    ok (record t₁ { store = done.0 }, done.1)

  unfoldable pub memory_forget :
      ForgetRequest → Times → Tables Score → Result (Tables Score × Entity Score)
  unfolding forget_write
  memory_forget r times t = do
    id ← require_string r.entity_id
    reason ← require_string r.reason
    e ← require_entity id t.store
    v ← vault_of_entity e.vault_id t.registry
    grant ← check_access gate t.registry v (forget_envelope gate r) true times.granted_at
    done ← forget_write v grant e reason (resolve_actor r.actor) times t
    t₁ ←
        log server
          (journal_row (resolve_actor r.actor) "msp_memory_forget" (some id)
            (("entity_id", text id) ∷ ("reason", text reason) ∷ []) times.journaled_at)
          done.0
    ok (t₁, done.1)

  -- A pinned vault is not swept.
  unfoldable pub decay_store :
      Vault → String → Bool → ℕ → Store Score → Result (Store Score × Report)
  decay_store v vault_id dry_run now s =
      if is_pinned v.decay_policy
      then ok (s, no_report)
      else run_decay_tick scores thresholds vault_id dry_run now s

  -- The transaction of msp_memory_decay_tick.
  unfoldable pub decay_write :
      Vault
      → Option Grant
      → String
      → Bool
      → String
      → Times
      → Tables Score
      → Result (Tables Score × Report)
  unfolding decay_store
  decay_write v grant vault_id dry_run actor times t = do
    t₁ ← if dry_run then ok t else spend server v grant times t
    done ← decay_store v vault_id dry_run times.written_at t₁.store
    t₂ ←
        log server
          (journal_row actor "msp_memory_decay_tick" none
            (("vault_id", text vault_id)
              ∷ ("dry_run", boolean dry_run)
              ∷ ("evaluated", whole (done.1).evaluated)
              ∷ ("transitioned_count", whole (length (done.1).tally.transitioned))
              ∷ ("pinned", boolean (is_pinned v.decay_policy))
              ∷ [])
            times.journaled_at)
          (record t₁ { store = done.0 })
    ok (t₂, done.1)

  unfoldable pub memory_decay_tick :
      DecayRequest → Times → Tables Score → Result (Tables Score × Report)
  unfolding decay_write
  memory_decay_tick r times t = do
    vault_id ← require_string r.vault_id
    v ← require_known_vault vault_id t.registry
    grant ←
        check_access gate t.registry v (decay_tick_envelope gate r) (not (is_true r.dry_run))
          times.granted_at
    decay_write v grant vault_id (is_true r.dry_run) (resolve_actor r.actor) times t

  -- The confidence is that of the default of `create`.
  abbrev pub link_input : String → String → String → String → ℕ → LinkInput
  link_input vault from_id to_id type now = record {
    vault_id = vault;
    from_entity_id = from_id;
    to_entity_id = to_id;
    link_type = type;
    confidence = scalar "0.5";
    valid_from = at now;
    valid_to = missing;
  }

  unfoldable pub log_link : String → Times → Tables Score → LinkCreated → Result (Tables Score)
  log_link actor times t done =
      if done.created
      then log server
          (journal_row actor "msp_memory_links_create" (some done.link.link_id)
            (("vault_id", text done.link.vault_id)
              ∷ ("from_entity_id", text done.link.from_entity_id)
              ∷ ("to_entity_id", text done.link.to_entity_id)
              ∷ ("link_type", text done.link.link_type)
              ∷ [])
            times.journaled_at)
          t
      else ok t

  -- The transaction of msp_memory_links_create.
  unfoldable pub link_write :
      Vault
      → Option Grant
      → LinkInput
      → String
      → Times
      → Tables Score
      → Result (Tables Score × LinkCreated)
  unfolding log_link
  link_write v grant i actor times t = do
    t₁ ← spend server v grant times t
    done ← create_link link_id_of i times.written_at t₁.links
    t₂ ← log_link actor times (record t₁ { links = done.0 }) done.1
    ok (t₂, done.1)

  unfoldable pub memory_links_create :
      LinkRequest → Times → Tables Score → Result (Tables Score × LinkCreated)
  unfolding link_write
  memory_links_create r times t = do
    from_id ← require_string r.from_entity_id
    to_id ← require_string r.to_entity_id
    type ← require_string r.link_type
    from_e ← require_entity from_id t.store
    from_vault ← vault_of_entity from_e.vault_id t.registry
    from_grant ←
        check_access gate t.registry from_vault (links_create_envelope gate r) true times.granted_at
    to_e ← require_entity to_id t.store
    to_vault ← vault_of_entity to_e.vault_id t.registry
    to_grant ←
        check_access gate t.registry to_vault (links_create_envelope gate r) true
          times.granted_again_at
    assert_vault_scope (from_e.vault_id == to_e.vault_id)
    link_write from_vault (or_grant from_grant to_grant)
        (link_input from_e.vault_id from_id to_id type times.valid_from) (resolve_actor r.actor)
        times t
