-- ===== src/Memory/Tools.antt =====
-- msp_memory_upsert of memory-handlers.mjs, and what the tools share. A tool that
-- writes returns the tables after it; one that throws has written nothing: the row of the journal,
-- which upsert and forget append after their transaction, is refused only for an empty actor, and no
-- actor is empty here.
use memory_and_soul_passport.Prelude.{
  ℕ, String, true, not, Option, none, some, List, [], ◌∷◌, if◌then◌else◌, ◌==◌,
}
use memory_and_soul_passport.Errors.{
  Result, ok, err, ◌>>=◌, ◌>>◌, guard, invalid_request, validation_failed,
}
use memory_and_soul_passport.Text.{has_space, optional_string}
use memory_and_soul_passport.Grant.{Claim, text, boolean, Grant}
use memory_and_soul_passport.Nonces.{NonceRow}
use memory_and_soul_passport.Vaults.{Vault, Registry}
use memory_and_soul_passport.Json.{Json, scalar, obj, end}
use memory_and_soul_passport.Temporal.{Stamp, missing}
use memory_and_soul_passport.Entities.{Entity, Store, UpsertInput, Upserted, upsert}
use memory_and_soul_passport.Entities.Decay.{Scores, Thresholds}
use memory_and_soul_passport.Links.{Link}
use memory_and_soul_passport.Journal.{Journal, JournalRow, allow, append}
use memory_and_soul_passport.Memory.{
  Gate, Sent, Envelope, envelope, value, json, Times, check_access, consume_authorized_grant,
  require_known_vault,
}

-- A row of `embeddings`, whose key is the entity (there is one collection).
pub record Embedding : Type 0 where
  pub entity_id : String
  pub vector : String
  pub content_hash : String
  pub created_at : ℕ

-- The `vaults` of the store are the keys of those of the registry.
pub record Tables (Score : Type 0) : Type 0 where
  pub registry : Registry
  pub nonces : List NonceRow
  pub store : Store Score
  pub links : List Link
  pub embeddings : List Embedding
  pub journal : Journal

-- What the handlers are made with. `embed` is the answer of the vector client to an entity's text,
-- `read_stamp` what Date.parse makes of a time.
pub record Server (Score : Type 0) : Type 0 where
  pub gate : Gate
  pub one : Score
  pub hash_of : Json → String → Json → String
  pub entity_id_of : String → String → String → String
  pub link_id_of : String → String → String → String → String
  pub read_stamp : String → Stamp
  pub embed : Entity Score → Option String
  pub scores : Scores Score
  pub thresholds : Thresholds Score

unfoldable pub require_string : Claim → Result String
require_string v = elim (optional_string v) [ none ↦ err invalid_request | some t ↦ ok t ]

unfoldable pub resolve_actor : Claim → String
resolve_actor v = elim (optional_string v) [ none ↦ "system" | some t ↦ t ]

-- ON CONFLICT (entity_id, collection) DO UPDATE
pub upsert_embedding : Embedding → List Embedding → List Embedding
upsert_embedding e [] = e ∷ []
upsert_embedding e (x ∷ xs) =
    if x.entity_id == e.entity_id then e ∷ xs else x ∷ upsert_embedding e xs

abbrev pub journal_row : String → String → Option String → Grant → ℕ → JournalRow
journal_row actor tool ref payload now = record {
  occurred_at = now;
  actor = actor;
  tool_name = tool;
  ref = ref;
  workspace_id = none;
  payload = payload;
  policy_decision = allow;
  reason = none;
}

-- The texts of a category, which may hold no space, and of a key.
unfoldable pub require_category : Claim → Result String
require_category (text s) = do
  c ← require_string (text s)
  guard (not (has_space s)) validation_failed
  ok c
require_category _ = err invalid_request

pub record UpsertRequest : Type 0 where
  pub sent : Sent
  pub vault_id : Claim
  pub category : Claim
  pub key : Claim
  pub body : Option Json
  pub epistemic_state : Claim
  pub confidence : Option Json
  pub valid_from : Claim
  pub valid_to : Claim
  pub actor : Claim

abbrev pub upsert_envelope : Gate → UpsertRequest → Envelope
upsert_envelope gate r =
    envelope gate "msp_memory_upsert"
      (("vault.vault_id", value r.vault_id)
        ∷ ("category", value r.category)
        ∷ ("key", value r.key)
        ∷ ("body_json", json r.body)
        ∷ ("epistemic_state", value r.epistemic_state)
        ∷ ("confidence", json r.confidence)
        ∷ ("valid_from", value r.valid_from)
        ∷ ("valid_to", value r.valid_to)
        ∷ ("actor", value r.actor)
        ∷ [])
      r.sent

abbrev pub or_json : Option Json → Json → Json
or_json none d = d
or_json (some j) d = j

abbrev pub or_text : Option String → String → String
or_text none d = d
or_text (some s) d = s

module _ {Score : Type 0} (server : Server Score) where
  open server use {
    gate, one, hash_of, entity_id_of, link_id_of, read_stamp, embed, scores, thresholds,
  }

  abbrev pub stamp_of : Claim → Stamp
  stamp_of v = elim (optional_string v) [ none ↦ missing | some t ↦ read_stamp t ]

  unfoldable pub log : JournalRow → Tables Score → Result (Tables Score)
  log r t = do j ← append r t.journal; ok (record t { journal = j })

  -- consumeAuthorizedGrant, on all tables
  unfoldable pub spend : Vault → Option Grant → Times → Tables Score → Result (Tables Score)
  spend v grant times t = do
    rows ← consume_authorized_grant v grant times t.nonces
    ok (record t { nonces = rows })

  unfoldable pub embed_on_write : Entity Score → ℕ → Tables Score → Tables Score
  embed_on_write e now t = elim (embed e) [
    | none ↦ t
    | some vector ↦ record t {
      embeddings =
          upsert_embedding
            (record {
              entity_id = e.entity_id;
              vector = vector;
              content_hash = e.content.source_hash;
              created_at = now;
            })
            t.embeddings;
    }
  ]

  abbrev pub upsert_input : UpsertRequest → String → String → String → UpsertInput
  upsert_input r vault category key = record {
    vault_id = vault;
    category = category;
    key = key;
    body = or_json r.body (obj end);
    epistemic_state = or_text (optional_string r.epistemic_state) "hypothesis";
    confidence = or_json r.confidence (scalar "0.5");
    reason = none;
    actor = resolve_actor r.actor;
    valid_from = stamp_of r.valid_from;
    valid_to = stamp_of r.valid_to;
  }

  -- The transaction of msp_memory_upsert.
  unfoldable pub upsert_write :
      Vault
      → Option Grant
      → UpsertInput
      → Times
      → Tables Score
      → Result (Tables Score × Upserted Score)
  upsert_write v grant i times t = do
    t₁ ← spend v grant times t
    done ← upsert one hash_of entity_id_of i times.written_at t₁.store
    ok (record t₁ { store = done.0 }, done.1)

  -- What follows it.
  unfoldable pub upsert_after :
      UpsertInput → Times → Tables Score × Upserted Score → Result (Tables Score × Upserted Score)
  upsert_after i times (t, u) = do
    t₁ ←
        log
          (journal_row i.actor "msp_memory_upsert" (some u.entity.entity_id)
            (("vault_id", text i.vault_id)
              ∷ ("category", text i.category)
              ∷ ("key", text i.key)
              ∷ ("created", boolean u.created)
              ∷ ("changed", boolean u.changed)
              ∷ [])
            times.journaled_at)
          (if u.changed then embed_on_write u.entity times.journaled_at t else t)
    ok (t₁, u)

  -- Everything after the access check.
  unfoldable pub upsert_granted :
      UpsertRequest
      → String
      → Vault
      → Times
      → Tables Score
      → Option Grant
      → Result (Tables Score × Upserted Score)
  upsert_granted r vault_id v times t grant = do
    category ← require_category r.category
    key ← require_string r.key
    done ← upsert_write v grant (upsert_input r vault_id category key) times t
    upsert_after (upsert_input r vault_id category key) times done

  unfoldable pub memory_upsert :
      UpsertRequest → Times → Tables Score → Result (Tables Score × Upserted Score)
  unfolding upsert_granted upsert_write upsert_after spend log embed_on_write upsert_embedding
  memory_upsert r times t = do
    vault_id ← require_string r.vault_id
    v ← require_known_vault vault_id t.registry
    grant ← check_access gate t.registry v (upsert_envelope gate r) true times.granted_at
    upsert_granted r vault_id v times t grant
