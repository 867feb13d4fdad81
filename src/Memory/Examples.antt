-- ===== src/Memory/Examples.antt =====
-- A principal vault and a request with a grant for it, and the theorems on the tools applied to them.
use memory_and_soul_passport.Prelude.{
  ℕ, String, ◌≡◌, ◌≢◌, refl, true, none, some, List, [], ◌∷◌, leb, map, find, any, select, length,
  inl, arith, ap, subst, dec_text,
}
use memory_and_soul_passport.Errors.{Error, ok, err, not_found}
use memory_and_soul_passport.Grant.{
  absent, text, whole, boolean, Grant, Access, usable_key, named_grant, in_window, is_claim_string,
  assert_claim_strings, signature_matches, claim, text_length, verify_signed_grant,
}
use memory_and_soul_passport.Grant.Examples.{toy, keys, toy_hmac, toy_from_hex, same_bytes}
use memory_and_soul_passport.Temporal.{missing}
use memory_and_soul_passport.Vaults.{Vault, get_vault_by_id}
use memory_and_soul_passport.Vaults.Principal.{Owner, private_row}
use memory_and_soul_passport.Entities.{Entity, Store}
use memory_and_soul_passport.Entities.Ledger.{IsValid, up_to}
use memory_and_soul_passport.Entities.Reach.{empty_store}
use memory_and_soul_passport.Text.{optional_string, trim, trim_start, trim_end, has_space}
use memory_and_soul_passport.Nonces.{
  consume_grant_nonce, nonce_text, plausible_expiry, insert_nonce, purge, is_used,
}
use memory_and_soul_passport.Guards.{verify_vault_grant, required_claims, require_grant_nonce}
use memory_and_soul_passport.Journal.{append}
use memory_and_soul_passport.Vaults.Access.{
  classify_principal_access, is_vault_row_accessible_to, accessible_by_type,
}
use memory_and_soul_passport.Entities as Entities
use memory_and_soul_passport.Entities.{
  Upserted, UpsertInput, new_entity, history_row, content_of, create_entity, insert_entity,
  is_epistemic, insert_history, reread,
}
use memory_and_soul_passport.Memory.{
  check_access, consume_authorized_grant, require_known_vault, Sent,
}
use memory_and_soul_passport.Memory.Authorized.{IsAuthorized}
use memory_and_soul_passport.Memory.Tools.{
  Tables, Server, UpsertRequest, upsert_envelope, require_string, require_category, upsert_granted,
  upsert_write, upsert_after, spend, embed_on_write, upsert_input, journal_row, log, resolve_actor,
  memory_upsert,
}
use memory_and_soul_passport.Memory.Calls.{upsert, upserted, answer, after_call, after_calls}
use memory_and_soul_passport.Memory.Reads.{
  EntityRequest, HistoryEntry, entry_of, require_entity, memory_history,
}
use memory_and_soul_passport.Memory.Histories.{memory_history_complete}
use memory_and_soul_passport.Entities.Read.{
  of_entity, history_of, history_asc, insert_by_version, sort_by_version, reverse_rows,
}
use memory_and_soul_passport.Memory.{vault_of_entity}
use memory_and_soul_passport.Entities.{get_by_id}
use memory_and_soul_passport.Memory.Calls.Owners.{inside, answer-IsAuthorized, after_calls-IsValid}
use memory_and_soul_passport.Memory.Calls.Once.Upserts.{all_at, memory_upsert_once}
use memory_and_soul_passport.Memory.Calls.Hidden.{AimsAtEntity, NoEntity, answer-hidden}
use memory_and_soul_passport.Memory.Calls.Hidden.Targets.{links_create_target-hidden}
use memory_and_soul_passport.Memory.Writes.{LinkRequest, memory_links_create}
use memory_and_soul_passport.Vaults.Examples.{shared_vault}

abbrev owner : Owner
owner = record { tenant_id = "t"; principal_id = "p"; agent_id = "a"; workspace_id = "w" }

abbrev vault : Vault
vault = record (private_row owner 10) { vault_id = "v1" }

abbrev claims : Grant
claims =
    ("nonce", text "n")
    ∷ ("tenantId", text "t")
    ∷ ("principalId", text "p")
    ∷ ("agentId", text "a")
    ∷ ("workspaceId", text "w")
    ∷ ("operation", text "msp_memory_upsert")
    ∷ ("expiresAt", whole 61000)
    ∷ ("payloadHash", text "{}")
    ∷ []

abbrev access : Access
access = record { grant = some claims; signature = some "01" }

abbrev sent : Sent
sent = record { access = some access; others = "" }

abbrev request : UpsertRequest
request = record {
  sent = sent;
  vault_id = text "v1";
  category = text "fact";
  key = text "k";
  body = none;
  epistemic_state = absent;
  confidence = none;
  valid_from = absent;
  valid_to = absent;
  actor = absent;
}

abbrev server : Server ℕ
server = record {
  gate = record {
    crypto = toy;
    keys = keys;
    text_of_members = λ members others. "{}";
    global_private_grant_required = true;
  };
  one = 1;
  hash_of = λ body state confidence. state;
  entity_id_of = λ vault_id category key. key;
  link_id_of = λ vault_id from_id to_id type. type;
  read_stamp = λ s. missing;
  embed = λ e. none;
  scores = record { exp = λ elapsed days. 0; clamp = λ s. s; le = leb };
  thresholds = record { to_decayed = 0; to_archived = 0 };
}

abbrev start : Tables ℕ
start = record {
  registry = record { vaults = vault ∷ []; mounts = [] };
  nonces = [];
  store = empty_store ("v1" ∷ []);
  links = [];
  embeddings = [];
  journal = [];
}

abbrev input : UpsertInput
input = upsert_input server request "v1" "fact" "k"

abbrev row : Entity ℕ
row = new_entity server.one server.hash_of server.entity_id_of input 1000

abbrev written : Tables ℕ
written = record start {
  nonces = record { tenant_id = some "t"; nonce = "n"; expires_at = 61000 } ∷ [];
  store = record start.store {
    entities = row ∷ [];
    history =
        history_row server.one server.hash_of server.entity_id_of "k" 1
          (content_of server.one server.hash_of server.entity_id_of input 1000) "initial" "system"
        ∷ [];
  };
  journal =
      journal_row "system" "msp_memory_upsert" (some "k")
        (("vault_id", text "v1")
          ∷ ("category", text "fact")
          ∷ ("key", text "k")
          ∷ ("created", boolean true)
          ∷ ("changed", boolean true)
          ∷ [])
        1000
      ∷ [];
}

abbrev upserted_row : Upserted ℕ
upserted_row = record { entity = row; created = true; changed = true }

wrote : memory_upsert server request (all_at 1000) start ≡ ok (written, upserted_row)
unfolding memory_upsert require_string require_category optional_string trim trim_start trim_end
    has_space require_known_vault check_access verify_vault_grant required_claims
    verify_signed_grant usable_key named_grant in_window is_claim_string assert_claim_strings
    signature_matches claim text_length toy_hmac toy_from_hex same_bytes classify_principal_access
    is_vault_row_accessible_to accessible_by_type require_grant_nonce consume_authorized_grant
    consume_grant_nonce nonce_text plausible_expiry insert_nonce purge is_used upsert_granted
    upsert_write upsert_after spend Entities.upsert create_entity insert_entity is_epistemic
    insert_history reread embed_on_write log append resolve_actor find any dec_text
wrote = refl

start-IsValid : IsValid start.store
start-IsValid = record { ids = tt; keys = tt; ledgers = tt; owned = tt }

there : get_vault_by_id "v1" start.registry ≡ some vault
unfolding find dec_text
there = refl

named : require_string (text "v1") ≡ ok "v1"
unfolding require_string optional_string trim trim_start trim_end dec_text
named = refl

answered : answer server (upsert request) (all_at 1000) start ≡ ok (written, upserted upserted_row)
unfolding answer
answered = rw (answer, wrote) refl

inside_length : {Score : Type 0} (a b : List (Entity Score)) → length a ≢ length b → a ≢ b
inside_length a b n e = n (ap length e)

row_is_new : inside "v1" written.store ≢ inside "v1" start.store
unfolding select dec_text
row_is_new =
    inside_length (inside "v1" written.store) (inside "v1" start.store) (λ e. omega (arith, e))

answer-IsAuthorized_example :
    (g : Grant) × IsAuthorized server.gate start.registry vault
      (upsert_envelope server.gate request)
      true
      1000
      g
answer-IsAuthorized_example =
    answer-IsAuthorized server (upsert request) (all_at 1000) start written (upserted upserted_row)
      vault start-IsValid there refl answered (inl row_is_new)

-- A later call without a grant, which fails.
abbrev ungranted : UpsertRequest
ungranted = record request { sent = record sent { access = none } }

expiry : claim "expiresAt" claims ≡ whole 61000
unfolding claim dec_text
expiry = refl

memory_upsert_once_example :
    memory_upsert server request
      (record (all_at 3000) { purged_at = 61000 })
      (after_calls server ((upsert ungranted, all_at 2000) ∷ []) written)
    ≡ err not_found
memory_upsert_once_example =
    memory_upsert_once server request "v1" vault (all_at 1000)
      (record (all_at 3000) { purged_at = 61000 }) 61000 start written upserted_row
      ((upsert ungranted, all_at 2000) ∷ []) named there refl wrote
      (access, claims, refl, refl, expiry) (omega arith) (omega arith) (omega arith)
      (omega arith, tt)

abbrev empty : Tables ℕ
empty = record start { registry = record { vaults = []; mounts = [] } }

nothing_known :
    (id : String) → require_string (text "v1") ≡ ok id → get_vault_by_id id empty.registry ≡ none
unfolding find
nothing_known id h = refl

answer-hidden_example :
    (e : Error) × (answer server (upsert ungranted) (all_at 2000) start ≡ err e)
    × (answer server (upsert ungranted) (all_at 2000) empty ≡ err e)
answer-hidden_example =
    answer-hidden server (upsert ungranted) (all_at 2000) (all_at 2000) start empty vault
      ("v1", named, there) refl (λ g k. no_access k.presented) nothing_known
  where
    no_access : {a : Access} → none ≡ some a → ⊥
    no_access e = cc

after_calls-IsValid_example :
    IsValid
      (after_calls server
        ((upsert request, all_at 1000) ∷ (upsert ungranted, all_at 2000) ∷ [])
        start).store
    × ((after_calls server
          ((upsert request, all_at 1000) ∷ (upsert ungranted, all_at 2000) ∷ [])
          start).registry
        ≡ start.registry)
after_calls-IsValid_example =
    after_calls-IsValid server
      ((upsert request, all_at 1000) ∷ (upsert ungranted, all_at 2000) ∷ []) start start-IsValid

ran : after_calls server ((upsert request, all_at 1000) ∷ []) start ≡ written
unfolding after_calls after_call
ran = rw (after_calls, after_call, answered) refl

written-IsValid : IsValid written.store
written-IsValid =
    subst (λ t. IsValid t.store) ran
      (after_calls-IsValid server ((upsert request, all_at 1000) ∷ []) start start-IsValid).0

abbrev history_claims : Grant
history_claims =
    ("tenantId", text "t")
    ∷ ("principalId", text "p")
    ∷ ("agentId", text "a")
    ∷ ("workspaceId", text "w")
    ∷ ("operation", text "msp_memory_history")
    ∷ ("expiresAt", whole 61000)
    ∷ ("payloadHash", text "{}")
    ∷ []

abbrev history_request : EntityRequest
history_request = record {
  sent = record {
    access = some (record { grant = some history_claims; signature = some "01" });
    others = "";
  };
  entity_id = text "k";
}

abbrev entries : List HistoryEntry
entries = map (entry_of row) written.store.history

history_read : memory_history server history_request (all_at 2000) written ≡ ok entries
unfolding memory_history require_string optional_string trim trim_start trim_end require_entity
    vault_of_entity check_access verify_vault_grant required_claims verify_signed_grant usable_key
    named_grant in_window is_claim_string assert_claim_strings signature_matches claim text_length
    toy_hmac toy_from_hex same_bytes classify_principal_access is_vault_row_accessible_to
    accessible_by_type history_of history_asc insert_by_version sort_by_version reverse_rows find
    select dec_text
history_read = refl

memory_history_complete_example :
    (e : Entity ℕ) × (get_by_id e.entity_id written.store ≡ some e)
    × (require_string (text "k") ≡ ok e.entity_id)
    × (entries ≡ map (entry_of e) (select (of_entity e.entity_id) written.store.history))
    × (map (λ h. h.row.version) entries ≡ up_to e.current_version)
memory_history_complete_example =
    memory_history_complete server history_request (all_at 2000) written entries written-IsValid
      history_read

-- An entity of a shared vault, from which a link to the one of the principal vault is asked for.
abbrev open_row : Entity ℕ
open_row = record row { entity_id = "j"; vault_id = shared_vault.vault_id; key = "j" }

abbrev linkable : Tables ℕ
linkable = record written {
  registry = record { vaults = vault ∷ shared_vault ∷ []; mounts = [] };
  store = record written.store { entities = row ∷ open_row ∷ [] };
}

abbrev without_target : Tables ℕ
without_target = record linkable { store = record linkable.store { entities = open_row ∷ [] } }

abbrev link_request : LinkRequest
link_request = record {
  sent = record { access = none; others = "" };
  from_entity_id = text "j";
  to_entity_id = text "k";
  link_type = text "about";
  actor = absent;
}

named_k : require_string (text "k") ≡ ok "k"
unfolding require_string optional_string trim trim_start trim_end dec_text
named_k = refl

named_j : require_string (text "j") ≡ ok "j"
unfolding require_string optional_string trim trim_start trim_end dec_text
named_j = refl

target_there : AimsAtEntity link_request.to_entity_id linkable vault
unfolding find dec_text
target_there = ("k", named_k, (row, refl, refl))

no_target : NoEntity link_request.to_entity_id without_target
unfolding find dec_text
no_target id h =
    let same : "k" ≡ id = ground (arith, named_k) in
    subst (λ x. get_by_id x without_target.store ≡ none) same refl

same_start :
    (id : String)
    → require_string link_request.from_entity_id ≡ ok id
    → get_by_id id without_target.store ≡ get_by_id id linkable.store
unfolding find dec_text
same_start id h =
    let same : "j" ≡ id = ground (arith, named_j) in
    subst (λ x. get_by_id x without_target.store ≡ get_by_id x linkable.store) same refl

links_create_target-hidden_example :
    (e : Error) × (memory_links_create server link_request (all_at 2000) linkable ≡ err e)
    × (memory_links_create server link_request (all_at 2000) without_target ≡ err e)
links_create_target-hidden_example =
    links_create_target-hidden server link_request (all_at 2000) (all_at 2000) linkable
      without_target vault target_there refl (λ g k. no_access k.presented) no_target refl
      same_start refl
  where
    no_access : {a : Access} → none ≡ some a → ⊥
    no_access e = cc
