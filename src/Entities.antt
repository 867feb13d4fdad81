-- ===== src/Entities.antt =====
-- packages/msp-core/src/domain/entity-store.mjs: the tables `entities` and `entity_history` with
-- their keys, and the operations of EntityStore. A row stands for its projection (rowToEntity,
-- historyRowToEntry). A decay score is a value of `Score`; `hash_of` and `id_of` stand for the two
-- hashes (Json models the first).
pub mod Forget
pub mod Decay
pub mod Read
pub mod Ledger
pub mod Upsert
pub mod Reach
pub mod Isolation
pub mod Examples
use memory_and_soul_passport.Prelude.{
  ℕ, suc, ◌+◌, String, Bool, true, false, not, ◌&&◌, ◌||◌, Option, none, some, List, [], ◌∷◌, ◌++◌,
  nat_eq, if◌then◌else◌, ◌==◌, find, any, select, dec_text,
}
use memory_and_soul_passport.Errors.{
  Result, ok, err, ◌>>=◌, not_found, type_error, ◌>>◌, guard, sqlite_primary_key, sqlite_unique,
  sqlite_check, sqlite_foreign_key,
}
use memory_and_soul_passport.Json.{Json}
use memory_and_soul_passport.Temporal.{
  Stamp, missing, blank, at, or_if_falsy, is_falsy, TemporalItem, is_temporal_visible,
}

pub data Lifecycle : Type 0 where
  active decayed archived forgotten : Lifecycle

abbrev pub is_forgotten : Lifecycle → Bool
is_forgotten forgotten = true
is_forgotten _ = false

-- The columns that a version has in both tables. Times that a caller gives are stamps.
pub record Content : Type 0 where
  pub body : Json
  pub epistemic_state : String
  pub confidence : Json
  pub valid_from : Stamp
  pub valid_to : Stamp
  pub recorded_at : ℕ
  pub source_hash : String

pub record Entity (Score : Type 0) : Type 0 where
  pub entity_id : String
  pub vault_id : String
  pub category : String
  pub key : String
  pub content : Content
  pub current_version : ℕ
  pub lifecycle_state : Lifecycle
  pub decay_score : Score
  pub access_count : ℕ
  pub last_accessed_at : Option ℕ
  pub created_at : ℕ
  pub updated_at : ℕ

-- `superseded_at` is NULL in every row that the store writes.
pub record HistoryRow : Type 0 where
  pub entity_id : String
  pub version : ℕ
  pub content : Content
  pub change_reason : String
  pub actor : String

-- The two tables, and the keys of the table `vaults`, which a foreign key reads.
pub record Store (Score : Type 0) : Type 0 where
  pub entities : List (Entity Score)
  pub history : List HistoryRow
  pub vaults : List String

pub record UpsertInput : Type 0 where
  pub vault_id : String
  pub category : String
  pub key : String
  pub body : Json
  pub epistemic_state : String
  pub confidence : Json
  pub reason : Option String
  pub actor : String
  pub valid_from : Stamp
  pub valid_to : Stamp

pub record Upserted (Score : Type 0) : Type 0 where
  pub entity : Entity Score
  pub created : Bool
  pub changed : Bool

abbrev pub or_default : Option String → String → String
or_default none d = d
or_default (some s) d = s

-- CHECK (epistemic_state IN (...))
unfoldable pub is_epistemic : String → Bool
is_epistemic s = s == "hypothesis" || s == "confirmed" || s == "contested" || s == "deprecated"

abbrev is_text : String → String → Bool
is_text id v = v == id

abbrev pub is_version : String → ℕ → HistoryRow → Bool
is_version id version r = r.entity_id == id && nat_eq r.version version

module _ {Score : Type 0} where
  abbrev pub by_key : String → String → String → Entity Score → Bool
  by_key vault category key e = e.vault_id == vault && e.category == category && e.key == key

  abbrev pub has_id : String → Entity Score → Bool
  has_id id e = e.entity_id == id

  abbrev pub get_by_id : String → Store Score → Option (Entity Score)
  get_by_id id s = find (has_id id) s.entities

  abbrev pub has_vault : String → Store Score → Bool
  has_vault id s = any (is_text id) s.vaults

  -- INSERT INTO entities, with its check, its primary key, its unique key and its foreign key
  unfoldable pub insert_entity : Entity Score → Store Score → Result (Store Score)
  unfolding is_epistemic
  insert_entity e s =
      if not (is_epistemic e.content.epistemic_state)
      then err sqlite_check
      else if any (has_id e.entity_id) s.entities
      then err sqlite_primary_key
      else if any (by_key e.vault_id e.category e.key) s.entities
      then err sqlite_unique
      else if not (has_vault e.vault_id s)
      then err sqlite_foreign_key
      else ok (record s { entities = s.entities ++ e ∷ [] })

  -- INSERT INTO entity_history, with UNIQUE (entity_id, version)
  unfoldable pub insert_history : HistoryRow → Store Score → Result (Store Score)
  insert_history r s =
      if any (is_version r.entity_id r.version) s.history
      then err sqlite_unique
      else ok (record s { history = s.history ++ r ∷ [] })

  -- UPDATE entities SET ... WHERE entity_id = ...
  unfoldable pub update_where :
      String → (Entity Score → Entity Score) → List (Entity Score) → List (Entity Score)
  update_where id f [] = []
  update_where id f (e ∷ es) = (if has_id id e then f e else e) ∷ update_where id f es

  abbrev pub update : String → (Entity Score → Entity Score) → Store Score → Store Score
  update id f s = record s { entities = update_where id f s.entities }

  -- `rowToEntity(selectById.get(id))` after a write
  unfoldable pub reread : String → Bool → Store Score → Result (Store Score × Upserted Score)
  reread id created s = elim (get_by_id id s) [
    | none ↦ err not_found
    | some e ↦ ok (s, record { entity = e; created = created; changed = true })
  ]

module _ {Score : Type 0} (one : Score) (hash_of : Json → String → Json → String)
    (id_of : String → String → String → String) where
  abbrev pub hash_of_input : UpsertInput → String
  hash_of_input i = hash_of i.body i.epistemic_state i.confidence

  abbrev pub content_of : UpsertInput → ℕ → Content
  content_of i now = record {
    body = i.body;
    epistemic_state = i.epistemic_state;
    confidence = i.confidence;
    valid_from = or_if_falsy i.valid_from (at now);
    valid_to = i.valid_to;
    recorded_at = now;
    source_hash = hash_of_input i;
  }

  abbrev pub new_entity : UpsertInput → ℕ → Entity Score
  new_entity i now = record {
    entity_id = id_of i.vault_id i.category i.key;
    vault_id = i.vault_id;
    category = i.category;
    key = i.key;
    content = content_of i now;
    current_version = 1;
    lifecycle_state = active;
    decay_score = one;
    access_count = 0;
    last_accessed_at = none;
    created_at = now;
    updated_at = now;
  }

  abbrev pub history_row : String → ℕ → Content → String → String → HistoryRow
  history_row id version content reason actor = record {
    entity_id = id;
    version = version;
    content = content;
    change_reason = reason;
    actor = actor;
  }

  -- The row is new.
  unfoldable pub create_entity :
      UpsertInput → ℕ → Store Score → Result (Store Score × Upserted Score)
  create_entity i now s =
      let id = id_of i.vault_id i.category i.key in
      do
        s₁ ← insert_entity (new_entity i now) s
        s₂ ←
            insert_history
              (history_row id 1 (content_of i now) (or_default i.reason "initial") i.actor) s₁
        reread id true s₂

  abbrev pub revise : Content → ℕ → ℕ → Entity Score → Entity Score
  revise c version now e = record e {
    content = c;
    current_version = version;
    lifecycle_state = active;
    updated_at = now;
  }

  -- Content changed, or a forgotten entity revived.
  unfoldable pub revise_entity :
      UpsertInput → ℕ → Entity Score → Store Score → Result (Store Score × Upserted Score)
  revise_entity i now e s =
      let version = e.current_version + 1 in
      do
        guard (is_epistemic i.epistemic_state) sqlite_check
        s₁ ←
            insert_history
              (history_row e.entity_id version (content_of i now) (or_default i.reason "update")
                i.actor)
              (update e.entity_id (revise (content_of i now) version now) s)
        reread e.entity_id false s₁

  -- The transaction of `upsert`. An error rolls it back.
  unfoldable pub upsert : UpsertInput → ℕ → Store Score → Result (Store Score × Upserted Score)
  upsert i now s =
      if i.vault_id == "" || i.category == "" || i.key == "" || i.actor == ""
      then err type_error
      else elim (find (by_key i.vault_id i.category i.key) s.entities) [
        | none ↦ create_entity i now s
        | some e ↦
            if e.content.source_hash == hash_of_input i && not (is_forgotten e.lifecycle_state)
            then ok (s, record { entity = e; created = false; changed = false })
            else revise_entity i now e s
      ]
