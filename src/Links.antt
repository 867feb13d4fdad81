-- ===== src/Links.antt =====
-- packages/msp-core/src/domain/links.mjs: typed edges between entities. `id_of` is computeLinkId, a
-- hash; times that a caller gives are stamps. The row that is read again by its key after the insert is
-- the one inserted, since no other had the key.
use memory_and_soul_passport.Prelude.{
  ℕ, String, Bool, true, false, ◌&&◌, ◌||◌, Option, none, some, List, [], ◌∷◌, ◌++◌, if◌then◌else◌,
  ◌==◌, find, any, select,
}
use memory_and_soul_passport.Errors.{
  Result, ok, err, ◌>>=◌, type_error, sqlite_primary_key, sqlite_unique,
}
use memory_and_soul_passport.Json.{Json}
use memory_and_soul_passport.Temporal.{Stamp, at, or_if_falsy}

pub record Link : Type 0 where
  pub link_id : String
  pub vault_id : String
  pub from_entity_id : String
  pub to_entity_id : String
  pub link_type : String
  pub confidence : Json
  pub valid_from : Stamp
  pub valid_to : Stamp
  pub recorded_at : ℕ
  pub created_at : ℕ

abbrev pub link_of : String → String → String → String → Link → Bool
link_of vault from_id to_id type l =
    l.vault_id == vault
    && l.from_entity_id == from_id
    && l.to_entity_id == to_id
    && l.link_type == type

abbrev pub has_link_id : String → Link → Bool
has_link_id id l = l.link_id == id

-- INSERT INTO links, with its primary key and its unique key (migrations/0006)
unfoldable pub insert_link : Link → List Link → Result (List Link)
insert_link l links =
    if any (has_link_id l.link_id) links
    then err sqlite_primary_key
    else if any (link_of l.vault_id l.from_entity_id l.to_entity_id l.link_type) links
    then err sqlite_unique
    else ok (links ++ l ∷ [])

pub record LinkInput : Type 0 where
  pub vault_id : String
  pub from_entity_id : String
  pub to_entity_id : String
  pub link_type : String
  pub confidence : Json
  pub valid_from : Stamp
  pub valid_to : Stamp

pub record LinkCreated : Type 0 where
  pub link : Link
  pub created : Bool

abbrev pub find_link : LinkInput → List Link → Option Link
find_link i links = find (link_of i.vault_id i.from_entity_id i.to_entity_id i.link_type) links

module _ (id_of : String → String → String → String → String) where
  abbrev pub new_link : LinkInput → ℕ → Link
  new_link i now = record {
    link_id = id_of i.vault_id i.from_entity_id i.to_entity_id i.link_type;
    vault_id = i.vault_id;
    from_entity_id = i.from_entity_id;
    to_entity_id = i.to_entity_id;
    link_type = i.link_type;
    confidence = i.confidence;
    valid_from = or_if_falsy i.valid_from (at now);
    valid_to = i.valid_to;
    recorded_at = now;
    created_at = now;
  }

  unfoldable pub create_link : LinkInput → ℕ → List Link → Result (List Link × LinkCreated)
  create_link i now links =
      if i.vault_id == "" || i.from_entity_id == "" || i.to_entity_id == "" || i.link_type == ""
      then err type_error
      else elim (find_link i links) [
        | some l ↦ ok (links, record { link = l; created = false })
        | none ↦ do
          links' ← insert_link (new_link i now) links
          ok (links', record { link = new_link i now; created = true })
      ]

pub data Direction : Type 0 where
  outgoing incoming both : Direction

abbrev pub leaves : String → Link → Bool
leaves id l = l.from_entity_id == id

abbrev pub arrives : String → Link → Bool
arrives id l = l.to_entity_id == id

pub list_links : String → Direction → List Link → Result (List Link)
list_links id direction links =
    if id == ""
    then err type_error
    else ok (elim direction [
      | outgoing ↦ select (leaves id) links
      | incoming ↦ select (arrives id) links
      | both ↦ select (leaves id) links ++ select (arrives id) links
    ])
