-- ===== src/Memory/Calls/Effects.antt =====
-- What a call of a tool that succeeds has checked, and what it has written.
pub mod Upserts
pub mod Forgets
pub mod Reads
pub mod Links
use memory_and_soul_passport.Prelude.{
  ℕ, String, ◌≡◌, refl, sym, ap, subst, ◌∙◌, ◌≢◌, select, ◌⊎◌, inl, inr, Bool, true, false, not,
  Option, none, some, List, [], ◌∷◌, arith, if◌then◌else◌, ◌==◌, find, find-IsSelected, Bool-cases,
  Option-cases, dec_text,
}
use memory_and_soul_passport.Errors.{
  Result, ok, err, ◌>>=◌, not_found, type_error, guard, vault_scope_denied, >>=-eq-ok, guard-eq-ok,
  Result-cases, state_after,
}
use memory_and_soul_passport.Grant.{Claim, Grant}
use memory_and_soul_passport.Nonces.{NonceRow}
use memory_and_soul_passport.Vaults.{Vault, Registry, get_vault_by_id}
use memory_and_soul_passport.Links.{Link}
use memory_and_soul_passport.Journal.{Journal, JournalRow, append}
use memory_and_soul_passport.Entities.{
  Entity, Store, UpsertInput, Upserted, upsert, get_by_id, has_id,
}
use memory_and_soul_passport.Entities.Upsert.Outcome.{ok-injective}
use memory_and_soul_passport.Entities.Reach.{
  Operation, upsert_op, forget_op, decay_op, touch_op, apply,
}
use memory_and_soul_passport.Entities.Isolation.{IsLocal}
use memory_and_soul_passport.Memory.{
  Gate, Envelope, Times, check_access, consume_authorized_grant, require_known_vault,
  vault_of_entity,
}
use memory_and_soul_passport.Memory.Tools.{
  Tables, Server, UpsertRequest, require_string, require_category, log, spend, upsert_input,
  upsert_write, upsert_after, embed_on_write, upsert_granted, memory_upsert,
}
use memory_and_soul_passport.Memory.Reads.{require_entity}
use memory_and_soul_passport.Memory.Calls.{Call, upsert as upsert_call, envelope_of, needs_nonce}

pub require_known_vault_sound :
    (id : String) (registry : Registry) {v : Vault}
    → require_known_vault id registry ≡ ok v
    → (get_vault_by_id id registry ≡ some v) × (v.vault_id ≡ id)
unfolding require_known_vault
require_known_vault_sound id registry {v} h = elim (Option-cases (get_vault_by_id id registry)) [
  | inl absent ↦
      let no : require_known_vault id registry ≡ err not_found =
        rw (require_known_vault, absent) refl in
      absurd cc
  | inr (w, found) ↦
      let same : require_known_vault id registry ≡ ok w = rw (require_known_vault, found) refl in
      let is : w ≡ v = cc in
      let here = find-IsSelected _ registry.vaults found in
      (rw found (ap some is), ap (λ x. x.vault_id) (sym is) ∙ ground arith)
]

pub vault_of_entity_sound :
    (id : String) (registry : Registry) {v : Vault}
    → vault_of_entity id registry ≡ ok v
    → (get_vault_by_id id registry ≡ some v) × (v.vault_id ≡ id)
unfolding vault_of_entity
vault_of_entity_sound id registry {v} h = elim (Option-cases (get_vault_by_id id registry)) [
  | inl absent ↦
      let no : vault_of_entity id registry ≡ err type_error = rw (vault_of_entity, absent) refl in
      absurd cc
  | inr (w, found) ↦
      let same : vault_of_entity id registry ≡ ok w = rw (vault_of_entity, found) refl in
      let is : w ≡ v = cc in
      let here = find-IsSelected _ registry.vaults found in
      (rw found (ap some is), ap (λ x. x.vault_id) (sym is) ∙ ground arith)
]

pub require_entity_sound :
    {Score : Type 0} (id : String) (s : Store Score) {e : Entity Score}
    → require_entity id s ≡ ok e
    → (get_by_id id s ≡ some e) × (e.entity_id ≡ id)
unfolding require_entity
require_entity_sound id s {e} h = elim (Option-cases (get_by_id id s)) [
  | inl absent ↦
      let no : require_entity id s ≡ err not_found = rw (require_entity, absent) refl in absurd cc
  | inr (w, found) ↦
      let same : require_entity id s ≡ ok w = rw (require_entity, found) refl in
      let is : w ≡ e = cc in
      let here = find-IsSelected _ s.entities found in
      (rw found (ap some is), ap (λ x. x.entity_id) (sym is) ∙ ground arith)
]

-- The tables that a tool leaves alone, but for links_create, which adds to the second.
abbrev pub frame : {Score : Type 0} → Tables Score → Registry × List Link
frame t = (t.registry, t.links)

abbrev in_vault : String → Link → Bool
in_vault vault l = l.vault_id == vault

-- The links of a vault, in the order of the table.
abbrev pub links_inside : String → List Link → List Link
links_inside vault links = select (in_vault vault) links

module _ {Score : Type 0} (server : Server Score) where
  -- A row of the journal touches no other table.
  pub log_sound :
      (r : JournalRow) (t : Tables Score) {t' : Tables Score}
      → log server r t ≡ ok t'
      → (j : Journal) × (t' ≡ record t { journal = j })
  unfolding log
  log_sound r t {t'} h = let (j, _, k) = >>=-eq-ok (append r t.journal) _ h in (j, ground arith)

  pub spend_sound :
      (v : Vault) (g : Option Grant) (times : Times) (t : Tables Score) {t' : Tables Score}
      → spend server v g times t ≡ ok t'
      → (rows : List NonceRow) × (consume_authorized_grant v g times t.nonces ≡ ok rows)
        × (t' ≡ record t { nonces = rows })
  unfolding spend
  spend_sound v g times t {t'} h =
      let (rows, spent, k) = >>=-eq-ok (consume_authorized_grant v g times t.nonces) _ h in
      (rows, spent, ground arith)

  abbrev pub apply_here : Operation Score → Store Score → Store Score
  apply_here o s = apply server.one server.hash_of server.entity_id_of server.scores o s

  -- A call that returned had its check passed on its vault; it spent its grant if it has to, and
  -- the entities are as before or went through one operation on the vault, outside of which no
  -- link is written.
  pub record IsStep (c : Call) (times : Times) (t t' : Tables Score) : Type 0 where
    pub vault : Vault
    pub grant : Option Grant
    pub target : get_vault_by_id vault.vault_id t.registry ≡ some vault
    pub checked :
        check_access server.gate t.registry vault
          (envelope_of server.gate c)
          (needs_nonce c)
          times.granted_at
        ≡ ok grant
    pub registry_after : t'.registry ≡ t.registry
    pub links_after :
        (w : String) → w ≢ vault.vault_id → links_inside w t'.links ≡ links_inside w t.links
    pub nonces_after :
        (if needs_nonce c then consume_authorized_grant vault grant times t.nonces else ok t.nonces)
        ≡ ok t'.nonces
    pub store_after :
        (t'.store ≡ t.store)
        ⊎ ((o : Operation Score) × IsLocal vault.vault_id t.store o
            × (t'.store ≡ apply_here o t.store))

  -- A transaction that spends the grant and then writes the entities.
  abbrev pub spend_then :
      {Value : Type 0}
      → Vault
      → Option Grant
      → Times
      → Tables Score
      → (Store Score → Result (Store Score × Value))
      → Result (Tables Score × Value)
  spend_then v g times t write = do
    t₁ ← spend server v g times t
    done ← write t₁.store
    ok (record t₁ { store = done.0 }, done.1)

  pub spend_then_sound :
      {Value : Type 0} (v : Vault) (g : Option Grant) (times : Times) (t t' : Tables Score)
      (u : Value) (write : Store Score → Result (Store Score × Value))
      → spend_then v g times t write ≡ ok (t', u)
      → (frame t' ≡ frame t)
        × (consume_authorized_grant v g times t.nonces ≡ ok t'.nonces)
        × (write t.store ≡ ok (t'.store, u))
  unfolding spend
  spend_then_sound v g times t t' u write h =
      elim (Result-cases (consume_authorized_grant v g times t.nonces)) [
        | inl (e, p) ↦ let k = rw p at h in absurd cc
        | inr (rows, p) ↦ elim (Result-cases (write t.store)) [
          | inl (e, q) ↦ let k = rw (p, q) at h in absurd cc
          | inr (done, q) ↦
              let (a, b) = ok-injective (rw (p, q) at h) in
              (
                sym (ap (λ x. frame x) a),
                p ∙ ap (λ x. ok x.nonces) a,
                q ∙ ap (λ x. ok x) (ap (λ x. (x.store, done.1)) a ∙ ap (λ x. (t'.store, x)) b),
              )
        ]
      ]

  -- The tables differ in embeddings and the journal at most.
  abbrev pub SameCore : Tables Score → Tables Score → Type 0
  SameCore t t' = (frame t' ≡ frame t) × (t'.nonces ≡ t.nonces) × (t'.store ≡ t.store)

  pub log-SameCore :
      (r : JournalRow) (t : Tables Score) {t' : Tables Score}
      → log server r t ≡ ok t'
      → SameCore t t'
  log-SameCore r t {t'} h =
      let (j, is) = log_sound r t h in
      (ap (λ x. frame x) is, ap (λ x. x.nonces) is, ap (λ x. x.store) is)
