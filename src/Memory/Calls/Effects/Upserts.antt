-- ===== src/Memory/Calls/Effects/Upserts.antt =====
-- msp_memory_upsert: what a call that succeeds has done.
use memory_and_soul_passport.Prelude.{
  ℕ, String, ◌≡◌, refl, sym, ap, subst, ◌∙◌, inl, inr, Bool, true, false, Option, some,
  if◌then◌else◌, Option-cases,
}
use memory_and_soul_passport.Errors.{ok, >>=-eq-ok, state_after}
use memory_and_soul_passport.Grant.{Grant}
use memory_and_soul_passport.Vaults.{Vault, get_vault_by_id}
use memory_and_soul_passport.Entities.{Entity, UpsertInput, Upserted, upsert}
use memory_and_soul_passport.Entities.Upsert.Outcome.{ok-injective}
use memory_and_soul_passport.Entities.Reach.{upsert_op, apply}
use memory_and_soul_passport.Memory.{
  Times, check_access, consume_authorized_grant, require_known_vault,
}
use memory_and_soul_passport.Memory.Tools.{
  upsert_envelope, Tables, Server, UpsertRequest, require_string, require_category, log,
  upsert_input, upsert_write, upsert_after, embed_on_write, upsert_granted, memory_upsert,
}
use memory_and_soul_passport.Memory.Calls.{upsert as upsert_call}
use memory_and_soul_passport.Memory.Calls.Effects.{
  frame, links_inside, require_known_vault_sound, apply_here, IsStep, spend_then_sound, SameCore,
  log-SameCore,
}

module _ {Score : Type 0} (server : Server Score) where
  embed_on_write-SameCore :
      (e : Entity Score) (now : ℕ) (t : Tables Score)
      → SameCore server t (embed_on_write server e now t)
  unfolding embed_on_write
  embed_on_write-SameCore e now t = elim (Option-cases (server.embed e)) [
    | inl p ↦ rw (embed_on_write, p) (refl, refl, refl)
    | inr (vector, p) ↦ rw (embed_on_write, p) (refl, refl, refl)
  ]

  embedded-SameCore :
      (b : Bool) (e : Entity Score) (now : ℕ) (t : Tables Score)
      → SameCore server t (if b then embed_on_write server e now t else t)
  embedded-SameCore true e now t = embed_on_write-SameCore e now t
  embedded-SameCore false e now t = (refl, refl, refl)

  upsert_after-SameCore :
      (i : UpsertInput) (times : Times) (t t' : Tables Score) (u u' : Upserted Score)
      → upsert_after server i times (t, u) ≡ ok (t', u')
      → SameCore server t t'
  unfolding upsert_after
  upsert_after-SameCore i times t t' u u' h =
      let (t₁, logged, h₁) = >>=-eq-ok (log server _ _) _ h in
      let (same, _) = ok-injective h₁ in
      let (a, b, c) = log-SameCore server _ _ logged in
      let (a', b', c') = embedded-SameCore u.changed u.entity times.journaled_at t in
      let is : SameCore server t t₁ = (a ∙ a', b ∙ b', c ∙ c') in subst (SameCore server t) same is

  -- Everything after the access check of an upsert.
  pub upsert_granted_sound :
      (r : UpsertRequest) (id : String) (v : Vault) (g : Option Grant) (times : Times)
      (t t' : Tables Score) (u : Upserted Score)
      → upsert_granted server r id v times t g ≡ ok (t', u)
      → (category : String) × (key : String) × (frame t' ≡ frame t)
        × (consume_authorized_grant v g times t.nonces ≡ ok t'.nonces)
        × (t'.store
            ≡ apply_here server
                (upsert_op (upsert_input server r id category key) times.written_at)
                t.store)
  unfolding upsert_granted upsert_write apply
  upsert_granted_sound r id v g times t t' u h =
      let (category, _, h₁) = >>=-eq-ok (require_category r.category) _ h in
      let (key, _, h₂) = >>=-eq-ok (require_string r.key) _ h₁ in
      let i = upsert_input server r id category key in
      let ((t₁, w), wrote, h₃) = >>=-eq-ok (upsert_write server v g i times t) _ h₂ in
      let (a, b, c) = upsert_after-SameCore i times t₁ t' w u h₃ in
      let (a', b', c') =
        spend_then_sound server v g times t t₁ w
          (upsert server.one server.hash_of server.entity_id_of i times.written_at) wrote in
      (
        category,
        key,
        a ∙ a',
        b' ∙ ap (λ x. ok x) (sym b),
        c ∙ sym (ap (λ x. state_after t.store x) c'),
      )

  -- msp_memory_upsert
  pub memory_upsert-IsStep :
      (r : UpsertRequest) (times : Times) (t t' : Tables Score) (u : Upserted Score)
      → memory_upsert server r times t ≡ ok (t', u)
      → IsStep server (upsert_call r) times t t'
  unfolding memory_upsert
  memory_upsert-IsStep r times t t' u h =
      let (id, _, h₁) = >>=-eq-ok (require_string r.vault_id) _ h in
      let (v, known, h₂) = >>=-eq-ok (require_known_vault id t.registry) _ h₁ in
      let (g, checked, h₃) =
        >>=-eq-ok
          (check_access server.gate t.registry v (upsert_envelope server.gate r) true
            times.granted_at)
          _ h₂ in
      let (found, named) = require_known_vault_sound id t.registry known in
      let (category, key, a, b, c) = upsert_granted_sound r id v g times t t' u h₃ in
      record {
        vault = v;
        grant = g;
        target = subst (λ x. get_vault_by_id x t.registry ≡ some v) (sym named) found;
        checked = checked;
        registry_after = ap (λ x. x.0) a;
        links_after = λ w other. ap (λ x. links_inside w x.1) (a);
        nonces_after = b;
        store_after =
            inr (upsert_op (upsert_input server r id category key) times.written_at, sym named, c);
      }
