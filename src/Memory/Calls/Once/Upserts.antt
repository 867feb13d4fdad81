-- ===== src/Memory/Calls/Once/Upserts.antt =====
-- A grant on a principal vault is good for one msp_memory_upsert.
use memory_and_soul_passport.Prelude.{
  ℕ, ◌+◌, arith, ◌≤◌, String, ◌≡◌, refl, sym, ap, subst, ◌∙◌, inl, inr, Bool, true, Option, some,
  List, All,
}
use memory_and_soul_passport.Errors.{Result, ok, err, ◌>>=◌, not_found, >>=-eq-ok, Result-cases}
use memory_and_soul_passport.Grant.{Grant, Access, claim, whole}
use memory_and_soul_passport.Grant.Verify.{verify_signed_grant-IsVerified}
use memory_and_soul_passport.Nonces.{NonceRow}
use memory_and_soul_passport.Nonces.OnceOnly.{consume-replayed}
use memory_and_soul_passport.Vaults.{Vault, Registry, get_vault_by_id, is_principal}
use memory_and_soul_passport.Entities.{Upserted}
use memory_and_soul_passport.Guards.{verify_vault_grant, keys_for, required_claims}
use memory_and_soul_passport.Memory.{
  Gate, Sent, Envelope, Times, check_access, consume_authorized_grant, require_known_vault,
}
use memory_and_soul_passport.Memory.Authorized.{
  IsAuthorized, check_access-IsAuthorized, check_access-hidden,
}
use memory_and_soul_passport.Memory.Tools.{
  upsert_envelope, Tables, Server, UpsertRequest, require_string, require_category, spend,
  upsert_write, upsert_granted, memory_upsert,
}
use memory_and_soul_passport.Memory.Calls.{Call, after_calls}
use memory_and_soul_passport.Memory.Calls.Effects.Upserts.{upsert_granted_sound}
use memory_and_soul_passport.Memory.Calls.Once.{
  FollowsBy, tenant_for, consume_sound, after_calls-FollowsBy,
}

-- All readings of the clock fall into one millisecond.
abbrev pub all_at : ℕ → Times
all_at now = record {
  granted_at = now;
  granted_again_at = now;
  checked_at = now;
  purged_at = now;
  valid_from = now;
  written_at = now;
  journaled_at = now;
}

some_injective : {A : Type 0} {a b : A} → some a ≡ some b → a ≡ b
some_injective e = cc

-- A request presents one grant, whenever it is verified.
one_grant :
    (gate : Gate) (registry registry' : Registry) (v : Vault) (request : Envelope) (b : Bool)
    (now now' : ℕ) (g g' : Grant)
    → IsAuthorized gate registry v request b now g
    → IsAuthorized gate registry' v request b now' g'
    → g ≡ g'
unfolding verify_vault_grant
one_grant gate registry registry' v request b now now' g g' k k' =
    let x =
      verify_signed_grant-IsVerified gate.crypto request.tool request.input k.access
        (keys_for v.vault_type gate.keys) (required_claims v.vault_type) now g k.verifies in
    let y =
      verify_signed_grant-IsVerified gate.crypto request.tool request.input k'.access
        (keys_for v.vault_type gate.keys) (required_claims v.vault_type) now' g' k'.verifies in
    some_injective (
      sym x.presented
      ∙ ap (λ a. a.grant) (some_injective (sym k.presented ∙ k'.presented))
      ∙ y.presented)

-- A grant that was spent on a principal vault and that still verifies is refused, unless the clock
-- of a purge has passed its expiry.
spent_again :
    (gate : Gate) (registry : Registry) (v : Vault) (request : Envelope) (times later : Times)
    (e : ℕ) (g : Grant) (rows rows' rows'' : List NonceRow)
    → is_principal v.vault_type ≡ true
    → consume_authorized_grant v (some g) times rows ≡ ok rows'
    → FollowsBy e rows' rows''
    → IsAuthorized gate registry v request true later.granted_at g
    → claim "expiresAt" g ≡ whole e
    → later.granted_at ≤ later.checked_at
    → later.checked_at ≤ later.purged_at
    → later.purged_at ≤ e
    → consume_authorized_grant v (some g) later rows'' ≡ err not_found
unfolding verify_vault_grant consume_authorized_grant
spent_again gate registry v request times later e g rows rows' rows'' p spent (history, same, early)
      k is_e a b c =
    let v' =
      verify_signed_grant-IsVerified gate.crypto request.tool request.input k.access
        (keys_for v.vault_type gate.keys) (required_claims v.vault_type) later.granted_at g
        k.verifies in
    let same_time : v'.expires_at ≡ e = cc (v'.expires, is_e) in
    let near : v'.expires_at ≤ later.granted_at + 65000 = v'.not_too_long in
    let again =
      consume-replayed (tenant_for v g) (claim "nonce" g) (claim "expiresAt" g) e times.checked_at
        times.purged_at later.checked_at later.purged_at rows rows' history
        (consume_sound v g times rows rows' spent) is_e (omega arith) c early in
    rw (same, consume_authorized_grant, again, p) refl

-- The expiry of the grant that is sent.
abbrev pub ExpiresAt : ℕ → Sent → Type 0
ExpiresAt e sent =
    (a : Access) × (g : Grant) × (sent.access ≡ some a)
    × (a.grant ≡ some g)
    × (claim "expiresAt" g ≡ whole e)

module _ {Score : Type 0} (server : Server Score) (r : UpsertRequest) (id : String)
    (v : Vault) where
  -- A call on a vault that is there.
  abbrev on_vault : Option Grant → Times → Tables Score → Result (Tables Score × Upserted Score)
  on_vault g times t = upsert_granted server r id v times t g

  memory_upsert-known :
      (times : Times) (t : Tables Score)
      → require_string r.vault_id ≡ ok id
      → get_vault_by_id id t.registry ≡ some v
      → memory_upsert server r times t ≡ (
          check_access server.gate t.registry v
            (upsert_envelope server.gate r)
            true
            times.granted_at
          >>= λ g. on_vault g times t)
  unfolding memory_upsert require_known_vault
  memory_upsert-known times t named there =
      rw (memory_upsert, named, require_known_vault, there) refl

  -- Where the same fields were accepted before, a grant that cannot be spent is the end of the call.
  upsert_granted-unspent :
      (times times' : Times) (t t' t₁ : Tables Score) (u : Upserted Score) (g g' : Option Grant)
      → on_vault g times t ≡ ok (t₁, u)
      → consume_authorized_grant v g' times' t'.nonces ≡ err not_found
      → on_vault g' times' t' ≡ err not_found
  unfolding upsert_granted upsert_write spend
  upsert_granted-unspent times times' t t' t₁ u g g' done unspent =
      let (category, c, h₁) = >>=-eq-ok (require_category r.category) _ done in
      let (key, k, _) = >>=-eq-ok (require_string r.key) _ h₁ in
      rw (upsert_granted, c, k, upsert_write, spend, unspent) refl

  expiry_of :
      (gate : Gate) (registry : Registry) (now e : ℕ) (g : Grant)
      → IsAuthorized gate registry v (upsert_envelope gate r) true now g
      → ExpiresAt e r.sent
      → claim "expiresAt" g ≡ whole e
  unfolding verify_vault_grant
  expiry_of gate registry now e g k (a, h, sent, granted, is_e) =
      let x =
        verify_signed_grant-IsVerified gate.crypto "msp_memory_upsert"
          (upsert_envelope gate r).input k.access (keys_for v.vault_type gate.keys)
          (required_claims v.vault_type) now g k.verifies in
      let same_access : k.access ≡ a = some_injective (sym k.presented ∙ sent) in
      let same : h ≡ g =
        some_injective (sym granted ∙ ap (λ y. y.grant) (sym same_access) ∙ x.presented) in
      subst (λ y. claim "expiresAt" y ≡ whole e) same is_e

  -- After a successful msp_memory_upsert on a principal vault, the same request is refused with
  -- not_found, the error of a vault that does not exist, after any sequence of calls of the tools, as
  -- long as no purge, of those calls or of the repeated one, reads a time past the expiry of the
  -- grant. The repeated call may verify at any time, and reads the clock in order after that.
  pub memory_upsert_once :
      (times later : Times) (e : ℕ) (t t₁ : Tables Score) (u : Upserted Score)
      (cs : List (Call × Times))
      → require_string r.vault_id ≡ ok id
      → get_vault_by_id id t.registry ≡ some v
      → is_principal v.vault_type ≡ true
      → memory_upsert server r times t ≡ ok (t₁, u)
      → ExpiresAt e r.sent
      → later.granted_at ≤ later.checked_at
      → later.checked_at ≤ later.purged_at
      → later.purged_at ≤ e
      → All (λ c. c.1.purged_at ≤ e) cs
      → memory_upsert server r later (after_calls server cs t₁) ≡ err not_found
  memory_upsert_once times later e t t₁ u cs named there p done expires a b c early =
      let (o, checked, wrote) =
        >>=-eq-ok
          (check_access server.gate t.registry v (upsert_envelope server.gate r) true
            times.granted_at)
          _ (sym (memory_upsert-known times t named there) ∙ done) in
      let (g, is_g, first) =
        check_access-IsAuthorized server.gate t.registry v (upsert_envelope server.gate r) true
          times.granted_at o p checked in
      let wrote' : on_vault (some g) times t ≡ ok (t₁, u) =
        subst (λ x. on_vault x times t ≡ ok (t₁, u)) is_g wrote in
      let (_, _, same, spent, _) =
        upsert_granted_sound server r id v (some g) times t t₁ u wrote' in
      let (follows, kept) = after_calls-FollowsBy server cs t₁ e early in
      let t₂ = after_calls server cs t₁ in
      let there' : get_vault_by_id id t₂.registry ≡ some v =
        ap (λ x. get_vault_by_id id x) (kept ∙ ap (λ x. x.0) same) ∙ there in
      memory_upsert-known later t₂ named there'
      ∙ (elim (Result-cases (
          check_access server.gate t₂.registry v (upsert_envelope server.gate r) true
            later.granted_at)) [
              | inl (thrown, refused) ↦
                  let hidden =
                    check_access-hidden server.gate t₂.registry v (upsert_envelope server.gate r)
                      true later.granted_at thrown p refused in
                  rw (refused, hidden) refl
              | inr (o', again) ↦
                  let (g', is_g', second) =
                    check_access-IsAuthorized server.gate t₂.registry v
                      (upsert_envelope server.gate r) true later.granted_at o' p again in
                  let one : g' ≡ g = sym (
                    one_grant server.gate t.registry t₂.registry v (upsert_envelope server.gate r)
                      true times.granted_at later.granted_at g g' first second) in
                  let is_spent : consume_authorized_grant v (some g) later t₂.nonces
                      ≡ err not_found =
                    spent_again server.gate t₂.registry v (upsert_envelope server.gate r) times
                      later e g t.nonces t₁.nonces t₂.nonces p spent follows
                      (subst
                        (λ x.
                          IsAuthorized server.gate t₂.registry v (upsert_envelope server.gate r)
                            true later.granted_at x)
                        one second)
                      (expiry_of server.gate t.registry times.granted_at e g first expires) a b c in
                  rw (again, is_g', one)
                    (upsert_granted-unspent times later t t₂ t₁ u (some g) (some g) wrote' is_spent)
            ])
