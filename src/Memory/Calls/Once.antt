-- ===== src/Memory/Calls/Once.antt =====
-- How the calls of the tools use the table of nonces.
pub mod Upserts
use memory_and_soul_passport.Prelude.{
  ℕ, ◌≤◌, String, ◌≡◌, refl, sym, ap, subst, ◌∙◌, inl, inr, Bool, true, false, Option, none, some,
  List, [], ◌∷◌, ◌++◌, arith, if◌then◌else◌, All, All-append, Bool-cases,
}
use memory_and_soul_passport.Errors.{
  Error, Result, ok, err, ◌>>=◌, not_found, grant_replayed, >>=-eq-ok, Result-cases, state_after,
}
use memory_and_soul_passport.Grant.{Grant, claim, Access}
use memory_and_soul_passport.Grant.Verify.{verify_signed_grant-IsVerified}
use memory_and_soul_passport.Nonces.{NonceRow, consume_grant_nonce, Attempt, attempt, attempts}
use memory_and_soul_passport.Nonces.OnceOnly.{consume-verify_replayed}
use memory_and_soul_passport.Vaults.{
  Vault, VaultType, Registry, get_vault_by_id, is_principal, is_global_private,
}
use memory_and_soul_passport.Entities.{Upserted}
use memory_and_soul_passport.Guards.{verify_vault_grant, keys_for, required_claims}
use memory_and_soul_passport.Memory.{
  Gate, Envelope, Times, text_of, check_access, hide_replay, consume_authorized_grant,
  require_known_vault,
}
use memory_and_soul_passport.Memory.Authorized.{
  IsAuthorized, check_access-IsAuthorized, check_access-hidden,
}
use memory_and_soul_passport.Memory.Tools.{
  Tables, Server, UpsertRequest, require_string, require_category, spend, upsert_write,
  upsert_granted, memory_upsert,
}
use memory_and_soul_passport.Memory.Calls.{Call, needs_nonce, answer, after_call, after_calls}
use memory_and_soul_passport.Memory.Calls.Effects.{IsStep}
use memory_and_soul_passport.Memory.Calls.Effects.Upserts.{upsert_granted_sound}
use memory_and_soul_passport.Memory.Calls.Owners.{answer-IsStep}

attempts-append :
    (rows : List NonceRow) (a b : List Attempt)
    → attempts rows (a ++ b) ≡ attempts (attempts rows a) b
unfolding attempts
attempts-append rows [] b = refl
attempts-append rows (x ∷ a) b = attempts-append (attempt rows x) a b

-- The table came about by attempts no later than this.
abbrev pub FollowsBy : ℕ → List NonceRow → List NonceRow → Type 0
FollowsBy later rows rows' =
    (history : List Attempt) × (rows' ≡ attempts rows history) × All (λ a. a.now ≤ later) history

FollowsBy-refl : (later : ℕ) (rows : List NonceRow) → FollowsBy later rows rows
unfolding attempts
FollowsBy-refl later rows = ([], refl, tt)

FollowsBy-trans :
    (later : ℕ) (a b c : List NonceRow)
    → FollowsBy later a b
    → FollowsBy later b c
    → FollowsBy later a c
FollowsBy-trans later a b c (x, p, early) (y, q, early') = (
  x ++ y,
  q ∙ ap (λ r. attempts r y) p ∙ sym (attempts-append a x y),
  All-append (λ a. a.now ≤ later) x y early early',
)

hide_replay-eq-ok :
    (v : Vault) (r : Result (List NonceRow)) {rows : List NonceRow}
    → hide_replay v r ≡ ok rows
    → r ≡ ok rows
hide_replay-eq-ok v (ok rows) h = h
hide_replay-eq-ok v (err grant_replayed) h = absurd (elim (Bool-cases (is_principal v.vault_type)) [
  | inl p ↦ let k = rw p at h in cc
  | inr n ↦ let k = rw n at h in cc
])
hide_replay-eq-ok v (err e) h = cc

-- The tenant under which a grant is spent on this vault.
abbrev pub tenant_for : Vault → Grant → Option String
tenant_for v g = if is_global_private v.vault_type then none else text_of (claim "tenantId" g)

pub consume_sound :
    (v : Vault) (g : Grant) (times : Times) (rows rows' : List NonceRow)
    → consume_authorized_grant v (some g) times rows ≡ ok rows'
    → consume_grant_nonce
        (tenant_for v g)
        (claim "nonce" g)
        (claim "expiresAt" g)
        times.checked_at
        times.purged_at
        rows
      ≡ ok rows'
unfolding consume_authorized_grant
consume_sound v g times rows rows' h = hide_replay-eq-ok v _ h

consumed-FollowsBy :
    (v : Vault) (g : Option Grant) (times : Times) (later : ℕ) (rows rows' : List NonceRow)
    → times.purged_at ≤ later
    → consume_authorized_grant v g times rows ≡ ok rows'
    → FollowsBy later rows rows'
unfolding attempts attempt consume_authorized_grant
consumed-FollowsBy v none times later rows rows' early h =
    let same : rows ≡ rows' = cc in subst (FollowsBy later rows) same (FollowsBy-refl later rows)
consumed-FollowsBy v (some g) times later rows rows' early h = (
  record {
    tenant_id = tenant_for v g;
    nonce = claim "nonce" g;
    expires_at = claim "expiresAt" g;
    checked_at = times.checked_at;
    now = times.purged_at;
  }
      ∷ [],
  rw (attempt, consume_sound v g times rows rows' h) refl,
  (early, tt),
)

module _ {Score : Type 0} (server : Server Score) where
  step-FollowsBy :
      (c : Call) (times : Times) (t t' : Tables Score) (later : ℕ)
      → times.purged_at ≤ later
      → IsStep server c times t t'
      → FollowsBy later t.nonces t'.nonces
  step-FollowsBy c times t t' later early step = elim (Bool-cases (needs_nonce c)) [
    | inl spends ↦
        consumed-FollowsBy step.vault step.grant times later t.nonces t'.nonces early
          (rw spends at step.nonces_after)
    | inr reads ↦
        let same : t.nonces ≡ t'.nonces = ok-injective_one (rw reads at step.nonces_after) in
        subst (FollowsBy later t.nonces) same (FollowsBy-refl later t.nonces)
  ]
    where
      ok-injective_one :
          {a b : List NonceRow} → ◌≡◌ {A = Result (List NonceRow)} (ok a) (ok b) → a ≡ b
      ok-injective_one k = cc

  after_call-FollowsBy :
      (c : Call) (times : Times) (t : Tables Score) (later : ℕ)
      → times.purged_at ≤ later
      → FollowsBy later t.nonces (after_call server (c, times) t).nonces
        × ((after_call server (c, times) t).registry ≡ t.registry)
  unfolding after_call
  after_call-FollowsBy c times t later early = elim (Result-cases (answer server c times t)) [
    | inl (e, h) ↦ rw (after_call, h) (FollowsBy-refl later t.nonces, refl)
    | inr ((t', a), h) ↦
        let step = answer-IsStep server c times t t' a h in
        rw (after_call, h) (step-FollowsBy c times t t' later early step, step.registry_after)
  ]

  pub after_calls-FollowsBy :
      (cs : List (Call × Times)) (t : Tables Score) (later : ℕ)
      → All (λ c. c.1.purged_at ≤ later) cs
      → FollowsBy later t.nonces (after_calls server cs t).nonces
        × ((after_calls server cs t).registry ≡ t.registry)
  unfolding after_calls
  after_calls-FollowsBy [] t later early = (FollowsBy-refl later t.nonces, refl)
  after_calls-FollowsBy ((c, times) ∷ cs) t later (early, rest) =
      let (f, same) = after_call-FollowsBy c times t later early in
      let (g, kept) = after_calls-FollowsBy cs (after_call server (c, times) t) later rest in
      (FollowsBy-trans later t.nonces _ _ f g, kept ∙ same)
