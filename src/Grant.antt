-- ===== src/Grant.antt =====
-- packages/msp-contracts/src/contracts/signed-grant.mjs, and the signer of thread-access.mjs.
-- A grant is a parsed JSON object: its members in order, looked up by name. Times are
-- milliseconds since the epoch. node:crypto, Buffer and JSON.stringify are the parameter `Crypto`.
pub mod Verify
pub mod Sign
pub mod Examples
use Prim.Native.Char.{code}
use memory_and_soul_passport.Prelude.{
  ℕ, ◌+◌, String, ◌≡◌, ◌↔◌, Bool, true, false, ◌&&◌, Option, none, some, List, [], ◌∷◌, ltb, leb,
  nat_eq, if◌then◌else◌, ◌==◌, length, dec_text,
}
use memory_and_soul_passport.Errors.{
  Result, ok, err, ◌>>=◌, ◌>>◌, guard, grant_unconfigured, grant_signature_invalid, grant_expired,
  grant_payload_mismatch, invalid_request,
}

-- The value of one member. `other` keeps the JSON text of a value that no check accepts: null, a
-- negative or fractional number, an array, an object.
pub data Claim : Type 0 where
  absent : Claim
  text : String → Claim
  whole : ℕ → Claim
  boolean : Bool → Claim
  other : String → Claim

abbrev pub Grant : Type 0
Grant = List (String × Claim)

-- `grant[name]`
unfoldable pub claim : String → Grant → Claim
claim name [] = absent
claim name ((k, v) ∷ g) = if k == name then v else claim name g

-- `{ ...g, [name]: v }`: a member keeps its place, and a new one goes to the end.
unfoldable pub put : String → Claim → Grant → Grant
put name v [] = (name, v) ∷ []
put name v ((k, w) ∷ g) = if k == name then (k, v) ∷ g else (k, w) ∷ put name v g

-- `{ ...g, ...h }`
unfoldable pub spread : Grant → Grant → Grant
spread g [] = g
spread g ((k, v) ∷ h) = spread (put k v g) h

-- `access`: the grant is `none` where it is missing or no plain object, the signature where it is
-- missing or no string. A request without `access` has neither.
pub record Access : Type 0 where
  pub grant : Option Grant
  pub signature : Option String

-- The argument `keyFor`: a key, or a function of the tenant that the grant claims.
pub data KeySource : Type 0 where
  fixed : Option String → KeySource
  resolver : (Claim → Option String) → KeySource

abbrev pub key_for : KeySource → Claim → Option String
key_for (fixed key) tenant = key
key_for (resolver f) tenant = f tenant

-- `s.length`, in UTF-16 code units.
unfoldable pub text_length : String → ℕ
text_length String.[] = 0
text_length (String.◌∷◌ c s) = text_length s + (if ltb (code c) 65536 then 1 else 2)

-- What the code takes from node: the digest of createHmac and its hexadecimal text, the hash of
-- createHash, Buffer.from(_, "hex"), timingSafeEqual (on buffers of one length), JSON.stringify.
pub record Crypto : Type 0 where
  pub hmac : String → String → List ℕ
  pub hmac_hex : String → String → String
  pub sha256_hex : String → String
  pub from_hex : String → List ℕ
  pub timing_safe_equal : List ℕ → List ℕ → Bool
  pub json : Grant → String
  pub from_hex-hmac_hex :
      (key message : String) → from_hex (hmac_hex key message) ≡ hmac key message
  pub timing_safe_equal_iff :
      (a b : List ℕ) → length a ≡ length b → (timing_safe_equal a b ≡ true) ↔ (a ≡ b)

abbrev pub max_claim_length : ℕ
max_claim_length = 128

abbrev pub grant_window : ℕ
grant_window = 65000

abbrev claimed_tenant : Option Grant → Claim
claimed_tenant none = absent
claimed_tenant (some g) = claim "tenantId" g

unfoldable pub usable_key : Option String → Result String
usable_key none = err grant_unconfigured
usable_key (some key) = if ltb (text_length key) 32 then err grant_unconfigured else ok key

abbrev pub is_text : Claim → String → Bool
is_text (text s) t = s == t
is_text _ t = false

unfoldable pub named_grant : Option Grant → String → Result Grant
named_grant none name = err grant_signature_invalid
named_grant (some g) name =
    if is_text (claim "operation" g) name then ok g else err grant_signature_invalid

-- `Number.isInteger(expiresAt) && now < expiresAt && expiresAt <= now + 65_000`
unfoldable pub in_window : Claim → ℕ → Bool
in_window (whole t) now = ltb now t && leb t (now + grant_window)
in_window _ now = false

-- One round of assertClaimStrings.
unfoldable pub is_claim_string : Claim → Bool
is_claim_string (text s) = ltb 0 (text_length s) && leb (text_length s) max_claim_length
is_claim_string _ = false

unfoldable pub assert_claim_strings : Grant → List String → Result (Unit {0})
assert_claim_strings g [] = ok tt
assert_claim_strings g (k ∷ ks) = do
  guard (is_claim_string (claim k g)) grant_signature_invalid
  assert_claim_strings g ks

abbrev pub signature_text : Access → String
signature_text access = elim access.signature [ none ↦ "" | some s ↦ s ]

module _ (c : Crypto) where
  open c use {hmac, hmac_hex, sha256_hex, from_hex, timing_safe_equal, json}

  unfoldable pub signature_matches : String → Grant → String → Bool
  signature_matches key g signature =
      nat_eq (length (from_hex signature)) (length (hmac key (json g)))
      && timing_safe_equal (from_hex signature) (hmac key (json g))

  -- `input` is the JSON text of the request without its grant envelope.
  unfoldable pub verify_signed_grant :
      String → String → Access → KeySource → List String → ℕ → Result Grant
  verify_signed_grant name input access keys required now = do
    key ← usable_key (key_for keys (claimed_tenant access.grant))
    g ← named_grant access.grant name
    guard (signature_matches key g (signature_text access)) grant_signature_invalid
    guard (in_window (claim "expiresAt" g) now) grant_expired
    guard (is_text (claim "payloadHash" g) (sha256_hex input)) grant_payload_mismatch
    assert_claim_strings g required
    ok g

  -- thread-access.mjs
  pub verify_thread_grant : String → String → Access → KeySource → ℕ → Result Grant
  unfolding verify_signed_grant
  verify_thread_grant name input access keys now =
      verify_signed_grant name input access keys
        ("tenantId" ∷ "principalId" ∷ "policyRevision" ∷ "agentId" ∷ "workspaceId" ∷ []) now

  -- The grant that signThreadRequest builds around the given claims; `nonce` is the hexadecimal
  -- text of its sixteen random bytes.
  pub issued_grant : String → String → Grant → String → ℕ → Grant
  issued_grant name input claims nonce now = put "payloadHash" (text (sha256_hex input)) (
      put "expiresAt" (whole (now + 60000))
        (put "operation" (text name) (spread (("nonce", text nonce) ∷ []) claims)))

  -- A missing or short key is a plain Error, which carries no code; it is `invalid_request` here.
  pub sign_thread_request : String → String → Grant → Option String → String → ℕ → Result Access
  unfolding issued_grant
  sign_thread_request name input claims none nonce now = err invalid_request
  sign_thread_request name input claims (some key) nonce now =
      let g = issued_grant name input claims nonce now in
      if ltb (text_length key) 32
      then err invalid_request
      else ok (record { grant = some g; signature = some (hmac_hex key (json g)) })
