-- ===== src/Grant/Verify.antt =====
-- What a verified grant has established, and the errors of one that is refused.
use memory_and_soul_passport.Prelude.{
  ℕ, ◌+◌, ◌≤◌, ◌<◌, String, ◌≡◌, refl, ap, ◌↔◌, true, Option, inl, inr, none, some, List, [], ◌∷◌,
  arith, All, length,
}
use memory_and_soul_passport.Errors.{
  Error, ok, err, is_grant_error, grant_signature_invalid, Result-cases, >>=-eq-ok, >>=-eq-err,
}
use memory_and_soul_passport.Grant.{
  Claim, absent, text, whole, Grant, claim, Access, KeySource, key_for, text_length, Crypto,
  max_claim_length, grant_window, usable_key, named_grant, in_window, is_claim_string,
  assert_claim_strings, signature_text, claimed_tenant, signature_matches, verify_signed_grant,
  is_text,
}

abbrev pub IsClaimString : Claim → Type 0
IsClaimString v =
    (s : String) × (v ≡ text s) × (0 < text_length s) × (text_length s ≤ max_claim_length)

is_claim_string_sound : (v : Claim) → is_claim_string v ≡ true → IsClaimString v
unfolding is_claim_string
is_claim_string_sound (text s) h = (s, refl, ground arith, ground arith)
is_claim_string_sound absent h = cc
is_claim_string_sound _ h = cc

is_claim_string_complete : (v : Claim) → IsClaimString v → is_claim_string v ≡ true
unfolding is_claim_string
is_claim_string_complete v (s, e, lo, hi) = rw e (ground arith)

assert_claim_strings_sound :
    (g : Grant) (ks : List String)
    → assert_claim_strings g ks ≡ ok tt
    → All (λ k. IsClaimString (claim k g)) ks
unfolding assert_claim_strings
assert_claim_strings_sound g [] h = tt
assert_claim_strings_sound g (k ∷ ks) h = (
  is_claim_string_sound (claim k g) (ground arith),
  assert_claim_strings_sound g ks (ground arith),
)

assert_claim_strings_complete :
    (g : Grant) (ks : List String)
    → All (λ k. IsClaimString (claim k g)) ks
    → assert_claim_strings g ks ≡ ok tt
unfolding assert_claim_strings
assert_claim_strings_complete g [] h = refl
assert_claim_strings_complete g (k ∷ ks) (p, h) =
    rw (is_claim_string_complete (claim k g) p) (assert_claim_strings_complete g ks h)

assert_claim_strings-error :
    (g : Grant) (ks : List String) (e : Error)
    → assert_claim_strings g ks ≡ err e
    → e ≡ grant_signature_invalid
unfolding assert_claim_strings
assert_claim_strings-error g [] e h = cc
assert_claim_strings-error g (k ∷ ks) e h = ground (arith, assert_claim_strings-error g ks e)

usable_key-error : (k : Option String) (e : Error) → usable_key k ≡ err e → is_grant_error e ≡ true
unfolding usable_key
usable_key-error none e h = ground arith
usable_key-error (some key) e h = ground arith

named_grant-error :
    (o : Option Grant) (name : String) (e : Error)
    → named_grant o name ≡ err e
    → is_grant_error e ≡ true
unfolding named_grant
named_grant-error none name e h = ground arith
named_grant-error (some g) name e h = ground arith

in_window_sound :
    (v : Claim) (now : ℕ)
    → in_window v now ≡ true
    → (t : ℕ) × (v ≡ whole t) × (now < t) × (t ≤ now + grant_window)
unfolding in_window
in_window_sound (whole t) now h = (t, refl, ground arith, ground arith)
in_window_sound absent now h = cc
in_window_sound _ now h = cc

usable_key_sound :
    (k : Option String) {key : String}
    → usable_key k ≡ ok key
    → (k ≡ some key) × (32 ≤ text_length key)
unfolding usable_key
usable_key_sound none h = cc
usable_key_sound (some key) h = (ground arith, ground arith)

named_grant_sound :
    (o : Option Grant) (name : String) {g : Grant}
    → named_grant o name ≡ ok g
    → (o ≡ some g) × (claim "operation" g ≡ text name)
unfolding named_grant
named_grant_sound none name h = cc
named_grant_sound (some g) name h = (ground arith, ground arith)

is_text_sound : (v : Claim) (t : String) → is_text v t ≡ true → v ≡ text t
is_text_sound (text s) t h = ground arith
is_text_sound absent t h = cc
is_text_sound _ t h = cc

module _ (c : Crypto) where
  pub record IsVerified (name input : String) (access : Access) (keys : KeySource)
      (required : List String) (now : ℕ) (g : Grant) : Type 0 where
    pub key : String
    pub expires_at : ℕ
    pub presented : access.grant ≡ some g
    pub resolved : key_for keys (claim "tenantId" g) ≡ some key
    pub long : 32 ≤ text_length key
    pub operation : claim "operation" g ≡ text name
    pub signed : c.from_hex (signature_text access) ≡ c.hmac key (c.json g)
    pub expires : claim "expiresAt" g ≡ whole expires_at
    pub not_expired : now < expires_at
    pub not_too_long : expires_at ≤ now + grant_window
    pub payload : claim "payloadHash" g ≡ text (c.sha256_hex input)
    pub claims : All (λ k. IsClaimString (claim k g)) required

  signature_matches_iff :
      (key : String) (g : Grant) (s : String)
      → (signature_matches c key g s ≡ true) ↔ (c.from_hex s ≡ c.hmac key (c.json g))
  unfolding signature_matches
  signature_matches_iff key g s = (
    λ h.
        (c.timing_safe_equal_iff (c.from_hex s) (c.hmac key (c.json g)) (ground arith)).0
          (ground arith),
    λ e.
        let l : length (c.from_hex s) ≡ length (c.hmac key (c.json g)) = ap length e in
        ground (arith, (c.timing_safe_equal_iff (c.from_hex s) (c.hmac key (c.json g)) l).1 e),
  )

  -- A grant that verification accepts was presented with the request, names its operation and the
  -- hash of its input, carries a signature that decodes to its digest under the key of its claimed
  -- tenant, of at least 32 characters, expires after the given time and at most 65 seconds after it,
  -- and has every required claim as a text of 1 to 128 characters.
  pub verify_signed_grant-IsVerified :
      (name input : String) (access : Access) (keys : KeySource) (required : List String) (now : ℕ)
      (g : Grant)
      → verify_signed_grant c name input access keys required now ≡ ok g
      → IsVerified name input access keys required now g
  unfolding verify_signed_grant
  verify_signed_grant-IsVerified name input access keys required now g h =
      let (key, usable, h₁) = >>=-eq-ok (usable_key _) _ h in
      let (g', named, h₂) = >>=-eq-ok (named_grant access.grant name) _ h₁ in
      let same_grant : g' ≡ g = ground arith in
      let matches : signature_matches c key g' (signature_text access) ≡ true = ground arith in
      let timely : in_window (claim "expiresAt" g') now ≡ true = ground arith in
      let bound : is_text (claim "payloadHash" g') (c.sha256_hex input) ≡ true = ground arith in
      let strings : assert_claim_strings g' required ≡ ok tt = ground arith in
      let (resolved, long) = usable_key_sound _ usable in
      let (presented, operation) = named_grant_sound access.grant name named in
      let (t, expires, later, near) = in_window_sound _ now timely in
      rw (← same_grant) (record {
        key = key;
        expires_at = t;
        presented = presented;
        resolved = rw presented at resolved;
        long = long;
        operation = operation;
        signed = (signature_matches_iff key g' _).0 matches;
        expires = expires;
        not_expired = later;
        not_too_long = near;
        payload = is_text_sound _ _ bound;
        claims = assert_claim_strings_sound g' required strings;
      })

  -- A presented grant with the operation, the hash, the signature, the key, the expiry and the claims
  -- that verification asks for is accepted, and is what verification returns.
  pub verify_signed_grant_complete :
      (name input : String) (access : Access) (keys : KeySource) (required : List String) (now : ℕ)
      (g : Grant)
      → IsVerified name input access keys required now g
      → verify_signed_grant c name input access keys required now ≡ ok g
  unfolding verify_signed_grant usable_key named_grant in_window
  verify_signed_grant_complete name input access keys required now g v = ground (
    arith,
    v.presented,
    v.resolved,
    v.long,
    v.operation,
    v.expires,
    v.not_expired,
    v.not_too_long,
    v.payload,
    (signature_matches_iff v.key g (signature_text access)).1 v.signed,
    assert_claim_strings_complete g required v.claims,
  )

  -- A refusal has one of the codes of a grant.
  pub verify_signed_grant-error :
      (name input : String) (access : Access) (keys : KeySource) (required : List String) (now : ℕ)
      (e : Error)
      → verify_signed_grant c name input access keys required now ≡ err e
      → is_grant_error e ≡ true
  unfolding verify_signed_grant
  verify_signed_grant-error name input access keys required now e h =
      elim (>>=-eq-err (usable_key (key_for keys (claimed_tenant access.grant))) _ h) [
        | inl p ↦ usable_key-error (key_for keys (claimed_tenant access.grant)) e p
        | inr (key, _, h₁) ↦ elim (>>=-eq-err (named_grant access.grant name) _ h₁) [
          | inl p ↦ named_grant-error access.grant name e p
          | inr (g, _, h₂) ↦ elim (Result-cases (assert_claim_strings g required)) [
            | inl (a, r) ↦ let k = assert_claim_strings-error g required a r in ground arith
            | inr (a, r) ↦ ground arith
          ]
        ]
      ]
