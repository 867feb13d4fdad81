-- ===== src/Grant/Sign.antt =====
-- A grant that signThreadRequest issues is accepted, for the minute that it lasts.
use memory_and_soul_passport.Prelude.{
  ℕ, ◌+◌, ◌≤◌, ◌<◌, String, ◌≡◌, refl, ◌≢◌, some, List, [], ◌∷◌, arith, All, if◌then◌else◌, ◌==◌,
  dec_text, Bool, false, ◌||◌,
}
use memory_and_soul_passport.Errors.{ok}
use memory_and_soul_passport.Grant.{
  Claim, text, whole, Grant, claim, put, Access, KeySource, key_for, text_length, Crypto,
  issued_grant, sign_thread_request, verify_thread_grant, absent, spread,
}
use memory_and_soul_passport.Grant.Verify.{IsClaimString, IsVerified, verify_signed_grant_complete}

-- A member that is written is read back, and the others stay.
pub claim-put :
    (j k : String) (v : Claim) (g : Grant) → claim j (put k v g) ≡ (if k == j then v else claim j g)
unfolding claim put
claim-put j k v [] = refl
claim-put j k v ((i, w) ∷ g) = ground (arith, claim-put j k v g)

-- No member of the object has this name.
abbrev pub IsUnused : String → Grant → Type 0
IsUnused j g = All (λ b. b.0 ≢ j) g

-- As in every object, no name stands twice.
abbrev pub HasDistinctNames : Grant → Type 0
HasDistinctNames [] = Unit
HasDistinctNames ((k, v) ∷ g) = IsUnused k g × HasDistinctNames g

claim-spread_unused : (j : String) (g h : Grant) → IsUnused j h → claim j (spread g h) ≡ claim j g
unfolding spread
claim-spread_unused j g [] u = refl
claim-spread_unused j g ((k, v) ∷ h) (u, us) =
    ground (arith, claim-spread_unused j (put k v g) h us, claim-put j k v g)

claim-spread :
    (j : String) (g h : Grant)
    → HasDistinctNames h
    → claim j h ≢ absent
    → claim j (spread g h) ≡ claim j h
unfolding spread claim
claim-spread j g [] d p = absurd (p refl)
claim-spread j g ((k, v) ∷ h) (u, d) p = elim (dec_text k j) [
  | yes e ↦ ground (arith, claim-spread_unused j (put k v g) h (rw e at u), claim-put j k v g)
  | no ne ↦ ground (arith, claim-spread j (put k v g) h d)
]

-- The members that the signer writes itself.
abbrev is_reserved : String → Bool
is_reserved j = j == "operation" || j == "expiresAt" || j == "payloadHash"

abbrev pub thread_claims : List String
thread_claims = "tenantId" ∷ "principalId" ∷ "policyRevision" ∷ "agentId" ∷ "workspaceId" ∷ []

module _ (c : Crypto) (name input : String) (claims : Grant) (nonce : String) (now : ℕ)
    (distinct : HasDistinctNames claims) where
  abbrev issued : Grant
  issued = issued_grant c name input claims nonce now

  claim-issued :
      (j : String)
      → is_reserved j ≡ false
      → claim j claims ≢ absent
      → claim j issued ≡ claim j claims
  unfolding issued_grant
  claim-issued j free present =
      simp claim-put (ground (arith, claim-spread j (("nonce", text nonce) ∷ []) claims distinct))

  issued-IsClaimString :
      (j : String)
      → is_reserved j ≡ false
      → IsClaimString (claim j claims)
      → IsClaimString (claim j issued)
  issued-IsClaimString j free (s, is, lo, hi) = rw (claim-issued j free (λ q. cc)) (s, is, lo, hi)

  issued_members :
      (claim "operation" issued ≡ text name)
      × (claim "expiresAt" issued ≡ whole (now + 60000))
      × (claim "payloadHash" issued ≡ text (c.sha256_hex input))
  unfolding issued_grant dec_text
  issued_members = (simp claim-put, simp claim-put, simp claim-put)

issued-IsVerified :
    (c : Crypto) (name input : String) (claims : Grant) (nonce key : String) (keys : KeySource)
    (now later : ℕ)
    → HasDistinctNames claims
    → All (λ k. IsClaimString (claim k claims)) thread_claims
    → key_for keys (claim "tenantId" claims) ≡ some key
    → 32 ≤ text_length key
    → now ≤ later + 5000
    → later < now + 60000
    → let g = issued_grant c name input claims nonce now in
      IsVerified c name input
        (record { grant = some g; signature = some (c.hmac_hex key (c.json g)) })
        keys
        thread_claims
        later
        g
unfolding dec_text
issued-IsVerified c name input claims nonce key keys now later distinct strings resolved long early
      late =
    record {
      key = key;
      expires_at = now + 60000;
      presented = refl;
      resolved =
          rw (claim-issued c name input claims nonce now distinct "tenantId" refl (λ q. cc))
            resolved;
      long = long;
      operation = members.0;
      signed = c.from_hex-hmac_hex key _;
      expires = members.1;
      not_expired = late;
      not_too_long = omega arith;
      payload = members.2;
      claims = (
        kept "tenantId" refl strings.0,
        (
          kept "principalId" refl strings.1.0,
          (
            kept "policyRevision" refl strings.1.1.0,
            (kept "agentId" refl strings.1.1.1.0, (kept "workspaceId" refl strings.1.1.1.1.0, tt)),
          ),
        ),
      );
    }
  where
    members :
        (claim "operation" (issued_grant c name input claims nonce now) ≡ text name)
        × (claim "expiresAt" (issued_grant c name input claims nonce now) ≡ whole (now + 60000))
        × (claim "payloadHash" (issued_grant c name input claims nonce now)
            ≡ text (c.sha256_hex input))
    members = issued_members c name input claims nonce now distinct

    kept :
        (j : String)
        → is_reserved j ≡ false
        → IsClaimString (claim j claims)
        → IsClaimString (claim j (issued_grant c name input claims nonce now))
    kept = issued-IsClaimString c name input claims nonce now distinct

-- A request with claims of distinct names, among them the five that a thread needs as texts of 1
-- to 128 characters, is signed with the key of its tenant, of at least 32 characters, and then
-- accepted with exactly the grant that was signed: until a minute after the time of signing, and
-- also by a clock up to five seconds behind it.
pub verify_thread_grant-sign_thread_request :
    (c : Crypto) (name input : String) (claims : Grant) (nonce key : String) (keys : KeySource)
    (now later : ℕ)
    → HasDistinctNames claims
    → All (λ k. IsClaimString (claim k claims)) thread_claims
    → key_for keys (claim "tenantId" claims) ≡ some key
    → 32 ≤ text_length key
    → now ≤ later + 5000
    → later < now + 60000
    → (access : Access) × (sign_thread_request c name input claims (some key) nonce now ≡ ok access)
      × (verify_thread_grant c name input access keys later
          ≡ ok (issued_grant c name input claims nonce now))
unfolding sign_thread_request verify_thread_grant
verify_thread_grant-sign_thread_request c name input claims nonce key keys now later d s r l e t = (
  record {
    grant = some (issued_grant c name input claims nonce now);
    signature = some (c.hmac_hex key (c.json (issued_grant c name input claims nonce now)));
  },
  ground arith,
  verify_signed_grant_complete c name input _ keys thread_claims later _
      (issued-IsVerified c name input claims nonce key keys now later d s r l e t),
)
