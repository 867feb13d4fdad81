-- ===== src/Grant/Examples.antt =====
-- A grant signed with a toy digest, and the theorems on grants applied to it.
use memory_and_soul_passport.Prelude.{
  ℕ, ◌≤◌, String, ◌≡◌, ◌≢◌, ◌↔◌, refl, Bool, true, false, ◌&&◌, some, List, [], ◌∷◌, nat_eq,
  if◌then◌else◌, ◌==◌, dec_text, All, arith, Bool-cases, inl, inr,
}
use memory_and_soul_passport.Errors.{ok}
use memory_and_soul_passport.Grant.{
  text, whole, Grant, claim, put, spread, Access, fixed, KeySource, Crypto, text_length, usable_key,
  named_grant, in_window, is_claim_string, assert_claim_strings, signature_matches,
  verify_signed_grant, issued_grant, verify_thread_grant, sign_thread_request,
}
use memory_and_soul_passport.Grant.Verify.{
  IsClaimString, IsVerified, verify_signed_grant-IsVerified, verify_signed_grant_complete,
}
use memory_and_soul_passport.Grant.Sign.{
  HasDistinctNames, thread_claims, verify_thread_grant-sign_thread_request,
}

abbrev secret : String
secret = "0123456789abcdef0123456789abcdef"

unfoldable pub same_bytes : List ℕ → List ℕ → Bool
same_bytes [] [] = true
same_bytes [] (b ∷ bs) = false
same_bytes (a ∷ as') [] = false
same_bytes (a ∷ as') (b ∷ bs) = nat_eq a b && same_bytes as' bs

pub same_bytes_iff : (a b : List ℕ) → (same_bytes a b ≡ true) ↔ (a ≡ b)
unfolding same_bytes
same_bytes_iff [] [] = (λ h. refl, λ h. refl)
same_bytes_iff [] (b ∷ bs) = (λ h. cc, λ h. cc)
same_bytes_iff (a ∷ as') [] = (λ h. cc, λ h. cc)
same_bytes_iff (a ∷ as') (b ∷ bs) = ground (arith, same_bytes_iff as' bs)

unfoldable pub toy_hmac : String → String → List ℕ
toy_hmac key message = if key == secret then 1 ∷ [] else 2 ∷ []

unfoldable pub toy_hmac_hex : String → String → String
toy_hmac_hex key message = if key == secret then "01" else "02"

unfoldable pub toy_from_hex : String → List ℕ
toy_from_hex s = if s == "01" then 1 ∷ [] else if s == "02" then 2 ∷ [] else []

pub toy_from_hex-toy_hmac_hex :
    (key message : String) → toy_from_hex (toy_hmac_hex key message) ≡ toy_hmac key message
unfolding toy_from_hex toy_hmac_hex toy_hmac dec_text
toy_from_hex-toy_hmac_hex key message = elim (Bool-cases (key == secret)) [
  | inl h ↦ rw h refl
  | inr h ↦ rw h refl
]

abbrev pub toy : Crypto
toy = record {
  hmac = toy_hmac;
  hmac_hex = toy_hmac_hex;
  sha256_hex = λ s. s;
  from_hex = toy_from_hex;
  timing_safe_equal = same_bytes;
  json = λ g. "grant";
  from_hex-hmac_hex = toy_from_hex-toy_hmac_hex;
  timing_safe_equal_iff = λ a b l. same_bytes_iff a b;
}

abbrev pub claims : Grant
claims =
    ("tenantId", text "t")
    ∷ ("principalId", text "p")
    ∷ ("policyRevision", text "1")
    ∷ ("agentId", text "a")
    ∷ ("workspaceId", text "w")
    ∷ []

-- What signThreadRequest makes of the claims at time 1000.
abbrev pub grant : Grant
grant =
    ("nonce", text "n")
    ∷ ("tenantId", text "t")
    ∷ ("principalId", text "p")
    ∷ ("policyRevision", text "1")
    ∷ ("agentId", text "a")
    ∷ ("workspaceId", text "w")
    ∷ ("operation", text "thread_append")
    ∷ ("expiresAt", whole 61000)
    ∷ ("payloadHash", text "{}")
    ∷ []

abbrev pub access : Access
access = record { grant = some grant; signature = some "01" }

abbrev pub keys : KeySource
keys = fixed (some secret)

issued : issued_grant toy "thread_append" "{}" claims "n" 1000 ≡ grant
unfolding issued_grant put spread dec_text
issued = refl

pub grant_verified :
    verify_signed_grant toy "thread_append" "{}" access keys ("tenantId" ∷ []) 2000 ≡ ok grant
unfolding verify_signed_grant usable_key named_grant in_window is_claim_string assert_claim_strings
    signature_matches toy_hmac toy_from_hex same_bytes claim text_length dec_text
grant_verified = refl

verify_signed_grant-IsVerified_example :
    IsVerified toy "thread_append" "{}" access keys ("tenantId" ∷ []) 2000 grant
verify_signed_grant-IsVerified_example =
    verify_signed_grant-IsVerified toy "thread_append" "{}" access keys ("tenantId" ∷ []) 2000 grant
      grant_verified

is_verified : IsVerified toy "thread_append" "{}" access keys ("tenantId" ∷ []) 2000 grant
unfolding claim text_length toy_hmac toy_from_hex dec_text
is_verified = record {
  key = secret;
  expires_at = 61000;
  presented = refl;
  resolved = refl;
  long = omega arith;
  operation = refl;
  signed = refl;
  expires = refl;
  not_expired = omega arith;
  not_too_long = omega arith;
  payload = refl;
  claims = (("t", refl, omega arith, omega arith), tt);
}

verify_signed_grant_complete_example :
    verify_signed_grant toy "thread_append" "{}" access keys ("tenantId" ∷ []) 2000 ≡ ok grant
verify_signed_grant_complete_example =
    verify_signed_grant_complete toy "thread_append" "{}" access keys ("tenantId" ∷ []) 2000 grant
      is_verified

claims_long_enough : All (λ k. IsClaimString (claim k claims)) thread_claims
unfolding claim text_length dec_text
claims_long_enough = (
  ("t", refl, omega arith, omega arith),
  (
    ("p", refl, omega arith, omega arith),
    (
      ("1", refl, omega arith, omega arith),
      (("a", refl, omega arith, omega arith), (("w", refl, omega arith, omega arith), tt)),
    ),
  ),
)

differ : {s t : String} → (s == t) ≡ false → s ≢ t
differ h e = ground arith

claims-HasDistinctNames : HasDistinctNames claims
unfolding dec_text
claims-HasDistinctNames = (
  (differ refl, (differ refl, (differ refl, (differ refl, tt)))),
  (
    (differ refl, (differ refl, (differ refl, tt))),
    ((differ refl, (differ refl, tt)), ((differ refl, tt), (tt, tt))),
  ),
)

secret_long : 32 ≤ text_length secret
unfolding text_length
secret_long = omega arith

verify_thread_grant-sign_thread_request_example :
    (a : Access) × (sign_thread_request toy "thread_append" "{}" claims (some secret) "n" 1000
      ≡ ok a)
    × (verify_thread_grant toy "thread_append" "{}" a keys 60999
        ≡ ok (issued_grant toy "thread_append" "{}" claims "n" 1000))
verify_thread_grant-sign_thread_request_example =
    verify_thread_grant-sign_thread_request toy "thread_append" "{}" claims "n" secret keys 1000
      60999 claims-HasDistinctNames claims_long_enough refl secret_long (omega arith) (omega arith)
