-- ===== src/Nonces/Examples.antt =====
-- The nonce of one signed grant, consumed once and refused after.
use memory_and_soul_passport.Prelude.{◌≤◌, ◌<◌, ◌≡◌, refl, some, [], ◌∷◌, dec_text, arith}
use memory_and_soul_passport.Errors.{ok, err, grant_replayed}
use memory_and_soul_passport.Grant.{text, whole, claim, text_length}
use memory_and_soul_passport.Grant.Examples.{toy, grant, access, keys, grant_verified}
use memory_and_soul_passport.Nonces.{
  NonceRow, purge, is_used, nonce_text, plausible_expiry, insert_nonce, consume_grant_nonce,
  Attempt, attempts,
}
use memory_and_soul_passport.Nonces.OnceOnly.{consume-verify_replayed, consume_after_expiry}
use memory_and_soul_passport.Nonces.Table.{IsUnique, attempts-IsUnique}

abbrev row : NonceRow
row = record { tenant_id = some "t"; nonce = "n"; expires_at = 61000 }

-- Another tenant uses the same nonce meanwhile.
abbrev other_attempt : Attempt
other_attempt = record {
  tenant_id = some "u";
  nonce = text "n";
  expires_at = whole 62000;
  checked_at = 1700;
  now = 1700;
}

consumed :
    consume_grant_nonce (some "t") (claim "nonce" grant) (claim "expiresAt" grant) 1500 1500 []
    ≡ ok (row ∷ [])
unfolding consume_grant_nonce nonce_text plausible_expiry insert_nonce purge is_used claim
    text_length dec_text
consumed = refl

consume-verify_replayed_example :
    consume_grant_nonce
      (some "t")
      (claim "nonce" grant)
      (claim "expiresAt" grant)
      2000
      2000
      (attempts (row ∷ []) (other_attempt ∷ []))
    ≡ err grant_replayed
consume-verify_replayed_example =
    consume-verify_replayed toy "thread_append" "{}" access keys ("tenantId" ∷ []) grant (some "t")
      1500 1500 2000 [] (row ∷ []) (other_attempt ∷ []) consumed (omega arith, tt) grant_verified

name_long_enough : 0 < text_length "n"
unfolding text_length
name_long_enough = omega arith

name_short_enough : text_length "n" ≤ 128
unfolding text_length
name_short_enough = omega arith

consume_after_expiry_example :
    consume_grant_nonce (some "t") (text "n") (whole 61000) 60999 61001 (row ∷ []) ≡ ok (row ∷ [])
consume_after_expiry_example =
    consume_after_expiry (some "t") "n" 61000 60999 61001 name_long_enough name_short_enough
      (omega arith) (omega arith)

row-IsUnique : IsUnique (row ∷ [])
unfolding is_used
row-IsUnique = (tt, tt)

attempts-IsUnique_example : IsUnique (attempts (row ∷ []) (other_attempt ∷ other_attempt ∷ []))
attempts-IsUnique_example =
    attempts-IsUnique (row ∷ []) (other_attempt ∷ other_attempt ∷ []) row-IsUnique
