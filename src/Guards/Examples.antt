-- ===== src/Guards/Examples.antt =====
-- A request for a stored context, and the theorem on contexts applied to it.
use memory_and_soul_passport.Prelude.{◌≡◌, ◌↔◌, true, some}
use memory_and_soul_passport.Errors.{is_ok, ok}
use memory_and_soul_passport.Grant.{Grant}
use memory_and_soul_passport.Grant.Examples.{toy, keys, access}
use memory_and_soul_passport.Grant.Verify.{IsVerified}
use memory_and_soul_passport.Guards.Context.{
  ContextOwner, context_claims, can_read_context, IsOwner, can_read_context_iff,
}

abbrev row : ContextOwner
row = record { tenant_id = some "t"; principal_id = some "p" }

can_read_context_iff_example :
    (is_ok (can_read_context toy (some row) "thread_append" "{}" access keys 2000) ≡ true)
    × ((can_read_context toy (some row) "thread_append" "{}" access keys 2000 ≡ ok true) ↔ (
        (g : Grant) × IsVerified toy "thread_append" "{}" access keys context_claims 2000 g
        × IsOwner row g))
can_read_context_iff_example = can_read_context_iff toy row "thread_append" "{}" access keys 2000
