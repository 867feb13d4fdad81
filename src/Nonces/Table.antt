-- ===== src/Nonces/Table.antt =====
-- The table itself: its key, and what a call may delete.
use memory_and_soul_passport.Prelude.{
  ℕ, zero, suc, ◌+◌, ◌≤◌, String, ◌≡◌, refl, false, Option, List, [], ◌∷◌, ◌++◌, arith, length,
  ◌==◌, ◌≢◌, All, same, ◌&&◌, inl, inr,
}
use memory_and_soul_passport.Errors.{Result-cases}
use memory_and_soul_passport.Nonces.{
  NonceRow, purge_limit, purge, is_used, consume_grant_nonce, Attempt, attempt, attempts,
}
use memory_and_soul_passport.Nonces.Replay.{consume_grant_nonce-IsConsumed}

-- The constraint, as an insertion tests it.
abbrev HasKey : List NonceRow → Type 0
HasKey [] = Unit {0}
HasKey (r ∷ rows) = (is_used r.tenant_id r.nonce rows ≡ false) × HasKey rows

is_used-purge :
    (t : Option String) (n : String) (k now : ℕ) (rows : List NonceRow)
    → is_used t n rows ≡ false
    → is_used t n (purge k now rows) ≡ false
unfolding is_used purge
is_used-purge t n zero now rows h = h
is_used-purge t n (suc k) now [] h = refl
is_used-purge t n (suc k) now (r ∷ rows) h =
    ground (arith, is_used-purge t n k now rows, is_used-purge t n (suc k) now rows)

HasKey-purge : (k now : ℕ) (rows : List NonceRow) → HasKey rows → HasKey (purge k now rows)
unfolding purge
HasKey-purge zero now rows u = u
HasKey-purge (suc k) now [] u = tt
HasKey-purge (suc k) now (r ∷ rows) (h, u) = ground (
  arith,
  HasKey-purge k now rows u,
  HasKey-purge (suc k) now rows u,
  is_used-purge r.tenant_id r.nonce (suc k) now rows h,
)

is_used-append :
    (t : Option String) (n : String) (rows : List NonceRow) (x : NonceRow)
    → is_used t n rows ≡ false
    → (same x.tenant_id t && x.nonce == n) ≡ false
    → is_used t n (rows ++ x ∷ []) ≡ false
unfolding is_used
is_used-append t n [] x h k = ground arith
is_used-append t n (r ∷ rows) x h k = ground (arith, is_used-append t n rows x)

clash_symm :
    (s t : Option String) (m n : String)
    → (same s t && m == n) ≡ false
    → (same t s && n == m) ≡ false
clash_symm s t m n h = ground arith

HasKey-append :
    (rows : List NonceRow) (x : NonceRow)
    → HasKey rows
    → is_used x.tenant_id x.nonce rows ≡ false
    → HasKey (rows ++ x ∷ [])
unfolding is_used
HasKey-append [] x u h = (refl, tt)
HasKey-append (r ∷ rows) x (k, u) h = (
  is_used-append r.tenant_id r.nonce rows x k
      (clash_symm r.tenant_id x.tenant_id r.nonce x.nonce (ground arith)),
  HasKey-append rows x u (ground arith),
)

attempt-HasKey : (rows : List NonceRow) (a : Attempt) → HasKey rows → HasKey (attempt rows a)
unfolding attempt
attempt-HasKey rows a u =
    elim (Result-cases
      (consume_grant_nonce a.tenant_id a.nonce a.expires_at a.checked_at a.now rows)) [
        | inl (x, failed) ↦ rw (failed, attempt) u
        | inr (rows', done) ↦
            let k =
              consume_grant_nonce-IsConsumed a.tenant_id a.nonce a.expires_at a.checked_at a.now
                rows rows' done in
            rw (done, attempt, k.table_is)
              (HasKey-append _ _ (HasKey-purge purge_limit a.now rows u) k.was_unused)
      ]

attempts-HasKey :
    (rows : List NonceRow) (history : List Attempt) → HasKey rows → HasKey (attempts rows history)
unfolding attempts
attempts-HasKey rows [] u = u
attempts-HasKey rows (a ∷ history) u =
    attempts-HasKey (attempt rows a) history (attempt-HasKey rows a u)

-- Two rows that are not of one tenant, or have two nonces. No tenant equals no tenant only.
abbrev pub Differs : NonceRow → NonceRow → Type 0
Differs r s = r.tenant_id ≡ s.tenant_id → r.nonce ≢ s.nonce

-- No two rows agree in tenant and nonce.
abbrev pub IsUnique : List NonceRow → Type 0
IsUnique [] = Unit {0}
IsUnique (r ∷ rows) = All (Differs r) rows × IsUnique rows

is_used-Differs :
    (r : NonceRow) (rows : List NonceRow)
    → is_used r.tenant_id r.nonce rows ≡ false
    → All (Differs r) rows
unfolding is_used
is_used-Differs r [] h = tt
is_used-Differs r (x ∷ rows) h =
    (λ a b. absurd (ground arith), is_used-Differs r rows (ground arith))

Differs-is_used :
    (r : NonceRow) (rows : List NonceRow)
    → All (Differs r) rows
    → is_used r.tenant_id r.nonce rows ≡ false
unfolding is_used
Differs-is_used r [] d = refl
Differs-is_used r (x ∷ rows) (d, ds) = ground (arith, Differs-is_used r rows ds)

HasKey-IsUnique : (rows : List NonceRow) → HasKey rows → IsUnique rows
HasKey-IsUnique [] u = tt
HasKey-IsUnique (r ∷ rows) (h, u) = (is_used-Differs r rows h, HasKey-IsUnique rows u)

IsUnique-HasKey : (rows : List NonceRow) → IsUnique rows → HasKey rows
IsUnique-HasKey [] u = tt
IsUnique-HasKey (r ∷ rows) (d, u) = (Differs-is_used r rows d, IsUnique-HasKey rows u)

-- From a table of which no two rows agree in tenant and nonce, however calls follow one another, no
-- two rows of the table do: nor do two rows without a tenant have one nonce.
pub attempts-IsUnique :
    (rows : List NonceRow) (history : List Attempt)
    → IsUnique rows
    → IsUnique (attempts rows history)
attempts-IsUnique rows history u =
    HasKey-IsUnique (attempts rows history) (attempts-HasKey rows history (IsUnique-HasKey rows u))

length-purge :
    (k now : ℕ) (rows : List NonceRow)
    → (length (purge k now rows) ≤ length rows) × (length rows ≤ length (purge k now rows) + k)
unfolding purge
length-purge zero now rows = omega arith
length-purge (suc k) now [] = omega arith
length-purge (suc k) now (r ∷ rows) =
    ground (arith, length-purge k now rows, length-purge (suc k) now rows)
