-- ===== src/Nonce.antt =====
-- sdk/src/nexus/address_balance.rs: the nonces of one sender. Every clone of the allocator updates the same
-- counter in one atomic step, so that any interleaving of the clones is a sequence of allocations.
use nexus_sdk.Prelude.{
  ℕ, suc, ◌+◌, ◌^◌, ◌<◌, ◌≡◌, refl, sym, ap, ◌∙◌, Bool, true, false, Option, none, some, List, [],
  ◌∷◌, length, get_elem?, ltb, if◌then◌else◌, arith, Bool-cases, Result, ok, err, checked_add,
}
use mathlib.Core.Path.{subst}
pub mod Tests

pub data NonceError : Type 0 where
  exhausted : NonceError

-- `fetch_update`: the counter is kept if there is no next value.
abbrev pub fetch_update : ℕ → Option ℕ → ℕ × Result NonceError ℕ
fetch_update current (some next) = (next, ok current)
fetch_update current none = (current, err exhausted)

unfoldable pub allocate : ℕ → ℕ × Result NonceError ℕ
allocate current = fetch_update current (checked_add 32 current 1)

-- The results of a number of allocations.
unfoldable pub allocations : ℕ → ℕ → List (Result NonceError ℕ)
allocations ℕ.zero current = []
allocations (suc n) current = let (next, result) = allocate current in result ∷ allocations n next

-- The nonce of the allocation with this index.
abbrev pub nonce_at : ℕ → ℕ → Result NonceError ℕ
nonce_at initial i = if ltb (initial + i + 1) (2 ^ 32) then ok (initial + i) else err exhausted

allocate_first : (c : ℕ) → (allocate c).1 ≡ nonce_at c 0
unfolding allocate
allocate_first c = ground arith

allocate_next : (c i : ℕ) → nonce_at (allocate c).0 i ≡ nonce_at c (suc i)
unfolding allocate
allocate_next c i = ground arith

allocate_bound : (c : ℕ) → c < 2 ^ 32 → (allocate c).0 < 2 ^ 32
unfolding allocate
allocate_bound c h = ground arith

-- For a u32 counter, the allocation with index i, however the clones interleave, gives the initial value
-- plus i while the counter has a next value, and an error ever after: no nonce is given twice, none is
-- skipped, and the counter does not wrap.
pub allocations-get_elem :
    (n initial i : ℕ)
    → initial < 2 ^ 32
    → i < n
    → get_elem? (allocations n initial) i ≡ some (nonce_at initial i)
unfolding allocations
allocations-get_elem ℕ.zero initial i h k = ground arith
allocations-get_elem (suc n) initial ℕ.zero h k = ap some (allocate_first initial)
allocations-get_elem (suc n) initial (suc i) h k =
    allocations-get_elem n (allocate initial).0 i (allocate_bound initial h) (omega arith)
    ∙ ap some (allocate_next initial i)
