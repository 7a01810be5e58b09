-- ===== src/Nonce/Tests.antt =====
-- Allocations up to the end of the nonces.
use nexus_sdk.Prelude.{◌-◌, ◌^◌, ◌≡◌, refl, some, [], ◌∷◌, get_elem?, ok, err, arith}
use nexus_sdk.Nonce.{exhausted, allocate, allocations, nonce_at, allocations-get_elem}

exhausts : allocations 3 (2 ^ 32 - 3) ≡ ok (2 ^ 32 - 3) ∷ ok (2 ^ 32 - 2) ∷ err exhausted ∷ []
unfolding allocate allocations
exhausts = refl

allocations-get_elem_example : get_elem? (allocations 3 4) 2 ≡ some (nonce_at 4 2)
allocations-get_elem_example = allocations-get_elem 3 4 2 (omega arith) (omega arith)
