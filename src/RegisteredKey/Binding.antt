-- ===== src/RegisteredKey/Binding.antt =====
-- What the hashed messages of a registered key bind.
use mathlib.Core.Bool.{true≢false}
use nexus_sdk.Prelude.{
  ◌≡◌, ◌≢◌, refl, sym, ap, ◌∙◌, ◌⊎◌, inl, inr, List, [], ◌∷◌, ◌++◌, length, length-append, arith,
  Bool-cases, Result, ok, >>=-eq-ok, ok_injective, ◌==◌, ==_iff, nat_eq, list_eq,
}
use nexus_sdk.RegisteredKey.{
  Bytes, KeyError, ToolInvocationNoncePreimage, invocation_nonce_domain, tool_response_domain,
  result_sha256, invocation_nonce, tool_signature_message,
}

-- Two inputs with the same hash.
abbrev pub IsCollision : (Bytes → Bytes) → Bytes → Bytes → Type 0
IsCollision hash x y = (x ≢ y) × (hash x ≡ hash y)

append-injective {ℓ} :
    {A : Type ℓ} (xs xs' : List A) (ys ys' : List A)
    → length xs ≡ length xs'
    → xs ++ ys ≡ xs' ++ ys'
    → (xs ≡ xs') × (ys ≡ ys')
append-injective [] [] ys ys' l h = (refl, h)
append-injective [] (x' ∷ xs') ys ys' l h = ground arith
append-injective (x ∷ xs) [] ys ys' l h = ground arith
append-injective (x ∷ xs) (x' ∷ xs') ys ys' l h =
    let (rest, later) = append-injective xs xs' ys ys' (ground arith) (ground arith) in
    (ground arith, later)

-- Equal hashes are those of equal inputs, or of a collision.
hash_binds : (hash : Bytes → Bytes) (x y : Bytes) → hash x ≡ hash y → (x ≡ y) ⊎ IsCollision hash x y
hash_binds hash x y h = elim (Bool-cases (x == y)) [
  | inl same ↦ inl ((==_iff x y).0 same)
  | inr other ↦ inr ((λ e. true≢false (sym ((==_iff x y).1 e) ∙ other)), h)
]

-- A signature message with a leader's signature of 64 bytes and a nonce of 32 bytes fixes both, and it
-- fixes the result up to a collision of the hash.
pub tool_signature_message-binds :
    (sha256 : Bytes → Bytes) (signature signature' nonce nonce' result result' : Bytes)
    → length signature ≡ 64
    → length signature' ≡ 64
    → length nonce ≡ 32
    → length nonce' ≡ 32
    → tool_signature_message sha256 signature nonce result
      ≡ tool_signature_message sha256 signature' nonce' result'
    → (signature ≡ signature')
      × (nonce ≡ nonce')
      × ((result ≡ result') ⊎ IsCollision sha256 result result')
unfolding tool_signature_message result_sha256
tool_signature_message-binds sha256 s s' n n' r r' ls ls' ln ln' h =
    let d = tool_response_domain in
    let before : length (d ++ s) ≡ length (d ++ s') =
      omega (arith, length-append d s, length-append d s') in
    let start : length (d ++ s ++ n) ≡ length (d ++ s' ++ n') =
      omega (arith, length-append (d ++ s) n, length-append (d ++ s') n') in
    let (first, h₃) =
      append-injective (d ++ s ++ n) (d ++ s' ++ n') (sha256 r) (sha256 r') start h in
    let (second, same_nonce) = append-injective (d ++ s) (d ++ s') n n' before first in
    let (_, same_signature) = append-injective d d s s' refl second in
    (same_signature, same_nonce, hash_binds sha256 r r' h₃)

-- If BCS encodes different invocations differently, equal nonces are those of the same execution, walk,
-- vertex and iteration, or of a collision of the hash.
pub invocation_nonce-binds :
    (sha256 : Bytes → Bytes) (to_bytes : ToolInvocationNoncePreimage → Result KeyError Bytes)
    → ((p q : ToolInvocationNoncePreimage) (b : Bytes)
        → to_bytes p ≡ ok b
        → to_bytes q ≡ ok b
        → p ≡ q)
    → (p q : ToolInvocationNoncePreimage) (nonce : Bytes)
    → invocation_nonce sha256 to_bytes p.execution_id p.walk_index p.vertex_name p.iteration
      ≡ ok nonce
    → invocation_nonce sha256 to_bytes q.execution_id q.walk_index q.vertex_name q.iteration
      ≡ ok nonce
    → (p ≡ q) ⊎ ((x : Bytes) × (y : Bytes) × IsCollision sha256 x y)
unfolding invocation_nonce
invocation_nonce-binds sha256 to_bytes distinct p q nonce h k =
    let (b, written, h₁) = >>=-eq-ok (to_bytes p) _ h in
    let (c, also, k₁) = >>=-eq-ok (to_bytes q) _ k in
    let x = invocation_nonce_domain ++ b in
    let y = invocation_nonce_domain ++ c in
    elim (hash_binds sha256 x y (ok_injective h₁ ∙ sym (ok_injective k₁))) [
      | inl same ↦
          let (_, bytes) =
            append-injective invocation_nonce_domain invocation_nonce_domain b c refl same in
          inl (distinct p q c (written ∙ ap ok bytes) also)
      | inr collision ↦ inr (x, y, collision)
    ]
