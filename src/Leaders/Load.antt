-- ===== src/Leaders/Load.antt =====
-- sdk/src/signed_http/v2/wire.rs: the keys that AllowedLeaders holds when it loads entries of one key each.
use mathlib.Core.Bool.{true≢false}
use nexus_sdk.Prelude.{
  some_injective, none-ne-some, Eq, Assoc, ℕ, ◌≡◌, refl, sym, ap, ◌∙◌, ◌↔◌, ◌⊎◌, inl, inr, Bool,
  true, false, some, none, [], ◌∷◌, arith, all, length, ok, ◌==◌, nat_eq, pair_eq, list_eq, ==_iff,
  if◌then◌else◌, insert, lookup, lookup-insert, contains_key,
}
use nexus_sdk.SignedHttp.{Bytes}
use nexus_sdk.Leaders.{
  AllowedLeaders, Hex, IsHex, is_hex_digit, without_0x, decode_public_key, add_leader,
}

-- Text of digits has no prefix that is left out.
without_0x-digits : (text : Bytes) → all is_hex_digit text ≡ true → without_0x text ≡ text
without_0x-digits [] h = refl
without_0x-digits (c ∷ []) h = refl
without_0x-digits (c ∷ d ∷ cs) h = ground (arith, ==_iff d 120)

module _ (H : Hex) (is_hex : IsHex H) where
  decode_public_key-encode :
      (key : Bytes) → length key ≡ 32 → decode_public_key H (H.encode key) ≡ ok key
  unfolding decode_public_key
  decode_public_key-encode key h =
      rw (without_0x-digits (H.encode key) (is_hex.digits key), is_hex.decodes key, h) refl

  -- An entry with a new key adds this key.
  pub add_leader-new :
      (allowed : AllowedLeaders) (leader_id : Bytes) (kid : ℕ) (key : Bytes)
      → length key ≡ 32
      → contains_key (leader_id, kid) allowed ≡ false
      → add_leader H allowed record {
        leader_id = leader_id;
        keys = record { kid = kid; public_key = H.encode key } ∷ [];
      }
        ≡ ok (insert (leader_id, kid) key allowed)
  add_leader-new allowed leader_id kid key h fresh = rw (decode_public_key-encode key h, fresh) refl

pub contains_key-lookup :
    (allowed : AllowedLeaders) (k : Bytes × ℕ)
    → contains_key k allowed ≡ false
    → lookup k allowed ≡ none
unfolding contains_key
contains_key-lookup allowed k h = ground arith

-- The entries after one with a new key is put in.
module _ {K V : Type 0} ⦃e : Eq K⦄ where
  inserted-lookup :
      (b : Bool) (k j : K) (v w : V) (m : Assoc K V)
      → (k == j) ≡ b
      → lookup k m ≡ none
      → ((if b then some v else lookup j m) ≡ some w)
        ↔ ((lookup j m ≡ some w) ⊎ ((j ≡ k) × (w ≡ v)))
  inserted-lookup true k j v w m same fresh =
      let equal : k ≡ j = (e.same_iff k j).0 same in
      (
        (λ h. inr (sym equal, sym (some_injective h))),
        λ h. elim h [
          | inl before ↦ absurd (none-ne-some (sym fresh ∙ ap (λ x. lookup x m) equal ∙ before))
          | inr new ↦ ap some (sym new.1)
        ],
      )
  inserted-lookup false k j v w m other fresh = (
    (λ h. inl h),
    λ h. elim h [
      | inl before ↦ before
      | inr new ↦ absurd (true≢false (sym ((e.same_iff k j).1 (sym new.0)) ∙ other))
    ],
  )

  pub lookup-insert_iff :
      (k j : K) (v w : V) (m : Assoc K V)
      → lookup k m ≡ none
      → (lookup j (insert k v m) ≡ some w) ↔ ((lookup j m ≡ some w) ⊎ ((j ≡ k) × (w ≡ v)))
  lookup-insert_iff k j v w m fresh =
      rw (lookup-insert k j v m) (inserted-lookup (k == j) k j v w m refl fresh)
