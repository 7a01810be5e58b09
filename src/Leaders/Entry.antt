-- ===== src/Leaders/Entry.antt =====
-- sdk/src/nexus/network_auth.rs: the entry of one leader.

use nexus_sdk.Prelude.{
  some_injective, ℕ, ◌≡◌, refl, sym, ap, ◌∙◌, ◌↔◌, ◌⊎◌, inl, inr, Option, some, none, List, Memᴰ,
  ok, >>=-eq-ok, ok_injective, nat_eq, pair_eq, list_eq,
}
use nexus_sdk.SignedHttp.{Bytes}
use nexus_sdk.Leaders.{AllowedLeaderFileV1, Hex}
use nexus_sdk.Leaders.Network.{
  leader, Network, ActiveEd25519Key, try_get_active_key_binding, entry_of, entry_of_binding,
  export_allowed_leader_entry_file_v1,
}
use nexus_sdk.Leaders.Active.{IsActive, try_get_active_key_binding_iff}

key_with :
    (k : ActiveEd25519Key) (kid : ℕ) (key : Bytes)
    → kid ≡ k.kid
    → key ≡ k.public_key
    → k ≡ record { kid = kid; public_key = key }
key_with k kid key same_kid same_key = rw (same_kid, same_key) refl

module _ (N : Network) (H : Hex) where
  -- A key that one of the leaders has as its active key.
  abbrev pub IsKeyOf : List ℕ → Bytes → ℕ → Bytes → Type 0
  IsKeyOf ids text kid key =
      (id : ℕ) × Memᴰ id ids × (text ≡ N.address_to_string id) × IsActive N id kid key

  -- The answers for one leader: without an active key, or with its entry.
  abbrev pub HasEntry : ℕ → Option AllowedLeaderFileV1 → Type 0
  HasEntry id entry =
      ((entry ≡ none) × ((kid : ℕ) (key : Bytes) → ¬ IsActive N id kid key))
      ⊎ ((k : ActiveEd25519Key) × (entry ≡ some (entry_of N H id k))
          × ((kid : ℕ) (key : Bytes)
              → IsActive N id kid key ↔ ((kid ≡ k.kid) × (key ≡ k.public_key))))

  binding-HasEntry :
      (id : ℕ) (bound : Option (Option ActiveEd25519Key)) (entry : Option AllowedLeaderFileV1)
      → try_get_active_key_binding N (leader id) ≡ ok bound
      → entry_of_binding N H id bound ≡ ok entry
      → HasEntry id entry
  binding-HasEntry id none entry got h =
      let (_, _, made) = >>=-eq-ok (N.binding_object_id (leader id)) _ h in cc
  binding-HasEntry id (some none) entry got h = inl (
    sym (ok_injective h),
    λ kid key a.
        absurd
          (inactive (ok_injective (sym got ∙ (try_get_active_key_binding_iff N id kid key).1 a))),
  )
    where
      inactive :
          {k : ActiveEd25519Key}
          → ¬ Path (Option (Option ActiveEd25519Key)) (some none) (some (some k))
      inactive e = cc
  binding-HasEntry id (some (some k)) entry got h = inr (
    k,
    sym (ok_injective h),
    λ kid key. (
      λ a.
          let same : k ≡ record { kid = kid; public_key = key } = some_injective (
            some_injective
              (ok_injective (sym got ∙ (try_get_active_key_binding_iff N id kid key).1 a))) in
          (ap (λ x. x.kid) (sym same), ap (λ x. x.public_key) (sym same)),
      λ e.
          (try_get_active_key_binding_iff N id kid key).0
            (got ∙ ap (λ x. ok (some (some x))) (key_with k kid key e.0 e.1)),
    ),
  )

  pub entry-HasEntry :
      (id : ℕ) (entry : Option AllowedLeaderFileV1)
      → export_allowed_leader_entry_file_v1 N H id ≡ ok entry
      → HasEntry id entry
  unfolding export_allowed_leader_entry_file_v1
  entry-HasEntry id entry h =
      let (bound, got, made) = >>=-eq-ok (try_get_active_key_binding N (leader id)) _ h in
      binding-HasEntry id bound entry got made
