-- ===== src/Leaders/Entries.antt =====
-- sdk/src/nexus/network_auth.rs with sdk/src/signed_http/v2/wire.rs: the entries of leaders, exported and loaded.
use mathlib.Core.Path.{subst}
use nexus_sdk.Prelude.{
  ℕ, ◌≡◌, refl, sym, ap, ◌∙◌, ◌↔◌, ◌⊎◌, inl, inr, false, ◌||◌, some, List, [], ◌∷◌, Memᴰ, length,
  ok, >>=-eq-ok, >>=-of_ok, try_fold, ok_injective, nat_eq, pair_eq, list_eq, ==_ne, insert,
  contains_key, contains_key-insert, IsDistinct,
}
use nexus_sdk.SignedHttp.{Bytes}
use nexus_sdk.Leaders.{
  AllowedLeaderFileV1, AllowedLeaders, leader_public_key, Hex, IsHex, add_leader,
}
use nexus_sdk.Leaders.Network.{
  Network, ActiveEd25519Key, entry_of, export_allowed_leader_entry_file_v1, push_some,
  export_entries,
}
use nexus_sdk.Leaders.Load.{contains_key-lookup, add_leader-new, lookup-insert_iff}
use nexus_sdk.Leaders.Active.{IsActive}
use nexus_sdk.Leaders.Entry.{IsKeyOf, entry-HasEntry}

module _ (N : Network) (H : Hex) where
  -- Of a list of distinct leaders: what loading its entries adds to the keys that are loaded already.
  abbrev pub Loads : List ℕ → List AllowedLeaderFileV1 → AllowedLeaders → Type 0
  Loads ids entries allowed =
      (result : AllowedLeaders) × (try_fold (add_leader H) allowed entries ≡ ok result)
      × ((text : Bytes) (kid : ℕ) (key : Bytes)
          → (leader_public_key result text kid ≡ some key)
            ↔ ((leader_public_key allowed text kid ≡ some key) ⊎ IsKeyOf N H ids text kid key))

  abbrev pub HasNone : List ℕ → AllowedLeaders → Type 0
  HasNone ids allowed =
      (id kid : ℕ) → Memᴰ id ids → contains_key (N.address_to_string id, kid) allowed ≡ false

  skip-Loads :
      (id : ℕ) (ids : List ℕ) (entries : List AllowedLeaderFileV1) (allowed : AllowedLeaders)
      → ((kid : ℕ) (key : Bytes) → ¬ IsActive N id kid key)
      → Loads ids entries allowed
      → Loads (id ∷ ids) entries allowed
  skip-Loads id ids entries allowed inactive (result, loaded, has) = (
    result,
    loaded,
    λ text kid key. (
      λ h. further text kid key ((has text kid key).0 h),
      λ h. (has text kid key).1 (back text kid key h),
    ),
  )
    where
      further :
          (text : Bytes) (kid : ℕ) (key : Bytes)
          → ((leader_public_key allowed text kid ≡ some key) ⊎ IsKeyOf N H ids text kid key)
          → ((leader_public_key allowed text kid ≡ some key) ⊎ IsKeyOf N H (id ∷ ids) text kid key)
      further text kid key (inl h) = inl h
      further text kid key (inr (i, m, of_text, a)) = inr (i, Memᴰ.tail m, of_text, a)

      back :
          (text : Bytes) (kid : ℕ) (key : Bytes)
          → ((leader_public_key allowed text kid ≡ some key) ⊎ IsKeyOf N H (id ∷ ids) text kid key)
          → ((leader_public_key allowed text kid ≡ some key) ⊎ IsKeyOf N H ids text kid key)
      back text kid key (inl h) = inl h
      back text kid key (inr (i, Memᴰ.head e, of_text, a)) =
          absurd (inactive kid key (subst (λ x. IsActive N x kid key) e a))
      back text kid key (inr (i, Memᴰ.tail m, of_text, a)) = inr (i, m, of_text, a)

  add_key-Loads :
      (is_hex : IsHex H) (id : ℕ) (k : ActiveEd25519Key) (ids : List ℕ)
      (entries : List AllowedLeaderFileV1) (allowed : AllowedLeaders)
      → length k.public_key ≡ 32
      → contains_key (N.address_to_string id, k.kid) allowed ≡ false
      → ((kid : ℕ) (key : Bytes) → IsActive N id kid key ↔ ((kid ≡ k.kid) × (key ≡ k.public_key)))
      → Loads ids entries (insert (N.address_to_string id, k.kid) k.public_key allowed)
      → Loads (id ∷ ids) (entry_of N H id k ∷ entries) allowed
  add_key-Loads is_hex id k ids entries allowed is_32 fresh active (result, loaded, has) = (
    result,
    >>=-of_ok (add_leader H allowed (entry_of N H id k)) _
        (add_leader-new H is_hex allowed (N.address_to_string id) k.kid k.public_key is_32 fresh)
        loaded,
    λ text kid key. (
      λ h. further text kid key ((has text kid key).0 h),
      λ h. (has text kid key).1 (back text kid key h),
    ),
  )
    where
      inserted :
          (text : Bytes) (kid : ℕ) (key : Bytes)
          → (leader_public_key
                (insert (N.address_to_string id, k.kid) k.public_key allowed)
                text
                kid
              ≡ some key)
            ↔ ((leader_public_key allowed text kid ≡ some key)
                ⊎ ((Path (Bytes × ℕ) (text, kid) (N.address_to_string id, k.kid))
                    × (key ≡ k.public_key)))
      inserted text kid key =
          lookup-insert_iff (N.address_to_string id, k.kid) (text, kid) k.public_key key allowed
            (contains_key-lookup allowed (N.address_to_string id, k.kid) fresh)

      further :
          (text : Bytes) (kid : ℕ) (key : Bytes)
          → (leader_public_key
                (insert (N.address_to_string id, k.kid) k.public_key allowed)
                text
                kid
              ≡ some key)
            ⊎ IsKeyOf N H ids text kid key
          → (leader_public_key allowed text kid ≡ some key) ⊎ IsKeyOf N H (id ∷ ids) text kid key
      further text kid key (inl h) = elim ((inserted text kid key).0 h) [
        | inl before ↦ inl before
        | inr new ↦ inr (
          id,
          Memᴰ.head refl,
          ap (λ p. p.0) new.0,
          (active kid key).1 (ap (λ p. p.1) new.0, new.1),
        )
      ]
      further text kid key (inr (i, m, of_text, a)) = inr (i, Memᴰ.tail m, of_text, a)

      back :
          (text : Bytes) (kid : ℕ) (key : Bytes)
          → (leader_public_key allowed text kid ≡ some key) ⊎ IsKeyOf N H (id ∷ ids) text kid key
          → (leader_public_key
                (insert (N.address_to_string id, k.kid) k.public_key allowed)
                text
                kid
              ≡ some key)
            ⊎ IsKeyOf N H ids text kid key
      back text kid key (inl h) = inl ((inserted text kid key).1 (inl h))
      back text kid key (inr (i, Memᴰ.head e, of_text, a)) =
          let (same_kid, same_key) = (active kid key).0 (subst (λ x. IsActive N x kid key) e a) in
          inl (
            (inserted text kid key).1 (
              inr (
                ap (λ t. (t, kid)) (of_text ∙ ap N.address_to_string e)
                    ∙ ap (λ n. (N.address_to_string id, n)) same_kid,
                same_key,
              )))
      back text kid key (inr (i, Memᴰ.tail m, of_text, a)) = inr (i, m, of_text, a)

  abbrev pub Injects : Type 0
  Injects = (a b : ℕ) → N.address_to_string a ≡ N.address_to_string b → a ≡ b

  none_after :
      (is_address : Injects) (id kid : ℕ) (key : Bytes) (ids : List ℕ) (allowed : AllowedLeaders)
      → ¬ Memᴰ id ids
      → HasNone (id ∷ ids) allowed
      → HasNone ids (insert (N.address_to_string id, kid) key allowed)
  none_after is_address id kid key ids allowed apart fresh i n m =
      let other : ¬ Path (Bytes × ℕ) (N.address_to_string id, kid) (N.address_to_string i, n) =
        λ e. apart (subst (λ x. Memᴰ x ids) (sym (is_address id i (ap (λ p. p.0) e))) m) in
      contains_key-insert (N.address_to_string id, kid) (N.address_to_string i, n) key allowed
      ∙ ap (λ b. b || contains_key (N.address_to_string i, n) allowed)
          (==_ne (N.address_to_string id, kid) (N.address_to_string i, n) other)
      ∙ fresh i n (Memᴰ.tail m)

  pub entries-Loads :
      (is_hex : IsHex H) (is_address : Injects) (ids : List ℕ) (entries : List AllowedLeaderFileV1)
      (allowed : AllowedLeaders)
      → IsDistinct ids
      → HasNone ids allowed
      → export_entries N H ids ≡ ok entries
      → Loads ids entries allowed
  entries-Loads is_hex is_address [] entries allowed distinct fresh h =
      let same : [] ≡ entries = ok_injective h in
      (
        allowed,
        ap (λ es. try_fold (add_leader H) allowed es) (sym same),
        λ text kid key. (λ has. inl has, λ has. before has),
      )
    where
      before :
          {P : Type 0} {text : Bytes} {kid : ℕ} {key : Bytes} → P ⊎ IsKeyOf N H [] text kid key → P
      before (inl p) = p
      before (inr (i, m, of_text, a)) = elim m [ ]
  entries-Loads is_hex is_address (id ∷ ids) entries allowed distinct fresh h =
      let (entry, got, h1) = >>=-eq-ok (export_allowed_leader_entry_file_v1 N H id) _ h in
      let (rest, exported, made) = >>=-eq-ok (export_entries N H ids) _ h1 in
      elim (entry-HasEntry N H id entry got) [
        | inl inactive ↦
            let same : entries ≡ rest =
              sym (ok_injective made) ∙ ap (λ e. push_some N H e rest) inactive.0 in
            subst (λ es. Loads (id ∷ ids) es allowed) (sym same)
              (skip-Loads id ids rest allowed inactive.1 (
                entries-Loads is_hex is_address ids rest allowed distinct.1
                  (λ i n m. fresh i n (Memᴰ.tail m)) exported))
        | inr (k, is_entry, active) ↦
            let same : entries ≡ entry_of N H id k ∷ rest =
              sym (ok_injective made) ∙ ap (λ e. push_some N H e rest) is_entry in
            let a = (active k.kid k.public_key).1 (refl, refl) in
            subst (λ es. Loads (id ∷ ids) es allowed) (sym same)
              (add_key-Loads is_hex id k ids rest allowed a.is_usable.has_length
                (fresh id k.kid (Memᴰ.head refl)) active
                (entries-Loads is_hex is_address ids rest
                  (insert (N.address_to_string id, k.kid) k.public_key allowed) distinct.1
                  (none_after is_address id k.kid k.public_key ids allowed distinct.0 fresh)
                  exported))
      ]
