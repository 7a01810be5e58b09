-- ===== src/Leaders/Export.antt =====
-- sdk/src/nexus/network_auth.rs with sdk/src/signed_http/v2/wire.rs: the file of all leaders, exported and loaded.

use nexus_sdk.Prelude.{
  none-ne-some, ℕ, ◌≡◌, refl, sym, ap, ◌∙◌, ◌↔◌, inl, inr, some, List, [], Memᴰ, length, leb, ok,
  >>=-eq-ok, bail_if, ok_injective, nat_eq, pair_eq, list_eq, lookup, contains_key, sort, ℕ_order,
}
use nexus_sdk.SignedHttp.{Bytes}
use nexus_sdk.Leaders.{
  AllowedLeaderFileV1, AllowedLeadersFileV1, AllowedLeaders, leader_public_key, Hex, IsHex,
  try_from,
}
use nexus_sdk.Leaders.Network.{
  IdentityKey, leader, leader_cap_ids, dedup, no_identities, no_active_keys, Network,
  list_leader_cap_ids_from_network_auth, export_entries,
  export_allowed_leaders_file_v1_for_all_leaders,
}
use nexus_sdk.Leaders.Dedup.{listed-ids}
use nexus_sdk.Leaders.Entries.{entries-Loads}
use nexus_sdk.Leaders.Active.{IsActive}

module _ (N : Network) (H : Hex) where
  exported-listed :
      (file : AllowedLeadersFileV1)
      → export_allowed_leaders_file_v1_for_all_leaders N H ≡ ok file
      → (identities : List IdentityKey) × (N.identities ≡ ok identities)
        × (entries : List AllowedLeaderFileV1) × (export_entries N H
              (dedup (sort ℕ_order (leader_cap_ids identities)))
            ≡ ok entries)
        × (file ≡ record { version = 1; leaders = entries })
  unfolding export_allowed_leaders_file_v1_for_all_leaders list_leader_cap_ids_from_network_auth
  exported-listed file h =
      let (ids, listed, h1) = >>=-eq-ok (list_leader_cap_ids_from_network_auth N) _ h in
      let (identities, got, sorted) = >>=-eq-ok N.identities _ listed in
      let (_, _, h2) = >>=-eq-ok (bail_if (leb (length ids) 0) no_identities) _ h1 in
      let (entries, exported, h3) = >>=-eq-ok (export_entries N H ids) _ h2 in
      let (_, _, made) = >>=-eq-ok (bail_if (leb (length entries) 0) no_active_keys) _ h3 in
      (
        identities,
        got,
        entries,
        ap (export_entries N H) (ok_injective sorted) ∙ exported,
        sym (ok_injective made),
      )

  -- Loading the file is accepted, and the keys that are then known are the active keys of the leaders of the network,
  -- each under the text of its leader and with its number.
  abbrev pub KnowsActiveKeys : AllowedLeadersFileV1 → Type 0
  KnowsActiveKeys file =
      (identities : List IdentityKey) × (N.identities ≡ ok identities)
      × (allowed : AllowedLeaders) × (try_from H file ≡ ok allowed)
      × ((text : Bytes) (kid : ℕ) (key : Bytes)
          → (leader_public_key allowed text kid ≡ some key) ↔ (
              (id : ℕ) × Memᴰ (leader id) identities
              × (text ≡ N.address_to_string id)
              × IsActive N id kid key))

  -- The file of all leaders that is exported is accepted when it is loaded, and the tool then knows exactly the
  -- keys that the leaders of the network have as active keys, each under the text of its leader and with its number,
  -- if hex is read back as it was written, in digits, and different addresses have different texts.
  pub export-leader_public_key :
      (file : AllowedLeadersFileV1)
      → IsHex H
      → ((a b : ℕ) → N.address_to_string a ≡ N.address_to_string b → a ≡ b)
      → export_allowed_leaders_file_v1_for_all_leaders N H ≡ ok file
      → KnowsActiveKeys file
  unfolding try_from lookup contains_key
  export-leader_public_key file is_hex is_address h =
      let (identities, got, entries, exported, same) = exported-listed file h in
      let (distinct, listed) = listed-ids identities in
      let ids = dedup (sort ℕ_order (leader_cap_ids identities)) in
      let (allowed, loaded, has) =
        entries-Loads N H is_hex is_address ids entries [] distinct (λ i n m. refl) exported in
      (
        identities,
        got,
        allowed,
        ap (try_from H) same ∙ loaded,
        λ text kid key. (
          λ h'. elim ((has text kid key).0 h') [
            | inl known ↦ absurd (none-ne-some known)
            | inr (i, m, of_text, a) ↦ (i, (listed i).0 m, of_text, a)
          ],
          λ h'. (has text kid key).1 (inr (h'.0, (listed h'.0).1 h'.1, h'.2, h'.3)),
        ),
      )
