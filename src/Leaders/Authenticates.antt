-- ===== src/Leaders/Authenticates.antt =====
-- sdk/src/signed_http/v2/wire.rs with sdk/src/nexus/network_auth.rs: requests at a tool that loaded the exported file.
use nexus_sdk.Prelude.{ℕ, ◌≡◌, sym, ◌∙◌, List, Memᴰ, ok, ok_injective, ap}
use nexus_sdk.SignedHttp.{
  Bytes, Crypto, RequestHeadersRef, AuthenticatedRequest, authenticate_request,
}
use nexus_sdk.SignedHttp.Request.{IsSigned, authenticate_request_iff}
use nexus_sdk.Leaders.{
  Hex, IsHex, AllowedLeadersFileV1, AllowedLeaders, leader_public_key, try_from,
}
use nexus_sdk.Leaders.Network.{
  IdentityKey, leader, Network, export_allowed_leaders_file_v1_for_all_leaders,
}
use nexus_sdk.Leaders.Active.{IsActive}
use nexus_sdk.Leaders.Export.{export-leader_public_key}

-- A leader of the network, named by the request, whose active key signed the hash of the input.
pub record IsFromLeader (C : Crypto) (N : Network) (request : AuthenticatedRequest) : Type 0 where
  pub identities : List IdentityKey
  pub of_network : N.identities ≡ ok identities
  pub id : ℕ
  pub is_leader : Memᴰ (leader id) identities
  pub is_named : request.leader_id ≡ N.address_to_string id
  pub key : Bytes
  pub is_active : IsActive N id request.leader_key_id key
  pub is_signed : IsSigned C key request.input_hash request.leader_signature

-- A tool that loaded the exported file of all leaders authenticates only requests that name a leader of the network
-- and the active key of it, which signed the hash of the input, if hex is read back as it was written, in digits, and
-- different addresses have different texts.
pub authenticate_request-IsFromLeader :
    (C : Crypto) (N : Network) (H : Hex) (file : AllowedLeadersFileV1) (allowed : AllowedLeaders)
    (headers : RequestHeadersRef) (request : AuthenticatedRequest)
    → IsHex H
    → ((a b : ℕ) → N.address_to_string a ≡ N.address_to_string b → a ≡ b)
    → export_allowed_leaders_file_v1_for_all_leaders N H ≡ ok file
    → try_from H file ≡ ok allowed
    → authenticate_request C headers (leader_public_key allowed) ≡ ok request
    → IsFromLeader C N request
authenticate_request-IsFromLeader C N H file allowed headers request is_hex is_address exported
      loaded h =
    let a = (authenticate_request_iff C headers (leader_public_key allowed) request).0 h in
    let (identities, of_network, known, known_loaded, knows) =
      export-leader_public_key N H file is_hex is_address exported in
    let same : known ≡ allowed = ok_injective (sym known_loaded ∙ loaded) in
    let (id, is_leader, is_named, is_active) =
      (knows request.leader_id request.leader_key_id a.public_key).0 (
        ap (λ keys. leader_public_key keys request.leader_id request.leader_key_id) same
        ∙ a.resolved) in
    record {
      identities = identities;
      of_network = of_network;
      id = id;
      is_leader = is_leader;
      is_named = is_named;
      key = a.public_key;
      is_active = is_active;
      is_signed = a.signed;
    }
