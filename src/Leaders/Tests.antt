-- ===== src/Leaders/Tests.antt =====
-- A network with two leaders, of which one has an active key, and a tool.
use nexus_sdk.Prelude.{
  ℕ, suc, zero, ◌+◌, ◌≡◌, refl, ap, ◌∙◌, true, false, Option, none, some, [], ◌∷◌, ok, lookup,
  insert, contains_key, all, ◌==◌, nat_eq, arith,
}
use nexus_sdk.SignedHttp.{Bytes, AuthenticatedRequest, to_pairs, from_getter, sign_request}
use nexus_sdk.SignedHttp.Request.{authenticate_request-sign_request}
use nexus_sdk.SignedHttp.Tests.{zeros, toy, toy-IsCrypto}
use nexus_sdk.Leaders.Authenticates.{IsFromLeader, authenticate_request-IsFromLeader}
use nexus_sdk.Leaders.{
  Hex, AllowedLeaders, leader_public_key, try_from, decode_public_key, IsHex, is_hex_digit,
  AllowedLeadersFileV1,
}
use nexus_sdk.Leaders.Network.{
  leader, tool, Network, found, export_allowed_leaders_file_v1_for_all_leaders,
  list_leader_cap_ids_from_network_auth, try_get_active_ed25519_key, try_get_key_binding,
  try_get_active_key_binding, export_allowed_leader_entry_file_v1,
}
use nexus_sdk.Leaders.Export.{KnowsActiveKeys, export-leader_public_key}

-- A number as that many zeros and a one.
abbrev zeros_and_one : ℕ → Bytes → Bytes
zeros_and_one zero rest = 49 ∷ rest
zeros_and_one (suc n) rest = 48 ∷ zeros_and_one n rest

abbrev toy_encode : Bytes → Bytes
toy_encode [] = []
toy_encode (n ∷ ns) = zeros_and_one n (toy_encode ns)

abbrev cons : ℕ → Option Bytes → Option Bytes
cons n none = none
cons n (some ns) = some (n ∷ ns)

abbrev decode_from : ℕ → Bytes → Option Bytes
decode_from n [] = some []
decode_from n (c ∷ cs) = elim (c == 49) [
  | true ↦ cons n (decode_from 0 cs)
  | false ↦ decode_from (n + 1) cs
]

abbrev toy_hex : Hex
toy_hex = record { encode = toy_encode; decode = decode_from 0 }

decode_from-zeros :
    (m n : ℕ) (rest : Bytes)
    → decode_from m (zeros_and_one n rest) ≡ cons (m + n) (decode_from 0 rest)
decode_from-zeros m zero rest = ap (λ k. cons k (decode_from 0 rest)) (omega arith)
decode_from-zeros m (suc n) rest =
    decode_from-zeros (m + 1) n rest ∙ ap (λ k. cons k (decode_from 0 rest)) (omega arith)

toy_hex-decodes : (bytes : Bytes) → decode_from 0 (toy_encode bytes) ≡ some bytes
toy_hex-decodes [] = refl
toy_hex-decodes (n ∷ ns) =
    decode_from-zeros 0 n (toy_encode ns)
    ∙ ap (λ k. cons k (decode_from 0 (toy_encode ns))) (omega arith)
    ∙ ap (cons n) (toy_hex-decodes ns)

digits-zeros :
    (n : ℕ) (rest : Bytes)
    → all is_hex_digit rest ≡ true
    → all is_hex_digit (zeros_and_one n rest) ≡ true
digits-zeros zero rest h = h
digits-zeros (suc n) rest h = digits-zeros n rest h

toy_hex-digits : (bytes : Bytes) → all is_hex_digit (toy_encode bytes) ≡ true
toy_hex-digits [] = refl
toy_hex-digits (n ∷ ns) = digits-zeros n (toy_encode ns) (toy_hex-digits ns)

toy_hex-IsHex : IsHex toy_hex
toy_hex-IsHex = record { decodes = toy_hex-decodes; digits = toy_hex-digits }

abbrev network : Network
network = record {
  identities = ok (leader 8 ∷ tool 3 ∷ leader 5 ∷ leader 8 ∷ []);
  binding_object_id =
      λ identity. elim identity [ leader id ↦ ok (id + 100) | tool id ↦ ok (id + 200) ];
  get_binding = λ id. found (elim (id == 108) [
    | true ↦ record { active_key_id = some 2; key_table_id = 1 }
    | false ↦ record { active_key_id = none; key_table_id = 0 }
  ]);
  key_records =
      λ table. ok ((2, record { scheme = 0; public_key = zeros 32; revoked_at_ms = none }) ∷ []);
  address_to_string = λ id. id ∷ [];
}

abbrev exported : AllowedLeadersFileV1
exported = record {
  version = 1;
  leaders =
      record {
        leader_id = 8 ∷ [];
        keys = record { kid = 2; public_key = toy_encode (zeros 32) } ∷ [];
      }
      ∷ [];
}

exports : export_allowed_leaders_file_v1_for_all_leaders network toy_hex ≡ ok exported
unfolding export_allowed_leaders_file_v1_for_all_leaders list_leader_cap_ids_from_network_auth
    try_get_active_ed25519_key try_get_key_binding try_get_active_key_binding
    export_allowed_leader_entry_file_v1 lookup
exports = refl

same_head : (a b : ℕ) → a ∷ [] ≡ b ∷ [] → a ≡ b
same_head a b h = ground arith

export-leader_public_key_example : KnowsActiveKeys network toy_hex exported
export-leader_public_key_example =
    export-leader_public_key network toy_hex exported toy_hex-IsHex same_head exports

abbrev loaded_keys : AllowedLeaders
loaded_keys = ((8 ∷ [], 2), zeros 32) ∷ []

loads : try_from toy_hex exported ≡ ok loaded_keys
unfolding try_from decode_public_key contains_key lookup insert
loads = refl

abbrev request : AuthenticatedRequest
request = record {
  leader_id = 8 ∷ [];
  leader_key_id = 2;
  input_hash = zeros 32;
  leader_signature = zeros 64;
  nonce = zeros 32;
}

authenticate_request-IsFromLeader_example : IsFromLeader toy network request
unfolding lookup
authenticate_request-IsFromLeader_example =
    authenticate_request-IsFromLeader toy network toy_hex exported loaded_keys
      (from_getter (λ name.
        lookup name (to_pairs (sign_request toy (8 ∷ []) 2 (zeros 32) (zeros 32) (zeros 32)))))
      request toy_hex-IsHex same_head exports loads
      (authenticate_request-sign_request toy toy-IsCrypto (leader_public_key loaded_keys) (8 ∷ []) 2
        (zeros 32) (zeros 32) (zeros 32) (omega arith) refl refl refl)
