-- ===== src/RegisteredKey.antt =====
-- sdk/src/nexus/registered_key.rs: the wire helpers of the RegisteredKey verifier. BCS and SHA-256 are
-- parameters: `bcs` of each type, and `sha256` on bytes, which are numbers.
use mathlib.Core.Option
use nexus_sdk.Prelude.{
  ℕ, ◌++◌, not, List, [], ◌∷◌, map, Option, none, some, length, Result, ok, err, ◌>>=◌, ◌>>◌,
  bail_if, ok_or, ◌==◌, nat_eq, list_eq, Assoc, lookup, ℕ_order, lex_order, sort,
}
pub mod Canonical
pub mod Auxiliary
pub mod Binding
pub mod Tests

abbrev pub Bytes : Type 0
Bytes = List ℕ

abbrev pub sha256_len : ℕ
sha256_len = 32

abbrev pub ed25519_signature_len : ℕ
ed25519_signature_len = 64

-- "nexus.signed_http.v2.invocation_nonce"
abbrev pub invocation_nonce_domain : Bytes
invocation_nonce_domain =
    110 ∷ 101 ∷ 120 ∷ 117 ∷ 115 ∷ 46 ∷ 115 ∷ 105 ∷ 103 ∷ 110 ∷ 101 ∷ 100 ∷ 95 ∷ 104 ∷ 116 ∷ 116
    ∷ 112 ∷ 46 ∷ 118 ∷ 50 ∷ 46 ∷ 105 ∷ 110 ∷ 118 ∷ 111 ∷ 99 ∷ 97 ∷ 116 ∷ 105 ∷ 111 ∷ 110 ∷ 95 ∷ 110
    ∷ 111 ∷ 110 ∷ 99 ∷ 101 ∷ []

-- "nexus.signed_http.v2.tool_response"
abbrev pub tool_response_domain : Bytes
tool_response_domain =
    110 ∷ 101 ∷ 120 ∷ 117 ∷ 115 ∷ 46 ∷ 115 ∷ 105 ∷ 103 ∷ 110 ∷ 101 ∷ 100 ∷ 95 ∷ 104 ∷ 116 ∷ 116
    ∷ 112 ∷ 46 ∷ 118 ∷ 50 ∷ 46 ∷ 116 ∷ 111 ∷ 111 ∷ 108 ∷ 95 ∷ 114 ∷ 101 ∷ 115 ∷ 112 ∷ 111 ∷ 110
    ∷ 115 ∷ 101 ∷ []

-- A port's data: storage kind, value and the bytes of its keys.
pub record NexusData : Type 0 where
  pub storage : Bytes
  pub one : Bytes
  pub many : List Bytes

pub record CanonicalToolInput : Type 0 where
  pub port_name : Bytes
  pub value : NexusData

pub record ToolInvocationNoncePreimage : Type 0 where
  pub execution_id : Bytes
  pub walk_index : ℕ
  pub vertex_name : Bytes
  pub iteration : ℕ

pub record RegisteredKeyAuxiliary : Type 0 where
  pub input_hash : Bytes
  pub nonce : Bytes
  pub leader_signature : Bytes
  pub tool_signature : Bytes

pub data KeyError : Type 0 where
  bcs_failed : KeyError
  bad_input_hash : KeyError
  bad_nonce : KeyError
  bad_leader_signature : KeyError
  bad_tool_signature : KeyError
  not_canonical : KeyError

-- Puts the input of a name first; `none` is the panic of `expect`.
abbrev pub put_input :
    Bytes → Option NexusData → Option (List CanonicalToolInput) → Option (List CanonicalToolInput)
put_input name none rest = none
put_input name (some value) none = none
put_input name (some value) (some rest) = some (record { port_name = name; value = value } ∷ rest)

-- The inputs in the order of the given names.
abbrev pub inputs_of : Assoc Bytes NexusData → List Bytes → Option (List CanonicalToolInput)
inputs_of ports [] = some []
inputs_of ports (name ∷ names) = put_input name (lookup name ports) (inputs_of ports names)

-- A hash map is the list of its entries, in the order in which it happens to give them.
unfoldable pub canonical_tool_inputs : Assoc Bytes NexusData → Option (List CanonicalToolInput)
canonical_tool_inputs ports =
    inputs_of ports (sort (lex_order ℕ_order) (map (λ entry. entry.0) ports))

unfoldable pub canonical_tool_inputs_bcs :
    (List CanonicalToolInput → Result KeyError Bytes)
    → Assoc Bytes NexusData
    → Option (Result KeyError Bytes)
canonical_tool_inputs_bcs to_bytes ports = Option.map to_bytes (canonical_tool_inputs ports)

unfoldable pub validate_registered_key_auxiliary :
    RegisteredKeyAuxiliary → Result KeyError (Unit {0})
validate_registered_key_auxiliary auxiliary = do
  bail_if (not (length auxiliary.input_hash == sha256_len)) bad_input_hash
  bail_if (not (length auxiliary.nonce == sha256_len)) bad_nonce
  bail_if (not (length auxiliary.leader_signature == ed25519_signature_len)) bad_leader_signature
  bail_if (not (length auxiliary.tool_signature == ed25519_signature_len)) bad_tool_signature

module _ (sha256 : Bytes → Bytes) where
  unfoldable pub result_sha256 : Bytes → Bytes
  result_sha256 result_bytes = sha256 result_bytes

  unfoldable pub invocation_nonce :
      (ToolInvocationNoncePreimage → Result KeyError Bytes)
      → Bytes
      → ℕ
      → Bytes
      → ℕ
      → Result KeyError Bytes
  invocation_nonce to_bytes execution_id walk_index vertex_name iteration = do
    encoded ← to_bytes record {
      execution_id = execution_id;
      walk_index = walk_index;
      vertex_name = vertex_name;
      iteration = iteration;
    }
    ok (sha256 (invocation_nonce_domain ++ encoded))

  unfoldable pub tool_signature_message : Bytes → Bytes → Bytes → Bytes
  tool_signature_message leader_signature nonce result_bytes =
      tool_response_domain ++ leader_signature ++ nonce ++ result_sha256 result_bytes

  -- The hash of the canonical inputs.
  abbrev pub hash_of : Result KeyError Bytes → Result KeyError Bytes
  hash_of encoded = do bytes ← encoded; ok (sha256 bytes)

  unfoldable pub canonical_tool_inputs_sha256 :
      (List CanonicalToolInput → Result KeyError Bytes)
      → Assoc Bytes NexusData
      → Option (Result KeyError Bytes)
  canonical_tool_inputs_sha256 to_bytes ports =
      Option.map hash_of (canonical_tool_inputs_bcs to_bytes ports)

-- BCS of the auxiliary data.
module _ (to_bytes : RegisteredKeyAuxiliary → Result KeyError Bytes)
    (from_bytes : Bytes → Result KeyError RegisteredKeyAuxiliary) where
  unfoldable pub encode_registered_key_auxiliary : RegisteredKeyAuxiliary → Result KeyError Bytes
  encode_registered_key_auxiliary auxiliary = do
    validate_registered_key_auxiliary auxiliary
    to_bytes auxiliary

  unfoldable pub decode_registered_key_auxiliary : Bytes → Result KeyError RegisteredKeyAuxiliary
  decode_registered_key_auxiliary bytes = do
    auxiliary ← from_bytes bytes
    validate_registered_key_auxiliary auxiliary
    encoded ← to_bytes auxiliary
    bail_if (not (encoded == bytes)) not_canonical
    ok auxiliary
