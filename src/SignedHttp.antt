-- ===== src/SignedHttp.antt =====
-- sdk/src/signed_http/v2/wire.rs: signed requests and responses. Base64, SHA-256 and Ed25519
-- are the parameter Crypto. Texts and arrays of bytes are lists of numbers.
use nexus_sdk.Prelude.{
  ℕ, ◌++◌, Bool, true, false, not, ◌&&◌, Option, none, some, List, [], ◌∷◌, length, Result, ok, err,
  ◌>>=◌, ◌>>◌, bail_if, ok_or, ◌==◌, nat_eq, list_eq, Assoc, ◌≡◌,
}
use nexus_sdk.RegisteredKey.{tool_response_domain}
use nexus_sdk.Prelude.Decimal.{print_uint, parse_uint}
pub mod Request
pub mod Response
pub mod Tests

abbrev pub Bytes : Type 0
Bytes = List ℕ

-- The names of the headers, by the constants of the code.
pub data Header : Type 0 where
  header_signature_version : Header
  header_leader_id : Header
  header_leader_key_id : Header
  header_input_hash : Header
  header_leader_signature : Header
  header_nonce : Header
  header_tool_signature : Header

abbrev pub header_code : Header → ℕ
header_code header_signature_version = 0
header_code header_leader_id = 1
header_code header_leader_key_id = 2
header_code header_input_hash = 3
header_code header_leader_signature = 4
header_code header_nonce = 5
header_code header_tool_signature = 6

-- "2"
abbrev pub signature_version_v2 : Bytes
signature_version_v2 = 50 ∷ []

-- The name of the signer and the errors of other libraries are left out.
pub data SignedHttpError : Type 0 where
  missing_header : Header → SignedHttpError
  unsupported_version : Bytes → SignedHttpError
  invalid_integer : Header → Bytes → SignedHttpError
  invalid_base64 : Header → SignedHttpError
  -- the length and the one expected
  invalid_length : Header → ℕ → ℕ → SignedHttpError
  unknown_leader_key : Bytes → ℕ → SignedHttpError
  invalid_public_key : SignedHttpError
  invalid_signature : SignedHttpError
  invalid_allowed_leaders_file : SignedHttpError
  io : SignedHttpError

pub record Crypto : Type 0 where
  pub sha256 : Bytes → Bytes
  pub encode64 : Bytes → Bytes
  pub decode64 : Bytes → Option Bytes
  pub sign : Bytes → Bytes → Bytes
  pub public_key : Bytes → Bytes
  pub is_public_key : Bytes → Bool
  pub verify_strict : Bytes → Bytes → Bytes → Bool

-- What the libraries promise.
pub record IsCrypto (C : Crypto) : Type 0 where
  pub decodes : (bytes : Bytes) → C.decode64 (C.encode64 bytes) ≡ some bytes
  pub signature_length : (key message : Bytes) → length (C.sign key message) ≡ 64
  pub public_key_valid : (key : Bytes) → C.is_public_key (C.public_key key) ≡ true
  pub verifies :
      (key message : Bytes) → C.verify_strict (C.public_key key) message (C.sign key message) ≡ true

pub record EncodedRequestHeaders : Type 0 where
  pub leader_id : Bytes
  pub leader_key_id : ℕ
  pub input_hash : Bytes
  pub leader_signature : Bytes
  pub nonce : Bytes

-- `EncodedRequestHeaders::to_pairs`
unfoldable pub to_pairs : EncodedRequestHeaders → Assoc ℕ Bytes
to_pairs headers =
    (header_code header_signature_version, signature_version_v2)
    ∷ (header_code header_leader_id, headers.leader_id)
    ∷ (header_code header_leader_key_id, print_uint headers.leader_key_id)
    ∷ (header_code header_input_hash, headers.input_hash)
    ∷ (header_code header_leader_signature, headers.leader_signature)
    ∷ (header_code header_nonce, headers.nonce)
    ∷ []

pub record RequestHeadersRef : Type 0 where
  pub signature_version : Option Bytes
  pub leader_id : Option Bytes
  pub leader_key_id : Option Bytes
  pub input_hash : Option Bytes
  pub leader_signature : Option Bytes
  pub nonce : Option Bytes

-- `RequestHeadersRef::from_getter`
unfoldable pub from_getter : (ℕ → Option Bytes) → RequestHeadersRef
from_getter get = record {
  signature_version = get (header_code header_signature_version);
  leader_id = get (header_code header_leader_id);
  leader_key_id = get (header_code header_leader_key_id);
  input_hash = get (header_code header_input_hash);
  leader_signature = get (header_code header_leader_signature);
  nonce = get (header_code header_nonce);
}

pub record EncodedResponseHeaders : Type 0 where
  pub tool_signature : Bytes

-- `EncodedResponseHeaders::to_pairs`
unfoldable pub response_pairs : EncodedResponseHeaders → Assoc ℕ Bytes
response_pairs headers =
    (header_code header_signature_version, signature_version_v2)
    ∷ (header_code header_tool_signature, headers.tool_signature)
    ∷ []

pub record ResponseHeadersRef : Type 0 where
  pub signature_version : Option Bytes
  pub tool_signature : Option Bytes

-- `ResponseHeadersRef::from_getter`
unfoldable pub response_from_getter : (ℕ → Option Bytes) → ResponseHeadersRef
response_from_getter get = record {
  signature_version = get (header_code header_signature_version);
  tool_signature = get (header_code header_tool_signature);
}

pub record AuthenticatedRequest : Type 0 where
  pub leader_id : Bytes
  pub leader_key_id : ℕ
  pub input_hash : Bytes
  pub leader_signature : Bytes
  pub nonce : Bytes

abbrev pub required : Option Bytes → Header → Result SignedHttpError Bytes
required value header = ok_or value (missing_header header)

unfoldable pub require_version : Option Bytes → Result SignedHttpError (Unit {0})
require_version version = do
  v ← required version header_signature_version
  bail_if (not (v == signature_version_v2)) (unsupported_version v)

-- The text of a u64 in a header.
unfoldable pub decode_key_id : Option Bytes → Result SignedHttpError ℕ
decode_key_id encoded = do
  raw ← required encoded header_leader_key_id
  ok_or (parse_uint 64 raw) (invalid_integer header_leader_key_id raw)

module _ (C : Crypto) where
  unfoldable pub decode_array : ℕ → Option Bytes → Header → Result SignedHttpError Bytes
  decode_array n encoded header = do
    text ← required encoded header
    bytes ← ok_or (C.decode64 text) (invalid_base64 header)
    bail_if (not (length bytes == n)) (invalid_length header (length bytes) n)
    ok bytes

  unfoldable pub verify_signature : Bytes → Bytes → Bytes → Result SignedHttpError (Unit {0})
  verify_signature public_key message signature = do
    bail_if (not (C.is_public_key public_key)) invalid_public_key
    bail_if (not (C.verify_strict public_key message signature)) invalid_signature

  unfoldable pub sign_request : Bytes → ℕ → Bytes → Bytes → Bytes → EncodedRequestHeaders
  sign_request leader_id leader_key_id input_hash nonce signing_key = record {
    leader_id = leader_id;
    leader_key_id = leader_key_id;
    input_hash = C.encode64 input_hash;
    leader_signature = C.encode64 (C.sign signing_key input_hash);
    nonce = C.encode64 nonce;
  }

  -- The resolver of keys is a parameter, as in the code.
  unfoldable pub authenticate_request :
      RequestHeadersRef → (Bytes → ℕ → Option Bytes) → Result SignedHttpError AuthenticatedRequest
  authenticate_request headers leader_public_key = do
    require_version headers.signature_version
    leader_id ← required headers.leader_id header_leader_id
    leader_key_id ← decode_key_id headers.leader_key_id
    input_hash ← decode_array 32 headers.input_hash header_input_hash
    leader_signature ← decode_array 64 headers.leader_signature header_leader_signature
    nonce ← decode_array 32 headers.nonce header_nonce
    public_key ←
        ok_or (leader_public_key leader_id leader_key_id)
          (unknown_leader_key leader_id leader_key_id)
    verify_signature public_key input_hash leader_signature
    ok record {
      leader_id = leader_id;
      leader_key_id = leader_key_id;
      input_hash = input_hash;
      leader_signature = leader_signature;
      nonce = nonce;
    }

  -- `tool_signature_message`
  unfoldable pub response_message : Bytes → Bytes → Bytes → Bytes
  response_message leader_signature nonce result_bytes =
      tool_response_domain ++ leader_signature ++ nonce ++ C.sha256 result_bytes

  unfoldable pub sign_response : Bytes → Bytes → Bytes → Bytes → EncodedResponseHeaders
  sign_response leader_signature nonce result_bytes signing_key = record {
    tool_signature =
        C.encode64 (C.sign signing_key (response_message leader_signature nonce result_bytes));
  }

  unfoldable pub verify_response :
      ResponseHeadersRef → Bytes → Bytes → Bytes → Bytes → Result SignedHttpError Bytes
  verify_response headers leader_signature nonce result_bytes tool_public_key = do
    require_version headers.signature_version
    tool_signature ← decode_array 64 headers.tool_signature header_tool_signature
    verify_signature tool_public_key (response_message leader_signature nonce result_bytes)
        tool_signature
    ok tool_signature
