-- ===== src/SignedHttp/Tests.antt =====
-- A signed request and its response, with functions in place of the cryptography that satisfy its laws.
use nexus_sdk.Prelude.{
  ℕ, suc, ◌≡◌, refl, true, Option, some, [], ◌∷◌, ◌++◌, ok, lookup, arith, nat_eq,
}
use nexus_sdk.SignedHttp.{
  Bytes, Crypto, IsCrypto, AuthenticatedRequest, to_pairs, from_getter, sign_request,
  authenticate_request, response_pairs, response_from_getter, sign_response,
}
use nexus_sdk.SignedHttp.Request.{
  IsAuthentic, authenticate_request_iff, authenticate_request-sign_request,
}
use nexus_sdk.SignedHttp.Response.{
  IsVerified, domain_text, verify_response_iff, verify_response-sign_response,
}

abbrev pub zeros : ℕ → Bytes
zeros ℕ.zero = []
zeros (suc n) = 0 ∷ zeros n

abbrev pub toy : Crypto
toy = record {
  sha256 = λ bytes. bytes;
  encode64 = λ bytes. bytes;
  decode64 = λ bytes. some bytes;
  sign = λ key message. zeros 64;
  public_key = λ key. key;
  is_public_key = λ key. true;
  verify_strict = λ key message signature. true;
}

pub toy-IsCrypto : IsCrypto toy
toy-IsCrypto = record {
  decodes = λ bytes. refl;
  signature_length = λ key message. refl;
  public_key_valid = λ key. refl;
  verifies = λ key message. refl;
}

abbrev resolver : Bytes → ℕ → Option Bytes
resolver leader_id key_id = some (7 ∷ [])

abbrev request : AuthenticatedRequest
request = record {
  leader_id = 97 ∷ [];
  leader_key_id = 5;
  input_hash = zeros 32;
  leader_signature = zeros 64;
  nonce = zeros 32;
}

authenticate_request-sign_request_example :
    authenticate_request toy
      (from_getter (λ name.
        lookup name (to_pairs (sign_request toy (97 ∷ []) 5 (zeros 32) (zeros 32) (7 ∷ [])))))
      resolver
    ≡ ok request
authenticate_request-sign_request_example =
    authenticate_request-sign_request toy toy-IsCrypto resolver (97 ∷ []) 5 (zeros 32) (zeros 32)
      (7 ∷ []) (omega arith) refl refl refl

authenticate_request_iff_example :
    IsAuthentic toy
      (from_getter (λ name.
        lookup name (to_pairs (sign_request toy (97 ∷ []) 5 (zeros 32) (zeros 32) (7 ∷ [])))))
      resolver
      request
authenticate_request_iff_example =
    (authenticate_request_iff toy
        (from_getter (λ name.
          lookup name (to_pairs (sign_request toy (97 ∷ []) 5 (zeros 32) (zeros 32) (7 ∷ [])))))
        resolver request).0
      (authenticate_request-sign_request toy toy-IsCrypto resolver (97 ∷ []) 5 (zeros 32) (zeros 32)
        (7 ∷ []) (omega arith) refl refl refl)

verify_response_iff_example :
    IsVerified toy
      (response_from_getter (λ name.
        lookup name (response_pairs (sign_response toy (zeros 64) (zeros 32) (1 ∷ []) (7 ∷ [])))))
      (domain_text ++ zeros 64 ++ zeros 32 ++ 1 ∷ [])
      (7 ∷ [])
      (zeros 64)
verify_response_iff_example =
    (verify_response_iff toy
        (response_from_getter (λ name.
          lookup name (response_pairs (sign_response toy (zeros 64) (zeros 32) (1 ∷ []) (7 ∷ [])))))
        (zeros 64) (zeros 32) (1 ∷ []) (7 ∷ []) (zeros 64)).0
      (verify_response-sign_response toy toy-IsCrypto (zeros 64) (zeros 32) (1 ∷ []) (7 ∷ []))
