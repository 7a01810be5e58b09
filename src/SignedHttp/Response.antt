-- ===== src/SignedHttp/Response.antt =====
-- What a verified response shows, and the round trip of signing and verifying.
use mathlib.Core.Path.{subst}
use nexus_sdk.Prelude.{
  ◌≡◌, refl, ◌↔◌, some, ok, >>=-eq-ok, >>=-of_ok, ok_injective, lookup, nat_eq, [], ◌∷◌, ◌++◌,
}
use nexus_sdk.SignedHttp.{
  Bytes, header_tool_signature, signature_version_v2, Crypto, IsCrypto, response_pairs,
  ResponseHeadersRef, response_from_getter, require_version, decode_array, verify_signature,
  response_message, sign_response, verify_response,
}
use nexus_sdk.SignedHttp.Request.{
  HasBytes, IsSigned, require_version_iff, decode_array_iff, verify_signature_iff,
}

-- The headers hold a signature, which the key made of the message of the response.
pub record IsVerified (C : Crypto) (headers : ResponseHeadersRef) (message key signature : Bytes)
    : Type 0 where
  pub version : headers.signature_version ≡ some signature_version_v2
  pub encoded : HasBytes C 64 headers.tool_signature signature
  pub signed : IsSigned C key message signature

-- "nexus.signed_http.v2.tool_response"
abbrev pub domain_text : Bytes
domain_text =
    b'n' ∷ b'e' ∷ b'x' ∷ b'u' ∷ b's' ∷ b'.' ∷ b's' ∷ b'i' ∷ b'g' ∷ b'n' ∷ b'e' ∷ b'd' ∷ b'_' ∷ b'h'
    ∷ b't' ∷ b't' ∷ b'p' ∷ b'.' ∷ b'v' ∷ b'2' ∷ b'.' ∷ b't' ∷ b'o' ∷ b'o' ∷ b'l' ∷ b'_' ∷ b'r'
    ∷ b'e' ∷ b's' ∷ b'p' ∷ b'o' ∷ b'n' ∷ b's' ∷ b'e' ∷ []

-- A response is verified, with a signature as the result, exactly if its headers have version 2 and hold that
-- signature in 64 bytes, and the tool's key made it of these bytes, in this order: the text
-- "nexus.signed_http.v2.tool_response", the leader's signature, the nonce, and the hash of the result.
pub verify_response_iff :
    (C : Crypto) (headers : ResponseHeadersRef)
    (leader_signature nonce result_bytes key signature : Bytes)
    → (verify_response C headers leader_signature nonce result_bytes key ≡ ok signature)
      ↔ IsVerified C headers
          (domain_text ++ leader_signature ++ nonce ++ C.sha256 result_bytes)
          key
          signature
unfolding verify_response response_message
verify_response_iff C headers leader n result key signature =
    let message = domain_text ++ leader ++ n ++ C.sha256 result in
    (
      (λ h.
          let (_, version, h₁) = >>=-eq-ok (require_version headers.signature_version) _ h in
          let (sig, encoded, h₂) =
            >>=-eq-ok (decode_array C 64 headers.tool_signature header_tool_signature) _ h₁ in
          let (_, signed, last) = >>=-eq-ok (verify_signature C key message sig) _ h₂ in
          subst (IsVerified C headers message key) (ok_injective last) record {
            version = (require_version_iff headers.signature_version).0 version;
            encoded =
                (decode_array_iff C 64 headers.tool_signature header_tool_signature sig).0 encoded;
            signed = (verify_signature_iff C key message sig).0 signed;
          }),
      λ v.
          >>=-of_ok (require_version headers.signature_version) _
            ((require_version_iff headers.signature_version).1 v.version)
            (>>=-of_ok (decode_array C 64 headers.tool_signature header_tool_signature) _
              ((decode_array_iff C 64 headers.tool_signature header_tool_signature signature).1
                v.encoded)
              (>>=-of_ok (verify_signature C key message signature) _
                ((verify_signature_iff C key message signature).1 v.signed) refl)),
    )

-- The response that a tool signs is verified from the headers it is sent with, with the tool's key and the same
-- request and result, and gives the signature back.
pub verify_response-sign_response :
    (C : Crypto)
    → IsCrypto C
    → (leader_signature nonce result_bytes signing_key : Bytes)
    → verify_response C
        (response_from_getter (λ name.
          lookup name
            (response_pairs (sign_response C leader_signature nonce result_bytes signing_key))))
        leader_signature
        nonce
        result_bytes
        (C.public_key signing_key)
      ≡ ok (C.sign signing_key (response_message C leader_signature nonce result_bytes))
unfolding response_from_getter response_pairs sign_response lookup response_message
verify_response-sign_response C laws leader n result key =
    let message = response_message C leader n result in
    (verify_response_iff C
        (response_from_getter
          (λ name. lookup name (response_pairs (sign_response C leader n result key))))
        leader n result (C.public_key key) (C.sign key message)).1
      record {
        version = refl;
        encoded = (
          C.encode64 (C.sign key message),
          refl,
          laws.decodes (C.sign key message),
          laws.signature_length key message,
        );
        signed = (laws.public_key_valid key, laws.verifies key message);
      }
