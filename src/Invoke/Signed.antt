-- ===== src/Invoke/Signed.antt =====
-- A leader signs a request, the tool handles it, and the leader verifies the response.
use mathlib.Core.Path.{subst}
use nexus_sdk.Prelude.{
  ℕ, ◌<◌, ◌^◌, ◌≡◌, refl, sym, ap, true, Option, some, length, ok, saturating_add, lookup, insert,
  nat_eq,
}
use nexus_sdk.SignedHttp.{
  Bytes, Crypto, IsCrypto, AuthenticatedRequest, signature_version_v2, to_pairs, sign_request,
  response_pairs, response_from_getter, response_message, sign_response, verify_response,
}
use nexus_sdk.SignedHttp.Request.{authenticate_request-sign_request}
use nexus_sdk.SignedHttp.Response.{verify_response-sign_response}
use nexus_sdk.Invoke.{CachedResponse, Entries, put, retain, reservation_of, entry_of}
use nexus_sdk.Invoke.Replay.{MayProceed}
use nexus_sdk.Invoke.Handler.{
  Http, SignedInvokeRuntime, signed_runtime, Response, signature_headers, response, into_response,
  Run, finish, finish_invoke, handle_invoke,
}
use nexus_sdk.Invoke.Runs.{MayRun, begin_invoke_iff}

-- The texts of a signature can be values of headers.
pub record IsHttp (C : Crypto) (http : Http) : Type 0 where
  pub version_valid : http.is_header_value signature_version_v2 ≡ true
  pub encoded_valid : (bytes : Bytes) → http.is_header_value (C.encode64 bytes) ≡ true

module _ (C : Crypto) (http : Http) (laws : IsCrypto C) (valid : IsHttp C http) where
  -- The headers of a response are those of its signature.
  headers_kept :
      (leader_signature nonce body key : Bytes)
      → signature_headers C http (some (sign_response C leader_signature nonce body key))
        ≡ response_pairs (sign_response C leader_signature nonce body key)
  unfolding response_pairs sign_response insert
  headers_kept leader_signature nonce body key = rw (valid.version_valid, valid.encoded_valid) refl

  -- A result is signed, whether it is new or cached.
  into_response-verifies :
      (cached : CachedResponse) (leader_signature nonce key : Bytes)
      → cached.is_result ≡ true
      → verify_response C
          (response_from_getter
            (λ name. lookup name (into_response C http cached leader_signature nonce key).headers))
          leader_signature
          nonce
          cached.body
          (C.public_key key)
        ≡ ok (C.sign key (response_message C leader_signature nonce cached.body))
  unfolding into_response response
  into_response-verifies cached leader_signature nonce key is_result = rw is_result (
      rw (headers_kept leader_signature nonce cached.body key)
        (verify_response-sign_response C laws leader_signature nonce cached.body key))

  module _ (lease_ms : ℕ) (rt : SignedInvokeRuntime) (leader_id : Bytes) (key_id : ℕ)
      (input_hash nonce leader_key body : Bytes) (run : Run) (meanwhile : Entries → Entries)
      (now_ms later_ms : ℕ) (entries : Entries) where
    -- The request that the leader signs, as the tool authenticates it.
    abbrev pub signed_request : AuthenticatedRequest
    signed_request = record {
      leader_id = leader_id;
      leader_key_id = key_id;
      input_hash = input_hash;
      leader_signature = C.sign leader_key input_hash;
      nonce = nonce;
    }

    -- The handler's answer to the headers of that request.
    abbrev pub exchange : Response
    exchange =
        (handle_invoke C http lease_ms (signed_runtime rt)
          (λ name.
            lookup name (to_pairs (sign_request C leader_id key_id input_hash nonce leader_key)))
          body run meanwhile now_ms later_ms entries).0

    module _ (small : key_id < 2 ^ 64) (h : length input_hash ≡ 32) (n : length nonce ≡ 32)
        (known : rt.allowed_leaders leader_id key_id ≡ some (C.public_key leader_key))
        (free : MayProceed input_hash (retain now_ms entries nonce)) where
      exchange-into_response :
          exchange
          ≡ into_response C http
              (run (some signed_request) body)
              (C.sign leader_key input_hash)
              nonce
              rt.signing_key
      unfolding handle_invoke finish_invoke
      exchange-into_response =
          let headers : ℕ → Option Bytes = λ name.
            lookup name (to_pairs (sign_request C leader_id key_id input_hash nonce leader_key)) in
          let r = reservation_of nonce input_hash (saturating_add 64 now_ms lease_ms) in
          let entries' = put nonce (entry_of r) (retain now_ms entries) in
          let m : MayRun C http lease_ms rt headers now_ms entries signed_request r entries' =
            record {
              authentic =
                  authenticate_request-sign_request C laws rt.allowed_leaders leader_id key_id
                    input_hash nonce leader_key small h n known;
              free = free;
              reserved = (refl, refl);
            } in
          ap (λ b. (finish C http body run meanwhile later_ms b).0)
            ((begin_invoke_iff C http lease_ms rt headers now_ms entries signed_request r
                entries').1
              m)

      -- A request that a leader signs, with a hash and a nonce of 32 bytes, a u64 key id, a key that the tool knows and
      -- a nonce that is not in use: if the tool, called with the signed request, gives a result, then the response
      -- has its status and its body, and the leader verifies it, with the tool's public key, as the answer to its
      -- request.
      pub handle_invoke-verifies :
          (run (some signed_request) body).is_result ≡ true
          → (exchange.status ≡ (run (some signed_request) body).status)
            × (exchange.body ≡ (run (some signed_request) body).body)
            × (verify_response C
                  (response_from_getter (λ name. lookup name exchange.headers))
                  (C.sign leader_key input_hash)
                  nonce
                  exchange.body
                  (C.public_key rt.signing_key)
                ≡ ok (
                    C.sign rt.signing_key
                      (response_message C (C.sign leader_key input_hash) nonce exchange.body)))
      unfolding into_response response
      handle_invoke-verifies is_result =
          let cached = run (some signed_request) body in
          let sig = C.sign leader_key input_hash in
          subst
            (λ (answer : Response).
              (answer.status ≡ cached.status)
              × (answer.body ≡ cached.body)
              × (verify_response C (response_from_getter (λ name. lookup name answer.headers)) sig
                    nonce answer.body (C.public_key rt.signing_key)
                  ≡ ok (C.sign rt.signing_key (response_message C sig nonce answer.body))))
            (sym exchange-into_response)
            (refl, refl, into_response-verifies cached sig nonce rt.signing_key is_result)
