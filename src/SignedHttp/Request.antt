-- ===== src/SignedHttp/Request.antt =====
-- What an authenticated request shows, and the round trip of signing and authenticating.
use mathlib.Core.Path.{subst}
use nexus_sdk.Prelude.{
  ℕ, ◌<◌, ◌^◌, ◌≡◌, refl, ap, ◌↔◌, Bool, true, false, not, Option, none, some, length, arith, ok,
  bail_if, bail_if_iff, ok_or, ok_or-eq-ok, >>=-eq-ok, >>=-of_ok, ok_injective, ◌==◌, ==_iff,
  nat_eq, list_eq, lookup,
}
use nexus_sdk.Prelude.Decimal.{parse_uint, print_uint, parse-print_uint}
use nexus_sdk.SignedHttp.{
  Bytes, Header, header_leader_id, header_leader_key_id, header_input_hash, header_leader_signature,
  header_nonce, invalid_integer, invalid_base64, invalid_length, unknown_leader_key,
  signature_version_v2, Crypto, IsCrypto, to_pairs, RequestHeadersRef, from_getter,
  AuthenticatedRequest, required, require_version, decode_key_id, decode_array, verify_signature,
  sign_request, authenticate_request,
}

not-eq-false : (b : Bool) → (not b ≡ false) ↔ (b ≡ true)
not-eq-false b = ground arith

pub require_version_iff :
    (v : Option Bytes) → (require_version v ≡ ok tt) ↔ (v ≡ some signature_version_v2)
unfolding require_version
require_version_iff none = ground arith
require_version_iff (some v) = ground (arith, ==_iff v signature_version_v2)

required_iff : (v : Option Bytes) (h : Header) (b : Bytes) → (required v h ≡ ok b) ↔ (v ≡ some b)
required_iff none h b = ground arith
required_iff (some v) h b = ground arith

-- A header that holds the text of a number.
abbrev pub HasKeyId : Option Bytes → ℕ → Type 0
HasKeyId encoded n = (raw : Bytes) × (encoded ≡ some raw) × (parse_uint 64 raw ≡ some n)

decode_key_id_iff :
    (encoded : Option Bytes) (n : ℕ) → (decode_key_id encoded ≡ ok n) ↔ HasKeyId encoded n
unfolding decode_key_id
decode_key_id_iff encoded n = (
  (λ h.
      let (raw, given, parsed) = >>=-eq-ok (required encoded header_leader_key_id) _ h in
      (
        raw,
        (required_iff encoded header_leader_key_id raw).0 given,
        ok_or-eq-ok (parse_uint 64 raw) (invalid_integer header_leader_key_id raw) parsed,
      )),
  λ (raw, given, parsed).
      >>=-of_ok (required encoded header_leader_key_id) _
        ((required_iff encoded header_leader_key_id raw).1 given)
        (ap (λ o. ok_or o (invalid_integer header_leader_key_id raw)) parsed),
)

module _ (C : Crypto) where
  -- A header that holds so many bytes in base64.
  abbrev pub HasBytes : ℕ → Option Bytes → Bytes → Type 0
  HasBytes n encoded bytes =
      (text : Bytes) × (encoded ≡ some text) × (C.decode64 text ≡ some bytes) × (length bytes ≡ n)

  pub decode_array_iff :
      (n : ℕ) (encoded : Option Bytes) (header : Header) (bytes : Bytes)
      → (decode_array C n encoded header ≡ ok bytes) ↔ HasBytes n encoded bytes
  unfolding decode_array
  decode_array_iff n encoded header bytes = (
    (λ h.
        let (text, given, h₁) = >>=-eq-ok (required encoded header) _ h in
        let (b, decoded, h₂) = >>=-eq-ok (ok_or (C.decode64 text) (invalid_base64 header)) _ h₁ in
        let wrong = invalid_length header (length b) n in
        let (_, sized, last) = >>=-eq-ok (bail_if (not (length b == n)) wrong) _ h₂ in
        let size =
          (==_iff (length b) n).0 (
            (not-eq-false (length b == n)).0 ((bail_if_iff (not (length b == n)) wrong).0 sized)) in
        subst (HasBytes n encoded) (ok_injective last) (
          text,
          (required_iff encoded header text).0 given,
          ok_or-eq-ok (C.decode64 text) (invalid_base64 header) decoded,
          size,
        )),
    λ (text, given, decoded, size).
        let wrong = invalid_length header (length bytes) n in
        >>=-of_ok (required encoded header) _ ((required_iff encoded header text).1 given) (
          >>=-of_ok (ok_or (C.decode64 text) (invalid_base64 header)) _
            (ap (λ o. ok_or o (invalid_base64 header)) decoded)
            (>>=-of_ok (bail_if (not (length bytes == n)) wrong) _
              ((bail_if_iff (not (length bytes == n)) wrong).1
                ((not-eq-false (length bytes == n)).1 ((==_iff (length bytes) n).1 size)))
              refl)),
  )

  abbrev pub IsSigned : Bytes → Bytes → Bytes → Type 0
  IsSigned key message signature =
      (C.is_public_key key ≡ true) × (C.verify_strict key message signature ≡ true)

  pub verify_signature_iff :
      (key message signature : Bytes)
      → (verify_signature C key message signature ≡ ok tt) ↔ IsSigned key message signature
  unfolding verify_signature
  verify_signature_iff key message signature = ground arith

  -- What the headers of a request hold, and that the leader with its key signed it.
  pub record IsAuthentic (headers : RequestHeadersRef) (resolver : Bytes → ℕ → Option Bytes)
      (request : AuthenticatedRequest) : Type 0 where
    pub version : headers.signature_version ≡ some signature_version_v2
    pub leader : headers.leader_id ≡ some request.leader_id
    pub key_id : HasKeyId headers.leader_key_id request.leader_key_id
    pub hash : HasBytes 32 headers.input_hash request.input_hash
    pub signature : HasBytes 64 headers.leader_signature request.leader_signature
    pub nonce : HasBytes 32 headers.nonce request.nonce
    pub public_key : Bytes
    pub resolved : resolver request.leader_id request.leader_key_id ≡ some public_key
    pub signed : IsSigned public_key request.input_hash request.leader_signature

-- A request is authenticated exactly if its headers have version 2 and hold the request's parts with their
-- sizes, the resolver knows the leader's key, and that key signed the hash of the input.
pub authenticate_request_iff :
    (C : Crypto) (headers : RequestHeadersRef) (resolver : Bytes → ℕ → Option Bytes)
    (request : AuthenticatedRequest)
    → (authenticate_request C headers resolver ≡ ok request)
      ↔ IsAuthentic C headers resolver request
unfolding authenticate_request
authenticate_request_iff C headers resolver request = (
  (λ h.
      let (_, version, h₁) = >>=-eq-ok (require_version headers.signature_version) _ h in
      let (id, leader, h₂) = >>=-eq-ok (required headers.leader_id header_leader_id) _ h₁ in
      let (kid, key_id, h₃) = >>=-eq-ok (decode_key_id headers.leader_key_id) _ h₂ in
      let (hash, hashed, h₄) =
        >>=-eq-ok (decode_array C 32 headers.input_hash header_input_hash) _ h₃ in
      let (sig, signature, h₅) =
        >>=-eq-ok (decode_array C 64 headers.leader_signature header_leader_signature) _ h₄ in
      let (n, nonce, h₆) = >>=-eq-ok (decode_array C 32 headers.nonce header_nonce) _ h₅ in
      let (key, resolved, h₇) =
        >>=-eq-ok (ok_or (resolver id kid) (unknown_leader_key id kid)) _ h₆ in
      let (_, signed, last) = >>=-eq-ok (verify_signature C key hash sig) _ h₇ in
      subst (IsAuthentic C headers resolver) (ok_injective last) record {
        version = (require_version_iff headers.signature_version).0 version;
        leader = (required_iff headers.leader_id header_leader_id id).0 leader;
        key_id = (decode_key_id_iff headers.leader_key_id kid).0 key_id;
        hash = (decode_array_iff C 32 headers.input_hash header_input_hash hash).0 hashed;
        signature =
            (decode_array_iff C 64 headers.leader_signature header_leader_signature sig).0
              signature;
        nonce = (decode_array_iff C 32 headers.nonce header_nonce n).0 nonce;
        public_key = key;
        resolved = ok_or-eq-ok (resolver id kid) (unknown_leader_key id kid) resolved;
        signed = (verify_signature_iff C key hash sig).0 signed;
      }),
  λ a.
      let r = request in
      >>=-of_ok (require_version headers.signature_version) _
        ((require_version_iff headers.signature_version).1 a.version)
        (>>=-of_ok (required headers.leader_id header_leader_id) _
          ((required_iff headers.leader_id header_leader_id r.leader_id).1 a.leader)
          (>>=-of_ok (decode_key_id headers.leader_key_id) _
            ((decode_key_id_iff headers.leader_key_id r.leader_key_id).1 a.key_id)
            (>>=-of_ok (decode_array C 32 headers.input_hash header_input_hash) _
              ((decode_array_iff C 32 headers.input_hash header_input_hash r.input_hash).1 a.hash)
              (>>=-of_ok (decode_array C 64 headers.leader_signature header_leader_signature) _
                ((decode_array_iff C 64 headers.leader_signature header_leader_signature
                    r.leader_signature).1
                  a.signature)
                (>>=-of_ok (decode_array C 32 headers.nonce header_nonce) _
                  ((decode_array_iff C 32 headers.nonce header_nonce r.nonce).1 a.nonce)
                  (>>=-of_ok
                    (ok_or (resolver r.leader_id r.leader_key_id)
                      (unknown_leader_key r.leader_id r.leader_key_id))
                    _
                    (ap (λ o. ok_or o (unknown_leader_key r.leader_id r.leader_key_id)) a.resolved)
                    (>>=-of_ok (verify_signature C a.public_key r.input_hash r.leader_signature) _
                      ((verify_signature_iff C a.public_key r.input_hash r.leader_signature).1
                        a.signed)
                      refl))))))),
)

-- A request that a leader signs, with a hash and a nonce of 32 bytes and a u64 key id, is authenticated from
-- the headers it is sent with by every resolver that knows the leader's key, and gives its parts back.
pub authenticate_request-sign_request :
    (C : Crypto)
    → IsCrypto C
    → (resolver : Bytes → ℕ → Option Bytes) (leader_id : Bytes) (key_id : ℕ)
      (input_hash nonce signing_key : Bytes)
    → key_id < 2 ^ 64
    → length input_hash ≡ 32
    → length nonce ≡ 32
    → resolver leader_id key_id ≡ some (C.public_key signing_key)
    → authenticate_request C
        (from_getter (λ name.
          lookup name (to_pairs (sign_request C leader_id key_id input_hash nonce signing_key))))
        resolver
      ≡ ok record {
        leader_id = leader_id;
        leader_key_id = key_id;
        input_hash = input_hash;
        leader_signature = C.sign signing_key input_hash;
        nonce = nonce;
      }
unfolding from_getter to_pairs sign_request lookup
authenticate_request-sign_request C laws resolver id kid hash nonce key small h n known =
    (authenticate_request_iff C
        (from_getter (λ name. lookup name (to_pairs (sign_request C id kid hash nonce key))))
        resolver _).1
      record {
        version = refl;
        leader = refl;
        key_id = (print_uint kid, refl, parse-print_uint 64 kid small small);
        hash = (C.encode64 hash, refl, laws.decodes hash, h);
        signature = (
          C.encode64 (C.sign key hash),
          refl,
          laws.decodes (C.sign key hash),
          laws.signature_length key hash,
        );
        nonce = (C.encode64 nonce, refl, laws.decodes nonce, n);
        public_key = C.public_key key;
        resolved = known;
        signed = (laws.public_key_valid key, laws.verifies key hash);
      }
