-- ===== src/Invoke/Handler.antt =====
-- toolkit-rust/src/signed_http_warp.rs: the handler of `/invoke`, in the part up to the call of the tool and
-- the part after it, between which other requests use the same cache.
use nexus_sdk.Prelude.{
  ℕ, Bool, false, Option, none, some, [], ◌∷◌, Result, ok, err, Assoc, insert, if◌then◌else◌,
  nat_eq,
}
use nexus_sdk.SignedHttp.{
  Bytes, Crypto, SignedHttpError, AuthenticatedRequest, EncodedResponseHeaders, from_getter,
  authenticate_request, sign_response, response_pairs,
}
use nexus_sdk.Invoke.{
  CachedResponse, ReplayDecision, proceed, return_cached, is_in_flight, ReplayReservation, Entries,
  begin, complete_reservation,
}

pub data ContentType : Type 0 where
  json_content_type : ContentType
  tagged_output_content_type : ContentType

-- The errors that the handler itself answers with.
pub data LocalError : Type 0 where
  request_in_flight : LocalError
  auth_failed : SignedHttpError → LocalError

pub record Response : Type 0 where
  pub status : ℕ
  pub content_type : ContentType
  pub headers : Assoc ℕ Bytes
  pub body : Bytes

-- What serde_json and http do: the body of an error, and whether a text can be the value of a header.
pub record Http : Type 0 where
  pub error_body : LocalError → Bytes
  pub is_header_value : Bytes → Bool

pub record SignedInvokeRuntime : Type 0 where
  pub signing_key : Bytes
  -- what the resolver of keys answers
  pub allowed_leaders : Bytes → ℕ → Option Bytes
  pub replay_cache_ttl_ms : ℕ

pub data InvokeAuthRuntime : Type 0 where
  unsigned_runtime : InvokeAuthRuntime
  signed_runtime : SignedInvokeRuntime → InvokeAuthRuntime

-- What a request has come to before the tool is called, if it is.
pub data Begun : Type 0 where
  answered : Response → Begun
  calls_unsigned : Begun
  calls : SignedInvokeRuntime → AuthenticatedRequest → ReplayReservation → Begun

-- `run`, which sees the request, if it is signed, and the body.
abbrev pub Run : Type 0
Run = Option AuthenticatedRequest → Bytes → CachedResponse

module _ (C : Crypto) (http : Http) where
  abbrev pub insert_header : ℕ → Bytes → Assoc ℕ Bytes → Assoc ℕ Bytes
  insert_header name value headers =
      if http.is_header_value value then insert name value headers else headers

  abbrev pub insert_headers : Assoc ℕ Bytes → Assoc ℕ Bytes → Assoc ℕ Bytes
  insert_headers [] headers = headers
  insert_headers ((name, value) ∷ pairs) headers =
      insert_headers pairs (insert_header name value headers)

  abbrev pub signature_headers : Option EncodedResponseHeaders → Assoc ℕ Bytes
  signature_headers none = []
  signature_headers (some signature) = insert_headers (response_pairs signature) []

  unfoldable pub response : ℕ → Bytes → Bool → Option EncodedResponseHeaders → Response
  response status body is_result signature = record {
    status = status;
    content_type = if is_result then tagged_output_content_type else json_content_type;
    headers = signature_headers signature;
    body = body;
  }

  unfoldable pub json_response : ℕ → LocalError → Response
  json_response status error = response status (http.error_body error) false none

  -- `CachedResponse::into_response`
  unfoldable pub into_response : CachedResponse → Bytes → Bytes → Bytes → Response
  into_response cached leader_signature nonce signing_key =
      response cached.status cached.body cached.is_result (
        if cached.is_result
        then some (sign_response C leader_signature nonce cached.body signing_key)
        else none)

  abbrev pub after_decision :
      SignedInvokeRuntime → AuthenticatedRequest → ReplayDecision × Entries → Begun × Entries
  after_decision runtime request (return_cached cached, entries) = (
    answered (into_response cached request.leader_signature request.nonce runtime.signing_key),
    entries,
  )
  after_decision runtime request (is_in_flight, entries) =
      (answered (json_response 409 request_in_flight), entries)
  after_decision runtime request (proceed reservation, entries) =
      (calls runtime request reservation, entries)

  abbrev pub after_authentication :
      ℕ
      → SignedInvokeRuntime
      → ℕ
      → Entries
      → Result SignedHttpError AuthenticatedRequest
      → Begun × Entries
  after_authentication lease_ms runtime now_ms entries (err error) =
      (answered (json_response 401 (auth_failed error)), entries)
  after_authentication lease_ms runtime now_ms entries (ok request) =
      after_decision runtime request
        (begin lease_ms request.nonce request.input_hash now_ms entries)

  -- `handle_invoke` up to the call of `run`. The headers are what `header_str` finds.
  unfoldable pub begin_invoke :
      ℕ → InvokeAuthRuntime → (ℕ → Option Bytes) → ℕ → Entries → Begun × Entries
  begin_invoke lease_ms unsigned_runtime headers now_ms entries = (calls_unsigned, entries)
  begin_invoke lease_ms (signed_runtime runtime) headers now_ms entries =
      after_authentication lease_ms runtime now_ms entries
        (authenticate_request C (from_getter headers) runtime.allowed_leaders)

  -- `handle_invoke` after the call of `run`, with what this gave.
  unfoldable pub finish_unsigned : CachedResponse → Response
  finish_unsigned run = response run.status run.body run.is_result none

  unfoldable pub finish_invoke :
      SignedInvokeRuntime
      → AuthenticatedRequest
      → ReplayReservation
      → CachedResponse
      → ℕ
      → Entries
      → Response × Entries
  finish_invoke runtime request reservation cached now_ms entries = (
    into_response cached request.leader_signature request.nonce runtime.signing_key,
    complete_reservation reservation cached now_ms runtime.replay_cache_ttl_ms entries,
  )

  abbrev pub finish : Bytes → Run → (Entries → Entries) → ℕ → Begun × Entries → Response × Entries
  finish body run meanwhile later_ms (answered r, entries) = (r, entries)
  finish body run meanwhile later_ms (calls_unsigned, entries) =
      (finish_unsigned (run none body), meanwhile entries)
  finish body run meanwhile later_ms (calls runtime request reservation, entries) =
      finish_invoke runtime request reservation (run (some request) body) later_ms
        (meanwhile entries)

  -- `handle_invoke`, with what the other requests do to the cache meanwhile.
  unfoldable pub handle_invoke :
      ℕ
      → InvokeAuthRuntime
      → (ℕ → Option Bytes)
      → Bytes
      → Run
      → (Entries → Entries)
      → ℕ
      → ℕ
      → Entries
      → Response × Entries
  handle_invoke lease_ms auth headers body run meanwhile now_ms later_ms entries =
      finish body run meanwhile later_ms (begin_invoke lease_ms auth headers now_ms entries)
