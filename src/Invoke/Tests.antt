-- ===== src/Invoke/Tests.antt =====
-- A tool with a cache of replays, asked twice, and two requests with one nonce of which the first is late.
use nexus_sdk.Prelude.{ℕ, ◌≡◌, refl, true, false, Option, some, [], ◌∷◌, ok, lookup, arith, nat_eq}
use nexus_sdk.SignedHttp.{
  Bytes, AuthenticatedRequest, to_pairs, from_getter, authenticate_request, sign_request,
  response_from_getter, verify_response,
}
use nexus_sdk.SignedHttp.Request.{authenticate_request-sign_request}
use nexus_sdk.SignedHttp.Tests.{toy, toy-IsCrypto, zeros}
use nexus_sdk.Invoke.{
  CachedResponse, ReplayReservation, no_entries, Entries, put, retain, reservation_of, entry_of,
  begin, complete_reservation,
}
use nexus_sdk.Invoke.Handler.{
  Http, SignedInvokeRuntime, signed_runtime, calls, Run, Response, into_response, begin_invoke,
  handle_invoke,
}
use nexus_sdk.Invoke.Exclusive.{
  World, wait, begins, completes, there, here, Reach, start, next, IsExclusive, Reach-IsExclusive,
}
use nexus_sdk.Invoke.Runs.{MayRun, begin_invoke_iff, handle_invoke-replays}
use nexus_sdk.Invoke.Signed.{IsHttp, exchange, handle_invoke-verifies}

abbrev runs : Unit {0}
unfolding begin complete_reservation
runs = tt

abbrev answer : CachedResponse
answer = record { status = 200; body = 1 ∷ []; is_result = true }

abbrev idle : World
idle = record { entries = no_entries; running = []; now_ms = 0 }

abbrev early : ReplayReservation
early = reservation_of (7 ∷ []) (1 ∷ []) 10

abbrev late : ReplayReservation
late = reservation_of (7 ∷ []) (2 ∷ []) 22

abbrev first_entries : Entries
first_entries = put (7 ∷ []) (entry_of early) (retain 0 no_entries)

abbrev second_entries : Entries
second_entries = put (7 ∷ []) (entry_of late) (retain 12 first_entries)

-- The second request begins when the lease of the first is over, which then completes.
abbrev busy : World
busy = record { entries = second_entries; running = late ∷ early ∷ []; now_ms = 12 }

abbrev taken_over : World
taken_over = record busy {
  entries = complete_reservation early answer 12 50 second_entries;
  running = late ∷ [];
}

trace : Reach idle taken_over
unfolding runs
trace =
    let w₁ : World = record { entries = first_entries; running = early ∷ []; now_ms = 0 } in
    let w₂ : World = record w₁ { now_ms = 12 } in
    next
      (next
        (next (next start (begins idle 10 (7 ∷ []) (1 ∷ []) early first_entries refl))
          (wait w₁ 12 (omega arith)))
        (begins w₂ 10 (7 ∷ []) (2 ∷ []) late second_entries refl))
      (completes busy early (late ∷ []) answer 50 (there here))

Reach-IsExclusive_example : IsExclusive taken_over
Reach-IsExclusive_example = Reach-IsExclusive trace refl

abbrev http : Http
http = record { error_body = λ error. []; is_header_value = λ value. true }

http_valid : IsHttp toy http
http_valid = record { version_valid = refl; encoded_valid = λ bytes. refl }

abbrev runtime : SignedInvokeRuntime
runtime = record {
  signing_key = 8 ∷ [];
  allowed_leaders = λ leader_id key_id. some (7 ∷ []);
  replay_cache_ttl_ms = 1000;
}

abbrev run : Run
run given body = answer

abbrev headers : ℕ → Option Bytes
headers name = lookup name (to_pairs (sign_request toy (97 ∷ []) 5 (zeros 32) (zeros 32) (7 ∷ [])))

abbrev request : AuthenticatedRequest
request = record {
  leader_id = 97 ∷ [];
  leader_key_id = 5;
  input_hash = zeros 32;
  leader_signature = zeros 64;
  nonce = zeros 32;
}

is_authentic : authenticate_request toy (from_getter headers) runtime.allowed_leaders ≡ ok request
is_authentic =
    authenticate_request-sign_request toy toy-IsCrypto runtime.allowed_leaders (97 ∷ []) 5
      (zeros 32) (zeros 32) (7 ∷ []) (omega arith) refl refl refl

abbrev reservation : ReplayReservation
reservation = reservation_of (zeros 32) (zeros 32) 10

abbrev reserved : Entries
reserved = put (zeros 32) (entry_of reservation) (retain 0 no_entries)

calls_tool :
    begin_invoke toy http 10 (signed_runtime runtime) headers 0 no_entries
    ≡ (calls runtime request reservation, reserved)
unfolding begin_invoke begin
calls_tool = rw is_authentic refl

begin_invoke_iff_example :
    MayRun toy http 10 runtime headers 0 no_entries request reservation reserved
begin_invoke_iff_example =
    (begin_invoke_iff toy http 10 runtime headers 0 no_entries request reservation reserved).0
      calls_tool

may_run : MayRun toy http 10 runtime headers 0 no_entries request reservation reserved
may_run = record { authentic = is_authentic; free = tt; reserved = (refl, refl) }

abbrev other_run : Run
other_run given body = record { status = 500; body = []; is_result = false }

handle_invoke-replays_example :
    (handle_invoke toy http 10
      (signed_runtime runtime)
      headers
      []
      other_run
      (λ es. es)
      100
      200
      (handle_invoke toy http 10
        (signed_runtime runtime)
        headers
        []
        run
        (λ es. es)
        0
        5
        no_entries).1).0
    ≡ into_response toy http answer (zeros 64) (zeros 32) (8 ∷ [])
handle_invoke-replays_example =
    handle_invoke-replays toy http 10 runtime runtime headers headers [] [] run other_run (λ es. es)
      (λ es. es) 0 5 100 200 no_entries reserved request request reservation may_run refl
      is_authentic refl refl (omega arith)

abbrev response_given : Response
response_given =
    exchange toy http toy-IsCrypto http_valid 10 runtime (97 ∷ []) 5 (zeros 32) (zeros 32) (7 ∷ [])
      [] run (λ es. es) 0 5 no_entries

handle_invoke-verifies_example :
    (response_given.status ≡ 200)
    × (response_given.body ≡ 1 ∷ [])
    × (verify_response toy
          (response_from_getter (λ name. lookup name response_given.headers))
          (zeros 64)
          (zeros 32)
          response_given.body
          (8 ∷ [])
        ≡ ok (zeros 64))
handle_invoke-verifies_example =
    handle_invoke-verifies toy http toy-IsCrypto http_valid 10 runtime (97 ∷ []) 5 (zeros 32)
      (zeros 32) (7 ∷ []) [] run (λ es. es) 0 5 no_entries (omega arith) refl refl refl tt refl
