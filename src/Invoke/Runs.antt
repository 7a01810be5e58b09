-- ===== src/Invoke/Runs.antt =====
-- Which requests call the tool, and what a request gets that is sent again.
use mathlib.Core.Path.{subst}
use nexus_sdk.Prelude.{
  ℕ, ◌<◌, ◌≡◌, ◌≢◌, refl, sym, ap, ◌∙◌, ◌↔◌, Option, some, Result, ok, err, ok_injective,
  saturating_add, ==_refl, nat_eq, list_eq,
}
use nexus_sdk.SignedHttp.{
  Bytes, Crypto, SignedHttpError, AuthenticatedRequest, from_getter, authenticate_request,
}
use nexus_sdk.Invoke.{
  CachedResponse, ReplayEntry, complete, ReplayDecision, proceed, return_cached, is_in_flight,
  ReplayReservation, Entries, retain, reservation_of, entry_of, begin, complete_reservation,
}
use nexus_sdk.Invoke.Replay.{
  MayProceed, Reserves, begin_iff, begin-complete, complete_reservation-own,
}
use nexus_sdk.Invoke.Handler.{
  Http, SignedInvokeRuntime, signed_runtime, Begun, answered, calls, Response, into_response,
  after_decision, after_authentication, begin_invoke, Run, finish, finish_invoke, handle_invoke,
}

module _ (C : Crypto) (http : Http) where
  answered-ne-calls :
      {response : Response} {rt : SignedInvokeRuntime} {request : AuthenticatedRequest}
      {r : ReplayReservation} {es es' : Entries}
      → ◌≢◌ {A = Begun × Entries} (answered response, es) (calls rt request r, es')
  answered-ne-calls h = cc (ap (λ p. p.0) h)

  after_decision_iff :
      (rt : SignedInvokeRuntime) (request₀ request : AuthenticatedRequest) (d : ReplayDecision)
      (es : Entries) (r : ReplayReservation) (es' : Entries)
      → (after_decision C http rt request₀ (d, es) ≡ (calls rt request r, es'))
        ↔ ((request₀ ≡ request) × (◌≡◌ {A = ReplayDecision × Entries} (d, es) (proceed r, es')))
  after_decision_iff rt request₀ request (return_cached c) es r es' =
      ((λ h. absurd (answered-ne-calls h)), λ (_, h). absurd (cc (ap (λ p. p.0) h)))
  after_decision_iff rt request₀ request is_in_flight es r es' =
      ((λ h. absurd (answered-ne-calls h)), λ (_, h). absurd (cc (ap (λ p. p.0) h)))
  after_decision_iff rt request₀ request (proceed r₀) es r es' = (
    (λ h. let first = ap (λ p. p.0) h in let second = ap (λ p. p.1) h in (cc, cc)),
    λ (same, h). let first = ap (λ p. p.0) h in let second = ap (λ p. p.1) h in cc,
  )

  -- The request is authentic, and its nonce is not in use; it has this reservation.
  pub record MayRun (lease_ms : ℕ) (rt : SignedInvokeRuntime) (headers : ℕ → Option Bytes)
      (now_ms : ℕ) (entries : Entries) (request : AuthenticatedRequest) (r : ReplayReservation)
      (entries' : Entries) : Type 0 where
    pub authentic : authenticate_request C (from_getter headers) rt.allowed_leaders ≡ ok request
    pub free : MayProceed request.input_hash (retain now_ms entries request.nonce)
    pub reserved :
        Reserves
          (reservation_of request.nonce request.input_hash (saturating_add 64 now_ms lease_ms))
          r
          (retain now_ms entries)
          entries'

  after_authentication_iff :
      (lease_ms : ℕ) (rt : SignedInvokeRuntime) (now_ms : ℕ) (entries : Entries)
      (result : Result SignedHttpError AuthenticatedRequest) (request : AuthenticatedRequest)
      (r : ReplayReservation) (entries' : Entries)
      → (after_authentication C http lease_ms rt now_ms entries result
          ≡ (calls rt request r, entries'))
        ↔ ((result ≡ ok request)
            × (begin lease_ms request.nonce request.input_hash now_ms entries
                ≡ (proceed r, entries')))
  after_authentication_iff lease_ms rt now_ms entries (err e) request r entries' =
      ((λ h. absurd (answered-ne-calls h)), λ (h, _). cc)
  after_authentication_iff lease_ms rt now_ms entries (ok request₀) request r entries' =
      let b = begin lease_ms request₀.nonce request₀.input_hash now_ms entries in
      (
        (λ h.
            let (same, is) = (after_decision_iff rt request₀ request b.0 b.1 r entries').0 h in
            (
              ap ok same,
              subst
                  (λ (q : AuthenticatedRequest).
                    begin lease_ms q.nonce q.input_hash now_ms entries ≡ (proceed r, entries'))
                  same is,
            )),
        λ (is_ok, is).
            let same = ok_injective is_ok in
            (after_decision_iff rt request₀ request b.0 b.1 r entries').1 (
              same,
              subst
                  (λ (q : AuthenticatedRequest).
                    begin lease_ms q.nonce q.input_hash now_ms entries ≡ (proceed r, entries'))
                  (sym same) is,
            ),
      )

  -- The tool is called, for a request and with a reservation, exactly if the request is authentic and the entry
  -- of its nonce is absent, expired, or complete for another input; the reservation then has its entry in the
  -- cache, to which nothing else is done but that expired entries are gone.
  pub begin_invoke_iff :
      (lease_ms : ℕ) (rt : SignedInvokeRuntime) (headers : ℕ → Option Bytes) (now_ms : ℕ)
      (entries : Entries) (request : AuthenticatedRequest) (r : ReplayReservation)
      (entries' : Entries)
      → (begin_invoke C http lease_ms (signed_runtime rt) headers now_ms entries
          ≡ (calls rt request r, entries'))
        ↔ MayRun lease_ms rt headers now_ms entries request r entries'
  unfolding begin_invoke
  begin_invoke_iff lease_ms rt headers now_ms entries request r entries' =
      let result = authenticate_request C (from_getter headers) rt.allowed_leaders in
      let a = after_authentication_iff lease_ms rt now_ms entries result request r entries' in
      let b = begin_iff lease_ms request.nonce request.input_hash now_ms entries r entries' in
      (
        (λ h.
            let (is_ok, is) = a.0 h in
            let (free, reserved) = b.0 is in
            record { authentic = is_ok; free = free; reserved = reserved }),
        λ m. a.1 (m.authentic, b.1 (m.free, m.reserved)),
      )

  after_decision-cached :
      (rt : SignedInvokeRuntime) (request : AuthenticatedRequest) (d : ReplayDecision)
      (es : Entries) (cached : CachedResponse) (body : Bytes) (run : Run)
      (meanwhile : Entries → Entries) (later_ms : ℕ)
      → d ≡ return_cached cached
      → (finish C http body run meanwhile later_ms (after_decision C http rt request (d, es))).0
        ≡ into_response C http cached request.leader_signature request.nonce rt.signing_key
  after_decision-cached rt request (return_cached c) es cached body run meanwhile later_ms h =
      let same : c ≡ cached = cc in rw same refl
  after_decision-cached rt request is_in_flight es cached body run meanwhile later_ms h = cc
  after_decision-cached rt request (proceed r) es cached body run meanwhile later_ms h = cc

  -- The entry of a nonce that a tool was called for.
  abbrev completed : Bytes → CachedResponse → ℕ → ReplayEntry
  completed input_hash cached expires = record {
    input_hash = input_hash;
    expires_at_ms = expires;
    state = complete cached;
  }

  -- The entry that a request leaves which called the tool.
  finished :
      (lease_ms : ℕ) (rt : SignedInvokeRuntime) (headers : ℕ → Option Bytes) (now_ms later_ms : ℕ)
      (entries : Entries) (request : AuthenticatedRequest) (r : ReplayReservation)
      (entries' during : Entries) (cached : CachedResponse)
      → MayRun lease_ms rt headers now_ms entries request r entries'
      → during request.nonce ≡ entries' request.nonce
      → complete_reservation r cached later_ms rt.replay_cache_ttl_ms during request.nonce
        ≡ some (
            completed request.input_hash cached (saturating_add 64 later_ms rt.replay_cache_ttl_ms))
  finished lease_ms rt headers now_ms later_ms entries request r entries' during cached m kept =
      let r₀ =
        reservation_of request.nonce request.input_hash (saturating_add 64 now_ms lease_ms) in
      let own : entries' request.nonce ≡ some (entry_of r₀) =
        ap (λ (f : Entries). f request.nonce) m.reserved.1 ∙ rw (==_refl request.nonce) refl in
      ap (λ z. complete_reservation z cached later_ms rt.replay_cache_ttl_ms during request.nonce)
        m.reserved.0
      ∙ complete_reservation-own r₀ cached later_ms rt.replay_cache_ttl_ms during (kept ∙ own)

  answers_cached :
      (lease_ms : ℕ) (rt : SignedInvokeRuntime) (headers : ℕ → Option Bytes) (body : Bytes)
      (run : Run) (meanwhile : Entries → Entries) (now_ms later_ms expires : ℕ) (entries : Entries)
      (request : AuthenticatedRequest) (cached : CachedResponse)
      → authenticate_request C (from_getter headers) rt.allowed_leaders ≡ ok request
      → entries request.nonce ≡ some (completed request.input_hash cached expires)
      → now_ms < expires
      → (handle_invoke C http lease_ms
          (signed_runtime rt)
          headers
          body
          run
          meanwhile
          now_ms
          later_ms
          entries).0
        ≡ into_response C http cached request.leader_signature request.nonce rt.signing_key
  unfolding handle_invoke begin_invoke
  answers_cached lease_ms rt headers body run meanwhile now_ms later_ms expires entries request
        cached is_ok is fresh =
      let b = begin lease_ms request.nonce request.input_hash now_ms entries in
      rw is_ok (
        after_decision-cached rt request b.0 b.1 cached body run meanwhile later_ms (
          begin-complete lease_ms request.nonce request.input_hash now_ms entries cached expires is
            fresh))

  module _ (lease_ms : ℕ) (rt rt₂ : SignedInvokeRuntime) (headers headers₂ : ℕ → Option Bytes)
      (body body₂ : Bytes) (run run₂ : Run) (meanwhile meanwhile₂ : Entries → Entries)
      (now_ms later_ms again_ms later₂_ms : ℕ) (entries entries' : Entries)
      (request request₂ : AuthenticatedRequest) (r : ReplayReservation) where
    -- A request that called the tool, while which no other request changed the entry of its nonce, and whose nonce
    -- and input come again in an authentic request before the time to live is over: this one is answered with
    -- the status and the body of the first, signed anew with the keys of the time, and does not call the tool.
    pub handle_invoke-replays :
        MayRun lease_ms rt headers now_ms entries request r entries'
        → meanwhile entries' request.nonce ≡ entries' request.nonce
        → authenticate_request C (from_getter headers₂) rt₂.allowed_leaders ≡ ok request₂
        → request₂.nonce ≡ request.nonce
        → request₂.input_hash ≡ request.input_hash
        → again_ms < saturating_add 64 later_ms rt.replay_cache_ttl_ms
        → (handle_invoke C http lease_ms
            (signed_runtime rt₂)
            headers₂
            body₂
            run₂
            meanwhile₂
            again_ms
            later₂_ms
            (handle_invoke C http lease_ms
              (signed_runtime rt)
              headers
              body
              run
              meanwhile
              now_ms
              later_ms
              entries).1).0
          ≡ into_response C http
              (run (some request) body)
              request₂.leader_signature
              request₂.nonce
              rt₂.signing_key
    unfolding handle_invoke finish_invoke
    handle_invoke-replays m kept authentic same_nonce same_hash fresh =
        let cached = run (some request) body in
        let expires = saturating_add 64 later_ms rt.replay_cache_ttl_ms in
        let left =
          complete_reservation r cached later_ms rt.replay_cache_ttl_ms (meanwhile entries') in
        let is_left : (handle_invoke C http lease_ms (signed_runtime rt) headers body run meanwhile
              now_ms later_ms entries).1
            ≡ left =
          ap (λ b. (finish C http body run meanwhile later_ms b).1)
            ((begin_invoke_iff lease_ms rt headers now_ms entries request r entries').1 m) in
        let entry : left request₂.nonce ≡ some (completed request₂.input_hash cached expires) =
          ap left same_nonce
          ∙ finished lease_ms rt headers now_ms later_ms entries request r entries'
              (meanwhile entries') cached m kept
          ∙ ap (λ h. some (completed h cached expires)) (sym same_hash) in
        ap
          (λ es.
            (handle_invoke C http lease_ms (signed_runtime rt₂) headers₂ body₂ run₂ meanwhile₂
              again_ms later₂_ms es).0)
          is_left
        ∙ answers_cached lease_ms rt₂ headers₂ body₂ run₂ meanwhile₂ again_ms later₂_ms expires left
            request₂ cached authentic entry fresh
