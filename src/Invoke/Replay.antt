-- ===== src/Invoke/Replay.antt =====
-- What the operations on the cache of replays do to the entry of a nonce.
use nexus_sdk.Prelude.{
  ℕ, ◌<◌, ◌≡◌, ◌≢◌, refl, sym, ap, ◌∙◌, ◌↔◌, inl, inr, true, false, Option, none, some, arith,
  Bool-cases, saturating_add, ◌==◌, ==_iff, ==_refl, nat_eq, list_eq,
}
use nexus_sdk.SignedHttp.{Bytes}
use nexus_sdk.Invoke.{
  CachedResponse, ReplayState, in_flight, complete, ReplayEntry, ReplayReservation, ReplayDecision,
  proceed, return_cached, Entries, put, retain, reservation_of, entry_of, reserve, decide,
  decide_state, begin, belongs, complete_entry, complete_reservation, drop_entry, drop_reservation,
}

-- The nonce may be used: it has no entry, or a complete one for another input.
abbrev pub MayProceed : Bytes → Option ReplayEntry → Type 0
MayProceed input_hash none = Unit {0}
MayProceed input_hash (some entry) =
    (response : CachedResponse) × (entry.state ≡ complete response)
    × (entry.input_hash ≢ input_hash)

abbrev MayProceedState : Bytes → Bytes → ReplayState → Type 0
MayProceedState input_hash cached state =
    (response : CachedResponse) × (state ≡ complete response) × (cached ≢ input_hash)

abbrev pub Reserves : ReplayReservation → ReplayReservation → Entries → Entries → Type 0
Reserves r₀ r entries entries' = (r ≡ r₀) × (entries' ≡ put r₀.nonce (entry_of r₀) entries)

differs-absurd : (a b : Bytes) → (a == b) ≡ false → a ≢ b
differs-absurd a b h e = ground (arith, ==_iff a b)

reserve_iff :
    (r₀ r : ReplayReservation) (entries entries' : Entries)
    → (reserve r₀ entries ≡ (proceed r, entries')) ↔ Reserves r₀ r entries entries'
reserve_iff r₀ r entries entries' =
    ((λ h. (cc (ap (λ p. p.0) h), sym (ap (λ p. p.1) h))), λ (is, then_). cc)

waiting-ne-proceeds :
    {d : ReplayDecision} {r : ReplayReservation} {es es' : Entries}
    → ((r' : ReplayReservation) → d ≢ proceed r')
    → ◌≢◌ {A = ReplayDecision × Entries} (d, es) (proceed r, es')
waiting-ne-proceeds {r = r} other h = other r (ap (λ p. p.0) h)

decide_state_iff :
    (r₀ r : ReplayReservation) (entries entries' : Entries) (cached : Bytes) (state : ReplayState)
    → (decide_state r₀ entries cached state ≡ (proceed r, entries'))
      ↔ (MayProceedState r₀.input_hash cached state × Reserves r₀ r entries entries')
decide_state_iff r₀ r entries entries' cached in_flight =
    ((λ h. absurd (waiting-ne-proceeds (λ r'. λ e. cc) h)), λ ((c, e, _), _). cc)
decide_state_iff r₀ r entries entries' cached (complete response) =
    elim (Bool-cases (cached == r₀.input_hash)) [
      | inl same ↦ rw same (
        (λ h. absurd (waiting-ne-proceeds (λ r'. λ e. cc) h)),
        λ ((c, e, other), _). absurd (other ((==_iff cached r₀.input_hash).0 same)),
      )
      | inr differs ↦ rw differs (
        (λ h. (
          (response, refl, λ e. differs-absurd cached r₀.input_hash differs e),
          (reserve_iff r₀ r entries entries').0 h,
        )),
        λ (_, given). (reserve_iff r₀ r entries entries').1 given,
      )
    ]

decide_iff :
    (r₀ r : ReplayReservation) (entries entries' : Entries) (o : Option ReplayEntry)
    → (decide r₀ entries o ≡ (proceed r, entries'))
      ↔ (MayProceed r₀.input_hash o × Reserves r₀ r entries entries')
decide_iff r₀ r entries entries' none = (
  (λ h. (tt, (reserve_iff r₀ r entries entries').0 h)),
  λ (_, given). (reserve_iff r₀ r entries entries').1 given,
)
decide_iff r₀ r entries entries' (some entry) =
    decide_state_iff r₀ r entries entries' entry.input_hash entry.state

-- When a request gets a reservation, which one, and what becomes of the entries.
pub begin_iff :
    (lease_ms : ℕ) (nonce input_hash : Bytes) (now_ms : ℕ) (entries : Entries)
    (r : ReplayReservation) (entries' : Entries)
    → (begin lease_ms nonce input_hash now_ms entries ≡ (proceed r, entries')) ↔ (
        MayProceed input_hash (retain now_ms entries nonce)
        × Reserves
            (reservation_of nonce input_hash (saturating_add 64 now_ms lease_ms))
            r
            (retain now_ms entries)
            entries')
unfolding begin
begin_iff lease_ms nonce input_hash now_ms entries r entries' =
    decide_iff (reservation_of nonce input_hash (saturating_add 64 now_ms lease_ms)) r
      (retain now_ms entries) entries' (retain now_ms entries nonce)

pub retain-some :
    (now_ms : ℕ) (entries : Entries) (nonce : Bytes) (entry : ReplayEntry)
    → entries nonce ≡ some entry
    → now_ms < entry.expires_at_ms
    → retain now_ms entries nonce ≡ some entry
retain-some now_ms entries nonce entry is fresh = rw is (ground arith)

-- What is returned without a reservation leaves the entries that are not expired.
decide_state_entries :
    (r₀ : ReplayReservation) (entries : Entries) (cached : Bytes) (state : ReplayState)
    → ((r : ReplayReservation) → (decide_state r₀ entries cached state).0 ≢ proceed r)
    → (decide_state r₀ entries cached state).1 ≡ entries
decide_state_entries r₀ entries cached in_flight no_ = refl
decide_state_entries r₀ entries cached (complete response) no_ =
    elim (Bool-cases (cached == r₀.input_hash)) [
      | inl same ↦ rw same refl
      | inr differs ↦ absurd (no_ r₀ (rw differs refl))
    ]

decide_entries :
    (r₀ : ReplayReservation) (entries : Entries) (o : Option ReplayEntry)
    → ((r : ReplayReservation) → (decide r₀ entries o).0 ≢ proceed r)
    → (decide r₀ entries o).1 ≡ entries
decide_entries r₀ entries none no_ = absurd (no_ r₀ refl)
decide_entries r₀ entries (some entry) no_ =
    decide_state_entries r₀ entries entry.input_hash entry.state no_

pub begin_entries :
    (lease_ms : ℕ) (nonce input_hash : Bytes) (now_ms : ℕ) (entries : Entries)
    → ((r : ReplayReservation) → (begin lease_ms nonce input_hash now_ms entries).0 ≢ proceed r)
    → (begin lease_ms nonce input_hash now_ms entries).1 ≡ retain now_ms entries
unfolding begin
begin_entries lease_ms nonce input_hash now_ms entries no_ =
    decide_entries (reservation_of nonce input_hash (saturating_add 64 now_ms lease_ms))
      (retain now_ms entries) (retain now_ms entries nonce) no_

-- The entry of a reservation with another nonce or another lease stays.
abbrev pub IsApart : ReplayReservation → ReplayReservation → Type 0
IsApart r s = r.nonce ≡ s.nonce → r.lease_expires_at_ms ≢ s.lease_expires_at_ms

belongs-apart :
    (r s : ReplayReservation)
    → r.lease_expires_at_ms ≢ s.lease_expires_at_ms
    → belongs r (entry_of s) ≡ false
belongs-apart r s other = ground (arith, ==_iff s.input_hash r.input_hash)

belongs_self : (r : ReplayReservation) → belongs r (entry_of r) ≡ true
belongs_self r = ground (arith, ==_iff r.input_hash r.input_hash)

complete_entry-other :
    (r : ReplayReservation) (response : CachedResponse) (expires : ℕ) (entries : Entries)
    (key : Bytes) (o : Option ReplayEntry)
    → (r.nonce == key) ≡ false
    → complete_entry r response expires entries o key ≡ entries key
complete_entry-other r response expires entries key none other = refl
complete_entry-other r response expires entries key (some entry) other =
    elim (Bool-cases (belongs r entry)) [
      | inl its ↦ rw its (rw other refl)
      | inr not_its ↦ rw not_its refl
    ]

drop_entry-other :
    (r : ReplayReservation) (entries : Entries) (key : Bytes) (o : Option ReplayEntry)
    → (r.nonce == key) ≡ false
    → drop_entry r entries o key ≡ entries key
drop_entry-other r entries key none other = refl
drop_entry-other r entries key (some entry) other = elim (Bool-cases (belongs r entry)) [
  | inl its ↦ rw its (rw other refl)
  | inr not_its ↦ rw not_its refl
]

module _ (r s : ReplayReservation) (entries : Entries) (apart : IsApart r s)
    (is : entries s.nonce ≡ some (entry_of s)) where
  pub complete_reservation-apart :
      (response : CachedResponse) (now_ms ttl_ms : ℕ)
      → complete_reservation r response now_ms ttl_ms entries s.nonce ≡ some (entry_of s)
  unfolding complete_reservation
  complete_reservation-apart response now_ms ttl_ms = elim (Bool-cases (r.nonce == s.nonce)) [
    | inl same ↦
        let e = (==_iff r.nonce s.nonce).0 same in
        rw (ap entries e ∙ is) (rw (belongs-apart r s (apart e)) is)
    | inr other ↦
        complete_entry-other r response (saturating_add 64 now_ms ttl_ms) entries s.nonce
          (entries r.nonce) other
        ∙ is
  ]

  pub drop_reservation-apart : drop_reservation r entries s.nonce ≡ some (entry_of s)
  unfolding drop_reservation
  drop_reservation-apart = elim (Bool-cases (r.nonce == s.nonce)) [
    | inl same ↦
        let e = (==_iff r.nonce s.nonce).0 same in
        rw (ap entries e ∙ is) (rw (belongs-apart r s (apart e)) is)
    | inr other ↦ drop_entry-other r entries s.nonce (entries r.nonce) other ∙ is
  ]

-- A reservation that still has its entry completes it.
pub complete_reservation-own :
    (r : ReplayReservation) (response : CachedResponse) (now_ms ttl_ms : ℕ) (entries : Entries)
    → entries r.nonce ≡ some (entry_of r)
    → complete_reservation r response now_ms ttl_ms entries r.nonce
      ≡ some record {
        input_hash = r.input_hash;
        expires_at_ms = saturating_add 64 now_ms ttl_ms;
        state = complete response;
      }
unfolding complete_reservation
complete_reservation-own r response now_ms ttl_ms entries is =
    rw is (rw (belongs_self r) (rw (==_refl r.nonce) refl))

-- A request with the nonce and the input of a complete entry gets its response.
pub begin-complete :
    (lease_ms : ℕ) (nonce input_hash : Bytes) (now_ms : ℕ) (entries : Entries)
    (response : CachedResponse) (expires : ℕ)
    → entries nonce
      ≡ some record { input_hash = input_hash; expires_at_ms = expires; state = complete response }
    → now_ms < expires
    → (begin lease_ms nonce input_hash now_ms entries).0 ≡ return_cached response
unfolding begin
begin-complete lease_ms nonce input_hash now_ms entries response expires is fresh =
    rw (retain-some now_ms entries nonce _ is fresh) (rw (==_refl input_hash) refl)
