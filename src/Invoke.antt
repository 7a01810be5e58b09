-- ===== src/Invoke.antt =====
-- toolkit-rust/src/signed_http_warp.rs: the invocations of a tool. This file has the cache of replays, with
-- the entries of its map as a function of the nonce, Invoke.Handler the handler of a request.
use nexus_sdk.Prelude.{
  ℕ, ◌≡◌, Bool, true, false, ◌&&◌, Option, none, some, ltb, leb, if◌then◌else◌, fitting,
  saturating_add, ◌==◌, nat_eq, list_eq,
}
use nexus_sdk.SignedHttp.{Bytes}
pub mod Handler
pub mod Replay
pub mod Exclusive
pub mod Runs
pub mod Signed
pub mod Tests

pub record CachedResponse : Type 0 where
  pub status : ℕ
  pub body : Bytes
  pub is_result : Bool

pub data ReplayState : Type 0 where
  in_flight : ReplayState
  complete : CachedResponse → ReplayState

pub record ReplayEntry : Type 0 where
  pub input_hash : Bytes
  pub expires_at_ms : ℕ
  pub state : ReplayState

pub record ReplayReservation : Type 0 where
  pub nonce : Bytes
  pub input_hash : Bytes
  pub lease_expires_at_ms : ℕ

pub data ReplayDecision : Type 0 where
  proceed : ReplayReservation → ReplayDecision
  return_cached : CachedResponse → ReplayDecision
  is_in_flight : ReplayDecision

-- The map under the lock.
abbrev pub Entries : Type 0
Entries = Bytes → Option ReplayEntry

abbrev pub no_entries : Entries
no_entries nonce = none

-- `entries.insert(nonce, entry)`
abbrev pub put : Bytes → ReplayEntry → Entries → Entries
put nonce entry entries key = if nonce == key then some entry else entries key

-- `entries.remove(&nonce)`
abbrev pub remove : Bytes → Entries → Entries
remove nonce entries key = if nonce == key then none else entries key

abbrev pub unexpired : ℕ → Option ReplayEntry → Option ReplayEntry
unexpired now_ms none = none
unexpired now_ms (some entry) = if ltb now_ms entry.expires_at_ms then some entry else none

-- `entries.retain(|_, entry| entry.expires_at_ms > now_ms)`
abbrev pub retain : ℕ → Entries → Entries
retain now_ms entries key = unexpired now_ms (entries key)

abbrev pub default_in_flight_lease_ms : ℕ
default_in_flight_lease_ms = 60000

-- `InvokeAuth::new_sync`: the lease for a timeout in milliseconds.
unfoldable pub in_flight_lease_ms : ℕ → ℕ
in_flight_lease_ms timeout_ms =
    let lease : ℕ = elim (fitting 64 timeout_ms) [
      | none ↦ default_in_flight_lease_ms
      | some ms ↦ ms
    ] in
    if leb 1 lease then lease else 1

abbrev pub reservation_of : Bytes → Bytes → ℕ → ReplayReservation
reservation_of nonce input_hash lease_expires_at_ms = record {
  nonce = nonce;
  input_hash = input_hash;
  lease_expires_at_ms = lease_expires_at_ms;
}

-- The entry of a reservation.
abbrev pub entry_of : ReplayReservation → ReplayEntry
entry_of r = record {
  input_hash = r.input_hash;
  expires_at_ms = r.lease_expires_at_ms;
  state = in_flight;
}

-- A new reservation, with its entry.
abbrev pub reserve : ReplayReservation → Entries → ReplayDecision × Entries
reserve r entries = (proceed r, put r.nonce (entry_of r) entries)

-- The cases of `begin` for the entry of the nonce.
abbrev pub decide_state :
    ReplayReservation → Entries → Bytes → ReplayState → ReplayDecision × Entries
decide_state r entries cached_input_hash in_flight = (is_in_flight, entries)
decide_state r entries cached_input_hash (complete response) =
    if cached_input_hash == r.input_hash
    then (return_cached response, entries)
    else reserve r entries

abbrev pub decide : ReplayReservation → Entries → Option ReplayEntry → ReplayDecision × Entries
decide r entries none = reserve r entries
decide r entries (some entry) = decide_state r entries entry.input_hash entry.state

-- `ReplayCache::begin`
unfoldable pub begin : ℕ → Bytes → Bytes → ℕ → Entries → ReplayDecision × Entries
begin lease_ms nonce input_hash now_ms entries =
    let kept = retain now_ms entries in
    decide (reservation_of nonce input_hash (saturating_add 64 now_ms lease_ms)) kept (kept nonce)

abbrev pub is_flying : ReplayState → Bool
is_flying in_flight = true
is_flying (complete response) = false

-- Whether an entry is the one of the reservation.
abbrev pub belongs : ReplayReservation → ReplayEntry → Bool
belongs r entry =
    entry.input_hash == r.input_hash
    && entry.expires_at_ms == r.lease_expires_at_ms
    && is_flying entry.state

abbrev pub complete_entry :
    ReplayReservation → CachedResponse → ℕ → Entries → Option ReplayEntry → Entries
complete_entry r response expires_at_ms entries none = entries
complete_entry r response expires_at_ms entries (some entry) =
    if belongs r entry
    then put r.nonce (record entry { state = complete response; expires_at_ms = expires_at_ms })
        entries
    else entries

-- `ReplayReservation::complete`
unfoldable pub complete_reservation : ReplayReservation → CachedResponse → ℕ → ℕ → Entries → Entries
complete_reservation r response now_ms completed_ttl_ms entries =
    complete_entry r response (saturating_add 64 now_ms completed_ttl_ms) entries (entries r.nonce)

abbrev pub drop_entry : ReplayReservation → Entries → Option ReplayEntry → Entries
drop_entry r entries none = entries
drop_entry r entries (some entry) = if belongs r entry then remove r.nonce entries else entries

-- `ReplayReservation::drop`, of a reservation that is not completed.
unfoldable pub drop_reservation : ReplayReservation → Entries → Entries
drop_reservation r entries = drop_entry r entries (entries r.nonce)
