-- ===== src/Invoke/Exclusive.antt =====
-- Requests that share the cache of replays, in any order of steps: two of them with the same nonce do not run
-- at the same time, unless the lease of one is over.
use mathlib.Core.Path.{subst}
use nexus_sdk.Prelude.{
  ℕ, ◌<◌, ◌≤◌, ◌≡◌, ◌≢◌, refl, sym, ap, ◌∙◌, some, List, [], ◌∷◌, Memᴰ, arith, saturating_add,
  ==_refl, ==_ne, nat_eq, list_eq,
}
use nexus_sdk.SignedHttp.{Bytes}
use nexus_sdk.Invoke.{
  CachedResponse, ReplayReservation, proceed, Entries, put, retain, reservation_of, entry_of, begin,
  complete_reservation, drop_reservation,
}
use nexus_sdk.Invoke.Replay.{
  MayProceed, begin_iff, begin_entries, retain-some, IsApart, complete_reservation-apart,
  drop_reservation-apart,
}

-- The entries, the reservations of the requests that run, and the time.
pub record World : Type 0 where
  pub entries : Entries
  pub running : List ReplayReservation
  pub now_ms : ℕ

-- One element is taken out of a list.
pub data Picks {ℓ} {A : Type ℓ} (x : A) : List A → List A → Type ℓ where
  here : {xs : List A} → Picks x (x ∷ xs) xs
  there : {y : A} {xs ys : List A} → Picks x xs ys → Picks x (y ∷ xs) (y ∷ ys)

Picks-mem {ℓ} : {A : Type ℓ} {x y : A} {xs ys : List A} → Picks x xs ys → Memᴰ y ys → Memᴰ y xs
Picks-mem here m = Memᴰ.tail m
Picks-mem (there p) (Memᴰ.head e) = Memᴰ.head e
Picks-mem (there p) (Memᴰ.tail m) = Memᴰ.tail (Picks-mem p m)

Picks-picked {ℓ} : {A : Type ℓ} {x : A} {xs ys : List A} → Picks x xs ys → Memᴰ x xs
Picks-picked here = Memᴰ.head refl
Picks-picked (there p) = Memᴰ.tail (Picks-picked p)

-- One step of one request, with any lease, time to live and response, or the clock.
pub data Step : World → World → Type 0 where
  wait : (w : World) (now_ms : ℕ) → w.now_ms ≤ now_ms → Step w (record w { now_ms = now_ms })
  begins :
      (w : World) (lease_ms : ℕ) (nonce input_hash : Bytes) (r : ReplayReservation)
      (entries : Entries)
      → begin lease_ms nonce input_hash w.now_ms w.entries ≡ (proceed r, entries)
      → Step w (record w { entries = entries; running = r ∷ w.running })
  is_turned_away :
      (w : World) (lease_ms : ℕ) (nonce input_hash : Bytes)
      → ((r : ReplayReservation)
          → (begin lease_ms nonce input_hash w.now_ms w.entries).0 ≢ proceed r)
      → Step w (record w { entries = (begin lease_ms nonce input_hash w.now_ms w.entries).1 })
  completes :
      (w : World) (r : ReplayReservation) (rest : List ReplayReservation)
      (response : CachedResponse) (ttl_ms : ℕ)
      → Picks r w.running rest
      → Step w (record w {
        entries = complete_reservation r response w.now_ms ttl_ms w.entries;
        running = rest;
      })
  drops :
      (w : World) (r : ReplayReservation) (rest : List ReplayReservation)
      → Picks r w.running rest
      → Step w (record w { entries = drop_reservation r w.entries; running = rest })

pub data Reach (w : World) : World → Type 0 where
  start : Reach w w
  next : {v u : World} → Reach w v → Step v u → Reach w u

-- Both leases hold, and the nonces are the same.
abbrev pub Clash : ℕ → ReplayReservation → ReplayReservation → Type 0
Clash now_ms r s =
    (now_ms < r.lease_expires_at_ms) × (now_ms < s.lease_expires_at_ms) × (r.nonce ≡ s.nonce)

Clash-sym :
    {now_ms : ℕ} (r : ReplayReservation) {s y : ReplayReservation}
    → s ≡ y
    → Clash now_ms r s
    → Clash now_ms y r
Clash-sym {now_ms} r is (a, b, e) =
    subst
      (λ z.
        (now_ms < z.lease_expires_at_ms) × (now_ms < r.lease_expires_at_ms) × (z.nonce ≡ r.nonce))
      is (b, a, sym e)

-- No two reservations of the list clash.
abbrev pub NoClash : ℕ → List ReplayReservation → Type 0
NoClash now_ms [] = Unit {0}
NoClash now_ms (r ∷ rs) =
    ((s : ReplayReservation) → Memᴰ s rs → ¬ (Clash now_ms r s)) × NoClash now_ms rs

NoClash-Picks :
    {now_ms : ℕ} {r : ReplayReservation} {xs ys : List ReplayReservation}
    → Picks r xs ys
    → NoClash now_ms xs
    → ((s : ReplayReservation) → Memᴰ s ys → ¬ (Clash now_ms r s)) × NoClash now_ms ys
NoClash-Picks here h = (h.0, h.1)
NoClash-Picks {now_ms} {r} (there {y} {ys = ys} p) h =
    let (other, rest) = NoClash-Picks p h.1 in
    (
      (λ s m clash. elim m [
        | Memᴰ.head is ↦ h.0 r (Picks-picked p) (Clash-sym r is clash)
        | Memᴰ.tail n ↦ other s n clash
      ]),
      ((λ s m. h.0 s (Picks-mem p m)), rest),
    )

NoClash-later :
    {now_ms later_ms : ℕ} (rs : List ReplayReservation)
    → now_ms ≤ later_ms
    → NoClash now_ms rs
    → NoClash later_ms rs
NoClash-later [] later h = tt
NoClash-later (r ∷ rs) later h =
    ((λ s m (a, b, e). h.0 s m (omega arith, omega arith, e)), NoClash-later rs later h.1)

pub record IsExclusive (w : World) : Type 0 where
  pub held :
      (r : ReplayReservation)
      → Memᴰ r w.running
      → w.now_ms < r.lease_expires_at_ms
      → w.entries r.nonce ≡ some (entry_of r)
  pub no_clash : NoClash w.now_ms w.running

-- The request that ends does not own the entry of another, unless they clash.
apart :
    {now_ms : ℕ} (r s : ReplayReservation)
    → ¬ (Clash now_ms r s)
    → now_ms < s.lease_expires_at_ms
    → IsApart r s
apart r s no_ fresh e same = no_ (omega arith, fresh, e)

put_self :
    (r : ReplayReservation) (entries : Entries)
    → put r.nonce (entry_of r) entries r.nonce ≡ some (entry_of r)
put_self r entries = rw (==_refl r.nonce) refl

put_other :
    (r s : ReplayReservation) (entries : Entries)
    → r.nonce ≢ s.nonce
    → put r.nonce (entry_of r) entries s.nonce ≡ entries s.nonce
put_other r s entries other = rw (==_ne r.nonce s.nonce other) refl

module _ (w : World) (h : IsExclusive w) where
  ends :
      (r : ReplayReservation) (rest : List ReplayReservation) (entries : Entries)
      → Picks r w.running rest
      → ((s : ReplayReservation)
          → IsApart r s
          → w.entries s.nonce ≡ some (entry_of s)
          → entries s.nonce ≡ some (entry_of s))
      → IsExclusive (record w { entries = entries; running = rest })
  ends r rest entries p keeps =
      let (no_, rest_apart) = NoClash-Picks p h.no_clash in
      record {
        held = λ s m fresh. keeps s (apart r s (no_ s m) fresh) (h.held s (Picks-mem p m) fresh);
        no_clash = rest_apart;
      }

  -- A request that may proceed has a nonce with which none runs whose lease holds.
  is_new :
      (r : ReplayReservation) (input_hash : Bytes) (s : ReplayReservation)
      → MayProceed input_hash (retain w.now_ms w.entries r.nonce)
      → Memᴰ s w.running
      → w.now_ms < s.lease_expires_at_ms
      → r.nonce ≢ s.nonce
  is_new r input_hash s may m fresh e =
      let held = retain-some w.now_ms w.entries s.nonce (entry_of s) (h.held s m fresh) fresh in
      let may' : MayProceed input_hash (some (entry_of s)) =
        subst (MayProceed input_hash) (ap (retain w.now_ms w.entries) e ∙ held) may in
      absurd (cc (may'.1))

  begun :
      (r : ReplayReservation) (input_hash : Bytes) (entries : Entries)
      → MayProceed input_hash (retain w.now_ms w.entries r.nonce)
      → entries ≡ put r.nonce (entry_of r) (retain w.now_ms w.entries)
      → IsExclusive (record w { entries = entries; running = r ∷ w.running })
  begun r input_hash entries may then_ = record {
    held = λ s m fresh. elim m [
      | Memᴰ.head is ↦
          subst (λ (z : ReplayReservation). entries z.nonce ≡ some (entry_of z)) (sym is)
            (ap (λ (f : Entries). f r.nonce) then_ ∙ put_self r (retain w.now_ms w.entries))
      | Memᴰ.tail n ↦
          ap (λ (f : Entries). f s.nonce) then_
          ∙ put_other r s (retain w.now_ms w.entries) (is_new r input_hash s may n fresh)
          ∙ retain-some w.now_ms w.entries s.nonce (entry_of s) (h.held s n fresh) fresh
    ];
    no_clash = ((λ s m (_, fresh, e). is_new r input_hash s may m fresh e), h.no_clash);
  }

none_runs : {r : ReplayReservation} {rs : List ReplayReservation} → rs ≡ [] → ¬ (Memᴰ r rs)
none_runs idle m = elim (subst (Memᴰ _) idle m) [ ]

Step-IsExclusive : {w v : World} → Step w v → IsExclusive w → IsExclusive v
Step-IsExclusive (wait w now_ms later) h = record {
  held = λ r m fresh. h.held r m (omega arith);
  no_clash = NoClash-later w.running later h.no_clash;
}
Step-IsExclusive (begins w lease_ms nonce input_hash r entries is) h =
    let (may, given) = (begin_iff lease_ms nonce input_hash w.now_ms w.entries r entries).0 is in
    let r₀ = reservation_of nonce input_hash (saturating_add 64 w.now_ms lease_ms) in
    subst
      (λ (z : ReplayReservation).
        IsExclusive (record w { entries = entries; running = z ∷ w.running }))
      (sym given.0) (begun w h r₀ input_hash entries may given.1)
Step-IsExclusive (is_turned_away w lease_ms nonce input_hash no_) h =
    let es = begin_entries lease_ms nonce input_hash w.now_ms w.entries no_ in
    record {
      held = λ r m fresh.
          ap (λ (f : Entries). f r.nonce) es
          ∙ retain-some w.now_ms w.entries r.nonce (entry_of r) (h.held r m fresh) fresh;
      no_clash = h.no_clash;
    }
Step-IsExclusive (completes w r rest response ttl_ms p) h =
    ends w h r rest _ p
      (λ s away is. complete_reservation-apart r s w.entries away is response w.now_ms ttl_ms)
Step-IsExclusive (drops w r rest p) h =
    ends w h r rest _ p (λ s away is. drop_reservation-apart r s w.entries away is)

-- From a time at which no request runs, whatever the cache holds, and after any sequence of steps, by which
-- requests begin, are turned away, complete or are dropped, and the clock advances: no two requests that run
-- have the same nonce while the leases of both hold, and each of these finds its own entry in the cache.
pub Reach-IsExclusive : {w v : World} → Reach w v → w.running ≡ [] → IsExclusive v
Reach-IsExclusive {w} start idle = record {
  held = λ r m fresh. absurd (none_runs idle m);
  no_clash = subst (NoClash w.now_ms) (sym idle) tt;
}
Reach-IsExclusive (next r s) idle = Step-IsExclusive s (Reach-IsExclusive r idle)
