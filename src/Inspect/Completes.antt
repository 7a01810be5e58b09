-- ===== src/Inspect/Completes.antt =====
-- An inspection of an execution that is finished ends well, if the node answers in time.
use mathlib.Core.Path.{subst}
use mathlib.Core.List.{append-nil}
use nexus_sdk.Prelude.{
  ℕ, ◌<◌, ◌≡◌, refl, sym, ap, ◌∙◌, ◌⊎◌, inl, inr, true, false, Option, none, some, List, [], ◌∷◌,
  ◌++◌, Memᴰ, arith, any, any-append, filter, All, ok, Bool-cases, ==_ne, ==_iff, nat_eq,
}
use nexus_sdk.Inspect.{NexusEvent, is_execution_finished, Crawler}
use nexus_sdk.Inspect.Updates.{is_delivered}
use nexus_sdk.Inspect.History.{Version, chronological, is_newer_than, IsHistory, none_newer}
use nexus_sdk.Inspect.Poll.{Observation, fetch_events, poll_updates, inspect_execution}
use nexus_sdk.Inspect.Grown.{IsDown, IsUnseen, IsServed, Synced, Synced-grows, caught_up}
use nexus_sdk.Inspect.Delivered.{fetch_events-down, fetch_events-found}

module _ (id expected_type deadline : ℕ) where
  -- One of the attempts finds the history.
  abbrev pub HasAttempt : Version → List Version → List Crawler → Type 0
  HasAttempt v vs crawlers =
      (crawler : Crawler) × Memᴰ crawler crawlers
      × (¬ (IsDown id expected_type deadline crawler v.reference))

  -- As Grows, where each answered poll has such an attempt and the last one is answered.
  abbrev pub IsSeen : List Version → List Observation → List Version → Type 0
  IsSeen before [] now = ⊥
  IsSeen before (seen ∷ rest) now =
      (IsUnseen id expected_type deadline seen × IsSeen before rest now)
      ⊎ ((ks : List Version) × (v : Version) × (vs : List Version) × (v ∷ vs ≡ ks ++ before)
          × IsServed id expected_type deadline v vs seen
          × HasAttempt v vs seen.crawlers
          × (((rest ≡ []) × (v ∷ vs ≡ now)) ⊎ IsSeen (v ∷ vs) rest now))

  fetch_events-attempt :
      (v : Version) (vs : List Version) (sent : List NexusEvent) (last : Option ℕ)
      (crawlers : List Crawler)
      → Synced id expected_type deadline (v ∷ vs) sent last
      → All
          (λ crawler.
            IsDown id expected_type deadline crawler v.reference
            ⊎ IsHistory crawler id expected_type deadline (v ∷ vs))
          crawlers
      → HasAttempt v vs crawlers
      → (fetch_events id expected_type deadline last v.reference crawlers
          ≡ some (ok (chronological (filter (is_newer_than last) (v ∷ vs)))))
        × ((crawler : Crawler) × IsHistory crawler id expected_type deadline (v ∷ vs))
  fetch_events-attempt v vs sent last [] s h (c, m, up) = elim m [ ]
  fetch_events-attempt v vs sent last (crawler ∷ crawlers) s (inr history, rest) (c, m, up) = (
    fetch_events-found id expected_type deadline v vs sent last crawler crawlers s history,
    (crawler, history),
  )
  fetch_events-attempt v vs sent last (crawler ∷ crawlers) s (inl down, rest) (c, Memᴰ.head e, up) =
      absurd
        (up (subst (λ (z : Crawler). IsDown id expected_type deadline z v.reference) (sym e) down))
  fetch_events-attempt v vs sent last (crawler ∷ crawlers) s (inl down, rest) (c, Memᴰ.tail m, up) =
      let (is, found) = fetch_events-attempt v vs sent last crawlers s rest (c, m, up) in
      (fetch_events-down id expected_type deadline v last crawler crawlers down ∙ is, found)

  -- What is sent at a version that is delivered is the whole history.
  Synced-delivered :
      (v : Version) (vs : List Version) (crawler : Crawler) (sent : List NexusEvent)
      (last : Option ℕ)
      → IsHistory crawler id expected_type deadline (v ∷ vs)
      → Synced id expected_type deadline (v ∷ vs) sent last
      → is_delivered last v.reference.version ≡ true
      → sent ≡ chronological (v ∷ vs)
  Synced-delivered v vs crawler sent none h s is = cc
  Synced-delivered v vs crawler sent (some d) h s is =
      let e = (==_iff d v.reference.version).0 is in
      let nothing = none_newer crawler id expected_type deadline d v vs h (omega arith) in
      sym (append-nil sent)
      ∙ ap (λ l. sent ++ chronological l) (sym nothing)
      ∙ caught_up id expected_type deadline crawler v vs sent (some d) h s

  poll_updates-ends :
      (before now : List Version) (sent : List NexusEvent) (last : Option ℕ)
      (seen : List Observation)
      → Synced id expected_type deadline before sent last
      → IsSeen before seen now
      → any is_execution_finished sent ≡ false
      → any is_execution_finished (chronological now) ≡ true
      → (poll_updates id expected_type deadline seen sent last).end ≡ ok tt
  poll_updates-ends before now sent last [] s g unfinished finished = absurd g
  poll_updates-ends before now sent last (p ∷ rest) s (inl ((error, is, transient), g)) unfinished
        finished =
      rw is (rw transient (poll_updates-ends before now sent last rest s g unfinished finished))
  poll_updates-ends before now sent last (p ∷ rest) s (inr (ks, v, vs, is, served, attempt, g))
        unfinished finished =
      let synced =
        subst (λ l. Synced id expected_type deadline l sent last) (sym is)
          (Synced-grows id expected_type deadline before ks sent last s) in
      let events = chronological (filter (is_newer_than last) (v ∷ vs)) in
      let (fetched, (crawler, history)) =
        fetch_events-attempt v vs sent last p.crawlers synced served.served attempt in
      let caught = caught_up id expected_type deadline crawler v vs sent last history synced in
      rw served.is_latest (elim (Bool-cases (is_delivered last v.reference.version)) [
        | inl same ↦ rw same (elim g [
          | inl (_, all) ↦
              let whole = Synced-delivered v vs crawler sent last history synced same in
              absurd (cc (unfinished, finished, whole, all))
          | inr more ↦ poll_updates-ends (v ∷ vs) now sent last rest synced more unfinished finished
        ])
        | inr other ↦ rw other (
            rw (fetched, served.is_open)
              (elim (Bool-cases (any is_execution_finished events)) [
                | inl done ↦ rw done refl
                | inr going ↦ rw going (
                    let unfinished' : any is_execution_finished (sent ++ events) ≡ false =
                      any-append is_execution_finished sent events ∙ rw (unfinished, going) refl in
                    elim g [
                      | inl (_, all) ↦ absurd (cc (unfinished', finished, caught, all))
                      | inr more ↦
                          poll_updates-ends (v ∷ vs) now (sent ++ events) (some v.reference.version)
                            rest ([], v, vs, refl, refl, caught) more unfinished' finished
                    ])
              ]))
      ])

-- An execution whose history has the event that it is finished, seen by polls of which each may fail for a while,
-- but where the last one is answered, and each one that is answered has an attempt to follow the updates that
-- does not fail, before the deadline: the inspection ends well.
pub inspect_execution-completes :
    (id expected_type deadline poll_interval : ℕ) (now : List Version) (seen : List Observation)
    → 0 < poll_interval
    → IsSeen id expected_type deadline [] seen now
    → any is_execution_finished (chronological now) ≡ true
    → (sent : List NexusEvent) × (inspect_execution id expected_type deadline poll_interval seen
        ≡ ok record { sent = sent; end = ok tt })
unfolding inspect_execution
inspect_execution-completes id expected_type deadline poll_interval now seen pos g finished =
    let o = poll_updates id expected_type deadline seen [] none in
    let ends =
      poll_updates-ends id expected_type deadline [] now [] none seen refl g refl finished in
    (
      o.sent,
      rw (==_ne poll_interval 0 (λ e. omega arith))
          (ap (λ r. ok record { sent = o.sent; end = r }) ends),
    )
