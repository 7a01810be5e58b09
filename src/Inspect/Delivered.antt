-- ===== src/Inspect/Delivered.antt =====
-- What an inspection sends while the history of the execution grows: its events, each once and in order.
use mathlib.Core.Path.{subst}
use nexus_sdk.Prelude.{
  ℕ, ◌+◌, ◌<◌, ◌≡◌, refl, sym, ap, ◌∙◌, ◌⊎◌, inl, inr, true, false, Option, none, some, List, [],
  ◌∷◌, ◌++◌, arith, any, any-append, filter, All, Result, ok, err, Bool-cases, ==_ne, nat_eq,
}
use nexus_sdk.Inspect.{NexusError, timeout, NexusEvent, is_execution_finished, Crawler}
use nexus_sdk.Inspect.Updates.{is_delivered}
use nexus_sdk.Inspect.History.{Version, chronological, is_newer_than, IsHistory}
use nexus_sdk.Inspect.Chain.{fetch_execution_update_events-newer}
use nexus_sdk.Inspect.Poll.{
  Observation, Inspected, retry_if_transient, fetch_events, poll_updates, inspect_execution,
}
use nexus_sdk.Inspect.Grown.{
  chronological-append, IsDown, Grows, IsDelivered, Grows-extends, Synced, Synced-grows,
  Synced-split, Synced-IsKnown, caught_up,
}

module _ (id expected_type deadline : ℕ) where
  -- The fetch ends at the deadline, or gives the events of the newer versions.
  abbrev Fetched :
      Version → List Version → Option ℕ → Option (Result NexusError (List NexusEvent)) → Type 0
  Fetched v vs last o =
      (o ≡ none)
      ⊎ ((o ≡ some (ok (chronological (filter (is_newer_than last) (v ∷ vs)))))
          × ((crawler : Crawler) × IsHistory crawler id expected_type deadline (v ∷ vs)))

  -- The first attempt fails for a while, or finds the history.
  pub fetch_events-down :
      (v : Version) (last : Option ℕ) (crawler : Crawler) (crawlers : List Crawler)
      → IsDown id expected_type deadline crawler v.reference
      → fetch_events id expected_type deadline last v.reference (crawler ∷ crawlers)
        ≡ fetch_events id expected_type deadline last v.reference crawlers
  fetch_events-down v last crawler crawlers down =
      let (error, is, transient) = down last in
      ap
        (retry_if_transient id expected_type deadline
          (fetch_events id expected_type deadline last v.reference crawlers))
        is
      ∙ rw transient refl

  pub fetch_events-found :
      (v : Version) (vs : List Version) (sent : List NexusEvent) (last : Option ℕ)
      (crawler : Crawler) (crawlers : List Crawler)
      → Synced id expected_type deadline (v ∷ vs) sent last
      → IsHistory crawler id expected_type deadline (v ∷ vs)
      → fetch_events id expected_type deadline last v.reference (crawler ∷ crawlers)
        ≡ some (ok (chronological (filter (is_newer_than last) (v ∷ vs))))
  fetch_events-found v vs sent last crawler crawlers s history =
      ap
        (retry_if_transient id expected_type deadline
          (fetch_events id expected_type deadline last v.reference crawlers))
        (fetch_execution_update_events-newer crawler id expected_type deadline last
          (v.reference.version + 1) v vs history
          (Synced-IsKnown id expected_type deadline v vs sent last crawler s) (omega arith))

  fetch_events-served :
      (v : Version) (vs : List Version) (sent : List NexusEvent) (last : Option ℕ)
      (crawlers : List Crawler)
      → Synced id expected_type deadline (v ∷ vs) sent last
      → All
          (λ crawler.
            IsDown id expected_type deadline crawler v.reference
            ⊎ IsHistory crawler id expected_type deadline (v ∷ vs))
          crawlers
      → Fetched v vs last (fetch_events id expected_type deadline last v.reference crawlers)
  fetch_events-served v vs sent last [] s h = inl refl
  fetch_events-served v vs sent last (crawler ∷ crawlers) s (inl down, rest) =
      subst (Fetched v vs last) (sym (fetch_events-down v last crawler crawlers down))
        (fetch_events-served v vs sent last crawlers s rest)
  fetch_events-served v vs sent last (crawler ∷ crawlers) s (inr history, rest) =
      inr (fetch_events-found v vs sent last crawler crawlers s history, (crawler, history))

  at_deadline :
      (before now : List Version) (sent : List NexusEvent) (last : Option ℕ)
      (seen : List Observation)
      → Synced id expected_type deadline before sent last
      → Grows id expected_type deadline before seen now
      → any is_execution_finished sent ≡ false
      → IsDelivered id expected_type deadline (record { sent = sent; end = err timeout }) now
  at_deadline before now sent last seen s g unfinished =
      let (ks, is) = Grows-extends id expected_type deadline before now seen g in
      let (missing, split) =
        Synced-split id expected_type deadline (ks ++ before) sent last
          (Synced-grows id expected_type deadline before ks sent last s) in
      record {
        missing = missing;
        split = ap chronological is ∙ split;
        ended = inr (refl, unfinished);
      }

  at_end :
      (before now : List Version) (sent events : List NexusEvent) (seen : List Observation)
      → sent ++ events ≡ chronological before
      → Grows id expected_type deadline before seen now
      → any is_execution_finished events ≡ true
      → IsDelivered id expected_type deadline (record { sent = sent ++ events; end = ok tt }) now
  at_end before now sent events seen caught g finished =
      let (ks, is) = Grows-extends id expected_type deadline before now seen g in
      record {
        missing = chronological ks;
        split =
            ap chronological is
            ∙ chronological-append ks before
            ∙ ap (λ l. l ++ chronological ks) (sym caught);
        ended = inl (refl, any-append is_execution_finished sent events ∙ ground (arith, finished));
      }

  poll_updates-IsDelivered :
      (before now : List Version) (sent : List NexusEvent) (last : Option ℕ)
      (seen : List Observation)
      → Synced id expected_type deadline before sent last
      → Grows id expected_type deadline before seen now
      → any is_execution_finished sent ≡ false
      → IsDelivered id expected_type deadline
          (poll_updates id expected_type deadline seen sent last)
          now
  poll_updates-IsDelivered before now sent last [] s g unfinished =
      at_deadline before now sent last [] s g unfinished
  poll_updates-IsDelivered before now sent last (p ∷ rest) s (inl ((error, is, transient), g))
        unfinished =
      rw is (rw transient (poll_updates-IsDelivered before now sent last rest s g unfinished))
  poll_updates-IsDelivered before now sent last (p ∷ rest) s (inr (ks, v, vs, is, served, g))
        unfinished =
      let synced =
        subst (λ l. Synced id expected_type deadline l sent last) (sym is)
          (Synced-grows id expected_type deadline before ks sent last s) in
      let events = chronological (filter (is_newer_than last) (v ∷ vs)) in
      rw served.is_latest (elim (Bool-cases (is_delivered last v.reference.version)) [
        | inl same ↦
            rw same (poll_updates-IsDelivered (v ∷ vs) now sent last rest synced g unfinished)
        | inr other ↦
            rw other (elim (fetch_events-served v vs sent last p.crawlers synced served.served) [
              | inl ended ↦ rw ended (at_deadline (v ∷ vs) now sent last rest synced g unfinished)
              | inr (is_events, (crawler, history)) ↦
                  let caught =
                    caught_up id expected_type deadline crawler v vs sent last history synced in
                  rw (is_events, served.is_open)
                    (elim (Bool-cases (any is_execution_finished events)) [
                      | inl finished ↦
                          rw finished (at_end (v ∷ vs) now sent events rest caught g finished)
                      | inr going ↦ rw going (
                          poll_updates-IsDelivered (v ∷ vs) now (sent ++ events)
                            (some v.reference.version) rest ([], v, vs, refl, refl, caught) g
                            (any-append is_execution_finished sent events
                              ∙ rw (unfinished, going) refl))
                    ])
            ])
      ])

-- The polls of an execution whose history grows, from nothing to its present one, of which each may fail for a while
-- and each attempt to follow the updates may fail for a while, with a receiver that takes all: what is sent is
-- the events of the present history in order, each once, up to one of its versions; and the inspection ends
-- well if the event that the execution is finished is among them, and else at the deadline.
pub inspect_execution-IsDelivered :
    (id expected_type deadline poll_interval : ℕ) (now : List Version) (seen : List Observation)
    → 0 < poll_interval
    → Grows id expected_type deadline [] seen now
    → (o : Inspected) × (inspect_execution id expected_type deadline poll_interval seen ≡ ok o)
      × IsDelivered id expected_type deadline o now
unfolding inspect_execution
inspect_execution-IsDelivered id expected_type deadline poll_interval now seen pos g = (
  poll_updates id expected_type deadline seen [] none,
  rw (==_ne poll_interval 0 (λ e. omega arith)) refl,
  poll_updates-IsDelivered id expected_type deadline [] now [] none seen refl g refl,
)
