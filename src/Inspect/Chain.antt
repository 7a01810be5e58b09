-- ===== src/Inspect/Chain.antt =====
-- Following the updates of an execution whose history the node has gives the events of the versions that are
-- not delivered yet, in their order.

use mathlib.Core.List.{append_assoc, append-nil}
use nexus_sdk.Prelude.{
  ℕ, zero, suc, ◌<◌, ◌≤◌, ◌≡◌, refl, sym, ap, ◌∙◌, inl, inr, true, Option, none, some, List, [],
  ◌∷◌, ◌++◌, arith, length, concat, filter, lt→ltb, Result, ok, ◌==◌, ==_iff, nat_eq, Bool-cases,
}
use nexus_sdk.Inspect.{NexusError, ObjectUpdateReference, not_exist, NexusEvent, Crawler}
use nexus_sdk.Inspect.Updates.{
  nothing_left, visit, after_round, follow_updates, fetch_execution_update_events,
}
use nexus_sdk.Inspect.History.{
  Version, chronological, is_newer_than, filter_all, IsHistory, IsKnown, visit-delivered,
  visit-made, visit-last, visit-older, none_newer, not_delivered, IsKnown-older, known-lt,
  history_length,
}

module _ (crawler : Crawler) (id expected_type deadline : ℕ) where
  abbrev follow :
      Option ℕ
      → ℕ
      → ObjectUpdateReference
      → List (List NexusEvent)
      → Option (Result NexusError (List NexusEvent))
  follow last = follow_updates crawler id expected_type deadline last

  follow-all :
      (fuel : ℕ) (v : Version) (vs : List Version) (updates : List (List NexusEvent))
      → IsHistory crawler id expected_type deadline (v ∷ vs)
      → length (v ∷ vs) ≤ fuel
      → follow none fuel v.reference updates ≡ some (ok (chronological (v ∷ vs) ++ concat updates))
  follow-all zero v vs updates h le = absurd (omega arith)
  follow-all (suc fuel) v [] updates h le =
      rw
        (visit-made crawler id expected_type deadline none v.reference not_exist v.events h refl
          refl)
        refl
  follow-all (suc fuel) v (w ∷ rest) updates h le =
      ap (after_round crawler id expected_type deadline none (follow none fuel) updates)
        (visit-older crawler id expected_type deadline none v w rest h refl refl refl refl)
      ∙ follow-all fuel w rest (v.events ∷ updates) h.3 (omega arith)
      ∙ ap (λ es. some (ok es))
          (sym (append_assoc (chronological (w ∷ rest)) v.events (concat updates)))

  delivered_round :
      (d : ℕ) (v : Version) (vs : List Version)
      → IsHistory crawler id expected_type deadline (v ∷ vs)
      → (d == v.reference.version) ≡ true
      → visit crawler id expected_type deadline (some d) v.reference ≡ ok nothing_left
  delivered_round d v [] h same =
      visit-delivered crawler id expected_type deadline (some d) v.reference _ v.events h same
  delivered_round d v (w ∷ rest) h same =
      visit-delivered crawler id expected_type deadline (some d) v.reference _ v.events h.0 same

  -- What the loop gives with so much fuel, for the version delivered last.
  abbrev FollowsNewer : ℕ → ℕ → Type 0
  FollowsNewer d fuel =
      (v : Version) (vs : List Version) (updates : List (List NexusEvent))
      → IsHistory crawler id expected_type deadline (v ∷ vs)
      → IsKnown crawler id expected_type deadline (some d) (v ∷ vs)
      → length (v ∷ vs) ≤ fuel
      → follow (some d) fuel v.reference updates
        ≡ some (ok (chronological (filter (is_newer_than (some d)) (v ∷ vs)) ++ concat updates))

  follow-newer_tail :
      (d fuel : ℕ) (v : Version) (vs : List Version) (updates : List (List NexusEvent))
      → FollowsNewer d fuel
      → IsHistory crawler id expected_type deadline (v ∷ vs)
      → IsKnown crawler id expected_type deadline (some d) vs
      → length (v ∷ vs) ≤ suc fuel
      → follow (some d) (suc fuel) v.reference updates
        ≡ some (ok (chronological (v ∷ filter (is_newer_than (some d)) vs) ++ concat updates))
  follow-newer_tail d fuel v [] updates ih h (u, m, e) le = elim m [ ]
  follow-newer_tail d fuel v (w ∷ rest) updates ih h known le =
      let (a, b) =
        not_delivered crawler id expected_type deadline d v.reference.version
          (known-lt crawler id expected_type deadline d v (w ∷ rest) h known) in
      let round =
        after_round crawler id expected_type deadline (some d) (follow (some d) fuel) updates in
      elim (Bool-cases (d == w.reference.version)) [
        | inl same ↦
            let e = (==_iff d w.reference.version).0 same in
            ap round (visit-last crawler id expected_type deadline (some d) v w rest h a b same)
            ∙ ap (λ vs. some (ok (chronological (v ∷ vs) ++ concat updates)))
                (sym (none_newer crawler id expected_type deadline d w rest h.3 (omega arith)))
        | inr other ↦
            let older_known =
              IsKnown-older crawler id expected_type deadline d w rest known
                (λ e. absurd (cc (other, (==_iff d w.reference.version).1 e))) in
            let (c, lower) =
              not_delivered crawler id expected_type deadline d w.reference.version
                (known-lt crawler id expected_type deadline d w rest h.3 older_known) in
            ap round
              (visit-older crawler id expected_type deadline (some d) v w rest h a b other lower)
            ∙ ih w rest (v.events ∷ updates) h.3 known (omega arith)
            ∙ ap (λ es. some (ok es))
                (sym (
                  append_assoc (chronological (filter (is_newer_than (some d)) (w ∷ rest))) v.events
                    (concat updates)))
      ]

  follow-newer : (d fuel : ℕ) → FollowsNewer d fuel
  follow-newer d zero v vs updates h known le = absurd (omega arith)
  follow-newer d (suc fuel) v vs updates h known le = elim (Bool-cases (d == v.reference.version)) [
    | inl same ↦
        let e = (==_iff d v.reference.version).0 same in
        ap (after_round crawler id expected_type deadline (some d) (follow (some d) fuel) updates)
          (delivered_round d v vs h same)
        ∙ ap (λ vs. some (ok (chronological vs ++ concat updates)))
            (sym (none_newer crawler id expected_type deadline d v vs h (omega arith)))
    | inr other ↦
        let older_known =
          IsKnown-older crawler id expected_type deadline d v vs known
            (λ e. absurd (cc (other, (==_iff d v.reference.version).1 e))) in
        let lt = known-lt crawler id expected_type deadline d v vs h older_known in
        follow-newer_tail d fuel v vs updates (follow-newer d fuel) h older_known le
        ∙ rw (lt→ltb d v.reference.version lt) refl
  ]

-- Given the history of an execution, which the node has, and as the version delivered last none or one of its
-- versions: following the updates from its newest version gives exactly the events of the newer versions, in
-- the order in which they happened, with any fuel above the number of that version.
pub fetch_execution_update_events-newer :
    (crawler : Crawler) (id expected_type deadline : ℕ) (last : Option ℕ) (fuel : ℕ) (v : Version)
    (vs : List Version)
    → IsHistory crawler id expected_type deadline (v ∷ vs)
    → IsKnown crawler id expected_type deadline last (v ∷ vs)
    → v.reference.version < fuel
    → fetch_execution_update_events crawler id expected_type deadline last fuel v.reference
      ≡ some (ok (chronological (filter (is_newer_than last) (v ∷ vs))))
unfolding fetch_execution_update_events
fetch_execution_update_events-newer crawler id expected_type deadline none fuel v vs h known le =
    follow-all crawler id expected_type deadline fuel v vs [] h
      (let n = history_length crawler id expected_type deadline v vs h in omega arith)
    ∙ ap (λ es. some (ok es))
        (append-nil (chronological (v ∷ vs)) ∙ ap chronological (sym (filter_all (v ∷ vs))))
fetch_execution_update_events-newer crawler id expected_type deadline (some d) fuel v vs h known
      le =
    follow-newer crawler id expected_type deadline d fuel v vs [] h known
      (let n = history_length crawler id expected_type deadline v vs h in omega arith)
    ∙ ap (λ es. some (ok es))
        (append-nil (chronological (filter (is_newer_than (some d)) (v ∷ vs))))
