-- ===== src/Inspect/History.antt =====
-- The history of an execution object, as a node has it, and what one round of following it does.
use mathlib.Core.Path.{subst}
use nexus_sdk.Prelude.{
  ℕ, ◌+◌, ◌<◌, ◌≤◌, ◌≡◌, ◌≢◌, refl, sym, ap, ◌∙◌, Bool, true, false, Option, none, some, List, [],
  ◌∷◌, ◌++◌, Memᴰ, arith, length, filter, ltb, leb, Result, ok, ◌>>=◌, ◌==◌, ==_refl, ==_ne, nat_eq,
}
use nexus_sdk.Inspect.{
  NexusError, shared, ObjectUpdateReference, ObjectIn, not_exist, exist, object_write,
  ChangedObject, TransactionUpdate, NexusEvent, Crawler,
}
use nexus_sdk.Inspect.Updates.{
  fetch_transaction_update_with_visibility_retry, is_delivered, is_before, find_changed,
  decode_events, is_of_execution, previous_of, Round, nothing_left, last_update, older_update,
  check_cursor, fetch_change, execution_events, older, visit_update, visit,
}

-- A version of the execution object, with the events of the transaction that made it.
pub record Version : Type 0 where
  pub reference : ObjectUpdateReference
  pub events : List NexusEvent

-- The events of versions, given with the newest first, in the order in which they happened.
abbrev pub chronological : List Version → List NexusEvent
chronological [] = []
chronological (v ∷ older_versions) = chronological older_versions ++ v.events

-- Whether a version is newer than the one delivered last.
abbrev pub is_newer_than : Option ℕ → Version → Bool
is_newer_than none v = true
is_newer_than (some delivered) v = ltb delivered v.reference.version

pub leb-eq-false : (a b : ℕ) → b < a → leb a b ≡ false
leb-eq-false a b h = ground arith

pub ltb-eq-false : (a b : ℕ) → b ≤ a → ltb a b ≡ false
ltb-eq-false a b h = ground arith

pub filter_all : (vs : List Version) → filter (is_newer_than none) vs ≡ vs
filter_all [] = refl
filter_all (v ∷ vs) = rw (filter_all vs) refl

module _ (crawler : Crawler) (id expected_type deadline : ℕ) where
  -- The node has the transaction that made a version of the object from this input, with its events.
  pub record IsMade (c : ObjectUpdateReference) (input : ObjectIn) (events : List NexusEvent)
      : Type 0 where
    pub initial_version : ℕ
    pub is_shared : c.owner ≡ shared initial_version
    pub is_execution : c.object_type ≡ expected_type
    pub update : TransactionUpdate
    pub fetched :
        fetch_transaction_update_with_visibility_retry crawler c.previous_transaction deadline
        ≡ ok update
    pub at_version : update.lamport_version ≡ c.version
    pub changed : ChangedObject
    pub is_changed : find_changed id update.changed_objects ≡ some changed
    pub has_output : changed.output_state ≡ object_write c.digest
    pub has_input : changed.input_state ≡ input
    pub all_events : List NexusEvent
    pub decoded : decode_events crawler 0 update.digest update.events ≡ ok all_events
    pub selected : filter (is_of_execution id) all_events ≡ events

  -- The history of an execution, with the newest version first.
  abbrev pub IsHistory : List Version → Type 0
  IsHistory [] = ⊥
  IsHistory (v ∷ []) = IsMade v.reference not_exist v.events
  IsHistory (v ∷ w ∷ rest) =
      IsMade v.reference (exist w.reference.version w.reference.digest) v.events
      × (crawler.get_object_update_reference w.reference.version ≡ ok w.reference)
      × (w.reference.version < v.reference.version)
      × IsHistory (w ∷ rest)

  module _ (last : Option ℕ) (c : ObjectUpdateReference) (input : ObjectIn)
      (events : List NexusEvent) (made : IsMade c input events) where
    checked : check_cursor crawler id expected_type deadline last c ≡ ok tt
    checked = rw (made.is_shared, made.is_execution) (rw (==_refl expected_type) refl)

    fetched_change :
        fetch_change crawler id expected_type deadline last c ≡ ok (made.update, made.changed)
    unfolding fetch_change
    fetched_change =
        rw (made.fetched, made.at_version)
          (rw (==_refl c.version, made.is_changed, made.has_output) (rw (==_refl c.digest) refl))

    fetched_events : execution_events crawler id expected_type deadline last made.update ≡ ok events
    unfolding execution_events
    fetched_events = rw (made.decoded, made.selected) refl

    -- A round at a version that is delivered, and at one that is not.
    pub visit-delivered :
        is_delivered last c.version ≡ true
        → visit crawler id expected_type deadline last c ≡ ok nothing_left
    unfolding visit
    visit-delivered h = rw (checked, h) refl

    pub visit-made :
        is_delivered last c.version ≡ false
        → is_before last c.version ≡ false
        → visit crawler id expected_type deadline last c
          ≡ (previous_of last input >>= older crawler id expected_type deadline last c events)
    unfolding visit visit_update
    visit-made h k =
        rw (checked, h) (rw (k, fetched_change) (rw (fetched_events, made.has_input) refl))

  module _ (last : Option ℕ) (v w : Version) (rest : List Version)
      (h : IsHistory (v ∷ w ∷ rest)) where
    abbrev pub after_v : Result NexusError Round
    after_v = visit crawler id expected_type deadline last v.reference

    pub visit-last :
        is_delivered last v.reference.version ≡ false
        → is_before last v.reference.version ≡ false
        → is_delivered last w.reference.version ≡ true
        → after_v ≡ ok (last_update v.events)
    visit-last a b c =
        visit-made last v.reference _ v.events h.0 a b
        ∙ rw (leb-eq-false v.reference.version w.reference.version h.2, c) refl

    pub visit-older :
        is_delivered last v.reference.version ≡ false
        → is_before last v.reference.version ≡ false
        → is_delivered last w.reference.version ≡ false
        → is_before last w.reference.version ≡ false
        → after_v ≡ ok (older_update v.events w.reference)
    visit-older a b c d =
        visit-made last v.reference _ v.events h.0 a b
        ∙ rw (leb-eq-false v.reference.version w.reference.version h.2, c)
            (rw (d, h.1) (rw (==_refl w.reference.digest) refl))

  -- Later versions have smaller numbers.
  pub older_below :
      (v : Version) (vs : List Version) {u : Version}
      → IsHistory (v ∷ vs)
      → Memᴰ u vs
      → u.reference.version < v.reference.version
  older_below v [] h m = elim m [ ]
  older_below v (w ∷ rest) h (Memᴰ.head e) =
      subst (λ (z : Version). z.reference.version < v.reference.version) (sym e) h.2
  older_below v (w ∷ rest) h (Memᴰ.tail m) =
      let below = older_below w rest h.3 m in omega (arith, h.2)

  pub none_newer :
      (d : ℕ) (v : Version) (vs : List Version)
      → IsHistory (v ∷ vs)
      → v.reference.version ≤ d
      → filter (is_newer_than (some d)) (v ∷ vs) ≡ []
  none_newer d v [] h le = rw (ltb-eq-false d v.reference.version le) refl
  none_newer d v (w ∷ rest) h le =
      rw (ltb-eq-false d v.reference.version le)
        (none_newer d w rest h.3 (let lt = h.2 in omega arith))

  -- The version delivered last is one of these.
  abbrev pub IsKnown : Option ℕ → List Version → Type 0
  IsKnown none vs = Unit {0}
  IsKnown (some delivered) vs = (v : Version) × Memᴰ v vs × (v.reference.version ≡ delivered)

  pub not_delivered : (d n : ℕ) → d < n → ((d == n) ≡ false) × (ltb n d ≡ false)
  not_delivered d n lt = (==_ne d n (λ e. omega arith), ltb-eq-false n d (omega arith))

  -- A known version that is not the newest is one of the others.
  pub IsKnown-older :
      (d : ℕ) (v : Version) (vs : List Version)
      → IsKnown (some d) (v ∷ vs)
      → d ≢ v.reference.version
      → IsKnown (some d) vs
  IsKnown-older d v vs (u, m, e) other = elim m [
    | Memᴰ.head is ↦ absurd (other (sym e ∙ ap (λ (z : Version). z.reference.version) is))
    | Memᴰ.tail n ↦ (u, n, e)
  ]

  pub known-lt :
      (d : ℕ) (v : Version) (vs : List Version)
      → IsHistory (v ∷ vs)
      → IsKnown (some d) vs
      → d < v.reference.version
  known-lt d v vs h (u, m, e) = let lt = older_below v vs h m in omega arith

  pub history_length :
      (v : Version) (vs : List Version)
      → IsHistory (v ∷ vs)
      → length (v ∷ vs) ≤ v.reference.version + 1
  history_length v [] h = omega arith
  history_length v (w ∷ rest) h = let ih = history_length w rest h.3 in let lt = h.2 in omega arith
