-- ===== src/Inspect/Grown.antt =====
-- Observations of an execution whose history grows, and what an inspection has sent of it.
use mathlib.Core.Path.{subst}
use mathlib.Core.List.{append_assoc, append-nil}
use mathlib.Core.List.Memᴰ
use nexus_sdk.Prelude.{
  ℕ, ◌+◌, ◌≡◌, refl, sym, ap, ◌∙◌, ◌⊎◌, inl, inr, true, false, Option, none, some, List, [], ◌∷◌,
  ◌++◌, Memᴰ, arith, any, filter, All, lt→ltb, ok, err, nat_eq,
}
use nexus_sdk.Inspect.{
  ErrorChain, context, latest_object, NexusError, rpc, timeout, is_transient_inspection_error,
  ObjectUpdateReference, NexusEvent, is_execution_finished, Crawler,
}
use nexus_sdk.Inspect.Updates.{fetch_execution_update_events}
use nexus_sdk.Inspect.History.{
  Version, chronological, is_newer_than, filter_all, IsHistory, IsKnown, older_below, none_newer,
}
use nexus_sdk.Inspect.Poll.{Observation, Inspected}

pub chronological-append :
    (ks vs : List Version) → chronological (ks ++ vs) ≡ chronological vs ++ chronological ks
chronological-append [] vs = sym (append-nil (chronological vs))
chronological-append (k ∷ ks) vs =
    ap (λ es. es ++ k.events) (chronological-append ks vs)
    ∙ append_assoc (chronological vs) (chronological ks) k.events

module _ (id expected_type deadline : ℕ) where
  -- The node fails for a while, whatever the inspection knows.
  abbrev pub IsDown : Crawler → ObjectUpdateReference → Type 0
  IsDown crawler latest =
      (last : Option ℕ)
      → (error : NexusError) × (fetch_execution_update_events crawler id expected_type deadline last
            (latest.version + 1) latest
          ≡ some (err error))
        × (is_transient_inspection_error error ≡ true)

  -- The node does not give the latest version, for a while.
  abbrev pub IsUnseen : Observation → Type 0
  IsUnseen seen =
      (error : ErrorChain) × (seen.latest ≡ err error)
      × (is_transient_inspection_error (rpc latest_object (context error)) ≡ true)

  -- The node gives the newest version of a history, which it has whenever it is not down; all is received.
  pub record IsServed (v : Version) (vs : List Version) (seen : Observation) : Type 0 where
    pub is_latest : seen.latest ≡ ok v.reference
    pub served :
        All
          (λ crawler.
            IsDown crawler v.reference ⊎ IsHistory crawler id expected_type deadline (v ∷ vs))
          seen.crawlers
    pub is_open : seen.closed_after ≡ none

  -- The observations of a history that grows from the first to the second.
  abbrev pub Grows : List Version → List Observation → List Version → Type 0
  Grows before [] now = before ≡ now
  Grows before (seen ∷ rest) now =
      (IsUnseen seen × Grows before rest now)
      ⊎ ((ks : List Version) × (v : Version) × (vs : List Version) × (v ∷ vs ≡ ks ++ before)
          × IsServed v vs seen
          × Grows (v ∷ vs) rest now)

  -- What is sent is the events of the history in order, up to some version; the inspection ends well with the event
  -- that the execution is finished, or else at the deadline.
  pub record IsDelivered (o : Inspected) (now : List Version) : Type 0 where
    pub missing : List NexusEvent
    pub split : chronological now ≡ o.sent ++ missing
    pub ended :
        ((o.end ≡ ok tt) × (any is_execution_finished o.sent ≡ true))
        ⊎ ((o.end ≡ err timeout) × (any is_execution_finished o.sent ≡ false))

  pub Grows-extends :
      (before now : List Version) (seen : List Observation)
      → Grows before seen now
      → (ks : List Version) × (now ≡ ks ++ before)
  Grows-extends before now [] g = ([], sym g)
  Grows-extends before now (p ∷ rest) (inl (_, g)) = Grows-extends before now rest g
  Grows-extends before now (p ∷ rest) (inr (ks, v, vs, is, _, g)) =
      let (js, e) = Grows-extends (v ∷ vs) now rest g in
      (js ++ ks, e ∙ ap (λ l. js ++ l) is ∙ sym (append_assoc js ks before))

  -- What is sent and the version delivered last fit the history.
  abbrev pub Synced : List Version → List NexusEvent → Option ℕ → Type 0
  Synced before sent none = sent ≡ []
  Synced before sent (some d) =
      (ks : List Version) × (u : Version) × (us : List Version) × (before ≡ ks ++ u ∷ us)
      × (u.reference.version ≡ d)
      × (sent ≡ chronological (u ∷ us))

  pub Synced-grows :
      (before ks : List Version) (sent : List NexusEvent) (last : Option ℕ)
      → Synced before sent last
      → Synced (ks ++ before) sent last
  Synced-grows before ks sent none h = h
  Synced-grows before ks sent (some d) (js, u, us, is, e, s) =
      (ks ++ js, u, us, ap (λ l. ks ++ l) is ∙ sym (append_assoc ks js (u ∷ us)), e, s)

  pub Synced-split :
      (before : List Version) (sent : List NexusEvent) (last : Option ℕ)
      → Synced before sent last
      → (missing : List NexusEvent) × (chronological before ≡ sent ++ missing)
  Synced-split before sent none h = (chronological before, rw h refl)
  Synced-split before sent (some d) (js, u, us, is, e, s) = (
    chronological js,
    ap chronological is
        ∙ chronological-append js (u ∷ us)
        ∙ ap (λ l. l ++ chronological js) (sym s),
  )

  pub Synced-IsKnown :
      (v : Version) (vs : List Version) (sent : List NexusEvent) (last : Option ℕ)
      (crawler : Crawler)
      → Synced (v ∷ vs) sent last
      → IsKnown crawler id expected_type deadline last (v ∷ vs)
  Synced-IsKnown v vs sent none crawler h = tt
  Synced-IsKnown v vs sent (some d) crawler (js, u, us, is, e, s) =
      (u, subst (Memᴰ u) (sym is) (Memᴰ.append_right js (Memᴰ.head refl)), e)

  filter-append :
      (crawler : Crawler) (js : List Version) (u : Version) (us : List Version)
      → IsHistory crawler id expected_type deadline (js ++ u ∷ us)
      → filter (is_newer_than (some u.reference.version)) (js ++ u ∷ us) ≡ js
  filter-append crawler [] u us h =
      none_newer crawler id expected_type deadline u.reference.version u us h (omega arith)
  filter-append crawler (x ∷ []) u us h =
      rw (lt→ltb u.reference.version x.reference.version h.2)
        (ap (λ l. x ∷ l) (filter-append crawler [] u us h.3))
  filter-append crawler (x ∷ y ∷ js) u us h =
      let lt =
        older_below crawler id expected_type deadline x (y ∷ js ++ u ∷ us) h
          (Memᴰ.append_right (y ∷ js) (Memᴰ.head refl)) in
      rw (lt→ltb u.reference.version x.reference.version lt)
        (ap (λ l. x ∷ l) (filter-append crawler (y ∷ js) u us h.3))

  -- With the events of the newer versions, all are sent.
  pub caught_up :
      (crawler : Crawler) (v : Version) (vs : List Version) (sent : List NexusEvent)
      (last : Option ℕ)
      → IsHistory crawler id expected_type deadline (v ∷ vs)
      → Synced (v ∷ vs) sent last
      → sent ++ chronological (filter (is_newer_than last) (v ∷ vs)) ≡ chronological (v ∷ vs)
  caught_up crawler v vs sent none h s = rw s (ap chronological (filter_all (v ∷ vs)))
  caught_up crawler v vs sent (some d) h (js, u, us, is, e, s) =
      let newer =
        filter-append crawler js u us (subst (IsHistory crawler id expected_type deadline) is h) in
      ap (λ l. l ++ chronological (filter (is_newer_than (some d)) (v ∷ vs))) s
      ∙ ap (λ l. chronological (u ∷ us) ++ chronological l)
          (ap (λ (n : ℕ). filter (is_newer_than (some n)) (v ∷ vs)) (sym e)
            ∙ ap (filter (is_newer_than (some u.reference.version))) is
            ∙ newer)
      ∙ sym (chronological-append js (u ∷ us))
      ∙ ap chronological (sym is)
