-- ===== src/Ingestor/Delivery.antt =====
-- The events that the frames of a live stream deliver.
use mathlib.Core.Bool.{false≢true}
use mathlib.Core.List.{append-nil, append_assoc}
use nexus_sdk.Prelude.{
  ℕ, ◌≡◌, refl, sym, ap, ◌∙◌, inl, inr, Bool, true, false, not, ◌||◌, Option, none, some, List, [],
  ◌∷◌, ◌++◌, length, arith, Bool-cases, Result, ok, err, >>=-eq-ok, ok_or, bail_if, ok_injective,
}
use nexus_sdk.Ingestor.Types
use nexus_sdk.Ingestor.Types.{
  Text, EventIngestionError, protocol, Event, Frame, EventPage, Message, State, Watermark, Observed,
  Next,
}
use nexus_sdk.Ingestor.Frames.{
  to_list, is_newer, is_empty, checked_watermark, send, resume_at, send_page, pass_checkpoint,
  read_event, decoded_or, pass_event, event_read, after_checkpoint, after_watermark, process_frame,
}
use nexus_sdk.Ingestor.Driver.{live_loop, live_step, End, waiting}

-- The events on the channel, in the order in which they were sent.
abbrev pub delivered : {T : Type 0} → List (Message T) → List T
delivered [] = []
delivered (err _ ∷ ms) = delivered ms
delivered (ok page ∷ ms) = delivered ms ++ page.events

err-ne_ok : {E A : Type 0} {e : E} {a : A} → Path (Result E A) (err e) (ok a) → ⊥
err-ne_ok h = cc

module _ {T B : Type 0} (decode : Event B → Result Text (Option T)) (is_digest : Text → Bool)
    (accepts : ℕ → Bool) where
  -- What a frame carries for the query.
  abbrev pub values_of : Result Text (Option T) → List T
  values_of (ok decoded) = to_list decoded
  values_of (err _) = []

  abbrev pub decoded_event : Option (Event B) → List T
  decoded_event none = []
  decoded_event (some event) = values_of (decode event)

  abbrev pub decoded_frames : List (Observed (Next (Frame B))) → List T
  decoded_frames [] = []
  decoded_frames (Types.returned (Types.frame f) ∷ rest) =
      decoded_event f.event ++ decoded_frames rest
  decoded_frames (_ ∷ rest) = decoded_frames rest

  -- What a step that went on delivered.
  abbrev Delivers : State T → State T → List T → Type 0
  Delivers s t events = delivered t.output ≡ delivered s.output ++ events

  send_page-Delivers :
      (s : State T) (page : EventPage T)
      → (send_page decode is_digest accepts s page).1 ≡ true
      → Delivers s (send_page decode is_digest accepts s page).0 page.events
  unfolding send_page send
  send_page-Delivers s page = elim (Bool-cases (accepts (length s.output))) [
    | inl taken ↦ rw taken (λ _. refl)
    | inr refused ↦ rw refused (λ h. elim (false≢true h) [ ])
  ]

  new_checkpoint-Delivers :
      (s : State T) (c : ℕ)
      → (pass_checkpoint decode is_digest accepts s (some c)).1 ≡ true
      → Delivers s (pass_checkpoint decode is_digest accepts s (some c)).0 []
  unfolding pass_checkpoint
  new_checkpoint-Delivers s c = elim (Bool-cases (is_newer s.highest c)) [
    | inl new ↦ rw new (
        send_page-Delivers (resume_at decode is_digest accepts s c)
          record { events = []; checkpoint = c })
    | inr old ↦ rw old (λ _. sym (append-nil (delivered s.output)))
  ]

  pass_checkpoint-Delivers :
      (s : State T) (checkpoint : Option ℕ)
      → (pass_checkpoint decode is_digest accepts s checkpoint).1 ≡ true
      → Delivers s (pass_checkpoint decode is_digest accepts s checkpoint).0 []
  unfolding pass_checkpoint
  pass_checkpoint-Delivers s none h = sym (append-nil (delivered s.output))
  pass_checkpoint-Delivers s (some c) h = new_checkpoint-Delivers s c h

  pass_event-Delivers :
      (s : State T) (c : ℕ) (events : List T)
      → (pass_event decode is_digest accepts s c events).1 ≡ true
      → Delivers s (pass_event decode is_digest accepts s c events).0 events
  unfolding pass_event
  pass_event-Delivers s c events =
      elim (Bool-cases (not (is_empty events) || is_newer s.highest c)) [
        | inl new ↦ rw new (
            send_page-Delivers (resume_at decode is_digest accepts s c)
              record { events = events; checkpoint = c })
        | inr old ↦ rw old (λ _. nothing s.output events (ground arith))
      ]
    where
      nothing :
          (ms : List (Message T)) (es : List T)
          → is_empty es ≡ true
          → delivered ms ≡ delivered ms ++ es
      nothing ms [] e = sym (append-nil (delivered ms))
      nothing ms (x ∷ es) e = elim (false≢true e) [ ]

  decoded_or-values :
      (e : EventIngestionError) (r : Result Text (Option T)) {d : Option T}
      → decoded_or decode is_digest accepts e r ≡ ok d
      → to_list d ≡ values_of r
  decoded_or-values e (ok d') h = ap to_list (sym (ok_injective h))
  decoded_or-values e (err _) h = elim (err-ne_ok h) [ ]

  read_event-values :
      (event : Event B) (c : ℕ) (events : List T)
      → read_event decode is_digest accepts event ≡ ok (c, events)
      → events ≡ values_of (decode event)
  unfolding read_event
  read_event-values event c events h =
      let (checkpoint, _, h₁) =
        >>=-eq-ok (ok_or event.checkpoint (protocol Types.missing_checkpoint)) _ h in
      let (digest, _, h₂) =
        >>=-eq-ok (ok_or event.transaction_digest (protocol Types.missing_digest)) _ h₁ in
      let (_, _, h₃) =
        >>=-eq-ok (bail_if (not (is_digest digest)) (protocol Types.invalid_digest)) _ h₂ in
      let (index, _, h₄) =
        >>=-eq-ok (ok_or event.event_index (protocol Types.missing_event_index)) _ h₃ in
      let failure = Types.decode_failed checkpoint digest index in
      let (d, read, h₅) =
        >>=-eq-ok (decoded_or decode is_digest accepts failure (decode event)) _ h₄ in
      ap (λ p. p.1) (sym (ok_injective h₅)) ∙ decoded_or-values failure (decode event) read

  event_read-Delivers :
      (s : State T) (event : Event B) (r : Result EventIngestionError (ℕ × List T))
      → read_event decode is_digest accepts event ≡ r
      → (event_read decode is_digest accepts s r).1 ≡ ok true
      → Delivers s (event_read decode is_digest accepts s r).0 (values_of (decode event))
  event_read-Delivers s event (err e) read h = elim (err-ne_ok h) [ ]
  event_read-Delivers s event (ok (c, events)) read h =
      pass_event-Delivers s c events (ok_injective h)
      ∙ ap (λ es. delivered s.output ++ es) (read_event-values event c events read)

  after_checkpoint-Delivers :
      (s : State T) (p : State T × Bool) (event : Option (Event B))
      → (p.1 ≡ true → Delivers s p.0 [])
      → (after_checkpoint decode is_digest accepts p event).1 ≡ ok true
      → Delivers s (after_checkpoint decode is_digest accepts p event).0 (decoded_event event)
  after_checkpoint-Delivers s (t, false) event first h = elim (false≢true (ok_injective h)) [ ]
  after_checkpoint-Delivers s (t, true) none first h = first refl
  after_checkpoint-Delivers s (t, true) (some event) first h =
      event_read-Delivers t event (read_event decode is_digest accepts event) refl h
      ∙ ap (λ es. es ++ values_of (decode event)) (first refl ∙ append-nil (delivered s.output))

  after_watermark-Delivers :
      (s : State T) (r : Result EventIngestionError Watermark) (event : Option (Event B))
      → (after_watermark decode is_digest accepts s r event).1 ≡ ok true
      → Delivers s (after_watermark decode is_digest accepts s r event).0 (decoded_event event)
  after_watermark-Delivers s (err e) event h = elim (err-ne_ok h) [ ]
  after_watermark-Delivers s (ok watermark) event h =
      after_checkpoint-Delivers s (pass_checkpoint decode is_digest accepts s watermark.checkpoint)
        event (pass_checkpoint-Delivers s watermark.checkpoint) h

  process_frame-Delivers :
      (s : State T) (f : Frame B)
      → (process_frame decode is_digest accepts s f).1 ≡ ok true
      → Delivers s (process_frame decode is_digest accepts s f).0 (decoded_event f.event)
  unfolding process_frame
  process_frame-Delivers s f h =
      after_watermark-Delivers s (checked_watermark f.watermark) f.event h

  live_step_waiting :
      (p : State T × Result EventIngestionError Bool) (next : State T × End)
      → (live_step p next).1 ≡ waiting
      → (p.1 ≡ ok true) × (live_step p next ≡ next) × (next.1 ≡ waiting)
  live_step_waiting (t, err e) next h = ground arith
  live_step_waiting (t, ok false) next h = ground arith
  live_step_waiting (t, ok true) next h = (refl, refl, h)

-- While the live stream goes on, every event is delivered once and in order: what is on the channel after
-- the frames is what was there before and then exactly the values that the query decodes from the frames,
-- with no event lost, doubled or moved.
pub live_loop_delivers :
    {T B : Type 0} (decode : Event B → Result Text (Option T)) (is_digest : Text → Bool)
    (accepts : ℕ → Bool) (s : State T) (frames : List (Observed (Next (Frame B))))
    → (live_loop decode is_digest accepts s frames).1 ≡ waiting
    → delivered (live_loop decode is_digest accepts s frames).0.output
      ≡ delivered s.output ++ decoded_frames decode is_digest accepts frames
unfolding live_loop
live_loop_delivers decode is_digest accepts s [] h = sym (append-nil (delivered s.output))
live_loop_delivers decode is_digest accepts s (Types.stopped ∷ rest) h = ground arith
live_loop_delivers decode is_digest accepts s (Types.returned (Types.failed code) ∷ rest) h =
    ground arith
live_loop_delivers decode is_digest accepts s (Types.returned Types.ended ∷ rest) h = ground arith
live_loop_delivers decode is_digest accepts s (Types.returned (Types.frame f) ∷ rest) h =
    let p = process_frame decode is_digest accepts s f in
    let next = live_loop decode is_digest accepts p.0 rest in
    let (went_on, is, later) = live_step_waiting decode is_digest accepts p next h in
    let here = process_frame-Delivers decode is_digest accepts s f went_on in
    ap (λ r. delivered r.0.output) is
    ∙ live_loop_delivers decode is_digest accepts p.0 rest later
    ∙ ap (λ es. es ++ decoded_frames decode is_digest accepts rest) here
    ∙ append_assoc (delivered s.output) (decoded_event decode is_digest accepts f.event)
        (decoded_frames decode is_digest accepts rest)
