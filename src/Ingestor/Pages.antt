-- ===== src/Ingestor/Pages.antt =====
-- What every page that a frame sends keeps, every frame keeps.
use nexus_sdk.Prelude.{
  ℕ, ◌≡◌, inl, inr, Bool, true, false, not, ◌||◌, Option, none, some, List, [], arith, Bool-cases,
  Result, ok, err,
}
use nexus_sdk.Ingestor.Types.{Text, EventIngestionError, Event, Frame, EventPage, State, Watermark}
use nexus_sdk.Ingestor.Frames.{
  is_newer, is_empty, checked_watermark, resume_at, send_page, pass_checkpoint, read_event,
  pass_event, event_read, after_checkpoint, after_watermark, process_frame,
}

-- The pages that `process_frame` sends have events or report a new checkpoint.
module _ {T B : Type 0} (decode : Event B → Result Text (Option T)) (is_digest : Text → Bool)
    (accepts : ℕ → Bool) (P : State T → Type 0)
    (resume_keeps : (s : State T) (c : ℕ) → P s → P (resume_at decode is_digest accepts s c))
    (page_keeps : (s : State T) (page : EventPage T)
      → P s
      → (is_empty page.events ≡ true → is_newer s.highest page.checkpoint ≡ true)
      → P (send_page decode is_digest accepts s page).0) where
  pass_checkpoint-keeps :
      (s : State T) (checkpoint : Option ℕ)
      → P s
      → P (pass_checkpoint decode is_digest accepts s checkpoint).0
  unfolding pass_checkpoint
  pass_checkpoint-keeps s none h = h
  pass_checkpoint-keeps s (some c) h = elim (Bool-cases (is_newer s.highest c)) [
    | inl new ↦ rw new (
        page_keeps (resume_at decode is_digest accepts s c) record { events = []; checkpoint = c }
          (resume_keeps s c h) (λ _. new))
    | inr old ↦ rw old (resume_keeps s c h)
  ]

  or_false : (a b : Bool) → (not a || b) ≡ true → a ≡ true → b ≡ true
  or_false a b h e = ground arith

  pass_event-keeps :
      (s : State T) (checkpoint : ℕ) (events : List T)
      → P s
      → P (pass_event decode is_digest accepts s checkpoint events).0
  unfolding pass_event
  pass_event-keeps s c events h =
      elim (Bool-cases (not (is_empty events) || is_newer s.highest c)) [
        | inl new ↦ rw new (
            page_keeps (resume_at decode is_digest accepts s c)
              record { events = events; checkpoint = c } (resume_keeps s c h)
              (or_false (is_empty events) (is_newer s.highest c) new))
        | inr old ↦ rw old (resume_keeps s c h)
      ]

  event_read-keeps :
      (s : State T) (r : Result EventIngestionError (ℕ × List T))
      → P s
      → P (event_read decode is_digest accepts s r).0
  event_read-keeps s (err e) h = h
  event_read-keeps s (ok (c, events)) h = pass_event-keeps s c events h

  after_checkpoint-keeps :
      (p : State T × Bool) (event : Option (Event B))
      → P p.0
      → P (after_checkpoint decode is_digest accepts p event).0
  after_checkpoint-keeps (s, false) event h = h
  after_checkpoint-keeps (s, true) none h = h
  after_checkpoint-keeps (s, true) (some event) h =
      event_read-keeps s (read_event decode is_digest accepts event) h

  after_watermark-keeps :
      (s : State T) (r : Result EventIngestionError Watermark) (event : Option (Event B))
      → P s
      → P (after_watermark decode is_digest accepts s r event).0
  after_watermark-keeps s (err e) event h = h
  after_watermark-keeps s (ok watermark) event h =
      after_checkpoint-keeps (pass_checkpoint decode is_digest accepts s watermark.checkpoint) event
        (pass_checkpoint-keeps s watermark.checkpoint h)

  pub process_frame-keeps :
      (s : State T) (frame : Frame B) → P s → P (process_frame decode is_digest accepts s frame).0
  unfolding process_frame
  process_frame-keeps s frame h =
      after_watermark-keeps s (checked_watermark frame.watermark) frame.event h
