-- ===== src/Ingestor/Frames.antt =====
-- One frame: `process_frame` of sdk/src/sui/events/driver.rs. The query's `decode` and the test of a
-- digest are parameters, and `accepts n` says whether the channel takes the message after n others. A frame
-- may change the state and fail after that, so both are returned.
use nexus_sdk.Prelude.{
  ℕ, Bool, true, false, not, ◌||◌, Option, none, some, List, [], ◌∷◌, length, ltb, if◌then◌else◌,
  Result, ok, err, ◌>>=◌, ◌>>◌, bail_if, ok_or,
}
use nexus_sdk.Ingestor.Types.{
  Text, EventIngestionError, protocol, decode_failed, missing_watermark, missing_cursor,
  missing_checkpoint, missing_digest, invalid_digest, missing_event_index, Watermark, Event, Frame,
  EventPage, Message, State,
}

-- `checkpoint.is_none_or(|current| candidate > current)`
abbrev pub is_newer : Option ℕ → ℕ → Bool
is_newer none candidate = true
is_newer (some current) candidate = ltb current candidate

unfoldable pub advance_checkpoint : Option ℕ → ℕ → Option ℕ
advance_checkpoint checkpoint candidate =
    if is_newer checkpoint candidate then some candidate else checkpoint

abbrev pub is_empty : {A : Type 0} → List A → Bool
is_empty [] = true
is_empty (_ ∷ _) = false

-- `response_cursor`
abbrev pub response_cursor : Option Watermark → Result EventIngestionError Text
response_cursor none = err (protocol missing_cursor)
response_cursor (some watermark) = ok_or watermark.cursor (protocol missing_cursor)

-- `watermark.ok_or_else(..)?`, and the test of its cursor.
unfoldable pub checked_watermark : Option Watermark → Result EventIngestionError Watermark
checked_watermark none = err (protocol missing_watermark)
checked_watermark (some watermark) = do
  cursor ← ok_or watermark.cursor (protocol missing_cursor)
  ok watermark

-- `event.into_iter().collect()`
abbrev pub to_list : {A : Type 0} → Option A → List A
to_list none = []
to_list (some a) = a ∷ []

module _ {T B : Type 0} (decode : Event B → Result Text (Option T)) (is_digest : Text → Bool)
    (accepts : ℕ → Bool) where
  -- Puts a message on the channel, if the channel takes it.
  unfoldable pub send : State T → Message T → State T × Bool
  send s message =
      if accepts (length s.output)
      then (record { resume = s.resume; highest = s.highest; output = message ∷ s.output }, true)
      else (s, false)

  abbrev pub resume_at : State T → ℕ → State T
  resume_at s checkpoint = record {
    resume = advance_checkpoint s.resume checkpoint;
    highest = s.highest;
    output = s.output;
  }

  abbrev pub raise_highest : ℕ → State T × Bool → State T × Bool
  raise_highest checkpoint (s, false) = (s, false)
  raise_highest checkpoint (s, true) = (
    record {
      resume = s.resume;
      highest = advance_checkpoint s.highest checkpoint;
      output = s.output;
    },
    true,
  )

  -- Sends a page, and raises the highest checkpoint of the output if it was taken.
  unfoldable pub send_page : State T → EventPage T → State T × Bool
  send_page s page = raise_highest page.checkpoint (send s (ok page))

  -- The page of a position: sent empty, if the position is new.
  unfoldable pub pass_checkpoint : State T → Option ℕ → State T × Bool
  pass_checkpoint s none = (s, true)
  pass_checkpoint s (some checkpoint) =
      let sent =
        send_page (resume_at s checkpoint) record { events = []; checkpoint = checkpoint } in
      if is_newer s.highest checkpoint then sent else (resume_at s checkpoint, true)

  abbrev pub decoded_or :
      EventIngestionError → Result Text (Option T) → Result EventIngestionError (Option T)
  decoded_or e (ok decoded) = ok decoded
  decoded_or e (err _) = err e

  -- The checks of an event and its decoding: its checkpoint and what it decodes to.
  unfoldable pub read_event : Event B → Result EventIngestionError (ℕ × List T)
  read_event event = do
    checkpoint ← ok_or event.checkpoint (protocol missing_checkpoint)
    digest ← ok_or event.transaction_digest (protocol missing_digest)
    bail_if (not (is_digest digest)) (protocol invalid_digest)
    index ← ok_or event.event_index (protocol missing_event_index)
    decoded ← decoded_or (decode_failed checkpoint digest index) (decode event)
    ok (checkpoint, to_list decoded)

  -- The page of an event: sent if the event decodes to something, or its position is new.
  unfoldable pub pass_event : State T → ℕ → List T → State T × Bool
  pass_event s checkpoint events =
      let sent =
        send_page (resume_at s checkpoint) record { events = events; checkpoint = checkpoint } in
      if not (is_empty events) || is_newer s.highest checkpoint
      then sent
      else (resume_at s checkpoint, true)

  abbrev pub event_read :
      State T → Result EventIngestionError (ℕ × List T) → State T × Result EventIngestionError Bool
  event_read s (err e) = (s, err e)
  event_read s (ok (checkpoint, events)) =
      let (t, taken) = pass_event s checkpoint events in (t, ok taken)

  abbrev pub after_checkpoint :
      State T × Bool → Option (Event B) → State T × Result EventIngestionError Bool
  after_checkpoint (s, false) event = (s, ok false)
  after_checkpoint (s, true) none = (s, ok true)
  after_checkpoint (s, true) (some event) = event_read s (read_event event)

  abbrev pub after_watermark :
      State T
      → Result EventIngestionError Watermark
      → Option (Event B)
      → State T × Result EventIngestionError Bool
  after_watermark s (err e) event = (s, err e)
  after_watermark s (ok watermark) event =
      after_checkpoint (pass_checkpoint s watermark.checkpoint) event

  unfoldable pub process_frame : State T → Frame B → State T × Result EventIngestionError Bool
  process_frame s frame = after_watermark s (checked_watermark frame.watermark) frame.event
