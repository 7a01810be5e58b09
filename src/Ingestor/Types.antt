-- ===== src/Ingestor/Types.antt =====
-- The data of sdk/src/sui/events/ingestor.rs and the parts of the node's messages that the driver reads.
-- The observations of the driver are explicit: what a call of the node returned, and whether the task was
-- told to stop first.
use nexus_sdk.Prelude.{ℕ, Bool, true, false, Option, List, Result}

abbrev pub Text : Type 0
Text = List ℕ

-- The status codes of `tonic::Code`.
pub data Code : Type 0 where
  ok_status : Code
  cancelled : Code
  unknown : Code
  invalid_argument : Code
  deadline_exceeded : Code
  not_found : Code
  already_exists : Code
  permission_denied : Code
  resource_exhausted : Code
  failed_precondition : Code
  aborted : Code
  out_of_range : Code
  unimplemented : Code
  internal : Code
  unavailable : Code
  data_loss : Code
  unauthenticated : Code

pub data Operation : Type 0 where
  subscribing : Operation
  establishing : Operation
  receiving : Operation
  requesting_replay : Operation
  receiving_replay : Operation

pub data Fault : Type 0 where
  missing_watermark : Fault
  missing_cursor : Fault
  missing_checkpoint : Fault
  missing_digest : Fault
  invalid_digest : Fault
  missing_event_index : Fault
  no_terminal_frame : Fault
  unsupported_end : Fault

pub data EventIngestionError : Type 0 where
  configuration : EventIngestionError
  rpc : Operation → Code → EventIngestionError
  protocol : Fault → EventIngestionError
  -- checkpoint, transaction digest and index of the event
  decode_failed : ℕ → Text → ℕ → EventIngestionError

-- `EventIngestionError::is_retryable`
unfoldable pub is_retryable : EventIngestionError → Bool
is_retryable (rpc _ cancelled) = true
is_retryable (rpc _ unknown) = true
is_retryable (rpc _ deadline_exceeded) = true
is_retryable (rpc _ resource_exhausted) = true
is_retryable (rpc _ aborted) = true
is_retryable (rpc _ internal) = true
is_retryable (rpc _ unavailable) = true
is_retryable _ = false

pub record Watermark : Type 0 where
  pub checkpoint : Option ℕ
  pub cursor : Option Text

-- An event of the node; the rest of it is read by the query alone.
pub record Event (B : Type 0) : Type 0 where
  pub checkpoint : Option ℕ
  pub transaction_digest : Option Text
  pub event_index : Option ℕ
  pub body : B

pub record Frame (B : Type 0) : Type 0 where
  pub event : Option (Event B)
  pub watermark : Option Watermark

pub record EventPage (T : Type 0) : Type 0 where
  pub events : List T
  pub checkpoint : ℕ

abbrev pub Message : Type 0 → Type 0
Message T = Result EventIngestionError (EventPage T)

-- The mutable state of a run: both checkpoints, and what was put on the channel, the newest first.
pub record State (T : Type 0) : Type 0 where
  pub resume : Option ℕ
  pub highest : Option ℕ
  pub output : List (Message T)

-- A call that may be interrupted: stopped by the token or a closed channel, or with a result.
pub data Observed (A : Type 0) : Type 0 where
  stopped : Observed A
  returned : A → Observed A

-- The next frame of a stream: a failure, its end, or a frame.
pub data Next (A : Type 0) : Type 0 where
  failed : Code → Next A
  ended : Next A
  frame : A → Next A

-- `QueryEndReason`
pub data EndReason : Type 0 where
  cursor_bound : EndReason
  checkpoint_bound : EndReason
  item_limit : EndReason
  scan_limit : EndReason
  ledger_tip : EndReason
  unsupported : EndReason

pub record ReplayFrame (B : Type 0) : Type 0 where
  pub content : Frame B
  pub end_reason : Option EndReason
