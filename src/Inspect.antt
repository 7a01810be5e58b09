-- ===== src/Inspect.antt =====
-- sdk/src/nexus/workflow.rs, the inspection of an execution: the errors and what the node answers. The
-- node, the clock and the decoding of events are the parameter Crawler. Digests, addresses and types are numbers.
use nexus_sdk.Prelude.{
  ℕ, zero, suc, ◌∷◌, Bool, true, false, ◌&&◌, not, Option, none, some, List, [], any, ltb,
  if◌then◌else◌, Result, ok, err, ◌==◌, nat_eq,
}
pub mod Updates
pub mod Poll
pub mod History
pub mod Chain
pub mod Grown
pub mod Delivered
pub mod Completes
pub mod Tests

-- `tonic::Code`
pub data Code : Type 0 where
  unavailable : Code
  deadline_exceeded : Code
  resource_exhausted : Code
  aborted : Code
  not_found : Code
  other_code : Code

-- An `anyhow::Error` by its chain: for each source the code, if the source is a `tonic::Status`.
abbrev pub ErrorChain : Type 0
ErrorChain = List (Option Code)

-- `error.context(..)`
abbrev pub context : ErrorChain → ErrorChain
context error = none ∷ error

-- `anyhow!(..)`
abbrev pub message : ErrorChain
message = none ∷ []

-- Why an inspection fails, for `NexusError`.
pub data Reason : Type 0 where
  latest_object : Reason
  not_shared : Reason
  wrong_type : Reason
  moved_backwards : Reason
  missing_transaction : Reason
  wrong_version : Reason
  not_updated : Reason
  unsupported_output : Reason
  wrong_output_digest : Reason
  undecodable_event : Reason
  chain_ended : Reason
  unsupported_input : Reason
  not_backwards : Reason
  crossed_delivered : Reason
  missing_version : Reason
  wrong_input_digest : Reason
  zero_poll_interval : Reason

pub data NexusError : Type 0 where
  rpc : Reason → ErrorChain → NexusError
  parsing : Reason → NexusError
  configuration : Reason → NexusError
  channel : NexusError
  timeout : NexusError

abbrev pub is_transient_code : Option Code → Bool
is_transient_code (some unavailable) = true
is_transient_code (some deadline_exceeded) = true
is_transient_code (some resource_exhausted) = true
is_transient_code (some aborted) = true
is_transient_code (some not_found) = false
is_transient_code (some other_code) = false
is_transient_code none = false

unfoldable pub is_transient_inspection_error : NexusError → Bool
is_transient_inspection_error (rpc reason error) = any is_transient_code error
is_transient_inspection_error (parsing reason) = false
is_transient_inspection_error (configuration reason) = false
is_transient_inspection_error channel = false
is_transient_inspection_error timeout = false

abbrev pub is_not_found : Option Code → Bool
is_not_found (some not_found) = true
is_not_found (some unavailable) = false
is_not_found (some deadline_exceeded) = false
is_not_found (some resource_exhausted) = false
is_not_found (some aborted) = false
is_not_found (some other_code) = false
is_not_found none = false

unfoldable pub is_transaction_not_found : ErrorChain → Bool
is_transaction_not_found error = any is_not_found error

pub data Owner : Type 0 where
  shared : ℕ → Owner
  other_owner : Owner

pub record ObjectUpdateReference : Type 0 where
  pub owner : Owner
  pub object_type : ℕ
  pub version : ℕ
  pub digest : ℕ
  pub previous_transaction : ℕ

pub data ObjectIn : Type 0 where
  not_exist : ObjectIn
  exist : ℕ → ℕ → ObjectIn
  other_input : ObjectIn

pub data ObjectOut : Type 0 where
  object_write : ℕ → ObjectOut
  other_output : ObjectOut

pub record ChangedObject : Type 0 where
  pub object_id : ℕ
  pub input_state : ObjectIn
  pub output_state : ObjectOut

-- The effects are flattened.
pub record TransactionUpdate : Type 0 where
  pub digest : ℕ
  pub lamport_version : ℕ
  pub changed_objects : List ChangedObject
  pub events : List ℕ

-- The kinds that name an execution, each with the execution, and those that name none.
pub data NexusEventKind : Type 0 where
  execution_payment_fees_recorded : ℕ → NexusEventKind
  execution_payment_tool_cost_snapshotted : ℕ → NexusEventKind
  execution_payment_vertex_locked : ℕ → NexusEventKind
  execution_payment_vertex_settled : ℕ → NexusEventKind
  walk_advanced : ℕ → NexusEventKind
  walk_failed : ℕ → NexusEventKind
  submission_failure_evidence_recorded : ℕ → NexusEventKind
  terminal_err_eval_recorded : ℕ → NexusEventKind
  tool_verification_resolved : ℕ → NexusEventKind
  walk_pending_abort : ℕ → NexusEventKind
  walk_aborted : ℕ → NexusEventKind
  walk_cancelled : ℕ → NexusEventKind
  end_state_reached : ℕ → NexusEventKind
  execution_finished : ℕ → NexusEventKind
  execution_payment_refilled : ℕ → NexusEventKind
  other_kind : NexusEventKind

pub record NexusEvent : Type 0 where
  pub index : ℕ
  pub digest : ℕ
  pub kind : NexusEventKind

unfoldable pub event_execution_id : NexusEventKind → Option ℕ
event_execution_id (execution_payment_fees_recorded e) = some e
event_execution_id (execution_payment_tool_cost_snapshotted e) = some e
event_execution_id (execution_payment_vertex_locked e) = some e
event_execution_id (execution_payment_vertex_settled e) = some e
event_execution_id (walk_advanced e) = some e
event_execution_id (walk_failed e) = some e
event_execution_id (submission_failure_evidence_recorded e) = some e
event_execution_id (terminal_err_eval_recorded e) = some e
event_execution_id (tool_verification_resolved e) = some e
event_execution_id (walk_pending_abort e) = some e
event_execution_id (walk_aborted e) = some e
event_execution_id (walk_cancelled e) = some e
event_execution_id (end_state_reached e) = some e
event_execution_id (execution_finished e) = some e
event_execution_id (execution_payment_refilled e) = some e
event_execution_id other_kind = none

abbrev pub is_finished_kind : NexusEventKind → Bool
is_finished_kind (execution_payment_fees_recorded e) = false
is_finished_kind (execution_payment_tool_cost_snapshotted e) = false
is_finished_kind (execution_payment_vertex_locked e) = false
is_finished_kind (execution_payment_vertex_settled e) = false
is_finished_kind (walk_advanced e) = false
is_finished_kind (walk_failed e) = false
is_finished_kind (submission_failure_evidence_recorded e) = false
is_finished_kind (terminal_err_eval_recorded e) = false
is_finished_kind (tool_verification_resolved e) = false
is_finished_kind (walk_pending_abort e) = false
is_finished_kind (walk_aborted e) = false
is_finished_kind (walk_cancelled e) = false
is_finished_kind (end_state_reached e) = false
is_finished_kind (execution_finished e) = true
is_finished_kind (execution_payment_refilled e) = false
is_finished_kind other_kind = false

abbrev pub is_execution_finished : NexusEvent → Bool
is_execution_finished event = is_finished_kind event.kind

-- What the node answers: to the n-th request for the transaction of a digest and to the request for a version of
-- the object, when a transaction is requested once more (`Instant::now().checked_add(poll_interval)` after the
-- n-th request), and `decode_sui_event`.
pub record Crawler : Type 0 where
  pub get_transaction_update : ℕ → ℕ → Result ErrorChain TransactionUpdate
  pub get_object_update_reference : ℕ → Result ErrorChain ObjectUpdateReference
  pub retry_at : ℕ → ℕ → Option ℕ
  pub decode_sui_event : ℕ → ℕ → ℕ → Result ErrorChain (Option NexusEvent)

abbrev pub max_transaction_not_found_retries : ℕ
max_transaction_not_found_retries = 3
