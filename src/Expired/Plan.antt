-- ===== src/Expired/Plan.antt =====
-- sdk/src/nexus/workflow.rs: what is done about one walk whose timeout is over.
use nexus_sdk.Prelude.{
  ℕ, Bool, true, false, ◌&&◌, Option, none, some, List, [], ◌∷◌, any, get_elem?, if◌then◌else◌,
  Result, ok, ◌>>=◌, ok_or, lookup, ◌==◌, nat_eq,
}
use nexus_sdk.Expired.{
  Bytes, RuntimeVertex, vertex, DagWalk, active, pending_settlement, successful, failed, consumed,
  aborted, pending_abort, cancelled, timeout_expired_vertex, abortable_timeout_expired_vertex,
  tool_fqn, ObjectReference, ToolRef, http, sui, OnchainToolResult, ExpiryError, vertex_missing,
  missing_finalize_tx_digest, Chain, Encoding, ToolGasAbortCandidate,
}
use nexus_sdk.Expired.Candidates.{
  VertexLock, vertex_lock, fetch_tool_gas_refs_for_abort_candidates,
  select_tool_gas_abort_candidate,
}

pub data OnchainToolResultState : Type 0 where
  no_result : OnchainToolResultState
  finalized_result : OnchainToolResult → ObjectReference → OnchainToolResultState
  committed_result : ℕ → OnchainToolResultState
  insufficient_settlement : Option ℕ → List ℕ → OnchainToolResultState
  invalid_empty : ℕ → ObjectReference → OnchainToolResultState

pub data SkipReason : Type 0 where
  walk_gone : SkipReason
  not_double_timeout_expired : SkipReason
  already_terminal : SkipReason
  insufficiently_settled : SkipReason
  not_finalized : ℕ → ObjectReference → SkipReason
  not_abortable : ℕ → SkipReason
  non_sui_tool : ℕ → SkipReason

pub data ExpiredWalkResolutionKind : Type 0 where
  settled : ExpiredWalkResolutionKind
  settled_onchain_result : ObjectReference → RuntimeVertex → ℕ → Bytes → ExpiredWalkResolutionKind
  aborted_walk : ExpiredWalkResolutionKind
  aborted_with_tool_gas : ToolGasAbortCandidate → ExpiredWalkResolutionKind
  skipped : SkipReason → ExpiredWalkResolutionKind

abbrev pub has_some {ℓ} : {A : Type ℓ} → Option A → Bool
has_some none = false
has_some (some _) = true

unfoldable pub onchain_tool_result_is_finalized : OnchainToolResult → Bool
onchain_tool_result_is_finalized result =
    result.finalized
    && has_some result.tag
    && has_some result.named_payload
    && has_some result.finalize_tx_digest
    && has_some result.finalize_recipient

unfoldable pub unresolved_timeout_skip_reason : DagWalk → SkipReason
unresolved_timeout_skip_reason (active next timeout grant created) = not_double_timeout_expired
unresolved_timeout_skip_reason (pending_settlement next timeout grant created) =
    not_double_timeout_expired
unresolved_timeout_skip_reason successful = already_terminal
unresolved_timeout_skip_reason failed = already_terminal
unresolved_timeout_skip_reason (consumed v) = already_terminal
unresolved_timeout_skip_reason (aborted v) = already_terminal
unresolved_timeout_skip_reason (pending_abort v) = already_terminal
unresolved_timeout_skip_reason cancelled = already_terminal

module _ (E : Encoding) (chain : Chain) (execution_id : ℕ) where
  -- The state of the stored result of an id, if there is one.
  abbrev pub state_of_result : Option ℕ → Result ExpiryError OnchainToolResultState
  state_of_result none = ok no_result
  state_of_result (some result_id) = do
    (result, object_ref) ← chain.onchain_result result_id
    ok (
        if onchain_tool_result_is_finalized result
        then finalized_result result object_ref
        else invalid_empty result_id object_ref)

  abbrev pub state_of_committed : ℕ → Option ℕ → Result ExpiryError OnchainToolResultState
  state_of_committed walk_index (some committed) = ok (committed_result committed)
  state_of_committed walk_index none = do id ← chain.result_id walk_index; state_of_result id

  abbrev pub state_of_marker :
      ℕ → Option ℕ → Option (List ℕ) → Result ExpiryError OnchainToolResultState
  state_of_marker walk_index committed none = state_of_committed walk_index committed
  state_of_marker walk_index committed (some walks) =
      let other = state_of_committed walk_index committed in
      if any (λ w. w == walk_index) walks
      then ok (insufficient_settlement committed walks)
      else other

  unfoldable pub fetch_onchain_tool_result_state_for_walk :
      ℕ → Result ExpiryError OnchainToolResultState
  fetch_onchain_tool_result_state_for_walk walk_index = do
    committed ← chain.committed walk_index
    marker ← chain.insufficient_settlement
    state_of_marker walk_index committed marker

  abbrev pub kind_of_tool :
      RuntimeVertex
      → OnchainToolResult
      → ObjectReference
      → ToolRef
      → Result ExpiryError ExpiredWalkResolutionKind
  kind_of_tool v result object_ref http = ok (skipped (non_sui_tool (vertex v)))
  kind_of_tool v result object_ref (sui witness_id) = do
    digest ← ok_or result.finalize_tx_digest missing_finalize_tx_digest
    ok (settled_onchain_result object_ref v witness_id digest)

  unfoldable pub finalized_onchain_result_resolution_kind :
      ℕ
      → RuntimeVertex
      → OnchainToolResult
      → ObjectReference
      → Result ExpiryError ExpiredWalkResolutionKind
  finalized_onchain_result_resolution_kind dag_id v result object_ref = do
    vertices ← chain.dag_vertices dag_id
    kind ← ok_or (lookup (vertex v) vertices) (vertex_missing (vertex v))
    fqn ← tool_fqn kind
    tool_id ← E.derive_tool_id fqn
    reference ← chain.tool tool_id
    kind_of_tool v result object_ref reference

  -- The walk has no result, and is aborted: with the gas of a tool, if its vertex is locked.
  abbrev pub abort_kind :
      ℕ → RuntimeVertex → Option ℕ → VertexLock → Result ExpiryError ExpiredWalkResolutionKind
  abort_kind walk_index v tool_gas_id lock =
      let with_gas = (do
        candidates ← fetch_tool_gas_refs_for_abort_candidates E chain (
            (
              lock.fqn,
              record { walk_index = walk_index; runtime_vertex = v; payment_vertex_key = lock.key }
                  ∷ [],
            )
            ∷ [])
        candidate ← select_tool_gas_abort_candidate candidates tool_gas_id
        ok (aborted_with_tool_gas candidate)) in
      if lock.locked then with_gas else ok aborted_walk

  abbrev pub kind_without_result :
      ℕ
      → ℕ
      → RuntimeVertex
      → Option ℕ
      → Option RuntimeVertex
      → Result ExpiryError ExpiredWalkResolutionKind
  kind_without_result dag_id walk_index expired tool_gas_id none =
      ok (skipped (not_abortable (vertex expired)))
  kind_without_result dag_id walk_index expired tool_gas_id (some v) = do
    locks ← chain.locked_vertices
    vertices ← chain.dag_vertices dag_id
    lock ← vertex_lock E execution_id vertices locks v
    abort_kind walk_index v tool_gas_id lock

  abbrev pub kind_of_state :
      ℕ
      → ℕ
      → RuntimeVertex
      → Option ℕ
      → Option RuntimeVertex
      → OnchainToolResultState
      → Result ExpiryError ExpiredWalkResolutionKind
  kind_of_state dag_id walk_index expired tool_gas_id abortable (committed_result committed) =
      ok settled
  kind_of_state dag_id walk_index expired tool_gas_id abortable
        (finalized_result result object_ref) =
      finalized_onchain_result_resolution_kind dag_id expired result object_ref
  kind_of_state dag_id walk_index expired tool_gas_id abortable
        (insufficient_settlement committed walks) =
      ok (skipped insufficiently_settled)
  kind_of_state dag_id walk_index expired tool_gas_id abortable
        (invalid_empty result_id object_ref) =
      ok (skipped (not_finalized result_id object_ref))
  kind_of_state dag_id walk_index expired tool_gas_id abortable no_result =
      kind_without_result dag_id walk_index expired tool_gas_id abortable

  abbrev pub kind_of_expired :
      ℕ
      → ℕ
      → DagWalk
      → Option ℕ
      → ℕ
      → Option RuntimeVertex
      → Result ExpiryError ExpiredWalkResolutionKind
  kind_of_expired dag_id walk_index walk tool_gas_id clock_ms none =
      ok (skipped (unresolved_timeout_skip_reason walk))
  kind_of_expired dag_id walk_index walk tool_gas_id clock_ms (some expired) = do
    state ← fetch_onchain_tool_result_state_for_walk walk_index
    kind_of_state dag_id walk_index expired tool_gas_id
        (abortable_timeout_expired_vertex walk clock_ms) state

  abbrev pub kind_of_walk :
      ℕ → ℕ → Option ℕ → ℕ → Option DagWalk → Result ExpiryError ExpiredWalkResolutionKind
  kind_of_walk dag_id walk_index tool_gas_id clock_ms none = ok (skipped walk_gone)
  kind_of_walk dag_id walk_index tool_gas_id clock_ms (some walk) =
      kind_of_expired dag_id walk_index walk tool_gas_id clock_ms
        (timeout_expired_vertex walk clock_ms)

  -- The kind of the plan of `inspect_expired_walk_resolution_at`; its other fields are the arguments.
  unfoldable pub inspect_expired_walk_resolution_at :
      ℕ → Option ℕ → ℕ → Result ExpiryError ExpiredWalkResolutionKind
  inspect_expired_walk_resolution_at walk_index tool_gas_id clock_ms = do
    execution ← chain.execution
    kind_of_walk execution.dag_id walk_index tool_gas_id clock_ms
        (get_elem? execution.walks walk_index)
