-- ===== src/Expired/Tests.antt =====
-- An execution with a walk that waits for twice its timeout, for a tool that is paid for.
use nexus_sdk.Prelude.{◌+◌, ◌≡◌, refl, false, none, some, [], ◌∷◌, ◌++◌, ok, err, lookup}
use nexus_sdk.Prelude.Decimal.{print_uint, parse_uint}
use nexus_sdk.ToolFqn.{ToolFqn, captures, from_str, to_string}
use nexus_sdk.Expired.{
  plain, vertex, active, successful, off_chain, ExecutionPaymentVertexLock, rpc, Chain, Encoding,
  timeout_expired_vertex, abortable_timeout_expired_vertex, payment_vertex_domain,
  payment_vertex_key, ToolGasAbortCandidate,
}
use nexus_sdk.Expired.Candidates.{
  vertex_lock, filter_tool_gas_abort_candidate_walks, fetch_ref,
  fetch_tool_gas_refs_for_abort_candidates, select_tool_gas_abort_candidate,
  abort_expired_execution_tool_gas_candidates, candidate_to_abort_with,
}
use nexus_sdk.Expired.Plan.{
  aborted_with_tool_gas, fetch_onchain_tool_result_state_for_walk,
  inspect_expired_walk_resolution_at, skipped, not_double_timeout_expired,
  unresolved_timeout_skip_reason,
}
use nexus_sdk.Expired.Abortable.{IsAborted, inspect_expired_walk_resolution_at-IsAborted}
use nexus_sdk.Expired.Executable.{plan-candidate_to_abort_with}

abbrev runs : Unit {0}
unfolding timeout_expired_vertex abortable_timeout_expired_vertex unresolved_timeout_skip_reason
    payment_vertex_key vertex_lock filter_tool_gas_abort_candidate_walks fetch_ref
    fetch_tool_gas_refs_for_abort_candidates select_tool_gas_abort_candidate
    abort_expired_execution_tool_gas_candidates candidate_to_abort_with
    fetch_onchain_tool_result_state_for_walk inspect_expired_walk_resolution_at lookup from_str
    captures to_string print_uint parse_uint
runs = tt

abbrev tool : ToolFqn
tool = record {
  domain = b'x' ∷ b'y' ∷ b'.' ∷ b'a' ∷ b'b' ∷ [];
  name = b'c' ∷ b'd' ∷ [];
  version = 3;
}

abbrev encoding : Encoding
encoding = record {
  sha256 = λ bytes. bytes;
  address_to_bytes = λ address. ok (address ∷ []);
  vertex_to_bytes = λ v. ok (vertex v ∷ []);
  derive_tool_id = λ fqn. ok fqn.version;
  derive_tool_gas_id = λ fqn. ok (fqn.version + 40);
}

abbrev paid : ExecutionPaymentVertexLock
paid = record {
  vertex_key = payment_vertex_domain ++ 9 ∷ 5 ∷ to_string tool;
  tool_fqn = to_string tool;
}

abbrev chain : Chain
chain = record {
  execution = ok record { dag_id = 1; walks = successful ∷ active (plain 5) 10 false 100 ∷ [] };
  committed = λ _. ok none;
  insufficient_settlement = ok none;
  result_id = λ _. ok none;
  onchain_result = λ id. err (rpc id);
  dag_vertices = λ _. ok ((5, off_chain (to_string tool)) ∷ []);
  locked_vertices = ok (paid ∷ []);
  tool = λ id. err (rpc id);
  object_ref = λ id. ok record { object_id = id; version = 1; digest = 0 };
}

abbrev candidate : ToolGasAbortCandidate
candidate = record {
  fqn = tool;
  tool_gas_ref = record { object_id = 43; version = 1; digest = 0 };
  matching_walks =
      record { walk_index = 1; runtime_vertex = plain 5; payment_vertex_key = paid.vertex_key }
      ∷ [];
}

planned :
    inspect_expired_walk_resolution_at encoding chain 9 1 none 120
    ≡ ok (aborted_with_tool_gas candidate)
unfolding runs
planned = refl

listed : abort_expired_execution_tool_gas_candidates encoding chain 9 120 ≡ ok (candidate ∷ [])
unfolding runs
listed = refl

-- A millisecond earlier the walk is left alone.
too_early :
    inspect_expired_walk_resolution_at encoding chain 9 1 none 119
    ≡ ok (skipped not_double_timeout_expired)
unfolding runs
too_early = refl

inspect_expired_walk_resolution_at-IsAborted_example :
    IsAborted encoding chain 9 1 none 120 (aborted_with_tool_gas candidate)
inspect_expired_walk_resolution_at-IsAborted_example =
    inspect_expired_walk_resolution_at-IsAborted encoding chain 9 1 none 120
      (aborted_with_tool_gas candidate) planned refl

plan-candidate_to_abort_with_example :
    (d : ToolGasAbortCandidate) × (candidate_to_abort_with encoding chain 9 120 (some 43) ≡ ok d)
    × (d.tool_gas_ref.object_id ≡ 43)
plan-candidate_to_abort_with_example =
    plan-candidate_to_abort_with encoding chain 9 120 1 none candidate (candidate ∷ []) planned
      listed
