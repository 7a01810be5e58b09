-- ===== src/Expired/Aborts.antt =====
-- When the plan of inspect_expired_walk_resolution_at, in sdk/src/nexus/workflow.rs, aborts a walk.

use mathlib.Core.Bool.{true≢false}
use nexus_sdk.Prelude.{
  Memᴰ, any_of_mem, ==_refl, ℕ, ◌≤◌, ◌≡◌, refl, sym, ap, ◌∙◌, Bool, true, false, Option, none, some,
  List, arith, any, leb→le, Result, ok, >>=-eq-ok, ok_or, lookup, ◌==◌, nat_eq, ok_injective,
  saturating_add, saturating_mul, if◌then◌else◌,
}
use nexus_sdk.Expired.{
  RuntimeVertex, vertex, DagWalk, active, pending_settlement, successful, failed, consumed, aborted,
  pending_abort, cancelled, abortable_timeout_expired_vertex, is_double_expired, if_expired,
  tool_fqn, ObjectReference, ToolRef, http, sui, OnchainToolResult, ExpiryError, vertex_missing,
  missing_finalize_tx_digest, Chain, Encoding,
}
use nexus_sdk.Expired.Plan.{
  OnchainToolResultState, no_result, finalized_result, insufficient_settlement, invalid_empty,
  onchain_tool_result_is_finalized, ExpiredWalkResolutionKind, settled, settled_onchain_result,
  aborted_walk, aborted_with_tool_gas, skipped, state_of_result, state_of_committed,
  state_of_marker, fetch_onchain_tool_result_state_for_walk, kind_of_tool,
  finalized_onchain_result_resolution_kind,
}

abbrev pub aborts : ExpiredWalkResolutionKind → Bool
aborts settled = false
aborts (settled_onchain_result object_ref v witness_id digest) = false
aborts aborted_walk = true
aborts (aborted_with_tool_gas candidate) = true
aborts (skipped reason) = false

if_expired-some :
    (b : Bool) (next v : RuntimeVertex) → if_expired b next ≡ some v → (b ≡ true) × (next ≡ v)
if_expired-some false next v h = cc
if_expired-some true next v h = (refl, ground arith)

pub abortable-active :
    (walk : DagWalk) (clock_ms : ℕ) (v : RuntimeVertex)
    → abortable_timeout_expired_vertex walk clock_ms ≡ some v
    → (timeout : ℕ) × (grant : Bool) × (created : ℕ) × (walk ≡ active v timeout grant created)
      × (saturating_add 64 created (saturating_mul 64 timeout 2) ≤ clock_ms)
unfolding abortable_timeout_expired_vertex
abortable-active (active next timeout grant created) clock_ms v h =
    let (is_over, same) = if_expired-some (is_double_expired clock_ms timeout created) next v h in
    (timeout, grant, created, ap (λ n. active n timeout grant created) same, leb→le _ _ is_over)
abortable-active (pending_settlement next timeout grant created) clock_ms v h = cc
abortable-active successful clock_ms v h = cc
abortable-active failed clock_ms v h = cc
abortable-active (consumed _) clock_ms v h = cc
abortable-active (aborted _) clock_ms v h = cc
abortable-active (pending_abort _) clock_ms v h = cc
abortable-active cancelled clock_ms v h = cc

some_result-ne :
    (result : OnchainToolResult) (object_ref : ObjectReference) (result_id : ℕ) (b : Bool)
    → Path
        (Result ExpiryError OnchainToolResultState)
        (ok (if b then finalized_result result object_ref else invalid_empty result_id object_ref))
        (ok no_result)
    → ⊥
some_result-ne result object_ref result_id true h = cc
some_result-ne result object_ref result_id false h = cc

unmarked :
    (b : Bool) (committed : Option ℕ) (walks : List ℕ)
    (other : Result ExpiryError OnchainToolResultState)
    → (if b then ok (insufficient_settlement committed walks) else other) ≡ ok no_result
    → other ≡ ok no_result
unmarked true committed walks other h = cc
unmarked false committed walks other h = h

not_marked :
    (b : Bool) (committed : Option ℕ) (walks : List ℕ)
    (other : Result ExpiryError OnchainToolResultState)
    → (if b then ok (insufficient_settlement committed walks) else other) ≡ ok no_result
    → b ≡ false
not_marked true committed walks other h = cc
not_marked false committed walks other h = refl

-- The walk is not among those that could not be settled.
abbrev pub IsUnmarked : ℕ → Option (List ℕ) → Type 0
IsUnmarked walk_index none = Unit
IsUnmarked walk_index (some walks) = ¬ Memᴰ walk_index walks

module _ (E : Encoding) (chain : Chain) (execution_id : ℕ) where
  tool-no_abort :
      (v : RuntimeVertex) (result : OnchainToolResult) (object_ref : ObjectReference)
      (reference : ToolRef) {k : ExpiredWalkResolutionKind}
      → kind_of_tool E chain execution_id v result object_ref reference ≡ ok k
      → aborts k ≡ false
  tool-no_abort v result object_ref http h = ap aborts (sym (ok_injective h))
  tool-no_abort v result object_ref (sui witness_id) h =
      let (digest, _, made) =
        >>=-eq-ok (ok_or result.finalize_tx_digest missing_finalize_tx_digest)
          (λ digest. ok (settled_onchain_result object_ref v witness_id digest)) h in
      ap aborts (sym (ok_injective made))

  pub finalized-no_abort :
      (dag_id : ℕ) (v : RuntimeVertex) (result : OnchainToolResult) (object_ref : ObjectReference)
      {k : ExpiredWalkResolutionKind}
      → finalized_onchain_result_resolution_kind E chain execution_id dag_id v result object_ref
        ≡ ok k
      → aborts k ≡ false
  unfolding finalized_onchain_result_resolution_kind
  finalized-no_abort dag_id v result object_ref h =
      let (vertices, _, h1) = >>=-eq-ok (chain.dag_vertices dag_id) _ h in
      let (kind, _, h2) =
        >>=-eq-ok (ok_or (lookup (vertex v) vertices) (vertex_missing (vertex v))) _ h1 in
      let (fqn, _, h3) = >>=-eq-ok (tool_fqn kind) _ h2 in
      let (tool_id, _, h4) = >>=-eq-ok (E.derive_tool_id fqn) _ h3 in
      let (reference, _, h5) = >>=-eq-ok (chain.tool tool_id) _ h4 in
      tool-no_abort v result object_ref reference h5

  stored-no_result :
      (id : Option ℕ) → state_of_result E chain execution_id id ≡ ok no_result → id ≡ none
  stored-no_result none h = refl
  stored-no_result (some result_id) h =
      let ((result, object_ref), _, made) = >>=-eq-ok (chain.onchain_result result_id) _ h in
      absurd
        (some_result-ne result object_ref result_id (onchain_tool_result_is_finalized result) made)

  committed-no_result :
      (walk_index : ℕ) (committed : Option ℕ)
      → state_of_committed E chain execution_id walk_index committed ≡ ok no_result
      → (committed ≡ none) × (chain.result_id walk_index ≡ ok none)
  committed-no_result walk_index (some committed) h = cc
  committed-no_result walk_index none h =
      let (id, stored, made) = >>=-eq-ok (chain.result_id walk_index) _ h in
      (refl, stored ∙ ap ok (stored-no_result id made))

  marker-no_result :
      (walk_index : ℕ) (committed : Option ℕ) (marker : Option (List ℕ))
      → state_of_marker E chain execution_id walk_index committed marker ≡ ok no_result
      → (committed ≡ none) × (chain.result_id walk_index ≡ ok none) × IsUnmarked walk_index marker
  marker-no_result walk_index committed none h =
      let (nothing, no_id) = committed-no_result walk_index committed h in (nothing, no_id, tt)
  marker-no_result walk_index committed (some walks) h =
      let is_marked = any (λ w. w == walk_index) walks in
      let rest = state_of_committed E chain execution_id walk_index committed in
      let (nothing, no_id) =
        committed-no_result walk_index committed (unmarked is_marked committed walks rest h) in
      (
        nothing,
        no_id,
        λ m. true≢false (
            sym (any_of_mem (λ w. w == walk_index) m (==_refl walk_index))
            ∙ not_marked is_marked committed walks rest h),
      )

  pub fetch-no_result :
      (walk_index : ℕ)
      → fetch_onchain_tool_result_state_for_walk E chain execution_id walk_index ≡ ok no_result
      → (chain.committed walk_index ≡ ok none)
        × (chain.result_id walk_index ≡ ok none)
        × (marker : Option (List ℕ)) × (chain.insufficient_settlement ≡ ok marker)
        × IsUnmarked walk_index marker
  unfolding fetch_onchain_tool_result_state_for_walk
  fetch-no_result walk_index h =
      let (committed, first, h1) = >>=-eq-ok (chain.committed walk_index) _ h in
      let (marker, second, h2) = >>=-eq-ok chain.insufficient_settlement _ h1 in
      let (nothing, no_id, is_unmarked) = marker-no_result walk_index committed marker h2 in
      (first ∙ ap ok nothing, no_id, marker, second, is_unmarked)
