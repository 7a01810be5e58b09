-- ===== src/Expired/Executable.antt =====
-- sdk/src/nexus/workflow.rs: what the plan of one walk says against what the execution as a whole can be aborted with.
use mathlib.Core.Path.{subst}
use nexus_sdk.Prelude.{
  ℕ, ◌≡◌, refl, sym, ap, ◌∙◌, inl, inr, Bool, true, Option, some, List, [], ◌∷◌, arith, Result, ok,
  >>=-eq-ok, >>=-of_ok, nat_eq, ok_injective, Assoc, le→leb,
}
use nexus_sdk.ToolFqn.{fqn_eq}
use nexus_sdk.Expired.{
  RuntimeVertex, DagWalk, active, VertexKind, ExecutionPaymentVertexLock,
  abortable_timeout_expired_vertex, is_double_expired, ExpiryError, Chain, Encoding,
  ToolGasAbortCandidate,
}
use nexus_sdk.Expired.Candidates.{
  CandidateWalks, filter_tool_gas_abort_candidate_walks, fetch_tool_gas_refs_for_abort_candidates,
  select_tool_gas_abort_candidate, abort_expired_execution_tool_gas_candidates,
  candidate_to_abort_with,
}
use nexus_sdk.Expired.Plan.{
  ExpiredWalkResolutionKind, aborted_with_tool_gas, inspect_expired_walk_resolution_at,
}
use nexus_sdk.Expired.Abortable.{
  walk_of, IsAbortOf, IsAborted, inspect_expired_walk_resolution_at-IsAborted,
}
use nexus_sdk.Expired.Members.{
  HasTool, Found, find_candidate-mem, fetch_ref-id, fetch_tool_gas_refs_for_abort_candidates-HasRef,
}
use nexus_sdk.Expired.Walks.{add_walks-HasTool}

gas_injective :
    {c d : ToolGasAbortCandidate} → aborted_with_tool_gas c ≡ aborted_with_tool_gas d → c ≡ d
gas_injective h = ground arith

over-abortable :
    (clock_ms : ℕ) (next : RuntimeVertex) (timeout : ℕ) (grant : Bool) (created : ℕ)
    → is_double_expired clock_ms timeout created ≡ true
    → abortable_timeout_expired_vertex (active next timeout grant created) clock_ms ≡ some next
unfolding abortable_timeout_expired_vertex
over-abortable clock_ms next timeout grant created h = rw h refl

module _ (E : Encoding) (chain : Chain) (execution_id clock_ms : ℕ) where
  -- The tool of a walk that is to be aborted with gas is among those of the whole execution.
  filtered-HasTool :
      (walk_index : ℕ) (tool_gas_id : Option ℕ) (k : ExpiredWalkResolutionKind)
      (plan : IsAborted E chain execution_id walk_index tool_gas_id clock_ms k)
      (candidates : CandidateWalks)
      → plan.lock.locked ≡ true
      → filter_tool_gas_abort_candidate_walks E execution_id plan.vertices plan.execution.walks
          plan.locks clock_ms
        ≡ ok candidates
      → HasTool candidates plan.lock.fqn
  unfolding filter_tool_gas_abort_candidate_walks
  filtered-HasTool walk_index tool_gas_id k plan candidates locked h =
      add_walks-HasTool E execution_id plan.vertices plan.locks clock_ms walk_index 0 [] candidates
        plan.execution.walks (active plan.next plan.timeout plan.grant plan.created) plan.next
        plan.lock plan.is_walk
        (over-abortable clock_ms plan.next plan.timeout plan.grant plan.created
          (le→leb _ _ plan.is_over))
        plan.of_vertex locked h

  -- What the execution lists, by the answers that the plan had.
  listed-by_plan :
      (walk_index : ℕ) (tool_gas_id : Option ℕ) (k : ExpiredWalkResolutionKind)
      (plan : IsAborted E chain execution_id walk_index tool_gas_id clock_ms k)
      (refs : List ToolGasAbortCandidate)
      → abort_expired_execution_tool_gas_candidates E chain execution_id clock_ms ≡ ok refs
      → (candidates : CandidateWalks) × (filter_tool_gas_abort_candidate_walks E execution_id
            plan.vertices plan.execution.walks plan.locks clock_ms
          ≡ ok candidates)
        × (fetch_tool_gas_refs_for_abort_candidates E chain candidates ≡ ok refs)
  unfolding abort_expired_execution_tool_gas_candidates
  listed-by_plan walk_index tool_gas_id k plan refs h =
      let (execution, is_stored, h1) = >>=-eq-ok chain.execution _ h in
      let (vertices, of_dag, h2) = >>=-eq-ok (chain.dag_vertices execution.dag_id) _ h1 in
      let (locks, of_locks, h3) = >>=-eq-ok chain.locked_vertices _ h2 in
      let (candidates, filtered, h4) =
        >>=-eq-ok
          (filter_tool_gas_abort_candidate_walks E execution_id vertices execution.walks locks
            clock_ms)
          _ h3 in
      let same : plan.execution ≡ execution = ok_injective (sym plan.is_stored ∙ is_stored) in
      let same_vertices : plan.vertices ≡ vertices =
        ok_injective (sym plan.of_dag ∙ ap (λ x. chain.dag_vertices x.dag_id) same ∙ of_dag) in
      let same_locks : plan.locks ≡ locks = ok_injective (sym plan.of_locks ∙ of_locks) in
      let filter_by : Assoc ℕ VertexKind
          → List DagWalk
          → List ExecutionPaymentVertexLock
          → Result ExpiryError CandidateWalks =
        λ vs ws ls. filter_tool_gas_abort_candidate_walks E execution_id vs ws ls clock_ms in
      (
        candidates,
        ap (λ ls. filter_by plan.vertices plan.execution.walks ls) same_locks
            ∙ ap (λ vs. filter_by vs plan.execution.walks locks) same_vertices
            ∙ ap (λ x. filter_by vertices x.walks locks) same
            ∙ filtered,
        h4,
      )

  gas-Found :
      (walk_index : ℕ) (tool_gas_id : Option ℕ) (c : ToolGasAbortCandidate)
      (refs : List ToolGasAbortCandidate)
      (plan : IsAborted E chain execution_id walk_index tool_gas_id clock_ms
        (aborted_with_tool_gas c))
      → IsAbortOf E chain execution_id walk_index tool_gas_id plan.next plan.lock
          (aborted_with_tool_gas c)
      → abort_expired_execution_tool_gas_candidates E chain execution_id clock_ms ≡ ok refs
      → Found c.tool_gas_ref.object_id refs
  gas-Found walk_index tool_gas_id c refs plan (inl (_, without)) h = cc
  gas-Found walk_index tool_gas_id c refs plan (inr (locked, d, fetched, with_gas, _)) h =
      let (candidates, filtered, referred) =
        listed-by_plan walk_index tool_gas_id (aborted_with_tool_gas c) plan refs h in
      let has =
        filtered-HasTool walk_index tool_gas_id (aborted_with_tool_gas c) plan candidates locked
          filtered in
      let (ws, f, f_fetched, m) =
        fetch_tool_gas_refs_for_abort_candidates-HasRef E chain plan.lock.fqn candidates refs has
          referred in
      let same_ref =
        fetch_ref-id E chain plan.lock.fqn ws (walk_of walk_index plan.next plan.lock ∷ []) f d
          f_fetched fetched in
      let same : d ≡ c = gas_injective (sym with_gas) in
      subst (λ r. Found r.object_id refs) (same_ref ∙ ap (λ x. x.tool_gas_ref) same)
        (find_candidate-mem f refs m)

  -- Where the plan of one walk is to abort it with the gas of a tool, and the candidates of the whole execution can
  -- be listed, aborting the execution with that gas is accepted, and a candidate with this very gas is chosen.
  pub plan-candidate_to_abort_with :
      (walk_index : ℕ) (tool_gas_id : Option ℕ) (c : ToolGasAbortCandidate)
      (refs : List ToolGasAbortCandidate)
      → inspect_expired_walk_resolution_at E chain execution_id walk_index tool_gas_id clock_ms
        ≡ ok (aborted_with_tool_gas c)
      → abort_expired_execution_tool_gas_candidates E chain execution_id clock_ms ≡ ok refs
      → (d : ToolGasAbortCandidate) × (candidate_to_abort_with E chain execution_id clock_ms
            (some c.tool_gas_ref.object_id)
          ≡ ok d)
        × (d.tool_gas_ref.object_id ≡ c.tool_gas_ref.object_id)
  unfolding candidate_to_abort_with select_tool_gas_abort_candidate
  plan-candidate_to_abort_with walk_index tool_gas_id c refs planned listed =
      let plan =
        inspect_expired_walk_resolution_at-IsAborted E chain execution_id walk_index tool_gas_id
          clock_ms (aborted_with_tool_gas c) planned refl in
      let (d, found, of_id) = gas-Found walk_index tool_gas_id c refs plan plan.is_abort listed in
      (
        d,
        >>=-of_ok (abort_expired_execution_tool_gas_candidates E chain execution_id clock_ms) _
            listed (rw found refl),
        of_id,
      )
