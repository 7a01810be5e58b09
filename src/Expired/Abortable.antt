-- ===== src/Expired/Abortable.antt =====
-- What it takes that the plan of inspect_expired_walk_resolution_at, in sdk/src/nexus/workflow.rs, aborts a walk.
use mathlib.Core.Bool.{true≢false}
use nexus_sdk.Prelude.{
  ℕ, ◌≤◌, ◌≡◌, refl, sym, ap, ◌∙◌, ◌⊎◌, inl, inr, Bool, true, false, Option, none, some, List, [],
  ◌∷◌, arith, get_elem?, Result, ok, >>=-eq-ok, ◌==◌, nat_eq, ==_iff, ok_injective, saturating_add,
  saturating_mul, if◌then◌else◌, Assoc, ok_or-eq-ok,
}
use nexus_sdk.ToolFqn.{ToolFqn}
use nexus_sdk.Expired.{
  RuntimeVertex, DagWalk, active, timeout_expired_vertex, VertexKind, ExecutionPaymentVertexLock,
  abortable_timeout_expired_vertex, DagExecution, ExpiryError, Chain, Encoding,
  ToolGasAbortCandidate, ToolGasAbortCandidateWalk, not_eligible,
}
use nexus_sdk.Expired.Candidates.{
  VertexLock, vertex_lock, fetch_ref, fetch_refs, sort_by_fqn, find_candidate,
  fetch_tool_gas_refs_for_abort_candidates, select_tool_gas_abort_candidate,
}
use nexus_sdk.Expired.Plan.{
  OnchainToolResultState, no_result, finalized_result, committed_result, insufficient_settlement,
  invalid_empty, ExpiredWalkResolutionKind, aborted_walk, aborted_with_tool_gas,
  fetch_onchain_tool_result_state_for_walk, abort_kind, kind_without_result, kind_of_state,
  kind_of_expired, kind_of_walk, inspect_expired_walk_resolution_at,
}
use nexus_sdk.Expired.Aborts.{
  aborts, IsUnmarked, abortable-active, finalized-no_abort, fetch-no_result,
}

not_aborted :
    {j k : ExpiredWalkResolutionKind}
    → Path (Result ExpiryError ExpiredWalkResolutionKind) (ok j) (ok k)
    → aborts j ≡ false
    → aborts k ≡ true
    → ⊥
not_aborted h is_not is_so = true≢false (sym is_so ∙ ap aborts (sym (ok_injective h)) ∙ is_not)

abbrev pub walk_of : ℕ → RuntimeVertex → VertexLock → ToolGasAbortCandidateWalk
walk_of walk_index v lock = record {
  walk_index = walk_index;
  runtime_vertex = v;
  payment_vertex_key = lock.key;
}

module _ (E : Encoding) (chain : Chain) (execution_id : ℕ) where
  -- With the gas of the tool if there is a lock for the vertex, and without gas else.
  abbrev pub IsAbortOf :
      ℕ → Option ℕ → RuntimeVertex → VertexLock → ExpiredWalkResolutionKind → Type 0
  IsAbortOf walk_index tool_gas_id v lock kind =
      ((lock.locked ≡ false) × (kind ≡ aborted_walk))
      ⊎ ((lock.locked ≡ true)
          × (c : ToolGasAbortCandidate) × (fetch_ref E chain lock.fqn
                (walk_of walk_index v lock ∷ [])
              ≡ ok c)
          × (kind ≡ aborted_with_tool_gas c)
          × ((tool_gas_id ≡ none) ⊎ (tool_gas_id ≡ some c.tool_gas_ref.object_id)))

  -- The walk is active and waits for at least twice its timeout, no result is committed or stored for it, it is not
  -- marked as insufficiently settled, and the vertex is aborted.
  pub record IsAborted (walk_index : ℕ) (tool_gas_id : Option ℕ) (clock_ms : ℕ)
      (kind : ExpiredWalkResolutionKind) : Type 0 where
    pub execution : DagExecution
    pub next : RuntimeVertex
    pub timeout : ℕ
    pub grant : Bool
    pub created : ℕ
    pub is_stored : chain.execution ≡ ok execution
    pub is_walk : get_elem? execution.walks walk_index ≡ some (active next timeout grant created)
    pub is_over : saturating_add 64 created (saturating_mul 64 timeout 2) ≤ clock_ms
    pub none_committed : chain.committed walk_index ≡ ok none
    pub none_stored : chain.result_id walk_index ≡ ok none
    pub marker : Option (List ℕ)
    pub of_marker : chain.insufficient_settlement ≡ ok marker
    pub is_unmarked : IsUnmarked walk_index marker
    pub vertices : Assoc ℕ VertexKind
    pub locks : List ExecutionPaymentVertexLock
    pub lock : VertexLock
    pub of_dag : chain.dag_vertices execution.dag_id ≡ ok vertices
    pub of_locks : chain.locked_vertices ≡ ok locks
    pub of_vertex : vertex_lock E execution_id vertices locks next ≡ ok lock
    pub is_abort : IsAbortOf walk_index tool_gas_id next lock kind

  single_ref :
      (cs : List ToolGasAbortCandidate) (fqn : ToolFqn) (walks : List ToolGasAbortCandidateWalk)
      → fetch_tool_gas_refs_for_abort_candidates E chain ((fqn, walks) ∷ []) ≡ ok cs
      → (c : ToolGasAbortCandidate) × (fetch_ref E chain fqn walks ≡ ok c) × (cs ≡ c ∷ [])
  unfolding fetch_tool_gas_refs_for_abort_candidates
  single_ref cs fqn walks h =
      let (refs, fetched, sorted) = >>=-eq-ok (fetch_refs E chain ((fqn, walks) ∷ [])) _ h in
      let (c, first, single) = >>=-eq-ok (fetch_ref E chain fqn walks) _ fetched in
      (c, first, sym (ok_injective sorted) ∙ ap sort_by_fqn (sym (ok_injective single)))

  found-single :
      (b : Bool) (c d : ToolGasAbortCandidate)
      → (if b then some c else none) ≡ some d
      → (b ≡ true) × (d ≡ c)
  found-single true c d h = (refl, ground arith)
  found-single false c d h = cc

  select-single :
      (c d : ToolGasAbortCandidate) (tool_gas_id : Option ℕ)
      → select_tool_gas_abort_candidate (c ∷ []) tool_gas_id ≡ ok d
      → (d ≡ c) × ((tool_gas_id ≡ none) ⊎ (tool_gas_id ≡ some c.tool_gas_ref.object_id))
  unfolding select_tool_gas_abort_candidate
  select-single c d none h = (sym (ok_injective h), inl refl)
  select-single c d (some id) h =
      let found = ok_or-eq-ok (find_candidate id (c ∷ [])) (not_eligible id) h in
      let (same_id, same) = found-single (c.tool_gas_ref.object_id == id) c d found in
      (same, inr (ap some (sym ((==_iff c.tool_gas_ref.object_id id).0 same_id))))

  abort_with-IsAbortOf :
      (walk_index : ℕ) (v : RuntimeVertex) (tool_gas_id : Option ℕ) (fqn : ToolFqn) (key : List ℕ)
      (locked : Bool) (k : ExpiredWalkResolutionKind)
      → abort_kind E chain execution_id walk_index v tool_gas_id
          record { fqn = fqn; key = key; locked = locked }
        ≡ ok k
      → IsAbortOf walk_index tool_gas_id v record { fqn = fqn; key = key; locked = locked } k
  abort_with-IsAbortOf walk_index v tool_gas_id fqn key false k h = inl (refl, sym (ok_injective h))
  abort_with-IsAbortOf walk_index v tool_gas_id fqn key true k h =
      let lock : VertexLock = record { fqn = fqn; key = key; locked = true } in
      let walks = walk_of walk_index v lock ∷ [] in
      let (cs, fetched, h1) =
        >>=-eq-ok (fetch_tool_gas_refs_for_abort_candidates E chain ((fqn, walks) ∷ [])) _ h in
      let (d, selected, made) = >>=-eq-ok (select_tool_gas_abort_candidate cs tool_gas_id) _ h1 in
      let (c, first, single) = single_ref cs fqn walks fetched in
      let (same, of_id) =
        select-single c d tool_gas_id
          (ap (λ cs. select_tool_gas_abort_candidate cs tool_gas_id) (sym single) ∙ selected) in
      inr (refl, c, first, sym (ok_injective made) ∙ ap aborted_with_tool_gas same, of_id)

  -- What is known of the walk once its state is.
  state-no_result :
      (dag_id walk_index : ℕ) (expired : RuntimeVertex) (tool_gas_id : Option ℕ)
      (abortable : Option RuntimeVertex) (state : OnchainToolResultState)
      (k : ExpiredWalkResolutionKind)
      → kind_of_state E chain execution_id dag_id walk_index expired tool_gas_id abortable state
        ≡ ok k
      → aborts k ≡ true
      → (v : RuntimeVertex) × (abortable ≡ some v)
        × (state ≡ no_result)
        × (kind_without_result E chain execution_id dag_id walk_index expired tool_gas_id (some v)
            ≡ ok k)
  state-no_result dag_id walk_index expired tool_gas_id abortable (committed_result committed) k h
        a =
      absurd (not_aborted h refl a)
  state-no_result dag_id walk_index expired tool_gas_id abortable
        (finalized_result result object_ref) k h a =
      absurd (
        true≢false
          (sym a ∙ finalized-no_abort E chain execution_id dag_id expired result object_ref h))
  state-no_result dag_id walk_index expired tool_gas_id abortable
        (insufficient_settlement committed walks) k h a =
      absurd (not_aborted h refl a)
  state-no_result dag_id walk_index expired tool_gas_id abortable
        (invalid_empty result_id object_ref) k h a =
      absurd (not_aborted h refl a)
  state-no_result dag_id walk_index expired tool_gas_id none no_result k h a =
      absurd (not_aborted h refl a)
  state-no_result dag_id walk_index expired tool_gas_id (some v) no_result k h a =
      (v, refl, refl, h)

  walk-IsAborted :
      (walk_index : ℕ) (tool_gas_id : Option ℕ) (clock_ms : ℕ) (k : ExpiredWalkResolutionKind)
      (execution : DagExecution) (walk : DagWalk) (expired : Option RuntimeVertex)
      → chain.execution ≡ ok execution
      → get_elem? execution.walks walk_index ≡ some walk
      → kind_of_expired E chain execution_id execution.dag_id walk_index walk tool_gas_id clock_ms
          expired
        ≡ ok k
      → aborts k ≡ true
      → IsAborted walk_index tool_gas_id clock_ms k
  walk-IsAborted walk_index tool_gas_id clock_ms k execution walk none is_stored is_walk h a =
      absurd (not_aborted h refl a)
  walk-IsAborted walk_index tool_gas_id clock_ms k execution walk (some expired) is_stored is_walk h
        a =
      let (state, fetched, h1) =
        >>=-eq-ok (fetch_onchain_tool_result_state_for_walk E chain execution_id walk_index) _ h in
      let (v, abortable, nothing, h2) =
        state-no_result execution.dag_id walk_index expired tool_gas_id
          (abortable_timeout_expired_vertex walk clock_ms) state k h1 a in
      let (none_committed, none_stored, marker, of_marker, is_unmarked) =
        fetch-no_result E chain execution_id walk_index (fetched ∙ ap ok nothing) in
      let (timeout, grant, created, is_active, is_over) =
        abortable-active walk clock_ms v abortable in
      let (locks, of_locks, h3) = >>=-eq-ok chain.locked_vertices _ h2 in
      let (vertices, of_dag, h4) = >>=-eq-ok (chain.dag_vertices execution.dag_id) _ h3 in
      let (lock, of_vertex, h5) = >>=-eq-ok (vertex_lock E execution_id vertices locks v) _ h4 in
      record {
        execution = execution;
        next = v;
        timeout = timeout;
        grant = grant;
        created = created;
        is_stored = is_stored;
        is_walk = is_walk ∙ ap some is_active;
        is_over = is_over;
        none_committed = none_committed;
        none_stored = none_stored;
        marker = marker;
        of_marker = of_marker;
        is_unmarked = is_unmarked;
        vertices = vertices;
        locks = locks;
        lock = lock;
        of_dag = of_dag;
        of_locks = of_locks;
        of_vertex = of_vertex;
        is_abort = abort_with-IsAbortOf walk_index v tool_gas_id lock.fqn lock.key lock.locked k h5;
      }

  index-IsAborted :
      (walk_index : ℕ) (tool_gas_id : Option ℕ) (clock_ms : ℕ) (k : ExpiredWalkResolutionKind)
      (execution : DagExecution) (walk : Option DagWalk)
      → chain.execution ≡ ok execution
      → get_elem? execution.walks walk_index ≡ walk
      → kind_of_walk E chain execution_id execution.dag_id walk_index tool_gas_id clock_ms walk
        ≡ ok k
      → aborts k ≡ true
      → IsAborted walk_index tool_gas_id clock_ms k
  index-IsAborted walk_index tool_gas_id clock_ms k execution none is_stored is_walk h a =
      absurd (not_aborted h refl a)
  index-IsAborted walk_index tool_gas_id clock_ms k execution (some walk) is_stored is_walk h a =
      walk-IsAborted walk_index tool_gas_id clock_ms k execution walk
        (timeout_expired_vertex walk clock_ms) is_stored is_walk h a

  -- A walk is planned to be aborted only if it is active for at least twice its timeout, has no result, committed or
  -- stored, is not among the walks that could not be settled, and its vertex is known; it is with the gas of its tool,
  -- of the requested id if there is one, just if a payment lock covers the vertex.
  pub inspect_expired_walk_resolution_at-IsAborted :
      (walk_index : ℕ) (tool_gas_id : Option ℕ) (clock_ms : ℕ) (k : ExpiredWalkResolutionKind)
      → inspect_expired_walk_resolution_at E chain execution_id walk_index tool_gas_id clock_ms
        ≡ ok k
      → aborts k ≡ true
      → IsAborted walk_index tool_gas_id clock_ms k
  unfolding inspect_expired_walk_resolution_at
  inspect_expired_walk_resolution_at-IsAborted walk_index tool_gas_id clock_ms k h a =
      let (execution, is_stored, h1) = >>=-eq-ok chain.execution _ h in
      index-IsAborted walk_index tool_gas_id clock_ms k execution
        (get_elem? execution.walks walk_index) is_stored refl h1 a
