-- ===== src/Expired/Candidates.antt =====
-- sdk/src/nexus/workflow.rs: the candidates whose gas can abort an execution.
use nexus_sdk.Prelude.{
  ℕ, ◌+◌, Bool, Option, none, some, List, [], ◌∷◌, ◌++◌, Assoc, if◌then◌else◌, Result, ok, ◌>>=◌,
  ok_or, lookup, ◌==◌, nat_eq, list_eq, lex_leq, ℕ_order,
}
use nexus_sdk.ToolFqn.{ToolFqn, fqn_eq, to_string}
use nexus_sdk.Expired.{
  Bytes, RuntimeVertex, vertex, DagWalk, abortable_timeout_expired_vertex, VertexKind, tool_fqn,
  ExecutionPaymentVertexLock, is_locked, ExpiryError, vertex_missing, not_eligible, no_candidate,
  Chain, Encoding, payment_vertex_key, ToolGasAbortCandidateWalk, ToolGasAbortCandidate,
}

abbrev pub CandidateWalks : Type 0
CandidateWalks = Assoc ToolFqn (List ToolGasAbortCandidateWalk)

-- `candidates.entry(tool_fqn).or_default().push(walk)`
abbrev pub push_walk : ToolFqn → ToolGasAbortCandidateWalk → CandidateWalks → CandidateWalks
push_walk fqn walk [] = (fqn, walk ∷ []) ∷ []
push_walk fqn walk ((f, walks) ∷ rest) =
    if f == fqn then (f, walks ++ walk ∷ []) ∷ rest else (f, walks) ∷ push_walk fqn walk rest

-- The tool of an abortable vertex, and the key and whether there is a lock for it.
pub record VertexLock : Type 0 where
  pub fqn : ToolFqn
  pub key : Bytes
  pub locked : Bool

module _ (E : Encoding) (execution_id : ℕ) where
  unfoldable pub vertex_lock :
      Assoc ℕ VertexKind
      → List ExecutionPaymentVertexLock
      → RuntimeVertex
      → Result ExpiryError VertexLock
  vertex_lock vertices locks v = do
    kind ← ok_or (lookup (vertex v) vertices) (vertex_missing (vertex v))
    fqn ← tool_fqn kind
    key ← payment_vertex_key E execution_id v fqn
    ok record { fqn = fqn; key = key; locked = is_locked locks key fqn }

  abbrev pub add_if_locked : ℕ → RuntimeVertex → CandidateWalks → VertexLock → CandidateWalks
  add_if_locked index v candidates lock =
      if lock.locked
      then push_walk lock.fqn
          record { walk_index = index; runtime_vertex = v; payment_vertex_key = lock.key }
          candidates
      else candidates

  -- One walk: it is skipped unless it can be aborted.
  abbrev pub add_walk :
      Assoc ℕ VertexKind
      → List ExecutionPaymentVertexLock
      → ℕ
      → CandidateWalks
      → Option RuntimeVertex
      → Result ExpiryError CandidateWalks
  add_walk vertices locks index candidates none = ok candidates
  add_walk vertices locks index candidates (some v) = do
    lock ← vertex_lock vertices locks v
    ok (add_if_locked index v candidates lock)

  -- The loop, from the walk with an index.
  abbrev pub add_walks :
      Assoc ℕ VertexKind
      → List ExecutionPaymentVertexLock
      → ℕ
      → ℕ
      → CandidateWalks
      → List DagWalk
      → Result ExpiryError CandidateWalks
  add_walks vertices locks clock_ms index candidates [] = ok candidates
  add_walks vertices locks clock_ms index candidates (walk ∷ walks) = do
    candidates' ←
        add_walk vertices locks index candidates (abortable_timeout_expired_vertex walk clock_ms)
    add_walks vertices locks clock_ms (index + 1) candidates' walks

  unfoldable pub filter_tool_gas_abort_candidate_walks :
      Assoc ℕ VertexKind
      → List DagWalk
      → List ExecutionPaymentVertexLock
      → ℕ
      → Result ExpiryError CandidateWalks
  filter_tool_gas_abort_candidate_walks vertices walks locks clock_ms =
      add_walks vertices locks clock_ms 0 [] walks

-- `sort_by_key(|candidate| candidate.tool_fqn.to_string())`
abbrev pub insert_by_fqn :
    ToolGasAbortCandidate → List ToolGasAbortCandidate → List ToolGasAbortCandidate
insert_by_fqn c [] = c ∷ []
insert_by_fqn c (d ∷ rest) =
    let later = insert_by_fqn c rest in
    if lex_leq ℕ_order (to_string c.fqn) (to_string d.fqn) then c ∷ d ∷ rest else d ∷ later

abbrev pub sort_by_fqn : List ToolGasAbortCandidate → List ToolGasAbortCandidate
sort_by_fqn [] = []
sort_by_fqn (c ∷ rest) = insert_by_fqn c (sort_by_fqn rest)

module _ (E : Encoding) (chain : Chain) where
  unfoldable pub fetch_ref :
      ToolFqn → List ToolGasAbortCandidateWalk → Result ExpiryError ToolGasAbortCandidate
  fetch_ref fqn walks = do
    tool_gas_id ← E.derive_tool_gas_id fqn
    tool_gas_ref ← chain.object_ref tool_gas_id
    ok record { fqn = fqn; tool_gas_ref = tool_gas_ref; matching_walks = walks }

  abbrev pub fetch_refs : CandidateWalks → Result ExpiryError (List ToolGasAbortCandidate)
  fetch_refs [] = ok []
  fetch_refs ((fqn, walks) ∷ rest) = do
    candidate ← fetch_ref fqn walks
    candidates ← fetch_refs rest
    ok (candidate ∷ candidates)

  unfoldable pub fetch_tool_gas_refs_for_abort_candidates :
      CandidateWalks → Result ExpiryError (List ToolGasAbortCandidate)
  fetch_tool_gas_refs_for_abort_candidates candidates = do
    refs ← fetch_refs candidates
    ok (sort_by_fqn refs)

abbrev pub find_candidate : ℕ → List ToolGasAbortCandidate → Option ToolGasAbortCandidate
find_candidate id [] = none
find_candidate id (c ∷ rest) =
    if c.tool_gas_ref.object_id == id then some c else find_candidate id rest

abbrev pub first_candidate : List ToolGasAbortCandidate → Option ToolGasAbortCandidate
first_candidate [] = none
first_candidate (c ∷ rest) = some c

unfoldable pub select_tool_gas_abort_candidate :
    List ToolGasAbortCandidate → Option ℕ → Result ExpiryError ToolGasAbortCandidate
select_tool_gas_abort_candidate candidates (some id) =
    ok_or (find_candidate id candidates) (not_eligible id)
select_tool_gas_abort_candidate candidates none = ok_or (first_candidate candidates) no_candidate

-- `abort_expired_execution_tool_gas_candidates`, at the time of the clock.
unfoldable pub abort_expired_execution_tool_gas_candidates :
    Encoding → Chain → ℕ → ℕ → Result ExpiryError (List ToolGasAbortCandidate)
abort_expired_execution_tool_gas_candidates E chain execution_id clock_ms = do
  execution ← chain.execution
  vertices ← chain.dag_vertices execution.dag_id
  locks ← chain.locked_vertices
  candidates ←
      filter_tool_gas_abort_candidate_walks E execution_id vertices execution.walks locks clock_ms
  fetch_tool_gas_refs_for_abort_candidates E chain candidates

-- `abort_expired_execution_with_tool_gas` up to the transaction: the candidate that it is built with.
unfoldable pub candidate_to_abort_with :
    Encoding → Chain → ℕ → ℕ → Option ℕ → Result ExpiryError ToolGasAbortCandidate
candidate_to_abort_with E chain execution_id clock_ms tool_gas_id = do
  candidates ← abort_expired_execution_tool_gas_candidates E chain execution_id clock_ms
  select_tool_gas_abort_candidate candidates tool_gas_id
