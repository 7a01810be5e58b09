-- ===== src/Expired/Walks.antt =====
-- sdk/src/nexus/workflow.rs: the tools that the loop over the walks collects.
use mathlib.Core.Path.{subst}
use nexus_sdk.Prelude.{
  some_injective, ℕ, ◌+◌, ◌≡◌, sym, ap, ◌∙◌, Bool, true, false, Option, none, some, List, [], ◌∷◌,
  get_elem?, ok, >>=-eq-ok, nat_eq, ok_injective, Assoc, zero, suc,
}
use nexus_sdk.ToolFqn.{ToolFqn, fqn_eq}
use nexus_sdk.Expired.{
  RuntimeVertex, DagWalk, VertexKind, ExecutionPaymentVertexLock, abortable_timeout_expired_vertex,
  Encoding,
}
use nexus_sdk.Expired.Candidates.{
  CandidateWalks, VertexLock, vertex_lock, add_if_locked, add_walk, add_walks,
}
use nexus_sdk.Expired.Members.{HasTool, push_walk-HasTool, push_walk-keeps}

module _ (E : Encoding) (execution_id : ℕ) (vertices : Assoc ℕ VertexKind)
    (locks : List ExecutionPaymentVertexLock) (clock_ms : ℕ) where
  add_if_locked-keeps :
      (g : ToolFqn) (index : ℕ) (v : RuntimeVertex) (candidates : CandidateWalks) (fqn : ToolFqn)
      (key : List ℕ) (locked : Bool)
      → HasTool candidates g
      → HasTool
          (add_if_locked E execution_id index v candidates
            record { fqn = fqn; key = key; locked = locked })
          g
  add_if_locked-keeps g index v candidates fqn key false has = has
  add_if_locked-keeps g index v candidates fqn key true has =
      push_walk-keeps g fqn
        record { walk_index = index; runtime_vertex = v; payment_vertex_key = key } candidates has

  add_if_locked-HasTool :
      (index : ℕ) (v : RuntimeVertex) (candidates : CandidateWalks) (lock : VertexLock)
      → lock.locked ≡ true
      → HasTool (add_if_locked E execution_id index v candidates lock) lock.fqn
  add_if_locked-HasTool index v candidates lock locked = rw locked (
      push_walk-HasTool lock.fqn
        record { walk_index = index; runtime_vertex = v; payment_vertex_key = lock.key } candidates)

  add_walk-keeps :
      (g : ToolFqn) (index : ℕ) (candidates candidates' : CandidateWalks) (v : Option RuntimeVertex)
      → HasTool candidates g
      → add_walk E execution_id vertices locks index candidates v ≡ ok candidates'
      → HasTool candidates' g
  add_walk-keeps g index candidates candidates' none has h =
      subst (λ cs. HasTool cs g) (ok_injective h) has
  add_walk-keeps g index candidates candidates' (some v) has h =
      let (lock, _, made) = >>=-eq-ok (vertex_lock E execution_id vertices locks v) _ h in
      subst (λ cs. HasTool cs g) (ok_injective made)
        (add_if_locked-keeps g index v candidates lock.fqn lock.key lock.locked has)

  add_walk-HasTool :
      (index : ℕ) (candidates candidates' : CandidateWalks) (vertex : Option RuntimeVertex)
      (v : RuntimeVertex) (lock : VertexLock)
      → vertex ≡ some v
      → vertex_lock E execution_id vertices locks v ≡ ok lock
      → lock.locked ≡ true
      → add_walk E execution_id vertices locks index candidates vertex ≡ ok candidates'
      → HasTool candidates' lock.fqn
  add_walk-HasTool index candidates candidates' none v lock is_some found locked h = cc
  add_walk-HasTool index candidates candidates' (some u) v lock is_some found locked h =
      let (other, found', made) = >>=-eq-ok (vertex_lock E execution_id vertices locks u) _ h in
      let same : other ≡ lock = ok_injective (
        sym found'
        ∙ ap (vertex_lock E execution_id vertices locks) (some_injective is_some)
        ∙ found) in
      subst (λ l. HasTool candidates' l.fqn) same
        (subst (λ cs. HasTool cs other.fqn) (ok_injective made)
          (add_if_locked-HasTool index u candidates other (ap (λ l. l.locked) same ∙ locked)))

  add_walks-keeps :
      (g : ToolFqn) (index : ℕ) (candidates result : CandidateWalks) (walks : List DagWalk)
      → HasTool candidates g
      → add_walks E execution_id vertices locks clock_ms index candidates walks ≡ ok result
      → HasTool result g
  add_walks-keeps g index candidates result [] has h =
      subst (λ cs. HasTool cs g) (ok_injective h) has
  add_walks-keeps g index candidates result (walk ∷ walks) has h =
      let (candidates', first, rest) =
        >>=-eq-ok
          (add_walk E execution_id vertices locks index candidates
            (abortable_timeout_expired_vertex walk clock_ms))
          _ h in
      add_walks-keeps g (index + 1) candidates' result walks
        (add_walk-keeps g index candidates candidates'
          (abortable_timeout_expired_vertex walk clock_ms) has first)
        rest

  -- The tool of a walk that can be aborted, and whose vertex is locked, is in the result.
  pub add_walks-HasTool :
      (i index : ℕ) (candidates result : CandidateWalks) (walks : List DagWalk) (walk : DagWalk)
      (v : RuntimeVertex) (lock : VertexLock)
      → get_elem? walks i ≡ some walk
      → abortable_timeout_expired_vertex walk clock_ms ≡ some v
      → vertex_lock E execution_id vertices locks v ≡ ok lock
      → lock.locked ≡ true
      → add_walks E execution_id vertices locks clock_ms index candidates walks ≡ ok result
      → HasTool result lock.fqn
  add_walks-HasTool i index candidates result [] walk v lock at abortable found locked h = cc
  add_walks-HasTool zero index candidates result (w ∷ walks) walk v lock at abortable found locked
        h =
      let (candidates', first, rest) =
        >>=-eq-ok
          (add_walk E execution_id vertices locks index candidates
            (abortable_timeout_expired_vertex w clock_ms))
          _ h in
      let same : abortable_timeout_expired_vertex w clock_ms ≡ some v =
        subst (λ x. abortable_timeout_expired_vertex x clock_ms ≡ some v) (sym (some_injective at))
          abortable in
      let has =
        add_walk-HasTool index candidates candidates' (abortable_timeout_expired_vertex w clock_ms)
          v lock same found locked first in
      add_walks-keeps lock.fqn (index + 1) candidates' result walks has rest
  add_walks-HasTool (suc i) index candidates result (w ∷ walks) walk v lock at abortable found
        locked h =
      let (candidates', first, rest) =
        >>=-eq-ok
          (add_walk E execution_id vertices locks index candidates
            (abortable_timeout_expired_vertex w clock_ms))
          _ h in
      add_walks-HasTool i (index + 1) candidates' result walks walk v lock at abortable found locked
        rest
