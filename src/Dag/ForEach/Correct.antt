-- ===== src/Dag/ForEach/Correct.antt =====
-- The search ends on a graph without cycles, and decides whether every walk from an entry vertex pairs
-- its for-each and collect edges.
use mathlib.Core.Path.{subst, subst⁻¹}
use nexus_sdk.Prelude.{
  ℕ, ◌<◌, ◌≤◌, ◌≡◌, ◌↔◌, inl, inr, false, some, List, [], map, Memᴰ, arith, Result, Result-cases,
  ok, err, All, All-mem, push_all-All, push_all-inv, push_all-fails,
}
use nexus_sdk.Dag.Spec.{EdgeKind}
use nexus_sdk.Dag.Node.{GraphNode}
use nexus_sdk.Dag.Petgraph.{DiGraph, IsDiGraph, Arc, IsWalk}
use nexus_sdk.Dag.Errors.{DagError}
use nexus_sdk.Dag.Structure.{Groups}
use nexus_sdk.Dag.ForEach.{
  ForEachState, idle, Stack, search_walks, find_node, entry_of, entry_stack,
  validate_for_each_pairs,
}
use nexus_sdk.Dag.ForEach.Language.{Accepts, Paired}
use nexus_sdk.Dag.ForEach.Search.{labels, Accepting, search_walks_sound, search_walks_complete}
use nexus_sdk.Dag.ForEach.Termination.{stack-Ends}

abbrev pub keys : Groups → List GraphNode
keys groups = map (λ entry. entry.0) groups

module _ (G : DiGraph GraphNode EdgeKind) (g : G.Graph) where
  -- Every entry vertex is in the graph, and the labels of each walk from it that cannot go on pair up.
  abbrev pub EntriesPaired : Groups → Type 0
  EntriesPaired groups =
      (n : GraphNode)
      → Memᴰ n (keys groups)
      → (i : ℕ) × (find_node G g n ≡ some i)
        × ((es : List (Arc EdgeKind)) (b : ℕ)
            → IsWalk (G.edge_references g) i es b
            → G.edges g b ≡ []
            → Paired (labels es))

module _ (G : DiGraph GraphNode EdgeKind) (g : G.Graph) (groups : Groups) {stack : Stack}
    (pushed : entry_stack G g groups ≡ ok stack) where
  found :
      (n : GraphNode) {y : ℕ × ForEachState}
      → entry_of G g n ≡ ok y
      → (find_node G g n ≡ some y.0) × (y.1 ≡ idle)
  unfolding entry_of
  found n h = (ground arith, ground arith)

  paired_of_Accepting : All (Accepting G g) stack → EntriesPaired G g groups
  unfolding entry_stack
  paired_of_Accepting all n m =
      let (y, entry, acc) =
        All-mem _ (push_all-All (entry_of G g) (Accepting G g) [] (keys groups) pushed all).1 m in
      let (at, is_idle) = found n entry in
      (y.0, at, λ es b w sink. subst (λ t. Accepts t (labels es)) is_idle (acc es b w sink))

  Accepting-of_paired : EntriesPaired G g groups → All (Accepting G g) stack
  unfolding entry_stack
  Accepting-of_paired paired =
      push_all-inv (entry_of G g) (All (Accepting G g)) [] (keys groups) pushed
        (λ n y t m entry acc.
          let (i, at, words) = paired n m in
          let (at', is_idle) = found n entry in
          let same : y.0 ≡ i = cc (at, at') in
          (
            λ es b w sink.
                subst⁻¹ (λ t. Accepts t (labels es)) is_idle
                  (words es b (subst (λ a. IsWalk (G.edge_references g) a es b) same w) sink),
            acc,
          ))
        tt

  module _ (laws : IsDiGraph G) (rank : ℕ → ℕ)
      (falls : (e : Arc EdgeKind) → Memᴰ e (G.edge_references g) → rank e.target < rank e.source)
      (fuel : ℕ) {r : Result DagError (Unit {0})}
      (returned : search_walks G g fuel stack ≡ some r) where
    decides : (r ≡ ok tt) ↔ EntriesPaired G g groups
    decides = (
      λ accepted.
          paired_of_Accepting (search_walks_sound laws g fuel stack (rw (← accepted) returned)),
      λ paired.
          search_walks_complete laws g rank falls fuel stack r (Accepting-of_paired paired)
            returned,
    )

module _ (G : DiGraph GraphNode EdgeKind) (g : G.Graph) (groups : Groups) where
  unfound : {e : DagError} → entry_stack G g groups ≡ err e → ¬ EntriesPaired G g groups
  unfolding entry_stack entry_of
  unfound h paired =
      let (n, m, fails) = push_all-fails (entry_of G g) [] (keys groups) h in
      let (i, at, _) = paired n m in absurd (ground arith)

  -- On a graph without cycles the check returns a result for every fuel above some bound, and the
  -- result is `Ok` exactly when every entry vertex is in the graph and the labels of each walk from it
  -- to a node without outgoing edges pair up: each for-each edge is followed by normal edges and then
  -- a collect edge, and no collect edge stands elsewhere.
  pub for_each_decides :
      IsDiGraph G
      → G.is_cyclic_directed g ≡ false
      → (bound : ℕ) × ((fuel : ℕ)
          → bound ≤ fuel
          → (r : Result DagError (Unit {0})) × (validate_for_each_pairs G g fuel groups ≡ some r)
            × ((r ≡ ok tt) ↔ EntriesPaired G g groups))
  unfolding validate_for_each_pairs
  for_each_decides laws acyclic = elim (Result-cases (entry_stack G g groups)) [
    | inl (stack, q) ↦
        let (rank, falls) = laws.acyclic_rank g acyclic in
        let ends = stack-Ends laws g rank falls stack in
        (
          ends.bound,
          λ fuel h.
              let (r, returned) = ends.result fuel h in
              (
                r,
                rw (q, validate_for_each_pairs) returned,
                decides G g groups q laws rank falls fuel returned,
              ),
        )
    | inr (e, q) ↦ (
      0,
      λ fuel h. (
        err e,
        rw (q, validate_for_each_pairs),
        (λ accepted. cc, λ paired. absurd (unfound q paired)),
      ),
    )
  ]
