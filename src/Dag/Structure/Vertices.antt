-- ===== src/Dag/Structure/Vertices.antt =====
-- The loop of `try_into_graph` over the vertices: each is in the graph, and none is defined twice.
use nexus_sdk.Prelude.{
  ◌≡◌, ◌∙◌, ap, ◌⊎◌, inl, inr, String, true, List, [], ◌∷◌, map, Memᴰ, arith, ok, >>=-eq-ok,
  try_fold, try_fold_inv, mem-contains, contains_key, contains_key-insert, length, All, IsDistinct,
  add_all,
}
use nexus_sdk.Dag.Spec.{EdgeKind, DagSpec, DagVertex}
use nexus_sdk.Dag.Node.{GraphNode, vertex, input_port, node_eq}
use nexus_sdk.Dag.Petgraph.{DiGraph}
use nexus_sdk.Dag.Errors.{DagError, vertex_redefined}
use nexus_sdk.Dag.Build.{Building}
use nexus_sdk.Dag.Structure.{is_empty, insert_new, placed, check_vertex}

pub insert_new-eq-ok :
    (seen : List GraphNode) (x : GraphNode) (e : DagError) {seen' : List GraphNode}
    → insert_new seen x e ≡ ok seen'
    → (seen' ≡ x ∷ seen) × (¬ Memᴰ x seen)
insert_new-eq-ok seen x e h =
    (ground arith, λ m. let known = mem-contains m in absurd (ground arith))

-- The DAG is one vertex with no edges.
abbrev pub IsSingle : DagSpec → Type 0
IsSingle dag = (is_empty dag.edges ≡ true) × (length dag.vertices ≡ 1)

module _ (G : DiGraph GraphNode EdgeKind) (dag : DagSpec) where
  knows-placed :
      (b : Building G) (v : DagVertex) (name : String)
      → contains_key (vertex name) (placed G dag b v).graph_nodes ≡ true
      → (contains_key (vertex name) b.graph_nodes ≡ true) ⊎ IsSingle dag
  unfolding placed
  knows-placed b v name h = ground arith

  ports-placed :
      (b : Building G) (v : DagVertex) (o p : String)
      → contains_key (input_port o p) (placed G dag b v).graph_nodes
        ≡ contains_key (input_port o p) b.graph_nodes
  unfolding placed
  ports-placed b v o p = ground (
    arith,
    contains_key-insert (vertex v.name) (input_port o p) (G.add_node b.graph (vertex v.name)).1
        b.graph_nodes,
  )

  module _ (b b' : Building G) (seen seen' : List GraphNode) (v : DagVertex)
      (checked : check_vertex G dag (b, seen) v ≡ ok (b', seen')) where
    placed_known : contains_key (vertex v.name) (placed G dag b v).graph_nodes ≡ true
    unfolding check_vertex
    placed_known = ground arith

    placed_result :
        (placed G dag b v ≡ b')
        × (insert_new seen (vertex v.name) (vertex_redefined (vertex v.name)) ≡ ok seen')
    unfolding check_vertex
    placed_result = ground arith

    vertex_known : (contains_key (vertex v.name) b.graph_nodes ≡ true) ⊎ IsSingle dag
    vertex_known = knows-placed b v v.name placed_known

  -- What the loop over the vertices has found when it ends.
  pub record Passed (b b' : Building G) (seen seen' : List GraphNode) (vs : List DagVertex)
      : Type 0 where
    pub known : All (λ v. (contains_key (vertex v.name) b.graph_nodes ≡ true) ⊎ IsSingle dag) vs
    pub grown : seen' ≡ add_all seen (map (λ v. vertex v.name) vs)
    pub ports :
        (o p : String)
        → contains_key (input_port o p) b'.graph_nodes ≡ contains_key (input_port o p) b.graph_nodes

  weaken :
      (b b' : Building G) (v : DagVertex)
      → placed G dag b v ≡ b'
      → (vs : List DagVertex)
      → All (λ w. (contains_key (vertex w.name) b'.graph_nodes ≡ true) ⊎ IsSingle dag) vs
      → All (λ w. (contains_key (vertex w.name) b.graph_nodes ≡ true) ⊎ IsSingle dag) vs
  weaken b b' v e [] h = tt
  weaken b b' v e (w ∷ vs) (inl k, h) = (knows-placed b v w.name (rw e k), weaken b b' v e vs h)
  weaken b b' v e (w ∷ vs) (inr s, h) = (inr s, weaken b b' v e vs h)

  pub check_vertices-Passed :
      (b b' : Building G) (seen seen' : List GraphNode) (vs : List DagVertex)
      → try_fold (check_vertex G dag) (b, seen) vs ≡ ok (b', seen')
      → Passed b b' seen seen' vs
  check_vertices-Passed b b' seen seen' [] h = record {
    known = tt;
    grown = ground arith;
    ports = λ o p. ground arith;
  }
  check_vertices-Passed b b' seen seen' (v ∷ vs) h =
      let ((c, mid), first, rest) =
        >>=-eq-ok (check_vertex G dag (b, seen) v) (λ t. try_fold (check_vertex G dag) t vs) h in
      let (is_c, put) = placed_result b c seen mid v first in
      let (grown, fresh) =
        insert_new-eq-ok seen (vertex v.name) (vertex_redefined (vertex v.name)) put in
      let later = check_vertices-Passed c b' mid seen' vs rest in
      record {
        known = (vertex_known b c seen mid v first, weaken b c v is_c vs later.known);
        grown = later.grown ∙ ap (λ s. add_all s (map (λ w. vertex w.name) vs)) grown;
        ports = λ o p. later.ports o p ∙ (rw (← is_c) (ports-placed b v o p));
      }

  check_vertex-IsDistinct :
      (s s' : Building G × List GraphNode) (v : DagVertex)
      → IsDistinct s.1
      → check_vertex G dag s v ≡ ok s'
      → IsDistinct s'.1
  check_vertex-IsDistinct (b, seen) (b', seen') v d h =
      let (_, put) = placed_result b b' seen seen' v h in
      let (grown, fresh) =
        insert_new-eq-ok seen (vertex v.name) (vertex_redefined (vertex v.name)) put in
      rw grown (fresh, d)

  pub check_vertices-IsDistinct :
      (b b' : Building G) (seen seen' : List GraphNode) (vs : List DagVertex)
      → IsDistinct seen
      → try_fold (check_vertex G dag) (b, seen) vs ≡ ok (b', seen')
      → IsDistinct seen'
  check_vertices-IsDistinct b b' seen seen' vs d h =
      try_fold_inv (λ (s : Building G × List GraphNode). IsDistinct s.1) (check_vertex G dag)
        check_vertex-IsDistinct (b, seen) (b', seen') vs d h
