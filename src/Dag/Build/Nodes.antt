-- ===== src/Dag/Build/Nodes.antt =====
-- The nodes that the graph has after the edges of a DAG.
use nexus_sdk.Prelude.{
  ℕ, ◌≡◌, ap, inl, inr, Bool, ◌||◌, List, [], ◌∷◌, arith, ok, >>=-eq-ok, lookup, contains_key,
  contains_key-insert, any, ◌==◌, ==_iff, Option-cases,
}
use nexus_sdk.Dag.Spec.{EdgeKind, DagEdge}
use nexus_sdk.Dag.Node.{GraphNode, node_eq}
use nexus_sdk.Dag.Petgraph.{DiGraph}
use nexus_sdk.Dag.Build.{
  origin_vertex, variant_of, port_of, destination_vertex, input_of, Building, node_of, link,
  add_dag_edge, add_edges,
}

-- The edge has the node as one of its five.
unfoldable pub mentions : GraphNode → DagEdge → Bool
mentions n e =
    origin_vertex e == n
    || variant_of e == n
    || port_of e == n
    || destination_vertex e == n
    || input_of e == n

module _ (G : DiGraph GraphNode EdgeKind) where
  abbrev pub knows : Building G → GraphNode → Bool
  knows b n = contains_key n b.graph_nodes

  pub knows-node_of :
      (m n : GraphNode) (b : Building G) → knows (node_of G m b).0 n ≡ (m == n || knows b n)
  unfolding node_of contains_key
  knows-node_of m n b = elim (Option-cases (lookup m b.graph_nodes)) [
    | inl new ↦ ground (arith, contains_key-insert m n (G.add_node b.graph m).1 b.graph_nodes)
    | inr (i, old) ↦ ground (arith, ==_iff m n)
  ]

  graph_nodes-link :
      (b b' : Building G) (e : DagEdge) (origin variant port destination input : ℕ)
      → link G b e origin variant port destination input ≡ ok b'
      → b.graph_nodes ≡ b'.graph_nodes
  unfolding link
  graph_nodes-link b b' e origin variant port destination input h = ground arith

  pub knows-add_dag_edge :
      (b b' : Building G) (e : DagEdge) (n : GraphNode)
      → add_dag_edge G b e ≡ ok b'
      → knows b' n ≡ (mentions n e || knows b n)
  unfolding add_dag_edge mentions
  knows-add_dag_edge b b' e n h =
      let b1 = (node_of G (origin_vertex e) b).0 in
      let b2 = (node_of G (variant_of e) b1).0 in
      let b3 = (node_of G (port_of e) b2).0 in
      let b4 = (node_of G (destination_vertex e) b3).0 in
      let b5 = (node_of G (input_of e) b4).0 in
      let same : knows b5 n ≡ knows b' n =
        ap (contains_key n) (graph_nodes-link b5 b' e _ _ _ _ _ h) in
      ground (
        arith,
        same,
        knows-node_of (origin_vertex e) n b,
        knows-node_of (variant_of e) n b1,
        knows-node_of (port_of e) n b2,
        knows-node_of (destination_vertex e) n b3,
        knows-node_of (input_of e) n b4,
      )

  pub knows-add_edges :
      (b b' : Building G) (es : List DagEdge) (n : GraphNode)
      → add_edges G b es ≡ ok b'
      → knows b' n ≡ (any (mentions n) es || knows b n)
  unfolding add_edges
  knows-add_edges b b' [] n h = ground arith
  knows-add_edges b b' (e ∷ es) n h =
      let (c, first, rest) = >>=-eq-ok (add_dag_edge G b e) (λ c. add_edges G c es) h in
      ground (arith, knows-add_dag_edge b c e n first, knows-add_edges c b' es n rest)
