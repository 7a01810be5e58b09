-- ===== src/Dag/Build.antt =====
-- The graph that `try_into_graph` of sdk/src/dag/validator.rs builds from the edges of a DAG.
pub mod Nodes
use Prim.Native.String
use nexus_sdk.Prelude.{
  ℕ, String, none, some, List, [], if◌then◌else◌, Result, ok, ◌>>◌, bail_if, try_fold, Assoc,
  lookup, insert,
}
use nexus_sdk.Dag.Spec.{EdgeKind, normal, do_while, DagEdge}
use nexus_sdk.Dag.Node.{GraphNode, input_port, vertex, output_variant, output_port, node_eq}
use nexus_sdk.Dag.Petgraph.{DiGraph}
use nexus_sdk.Dag.Errors.{DagError, variant_edge_exists, port_edge_exists}

-- The five nodes of an edge. A do-while edge leads to a phantom copy of its destination.
abbrev pub origin_vertex : DagEdge → GraphNode
origin_vertex e = vertex e.from.vertex

abbrev pub variant_of : DagEdge → GraphNode
variant_of e = output_variant e.from.vertex e.from.output_variant

abbrev pub port_of : DagEdge → GraphNode
port_of e = output_port e.from.vertex e.from.output_variant e.from.output_port

abbrev pub destination_name : EdgeKind → String → String
destination_name do_while name = String.◌++◌ name "-do-while"
destination_name _ name = name

abbrev pub destination_vertex : DagEdge → GraphNode
destination_vertex e = vertex (destination_name e.kind e.to.vertex)

abbrev pub input_of : DagEdge → GraphNode
input_of e = input_port (destination_name e.kind e.to.vertex) e.to.input_port

module _ (G : DiGraph GraphNode EdgeKind) where
  pub record Building : Type 0 where
    pub graph : G.Graph
    pub graph_nodes : Assoc GraphNode ℕ

  abbrev pub start : Building
  start = record { graph = G.new; graph_nodes = [] }

  abbrev pub add : GraphNode → Building → Building × ℕ
  add n b =
      let (graph, node) = G.add_node b.graph n in
      (record { graph = graph; graph_nodes = insert n node b.graph_nodes }, node)

  -- `graph_nodes.get(&n).copied().unwrap_or_else(…)`
  unfoldable pub node_of : GraphNode → Building → Building × ℕ
  node_of n b = elim (lookup n b.graph_nodes) [ none ↦ add n b | some node ↦ (b, node) ]

  unfoldable pub ensure_edge : G.Graph → ℕ → ℕ → G.Graph
  ensure_edge g a b = if G.contains_edge g a b then g else G.add_edge g a b normal

  -- The checks and the edges between the five nodes of an edge.
  unfoldable pub link :
      Building → DagEdge → (origin variant port destination input : ℕ) → Result DagError Building
  link b e origin variant port destination input = do
    bail_if (G.contains_edge b.graph variant port) (variant_edge_exists (variant_of e) (port_of e))
    bail_if (G.contains_edge b.graph port input) (port_edge_exists (port_of e) (input_of e))
    let allowed = ensure_edge (ensure_edge b.graph origin variant) input destination
    let ported = G.add_edge allowed variant port normal
    ok (record b { graph = G.add_edge ported port input e.kind })

  unfoldable pub add_dag_edge : Building → DagEdge → Result DagError Building
  add_dag_edge b e =
      let (b1, origin) = node_of (origin_vertex e) b in
      let (b2, variant) = node_of (variant_of e) b1 in
      let (b3, port) = node_of (port_of e) b2 in
      let (b4, destination) = node_of (destination_vertex e) b3 in
      let (b5, input) = node_of (input_of e) b4 in link b5 e origin variant port destination input

  unfoldable pub add_edges : Building → List DagEdge → Result DagError Building
  add_edges = try_fold add_dag_edge
