-- ===== src/Dag/Order.antt =====
-- `has_correct_order_of_actions` of sdk/src/dag/validator.rs.
pub mod Ordered
use nexus_sdk.Prelude.{
  ℕ, Bool, false, not, Option, none, some, Result, ◌>>◌, bail_if, try_all, length, eqb,
}
use nexus_sdk.Dag.Spec.{EdgeKind}
use nexus_sdk.Dag.Node.{
  GraphNode, input_port, vertex, output_variant, output_port, is_input_port, is_vertex,
  is_output_variant, is_output_port,
}
use nexus_sdk.Dag.Petgraph.{DiGraph}
use nexus_sdk.Dag.Errors.{DagError, wrong_out_degree, invalid_edge}

-- Ports have exactly one outgoing edge, variants at least one, tools any number.
unfoldable pub degree_is_wrong : Option GraphNode → ℕ → Bool
degree_is_wrong (some (input_port v n)) d = not (eqb d 1)
degree_is_wrong (some (vertex n)) d = false
degree_is_wrong (some (output_variant v n)) d = eqb d 0
degree_is_wrong (some (output_port v r n)) d = not (eqb d 1)
degree_is_wrong none d = false

unfoldable pub follows : Option GraphNode → Option GraphNode → Bool
follows (some (input_port v n)) next = is_vertex next
follows (some (vertex n)) next = is_output_variant next
follows (some (output_variant v n)) next = is_output_port next
follows (some (output_port v r n)) next = is_input_port next
follows none next = false

module _ (G : DiGraph GraphNode EdgeKind) (g : G.Graph) where
  unfoldable pub check_node : ℕ → Result DagError (Unit {0})
  check_node node = do
    bail_if (degree_is_wrong (G.node_weight g node) (length (G.neighbors g node)))
        (wrong_out_degree node)
    try_all
        (λ next.
          bail_if (not (follows (G.node_weight g node) (G.node_weight g next)))
            (invalid_edge node next))
        (G.neighbors g node)

  unfoldable pub has_correct_order_of_actions : Result DagError (Unit {0})
  has_correct_order_of_actions = try_all check_node (G.node_indices g)
