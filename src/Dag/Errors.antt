-- ===== src/Dag/Errors.antt =====
-- The refusals of sdk/src/dag/validator.rs: one constructor for each `bail!`, with the values that its
-- message shows. Where the message shows a node, the index of the node may stand for it.
use nexus_sdk.Prelude.{ℕ, String}
use nexus_sdk.Dag.Node.{GraphNode}

pub data DagError : Type 0 where
  -- `try_into_graph`
  unknown_group_vertex : (group vertex : String) → DagError
  no_entry : DagError
  variant_edge_exists port_edge_exists : (from to : GraphNode) → DagError
  not_connected vertex_redefined : GraphNode → DagError
  entry_port_has_edge entry_port_redefined default_value_taken : GraphNode → DagError
  outputs_and_edges : GraphNode → DagError
  no_break no_do_while : (vertex : String) → DagError
  do_while_and_break : GraphNode → DagError
  -- `validate`
  has_cycle : DagError
  -- `has_correct_order_of_actions`
  wrong_out_degree : (node : ℕ) → DagError
  invalid_edge : (from to : ℕ) → DagError
  -- `follows_concurrency_rules`
  unreachable race_condition : (node : ℕ) (group : String) → DagError
  -- `validate_for_each_pairs`
  entry_not_found : GraphNode → DagError
  for_each_not_collected collect_without_for_each nested_for_each : (node : ℕ) → DagError
  loop_in_for_each static_in_for_each : (node : ℕ) → DagError
  -- `validate_do_while_nesting`
  nested_loop : (node : ℕ) → DagError
