-- ===== src/Dag/Tests.antt =====
-- Runs of the DAG validator on a list graph, and the theorems at concrete DAGs.
use nexus_sdk.Prelude.{
  ℕ, ◌≤◌, ◌≡◌, refl, ◌↔◌, String, none, some, List, [], ◌∷◌, Result, ok, err, lookup, insert,
  contains_key,
}
use nexus_sdk.Prelude.Int.{◌+ℤ◌, ◌-ℤ◌}
use nexus_sdk.ToolFqn.{ToolFqn}
use nexus_sdk.Dag.Spec.{
  EdgeKind, normal, for_each, collect, do_while, break, off_chain, DagVertex, DagEdge, DagSpec,
  DagEntryPort,
}
use nexus_sdk.Dag.Node.{GraphNode, vertex, input_port, output_port, output_variant}
use nexus_sdk.Dag.Petgraph.{DiGraph, arc}
use nexus_sdk.Dag.ListGraph.{list_graph, simple_paths, list_graph-IsDiGraph}
use nexus_sdk.Dag.Errors.{DagError, race_condition, for_each_not_collected}
use nexus_sdk.Dag.Build.{node_of, ensure_edge, link, add_dag_edge, add_edges}
use nexus_sdk.Dag.Structure
use nexus_sdk.Dag.Structure.{try_into_graph}
use nexus_sdk.Dag.Order.{degree_is_wrong, follows, check_node, has_correct_order_of_actions}
use nexus_sdk.Dag.Concurrency
use nexus_sdk.Dag.ForEach
use nexus_sdk.Dag.ForEach.{validate_for_each_pairs}
use nexus_sdk.Dag.ForEach.Correct.{EntriesPaired, for_each_decides}
use nexus_sdk.Dag.DoWhile
use nexus_sdk.Dag.Validate.Valid.{IsValid, validate_decides}
use nexus_sdk.Dag.Structure.Sound.{IsWellFormed, try_into_graph-IsWellFormed}
use nexus_sdk.Dag.Order.Ordered.{IsOrdered, has_correct_order_of_actions_iff}
use nexus_sdk.Dag.Concurrency.Balance.{IsRaceFree, follows_concurrency_rules_iff}
use nexus_sdk.Dag.DoWhile.Nesting.{IsFlat, validate_do_while_nesting_iff}
use nexus_sdk.Dag.Validate.{check_graph, after_search, check_built, validate}

abbrev petgraph : DiGraph GraphNode EdgeKind
petgraph = list_graph GraphNode EdgeKind

abbrev tool : ToolFqn
tool = record { domain = b'x' ∷ b'y' ∷ b'z' ∷ []; name = b't' ∷ b'e' ∷ []; version = 1 }

abbrev node : String → List DagEntryPort → DagVertex
node name ports = record {
  kind = off_chain tool;
  name = name;
  entry_ports = ports;
  post_failure_action = none;
  verifier = none;
}

abbrev edge : String → String → String → EdgeKind → String → String → DagEdge
edge from variant port kind to input = record {
  from = record { vertex = from; output_variant = variant; output_port = port };
  to = record { vertex = to; input_port = input };
  kind = kind;
}

abbrev dag_of : List DagVertex → List DagEdge → DagSpec
dag_of vertices edges = record {
  vertices = vertices;
  edges = edges;
  default_values = [];
  post_failure_action = none;
  entry_groups = [];
  outputs = [];
}

abbrev entry : List DagEntryPort
entry = record { name = "start" } ∷ []

abbrev looped : DagSpec
looped =
    dag_of (node "a" entry ∷ node "b" [] ∷ node "c" [] ∷ [])
      (edge "a" "ok" "out" for_each "b" "in" ∷ edge "b" "ok" "out" collect "c" "in" ∷ [])

abbrev unclosed : DagSpec
unclosed = dag_of (node "a" entry ∷ node "b" [] ∷ []) (edge "a" "ok" "out" for_each "b" "in" ∷ [])

abbrev racing : DagSpec
racing =
    dag_of (node "a" entry ∷ node "b" [] ∷ [])
      (edge "a" "ok" "one" normal "b" "in" ∷ edge "a" "ok" "two" normal "b" "in" ∷ [])

abbrev repeating : DagSpec
repeating = dag_of (node "a" entry ∷ node "b" [] ∷ node "c" [] ∷ []) (
    edge "a" "ok" "out" normal "b" "in"
    ∷ edge "b" "again" "out" do_while "a" "back"
    ∷ edge "b" "done" "out" break "c" "in"
    ∷ [])

-- Everything that a run of the validator computes with.
run : Unit {0}
unfolding validate check_graph after_search check_built try_into_graph add_edges add_dag_edge link
    ensure_edge node_of simple_paths lookup insert contains_key Structure.vertex_entry_groups
    Structure.default_groups Structure.check_vertex Structure.placed Structure.check_entry_ports
    Structure.check_entry_port Structure.check_default_value Structure.check_outputs
    Structure.check_loops Structure.is_defined Structure.add_member Structure.add_group
    degree_is_wrong follows check_node has_correct_order_of_actions Concurrency.to_set
    Concurrency.ports_on_paths Concurrency.max_concurrency Concurrency.spawned
    Concurrency.node_concurrency Concurrency.net_from Concurrency.get_net_concurrency_in_subgraph
    Concurrency.groups_of Concurrency.entry_vertices Concurrency.nodes_in_paths
    Concurrency.check_concurrency Concurrency.check_port Concurrency.follows_concurrency_rules ◌+ℤ◌
    ◌-ℤ◌ ForEach.next_state ForEach.edge_entry ForEach.at_end ForEach.visit ForEach.search_walks
    ForEach.find_node ForEach.entry_of ForEach.entry_stack ForEach.validate_for_each_pairs
    DoWhile.strip_suffix DoWhile.original_name DoWhile.is_destination DoWhile.destination
    DoWhile.loop_of DoWhile.loop_nodes DoWhile.check_loop DoWhile.validate_do_while_nesting
run = tt

accepts_looped : validate petgraph 100 looped ≡ some (ok tt)
unfolding run
accepts_looped = refl

refuses_unclosed : validate petgraph 100 unclosed ≡ some (err (for_each_not_collected 3))
unfolding run
refuses_unclosed = refl

refuses_racing : validate petgraph 100 racing ≡ some (err (race_condition 4 "_default_group"))
unfolding run
refuses_racing = refl

accepts_repeating : validate petgraph 100 repeating ≡ some (ok tt)
unfolding run
accepts_repeating = refl

-- The graph of `looped`, and its entry groups.
abbrev built : Result DagError (petgraph.Graph × Structure.Groups)
built = try_into_graph petgraph looped

abbrev looped_graph : petgraph.Graph
looped_graph = record {
  nodes =
      input_port "c" "in"
      ∷ vertex "c"
      ∷ output_port "b" "ok" "out"
      ∷ output_variant "b" "ok"
      ∷ input_port "b" "in"
      ∷ vertex "b"
      ∷ output_port "a" "ok" "out"
      ∷ output_variant "a" "ok"
      ∷ vertex "a"
      ∷ [];
  arcs =
      arc 0 1 normal
      ∷ arc 4 3 normal
      ∷ arc 1 2 normal
      ∷ arc 2 4 for_each
      ∷ arc 3 5 normal
      ∷ arc 8 7 normal
      ∷ arc 5 6 normal
      ∷ arc 6 8 collect
      ∷ [];
}

abbrev looped_groups : Structure.Groups
looped_groups = (vertex "a", "_default_group" ∷ []) ∷ []

builds_looped : built ≡ ok (looped_graph, looped_groups)
unfolding run
builds_looped = refl

validate_decides_example :
    (bound : ℕ) × ((fuel : ℕ)
      → bound ≤ fuel
      → (r : Result DagError (Unit {0})) × (validate petgraph fuel looped ≡ some r)
        × ((r ≡ ok tt) ↔ IsValid petgraph looped))
validate_decides_example =
    validate_decides petgraph looped (list_graph-IsDiGraph GraphNode EdgeKind)

try_into_graph-IsWellFormed_example : IsWellFormed looped
try_into_graph-IsWellFormed_example = try_into_graph-IsWellFormed petgraph looped builds_looped

has_correct_order_of_actions_iff_example :
    (has_correct_order_of_actions petgraph looped_graph ≡ ok tt) ↔ IsOrdered petgraph looped_graph
has_correct_order_of_actions_iff_example = has_correct_order_of_actions_iff petgraph looped_graph

follows_concurrency_rules_iff_example :
    (Concurrency.follows_concurrency_rules petgraph looped_graph looped_groups ≡ ok tt)
    ↔ IsRaceFree petgraph looped_graph looped_groups
follows_concurrency_rules_iff_example =
    follows_concurrency_rules_iff petgraph looped_graph looped_groups

validate_do_while_nesting_iff_example :
    (DoWhile.validate_do_while_nesting petgraph looped_graph ≡ ok tt) ↔ IsFlat petgraph looped_graph
validate_do_while_nesting_iff_example = validate_do_while_nesting_iff petgraph looped_graph

for_each_decides_example :
    (bound : ℕ) × ((fuel : ℕ)
      → bound ≤ fuel
      → (r : Result DagError (Unit {0})) × (validate_for_each_pairs petgraph looped_graph fuel
            looped_groups
          ≡ some r)
        × ((r ≡ ok tt) ↔ EntriesPaired petgraph looped_graph looped_groups))
for_each_decides_example =
    for_each_decides petgraph looped_graph looped_groups (list_graph-IsDiGraph GraphNode EdgeKind)
      refl
