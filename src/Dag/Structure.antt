-- ===== src/Dag/Structure.antt =====
-- `try_into_graph` of sdk/src/dag/validator.rs: entry groups, the graph, and the structure checks.
-- A loop over a hash set is a loop over a list of its elements.
pub mod Vertices
pub mod Ports
pub mod Loops
pub mod Sound
use nexus_sdk.Prelude.{
  ℕ, String, Bool, true, false, not, ◌&&◌, ◌||◌, Option, none, some, List, [], ◌∷◌, ◌++◌, map,
  if◌then◌else◌, Result, ok, err, ◌>>=◌, ◌>>◌, bail_if, try_all, try_fold, Assoc, lookup, insert,
  contains_key, any, filter, contains, length, ◌==◌, eqb, string_eq, pair_eq,
}
use nexus_sdk.Dag.Spec.{
  EdgeKind, do_while, break, kind_eq, DagSpec, DagVertex, DagEntryGroup, DagEntryPort,
  DagDefaultValue, DagEdge, default_entry_group,
}
use nexus_sdk.Dag.Node.{GraphNode, input_port, vertex, output_variant, node_eq}
use nexus_sdk.Dag.Petgraph.{DiGraph}
use nexus_sdk.Dag.Errors.{
  DagError, unknown_group_vertex, no_entry, not_connected, vertex_redefined, entry_port_has_edge,
  entry_port_redefined, default_value_taken, outputs_and_edges, no_break, no_do_while,
  do_while_and_break,
}
use nexus_sdk.Dag.Build.{Building, start, add, add_edges}

abbrev pub Groups : Type 0
Groups = Assoc GraphNode (List String)

abbrev pub is_empty {ℓ} : {A : Type ℓ} → List A → Bool
is_empty [] = true
is_empty (x ∷ xs) = false

abbrev pub or_default {ℓ} : {A : Type ℓ} → Option (List A) → List A
or_default none = []
or_default (some xs) = xs

unfoldable pub is_defined : DagSpec → String → Bool
is_defined dag name = any (λ v. v.name == name) dag.vertices

unfoldable pub add_member : DagSpec → String → Groups → String → Result DagError Groups
add_member dag group groups member = do
  bail_if (not (is_defined dag member)) (unknown_group_vertex group member)
  ok (insert (vertex member) (or_default (lookup (vertex member) groups) ++ group ∷ []) groups)

unfoldable pub add_group : DagSpec → Groups → DagEntryGroup → Result DagError Groups
add_group dag groups g = try_fold (add_member dag g.name) groups g.vertices

unfoldable pub default_groups : Groups → List DagVertex → Groups
default_groups groups [] = groups
default_groups groups (v ∷ vs) =
    default_groups
      (if is_empty v.entry_ports
        then groups
        else insert (vertex v.name) (default_entry_group ∷ []) groups)
      vs

unfoldable pub vertex_entry_groups : DagSpec → Result DagError Groups
vertex_entry_groups dag =
    if is_empty dag.entry_groups
    then ok (default_groups [] dag.vertices)
    else try_fold (add_group dag) [] dag.entry_groups

-- `set.insert(x)`: fails with `e` if the element was there.
abbrev pub insert_new : List GraphNode → GraphNode → DagError → Result DagError (List GraphNode)
insert_new set x e = if contains set x then err e else ok (x ∷ set)

module _ (G : DiGraph GraphNode EdgeKind) where
  -- If the DAG has no edges and only 1 vertex, the vertex is added as a node.
  unfoldable pub placed : DagSpec → Building G → DagVertex → Building G
  placed dag b v =
      if is_empty dag.edges && eqb (length dag.vertices) 1 then (add G (vertex v.name) b).0 else b

  unfoldable pub check_vertex :
      DagSpec
      → Building G × List GraphNode
      → DagVertex
      → Result DagError (Building G × List GraphNode)
  check_vertex dag (b, seen) v =
      let b' = placed dag b v in
      do
        bail_if (not (contains_key (vertex v.name) b'.graph_nodes)) (not_connected (vertex v.name))
        seen' ← insert_new seen (vertex v.name) (vertex_redefined (vertex v.name))
        ok (b', seen')

unfoldable pub check_entry_port :
    Assoc GraphNode ℕ → String → List GraphNode → DagEntryPort → Result DagError (List GraphNode)
check_entry_port nodes owner seen port = do
  bail_if (contains_key (input_port owner port.name) nodes)
      (entry_port_has_edge (input_port owner port.name))
  insert_new seen (input_port owner port.name) (entry_port_redefined (input_port owner port.name))

-- The loop skips a vertex without entry ports; an inner loop over none does so too.
unfoldable pub check_entry_ports :
    Assoc GraphNode ℕ → List GraphNode → DagVertex → Result DagError (List GraphNode)
check_entry_ports nodes seen v =
    if is_empty v.entry_ports
    then ok seen
    else try_fold (check_entry_port nodes v.name) seen v.entry_ports

unfoldable pub check_default_value :
    Assoc GraphNode ℕ → List GraphNode → DagDefaultValue → Result DagError (Unit {0})
check_default_value nodes entry_ports d =
    bail_if
      (contains_key (input_port d.vertex d.input_port) nodes
        || contains entry_ports (input_port d.vertex d.input_port))
      (default_value_taken (input_port d.vertex d.input_port))

unfoldable pub check_outputs : DagSpec → DagVertex → Result DagError (Unit {0})
check_outputs dag v =
    bail_if
      (any (λ o. o.vertex == v.name) dag.outputs && any (λ e. e.from.vertex == v.name) dag.edges)
      (outputs_and_edges (vertex v.name))

abbrev pub of_kind : EdgeKind → DagSpec → List DagEdge
of_kind k dag = filter (λ e. e.kind == k) dag.edges

abbrev pub vertices_with : EdgeKind → DagSpec → List String
vertices_with k dag = map (λ e. e.from.vertex) (of_kind k dag)

abbrev pub variants_with : EdgeKind → DagSpec → List (String × String)
variants_with k dag = map (λ e. (e.from.vertex, e.from.output_variant)) (of_kind k dag)

-- Each vertex with a do-while edge has a break edge and the other way round, on different variants.
unfoldable pub check_loops : DagSpec → Result DagError (Unit {0})
check_loops dag = do
  try_all (λ v. bail_if (not (contains (vertices_with break dag) v)) (no_break v))
      (vertices_with do_while dag)
  try_all (λ v. bail_if (not (contains (vertices_with do_while dag) v)) (no_do_while v))
      (vertices_with break dag)
  try_all
      (λ v.
        bail_if (contains (variants_with break dag) v)
          (do_while_and_break (output_variant v.0 v.1)))
      (variants_with do_while dag)

module _ (G : DiGraph GraphNode EdgeKind) where
  unfoldable pub try_into_graph : DagSpec → Result DagError (G.Graph × Groups)
  try_into_graph dag = do
    groups ← vertex_entry_groups dag
    bail_if (is_empty groups) no_entry
    built ← add_edges G (start G) dag.edges
    checked ← try_fold (check_vertex G dag) (built, []) dag.vertices
    entry_ports ← try_fold (check_entry_ports checked.0.graph_nodes) [] dag.vertices
    try_all (check_default_value checked.0.graph_nodes entry_ports) dag.default_values
    try_all (check_outputs dag) dag.vertices
    check_loops dag
    ok (checked.0.graph, groups)
