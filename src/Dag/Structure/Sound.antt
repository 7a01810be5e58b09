-- ===== src/Dag/Structure/Sound.antt =====
-- What `try_into_graph` has established of a DAG for which it returns a graph.
use mathlib.Core.Path.{subst}
use mathlib.Core.List.Memᴰ
use nexus_sdk.Prelude.{
  ℕ, ◌≡◌, ◌≢◌, sym, ◌∙◌, ap, ◌⊎◌, inl, inr, String, true, false, List, [], ◌∷◌, map, Memᴰ, arith,
  ok, >>=-eq-ok, bail_if, try_all, try_all-All, try_fold, All, All-mem, All-intro, any, any-mem,
  any_of_mem, not-any, concat, contains, mem-contains, contains_key, lookup, Assoc, IsDistinct,
  IsDistinct-add_all, mem-add_all, ◌==◌, ==_iff, string_eq,
}
use nexus_sdk.Dag.Spec.{
  EdgeKind, do_while, break, DagSpec, DagVertex, DagEdge, DagEntryGroup, DagDefaultValue, DagOutput,
}
use nexus_sdk.Dag.Node.{GraphNode, vertex, input_port, node_eq}
use nexus_sdk.Dag.Petgraph.{DiGraph}
use nexus_sdk.Dag.Errors.{no_entry}
use nexus_sdk.Dag.Build.{destination_vertex, input_of, Building, start, add_edges}
use nexus_sdk.Dag.Build.Nodes.{mentions, knows-add_edges}
use nexus_sdk.Dag.Structure.{
  Groups, vertex_entry_groups, check_vertex, check_entry_ports, check_default_value, check_outputs,
  check_loops, try_into_graph, is_empty,
}
use nexus_sdk.Dag.Structure.Vertices.{
  IsSingle, Passed, check_vertices-Passed, check_vertices-IsDistinct,
}
use nexus_sdk.Dag.Structure.Ports.{ports_of, check_entry_ports-eq-ok, check_entry_ports-IsDistinct}
use nexus_sdk.Dag.Structure.Loops.{
  Leaves, do_while-has_break, break-has_do_while, loops_branch, groups_defined,
}

-- An edge of the DAG starts at the vertex or leads to it.
abbrev pub Touches : DagSpec → String → Type 0
Touches dag name =
    (e : DagEdge) × Memᴰ e dag.edges
    × ((e.from.vertex ≡ name) ⊎ (destination_vertex e ≡ vertex name))

-- No edge leads to the input port; a do-while edge leads to that of a phantom vertex.
abbrev pub HasNoEdge : DagSpec → String → String → Type 0
HasNoEdge dag owner port = (e : DagEdge) → Memᴰ e dag.edges → input_of e ≢ input_port owner port

abbrev pub entry_port_nodes : DagSpec → List GraphNode
entry_port_nodes dag = concat (map ports_of dag.vertices)

pub record IsWellFormed (dag : DagSpec) : Type 0 where
  -- the entry groups name vertices of the DAG
  pub members_defined :
      (g : DagEntryGroup) (name : String)
      → Memᴰ g dag.entry_groups
      → Memᴰ name g.vertices
      → Memᴰ name (map (λ v. v.name) dag.vertices)
  -- no vertex is defined twice, and each has an edge unless it is all of the DAG
  pub names_distinct : IsDistinct (map (λ v. v.name) dag.vertices)
  pub connected : All (λ v. Touches dag v.name ⊎ IsSingle dag) dag.vertices
  -- no entry port is defined twice, and none has an edge leading to it
  pub entry_ports_distinct : IsDistinct (entry_port_nodes dag)
  pub entry_ports_free :
      All (λ v. All (λ p. HasNoEdge dag v.name p.name) v.entry_ports) dag.vertices
  -- a default value stands at no entry port and at no port with an edge
  pub default_values_free :
      All
        (λ d.
          HasNoEdge dag d.vertex d.input_port
          × (¬ Memᴰ (input_port d.vertex d.input_port) (entry_port_nodes dag)))
        dag.default_values
  -- a vertex with a port marked as output has no outgoing edge
  pub outputs_end :
      (v : DagVertex) (o : DagOutput) (e : DagEdge)
      → Memᴰ v dag.vertices
      → Memᴰ o dag.outputs
      → Memᴰ e dag.edges
      → o.vertex ≡ v.name
      → e.from.vertex ≢ v.name
  -- do-while and break edges come together, on different variants
  pub do_while_breaks :
      (e : DagEdge) → Memᴰ e dag.edges → e.kind ≡ do_while → Leaves break dag e.from.vertex
  pub break_repeats :
      (e : DagEdge) → Memᴰ e dag.edges → e.kind ≡ break → Leaves do_while dag e.from.vertex
  pub branches :
      (e d : DagEdge)
      → Memᴰ e dag.edges
      → Memᴰ d dag.edges
      → e.kind ≡ do_while
      → d.kind ≡ break
      → e.from.vertex ≡ d.from.vertex
      → e.from.output_variant ≢ d.from.output_variant

mentions_vertex :
    (e : DagEdge) (name : String)
    → mentions (vertex name) e ≡ true
    → (e.from.vertex ≡ name) ⊎ (destination_vertex e ≡ vertex name)
unfolding mentions
mentions_vertex e name h =
    ground (arith, ==_iff e.from.vertex name, ==_iff (destination_vertex e) (vertex name))

mentions_input :
    (e : DagEdge) (owner port : String)
    → mentions (input_port owner port) e ≡ false
    → input_of e ≢ input_port owner port
unfolding mentions
mentions_input e owner port h q = ground (arith, ==_iff (input_of e) (input_port owner port))

IsDistinct-of_map {ℓ κ μ} :
    {A : Type ℓ} {B : Type κ} {C : Type μ} (f : B → C) (g : A → B) (xs : List A)
    → IsDistinct (map (λ x. f (g x)) xs)
    → IsDistinct (map g xs)
IsDistinct-of_map f g [] d = tt
IsDistinct-of_map f g (x ∷ xs) d = (
  λ m.
      let (a, n, q) = Memᴰ.of_map g xs m in
      d.0 (Memᴰ.cast (ap f (sym q)) (Memᴰ.map (λ y. f (g y)) n)),
  IsDistinct-of_map f g xs d.1,
)

module _ (G : DiGraph GraphNode EdgeKind) (dag : DagSpec) (built : Building G)
    (edged : add_edges G (start G) dag.edges ≡ ok built) where
  known_iff : (n : GraphNode) → contains_key n built.graph_nodes ≡ any (mentions n) dag.edges
  known_iff n =
      knows-add_edges G (start G) built dag.edges n edged
      ∙ (unfold contains_key lookup in ground arith)

  Touches-of_known :
      (name : String) → contains_key (vertex name) built.graph_nodes ≡ true → Touches dag name
  Touches-of_known name h =
      let (e, m, t) =
        any-mem (mentions (vertex name)) dag.edges (sym (known_iff (vertex name)) ∙ h) in
      (e, m, mentions_vertex e name t)

  no_edge_of_unknown :
      (owner port : String)
      → contains_key (input_port owner port) built.graph_nodes ≡ false
      → HasNoEdge dag owner port
  no_edge_of_unknown owner port h e m =
      mentions_input e owner port
        (not-any (mentions (input_port owner port)) (sym (known_iff (input_port owner port)) ∙ h) m)

  module _ (checked : Building G) (seen : List GraphNode)
      (passed : Passed G dag built checked [] seen dag.vertices) where
    connected_lem : All (λ v. Touches dag v.name ⊎ IsSingle dag) dag.vertices
    connected_lem = All-intro _ dag.vertices (λ v m. elim (All-mem _ passed.known m) [
      | inl known ↦ inl (Touches-of_known v.name known)
      | inr single ↦ inr single
    ])

    free_lem :
        (owner port : String)
        → contains_key (input_port owner port) checked.graph_nodes ≡ false
        → HasNoEdge dag owner port
    free_lem owner port h = no_edge_of_unknown owner port (sym (passed.ports owner port) ∙ h)

default_value_lem :
    (nodes : Assoc GraphNode ℕ) (ports : List GraphNode) (d : DagDefaultValue)
    → check_default_value nodes ports d ≡ ok tt
    → (contains_key (input_port d.vertex d.input_port) nodes ≡ false)
      × (contains ports (input_port d.vertex d.input_port) ≡ false)
unfolding check_default_value
default_value_lem nodes ports d h = ground arith

outputs_lem :
    (dag : DagSpec) (v : DagVertex) (o : DagOutput) (e : DagEdge)
    → check_outputs dag v ≡ ok tt
    → Memᴰ o dag.outputs
    → Memᴰ e dag.edges
    → o.vertex ≡ v.name
    → e.from.vertex ≢ v.name
unfolding check_outputs
outputs_lem dag v o e h m n q r =
    let output =
      any_of_mem (λ (x : DagOutput). x.vertex == v.name) m ((==_iff o.vertex v.name).1 q) in
    let edge =
      any_of_mem (λ (x : DagEdge). x.from.vertex == v.name) n ((==_iff e.from.vertex v.name).1 r) in
    absurd (ground arith)

-- If `try_into_graph` returns a graph, the DAG is well-formed: entry groups name its vertices, each
-- vertex is defined once and has an edge (or is all of the DAG), each entry port is defined once and
-- no edge leads to it, default values stand at neither, vertices with outputs have no outgoing edge,
-- and a vertex has a do-while edge exactly when it has a break edge, on different output variants.
pub try_into_graph-IsWellFormed :
    (G : DiGraph GraphNode EdgeKind) (dag : DagSpec) {result : G.Graph × Groups}
    → try_into_graph G dag ≡ ok result
    → IsWellFormed dag
unfolding try_into_graph
try_into_graph-IsWellFormed G dag h =
    let (groups, grouped, h1) = >>=-eq-ok (vertex_entry_groups dag) _ h in
    let (_, _, h2) = >>=-eq-ok (bail_if (is_empty groups) no_entry) _ h1 in
    let (built, edged, h3) = >>=-eq-ok (add_edges G (start G) dag.edges) _ h2 in
    let ((checked, seen), vertices, h4) =
      >>=-eq-ok (try_fold (check_vertex G dag) (built, []) dag.vertices) _ h3 in
    let (ports, entries, h5) =
      >>=-eq-ok (try_fold (check_entry_ports checked.graph_nodes) [] dag.vertices) _ h4 in
    let (_, defaults, h6) =
      >>=-eq-ok (try_all (check_default_value checked.graph_nodes ports) dag.default_values) _ h5 in
    let (_, outputs, h7) = >>=-eq-ok (try_all (check_outputs dag) dag.vertices) _ h6 in
    let (_, loops, _) = >>=-eq-ok (check_loops dag) _ h7 in
    let passed = check_vertices-Passed G dag built checked [] seen dag.vertices vertices in
    let names = check_vertices-IsDistinct G dag built checked [] seen dag.vertices tt vertices in
    let (free, ports_are) =
      check_entry_ports-eq-ok checked.graph_nodes [] ports dag.vertices entries in
    let distinct =
      check_entry_ports-IsDistinct checked.graph_nodes [] ports dag.vertices tt entries in
    record {
      members_defined = λ g name. groups_defined dag groups g name grouped;
      names_distinct =
          IsDistinct-of_map vertex (λ v. v.name) dag.vertices
            (IsDistinct-add_all [] (map (λ v. vertex v.name) dag.vertices)
              (subst IsDistinct passed.grown names)).1;
      connected = connected_lem G dag built edged checked seen passed;
      entry_ports_distinct =
          (IsDistinct-add_all [] (entry_port_nodes dag) (subst IsDistinct ports_are distinct)).1;
      entry_ports_free = All-intro _ dag.vertices (λ v m. All-intro _ v.entry_ports (λ p n.
          free_lem G dag built edged checked seen passed v.name p.name
            (All-mem _ (All-mem _ free m) n)));
      default_values_free = All-intro _ dag.default_values (λ d m.
          let (unknown, absent) =
            default_value_lem checked.graph_nodes ports d
              (All-mem _ (try_all-All _ _ defaults) m) in
          (
            free_lem G dag built edged checked seen passed d.vertex d.input_port unknown,
            λ n.
                let there = mem-contains (mem-add_all [] (entry_port_nodes dag) n) in
                absurd (cc (absent, there)),
          ));
      outputs_end = λ v o e m. outputs_lem dag v o e (All-mem _ (try_all-All _ _ outputs) m);
      do_while_breaks = do_while-has_break dag loops;
      break_repeats = break-has_do_while dag loops;
      branches = loops_branch dag loops;
    }
