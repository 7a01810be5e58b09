-- ===== src/Dag/Order/Ordered.antt =====
-- What `has_correct_order_of_actions` decides.
use nexus_sdk.Prelude.{
  ℕ, ◌≤◌, ◌≡◌, ◌↔◌, refl, String, false, not, Option, none, some, Memᴰ, arith, ok, >>=-eq-ok,
  bail_if, bail_if_iff, try_all_iff, All-mem, All-intro, length,
}
use nexus_sdk.Dag.Spec.{EdgeKind}
use nexus_sdk.Dag.Node.{GraphNode, input_port, vertex, output_variant, output_port}
use nexus_sdk.Dag.Petgraph.{DiGraph}
use nexus_sdk.Dag.Errors.{wrong_out_degree, invalid_edge}
use nexus_sdk.Dag.Order.{degree_is_wrong, follows, check_node, has_correct_order_of_actions}

-- The number of edges that may leave a node.
abbrev pub MayHave : Option GraphNode → ℕ → Type 0
MayHave (some (input_port v n)) d = d ≡ 1
MayHave (some (vertex n)) d = Unit
MayHave (some (output_variant v n)) d = 1 ≤ d
MayHave (some (output_port v r n)) d = d ≡ 1
MayHave none d = Unit

-- The nodes that an edge may join: input port, tool, output variant, output port, input port.
pub data Precedes : Option GraphNode → Option GraphNode → Type 0 where
  port_vertex : {v n m : String} → Precedes (some (input_port v n)) (some (vertex m))
  vertex_variant : {n w m : String} → Precedes (some (vertex n)) (some (output_variant w m))
  variant_port :
      {v n w r m : String} → Precedes (some (output_variant v n)) (some (output_port w r m))
  port_port : {v r n w m : String} → Precedes (some (output_port v r n)) (some (input_port w m))

abbrev pub IsOrdered : (G : DiGraph GraphNode EdgeKind) → G.Graph → Type 0
IsOrdered G g =
    (node : ℕ)
    → Memᴰ node (G.node_indices g)
    → MayHave (G.node_weight g node) (length (G.neighbors g node))
      × ((next : ℕ)
          → Memᴰ next (G.neighbors g node)
          → Precedes (G.node_weight g node) (G.node_weight g next))

degree_iff : (n : Option GraphNode) (d : ℕ) → (degree_is_wrong n d ≡ false) ↔ MayHave n d
unfolding degree_is_wrong
degree_iff (some (input_port v n)) d = ground arith
degree_iff (some (vertex n)) d = ground arith
degree_iff (some (output_variant v n)) d = ground arith
degree_iff (some (output_port v r n)) d = ground arith
degree_iff none d = ground arith

Precedes-of_follows : (a b : Option GraphNode) → not (follows a b) ≡ false → Precedes a b
unfolding follows
Precedes-of_follows (some (input_port v n)) (some (vertex m)) h = port_vertex
Precedes-of_follows (some (vertex n)) (some (output_variant w m)) h = vertex_variant
Precedes-of_follows (some (output_variant v n)) (some (output_port w r m)) h = variant_port
Precedes-of_follows (some (output_port v r n)) (some (input_port w m)) h = port_port
Precedes-of_follows _ _ h = cc

follows_of_Precedes : {a b : Option GraphNode} → Precedes a b → not (follows a b) ≡ false
unfolding follows
follows_of_Precedes port_vertex = refl
follows_of_Precedes vertex_variant = refl
follows_of_Precedes variant_port = refl
follows_of_Precedes port_port = refl

module _ (G : DiGraph GraphNode EdgeKind) (g : G.Graph) where
  ordered_of_check :
      (node : ℕ)
      → check_node G g node ≡ ok tt
      → MayHave (G.node_weight g node) (length (G.neighbors g node))
        × ((next : ℕ)
            → Memᴰ next (G.neighbors g node)
            → Precedes (G.node_weight g node) (G.node_weight g next))
  unfolding check_node
  ordered_of_check node h =
      let (_, degree, rest) =
        >>=-eq-ok
          (bail_if (degree_is_wrong (G.node_weight g node) (length (G.neighbors g node)))
            (wrong_out_degree node))
          _ h in
      (
        (degree_iff _ _).0 ((bail_if_iff _ _).0 degree),
        λ next m.
            Precedes-of_follows _ _ ((bail_if_iff _ _).0 (All-mem _ ((try_all_iff _ _).0 rest) m)),
      )

  check_of_ordered :
      (node : ℕ)
      → MayHave (G.node_weight g node) (length (G.neighbors g node))
      → ((next : ℕ)
          → Memᴰ next (G.neighbors g node)
          → Precedes (G.node_weight g node) (G.node_weight g next))
      → check_node G g node ≡ ok tt
  unfolding check_node
  check_of_ordered node degree steps = rw ((degree_iff _ _).1 degree) (
      (try_all_iff _ _).1 (
        All-intro _ (G.neighbors g node) (λ next m.
          (bail_if_iff _ (invalid_edge node next)).1 (follows_of_Precedes (steps next m)))))

  -- The check passes exactly when ports have one outgoing edge and output variants at least one, and
  -- every edge joins an input port to a tool, a tool to a variant, a variant to an output port or an
  -- output port to an input port.
  pub has_correct_order_of_actions_iff : (has_correct_order_of_actions G g ≡ ok tt) ↔ IsOrdered G g
  unfolding has_correct_order_of_actions
  has_correct_order_of_actions_iff = (
    λ h node m. ordered_of_check node (All-mem _ ((try_all_iff _ _).0 h) m),
    λ ordered. (try_all_iff _ _).1 (
        All-intro _ (G.node_indices g)
          (λ node m. check_of_ordered node (ordered node m).0 (ordered node m).1)),
  )
