-- ===== src/Dag/Node.antt =====
-- `GraphNode` of sdk/src/dag/validator.rs: the nodes of the graph that a DAG is turned into.
use nexus_sdk.Prelude.{
  ◌≡◌, ◌↔◌, String, Bool, true, false, ◌&&◌, Option, some, arith, Eq, ◌==◌, ==_iff, string_eq,
}

pub data GraphNode : Type 0 where
  input_port : (vertex name : String) → GraphNode
  vertex : (name : String) → GraphNode
  output_variant : (vertex name : String) → GraphNode
  output_port : (vertex variant name : String) → GraphNode

abbrev pub node_beq : GraphNode → GraphNode → Bool
node_beq (input_port v n) (input_port w m) = v == w && n == m
node_beq (vertex n) (vertex m) = n == m
node_beq (output_variant v n) (output_variant w m) = v == w && n == m
node_beq (output_port v r n) (output_port w s m) = v == w && r == s && n == m
node_beq _ _ = false

pub node_beq_iff : (a b : GraphNode) → (node_beq a b ≡ true) ↔ (a ≡ b)
node_beq_iff (input_port v n) (input_port w m) = ground (arith, ==_iff v w, ==_iff n m)
node_beq_iff (vertex n) (vertex m) = ground (arith, ==_iff n m)
node_beq_iff (output_variant v n) (output_variant w m) = ground (arith, ==_iff v w, ==_iff n m)
node_beq_iff (output_port v r n) (output_port w s m) =
    ground (arith, ==_iff v w, ==_iff r s, ==_iff n m)
node_beq_iff _ _ = ground arith

instance abbrev pub node_eq : Eq GraphNode
node_eq = record { same = node_beq; same_iff = node_beq_iff }

abbrev pub is_input_port : Option GraphNode → Bool
is_input_port (some (input_port v n)) = true
is_input_port _ = false

abbrev pub is_vertex : Option GraphNode → Bool
is_vertex (some (vertex n)) = true
is_vertex _ = false

abbrev pub is_output_variant : Option GraphNode → Bool
is_output_variant (some (output_variant v n)) = true
is_output_variant _ = false

abbrev pub is_output_port : Option GraphNode → Bool
is_output_port (some (output_port v r n)) = true
is_output_port _ = false
