-- ===== src/Dag/DoWhile.antt =====
-- `validate_do_while_nesting` of sdk/src/dag/validator.rs.
pub mod Destination
pub mod Nesting
use mathlib.Core.Option
use nexus_sdk.Prelude.{
  ℕ, String, Bool, false, ◌||◌, Option, none, some, List, [], ◌∷◌, map, if◌then◌else◌, Result,
  bail_if, try_all, any, concat, ◌==◌, string_eq,
}
use nexus_sdk.Dag.Spec.{EdgeKind, for_each, collect, do_while, break, kind_eq}
use nexus_sdk.Dag.Node.{GraphNode, input_port, vertex}
use nexus_sdk.Dag.Petgraph.{DiGraph, Arc}
use nexus_sdk.Dag.Errors.{DagError, nested_loop}
use nexus_sdk.Dag.ForEach.{find}

-- `str::strip_suffix`
unfoldable pub strip_suffix : String → String → Option String
strip_suffix suffix String.[] = if "" == suffix then some "" else none
strip_suffix suffix (String.◌∷◌ c s) =
    if String.◌∷◌ c s == suffix
    then some ""
    else Option.map (λ rest. String.◌∷◌ c rest) (strip_suffix suffix s)

abbrev pub unwrap_or {ℓ} : {A : Type ℓ} → Option A → A → A
unwrap_or none a = a
unwrap_or (some b) a = b

unfoldable pub original_name : String → String
unfolding strip_suffix
original_name name = unwrap_or (strip_suffix "-do-while" name) name

-- The vertex of the name that the input port has without the suffix.
unfoldable pub is_destination : Option GraphNode → Option GraphNode → Bool
is_destination (some (input_port v n)) (some (vertex name)) = name == original_name v
is_destination _ _ = false

abbrev pub pop : List ℕ → List ℕ
pop [] = []
pop (x ∷ []) = []
pop (x ∷ y ∷ ys) = x ∷ pop (y ∷ ys)

abbrev pub is_loop_edge : EdgeKind → Bool
is_loop_edge k = k == do_while || k == break || k == for_each || k == collect

abbrev pub keep_some {ℓ} : {A : Type ℓ} → Option A → List A → List A
keep_some none rest = rest
keep_some (some x) rest = x ∷ rest

abbrev pub filter_map {ℓ κ} : {A : Type ℓ} {B : Type κ} → (A → Option B) → List A → List B
filter_map f [] = []
filter_map f (x ∷ xs) = keep_some (f x) (filter_map f xs)

module _ (G : DiGraph GraphNode EdgeKind) (g : G.Graph) where
  unfoldable pub destination : Arc EdgeKind → Option ℕ
  destination e =
      find (λ n. is_destination (G.node_weight g e.target) (G.node_weight g n)) (G.node_indices g)

  unfoldable pub loop_of : Arc EdgeKind → Option (ℕ × ℕ)
  loop_of e = if e.weight == do_while then Option.map (λ n. (e.source, n)) (destination e) else none

  unfoldable pub loop_nodes : ℕ × ℕ → List ℕ
  loop_nodes (source, target) = concat (map pop (G.all_simple_paths g target source))

  unfoldable pub check_loop : ℕ × ℕ → Result DagError (Unit {0})
  check_loop (source, target) =
      try_all
        (λ node. bail_if (any (λ e. is_loop_edge e.weight) (G.edges g node)) (nested_loop source))
        (loop_nodes (source, target))

  unfoldable pub validate_do_while_nesting : Result DagError (Unit {0})
  validate_do_while_nesting = try_all check_loop (filter_map loop_of (G.edge_references g))
