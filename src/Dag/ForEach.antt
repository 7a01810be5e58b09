-- ===== src/Dag/ForEach.antt =====
-- `validate_for_each_pairs` of sdk/src/dag/validator.rs: a depth-first search over all walks from the
-- entry vertices, with the state of an automaton. The head of the list is the top of the stack. The
-- search takes fuel; `none` means that it ran out.
pub mod Language
pub mod Search
pub mod Termination
pub mod Correct
use nexus_sdk.Prelude.{
  ℕ, zero, suc, Bool, false, Option, none, some, List, [], ◌∷◌, map, if◌then◌else◌, Result, ok, err,
  ◌>>=◌, ok_or, push_all, ◌==◌,
}
use nexus_sdk.Dag.Spec.{EdgeKind, normal, for_each, collect, do_while, break, static}
use nexus_sdk.Dag.Node.{GraphNode, node_eq}
use nexus_sdk.Dag.Petgraph.{DiGraph, Arc}
use nexus_sdk.Dag.Errors.{
  DagError, entry_not_found, for_each_not_collected, collect_without_for_each, nested_for_each,
  loop_in_for_each, static_in_for_each,
}
use nexus_sdk.Dag.Structure.{Groups}

pub data ForEachState : Type 0 where
  idle in_for_each : ForEachState

unfoldable pub next_state : ℕ → ForEachState → EdgeKind → Result DagError ForEachState
next_state node idle static = ok idle
next_state node idle normal = ok idle
next_state node idle do_while = ok idle
next_state node idle break = ok idle
next_state node idle for_each = ok in_for_each
next_state node idle collect = err (collect_without_for_each node)
next_state node in_for_each normal = ok in_for_each
next_state node in_for_each for_each = err (nested_for_each node)
next_state node in_for_each collect = ok idle
next_state node in_for_each do_while = err (loop_in_for_each node)
next_state node in_for_each break = err (loop_in_for_each node)
next_state node in_for_each static = err (static_in_for_each node)

abbrev pub Stack : Type 0
Stack = List (ℕ × ForEachState)

-- What is pushed for an edge of the node.
unfoldable pub edge_entry : ℕ → ForEachState → Arc EdgeKind → Result DagError (ℕ × ForEachState)
edge_entry node state e = do next ← next_state node state e.weight; ok (e.target, next)

unfoldable pub at_end : ℕ → ForEachState → Result DagError (Unit {0})
at_end node idle = ok tt
at_end node in_for_each = err (for_each_not_collected node)

-- One round of the loop, on the edges of the node that was popped.
unfoldable pub visit : ℕ → ForEachState → List (Arc EdgeKind) → Stack → Result DagError Stack
visit node state [] stack = at_end node state >>= λ _. ok stack
visit node state (e ∷ es) stack = push_all (edge_entry node state) stack (e ∷ es)

abbrev pub find : (ℕ → Bool) → List ℕ → Option ℕ
find p [] = none
find p (x ∷ xs) = if p x then some x else find p xs

abbrev pub is_weight : GraphNode → Option GraphNode → Bool
is_weight n none = false
is_weight n (some m) = m == n

module _ (G : DiGraph GraphNode EdgeKind) (g : G.Graph) where
  unfoldable pub search_walks : ℕ → Stack → Option (Result DagError (Unit {0}))
  search_walks zero stack = none
  search_walks (suc fuel) [] = some (ok tt)
  search_walks (suc fuel) ((node, state) ∷ stack) = elim (visit node state (G.edges g node) stack) [
    | err e ↦ some (err e)
    | ok stack' ↦ search_walks fuel stack'
  ]

  unfoldable pub find_node : GraphNode → Option ℕ
  find_node n = find (λ i. is_weight n (G.node_weight g i)) (G.node_indices g)

  unfoldable pub entry_of : GraphNode → Result DagError (ℕ × ForEachState)
  entry_of n = do node ← ok_or (find_node n) (entry_not_found n); ok (node, idle)

  unfoldable pub entry_stack : Groups → Result DagError Stack
  entry_stack groups = push_all entry_of [] (map (λ entry. entry.0) groups)

  unfoldable pub validate_for_each_pairs : ℕ → Groups → Option (Result DagError (Unit {0}))
  validate_for_each_pairs fuel groups = elim (entry_stack groups) [
    | err e ↦ some (err e)
    | ok stack ↦ search_walks fuel stack
  ]
