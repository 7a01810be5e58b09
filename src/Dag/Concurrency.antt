-- ===== src/Dag/Concurrency.antt =====
-- `follows_concurrency_rules` and `get_net_concurrency_in_subgraph` of sdk/src/dag/validator.rs.
-- A hash set of nodes is a list without repetitions.
pub mod Spawned
pub mod Paths
pub mod Balance
use Prim.Native.Nat.{max}
use nexus_sdk.Prelude.{
  ℕ, ◌+◌, ◌-◌, String, Option, none, some, List, [], ◌∷◌, ◌++◌, map, if◌then◌else◌, Result, ok, err,
  ◌>>◌, bail_if, try_all, filter, contains, concat, length, lookup, string_eq, nat_eq,
}
use nexus_sdk.Prelude.Int.{ℤ, pos, negsuc, ◌+ℤ◌, ◌-ℤ◌}
use nexus_sdk.Dag.Spec.{EdgeKind}
use nexus_sdk.Dag.Node.{GraphNode, input_port, vertex, is_input_port, node_eq}
use nexus_sdk.Dag.Petgraph.{DiGraph}
use nexus_sdk.Dag.Errors.{DagError, unreachable, race_condition}
use nexus_sdk.Dag.Structure.{Groups, is_empty, or_default}

-- `collect::<HashSet<_>>()`
unfoldable pub to_set : List ℕ → List ℕ
to_set [] = []
to_set (x ∷ xs) = let rest = to_set xs in if contains rest x then rest else x ∷ rest

module _ (G : DiGraph GraphNode EdgeKind) (g : G.Graph) where
  module _ (nodes : List ℕ) where
    -- The output ports of a variant that lie on the paths.
    unfoldable pub ports_on_paths : ℕ → ℕ
    ports_on_paths variant = length (filter (contains nodes) (G.neighbors g variant))

    -- The fold of `isize::max` starts at 0, so that a variant without a port counts 0, not -1.
    unfoldable pub max_concurrency : ℕ → List ℕ → ℕ
    max_concurrency acc [] = acc
    max_concurrency acc (variant ∷ variants) =
        max_concurrency (max acc (ports_on_paths variant - 1)) variants

    unfoldable pub spawned : ℕ → ℕ
    spawned node = max_concurrency 0 (filter (contains nodes) (G.neighbors g node))

    unfoldable pub node_concurrency : Option GraphNode → ℕ → ℤ → ℤ
    node_concurrency (some (vertex n)) node acc = acc +ℤ pos (spawned node + 1)
    node_concurrency (some (input_port v n)) node acc = acc -ℤ pos 1
    node_concurrency _ node acc = acc

    unfoldable pub net_from : ℤ → List ℕ → ℤ
    net_from acc [] = acc
    net_from acc (node ∷ rest) = net_from (node_concurrency (G.node_weight g node) node acc) rest

  unfoldable pub get_net_concurrency_in_subgraph : List ℕ → ℤ
  get_net_concurrency_in_subgraph nodes = net_from nodes (pos 0) nodes

  -- The groups of the node, if it is an entry vertex.
  unfoldable pub groups_of : Groups → ℕ → List String
  groups_of groups node = elim (G.node_weight g node) [
    | none ↦ []
    | some n ↦ or_default (lookup n groups)
  ]

  unfoldable pub entry_vertices : Groups → String → List ℕ
  entry_vertices groups group =
      filter (λ node. contains (groups_of groups node) group) (G.node_indices g)

  unfoldable pub nodes_in_paths : List ℕ → ℕ → List ℕ
  nodes_in_paths entries port =
      to_set (concat (concat (map (λ entry. G.all_simple_paths g entry port) entries)))

  unfoldable pub check_concurrency : ℤ → ℕ → String → Result DagError (Unit {0})
  check_concurrency (negsuc n) port group = err (unreachable port group)
  check_concurrency (pos ℕ.zero) port group = ok tt
  check_concurrency (pos (ℕ.suc n)) port group = err (race_condition port group)

  unfoldable pub check_port : Groups → String → ℕ → Result DagError (Unit {0})
  check_port groups group port =
      let nodes = nodes_in_paths (entry_vertices groups group) port in
      do
        bail_if (is_empty nodes) (unreachable port group)
        check_concurrency (get_net_concurrency_in_subgraph nodes) port group

  unfoldable pub follows_concurrency_rules : Groups → Result DagError (Unit {0})
  follows_concurrency_rules groups =
      try_all
        (λ group.
          try_all (check_port groups group)
            (filter (λ n. is_input_port (G.node_weight g n)) (G.node_indices g)))
        (concat (map (λ entry. entry.1) groups))
