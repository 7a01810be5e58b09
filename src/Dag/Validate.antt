-- ===== src/Dag/Validate.antt =====
-- `validate` of sdk/src/dag/validator.rs. The fuel is that of the search over walks: `none` means that
-- it ran out.
pub mod Valid
use mathlib.Core.Option
use nexus_sdk.Prelude.{ℕ, Option, none, some, Result, ok, err, ◌>>=◌, ◌>>◌, bail_if}
use nexus_sdk.Dag.Spec.{EdgeKind, DagSpec}
use nexus_sdk.Dag.Node.{GraphNode}
use nexus_sdk.Dag.Petgraph.{DiGraph}
use nexus_sdk.Dag.Errors.{DagError, has_cycle}
use nexus_sdk.Dag.Structure.{Groups, try_into_graph}
use nexus_sdk.Dag.Order.{has_correct_order_of_actions}
use nexus_sdk.Dag.Concurrency.{follows_concurrency_rules}
use nexus_sdk.Dag.ForEach.{validate_for_each_pairs}
use nexus_sdk.Dag.DoWhile.{validate_do_while_nesting}

module _ (G : DiGraph GraphNode EdgeKind) where
  -- The checks of the graph up to the search over walks.
  unfoldable pub check_graph : G.Graph → Groups → Result DagError (Unit {0})
  check_graph g groups = do
    bail_if (G.is_cyclic_directed g) has_cycle
    has_correct_order_of_actions G g
    follows_concurrency_rules G g groups

  -- The checks after it.
  unfoldable pub after_search : G.Graph → Result DagError (Unit {0}) → Result DagError (Unit {0})
  after_search g found = do found; validate_do_while_nesting G g

  unfoldable pub check_built : ℕ → G.Graph → Groups → Option (Result DagError (Unit {0}))
  check_built fuel g groups = elim (check_graph g groups) [
    | err e ↦ some (err e)
    | ok _ ↦ Option.map (after_search g) (validate_for_each_pairs G g fuel groups)
  ]

  unfoldable pub validate : ℕ → DagSpec → Option (Result DagError (Unit {0}))
  validate fuel dag = elim (try_into_graph G dag) [
    | err e ↦ some (err e)
    | ok built ↦ check_built fuel built.0 built.1
  ]
