-- ===== src/Dag/Validate/Valid.antt =====
-- What `validate` decides, check by check, and that it comes to an end.
use mathlib.Core.Path.{subst}
use nexus_sdk.Prelude.{
  ℕ, ◌≤◌, ◌≡◌, ◌↔◌, inl, inr, false, Option, some, arith, Result, Result-cases, ok, err, >>=-eq-ok,
  bail_if, bail_if_iff,
}
use nexus_sdk.Dag.Spec.{EdgeKind, DagSpec}
use nexus_sdk.Dag.Node.{GraphNode}
use nexus_sdk.Dag.Petgraph.{DiGraph, IsDiGraph}
use nexus_sdk.Dag.Errors.{DagError, has_cycle}
use nexus_sdk.Dag.Structure.{Groups, try_into_graph}
use nexus_sdk.Dag.Structure.Sound.{IsWellFormed, try_into_graph-IsWellFormed}
use nexus_sdk.Dag.Order.{has_correct_order_of_actions}
use nexus_sdk.Dag.Order.Ordered.{IsOrdered, has_correct_order_of_actions_iff}
use nexus_sdk.Dag.Concurrency.Balance.{IsRaceFree, follows_concurrency_rules_iff}
use nexus_sdk.Dag.ForEach.Correct.{EntriesPaired, for_each_decides}
use nexus_sdk.Dag.DoWhile.{validate_do_while_nesting}
use nexus_sdk.Dag.DoWhile.Nesting.{IsFlat, validate_do_while_nesting_iff}
use nexus_sdk.Dag.Validate.{check_graph, after_search, check_built, validate}

-- The DAG turns into a graph without cycles, whose edges are in order, whose input ports see no race,
-- and whose loops are paired and not nested.
pub record IsValid (G : DiGraph GraphNode EdgeKind) (dag : DagSpec) : Type 0 where
  pub graph : G.Graph
  pub groups : Groups
  pub built : try_into_graph G dag ≡ ok (graph, groups)
  pub well_formed : IsWellFormed dag
  pub acyclic : G.is_cyclic_directed graph ≡ false
  pub ordered : IsOrdered G graph
  pub race_free : IsRaceFree G graph groups
  pub paired : EntriesPaired G graph groups
  pub flat : IsFlat G graph

module _ (G : DiGraph GraphNode EdgeKind) (g : G.Graph) (groups : Groups) where
  -- What the checks up to the search over walks decide.
  record IsChecked : Type 0 where
    acyclic : G.is_cyclic_directed g ≡ false
    ordered : IsOrdered G g
    race_free : IsRaceFree G g groups

  checked_of_ok : check_graph G g groups ≡ ok tt → IsChecked
  unfolding check_graph
  checked_of_ok h =
      let (_, acyclic, h1) = >>=-eq-ok (bail_if (G.is_cyclic_directed g) has_cycle) _ h in
      let (_, ordered, free) = >>=-eq-ok (has_correct_order_of_actions G g) _ h1 in
      record {
        acyclic = (bail_if_iff _ has_cycle).0 acyclic;
        ordered = (has_correct_order_of_actions_iff G g).0 ordered;
        race_free = (follows_concurrency_rules_iff G g groups).0 free;
      }

  ok_of_checked : IsChecked → check_graph G g groups ≡ ok tt
  unfolding check_graph
  ok_of_checked c =
      rw (c.acyclic, (has_correct_order_of_actions_iff G g).1 c.ordered)
        ((follows_concurrency_rules_iff G g groups).1 c.race_free)

  -- What all checks of the graph decide.
  record Passes : Type 0 where
    checked : IsChecked
    paired : EntriesPaired G g groups
    flat : IsFlat G g

  after_search_iff :
      (found : Result DagError (Unit {0}))
      → (found ≡ ok tt) ↔ EntriesPaired G g groups
      → IsChecked
      → (after_search G g found ≡ ok tt) ↔ Passes
  unfolding after_search
  after_search_iff found decides c = (
    λ h.
        let (_, paired, flat) = >>=-eq-ok found (λ _. validate_do_while_nesting G g) h in
        record {
          checked = c;
          paired = decides.0 paired;
          flat = (validate_do_while_nesting_iff G g).0 flat;
        },
    λ p. rw (decides.1 p.paired) ((validate_do_while_nesting_iff G g).1 p.flat),
  )

  abbrev Decides : Type 0 → (ℕ → Option (Result DagError (Unit {0}))) → Type 0
  Decides P run =
      (bound : ℕ) × ((fuel : ℕ)
        → bound ≤ fuel
        → (r : Result DagError (Unit {0})) × (run fuel ≡ some r) × ((r ≡ ok tt) ↔ P))

  check_built-Decides : IsDiGraph G → Decides Passes (λ fuel. check_built G fuel g groups)
  unfolding check_built
  check_built-Decides laws = elim (Result-cases (check_graph G g groups)) [
    | inl (_, q) ↦
        let c = checked_of_ok q in
        let (bound, search) = for_each_decides G g groups laws c.acyclic in
        (
          bound,
          λ fuel h.
              let (found, returned, decides) = search fuel h in
              (
                after_search G g found,
                rw (q, returned, check_built),
                after_search_iff found decides c,
              ),
        )
    | inr (e, q) ↦ (
      0,
      λ fuel h. (
        err e,
        rw (q, check_built),
        (λ accepted. cc, λ p. let known = ok_of_checked p.checked in cc),
      ),
    )
  ]

module _ (G : DiGraph GraphNode EdgeKind) (dag : DagSpec) where
  IsValid-of_passes :
      (g : G.Graph) (groups : Groups)
      → try_into_graph G dag ≡ ok (g, groups)
      → Passes G g groups
      → IsValid G dag
  IsValid-of_passes g groups built p = record {
    graph = g;
    groups = groups;
    built = built;
    well_formed = try_into_graph-IsWellFormed G dag built;
    acyclic = p.checked.acyclic;
    ordered = p.checked.ordered;
    race_free = p.checked.race_free;
    paired = p.paired;
    flat = p.flat;
  }

  passes_of_valid :
      (g : G.Graph) (groups : Groups)
      → try_into_graph G dag ≡ ok (g, groups)
      → IsValid G dag
      → Passes G g groups
  passes_of_valid g groups built v =
      let same : (v.graph, v.groups) ≡ (g, groups) = ground (arith, v.built) in
      subst (λ (b : G.Graph × Groups). Passes G b.0 b.1) same
        (record {
          checked = record { acyclic = v.acyclic; ordered = v.ordered; race_free = v.race_free };
          paired = v.paired;
          flat = v.flat;
        })

  -- For every fuel above some bound `validate` returns a result, and the result is `Ok` exactly when the
  -- DAG is valid: it turns into a graph and is well-formed, the graph has no cycle, its edges are in
  -- order, its input ports see no race and can be reached, its for-each and collect edges pair up along
  -- every walk from an entry vertex, and no do-while loop has another loop inside.
  pub validate_decides :
      IsDiGraph G
      → (bound : ℕ) × ((fuel : ℕ)
          → bound ≤ fuel
          → (r : Result DagError (Unit {0})) × (validate G fuel dag ≡ some r)
            × ((r ≡ ok tt) ↔ IsValid G dag))
  unfolding validate
  validate_decides laws = elim (Result-cases (try_into_graph G dag)) [
    | inl ((g, groups), q) ↦
        let (bound, run) = check_built-Decides G g groups laws in
        (
          bound,
          λ fuel h.
              let (r, returned, decides) = run fuel h in
              (
                r,
                rw (q, validate) returned,
                (
                  λ accepted. IsValid-of_passes g groups q (decides.0 accepted),
                  λ v. decides.1 (passes_of_valid g groups q v),
                ),
              ),
        )
    | inr (e, q) ↦
        (0, λ fuel h. (err e, rw (q, validate), (λ accepted. cc, λ v. let built = v.built in cc)))
  ]
