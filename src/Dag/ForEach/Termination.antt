-- ===== src/Dag/ForEach/Termination.antt =====
-- The search over walks ends on a graph without cycles.
use mathlib.Core.Path.{subst}
use nexus_sdk.Prelude.{
  ℕ, zero, suc, ◌<◌, ◌≤◌, ◌≡◌, refl, inl, inr, some, List, [], ◌∷◌, Memᴰ, arith, Result,
  Result-cases, ok, err, >>=-eq-ok, push_all-inv,
}
use nexus_sdk.Dag.Spec.{EdgeKind}
use nexus_sdk.Dag.Node.{GraphNode}
use nexus_sdk.Dag.Petgraph.{DiGraph, IsDiGraph, Arc}
use nexus_sdk.Dag.Errors.{DagError}
use nexus_sdk.Dag.ForEach.{ForEachState, Stack, at_end, edge_entry, visit, search_walks}
use nexus_sdk.Dag.ForEach.Search.{falls_from}

module _ (G : DiGraph GraphNode EdgeKind) (g : G.Graph) where
  -- The search gives a result, whatever the fuel above some bound.
  pub record Ends (stack : Stack) : Type 0 where
    pub bound : ℕ
    pub result :
        (f : ℕ) → bound ≤ f → (r : Result DagError (Unit {0})) × (search_walks G g f stack ≡ some r)

module _ {G : DiGraph GraphNode EdgeKind} (g : G.Graph) where
  empty-Ends : Ends G g []
  unfolding search_walks
  empty-Ends = record { bound = 1; result = go }
    where
      go : (f : ℕ) → 1 ≤ f → (r : Result DagError (Unit {0})) × (search_walks G g f [] ≡ some r)
      go zero h = absurd (omega arith)
      go (suc f) h = (ok tt, refl)

  module _ (n : ℕ) (s : ForEachState) (stack : Stack) where
    failed-Ends : {e : DagError} → visit n s (G.edges g n) stack ≡ err e → Ends G g ((n, s) ∷ stack)
    unfolding search_walks
    failed-Ends {e} q = record { bound = 1; result = go }
      where
        go :
            (f : ℕ)
            → 1 ≤ f
            → (r : Result DagError (Unit {0})) × (search_walks G g f ((n, s) ∷ stack) ≡ some r)
        go zero h = absurd (omega arith)
        go (suc f) h = (err e, rw (q, search_walks))

    pushed-Ends :
        {stack' : Stack}
        → visit n s (G.edges g n) stack ≡ ok stack'
        → Ends G g stack'
        → Ends G g ((n, s) ∷ stack)
    unfolding search_walks
    pushed-Ends {stack'} q ends = record { bound = suc ends.bound; result = go }
      where
        go :
            (f : ℕ)
            → suc ends.bound ≤ f
            → (r : Result DagError (Unit {0})) × (search_walks G g f ((n, s) ∷ stack) ≡ some r)
        go zero h = absurd (omega arith)
        go (suc f) h = rw (q, search_walks) (ends.result f (omega arith))

    visited-Ends :
        (out : List (Arc EdgeKind)) {stack' : Stack}
        → visit n s out stack ≡ ok stack'
        → ((e : Arc EdgeKind) (s' : ForEachState) (t : Stack)
            → Memᴰ e out
            → Ends G g t
            → Ends G g ((e.target, s') ∷ t))
        → Ends G g stack
        → Ends G g stack'
    unfolding visit edge_entry
    visited-Ends [] h targets ends =
        let (_, q, r) = >>=-eq-ok (at_end n s) (λ _. ok stack) h in
        subst (Ends G g) (ground arith) ends
    visited-Ends (e ∷ es) h targets ends =
        push_all-inv (edge_entry n s) (Ends G g) stack (e ∷ es) h
          (λ x y t m entry below.
            let q : (x.target, y.1) ≡ y = ground arith in
            subst (λ z. Ends G g (z ∷ t)) q (targets x y.1 t m below))
          ends

module _ {G : DiGraph GraphNode EdgeKind} (laws : IsDiGraph G) (g : G.Graph) (rank : ℕ → ℕ)
    (falls : (e : Arc EdgeKind)
      → Memᴰ e (G.edge_references g)
      → rank e.target < rank e.source) where
  node-Ends :
      (k n : ℕ) (s : ForEachState) (stack : Stack)
      → rank n < k
      → Ends G g stack
      → Ends G g ((n, s) ∷ stack)
  node-Ends zero n s stack h ends = elim h [ ]
  node-Ends (suc k) n s stack h ends = elim (Result-cases (visit n s (G.edges g n) stack)) [
    | inl (stack', q) ↦ pushed-Ends g n s stack q (
        visited-Ends g n s stack (G.edges g n) q
          (λ e s' t m below.
            let lower = falls_from laws g rank falls n e m in
            node-Ends k e.target s' t (omega arith) below)
          ends)
    | inr (e, q) ↦ failed-Ends g n s stack q
  ]

  -- From any stack the search comes to an end.
  pub stack-Ends : (stack : Stack) → Ends G g stack
  stack-Ends [] = empty-Ends g
  stack-Ends ((n, s) ∷ stack) = node-Ends (suc (rank n)) n s stack (omega arith) (stack-Ends stack)
