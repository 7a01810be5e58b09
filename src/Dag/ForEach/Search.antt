-- ===== src/Dag/ForEach/Search.antt =====
-- The search over walks against the language of the automaton.
use mathlib.Core.Path.{subst, subst⁻¹}
use nexus_sdk.Prelude.{
  ℕ, zero, suc, ◌<◌, ◌≡◌, refl, sym, ap, ◌∙◌, ◌≢◌, inl, inr, some, List, [], ◌∷◌, map, Memᴰ, arith,
  Result, Result-cases, ok, >>=-eq-ok, All, All-mem, push_all, push_all-All, push_all-inv,
  push_all-fails,
}
use nexus_sdk.Dag.Spec.{EdgeKind}
use nexus_sdk.Dag.Node.{GraphNode}
use nexus_sdk.Dag.Petgraph.{DiGraph, IsDiGraph, Arc, IsWalk}
use nexus_sdk.Dag.Errors.{DagError}
use nexus_sdk.Dag.ForEach.{ForEachState, next_state, Stack, at_end, edge_entry, visit, search_walks}
use nexus_sdk.Dag.ForEach.Language.{
  Accepts, Accepts-end, end-of_Accepts, Accepts-step, step-of_Accepts,
}

abbrev pub labels : List (Arc EdgeKind) → List EdgeKind
labels es = map (λ e. e.weight) es

edge_entry-eq-ok :
    (n : ℕ) (s : ForEachState) (e : Arc EdgeKind) {y : ℕ × ForEachState}
    → edge_entry n s e ≡ ok y
    → (next_state n s e.weight ≡ ok y.1) × (e.target ≡ y.0)
unfolding edge_entry
edge_entry-eq-ok n s e h =
    let (t, q, r) = >>=-eq-ok (next_state n s e.weight) (λ t. ok (e.target, t)) h in
    (ground arith, ground arith)

module _ (G : DiGraph GraphNode EdgeKind) (g : G.Graph) where
  -- Every walk from the node that cannot go on has a word that the automaton accepts from the state.
  abbrev pub Accepting : ℕ × ForEachState → Type 0
  Accepting p =
      (es : List (Arc EdgeKind)) (b : ℕ)
      → IsWalk (G.edge_references g) p.0 es b
      → G.edges g b ≡ []
      → Accepts p.1 (labels es)

module _ {G : DiGraph GraphNode EdgeKind} (laws : IsDiGraph G) (g : G.Graph) where
  edge-mem :
      (n : ℕ) (e : Arc EdgeKind)
      → Memᴰ e (G.edge_references g)
      → e.source ≡ n
      → Memᴰ e (G.edges g n)
  edge-mem n e m q = (laws.edges_iff g n e).1 (m, q)

  sink-Accepting :
      (n : ℕ) (s : ForEachState) → [] ≡ G.edges g n → at_end n s ≡ ok tt → Accepting G g (n, s)
  sink-Accepting n s empty h [] b w sink = Accepts-end n s h
  sink-Accepting n s empty h (e ∷ es) b (m, q, w) sink =
      elim (subst⁻¹ (Memᴰ e) empty (edge-mem n e m q)) [ ]

  inner-Accepting :
      (n : ℕ) (s : ForEachState) (out : List (Arc EdgeKind))
      → out ≡ G.edges g n
      → out ≢ []
      → All (λ e. (y : ℕ × ForEachState) × (edge_entry n s e ≡ ok y) × Accepting G g y) out
      → Accepting G g (n, s)
  inner-Accepting n s out same some_edge all [] b w sink =
      absurd (some_edge (same ∙ (ap (G.edges g) w) ∙ sink))
  inner-Accepting n s out same some_edge all (e ∷ es) b (m, q, w) sink =
      let (y, entry, later) = All-mem _ all (subst⁻¹ (Memᴰ e) same (edge-mem n e m q)) in
      let (next, target) = edge_entry-eq-ok n s e entry in
      Accepts-step n s y.1 e.weight (labels es) next
        (later es b (subst (λ a. IsWalk (G.edge_references g) a es b) target w) sink)

  visit_sound :
      (n : ℕ) (s : ForEachState) (out : List (Arc EdgeKind)) (stack : Stack) {stack' : Stack}
      → out ≡ G.edges g n
      → visit n s out stack ≡ ok stack'
      → All (Accepting G g) stack'
      → All (Accepting G g) ((n, s) ∷ stack)
  unfolding visit
  visit_sound n s [] stack same h all =
      let (_, q, r) = >>=-eq-ok (at_end n s) (λ _. ok stack) h in
      (sink-Accepting n s same q, subst (All (Accepting G g)) (ground arith) all)
  visit_sound n s (e ∷ es) stack same h all =
      let (below, entries) = push_all-All (edge_entry n s) (Accepting G g) stack (e ∷ es) h all in
      (inner-Accepting n s (e ∷ es) same (cc) entries, below)

  pub search_walks_sound :
      (fuel : ℕ) (stack : Stack)
      → search_walks G g fuel stack ≡ some (ok tt)
      → All (Accepting G g) stack
  unfolding search_walks
  search_walks_sound zero stack h = cc
  search_walks_sound (suc fuel) [] h = tt
  search_walks_sound (suc fuel) ((n, s) ∷ stack) h =
      elim (Result-cases (visit n s (G.edges g n) stack)) [
        | inl (stack', q) ↦
            visit_sound n s (G.edges g n) stack refl q
              (search_walks_sound fuel stack' (rw (q, search_walks) at h))
        | inr (e, q) ↦ let h' = rw (q, search_walks) at h in cc
      ]

  -- Some walk from the node cannot go on.
  abbrev Extends : ℕ → Type 0
  Extends n =
      (es : List (Arc EdgeKind)) × (b : ℕ) × IsWalk (G.edge_references g) n es b
      × (G.edges g b ≡ [])

  extend_by :
      (n : ℕ) (out : List (Arc EdgeKind))
      → out ≡ G.edges g n
      → ((e : Arc EdgeKind) → Memᴰ e (G.edges g n) → Extends e.target)
      → Extends n
  extend_by n [] same targets = ([], n, refl, sym same)
  extend_by n (e ∷ es) same targets =
      let m : Memᴰ e (G.edges g n) = subst (Memᴰ e) same (Memᴰ.head refl) in
      let (more, b, w, sink) = targets e m in
      let (listed, q) = (laws.edges_iff g n e).0 m in (e ∷ more, b, (listed, q, w), sink)

  module _ (rank : ℕ → ℕ)
      (falls : (e : Arc EdgeKind)
        → Memᴰ e (G.edge_references g)
        → rank e.target < rank e.source) where
    pub falls_from : (n : ℕ) (e : Arc EdgeKind) → Memᴰ e (G.edges g n) → rank e.target < rank n
    falls_from n e m =
        let (listed, q) = (laws.edges_iff g n e).0 m in
        subst (λ a. rank e.target < rank a) q (falls e listed)

    extend : (k n : ℕ) → rank n < k → Extends n
    extend zero n h = elim h [ ]
    extend (suc k) n h =
        extend_by n (G.edges g n) refl
          (λ e m. let lower = falls_from n e m in extend k e.target (omega arith))

    entry_accepted :
        (n : ℕ) (s : ForEachState) (e : Arc EdgeKind)
        → Accepting G g (n, s)
        → Memᴰ e (G.edges g n)
        → (s' : ForEachState) × (next_state n s e.weight ≡ ok s')
    entry_accepted n s e acc m =
        let (es, b, w, sink) = extend (suc (rank e.target)) e.target (omega arith) in
        let (listed, q) = (laws.edges_iff g n e).0 m in
        let (s', next, _) =
          step-of_Accepts n s e.weight (labels es) (acc (e ∷ es) b (listed, q, w) sink) in
        (s', next)

    push_accepted :
        (n : ℕ) (s : ForEachState) (e : Arc EdgeKind) (y : ℕ × ForEachState)
        → Accepting G g (n, s)
        → Memᴰ e (G.edges g n)
        → edge_entry n s e ≡ ok y
        → Accepting G g y
    push_accepted n s e y acc m entry es b w sink =
        let (next, target) = edge_entry-eq-ok n s e entry in
        let (listed, q) = (laws.edges_iff g n e).0 m in
        let w' = subst⁻¹ (λ a. IsWalk (G.edge_references g) a es b) target w in
        let (s', next', later) =
          step-of_Accepts n s e.weight (labels es) (acc (e ∷ es) b (listed, q, w') sink) in
        let same : s' ≡ y.1 = cc (next, next') in subst (λ t. Accepts t (labels es)) same later

    visit_complete :
        (n : ℕ) (s : ForEachState) (out : List (Arc EdgeKind)) (stack : Stack)
        → out ≡ G.edges g n
        → All (Accepting G g) ((n, s) ∷ stack)
        → (stack' : Stack) × (visit n s out stack ≡ ok stack') × All (Accepting G g) stack'
    unfolding visit
    visit_complete n s [] stack same all =
        let closed = end-of_Accepts n s (all.0 [] n refl (sym same)) in (stack, rw closed, all.1)
    visit_complete n s (e ∷ es) stack same all =
        elim (Result-cases (push_all (edge_entry n s) stack (e ∷ es))) [
          | inl (stack', q) ↦ (
            stack',
            q,
            push_all-inv (edge_entry n s) (All (Accepting G g)) stack (e ∷ es) q
                (λ x y t m entry acc.
                  (push_accepted n s x y all.0 (subst (Memᴰ x) same m) entry, acc))
                all.1,
          )
          | inr (bad, q) ↦
              let (x, m, fails) = push_all-fails (edge_entry n s) stack (e ∷ es) q in
              let (s', next) = entry_accepted n s x all.0 (subst (Memᴰ x) same m) in
              absurd (unfold edge_entry in ground arith)
        ]

    pub search_walks_complete :
        (fuel : ℕ) (stack : Stack) (r : Result DagError (Unit {0}))
        → All (Accepting G g) stack
        → search_walks G g fuel stack ≡ some r
        → r ≡ ok tt
    unfolding search_walks
    search_walks_complete zero stack r all h = cc
    search_walks_complete (suc fuel) [] r all h = ground arith
    search_walks_complete (suc fuel) ((n, s) ∷ stack) r all h =
        let (stack', q, all') = visit_complete n s (G.edges g n) stack refl all in
        search_walks_complete fuel stack' r all' (rw (q, search_walks) at h)
