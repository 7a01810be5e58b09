-- ===== src/Dag/ListGraph.antt =====
-- A graph on lists with the operations of `petgraph`: the assumptions on it can be met, and the
-- validator can be run. The newest node stands first.
use Prim.Native.Nat.{max}
use mathlib.Core.List.Memᴰ
use nexus_sdk.Prelude.{
  ℕ, zero, suc, ◌<◌, ◌≤◌, ◌≡◌, refl, ap, ◌↔◌, inl, inr, Bool, false, not, ◌&&◌, Option, none, some,
  List, [], ◌∷◌, ◌++◌, map, Memᴰ, if◌then◌else◌, arith, ◌==◌, ==_iff, nat_eq, any, concat, filter,
  contains, length, mem-filter, filter-mem, leb, not-any,
}
use nexus_sdk.Dag.Petgraph.{DiGraph, IsDiGraph, Arc, arc}

pub record ListGraph (N W : Type 0) : Type 0 where
  pub nodes : List N
  pub arcs : List (Arc W)

module _ {N : Type 0} where
  abbrev indices : List N → List ℕ
  indices [] = []
  indices (x ∷ xs) = indices xs ++ length xs ∷ []

  abbrev weight_at : List N → ℕ → Option N
  weight_at [] i = none
  weight_at (x ∷ xs) i = if i == length xs then some x else weight_at xs i

  indices-lt : (xs : List N) (i : ℕ) → Memᴰ i (indices xs) → i < length xs
  indices-lt [] i m = elim m [ ]
  indices-lt (x ∷ xs) i m = elim (Memᴰ.append_cases (indices xs) m) [
    | inl old ↦ let h = indices-lt xs i old in omega arith
    | inr new ↦ let e = Memᴰ.eq_of_singleton new in omega arith
  ]

module _ {W : Type 0} where
  abbrev out_arcs : List (Arc W) → ℕ → List (Arc W)
  out_arcs arcs a = filter (λ e. e.source == a) arcs

  abbrev max_of : (Arc W → ℕ) → List (Arc W) → ℕ
  max_of f [] = 0
  max_of f (e ∷ es) = max (suc (f e)) (max_of f es)

  -- The length of the longest walk from the node, cut at the first argument.
  abbrev height : List (Arc W) → ℕ → ℕ → ℕ
  height arcs zero a = 0
  height arcs (suc k) a = max_of (λ e. height arcs k e.target) (out_arcs arcs a)

  max_of-mem : (f : Arc W → ℕ) {e : Arc W} {es : List (Arc W)} → Memᴰ e es → f e < max_of f es
  max_of-mem f (Memᴰ.head {x} {xs} q) = let p = ap f q in omega arith
  max_of-mem f (Memᴰ.tail m) = let h = max_of-mem f m in omega arith

  max_of-congr :
      (f h : Arc W → ℕ) (k : ℕ) (es : List (Arc W))
      → max_of f es ≤ k
      → ((e : Arc W) → f e < k → h e ≡ f e)
      → max_of h es ≡ max_of f es
  max_of-congr f h k [] b p = refl
  max_of-congr f h k (e ∷ es) b p =
      omega (arith, p e (omega arith), max_of-congr f h k es (omega arith) p)

  -- A height that is not cut is the length of the longest walk.
  height_stable :
      (arcs : List (Arc W)) (k a : ℕ)
      → height arcs k a < k
      → height arcs (suc k) a ≡ height arcs k a
  height_stable arcs zero a h = elim h [ ]
  height_stable arcs (suc k) a h =
      max_of-congr (λ e. height arcs k e.target) (λ e. height arcs (suc k) e.target) k
        (out_arcs arcs a) (omega arith) (λ e below. height_stable arcs k e.target below)

  abbrev cyclic : List (Arc W) → Bool
  cyclic arcs = any (λ e. leb (suc (length arcs)) (height arcs (suc (length arcs)) e.source)) arcs

  acyclic_falls :
      (arcs : List (Arc W))
      → cyclic arcs ≡ false
      → (e : Arc W) → Memᴰ e arcs
      → height arcs (suc (length arcs)) e.target < height arcs (suc (length arcs)) e.source
  acyclic_falls arcs h e m =
      let k = length arcs in
      let low : height arcs (suc k) e.source < suc k =
        let t =
          not-any (λ e. leb (suc (length arcs)) (height arcs (suc (length arcs)) e.source)) h m in
        ground arith in
      let up =
        max_of-mem (λ e. height arcs k e.target)
          (filter-mem (λ d. d.source == e.source) m ((==_iff e.source e.source).1 refl)) in
      let same = height_stable arcs k e.target (omega arith) in omega arith

  unfoldable pub simple_paths : List (Arc W) → ℕ → List ℕ → ℕ → ℕ → List (List ℕ)
  simple_paths arcs zero seen a b = []
  simple_paths arcs (suc k) seen a b =
      let more =
        map (λ p. a ∷ p)
          (concat (
            map (λ e. simple_paths arcs k (a ∷ seen) e.target b)
              (filter (λ e. not (contains (a ∷ seen) e.target)) (out_arcs arcs a)))) in
      if a == b then (a ∷ []) ∷ [] else more

abbrev pub list_graph : (N W : Type 0) → DiGraph N W
list_graph N W = record {
  Graph = ListGraph N W;
  new = record { nodes = []; arcs = [] };
  add_node = λ g n. (record g { nodes = n ∷ g.nodes }, length g.nodes);
  add_edge = λ g a b w. record g { arcs = g.arcs ++ arc a b w ∷ [] };
  contains_edge = λ g a b. any (λ e. e.source == a && e.target == b) g.arcs;
  node_indices = λ g. indices g.nodes;
  node_weight = λ g i. weight_at g.nodes i;
  edge_references = λ g. g.arcs;
  edges = λ g a. out_arcs g.arcs a;
  neighbors = λ g a. map (λ e. e.target) (out_arcs g.arcs a);
  is_cyclic_directed = λ g. cyclic g.arcs;
  all_simple_paths = λ g a b. simple_paths g.arcs (length g.nodes) [] a b;
}

out_arcs_iff :
    {W : Type 0} (arcs : List (Arc W)) (a : ℕ) (e : Arc W)
    → Memᴰ e (out_arcs arcs a) ↔ (Memᴰ e arcs × (e.source ≡ a))
out_arcs_iff arcs a e = (
  λ m. let (old, t) = mem-filter (λ d. d.source == a) arcs m in (old, (==_iff e.source a).0 t),
  λ p. filter-mem (λ d. d.source == a) p.0 ((==_iff e.source a).1 p.1),
)

pub list_graph-IsDiGraph : (N W : Type 0) → IsDiGraph (list_graph N W)
list_graph-IsDiGraph N W = record {
  node_indices-new = refl;
  edge_references-new = refl;
  node_indices-add_node = λ g n. refl;
  add_node_fresh = λ g n m. let h = indices-lt g.nodes (length g.nodes) m in absurd (omega arith);
  node_weight-add_node = λ g n i. refl;
  edge_references-add_node = λ g n. refl;
  edge_references-add_edge = λ g a b w. refl;
  node_indices-add_edge = λ g a b w. refl;
  node_weight-add_edge = λ g a b w i. refl;
  contains_edge_lem = λ g a b. refl;
  edges_iff = λ g a e. out_arcs_iff g.arcs a e;
  length-edges = λ g a. refl;
  neighbors_lem = λ g a. refl;
  acyclic_rank = λ g h. (height g.arcs (suc (length g.arcs)), acyclic_falls g.arcs h);
}
