-- ===== src/Dag/Petgraph.antt =====
-- What the validator takes from the crate `petgraph`, which is not part of the repository: the
-- operations of `DiGraph` as a record, and the behaviour that their documentation states as another.
-- A `NodeIndex` is its number; an `EdgeReference` is an `Arc`.
use nexus_sdk.Prelude.{
  ℕ, ◌<◌, ◌≡◌, ◌↔◌, Bool, false, ◌&&◌, List, [], ◌∷◌, ◌++◌, map, Memᴰ, Option, some, if◌then◌else◌,
  ◌==◌, nat_eq, any, length, filter,
}

pub record Arc (W : Type 0) : Type 0 where
  pub source : ℕ
  pub target : ℕ
  pub weight : W

pub record DiGraph (N W : Type 0) : Type 1 where
  pub Graph : Type 0
  pub new : Graph
  pub add_node : Graph → N → Graph × ℕ
  pub add_edge : Graph → ℕ → ℕ → W → Graph
  pub contains_edge : Graph → ℕ → ℕ → Bool
  -- `node_indices()`, and `graph[index]` where the index is in the graph
  pub node_indices : Graph → List ℕ
  pub node_weight : Graph → ℕ → Option N
  -- `edge_references()`, `edges(a)` and `neighbors_directed(a, Outgoing)`
  pub edge_references : Graph → List (Arc W)
  pub edges : Graph → ℕ → List (Arc W)
  pub neighbors : Graph → ℕ → List ℕ
  pub is_cyclic_directed : Graph → Bool
  -- `all_simple_paths(graph, from, to, 0, None)`
  pub all_simple_paths : Graph → ℕ → ℕ → List (List ℕ)

abbrev pub arc : {W : Type 0} → ℕ → ℕ → W → Arc W
arc a b w = record { source = a; target = b; weight = w }

-- The arcs lead from the first node to the last one, each from where the one before it ends.
abbrev pub IsWalk : {W : Type 0} → List (Arc W) → ℕ → List (Arc W) → ℕ → Type 0
IsWalk arcs a [] b = a ≡ b
IsWalk arcs a (e ∷ es) b = Memᴰ e arcs × (e.source ≡ a) × IsWalk arcs e.target es b

-- The documented behaviour of the operations. A new node has a fresh index, edges are kept in the
-- order in which they were added, `edges` gives the outgoing ones in some order, and a graph for which
-- `is_cyclic_directed` finds no cycle can be ranked so that every edge goes down.
pub record IsDiGraph {N W : Type 0} (G : DiGraph N W) : Type 0 where
  pub node_indices-new : G.node_indices G.new ≡ []
  pub edge_references-new : G.edge_references G.new ≡ []
  pub node_indices-add_node :
      (g : G.Graph) (n : N)
      → G.node_indices (G.add_node g n).0 ≡ G.node_indices g ++ (G.add_node g n).1 ∷ []
  pub add_node_fresh : (g : G.Graph) (n : N) → ¬ Memᴰ (G.add_node g n).1 (G.node_indices g)
  pub node_weight-add_node :
      (g : G.Graph) (n : N) (i : ℕ)
      → G.node_weight (G.add_node g n).0 i
        ≡ (if i == (G.add_node g n).1 then some n else G.node_weight g i)
  pub edge_references-add_node :
      (g : G.Graph) (n : N) → G.edge_references (G.add_node g n).0 ≡ G.edge_references g
  pub edge_references-add_edge :
      (g : G.Graph) (a b : ℕ) (w : W)
      → G.edge_references (G.add_edge g a b w) ≡ G.edge_references g ++ arc a b w ∷ []
  pub node_indices-add_edge :
      (g : G.Graph) (a b : ℕ) (w : W) → G.node_indices (G.add_edge g a b w) ≡ G.node_indices g
  pub node_weight-add_edge :
      (g : G.Graph) (a b : ℕ) (w : W) (i : ℕ)
      → G.node_weight (G.add_edge g a b w) i ≡ G.node_weight g i
  pub contains_edge_lem :
      (g : G.Graph) (a b : ℕ)
      → G.contains_edge g a b ≡ any (λ e. e.source == a && e.target == b) (G.edge_references g)
  pub edges_iff :
      (g : G.Graph) (a : ℕ) (e : Arc W)
      → Memᴰ e (G.edges g a) ↔ (Memᴰ e (G.edge_references g) × (e.source ≡ a))
  pub length-edges :
      (g : G.Graph) (a : ℕ)
      → length (G.edges g a) ≡ length (filter (λ e. e.source == a) (G.edge_references g))
  pub neighbors_lem : (g : G.Graph) (a : ℕ) → G.neighbors g a ≡ map (λ e. e.target) (G.edges g a)
  pub acyclic_rank :
      (g : G.Graph)
      → G.is_cyclic_directed g ≡ false
      → (rank : ℕ → ℕ) × ((e : Arc W)
          → Memᴰ e (G.edge_references g)
          → rank e.target < rank e.source)
