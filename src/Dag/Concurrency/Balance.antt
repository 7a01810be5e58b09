-- ===== src/Dag/Concurrency/Balance.antt =====
-- What `follows_concurrency_rules` decides.
use mathlib.Core.List.Memᴰ
use mathlib.Core.List.{Permᴰ}
use mathlib.Core.Path.{subst}
use nexus_sdk.Prelude.{
  ℕ, zero, suc, ◌+◌, ◌≡◌, ◌≢◌, ◌↔◌, refl, sym, ◌∙◌, ap, String, true, false, Option, none, some,
  List, [], ◌∷◌, map, Memᴰ, arith, ok, >>=-eq-ok, bail_if, bail_if_iff, try_all_iff, All-mem,
  All-intro, filter, mem-filter, filter-mem, concat, mem-concat, of-concat, IsDistinct,
  same_members-Perm,
}
use nexus_sdk.Prelude.Int.{ℤ, pos, negsuc, sub_ℕ, sub_ℕ-+ℤ, sub_ℕ--ℤ, sub_ℕ-eq_zero}
use nexus_sdk.Dag.Spec.{EdgeKind}
use nexus_sdk.Dag.Node.{GraphNode, input_port, vertex, output_variant, output_port, is_input_port}
use nexus_sdk.Dag.Petgraph.{DiGraph}
use nexus_sdk.Dag.Errors.{unreachable}
use nexus_sdk.Dag.Structure.{Groups, is_empty}
use nexus_sdk.Dag.Concurrency.Spawned.{
  IsSpawned, IsSpawned-unique, IsSpawned-same, spawned-IsSpawned,
}
use nexus_sdk.Dag.Concurrency.Paths.{IsOnPath, to_set-IsDistinct, nodes_in_paths_iff}
use nexus_sdk.Dag.Concurrency.{
  spawned, node_concurrency, net_from, get_net_concurrency_in_subgraph, entry_vertices,
  nodes_in_paths, check_concurrency, check_port, follows_concurrency_rules,
}

is_empty_iff : (xs : List ℕ) → (is_empty xs ≡ false) ↔ (xs ≢ [])
is_empty_iff [] = (λ h. cc, λ h. absurd (h refl))
is_empty_iff (x ∷ xs) = (λ h. cc, λ h. refl)

sub_ℕ_self : {a b : ℕ} → a ≡ b → sub_ℕ a b ≡ pos 0
sub_ℕ_self h = ground arith

-- The sum of a function over a list, which does not depend on the order.
abbrev pub sum_of : (ℕ → ℕ) → List ℕ → ℕ
sum_of f [] = 0
sum_of f (x ∷ xs) = f x + sum_of f xs

sum_of-Perm : (f : ℕ → ℕ) (xs ys : List ℕ) → Permᴰ xs ys → sum_of f xs ≡ sum_of f ys
sum_of-Perm f xs ys Permᴰ.nil = refl
sum_of-Perm f xs ys (Permᴰ.cons {a} {b} {l₁} {l₂} e p) =
    let same = ap f e in let rest = sum_of-Perm f l₁ l₂ p in omega arith
sum_of-Perm f xs ys (Permᴰ.swap e e') = let same = ap f e in let other = ap f e' in omega arith
sum_of-Perm f xs ys (Permᴰ.trans {l₁} {l₂} {l₃} p q) = sum_of-Perm f l₁ l₂ p ∙ sum_of-Perm f l₂ l₃ q

sum_of-same :
    (f h : ℕ → ℕ) (xs : List ℕ) → ((x : ℕ) → Memᴰ x xs → f x ≡ h x) → sum_of f xs ≡ sum_of h xs
sum_of-same f h [] same = refl
sum_of-same f h (x ∷ xs) same =
    let first = same x (Memᴰ.head refl) in
    let rest = sum_of-same f h xs (λ y m. same y (Memᴰ.tail m)) in omega arith

-- A vertex starts its tasks and one, and an input port takes up one.
abbrev pub started_by : Option GraphNode → ℕ → ℕ
started_by (some (vertex n)) starts = starts + 1
started_by _ starts = 0

abbrev pub joined_by : Option GraphNode → ℕ
joined_by (some (input_port v n)) = 1
joined_by _ = 0

module _ (G : DiGraph GraphNode EdgeKind) (g : G.Graph) where
  abbrev pub started : (ℕ → ℕ) → List ℕ → ℕ
  started starts = sum_of (λ node. started_by (G.node_weight g node) (starts node))

  abbrev pub joined : List ℕ → ℕ
  joined = sum_of (λ node. joined_by (G.node_weight g node))

  module _ (nodes : List ℕ) where
    node_concurrency-sub_ℕ :
        (w : Option GraphNode) (node a b : ℕ)
        → node_concurrency G g nodes w node (sub_ℕ a b)
          ≡ sub_ℕ (a + started_by w (spawned G g nodes node)) (b + joined_by w)
    unfolding node_concurrency
    node_concurrency-sub_ℕ none node a b = ground arith
    node_concurrency-sub_ℕ (some (vertex n)) node a b =
        sub_ℕ-+ℤ a b (spawned G g nodes node + 1) ∙ ground arith
    node_concurrency-sub_ℕ (some (input_port v n)) node a b = sub_ℕ--ℤ a b 1 ∙ ground arith
    node_concurrency-sub_ℕ (some (output_variant v n)) node a b = ground arith
    node_concurrency-sub_ℕ (some (output_port v r n)) node a b = ground arith

    net_from-sub_ℕ :
        (a b : ℕ) (rest : List ℕ)
        → net_from G g nodes (sub_ℕ a b) rest
          ≡ sub_ℕ (a + started (spawned G g nodes) rest) (b + joined rest)
    unfolding net_from
    net_from-sub_ℕ a b [] = ground arith
    net_from-sub_ℕ a b (node ∷ rest) =
        ap (λ acc. net_from G g nodes acc rest)
          (node_concurrency-sub_ℕ (G.node_weight g node) node a b)
        ∙ net_from-sub_ℕ (a + started_by (G.node_weight g node) (spawned G g nodes node))
            (b + joined_by (G.node_weight g node)) rest
        ∙ ground arith

  net_lem :
      (nodes : List ℕ)
      → get_net_concurrency_in_subgraph G g nodes
        ≡ sub_ℕ (started (spawned G g nodes) nodes) (joined nodes)
  unfolding get_net_concurrency_in_subgraph
  net_lem nodes = net_from-sub_ℕ nodes 0 0 nodes ∙ ground arith

  check_concurrency_iff :
      (net : ℤ) (port : ℕ) (group : String)
      → (check_concurrency G g net port group ≡ ok tt) ↔ (net ≡ pos 0)
  unfolding check_concurrency
  check_concurrency_iff (negsuc n) port group = ground arith
  check_concurrency_iff (pos zero) port group = ground arith
  check_concurrency_iff (pos (suc n)) port group = ground arith

  -- A set of nodes, with the tasks that each can start in it, on which as many tasks are taken up as are started.
  pub record IsNetZero (S : ℕ → Type 0) : Type 0 where
    pub nodes : List ℕ
    pub distinct : IsDistinct nodes
    pub of_set : (node : ℕ) → Memᴰ node nodes ↔ S node
    pub starts : ℕ → ℕ
    pub spawns :
        (node : ℕ) (name : String)
        → S node
        → G.node_weight g node ≡ some (vertex name)
        → IsSpawned (G.neighbors g) S node (starts node)
    pub net_zero : started starts nodes ≡ joined nodes

  -- The port can be reached from an entry vertex of the group, and on the nodes of the simple paths to it as many tasks
  -- are taken up as can be started.
  pub record IsBalanced (groups : Groups) (group : String) (port : ℕ) : Type 0 where
    pub on_path : ℕ
    pub reachable : IsOnPath G g groups group port on_path
    pub balanced : IsNetZero (IsOnPath G g groups group port)

  -- The tasks do not depend on how the set is listed.
  IsNetZero-listed :
      (S : ℕ → Type 0) (nodes : List ℕ)
      → IsDistinct nodes
      → ((node : ℕ) → Memᴰ node nodes ↔ S node)
      → IsNetZero S
      → started (spawned G g nodes) nodes ≡ joined nodes
  IsNetZero-listed S nodes distinct of_set net =
      let p : Permᴰ nodes net.nodes =
        same_members-Perm nodes net.nodes distinct net.distinct (λ a.
          ((λ m. (net.of_set a).1 ((of_set a).0 m)), λ m. (of_set a).1 ((net.of_set a).0 m))) in
      sum_of-same (λ node. started_by (G.node_weight g node) (spawned G g nodes node))
        (λ node. started_by (G.node_weight g node) (net.starts node)) nodes
        (λ node m. same_start node (G.node_weight g node) refl m)
      ∙ sum_of-Perm (λ node. started_by (G.node_weight g node) (net.starts node)) nodes net.nodes p
      ∙ net.net_zero
      ∙ sym (sum_of-Perm (λ node. joined_by (G.node_weight g node)) nodes net.nodes p)
    where
      same_start :
          (node : ℕ) (w : Option GraphNode)
          → G.node_weight g node ≡ w
          → Memᴰ node nodes
          → started_by w (spawned G g nodes node) ≡ started_by w (net.starts node)
      same_start node none is m = refl
      same_start node (some (input_port v n)) is m = refl
      same_start node (some (output_variant v n)) is m = refl
      same_start node (some (output_port v r n)) is m = refl
      same_start node (some (vertex name)) is m =
          ap (λ s. s + 1)
            (IsSpawned-unique (G.neighbors g) (λ a. Memᴰ a nodes) S node (spawned G g nodes node)
              (net.starts node) of_set (spawned-IsSpawned G g nodes node)
              (net.spawns node name ((of_set node).0 m) is))

  listed-IsNetZero :
      (S : ℕ → Type 0) (nodes : List ℕ)
      → IsDistinct nodes
      → ((node : ℕ) → Memᴰ node nodes ↔ S node)
      → started (spawned G g nodes) nodes ≡ joined nodes
      → IsNetZero S
  listed-IsNetZero S nodes distinct of_set net_zero = record {
    nodes = nodes;
    distinct = distinct;
    of_set = of_set;
    starts = spawned G g nodes;
    spawns = λ node name s is.
        IsSpawned-same (G.neighbors g) (λ a. Memᴰ a nodes) S node (spawned G g nodes node) of_set
          (spawned-IsSpawned G g nodes node);
    net_zero = net_zero;
  }

  some_node : (nodes : List ℕ) → nodes ≢ [] → (a : ℕ) × Memᴰ a nodes
  some_node [] h = absurd (h refl)
  some_node (a ∷ nodes) h = (a, Memᴰ.head refl)

  not-nil : {a : ℕ} (nodes : List ℕ) → Memᴰ a nodes → nodes ≢ []
  not-nil [] m = elim m [ ]
  not-nil (x ∷ nodes) m = λ h. cc

  nodes_in_paths-IsDistinct :
      (entries : List ℕ) (port : ℕ) → IsDistinct (nodes_in_paths G g entries port)
  unfolding nodes_in_paths
  nodes_in_paths-IsDistinct entries port =
      to_set-IsDistinct (concat (concat (map (λ entry. G.all_simple_paths g entry port) entries)))

  check_port_iff :
      (groups : Groups) (group : String) (port : ℕ)
      → (check_port G g groups group port ≡ ok tt) ↔ IsBalanced groups group port
  unfolding check_port
  check_port_iff groups group port =
      let entries = entry_vertices G g groups group in
      let nodes = nodes_in_paths G g entries port in
      let S = IsOnPath G g groups group port in
      let distinct = nodes_in_paths-IsDistinct entries port in
      let of_set = nodes_in_paths_iff G g groups group port in
      (
        λ h.
            let (_, some_one, net) =
              >>=-eq-ok (bail_if (is_empty nodes) (unreachable port group)) _ h in
            let (a, m) = some_node nodes ((is_empty_iff nodes).0 ((bail_if_iff _ _).0 some_one)) in
            record {
              on_path = a;
              reachable = (of_set a).0 m;
              balanced = listed-IsNetZero S nodes distinct of_set (
                  sub_ℕ-eq_zero _ _
                    (sym (net_lem nodes) ∙ (check_concurrency_iff _ port group).0 net));
            },
        λ b. rw ((is_empty_iff nodes).1 (not-nil nodes ((of_set b.on_path).1 b.reachable))) (
            (check_concurrency_iff _ port group).1
              (net_lem nodes ∙ sub_ℕ_self (IsNetZero-listed S nodes distinct of_set b.balanced))),
      )

  -- In every entry group, every input port of the graph is balanced.
  unfoldable pub IsRaceFree : Groups → Type 0
  IsRaceFree groups =
      (entry : GraphNode × List String) (group : String) (port : ℕ)
      → Memᴰ entry groups
      → Memᴰ group entry.1
      → Memᴰ port (G.node_indices g)
      → is_input_port (G.node_weight g port) ≡ true
      → IsBalanced groups group port

  -- The check passes exactly when, for each entry group, every input port can be reached from an entry vertex of the
  -- group, and on the nodes of the simple paths from these to it as many tasks are started as there are input ports: a
  -- vertex starts one, and beyond it as many as the largest number of output ports, less one, that a variant of it
  -- has on these nodes.
  pub follows_concurrency_rules_iff :
      (groups : Groups) → (follows_concurrency_rules G g groups ≡ ok tt) ↔ IsRaceFree groups
  unfolding follows_concurrency_rules IsRaceFree
  follows_concurrency_rules_iff groups = (
    λ h entry group port m n k t.
        let grouped =
          All-mem _ ((try_all_iff _ _).0 h)
            (mem-concat (Memᴰ.map (λ (e : GraphNode × List String). e.1) m) n) in
        (check_port_iff groups group port).0 (
          All-mem _ ((try_all_iff _ _).0 grouped)
            (filter-mem (λ i. is_input_port (G.node_weight g i)) k t)),
    λ free. (try_all_iff _ _).1 (
        All-intro _ (concat (map (λ entry. entry.1) groups)) (λ group m.
          let (members, n, k) = of-concat (map (λ (e : GraphNode × List String). e.1) groups) m in
          let (entry, q, same) = Memᴰ.of_map (λ (e : GraphNode × List String). e.1) groups n in
          (try_all_iff _ _).1 (
            All-intro _ (filter (λ i. is_input_port (G.node_weight g i)) (G.node_indices g))
              (λ port p.
                let (listed, t) =
                  mem-filter (λ i. is_input_port (G.node_weight g i)) (G.node_indices g) p in
                (check_port_iff groups group port).1
                  (free entry group port q (subst (Memᴰ group) (sym same) k) listed t))))),
  )
