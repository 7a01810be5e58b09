-- ===== src/Dag/Concurrency/Paths.antt =====
-- Which nodes lie on the paths from the entry vertices of a group to a port, apart from the code of
-- sdk/src/dag/validator.rs.
use mathlib.Core.Path.{subst}
use mathlib.Core.Bool.{true≢false}
use mathlib.Core.List.Memᴰ
use nexus_sdk.Prelude.{
  some_injective, none-ne-some, ℕ, ◌≡◌, ◌↔◌, inl, inr, refl, sym, ap, ◌∙◌, String, Option, none,
  some, List, [], ◌∷◌, map, Memᴰ, contains, contains-mem, mem-contains, mem-filter, filter-mem,
  concat, mem-concat, of-concat, Bool-cases, nat_eq, string_eq, lookup, IsDistinct, if◌then◌else◌,
}
use nexus_sdk.Dag.Spec.{EdgeKind}
use nexus_sdk.Dag.Node.{GraphNode, node_eq}
use nexus_sdk.Dag.Petgraph.{DiGraph}
use nexus_sdk.Dag.Structure.{Groups, or_default}
use nexus_sdk.Dag.Concurrency.{to_set, groups_of, entry_vertices, nodes_in_paths}

to_set-mem : (a : ℕ) (xs : List ℕ) → Memᴰ a xs → Memᴰ a (to_set xs)
unfolding to_set
to_set-mem a [] m = m
to_set-mem a (x ∷ xs) (Memᴰ.head e) = elim (Bool-cases (contains (to_set xs) x)) [
  | inl there ↦
      rw there (subst (λ z. Memᴰ z (to_set xs)) (sym e) (contains-mem (to_set xs) x there))
  | inr fresh ↦ rw fresh (Memᴰ.head e)
]
to_set-mem a (x ∷ xs) (Memᴰ.tail m) = elim (Bool-cases (contains (to_set xs) x)) [
  | inl there ↦ rw there (to_set-mem a xs m)
  | inr fresh ↦ rw fresh (Memᴰ.tail (to_set-mem a xs m))
]

of-cons : {a x : ℕ} {ys xs : List ℕ} → (Memᴰ a ys → Memᴰ a xs) → Memᴰ a (x ∷ ys) → Memᴰ a (x ∷ xs)
of-cons rest (Memᴰ.head e) = Memᴰ.head e
of-cons rest (Memᴰ.tail m) = Memᴰ.tail (rest m)

of-to_set : (a : ℕ) (xs : List ℕ) → Memᴰ a (to_set xs) → Memᴰ a xs
unfolding to_set
of-to_set a [] m = m
of-to_set a (x ∷ xs) m = elim (Bool-cases (contains (to_set xs) x)) [
  | inl there ↦
      Memᴰ.tail
        (of-to_set a xs (subst (λ b. Memᴰ a (if b then to_set xs else x ∷ to_set xs)) there m))
  | inr fresh ↦
      of-cons (of-to_set a xs)
        (subst (λ b. Memᴰ a (if b then to_set xs else x ∷ to_set xs)) fresh m)
]

pub to_set-IsDistinct : (xs : List ℕ) → IsDistinct (to_set xs)
unfolding to_set
to_set-IsDistinct [] = tt
to_set-IsDistinct (x ∷ xs) = elim (Bool-cases (contains (to_set xs) x)) [
  | inl there ↦ rw there (to_set-IsDistinct xs)
  | inr fresh ↦ rw fresh ((λ m. true≢false (sym (mem-contains m) ∙ fresh)), to_set-IsDistinct xs)
]

-- The groups that are given for a node's weight.
abbrev pub IsGroupOf : Groups → Option GraphNode → String → Type 0
IsGroupOf groups weight group =
    (n : GraphNode) × (weight ≡ some n)
    × (members : List String) × (lookup n groups ≡ some members)
    × Memᴰ group members

module _ (G : DiGraph GraphNode EdgeKind) (g : G.Graph) (groups : Groups) (group : String) where
  -- A node of the graph to which the groups assign the group.
  abbrev pub IsEntry : ℕ → Type 0
  IsEntry node = Memᴰ node (G.node_indices g) × IsGroupOf groups (G.node_weight g node) group

  -- The node lies on a simple path from an entry vertex of the group to the port.
  abbrev pub IsOnPath : ℕ → ℕ → Type 0
  IsOnPath port node =
      (entry : ℕ) × IsEntry entry
      × (path : List ℕ) × Memᴰ path (G.all_simple_paths g entry port)
      × Memᴰ node path

  of-default :
      (o : Option (List String))
      → Memᴰ group (or_default o)
      → (members : List String) × (o ≡ some members) × Memᴰ group members
  of-default none m = elim m [ ]
  of-default (some members) m = (members, refl, m)

  weight_iff :
      (weight : Option GraphNode)
      → Memᴰ group (elim weight [ none ↦ [] | some n ↦ or_default (lookup n groups) ])
        ↔ IsGroupOf groups weight group
  weight_iff none = ((λ m. elim m [ ]), λ (n, is, members, at, m). absurd (none-ne-some is))
  weight_iff (some n) = (
    (λ m. let (members, at, k) = of-default (lookup n groups) m in (n, refl, members, at, k)),
    λ (n', is, members, at, m).
        let found : lookup n groups ≡ some members =
          ap (λ i. lookup i groups) (some_injective is) ∙ at in
        subst (λ o. Memᴰ group (or_default o)) (sym found) m,
  )

  entry_vertices_iff : (node : ℕ) → Memᴰ node (entry_vertices G g groups group) ↔ IsEntry node
  unfolding entry_vertices groups_of
  entry_vertices_iff node =
      let test = λ (i : ℕ). contains (groups_of G g groups i) group in
      let (to, of) = weight_iff (G.node_weight g node) in
      (
        (λ m.
            let (there, in_group) = mem-filter test (G.node_indices g) m in
            (there, to (contains-mem (groups_of G g groups node) group in_group))),
        λ (there, given). filter-mem test there (mem-contains (of given)),
      )

  pub nodes_in_paths_iff :
      (port node : ℕ)
      → Memᴰ node (nodes_in_paths G g (entry_vertices G g groups group) port) ↔ IsOnPath port node
  unfolding nodes_in_paths
  nodes_in_paths_iff port node =
      let entries = entry_vertices G g groups group in
      let from = λ (entry : ℕ). G.all_simple_paths g entry port in
      (
        (λ m.
            let (path, p, k) =
              of-concat (concat (map from entries))
                (of-to_set node (concat (concat (map from entries))) m) in
            let (paths, q, l) = of-concat (map from entries) p in
            let (entry, r, same) = Memᴰ.of_map from entries q in
            (entry, (entry_vertices_iff entry).0 r, path, subst (Memᴰ path) (sym same) l, k)),
        λ (entry, is_entry, path, p, k).
            to_set-mem node (concat (concat (map from entries)))
              (mem-concat (mem-concat (Memᴰ.map from ((entry_vertices_iff entry).1 is_entry)) p) k),
      )
