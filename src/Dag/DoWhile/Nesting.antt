-- ===== src/Dag/DoWhile/Nesting.antt =====
-- What `validate_do_while_nesting` decides.
use mathlib.Core.Path.{subst, subst⁻¹}
use mathlib.Core.List.Memᴰ
use nexus_sdk.Prelude.{
  ℕ, ◌≡◌, ◌↔◌, refl, sym, false, Option, none, some, List, [], ◌∷◌, ◌++◌, map, Memᴰ, arith, ok,
  bail_if_iff, try_all_iff, All-mem, All-intro, not-any, ==_iff, inl, inr, ◌⊎◌, ap, ◌∙◌, mem-concat,
  of-concat, any_of_none,
}
use nexus_sdk.Dag.Spec.{EdgeKind, for_each, collect, do_while, break, kind_eq}
use nexus_sdk.Dag.Node.{GraphNode}
use nexus_sdk.Dag.Petgraph.{DiGraph, Arc}
use nexus_sdk.Dag.Errors.{nested_loop}
use nexus_sdk.Dag.DoWhile.Destination.{IsNamed, IsFirst, is_destination_iff, find_iff}
use nexus_sdk.Dag.DoWhile.{
  pop, is_loop_edge, keep_some, filter_map, is_destination, destination, loop_of, loop_nodes,
  check_loop, validate_do_while_nesting,
}

-- The kinds of the edges that belong to a loop.
abbrev pub IsLoop : EdgeKind → Type 0
IsLoop k = (k ≡ do_while) ⊎ (k ≡ break) ⊎ (k ≡ for_each) ⊎ (k ≡ collect)

-- The edge leads to an input port; this is the first vertex of the graph that has the name for which it stands.
abbrev pub IsDestination : (G : DiGraph GraphNode EdgeKind) → G.Graph → Arc EdgeKind → ℕ → Type 0
IsDestination G g e to =
    IsFirst (λ n. IsNamed (G.node_weight g e.target) (G.node_weight g n)) (G.node_indices g) to

-- On a simple path from the destination of a do-while edge back to its source, no node before the last one, the
-- source, has an outgoing edge of a kind that belongs to a loop.
unfoldable pub IsFlat : (G : DiGraph GraphNode EdgeKind) → G.Graph → Type 0
IsFlat G g =
    (e : Arc EdgeKind) (to : ℕ) (before : List ℕ) (last node : ℕ) (out : Arc EdgeKind)
    → Memᴰ e (G.edge_references g)
    → e.weight ≡ do_while
    → IsDestination G g e to
    → Memᴰ (before ++ last ∷ []) (G.all_simple_paths g to e.source)
    → Memᴰ node before
    → Memᴰ out (G.edges g node)
    → ¬ IsLoop out.weight

is_loop_edge_iff : (k : EdgeKind) → (is_loop_edge k ≡ false) ↔ (¬ IsLoop k)
is_loop_edge_iff k =
    ground (arith, ==_iff k do_while, ==_iff k break, ==_iff k for_each, ==_iff k collect)

pop-append : (before : List ℕ) (last : ℕ) → pop (before ++ last ∷ []) ≡ before
pop-append [] last = refl
pop-append (x ∷ []) last = refl
pop-append (x ∷ y ∷ before) last = ap (λ zs. x ∷ zs) (pop-append (y ∷ before) last)

-- A path with a node before its last one.
popped :
    (path : List ℕ) (node : ℕ) → Memᴰ node (pop path) → (last : ℕ) × (path ≡ pop path ++ last ∷ [])
popped [] node m = elim m [ ]
popped (x ∷ []) node m = elim m [ ]
popped (x ∷ y ∷ []) node m = (y, refl)
popped (x ∷ y ∷ z ∷ path) node m =
    let (last, split) = popped (y ∷ z ∷ path) y (Memᴰ.head refl) in (last, ap (λ zs. x ∷ zs) split)

mem-keep_some :
    {A : Type 0} {a : A} (o : Option A) (rest : List A)
    → (o ≡ some a) ⊎ Memᴰ a rest
    → Memᴰ a (keep_some o rest)
mem-keep_some none rest (inl e) = cc
mem-keep_some none rest (inr m) = m
mem-keep_some (some x) rest (inl e) = Memᴰ.head (cc)
mem-keep_some (some x) rest (inr m) = Memᴰ.tail m

of-keep_some :
    {A : Type 0} {a : A} (o : Option A) (rest : List A)
    → Memᴰ a (keep_some o rest)
    → (o ≡ some a) ⊎ Memᴰ a rest
of-keep_some none rest m = inr m
of-keep_some (some x) rest (Memᴰ.head e) = inl (ap some (sym e))
of-keep_some (some x) rest (Memᴰ.tail m) = inr m

module _ {A B : Type 0} (f : A → Option B) where
  mem-filter_map :
      {a : A} {b : B} {xs : List A} → Memᴰ a xs → f a ≡ some b → Memᴰ b (filter_map f xs)
  mem-filter_map (Memᴰ.head {x} {xs} e) h =
      mem-keep_some (f x) (filter_map f xs) (inl (ap f (sym e) ∙ h))
  mem-filter_map (Memᴰ.tail {x} {xs} m) h =
      mem-keep_some (f x) (filter_map f xs) (inr (mem-filter_map m h))

  of-filter_map :
      {b : B} (xs : List A) → Memᴰ b (filter_map f xs) → (a : A) × Memᴰ a xs × (f a ≡ some b)
  of-filter_map [] m = elim m [ ]
  of-filter_map (x ∷ xs) m = elim (of-keep_some (f x) (filter_map f xs) m) [
    | inl e ↦ (x, Memᴰ.head refl, e)
    | inr n ↦ let (a, k, e) = of-filter_map xs n in (a, Memᴰ.tail k, e)
  ]

module _ (G : DiGraph GraphNode EdgeKind) (g : G.Graph) where
  loop_of-eq-some :
      (e : Arc EdgeKind) (to : ℕ)
      → e.weight ≡ do_while
      → destination G g e ≡ some to
      → loop_of G g e ≡ some (e.source, to)
  unfolding loop_of
  loop_of-eq-some e to k d = rw ((==_iff e.weight do_while).1 k, d)

  of-loop_of :
      (e : Arc EdgeKind) (source to : ℕ)
      → loop_of G g e ≡ some (source, to)
      → (e.weight ≡ do_while) × (destination G g e ≡ some to) × (e.source ≡ source)
  unfolding loop_of
  of-loop_of e source to h = ground (arith, ==_iff e.weight do_while)

  flat_of_check :
      (source to : ℕ) (path : List ℕ) (node : ℕ) (out : Arc EdgeKind)
      → check_loop G g (source, to) ≡ ok tt
      → Memᴰ path (G.all_simple_paths g to source)
      → Memᴰ node (pop path)
      → Memᴰ out (G.edges g node)
      → is_loop_edge out.weight ≡ false
  unfolding check_loop loop_nodes
  flat_of_check source to path node out h p n m =
      let checked = All-mem _ ((try_all_iff _ _).0 h) (mem-concat (Memᴰ.map pop p) n) in
      not-any (λ e. is_loop_edge e.weight) ((bail_if_iff _ _).0 checked) m

  check_of_flat :
      (source to : ℕ)
      → ((path : List ℕ) (node : ℕ) (out : Arc EdgeKind)
          → Memᴰ path (G.all_simple_paths g to source)
          → Memᴰ node (pop path)
          → Memᴰ out (G.edges g node)
          → is_loop_edge out.weight ≡ false)
      → check_loop G g (source, to) ≡ ok tt
  unfolding check_loop loop_nodes
  check_of_flat source to flat = (try_all_iff _ _).1 (
      All-intro _ (loop_nodes G g (source, to)) (λ node m.
        let (popped, n, k) = of-concat (map pop (G.all_simple_paths g to source)) m in
        let (path, p, same) = Memᴰ.of_map pop (G.all_simple_paths g to source) n in
        (bail_if_iff _ (nested_loop source)).1 (
          any_of_none (λ (e : Arc EdgeKind). is_loop_edge e.weight) (G.edges g node)
            (λ out. flat path node out p (subst⁻¹ (Memᴰ node) same k)))))

  destination_iff :
      (e : Arc EdgeKind) (to : ℕ) → (destination G g e ≡ some to) ↔ IsDestination G g e to
  unfolding destination
  destination_iff e to =
      find_iff (λ n. is_destination (G.node_weight g e.target) (G.node_weight g n))
        (λ n. IsNamed (G.node_weight g e.target) (G.node_weight g n))
        (λ n. is_destination_iff (G.node_weight g e.target) (G.node_weight g n)) (G.node_indices g)
        to

  -- The check passes exactly when no do-while loop has another loop inside: no edge of the kinds do-while, break,
  -- for-each or collect leaves a node, other than the last one, on a simple path from the destination of a do-while
  -- edge to its source. The destination is the first vertex that has the name of the edge's input port, without
  -- "-do-while" at its end if it ends so.
  pub validate_do_while_nesting_iff : (validate_do_while_nesting G g ≡ ok tt) ↔ IsFlat G g
  unfolding validate_do_while_nesting IsFlat
  validate_do_while_nesting_iff = (
    λ h e to before last node out m k d p n o. (is_loop_edge_iff out.weight).0 (
        flat_of_check e.source to (before ++ last ∷ []) node out
          (All-mem _ ((try_all_iff _ _).0 h)
            (mem-filter_map (loop_of G g) m (loop_of-eq-some e to k ((destination_iff e to).1 d))))
          p (subst⁻¹ (Memᴰ node) (pop-append before last) n) o),
    λ flat. (try_all_iff _ _).1 (
        All-intro _ (filter_map (loop_of G g) (G.edge_references g)) (λ loop m.
          let (e, n, q) = of-filter_map (loop_of G g) (G.edge_references g) m in
          let (kind, at, source) = of-loop_of e loop.0 loop.1 q in
          check_of_flat loop.0 loop.1 (λ path node out p k o.
            let (last, split) = popped path node k in
            let there = subst⁻¹ (λ s. Memᴰ path (G.all_simple_paths g loop.1 s)) source p in
            (is_loop_edge_iff out.weight).1 (
              flat e loop.1 (pop path) last node out n kind ((destination_iff e loop.1).0 at)
                (subst (λ q. Memᴰ q (G.all_simple_paths g loop.1 e.source)) split there) k o)))),
  )
