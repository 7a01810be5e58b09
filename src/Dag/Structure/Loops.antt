-- ===== src/Dag/Structure/Loops.antt =====
-- The last checks of `try_into_graph`: do-while edges have break edges, on other variants, and the
-- entry groups name vertices of the DAG.
use mathlib.Core.Path.{ap₂}
use mathlib.Core.List.Memᴰ
use nexus_sdk.Prelude.{
  ◌≡◌, ◌≢◌, refl, ap, String, true, false, not, List, [], map, Memᴰ, arith, ok, >>=-eq-ok, bail_if,
  bail_if-eq-ok, try_all, try_all-All, try_fold, try_fold-All, All-mem, contains, contains-mem,
  mem-contains, filter-mem, mem-filter, any-mem, ◌==◌, ==_iff, string_eq, pair_eq,
}
use nexus_sdk.Dag.Spec.{EdgeKind, do_while, break, kind_eq, DagSpec, DagEdge, DagEntryGroup}
use nexus_sdk.Dag.Node.{output_variant, node_eq}
use nexus_sdk.Dag.Errors.{no_break, no_do_while, do_while_and_break}
use nexus_sdk.Dag.Structure.{
  Groups, of_kind, vertices_with, variants_with, check_loops, is_defined, add_member, add_group,
  vertex_entry_groups, is_empty,
}

abbrev variant_key : DagEdge → String × String
variant_key e = (e.from.vertex, e.from.output_variant)

-- Some edge of the kind leaves the vertex.
abbrev pub Leaves : EdgeKind → DagSpec → String → Type 0
Leaves k dag name = (e : DagEdge) × Memᴰ e dag.edges × (e.kind ≡ k) × (e.from.vertex ≡ name)

of_kind-mem :
    (k : EdgeKind) (dag : DagSpec) (e : DagEdge)
    → Memᴰ e dag.edges
    → e.kind ≡ k
    → Memᴰ e (of_kind k dag)
of_kind-mem k dag e m q = filter-mem (λ d. d.kind == k) m ((==_iff e.kind k).1 q)

Leaves-of_mem :
    (k : EdgeKind) (dag : DagSpec) (name : String)
    → Memᴰ name (vertices_with k dag)
    → Leaves k dag name
Leaves-of_mem k dag name m =
    let (e, listed, q) = Memᴰ.of_map (λ d. d.from.vertex) (of_kind k dag) m in
    let (old, t) = mem-filter (λ d. d.kind == k) dag.edges listed in
    (e, old, (==_iff e.kind k).0 t, q)

module _ (dag : DagSpec) (checked : check_loops dag ≡ ok tt) where
  loop_checks :
      (try_all
          (λ v. bail_if (not (contains (vertices_with break dag) v)) (no_break v))
          (vertices_with do_while dag)
        ≡ ok tt)
      × (try_all
            (λ v. bail_if (not (contains (vertices_with do_while dag) v)) (no_do_while v))
            (vertices_with break dag)
          ≡ ok tt)
      × (try_all
            (λ v.
              bail_if
                (contains (variants_with break dag) v)
                (do_while_and_break (output_variant v.0 v.1)))
            (variants_with do_while dag)
          ≡ ok tt)
  unfolding check_loops
  loop_checks =
      let (_, first, rest) = >>=-eq-ok _ _ checked in
      let (_, second, third) = >>=-eq-ok _ _ rest in (first, second, third)

  pub do_while-has_break :
      (e : DagEdge) → Memᴰ e dag.edges → e.kind ≡ do_while → Leaves break dag e.from.vertex
  do_while-has_break e m q =
      let named = Memᴰ.map (λ d. d.from.vertex) (of_kind-mem do_while dag e m q) in
      let passed = bail_if-eq-ok _ _ (All-mem _ (try_all-All _ _ loop_checks.0) named) in
      Leaves-of_mem break dag e.from.vertex
        (contains-mem (vertices_with break dag) e.from.vertex (ground arith))

  pub break-has_do_while :
      (e : DagEdge) → Memᴰ e dag.edges → e.kind ≡ break → Leaves do_while dag e.from.vertex
  break-has_do_while e m q =
      let named = Memᴰ.map (λ d. d.from.vertex) (of_kind-mem break dag e m q) in
      let passed = bail_if-eq-ok _ _ (All-mem _ (try_all-All _ _ loop_checks.1) named) in
      Leaves-of_mem do_while dag e.from.vertex
        (contains-mem (vertices_with do_while dag) e.from.vertex (ground arith))

  pub loops_branch :
      (e d : DagEdge)
      → Memᴰ e dag.edges
      → Memᴰ d dag.edges
      → e.kind ≡ do_while
      → d.kind ≡ break
      → e.from.vertex ≡ d.from.vertex
      → e.from.output_variant ≢ d.from.output_variant
  loops_branch e d m n q r same_vertex same_variant =
      let named = Memᴰ.map variant_key (of_kind-mem do_while dag e m q) in
      let passed = bail_if-eq-ok _ _ (All-mem _ (try_all-All _ _ loop_checks.2) named) in
      let known = mem-contains (Memᴰ.map variant_key (of_kind-mem break dag d n r)) in
      let same : variant_key e ≡ variant_key d = ap₂ (λ a b. (a, b)) same_vertex same_variant in
      absurd (cc (passed, known, ap (contains (variants_with break dag)) same))

nonempty_of_mem {ℓ} : {A : Type ℓ} {a : A} {xs : List A} → Memᴰ a xs → is_empty xs ≡ false
nonempty_of_mem (Memᴰ.head e) = refl
nonempty_of_mem (Memᴰ.tail m) = refl

module _ (dag : DagSpec) where
  defined :
      (name : String) → is_defined dag name ≡ true → Memᴰ name (map (λ v. v.name) dag.vertices)
  unfolding is_defined
  defined name h =
      let (v, m, t) = any-mem (λ w. w.name == name) dag.vertices h in
      rw (← ((==_iff v.name name).0 t)) (Memᴰ.map (λ w. w.name) m)

  member_defined :
      (group : String) (groups groups' : Groups) (name : String)
      → add_member dag group groups name ≡ ok groups'
      → Memᴰ name (map (λ v. v.name) dag.vertices)
  unfolding add_member
  member_defined group groups groups' name h = defined name (ground arith)

  pub groups_defined :
      (groups : Groups) (g : DagEntryGroup) (name : String)
      → vertex_entry_groups dag ≡ ok groups
      → Memᴰ g dag.entry_groups
      → Memᴰ name g.vertices
      → Memᴰ name (map (λ v. v.name) dag.vertices)
  unfolding vertex_entry_groups add_group
  groups_defined groups g name h m n =
      let listed = nonempty_of_mem m in
      let folded : try_fold (add_group dag) [] dag.entry_groups ≡ ok groups = ground arith in
      let (s, t, step) = All-mem _ (try_fold-All (add_group dag) [] dag.entry_groups folded) m in
      let (u, v, inner) = All-mem _ (try_fold-All (add_member dag g.name) s g.vertices step) n in
      member_defined g.name u v name inner
