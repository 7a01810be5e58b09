-- ===== src/Dag/Concurrency/Spawned.antt =====
-- How many tasks a tool can start beyond one, counted apart from the code of sdk/src/dag/validator.rs.
use Prim.Native.Nat.{max}
use mathlib.Core.Path.{subst}
use mathlib.Core.Bool.{true≢false}
use nexus_sdk.Prelude.{
  ℕ, ◌+◌, ◌-◌, ◌≤◌, ◌≡◌, ◌↔◌, ◌⊎◌, inl, inr, refl, sym, ap, ◌∙◌, List, [], ◌∷◌, Memᴰ, arith, filter,
  contains, contains-mem, mem-contains, length, mem-filter, filter-mem, Bool-cases, nat_eq, leb,
  leb→le,
}
use nexus_sdk.Dag.Spec.{EdgeKind}
use nexus_sdk.Dag.Node.{GraphNode}
use nexus_sdk.Dag.Petgraph.{DiGraph}
use nexus_sdk.Dag.Concurrency.{ports_on_paths, max_concurrency, spawned}

-- So many elements of the list are in the set.
abbrev pub Counts : (ℕ → Type 0) → List ℕ → ℕ → Type 0
Counts S [] n = n ≡ 0
Counts S (x ∷ xs) n = (S x × (m : ℕ) × (n ≡ m + 1) × Counts S xs m) ⊎ ((¬ S x) × Counts S xs n)

Counts-same :
    (S T : ℕ → Type 0)
    → ((a : ℕ) → S a ↔ T a)
    → (xs : List ℕ) (n : ℕ) → Counts S xs n
    → Counts T xs n
Counts-same S T h [] n c = c
Counts-same S T h (x ∷ xs) n (inl (s, m, e, c)) = inl ((h x).0 s, m, e, Counts-same S T h xs m c)
Counts-same S T h (x ∷ xs) n (inr (s, c)) = inr ((λ t. s ((h x).1 t)), Counts-same S T h xs n c)

Counts-unique : (S : ℕ → Type 0) (xs : List ℕ) (n m : ℕ) → Counts S xs n → Counts S xs m → n ≡ m
Counts-unique S [] n m c d = c ∙ sym d
Counts-unique S (x ∷ xs) n m (inl (s, k, e, c)) (inl (t, l, f, d)) =
    let same = Counts-unique S xs k l c d in omega arith
Counts-unique S (x ∷ xs) n m (inl (s, k, e, c)) (inr (t, d)) = absurd (t s)
Counts-unique S (x ∷ xs) n m (inr (s, c)) (inl (t, l, f, d)) = absurd (s t)
Counts-unique S (x ∷ xs) n m (inr (s, c)) (inr (t, d)) = Counts-unique S xs n m c d

-- On a set of nodes, a tool can start s tasks beyond one: no variant in the set has more than s + 1 output ports in the
-- set, and one has just as many unless s is 0.
pub record IsSpawned (neighbors : ℕ → List ℕ) (S : ℕ → Type 0) (node s : ℕ) : Type 0 where
  pub most :
      (variant n : ℕ)
      → Memᴰ variant (neighbors node)
      → S variant
      → Counts S (neighbors variant) n
      → n ≤ s + 1
  pub reached :
      (s ≡ 0)
      ⊎ ((variant : ℕ) × Memᴰ variant (neighbors node)
          × S variant
          × Counts S (neighbors variant) (s + 1))

IsSpawned-below :
    (neighbors : ℕ → List ℕ) (S T : ℕ → Type 0) (node s t : ℕ)
    → ((a : ℕ) → S a ↔ T a)
    → IsSpawned neighbors S node s
    → IsSpawned neighbors T node t
    → s ≤ t
IsSpawned-below neighbors S T node s t same a b = elim a.reached [
  | inl zero_tasks ↦ omega arith
  | inr (variant, m, in_set, c) ↦
      let h =
        b.most variant (s + 1) m ((same variant).0 in_set)
          (Counts-same S T same (neighbors variant) (s + 1) c) in
      omega arith
]

pub IsSpawned-unique :
    (neighbors : ℕ → List ℕ) (S T : ℕ → Type 0) (node s t : ℕ)
    → ((a : ℕ) → S a ↔ T a)
    → IsSpawned neighbors S node s
    → IsSpawned neighbors T node t
    → s ≡ t
IsSpawned-unique neighbors S T node s t same a b =
    let below = IsSpawned-below neighbors S T node s t same a b in
    let above = IsSpawned-below neighbors T S node t s (λ x. ((same x).1, (same x).0)) b a in
    omega arith

pub IsSpawned-same :
    (neighbors : ℕ → List ℕ) (S T : ℕ → Type 0) (node s : ℕ)
    → ((a : ℕ) → S a ↔ T a)
    → IsSpawned neighbors S node s
    → IsSpawned neighbors T node s
IsSpawned-same neighbors S T node s same a = record {
  most = λ variant n m in_set c.
      a.most variant n m ((same variant).1 in_set)
        (Counts-same T S (λ x. ((same x).1, (same x).0)) (neighbors variant) n c);
  reached = elim a.reached [
    | inl none_started ↦ inl none_started
    | inr (variant, m, in_set, c) ↦
        inr
          (variant, m, (same variant).0 in_set, Counts-same S T same (neighbors variant) (s + 1) c)
  ];
}

Counts-filter :
    (nodes xs : List ℕ) → Counts (λ a. Memᴰ a nodes) xs (length (filter (contains nodes) xs))
Counts-filter nodes [] = refl
Counts-filter nodes (x ∷ xs) = elim (Bool-cases (contains nodes x)) [
  | inl there ↦ rw there (
      inl (
        contains-mem nodes x there,
        length (filter (contains nodes) xs),
        omega arith,
        Counts-filter nodes xs,
      ))
  | inr other ↦
      rw other (inr ((λ m. true≢false (sym (mem-contains m) ∙ other)), Counts-filter nodes xs))
]

module _ (G : DiGraph GraphNode EdgeKind) (g : G.Graph) (nodes : List ℕ) where
  ports-Counts :
      (variant : ℕ)
      → Counts (λ a. Memᴰ a nodes) (G.neighbors g variant) (ports_on_paths G g nodes variant)
  unfolding ports_on_paths
  ports-Counts variant = Counts-filter nodes (G.neighbors g variant)

  max_concurrency-above :
      (acc : ℕ) (variants : List ℕ) → acc ≤ max_concurrency G g nodes acc variants
  unfolding max_concurrency
  max_concurrency-above acc [] = omega arith
  max_concurrency-above acc (v ∷ vs) =
      let h = max_concurrency-above (max acc (ports_on_paths G g nodes v - 1)) vs in omega arith

  max_concurrency-most :
      (acc : ℕ) (variants : List ℕ) (v : ℕ)
      → Memᴰ v variants
      → ports_on_paths G g nodes v ≤ max_concurrency G g nodes acc variants + 1
  unfolding max_concurrency
  max_concurrency-most acc [] v m = elim m [ ]
  max_concurrency-most acc (w ∷ vs) v (Memᴰ.head e) =
      let h = max_concurrency-above (max acc (ports_on_paths G g nodes w - 1)) vs in
      let same = ap (ports_on_paths G g nodes) e in omega arith
  max_concurrency-most acc (w ∷ vs) v (Memᴰ.tail m) =
      max_concurrency-most (max acc (ports_on_paths G g nodes w - 1)) vs v m

  max_concurrency-reached :
      (acc : ℕ) (variants : List ℕ)
      → (max_concurrency G g nodes acc variants ≡ acc)
        ⊎ ((v : ℕ) × Memᴰ v variants
            × (ports_on_paths G g nodes v ≡ max_concurrency G g nodes acc variants + 1))
  unfolding max_concurrency
  max_concurrency-reached acc [] = inl refl
  max_concurrency-reached acc (w ∷ vs) =
      elim (max_concurrency-reached (max acc (ports_on_paths G g nodes w - 1)) vs) [
        | inr (v, m, reached) ↦ inr (v, Memᴰ.tail m, reached)
        | inl same ↦ elim (Bool-cases (leb (ports_on_paths G g nodes w - 1) acc)) [
          | inl below ↦
              let h = leb→le (ports_on_paths G g nodes w - 1) acc below in inl (omega arith)
          | inr above ↦ inr (w, Memᴰ.head refl, ground arith)
        ]
      ]

  pub spawned-IsSpawned :
      (node : ℕ) → IsSpawned (G.neighbors g) (λ a. Memᴰ a nodes) node (spawned G g nodes node)
  unfolding spawned
  spawned-IsSpawned node =
      let variants = filter (contains nodes) (G.neighbors g node) in
      record {
        most = λ variant n m in_set c.
            let bound =
              max_concurrency-most 0 variants variant
                (filter-mem (contains nodes) m (mem-contains in_set)) in
            let same =
              Counts-unique (λ a. Memᴰ a nodes) (G.neighbors g variant) n
                (ports_on_paths G g nodes variant) c (ports-Counts variant) in
            omega arith;
        reached = elim (max_concurrency-reached 0 variants) [
          | inl nothing ↦ inl nothing
          | inr (v, m, ports) ↦
              let (there, in_set) = mem-filter (contains nodes) (G.neighbors g node) m in
              inr (
                v,
                there,
                contains-mem nodes v in_set,
                subst (Counts (λ a. Memᴰ a nodes) (G.neighbors g v)) ports (ports-Counts v),
              )
        ];
      }
