-- ===== src/Dag/DoWhile/Destination.antt =====
-- Which vertex a do-while edge leads to, by the names of sdk/src/dag/validator.rs.
use Prim.Native.Char.{Char}
use mathlib.Core.Option
use mathlib.Core.Bool.{true≢false}
use mathlib.Core.Path.{subst}
use nexus_sdk.Prelude.{
  some_injective, none-ne-some, ==_refl, ==_ne, ℕ, ◌+◌, ◌≡◌, ◌≢◌, ◌↔◌, ◌⊎◌, inl, inr, refl, sym, ap,
  ◌∙◌, String, Bool, true, false, Option, none, some, List, [], ◌∷◌, ◌++◌, arith, All, Bool-cases,
  ◌==◌, string_eq, ==_iff, if◌then◌else◌,
}
use nexus_sdk.Dag.Node.{GraphNode, input_port, vertex, output_variant, output_port}
use nexus_sdk.Dag.ForEach.{find}
use nexus_sdk.Dag.DoWhile.{strip_suffix, unwrap_or, original_name, is_destination}

-- A text with another after it, and how many characters a text has.
abbrev pub followed_by : String → String → String
followed_by String.[] suffix = suffix
followed_by (String.◌∷◌ c s) suffix = String.◌∷◌ c (followed_by s suffix)

abbrev chars : String → ℕ
chars String.[] = 0
chars (String.◌∷◌ c s) = chars s + 1

chars-followed_by : (s suffix : String) → chars (followed_by s suffix) ≡ chars s + chars suffix
chars-followed_by String.[] suffix = omega arith
chars-followed_by (String.◌∷◌ c s) suffix = let h = chars-followed_by s suffix in omega arith

longer : (c : Char) (s suffix : String) → String.◌∷◌ c (followed_by s suffix) ≢ suffix
longer c s suffix h =
    let n = chars-followed_by s suffix in let k = ap chars h in absurd (omega arith)

port_injective :
    {v w n m : String}
    → Path (Option GraphNode) (some (input_port v n)) (some (input_port w m))
    → v ≡ w
port_injective h = ground arith

vertex_injective :
    {v w : String} → Path (Option GraphNode) (some (vertex v)) (some (vertex w)) → v ≡ w
vertex_injective h = ground arith

if-some :
    (b : Bool) (o : Option String) (text rest : String)
    → (if b then some text else o) ≡ some rest
    → ((b ≡ true) × (rest ≡ text)) ⊎ ((b ≡ false) × (o ≡ some rest))
if-some true o text rest h = inl (refl, ground arith)
if-some false o text rest h = inr (refl, h)

map-some :
    (c : Char) (o : Option String) (rest : String)
    → Option.map (λ r. String.◌∷◌ c r) o ≡ some rest
    → (r : String) × (o ≡ some r) × (rest ≡ String.◌∷◌ c r)
map-some c none rest h = cc
map-some c (some r) rest h = (r, refl, ground arith)

strip_suffix-eq-some :
    (suffix text rest : String)
    → strip_suffix suffix text ≡ some rest
    → text ≡ followed_by rest suffix
unfolding strip_suffix
strip_suffix-eq-some suffix String.[] rest h = elim (if-some ("" == suffix) none "" rest h) [
  | inl (same, empty) ↦ (==_iff "" suffix).0 same ∙ ap (λ r. followed_by r suffix) (sym empty)
  | inr (other, nothing) ↦ cc
]
strip_suffix-eq-some suffix (String.◌∷◌ c s) rest h =
    elim (if-some (String.◌∷◌ c s == suffix)
      (Option.map (λ r. String.◌∷◌ c r) (strip_suffix suffix s)) "" rest h) [
        | inl (same, empty) ↦
            (==_iff (String.◌∷◌ c s) suffix).0 same ∙ ap (λ r. followed_by r suffix) (sym empty)
        | inr (other, further) ↦
            let (r, stripped, made) = map-some c (strip_suffix suffix s) rest further in
            ap (λ t. String.◌∷◌ c t) (strip_suffix-eq-some suffix s r stripped)
            ∙ ap (λ t. followed_by t suffix) (sym made)
      ]

strip_suffix-own : (suffix : String) → strip_suffix suffix suffix ≡ some ""
unfolding strip_suffix
strip_suffix-own String.[] = refl
strip_suffix-own (String.◌∷◌ c s) = rw (==_refl (String.◌∷◌ c s)) refl

strip_suffix-followed_by :
    (suffix rest : String) → strip_suffix suffix (followed_by rest suffix) ≡ some rest
unfolding strip_suffix
strip_suffix-followed_by suffix String.[] = strip_suffix-own suffix
strip_suffix-followed_by suffix (String.◌∷◌ c rest) =
    rw (==_ne (String.◌∷◌ c (followed_by rest suffix)) suffix (longer c rest suffix))
      (ap (Option.map (λ r. String.◌∷◌ c r)) (strip_suffix-followed_by suffix rest))

-- The name of the vertex that an input port's vertex stands for: what comes before "-do-while", or the name itself.
abbrev pub IsOriginal : String → String → Type 0
IsOriginal name v =
    (v ≡ followed_by name "-do-while")
    ⊎ ((v ≡ name) × ((s : String) → v ≢ followed_by s "-do-while"))

stripped_iff :
    (name v : String) (o : Option String)
    → strip_suffix "-do-while" v ≡ o
    → (name ≡ unwrap_or o v) ↔ IsOriginal name v
stripped_iff name v none is = (
  (λ same. inr (
    sym same,
    λ s h.
        none-ne-some
          (sym is ∙ ap (strip_suffix "-do-while") h ∙ strip_suffix-followed_by "-do-while" s),
  )),
  λ original. elim original [
    | inl h ↦ absurd (
        none-ne-some
          (sym is ∙ ap (strip_suffix "-do-while") h ∙ strip_suffix-followed_by "-do-while" name))
    | inr (same, _) ↦ sym same
  ],
)
stripped_iff name v (some r) is =
    let split = strip_suffix-eq-some "-do-while" v r is in
    (
      (λ same. inl (split ∙ ap (λ t. followed_by t "-do-while") (sym same))),
      λ original. elim original [
        | inl h ↦ some_injective (
            sym (strip_suffix-followed_by "-do-while" name)
            ∙ ap (strip_suffix "-do-while") (sym h)
            ∙ is)
        | inr (same, never) ↦ absurd (never r split)
      ],
    )

original_name_iff : (name v : String) → ((name == original_name v) ≡ true) ↔ IsOriginal name v
unfolding original_name
original_name_iff name v =
    let (to, of) = stripped_iff name v (strip_suffix "-do-while" v) refl in
    let (eq, bool) = ==_iff name (unwrap_or (strip_suffix "-do-while" v) v) in
    ((λ h. to (eq h)), λ h. bool (of h))

-- The second node is the vertex for whose name the first one, an input port, stands.
abbrev pub IsNamed : Option GraphNode → Option GraphNode → Type 0
IsNamed port node =
    (v : String) × (n : String) × (name : String) × (port ≡ some (input_port v n))
    × (node ≡ some (vertex name))
    × IsOriginal name v

pub is_destination_iff :
    (port found : Option GraphNode) → (is_destination port found ≡ true) ↔ IsNamed port found
unfolding is_destination
is_destination_iff (some (input_port v n)) (some (vertex name)) = (
  (λ h. (v, n, name, refl, refl, (original_name_iff name v).0 h)),
  λ (v', n', name', is_port, is_vertex, original). (original_name_iff name v).1 (
      subst (λ w. IsOriginal name w) (sym (port_injective is_port))
        (subst (λ m. IsOriginal m v') (sym (vertex_injective is_vertex)) original)),
)
is_destination_iff none _ = ((λ h. cc), λ (v, n, name, p, q, o). cc)
is_destination_iff (some (vertex m)) _ = ((λ h. cc), λ (v, n, name, p, q, o). cc)
is_destination_iff (some (output_variant m k)) _ = ((λ h. cc), λ (v, n, name, p, q, o). cc)
is_destination_iff (some (output_port m k l)) _ = ((λ h. cc), λ (v, n, name, p, q, o). cc)
is_destination_iff (some (input_port v n)) none = ((λ h. cc), λ (v', n', name, p, q, o). cc)
is_destination_iff (some (input_port v n)) (some (input_port w m)) =
    ((λ h. cc), λ (v', n', name, p, q, o). cc)
is_destination_iff (some (input_port v n)) (some (output_variant w m)) =
    ((λ h. cc), λ (v', n', name, p, q, o). cc)
is_destination_iff (some (input_port v n)) (some (output_port w m l)) =
    ((λ h. cc), λ (v', n', name, p, q, o). cc)

-- The first of the list of which a predicate holds.
abbrev pub IsFirst : (ℕ → Type 0) → List ℕ → ℕ → Type 0
IsFirst P xs x =
    (before : List ℕ) × (after : List ℕ) × (xs ≡ before ++ x ∷ after)
    × All (λ y. ¬ P y) before
    × P x

module _ (p : ℕ → Bool) (P : ℕ → Type 0) (decides : (x : ℕ) → (p x ≡ true) ↔ P x) where
  refuted : (x : ℕ) → p x ≡ false → ¬ P x
  refuted x h holds = true≢false (sym ((decides x).1 holds) ∙ h)

  find-IsFirst : (xs : List ℕ) (x : ℕ) → find p xs ≡ some x → IsFirst P xs x
  find-IsFirst [] x h = cc
  find-IsFirst (y ∷ ys) x h = elim (Bool-cases (p y)) [
    | inl holds ↦
        let same : y ≡ x =
          some_injective (subst (λ b. (if b then some y else find p ys) ≡ some x) holds h) in
        ([], ys, ap (λ z. z ∷ ys) same, tt, subst P same ((decides y).0 holds))
    | inr other ↦
        let (before, after, split, nothing, holds) =
          find-IsFirst ys x (subst (λ b. (if b then some y else find p ys) ≡ some x) other h) in
        (y ∷ before, after, ap (λ zs. y ∷ zs) split, (refuted y other, nothing), holds)
  ]

  find-split :
      (before after : List ℕ) (x : ℕ)
      → All (λ y. ¬ P y) before
      → P x
      → find p (before ++ x ∷ after) ≡ some x
  find-split [] after x nothing holds = rw ((decides x).1 holds) refl
  find-split (y ∷ before) after x nothing holds = elim (Bool-cases (p y)) [
    | inl wrong ↦ absurd (nothing.0 ((decides y).0 wrong))
    | inr other ↦ rw other (find-split before after x nothing.1 holds)
  ]

  pub find_iff : (xs : List ℕ) (x : ℕ) → (find p xs ≡ some x) ↔ IsFirst P xs x
  find_iff xs x = (
    find-IsFirst xs x,
    λ (before, after, split, nothing, holds).
        ap (find p) split ∙ find-split before after x nothing holds,
  )
