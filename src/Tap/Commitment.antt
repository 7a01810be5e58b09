-- ===== src/Tap/Commitment.antt =====
-- The commitment to the inputs of a DAG in sdk/src/types/tap.rs. BCS and SHA-256 are parameters; a failing
-- encoding is the panic of `expect`, `none`.
use mathlib.Core.Bool.{true≢false}
use mathlib.Core.Option
use mathlib.Core.List.Permᴰ
use mathlib.Core.Path.{subst}
use mathlib.Core.List.{Permᴰ}
use nexus_sdk.Prelude.{
  ℕ, ◌≡◌, ◌≢◌, refl, sym, ap, ◌∙◌, ◌⊎◌, inl, inr, Option, none, some, List, Bool-cases, ◌==◌,
  ==_iff, nat_eq, list_eq, arith, ℕ_order, lex_order, pair_order, sort, sort-Perm, sort-perm,
}
use nexus_sdk.Prelude.Order.{Order}
use nexus_sdk.Tap.Types.{Text}

-- The order of `(String, String)`.
abbrev pub port_order : Order (Text × Text)
port_order = pair_order (lex_order ℕ_order) (lex_order ℕ_order)

map-some :
    {A B : Type 0} (f : A → B) (o : Option A) {b : B}
    → Option.map f o ≡ some b
    → (a : A) × (o ≡ some a) × (f a ≡ b)
map-some f none h = ground arith
map-some f (some a) h = (a, refl, ground arith)

module _ (digest : List ℕ → List ℕ) (to_bytes : List (Text × Text) → Option (List ℕ)) where
  unfoldable pub tap_input_commitment_from_dag_inputs : List (Text × Text) → Option (List ℕ)
  tap_input_commitment_from_dag_inputs inputs =
      Option.map digest (to_bytes (sort port_order inputs))

  -- Two encodings with the same hash.
  abbrev pub Collides : List (Text × Text) → List (Text × Text) → Type 0
  Collides inputs inputs' =
      (x : List ℕ) × (y : List ℕ) × (to_bytes (sort port_order inputs) ≡ some x)
      × (to_bytes (sort port_order inputs') ≡ some y)
      × (x ≢ y)
      × (digest x ≡ digest y)

  commitment-parts :
      (inputs : List (Text × Text)) (commitment : List ℕ)
      → tap_input_commitment_from_dag_inputs inputs ≡ some commitment
      → (x : List ℕ) × (to_bytes (sort port_order inputs) ≡ some x) × (digest x ≡ commitment)
  unfolding tap_input_commitment_from_dag_inputs
  commitment-parts inputs commitment h = map-some digest (to_bytes (sort port_order inputs)) h

-- The commitment does not depend on the order in which the inputs are given.
pub commitment-Perm :
    (digest : List ℕ → List ℕ) (to_bytes : List (Text × Text) → Option (List ℕ))
    (inputs inputs' : List (Text × Text))
    → Permᴰ inputs inputs'
    → tap_input_commitment_from_dag_inputs digest to_bytes inputs
      ≡ tap_input_commitment_from_dag_inputs digest to_bytes inputs'
unfolding tap_input_commitment_from_dag_inputs
commitment-Perm digest to_bytes inputs inputs' p =
    ap (λ sorted. Option.map digest (to_bytes sorted)) (sort-Perm port_order p)

-- If BCS encodes different lists differently, equal commitments are those of the same inputs up to order,
-- each with its number of occurrences, or the hash has a collision on their encodings.
pub commitment-binds :
    (digest : List ℕ → List ℕ) (to_bytes : List (Text × Text) → Option (List ℕ))
    → ((i j : List (Text × Text)) (b : List ℕ) → to_bytes i ≡ some b → to_bytes j ≡ some b → i ≡ j)
    → (inputs inputs' : List (Text × Text)) (commitment : List ℕ)
    → tap_input_commitment_from_dag_inputs digest to_bytes inputs ≡ some commitment
    → tap_input_commitment_from_dag_inputs digest to_bytes inputs' ≡ some commitment
    → Permᴰ inputs inputs' ⊎ Collides digest to_bytes inputs inputs'
commitment-binds digest to_bytes distinct inputs inputs' commitment h k =
    let (x, given, hashed) = commitment-parts digest to_bytes inputs commitment h in
    let (y, given', hashed') = commitment-parts digest to_bytes inputs' commitment k in
    elim (Bool-cases (x == y)) [
      | inl same ↦
          let is =
            distinct (sort port_order inputs) (sort port_order inputs') y
              (given ∙ ap some ((==_iff x y).0 same)) given' in
          inl (
            Permᴰ.trans (Permᴰ.symm (sort-perm port_order inputs))
              (subst (λ s. Permᴰ s inputs') (sym is) (sort-perm port_order inputs')))
      | inr other ↦ inr (
        x,
        y,
        given,
        given',
        (λ e. true≢false (sym ((==_iff x y).1 e) ∙ other)),
        hashed ∙ sym hashed',
      )
    ]
