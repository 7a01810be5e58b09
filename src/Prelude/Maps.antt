-- ===== src/Prelude/Maps.antt =====
-- A `HashMap` as an association list without an order that the code may rely on.
use mathlib.Core.Path.{◌≡◌, refl}
use mathlib.Core.Bool.{Bool, true, false, ◌||◌}
use mathlib.Core.Option.{Option, none, some}
use mathlib.Core.List.{List, [], ◌∷◌}
use native.Mathlib.Omega.{arith}
use nexus_sdk.Prelude.Tests.{if◌then◌else◌}
use nexus_sdk.Prelude.Equality.{Eq, ◌==◌}

abbrev pub Assoc {ℓ κ} : Type ℓ → Type κ → Type (ℓ ⊔ κ)
Assoc K V = List (K × V)

module _ {ℓ κ} {K : Type ℓ} {V : Type κ} ⦃e : Eq K⦄ where
  -- `map.insert(k, v)`
  unfoldable pub insert : K → V → Assoc K V → Assoc K V
  insert key v [] = (key, v) ∷ []
  insert key v ((j, w) ∷ rest) = if j == key then (key, v) ∷ rest else (j, w) ∷ insert key v rest

  -- `map.get(&k)`
  unfoldable pub lookup : K → Assoc K V → Option V
  lookup key [] = none
  lookup key ((j, v) ∷ rest) = if j == key then some v else lookup key rest

  pub lookup-insert :
      (k j : K) (v : V) (m : Assoc K V)
      → lookup j (insert k v m) ≡ (if k == j then some v else lookup j m)
  unfolding insert lookup
  lookup-insert k j v [] = refl
  lookup-insert k j v ((i, w) ∷ rest) =
      ground (arith, e.same_iff i k, e.same_iff i j, e.same_iff k j, lookup-insert k j v rest)

  pub lookup-insert_self : (k : K) (v : V) (m : Assoc K V) → lookup k (insert k v m) ≡ some v
  lookup-insert_self k v m = rw lookup-insert (rw ((e.same_iff k k).1 refl))

  -- `map.contains_key(&k)`
  unfoldable pub contains_key : K → Assoc K V → Bool
  contains_key k m = elim (lookup k m) [ none ↦ false | some _ ↦ true ]

  pub contains_key-insert :
      (k j : K) (v : V) (m : Assoc K V)
      → contains_key j (insert k v m) ≡ (k == j || contains_key j m)
  unfolding contains_key
  contains_key-insert k j v m = ground (arith, lookup-insert k j v m)
