-- ===== src/Prelude/Sort.antt =====
-- Sorting by a total order.
use mathlib.Core.Path.{◌≡◌, refl, ap, ◌∙◌}
use mathlib.Core.Logic.{inl, inr}
use mathlib.Core.Bool.{true}
use mathlib.Core.List.{List, [], ◌∷◌, Permᴰ}
use mathlib.Core.List.Permᴰ
use native.Mathlib.Omega.{arith}
use nexus_sdk.Prelude.Tests.{if◌then◌else◌, Bool-cases}
use nexus_sdk.Prelude.Lists.{All}
use nexus_sdk.Prelude.Order.{Order}

module _ {ℓ} {A : Type ℓ} (o : Order A) where
  abbrev pub insert_sorted : A → List A → List A
  insert_sorted x [] = x ∷ []
  insert_sorted x (y ∷ ys) =
      let rest = insert_sorted x ys in if o.leq x y then x ∷ y ∷ ys else y ∷ rest

  -- `sort`: in a total order every stable sort gives the same list.
  abbrev pub sort : List A → List A
  sort [] = []
  sort (x ∷ xs) = insert_sorted x (sort xs)

  insert_commutes :
      (x y : A) (zs : List A)
      → insert_sorted x (insert_sorted y zs) ≡ insert_sorted y (insert_sorted x zs)
  insert_commutes x y [] = ground (arith, o.total x y, o.antisym x y)
  insert_commutes x y (z ∷ zs) = ground (
    arith,
    o.total x y,
    o.antisym x y,
    o.total x z,
    o.total y z,
    o.trans x y z,
    o.trans y x z,
    o.trans y z x,
    o.trans x z y,
    insert_commutes x y zs,
  )

  -- Sorting forgets the order.
  pub sort-Perm : {xs ys : List A} → Permᴰ xs ys → sort xs ≡ sort ys
  sort-Perm Permᴰ.nil = refl
  sort-Perm (Permᴰ.cons {b} {l₁} e p) =
      ap (λ x. insert_sorted x (sort l₁)) e ∙ ap (insert_sorted b) (sort-Perm p)
  sort-Perm (Permᴰ.swap {a} {b} {a'} {b'} {l} e f) =
      insert_commutes a b (sort l)
      ∙ ap (λ x. insert_sorted x (insert_sorted a (sort l))) f
      ∙ ap (λ x. insert_sorted a' (insert_sorted x (sort l))) e
  sort-Perm (Permᴰ.trans p q) = sort-Perm p ∙ sort-Perm q

  insert_sorted-perm : (x : A) (xs : List A) → Permᴰ (insert_sorted x xs) (x ∷ xs)
  insert_sorted-perm x [] = Permᴰ.refl (x ∷ [])
  insert_sorted-perm x (y ∷ ys) = elim (Bool-cases (o.leq x y)) [
    | inl first ↦ rw first (Permᴰ.refl (x ∷ y ∷ ys))
    | inr later ↦
        rw later (Permᴰ.trans (Permᴰ.cons refl (insert_sorted-perm x ys)) (Permᴰ.swap refl refl))
  ]

  pub sort-perm : (xs : List A) → Permᴰ (sort xs) xs
  sort-perm [] = Permᴰ.nil
  sort-perm (x ∷ xs) = Permᴰ.trans (insert_sorted-perm x (sort xs)) (Permᴰ.cons refl (sort-perm xs))

  -- Every element comes before all later ones.
  abbrev pub IsSorted : List A → Type ℓ
  IsSorted [] = Unit
  IsSorted (x ∷ xs) = All (λ y. o.leq x y ≡ true) xs × IsSorted xs

  below-All :
      (x y : A) (ys : List A)
      → o.leq x y ≡ true
      → All (λ z. o.leq y z ≡ true) ys
      → All (λ z. o.leq x z ≡ true) ys
  below-All x y [] h k = tt
  below-All x y (z ∷ zs) h k = (o.trans x y z h k.0, below-All x y zs h k.1)

  below-insert :
      (w x : A) (ys : List A)
      → o.leq w x ≡ true
      → All (λ z. o.leq w z ≡ true) ys
      → All (λ z. o.leq w z ≡ true) (insert_sorted x ys)
  below-insert w x [] h k = (h, tt)
  below-insert w x (y ∷ ys) h k = elim (Bool-cases (o.leq x y)) [
    | inl first ↦ rw first (h, k)
    | inr later ↦ rw later (k.0, below-insert w x ys h k.1)
  ]

  insert-IsSorted : (x : A) (ys : List A) → IsSorted ys → IsSorted (insert_sorted x ys)
  insert-IsSorted x [] h = (tt, tt)
  insert-IsSorted x (y ∷ ys) h = elim (Bool-cases (o.leq x y)) [
    | inl first ↦ rw first ((first, below-All x y ys first h.0), h)
    | inr later ↦ rw later (below-insert y x ys (o.total x y later) h.0, insert-IsSorted x ys h.1)
  ]

  pub sort-IsSorted : (xs : List A) → IsSorted (sort xs)
  sort-IsSorted [] = tt
  sort-IsSorted (x ∷ xs) = insert-IsSorted x (sort xs) (sort-IsSorted xs)
