-- ===== src/Prelude/Lists.antt =====
-- Lists measured by the native numbers, Boolean quantifiers over them, and predicates by recursion.
use Prim.Native.Nat.{ℕ, suc, ◌+◌}
use mathlib.Core.List.Memᴰ
use mathlib.Core.Path.{◌≡◌, refl, subst}
use mathlib.Core.Logic.{◌⊎◌, inl, inr}
use mathlib.Core.Bool.{Bool, true, false, ◌&&◌, ◌||◌}
use mathlib.Core.Option.{Option, none, some}
use mathlib.Core.List.{List, [], ◌∷◌, ◌++◌, Memᴰ}
use native.Mathlib.Omega.{arith}
use nexus_sdk.Prelude.Tests.{if◌then◌else◌, Bool-cases}
use nexus_sdk.Prelude.Equality.{Eq, ◌==◌}

module _ {ℓ} {A : Type ℓ} where
  abbrev pub length : List A → ℕ
  length [] = 0
  length (x ∷ xs) = suc (length xs)

  abbrev pub any : (A → Bool) → List A → Bool
  any p [] = false
  any p (x ∷ xs) = p x || any p xs

  abbrev pub all : (A → Bool) → List A → Bool
  all p [] = true
  all p (x ∷ xs) = p x && all p xs

  -- Rust's `filter` by a Boolean test.
  abbrev pub filter : (A → Bool) → List A → List A
  filter p [] = []
  filter p (x ∷ xs) = let rest = filter p xs in if p x then x ∷ rest else rest

  abbrev pub get_elem? : List A → ℕ → Option A
  get_elem? [] i = none
  get_elem? (x ∷ xs) ℕ.zero = some x
  get_elem? (x ∷ xs) (suc i) = get_elem? xs i

  abbrev pub concat : List (List A) → List A
  concat [] = []
  concat (xs ∷ xss) = xs ++ concat xss

  pub length-append : (xs ys : List A) → length (xs ++ ys) ≡ length xs + length ys
  length-append [] ys = omega arith
  length-append (x ∷ xs) ys = omega (arith, length-append xs ys)

  pub all-append : (p : A → Bool) (xs ys : List A) → all p (xs ++ ys) ≡ (all p xs && all p ys)
  all-append p [] ys = refl
  all-append p (x ∷ xs) ys = ground (arith, all-append p xs ys)

  pub all-head : (p : A → Bool) (x : A) (xs : List A) → all p (x ∷ xs) ≡ true → p x ≡ true
  all-head p x xs h = ground arith

  pub any-append : (p : A → Bool) (xs ys : List A) → any p (xs ++ ys) ≡ (any p xs || any p ys)
  any-append p [] ys = refl
  any-append p (x ∷ xs) ys = ground (arith, any-append p xs ys)

module _ {ℓ} {A : Type ℓ} where
  pub mem-concat :
      {a : A} {xs : List A} {xss : List (List A)} → Memᴰ xs xss → Memᴰ a xs → Memᴰ a (concat xss)
  mem-concat {a} (Memᴰ.head e) m = Memᴰ.append_left _ (subst (Memᴰ a) e m)
  mem-concat (Memᴰ.tail {x} n) m = Memᴰ.append_right x (mem-concat n m)

  pub of-concat :
      {a : A} (xss : List (List A)) → Memᴰ a (concat xss) → (xs : List A) × Memᴰ xs xss × Memᴰ a xs
  of-concat [] m = elim m [ ]
  of-concat (xs ∷ xss) m = elim (Memᴰ.append_cases xs m) [
    | inl here ↦ (xs, Memᴰ.head refl, here)
    | inr there ↦ let (ys, n, k) = of-concat xss there in (ys, Memᴰ.tail n, k)
  ]

module _ {ℓ κ} {A : Type ℓ} where
  abbrev pub All : (A → Type κ) → List A → Type κ
  All P [] = Unit
  All P (x ∷ xs) = P x × All P xs

  pub All-mem : (P : A → Type κ) {a : A} {xs : List A} → All P xs → Memᴰ a xs → P a
  All-mem P h (Memᴰ.head e) = rw e h.0
  All-mem P h (Memᴰ.tail m) = All-mem P h.1 m

  pub All-append : (P : A → Type κ) (xs ys : List A) → All P xs → All P ys → All P (xs ++ ys)
  All-append P [] ys hx hy = hy
  All-append P (x ∷ xs) ys hx hy = (hx.0, All-append P xs ys hx.1 hy)

  pub All-intro : (P : A → Type κ) (xs : List A) → ((a : A) → Memᴰ a xs → P a) → All P xs
  All-intro P [] h = tt
  All-intro P (x ∷ xs) h = (h x (Memᴰ.head refl), All-intro P xs (λ a m. h a (Memᴰ.tail m)))

module _ {ℓ} {A : Type ℓ} (p : A → Bool) where
  -- A Boolean quantifier decides the predicate.
  pub any-mem : (xs : List A) → any p xs ≡ true → (a : A) × Memᴰ a xs × (p a ≡ true)
  any-mem [] h = cc
  any-mem (x ∷ xs) h = elim (Bool-cases (p x)) [
    | inl e ↦ (x, Memᴰ.head refl, e)
    | inr e ↦ let (a, m, q) = any-mem xs (ground arith) in (a, Memᴰ.tail m, q)
  ]

  pub any_of_mem : {a : A} {xs : List A} → Memᴰ a xs → p a ≡ true → any p xs ≡ true
  any_of_mem (Memᴰ.head e) h = ground arith
  any_of_mem (Memᴰ.tail m) h = ground (arith, any_of_mem m h)

  pub not-any : {a : A} {xs : List A} → any p xs ≡ false → Memᴰ a xs → p a ≡ false
  not-any h (Memᴰ.head e) = ground arith
  not-any h (Memᴰ.tail m) = not-any (ground arith) m

  pub any_of_none : (xs : List A) → ((a : A) → Memᴰ a xs → p a ≡ false) → any p xs ≡ false
  any_of_none [] h = refl
  any_of_none (x ∷ xs) h =
      let here = h x (Memᴰ.head refl) in
      let later = any_of_none xs (λ a m. h a (Memᴰ.tail m)) in ground arith

  keep-mem :
      {a : A} (x : A) (rest : List A) (b : Bool)
      → Memᴰ a (if b then x ∷ rest else rest)
      → ((a ≡ x) × (b ≡ true)) ⊎ Memᴰ a rest
  keep-mem x rest true (Memᴰ.head e) = inl (e, refl)
  keep-mem x rest true (Memᴰ.tail m) = inr m
  keep-mem x rest false m = inr m

  pub mem-filter : {a : A} (xs : List A) → Memᴰ a (filter p xs) → Memᴰ a xs × (p a ≡ true)
  mem-filter [] m = elim m [ ]
  mem-filter (x ∷ xs) m = elim (keep-mem x (filter p xs) (p x) m) [
    | inl (e, t) ↦ (Memᴰ.head e, ground arith)
    | inr m' ↦ let (old, t) = mem-filter xs m' in (Memᴰ.tail old, t)
  ]

  mem-keep :
      {a : A} (x : A) (rest : List A) (b : Bool)
      → Memᴰ a rest
      → Memᴰ a (if b then x ∷ rest else rest)
  mem-keep x rest true m = Memᴰ.tail m
  mem-keep x rest false m = m

  pub filter-mem : {a : A} {xs : List A} → Memᴰ a xs → p a ≡ true → Memᴰ a (filter p xs)
  filter-mem (Memᴰ.head {x} {xs} e) t = let t' : p x ≡ true = ground arith in rw t' (Memᴰ.head e)
  filter-mem (Memᴰ.tail {x} {xs} m) t = mem-keep x (filter p xs) (p x) (filter-mem m t)

module _ {ℓ} {A : Type ℓ} ⦃e : Eq A⦄ where
  abbrev pub contains : List A → A → Bool
  contains xs a = any (λ x. x == a) xs

  pub contains-mem : (xs : List A) (a : A) → contains xs a ≡ true → Memᴰ a xs
  contains-mem xs a h = let (x, m, t) = any-mem (λ x. x == a) xs h in rw ((e.same_iff x a).0 t) at m

  pub mem-contains : {xs : List A} {a : A} → Memᴰ a xs → contains xs a ≡ true
  mem-contains {a} m = any_of_mem (λ x. x == a) m ((e.same_iff a a).1 refl)
