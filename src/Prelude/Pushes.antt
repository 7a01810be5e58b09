-- ===== src/Prelude/Pushes.antt =====
-- Loops that push the result of a fallible step for each element on a stack.
use mathlib.Core.Path.{◌≡◌, refl, subst, subst⁻¹}
use mathlib.Core.Logic.{inl, inr}
use mathlib.Core.List.{List, [], ◌∷◌, Memᴰ}
use native.Mathlib.Omega.{arith}
use nexus_sdk.Prelude.Lists.{All}
use nexus_sdk.Prelude.Results.{Result, Result-cases, ok, err, ◌>>=◌, >>=-eq-ok, try_fold}

module _ {ℓ κ μ} {E : Type ℓ} {A : Type κ} {B : Type μ} (f : A → Result E B) where
  -- `stack.push(f(x)?)`
  abbrev pub push_with : List B → A → Result E (List B)
  push_with stack x = f x >>= λ y. ok (y ∷ stack)

  abbrev pub push_all : List B → List A → Result E (List B)
  push_all = try_fold push_with

  pushed :
      (stack : List B) (x : A) {t : List B}
      → push_with stack x ≡ ok t
      → (y : B) × (f x ≡ ok y) × (y ∷ stack ≡ t)
  pushed stack x h = let (y, e, q) = >>=-eq-ok (f x) (λ y. ok (y ∷ stack)) h in (y, e, ground arith)

  pub push_all-inv {ν} :
      (P : List B → Type ν) (stack : List B) (xs : List A) {t : List B}
      → push_all stack xs ≡ ok t
      → ((x : A) (y : B) (s : List B) → Memᴰ x xs → f x ≡ ok y → P s → P (y ∷ s))
      → P stack
      → P t
  push_all-inv P stack [] h step p = subst P (ground arith) p
  push_all-inv P stack (x ∷ xs) h step p =
      let (s, first, rest) = >>=-eq-ok (push_with stack x) (λ s. push_all s xs) h in
      let (y, e, q) = pushed stack x first in
      push_all-inv P s xs rest (λ z w u m. step z w u (Memᴰ.tail m))
        (subst P q (step x y stack (Memᴰ.head refl) e p))

  pub push_all-All {ν} :
      (P : B → Type ν) (stack : List B) (xs : List A) {t : List B}
      → push_all stack xs ≡ ok t
      → All P t
      → All P stack × All (λ x. (y : B) × (f x ≡ ok y) × P y) xs
  push_all-All P stack [] h p = (subst (All P) (ground arith) p, tt)
  push_all-All P stack (x ∷ xs) h p =
      let (s, first, rest) = >>=-eq-ok (push_with stack x) (λ s. push_all s xs) h in
      let (y, e, q) = pushed stack x first in
      let (below, later) = push_all-All P s xs rest p in
      let both : All P (y ∷ stack) = subst⁻¹ (All P) q below in (both.1, ((y, e, both.0), later))

  pub push_all-fails :
      (stack : List B) (xs : List A) {e : E}
      → push_all stack xs ≡ err e
      → (x : A) × Memᴰ x xs × (f x ≡ err e)
  push_all-fails stack [] h = cc
  push_all-fails stack (x ∷ xs) h = elim (Result-cases (f x)) [
    | inl (y, q) ↦ let (z, m, e) = push_all-fails (y ∷ stack) xs (rw q at h) in (z, Memᴰ.tail m, e)
    | inr (e, q) ↦ (x, Memᴰ.head refl, ground arith)
  ]
