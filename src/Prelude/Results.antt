-- ===== src/Prelude/Results.antt =====
-- Rust's `Result`: a chain of fallible steps is a do block, `guard` is `if … { return Err(…) }`, and
-- `try_all` is a loop whose body may return an error.
use mathlib.Core.Path.{◌≡◌, refl, subst}
use mathlib.Core.Logic.{◌⊎◌, inl, inr, ◌↔◌}
use mathlib.Core.Bool.{Bool, true, false}
use mathlib.Core.Option.{Option, none, some}
use mathlib.Core.List.{List, [], ◌∷◌}
use native.Mathlib.Omega.{arith}
use nexus_sdk.Prelude.Lists.{All}

pub data Result {ℓ κ} (E : Type ℓ) (A : Type κ) : Type (ℓ ⊔ κ) where
  ok : A → Result E A
  err : E → Result E A

pub Result-cases {ℓ κ} :
    {E : Type ℓ} {A : Type κ} (r : Result E A) → ((a : A) × (r ≡ ok a)) ⊎ ((e : E) × (r ≡ err e))
Result-cases (ok a) = inl (a, refl)
Result-cases (err e) = inr (e, refl)

pub some_injective {ℓ} : {A : Type ℓ} {a b : A} → Path (Option A) (some a) (some b) → a ≡ b
some_injective h = ground arith

pub none-ne-some {ℓ} : {A : Type ℓ} {a : A} → ¬ Path (Option A) none (some a)
none-ne-some h = cc

module _ {ℓ} {E : Type ℓ} where
  infixl 5 ◌>>=◌ ◌>>◌
  abbrev pub ◌>>=◌ {κ μ} : {T : Type κ} {U : Type μ} → Result E T → (T → Result E U) → Result E U
  ok t >>= step = step t
  err e >>= step = err e

  -- `o.ok_or(e)`.
  abbrev pub ok_or {κ} : {T : Type κ} → Option T → E → Result E T
  ok_or (some t) e = ok t
  ok_or none e = err e

  -- Fails with `e` if the condition holds.
  abbrev pub bail_if : Bool → E → Result E (Unit {0})
  bail_if false e = ok tt
  bail_if true e = err e

  abbrev pub ◌>>◌ {κ} : {U : Type κ} → Result E (Unit {0}) → Result E U → Result E U
  m >> k = m >>= λ _. k

  pub >>=-eq-ok {κ μ} :
      {T : Type κ} {U : Type μ} (m : Result E T) (step : T → Result E U) {u : U}
      → (m >>= step) ≡ ok u
      → (t : T) × (m ≡ ok t) × (step t ≡ ok u)
  >>=-eq-ok (err _) step eq = cc
  >>=-eq-ok (ok t) step eq = (t, refl, eq)

  pub >>=-of_ok {κ μ} :
      {T : Type κ} {U : Type μ} (m : Result E T) (step : T → Result E U) {t : T} {r : Result E U}
      → m ≡ ok t
      → step t ≡ r
      → (m >>= step) ≡ r
  >>=-of_ok m step first rest = rw first rest

  pub ok_or-eq-ok {κ} : {A : Type κ} (o : Option A) (e : E) {a : A} → ok_or o e ≡ ok a → o ≡ some a
  ok_or-eq-ok o e h = ground arith

  abbrev pub try_all {κ} : {A : Type κ} → (A → Result E (Unit {0})) → List A → Result E (Unit {0})
  try_all f [] = ok tt
  try_all f (x ∷ xs) = f x >>= λ _. try_all f xs

  pub try_all-All {κ} :
      {A : Type κ} (f : A → Result E (Unit {0})) (xs : List A)
      → try_all f xs ≡ ok tt
      → All (λ x. f x ≡ ok tt) xs
  try_all-All f [] h = tt
  try_all-All f (x ∷ xs) h =
      let (_, first, rest) = >>=-eq-ok (f x) (λ _. try_all f xs) h in (first, try_all-All f xs rest)

  pub All-try_all {κ} :
      {A : Type κ} (f : A → Result E (Unit {0})) (xs : List A)
      → All (λ x. f x ≡ ok tt) xs
      → try_all f xs ≡ ok tt
  All-try_all f [] h = refl
  All-try_all f (x ∷ xs) h = rw h.0 (All-try_all f xs h.1)

  pub ok_injective {κ} : {A : Type κ} {a b : A} → Path (Result E A) (ok a) (ok b) → a ≡ b
  ok_injective h = ground arith

  -- A loop that carries a state and may return an error.
  abbrev pub try_fold {κ μ} :
      {S : Type κ} {A : Type μ} → (S → A → Result E S) → S → List A → Result E S
  try_fold f s [] = ok s
  try_fold f s (x ∷ xs) = f s x >>= λ s'. try_fold f s' xs

  -- What every step keeps, the loop keeps.
  pub try_fold_inv {κ μ ν} :
      {S : Type κ} {A : Type μ} (P : S → Type ν) (f : S → A → Result E S)
      → ((s s' : S) (x : A) → P s → f s x ≡ ok s' → P s')
      → (s s' : S) (xs : List A) → P s
      → try_fold f s xs ≡ ok s'
      → P s'
  try_fold_inv P f keep s s' [] p h = subst P (ground arith) p
  try_fold_inv P f keep s s' (x ∷ xs) p h =
      let (t, first, rest) = >>=-eq-ok (f s x) (λ t. try_fold f t xs) h in
      try_fold_inv P f keep t s' xs (keep s t x p first) rest

  -- Every step of a loop that ends well went well.
  pub try_fold-All {κ μ} :
      {S : Type κ} {A : Type μ} (f : S → A → Result E S) (s : S) (xs : List A) {s' : S}
      → try_fold f s xs ≡ ok s'
      → All (λ x. (t : S) × (u : S) × (f t x ≡ ok u)) xs
  try_fold-All f s [] h = tt
  try_fold-All f s (x ∷ xs) h =
      let (t, first, rest) = >>=-eq-ok (f s x) (λ t. try_fold f t xs) h in
      ((s, t, first), try_fold-All f t xs rest)

  pub bail_if-eq-ok : (b : Bool) (e : E) → bail_if b e ≡ ok tt → b ≡ false
  bail_if-eq-ok b e h = ground arith

  pub bail_if_iff : (b : Bool) (e : E) → (bail_if b e ≡ ok tt) ↔ (b ≡ false)
  bail_if_iff b e = ground arith

  pub try_all_iff {κ} :
      {A : Type κ} (f : A → Result E (Unit {0})) (xs : List A)
      → (try_all f xs ≡ ok tt) ↔ All (λ x. f x ≡ ok tt) xs
  try_all_iff f xs = (try_all-All f xs, All-try_all f xs)
