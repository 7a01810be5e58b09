-- ===== src/Prelude/Order.antt =====
-- Total orders as an interface, on numbers, lists and pairs.
use mathlib.Core.Path.{◌≡◌, refl}
use mathlib.Core.Bool.{Bool, true, false, ◌&&◌, ◌||◌, not}
use mathlib.Core.List.{List, [], ◌∷◌}
use native.Mathlib.Omega.{arith}
use Prim.Native.Nat.{ℕ}
use nexus_sdk.Prelude.Tests.{leb}

-- `Ord`: its `<=`.
pub record Order {ℓ} (A : Type ℓ) : Type ℓ where
  pub leq : A → A → Bool
  pub total : (a b : A) → leq a b ≡ false → leq b a ≡ true
  pub antisym : (a b : A) → leq a b ≡ true → leq b a ≡ true → a ≡ b
  pub trans : (a b c : A) → leq a b ≡ true → leq b c ≡ true → leq a c ≡ true

pub leb_total : (a b : ℕ) → leb a b ≡ false → leb b a ≡ true
leb_total a b h = ground arith

pub leb_antisym : (a b : ℕ) → leb a b ≡ true → leb b a ≡ true → a ≡ b
leb_antisym a b h k = ground arith

pub leb_trans : (a b c : ℕ) → leb a b ≡ true → leb b c ≡ true → leb a c ≡ true
leb_trans a b c h k = ground arith

abbrev pub ℕ_order : Order ℕ
ℕ_order = record { leq = leb; total = leb_total; antisym = leb_antisym; trans = leb_trans }

module _ {ℓ} {A : Type ℓ} (o : Order A) where
  -- Bytewise comparison: a proper prefix comes first.
  abbrev pub lex_leq : List A → List A → Bool
  lex_leq [] ys = true
  lex_leq (x ∷ xs) [] = false
  lex_leq (x ∷ xs) (y ∷ ys) = o.leq x y && (not (o.leq y x) || lex_leq xs ys)

  pub lex_total : (xs ys : List A) → lex_leq xs ys ≡ false → lex_leq ys xs ≡ true
  lex_total [] ys h = ground arith
  lex_total (x ∷ xs) [] h = refl
  lex_total (x ∷ xs) (y ∷ ys) h = ground (arith, o.total x y, lex_total xs ys)

  pub lex_antisym : (xs ys : List A) → lex_leq xs ys ≡ true → lex_leq ys xs ≡ true → xs ≡ ys
  lex_antisym [] [] h k = refl
  lex_antisym [] (y ∷ ys) h k = ground arith
  lex_antisym (x ∷ xs) [] h k = ground arith
  lex_antisym (x ∷ xs) (y ∷ ys) h k = ground (arith, o.antisym x y, lex_antisym xs ys)

  pub lex_trans :
      (xs ys zs : List A) → lex_leq xs ys ≡ true → lex_leq ys zs ≡ true → lex_leq xs zs ≡ true
  lex_trans [] ys zs h k = refl
  lex_trans (x ∷ xs) [] zs h k = ground arith
  lex_trans (x ∷ xs) (y ∷ ys) [] h k = ground arith
  lex_trans (x ∷ xs) (y ∷ ys) (z ∷ zs) h k = ground (
    arith,
    o.trans x y z,
    o.trans y z x,
    o.trans z x y,
    o.antisym x y,
    o.antisym y z,
    lex_trans xs ys zs,
  )

  abbrev pub lex_order : Order (List A)
  lex_order = record { leq = lex_leq; total = lex_total; antisym = lex_antisym; trans = lex_trans }

module _ {ℓ κ} {A : Type ℓ} {B : Type κ} (o : Order A) (p : Order B) where
  abbrev pub pair_leq : A × B → A × B → Bool
  pair_leq (a, b) (c, d) = o.leq a c && (not (o.leq c a) || p.leq b d)

  pub pair_total : (x y : A × B) → pair_leq x y ≡ false → pair_leq y x ≡ true
  pair_total (a, b) (c, d) h = ground (arith, o.total a c, p.total b d)

  pub pair_antisym : (x y : A × B) → pair_leq x y ≡ true → pair_leq y x ≡ true → x ≡ y
  pair_antisym (a, b) (c, d) h k = ground (arith, o.antisym a c, p.antisym b d)

  pub pair_trans : (x y z : A × B) → pair_leq x y ≡ true → pair_leq y z ≡ true → pair_leq x z ≡ true
  pair_trans (a, b) (c, d) (e, f) h k =
      ground (arith, o.trans a c e, o.trans c e a, o.trans e a c, p.trans b d f)

  abbrev pub pair_order : Order (A × B)
  pair_order = record {
    leq = pair_leq;
    total = pair_total;
    antisym = pair_antisym;
    trans = pair_trans;
  }
