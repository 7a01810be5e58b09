-- ===== src/Prelude/Equality.antt =====
-- Decidable equality as an interface, with one operator for every type that has an instance.
use Prim.Native.Nat.{ℕ}
use Prim.Native.String.{String}
use mathlib.Core.Path.{◌≡◌, refl}
use mathlib.Core.Logic.{◌↔◌, ◌≢◌}
use mathlib.Core.Bool.{Bool, true, false, ◌&&◌}
use mathlib.Core.List.{List, [], ◌∷◌}
use native.Mathlib.Omega.{arith}
use text.Mathlib.Text.{◌==◌ as str_eq}
use text.Mathlib.TextEquality.{eq_iff}
use nexus_sdk.Prelude.Tests.{eqb, eqb_iff}

pub record Eq {ℓ} (A : Type ℓ) : Type ℓ where
  pub same : A → A → Bool
  pub same_iff : (a b : A) → (same a b ≡ true) ↔ (a ≡ b)

infix 50 ◌==◌
abbrev pub ◌==◌ {ℓ} : {A : Type ℓ} ⦃e : Eq A⦄ → A → A → Bool
◌==◌ ⦃e⦄ = e.same

module _ {ℓ} {A : Type ℓ} ⦃e : Eq A⦄ where
  pub ==_iff : (a b : A) → ((a == b) ≡ true) ↔ (a ≡ b)
  ==_iff a b = e.same_iff a b

  pub ==_refl : (a : A) → (a == a) ≡ true
  ==_refl a = (e.same_iff a a).1 refl

  pub ==_ne : (a b : A) → a ≢ b → (a == b) ≡ false
  ==_ne a b h = ground (arith, e.same_iff a b)

instance abbrev pub nat_eq : Eq ℕ
nat_eq = record { same = eqb; same_iff = eqb_iff }

instance abbrev pub string_eq : Eq String
string_eq = record { same = str_eq; same_iff = eq_iff }

abbrev pub pair_beq {ℓ κ} : {A : Type ℓ} {B : Type κ} → Eq A → Eq B → A × B → A × B → Bool
pair_beq e f (a, b) (c, d) = e.same a c && f.same b d

pub pair_beq_iff {ℓ κ} :
    {A : Type ℓ} {B : Type κ} (e : Eq A) (f : Eq B) (p q : A × B)
    → (pair_beq e f p q ≡ true) ↔ (p ≡ q)
pair_beq_iff e f (a, b) (c, d) = ground (arith, e.same_iff a c, f.same_iff b d)

instance abbrev pub pair_eq {ℓ κ} : {A : Type ℓ} {B : Type κ} ⦃e : Eq A⦄ ⦃f : Eq B⦄ → Eq (A × B)
pair_eq ⦃e⦄ ⦃f⦄ = record { same = pair_beq e f; same_iff = pair_beq_iff e f }

abbrev pub list_same {ℓ} : {A : Type ℓ} → Eq A → List A → List A → Bool
list_same e [] [] = true
list_same e [] (_ ∷ _) = false
list_same e (_ ∷ _) [] = false
list_same e (x ∷ xs) (y ∷ ys) = e.same x y && list_same e xs ys

pub list_same_iff {ℓ} :
    {A : Type ℓ} (e : Eq A) (xs ys : List A) → (list_same e xs ys ≡ true) ↔ (xs ≡ ys)
list_same_iff e [] [] = ground arith
list_same_iff e [] (y ∷ ys) = ground arith
list_same_iff e (x ∷ xs) [] = ground arith
list_same_iff e (x ∷ xs) (y ∷ ys) = ground (arith, e.same_iff x y, list_same_iff e xs ys)

instance abbrev pub list_eq {ℓ} : {A : Type ℓ} ⦃e : Eq A⦄ → Eq (List A)
list_eq ⦃e⦄ = record { same = list_same e; same_iff = list_same_iff e }
