-- ===== src/Prelude/Only.antt =====
-- An element that is the only one of its list with a property.

use mathlib.Core.Path.{◌≡◌, refl, sym, ap, ◌∙◌, subst}
use mathlib.Core.Logic.{◌↔◌, ◌≢◌, inl, inr}
use mathlib.Core.Bool.{Bool, true, false}
use mathlib.Core.List.Memᴰ
use mathlib.Core.List.{List, [], ◌∷◌, ◌++◌, Memᴰ}
use native.Mathlib.Omega.{arith}
use nexus_sdk.Prelude.Tests.{Bool-cases}
use nexus_sdk.Prelude.Lists.{All, filter}

module _ {ℓ} {A : Type ℓ} where
  -- The element stands at one position, and no element at another position has the property.
  pub record IsOnly (p : A → Bool) (x : A) (xs : List A) : Type ℓ where
    pub before : List A
    pub after : List A
    pub split : xs ≡ before ++ x ∷ after
    pub none_before : All (λ y. p y ≡ false) before
    pub holds : p x ≡ true
    pub none_after : All (λ y. p y ≡ false) after

  filter-take :
      (p : A → Bool) (y : A) (ys : List A) → p y ≡ true → filter p (y ∷ ys) ≡ y ∷ filter p ys
  filter-take p y ys h = rw h refl

  filter-drop : (p : A → Bool) (y : A) (ys : List A) → p y ≡ false → filter p (y ∷ ys) ≡ filter p ys
  filter-drop p y ys h = rw h refl

  tails : {x y : A} {xs ys : List A} → x ∷ xs ≡ y ∷ ys → (x ≡ y) × (xs ≡ ys)
  tails h = (ground arith, ground arith)

  cons-ne : {x : A} {xs : List A} → x ∷ xs ≢ []
  cons-ne h = cc

  filter-none : (p : A → Bool) (xs : List A) → All (λ y. p y ≡ false) xs → filter p xs ≡ []
  filter-none p [] h = refl
  filter-none p (y ∷ ys) h = rw h.0 (filter-none p ys h.1)

  none_of_filter : (p : A → Bool) (xs : List A) → filter p xs ≡ [] → All (λ y. p y ≡ false) xs
  none_of_filter p [] h = tt
  none_of_filter p (y ∷ ys) h = elim (Bool-cases (p y)) [
    | inl keep ↦ elim (cons-ne (sym (filter-take p y ys keep) ∙ h)) [ ]
    | inr skip ↦ (skip, none_of_filter p ys (sym (filter-drop p y ys skip) ∙ h))
  ]

  filter-IsOnly : (p : A → Bool) (x : A) (xs : List A) → IsOnly p x xs → filter p xs ≡ x ∷ []
  filter-IsOnly p x xs h = rw h.split (go h.before h.none_before)
    where
      go :
          (before : List A)
          → All (λ y. p y ≡ false) before
          → filter p (before ++ x ∷ h.after) ≡ x ∷ []
      go [] n = rw h.holds (ap (λ ys. x ∷ ys) (filter-none p h.after h.none_after))
      go (y ∷ ys) n = rw n.0 (go ys n.1)

  IsOnly-of_filter : (p : A → Bool) (x : A) (xs : List A) → filter p xs ≡ x ∷ [] → IsOnly p x xs
  IsOnly-of_filter p x [] h = elim (cons-ne (sym h)) [ ]
  IsOnly-of_filter p x (y ∷ ys) h = elim (Bool-cases (p y)) [
    | inl keep ↦
        let (same, rest) = tails (sym (filter-take p y ys keep) ∙ h) in
        record {
          before = [];
          after = ys;
          split = ap (λ z. z ∷ ys) same;
          none_before = tt;
          holds = subst (λ z. p z ≡ true) same keep;
          none_after = none_of_filter p ys rest;
        }
    | inr skip ↦
        let rest = IsOnly-of_filter p x ys (sym (filter-drop p y ys skip) ∙ h) in
        record {
          before = y ∷ rest.before;
          after = rest.after;
          split = ap (λ zs. y ∷ zs) rest.split;
          none_before = (skip, rest.none_before);
          holds = rest.holds;
          none_after = rest.none_after;
        }
  ]

  pub IsOnly-mem : (p : A → Bool) (x : A) (xs : List A) → IsOnly p x xs → Memᴰ x xs
  IsOnly-mem p x xs h = subst (Memᴰ x) (sym h.split) (Memᴰ.append_right h.before (Memᴰ.head refl))

  pub filter_iff : (p : A → Bool) (x : A) (xs : List A) → (filter p xs ≡ x ∷ []) ↔ IsOnly p x xs
  filter_iff p x xs = (IsOnly-of_filter p x xs, filter-IsOnly p x xs)

  pub IsOnly-unique : (p : A → Bool) (x y : A) (xs : List A) → IsOnly p x xs → IsOnly p y xs → x ≡ y
  IsOnly-unique p x y xs h k = (tails (sym (filter-IsOnly p x xs h) ∙ filter-IsOnly p y xs k)).0
