-- ===== src/Prelude/Perms.antt =====
-- What rearranging a list keeps.
use mathlib.Core.Path.{◌≡◌, refl, sym, ap, ◌∙◌, subst}
use mathlib.Core.Logic.{◌↔◌}
use mathlib.Core.List.{List, [], ◌∷◌, ◌++◌, Memᴰ, Permᴰ}
use mathlib.Core.List.Permᴰ
use nexus_sdk.Prelude.Distinct.{IsDistinct}

module _ {ℓ} {A : Type ℓ} where
  pub mem-Perm : {xs ys : List A} → Permᴰ xs ys → {a : A} → Memᴰ a xs → Memᴰ a ys
  mem-Perm Permᴰ.nil m = elim m [ ]
  mem-Perm (Permᴰ.cons e p) (Memᴰ.head h) = Memᴰ.head (h ∙ e)
  mem-Perm (Permᴰ.cons e p) (Memᴰ.tail m) = Memᴰ.tail (mem-Perm p m)
  mem-Perm (Permᴰ.swap e f) (Memᴰ.head h) = Memᴰ.tail (Memᴰ.head (h ∙ e))
  mem-Perm (Permᴰ.swap e f) (Memᴰ.tail (Memᴰ.head h)) = Memᴰ.head (h ∙ f)
  mem-Perm (Permᴰ.swap e f) (Memᴰ.tail (Memᴰ.tail m)) = Memᴰ.tail (Memᴰ.tail m)
  mem-Perm (Permᴰ.trans p q) m = mem-Perm q (mem-Perm p m)

  not-mem_cons : {x y : A} {ys : List A} → (¬ (x ≡ y)) → (¬ Memᴰ x ys) → ¬ Memᴰ x (y ∷ ys)
  not-mem_cons h t (Memᴰ.head e) = h e
  not-mem_cons h t (Memᴰ.tail m) = t m

  pub IsDistinct-Perm : {xs ys : List A} → Permᴰ xs ys → IsDistinct xs → IsDistinct ys
  IsDistinct-Perm Permᴰ.nil d = tt
  IsDistinct-Perm (Permᴰ.cons {a} {b} {l₁} {l₂} e p) d = (
    (λ m. d.0 (subst (λ x. Memᴰ x l₁) (sym e) (mem-Perm (Permᴰ.symm p) m))),
    IsDistinct-Perm p d.1,
  )
  IsDistinct-Perm (Permᴰ.swap {a} {b} {a'} {b'} {l} e f) d = (
    not-mem_cons (λ h. d.0 (Memᴰ.head (e ∙ sym h ∙ sym f)))
        (λ m. d.1.0 (subst (λ x. Memᴰ x l) (sym f) m)),
    ((λ m. d.0 (Memᴰ.tail (subst (λ x. Memᴰ x l) (sym e) m))), d.1.1),
  )
  IsDistinct-Perm (Permᴰ.trans p q) d = IsDistinct-Perm q (IsDistinct-Perm p d)

  pub mem-split :
      {x : A} {ys : List A}
      → Memᴰ x ys
      → (before : List A) × (after : List A) × (ys ≡ before ++ x ∷ after)
  mem-split (Memᴰ.head {x} {xs} e) = ([], xs, ap (λ z. z ∷ xs) (sym e))
  mem-split (Memᴰ.tail {x} {xs} m) =
      let (before, after, split) = mem-split m in (x ∷ before, after, ap (λ zs. x ∷ zs) split)

  mem_apart : {a x : A} {ys : List A} → (¬ (a ≡ x)) → Memᴰ a (x ∷ ys) → Memᴰ a ys
  mem_apart other (Memᴰ.head e) = absurd (other e)
  mem_apart other (Memᴰ.tail m) = m

  -- Lists without repetitions that have the same elements.
  pub same_members-Perm :
      (xs ys : List A)
      → IsDistinct xs
      → IsDistinct ys
      → ((a : A) → Memᴰ a xs ↔ Memᴰ a ys)
      → Permᴰ xs ys
  same_members-Perm [] [] d e h = Permᴰ.nil
  same_members-Perm [] (y ∷ ys) d e h = elim ((h y).1 (Memᴰ.head refl)) [ ]
  same_members-Perm (x ∷ xs) ys d e h =
      let (before, after, split) = mem-split ((h x).0 (Memᴰ.head refl)) in
      let p : Permᴰ ys (x ∷ (before ++ after)) =
        subst (λ zs. Permᴰ zs (x ∷ (before ++ after))) (sym split) (Permᴰ.middle x before after) in
      let apart = IsDistinct-Perm p e in
      let rest : (a : A) → Memᴰ a xs ↔ Memᴰ a (before ++ after) = λ a. (
        λ m.
            mem_apart (λ same. d.0 (subst (λ z. Memᴰ z xs) same m))
              (mem-Perm p ((h a).0 (Memᴰ.tail m))),
        λ m.
            mem_apart (λ same. apart.0 (subst (λ z. Memᴰ z (before ++ after)) same m))
              ((h a).1 (mem-Perm (Permᴰ.symm p) (Memᴰ.tail m))),
      ) in
      Permᴰ.trans (Permᴰ.cons refl (same_members-Perm xs (before ++ after) d.1 apart.1 rest))
        (Permᴰ.symm p)
