-- ===== src/Prelude/Distinct.antt =====
-- Lists without repetitions, and sets that a loop fills.
use mathlib.Core.Path.{◌≡◌, refl, sym}
use mathlib.Core.List.{List, [], ◌∷◌, ◌++◌, Memᴰ}
use nexus_sdk.Prelude.Lists.{All}

module _ {ℓ} {A : Type ℓ} where
  abbrev pub IsDistinct : List A → Type ℓ
  IsDistinct [] = Unit
  IsDistinct (x ∷ xs) = (¬ Memᴰ x xs) × IsDistinct xs

  -- The set after the elements of the second list were put in, one by one.
  abbrev pub add_all : List A → List A → List A
  add_all seen [] = seen
  add_all seen (x ∷ xs) = add_all (x ∷ seen) xs

  pub add_all-append :
      (seen xs ys : List A) → add_all seen (xs ++ ys) ≡ add_all (add_all seen xs) ys
  add_all-append seen [] ys = refl
  add_all-append seen (x ∷ xs) ys = add_all-append (x ∷ seen) xs ys

  pub mem_seen : (seen xs : List A) {a : A} → Memᴰ a seen → Memᴰ a (add_all seen xs)
  mem_seen seen [] m = m
  mem_seen seen (x ∷ xs) m = mem_seen (x ∷ seen) xs (Memᴰ.tail m)

  pub mem-add_all : (seen xs : List A) {a : A} → Memᴰ a xs → Memᴰ a (add_all seen xs)
  mem-add_all seen [] m = elim m [ ]
  mem-add_all seen (x ∷ xs) (Memᴰ.head e) = mem_seen (x ∷ seen) xs (Memᴰ.head e)
  mem-add_all seen (x ∷ xs) (Memᴰ.tail m) = mem-add_all (x ∷ seen) xs m

  not-mem_of_All : (x : A) (xs seen : List A) → All (λ y. ¬ Memᴰ y (x ∷ seen)) xs → ¬ Memᴰ x xs
  not-mem_of_All x [] seen h m = elim m [ ]
  not-mem_of_All x (y ∷ xs) seen h (Memᴰ.head e) = h.0 (Memᴰ.head (sym e))
  not-mem_of_All x (y ∷ xs) seen h (Memᴰ.tail m) = not-mem_of_All x xs seen h.1 m

  fresh_below :
      (x : A) (xs seen : List A) → All (λ y. ¬ Memᴰ y (x ∷ seen)) xs → All (λ y. ¬ Memᴰ y seen) xs
  fresh_below x [] seen h = tt
  fresh_below x (y ∷ xs) seen h = (λ m. h.0 (Memᴰ.tail m), fresh_below x xs seen h.1)

  -- A set without repetitions was filled by distinct elements that were not in it.
  pub IsDistinct-add_all :
      (seen xs : List A)
      → IsDistinct (add_all seen xs)
      → IsDistinct seen × IsDistinct xs × All (λ x. ¬ Memᴰ x seen) xs
  IsDistinct-add_all seen [] d = (d, tt, tt)
  IsDistinct-add_all seen (x ∷ xs) d =
      let (both, later, fresh) = IsDistinct-add_all (x ∷ seen) xs d in
      (both.1, (not-mem_of_All x xs seen fresh, later), (both.0, fresh_below x xs seen fresh))
