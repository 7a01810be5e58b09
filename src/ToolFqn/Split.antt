-- ===== src/ToolFqn/Split.antt =====
-- Texts that are split and joined.
use mathlib.Core.List.{append_assoc}
use nexus_sdk.Prelude.{
  ℕ, ◌≡◌, refl, sym, ap, ◌∙◌, Bool, true, false, not, some, List, [], ◌∷◌, ◌++◌, all, all-append,
  arith, ◌==◌, ==_refl, nat_eq, Bool-cases, inl, inr,
}
use nexus_sdk.ToolFqn.{split_once, split_on, join, split_last}

-- A text without c.
abbrev pub is_free : ℕ → List ℕ → Bool
is_free c cs = all (λ d. not (d == c)) cs

pub split_once-append :
    (c : ℕ) (before after : List ℕ)
    → is_free c before ≡ true
    → split_once c (before ++ c ∷ after) ≡ some (before, after)
split_once-append c [] after h = rw (==_refl c) refl
split_once-append c (d ∷ before) after h = elim (Bool-cases (d == c)) [
  | inl same ↦ absurd (ground (arith, same))
  | inr other ↦ rw other (rw (split_once-append c before after (ground (arith, other))) refl)
]

split_on_free : (c : ℕ) (cs : List ℕ) → is_free c cs ≡ true → split_on c cs ≡ cs ∷ []
split_on_free c [] h = refl
split_on_free c (d ∷ cs) h = elim (Bool-cases (d == c)) [
  | inl same ↦ absurd (ground (arith, same))
  | inr other ↦ rw other (rw (split_on_free c cs (ground (arith, other))) refl)
]

split_on-append :
    (c : ℕ) (cs ds : List ℕ) → is_free c cs ≡ true → split_on c (cs ++ c ∷ ds) ≡ cs ∷ split_on c ds
split_on-append c [] ds h = rw (==_refl c) refl
split_on-append c (d ∷ cs) ds h = elim (Bool-cases (d == c)) [
  | inl same ↦ absurd (ground (arith, same))
  | inr other ↦ rw other (rw (split_on-append c cs ds (ground (arith, other))) refl)
]

pub split_on-join :
    (c : ℕ) (part : List ℕ) (parts : List (List ℕ))
    → all (is_free c) (part ∷ parts) ≡ true
    → split_on c (join c (part ∷ parts)) ≡ part ∷ parts
split_on-join c part [] h = split_on_free c part (ground arith)
split_on-join c part (next ∷ parts) h =
    split_on-append c part (join c (next ∷ parts)) (ground arith)
    ∙ ap (λ l. part ∷ l) (split_on-join c next parts (ground arith))

pub free-join :
    (c d : ℕ) (parts : List (List ℕ))
    → all (is_free c) parts ≡ true
    → (d == c) ≡ false
    → is_free c (join d parts) ≡ true
free-join c d [] h other = refl
free-join c d (part ∷ []) h other = ground arith
free-join c d (part ∷ next ∷ parts) h other =
    all-append (λ e. not (e == c)) part (d ∷ join d (next ∷ parts))
    ∙ ground (arith, other, free-join c d (next ∷ parts))

pub split_last-append :
    (init : List (List ℕ)) (last : List ℕ) → split_last (init ++ last ∷ []) ≡ some (init, last)
split_last-append [] last = refl
split_last-append (part ∷ init) last = rw (split_last-append init last) refl

pub join-append :
    (c : ℕ) (part : List ℕ) (parts : List (List ℕ)) (last : List ℕ)
    → join c (part ∷ parts ++ last ∷ []) ≡ join c (part ∷ parts) ++ c ∷ last
join-append c part [] last = refl
join-append c part (next ∷ parts) last =
    ap (λ l. part ++ c ∷ l) (join-append c next parts last)
    ∙ sym (append_assoc part (c ∷ join c (next ∷ parts)) (c ∷ last))
