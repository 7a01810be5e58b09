-- ===== src/Prelude/Decimal.antt =====
-- The decimal text of a u64 or a u32: `to_string` and `from_str` of the standard library.
use Prim.Native.Nat.{ℕ, suc, ◌+◌, ◌-◌, ◌*◌, ◌/◌, ◌%◌, ◌^◌, ◌<◌}
use mathlib.Core.Path.{◌≡◌, refl, sym, ap, ◌∙◌}
use mathlib.Core.Logic.{inl, inr}
use mathlib.Core.Bool.{Bool, true, false, ◌&&◌}
use mathlib.Core.Option.{Option, none, some}
use mathlib.Core.List.{List, [], ◌∷◌, ◌++◌}
use native.Mathlib.Omega.{arith}
use nexus_sdk.Prelude.Tests.{leb, ltb, ltb→lt, if◌then◌else◌, Bool-cases}
use nexus_sdk.Prelude.Equality.{◌==◌, nat_eq}
use nexus_sdk.Prelude.Lists.{all, all-append, all-head}
use nexus_sdk.Prelude.Machine.{fitting}

-- The digits of n, which has at most so many.
abbrev digits : ℕ → ℕ → List ℕ
digits ℕ.zero n = (48 + n % 10) ∷ []
digits (suc fuel) n =
    let rest = digits fuel (n / 10) in
    if ltb n 10 then (48 + n) ∷ [] else rest ++ (48 + n % 10) ∷ []

-- An integer of at most 64 bits has at most twenty digits.
unfoldable pub print_uint : ℕ → List ℕ
print_uint n = digits 19 n

-- One digit more, with the checks for a digit and for an overflow.
abbrev add_digit : ℕ → Option ℕ → ℕ → Option ℕ
add_digit w none c = none
add_digit w (some n) c = if leb 48 c && leb c 57 then fitting w (n * 10 + (c - 48)) else none

abbrev read_digits : ℕ → Option ℕ → List ℕ → Option ℕ
read_digits w n [] = n
read_digits w n (c ∷ cs) = read_digits w (add_digit w n c) cs

-- The digits after a sign, of which there is at least one.
abbrev read_number : ℕ → List ℕ → Option ℕ
read_number w [] = none
read_number w (c ∷ cs) = read_digits w (some 0) (c ∷ cs)

-- For an integer of w bits; a leading `+` is allowed.
unfoldable pub parse_uint : ℕ → List ℕ → Option ℕ
parse_uint w [] = none
parse_uint w (c ∷ cs) = if c == 43 then read_number w cs else read_digits w (some 0) (c ∷ cs)

read_digits-append :
    (w : ℕ) (n : Option ℕ) (cs ds : List ℕ)
    → read_digits w n (cs ++ ds) ≡ read_digits w (read_digits w n cs) ds
read_digits-append w n [] ds = refl
read_digits-append w n (c ∷ cs) ds = read_digits-append w (add_digit w n c) cs ds

add_digit-some :
    (w n d : ℕ) → d < 10 → n * 10 + d < 2 ^ w → add_digit w (some n) (48 + d) ≡ some (n * 10 + d)
add_digit-some w n d h k = ground arith

-- Ten to the number of digits.
abbrev limit : ℕ → ℕ
limit ℕ.zero = 10
limit (suc fuel) = limit fuel * 10

tenth : (fuel n : ℕ) → n < limit (suc fuel) → n / 10 < limit fuel
tenth fuel n h = omega arith

read_digits-digits :
    (w fuel n : ℕ) → n < 2 ^ w → n < limit fuel → read_digits w (some 0) (digits fuel n) ≡ some n
read_digits-digits w ℕ.zero n h k = ground arith
read_digits-digits w (suc fuel) n h k = elim (Bool-cases (ltb n 10)) [
  | inl small ↦ let lt = ltb→lt n 10 small in rw small (ground arith)
  | inr large ↦ rw large (
      read_digits-append w (some 0) (digits fuel (n / 10)) ((48 + n % 10) ∷ [])
      ∙ ap (λ m. read_digits w m ((48 + n % 10) ∷ []))
          (read_digits-digits w fuel (n / 10) (omega arith) (tenth fuel n k))
      ∙ add_digit-some w (n / 10) (n % 10) (omega arith) (omega arith)
      ∙ ap some (omega arith))
]

-- The text of a number is not empty, and all digits.
abbrev pub is_digit : ℕ → Bool
is_digit c = leb 48 c && leb c 57

digit_valid : (d : ℕ) → d < 10 → is_digit (48 + d) ≡ true
digit_valid d h = ground arith

all-digits : (fuel n : ℕ) → all is_digit (digits fuel n) ≡ true
all-digits ℕ.zero n = rw (digit_valid (n % 10) (omega arith)) refl
all-digits (suc fuel) n = elim (Bool-cases (ltb n 10)) [
  | inl small ↦ rw small (rw (digit_valid n (ltb→lt n 10 small)) refl)
  | inr large ↦ rw large (
      all-append is_digit (digits fuel (n / 10)) ((48 + n % 10) ∷ [])
      ∙ rw (all-digits fuel (n / 10)) (rw (digit_valid (n % 10) (omega arith)) refl))
]

digits-first : (fuel n : ℕ) → (c : ℕ) × (cs : List ℕ) × (digits fuel n ≡ c ∷ cs)
digits-first ℕ.zero n = (48 + n % 10, [], refl)
digits-first (suc fuel) n = elim (Bool-cases (ltb n 10)) [
  | inl small ↦ (48 + n, [], rw small refl)
  | inr large ↦
      let (c, cs, is) = digits-first fuel (n / 10) in
      (c, cs ++ (48 + n % 10) ∷ [], rw large (rw is refl))
]

pub all-print_uint : (n : ℕ) → all is_digit (print_uint n) ≡ true
unfolding print_uint
all-print_uint n = all-digits 19 n

pub print_uint-cons : (n : ℕ) → (c : ℕ) × (cs : List ℕ) × (print_uint n ≡ c ∷ cs)
unfolding print_uint
print_uint-cons n = digits-first 19 n

digit_not_plus : (c : ℕ) → is_digit c ≡ true → (c == 43) ≡ false
digit_not_plus c h = ground arith

parse_first :
    (w : ℕ) (text : List ℕ) (c : ℕ) (cs : List ℕ)
    → text ≡ c ∷ cs
    → all is_digit text ≡ true
    → parse_uint w text ≡ read_digits w (some 0) text
unfolding parse_uint
parse_first w text c cs is h =
    rw is (rw (digit_not_plus c (all-head is_digit c cs (ap (all is_digit) (sym is) ∙ h))) refl)

-- A number of at most 64 bits is read back from its text.
pub parse-print_uint : (w n : ℕ) → n < 2 ^ w → n < 2 ^ 64 → parse_uint w (print_uint n) ≡ some n
unfolding print_uint
parse-print_uint w n h k =
    let (c, cs, is) = digits-first 19 n in
    parse_first w (digits 19 n) c cs is (all-digits 19 n)
    ∙ read_digits-digits w 19 n h (omega arith)

-- A number that is read fits.
add_digit-lt : (w : ℕ) (o : Option ℕ) (c n : ℕ) → add_digit w o c ≡ some n → n < 2 ^ w
add_digit-lt w none c n h = cc
add_digit-lt w (some m) c n h = ground arith

read_digits-lt :
    (w : ℕ) (o : Option ℕ) (cs : List ℕ) (n : ℕ)
    → ((m : ℕ) → o ≡ some m → m < 2 ^ w)
    → read_digits w o cs ≡ some n
    → n < 2 ^ w
read_digits-lt w o [] n fits h = fits n h
read_digits-lt w o (c ∷ cs) n fits h =
    read_digits-lt w (add_digit w o c) cs n (add_digit-lt w o c) h

read_number-lt : (w : ℕ) (cs : List ℕ) (n : ℕ) → 0 < 2 ^ w → read_number w cs ≡ some n → n < 2 ^ w
read_number-lt w [] n pos h = cc
read_number-lt w (c ∷ cs) n pos h = read_digits-lt w (some 0) (c ∷ cs) n (λ m e. ground arith) h

pub parse_uint-lt : (w : ℕ) (cs : List ℕ) (n : ℕ) → 0 < 2 ^ w → parse_uint w cs ≡ some n → n < 2 ^ w
unfolding parse_uint
parse_uint-lt w [] n pos h = cc
parse_uint-lt w (c ∷ cs) n pos h = elim (Bool-cases (c == 43)) [
  | inl plus ↦ read_number-lt w cs n pos (rw plus at h)
  | inr other ↦ read_digits-lt w (some 0) (c ∷ cs) n (λ m e. ground arith) (rw other at h)
]
