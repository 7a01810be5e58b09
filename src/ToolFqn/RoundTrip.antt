-- ===== src/ToolFqn/RoundTrip.antt =====
-- The names that can be read, and the round trip of printing and reading.
use mathlib.Core.Path.{subst}
use mathlib.Core.List.{append_assoc}
use nexus_sdk.Prelude.{
  ℕ, ◌<◌, ◌^◌, ◌≡◌, refl, sym, ap, ◌∙◌, ◌↔◌, Bool, true, false, not, List, [], ◌∷◌, ◌++◌, all,
  all-append, arith, ok, bail_if, bail_if_iff, ok_or, ok_or-eq-ok, >>=-eq-ok, ok_injective, ◌==◌,
  ==_ne, nat_eq,
}
use nexus_sdk.Prelude.Decimal.{
  print_uint, parse_uint, is_digit, all-print_uint, print_uint-cons, parse-print_uint,
  parse_uint-lt,
}
use nexus_sdk.ToolFqn.{
  ToolFqn, FqnError, invalid_format, version_too_large, version_zero, dot, at, is_part_char,
  is_part, split_once, split_on, join, split_last, is_domain, is_version, captures, from_str,
  to_string,
}
use nexus_sdk.ToolFqn.Split.{
  is_free, split_once-append, split_on-join, free-join, split_last-append, join-append,
}

-- The domain has two parts or more, the parts and the name have the form of parts, and the version is a positive u32.
pub record IsValid (fqn : ToolFqn) : Type 0 where
  pub parts : List (List ℕ)
  pub domain_parts : fqn.domain ≡ join dot parts
  pub domain_valid : is_domain parts ≡ true
  pub name_valid : is_part fqn.name ≡ true
  pub version_positive : 0 < fqn.version
  pub version_bound : fqn.version < 2 ^ 32

not-eq-false : (b : Bool) → not b ≡ false → b ≡ true
not-eq-false b h = ground arith

checked : (e : FqnError) (b : Bool) → bail_if (not b) e ≡ ok tt → b ≡ true
checked e b h = not-eq-false b ((bail_if_iff (not b) e).0 h)

char_free : (c : ℕ) → is_part_char c ≡ true → (not (c == dot) ≡ true) × (not (c == at) ≡ true)
char_free c h = ground arith

chars_free :
    (cs : List ℕ) → all is_part_char cs ≡ true → (is_free dot cs ≡ true) × (is_free at cs ≡ true)
chars_free [] h = (refl, refl)
chars_free (c ∷ cs) h = ground (arith, char_free c, chars_free cs)

part_free :
    (part : List ℕ) → is_part part ≡ true → (is_free dot part ≡ true) × (is_free at part ≡ true)
part_free [] h = cc
part_free (c ∷ cs) h = chars_free (c ∷ cs) (ground arith)

parts_free :
    (parts : List (List ℕ))
    → all is_part parts ≡ true
    → (all (is_free dot) parts ≡ true) × (all (is_free at) parts ≡ true)
parts_free [] h = (refl, refl)
parts_free (part ∷ parts) h = ground (arith, part_free part, parts_free parts)

version_of_digits :
    (cs : List ℕ) (c : ℕ) (rest : List ℕ)
    → cs ≡ c ∷ rest
    → all is_digit cs ≡ true
    → is_version cs ≡ true
version_of_digits cs c rest is h = rw is (ap (all is_digit) (sym is) ∙ h)

-- What a text is split into whose parts are valid.
captures-join :
    (part : List ℕ) (parts : List (List ℕ)) (name version : List ℕ)
    → is_domain (part ∷ parts) ≡ true
    → is_part name ≡ true
    → is_version version ≡ true
    → captures (join dot (part ∷ parts ++ name ∷ []) ++ at ∷ version)
      ≡ ok (join dot (part ∷ parts), name, version)
unfolding captures
captures-join part parts name version valid name_valid version_valid =
    let all_parts = part ∷ parts ++ name ∷ [] in
    let valid_parts : all is_part all_parts ≡ true =
      all-append is_part (part ∷ parts) (name ∷ []) ∙ ground (arith, valid, name_valid) in
    let (no_dot, no_at) = parts_free all_parts valid_parts in
    rw (split_once-append at (join dot all_parts) version (free-join at dot all_parts no_at refl)) (
      rw (split_on-join dot part (parts ++ name ∷ []) no_dot)
        (rw (split_last-append (part ∷ parts) name) (rw (valid, name_valid, version_valid) refl)))

to_string_lem :
    (fqn : ToolFqn) (part : List ℕ) (parts : List (List ℕ))
    → fqn.domain ≡ join dot (part ∷ parts)
    → to_string fqn ≡ join dot (part ∷ parts ++ fqn.name ∷ []) ++ at ∷ print_uint fqn.version
unfolding to_string
to_string_lem fqn part parts is =
    sym (append_assoc fqn.domain (dot ∷ fqn.name) (at ∷ print_uint fqn.version))
    ∙ ap (λ l. l ++ at ∷ print_uint fqn.version)
        (ap (λ l. l ++ dot ∷ fqn.name) is ∙ sym (join-append dot part parts fqn.name))

captures-to_string :
    (fqn : ToolFqn) (parts : List (List ℕ))
    → fqn.domain ≡ join dot parts
    → is_domain parts ≡ true
    → is_part fqn.name ≡ true
    → captures (to_string fqn) ≡ ok (fqn.domain, fqn.name, print_uint fqn.version)
captures-to_string fqn [] is valid name_valid = cc
captures-to_string fqn (part ∷ parts) is valid name_valid =
    let (c, cs, printed) = print_uint-cons fqn.version in
    ap captures (to_string_lem fqn part parts is)
    ∙ captures-join part parts fqn.name (print_uint fqn.version) valid name_valid
        (version_of_digits (print_uint fqn.version) c cs printed (all-print_uint fqn.version))
    ∙ ap (λ d. ok (d, fqn.name, print_uint fqn.version)) (sym is)

from_str-to_string : (fqn : ToolFqn) → IsValid fqn → from_str (to_string fqn) ≡ ok fqn
unfolding from_str
from_str-to_string fqn v =
    let bound = v.version_bound in
    rw (captures-to_string fqn v.parts v.domain_parts v.domain_valid v.name_valid) (
      rw (parse-print_uint 32 fqn.version v.version_bound (omega arith))
        (rw (==_ne fqn.version 0 (λ e. let pos = v.version_positive in omega arith)) refl))

-- What is captured has the form of the parts.
captures-valid :
    (text domain name version : List ℕ)
    → captures text ≡ ok (domain, name, version)
    → (parts : List (List ℕ)) × (domain ≡ join dot parts)
      × (is_domain parts ≡ true)
      × (is_part name ≡ true)
unfolding captures
captures-valid text domain name version h =
    let ((left, v), _, h₁) = >>=-eq-ok (ok_or (split_once at text) invalid_format) _ h in
    let ((init, last), _, h₂) =
      >>=-eq-ok (ok_or (split_last (split_on dot left)) invalid_format) _ h₁ in
    let (_, domain_checked, h₃) = >>=-eq-ok (bail_if (not (is_domain init)) invalid_format) _ h₂ in
    let (_, name_checked, h₄) = >>=-eq-ok (bail_if (not (is_part last)) invalid_format) _ h₃ in
    let (_, _, h₅) = >>=-eq-ok (bail_if (not (is_version v)) invalid_format) _ h₄ in
    let same = ok_injective h₅ in
    (
      init,
      sym (ap (λ p. p.0) same),
      checked invalid_format (is_domain init) domain_checked,
      ap is_part (sym (ap (λ p. p.1) same)) ∙ checked invalid_format (is_part last) name_checked,
    )

from_str-IsValid : (text : List ℕ) (fqn : ToolFqn) → from_str text ≡ ok fqn → IsValid fqn
unfolding from_str
from_str-IsValid text fqn h =
    let ((domain, name, digits), captured, h₁) = >>=-eq-ok (captures text) _ h in
    let (version, parsed, h₂) = >>=-eq-ok (ok_or (parse_uint 32 digits) version_too_large) _ h₁ in
    let (_, not_zero, last) = >>=-eq-ok (bail_if (version == 0) version_zero) _ h₂ in
    let (parts, is, valid, name_valid) = captures-valid text domain name digits captured in
    let nonzero = (bail_if_iff (version == 0) version_zero).0 not_zero in
    subst IsValid (ok_injective last) record {
      parts = parts;
      domain_parts = is;
      domain_valid = valid;
      name_valid = name_valid;
      version_positive = ground arith;
      version_bound =
          parse_uint-lt 32 digits version (omega arith)
            (ok_or-eq-ok (parse_uint 32 digits) version_too_large parsed);
    }

-- A name is valid (its domain joins two parts or more, these and the name are made of a lower case letter and one
-- or more of lower case letters, digits, `_` and `-`, and the version is a positive u32) exactly if its text is
-- read back as the same name; and every text that is read gives such a name.
pub from_str_iff :
    (fqn : ToolFqn)
    → (IsValid fqn ↔ (from_str (to_string fqn) ≡ ok fqn))
      × ((text : List ℕ) → from_str text ≡ ok fqn → IsValid fqn)
from_str_iff fqn = (
  (from_str-to_string fqn, from_str-IsValid (to_string fqn) fqn),
  λ text h. from_str-IsValid text fqn h,
)
