-- ===== src/ToolFqn.antt =====
-- sdk/src/tool_fqn.rs: the structured name of a tool, how it is read and printed. Texts are lists of
-- characters. FQN_REGEX is written out: its character classes separate the parts at `.` and `@`, so that the
-- domain is all parts but the last, of which the expression wants at least two.
use nexus_sdk.Prelude.{
  Eq, list_eq, ==_iff, arith, ◌↔◌, ℕ, zero, suc, ◌+◌, ◌≤◌, ◌<◌, ◌≡◌, Bool, true, false, ◌&&◌, ◌||◌,
  not, Option, none, some, List, [], ◌∷◌, ◌++◌, all, length, leb, ltb, if◌then◌else◌, Result, ok,
  err, ◌>>=◌, ◌>>◌, bail_if, ok_or, ◌==◌, nat_eq,
}
use nexus_sdk.Prelude.Decimal.{print_uint, parse_uint, is_digit}
pub mod Split
pub mod RoundTrip
pub mod Tests

pub record ToolFqn : Type 0 where
  pub domain : List ℕ
  pub name : List ℕ
  pub version : ℕ

-- `PartialEq`
abbrev pub same_fqn : ToolFqn → ToolFqn → Bool
same_fqn a b = a.domain == b.domain && a.name == b.name && a.version == b.version

pub same_fqn_iff : (a b : ToolFqn) → (same_fqn a b ≡ true) ↔ (a ≡ b)
same_fqn_iff a b =
    ground (arith, ==_iff a.domain b.domain, ==_iff a.name b.name, ==_iff a.version b.version)

instance abbrev pub fqn_eq : Eq ToolFqn
fqn_eq = record { same = same_fqn; same_iff = same_fqn_iff }

pub data FqnError : Type 0 where
  invalid_format : FqnError
  version_too_large : FqnError
  version_zero : FqnError

abbrev pub dot : ℕ
dot = 46

abbrev pub at : ℕ
at = 64

-- `[a-z]`
abbrev pub is_lower : ℕ → Bool
is_lower c = leb 97 c && leb c 122

-- `[a-z0-9_-]`
abbrev pub is_part_char : ℕ → Bool
is_part_char c = is_lower c || is_digit c || c == 95 || c == 45

abbrev pub not_empty : List ℕ → Bool
not_empty [] = false
not_empty (_ ∷ _) = true

-- `[a-z][a-z0-9_-]+`
abbrev pub is_part : List ℕ → Bool
is_part [] = false
is_part (c ∷ cs) = is_lower c && not_empty cs && all is_part_char cs

abbrev pub with_first : ℕ → Option (List ℕ × List ℕ) → Option (List ℕ × List ℕ)
with_first d none = none
with_first d (some (before, after)) = some (d ∷ before, after)

-- The text before and the text after the first c.
abbrev pub split_once : ℕ → List ℕ → Option (List ℕ × List ℕ)
split_once c [] = none
split_once c (d ∷ cs) = if d == c then some ([], cs) else with_first d (split_once c cs)

abbrev pub add_first : Bool → ℕ → List (List ℕ) → List (List ℕ)
add_first true d parts = [] ∷ parts
add_first false d [] = (d ∷ []) ∷ []
add_first false d (part ∷ parts) = (d ∷ part) ∷ parts

-- The parts of a text between the occurrences of c.
abbrev pub split_on : ℕ → List ℕ → List (List ℕ)
split_on c [] = [] ∷ []
split_on c (d ∷ cs) = add_first (d == c) d (split_on c cs)

-- The parts with c between them.
abbrev pub join : ℕ → List (List ℕ) → List ℕ
join c [] = []
join c (part ∷ []) = part
join c (part ∷ next ∷ parts) = part ++ c ∷ join c (next ∷ parts)

abbrev pub with_part : List ℕ → Option (List (List ℕ) × List ℕ) → Option (List (List ℕ) × List ℕ)
with_part part none = some ([], part)
with_part part (some (init, last)) = some (part ∷ init, last)

-- All parts but the last, and the last.
abbrev pub split_last : List (List ℕ) → Option (List (List ℕ) × List ℕ)
split_last [] = none
split_last (part ∷ parts) = with_part part (split_last parts)

abbrev pub is_domain : List (List ℕ) → Bool
is_domain parts = leb 2 (length parts) && all is_part parts

abbrev pub is_version : List ℕ → Bool
is_version digits = not_empty digits && all is_digit digits

-- The captures of FQN_REGEX: the domain, the name and the version.
unfoldable pub captures : List ℕ → Result FqnError (List ℕ × List ℕ × List ℕ)
captures text = do
  (left, version) ← ok_or (split_once at text) invalid_format
  (domain, name) ← ok_or (split_last (split_on dot left)) invalid_format
  bail_if (not (is_domain domain)) invalid_format
  bail_if (not (is_part name)) invalid_format
  bail_if (not (is_version version)) invalid_format
  ok (join dot domain, name, version)

-- `ToolFqn::from_str`
unfoldable pub from_str : List ℕ → Result FqnError ToolFqn
from_str text = do
  (domain, name, version_text) ← captures text
  version ← ok_or (parse_uint 32 version_text) version_too_large
  bail_if (version == 0) version_zero
  ok record { domain = domain; name = name; version = version }

-- `Display::fmt`
unfoldable pub to_string : ToolFqn → List ℕ
to_string fqn = fqn.domain ++ dot ∷ (fqn.name ++ at ∷ print_uint fqn.version)
