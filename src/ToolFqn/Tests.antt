-- ===== src/ToolFqn/Tests.antt =====
-- The names of the tests of tool_fqn.rs, shortened.
use nexus_sdk.Prelude.{ℕ, ◌≡◌, refl, ◌↔◌, List, [], ◌∷◌, ok, err}
use nexus_sdk.ToolFqn.{ToolFqn, captures, from_str, to_string, invalid_format, version_zero}
use nexus_sdk.ToolFqn.RoundTrip.{IsValid, from_str_iff}
use nexus_sdk.Prelude.Decimal.{parse_uint, print_uint}

abbrev runs : Unit {0}
unfolding captures from_str to_string parse_uint print_uint
runs = tt

-- "xyz.llm.ab@1"
abbrev example : ToolFqn
example = record {
  domain = b'x' ∷ b'y' ∷ b'z' ∷ b'.' ∷ b'l' ∷ b'l' ∷ b'm' ∷ [];
  name = b'a' ∷ b'b' ∷ [];
  version = 1;
}

abbrev text : List ℕ
text = b'x' ∷ b'y' ∷ b'z' ∷ b'.' ∷ b'l' ∷ b'l' ∷ b'm' ∷ b'.' ∷ b'a' ∷ b'b' ∷ b'@' ∷ b'1' ∷ []

reads : from_str text ≡ ok example
unfolding runs
reads = refl

-- "xyz.llm@1" has one part before the name.
short_domain :
    from_str (b'x' ∷ b'y' ∷ b'z' ∷ b'.' ∷ b'l' ∷ b'l' ∷ b'm' ∷ b'@' ∷ b'1' ∷ [])
    ≡ err invalid_format
unfolding runs
short_domain = refl

zero_version :
    from_str (b'x' ∷ b'y' ∷ b'.' ∷ b'l' ∷ b'm' ∷ b'.' ∷ b'a' ∷ b'b' ∷ b'@' ∷ b'0' ∷ [])
    ≡ err version_zero
unfolding runs
zero_version = refl

from_str_iff_example :
    (IsValid example ↔ (from_str (to_string example) ≡ ok example))
    × ((input : List ℕ) → from_str input ≡ ok example → IsValid example)
from_str_iff_example = from_str_iff example
