-- ===== src/Leaders.antt =====
-- sdk/src/signed_http/v2/wire.rs: the file of allowed leaders, and the keys that AllowedLeaders loads of it. The library
-- hex is the parameter Hex.
use nexus_sdk.Prelude.{
  ℕ, ◌≡◌, Bool, true, false, not, ◌&&◌, Option, none, some, List, [], ◌∷◌, all, ◌||◌, leb, length,
  Result, ok, err, ◌>>=◌, ◌>>◌, bail_if, ok_or, if◌then◌else◌, try_fold, ◌==◌, nat_eq, pair_eq,
  list_eq, Assoc, insert, lookup, contains_key, sort, ℕ_order,
}
use nexus_sdk.SignedHttp.{Bytes, SignedHttpError, invalid_allowed_leaders_file}
pub mod Network
pub mod Dedup
pub mod Load
pub mod Active
pub mod Entry
pub mod Entries
pub mod Export
pub mod Authenticates
pub mod Tests

pub record AllowedLeaderKeyFileV1 : Type 0 where
  pub kid : ℕ
  pub public_key : Bytes

pub record AllowedLeaderFileV1 : Type 0 where
  pub leader_id : Bytes
  pub keys : List AllowedLeaderKeyFileV1

pub record AllowedLeadersFileV1 : Type 0 where
  pub version : ℕ
  pub leaders : List AllowedLeaderFileV1

pub record Hex : Type 0 where
  pub encode : Bytes → Bytes
  pub decode : Bytes → Option Bytes

-- `0-9`, `a-f`
abbrev pub is_hex_digit : ℕ → Bool
is_hex_digit c = (leb 48 c && leb c 57) || (leb 97 c && leb c 102)

-- What the library promises.
pub record IsHex (H : Hex) : Type 0 where
  pub decodes : (bytes : Bytes) → H.decode (H.encode bytes) ≡ some bytes
  pub digits : (bytes : Bytes) → all is_hex_digit (H.encode bytes) ≡ true

-- `value.strip_prefix("0x").unwrap_or(value)`
abbrev pub without_0x : Bytes → Bytes
without_0x [] = []
without_0x (c ∷ []) = c ∷ []
without_0x (c ∷ d ∷ cs) = elim (c == 48 && d == 120) [ true ↦ cs | false ↦ c ∷ d ∷ cs ]

-- `AllowedLeaders`, without the path.
abbrev pub AllowedLeaders : Type 0
AllowedLeaders = Assoc (Bytes × ℕ) Bytes

abbrev pub leader_public_key : AllowedLeaders → Bytes → ℕ → Option Bytes
leader_public_key allowed leader_id leader_key_id = lookup (leader_id, leader_key_id) allowed

module _ (H : Hex) where
  unfoldable pub decode_public_key : Bytes → Result SignedHttpError Bytes
  decode_public_key text = do
    bytes ← ok_or (H.decode (without_0x text)) invalid_allowed_leaders_file
    bail_if (not (length bytes == 32)) invalid_allowed_leaders_file
    ok bytes

  abbrev pub add_key :
      Bytes → AllowedLeaders → AllowedLeaderKeyFileV1 → Result SignedHttpError AllowedLeaders
  add_key leader_id allowed key = do
    public_key ← decode_public_key key.public_key
    bail_if (contains_key (leader_id, key.kid) allowed) invalid_allowed_leaders_file
    ok (insert (leader_id, key.kid) public_key allowed)

  abbrev pub add_leader :
      AllowedLeaders → AllowedLeaderFileV1 → Result SignedHttpError AllowedLeaders
  add_leader allowed file = try_fold (add_key file.leader_id) allowed file.keys

  unfoldable pub try_from : AllowedLeadersFileV1 → Result SignedHttpError AllowedLeaders
  try_from file = do
    bail_if (not (file.version == 1)) invalid_allowed_leaders_file
    try_fold add_leader [] file.leaders
