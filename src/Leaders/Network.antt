-- ===== src/Leaders/Network.antt =====
-- sdk/src/nexus/network_auth.rs: the active keys of leaders and the file that NetworkAuthReader exports. The node, with the
-- derivation and the texts of addresses, is the parameter Network.
use nexus_sdk.Prelude.{
  ℕ, Bool, true, false, not, Option, none, some, List, [], ◌∷◌, leb, length, Result, ok, err, ◌>>=◌,
  ◌>>◌, bail_if, ok_or, if◌then◌else◌, ◌==◌, nat_eq, pair_eq, list_eq, Assoc, lookup, sort, ℕ_order,
}
use nexus_sdk.SignedHttp.{Bytes}
use nexus_sdk.Leaders.{AllowedLeaderFileV1, AllowedLeadersFileV1, Hex}

pub data IdentityKey : Type 0 where
  leader : ℕ → IdentityKey
  tool : ℕ → IdentityKey

abbrev pub leader_cap_id : IdentityKey → Option ℕ
leader_cap_id (leader id) = some id
leader_cap_id (tool id) = none

pub record KeyRecord : Type 0 where
  pub scheme : ℕ
  pub public_key : Bytes
  pub revoked_at_ms : Option ℕ

pub record KeyBinding : Type 0 where
  pub active_key_id : Option ℕ
  pub key_table_id : ℕ

pub data AuthError : Type 0 where
  rpc : ℕ → AuthError
  derivation : AuthError
  missing_record : ℕ → AuthError
  not_32_bytes : ℕ → AuthError
  unsupported_scheme : ℕ → AuthError
  revoked : ℕ → AuthError
  binding_not_found : ℕ → AuthError
  no_identities : AuthError
  no_active_keys : AuthError

-- The answer to a request for the binding: an error whose text has "not found" is told from others.
pub data Fetched : Type 0 where
  found : KeyBinding → Fetched
  not_found : Fetched
  failed : ℕ → Fetched

pub record Network : Type 0 where
  pub identities : Result AuthError (List IdentityKey)
  pub binding_object_id : IdentityKey → Result AuthError ℕ
  pub get_binding : ℕ → Fetched
  pub key_records : ℕ → Result AuthError (Assoc ℕ KeyRecord)
  -- the text of an address
  pub address_to_string : ℕ → Bytes

pub record ActiveEd25519Key : Type 0 where
  pub kid : ℕ
  pub public_key : Bytes

-- `KEY_SCHEME_ED25519`
abbrev pub key_scheme_ed25519 : ℕ
key_scheme_ed25519 = 0

abbrev pub is_some_time : Option ℕ → Bool
is_some_time none = false
is_some_time (some _) = true

-- `try_get_key_binding_by_object_id`
abbrev pub binding_of : Fetched → Result AuthError (Option KeyBinding)
binding_of (found binding) = ok (some binding)
binding_of not_found = ok none
binding_of (failed code) = err (rpc code)

-- `filter_map(IdentityKey::leader_cap_id)`
abbrev pub add_leader_id : Option ℕ → List ℕ → List ℕ
add_leader_id none ids = ids
add_leader_id (some id) ids = id ∷ ids

abbrev pub leader_cap_ids : List IdentityKey → List ℕ
leader_cap_ids [] = []
leader_cap_ids (identity ∷ identities) =
    add_leader_id (leader_cap_id identity) (leader_cap_ids identities)

-- `dedup`: of equal neighbours one is kept.
abbrev pub push_apart : ℕ → List ℕ → List ℕ
push_apart x [] = x ∷ []
push_apart x (y ∷ ys) = if y == x then y ∷ ys else x ∷ y ∷ ys

abbrev pub dedup : List ℕ → List ℕ
dedup [] = []
dedup (x ∷ xs) = push_apart x (dedup xs)

module _ (N : Network) where
  unfoldable pub list_leader_cap_ids_from_network_auth : Result AuthError (List ℕ)
  list_leader_cap_ids_from_network_auth = do
    identities ← N.identities
    ok (dedup (sort ℕ_order (leader_cap_ids identities)))

  abbrev pub key_of_record : ℕ → KeyRecord → Result AuthError (Option ActiveEd25519Key)
  key_of_record kid record' = do
    bail_if (not (length record'.public_key == 32)) (not_32_bytes kid)
    bail_if (not (record'.scheme == key_scheme_ed25519)) (unsupported_scheme record'.scheme)
    bail_if (is_some_time record'.revoked_at_ms) (revoked kid)
    ok (some record { kid = kid; public_key = record'.public_key })

  abbrev pub key_of_id : KeyBinding → Option ℕ → Result AuthError (Option ActiveEd25519Key)
  key_of_id binding none = ok none
  key_of_id binding (some kid) = do
    keys ← N.key_records binding.key_table_id
    record' ← ok_or (lookup kid keys) (missing_record kid)
    key_of_record kid record'

  unfoldable pub try_get_active_ed25519_key :
      KeyBinding → Result AuthError (Option ActiveEd25519Key)
  try_get_active_ed25519_key binding = key_of_id binding binding.active_key_id

  unfoldable pub try_get_key_binding : IdentityKey → Result AuthError (Option KeyBinding)
  try_get_key_binding identity = do id ← N.binding_object_id identity; binding_of (N.get_binding id)

  abbrev pub with_active_key :
      Option KeyBinding → Result AuthError (Option (Option ActiveEd25519Key))
  with_active_key none = ok none
  with_active_key (some binding) = do
    active_key ← try_get_active_ed25519_key binding
    ok (some active_key)

  -- Of the binding that is resolved, the active key.
  unfoldable pub try_get_active_key_binding :
      IdentityKey → Result AuthError (Option (Option ActiveEd25519Key))
  try_get_active_key_binding identity = do
    binding ← try_get_key_binding identity
    with_active_key binding

  module _ (H : Hex) where
    abbrev pub entry_of : ℕ → ActiveEd25519Key → AllowedLeaderFileV1
    entry_of id key = record {
      leader_id = N.address_to_string id;
      keys = record { kid = key.kid; public_key = H.encode key.public_key } ∷ [];
    }

    abbrev pub entry_of_binding :
        ℕ → Option (Option ActiveEd25519Key) → Result AuthError (Option AllowedLeaderFileV1)
    entry_of_binding id none = do
      object_id ← N.binding_object_id (leader id)
      err (binding_not_found object_id)
    entry_of_binding id (some none) = ok none
    entry_of_binding id (some (some key)) = ok (some (entry_of id key))

    unfoldable pub export_allowed_leader_entry_file_v1 :
        ℕ → Result AuthError (Option AllowedLeaderFileV1)
    export_allowed_leader_entry_file_v1 id = do
      binding ← try_get_active_key_binding (leader id)
      entry_of_binding id binding

    abbrev pub push_some :
        Option AllowedLeaderFileV1 → List AllowedLeaderFileV1 → List AllowedLeaderFileV1
    push_some none entries = entries
    push_some (some entry) entries = entry ∷ entries

    abbrev pub export_entries : List ℕ → Result AuthError (List AllowedLeaderFileV1)
    export_entries [] = ok []
    export_entries (id ∷ ids) = do
      entry ← export_allowed_leader_entry_file_v1 id
      entries ← export_entries ids
      ok (push_some entry entries)

    unfoldable pub export_allowed_leaders_file_v1_for_all_leaders :
        Result AuthError AllowedLeadersFileV1
    export_allowed_leaders_file_v1_for_all_leaders = do
      ids ← list_leader_cap_ids_from_network_auth
      bail_if (leb (length ids) 0) no_identities
      entries ← export_entries ids
      bail_if (leb (length entries) 0) no_active_keys
      ok record { version = 1; leaders = entries }
