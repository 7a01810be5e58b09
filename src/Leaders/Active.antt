-- ===== src/Leaders/Active.antt =====
-- sdk/src/nexus/network_auth.rs: which key of a leader is active, in terms of what the node has.
use nexus_sdk.Prelude.{
  some_injective, ℕ, ◌≡◌, refl, sym, ap, ◌∙◌, ◌↔◌, Bool, true, false, not, Option, some, none,
  arith, length, ok, >>=-eq-ok, bail_if, bail_if-eq-ok, ok_or, ok_or-eq-ok, ok_injective, ◌==◌,
  nat_eq, ==_iff, Assoc, lookup,
}
use nexus_sdk.SignedHttp.{Bytes}
use nexus_sdk.Leaders.Network.{
  leader, KeyRecord, KeyBinding, not_32_bytes, unsupported_scheme, revoked, missing_record, Fetched,
  found, not_found, failed, Network, ActiveEd25519Key, key_scheme_ed25519, is_some_time, binding_of,
  key_of_record, key_of_id, try_get_active_ed25519_key, try_get_key_binding, with_active_key,
  try_get_active_key_binding,
}

-- The record of a key: an Ed25519 key of 32 bytes that is not revoked.
pub record IsUsable (record' : KeyRecord) (key : Bytes) : Type 0 where
  pub same_key : record'.public_key ≡ key
  pub has_length : length key ≡ 32
  pub is_ed25519 : record'.scheme ≡ key_scheme_ed25519
  pub not_revoked : record'.revoked_at_ms ≡ none

-- The binding of the leader names the key as active, and the record of the key is usable.
pub record IsActive (N : Network) (id kid : ℕ) (key : Bytes) : Type 0 where
  pub object_id : ℕ
  pub binding : KeyBinding
  pub records : Assoc ℕ KeyRecord
  pub of_kid : KeyRecord
  pub is_derived : N.binding_object_id (leader id) ≡ ok object_id
  pub is_bound : N.get_binding object_id ≡ found binding
  pub is_named : binding.active_key_id ≡ some kid
  pub of_table : N.key_records binding.key_table_id ≡ ok records
  pub of_records : lookup kid records ≡ some of_kid
  pub is_usable : IsUsable of_kid key

abbrev key_of : ℕ → Bytes → ActiveEd25519Key
key_of kid key = record { kid = kid; public_key = key }

not_test : (b : Bool) → not b ≡ false → b ≡ true
not_test b h = ground arith

time-none : (o : Option ℕ) → is_some_time o ≡ false → o ≡ none
time-none none h = refl
time-none (some _) h = cc

found-binding :
    (answer : Fetched) (binding : KeyBinding)
    → binding_of answer ≡ ok (some binding)
    → answer ≡ found binding
found-binding (found b) binding h = ap found (some_injective (ok_injective h))
found-binding not_found binding h = cc
found-binding (failed code) binding h = cc

module _ (N : Network) where
  key_of_record-IsUsable :
      (kid kid' : ℕ) (record' : KeyRecord) (key : Bytes)
      → key_of_record N kid record' ≡ ok (some (key_of kid' key))
      → (kid ≡ kid') × IsUsable record' key
  key_of_record-IsUsable kid kid' record' key h =
      let (_, first, h1) =
        >>=-eq-ok (bail_if (not (length record'.public_key == 32)) (not_32_bytes kid)) _ h in
      let (_, second, h2) =
        >>=-eq-ok
          (bail_if (not (record'.scheme == key_scheme_ed25519)) (unsupported_scheme record'.scheme))
          _ h1 in
      let (_, third, h3) =
        >>=-eq-ok (bail_if (is_some_time record'.revoked_at_ms) (revoked kid)) _ h2 in
      let made : key_of kid record'.public_key ≡ key_of kid' key =
        some_injective (ok_injective h3) in
      let same_key = ap (λ k. k.public_key) made in
      let is_32 = (==_iff _ 32).0 (not_test _ (bail_if-eq-ok _ (not_32_bytes kid) first)) in
      (
        ap (λ k. k.kid) made,
        record {
          same_key = same_key;
          has_length = ap length (sym same_key) ∙ is_32;
          is_ed25519 =
              (==_iff _ key_scheme_ed25519).0
                (not_test _ (bail_if-eq-ok _ (unsupported_scheme record'.scheme) second));
          not_revoked = time-none record'.revoked_at_ms (bail_if-eq-ok _ (revoked kid) third);
        },
      )

  IsUsable-key_of_record :
      (kid : ℕ) (record' : KeyRecord) (key : Bytes)
      → IsUsable record' key
      → key_of_record N kid record' ≡ ok (some (key_of kid key))
  IsUsable-key_of_record kid record' key h =
      rw (h.same_key, h.has_length, h.is_ed25519, h.not_revoked) refl

  key_of_id-some :
      (binding : KeyBinding) (o : Option ℕ) (kid : ℕ) (key : Bytes)
      → key_of_id N binding o ≡ ok (some (key_of kid key))
      → (o ≡ some kid)
        × (records : Assoc ℕ KeyRecord) × (record' : KeyRecord) × (N.key_records
              binding.key_table_id
            ≡ ok records)
        × (lookup kid records ≡ some record')
        × IsUsable record' key
  key_of_id-some binding none kid key h = cc
  key_of_id-some binding (some named) kid key h =
      let (records, of_table, h1) = >>=-eq-ok (N.key_records binding.key_table_id) _ h in
      let (record', at, h2) =
        >>=-eq-ok (ok_or (lookup named records) (missing_record named)) _ h1 in
      let (same, usable) = key_of_record-IsUsable named kid record' key h2 in
      (
        ap some same,
        records,
        record',
        of_table,
        ap (λ k. lookup k records) (sym same)
            ∙ ok_or-eq-ok (lookup named records) (missing_record named) at,
        usable,
      )

  with_active_key-some :
      (bound : Option KeyBinding) (kid : ℕ) (key : Bytes)
      → with_active_key N bound ≡ ok (some (some (key_of kid key)))
      → (binding : KeyBinding) × (bound ≡ some binding)
        × (try_get_active_ed25519_key N binding ≡ ok (some (key_of kid key)))
  with_active_key-some none kid key h = cc
  with_active_key-some (some binding) kid key h =
      let (active, got, made) = >>=-eq-ok (try_get_active_ed25519_key N binding) _ h in
      (binding, refl, got ∙ ap ok (some_injective (ok_injective made)))

  try_get_active_key_binding-IsActive :
      (id kid : ℕ) (key : Bytes)
      → try_get_active_key_binding N (leader id) ≡ ok (some (some (key_of kid key)))
      → IsActive N id kid key
  unfolding try_get_active_key_binding try_get_key_binding try_get_active_ed25519_key
  try_get_active_key_binding-IsActive id kid key h =
      let (bound, got, h1) = >>=-eq-ok (try_get_key_binding N (leader id)) _ h in
      let (object_id, is_derived, answered) = >>=-eq-ok (N.binding_object_id (leader id)) _ got in
      let (binding, is_some, active) = with_active_key-some bound kid key h1 in
      let (is_named, records, record', of_table, of_records, usable) =
        key_of_id-some binding binding.active_key_id kid key active in
      record {
        object_id = object_id;
        binding = binding;
        records = records;
        of_kid = record';
        is_derived = is_derived;
        is_bound = found-binding (N.get_binding object_id) binding (answered ∙ ap ok is_some);
        is_named = is_named;
        of_table = of_table;
        of_records = of_records;
        is_usable = usable;
      }

  IsActive-try_get_active_key_binding :
      (id kid : ℕ) (key : Bytes)
      → IsActive N id kid key
      → try_get_active_key_binding N (leader id) ≡ ok (some (some (key_of kid key)))
  unfolding try_get_active_key_binding try_get_key_binding try_get_active_ed25519_key
  IsActive-try_get_active_key_binding id kid key a =
      rw
        (
          a.is_derived,
          a.is_bound,
          a.is_named,
          a.of_table,
          a.of_records,
          IsUsable-key_of_record kid a.of_kid key a.is_usable,
        )
        refl

  pub try_get_active_key_binding_iff :
      (id kid : ℕ) (key : Bytes)
      → (try_get_active_key_binding N (leader id)
          ≡ ok (some (some record { kid = kid; public_key = key })))
        ↔ IsActive N id kid key
  try_get_active_key_binding_iff id kid key = (
    try_get_active_key_binding-IsActive id kid key,
    IsActive-try_get_active_key_binding id kid key,
  )
