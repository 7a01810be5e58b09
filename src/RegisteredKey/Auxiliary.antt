-- ===== src/RegisteredKey/Auxiliary.antt =====
-- The encoding of the auxiliary data of a registered key.
use nexus_sdk.Prelude.{
  ◌≡◌, refl, ap, ◌∙◌, ◌↔◌, false, not, length, arith, Result, ok, bail_if, bail_if_iff, >>=-eq-ok,
  >>=-of_ok, ok_injective, Eq, ◌==◌, ==_iff, nat_eq, list_eq,
}
use mathlib.Core.Path.{subst}
use nexus_sdk.RegisteredKey.{
  Bytes, RegisteredKeyAuxiliary, KeyError, not_canonical, validate_registered_key_auxiliary,
  encode_registered_key_auxiliary, decode_registered_key_auxiliary,
}

-- Every part has its size.
abbrev pub IsWellSized : RegisteredKeyAuxiliary → Type 0
IsWellSized auxiliary =
    (length auxiliary.input_hash ≡ 32)
    × (length auxiliary.nonce ≡ 32)
    × (length auxiliary.leader_signature ≡ 64)
    × (length auxiliary.tool_signature ≡ 64)

same_iff {ℓ} : {A : Type ℓ} ⦃e : Eq A⦄ (x y : A) → (not (x == y) ≡ false) ↔ (x ≡ y)
same_iff x y = ground (arith, ==_iff x y)

validate_iff :
    (auxiliary : RegisteredKeyAuxiliary)
    → (validate_registered_key_auxiliary auxiliary ≡ ok tt) ↔ IsWellSized auxiliary
unfolding validate_registered_key_auxiliary
validate_iff a = ground (
  arith,
  ==_iff (length a.input_hash) 32,
  ==_iff (length a.nonce) 32,
  ==_iff (length a.leader_signature) 64,
  ==_iff (length a.tool_signature) 64,
)

module _ (to_bytes : RegisteredKeyAuxiliary → Result KeyError Bytes)
    (from_bytes : Bytes → Result KeyError RegisteredKeyAuxiliary) where
  encode_iff :
      (auxiliary : RegisteredKeyAuxiliary) (bytes : Bytes)
      → (encode_registered_key_auxiliary to_bytes from_bytes auxiliary ≡ ok bytes)
        ↔ (IsWellSized auxiliary × (to_bytes auxiliary ≡ ok bytes))
  unfolding encode_registered_key_auxiliary
  encode_iff auxiliary bytes = (
    (λ h.
        let (_, sized, encoded) = >>=-eq-ok (validate_registered_key_auxiliary auxiliary) _ h in
        ((validate_iff auxiliary).0 sized, encoded)),
    λ (sized, encoded).
        >>=-of_ok (validate_registered_key_auxiliary auxiliary) _ ((validate_iff auxiliary).1 sized)
          encoded,
  )

  decode_iff :
      (bytes : Bytes) (auxiliary : RegisteredKeyAuxiliary)
      → (decode_registered_key_auxiliary to_bytes from_bytes bytes ≡ ok auxiliary) ↔ (
          (from_bytes bytes ≡ ok auxiliary)
          × IsWellSized auxiliary
          × (to_bytes auxiliary ≡ ok bytes))
  unfolding decode_registered_key_auxiliary
  decode_iff bytes auxiliary = (
    (λ h.
        let (a, read, h₁) = >>=-eq-ok (from_bytes bytes) _ h in
        let (_, sized, h₂) = >>=-eq-ok (validate_registered_key_auxiliary a) _ h₁ in
        let (encoded, written, h₃) = >>=-eq-ok (to_bytes a) _ h₂ in
        let (_, exact, last) = >>=-eq-ok (bail_if (not (encoded == bytes)) not_canonical) _ h₃ in
        let same =
          (same_iff encoded bytes).0
            ((bail_if_iff (not (encoded == bytes)) not_canonical).0 exact) in
        subst (λ t. (from_bytes bytes ≡ ok t) × IsWellSized t × (to_bytes t ≡ ok bytes))
          (ok_injective last) (read, (validate_iff a).0 sized, written ∙ ap ok same)),
    λ (read, sized, written). >>=-of_ok (from_bytes bytes) _ read (
        >>=-of_ok (validate_registered_key_auxiliary auxiliary) _ ((validate_iff auxiliary).1 sized)
          (>>=-of_ok (to_bytes auxiliary) _ written (
            >>=-of_ok (bail_if (not (bytes == bytes)) not_canonical) _
              ((bail_if_iff (not (bytes == bytes)) not_canonical).1 ((same_iff bytes bytes).1 refl))
              refl))),
  )

-- If BCS reads back what it writes, decoding and encoding are inverse to one another: bytes are decoded
-- to the auxiliary data exactly if these encode to the very same bytes, so that no data has two accepted
-- encodings and no malformed data is encoded.
pub decode_iff_encode :
    (to_bytes : RegisteredKeyAuxiliary → Result KeyError Bytes)
    (from_bytes : Bytes → Result KeyError RegisteredKeyAuxiliary)
    → ((a : RegisteredKeyAuxiliary) (b : Bytes) → to_bytes a ≡ ok b → from_bytes b ≡ ok a)
    → (bytes : Bytes) (auxiliary : RegisteredKeyAuxiliary)
    → (decode_registered_key_auxiliary to_bytes from_bytes bytes ≡ ok auxiliary) ↔ (
        IsWellSized auxiliary
        × (encode_registered_key_auxiliary to_bytes from_bytes auxiliary ≡ ok bytes))
decode_iff_encode to_bytes from_bytes reads bytes auxiliary = (
  (λ h.
      let (read, sized, written) = (decode_iff to_bytes from_bytes bytes auxiliary).0 h in
      (sized, (encode_iff to_bytes from_bytes auxiliary bytes).1 (sized, written))),
  λ (sized, h).
      let (_, written) = (encode_iff to_bytes from_bytes auxiliary bytes).0 h in
      (decode_iff to_bytes from_bytes bytes auxiliary).1
        (reads auxiliary bytes written, sized, written),
)
