-- ===== src/RegisteredKey/Tests.antt =====
-- Runs of the wire helpers of a registered key, with concrete encodings.
use mathlib.Core.List.{Permᴰ}
use mathlib.Core.Path.{subst}
use nexus_sdk.Prelude.{
  ℕ, ◌≡◌, refl, sym, ap, ◌∙◌, ◌⊎◌, inl, inr, ◌&&◌, Bool, true, false, ok_injective, Bool-cases,
  Memᴰ, some, List, [], ◌∷◌, map, All, arith, Result, ok, err, ◌==◌, ==_iff, nat_eq, list_eq,
  if◌then◌else◌, Assoc, lookup, IsDistinct, IsSorted, ℕ_order, lex_order,
}
use nexus_sdk.RegisteredKey
use nexus_sdk.RegisteredKey.{Bytes, KeyError}
use nexus_sdk.RegisteredKey.Canonical
use nexus_sdk.RegisteredKey.Auxiliary
use nexus_sdk.RegisteredKey.Binding

abbrev run : Unit {0}
unfolding RegisteredKey.canonical_tool_inputs RegisteredKey.validate_registered_key_auxiliary
    RegisteredKey.result_sha256 RegisteredKey.invocation_nonce RegisteredKey.tool_signature_message
    RegisteredKey.canonical_tool_inputs_bcs RegisteredKey.canonical_tool_inputs_sha256
    RegisteredKey.encode_registered_key_auxiliary RegisteredKey.decode_registered_key_auxiliary
    lookup
run = tt

abbrev zeros : ℕ → Bytes
zeros ℕ.zero = []
zeros (ℕ.suc n) = 0 ∷ zeros n

abbrev auxiliary : RegisteredKey.RegisteredKeyAuxiliary
auxiliary = record {
  input_hash = zeros 32;
  nonce = zeros 32;
  leader_signature = zeros 64;
  tool_signature = zeros 64;
}

abbrev is_sample : RegisteredKey.RegisteredKeyAuxiliary → Bool
is_sample a =
    a.input_hash == zeros 32
    && a.nonce == zeros 32
    && a.leader_signature == zeros 64
    && a.tool_signature == zeros 64

all_four :
    (p q r s : Bool) → (p && q && r && s) ≡ true → (p ≡ true) × (q ≡ true) × (r ≡ true) × (s ≡ true)
all_four p q r s h = ground arith

is_sample-eq : (a : RegisteredKey.RegisteredKeyAuxiliary) → is_sample a ≡ true → a ≡ auxiliary
is_sample-eq a h =
    let (p, q, r, t) =
      all_four (a.input_hash == zeros 32) (a.nonce == zeros 32) (a.leader_signature == zeros 64)
        (a.tool_signature == zeros 64) h in
    λ i. record {
      input_hash = (==_iff a.input_hash (zeros 32)).0 p i;
      nonce = (==_iff a.nonce (zeros 32)).0 q i;
      leader_signature = (==_iff a.leader_signature (zeros 64)).0 r i;
      tool_signature = (==_iff a.tool_signature (zeros 64)).0 t i;
    }

-- An encoding of one value only.
abbrev write : RegisteredKey.RegisteredKeyAuxiliary → Result KeyError Bytes
write a = if is_sample a then ok (7 ∷ []) else err RegisteredKey.bcs_failed

abbrev read : Bytes → Result KeyError RegisteredKey.RegisteredKeyAuxiliary
read b = if b == 7 ∷ [] then ok auxiliary else err RegisteredKey.bcs_failed

write-sample :
    (a : RegisteredKey.RegisteredKeyAuxiliary) → is_sample a ≡ true → write a ≡ ok (7 ∷ [])
write-sample a h = ap (λ b. if b then ok (7 ∷ []) else err RegisteredKey.bcs_failed) h

write-other :
    (a : RegisteredKey.RegisteredKeyAuxiliary)
    → is_sample a ≡ false
    → write a ≡ err RegisteredKey.bcs_failed
write-other a h = ap (λ b. if b then ok (7 ∷ []) else err RegisteredKey.bcs_failed) h

err-ne_ok : {A : Type 0} {e : KeyError} {a : A} → Path (Result KeyError A) (err e) (ok a) → ⊥
err-ne_ok h = cc

read-write : (a : RegisteredKey.RegisteredKeyAuxiliary) (b : Bytes) → write a ≡ ok b → read b ≡ ok a
read-write a b h = elim (Bool-cases (is_sample a)) [
  | inl same ↦
      subst (λ c. read c ≡ ok a) (ok_injective (sym (write-sample a same) ∙ h))
        (ap ok (sym (is_sample-eq a same)))
  | inr other ↦ elim (err-ne_ok (sym (write-other a other) ∙ h)) [ ]
]

decode_iff_encode_example :
    Auxiliary.IsWellSized auxiliary
    × (RegisteredKey.encode_registered_key_auxiliary write read auxiliary ≡ ok (7 ∷ []))
unfolding run
decode_iff_encode_example =
    (Auxiliary.decode_iff_encode write read read-write (7 ∷ []) auxiliary).0 refl

abbrev result : Bytes
result = 1 ∷ []

tool_signature_message-binds_example :
    (zeros 64 ≡ zeros 64)
    × (zeros 32 ≡ zeros 32)
    × ((result ≡ result) ⊎ Binding.IsCollision (λ b. b) result result)
tool_signature_message-binds_example =
    Binding.tool_signature_message-binds (λ b. b) (zeros 64) (zeros 64) (zeros 32) (zeros 32) result
      result refl refl refl refl refl

abbrev preimage : RegisteredKey.ToolInvocationNoncePreimage
preimage = record { execution_id = 5 ∷ []; walk_index = 1; vertex_name = 97 ∷ []; iteration = 0 }

abbrev is_preimage : RegisteredKey.ToolInvocationNoncePreimage → Bool
is_preimage p =
    p.execution_id == 5 ∷ [] && p.walk_index == 1 && p.vertex_name == 97 ∷ [] && p.iteration == 0

abbrev write_preimage : RegisteredKey.ToolInvocationNoncePreimage → Result KeyError Bytes
write_preimage p = if is_preimage p then ok (3 ∷ []) else err RegisteredKey.bcs_failed

is_preimage-eq :
    (p : RegisteredKey.ToolInvocationNoncePreimage) → is_preimage p ≡ true → p ≡ preimage
is_preimage-eq p h =
    let (a, b, c, d) =
      all_four (p.execution_id == 5 ∷ []) (p.walk_index == 1) (p.vertex_name == 97 ∷ [])
        (p.iteration == 0) h in
    λ i. record {
      execution_id = (==_iff p.execution_id (5 ∷ [])).0 a i;
      walk_index = (==_iff p.walk_index 1).0 b i;
      vertex_name = (==_iff p.vertex_name (97 ∷ [])).0 c i;
      iteration = (==_iff p.iteration 0).0 d i;
    }

write_preimage-ok :
    (p : RegisteredKey.ToolInvocationNoncePreimage) (b : Bytes)
    → write_preimage p ≡ ok b
    → is_preimage p ≡ true
write_preimage-ok p b h = elim (Bool-cases (is_preimage p)) [
  | inl same ↦ same
  | inr other ↦
      elim (err-ne_ok
        (sym (ap (λ t. if t then ok (3 ∷ []) else err RegisteredKey.bcs_failed) other) ∙ h)) [ ]
]

write_preimage-distinct :
    (p q : RegisteredKey.ToolInvocationNoncePreimage) (b : Bytes)
    → write_preimage p ≡ ok b
    → write_preimage q ≡ ok b
    → p ≡ q
write_preimage-distinct p q b h k =
    is_preimage-eq p (write_preimage-ok p b h) ∙ sym (is_preimage-eq q (write_preimage-ok q b k))

abbrev data_of : ℕ → RegisteredKey.NexusData
data_of n = record { storage = []; one = n ∷ []; many = [] }

abbrev ports : Assoc Bytes RegisteredKey.NexusData
ports = (122 ∷ [], data_of 1) ∷ (97 ∷ 97 ∷ [], data_of 2) ∷ []

abbrev ports_swapped : Assoc Bytes RegisteredKey.NexusData
ports_swapped = (97 ∷ 97 ∷ [], data_of 2) ∷ (122 ∷ [], data_of 1) ∷ []

canonical_tool_inputs-IsSorted_example :
    (inputs : List RegisteredKey.CanonicalToolInput) × (RegisteredKey.canonical_tool_inputs ports
      ≡ some inputs)
    × IsSorted (lex_order ℕ_order) (map (λ input. input.port_name) inputs)
    × Permᴰ (map (λ input. input.port_name) inputs) (map (λ entry. entry.0) ports)
    × All (λ input. lookup input.port_name ports ≡ some input.value) inputs
canonical_tool_inputs-IsSorted_example = Canonical.canonical_tool_inputs-IsSorted ports

not-mem_nil : {x : Bytes} → ¬ Memᴰ x []
not-mem_nil m = elim m [ ]

not_same : ¬ Memᴰ {A = Bytes} (122 ∷ []) ((97 ∷ 97 ∷ []) ∷ [])
not_same (Memᴰ.head e) = cc
not_same (Memᴰ.tail m) = not-mem_nil m

ports-IsDistinct : IsDistinct (map (λ entry. entry.0) ports)
ports-IsDistinct = (not_same, (not-mem_nil, tt))

-- An encoding of the names only.
abbrev write_inputs : List RegisteredKey.CanonicalToolInput → Result KeyError Bytes
write_inputs [] = ok []
write_inputs (input ∷ inputs) = ok input.port_name

canonical_tool_inputs_sha256-Perm_example :
    RegisteredKey.canonical_tool_inputs_sha256 (λ b. b) write_inputs ports
    ≡ RegisteredKey.canonical_tool_inputs_sha256 (λ b. b) write_inputs ports_swapped
canonical_tool_inputs_sha256-Perm_example =
    Canonical.canonical_tool_inputs_sha256-Perm (λ b. b) write_inputs ports ports_swapped
      ports-IsDistinct (Permᴰ.swap refl refl)
