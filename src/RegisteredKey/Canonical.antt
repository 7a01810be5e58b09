-- ===== src/RegisteredKey/Canonical.antt =====
-- The canonical form of the inputs of a tool.
use mathlib.Core.List.Permᴰ
use mathlib.Core.Option
use mathlib.Core.Path.{subst}
use mathlib.Core.List.{Permᴰ}
use nexus_sdk.Prelude.{
  ◌≡◌, ◌≢◌, refl, sym, ap, ◌∙◌, inl, inr, true, false, some, List, [], ◌∷◌, map, Memᴰ, arith, All,
  Result, if◌then◌else◌, mem-Perm, IsDistinct-Perm, Bool-cases, Eq, ◌==◌, nat_eq, list_eq, Assoc,
  lookup, IsDistinct, ℕ_order, lex_order, sort, sort-Perm, sort-perm, sort-IsSorted, IsSorted,
}
use nexus_sdk.Prelude.Order.{Order}
use nexus_sdk.RegisteredKey.{
  Bytes, NexusData, CanonicalToolInput, hash_of, put_input, inputs_of, canonical_tool_inputs,
  canonical_tool_inputs_bcs, canonical_tool_inputs_sha256, KeyError,
}

module _ {ℓ κ} {K : Type ℓ} {V : Type κ} ⦃e : Eq K⦄ where
  abbrev names : Assoc K V → List K
  names m = map (λ entry. entry.0) m

  lookup-own : (k : K) (v : V) (m : Assoc K V) → lookup k ((k, v) ∷ m) ≡ some v
  unfolding lookup
  lookup-own k v m = rw ((e.same_iff k k).1 refl) refl

  lookup-here : (k j : K) (v : V) (m : Assoc K V) → (j == k) ≡ true → lookup k ((j, v) ∷ m) ≡ some v
  unfolding lookup
  lookup-here k j v m h = rw h refl

  lookup-there :
      (k j : K) (v : V) (m : Assoc K V) → (j == k) ≡ false → lookup k ((j, v) ∷ m) ≡ lookup k m
  unfolding lookup
  lookup-there k j v m h = rw h refl

  lookup-cons :
      (k : K) (x : K × V) (m n : Assoc K V)
      → lookup k m ≡ lookup k n
      → lookup k (x ∷ m) ≡ lookup k (x ∷ n)
  unfolding lookup
  lookup-cons k x m n h = ap (λ r. if x.0 == k then some x.1 else r) h

  lookup-swap :
      (k : K) (x y : K × V) (m : Assoc K V)
      → x.0 ≢ y.0
      → lookup k (x ∷ y ∷ m) ≡ lookup k (y ∷ x ∷ m)
  unfolding lookup
  lookup-swap k x y m h = ground (arith, e.same_iff x.0 k, e.same_iff y.0 k)

  -- A key of the map has an entry.
  lookup-names : (k : K) (m : Assoc K V) → Memᴰ k (names m) → (v : V) × (lookup k m ≡ some v)
  lookup-names k [] m = elim m [ ]
  lookup-names k ((j, v) ∷ rest) (Memᴰ.head h) =
      (v, subst (λ i. lookup k ((i, v) ∷ rest) ≡ some v) h (lookup-own k v rest))
  lookup-names k ((j, v) ∷ rest) (Memᴰ.tail m) = elim (Bool-cases (j == k)) [
    | inl same ↦ (v, lookup-here k j v rest same)
    | inr other ↦
        let (w, found) = lookup-names k rest m in (w, lookup-there k j v rest other ∙ found)
  ]

  -- Maps with the same entries give the same answers.
  lookup-Perm :
      {m n : Assoc K V} → Permᴰ m n → IsDistinct (names m) → (k : K) → lookup k m ≡ lookup k n
  lookup-Perm Permᴰ.nil d k = refl
  lookup-Perm (Permᴰ.cons {a} {b} {l₁} {l₂} h p) d k =
      lookup-cons k a l₁ l₂ (lookup-Perm p d.1 k) ∙ ap (λ x. lookup k (x ∷ l₂)) h
  lookup-Perm (Permᴰ.swap {a} {b} {a'} {b'} {l} h g) d k =
      lookup-swap k a b l (λ e. d.0 (Memᴰ.head e))
      ∙ ap (λ x. lookup k (x ∷ a ∷ l)) g
      ∙ ap (λ x. lookup k (a' ∷ x ∷ l)) h
  lookup-Perm (Permᴰ.trans p q) d k =
      lookup-Perm p d k ∙ lookup-Perm q (IsDistinct-Perm (Permᴰ.map (λ entry. entry.0) p) d) k

abbrev byte_order : Order Bytes
byte_order = lex_order ℕ_order

-- The inputs of a list of names: one for each, with its entry.
abbrev HasInputs : Assoc Bytes NexusData → List Bytes → List CanonicalToolInput → Type 0
HasInputs ports keys inputs =
    (map (λ input. input.port_name) inputs ≡ keys)
    × All (λ input. lookup input.port_name ports ≡ some input.value) inputs

inputs_of-HasInputs :
    (ports : Assoc Bytes NexusData) (keys : List Bytes)
    → ((k : Bytes) → Memᴰ k keys → (v : NexusData) × (lookup k ports ≡ some v))
    → (inputs : List CanonicalToolInput) × (inputs_of ports keys ≡ some inputs)
      × HasInputs ports keys inputs
inputs_of-HasInputs ports [] known = ([], refl, (refl, tt))
inputs_of-HasInputs ports (name ∷ keys) known =
    let (v, found) = known name (Memᴰ.head refl) in
    let (rest, given, (same, values)) =
      inputs_of-HasInputs ports keys (λ k m. known k (Memᴰ.tail m)) in
    (
      record { port_name = name; value = v } ∷ rest,
      ap (λ w. put_input name w (inputs_of ports keys)) found ∙ ap (put_input name (some v)) given,
      (ap (λ ns. name ∷ ns) same, (found, values)),
    )

inputs_of-same :
    (ports ports' : Assoc Bytes NexusData) (keys : List Bytes)
    → ((k : Bytes) → lookup k ports ≡ lookup k ports')
    → inputs_of ports keys ≡ inputs_of ports' keys
inputs_of-same ports ports' [] h = refl
inputs_of-same ports ports' (name ∷ keys) h =
    ap (λ v. put_input name v (inputs_of ports keys)) (h name)
    ∙ ap (put_input name (lookup name ports')) (inputs_of-same ports ports' keys h)

-- The canonical inputs of every map exist: no key that was collected is missing. Their names are sorted
-- by their bytes and are those of the map, and each carries the value that the map has for its name.
pub canonical_tool_inputs-IsSorted :
    (ports : Assoc Bytes NexusData)
    → (inputs : List CanonicalToolInput) × (canonical_tool_inputs ports ≡ some inputs)
      × IsSorted (lex_order ℕ_order) (map (λ input. input.port_name) inputs)
      × Permᴰ (map (λ input. input.port_name) inputs) (map (λ entry. entry.0) ports)
      × All (λ input. lookup input.port_name ports ≡ some input.value) inputs
unfolding canonical_tool_inputs
canonical_tool_inputs-IsSorted ports =
    let keys = names ports in
    let (inputs, given, (same, values)) =
      inputs_of-HasInputs ports (sort byte_order keys)
        (λ k m. lookup-names k ports (mem-Perm (sort-perm byte_order keys) m)) in
    (
      inputs,
      given,
      subst (IsSorted byte_order) (sym same) (sort-IsSorted byte_order keys),
      subst (λ ns. Permᴰ ns keys) (sym same) (sort-perm byte_order keys),
      values,
    )

canonical_tool_inputs-Perm :
    (ports ports' : Assoc Bytes NexusData)
    → IsDistinct (names ports)
    → Permᴰ ports ports'
    → canonical_tool_inputs ports ≡ canonical_tool_inputs ports'
unfolding canonical_tool_inputs
canonical_tool_inputs-Perm ports ports' d p =
    inputs_of-same ports ports' (sort byte_order (names ports)) (lookup-Perm p d)
    ∙ ap (inputs_of ports') (sort-Perm byte_order (Permᴰ.map (λ entry. entry.0) p))

-- Maps with distinct names and the same entries, in whatever order, have the same canonical inputs, and
-- so the same hash.
pub canonical_tool_inputs_sha256-Perm :
    (sha256 : Bytes → Bytes) (to_bytes : List CanonicalToolInput → Result KeyError Bytes)
    (ports ports' : Assoc Bytes NexusData)
    → IsDistinct (map (λ entry. entry.0) ports)
    → Permᴰ ports ports'
    → canonical_tool_inputs_sha256 sha256 to_bytes ports
      ≡ canonical_tool_inputs_sha256 sha256 to_bytes ports'
unfolding canonical_tool_inputs_sha256 canonical_tool_inputs_bcs
canonical_tool_inputs_sha256-Perm sha256 to_bytes ports ports' d p =
    ap (λ inputs. Option.map (hash_of sha256) (Option.map to_bytes inputs))
      (canonical_tool_inputs-Perm ports ports' d p)
