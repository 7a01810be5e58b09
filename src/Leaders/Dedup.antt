-- ===== src/Leaders/Dedup.antt =====
-- sdk/src/nexus/network_auth.rs: what sorting and `dedup` do to the ids of the leaders.
use mathlib.Core.Path.{subst}
use mathlib.Core.List.Permᴰ
use nexus_sdk.Prelude.{
  ℕ, ◌≡◌, sym, ap, ◌∙◌, ◌↔◌, inl, inr, true, false, List, [], ◌∷◌, Memᴰ, arith, All, All-mem,
  All-intro, leb, leb→le, ◌==◌, nat_eq, ==_iff, Bool-cases, sort, ℕ_order, IsSorted, sort-IsSorted,
  sort-perm, mem-Perm, IsDistinct, if◌then◌else◌,
}
use nexus_sdk.Leaders.Network.{IdentityKey, leader, tool, leader_cap_ids, push_apart, dedup}

of-push_apart : (a x : ℕ) (ys : List ℕ) → Memᴰ a (push_apart x ys) → Memᴰ a (x ∷ ys)
of-push_apart a x [] m = m
of-push_apart a x (y ∷ ys) m = elim (Bool-cases (y == x)) [
  | inl same ↦ Memᴰ.tail (subst (λ b. Memᴰ a (if b then y ∷ ys else x ∷ y ∷ ys)) same m)
  | inr other ↦ subst (λ b. Memᴰ a (if b then y ∷ ys else x ∷ y ∷ ys)) other m
]

mem-push_apart : (a x : ℕ) (ys : List ℕ) → Memᴰ a (x ∷ ys) → Memᴰ a (push_apart x ys)
mem-push_apart a x [] m = m
mem-push_apart a x (y ∷ ys) (Memᴰ.head e) = elim (Bool-cases (y == x)) [
  | inl same ↦ rw same (Memᴰ.head (e ∙ sym ((==_iff y x).0 same)))
  | inr other ↦ rw other (Memᴰ.head e)
]
mem-push_apart a x (y ∷ ys) (Memᴰ.tail m) = elim (Bool-cases (y == x)) [
  | inl same ↦ rw same m
  | inr other ↦ rw other (Memᴰ.tail m)
]

of-dedup : (a : ℕ) (xs : List ℕ) → Memᴰ a (dedup xs) → Memᴰ a xs
of-dedup a [] m = m
of-dedup a (x ∷ xs) m = later (of-dedup a xs) (of-push_apart a x (dedup xs) m)
  where
    later : (Memᴰ a (dedup xs) → Memᴰ a xs) → Memᴰ a (x ∷ dedup xs) → Memᴰ a (x ∷ xs)
    later rest (Memᴰ.head e) = Memᴰ.head e
    later rest (Memᴰ.tail m') = Memᴰ.tail (rest m')

mem-dedup : (a : ℕ) (xs : List ℕ) → Memᴰ a xs → Memᴰ a (dedup xs)
mem-dedup a [] m = m
mem-dedup a (x ∷ xs) (Memᴰ.head e) = mem-push_apart a x (dedup xs) (Memᴰ.head e)
mem-dedup a (x ∷ xs) (Memᴰ.tail m) = mem-push_apart a x (dedup xs) (Memᴰ.tail (mem-dedup a xs m))

push_apart-IsDistinct :
    (x : ℕ) (ys : List ℕ)
    → All (λ y. leb x y ≡ true) ys
    → IsSorted ℕ_order ys × IsDistinct ys
    → IsSorted ℕ_order (push_apart x ys) × IsDistinct (push_apart x ys)
push_apart-IsDistinct x [] below h = ((tt, tt), ((λ m. elim m [ ]), tt))
push_apart-IsDistinct x (y ∷ ys) below h = elim (Bool-cases (y == x)) [
  | inl same ↦ rw same h
  | inr other ↦ rw other ((below, h.0), (apart other, h.1))
]
  where
    apart : (y == x) ≡ false → ¬ Memᴰ x (y ∷ ys)
    apart other (Memᴰ.head e) = ground (arith, ==_iff y x)
    apart other (Memᴰ.tail m) =
        let after = leb→le y x (All-mem (λ z. leb y z ≡ true) h.0.0 m) in
        let before = leb→le x y below.0 in ground (arith, ==_iff y x)

dedup-IsDistinct :
    (xs : List ℕ) → IsSorted ℕ_order xs → IsSorted ℕ_order (dedup xs) × IsDistinct (dedup xs)
dedup-IsDistinct [] h = (tt, tt)
dedup-IsDistinct (x ∷ xs) h =
    push_apart-IsDistinct x (dedup xs)
      (All-intro (λ y. leb x y ≡ true) (dedup xs)
        (λ a m. All-mem (λ y. leb x y ≡ true) h.0 (of-dedup a xs m)))
      (dedup-IsDistinct xs h.1)

of-leader_cap_ids :
    (a : ℕ) (identities : List IdentityKey)
    → Memᴰ a (leader_cap_ids identities)
    → Memᴰ (leader a) identities
of-leader_cap_ids a [] m = elim m [ ]
of-leader_cap_ids a (leader id ∷ identities) (Memᴰ.head e) = Memᴰ.head (ap leader e)
of-leader_cap_ids a (leader id ∷ identities) (Memᴰ.tail m) =
    Memᴰ.tail (of-leader_cap_ids a identities m)
of-leader_cap_ids a (tool id ∷ identities) m = Memᴰ.tail (of-leader_cap_ids a identities m)

leader_injective : {a b : ℕ} → leader a ≡ leader b → a ≡ b
leader_injective h = ground arith

mem-leader_cap_ids :
    (a : ℕ) (identities : List IdentityKey)
    → Memᴰ (leader a) identities
    → Memᴰ a (leader_cap_ids identities)
mem-leader_cap_ids a [] m = elim m [ ]
mem-leader_cap_ids a (leader id ∷ identities) (Memᴰ.head e) = Memᴰ.head (leader_injective e)
mem-leader_cap_ids a (leader id ∷ identities) (Memᴰ.tail m) =
    Memᴰ.tail (mem-leader_cap_ids a identities m)
mem-leader_cap_ids a (tool id ∷ identities) (Memᴰ.head e) = absurd (cc)
mem-leader_cap_ids a (tool id ∷ identities) (Memᴰ.tail m) = mem-leader_cap_ids a identities m

-- The ids that are listed are distinct, and are those of the leaders.
pub listed-ids :
    (identities : List IdentityKey)
    → IsDistinct (dedup (sort ℕ_order (leader_cap_ids identities)))
      × ((a : ℕ)
          → Memᴰ a (dedup (sort ℕ_order (leader_cap_ids identities))) ↔ Memᴰ (leader a) identities)
listed-ids identities =
    let ids = leader_cap_ids identities in
    (
      (dedup-IsDistinct (sort ℕ_order ids) (sort-IsSorted ℕ_order ids)).1,
      λ a. (
        λ m.
            of-leader_cap_ids a identities
              (mem-Perm (sort-perm ℕ_order ids) (of-dedup a (sort ℕ_order ids) m)),
        λ m.
            mem-dedup a (sort ℕ_order ids)
              (mem-Perm (Permᴰ.symm (sort-perm ℕ_order ids)) (mem-leader_cap_ids a identities m)),
      ),
    )
