-- ===== src/Expired/Members.antt =====
-- sdk/src/nexus/workflow.rs: the entries that the lists of tools and of candidates keep.
use mathlib.Core.Path.{subst}
use nexus_sdk.Prelude.{
  ℕ, ◌≡◌, refl, sym, ap, ◌∙◌, inl, inr, true, some, List, [], ◌∷◌, ◌++◌, Memᴰ, ok, >>=-eq-ok, ◌==◌,
  nat_eq, ==_iff, ok_injective, Bool-cases, lex_leq, ℕ_order,
}
use nexus_sdk.ToolFqn.{ToolFqn, fqn_eq, to_string}
use nexus_sdk.Expired.{Chain, Encoding, ToolGasAbortCandidate, ToolGasAbortCandidateWalk}
use nexus_sdk.Expired.Candidates.{
  CandidateWalks, push_walk, insert_by_fqn, sort_by_fqn, fetch_ref, fetch_refs, find_candidate,
  fetch_tool_gas_refs_for_abort_candidates,
}

abbrev pub HasTool : CandidateWalks → ToolFqn → Type 0
HasTool candidates fqn = (walks : List ToolGasAbortCandidateWalk) × Memᴰ (fqn, walks) candidates

later-HasTool :
    {fqn : ToolFqn} (entry : ToolFqn × List ToolGasAbortCandidateWalk) (candidates : CandidateWalks)
    → HasTool candidates fqn
    → HasTool (entry ∷ candidates) fqn
later-HasTool entry candidates (walks, m) = (walks, Memᴰ.tail m)

pub push_walk-HasTool :
    (fqn : ToolFqn) (walk : ToolGasAbortCandidateWalk) (candidates : CandidateWalks)
    → HasTool (push_walk fqn walk candidates) fqn
push_walk-HasTool fqn walk [] = (walk ∷ [], Memᴰ.head refl)
push_walk-HasTool fqn walk ((f, walks) ∷ rest) = elim (Bool-cases (f == fqn)) [
  | inl same ↦ rw same (
    walks ++ walk ∷ [],
    Memᴰ.head (ap (λ g. (g, walks ++ walk ∷ [])) (sym ((==_iff f fqn).0 same))),
  )
  | inr other ↦
      rw other
        (later-HasTool (f, walks) (push_walk fqn walk rest) (push_walk-HasTool fqn walk rest))
]

pub push_walk-keeps :
    (g fqn : ToolFqn) (walk : ToolGasAbortCandidateWalk) (candidates : CandidateWalks)
    → HasTool candidates g
    → HasTool (push_walk fqn walk candidates) g
push_walk-keeps g fqn walk [] (ws, m) = elim m [ ]
push_walk-keeps g fqn walk ((f, walks) ∷ rest) (ws, Memᴰ.head e) = elim (Bool-cases (f == fqn)) [
  | inl same ↦ rw same (walks ++ walk ∷ [], Memᴰ.head (ap (λ p. (p.0, walks ++ walk ∷ [])) e))
  | inr other ↦ rw other (ws, Memᴰ.head e)
]
push_walk-keeps g fqn walk ((f, walks) ∷ rest) (ws, Memᴰ.tail m) = elim (Bool-cases (f == fqn)) [
  | inl same ↦ rw same (ws, Memᴰ.tail m)
  | inr other ↦
      rw other (
        later-HasTool (f, walks) (push_walk fqn walk rest)
          (push_walk-keeps g fqn walk rest (ws, m)))
]

insert_by_fqn-new :
    (c : ToolGasAbortCandidate) (cs : List ToolGasAbortCandidate) → Memᴰ c (insert_by_fqn c cs)
insert_by_fqn-new c [] = Memᴰ.head refl
insert_by_fqn-new c (f ∷ rest) =
    elim (Bool-cases (lex_leq ℕ_order (to_string c.fqn) (to_string f.fqn))) [
      | inl before ↦ rw before (Memᴰ.head refl)
      | inr after ↦ rw after (Memᴰ.tail (insert_by_fqn-new c rest))
    ]

insert_by_fqn-keeps :
    (c d : ToolGasAbortCandidate) (cs : List ToolGasAbortCandidate)
    → Memᴰ c cs
    → Memᴰ c (insert_by_fqn d cs)
insert_by_fqn-keeps c d [] m = elim m [ ]
insert_by_fqn-keeps c d (f ∷ rest) (Memᴰ.head e) =
    elim (Bool-cases (lex_leq ℕ_order (to_string d.fqn) (to_string f.fqn))) [
      | inl before ↦ rw before (Memᴰ.tail (Memᴰ.head e))
      | inr after ↦ rw after (Memᴰ.head e)
    ]
insert_by_fqn-keeps c d (f ∷ rest) (Memᴰ.tail m) =
    elim (Bool-cases (lex_leq ℕ_order (to_string d.fqn) (to_string f.fqn))) [
      | inl before ↦ rw before (Memᴰ.tail (Memᴰ.tail m))
      | inr after ↦ rw after (Memᴰ.tail (insert_by_fqn-keeps c d rest m))
    ]

sort_by_fqn-mem :
    (c : ToolGasAbortCandidate) (cs : List ToolGasAbortCandidate)
    → Memᴰ c cs
    → Memᴰ c (sort_by_fqn cs)
sort_by_fqn-mem c [] m = elim m [ ]
sort_by_fqn-mem c (d ∷ rest) (Memᴰ.head e) =
    subst (λ x. Memᴰ x (insert_by_fqn d (sort_by_fqn rest))) (sym e)
      (insert_by_fqn-new d (sort_by_fqn rest))
sort_by_fqn-mem c (d ∷ rest) (Memᴰ.tail m) =
    insert_by_fqn-keeps c d (sort_by_fqn rest) (sort_by_fqn-mem c rest m)

abbrev pub Found : ℕ → List ToolGasAbortCandidate → Type 0
Found id cs =
    (d : ToolGasAbortCandidate) × (find_candidate id cs ≡ some d) × (d.tool_gas_ref.object_id ≡ id)

pub find_candidate-mem :
    (c : ToolGasAbortCandidate) (cs : List ToolGasAbortCandidate)
    → Memᴰ c cs
    → Found c.tool_gas_ref.object_id cs
find_candidate-mem c [] m = elim m [ ]
find_candidate-mem c (d ∷ rest) (Memᴰ.head e) =
    let same : (d.tool_gas_ref.object_id == c.tool_gas_ref.object_id) ≡ true =
      (==_iff d.tool_gas_ref.object_id c.tool_gas_ref.object_id).1
        (ap (λ x. x.tool_gas_ref.object_id) (sym e)) in
    (d, rw same refl, (==_iff d.tool_gas_ref.object_id c.tool_gas_ref.object_id).0 same)
find_candidate-mem c (d ∷ rest) (Memᴰ.tail m) =
    elim (Bool-cases (d.tool_gas_ref.object_id == c.tool_gas_ref.object_id)) [
      | inl same ↦
          (d, rw same refl, (==_iff d.tool_gas_ref.object_id c.tool_gas_ref.object_id).0 same)
      | inr other ↦ let (f, found, f_id) = find_candidate-mem c rest m in (f, rw other found, f_id)
    ]

module _ (E : Encoding) (chain : Chain) where
  -- What is fetched for a tool is in the list.
  abbrev pub HasRef : ToolFqn → List ToolGasAbortCandidate → Type 0
  HasRef fqn refs =
      (walks : List ToolGasAbortCandidateWalk) × (c : ToolGasAbortCandidate) × (fetch_ref E chain
          fqn walks
        ≡ ok c)
      × Memᴰ c refs

  fetch_refs-HasRef :
      (fqn : ToolFqn) (candidates : CandidateWalks) (refs : List ToolGasAbortCandidate)
      → HasTool candidates fqn
      → fetch_refs E chain candidates ≡ ok refs
      → HasRef fqn refs
  fetch_refs-HasRef fqn [] refs (walks, m) h = elim m [ ]
  fetch_refs-HasRef fqn ((f, ws) ∷ rest) refs (walks, Memᴰ.head e) h =
      let (c, first, h1) = >>=-eq-ok (fetch_ref E chain f ws) _ h in
      let (cs, others, made) = >>=-eq-ok (fetch_refs E chain rest) _ h1 in
      (
        ws,
        c,
        ap (λ p. fetch_ref E chain p.0 ws) e ∙ first,
        subst (Memᴰ c) (ok_injective made) (Memᴰ.head refl),
      )
  fetch_refs-HasRef fqn ((f, ws) ∷ rest) refs (walks, Memᴰ.tail m) h =
      let (c, first, h1) = >>=-eq-ok (fetch_ref E chain f ws) _ h in
      let (cs, others, made) = >>=-eq-ok (fetch_refs E chain rest) _ h1 in
      let (ws', d, fetched, member) = fetch_refs-HasRef fqn rest cs (walks, m) others in
      (ws', d, fetched, subst (Memᴰ d) (ok_injective made) (Memᴰ.tail member))

  -- The reference of a tool does not depend on the walks that it is fetched for.
  pub fetch_ref-id :
      (fqn : ToolFqn) (ws walks : List ToolGasAbortCandidateWalk) (c d : ToolGasAbortCandidate)
      → fetch_ref E chain fqn ws ≡ ok c
      → fetch_ref E chain fqn walks ≡ ok d
      → c.tool_gas_ref ≡ d.tool_gas_ref
  unfolding fetch_ref
  fetch_ref-id fqn ws walks c d of_c of_d =
      let (i, i_derived, h1) = >>=-eq-ok (E.derive_tool_gas_id fqn) _ of_c in
      let (j, j_derived, h2) = >>=-eq-ok (E.derive_tool_gas_id fqn) _ of_d in
      let (r, i_ref, c_made) = >>=-eq-ok (chain.object_ref i) _ h1 in
      let (s, j_ref, d_made) = >>=-eq-ok (chain.object_ref j) _ h2 in
      let same : i ≡ j = ok_injective (sym i_derived ∙ j_derived) in
      let same_ref : r ≡ s = ok_injective (sym i_ref ∙ ap chain.object_ref same ∙ j_ref) in
      ap (λ x. x.tool_gas_ref) (sym (ok_injective c_made))
      ∙ same_ref
      ∙ ap (λ x. x.tool_gas_ref) (ok_injective d_made)

  pub fetch_tool_gas_refs_for_abort_candidates-HasRef :
      (fqn : ToolFqn) (candidates : CandidateWalks) (refs : List ToolGasAbortCandidate)
      → HasTool candidates fqn
      → fetch_tool_gas_refs_for_abort_candidates E chain candidates ≡ ok refs
      → HasRef fqn refs
  unfolding fetch_tool_gas_refs_for_abort_candidates
  fetch_tool_gas_refs_for_abort_candidates-HasRef fqn candidates refs has h =
      let (unsorted, fetched, made) = >>=-eq-ok (fetch_refs E chain candidates) _ h in
      let (ws, c, first, m) = fetch_refs-HasRef fqn candidates unsorted has fetched in
      (ws, c, first, subst (Memᴰ c) (ok_injective made) (sort_by_fqn-mem c unsorted m))
