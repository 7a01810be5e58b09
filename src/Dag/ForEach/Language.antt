-- ===== src/Dag/ForEach/Language.antt =====
-- The words of edge kinds that the automaton of `validate_for_each_pairs` accepts.
use nexus_sdk.Prelude.{ℕ, ◌≡◌, ◌≢◌, refl, ap, List, [], ◌∷◌, ◌++◌, ok, All}
use mathlib.Core.Path.{subst}
use nexus_sdk.Dag.Spec.{EdgeKind, normal, for_each, collect, do_while, break, static}
use nexus_sdk.Dag.ForEach.{ForEachState, idle, in_for_each, next_state, at_end}

-- Every for-each is closed by a collect, with nothing but normal edges between the two.
pub data Paired : List EdgeKind → Type 0 where
  done : Paired []
  plain :
      {w : List EdgeKind} (k : EdgeKind) → k ≢ for_each → k ≢ collect → Paired w → Paired (k ∷ w)
  loop :
      {w : List EdgeKind} (body rest : List EdgeKind)
      → w ≡ body ++ collect ∷ rest
      → All (λ k. k ≡ normal) body
      → Paired rest
      → Paired (for_each ∷ w)

-- The rest of a word that is inside a loop.
pub record Closes (w : List EdgeKind) : Type 0 where
  pub body : List EdgeKind
  pub rest : List EdgeKind
  pub split : w ≡ body ++ collect ∷ rest
  pub plain_body : All (λ k. k ≡ normal) body
  pub paired : Paired rest

abbrev pub Accepts : ForEachState → List EdgeKind → Type 0
Accepts idle w = Paired w
Accepts in_for_each w = Closes w

not-Closes-nil : (body rest : List EdgeKind) → ¬ ([] ≡ body ++ collect ∷ rest)
not-Closes-nil [] rest = cc
not-Closes-nil (b ∷ bs) rest = cc

module _ (node : ℕ) where
  pub Accepts-end : (s : ForEachState) → at_end node s ≡ ok tt → Accepts s []
  unfolding at_end
  Accepts-end idle h = done
  Accepts-end in_for_each h = cc

  pub end-of_Accepts : (s : ForEachState) → Accepts s [] → at_end node s ≡ ok tt
  unfolding at_end
  end-of_Accepts idle a = refl
  end-of_Accepts in_for_each a = absurd (not-Closes-nil a.body a.rest a.split)

  pub Accepts-step :
      (s s' : ForEachState) (k : EdgeKind) (w : List EdgeKind)
      → next_state node s k ≡ ok s'
      → Accepts s' w
      → Accepts s (k ∷ w)
  unfolding next_state
  Accepts-step idle idle static w h a = plain static (cc) (cc) a
  Accepts-step idle idle normal w h a = plain normal (cc) (cc) a
  Accepts-step idle idle do_while w h a = plain do_while (cc) (cc) a
  Accepts-step idle idle break w h a = plain break (cc) (cc) a
  Accepts-step idle in_for_each for_each w h a = loop a.body a.rest a.split a.plain_body a.paired
  Accepts-step in_for_each in_for_each normal w h a = record {
    body = normal ∷ a.body;
    rest = a.rest;
    split = ap (λ v. normal ∷ v) a.split;
    plain_body = (refl, a.plain_body);
    paired = a.paired;
  }
  Accepts-step in_for_each idle collect w h a = record {
    body = [];
    rest = w;
    split = refl;
    plain_body = tt;
    paired = a;
  }
  Accepts-step _ _ _ w h a = cc

  closes-step :
      (k : EdgeKind) (w body rest : List EdgeKind)
      → k ∷ w ≡ body ++ collect ∷ rest
      → All (λ k. k ≡ normal) body
      → Paired rest
      → (s' : ForEachState) × (next_state node in_for_each k ≡ ok s') × Accepts s' w
  unfolding next_state
  closes-step k w [] rest e n p =
      let ek : k ≡ collect = cc in let ew : rest ≡ w = cc in (idle, rw ek, subst Paired ew p)
  closes-step k w (b ∷ bs) rest e n p =
      let ek : k ≡ normal = cc (n.0) in
      let ew : w ≡ bs ++ collect ∷ rest = cc in
      (
        in_for_each,
        rw ek,
        record { body = bs; rest = rest; split = ew; plain_body = n.1; paired = p },
      )

  pub step-of_Accepts :
      (s : ForEachState) (k : EdgeKind) (w : List EdgeKind)
      → Accepts s (k ∷ w)
      → (s' : ForEachState) × (next_state node s k ≡ ok s') × Accepts s' w
  unfolding next_state
  step-of_Accepts idle for_each w (plain _ p q a) = absurd (p refl)
  step-of_Accepts idle for_each w (loop body rest e n p) = (
    in_for_each,
    refl,
    record { body = body; rest = rest; split = e; plain_body = n; paired = p },
  )
  step-of_Accepts idle collect w (plain _ p q a) = absurd (q refl)
  step-of_Accepts idle normal w (plain _ p q a) = (idle, refl, a)
  step-of_Accepts idle do_while w (plain _ p q a) = (idle, refl, a)
  step-of_Accepts idle break w (plain _ p q a) = (idle, refl, a)
  step-of_Accepts idle static w (plain _ p q a) = (idle, refl, a)
  step-of_Accepts in_for_each k w a = closes-step k w a.body a.rest a.split a.plain_body a.paired
