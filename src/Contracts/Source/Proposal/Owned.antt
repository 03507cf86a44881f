-- ===== src/Contracts/Source/Proposal/Owned.antt =====
-- engine/contracts/source.ts, validateProposal: what the loop over the changes may touch.
use mathlib.Core.Path.{subst}
use forge_ai.Prelude.{
  ℕ, ◌≡◌, sym, ap, ◌∙◌, arith, inl, inr, Bool, true, false, not, Option, List, [], ◌∷◌, map, All,
  same_text, same_text_iff, Result, ok, throw_if_bind, Bool-cases, not-false, and_true, or_false,
  unowned_path, base_mismatch,
}
use forge_ai.Contracts.Paths.{fold, has, distinct_texts}
use forge_ai.Contracts.Source.{Plan, File, Change, path_of, SourceHashing}
use forge_ai.Contracts.Source.Proposal.{get, owned, expected, apply_change, apply_changes}
use forge_ai.Contracts.Source.Proposal.Files.{get-apply_change}

unprotected :
    (protected : List (List ℕ)) (plan : Plan) (q : List ℕ)
    → owned protected plan q ≡ true
    → has protected (fold q) ≡ false
unfolding owned
unprotected protected plan q w = ground (arith, w)

unowned :
    (protected : List (List ℕ)) (plan : Plan) (q p : List ℕ)
    → owned protected plan q ≡ true
    → has protected (fold p) ≡ true
    → same_text q p ≡ false
unowned protected plan q p w k = elim (Bool-cases (same_text q p)) [
  | inl e ↦ absurd (
      true_false (
        sym k
        ∙ ap (λ t. has protected (fold t)) (sym ((same_text_iff q p).0 e))
        ∙ unprotected protected plan q w))
  | inr e ↦ e
]
  where
    true_false : true ≡ false → ⊥
    true_false e = cc

module _ (h : SourceHashing) (plan : Plan) (protected : List (List ℕ)) (base : List File) where
  -- The first change has passed its tests.
  step :
      (c : Change) (cs : List Change) (files out : List File)
      → apply_changes h plan protected base (c ∷ cs) files ≡ ok out
      → (owned protected plan (path_of c) ≡ true)
        × (expected c (get (path_of c) files) ≡ true)
        × (apply_changes h plan protected base cs (apply_change h base c files) ≡ ok out)
  unfolding apply_changes
  step c cs files out e =
      let (a, e1) = throw_if_bind (not (owned protected plan (path_of c))) unowned_path _ e in
      let (b, e2) = throw_if_bind (not (expected c (get (path_of c) files))) base_mismatch _ e1 in
      (not-false _ a, not-false _ b, e2)

  pub apply_changes-owned :
      (cs : List Change) (files out : List File)
      → apply_changes h plan protected base cs files ≡ ok out
      → All (λ c. owned protected plan (path_of c) ≡ true) cs
  apply_changes-owned [] files out e = tt
  apply_changes-owned (c ∷ cs) files out e =
      let (a, b, rest) = step c cs files out e in
      (a, apply_changes-owned cs (apply_change h base c files) out rest)

  -- The later changes find at their paths what was there before.
  expected-before :
      (c : Change) (cs : List Change) (files : List File)
      → has (map path_of cs) (path_of c) ≡ false
      → All (λ d. expected d (get (path_of d) (apply_change h base c files)) ≡ true) cs
      → All (λ d. expected d (get (path_of d) files) ≡ true) cs
  expected-before c [] files e all_ = tt
  expected-before c (d ∷ ds) files e (x, xs) =
      let (other, others) = or_false (same_text (path_of d) (path_of c)) _ e in
      (
        subst (λ (o : Option File). expected d o ≡ true)
            (get-apply_change h base c (path_of d) files (flip (path_of d) (path_of c) other)) x,
        expected-before c ds files others xs,
      )
    where
      flip : (a b : List ℕ) → same_text a b ≡ false → same_text b a ≡ false
      flip a b q = ground (arith, same_text_iff a b, same_text_iff b a)

  pub apply_changes-expected :
      (cs : List Change) (files out : List File)
      → distinct_texts (map path_of cs) ≡ true
      → apply_changes h plan protected base cs files ≡ ok out
      → All (λ c. expected c (get (path_of c) files) ≡ true) cs
  unfolding distinct_texts
  apply_changes-expected [] files out d e = tt
  apply_changes-expected (c ∷ cs) files out d e =
      let (a, b, rest) = step c cs files out e in
      let (fresh, others) = and_true (not (has (map path_of cs) (path_of c))) _ d in
      (
        b,
        expected-before c cs files (not-true _ fresh)
            (apply_changes-expected cs (apply_change h base c files) out others rest),
      )
    where
      not-true : (x : Bool) → not x ≡ true → x ≡ false
      not-true x q = ground (arith, q)

  -- A path that no change may own keeps its file.
  pub apply_changes-protected :
      (cs : List Change) (files out : List File) (p : List ℕ)
      → has protected (fold p) ≡ true
      → apply_changes h plan protected base cs files ≡ ok out
      → get p out ≡ get p files
  unfolding apply_changes
  apply_changes-protected [] files out p k e = ap (get p) (sym (same_ok e))
    where
      same_ok : ◌≡◌ {A = Result (List File)} (ok files) (ok out) → files ≡ out
      same_ok q = cc
  apply_changes-protected (c ∷ cs) files out p k e =
      let (a, b, rest) = step c cs files out e in
      apply_changes-protected cs (apply_change h base c files) out p k rest
      ∙ get-apply_change h base c p files (unowned protected plan (path_of c) p a k)
