-- ===== src/Contracts/Paths/Unique.antt =====
-- engine/contracts/paths.ts: what `assertUniquePaths` rules out.
use forge_ai.Prelude.{
  ℕ, ◌≡◌, ◌≢◌, refl, sym, ◌∙◌, Bool, true, false, not, List, [], ◌∷◌, ◌++◌, map, arith, all, any,
  Bool-cases, inl, inr, ◌==◌, and_true, not-false, same_text, same_text_iff, ok, throw_if, ◌>>◌,
  Fault, invalid, duplicate_path, path_collision,
}
use forge_ai.Contracts.Paths.{
  slash, fold, is_source_path, ancestors, has, distinct_texts, collides, assert_unique_paths,
}

has-map : (c : ℕ) (qs : List (List ℕ)) (p : List ℕ) → has (map (λ q. c ∷ q) qs) (c ∷ p) ≡ has qs p
has-map c [] p = refl
has-map c (q ∷ qs) p = ground (arith, has-map c qs p)

-- The text before a slash is an ancestor.
has-ancestors : (p r : List ℕ) → has (ancestors (p ++ slash ∷ r)) p ≡ true
unfolding ancestors
has-ancestors [] r = refl
has-ancestors (c ∷ p) r =
    let there = has-map c (ancestors (p ++ slash ∷ r)) p ∙ has-ancestors p r in
    elim (Bool-cases (c == slash)) [ inl e ↦ rw e there | inr e ↦ rw e there ]

any-has :
    (f : List ℕ → Bool) (qs : List (List ℕ)) (p : List ℕ)
    → has qs p ≡ true
    → f p ≡ true
    → any f qs ≡ true
any-has f [] p h k = cc
any-has f (q ∷ qs) p h k = elim (Bool-cases (same_text q p)) [
  | inl e ↦ rw ((same_text_iff q p).0 e) (rw k refl)
  | inr e ↦ ground (arith, any-has f qs p)
]

guards_pass :
    (a b c : Bool) (e f g : Fault)
    → (throw_if a e >> (throw_if b f >> throw_if c g)) ≡ ok tt
    → (b ≡ false) × (c ≡ false)
guards_pass a b c e f g h = ground arith

accepted :
    (ps : List (List ℕ))
    → assert_unique_paths ps ≡ ok tt
    → (distinct_texts (map fold ps) ≡ true) × (any (collides (map fold ps)) (map fold ps) ≡ false)
unfolding assert_unique_paths
accepted ps e =
    let (d, c) =
      guards_pass (not (all is_source_path ps)) (not (distinct_texts (map fold ps)))
        (any (collides (map fold ps)) (map fold ps)) invalid duplicate_path path_collision e in
    (not-false _ d, c)

contrary {ℓ} : {A : Type ℓ} {b : Bool} → b ≡ true → b ≡ false → A
contrary p q = absurd (differ p q)
  where
    differ : {b : Bool} → b ≡ true → b ≡ false → ⊥
    differ p q = cc

-- In an accepted list no path, in lower case, is a directory of another.
pub assert_unique_paths_no_directory :
    (ps : List (List ℕ)) (p r : List ℕ)
    → assert_unique_paths ps ≡ ok tt
    → has (map fold ps) p ≡ true
    → has (map fold ps) (p ++ slash ∷ r) ≡ false
unfolding collides
assert_unique_paths_no_directory ps p r e h =
    elim (Bool-cases (has (map fold ps) (p ++ slash ∷ r))) [
      | inl there ↦
          contrary
            (any-has (collides (map fold ps)) (map fold ps) (p ++ slash ∷ r) there
              (any-has (has (map fold ps)) (ancestors (p ++ slash ∷ r)) p (has-ancestors p r) h))
            (accepted ps e).1
      | inr free ↦ free
    ]

not-true : (b : Bool) → not b ≡ true → b ≡ false
not-true b h = ground arith

later :
    (ys zs : List (List ℕ)) (p q : List ℕ)
    → fold q ≡ fold p
    → has (map fold (ys ++ (q ∷ zs))) (fold p) ≡ true
later [] zs p q e = ground (arith, same_text_iff (fold q) (fold p))
later (y ∷ ys) zs p q e = ground (arith, later ys zs p q e)

distinct_pair :
    (xs ys zs : List (List ℕ)) (p q : List ℕ)
    → distinct_texts (map fold (xs ++ (p ∷ (ys ++ (q ∷ zs))))) ≡ true
    → fold p ≢ fold q
unfolding distinct_texts
distinct_pair [] ys zs p q d =
    λ e. contrary (later ys zs p q (sym e)) (not-true _ (and_true _ _ d).0)
distinct_pair (x ∷ xs) ys zs p q d = distinct_pair xs ys zs p q (and_true _ _ d).1

-- No two paths of an accepted list are the same in lower case.
pub assert_unique_paths_distinct :
    (xs ys zs : List (List ℕ)) (p q : List ℕ)
    → assert_unique_paths (xs ++ (p ∷ (ys ++ (q ∷ zs)))) ≡ ok tt
    → fold p ≢ fold q
assert_unique_paths_distinct xs ys zs p q e =
    distinct_pair xs ys zs p q (accepted (xs ++ (p ∷ (ys ++ (q ∷ zs)))) e).0
