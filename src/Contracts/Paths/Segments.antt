-- ===== src/Contracts/Paths/Segments.antt =====
-- engine/contracts/paths.ts: no accepted path leaves its directory.
use forge_ai.Prelude.{
  ℕ, ◌≡◌, refl, ap, sym, ◌∙◌, Bool, true, false, ◌&&◌, List, [], ◌∷◌, ◌++◌, arith, all, codes,
  Bool-cases, inl, inr, ◌==◌, and_true,
}
use forge_ai.Contracts.Paths.{slash, split, cons_head, segment_ok, is_source_path}

split-cons : (a : List ℕ) → (s : List ℕ) × (ss : List (List ℕ)) × (split a ≡ s ∷ ss)
unfolding split
split-cons [] = ([], [], refl)
split-cons (c ∷ a) = elim (Bool-cases (c == slash)) [
  | inl e ↦ ([], split a, rw e)
  | inr e ↦ let (s, ss, q) = split-cons a in (c ∷ s, ss, rw e (ap (cons_head c) q))
]

cons_head-append :
    (c : ℕ) (a : List ℕ) (t : List (List ℕ))
    → cons_head c (split a ++ t) ≡ cons_head c (split a) ++ t
cons_head-append c a t = let (s, ss, q) = split-cons a in rw q

-- Splitting at a slash splits the parts.
pub split-append : (a s : List ℕ) → split (a ++ slash ∷ s) ≡ split a ++ split s
unfolding split
split-append [] s = refl
split-append (c ∷ a) s = elim (Bool-cases (c == slash)) [
  | inl e ↦ rw e (ap (λ t. [] ∷ t) (split-append a s))
  | inr e ↦ rw e (ap (cons_head c) (split-append a s) ∙ cons_head-append c a (split s))
]

all-append : (p : List ℕ → Bool) (xs ys : List (List ℕ)) → all p (xs ++ ys) ≡ (all p xs && all p ys)
all-append p [] ys = refl
all-append p (x ∷ xs) ys = ground (arith, all-append p xs ys)

source_segments : (path : List ℕ) → is_source_path path ≡ true → all segment_ok (split path) ≡ true
unfolding is_source_path
source_segments path e = ground arith

tail_segments :
    (a s : List ℕ) → is_source_path (a ++ slash ∷ s) ≡ true → all segment_ok (split s) ≡ true
tail_segments a s e =
    (and_true _ _ (
      sym (all-append segment_ok (split a) (split s))
      ∙ ap (all segment_ok) (sym (split-append a s))
      ∙ source_segments (a ++ slash ∷ s) e)).1

dots_first : (b : List ℕ) → all segment_ok (split (codes "../" ++ b)) ≡ false
unfolding segment_ok split
dots_first b = refl

dots_only : all segment_ok (split (codes "..")) ≡ false
unfolding segment_ok split
dots_only = refl

refuse : (path : List ℕ) → (is_source_path path ≡ true → ⊥) → is_source_path path ≡ false
refuse path f = elim (Bool-cases (is_source_path path)) [ inl e ↦ absurd (f e) | inr e ↦ e ]

differ : {b : Bool} → b ≡ true → b ≡ false → ⊥
differ p q = cc

-- No accepted path climbs out of its directory: it is not ".." itself, and ".." is neither its first
-- segment, nor one between two slashes, nor its last one.
pub no_traversal :
    (a b : List ℕ)
    → (is_source_path (codes "..") ≡ false)
      × (is_source_path (codes "../" ++ b) ≡ false)
      × (is_source_path (a ++ (slash ∷ codes "../" ++ b)) ≡ false)
      × (is_source_path (a ++ (slash ∷ codes "..")) ≡ false)
no_traversal a b = (
  refuse _ (λ e. differ (source_segments _ e) dots_only),
  refuse _ (λ e. differ (source_segments _ e) (dots_first b)),
  refuse _ (λ e. differ (tail_segments a _ e) (dots_first b)),
  refuse _ (λ e. differ (tail_segments a _ e) dots_only),
)
