-- ===== src/Contracts/Source/Proposal/Files.antt =====
-- engine/contracts/source.ts, validateProposal: the file map under one change.
use forge_ai.Prelude.{
  ℕ, ◌≡◌, refl, inl, inr, true, false, List, [], ◌∷◌, ◌++◌, any, update, same_text, same_text_iff,
  Bool-cases,
}
use forge_ai.Contracts.Source.{File, Change, create, replace, delete, path_of, SourceHashing}
use forge_ai.Contracts.Source.Proposal.{file_at, get, put, remove, apply_change}

other_file :
    (f : File) (a p : List ℕ) → same_text a p ≡ false → file_at a f ≡ true → file_at p f ≡ false
other_file f a p e h = rw ((same_text_iff f.path a).0 h) e

get-update :
    (f : File) (p : List ℕ) (files : List File)
    → same_text f.path p ≡ false
    → get p (update (file_at f.path) (λ x. f) files) ≡ get p files
get-update f p [] e = refl
get-update f p (x ∷ xs) e = elim (Bool-cases (file_at f.path x)) [
  | inl h ↦ rw h (rw e (rw (other_file x f.path p e h) (get-update f p xs e)))
  | inr h ↦
      rw h
        (elim (Bool-cases (file_at p x)) [ inl k ↦ rw k refl | inr k ↦ rw k (get-update f p xs e) ])
]

get-append :
    (f : File) (p : List ℕ) (files : List File)
    → same_text f.path p ≡ false
    → get p (files ++ f ∷ []) ≡ get p files
get-append f p [] e = rw e refl
get-append f p (x ∷ xs) e = elim (Bool-cases (file_at p x)) [
  | inl k ↦ rw k refl
  | inr k ↦ rw k (get-append f p xs e)
]

get-put :
    (f : File) (p : List ℕ) (files : List File)
    → same_text f.path p ≡ false
    → get p (put f files) ≡ get p files
unfolding put
get-put f p files e = elim (Bool-cases (any (file_at f.path) files)) [
  | inl h ↦ rw h (get-update f p files e)
  | inr h ↦ rw h (get-append f p files e)
]

get-remove :
    (a p : List ℕ) (files : List File)
    → same_text a p ≡ false
    → get p (remove a files) ≡ get p files
unfolding remove
get-remove a p [] e = refl
get-remove a p (x ∷ xs) e = elim (Bool-cases (file_at a x)) [
  | inl h ↦ rw h (rw (other_file x a p e h) (get-remove a p xs e))
  | inr h ↦
      rw h
        (elim (Bool-cases (file_at p x)) [ inl k ↦ rw k refl | inr k ↦ rw k (get-remove a p xs e) ])
]

-- A change leaves the files of other paths alone.
pub get-apply_change :
    (h : SourceHashing) (base : List File) (c : Change) (p : List ℕ) (files : List File)
    → same_text (path_of c) p ≡ false
    → get p (apply_change h base c files) ≡ get p files
unfolding apply_change
get-apply_change h base (create a t) p files e = get-put _ p files e
get-apply_change h base (replace a x t) p files e = get-put _ p files e
get-apply_change h base (delete a x) p files e = get-remove a p files e
