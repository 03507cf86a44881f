-- ===== src/Contracts/Source/Proposal/Accepted.antt =====
-- engine/contracts/source.ts, validateProposal: what an accepted proposal is.
use mathlib.Core.Path.{subst}
use forge_ai.Prelude.{
  ℕ, ◌+◌, is_some, same_bool, none, some, ◌&&◌, ◌≤◌, ◌≡◌, refl, arith, inl, inr, Bool, true, false,
  ◌||◌, not, Option, List, [], ◌∷◌, map, ltb, ◌==◌, ◌!=◌, length, all, any, total, All, same_text,
  same_text_iff, Result, ok, ◌>>=◌, ◌>>◌, throw_if, Fault, throw_if_bind, >>=-eq-ok, Bool-cases,
  not-false, and_true, or_false, invalid, template_mismatch, incomplete_proposal, operation_cap,
  batch_mismatch, source_cap,
}
use forge_ai.Contracts.Primitives.{source_bytes, max_files, max_operations}
use forge_ai.Contracts.Paths.{fold, has, is_source_path, assert_unique_paths, distinct_texts}
use forge_ai.Contracts.Source.{
  Plan, FileTask, Manifest, File, Change, create, replace, delete, path_of, FileBatch,
  SourceHashing, plan_schema, manifest_schema, file_batch_schema, bytes_of,
}
use forge_ai.Contracts.Source.Proposal.{
  get, owned, expected, apply_changes, batches_bound, changes_of, check_result, validate_proposal,
}
use forge_ai.Contracts.Source.Proposal.Owned.{
  apply_changes-owned, apply_changes-expected, apply_changes-protected,
}

has-fold : (ps : List (List ℕ)) (p : List ℕ) → has (map fold ps) (fold p) ≡ false → has ps p ≡ false
has-fold [] p e = refl
has-fold (q ∷ qs) p e =
    let (a, b) = or_false (same_text (fold q) (fold p)) _ e in
    elim (Bool-cases (same_text q p)) [
      | inl h ↦ absurd (
          self (fold p)
            (subst (λ t. same_text (fold t) (fold p) ≡ false) ((same_text_iff q p).0 h) a))
      | inr h ↦ rw h (has-fold qs p b)
    ]
  where
    self : (t : List ℕ) → same_text t t ≡ false → ⊥
    self t q = ground (arith, same_text_iff t t)

distinct_texts-fold :
    (ps : List (List ℕ)) → distinct_texts (map fold ps) ≡ true → distinct_texts ps ≡ true
unfolding distinct_texts
distinct_texts-fold [] e = refl
distinct_texts-fold (p ∷ ps) e =
    let (a, b) = and_true (not (has (map fold ps) (fold p))) _ e in
    rw (has-fold ps p (not-true _ a)) (distinct_texts-fold ps b)
  where
    not-true : (x : Bool) → not x ≡ true → x ≡ false
    not-true x q = ground (arith, q)

unique-distinct : (ps : List (List ℕ)) → assert_unique_paths ps ≡ ok tt → distinct_texts ps ≡ true
unfolding assert_unique_paths
unique-distinct ps e =
    let (a, e1) = throw_if_bind (not (all is_source_path ps)) invalid _ e in
    let (b, e2) = throw_if_bind (not (distinct_texts (map fold ps))) _ _ e1 in
    distinct_texts-fold ps (not-false _ b)

-- What a change finds at its path: nothing where it creates, and the content that it names where it
-- replaces or deletes.
abbrev pub Finds : Change → Option File → Type 0
Finds (create p c) prior = prior ≡ none
Finds (replace p x c) prior = (f : File) × (prior ≡ some f) × (f.sha256 ≡ x)
Finds (delete p x) prior = (f : File) × (prior ≡ some f) × (f.sha256 ≡ x)

-- A path that the plan has a task for, and that is none of the protected ones in any case.
abbrev pub Tasked : Plan → List (List ℕ) → List ℕ → Type 0
Tasked plan protected path =
    (has protected (fold path) ≡ false)
    × (any (λ (t : FileTask). same_text t.path path) plan.file_tasks ≡ true)

-- Batches that are numbered from a number on, and bound to a plan and a base.
abbrev pub Numbered : SourceHashing → Plan → Manifest → ℕ → List FileBatch → Type 0
Numbered h plan base i [] = Unit
Numbered h plan base i (b ∷ bs) =
    (b.batch_index ≡ i)
    × (b.plan_digest ≡ h.plan_hash plan)
    × (b.base_manifest_digest ≡ h.manifest_hash base)
    × Numbered h plan base (i + 1) bs

no_file : (o : Option File) → not (is_some o) ≡ true → o ≡ none
no_file o e = ground (arith, e)

same_content : (a b : ℕ) → (a == b) ≡ true → a ≡ b
same_content a b e = ground (arith, e)

expected-Finds : (c : Change) (o : Option File) → expected c o ≡ true → Finds c o
unfolding expected
expected-Finds (create p c) o e = no_file o e
expected-Finds (replace p x c) none e = absurd (ground (arith, e))
expected-Finds (replace p x c) (some f) e = (f, refl, same_content f.sha256 x e)
expected-Finds (delete p x) none e = absurd (ground (arith, e))
expected-Finds (delete p x) (some f) e = (f, refl, same_content f.sha256 x e)

owned-Tasked :
    (protected : List (List ℕ)) (plan : Plan) (path : List ℕ)
    → owned protected plan path ≡ true
    → Tasked plan protected path
unfolding owned
owned-Tasked protected plan path e = ground (arith, e)

five_true :
    (a b c d e : Bool)
    → (a && b && c && d && e) ≡ true
    → (a ≡ true) × (b ≡ true) × (c ≡ true) × (d ≡ true) × (e ≡ true)
five_true a b c d e q = ground (arith, q)

batches_bound-Numbered :
    (h : SourceHashing) (plan : Plan) (base : Manifest) (n i : ℕ) (bs : List FileBatch)
    → batches_bound h plan base n i bs ≡ true
    → Numbered h plan base i bs
unfolding batches_bound
batches_bound-Numbered h plan base n i [] e = tt
batches_bound-Numbered h plan base n i (b ∷ bs) e =
    let (a1, a2, a3, a4, rest) =
      five_true (b.batch_index == i) (same_bool b.final_batch (i + 1 == n))
        (b.plan_digest == h.plan_hash plan) (b.base_manifest_digest == h.manifest_hash base)
        (batches_bound h plan base n (i + 1) bs) e in
    (
      same_content b.batch_index i a1,
      same_content b.plan_digest (h.plan_hash plan) a3,
      same_content b.base_manifest_digest (h.manifest_hash base) a4,
      batches_bound-Numbered h plan base n (i + 1) bs rest,
    )

All-map :
    {P Q : Change → Type 0} (f : (c : Change) → P c → Q c) (cs : List Change) → All P cs → All Q cs
All-map f [] h = tt
All-map f (c ∷ cs) (h, hs) = (f c h, All-map f cs hs)

-- A proposal that is accepted, and the files that it leaves.
pub record Accepted (h : SourceHashing) (plan : Plan) (base : Manifest) (batches : List FileBatch)
    (protected : List (List ℕ)) (files : List File) : Type 0 where
  pub bound : Numbered h plan base 0 batches
  pub played :
      apply_changes h plan (map fold protected) base.files (changes_of batches) base.files
      ≡ ok files
  pub tasked : All (λ c. Tasked plan (map fold protected) (path_of c)) (changes_of batches)
  pub finds : All (λ c. Finds c (get (path_of c) base.files)) (changes_of batches)
  pub unique : assert_unique_paths (map (λ (f : File). f.path) files) ≡ ok tt
  pub counted : length files ≤ max_files
  pub sized : total bytes_of files ≤ source_bytes

capped : (a b c d : ℕ) → (ltb a b || ltb c d) ≡ false → (b ≤ a) × (d ≤ c)
capped a b c d e = ground (arith, e)

not_thrown : (b : Bool) (x : Fault) → throw_if b x ≡ ok tt → b ≡ false
not_thrown b x e = ground (arith, e)

check_result-ok :
    (files : List File)
    → check_result files ≡ ok tt
    → (assert_unique_paths (map (λ (f : File). f.path) files) ≡ ok tt)
      × (length files ≤ max_files)
      × (total bytes_of files ≤ source_bytes)
unfolding check_result
check_result-ok files e =
    let over = ltb max_files (length files) || ltb source_bytes (total bytes_of files) in
    let (u, e0, e1) =
      >>=-eq-ok (assert_unique_paths (map (λ (f : File). f.path) files))
        (λ x. throw_if over source_cap) e in
    let (few, small) =
      capped max_files (length files) source_bytes (total bytes_of files)
        (not_thrown over source_cap e1) in
    (e0, few, small)

-- An accepted proposal gives back its batches, which are numbered in order and bound to the plan and
-- the base. Each of its changes is at a path that the plan has a task for and that is not
-- protected, and found in the base what it expects: no file to create, or the content to
-- replace or delete. The files that it leaves do not collide and are within the caps.
pub validate_proposal-Accepted :
    (h : SourceHashing) (plan : Plan) (base : Manifest) (batches accepted : List FileBatch)
    (protected : List (List ℕ))
    → validate_proposal h plan base batches protected ≡ ok accepted
    → (accepted ≡ batches) × (files : List File) × Accepted h plan base batches protected files
unfolding validate_proposal
validate_proposal-Accepted h plan base batches accepted protected e =
    let checked_rest =
      throw_if (not (all is_source_path protected)) invalid
      >> (throw_if (not (batches_bound h plan base (length batches) 0 batches)) batch_mismatch
          >> (apply_changes h plan (map fold protected) base.files (changes_of batches) base.files
              >>= λ fs. check_result fs >> ok batches)) in
    let (a1, e1) = throw_if_bind (not (plan_schema h plan)) invalid _ e in
    let (a2, e2) = throw_if_bind (not (manifest_schema h base)) invalid _ e1 in
    let (a3, e3) =
      throw_if_bind
        (base.template_digest != plan.template_digest || base.preset_digest != plan.preset_digest)
        template_mismatch _ e2 in
    let (a4, e4) = throw_if_bind (not (all (file_batch_schema h) batches)) invalid _ e3 in
    let (a5, e5) =
      throw_if_bind (length batches == 0 || ltb 100 (length batches)) incomplete_proposal _ e4 in
    let (a6, e6) =
      throw_if_bind (ltb max_operations (length (changes_of batches))) operation_cap _ e5 in
    let (u, a7, e7) =
      >>=-eq-ok (assert_unique_paths (map path_of (changes_of batches))) (λ x. checked_rest) e6 in
    let (a8, e8) = throw_if_bind (not (all is_source_path protected)) invalid _ e7 in
    let (a9, e9) =
      throw_if_bind (not (batches_bound h plan base (length batches) 0 batches)) batch_mismatch _
        e8 in
    let (files, played, e10) =
      >>=-eq-ok
        (apply_changes h plan (map fold protected) base.files (changes_of batches) base.files)
        (λ fs. check_result fs >> ok batches) e9 in
    let (v, a11, e11) = >>=-eq-ok (check_result files) (λ x. ok batches) e10 in
    let (unique, counted, sized) = check_result-ok files a11 in
    (
      same_ok e11,
      files,
      record {
        bound = batches_bound-Numbered h plan base (length batches) 0 batches (not-false _ a9);
        played = played;
        tasked =
            All-map (λ c q. owned-Tasked (map fold protected) plan (path_of c) q)
              (changes_of batches)
              (apply_changes-owned h plan (map fold protected) base.files (changes_of batches)
                base.files files played);
        finds =
            All-map (λ c q. expected-Finds c (get (path_of c) base.files) q) (changes_of batches)
              (apply_changes-expected h plan (map fold protected) base.files (changes_of batches)
                base.files files (unique-distinct (map path_of (changes_of batches)) a7) played);
        unique = unique;
        counted = counted;
        sized = sized;
      },
    )
  where
    same_ok : ◌≡◌ {A = Result (List FileBatch)} (ok batches) (ok accepted) → accepted ≡ batches
    same_ok q = cc

-- A proposal that is accepted leaves every protected file as it is in the base, whatever the case of
-- its path is written in.
pub validate_proposal-protected :
    (h : SourceHashing) (plan : Plan) (base : Manifest) (batches accepted : List FileBatch)
    (protected : List (List ℕ)) (p : List ℕ)
    → has (map fold protected) (fold p) ≡ true
    → validate_proposal h plan base batches protected ≡ ok accepted
    → (files : List File) × (apply_changes h plan
          (map fold protected)
          base.files
          (changes_of batches)
          base.files
        ≡ ok files)
      × (get p files ≡ get p base.files)
validate_proposal-protected h plan base batches accepted protected p k e =
    let (same, files, d) = validate_proposal-Accepted h plan base batches accepted protected e in
    (
      files,
      d.played,
      apply_changes-protected h plan (map fold protected) base.files (changes_of batches) base.files
          files p k d.played,
    )
