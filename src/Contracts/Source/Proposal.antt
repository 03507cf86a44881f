-- ===== src/Contracts/Source/Proposal.antt =====
-- engine/contracts/source.ts, validateProposal: the changes of a proposal, played on the base.
--
-- The file map is an association list in the order of insertion, as a JavaScript map keeps it.
pub mod Accepted
pub mod Files
pub mod Owned
mod Tests
use forge_ai.Prelude.{
  ℕ, ◌+◌, Bool, true, false, ◌&&◌, ◌||◌, not, Option, none, some, List, [], ◌∷◌, ◌++◌, map, ltb,
  ◌==◌, ◌!=◌, same_bool, if◌then◌else◌, is_some, length, all, any, keep, find, update, total,
  same_text, Result, ok, ◌>>=◌, ◌>>◌, throw_if, invalid, template_mismatch, incomplete_proposal,
  operation_cap, batch_mismatch, unowned_path, base_mismatch, source_cap,
}
use forge_ai.Contracts.Primitives.{source_bytes, max_files, max_operations, utf8_bytes}
use forge_ai.Contracts.Paths.{fold, has, is_source_path, assert_unique_paths}
use forge_ai.Contracts.Source.{
  Plan, FileTask, Manifest, File, text_plain, Change, create, replace, delete, path_of, FileBatch,
  SourceHashing, plan_schema, manifest_schema, file_batch_schema, bytes_of,
}

abbrev pub file_at : List ℕ → File → Bool
file_at path f = same_text f.path path

-- `files.get(path)`
abbrev pub get : List ℕ → List File → Option File
get path files = find (file_at path) files

-- `files.set(path, file)`
unfoldable pub put : File → List File → List File
put f files =
    if any (file_at f.path) files then update (file_at f.path) (λ x. f) files else files ++ f ∷ []

-- `files.delete(path)`
unfoldable pub remove : List ℕ → List File → List File
remove path files = keep (λ f. not (file_at path f)) files

-- The path of a change is neither protected nor outside the tasks of the plan.
unfoldable pub owned : List (List ℕ) → Plan → List ℕ → Bool
owned protected plan path =
    not (has protected (fold path)) && any (λ (t : FileTask). same_text t.path path) plan.file_tasks

-- The file that a change expects: none for a new one, else one with the expected content.
unfoldable pub expected : Change → Option File → Bool
expected (create p c) prior = not (is_some prior)
expected (replace p e c) none = false
expected (replace p e c) (some f) = f.sha256 == e
expected (delete p e) none = false
expected (delete p e) (some f) = f.sha256 == e

-- `prior?.blobId ?? base.files[0].blobId`
abbrev blob_of : Option File → List File → ℕ
blob_of (some f) base = f.blob_id
blob_of none [] = 0
blob_of none (f ∷ fs) = f.blob_id

abbrev written : SourceHashing → List File → Option File → (path content : List ℕ) → File
written h base prior path content = record {
  path = path;
  blob_id = blob_of prior base;
  sha256 = h.text_hash content;
  bytes = utf8_bytes content;
  media_type = text_plain;
}

unfoldable pub apply_change : SourceHashing → List File → Change → List File → List File
unfolding put remove
apply_change h base (create p c) files = put (written h base (get p files) p c) files
apply_change h base (replace p e c) files = put (written h base (get p files) p c) files
apply_change h base (delete p e) files = remove p files

-- The loop over the changes.
unfoldable pub apply_changes :
    SourceHashing → Plan → List (List ℕ) → List File → List Change → List File → Result (List File)
unfolding owned expected apply_change
apply_changes h plan protected base [] files = ok files
apply_changes h plan protected base (c ∷ cs) files = do
  throw_if (not (owned protected plan (path_of c))) unowned_path
  throw_if (not (expected c (get (path_of c) files))) base_mismatch
  apply_changes h plan protected base cs (apply_change h base c files)

-- The batches are numbered in order, the last one is final, and each is bound to the plan and the base.
unfoldable pub batches_bound : SourceHashing → Plan → Manifest → ℕ → ℕ → List FileBatch → Bool
batches_bound h plan base count i [] = true
batches_bound h plan base count i (b ∷ bs) =
    b.batch_index == i
    && same_bool b.final_batch (i + 1 == count)
    && b.plan_digest == h.plan_hash plan
    && b.base_manifest_digest == h.manifest_hash base
    && batches_bound h plan base count (i + 1) bs

abbrev pub changes_of : List FileBatch → List Change
changes_of [] = []
changes_of (b ∷ bs) = b.changes ++ changes_of bs

-- The files that the proposal leaves, within the caps.
unfoldable pub check_result : List File → Result (Unit {0})
check_result files = do
  assert_unique_paths (map (λ (f : File). f.path) files)
  throw_if (ltb max_files (length files) || ltb source_bytes (total bytes_of files)) source_cap

unfoldable pub validate_proposal :
    SourceHashing → Plan → Manifest → List FileBatch → List (List ℕ) → Result (List FileBatch)
unfolding plan_schema manifest_schema file_batch_schema batches_bound apply_changes check_result
validate_proposal h plan base batches protected = do
  throw_if (not (plan_schema h plan)) invalid
  throw_if (not (manifest_schema h base)) invalid
  throw_if
      (base.template_digest != plan.template_digest || base.preset_digest != plan.preset_digest)
      template_mismatch
  throw_if (not (all (file_batch_schema h) batches)) invalid
  throw_if (length batches == 0 || ltb 100 (length batches)) incomplete_proposal
  throw_if (ltb max_operations (length (changes_of batches))) operation_cap
  assert_unique_paths (map path_of (changes_of batches))
  throw_if (not (all is_source_path protected)) invalid
  throw_if (not (batches_bound h plan base (length batches) 0 batches)) batch_mismatch
  files ← apply_changes h plan (map fold protected) base.files (changes_of batches) base.files
  check_result files
  ok batches
