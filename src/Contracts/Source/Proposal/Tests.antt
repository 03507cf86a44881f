-- ===== src/Contracts/Source/Proposal/Tests.antt =====
-- engine/contracts/source.ts, validateProposal: a page that is replaced beside a protected file.
use forge_ai.Prelude.{ℕ, ◌≡◌, refl, true, none, List, [], ◌∷◌, ok, codes, map}
use forge_ai.Contracts.Source.{
  Plan, Manifest, File, FileBatch, SourceHashing, fixture, text_plain, replace, plan_schema,
  manifest_schema, file_batch_schema, change_schema, text_content, migrations_ok,
}
use forge_ai.Contracts.Primitives.{utf8_bytes, well_formed, required_checks, resources_schema}
use forge_ai.Contracts.Paths.{
  fold, is_source_path, segment_ok, split, stem, reserved_device, numbered, secret_name, allowed,
  is_generated_path, distinct_texts, collides, ancestors, assert_unique_paths,
}
use forge_ai.Contracts.Source.Proposal.{
  get, put, remove, owned, expected, apply_change, apply_changes, batches_bound, changes_of,
  check_result, validate_proposal,
}
use forge_ai.Contracts.Source.Proposal.Accepted.{
  Accepted, validate_proposal-Accepted, validate_proposal-protected,
}
use forge_ai.Fixtures.{checks, resources}

abbrev hashes : SourceHashing
hashes = record {
  plan_hash = λ p. 90;
  manifest_hash = λ m. 91;
  text_hash = λ t. 92;
  plan_bytes = λ p. 800;
  manifest_bytes = λ m. 900;
  batch_bytes = λ b. 500;
}

abbrev page : List ℕ
page = codes "app/page.tsx"

abbrev lock : List ℕ
lock = codes "package.json"

abbrev plan : Plan
plan = record {
  brief_hash = 1;
  template_digest = 2;
  preset_digest = 3;
  user_stories = codes "A page" ∷ [];
  routes = record { path = codes "/"; purpose = codes "Home" } ∷ [];
  data_entities = [];
  api_operations = [];
  file_tasks = record { path = page; instruction = codes "Write it" } ∷ [];
  migration_intent = [];
  required = checks;
  unsupported_requirements = [];
  assumptions = [];
  resources = resources;
}

abbrev base : Manifest
base = record {
  template_digest = 2;
  image_digest = 20;
  base_snapshot_id = none;
  plan_digest = 90;
  preset_digest = 3;
  files =
      record { path = lock; blob_id = 4; sha256 = 5; bytes = 40; media_type = text_plain }
      ∷ record { path = page; blob_id = 6; sha256 = 7; bytes = 30; media_type = text_plain }
      ∷ [];
  migrations = [];
  command_policy_digest = 8;
  provenance = record {
    origin = fixture;
    job_id = 9;
    provider = none;
    model = none;
    prompt_version = 1;
  };
}

abbrev batch : FileBatch
batch = record {
  plan_digest = 90;
  base_manifest_digest = 91;
  batch_index = 0;
  final_batch = true;
  changes = replace page 7 (codes "export {}") ∷ [];
}

abbrev locked : List (List ℕ)
locked = codes "Package.json" ∷ []

validate_proposal-Accepted_example :
    (batch ∷ [] ≡ batch ∷ [])
    × (files : List File) × Accepted hashes plan base (batch ∷ []) locked files
unfolding validate_proposal plan_schema manifest_schema file_batch_schema change_schema text_content
    migrations_ok utf8_bytes well_formed required_checks resources_schema is_source_path segment_ok
    split stem reserved_device numbered secret_name allowed is_generated_path distinct_texts
    collides ancestors assert_unique_paths put remove owned expected apply_change apply_changes
    batches_bound check_result
validate_proposal-Accepted_example =
    validate_proposal-Accepted hashes plan base (batch ∷ []) (batch ∷ []) locked refl

validate_proposal-protected_example :
    (files : List File) × (apply_changes hashes plan
        (map fold locked)
        base.files
        (changes_of (batch ∷ []))
        base.files
      ≡ ok files)
    × (get lock files ≡ get lock base.files)
unfolding validate_proposal plan_schema manifest_schema file_batch_schema change_schema text_content
    migrations_ok utf8_bytes well_formed required_checks resources_schema is_source_path segment_ok
    split stem reserved_device numbered secret_name allowed is_generated_path distinct_texts
    collides ancestors assert_unique_paths put remove owned expected apply_change apply_changes
    batches_bound check_result
validate_proposal-protected_example =
    validate_proposal-protected hashes plan base (batch ∷ []) (batch ∷ []) locked lock refl refl
