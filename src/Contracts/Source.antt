-- ===== src/Contracts/Source.antt =====
-- engine/contracts/source.ts: the schemas of plans, file batches and manifests.
--
-- SHA-256 and the byte length of a JSON text are parameters (`SourceHashing`). A label is carried
-- by the type, as are the releases of a template; a literal field has one value and is left out.
pub mod Proposal
use forge_ai.Prelude.{
  ℕ, suc, ◌+◌, Bool, true, false, ◌&&◌, ◌||◌, not, Option, none, some, List, [], ◌∷◌, ◌++◌, map,
  leb, ◌==◌, is_some, length, all, any, keep, total, codes, starts_with, ends_with, same_text, ok,
  err, is_digit, is_upper, is_lower,
}
use forge_ai.Contracts.Primitives.{
  file_bytes, source_bytes, max_files, max_operations, utf8_bytes, well_formed, CheckId,
  required_checks, Resources, resources_schema,
}
use forge_ai.Contracts.Paths.{
  is_source_path, is_generated_path, distinct_texts, assert_unique_paths,
}
use forge_ai.Contracts.Review.{Migration, migration_schema}

-- `textContent`
unfoldable pub text_content : List ℕ → Bool
unfolding well_formed utf8_bytes
text_content s = well_formed s && all (λ c. not (c == 0)) s && leb (utf8_bytes s) file_bytes

-- `description`
abbrev pub description : List ℕ → Bool
description s = leb 1 (length s) && leb (length s) 2000

-- `z.array(…).min(lo).max(hi)`
abbrev between {ℓ} : {A : Type ℓ} → ℕ → ℕ → List A → Bool
between lo hi xs = leb lo (length xs) && leb (length xs) hi

pub record PlanRoute : Type 0 where
  pub path : List ℕ
  pub purpose : List ℕ

pub record Entity : Type 0 where
  pub name : ℕ
  pub fields : List ℕ

pub record ApiOperation : Type 0 where
  pub method : ℕ
  pub route : ℕ
  pub purpose : List ℕ

pub record FileTask : Type 0 where
  pub path : List ℕ
  pub instruction : List ℕ

pub record Plan : Type 0 where
  pub brief_hash : ℕ
  pub template_digest : ℕ
  pub preset_digest : ℕ
  pub user_stories : List (List ℕ)
  pub routes : List PlanRoute
  pub data_entities : List Entity
  pub api_operations : List ApiOperation
  pub file_tasks : List FileTask
  pub migration_intent : List (List ℕ)
  pub required : List CheckId
  pub unsupported_requirements : List (List ℕ)
  pub assumptions : List (List ℕ)
  pub resources : Resources

pub data MediaType : Type 0 where
  text_plain text_typescript text_css application_json application_sql : MediaType
  image_png image_jpeg image_webp font_woff2 : MediaType

pub record File : Type 0 where
  pub path : List ℕ
  pub blob_id : ℕ
  pub sha256 : ℕ
  pub bytes : ℕ
  pub media_type : MediaType

pub data SourceOrigin : Type 0 where
  provider fixture restore : SourceOrigin

pub record Provenance : Type 0 where
  pub origin : SourceOrigin
  pub job_id : ℕ
  pub provider : Option ℕ
  pub model : Option ℕ
  pub prompt_version : ℕ

pub record Manifest : Type 0 where
  pub template_digest : ℕ
  pub image_digest : ℕ
  pub base_snapshot_id : Option ℕ
  pub plan_digest : ℕ
  pub preset_digest : ℕ
  pub files : List File
  pub migrations : List Migration
  pub command_policy_digest : ℕ
  pub provenance : Provenance

pub data Change : Type 0 where
  create : (path content : List ℕ) → Change
  replace : (path : List ℕ) (expected : ℕ) (content : List ℕ) → Change
  delete : (path : List ℕ) (expected : ℕ) → Change

abbrev pub path_of : Change → List ℕ
path_of (create p c) = p
path_of (replace p e c) = p
path_of (delete p e) = p

pub record FileBatch : Type 0 where
  pub plan_digest : ℕ
  pub base_manifest_digest : ℕ
  pub batch_index : ℕ
  pub final_batch : Bool
  pub changes : List Change

pub record SourceHashing : Type 0 where
  pub plan_hash : Plan → ℕ
  pub manifest_hash : Manifest → ℕ
  pub text_hash : List ℕ → ℕ
  pub plan_bytes : Plan → ℕ
  pub manifest_bytes : Manifest → ℕ
  pub batch_bytes : FileBatch → ℕ

-- `try { assertUniquePaths(paths); return true } catch { return false }`
abbrev pub unique : List (List ℕ) → Bool
unique paths = elim (assert_unique_paths paths) [ ok u ↦ true | err e ↦ false ]

-- `[A-Za-z0-9_/[\]()-]`
abbrev route_char : ℕ → Bool
route_char c =
    is_upper c
    || is_lower c
    || is_digit c
    || any (λ x. x == c) (b'_' ∷ b'/' ∷ b'[' ∷ b']' ∷ b'(' ∷ b')' ∷ b'-' ∷ [])

-- `/^\/…*$/` and `max(240)`
abbrev route_path : List ℕ → Bool
route_path [] = false
route_path (c ∷ s) = c == b'/' && all route_char s && leb (suc (length s)) 240

abbrev task_paths : Plan → List (List ℕ)
task_paths p = map (λ (t : FileTask). t.path) p.file_tasks

unfoldable pub plan_schema : SourceHashing → Plan → Bool
unfolding required_checks resources_schema is_generated_path
plan_schema h p =
    between 1 30 p.user_stories
    && all description p.user_stories
    && leb (length p.routes) 30
    && all (λ (r : PlanRoute). route_path r.path && description r.purpose) p.routes
    && leb (length p.data_entities) 30
    && all (λ (e : Entity). between 1 30 e.fields) p.data_entities
    && leb (length p.api_operations) 50
    && all (λ (o : ApiOperation). description o.purpose) p.api_operations
    && between 1 100 p.file_tasks
    && all (λ (t : FileTask). is_generated_path t.path && description t.instruction) p.file_tasks
    && leb (length p.migration_intent) 20
    && all description p.migration_intent
    && required_checks p.required
    && leb (length p.unsupported_requirements) 30
    && all description p.unsupported_requirements
    && leb (length p.assumptions) 30
    && all description p.assumptions
    && resources_schema p.resources
    && unique (task_paths p)
    && leb (h.plan_bytes p) 65536

abbrev content_ok : Change → Bool
content_ok (create p c) = text_content c
content_ok (replace p e c) = text_content c
content_ok (delete p e) = true

abbrev is_create : Change → Bool
is_create (create p c) = true
is_create _ = false

-- `changeSchema`: existing migrations are immutable.
unfoldable pub change_schema : Change → Bool
unfolding is_generated_path text_content
change_schema c =
    is_generated_path (path_of c)
    && content_ok c
    && (not (starts_with (codes "migrations/") (path_of c)) || is_create c)

unfoldable pub file_batch_schema : SourceHashing → FileBatch → Bool
unfolding change_schema
file_batch_schema h b =
    leb b.batch_index 99
    && between 1 max_operations b.changes
    && all change_schema b.changes
    && unique (map path_of b.changes)
    && leb (h.batch_bytes b) 12582912

-- `assetExtensions`, for the media types of `/^(image|font)\//`
abbrev pub asset_extension : MediaType → Option (List ℕ)
asset_extension image_png = some (codes ".png")
asset_extension image_jpeg = some (codes ".jpg")
asset_extension image_webp = some (codes ".webp")
asset_extension font_woff2 = some (codes ".woff2")
asset_extension _ = none

abbrev pub is_asset : File → Bool
is_asset f = is_some (asset_extension f.media_type)

abbrev pub is_sql : MediaType → Bool
is_sql application_sql = true
is_sql _ = false

abbrev pub bytes_of : File → ℕ
bytes_of f = f.bytes

-- An asset stands under its directory with the extension of its media type.
abbrev asset_ok : File → Bool
asset_ok f = elim (asset_extension f.media_type) [
  | none ↦ true
  | some e ↦ starts_with (codes "public/assets/") f.path && ends_with e f.path
]

-- The `i`-th migration has its order, its path and its file.
unfoldable pub migrations_ok : ℕ → List Migration → List File → Bool
migrations_ok i [] files = true
migrations_ok i (m ∷ ms) files =
    m.order == i + 1
    && same_text m.path (codes "migrations/" ++ m.id ++ codes ".sql")
    && any (λ (f : File). same_text f.path m.path && f.sha256 == m.sha256 && is_sql f.media_type)
        files
    && migrations_ok (i + 1) ms files

-- A provider's source names its provider and model; no other does.
abbrev provenance_ok : Provenance → Bool
provenance_ok p = elim (p.origin) [
  | provider ↦ is_some p.provider && is_some p.model
  | _ ↦ not (is_some p.provider) && not (is_some p.model)
]

unfoldable pub manifest_schema : SourceHashing → Manifest → Bool
unfolding migrations_ok is_source_path migration_schema
manifest_schema h m =
    let assets = keep is_asset m.files in
    between 1 max_files m.files
    && all (λ (f : File). is_source_path f.path && leb f.bytes 5242880) m.files
    && leb (length m.migrations) 200
    && all migration_schema m.migrations
    && unique (map (λ (f : File). f.path) m.files)
    && leb (total bytes_of m.files) source_bytes
    && all asset_ok assets
    && leb (length assets) 10
    && leb (total bytes_of assets) 5242880
    && all (λ f. is_asset f || leb f.bytes file_bytes) m.files
    && distinct_texts (map (λ (x : Migration). x.id) m.migrations)
    && migrations_ok 0 m.migrations m.files
    && all
        (λ (f : File).
          not (starts_with (codes "migrations/") f.path)
          || any (λ (x : Migration). same_text x.path f.path) m.migrations)
        m.files
    && provenance_ok m.provenance
    && leb (h.manifest_bytes m) 262144
