-- ===== src/Control/Worker/Inputs.antt =====
-- engine/control/worker.ts, claim, payload, input, putArtifact and candidate: what a stage reads and
-- stores.
--
-- `claim_step` is a function of the database, a parameter. The object key of an artifact and its size
-- are left out.
pub mod Read
use forge_ai.Prelude.{
  ℕ, Bool, true, false, ◌||◌, not, Option, none, some, List, [], ◌∷◌, ◌++◌, length, ◌==◌, ◌!=◌,
  same_option, find, update, Result, err, parse, invalid, binding_failed,
}
use forge_ai.Contracts.Primitives.{Scope, utf8_bytes}
use forge_ai.Contracts.Review.{Verification, verification_schema}
use forge_ai.Contracts.Source.{Plan, Manifest, File, SourceOrigin, plan_schema, manifest_schema}
use forge_ai.Jobs.{JobState}
use forge_ai.Control.Tables.{
  JobRow, StepRow, SnapshotRow, ArtifactRow, Payload, plan_payload, manifest_payload,
  verification_payload, blob_payload, Blob, step_started,
}
use forge_ai.Control.Tx.{
  Environment, Tx, ◌>>=◌, ◌>>◌, return, reject_if, one, one_or, lift, write, random_uuid,
}
use forge_ai.Control.State.{job_is, scope_of, append_event, flush_event_sequence}

-- `StageInput`
pub record StageInput : Type 0 where
  pub scope : Scope
  pub step_id : ℕ
  pub lease_epoch : ℕ
  pub operation_id : ℕ
  pub input_digest : ℕ
  pub stage : JobState
  pub instruction : List ℕ
  pub max_cost_micros : ℕ
  pub base_snapshot_id : Option ℕ
  pub plan : Option Plan
  pub manifest : Option Manifest
  pub verification : Option Verification

abbrev pub snapshot_is : ℕ → SnapshotRow → Bool
snapshot_is id x = x.id == id

abbrev pub artifact_is : ℕ → ArtifactRow → Bool
artifact_is id x = x.id == id

-- `payload`
unfoldable pub payload : ℕ → Tx Payload
payload id = do a ← one (λ w. find (artifact_is id) w.artifacts); return a.payload

-- The fixture adapters' source, bound to the job.
abbrev is_fixture : SourceOrigin → Bool
is_fixture SourceOrigin.fixture = true
is_fixture _ = false

abbrev pub misbound : Manifest → JobRow → Bool
misbound m j =
    m.template_digest != j.template_digest
    || m.command_policy_digest != j.policy_digest
    || not (is_fixture m.provenance.origin)
    || m.provenance.job_id != j.id
    || not (same_option m.base_snapshot_id j.base_snapshot_id)

abbrev blob_is : ℕ → Blob → Bool
blob_is id b = b.blob_id == id

module _ (env : Environment) where
  -- `claim`; `claim_step` is the database's.
  unfoldable pub claim : (ℕ → Tx (Option StepRow)) → ℕ → Tx (Option StepRow)
  unfolding append_event flush_event_sequence
  claim claim_step worker = claim_step worker >>= λ o. elim o [
    | none ↦ return none
    | some s ↦ do
      j ← one (λ w. find (job_is s.job_id) w.jobs)
      k ← append_event env j (step_started s.id s.stage s.attempt s.lease_epoch)
      flush_event_sequence env k
      return (some s)
  ]

  abbrev pub parse_plan : Payload → Result Plan
  parse_plan (plan_payload p) = parse (plan_schema env.source) p
  parse_plan _ = err invalid

  abbrev pub parse_manifest : Payload → Result Manifest
  parse_manifest (manifest_payload m) = parse (manifest_schema env.source) m
  parse_manifest _ = err invalid

  abbrev pub parse_verification : Payload → Result Verification
  parse_verification (verification_payload v) = parse verification_schema v
  parse_verification _ = err invalid

  -- The plan of a job, where it has one.
  unfoldable pub plan_of : Option ℕ → Tx (Option Plan)
  unfolding payload
  plan_of none = return none
  plan_of (some id) = do p ← payload id; plan ← lift (parse_plan p); return (some plan)

  unfoldable pub verification_of : Option ℕ → Tx (Option Verification)
  unfolding payload
  verification_of none = return none
  verification_of (some id) = do p ← payload id; v ← lift (parse_verification p); return (some v)

  -- The manifest of the candidate and its verification, where there is one.
  unfoldable pub candidate_of : Option ℕ → Tx (Option Manifest × Option Verification)
  unfolding payload verification_of
  candidate_of none = return (none, none)
  candidate_of (some id) = do
    snap ← one (λ w. find (snapshot_is id) w.snapshots)
    p ← payload snap.manifest_artifact_id
    m ← lift (parse_manifest p)
    v ← verification_of snap.verification_artifact_id
    return (some m, v)

  -- `input`
  unfoldable pub input_of : JobRow → StepRow → Tx StageInput
  unfolding plan_of candidate_of
  input_of j s = do
    p ← plan_of j.plan_artifact_id
    c ← candidate_of j.candidate_snapshot_id
    return (record {
      scope = scope_of j;
      step_id = s.id;
      lease_epoch = s.lease_epoch;
      operation_id = env.operation_id j.id s.id s.attempt;
      input_digest = s.input_digest;
      stage = j.state;
      instruction = j.instruction;
      max_cost_micros = j.cost_limit_micros;
      base_snapshot_id = j.base_snapshot_id;
      plan = p;
      manifest = c.0;
      verification = c.1;
    })

  -- `canonicalHash(payload)`
  abbrev pub payload_hash : Payload → ℕ
  payload_hash (plan_payload p) = env.source.plan_hash p
  payload_hash (manifest_payload m) = env.source.manifest_hash m
  payload_hash (verification_payload v) = env.verification_hash v
  payload_hash (blob_payload t) = env.source.text_hash t

  -- The two rows of `putArtifact`.
  unfoldable pub put_artifact : JobRow → Payload → ℕ → Tx ℕ
  put_artifact j p id = do
    write (λ w. record w {
      artifacts =
          w.artifacts
          ++ record { id = id; job_id = j.id; sha256 = payload_hash p; payload = p } ∷ [];
    })
    return id

  -- `putArtifact` under an identifier of its own.
  unfoldable pub new_artifact : JobRow → Payload → Tx ℕ
  unfolding put_artifact
  new_artifact j p = do id ← random_uuid env; put_artifact j p id

  -- Each file has its blob, with the content that the manifest names.
  unfoldable pub put_blobs : JobRow → List Blob → List File → Tx (Unit {0})
  unfolding put_artifact utf8_bytes
  put_blobs j blobs [] = return tt
  put_blobs j blobs (f ∷ fs) = do
    b ← one_or binding_failed (λ w. find (blob_is f.blob_id) blobs)
    reject_if (env.source.text_hash b.content != f.sha256 || utf8_bytes b.content != f.bytes)
        binding_failed
    put_artifact j (blob_payload b.content) b.blob_id
    put_blobs j blobs fs

  -- The row of the snapshot, and the job's candidate.
  unfoldable pub put_snapshot : JobRow → Manifest → ℕ → ℕ → Tx JobRow
  put_snapshot j m artifact id = do
    write (λ w. record w {
      snapshots =
          w.snapshots
          ++ record {
            id = id;
            project_id = j.project_id;
            job_id = j.id;
            manifest_digest = env.source.manifest_hash m;
            is_verified = false;
            manifest_artifact_id = artifact;
            verification_artifact_id = none;
            verification = none;
          }
            ∷ [];
      jobs =
          update (job_is j.id) (λ (r : JobRow). record r { candidate_snapshot_id = some id })
            w.jobs;
    })
    return (record j { candidate_snapshot_id = some id })

  -- `candidate`: the artifact, and the job with its candidate.
  unfoldable pub candidate : JobRow → Manifest → List Blob → Tx (ℕ × JobRow)
  unfolding manifest_schema put_blobs new_artifact put_snapshot
  candidate j m blobs = do
    reject_if (not (manifest_schema env.source m)) invalid
    reject_if (misbound m j) binding_failed
    reject_if (length blobs != length m.files) binding_failed
    put_blobs j blobs m.files
    artifact ← new_artifact j (manifest_payload m)
    id ← random_uuid env
    k ← put_snapshot j m artifact id
    return (artifact, k)
