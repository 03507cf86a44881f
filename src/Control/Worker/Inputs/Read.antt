-- ===== src/Control/Worker/Inputs/Read.antt =====
-- engine/control/worker.ts, input: it only reads, and what it takes from the step.
use forge_ai.Prelude.{ℕ, ◌≡◌, ap, ◌∙◌, Option, none, some, find, ok, not_found}
use forge_ai.Control.Tables.{World, JobRow, StepRow}
use forge_ai.Control.Tx.{Environment, Tx, return, one_or-split, >>=-split, lift-split, ok_pair}
use forge_ai.Control.Worker.Inputs.{
  StageInput, snapshot_is, artifact_is, payload, parse_plan, parse_manifest, parse_verification,
  plan_of, verification_of, candidate_of, input_of,
}

-- A computation that leaves the tables as they are.
abbrev Reads : {A : Type 0} → Tx A → Type 0
Reads {A} m = (w v : World) (a : A) → m w ≡ ok (a, v) → v ≡ w

return-Reads : {A : Type 0} (a : A) → Reads (return a)
return-Reads a w v b e = (ok_pair {a = a} {w = w} e).1

payload-Reads : (id : ℕ) → Reads (payload id)
unfolding payload
payload-Reads id w v p e =
    let (a, found, e1) =
      one_or-split not_found (λ x. find (artifact_is id) x.artifacts) _ w v p e in
    return-Reads a.payload w v p e1

module _ (env : Environment) where
  plan_of-Reads : (o : Option ℕ) → Reads (plan_of env o)
  unfolding plan_of
  plan_of-Reads none w v a e = return-Reads none w v a e
  plan_of-Reads (some id) w v a e =
      let (p, u, read_, e1) = >>=-split (payload id) _ w v a e in
      let (plan, parsed, e2) = lift-split (parse_plan env p) _ u v a e1 in
      return-Reads (some plan) u v a e2 ∙ payload-Reads id w u p read_

  verification_of-Reads : (o : Option ℕ) → Reads (verification_of env o)
  unfolding verification_of
  verification_of-Reads none w v a e = return-Reads none w v a e
  verification_of-Reads (some id) w v a e =
      let (p, u, read_, e1) = >>=-split (payload id) _ w v a e in
      let (x, parsed, e2) = lift-split (parse_verification env p) _ u v a e1 in
      return-Reads (some x) u v a e2 ∙ payload-Reads id w u p read_

  candidate_of-Reads : (o : Option ℕ) → Reads (candidate_of env o)
  unfolding candidate_of
  candidate_of-Reads none w v a e = return-Reads (none, none) w v a e
  candidate_of-Reads (some id) w v a e =
      let (s, found, e1) =
        one_or-split not_found (λ x. find (snapshot_is id) x.snapshots) _ w v a e in
      let (p, u, read_, e2) = >>=-split (payload s.manifest_artifact_id) _ w v a e1 in
      let (m, parsed, e3) = lift-split (parse_manifest env p) _ u v a e2 in
      let (x, t, checked, e4) =
        >>=-split (verification_of env s.verification_artifact_id) _ u v a e3 in
      return-Reads (some m, x) t v a e4
      ∙ verification_of-Reads s.verification_artifact_id u t x checked
      ∙ payload-Reads s.manifest_artifact_id w u p read_

  -- The input of a step is made from the tables as they are, for the step's identifier, epoch and
  -- operation.
  pub input_of-step :
      (j : JobRow) (s : StepRow) (w v : World) (i : StageInput)
      → input_of env j s w ≡ ok (i, v)
      → (v ≡ w)
        × (i.step_id ≡ s.id)
        × (i.lease_epoch ≡ s.lease_epoch)
        × (i.operation_id ≡ env.operation_id j.id s.id s.attempt)
  unfolding input_of
  input_of-step j s w v i e =
      let (p, u, planned, e1) = >>=-split (plan_of env j.plan_artifact_id) _ w v i e in
      let (c, t, chosen, e2) = >>=-split (candidate_of env j.candidate_snapshot_id) _ u v i e1 in
      let (same, world) = ok_pair e2 in
      (
        world
            ∙ candidate_of-Reads j.candidate_snapshot_id u t c chosen
            ∙ plan_of-Reads j.plan_artifact_id w u p planned,
        ap (λ (x : StageInput). x.step_id) same,
        ap (λ (x : StageInput). x.lease_epoch) same,
        ap (λ (x : StageInput). x.operation_id) same,
      )
