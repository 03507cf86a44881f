-- ===== src/Control/Service/Admission/Admitted.antt =====
-- engine/control/service.ts, admit: what holds of a job that is let in.
use mathlib.Core.Path.{subst}
use forge_ai.Prelude.{
  ℕ, ◌+◌, ◌≤◌, ◌<◌, ◌≡◌, refl, sym, ap, ◌∙◌, arith, Bool, true, false, ◌&&◌, ◌||◌, not, Option,
  none, some, ◌==◌, List, [], ◌∷◌, ◌++◌, ok, any, find, find-true, count, update, includes,
  admission_disabled, capacity_unavailable, ◌!=◌, ltb, leb, or_false, ==_refl, same_option_iff,
  revision_mismatch, not_found, template_revalidation, quota_exceeded, policy_revoked,
  constraint_violation,
}
use forge_ai.Control.Tables.{World, JobRow, ProjectRow, Settings, QuotaRow, SnapshotRow}
use forge_ai.Control.Tx.{
  Environment, ◌>>=◌, ◌>>◌, one_or-split, reject_if-split, >>=-split, ok_pair, reject_if, read,
  write, return,
}
use forge_ai.Control.State.{
  job_is, is_queued, last_attempt, next_event, new_step, append_event, flush_event_sequence,
  enqueue, audit,
}
use forge_ai.Control.Service.{project}
use forge_ai.Control.Service.Approval.Decided.{project-found}
use forge_ai.Control.Service.Admission.{
  JobInput, unfinished, current_quota, active_jobs, is_full, quota_is, set_aside, reservation_for,
  breaks, insert_job, open_reservation, new_job, book, enter, reserve, admit_job, lock_admission,
  check_source, is_verified_of, off_head,
}

-- What an admission leaves behind.
pub record Entered (env : Environment) (j : JobRow) (period : ℕ) (w : World) (k : JobRow)
    (v : World) : Type 0 where
  pub row : k ≡ next_event j
  pub fresh : breaks j w ≡ false
  pub jobs : v.jobs ≡ w.jobs ++ next_event j ∷ []
  pub quotas :
      v.quotas ≡ update (quota_is j.workspace_id period) (set_aside j.cost_limit_micros) w.quotas
  pub reservations : v.reservations ≡ w.reservations ++ reservation_for j period ∷ []
  pub steps :
      v.steps
      ≡ w.steps
        ++ new_step env j
            (last_attempt j.id j.state w.steps + 1)
            (env.uuid (w.made + 1))
            (env.clock w.reads)
          ∷ []

insert_job-inserted :
    (j : JobRow) (w u : World)
    → insert_job j w ≡ ok (tt, u)
    → (breaks j w ≡ false) × (u ≡ record w { jobs = w.jobs ++ j ∷ [] })
unfolding insert_job
insert_job-inserted j w u e =
    let (sound, e1) =
      reject_if-split (breaks j w) constraint_violation
        (write (λ x. record x { jobs = x.jobs ++ j ∷ [] })) w u tt e in
    (sound, (ok_pair e1).1)

-- The last row is the one that an `UPDATE` of a fresh identifier is for.
update-last :
    {A : Type 0} (p : A → Bool) (f : A → A) (xs : List A) (x : A)
    → any p xs ≡ false
    → p x ≡ true
    → update p f (xs ++ x ∷ []) ≡ xs ++ f x ∷ []
update-last p f [] x h t = rw t refl
update-last p f (y ∷ ys) x h t =
    let (a, b) = or_false (p y) (any p ys) h in rw a (ap (λ zs. y ∷ zs) (update-last p f ys x b t))

fresh_id : (j : JobRow) (w : World) → breaks j w ≡ false → any (job_is j.id) w.jobs ≡ false
fresh_id j w e = ground (arith, e)

book-Entered :
    (env : Environment) (workspace id actor : ℕ) (body : JobInput) (source : Option ℕ)
    (job now period : ℕ) (w : World)
    → let j = new_job env workspace id actor body source job now in
      breaks j w ≡ false
      → (v : World) × (book env j actor period (record w { jobs = w.jobs ++ j ∷ [] })
          ≡ ok (next_event j, v))
        × Entered env j period w (next_event j) v
unfolding book open_reservation append_event flush_event_sequence enqueue audit new_job new_step
book-Entered env workspace id actor body source job now period w fresh =
    let j = new_job env workspace id actor body source job now in
    (
      _,
      refl,
      record {
        row = refl;
        fresh = fresh;
        jobs =
            update-last (job_is job) (λ (r : JobRow). record r { next_event_seq = 2 }) w.jobs j
              (fresh_id j w fresh) (==_refl job);
        quotas = refl;
        reservations = refl;
        steps = refl;
      },
    )

enter-Entered :
    (env : Environment) (workspace id actor : ℕ) (body : JobInput) (source : Option ℕ)
    (job now period : ℕ) (w v : World) (k : JobRow)
    → enter env (new_job env workspace id actor body source job now) actor period w ≡ ok (k, v)
    → Entered env (new_job env workspace id actor body source job now) period w k v
unfolding enter
enter-Entered env workspace id actor body source job now period w v k e =
    let j = new_job env workspace id actor body source job now in
    let (done, u, inserted, e1) = >>=-split (insert_job j) (λ _. book env j actor period) w v k e in
    let (sound, same) = insert_job-inserted j w u inserted in
    let (x, booked, d) = book-Entered env workspace id actor body source job now period w sound in
    let (row, world) =
      ok_pair {a = next_event j} {w = x}
        (sym booked ∙ subst (λ (y : World). book env j actor period y ≡ ok (k, v)) same e1) in
    subst (λ (y : World). Entered env j period w k y) (sym world)
      (subst (λ (l : JobRow). Entered env j period w l x) (sym row) d)

-- The snapshot that a restoration is from is a verified one of the project.
abbrev pub Sourced : Option ℕ → ℕ → World → Type 0
Sourced none id w = Unit {0}
Sourced (some s) id w =
    (x : SnapshotRow) × (find (is_verified_of s id) w.snapshots ≡ some x)
    × (x.id ≡ s)
    × (x.project_id ≡ id)
    × (x.is_verified ≡ true)

-- What a job that is admitted was checked for, and what it leaves in the tables.
pub record Admitted (env : Environment) (workspace id actor : ℕ) (body : JobInput)
    (source : Option ℕ) (w : World) (k : JobRow) (v : World) : Type 0 where
  pub quota : QuotaRow
  pub project : ProjectRow
  pub job : ℕ
  pub now : ℕ
  pub before : World
  pub quota_found : current_quota workspace env.begun w ≡ some quota
  pub slots : active_jobs workspace w < quota.max_active_jobs
  pub funds : quota.reserved_micros + quota.spent_micros + body.max_cost_micros ≤ quota.limit_micros
  pub project_found : find (λ (y : ProjectRow). y.id == id) w.projects ≡ some project
  pub source_found : Sourced source id w
  pub kept : project.deleting_at ≡ none
  pub revision : project.revision ≡ body.base_revision
  pub head : project.head_snapshot_id ≡ body.base_snapshot_id
  pub template : project.template_digest ≡ env.fixture_template
  pub cost : body.max_cost_micros ≤ w.settings.max_job_micros
  pub allowed :
      (includes w.revoked_policies env.fixture_template ≡ false)
      × (includes w.revoked_policies (env.fixture_policy body.max_cost_micros) ≡ false)
  -- The tables after the identifier and the time of the job were drawn.
  pub drawn : before ≡ record w { made = w.made + 1; reads = w.reads + 1 }
  pub entered :
      Entered env (new_job env workspace id actor body source job now) quota.period_start before k v

within :
    (q : QuotaRow) (active cost : ℕ)
    → is_full q active cost ≡ false
    → (active < q.max_active_jobs) × (q.reserved_micros + q.spent_micros + cost ≤ q.limit_micros)
within q active cost e = ground (arith, e)

same_head :
    (p : ProjectRow) (b : JobInput)
    → off_head p b ≡ false
    → (p.revision ≡ b.base_revision) × (p.head_snapshot_id ≡ b.base_snapshot_id)
same_head p b e = ground (arith, same_option_iff p.head_snapshot_id b.base_snapshot_id)

same_number : (a b : ℕ) → (a != b) ≡ false → a ≡ b
same_number a b e = ground (arith, e)

at_most : (a b : ℕ) → ltb a b ≡ false → b ≤ a
at_most a b e = ground (arith, e)

check_source-same :
    (source : Option ℕ) (id : ℕ) (w u : World) → check_source source id w ≡ ok (tt, u) → u ≡ w
unfolding check_source
check_source-same none id w u e = (ok_pair e).1
check_source-same (some s) id w u e =
    let (x, found, e1) =
      one_or-split not_found (λ y. find (is_verified_of s id) y.snapshots) (λ _. return tt) w u tt
        e in
    (ok_pair e1).1

verified_row :
    (s id : ℕ) (x : SnapshotRow)
    → is_verified_of s id x ≡ true
    → (x.id ≡ s) × (x.project_id ≡ id) × (x.is_verified ≡ true)
verified_row s id x e = ground (arith, e)

check_source-found :
    (source : Option ℕ) (id : ℕ) (w u : World)
    → check_source source id w ≡ ok (tt, u)
    → Sourced source id w
unfolding check_source
check_source-found none id w u e = tt
check_source-found (some s) id w u e =
    let (x, found, e1) =
      one_or-split not_found (λ y. find (is_verified_of s id) y.snapshots) (λ _. return tt) w u tt
        e in
    let (same, of_project, verified) =
      verified_row s id x (find-true (is_verified_of s id) w.snapshots x found) in
    (x, found, same, of_project, verified)

lock_admission-same :
    (w u : World) (s : Settings) → lock_admission w ≡ ok (s, u) → (u ≡ w) × (s ≡ w.settings)
unfolding lock_admission
lock_admission-same w u s e =
    let s0 = w.settings in
    let waiting = count (λ (j : JobRow). is_queued j.state && unfinished j) w.jobs in
    let (a, e1) =
      reject_if-split (not s0.admission_enabled || s0.security_shutdown) admission_disabled
        (read (λ x. count (λ (j : JobRow). is_queued j.state && unfinished j) x.jobs) >>= λ n.
          reject_if (leb s0.max_queued n) capacity_unavailable >> return s0)
        w u s e in
    let (b, e2) =
      reject_if-split (leb s0.max_queued waiting) capacity_unavailable (return s0) w u s e1 in
    let (x, y) = ok_pair e2 in (y, x)

-- The quota that a job is admitted under.
reserve-Entered :
    (env : Environment) (workspace id actor : ℕ) (body : JobInput) (source : Option ℕ) (w v : World)
    (k : JobRow)
    → reserve env workspace id actor body source w ≡ ok (k, v)
    → (quota : QuotaRow) × (current_quota workspace env.begun w ≡ some quota)
      × (is_full quota (active_jobs workspace w) body.max_cost_micros ≡ false)
      × Entered env
          (new_job env workspace id actor body source (env.uuid w.made) (env.clock w.reads))
          quota.period_start
          (record w { made = w.made + 1; reads = w.reads + 1 })
          k
          v
unfolding reserve
reserve-Entered env workspace id actor body source w v k e =
    let (q, found, e1) = one_or-split not_found (current_quota workspace env.begun) _ w v k e in
    let (room, e2) =
      reject_if-split (is_full q (active_jobs workspace w) body.max_cost_micros) quota_exceeded _ w
        v k e1 in
    (
      q,
      found,
      room,
      enter-Entered env workspace id actor body source (env.uuid w.made) (env.clock w.reads)
          q.period_start (record w { made = w.made + 1; reads = w.reads + 1 }) v k e2,
    )

-- A job that `admit` lets in was asked for at the head of its stored project, which is not being
-- deleted, and a restoration from a verified snapshot of that project, at a cost within the service's bound, under a template and a policy that are not revoked; the workspace
-- had a free slot, and its running quota still holds what it has reserved and spent with the
-- cost on top. The tables then have one more job, which was the project's only unfinished one, one
-- more reservation of the cost, the quota with the cost reserved, and a queued step for the job.
pub admit_job-Admitted :
    (env : Environment) (workspace id actor : ℕ) (body : JobInput) (source : Option ℕ) (w v : World)
    (k : JobRow)
    → admit_job env workspace id actor body source w ≡ ok (k, v)
    → Admitted env workspace id actor body source w k v
unfolding admit_job
admit_job-Admitted env workspace id actor body source w v k e =
    let (settings, u1, locked, e1) = >>=-split lock_admission _ w v k e in
    let (same1, taken) = lock_admission-same w u1 settings locked in
    let (p, u2, found, e2) = >>=-split (project env id) _ u1 v k e1 in
    let (same2, kept, listed) = project-found env id u1 u2 p found in
    let (head, e3) = reject_if-split (off_head p body) revision_mismatch _ u2 v k e2 in
    let (template, e4) =
      reject_if-split (p.template_digest != env.fixture_template) template_revalidation _ u2 v k
        e3 in
    let (cost, e5) =
      reject_if-split (ltb settings.max_job_micros body.max_cost_micros) quota_exceeded _ u2 v k
        e4 in
    let (done, u3, checked, e6) = >>=-split (check_source source id) _ u2 v k e5 in
    let same3 = check_source-same source id u2 u3 checked ∙ same2 ∙ same1 in
    let (valid, e7) =
      reject_if-split
        (includes u3.revoked_policies env.fixture_template
          || includes u3.revoked_policies (env.fixture_policy body.max_cost_micros))
        policy_revoked _ u3 v k e6 in
    let (q, current, room, entered) =
      reserve-Entered env workspace id actor body source w v k (
        subst (λ (x : World). reserve env workspace id actor body source x ≡ ok (k, v)) same3 e7) in
    let (slots, funds) = within q (active_jobs workspace w) body.max_cost_micros room in
    let (revision, base) = same_head p body head in
    record {
      quota = q;
      project = p;
      job = env.uuid w.made;
      now = env.clock w.reads;
      before = record w { made = w.made + 1; reads = w.reads + 1 };
      quota_found = current;
      slots = slots;
      funds = funds;
      project_found =
          subst (λ (x : World). find (λ (y : ProjectRow). y.id == id) x.projects ≡ some p) same1
            listed;
      source_found =
          subst (λ (x : World). Sourced source id x) (same2 ∙ same1)
            (check_source-found source id u2 u3 checked);
      kept = kept;
      revision = revision;
      head = base;
      template = same_number p.template_digest env.fixture_template template;
      cost =
          subst (λ (x : Settings). body.max_cost_micros ≤ x.max_job_micros) taken
            (at_most settings.max_job_micros body.max_cost_micros cost);
      allowed =
          subst
            (λ (x : World).
              (includes x.revoked_policies env.fixture_template ≡ false)
              × (includes x.revoked_policies (env.fixture_policy body.max_cost_micros) ≡ false))
            same3
            (or_false (includes u3.revoked_policies env.fixture_template)
              (includes u3.revoked_policies (env.fixture_policy body.max_cost_micros)) valid);
      drawn = refl;
      entered = entered;
    }
