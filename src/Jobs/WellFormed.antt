-- ===== src/Jobs/WellFormed.antt =====
-- What the schema of a job asks for, as propositions.
use forge_ai.Prelude.{
  ℕ, ◌≤◌, ◌≡◌, Bool, true, ◌&&◌, arith, leb, same_bool, is_some, and_true, and_intro, not, ◌||◌,
  ◌==◌,
}
use forge_ai.Contracts.Primitives.{max_safe, positive}
use forge_ai.Jobs.{
  Job, job_schema, is_dated, is_terminal, is_review, not_before, cancelling, same_state, is_restore,
}

pub record WellFormed (j : Job) : Type 0 where
  pub version_low : 1 ≤ j.state_version
  pub version_high : j.state_version ≤ max_safe
  pub revision_low : 1 ≤ j.base_revision
  pub revision_high : j.base_revision ≤ max_safe
  pub repairs : j.repair_count ≤ 2
  pub active : j.active_remaining_ms ≤ 1200000
  pub finished : is_terminal j.state ≡ is_some j.finished_at
  pub expires : is_review j.state ≡ is_some j.review_expires_at
  pub reviewed : is_review j.state ≡ is_some j.review_digest
  pub updated : j.created_at.instant ≤ j.updated_at.instant
  pub closed : not_before j.finished_at j.created_at ≡ true
  pub cancels : (not (same_state j.state cancelling) || j.cancel_requested) ≡ true
  pub restores :
      (not (is_restore j.kind) || is_some j.base_snapshot_id && j.repair_count == 0) ≡ true
  pub dated : is_dated j ≡ true

same_bool_eq : (a b : Bool) → same_bool a b ≡ true → a ≡ b
same_bool_eq a b h = ground arith

eq_same_bool : (a b : Bool) → a ≡ b → same_bool a b ≡ true
eq_same_bool a b h = ground arith

positive_iff : (n : ℕ) → positive n ≡ true → (1 ≤ n) × (n ≤ max_safe)
positive_iff n h = ground arith

positive_of : (n : ℕ) → 1 ≤ n → n ≤ max_safe → positive n ≡ true
positive_of n h k = ground arith

le_of_leb : (a b : ℕ) → leb a b ≡ true → a ≤ b
le_of_leb a b h = ground arith

leb_of_le : (a b : ℕ) → a ≤ b → leb a b ≡ true
leb_of_le a b h = ground arith

pub job_schema→WellFormed : (j : Job) → job_schema j ≡ true → WellFormed j
unfolding job_schema
job_schema→WellFormed j h =
    let (h11, a12) = and_true _ _ h in
    let (h10, a11) = and_true _ _ h11 in
    let (h9, a10) = and_true _ _ h10 in
    let (h8, a9) = and_true _ _ h9 in
    let (h7, a8) = and_true _ _ h8 in
    let (h6, a7) = and_true _ _ h7 in
    let (h5, a6) = and_true _ _ h6 in
    let (h4, a5) = and_true _ _ h5 in
    let (h3, a4) = and_true _ _ h4 in
    let (h2, a3) = and_true _ _ h3 in
    let (a1, a2) = and_true _ _ h2 in
    record {
      version_low = (positive_iff _ a1).0;
      version_high = (positive_iff _ a1).1;
      revision_low = (positive_iff _ a2).0;
      revision_high = (positive_iff _ a2).1;
      repairs = le_of_leb _ _ a3;
      active = le_of_leb _ _ a4;
      finished = same_bool_eq _ _ a5;
      expires = same_bool_eq _ _ a6;
      reviewed = same_bool_eq _ _ a7;
      updated = le_of_leb _ _ a8;
      closed = a9;
      cancels = a10;
      restores = a11;
      dated = a12;
    }

pub WellFormed→job_schema : (j : Job) → WellFormed j → job_schema j ≡ true
unfolding job_schema
WellFormed→job_schema j w =
    and_intro
      (and_intro
        (and_intro
          (and_intro
            (and_intro
              (and_intro
                (and_intro
                  (and_intro
                    (and_intro
                      (and_intro
                        (and_intro (positive_of _ w.version_low w.version_high)
                          (positive_of _ w.revision_low w.revision_high))
                        (leb_of_le _ _ w.repairs))
                      (leb_of_le _ _ w.active))
                    (eq_same_bool _ _ w.finished))
                  (eq_same_bool _ _ w.expires))
                (eq_same_bool _ _ w.reviewed))
              (leb_of_le _ _ w.updated))
            w.closed)
          w.cancels)
        w.restores)
      w.dated
