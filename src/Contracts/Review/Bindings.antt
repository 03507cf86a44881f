-- ===== src/Contracts/Review/Bindings.antt =====
-- engine/contracts/review.ts: what a validated approval establishes.
use forge_ai.Prelude.{
  ◌+◌, ◌<◌, ◌≤◌, ◌≡◌, ◌⊎◌, true, false, Option, some, arith, ok, parse_bind, throw_if_bind,
  same_option_iff,
}
use forge_ai.Contracts.Primitives.{Timestamp, same_timestamp, Scope, same_scope}
use forge_ai.Contracts.Review.{
  Hashing, Approval, Subject, ApprovalContext, ReviewBase, ReviewKind, kind_index, Role, owner,
  editor, base_of, may_approve, approval_schema, context_schema, subject_schema, validate_approval,
  refused, stale, out_of_scope, unbound, out_of_time,
}

pub kind_eq : (a b : ReviewKind) → kind_index a ≡ kind_index b → a ≡ b
kind_eq a b h = ground arith

pub timestamp_eq : (a b : Timestamp) → same_timestamp a b ≡ true → a ≡ b
timestamp_eq a b h = ground arith

pub scope_eq : (a b : Scope) → same_scope a b ≡ true → a ≡ b
scope_eq a b h = ground arith

may_approve_role : (r : Option Role) → may_approve r ≡ true → (r ≡ some owner) ⊎ (r ≡ some editor)
may_approve_role r h = ground arith

-- The approval, the subject that was reviewed and the freshly read context agree, the actor may
-- approve, and the approval is in force.
pub record Binds (h : Hashing) (a : Approval) (s : Subject) (c : ApprovalContext) : Type 0 where
  pub role : (c.current_role ≡ some owner) ⊎ (c.current_role ≡ some editor)
  pub enabled : c.user_disabled ≡ false
  pub running : c.cancel_requested ≡ false
  pub in_policy : c.policy_revoked ≡ false
  pub kind : a.kind ≡ c.kind
  pub subject_kind : subject_schema h c.kind s ≡ true
  pub actor : a.actor_id ≡ c.actor_id
  pub version : a.state_version ≡ c.state_version
  pub digest : a.subject_digest ≡ c.subject_digest
  pub content : c.subject_digest ≡ h.subject_hash s
  pub scope : a.scope ≡ c.scope
  pub subject_scope : (base_of s).scope ≡ c.scope
  pub revision : (base_of s).base_revision ≡ c.base_revision
  pub snapshot : (base_of s).base_snapshot_id ≡ c.base_snapshot_id
  pub template : (base_of s).template_digest ≡ c.template_digest
  pub policy : (base_of s).policy_digest ≡ c.policy_digest
  pub issued : a.created_at.instant ≤ c.now.instant
  pub in_force : c.now.instant < a.expires_at.instant
  pub reviewable : c.now.instant < c.review_expires_at.instant
  pub deadline : (base_of s).expires_at ≡ c.review_expires_at
  pub within : a.expires_at.instant ≤ c.review_expires_at.instant
  pub lifetime : a.expires_at.instant ≤ a.created_at.instant + 86400000

-- The facts that each guard leaves.
module _ (h : Hashing) (a : Approval) (s : Subject) (b : ReviewBase) (c : ApprovalContext) where
  not_refused :
      refused c ≡ false
      → ((c.current_role ≡ some owner) ⊎ (c.current_role ≡ some editor))
        × (c.user_disabled ≡ false)
        × (c.cancel_requested ≡ false)
        × (c.policy_revoked ≡ false)
  unfolding refused
  not_refused r = ground arith

  not_stale :
      stale h a s c ≡ false
      → (a.kind ≡ c.kind)
        × (a.actor_id ≡ c.actor_id)
        × (a.state_version ≡ c.state_version)
        × (a.subject_digest ≡ c.subject_digest)
        × (c.subject_digest ≡ h.subject_hash s)
  unfolding stale
  not_stale r = ground (arith, kind_eq a.kind c.kind)

  in_scope : out_of_scope a b c ≡ false → (a.scope ≡ c.scope) × (b.scope ≡ c.scope)
  unfolding out_of_scope
  in_scope r = ground (arith, scope_eq a.scope c.scope, scope_eq b.scope c.scope)

  bound :
      unbound b c ≡ false
      → (b.base_revision ≡ c.base_revision)
        × (b.base_snapshot_id ≡ c.base_snapshot_id)
        × (b.template_digest ≡ c.template_digest)
        × (b.policy_digest ≡ c.policy_digest)
  unfolding unbound
  bound r = ground (arith, same_option_iff b.base_snapshot_id c.base_snapshot_id)

  in_time :
      out_of_time a b c ≡ false
      → (a.created_at.instant ≤ c.now.instant)
        × (c.now.instant < a.expires_at.instant)
        × (c.now.instant < c.review_expires_at.instant)
        × (b.expires_at ≡ c.review_expires_at)
        × (a.expires_at.instant ≤ c.review_expires_at.instant)
        × (a.expires_at.instant ≤ a.created_at.instant + 86400000)
  unfolding out_of_time
  in_time r = ground (arith, timestamp_eq b.expires_at c.review_expires_at)

module _ (h : Hashing) (a : Approval) (s : Subject) (c : ApprovalContext) {b : Approval}
    (e : validate_approval h a s c ≡ ok b) where
  -- A validated approval is returned unchanged and binds: its actor is an enabled owner or editor,
  -- neither a cancellation nor a revocation is pending, kind, actor, version, digest, scope, base and
  -- policy all agree with the context and with the hash of the subject, and the deadlines hold.
  pub validate_approval-Binds : (b ≡ a) × Binds h a s c
  unfolding validate_approval
  validate_approval-Binds =
      let (p1, e1) = parse_bind approval_schema a _ e in
      let (p2, e2) = parse_bind context_schema c _ e1 in
      let (p3, e3) = parse_bind (subject_schema h c.kind) s _ e2 in
      let (p4, e4) = throw_if_bind _ _ _ e3 in
      let (p5, e5) = throw_if_bind _ _ _ e4 in
      let (p6, e6) = throw_if_bind _ _ _ e5 in
      let (p7, e7) = throw_if_bind _ _ _ e6 in
      let (p8, e8) = throw_if_bind _ _ _ e7 in
      let b = base_of s in
      let (role, enabled, running, in_policy) = not_refused h a s b c p4 in
      let (kind, actor, version, digest, content) = not_stale h a s b c p5 in
      let (scope, subject_scope) = in_scope h a s b c p6 in
      let (revision, snapshot, template, policy) = bound h a s b c p7 in
      let (issued, in_force, reviewable, deadline, within, lifetime) = in_time h a s b c p8 in
      (
        ground arith,
        record {
          role = role;
          enabled = enabled;
          running = running;
          in_policy = in_policy;
          kind = kind;
          subject_kind = p3;
          actor = actor;
          version = version;
          digest = digest;
          content = content;
          scope = scope;
          subject_scope = subject_scope;
          revision = revision;
          snapshot = snapshot;
          template = template;
          policy = policy;
          issued = issued;
          in_force = in_force;
          reviewable = reviewable;
          deadline = deadline;
          within = within;
          lifetime = lifetime;
        },
      )
