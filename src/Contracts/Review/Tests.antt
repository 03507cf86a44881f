-- ===== src/Contracts/Review/Tests.antt =====
-- engine/contracts/review.ts: an approval, a descriptor and a verification that are accepted.
use forge_ai.Prelude.{◌≡◌, refl, ok, any, true}
use forge_ai.Contracts.Primitives.{required_checks, resources_schema, lint}
use forge_ai.Contracts.Review.{
  runner, validate_approval, approval_schema, context_schema, subject_schema, refused, stale,
  out_of_scope, unbound, out_of_time, execution, execution_schema, command_policy_schema,
  command_schema, migration_schema, validate_descriptor, descriptor_schema, parse_execution,
  argument_ok, mismatched, validate_passing_verification, verification_schema, unproven,
}
use forge_ai.Contracts.Review.Bindings.{Binds, validate_approval-Binds}
use forge_ai.Contracts.Review.Descriptors.{
  Leased, validate_descriptor-Leased, validate_passing_verification-passed, passed,
}
use forge_ai.Fixtures.{
  hashing, approval_of, context_of, execution_subject, execution_body, descriptor, verification,
}

approval_accepted :
    validate_approval hashing
      (approval_of execution 1050 6 1500 9000)
      (execution_subject 9000)
      (context_of execution 1050 6 1500 9000)
    ≡ ok (approval_of execution 1050 6 1500 9000)
unfolding validate_approval approval_schema context_schema subject_schema refused stale out_of_scope
    unbound out_of_time execution_schema command_policy_schema command_schema migration_schema
    required_checks resources_schema argument_ok
approval_accepted = refl

descriptor_accepted :
    validate_descriptor hashing descriptor
      (execution_subject 9000)
      (approval_of execution 1050 6 1500 9000)
      (context_of execution 1050 6 1500 9000)
      4
    ≡ ok descriptor
unfolding validate_descriptor validate_approval approval_schema context_schema subject_schema
    refused stale out_of_scope unbound out_of_time execution_schema command_policy_schema
    command_schema migration_schema required_checks resources_schema argument_ok descriptor_schema
    parse_execution mismatched
descriptor_accepted = refl

verification_accepted :
    validate_passing_verification hashing verification descriptor ≡ ok verification
unfolding validate_passing_verification verification_schema descriptor_schema resources_schema
    unproven
verification_accepted = refl

validate_approval-Binds_example :
    (approval_of execution 1050 6 1500 9000 ≡ approval_of execution 1050 6 1500 9000)
    × Binds hashing
        (approval_of execution 1050 6 1500 9000)
        (execution_subject 9000)
        (context_of execution 1050 6 1500 9000)
validate_approval-Binds_example =
    validate_approval-Binds hashing (approval_of execution 1050 6 1500 9000)
      (execution_subject 9000) (context_of execution 1050 6 1500 9000) approval_accepted

validate_descriptor-Leased_example :
    (descriptor ≡ descriptor)
    × Leased hashing descriptor
        (execution_body 9000)
        (approval_of execution 1050 6 1500 9000)
        (context_of execution 1050 6 1500 9000)
        4
validate_descriptor-Leased_example =
    validate_descriptor-Leased hashing descriptor (execution_body 9000)
      (approval_of execution 1050 6 1500 9000) (context_of execution 1050 6 1500 9000) 4
      descriptor_accepted

validate_passing_verification-passed_example :
    (verification ≡ verification)
    × (verification.origin ≡ runner)
    × (verification.candidate_digest ≡ descriptor.source_manifest_digest)
    × (verification.policy_digest ≡ descriptor.command_policy_digest)
    × (verification.lease_epoch ≡ descriptor.lease_epoch)
    × (verification.scope ≡ descriptor.scope)
    × (any (passed lint) verification.checks ≡ true)
validate_passing_verification-passed_example =
    validate_passing_verification-passed hashing verification descriptor lint verification_accepted
