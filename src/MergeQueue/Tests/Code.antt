-- ===== src/MergeQueue/Tests/Code.antt =====
-- Every function on a merge queue, to compute with.
use threadmill_agent_teams.Base.{
  String-discrete, Bool-discrete, Number-discrete, lookup, insert, delete, mem, any, select,
  is_space, is_blank, decimal, Integer-discrete, ◌+ℤ◌, ◌-ℤ◌, ◌*ℤ◌, int64, sort_insert, sort,
  trim_space, has_prefix, has_suffix, contains, any_char, contains_any, characters,
}
use threadmill_agent_teams.Kernel.Errors.{
  ErrorCode-discrete, code_text, each, forbidden_error, invalid_argument,
  idempotency_conflict_error, stale_binding_error, lease_conflict_error, scope_not_pending_error,
  endpoint_in_flight_error, invalid_graph_error, incomplete_stop_evidence_error,
  transition_rejected_error, command_error, is_code, is_zero_id, require_id,
}
use threadmill_agent_teams.Kernel.Revision.{
  is_latest_read, next, revision_conflict_error, check_expected_revision,
}
use threadmill_agent_teams.MergeQueue.Model.{
  Status-discrete, FailureReason-discrete, OperationStatus-discrete,
}
use threadmill_agent_teams.MergeQueue.Checks.{
  normalize_target_repository, valid_branch, valid_revision, unseen, dedupe_evidence,
  request_evidence, texts_eq, equal_evidence, validate_enqueue, same_enqueue, valid_advance,
  valid_failure_reason,
}
use threadmill_agent_teams.MergeQueue.Audits.{
  clone_audit, pairs_eq, slices_eq, equal_audit, prepared, append_found, append_audit, collect,
  pending_audits, mark_audit_delivered,
}
use threadmill_agent_teams.MergeQueue.Store.{
  candidate_missing, new_candidate, enqueue_found, enqueue, get, is_active, active_operation,
  claimable, waiting, older, claim_of, claim_first, claim_next, claim_current, lost_claim,
  require_claim, renew_claim, release_claim,
}
use threadmill_agent_teams.MergeQueue.Steps.{
  advance, fail_again, fail_first, fail, operation_of, begin_found, begin_merge_operation,
  require_operation, finalize_found, finalize_merge_operation, abort_merge_operation,
  mark_merge_operation_recovery_required, pending_merge_operation,
}
use threadmill_agent_teams.MergeQueue.Calls.{kept, kept_store, call, calls, new_merge_store}
use threadmill_agent_teams.MergeQueue.Fencing.{presented}

-- Unfolding this computes the code on concrete data.
unfoldable pub merge_code : Unit {0}
unfolding String-discrete Bool-discrete Number-discrete lookup insert delete mem any select is_space
    is_blank decimal Integer-discrete ◌+ℤ◌ ◌-ℤ◌ ◌*ℤ◌ int64 sort_insert sort trim_space has_prefix
    has_suffix contains any_char contains_any characters ErrorCode-discrete code_text each
    forbidden_error invalid_argument idempotency_conflict_error stale_binding_error
    lease_conflict_error scope_not_pending_error endpoint_in_flight_error invalid_graph_error
    incomplete_stop_evidence_error transition_rejected_error command_error is_code is_zero_id
    require_id is_latest_read next revision_conflict_error check_expected_revision Status-discrete
    FailureReason-discrete OperationStatus-discrete normalize_target_repository valid_branch
    valid_revision unseen dedupe_evidence request_evidence texts_eq equal_evidence validate_enqueue
    same_enqueue valid_advance valid_failure_reason clone_audit pairs_eq slices_eq equal_audit
    prepared append_found append_audit collect pending_audits mark_audit_delivered candidate_missing
    new_candidate enqueue_found enqueue get is_active active_operation claimable waiting older
    claim_of claim_first claim_next claim_current lost_claim require_claim renew_claim release_claim
    advance fail_again fail_first fail operation_of begin_found begin_merge_operation
    require_operation finalize_found finalize_merge_operation abort_merge_operation
    mark_merge_operation_recovery_required pending_merge_operation kept kept_store call calls
    new_merge_store presented
merge_code = tt
