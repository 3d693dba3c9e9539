-- ===== src/MergeQueue/Steps.antt =====
-- How internal/mergequeue/store.go moves a claimed candidate on, and its merge operations.
use threadmill_agent_teams.Base.{
  ℕ, Bool, true, false, not, ◌&&◌, ◌||◌, Option, none, some, List, [], ◌∷◌, ◌++◌, String, string_eq,
  nat_eq, ◌==◌, ◌!=◌, if◌then◌else◌, lookup, insert, is_blank, ◌^^◌,
}
use threadmill_agent_teams.Kernel.Errors.{
  Error, Result, ok, err, ◌>>=◌, ◌>>◌, reject_if, or_fail, invalid_argument, lease_conflict_error,
  transition_rejected_error,
}
use threadmill_agent_teams.MergeQueue.Model.{
  Status, FailureReason, OperationStatus, Candidate, Claim, AuditRecord, MergeOperation,
  MergeOperationRequest, MergeStore, status_eq, failure_reason_eq, operation_status_eq,
}
use threadmill_agent_teams.MergeQueue.Checks.{
  Host, normalize_target_repository, dedupe_evidence, valid_advance, valid_failure_reason,
}
use threadmill_agent_teams.MergeQueue.Audits.{append_audit, clone_audit}
use threadmill_agent_teams.MergeQueue.Store.{
  candidate_missing, put_candidate, require_claim, is_active, active_operation,
}

status_changed : Error
status_changed = transition_rejected_error "merge candidate status changed"

unfoldable pub advance :
    MergeStore
    → Claim
    → Status
    → Status
    → List String
    → String
    → ℕ
    → Result (MergeStore × Candidate)
unfolding valid_advance require_claim candidate_missing status_changed dedupe_evidence
advance s claim from to refs merged_revision now = do
  reject_if (not (valid_advance from to)) (invalid_argument "invalid merge candidate transition")
  require_claim s claim
  candidate ← or_fail (lookup claim.candidate.id s.candidates) candidate_missing
  reject_if (candidate.status != from) status_changed
  reject_if (to == Status.merged && is_blank merged_revision)
      (invalid_argument "merged_revision is required")
  let moved = record candidate {
    status = to;
    evidence_refs = dedupe_evidence (candidate.evidence_refs ++ refs);
    merged_revision = merged_revision;
    updated_at = now;
  }
  ok (put_candidate s moved, moved)

-- len(refs) == 0
abbrev pub no_refs : List String → Bool
no_refs [] = true
no_refs (ref ∷ refs) = false

-- A candidate that has failed for the reason.
unfoldable pub fail_again : MergeStore → Candidate → AuditRecord → Result (MergeStore × Candidate)
unfolding append_audit
fail_again s candidate audit = do audited ← append_audit s audit; ok (audited, candidate)

unfoldable pub fail_first :
    MergeStore
    → Candidate
    → String
    → Status
    → FailureReason
    → List String
    → AuditRecord
    → ℕ
    → Result (MergeStore × Candidate)
unfolding dedupe_evidence append_audit
fail_first s candidate id from reason refs audit now = do
  reject_if
      (candidate.status != from || (from != Status.merge_check && from != Status.targeted_verify))
      (transition_rejected_error "merge candidate cannot fail from current status")
  let failed = record candidate {
    status = Status.failed;
    failure_reason = reason;
    evidence_refs = dedupe_evidence (candidate.evidence_refs ++ refs);
    updated_at = now;
  }
  audited ← append_audit s audit
  ok (record audited { candidates = insert id failed audited.candidates }, failed)

unfoldable pub fail :
    MergeStore
    → Claim
    → Status
    → FailureReason
    → List String
    → AuditRecord
    → ℕ
    → Result (MergeStore × Candidate)
unfolding valid_failure_reason require_claim candidate_missing fail_again fail_first
fail s claim from reason refs audit now = do
  reject_if (not (valid_failure_reason reason) || no_refs refs)
      (invalid_argument "merge failure requires a valid reason and evidence refs")
  require_claim s claim
  candidate ← or_fail (lookup claim.candidate.id s.candidates) candidate_missing
  if candidate.status == Status.failed && candidate.failure_reason == reason
      then fail_again s candidate audit
      else fail_first s candidate claim.candidate.id from reason refs audit now

-- The operation that a request begins, with the token drawn for it.
unfoldable pub operation_of : Candidate → MergeOperationRequest → String → MergeOperation
unfolding dedupe_evidence clone_audit
operation_of c req token = record {
  id = "memory:" ^^ c.id;
  token = token;
  candidate_id = c.id;
  target_repository = c.target_repository;
  target_branch = c.target_branch;
  expected_main_revision = req.expected_main_revision;
  expected_merged_revision = req.expected_merged_revision;
  status = OperationStatus.pending;
  evidence_refs = dedupe_evidence req.evidence_refs;
  audit = clone_audit req.audit;
  recovery_reason = "";
}

unfoldable pub begin_found :
    MergeStore
    → Candidate
    → MergeOperationRequest
    → String
    → Option MergeOperation
    → Result (MergeStore × MergeOperation)
unfolding operation_of
begin_found s c req token none =
    let op = operation_of c req token in
    ok (record s { operations = insert op.id op s.operations }, op)
begin_found s c req token (some existing) = do
  reject_if
      (not (
        existing.candidate_id == c.id
        && existing.expected_main_revision == req.expected_main_revision
        && existing.expected_merged_revision == req.expected_merged_revision))
      (transition_rejected_error "active merge operation already exists for repository")
  ok (s, existing)

unfoldable pub begin_merge_operation :
    MergeStore → Claim → MergeOperationRequest → String → Result (MergeStore × MergeOperation)
unfolding require_claim candidate_missing status_changed active_operation begin_found
begin_merge_operation s claim req token = do
  reject_if (is_blank req.expected_main_revision || is_blank req.expected_merged_revision)
      (invalid_argument "merge operation revisions are required")
  require_claim s claim
  candidate ← or_fail (lookup claim.candidate.id s.candidates) candidate_missing
  reject_if (candidate.status != Status.targeted_verify) status_changed
  begin_found s candidate req token (active_operation s.operations candidate.target_repository)

lost_operation : Error
lost_operation = lease_conflict_error "merge operation is no longer current"

-- requireOperationLocked
unfoldable pub require_operation : MergeStore → MergeOperation → Result MergeOperation
unfolding lost_operation is_active
require_operation s op = do
  stored ← or_fail (lookup op.id s.operations) lost_operation
  reject_if (stored.token != op.token) lost_operation
  reject_if (not (is_active stored.status))
      (transition_rejected_error "merge operation is not active")
  ok stored

abbrev pub put_operation : MergeStore → MergeOperation → MergeStore
put_operation s op = record s { operations = insert op.id op s.operations }

unfoldable pub finalize_found :
    MergeStore → MergeOperation → Candidate → ℕ → Result (MergeStore × Candidate)
unfolding status_changed append_audit dedupe_evidence
finalize_found s stored candidate now = do
  reject_if (candidate.status != Status.targeted_verify) status_changed
  audited ← append_audit s stored.audit
  let merged = record candidate {
    status = Status.merged;
    evidence_refs = dedupe_evidence (candidate.evidence_refs ++ stored.evidence_refs);
    merged_revision = stored.expected_merged_revision;
    updated_at = now;
  }
  ok (
    put_operation (put_candidate audited merged)
        (record stored { status = OperationStatus.finalized }),
    merged,
  )

unfoldable pub finalize_merge_operation :
    MergeStore → MergeOperation → ℕ → Result (MergeStore × Candidate)
unfolding require_operation candidate_missing finalize_found
finalize_merge_operation s op now = do
  stored ← require_operation s op
  candidate ← or_fail (lookup stored.candidate_id s.candidates) candidate_missing
  if candidate.status == Status.merged
        && candidate.merged_revision == stored.expected_merged_revision
      then ok (s, candidate)
      else finalize_found s stored candidate now

unfoldable pub abort_merge_operation : MergeStore → MergeOperation → Result MergeStore
unfolding require_operation
abort_merge_operation s op = do
  stored ← require_operation s op
  ok (put_operation s (record stored { status = OperationStatus.aborted }))

-- The operation is marked before its candidate is looked up, so that a missing candidate is an error
-- after a change.
unfoldable pub mark_merge_operation_recovery_required :
    MergeStore → MergeOperation → String → MergeStore × Result Candidate
unfolding require_operation candidate_missing
mark_merge_operation_recovery_required s op reason = elim (require_operation s op) [
  | err e ↦ (s, err e)
  | ok stored ↦ (
    put_operation s
        (record stored { status = OperationStatus.recovery_required; recovery_reason = reason }),
    or_fail (lookup stored.candidate_id s.candidates) candidate_missing,
  )
]

unfoldable pub pending_merge_operation : Host → MergeStore → String → Result (Option MergeOperation)
unfolding normalize_target_repository active_operation
pending_merge_operation host s target = do
  repository ← normalize_target_repository host target
  ok (active_operation s.operations repository)
