-- ===== src/MergeQueue/Calls.antt =====
-- The calls of internal/mergequeue/store.go as one type, and runs of them. A call that an error ends
-- leaves the store as it was, but for markMergeOperationRecoveryRequired, whose store is its own.
use threadmill_agent_teams.Base.{ℕ, List, [], ◌∷◌, String}
use threadmill_agent_teams.Kernel.Errors.{Result, ok, err}
use threadmill_agent_teams.MergeQueue.Model.{
  Status, FailureReason, Claim, EnqueueRequest, AuditRecord, MergeOperation, MergeOperationRequest,
  MergeStore,
}
use threadmill_agent_teams.MergeQueue.Checks.{Host}
use threadmill_agent_teams.MergeQueue.Audits.{mark_audit_delivered}
use threadmill_agent_teams.MergeQueue.Store.{enqueue, claim_next, renew_claim, release_claim}
use threadmill_agent_teams.MergeQueue.Steps.{
  advance, fail, begin_merge_operation, finalize_merge_operation, abort_merge_operation,
  mark_merge_operation_recovery_required,
}

pub data Call : Type 0 where
  enqueues : Host → EnqueueRequest → AuditRecord → ℕ → Call
  claims : Host → String → ℕ → ℕ → Call
  renews : Claim → ℕ → Call
  releases : Claim → Call
  advances : Claim → Status → Status → List String → String → ℕ → Call
  fails : Claim → Status → FailureReason → List String → AuditRecord → ℕ → Call
  begins : Claim → MergeOperationRequest → String → Call
  finalizes : MergeOperation → ℕ → Call
  aborts : MergeOperation → Call
  needs_recovery : MergeOperation → String → Call
  delivers : String → Call

unfoldable pub kept : {A : Type 0} → MergeStore → Result (MergeStore × A) → MergeStore
kept s (err e) = s
kept s (ok (s', a)) = s'

unfoldable pub kept_store : MergeStore → Result MergeStore → MergeStore
kept_store s (err e) = s
kept_store s (ok s') = s'

unfoldable pub call : MergeStore → Call → MergeStore
unfolding kept kept_store
call s (enqueues host req audit now) = kept s (enqueue host s req audit now)
call s (claims host target now later) = kept s (claim_next host s target now later)
call s (renews claim now) = kept s (renew_claim s claim now)
call s (releases claim) = release_claim s claim
call s (advances claim from to refs revision now) =
    kept s (advance s claim from to refs revision now)
call s (fails claim from reason refs audit now) = kept s (fail s claim from reason refs audit now)
call s (begins claim req token) = kept s (begin_merge_operation s claim req token)
call s (finalizes op now) = kept s (finalize_merge_operation s op now)
call s (aborts op) = kept_store s (abort_merge_operation s op)
call s (needs_recovery op reason) = (mark_merge_operation_recovery_required s op reason).0
call s (delivers key) = kept_store s (mark_audit_delivered s key)

unfoldable pub calls : MergeStore → List Call → MergeStore
unfolding call
calls s [] = s
calls s (c ∷ cs) = calls (call s c) cs

-- NewMemoryStore
unfoldable pub new_merge_store : MergeStore
new_merge_store = record {
  candidates = [];
  repo_claims = [];
  operations = [];
  audits = [];
  audit_order = [];
}
