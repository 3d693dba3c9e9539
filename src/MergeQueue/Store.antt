-- ===== src/MergeQueue/Store.antt =====
-- The candidates and the claims of internal/mergequeue/store.go. Each method runs under the store's
-- mutex. The clock is an argument. A method that an error ends leaves the store as it was.
use threadmill_agent_teams.Base.{
  ℕ, ◌+◌, Bool, true, false, not, ◌&&◌, ◌||◌, Option, none, some, List, [], ◌∷◌, String, string_eq,
  nat_eq, ◌==◌, ◌!=◌, if◌then◌else◌, ltb, sort, text_lt, lookup, insert, delete, ◌^^◌,
}
use threadmill_agent_teams.Kernel.Errors.{
  Error, not_found, Result, ok, ◌>>=◌, ◌>>◌, reject_if, or_fail, idempotency_conflict_error,
  lease_conflict_error,
}
use threadmill_agent_teams.MergeQueue.Model.{
  Status, FailureReason, OperationStatus, Candidate, Claim, EnqueueRequest, AuditRecord,
  MergeOperation, MergeStore, status_eq, failure_reason_eq, operation_status_eq,
}
use threadmill_agent_teams.MergeQueue.Checks.{
  Host, normalize_target_repository, validate_enqueue, same_enqueue, request_evidence,
}
use threadmill_agent_teams.MergeQueue.Audits.{append_audit}

unfoldable pub candidate_missing : Error
candidate_missing = record {
  code = not_found;
  message = "merge candidate not found";
  recoverable = false;
  details = [];
}

abbrev pub put_candidate : MergeStore → Candidate → MergeStore
put_candidate s c = record s { candidates = insert c.id c s.candidates }

unfoldable pub new_candidate : EnqueueRequest → ℕ → Candidate
unfolding request_evidence
new_candidate req now = record {
  id = req.id;
  project_id = req.project_id;
  task_id = req.task_id;
  workspace_ref = req.workspace_ref;
  verify_result_ref = req.verify_result_ref;
  diff_artifact_ref = req.diff_artifact_ref;
  target_repository = req.target_repository;
  target_branch = req.target_branch;
  base_revision = req.base_revision;
  main_revision = req.main_revision;
  candidate_revision = req.candidate_revision;
  status = Status.queued;
  failure_reason = FailureReason.other "";
  merged_revision = "";
  evidence_refs = request_evidence req;
  created_at = now;
  updated_at = now;
}

unfoldable pub enqueue_found :
    MergeStore
    → EnqueueRequest
    → AuditRecord
    → ℕ
    → Option Candidate
    → Result (MergeStore × Candidate)
unfolding new_candidate same_enqueue append_audit
enqueue_found s req audit now none = do
  let candidate = new_candidate req now
  audited ← append_audit s audit
  ok (put_candidate audited candidate, candidate)
enqueue_found s req audit now (some existing) = do
  reject_if (not (same_enqueue existing req)) idempotency_conflict_error
  audited ← append_audit s audit
  ok (audited, existing)

-- The request with its repository in normal form and its default branch.
abbrev pub targeted : EnqueueRequest → String → EnqueueRequest
targeted req repository = record req {
  target_repository = repository;
  target_branch = if req.target_branch == "" then "main" else req.target_branch;
}

unfoldable pub enqueue :
    Host → MergeStore → EnqueueRequest → AuditRecord → ℕ → Result (MergeStore × Candidate)
unfolding normalize_target_repository validate_enqueue enqueue_found
enqueue host s req audit now = do
  repository ← normalize_target_repository host req.target_repository
  let request = targeted req repository
  validate_enqueue request
  enqueue_found s request audit now (lookup request.id s.candidates)

unfoldable pub get : MergeStore → String → Result Candidate
unfolding candidate_missing
get s id = or_fail (lookup id s.candidates) candidate_missing

unfoldable pub is_active : OperationStatus → Bool
is_active status = status == OperationStatus.pending || status == OperationStatus.recovery_required

-- activeOperationLocked, over the operations in one of the orders of the map.
unfoldable pub active_operation : List (String × MergeOperation) → String → Option MergeOperation
unfolding is_active
active_operation [] repository = none
active_operation ((id, op) ∷ ops) repository =
    let rest = active_operation ops repository in
    if op.target_repository == repository && is_active op.status then some op else rest

unfoldable pub claimable : String → Candidate → Bool
claimable repository c =
    c.target_repository == repository
    && (c.status == Status.queued
        || c.status == Status.merge_check
        || c.status == Status.targeted_verify)

unfoldable pub waiting : String → List (String × Candidate) → List Candidate
unfolding claimable
waiting repository [] = []
waiting repository ((id, c) ∷ rest) =
    let more = waiting repository rest in if claimable repository c then c ∷ more else more

-- The oldest first, and of one age in the order of the identifiers.
unfoldable pub older : Candidate → Candidate → Bool
older a b =
    if a.created_at == b.created_at then text_lt a.id b.id else ltb a.created_at b.created_at

-- One hour, in nanoseconds.
abbrev pub claim_ttl : ℕ
claim_ttl = 3600000000000

abbrev pub begun : Candidate → ℕ → Candidate
begun c now =
    if c.status == Status.queued
    then record c { status = Status.merge_check; updated_at = now }
    else c

unfoldable pub claim_of : Candidate → ℕ → Claim
claim_of c later = record {
  candidate = c;
  owner_id = "memory";
  token = "memory:" ^^ c.id;
  expires_at = later + claim_ttl;
}

unfoldable pub claim_first :
    MergeStore → String → ℕ → ℕ → List Candidate → MergeStore × Option Claim
unfolding claim_of
claim_first s repository now later [] = (s, none)
claim_first s repository now later (first ∷ rest) =
    let candidate = begun first now in
    let claim = claim_of candidate later in
    let written = if first.status == Status.queued then put_candidate s candidate else s in
    (record written { repo_claims = insert repository claim s.repo_claims }, some claim)

abbrev pub given {ℓ} : {A : Type ℓ} → Option A → Bool
given none = false
given (some a) = true

-- The claim, where there is one to make, at the two readings of the clock.
unfoldable pub claim_next : Host → MergeStore → String → ℕ → ℕ → Result (MergeStore × Option Claim)
unfolding normalize_target_repository active_operation waiting older sort claim_first
claim_next host s target now later = do
  repository ← normalize_target_repository host target
  ok (
      if given (active_operation s.operations repository) || given (lookup repository s.repo_claims)
      then (s, none)
      else claim_first s repository now later (sort older (waiting repository s.candidates)))

unfoldable pub claim_current : MergeStore → Claim → Bool
claim_current s claim = elim (lookup claim.candidate.target_repository s.repo_claims) [
  | none ↦ false
  | some current ↦ current.candidate.id == claim.candidate.id && current.token == claim.token
]

unfoldable pub lost_claim : Error
unfolding lease_conflict_error
lost_claim = lease_conflict_error "merge claim is no longer current"

-- requireClaimLocked
unfoldable pub require_claim : MergeStore → Claim → Result (Unit {0})
unfolding claim_current lost_claim
require_claim s claim = reject_if (not (claim_current s claim)) lost_claim

unfoldable pub renew_claim : MergeStore → Claim → ℕ → Result (MergeStore × Claim)
unfolding lost_claim candidate_missing
renew_claim s claim now = do
  let repository = claim.candidate.target_repository
  current ← or_fail (lookup repository s.repo_claims) lost_claim
  reject_if (current.candidate.id != claim.candidate.id || current.token != claim.token) lost_claim
  candidate ← or_fail (lookup claim.candidate.id s.candidates) candidate_missing
  let renewed = record current { candidate = candidate; expires_at = now + claim_ttl }
  ok (record s { repo_claims = insert repository renewed s.repo_claims }, renewed)

unfoldable pub release_claim : MergeStore → Claim → MergeStore
unfolding claim_current
release_claim s claim =
    if claim_current s claim
    then record s { repo_claims = delete claim.candidate.target_repository s.repo_claims }
    else s
