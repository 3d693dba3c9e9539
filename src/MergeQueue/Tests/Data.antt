-- ===== src/MergeQueue/Tests/Data.antt =====
-- A host, two requests, and the calls that merge one of them.
use threadmill_agent_teams.Base.{ℕ, true, false, none, some, List, [], ◌∷◌, String}
use threadmill_agent_teams.MergeQueue.Model.{
  Status, FailureReason, OperationStatus, Candidate, Claim, EnqueueRequest, AuditRecord,
  MergeOperation, MergeOperationRequest,
}
use threadmill_agent_teams.MergeQueue.Checks.{Host}
use threadmill_agent_teams.MergeQueue.Calls.{Call}

abbrev pub host : Host
host = record {
  absolute = λ s. some s;
  eval_symlinks = λ s. none;
  is_directory = λ s. true;
  clean = λ s. s;
  windows = false;
  to_lower = λ s. s;
}

abbrev pub object_id : String
object_id = "0123456789abcdef0123456789abcdef01234567"

abbrev pub request_of : String → EnqueueRequest
request_of id = record {
  id = id;
  project_id = "project";
  task_id = "task";
  workspace_ref = "workspace";
  verify_result_ref = "result";
  diff_artifact_ref = "diff";
  target_repository = " /repo ";
  target_branch = "";
  base_revision = object_id;
  main_revision = object_id;
  candidate_revision = object_id;
  evidence_refs = "result" ∷ "" ∷ "log" ∷ [];
}

abbrev pub audit_of : String → List String → AuditRecord
audit_of key refs = record {
  stable_key = key;
  kind = "MergeCandidateQueued";
  project_id = "project";
  task_id = "task";
  workspace_ref = "workspace";
  payload = ("candidate_id", "c1") ∷ [];
  artifact_refs = some refs;
  delivered = false;
}

abbrev pub candidate_of : String → Status → String → ℕ → ℕ → Candidate
candidate_of id status merged created updated = record {
  id = id;
  project_id = "project";
  task_id = "task";
  workspace_ref = "workspace";
  verify_result_ref = "result";
  diff_artifact_ref = "diff";
  target_repository = "/repo";
  target_branch = "main";
  base_revision = object_id;
  main_revision = object_id;
  candidate_revision = object_id;
  status = status;
  failure_reason = FailureReason.other "";
  merged_revision = merged;
  evidence_refs = "diff" ∷ "log" ∷ "result" ∷ [];
  created_at = created;
  updated_at = updated;
}

abbrev pub claim_on : String → ℕ → Claim
claim_on id at = record {
  candidate = candidate_of id Status.merge_check "" 1 at;
  owner_id = "memory";
  token = "memory:c1";
  expires_at = 3600000000003;
}

abbrev pub merge_request : MergeOperationRequest
merge_request = record {
  expected_main_revision = object_id;
  expected_merged_revision = object_id;
  evidence_refs = "result" ∷ [];
  audit = audit_of "merged" ("result" ∷ []);
}

abbrev pub operation : OperationStatus → MergeOperation
operation status = record {
  id = "memory:c1";
  token = "token";
  candidate_id = "c1";
  target_repository = "/repo";
  target_branch = "main";
  expected_main_revision = object_id;
  expected_merged_revision = object_id;
  status = status;
  evidence_refs = "result" ∷ [];
  audit = audit_of "merged" ("result" ∷ []);
  recovery_reason = "";
}

abbrev pub enqueued : List Call
enqueued =
    Call.enqueues host (request_of "c1") (audit_of "queued:c1" ("result" ∷ [])) 1
    ∷ Call.enqueues host (request_of "c2") (audit_of "queued:c2" ("result" ∷ [])) 1
    ∷ []

-- The first candidate is claimed, checked, and a merge of it begins.
abbrev pub merging : List Call
merging =
    Call.enqueues host (request_of "c1") (audit_of "queued:c1" ("result" ∷ [])) 1
    ∷ Call.enqueues host (request_of "c2") (audit_of "queued:c2" ("result" ∷ [])) 1
    ∷ Call.claims host "/repo" 2 3
    ∷ Call.advances (claim_on "c1" 2) Status.merge_check Status.targeted_verify [] "" 4
    ∷ Call.begins (claim_on "c1" 2) merge_request "token"
    ∷ []
