-- ===== src/MergeQueue/Model.antt =====
-- The types of internal/mergequeue: model.go, and the records of store.go and reconciler.go that the
-- store keeps.
use threadmill_agent_teams.Base.{ℕ, Bool, Option, List, String, Eq, String-discrete}

pub data Status : Type 0 where
  queued merge_check targeted_verify merged failed : Status
  other : String → Status

pub data FailureReason : Type 0 where
  conflict permission main_drift verify_failed : FailureReason
  other : String → FailureReason

-- The status texts of a merge operation.
pub data OperationStatus : Type 0 where
  pending finalized aborted recovery_required : OperationStatus
  other : String → OperationStatus

unfoldable pub Status-discrete : Discrete Status
unfolding String-discrete
Status-discrete = hlevel String-discrete

unfoldable pub FailureReason-discrete : Discrete FailureReason
unfolding String-discrete
FailureReason-discrete = hlevel String-discrete

unfoldable pub OperationStatus-discrete : Discrete OperationStatus
unfolding String-discrete
OperationStatus-discrete = hlevel String-discrete

instance abbrev pub status_eq : Eq Status
status_eq = record { dec = Status-discrete }

instance abbrev pub failure_reason_eq : Eq FailureReason
failure_reason_eq = record { dec = FailureReason-discrete }

instance abbrev pub operation_status_eq : Eq OperationStatus
operation_status_eq = record { dec = OperationStatus-discrete }

pub record Candidate : Type 0 where
  pub id : String
  pub project_id : String
  pub task_id : String
  pub workspace_ref : String
  pub verify_result_ref : String
  pub diff_artifact_ref : String
  pub target_repository : String
  pub target_branch : String
  pub base_revision : String
  pub main_revision : String
  pub candidate_revision : String
  pub status : Status
  pub failure_reason : FailureReason
  pub merged_revision : String
  pub evidence_refs : List String
  pub created_at : ℕ
  pub updated_at : ℕ

pub record Claim : Type 0 where
  pub candidate : Candidate
  pub owner_id : String
  pub token : String
  pub expires_at : ℕ

pub record EnqueueRequest : Type 0 where
  pub id : String
  pub project_id : String
  pub task_id : String
  pub workspace_ref : String
  pub verify_result_ref : String
  pub diff_artifact_ref : String
  pub target_repository : String
  pub target_branch : String
  pub base_revision : String
  pub main_revision : String
  pub candidate_revision : String
  pub evidence_refs : List String

-- `kind` is the field Type. The references may be a nil slice, `none`, which is not the JSON text of
-- an empty one.
pub record AuditRecord : Type 0 where
  pub stable_key : String
  pub kind : String
  pub project_id : String
  pub task_id : String
  pub workspace_ref : String
  pub payload : List (String × String)
  pub artifact_refs : Option (List String)
  pub delivered : Bool

pub record MergeOperation : Type 0 where
  pub id : String
  pub token : String
  pub candidate_id : String
  pub target_repository : String
  pub target_branch : String
  pub expected_main_revision : String
  pub expected_merged_revision : String
  pub status : OperationStatus
  pub evidence_refs : List String
  pub audit : AuditRecord
  pub recovery_reason : String

pub record MergeOperationRequest : Type 0 where
  pub expected_main_revision : String
  pub expected_merged_revision : String
  pub evidence_refs : List String
  pub audit : AuditRecord

-- MemoryStore of store.go, without its mutex and its clock.
pub record MergeStore : Type 0 where
  pub candidates : List (String × Candidate)
  pub repo_claims : List (String × Claim)
  pub operations : List (String × MergeOperation)
  pub audits : List (String × AuditRecord)
  pub audit_order : List String
