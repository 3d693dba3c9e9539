-- ===== src/MergeQueue/Audits.antt =====
-- The audit outbox of internal/mergequeue/store.go: an audit is kept with the change that it reports,
-- and is delivered later.
use threadmill_agent_teams.Base.{
  ℕ, ◌+◌, Bool, true, false, not, ◌&&◌, ◌||◌, Option, none, some, List, [], ◌∷◌, ◌++◌, String,
  string_eq, bool_eq, ◌==◌, if◌then◌else◌, leb, ltb, sort, text_lt, lookup, insert,
}
use threadmill_agent_teams.Kernel.Errors.{
  Error, not_found, Result, ok, ◌>>=◌, ◌>>◌, reject_if, or_fail, invalid_argument,
  idempotency_conflict_error,
}
use threadmill_agent_teams.MergeQueue.Model.{AuditRecord, MergeStore}
use threadmill_agent_teams.MergeQueue.Checks.{dedupe_evidence, texts_eq}

abbrev pub slice : Option (List String) → List String
slice none = []
slice (some refs) = refs

-- append([]T(nil), refs...), which is nil where there is nothing to append.
abbrev pub clone_slice : List String → Option (List String)
clone_slice [] = none
clone_slice (ref ∷ refs) = some (ref ∷ refs)

unfoldable pub clone_audit : AuditRecord → AuditRecord
clone_audit audit = record audit { artifact_refs = clone_slice (slice audit.artifact_refs) }

unfoldable pub pairs_eq : List (String × String) → List (String × String) → Bool
pairs_eq [] [] = true
pairs_eq [] (q ∷ qs) = false
pairs_eq (p ∷ ps) [] = false
pairs_eq ((k, v) ∷ ps) ((j, w) ∷ qs) = k == j && v == w && pairs_eq ps qs

-- Nil and an empty slice have different JSON texts.
unfoldable pub slices_eq : Option (List String) → Option (List String) → Bool
unfolding texts_eq
slices_eq none none = true
slices_eq none (some ts) = false
slices_eq (some ss) none = false
slices_eq (some ss) (some ts) = texts_eq ss ts

abbrev pub by_key : List (String × String) → List (String × String)
by_key = sort (λ p q. text_lt p.0 q.0)

-- Equal JSON texts, in which a map's keys are sorted, `Delivered` aside.
unfoldable pub equal_audit : AuditRecord → AuditRecord → Bool
unfolding pairs_eq slices_eq sort
equal_audit left right =
    left.stable_key == right.stable_key
    && left.kind == right.kind
    && left.project_id == right.project_id
    && left.task_id == right.task_id
    && left.workspace_ref == right.workspace_ref
    && pairs_eq (by_key left.payload) (by_key right.payload)
    && slices_eq left.artifact_refs right.artifact_refs

-- The audit as appendAuditLocked compares it.
unfoldable pub prepared : AuditRecord → AuditRecord
unfolding dedupe_evidence
prepared audit = record audit { artifact_refs = some (dedupe_evidence (slice audit.artifact_refs)) }

unfoldable pub append_found : MergeStore → AuditRecord → Option AuditRecord → Result MergeStore
unfolding clone_audit equal_audit
append_found s audit none = ok (record s {
  audits = insert audit.stable_key (clone_audit audit) s.audits;
  audit_order = s.audit_order ++ (audit.stable_key ∷ []);
})
append_found s audit (some existing) = do
  reject_if (not (equal_audit existing audit)) idempotency_conflict_error
  ok s

-- appendAuditLocked
unfoldable pub append_audit : MergeStore → AuditRecord → Result MergeStore
unfolding prepared append_found
append_audit s audit = do
  reject_if
      (audit.stable_key == ""
        || audit.kind == ""
        || audit.project_id == ""
        || audit.task_id == ""
        || audit.workspace_ref == "")
      (invalid_argument "merge audit identity is required")
  append_found s (prepared audit) (lookup audit.stable_key s.audits)

-- A key of the order that is missing from the map would be read as the zero audit.
abbrev no_audit : AuditRecord
no_audit = record {
  stable_key = "";
  kind = "";
  project_id = "";
  task_id = "";
  workspace_ref = "";
  payload = [];
  artifact_refs = none;
  delivered = false;
}

abbrev audit_at : Option AuditRecord → AuditRecord
audit_at none = no_audit
audit_at (some audit) = audit

abbrev awaits : String → AuditRecord → Bool
awaits project_id audit =
    not audit.delivered && (project_id == "" || audit.project_id == project_id)

-- The loop of pendingAudits, with the number of audits that it has collected. A limit of zero is none.
unfoldable pub collect : MergeStore → String → ℕ → ℕ → List String → List AuditRecord
unfolding clone_audit
collect s project_id limit taken [] = []
collect s project_id limit taken (key ∷ keys) =
    let audit = audit_at (lookup key s.audits) in
    let waits = awaits project_id audit in
    let rest = collect s project_id limit (if waits then taken + 1 else taken) keys in
    if waits
    then clone_audit audit ∷ (if ltb 0 limit && leb limit (taken + 1) then [] else rest)
    else rest

unfoldable pub pending_audits : MergeStore → String → ℕ → List AuditRecord
unfolding collect
pending_audits s project_id limit = collect s project_id limit 0 s.audit_order

audit_missing : Error
audit_missing = record {
  code = not_found;
  message = "merge audit not found";
  recoverable = false;
  details = [];
}

unfoldable pub mark_audit_delivered : MergeStore → String → Result MergeStore
unfolding audit_missing
mark_audit_delivered s key = do
  audit ← or_fail (lookup key s.audits) audit_missing
  ok (record s { audits = insert key (record audit { delivered = true }) s.audits })
