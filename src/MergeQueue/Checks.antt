-- ===== src/MergeQueue/Checks.antt =====
-- The checks of internal/mergequeue/store.go that need no state: requests, branches, revisions,
-- references and audits. What the code asks of the host's file system is a `Host`.
use threadmill_agent_teams.Base.{
  ℕ, Bool, true, false, not, ◌&&◌, ◌||◌, Option, none, some, List, [], ◌∷◌, String, string_eq,
  nat_eq, bool_eq, ◌==◌, if◌then◌else◌, leb, ltb, mem, sort, text_lt, is_blank, trim_space,
  has_prefix, has_suffix, contains, any_char, contains_any, characters,
}
use threadmill_agent_teams.Kernel.Errors.{
  Result, ok, ◌>>=◌, ◌>>◌, reject_if, or_fail, invalid_argument,
}
use threadmill_agent_teams.MergeQueue.Model.{
  Status, FailureReason, Candidate, EnqueueRequest, status_eq, failure_reason_eq,
}

-- What filepath, os and strings answer: the absolute form of a path, the path behind its links,
-- whether a directory stands there, the shortest form, and on Windows the lower case.
pub record Host : Type 0 where
  pub absolute : String → Option String
  pub eval_symlinks : String → Option String
  pub is_directory : String → Bool
  pub clean : String → String
  pub windows : Bool
  pub to_lower : String → String

abbrev or_else : Option String → String → String
or_else none s = s
or_else (some t) s = t

unfoldable pub normalize_target_repository : Host → String → Result String
unfolding trim_space
normalize_target_repository host value = do
  let trimmed = trim_space value
  reject_if (trimmed == "") (invalid_argument "target_repository is required")
  path ← or_fail (host.absolute trimmed) (invalid_argument "target_repository is invalid")
  let resolved = or_else (host.eval_symlinks path) path
  reject_if (not (host.is_directory resolved))
      (invalid_argument "target_repository must be a directory")
  let short = host.clean resolved
  ok (if host.windows then host.to_lower short else short)

abbrev is_control : ℕ → Bool
is_control c = ltb c 0x20 || c == 0x7f

unfoldable pub valid_branch : String → Bool
valid_branch branch =
    not (
      branch == ""
      || has_prefix branch "-"
      || has_suffix branch "."
      || has_suffix branch ".lock"
      || contains branch ".."
      || contains_any branch " ~^:?*[\\"
      || contains branch "//"
      || has_prefix branch "/"
      || has_suffix branch "/")
    && not (any_char is_control branch)

abbrev is_hex : ℕ → Bool
is_hex c = (leb 48 c && leb c 57) || (leb 97 c && leb c 102) || (leb 65 c && leb c 70)

-- A text with a character that is not a hexadecimal digit is refused, whatever its length in bytes.
unfoldable pub valid_revision : String → Bool
valid_revision revision =
    (characters revision == 40 || characters revision == 64)
    && not (any_char (λ c. not (is_hex c)) revision)

-- The loop of dedupeEvidence, from the references that it has seen.
unfoldable pub unseen : List String → List String → List String
unseen seen [] = []
unseen seen (ref ∷ refs) =
    let skipped = ref == "" || mem ref seen in
    let rest = unseen (if skipped then seen else ref ∷ seen) refs in
    if skipped then rest else ref ∷ rest

unfoldable pub dedupe_evidence : List String → List String
unfolding unseen sort
dedupe_evidence refs = sort text_lt (unseen [] refs)

-- The references that a candidate starts with.
unfoldable pub request_evidence : EnqueueRequest → List String
unfolding dedupe_evidence
request_evidence req =
    dedupe_evidence (req.verify_result_ref ∷ req.diff_artifact_ref ∷ req.evidence_refs)

unfoldable pub texts_eq : List String → List String → Bool
texts_eq [] [] = true
texts_eq [] (t ∷ ts) = false
texts_eq (s ∷ ss) [] = false
texts_eq (s ∷ ss) (t ∷ ts) = s == t && texts_eq ss ts

unfoldable pub equal_evidence : List String → List String → Bool
unfolding texts_eq
equal_evidence left right = texts_eq left right

unfoldable pub validate_enqueue : EnqueueRequest → Result (Unit {0})
unfolding valid_branch valid_revision
validate_enqueue req = do
  reject_if
      (req.id == ""
        || req.project_id == ""
        || req.task_id == ""
        || req.workspace_ref == ""
        || req.verify_result_ref == ""
        || req.diff_artifact_ref == ""
        || is_blank req.target_repository
        || is_blank req.base_revision
        || is_blank req.main_revision
        || is_blank req.candidate_revision)
      (invalid_argument
        "merge candidate requires identity, workspace, verify/diff refs, target, and revisions")
  reject_if (not (valid_branch req.target_branch)) (invalid_argument "target_branch is invalid")
  reject_if
      (not (valid_revision req.base_revision)
        || not (valid_revision req.main_revision)
        || not (valid_revision req.candidate_revision))
      (invalid_argument "merge candidate revisions must be immutable git object IDs")

unfoldable pub same_enqueue : Candidate → EnqueueRequest → Bool
unfolding request_evidence equal_evidence
same_enqueue c req =
    let branch = if req.target_branch == "" then "main" else req.target_branch in
    c.project_id == req.project_id
    && c.task_id == req.task_id
    && c.workspace_ref == req.workspace_ref
    && c.verify_result_ref == req.verify_result_ref
    && c.diff_artifact_ref == req.diff_artifact_ref
    && c.target_repository == req.target_repository
    && c.target_branch == branch
    && c.base_revision == req.base_revision
    && c.main_revision == req.main_revision
    && c.candidate_revision == req.candidate_revision
    && equal_evidence c.evidence_refs (request_evidence req)

unfoldable pub valid_advance : Status → Status → Bool
valid_advance from to =
    (from == Status.merge_check && to == Status.targeted_verify)
    || (from == Status.targeted_verify && to == Status.merged)

unfoldable pub valid_failure_reason : FailureReason → Bool
valid_failure_reason reason =
    reason == FailureReason.conflict
    || reason == FailureReason.permission
    || reason == FailureReason.main_drift
    || reason == FailureReason.verify_failed
