-- ===== src/MergeQueue/Effects.antt =====
-- What each call of internal/mergequeue/store.go does to the candidates and the operations.
use threadmill_agent_teams.Base.{
  ℕ, ◌≡◌, ◌∙◌, inl, inr, refl, sym, subst, true, ◌==◌, ◌!=◌, ◌&&◌, ◌||◌, not, none, some, List,
  ◌++◌, String, string_eq, lookup, insert, is_blank, arith, Option-cases, if_cases,
}
use threadmill_agent_teams.Kernel.Errors.{ok, or_fail, reject_if, >>=-eq-ok}
use threadmill_agent_teams.Coordination.Transition.Machine.{or_fail-eq-ok}
use threadmill_agent_teams.MergeQueue.Model.{
  Status, FailureReason, Candidate, Claim, EnqueueRequest, AuditRecord, MergeStore, status_eq,
  failure_reason_eq, operation_status_eq,
}
use threadmill_agent_teams.MergeQueue.Checks.{
  Host, normalize_target_repository, same_enqueue, validate_enqueue, valid_advance,
  valid_failure_reason, dedupe_evidence,
}
use threadmill_agent_teams.MergeQueue.Audits.{append_audit}
use threadmill_agent_teams.MergeQueue.Store.{
  enqueue, enqueue_found, new_candidate, targeted, require_claim,
}
use threadmill_agent_teams.MergeQueue.Steps as Steps
use threadmill_agent_teams.MergeQueue.Steps.{
  advance, begin_merge_operation, begin_found, operation_of, require_operation,
  finalize_merge_operation, finalize_found, abort_merge_operation, put_operation,
  mark_merge_operation_recovery_required,
}
use threadmill_agent_teams.MergeQueue.Moves.{
  Move, Moved, Moved-same, Moved-put, Moved-new, append_audit-frame,
}
use threadmill_agent_teams.MergeQueue.Tables.{Tabled, Tabled-insert, Fenced}

-- The store is in order after the call, and each candidate has made at most one move.
pub record Effect (s s' : MergeStore) : Type 0 where
  pub moved : Moved s.candidates s'.candidates
  pub tabled : Tabled s'.candidates
  pub fenced : Fenced s'.operations

module _ (s : MergeStore) (tabled : Tabled s.candidates) (fenced : Fenced s.operations) where
  pub Effect-same :
      (s' : MergeStore) → s'.candidates ≡ s.candidates → s'.operations ≡ s.operations → Effect s s'
  Effect-same s' same ops = record {
    moved = Moved-same s.candidates s'.candidates same;
    tabled = subst Tabled (sym same) tabled;
    fenced = subst Fenced (sym ops) fenced;
  }

  pub Effect-put :
      (s' : MergeStore) (at : String) (c c' : Candidate)
      → lookup at s.candidates ≡ some c
      → Move c c'
      → c'.id ≡ c.id
      → s'.candidates ≡ insert at c' s.candidates
      → Fenced s'.operations
      → Effect s s'
  Effect-put s' at c c' found move own same f = record {
    moved = Moved-put s.candidates s'.candidates at c c' found move same;
    tabled =
        subst Tabled (sym same)
          (Tabled-insert at c' s.candidates (own ∙ tabled.keyed at c found) tabled);
    fenced = f;
  }

  pub enqueue-Effect :
      (host : Host) (s' : MergeStore) (req : EnqueueRequest) (audit : AuditRecord) (now : ℕ)
      (c : Candidate)
      → enqueue host s req audit now ≡ ok (s', c)
      → Effect s s'
  unfolding enqueue enqueue_found
  enqueue-Effect host s' req audit now c h =
      let (repository, _, h₁) =
        >>=-eq-ok (normalize_target_repository host req.target_repository) _ h in
      let request = targeted req repository in
      let (_, _, h₂) = >>=-eq-ok (validate_enqueue request) _ h₁ in
      elim (Option-cases (lookup request.id s.candidates)) [
        | inl free ↦
            let fresh = new_candidate request now in
            let h₃ : enqueue_found s request audit now none ≡ ok (s', c) =
              subst (λ o. enqueue_found s request audit now o ≡ ok (s', c)) free h₂ in
            let (audited, appended, h₄) = >>=-eq-ok (append_audit s audit) _ h₃ in
            let frame = append_audit-frame s audited audit appended in
            let same : s'.candidates ≡ insert req.id fresh s.candidates = ground arith in
            let ops : s'.operations ≡ s.operations = ground arith in
            record {
              moved = Moved-new s.candidates s'.candidates req.id fresh free same;
              tabled =
                  subst Tabled (sym same) (Tabled-insert req.id fresh s.candidates refl tabled);
              fenced = subst Fenced (sym ops) fenced;
            }
        | inr (existing, held) ↦
            let h₃ : enqueue_found s request audit now (some existing) ≡ ok (s', c) =
              subst (λ o. enqueue_found s request audit now o ≡ ok (s', c)) held h₂ in
            let (_, _, h₄) = >>=-eq-ok (reject_if (not (same_enqueue existing request)) _) _ h₃ in
            let (audited, appended, h₅) = >>=-eq-ok (append_audit s audit) _ h₄ in
            let frame = append_audit-frame s audited audit appended in
            Effect-same s' (ground arith) (ground arith)
      ]

  pub advance-Effect :
      (s' : MergeStore) (claim : Claim) (from to : Status) (refs : List String) (revision : String)
      (now : ℕ) (c : Candidate)
      → advance s claim from to refs revision now ≡ ok (s', c)
      → Effect s s'
  unfolding advance valid_advance
  advance-Effect s' claim from to refs revision now c h =
      let at = claim.candidate.id in
      let (_, valid, h₁) = >>=-eq-ok (reject_if (not (valid_advance from to)) _) _ h in
      let (_, _, h₂) = >>=-eq-ok (require_claim s claim) _ h₁ in
      let (old, found, h₃) = >>=-eq-ok (or_fail (lookup at s.candidates) _) _ h₂ in
      let held = or_fail-eq-ok (lookup at s.candidates) _ found in
      let (_, same_status, h₄) = >>=-eq-ok (reject_if (old.status != from) _) _ h₃ in
      let (_, revised, h₅) =
        >>=-eq-ok (reject_if (to == Status.merged && is_blank revision) _) _ h₄ in
      let more = dedupe_evidence (old.evidence_refs ++ refs) in
      let moved = record old {
        status = to;
        evidence_refs = more;
        merged_revision = revision;
        updated_at = now;
      } in
      let own = tabled.keyed at old held in
      let put : s'.candidates ≡ insert at moved s.candidates = ground arith in
      let ops : s'.operations ≡ s.operations = ground arith in
      let move : Move old moved = elim (status_eq.dec to Status.merged) [
        | yes merges ↦ Move.merge now more revision (ground arith) (ground arith) (ground arith)
        | no other ↦ Move.verify now more revision (ground arith) (ground arith)
      ] in
      Effect-put s' at old moved held move refl put (subst Fenced (sym ops) fenced)

  fail_again-Effect :
      (s' : MergeStore) (old c : Candidate) (audit : AuditRecord)
      → Steps.fail_again s old audit ≡ ok (s', c)
      → Effect s s'
  unfolding Steps.fail_again
  fail_again-Effect s' old c audit h =
      let (audited, appended, h₁) = >>=-eq-ok (append_audit s audit) _ h in
      let frame = append_audit-frame s audited audit appended in
      Effect-same s' (ground (arith, frame)) (ground (arith, frame))

  fail_first-Effect :
      (s' : MergeStore) (old : Candidate) (at : String) (from : Status) (reason : FailureReason)
      (refs : List String) (audit : AuditRecord) (now : ℕ) (c : Candidate)
      → lookup at s.candidates ≡ some old
      → valid_failure_reason reason ≡ true
      → Steps.fail_first s old at from reason refs audit now ≡ ok (s', c)
      → Effect s s'
  unfolding Steps.fail_first
  fail_first-Effect s' old at from reason refs audit now c held valid h =
      let more = dedupe_evidence (old.evidence_refs ++ refs) in
      let failed = record old {
        status = Status.failed;
        failure_reason = reason;
        evidence_refs = more;
        updated_at = now;
      } in
      let (_, allowed, h₁) =
        >>=-eq-ok
          (reject_if
            (old.status != from || (from != Status.merge_check && from != Status.targeted_verify))
            _)
          _ h in
      let (audited, appended, h₂) = >>=-eq-ok (append_audit s audit) _ h₁ in
      let frame = append_audit-frame s audited audit appended in
      let put : s'.candidates ≡ insert at failed s.candidates = ground (arith, frame) in
      let ops : s'.operations ≡ s.operations = ground (arith, frame) in
      let move : Move old failed = Move.fail now more reason (ground arith) valid refl in
      Effect-put s' at old failed held move refl put (subst Fenced (sym ops) fenced)

  pub fail-Effect :
      (s' : MergeStore) (claim : Claim) (from : Status) (reason : FailureReason)
      (refs : List String) (audit : AuditRecord) (now : ℕ) (c : Candidate)
      → Steps.fail s claim from reason refs audit now ≡ ok (s', c)
      → Effect s s'
  unfolding Steps.fail
  fail-Effect s' claim from reason refs audit now c h =
      let at = claim.candidate.id in
      let (_, valid, h₁) =
        >>=-eq-ok (reject_if (not (valid_failure_reason reason) || Steps.no_refs refs) _) _ h in
      let (_, _, h₂) = >>=-eq-ok (require_claim s claim) _ h₁ in
      let (old, found, h₃) = >>=-eq-ok (or_fail (lookup at s.candidates) _) _ h₂ in
      if_cases (λ r. r ≡ ok (s', c) → Effect s s')
        (old.status == Status.failed && old.failure_reason == reason)
        (fail_again-Effect s' old c audit)
        (fail_first-Effect s' old at from reason refs audit now c (or_fail-eq-ok _ _ found)
          (ground arith))
        h₃
