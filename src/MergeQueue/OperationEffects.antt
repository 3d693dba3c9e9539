-- ===== src/MergeQueue/OperationEffects.antt =====
-- What the calls on merge operations of internal/mergequeue/store.go do to the store.
use threadmill_agent_teams.Base.{
  ℕ, ◌≡◌, ◌∙◌, inl, inr, refl, sym, subst, true, ◌==◌, ◌!=◌, ◌&&◌, ◌||◌, none, some, ◌++◌, String,
  string_eq, lookup, insert, is_blank, arith, Option-cases, if_cases,
}
use threadmill_agent_teams.Kernel.Errors.{ok, or_fail, reject_if, Result-cases, >>=-eq-ok}
use threadmill_agent_teams.Coordination.Transition.Machine.{or_fail-eq-ok}
use threadmill_agent_teams.MergeQueue.Model.{
  Status, OperationStatus, Candidate, Claim, MergeOperation, MergeOperationRequest, MergeStore,
  status_eq, failure_reason_eq, operation_status_eq,
}
use threadmill_agent_teams.MergeQueue.Checks.{dedupe_evidence}
use threadmill_agent_teams.MergeQueue.Audits.{append_audit}
use threadmill_agent_teams.MergeQueue.Store.{is_active, active_operation, require_claim}
use threadmill_agent_teams.MergeQueue.Steps.{
  begin_merge_operation, begin_found, operation_of, require_operation, finalize_merge_operation,
  finalize_found, abort_merge_operation, mark_merge_operation_recovery_required,
}
use threadmill_agent_teams.MergeQueue.Moves.{Move, Moved-same, append_audit-frame}
use threadmill_agent_teams.MergeQueue.Tables.{Tabled, Fenced, Fenced-new, Fenced-change}
use threadmill_agent_teams.MergeQueue.Effects.{Effect, Effect-same, Effect-put}

module _ (s : MergeStore) (tabled : Tabled s.candidates) (fenced : Fenced s.operations) where
  pub begin_merge_operation-Effect :
      (s' : MergeStore) (claim : Claim) (req : MergeOperationRequest) (token : String)
      (op : MergeOperation)
      → begin_merge_operation s claim req token ≡ ok (s', op)
      → Effect s s'
  unfolding begin_merge_operation begin_found operation_of
  begin_merge_operation-Effect s' claim req token op h =
      let at = claim.candidate.id in
      let (_, revised, h₁) =
        >>=-eq-ok
          (reject_if (is_blank req.expected_main_revision || is_blank req.expected_merged_revision)
            _)
          _ h in
      let (_, _, h₂) = >>=-eq-ok (require_claim s claim) _ h₁ in
      let (c, found, h₃) = >>=-eq-ok (or_fail (lookup at s.candidates) _) _ h₂ in
      let (_, _, h₄) = >>=-eq-ok (reject_if (c.status != Status.targeted_verify) _) _ h₃ in
      let active = active_operation s.operations c.target_repository in
      elim (Option-cases active) [
        | inl free ↦
            let new = operation_of c req token in
            let h₅ : begin_found s c req token none ≡ ok (s', op) =
              subst (λ o. begin_found s c req token o ≡ ok (s', op)) free h₄ in
            let same : s'.candidates ≡ s.candidates = ground arith in
            let ops : s'.operations ≡ insert new.id new s.operations = ground arith in
            record {
              moved = Moved-same s.candidates s'.candidates same;
              tabled = subst Tabled (sym same) tabled;
              fenced =
                  subst Fenced (sym ops) (Fenced-new new s.operations free (ground arith) fenced);
            }
        | inr (existing, held) ↦
            let h₅ : begin_found s c req token (some existing) ≡ ok (s', op) =
              subst (λ o. begin_found s c req token o ≡ ok (s', op)) held h₄ in
            Effect-same s tabled fenced s' (ground (arith, h₅)) (ground (arith, h₅))
      ]

  require_operation-eq-ok :
      (op stored : MergeOperation)
      → require_operation s op ≡ ok stored
      → (lookup op.id s.operations ≡ some stored) × (is_active stored.status ≡ true)
  unfolding require_operation
  require_operation-eq-ok op stored h =
      let (found, looked, h₁) = >>=-eq-ok (or_fail (lookup op.id s.operations) _) _ h in
      let held = or_fail-eq-ok (lookup op.id s.operations) _ looked in
      let (_, _, h₂) = >>=-eq-ok (reject_if (found.token != op.token) _) _ h₁ in
      (ground arith, ground arith)

  -- A change of an active operation that keeps its identity.
  changed-Fenced :
      (op stored stored' : MergeOperation)
      → require_operation s op ≡ ok stored
      → stored'.id ≡ stored.id
      → stored'.target_repository ≡ stored.target_repository
      → stored'.expected_merged_revision ≡ stored.expected_merged_revision
      → Fenced (insert stored'.id stored' s.operations)
  changed-Fenced op stored stored' h own repository revision =
      let (held, active) = require_operation-eq-ok op stored h in
      let at : op.id ≡ stored'.id = sym (own ∙ fenced.keyed op.id stored held) in
      subst (λ id. Fenced (insert id stored' s.operations)) at
        (Fenced-change op.id stored stored' s.operations held active own repository revision fenced)

  finalize_found-Effect :
      (s' : MergeStore) (op stored : MergeOperation) (old c : Candidate) (now : ℕ)
      → require_operation s op ≡ ok stored
      → lookup stored.candidate_id s.candidates ≡ some old
      → finalize_found s stored old now ≡ ok (s', c)
      → Effect s s'
  unfolding finalize_found
  finalize_found-Effect s' op stored old c now required held h =
      let (_, checked, h₁) = >>=-eq-ok (reject_if (old.status != Status.targeted_verify) _) _ h in
      let (audited, appended, h₂) = >>=-eq-ok (append_audit s stored.audit) _ h₁ in
      let frame = append_audit-frame s audited stored.audit appended in
      let (found, _) = require_operation-eq-ok op stored required in
      let more = dedupe_evidence (old.evidence_refs ++ stored.evidence_refs) in
      let merged = record old {
        status = Status.merged;
        evidence_refs = more;
        merged_revision = stored.expected_merged_revision;
        updated_at = now;
      } in
      let done = record stored { status = OperationStatus.finalized } in
      let own = tabled.keyed stored.candidate_id old held in
      let put : s'.candidates ≡ insert stored.candidate_id merged s.candidates =
        ground (arith, frame) in
      let ops : s'.operations ≡ insert stored.id done s.operations = ground (arith, frame) in
      let move : Move old merged =
        Move.merge now more stored.expected_merged_revision (ground arith)
          (fenced.revised op.id stored found) refl in
      Effect-put s tabled fenced s' stored.candidate_id old merged held move refl put
        (subst Fenced (sym ops) (changed-Fenced op stored done required refl refl refl))

  pub finalize_merge_operation-Effect :
      (s' : MergeStore) (op : MergeOperation) (now : ℕ) (c : Candidate)
      → finalize_merge_operation s op now ≡ ok (s', c)
      → Effect s s'
  unfolding finalize_merge_operation
  finalize_merge_operation-Effect s' op now c h =
      let (stored, required, h₁) = >>=-eq-ok (require_operation s op) _ h in
      let (old, found, h₂) = >>=-eq-ok (or_fail (lookup stored.candidate_id s.candidates) _) _ h₁ in
      if_cases (λ r. r ≡ ok (s', c) → Effect s s')
        (old.status == Status.merged && old.merged_revision == stored.expected_merged_revision)
        (λ same. Effect-same s tabled fenced s' (ground arith) (ground arith))
        (finalize_found-Effect s' op stored old c now required (or_fail-eq-ok _ _ found)) h₂

  pub abort_merge_operation-Effect :
      (s' : MergeStore) (op : MergeOperation) → abort_merge_operation s op ≡ ok s' → Effect s s'
  unfolding abort_merge_operation
  abort_merge_operation-Effect s' op h =
      let (stored, required, h₁) = >>=-eq-ok (require_operation s op) _ h in
      let aborted = record stored { status = OperationStatus.aborted } in
      let same : s'.candidates ≡ s.candidates = ground arith in
      let ops : s'.operations ≡ insert stored.id aborted s.operations = ground arith in
      record {
        moved = Moved-same s.candidates s'.candidates same;
        tabled = subst Tabled (sym same) tabled;
        fenced = subst Fenced (sym ops) (changed-Fenced op stored aborted required refl refl refl);
      }

  pub mark_recovery-Effect :
      (op : MergeOperation) (reason : String)
      → Effect s (mark_merge_operation_recovery_required s op reason).0
  unfolding mark_merge_operation_recovery_required
  mark_recovery-Effect op reason = elim (Result-cases (require_operation s op)) [
    | inl (e, refused) ↦ Effect-same s tabled fenced _ (ground arith) (ground arith)
    | inr (stored, required) ↦
        let s' = (mark_merge_operation_recovery_required s op reason).0 in
        let marked = record stored {
          status = OperationStatus.recovery_required;
          recovery_reason = reason;
        } in
        let same : s'.candidates ≡ s.candidates = ground arith in
        let ops : s'.operations ≡ insert stored.id marked s.operations = ground arith in
        record {
          moved = Moved-same s.candidates s'.candidates same;
          tabled = subst Tabled (sym same) tabled;
          fenced = subst Fenced (sym ops) (changed-Fenced op stored marked required refl refl refl);
        }
  ]
