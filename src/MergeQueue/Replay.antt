-- ===== src/MergeQueue/Replay.antt =====
-- Repeated calls of internal/mergequeue/store.go: an enqueue and an audit that are sent again.
use threadmill_agent_teams.Base.{
  ℕ, ◌≡◌, ◌≢◌, inl, inr, refl, subst, ◌∙◌, ap, true, false, not, none, some, List, [], ◌∷◌, String,
  string_eq, lookup, arith, lookup-insert_self, Option-cases,
}
use threadmill_agent_teams.Kernel.Errors.{ok, err, reject_if, >>=-eq-ok, idempotency_conflict_error}
use threadmill_agent_teams.MergeQueue.Model.{Candidate, EnqueueRequest, AuditRecord, MergeStore}
use threadmill_agent_teams.MergeQueue.Checks.{
  Host, normalize_target_repository, validate_enqueue, same_enqueue, request_evidence,
  dedupe_evidence, texts_eq, equal_evidence, valid_branch,
}
use threadmill_agent_teams.MergeQueue.Audits.{
  append_audit, append_found, by_key, prepared, clone_audit, slice, equal_audit, pairs_eq,
  slices_eq,
}
use threadmill_agent_teams.MergeQueue.Store.{enqueue, enqueue_found, new_candidate, targeted}
use threadmill_agent_teams.MergeQueue.Moves.{append_audit-frame}

texts_eq_refl : (l : List String) → texts_eq l l ≡ true
unfolding texts_eq
texts_eq_refl [] = refl
texts_eq_refl (t ∷ ts) = ground (arith, texts_eq_refl ts)

pairs_eq_refl : (l : List (String × String)) → pairs_eq l l ≡ true
unfolding pairs_eq
pairs_eq_refl [] = refl
pairs_eq_refl ((k, v) ∷ l) = ground (arith, pairs_eq_refl l)

-- What is stored of an audit equals the audit just where it has references.
equal_audit-prepared :
    (audit : AuditRecord) (r : String) (rs : List String)
    → dedupe_evidence (slice audit.artifact_refs) ≡ r ∷ rs
    → equal_audit (clone_audit (prepared audit)) (prepared audit) ≡ true
unfolding equal_audit clone_audit prepared slices_eq
equal_audit-prepared audit r rs h =
    ground (arith, h, texts_eq_refl (r ∷ rs), pairs_eq_refl (by_key audit.payload))

equal_audit-no_refs :
    (audit : AuditRecord)
    → dedupe_evidence (slice audit.artifact_refs) ≡ []
    → equal_audit (clone_audit (prepared audit)) (prepared audit) ≡ false
unfolding equal_audit clone_audit prepared slices_eq
equal_audit-no_refs audit h = ground arith

-- The outcome of append_found on what it has just stored.
append_audit-stored :
    (s s' : MergeStore) (audit : AuditRecord)
    → lookup audit.stable_key s.audits ≡ none
    → append_audit s audit ≡ ok s'
    → lookup audit.stable_key s'.audits ≡ some (clone_audit (prepared audit))
unfolding append_audit append_found prepared
append_audit-stored s s' audit free h =
    ground (arith, lookup-insert_self audit.stable_key (clone_audit (prepared audit)) s.audits)

-- An audit with references that was recorded is accepted again, and changes nothing.
append_audit-again :
    (s s' s'' : MergeStore) (audit : AuditRecord) (r : String) (rs : List String)
    → dedupe_evidence (slice audit.artifact_refs) ≡ r ∷ rs
    → lookup audit.stable_key s''.audits ≡ lookup audit.stable_key s'.audits
    → append_audit s audit ≡ ok s'
    → append_audit s'' audit ≡ ok s''
unfolding append_audit append_found
append_audit-again s s' s'' audit r rs refs same h =
    let stored = append_audit-stored s s' audit in
    let equal = equal_audit-prepared audit r rs refs in
    elim (Option-cases (lookup audit.stable_key s.audits)) [
      | inl free ↦ let found = stored free h in ground arith
      | inr (existing, held) ↦ ground arith
    ]

-- An audit without references is refused when it is sent again after its first delivery to the store,
-- as a conflict with itself: the stored references are a nil slice, and those compared with them are
-- an empty one.
pub append_audit-no_refs :
    (s s' : MergeStore) (audit : AuditRecord)
    → dedupe_evidence (slice audit.artifact_refs) ≡ []
    → lookup audit.stable_key s.audits ≡ none
    → append_audit s audit ≡ ok s'
    → append_audit s' audit ≡ err idempotency_conflict_error
unfolding append_audit append_found
append_audit-no_refs s s' audit refs free h =
    let found = append_audit-stored s s' audit free h in
    let differ = equal_audit-no_refs audit refs in ground arith

same_enqueue-new :
    (req : EnqueueRequest) (now : ℕ)
    → req.target_branch ≢ ""
    → same_enqueue (new_candidate req now) req ≡ true
unfolding same_enqueue new_candidate equal_evidence
same_enqueue-new req now named = ground (arith, texts_eq_refl (request_evidence req))

-- A branch that the request names, or the default one, is not empty.
validate_enqueue-branch :
    (req : EnqueueRequest) → validate_enqueue req ≡ ok tt → req.target_branch ≢ ""
unfolding validate_enqueue valid_branch
validate_enqueue-branch req h = ground arith

-- A store that has the candidate of a request and the audit of a key as another store has them.
pub record Retains (s' s'' : MergeStore) (id key : String) : Type 0 where
  pub candidate : lookup id s''.candidates ≡ lookup id s'.candidates
  pub audit : lookup key s''.audits ≡ lookup key s'.audits

enqueue_found-again :
    (s s' s'' : MergeStore) (req : EnqueueRequest) (audit : AuditRecord) (now later : ℕ)
    (c : Candidate) (r : String) (rs : List String)
    → req.target_branch ≢ ""
    → dedupe_evidence (slice audit.artifact_refs) ≡ r ∷ rs
    → Retains s' s'' req.id audit.stable_key
    → enqueue_found s req audit now (lookup req.id s.candidates) ≡ ok (s', c)
    → enqueue_found s'' req audit later (lookup req.id s''.candidates) ≡ ok (s'', c)
unfolding enqueue_found
enqueue_found-again s s' s'' req audit now later c r rs named refs retains h =
    let candidate = retains.candidate in
    elim (Option-cases (lookup req.id s.candidates)) [
      | inl free ↦
          let fresh = new_candidate req now in
          let h₁ : enqueue_found s req audit now none ≡ ok (s', c) =
            subst (λ o. enqueue_found s req audit now o ≡ ok (s', c)) free h in
          let (audited, appended, h₂) = >>=-eq-ok (append_audit s audit) _ h₁ in
          let kept : s'.audits ≡ audited.audits = ground arith in
          let again =
            append_audit-again s audited s'' audit r rs refs
              (retains.audit ∙ ap (lookup audit.stable_key) kept) appended in
          let held : lookup req.id s''.candidates ≡ some fresh =
            ground (arith, lookup-insert_self req.id fresh audited.candidates) in
          let same = same_enqueue-new req now named in ground arith
      | inr (existing, held) ↦
          let h₁ : enqueue_found s req audit now (some existing) ≡ ok (s', c) =
            subst (λ o. enqueue_found s req audit now o ≡ ok (s', c)) held h in
          let (_, same, h₂) = >>=-eq-ok (reject_if (not (same_enqueue existing req)) _) _ h₁ in
          let (audited, appended, h₃) = >>=-eq-ok (append_audit s audit) _ h₂ in
          let kept : s' ≡ audited = ground arith in
          let again =
            append_audit-again s audited s'' audit r rs refs
              (retains.audit ∙ ap (λ (x : MergeStore). lookup audit.stable_key x.audits) kept)
              appended in
          let frame = append_audit-frame s audited audit appended in ground arith
    ]

-- An enqueue that succeeded, its audit with references, succeeds again, whenever it is sent, with the
-- same candidate, and changes nothing, in any store that still has that candidate and that audit as the
-- enqueue left them.
pub enqueue-again :
    (host : Host) (s s' s'' : MergeStore) (req : EnqueueRequest) (audit : AuditRecord)
    (now later : ℕ) (c : Candidate) (r : String) (rs : List String)
    → dedupe_evidence (slice audit.artifact_refs) ≡ r ∷ rs
    → Retains s' s'' req.id audit.stable_key
    → enqueue host s req audit now ≡ ok (s', c)
    → enqueue host s'' req audit later ≡ ok (s'', c)
unfolding enqueue
enqueue-again host s s' s'' req audit now later c r rs refs retains h =
    let (repository, named, h₁) =
      >>=-eq-ok (normalize_target_repository host req.target_repository) _ h in
    let request = targeted req repository in
    let (_, valid, h₂) = >>=-eq-ok (validate_enqueue request) _ h₁ in
    let branch = validate_enqueue-branch request valid in
    let again =
      enqueue_found-again s s' s'' request audit now later c r rs branch refs retains h₂ in
    ground (arith, named, valid, again)
