-- ===== src/MergeQueue/Moves.antt =====
-- The state machine of a merge candidate, and the writes of internal/mergequeue/store.go as its moves.
use threadmill_agent_teams.Base.{
  ℕ, ◌≡◌, ◌⊎◌, refl, subst, true, false, none, some, List, String, string_eq, lookup, insert,
  is_blank, arith, lookup-insert,
}
use threadmill_agent_teams.Kernel.Errors.{ok}
use threadmill_agent_teams.MergeQueue.Model.{
  Status, FailureReason, Candidate, AuditRecord, MergeStore, status_eq, failure_reason_eq,
}
use threadmill_agent_teams.MergeQueue.Checks.{valid_failure_reason}
use threadmill_agent_teams.MergeQueue.Audits.{append_audit, append_found}

-- One move: the claim of a queued candidate, the start of its verification, its merge with a
-- revision, or its failure with a reason; and otherwise only the evidence and the time may differ.
pub data Move (c c' : Candidate) : Type 0 where
  stay : c' ≡ c → Move c c'
  check :
      (now : ℕ)
      → c.status ≡ Status.queued
      → c' ≡ record c { status = Status.merge_check; updated_at = now }
      → Move c c'
  verify :
      (now : ℕ) (refs : List String) (revision : String)
      → c.status ≡ Status.merge_check
      → c' ≡ record c {
        status = Status.targeted_verify;
        evidence_refs = refs;
        merged_revision = revision;
        updated_at = now;
      }
      → Move c c'
  merge :
      (now : ℕ) (refs : List String) (revision : String)
      → c.status ≡ Status.targeted_verify
      → is_blank revision ≡ false
      → c' ≡ record c {
        status = Status.merged;
        evidence_refs = refs;
        merged_revision = revision;
        updated_at = now;
      }
      → Move c c'
  fail :
      (now : ℕ) (refs : List String) (reason : FailureReason)
      → (c.status ≡ Status.merge_check) ⊎ (c.status ≡ Status.targeted_verify)
      → valid_failure_reason reason ≡ true
      → c' ≡ record c {
        status = Status.failed;
        failure_reason = reason;
        evidence_refs = refs;
        updated_at = now;
      }
      → Move c c'

abbrev pub Table : Type 0
Table = List (String × Candidate)

-- Every candidate is still there, and has made at most one move.
abbrev pub Moved : Table → Table → Type 0
Moved m m' =
    (id : String) (c : Candidate)
    → lookup id m ≡ some c
    → (c' : Candidate) × (lookup id m' ≡ some c') × Move c c'

pub Moved-same : (m m' : Table) → m' ≡ m → Moved m m'
Moved-same m m' same id c h = (c, ground arith, stay refl)

pub Moved-put :
    (m m' : Table) (at : String) (d d' : Candidate)
    → lookup at m ≡ some d
    → Move d d'
    → m' ≡ insert at d' m
    → Moved m m'
Moved-put m m' at d d' found moved same id c h = elim (string_eq.dec at id) [
  | yes here ↦
      let it : d ≡ c = ground arith in
      (d', ground (arith, lookup-insert at id d' m), subst (λ x. Move x d') it moved)
  | no apart ↦ (c, ground (arith, lookup-insert at id d' m), stay refl)
]

pub Moved-new :
    (m m' : Table) (at : String) (d : Candidate)
    → lookup at m ≡ none
    → m' ≡ insert at d m
    → Moved m m'
Moved-new m m' at d free same id c h = (c, ground (arith, lookup-insert at id d m), stay refl)

-- An audit is recorded beside the candidates, the claims and the operations.
pub append_audit-frame :
    (s s' : MergeStore) (audit : AuditRecord)
    → append_audit s audit ≡ ok s'
    → (s'.candidates ≡ s.candidates)
      × (s'.repo_claims ≡ s.repo_claims)
      × (s'.operations ≡ s.operations)
unfolding append_audit append_found
append_audit-frame s s' audit h = ground arith
