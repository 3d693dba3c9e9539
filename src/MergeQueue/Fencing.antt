-- ===== src/MergeQueue/Fencing.antt =====
-- What a claim or an operation that is no longer current can do to the store of
-- internal/mergequeue/store.go: nothing.
use threadmill_agent_teams.Base.{
  ◌≡◌, ◌≢◌, ◌⊎◌, inl, inr, false, Option, none, some, lookup, string_eq, arith, Option-cases,
}
use threadmill_agent_teams.MergeQueue.Model.{Claim, MergeStore}
use threadmill_agent_teams.MergeQueue.Store.{
  claim_current, require_claim, renew_claim, release_claim,
}
use threadmill_agent_teams.MergeQueue.Steps as Steps
use threadmill_agent_teams.MergeQueue.Steps.{
  advance, begin_merge_operation, require_operation, finalize_merge_operation,
  abort_merge_operation, mark_merge_operation_recovery_required,
}
use threadmill_agent_teams.MergeQueue.Calls.{Call, call, kept}

-- The claim that a call presents.
unfoldable pub presented : Call → Option Claim
presented (Call.renews claim now) = some claim
presented (Call.releases claim) = some claim
presented (Call.advances claim from to refs revision now) = some claim
presented (Call.fails claim from reason refs audit now) = some claim
presented (Call.begins claim req token) = some claim
presented _ = none

-- The store does not hold the claim: for the repository it holds none, one of another candidate, or
-- one with another token.
abbrev pub NotHeld : MergeStore → Claim → Type 0
NotHeld s claim =
    (held : Claim)
    → lookup claim.candidate.target_repository s.repo_claims ≡ some held
    → (held.candidate.id ≢ claim.candidate.id) ⊎ (held.token ≢ claim.token)

NotHeld-claim_current :
    (s : MergeStore) (claim : Claim) → NotHeld s claim → claim_current s claim ≡ false
unfolding claim_current
NotHeld-claim_current s claim h =
    elim (Option-cases (lookup claim.candidate.target_repository s.repo_claims)) [
      | inl none_held ↦ ground arith
      | inr (held, found) ↦ ground (arith, h held found)
    ]

refused :
    (s : MergeStore) (c : Call) (claim : Claim)
    → presented c ≡ some claim
    → claim_current s claim ≡ false
    → call s c ≡ s
unfolding call kept presented claim_current renew_claim release_claim require_claim advance
    Steps.fail begin_merge_operation
refused s (Call.enqueues host req audit now) claim shown stale = cc
refused s (Call.claims host target now later) claim shown stale = cc
refused s (Call.renews k now) claim shown stale = ground arith
refused s (Call.releases k) claim shown stale = ground arith
refused s (Call.advances k from to refs revision now) claim shown stale = ground arith
refused s (Call.fails k from reason refs audit now) claim shown stale = ground arith
refused s (Call.begins k req token) claim shown stale = ground arith
refused s (Call.finalizes op now) claim shown stale = cc
refused s (Call.aborts op) claim shown stale = cc
refused s (Call.needs_recovery op reason) claim shown stale = cc
refused s (Call.delivers key) claim shown stale = cc

-- A call that presents a claim changes nothing where the store holds no claim for the claim's
-- repository, or one of another candidate, or one with another token.
pub call-stale :
    (s : MergeStore) (c : Call) (claim : Claim)
    → presented c ≡ some claim
    → NotHeld s claim
    → call s c ≡ s
call-stale s c claim shown stale = refused s c claim shown (NotHeld-claim_current s claim stale)
