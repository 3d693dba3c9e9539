-- ===== src/MergeQueue/Tests/Queues.antt =====
-- The theorems on the store of internal/mergequeue/store.go at the calls of the test data.
use threadmill_agent_teams.Base.{
  ◌≡◌, ◌≢◌, ◌↔◌, arith, inl, inr, refl, true, false, Option, none, some, List, [], ◌∷◌, ◌++◌,
  String, string_eq, ◌==◌, lookup,
}
use threadmill_agent_teams.Kernel.Errors.{ok, err, idempotency_conflict_error}
use threadmill_agent_teams.MergeQueue.Model.{
  Status, OperationStatus, Candidate, Claim, MergeStore, status_eq, operation_status_eq,
}
use threadmill_agent_teams.MergeQueue.Checks.{dedupe_evidence, normalize_target_repository}
use threadmill_agent_teams.MergeQueue.Audits.{append_audit}
use threadmill_agent_teams.MergeQueue.Store.{enqueue, claim_next, is_active, active_operation}
use threadmill_agent_teams.MergeQueue.Calls.{Call, call, calls, kept_store, new_merge_store}
use threadmill_agent_teams.MergeQueue.Moves.{Move}
use threadmill_agent_teams.MergeQueue.Tables.{Tabled}
use threadmill_agent_teams.MergeQueue.Claiming.{Claimed, claim_next-Claimed, claim_next-progress}
use threadmill_agent_teams.MergeQueue.Evidence.{SetOf, dedupe_evidence-canonical}
use threadmill_agent_teams.MergeQueue.Replay.{Retains, enqueue-again, append_audit-no_refs}
use threadmill_agent_teams.MergeQueue.Fencing.{NotHeld, presented, call-stale}
use threadmill_agent_teams.MergeQueue.Invariant.{
  call-Moved, calls-one_active, calls-keeps_closed, calls-IsQueue, new_merge_store-IsQueue,
}
use threadmill_agent_teams.MergeQueue.Tests.Code.{merge_code}
use threadmill_agent_teams.MergeQueue.Tests.Data.{
  host, object_id, request_of, audit_of, candidate_of, claim_on, operation, enqueued, merging,
}

merging_holds :
    lookup "c1" (calls new_merge_store merging).candidates
    ≡ some (candidate_of "c1" Status.targeted_verify "" 1 4)
unfolding merge_code
merging_holds = refl

merging_begun :
    lookup "memory:c1" (calls new_merge_store merging).operations
    ≡ some (operation OperationStatus.pending)
unfolding merge_code
merging_begun = refl

abbrev finalized : List Call
finalized = merging ++ (Call.finalizes (operation OperationStatus.pending) 5 ∷ [])

finalized_merges :
    lookup "c1" (calls new_merge_store finalized).candidates
    ≡ some (candidate_of "c1" Status.merged object_id 1 5)
unfolding merge_code
finalized_merges = refl

pending_is_active : is_active OperationStatus.pending ≡ true
unfolding merge_code
pending_is_active = refl

abbrev old_claim : Claim
old_claim = record (claim_on "c1" 2) { token = "old" }

renews_presents : presented (Call.renews old_claim 7) ≡ some old_claim
unfolding presented
renews_presents = refl

merging_claimed :
    lookup "/repo" (calls new_merge_store merging).repo_claims ≡ some (claim_on "c1" 2)
unfolding merge_code
merging_claimed = refl

token_tests_apart : ◌==◌ {A = String} "memory:c1" "old" ≡ false
unfolding merge_code
token_tests_apart = refl

token_changed : (claim_on "c1" 2).token ≢ "old"
token_changed e = ground (arith, token_tests_apart, e)

another_token :
    (o : Option Claim) (c held : Claim)
    → o ≡ some c
    → o ≡ some held
    → c.token ≢ old_claim.token
    → held.token ≢ old_claim.token
another_token o c held h k differs = ground arith

old_claim-NotHeld : NotHeld (calls new_merge_store merging) old_claim
old_claim-NotHeld held found = inr (
    another_token (lookup "/repo" (calls new_merge_store merging).repo_claims) (claim_on "c1" 2)
      held merging_claimed found token_changed)

abbrev two_queued : MergeStore
two_queued = calls new_merge_store enqueued

abbrev claimed_first : MergeStore
claimed_first = call two_queued (Call.claims host " /repo" 2 3)

two_queued-Tabled : Tabled two_queued.candidates
two_queued-Tabled = (calls-IsQueue new_merge_store enqueued new_merge_store-IsQueue).tabled

claims_first : claim_next host two_queued " /repo" 2 3 ≡ ok (claimed_first, some (claim_on "c1" 2))
unfolding merge_code
claims_first = refl

repo_named : normalize_target_repository host " /repo" ≡ ok "/repo"
unfolding merge_code
repo_named = refl

repo_idle : active_operation two_queued.operations "/repo" ≡ none
unfolding merge_code
repo_idle = refl

repo_free : lookup "/repo" two_queued.repo_claims ≡ none
unfolding merge_code
repo_free = refl

second_found : lookup "c2" two_queued.candidates ≡ some (candidate_of "c2" Status.queued "" 1 1)
unfolding merge_code
second_found = refl

abbrev first_queued : MergeStore
first_queued =
    call new_merge_store
      (Call.enqueues host (request_of "c1") (audit_of "queued:c1" ("result" ∷ [])) 1)

abbrev second_queued : MergeStore
second_queued =
    call first_queued
      (Call.enqueues host (request_of "c2") (audit_of "queued:c2" ("result" ∷ [])) 1)

second_queued-Retains : Retains first_queued second_queued "c1" "queued:c1"
unfolding merge_code
second_queued-Retains = record { candidate = refl; audit = refl }

one_ref : dedupe_evidence ("result" ∷ []) ≡ "result" ∷ []
unfolding merge_code
one_ref = refl

enqueues_first :
    enqueue host new_merge_store (request_of "c1") (audit_of "queued:c1" ("result" ∷ [])) 1
    ≡ ok (first_queued, candidate_of "c1" Status.queued "" 1 1)
unfolding merge_code
enqueues_first = refl

abbrev bare_audited : MergeStore
bare_audited = kept_store new_merge_store (append_audit new_merge_store (audit_of "bare" []))

no_refs : dedupe_evidence [] ≡ []
unfolding merge_code
no_refs = refl

bare_free : lookup "bare" new_merge_store.audits ≡ none
unfolding merge_code
bare_free = refl

appends_bare : append_audit new_merge_store (audit_of "bare" []) ≡ ok bare_audited
unfolding merge_code
appends_bare = refl

call-Moved_example :
    (c : Candidate) × (lookup "c1"
        (call
          (calls new_merge_store merging)
          (Call.finalizes (operation OperationStatus.pending) 5)).candidates
      ≡ some c)
    × Move (candidate_of "c1" Status.targeted_verify "" 1 4) c
call-Moved_example =
    call-Moved merging (Call.finalizes (operation OperationStatus.pending) 5) "c1"
      (candidate_of "c1" Status.targeted_verify "" 1 4) merging_holds

calls-one_active_example : ◌≡◌ {A = String} "memory:c1" "memory:c1"
calls-one_active_example =
    calls-one_active merging "memory:c1" "memory:c1" (operation OperationStatus.pending)
      (operation OperationStatus.pending) merging_begun merging_begun pending_is_active
      pending_is_active refl

calls-keeps_closed_example :
    lookup "c1" (calls (calls new_merge_store finalized) enqueued).candidates
    ≡ some (candidate_of "c1" Status.merged object_id 1 5)
calls-keeps_closed_example =
    calls-keeps_closed finalized enqueued "c1" (candidate_of "c1" Status.merged object_id 1 5)
      finalized_merges (inl refl)

call-stale_example :
    call (calls new_merge_store merging) (Call.renews old_claim 7) ≡ calls new_merge_store merging
call-stale_example =
    call-stale (calls new_merge_store merging) (Call.renews old_claim 7) old_claim renews_presents
      old_claim-NotHeld

claim_next-Claimed_example :
    (repository : String) × (normalize_target_repository host " /repo" ≡ ok repository)
    × Claimed two_queued claimed_first repository 2 (claim_on "c1" 2)
claim_next-Claimed_example =
    claim_next-Claimed host two_queued claimed_first " /repo" 2 3 (claim_on "c1" 2)
      two_queued-Tabled claims_first

claim_next-progress_example :
    (s : MergeStore) × (claim : Claim) × (claim_next host two_queued " /repo" 2 3
      ≡ ok (s, some claim))
claim_next-progress_example =
    claim_next-progress host two_queued " /repo" "/repo" "c2" 2 3
      (candidate_of "c2" Status.queued "" 1 1) repo_named repo_idle repo_free second_found
      (refl, inl refl)

dedupe_evidence-canonical_example :
    (dedupe_evidence ("b" ∷ "" ∷ "a" ∷ "b" ∷ []) ≡ "a" ∷ "b" ∷ [])
    ↔ SetOf ("b" ∷ "" ∷ "a" ∷ "b" ∷ []) ("a" ∷ "b" ∷ [])
dedupe_evidence-canonical_example =
    dedupe_evidence-canonical ("b" ∷ "" ∷ "a" ∷ "b" ∷ []) ("a" ∷ "b" ∷ [])

enqueue-again_example :
    enqueue host second_queued (request_of "c1") (audit_of "queued:c1" ("result" ∷ [])) 9
    ≡ ok (second_queued, candidate_of "c1" Status.queued "" 1 1)
enqueue-again_example =
    enqueue-again host new_merge_store first_queued second_queued (request_of "c1")
      (audit_of "queued:c1" ("result" ∷ [])) 1 9 (candidate_of "c1" Status.queued "" 1 1) "result"
      [] one_ref second_queued-Retains enqueues_first

append_audit-no_refs_example :
    append_audit bare_audited (audit_of "bare" []) ≡ err idempotency_conflict_error
append_audit-no_refs_example =
    append_audit-no_refs new_merge_store bare_audited (audit_of "bare" []) no_refs bare_free
      appends_bare
