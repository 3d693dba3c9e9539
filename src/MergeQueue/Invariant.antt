-- ===== src/MergeQueue/Invariant.antt =====
-- What holds of the store of internal/mergequeue/store.go after any sequence of calls.
use threadmill_agent_teams.Base.{
  ◌≡◌, ◌⊎◌, refl, subst, true, some, List, [], ◌∷◌, String, string_eq, lookup, arith,
}
use threadmill_agent_teams.Kernel.Errors.{Result, ok, err}
use threadmill_agent_teams.MergeQueue.Model.{Status, Candidate, MergeOperation, MergeStore}
use threadmill_agent_teams.MergeQueue.Audits.{mark_audit_delivered}
use threadmill_agent_teams.MergeQueue.Store.{
  is_active, enqueue, claim_next, renew_claim, release_claim,
}
use threadmill_agent_teams.MergeQueue.Steps as Steps
use threadmill_agent_teams.MergeQueue.Steps.{
  advance, begin_merge_operation, finalize_merge_operation, abort_merge_operation,
}
use threadmill_agent_teams.MergeQueue.Calls.{Call, call, calls, kept, kept_store, new_merge_store}
use threadmill_agent_teams.MergeQueue.Moves.{Move, Moved}
use threadmill_agent_teams.MergeQueue.Tables.{Tabled, Fenced}
use threadmill_agent_teams.MergeQueue.Effects.{
  Effect, Effect-same, enqueue-Effect, advance-Effect, fail-Effect,
}
use threadmill_agent_teams.MergeQueue.OperationEffects.{
  begin_merge_operation-Effect, finalize_merge_operation-Effect, abort_merge_operation-Effect,
  mark_recovery-Effect,
}
use threadmill_agent_teams.MergeQueue.Claiming.{claim_next-Effect}

pub record IsQueue (s : MergeStore) : Type 0 where
  pub tabled : Tabled s.candidates
  pub fenced : Fenced s.operations

-- A call that returns an error leaves the store, and one that succeeds has its effect.
kept-Effect :
    {A : Type 0} (s : MergeStore) (r : Result (MergeStore × A))
    → IsQueue s
    → ((s' : MergeStore) (a : A) → r ≡ ok (s', a) → Effect s s')
    → Effect s (kept s r)
unfolding kept
kept-Effect s (err e) q f = Effect-same s q.tabled q.fenced s refl refl
kept-Effect s (ok (s', a)) q f = f s' a refl

kept_store-Effect :
    (s : MergeStore) (r : Result MergeStore)
    → IsQueue s
    → ((s' : MergeStore) → r ≡ ok s' → Effect s s')
    → Effect s (kept_store s r)
unfolding kept_store
kept_store-Effect s (err e) q f = Effect-same s q.tabled q.fenced s refl refl
kept_store-Effect s (ok s') q f = f s' refl

call-Effect : (s : MergeStore) (c : Call) → IsQueue s → Effect s (call s c)
unfolding call renew_claim release_claim mark_audit_delivered
call-Effect s (Call.enqueues host req audit now) q =
    kept-Effect s (enqueue host s req audit now) q
      (λ s' c h. enqueue-Effect s q.tabled q.fenced host s' req audit now c h)
call-Effect s (Call.claims host target now later) q =
    kept-Effect s (claim_next host s target now later) q
      (λ s' c h. claim_next-Effect host s s' target now later c q.tabled q.fenced h)
call-Effect s (Call.renews claim now) q =
    kept-Effect s (renew_claim s claim now) q
      (λ s' c h. Effect-same s q.tabled q.fenced s' (ground arith) (ground arith))
call-Effect s (Call.releases claim) q =
    Effect-same s q.tabled q.fenced (release_claim s claim) (ground arith) (ground arith)
call-Effect s (Call.advances claim from to refs revision now) q =
    kept-Effect s (advance s claim from to refs revision now) q
      (λ s' c h. advance-Effect s q.tabled q.fenced s' claim from to refs revision now c h)
call-Effect s (Call.fails claim from reason refs audit now) q =
    kept-Effect s (Steps.fail s claim from reason refs audit now) q
      (λ s' c h. fail-Effect s q.tabled q.fenced s' claim from reason refs audit now c h)
call-Effect s (Call.begins claim req token) q =
    kept-Effect s (begin_merge_operation s claim req token) q
      (λ s' op h. begin_merge_operation-Effect s q.tabled q.fenced s' claim req token op h)
call-Effect s (Call.finalizes op now) q =
    kept-Effect s (finalize_merge_operation s op now) q
      (λ s' c h. finalize_merge_operation-Effect s q.tabled q.fenced s' op now c h)
call-Effect s (Call.aborts op) q =
    kept_store-Effect s (abort_merge_operation s op) q
      (λ s' h. abort_merge_operation-Effect s q.tabled q.fenced s' op h)
call-Effect s (Call.needs_recovery op reason) q = mark_recovery-Effect s q.tabled q.fenced op reason
call-Effect s (Call.delivers key) q =
    kept_store-Effect s (mark_audit_delivered s key) q
      (λ s' h. Effect-same s q.tabled q.fenced s' (ground arith) (ground arith))

call-IsQueue : (s : MergeStore) (c : Call) → IsQueue s → IsQueue (call s c)
call-IsQueue s c q = let e = call-Effect s c q in record { tabled = e.tabled; fenced = e.fenced }

pub calls-IsQueue : (s : MergeStore) (cs : List Call) → IsQueue s → IsQueue (calls s cs)
unfolding calls
calls-IsQueue s [] q = q
calls-IsQueue s (c ∷ cs) q = calls-IsQueue (call s c) cs (call-IsQueue s c q)

pub new_merge_store-IsQueue : IsQueue new_merge_store
unfolding new_merge_store lookup
new_merge_store-IsQueue = record {
  tabled = record { keyed = λ id c h. absurd (ground arith); distinct = tt };
  fenced = record {
    keyed = λ id o h. absurd (ground arith);
    revised = λ id o h. absurd (ground arith);
    alone = λ i j o p h k a b same. absurd (ground arith);
  };
}

-- After any sequence of calls, a further call takes each candidate through at most one move of its
-- state machine, and loses none.
pub call-Moved :
    (cs : List Call) (c : Call)
    → Moved (calls new_merge_store cs).candidates (call (calls new_merge_store cs) c).candidates
call-Moved cs c =
    (call-Effect (calls new_merge_store cs) c
      (calls-IsQueue new_merge_store cs new_merge_store-IsQueue)).moved

-- After any sequence of calls, at most one merge operation of a repository is active: pending, or
-- waiting for recovery.
pub calls-one_active :
    (cs : List Call) (i j : String) (o p : MergeOperation)
    → lookup i (calls new_merge_store cs).operations ≡ some o
    → lookup j (calls new_merge_store cs).operations ≡ some p
    → is_active o.status ≡ true
    → is_active p.status ≡ true
    → o.target_repository ≡ p.target_repository
    → i ≡ j
calls-one_active cs = (calls-IsQueue new_merge_store cs new_merge_store-IsQueue).fenced.alone

closed-Move :
    (c c' : Candidate)
    → (c.status ≡ Status.merged) ⊎ (c.status ≡ Status.failed)
    → Move c c'
    → c' ≡ c
closed-Move c c' closed (Move.stay e) = e
closed-Move c c' closed (Move.check now at e) = absurd (ground arith)
closed-Move c c' closed (Move.verify now refs revision at e) = absurd (ground arith)
closed-Move c c' closed (Move.merge now refs revision at named e) = absurd (ground arith)
closed-Move c c' closed (Move.fail now refs reason at valid e) = absurd (ground arith)

closed-kept :
    (s : MergeStore) (cs : List Call) (id : String) (c : Candidate)
    → IsQueue s
    → lookup id s.candidates ≡ some c
    → (c.status ≡ Status.merged) ⊎ (c.status ≡ Status.failed)
    → lookup id (calls s cs).candidates ≡ some c
unfolding calls
closed-kept s [] id c q h closed = h
closed-kept s (k ∷ cs) id c q h closed =
    let (c', found, move) = (call-Effect s k q).moved id c h in
    let same = closed-Move c c' closed move in
    closed-kept (call s k) cs id c (call-IsQueue s k q)
      (subst (λ x. lookup id (call s k).candidates ≡ some x) same found) closed

-- A candidate that is merged or failed after some calls is the same after any further calls.
pub calls-keeps_closed :
    (cs ds : List Call) (id : String) (c : Candidate)
    → lookup id (calls new_merge_store cs).candidates ≡ some c
    → (c.status ≡ Status.merged) ⊎ (c.status ≡ Status.failed)
    → lookup id (calls (calls new_merge_store cs) ds).candidates ≡ some c
calls-keeps_closed cs ds id c h closed =
    closed-kept (calls new_merge_store cs) ds id c
      (calls-IsQueue new_merge_store cs new_merge_store-IsQueue) h closed
