-- ===== src/Coordination/Reconcile/Claims.antt =====
-- How internal/coordination/runtime.go claims what the selection chooses. The selection is a parameter,
-- and each claim reads the clock.
use threadmill_agent_teams.Base.{
  ℕ, zero, suc, Bool, true, false, Option, none, some, List, [], ◌∷◌, ◌++◌, map, String, ◌==◌,
  if◌then◌else◌, string_eq, mem, ℤ, pos, ◌-ℤ◌, leb_ℤ,
}
use threadmill_agent_teams.Kernel.Errors.{Error, Result, ok, err, stale_checkpoint, error_code_eq}
use threadmill_agent_teams.Coordination.Types.{
  CommandAction, PhaseEndpointRef, PhaseEndpoint, PhaseCommand, phase_endpoint_ref_eq,
}
use threadmill_agent_teams.Coordination.Runtime.Port.{
  RuntimeCandidate, RuntimeCapacity, RuntimeBudgetStatus, RuntimeSchedulingState, available,
}
use threadmill_agent_teams.Coordination.Runtime.View.{
  RuntimeView, binding, checkpoint_compatible, revision_ref,
}
use threadmill_agent_teams.Coordination.Runtime.Commands.{Claim, claim_lease_and_append_command}
use threadmill_agent_teams.Coordination.Runtime.Writes.{RuntimeWrite}
use threadmill_agent_teams.Coordination.Store.Project.{ProjectState}
use threadmill_agent_teams.Coordination.Reconcile.Run.{Run, pure, raise, ◌>>=◌, perform, each_with}

stale : String → Error
stale m = record { code = stale_checkpoint; message = m; recoverable = true; details = [] }

abbrev answered : Result Claim → Result (PhaseCommand × Bool)
answered (err e) = err e
answered (ok c) = ok (c.1, c.2)

unfoldable pub claim_with :
    RuntimeView → PhaseEndpoint → CommandAction → ℕ → Run (PhaseCommand × Bool)
unfolding revision_ref
claim_with view e action now =
    perform (RuntimeWrite.claim now view.revision e action (revision_ref view.revision)) (λ p.
      answered
        (claim_lease_and_append_command p now view.revision e action (revision_ref view.revision)))

-- A claim that a stale checkpoint rules out is `err`, before the store is called.
unfoldable pub claim_action : RuntimeView → PhaseEndpoint → Result CommandAction
unfolding stale binding checkpoint_compatible
claim_action view e =
    let info = binding view e.binding_ref in
    if info.non_resumable
    then err (stale "binding is non-resumable")
    else if info.checkpoint_ref == ""
    then ok CommandAction.start
    else if checkpoint_compatible e.binding_ref info
    then ok CommandAction.resume
    else err (stale "checkpoint is not compatible with binding")

abbrev pub claimed_as :
    RuntimeView → PhaseEndpoint → ℕ → Result CommandAction → Run (PhaseCommand × Bool)
claimed_as view e now (err failure) = raise failure
claimed_as view e now (ok action) = claim_with view e action now

unfoldable pub claim_run : RuntimeView → PhaseEndpoint → ℕ → Run (PhaseCommand × Bool)
unfolding claim_action claim_with
claim_run view e now = claimed_as view e now (claim_action view e)

-- Whether a claim was made, and the commands to deliver.
abbrev pub Claims : Type 0
Claims = Bool × List PhaseCommand

unfoldable pub reject_endpoint : PhaseEndpoint → Error → Run (Unit {0})
reject_endpoint e failure =
    perform (RuntimeWrite.reject_endpoint e.ref e.generation e.binding_ref failure.code)
      (λ p. ok tt)

abbrev pub settled :
    PhaseEndpoint
    → Claims
    → ProjectState × Result (PhaseCommand × Bool)
    → ProjectState × Result Claims
settled e (any_claim, commands) (p, ok (command, claimed)) =
    pure (if claimed then (true, commands ++ (command ∷ [])) else (any_claim, commands)) p
settled e claims (p, err failure) =
    (if failure.code == stale_checkpoint
        then (reject_endpoint e failure >>= λ _. pure claims)
        else raise failure)
      p

-- The body of the loop over what is selected.
unfoldable pub claim_endpoint :
    RuntimeView → (PhaseEndpoint → ℕ) → Claims → PhaseEndpoint → Run Claims
unfolding claim_run reject_endpoint
claim_endpoint view clock claims e p = settled e claims (claim_run view e (clock e) p)

unfoldable pub remove_selected_candidates :
    List RuntimeCandidate → List PhaseEndpointRef → List RuntimeCandidate
remove_selected_candidates [] refs = []
remove_selected_candidates (c ∷ candidates) refs =
    let rest = remove_selected_candidates candidates refs in
    if mem c.endpoint.ref refs then rest else c ∷ rest

abbrev pub refs_of : List PhaseEndpoint → List PhaseEndpointRef
refs_of = map (λ (e : PhaseEndpoint). e.ref)

module _ {Cost : Type 0}
    (select_runnable : List RuntimeCandidate
      → RuntimeCapacity
      → RuntimeBudgetStatus Cost
      → Result (List PhaseEndpoint))
    (scheduling : RuntimeSchedulingState Cost) (view : RuntimeView)
    (clock : PhaseEndpoint → ℕ) where
  -- What follows a selection: the claims, and the next round where nothing was claimed.
  abbrev pub chosen_round :
      (List RuntimeCandidate → List PhaseCommand → Run (Option (List PhaseCommand)))
      → List RuntimeCandidate
      → List PhaseCommand
      → Result (List PhaseEndpoint)
      → Run (Option (List PhaseCommand))
  chosen_round next candidates commands (err failure) = raise failure
  chosen_round next candidates commands (ok []) = pure (some commands)
  chosen_round next candidates commands (ok (e ∷ selected)) =
      each_with (claim_endpoint view clock) (false, commands) (e ∷ selected) >>= λ claims.
      if claims.0
      then pure (some claims.1)
      else next (remove_selected_candidates candidates (refs_of (e ∷ selected))) claims.1

  -- The loop while candidates are left; none where the rounds do not suffice.
  unfoldable pub claim_rounds :
      ℕ → List RuntimeCandidate → List PhaseCommand → Run (Option (List PhaseCommand))
  unfolding each_with claim_endpoint remove_selected_candidates
  claim_rounds zero [] commands = pure (some commands)
  claim_rounds zero (c ∷ candidates) commands = pure none
  claim_rounds (suc rounds) [] commands = pure (some commands)
  claim_rounds (suc rounds) (c ∷ candidates) commands =
      chosen_round (claim_rounds rounds) (c ∷ candidates) commands
        (select_runnable (c ∷ candidates) scheduling.capacity scheduling.budget)

-- The selection that a runtime has by default: the first endpoints, as many as the capacity allows.
unfoldable pub select_runtime_endpoints : List PhaseEndpoint → ℤ → List PhaseEndpoint
unfolding ◌-ℤ◌
select_runtime_endpoints [] capacity = []
select_runtime_endpoints (e ∷ endpoints) capacity =
    let rest = select_runtime_endpoints endpoints (capacity -ℤ pos 1) in
    if leb_ℤ capacity (pos 0) then [] else e ∷ rest

unfoldable pub runtime_candidate_endpoints : List RuntimeCandidate → List PhaseEndpoint
runtime_candidate_endpoints [] = []
runtime_candidate_endpoints (c ∷ candidates) =
    let rest = runtime_candidate_endpoints candidates in
    if c.runnable then c.endpoint ∷ rest else rest

unfoldable pub fixed_capacity_selection :
    {Cost : Type 0}
    → List RuntimeCandidate
    → RuntimeCapacity
    → RuntimeBudgetStatus Cost
    → Result (List PhaseEndpoint)
unfolding select_runtime_endpoints runtime_candidate_endpoints available
fixed_capacity_selection candidates capacity budget =
    ok (select_runtime_endpoints (runtime_candidate_endpoints candidates) (available capacity))
