-- ===== src/Coordination/Reconcile/Whole.antt =====
-- The later parts of `reconcile` of internal/coordination/runtime.go, and the whole of it, as a sequence
-- of writes of the store.
use threadmill_agent_teams.Base.{
  ℕ, zero, suc, false, if◌then◌else◌, if_cases, Option, none, some, List, [], ◌∷◌, string_eq,
}
use threadmill_agent_teams.Kernel.Errors.{Error, Result, ok, err}
use threadmill_agent_teams.Coordination.Types.{PhaseEndpoint, PhaseCommand}
use threadmill_agent_teams.Coordination.Runtime.Port.{
  RuntimeCandidate, RuntimeCapacity, RuntimeBudgetStatus, RuntimeSchedulingState,
}
use threadmill_agent_teams.Coordination.Runtime.View.{RuntimeView, active_leases}
use threadmill_agent_teams.Coordination.Reconcile.Run.{Run, pure, ◌>>=◌, each_with, each_run}
use threadmill_agent_teams.Coordination.Reconcile.Fold.{
  load, fold_observations, repair_decision_pairs,
}
use threadmill_agent_teams.Coordination.Reconcile.Dispatch.{
  Stopping, stop_lease, unique_by_command_id, deliver,
}
use threadmill_agent_teams.Coordination.Reconcile.Claims.{
  Claims, claim_endpoint, claim_rounds, chosen_round, remove_selected_candidates, refs_of,
}
use threadmill_agent_teams.Coordination.Reconcile.Loop.{
  Clock, RuntimeOptions, Ended, scheduling_state, deliver_all, claim_all, claim_and_deliver,
  dispatch, schedule_and_dispatch, repair_and_dispatch, reconcile,
}
use threadmill_agent_teams.Coordination.Reconcile.Traced.{
  Traced, nothing, then-Traced, each_with-Traced, each_run-Traced, fold_observations-Traced,
  repair_decision_pairs-Traced, stop_lease-Traced, deliver-Traced, claim_endpoint-Traced,
}

module _ {Cost : Type 0}
    (select_runnable : List RuntimeCandidate
      → RuntimeCapacity
      → RuntimeBudgetStatus Cost
      → Result (List PhaseEndpoint))
    (scheduling : RuntimeSchedulingState Cost) (view : RuntimeView)
    (clock : PhaseEndpoint → ℕ) where
  chosen_round-Traced :
      (next : List RuntimeCandidate → List PhaseCommand → Run (Option (List PhaseCommand)))
      (candidates : List RuntimeCandidate) (commands : List PhaseCommand)
      (choice : Result (List PhaseEndpoint))
      → ((cs : List RuntimeCandidate) (done : List PhaseCommand) → Traced (next cs done))
      → Traced (chosen_round select_runnable scheduling view clock next candidates commands choice)
  chosen_round-Traced next candidates commands (err failure) t = nothing
  chosen_round-Traced next candidates commands (ok []) t = nothing
  chosen_round-Traced next candidates commands (ok (e ∷ selected)) t =
      then-Traced (each_with (claim_endpoint view clock) (false, commands) (e ∷ selected))
        (λ (claims : Claims).
          if claims.0
          then pure (some claims.1)
          else next (remove_selected_candidates candidates (refs_of (e ∷ selected))) claims.1)
        (each_with-Traced (claim_endpoint view clock) (false, commands) (e ∷ selected)
          (claim_endpoint-Traced view clock))
        (λ claims. if_cases Traced claims.0 nothing (t _ _))

  claim_rounds-Traced :
      (rounds : ℕ) (candidates : List RuntimeCandidate) (commands : List PhaseCommand)
      → Traced (claim_rounds select_runnable scheduling view clock rounds candidates commands)
  unfolding claim_rounds
  claim_rounds-Traced zero [] commands = nothing
  claim_rounds-Traced zero (c ∷ candidates) commands = nothing
  claim_rounds-Traced (suc rounds) [] commands = nothing
  claim_rounds-Traced (suc rounds) (c ∷ candidates) commands =
      chosen_round-Traced (claim_rounds select_runnable scheduling view clock rounds)
        (c ∷ candidates) commands
        (select_runnable (c ∷ candidates) scheduling.capacity scheduling.budget)
        (claim_rounds-Traced rounds)

deliver_all-Traced :
    (controller : Option (PhaseCommand → Option Error)) (commands : Option (List PhaseCommand))
    → Traced (deliver_all controller commands)
deliver_all-Traced controller none = nothing
deliver_all-Traced controller (some commands) =
    then-Traced (each_run (deliver controller) (unique_by_command_id commands))
      (λ u. pure {A = Ended} (some tt))
      (each_run-Traced (deliver controller) (unique_by_command_id commands)
        (deliver-Traced controller))
      (λ u. nothing)

scheduling_state-Traced :
    {Cost : Type 0} (state : Result (RuntimeSchedulingState Cost)) (view : RuntimeView)
    → Traced (scheduling_state state view)
unfolding scheduling_state
scheduling_state-Traced (err e) view = nothing
scheduling_state-Traced (ok state) view = nothing

module _ {Cost : Type 0} (options : RuntimeOptions Cost) (clock : Clock) where
  pub claim_and_deliver-Traced :
      (scheduling : RuntimeSchedulingState Cost) (stopping : Stopping)
      → Traced (claim_and_deliver options clock scheduling stopping)
  unfolding claim_all
  claim_and_deliver-Traced scheduling stopping =
      then-Traced (claim_all options clock scheduling stopping) (deliver_all options.controller)
        (claim_rounds-Traced options.select_runnable scheduling stopping.0 clock.claimed _ _ _)
        (deliver_all-Traced options.controller)

  dispatch-Traced :
      (view : RuntimeView) (scheduling : RuntimeSchedulingState Cost)
      → Traced (dispatch options clock view scheduling)
  unfolding dispatch
  dispatch-Traced view scheduling =
      then-Traced (each_with stop_lease (view, []) (active_leases view))
        (claim_and_deliver options clock scheduling)
        (each_with-Traced stop_lease (view, []) (active_leases view) stop_lease-Traced)
        (claim_and_deliver-Traced scheduling)

  -- Whatever the controller, the selection and the scheduling state are, and whether or not it ends in
  -- an error, a reconcile leaves a project as a sequence of writes leaves it.
  pub reconcile-Traced : Traced (reconcile options clock)
  unfolding reconcile
  reconcile-Traced =
      then-Traced (load clock.loaded)
        (λ view. fold_observations view clock.folded >>= repair_and_dispatch options clock) nothing
        (λ view.
          then-Traced (fold_observations view clock.folded) (repair_and_dispatch options clock)
            (fold_observations-Traced view clock.folded)
            (λ folded.
              then-Traced (repair_decision_pairs folded clock.repaired)
                (schedule_and_dispatch options clock)
                (repair_decision_pairs-Traced folded clock.repaired)
                (λ repaired.
                  then-Traced (scheduling_state options.scheduling repaired)
                    (dispatch options clock repaired)
                    (scheduling_state-Traced options.scheduling repaired)
                    (dispatch-Traced repaired))))
