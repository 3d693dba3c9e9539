-- ===== src/Coordination/Reconcile/Loop.antt =====
-- `reconcile` of internal/coordination/runtime.go. Only this runtime writes the project meanwhile. The
-- phase controller, the selection and the provider of the scheduling state are parameters.
use threadmill_agent_teams.Base.{ℕ, Option, none, some, List, [], ◌++◌, length, select, pos}
use threadmill_agent_teams.Kernel.Errors.{Error, Result, ok, err}
use threadmill_agent_teams.Coordination.Types.{PhaseEndpoint, PhaseCommand}
use threadmill_agent_teams.Coordination.Runtime.Port.{
  RuntimeCandidate, RuntimeCapacity, RuntimeBudgetStatus, RuntimeSchedulingState,
}
use threadmill_agent_teams.Coordination.Runtime.View.{RuntimeView, active_leases, pending_commands}
use threadmill_agent_teams.Coordination.Reconcile.Run.{
  Run, pure, raise, ◌>>=◌, ◌>>◌, each_with, each_run,
}
use threadmill_agent_teams.Coordination.Reconcile.Fold.{
  load, fold_observations, repair_decision_pairs,
}
use threadmill_agent_teams.Coordination.Reconcile.Dispatch.{
  Stopping, stop_lease, not_suppressed, graph_runnable, runtime_candidates, unique_by_command_id,
  deliver,
}
use threadmill_agent_teams.Coordination.Reconcile.Claims.{claim_rounds}

-- The times at which the clock is read.
pub record Clock : Type 0 where
  pub loaded : ℕ
  pub folded : ℕ
  pub repaired : ℕ
  pub claimed : PhaseEndpoint → ℕ

-- What the runtime is made with.
pub record RuntimeOptions (Cost : Type 0) : Type 0 where
  pub controller : Option (PhaseCommand → Option Error)
  pub select_runnable :
      List RuntimeCandidate
      → RuntimeCapacity
      → RuntimeBudgetStatus Cost
      → Result (List PhaseEndpoint)
  pub scheduling : Result (RuntimeSchedulingState Cost)

-- The capacity in use is the number of active leases, whatever the provider says.
abbrev pub counted :
    {Cost : Type 0} → RuntimeSchedulingState Cost → RuntimeView → RuntimeSchedulingState Cost
counted state view = record {
  capacity = record state.capacity { active = pos (length (active_leases view)) };
  budget = state.budget;
}

unfoldable pub scheduling_state :
    {Cost : Type 0}
    → Result (RuntimeSchedulingState Cost)
    → RuntimeView
    → Run (RuntimeSchedulingState Cost)
scheduling_state (err e) view = raise e
scheduling_state (ok state) view = pure (counted state view)

abbrev pub Ended : Type 0
Ended = Option (Unit {0})

-- The deliveries, where the rounds have sufficed.
abbrev pub deliver_all :
    Option (PhaseCommand → Option Error) → Option (List PhaseCommand) → Run Ended
deliver_all controller none = pure none
deliver_all controller (some commands) = do
  each_run (deliver controller) (unique_by_command_id commands)
  pure (some tt)

-- The claims, with as many rounds as there are candidates, and the commands to deliver before them.
unfoldable pub claim_all :
    {Cost : Type 0}
    → RuntimeOptions Cost
    → Clock
    → RuntimeSchedulingState Cost
    → Stopping
    → Run (Option (List PhaseCommand))
unfolding not_suppressed graph_runnable runtime_candidates claim_rounds pending_commands
claim_all options clock scheduling stopping =
    let pending = select (not_suppressed stopping.0) (pending_commands stopping.0) in
    let candidates = runtime_candidates (graph_runnable stopping.0) in
    claim_rounds options.select_runnable scheduling stopping.0 clock.claimed (length candidates)
      candidates (stopping.1 ++ pending)

abbrev pub claim_and_deliver :
    {Cost : Type 0}
    → RuntimeOptions Cost
    → Clock
    → RuntimeSchedulingState Cost
    → Stopping
    → Run Ended
claim_and_deliver options clock scheduling stopping = do
  commands ← claim_all options clock scheduling stopping
  deliver_all options.controller commands

-- The part after the scheduling state.
unfoldable pub dispatch :
    {Cost : Type 0}
    → RuntimeOptions Cost
    → Clock
    → RuntimeView
    → RuntimeSchedulingState Cost
    → Run Ended
unfolding each_with each_run stop_lease claim_all unique_by_command_id deliver
dispatch options clock view scheduling = do
  stopping ← each_with stop_lease (view, []) (active_leases view)
  claim_and_deliver options clock scheduling stopping

abbrev pub schedule_and_dispatch :
    {Cost : Type 0} → RuntimeOptions Cost → Clock → RuntimeView → Run Ended
schedule_and_dispatch options clock repaired = do
  scheduling ← scheduling_state options.scheduling repaired
  dispatch options clock repaired scheduling

abbrev pub repair_and_dispatch :
    {Cost : Type 0} → RuntimeOptions Cost → Clock → RuntimeView → Run Ended
repair_and_dispatch options clock folded = do
  repaired ← repair_decision_pairs folded clock.repaired
  schedule_and_dispatch options clock repaired

unfoldable pub reconcile : {Cost : Type 0} → RuntimeOptions Cost → Clock → Run Ended
unfolding fold_observations repair_decision_pairs scheduling_state dispatch
reconcile options clock = do
  view ← load clock.loaded
  folded ← fold_observations view clock.folded
  repair_and_dispatch options clock folded
