-- ===== src/Coordination/Reconcile/Dispatch.antt =====
-- What internal/coordination/runtime.go stops, which endpoints it offers for selection, and how it
-- delivers a command. The phase controller is a parameter: what it answers to a command.
use threadmill_agent_teams.Base.{
  Bool, true, false, ◌&&◌, ◌||◌, not, Option, none, some, List, [], ◌∷◌, ◌++◌, map, String, ◌==◌,
  ◌!=◌, if◌then◌else◌, lookup, string_eq, nat_eq, mem, select, sort, text_lt, ltb, pos,
}
use threadmill_agent_teams.Kernel.Errors.{
  Error, ok, executor_unavailable, stale_command, lease_conflict, stale_checkpoint,
  command_conflict, error_code_eq,
}
use threadmill_agent_teams.Coordination.Types.{
  TaskOutcome, RunPolicy, CommandAction, Task, PhaseEndpoint, PhaseCommand, PhaseLease,
  command_action_eq, task_outcome_eq, run_policy_eq, phase_endpoint_ref_eq,
}
use threadmill_agent_teams.Coordination.Store.Snapshot.{phase_order}
use threadmill_agent_teams.Coordination.Runtime.Port.{RuntimeCandidate}
use threadmill_agent_teams.Coordination.Runtime.View.{RuntimeView, suppress_run, run_suppressed}
use threadmill_agent_teams.Coordination.Runtime.Runnable.{is_runnable}
use threadmill_agent_teams.Coordination.Runtime.Writes.{RuntimeWrite}
use threadmill_agent_teams.Coordination.Reconcile.Run.{Run, pure, ◌>>=◌, perform}
use threadmill_agent_teams.Coordination.Reconcile.Fold.{stop_of, quarantine}

unfoldable pub stops : Option PhaseEndpoint → Option Task → PhaseLease → Bool
stops none task lease = true
stops (some e) none lease = true
stops (some e) (some task) lease =
    task.outcome != TaskOutcome.active
    || e.run_policy == RunPolicy.held
    || e.generation != lease.generation
    || e.binding_ref != lease.binding_ref
    || lease.expired

unfoldable pub must_stop : RuntimeView → PhaseLease → Bool
unfolding stops
must_stop view lease =
    stops (lookup lease.endpoint view.endpoint_by_ref) (lookup lease.endpoint.task_id view.tasks)
      lease

abbrev pub Stopping : Type 0
Stopping = RuntimeView × List PhaseCommand

-- The body of the loop over the active leases, with the view and the commands to deliver so far.
unfoldable pub stop_lease : Stopping → PhaseLease → Run Stopping
unfolding must_stop stop_of
stop_lease (view, commands) lease =
    if not (must_stop view lease) then pure (view, commands) else (do
      stop ← stop_of view lease
      pure (
        suppress_run view lease.endpoint lease.generation,
        (if stop.1 then commands ++ (stop.0 ∷ []) else commands),
      ))

unfoldable pub not_suppressed : RuntimeView → PhaseCommand → Bool
not_suppressed view command = not (
    command.action != CommandAction.stop && run_suppressed view command.endpoint command.generation)

unfoldable pub runnable_less : PhaseEndpoint → PhaseEndpoint → Bool
unfolding phase_order
runnable_less left right =
    let a = phase_order left.ref.endpoint_id in
    let b = phase_order right.ref.endpoint_id in
    if a == b then text_lt left.ref.task_id right.ref.task_id else ltb b a

unfoldable pub graph_runnable : RuntimeView → List PhaseEndpoint
unfolding runnable_less sort select
graph_runnable view = sort runnable_less (select (is_runnable view) view.endpoints)

unfoldable pub runtime_candidate : PhaseEndpoint → RuntimeCandidate
runtime_candidate e = record {
  endpoint = e;
  runnable = true;
  capacity_cost = pos 1;
  capability_matched = true;
  latest_main_merge_candidate = false;
  unblocks_dependents = false;
  write_conflict_risk = pos 0;
  exploratory = false;
}

unfoldable pub runtime_candidates : List PhaseEndpoint → List RuntimeCandidate
unfolding runtime_candidate
runtime_candidates endpoints = map runtime_candidate endpoints

-- The loop of uniqueByCommandID, from the identifiers that it has seen.
unfoldable pub first_of_id : List String → List PhaseCommand → List PhaseCommand
first_of_id seen [] = []
first_of_id seen (c ∷ commands) =
    let again = mem c.id seen in
    let rest = first_of_id (if again then seen else c.id ∷ seen) commands in
    if again then rest else c ∷ rest

unfoldable pub unique_by_command_id : List PhaseCommand → List PhaseCommand
unfolding first_of_id
unique_by_command_id commands = first_of_id [] commands

abbrev mark : RuntimeWrite → Run (Unit {0})
mark w = perform w (λ p. ok tt)

-- What is recorded of a delivery that ended with an answer, none where there was no error.
unfoldable pub delivered : PhaseCommand → Option Error → Run (Unit {0})
unfolding quarantine
delivered command none = mark (RuntimeWrite.accept command.id)
delivered command (some e) =
    if e.code == executor_unavailable
    then mark (RuntimeWrite.retry command.id)
    else if e.code == stale_command || e.code == lease_conflict
    then mark (RuntimeWrite.reject command e.code)
    else if e.code == stale_checkpoint
    then mark (RuntimeWrite.reject command e.code)
    else if e.code == command_conflict
    then quarantine command.id
    else mark (RuntimeWrite.retry command.id)

unfoldable pub deliver : Option (PhaseCommand → Option Error) → PhaseCommand → Run (Unit {0})
unfolding delivered
deliver none command = mark (RuntimeWrite.retry command.id)
deliver (some apply) command = delivered command (apply command)
