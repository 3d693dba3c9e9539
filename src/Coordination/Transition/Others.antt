-- ===== src/Coordination/Transition/Others.antt =====
-- The transitions of blockers and tasks in internal/coordination/transition.go.
use threadmill_agent_teams.Base.{
  ◌+◌, Bool, true, false, not, String, ◌==◌, ◌!=◌, lookup, insert, string_eq, ◌^^◌,
}
use threadmill_agent_teams.Kernel.Errors.{
  Result, ok, err, ◌>>=◌, ◌>>◌, reject_if, or_fail, invalid_argument, invalid_graph_error,
  transition_rejected_error, stale_binding_error, require_id,
}
use threadmill_agent_teams.Kernel.Revision.{u64}
use threadmill_agent_teams.Coordination.Types.{
  EndpointId, TaskOutcome, EndpointState, RunPolicy, BlockerState, Action, Task, PhaseEndpoint,
  Blocker, GraphState, GraphTransition, phase_endpoint_ref_eq, endpoint_state_eq, run_policy_eq,
  task_outcome_eq, blocker_state_eq,
}
use threadmill_agent_teams.Coordination.Graph.Acyclic.{at}

unfoldable pub blocker_action : Action → Blocker → Result Blocker
blocker_action Action.resolved blocker = do
  reject_if (blocker.state != BlockerState.active)
      (transition_rejected_error "resolved transition requires active blocker")
  ok (record blocker { state = BlockerState.resolved })
blocker_action Action.denied blocker = do
  reject_if (blocker.state != BlockerState.active)
      (transition_rejected_error "denied transition requires active blocker")
  ok (record blocker { state = BlockerState.denied })
blocker_action Action.obsolete blocker = do
  reject_if (blocker.state != BlockerState.active)
      (transition_rejected_error "obsolete transition requires active blocker")
  ok (record blocker { state = BlockerState.obsolete })
blocker_action _ blocker = err (invalid_argument "blocker transition action is not allowed")

unfoldable pub apply_blocker_transition : GraphState → GraphTransition → Result GraphState
apply_blocker_transition state t = do
  blocker ←
      or_fail (lookup t.blocker_id state.blockers)
        (invalid_argument "blocker transition references unknown blocker")
  blocker' ← blocker_action t.action blocker
  ok (record state { blockers = insert t.blocker_id blocker' state.blockers })

unfoldable pub require_verify_satisfied : GraphState → String → Result (Unit {0})
require_verify_satisfied state task = do
  verify ←
      or_fail (lookup (at task EndpointId.verify) state.endpoints)
        (invalid_argument "task is missing verify endpoint")
  reject_if (verify.state != EndpointState.satisfied)
      (transition_rejected_error "task done requires satisfied verify endpoint")

reopenable_state : EndpointState → String → Bool → Result (Unit {0})
reopenable_state EndpointState.satisfied name allow_pending = ok tt
reopenable_state EndpointState.rejected name allow_pending = ok tt
reopenable_state EndpointState.pending name allow_pending = reject_if (not allow_pending) (
    transition_rejected_error
      ("reopen_round requires " ^^ name ^^ " endpoint to be satisfied or rejected"))
reopenable_state _ name allow_pending = err (
    transition_rejected_error (
      "reopen_round requires " ^^ name
      ^^ " endpoint to be satisfied, rejected, or an explicitly withheld pending verify"))

unfoldable pub require_reopenable_round_endpoint :
    String → PhaseEndpoint → String → Bool → Result (Unit {0})
unfolding reopenable_state
require_reopenable_round_endpoint name endpoint binding_ref allow_pending = do
  reopenable_state endpoint.state name allow_pending
  reject_if (endpoint.run_policy == RunPolicy.held)
      (transition_rejected_error ("reopen_round requires " ^^ name ^^ " endpoint not held"))
  require_id (name ^^ "_binding_ref") binding_ref
  reject_if (endpoint.binding_ref == binding_ref)
      (stale_binding_error ("reopen_round requires a new " ^^ name ^^ " binding_ref"))

-- An endpoint of the new round.
unfoldable pub reopen : PhaseEndpoint → String → PhaseEndpoint
reopen endpoint binding_ref = record endpoint {
  state = EndpointState.pending;
  run_policy = RunPolicy.enabled;
  generation = u64 (endpoint.generation + 1);
  binding_ref = binding_ref;
}

abbrev missing_phases : String
missing_phases = "reopen_round requires the fixed plan/execute/verify endpoint set"

unfoldable pub reopen_execution_round : GraphState → GraphTransition → Result GraphState
reopen_execution_round state t = do
  let execute_ref = at t.task_id EndpointId.execute
  let verify_ref = at t.task_id EndpointId.verify
  plan ←
      or_fail (lookup (at t.task_id EndpointId.plan) state.endpoints)
        (invalid_graph_error missing_phases)
  execute ← or_fail (lookup execute_ref state.endpoints) (invalid_graph_error missing_phases)
  verify ← or_fail (lookup verify_ref state.endpoints) (invalid_graph_error missing_phases)
  reject_if (plan.state != EndpointState.satisfied)
      (transition_rejected_error "reopen_round requires satisfied plan endpoint")
  require_reopenable_round_endpoint "execute" execute t.execute_binding_ref false
  require_reopenable_round_endpoint "verify" verify t.verify_binding_ref true
  ok (record state {
    endpoints =
        insert verify_ref (reopen verify t.verify_binding_ref)
          (insert execute_ref (reopen execute t.execute_binding_ref) state.endpoints);
  })

unfoldable pub task_action :
    Action → GraphState → Task → GraphTransition → Result (GraphState × Task)
task_action Action.done state task t = do
  reject_if (task.outcome != TaskOutcome.active)
      (transition_rejected_error "done transition requires active task")
  require_verify_satisfied state t.task_id
  ok (state, record task { outcome = TaskOutcome.done })
task_action Action.canceled state task t = do
  reject_if (task.outcome != TaskOutcome.active)
      (transition_rejected_error "canceled transition requires active task")
  ok (state, record task { outcome = TaskOutcome.canceled })
task_action Action.failed state task t = do
  reject_if (task.outcome != TaskOutcome.active)
      (transition_rejected_error "failed transition requires active task")
  ok (state, record task { outcome = TaskOutcome.failed })
task_action Action.reopen_round state task t = do
  reject_if (task.outcome != TaskOutcome.active)
      (transition_rejected_error "reopen_round transition requires active task")
  state' ← reopen_execution_round state t
  ok (state', task)
task_action _ state task t = err (invalid_argument "task transition action is not allowed")

unfoldable pub apply_task_transition : GraphState → GraphTransition → Result GraphState
apply_task_transition state t = do
  task ←
      or_fail (lookup t.task_id state.tasks)
        (invalid_argument "task transition references unknown task")
  (state', task') ← task_action t.action state task t
  ok (record state' { tasks = insert t.task_id task' state'.tasks })
