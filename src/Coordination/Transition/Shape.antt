-- ===== src/Coordination/Transition/Shape.antt =====
-- validateTransitionShape of internal/coordination/validation.go.
use threadmill_agent_teams.Base.{◌||◌, not, ◌==◌, ◌!=◌, string_eq, nat_eq}
use threadmill_agent_teams.Kernel.Errors.{
  Result, ok, err, ◌>>◌, reject_if, invalid_argument, transition_rejected_error,
  stale_binding_error, require_id,
}
use threadmill_agent_teams.Coordination.Types.{
  EndpointId, Verdict, TransitionTarget, Action, PhaseEndpointRef, PhaseResult, GraphTransition,
  phase_endpoint_ref_eq, phase_result_eq,
}
use threadmill_agent_teams.Coordination.Graph.Validation.{validate_endpoint_ref, positive}

abbrev pub zero_ref : PhaseEndpointRef
zero_ref = record { task_id = ""; endpoint_id = EndpointId.other "" }

abbrev pub zero_result : PhaseResult
zero_result = record {
  id = "";
  endpoint = zero_ref;
  binding_ref = "";
  output_ref = "";
  verdict = Verdict.other "";
}

endpoint_action_shape : Action → Result (Unit {0})
endpoint_action_shape Action.submitted = ok tt
endpoint_action_shape Action.satisfied = ok tt
endpoint_action_shape Action.rejected = ok tt
endpoint_action_shape Action.reopened = ok tt
endpoint_action_shape Action.held = ok tt
endpoint_action_shape Action.released = ok tt
endpoint_action_shape Action.stopped = ok tt
endpoint_action_shape _ = err (invalid_argument "phase endpoint transition action is not allowed")

blocker_action_shape : Action → Result (Unit {0})
blocker_action_shape Action.resolved = ok tt
blocker_action_shape Action.denied = ok tt
blocker_action_shape Action.obsolete = ok tt
blocker_action_shape _ = err (invalid_argument "blocker transition action is not allowed")

reopen_round_shape : GraphTransition → Result (Unit {0})
reopen_round_shape t = do
  reject_if
      (t.endpoint != zero_ref
        || t.blocker_id != ""
        || t.generation != 0
        || t.result != zero_result
        || t.new_binding_ref != ""
        || t.new_spec_ref != ""
        || t.checkpoint_ref != ""
        || t.non_resumable)
      (invalid_argument
        "reopen_round only accepts task_id, execute_binding_ref, verify_binding_ref, action, and evidence_refs")
  require_id "execute_binding_ref" t.execute_binding_ref
  require_id "verify_binding_ref" t.verify_binding_ref
  reject_if (t.execute_binding_ref == t.verify_binding_ref)
      (stale_binding_error "reopen_round requires distinct execute and verify binding_ref values")

task_action_shape : Action → GraphTransition → Result (Unit {0})
unfolding reopen_round_shape
task_action_shape Action.done t = ok tt
task_action_shape Action.canceled t = ok tt
task_action_shape Action.failed t = ok tt
task_action_shape Action.reopen_round t = reopen_round_shape t
task_action_shape _ t = err (invalid_argument "task transition action is not allowed")

target_shape : TransitionTarget → GraphTransition → Result (Unit {0})
unfolding endpoint_action_shape blocker_action_shape task_action_shape
target_shape TransitionTarget.phase_endpoint t = do
  validate_endpoint_ref t.endpoint
  reject_if (not (positive t.generation))
      (transition_rejected_error "phase endpoint transition generation is required")
  endpoint_action_shape t.action
target_shape TransitionTarget.blocker t = do
  reject_if (t.blocker_id == "") (invalid_argument "blocker_id is required")
  blocker_action_shape t.action
target_shape TransitionTarget.task t = do
  require_id "task_id" t.task_id
  task_action_shape t.action t
target_shape (TransitionTarget.other s) t =
    err (invalid_argument "transition target kind is not allowed")

unfoldable pub validate_transition_shape : GraphTransition → Result (Unit {0})
unfolding target_shape
validate_transition_shape t = target_shape t.target_kind t
