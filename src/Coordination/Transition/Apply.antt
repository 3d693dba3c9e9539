-- ===== src/Coordination/Transition/Apply.antt =====
-- applyTransition of internal/coordination/transition.go.
use threadmill_agent_teams.Kernel.Errors.{Result, err, invalid_argument}
use threadmill_agent_teams.Coordination.Types.{TransitionTarget, GraphState, GraphTransition}
use threadmill_agent_teams.Coordination.Transition.Endpoint.{apply_endpoint_transition}
use threadmill_agent_teams.Coordination.Transition.Others.{
  apply_blocker_transition, apply_task_transition,
}

unfoldable pub apply_target : TransitionTarget → GraphState → GraphTransition → Result GraphState
apply_target TransitionTarget.phase_endpoint state t = apply_endpoint_transition state t
apply_target TransitionTarget.blocker state t = apply_blocker_transition state t
apply_target TransitionTarget.task state t = apply_task_transition state t
apply_target (TransitionTarget.other s) state t =
    err (invalid_argument "transition target kind is not allowed")

unfoldable pub apply_transition : GraphState → GraphTransition → Result GraphState
unfolding apply_target
apply_transition state t = apply_target t.target_kind state t
