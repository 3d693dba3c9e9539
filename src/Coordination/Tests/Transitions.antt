-- ===== src/Coordination/Tests/Transitions.antt =====
-- What the theorems on applyTransition say of concrete transitions.
use threadmill_agent_teams.Base.{◌≡◌, ◌≢◌, refl, inl, lookup, some, string_eq}
use threadmill_agent_teams.Coordination.Types.{
  EndpointId, EndpointState, BlockerState, Verdict, Action, PhaseEndpoint, endpoint_id_eq,
  task_outcome_eq, endpoint_state_eq, run_policy_eq, edge_signal_eq, required_by_eq, on_false_eq,
  blocker_state_eq, verdict_eq, command_action_eq, transition_target_eq, action_eq, lease_state_eq,
  observation_kind_eq, phase_endpoint_ref_eq, task_eq, phase_result_eq, phase_command_eq,
}
use threadmill_agent_teams.Coordination.Graph.Acyclic.{at}
use threadmill_agent_teams.Coordination.Transition.Machine.{
  EndpointEffect, apply_endpoint_transition-Step,
}
use threadmill_agent_teams.Coordination.Transition.Generations.{Evolves, apply_transition-Evolves}
use threadmill_agent_teams.Coordination.Transition.Results.{
  Recorded, apply_endpoint_transition-Recorded, apply_transition-keeps_results,
}
use threadmill_agent_teams.Coordination.Transition.Closed.{
  apply_transition-keeps_closed_task, apply_transition-done,
}
use threadmill_agent_teams.Coordination.Transition.Inputs.{
  Given, submitted-edges, submitted-blockers,
}
use threadmill_agent_teams.Coordination.Tests.Code.{all_code}
use threadmill_agent_teams.Coordination.Tests.Data.{
  task, endpoint, planned, result, satisfy_plan, satisfied_graph, hold_plan, edge, decided, joined,
  submit_execute, joined_after, verified, task_to, done_task, closed, hold_after, with_result,
}

apply_endpoint_transition-Step_example : EndpointEffect planned satisfied_graph satisfy_plan
unfolding all_code
apply_endpoint_transition-Step_example =
    apply_endpoint_transition-Step planned satisfied_graph satisfy_plan refl

apply_transition-Evolves_example :
    (e' : PhaseEndpoint) × (lookup (at "t" EndpointId.plan) satisfied_graph.endpoints ≡ some e')
    × Evolves (endpoint EndpointId.plan EndpointState.submitted) e'
unfolding all_code
apply_transition-Evolves_example =
    apply_transition-Evolves planned satisfied_graph satisfy_plan (at "t" EndpointId.plan)
      (endpoint EndpointId.plan EndpointState.submitted) refl refl

apply_endpoint_transition-Recorded_example :
    (e : PhaseEndpoint) × (lookup (at "t" EndpointId.plan) planned.endpoints ≡ some e)
    × (lookup (at "t" EndpointId.plan) satisfied_graph.endpoints
        ≡ some (record e { state = EndpointState.satisfied }))
    × Recorded planned satisfied_graph e satisfy_plan Verdict.satisfied
unfolding all_code
apply_endpoint_transition-Recorded_example =
    apply_endpoint_transition-Recorded planned satisfied_graph satisfy_plan (inl refl) refl

apply_transition-keeps_results_example : lookup "r" (hold_after with_result).results ≡ some result
unfolding all_code
apply_transition-keeps_results_example =
    apply_transition-keeps_results with_result (hold_after with_result) hold_plan "r" result refl
      refl

apply_transition-keeps_closed_task_example : lookup "t" (hold_after closed).tasks ≡ some done_task
unfolding all_code
apply_transition-keeps_closed_task_example =
    apply_transition-keeps_closed_task closed (hold_after closed) hold_plan "t" done_task refl refl
      (λ p. cc)

apply_transition-done_example :
    (verify : PhaseEndpoint) × (lookup (at "t" EndpointId.verify) verified.endpoints ≡ some verify)
    × (verify.state ≡ EndpointState.satisfied)
unfolding all_code
apply_transition-done_example =
    apply_transition-done verified closed (task_to Action.done) "t" task done_task refl refl
      (λ p. cc) refl refl

submitted-edges_example : Given joined (edge (at "t" EndpointId.plan) (at "t" EndpointId.execute))
unfolding all_code
submitted-edges_example =
    submitted-edges joined joined_after submit_execute
      (endpoint EndpointId.execute EndpointState.pending)
      (edge (at "t" EndpointId.plan) (at "t" EndpointId.execute)) refl refl refl (inl refl) refl
      refl

submitted-blockers_example :
    (decided.state ≢ BlockerState.active) × (decided.state ≢ BlockerState.denied)
unfolding all_code
submitted-blockers_example =
    submitted-blockers joined joined_after submit_execute
      (endpoint EndpointId.execute EndpointState.pending) ("b", decided) refl refl refl (inl refl)
      refl refl
