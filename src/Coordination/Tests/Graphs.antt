-- ===== src/Coordination/Tests/Graphs.antt =====
-- What the theorems on validateAcyclic say of concrete graphs.
use threadmill_agent_teams.Base.{◌≢◌, refl, none}
use threadmill_agent_teams.Coordination.Types.{
  EndpointId, PhaseEndpointRef, endpoint_id_eq, task_outcome_eq, endpoint_state_eq, run_policy_eq,
  edge_signal_eq, required_by_eq, on_false_eq, blocker_state_eq, verdict_eq, command_action_eq,
  transition_target_eq, action_eq, lease_state_eq, observation_kind_eq, phase_endpoint_ref_eq,
  task_eq, phase_result_eq, phase_command_eq,
}
use threadmill_agent_teams.Coordination.Graph.Acyclic.{at, validate_acyclic}
use threadmill_agent_teams.Coordination.Graph.Acyclic.Order.{Chain}
use threadmill_agent_teams.Coordination.Graph.Acyclic.Sound.{validate_acyclic_sound}
use threadmill_agent_teams.Coordination.Graph.Acyclic.Complete.{validate_acyclic_complete}
use threadmill_agent_teams.Coordination.Graph.Acyclic.Total.{validate_acyclic_total}
use threadmill_agent_teams.Coordination.Tests.Code.{all_code}
use threadmill_agent_teams.Coordination.Tests.Data.{cyclic, joined}

validate_acyclic_sound_example : ¬ Chain joined (at "t" EndpointId.plan) (at "t" EndpointId.plan)
unfolding all_code
validate_acyclic_sound_example = validate_acyclic_sound joined (at "t" EndpointId.plan) refl refl

validate_acyclic_complete_example : (x : PhaseEndpointRef) × Chain cyclic x x
unfolding all_code
validate_acyclic_complete_example = validate_acyclic_complete cyclic _ refl

validate_acyclic_total_example : validate_acyclic cyclic ≢ none
validate_acyclic_total_example = validate_acyclic_total cyclic
