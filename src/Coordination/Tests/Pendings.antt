-- ===== src/Coordination/Tests/Pendings.antt =====
-- What the theorems on the replacement of a pending subgraph say of a concrete one.
use threadmill_agent_teams.Base.{◌≡◌, ◌⊎◌, refl, true, false, lookup, mem, some, string_eq}
use threadmill_agent_teams.Coordination.Types.{
  EndpointId, EndpointState, PhaseEndpoint, endpoint_id_eq, task_outcome_eq, endpoint_state_eq,
  run_policy_eq, edge_signal_eq, required_by_eq, on_false_eq, blocker_state_eq, verdict_eq,
  command_action_eq, transition_target_eq, action_eq, lease_state_eq, observation_kind_eq,
  phase_endpoint_ref_eq, task_eq, phase_result_eq, phase_command_eq,
}
use threadmill_agent_teams.Coordination.Graph.Acyclic.{at}
use threadmill_agent_teams.Coordination.Pending.Validate.{refs}
use threadmill_agent_teams.Coordination.Pending.Apply.{apply_pending_subgraph}
use threadmill_agent_teams.Coordination.Pending.Scope.{Replaced, apply_pending_subgraph-Replaced}
use threadmill_agent_teams.Coordination.Tests.Code.{all_code}
use threadmill_agent_teams.Coordination.Tests.Data.{endpoint, new_graph, pending, no_runtime}

apply_pending_subgraph-Replaced_example :
    ((mem (at "t" EndpointId.plan) (refs pending.endpoints) ≡ false)
      × (lookup (at "t" EndpointId.plan) (apply_pending_subgraph new_graph pending).endpoints
          ≡ some (endpoint EndpointId.plan EndpointState.pending)))
    ⊎ ((mem (at "t" EndpointId.plan) (refs pending.endpoints) ≡ true)
        × (e' : PhaseEndpoint) × (lookup
              (at "t" EndpointId.plan)
              (apply_pending_subgraph new_graph pending).endpoints
            ≡ some e')
        × (e'.ref ≡ at "t" EndpointId.plan)
        × Replaced no_runtime (endpoint EndpointId.plan EndpointState.pending) e')
unfolding all_code
apply_pending_subgraph-Replaced_example =
    apply_pending_subgraph-Replaced new_graph no_runtime pending (at "t" EndpointId.plan)
      (endpoint EndpointId.plan EndpointState.pending) refl refl
