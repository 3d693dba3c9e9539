-- ===== src/Coordination/Tests/Stores.antt =====
-- What the theorems on the store say of concrete writes.
use threadmill_agent_teams.Base.{List, ◌≡◌, refl, lookup, some, [], ◌∷◌, nat_eq, arith}
use threadmill_agent_teams.Kernel.Errors.{Error, err}
use threadmill_agent_teams.Coordination.Types.{
  EndpointState, CommandAction, EndpointId, endpoint_id_eq, task_outcome_eq, endpoint_state_eq,
  run_policy_eq, edge_signal_eq, required_by_eq, on_false_eq, blocker_state_eq, verdict_eq,
  command_action_eq, transition_target_eq, action_eq, lease_state_eq, observation_kind_eq,
  phase_endpoint_ref_eq, task_eq, phase_result_eq, phase_command_eq,
}
use threadmill_agent_teams.Coordination.Graph.Acyclic.{at}
use threadmill_agent_teams.Coordination.Graph.Acyclic.Order.{Chain}
use threadmill_agent_teams.Coordination.Store.Project.{
  new_graph_state, new_memory_store, ensure_project,
}
use threadmill_agent_teams.Coordination.Store.Memory.{transition_graph, transition, replace_pending}
use threadmill_agent_teams.Coordination.Store.Commits.{Unchanged, Wrote, transition-Wrote}
use threadmill_agent_teams.Coordination.Store.Invariant.{
  runs, replaces, transitions, Write, run, IsProject, new_memory_store-IsStore, run-IsProject,
  run-acyclic,
}
use threadmill_agent_teams.Coordination.Store.History.{run-keeps_history, transition_once}
use threadmill_agent_teams.Coordination.Runtime.Writes.{RuntimeWrite}
use threadmill_agent_teams.Coordination.Tests.Code.{all_code}
use threadmill_agent_teams.Coordination.Tests.RuntimeCode.{runtime_code}
use threadmill_agent_teams.Coordination.Tests.Data.{
  endpoint, new_graph, hold_plan, pending, store_of, pending_at_2,
}

abbrev writes : List Write
writes =
    replaces "p" pending
    ∷ runs "p" (
        RuntimeWrite.claim 5 2 (endpoint EndpointId.plan EndpointState.pending) CommandAction.start
          "cause")
    ∷ transitions "p" 2 hold_plan
    ∷ []

run-IsProject_example : IsProject (ensure_project (run new_memory_store writes) "p")
run-IsProject_example = run-IsProject writes "p" (omega arith)

run-acyclic_example : ¬ Chain new_graph (at "t" EndpointId.plan) (at "t" EndpointId.plan)
unfolding all_code runtime_code
run-acyclic_example =
    run-acyclic writes "p" 2 new_graph (at "t" EndpointId.plan) (omega arith) refl refl

run-keeps_history_example :
    lookup 1 (ensure_project (run new_memory_store writes) "p").history ≡ some new_graph_state
unfolding all_code runtime_code
run-keeps_history_example =
    run-keeps_history new_memory_store writes "p" 1 new_graph_state new_memory_store-IsStore
      (λ q. omega arith) refl

transition-Wrote_example :
    Wrote
      (store_of new_graph)
      (transition (store_of new_graph) "p" 2 hold_plan).0
      "p"
      (transition (store_of new_graph) "p" 2 hold_plan).1
      (transition_graph (ensure_project (store_of new_graph) "p") 2 hold_plan)
transition-Wrote_example = transition-Wrote (store_of new_graph) "p" 2 hold_plan

transition_once_example :
    ((e : Error) × ((transition
          (transition (store_of new_graph) "p" 2 hold_plan).0
          "p"
          2
          hold_plan).1
        ≡ err e)
      × Unchanged
          (transition (store_of new_graph) "p" 2 hold_plan).0
          (transition (transition (store_of new_graph) "p" 2 hold_plan).0 "p" 2 hold_plan).0)
    × ((e : Error) × ((replace_pending
            (transition (store_of new_graph) "p" 2 hold_plan).0
            "p"
            pending_at_2).1
          ≡ err e)
        × Unchanged
            (transition (store_of new_graph) "p" 2 hold_plan).0
            (replace_pending
              (transition (store_of new_graph) "p" 2 hold_plan).0
              "p"
              pending_at_2).0)
unfolding all_code
transition_once_example =
    transition_once (store_of new_graph) "p" 2 hold_plan hold_plan pending_at_2 _ (omega arith) refl
      refl
