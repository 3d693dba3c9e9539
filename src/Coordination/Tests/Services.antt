-- ===== src/Coordination/Tests/Services.antt =====
-- What the theorems on the service say of concrete calls.
use threadmill_agent_teams.Base.{ℕ, List, Option, none, some, [], ◌∷◌, ◌≡◌, ◌⊎◌, refl, lookup}
use threadmill_agent_teams.Kernel.Errors.{ok}
use threadmill_agent_teams.Kernel.Revision.{Revision}
use threadmill_agent_teams.Kernel.Idempotency.{new_memory_idempotency_store}
use threadmill_agent_teams.Auth.Tools.{
  PrincipalKind, Role, tool_coordination_replace_pending, tool_coordination_transition,
}
use threadmill_agent_teams.Auth.Require.{Principal}
use threadmill_agent_teams.Coordination.Types.{GraphTransition}
use threadmill_agent_teams.Coordination.Store.Memory.{transition_with_decision_ref}
use threadmill_agent_teams.Coordination.Service.Decisions.{Decision, key_of, decision_key_eq}
use threadmill_agent_teams.Coordination.Service.Calls.{
  Coding, ServiceState, service_replace_pending, service_transition,
}
use threadmill_agent_teams.Coordination.Service.Again.{with_graph, service_replace_pending-again}
use threadmill_agent_teams.Coordination.Service.Permission.{Authorized}
use threadmill_agent_teams.Coordination.Service.Authority.{service_transition-Decided}
use threadmill_agent_teams.Coordination.Tests.Code.{all_code}
use threadmill_agent_teams.Coordination.Tests.ServiceCode.{service_code}
use threadmill_agent_teams.Coordination.Tests.Data.{new_graph, hold_plan, store_of, pending_at_2}

abbrev read_revision : List ℕ → Option Revision
read_revision [] = none
read_revision (n ∷ ns) = some n

abbrev coding : Coding
coding = record {
  marshal_pending = λ next. some (1 ∷ []);
  marshal_transition = λ expected ref t. some (2 ∷ expected ∷ []);
  marshal_revision = λ r. ok (r ∷ []);
  unmarshal_revision = read_revision;
  hash = λ payload. "hash";
}

abbrev manager : Principal
manager = record {
  kind = PrincipalKind.agent;
  project_id = "p";
  role = Role.task_manager;
  operation = "";
  task_id = "";
  invocation_id = "i";
  tools = tool_coordination_replace_pending ∷ tool_coordination_transition ∷ [];
}

abbrev desk : ServiceState
desk = record {
  store = store_of new_graph;
  decisions =
      (key_of "p" "request", Decision.replace_pending)
      ∷ (key_of "p" "hold", Decision.transition hold_plan)
      ∷ [];
  idempotency = new_memory_idempotency_store;
}

service_replace_pending-again_example :
    service_replace_pending coding
      (with_graph (store_of new_graph) (service_replace_pending coding desk manager pending_at_2).0)
      manager
      pending_at_2
    ≡ (
      with_graph (store_of new_graph) (service_replace_pending coding desk manager pending_at_2).0,
      some (ok 3),
    )
unfolding all_code service_code
service_replace_pending-again_example =
    service_replace_pending-again coding desk
      (service_replace_pending coding desk manager pending_at_2).0 manager pending_at_2 3
      (store_of new_graph) refl

service_transition-Decided_example :
    ((service_transition coding desk manager 2 "hold").0.store ≡ desk.store)
    ⊎ (Authorized manager tool_coordination_transition
        × (t : GraphTransition) × (lookup (key_of "p" "hold") desk.decisions
            ≡ some (Decision.transition t))
        × ((service_transition coding desk manager 2 "hold").0.store
            ≡ (transition_with_decision_ref desk.store "p" 2 "hold" t).0))
service_transition-Decided_example = service_transition-Decided coding desk manager 2 "hold"
