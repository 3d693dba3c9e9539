-- ===== src/Coordination/Tests/ServiceCode.antt =====
-- Every function of the coordination service, to compute with.
use threadmill_agent_teams.Kernel.Idempotency.{
  IdempotencyRecordKey-discrete, new_memory_idempotency_store, strings_blank, open_record,
  reserve_found, reserve, commit, release_failed, await, settle, check_call, execute,
}
use threadmill_agent_teams.Auth.Tools.{
  PrincipalKind-discrete, Role-discrete, role_allows_tool, operation_allows_tool,
}
use threadmill_agent_teams.Auth.Require.{has_tool, require_tool}
use threadmill_agent_teams.Coordination.Service.Decisions.{
  DecisionKey-discrete, same_decision, put, register_replace_pending, register_transition,
  authorize_replace_pending, resolve_transition,
}
use threadmill_agent_teams.Coordination.Service.Calls.{
  require, runs_executor, idempotent, replace_executor, transition_executor, prepare_replace,
  service_replace_pending, prepare_transition, service_transition, service_snapshot,
}

-- Unfolding this computes the code on concrete data.
unfoldable pub service_code : Unit {0}
unfolding IdempotencyRecordKey-discrete new_memory_idempotency_store strings_blank open_record
    reserve_found reserve commit release_failed await settle check_call execute
    PrincipalKind-discrete Role-discrete role_allows_tool operation_allows_tool has_tool
    require_tool DecisionKey-discrete same_decision put register_replace_pending register_transition
    authorize_replace_pending resolve_transition require runs_executor idempotent replace_executor
    transition_executor prepare_replace service_replace_pending prepare_transition
    service_transition service_snapshot
service_code = tt
