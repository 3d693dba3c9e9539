-- ===== src/Scheduler/Tests/Code.antt =====
-- Every function of the scheduler, to compute with.
use threadmill_agent_teams.Base.{
  String-discrete, Bool-discrete, Number-discrete, lookup, insert, delete, mem, any, select,
  is_space, is_blank, decimal, Integer-discrete, ◌+ℤ◌, ◌-ℤ◌, ◌*ℤ◌, int64, sort_insert, sort,
  trim_space, has_prefix, has_suffix, contains, any_char, contains_any, characters,
}
use threadmill_agent_teams.Kernel.Errors.{
  ErrorCode-discrete, code_text, each, forbidden_error, invalid_argument,
  idempotency_conflict_error, stale_binding_error, lease_conflict_error, scope_not_pending_error,
  endpoint_in_flight_error, invalid_graph_error, incomplete_stop_evidence_error,
  transition_rejected_error, command_error, is_code, is_zero_id, require_id,
}
use threadmill_agent_teams.Kernel.Revision.{
  is_latest_read, next, revision_conflict_error, check_expected_revision,
}
use threadmill_agent_teams.Coordination.Types.{
  EndpointId-discrete, TaskOutcome-discrete, EndpointState-discrete, RunPolicy-discrete,
  EdgeSignal-discrete, RequiredBy-discrete, OnFalse-discrete, BlockerState-discrete,
  Verdict-discrete, CommandAction-discrete, TransitionTarget-discrete, Action-discrete,
  LeaseState-discrete, ObservationKind-discrete, PhaseEndpointRef-discrete, Task-discrete,
  PhaseResult-discrete, PhaseCommand-discrete,
}
use threadmill_agent_teams.Coordination.Runtime.Port.{available}
use threadmill_agent_teams.Scheduler.Select.{
  phase_rank, endpoint_less, phase_value, with_cost, take_fitting, budget_constrained,
  within_budget, score, filtered, candidate_less, chosen, select_endpoints,
}
use threadmill_agent_teams.Scheduler.Ledgers.{
  new_capacity_ledger, as_revision, set_desired, observe_capacity, observe_budget,
}

-- Unfolding this computes the code on concrete data.
unfoldable pub scheduler_code : Unit {0}
unfolding String-discrete Bool-discrete Number-discrete lookup insert delete mem any select is_space
    is_blank decimal Integer-discrete ◌+ℤ◌ ◌-ℤ◌ ◌*ℤ◌ int64 sort_insert sort trim_space has_prefix
    has_suffix contains any_char contains_any characters ErrorCode-discrete code_text each
    forbidden_error invalid_argument idempotency_conflict_error stale_binding_error
    lease_conflict_error scope_not_pending_error endpoint_in_flight_error invalid_graph_error
    incomplete_stop_evidence_error transition_rejected_error command_error is_code is_zero_id
    require_id is_latest_read next revision_conflict_error check_expected_revision
    EndpointId-discrete TaskOutcome-discrete EndpointState-discrete RunPolicy-discrete
    EdgeSignal-discrete RequiredBy-discrete OnFalse-discrete BlockerState-discrete Verdict-discrete
    CommandAction-discrete TransitionTarget-discrete Action-discrete LeaseState-discrete
    ObservationKind-discrete PhaseEndpointRef-discrete Task-discrete PhaseResult-discrete
    PhaseCommand-discrete available phase_rank endpoint_less phase_value with_cost take_fitting
    budget_constrained within_budget score filtered candidate_less chosen select_endpoints
    new_capacity_ledger as_revision set_desired observe_capacity observe_budget
scheduler_code = tt
