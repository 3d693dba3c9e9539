-- ===== src/Coordination/Tests/Code.antt =====
-- Every function on a graph and its store, to compute with.
use threadmill_agent_teams.Base.{
  String-discrete, Bool-discrete, Number-discrete, lookup, insert, delete, mem, any, select,
  is_space, is_blank, decimal, Integer-discrete, ◌+ℤ◌, ◌-ℤ◌, ◌*ℤ◌, int64, sort_insert, sort,
  trim_space, has_prefix, has_suffix, contains, any_char, contains_any, characters,
}
use threadmill_agent_teams.Kernel.Errors.{
  ErrorCode-discrete, code_text, each, forbidden_error, invalid_argument,
  idempotency_conflict_error, stale_binding_error, lease_conflict_error, scope_not_pending_error,
  endpoint_in_flight_error, invalid_graph_error, incomplete_stop_evidence_error,
  transition_rejected_error, command_error, is_code, is_zero_id, require_id,
}
use threadmill_agent_teams.Kernel.Revision.{
  is_latest_read, next, revision_conflict_error, check_expected_revision,
}
use threadmill_agent_teams.Coordination.Types.{
  EndpointId-discrete, TaskOutcome-discrete, EndpointState-discrete, RunPolicy-discrete,
  EdgeSignal-discrete, RequiredBy-discrete, OnFalse-discrete, BlockerState-discrete,
  Verdict-discrete, CommandAction-discrete, TransitionTarget-discrete, Action-discrete,
  LeaseState-discrete, ObservationKind-discrete, PhaseEndpointRef-discrete, Task-discrete,
  PhaseResult-discrete, PhaseCommand-discrete,
}
use threadmill_agent_teams.Coordination.Graph.Validation.{
  positive, is_fixed_endpoint, outcome_allowed, state_allowed, run_policy_allowed, signal_allowed,
  required_by_allowed, on_false_allowed, blocker_state_allowed, verdict_allowed, validate_task,
  validate_endpoint_ref, validate_endpoint, validate_edge, validate_blocker, validate_result,
  endpoint_text, signal_text, required_by_text, edge_key,
}
use threadmill_agent_teams.Coordination.Graph.Check.{
  seen_ids, require_seen, has_foreign, task_has_fixed_endpoint_set, check_task, check_endpoint,
  check_edges, check_blocker, check_result, validate_graph,
}
use threadmill_agent_teams.Coordination.Graph.Acyclic.{
  edge_arrows, task_arrows, arrows, adjacent, remove, visit_all, visit, keys, depth_bound,
  validate_acyclic,
}
use threadmill_agent_teams.Coordination.Transition.Shape.{validate_transition_shape}
use threadmill_agent_teams.Coordination.Transition.Endpoint.{
  verdict_text, edge_satisfied, completion_edge, blocker_waits, completion_blocker,
  require_completion_inputs, result_id, require_result_for_transition, require_stop_evidence, roll,
  endpoint_action, apply_endpoint_transition,
}
use threadmill_agent_teams.Coordination.Transition.Others.{
  blocker_action, apply_blocker_transition, require_verify_satisfied,
  require_reopenable_round_endpoint, reopen, reopen_execution_round, task_action,
  apply_task_transition,
}
use threadmill_agent_teams.Coordination.Transition.Apply.{apply_target, apply_transition}
use threadmill_agent_teams.Coordination.Transition.Observed.{
  is_run_command, observes, same_identity, exact_terminal, has_exact_terminal_observation,
  exact_failure, backed_endpoint, validate_runtime_backed_transition,
}
use threadmill_agent_teams.Coordination.Pending.Validate.{
  is_rejection, released_for, rejected_before_start, has_definitive_dispatch_rejection, replaces,
  replaces_found, check_scope, refs, require_fixed_endpoint_set, known_task, check_new_task,
  check_new_edges, check_new_blockers, validate_pending_subgraph, active_in,
  validate_pending_subgraph_runtime, active_of_task, validate_reopen_round_runtime,
}
use threadmill_agent_teams.Coordination.Pending.Apply.{
  put_tasks, put_endpoints, put_blockers, keeps_edge, keeps_blocker, apply_pending_subgraph,
}
use threadmill_agent_teams.Coordination.Store.Snapshot.{phase_order, ref_less, edge_less, snapshot}
use threadmill_agent_teams.Coordination.Store.Project.{
  new_graph_state, new_memory_runtime_state, new_memory_store, new_project, ensure_project,
  put_project, commit, binding_info, record_binding, record_runtime_binding,
}
use threadmill_agent_teams.Coordination.Store.Memory.{
  active_at, transition_graph, pending_graph, transition_commit, transition_checked, transition,
  transition_with_decision_ref, pending_commit, pending_checked, replace_pending, latest_snapshot,
  read_history, revision_snapshot,
}
use threadmill_agent_teams.Coordination.Store.Invariant.{write, run}

-- Unfolding this computes the code on concrete data.
unfoldable pub all_code : Unit {0}
unfolding String-discrete Bool-discrete Number-discrete lookup insert delete mem any select is_space
    is_blank decimal Integer-discrete ◌+ℤ◌ ◌-ℤ◌ ◌*ℤ◌ int64 sort_insert sort trim_space has_prefix
    has_suffix contains any_char contains_any characters ErrorCode-discrete code_text each
    forbidden_error invalid_argument idempotency_conflict_error stale_binding_error
    lease_conflict_error scope_not_pending_error endpoint_in_flight_error invalid_graph_error
    incomplete_stop_evidence_error transition_rejected_error command_error is_code is_zero_id
    require_id is_latest_read next revision_conflict_error check_expected_revision
    EndpointId-discrete TaskOutcome-discrete EndpointState-discrete RunPolicy-discrete
    EdgeSignal-discrete RequiredBy-discrete OnFalse-discrete BlockerState-discrete Verdict-discrete
    CommandAction-discrete TransitionTarget-discrete Action-discrete LeaseState-discrete
    ObservationKind-discrete PhaseEndpointRef-discrete Task-discrete PhaseResult-discrete
    PhaseCommand-discrete positive is_fixed_endpoint outcome_allowed state_allowed
    run_policy_allowed signal_allowed required_by_allowed on_false_allowed blocker_state_allowed
    verdict_allowed validate_task validate_endpoint_ref validate_endpoint validate_edge
    validate_blocker validate_result endpoint_text signal_text required_by_text edge_key seen_ids
    require_seen has_foreign task_has_fixed_endpoint_set check_task check_endpoint check_edges
    check_blocker check_result validate_graph edge_arrows task_arrows arrows adjacent remove
    visit_all visit keys depth_bound validate_acyclic validate_transition_shape verdict_text
    edge_satisfied completion_edge blocker_waits completion_blocker require_completion_inputs
    result_id require_result_for_transition require_stop_evidence roll endpoint_action
    apply_endpoint_transition blocker_action apply_blocker_transition require_verify_satisfied
    require_reopenable_round_endpoint reopen reopen_execution_round task_action
    apply_task_transition apply_target apply_transition is_run_command observes same_identity
    exact_terminal has_exact_terminal_observation exact_failure backed_endpoint
    validate_runtime_backed_transition is_rejection released_for rejected_before_start
    has_definitive_dispatch_rejection replaces replaces_found check_scope refs
    require_fixed_endpoint_set known_task check_new_task check_new_edges check_new_blockers
    validate_pending_subgraph active_in validate_pending_subgraph_runtime active_of_task
    validate_reopen_round_runtime put_tasks put_endpoints put_blockers keeps_edge keeps_blocker
    apply_pending_subgraph phase_order ref_less edge_less snapshot new_graph_state
    new_memory_runtime_state new_memory_store new_project ensure_project put_project commit
    binding_info record_binding record_runtime_binding active_at transition_graph pending_graph
    transition_commit transition_checked transition transition_with_decision_ref pending_commit
    pending_checked replace_pending latest_snapshot read_history revision_snapshot write run
all_code = tt
