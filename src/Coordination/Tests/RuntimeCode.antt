-- ===== src/Coordination/Tests/RuntimeCode.antt =====
-- Every function on a runtime, to compute with.
use threadmill_agent_teams.Coordination.Runtime.View.{
  new_runtime_view_from, new_runtime_view, expire_at, load_runtime_view, revision_ref, binding,
  checkpoint_compatible, active_leases, is_pending, pending_commands, unfolded_observations,
  suppression_key, suppress_run, run_suppressed, has_command_for_lease, has_matching_active_lease,
  has_remote_observation, runtime_commands, runtime_leases,
}
use threadmill_agent_teams.Coordination.Runtime.Runnable.{
  endpoint_satisfied, predecessor_of, builtin_predecessor_satisfied, signal_satisfied,
  edge_satisfied, start_edge_waits, start_blocker_waits, start_edges_and_blockers_satisfied,
  holds_endpoint, has_active_lease, pending_run, has_pending_run_command, is_terminal,
  terminal_observation, has_terminal_observation, is_runnable, endpoint_runnable,
}
use threadmill_agent_teams.Coordination.Runtime.Observations.{
  kind_text, deterministic_phase_observation_id, validate_kind, validate_phase_observation_command,
  new_phase_observation, matching_observation_lease, same_phase_observation_payload, append_new,
  check_observed, append_observation, append_phase_observation, has_observation, mark_folded,
}
use threadmill_agent_teams.Coordination.Runtime.Commands.{
  on_project, mark_command_observed, check_terminal, complete_command_and_release_lease,
  release_orphan_lease, expire_lease, fresh, stop_command, stop_found, get_or_create_stop_command,
  existing_run_command, lease_ref_of, run_id_of, run_command, run_lease, claim_found,
  claim_lease_and_append_command,
}
use threadmill_agent_teams.Coordination.Runtime.Marks.{
  update_command, mark_command_accepted, schedule_retry, quarantine_command, rejection_id,
  rejection, release_rejected, reject_found, reject_command, endpoint_rejection_id,
  record_endpoint_dispatch_rejection,
}
use threadmill_agent_teams.Coordination.Runtime.Writes.{written, runtime_write}

-- Unfolding this computes the code on concrete data.
unfoldable pub runtime_code : Unit {0}
unfolding new_runtime_view_from new_runtime_view expire_at load_runtime_view revision_ref binding
    checkpoint_compatible active_leases is_pending pending_commands unfolded_observations
    suppression_key suppress_run run_suppressed has_command_for_lease has_matching_active_lease
    has_remote_observation runtime_commands runtime_leases endpoint_satisfied predecessor_of
    builtin_predecessor_satisfied signal_satisfied edge_satisfied start_edge_waits
    start_blocker_waits start_edges_and_blockers_satisfied holds_endpoint has_active_lease
    pending_run has_pending_run_command is_terminal terminal_observation has_terminal_observation
    is_runnable endpoint_runnable kind_text deterministic_phase_observation_id validate_kind
    validate_phase_observation_command new_phase_observation matching_observation_lease
    same_phase_observation_payload append_new check_observed append_observation
    append_phase_observation has_observation mark_folded on_project mark_command_observed
    check_terminal complete_command_and_release_lease release_orphan_lease expire_lease fresh
    stop_command stop_found get_or_create_stop_command existing_run_command lease_ref_of run_id_of
    run_command run_lease claim_found claim_lease_and_append_command update_command
    mark_command_accepted schedule_retry quarantine_command rejection_id rejection release_rejected
    reject_found reject_command endpoint_rejection_id record_endpoint_dispatch_rejection written
    runtime_write
runtime_code = tt
