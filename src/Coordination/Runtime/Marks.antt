-- ===== src/Coordination/Runtime/Marks.antt =====
-- What internal/coordination/command_store.go records of a dispatch: that it was accepted, is to be
-- retried, is in quarantine, or was rejected. A method whose command does not exist does nothing.
use threadmill_agent_teams.Base.{
  ℕ, true, false, ◌&&◌, Option, none, some, List, [], ◌∷◌, ◌++◌, String, ◌==◌, ◌!=◌, if◌then◌else◌,
  lookup, insert, string_eq, nat_eq, ◌^^◌, decimal,
}
use threadmill_agent_teams.Kernel.Errors.{ErrorCode, code_text}
use threadmill_agent_teams.Coordination.Types.{
  LeaseState, ObservationKind, PhaseEndpointRef, PhaseCommand, CommandRecord, PhaseLease,
  PhaseObservation, RuntimeState, phase_endpoint_ref_eq, phase_command_eq, lease_state_eq,
}
use threadmill_agent_teams.Coordination.Graph.Validation.{endpoint_text}
use threadmill_agent_teams.Coordination.Transition.Observed.{is_run_command}
use threadmill_agent_teams.Coordination.Runtime.View.{is_active}
use threadmill_agent_teams.Coordination.Runtime.Observations.{has_observation}
use threadmill_agent_teams.Coordination.Runtime.Commands.{put_command}

-- The record of a command rewritten, if there is one.
unfoldable pub update_command :
    (CommandRecord → CommandRecord) → String → Option CommandRecord → RuntimeState → RuntimeState
update_command f id none runtime = runtime
update_command f id (some r) runtime = put_command id (f r) runtime

unfoldable pub mark_command_accepted : RuntimeState → String → RuntimeState
unfolding update_command
mark_command_accepted runtime id =
    update_command (λ r. record r { accepted = true; retry_scheduled = false }) id
      (lookup id runtime.commands) runtime

unfoldable pub schedule_retry : RuntimeState → String → RuntimeState
unfolding update_command
schedule_retry runtime id =
    update_command (λ r. record r { retry_scheduled = true }) id (lookup id runtime.commands)
      runtime

unfoldable pub quarantine_command : RuntimeState → String → RuntimeState
unfolding update_command
quarantine_command runtime id =
    update_command (λ r. record r { quarantined = true }) id (lookup id runtime.commands) runtime

unfoldable pub rejection_id : PhaseCommand → ErrorCode → String
unfolding code_text
rejection_id command code = "dispatch-rejection:" ^^ command.id ^^ ":" ^^ code_text code

unfoldable pub rejection :
    String → String → PhaseEndpointRef → ℕ → String → String → ErrorCode → PhaseObservation
unfolding code_text
rejection id command_id endpoint generation binding_ref lease_ref code = record {
  id = id;
  kind = ObservationKind.dispatch_rejected;
  command_id = command_id;
  endpoint = endpoint;
  generation = generation;
  binding_ref = binding_ref;
  lease_ref = lease_ref;
  checkpoint_ref = "";
  non_resumable = false;
  dispatch_error = code_text code;
  dispatch_target = endpoint;
  folded = true;
}

-- The lease of a rejected command that never started is released, if it is the command's.
unfoldable pub release_rejected :
    PhaseCommand → Option PhaseLease → List (String × PhaseLease) → List (String × PhaseLease)
release_rejected command none leases = leases
release_rejected command (some lease) leases =
    if is_active lease
      && lease.endpoint == command.endpoint
      && lease.generation == command.generation
      && lease.binding_ref == command.binding_ref
    then insert command.lease_ref (record lease { state = LeaseState.released }) leases
    else leases

unfoldable pub reject_found :
    RuntimeState → PhaseCommand → ErrorCode → Option CommandRecord → RuntimeState
unfolding is_run_command rejection_id rejection release_rejected has_observation
reject_found runtime command code none = runtime
reject_found runtime command code (some r) =
    let event_id = rejection_id command code in
    if r.command != command
    then runtime
    else if has_observation event_id runtime.observations
    then runtime
    else record {
      commands =
          insert command.id
            (record r {
              not_executable = true;
              retry_scheduled = false;
              completed_event_ref = event_id;
            })
            runtime.commands;
      leases =
          if is_run_command command && r.observed_event_ref == ""
          then release_rejected command (lookup command.lease_ref runtime.leases) runtime.leases
          else runtime.leases;
      observations =
          runtime.observations
          ++ (rejection event_id command.id command.endpoint command.generation command.binding_ref
                command.lease_ref code
              ∷ []);
      bindings = runtime.bindings;
    }

unfoldable pub reject_command : RuntimeState → PhaseCommand → ErrorCode → RuntimeState
unfolding reject_found
reject_command runtime command code =
    reject_found runtime command code (lookup command.id runtime.commands)

unfoldable pub endpoint_rejection_id : PhaseEndpointRef → ℕ → ErrorCode → String
unfolding code_text endpoint_text
endpoint_rejection_id endpoint generation code =
    "dispatch-rejection:"
    ^^ endpoint.task_id
    ^^ ":"
    ^^ endpoint_text endpoint.endpoint_id
    ^^ ":"
    ^^ decimal generation
    ^^ ":"
    ^^ code_text code

unfoldable pub record_endpoint_dispatch_rejection :
    RuntimeState → PhaseEndpointRef → ℕ → String → ErrorCode → RuntimeState
unfolding endpoint_rejection_id rejection has_observation
record_endpoint_dispatch_rejection runtime endpoint generation binding_ref code =
    let event_id = endpoint_rejection_id endpoint generation code in
    if has_observation event_id runtime.observations then runtime else (record runtime {
      observations =
          runtime.observations
          ++ (rejection event_id "" endpoint generation binding_ref "" code ∷ []);
    })
