-- ===== src/Coordination/Tests/Runtimes.antt =====
-- What the theorems on the runtime say of a concrete claim and its observations.
use threadmill_agent_teams.Base.{List, ◌≡◌, refl, true, false, [], ◌∷◌, string_eq, nat_eq, String}
use threadmill_agent_teams.Kernel.Errors.{ok}
use threadmill_agent_teams.Coordination.Types.{
  EndpointId, EndpointState, CommandAction, LeaseState, ObservationKind, PhaseEndpoint,
  PhaseCommand, CommandRecord, PhaseLease, PhaseObservation, RuntimeState, endpoint_id_eq,
  task_outcome_eq, endpoint_state_eq, run_policy_eq, edge_signal_eq, required_by_eq, on_false_eq,
  blocker_state_eq, verdict_eq, command_action_eq, transition_target_eq, action_eq, lease_state_eq,
  observation_kind_eq, phase_endpoint_ref_eq, task_eq, phase_result_eq, phase_command_eq,
}
use threadmill_agent_teams.Coordination.Runtime.View.{new_runtime_view}
use threadmill_agent_teams.Coordination.Runtime.Commands.{
  with_runtime, no_command, claim_lease_and_append_command,
}
use threadmill_agent_teams.Coordination.Runtime.Claims.{Claimed, claim-Claimed}
use threadmill_agent_teams.Coordination.Runtime.Ready.{Ready, is_runnable-Ready}
use threadmill_agent_teams.Coordination.Runtime.Folding.{Completed, complete-Completed}
use threadmill_agent_teams.Coordination.Runtime.Commands.{
  fresh, run_command, run_lease, run_id_of, lease_ref_of,
}
use threadmill_agent_teams.Coordination.Store.Project.{new_memory_store, ensure_project}
use threadmill_agent_teams.Coordination.Store.Invariant.{Write, replaces, run}
use threadmill_agent_teams.Coordination.Store.Keyed.{Keyed, run-Keyed, run_claim-once}
use threadmill_agent_teams.Coordination.Tests.Code.{all_code}
use threadmill_agent_teams.Coordination.Tests.RuntimeCode.{runtime_code}
use threadmill_agent_teams.Coordination.Tests.Data.{
  pending, endpoint, joined, no_runtime, project_of,
}

abbrev execute : PhaseEndpoint
execute = endpoint EndpointId.execute EndpointState.pending

abbrev started : PhaseCommand
started = record {
  id = "cmd:run:t:execute:1";
  endpoint = execute.ref;
  generation = 1;
  binding_ref = "binding";
  lease_ref = "lease:t:execute:1";
  action = CommandAction.start;
  cause_ref = "cause";
}

abbrev lease_of : LeaseState → PhaseLease
lease_of state = record {
  lease_ref = "lease:t:execute:1";
  endpoint = execute.ref;
  generation = 1;
  binding_ref = "binding";
  state = state;
  expires_at = 3600000000005;
  expired = false;
}

abbrev record_of : String → CommandRecord
record_of event = record {
  command = started;
  accepted = false;
  observed_event_ref = "";
  completed_event_ref = event;
  retry_scheduled = false;
  quarantined = false;
  not_executable = false;
}

abbrev claimed : RuntimeState
claimed = record no_runtime {
  commands = ("cmd:run:t:execute:1", record_of "") ∷ [];
  leases = ("lease:t:execute:1", lease_of LeaseState.active) ∷ [];
}

abbrev output : PhaseObservation
output = record {
  id = "o";
  kind = ObservationKind.output;
  command_id = "cmd:run:t:execute:1";
  endpoint = execute.ref;
  generation = 1;
  binding_ref = "binding";
  lease_ref = "lease:t:execute:1";
  checkpoint_ref = "";
  non_resumable = false;
  dispatch_error = "";
  dispatch_target = execute.ref;
  folded = false;
}

abbrev observed : RuntimeState
observed = record claimed { observations = output ∷ [] }

abbrev completed : RuntimeState
completed = record {
  commands = ("cmd:run:t:execute:1", record_of "o") ∷ [];
  leases = ("lease:t:execute:1", lease_of LeaseState.released) ∷ [];
  observations = record output { folded = true } ∷ [];
  bindings = [];
}

claim-Claimed_example :
    Claimed (project_of joined) 5 2 execute CommandAction.start "cause" claimed started
unfolding all_code runtime_code
claim-Claimed_example =
    claim-Claimed (project_of joined) 5 2 execute CommandAction.start "cause" claimed started refl

abbrev setup : List Write
setup = replaces "p" pending ∷ []

abbrev plan : PhaseEndpoint
plan = endpoint EndpointId.plan EndpointState.pending

abbrev plan_claimed : RuntimeState
plan_claimed = record no_runtime {
  commands = (run_id_of plan, fresh (run_command plan CommandAction.start "cause")) ∷ [];
  leases = (lease_ref_of plan, run_lease plan 5) ∷ [];
}

run_claim-once_example :
    claim_lease_and_append_command
      (with_runtime (ensure_project (run new_memory_store setup) "p") plan_claimed)
      9
      2
      plan
      CommandAction.resume
      "again"
    ≡ ok (plan_claimed, no_command, false)
unfolding all_code runtime_code
run_claim-once_example =
    run_claim-once setup "p" 5 9 2 2 plan CommandAction.start CommandAction.resume "cause" "again"
      plan_claimed (run_command plan CommandAction.start "cause") refl

run-Keyed_example : Keyed (ensure_project (run new_memory_store setup) "p").current.endpoints
run-Keyed_example = run-Keyed setup "p"

is_runnable-Ready_example : Ready (new_runtime_view (project_of joined)) execute
unfolding all_code runtime_code
is_runnable-Ready_example = is_runnable-Ready (new_runtime_view (project_of joined)) execute refl

complete-Completed_example : Completed observed completed output
unfolding all_code runtime_code
complete-Completed_example = complete-Completed observed completed output refl
