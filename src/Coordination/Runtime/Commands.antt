-- ===== src/Coordination/Runtime/Commands.antt =====
-- The commands and leases of internal/coordination/command_store.go. Each method is a function on
-- the project's state, which `on_project` runs on the store. An observation or a command that an
-- error refuses leaves the state as it was.
use threadmill_agent_teams.Base.{
  ℕ, ◌+◌, Bool, true, false, ◌&&◌, not, Option, none, some, List, [], ◌∷◌, String, ◌==◌, ◌!=◌,
  if◌then◌else◌, lookup, insert, string_eq, nat_eq, ◌^^◌, decimal,
}
use threadmill_agent_teams.Kernel.Errors.{
  Error, not_found, stale_command, command_conflict, Result, ok, err, ◌>>=◌, ◌>>◌, reject_if,
  or_fail, command_error, lease_conflict_error,
}
use threadmill_agent_teams.Kernel.Revision.{Revision, check_expected_revision}
use threadmill_agent_teams.Coordination.Types.{
  CommandAction, LeaseState, ObservationKind, PhaseEndpointRef, PhaseEndpoint, PhaseCommand,
  CommandRecord, PhaseLease, PhaseObservation, RuntimeState, phase_endpoint_ref_eq,
  phase_command_eq, observation_kind_eq, command_action_eq, lease_state_eq,
}
use threadmill_agent_teams.Coordination.Graph.Validation.{endpoint_text}
use threadmill_agent_teams.Coordination.Transition.Shape.{zero_ref}
use threadmill_agent_teams.Coordination.Transition.Observed.{is_run_command}
use threadmill_agent_teams.Coordination.Runtime.View.{is_active, revision_ref}
use threadmill_agent_teams.Coordination.Runtime.Runnable.{endpoint_runnable}
use threadmill_agent_teams.Coordination.Runtime.Observations.{
  matching_observation_lease, mark_folded,
}
use threadmill_agent_teams.Coordination.Store.Project.{
  ProjectState, MemoryStore, ensure_project, put_project,
}

unfoldable pub on_project :
    {A : Type 0} → MemoryStore → String → (ProjectState → ProjectState × A) → MemoryStore × A
unfolding ensure_project put_project
on_project s project_id f =
    let r = f (ensure_project s project_id) in (put_project s project_id r.0, r.1)

abbrev pub with_runtime : ProjectState → RuntimeState → ProjectState
with_runtime p runtime = record p { runtime = runtime }

abbrev pub put_command : String → CommandRecord → RuntimeState → RuntimeState
put_command id r runtime = record runtime { commands = insert id r runtime.commands }

abbrev pub put_lease : String → PhaseLease → RuntimeState → RuntimeState
put_lease id lease runtime = record runtime { leases = insert id lease runtime.leases }

unfoldable pub mark_command_observed : RuntimeState → PhaseObservation → Result RuntimeState
unfolding is_run_command mark_folded
mark_command_observed runtime o = do
  found ←
      or_fail (lookup o.command_id runtime.commands)
        (command_error stale_command "observation command does not exist")
  lease ← matching_observation_lease runtime found.command o
  reject_if (not (is_run_command found.command))
      (command_error stale_command "started observation must match a start or resume command")
  reject_if (not (is_active lease)) (lease_conflict_error "started observation lease is not active")
  let observed = put_command o.command_id (record found { observed_event_ref = o.id }) runtime
  ok (record observed { observations = mark_folded o.id observed.observations })

-- Whether a command may be completed by an observation of the kind.
unfoldable pub check_terminal : ObservationKind → PhaseCommand → Result (Unit {0})
unfolding is_run_command
check_terminal kind command =
    if kind == ObservationKind.stopped
    then (reject_if (command.action != CommandAction.stop)
        (command_error stale_command "stopped observation must match a stop command"))
    else (reject_if (not (is_run_command command)) (
        command_error stale_command
          "terminal execution observation must match a start or resume command"))

unfoldable pub complete_command_and_release_lease :
    RuntimeState → PhaseObservation → Result RuntimeState
unfolding check_terminal mark_folded
complete_command_and_release_lease runtime o = do
  found ←
      or_fail (lookup o.command_id runtime.commands)
        (command_error stale_command "terminal observation command does not exist")
  lease ← matching_observation_lease runtime found.command o
  check_terminal o.kind found.command
  let completed = put_command o.command_id (record found { completed_event_ref = o.id }) runtime
  let freed = put_lease o.lease_ref (record lease { state = LeaseState.released }) completed
  ok (record freed { observations = mark_folded o.id freed.observations })

lease_not_found : Error
lease_not_found = record {
  code = not_found;
  message = "lease not found";
  recoverable = true;
  details = [];
}

unfoldable pub release_orphan_lease : RuntimeState → String → Result RuntimeState
unfolding lease_not_found
release_orphan_lease runtime lease_ref = do
  lease ← or_fail (lookup lease_ref runtime.leases) lease_not_found
  ok (put_lease lease_ref (record lease { state = LeaseState.released }) runtime)

unfoldable pub expire_lease : RuntimeState → String → Result RuntimeState
unfolding lease_not_found
expire_lease runtime lease_ref = do
  lease ← or_fail (lookup lease_ref runtime.leases) lease_not_found
  ok (put_lease lease_ref (record lease { expired = true }) runtime)

-- A record of a command that nothing has been done with.
unfoldable pub fresh : PhaseCommand → CommandRecord
fresh command = record {
  command = command;
  accepted = false;
  observed_event_ref = "";
  completed_event_ref = "";
  retry_scheduled = false;
  quarantined = false;
  not_executable = false;
}

unfoldable pub stop_command : Revision → PhaseLease → PhaseCommand
unfolding revision_ref
stop_command revision lease = record {
  id = "cmd:stop:" ^^ lease.lease_ref;
  endpoint = lease.endpoint;
  generation = lease.generation;
  binding_ref = lease.binding_ref;
  lease_ref = lease.lease_ref;
  action = CommandAction.stop;
  cause_ref = revision_ref revision;
}

unfoldable pub stop_found :
    RuntimeState → PhaseCommand → Option CommandRecord → RuntimeState × PhaseCommand × Bool
unfolding fresh
stop_found runtime command none = (put_command command.id (fresh command) runtime, command, true)
stop_found runtime command (some r) =
    (runtime, r.command, r.completed_event_ref == "" && not r.quarantined && not r.not_executable)

unfoldable pub get_or_create_stop_command :
    RuntimeState → Revision → PhaseLease → RuntimeState × PhaseCommand × Bool
unfolding stop_found stop_command
get_or_create_stop_command runtime revision lease =
    let command = stop_command revision lease in
    stop_found runtime command (lookup command.id runtime.commands)

abbrev pub no_command : PhaseCommand
no_command = record {
  id = "";
  endpoint = zero_ref;
  generation = 0;
  binding_ref = "";
  lease_ref = "";
  action = CommandAction.other "";
  cause_ref = "";
}

unfoldable pub existing_run_command :
    List (String × CommandRecord) → PhaseEndpointRef → ℕ → PhaseCommand
unfolding is_run_command
existing_run_command [] ref generation = no_command
existing_run_command ((id, r) ∷ rest) ref generation =
    if r.command.endpoint == ref && r.command.generation == generation && is_run_command r.command
    then r.command
    else existing_run_command rest ref generation

unfoldable pub lease_ref_of : PhaseEndpoint → String
unfolding endpoint_text
lease_ref_of e =
    "lease:"
    ^^ e.ref.task_id
    ^^ ":"
    ^^ endpoint_text e.ref.endpoint_id
    ^^ ":"
    ^^ decimal e.generation

unfoldable pub run_id_of : PhaseEndpoint → String
unfolding endpoint_text
run_id_of e =
    "cmd:run:"
    ^^ e.ref.task_id
    ^^ ":"
    ^^ endpoint_text e.ref.endpoint_id
    ^^ ":"
    ^^ decimal e.generation

-- One hour, in nanoseconds.
abbrev pub default_phase_lease_ttl : ℕ
default_phase_lease_ttl = 3600000000000

unfoldable pub run_command : PhaseEndpoint → CommandAction → String → PhaseCommand
run_command e action cause_ref = record {
  id = run_id_of e;
  endpoint = e.ref;
  generation = e.generation;
  binding_ref = e.binding_ref;
  lease_ref = lease_ref_of e;
  action = action;
  cause_ref = cause_ref;
}

unfoldable pub run_lease : PhaseEndpoint → ℕ → PhaseLease
run_lease e now = record {
  lease_ref = lease_ref_of e;
  endpoint = e.ref;
  generation = e.generation;
  binding_ref = e.binding_ref;
  state = LeaseState.active;
  expires_at = now + default_phase_lease_ttl;
  expired = false;
}

abbrev lease_taken : Option PhaseLease → Bool
lease_taken none = false
lease_taken (some lease) = is_active lease

-- The state after the claim, the command, and whether the claim created it.
abbrev pub Claim : Type 0
Claim = RuntimeState × PhaseCommand × Bool

unfoldable pub claim_found :
    RuntimeState → PhaseEndpoint → ℕ → PhaseCommand → Option CommandRecord → Result Claim
unfolding is_run_command fresh run_lease
claim_found runtime e now command none = ok (
  put_command command.id (fresh command) (put_lease (lease_ref_of e) (run_lease e now) runtime),
  command,
  true,
)
claim_found runtime e now command (some r) =
    if not (is_run_command r.command)
    then (err (record {
      code = command_conflict;
      message = "run command id already has different content";
      recoverable = false;
      details = [];
    }))
    else (ok (runtime, r.command, false))

abbrev passes : Result (Unit {0}) → Bool
passes (ok u) = true
passes (err e) = false

-- `now` is the clock's time, from which the lease's deadline is counted.
unfoldable pub claim_lease_and_append_command :
    ProjectState → ℕ → Revision → PhaseEndpoint → CommandAction → String → Result Claim
unfolding claim_found run_command existing_run_command endpoint_runnable
claim_lease_and_append_command p now revision e action cause_ref =
    let command = run_command e action cause_ref in
    if not (passes (check_expected_revision revision p.latest))
    then ok (p.runtime, no_command, false)
    else if not (endpoint_runnable p e.ref e.generation)
    then ok (p.runtime, no_command, false)
    else if lease_taken (lookup (lease_ref_of e) p.runtime.leases)
    then ok (p.runtime, existing_run_command p.runtime.commands e.ref e.generation, false)
    else claim_found p.runtime e now command (lookup (run_id_of e) p.runtime.commands)
