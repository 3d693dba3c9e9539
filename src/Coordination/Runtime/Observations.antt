-- ===== src/Coordination/Runtime/Observations.antt =====
-- internal/coordination/phase_observation.go and phase_observation_payload.go, and the observations
-- of command_store.go. The other string of a kind stands for a kind that the code does not name.
use threadmill_agent_teams.Base.{
  Bool, true, false, ◌&&◌, ◌||◌, not, List, [], ◌∷◌, String, ◌==◌, ◌!=◌, if◌then◌else◌, lookup,
  string_eq, nat_eq, bool_eq, ◌^^◌, any,
}
use threadmill_agent_teams.Kernel.Errors.{
  Result, ok, err, ◌>>=◌, ◌>>◌, reject_if, or_fail, invalid_argument, command_error,
  lease_conflict_error, idempotency_conflict_error, incomplete_stop_evidence_error, stale_command,
}
use threadmill_agent_teams.Coordination.Types.{
  EndpointId, CommandAction, ObservationKind, PhaseCommand, PhaseLease, PhaseObservation,
  RuntimeState, endpoint_id_eq, phase_endpoint_ref_eq, observation_kind_eq, command_action_eq,
}
use threadmill_agent_teams.Coordination.Graph.Validation.{positive}
use threadmill_agent_teams.Coordination.Transition.Shape.{zero_ref}
use threadmill_agent_teams.Coordination.Transition.Observed.{is_run_command}

unfoldable pub kind_text : ObservationKind → String
kind_text ObservationKind.started = "PhaseInvocationStarted"
kind_text ObservationKind.output = "PhaseOutputSubmitted"
kind_text ObservationKind.failed = "PhaseInvocationFailed"
kind_text ObservationKind.stopped = "PhaseInvocationStopped"
kind_text ObservationKind.dispatch_rejected = "DispatchRejected"
kind_text (ObservationKind.other s) = s

unfoldable pub deterministic_phase_observation_id : ObservationKind → String → String
unfolding kind_text
deterministic_phase_observation_id kind command_id =
    "phase-observation:" ^^ kind_text kind ^^ ":" ^^ command_id

-- The `switch` on the kind.
unfoldable pub validate_kind : ObservationKind → PhaseCommand → String → Bool → Result (Unit {0})
unfolding is_run_command
validate_kind ObservationKind.started command checkpoint_ref non_resumable = do
  reject_if (not (is_run_command command))
      (command_error stale_command "started observation requires start or resume command")
  reject_if (checkpoint_ref != "" || non_resumable)
      (invalid_argument "started observation cannot carry stop evidence")
validate_kind ObservationKind.output command checkpoint_ref non_resumable = do
  reject_if (not (is_run_command command)) (
      command_error stale_command "terminal execution observation requires start or resume command")
  reject_if (checkpoint_ref != "" || non_resumable)
      (invalid_argument "terminal execution observation cannot carry stop evidence")
validate_kind ObservationKind.failed command checkpoint_ref non_resumable = do
  reject_if (not (is_run_command command)) (
      command_error stale_command "terminal execution observation requires start or resume command")
  reject_if (checkpoint_ref != "" || non_resumable)
      (invalid_argument "terminal execution observation cannot carry stop evidence")
validate_kind ObservationKind.stopped command checkpoint_ref non_resumable = do
  reject_if (command.action != CommandAction.stop)
      (command_error stale_command "stopped observation requires stop command")
  reject_if (checkpoint_ref == "" && not non_resumable) (
      incomplete_stop_evidence_error "stopped observation requires checkpoint_ref or non_resumable")
validate_kind _ command checkpoint_ref non_resumable =
    err (invalid_argument "unsupported phase observation kind")

unfoldable pub validate_phase_observation_command :
    ObservationKind → PhaseCommand → String → Bool → Result (Unit {0})
unfolding positive
validate_phase_observation_command kind command checkpoint_ref non_resumable = do
  reject_if (command.id == "") (invalid_argument "phase observation command_id is required")
  reject_if
      (command.endpoint.task_id == ""
        || command.endpoint.endpoint_id == EndpointId.other ""
        || not (positive command.generation)
        || command.binding_ref == ""
        || command.lease_ref == "")
      (invalid_argument "phase observation command identity is incomplete")
  validate_kind kind command checkpoint_ref non_resumable

unfoldable pub new_phase_observation :
    ObservationKind → PhaseCommand → String → Bool → Result PhaseObservation
new_phase_observation kind command checkpoint_ref non_resumable = do
  validate_phase_observation_command kind command checkpoint_ref non_resumable
  ok (record {
    id = deterministic_phase_observation_id kind command.id;
    kind = kind;
    command_id = command.id;
    endpoint = command.endpoint;
    generation = command.generation;
    binding_ref = command.binding_ref;
    lease_ref = command.lease_ref;
    checkpoint_ref = checkpoint_ref;
    non_resumable = non_resumable;
    dispatch_error = "";
    dispatch_target = zero_ref;
    folded = false;
  })

unfoldable pub matching_observation_lease :
    RuntimeState → PhaseCommand → PhaseObservation → Result PhaseLease
unfolding positive
matching_observation_lease runtime command o = do
  reject_if
      (o.command_id == ""
        || o.lease_ref == ""
        || o.endpoint.task_id == ""
        || o.endpoint.endpoint_id == EndpointId.other ""
        || not (positive o.generation)
        || o.binding_ref == "")
      (invalid_argument
        "runtime observation requires command_id, lease_ref, endpoint, generation, and binding_ref")
  reject_if
      (command.endpoint != o.endpoint
        || command.generation != o.generation
        || command.binding_ref != o.binding_ref
        || command.lease_ref != o.lease_ref)
      (command_error stale_command "observation does not match command identity")
  lease ←
      or_fail (lookup o.lease_ref runtime.leases)
        (lease_conflict_error "observation lease does not exist")
  reject_if
      (lease.endpoint != o.endpoint
        || lease.generation != o.generation
        || lease.binding_ref != o.binding_ref)
      (lease_conflict_error "observation does not match lease identity")
  ok lease

unfoldable pub same_phase_observation_payload : PhaseObservation → PhaseObservation → Bool
same_phase_observation_payload left right =
    left.id == right.id
    && left.kind == right.kind
    && left.command_id == right.command_id
    && left.endpoint == right.endpoint
    && left.generation == right.generation
    && left.binding_ref == right.binding_ref
    && left.lease_ref == right.lease_ref
    && left.checkpoint_ref == right.checkpoint_ref
    && left.non_resumable == right.non_resumable
    && left.dispatch_error == right.dispatch_error
    && left.dispatch_target == right.dispatch_target

-- The observations with the new one, unless one of them has its id.
unfoldable pub append_new :
    List PhaseObservation → PhaseObservation → Result (List PhaseObservation)
unfolding same_phase_observation_payload
append_new [] o = ok (o ∷ [])
append_new (existing ∷ rest) o =
    let more = append_new rest o in
    if existing.id != o.id
    then more >>= (λ rest'. ok (existing ∷ rest'))
    else if same_phase_observation_payload existing o
    then ok (existing ∷ rest)
    else err idempotency_conflict_error

-- The command that the observation names, and its lease, agree with it.
unfoldable pub check_observed : RuntimeState → PhaseObservation → Result (Unit {0})
check_observed runtime o = do
  found ←
      or_fail (lookup o.command_id runtime.commands)
        (command_error stale_command "observation command does not exist")
  matching_observation_lease runtime found.command o >>= (λ lease. ok tt)

unfoldable pub append_observation : RuntimeState → PhaseObservation → Result RuntimeState
append_observation runtime o = do
  reject_if (o.id == "") (invalid_argument "observation.id is required")
  if o.kind != ObservationKind.dispatch_rejected then check_observed runtime o else ok tt
  observations ← append_new runtime.observations o
  ok (record runtime { observations = observations })

unfoldable pub append_phase_observation :
    RuntimeState → PhaseCommand → ObservationKind → String → Bool → Result RuntimeState
append_phase_observation runtime command kind checkpoint_ref non_resumable = do
  o ← new_phase_observation kind command checkpoint_ref non_resumable
  append_observation runtime o

unfoldable pub has_observation : String → List PhaseObservation → Bool
unfolding any
has_observation id os = any (λ (o : PhaseObservation). o.id == id) os

-- markObservationFoldedLocked: the first observation with the id.
unfoldable pub mark_folded : String → List PhaseObservation → List PhaseObservation
mark_folded id [] = []
mark_folded id (o ∷ os) =
    if o.id == id then record o { folded = true } ∷ os else o ∷ mark_folded id os
