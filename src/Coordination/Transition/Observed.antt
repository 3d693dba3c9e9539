-- ===== src/Coordination/Transition/Observed.antt =====
-- validateRuntimeBackedTransition of internal/coordination/transition.go: the transitions that an
-- exact observation of the runtime must back.
use threadmill_agent_teams.Base.{
  Bool, false, ◌&&◌, ◌||◌, not, Option, none, some, ◌==◌, ◌!=◌, if◌then◌else◌, lookup, any,
  string_eq, nat_eq,
}
use threadmill_agent_teams.Kernel.Errors.{Result, ok, ◌>>◌, reject_if, transition_rejected_error}
use threadmill_agent_teams.Coordination.Types.{
  EndpointState, RunPolicy, CommandAction, TransitionTarget, Action, ObservationKind, PhaseEndpoint,
  PhaseCommand, GraphState, GraphTransition, CommandRecord, PhaseLease, PhaseObservation,
  RuntimeState, phase_endpoint_ref_eq, endpoint_state_eq, run_policy_eq, command_action_eq,
  observation_kind_eq, action_eq, transition_target_eq,
}
use threadmill_agent_teams.Coordination.Transition.Endpoint.{no_evidence}

-- isRunCommand of internal/coordination/recovery.go
unfoldable pub is_run_command : PhaseCommand → Bool
is_run_command command =
    command.action == CommandAction.start || command.action == CommandAction.resume

-- The observation names the endpoint, at its generation and binding.
unfoldable pub observes : PhaseEndpoint → ObservationKind → PhaseObservation → Bool
observes endpoint kind o =
    o.kind == kind
    && o.endpoint == endpoint.ref
    && o.generation == endpoint.generation
    && o.binding_ref == endpoint.binding_ref
    && o.command_id != ""
    && o.lease_ref != ""

-- The command and the lease have the observation's identity.
unfoldable pub same_identity : PhaseObservation → PhaseCommand → PhaseLease → Bool
same_identity o command lease =
    command.endpoint == o.endpoint
    && command.generation == o.generation
    && command.binding_ref == o.binding_ref
    && command.lease_ref == o.lease_ref
    && lease.endpoint == o.endpoint
    && lease.generation == o.generation
    && lease.binding_ref == o.binding_ref

-- A test of a command and a lease, which fails where one of them is not found.
abbrev pub both :
    Option CommandRecord → Option PhaseLease → (CommandRecord → PhaseLease → Bool) → Bool
both none l p = false
both (some c) none p = false
both (some c) (some l) p = p c l

unfoldable pub exact_terminal :
    RuntimeState → PhaseEndpoint → ObservationKind → PhaseObservation → Bool
unfolding is_run_command observes same_identity
exact_terminal runtime endpoint kind o =
    observes endpoint kind o
    && both (lookup o.command_id runtime.commands) (lookup o.lease_ref runtime.leases)
        (λ r lease. is_run_command r.command && same_identity o r.command lease)

unfoldable pub has_exact_terminal_observation :
    RuntimeState → PhaseEndpoint → ObservationKind → Bool
has_exact_terminal_observation runtime endpoint kind =
    any (exact_terminal runtime endpoint kind) runtime.observations

unfoldable pub exact_failure : RuntimeState → PhaseEndpoint → PhaseObservation → Bool
unfolding is_run_command observes same_identity
exact_failure runtime endpoint o =
    observes endpoint ObservationKind.failed o
    && both (lookup o.command_id runtime.commands) (lookup o.lease_ref runtime.leases)
        (λ r lease. r.accepted && is_run_command r.command && same_identity o r.command lease)

unfoldable pub backed_endpoint : RuntimeState → PhaseEndpoint → GraphTransition → Result (Unit {0})
backed_endpoint runtime endpoint t =
    if t.action == Action.submitted && endpoint.run_policy == RunPolicy.held
    then reject_if (not (has_exact_terminal_observation runtime endpoint ObservationKind.output)) (
        transition_rejected_error
          "held endpoint submission requires an exact PhaseOutputSubmitted observation")
    else if t.action != Action.reopened
        || endpoint.state != EndpointState.pending
        || endpoint.run_policy == RunPolicy.held
    then ok tt
    else (do
      reject_if (no_evidence t.evidence_refs)
          (transition_rejected_error "failed invocation reopen requires evidence_refs")
      reject_if (not (any (exact_failure runtime endpoint) runtime.observations)) (
          transition_rejected_error
            "enabled pending reopen requires an exact PhaseInvocationFailed observation"))

backed_found : RuntimeState → GraphTransition → Option PhaseEndpoint → Result (Unit {0})
unfolding backed_endpoint
backed_found runtime t none = ok tt
backed_found runtime t (some endpoint) = backed_endpoint runtime endpoint t

unfoldable pub validate_runtime_backed_transition :
    GraphState → RuntimeState → GraphTransition → Result (Unit {0})
unfolding backed_found
validate_runtime_backed_transition state runtime t =
    if t.target_kind != TransitionTarget.phase_endpoint
    then ok tt
    else backed_found runtime t (lookup t.endpoint state.endpoints)
