-- ===== src/Coordination/Runtime/Runnable.antt =====
-- `isRunnable` of internal/coordination/recovery.go and the tests that it makes.
use threadmill_agent_teams.Base.{
  ℕ, Bool, true, false, ◌&&◌, ◌||◌, not, Option, none, some, String, ◌==◌, ◌!=◌, if◌then◌else◌,
  lookup, any, string_eq, nat_eq,
}
use threadmill_agent_teams.Coordination.Types.{
  EndpointId, TaskOutcome, EndpointState, RunPolicy, EdgeSignal, RequiredBy, LeaseState,
  ObservationKind, PhaseEndpointRef, Task, PhaseEndpoint, Edge, Blocker, CommandRecord, PhaseLease,
  PhaseObservation, phase_endpoint_ref_eq, lease_state_eq, required_by_eq, task_outcome_eq,
  endpoint_state_eq, run_policy_eq,
}
use threadmill_agent_teams.Coordination.Graph.Acyclic.{at}
use threadmill_agent_teams.Coordination.Transition.Endpoint.{
  source_satisfied, source_done, blocker_waits,
}
use threadmill_agent_teams.Coordination.Transition.Observed.{is_run_command, same_identity, both}
use threadmill_agent_teams.Coordination.Runtime.View.{RuntimeView, new_runtime_view}
use threadmill_agent_teams.Coordination.Store.Project.{ProjectState}

unfoldable pub endpoint_satisfied : RuntimeView → PhaseEndpointRef → Bool
endpoint_satisfied v ref = source_satisfied (lookup ref v.endpoint_by_ref)

unfoldable pub predecessor_of : EndpointId → String → RuntimeView → Bool
unfolding endpoint_satisfied
predecessor_of EndpointId.plan task v = true
predecessor_of EndpointId.execute task v = endpoint_satisfied v (at task EndpointId.plan)
predecessor_of EndpointId.verify task v = endpoint_satisfied v (at task EndpointId.execute)
predecessor_of (EndpointId.other s) task v = false

unfoldable pub builtin_predecessor_satisfied : RuntimeView → PhaseEndpointRef → Bool
unfolding predecessor_of
builtin_predecessor_satisfied v ref = predecessor_of ref.endpoint_id ref.task_id v

unfoldable pub signal_satisfied : EdgeSignal → RuntimeView → Edge → Bool
unfolding endpoint_satisfied
signal_satisfied EdgeSignal.phase_satisfied v edge = endpoint_satisfied v edge.from
signal_satisfied EdgeSignal.task_done v edge = source_done (lookup edge.from.task_id v.tasks)
signal_satisfied (EdgeSignal.other s) v edge = false

unfoldable pub edge_satisfied : RuntimeView → Edge → Bool
unfolding signal_satisfied
edge_satisfied v edge = signal_satisfied edge.signal v edge

-- The edge keeps the endpoint from starting.
unfoldable pub start_edge_waits : RuntimeView → PhaseEndpointRef → Edge → Bool
unfolding edge_satisfied
start_edge_waits v ref edge =
    if edge.to != ref || edge.required_by != RequiredBy.start
    then false
    else not (edge_satisfied v edge)

unfoldable pub start_blocker_waits : PhaseEndpointRef → Blocker → Bool
unfolding blocker_waits
start_blocker_waits ref blocker =
    if blocker.target != ref || blocker.required_by != RequiredBy.start
    then false
    else blocker_waits blocker.state

unfoldable pub start_edges_and_blockers_satisfied : RuntimeView → PhaseEndpointRef → Bool
unfolding any start_edge_waits start_blocker_waits
start_edges_and_blockers_satisfied v ref =
    if any (start_edge_waits v ref) v.edges
    then false
    else not (any (start_blocker_waits ref) v.blockers)

unfoldable pub holds_endpoint : PhaseEndpointRef → ℕ → PhaseLease → Bool
holds_endpoint ref generation lease =
    lease.state == LeaseState.active && lease.endpoint == ref && lease.generation == generation

unfoldable pub has_active_lease : RuntimeView → PhaseEndpointRef → ℕ → Bool
unfolding any holds_endpoint
has_active_lease v ref generation =
    any (λ (l : String × PhaseLease). holds_endpoint ref generation l.1) v.leases

unfoldable pub pending_run : PhaseEndpointRef → ℕ → CommandRecord → Bool
unfolding is_run_command
pending_run ref generation r =
    if r.completed_event_ref != "" || r.quarantined || r.not_executable
    then false
    else (r.command.endpoint == ref
        && r.command.generation == generation
        && is_run_command r.command
        && r.observed_event_ref == "")

unfoldable pub has_pending_run_command : RuntimeView → PhaseEndpointRef → ℕ → Bool
unfolding any pending_run
has_pending_run_command v ref generation =
    any (λ (r : String × CommandRecord). pending_run ref generation r.1) v.commands

unfoldable pub is_terminal : ObservationKind → Bool
is_terminal ObservationKind.output = true
is_terminal ObservationKind.failed = true
is_terminal ObservationKind.stopped = true
is_terminal _ = false

unfoldable pub terminal_observation : RuntimeView → PhaseEndpointRef → ℕ → PhaseObservation → Bool
unfolding same_identity is_terminal
terminal_observation v ref generation o =
    if not o.folded
      || o.endpoint != ref
      || o.generation != generation
      || o.command_id == ""
      || o.lease_ref == ""
      || o.binding_ref == ""
    then false
    else (both (lookup o.command_id v.commands) (lookup o.lease_ref v.leases)
          (λ r lease. r.completed_event_ref == o.id && same_identity o r.command lease)
        && is_terminal o.kind)

unfoldable pub has_terminal_observation : RuntimeView → PhaseEndpointRef → ℕ → Bool
unfolding any terminal_observation
has_terminal_observation v ref generation =
    any (terminal_observation v ref generation) v.observations

abbrev task_active : Option Task → Bool
task_active none = false
task_active (some task) = task.outcome == TaskOutcome.active

unfoldable pub is_runnable : RuntimeView → PhaseEndpoint → Bool
is_runnable v endpoint =
    if not (task_active (lookup endpoint.ref.task_id v.tasks))
    then false
    else if endpoint.state != EndpointState.pending || endpoint.run_policy != RunPolicy.enabled
    then false
    else if endpoint.binding_ref == "" || endpoint.spec_ref == ""
    then false
    else if not (builtin_predecessor_satisfied v endpoint.ref)
    then false
    else if not (start_edges_and_blockers_satisfied v endpoint.ref)
    then false
    else if has_active_lease v endpoint.ref endpoint.generation
        || has_pending_run_command v endpoint.ref endpoint.generation
    then false
    else not (has_terminal_observation v endpoint.ref endpoint.generation)

abbrev runnable_at : RuntimeView → ℕ → Option PhaseEndpoint → Bool
runnable_at v generation none = false
runnable_at v generation (some endpoint) =
    if endpoint.generation != generation then false else is_runnable v endpoint

unfoldable pub endpoint_runnable : ProjectState → PhaseEndpointRef → ℕ → Bool
endpoint_runnable p ref generation =
    runnable_at (new_runtime_view p) generation (lookup ref p.current.endpoints)
