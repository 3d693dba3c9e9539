-- ===== src/Coordination/Pending/Validate.antt =====
-- validatePendingSubgraph, validatePendingSubgraphRuntime, validateReopenRoundRuntime and
-- hasDefinitiveDispatchRejection of internal/coordination/validation.go.
use threadmill_agent_teams.Base.{
  ◌+◌, Bool, true, false, ◌&&◌, ◌||◌, not, Option, none, some, List, [], ◌∷◌, String, ◌==◌, ◌!=◌,
  if◌then◌else◌, lookup, mem, any, string_eq, nat_eq, ◌^^◌,
}
use threadmill_agent_teams.Kernel.Errors.{
  Result, ok, ◌>>◌, reject_if, each, invalid_argument, invalid_graph_error, scope_not_pending_error,
  stale_binding_error, endpoint_in_flight_error,
}
use threadmill_agent_teams.Kernel.Revision.{u64, is_latest_read}
use threadmill_agent_teams.Coordination.Types.{
  TaskOutcome, EndpointState, LeaseState, ObservationKind, PhaseEndpointRef, Task, PhaseEndpoint,
  Edge, Blocker, GraphState, PendingSubgraph, CommandRecord, PhaseLease, PhaseObservation,
  RuntimeState, endpoint_id_eq, phase_endpoint_ref_eq, endpoint_state_eq, run_policy_eq, task_eq,
  task_outcome_eq, lease_state_eq, observation_kind_eq,
}
use threadmill_agent_teams.Coordination.Graph.Validation.{
  validate_task, validate_endpoint, validate_edge, validate_blocker, edge_key, fixed_endpoints,
}
use threadmill_agent_teams.Coordination.Graph.Check.{seen_ids, require_seen, has_foreign}
use threadmill_agent_teams.Coordination.Transition.Observed.{is_run_command}

unfoldable pub is_rejection : CommandRecord → PhaseObservation → Bool
is_rejection r o =
    o.id == r.completed_event_ref
    && o.kind == ObservationKind.dispatch_rejected
    && o.folded
    && o.command_id == r.command.id
    && o.lease_ref == r.command.lease_ref

-- The command's lease is released and still names the endpoint.
unfoldable pub released_for : PhaseEndpoint → Option PhaseLease → Bool
released_for endpoint none = false
released_for endpoint (some lease) =
    lease.state == LeaseState.released
    && lease.endpoint == endpoint.ref
    && lease.generation == endpoint.generation
    && lease.binding_ref == endpoint.binding_ref

unfoldable pub rejected_before_start : RuntimeState → PhaseEndpoint → String × CommandRecord → Bool
unfolding is_rejection released_for is_run_command
rejected_before_start runtime endpoint (id, r) =
    r.command.endpoint == endpoint.ref
    && r.command.generation == endpoint.generation
    && r.command.binding_ref == endpoint.binding_ref
    && is_run_command r.command
    && r.not_executable
    && r.observed_event_ref == ""
    && r.completed_event_ref != ""
    && released_for endpoint (lookup r.command.lease_ref runtime.leases)
    && any (is_rejection r) runtime.observations

unfoldable pub has_definitive_dispatch_rejection : RuntimeState → PhaseEndpoint → Bool
unfolding rejected_before_start
has_definitive_dispatch_rejection runtime endpoint =
    any (rejected_before_start runtime endpoint) runtime.commands

-- The replacement of an endpoint that exists.
unfoldable pub replaces : RuntimeState → PhaseEndpoint → PhaseEndpoint → Result (Unit {0})
replaces runtime existing endpoint = do
  reject_if (existing.state != EndpointState.pending)
      (scope_not_pending_error "only pending endpoints can be replaced")
  reject_if (existing.spec_ref != endpoint.spec_ref)
      (stale_binding_error "SpecRef is immutable for an endpoint generation")
  reject_if (existing.run_policy != endpoint.run_policy)
      (invalid_argument "ReplacePending cannot rewrite endpoint run policy")
  if existing.generation == endpoint.generation
      then reject_if (existing.binding_ref != endpoint.binding_ref)
          (stale_binding_error "BindingRef is immutable for an endpoint generation")
      else reject_if
          (endpoint.generation != u64 (existing.generation + 1)
            || endpoint.binding_ref == existing.binding_ref
            || not (has_definitive_dispatch_rejection runtime existing))
          (stale_binding_error
            "pending endpoint generation can advance only after a definitive pre-start dispatch rejection")

unfoldable pub replaces_found :
    RuntimeState → PhaseEndpoint → Option PhaseEndpoint → Result (Unit {0})
unfolding replaces
replaces_found runtime endpoint none = ok tt
replaces_found runtime endpoint (some existing) = replaces runtime existing endpoint

-- The loop over the endpoints, with the scope so far.
unfoldable pub check_scope :
    GraphState → RuntimeState → List PhaseEndpointRef → List PhaseEndpoint → Result (Unit {0})
unfolding replaces_found
check_scope current runtime scope [] = ok tt
check_scope current runtime scope (endpoint ∷ endpoints) = do
  validate_endpoint endpoint
  reject_if (mem endpoint.ref scope)
      (invalid_graph_error "duplicate endpoint in pending subgraph scope")
  replaces_found runtime endpoint (lookup endpoint.ref current.endpoints)
  check_scope current runtime (endpoint.ref ∷ scope) endpoints

unfoldable pub refs : List PhaseEndpoint → List PhaseEndpointRef
refs [] = []
refs (endpoint ∷ endpoints) = endpoint.ref ∷ refs endpoints

unfoldable pub require_fixed_endpoint_set : String → List PhaseEndpoint → Result (Unit {0})
unfolding seen_ids require_seen has_foreign refs
require_fixed_endpoint_set task endpoints = do
  let seen = seen_ids task (refs endpoints)
  each (require_seen ("new task " ^^ task ^^ " must include ") " endpoint" seen) fixed_endpoints
  reject_if (has_foreign seen)
      (invalid_argument "new task endpoint set must be exactly plan, execute, verify")

unfoldable pub known_task : Task → PendingSubgraph → Option Task → Result (Unit {0})
unfolding require_fixed_endpoint_set
known_task task next none = do
  reject_if (task.outcome != TaskOutcome.active) (invalid_argument "new tasks must be active")
  require_fixed_endpoint_set task.id next.endpoints
known_task task next (some existing) =
    reject_if (existing != task)
      (invalid_argument "ReplacePending cannot rewrite an existing task contract or outcome")

unfoldable pub check_new_task : GraphState → PendingSubgraph → Task → Result (Unit {0})
unfolding known_task
check_new_task current next task = do
  validate_task task
  known_task task next (lookup task.id current.tasks)

unfoldable pub check_new_edges : List PhaseEndpointRef → List String → List Edge → Result (Unit {0})
check_new_edges scope seen [] = ok tt
check_new_edges scope seen (edge ∷ edges) = do
  validate_edge edge
  reject_if (mem (edge_key edge) seen) (invalid_graph_error "duplicate edge in pending subgraph")
  reject_if (not (mem edge.to scope))
      (invalid_argument "pending subgraph edges must target an endpoint in scope")
  check_new_edges scope (edge_key edge ∷ seen) edges

unfoldable pub check_new_blockers :
    List PhaseEndpointRef → List String → List Blocker → Result (Unit {0})
check_new_blockers scope seen [] = ok tt
check_new_blockers scope seen (blocker ∷ blockers) = do
  validate_blocker blocker
  reject_if (mem blocker.id seen) (invalid_graph_error "duplicate blocker in pending subgraph")
  reject_if (not (mem blocker.target scope))
      (invalid_argument "pending subgraph blockers must target an endpoint in scope")
  check_new_blockers scope (blocker.id ∷ seen) blockers

abbrev no_endpoints : List PhaseEndpoint → Bool
no_endpoints [] = true
no_endpoints (endpoint ∷ endpoints) = false

unfoldable pub validate_pending_subgraph :
    GraphState → RuntimeState → PendingSubgraph → Result (Unit {0})
unfolding check_scope refs
validate_pending_subgraph current runtime next = do
  reject_if (is_latest_read next.base_revision)
      (invalid_argument "base_revision must be a concrete revision")
  reject_if (no_endpoints next.endpoints)
      (invalid_argument "pending subgraph endpoints define the replacement scope")
  check_scope current runtime [] next.endpoints
  each (check_new_task current next) next.tasks
  check_new_edges (refs next.endpoints) [] next.edges
  check_new_blockers (refs next.endpoints) [] next.blockers

unfoldable pub active_in : List PhaseEndpointRef → String × PhaseLease → Bool
active_in scope (id, lease) = lease.state == LeaseState.active && mem lease.endpoint scope

unfoldable pub validate_pending_subgraph_runtime :
    RuntimeState → PendingSubgraph → Result (Unit {0})
unfolding active_in refs
validate_pending_subgraph_runtime runtime next =
    reject_if (any (active_in (refs next.endpoints)) runtime.leases) (
      endpoint_in_flight_error
        "ReplacePending scope contains an endpoint with an active phase lease; hold and stop the phase before replacing it")

unfoldable pub active_of_task : String → String × PhaseLease → Bool
active_of_task task (id, lease) = lease.state == LeaseState.active && lease.endpoint.task_id == task

unfoldable pub validate_reopen_round_runtime : RuntimeState → String → Result (Unit {0})
unfolding active_of_task
validate_reopen_round_runtime runtime task = reject_if (any (active_of_task task) runtime.leases) (
    endpoint_in_flight_error
      "reopen_round requires all task phase leases to be terminally released")
