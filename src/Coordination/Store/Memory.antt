-- ===== src/Coordination/Store/Memory.antt =====
-- The MemoryStore of internal/coordination/memory_store.go. Each method runs under the store's
-- mutex, so it is one function from the store to the next store and its answer.
use threadmill_agent_teams.Base.{
  Bool, false, ◌&&◌, [], String, ◌==◌, if◌then◌else◌, lookup, any, string_eq, nat_eq, ◌^^◌, decimal,
}
use threadmill_agent_teams.Kernel.Errors.{
  Error, not_found, Result, ok, err, ◌>>=◌, ◌>>◌, reject_if, or_fail, invalid_argument,
  transition_rejected_error, is_zero_id,
}
use threadmill_agent_teams.Kernel.Revision.{Revision, is_latest_read, check_expected_revision}
use threadmill_agent_teams.Coordination.Types.{
  TransitionTarget, Action, LeaseState, PhaseEndpointRef, GraphState, GraphSnapshot,
  PendingSubgraph, GraphTransition, PhaseLease, phase_endpoint_ref_eq, lease_state_eq, action_eq,
  transition_target_eq,
}
use threadmill_agent_teams.Coordination.Graph.Check.{validate_graph}
use threadmill_agent_teams.Coordination.Transition.Shape.{validate_transition_shape}
use threadmill_agent_teams.Coordination.Transition.Observed.{validate_runtime_backed_transition}
use threadmill_agent_teams.Coordination.Transition.Apply.{apply_transition}
use threadmill_agent_teams.Coordination.Pending.Validate.{
  validate_pending_subgraph, validate_pending_subgraph_runtime, validate_reopen_round_runtime,
}
use threadmill_agent_teams.Coordination.Pending.Apply.{apply_pending_subgraph}
use threadmill_agent_teams.Coordination.Store.Snapshot.{snapshot}
use threadmill_agent_teams.Coordination.Store.Project.{
  ProjectState, MemoryStore, ensure_project, put_project, Outcome, commit, record_runtime_binding,
}

unfoldable pub active_at : PhaseEndpointRef → String × PhaseLease → Bool
active_at ref (id, lease) = lease.state == LeaseState.active && lease.endpoint == ref

-- The guards of `transition` and the graph that it commits.
unfoldable pub transition_graph : ProjectState → Revision → GraphTransition → Result GraphState
unfolding active_at
transition_graph project expected t = do
  check_expected_revision expected project.latest
  reject_if
      (t.target_kind == TransitionTarget.phase_endpoint
        && t.action == Action.released
        && any (active_at t.endpoint) project.runtime.leases)
      (transition_rejected_error
        "released transition requires the phase lease to be terminally released")
  if t.target_kind == TransitionTarget.task && t.action == Action.reopen_round
      then validate_reopen_round_runtime project.runtime t.task_id
      else ok tt
  validate_runtime_backed_transition project.current project.runtime t
  state ← apply_transition project.current t
  validate_graph state
  ok state

-- The guards of `ReplacePending` and the graph that it commits.
unfoldable pub pending_graph : ProjectState → PendingSubgraph → Result GraphState
pending_graph project next = do
  check_expected_revision next.base_revision project.latest
  validate_pending_subgraph project.current project.runtime next
  validate_pending_subgraph_runtime project.runtime next
  let state = apply_pending_subgraph project.current next
  validate_graph state
  ok state

unfoldable pub transition_commit :
    MemoryStore
    → String
    → ProjectState
    → GraphTransition
    → Result GraphState
    → Outcome GraphSnapshot
unfolding put_project commit record_runtime_binding
transition_commit s project_id project t (err e) = (put_project s project_id project, err e)
transition_commit s project_id project t (ok state) =
    let committed = commit project state in
    (
      put_project s project_id (record_runtime_binding committed t),
      ok (snapshot committed.current committed.latest),
    )

unfoldable pub transition_checked :
    MemoryStore → String → Revision → GraphTransition → Result (Unit {0}) → Outcome GraphSnapshot
unfolding transition_commit ensure_project transition_graph
transition_checked s project_id expected t (err e) = (s, err e)
transition_checked s project_id expected t (ok _) =
    let project = ensure_project s project_id in
    transition_commit s project_id project t (transition_graph project expected t)

unfoldable pub transition :
    MemoryStore → String → Revision → GraphTransition → Outcome GraphSnapshot
unfolding transition_checked
transition s project_id expected t = transition_checked s project_id expected t (do
  reject_if (is_zero_id project_id) (invalid_argument "project_id is required")
  validate_transition_shape t)

unfoldable pub transition_with_decision_ref :
    MemoryStore → String → Revision → String → GraphTransition → Outcome GraphSnapshot
transition_with_decision_ref s project_id expected decision_ref t =
    if decision_ref == ""
    then (s, err (invalid_argument "decision_ref is required"))
    else transition s project_id expected t

unfoldable pub pending_commit :
    MemoryStore → String → ProjectState → Result GraphState → Outcome GraphSnapshot
unfolding put_project commit
pending_commit s project_id project (err e) = (put_project s project_id project, err e)
pending_commit s project_id project (ok state) =
    let committed = commit project state in
    (put_project s project_id committed, ok (snapshot committed.current committed.latest))

unfoldable pub pending_checked :
    MemoryStore → String → PendingSubgraph → Result (Unit {0}) → Outcome GraphSnapshot
unfolding pending_commit ensure_project pending_graph
pending_checked s project_id next (err e) = (s, err e)
pending_checked s project_id next (ok _) =
    let project = ensure_project s project_id in
    pending_commit s project_id project (pending_graph project next)

unfoldable pub replace_pending : MemoryStore → String → PendingSubgraph → Outcome GraphSnapshot
unfolding pending_checked
replace_pending s project_id next = pending_checked s project_id next (do
  reject_if (is_zero_id project_id) (invalid_argument "project_id is required")
  reject_if (is_zero_id next.request_id) (invalid_argument "request_id is required"))

unfoldable pub latest_snapshot : MemoryStore → String → Outcome GraphSnapshot
unfolding put_project ensure_project
latest_snapshot s project_id =
    if is_zero_id project_id
    then (s, err (invalid_argument "project_id is required"))
    else (let project = ensure_project s project_id in
        (put_project s project_id project, ok (snapshot project.current project.latest)))

missing_revision : Revision → Error
missing_revision revision = record {
  code = not_found;
  message = "graph revision " ^^ decimal revision ^^ " not found";
  recoverable = false;
  details = [];
}

unfoldable pub read_history : ProjectState → Revision → Result GraphSnapshot
unfolding missing_revision
read_history project revision = do
  state ← or_fail (lookup revision project.history) (missing_revision revision)
  ok (snapshot state revision)

unfoldable pub revision_snapshot : MemoryStore → String → Revision → Outcome GraphSnapshot
unfolding put_project ensure_project read_history
revision_snapshot s project_id revision =
    if is_zero_id project_id
    then (s, err (invalid_argument "project_id is required"))
    else if is_latest_read revision
    then (s, err (invalid_argument "concrete revision is required"))
    else (let project = ensure_project s project_id in
        (put_project s project_id project, read_history project revision))
