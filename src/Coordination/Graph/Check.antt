-- ===== src/Coordination/Graph/Check.antt =====
-- validateGraph of internal/coordination/validation.go, and the fixed endpoint set of a task.
use threadmill_agent_teams.Base.{
  Bool, true, false, ◌||◌, not, Option, none, some, List, [], ◌∷◌, String, ◌==◌, if◌then◌else◌, mem,
  lookup, string_eq, ◌^^◌,
}
use threadmill_agent_teams.Kernel.Errors.{
  Result, ok, err, ◌>>◌, reject_if, each, invalid_argument, invalid_graph_error,
}
use threadmill_agent_teams.Coordination.Types.{
  EndpointId, PhaseEndpointRef, Task, PhaseEndpoint, Edge, Blocker, PhaseResult, GraphState,
  endpoint_id_eq, phase_endpoint_ref_eq,
}
use threadmill_agent_teams.Coordination.Graph.Validation.{
  validate_task, validate_endpoint, validate_edge, validate_blocker, validate_result, edge_key,
  endpoint_text, fixed_endpoints, is_fixed_endpoint,
}
use threadmill_agent_teams.Coordination.Graph.Acyclic.{validate_acyclic, keys}

-- `_, ok := m[k]; !ok`
abbrev pub is_missing {ℓ} : {A : Type ℓ} → Option A → Bool
is_missing none = true
is_missing (some a) = false

-- The endpoint ids that the references of one task have.
unfoldable pub seen_ids : String → List PhaseEndpointRef → List EndpointId
seen_ids task [] = []
seen_ids task (ref ∷ refs) =
    if ref.task_id == task then ref.endpoint_id ∷ seen_ids task refs else seen_ids task refs

-- The text before and after the endpoint's name in the error.
unfoldable pub require_seen : String → String → List EndpointId → EndpointId → Result (Unit {0})
unfolding endpoint_text
require_seen before after seen fixed =
    reject_if (not (mem fixed seen)) (invalid_argument (before ^^ endpoint_text fixed ^^ after))

-- `len(seen) != len(fixedEndpoints)`, once each of the fixed ids is in `seen`: there is another.
unfoldable pub has_foreign : List EndpointId → Bool
has_foreign [] = false
has_foreign (id ∷ ids) = not (is_fixed_endpoint id) || has_foreign ids

unfoldable pub task_has_fixed_endpoint_set : GraphState → String → Result (Unit {0})
unfolding seen_ids require_seen has_foreign keys
task_has_fixed_endpoint_set state task = do
  let seen = seen_ids task (keys state.endpoints)
  each (require_seen ("task " ^^ task ^^ " is missing ") " endpoint" seen) fixed_endpoints
  reject_if (has_foreign seen)
      (invalid_argument "task endpoint set must be exactly plan, execute, verify")

unfoldable pub check_task : GraphState → String × Task → Result (Unit {0})
check_task state (key, task) = do validate_task task; task_has_fixed_endpoint_set state task.id

unfoldable pub check_endpoint : GraphState → PhaseEndpointRef × PhaseEndpoint → Result (Unit {0})
check_endpoint state (key, endpoint) = do
  validate_endpoint endpoint
  reject_if (is_missing (lookup endpoint.ref.task_id state.tasks))
      (invalid_graph_error "endpoint references unknown task")

unfoldable pub check_edges : GraphState → List String → List Edge → Result (Unit {0})
check_edges state seen [] = ok tt
check_edges state seen (edge ∷ edges) = do
  validate_edge edge
  reject_if (mem (edge_key edge) seen)
      (invalid_graph_error "coordination graph cannot contain duplicate edges")
  reject_if (is_missing (lookup edge.from state.endpoints))
      (invalid_graph_error "edge source references unknown endpoint")
  reject_if (is_missing (lookup edge.to state.endpoints))
      (invalid_graph_error "edge target references unknown endpoint")
  check_edges state (edge_key edge ∷ seen) edges

unfoldable pub check_blocker : GraphState → String × Blocker → Result (Unit {0})
check_blocker state (key, blocker) = do
  validate_blocker blocker
  reject_if (is_missing (lookup blocker.target state.endpoints))
      (invalid_graph_error "blocker references unknown endpoint")

unfoldable pub check_result : GraphState → String × PhaseResult → Result (Unit {0})
check_result state (key, result) = do
  validate_result result
  reject_if (is_missing (lookup result.endpoint state.endpoints))
      (invalid_graph_error "phase result references unknown endpoint")

-- A search that ran out of fuel would be read as a rejection.
abbrev pub acyclic_answer : Option (Result (Unit {0})) → Result (Unit {0})
acyclic_answer none = err (invalid_graph_error "coordination graph cannot contain cycles")
acyclic_answer (some r) = r

unfoldable pub validate_graph : GraphState → Result (Unit {0})
validate_graph state = do
  each (check_task state) state.tasks
  each (check_endpoint state) state.endpoints
  check_edges state [] state.edges
  each (check_blocker state) state.blockers
  each (check_result state) state.results
  acyclic_answer (validate_acyclic state)
