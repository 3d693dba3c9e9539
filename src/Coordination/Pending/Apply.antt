-- ===== src/Coordination/Pending/Apply.antt =====
-- applyPendingSubgraph of internal/coordination/validation.go.
use threadmill_agent_teams.Base.{
  Bool, not, List, [], ◌∷◌, ◌++◌, String, insert, mem, select, string_eq,
}
use threadmill_agent_teams.Coordination.Types.{
  PhaseEndpointRef, Task, PhaseEndpoint, Edge, Blocker, GraphState, PendingSubgraph,
  phase_endpoint_ref_eq,
}
use threadmill_agent_teams.Coordination.Pending.Validate.{refs}

unfoldable pub put_tasks : List Task → List (String × Task) → List (String × Task)
put_tasks [] m = m
put_tasks (task ∷ tasks) m = put_tasks tasks (insert task.id task m)

unfoldable pub put_endpoints :
    List PhaseEndpoint
    → List (PhaseEndpointRef × PhaseEndpoint)
    → List (PhaseEndpointRef × PhaseEndpoint)
put_endpoints [] m = m
put_endpoints (endpoint ∷ endpoints) m = put_endpoints endpoints (insert endpoint.ref endpoint m)

unfoldable pub put_blockers : List Blocker → List (String × Blocker) → List (String × Blocker)
put_blockers [] m = m
put_blockers (blocker ∷ blockers) m = put_blockers blockers (insert blocker.id blocker m)

unfoldable pub keeps_edge : List PhaseEndpointRef → Edge → Bool
keeps_edge scope edge = not (mem edge.to scope)

unfoldable pub keeps_blocker : List PhaseEndpointRef → String × Blocker → Bool
keeps_blocker scope (id, blocker) = not (mem blocker.target scope)

unfoldable pub apply_pending_subgraph : GraphState → PendingSubgraph → GraphState
unfolding put_tasks put_endpoints put_blockers keeps_edge keeps_blocker
apply_pending_subgraph state next = record state {
  tasks = put_tasks next.tasks state.tasks;
  endpoints = put_endpoints next.endpoints state.endpoints;
  edges = select (keeps_edge (refs next.endpoints)) state.edges ++ next.edges;
  blockers =
      put_blockers next.blockers (select (keeps_blocker (refs next.endpoints)) state.blockers);
}
