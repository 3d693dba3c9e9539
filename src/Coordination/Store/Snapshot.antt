-- ===== src/Coordination/Store/Snapshot.antt =====
-- `snapshot`, `clone` and `phaseOrder` of internal/coordination/memory_store.go. A clone is the
-- state itself. Go's sort.Slice is an insertion sort here: it fixes the order of equal edges, which
-- Go leaves open.
use threadmill_agent_teams.Base.{
  sort, text_lt, ℕ, Bool, List, map, ◌==◌, ◌!=◌, if◌then◌else◌, ltb, string_eq,
}
use threadmill_agent_teams.Kernel.Revision.{Revision}
use threadmill_agent_teams.Coordination.Types.{
  EndpointId, PhaseEndpointRef, Task, PhaseEndpoint, Edge, Blocker, PhaseResult, GraphState,
  GraphSnapshot, phase_endpoint_ref_eq,
}

unfoldable pub phase_order : EndpointId → ℕ
phase_order EndpointId.plan = 0
phase_order EndpointId.execute = 1
phase_order EndpointId.verify = 2
phase_order (EndpointId.other s) = 99

unfoldable pub ref_less : PhaseEndpointRef → PhaseEndpointRef → Bool
unfolding phase_order
ref_less a b =
    if a.task_id == b.task_id
    then ltb (phase_order a.endpoint_id) (phase_order b.endpoint_id)
    else text_lt a.task_id b.task_id

unfoldable pub edge_less : Edge → Edge → Bool
unfolding ref_less
edge_less a b = if a.to != b.to then ref_less a.to b.to else ref_less a.from b.from

abbrev pub values {ℓ κ} : {K : Type ℓ} {V : Type κ} → List (K × V) → List V
values = map (λ e. e.1)

unfoldable pub snapshot : GraphState → Revision → GraphSnapshot
unfolding sort edge_less
snapshot state revision = record {
  revision = revision;
  tasks = sort (λ (a b : Task). text_lt a.id b.id) (values state.tasks);
  endpoints = sort (λ (a b : PhaseEndpoint). ref_less a.ref b.ref) (values state.endpoints);
  edges = sort edge_less state.edges;
  blockers = sort (λ (a b : Blocker). text_lt a.id b.id) (values state.blockers);
  results = sort (λ (a b : PhaseResult). text_lt a.id b.id) (values state.results);
}
