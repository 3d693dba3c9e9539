-- ===== src/Coordination/Transition/Inputs.antt =====
-- The completion join of internal/coordination/transition.go: what a submission waits for.
use threadmill_agent_teams.Base.{
  In, All-In, ◌≡◌, ◌≢◌, refl, true, Option, some, none, String, lookup, string_eq, arith,
}
use threadmill_agent_teams.Kernel.Errors.{ok, each, each-eq-ok}
use threadmill_agent_teams.Coordination.Types.{
  EndpointState, TaskOutcome, EdgeSignal, RequiredBy, BlockerState, Action, Task, PhaseEndpointRef,
  PhaseEndpoint, Edge, Blocker, GraphState, GraphTransition, phase_endpoint_ref_eq,
}
use threadmill_agent_teams.Coordination.Transition.Endpoint.{
  endpoint_action, apply_endpoint_transition, require_completion_inputs, completion_edge,
  completion_blocker, edge_satisfied, source_satisfied, source_done,
}

-- The signal that an edge declares has been given.
pub data Given (state : GraphState) (edge : Edge) : Type 0 where
  phase :
      (e : PhaseEndpoint)
      → edge.signal ≡ EdgeSignal.phase_satisfied
      → lookup edge.from state.endpoints ≡ some e
      → e.state ≡ EndpointState.satisfied
      → Given state edge
  task :
      (k : Task)
      → edge.signal ≡ EdgeSignal.task_done
      → lookup edge.from.task_id state.tasks ≡ some k
      → k.outcome ≡ TaskOutcome.done
      → Given state edge

abbrev pub EdgeReady : GraphState → PhaseEndpointRef → Edge → Type 0
EdgeReady state target edge =
    edge.to ≡ target → edge.required_by ≡ RequiredBy.completion → Given state edge

abbrev pub BlockerReady : PhaseEndpointRef → String × Blocker → Type 0
BlockerReady target (id, blocker) =
    blocker.target ≡ target
    → blocker.required_by ≡ RequiredBy.completion
    → (blocker.state ≢ BlockerState.active) × (blocker.state ≢ BlockerState.denied)

edge_satisfied-Given :
    (state : GraphState) (signal : EdgeSignal) (edge : Edge)
    → edge.signal ≡ signal
    → edge_satisfied state signal edge ≡ true
    → Given state edge
unfolding edge_satisfied
edge_satisfied-Given state EdgeSignal.phase_satisfied edge k h =
    source (lookup edge.from state.endpoints) refl h
  where
    source :
        (o : Option PhaseEndpoint)
        → lookup edge.from state.endpoints ≡ o
        → source_satisfied o ≡ true
        → Given state edge
    source none found s = cc
    source (some e) found s = phase e k found (ground arith)
edge_satisfied-Given state EdgeSignal.task_done edge k h =
    source (lookup edge.from.task_id state.tasks) refl h
  where
    source :
        (o : Option Task)
        → lookup edge.from.task_id state.tasks ≡ o
        → source_done o ≡ true
        → Given state edge
    source none found s = cc
    source (some e) found s = task e k found (ground arith)
edge_satisfied-Given state (EdgeSignal.other s) edge k h = cc

completion_edge-EdgeReady :
    (state : GraphState) (target : PhaseEndpointRef) (edge : Edge)
    → completion_edge state target edge ≡ ok tt
    → EdgeReady state target edge
unfolding completion_edge
completion_edge-EdgeReady state target edge h to by =
    edge_satisfied-Given state edge.signal edge refl (ground arith)

completion_blocker-BlockerReady :
    (target : PhaseEndpointRef) (b : String × Blocker)
    → completion_blocker target b ≡ ok tt
    → BlockerReady target b
unfolding completion_blocker
completion_blocker-BlockerReady target (id, b) h to by = ground arith

-- An endpoint is submitted only while each completion edge to it has its signal: a satisfied source
-- phase, or a done source task.
pub submitted-edges :
    (state state' : GraphState) (t : GraphTransition) (e : PhaseEndpoint) (edge : Edge)
    → t.action ≡ Action.submitted
    → apply_endpoint_transition state t ≡ ok state'
    → lookup t.endpoint state.endpoints ≡ some e
    → In edge state.edges
    → edge.to ≡ e.ref
    → edge.required_by ≡ RequiredBy.completion
    → Given state edge
unfolding apply_endpoint_transition endpoint_action require_completion_inputs
submitted-edges state state' t e edge k h found at_edge =
    let edges : each (completion_edge state e.ref) state.edges ≡ ok tt = ground arith in
    completion_edge-EdgeReady state e.ref edge
      (All-In _ edge state.edges (each-eq-ok _ _ edges) at_edge)

-- An endpoint is submitted only while no completion blocker of it is active or denied.
pub submitted-blockers :
    (state state' : GraphState) (t : GraphTransition) (e : PhaseEndpoint) (b : String × Blocker)
    → t.action ≡ Action.submitted
    → apply_endpoint_transition state t ≡ ok state'
    → lookup t.endpoint state.endpoints ≡ some e
    → In b state.blockers
    → b.1.target ≡ e.ref
    → b.1.required_by ≡ RequiredBy.completion
    → (b.1.state ≢ BlockerState.active) × (b.1.state ≢ BlockerState.denied)
unfolding apply_endpoint_transition endpoint_action require_completion_inputs
submitted-blockers state state' t e b k h found at_b =
    let blockers : each (completion_blocker e.ref) state.blockers ≡ ok tt = ground arith in
    completion_blocker-BlockerReady e.ref b
      (All-In _ b state.blockers (each-eq-ok _ _ blockers) at_b)
