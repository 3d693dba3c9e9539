-- ===== src/Coordination/Transition/Endpoint.antt =====
-- applyEndpointTransition of internal/coordination/transition.go and what it requires.
use threadmill_agent_teams.Base.{
  ◌+◌, Bool, true, false, ◌&&◌, ◌||◌, not, Option, none, some, List, [], ◌∷◌, String, ◌==◌, ◌!=◌,
  if◌then◌else◌, lookup, insert, string_eq, nat_eq, ◌^^◌, decimal,
}
use threadmill_agent_teams.Kernel.Errors.{
  Result, ok, err, ◌>>=◌, ◌>>◌, reject_if, or_fail, each, invalid_argument,
  transition_rejected_error, stale_binding_error, incomplete_stop_evidence_error, require_id,
}
use threadmill_agent_teams.Kernel.Revision.{u64}
use threadmill_agent_teams.Coordination.Types.{
  TaskOutcome, EndpointState, RunPolicy, EdgeSignal, RequiredBy, BlockerState, Verdict, Action,
  PhaseEndpointRef, Task, PhaseEndpoint, Edge, Blocker, PhaseResult, GraphState, GraphTransition,
  phase_endpoint_ref_eq, endpoint_state_eq, run_policy_eq, required_by_eq, task_outcome_eq,
}
use threadmill_agent_teams.Coordination.Graph.Validation.{validate_result, endpoint_text}
use threadmill_agent_teams.Coordination.Graph.Check.{is_missing}

unfoldable pub verdict_text : Verdict → String
verdict_text Verdict.submitted = "submitted"
verdict_text Verdict.satisfied = "satisfied"
verdict_text Verdict.rejected = "rejected"
verdict_text Verdict.invalidated = "invalidated"
verdict_text (Verdict.other s) = s

-- Whether a source that may be missing has the state or the outcome that the signal waits for.
abbrev pub source_satisfied : Option PhaseEndpoint → Bool
source_satisfied none = false
source_satisfied (some source) = source.state == EndpointState.satisfied

abbrev pub source_done : Option Task → Bool
source_done none = false
source_done (some source) = source.outcome == TaskOutcome.done

unfoldable pub edge_satisfied : GraphState → EdgeSignal → Edge → Bool
edge_satisfied state EdgeSignal.phase_satisfied edge =
    source_satisfied (lookup edge.from state.endpoints)
edge_satisfied state EdgeSignal.task_done edge = source_done (lookup edge.from.task_id state.tasks)
edge_satisfied state (EdgeSignal.other s) edge = false

unfoldable pub completion_edge : GraphState → PhaseEndpointRef → Edge → Result (Unit {0})
unfolding edge_satisfied
completion_edge state target edge =
    if edge.to != target || edge.required_by != RequiredBy.completion
    then ok tt
    else (reject_if (not (edge_satisfied state edge.signal edge)) (
        transition_rejected_error "submitted transition is waiting for a declared completion edge"))

unfoldable pub blocker_waits : BlockerState → Bool
blocker_waits BlockerState.active = true
blocker_waits BlockerState.denied = true
blocker_waits _ = false

unfoldable pub completion_blocker : PhaseEndpointRef → String × Blocker → Result (Unit {0})
unfolding blocker_waits
completion_blocker target (id, blocker) =
    if blocker.target != target || blocker.required_by != RequiredBy.completion
    then ok tt
    else (reject_if (blocker_waits blocker.state) (
        transition_rejected_error
          "submitted transition is waiting for a declared completion blocker"))

unfoldable pub require_completion_inputs : GraphState → PhaseEndpointRef → Result (Unit {0})
unfolding completion_edge completion_blocker
require_completion_inputs state target = do
  each (completion_edge state target) state.edges
  each (completion_blocker target) state.blockers

-- The default id of a result whose transition names none.
unfoldable pub result_id : PhaseEndpoint → PhaseResult → Verdict → String
unfolding endpoint_text verdict_text
result_id endpoint result verdict =
    if result.id == ""
    then endpoint.ref.task_id
      ^^ ":"
      ^^ endpoint_text endpoint.ref.endpoint_id
      ^^ ":"
      ^^ decimal endpoint.generation
      ^^ ":"
      ^^ verdict_text verdict
    else result.id

unfoldable pub require_result_for_transition :
    GraphState → PhaseEndpoint → GraphTransition → Verdict → Result GraphState
require_result_for_transition state endpoint t verdict = do
  let result = record t.result { id = result_id endpoint t.result verdict; verdict = verdict }
  reject_if (t.result.endpoint != endpoint.ref)
      (invalid_argument "phase result endpoint must match transition endpoint")
  reject_if (t.result.binding_ref != endpoint.binding_ref)
      (stale_binding_error "phase result binding_ref must match current endpoint binding_ref")
  reject_if (t.result.output_ref == "") (invalid_argument "phase result output_ref is required")
  validate_result result
  reject_if (not (is_missing (lookup result.id state.results)))
      (transition_rejected_error "phase result id already exists")
  ok (record state { results = insert result.id result state.results })

abbrev pub no_evidence : List String → Bool
no_evidence [] = true
no_evidence (ref ∷ refs) = false

unfoldable pub require_stop_evidence : PhaseEndpoint → GraphTransition → Result (Unit {0})
require_stop_evidence endpoint t = do
  require_id "new_binding_ref" t.new_binding_ref
  reject_if (t.new_binding_ref == endpoint.binding_ref)
      (stale_binding_error "stopped transition requires a new binding_ref")
  reject_if (no_evidence t.evidence_refs)
      (incomplete_stop_evidence_error "stopped transition requires evidence_refs")
  reject_if (t.checkpoint_ref == "" && not t.non_resumable)
      (incomplete_stop_evidence_error "stopped transition requires checkpoint_ref or non_resumable")

-- The endpoint in a new generation, under the transition's binding and, if it names one, its spec.
unfoldable pub roll : PhaseEndpoint → GraphTransition → PhaseEndpoint
roll endpoint t = record endpoint {
  state = EndpointState.pending;
  generation = u64 (endpoint.generation + 1);
  binding_ref = t.new_binding_ref;
  spec_ref = if t.new_spec_ref != "" then t.new_spec_ref else endpoint.spec_ref;
}

-- The `switch` on the action: the state, which a result may extend, and the endpoint to store.
unfoldable pub endpoint_action :
    Action → GraphState → PhaseEndpoint → GraphTransition → Result (GraphState × PhaseEndpoint)
endpoint_action Action.submitted state endpoint t = do
  reject_if (endpoint.state != EndpointState.pending)
      (transition_rejected_error "submitted transition requires pending endpoint")
  require_completion_inputs state endpoint.ref
  ok (state, record endpoint { state = EndpointState.submitted })
endpoint_action Action.satisfied state endpoint t = do
  reject_if (endpoint.run_policy == RunPolicy.held)
      (transition_rejected_error "satisfied transition requires endpoint not held")
  reject_if (endpoint.state != EndpointState.submitted)
      (transition_rejected_error "satisfied transition requires submitted endpoint")
  state' ← require_result_for_transition state endpoint t Verdict.satisfied
  ok (state', record endpoint { state = EndpointState.satisfied })
endpoint_action Action.rejected state endpoint t = do
  reject_if (endpoint.run_policy == RunPolicy.held)
      (transition_rejected_error "rejected transition requires endpoint not held")
  reject_if (endpoint.state != EndpointState.submitted)
      (transition_rejected_error "rejected transition requires submitted endpoint")
  state' ← require_result_for_transition state endpoint t Verdict.rejected
  ok (state', record endpoint { state = EndpointState.rejected })
endpoint_action Action.reopened state endpoint t = do
  reject_if (endpoint.state != EndpointState.rejected && endpoint.state != EndpointState.pending)
      (transition_rejected_error "reopened transition requires rejected or pending endpoint")
  require_id "new_binding_ref" t.new_binding_ref
  reject_if (t.new_binding_ref == endpoint.binding_ref)
      (stale_binding_error "reopened transition requires a new binding_ref")
  ok (state, roll endpoint t)
endpoint_action Action.held state endpoint t =
    ok (state, record endpoint { run_policy = RunPolicy.held })
endpoint_action Action.released state endpoint t = do
  reject_if (endpoint.run_policy != RunPolicy.held)
      (transition_rejected_error "released transition requires held endpoint")
  ok (state, record endpoint { run_policy = RunPolicy.enabled })
endpoint_action Action.stopped state endpoint t = do
  reject_if (endpoint.run_policy != RunPolicy.held)
      (transition_rejected_error "stopped transition requires held endpoint")
  require_stop_evidence endpoint t
  ok (state, roll endpoint t)
endpoint_action _ state endpoint t =
    err (invalid_argument "phase endpoint transition action is not allowed")

unfoldable pub apply_endpoint_transition : GraphState → GraphTransition → Result GraphState
apply_endpoint_transition state t = do
  endpoint ←
      or_fail (lookup t.endpoint state.endpoints)
        (invalid_argument "phase endpoint transition references unknown endpoint")
  reject_if (t.generation != endpoint.generation) (
      transition_rejected_error
        "phase endpoint transition generation does not match current endpoint generation")
  (state', endpoint') ← endpoint_action t.action state endpoint t
  ok (record state' { endpoints = insert t.endpoint endpoint' state'.endpoints })
