-- ===== src/Coordination/Graph/Validation.antt =====
-- internal/coordination/validation.go, the checks of one task, endpoint, edge, blocker or result.
use threadmill_agent_teams.Base.{
  ℕ, ◌^◌, Bool, true, false, ◌&&◌, not, List, [], ◌∷◌, String, ◌==◌, ltb, any, string_eq, ◌^^◌,
}
use threadmill_agent_teams.Kernel.Errors.{
  Result, ◌>>◌, reject_if, invalid_argument, invalid_graph_error, require_id,
}
use threadmill_agent_teams.Coordination.Types.{
  EndpointId, TaskOutcome, EndpointState, RunPolicy, EdgeSignal, RequiredBy, OnFalse, BlockerState,
  Verdict, PhaseEndpointRef, Task, PhaseEndpoint, Edge, Blocker, PhaseResult, endpoint_id_eq,
}

-- An `int` that is not `<= 0`, read off its bits.
unfoldable pub positive : ℕ → Bool
positive n = ltb 0 n && ltb n (2 ^ 63)

abbrev pub fixed_endpoints : List EndpointId
fixed_endpoints = EndpointId.plan ∷ EndpointId.execute ∷ EndpointId.verify ∷ []

unfoldable pub is_fixed_endpoint : EndpointId → Bool
unfolding any
is_fixed_endpoint id = any (λ fixed. id == fixed) fixed_endpoints

unfoldable pub outcome_allowed : TaskOutcome → Bool
outcome_allowed TaskOutcome.active = true
outcome_allowed TaskOutcome.done = true
outcome_allowed TaskOutcome.canceled = true
outcome_allowed TaskOutcome.failed = true
outcome_allowed (TaskOutcome.other s) = false

unfoldable pub state_allowed : EndpointState → Bool
state_allowed EndpointState.pending = true
state_allowed EndpointState.submitted = true
state_allowed EndpointState.satisfied = true
state_allowed EndpointState.rejected = true
state_allowed (EndpointState.other s) = false

unfoldable pub run_policy_allowed : RunPolicy → Bool
run_policy_allowed RunPolicy.enabled = true
run_policy_allowed RunPolicy.held = true
run_policy_allowed (RunPolicy.other s) = false

unfoldable pub signal_allowed : EdgeSignal → Bool
signal_allowed EdgeSignal.phase_satisfied = true
signal_allowed EdgeSignal.task_done = true
signal_allowed (EdgeSignal.other s) = false

unfoldable pub required_by_allowed : RequiredBy → Bool
required_by_allowed RequiredBy.start = true
required_by_allowed RequiredBy.completion = true
required_by_allowed (RequiredBy.other s) = false

unfoldable pub on_false_allowed : OnFalse → Bool
on_false_allowed OnFalse.block = true
on_false_allowed OnFalse.replan = true
on_false_allowed OnFalse.cancel = true
on_false_allowed (OnFalse.other s) = false

unfoldable pub blocker_state_allowed : BlockerState → Bool
blocker_state_allowed BlockerState.active = true
blocker_state_allowed BlockerState.resolved = true
blocker_state_allowed BlockerState.denied = true
blocker_state_allowed BlockerState.obsolete = true
blocker_state_allowed (BlockerState.other s) = false

unfoldable pub verdict_allowed : Verdict → Bool
verdict_allowed Verdict.submitted = true
verdict_allowed Verdict.satisfied = true
verdict_allowed Verdict.rejected = true
verdict_allowed Verdict.invalidated = true
verdict_allowed (Verdict.other s) = false

unfoldable pub validate_task : Task → Result (Unit {0})
validate_task task = do
  require_id "task.id" task.id
  reject_if (task.contract_ref == "") (invalid_argument "task.contract_ref is required")
  reject_if (not (outcome_allowed task.outcome)) (invalid_argument "task.outcome is not allowed")

unfoldable pub validate_endpoint_ref : PhaseEndpointRef → Result (Unit {0})
validate_endpoint_ref ref = do
  require_id "endpoint.task_id" ref.task_id
  reject_if (not (is_fixed_endpoint ref.endpoint_id))
      (invalid_argument "endpoint_id must be one of plan, execute, verify")

unfoldable pub validate_endpoint : PhaseEndpoint → Result (Unit {0})
validate_endpoint endpoint = do
  validate_endpoint_ref endpoint.ref
  reject_if (endpoint.spec_ref == "") (invalid_argument "endpoint.spec_ref is required")
  require_id "endpoint.binding_ref" endpoint.binding_ref
  reject_if (not (positive endpoint.generation))
      (invalid_argument "endpoint.generation must be positive")
  reject_if (not (state_allowed endpoint.state)) (invalid_argument "endpoint.state is not allowed")
  reject_if (not (run_policy_allowed endpoint.run_policy))
      (invalid_argument "endpoint.run_policy is not allowed")

unfoldable pub validate_edge : Edge → Result (Unit {0})
validate_edge edge = do
  validate_endpoint_ref edge.from
  validate_endpoint_ref edge.to
  reject_if (not (signal_allowed edge.signal)) (invalid_argument "edge.signal is not allowed")
  reject_if (not (required_by_allowed edge.required_by))
      (invalid_argument "edge.required_by is not allowed")
  reject_if (not (on_false_allowed edge.on_false)) (invalid_argument "edge.on_false is not allowed")
  reject_if (edge.from.task_id == edge.to.task_id)
      (invalid_graph_error "fixed plan/execute/verify order is not an editable edge")

unfoldable pub validate_blocker : Blocker → Result (Unit {0})
validate_blocker blocker = do
  reject_if (blocker.id == "") (invalid_argument "blocker.id is required")
  validate_endpoint_ref blocker.target
  reject_if (not (required_by_allowed blocker.required_by))
      (invalid_argument "blocker.required_by is not allowed")
  reject_if (not (on_false_allowed blocker.on_false))
      (invalid_argument "blocker.on_false is not allowed")
  reject_if (not (blocker_state_allowed blocker.state))
      (invalid_argument "blocker.state is not allowed")

unfoldable pub validate_result : PhaseResult → Result (Unit {0})
validate_result result = do
  reject_if (result.id == "") (invalid_argument "phase_result.id is required")
  validate_endpoint_ref result.endpoint
  require_id "phase_result.binding_ref" result.binding_ref
  reject_if (result.output_ref == "") (invalid_argument "phase_result.output_ref is required")
  reject_if (not (verdict_allowed result.verdict))
      (invalid_argument "phase_result.verdict is not allowed")

unfoldable pub endpoint_text : EndpointId → String
endpoint_text EndpointId.plan = "plan"
endpoint_text EndpointId.execute = "execute"
endpoint_text EndpointId.verify = "verify"
endpoint_text (EndpointId.other s) = s

unfoldable pub signal_text : EdgeSignal → String
signal_text EdgeSignal.phase_satisfied = "phase_satisfied"
signal_text EdgeSignal.task_done = "task_done"
signal_text (EdgeSignal.other s) = s

unfoldable pub required_by_text : RequiredBy → String
required_by_text RequiredBy.start = "start"
required_by_text RequiredBy.completion = "completion"
required_by_text (RequiredBy.other s) = s

unfoldable pub edge_key : Edge → String
unfolding endpoint_text signal_text required_by_text
edge_key edge =
    edge.from.task_id
    ^^ "/"
    ^^ endpoint_text edge.from.endpoint_id
    ^^ ">"
    ^^ edge.to.task_id
    ^^ "/"
    ^^ endpoint_text edge.to.endpoint_id
    ^^ ":"
    ^^ signal_text edge.signal
    ^^ ":"
    ^^ required_by_text edge.required_by
