-- ===== src/Coordination/Transition/Results.antt =====
-- The results that internal/coordination/transition.go records.
use threadmill_agent_teams.Base.{
  ◌!=◌, nat_eq, ◌≡◌, ◌≢◌, ◌⊎◌, inl, inr, refl, some, none, String, lookup, insert, string_eq, arith,
  lookup-insert, lookup-insert_self,
}
use threadmill_agent_teams.Kernel.Errors.{ok, reject_if, or_fail, >>=-eq-ok}
use threadmill_agent_teams.Coordination.Types.{
  EndpointState, Verdict, TransitionTarget, Action, PhaseEndpoint, PhaseResult, GraphState,
  GraphTransition, phase_endpoint_ref_eq,
}
use threadmill_agent_teams.Coordination.Transition.Endpoint.{
  endpoint_action, apply_endpoint_transition, result_id, require_result_for_transition,
}
use threadmill_agent_teams.Coordination.Transition.Others.{
  apply_blocker_transition, apply_task_transition, task_action, reopen_execution_round,
}
use threadmill_agent_teams.Coordination.Transition.Apply.{apply_target, apply_transition}
use threadmill_agent_teams.Coordination.Transition.Machine.{or_fail-eq-ok}

-- A new result, under an id that no result had, of the endpoint and its binding.
pub record Recorded (state state' : GraphState) (e : PhaseEndpoint) (t : GraphTransition)
    (v : Verdict) : Type 0 where
  pub result : PhaseResult
  pub fresh : lookup result.id state.results ≡ none
  pub written : state'.results ≡ insert result.id result state.results
  pub endpoint : result.endpoint ≡ e.ref
  pub binding : result.binding_ref ≡ e.binding_ref
  pub output : result.output_ref ≡ t.result.output_ref
  pub nonempty : result.output_ref ≢ ""
  pub verdict : result.verdict ≡ v

require_result_for_transition-Recorded :
    (state state' : GraphState) (e : PhaseEndpoint) (t : GraphTransition) (v : Verdict)
    → require_result_for_transition state e t v ≡ ok state'
    → Recorded state state' e t v
unfolding require_result_for_transition
require_result_for_transition-Recorded state state' e t v h = record {
  result = record t.result { id = result_id e t.result v; verdict = v };
  fresh = ground arith;
  written = ground arith;
  endpoint = ground arith;
  binding = ground arith;
  output = refl;
  nonempty = ground arith;
  verdict = refl;
}

abbrev verdict_of : Action → Verdict
verdict_of Action.satisfied = Verdict.satisfied
verdict_of _ = Verdict.rejected

endpoint_action-Recorded :
    (a : Action) (state state' : GraphState) (e e' : PhaseEndpoint) (t : GraphTransition)
    → (a ≡ Action.satisfied) ⊎ (a ≡ Action.rejected)
    → endpoint_action a state e t ≡ ok (state', e')
    → Recorded state state' e t (verdict_of a)
unfolding endpoint_action
endpoint_action-Recorded Action.satisfied state state' e e' t k h =
    require_result_for_transition-Recorded state state' e t Verdict.satisfied (ground arith)
endpoint_action-Recorded Action.rejected state state' e e' t k h =
    require_result_for_transition-Recorded state state' e t Verdict.rejected (ground arith)
endpoint_action-Recorded _ state state' e e' t (inl k) h = cc
endpoint_action-Recorded _ state state' e e' t (inr k) h = cc

-- The state that a judgement leaves the endpoint in.
abbrev pub judged : Action → EndpointState
judged Action.satisfied = EndpointState.satisfied
judged _ = EndpointState.rejected

endpoint_action-judged :
    (a : Action) (state state' : GraphState) (e e' : PhaseEndpoint) (t : GraphTransition)
    → (a ≡ Action.satisfied) ⊎ (a ≡ Action.rejected)
    → endpoint_action a state e t ≡ ok (state', e')
    → e' ≡ record e { state = judged a }
unfolding endpoint_action
endpoint_action-judged Action.satisfied state state' e e' t k h = ground arith
endpoint_action-judged Action.rejected state state' e e' t k h = ground arith
endpoint_action-judged _ state state' e e' t (inl k) h = cc
endpoint_action-judged _ state state' e e' t (inr k) h = cc

-- A transition by the action satisfied or rejected leaves its endpoint in the state of that name, and
-- otherwise as it was, and records together with it a new result: under an id that no earlier result
-- has, of this endpoint under its current binding, with the verdict of that name and a non-empty output.
pub apply_endpoint_transition-Recorded :
    (state state' : GraphState) (t : GraphTransition)
    → (t.action ≡ Action.satisfied) ⊎ (t.action ≡ Action.rejected)
    → apply_endpoint_transition state t ≡ ok state'
    → (e : PhaseEndpoint) × (lookup t.endpoint state.endpoints ≡ some e)
      × (lookup t.endpoint state'.endpoints ≡ some (record e { state = judged t.action }))
      × Recorded state state' e t (verdict_of t.action)
unfolding apply_endpoint_transition
apply_endpoint_transition-Recorded state state' t k h =
    let (e, found, h₁) = >>=-eq-ok (or_fail (lookup t.endpoint state.endpoints) _) _ h in
    let (_, current, h₂) = >>=-eq-ok (reject_if (t.generation != e.generation) _) _ h₁ in
    let (r, acted, h₃) = >>=-eq-ok (endpoint_action t.action state e t) _ h₂ in
    let new = endpoint_action-Recorded t.action state r.0 e r.1 t k acted in
    let after = endpoint_action-judged t.action state r.0 e r.1 t k acted in
    let stored = lookup-insert_self t.endpoint r.1 r.0.endpoints in
    let same : r.0.results ≡ state'.results = ground arith in
    (
      e,
      or_fail-eq-ok _ _ found,
      ground arith,
      record {
        result = new.result;
        fresh = new.fresh;
        written = ground arith;
        endpoint = new.endpoint;
        binding = new.binding;
        output = new.output;
        nonempty = new.nonempty;
        verdict = new.verdict;
      },
    )

endpoint_action-keeps :
    (a : Action) (state state' : GraphState) (e e' : PhaseEndpoint) (t : GraphTransition)
    (id : String) (r : PhaseResult)
    → endpoint_action a state e t ≡ ok (state', e')
    → lookup id state.results ≡ some r
    → lookup id state'.results ≡ some r
unfolding endpoint_action require_result_for_transition
endpoint_action-keeps Action.satisfied state state' e e' t id r h k = ground (
  arith,
  lookup-insert (result_id e t.result Verdict.satisfied) id
      (record t.result { id = result_id e t.result Verdict.satisfied; verdict = Verdict.satisfied })
      state.results,
)
endpoint_action-keeps Action.rejected state state' e e' t id r h k = ground (
  arith,
  lookup-insert (result_id e t.result Verdict.rejected) id
      (record t.result { id = result_id e t.result Verdict.rejected; verdict = Verdict.rejected })
      state.results,
)
endpoint_action-keeps _ state state' e e' t id r h k = ground arith

apply_target-keeps :
    (k : TransitionTarget) (state state' : GraphState) (t : GraphTransition) (id : String)
    (r : PhaseResult)
    → apply_target k state t ≡ ok state'
    → lookup id state.results ≡ some r
    → lookup id state'.results ≡ some r
unfolding apply_target apply_endpoint_transition apply_blocker_transition apply_task_transition
    task_action reopen_execution_round
apply_target-keeps TransitionTarget.phase_endpoint state state' t id r h k =
    let (e, found, h₁) = >>=-eq-ok (or_fail (lookup t.endpoint state.endpoints) _) _ h in
    let (_, current, h₂) = >>=-eq-ok (reject_if (t.generation != e.generation) _) _ h₁ in
    let (s, acted, h₃) = >>=-eq-ok (endpoint_action t.action state e t) _ h₂ in
    let kept = endpoint_action-keeps t.action state s.0 e s.1 t id r acted k in ground arith
apply_target-keeps TransitionTarget.blocker state state' t id r h k = ground arith
apply_target-keeps TransitionTarget.task state state' t id r h k = ground arith
apply_target-keeps (TransitionTarget.other s) state state' t id r h k = cc

-- No transition changes or removes a result.
pub apply_transition-keeps_results :
    (state state' : GraphState) (t : GraphTransition) (id : String) (r : PhaseResult)
    → apply_transition state t ≡ ok state'
    → lookup id state.results ≡ some r
    → lookup id state'.results ≡ some r
unfolding apply_transition
apply_transition-keeps_results state state' t id r h k =
    apply_target-keeps t.target_kind state state' t id r h k
