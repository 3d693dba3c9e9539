-- ===== src/Coordination/Transition/Generations.antt =====
-- Generations and bindings under internal/coordination/transition.go: a binding belongs to one
-- generation of an endpoint.
use threadmill_agent_teams.Base.{
  sym, subst, ◌+◌, ◌≡◌, refl, ◌≢◌, ◌⊎◌, inl, inr, some, String, Bool, true, false, List, lookup,
  insert, string_eq, arith, lookup-insert,
}
use threadmill_agent_teams.Kernel.Errors.{ok-injective, ok, or_fail, >>=-eq-ok}
use threadmill_agent_teams.Kernel.Revision.{u64}
use threadmill_agent_teams.Coordination.Types.{
  EndpointId, EndpointState, TransitionTarget, Action, Task, PhaseEndpointRef, PhaseEndpoint,
  GraphState, GraphTransition, phase_endpoint_ref_eq,
}
use threadmill_agent_teams.Coordination.Graph.Acyclic.{at}
use threadmill_agent_teams.Coordination.Transition.Others.{
  apply_blocker_transition, apply_task_transition, task_action, reopen_execution_round, reopen,
  require_reopenable_round_endpoint,
}
use threadmill_agent_teams.Coordination.Transition.Apply.{apply_target, apply_transition}
use threadmill_agent_teams.Coordination.Transition.Machine.{
  EndpointStep, submit, satisfy, reject, hold, release, stop, EndpointEffect,
  apply_endpoint_transition-Step, or_fail-eq-ok,
}

-- The endpoint stays in its generation with its binding, or enters the next generation, pending and
-- under another binding.
pub record Evolves (e e' : PhaseEndpoint) : Type 0 where
  pub ref : e'.ref ≡ e.ref
  pub era :
      ((e'.generation ≡ e.generation)
        × (e'.binding_ref ≡ e.binding_ref)
        × (e'.spec_ref ≡ e.spec_ref))
      ⊎ ((e'.generation ≡ u64 (e.generation + 1))
          × (e'.binding_ref ≢ e.binding_ref)
          × (e'.state ≡ EndpointState.pending))

pub EndpointStep-Evolves : {e e' : PhaseEndpoint} → EndpointStep e e' → Evolves e e'
EndpointStep-Evolves (submit h q) = ground arith
EndpointStep-Evolves (satisfy h k q) = ground arith
EndpointStep-Evolves (reject h k q) = ground arith
EndpointStep-Evolves (EndpointStep.reopen h s p r g b) = record { ref = r; era = inr (g, b, s) }
EndpointStep-Evolves (hold q) = ground arith
EndpointStep-Evolves (release h q) = ground arith
EndpointStep-Evolves (stop h s p r g b) = record { ref = r; era = inr (g, b, s) }

abbrev pub Endpoints : Type 0
Endpoints = List (PhaseEndpointRef × PhaseEndpoint)

-- Every endpoint is still there, and has evolved.
abbrev pub AllEvolve : Endpoints → Endpoints → Type 0
AllEvolve m m' =
    (ref : PhaseEndpointRef) (e : PhaseEndpoint)
    → lookup ref m ≡ some e
    → (e' : PhaseEndpoint) × (lookup ref m' ≡ some e') × Evolves e e'

Evolves-refl : (e : PhaseEndpoint) → Evolves e e
Evolves-refl e = record { ref = refl; era = inl (refl, refl, refl) }

AllEvolve-insert :
    (m m' : Endpoints) (k : PhaseEndpointRef) (v v' : PhaseEndpoint)
    → AllEvolve m m'
    → lookup k m ≡ some v
    → Evolves v v'
    → AllEvolve m (insert k v' m')
AllEvolve-insert m m' k v v' all found step ref e h = elim (phase_endpoint_ref_eq.dec k ref) [
  | yes p ↦ (v', ground (arith, lookup-insert k ref v' m'), ground arith)
  | no q ↦
      let (e', at_ref, evolves) = all ref e h in
      (e', ground (arith, lookup-insert k ref v' m'), evolves)
]

AllEvolve-refl : (m : Endpoints) → AllEvolve m m
AllEvolve-refl m ref e h = (e, h, Evolves-refl e)

reopen-Evolves :
    (name : String) (e : PhaseEndpoint) (b : String) (pend : Bool)
    → require_reopenable_round_endpoint name e b pend ≡ ok tt
    → Evolves e (reopen e b)
unfolding require_reopenable_round_endpoint reopen
reopen-Evolves name e b pend h = ground arith

-- The state that a round's reopening writes.
abbrev pub rolled : GraphState → GraphTransition → PhaseEndpoint → PhaseEndpoint → GraphState
rolled state t execute verify = record state {
  endpoints = insert (at t.task_id EndpointId.verify) (reopen verify t.verify_binding_ref) (
      insert (at t.task_id EndpointId.execute) (reopen execute t.execute_binding_ref)
        state.endpoints);
}

-- What a reopened round has met and written.
pub record RoundEffect (state state' : GraphState) (t : GraphTransition) : Type 0 where
  pub plan : PhaseEndpoint
  pub execute : PhaseEndpoint
  pub verify : PhaseEndpoint
  pub found_plan : lookup (at t.task_id EndpointId.plan) state.endpoints ≡ some plan
  pub found_execute : lookup (at t.task_id EndpointId.execute) state.endpoints ≡ some execute
  pub found_verify : lookup (at t.task_id EndpointId.verify) state.endpoints ≡ some verify
  pub planned : plan.state ≡ EndpointState.satisfied
  pub execute_ok :
      require_reopenable_round_endpoint "execute" execute t.execute_binding_ref false ≡ ok tt
  pub verify_ok :
      require_reopenable_round_endpoint "verify" verify t.verify_binding_ref true ≡ ok tt
  pub written : state' ≡ rolled state t execute verify

pub reopen_execution_round-RoundEffect :
    (state state' : GraphState) (t : GraphTransition)
    → reopen_execution_round state t ≡ ok state'
    → RoundEffect state state' t
unfolding reopen_execution_round
reopen_execution_round-RoundEffect state state' t h =
    let (plan, at_plan, h₁) =
      >>=-eq-ok (or_fail (lookup (at t.task_id EndpointId.plan) state.endpoints) _) _ h in
    let (execute, at_execute, h₂) =
      >>=-eq-ok (or_fail (lookup (at t.task_id EndpointId.execute) state.endpoints) _) _ h₁ in
    let (verify, at_verify, h₃) =
      >>=-eq-ok (or_fail (lookup (at t.task_id EndpointId.verify) state.endpoints) _) _ h₂ in
    record {
      plan = plan;
      execute = execute;
      verify = verify;
      found_plan = or_fail-eq-ok _ _ at_plan;
      found_execute = or_fail-eq-ok _ _ at_execute;
      found_verify = or_fail-eq-ok _ _ at_verify;
      planned = ground arith;
      execute_ok = ground arith;
      verify_ok = ground arith;
      written = ground arith;
    }

reopen_round-AllEvolve :
    (state state' : GraphState) (t : GraphTransition)
    → RoundEffect state state' t
    → AllEvolve state.endpoints state'.endpoints
reopen_round-AllEvolve state state' t r =
    let executed =
      AllEvolve-insert state.endpoints _ (at t.task_id EndpointId.execute) r.execute
        (reopen r.execute t.execute_binding_ref) (AllEvolve-refl state.endpoints) r.found_execute
        (reopen-Evolves _ _ _ _ r.execute_ok) in
    subst (λ (s : GraphState). AllEvolve state.endpoints s.endpoints) (sym r.written)
      (AllEvolve-insert state.endpoints _ (at t.task_id EndpointId.verify) r.verify
        (reopen r.verify t.verify_binding_ref) executed r.found_verify
        (reopen-Evolves _ _ _ _ r.verify_ok))

task_action-AllEvolve :
    (a : Action) (state state' : GraphState) (task task' : Task) (t : GraphTransition)
    → task_action a state task t ≡ ok (state', task')
    → AllEvolve state.endpoints state'.endpoints
unfolding task_action
task_action-AllEvolve Action.done state state' task task' t h ref e at_ref =
    (e, ground arith, Evolves-refl e)
task_action-AllEvolve Action.canceled state state' task task' t h ref e at_ref =
    (e, ground arith, Evolves-refl e)
task_action-AllEvolve Action.failed state state' task task' t h ref e at_ref =
    (e, ground arith, Evolves-refl e)
task_action-AllEvolve Action.reopen_round state state' task task' t h ref e at_ref =
    reopen_round-AllEvolve state state' t
      (reopen_execution_round-RoundEffect state state' t (ground arith)) ref e at_ref
task_action-AllEvolve _ state state' task task' t h ref e at_ref = cc

apply_task_transition-AllEvolve :
    (state state' : GraphState) (t : GraphTransition)
    → apply_task_transition state t ≡ ok state'
    → AllEvolve state.endpoints state'.endpoints
unfolding apply_task_transition
apply_task_transition-AllEvolve state state' t h =
    let (task, _, h₁) = >>=-eq-ok (or_fail (lookup t.task_id state.tasks) _) _ h in
    let (r, acted, h₂) = >>=-eq-ok (task_action t.action state task t) _ h₁ in
    subst (λ (s : GraphState). AllEvolve state.endpoints s.endpoints) (ok-injective h₂)
      (task_action-AllEvolve t.action state r.0 task r.1 t acted)

apply_endpoint_transition-AllEvolve :
    (state state' : GraphState) (t : GraphTransition)
    → EndpointEffect state state' t
    → AllEvolve state.endpoints state'.endpoints
apply_endpoint_transition-AllEvolve state state' t effect =
    subst (AllEvolve state.endpoints) (sym effect.written) (
      AllEvolve-insert state.endpoints _ t.endpoint effect.before effect.after
        (AllEvolve-refl state.endpoints) effect.found (EndpointStep-Evolves effect.step))

pub apply_blocker_transition-endpoints :
    (state state' : GraphState) (t : GraphTransition)
    → apply_blocker_transition state t ≡ ok state'
    → state.endpoints ≡ state'.endpoints
unfolding apply_blocker_transition
apply_blocker_transition-endpoints state state' t h = ground arith

apply_target-AllEvolve :
    (k : TransitionTarget) (state state' : GraphState) (t : GraphTransition)
    → apply_target k state t ≡ ok state'
    → AllEvolve state.endpoints state'.endpoints
unfolding apply_target
apply_target-AllEvolve TransitionTarget.phase_endpoint state state' t h =
    apply_endpoint_transition-AllEvolve state state' t
      (apply_endpoint_transition-Step state state' t h)
apply_target-AllEvolve TransitionTarget.blocker state state' t h =
    subst (AllEvolve state.endpoints) (apply_blocker_transition-endpoints state state' t h)
      (AllEvolve-refl state.endpoints)
apply_target-AllEvolve TransitionTarget.task state state' t h =
    apply_task_transition-AllEvolve state state' t h
apply_target-AllEvolve (TransitionTarget.other s) state state' t h = cc

-- A successful transition loses no endpoint, and each keeps its generation, binding and spec
-- together, or enters the next generation, pending and under a binding other than the one before.
pub apply_transition-Evolves :
    (state state' : GraphState) (t : GraphTransition) (ref : PhaseEndpointRef) (e : PhaseEndpoint)
    → apply_transition state t ≡ ok state'
    → lookup ref state.endpoints ≡ some e
    → (e' : PhaseEndpoint) × (lookup ref state'.endpoints ≡ some e') × Evolves e e'
unfolding apply_transition
apply_transition-Evolves state state' t ref e h =
    apply_target-AllEvolve t.target_kind state state' t h ref e
