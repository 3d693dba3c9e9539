-- ===== src/Coordination/Transition/Machine.antt =====
-- The state machine of one phase endpoint, and the transitions of
-- internal/coordination/transition.go as its steps.
use threadmill_agent_teams.Base.{
  ◌!=◌, nat_eq, ◌+◌, ◌≡◌, ◌≢◌, ◌⊎◌, Option, some, none, lookup, insert, string_eq, arith,
}
use threadmill_agent_teams.Kernel.Errors.{Error, ok, reject_if, or_fail, >>=-eq-ok}
use threadmill_agent_teams.Kernel.Revision.{u64}
use threadmill_agent_teams.Coordination.Types.{
  EndpointState, RunPolicy, Action, PhaseEndpoint, GraphState, GraphTransition,
  phase_endpoint_ref_eq,
}
use threadmill_agent_teams.Coordination.Transition.Endpoint.{
  endpoint_action, apply_endpoint_transition, roll, require_result_for_transition,
  require_stop_evidence,
}

-- The steps of an endpoint: work is submitted, judged, and reopened in a new generation under a
-- new binding; a hold stops the judging, and only a held endpoint is released or stopped.
pub data EndpointStep (e e' : PhaseEndpoint) : Type 0 where
  submit :
      e.state ≡ EndpointState.pending
      → e' ≡ record e { state = EndpointState.submitted }
      → EndpointStep e e'
  satisfy :
      e.state ≡ EndpointState.submitted
      → e.run_policy ≢ RunPolicy.held
      → e' ≡ record e { state = EndpointState.satisfied }
      → EndpointStep e e'
  reject :
      e.state ≡ EndpointState.submitted
      → e.run_policy ≢ RunPolicy.held
      → e' ≡ record e { state = EndpointState.rejected }
      → EndpointStep e e'
  reopen :
      (e.state ≡ EndpointState.rejected) ⊎ (e.state ≡ EndpointState.pending)
      → e'.state ≡ EndpointState.pending
      → e'.run_policy ≡ e.run_policy
      → e'.ref ≡ e.ref
      → e'.generation ≡ u64 (e.generation + 1)
      → e'.binding_ref ≢ e.binding_ref
      → EndpointStep e e'
  hold : e' ≡ record e { run_policy = RunPolicy.held } → EndpointStep e e'
  release :
      e.run_policy ≡ RunPolicy.held
      → e' ≡ record e { run_policy = RunPolicy.enabled }
      → EndpointStep e e'
  stop :
      e.run_policy ≡ RunPolicy.held
      → e'.state ≡ EndpointState.pending
      → e'.run_policy ≡ RunPolicy.held
      → e'.ref ≡ e.ref
      → e'.generation ≡ u64 (e.generation + 1)
      → e'.binding_ref ≢ e.binding_ref
      → EndpointStep e e'

endpoint_action-Step :
    (a : Action) (state state' : GraphState) (e e' : PhaseEndpoint) (t : GraphTransition)
    → endpoint_action a state e t ≡ ok (state', e')
    → EndpointStep e e'
unfolding endpoint_action roll require_stop_evidence
endpoint_action-Step Action.submitted state state' e e' t h = submit (ground arith) (ground arith)
endpoint_action-Step Action.satisfied state state' e e' t h =
    satisfy (ground arith) (ground arith) (ground arith)
endpoint_action-Step Action.rejected state state' e e' t h =
    reject (ground arith) (ground arith) (ground arith)
endpoint_action-Step Action.reopened state state' e e' t h =
    reopen (ground arith) (ground arith) (ground arith) (ground arith) (ground arith) (ground arith)
endpoint_action-Step Action.held state state' e e' t h = hold (ground arith)
endpoint_action-Step Action.released state state' e e' t h = release (ground arith) (ground arith)
endpoint_action-Step Action.stopped state state' e e' t h =
    stop (ground arith) (ground arith) (ground arith) (ground arith) (ground arith) (ground arith)
endpoint_action-Step _ state state' e e' t h = cc

-- Results aside, the action leaves the graph alone.
pub endpoint_action-frame :
    (a : Action) (state state' : GraphState) (e e' : PhaseEndpoint) (t : GraphTransition)
    → endpoint_action a state e t ≡ ok (state', e')
    → (state'.endpoints ≡ state.endpoints)
      × (state'.tasks ≡ state.tasks)
      × (state'.edges ≡ state.edges)
      × (state'.blockers ≡ state.blockers)
unfolding endpoint_action require_result_for_transition
endpoint_action-frame Action.submitted state state' e e' t h = ground arith
endpoint_action-frame Action.satisfied state state' e e' t h = ground arith
endpoint_action-frame Action.rejected state state' e e' t h = ground arith
endpoint_action-frame Action.reopened state state' e e' t h = ground arith
endpoint_action-frame Action.held state state' e e' t h = ground arith
endpoint_action-frame Action.released state state' e e' t h = ground arith
endpoint_action-frame Action.stopped state state' e e' t h = ground arith
endpoint_action-frame _ state state' e e' t h = cc

pub record EndpointEffect (state state' : GraphState) (t : GraphTransition) : Type 0 where
  pub before : PhaseEndpoint
  pub after : PhaseEndpoint
  pub found : lookup t.endpoint state.endpoints ≡ some before
  pub current : t.generation ≡ before.generation
  pub step : EndpointStep before after
  pub written : state'.endpoints ≡ insert t.endpoint after state.endpoints
  pub tasks : state'.tasks ≡ state.tasks
  pub edges : state'.edges ≡ state.edges
  pub blockers : state'.blockers ≡ state.blockers

pub or_fail-eq-ok {ℓ} :
    {A : Type ℓ} (o : Option A) (e : Error) {a : A} → or_fail o e ≡ ok a → o ≡ some a
or_fail-eq-ok none e h = cc
or_fail-eq-ok (some a) e h = cc

-- A successful transition of an endpoint is a step of the endpoint's state machine at the
-- transition's generation, writes that endpoint and no other, and leaves tasks, edges and blockers
-- as they were.
pub apply_endpoint_transition-Step :
    (state state' : GraphState) (t : GraphTransition)
    → apply_endpoint_transition state t ≡ ok state'
    → EndpointEffect state state' t
unfolding apply_endpoint_transition
apply_endpoint_transition-Step state state' t h =
    let (e, found, h₁) = >>=-eq-ok (or_fail (lookup t.endpoint state.endpoints) _) _ h in
    let (_, current, h₂) = >>=-eq-ok (reject_if (t.generation != e.generation) _) _ h₁ in
    let (r, acted, h₃) = >>=-eq-ok (endpoint_action t.action state e t) _ h₂ in
    let frame = endpoint_action-frame t.action state r.0 e r.1 t acted in
    record {
      before = e;
      after = r.1;
      found = or_fail-eq-ok _ _ found;
      current = ground arith;
      step = endpoint_action-Step t.action state r.0 e r.1 t acted;
      written = ground arith;
      tasks = ground arith;
      edges = ground arith;
      blockers = ground arith;
    }
