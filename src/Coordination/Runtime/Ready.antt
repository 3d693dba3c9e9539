-- ===== src/Coordination/Runtime/Ready.antt =====
-- What `isRunnable` of internal/coordination/recovery.go waits for.
use threadmill_agent_teams.Base.{
  In, All-In, any-false, ◌≡◌, ◌≢◌, ◌⊎◌, true, false, some, inl, inr, String, lookup, string_eq,
  nat_eq, arith, Option-cases,
}
use threadmill_agent_teams.Coordination.Types.{
  EndpointId, TaskOutcome, EndpointState, RunPolicy, EdgeSignal, RequiredBy, BlockerState,
  LeaseState, CommandRecord, PhaseEndpoint, Edge, Blocker, Task, PhaseLease, phase_endpoint_ref_eq,
  lease_state_eq, endpoint_state_eq, task_outcome_eq, run_policy_eq, required_by_eq, edge_signal_eq,
}
use threadmill_agent_teams.Coordination.Graph.Acyclic.{at}
use threadmill_agent_teams.Coordination.Transition.Observed.{is_run_command}
use threadmill_agent_teams.Coordination.Runtime.View.{RuntimeView}
use threadmill_agent_teams.Coordination.Runtime.Runnable.{
  is_runnable, has_active_lease, holds_endpoint, pending_run, has_pending_run_command,
  builtin_predecessor_satisfied, start_edges_and_blockers_satisfied, start_edge_waits,
  start_blocker_waits,
}
use threadmill_agent_teams.Coordination.Runtime.Waits.{
  Satisfied, Done, Over, waits-edge, waits-Done, waits-known, waits-blocker, free-lease,
  not_pending-Over, predecessor-plan, predecessor-execute,
}

-- What starts an endpoint: its task is active, it is pending and enabled, bound and specified, and
-- neither the phase before it, a start edge, a start blocker, a lease nor a run command that is still
-- to be started holds it back.
pub record Ready (v : RuntimeView) (e : PhaseEndpoint) : Type 0 where
  pub task : (t : Task) × (lookup e.ref.task_id v.tasks ≡ some t) × (t.outcome ≡ TaskOutcome.active)
  pub state : e.state ≡ EndpointState.pending
  pub policy : e.run_policy ≡ RunPolicy.enabled
  pub bound : e.binding_ref ≢ ""
  pub specified : e.spec_ref ≢ ""
  pub executes :
      e.ref.endpoint_id ≡ EndpointId.execute → Satisfied v (at e.ref.task_id EndpointId.plan)
  pub verifies :
      e.ref.endpoint_id ≡ EndpointId.verify → Satisfied v (at e.ref.task_id EndpointId.execute)
  pub edges :
      (edge : Edge)
      → In edge v.edges
      → edge.to ≡ e.ref
      → edge.required_by ≡ RequiredBy.start
      → edge.signal ≡ EdgeSignal.phase_satisfied
      → Satisfied v edge.from
  pub done :
      (edge : Edge)
      → In edge v.edges
      → edge.to ≡ e.ref
      → edge.required_by ≡ RequiredBy.start
      → edge.signal ≡ EdgeSignal.task_done
      → Done v edge.from.task_id
  pub known :
      (edge : Edge)
      → In edge v.edges
      → edge.to ≡ e.ref
      → edge.required_by ≡ RequiredBy.start
      → (edge.signal ≡ EdgeSignal.phase_satisfied) ⊎ (edge.signal ≡ EdgeSignal.task_done)
  pub blockers :
      (b : Blocker)
      → In b v.blockers
      → b.target ≡ e.ref
      → b.required_by ≡ RequiredBy.start
      → (b.state ≢ BlockerState.active) × (b.state ≢ BlockerState.denied)
  pub leases :
      (l : String × PhaseLease)
      → In l v.leases
      → l.1.endpoint ≡ e.ref
      → l.1.generation ≡ e.generation
      → l.1.state ≢ LeaseState.active
  pub commands :
      (r : String × CommandRecord)
      → In r v.commands
      → r.1.command.endpoint ≡ e.ref
      → r.1.command.generation ≡ e.generation
      → is_run_command r.1.command ≡ true
      → Over r.1

-- The tests that a runnable endpoint passes.
record Tests (v : RuntimeView) (e : PhaseEndpoint) : Type 0 where
  task : (t : Task) × (lookup e.ref.task_id v.tasks ≡ some t) × (t.outcome ≡ TaskOutcome.active)
  state : e.state ≡ EndpointState.pending
  policy : e.run_policy ≡ RunPolicy.enabled
  before : builtin_predecessor_satisfied v e.ref ≡ true
  inputs : start_edges_and_blockers_satisfied v e.ref ≡ true
  bound : e.binding_ref ≢ ""
  specified : e.spec_ref ≢ ""
  lease : has_active_lease v e.ref e.generation ≡ false
  command : has_pending_run_command v e.ref e.generation ≡ false

is_runnable-Tests : (v : RuntimeView) (e : PhaseEndpoint) → is_runnable v e ≡ true → Tests v e
unfolding is_runnable
is_runnable-Tests v e h = elim (Option-cases (lookup e.ref.task_id v.tasks)) [
  | inl none_at ↦ absurd (ground arith)
  | inr (t, found) ↦ record {
    task = (t, found, ground arith);
    state = ground arith;
    policy = ground arith;
    before = ground arith;
    inputs = ground arith;
    bound = ground arith;
    specified = ground arith;
    lease = ground arith;
    command = ground arith;
  }
]

-- An endpoint is runnable only when it is ready to start: its task is active, it is pending and enabled,
-- with a binding and a spec; the phase before it, if any, is satisfied; each start edge to it has a known signal,
-- from a satisfied endpoint or a task that is done, as the signal says; no start blocker of it is active
-- or denied; no lease of it at its generation is active, and no run command of it at its generation is
-- still to be started.
pub is_runnable-Ready : (v : RuntimeView) (e : PhaseEndpoint) → is_runnable v e ≡ true → Ready v e
unfolding start_edges_and_blockers_satisfied has_active_lease has_pending_run_command
is_runnable-Ready v e h =
    let tests = is_runnable-Tests v e h in
    let inputs = tests.inputs in
    let lease = tests.lease in
    let command = tests.command in
    let edges = any-false (start_edge_waits v e.ref) v.edges (ground arith) in
    record {
      task = tests.task;
      state = tests.state;
      policy = tests.policy;
      bound = tests.bound;
      specified = tests.specified;
      executes = predecessor-plan v e tests.before;
      verifies = predecessor-execute v e tests.before;
      edges = λ edge at_edge. waits-edge v e.ref edge (All-In _ edge v.edges edges at_edge);
      done = λ edge at_edge. waits-Done v e.ref edge (All-In _ edge v.edges edges at_edge);
      known = λ edge at_edge. waits-known v e.ref edge (All-In _ edge v.edges edges at_edge);
      blockers = λ b at_b. waits-blocker e.ref b (
          All-In _ b v.blockers (any-false (start_blocker_waits e.ref) v.blockers (ground arith))
            at_b);
      leases = λ l at_l. free-lease e l (
          All-In _ l v.leases
            (any-false (λ (x : String × PhaseLease). holds_endpoint e.ref e.generation x.1) v.leases
              lease)
            at_l);
      commands = λ r at_r. not_pending-Over e r.1 (
          All-In _ r v.commands
            (any-false (λ (x : String × CommandRecord). pending_run e.ref e.generation x.1)
              v.commands command)
            at_r);
    }
