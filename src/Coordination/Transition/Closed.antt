-- ===== src/Coordination/Transition/Closed.antt =====
-- The terminal states of tasks and blockers, and what closes a task, in
-- internal/coordination/transition.go.
use threadmill_agent_teams.Base.{
  subst, ◌!=◌, nat_eq, ◌≡◌, ◌≢◌, some, String, lookup, string_eq, arith, lookup-insert,
}
use threadmill_agent_teams.Kernel.Errors.{ok, reject_if, or_fail, >>=-eq-ok}
use threadmill_agent_teams.Coordination.Types.{
  EndpointId, EndpointState, TaskOutcome, BlockerState, TransitionTarget, Action, Task, Blocker,
  PhaseEndpoint, GraphState, GraphTransition, phase_endpoint_ref_eq, task_outcome_eq,
}
use threadmill_agent_teams.Coordination.Graph.Acyclic.{at}
use threadmill_agent_teams.Coordination.Transition.Others.{
  apply_blocker_transition, blocker_action, apply_task_transition, task_action,
  reopen_execution_round, require_verify_satisfied,
}
use threadmill_agent_teams.Coordination.Transition.Apply.{apply_target, apply_transition}
use threadmill_agent_teams.Coordination.Transition.Machine.{
  or_fail-eq-ok, apply_endpoint_transition-Step,
}

task_action-needs-active :
    (a : Action) (state state' : GraphState) (task task' : Task) (t : GraphTransition)
    → task_action a state task t ≡ ok (state', task')
    → (task.outcome ≡ TaskOutcome.active)
      × (state'.tasks ≡ state.tasks)
      × (state'.blockers ≡ state.blockers)
unfolding task_action reopen_execution_round
task_action-needs-active Action.done state state' task task' t h = ground arith
task_action-needs-active Action.canceled state state' task task' t h = ground arith
task_action-needs-active Action.failed state state' task task' t h = ground arith
task_action-needs-active Action.reopen_round state state' task task' t h = ground arith
task_action-needs-active _ state state' task task' t h = cc

blocker_action-needs-active :
    (a : Action) (b b' : Blocker) → blocker_action a b ≡ ok b' → b.state ≡ BlockerState.active
unfolding blocker_action
blocker_action-needs-active Action.resolved b b' h = ground arith
blocker_action-needs-active Action.denied b b' h = ground arith
blocker_action-needs-active Action.obsolete b b' h = ground arith
blocker_action-needs-active _ b b' h = cc

apply_target-keeps_task :
    (k : TransitionTarget) (state state' : GraphState) (t : GraphTransition) (id : String)
    (task : Task)
    → apply_target k state t ≡ ok state'
    → lookup id state.tasks ≡ some task
    → task.outcome ≢ TaskOutcome.active
    → lookup id state'.tasks ≡ some task
unfolding apply_target apply_blocker_transition apply_task_transition
apply_target-keeps_task TransitionTarget.phase_endpoint state state' t id task h found closed =
    let effect = apply_endpoint_transition-Step state state' t h in rw effect.tasks found
apply_target-keeps_task TransitionTarget.blocker state state' t id task h found closed =
    ground arith
apply_target-keeps_task TransitionTarget.task state state' t id task h found closed =
    let (old, at_old, h₁) = >>=-eq-ok (or_fail (lookup t.task_id state.tasks) _) _ h in
    let (r, acted, h₂) = >>=-eq-ok (task_action t.action state old t) _ h₁ in
    let was = or_fail-eq-ok _ _ at_old in
    let needs = task_action-needs-active t.action state r.0 old r.1 t acted in
    ground (arith, lookup-insert t.task_id id r.1 r.0.tasks)
apply_target-keeps_task (TransitionTarget.other s) state state' t id task h found closed = cc

apply_target-keeps_blocker :
    (k : TransitionTarget) (state state' : GraphState) (t : GraphTransition) (id : String)
    (b : Blocker)
    → apply_target k state t ≡ ok state'
    → lookup id state.blockers ≡ some b
    → b.state ≢ BlockerState.active
    → lookup id state'.blockers ≡ some b
unfolding apply_target apply_blocker_transition apply_task_transition
apply_target-keeps_blocker TransitionTarget.phase_endpoint state state' t id b h found closed =
    let effect = apply_endpoint_transition-Step state state' t h in rw effect.blockers found
apply_target-keeps_blocker TransitionTarget.blocker state state' t id b h found closed =
    let (old, at_old, h₁) = >>=-eq-ok (or_fail (lookup t.blocker_id state.blockers) _) _ h in
    let (r, acted, h₂) = >>=-eq-ok (blocker_action t.action old) _ h₁ in
    let was = or_fail-eq-ok _ _ at_old in
    let needs = blocker_action-needs-active t.action old r acted in
    ground (arith, lookup-insert t.blocker_id id r state.blockers)
apply_target-keeps_blocker TransitionTarget.task state state' t id b h found closed =
    let (old, at_old, h₁) = >>=-eq-ok (or_fail (lookup t.task_id state.tasks) _) _ h in
    let (r, acted, h₂) = >>=-eq-ok (task_action t.action state old t) _ h₁ in
    let needs = task_action-needs-active t.action state r.0 old r.1 t acted in ground arith
apply_target-keeps_blocker (TransitionTarget.other s) state state' t id b h found closed = cc

-- A task that is done, canceled or failed is changed by no transition.
pub apply_transition-keeps_closed_task :
    (state state' : GraphState) (t : GraphTransition) (id : String) (task : Task)
    → apply_transition state t ≡ ok state'
    → lookup id state.tasks ≡ some task
    → task.outcome ≢ TaskOutcome.active
    → lookup id state'.tasks ≡ some task
unfolding apply_transition
apply_transition-keeps_closed_task state state' t id task h =
    apply_target-keeps_task t.target_kind state state' t id task h

-- A blocker that is resolved, denied or obsolete is changed by no transition.
apply_transition-keeps_decided_blocker :
    (state state' : GraphState) (t : GraphTransition) (id : String) (b : Blocker)
    → apply_transition state t ≡ ok state'
    → lookup id state.blockers ≡ some b
    → b.state ≢ BlockerState.active
    → lookup id state'.blockers ≡ some b
unfolding apply_transition
apply_transition-keeps_decided_blocker state state' t id b h =
    apply_target-keeps_blocker t.target_kind state state' t id b h

task_action-done :
    (a : Action) (state state' : GraphState) (task task' : Task) (t : GraphTransition)
    → task_action a state task t ≡ ok (state', task')
    → task'.outcome ≡ TaskOutcome.done
    → (verify : PhaseEndpoint) × (lookup (at t.task_id EndpointId.verify) state.endpoints
        ≡ some verify)
      × (verify.state ≡ EndpointState.satisfied)
unfolding task_action require_verify_satisfied
task_action-done Action.done state state' task task' t h k =
    let (_, active, h₁) = >>=-eq-ok (reject_if (task.outcome != TaskOutcome.active) _) _ h in
    let (_, verified, h₂) = >>=-eq-ok (require_verify_satisfied state t.task_id) _ h₁ in
    let (verify, found, h₃) =
      >>=-eq-ok (or_fail (lookup (at t.task_id EndpointId.verify) state.endpoints) _) _ verified in
    (verify, or_fail-eq-ok _ _ found, ground arith)
task_action-done Action.canceled state state' task task' t h k = ground arith
task_action-done Action.failed state state' task task' t h k = ground arith
task_action-done Action.reopen_round state state' task task' t h k = ground arith
task_action-done _ state state' task task' t h k = cc

apply_target-done :
    (k : TransitionTarget) (state state' : GraphState) (t : GraphTransition) (id : String)
    (old new : Task)
    → apply_target k state t ≡ ok state'
    → lookup id state.tasks ≡ some old
    → old.outcome ≢ TaskOutcome.done
    → lookup id state'.tasks ≡ some new
    → new.outcome ≡ TaskOutcome.done
    → (verify : PhaseEndpoint) × (lookup (at id EndpointId.verify) state.endpoints ≡ some verify)
      × (verify.state ≡ EndpointState.satisfied)
unfolding apply_target apply_blocker_transition apply_task_transition
apply_target-done TransitionTarget.phase_endpoint state state' t id old new h found fresh now done =
    let effect = apply_endpoint_transition-Step state state' t h in
    let same = effect.tasks in absurd (ground arith)
apply_target-done TransitionTarget.blocker state state' t id old new h found fresh now done =
    absurd (ground arith)
apply_target-done TransitionTarget.task state state' t id old new h found fresh now done =
    let (task, at_task, h₁) = >>=-eq-ok (or_fail (lookup t.task_id state.tasks) _) _ h in
    let (r, acted, h₂) = >>=-eq-ok (task_action t.action state task t) _ h₁ in
    let needs = task_action-needs-active t.action state r.0 task r.1 t acted in
    elim (string_eq.dec t.task_id id) [
      | yes p ↦
          let closed : r.1.outcome ≡ TaskOutcome.done =
            ground (arith, lookup-insert t.task_id id r.1 r.0.tasks) in
          subst
            (λ (k : String).
              (verify : PhaseEndpoint) × (lookup (at k EndpointId.verify) state.endpoints
                ≡ some verify)
              × (verify.state ≡ EndpointState.satisfied))
            p (task_action-done t.action state r.0 task r.1 t acted closed)
      | no q ↦ absurd (ground (arith, lookup-insert t.task_id id r.1 r.0.tasks))
    ]
apply_target-done (TransitionTarget.other s) state state' t id old new h found fresh now done = cc

-- A task becomes done only while its verify endpoint is satisfied.
pub apply_transition-done :
    (state state' : GraphState) (t : GraphTransition) (id : String) (old new : Task)
    → apply_transition state t ≡ ok state'
    → lookup id state.tasks ≡ some old
    → old.outcome ≢ TaskOutcome.done
    → lookup id state'.tasks ≡ some new
    → new.outcome ≡ TaskOutcome.done
    → (verify : PhaseEndpoint) × (lookup (at id EndpointId.verify) state.endpoints ≡ some verify)
      × (verify.state ≡ EndpointState.satisfied)
unfolding apply_transition
apply_transition-done state state' t id old new h =
    apply_target-done t.target_kind state state' t id old new h
