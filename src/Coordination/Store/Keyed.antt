-- ===== src/Coordination/Store/Keyed.antt =====
-- In the store of internal/coordination/memory_store.go each endpoint stands under its own reference;
-- what that means for the claims of command_store.go.
use threadmill_agent_teams.Base.{
  true, false, ℕ, ◌≡◌, inl, inr, refl, sym, subst, some, List, [], ◌∷◌, String, lookup, insert,
  string_eq, nat_eq, arith, lookup-insert,
}
use threadmill_agent_teams.Kernel.Errors.{Result, ok, or_fail, ok-injective, >>=-eq-ok}
use threadmill_agent_teams.Kernel.Revision.{Revision}
use threadmill_agent_teams.Coordination.Types.{
  EndpointId, TransitionTarget, Action, Task, CommandAction, PhaseEndpointRef, PhaseEndpoint,
  PhaseCommand, GraphState, GraphSnapshot, PendingSubgraph, GraphTransition, RuntimeState,
  phase_endpoint_ref_eq,
}
use threadmill_agent_teams.Coordination.Graph.Acyclic.{at}
use threadmill_agent_teams.Coordination.Transition.Apply.{apply_transition, apply_target}
use threadmill_agent_teams.Coordination.Transition.Others.{
  apply_task_transition, task_action, reopen,
}
use threadmill_agent_teams.Coordination.Transition.Machine.{
  EndpointEffect, apply_endpoint_transition-Step,
}
use threadmill_agent_teams.Coordination.Transition.Generations.{
  Endpoints, EndpointStep-Evolves, RoundEffect, reopen_execution_round-RoundEffect,
  apply_blocker_transition-endpoints,
}
use threadmill_agent_teams.Coordination.Pending.Apply.{apply_pending_subgraph, put_endpoints}
use threadmill_agent_teams.Coordination.Runtime.Commands.{
  claim_lease_and_append_command, with_runtime, no_command,
}
use threadmill_agent_teams.Coordination.Runtime.Claims.{claim-once}
use threadmill_agent_teams.Coordination.Store.Project.{
  MemoryStore, new_memory_store, new_project, new_graph_state, ensure_project,
}
use threadmill_agent_teams.Coordination.Store.Commits.{
  Wrote, transition-Wrote, replace_pending-Wrote, transition_graph-Admitted,
  pending_graph-AdmittedPending,
}
use threadmill_agent_teams.Coordination.Store.Invariant.{
  Write, transitions, replaces, runs, write, run, runtime_write-graph,
}

-- Each endpoint stands under its own reference.
abbrev pub Keyed : Endpoints → Type 0
Keyed m = (ref : PhaseEndpointRef) (e : PhaseEndpoint) → lookup ref m ≡ some e → e.ref ≡ ref

Keyed-insert :
    (m : Endpoints) (k : PhaseEndpointRef) (v : PhaseEndpoint)
    → Keyed m
    → v.ref ≡ k
    → Keyed (insert k v m)
Keyed-insert m k v keyed named ref e h = ground (arith, lookup-insert k ref v m, keyed ref e)

Keyed-put : (es : List PhaseEndpoint) (m : Endpoints) → Keyed m → Keyed (put_endpoints es m)
unfolding put_endpoints
Keyed-put [] m keyed = keyed
Keyed-put (e ∷ es) m keyed = Keyed-put es (insert e.ref e m) (Keyed-insert m e.ref e keyed refl)

Keyed-endpoint :
    (state state' : GraphState) (t : GraphTransition)
    → EndpointEffect state state' t
    → Keyed state.endpoints
    → Keyed state'.endpoints
Keyed-endpoint state state' t effect keyed = subst Keyed (sym effect.written) (
    Keyed-insert state.endpoints t.endpoint effect.after keyed
      (cc ((EndpointStep-Evolves effect.step).ref, keyed t.endpoint effect.before effect.found)))

Keyed-round :
    (state state' : GraphState) (t : GraphTransition)
    → RoundEffect state state' t
    → Keyed state.endpoints
    → Keyed state'.endpoints
unfolding reopen
Keyed-round state state' t r keyed =
    let executed =
      Keyed-insert state.endpoints (at t.task_id EndpointId.execute)
        (reopen r.execute t.execute_binding_ref) keyed
        (keyed (at t.task_id EndpointId.execute) r.execute r.found_execute) in
    subst (λ (s : GraphState). Keyed s.endpoints) (sym r.written)
      (Keyed-insert _ (at t.task_id EndpointId.verify) (reopen r.verify t.verify_binding_ref)
        executed (keyed (at t.task_id EndpointId.verify) r.verify r.found_verify))

Keyed-task_action :
    (a : Action) (state state' : GraphState) (task task' : Task) (t : GraphTransition)
    → task_action a state task t ≡ ok (state', task')
    → Keyed state.endpoints
    → Keyed state'.endpoints
unfolding task_action
Keyed-task_action Action.done state state' task task' t h keyed ref e k =
    ground (arith, keyed ref e)
Keyed-task_action Action.canceled state state' task task' t h keyed ref e k =
    ground (arith, keyed ref e)
Keyed-task_action Action.failed state state' task task' t h keyed ref e k =
    ground (arith, keyed ref e)
Keyed-task_action Action.reopen_round state state' task task' t h keyed ref e k =
    Keyed-round state state' t (reopen_execution_round-RoundEffect state state' t (ground arith))
      keyed ref e k
Keyed-task_action _ state state' task task' t h keyed ref e k = cc

Keyed-target :
    (k : TransitionTarget) (state state' : GraphState) (t : GraphTransition)
    → apply_target k state t ≡ ok state'
    → Keyed state.endpoints
    → Keyed state'.endpoints
unfolding apply_target apply_task_transition
Keyed-target TransitionTarget.phase_endpoint state state' t h keyed ref x at_ref =
    Keyed-endpoint state state' t (apply_endpoint_transition-Step state state' t h) keyed ref x
      at_ref
Keyed-target TransitionTarget.blocker state state' t h keyed ref x at_ref =
    subst Keyed (apply_blocker_transition-endpoints state state' t h) keyed ref x at_ref
Keyed-target TransitionTarget.task state state' t h keyed ref x at_ref =
    let (task, _, h₁) = >>=-eq-ok (or_fail (lookup t.task_id state.tasks) _) _ h in
    let (r, acted, h₂) = >>=-eq-ok (task_action t.action state task t) _ h₁ in
    subst (λ (s : GraphState). Keyed s.endpoints) (ok-injective h₂)
      (Keyed-task_action t.action state r.0 task r.1 t acted keyed) ref x at_ref
Keyed-target (TransitionTarget.other s) state state' t h keyed ref x at_ref = cc

Keyed-applied :
    (state state' : GraphState) (t : GraphTransition)
    → apply_transition state t ≡ ok state'
    → Keyed state.endpoints
    → Keyed state'.endpoints
unfolding apply_transition
Keyed-applied state state' t = Keyed-target t.target_kind state state' t

Keyed-replaced :
    (current : GraphState) (next : PendingSubgraph)
    → Keyed current.endpoints
    → Keyed (apply_pending_subgraph current next).endpoints
unfolding apply_pending_subgraph
Keyed-replaced current next keyed = Keyed-put next.endpoints current.endpoints keyed

abbrev pub AllKeyed : MemoryStore → Type 0
AllKeyed s = (id : String) → Keyed (ensure_project s id).current.endpoints

Wrote-AllKeyed :
    (s s' : MemoryStore) (id : String) (answer : Result GraphSnapshot)
    (admitted : Result GraphState)
    → ((g : GraphState) → admitted ≡ ok g → Keyed g.endpoints)
    → Wrote s s' id answer admitted
    → AllKeyed s
    → AllKeyed s'
Wrote-AllKeyed s s' id answer admitted new (inl (e, _, same)) keyed q ref x h =
    keyed q ref x (ground (arith, same q))
Wrote-AllKeyed s s' id answer admitted new (inr (g, ok_g, _, n)) keyed q ref x h =
    elim (string_eq.dec id q) [
      | yes here ↦
          let now : (ensure_project s' q).current ≡ g =
            subst (λ (k : String). (ensure_project s' k).current ≡ g) here n.current in
          new g ok_g ref x (ground arith)
      | no there ↦ keyed q ref x (ground (arith, n.others q there))
    ]

write-AllKeyed : (s : MemoryStore) (w : Write) → AllKeyed s → AllKeyed (write s w)
unfolding write
write-AllKeyed s (transitions id expected t) keyed q ref x h₀ =
    Wrote-AllKeyed s _ id _ _
      (λ g h.
        let was = transition_graph-Admitted (ensure_project s id) expected t g h in
        Keyed-applied _ g t was.applied (keyed id))
      (transition-Wrote s id expected t) keyed q ref x h₀
write-AllKeyed s (replaces id next) keyed q ref x h₀ =
    Wrote-AllKeyed s _ id _ _
      (λ g h.
        let was = pending_graph-AdmittedPending (ensure_project s id) next g h in
        subst (λ (k : GraphState). Keyed k.endpoints) (sym was.applied)
          (Keyed-replaced (ensure_project s id).current next (keyed id)))
      (replace_pending-Wrote s id next) keyed q ref x h₀
write-AllKeyed s (runs id w) keyed q ref x h =
    keyed q ref x (ground (arith, (runtime_write-graph s id w q).1))

run-AllKeyed : (s : MemoryStore) (ws : List Write) → AllKeyed s → AllKeyed (run s ws)
unfolding run
run-AllKeyed s [] keyed = keyed
run-AllKeyed s (w ∷ ws) keyed = run-AllKeyed (write s w) ws (write-AllKeyed s w keyed)

-- After any writes to the graph and the runtime, each endpoint of a project's current graph stands
-- under its own reference.
pub run-Keyed :
    (ws : List Write) (id : String)
    → Keyed (ensure_project (run new_memory_store ws) id).current.endpoints
unfolding new_memory_store ensure_project lookup new_project new_graph_state
run-Keyed ws id = run-AllKeyed new_memory_store ws (λ q ref x h. cc) id

-- After any writes to the graph and the runtime, once a claim has created a command, a claim of the
-- same endpoint at the same generation made right after it, at any time and revision and for any
-- action, creates nothing and changes nothing.
pub run_claim-once :
    (ws : List Write) (id : String) (now now' : ℕ) (revision revision' : Revision)
    (e : PhaseEndpoint) (action action' : CommandAction) (cause_ref cause_ref' : String)
    (after : RuntimeState) (command : PhaseCommand)
    → claim_lease_and_append_command
        (ensure_project (run new_memory_store ws) id)
        now
        revision
        e
        action
        cause_ref
      ≡ ok (after, command, true)
    → claim_lease_and_append_command
        (with_runtime (ensure_project (run new_memory_store ws) id) after)
        now'
        revision'
        e
        action'
        cause_ref'
      ≡ ok (after, no_command, false)
run_claim-once ws id now now' revision revision' e action action' cause_ref cause_ref' after command
      h =
    claim-once (ensure_project (run new_memory_store ws) id) now now' revision revision' e action
      action' cause_ref cause_ref' after command (λ e'. run-Keyed ws id e.ref e') h
