-- ===== src/Coordination/Pending/Scope.antt =====
-- What the replacement of a pending subgraph in internal/coordination/validation.go may change.
use threadmill_agent_teams.Base.{
  In, All-In, All-map, any-false, ◌+◌, ◌≡◌, ◌≢◌, ◌⊎◌, inl, inr, refl, true, false, some, List, [],
  ◌∷◌, String, lookup, insert, mem, All, string_eq, nat_eq, arith, lookup-insert,
}
use threadmill_agent_teams.Kernel.Errors.{ok, each, each-eq-ok}
use threadmill_agent_teams.Kernel.Revision.{u64}
use threadmill_agent_teams.Coordination.Types.{
  EndpointState, LeaseState, PhaseEndpointRef, Task, PhaseEndpoint, GraphState, PendingSubgraph,
  PhaseLease, RuntimeState, phase_endpoint_ref_eq,
}
use threadmill_agent_teams.Coordination.Graph.Validation.{validate_endpoint}
use threadmill_agent_teams.Coordination.Pending.Validate.{
  refs, check_scope, replaces, replaces_found, has_definitive_dispatch_rejection, check_new_task,
  known_task, validate_pending_subgraph, validate_pending_subgraph_runtime, active_in,
}
use threadmill_agent_teams.Coordination.Pending.Apply.{
  apply_pending_subgraph, put_tasks, put_endpoints,
}

abbrev Checked : GraphState → RuntimeState → PhaseEndpoint → Type 0
Checked current runtime e =
    (validate_endpoint e ≡ ok tt)
    × (replaces_found runtime e (lookup e.ref current.endpoints) ≡ ok tt)

check_scope-Checked :
    (current : GraphState) (runtime : RuntimeState) (scope : List PhaseEndpointRef)
    (es : List PhaseEndpoint)
    → check_scope current runtime scope es ≡ ok tt
    → All (Checked current runtime) es
unfolding check_scope
check_scope-Checked current runtime scope [] h = tt
check_scope-Checked current runtime scope (e ∷ es) h = (
  (ground arith, ground arith),
  check_scope-Checked current runtime (e.ref ∷ scope) es (ground arith),
)

put_endpoints-lookup {ℓ} :
    (P : PhaseEndpoint → Type ℓ) (es : List PhaseEndpoint)
    (m : List (PhaseEndpointRef × PhaseEndpoint)) (ref : PhaseEndpointRef)
    → All P es
    → ((mem ref (refs es) ≡ false) × (lookup ref (put_endpoints es m) ≡ lookup ref m))
      ⊎ ((mem ref (refs es) ≡ true)
          × (e : PhaseEndpoint) × (e.ref ≡ ref)
          × (lookup ref (put_endpoints es m) ≡ some e)
          × P e)
unfolding put_endpoints refs mem
put_endpoints-lookup P [] m ref all = inl (refl, refl)
put_endpoints-lookup P (e ∷ es) m ref all =
    let stored = lookup-insert e.ref ref e m in
    elim (put_endpoints-lookup P es (insert e.ref e m) ref all.1) [
      | inr (later, e', named, found, p) ↦ inr (ground arith, e', named, found, p)
      | inl (later, same) ↦ elim (phase_endpoint_ref_eq.dec e.ref ref) [
        | yes here ↦ inr (ground arith, e, here, ground arith, all.0)
        | no there ↦ inl (ground arith, ground arith)
      ]
    ]

-- How an endpoint that was in the graph is replaced: pending, with its spec and its run policy, in
-- its generation with its binding, or in the next one under another binding, if its dispatch was
-- definitively rejected.
pub record Replaced (runtime : RuntimeState) (e e' : PhaseEndpoint) : Type 0 where
  pub pending : e.state ≡ EndpointState.pending
  pub spec : e'.spec_ref ≡ e.spec_ref
  pub policy : e'.run_policy ≡ e.run_policy
  pub era :
      ((e'.generation ≡ e.generation) × (e'.binding_ref ≡ e.binding_ref))
      ⊎ ((e'.generation ≡ u64 (e.generation + 1))
          × (e'.binding_ref ≢ e.binding_ref)
          × (has_definitive_dispatch_rejection runtime e ≡ true))

replaces-Replaced :
    (runtime : RuntimeState) (e e' : PhaseEndpoint)
    → replaces runtime e e' ≡ ok tt
    → Replaced runtime e e'
unfolding replaces
replaces-Replaced runtime e e' h = record {
  pending = ground arith;
  spec = ground arith;
  policy = ground arith;
  era = ground arith;
}

-- The parts of a replacement's check.
pub record Allowed (current : GraphState) (runtime : RuntimeState) (next : PendingSubgraph)
    : Type 0 where
  pub scope : check_scope current runtime [] next.endpoints ≡ ok tt
  pub tasks : each (check_new_task current next) next.tasks ≡ ok tt

pub validate_pending_subgraph-Allowed :
    (current : GraphState) (runtime : RuntimeState) (next : PendingSubgraph)
    → validate_pending_subgraph current runtime next ≡ ok tt
    → Allowed current runtime next
unfolding validate_pending_subgraph
validate_pending_subgraph-Allowed current runtime next h = record {
  scope = ground arith;
  tasks = ground arith;
}

-- A replacement that passes its check leaves each endpoint outside of its scope as it was, and
-- replaces one inside only while that is pending, keeping its spec and run policy, and its
-- generation and binding unless the dispatch of that generation was definitively rejected.
pub apply_pending_subgraph-Replaced :
    (current : GraphState) (runtime : RuntimeState) (next : PendingSubgraph)
    (ref : PhaseEndpointRef) (e : PhaseEndpoint)
    → validate_pending_subgraph current runtime next ≡ ok tt
    → lookup ref current.endpoints ≡ some e
    → ((mem ref (refs next.endpoints) ≡ false)
        × (lookup ref (apply_pending_subgraph current next).endpoints ≡ some e))
      ⊎ ((mem ref (refs next.endpoints) ≡ true)
          × (e' : PhaseEndpoint) × (lookup ref (apply_pending_subgraph current next).endpoints
              ≡ some e')
          × (e'.ref ≡ ref)
          × Replaced runtime e e')
unfolding apply_pending_subgraph replaces_found
apply_pending_subgraph-Replaced current runtime next ref e h found =
    let allowed = validate_pending_subgraph-Allowed current runtime next h in
    elim (put_endpoints-lookup (Checked current runtime) next.endpoints current.endpoints ref
      (check_scope-Checked current runtime [] next.endpoints allowed.scope)) [
        | inl (outside, same) ↦ inl (outside, ground arith)
        | inr (inside, e', named, stored, checked) ↦
            let at_e' : lookup e'.ref current.endpoints ≡ some e = rw named found in
            let replaced : replaces runtime e e' ≡ ok tt = rw at_e' at (checked.1) in
            inr (inside, e', stored, named, replaces-Replaced runtime e e' replaced)
      ]

put_tasks-lookup :
    (m₀ : List (String × Task)) (ts : List Task) (m : List (String × Task)) (id : String) (k : Task)
    → All (λ t. (k' : Task) → lookup t.id m₀ ≡ some k' → k' ≡ t) ts
    → lookup id m₀ ≡ some k
    → lookup id m ≡ some k
    → lookup id (put_tasks ts m) ≡ some k
unfolding put_tasks
put_tasks-lookup m₀ [] m id k all h₀ h = h
put_tasks-lookup m₀ (t ∷ ts) m id k all h₀ h =
    put_tasks-lookup m₀ ts (insert t.id t m) id k all.1 h₀ (elim (string_eq.dec t.id id) [
      | yes here ↦ ground (arith, lookup-insert t.id id t m, all.0 k (rw here h₀))
      | no there ↦ ground (arith, lookup-insert t.id id t m)
    ])

check_new_task-same :
    (current : GraphState) (next : PendingSubgraph) (t : Task)
    → check_new_task current next t ≡ ok tt
    → (k : Task) → lookup t.id current.tasks ≡ some k
    → k ≡ t
unfolding check_new_task known_task
check_new_task-same current next t h k found = ground arith

-- A replacement that passes its check changes no task that the graph has, and no result.
pub apply_pending_subgraph-tasks :
    (current : GraphState) (runtime : RuntimeState) (next : PendingSubgraph) (id : String)
    (k : Task)
    → validate_pending_subgraph current runtime next ≡ ok tt
    → lookup id current.tasks ≡ some k
    → (lookup id (apply_pending_subgraph current next).tasks ≡ some k)
      × ((apply_pending_subgraph current next).results ≡ current.results)
unfolding apply_pending_subgraph
apply_pending_subgraph-tasks current runtime next id k h found =
    let allowed = validate_pending_subgraph-Allowed current runtime next h in
    (
      put_tasks-lookup current.tasks next.tasks current.tasks id k
          (All-map _ _ (check_new_task-same current next) next.tasks (each-eq-ok _ _ allowed.tasks))
          found found,
      refl,
    )

active_in-idle :
    (scope : List PhaseEndpointRef) (l : String × PhaseLease)
    → active_in scope l ≡ false
    → mem l.1.endpoint scope ≡ true
    → l.1.state ≢ LeaseState.active
unfolding active_in
active_in-idle scope (id, l) h inside = ground arith

-- A replacement passes its runtime check only if no lease of an endpoint of its scope is active.
pub validate_pending_subgraph_runtime-idle :
    (runtime : RuntimeState) (next : PendingSubgraph) (l : String × PhaseLease)
    → validate_pending_subgraph_runtime runtime next ≡ ok tt
    → In l runtime.leases
    → mem l.1.endpoint (refs next.endpoints) ≡ true
    → l.1.state ≢ LeaseState.active
unfolding validate_pending_subgraph_runtime
validate_pending_subgraph_runtime-idle runtime next l h at_l =
    active_in-idle (refs next.endpoints) l (
      All-In _ l runtime.leases
        (any-false (active_in (refs next.endpoints)) runtime.leases (ground arith)) at_l)
