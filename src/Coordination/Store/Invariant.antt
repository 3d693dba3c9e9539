-- ===== src/Coordination/Store/Invariant.antt =====
-- What holds of the store of internal/coordination/memory_store.go after any sequence of writes.
use threadmill_agent_teams.Base.{
  ◌+◌, ◌^◌, ◌<◌, ◌≤◌, ◌≡◌, inl, inr, refl, sym, subst, true, some, List, [], ◌∷◌, String, lookup,
  mem, length, Number-discrete, string_eq, nat_eq, arith, lookup-insert, lookup-insert_self,
  Option-cases,
}
use threadmill_agent_teams.Kernel.Errors.{Result, ok, each}
use threadmill_agent_teams.Kernel.Revision.{Revision, next as next_revision, next-gt}
use threadmill_agent_teams.Coordination.Types.{
  PhaseEndpointRef, GraphState, GraphSnapshot, PendingSubgraph, GraphTransition,
  phase_endpoint_ref_eq,
}
use threadmill_agent_teams.Coordination.Graph.Check.{validate_graph, check_edges}
use threadmill_agent_teams.Coordination.Graph.Acyclic.{validate_acyclic, keys, visit_all}
use threadmill_agent_teams.Coordination.Graph.Acyclic.Order.{Chain}
use threadmill_agent_teams.Coordination.Graph.Acyclic.Sound.{validate_acyclic_sound}
use threadmill_agent_teams.Coordination.Store.Project.{
  ProjectState, MemoryStore, new_memory_store, new_project, new_graph_state, ensure_project,
}
use threadmill_agent_teams.Coordination.Store.Memory.{transition, replace_pending}
use threadmill_agent_teams.Coordination.Runtime.Commands.{on_project, with_runtime}
use threadmill_agent_teams.Coordination.Runtime.Writes.{RuntimeWrite, written, runtime_write}
use threadmill_agent_teams.Coordination.Store.Commits.{
  ensure_project-put, NewRevision, Wrote, transition-Wrote, replace_pending-Wrote,
  transition_graph-Admitted, pending_graph-AdmittedPending,
}

-- The writes of the store, to the graph and to the runtime, each under its project's id.
pub data Write : Type 0 where
  transitions : String → Revision → GraphTransition → Write
  replaces : String → PendingSubgraph → Write
  runs : String → RuntimeWrite → Write

unfoldable pub write : MemoryStore → Write → MemoryStore
write s (transitions id expected t) = (transition s id expected t).0
write s (replaces id next) = (replace_pending s id next).0
write s (runs id w) = runtime_write s id w

unfoldable pub run : MemoryStore → List Write → MemoryStore
run s [] = s
run s (w ∷ ws) = run (write s w) ws

pub record IsProject (p : ProjectState) : Type 0 where
  pub recorded : lookup p.latest p.history ≡ some p.current
  pub bounded : (r : Revision) (g : GraphState) → lookup r p.history ≡ some g → r ≤ p.latest
  pub valid :
      (r : Revision) (g : GraphState) → lookup r p.history ≡ some g → validate_graph g ≡ ok tt

abbrev pub IsStore : MemoryStore → Type 0
IsStore s = (id : String) → IsProject (ensure_project s id)

new_project-IsProject : IsProject new_project
unfolding new_project lookup validate_graph new_graph_state each check_edges validate_acyclic
    visit_all keys Number-discrete
new_project-IsProject = record {
  recorded = refl;
  bounded = λ r g h. ground arith;
  valid = λ r g h. ground arith;
}

pub new_memory_store-IsStore : IsStore new_memory_store
unfolding ensure_project new_memory_store lookup
new_memory_store-IsStore id = new_project-IsProject

NewRevision-IsProject :
    (s s' : MemoryStore) (id : String) (g : GraphState)
    → (ensure_project s id).latest + 1 < 2 ^ 64
    → validate_graph g ≡ ok tt
    → NewRevision s s' id g
    → IsProject (ensure_project s id)
    → IsProject (ensure_project s' id)
NewRevision-IsProject s s' id g small valid n p =
    let p₀ = ensure_project s id in
    let grows = next-gt p₀.latest small in
    record {
      recorded = ground (
        arith,
        lookup-insert_self (next_revision p₀.latest) g p₀.history,
        n.latest,
        n.current,
        n.history,
      );
      bounded = λ r g' h. ground (
        arith,
        lookup-insert (next_revision p₀.latest) r g p₀.history,
        p.bounded r g',
        n.latest,
        n.history,
      );
      valid = λ r g' h.
          ground (
            arith,
            lookup-insert (next_revision p₀.latest) r g p₀.history,
            p.valid r g',
            n.history,
          );
    }

-- A write's effect on the store's invariant.
Wrote-IsStore :
    (s s' : MemoryStore) (id : String) (answer : Result GraphSnapshot)
    (admitted : Result GraphState)
    → ((q : String) → (ensure_project s q).latest + 1 < 2 ^ 64)
    → ((g : GraphState) → admitted ≡ ok g → validate_graph g ≡ ok tt)
    → Wrote s s' id answer admitted
    → IsStore s
    → IsStore s'
Wrote-IsStore s s' id answer admitted small valid (inl (e, _, same)) p q =
    subst IsProject (sym (same q)) (p q)
Wrote-IsStore s s' id answer admitted small valid (inr (g, ok_g, _, n)) p q =
    elim (string_eq.dec id q) [
      | yes here ↦
          subst (λ (k : String). IsProject (ensure_project s' k)) here
            (NewRevision-IsProject s s' id g (small id) (valid g ok_g) n (p id))
      | no there ↦ subst IsProject (sym (n.others q there)) (p q)
    ]

-- A write moves a project's revision by at most one.
Wrote-latest :
    (s s' : MemoryStore) (id : String) (answer : Result GraphSnapshot)
    (admitted : Result GraphState)
    → ((q : String) → (ensure_project s q).latest + 1 < 2 ^ 64)
    → Wrote s s' id answer admitted
    → (q : String) → (ensure_project s' q).latest ≤ (ensure_project s q).latest + 1
Wrote-latest s s' id answer admitted small (inl (e, _, same)) q = ground (arith, same q)
Wrote-latest s s' id answer admitted small (inr (g, ok_g, _, n)) q = elim (string_eq.dec id q) [
  | yes here ↦
      subst (λ (k : String). (ensure_project s' k).latest ≤ (ensure_project s k).latest + 1) here
        (ground (arith, n.latest, next-gt (ensure_project s id).latest (small id)))
  | no there ↦ ground (arith, n.others q there)
]

-- A write to the runtime leaves each project's graph, revision and history.
pub runtime_write-graph :
    (s : MemoryStore) (id : String) (w : RuntimeWrite) (q : String)
    → ((ensure_project (runtime_write s id w) q).latest ≡ (ensure_project s q).latest)
      × ((ensure_project (runtime_write s id w) q).current ≡ (ensure_project s q).current)
      × ((ensure_project (runtime_write s id w) q).history ≡ (ensure_project s q).history)
unfolding runtime_write on_project
runtime_write-graph s id w q =
    let p = ensure_project s id in
    ground (arith, ensure_project-put s id q (with_runtime p (written p w)))

runtime_write-IsProject :
    (s : MemoryStore) (id : String) (w : RuntimeWrite) (q : String)
    → IsProject (ensure_project s q)
    → IsProject (ensure_project (runtime_write s id w) q)
runtime_write-IsProject s id w q p =
    let (l, c, h) = runtime_write-graph s id w q in
    record {
      recorded = ground (arith, p.recorded);
      bounded = λ r g k. ground (arith, p.bounded r g);
      valid = λ r g k. ground (arith, p.valid r g);
    }

pub write-IsStore :
    (s : MemoryStore) (w : Write)
    → ((q : String) → (ensure_project s q).latest + 1 < 2 ^ 64)
    → IsStore s
    → IsStore (write s w)
      × ((q : String) → (ensure_project (write s w) q).latest ≤ (ensure_project s q).latest + 1)
unfolding write
write-IsStore s (transitions id expected t) small p =
    let effect = transition-Wrote s id expected t in
    (
      Wrote-IsStore s _ id _ _ small
          (λ g h. (transition_graph-Admitted (ensure_project s id) expected t g h).valid) effect p,
      Wrote-latest s _ id _ _ small effect,
    )
write-IsStore s (replaces id next) small p =
    let effect = replace_pending-Wrote s id next in
    (
      Wrote-IsStore s _ id _ _ small
          (λ g h. (pending_graph-AdmittedPending (ensure_project s id) next g h).valid) effect p,
      Wrote-latest s _ id _ _ small effect,
    )
write-IsStore s (runs id w) small p = (
  λ q. runtime_write-IsProject s id w q (p q),
  λ q. omega (arith, (runtime_write-graph s id w q).0),
)

run_from-IsStore :
    (s : MemoryStore) (ws : List Write)
    → ((q : String) → (ensure_project s q).latest + length ws < 2 ^ 64)
    → IsStore s
    → IsStore (run s ws)
unfolding run
run_from-IsStore s [] small p = p
run_from-IsStore s (w ∷ ws) small p =
    let (next, grows) = write-IsStore s w (λ q. omega (arith, small q)) p in
    run_from-IsStore (write s w) ws (λ q. omega (arith, small q, grows q)) next

-- After any writes to the graph and the runtime, in any order, fewer than the revisions that a uint64
-- can count, each project's current graph
-- is the one recorded at its latest revision, no recorded revision is later, and every graph that
-- was ever recorded passes the whole validation.
pub run-IsProject :
    (ws : List Write) (id : String)
    → length ws + 1 < 2 ^ 64
    → IsProject (ensure_project (run new_memory_store ws) id)
unfolding new_memory_store ensure_project lookup new_project
run-IsProject ws id small =
    run_from-IsStore new_memory_store ws (λ q. omega arith) new_memory_store-IsStore id

validate_graph-acyclic :
    (g : GraphState) → validate_graph g ≡ ok tt → validate_acyclic g ≡ some (ok tt)
unfolding validate_graph
validate_graph-acyclic g h = elim (Option-cases (validate_acyclic g)) [
  | inl e ↦ absurd (ground arith)
  | inr (r, e) ↦ ground arith
]

-- After any writes, fewer than the revisions that a uint64 can count, no endpoint of any recorded revision's graph waits for itself along a chain of
-- edges and fixed phase orders.
pub run-acyclic :
    (ws : List Write) (id : String) (r : Revision) (g : GraphState) (x : PhaseEndpointRef)
    → length ws + 1 < 2 ^ 64
    → lookup r (ensure_project (run new_memory_store ws) id).history ≡ some g
    → mem x (keys g.endpoints) ≡ true
    → ¬ Chain g x x
run-acyclic ws id r g x small h at_x =
    validate_acyclic_sound g x (validate_graph-acyclic g ((run-IsProject ws id small).valid r g h))
      at_x
