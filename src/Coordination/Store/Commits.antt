-- ===== src/Coordination/Store/Commits.antt =====
-- What the writes of internal/coordination/memory_store.go do to the store: a new revision of one
-- project, or nothing.
use threadmill_agent_teams.Base.{
  ◌≡◌, ◌≢◌, ◌⊎◌, inl, inr, refl, String, insert, ◌==◌, if◌then◌else◌, string_eq, nat_eq, arith,
  lookup-insert,
}
use threadmill_agent_teams.Kernel.Errors.{Error, Result, ok, err, Result-cases, >>=-eq-ok}
use threadmill_agent_teams.Kernel.Revision.{
  Revision, latest_revision, next as next_revision, check_expected_revision,
  check_expected_revision-eq-ok,
}
use threadmill_agent_teams.Coordination.Types.{
  GraphState, GraphSnapshot, PendingSubgraph, GraphTransition,
}
use threadmill_agent_teams.Coordination.Graph.Check.{validate_graph}
use threadmill_agent_teams.Coordination.Transition.Apply.{apply_transition}
use threadmill_agent_teams.Coordination.Pending.Apply.{apply_pending_subgraph}
use threadmill_agent_teams.Coordination.Pending.Validate.{
  validate_pending_subgraph, validate_pending_subgraph_runtime,
}
use threadmill_agent_teams.Coordination.Transition.Observed.{validate_runtime_backed_transition}
use threadmill_agent_teams.Coordination.Store.Snapshot.{snapshot}
use threadmill_agent_teams.Coordination.Store.Project.{
  ProjectState, MemoryStore, ensure_project, put_project, commit, record_runtime_binding,
}
use threadmill_agent_teams.Coordination.Store.Memory.{
  transition_graph, pending_graph, transition, replace_pending, transition_commit,
  transition_checked, pending_commit, pending_checked,
}

pub ensure_project-put :
    (s : MemoryStore) (p q : String) (project : ProjectState)
    → ensure_project (put_project s p project) q ≡ (if p == q then project else ensure_project s q)
unfolding ensure_project put_project
ensure_project-put s p q project = ground (arith, lookup-insert p q project s.projects)

ensure_project-put_same :
    (s : MemoryStore) (p q : String)
    → ensure_project (put_project s p (ensure_project s p)) q ≡ ensure_project s q
ensure_project-put_same s p q = ground (arith, ensure_project-put s p q (ensure_project s p))

pub record_runtime_binding-graph :
    (project : ProjectState) (t : GraphTransition)
    → ((record_runtime_binding project t).latest ≡ project.latest)
      × ((record_runtime_binding project t).current ≡ project.current)
      × ((record_runtime_binding project t).history ≡ project.history)
unfolding record_runtime_binding
record_runtime_binding-graph project t = ground arith

-- The project has a next revision, which is the graph; its earlier revisions and the other projects
-- are as they were.
pub record NewRevision (s s' : MemoryStore) (id : String) (g : GraphState) : Type 0 where
  pub latest : (ensure_project s' id).latest ≡ next_revision (ensure_project s id).latest
  pub current : (ensure_project s' id).current ≡ g
  pub history :
      (ensure_project s' id).history
      ≡ insert (next_revision (ensure_project s id).latest) g (ensure_project s id).history
  pub others : (q : String) → id ≢ q → ensure_project s' q ≡ ensure_project s q

-- No project has changed.
abbrev pub Unchanged : MemoryStore → MemoryStore → Type 0
Unchanged s s' = (q : String) → ensure_project s' q ≡ ensure_project s q

put_commit-NewRevision :
    (s : MemoryStore) (id : String) (g : GraphState) (project : ProjectState)
    → project.latest ≡ next_revision (ensure_project s id).latest
    → project.current ≡ g
    → project.history
      ≡ insert (next_revision (ensure_project s id).latest) g (ensure_project s id).history
    → NewRevision s (put_project s id project) id g
put_commit-NewRevision s id g project l c h = record {
  latest = ground (arith, ensure_project-put s id id project);
  current = ground (arith, ensure_project-put s id id project);
  history = ground (arith, ensure_project-put s id id project);
  others = λ q ne. ground (arith, ensure_project-put s id q project);
}

-- What a write did: it failed and changed no project, or it committed the graph that its guards
-- admitted, and answers with its snapshot.
abbrev pub Wrote :
    MemoryStore → MemoryStore → String → Result GraphSnapshot → Result GraphState → Type 0
Wrote s s' id answer admitted =
    ((e : Error) × (answer ≡ err e) × Unchanged s s')
    ⊎ ((g : GraphState) × (admitted ≡ ok g)
        × (answer ≡ ok (snapshot g (next_revision (ensure_project s id).latest)))
        × NewRevision s s' id g)

transition_commit-Wrote :
    (s : MemoryStore) (id : String) (t : GraphTransition) (r : Result GraphState)
    → Wrote s
        (transition_commit s id (ensure_project s id) t r).0
        id
        (transition_commit s id (ensure_project s id) t r).1
        r
unfolding transition_commit commit
transition_commit-Wrote s id t (err e) = inl (e, refl, ensure_project-put_same s id)
transition_commit-Wrote s id t (ok g) =
    let committed = commit (ensure_project s id) g in
    let (l, c, h) = record_runtime_binding-graph committed t in
    inr (g, refl, refl, put_commit-NewRevision s id g (record_runtime_binding committed t) l c h)

pending_commit-Wrote :
    (s : MemoryStore) (id : String) (r : Result GraphState)
    → Wrote s
        (pending_commit s id (ensure_project s id) r).0
        id
        (pending_commit s id (ensure_project s id) r).1
        r
unfolding pending_commit commit
pending_commit-Wrote s id (err e) = inl (e, refl, ensure_project-put_same s id)
pending_commit-Wrote s id (ok g) =
    inr
      (g, refl, refl, put_commit-NewRevision s id g (commit (ensure_project s id) g) refl refl refl)

transition_checked-Wrote :
    (s : MemoryStore) (id : String) (expected : Revision) (t : GraphTransition)
    (r : Result (Unit {0}))
    → Wrote s
        (transition_checked s id expected t r).0
        id
        (transition_checked s id expected t r).1
        (transition_graph (ensure_project s id) expected t)
unfolding transition_checked
transition_checked-Wrote s id expected t (err e) = inl (e, refl, λ q. refl)
transition_checked-Wrote s id expected t (ok _) =
    transition_commit-Wrote s id t (transition_graph (ensure_project s id) expected t)

-- A transition that fails changes no project. One that succeeds commits the graph that its guards
-- admit as the project's next revision, keeps every earlier revision and every other project, and
-- answers with the snapshot of that revision.
pub transition-Wrote :
    (s : MemoryStore) (id : String) (expected : Revision) (t : GraphTransition)
    → Wrote s
        (transition s id expected t).0
        id
        (transition s id expected t).1
        (transition_graph (ensure_project s id) expected t)
unfolding transition
transition-Wrote s id expected t = transition_checked-Wrote s id expected t _

pending_checked-Wrote :
    (s : MemoryStore) (id : String) (next : PendingSubgraph) (r : Result (Unit {0}))
    → Wrote s
        (pending_checked s id next r).0
        id
        (pending_checked s id next r).1
        (pending_graph (ensure_project s id) next)
unfolding pending_checked
pending_checked-Wrote s id next (err e) = inl (e, refl, λ q. refl)
pending_checked-Wrote s id next (ok _) =
    pending_commit-Wrote s id (pending_graph (ensure_project s id) next)

-- The same of the replacement of a pending subgraph.
pub replace_pending-Wrote :
    (s : MemoryStore) (id : String) (next : PendingSubgraph)
    → Wrote s
        (replace_pending s id next).0
        id
        (replace_pending s id next).1
        (pending_graph (ensure_project s id) next)
unfolding replace_pending
replace_pending-Wrote s id next = pending_checked-Wrote s id next _

-- What the guards of a transition have met.
pub record Admitted (project : ProjectState) (expected : Revision) (t : GraphTransition)
    (g : GraphState) : Type 0 where
  pub current : expected ≡ project.latest
  pub concrete : expected ≢ latest_revision
  pub applied : apply_transition project.current t ≡ ok g
  pub valid : validate_graph g ≡ ok tt
  pub backed : validate_runtime_backed_transition project.current project.runtime t ≡ ok tt

pub transition_graph-Admitted :
    (project : ProjectState) (expected : Revision) (t : GraphTransition) (g : GraphState)
    → transition_graph project expected t ≡ ok g
    → Admitted project expected t g
unfolding transition_graph
transition_graph-Admitted project expected t g h =
    let (_, checked, h₁) = >>=-eq-ok (check_expected_revision expected project.latest) _ h in
    let facts = check_expected_revision-eq-ok expected project.latest checked in
    elim (Result-cases (apply_transition project.current t)) [
      | inl (e, failed) ↦ absurd (ground arith)
      | inr (state, applied) ↦ record {
        current = facts.0;
        concrete = facts.1;
        applied = ground arith;
        valid = ground arith;
        backed = ground arith;
      }
    ]

pub record AdmittedPending (project : ProjectState) (next : PendingSubgraph) (g : GraphState)
    : Type 0 where
  pub current : next.base_revision ≡ project.latest
  pub concrete : next.base_revision ≢ latest_revision
  pub checked : validate_pending_subgraph project.current project.runtime next ≡ ok tt
  pub idle : validate_pending_subgraph_runtime project.runtime next ≡ ok tt
  pub applied : g ≡ apply_pending_subgraph project.current next
  pub valid : validate_graph g ≡ ok tt

pub pending_graph-AdmittedPending :
    (project : ProjectState) (next : PendingSubgraph) (g : GraphState)
    → pending_graph project next ≡ ok g
    → AdmittedPending project next g
unfolding pending_graph
pending_graph-AdmittedPending project next g h =
    let (_, checked, h₁) =
      >>=-eq-ok (check_expected_revision next.base_revision project.latest) _ h in
    let facts = check_expected_revision-eq-ok next.base_revision project.latest checked in
    record {
      current = facts.0;
      concrete = facts.1;
      checked = ground arith;
      idle = ground arith;
      applied = ground arith;
      valid = ground arith;
    }
