-- ===== src/Coordination/Store/History.antt =====
-- The history of internal/coordination/memory_store.go under later writes, and two writers at one
-- revision.
use threadmill_agent_teams.Base.{
  ◌+◌, ◌^◌, ◌<◌, ◌≡◌, inl, inr, subst, some, List, [], ◌∷◌, String, lookup, insert, length,
  string_eq, nat_eq, arith, lookup-insert,
}
use threadmill_agent_teams.Kernel.Errors.{Error, Result, ok, err}
use threadmill_agent_teams.Kernel.Revision.{Revision, next as next_revision, next-gt}
use threadmill_agent_teams.Coordination.Types.{
  GraphState, GraphSnapshot, PendingSubgraph, GraphTransition, phase_endpoint_ref_eq,
}
use threadmill_agent_teams.Coordination.Store.Project.{MemoryStore, ensure_project}
use threadmill_agent_teams.Coordination.Store.Memory.{transition, replace_pending}
use threadmill_agent_teams.Coordination.Store.Commits.{
  Unchanged, Wrote, transition-Wrote, replace_pending-Wrote, transition_graph-Admitted,
  pending_graph-AdmittedPending,
}
use threadmill_agent_teams.Coordination.Store.Invariant.{
  Write, transitions, replaces, runs, runtime_write-graph, write, run, IsProject, IsStore,
  write-IsStore,
}

Wrote-keeps :
    (s s' : MemoryStore) (id : String) (answer : Result GraphSnapshot)
    (admitted : Result GraphState) (q : String) (r : Revision) (g : GraphState)
    → IsProject (ensure_project s q)
    → (ensure_project s q).latest + 1 < 2 ^ 64
    → Wrote s s' id answer admitted
    → lookup r (ensure_project s q).history ≡ some g
    → lookup r (ensure_project s' q).history ≡ some g
Wrote-keeps s s' id answer admitted q r g p small (inl (e, _, same)) h = ground (arith, same q)
Wrote-keeps s s' id answer admitted q r g p small (inr (g', ok_g, _, n)) h =
    elim (string_eq.dec id q) [
      | yes here ↦
          let moved : (ensure_project s' q).history
              ≡ insert (next_revision (ensure_project s q).latest) g' (ensure_project s q).history =
            subst
              (λ (k : String).
                (ensure_project s' k).history
                ≡ insert (next_revision (ensure_project s k).latest) g'
                    (ensure_project s k).history)
              here n.history in
          ground (
            arith,
            p.bounded r g h,
            next-gt (ensure_project s q).latest small,
            lookup-insert (next_revision (ensure_project s q).latest) r g'
                (ensure_project s q).history,
          )
      | no there ↦ ground (arith, n.others q there)
    ]

write-keeps :
    (s : MemoryStore) (w : Write) (q : String) (r : Revision) (g : GraphState)
    → IsProject (ensure_project s q)
    → (ensure_project s q).latest + 1 < 2 ^ 64
    → lookup r (ensure_project s q).history ≡ some g
    → lookup r (ensure_project (write s w) q).history ≡ some g
unfolding write
write-keeps s (transitions id expected t) q r g p small h =
    Wrote-keeps s _ id _ _ q r g p small (transition-Wrote s id expected t) h
write-keeps s (replaces id next) q r g p small h =
    Wrote-keeps s _ id _ _ q r g p small (replace_pending-Wrote s id next) h
write-keeps s (runs id w) q r g p small h = ground (arith, (runtime_write-graph s id w q).2, h)

-- A recorded revision of a store whose invariant holds is never changed by later writes to the graph and the runtime, as long as
-- these are fewer than the revisions that are left.
pub run-keeps_history :
    (s : MemoryStore) (ws : List Write) (q : String) (r : Revision) (g : GraphState)
    → IsStore s
    → ((id : String) → (ensure_project s id).latest + length ws < 2 ^ 64)
    → lookup r (ensure_project s q).history ≡ some g
    → lookup r (ensure_project (run s ws) q).history ≡ some g
unfolding run
run-keeps_history s [] q r g p small h = h
run-keeps_history s (w ∷ ws) q r g p small h =
    let (next, grows) = write-IsStore s w (λ id. omega (arith, small id)) p in
    run-keeps_history (write s w) ws q r g next (λ id. omega (arith, small id, grows id))
      (write-keeps s w q r g (p q) (omega (arith, small q)) h)

-- Of two writers at the same revision at most one succeeds: after a successful transition, any
-- transition and any replacement that still expects that revision fails, and changes no project.
pub transition_once :
    (s : MemoryStore) (id : String) (expected : Revision) (t t' : GraphTransition)
    (next : PendingSubgraph) (snap : GraphSnapshot)
    → (ensure_project s id).latest + 1 < 2 ^ 64
    → (transition s id expected t).1 ≡ ok snap
    → next.base_revision ≡ expected
    → ((e : Error) × ((transition (transition s id expected t).0 id expected t').1 ≡ err e)
        × Unchanged
            (transition s id expected t).0
            (transition (transition s id expected t).0 id expected t').0)
      × ((e : Error) × ((replace_pending (transition s id expected t).0 id next).1 ≡ err e)
          × Unchanged
              (transition s id expected t).0
              (replace_pending (transition s id expected t).0 id next).0)
transition_once s id expected t t' next snap small h base =
    elim (transition-Wrote s id expected t) [
      | inl (e, failed, _) ↦ absurd (cc)
      | inr (g, admitted, _, n) ↦
          let s' = (transition s id expected t).0 in
          let was = transition_graph-Admitted (ensure_project s id) expected t g admitted in
          let grows = next-gt (ensure_project s id).latest small in
          let moved = n.latest in
          let now = was.current in
          (
            elim (transition-Wrote s' id expected t') [
              | inl failed ↦ failed
              | inr (g', admitted', _, _) ↦
                  let again =
                    transition_graph-Admitted (ensure_project s' id) expected t' g' admitted' in
                  absurd (omega (arith, again.current, now, moved, grows))
            ],
            elim (replace_pending-Wrote s' id next) [
              | inl failed ↦ failed
              | inr (g', admitted', _, _) ↦
                  let again =
                    pending_graph-AdmittedPending (ensure_project s' id) next g' admitted' in
                  absurd (omega (arith, again.current, base, now, moved, grows))
            ],
          )
    ]
