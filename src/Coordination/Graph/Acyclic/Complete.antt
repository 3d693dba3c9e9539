-- ===== src/Coordination/Graph/Acyclic/Complete.antt =====
-- If validateAcyclic of internal/coordination/validation.go rejects a graph, it has a cycle.
use threadmill_agent_teams.Base.{
  ℕ, zero, suc, ◌≡◌, sym, subst, ◌∙◌, inl, inr, true, some, List, [], ◌∷◌, mem, arith, Bool-cases,
}
use threadmill_agent_teams.Kernel.Errors.{Error, ok, err}
use threadmill_agent_teams.Coordination.Types.{PhaseEndpointRef, GraphState, phase_endpoint_ref_eq}
use threadmill_agent_teams.Coordination.Graph.Acyclic.{
  Arrow, Search, arrows, adjacent, visit, visit_all, enter, keys, depth_bound, unvisited,
  validate_acyclic,
}
use threadmill_agent_teams.Coordination.Graph.Acyclic.Order.{
  Chain, step, Chain-snoc, Succ, Succ-Precedes,
}
use threadmill_agent_teams.Coordination.Graph.Acyclic.Restores.{
  Visit, Answer-cases, Restores, visit-Restores,
}

abbrev Cycle : GraphState → Type 0
Cycle state = (x : PhaseEndpointRef) × Chain state x x

module _ (state : GraphState) where
  -- Every node under visit leads to the next call's node.
  abbrev Leads : Search → PhaseEndpointRef → Type 0
  Leads s ref = (v : PhaseEndpointRef) → mem v s.visiting ≡ true → Chain state v ref

  visit_all-Cycle :
      (g : Visit)
      → ((ref : PhaseEndpointRef) (s : Search) (e : Error)
          → Leads s ref
          → g ref s ≡ some (err e)
          → Cycle state)
      → ((ref : PhaseEndpointRef) (s t : Search) → g ref s ≡ some (ok t) → Restores s t)
      → (refs : List PhaseEndpointRef) (s : Search) (e : Error)
      → ((ref : PhaseEndpointRef) → mem ref refs ≡ true → Leads s ref)
      → visit_all g refs s ≡ some (err e)
      → Cycle state
  unfolding visit_all mem
  visit_all-Cycle g each restores [] s e leads h = cc
  visit_all-Cycle g each restores (ref ∷ refs) s e leads h = elim (Answer-cases (g ref s)) [
    | inl x ↦ absurd (ground arith)
    | inr (inl (x, failed)) ↦ each ref s x (leads ref (ground arith)) failed
    | inr (inr (r, passed)) ↦
        visit_all-Cycle g each restores refs r e
          (λ k m v visiting. leads k (ground arith) v (sym (restores ref s r passed v) ∙ visiting))
          (ground arith)
  ]

  visit-Cycle :
      (fuel : ℕ) (ref : PhaseEndpointRef) (s : Search) (e : Error)
      → Leads s ref
      → visit (arrows state) fuel ref s ≡ some (err e)
      → Cycle state
  unfolding visit mem
  visit-Cycle zero ref s e leads h = cc
  visit-Cycle (suc fuel) ref s e leads h = elim (Bool-cases (mem ref s.visiting)) [
    | inl again ↦ (ref, leads ref again)
    | inr fresh ↦
        elim (Answer-cases (visit_all (visit arcs fuel) (adjacent arcs ref) (enter ref s))) [
          | inl x ↦ absurd (ground arith)
          | inr (inl (x, failed)) ↦
              visit_all-Cycle (visit arcs fuel) (visit-Cycle fuel) (visit-Restores arcs fuel)
                (adjacent arcs ref) (enter ref s) x inner failed
          | inr (inr (t, passed)) ↦ absurd (ground arith)
        ]
  ]
    where
      arcs : List Arrow
      arcs = arrows state

      inner : (y : PhaseEndpointRef) → Succ (arrows state) ref y → Leads (enter ref s) y
      inner y a v m = elim (phase_endpoint_ref_eq.dec ref v) [
        | yes p ↦
            subst (λ (k : PhaseEndpointRef). Chain state k y) p (step (Succ-Precedes state ref y a))
        | no q ↦ Chain-snoc y (leads v (ground arith)) (Succ-Precedes state ref y a)
      ]

none_visiting : {A : Type 0} (v : PhaseEndpointRef) → mem v [] ≡ true → A
unfolding mem
none_visiting v h = cc

-- When the search rejects a graph, some node of it waits for itself.
pub validate_acyclic_complete :
    (state : GraphState) (e : Error)
    → validate_acyclic state ≡ some (err e)
    → (x : PhaseEndpointRef) × Chain state x x
unfolding validate_acyclic
validate_acyclic_complete state e h =
    elim (Answer-cases
      (visit_all (visit arcs (depth_bound arcs)) (keys state.endpoints) unvisited)) [
        | inl x ↦ absurd (ground arith)
        | inr (inl (x, failed)) ↦
            visit_all-Cycle state (visit arcs (depth_bound arcs))
              (visit-Cycle state (depth_bound arcs)) (visit-Restores arcs (depth_bound arcs))
              (keys state.endpoints) unvisited x (λ ref m v visiting. none_visiting v visiting)
              failed
        | inr (inr (t, passed)) ↦ absurd (ground arith)
      ]
  where
    arcs : List Arrow
    arcs = arrows state
