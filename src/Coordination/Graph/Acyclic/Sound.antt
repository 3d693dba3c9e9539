-- ===== src/Coordination/Graph/Acyclic/Sound.antt =====
-- If validateAcyclic of internal/coordination/validation.go finds no cycle, there is none.
use mathlib.Core.WellFounded.{Acc}
use threadmill_agent_teams.Base.{
  ℕ, zero, suc, ◌≡◌, ◌≢◌, sym, subst, refl, inl, inr, true, some, List, [], ◌∷◌, mem, arith,
}
use threadmill_agent_teams.Kernel.Errors.{ok}
use threadmill_agent_teams.Coordination.Types.{PhaseEndpointRef, GraphState, phase_endpoint_ref_eq}
use threadmill_agent_teams.Coordination.Graph.Acyclic.{
  Arrow, Search, arrows, adjacent, visit, visit_all, enter, keys, depth_bound, unvisited,
  validate_acyclic,
}
use threadmill_agent_teams.Coordination.Graph.Acyclic.Order.{
  Precedes, Chain, step, next, Chain-snoc, Succ, Precedes-Succ,
}
use threadmill_agent_teams.Coordination.Graph.Acyclic.Restores.{Visit, Answer-cases, visit-ok}

-- The visited nodes, the last one first: the successors of each were visited before it.
abbrev IsOrdered : List Arrow → List PhaseEndpointRef → Type 0
IsOrdered arcs [] = Unit
IsOrdered arcs (v ∷ vs) =
    ((y : PhaseEndpointRef) → Succ arcs v y → mem y vs ≡ true) × IsOrdered arcs vs

record Progress (arcs : List Arrow) (s t : Search) : Type 0 where
  ordered : IsOrdered arcs t.visited
  kept : (v : PhaseEndpointRef) → mem v s.visited ≡ true → mem v t.visited ≡ true

module _ (arcs : List Arrow) where
  visit_all-Progress :
      (g : Visit)
      → ((ref : PhaseEndpointRef) (s t : Search)
          → IsOrdered arcs s.visited
          → g ref s ≡ some (ok t)
          → Progress arcs s t × (mem ref t.visited ≡ true))
      → (refs : List PhaseEndpointRef) (s t : Search) → IsOrdered arcs s.visited
      → visit_all g refs s ≡ some (ok t)
      → Progress arcs s t × ((v : PhaseEndpointRef) → mem v refs ≡ true → mem v t.visited ≡ true)
  unfolding visit_all mem
  visit_all-Progress g each [] s t o h =
      let same : s ≡ t = ground arith in
      (
        record {
          ordered = subst (λ (x : Search). IsOrdered arcs x.visited) same o;
          kept = λ v m. ground arith;
        },
        λ v m. cc,
      )
  visit_all-Progress g each (ref ∷ refs) s t o h = elim (Answer-cases (g ref s)) [
    | inl e ↦ absurd (ground arith)
    | inr (inl (x, e)) ↦ absurd (ground arith)
    | inr (inr (r, e)) ↦
        let (first, here) = each ref s r o e in
        let (rest, others) = visit_all-Progress g each refs r t first.ordered (ground arith) in
        (
          record { ordered = rest.ordered; kept = λ v m. rest.kept v (first.kept v m) },
          λ v m. ground (arith, rest.kept ref here, others v),
        )
  ]

  visit-Progress :
      (fuel : ℕ) (ref : PhaseEndpointRef) (s t : Search)
      → IsOrdered arcs s.visited
      → visit arcs fuel ref s ≡ some (ok t)
      → Progress arcs s t × (mem ref t.visited ≡ true)
  unfolding visit mem
  visit-Progress zero ref s t o h = cc
  visit-Progress (suc fuel) ref s t o h = elim (visit-ok arcs fuel ref s t h) [
    | inl (seen, e) ↦ (
      record {
        ordered = subst (λ (x : Search). IsOrdered arcs x.visited) (sym e) o;
        kept = λ v m. ground arith;
      },
      ground arith,
    )
    | inr (fresh, r, loop, e) ↦
        let (inner, done) =
          visit_all-Progress (visit arcs fuel) (visit-Progress fuel) (adjacent arcs ref)
            (enter ref s) r o loop in
        (
          record {
            ordered =
                subst (λ (x : Search). IsOrdered arcs x.visited) (sym e) (done, inner.ordered);
            kept = λ v m. ground (arith, inner.kept v m);
          },
          ground arith,
        )
  ]

  abbrev Before : PhaseEndpointRef → PhaseEndpointRef → Type 0
  Before y x = Succ arcs x y

  IsOrdered-Acc :
      (vs : List PhaseEndpointRef) (x : PhaseEndpointRef)
      → IsOrdered arcs vs
      → mem x vs ≡ true
      → Acc Before x
  unfolding mem
  IsOrdered-Acc [] x o h = cc
  IsOrdered-Acc (v ∷ vs) x o h = elim (phase_endpoint_ref_eq.dec v x) [
    | yes p ↦ subst (Acc Before) p (Acc.intro v (λ y a. IsOrdered-Acc vs y o.1 (o.0 y a)))
    | no q ↦ IsOrdered-Acc vs x o.1 (ground arith)
  ]

Acc-no-cycle :
    (state : GraphState) (x y : PhaseEndpointRef)
    → Acc (Before (arrows state)) x
    → Chain state x y
    → x ≢ y
Acc-no-cycle state x y (Acc.intro _ smaller) (step p) e =
    Acc-no-cycle state y y (smaller y (Precedes-Succ p))
      (subst (λ (k : PhaseEndpointRef). Chain state k y) e (step p)) refl
Acc-no-cycle state x y (Acc.intro _ smaller) (next z p r) e =
    Acc-no-cycle state z z (smaller z (Precedes-Succ p))
      (Chain-snoc z r (subst (λ (k : PhaseEndpointRef). Precedes state k z) e p)) refl

-- When the search accepts a graph, no endpoint of it waits for itself, along any chain of edges
-- and fixed phase orders.
pub validate_acyclic_sound :
    (state : GraphState) (x : PhaseEndpointRef)
    → validate_acyclic state ≡ some (ok tt)
    → mem x (keys state.endpoints) ≡ true
    → ¬ Chain state x x
unfolding validate_acyclic
validate_acyclic_sound state x h at_x = λ chain.
    elim (Answer-cases
      (visit_all (visit arcs (depth_bound arcs)) (keys state.endpoints) unvisited)) [
        | inl e ↦ absurd (ground arith)
        | inr (inl (y, e)) ↦ absurd (ground arith)
        | inr (inr (t, e)) ↦
            let (progress, done) =
              visit_all-Progress arcs (visit arcs (depth_bound arcs))
                (visit-Progress arcs (depth_bound arcs)) (keys state.endpoints) unvisited t tt e in
            Acc-no-cycle state x x (IsOrdered-Acc arcs t.visited x progress.ordered (done x at_x))
              chain refl
      ]
  where
    arcs : List Arrow
    arcs = arrows state
