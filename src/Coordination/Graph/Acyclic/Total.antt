-- ===== src/Coordination/Graph/Acyclic/Total.antt =====
-- The fuel of validateAcyclic's search is enough.
use threadmill_agent_teams.Base.{
  ℕ, zero, suc, ◌≤◌, ◌<◌, ◌≡◌, ◌≢◌, refl, inl, inr, false, none, List, [], ◌∷◌, if◌then◌else◌, mem,
  length, arith, Bool-cases,
}
use threadmill_agent_teams.Coordination.Types.{PhaseEndpointRef, GraphState, phase_endpoint_ref_eq}
use threadmill_agent_teams.Coordination.Graph.Acyclic.{
  Arrow, Search, arrows, adjacent, visit, visit_all, enter, keys, depth_bound, unvisited,
  validate_acyclic,
}
use threadmill_agent_teams.Coordination.Graph.Acyclic.Restores.{Answer-cases, visit-Restores}

-- The arrows whose source is not under visit.
unfoldable pub open_arrows : List Arrow → List PhaseEndpointRef → ℕ
open_arrows [] visiting = 0
open_arrows ((source, target) ∷ arcs) visiting =
    if mem source visiting then open_arrows arcs visiting else suc (open_arrows arcs visiting)

open_arrows-le :
    (arcs : List Arrow) (visiting : List PhaseEndpointRef) → open_arrows arcs visiting ≤ length arcs
unfolding open_arrows
open_arrows-le [] visiting = omega arith
open_arrows-le ((a, b) ∷ arcs) visiting = ground (arith, open_arrows-le arcs visiting)

open_arrows-cong :
    (arcs : List Arrow) (xs ys : List PhaseEndpointRef)
    → ((v : PhaseEndpointRef) → mem v xs ≡ mem v ys)
    → open_arrows arcs xs ≡ open_arrows arcs ys
unfolding open_arrows
open_arrows-cong [] xs ys h = refl
open_arrows-cong ((a, b) ∷ arcs) xs ys h = ground (arith, open_arrows-cong arcs xs ys h, h a)

open_arrows-cons :
    (arcs : List Arrow) (ref : PhaseEndpointRef) (xs : List PhaseEndpointRef)
    → open_arrows arcs (ref ∷ xs) ≤ open_arrows arcs xs
unfolding open_arrows mem
open_arrows-cons [] ref xs = omega arith
open_arrows-cons ((a, b) ∷ arcs) ref xs = ground (arith, open_arrows-cons arcs ref xs)

-- To enter a node that has successors closes an arrow.
open_arrows-enter :
    (arcs : List Arrow) (ref y : PhaseEndpointRef) (ys xs : List PhaseEndpointRef)
    → adjacent arcs ref ≡ y ∷ ys
    → mem ref xs ≡ false
    → open_arrows arcs (ref ∷ xs) < open_arrows arcs xs
unfolding open_arrows mem adjacent
open_arrows-enter [] ref y ys xs h k = cc
open_arrows-enter ((a, b) ∷ arcs) ref y ys xs h k = elim (phase_endpoint_ref_eq.dec a ref) [
  | yes p ↦ ground (arith, open_arrows-cons arcs ref xs)
  | no q ↦ ground (arith, open_arrows-enter arcs ref y ys xs (ground arith) k)
]

module _ (arcs : List Arrow) where
  visit_all-total :
      (fuel : ℕ)
      → ((ref : PhaseEndpointRef) (s : Search)
          → open_arrows arcs s.visiting < fuel
          → visit arcs fuel ref s ≢ none)
      → (refs : List PhaseEndpointRef) (s : Search) → open_arrows arcs s.visiting < fuel
      → visit_all (visit arcs fuel) refs s ≢ none
  unfolding visit_all
  visit_all-total fuel each [] s lt h = cc
  visit_all-total fuel each (ref ∷ refs) s lt h = elim (Answer-cases (visit arcs fuel ref s)) [
    | inl e ↦ each ref s lt e
    | inr (inl (x, e)) ↦ absurd (ground arith)
    | inr (inr (t, e)) ↦
        let same =
          open_arrows-cong arcs t.visiting s.visiting (visit-Restores arcs fuel ref s t e) in
        visit_all-total fuel each refs t (omega arith) (ground arith)
  ]

  loop-total :
      (fuel : ℕ)
      → ((ref : PhaseEndpointRef) (s : Search)
          → open_arrows arcs s.visiting < fuel
          → visit arcs fuel ref s ≢ none)
      → (ref : PhaseEndpointRef) (s : Search) (next : List PhaseEndpointRef)
      → adjacent arcs ref ≡ next
      → mem ref s.visiting ≡ false
      → open_arrows arcs s.visiting < suc fuel
      → visit_all (visit arcs fuel) next (enter ref s) ≢ none
  unfolding visit_all
  loop-total fuel each ref s [] at_ref fresh lt h = cc
  loop-total fuel each ref s (y ∷ ys) at_ref fresh lt h =
      visit_all-total fuel each (y ∷ ys) (enter ref s)
        (omega (arith, open_arrows-enter arcs ref y ys s.visiting at_ref fresh)) h

  visit-total :
      (fuel : ℕ) (ref : PhaseEndpointRef) (s : Search)
      → open_arrows arcs s.visiting < fuel
      → visit arcs fuel ref s ≢ none
  unfolding visit
  visit-total zero ref s lt h = elim lt [ ]
  visit-total (suc fuel) ref s lt h = elim (Bool-cases (mem ref s.visiting)) [
    | inl again ↦ absurd (ground arith)
    | inr fresh ↦
        let inner = loop-total fuel (visit-total fuel) ref s (adjacent arcs ref) refl fresh lt in
        elim (Answer-cases (visit_all (visit arcs fuel) (adjacent arcs ref) (enter ref s))) [
          | inl e ↦ inner e
          | inr (inl (x, e)) ↦ absurd (ground arith)
          | inr (inr (t, e)) ↦ absurd (ground arith)
        ]
  ]

-- The search of any graph ends with an answer: the fuel never runs out.
pub validate_acyclic_total : (state : GraphState) → validate_acyclic state ≢ none
unfolding validate_acyclic depth_bound
validate_acyclic_total state h =
    let arcs = arrows state in
    let total =
      visit_all-total arcs (depth_bound arcs) (visit-total arcs (depth_bound arcs))
        (keys state.endpoints) unvisited (omega (arith, open_arrows-le arcs [])) in
    elim (Answer-cases
      (visit_all (visit arcs (depth_bound arcs)) (keys state.endpoints) unvisited)) [
        | inl e ↦ total e
        | inr (inl (x, e)) ↦ absurd (ground arith)
        | inr (inr (t, e)) ↦ absurd (ground arith)
      ]
