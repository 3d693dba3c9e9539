-- ===== src/Coordination/Graph/Acyclic/Restores.antt =====
-- The `visiting` map of validateAcyclic: a call that returns leaves it as it was.
use threadmill_agent_teams.Base.{
  ℕ, zero, suc, ◌≡◌, ◌∙◌, refl, ◌⊎◌, inl, inr, true, false, Option, none, some, List, [], ◌∷◌, ◌==◌,
  if◌then◌else◌, mem, arith, Bool-cases,
}
use threadmill_agent_teams.Kernel.Errors.{Error, Result, ok, err}
use threadmill_agent_teams.Coordination.Types.{PhaseEndpointRef, phase_endpoint_ref_eq}
use threadmill_agent_teams.Coordination.Graph.Acyclic.{
  Arrow, Search, adjacent, remove, visit, visit_all, enter, leave,
}

pub mem-remove :
    (v ref : PhaseEndpointRef) (xs : List PhaseEndpointRef)
    → mem v (remove ref xs) ≡ (if ref == v then false else mem v xs)
unfolding mem remove
mem-remove v ref [] = ground arith
mem-remove v ref (x ∷ xs) = ground (arith, mem-remove v ref xs)

abbrev pub Visit : Type 0
Visit = PhaseEndpointRef → Search → Option (Result Search)

-- The three answers of a call.
pub Answer-cases :
    (o : Option (Result Search))
    → (o ≡ none) ⊎ ((e : Error) × (o ≡ some (err e))) ⊎ ((s : Search) × (o ≡ some (ok s)))
Answer-cases none = inl refl
Answer-cases (some (err e)) = inr (inl (e, refl))
Answer-cases (some (ok s)) = inr (inr (s, refl))

-- How a call of `visit` comes to succeed: its node is visited already, or it is not and the loop
-- over its successors succeeds.
pub visit-ok :
    (arcs : List Arrow) (fuel : ℕ) (ref : PhaseEndpointRef) (s t : Search)
    → visit arcs (suc fuel) ref s ≡ some (ok t)
    → ((mem ref s.visited ≡ true) × (t ≡ s))
      ⊎ ((mem ref s.visiting ≡ false)
          × (r : Search) × (visit_all (visit arcs fuel) (adjacent arcs ref) (enter ref s)
              ≡ some (ok r))
          × (t ≡ leave ref r))
unfolding visit
visit-ok arcs fuel ref s t h =
    elim (Answer-cases (visit_all (visit arcs fuel) (adjacent arcs ref) (enter ref s))) [
      | inl e ↦ inl (ground arith)
      | inr (inl (x, e)) ↦ inl (ground arith)
      | inr (inr (r, e)) ↦ elim (Bool-cases (mem ref s.visited)) [
        | inl seen ↦ inl (seen, ground arith)
        | inr fresh ↦ inr (ground arith, r, e, ground arith)
      ]
    ]

abbrev pub Restores : Search → Search → Type 0
Restores s t = (v : PhaseEndpointRef) → mem v t.visiting ≡ mem v s.visiting

pub visit_all-Restores :
    (g : Visit)
    → ((ref : PhaseEndpointRef) (s t : Search) → g ref s ≡ some (ok t) → Restores s t)
    → (refs : List PhaseEndpointRef) (s t : Search) → visit_all g refs s ≡ some (ok t)
    → Restores s t
unfolding visit_all
visit_all-Restores g step [] s t h v = ground arith
visit_all-Restores g step (ref ∷ refs) s t h v = elim (Answer-cases (g ref s)) [
  | inl e ↦ absurd (ground arith)
  | inr (inl (x, e)) ↦ absurd (ground arith)
  | inr (inr (r, e)) ↦ visit_all-Restores g step refs r t (ground arith) v ∙ step ref s r e v
]

pub visit-Restores :
    (arcs : List Arrow) (fuel : ℕ) (ref : PhaseEndpointRef) (s t : Search)
    → visit arcs fuel ref s ≡ some (ok t)
    → Restores s t
unfolding visit mem
visit-Restores arcs zero ref s t h v = cc
visit-Restores arcs (suc fuel) ref s t h v = elim (visit-ok arcs fuel ref s t h) [
  | inl (seen, e) ↦ ground arith
  | inr (fresh, r, loop, e) ↦
      let inner =
        visit_all-Restores (visit arcs fuel) (visit-Restores arcs fuel) (adjacent arcs ref)
          (enter ref s) r loop v in
      ground (arith, mem-remove v ref r.visiting)
]
