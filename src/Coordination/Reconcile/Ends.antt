-- ===== src/Coordination/Reconcile/Ends.antt =====
-- The loop of claims in `reconcile` of internal/coordination/runtime.go ends, where what is selected
-- stands among the candidates.
use threadmill_agent_teams.Base.{
  ℕ, zero, suc, ◌≤◌, ◌<◌, ◌≡◌, inl, inr, refl, sym, ◌∙◌, ap, false, if◌then◌else◌, if_cases, Option,
  none, some, List, [], ◌∷◌, In, length, mem, arith,
}
use threadmill_agent_teams.Kernel.Errors.{Result, ok, err}
use threadmill_agent_teams.Coordination.Types.{
  PhaseEndpointRef, PhaseEndpoint, PhaseCommand, phase_endpoint_ref_eq,
}
use threadmill_agent_teams.Coordination.Store.Project.{ProjectState}
use threadmill_agent_teams.Coordination.Runtime.Port.{
  RuntimeCandidate, RuntimeCapacity, RuntimeBudgetStatus, RuntimeSchedulingState,
}
use threadmill_agent_teams.Coordination.Runtime.View.{RuntimeView}
use threadmill_agent_teams.Coordination.Reconcile.Run.{Run, pure, after, each_with}
use threadmill_agent_teams.Coordination.Reconcile.Claims.{
  Claims, claim_endpoint, claim_rounds, chosen_round, remove_selected_candidates, refs_of,
}

-- The reference of a candidate.
abbrev pub Offers : List RuntimeCandidate → PhaseEndpoint → Type 0
Offers candidates e = (c : RuntimeCandidate) × In c candidates × (c.endpoint.ref ≡ e.ref)

-- What is selected stands among the candidates.
abbrev pub SelectsOffered :
    {Cost : Type 0}
    → (List RuntimeCandidate
        → RuntimeCapacity
        → RuntimeBudgetStatus Cost
        → Result (List PhaseEndpoint))
    → Type 0
SelectsOffered {Cost} select_runnable =
    (candidates : List RuntimeCandidate) (capacity : RuntimeCapacity)
    (budget : RuntimeBudgetStatus Cost) (selected : List PhaseEndpoint) (e : PhaseEndpoint)
    → select_runnable candidates capacity budget ≡ ok selected
    → In e selected
    → Offers candidates e

length-remove :
    (candidates : List RuntimeCandidate) (refs : List PhaseEndpointRef)
    → length (remove_selected_candidates candidates refs) ≤ length candidates
unfolding remove_selected_candidates
length-remove [] refs = omega arith
length-remove (c ∷ candidates) refs = ground (arith, length-remove candidates refs)

-- A candidate that is selected is removed.
remove-shorter :
    (candidates : List RuntimeCandidate) (e : PhaseEndpoint) (selected : List PhaseEndpoint)
    → Offers candidates e
    → length (remove_selected_candidates candidates (refs_of (e ∷ selected))) < length candidates
unfolding remove_selected_candidates mem
remove-shorter [] e selected (c, m, same) = absurd m
remove-shorter (d ∷ candidates) e selected (c, inl here, same) =
    let shorter = length-remove candidates (refs_of (e ∷ selected)) in
    let gone : e.ref ≡ d.endpoint.ref =
      sym (ap (λ (x : RuntimeCandidate). x.endpoint.ref) here ∙ same) in
    ground (arith)
remove-shorter (d ∷ candidates) e selected (c, inr there, same) =
    let shorter = remove-shorter candidates e selected (c, there, same) in ground arith

-- A computation whose answer, if it has one, is not none.
abbrev pub Ends : {A : Type 0} → ProjectState × Result (Option A) → Type 0
Ends (p, err e) = Unit
Ends (p, ok none) = ⊥
Ends (p, ok (some a)) = Unit

pub after-Ends :
    {A : Type 0} {B : Type 0} (f : A → Run (Option B)) (r : ProjectState × Result A)
    → ((a : A) (p : ProjectState) → Ends (f a p))
    → Ends (after f r)
after-Ends f (p, err e) t = tt
after-Ends f (p, ok a) t = t a p

module _ {Cost : Type 0}
    (select_runnable : List RuntimeCandidate
      → RuntimeCapacity
      → RuntimeBudgetStatus Cost
      → Result (List PhaseEndpoint))
    (offered : SelectsOffered select_runnable) (scheduling : RuntimeSchedulingState Cost)
    (view : RuntimeView) (clock : PhaseEndpoint → ℕ) where
  chosen_round-Ends :
      (rounds : ℕ) (candidates : List RuntimeCandidate) (commands : List PhaseCommand)
      (choice : Result (List PhaseEndpoint))
      → select_runnable candidates scheduling.capacity scheduling.budget ≡ choice
      → length candidates ≤ suc rounds
      → ((cs : List RuntimeCandidate) (done : List PhaseCommand) (p : ProjectState)
          → length cs ≤ rounds
          → Ends (claim_rounds select_runnable scheduling view clock rounds cs done p))
      → (p : ProjectState)
      → Ends (
          chosen_round select_runnable scheduling view clock
            (claim_rounds select_runnable scheduling view clock rounds)
            candidates
            commands
            choice
            p)
  chosen_round-Ends rounds candidates commands (err failure) chose enough next p = tt
  chosen_round-Ends rounds candidates commands (ok []) chose enough next p = tt
  chosen_round-Ends rounds candidates commands (ok (e ∷ selected)) chose enough next p =
      let shorter = remove-shorter candidates e selected (
        offered candidates scheduling.capacity scheduling.budget (e ∷ selected) e chose
          (inl refl)) in
      after-Ends
        (λ (claims : Claims).
          if claims.0
          then pure (some claims.1)
          else claim_rounds select_runnable scheduling view clock rounds
              (remove_selected_candidates candidates (refs_of (e ∷ selected))) claims.1)
        (each_with (claim_endpoint view clock) (false, commands) (e ∷ selected) p)
        (λ claims q.
          if_cases (λ (m : Run (Option (List PhaseCommand))). Ends (m q)) claims.0 tt
            (next _ claims.1 q (omega (arith, shorter, enough))))

  pub claim_rounds-Ends :
      (rounds : ℕ) (candidates : List RuntimeCandidate) (commands : List PhaseCommand)
      (p : ProjectState)
      → length candidates ≤ rounds
      → Ends (claim_rounds select_runnable scheduling view clock rounds candidates commands p)
  unfolding claim_rounds
  claim_rounds-Ends zero [] commands p enough = tt
  claim_rounds-Ends zero (c ∷ candidates) commands p enough = absurd (omega (arith, enough))
  claim_rounds-Ends (suc rounds) [] commands p enough = tt
  claim_rounds-Ends (suc rounds) (c ∷ candidates) commands p enough =
      chosen_round-Ends rounds (c ∷ candidates) commands
        (select_runnable (c ∷ candidates) scheduling.capacity scheduling.budget) refl enough
        (λ cs done q few. claim_rounds-Ends rounds cs done q few) p
