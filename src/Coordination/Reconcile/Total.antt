-- ===== src/Coordination/Reconcile/Total.antt =====
-- `reconcile` of internal/coordination/runtime.go ends, with the selection that a runtime has by default
-- and with the scheduler's.
use threadmill_agent_teams.Base.{
  ◌≡◌, inl, inr, refl, sym, ◌∙◌, ap, subst, Bool, if_cases, Option, none, some, List, [], ◌∷◌, ◌++◌,
  map, In, length, ℤ, pos, ◌-ℤ◌, leb_ℤ, select, arith,
}
use threadmill_agent_teams.Kernel.Errors.{Result, ok, err, ok-injective}
use threadmill_agent_teams.Coordination.Types.{PhaseEndpoint}
use threadmill_agent_teams.Coordination.Store.Project.{ProjectState}
use threadmill_agent_teams.Coordination.Runtime.Port.{
  RuntimeCandidate, RuntimeSchedulingState, available,
}
use threadmill_agent_teams.Coordination.Runtime.View.{
  RuntimeView, load_runtime_view, active_leases, pending_commands,
}
use threadmill_agent_teams.Coordination.Reconcile.Run.{Run, pure, after, each_with, each_run}
use threadmill_agent_teams.Coordination.Reconcile.Fold.{fold_observations, repair_decision_pairs}
use threadmill_agent_teams.Coordination.Reconcile.Dispatch.{
  stop_lease, not_suppressed, graph_runnable, runtime_candidates, unique_by_command_id, deliver,
}
use threadmill_agent_teams.Coordination.Reconcile.Claims.{
  select_runtime_endpoints, runtime_candidate_endpoints, fixed_capacity_selection,
}
use threadmill_agent_teams.Coordination.Reconcile.Loop.{
  Clock, RuntimeOptions, Ended, scheduling_state, counted, deliver_all, claim_all,
  claim_and_deliver, dispatch, schedule_and_dispatch, repair_and_dispatch, reconcile,
}
use threadmill_agent_teams.Coordination.Reconcile.Ends.{
  Offers, SelectsOffered, Ends, after-Ends, claim_rounds-Ends,
}
use threadmill_agent_teams.Scheduler.Select.{BudgetPolicy, with_cost, chosen, select_endpoints}
use threadmill_agent_teams.Scheduler.Bounds.{chosen-Admissible}

after_some-Ends :
    {A : Type 0} {B : Type 0} (f : Option A → Run (Option B)) (r : ProjectState × Result (Option A))
    → Ends r
    → ((a : A) (p : ProjectState) → Ends (f (some a) p))
    → Ends (after f r)
after_some-Ends f (p, err e) ends t = tt
after_some-Ends f (p, ok none) ends t = absurd ends
after_some-Ends f (p, ok (some a)) ends t = t a p

module _ {Cost : Type 0} (options : RuntimeOptions Cost) (clock : Clock)
    (offered : SelectsOffered options.select_runnable) where
  dispatch-Ends :
      (view : RuntimeView) (scheduling : RuntimeSchedulingState Cost) (p : ProjectState)
      → Ends (dispatch options clock view scheduling p)
  unfolding dispatch claim_all
  dispatch-Ends view scheduling p =
      after-Ends (claim_and_deliver options clock scheduling)
        (each_with stop_lease (view, []) (active_leases view) p)
        (λ stopping q.
          after_some-Ends (deliver_all options.controller)
            (claim_all options clock scheduling stopping q)
            (claim_rounds-Ends options.select_runnable offered scheduling stopping.0 clock.claimed
              (length (runtime_candidates (graph_runnable stopping.0)))
              (runtime_candidates (graph_runnable stopping.0))
              (stopping.1 ++ select (not_suppressed stopping.0) (pending_commands stopping.0)) q
              (omega arith))
            (λ commands r.
              after-Ends (λ u. pure {A = Ended} (some tt))
                (each_run (deliver options.controller) (unique_by_command_id commands) r)
                (λ u t. tt)))

  scheduled-Ends :
      (view : RuntimeView) (state : Result (RuntimeSchedulingState Cost)) (p : ProjectState)
      → Ends (after (dispatch options clock view) (scheduling_state state view p))
  unfolding scheduling_state
  scheduled-Ends view (err e) p = tt
  scheduled-Ends view (ok state) p = dispatch-Ends view (counted state view) p

  -- Where the selection chooses among the candidates that it is given, the rounds of claims suffice: a
  -- reconcile ends, in an error or after its deliveries.
  pub reconcile-Ends : (p : ProjectState) → Ends (reconcile options clock p)
  unfolding reconcile
  reconcile-Ends p =
      after-Ends (repair_and_dispatch options clock)
        (fold_observations (load_runtime_view p clock.loaded) clock.folded p)
        (λ folded q.
          after-Ends (schedule_and_dispatch options clock)
            (repair_decision_pairs folded clock.repaired q)
            (λ repaired r. scheduled-Ends repaired options.scheduling r))

select_runtime_endpoints-In :
    (endpoints : List PhaseEndpoint) (capacity : ℤ) (e : PhaseEndpoint)
    → In e (select_runtime_endpoints endpoints capacity)
    → In e endpoints
unfolding select_runtime_endpoints
select_runtime_endpoints-In [] capacity e m = m
select_runtime_endpoints-In (d ∷ endpoints) capacity e m =
    if_cases (λ l. In e l → In e (d ∷ endpoints)) (leb_ℤ capacity (pos 0)) (λ k. absurd k)
      (λ k. elim k [
        | inl here ↦ inl here
        | inr there ↦ inr (select_runtime_endpoints-In endpoints (capacity -ℤ pos 1) e there)
      ])
      m

Offers-cons :
    (d : RuntimeCandidate) (candidates : List RuntimeCandidate) (e : PhaseEndpoint)
    → Offers candidates e
    → Offers (d ∷ candidates) e
Offers-cons d candidates e (c, m, same) = (c, inr m, same)

runtime_candidate_endpoints-Offers :
    (candidates : List RuntimeCandidate) (e : PhaseEndpoint)
    → In e (runtime_candidate_endpoints candidates)
    → Offers candidates e
unfolding runtime_candidate_endpoints
runtime_candidate_endpoints-Offers [] e m = absurd m
runtime_candidate_endpoints-Offers (c ∷ candidates) e m =
    let later = λ (k : In e (runtime_candidate_endpoints candidates)).
      Offers-cons c candidates e (runtime_candidate_endpoints-Offers candidates e k) in
    if_cases (λ l. In e l → Offers (c ∷ candidates) e) c.runnable
      (λ k. elim k [
        | inl here ↦ (c, inl refl, ap (λ (x : PhaseEndpoint). x.ref) here)
        | inr there ↦ later there
      ])
      later m

-- The default selection chooses among the candidates.
pub fixed_capacity_selection-SelectsOffered :
    {Cost : Type 0} → SelectsOffered (fixed_capacity_selection {Cost = Cost})
unfolding fixed_capacity_selection
fixed_capacity_selection-SelectsOffered candidates capacity budget selected e h m =
    runtime_candidate_endpoints-Offers candidates e (
      select_runtime_endpoints-In (runtime_candidate_endpoints candidates) (available capacity) e
        (subst (λ l. In e l) (sym (ok-injective h)) m))

In-map_endpoint :
    (l : List RuntimeCandidate) (e : PhaseEndpoint)
    → In e (map (λ (c : RuntimeCandidate). c.endpoint) l)
    → (c : RuntimeCandidate) × In c l × (c.endpoint ≡ e)
In-map_endpoint [] e m = absurd m
In-map_endpoint (c ∷ l) e (inl here) = (c, inl refl, here)
In-map_endpoint (c ∷ l) e (inr there) =
    let (d, m, same) = In-map_endpoint l e there in (d, inr m, same)

with_cost-endpoint : (c : RuntimeCandidate) → (with_cost c).endpoint ≡ c.endpoint
unfolding with_cost
with_cost-endpoint c = ground arith

-- And so does the scheduler's.
pub select_endpoints-SelectsOffered :
    {Cost : Type 0} (positive : Cost → Bool) (spent : Cost → Cost → Bool)
    (policy : BudgetPolicy Cost)
    → SelectsOffered (λ candidates capacity budget.
      ok (select_endpoints positive spent policy candidates capacity budget))
unfolding select_endpoints
select_endpoints-SelectsOffered positive spent policy candidates capacity budget selected e h m =
    let (c, in_chosen, same) =
      In-map_endpoint (chosen positive spent policy candidates (available capacity) budget) e
        (subst (λ l. In e l) (sym (ok-injective h)) m) in
    let a =
      chosen-Admissible positive spent policy budget candidates (available capacity) c in_chosen in
    let from_origin : c.endpoint ≡ a.origin.endpoint =
      ap (λ (x : RuntimeCandidate). x.endpoint) a.costed ∙ with_cost-endpoint a.origin in
    (a.origin, a.listed, ap (λ (x : PhaseEndpoint). x.ref) (sym from_origin ∙ same))
