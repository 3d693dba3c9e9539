-- ===== src/Scheduler/Bounds.antt =====
-- What the selection of internal/scheduler/scheduler.go keeps within: the capacity and the budget.
use threadmill_agent_teams.Base.{
  ◌^◌, ◌<◌, ◌≡◌, ◌⊎◌, inl, inr, refl, sym, subst, Bool, true, ◌||◌, not, List, [], ◌∷◌, In, All,
  All-In, All-of_In, All-map, sort, sort-In, In-sort, if_cases, if_split, ℤ, pos, above, ◌+ℤ◌, ◌≤ℤ◌,
  ◌<ℤ◌, ltb_ℤ, leb_ℤ, +ℤ_lem, int_eq, arith,
}
use threadmill_agent_teams.Coordination.Types.{EndpointId, endpoint_id_eq}
use threadmill_agent_teams.Coordination.Runtime.Port.{RuntimeCandidate, RuntimeBudgetStatus}
use threadmill_agent_teams.Scheduler.Select.{
  BudgetPolicy, with_cost, take_fitting, filtered, chosen, within_budget, budget_constrained,
  candidate_less,
}
use threadmill_agent_teams.Scheduler.Fitting.{
  total_cost, Costed, take_fitting-Taken, take_fitting-In,
}

module _ {Cost : Type 0} (positive : Cost → Bool) (spent : Cost → Cost → Bool)
    (policy : BudgetPolicy Cost) (budget : RuntimeBudgetStatus Cost) where
  -- A candidate of the list that may run: with its cost made at least one, it is runnable, its
  -- capability matches, and it is within the capacity and the budget.
  pub record Admissible (limit : ℤ) (candidates : List RuntimeCandidate) (c : RuntimeCandidate)
      : Type 0 where
    pub origin : RuntimeCandidate
    pub listed : In origin candidates
    pub costed : c ≡ with_cost origin
    pub runnable : origin.runnable ≡ true
    pub matched : origin.capability_matched ≡ true
    pub cost : (pos 1 ≤ℤ c.capacity_cost) × (c.capacity_cost ≤ℤ limit)
    pub allowed : within_budget positive spent policy c budget ≡ true

  Admissible-cons :
      (limit : ℤ) (d : RuntimeCandidate) (candidates : List RuntimeCandidate) (c : RuntimeCandidate)
      → Admissible limit candidates c
      → Admissible limit (d ∷ candidates) c
  Admissible-cons limit d candidates c a = record {
    origin = a.origin;
    listed = inr a.listed;
    costed = a.costed;
    runnable = a.runnable;
    matched = a.matched;
    cost = a.cost;
    allowed = a.allowed;
  }

  filtered-Admissible :
      (limit : ℤ) (candidates : List RuntimeCandidate)
      → All (Admissible limit candidates) (filtered positive spent policy limit budget candidates)
  unfolding filtered with_cost
  filtered-Admissible limit [] = tt
  filtered-Admissible limit (d ∷ candidates) =
      let rest =
        All-map (Admissible limit candidates) (Admissible limit (d ∷ candidates))
          (Admissible-cons limit d candidates)
          (filtered positive spent policy limit budget candidates)
          (filtered-Admissible limit candidates) in
      let Good = All (Admissible limit (d ∷ candidates)) in
      if_split Good (not d.runnable || not d.capability_matched) (λ h. rest)
        (λ able.
          if_split Good (ltb_ℤ limit (with_cost d).capacity_cost) (λ h. rest)
            (λ fits.
              if_split Good (not (within_budget positive spent policy (with_cost d) budget))
                (λ h. rest)
                (λ paid. (
                  record {
                    origin = d;
                    listed = inl refl;
                    costed = refl;
                    runnable = ground arith;
                    matched = ground arith;
                    cost = (ground arith, ground arith);
                    allowed = ground arith;
                  },
                  rest,
                ))))

  with_cost-filtered :
      (limit : ℤ) (candidates : List RuntimeCandidate) (o : RuntimeCandidate)
      → In o candidates
      → o.runnable ≡ true
      → o.capability_matched ≡ true
      → (with_cost o).capacity_cost ≤ℤ limit
      → within_budget positive spent policy (with_cost o) budget ≡ true
      → In (with_cost o) (filtered positive spent policy limit budget candidates)
  unfolding filtered
  with_cost-filtered limit [] o m runs matches fits paid = absurd m
  with_cost-filtered limit (d ∷ candidates) o (inl e) runs matches fits paid =
      let kept : with_cost o ∷ filtered positive spent policy limit budget candidates
          ≡ filtered positive spent policy limit budget (o ∷ candidates) =
        ground arith in
      subst (λ x. In (with_cost o) (filtered positive spent policy limit budget (x ∷ candidates)))
        (sym e) (subst (In (with_cost o)) kept (inl refl))
  with_cost-filtered limit (d ∷ candidates) o (inr m) runs matches fits paid =
      let rest = with_cost-filtered limit candidates o m runs matches fits paid in
      let Kept = In (with_cost o) in
      if_split Kept (not d.runnable || not d.capability_matched) (λ h. rest)
        (λ able.
          if_split Kept (ltb_ℤ limit (with_cost d).capacity_cost) (λ h. rest)
            (λ small.
              if_split Kept (not (within_budget positive spent policy (with_cost d) budget))
                (λ h. rest) (λ spare. inr rest)))

  -- The first loop keeps every candidate that may run.
  Admissible-filtered :
      (limit : ℤ) (candidates : List RuntimeCandidate) (c : RuntimeCandidate)
      → Admissible limit candidates c
      → In c (filtered positive spent policy limit budget candidates)
  Admissible-filtered limit candidates c a =
      let same = a.costed in
      subst (λ x. In x (filtered positive spent policy limit budget candidates)) (sym same)
        (with_cost-filtered limit candidates a.origin a.listed a.runnable a.matched
          (subst (λ (x : RuntimeCandidate). x.capacity_cost ≤ℤ limit) same a.cost.1)
          (subst (λ x. within_budget positive spent policy x budget ≡ true) same a.allowed))

  pub chosen-Admissible :
      (candidates : List RuntimeCandidate) (limit : ℤ) (c : RuntimeCandidate)
      → In c (chosen positive spent policy candidates limit budget)
      → Admissible limit candidates c
  unfolding chosen
  chosen-Admissible candidates limit c m =
      let kept = filtered positive spent policy limit budget candidates in
      let sorted = sort (candidate_less positive spent policy budget) kept in
      if_cases (λ l. In c l → Admissible limit candidates c) (leb_ℤ limit (pos 0)) (λ k. absurd k)
        (λ k. All-In (Admissible limit candidates) c kept (filtered-Admissible limit candidates) (
          sort-In (candidate_less positive spent policy budget) c kept
            (take_fitting-In limit (pos 0) c sorted k)))
        m

  -- What is chosen fits the capacity together, and what could run and is left out does not fit
  -- beside it.
  pub record Chosen (limit : ℤ) (candidates ts : List RuntimeCandidate) : Type 0 where
    pub fits : total_cost ts ≤ℤ limit
    pub admissible : (c : RuntimeCandidate) → In c ts → Admissible limit candidates c
    pub full :
        (c : RuntimeCandidate)
        → Admissible limit candidates c
        → In c ts ⊎ (limit <ℤ total_cost ts +ℤ c.capacity_cost)

  -- What is selected has together at most the cost that is available, each of it is a candidate that
  -- may run, and a candidate that may run and is not selected does not fit beside it. The capacity is
  -- below 2 ^ 62, where the sum of costs cannot wrap.
  pub chosen-Chosen :
      (candidates : List RuntimeCandidate) (limit : ℤ)
      → pos 0 ≤ℤ limit
      → above limit < 2 ^ 62
      → Chosen limit candidates (chosen positive spent policy candidates limit budget)
  unfolding chosen total_cost
  chosen-Chosen candidates limit at_least small =
      let kept = filtered positive spent policy limit budget candidates in
      let less = candidate_less positive spent policy budget in
      let sorted = sort less kept in
      let good = filtered-Admissible limit candidates in
      let costed =
        All-of_In (Costed limit) sorted (λ c m.
          (All-In (Admissible limit candidates) c kept good (sort-In less c kept m)).cost) in
      let taken =
        take_fitting-Taken limit (pos 0) sorted small (omega arith) (omega (arith, at_least))
          costed in
      let ts = take_fitting limit (pos 0) sorted in
      record {
        fits =
            if_split (λ l. total_cost l ≤ℤ limit) (leb_ℤ limit (pos 0))
              (λ h. omega (arith, at_least))
              (λ h. omega (arith, taken.fits, +ℤ_lem (pos 0) (total_cost ts)));
        admissible = chosen-Admissible candidates limit;
        full = λ c able.
            let m = Admissible-filtered limit candidates c able in
            if_split (λ l. In c l ⊎ (limit <ℤ total_cost l +ℤ c.capacity_cost))
              (leb_ℤ limit (pos 0))
              (λ h.
                let own = (All-In (Admissible limit candidates) c kept good m).cost in
                absurd (ground (arith, own)))
              (λ h. elim (taken.left c (In-sort less c kept m)) [
                | inl k ↦ inl k
                | inr over ↦ inr (
                    omega (
                      arith,
                      over,
                      +ℤ_lem (pos 0) (total_cost ts),
                      +ℤ_lem (pos 0 +ℤ total_cost ts) c.capacity_cost,
                      +ℤ_lem (total_cost ts) c.capacity_cost,
                    ))
              ]);
      }

  -- Once a limit of the policy is reached, only verify endpoints are selected.
  pub chosen-verify :
      (candidates : List RuntimeCandidate) (limit : ℤ) (c : RuntimeCandidate)
      → budget_constrained positive spent policy budget ≡ true
      → In c (chosen positive spent policy candidates limit budget)
      → c.endpoint.ref.endpoint_id ≡ EndpointId.verify
  unfolding budget_constrained within_budget
  chosen-verify candidates limit c reached_limit m =
      let allowed = (chosen-Admissible candidates limit c m).allowed in ground arith
