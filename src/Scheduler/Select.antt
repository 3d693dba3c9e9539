-- ===== src/Scheduler/Select.antt =====
-- `Select` of internal/scheduler/scheduler.go. Costs in dollars are of a type that is a parameter,
-- with the tests that the code makes of them: `positive limit` is `limit > 0`, and `spent limit used`
-- is `used >= limit`.
use threadmill_agent_teams.Base.{
  ℕ, Bool, true, ◌&&◌, ◌||◌, not, List, [], ◌∷◌, map, String, ◌==◌, if◌then◌else◌, ltb, string_eq,
  ℤ, pos, ◌+ℤ◌, ◌-ℤ◌, ◌*ℤ◌, ltb_ℤ, leb_ℤ, int64, int_eq, text_lt, sort,
}
use threadmill_agent_teams.Coordination.Types.{
  EndpointId, PhaseEndpointRef, PhaseEndpoint, endpoint_id_eq,
}
use threadmill_agent_teams.Coordination.Runtime.Port.{
  RuntimeCandidate, RuntimeCapacity, RuntimeBudgetStatus, available,
}

pub record BudgetPolicy (Cost : Type 0) : Type 0 where
  pub max_tokens : ℤ
  pub max_cost_usd : Cost
  pub max_wall_time_ms : ℤ
  pub max_agent_invocations : ℤ
  pub max_retries : ℤ
  pub verify_level : String
  pub exploration_level : String

unfoldable pub phase_rank : EndpointId → ℕ
phase_rank EndpointId.plan = 0
phase_rank EndpointId.execute = 1
phase_rank EndpointId.verify = 2
phase_rank (EndpointId.other s) = 99

unfoldable pub endpoint_less : PhaseEndpointRef → PhaseEndpointRef → Bool
unfolding phase_rank
endpoint_less left right =
    if left.task_id == right.task_id
    then ltb (phase_rank left.endpoint_id) (phase_rank right.endpoint_id)
    else text_lt left.task_id right.task_id

-- limit > 0 && used >= limit
abbrev pub reached : ℤ → ℤ → Bool
reached limit used = ltb_ℤ (pos 0) limit && leb_ℤ limit used

unfoldable pub phase_value : EndpointId → ℤ
phase_value EndpointId.verify = pos 600
phase_value EndpointId.execute = pos 300
phase_value EndpointId.plan = pos 100
phase_value (EndpointId.other s) = pos 0

abbrev pub bonus : Bool → ℕ → ℤ
bonus test n = if test then pos n else pos 0

unfoldable pub with_cost : RuntimeCandidate → RuntimeCandidate
with_cost c = if leb_ℤ c.capacity_cost (pos 0) then record c { capacity_cost = pos 1 } else c

-- The loop over the sorted candidates, from the capacity that is already used.
unfoldable pub take_fitting : ℤ → ℤ → List RuntimeCandidate → List RuntimeCandidate
unfolding int64 ◌+ℤ◌
take_fitting limit used [] = []
take_fitting limit used (c ∷ cs) =
    let next = int64 (used +ℤ c.capacity_cost) in
    let skipped = take_fitting limit used cs in
    let taken = take_fitting limit next cs in if ltb_ℤ limit next then skipped else c ∷ taken

module _ {Cost : Type 0} (positive : Cost → Bool) (spent : Cost → Cost → Bool) where
  unfoldable pub budget_constrained : BudgetPolicy Cost → RuntimeBudgetStatus Cost → Bool
  budget_constrained policy budget =
      reached policy.max_agent_invocations budget.agent_invocations_used
      || reached policy.max_retries budget.retries_used
      || reached policy.max_tokens budget.tokens_used
      || (positive policy.max_cost_usd && spent policy.max_cost_usd budget.cost_usd)
      || reached policy.max_wall_time_ms budget.wall_time_ms

  unfoldable pub within_budget :
      BudgetPolicy Cost → RuntimeCandidate → RuntimeBudgetStatus Cost → Bool
  within_budget policy c budget =
      let is_verify = c.endpoint.ref.endpoint_id == EndpointId.verify in
      if reached policy.max_agent_invocations budget.agent_invocations_used
      then is_verify
      else if reached policy.max_retries budget.retries_used
      then is_verify
      else if reached policy.max_tokens budget.tokens_used
      then is_verify
      else if positive policy.max_cost_usd && spent policy.max_cost_usd budget.cost_usd
      then is_verify
      else if reached policy.max_wall_time_ms budget.wall_time_ms
      then is_verify
      else true

  -- The sum in the order of the code; only the last step can leave 64 bits.
  unfoldable pub score : RuntimeCandidate → BudgetPolicy Cost → RuntimeBudgetStatus Cost → ℤ
  unfolding phase_value budget_constrained int64 ◌+ℤ◌ ◌-ℤ◌ ◌*ℤ◌
  score c policy budget = int64 (
      bonus c.latest_main_merge_candidate 1000
      +ℤ bonus c.unblocks_dependents 700
      +ℤ phase_value c.endpoint.ref.endpoint_id
      -ℤ bonus c.exploratory 200
      +ℤ bonus (budget_constrained policy budget && c.endpoint.ref.endpoint_id == EndpointId.verify)
          500
      -ℤ int64 (c.write_conflict_risk *ℤ 25))

  -- The candidates that the first loop keeps, each with a cost of at least one.
  unfoldable pub filtered :
      BudgetPolicy Cost
      → ℤ
      → RuntimeBudgetStatus Cost
      → List RuntimeCandidate
      → List RuntimeCandidate
  unfolding with_cost
  filtered policy limit budget [] = []
  filtered policy limit budget (candidate ∷ rest) =
      let c = with_cost candidate in
      let more = filtered policy limit budget rest in
      if not candidate.runnable || not candidate.capability_matched
      then more
      else if ltb_ℤ limit c.capacity_cost
      then more
      else if not (within_budget policy c budget)
      then more
      else c ∷ more

  unfoldable pub candidate_less :
      BudgetPolicy Cost → RuntimeBudgetStatus Cost → RuntimeCandidate → RuntimeCandidate → Bool
  unfolding score endpoint_less
  candidate_less policy budget a b =
      let left = score a policy budget in
      let right = score b policy budget in
      if left == right then endpoint_less a.endpoint.ref b.endpoint.ref else ltb_ℤ right left

  unfoldable pub chosen :
      BudgetPolicy Cost
      → List RuntimeCandidate
      → ℤ
      → RuntimeBudgetStatus Cost
      → List RuntimeCandidate
  unfolding sort candidate_less filtered take_fitting
  chosen policy candidates limit budget =
      if leb_ℤ limit (pos 0)
      then []
      else (take_fitting limit (pos 0)
          (sort (candidate_less policy budget) (filtered policy limit budget candidates)))

  unfoldable pub select_endpoints :
      BudgetPolicy Cost
      → List RuntimeCandidate
      → RuntimeCapacity
      → RuntimeBudgetStatus Cost
      → List PhaseEndpoint
  unfolding chosen available
  select_endpoints policy candidates capacity budget =
      map (λ (c : RuntimeCandidate). c.endpoint)
        (chosen policy candidates (available capacity) budget)
