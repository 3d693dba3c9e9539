-- ===== src/Coordination/Runtime/Port.antt =====
-- internal/coordination/runtime_port.go: what the runtime and a scheduler exchange. A `float64` cost
-- is a value of a type that is a parameter.
use threadmill_agent_teams.Base.{Bool, ℤ, pos, ◌-ℤ◌, ltb_ℤ, int64, if◌then◌else◌}
use threadmill_agent_teams.Coordination.Types.{PhaseEndpoint}

pub record RuntimeCandidate : Type 0 where
  pub endpoint : PhaseEndpoint
  pub runnable : Bool
  pub capacity_cost : ℤ
  pub capability_matched : Bool
  pub latest_main_merge_candidate : Bool
  pub unblocks_dependents : Bool
  pub write_conflict_risk : ℤ
  pub exploratory : Bool

pub record RuntimeCapacity : Type 0 where
  pub desired : ℤ
  pub healthy : ℤ
  pub active : ℤ
  pub revision : ℤ

pub record RuntimeBudgetStatus (Cost : Type 0) : Type 0 where
  pub tokens_used : ℤ
  pub cost_usd : Cost
  pub wall_time_ms : ℤ
  pub agent_invocations_used : ℤ
  pub retries_used : ℤ

pub record RuntimeSchedulingState (Cost : Type 0) : Type 0 where
  pub capacity : RuntimeCapacity
  pub budget : RuntimeBudgetStatus Cost

unfoldable pub available : RuntimeCapacity → ℤ
unfolding int64 ◌-ℤ◌
available c =
    let limit = if ltb_ℤ c.healthy c.desired then c.healthy else c.desired in
    let free = int64 (limit -ℤ c.active) in if ltb_ℤ free (pos 0) then pos 0 else free
