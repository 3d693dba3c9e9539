-- ===== src/Scheduler/Ledgers.antt =====
-- CapacityLedger and BudgetLedger of internal/scheduler/scheduler.go. Each method runs under the
-- ledger's mutex.
use threadmill_agent_teams.Base.{
  ℕ, ◌%◌, ◌^◌, ◌+◌, ◌-◌, Bool, ◌&&◌, ◌||◌, ◌==◌, ◌!=◌, if◌then◌else◌, ℤ, pos, above, below, ◌+ℤ◌,
  ltb_ℤ, int64, int_eq,
}
use threadmill_agent_teams.Kernel.Errors.{Result, ok, ◌>>◌, reject_if, invalid_argument}
use threadmill_agent_teams.Kernel.Revision.{u64, revision_conflict_error}
use threadmill_agent_teams.Coordination.Runtime.Port.{RuntimeCapacity, RuntimeBudgetStatus}

unfoldable pub new_capacity_ledger : ℤ → ℤ → RuntimeCapacity
new_capacity_ledger healthy desired = record {
  desired = if ltb_ℤ desired (pos 0) then pos 0 else desired;
  healthy = if ltb_ℤ healthy (pos 0) then pos 0 else healthy;
  active = pos 0;
  revision = pos 1;
}

-- kernel.Revision(n): the 64-bit pattern of an int.
unfoldable pub as_revision : ℤ → ℕ
as_revision x = u64 (above x + (2 ^ 64 - below x % 2 ^ 64))

-- The ledger after the call, and the error if there is one; the capacity that is returned with it
-- is the ledger's.
unfoldable pub set_desired : RuntimeCapacity → ℤ → ℤ → Result RuntimeCapacity
unfolding as_revision ◌+ℤ◌ int64
set_desired c expected_revision desired = do
  reject_if (expected_revision != c.revision)
      (revision_conflict_error (as_revision expected_revision) (as_revision c.revision))
  reject_if (ltb_ℤ desired (pos 0)) (invalid_argument "desired concurrency must be zero or greater")
  ok (record c { desired = desired; revision = int64 (c.revision +ℤ pos 1) })

unfoldable pub observe_capacity : RuntimeCapacity → ℤ → ℤ → Result RuntimeCapacity
unfolding ◌+ℤ◌ int64
observe_capacity c healthy active = do
  reject_if (ltb_ℤ healthy (pos 0) || ltb_ℤ active (pos 0) || ltb_ℤ healthy active)
      (invalid_argument "observed capacity requires 0 <= active <= healthy")
  if c.healthy == healthy && c.active == active
      then ok c
      else ok
          (record c { healthy = healthy; active = active; revision = int64 (c.revision +ℤ pos 1) })

module _ {Cost : Type 0} (negative_cost : Cost → Bool) where
  unfoldable pub observe_budget :
      RuntimeBudgetStatus Cost → RuntimeBudgetStatus Cost → Result (RuntimeBudgetStatus Cost)
  observe_budget old budget = do
    reject_if
        (ltb_ℤ budget.tokens_used (pos 0)
          || negative_cost budget.cost_usd
          || ltb_ℤ budget.wall_time_ms (pos 0)
          || ltb_ℤ budget.agent_invocations_used (pos 0)
          || ltb_ℤ budget.retries_used (pos 0))
        (invalid_argument "budget usage cannot be negative")
    ok budget
