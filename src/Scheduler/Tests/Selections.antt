-- ===== src/Scheduler/Tests/Selections.antt =====
-- The theorems on the selection at three candidates, with costs in whole dollars.
use threadmill_agent_teams.Base.{
  ℕ, ◌≡◌, refl, Bool, true, false, List, [], ◌∷◌, ltb, leb, ℤ, pos, inl, In, arith,
}
use threadmill_agent_teams.Coordination.Types.{EndpointId, EndpointState, RunPolicy, endpoint_id_eq}
use threadmill_agent_teams.Coordination.Runtime.Port.{RuntimeCandidate, RuntimeBudgetStatus}
use threadmill_agent_teams.Scheduler.Select.{BudgetPolicy, chosen, budget_constrained}
use threadmill_agent_teams.Scheduler.Bounds.{Chosen, chosen-Chosen}
use threadmill_agent_teams.Scheduler.Tests.Code.{scheduler_code}

abbrev candidate : EndpointId → ℤ → RuntimeCandidate
candidate id cost = record {
  endpoint = record {
    ref = record { task_id = "task"; endpoint_id = id };
    spec_ref = "spec";
    state = EndpointState.pending;
    run_policy = RunPolicy.enabled;
    generation = 1;
    binding_ref = "binding";
  };
  runnable = true;
  capacity_cost = cost;
  capability_matched = true;
  latest_main_merge_candidate = false;
  unblocks_dependents = false;
  write_conflict_risk = pos 0;
  exploratory = false;
}

abbrev candidates : List RuntimeCandidate
candidates =
    candidate EndpointId.plan (pos 2)
    ∷ candidate EndpointId.execute (pos 0)
    ∷ candidate EndpointId.verify (pos 2)
    ∷ []

abbrev policy : BudgetPolicy ℕ
policy = record {
  max_tokens = pos 100;
  max_cost_usd = 5;
  max_wall_time_ms = pos 0;
  max_agent_invocations = pos 0;
  max_retries = pos 0;
  verify_level = "";
  exploration_level = "";
}

abbrev budget_of : ℤ → RuntimeBudgetStatus ℕ
budget_of tokens = record {
  tokens_used = tokens;
  cost_usd = 1;
  wall_time_ms = pos 0;
  agent_invocations_used = pos 0;
  retries_used = pos 0;
}

abbrev positive : ℕ → Bool
positive = ltb 0

takes_two :
    chosen positive leb policy candidates (pos 4) (budget_of (pos 0))
    ≡ candidate EndpointId.verify (pos 2) ∷ candidate EndpointId.execute (pos 1) ∷ []
unfolding scheduler_code
takes_two = refl

chosen-Chosen_example :
    Chosen positive leb policy
      (budget_of (pos 0))
      (pos 4)
      candidates
      (chosen positive leb policy candidates (pos 4) (budget_of (pos 0)))
chosen-Chosen_example =
    chosen-Chosen positive leb policy (budget_of (pos 0)) candidates (pos 4) (omega arith)
      (omega arith)

tokens_spent : budget_constrained positive leb policy (budget_of (pos 100)) ≡ true
unfolding scheduler_code
tokens_spent = refl

verify_is_chosen :
    In
      (candidate EndpointId.verify (pos 2))
      (chosen positive leb policy candidates (pos 4) (budget_of (pos 100)))
unfolding scheduler_code
verify_is_chosen = inl refl
