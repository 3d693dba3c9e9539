-- ===== src/Coordination/Tests/Reconciles.antt =====
-- A reconcile of a project with one endpoint to run.
use threadmill_agent_teams.Base.{
  ℕ, ◌≡◌, ◌≢◌, inl, In, refl, true, none, some, [], ◌∷◌, pos, lookup, string_eq, nat_eq,
}
use threadmill_agent_teams.Kernel.Errors.{ok}
use threadmill_agent_teams.Coordination.Types.{
  EndpointId, EndpointState, CommandAction, LeaseState, PhaseEndpoint, PhaseLease, endpoint_id_eq,
  phase_endpoint_ref_eq,
}
use threadmill_agent_teams.Coordination.Store.Project.{
  MemoryStore, new_memory_store, ensure_project,
}
use threadmill_agent_teams.Coordination.Store.Invariant.{replaces, run}
use threadmill_agent_teams.Coordination.Runtime.Commands.{fresh, run_command, run_id_of}
use threadmill_agent_teams.Coordination.Reconcile.Claims.{fixed_capacity_selection}
use threadmill_agent_teams.Coordination.Reconcile.Loop.{Clock, RuntimeOptions, dispatch, reconcile}
use threadmill_agent_teams.Coordination.Reconcile.Dispatch.{Stopping}
use threadmill_agent_teams.Coordination.Reconcile.Stops.{expired}
use threadmill_agent_teams.Coordination.Reconcile.Stopped.{Stopped, stop_id}
use threadmill_agent_teams.Coordination.Reconcile.Stopping.{dispatch-Stops}
use threadmill_agent_teams.Coordination.Runtime.View.{RuntimeView, new_runtime_view, active_leases}
use threadmill_agent_teams.Coordination.Runtime.Port.{RuntimeSchedulingState}
use threadmill_agent_teams.Coordination.Reconcile.Ends.{Ends}
use threadmill_agent_teams.Coordination.Reconcile.Total.{
  reconcile-Ends, fixed_capacity_selection-SelectsOffered,
}
use threadmill_agent_teams.Coordination.Tests.Code.{all_code}
use threadmill_agent_teams.Coordination.Tests.RuntimeCode.{runtime_code}
use threadmill_agent_teams.Coordination.Tests.ReconcileCode.{reconcile_code}
use threadmill_agent_teams.Coordination.Tests.Data.{pending, endpoint}

abbrev options : RuntimeOptions ℕ
options = record {
  controller = some (λ c. none);
  select_runnable = fixed_capacity_selection {Cost = ℕ};
  scheduling = ok (record {
    capacity = record { desired = pos 1; healthy = pos 1; active = pos 0; revision = pos 0 };
    budget = record {
      tokens_used = pos 0;
      cost_usd = 0;
      wall_time_ms = pos 0;
      agent_invocations_used = pos 0;
      retries_used = pos 0;
    };
  });
}

abbrev clock : Clock
clock = record { loaded = 1; folded = 2; repaired = 3; claimed = λ e. 4 }

abbrev store : MemoryStore
store = run new_memory_store (replaces "p" pending ∷ [])

abbrev plan : PhaseEndpoint
plan = endpoint EndpointId.plan EndpointState.pending

-- The plan endpoint is claimed, delivered and accepted.
accepts_plan :
    lookup (run_id_of plan) (reconcile options clock (ensure_project store "p")).0.runtime.commands
    ≡ some
        (record (fresh (run_command plan CommandAction.start "revision://2")) { accepted = true })
unfolding all_code runtime_code reconcile_code
accepts_plan = refl

-- The endpoint's lease of the generation before, which has expired.
abbrev old_lease : PhaseLease
old_lease = record {
  lease_ref = "old";
  endpoint = plan.ref;
  generation = 1;
  binding_ref = plan.binding_ref;
  state = LeaseState.active;
  expires_at = 0;
  expired = true;
}

abbrev leased : RuntimeView
leased = record (new_runtime_view (ensure_project store "p")) { leases = ("old", old_lease) ∷ [] }

abbrev scheduling : RuntimeSchedulingState ℕ
scheduling = record {
  capacity = record { desired = pos 1; healthy = pos 1; active = pos 0; revision = pos 0 };
  budget = record {
    tokens_used = pos 0;
    cost_usd = 0;
    wall_time_ms = pos 0;
    agent_invocations_used = pos 0;
    retries_used = pos 0;
  };
}

old_lease-listed : In old_lease (active_leases leased)
unfolding all_code runtime_code reconcile_code
old_lease-listed = inl refl

dispatch-Stops_example :
    lookup
      (stop_id leased old_lease)
      (dispatch options clock leased scheduling (ensure_project store "p")).0.runtime.commands
    ≢ none
dispatch-Stops_example =
    dispatch-Stops options clock leased scheduling (ensure_project store "p") old_lease
      old_lease-listed (expired refl)

reconcile-Ends_example : Ends (reconcile options clock (ensure_project store "p"))
reconcile-Ends_example =
    reconcile-Ends options clock fixed_capacity_selection-SelectsOffered (ensure_project store "p")
