-- ===== src/Coordination/Reconcile/Stopping.antt =====
-- The stops of a reconcile of internal/coordination/runtime.go outlast its claims and deliveries.
use threadmill_agent_teams.Base.{◌≢◌, none, List, [], ◌∷◌, string_eq, lookup, In, subst, sym, arith}
use threadmill_agent_teams.Coordination.Types.{PhaseLease}
use threadmill_agent_teams.Coordination.Store.Project.{ProjectState}
use threadmill_agent_teams.Coordination.Runtime.Commands.{with_runtime}
use threadmill_agent_teams.Coordination.Runtime.Port.{RuntimeSchedulingState}
use threadmill_agent_teams.Coordination.Runtime.View.{RuntimeView, active_leases}
use threadmill_agent_teams.Coordination.Runtime.Lasting.{Lasts, written-Lasts}
use threadmill_agent_teams.Coordination.Runtime.Writes.{RuntimeWrite, written}
use threadmill_agent_teams.Coordination.Reconcile.Run.{each_with, after}
use threadmill_agent_teams.Coordination.Reconcile.Dispatch.{stop_lease}
use threadmill_agent_teams.Coordination.Reconcile.Loop.{
  Clock, RuntimeOptions, claim_and_deliver, dispatch, reconcile,
}
use threadmill_agent_teams.Coordination.Reconcile.Traced.{performed, Trace, nothing, after-Trace}
use threadmill_agent_teams.Coordination.Reconcile.Whole.{claim_and_deliver-Traced, reconcile-Traced}
use threadmill_agent_teams.Coordination.Reconcile.Stops.{Stops}
use threadmill_agent_teams.Coordination.Reconcile.Stopped.{stop_id, active_leases-Stopped}

performed-Lasts :
    (p : ProjectState) (ws : List RuntimeWrite)
    → Lasts p.runtime.commands (performed p ws).runtime.commands
unfolding performed
performed-Lasts p [] id has = has
performed-Lasts p (w ∷ ws) id has =
    performed-Lasts (with_runtime p (written p w)) ws id (written-Lasts p w id has)

Trace-Lasts : (p q : ProjectState) → Trace p q → Lasts p.runtime.commands q.runtime.commands
Trace-Lasts p q (ws, same) =
    subst (λ (x : ProjectState). Lasts p.runtime.commands x.runtime.commands) (sym same)
      (performed-Lasts p ws)

-- After the part of a reconcile that stops, claims and delivers, each lease that it takes as active and
-- that is to be stopped, for any of the reasons, has a command under its stop identifier, whatever the
-- selection and the controller answer, and also where that part ends in an error.
pub dispatch-Stops :
    {Cost : Type 0} (options : RuntimeOptions Cost) (clock : Clock) (view : RuntimeView)
    (scheduling : RuntimeSchedulingState Cost) (p : ProjectState) (lease : PhaseLease)
    → In lease (active_leases view)
    → Stops view lease
    → lookup (stop_id view lease) (dispatch options clock view scheduling p).0.runtime.commands
      ≢ none
unfolding dispatch
dispatch-Stops options clock view scheduling p lease listed why =
    let ran = each_with stop_lease (view, []) (active_leases view) p in
    let rest = claim_and_deliver options clock scheduling in
    let trace =
      after-Trace rest ran.0 ran (claim_and_deliver-Traced options clock scheduling)
        (nothing ran.0) in
    let (r, found) = (active_leases-Stopped view p).0.every lease listed why in
    Trace-Lasts ran.0 (after rest ran).0 trace (stop_id view lease) (λ gone. ground arith)

-- A reconcile removes no command.
reconcile-Lasts :
    {Cost : Type 0} (options : RuntimeOptions Cost) (clock : Clock) (p : ProjectState)
    → Lasts p.runtime.commands (reconcile options clock p).0.runtime.commands
reconcile-Lasts options clock p =
    Trace-Lasts p (reconcile options clock p).0 (reconcile-Traced options clock p)
