-- ===== src/Coordination/Reconcile/Fold.antt =====
-- How internal/coordination/runtime.go folds observations and repairs leases and commands.
use threadmill_agent_teams.Base.{
  ℕ, Bool, ◌&&◌, ◌||◌, not, String, ◌==◌, ◌!=◌, if◌then◌else◌, insert, string_eq,
}
use threadmill_agent_teams.Kernel.Errors.{ok, incomplete_stop_evidence_error}
use threadmill_agent_teams.Coordination.Types.{
  CommandAction, ObservationKind, PhaseCommand, CommandRecord, PhaseLease, PhaseObservation,
  command_action_eq,
}
use threadmill_agent_teams.Coordination.Runtime.View.{
  RuntimeView, load_runtime_view, unfolded_observations, active_leases, has_command_for_lease,
  has_remote_observation, has_matching_active_lease,
}
use threadmill_agent_teams.Coordination.Runtime.Commands.{
  mark_command_observed, complete_command_and_release_lease, release_orphan_lease,
  get_or_create_stop_command, fresh,
}
use threadmill_agent_teams.Coordination.Runtime.Writes.{RuntimeWrite}
use threadmill_agent_teams.Coordination.Reconcile.Run.{
  Run, pure, raise, ◌>>=◌, ◌>>◌, perform, read, outcome, each_with, each_run,
}

abbrev pub load : ℕ → Run RuntimeView
load now = read (λ p. load_runtime_view p now)

unfoldable pub observe : PhaseObservation → Run (Unit {0})
observe o = perform (RuntimeWrite.observe o) (λ p. outcome (mark_command_observed p.runtime o))

unfoldable pub complete : PhaseObservation → Run (Unit {0})
complete o =
    perform (RuntimeWrite.complete o)
      (λ p. outcome (complete_command_and_release_lease p.runtime o))

-- The body of the loop of foldObservations.
unfoldable pub fold_kind : ObservationKind → PhaseObservation → Run (Unit {0})
unfolding observe complete
fold_kind ObservationKind.started o = observe o
fold_kind ObservationKind.output o = complete o
fold_kind ObservationKind.failed o = complete o
fold_kind ObservationKind.stopped o =
    if o.checkpoint_ref == "" && not o.non_resumable
    then (raise (
        incomplete_stop_evidence_error
          "stopped observation requires checkpoint_ref or non_resumable"))
    else complete o
fold_kind ObservationKind.dispatch_rejected o = pure tt
fold_kind (ObservationKind.other s) o = pure tt

unfoldable pub fold_observations : RuntimeView → ℕ → Run RuntimeView
unfolding fold_kind each_run
fold_observations view now = do
  each_run (λ (o : PhaseObservation). fold_kind o.kind o) (unfolded_observations view)
  load now

abbrev pub Stop : Type 0
Stop = PhaseCommand × Bool

unfoldable pub stop_of : RuntimeView → PhaseLease → Run Stop
stop_of view lease =
    perform (RuntimeWrite.stop view.revision lease)
      (λ p. let r = get_or_create_stop_command p.runtime view.revision lease in ok (r.1, r.2))

unfoldable pub release_orphan : String → Run (Unit {0})
release_orphan lease_ref =
    perform (RuntimeWrite.release lease_ref)
      (λ p. outcome (release_orphan_lease p.runtime lease_ref))

unfoldable pub repair_lease : RuntimeView → PhaseLease → Run RuntimeView
unfolding stop_of release_orphan fresh
repair_lease view lease =
    if has_command_for_lease view lease.lease_ref
    then pure view
    else if has_remote_observation view lease
    then (do
      stop ← stop_of view lease
      pure (record view { commands = insert stop.0.id (fresh stop.0) view.commands }))
    else (do release_orphan lease.lease_ref; pure view)

-- Whether the command of a record has lost its lease before it ended.
unfoldable pub stranded : RuntimeView → CommandRecord → Bool
stranded view r =
    not (
      r.command.action == CommandAction.stop
      || r.completed_event_ref != ""
      || r.quarantined
      || r.not_executable)
    && not (has_matching_active_lease view r.command)

unfoldable pub quarantine : String → Run (Unit {0})
quarantine id = perform (RuntimeWrite.quarantine id) (λ p. ok tt)

unfoldable pub repair_command : RuntimeView → String × CommandRecord → Run (Unit {0})
unfolding stranded quarantine
repair_command view (id, r) = if stranded view r then quarantine id else pure tt

unfoldable pub repair_decision_pairs : RuntimeView → ℕ → Run RuntimeView
unfolding repair_lease repair_command each_with each_run
repair_decision_pairs view now = do
  repaired ← each_with repair_lease view (active_leases view)
  each_run (repair_command repaired) repaired.commands
  load now
