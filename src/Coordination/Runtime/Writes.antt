-- ===== src/Coordination/Runtime/Writes.antt =====
-- The writes of internal/coordination/command_store.go, as one type. None of them touches the graph.
use threadmill_agent_teams.Base.{ℕ, Bool, String, string_eq}
use threadmill_agent_teams.Kernel.Errors.{ErrorCode, Result, ok, err}
use threadmill_agent_teams.Kernel.Revision.{Revision}
use threadmill_agent_teams.Coordination.Types.{
  CommandAction, ObservationKind, PhaseEndpointRef, PhaseEndpoint, PhaseCommand, PhaseLease,
  PhaseObservation, RuntimeState,
}
use threadmill_agent_teams.Coordination.Runtime.Observations.{
  append_observation, append_phase_observation,
}
use threadmill_agent_teams.Coordination.Runtime.Commands.{
  Claim, mark_command_observed, complete_command_and_release_lease, release_orphan_lease,
  expire_lease, get_or_create_stop_command, claim_lease_and_append_command, on_project,
  with_runtime,
}
use threadmill_agent_teams.Coordination.Runtime.Marks.{
  mark_command_accepted, schedule_retry, quarantine_command, reject_command,
  record_endpoint_dispatch_rejection,
}
use threadmill_agent_teams.Coordination.Store.Project.{ProjectState, MemoryStore}

pub data RuntimeWrite : Type 0 where
  observe complete append : PhaseObservation → RuntimeWrite
  record_phase : PhaseCommand → ObservationKind → String → Bool → RuntimeWrite
  release expire : String → RuntimeWrite
  stop : Revision → PhaseLease → RuntimeWrite
  claim : ℕ → Revision → PhaseEndpoint → CommandAction → String → RuntimeWrite
  accept retry quarantine : String → RuntimeWrite
  reject : PhaseCommand → ErrorCode → RuntimeWrite
  reject_endpoint : PhaseEndpointRef → ℕ → String → ErrorCode → RuntimeWrite

-- An error leaves the runtime as it was.
or_same : RuntimeState → Result RuntimeState → RuntimeState
or_same runtime (ok after) = after
or_same runtime (err e) = runtime

claimed_or_same : RuntimeState → Result Claim → RuntimeState
claimed_or_same runtime (ok c) = c.0
claimed_or_same runtime (err e) = runtime

unfoldable pub written : ProjectState → RuntimeWrite → RuntimeState
unfolding or_same claimed_or_same
written p (RuntimeWrite.observe o) = or_same p.runtime (mark_command_observed p.runtime o)
written p (RuntimeWrite.complete o) =
    or_same p.runtime (complete_command_and_release_lease p.runtime o)
written p (RuntimeWrite.append o) = or_same p.runtime (append_observation p.runtime o)
written p (RuntimeWrite.record_phase command kind checkpoint_ref non_resumable) =
    or_same p.runtime (append_phase_observation p.runtime command kind checkpoint_ref non_resumable)
written p (RuntimeWrite.release lease_ref) =
    or_same p.runtime (release_orphan_lease p.runtime lease_ref)
written p (RuntimeWrite.expire lease_ref) = or_same p.runtime (expire_lease p.runtime lease_ref)
written p (RuntimeWrite.stop revision lease) =
    (get_or_create_stop_command p.runtime revision lease).0
written p (RuntimeWrite.claim now revision e action cause_ref) =
    claimed_or_same p.runtime (claim_lease_and_append_command p now revision e action cause_ref)
written p (RuntimeWrite.accept id) = mark_command_accepted p.runtime id
written p (RuntimeWrite.retry id) = schedule_retry p.runtime id
written p (RuntimeWrite.quarantine id) = quarantine_command p.runtime id
written p (RuntimeWrite.reject command code) = reject_command p.runtime command code
written p (RuntimeWrite.reject_endpoint ref generation binding_ref code) =
    record_endpoint_dispatch_rejection p.runtime ref generation binding_ref code

unfoldable pub runtime_write : MemoryStore → String → RuntimeWrite → MemoryStore
unfolding written on_project
runtime_write s id w = (on_project s id (λ p. (with_runtime p (written p w), tt {0}))).0
