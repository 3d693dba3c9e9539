-- ===== src/Coordination/Runtime/Lasting.antt =====
-- A command of internal/coordination/command_store.go, once it is there, stays.
use threadmill_agent_teams.Base.{
  ◌≡◌, ◌≢◌, inl, inr, refl, sym, subst, ap, ℕ, ◌||◌, ◌!=◌, Bool-cases, Bool, true, false, Option,
  none, some, List, String, string_eq, lookup, insert, lookup-insert, arith, Option-cases,
}
use threadmill_agent_teams.Kernel.Errors.{
  Error, ErrorCode, Result, ok, err, Result-cases, or_fail, >>=-eq-ok,
}
use threadmill_agent_teams.Kernel.Revision.{Revision}
use threadmill_agent_teams.Coordination.Types.{
  CommandRecord, RuntimeState, PhaseObservation, PhaseCommand, ObservationKind, PhaseLease,
  PhaseEndpoint, PhaseEndpointRef, CommandAction, phase_command_eq,
}
use threadmill_agent_teams.Coordination.Store.Project.{ProjectState}
use threadmill_agent_teams.Coordination.Runtime.Observations.{
  append_observation, append_phase_observation, new_phase_observation, has_observation,
}
use threadmill_agent_teams.Coordination.Runtime.Commands.{
  mark_command_observed, complete_command_and_release_lease, release_orphan_lease, expire_lease,
  get_or_create_stop_command, stop_found, claim_lease_and_append_command, stop_command, fresh,
  Claim, run_id_of,
}
use threadmill_agent_teams.Coordination.Runtime.Marks.{
  mark_command_accepted, schedule_retry, quarantine_command, reject_command,
  record_endpoint_dispatch_rejection, update_command, reject_found, rejection_id,
}
use threadmill_agent_teams.Coordination.Runtime.Claims.{claim-Claimed, claim-refused}
use threadmill_agent_teams.Coordination.Runtime.Writes.{RuntimeWrite, written}

abbrev pub Commands : Type 0
Commands = List (String × CommandRecord)

-- There is a command of the identifier.
abbrev pub Has : String → Commands → Type 0
Has id commands = lookup id commands ≢ none

abbrev pub Lasts : Commands → Commands → Type 0
Lasts before later = (id : String) → Has id before → Has id later

inserted :
    (before later : Commands) (key : String) (r : CommandRecord)
    → later ≡ insert key r before
    → Lasts before later
inserted before later key r h id has gone = has (ground (arith, h, lookup-insert key id r before))

same : (before later : Commands) → later ≡ before → Lasts before later
same before later h id has gone = has (ground (arith, h))

mark_command_observed-Lasts :
    (runtime later : RuntimeState) (o : PhaseObservation)
    → mark_command_observed runtime o ≡ ok later
    → Lasts runtime.commands later.commands
unfolding mark_command_observed
mark_command_observed-Lasts runtime later o h =
    let (found, at, _) = >>=-eq-ok (or_fail (lookup o.command_id runtime.commands) _) _ h in
    inserted runtime.commands later.commands o.command_id
      (record found { observed_event_ref = o.id }) (ground arith)

complete-Lasts :
    (runtime later : RuntimeState) (o : PhaseObservation)
    → complete_command_and_release_lease runtime o ≡ ok later
    → Lasts runtime.commands later.commands
unfolding complete_command_and_release_lease
complete-Lasts runtime later o h =
    let (found, at, _) = >>=-eq-ok (or_fail (lookup o.command_id runtime.commands) _) _ h in
    inserted runtime.commands later.commands o.command_id
      (record found { completed_event_ref = o.id }) (ground arith)

append_observation-Lasts :
    (runtime later : RuntimeState) (o : PhaseObservation)
    → append_observation runtime o ≡ ok later
    → Lasts runtime.commands later.commands
unfolding append_observation
append_observation-Lasts runtime later o h = same runtime.commands later.commands (ground arith)

append_phase_observation-Lasts :
    (runtime later : RuntimeState) (command : PhaseCommand) (kind : ObservationKind)
    (checkpoint_ref : String) (non_resumable : Bool)
    → append_phase_observation runtime command kind checkpoint_ref non_resumable ≡ ok later
    → Lasts runtime.commands later.commands
unfolding append_phase_observation
append_phase_observation-Lasts runtime later command kind checkpoint_ref non_resumable h =
    let (o, _, rest) =
      >>=-eq-ok (new_phase_observation kind command checkpoint_ref non_resumable) _ h in
    append_observation-Lasts runtime later o rest

release-Lasts :
    (runtime later : RuntimeState) (lease_ref : String)
    → release_orphan_lease runtime lease_ref ≡ ok later
    → Lasts runtime.commands later.commands
unfolding release_orphan_lease
release-Lasts runtime later lease_ref h = same runtime.commands later.commands (ground arith)

expire-Lasts :
    (runtime later : RuntimeState) (lease_ref : String)
    → expire_lease runtime lease_ref ≡ ok later
    → Lasts runtime.commands later.commands
unfolding expire_lease
expire-Lasts runtime later lease_ref h = same runtime.commands later.commands (ground arith)

stop-Lasts :
    (runtime : RuntimeState) (revision : Revision) (lease : PhaseLease)
    → Lasts runtime.commands (get_or_create_stop_command runtime revision lease).0.commands
unfolding get_or_create_stop_command stop_found
stop-Lasts runtime revision lease =
    let command = stop_command revision lease in
    elim (Option-cases (lookup command.id runtime.commands)) [
      | inl free ↦ inserted runtime.commands _ command.id (fresh command) (ground arith)
      | inr (r, found) ↦ same runtime.commands _ (ground arith)
    ]

claim-Lasts :
    (p : ProjectState) (now : ℕ) (revision : Revision) (e : PhaseEndpoint) (action : CommandAction)
    (cause_ref : String) (c : Claim)
    → claim_lease_and_append_command p now revision e action cause_ref ≡ ok c
    → Lasts p.runtime.commands c.0.commands
claim-Lasts p now revision e action cause_ref (later, command, true) h =
    let was = claim-Claimed p now revision e action cause_ref later command h in
    inserted p.runtime.commands later.commands (run_id_of e) (fresh command) was.commands
claim-Lasts p now revision e action cause_ref (later, command, false) h =
    let still = claim-refused p now revision e action cause_ref later command h in
    same p.runtime.commands later.commands (ap RuntimeState.commands still)

update_command-Lasts :
    (f : CommandRecord → CommandRecord) (id : String) (o : Option CommandRecord)
    (runtime : RuntimeState)
    → Lasts runtime.commands (update_command f id o runtime).commands
unfolding update_command
update_command-Lasts f id none runtime = same runtime.commands _ refl
update_command-Lasts f id (some r) runtime = inserted runtime.commands _ id (f r) refl

reject_command-Lasts :
    (runtime : RuntimeState) (command : PhaseCommand) (code : ErrorCode)
    → Lasts runtime.commands (reject_command runtime command code).commands
unfolding reject_command reject_found
reject_command-Lasts runtime command code =
    let event_id = rejection_id command code in
    elim (Option-cases (lookup command.id runtime.commands)) [
      | inl free ↦ same runtime.commands _ (ground arith)
      | inr (r, found) ↦
          let rejected = record r {
            not_executable = true;
            retry_scheduled = false;
            completed_event_ref = event_id;
          } in
          elim (Bool-cases
            (r.command != command || has_observation event_id runtime.observations)) [
              | inl skips ↦ same runtime.commands _ (ground arith)
              | inr writes ↦ inserted runtime.commands _ command.id rejected (ground arith)
            ]
    ]

reject_endpoint-Lasts :
    (runtime : RuntimeState) (ref : PhaseEndpointRef) (generation : ℕ) (binding_ref : String)
    (code : ErrorCode)
    → Lasts runtime.commands
        (record_endpoint_dispatch_rejection runtime ref generation binding_ref code).commands
unfolding record_endpoint_dispatch_rejection
reject_endpoint-Lasts runtime ref generation binding_ref code =
    same runtime.commands _ (ground arith)

-- A write that may end in an error, which leaves the runtime as it was.
tried :
    (runtime later : RuntimeState) (result : Result RuntimeState)
    → ((e : Error) → result ≡ err e → later ≡ runtime)
    → ((r : RuntimeState) → result ≡ ok r → later ≡ r)
    → ((r : RuntimeState) → result ≡ ok r → Lasts runtime.commands r.commands)
    → Lasts runtime.commands later.commands
tried runtime later result failed done lasts = elim (Result-cases result) [
  | inl (e, h) ↦ same runtime.commands later.commands (ap RuntimeState.commands (failed e h))
  | inr (r, h) ↦
      subst (λ (x : RuntimeState). Lasts runtime.commands x.commands) (sym (done r h)) (lasts r h)
]

-- No write to the runtime removes a command.
pub written-Lasts :
    (p : ProjectState) (w : RuntimeWrite) → Lasts p.runtime.commands (written p w).commands
unfolding written mark_command_accepted schedule_retry quarantine_command
written-Lasts p (RuntimeWrite.observe o) =
    tried p.runtime (written p (RuntimeWrite.observe o)) (mark_command_observed p.runtime o)
      (λ e h. ground arith) (λ r h. ground arith) (λ r. mark_command_observed-Lasts p.runtime r o)
written-Lasts p (RuntimeWrite.complete o) =
    tried p.runtime (written p (RuntimeWrite.complete o))
      (complete_command_and_release_lease p.runtime o) (λ e h. ground arith) (λ r h. ground arith)
      (λ r. complete-Lasts p.runtime r o)
written-Lasts p (RuntimeWrite.append o) =
    tried p.runtime (written p (RuntimeWrite.append o)) (append_observation p.runtime o)
      (λ e h. ground arith) (λ r h. ground arith) (λ r. append_observation-Lasts p.runtime r o)
written-Lasts p (RuntimeWrite.record_phase command kind checkpoint_ref non_resumable) =
    tried p.runtime
      (written p (RuntimeWrite.record_phase command kind checkpoint_ref non_resumable))
      (append_phase_observation p.runtime command kind checkpoint_ref non_resumable)
      (λ e h. ground arith) (λ r h. ground arith)
      (λ r. append_phase_observation-Lasts p.runtime r command kind checkpoint_ref non_resumable)
written-Lasts p (RuntimeWrite.release lease_ref) =
    tried p.runtime (written p (RuntimeWrite.release lease_ref))
      (release_orphan_lease p.runtime lease_ref) (λ e h. ground arith) (λ r h. ground arith)
      (λ r. release-Lasts p.runtime r lease_ref)
written-Lasts p (RuntimeWrite.expire lease_ref) =
    tried p.runtime (written p (RuntimeWrite.expire lease_ref)) (expire_lease p.runtime lease_ref)
      (λ e h. ground arith) (λ r h. ground arith) (λ r. expire-Lasts p.runtime r lease_ref)
written-Lasts p (RuntimeWrite.stop revision lease) = stop-Lasts p.runtime revision lease
written-Lasts p (RuntimeWrite.claim now revision e action cause_ref) =
    elim (Result-cases (claim_lease_and_append_command p now revision e action cause_ref)) [
      | inl (failure, h) ↦ same p.runtime.commands _ (ground (arith, h))
      | inr (c, h) ↦
          let lasts = claim-Lasts p now revision e action cause_ref c h in
          let is : written p (RuntimeWrite.claim now revision e action cause_ref) ≡ c.0 =
            ground (arith, h) in
          subst (λ (x : RuntimeState). Lasts p.runtime.commands x.commands) (sym is) lasts
    ]
written-Lasts p (RuntimeWrite.accept id) = update_command-Lasts _ id _ p.runtime
written-Lasts p (RuntimeWrite.retry id) = update_command-Lasts _ id _ p.runtime
written-Lasts p (RuntimeWrite.quarantine id) = update_command-Lasts _ id _ p.runtime
written-Lasts p (RuntimeWrite.reject command code) = reject_command-Lasts p.runtime command code
written-Lasts p (RuntimeWrite.reject_endpoint ref generation binding_ref code) =
    reject_endpoint-Lasts p.runtime ref generation binding_ref code
