-- ===== src/Coordination/Runtime/Folding.antt =====
-- How internal/coordination/command_store.go folds observations into commands and leases.
use threadmill_agent_teams.Base.{
  ◌≡◌, ◌≢◌, ◌⊎◌, inl, inr, refl, subst, true, false, some, List, [], ◌∷◌, ◌++◌, String, lookup,
  insert, string_eq, nat_eq, bool_eq, any, arith, lookup-insert_self, Option-cases,
}
use threadmill_agent_teams.Kernel.Errors.{
  ErrorCode, ok, or_fail, Result-cases, ok-injective, >>=-eq-ok,
}
use threadmill_agent_teams.Kernel.Revision.{Revision}
use threadmill_agent_teams.Coordination.Types.{
  CommandAction, LeaseState, ObservationKind, PhaseCommand, CommandRecord, PhaseLease,
  PhaseObservation, RuntimeState, phase_endpoint_ref_eq, lease_state_eq, phase_command_eq,
  observation_kind_eq, command_action_eq,
}
use threadmill_agent_teams.Coordination.Transition.Machine.{or_fail-eq-ok}
use threadmill_agent_teams.Coordination.Transition.Observed.{is_run_command}
use threadmill_agent_teams.Coordination.Runtime.Observations.{
  append_new, append_observation, check_observed, matching_observation_lease,
  same_phase_observation_payload, has_observation,
}
use threadmill_agent_teams.Coordination.Runtime.Commands.{
  complete_command_and_release_lease, check_terminal, stop_command, stop_found,
  get_or_create_stop_command, fresh,
}
use threadmill_agent_teams.Coordination.Runtime.Marks.{
  reject_command, reject_found, rejection_id, rejection,
}

same_payload_refl : (o : PhaseObservation) → same_phase_observation_payload o o ≡ true
unfolding same_phase_observation_payload
same_payload_refl o = ground arith

append_new-again :
    (os os' : List PhaseObservation) (o : PhaseObservation)
    → append_new os o ≡ ok os'
    → append_new os' o ≡ ok os'
unfolding append_new
append_new-again [] os' o h =
    subst (λ (l : List PhaseObservation). append_new l o ≡ ok l) (ok-injective h)
      (ground (arith, same_payload_refl o))
append_new-again (x ∷ os) os' o h = elim (string_eq.dec x.id o.id) [
  | yes same ↦
      let unmoved : ok (x ∷ os) ≡ ok os' = ground arith in
      subst (λ (l : List PhaseObservation). append_new l o ≡ ok l) (ok-injective unmoved)
        (ground arith)
  | no apart ↦ elim (Result-cases (append_new os o)) [
    | inl (e, failed) ↦ absurd (ground arith)
    | inr (more, passed) ↦
        let again = append_new-again os more o passed in
        let moved : ok (x ∷ more) ≡ ok os' = ground arith in
        subst (λ (l : List PhaseObservation). append_new l o ≡ ok l) (ok-injective moved)
          (ground arith)
  ]
]

check_observed-same :
    (r r' : RuntimeState) (o : PhaseObservation)
    → r'.commands ≡ r.commands
    → r'.leases ≡ r.leases
    → check_observed r' o ≡ check_observed r o
unfolding check_observed matching_observation_lease
check_observed-same r r' o c l = rw (c, l) refl

-- An observation that was appended may be appended again, and changes nothing then.
pub append_observation-again :
    (runtime after : RuntimeState) (o : PhaseObservation)
    → append_observation runtime o ≡ ok after
    → append_observation after o ≡ ok after
unfolding append_observation
append_observation-again runtime after o h =
    elim (Result-cases (append_new runtime.observations o)) [
      | inl (e, failed) ↦ absurd (ground arith)
      | inr (os, passed) ↦
          let again = append_new-again runtime.observations os o passed in
          let same =
            check_observed-same runtime (record runtime { observations = os }) o refl refl in
          let is_after : record runtime { observations = os } ≡ after = ground arith in
          subst (λ (r : RuntimeState). append_observation r o ≡ ok r) is_after (ground arith)
    ]

-- What the completion of a command has met and written.
pub record Completed (before after : RuntimeState) (o : PhaseObservation) : Type 0 where
  pub record_of : CommandRecord
  pub lease : PhaseLease
  pub found : lookup o.command_id before.commands ≡ some record_of
  pub leased : lookup o.lease_ref before.leases ≡ some lease
  pub same_lease : record_of.command.lease_ref ≡ o.lease_ref
  pub same_endpoint : (record_of.command.endpoint ≡ o.endpoint) × (lease.endpoint ≡ o.endpoint)
  pub same_generation :
      (record_of.command.generation ≡ o.generation) × (lease.generation ≡ o.generation)
  pub same_binding :
      (record_of.command.binding_ref ≡ o.binding_ref) × (lease.binding_ref ≡ o.binding_ref)
  pub stops :
      (o.kind ≡ ObservationKind.stopped) × (record_of.command.action ≡ CommandAction.stop)
      ⊎ (o.kind ≢ ObservationKind.stopped) × (is_run_command record_of.command ≡ true)
  pub commands :
      after.commands
      ≡ insert o.command_id (record record_of { completed_event_ref = o.id }) before.commands
  pub leases :
      after.leases ≡ insert o.lease_ref (record lease { state = LeaseState.released }) before.leases

-- A terminal observation completes the command and releases the lease that have its endpoint,
-- generation, binding and lease reference, a stop command if it reports a stop and a run command if
-- not, and changes no other command or lease.
pub complete-Completed :
    (runtime after : RuntimeState) (o : PhaseObservation)
    → complete_command_and_release_lease runtime o ≡ ok after
    → Completed runtime after o
unfolding complete_command_and_release_lease matching_observation_lease check_terminal
complete-Completed runtime after o h =
    let (r, at_command, h₁) = >>=-eq-ok (or_fail (lookup o.command_id runtime.commands) _) _ h in
    let (lease, matched, h₂) = >>=-eq-ok (matching_observation_lease runtime r.command o) _ h₁ in
    record {
      record_of = r;
      lease = lease;
      found = or_fail-eq-ok _ _ at_command;
      leased = ground arith;
      same_lease = ground arith;
      same_endpoint = ground arith;
      same_generation = ground arith;
      same_binding = ground arith;
      stops = ground arith;
      commands = ground arith;
      leases = ground arith;
    }

-- Asking again for the stop command of a lease, at any revision, gives the same command, and changes
-- nothing.
pub get_or_create_stop_command-again :
    (runtime : RuntimeState) (revision revision' : Revision) (lease : PhaseLease)
    → let first = get_or_create_stop_command runtime revision lease in
      get_or_create_stop_command first.0 revision' lease ≡ first
unfolding get_or_create_stop_command stop_found stop_command fresh
get_or_create_stop_command-again runtime revision revision' lease =
    let command = stop_command revision lease in
    elim (Option-cases (lookup command.id runtime.commands)) [
      | inl none_at ↦ ground (arith, lookup-insert_self command.id (fresh command) runtime.commands)
      | inr (r, found) ↦ ground arith
    ]

has_observation-last :
    (os : List PhaseObservation) (o : PhaseObservation) (id : String)
    → o.id ≡ id
    → has_observation id (os ++ (o ∷ [])) ≡ true
unfolding has_observation any
has_observation-last [] o id h = ground arith
has_observation-last (x ∷ os) o id h = ground (arith, has_observation-last os o id h)

-- Rejecting a command again for the same reason changes nothing.
pub reject_command-again :
    (runtime : RuntimeState) (command : PhaseCommand) (code : ErrorCode)
    → reject_command (reject_command runtime command code) command code
      ≡ reject_command runtime command code
unfolding reject_command reject_found rejection
reject_command-again runtime command code =
    elim (Option-cases (lookup command.id runtime.commands)) [
      | inl none_at ↦ ground arith
      | inr (r, found) ↦
          let last =
            has_observation-last runtime.observations
              (rejection (rejection_id command code) command.id command.endpoint command.generation
                command.binding_ref command.lease_ref code)
              (rejection_id command code) refl in
          let stored =
            lookup-insert_self command.id
              (record r {
                not_executable = true;
                retry_scheduled = false;
                completed_event_ref = rejection_id command code;
              })
              runtime.commands in
          ground (arith, last, stored)
    ]
