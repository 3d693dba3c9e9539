-- ===== src/Coordination/Runtime/Claims.antt =====
-- What a claim of internal/coordination/command_store.go establishes, and what follows it.
use threadmill_agent_teams.Base.{
  ℕ, ◌≡◌, inl, inr, Bool, true, false, none, some, List, [], ◌∷◌, String, Eq, lookup, insert,
  string_eq, nat_eq, any, arith, lookup-insert_self, Option-cases,
}
use threadmill_agent_teams.Kernel.Errors.{ok}
use threadmill_agent_teams.Kernel.Revision.{Revision, check_expected_revision}
use threadmill_agent_teams.Coordination.Types.{
  CommandAction, PhaseEndpointRef, PhaseEndpoint, PhaseCommand, PhaseLease, RuntimeState,
  phase_endpoint_ref_eq, lease_state_eq,
}
use threadmill_agent_teams.Coordination.Runtime.View.{new_runtime_view, new_runtime_view_from}
use threadmill_agent_teams.Coordination.Runtime.Runnable.{
  is_runnable, endpoint_runnable, has_active_lease, holds_endpoint,
}
use threadmill_agent_teams.Coordination.Runtime.Commands.{
  claim_lease_and_append_command, claim_found, fresh, run_command, run_lease, run_id_of,
  lease_ref_of, with_runtime, no_command,
}
use threadmill_agent_teams.Coordination.Store.Project.{ProjectState}

any-lookup {ℓ κ} :
    {K : Type ℓ} {V : Type κ} ⦃e : Eq K⦄ (q : V → Bool) (k : K) (v : V) (m : List (K × V))
    → lookup k m ≡ some v
    → q v ≡ true
    → any (λ (x : K × V). q x.1) m ≡ true
unfolding any lookup
any-lookup q k v [] h p = cc
any-lookup q k v ((j, w) ∷ m) h p = ground (arith, any-lookup q k v m)

-- An active lease of the endpoint at the generation keeps it from running.
leased-not_runnable :
    (p : ProjectState) (ref : PhaseEndpointRef) (generation : ℕ) (id : String) (lease : PhaseLease)
    → lookup id p.runtime.leases ≡ some lease
    → holds_endpoint ref generation lease ≡ true
    → ((e : PhaseEndpoint) → lookup ref p.current.endpoints ≡ some e → e.ref ≡ ref)
    → endpoint_runnable p ref generation ≡ false
unfolding endpoint_runnable is_runnable has_active_lease new_runtime_view new_runtime_view_from
leased-not_runnable p ref generation id lease found holds keyed =
    let taken = any-lookup (holds_endpoint ref generation) id lease p.runtime.leases found holds in
    elim (Option-cases (lookup ref p.current.endpoints)) [
      | inl none_at ↦ ground arith
      | inr (e, at_ref) ↦ ground (arith, keyed e at_ref)
    ]

-- What a claim that creates a command has met and written.
pub record Claimed (p : ProjectState) (now : ℕ) (revision : Revision) (e : PhaseEndpoint)
    (action : CommandAction) (cause_ref : String) (after : RuntimeState) (command : PhaseCommand)
    : Type 0 where
  pub current : revision ≡ p.latest
  pub runnable : endpoint_runnable p e.ref e.generation ≡ true
  pub command_is : command ≡ run_command e action cause_ref
  pub new : lookup (run_id_of e) p.runtime.commands ≡ none
  pub leases : after.leases ≡ insert (lease_ref_of e) (run_lease e now) p.runtime.leases
  pub commands : after.commands ≡ insert (run_id_of e) (fresh command) p.runtime.commands
  pub observations : after.observations ≡ p.runtime.observations
  pub bindings : after.bindings ≡ p.runtime.bindings

-- A claim that creates a command was made at the project's current revision, for an endpoint that
-- is runnable and has no run command at its generation; it adds the command and an active lease
-- with its deadline, and nothing else.
pub claim-Claimed :
    (p : ProjectState) (now : ℕ) (revision : Revision) (e : PhaseEndpoint) (action : CommandAction)
    (cause_ref : String) (after : RuntimeState) (command : PhaseCommand)
    → claim_lease_and_append_command p now revision e action cause_ref ≡ ok (after, command, true)
    → Claimed p now revision e action cause_ref after command
unfolding claim_lease_and_append_command claim_found run_command check_expected_revision
claim-Claimed p now revision e action cause_ref after command h = record {
  current = ground arith;
  runnable = ground arith;
  command_is = ground arith;
  new = ground arith;
  leases = ground arith;
  commands = ground arith;
  observations = ground arith;
  bindings = ground arith;
}

-- A claim that creates no command changes nothing.
pub claim-refused :
    (p : ProjectState) (now : ℕ) (revision : Revision) (e : PhaseEndpoint) (action : CommandAction)
    (cause_ref : String) (after : RuntimeState) (command : PhaseCommand)
    → claim_lease_and_append_command p now revision e action cause_ref ≡ ok (after, command, false)
    → after ≡ p.runtime
unfolding claim_lease_and_append_command claim_found
claim-refused p now revision e action cause_ref after command h = ground arith

-- Where the endpoint is stored under its own reference, once a claim has created a command, a
-- claim of that endpoint at that generation made right after it creates nothing and changes nothing.
pub claim-once :
    (p : ProjectState) (now now' : ℕ) (revision revision' : Revision) (e : PhaseEndpoint)
    (action action' : CommandAction) (cause_ref cause_ref' : String) (after : RuntimeState)
    (command : PhaseCommand)
    → ((e' : PhaseEndpoint) → lookup e.ref p.current.endpoints ≡ some e' → e'.ref ≡ e.ref)
    → claim_lease_and_append_command p now revision e action cause_ref ≡ ok (after, command, true)
    → claim_lease_and_append_command (with_runtime p after) now' revision' e action' cause_ref'
      ≡ ok (after, no_command, false)
unfolding claim_lease_and_append_command holds_endpoint run_lease
claim-once p now now' revision revision' e action action' cause_ref cause_ref' after command keyed
      h =
    let was = claim-Claimed p now revision e action cause_ref after command h in
    let found : lookup (lease_ref_of e) after.leases ≡ some (run_lease e now) =
      ground (
        arith,
        lookup-insert_self (lease_ref_of e) (run_lease e now) p.runtime.leases,
        was.leases,
      ) in
    let holds : holds_endpoint e.ref e.generation (run_lease e now) ≡ true = ground arith in
    let taken =
      leased-not_runnable (with_runtime p after) e.ref e.generation (lease_ref_of e)
        (run_lease e now) found holds keyed in
    ground arith
