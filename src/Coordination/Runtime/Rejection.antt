-- ===== src/Coordination/Runtime/Rejection.antt =====
-- How a rejected dispatch of internal/coordination/command_store.go lets validation.go replace the
-- endpoint in its next generation.
use Prim.Native.Char.{Char}
use Prim.Native.String.append
use threadmill_agent_teams.Base.{
  ◌≡◌, ◌≢◌, ap, sym, ◌∙◌, ◌^^◌, Bool, true, false, List, [], ◌∷◌, ◌++◌, some, String, Eq, lookup,
  any, string_eq, nat_eq, arith, lookup-insert_self,
}
use threadmill_agent_teams.Kernel.Errors.{ErrorCode}
use threadmill_agent_teams.Coordination.Types.{
  LeaseState, PhaseEndpoint, PhaseCommand, CommandRecord, PhaseLease, RuntimeState,
  phase_endpoint_ref_eq, lease_state_eq, observation_kind_eq, phase_command_eq,
}
use threadmill_agent_teams.Coordination.Transition.Observed.{is_run_command}
use threadmill_agent_teams.Coordination.Pending.Validate.{
  has_definitive_dispatch_rejection, rejected_before_start, is_rejection, released_for,
}
use threadmill_agent_teams.Coordination.Runtime.Observations.{has_observation}
use threadmill_agent_teams.Coordination.Runtime.Marks.{
  reject_command, reject_found, rejection_id, rejection, release_rejected,
}

any-at {ℓ κ} :
    {K : Type ℓ} {V : Type κ} ⦃e : Eq K⦄ (p : K × V → Bool) (k : K) (v : V) (m : List (K × V))
    → lookup k m ≡ some v
    → ((j : K) → p (j, v) ≡ true)
    → any p m ≡ true
unfolding any lookup
any-at p k v [] h t = cc
any-at p k v ((j, w) ∷ m) h t = ground (arith, any-at p k v m, t j)

any-last {ℓ} :
    {A : Type ℓ} (p : A → Bool) (xs : List A) (a : A) → p a ≡ true → any p (xs ++ (a ∷ [])) ≡ true
unfolding any
any-last p [] a h = ground arith
any-last p (x ∷ xs) a h = ground (arith, any-last p xs a h)

abbrev is_empty : String → Bool
is_empty String.[] = true
is_empty (String.◌∷◌ c s) = false

prefixed_nonempty : (c : Char) (s t : String) → String.◌∷◌ c s ^^ t ≢ ""
prefixed_nonempty c s t p =
    let empty : false ≡ true = ap is_empty (sym (append.cons c s t) ∙ p) in cc empty

rejection_id_nonempty : (command : PhaseCommand) (code : ErrorCode) → rejection_id command code ≢ ""
unfolding rejection_id
rejection_id_nonempty command code = prefixed_nonempty "d" "ispatch-rejection:" _

-- The lease is the endpoint's, and active.
abbrev pub Holds : PhaseLease → PhaseEndpoint → Type 0
Holds lease e =
    (lease.state ≡ LeaseState.active)
    × (lease.endpoint ≡ e.ref)
    × (lease.generation ≡ e.generation)
    × (lease.binding_ref ≡ e.binding_ref)

-- The command runs the endpoint, at its generation and under its binding.
abbrev pub Runs : PhaseCommand → PhaseEndpoint → Type 0
Runs command e =
    (is_run_command command ≡ true)
    × (command.endpoint ≡ e.ref)
    × (command.generation ≡ e.generation)
    × (command.binding_ref ≡ e.binding_ref)

-- When the run command of an endpoint is rejected for a reason that it was not rejected for before,
-- before it was seen to start and while its lease is active, the rejection is definitive for the
-- endpoint: its replacement may enter the next generation.
has_definitive_dispatch_rejection-reject_command :
    (runtime : RuntimeState) (e : PhaseEndpoint) (r : CommandRecord) (lease : PhaseLease)
    (code : ErrorCode)
    → lookup r.command.id runtime.commands ≡ some r
    → lookup r.command.lease_ref runtime.leases ≡ some lease
    → Runs r.command e
    → Holds lease e
    → r.observed_event_ref ≡ ""
    → has_observation (rejection_id r.command code) runtime.observations ≡ false
    → has_definitive_dispatch_rejection (reject_command runtime r.command code) e ≡ true
unfolding has_definitive_dispatch_rejection reject_command reject_found rejected_before_start
    is_rejection released_for release_rejected rejection
has_definitive_dispatch_rejection-reject_command runtime e r lease code found leased runs holds
      unseen new =
    let event = rejection_id r.command code in
    let o =
      rejection event r.command.id r.command.endpoint r.command.generation r.command.binding_ref
        r.command.lease_ref code in
    let r' = record r {
      not_executable = true;
      retry_scheduled = false;
      completed_event_ref = event;
    } in
    let after = reject_command runtime r.command code in
    let nonempty = rejection_id_nonempty r.command code in
    let freed =
      lookup-insert_self r.command.lease_ref (record lease { state = LeaseState.released })
        runtime.leases in
    let stored : lookup r.command.id after.commands ≡ some r' =
      ground (arith, lookup-insert_self r.command.id r' runtime.commands) in
    let told : any (is_rejection r') after.observations ≡ true =
      ground (arith, any-last (is_rejection r') runtime.observations o) in
    let lease_after : released_for e (lookup r.command.lease_ref after.leases) ≡ true =
      ground (arith, freed) in
    any-at (rejected_before_start after e) r.command.id r' after.commands stored
      (λ j. ground (arith, told, lease_after, nonempty))
