-- ===== src/Coordination/Reconcile/Stopped.antt =====
-- What the loop of a reconcile over the active leases, in internal/coordination/runtime.go, stops.
use threadmill_agent_teams.Base.{
  ℕ, ◌≡◌, inl, inr, refl, sym, subst, true, false, not, if_split, if_cases, none, some, List, [],
  ◌∷◌, String, string_eq, nat_eq, In, lookup, lookup-insert, lookup-insert_self, arith,
  Option-cases,
}
use threadmill_agent_teams.Kernel.Errors.{ok}
use threadmill_agent_teams.Coordination.Types.{
  PhaseCommand, CommandRecord, PhaseLease, RuntimeState, PhaseEndpointRef, command_action_eq,
  task_outcome_eq, run_policy_eq, phase_endpoint_ref_eq,
}
use threadmill_agent_teams.Coordination.Store.Project.{ProjectState}
use threadmill_agent_teams.Coordination.Runtime.View.{RuntimeView, suppress_run, active_leases}
use threadmill_agent_teams.Coordination.Runtime.Commands.{
  get_or_create_stop_command, stop_found, stop_command, fresh, with_runtime,
}
use threadmill_agent_teams.Coordination.Runtime.Lasting.{Commands}
use threadmill_agent_teams.Coordination.Runtime.Writes.{written}
use threadmill_agent_teams.Coordination.Reconcile.Run.{Run, after, each_with}
use threadmill_agent_teams.Coordination.Reconcile.Fold.{stop_of}
use threadmill_agent_teams.Coordination.Reconcile.Dispatch.{Stopping, must_stop, stop_lease}
use threadmill_agent_teams.Coordination.Reconcile.Stops.{Stops, Stops-must_stop, must_stop-Stops}

abbrev pub stop_id : RuntimeView → PhaseLease → String
stop_id view lease = (stop_command view.revision lease).id

-- The commands before and after some of the leases have been stopped: each lease that is to be stopped
-- has a command under its stop identifier, a command that is new is the stop command of such a lease,
-- and each command that was there is as it was.
pub record Stopped (view : RuntimeView) (leases : List PhaseLease) (before later : Commands)
    : Type 0 where
  pub every :
      (lease : PhaseLease)
      → In lease leases
      → Stops view lease
      → (r : CommandRecord) × (lookup (stop_id view lease) later ≡ some r)
  pub only :
      (id : String) (r : CommandRecord)
      → lookup id before ≡ none
      → lookup id later ≡ some r
      → (lease : PhaseLease) × In lease leases
        × Stops view lease
        × (id ≡ stop_id view lease)
        × (r ≡ fresh (stop_command view.revision lease))
  pub kept :
      (id : String) (r : CommandRecord) → lookup id before ≡ some r → lookup id later ≡ some r

-- One lease that is stopped.
record Step (view : RuntimeView) (lease : PhaseLease) (before later : Commands) : Type 0 where
  held : (r : CommandRecord) × (lookup (stop_id view lease) later ≡ some r)
  new :
      (id : String) (r : CommandRecord)
      → lookup id before ≡ none
      → lookup id later ≡ some r
      → (id ≡ stop_id view lease) × (r ≡ fresh (stop_command view.revision lease))
  kept : (id : String) (r : CommandRecord) → lookup id before ≡ some r → lookup id later ≡ some r

get_or_create_stop_command-Step :
    (view : RuntimeView) (lease : PhaseLease) (runtime : RuntimeState)
    → Step view lease runtime.commands
        (get_or_create_stop_command runtime view.revision lease).0.commands
unfolding get_or_create_stop_command stop_found
get_or_create_stop_command-Step view lease runtime =
    let command = stop_command view.revision lease in
    elim (Option-cases (lookup command.id runtime.commands)) [
      | inl free ↦
          let stored = lookup-insert_self command.id (fresh command) runtime.commands in
          let at = λ (id : String). lookup-insert command.id id (fresh command) runtime.commands in
          record {
            held = (fresh command, ground arith);
            new = λ id r none_before found. (ground (arith, at id), ground (arith, at id));
            kept = λ id r found. ground (arith, at id);
          }
      | inr (r, found) ↦ record {
        held = (r, ground arith);
        new = λ id q none_before now. (ground arith, ground arith);
        kept = λ id q was. ground arith;
      }
    ]

Stopped-skip :
    (view : RuntimeView) (lease : PhaseLease) (leases : List PhaseLease) (before later : Commands)
    → must_stop view lease ≡ false
    → Stopped view leases before later
    → Stopped view (lease ∷ leases) before later
Stopped-skip view lease leases before later goes s = record {
  every = λ l m why. elim m [
    | inl e ↦
        let stop = Stops-must_stop view lease (subst (Stops view) (sym e) why) in
        absurd (ground (arith, goes, stop))
    | inr k ↦ s.every l k why
  ];
  only = λ id r free found.
      let (l, m, why, named, made) = s.only id r free found in (l, inr m, why, named, made);
  kept = s.kept;
}

Stopped-Step :
    (view : RuntimeView) (lease : PhaseLease) (leases : List PhaseLease)
    (before between later : Commands)
    → must_stop view lease ≡ true
    → Step view lease before between
    → Stopped view leases between later
    → Stopped view (lease ∷ leases) before later
Stopped-Step view lease leases before between later ends step s = record {
  every = λ l m why. elim m [
    | inl e ↦
        let (r, found) = step.held in
        subst (λ x. (r : CommandRecord) × (lookup (stop_id view x) later ≡ some r)) e
          (r, s.kept (stop_id view lease) r found)
    | inr k ↦ s.every l k why
  ];
  only = λ id r free found. elim (Option-cases (lookup id between)) [
    | inl still ↦
        let (l, m, why, named, made) = s.only id r still found in (l, inr m, why, named, made)
    | inr (q, stored) ↦
        let (named, made) = step.new id q free stored in
        let same = s.kept id q stored in
        (lease, inl refl, must_stop-Stops view lease ends, named, ground (arith, same, found, made))
  ];
  kept = λ id r found. s.kept id r (step.kept id r found);
}

-- Stopping one lease keeps its endpoint from running, and does not change what else is to be stopped.
Stopped-suppress :
    (view : RuntimeView) (ref : PhaseEndpointRef) (generation : ℕ) (leases : List PhaseLease)
    (before later : Commands)
    → Stopped (suppress_run view ref generation) leases before later
    → Stopped view leases before later
unfolding suppress_run must_stop
Stopped-suppress view ref generation leases before later s =
    let quiet = suppress_run view ref generation in
    record {
      every = λ l m why. s.every l m (must_stop-Stops quiet l (Stops-must_stop view l why));
      only = λ id r free found.
          let (l, m, why, named, made) = s.only id r free found in
          (l, m, must_stop-Stops view l (Stops-must_stop quiet l why), named, made);
      kept = s.kept;
    }

stop_leases-Stopped :
    (leases : List PhaseLease) (view : RuntimeView) (commands : List PhaseCommand)
    (p : ProjectState)
    → Stopped view leases p.runtime.commands
        (each_with stop_lease (view, commands) leases p).0.runtime.commands
unfolding each_with stop_lease stop_of suppress_run written
stop_leases-Stopped [] view commands p = record {
  every = λ lease m why. absurd m;
  only = λ id r free found. absurd (ground arith);
  kept = λ id r found. found;
}
stop_leases-Stopped (lease ∷ leases) view commands p =
    if_split
      (λ (m : Run Stopping).
        Stopped view (lease ∷ leases) p.runtime.commands
          (after (λ t. each_with stop_lease t leases) (m p)).0.runtime.commands)
      (not (must_stop view lease))
      (λ goes.
        Stopped-skip view lease leases p.runtime.commands _ (ground (arith, goes))
          (stop_leases-Stopped leases view commands p))
      (λ ends.
        let stop = get_or_create_stop_command p.runtime view.revision lease in
        let stopped = with_runtime p stop.0 in
        Stopped-Step view lease leases p.runtime.commands stop.0.commands _ (ground (arith, ends))
          (get_or_create_stop_command-Step view lease p.runtime)
          (Stopped-suppress view lease.endpoint lease.generation leases stop.0.commands _ (
            stop_leases-Stopped leases (suppress_run view lease.endpoint lease.generation) _
              stopped)))

stop_leases-ok :
    (leases : List PhaseLease) (view : RuntimeView) (commands : List PhaseCommand)
    (p : ProjectState)
    → (stopping : Stopping) × ((each_with stop_lease (view, commands) leases p).1 ≡ ok stopping)
unfolding each_with stop_lease stop_of
stop_leases-ok [] view commands p = ((view, commands), refl)
stop_leases-ok (lease ∷ leases) view commands p =
    if_cases
      (λ (m : Run Stopping).
        (stopping : Stopping) × ((after (λ t. each_with stop_lease t leases) (m p)).1
          ≡ ok stopping))
      (not (must_stop view lease)) (stop_leases-ok leases view commands p)
      (stop_leases-ok leases _ _ _)

pub active_leases-Stopped :
    (view : RuntimeView) (p : ProjectState)
    → Stopped view
        (active_leases view)
        p.runtime.commands
        (each_with stop_lease (view, []) (active_leases view) p).0.runtime.commands
      × ((stopping : Stopping) × ((each_with stop_lease (view, []) (active_leases view) p).1
            ≡ ok stopping))
active_leases-Stopped view p = (
  stop_leases-Stopped (active_leases view) view [] p,
  stop_leases-ok (active_leases view) view [] p,
)
