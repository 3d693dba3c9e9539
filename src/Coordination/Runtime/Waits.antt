-- ===== src/Coordination/Runtime/Waits.antt =====
-- The single tests of `isRunnable` of internal/coordination/recovery.go.
use threadmill_agent_teams.Base.{
  ◌≡◌, ◌≢◌, ◌⊎◌, refl, true, false, some, inl, inr, String, lookup, string_eq, nat_eq, arith,
  Option-cases, Bool-cases,
}
use threadmill_agent_teams.Coordination.Types.{
  EndpointId, TaskOutcome, EndpointState, EdgeSignal, RequiredBy, BlockerState, LeaseState,
  CommandRecord, PhaseEndpointRef, PhaseEndpoint, Edge, Blocker, Task, PhaseLease,
  phase_endpoint_ref_eq, lease_state_eq, endpoint_state_eq, task_outcome_eq, run_policy_eq,
  required_by_eq, edge_signal_eq,
}
use threadmill_agent_teams.Coordination.Graph.Acyclic.{at}
use threadmill_agent_teams.Coordination.Transition.Endpoint.{blocker_waits}
use threadmill_agent_teams.Coordination.Transition.Observed.{is_run_command}
use threadmill_agent_teams.Coordination.Runtime.View.{RuntimeView}
use threadmill_agent_teams.Coordination.Runtime.Runnable.{
  holds_endpoint, pending_run, predecessor_of, builtin_predecessor_satisfied, start_edge_waits,
  start_blocker_waits, edge_satisfied, signal_satisfied, endpoint_satisfied,
}

-- The endpoint of the view is satisfied.
abbrev pub Satisfied : RuntimeView → PhaseEndpointRef → Type 0
Satisfied v ref =
    (e : PhaseEndpoint) × (lookup ref v.endpoint_by_ref ≡ some e)
    × (e.state ≡ EndpointState.satisfied)

-- The task of the view is done.
abbrev pub Done : RuntimeView → String → Type 0
Done v id = (t : Task) × (lookup id v.tasks ≡ some t) × (t.outcome ≡ TaskOutcome.done)

-- The command has been started or completed, or is not to be executed.
abbrev pub Over : CommandRecord → Type 0
Over r =
    (r.observed_event_ref ≢ "")
    ⊎ (r.completed_event_ref ≢ "")
    ⊎ (r.quarantined ≡ true)
    ⊎ (r.not_executable ≡ true)

endpoint_satisfied-Satisfied :
    (v : RuntimeView) (ref : PhaseEndpointRef) → endpoint_satisfied v ref ≡ true → Satisfied v ref
unfolding endpoint_satisfied
endpoint_satisfied-Satisfied v ref h = elim (Option-cases (lookup ref v.endpoint_by_ref)) [
  | inl e ↦ absurd (ground arith)
  | inr (e, found) ↦ (e, found, ground arith)
]

pub waits-edge :
    (v : RuntimeView) (ref : PhaseEndpointRef) (edge : Edge)
    → start_edge_waits v ref edge ≡ false
    → edge.to ≡ ref
    → edge.required_by ≡ RequiredBy.start
    → edge.signal ≡ EdgeSignal.phase_satisfied
    → Satisfied v edge.from
unfolding start_edge_waits edge_satisfied signal_satisfied
waits-edge v ref edge h to by signal = endpoint_satisfied-Satisfied v edge.from (ground arith)

pub waits-Done :
    (v : RuntimeView) (ref : PhaseEndpointRef) (edge : Edge)
    → start_edge_waits v ref edge ≡ false
    → edge.to ≡ ref
    → edge.required_by ≡ RequiredBy.start
    → edge.signal ≡ EdgeSignal.task_done
    → Done v edge.from.task_id
unfolding start_edge_waits edge_satisfied signal_satisfied
waits-Done v ref edge h to by signal = elim (Option-cases (lookup edge.from.task_id v.tasks)) [
  | inl e ↦ absurd (ground arith)
  | inr (t, found) ↦ (t, found, ground arith)
]

known_signal :
    (v : RuntimeView) (edge : Edge) (signal : EdgeSignal)
    → signal_satisfied signal v edge ≡ true
    → (signal ≡ EdgeSignal.phase_satisfied) ⊎ (signal ≡ EdgeSignal.task_done)
unfolding signal_satisfied
known_signal v edge EdgeSignal.phase_satisfied h = inl refl
known_signal v edge EdgeSignal.task_done h = inr refl
known_signal v edge (EdgeSignal.other s) h = cc

pub waits-known :
    (v : RuntimeView) (ref : PhaseEndpointRef) (edge : Edge)
    → start_edge_waits v ref edge ≡ false
    → edge.to ≡ ref
    → edge.required_by ≡ RequiredBy.start
    → (edge.signal ≡ EdgeSignal.phase_satisfied) ⊎ (edge.signal ≡ EdgeSignal.task_done)
unfolding start_edge_waits edge_satisfied
waits-known v ref edge h to by = known_signal v edge edge.signal (ground arith)

pub waits-blocker :
    (ref : PhaseEndpointRef) (b : Blocker)
    → start_blocker_waits ref b ≡ false
    → b.target ≡ ref
    → b.required_by ≡ RequiredBy.start
    → (b.state ≢ BlockerState.active) × (b.state ≢ BlockerState.denied)
unfolding start_blocker_waits blocker_waits
waits-blocker ref b h to by = ground arith

pub free-lease :
    (e : PhaseEndpoint) (l : String × PhaseLease)
    → holds_endpoint e.ref e.generation l.1 ≡ false
    → l.1.endpoint ≡ e.ref
    → l.1.generation ≡ e.generation
    → l.1.state ≢ LeaseState.active
unfolding holds_endpoint
free-lease e l h ref generation = ground arith

pub not_pending-Over :
    (e : PhaseEndpoint) (r : CommandRecord)
    → pending_run e.ref e.generation r ≡ false
    → r.command.endpoint ≡ e.ref
    → r.command.generation ≡ e.generation
    → is_run_command r.command ≡ true
    → Over r
unfolding pending_run
not_pending-Over e r h ref generation runs = elim (string_eq.dec r.observed_event_ref "") [
  | no started ↦ inl started
  | yes fresh ↦ elim (string_eq.dec r.completed_event_ref "") [
    | no ended ↦ inr (inl ended)
    | yes goes ↦ elim (Bool-cases r.quarantined) [
      | inl kept_back ↦ inr (inr (inl kept_back))
      | inr free ↦ inr (inr (inr (ground arith)))
    ]
  ]
]

pub predecessor-plan :
    (v : RuntimeView) (e : PhaseEndpoint)
    → builtin_predecessor_satisfied v e.ref ≡ true
    → e.ref.endpoint_id ≡ EndpointId.execute
    → Satisfied v (at e.ref.task_id EndpointId.plan)
unfolding builtin_predecessor_satisfied predecessor_of
predecessor-plan v e h k = endpoint_satisfied-Satisfied v _ (ground arith)

pub predecessor-execute :
    (v : RuntimeView) (e : PhaseEndpoint)
    → builtin_predecessor_satisfied v e.ref ≡ true
    → e.ref.endpoint_id ≡ EndpointId.verify
    → Satisfied v (at e.ref.task_id EndpointId.execute)
unfolding builtin_predecessor_satisfied predecessor_of
predecessor-execute v e h k = endpoint_satisfied-Satisfied v _ (ground arith)
