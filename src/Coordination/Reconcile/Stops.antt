-- ===== src/Coordination/Reconcile/Stops.antt =====
-- Which leases a reconcile of internal/coordination/runtime.go stops.
use threadmill_agent_teams.Base.{
  ◌≡◌, ◌≢◌, inl, inr, true, false, none, some, string_eq, nat_eq, lookup, arith, Option-cases,
  Bool-cases,
}
use threadmill_agent_teams.Coordination.Types.{
  TaskOutcome, RunPolicy, Task, PhaseEndpoint, PhaseLease, command_action_eq, task_outcome_eq,
  run_policy_eq, phase_endpoint_ref_eq,
}
use threadmill_agent_teams.Coordination.Runtime.View.{RuntimeView}
use threadmill_agent_teams.Coordination.Reconcile.Dispatch.{stops, must_stop}

-- Why a lease is stopped: the graph has no such endpoint or no such task any more, the task is closed,
-- the endpoint is held, or has moved on to another generation or binding, or the lease has expired.
pub data Stops (view : RuntimeView) (lease : PhaseLease) : Type 0 where
  no_endpoint : lookup lease.endpoint view.endpoint_by_ref ≡ none → Stops view lease
  no_task : lookup lease.endpoint.task_id view.tasks ≡ none → Stops view lease
  closed :
      (task : Task)
      → lookup lease.endpoint.task_id view.tasks ≡ some task
      → task.outcome ≢ TaskOutcome.active
      → Stops view lease
  held :
      (e : PhaseEndpoint)
      → lookup lease.endpoint view.endpoint_by_ref ≡ some e
      → e.run_policy ≡ RunPolicy.held
      → Stops view lease
  regenerated :
      (e : PhaseEndpoint)
      → lookup lease.endpoint view.endpoint_by_ref ≡ some e
      → e.generation ≢ lease.generation
      → Stops view lease
  rebound :
      (e : PhaseEndpoint)
      → lookup lease.endpoint view.endpoint_by_ref ≡ some e
      → e.binding_ref ≢ lease.binding_ref
      → Stops view lease
  expired : lease.expired ≡ true → Stops view lease

stops-none :
    (view : RuntimeView) (lease : PhaseLease)
    → must_stop view lease ≡ false
    → (e : PhaseEndpoint) × (task : Task) × (lookup lease.endpoint view.endpoint_by_ref ≡ some e)
      × (lookup lease.endpoint.task_id view.tasks ≡ some task)
      × (stops (some e) (some task) lease ≡ false)
unfolding must_stop
stops-none view lease h = elim (Option-cases (lookup lease.endpoint view.endpoint_by_ref)) [
  | inl gone ↦ absurd (ground arith)
  | inr (e, at_e) ↦ elim (Option-cases (lookup lease.endpoint.task_id view.tasks)) [
    | inl gone ↦ absurd (ground arith)
    | inr (task, at_task) ↦ (e, task, at_e, at_task, ground arith)
  ]
]

refuted :
    (view : RuntimeView) (lease : PhaseLease) (e : PhaseEndpoint) (task : Task)
    → lookup lease.endpoint view.endpoint_by_ref ≡ some e
    → lookup lease.endpoint.task_id view.tasks ≡ some task
    → stops (some e) (some task) lease ≡ false
    → ¬ Stops view lease
unfolding stops
refuted view lease e task at_e at_task fine (no_endpoint gone) = ground arith
refuted view lease e task at_e at_task fine (no_task gone) = ground arith
refuted view lease e task at_e at_task fine (closed k at_k ends) = ground arith
refuted view lease e task at_e at_task fine (held d at_d holds) = ground arith
refuted view lease e task at_e at_task fine (regenerated d at_d other) = ground arith
refuted view lease e task at_e at_task fine (rebound d at_d other) = ground arith
refuted view lease e task at_e at_task fine (expired late) = ground arith

reason :
    (view : RuntimeView) (lease : PhaseLease) (e : PhaseEndpoint) (task : Task)
    → lookup lease.endpoint view.endpoint_by_ref ≡ some e
    → lookup lease.endpoint.task_id view.tasks ≡ some task
    → stops (some e) (some task) lease ≡ true
    → Stops view lease
unfolding stops
reason view lease e task at_e at_task h =
    elim (task_outcome_eq.dec task.outcome TaskOutcome.active) [
      | no ends ↦ closed task at_task ends
      | yes goes ↦ elim (run_policy_eq.dec e.run_policy RunPolicy.held) [
        | yes holds ↦ held e at_e holds
        | no runs ↦ elim (nat_eq.dec e.generation lease.generation) [
          | no other ↦ regenerated e at_e other
          | yes same ↦ elim (string_eq.dec e.binding_ref lease.binding_ref) [
            | no other ↦ rebound e at_e other
            | yes bound ↦ expired (ground arith)
          ]
        ]
      ]
    ]

pub Stops-must_stop :
    (view : RuntimeView) (lease : PhaseLease) → Stops view lease → must_stop view lease ≡ true
unfolding stops
Stops-must_stop view lease why = elim (Bool-cases (must_stop view lease)) [
  | inl yes_stops ↦ yes_stops
  | inr no_stops ↦
      let (e, task, at_e, at_task, fine) = stops-none view lease no_stops in
      absurd (refuted view lease e task at_e at_task fine why)
]

pub must_stop-Stops :
    (view : RuntimeView) (lease : PhaseLease) → must_stop view lease ≡ true → Stops view lease
unfolding must_stop stops
must_stop-Stops view lease h = elim (Option-cases (lookup lease.endpoint view.endpoint_by_ref)) [
  | inl gone ↦ no_endpoint gone
  | inr (e, at_e) ↦ elim (Option-cases (lookup lease.endpoint.task_id view.tasks)) [
    | inl gone ↦ no_task gone
    | inr (task, at_task) ↦ reason view lease e task at_e at_task (ground arith)
  ]
]
