-- ===== src/Coordination/Runtime/View.antt =====
-- The runtime view of internal/coordination/recovery.go: a copy of one project's graph and runtime.
use threadmill_agent_teams.Base.{
  sort, text_lt, ℕ, Bool, false, ◌&&◌, ◌||◌, not, Option, none, some, List, [], ◌∷◌, String, ◌==◌,
  ◌!=◌, if◌then◌else◌, lookup, mem, any, select, map, leb, string_eq, nat_eq, ◌^^◌, decimal,
}
use threadmill_agent_teams.Kernel.Revision.{Revision}
use threadmill_agent_teams.Coordination.Types.{
  LeaseState, PhaseEndpointRef, Task, PhaseEndpoint, Edge, Blocker, PhaseResult, PhaseCommand,
  GraphSnapshot, CommandRecord, PhaseLease, PhaseObservation, BindingRuntimeInfo, RuntimeState,
  phase_endpoint_ref_eq, lease_state_eq,
}
use threadmill_agent_teams.Coordination.Graph.Validation.{endpoint_text}
use threadmill_agent_teams.Coordination.Transition.Observed.{is_run_command}
use threadmill_agent_teams.Coordination.Pending.Apply.{put_tasks, put_endpoints}
use threadmill_agent_teams.Coordination.Store.Snapshot.{snapshot, values}
use threadmill_agent_teams.Coordination.Store.Project.{ProjectState}

pub record RuntimeView : Type 0 where
  pub revision : Revision
  pub tasks : List (String × Task)
  pub endpoints : List PhaseEndpoint
  pub endpoint_by_ref : List (PhaseEndpointRef × PhaseEndpoint)
  pub edges : List Edge
  pub blockers : List Blocker
  pub results : List PhaseResult
  pub commands : List (String × CommandRecord)
  pub leases : List (String × PhaseLease)
  pub observations : List PhaseObservation
  pub bindings : List (String × BindingRuntimeInfo)
  pub suppressed : List String

unfoldable pub new_runtime_view_from : GraphSnapshot → RuntimeState → RuntimeView
unfolding put_tasks put_endpoints
new_runtime_view_from snap state = record {
  revision = snap.revision;
  tasks = put_tasks snap.tasks [];
  endpoints = snap.endpoints;
  endpoint_by_ref = put_endpoints snap.endpoints [];
  edges = snap.edges;
  blockers = snap.blockers;
  results = snap.results;
  commands = state.commands;
  leases = state.leases;
  observations = state.observations;
  bindings = state.bindings;
  suppressed = [];
}

unfoldable pub new_runtime_view : ProjectState → RuntimeView
unfolding new_runtime_view_from snapshot
new_runtime_view project =
    new_runtime_view_from (snapshot project.current project.latest) project.runtime

-- A lease that has no deadline, or whose deadline is not after now, has expired.
unfoldable pub expire_at : ℕ → String × PhaseLease → String × PhaseLease
expire_at now (id, lease) = (
  id,
  record lease { expired = lease.expired || lease.expires_at == 0 || leb lease.expires_at now },
)

unfoldable pub load_runtime_view : ProjectState → ℕ → RuntimeView
unfolding new_runtime_view expire_at
load_runtime_view project now =
    let view = new_runtime_view project in record view { leases = map (expire_at now) view.leases }

unfoldable pub revision_ref : Revision → String
revision_ref revision = "revision://" ^^ decimal revision

-- The info of a binding that the map does not have is Go's zero value.
or_no_info : Option BindingRuntimeInfo → BindingRuntimeInfo
or_no_info none = record { checkpoint_ref = ""; non_resumable = false }
or_no_info (some info) = info

unfoldable pub binding : RuntimeView → String → BindingRuntimeInfo
unfolding or_no_info
binding v ref = or_no_info (lookup ref v.bindings)

unfoldable pub checkpoint_compatible : String → BindingRuntimeInfo → Bool
checkpoint_compatible ref info = ref != "" && info.checkpoint_ref != "" && not info.non_resumable

abbrev pub is_active : PhaseLease → Bool
is_active lease = lease.state == LeaseState.active

unfoldable pub active_leases : RuntimeView → List PhaseLease
unfolding select
active_leases v = select is_active (values v.leases)

unfoldable pub is_pending : CommandRecord → Bool
unfolding is_run_command
is_pending r =
    if r.completed_event_ref != "" || r.quarantined || r.not_executable
    then false
    else not (is_run_command r.command && r.observed_event_ref != "")

unfoldable pub pending_commands : RuntimeView → List PhaseCommand
unfolding is_pending select
pending_commands v = map (λ (r : CommandRecord). r.command) (select is_pending (values v.commands))

unfoldable pub unfolded_observations : RuntimeView → List PhaseObservation
unfolding select
unfolded_observations v = select (λ (o : PhaseObservation). not o.folded) v.observations

unfoldable pub suppression_key : PhaseEndpointRef → ℕ → String
unfolding endpoint_text
suppression_key ref generation =
    ref.task_id ^^ "/" ^^ endpoint_text ref.endpoint_id ^^ "/" ^^ decimal generation

unfoldable pub suppress_run : RuntimeView → PhaseEndpointRef → ℕ → RuntimeView
unfolding suppression_key
suppress_run v ref generation = record v {
  suppressed = suppression_key ref generation ∷ v.suppressed;
}

unfoldable pub run_suppressed : RuntimeView → PhaseEndpointRef → ℕ → Bool
unfolding suppression_key mem
run_suppressed v ref generation = mem (suppression_key ref generation) v.suppressed

unfoldable pub has_command_for_lease : RuntimeView → String → Bool
unfolding any
has_command_for_lease v lease_ref =
    any
      (λ (r : String × CommandRecord).
        r.1.command.lease_ref == lease_ref && not r.1.quarantined && not r.1.not_executable)
      v.commands

matches_command : PhaseCommand → Option PhaseLease → Bool
matches_command command none = false
matches_command command (some lease) =
    if lease.state != LeaseState.active
    then false
    else (lease.endpoint == command.endpoint
        && lease.generation == command.generation
        && lease.binding_ref == command.binding_ref)

unfoldable pub has_matching_active_lease : RuntimeView → PhaseCommand → Bool
unfolding matches_command
has_matching_active_lease v command = matches_command command (lookup command.lease_ref v.leases)

unfoldable pub has_remote_observation : RuntimeView → PhaseLease → Bool
unfolding any
has_remote_observation v lease =
    any
      (λ (o : PhaseObservation).
        o.lease_ref == lease.lease_ref
        && o.endpoint == lease.endpoint
        && o.generation == lease.generation
        && o.binding_ref == lease.binding_ref)
      v.observations

unfoldable pub runtime_commands : RuntimeState → List PhaseCommand
unfolding sort
runtime_commands state =
    sort (λ (a b : PhaseCommand). text_lt a.id b.id)
      (map (λ (r : CommandRecord). r.command) (values state.commands))

unfoldable pub runtime_leases : RuntimeState → List PhaseLease
unfolding sort
runtime_leases state =
    sort (λ (a b : PhaseLease). text_lt a.lease_ref b.lease_ref) (values state.leases)
