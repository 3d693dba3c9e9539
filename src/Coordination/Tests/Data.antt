-- ===== src/Coordination/Tests/Data.antt =====
-- One project with one task, and transitions of it.
use threadmill_agent_teams.Base.{false, [], ◌∷◌, string_eq}
use threadmill_agent_teams.Coordination.Types.{
  EndpointId, TaskOutcome, EndpointState, RunPolicy, EdgeSignal, RequiredBy, OnFalse, BlockerState,
  Verdict, TransitionTarget, Action, LeaseState, PhaseEndpointRef, Task, PhaseEndpoint, Edge,
  Blocker, PhaseResult, PendingSubgraph, GraphTransition, GraphState, PhaseLease, RuntimeState,
  endpoint_id_eq, task_outcome_eq, endpoint_state_eq, run_policy_eq, edge_signal_eq, required_by_eq,
  on_false_eq, blocker_state_eq, verdict_eq, command_action_eq, transition_target_eq, action_eq,
  lease_state_eq, observation_kind_eq, phase_endpoint_ref_eq, task_eq, phase_result_eq,
  phase_command_eq,
}
use threadmill_agent_teams.Coordination.Graph.Acyclic.{at}
use threadmill_agent_teams.Coordination.Transition.Shape.{zero_ref, zero_result}
use threadmill_agent_teams.Coordination.Store.Project.{ProjectState, MemoryStore}

abbrev pub task : Task
task = record { id = "t"; contract_ref = "contract"; outcome = TaskOutcome.active }

abbrev pub endpoint : EndpointId → EndpointState → PhaseEndpoint
endpoint id state = record {
  ref = at "t" id;
  spec_ref = "spec";
  binding_ref = "binding";
  generation = 1;
  state = state;
  run_policy = RunPolicy.enabled;
}

abbrev pub graph : EndpointState → EndpointState → EndpointState → GraphState
graph plan execute verify = record {
  tasks = ("t", task) ∷ [];
  endpoints =
      (at "t" EndpointId.plan, endpoint EndpointId.plan plan)
      ∷ (at "t" EndpointId.execute, endpoint EndpointId.execute execute)
      ∷ (at "t" EndpointId.verify, endpoint EndpointId.verify verify)
      ∷ [];
  edges = [];
  blockers = [];
  results = [];
}

abbrev pub planned : GraphState
planned = graph EndpointState.submitted EndpointState.pending EndpointState.pending

abbrev pub new_graph : GraphState
new_graph = graph EndpointState.pending EndpointState.pending EndpointState.pending

abbrev pub no_transition : GraphTransition
no_transition = record {
  target_kind = TransitionTarget.phase_endpoint;
  endpoint = zero_ref;
  blocker_id = "";
  task_id = "";
  action = Action.held;
  generation = 0;
  result = zero_result;
  new_binding_ref = "";
  execute_binding_ref = "";
  verify_binding_ref = "";
  new_spec_ref = "";
  checkpoint_ref = "";
  non_resumable = false;
  evidence_refs = [];
}

abbrev pub result : PhaseResult
result = record {
  id = "r";
  endpoint = at "t" EndpointId.plan;
  binding_ref = "binding";
  output_ref = "output";
  verdict = Verdict.satisfied;
}

abbrev pub satisfy_plan : GraphTransition
satisfy_plan = record no_transition {
  endpoint = at "t" EndpointId.plan;
  action = Action.satisfied;
  generation = 1;
  result = result;
}

abbrev pub satisfied_graph : GraphState
satisfied_graph =
    record (graph EndpointState.satisfied EndpointState.pending EndpointState.pending) {
      results = ("r", result) ∷ [];
    }

abbrev pub hold_plan : GraphTransition
hold_plan = record no_transition {
  endpoint = at "t" EndpointId.plan;
  action = Action.held;
  generation = 1;
}

abbrev pub pending : PendingSubgraph
pending = record {
  request_id = "request";
  base_revision = 1;
  tasks = task ∷ [];
  endpoints =
      endpoint EndpointId.plan EndpointState.pending
      ∷ endpoint EndpointId.execute EndpointState.pending
      ∷ endpoint EndpointId.verify EndpointState.pending
      ∷ [];
  edges = [];
  blockers = [];
}

abbrev pub edge : PhaseEndpointRef → PhaseEndpointRef → Edge
edge from to = record {
  from = from;
  to = to;
  signal = EdgeSignal.phase_satisfied;
  required_by = RequiredBy.completion;
  artifact_kinds = [];
  on_false = OnFalse.block;
}

-- The verify endpoint of the task before its plan endpoint.
abbrev pub cyclic : GraphState
cyclic = record new_graph { edges = edge (at "t" EndpointId.verify) (at "t" EndpointId.plan) ∷ [] }

abbrev pub decided : Blocker
decided = record {
  id = "b";
  target = at "t" EndpointId.execute;
  required_by = RequiredBy.completion;
  on_false = OnFalse.block;
  state = BlockerState.resolved;
}

-- The plan is satisfied, and execute waits for it and for a blocker that is resolved.
abbrev pub joined : GraphState
joined = record (graph EndpointState.satisfied EndpointState.pending EndpointState.pending) {
  edges = edge (at "t" EndpointId.plan) (at "t" EndpointId.execute) ∷ [];
  blockers = ("b", decided) ∷ [];
}

abbrev pub submit_execute : GraphTransition
submit_execute = record no_transition {
  endpoint = at "t" EndpointId.execute;
  action = Action.submitted;
  generation = 1;
}

abbrev pub joined_after : GraphState
joined_after =
    record (graph EndpointState.satisfied EndpointState.submitted EndpointState.pending) {
      edges = edge (at "t" EndpointId.plan) (at "t" EndpointId.execute) ∷ [];
      blockers = ("b", decided) ∷ [];
    }

abbrev pub verified : GraphState
verified = graph EndpointState.satisfied EndpointState.satisfied EndpointState.satisfied

abbrev pub task_to : Action → GraphTransition
task_to action = record no_transition {
  target_kind = TransitionTarget.task;
  task_id = "t";
  action = action;
}

abbrev pub done_task : Task
done_task = record task { outcome = TaskOutcome.done }

abbrev pub closed : GraphState
closed = record verified { tasks = ("t", done_task) ∷ [] }

abbrev pub hold_after : GraphState → GraphState
hold_after g = record g {
  endpoints =
      (
        at "t" EndpointId.plan,
        record (endpoint EndpointId.plan EndpointState.satisfied) { run_policy = RunPolicy.held },
      )
      ∷ (at "t" EndpointId.execute, endpoint EndpointId.execute EndpointState.satisfied)
      ∷ (at "t" EndpointId.verify, endpoint EndpointId.verify EndpointState.satisfied)
      ∷ [];
}

abbrev pub with_blocker : GraphState
with_blocker = record verified { blockers = ("b", decided) ∷ [] }

abbrev pub with_result : GraphState
with_result = record verified { results = ("r", result) ∷ [] }

abbrev pub no_runtime : RuntimeState
no_runtime = record { commands = []; leases = []; observations = []; bindings = [] }

abbrev pub idle_lease : PhaseLease
idle_lease = record {
  lease_ref = "l";
  endpoint = at "t" EndpointId.execute;
  generation = 1;
  binding_ref = "binding";
  state = LeaseState.released;
  expires_at = 7;
  expired = false;
}

abbrev pub idle_runtime : RuntimeState
idle_runtime = record no_runtime { leases = ("l", idle_lease) ∷ [] }

abbrev pub project_of : GraphState → ProjectState
project_of g = record { latest = 2; history = (2, g) ∷ []; current = g; runtime = no_runtime }

abbrev pub store_of : GraphState → MemoryStore
store_of g = record { projects = ("p", project_of g) ∷ [] }

abbrev pub pending_at_2 : PendingSubgraph
pending_at_2 = record pending { base_revision = 2 }
