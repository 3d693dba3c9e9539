-- ===== src/Coordination/Store/Project.antt =====
-- The state of one project in internal/coordination/memory_store.go, and how it is committed.
use threadmill_agent_teams.Base.{
  Option, none, some, List, [], ◌∷◌, String, ◌!=◌, if◌then◌else◌, lookup, insert, string_eq, nat_eq,
}
use threadmill_agent_teams.Kernel.Errors.{Result}
use threadmill_agent_teams.Kernel.Revision.{Revision, next as next_revision}
use threadmill_agent_teams.Coordination.Types.{
  TransitionTarget, Action, GraphState, GraphTransition, BindingRuntimeInfo, RuntimeState,
  phase_endpoint_ref_eq, lease_state_eq, action_eq, transition_target_eq,
}

pub record ProjectState : Type 0 where
  pub latest : Revision
  pub history : List (Revision × GraphState)
  pub current : GraphState
  pub runtime : RuntimeState

-- The clock is an argument of the operations that read it.
pub record MemoryStore : Type 0 where
  pub projects : List (String × ProjectState)

unfoldable pub new_graph_state : GraphState
new_graph_state = record { tasks = []; endpoints = []; edges = []; blockers = []; results = [] }

unfoldable pub new_memory_runtime_state : RuntimeState
new_memory_runtime_state = record { commands = []; leases = []; observations = []; bindings = [] }

unfoldable pub new_memory_store : MemoryStore
new_memory_store = record { projects = [] }

unfoldable pub new_project : ProjectState
unfolding new_graph_state new_memory_runtime_state
new_project = record {
  latest = 1;
  history = (1, new_graph_state) ∷ [];
  current = new_graph_state;
  runtime = new_memory_runtime_state;
}

or_new : Option ProjectState → ProjectState
or_new none = new_project
or_new (some project) = project

-- The project's state, and the store that has it.
unfoldable pub ensure_project : MemoryStore → String → ProjectState
unfolding or_new new_project
ensure_project s project_id = or_new (lookup project_id s.projects)

unfoldable pub put_project : MemoryStore → String → ProjectState → MemoryStore
put_project s project_id project = record { projects = insert project_id project s.projects }

-- The new project state that a mutation of the project's record gives, and its answer.
abbrev pub Outcome : Type 0 → Type 0
Outcome A = MemoryStore × Result A

unfoldable pub commit : ProjectState → GraphState → ProjectState
commit project state =
    let revision = next_revision project.latest in
    record project {
      latest = revision;
      current = state;
      history = insert revision state project.history;
    }

unfoldable pub binding_info : GraphTransition → BindingRuntimeInfo
binding_info t = record { checkpoint_ref = t.checkpoint_ref; non_resumable = t.non_resumable }

unfoldable pub record_binding : ProjectState → GraphTransition → ProjectState
unfolding binding_info
record_binding project t = record project {
  runtime = record project.runtime {
    bindings = insert t.new_binding_ref (binding_info t) project.runtime.bindings;
  };
}

record_action : Action → ProjectState → GraphTransition → ProjectState
unfolding record_binding
record_action Action.stopped project t = record_binding project t
record_action Action.reopened project t =
    if t.new_binding_ref != "" then record_binding project t else project
record_action _ project t = project

unfoldable pub record_runtime_binding : ProjectState → GraphTransition → ProjectState
unfolding record_action
record_runtime_binding project t =
    if t.target_kind != TransitionTarget.phase_endpoint
    then project
    else record_action t.action project t
