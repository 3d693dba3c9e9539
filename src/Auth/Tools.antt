-- ===== src/Auth/Tools.antt =====
-- The roles and the tools of internal/platform/auth, and which role may use which tool.
use threadmill_agent_teams.Base.{
  Bool, false, ◌&&◌, List, [], ◌∷◌, String, Eq, String-discrete, string_eq, ◌==◌, ◌!=◌,
  if◌then◌else◌, mem,
}

pub data PrincipalKind : Type 0 where
  operator agent : PrincipalKind
  other : String → PrincipalKind

pub data Role : Type 0 where
  operator task_manager context_agent planner executor verifier : Role
  other : String → Role

unfoldable pub PrincipalKind-discrete : Discrete PrincipalKind
unfolding String-discrete
PrincipalKind-discrete = hlevel String-discrete

unfoldable pub Role-discrete : Discrete Role
unfolding String-discrete
Role-discrete = hlevel String-discrete

instance abbrev pub principal_kind_eq : Eq PrincipalKind
principal_kind_eq = record { dec = PrincipalKind-discrete }

instance abbrev pub role_eq : Eq Role
role_eq = record { dec = Role-discrete }

-- A tool is its name.
abbrev pub Tool : Type 0
Tool = String

abbrev pub tool_context_list_subgraphs : Tool
tool_context_list_subgraphs = "context.listSubgraphs"

abbrev pub tool_context_explore : Tool
tool_context_explore = "context.explore"

abbrev pub tool_context_subscribe : Tool
tool_context_subscribe = "context.subscribe"

abbrev pub tool_context_unsubscribe : Tool
tool_context_unsubscribe = "context.unsubscribe"

abbrev pub tool_context_agent_retrieve : Tool
tool_context_agent_retrieve = "contextAgent.retrieve"

abbrev pub tool_runtime_await_inputs : Tool
tool_runtime_await_inputs = "runtime.awaitInputs"

abbrev pub tool_agent_propose_orchestration : Tool
tool_agent_propose_orchestration = "agent.proposeOrchestration"

abbrev pub tool_agent_submit_requirement : Tool
tool_agent_submit_requirement = "agent.submitRequirement"

abbrev pub tool_agent_list_task_memory_candidates : Tool
tool_agent_list_task_memory_candidates = "agent.listTaskMemoryCandidates"

abbrev pub tool_agent_submit_memory_candidate : Tool
tool_agent_submit_memory_candidate = "agent.submitMemoryCandidate"

abbrev pub tool_agent_submit_phase_output : Tool
tool_agent_submit_phase_output = "agent.submitPhaseOutput"

abbrev pub tool_coordination_snapshot : Tool
tool_coordination_snapshot = "coordination.snapshot"

abbrev pub tool_task_manager_submit_decision : Tool
tool_task_manager_submit_decision = "taskManager.submitDecision"

abbrev pub tool_coordination_replace_pending : Tool
tool_coordination_replace_pending = "coordination.replacePending"

abbrev pub tool_coordination_transition : Tool
tool_coordination_transition = "coordination.transition"

abbrev pub tool_context_register_task_subgraph : Tool
tool_context_register_task_subgraph = "context.registerTaskSubgraph"

abbrev pub tool_context_project_task_context : Tool
tool_context_project_task_context = "context.projectTaskContext"

abbrev pub tool_context_finalize_task_memory : Tool
tool_context_finalize_task_memory = "context.finalizeTaskMemory"

abbrev pub tool_context_get_subgraph : Tool
tool_context_get_subgraph = "context.getSubgraph"

abbrev pub tool_context_get_node : Tool
tool_context_get_node = "context.getNode"

abbrev pub tool_context_search : Tool
tool_context_search = "context.search"

abbrev pub tool_context_create_node : Tool
tool_context_create_node = "context.createNode"

abbrev pub tool_context_update_node : Tool
tool_context_update_node = "context.updateNode"

abbrev pub tool_context_delete_node : Tool
tool_context_delete_node = "context.deleteNode"

abbrev pub tool_context_create_subgraph : Tool
tool_context_create_subgraph = "context.createSubgraph"

abbrev pub tool_context_update_subgraph : Tool
tool_context_update_subgraph = "context.updateSubgraph"

abbrev pub tool_context_delete_subgraph : Tool
tool_context_delete_subgraph = "context.deleteSubgraph"

abbrev pub tool_context_submit_review : Tool
tool_context_submit_review = "context.submitReview"

abbrev pub tool_workspace_list : Tool
tool_workspace_list = "workspace.list"

abbrev pub tool_workspace_read : Tool
tool_workspace_read = "workspace.read"

abbrev pub tool_workspace_write_plan : Tool
tool_workspace_write_plan = "workspace.writePlan"

abbrev pub tool_workspace_write : Tool
tool_workspace_write = "workspace.write"

abbrev pub tool_workspace_run : Tool
tool_workspace_run = "workspace.run"

abbrev pub tool_workspace_diff : Tool
tool_workspace_diff = "workspace.diff"

abbrev pub tool_evidence_register : Tool
tool_evidence_register = "evidence.register"

abbrev pub task_manager_tools : List Tool
task_manager_tools =
    tool_context_list_subgraphs ∷ tool_context_explore ∷ tool_context_subscribe
    ∷ tool_context_unsubscribe ∷ tool_context_agent_retrieve ∷ tool_coordination_snapshot
    ∷ tool_task_manager_submit_decision ∷ tool_coordination_replace_pending
    ∷ tool_coordination_transition ∷ tool_context_register_task_subgraph
    ∷ tool_context_project_task_context ∷ tool_context_finalize_task_memory ∷ []

abbrev pub context_agent_tools : List Tool
context_agent_tools =
    tool_context_list_subgraphs ∷ tool_context_explore ∷ tool_context_get_subgraph
    ∷ tool_context_get_node ∷ tool_context_search ∷ tool_context_create_node
    ∷ tool_context_update_node ∷ tool_context_delete_node ∷ tool_context_create_subgraph
    ∷ tool_context_update_subgraph ∷ tool_context_delete_subgraph ∷ tool_context_submit_review ∷ []

abbrev pub planner_tools : List Tool
planner_tools =
    tool_context_list_subgraphs ∷ tool_context_explore ∷ tool_context_subscribe
    ∷ tool_context_unsubscribe ∷ tool_context_agent_retrieve ∷ tool_runtime_await_inputs
    ∷ tool_agent_propose_orchestration ∷ tool_agent_submit_requirement
    ∷ tool_agent_list_task_memory_candidates ∷ tool_agent_submit_memory_candidate
    ∷ tool_agent_submit_phase_output ∷ tool_workspace_list ∷ tool_workspace_read
    ∷ tool_workspace_write_plan ∷ tool_workspace_diff ∷ tool_evidence_register ∷ []

abbrev pub executor_tools : List Tool
executor_tools =
    tool_context_list_subgraphs ∷ tool_context_explore ∷ tool_context_subscribe
    ∷ tool_context_unsubscribe ∷ tool_context_agent_retrieve ∷ tool_runtime_await_inputs
    ∷ tool_agent_propose_orchestration ∷ tool_agent_submit_requirement
    ∷ tool_agent_list_task_memory_candidates ∷ tool_agent_submit_memory_candidate
    ∷ tool_agent_submit_phase_output ∷ tool_workspace_list ∷ tool_workspace_read
    ∷ tool_workspace_write ∷ tool_workspace_run ∷ tool_workspace_diff ∷ tool_evidence_register ∷ []

abbrev pub verifier_tools : List Tool
verifier_tools =
    tool_context_list_subgraphs ∷ tool_context_explore ∷ tool_context_subscribe
    ∷ tool_context_unsubscribe ∷ tool_context_agent_retrieve ∷ tool_runtime_await_inputs
    ∷ tool_agent_propose_orchestration ∷ tool_agent_submit_requirement
    ∷ tool_agent_list_task_memory_candidates ∷ tool_agent_submit_memory_candidate
    ∷ tool_agent_submit_phase_output ∷ tool_workspace_list ∷ tool_workspace_read
    ∷ tool_workspace_run ∷ tool_workspace_diff ∷ tool_evidence_register ∷ []

unfoldable pub role_allows_tool : Role → Tool → Bool
unfolding mem
role_allows_tool Role.task_manager tool = mem tool task_manager_tools
role_allows_tool Role.context_agent tool = mem tool context_agent_tools
role_allows_tool Role.planner tool = mem tool planner_tools
role_allows_tool Role.executor tool = mem tool executor_tools
role_allows_tool Role.verifier tool = mem tool verifier_tools
role_allows_tool Role.operator tool = false
role_allows_tool (Role.other s) tool = false

abbrev pub retrieve_tools : List Tool
retrieve_tools =
    tool_context_list_subgraphs ∷ tool_context_explore ∷ tool_context_get_subgraph
    ∷ tool_context_get_node ∷ tool_context_search ∷ []

abbrev pub curate_tools : List Tool
curate_tools =
    tool_context_list_subgraphs ∷ tool_context_explore ∷ tool_context_get_subgraph
    ∷ tool_context_get_node ∷ tool_context_create_node ∷ tool_context_update_node
    ∷ tool_context_delete_node ∷ tool_context_create_subgraph ∷ tool_context_update_subgraph
    ∷ tool_context_delete_subgraph ∷ []

abbrev pub review_tools : List Tool
review_tools =
    tool_context_list_subgraphs ∷ tool_context_explore ∷ tool_context_get_subgraph
    ∷ tool_context_get_node ∷ tool_context_search ∷ tool_context_submit_review ∷ []

unfoldable pub operation_allows_tool : Role → String → Tool → Bool
unfolding mem role_allows_tool
operation_allows_tool role operation tool =
    if role != Role.context_agent
    then operation == "" && role_allows_tool role tool
    else if operation == "retrieve"
    then mem tool retrieve_tools
    else if operation == "curate"
    then mem tool curate_tools
    else if operation == "review"
    then mem tool review_tools
    else false
