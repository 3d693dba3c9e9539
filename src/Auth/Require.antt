-- ===== src/Auth/Require.antt =====
-- RequireTool of internal/platform/auth/authorize.go. A principal's other identifiers and its times play
-- no part in it.
use threadmill_agent_teams.Base.{
  [], Bool, false, not, ◌&&◌, List, String, string_eq, ◌==◌, ◌!=◌, mem,
}
use threadmill_agent_teams.Kernel.Errors.{
  Error, Result, ok, ◌>>◌, reject_if, unauthorized, forbidden_error,
}
use threadmill_agent_teams.Auth.Tools.{
  PrincipalKind, Role, Tool, principal_kind_eq, role_eq, role_allows_tool, operation_allows_tool,
}

pub record Principal : Type 0 where
  pub kind : PrincipalKind
  pub project_id : String
  pub role : Role
  pub operation : String
  pub task_id : String
  pub invocation_id : String
  pub tools : List Tool

-- Scope and BoundScope.
pub record Scope : Type 0 where
  pub project_id : String
  pub task_id : String
  pub invocation_id : String

unfoldable pub has_tool : Principal → Tool → Bool
unfolding mem
has_tool p tool = mem tool p.tools

no_project : Error
no_project = record {
  code = unauthorized;
  message = "principal has no project binding";
  recoverable = false;
  details = [];
}

unfoldable pub require_tool : Principal → Tool → Scope → Result Scope
unfolding no_project role_allows_tool operation_allows_tool has_tool
require_tool p tool requested = do
  reject_if (p.project_id == "") no_project
  reject_if (p.kind != PrincipalKind.agent)
      (forbidden_error "MCP tool requires an agent invocation principal")
  reject_if (requested.project_id != "" && requested.project_id != p.project_id)
      (forbidden_error "requested project does not match authenticated principal")
  reject_if (requested.task_id != "" && requested.task_id != p.task_id)
      (forbidden_error "requested task does not match authenticated invocation")
  reject_if (requested.invocation_id != "" && requested.invocation_id != p.invocation_id)
      (forbidden_error "requested invocation does not match authenticated invocation")
  reject_if (not (role_allows_tool p.role tool)) (forbidden_error "tool is outside role capability")
  reject_if (not (operation_allows_tool p.role p.operation tool))
      (forbidden_error "tool is outside invocation operation capability")
  reject_if (not (has_tool p tool)) (forbidden_error "tool is outside invocation capability")
  ok (record { project_id = p.project_id; task_id = p.task_id; invocation_id = p.invocation_id })
