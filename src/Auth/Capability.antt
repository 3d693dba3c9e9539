-- ===== src/Auth/Capability.antt =====
-- The capability of an agent's token: validateCapability and AuthenticateAgentToken of
-- internal/platform/auth/authenticator.go. Times are numbers, and one call reads the clock
-- once. What the token store gives for the hash of a token is an argument.
use threadmill_agent_teams.Base.{
  ℕ, Bool, true, false, ◌&&◌, ◌||◌, not, Option, List, [], ◌∷◌, String, string_eq, ◌==◌, ◌!=◌,
  if◌then◌else◌, leb,
}
use threadmill_agent_teams.Kernel.Errors.{
  Error, Result, ok, ◌>>=◌, ◌>>◌, reject_if, each, or_fail, require_id, is_zero_id, unauthorized,
  forbidden_error, invalid_argument, stale_binding_error,
}
use threadmill_agent_teams.Auth.Tools.{
  PrincipalKind, Role, Tool, role_eq, role_allows_tool, operation_allows_tool,
}
use threadmill_agent_teams.Auth.Require.{Principal}

pub record Capability : Type 0 where
  pub project_id : String
  pub task_id : String
  pub invocation_id : String
  pub consumer_invocation_id : String
  pub consumer_task_id : String
  pub consumer_role : Role
  pub role : Role
  pub operation : String
  pub tools : List Tool
  pub expires_at : ℕ

unfoldable pub is_phase : Role → Bool
is_phase r = r == Role.planner || r == Role.executor || r == Role.verifier

unfoldable pub is_agent_role : Role → Bool
is_agent_role Role.task_manager = true
is_agent_role Role.context_agent = true
is_agent_role Role.planner = true
is_agent_role Role.executor = true
is_agent_role Role.verifier = true
is_agent_role Role.operator = false
is_agent_role (Role.other s) = false

abbrev pub no_role : Role
no_role = Role.other ""

unfoldable pub validate_operation : Role → String → Result (Unit {0})
validate_operation role operation =
    if role == Role.context_agent
    then reject_if (not (operation == "retrieve" || operation == "curate" || operation == "review"))
        (invalid_argument "context capability operation must be retrieve, curate, or review")
    else reject_if (operation != "")
        (invalid_argument "operation is only valid for context capability")

unfoldable pub has_consumer : Capability → Bool
has_consumer c =
    c.consumer_invocation_id != "" || c.consumer_task_id != "" || c.consumer_role != no_role

unfoldable pub validate_tool : Capability → Tool → Result (Unit {0})
unfolding role_allows_tool operation_allows_tool
validate_tool c tool = do
  reject_if (not (role_allows_tool c.role tool)) (forbidden_error "tool is outside role capability")
  reject_if (not (operation_allows_tool c.role c.operation tool))
      (forbidden_error "tool is outside invocation operation capability")

abbrev pub no_tools : List Tool → Bool
no_tools [] = true
no_tools (tool ∷ tools) = false

abbrev pub refused : String → Error
refused message = record {
  code = unauthorized;
  message = message;
  recoverable = false;
  details = [];
}

unfoldable pub validate_capability : Capability → ℕ → Result (Unit {0})
unfolding require_id is_agent_role validate_operation has_consumer validate_tool is_phase each
validate_capability c now = do
  require_id "project_id" c.project_id
  require_id "invocation_id" c.invocation_id
  reject_if (c.role == no_role) (invalid_argument "role is required")
  reject_if (not (is_agent_role c.role)) (forbidden_error "unsupported agent role")
  validate_operation c.role c.operation
  reject_if (has_consumer c && (c.role != Role.context_agent || c.operation != "retrieve"))
      (forbidden_error "consumer invocation is only valid for context retrieve capability")
  reject_if (c.consumer_role != no_role && not (is_agent_role c.consumer_role))
      (forbidden_error "consumer role is not a supported agent role")
  reject_if (no_tools c.tools) (forbidden_error "capability must include at least one tool")
  each (validate_tool c) c.tools
  reject_if (is_phase c.role && is_zero_id c.task_id)
      (stale_binding_error "phase capability must bind a task")
  reject_if (leb c.expires_at now) (refused "capability already expired")

-- TokenRecord, without the hash that finds it.
pub record TokenRecord : Type 0 where
  pub actor_principal_id : String
  pub capability : Capability
  pub expires_at : ℕ
  pub revoked : Bool

unfoldable pub principal_of : Capability → Principal
principal_of c = record {
  kind = PrincipalKind.agent;
  project_id = c.project_id;
  role = c.role;
  operation = c.operation;
  task_id = c.task_id;
  invocation_id = c.invocation_id;
  tools = c.tools;
}

unfoldable pub authenticate_agent_token : Option TokenRecord → ℕ → Result Principal
unfolding validate_capability principal_of is_zero_id
authenticate_agent_token found now = do
  r ← or_fail found (refused "agent token is missing or invalid")
  reject_if (leb r.expires_at now) (refused "agent token expired")
  reject_if r.revoked (refused "agent token revoked")
  reject_if (is_zero_id r.actor_principal_id)
      (refused "agent token has an invalid principal binding")
  validate_capability r.capability now
  ok (principal_of r.capability)
