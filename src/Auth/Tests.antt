-- ===== src/Auth/Tests.antt =====
-- What a verifier's token grants.
use threadmill_agent_teams.Base.{
  ◌≡◌, ◌↔◌, refl, false, [], ◌∷◌, string_eq, is_blank, Number-discrete,
}
use threadmill_agent_teams.Kernel.Errors.{ok}
use threadmill_agent_teams.Auth.Tools.{Role, Role-discrete, tool_workspace_read, tool_workspace_run}
use threadmill_agent_teams.Auth.Require.{Scope, require_tool}
use threadmill_agent_teams.Auth.Capability.{
  Capability, TokenRecord, no_role, principal_of, authenticate_agent_token,
}
use threadmill_agent_teams.Auth.Grants.{Grants, scope_of, authenticate_agent_token-require_tool}

abbrev verifier : Capability
verifier = record {
  project_id = "p";
  task_id = "t";
  invocation_id = "i";
  consumer_invocation_id = "";
  consumer_task_id = "";
  consumer_role = no_role;
  role = Role.verifier;
  operation = "";
  tools = tool_workspace_read ∷ tool_workspace_run ∷ [];
  expires_at = 9;
}

abbrev verifier_token : TokenRecord
verifier_token = record {
  actor_principal_id = "a";
  capability = verifier;
  expires_at = 9;
  revoked = false;
}

abbrev own_task : Scope
own_task = record { project_id = "p"; task_id = "t"; invocation_id = "" }

authenticate_agent_token-require_tool_example :
    Grants verifier tool_workspace_run own_task
    ↔ (require_tool (principal_of verifier) tool_workspace_run own_task ≡ ok (scope_of verifier))
unfolding authenticate_agent_token is_blank Number-discrete Role-discrete
authenticate_agent_token-require_tool_example =
    authenticate_agent_token-require_tool verifier_token 5 (principal_of verifier)
      tool_workspace_run own_task refl
