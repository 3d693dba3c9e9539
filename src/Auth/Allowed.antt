-- ===== src/Auth/Allowed.antt =====
-- What a call that RequireTool of internal/platform/auth admits has.
use threadmill_agent_teams.Base.{
  ◌≡◌, refl, sym, ap, Bool, true, false, not, ◌&&◌, string_eq, ◌==◌, ◌!=◌, mem, arith,
}
use threadmill_agent_teams.Kernel.Errors.{Error, Result, ok, ok-injective, reject_if, ◌>>◌}
use threadmill_agent_teams.Auth.Tools.{
  PrincipalKind, Tool, principal_kind_eq, role_eq, role_allows_tool, operation_allows_tool,
}
use threadmill_agent_teams.Auth.Require.{Principal, Scope, require_tool, has_tool}

-- What RequireTool has tested.
pub record Allowed (p : Principal) (tool : Tool) (requested scope : Scope) : Type 0 where
  pub agent : p.kind ≡ PrincipalKind.agent
  pub bound : (p.project_id == "") ≡ false
  pub given : mem tool p.tools ≡ true
  pub operation : operation_allows_tool p.role p.operation tool ≡ true
  pub in_project : (requested.project_id != "" && requested.project_id != p.project_id) ≡ false
  pub in_task : (requested.task_id != "" && requested.task_id != p.task_id) ≡ false
  pub in_invocation :
      (requested.invocation_id != "" && requested.invocation_id != p.invocation_id) ≡ false
  pub project : scope.project_id ≡ p.project_id

not-false : {b : Bool} → not b ≡ false → b ≡ true
not-false {b = true} h = refl
not-false {b = false} h = absurd (ground arith)

ne-false : {k : PrincipalKind} → (k != PrincipalKind.agent) ≡ false → k ≡ PrincipalKind.agent
ne-false h = ground arith

passed :
    {A : Type 0} (b : Bool) (e : Error) (rest : Result A) {a : A}
    → (reject_if b e >> rest) ≡ ok a
    → (b ≡ false) × (rest ≡ ok a)
passed true e rest h = absurd (ground arith)
passed false e rest h = (refl, h)

pub require_tool-Allowed :
    (p : Principal) (tool : Tool) (requested scope : Scope)
    → require_tool p tool requested ≡ ok scope
    → Allowed p tool requested scope
unfolding require_tool has_tool
require_tool-Allowed p tool requested scope h =
    let (bound, h1) = passed (p.project_id == "") _ _ h in
    let (agent, h2) = passed (p.kind != PrincipalKind.agent) _ _ h1 in
    let (project, h3) =
      passed (requested.project_id != "" && requested.project_id != p.project_id) _ _ h2 in
    let (task, h4) = passed (requested.task_id != "" && requested.task_id != p.task_id) _ _ h3 in
    let (invocation, h5) =
      passed (requested.invocation_id != "" && requested.invocation_id != p.invocation_id) _ _ h4 in
    let (role, h6) = passed (not (role_allows_tool p.role tool)) _ _ h5 in
    let (operation, h7) = passed (not (operation_allows_tool p.role p.operation tool)) _ _ h6 in
    let (given, h8) = passed (not (mem tool p.tools)) _ _ h7 in
    record {
      agent = ne-false agent;
      bound = bound;
      given = not-false given;
      operation = not-false operation;
      in_project = project;
      in_task = task;
      in_invocation = invocation;
      project = ap (λ c. c.project_id) (sym (ok-injective h8));
    }
