-- ===== src/Coordination/Service/Permission.antt =====
-- What a call of internal/coordination/service.go that gets past its first checks has, and what it may
-- do to the graph.
use threadmill_agent_teams.Base.{
  ℕ, ◌≡◌, ◌⊎◌, inl, inr, refl, subst, true, false, List, String, string_eq, nat_eq, ◌==◌, mem,
  arith, Bool-cases,
}
use threadmill_agent_teams.Kernel.Errors.{Result, ok, err, Result-cases}
use threadmill_agent_teams.Auth.Tools.{
  PrincipalKind, Role, Tool, principal_kind_eq, role_eq, operation_allows_tool,
}
use threadmill_agent_teams.Auth.Allowed.{require_tool-Allowed}
use threadmill_agent_teams.Auth.Require.{Principal, Scope, require_tool}
use threadmill_agent_teams.Coordination.Service.Decisions.{decision_key_eq}
use threadmill_agent_teams.Coordination.Service.Calls.{
  Coding, ServiceState, Executor, require, runs_executor, idempotent, prepared_call,
}

-- An agent of the Task Manager's role, bound to a project and given the tool.
pub record Authorized (p : Principal) (tool : Tool) : Type 0 where
  pub agent : p.kind ≡ PrincipalKind.agent
  pub task_manager : p.role ≡ Role.task_manager
  pub plain : p.operation ≡ ""
  pub given : mem tool p.tools ≡ true
  pub bound : (p.project_id == "") ≡ false

operation-plain :
    (operation : String) (tool : Tool)
    → operation_allows_tool Role.task_manager operation tool ≡ true
    → operation ≡ ""
unfolding operation_allows_tool
operation-plain operation tool h = ground arith

pub require-Authorized :
    (p : Principal) (tool : Tool) (scope : Scope)
    → require p tool ≡ ok scope
    → Authorized p tool × (scope.project_id ≡ p.project_id)
unfolding require
require-Authorized p tool scope h =
    let requested : Scope = record {
      project_id = p.project_id;
      task_id = p.task_id;
      invocation_id = p.invocation_id;
    } in
    elim (Result-cases (require_tool p tool requested)) [
      | inl (e, refused) ↦ absurd (ground arith)
      | inr (granted, allowed) ↦
          let is = require_tool-Allowed p tool requested granted allowed in
          let manages : p.role ≡ Role.task_manager = ground (arith, h, allowed) in
          let same : granted ≡ scope = ground (arith, h, allowed) in
          (
            record {
              agent = is.agent;
              task_manager = manages;
              plain = operation-plain p.operation tool (
                  subst (λ role. operation_allows_tool role p.operation tool ≡ true) manages
                    is.operation);
              given = is.given;
              bound = is.bound;
            },
            subst (λ (c : Scope). c.project_id ≡ p.project_id) same is.project,
          )
    ]

idempotent-store :
    (coding : Coding) (s : ServiceState) (scope key : String) (payload : List ℕ)
    (executor : Executor)
    → ((idempotent coding s scope key payload executor).0.store ≡ s.store)
      ⊎ ((idempotent coding s scope key payload executor).0.store ≡ (executor s.store).0)
unfolding idempotent
idempotent-store coding s scope key payload executor =
    elim (Bool-cases (runs_executor coding s.idempotency scope key payload)) [
      | inl runs ↦ inr (ground arith)
      | inr rests ↦ inl (ground arith)
    ]

abbrev pub Prepared : Type 0
Prepared = String × String × List ℕ × Executor

-- A call leaves the graph as it was, or does to it what the executor that it has prepared does.
pub prepared_call-store :
    (coding : Coding) (s : ServiceState) (prepared : Result Prepared)
    → ((prepared_call coding s prepared).0.store ≡ s.store)
      ⊎ ((scope : String) × (key : String) × (payload : List ℕ) × (executor : Executor) × (prepared
            ≡ ok (scope, key, payload, executor))
          × ((prepared_call coding s prepared).0.store ≡ (executor s.store).0))
prepared_call-store coding s (err e) = inl refl
prepared_call-store coding s (ok (scope, key, payload, executor)) =
    elim (idempotent-store coding s scope key payload executor) [
      | inl same ↦ inl same
      | inr ran ↦ inr (scope, key, payload, executor, refl, ran)
    ]
