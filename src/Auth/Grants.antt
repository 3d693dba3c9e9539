-- ===== src/Auth/Grants.antt =====
-- What a token grants: AuthenticateAgentToken and RequireTool of internal/platform/auth together.
use threadmill_agent_teams.Base.{
  ℕ, ◌≡◌, ◌↔◌, ◌⊎◌, inl, inr, refl, subst, Bool, true, false, ◌&&◌, ◌||◌, not, some, List, [], ◌∷◌,
  String, string_eq, ◌==◌, ◌!=◌, mem, arith, Bool-cases, leb, is_blank,
}
use threadmill_agent_teams.Kernel.Errors.{
  Error, Result, ok, err, ◌>>◌, reject_if, each, require_id, is_zero_id, >>=-eq-ok, ok-injective,
  invalid_argument, forbidden_error,
}
use threadmill_agent_teams.Auth.Tools.{
  PrincipalKind, Role, Tool, principal_kind_eq, role_eq, role_allows_tool, operation_allows_tool,
}
use threadmill_agent_teams.Auth.Require.{Principal, Scope, require_tool, has_tool}
use threadmill_agent_teams.Auth.Allowed.{require_tool-Allowed}
use threadmill_agent_teams.Auth.Capability.{
  Capability, TokenRecord, refused, principal_of, validate_tool, no_role, no_tools, has_consumer,
  is_agent_role, validate_operation, validate_capability, authenticate_agent_token,
}

each-mem :
    (f : Tool → Result (Unit {0})) (tool : Tool) (tools : List Tool)
    → each f tools ≡ ok tt
    → mem tool tools ≡ true
    → f tool ≡ ok tt
unfolding each mem
each-mem f tool [] h inside = absurd (ground arith)
each-mem f tool (t ∷ tools) h inside =
    let (_, first, rest) = >>=-eq-ok (f t) (λ _. each f tools) h in
    elim (Bool-cases (t == tool)) [
      | inl same ↦ ground arith
      | inr other ↦ each-mem f tool tools rest (ground arith)
    ]

admitted :
    {A : Type 0} (b : Bool) (e : Error) (rest : Result A) (a : A)
    → b ≡ false
    → rest ≡ ok a
    → (reject_if b e >> rest) ≡ ok a
admitted true e rest a h k = absurd (ground arith)
admitted false e rest a h k = k

an_agent : (PrincipalKind.agent != PrincipalKind.agent) ≡ false
an_agent = ground arith

not-true : {b : Bool} → b ≡ true → not b ≡ false
not-true h = ground arith

-- What the validation of a capability leaves of it.
record Granted (c : Capability) : Type 0 where
  project : (c.project_id == "") ≡ false
  granted : each (validate_tool c) c.tools ≡ ok tt

then-ok :
    {A : Type 0} (first : Result (Unit {0})) (rest : Result A) {a : A}
    → first >> rest ≡ ok a
    → (first ≡ ok tt) × (rest ≡ ok a)
then-ok (err e) rest h = absurd (ground arith)
then-ok (ok u) rest h = (refl, h)

bound_project : (name id : String) → require_id name id ≡ ok tt → (id == "") ≡ false
unfolding require_id is_zero_id is_blank
bound_project name id h = elim (Bool-cases (id == "")) [
  | inl empty ↦
      let nothing : id ≡ "" = ground arith in
      let accepted = subst (λ i. require_id name i ≡ ok tt) nothing h in absurd (ground arith)
  | inr full ↦ full
]

validate_capability-Granted :
    (c : Capability) (now : ℕ) → validate_capability c now ≡ ok tt → Granted c
unfolding validate_capability
validate_capability-Granted c now h =
    let (project, h1) = then-ok (require_id "project_id" c.project_id) _ h in
    let (_, h2) = then-ok (require_id "invocation_id" c.invocation_id) _ h1 in
    let (_, h3) =
      then-ok (reject_if (c.role == no_role) (invalid_argument "role is required")) _ h2 in
    let (_, h4) =
      then-ok (reject_if (not (is_agent_role c.role)) (forbidden_error "unsupported agent role")) _
        h3 in
    let (_, h5) = then-ok (validate_operation c.role c.operation) _ h4 in
    let (_, h6) =
      then-ok
        (reject_if (has_consumer c && (c.role != Role.context_agent || c.operation != "retrieve"))
          (forbidden_error "consumer invocation is only valid for context retrieve capability"))
        _ h5 in
    let (_, h7) =
      then-ok
        (reject_if (c.consumer_role != no_role && not (is_agent_role c.consumer_role))
          (forbidden_error "consumer role is not a supported agent role"))
        _ h6 in
    let (_, h8) =
      then-ok
        (reject_if (no_tools c.tools) (forbidden_error "capability must include at least one tool"))
        _ h7 in
    let (each_tool, _) = then-ok (each (validate_tool c) c.tools) _ h8 in
    record { project = bound_project "project_id" c.project_id project; granted = each_tool }

validated_tool :
    (c : Capability) (tool : Tool)
    → validate_tool c tool ≡ ok tt
    → (role_allows_tool c.role tool ≡ true) × (operation_allows_tool c.role c.operation tool ≡ true)
unfolding validate_tool
validated_tool c tool h = (ground arith, ground arith)

-- The scope of a capability.
abbrev pub scope_of : Capability → Scope
scope_of c = record {
  project_id = c.project_id;
  task_id = c.task_id;
  invocation_id = c.invocation_id;
}

-- A requested identifier that is left out, or is the one that the capability binds.
abbrev pub Within : String → String → Type 0
Within requested bound = (requested ≡ "") ⊎ (requested ≡ bound)

-- A use that a capability grants: of one of its tools, in its project, task and invocation.
pub record Grants (c : Capability) (tool : Tool) (requested : Scope) : Type 0 where
  pub given : mem tool c.tools ≡ true
  pub project : Within requested.project_id c.project_id
  pub task : Within requested.task_id c.task_id
  pub invocation : Within requested.invocation_id c.invocation_id

Within-test : (a b : String) → Within a b → (a != "" && a != b) ≡ false
Within-test a b (inl e) = ground arith
Within-test a b (inr e) = ground arith

test-Within : (a b : String) → (a != "" && a != b) ≡ false → Within a b
test-Within a b h = elim (string_eq.dec a "") [ yes e ↦ inl e | no named ↦ inr (ground arith) ]

-- What RequireTool answers, for a principal of the capability.
Grants-require_tool :
    (c : Capability) (tool : Tool) (requested : Scope)
    → Granted c
    → Grants c tool requested
    → require_tool (principal_of c) tool requested ≡ ok (scope_of c)
unfolding require_tool principal_of has_tool validate_tool
Grants-require_tool c tool requested is granted =
    let valid = each-mem (validate_tool c) tool c.tools is.granted granted.given in
    let (role, operation) = validated_tool c tool valid in
    let scope = scope_of c in
    let p = requested.project_id in
    let t = requested.task_id in
    let i = requested.invocation_id in
    admitted (c.project_id == "") _ _ scope is.project (
      admitted (PrincipalKind.agent != PrincipalKind.agent) _ _ scope an_agent (
        admitted (p != "" && p != c.project_id) _ _ scope
          (Within-test p c.project_id granted.project)
          (admitted (t != "" && t != c.task_id) _ _ scope (Within-test t c.task_id granted.task) (
            admitted (i != "" && i != c.invocation_id) _ _ scope
              (Within-test i c.invocation_id granted.invocation)
              (admitted (not (role_allows_tool c.role tool)) _ _ scope (not-true role) (
                admitted (not (operation_allows_tool c.role c.operation tool)) _ _ scope
                  (not-true operation)
                  (admitted (not (mem tool c.tools)) _ _ scope (not-true granted.given) refl)))))))

require_tool-Grants :
    (c : Capability) (tool : Tool) (requested scope : Scope)
    → require_tool (principal_of c) tool requested ≡ ok scope
    → Grants c tool requested
unfolding principal_of
require_tool-Grants c tool requested scope h =
    let is = require_tool-Allowed (principal_of c) tool requested scope h in
    record {
      given = is.given;
      project = test-Within requested.project_id c.project_id is.in_project;
      task = test-Within requested.task_id c.task_id is.in_task;
      invocation = test-Within requested.invocation_id c.invocation_id is.in_invocation;
    }

-- The principal that a token gives may use a tool just where the token's capability has the tool and the
-- project, the task and the invocation that the use names, each where it is named, are those of the
-- capability; the use is then bound to the capability's project, task and invocation.
pub authenticate_agent_token-require_tool :
    (r : TokenRecord) (now : ℕ) (p : Principal) (tool : Tool) (requested : Scope)
    → authenticate_agent_token (some r) now ≡ ok p
    → Grants r.capability tool requested
      ↔ (require_tool p tool requested ≡ ok (scope_of r.capability))
unfolding authenticate_agent_token
authenticate_agent_token-require_tool r now p tool requested h =
    let (_, h1) = then-ok (reject_if (leb r.expires_at now) (refused "agent token expired")) _ h in
    let (_, h2) = then-ok (reject_if r.revoked (refused "agent token revoked")) _ h1 in
    let (_, h3) =
      then-ok
        (reject_if (is_zero_id r.actor_principal_id)
          (refused "agent token has an invalid principal binding"))
        _ h2 in
    let (valid, h4) = then-ok (validate_capability r.capability now) _ h3 in
    let is = validate_capability-Granted r.capability now valid in
    let c = r.capability in
    subst
      (λ (q : Principal).
        Grants c tool requested ↔ (require_tool q tool requested ≡ ok (scope_of c)))
      (ok-injective h4)
      (Grants-require_tool c tool requested is, require_tool-Grants c tool requested (scope_of c))
