-- ===== src/Coordination/Service/Calls.antt =====
-- Service of internal/coordination/service.go over the in-memory stores. What encoding/json and the
-- hash give is a parameter. A service without a store or a decision log, whose calls are internal
-- errors, is left out.
use threadmill_agent_teams.Base.{
  ℕ, Bool, true, false, ◌&&◌, Option, none, some, List, String, string_eq, ◌==◌, ◌!=◌,
  if◌then◌else◌, ◌^^◌, pos, [],
}
use threadmill_agent_teams.Kernel.Errors.{
  Error, internal_error, Result, ok, err, ◌>>=◌, ◌>>◌, reject_if, or_fail, forbidden_error,
  invalid_argument,
}
use threadmill_agent_teams.Kernel.Revision.{Revision, is_latest_read}
use threadmill_agent_teams.Kernel.Idempotency.{
  IdempotencyResponse, MemoryIdempotencyStore, Reservation, reserve, check_call, execute,
}
use threadmill_agent_teams.Auth.Tools.{
  Role, Tool, role_eq, tool_coordination_snapshot, tool_coordination_replace_pending,
  tool_coordination_transition,
}
use threadmill_agent_teams.Auth.Require.{Principal, Scope, require_tool}
use threadmill_agent_teams.Coordination.Types.{GraphSnapshot, PendingSubgraph, GraphTransition}
use threadmill_agent_teams.Coordination.Store.Project.{MemoryStore, Outcome}
use threadmill_agent_teams.Coordination.Store.Memory.{
  replace_pending, transition_with_decision_ref, latest_snapshot, revision_snapshot,
}
use threadmill_agent_teams.Coordination.Service.Decisions.{
  Decisions, authorize_replace_pending, resolve_transition,
}

-- json.Marshal of what is called, json.Marshal and json.Unmarshal of a revision, and the hash.
pub record Coding : Type 0 where
  pub marshal_pending : PendingSubgraph → Option (List ℕ)
  pub marshal_transition : Revision → String → GraphTransition → Option (List ℕ)
  pub marshal_revision : Revision → Result (List ℕ)
  pub unmarshal_revision : List ℕ → Option Revision
  pub hash : List ℕ → String

pub record ServiceState : Type 0 where
  pub store : MemoryStore
  pub decisions : Decisions
  pub idempotency : MemoryIdempotencyStore

unfoldable pub require : Principal → Tool → Result Scope
unfolding require_tool
require p tool = do
  scope ←
      require_tool p tool
        (record { project_id = p.project_id; task_id = p.task_id; invocation_id = p.invocation_id })
  reject_if (p.role != Role.task_manager)
      (forbidden_error "coordination graph tools require the canonical Task Manager role")
  ok scope

abbrev pub Executor : Type 0
Executor = MemoryStore → MemoryStore × Result IdempotencyResponse

abbrev pub owned : Result Reservation → Bool
owned (err e) = false
owned (ok r) = r.2

abbrev pub passes : Result (Unit {0}) → Bool
passes (err e) = false
passes (ok u) = true

-- Whether Execute runs the executor.
unfoldable pub runs_executor : Coding → MemoryIdempotencyStore → String → String → List ℕ → Bool
unfolding check_call reserve
runs_executor coding idempotency scope key payload =
    passes (check_call scope key true)
    && owned (reserve idempotency (record { scope = scope; key = key }) (coding.hash payload))

abbrev pub Answer : Type 0
Answer = Option (Result IdempotencyResponse)

-- s.idempotency.Execute, whose executor works on the store.
unfoldable pub idempotent :
    Coding → ServiceState → String → String → List ℕ → Executor → ServiceState × Answer
unfolding execute runs_executor
idempotent coding s scope key payload executor =
    let ran = executor s.store in
    let done = execute coding.hash s.idempotency scope key payload (some ran.1) in
    (
      record s {
        store = if runs_executor coding s.idempotency scope key payload then ran.0 else s.store;
        idempotency = done.0;
      },
      done.1,
    )

abbrev response : Coding → Outcome GraphSnapshot → MemoryStore × Result IdempotencyResponse
response coding (store, err e) = (store, err e)
response coding (store, ok snapshot) = (
  store,
  coding.marshal_revision snapshot.revision >>= λ body.
      ok (record { status_code = pos 200; body = body }),
)

abbrev replace_authorized : Coding → String → PendingSubgraph → Result (Unit {0}) → Executor
replace_authorized coding project_id next (err e) store = (store, err e)
replace_authorized coding project_id next (ok u) store =
    response coding (replace_pending store project_id next)

unfoldable pub replace_executor : Coding → Decisions → String → PendingSubgraph → Executor
unfolding authorize_replace_pending replace_pending
replace_executor coding decisions project_id next =
    replace_authorized coding project_id next
      (authorize_replace_pending decisions project_id next.request_id)

unfoldable pub transition_executor :
    Coding → String → Revision → String → GraphTransition → Executor
unfolding transition_with_decision_ref
transition_executor coding project_id expected ref t store =
    response coding (transition_with_decision_ref store project_id expected ref t)

abbrev pub not_a_revision : Error
not_a_revision = record {
  code = internal_error;
  message = "stored idempotency response is not a graph revision";
  recoverable = true;
  details = [];
}

abbrev pub decoded : Coding → Answer → Option (Result Revision)
decoded coding none = none
decoded coding (some (err e)) = some (err e)
decoded coding (some (ok r)) = some (or_fail (coding.unmarshal_revision r.body) not_a_revision)

-- A call and its answer; none while it waits for another call of its key.
abbrev pub Called : Type 0
Called = ServiceState × Option (Result Revision)

abbrev pub answered_by : Coding → ServiceState × Answer → Called
answered_by coding (s, a) = (s, decoded coding a)

abbrev pub prepared_call :
    Coding → ServiceState → Result (String × String × List ℕ × Executor) → Called
prepared_call coding s (err e) = (s, some (err e))
prepared_call coding s (ok (scope, key, payload, executor)) =
    answered_by coding (idempotent coding s scope key payload executor)

-- The scope, the key, the payload and the executor of a call, or the error that ends it before.
unfoldable pub prepare_replace :
    Coding → Decisions → Principal → PendingSubgraph → Result (String × String × List ℕ × Executor)
unfolding require replace_executor
prepare_replace coding decisions p next = do
  scope ← require p tool_coordination_replace_pending
  payload ←
      or_fail (coding.marshal_pending next)
        (invalid_argument "pending subgraph must be JSON serializable")
  ok (
    scope.project_id ^^ ":coordination.replacePending",
    next.request_id,
    payload,
    replace_executor coding decisions scope.project_id next,
  )

unfoldable pub service_replace_pending :
    Coding → ServiceState → Principal → PendingSubgraph → Called
unfolding prepare_replace idempotent
service_replace_pending coding s p next =
    prepared_call coding s (prepare_replace coding s.decisions p next)

unfoldable pub prepare_transition :
    Coding
    → Decisions
    → Principal
    → Revision
    → String
    → Result (String × String × List ℕ × Executor)
unfolding require resolve_transition transition_executor
prepare_transition coding decisions p expected ref = do
  scope ← require p tool_coordination_transition
  reject_if (ref == "") (invalid_argument "transitionRef is required")
  t ← resolve_transition decisions scope.project_id ref
  payload ←
      or_fail (coding.marshal_transition expected ref t)
        (invalid_argument "transition payload must be JSON serializable")
  ok (
    scope.project_id ^^ ":coordination.transition",
    ref,
    payload,
    transition_executor coding scope.project_id expected ref t,
  )

unfoldable pub service_transition : Coding → ServiceState → Principal → Revision → String → Called
unfolding prepare_transition idempotent
service_transition coding s p expected ref =
    prepared_call coding s (prepare_transition coding s.decisions p expected ref)

abbrev snapshot_in : MemoryStore → Revision → Result Scope → Outcome GraphSnapshot
snapshot_in store revision (err e) = (store, err e)
snapshot_in store revision (ok scope) =
    if is_latest_read revision
    then latest_snapshot store scope.project_id
    else revision_snapshot store scope.project_id revision

unfoldable pub service_snapshot : MemoryStore → Principal → Revision → Outcome GraphSnapshot
unfolding require latest_snapshot revision_snapshot is_latest_read
service_snapshot store p revision =
    snapshot_in store revision (require p tool_coordination_snapshot)
