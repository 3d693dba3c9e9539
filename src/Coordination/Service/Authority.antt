-- ===== src/Coordination/Service/Authority.antt =====
-- Who may change the graph through internal/coordination/service.go, and on which decisions.
use threadmill_agent_teams.Base.{
  ℕ, ◌≡◌, ◌⊎◌, inl, inr, subst, ◌∙◌, ap, some, List, String, string_eq, nat_eq, lookup, arith,
  Option-cases,
}
use threadmill_agent_teams.Kernel.Errors.{ok, Result-cases}
use threadmill_agent_teams.Kernel.Revision.{Revision}
use threadmill_agent_teams.Auth.Tools.{
  principal_kind_eq, role_eq, tool_coordination_replace_pending, tool_coordination_transition,
}
use threadmill_agent_teams.Auth.Require.{Principal}
use threadmill_agent_teams.Coordination.Types.{PendingSubgraph, GraphTransition}
use threadmill_agent_teams.Coordination.Store.Project.{MemoryStore}
use threadmill_agent_teams.Coordination.Store.Memory.{replace_pending, transition_with_decision_ref}
use threadmill_agent_teams.Coordination.Service.Decisions.{
  Decisions, Decision, key_of, decision_key_eq, authorize_replace_pending, resolve_transition,
}
use threadmill_agent_teams.Coordination.Service.Calls.{
  Coding, ServiceState, Executor, require, replace_executor, transition_executor, prepare_replace,
  service_replace_pending, prepare_transition, service_transition,
}
use threadmill_agent_teams.Coordination.Service.Permission.{
  Authorized, require-Authorized, prepared_call-store,
}

replace_executor-Decided :
    (coding : Coding) (log : Decisions) (project_id : String) (next : PendingSubgraph)
    (store : MemoryStore)
    → ((replace_executor coding log project_id next store).0 ≡ store)
      ⊎ ((lookup (key_of project_id next.request_id) log ≡ some Decision.replace_pending)
          × ((replace_executor coding log project_id next store).0
              ≡ (replace_pending store project_id next).0))
unfolding replace_executor authorize_replace_pending
replace_executor-Decided coding log project_id next store =
    elim (Option-cases (lookup (key_of project_id next.request_id) log)) [
      | inl none_found ↦ inl (ground arith)
      | inr (Decision.replace_pending, found) ↦
          elim (Result-cases ((replace_pending store project_id next).1)) [
            | inl (e, failed) ↦ inr (found, ground arith)
            | inr (g, worked) ↦ inr (found, ground arith)
          ]
      | inr (Decision.transition t, found) ↦ inl (ground arith)
    ]

prepare_replace-Authorized :
    (coding : Coding) (log : Decisions) (p : Principal) (next : PendingSubgraph)
    (scope key : String) (payload : List ℕ) (executor : Executor)
    → prepare_replace coding log p next ≡ ok (scope, key, payload, executor)
    → Authorized p tool_coordination_replace_pending
      × (executor ≡ replace_executor coding log p.project_id next)
unfolding prepare_replace
prepare_replace-Authorized coding log p next scope key payload executor h =
    elim (Result-cases (require p tool_coordination_replace_pending)) [
      | inl (e, refused) ↦ absurd (ground arith)
      | inr (granted, allowed) ↦
          let (is, same) = require-Authorized p tool_coordination_replace_pending granted allowed in
          elim (Option-cases (coding.marshal_pending next)) [
            | inl unwritten ↦ absurd (ground arith)
            | inr (text, written) ↦ (is, ground arith)
          ]
    ]

-- ReplacePending leaves the graph as it was, or does to the caller's project what the store does. Then
-- the caller is an authorized Task Manager and the decision of the request is registered.
service_replace_pending-Decided :
    (coding : Coding) (s : ServiceState) (p : Principal) (next : PendingSubgraph)
    → ((service_replace_pending coding s p next).0.store ≡ s.store)
      ⊎ (Authorized p tool_coordination_replace_pending
          × (lookup (key_of p.project_id next.request_id) s.decisions
              ≡ some Decision.replace_pending)
          × ((service_replace_pending coding s p next).0.store
              ≡ (replace_pending s.store p.project_id next).0))
unfolding service_replace_pending
service_replace_pending-Decided coding s p next =
    elim (prepared_call-store coding s (prepare_replace coding s.decisions p next)) [
      | inl same ↦ inl same
      | inr (scope, key, payload, executor, prepared, ran) ↦
          let (is, known) =
            prepare_replace-Authorized coding s.decisions p next scope key payload executor
              prepared in
          let did = ap (λ (x : Executor). (x s.store).0) known in
          elim (replace_executor-Decided coding s.decisions p.project_id next s.store) [
            | inl same ↦ inl (ran ∙ did ∙ same)
            | inr (decided, replaced) ↦ inr (is, decided, ran ∙ did ∙ replaced)
          ]
    ]

resolve_transition-Found :
    (log : Decisions) (project_id ref : String) (t : GraphTransition)
    → resolve_transition log project_id ref ≡ ok t
    → lookup (key_of project_id ref) log ≡ some (Decision.transition t)
unfolding resolve_transition
resolve_transition-Found log project_id ref t h =
    elim (Option-cases (lookup (key_of project_id ref) log)) [
      | inl gone ↦ absurd (ground arith)
      | inr (Decision.replace_pending, found) ↦ absurd (ground arith)
      | inr (Decision.transition u, found) ↦ ground arith
    ]

transition_executor-store :
    (coding : Coding) (project_id : String) (expected : Revision) (ref : String)
    (t : GraphTransition) (store : MemoryStore)
    → (transition_executor coding project_id expected ref t store).0
      ≡ (transition_with_decision_ref store project_id expected ref t).0
unfolding transition_executor
transition_executor-store coding project_id expected ref t store =
    elim (Result-cases ((transition_with_decision_ref store project_id expected ref t).1)) [
      | inl (e, failed) ↦ ground arith
      | inr (g, worked) ↦ ground arith
    ]

prepare_transition-Authorized :
    (coding : Coding) (log : Decisions) (p : Principal) (expected : Revision) (ref : String)
    (scope key : String) (payload : List ℕ) (executor : Executor)
    → prepare_transition coding log p expected ref ≡ ok (scope, key, payload, executor)
    → Authorized p tool_coordination_transition
      × (t : GraphTransition) × (lookup (key_of p.project_id ref) log
          ≡ some (Decision.transition t))
      × (executor ≡ transition_executor coding p.project_id expected ref t)
unfolding prepare_transition
prepare_transition-Authorized coding log p expected ref scope key payload executor h =
    elim (Result-cases (require p tool_coordination_transition)) [
      | inl (e, refused) ↦ absurd (ground arith)
      | inr (granted, allowed) ↦
          let (is, same) = require-Authorized p tool_coordination_transition granted allowed in
          elim (Result-cases (resolve_transition log granted.project_id ref)) [
            | inl (e, unknown) ↦ absurd (ground arith)
            | inr (t, resolved) ↦ elim (Option-cases (coding.marshal_transition expected ref t)) [
              | inl unwritten ↦ absurd (ground arith)
              | inr (text, written) ↦ (
                is,
                t,
                subst
                    (λ project_id.
                      lookup (key_of project_id ref) log ≡ some (Decision.transition t))
                    same (resolve_transition-Found log granted.project_id ref t resolved),
                ground arith,
              )
            ]
          ]
    ]

-- Transition leaves the graph as it was, or does to the caller's project what the store does with the
-- transition that was registered under the reference. Then the caller is an authorized Task Manager.
pub service_transition-Decided :
    (coding : Coding) (s : ServiceState) (p : Principal) (expected : Revision) (ref : String)
    → ((service_transition coding s p expected ref).0.store ≡ s.store)
      ⊎ (Authorized p tool_coordination_transition
          × (t : GraphTransition) × (lookup (key_of p.project_id ref) s.decisions
              ≡ some (Decision.transition t))
          × ((service_transition coding s p expected ref).0.store
              ≡ (transition_with_decision_ref s.store p.project_id expected ref t).0))
unfolding service_transition
service_transition-Decided coding s p expected ref =
    elim (prepared_call-store coding s (prepare_transition coding s.decisions p expected ref)) [
      | inl same ↦ inl same
      | inr (scope, key, payload, executor, prepared, ran) ↦
          let (is, t, decided, known) =
            prepare_transition-Authorized coding s.decisions p expected ref scope key payload
              executor prepared in
          let did = ap (λ (x : Executor). (x s.store).0) known in
          inr (
            is,
            t,
            decided,
            ran ∙ did ∙ transition_executor-store coding p.project_id expected ref t s.store,
          )
    ]
