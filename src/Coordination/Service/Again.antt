-- ===== src/Coordination/Service/Again.antt =====
-- What repeated calls of internal/coordination/service.go do, and who may make them.
use threadmill_agent_teams.Base.{
  ℕ, ◌≡◌, inl, inr, refl, sym, subst, ap, true, none, some, List, String, string_eq, nat_eq, lookup,
  insert, lookup-insert_self, arith, Option-cases,
}
use threadmill_agent_teams.Kernel.Errors.{Result, ok, err, Result-cases}
use threadmill_agent_teams.Kernel.Revision.{Revision}
use threadmill_agent_teams.Kernel.Idempotency.{
  IdempotencyResponse, IdempotencyRecordKey, MemoryIdempotencyStore, IdempotencyRecord,
  idempotency_record_key_eq, reserve, reserve_found, check_call, execute, await, settle, commit,
  open_record, release_failed,
}
use threadmill_agent_teams.Coordination.Types.{PendingSubgraph}
use threadmill_agent_teams.Coordination.Store.Project.{MemoryStore}
use threadmill_agent_teams.Auth.Require.{Principal}
use threadmill_agent_teams.Coordination.Service.Calls.{
  Coding, ServiceState, Executor, runs_executor, idempotent, Called, answered_by, prepared_call,
  prepare_replace, service_replace_pending, prepare_transition, service_transition,
}

abbrev record_key : String → String → IdempotencyRecordKey
record_key scope key = record { scope = scope; key = key }

-- What a call that answered with a response leaves: its key has a record that is done.
record Settled (hash : List ℕ → String) (s : MemoryIdempotencyStore) (scope key : String)
    (payload : List ℕ) (response : IdempotencyResponse) : Type 0 where
  ref : ℕ
  stored : IdempotencyRecord
  passed : check_call scope key true ≡ ok tt
  current : lookup (record_key scope key) s.records ≡ some ref
  held : lookup ref s.heap ≡ some stored
  same : stored.payload_hash ≡ hash payload
  answered : await (some stored) ≡ some (ok response)

execute-Settled :
    (hash : List ℕ → String) (s s' : MemoryIdempotencyStore) (scope key : String) (payload : List ℕ)
    (outcome : Result IdempotencyResponse) (response : IdempotencyResponse)
    → execute hash s scope key payload (some outcome) ≡ (s', some (ok response))
    → Settled hash s' scope key payload response
unfolding execute reserve reserve_found await settle commit open_record release_failed
execute-Settled hash s s' scope key payload outcome response h =
    let own_record = lookup-insert_self (record_key scope key) s.next_ref s.records in
    let own_heap = lookup-insert_self s.next_ref (open_record (hash payload)) s.heap in
    elim (Result-cases (check_call scope key true)) [
      | inl (e, refused) ↦ absurd (ground arith)
      | inr (u, passed) ↦ elim (Option-cases (lookup (record_key scope key) s.records)) [
        | inl free ↦ elim (Result-cases outcome) [
          | inl (e, failed) ↦ absurd (ground arith)
          | inr (r, worked) ↦
              let opened = insert s.next_ref (open_record (hash payload)) s.heap in
              let settled : IdempotencyRecord = record {
                payload_hash = hash payload;
                done = true;
                response = r;
                failure = none;
              } in
              let own_settled = lookup-insert_self s.next_ref settled opened in
              record {
                ref = s.next_ref;
                stored = settled;
                passed = passed;
                current = ground arith;
                held = ground arith;
                same = refl;
                answered = ground arith;
              }
        ]
        | inr (ref, current) ↦ elim (Option-cases (lookup ref s.heap)) [
          | inl gone ↦ absurd (ground arith)
          | inr (r, held) ↦ record {
            ref = ref;
            stored = r;
            passed = passed;
            current = ground arith;
            held = ground arith;
            same = ground arith;
            answered = ground arith;
          }
        ]
      ]
    ]

-- A call whose key is settled for its payload runs no executor, and answers the same.
idempotent-Settled :
    (coding : Coding) (s : ServiceState) (scope key : String) (payload : List ℕ)
    (executor : Executor) (response : IdempotencyResponse)
    → Settled coding.hash s.idempotency scope key payload response
    → idempotent coding s scope key payload executor ≡ (s, some (ok response))
unfolding idempotent runs_executor execute reserve reserve_found
idempotent-Settled coding s scope key payload executor response is =
    ground (arith, is.passed, is.current, is.held, is.same, is.answered)

-- The state after others have changed the graph.
abbrev pub with_graph : MemoryStore → ServiceState → ServiceState
with_graph store s = record s { store = store }

idempotent-kept :
    (coding : Coding) (s : ServiceState) (scope key : String) (payload : List ℕ)
    (executor : Executor)
    → (idempotent coding s scope key payload executor).0.decisions ≡ s.decisions
unfolding idempotent
idempotent-kept coding s scope key payload executor = refl

idempotent-again :
    (coding : Coding) (s s' : ServiceState) (scope key : String) (payload : List ℕ)
    (executor other : Executor) (revision : Revision) (store : MemoryStore)
    → answered_by coding (idempotent coding s scope key payload executor) ≡ (s', some (ok revision))
    → answered_by coding (idempotent coding (with_graph store s') scope key payload other)
      ≡ (with_graph store s', some (ok revision))
unfolding idempotent
idempotent-again coding s s' scope key payload executor other revision store h =
    let outcome = (executor s.store).1 in
    let done = execute coding.hash s.idempotency scope key payload (some outcome) in
    elim (Option-cases done.1) [
      | inl waits ↦ absurd (ground arith)
      | inr (answer, given) ↦ elim (Result-cases answer) [
        | inl (e, failed) ↦ absurd (ground arith)
        | inr (response, worked) ↦
            let is =
              execute-Settled coding.hash s.idempotency done.0 scope key payload outcome response
                (ground arith) in
            let kept =
              subst (λ i. Settled coding.hash i scope key payload response)
                (ap (λ (c : Called). c.0.idempotency) h) is in
            ground (
              arith,
              h,
              worked,
              given,
              idempotent-Settled coding (with_graph store s') scope key payload other response kept,
            )
      ]
    ]

prepared_call-again :
    (coding : Coding) (s s' : ServiceState)
    (prepared : Result (String × String × List ℕ × Executor)) (revision : Revision)
    (store : MemoryStore)
    → prepared_call coding s prepared ≡ (s', some (ok revision))
    → (prepared_call coding (with_graph store s') prepared
        ≡ (with_graph store s', some (ok revision)))
      × (s'.decisions ≡ s.decisions)
unfolding idempotent
prepared_call-again coding s s' (err e) revision store h = absurd (ground arith)
prepared_call-again coding s s' (ok (scope, key, payload, executor)) revision store h = (
  idempotent-again coding s s' scope key payload executor executor revision store h,
  sym (ap (λ (c : Called). c.0.decisions) h),
)

-- A call of ReplacePending that has given a revision gives it again, from the same principal with the
-- same subgraph, whatever the graph has become, and changes nothing.
pub service_replace_pending-again :
    (coding : Coding) (s s' : ServiceState) (p : Principal) (next : PendingSubgraph)
    (revision : Revision) (store : MemoryStore)
    → service_replace_pending coding s p next ≡ (s', some (ok revision))
    → service_replace_pending coding (with_graph store s') p next
      ≡ (with_graph store s', some (ok revision))
unfolding service_replace_pending
service_replace_pending-again coding s s' p next revision store h =
    let (again, kept) =
      prepared_call-again coding s s' (prepare_replace coding s.decisions p next) revision store
        h in
    subst
      (λ decisions.
        prepared_call coding (with_graph store s') (prepare_replace coding decisions p next)
        ≡ (with_graph store s', some (ok revision)))
      (sym kept) again

-- A call of Transition that has given a revision gives it again, from the same principal with the same
-- revision expected and the same reference, whatever the graph has become, and changes nothing.
service_transition-again :
    (coding : Coding) (s s' : ServiceState) (p : Principal) (expected : Revision) (ref : String)
    (revision : Revision) (store : MemoryStore)
    → service_transition coding s p expected ref ≡ (s', some (ok revision))
    → service_transition coding (with_graph store s') p expected ref
      ≡ (with_graph store s', some (ok revision))
unfolding service_transition
service_transition-again coding s s' p expected ref revision store h =
    let (again, kept) =
      prepared_call-again coding s s' (prepare_transition coding s.decisions p expected ref)
        revision store h in
    subst
      (λ decisions.
        prepared_call coding (with_graph store s')
          (prepare_transition coding decisions p expected ref)
        ≡ (with_graph store s', some (ok revision)))
      (sym kept) again
