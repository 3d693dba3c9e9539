-- ===== src/Kernel/Idempotency/Replay.antt =====
-- What internal/kernel/idempotency.go promises of overlapping calls: one executor for a key at a time,
-- and one response for good.
use threadmill_agent_teams.Base.{
  ℕ, ◌≡◌, ◌≢◌, inl, inr, subst, true, false, none, some, List, [], ◌∷◌, String, nat_eq, string_eq,
  lookup, lookup-insert, lookup-delete, arith, Option-cases, Bool-cases,
}
use threadmill_agent_teams.Kernel.Errors.{Result, ok, err, Result-cases, idempotency_conflict_error}
use threadmill_agent_teams.Kernel.Idempotency.{
  IdempotencyResponse, IdempotencyRecordKey, IdempotencyRecord, idempotency_record_key_eq,
  new_memory_idempotency_store, reserve, reserve_found, open_record, same_payload, commit,
  release_failed, settle, await,
}
use threadmill_agent_teams.Kernel.Idempotency.Invariant.{
  World, Event, reserves, returns, started, ended, step, steps, new_world, IsWorld, reserve-IsWorld,
  return-IsWorld,
}

new_world-IsWorld : IsWorld new_world
unfolding lookup new_memory_idempotency_store
new_world-IsWorld = record {
  recent = λ k r h. absurd (ground arith);
  recent_run = λ k r h. absurd (ground arith);
  owned = λ k r h. absurd (ground arith);
  whole = λ k r h. absurd (ground arith);
  apart = λ k j r h g. absurd (ground arith);
}

step-IsWorld : (w : World) (e : Event) → IsWorld w → IsWorld (step w e)
step-IsWorld w (Event.reserves key hash) is = reserve-IsWorld w key hash is
step-IsWorld w (Event.returns ref outcome) is = return-IsWorld w ref outcome is

steps-IsWorld : (w : World) (es : List Event) → IsWorld w → IsWorld (steps w es)
unfolding steps
steps-IsWorld w [] is = is
steps-IsWorld w (e ∷ es) is = steps-IsWorld (step w e) es (step-IsWorld w e is)

-- However calls overlap, two executors that run at one time have two keys.
pub steps-one_owner :
    (es : List Event) (key : IdempotencyRecordKey) (ref other : ℕ)
    → lookup ref (steps new_world es).running ≡ some key
    → lookup other (steps new_world es).running ≡ some key
    → ref ≡ other
steps-one_owner es key ref other h k =
    let is = steps-IsWorld new_world es new_world-IsWorld in
    ground (arith, is.owned key ref h, is.owned key other k)

-- A key whose record has its response.
record Settled (w : World) (key : IdempotencyRecordKey) (ref : ℕ) (r : IdempotencyRecord)
    : Type 0 where
  current : lookup key w.store.records ≡ some ref
  idle : lookup ref w.running ≡ none
  stored : lookup ref w.store.heap ≡ some r

reserve-Settled :
    (w : World) (key taken : IdempotencyRecordKey) (hash : String) (ref : ℕ) (r : IdempotencyRecord)
    → IsWorld w
    → Settled w key ref r
    → Settled (step w (reserves taken hash)) key ref r
unfolding step started reserve reserve_found
reserve-Settled w key taken hash ref r is s =
    let current = s.current in
    let idle = s.idle in
    let stored = s.stored in
    elim (Option-cases (lookup taken w.store.records)) [
      | inl free ↦
          let n = w.store.next_ref in
          let recent = is.recent key ref current in
          record {
            current = ground (arith, lookup-insert taken key n w.store.records);
            idle = ground (arith, lookup-insert n ref taken w.running);
            stored = ground (arith, lookup-insert n ref (open_record hash) w.store.heap);
          }
      | inr (at, held) ↦
          let still : w ≡ step w (reserves taken hash) =
            elim (Bool-cases (same_payload (lookup at w.store.heap) hash)) [
              | inl same ↦ ground arith
              | inr differs ↦ ground arith
            ] in
          subst (λ x. Settled x key ref r) still s
    ]

return-Settled :
    (w : World) (key : IdempotencyRecordKey) (at : ℕ) (outcome : Result IdempotencyResponse)
    (ref : ℕ) (r : IdempotencyRecord)
    → IsWorld w
    → Settled w key ref r
    → Settled (step w (returns at outcome)) key ref r
unfolding step ended settle commit release_failed
return-Settled w key at outcome ref r is s =
    let current = s.current in
    let idle = s.idle in
    let stored = s.stored in
    elim (Option-cases (lookup at w.running)) [
      | inl unknown ↦
          let still : w ≡ step w (returns at outcome) = ground arith in
          subst (λ x. Settled x key ref r) still s
      | inr (owner, runs) ↦
          let mine = is.owned owner at runs in
          let (it, found, fine, finished) = is.whole owner at mine in
          let apart : at ≢ ref = λ e. ground arith in
          let run = lookup-delete at ref w.running in
          elim (Result-cases outcome) [
            | inl (e, failed) ↦ record {
              current = ground (arith, lookup-delete owner key w.store.records);
              idle = ground arith;
              stored = ground (
                arith,
                lookup-insert at ref (record it { failure = some e; done = true }) w.store.heap,
              );
            }
            | inr (response, good) ↦ record {
              current = ground arith;
              idle = ground arith;
              stored = ground (
                arith,
                lookup-insert at ref (record it { response = response; done = true }) w.store.heap,
              );
            }
          ]
    ]

steps-Settled :
    (w : World) (es : List Event) (key : IdempotencyRecordKey) (ref : ℕ) (r : IdempotencyRecord)
    → IsWorld w
    → Settled w key ref r
    → Settled (steps w es) key ref r
unfolding steps
steps-Settled w [] key ref r is s = s
steps-Settled w (Event.reserves taken hash ∷ es) key ref r is s =
    steps-Settled (step w (reserves taken hash)) es key ref r (reserve-IsWorld w taken hash is)
      (reserve-Settled w key taken hash ref r is s)
steps-Settled w (Event.returns at outcome ∷ es) key ref r is s =
    steps-Settled (step w (returns at outcome)) es key ref r (return-IsWorld w at outcome is)
      (return-Settled w key at outcome ref r is s)

-- What a later call gets of the key: the response where its payload has the hash of the first, and a
-- conflict where it has another; no executor runs for it.
pub record Replays (w : World) (key : IdempotencyRecordKey) (ref : ℕ) (r : IdempotencyRecord)
    : Type 0 where
  pub same_payload_waits : reserve w.store key r.payload_hash ≡ ok (w.store, ref, false)
  pub answered : await (lookup ref w.store.heap) ≡ some (ok r.response)
  pub other_payload :
      (hash : String)
      → hash ≢ r.payload_hash
      → reserve w.store key hash ≡ err idempotency_conflict_error

-- Once a key has a record that no executor owns any more, no later call of the key, whatever calls come
-- between, runs an executor: a call whose payload has the record's hash is answered with the response
-- that the record has now, and one with another hash with an idempotency conflict.
pub steps-Replays :
    (es later : List Event) (key : IdempotencyRecordKey) (ref : ℕ)
    → lookup key (steps new_world es).store.records ≡ some ref
    → lookup ref (steps new_world es).running ≡ none
    → (r : IdempotencyRecord) × (lookup ref (steps new_world es).store.heap ≡ some r)
      × Replays (steps (steps new_world es) later) key ref r
unfolding reserve reserve_found await
steps-Replays es later key ref current idle =
    let is = steps-IsWorld new_world es new_world-IsWorld in
    let (r, stored, fine, finished) = is.whole key ref current in
    let s =
      steps-Settled (steps new_world es) later key ref r is
        (record { current = current; idle = idle; stored = stored }) in
    let current' = s.current in
    let stored' = s.stored in
    let closed : r.done ≡ true = ground arith in
    (
      r,
      stored,
      record {
        same_payload_waits = ground arith;
        answered = ground arith;
        other_payload = λ hash differs. ground arith;
      },
    )
