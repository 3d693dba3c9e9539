-- ===== src/Kernel/Idempotency/Invariant.antt =====
-- Overlapping calls of Execute in internal/kernel/idempotency.go. Each call reserves its record in one
-- step under the mutex and settles it in another, after its executor; between the two, any number of
-- steps of other calls may come.
use threadmill_agent_teams.Base.{
  ℕ, ◌+◌, ◌<◌, ◌≡◌, ◌≢◌, inl, inr, refl, subst, Bool, true, false, not, Option, none, some, List,
  [], ◌∷◌, String, nat_eq, lookup, insert, delete, lookup-insert, lookup-delete, arith,
  Option-cases, Bool-cases,
}
use threadmill_agent_teams.Kernel.Errors.{Result, ok, err, Result-cases}
use threadmill_agent_teams.Kernel.Idempotency.{
  IdempotencyResponse, IdempotencyRecordKey, IdempotencyRecord, MemoryIdempotencyStore, Reservation,
  idempotency_record_key_eq, new_memory_idempotency_store, reserve, reserve_found, open_record,
  same_payload, commit, release_failed, settle,
}

-- The store, and the executors that run: the reference that each owns, with its key.
pub record World : Type 0 where
  pub store : MemoryIdempotencyStore
  pub running : List (ℕ × IdempotencyRecordKey)

-- A call reserves its key, or the executor that owns a reference returns.
pub data Event : Type 0 where
  reserves : IdempotencyRecordKey → String → Event
  returns : ℕ → Result IdempotencyResponse → Event

unfoldable pub started : World → IdempotencyRecordKey → Result Reservation → World
started w key (err e) = w
started w key (ok (s, ref, true)) = record { store = s; running = insert ref key w.running }
started w key (ok (s, ref, false)) = record w { store = s }

unfoldable pub ended : World → ℕ → Result IdempotencyResponse → Option IdempotencyRecordKey → World
ended w ref outcome none = w
ended w ref outcome (some key) = record {
  store = settle w.store key ref outcome;
  running = delete ref w.running;
}

unfoldable pub step : World → Event → World
unfolding started ended
step w (reserves key hash) = started w key (reserve w.store key hash)
step w (returns ref outcome) = ended w ref outcome (lookup ref w.running)

unfoldable pub steps : World → List Event → World
unfolding step
steps w [] = w
steps w (e ∷ es) = steps (step w e) es

abbrev pub new_world : World
new_world = record { store = new_memory_idempotency_store; running = [] }

-- Whether an executor that runs owns the reference.
abbrev pub owned_by : World → ℕ → Bool
owned_by w ref = elim (lookup ref w.running) [ none ↦ false | some key ↦ true ]

-- A record that an executor owns is open and is its key's; a record of a key that no executor owns has
-- its response.
pub record IsWorld (w : World) : Type 0 where
  pub recent :
      (key : IdempotencyRecordKey) (ref : ℕ)
      → lookup key w.store.records ≡ some ref
      → ref < w.store.next_ref
  pub recent_run :
      (key : IdempotencyRecordKey) (ref : ℕ)
      → lookup ref w.running ≡ some key
      → ref < w.store.next_ref
  pub owned :
      (key : IdempotencyRecordKey) (ref : ℕ)
      → lookup ref w.running ≡ some key
      → lookup key w.store.records ≡ some ref
  pub whole :
      (key : IdempotencyRecordKey) (ref : ℕ)
      → lookup key w.store.records ≡ some ref
      → (r : IdempotencyRecord) × (lookup ref w.store.heap ≡ some r)
        × (r.failure ≡ none)
        × (r.done ≡ not (owned_by w ref))
  pub apart :
      (key other : IdempotencyRecordKey) (ref : ℕ)
      → lookup key w.store.records ≡ some ref
      → lookup other w.store.records ≡ some ref
      → key ≡ other

reserve_new-IsWorld :
    (w w' : World) (key : IdempotencyRecordKey) (hash : String)
    → IsWorld w
    → lookup key w.store.records ≡ none
    → w'.store.records ≡ insert key w.store.next_ref w.store.records
    → w'.store.heap ≡ insert w.store.next_ref (open_record hash) w.store.heap
    → w'.store.next_ref ≡ w.store.next_ref + 1
    → w'.running ≡ insert w.store.next_ref key w.running
    → IsWorld w'
unfolding open_record
reserve_new-IsWorld w w' key hash is free records heap next running =
    let n = w.store.next_ref in
    let at = λ (k : IdempotencyRecordKey). lookup-insert key k n w.store.records in
    let run = λ (r : ℕ). lookup-insert n r key w.running in
    let held = λ (r : ℕ). lookup-insert n r (open_record hash) w.store.heap in
    record {
      recent = λ k r h. ground (arith, records, next, at k, is.recent k r);
      recent_run = λ k r h. ground (arith, running, next, run r, is.recent_run k r);
      owned = λ k r h. ground (arith, records, running, run r, at k, is.owned k r, is.recent k r);
      whole = λ k r h. elim (idempotency_record_key_eq.dec key k) [
        | yes same ↦
            let ref : n ≡ r = ground (arith, records, at k) in
            (open_record hash, ground (arith, heap, held r), refl, ground (arith, running, run r))
        | no other ↦
            let before : lookup k w.store.records ≡ some r = ground (arith, records, at k) in
            let old = is.recent k r before in
            let (it, found, fine, finished) = is.whole k r before in
            (it, ground (arith, heap, held r), fine, ground (arith, running, run r))
      ];
      apart = λ k j r h g.
          ground (arith, records, at k, at j, is.apart k j r, is.recent k r, is.recent j r);
    }

pub reserve-IsWorld :
    (w : World) (key : IdempotencyRecordKey) (hash : String)
    → IsWorld w
    → IsWorld (step w (reserves key hash))
unfolding step started reserve reserve_found
reserve-IsWorld w key hash is = elim (Option-cases (lookup key w.store.records)) [
  | inl free ↦
      reserve_new-IsWorld w (step w (reserves key hash)) key hash is free (ground arith)
        (ground arith) (ground arith) (ground arith)
  | inr (ref, held) ↦
      let still : w ≡ step w (reserves key hash) =
        elim (Bool-cases (same_payload (lookup ref w.store.heap) hash)) [
          | inl same ↦ ground arith
          | inr differs ↦ ground arith
        ] in
      subst IsWorld still is
]

committed-IsWorld :
    (w w' : World) (key : IdempotencyRecordKey) (ref : ℕ) (r' : IdempotencyRecord)
    → IsWorld w
    → lookup ref w.running ≡ some key
    → r'.failure ≡ none
    → r'.done ≡ true
    → w'.store.records ≡ w.store.records
    → w'.store.heap ≡ insert ref r' w.store.heap
    → w'.store.next_ref ≡ w.store.next_ref
    → w'.running ≡ delete ref w.running
    → IsWorld w'
committed-IsWorld w w' key ref r' is runs fine closed records heap next running =
    let run = λ (r : ℕ). lookup-delete ref r w.running in
    let held = λ (r : ℕ). lookup-insert ref r r' w.store.heap in
    record {
      recent = λ k r h. ground (arith, records, next, is.recent k r);
      recent_run = λ k r h. ground (arith, running, next, run r, is.recent_run k r);
      owned = λ k r h. ground (arith, records, running, run r, is.owned k r);
      whole = λ k r h. elim (nat_eq.dec ref r) [
        | yes same ↦ (r', ground (arith, heap, held r), fine, ground (arith, running, run r))
        | no other ↦
            let before : lookup k w.store.records ≡ some r = ground (arith, records) in
            let (it, found, good, finished) = is.whole k r before in
            (it, ground (arith, heap, held r), good, ground (arith, running, run r))
      ];
      apart = λ k j r h g. ground (arith, records, is.apart k j r);
    }

released-IsWorld :
    (w w' : World) (key : IdempotencyRecordKey) (ref : ℕ) (r' : IdempotencyRecord)
    → IsWorld w
    → lookup ref w.running ≡ some key
    → w'.store.records ≡ delete key w.store.records
    → w'.store.heap ≡ insert ref r' w.store.heap
    → w'.store.next_ref ≡ w.store.next_ref
    → w'.running ≡ delete ref w.running
    → IsWorld w'
released-IsWorld w w' key ref r' is runs records heap next running =
    let mine = is.owned key ref runs in
    let at = λ (k : IdempotencyRecordKey). lookup-delete key k w.store.records in
    let run = λ (r : ℕ). lookup-delete ref r w.running in
    let held = λ (r : ℕ). lookup-insert ref r r' w.store.heap in
    record {
      recent = λ k r h. ground (arith, records, next, at k, is.recent k r);
      recent_run = λ k r h. ground (arith, running, next, run r, is.recent_run k r);
      owned = λ k r h. ground (arith, records, running, at k, run r, is.owned k r, mine);
      whole = λ k r h.
          let before : lookup k w.store.records ≡ some r = ground (arith, records, at k) in
          let same_key = is.apart key k ref mine in
          let other : ref ≢ r = λ e. ground (arith, records, at k, same_key, e) in
          let (it, found, good, finished) = is.whole k r before in
          (it, ground (arith, heap, held r), good, ground (arith, running, run r));
      apart = λ k j r h g. ground (arith, records, at k, at j, is.apart k j r);
    }

pub return-IsWorld :
    (w : World) (ref : ℕ) (outcome : Result IdempotencyResponse)
    → IsWorld w
    → IsWorld (step w (returns ref outcome))
unfolding step ended settle commit release_failed
return-IsWorld w ref outcome is = elim (Option-cases (lookup ref w.running)) [
  | inl unknown ↦
      let still : w ≡ step w (returns ref outcome) = ground arith in subst IsWorld still is
  | inr (key, runs) ↦
      let mine = is.owned key ref runs in
      let (r, found, fine, finished) = is.whole key ref mine in
      elim (Result-cases outcome) [
        | inl (e, failed) ↦
            released-IsWorld w (step w (returns ref outcome)) key ref
              (record r { failure = some e; done = true }) is runs (ground arith) (ground arith)
              (ground arith) (ground arith)
        | inr (response, good) ↦
            committed-IsWorld w (step w (returns ref outcome)) key ref
              (record r { response = response; done = true }) is runs fine refl (ground arith)
              (ground arith) (ground arith) (ground arith)
      ]
]
