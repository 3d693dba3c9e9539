-- ===== src/Kernel/Idempotency.antt =====
-- MemoryIdempotencyStore of internal/kernel/idempotency.go. A record is a shared object that callers
-- wait on, so the store has a heap of records and maps a key to the reference of one. The hash of a
-- payload is a parameter.
use threadmill_agent_teams.Base.{
  ℕ, ◌+◌, Bool, true, false, ◌&&◌, ◌||◌, not, Option, none, some, List, [], ◌∷◌, String, Eq,
  String-discrete, string_eq, nat_eq, ◌==◌, ◌!=◌, if◌then◌else◌, lookup, insert, delete, any_char,
  ℤ,
}
use threadmill_agent_teams.Kernel.Errors.{
  Error, Result, ok, err, ◌>>=◌, ◌>>◌, reject_if, is_zero_id, invalid_argument,
  idempotency_conflict_error,
}
pub mod Invariant
pub mod Replay
mod Tests

pub record IdempotencyResponse : Type 0 where
  pub status_code : ℤ
  pub body : List ℕ

pub record IdempotencyRecordKey : Type 0 where
  pub scope : String
  pub key : String

unfoldable pub IdempotencyRecordKey-discrete : Discrete IdempotencyRecordKey
unfolding String-discrete
IdempotencyRecordKey-discrete = hlevel String-discrete

instance abbrev pub idempotency_record_key_eq : Eq IdempotencyRecordKey
idempotency_record_key_eq = record { dec = IdempotencyRecordKey-discrete }

-- `done` says whether the channel is closed.
pub record IdempotencyRecord : Type 0 where
  pub payload_hash : String
  pub done : Bool
  pub response : IdempotencyResponse
  pub failure : Option Error

pub record MemoryIdempotencyStore : Type 0 where
  pub records : List (IdempotencyRecordKey × ℕ)
  pub heap : List (ℕ × IdempotencyRecord)
  pub next_ref : ℕ

abbrev pub no_response : IdempotencyResponse
no_response = record { status_code = ℤ.pos 0; body = [] }

unfoldable pub new_memory_idempotency_store : MemoryIdempotencyStore
new_memory_idempotency_store = record { records = []; heap = []; next_ref = 0 }

unfoldable pub strings_blank : String → Bool
unfolding any_char
strings_blank value =
    not (any_char (λ (c : ℕ). not (c == 0x20 || c == 9 || c == 10 || c == 13)) value)

unfoldable pub open_record : String → IdempotencyRecord
open_record hash = record {
  payload_hash = hash;
  done = false;
  response = no_response;
  failure = none;
}

-- The store after the call, the record's reference, and whether the caller owns it.
abbrev pub Reservation : Type 0
Reservation = MemoryIdempotencyStore × ℕ × Bool

abbrev pub same_payload : Option IdempotencyRecord → String → Bool
same_payload none hash = false
same_payload (some r) hash = r.payload_hash == hash

unfoldable pub reserve_found :
    MemoryIdempotencyStore → IdempotencyRecordKey → String → Option ℕ → Result Reservation
unfolding open_record
reserve_found s key hash none = ok (
  record {
    records = insert key s.next_ref s.records;
    heap = insert s.next_ref (open_record hash) s.heap;
    next_ref = s.next_ref + 1;
  },
  s.next_ref,
  true,
)
reserve_found s key hash (some ref) = do
  reject_if (not (same_payload (lookup ref s.heap) hash)) idempotency_conflict_error
  ok (s, ref, false)

unfoldable pub reserve : MemoryIdempotencyStore → IdempotencyRecordKey → String → Result Reservation
unfolding reserve_found
reserve s key hash = reserve_found s key hash (lookup key s.records)

abbrev pub update :
    MemoryIdempotencyStore
    → ℕ
    → (IdempotencyRecord → IdempotencyRecord)
    → Option IdempotencyRecord
    → MemoryIdempotencyStore
update s ref f none = s
update s ref f (some r) = record s { heap = insert ref (f r) s.heap }

abbrev pub is_current : MemoryIdempotencyStore → IdempotencyRecordKey → ℕ → Bool
is_current s key ref = elim (lookup key s.records) [ none ↦ false | some r ↦ r == ref ]

unfoldable pub commit :
    MemoryIdempotencyStore → IdempotencyRecordKey → ℕ → IdempotencyResponse → MemoryIdempotencyStore
commit s key ref response =
    update s ref
      (λ (r : IdempotencyRecord). record r {
        response = if is_current s key ref then response else r.response;
        done = true;
      })
      (lookup ref s.heap)

unfoldable pub release_failed :
    MemoryIdempotencyStore → IdempotencyRecordKey → ℕ → Error → MemoryIdempotencyStore
release_failed s key ref failure =
    let released =
      if is_current s key ref then record s { records = delete key s.records } else s in
    update released ref
      (λ (r : IdempotencyRecord). record r { failure = some failure; done = true })
      (lookup ref s.heap)

abbrev pub answer : IdempotencyRecord → Option Error → Result IdempotencyResponse
answer r none = ok r.response
answer r (some failure) = err failure

-- What a caller that waits is given; it goes on waiting while the channel is open. That its context
-- ends first is left out.
unfoldable pub await : Option IdempotencyRecord → Option (Result IdempotencyResponse)
await none = none
await (some r) = if r.done then some (answer r r.failure) else none

unfoldable pub settle :
    MemoryIdempotencyStore
    → IdempotencyRecordKey
    → ℕ
    → Result IdempotencyResponse
    → MemoryIdempotencyStore
unfolding commit release_failed
settle s key ref (ok response) = commit s key ref response
settle s key ref (err failure) = release_failed s key ref failure

unfoldable pub check_call : String → String → Bool → Result (Unit {0})
unfolding strings_blank
check_call scope key has_executor = do
  reject_if (strings_blank scope) (invalid_argument "idempotency scope is required")
  reject_if (is_zero_id key) (invalid_argument "idempotency key is required")
  reject_if (not has_executor) (invalid_argument "idempotency executor is required")

abbrev pub reserved :
    IdempotencyRecordKey
    → Result IdempotencyResponse
    → MemoryIdempotencyStore
    → Result Reservation
    → MemoryIdempotencyStore × Option (Result IdempotencyResponse)
reserved key outcome s (err e) = (s, some (err e))
reserved key outcome s (ok (s', ref, true)) = (settle s' key ref outcome, some outcome)
reserved key outcome s (ok (s', ref, false)) = (s', await (lookup ref s'.heap))

-- A call of Execute that no other call overlaps, with what its executor returns. No answer means that
-- it waits.
unfoldable pub execute :
    (hash : List ℕ → String)
    → MemoryIdempotencyStore
    → String
    → String
    → List ℕ
    → Option (Result IdempotencyResponse)
    → MemoryIdempotencyStore × Option (Result IdempotencyResponse)
unfolding check_call reserve settle await
execute hash s scope key payload none = elim (check_call scope key false) [
  | err e ↦ (s, some (err e))
  | ok u ↦ (s, none)
]
execute hash s scope key payload (some outcome) = elim (check_call scope key true) [
  | err e ↦ (s, some (err e))
  | ok u ↦
      let record_key : IdempotencyRecordKey = record { scope = scope; key = key } in
      reserved record_key outcome s (reserve s record_key (hash payload))
]
