-- ===== src/Kernel/Idempotency/Tests.antt =====
-- Two calls of one key, of which the first runs its executor.
use threadmill_agent_teams.Base.{
  ℕ, ◌≡◌, refl, none, some, List, [], ◌∷◌, pos, lookup, insert, delete, String-discrete,
  Number-discrete, nat_eq,
}
use threadmill_agent_teams.Kernel.Errors.{ok}
use threadmill_agent_teams.Kernel.Idempotency.{
  IdempotencyResponse, IdempotencyRecordKey, IdempotencyRecord, idempotency_record_key_eq,
  IdempotencyRecordKey-discrete, new_memory_idempotency_store, reserve, reserve_found, open_record,
  commit, release_failed, settle,
}
use threadmill_agent_teams.Kernel.Idempotency.Invariant.{
  Event, started, ended, step, steps, new_world,
}
use threadmill_agent_teams.Kernel.Idempotency.Replay.{steps-one_owner, Replays, steps-Replays}

unfoldable idempotency_code : Unit {0}
unfolding String-discrete Number-discrete lookup insert delete IdempotencyRecordKey-discrete
    new_memory_idempotency_store reserve reserve_found open_record commit release_failed settle
    started ended step steps
idempotency_code = tt

abbrev key : IdempotencyRecordKey
key = record { scope = "scope"; key = "key" }

abbrev response : IdempotencyResponse
response = record { status_code = pos 200; body = 7 ∷ [] }

abbrev overlapping : List Event
overlapping = Event.reserves key "hash" ∷ Event.reserves key "hash" ∷ []

abbrev answered : List Event
answered =
    Event.reserves key "hash" ∷ Event.reserves key "hash" ∷ Event.returns 0 (ok response) ∷ []

first_runs : lookup 0 (steps new_world overlapping).running ≡ some key
unfolding idempotency_code
first_runs = refl

steps-one_owner_example : ◌≡◌ {A = ℕ} 0 0
steps-one_owner_example = steps-one_owner overlapping key 0 0 first_runs first_runs

key_held : lookup key (steps new_world answered).store.records ≡ some 0
unfolding idempotency_code
key_held = refl

key_idle : lookup 0 (steps new_world answered).running ≡ none
unfolding idempotency_code
key_idle = refl

steps-Replays_example :
    (r : IdempotencyRecord) × (lookup 0 (steps new_world answered).store.heap ≡ some r)
    × Replays (steps (steps new_world answered) overlapping) key 0 r
steps-Replays_example = steps-Replays answered overlapping key 0 key_held key_idle
