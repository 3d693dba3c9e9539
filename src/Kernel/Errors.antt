-- ===== src/Kernel/Errors.antt =====
-- internal/kernel/errors.go and id.go. A Go `error` of this module is an `Error`; a nil error is
-- the result `ok`.
use threadmill_agent_teams.Base.{
  ◌⊎◌, inl, inr, ◌≡◌, refl, Bool, true, false, List, [], ◌∷◌, String, Eq, String-discrete, ◌==◌,
  ◌^^◌, is_blank, All, Option, none, some,
}

pub data ErrorCode : Type 0 where
  unauthorized forbidden invalid_request csrf_invalid origin_invalid not_found : ErrorCode
  revision_conflict idempotency_conflict command_conflict scope_not_pending : ErrorCode
  endpoint_in_flight invalid_graph stale_binding stale_command stale_checkpoint : ErrorCode
  lease_conflict executor_unavailable incomplete_stop_evidence transition_rejected : ErrorCode
  internal_error : ErrorCode
  other_code : String → ErrorCode

unfoldable pub ErrorCode-discrete : Discrete ErrorCode
unfolding String-discrete
ErrorCode-discrete = hlevel String-discrete

instance abbrev pub error_code_eq : Eq ErrorCode
error_code_eq = record { dec = ErrorCode-discrete }

-- The text of a code, as it stands in event identifiers.
unfoldable pub code_text : ErrorCode → String
code_text unauthorized = "unauthorized"
code_text forbidden = "forbidden"
code_text invalid_request = "invalid_request"
code_text csrf_invalid = "csrf_invalid"
code_text origin_invalid = "origin_invalid"
code_text not_found = "not_found"
code_text revision_conflict = "revision_conflict"
code_text idempotency_conflict = "idempotency_conflict"
code_text command_conflict = "command_conflict"
code_text scope_not_pending = "scope_not_pending"
code_text endpoint_in_flight = "endpoint_in_flight"
code_text invalid_graph = "invalid_graph"
code_text stale_binding = "stale_binding"
code_text stale_command = "stale_command"
code_text stale_checkpoint = "stale_checkpoint"
code_text lease_conflict = "lease_conflict"
code_text executor_unavailable = "executor_unavailable"
code_text incomplete_stop_evidence = "incomplete_stop_evidence"
code_text transition_rejected = "transition_rejected"
code_text internal_error = "internal_error"
code_text (other_code s) = s

pub record Error : Type 0 where
  pub code : ErrorCode
  pub message : String
  pub recoverable : Bool
  pub details : List (String × String)

-- What a Go function with an error returns.
pub data Result {ℓ} (A : Type ℓ) : Type ℓ where
  err : Error → Result A
  ok : A → Result A

-- The rest of a do block runs only where no error is returned before it.
infixl 5 ◌>>=◌
abbrev pub ◌>>=◌ {ℓ κ} :
    {Value : Type ℓ} {Next : Type κ} → Result Value → (Value → Result Next) → Result Next
err failure >>= rest = err failure
ok value >>= rest = rest value

infixl 5 ◌>>◌
abbrev pub ◌>>◌ {ℓ} : {Next : Type ℓ} → Result (Unit {0}) → Result Next → Result Next
check >> rest = check >>= λ _. rest

-- `if bad { return e }`
abbrev pub reject_if : Bool → Error → Result (Unit {0})
reject_if true e = err e
reject_if false e = ok tt

-- `v, ok := m[k]; if !ok { return e }`
abbrev pub or_fail {ℓ} : {A : Type ℓ} → Option A → Error → Result A
or_fail none e = err e
or_fail (some a) e = ok a

-- A loop whose body may return an error.
unfoldable pub each {ℓ} : {A : Type ℓ} → (A → Result (Unit {0})) → List A → Result (Unit {0})
each f [] = ok tt
each f (x ∷ xs) = do f x; each f xs

abbrev coded : ErrorCode → String → Bool → Error
coded c m r = record { code = c; message = m; recoverable = r; details = [] }

unfoldable pub forbidden_error : String → Error
forbidden_error m = coded forbidden m false

unfoldable pub invalid_argument : String → Error
invalid_argument m = coded invalid_request m false

unfoldable pub idempotency_conflict_error : Error
idempotency_conflict_error =
    coded idempotency_conflict "idempotency key was already used with a different payload" false

unfoldable pub stale_binding_error : String → Error
stale_binding_error m = coded stale_binding m true

unfoldable pub lease_conflict_error : String → Error
lease_conflict_error m = coded lease_conflict m true

unfoldable pub scope_not_pending_error : String → Error
scope_not_pending_error m = coded scope_not_pending m true

unfoldable pub endpoint_in_flight_error : String → Error
endpoint_in_flight_error m = coded endpoint_in_flight m true

unfoldable pub invalid_graph_error : String → Error
invalid_graph_error m = coded invalid_graph m false

unfoldable pub incomplete_stop_evidence_error : String → Error
incomplete_stop_evidence_error m = coded incomplete_stop_evidence m true

unfoldable pub transition_rejected_error : String → Error
transition_rejected_error m = coded transition_rejected m true

-- commandError of internal/coordination/runtime.go
unfoldable pub command_error : ErrorCode → String → Error
command_error c m = coded c m true

unfoldable pub is_code : Error → ErrorCode → Bool
is_code e c = e.code == c

unfoldable pub is_zero_id : String → Bool
is_zero_id id = is_blank id

unfoldable pub require_id : String → String → Result (Unit {0})
unfolding invalid_argument
require_id name id = reject_if (is_zero_id id) (invalid_argument (name ^^ " is required"))

pub ok-injective {ℓ} : {A : Type ℓ} {a b : A} → ok a ≡ ok b → a ≡ b
ok-injective h = cc

pub Result-cases {ℓ} :
    {A : Type ℓ} (r : Result A) → ((e : Error) × (r ≡ err e)) ⊎ ((a : A) × (r ≡ ok a))
Result-cases (ok a) = inr (a, refl)
Result-cases (err e) = inl (e, refl)

-- Inversion of a successful step.
pub >>=-eq-ok {ℓ κ} :
    {Value : Type ℓ} {Next : Type κ} (first : Result Value) (rest : Value → Result Next)
    {answer : Next}
    → first >>= rest ≡ ok answer
    → (value : Value) × (first ≡ ok value) × (rest value ≡ ok answer)
>>=-eq-ok (err failure) rest h = cc
>>=-eq-ok (ok value) rest h = (value, refl, h)

-- A loop ends without an error only if no round has one.
pub each-eq-ok {ℓ} :
    {A : Type ℓ} (f : A → Result (Unit {0})) (xs : List A)
    → each f xs ≡ ok tt
    → All (λ x. f x ≡ ok tt) xs
unfolding each
each-eq-ok f [] h = tt
each-eq-ok f (x ∷ xs) h =
    let (_, first, rest) = >>=-eq-ok (f x) (λ _. each f xs) h in (first, each-eq-ok f xs rest)
