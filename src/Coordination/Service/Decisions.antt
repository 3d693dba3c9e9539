-- ===== src/Coordination/Service/Decisions.antt =====
-- MemoryDecisionLog of internal/coordination/decision.go. Each method runs under the log's mutex.
-- `same` is reflect.DeepEqual on transitions.
use threadmill_agent_teams.Base.{
  Bool, true, false, not, Option, none, some, List, String, Eq, String-discrete, string_eq, ◌==◌,
  lookup, insert,
}
use threadmill_agent_teams.Kernel.Errors.{
  Result, ok, err, ◌>>=◌, ◌>>◌, reject_if, or_fail, is_zero_id, invalid_argument, forbidden_error,
  idempotency_conflict_error,
}
use threadmill_agent_teams.Coordination.Types.{GraphTransition}
use threadmill_agent_teams.Coordination.Transition.Shape.{validate_transition_shape}

-- decisionKey
pub record DecisionKey : Type 0 where
  pub project_id : String
  pub ref : String

unfoldable pub DecisionKey-discrete : Discrete DecisionKey
unfolding String-discrete
DecisionKey-discrete = hlevel String-discrete

instance abbrev pub decision_key_eq : Eq DecisionKey
decision_key_eq = record { dec = DecisionKey-discrete }

-- A decision by its kind; only one of a transition has one.
pub data Decision : Type 0 where
  replace_pending : Decision
  transition : GraphTransition → Decision

abbrev pub Decisions : Type 0
Decisions = List (DecisionKey × Decision)

abbrev pub key_of : String → String → DecisionKey
key_of project_id ref = record { project_id = project_id; ref = ref }

unfoldable pub same_decision :
    (GraphTransition → GraphTransition → Bool) → Decision → Decision → Bool
same_decision same Decision.replace_pending Decision.replace_pending = true
same_decision same Decision.replace_pending (Decision.transition t) = false
same_decision same (Decision.transition t) Decision.replace_pending = false
same_decision same (Decision.transition t) (Decision.transition u) = same t u

abbrev put_found :
    (GraphTransition → GraphTransition → Bool)
    → Decisions
    → DecisionKey
    → Decision
    → Option Decision
    → Result Decisions
put_found same log key decision none = ok (insert key decision log)
put_found same log key decision (some existing) = do
  reject_if (not (same_decision same existing decision)) idempotency_conflict_error
  ok log

unfoldable pub put :
    (GraphTransition → GraphTransition → Bool)
    → Decisions
    → DecisionKey
    → Decision
    → Result Decisions
unfolding same_decision
put same log key decision = put_found same log key decision (lookup key log)

unfoldable pub register_replace_pending :
    (GraphTransition → GraphTransition → Bool) → Decisions → String → String → Result Decisions
unfolding put
register_replace_pending same log project_id decision_ref = do
  reject_if (is_zero_id project_id) (invalid_argument "project_id is required")
  reject_if (is_zero_id decision_ref) (invalid_argument "decision_ref is required")
  put same log (key_of project_id decision_ref) Decision.replace_pending

unfoldable pub register_transition :
    (GraphTransition → GraphTransition → Bool)
    → Decisions
    → String
    → String
    → GraphTransition
    → Result Decisions
unfolding put
register_transition same log project_id transition_ref t = do
  reject_if (is_zero_id project_id) (invalid_argument "project_id is required")
  reject_if (transition_ref == "") (invalid_argument "transition_ref is required")
  validate_transition_shape t
  put same log (key_of project_id transition_ref) (Decision.transition t)

abbrev authorized : Decision → Result (Unit {0})
authorized Decision.replace_pending = ok tt
authorized (Decision.transition t) =
    err (forbidden_error "decision_ref is not a replacePending decision")

unfoldable pub authorize_replace_pending : Decisions → String → String → Result (Unit {0})
authorize_replace_pending log project_id decision_ref = do
  decision ←
      or_fail (lookup (key_of project_id decision_ref) log)
        (forbidden_error "replacePending requires a persisted Task Manager decision")
  authorized decision

abbrev resolved : Decision → Result GraphTransition
resolved Decision.replace_pending =
    err (forbidden_error "transition_ref is not a transition decision")
resolved (Decision.transition t) = ok t

unfoldable pub resolve_transition : Decisions → String → String → Result GraphTransition
resolve_transition log project_id transition_ref = do
  decision ←
      or_fail (lookup (key_of project_id transition_ref) log)
        (forbidden_error "transition requires a persisted Task Manager decision")
  resolved decision
