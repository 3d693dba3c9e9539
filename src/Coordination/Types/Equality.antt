-- ===== src/Coordination/Types/Equality.antt =====
-- Go's `==` on the comparable types of internal/coordination.
use threadmill_agent_teams.Base.{Eq, String-discrete, Number-discrete}
use threadmill_agent_teams.Coordination.Types.Enums.{
  EndpointId, TaskOutcome, EndpointState, RunPolicy, EdgeSignal, RequiredBy, OnFalse, BlockerState,
  Verdict, CommandAction, TransitionTarget, Action, LeaseState, ObservationKind,
}
use threadmill_agent_teams.Coordination.Types.Records.{
  PhaseEndpointRef, Task, PhaseResult, PhaseCommand,
}

unfoldable pub EndpointId-discrete : Discrete EndpointId
unfolding String-discrete
EndpointId-discrete = hlevel String-discrete

unfoldable pub TaskOutcome-discrete : Discrete TaskOutcome
unfolding String-discrete
TaskOutcome-discrete = hlevel String-discrete

unfoldable pub EndpointState-discrete : Discrete EndpointState
unfolding String-discrete
EndpointState-discrete = hlevel String-discrete

unfoldable pub RunPolicy-discrete : Discrete RunPolicy
unfolding String-discrete
RunPolicy-discrete = hlevel String-discrete

unfoldable pub EdgeSignal-discrete : Discrete EdgeSignal
unfolding String-discrete
EdgeSignal-discrete = hlevel String-discrete

unfoldable pub RequiredBy-discrete : Discrete RequiredBy
unfolding String-discrete
RequiredBy-discrete = hlevel String-discrete

unfoldable pub OnFalse-discrete : Discrete OnFalse
unfolding String-discrete
OnFalse-discrete = hlevel String-discrete

unfoldable pub BlockerState-discrete : Discrete BlockerState
unfolding String-discrete
BlockerState-discrete = hlevel String-discrete

unfoldable pub Verdict-discrete : Discrete Verdict
unfolding String-discrete
Verdict-discrete = hlevel String-discrete

unfoldable pub CommandAction-discrete : Discrete CommandAction
unfolding String-discrete
CommandAction-discrete = hlevel String-discrete

unfoldable pub TransitionTarget-discrete : Discrete TransitionTarget
unfolding String-discrete
TransitionTarget-discrete = hlevel String-discrete

unfoldable pub Action-discrete : Discrete Action
unfolding String-discrete
Action-discrete = hlevel String-discrete

unfoldable pub LeaseState-discrete : Discrete LeaseState
unfolding String-discrete
LeaseState-discrete = hlevel String-discrete

unfoldable pub ObservationKind-discrete : Discrete ObservationKind
unfolding String-discrete
ObservationKind-discrete = hlevel String-discrete

unfoldable pub PhaseEndpointRef-discrete : Discrete PhaseEndpointRef
unfolding String-discrete EndpointId-discrete
PhaseEndpointRef-discrete = hlevel (String-discrete, EndpointId-discrete)

unfoldable pub Task-discrete : Discrete Task
unfolding String-discrete TaskOutcome-discrete
Task-discrete = hlevel (String-discrete, TaskOutcome-discrete)

unfoldable pub PhaseResult-discrete : Discrete PhaseResult
unfolding String-discrete PhaseEndpointRef-discrete Verdict-discrete
PhaseResult-discrete = hlevel (String-discrete, PhaseEndpointRef-discrete, Verdict-discrete)

unfoldable pub PhaseCommand-discrete : Discrete PhaseCommand
unfolding String-discrete PhaseEndpointRef-discrete CommandAction-discrete Number-discrete
PhaseCommand-discrete =
    hlevel (String-discrete, PhaseEndpointRef-discrete, CommandAction-discrete, Number-discrete)

instance abbrev pub endpoint_id_eq : Eq EndpointId
endpoint_id_eq = record { dec = EndpointId-discrete }

instance abbrev pub task_outcome_eq : Eq TaskOutcome
task_outcome_eq = record { dec = TaskOutcome-discrete }

instance abbrev pub endpoint_state_eq : Eq EndpointState
endpoint_state_eq = record { dec = EndpointState-discrete }

instance abbrev pub run_policy_eq : Eq RunPolicy
run_policy_eq = record { dec = RunPolicy-discrete }

instance abbrev pub edge_signal_eq : Eq EdgeSignal
edge_signal_eq = record { dec = EdgeSignal-discrete }

instance abbrev pub required_by_eq : Eq RequiredBy
required_by_eq = record { dec = RequiredBy-discrete }

instance abbrev pub on_false_eq : Eq OnFalse
on_false_eq = record { dec = OnFalse-discrete }

instance abbrev pub blocker_state_eq : Eq BlockerState
blocker_state_eq = record { dec = BlockerState-discrete }

instance abbrev pub verdict_eq : Eq Verdict
verdict_eq = record { dec = Verdict-discrete }

instance abbrev pub command_action_eq : Eq CommandAction
command_action_eq = record { dec = CommandAction-discrete }

instance abbrev pub transition_target_eq : Eq TransitionTarget
transition_target_eq = record { dec = TransitionTarget-discrete }

instance abbrev pub action_eq : Eq Action
action_eq = record { dec = Action-discrete }

instance abbrev pub lease_state_eq : Eq LeaseState
lease_state_eq = record { dec = LeaseState-discrete }

instance abbrev pub observation_kind_eq : Eq ObservationKind
observation_kind_eq = record { dec = ObservationKind-discrete }

instance abbrev pub phase_endpoint_ref_eq : Eq PhaseEndpointRef
phase_endpoint_ref_eq = record { dec = PhaseEndpointRef-discrete }

instance abbrev pub task_eq : Eq Task
task_eq = record { dec = Task-discrete }

instance abbrev pub phase_result_eq : Eq PhaseResult
phase_result_eq = record { dec = PhaseResult-discrete }

instance abbrev pub phase_command_eq : Eq PhaseCommand
phase_command_eq = record { dec = PhaseCommand-discrete }
