-- ===== src/Coordination/Types/Enums.antt =====
-- The string enumerations of internal/coordination/types.go, phase_observation.go and
-- command_store.go.
use threadmill_agent_teams.Base.{String}

pub data EndpointId : Type 0 where
  plan execute verify : EndpointId
  other : String → EndpointId

pub data TaskOutcome : Type 0 where
  active done canceled failed : TaskOutcome
  other : String → TaskOutcome

pub data EndpointState : Type 0 where
  pending submitted satisfied rejected : EndpointState
  other : String → EndpointState

pub data RunPolicy : Type 0 where
  enabled held : RunPolicy
  other : String → RunPolicy

pub data EdgeSignal : Type 0 where
  phase_satisfied task_done : EdgeSignal
  other : String → EdgeSignal

pub data RequiredBy : Type 0 where
  start completion : RequiredBy
  other : String → RequiredBy

pub data OnFalse : Type 0 where
  block replan cancel : OnFalse
  other : String → OnFalse

pub data BlockerState : Type 0 where
  active resolved denied obsolete : BlockerState
  other : String → BlockerState

pub data Verdict : Type 0 where
  submitted satisfied rejected invalidated : Verdict
  other : String → Verdict

pub data CommandAction : Type 0 where
  start stop resume : CommandAction
  other : String → CommandAction

pub data TransitionTarget : Type 0 where
  phase_endpoint blocker task : TransitionTarget
  other : String → TransitionTarget

-- The strings that a transition's `Action` is compared with.
pub data Action : Type 0 where
  submitted satisfied rejected reopened held released stopped : Action
  resolved denied obsolete : Action
  done canceled failed reopen_round : Action
  other : String → Action

pub data LeaseState : Type 0 where
  active released : LeaseState
  other : String → LeaseState

pub data ObservationKind : Type 0 where
  started output failed stopped dispatch_rejected : ObservationKind
  other : String → ObservationKind
