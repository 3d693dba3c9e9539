-- ===== src/Coordination/Types/Records.antt =====
-- The structs of internal/coordination/types.go, command_store.go and memory_store.go.
use threadmill_agent_teams.Base.{ℕ, Bool, List, String}
use threadmill_agent_teams.Kernel.Revision.{Revision}
use threadmill_agent_teams.Coordination.Types.Enums.{
  EndpointId, TaskOutcome, EndpointState, RunPolicy, EdgeSignal, RequiredBy, OnFalse, BlockerState,
  Verdict, CommandAction, TransitionTarget, Action, LeaseState, ObservationKind,
}

pub record PhaseEndpointRef : Type 0 where
  pub task_id : String
  pub endpoint_id : EndpointId

pub record Task : Type 0 where
  pub id : String
  pub contract_ref : String
  pub outcome : TaskOutcome

pub record PhaseEndpoint : Type 0 where
  pub ref : PhaseEndpointRef
  pub spec_ref : String
  pub binding_ref : String
  pub generation : ℕ
  pub state : EndpointState
  pub run_policy : RunPolicy

pub record Edge : Type 0 where
  pub from : PhaseEndpointRef
  pub to : PhaseEndpointRef
  pub signal : EdgeSignal
  pub required_by : RequiredBy
  pub artifact_kinds : List String
  pub on_false : OnFalse

pub record Blocker : Type 0 where
  pub id : String
  pub target : PhaseEndpointRef
  pub required_by : RequiredBy
  pub on_false : OnFalse
  pub state : BlockerState

pub record PhaseResult : Type 0 where
  pub id : String
  pub endpoint : PhaseEndpointRef
  pub binding_ref : String
  pub output_ref : String
  pub verdict : Verdict

pub record PhaseCommand : Type 0 where
  pub id : String
  pub endpoint : PhaseEndpointRef
  pub generation : ℕ
  pub binding_ref : String
  pub lease_ref : String
  pub action : CommandAction
  pub cause_ref : String

pub record GraphSnapshot : Type 0 where
  pub revision : Revision
  pub tasks : List Task
  pub endpoints : List PhaseEndpoint
  pub edges : List Edge
  pub blockers : List Blocker
  pub results : List PhaseResult

pub record PendingSubgraph : Type 0 where
  pub request_id : String
  pub base_revision : Revision
  pub tasks : List Task
  pub endpoints : List PhaseEndpoint
  pub edges : List Edge
  pub blockers : List Blocker

pub record GraphTransition : Type 0 where
  pub target_kind : TransitionTarget
  pub endpoint : PhaseEndpointRef
  pub blocker_id : String
  pub task_id : String
  pub action : Action
  pub generation : ℕ
  pub result : PhaseResult
  pub new_binding_ref : String
  pub execute_binding_ref : String
  pub verify_binding_ref : String
  pub new_spec_ref : String
  pub checkpoint_ref : String
  pub non_resumable : Bool
  pub evidence_refs : List String

-- `graphState`; its maps are association lists.
pub record GraphState : Type 0 where
  pub tasks : List (String × Task)
  pub endpoints : List (PhaseEndpointRef × PhaseEndpoint)
  pub edges : List Edge
  pub blockers : List (String × Blocker)
  pub results : List (String × PhaseResult)

pub record CommandRecord : Type 0 where
  pub command : PhaseCommand
  pub accepted : Bool
  pub observed_event_ref : String
  pub completed_event_ref : String
  pub retry_scheduled : Bool
  pub quarantined : Bool
  pub not_executable : Bool

-- A time is a number of nanoseconds, and 0 is Go's zero time.
pub record PhaseLease : Type 0 where
  pub lease_ref : String
  pub endpoint : PhaseEndpointRef
  pub generation : ℕ
  pub binding_ref : String
  pub state : LeaseState
  pub expires_at : ℕ
  pub expired : Bool

pub record PhaseObservation : Type 0 where
  pub id : String
  pub kind : ObservationKind
  pub command_id : String
  pub endpoint : PhaseEndpointRef
  pub generation : ℕ
  pub binding_ref : String
  pub lease_ref : String
  pub checkpoint_ref : String
  pub non_resumable : Bool
  pub dispatch_error : String
  pub dispatch_target : PhaseEndpointRef
  pub folded : Bool

pub record BindingRuntimeInfo : Type 0 where
  pub checkpoint_ref : String
  pub non_resumable : Bool

pub record RuntimeState : Type 0 where
  pub commands : List (String × CommandRecord)
  pub leases : List (String × PhaseLease)
  pub observations : List PhaseObservation
  pub bindings : List (String × BindingRuntimeInfo)
