-- ===== src/Model.antt =====
-- models.go: the statuses, the definition of a workflow and the rows that a store keeps.
-- An `int64`, an `int` and a `time.Duration` are native numbers (identifiers, counters, nanoseconds),
-- a `time.Time` is the number of nanoseconds since a fixed instant, and a `json.RawMessage` is its
-- text, empty for nil. A pointer to a value that may be nil is an `Option`.
use floxy_pro.Prelude.{ℕ, String, Bool, Option, List}
use floxy_pro.Prelude.Maps.{Map}

pub data WorkflowStatus : Type 0 where
  pending running completed failed rolling_back cancelling cancelled aborted dlq : WorkflowStatus

pub data StepStatus : Type 0 where
  pending running completed failed skipped compensation rolled_back : StepStatus
  waiting_decision confirmed rejected paused : StepStatus

-- `other` is any text that is none of the constants, as a decoded definition may hold.
pub data StepType : Type 0 where
  task parallel condition fork join save_point human : StepType
  other : String → StepType

-- `unset` is the empty text, and `other` any text that is none of the constants.
pub data JoinStrategy : Type 0 where
  unset all any : JoinStrategy
  other : String → JoinStrategy

pub data HumanDecision : Type 0 where
  confirmed rejected : HumanDecision

pub data CancelType : Type 0 where
  cancel abort : CancelType

pub data RetryStrategy : Type 0 where
  fixed exponential linear : RetryStrategy

abbrev pub Time : Type 0
Time = ℕ

abbrev pub Duration : Type 0
Duration = ℕ

abbrev pub RawMessage : Type 0
RawMessage = String

-- The constants of `Priority`: 0, 25, 50, 75 and 100.
abbrev pub Priority : Type 0
Priority = ℕ

abbrev pub priority_normal : Priority
priority_normal = 50

abbrev pub priority_higher : Priority
priority_higher = 75

abbrev pub priority_high : Priority
priority_high = 100

pub record StepDefinition : Type 0 where
  pub name : String
  pub type : StepType
  pub handler : String
  pub max_retries : ℕ
  pub next : List String
  pub prev : String
  pub else_branch : String
  pub on_failure : String
  pub condition : String
  pub parallel : List String
  pub wait_for : List String
  pub join_strategy : JoinStrategy
  pub metadata : Map String String
  pub no_idempotent : Bool
  pub delay : Duration
  pub retry_delay : Duration
  pub retry_strategy : RetryStrategy
  pub timeout : Duration

pub record GraphDefinition : Type 0 where
  pub steps : Map String StepDefinition
  pub start : String
  pub dlq_enabled : Bool

pub record WorkflowDefinition : Type 0 where
  pub id : String
  pub name : String
  pub version : ℕ
  pub definition : GraphDefinition
  pub created_at : Time

pub record WorkflowInstance : Type 0 where
  pub id : ℕ
  pub workflow_id : String
  pub status : WorkflowStatus
  pub input : RawMessage
  pub output : RawMessage
  pub error : Option String
  pub started_at : Option Time
  pub completed_at : Option Time
  pub created_at : Time
  pub updated_at : Time

pub record WorkflowStep : Type 0 where
  pub id : ℕ
  pub instance_id : ℕ
  pub step_name : String
  pub step_type : StepType
  pub status : StepStatus
  pub input : RawMessage
  pub output : RawMessage
  pub error : Option String
  pub retry_count : ℕ
  pub max_retries : ℕ
  pub compensation_retry_count : ℕ
  pub idempotency_key : String
  pub started_at : Option Time
  pub completed_at : Option Time
  pub created_at : Time

pub record QueueItem : Type 0 where
  pub id : ℕ
  pub instance_id : ℕ
  pub step_id : Option ℕ
  pub scheduled_at : Time
  pub attempted_at : Option Time
  pub attempted_by : Option String
  pub priority : Priority

pub record WorkflowEvent : Type 0 where
  pub id : ℕ
  pub instance_id : ℕ
  pub step_id : Option ℕ
  pub event_type : String
  pub payload : RawMessage
  pub created_at : Time

pub record WorkflowCancelRequest : Type 0 where
  pub id : ℕ
  pub instance_id : ℕ
  pub requested_by : String
  pub cancel_type : CancelType
  pub reason : Option String
  pub created_at : Time

pub record JoinState : Type 0 where
  pub instance_id : ℕ
  pub join_step_name : String
  pub waiting_for : List String
  pub completed : List String
  pub failed : List String
  pub join_strategy : JoinStrategy
  pub is_ready : Bool
  pub created_at : Time
  pub updated_at : Time

pub record SummaryStats : Type 0 where
  pub total_workflows : ℕ
  pub completed_workflows : ℕ
  pub failed_workflows : ℕ
  pub running_workflows : ℕ
  pub pending_workflows : ℕ
  pub active_workflows : ℕ

pub record HumanDecisionRecord : Type 0 where
  pub id : ℕ
  pub instance_id : ℕ
  pub step_id : ℕ
  pub decided_by : String
  pub decision : HumanDecision
  pub comment : Option String
  pub decided_at : Time
  pub created_at : Time

pub record DeadLetterRecord : Type 0 where
  pub id : ℕ
  pub instance_id : ℕ
  pub workflow_id : String
  pub step_id : ℕ
  pub step_name : String
  pub step_type : String
  pub input : RawMessage
  pub error : Option String
  pub reason : String
  pub created_at : Time

pub record ActiveWorkflowInstance : Type 0 where
  pub id : ℕ
  pub workflow_id : String
  pub workflow_name : String
  pub status : WorkflowStatus
  pub started_at : Time
  pub updated_at : Time
  pub current_step : String
  pub total_steps : ℕ
  pub completed_steps : ℕ
  pub rolled_back_steps : ℕ

pub record WorkflowStats : Type 0 where
  pub workflow_name : String
  pub version : ℕ
  pub total_instances : ℕ
  pub completed_instances : ℕ
  pub failed_instances : ℕ
  pub running_instances : ℕ
  pub average_duration : Duration
