-- ===== src/Scenario/Model.antt =====
-- internal/scenario/model: the types of a scenario's flow. A step has one optional payload for each
-- kind, as in the source; the payloads that hold flows are types of the mutual block, since a type
-- cannot hold a list or an option of itself.
use home_sentinel.Base.{ℕ, String, Option, List, ℤ}

-- type.go: the kinds of a value; `unknown_kind` is any other text.
pub data ValueKind : Type 0 where
  bool string int float duration time_of_day timestamp percentage confidence temperature illuminance
        distance enum entity_ref artifact_ref list unknown_kind :
      ValueKind

-- The type of a value. `element` is the element type of a list.
mutual
  pub data TypeRef : Type 0 where
    type_ref :
        (kind : ValueKind) (unit name entity_kind : String) (enum : List String) (element : Element)
        → TypeRef

  pub data Element : Type 0 where
    no_element : Element
    element : TypeRef → Element

pub record Value : Type 0 where
  pub type : TypeRef
  pub raw : String

-- expression.go.
mutual
  pub data Expr : Type 0 where
    expr : (op ref : String) (value : Option Value) (args : Exprs) → Expr

  pub data Exprs : Type 0 where
    no_args : Exprs
    arg : Expr → Exprs → Exprs

-- safety.go.
pub data RiskLevel : Type 0 where
  low medium high critical : RiskLevel
  unknown_risk : String → RiskLevel

pub record EntityRef : Type 0 where
  pub id : String
  pub kind : String

pub record CapabilityRef : Type 0 where
  pub id : String
  pub version : String
  pub entity : Option EntityRef

pub record RetryHint : Type 0 where
  pub max_attempts : ℤ
  pub base_delay : ℤ
  pub max_delay : ℤ

pub record ActionStep : Type 0 where
  pub capability : CapabilityRef
  pub arguments : List (String × Expr)
  pub retry : Option RetryHint

-- A `time.Duration` is a signed count of nanoseconds.
pub record WaitStep : Type 0 where
  pub duration : ℤ

pub data JoinMode : Type 0 where
  all any n_of_m quorum : JoinMode
  unknown_mode : String → JoinMode

pub record JoinStep : Type 0 where
  pub mode : JoinMode
  pub threshold : ℤ

pub record HumanApprovalStep : Type 0 where
  pub risk : RiskLevel
  pub prompt : String
  pub timeout : ℤ

pub record SubflowStep : Type 0 where
  pub scenario_id : String
  pub version : ℕ
  pub arguments : List (String × Expr)

pub data StopOutcome : Type 0 where
  completed canceled rejected : StopOutcome
  unknown_outcome : String → StopOutcome

pub record StopStep : Type 0 where
  pub outcome : StopOutcome

pub data StepKind : Type 0 where
  action wait if_kind switch parallel join human_approval subflow stop : StepKind
  other : String → StepKind

-- The text of a kind, as in the source.
abbrev pub kind_text : StepKind → String
kind_text action = "action"
kind_text wait = "wait"
kind_text if_kind = "if"
kind_text switch = "switch"
kind_text parallel = "parallel"
kind_text join = "join"
kind_text human_approval = "human_approval"
kind_text subflow = "subflow"
kind_text stop = "stop"
kind_text (other s) = s

-- The fields of a step that hold no flow.
pub record Head : Type 0 where
  pub id : String
  pub kind : StepKind
  pub action : Option ActionStep
  pub wait : Option WaitStep
  pub join : Option JoinStep
  pub human_approval : Option HumanApprovalStep
  pub subflow : Option SubflowStep
  pub stop : Option StopStep

mutual
  pub data Flow : Type 0 where
    nil : Flow
    cons : Step → Flow → Flow

  pub data Step : Type 0 where
    step : (head : Head) (if_step : IfStep) (switch : SwitchStep) (parallel : ParallelStep) → Step

  pub data IfStep : Type 0 where
    no_if : IfStep
    if_step : (condition : Expr) (then_flow : Flow) (else_flow : OptFlow) → IfStep

  pub data OptFlow : Type 0 where
    no_flow : OptFlow
    flow : Flow → OptFlow

  pub data SwitchStep : Type 0 where
    no_switch : SwitchStep
    switch_step : (cases : Cases) (default : OptFlow) → SwitchStep

  pub data Cases : Type 0 where
    no_case : Cases
    case : (when : Expr) → Flow → Cases → Cases

  pub data ParallelStep : Type 0 where
    no_parallel : ParallelStep
    parallel_step : Branches → ParallelStep

  pub data Branches : Type 0 where
    no_branch : Branches
    branch : Flow → Branches → Branches
