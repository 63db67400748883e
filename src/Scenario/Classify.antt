-- ===== src/Scenario/Classify.antt =====
-- internal/scenario/compiler/classify.go: `ClassifyRuntime`, from the results of the passes before it.
-- A reason keeps what it is about; the texts, which the source makes unique before it counts them,
-- are display text. On a flow that was validated an action step has its payload.
pub mod Durable
pub mod Unlock
mod Tests
use home_sentinel.Base.{
  ℕ, suc, String, Bool, true, false, ◌||◌, Option, none, some, List, [], ◌∷◌, ◌++◌, map, ltb,
  if◌then◌else◌, Dict, lookup, is_pos, pos_part,
}
use home_sentinel.Scenario.Model.{
  RiskLevel, high, critical, RetryHint, ActionStep, StepKind, Head, Flow, nil, cons, Step, step,
  IfStep, no_if, if_step, OptFlow, no_flow, flow,
}
use home_sentinel.Scenario.Safety.{Descriptor, Reason, Analysis}
use home_sentinel.Scenario.Safety.Walk.{apply_safety_pass}
use home_sentinel.Scenario.Temporal.{Trigger, RequirementKind, Requirement, analyze_temporal}

pub data Runtime : Type 0 where
  axiom_runtime adgo : Runtime

pub data Cause : Type 0 where
  by_safety : Reason → Cause
  by_time : RequirementKind → Cause
  long_flow : ℕ → Cause
  waits approves forks calls switches retries risky has_effect : String → Cause

-- The durable requirements.
unfoldable pub durable_causes : List Requirement → List Cause
durable_causes [] = []
durable_causes (r ∷ rs) =
    let rest = durable_causes rs in if r.durable then by_time r.kind ∷ rest else rest

abbrev count_steps : Flow → ℕ
count_steps nil = 0
count_steps (cons st rest) = suc (count_steps rest)

abbrev long_here : Flow → List Cause
long_here f = if ltb 2 (count_steps f) then long_flow (count_steps f) ∷ [] else []

abbrev is_risky : RiskLevel → Bool
is_risky high = true
is_risky critical = true
is_risky _ = false

abbrev retry_causes : String → Option RetryHint → List Cause
retry_causes id none = []
retry_causes id (some r) = if ltb 1 (pos_part r.max_attempts) then retries id ∷ [] else []

abbrev descriptor_causes : Option Descriptor → List Cause
descriptor_causes none = []
descriptor_causes (some d) =
    (if is_risky d.risk then risky d.id ∷ [] else [])
    ++ (if d.external_effect then has_effect d.id ∷ [] else [])

abbrev action_causes : Dict Descriptor → String → Option ActionStep → List Cause
action_causes resolved id none = []
action_causes resolved id (some a) =
    retry_causes id a.retry ++ descriptor_causes (lookup a.capability.id resolved)

module _ (resolved : Dict Descriptor) where
  -- The `switch` on the kind of a step.
  unfoldable pub kind_causes : StepKind → Head → List Cause
  kind_causes StepKind.wait h = waits h.id ∷ []
  kind_causes StepKind.human_approval h = approves h.id ∷ []
  kind_causes StepKind.parallel h = forks h.id ∷ []
  kind_causes StepKind.join h = forks h.id ∷ []
  kind_causes StepKind.subflow h = calls h.id ∷ []
  kind_causes StepKind.switch h = switches h.id ∷ []
  kind_causes StepKind.action h = action_causes resolved h.id h.action
  kind_causes _ h = []

  -- `inspectFlow`.
  unfoldable mutual
    unfolding kind_causes

    pub inspect_flow : Flow → List Cause
    inspect_flow nil = []
    inspect_flow (cons st rest) =
        long_here (cons st rest) ++ (inspect_step st ++ inspect_steps rest)

    pub inspect_steps : Flow → List Cause
    inspect_steps nil = []
    inspect_steps (cons st rest) = inspect_step st ++ inspect_steps rest

    pub inspect_step : Step → List Cause
    inspect_step (step h f sw p) = kind_causes h.kind h ++ inspect_if f

    pub inspect_if : IfStep → List Cause
    inspect_if no_if = []
    inspect_if (if_step c t e) = inspect_flow t ++ inspect_opt e

    pub inspect_opt : OptFlow → List Cause
    inspect_opt no_flow = []
    inspect_opt (flow f) = inspect_flow f

  -- All reasons for durable execution, in the source's order.
  unfoldable pub causes : Flow → List Requirement → Analysis → List Cause
  unfolding durable_causes inspect_flow
  causes f requirements safety =
      (if safety.requires_adgo then map by_safety safety.reasons else [])
      ++ (durable_causes requirements ++ inspect_flow f)

  -- `ClassifyRuntime`.
  unfoldable pub classify : Flow → List Requirement → Analysis → Runtime
  unfolding causes
  classify f requirements safety = elim (causes f requirements safety) [
    | [] ↦ axiom_runtime
    | _ ∷ _ ↦ adgo
  ]

  -- The runtime that `Compile` selects, with its passes in front.
  unfoldable pub select_runtime : List Trigger → Flow → Runtime
  unfolding classify
  select_runtime triggers f =
      classify f (analyze_temporal triggers f) (apply_safety_pass resolved f)
