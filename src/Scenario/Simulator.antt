-- ===== src/Scenario/Simulator.antt =====
-- internal/scenario/simulator/simulator.go: `Simulate`, from the evaluation of the triggers on. What
-- `EvaluateBool` says of an expression (evaluator.go compares JSON and floats) is a parameter, as is
-- the context's map of approvals; arguments of effects and explanations are left out. A payload that
-- is missing is dereferenced in the source: that is the signal `panic`.
pub mod Approval
pub mod Panic
pub mod Outcomes
mod Tests
use home_sentinel.Base.{
  ℕ, suc, ◌+◌, ◌-◌, String, ◌<>◌, str_eq, codes, contains, to_lower, Bool, true, false, not, ◌&&◌,
  Option, none, some, List, [], ◌∷◌, ◌++◌, if◌then◌else◌, ℤ, pos, negsuc,
}
use home_sentinel.Scenario.Model.{
  Expr, RiskLevel, low, high, critical, CapabilityRef, ActionStep, StepKind, Head, Flow, nil, cons,
  Step, step, IfStep, no_if, if_step, OptFlow, no_flow, flow,
}
use home_sentinel.Scenario.Model.{StopOutcome}
use home_sentinel.Scenario.Expression.{is_zero_expr}
use home_sentinel.Scenario.Safety.{id_contains, resource_key}

pub record Effect : Type 0 where
  pub capability_id : String
  pub resource_key : String
  pub risk : RiskLevel
  pub timestamp : ℕ

pub data Outcome : Type 0 where
  match error filter_mismatch condition_true condition_false would_execute : Outcome
  waited approved rejected branch_then branch_else : Outcome
  stopped : StopOutcome → Outcome

pub record Trace : Type 0 where
  pub step_id : String
  pub system_owned : Bool
  pub outcome : Outcome
  pub timestamp : ℕ

-- A trigger is matched on its filter alone.
pub record Trigger : Type 0 where
  pub id : String
  pub filter : Expr

-- `FinalOutcome`; `no_outcome` is the empty text.
pub data Final : Type 0 where
  no_outcome trigger_not_matched condition_error condition_skipped approval_rejected completed :
      Final

-- The result under construction, with the virtual clock, in nanoseconds.
pub record Sim : Type 0 where
  pub clock : ℕ
  pub passed : Bool
  pub traces : List Trace
  pub effects : List Effect
  pub final : Final
  pub errors : List String

-- `executeFlow` answers true, answers false, or does not answer.
pub data Signal : Type 0 where
  go_on halt panic : Signal

abbrev pub trace : (id : String) → (system_owned : Bool) → Outcome → Sim → Sim
trace id owned outcome s = record s {
  traces =
      s.traces
      ++ record { step_id = id; system_owned = owned; outcome = outcome; timestamp = s.clock } ∷ [];
}

abbrev pub is_unlock : String → Bool
is_unlock cap = id_contains cap "unlock"

abbrev pub risk_of : String → RiskLevel
risk_of cap = if is_unlock cap then critical else if id_contains cap "siren" then high else low

-- `Advance`.
abbrev pub advance : ℤ → Sim → Sim
advance (pos d) s = record s { clock = s.clock + d }
advance (negsuc d) s = record s { clock = s.clock - suc d }

-- The effect of an action and its trace.
unfoldable pub would : String → ActionStep → Sim → Sim
would id a s = trace id false would_execute (record s {
  effects =
      s.effects
      ++ record {
        capability_id = a.capability.id;
        resource_key = resource_key a.capability;
        risk = risk_of a.capability.id;
        timestamp = s.clock;
      }
        ∷ [];
})

abbrev reject : Sim → Sim
reject s = record s { final = approval_rejected }

-- The next part of a flow, where the one before it answered true.
abbrev pub after : Signal × Sim → (Sim → Signal × Sim) → Signal × Sim
after (go_on, s) next = next s
after (halt, s) next = (halt, s)
after (panic, s) next = (panic, s)

-- The case of an `if`, from what its condition evaluates to.
abbrev pub branch_on : Option Bool → String → Sim → (then_ else_ : Signal × Sim) → Signal × Sim
branch_on none id s then_ else_ = (halt, record s { errors = s.errors ++ id ∷ [] })
branch_on (some true) id s then_ else_ = then_
branch_on (some false) id s then_ else_ = else_

module _ (decide : Expr → Option Bool) (approvals : String → Option Bool) where
  abbrev pub is_approved : String → Bool
  is_approved id = elim (approvals id) [ none ↦ true | some b ↦ b ]

  -- The case of an action.
  unfoldable pub act : String → ActionStep → Sim → Signal × Sim
  act id a s =
      if is_unlock a.capability.id
      then if is_approved id
        then (go_on, would id a (trace ("safety_approval_" <> id) true approved s))
        else (halt, reject (trace ("safety_approval_" <> id) true rejected s))
      else (go_on, would id a s)

  unfoldable pub approve : String → Sim → Signal × Sim
  approve id s =
      if is_approved id
      then (go_on, trace id false approved s)
      else (halt, reject (trace id false rejected s))

  -- The `switch` on the kind, with what the case of an `if` does; the other kinds do nothing.
  unfoldable pub by_kind : StepKind → Head → (Signal × Sim) → Sim → Signal × Sim
  unfolding act approve
  by_kind StepKind.action h branches s = elim h.action [ none ↦ (panic, s) | some a ↦ act h.id a s ]
  by_kind StepKind.wait h branches s = elim h.wait [
    | none ↦ (panic, s)
    | some w ↦ (go_on, trace h.id false waited (advance w.duration s))
  ]
  by_kind StepKind.human_approval h branches s = elim h.human_approval [
    | none ↦ (panic, s)
    | some _ ↦ approve h.id s
  ]
  by_kind StepKind.if_kind h branches s = branches
  by_kind StepKind.stop h branches s = elim h.stop [
    | none ↦ (panic, s)
    | some t ↦ (halt, trace h.id false (stopped t.outcome) s)
  ]
  by_kind _ h branches s = (go_on, s)

  -- `executeFlow`.
  unfoldable mutual
    unfolding by_kind

    pub execute : Flow → Sim → Signal × Sim
    execute nil s = (go_on, s)
    execute (cons st rest) s = after (execute_step st s) (execute rest)

    pub execute_step : Step → Sim → Signal × Sim
    execute_step (step h f sw p) s = by_kind h.kind h (execute_if f h.id s) s

    pub execute_if : IfStep → String → Sim → Signal × Sim
    execute_if no_if id s = (panic, s)
    execute_if (if_step c t e) id s =
        let then_ = execute t (trace id false branch_then s) in
        let else_ = execute_else e id s in branch_on (decide c) id s then_ else_

    pub execute_else : OptFlow → String → Sim → Signal × Sim
    execute_else no_flow id s = (go_on, s)
    execute_else (flow f) id s = execute f (trace id false branch_else s)

  -- The loop over the triggers, up to the first that matches.
  unfoldable pub match_trigger : List Trigger → Sim → Bool × Sim
  match_trigger [] s = (false, s)
  match_trigger (t ∷ ts) s =
      if is_zero_expr t.filter
      then (true, trace t.id false Outcome.match s)
      else elim (decide t.filter) [
        | none ↦ match_trigger ts (trace t.id false error s)
        | some b ↦
            let others = match_trigger ts (trace t.id false filter_mismatch s) in
            if b then (true, trace t.id false Outcome.match s) else others
      ]

  abbrev pub finish : Sim → Sim
  finish s = elim s.final [ no_outcome ↦ record s { final = completed } | _ ↦ s ]

  abbrev pub closed : Signal × Sim → Signal × Sim
  closed (panic, s) = (panic, s)
  closed (_, s) = (go_on, finish s)

  -- From the top-level condition on.
  unfoldable pub conditioned : Expr → Flow → Sim → Signal × Sim
  unfolding execute
  conditioned c f s = if is_zero_expr c then closed (execute f s) else elim (decide c) [
    | none ↦ (
      go_on,
      trace "condition" false error (record s {
        passed = false;
        errors = s.errors ++ "condition" ∷ [];
        final = condition_error;
      }),
    )
    | some b ↦ if b then closed (execute f (trace "condition" false condition_true s)) else (
      go_on,
      trace "condition" false condition_false (record s { final = condition_skipped }),
    )
  ]

  -- `Simulate` on a scenario that compiles.
  unfoldable pub simulate : List Trigger → Expr → Flow → Sim → Signal × Sim
  unfolding match_trigger conditioned
  simulate triggers c f s =
      let (matched, s') = match_trigger triggers s in
      if matched then conditioned c f s' else (go_on, record s' { final = trigger_not_matched })
