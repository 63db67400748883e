-- ===== src/Scenario/Simulator/Panic.antt =====
-- On a valid flow the simulator never reads a payload that is missing.
use home_sentinel.Base.{
  ◌≡◌, ◌≢◌, String, Bool, true, false, Option, none, some, &&-left, &&-right, Option-cases, inl,
  inr, arith,
}
use home_sentinel.Scenario.Model.{
  Value, Expr, ActionStep, StepKind, action, wait, if_kind, switch, parallel, join, human_approval,
  subflow, stop, other, Head, Flow, nil, cons, Step, step, IfStep, no_if, if_step, OptFlow, no_flow,
  flow,
}
use home_sentinel.Scenario.Expression.{valid_condition}
use home_sentinel.Scenario.Validate.{
  valid_kind, valid_flow, valid_steps, valid_step, valid_if, valid_opt, valid_switch,
  valid_parallel,
}
use home_sentinel.Scenario.Validate.Payload.{valid_step-Checks}
use home_sentinel.Scenario.Validate.Deep.{valid_flow-steps}
use home_sentinel.Scenario.Simulator.{
  Sim, Signal, go_on, halt, panic, after, branch_on, act, approve, by_kind, execute, execute_step,
  execute_if, execute_else,
}

module _ (valid_value : Value → Bool) (decide : Expr → Option Bool)
    (approvals : String → Option Bool) where
  abbrev Calm : Signal × Sim → Type 0
  Calm r = r.0 ≢ panic

  act-Calm : (id : String) (a : ActionStep) (s : Sim) → Calm (act decide approvals id a s)
  unfolding act
  act-Calm id a s h = ground (arith, h)

  approve-Calm : (id : String) (s : Sim) → Calm (approve decide approvals id s)
  unfolding approve
  approve-Calm id s h = ground (arith, h)

  after-Calm :
      (r : Signal × Sim) (next : Sim → Signal × Sim)
      → Calm r
      → ((s : Sim) → Calm (next s))
      → Calm (after r next)
  after-Calm (go_on, s) next c f = f s
  after-Calm (halt, s) next c f = c
  after-Calm (panic, s) next c f = c

  branch-Calm :
      (o : Option Bool) (id : String) (s : Sim) (then_ else_ : Signal × Sim)
      → Calm then_
      → Calm else_
      → Calm (branch_on o id s then_ else_)
  branch-Calm none id s t e ct ce = λ h. cc
  branch-Calm (some true) id s t e ct ce = ct
  branch-Calm (some false) id s t e ct ce = ce

  by_kind-Calm :
      (k : StepKind) (h : Head) (i sw p : Bool) (branches : Signal × Sim) (s : Sim)
      → valid_kind valid_value k h i sw p ≡ true
      → (i ≡ true → Calm branches)
      → Calm (by_kind decide approvals k h branches s)
  unfolding by_kind valid_kind
  by_kind-Calm action h i sw p b s v cb = elim (Option-cases h.action) [
    | inl absent ↦ absurd (ground (arith, v, absent))
    | inr (a, there) ↦ rw there (act-Calm h.id a s)
  ]
  by_kind-Calm wait h i sw p b s v cb = elim (Option-cases h.wait) [
    | inl absent ↦ absurd (ground (arith, v, absent))
    | inr (w, there) ↦ rw there (λ e. cc)
  ]
  by_kind-Calm human_approval h i sw p b s v cb = elim (Option-cases h.human_approval) [
    | inl absent ↦ absurd (ground (arith, v, absent))
    | inr (a, there) ↦ rw there (approve-Calm h.id s)
  ]
  by_kind-Calm stop h i sw p b s v cb = elim (Option-cases h.stop) [
    | inl absent ↦ absurd (ground (arith, v, absent))
    | inr (t, there) ↦ rw there (λ e. cc)
  ]
  by_kind-Calm if_kind h i sw p b s v cb = cb v
  by_kind-Calm switch h i sw p b s v cb = λ e. cc
  by_kind-Calm parallel h i sw p b s v cb = λ e. cc
  by_kind-Calm join h i sw p b s v cb = λ e. cc
  by_kind-Calm subflow h i sw p b s v cb = λ e. cc
  by_kind-Calm (other _) h i sw p b s v cb = λ e. cc

  mutual
    unfolding execute valid_flow

    steps-Calm :
        (f : Flow) (s : Sim)
        → valid_steps valid_value f ≡ true
        → Calm (execute decide approvals f s)
    steps-Calm nil s v = λ e. cc
    steps-Calm (cons st rest) s v =
        after-Calm (execute_step decide approvals st s) (execute decide approvals rest)
          (step-Calm st s (&&-left (valid_step valid_value st) _ v))
          λ t. steps-Calm rest t (&&-right (valid_step valid_value st) _ v)

    step-Calm :
        (st : Step) (s : Sim)
        → valid_step valid_value st ≡ true
        → Calm (execute_step decide approvals st s)
    step-Calm (step h f sw p) s v =
        by_kind-Calm h.kind h (valid_if valid_value f) (valid_switch valid_value sw)
          (valid_parallel valid_value p) (execute_if decide approvals f h.id s) s
          (valid_step-Checks valid_value (step h f sw p) v).1.1 λ ok. if-Calm f h.id s ok

    if-Calm :
        (f : IfStep) (id : String) (s : Sim)
        → valid_if valid_value f ≡ true
        → Calm (execute_if decide approvals f id s)
    if-Calm no_if id s v = absurd (ground (arith, v))
    if-Calm (if_step c t e) id s v =
        let parts = &&-right (valid_condition valid_value c) _ v in
        branch-Calm (decide c) id s _ _
          (steps-Calm t _
            (valid_flow-steps valid_value t (&&-left (valid_flow valid_value t) _ parts)))
          (else-Calm e id s (&&-right (valid_flow valid_value t) _ parts))

    else-Calm :
        (e : OptFlow) (id : String) (s : Sim)
        → valid_opt valid_value e ≡ true
        → Calm (execute_else decide approvals e id s)
    else-Calm no_flow id s v = λ h. cc
    else-Calm (flow f) id s v = steps-Calm f _ (valid_flow-steps valid_value f v)

  -- The simulator runs a valid flow to an answer: whatever conditions evaluate to and whoever approves,
  -- no step makes it read a payload that is not there.
  pub execute_calm :
      (f : Flow) (s : Sim)
      → valid_flow valid_value f ≡ true
      → (execute decide approvals f s).0 ≢ panic
  execute_calm f s v = steps-Calm f s (valid_flow-steps valid_value f v)
