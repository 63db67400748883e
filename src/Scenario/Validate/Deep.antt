-- ===== src/Scenario/Validate/Deep.antt =====
-- What holds of a valid step holds of the steps at any depth of a valid flow.
use home_sentinel.Base.{◌≡◌, refl, Bool, true, &&-left, &&-right}
use home_sentinel.Scenario.Model.{
  Value, Expr, Head, Flow, nil, cons, Step, step, IfStep, if_step, OptFlow, flow, SwitchStep,
  switch_step, Cases, case, ParallelStep, parallel_step, Branches, branch,
}
use home_sentinel.Scenario.Expression.{valid_token, valid_condition}
use home_sentinel.Scenario.Validate.{
  has_case, has_two, present, valid_flow, valid_steps, valid_step, valid_cases, valid_branches,
}
use home_sentinel.Scenario.Validate.Payload.{
  alone, kind_of, head_of, valid_step-alone, valid_step-token, valid_step-if, valid_step-switch,
  valid_step-parallel,
}

-- Where a step stands in a flow, at any depth.
mutual
  pub data In (st : Step) : Flow → Type 0 where
    first : {rest : Flow} → In st (cons st rest)
    within : {s : Step} {rest : Flow} → Inside st s → In st (cons s rest)
    after : {s : Step} {rest : Flow} → In st rest → In st (cons s rest)

  pub data Inside (st : Step) : Step → Type 0 where
    in_then :
        {h : Head} {c : Expr} {t : Flow} {e : OptFlow} {sw : SwitchStep} {p : ParallelStep}
        → In st t
        → Inside st (step h (if_step c t e) sw p)
    in_else :
        {h : Head} {c : Expr} {t f : Flow} {sw : SwitchStep} {p : ParallelStep}
        → In st f
        → Inside st (step h (if_step c t (flow f)) sw p)
    in_case :
        {h : Head} {f : IfStep} {cs : Cases} {d : OptFlow} {p : ParallelStep}
        → InCases st cs
        → Inside st (step h f (switch_step cs d) p)
    in_default :
        {h : Head} {f : IfStep} {cs : Cases} {g : Flow} {p : ParallelStep}
        → In st g
        → Inside st (step h f (switch_step cs (flow g)) p)
    in_branch :
        {h : Head} {f : IfStep} {sw : SwitchStep} {bs : Branches}
        → InBranches st bs
        → Inside st (step h f sw (parallel_step bs))

  pub data InCases (st : Step) : Cases → Type 0 where
    this_case : {w : Expr} {f : Flow} {cs : Cases} → In st f → InCases st (case w f cs)
    later_case : {w : Expr} {f : Flow} {cs : Cases} → InCases st cs → InCases st (case w f cs)

  pub data InBranches (st : Step) : Branches → Type 0 where
    this_branch : {f : Flow} {bs : Branches} → In st f → InBranches st (branch f bs)
    later_branch : {f : Flow} {bs : Branches} → InBranches st bs → InBranches st (branch f bs)

module _ (valid_value : Value → Bool) where
  pub valid_flow-steps :
      (f : Flow) → valid_flow valid_value f ≡ true → valid_steps valid_value f ≡ true
  unfolding valid_flow
  valid_flow-steps nil v = refl
  valid_flow-steps (cons st rest) v = v

  mutual
    unfolding valid_flow

    valid_steps-In :
        {st : Step} {f : Flow}
        → In st f
        → valid_steps valid_value f ≡ true
        → valid_step valid_value st ≡ true
    valid_steps-In {st} first v = &&-left (valid_step valid_value st) _ v
    valid_steps-In (within {s} i) v = valid_step-Inside i (&&-left (valid_step valid_value s) _ v)
    valid_steps-In (after {s} i) v = valid_steps-In i (&&-right (valid_step valid_value s) _ v)

    valid_step-Inside :
        {st s : Step}
        → Inside st s
        → valid_step valid_value s ≡ true
        → valid_step valid_value st ≡ true
    valid_step-Inside (in_then {h} {c} {t} {e} {sw} {p} i) v =
        let parts =
          &&-right (valid_condition valid_value c) _ (valid_step-if valid_value h c t e sw p v) in
        valid_steps-In i (valid_flow-steps t (&&-left (valid_flow valid_value t) _ parts))
    valid_step-Inside (in_else {h} {c} {t} {f} {sw} {p} i) v =
        let parts =
          &&-right (valid_condition valid_value c) _
            (valid_step-if valid_value h c t (flow f) sw p v) in
        valid_steps-In i (valid_flow-steps f (&&-right (valid_flow valid_value t) _ parts))
    valid_step-Inside (in_case {h} {f} {cs} {d} {p} i) v =
        let parts = &&-right (has_case cs) _ (valid_step-switch valid_value h f cs d p v) in
        valid_cases-In i (&&-left (valid_cases valid_value cs) _ parts)
    valid_step-Inside (in_default {h} {f} {cs} {g} {p} i) v =
        let parts = &&-right (has_case cs) _ (valid_step-switch valid_value h f cs (flow g) p v) in
        valid_steps-In i (valid_flow-steps g (&&-right (valid_cases valid_value cs) _ parts))
    valid_step-Inside (in_branch {h} {f} {sw} {bs} i) v =
        valid_branches-In i (&&-right (has_two bs) _ (valid_step-parallel valid_value h f sw bs v))

    valid_cases-In :
        {st : Step} {cs : Cases}
        → InCases st cs
        → valid_cases valid_value cs ≡ true
        → valid_step valid_value st ≡ true
    valid_cases-In (this_case {w} {f} i) v =
        let parts = &&-right (valid_condition valid_value w) _ v in
        valid_steps-In i (valid_flow-steps f (&&-left (valid_flow valid_value f) _ parts))
    valid_cases-In (later_case {w} {f} i) v =
        let parts = &&-right (valid_condition valid_value w) _ v in
        valid_cases-In i (&&-right (valid_flow valid_value f) _ parts)

    valid_branches-In :
        {st : Step} {bs : Branches}
        → InBranches st bs
        → valid_branches valid_value bs ≡ true
        → valid_step valid_value st ≡ true
    valid_branches-In (this_branch {f} i) v =
        valid_steps-In i (valid_flow-steps f (&&-left (valid_flow valid_value f) _ v))
    valid_branches-In (later_branch {f} i) v =
        valid_branches-In i (&&-right (valid_flow valid_value f) _ v)

  -- Each step of a valid flow, at any depth, has the payload of its kind and no other, and its ID is a
  -- token: the passes that follow read the payload of a kind without a test.
  pub valid_flow-alone :
      (f : Flow) (st : Step)
      → valid_flow valid_value f ≡ true
      → In st f
      → (present st ≡ alone (kind_of st)) × (valid_token (head_of st).id ≡ true)
  valid_flow-alone f st v i =
      let valid = valid_steps-In i (valid_flow-steps f v) in
      (valid_step-alone valid_value st valid, valid_step-token valid_value st valid)
