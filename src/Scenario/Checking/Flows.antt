-- ===== src/Scenario/Checking/Flows.antt =====
-- internal/scenario/model/typecheck.go: `validateFlowTypes`, true where there is no error, and what it
-- says of the conditions of a flow at any depth.
use home_sentinel.Base.{
  ◌≡◌, String, Bool, true, ◌&&◌, Option, none, some, List, [], ◌∷◌, ◌++◌, All, Dict, arith,
  Option-cases, inl, inr, &&-left, &&-right, insert, ◌<>◌,
}
use home_sentinel.Scenario.Model.{
  bool, TypeRef, Value, Expr, ActionStep, SubflowStep, Flow, nil, cons, Step, step, IfStep, no_if,
  if_step, OptFlow, no_flow, flow, SwitchStep, no_switch, switch_step, Cases, no_case, case,
  ParallelStep, no_parallel, parallel_step, Branches, no_branch, branch,
}
use home_sentinel.Scenario.Types.{kind, same_kind}
use home_sentinel.Scenario.Types.Partial.{same_kind-eq}
use home_sentinel.Scenario.Expression.{is_present}
use home_sentinel.Scenario.Checking.{is_bool, check_expr}

module _ (canonical : Value → Option Value) where
  -- The parameters of a scenario, put into the environment under their names.
  unfoldable pub with_parameters : List (String × TypeRef) → Dict TypeRef → Dict TypeRef
  unfolding insert
  with_parameters [] env = env
  with_parameters ((id, t) ∷ ps) env = with_parameters ps (insert ("parameter." <> id) t env)

  module _ (env : Dict TypeRef) where
    -- The loop over the arguments of a call.
    unfoldable pub typed_arguments : List (String × Expr) → Bool
    unfolding check_expr
    typed_arguments [] = true
    typed_arguments ((name, e) ∷ rest) =
        is_present (check_expr canonical env e) && typed_arguments rest

    abbrev typed_action : Option ActionStep → Bool
    typed_action none = true
    typed_action (some a) = typed_arguments a.arguments

    abbrev typed_subflow : Option SubflowStep → Bool
    typed_subflow none = true
    typed_subflow (some s) = typed_arguments s.arguments

    -- `requireBool`.
    unfoldable pub require_bool : Expr → Bool
    unfolding check_expr same_kind
    require_bool e = is_bool (check_expr canonical env e)

    -- `validateFlowTypes`.
    unfoldable mutual
      unfolding typed_arguments require_bool

      pub typed_flow : Flow → Bool
      typed_flow nil = true
      typed_flow (cons st rest) = typed_step st && typed_flow rest

      pub typed_step : Step → Bool
      typed_step (step h f sw p) =
          typed_action h.action
          && (typed_subflow h.subflow && (typed_if f && (typed_switch sw && typed_parallel p)))

      pub typed_if : IfStep → Bool
      typed_if no_if = true
      typed_if (if_step c t e) = require_bool c && (typed_flow t && typed_opt e)

      pub typed_opt : OptFlow → Bool
      typed_opt no_flow = true
      typed_opt (flow f) = typed_flow f

      pub typed_switch : SwitchStep → Bool
      typed_switch no_switch = true
      typed_switch (switch_step cs d) = typed_cases cs && typed_opt d

      pub typed_cases : Cases → Bool
      typed_cases no_case = true
      typed_cases (case w f cs) = require_bool w && (typed_flow f && typed_cases cs)

      pub typed_parallel : ParallelStep → Bool
      typed_parallel no_parallel = true
      typed_parallel (parallel_step bs) = typed_branches bs

      pub typed_branches : Branches → Bool
      typed_branches no_branch = true
      typed_branches (branch f bs) = typed_flow f && typed_branches bs

-- The conditions of a flow: of each `if`, and of each case of a `switch`.
abbrev mutual
  pub conditions : Flow → List Expr
  conditions nil = []
  conditions (cons st rest) = step_conditions st ++ conditions rest

  pub step_conditions : Step → List Expr
  step_conditions (step h f sw p) =
      if_conditions f ++ (switch_conditions sw ++ parallel_conditions p)

  pub if_conditions : IfStep → List Expr
  if_conditions no_if = []
  if_conditions (if_step c t e) = c ∷ (conditions t ++ opt_conditions e)

  pub opt_conditions : OptFlow → List Expr
  opt_conditions no_flow = []
  opt_conditions (flow f) = conditions f

  pub switch_conditions : SwitchStep → List Expr
  switch_conditions no_switch = []
  switch_conditions (switch_step cs d) = case_conditions cs ++ opt_conditions d

  pub case_conditions : Cases → List Expr
  case_conditions no_case = []
  case_conditions (case w f cs) = w ∷ (conditions f ++ case_conditions cs)

  pub parallel_conditions : ParallelStep → List Expr
  parallel_conditions no_parallel = []
  parallel_conditions (parallel_step bs) = branch_conditions bs

  pub branch_conditions : Branches → List Expr
  branch_conditions no_branch = []
  branch_conditions (branch f bs) = conditions f ++ branch_conditions bs

All-join : (P : Expr → Type 0) (xs ys : List Expr) → All P xs → All P ys → All P (xs ++ ys)
All-join P [] ys a b = b
All-join P (x ∷ xs) ys (p, a) b = (p, All-join P xs ys a b)

module _ (canonical : Value → Option Value) (env : Dict TypeRef) where
  -- An expression that is typed as a Boolean.
  abbrev pub IsTypedBool : Expr → Type 0
  IsTypedBool e = (t : TypeRef) × (check_expr canonical env e ≡ some t) × (kind t ≡ bool)

  require_bool-typed : (e : Expr) → require_bool canonical env e ≡ true → IsTypedBool e
  unfolding require_bool
  require_bool-typed e h = elim (Option-cases (check_expr canonical env e)) [
    | inl q ↦ absurd (ground (arith, q, h))
    | inr (t, q) ↦ (t, q, same_kind-eq (kind t) bool (ground (arith, q, h)))
  ]

  mutual
    unfolding typed_flow

    flow_block : (f : Flow) → typed_flow canonical env f ≡ true → All IsTypedBool (conditions f)
    flow_block nil h = tt
    flow_block (cons st rest) h =
        All-join IsTypedBool (step_conditions st) (conditions rest) (step_block st (&&-left _ _ h))
          (flow_block rest (&&-right (typed_step canonical env st) _ h))

    step_block :
        (st : Step) → typed_step canonical env st ≡ true → All IsTypedBool (step_conditions st)
    step_block (step h f sw p) e =
        All-join IsTypedBool (if_conditions f) (switch_conditions sw ++ parallel_conditions p)
          (if_block f (ground (arith, e)))
          (All-join IsTypedBool (switch_conditions sw) (parallel_conditions p)
            (switch_block sw (ground (arith, e))) (parallel_block p (ground (arith, e))))

    if_block : (f : IfStep) → typed_if canonical env f ≡ true → All IsTypedBool (if_conditions f)
    if_block no_if h = tt
    if_block (if_step c t e) h = (
      require_bool-typed c (ground (arith, h)),
      All-join IsTypedBool (conditions t) (opt_conditions e) (flow_block t (ground (arith, h)))
          (opt_block e (ground (arith, h))),
    )

    opt_block :
        (o : OptFlow) → typed_opt canonical env o ≡ true → All IsTypedBool (opt_conditions o)
    opt_block no_flow h = tt
    opt_block (flow f) h = flow_block f h

    switch_block :
        (s : SwitchStep)
        → typed_switch canonical env s ≡ true
        → All IsTypedBool (switch_conditions s)
    switch_block no_switch h = tt
    switch_block (switch_step cs d) h =
        All-join IsTypedBool (case_conditions cs) (opt_conditions d)
          (cases_block cs (ground (arith, h))) (opt_block d (ground (arith, h)))

    cases_block :
        (cs : Cases) → typed_cases canonical env cs ≡ true → All IsTypedBool (case_conditions cs)
    cases_block no_case h = tt
    cases_block (case w f cs) h = (
      require_bool-typed w (ground (arith, h)),
      All-join IsTypedBool (conditions f) (case_conditions cs) (flow_block f (ground (arith, h)))
          (cases_block cs (ground (arith, h))),
    )

    parallel_block :
        (p : ParallelStep)
        → typed_parallel canonical env p ≡ true
        → All IsTypedBool (parallel_conditions p)
    parallel_block no_parallel h = tt
    parallel_block (parallel_step bs) h = branches_block bs h

    branches_block :
        (bs : Branches)
        → typed_branches canonical env bs ≡ true
        → All IsTypedBool (branch_conditions bs)
    branches_block no_branch h = tt
    branches_block (branch f bs) h =
        All-join IsTypedBool (conditions f) (branch_conditions bs)
          (flow_block f (ground (arith, h))) (branches_block bs (ground (arith, h)))

  -- In a flow that passes the type check each condition, in whatever branch, is typed as a Boolean.
  pub typed_flow-IsTypedBool :
      (f : Flow) → typed_flow canonical env f ≡ true → All IsTypedBool (conditions f)
  typed_flow-IsTypedBool f h = flow_block f h
