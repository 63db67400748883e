-- ===== src/Scenario/Tree.antt =====
-- All steps of a flow, in the order in which the recursive passes of internal/scenario meet them:
-- a step before the flows in its payloads, and these in the order if, switch, parallel.
use home_sentinel.Base.{List, [], ◌∷◌, ◌++◌}
use home_sentinel.Scenario.Model.{
  Head, Flow, nil, cons, Step, step, IfStep, no_if, if_step, OptFlow, no_flow, flow, SwitchStep,
  no_switch, switch_step, Cases, no_case, case, ParallelStep, no_parallel, parallel_step, Branches,
  no_branch, branch,
}

unfoldable mutual
  pub heads : Flow → List Head
  heads nil = []
  heads (cons st rest) = step_heads st ++ heads rest

  pub step_heads : Step → List Head
  step_heads (step h f sw p) = h ∷ (if_heads f ++ (switch_heads sw ++ parallel_heads p))

  pub if_heads : IfStep → List Head
  if_heads no_if = []
  if_heads (if_step c t e) = heads t ++ opt_heads e

  pub opt_heads : OptFlow → List Head
  opt_heads no_flow = []
  opt_heads (flow f) = heads f

  pub switch_heads : SwitchStep → List Head
  switch_heads no_switch = []
  switch_heads (switch_step cs d) = cases_heads cs ++ opt_heads d

  pub cases_heads : Cases → List Head
  cases_heads no_case = []
  cases_heads (case w f cs) = heads f ++ cases_heads cs

  pub parallel_heads : ParallelStep → List Head
  parallel_heads no_parallel = []
  parallel_heads (parallel_step bs) = branches_heads bs

  pub branches_heads : Branches → List Head
  branches_heads no_branch = []
  branches_heads (branch f bs) = heads f ++ branches_heads bs
