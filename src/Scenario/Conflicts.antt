-- ===== src/Scenario/Conflicts.antt =====
-- internal/scenario/compiler/static_analysis.go: `StaticConflictAnalysis`. A diagnostic keeps its
-- code, its severity and its path; its message and hint are display text.
pub mod Resources
pub mod Recursion
pub mod Unreachable
pub mod Parallel
mod Tests
use home_sentinel.Base.{
  ℕ, suc, String, ◌<>◌, str_eq, show, codes, to_lower, bytes_eq, Bool, true, false, not, ◌&&◌, ◌||◌,
  Option, none, some, List, [], ◌∷◌, ◌++◌, if◌then◌else◌, Dict, lookup, insert,
}
use home_sentinel.Scenario.Model.{
  StepKind, Head, Flow, nil, cons, Step, step, IfStep, no_if, if_step, OptFlow, no_flow, flow,
  SwitchStep, no_switch, switch_step, Cases, no_case, case, ParallelStep, no_parallel,
  parallel_step, Branches, no_branch, branch,
}

pub data Code : Type 0 where
  unreachable_step self_recursion opposite_desired_state circular_dependency : Code

pub data Severity : Type 0 where
  error warning info : Severity

pub record Diagnostic : Type 0 where
  pub code : Code
  pub severity : Severity
  pub path : String

abbrev pub step_path : String → ℕ → String
step_path path i = path <> (".steps[" <> (show i <> "]"))

abbrev pub case_path : String → ℕ → String
case_path path j = path <> (".switch.cases[" <> (show j <> "].flow"))

abbrev pub branch_path : String → ℕ → String
branch_path path j = path <> (".parallel.branches[" <> (show j <> "]"))

-- The step calls the scenario `self` as a subflow.
unfoldable pub calls : String → Head → Bool
calls self h = elim h.subflow [ none ↦ false | some s ↦ str_eq s.scenario_id self ]

abbrev pub self_here : String → Head → String → List Diagnostic
self_here self h path =
    if calls self h
    then record { code = self_recursion; severity = error; path = path <> ".subflow.scenarioId" }
      ∷ []
    else []

module _ (self : String) where
  -- `checkSelfRecursion`.
  unfoldable mutual
    pub check_self : Flow → String → ℕ → List Diagnostic
    check_self nil path i = []
    check_self (cons st rest) path i =
        self_step st (step_path path i) ++ check_self rest path (suc i)

    pub self_step : Step → String → List Diagnostic
    self_step (step h f sw p) path =
        self_here self h path ++ (self_if f path ++ (self_switch sw path ++ self_parallel p path))

    pub self_if : IfStep → String → List Diagnostic
    self_if no_if path = []
    self_if (if_step c t e) path =
        check_self t (path <> ".if.then") 0 ++ self_opt e (path <> ".if.else")

    pub self_opt : OptFlow → String → List Diagnostic
    self_opt no_flow path = []
    self_opt (flow f) path = check_self f path 0

    pub self_switch : SwitchStep → String → List Diagnostic
    self_switch no_switch path = []
    self_switch (switch_step cs d) path =
        self_cases cs path 0 ++ self_opt d (path <> ".switch.default")

    pub self_cases : Cases → String → ℕ → List Diagnostic
    self_cases no_case path j = []
    self_cases (case w f cs) path j =
        check_self f (case_path path j) 0 ++ self_cases cs path (suc j)

    pub self_parallel : ParallelStep → String → List Diagnostic
    self_parallel no_parallel path = []
    self_parallel (parallel_step bs) path = self_branches bs path 0

    pub self_branches : Branches → String → ℕ → List Diagnostic
    self_branches no_branch path j = []
    self_branches (branch f bs) path j =
        check_self f (branch_path path j) 0 ++ self_branches bs path (suc j)

abbrev pub is_stop : StepKind → Bool
is_stop StepKind.stop = true
is_stop _ = false

abbrev pub step_stops : Step → Bool
step_stops (step h f sw p) = is_stop h.kind

abbrev pub unreachable_here : Bool → String → List Diagnostic
unreachable_here stopped path =
    if stopped then record { code = unreachable_step; severity = warning; path = path } ∷ [] else []

-- `checkUnreachable`.
unfoldable mutual
  pub check_unreachable : Flow → String → ℕ → Bool → List Diagnostic
  check_unreachable nil path i stopped = []
  check_unreachable (cons st rest) path i stopped =
      unreachable_here stopped (step_path path i)
      ++ (unreachable_step_in st (step_path path i)
          ++ check_unreachable rest path (suc i) (stopped || step_stops st))

  pub unreachable_step_in : Step → String → List Diagnostic
  unreachable_step_in (step h f sw p) path = unreachable_if f path ++ unreachable_switch sw path

  pub unreachable_if : IfStep → String → List Diagnostic
  unreachable_if no_if path = []
  unreachable_if (if_step c t e) path =
      check_unreachable t (path <> ".if.then") 0 false ++ unreachable_opt e (path <> ".if.else")

  pub unreachable_opt : OptFlow → String → List Diagnostic
  unreachable_opt no_flow path = []
  unreachable_opt (flow f) path = check_unreachable f path 0 false

  pub unreachable_switch : SwitchStep → String → List Diagnostic
  unreachable_switch no_switch path = []
  unreachable_switch (switch_step cs d) path =
      unreachable_cases cs path 0 ++ unreachable_opt d (path <> ".switch.default")

  pub unreachable_cases : Cases → String → ℕ → List Diagnostic
  unreachable_cases no_case path j = []
  unreachable_cases (case w f cs) path j =
      check_unreachable f (case_path path j) 0 false ++ unreachable_cases cs path (suc j)
