-- ===== src/Scenario/Conflicts/Recursion.antt =====
-- The check for self recursion finds each call of the scenario by itself, at any depth.
use home_sentinel.Base.{
  ℕ, suc, ◌≡◌, refl, String, List, [], ◌∷◌, ◌++◌, length, length-append, count_if, count_if-append,
  arith,
}
use home_sentinel.Scenario.Model.{
  Head, Flow, nil, cons, Step, step, IfStep, no_if, if_step, OptFlow, no_flow, flow, SwitchStep,
  no_switch, switch_step, Cases, no_case, case, ParallelStep, no_parallel, parallel_step, Branches,
  no_branch, branch,
}
use home_sentinel.Scenario.Tree.{
  heads, step_heads, if_heads, opt_heads, switch_heads, cases_heads, parallel_heads, branches_heads,
}
use home_sentinel.Scenario.Conflicts.{
  Diagnostic, calls, self_here, check_self, self_step, self_if, self_opt, self_switch, self_cases,
  self_parallel, self_branches,
}

module _ (self : String) where
  abbrev callers : List Head → ℕ
  callers = count_if (calls self)

  -- Lists of diagnostics and of steps, put together alike.
  joined :
      (ds es : List Diagnostic) (hs ks : List Head)
      → length ds ≡ callers hs
      → length es ≡ callers ks
      → length (ds ++ es) ≡ callers (hs ++ ks)
  joined ds es hs ks p q =
      omega (arith, length-append ds es, count_if-append (calls self) hs ks, p, q)

  length-self_here : (h : Head) (path : String) → length (self_here self h path) ≡ callers (h ∷ [])
  length-self_here h path = ground arith

  mutual
    unfolding check_self heads

    length-check_self :
        (f : Flow) (path : String) (i : ℕ) → length (check_self self f path i) ≡ callers (heads f)
    length-check_self nil path i = refl
    length-check_self (cons st rest) path i =
        joined _ _ (step_heads st) (heads rest) (length-self_step st _)
          (length-check_self rest path (suc i))

    length-self_step :
        (st : Step) (path : String) → length (self_step self st path) ≡ callers (step_heads st)
    length-self_step (step h f sw p) path =
        joined (self_here self h path) _ (h ∷ [])
          (if_heads f ++ (switch_heads sw ++ parallel_heads p)) (length-self_here h path)
          (joined _ _ (if_heads f) (switch_heads sw ++ parallel_heads p) (length-self_if f path) (
            joined _ _ (switch_heads sw) (parallel_heads p) (length-self_switch sw path)
              (length-self_parallel p path)))

    length-self_if :
        (f : IfStep) (path : String) → length (self_if self f path) ≡ callers (if_heads f)
    length-self_if no_if path = refl
    length-self_if (if_step c t e) path =
        joined _ _ (heads t) (opt_heads e) (length-check_self t _ 0) (length-self_opt e _)

    length-self_opt :
        (e : OptFlow) (path : String) → length (self_opt self e path) ≡ callers (opt_heads e)
    length-self_opt no_flow path = refl
    length-self_opt (flow f) path = length-check_self f path 0

    length-self_switch :
        (sw : SwitchStep) (path : String)
        → length (self_switch self sw path) ≡ callers (switch_heads sw)
    length-self_switch no_switch path = refl
    length-self_switch (switch_step cs d) path =
        joined _ _ (cases_heads cs) (opt_heads d) (length-self_cases cs path 0)
          (length-self_opt d _)

    length-self_cases :
        (cs : Cases) (path : String) (j : ℕ)
        → length (self_cases self cs path j) ≡ callers (cases_heads cs)
    length-self_cases no_case path j = refl
    length-self_cases (case w f cs) path j =
        joined _ _ (heads f) (cases_heads cs) (length-check_self f _ 0)
          (length-self_cases cs path (suc j))

    length-self_parallel :
        (p : ParallelStep) (path : String)
        → length (self_parallel self p path) ≡ callers (parallel_heads p)
    length-self_parallel no_parallel path = refl
    length-self_parallel (parallel_step bs) path = length-self_branches bs path 0

    length-self_branches :
        (bs : Branches) (path : String) (j : ℕ)
        → length (self_branches self bs path j) ≡ callers (branches_heads bs)
    length-self_branches no_branch path j = refl
    length-self_branches (branch f bs) path j =
        joined _ _ (heads f) (branches_heads bs) (length-check_self f _ 0)
          (length-self_branches bs path (suc j))

  -- The check reports one diagnostic for each step, at any depth, that calls the scenario itself; so
  -- it is silent exactly when no step does.
  pub check_self_counts :
      (f : Flow) → length (check_self self f "flow" 0) ≡ count_if (calls self) (heads f)
  check_self_counts f = length-check_self f "flow" 0
