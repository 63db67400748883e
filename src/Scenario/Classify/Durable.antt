-- ===== src/Scenario/Classify/Durable.antt =====
-- Nothing that takes time is selected for the reactive runtime.
use home_sentinel.Base.{
  ◌≡◌, refl, false, Option, none, some, List, [], ◌∷◌, ◌++◌, All, All-append, append-eq-nil, map,
  Bool-cases, inl, inr, arith, is_pos, Dict, if◌then◌else◌,
}
use home_sentinel.Scenario.Model.{
  WaitStep, HumanApprovalStep, Head, Flow, nil, cons, Step, step, IfStep, no_if, if_step, OptFlow,
  no_flow, flow, SwitchStep, no_switch, switch_step, Cases, no_case, case, ParallelStep,
  no_parallel, parallel_step, Branches, no_branch, branch,
}
use home_sentinel.Scenario.Tree.{
  heads, step_heads, if_heads, opt_heads, switch_heads, cases_heads, parallel_heads, branches_heads,
}
use home_sentinel.Scenario.Safety.{Descriptor, Analysis}
use home_sentinel.Scenario.Safety.Walk.{apply_safety_pass}
use home_sentinel.Scenario.Temporal.{
  Trigger, Requirement, wait_requirements, approval_requirements, own_requirements, scan_flow,
  scan_step, scan_if, scan_opt, scan_switch, scan_cases, scan_parallel, scan_branches,
  trigger_requirements, analyze_temporal,
}
use home_sentinel.Scenario.Classify.{
  axiom_runtime, adgo, Cause, by_safety, durable_causes, inspect_flow, causes, classify,
  select_runtime,
}

-- A step that neither waits nor limits the time of an approval.
abbrev pub Immediate : Head → Type 0
Immediate h =
    (h.wait ≡ none)
    × ((a : HumanApprovalStep) → h.human_approval ≡ some a → is_pos a.timeout ≡ false)

abbrev Passing : Requirement → Type 0
Passing r = r.durable ≡ false

All-split :
    (P : Requirement → Type 0) (xs ys : List Requirement) → All P (xs ++ ys) → All P xs × All P ys
All-split P [] ys a = (tt, a)
All-split P (x ∷ xs) ys (p, a) = let (l, r) = All-split P xs ys a in ((p, l), r)

wait-none : (w : Option WaitStep) → All Passing (wait_requirements w) → w ≡ none
wait-none none a = refl
wait-none (some w) a = absurd (ground (arith, a.0))

approval-untimed :
    (o : Option HumanApprovalStep)
    → All Passing (approval_requirements o)
    → (a : HumanApprovalStep) → o ≡ some a
    → is_pos a.timeout ≡ false
approval-untimed none all a e = absurd (ground (arith, e))
approval-untimed (some b) all a e = elim (Bool-cases (is_pos b.timeout)) [
  | inl timed ↦ absurd (ground (arith, all, timed))
  | inr free ↦ ground (arith, e, free)
]

own-Immediate : (h : Head) → All Passing (own_requirements h) → Immediate h
own-Immediate h all =
    let (w, a) =
      All-split Passing (wait_requirements h.wait) (approval_requirements h.human_approval) all in
    (wait-none h.wait w, approval-untimed h.human_approval a)

-- Requirements and steps, put together alike.
both :
    (xs ys : List Requirement) (hs ks : List Head)
    → (All Passing xs → All Immediate hs)
    → (All Passing ys → All Immediate ks)
    → All Passing (xs ++ ys)
    → All Immediate (hs ++ ks)
both xs ys hs ks f g all =
    let (l, r) = All-split Passing xs ys all in All-append Immediate hs ks (f l) (g r)

mutual
  unfolding scan_flow heads

  flow-Immediate : (f : Flow) → All Passing (scan_flow f) → All Immediate (heads f)
  flow-Immediate nil all = tt
  flow-Immediate (cons st rest) all =
      both (scan_step st) (scan_flow rest) (step_heads st) (heads rest) (step-Immediate st)
        (flow-Immediate rest) all

  step-Immediate : (st : Step) → All Passing (scan_step st) → All Immediate (step_heads st)
  step-Immediate (step h f sw p) all =
      both (own_requirements h) (scan_if f ++ (scan_switch sw ++ scan_parallel p)) (h ∷ [])
        (if_heads f ++ (switch_heads sw ++ parallel_heads p)) (λ a. (own-Immediate h a, tt))
        (both (scan_if f) (scan_switch sw ++ scan_parallel p) (if_heads f)
          (switch_heads sw ++ parallel_heads p) (if-Immediate f)
          (both (scan_switch sw) (scan_parallel p) (switch_heads sw) (parallel_heads p)
            (switch-Immediate sw) (parallel-Immediate p)))
        all

  if-Immediate : (f : IfStep) → All Passing (scan_if f) → All Immediate (if_heads f)
  if-Immediate no_if all = tt
  if-Immediate (if_step c t e) all =
      both (scan_flow t) (scan_opt e) (heads t) (opt_heads e) (flow-Immediate t) (opt-Immediate e)
        all

  opt-Immediate : (e : OptFlow) → All Passing (scan_opt e) → All Immediate (opt_heads e)
  opt-Immediate no_flow all = tt
  opt-Immediate (flow f) all = flow-Immediate f all

  switch-Immediate :
      (sw : SwitchStep) → All Passing (scan_switch sw) → All Immediate (switch_heads sw)
  switch-Immediate no_switch all = tt
  switch-Immediate (switch_step cs d) all =
      both (scan_cases cs) (scan_opt d) (cases_heads cs) (opt_heads d) (cases-Immediate cs)
        (opt-Immediate d) all

  cases-Immediate : (cs : Cases) → All Passing (scan_cases cs) → All Immediate (cases_heads cs)
  cases-Immediate no_case all = tt
  cases-Immediate (case w f cs) all =
      both (scan_flow f) (scan_cases cs) (heads f) (cases_heads cs) (flow-Immediate f)
        (cases-Immediate cs) all

  parallel-Immediate :
      (p : ParallelStep) → All Passing (scan_parallel p) → All Immediate (parallel_heads p)
  parallel-Immediate no_parallel all = tt
  parallel-Immediate (parallel_step bs) all = branches-Immediate bs all

  branches-Immediate :
      (bs : Branches) → All Passing (scan_branches bs) → All Immediate (branches_heads bs)
  branches-Immediate no_branch all = tt
  branches-Immediate (branch f bs) all =
      both (scan_flow f) (scan_branches bs) (heads f) (branches_heads bs) (flow-Immediate f)
        (branches-Immediate bs) all

durable_causes-Passing : (rs : List Requirement) → durable_causes rs ≡ [] → All Passing rs
unfolding durable_causes
durable_causes-Passing [] h = tt
durable_causes-Passing (r ∷ rs) h = elim (Bool-cases r.durable) [
  | inl durable ↦ absurd (ground (arith, h, durable))
  | inr brief ↦ (brief, durable_causes-Passing rs (ground (arith, h, brief)))
]

axiom-no_causes :
    (resolved : Dict Descriptor) (f : Flow) (rs : List Requirement) (s : Analysis)
    → classify resolved f rs s ≡ axiom_runtime
    → causes resolved f rs s ≡ []
unfolding classify
axiom-no_causes resolved f rs s = go (causes resolved f rs s)
  where
    go :
        (cs : List Cause)
        → (elim cs [ [] ↦ axiom_runtime | _ ∷ _ ↦ adgo ]) ≡ axiom_runtime
        → cs ≡ []
    go [] h = refl
    go (c ∷ cs) h = absurd (ground (arith, h))

-- A scenario that is given to the reactive runtime has no wait and no approval with a time limit, at
-- any depth: in the branches of an `if`, of a `switch` and of a parallel step.
pub select_runtime-Immediate :
    (resolved : Dict Descriptor) (triggers : List Trigger) (f : Flow)
    → select_runtime resolved triggers f ≡ axiom_runtime
    → All Immediate (heads f)
unfolding select_runtime causes analyze_temporal
select_runtime-Immediate resolved triggers f h =
    let rs = analyze_temporal triggers f in
    let s = apply_safety_pass resolved f in
    let (split, _) =
      append-eq-nil (if s.requires_adgo then map by_safety s.reasons else [])
        (durable_causes rs ++ inspect_flow resolved f) in
    let (split2, _) = append-eq-nil (durable_causes rs) (inspect_flow resolved f) in
    let brief =
      durable_causes-Passing rs (split2 (split (axiom-no_causes resolved f rs s h)).1).0 in
    flow-Immediate f (All-split Passing (trigger_requirements triggers) (scan_flow f) brief).1
