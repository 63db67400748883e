-- ===== src/Scenario/Conflicts/Unreachable.antt =====
-- The check for unreachable steps is silent exactly when a stop is the last step of its flow.
use home_sentinel.Base.{
  ℕ, suc, ◌≡◌, ◌↔◌, refl, String, ◌<>◌, Bool, true, false, ◌||◌, List, [], ◌++◌, append-eq-nil,
  arith,
}
use home_sentinel.Scenario.Model.{
  Head, Flow, nil, cons, Step, step, IfStep, no_if, if_step, OptFlow, no_flow, flow, SwitchStep,
  no_switch, switch_step, Cases, no_case, case, Branches, parallel_step,
}
use home_sentinel.Scenario.Conflicts.{
  Diagnostic, step_stops, step_path, case_path, unreachable_here, check_unreachable,
  unreachable_step_in, unreachable_if, unreachable_opt, unreachable_switch, unreachable_cases,
}

abbrev IsNil : Flow → Type 0
IsNil nil = Unit
IsNil (cons st rest) = ⊥

-- No step follows a stop, in the flow and in the flows of its `if` and `switch` steps.
abbrev mutual
  pub StopsLast : Flow → Type 0
  StopsLast nil = Unit
  StopsLast (cons st rest) =
      StepStopsLast st × ((step_stops st ≡ true → IsNil rest) × StopsLast rest)

  pub StepStopsLast : Step → Type 0
  StepStopsLast (step h f sw p) = IfStopsLast f × SwitchStopsLast sw

  pub IfStopsLast : IfStep → Type 0
  IfStopsLast no_if = Unit
  IfStopsLast (if_step c t e) = StopsLast t × OptStopsLast e

  pub OptStopsLast : OptFlow → Type 0
  OptStopsLast no_flow = Unit
  OptStopsLast (flow f) = StopsLast f

  pub SwitchStopsLast : SwitchStep → Type 0
  SwitchStopsLast no_switch = Unit
  SwitchStopsLast (switch_step cs d) = CasesStopsLast cs × OptStopsLast d

  pub CasesStopsLast : Cases → Type 0
  CasesStopsLast no_case = Unit
  CasesStopsLast (case w f cs) = StopsLast f × CasesStopsLast cs

both :
    (xs ys : List Diagnostic) {P Q : Type 0}
    → (xs ≡ []) ↔ P
    → (ys ≡ []) ↔ Q
    → (xs ++ ys ≡ []) ↔ (P × Q)
both xs ys p q =
    let (split, join) = append-eq-nil xs ys in
    ((λ h. (p.0 (split h).0, q.0 (split h).1)), λ h. join (p.1 h.0, q.1 h.1))

unreachable_here-silent :
    (s : Bool) (path : String) → (unreachable_here s path ≡ []) ↔ (s ≡ true → ⊥)
unreachable_here-silent true path = ((λ h. cc), λ h. absurd (h refl))
unreachable_here-silent false path = ((λ h e. cc), λ h. refl)

-- The flag of the source, put together with what follows a step.
flagged :
    (s t : Bool) {I P R : Type 0}
    → ((s ≡ true → ⊥) × (P × ((((s || t) ≡ true) → I) × R)))
      ↔ ((s ≡ true → ⊥) × (P × ((t ≡ true → I) × R)))
flagged true t = ((λ h. absurd (h.0 refl)), λ h. absurd (h.0 refl))
flagged false t = ((λ h. h), λ h. h)

mutual
  unfolding check_unreachable

  flow-silent :
      (f : Flow) (path : String) (i : ℕ) (s : Bool)
      → (check_unreachable f path i s ≡ []) ↔ ((s ≡ true → IsNil f) × StopsLast f)
  flow-silent nil path i s = ((λ _. ((λ _. tt), tt)), λ _. refl)
  flow-silent (cons st rest) path i s =
      let parts =
        both (unreachable_here s (step_path path i)) _
          (unreachable_here-silent s (step_path path i))
          (both (unreachable_step_in st (step_path path i)) _ (step-silent st (step_path path i))
            (flow-silent rest path (suc i) (s || step_stops st))) in
      let flags = flagged s (step_stops st) in
      ((λ h. flags.0 (parts.0 h)), λ h. parts.1 (flags.1 h))

  step-silent : (st : Step) (path : String) → (unreachable_step_in st path ≡ []) ↔ StepStopsLast st
  step-silent (step h f sw p) path =
      both (unreachable_if f path) _ (if-silent f path) (switch-silent sw path)

  if-silent : (f : IfStep) (path : String) → (unreachable_if f path ≡ []) ↔ IfStopsLast f
  if-silent no_if path = ((λ _. tt), λ _. refl)
  if-silent (if_step c t e) path =
      let inner = flow-silent t (path <> ".if.then") 0 false in
      both (check_unreachable t (path <> ".if.then") 0 false) _
        ((λ h. (inner.0 h).1), λ h. inner.1 ((λ e. absurd (ground arith)), h))
        (opt-silent e (path <> ".if.else"))

  opt-silent : (e : OptFlow) (path : String) → (unreachable_opt e path ≡ []) ↔ OptStopsLast e
  opt-silent no_flow path = ((λ _. tt), λ _. refl)
  opt-silent (flow f) path =
      let inner = flow-silent f path 0 false in
      ((λ h. (inner.0 h).1), λ h. inner.1 ((λ e. absurd (ground arith)), h))

  switch-silent :
      (sw : SwitchStep) (path : String) → (unreachable_switch sw path ≡ []) ↔ SwitchStopsLast sw
  switch-silent no_switch path = ((λ _. tt), λ _. refl)
  switch-silent (switch_step cs d) path =
      both (unreachable_cases cs path 0) _ (cases-silent cs path 0) (opt-silent d _)

  cases-silent :
      (cs : Cases) (path : String) (j : ℕ) → (unreachable_cases cs path j ≡ []) ↔ CasesStopsLast cs
  cases-silent no_case path j = ((λ _. tt), λ _. refl)
  cases-silent (case w f cs) path j =
      let inner = flow-silent f (case_path path j) 0 false in
      both (check_unreachable f (case_path path j) 0 false) _
        ((λ h. (inner.0 h).1), λ h. inner.1 ((λ e. absurd (ground arith)), h))
        (cases-silent cs path (suc j))

-- The check warns of no step exactly when each stop is the last step of its flow, in the flow and in
-- the flows of its `if` and `switch` steps.
pub check_unreachable-silent : (f : Flow) → (check_unreachable f "flow" 0 false ≡ []) ↔ StopsLast f
check_unreachable-silent f =
    let whole = flow-silent f "flow" 0 false in
    ((λ h. (whole.0 h).1), λ h. whole.1 ((λ e. absurd (ground arith)), h))

-- Flows in parallel branches are not looked into: whatever they hold, a parallel step gets no warning.
pub check_unreachable-parallel :
    (h : Head) (bs : Branches)
    → check_unreachable (cons (step h no_if no_switch (parallel_step bs)) nil) "flow" 0 false ≡ []
unfolding check_unreachable
check_unreachable-parallel h bs = refl
