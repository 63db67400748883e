-- ===== src/Scenario/Simulator/Outcomes.antt =====
-- What a rejection and an error in a condition do to the result.
use home_sentinel.Base.{
  ◌≡◌, refl, String, Bool, false, Option, none, some, [], ◌∷◌, ◌++◌, All, All-append, ℤ, pos,
  negsuc, Bool-cases, inl, inr,
}
use home_sentinel.Scenario.Model.{
  Expr, ActionStep, if_kind, Head, Flow, cons, step, if_step, OptFlow, SwitchStep, ParallelStep,
}
use home_sentinel.Scenario.Simulator.{
  no_outcome, completed, Sim, go_on, is_unlock, would, advance, is_approved, act, by_kind, execute,
  closed,
}
use home_sentinel.Scenario.Simulator.Approval.{execute-keeps}

abbrev pub Locked : Sim → Type 0
Locked s = All (λ e. is_unlock e.capability_id ≡ false) s.effects

module _ (decide : Expr → Option Bool) (approvals : String → Option Bool) where
  act-Locked :
      ((id : String) → approvals id ≡ some false)
      → (id : String) (a : ActionStep) (s : Sim) → Locked s
      → Locked (act decide approvals id a s).1
  unfolding act would
  act-Locked refuse id a s l = elim (Bool-cases (is_unlock a.capability.id)) [
    | inl unlock ↦
        let refused : is_approved decide approvals id ≡ false = rw (is_approved, refuse id) refl in
        rw (act, unlock, refused) l
    | inr plain ↦ rw (act, plain) (All-append _ s.effects (_ ∷ []) l (plain, tt))
  ]

  advance-Locked : (d : ℤ) (s : Sim) → Locked s → Locked (advance d s)
  advance-Locked (pos d) s l = l
  advance-Locked (negsuc d) s l = l

  -- Where every approval is refused, the simulator records no unlock as executed.
  pub execute-Locked :
      ((id : String) → approvals id ≡ some false)
      → (f : Flow) (s : Sim) → Locked s
      → Locked (execute decide approvals f s).1
  execute-Locked refuse f s l =
      execute-keeps decide approvals (λ h. Unit) Locked
        (record {
          keep_act = λ h a s held there l. act-Locked refuse h.id a s l;
          keep_trace = λ id o s quiet l. l;
          keep_advance = advance-Locked;
          keep_reject = λ s l. l;
          keep_error = λ id s l. l;
        })
        f s (λ h f sw p m. tt) l

  -- A flow that reaches an `if` whose condition has an error ends there: the error is listed, and yet
  -- the result is completed, and counts as passed if it did before.
  pub if_error-completed :
      (h : Head) (c : Expr) (t : Flow) (e : OptFlow) (sw : SwitchStep) (p : ParallelStep)
      (rest : Flow) (s : Sim)
      → h.kind ≡ if_kind
      → decide c ≡ none
      → s.final ≡ no_outcome
      → closed decide approvals
          (execute decide approvals (cons (step h (if_step c t e) sw p) rest) s)
        ≡ (go_on, record s { errors = s.errors ++ h.id ∷ []; final = completed })
  unfolding execute by_kind
  if_error-completed h c t e sw p rest s kind unknown unset = rw (kind, unknown, unset) refl
