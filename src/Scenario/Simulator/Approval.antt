-- ===== src/Scenario/Simulator/Approval.antt =====
-- What the simulator records as executed, and under which approvals.
use home_sentinel.Base.{
  ◌≡◌, ◌≢◌, refl, ℕ, List, String, ◌<>◌, Bool, true, false, Option, none, some, [], ◌∷◌, ◌++◌, ℤ,
  pos, negsuc, Bool-cases, Option-cases, inl, inr, arith,
}
use home_sentinel.Scenario.Model.{
  Expr, ActionStep, StepKind, action, wait, if_kind, switch, parallel, join, human_approval,
  subflow, stop, other, Head, Flow, nil, cons, Step, step, IfStep, no_if, if_step, OptFlow, no_flow,
  flow, SwitchStep, ParallelStep,
}
use home_sentinel.Scenario.Validate.Deep.{In, Inside, first, within, after as after_step}
use home_sentinel.Scenario.Simulator.{
  Effect, Outcome, would_execute, approved, branch_on, Trace, Sim, Signal, go_on, halt, panic,
  trace, is_unlock, advance, would, reject, after, is_approved, act, approve, by_kind, execute,
  execute_step, execute_if, execute_else,
}

-- The outcome of an effect.
abbrev pub records : Outcome → Bool
records would_execute = true
records _ = false

-- `Held` is what is known of the heads of a flow's steps.
module _ (decide : Expr → Option Bool) (approvals : String → Option Bool)
    (Held : Head → Type 0) where
  -- A property of the result that each case of the `switch` keeps.
  pub record Kept (P : Sim → Type 0) : Type 0 where
    pub keep_act :
        (h : Head) (a : ActionStep) (s : Sim)
        → Held h
        → h.action ≡ some a
        → P s
        → P (act decide approvals h.id a s).1
    pub keep_trace :
        (id : String) (o : Outcome) (s : Sim) → records o ≡ false → P s → P (trace id false o s)
    pub keep_advance : (d : ℤ) (s : Sim) → P s → P (advance d s)
    pub keep_reject : (s : Sim) → P s → P (reject s)
    pub keep_error : (id : String) (s : Sim) → P s → P (record s { errors = s.errors ++ id ∷ [] })

  module _ (P : Sim → Type 0) (k : Kept P) where
    approve-keeps : (id : String) (s : Sim) → P s → P (approve decide approvals id s).1
    unfolding approve
    approve-keeps id s p = elim (Bool-cases (is_approved decide approvals id)) [
      | inl agreed ↦ rw (approve, agreed) (k.keep_trace id _ s refl p)
      | inr without ↦ rw (approve, without) (k.keep_reject _ (k.keep_trace id _ s refl p))
    ]

    after-keeps :
        (r : Signal × Sim) (next : Sim → Signal × Sim)
        → P r.1
        → ((s : Sim) → P s → P (next s).1)
        → P (after r next).1
    after-keeps (go_on, s) next p f = f s p
    after-keeps (halt, s) next p f = p
    after-keeps (panic, s) next p f = p

    by_kind-keeps :
        (kind : StepKind) (h : Head) (branches : Signal × Sim) (s : Sim)
        → Held h
        → P branches.1
        → P s
        → P (by_kind decide approvals kind h branches s).1
    unfolding by_kind
    by_kind-keeps action h b s held pb p = elim (Option-cases h.action) [
      | inl none_ ↦ rw none_ p
      | inr (a, there) ↦ rw there (k.keep_act h a s held there p)
    ]
    by_kind-keeps wait h b s held pb p = elim (Option-cases h.wait) [
      | inl none_ ↦ rw none_ p
      | inr (w, there) ↦ rw there (k.keep_trace h.id _ _ refl (k.keep_advance w.duration s p))
    ]
    by_kind-keeps human_approval h b s held pb p = elim (Option-cases h.human_approval) [
      | inl none_ ↦ rw none_ p
      | inr (_, there) ↦ rw there (approve-keeps h.id s p)
    ]
    by_kind-keeps stop h b s held pb p = elim (Option-cases h.stop) [
      | inl none_ ↦ rw none_ p
      | inr (t, there) ↦ rw there (k.keep_trace h.id _ s refl p)
    ]
    by_kind-keeps if_kind h b s held pb p = pb
    by_kind-keeps switch h b s held pb p = p
    by_kind-keeps parallel h b s held pb p = p
    by_kind-keeps join h b s held pb p = p
    by_kind-keeps subflow h b s held pb p = p
    by_kind-keeps (other _) h b s held pb p = p

    branch-keeps :
        (o : Option Bool) (id : String) (s : Sim) (then_ else_ : Signal × Sim)
        → P s
        → P then_.1
        → P else_.1
        → P (branch_on o id s then_ else_).1
    branch-keeps none id s t e p pt pe = k.keep_error id s p
    branch-keeps (some true) id s t e p pt pe = pt
    branch-keeps (some false) id s t e p pt pe = pe

    -- What is known of each step of a flow, of each step inside a step.
    abbrev pub AllHeld : Flow → Type 0
    AllHeld g =
        (h : Head) (f : IfStep) (sw : SwitchStep) (p : ParallelStep) → In (step h f sw p) g → Held h

    abbrev InnerHeld : Step → Type 0
    InnerHeld st =
        (h : Head) (f : IfStep) (sw : SwitchStep) (p : ParallelStep)
        → Inside (step h f sw p) st
        → Held h

    mutual
      unfolding execute

      pub execute-keeps :
          (f : Flow) (s : Sim) → AllHeld f → P s → P (execute decide approvals f s).1
      execute-keeps nil s held p = p
      execute-keeps (cons (step h f sw b) rest) s held p =
          after-keeps (execute_step decide approvals (step h f sw b) s)
            (execute decide approvals rest)
            (by_kind-keeps h.kind h (execute_if decide approvals f h.id s) s (held h f sw b first)
              (if-keeps f h sw b h.id s (λ h' f' sw' b' m. held h' f' sw' b' (within m)) p) p)
            (λ s' q. execute-keeps rest s' (λ h' f' sw' b' m. held h' f' sw' b' (after_step m)) q)

      if-keeps :
          (f : IfStep) (h : Head) (sw : SwitchStep) (b : ParallelStep) (id : String) (s : Sim)
          → InnerHeld (step h f sw b)
          → P s
          → P (execute_if decide approvals f id s).1
      if-keeps no_if h sw b id s held p = p
      if-keeps (if_step c t e) h sw b id s held p =
          branch-keeps (decide c) id s _ _ p
            (execute-keeps t _ (λ h' f' sw' b' m. held h' f' sw' b' (Inside.in_then m))
              (k.keep_trace id _ s refl p))
            (else-keeps e c t h sw b id s held p)

      else-keeps :
          (e : OptFlow) (c : Expr) (t : Flow) (h : Head) (sw : SwitchStep) (b : ParallelStep)
          (id : String) (s : Sim)
          → InnerHeld (step h (if_step c t e) sw b)
          → P s
          → P (execute_else decide approvals e id s).1
      else-keeps no_flow c t h sw b id s held p = p
      else-keeps (flow f) c t h sw b id s held p =
          execute-keeps f _ (λ h' f' sw' b' m. held h' f' sw' b' (Inside.in_else m))
            (k.keep_trace id _ s refl p)

-- The trace of an effect of a step, and of the approval before it, with the time of the effect.
abbrev pub did : Head → Effect → Trace
did h e = record {
  step_id = h.id;
  system_owned = false;
  outcome = would_execute;
  timestamp = e.timestamp;
}

abbrev pub asked : Head → Effect → Trace
asked h e = record {
  step_id = "safety_approval_" <> h.id;
  system_owned = true;
  outcome = approved;
  timestamp = e.timestamp;
}

-- The traces that stand for an effect or for an approval by the system.
abbrev pub accounts : Trace → Bool
accounts t = elim t.outcome [ would_execute ↦ true | approved ↦ t.system_owned | _ ↦ false ]

unaccounted :
    (id : String) (now : ℕ) (o : Outcome)
    → records o ≡ false
    → accounts (record { step_id = id; system_owned = false; outcome = o; timestamp = now }) ≡ false
unaccounted id now would_execute h = absurd (ground (arith, h))
unaccounted id now approved h = refl
unaccounted id now _ h = refl

-- A step stands somewhere in a flow.
abbrev pub HeadIn : Flow → Head → Type 0
HeadIn g h = (f : IfStep) × (sw : SwitchStep) × (p : ParallelStep) × In (step h f sw p) g

-- Traces and effects that go together: each effect is that of an action of the flow and has a trace under
-- the step's ID; directly before the trace of an unlock, and nowhere else, stands the system's approval of
-- the same step, at the same time, and nobody denied that step.
pub data Accounted (approvals : String → Option Bool) (g : Flow)
    : List Trace → List Effect → Type 0 where
  nothing : Accounted approvals g [] []
  other_trace :
      {ts : List Trace} {es : List Effect}
      → (t : Trace) → Accounted approvals g ts es
      → accounts t ≡ false
      → Accounted approvals g (ts ++ t ∷ []) es
  acted :
      {ts : List Trace} {es : List Effect}
      → (h : Head) (a : ActionStep) (e : Effect) → Accounted approvals g ts es
      → HeadIn g h
      → h.action ≡ some a
      → e.capability_id ≡ a.capability.id
      → is_unlock a.capability.id ≡ false
      → Accounted approvals g (ts ++ did h e ∷ []) (es ++ e ∷ [])
  unlocked :
      {ts : List Trace} {es : List Effect}
      → (h : Head) (a : ActionStep) (e : Effect) → Accounted approvals g ts es
      → HeadIn g h
      → h.action ≡ some a
      → e.capability_id ≡ a.capability.id
      → is_unlock a.capability.id ≡ true
      → approvals h.id ≢ some false
      → Accounted approvals g ((ts ++ asked h e ∷ []) ++ did h e ∷ []) (es ++ e ∷ [])

module _ (decide : Expr → Option Bool) (approvals : String → Option Bool) (g : Flow) where
  abbrev IsAccounted : Sim → Type 0
  IsAccounted s = Accounted approvals g s.traces s.effects

  act-Accounted :
      (h : Head) (a : ActionStep) (s : Sim)
      → HeadIn g h
      → h.action ≡ some a
      → IsAccounted s
      → IsAccounted (act decide approvals h.id a s).1
  unfolding act would
  act-Accounted h a s held acts b = elim (Bool-cases (is_unlock a.capability.id)) [
    | inl unlock ↦ elim (Bool-cases (is_approved decide approvals h.id)) [
      | inl agreed ↦
          rw (unlock, agreed) (unlocked h a _ b held acts refl unlock (not_denied agreed))
      | inr without ↦ rw (unlock, without) (other_trace _ b refl)
    ]
    | inr plain ↦ rw (plain) (acted h a _ b held acts refl plain)
  ]
    where
      not_denied : is_approved decide approvals h.id ≡ true → approvals h.id ≢ some false
      not_denied y e = ground (arith, y, e)

  advance-Accounted : (d : ℤ) (s : Sim) → IsAccounted s → IsAccounted (advance d s)
  advance-Accounted (pos d) s b = b
  advance-Accounted (negsuc d) s b = b

  -- Whatever `executeFlow` does with a flow, from a result without traces and effects on, each effect that it
  -- records is that of an action step of the flow, in the order of the traces. An unlock is recorded only for
  -- a step that the approvals do not deny, and the trace of its step stands directly behind the system's
  -- approval of this very step, at the time of the effect; there is no other approval by the system.
  pub execute-Accounted :
      (s : Sim)
      → s.traces ≡ []
      → s.effects ≡ []
      → Accounted approvals g
          (execute decide approvals g s).1.traces
          (execute decide approvals g s).1.effects
  execute-Accounted s no_trace no_effect =
      execute-keeps decide approvals (HeadIn g) IsAccounted
        (record {
          keep_act = act-Accounted;
          keep_trace = λ id o s quiet b. other_trace _ b (unaccounted id s.clock o quiet);
          keep_advance = advance-Accounted;
          keep_reject = λ s b. b;
          keep_error = λ id s b. b;
        })
        g s (λ h f sw p m. (f, sw, p, m)) (rw (no_trace, no_effect) nothing)
