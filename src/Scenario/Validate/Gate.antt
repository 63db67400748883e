-- ===== src/Scenario/Validate/Gate.antt =====
-- The safety pass on a flow that passed validation.
use home_sentinel.Base.{
  ℕ, zero, suc, ◌≡◌, refl, ap, sym, ◌∙◌, String, str_eq, eq_iff, trim, Bool, true, false, Option,
  none, some, List, [], ◌∷◌, Dict, &&-left, &&-right, Bool-cases, inl, inr, arith,
}
use home_sentinel.Scenario.Model.{
  Value, Expr, ActionStep, StepKind, action, wait, if_kind, switch, parallel, join, human_approval,
  subflow, stop, other, Head, Flow, cons, Step, step, if_step, OptFlow, flow, SwitchStep,
  ParallelStep, no_parallel, parallel_step,
}
use home_sentinel.Scenario.Expression.{valid_token, is_present, valid_condition}
use home_sentinel.Scenario.Validate.{present, has_parallel, valid_flow, valid_steps, valid_step}
use home_sentinel.Scenario.Validate.Payload.{alone, head_of, third, valid_step-alone, valid_step-if}
use home_sentinel.Scenario.Validate.Deep.{
  In, first, within, after, Inside, valid_flow-steps, valid_flow-alone,
}
use home_sentinel.Scenario.Safety.{Descriptor, is_unlock}
use home_sentinel.Scenario.Safety.Walk.{step_id, apply_safety_pass}
use home_sentinel.Scenario.Safety.Gates.{Gated, apply_safety_pass-Gated}
use home_sentinel.Scenario.Safety.Reach.{UnlockIn, is_empty, only_if}

-- A step stands in the flow in sequence, or in a branch of an `if`.
pub data Reached (st : Step) : Flow → Type 0 where
  here : {rest : Flow} → Reached st (cons st rest)
  later : {s : Step} {rest : Flow} → Reached st rest → Reached st (cons s rest)
  in_then :
      {h : Head} {c : Expr} {t : Flow} {e : OptFlow} {sw : SwitchStep} {p : ParallelStep}
      {rest : Flow}
      → Reached st t
      → Reached st (cons (step h (if_step c t e) sw p) rest)
  in_else :
      {h : Head} {c : Expr} {t f : Flow} {sw : SwitchStep} {p : ParallelStep} {rest : Flow}
      → Reached st f
      → Reached st (cons (step h (if_step c t (flow f)) sw p) rest)

pub In-Reached : {st : Step} {f : Flow} → Reached st f → In st f
In-Reached here = first
In-Reached (later r) = after (In-Reached r)
In-Reached (in_then r) = within (Inside.in_then (In-Reached r))
In-Reached (in_else r) = within (Inside.in_else (In-Reached r))

no_empty_token : valid_token "" ≡ false
unfolding valid_token trim
no_empty_token = refl

-- A valid step keeps its own ID in the graphs.
step_id-token :
    (h : Head) (prefix : String) (i : ℕ) → valid_token h.id ≡ true → step_id h prefix i ≡ h.id
unfolding step_id
step_id-token h prefix i v = elim (Bool-cases (str_eq h.id "")) [
  | inl empty ↦ absurd (ground (arith, no_empty_token, ap valid_token ((eq_iff h.id "").0 empty)))
  | inr filled ↦ rw filled refl
]

-- The flags of a valid step with an `if`.
third-alone : (k : StepKind) → third (alone k) ≡ true → alone k ≡ alone if_kind
third-alone if_kind h = refl
third-alone action h = absurd (ground arith)
third-alone wait h = absurd (ground arith)
third-alone switch h = absurd (ground arith)
third-alone parallel h = absurd (ground arith)
third-alone join h = absurd (ground arith)
third-alone human_approval h = absurd (ground arith)
third-alone subflow h = absurd (ground arith)
third-alone stop h = absurd (ground arith)
third-alone (other _) h = absurd (ground arith)

is_empty-absent {ℓ} : {A : Type ℓ} (o : Option A) → is_present o ≡ false → is_empty o ≡ true
is_empty-absent none h = refl
is_empty-absent (some x) h = absurd (ground arith)

-- The first, second, fifth, seventh and eighth of the nine flags.
abbrev flag : ℕ → List Bool → Bool
flag n [] = false
flag zero (b ∷ bs) = b
flag (suc n) (b ∷ bs) = flag n bs

module _ (valid_value : Value → Bool) where
  if-flags :
      (h : Head) (c : Expr) (t : Flow) (e : OptFlow) (sw : SwitchStep) (p : ParallelStep)
      → valid_step valid_value (step h (if_step c t e) sw p) ≡ true
      → present (step h (if_step c t e) sw p) ≡ alone if_kind
  if-flags h c t e sw p v =
      let fits = valid_step-alone valid_value (step h (if_step c t e) sw p) v in
      fits ∙ third-alone h.kind (sym (ap third fits))

  if-only :
      (h : Head) (c : Expr) (t : Flow) (e : OptFlow) (sw : SwitchStep) (p : ParallelStep)
      → valid_step valid_value (step h (if_step c t e) sw p) ≡ true
      → (only_if h ≡ true) × (has_parallel p ≡ false)
  if-only h c t e sw p v =
      let flags = if-flags h c t e sw p v in
      (
        ground (
          arith,
          is_empty-absent h.action (ap (flag 0) flags),
          is_empty-absent h.wait (ap (flag 1) flags),
          is_empty-absent h.human_approval (ap (flag 6) flags),
          is_empty-absent h.subflow (ap (flag 7) flags),
        ),
        ap (flag 4) flags,
      )

  -- The ID under which the safety pass meets a step that acts on a lock.
  pub UnlockIn-Reached :
      {st : Step} {f : Flow} (a : ActionStep)
      → (head_of st).action ≡ some a
      → is_unlock a.capability.id ≡ true
      → valid_token (head_of st).id ≡ true
      → Reached st f
      → (prefix : String) (i : ℕ) → valid_steps valid_value f ≡ true
      → UnlockIn (head_of st).id f prefix i
  unfolding valid_flow
  UnlockIn-Reached {st = step h f sw p} a acts unlock named here prefix i v =
      UnlockIn.here acts unlock (step_id-token h prefix i named)
  UnlockIn-Reached a acts unlock named (later {s} r) prefix i v = UnlockIn.later (
      UnlockIn-Reached a acts unlock named r prefix (suc i)
        (&&-right (valid_step valid_value s) _ v))
  UnlockIn-Reached a acts unlock named (in_then {h} {c} {t} {e} {sw} {p = no_parallel} r) prefix i
        v =
      let fits = &&-left (valid_step valid_value (step h (if_step c t e) sw no_parallel)) _ v in
      let parts =
        &&-right (valid_condition valid_value c) _
          (valid_step-if valid_value h c t e sw no_parallel fits) in
      UnlockIn.in_then (if-only h c t e sw no_parallel fits).0 (
        UnlockIn-Reached a acts unlock named r _ 0
          (valid_flow-steps valid_value t (&&-left (valid_flow valid_value t) _ parts)))
  UnlockIn-Reached a acts unlock named (in_else {h} {c} {t} {f} {sw} {p = no_parallel} r) prefix i
        v =
      let fits =
        &&-left (valid_step valid_value (step h (if_step c t (flow f)) sw no_parallel)) _ v in
      let parts =
        &&-right (valid_condition valid_value c) _
          (valid_step-if valid_value h c t (flow f) sw no_parallel fits) in
      UnlockIn.in_else (if-only h c t (flow f) sw no_parallel fits).0 (
        UnlockIn-Reached a acts unlock named r _ 0
          (valid_flow-steps valid_value f (&&-right (valid_flow valid_value t) _ parts)))
  UnlockIn-Reached a acts unlock named (in_then {h} {c} {t} {e} {sw} {p = parallel_step bs} r)
        prefix i v =
      let fits =
        &&-left (valid_step valid_value (step h (if_step c t e) sw (parallel_step bs))) _ v in
      absurd (ground (arith, (if-only h c t e sw (parallel_step bs) fits).1))
  UnlockIn-Reached a acts unlock named (in_else {h} {c} {t} {f} {sw} {p = parallel_step bs} r)
        prefix i v =
      let fits =
        &&-left (valid_step valid_value (step h (if_step c t (flow f)) sw (parallel_step bs))) _
          v in
      absurd (ground (arith, (if-only h c t (flow f) sw (parallel_step bs) fits).1))

  -- In a valid flow, for each step that unlocks, in sequence or in a branch of an `if`, the system graph
  -- holds five nodes: a human approval, a lock and a read, which point on in this order to the step's
  -- action, and this to a verification. The whole graph is a chain: each node points at the node after it
  -- in the graph and at nothing else.
  pub valid_flow-Gated :
      (resolved : Dict Descriptor) (f : Flow) (st : Step) (a : ActionStep)
      → valid_flow valid_value f ≡ true
      → Reached st f
      → (head_of st).action ≡ some a
      → is_unlock a.capability.id ≡ true
      → Gated (head_of st).id (apply_safety_pass resolved f).system_nodes
  valid_flow-Gated resolved f st a v r acts unlock =
      apply_safety_pass-Gated resolved (head_of st).id f (
        UnlockIn-Reached a acts unlock (valid_flow-alone valid_value f st v (In-Reached r)).1 r
          "flow" 0 (valid_flow-steps valid_value f v))
