-- ===== src/Scenario/Safety/Reach.antt =====
-- What the walk establishes at an unlock action and keeps from there on.
use home_sentinel.Base.{
  ℕ, suc, ◌≡◌, refl, subst, sym, ap, ◌<>◌, String, Bool, true, false, Option, none, some, Dict,
  ◌&&◌,
}
use home_sentinel.Scenario.Model.{
  Expr, ActionStep, HumanApprovalStep, WaitStep, SubflowStep, Head, Flow, cons, Step, step, IfStep,
  if_step, OptFlow, no_flow, flow, SwitchStep, ParallelStep, no_parallel,
}
use home_sentinel.Scenario.Safety.{Descriptor, Analysis, is_unlock}
use home_sentinel.Scenario.Safety.Walk.{
  visit_action, choose, visit_step, step_id, walk_flow, apply_safety_pass,
}
use home_sentinel.Scenario.Safety.Chain.{Kept, walk_flow-keeps}

-- An unlock action stands in the flow under the step ID `id`, in sequence or in a branch of an `if`.
-- A step has one payload, so that a step with an `if` has none of those that the walk tries before.
abbrev pub is_empty {ℓ} : {A : Type ℓ} → Option A → Bool
is_empty none = true
is_empty (some _) = false

abbrev pub only_if : Head → Bool
only_if h =
    is_empty h.action && (is_empty h.human_approval && (is_empty h.wait && is_empty h.subflow))

pub data UnlockIn (id : String) : Flow → String → ℕ → Type 0 where
  here :
      {h : Head} {a : ActionStep} {f : IfStep} {sw : SwitchStep} {p : ParallelStep} {rest : Flow}
      {prefix : String} {i : ℕ}
      → h.action ≡ some a
      → is_unlock a.capability.id ≡ true
      → step_id h prefix i ≡ id
      → UnlockIn id (cons (step h f sw p) rest) prefix i
  later :
      {st : Step} {rest : Flow} {prefix : String} {i : ℕ}
      → UnlockIn id rest prefix (suc i)
      → UnlockIn id (cons st rest) prefix i
  in_then :
      {h : Head} {c : Expr} {t : Flow} {e : OptFlow} {sw : SwitchStep} {rest : Flow}
      {prefix : String} {i : ℕ}
      → only_if h ≡ true
      → UnlockIn id t (step_id h prefix i <> "_then") 0
      → UnlockIn id (cons (step h (if_step c t e) sw no_parallel) rest) prefix i
  in_else :
      {h : Head} {c : Expr} {t f : Flow} {sw : SwitchStep} {rest : Flow} {prefix : String} {i : ℕ}
      → only_if h ≡ true
      → UnlockIn id f (step_id h prefix i <> "_else") 0
      → UnlockIn id (cons (step h (if_step c t (flow f)) sw no_parallel) rest) prefix i

module _ (resolved : Dict Descriptor) where
  visit_step-action :
      (h : Head) (p : ParallelStep) (id : String) (s inner : Analysis) (a : ActionStep)
      → h.action ≡ some a
      → visit_step resolved h p id s inner ≡ visit_action resolved id a s
  unfolding visit_step choose
  visit_step-action h p id s inner a e = rw e

  choose_empty :
      (id : String) (s inner : Analysis) (a : Option ActionStep) (ap : Option HumanApprovalStep)
      (w : Option WaitStep) (f : Option SubflowStep)
      → (is_empty a && (is_empty ap && (is_empty w && is_empty f))) ≡ true
      → choose resolved id s inner a ap w f no_parallel ≡ inner
  unfolding choose
  choose_empty id s inner none none none none e = refl
  choose_empty id s inner (some _) ap w f e = cc
  choose_empty id s inner none (some _) w f e = cc
  choose_empty id s inner none none (some _) f e = cc
  choose_empty id s inner none none none (some _) e = cc

  pub visit_step-if :
      (h : Head) (id : String) (s inner : Analysis)
      → only_if h ≡ true
      → visit_step resolved h no_parallel id s inner ≡ inner
  unfolding visit_step
  visit_step-if h id s inner e =
      choose_empty id s inner h.action h.human_approval h.wait h.subflow e

  -- A property of the analysis, for each ID, that the walk keeps and that an unlock establishes.
  module _ (P : String → Analysis → Type 0) (k : (id : String) → Kept resolved (P id))
      (sets : (id : String) (a : ActionStep) (s : Analysis)
        → is_unlock a.capability.id ≡ true
        → P id (visit_action resolved id a s)) where
    abbrev keeps_flow :
        (id : String) (f : Flow) (prefix : String) (i : ℕ) (s : Analysis)
        → P id s
        → P id (walk_flow resolved f prefix i s)
    keeps_flow id = walk_flow-keeps resolved (P id) (k id)

    walk_flow-reaches :
        {id : String} {f : Flow} {prefix : String} {i : ℕ} (u : UnlockIn id f prefix i)
        (s : Analysis)
        → P id (walk_flow resolved f prefix i s)
    unfolding walk_flow
    walk_flow-reaches {id}
          (here {h} {a} {p = p} {rest = rest} {prefix = prefix} {i = i} acts unlock named) s =
        keeps_flow id rest prefix (suc i) _ (
          rw (visit_step-action h p _ s _ a acts)
            (subst (λ j. P id (visit_action resolved j a s)) (sym named) (sets id a s unlock)))
    walk_flow-reaches (later u) s = walk_flow-reaches u _
    walk_flow-reaches {id}
          (in_then {h} {e = no_flow} {rest = rest} {prefix = prefix} {i = i} bare u) s =
        keeps_flow id rest prefix (suc i) _
          (rw (visit_step-if h _ s _ bare) (walk_flow-reaches u _))
    walk_flow-reaches {id} (in_then {h} {e = flow f} {rest = rest} {prefix = prefix} {i = i} bare u)
          s =
        keeps_flow id rest prefix (suc i) _
          (rw (visit_step-if h _ s _ bare) (keeps_flow id f _ 0 _ (walk_flow-reaches u _)))
    walk_flow-reaches {id} (in_else {h} {rest = rest} {prefix = prefix} {i = i} bare u) s =
        keeps_flow id rest prefix (suc i) _
          (rw (visit_step-if h _ s _ bare) (walk_flow-reaches u _))

    pub apply_safety_pass-reaches :
        (id : String) (f : Flow) → UnlockIn id f "flow" 0 → P id (apply_safety_pass resolved f)
    unfolding apply_safety_pass
    apply_safety_pass-reaches id f u = walk_flow-reaches u _
