-- ===== src/Scenario/Safety/Gaps.antt =====
-- Where the walk of the safety pass does not go.
use home_sentinel.Base.{
  ℕ, suc, ◌<>◌, ap, ◌∙◌, ◌≡◌, refl, sym, subst, String, true, false, Option, none, some, [], ◌∷◌,
  map, Dict, lookup,
}
use home_sentinel.Scenario.Model.{
  low, ActionStep, HumanApprovalStep, WaitStep, SubflowStep, Head, Flow, Step, OptFlow, no_flow,
  flow, no_switch, no_branch, if_step, nil, cons, step, IfStep, no_if, SwitchStep, ParallelStep,
  no_parallel, parallel_step, kind_text,
}
use home_sentinel.Scenario.Safety.{
  Descriptor, NodeKind, GraphNode, Analysis, node, point_last, add_node, is_unlock, is_siren,
}
use home_sentinel.Scenario.Safety.Walk.{
  visit_action, visit_node, choose, visit_step, step_id, walk_flow, walk_step, walk_else, walk_if,
  entry, start, apply_safety_pass,
}
use home_sentinel.Scenario.Safety.Gates.{core}
use home_sentinel.Scenario.Safety.Reach.{only_if, visit_step-if}

-- The pass adds no gate and records no effect: the system graph is the entry and one node.
pub record Ungated (s : Analysis) (n : GraphNode) : Type 0 where
  pub nodes : map core s.system_nodes ≡ entry ∷ n ∷ []
  pub no_augmentation : s.augmentations ≡ []
  pub no_effect : s.effects ≡ []

-- A flow without what its parallel and its switch steps hold, at whatever depth of `if` they stand: the
-- branches, the cases and the default are gone.
unfoldable mutual
  pub emptied : Flow → Flow
  emptied nil = nil
  emptied (cons st rest) = cons (emptied_step st) (emptied rest)

  emptied_step : Step → Step
  emptied_step (step h f sw p) = step h (emptied_if f) no_switch (emptied_parallel p)

  emptied_if : IfStep → IfStep
  emptied_if no_if = no_if
  emptied_if (if_step c t e) = if_step c (emptied t) (emptied_else e)

  emptied_else : OptFlow → OptFlow
  emptied_else no_flow = no_flow
  emptied_else (flow f) = flow (emptied f)

  emptied_parallel : ParallelStep → ParallelStep
  emptied_parallel no_parallel = no_parallel
  emptied_parallel (parallel_step bs) = parallel_step no_branch

module _ (resolved : Dict Descriptor) where
  choose-emptied :
      (id : String) (s inner : Analysis) (a : Option ActionStep) (ap : Option HumanApprovalStep)
      (w : Option WaitStep) (f : Option SubflowStep) (p : ParallelStep)
      → choose resolved id s inner a ap w f p
        ≡ choose resolved id s inner a ap w f (emptied_parallel p)
  unfolding choose emptied
  choose-emptied id s inner (some a) ap w f p = refl
  choose-emptied id s inner none (some a) w f p = refl
  choose-emptied id s inner none none (some w) f p = refl
  choose-emptied id s inner none none none (some f) p = refl
  choose-emptied id s inner none none none none (parallel_step bs) = refl
  choose-emptied id s inner none none none none no_parallel = refl

  visit_step-emptied :
      (h : Head) (p : ParallelStep) (id : String) (s x y : Analysis)
      → x ≡ y
      → visit_step resolved h p id s x ≡ visit_step resolved h (emptied_parallel p) id s y
  unfolding visit_step
  visit_step-emptied h p id s x y e =
      choose-emptied id s x h.action h.human_approval h.wait h.subflow p
      ∙ ap
          (λ z.
            choose resolved id s z h.action h.human_approval h.wait h.subflow (emptied_parallel p))
          e

  mutual
    unfolding walk_flow emptied

    walk_flow-emptied :
        (f : Flow) (prefix : String) (i : ℕ) (s : Analysis)
        → walk_flow resolved f prefix i s ≡ walk_flow resolved (emptied f) prefix i s
    walk_flow-emptied nil prefix i s = refl
    walk_flow-emptied (cons st rest) prefix i s =
        walk_flow-emptied rest prefix (suc i) (walk_step resolved st prefix i s)
        ∙ ap (walk_flow resolved (emptied rest) prefix (suc i)) (walk_step-emptied st prefix i s)

    walk_step-emptied :
        (st : Step) (prefix : String) (i : ℕ) (s : Analysis)
        → walk_step resolved st prefix i s ≡ walk_step resolved (emptied_step st) prefix i s
    walk_step-emptied (step h f sw p) prefix i s =
        visit_step-emptied h p (step_id h prefix i) s _ _
          (walk_if-emptied f h (step_id h prefix i) s)

    walk_if-emptied :
        (f : IfStep) (h : Head) (id : String) (s : Analysis)
        → walk_if resolved f h id s ≡ walk_if resolved (emptied_if f) h id s
    walk_if-emptied no_if h id s = refl
    walk_if-emptied (if_step c t e) h id s =
        walk_else-emptied e (id <> "_else") _
        ∙ ap (walk_else resolved (emptied_else e) (id <> "_else"))
            (walk_flow-emptied t (id <> "_then") 0 _)

    walk_else-emptied :
        (e : OptFlow) (prefix : String) (s : Analysis)
        → walk_else resolved e prefix s ≡ walk_else resolved (emptied_else e) prefix s
    walk_else-emptied no_flow prefix s = refl
    walk_else-emptied (flow f) prefix s = walk_flow-emptied f prefix 0 s

  -- The safety pass does not look into the branches of a parallel step, nor into the cases and the default
  -- of a switch step: for every flow, the graphs, the augmentations, the effects, the need of the durable
  -- runtime and its reasons are those of the flow in which these are gone.
  pub apply_safety_pass-emptied :
      (f : Flow) → apply_safety_pass resolved f ≡ apply_safety_pass resolved (emptied f)
  unfolding apply_safety_pass
  apply_safety_pass-emptied f = walk_flow-emptied f "flow" 0 start

  -- A switch step alone gets no gate and no effect, whatever its cases and its default hold.
  pub switch-Ungated :
      (h : Head) (sw : SwitchStep)
      → only_if h ≡ true
      → Ungated
          (apply_safety_pass resolved (cons (step h no_if sw no_parallel) nil))
          (node (step_id h "flow" 0) (NodeKind.other (kind_text h.kind)) false low)
  unfolding apply_safety_pass walk_flow visit_node add_node point_last
  switch-Ungated h sw bare =
      subst
        (λ s. Ungated s (node (step_id h "flow" 0) (NodeKind.other (kind_text h.kind)) false low))
        (sym (
          visit_step-if resolved h (step_id h "flow" 0) start
            (walk_if resolved no_if h (step_id h "flow" 0) start) bare))
        (record { nodes = refl; no_augmentation = refl; no_effect = refl })

  -- An action whose ID has none of the four words gets no gate, whatever its descriptor says: a
  -- descriptor of critical risk leaves the action ungated.
  pub named-Ungated :
      (h : Head) (a : ActionStep) (f : IfStep) (sw : SwitchStep) (p : ParallelStep) (d : Descriptor)
      → h.action ≡ some a
      → is_unlock a.capability.id ≡ false
      → is_siren a.capability.id ≡ false
      → lookup a.capability.id resolved ≡ some d
      → let s = apply_safety_pass resolved (cons (step h f sw p) nil) in
        (map core s.system_nodes
          ≡ entry ∷ node (step_id h "flow" 0) NodeKind.action false d.risk ∷ [])
        × (s.augmentations ≡ [])
        × (s.requires_adgo ≡ false)
  unfolding apply_safety_pass visit_step visit_action add_node point_last
  named-Ungated h a f sw p d acts plain quiet known =
      rw acts (rw known (rw (plain, quiet) (refl, refl, refl)))
