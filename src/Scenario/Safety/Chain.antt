-- ===== src/Scenario/Safety/Chain.antt =====
-- The graphs of the safety pass are chains, and an induction rule for the walk that builds them.
use home_sentinel.Base.{
  ℕ, suc, ◌≡◌, refl, ap, ◌<>◌, String, false, Option, none, some, List, [], ◌∷◌, All, Dict,
  Bool-cases, inl, inr,
}
use home_sentinel.Scenario.Model.{
  RiskLevel, ActionStep, HumanApprovalStep, WaitStep, SubflowStep, Head, Flow, nil, cons, Step,
  step, IfStep, no_if, if_step, OptFlow, no_flow, flow, ParallelStep, no_parallel, parallel_step,
}
use home_sentinel.Scenario.Safety.{
  Descriptor, NodeKind, GraphNode, Reason, Analysis, node, point_last, add_node, add_nodes,
  is_unlock, is_siren,
}
use home_sentinel.Scenario.Safety.Walk.{
  gate_nodes, siren_nodes, visit_action, visit_node, durable, choose, visit_step, step_id,
  walk_flow, walk_step, walk_if, walk_else, apply_safety_pass,
}

-- What the branches of the walk must keep for the whole walk to keep it.
pub record Kept (resolved : Dict Descriptor) (P : Analysis → Type 0) : Type 0 where
  pub keep_action :
      (id : String) (a : ActionStep) (s : Analysis) → P s → P (visit_action resolved id a s)
  pub keep_node :
      (id : String) (kind : NodeKind) (risk : RiskLevel) (s : Analysis)
      → P s
      → P (visit_node (node id kind false risk) s)
  pub keep_durable : (r : Reason) (s : Analysis) → P s → P (durable r s)

module _ (resolved : Dict Descriptor) (P : Analysis → Type 0) (kept : Kept resolved P) where
  open kept use {keep_action, keep_node, keep_durable}

  choose-keeps :
      (id : String) (s inner : Analysis) (a : Option ActionStep) (ap : Option HumanApprovalStep)
      (w : Option WaitStep) (f : Option SubflowStep) (p : ParallelStep)
      → P s
      → P inner
      → P (choose resolved id s inner a ap w f p)
  unfolding choose
  choose-keeps id s inner (some a) ap w f p ps pi = keep_action id a s ps
  choose-keeps id s inner none (some a) w f p ps pi = keep_node id _ _ _ (keep_durable _ s ps)
  choose-keeps id s inner none none (some w) f p ps pi = keep_node id _ _ _ (keep_durable _ s ps)
  choose-keeps id s inner none none none (some f) p ps pi = keep_node id _ _ _ (keep_durable _ s ps)
  choose-keeps id s inner none none none none (parallel_step b) ps pi =
      keep_node id _ _ _ (keep_durable _ s ps)
  choose-keeps id s inner none none none none no_parallel ps pi = pi

  visit_step-keeps :
      (h : Head) (p : ParallelStep) (id : String) (s inner : Analysis)
      → P s
      → P inner
      → P (visit_step resolved h p id s inner)
  unfolding visit_step
  visit_step-keeps h p id s inner ps pi =
      choose-keeps id s inner h.action h.human_approval h.wait h.subflow p ps pi

  mutual
    unfolding walk_flow

    pub walk_flow-keeps :
        (f : Flow) (prefix : String) (i : ℕ) (s : Analysis)
        → P s
        → P (walk_flow resolved f prefix i s)
    walk_flow-keeps nil prefix i s ps = ps
    walk_flow-keeps (cons st rest) prefix i s ps =
        walk_flow-keeps rest prefix (suc i) _ (walk_step-keeps st prefix i s ps)

    walk_step-keeps :
        (st : Step) (prefix : String) (i : ℕ) (s : Analysis)
        → P s
        → P (walk_step resolved st prefix i s)
    walk_step-keeps (step h f sw p) prefix i s ps =
        visit_step-keeps h p (step_id h prefix i) s _ ps
          (walk_if-keeps f h (step_id h prefix i) s ps)

    walk_if-keeps :
        (f : IfStep) (h : Head) (id : String) (s : Analysis) → P s → P (walk_if resolved f h id s)
    walk_if-keeps no_if h id s ps = keep_node id _ _ s ps
    walk_if-keeps (if_step c t e) h id s ps =
        walk_else-keeps e (id <> "_else") _
          (walk_flow-keeps t (id <> "_then") 0 _ (keep_node id _ _ s ps))

    walk_else-keeps :
        (e : OptFlow) (prefix : String) (s : Analysis) → P s → P (walk_else resolved e prefix s)
    walk_else-keeps no_flow prefix s ps = ps
    walk_else-keeps (flow f) prefix s ps = walk_flow-keeps f prefix 0 s ps

-- Each node points at the one after it alone, and the last at none.
abbrev pub Linked : List GraphNode → Type 0
Linked [] = Unit
Linked (n ∷ []) = n.next ≡ []
Linked (n ∷ m ∷ ns) = (n.next ≡ m.id ∷ []) × Linked (m ∷ ns)

add_node-Linked :
    (n : GraphNode) (nodes : List GraphNode)
    → n.next ≡ []
    → Linked nodes
    → Linked (add_node n nodes)
unfolding add_node point_last
add_node-Linked n [] last h = last
add_node-Linked n (m ∷ []) last h = (refl, last)
add_node-Linked n (m ∷ k ∷ []) last h = (h.0, (refl, last))
add_node-Linked n (m ∷ k ∷ l ∷ ns) last h = (h.0, add_node-Linked n (k ∷ l ∷ ns) last h.1)

add_nodes-Linked :
    (ns nodes : List GraphNode)
    → All (λ n. n.next ≡ []) ns
    → Linked nodes
    → Linked (add_nodes ns nodes)
unfolding add_nodes
add_nodes-Linked [] nodes ends h = h
add_nodes-Linked (n ∷ ns) nodes ends h =
    add_nodes-Linked ns (add_node n nodes) ends.1 (add_node-Linked n nodes ends.0 h)

abbrev Chains : Analysis → Type 0
Chains s = Linked s.user_nodes × Linked s.system_nodes

visit_action-Chains :
    (resolved : Dict Descriptor) (id : String) (a : ActionStep) (s : Analysis)
    → Chains s
    → Chains (visit_action resolved id a s)
unfolding visit_action add_nodes
visit_action-Chains resolved id a s (user, system) = elim (Bool-cases (is_unlock a.capability.id)) [
  | inl unlock ↦ rw unlock (
    add_node-Linked _ s.user_nodes refl user,
    add_nodes-Linked (gate_nodes id) s.system_nodes (refl, (refl, (refl, (refl, (refl, tt)))))
        system,
  )
  | inr other ↦ elim (Bool-cases (is_siren a.capability.id)) [
    | inl siren ↦
        rw (other, siren)
          (
            add_node-Linked _ s.user_nodes refl user,
            add_nodes-Linked (siren_nodes id) s.system_nodes (refl, (refl, (refl, tt))) system,
          )
    | inr plain ↦
        rw (other, plain)
          (add_node-Linked _ s.user_nodes refl user, add_node-Linked _ s.system_nodes refl system)
  ]
]

Chains-Kept : (resolved : Dict Descriptor) → Kept resolved Chains
unfolding visit_node durable
Chains-Kept resolved = record {
  keep_action = visit_action-Chains resolved;
  keep_node = λ id kind risk s (user, system).
      (add_node-Linked _ s.user_nodes refl user, add_node-Linked _ s.system_nodes refl system);
  keep_durable = λ r s c. c;
}

-- The user's graph and the system's graph of any flow are chains: each node points at the node
-- after it and at nothing else, and the last points at nothing.
pub apply_safety_pass_chains :
    (resolved : Dict Descriptor) (f : Flow)
    → Linked (apply_safety_pass resolved f).user_nodes
      × Linked (apply_safety_pass resolved f).system_nodes
unfolding apply_safety_pass
apply_safety_pass_chains resolved f =
    walk_flow-keeps resolved Chains (Chains-Kept resolved) f "flow" 0 _ (refl, refl)
