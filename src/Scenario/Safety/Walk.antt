-- ===== src/Scenario/Safety/Walk.antt =====
-- internal/scenario/compiler/safety.go: the walk over the flow, one function for each branch.
use home_sentinel.Base.{
  ℕ, suc, ◌*◌, String, ◌<>◌, str_eq, show, Bool, true, false, Option, none, some, List, [], ◌∷◌,
  ◌++◌, if◌then◌else◌, Dict, lookup,
}
use home_sentinel.Scenario.Model.{
  RiskLevel, low, medium, high, critical, ActionStep, HumanApprovalStep, WaitStep, SubflowStep,
  Head, kind_text, Flow, nil, cons, Step, step, IfStep, no_if, if_step, OptFlow, no_flow, flow,
  ParallelStep, no_parallel, parallel_step,
}
use home_sentinel.Scenario.Safety.{
  readback, required, supported, reconcile, ensure_disabled, Compensation, Verification, Descriptor,
  NodeKind, GraphNode, Augmentation, approval_gate, reservation, verify_write, limit, fail_safe,
  ExternalEffect, Reason, unlock_gate, siren_limit, approval_step, durable_wait, subflow_step, fork,
  Analysis, second, max_siren_duration, default_action_timeout, node, add_node, add_nodes,
  is_unlock, is_siren, resource_key,
}

abbrev is_readback : Verification → Bool
is_readback readback = true
is_readback _ = false

abbrev is_reconcile : Compensation → Bool
is_reconcile reconcile = true
is_reconcile _ = false

-- The five system nodes of an unlock.
abbrev pub gate_nodes : String → List GraphNode
gate_nodes id =
    node ("system_safety_approval_" <> id) NodeKind.human_approval true critical
    ∷ node ("system_safety_lock_" <> id) NodeKind.resource_reservation true high
    ∷ node ("system_safety_read_" <> id) NodeKind.read_before_write true low
    ∷ node ("system_action_" <> id) NodeKind.action false critical
    ∷ node ("system_safety_verify_" <> id) NodeKind.verify_after_write true low
    ∷ []

abbrev pub unlock_augmentations : String → List Augmentation
unlock_augmentations id =
    record { node_id = "system_safety_approval_" <> id; kind = approval_gate; risk = critical }
    ∷ record { node_id = "system_safety_lock_" <> id; kind = reservation; risk = high }
    ∷ record { node_id = "system_safety_verify_" <> id; kind = verify_write; risk = low }
    ∷ []

abbrev pub unlock_effect : ActionStep → ExternalEffect
unlock_effect a = record {
  capability_id = a.capability.id;
  resource_key = resource_key a.capability;
  permission = "door:unlock";
  risk = critical;
  idempotency = required;
  timeout = 15 * second;
  max_retries = 2;
  read_before_write = true;
  verify_after_write = true;
  reconciliation = true;
  compensation = reconcile;
}

unfoldable pub visit_unlock : String → ActionStep → Analysis → Analysis
unfolding add_nodes
visit_unlock id a s = record s {
  system_nodes = add_nodes (gate_nodes id) s.system_nodes;
  augmentations = s.augmentations ++ unlock_augmentations id;
  effects = s.effects ++ unlock_effect a ∷ [];
  requires_adgo = true;
  reasons = s.reasons ++ unlock_gate ∷ [];
}

-- The three system nodes of a siren.
abbrev pub siren_nodes : String → List GraphNode
siren_nodes id =
    node ("system_safety_duration_" <> id) NodeKind.duration_limit true medium
    ∷ node ("system_action_" <> id) NodeKind.action false high
    ∷ node ("system_safety_comp_" <> id) NodeKind.compensation true low
    ∷ []

abbrev pub siren_augmentations : String → List Augmentation
siren_augmentations id =
    record { node_id = "system_safety_duration_" <> id; kind = limit; risk = medium }
    ∷ record { node_id = "system_safety_comp_" <> id; kind = fail_safe; risk = low }
    ∷ []

abbrev pub siren_effect : ActionStep → ExternalEffect
siren_effect a = record {
  capability_id = a.capability.id;
  resource_key = resource_key a.capability;
  permission = "siren:sound";
  risk = high;
  idempotency = supported;
  timeout = max_siren_duration;
  max_retries = 1;
  read_before_write = false;
  verify_after_write = true;
  reconciliation = true;
  compensation = ensure_disabled;
}

unfoldable pub visit_siren : String → ActionStep → Analysis → Analysis
unfolding add_nodes
visit_siren id a s = record s {
  system_nodes = add_nodes (siren_nodes id) s.system_nodes;
  augmentations = s.augmentations ++ siren_augmentations id;
  effects = s.effects ++ siren_effect a ∷ [];
  requires_adgo = true;
  reasons = s.reasons ++ siren_limit ∷ [];
}

abbrev pub ordinary_effect : ActionStep → Descriptor → ExternalEffect
ordinary_effect a d = record {
  capability_id = d.id;
  resource_key = resource_key a.capability;
  permission = d.permission;
  risk = d.risk;
  idempotency = d.idempotency;
  timeout = default_action_timeout;
  max_retries = 3;
  read_before_write = false;
  verify_after_write = is_readback d.verification;
  reconciliation = is_reconcile d.compensation;
  compensation = d.compensation;
}

abbrev pub ordinary_effects : ActionStep → Option Descriptor → List ExternalEffect
ordinary_effects a none = []
ordinary_effects a (some d) = if d.external_effect then ordinary_effect a d ∷ [] else []

unfoldable pub visit_ordinary :
    String → ActionStep → Option Descriptor → RiskLevel → Analysis → Analysis
unfolding add_node
visit_ordinary id a d risk s = record s {
  system_nodes = add_node (node id NodeKind.action false risk) s.system_nodes;
  effects = s.effects ++ ordinary_effects a d;
}

abbrev pub action_risk : String → Option Descriptor → RiskLevel
action_risk cap none = if is_unlock cap then critical else low
action_risk cap (some d) = if is_unlock cap then critical else d.risk

-- The branch for an action: the user's node, then the system's nodes by the kind of the action.
unfoldable pub visit_action : Dict Descriptor → String → ActionStep → Analysis → Analysis
unfolding visit_unlock visit_siren visit_ordinary add_node
visit_action resolved id a s =
    let cap = a.capability.id in
    let d = lookup cap resolved in
    let risk = action_risk cap d in
    let s' = record s { user_nodes = add_node (node id NodeKind.action false risk) s.user_nodes } in
    if is_unlock cap
    then visit_unlock id a s'
    else if is_siren cap
    then visit_siren id a s'
    else visit_ordinary id a d risk s'

-- The other branches add one node to both graphs.
unfoldable pub visit_node : GraphNode → Analysis → Analysis
unfolding add_node
visit_node n s = record s {
  user_nodes = add_node n s.user_nodes;
  system_nodes = add_node n s.system_nodes;
}

unfoldable pub durable : Reason → Analysis → Analysis
durable r s = record s { requires_adgo = true; reasons = s.reasons ++ r ∷ [] }

unfoldable pub step_id : Head → String → ℕ → String
step_id h prefix i = if str_eq h.id "" then prefix <> ("_step_" <> show i) else h.id

-- The chain of `else if` on the payloads, down to `If`, whose outcome is given.
module _ (resolved : Dict Descriptor) (id : String) (s if_outcome : Analysis) where
  unfoldable pub choose :
      Option ActionStep
      → Option HumanApprovalStep
      → Option WaitStep
      → Option SubflowStep
      → ParallelStep
      → Analysis
  unfolding visit_action visit_node durable
  choose (some a) approval w f p = visit_action resolved id a s
  choose none (some approval) w f p =
      visit_node (node id NodeKind.human_approval false approval.risk) (durable approval_step s)
  choose none none (some w) f p =
      visit_node (node id NodeKind.wait false low) (durable durable_wait s)
  choose none none none (some f) p =
      visit_node (node id NodeKind.subflow false medium) (durable subflow_step s)
  choose none none none none (parallel_step _) =
      visit_node (node id NodeKind.parallel false low) (durable fork s)
  choose none none none none no_parallel = if_outcome

unfoldable pub visit_step :
    Dict Descriptor → Head → ParallelStep → String → Analysis → Analysis → Analysis
unfolding choose
visit_step resolved h p id s if_outcome =
    choose resolved id s if_outcome h.action h.human_approval h.wait h.subflow p

abbrev pub entry : GraphNode
entry = node "entry" NodeKind.trigger false low

abbrev pub start : Analysis
start = record {
  user_nodes = entry ∷ [];
  system_nodes = entry ∷ [];
  augmentations = [];
  effects = [];
  requires_adgo = false;
  reasons = [];
}

module _ (resolved : Dict Descriptor) where
  unfoldable mutual
    pub walk_flow : Flow → String → ℕ → Analysis → Analysis
    walk_flow nil prefix i s = s
    walk_flow (cons st rest) prefix i s = walk_flow rest prefix (suc i) (walk_step st prefix i s)

    pub walk_step : Step → String → ℕ → Analysis → Analysis
    walk_step (step h f sw p) prefix i s =
        let id = step_id h prefix i in visit_step resolved h p id s (walk_if f h id s)

    -- Without a payload for the chain the step is one node of its own kind.
    pub walk_if : IfStep → Head → String → Analysis → Analysis
    walk_if no_if h id s = visit_node (node id (NodeKind.other (kind_text h.kind)) false low) s
    walk_if (if_step c t e) h id s =
        walk_else e (id <> "_else")
          (walk_flow t (id <> "_then") 0 (visit_node (node id NodeKind.if_node false low) s))

    pub walk_else : OptFlow → String → Analysis → Analysis
    walk_else no_flow prefix s = s
    walk_else (flow f) prefix s = walk_flow f prefix 0 s

  unfoldable pub apply_safety_pass : Flow → Analysis
  unfolding walk_flow visit_step step_id
  apply_safety_pass f = walk_flow f "flow" 0 start
