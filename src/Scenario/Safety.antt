-- ===== src/Scenario/Safety.antt =====
-- internal/scenario/compiler/safety.go: `ApplySafetyPass`. The graphs are built by appending a node
-- and pointing the node before it at the new one. Titles, descriptions and reasons, which are
-- display text, are left out.
pub mod Walk
pub mod Chain
pub mod Reach
pub mod Gates
pub mod Effects
pub mod Gaps
mod Tests
use home_sentinel.Base.{
  ℕ, suc, ◌+◌, ◌*◌, String, ◌<>◌, str_eq, codes, contains, to_lower, has_prefix, show, Bool, true,
  false, ◌||◌, Option, none, some, List, [], ◌∷◌, ◌++◌, if◌then◌else◌, Dict, lookup,
}
use home_sentinel.Scenario.Model.{
  RiskLevel, low, medium, high, critical, EntityRef, CapabilityRef, ActionStep, Head, kind_text,
  Flow, nil, cons, Step, step, IfStep, no_if, if_step, OptFlow, no_flow, flow, ParallelStep,
  no_parallel, parallel_step,
}

-- capability/descriptor.go: the fields of a descriptor that the pass reads.
pub data Verification : Type 0 where
  no_verification provider_ack readback : Verification

pub data Idempotency : Type 0 where
  no_idempotency supported required : Idempotency

-- `ensure_disabled` is a text of the pass, not a class of the registry.
pub data Compensation : Type 0 where
  no_compensation automatic manual reconcile ensure_disabled : Compensation

pub record Descriptor : Type 0 where
  pub id : String
  pub risk : RiskLevel
  pub permission : String
  pub external_effect : Bool
  pub idempotency : Idempotency
  pub verification : Verification
  pub compensation : Compensation

pub data NodeKind : Type 0 where
  trigger action human_approval resource_reservation read_before_write verify_after_write : NodeKind
  duration_limit compensation wait subflow parallel if_node : NodeKind
  other : String → NodeKind

pub record GraphNode : Type 0 where
  pub id : String
  pub kind : NodeKind
  pub system_owned : Bool
  pub risk : RiskLevel
  pub next : List String

pub data AugmentationKind : Type 0 where
  approval_gate reservation verify_write limit fail_safe : AugmentationKind

pub record Augmentation : Type 0 where
  pub node_id : String
  pub kind : AugmentationKind
  pub risk : RiskLevel

pub record ExternalEffect : Type 0 where
  pub capability_id : String
  pub resource_key : String
  pub permission : String
  pub risk : RiskLevel
  pub idempotency : Idempotency
  pub timeout : ℕ
  pub max_retries : ℕ
  pub read_before_write : Bool
  pub verify_after_write : Bool
  pub reconciliation : Bool
  pub compensation : Compensation

pub data Reason : Type 0 where
  unlock_gate siren_limit approval_step durable_wait subflow_step fork : Reason

-- `SafetyAnalysisResult`, with the nodes of the two graphs; each graph's entry is "entry".
pub record Analysis : Type 0 where
  pub user_nodes : List GraphNode
  pub system_nodes : List GraphNode
  pub augmentations : List Augmentation
  pub effects : List ExternalEffect
  pub requires_adgo : Bool
  pub reasons : List Reason

abbrev pub second : ℕ
second = 1_000_000_000

abbrev pub max_siren_duration : ℕ
max_siren_duration = 5 * 60 * second

abbrev pub default_action_timeout : ℕ
default_action_timeout = 30 * second

-- `nodes[len(nodes)-1].Next = []string{id}`, on the nodes before the new one.
unfoldable pub point_last : String → List GraphNode → List GraphNode
point_last id [] = []
point_last id (n ∷ []) = record n { next = id ∷ [] } ∷ []
point_last id (n ∷ m ∷ ns) = n ∷ point_last id (m ∷ ns)

abbrev pub node : String → NodeKind → Bool → RiskLevel → GraphNode
node id kind owned risk = record {
  id = id;
  kind = kind;
  system_owned = owned;
  risk = risk;
  next = [];
}

unfoldable pub add_node : GraphNode → List GraphNode → List GraphNode
add_node n nodes = point_last n.id nodes ++ n ∷ []

unfoldable pub add_nodes : List GraphNode → List GraphNode → List GraphNode
add_nodes [] nodes = nodes
add_nodes (n ∷ ns) nodes = add_nodes ns (add_node n nodes)

unfoldable pub id_contains : String → String → Bool
unfolding contains to_lower has_prefix
id_contains id word = contains (to_lower (codes id)) (codes word)

unfoldable pub is_unlock : String → Bool
unfolding id_contains
is_unlock id = id_contains id "unlock" || id_contains id "door.open"

unfoldable pub is_siren : String → Bool
unfolding id_contains
is_siren id = id_contains id "siren" || id_contains id "alarm"

unfoldable pub resource_key : CapabilityRef → String
resource_key c = elim c.entity [ none ↦ "" | some e ↦ e.kind <> (":" <> e.id) ]
