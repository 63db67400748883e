-- ===== src/Scenario/Conflicts/Resources.antt =====
-- internal/scenario/compiler/static_analysis.go: the actions on each resource, the conflicts of
-- parallel branches, and the feedback loops between triggers and actions.
use home_sentinel.Base.{
  String, ◌<>◌, str_eq, codes, to_lower, bytes_eq, Bool, false, not, ◌&&◌, Option, none, some, List,
  [], ◌∷◌, ◌++◌, if◌then◌else◌, Dict, lookup, insert,
}
use home_sentinel.Scenario.Model.{
  EntityRef, CapabilityRef, ActionStep, Flow, nil, cons, Step, step, IfStep, no_if, if_step,
  OptFlow, no_flow, flow, ParallelStep, no_parallel, parallel_step, Branches, no_branch, branch,
}
use home_sentinel.Scenario.Conflicts.{
  opposite_desired_state, circular_dependency, error, warning, Diagnostic, check_self,
  check_unreachable,
}

-- An action on a resource: the resource's key and the capability's ID.
pub record Use : Type 0 where
  pub resource : String
  pub capability : String

abbrev entity_use : CapabilityRef → Option EntityRef → List Use
entity_use c none = []
entity_use c (some e) = record { resource = e.kind <> (":" <> e.id); capability = c.id } ∷ []

abbrev action_use : Option ActionStep → List Use
action_use none = []
action_use (some a) = entity_use a.capability a.capability.entity

-- The steps of a branch itself, and not of the flows inside them.
unfoldable pub flow_uses : Flow → List Use
flow_uses nil = []
flow_uses (cons (step h f sw p) rest) = action_use h.action ++ flow_uses rest

-- The branches one after the other: `branchRes` is made once for all of them.
unfoldable pub branch_uses : Branches → List Use
unfolding flow_uses
branch_uses no_branch = []
branch_uses (branch f bs) = flow_uses f ++ branch_uses bs

abbrev conflict : Diagnostic
conflict = record { code = opposite_desired_state; severity = error; path = "flow" }

abbrev pub differs : Option String → String → Bool
differs none c = false
differs (some previous) c = not (str_eq previous c)

-- The loop over the branches' steps, with the map from a resource to its last capability.
unfoldable pub check_uses : Dict String → List Use → List Diagnostic
check_uses last [] = []
check_uses last (u ∷ us) =
    (if differs (lookup u.resource last) u.capability then conflict ∷ [] else [])
    ++ check_uses (insert u.resource u.capability last) us

-- `resourceActions`, and the diagnostics so far.
pub record Collected : Type 0 where
  pub actions : Dict (List String)
  pub diags : List Diagnostic

abbrev or_empty : Option (List String) → List String
or_empty none = []
or_empty (some l) = l

unfoldable pub add_uses : List Use → Dict (List String) → Dict (List String)
add_uses [] m = m
add_uses (u ∷ us) m =
    add_uses us (insert u.resource (or_empty (lookup u.resource m) ++ u.capability ∷ []) m)

unfoldable pub collect_parallel : ParallelStep → Collected → Collected
unfolding branch_uses check_uses
collect_parallel no_parallel s = s
collect_parallel (parallel_step bs) s = record s {
  diags = s.diags ++ check_uses [] (branch_uses bs);
}

-- `collectResourceActions`.
unfoldable mutual
  unfolding add_uses collect_parallel

  pub collect : Flow → Collected → Collected
  collect nil s = s
  collect (cons st rest) s = collect rest (collect_step st s)

  pub collect_step : Step → Collected → Collected
  collect_step (step h f sw p) s =
      collect_parallel p
        (collect_if f (record s { actions = add_uses (action_use h.action) s.actions }))

  pub collect_if : IfStep → Collected → Collected
  collect_if no_if s = s
  collect_if (if_step c t e) s = collect_opt e (collect t s)

  pub collect_opt : OptFlow → Collected → Collected
  collect_opt no_flow s = s
  collect_opt (flow f) s = collect f s

-- `strings.EqualFold`, on ASCII.
unfoldable pub equal_fold : String → String → Bool
unfolding bytes_eq to_lower
equal_fold s t = bytes_eq (to_lower (codes s)) (to_lower (codes t))

abbrev loop_warning : Diagnostic
loop_warning = record { code = circular_dependency; severity = warning; path = "triggers" }

unfoldable pub check_caps : String → List String → List Diagnostic
unfolding equal_fold
check_caps trigger [] = []
check_caps trigger (c ∷ cs) =
    (if not (str_eq trigger "") && equal_fold trigger c then loop_warning ∷ [] else [])
    ++ check_caps trigger cs

-- The source ranges over the map in an order that Go leaves open; the warnings do not name it.
unfoldable pub check_resources : String → Dict (List String) → List Diagnostic
unfolding check_caps
check_resources trigger [] = []
check_resources trigger ((r, cs) ∷ m) = check_caps trigger cs ++ check_resources trigger m

unfoldable pub check_triggers : List String → Dict (List String) → List Diagnostic
unfolding check_resources
check_triggers [] m = []
check_triggers (t ∷ ts) m = check_resources t m ++ check_triggers ts m

-- The scenario is given by its ID, the capability IDs of its triggers and its flow.
unfoldable pub static_conflict_analysis : String → List String → Flow → List Diagnostic
unfolding check_self check_unreachable collect check_triggers
static_conflict_analysis self triggers f =
    let collected = collect f (record { actions = []; diags = [] }) in
    check_self self f "flow" 0
    ++ (collected.diags
        ++ (check_unreachable f "flow" 0 false ++ check_triggers triggers collected.actions))
