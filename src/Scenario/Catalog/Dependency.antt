-- ===== src/Scenario/Catalog/Dependency.antt =====
-- internal/scenario/catalog/dependency.go: the dependencies of each scenario with the reverse index. A
-- set is a list in which a member stands once. The locks make each call one step. Of a manifest, the
-- fields that the graph and the catalog read.
use home_sentinel.Base.{
  String, str_eq, ◌<>◌, Bool, true, false, Option, none, some, List, [], ◌∷◌, ◌++◌, map,
  if◌then◌else◌, Dict, lookup, insert, erase,
}

-- `scenario_id` is the property "scenarioId" where it is a text.
pub record PlanNode : Type 0 where
  pub type : String
  pub scenario_id : Option String

pub record EntityRef : Type 0 where
  pub kind : String
  pub id : String

-- `capability_versions` keeps the keys of the map.
pub record Manifest : Type 0 where
  pub capability_versions : List String
  pub referenced_entities : List EntityRef
  pub adgo_plan : Option (List PlanNode)
  pub plan_digest : String

-- One kind of dependency, from scenarios to dependencies and back.
pub record Index : Type 0 where
  pub forward : Dict (List String)
  pub reverse : Dict (List String)

pub record DependencyGraph : Type 0 where
  pub capabilities : Index
  pub entities : Index
  pub subflows : Index
  pub templates : Dict (List String)

-- The members of the set at a key, where a missing set has none.
unfoldable pub found : Option (List String) → List String
found none = []
found (some xs) = xs

unfoldable pub member : String → List String → Bool
member x [] = false
member x (y ∷ ys) = let rest = member x ys in if str_eq y x then true else rest

unfoldable pub remove : String → List String → List String
remove x [] = []
remove x (y ∷ ys) = let rest = remove x ys in if str_eq y x then rest else y ∷ rest

unfoldable pub add : String → List String → List String
unfolding member
add x xs = if member x xs then xs else x ∷ xs

-- A set that became empty is deleted from the reverse index.
unfoldable pub put_back : String → List String → Dict (List String) → Dict (List String)
put_back dep [] m = erase dep m
put_back dep (s ∷ ss) m = insert dep (s ∷ ss) m

unfoldable pub withdraw_at :
    (id dep : String) → Option (List String) → Dict (List String) → Dict (List String)
unfolding put_back remove
withdraw_at id dep none m = m
withdraw_at id dep (some ss) m = put_back dep (remove id ss) m

-- The inner loop of `clearScenario`.
unfoldable pub withdraw : String → List String → Dict (List String) → Dict (List String)
unfolding withdraw_at lookup
withdraw id [] m = m
withdraw id (dep ∷ deps) m = withdraw id deps (withdraw_at id dep (lookup dep m) m)

unfoldable pub clear_at : String → Option (List String) → Index → Index
unfolding withdraw
clear_at id none x = x
clear_at id (some deps) x = record {
  forward = erase id x.forward;
  reverse = withdraw id deps x.reverse;
}

-- `clearScenario` on one kind of dependency.
unfoldable pub clear : String → Index → Index
unfolding clear_at
clear id x = clear_at id (lookup id x.forward) x

-- The loop that enters the dependencies of a scenario.
unfoldable pub enroll : String → List String → Dict (List String) → Dict (List String)
unfolding found add
enroll id [] m = m
enroll id (dep ∷ deps) m = enroll id deps (insert dep (add id (found (lookup dep m))) m)

unfoldable pub to_set : List String → List String
unfolding add
to_set [] = []
to_set (x ∷ xs) = add x (to_set xs)

unfoldable pub enter : String → List String → Index → Index
unfolding enroll to_set
enter id deps x = record {
  forward = insert id (to_set deps) x.forward;
  reverse = enroll id deps x.reverse;
}

-- The subflows of a plan.
unfoldable pub subflow_of : PlanNode → Option String → List String
subflow_of n none = []
subflow_of n (some id) =
    if str_eq n.type "Subflow" then (if str_eq id "" then [] else id ∷ []) else []

unfoldable pub plan_subflows : List PlanNode → List String
unfolding subflow_of
plan_subflows [] = []
plan_subflows (n ∷ ns) = subflow_of n n.scenario_id ++ plan_subflows ns

unfoldable pub subflows_of : Option (List PlanNode) → List String
unfolding plan_subflows
subflows_of none = []
subflows_of (some ns) = plan_subflows ns

abbrev pub entity_key : (kind id : String) → String
entity_key kind id = kind <> (":" <> id)

-- `RemoveScenario`.
unfoldable pub remove_scenario : String → DependencyGraph → DependencyGraph
unfolding clear
remove_scenario id d = record {
  capabilities = clear id d.capabilities;
  entities = clear id d.entities;
  subflows = clear id d.subflows;
  templates = erase id d.templates;
}

-- `UpdateScenarioDependencies` with no template, as the catalog calls it; `none` is a nil manifest.
unfoldable pub update_dependencies : String → Option Manifest → DependencyGraph → DependencyGraph
unfolding remove_scenario enter subflows_of
update_dependencies id none d = remove_scenario id d
update_dependencies id (some m) d = record {
  capabilities = enter id m.capability_versions (clear id d.capabilities);
  entities =
      enter id (map (λ e. entity_key e.kind e.id) m.referenced_entities) (clear id d.entities);
  subflows = enter id (subflows_of m.adgo_plan) (clear id d.subflows);
  templates = erase id d.templates;
}

-- The scenarios that an index lists under a dependency: `GetScenariosUsingCapability`,
-- `GetScenariosUsingEntity` and `GetParentScenariosForSubflow`, in some order.
unfoldable pub users : String → Index → List String
unfolding found lookup
users dep x = found (lookup dep x.reverse)
