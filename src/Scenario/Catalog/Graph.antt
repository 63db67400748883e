-- ===== src/Scenario/Catalog/Graph.antt =====
-- The dependency graph of the catalog stays consistent, and lists what was published.
use home_sentinel.Base.{
  ◌≡◌, refl, ℕ, String, str_eq, Bool, true, false, not, ◌&&◌, Option, none, some, List, [], ◌∷◌,
  map, if◌then◌else◌, lookup,
}
use home_sentinel.Scenario.Catalog.{
  Scenario, Revision, ScenarioRecord, Catalog, is_published, get_revision, get_version,
}
use home_sentinel.Scenario.Catalog.Dependency.{
  Manifest, Index, DependencyGraph, found, member, subflows_of, entity_key, remove_scenario,
  update_dependencies, users,
}
use home_sentinel.Scenario.Catalog.Uses.{
  IsConsistent, clear-IsConsistent, renew-IsConsistent, renew-users,
}
use home_sentinel.Scenario.Catalog.Operations.{
  Reply, need, create_draft, update_draft, edit, validate_draft, validate_with, record_simulation,
  new_catalog,
}
use home_sentinel.Scenario.Catalog.Releases.{
  publish_draft, publish_with, rollback, set_status, drops,
}
use home_sentinel.Scenario.Catalog.Runs.{
  Call, create, update, validate, simulate, publish, roll_back, set, after, step, run,
}

pub record GraphInv (d : DependencyGraph) : Type 0 where
  pub on_capabilities : IsConsistent d.capabilities
  pub on_entities : IsConsistent d.entities
  pub on_subflows : IsConsistent d.subflows

remove_scenario-GraphInv :
    (id : String) (d : DependencyGraph) → GraphInv d → GraphInv (remove_scenario id d)
unfolding remove_scenario
remove_scenario-GraphInv id d inv = record {
  on_capabilities = clear-IsConsistent id d.capabilities inv.on_capabilities;
  on_entities = clear-IsConsistent id d.entities inv.on_entities;
  on_subflows = clear-IsConsistent id d.subflows inv.on_subflows;
}

update_dependencies-GraphInv :
    (id : String) (o : Option Manifest) (d : DependencyGraph)
    → GraphInv d
    → GraphInv (update_dependencies id o d)
unfolding update_dependencies
update_dependencies-GraphInv id none d inv = remove_scenario-GraphInv id d inv
update_dependencies-GraphInv id (some m) d inv = record {
  on_capabilities = renew-IsConsistent id m.capability_versions d.capabilities inv.on_capabilities;
  on_entities =
      renew-IsConsistent id (map (λ e. entity_key e.kind e.id) m.referenced_entities) d.entities
        inv.on_entities;
  on_subflows = renew-IsConsistent id (subflows_of m.adgo_plan) d.subflows inv.on_subflows;
}

-- What a graph lists for one scenario under a name, where it lists nothing else anew.
abbrev pub Lists : String → List String → (before after : Index) → Type 0
Lists id deps x y =
    (dep s : String)
    → member s (users dep y) ≡ (if str_eq id s then member dep deps else member s (users dep x))

-- In a consistent graph, an update for a scenario lists it under exactly the capabilities, entities
-- and subflows of its new manifest, whatever it was listed under, and moves no other scenario.
pub update_dependencies-Lists :
    (id : String) (m : Manifest) (d : DependencyGraph)
    → GraphInv d
    → Lists id m.capability_versions d.capabilities (update_dependencies id (some m) d).capabilities
      × (Lists id
          (map (λ e. entity_key e.kind e.id) m.referenced_entities)
          d.entities
          (update_dependencies id (some m) d).entities)
      × (Lists id (subflows_of m.adgo_plan) d.subflows (update_dependencies id (some m) d).subflows)
unfolding update_dependencies
update_dependencies-Lists id m d inv = (
  λ dep s. renew-users id m.capability_versions dep s d.capabilities inv.on_capabilities,
  λ dep s.
      renew-users id (map (λ e. entity_key e.kind e.id) m.referenced_entities) dep s d.entities
        inv.on_entities,
  λ dep s. renew-users id (subflows_of m.adgo_plan) dep s d.subflows inv.on_subflows,
)

module _ {B : Type 0} (valid : Scenario B → Bool) (digest : String → String) where
  after-need :
      {A X : Type 0} (o : Option X) (c : Catalog B) (k : X → Reply B A)
      → GraphInv c.deps
      → ((x : X) → GraphInv (after c (k x)).deps)
      → GraphInv (after c (need o k)).deps
  after-need none c k inv keeps = inv
  after-need (some x) c k inv keeps = keeps x

  after-if :
      {A : Type 0} (b : Bool) (c : Catalog B) (x y : Reply B A)
      → GraphInv (after c x).deps
      → GraphInv (after c y).deps
      → GraphInv (after c (if b then x else y)).deps
  after-if true c x y p q = p
  after-if false c x y p q = q

  validate_with-GraphInv :
      (id rev : String) (c : Catalog B) (r : ScenarioRecord B) (v : Revision B)
      (o : Option Manifest)
      → GraphInv c.deps
      → GraphInv (after c (validate_with valid digest id rev c r v o)).deps
  unfolding validate_with
  validate_with-GraphInv id rev c r v none inv = inv
  validate_with-GraphInv id rev c r v (some m) inv = inv

  publish_with-GraphInv :
      (now : ℕ) (id rev author reason : String) (c : Catalog B) (r : ScenarioRecord B)
      (v : Revision B) (o : Option Manifest)
      → GraphInv c.deps
      → GraphInv (after c (publish_with valid digest now id rev author reason c r v o)).deps
  unfolding publish_with
  publish_with-GraphInv now id rev author reason c r v none inv = inv
  publish_with-GraphInv now id rev author reason c r v (some m) inv =
      update_dependencies-GraphInv id (some m) c.deps inv

  dropped-GraphInv :
      (b : Bool) (id : String) (d : DependencyGraph)
      → GraphInv d
      → GraphInv (if b then remove_scenario id d else d)
  dropped-GraphInv true id d inv = remove_scenario-GraphInv id d inv
  dropped-GraphInv false id d inv = inv

  pub step-GraphInv :
      (call : Call B) (c : Catalog B) → GraphInv c.deps → GraphInv (step valid digest call c).deps
  unfolding step create_draft update_draft edit validate_draft record_simulation publish_draft
      rollback set_status
  step-GraphInv (create now s author) c inv =
      after-if (not (valid s)) c _ _ inv (after-if (str_eq s.id "") c _ _ inv inv)
  step-GraphInv (update now id rev tag s author) c inv = after-if (not (valid s)) c _ _ inv (
      after-need (lookup id c.records) c _ inv (λ r.
        after-need (get_revision rev r.revisions) c _ inv (λ v.
          after-if (is_published v.state) c _ _ inv
            (after-if (not (str_eq tag "") && not (str_eq v.e_tag tag)) c _ _ inv inv))))
  step-GraphInv (validate compile id rev) c inv = after-need (lookup id c.records) c _ inv (λ r.
      after-need (get_revision rev r.revisions) c _ inv
        (λ v. validate_with-GraphInv id rev c r v (compile v.scenario) inv))
  step-GraphInv (simulate id rev sum) c inv =
      after-need (lookup id c.records) c _ inv
        (λ r. after-need (get_revision rev r.revisions) c _ inv (λ v. inv))
  step-GraphInv (publish compile now id rev author reason) c inv =
      after-need (lookup id c.records) c _ inv (λ r.
        after-need (get_revision rev r.revisions) c _ inv (λ v.
          after-if (is_published v.state) c _ _ inv
            (publish_with-GraphInv now id rev author reason c r v (compile v.scenario) inv)))
  step-GraphInv (roll_back now id target author reason) c inv =
      after-need (lookup id c.records) c _ inv (λ r.
        after-need (get_version target r.revisions) c _ inv
          (λ v. update_dependencies-GraphInv id v.manifest c.deps inv))
  step-GraphInv (set now id status author reason) c inv =
      after-need (lookup id c.records) c _ inv (λ r. dropped-GraphInv (drops status) id c.deps inv)

  pub new-GraphInv : GraphInv (new_catalog {B = B}).deps
  unfolding new_catalog found users member
  new-GraphInv = record {
    on_capabilities = λ dep s. refl;
    on_entities = λ dep s. refl;
    on_subflows = λ dep s. refl;
  }

  run-GraphInv :
      (calls : List (Call B)) (c : Catalog B)
      → GraphInv c.deps
      → GraphInv (run valid digest calls c).deps
  unfolding run
  run-GraphInv [] c inv = inv
  run-GraphInv (call ∷ calls) c inv =
      run-GraphInv calls (step valid digest call c) (step-GraphInv call c inv)

  -- Whatever calls a new catalog gets, a scenario is listed under a capability, an entity or a subflow
  -- exactly if that stands among the scenario's own dependencies.
  pub reachable-GraphInv :
      (calls : List (Call B)) → GraphInv (run valid digest calls new_catalog).deps
  reachable-GraphInv calls = run-GraphInv calls new_catalog new-GraphInv
