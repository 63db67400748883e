-- ===== src/Scenario/Catalog/Tests.antt =====
-- Runs of the catalog on one scenario.
use home_sentinel.Base.{
  ◌≡◌, refl, String, show, Bool, true, Option, none, some, List, [], ◌∷◌, lookup, insert,
}
use home_sentinel.Scenario.Catalog.{
  immutable, archived, Scenario, SimulationSummary, Revision, ScenarioRecord, Catalog, is_published,
  get_revision, write,
}
use home_sentinel.Scenario.Catalog.Dependency.{Manifest, subflows_of, update_dependencies}
use home_sentinel.Scenario.Catalog.Operations.{
  failed, done, first_draft, with_draft, update_draft, validate_draft, new_catalog,
}
use home_sentinel.Scenario.Catalog.Releases.{
  promoted, released, publish_draft, publish_with, rollback, get_active_revision,
}
use home_sentinel.Scenario.Catalog.Runs.{Call, create, update, simulate, publish, set, after, run}
use home_sentinel.Scenario.Catalog.Published.{published_in}
use home_sentinel.Scenario.Catalog.Frozen.{run-frozen}
use home_sentinel.Scenario.Catalog.Graph.{
  GraphInv, Lists, new-GraphInv, update_dependencies-Lists, reachable-GraphInv,
}
use home_sentinel.Scenario.Catalog.Current.{publish_draft-current}
use home_sentinel.Scenario.Catalog.Reopened.{validate-reopens}

abbrev ok : Scenario Unit → Bool
ok s = true

abbrev same : String → String
same s = s

abbrev scene : Scenario Unit
scene = record { id = "night"; revision_id = ""; name = "Night"; description = ""; body = tt }

abbrev manifest : Manifest
manifest = record {
  capability_versions = "siren.on" ∷ [];
  referenced_entities = (record { kind = "door"; id = "front" }) ∷ [];
  adgo_plan = none;
  plan_digest = "p";
}

abbrev compiler : Scenario Unit → Option Manifest
compiler s = some manifest

abbrev summary : SimulationSummary
summary = record { simulated_at = 6; passed = true; trace_steps = 2; summary = "" }

abbrev v0 : Revision Unit
v0 = first_draft ok same 1 scene "ann"

abbrev r0 : ScenarioRecord Unit
r0 = with_draft ok same 1 scene "ann" none

abbrev empty : Catalog Unit
empty = new_catalog

abbrev c0 : Catalog Unit
c0 = record { records = ("night", r0) ∷ []; deps = empty.deps }

abbrev v1 : Revision Unit
v1 = promoted ok same 2 "night" "ann" "go" 1 manifest v0

abbrev r1 : ScenarioRecord Unit
r1 = released ok same 2 "rev_1" "ann" "go" 1 v1 r0

abbrev c1 : Catalog Unit
c1 = record {
  records = ("night", r1) ∷ [];
  deps = update_dependencies "night" (some manifest) empty.deps;
}

abbrev calls : List (Call Unit)
calls = create 1 scene "ann" ∷ publish compiler 2 "night" "rev_1" "ann" "go" ∷ []

abbrev later_calls : List (Call Unit)
later_calls =
    create 3 scene "bob"
    ∷ update 4 "night" "rev_1" "" scene "bob"
    ∷ simulate "night" "rev_1" summary
    ∷ set 5 "night" archived "bob" ""
    ∷ []

run-frozen_example : published_in "night" "rev_1" (run ok same later_calls c1).records ≡ some v1
unfolding get_revision lookup first_draft with_draft promoted released write show
run-frozen_example =
    run-frozen ok same "night" "rev_1" v1 later_calls c1 (tt, (tt, (tt, (tt, tt)))) refl

update_dependencies-Lists_example :
    Lists "night"
      ("siren.on" ∷ [])
      empty.deps.capabilities
      (update_dependencies "night" (some manifest) empty.deps).capabilities
    × (Lists "night"
        ("door:front" ∷ [])
        empty.deps.entities
        (update_dependencies "night" (some manifest) empty.deps).entities)
    × (Lists "night" [] empty.deps.subflows
        (update_dependencies "night" (some manifest) empty.deps).subflows)
unfolding subflows_of
update_dependencies-Lists_example =
    update_dependencies-Lists "night" manifest empty.deps (new-GraphInv ok same)

reachable-GraphInv_example : GraphInv (run ok same calls new_catalog).deps
reachable-GraphInv_example = reachable-GraphInv ok same calls

publish_draft-current_example :
    (get_active_revision ok same "night" c1 ≡ done c1 v1)
    × (is_published v1.state ≡ true)
    × (v1.version ≡ 1)
unfolding publish_draft publish_with lookup insert get_revision first_draft with_draft promoted
    released write show
publish_draft-current_example =
    publish_draft-current ok same compiler 2 "night" "rev_1" "ann" "go" c0 c1 r0 v1 refl refl refl

validate-reopens_example :
    (update_draft ok same 3 "night" "rev_1" "" scene "bob" c1 ≡ failed immutable)
    × ((d : Catalog Unit) × (w : Revision Unit) × (update_draft ok same 3 "night" "rev_1" "" scene
            "bob"
            (after c1 (validate_draft ok same compiler "night" "rev_1" c1))
          ≡ done d w)
        × (w.scenario ≡ record scene { id = "night"; revision_id = "rev_1" }))
unfolding lookup get_revision first_draft with_draft promoted released write show
validate-reopens_example =
    validate-reopens ok same compiler 3 "night" "rev_1" scene "bob" c1 r1 v1 manifest refl refl refl
      refl refl

-- A second draft, and the catalog after a rollback to the first version.
abbrev c2 : Catalog Unit
c2 = record { records = ("night", with_draft ok same 3 scene "bob" (some r1)) ∷ []; deps = c1.deps }

abbrev c3 : Catalog Unit
c3 = after c2 (rollback ok same 4 "night" 1 "bob" "" c2)

abbrev w3 : Revision Unit
w3 = promoted ok same 5 "night" "bob" "" 2 manifest (first_draft ok same 3 scene "bob")
