-- ===== src/Scenario/Capability/Tests.antt =====
-- Runs of the capability registry.
use home_sentinel.Base.{
  ◌↔◌, ◌≡◌, refl, String, true, false, none, some, List, [], ◌∷◌, every, Dict, arith, pos,
}
use home_sentinel.Scenario.Model.{
  enum, low, TypeRef, type_ref, Value, Expr, expr, no_args, no_element,
}
use home_sentinel.Scenario.Values.Sample.{json}
use home_sentinel.Scenario.Capability.Version.{
  SemVer, parse_version, compare_version, version_text, backward_compatible,
}
use home_sentinel.Scenario.Capability.Version.RoundTrip.{parse_version-text}
use home_sentinel.Scenario.Capability.Version.Order.{backward_compatible-IsOrder}
use home_sentinel.Scenario.Capability.Descriptor.{
  Descriptor, FieldSchema, UiHints, action, operators, operator, healthy, required, no_verification,
  no_compensation, other_kind,
}
use home_sentinel.Scenario.Capability.Descriptor.Validate.{valid_schema}
use home_sentinel.Scenario.Capability.Entity.{EntityDescriptor}
use home_sentinel.Scenario.Capability.Arguments.{validate_action_arguments}
use home_sentinel.Scenario.Capability.Arguments.Choices.{
  unlisted, validate_action_arguments-unlisted,
}
use home_sentinel.Scenario.Capability.Registry.{
  Registry, new_registry, no_dependencies, register, register_entity, remove,
}
use home_sentinel.Scenario.Capability.Registry.References.{IsIntact}
use home_sentinel.Scenario.Capability.Registry.Integrity.{
  Operation, registers, registers_entity, removes, run, run-IsIntact,
}
use home_sentinel.Scenario.Capability.Registry.Resolve.{
  IsResolved, is_candidate, version_at, best_over, resolve_compatible-IsResolved,
}
use home_sentinel.Scenario.Capability.Registry.First.{IsFirst, best_over-IsFirst}
use home_sentinel.Scenario.Capability.Registry.Listing.{Filter, list, list_entities}
use home_sentinel.Scenario.Capability.Registry.Visible.{shows, shows_entity, list-shows}

abbrev v : SemVer
v = record { major = 12; minor = 0; patch = 305 }

parse_version-text_example : parse_version (version_text v) ≡ some v
parse_version-text_example = parse_version-text v (ground arith) (ground arith) (ground arith)

abbrev v1 : SemVer
v1 = record { major = 1; minor = 0; patch = 0 }

v1_text : parse_version "1.0.0" ≡ some v1
unfolding parse_version
v1_text = refl

backward_compatible-IsOrder_example :
    (backward_compatible "1.0.0" "1.0.0" ≡ true)
    × (backward_compatible "1.0.0" "1.2.0" ≡ true
        → backward_compatible "1.2.0" "1.10.0" ≡ true
        → backward_compatible "1.0.0" "1.10.0" ≡ true)
    × (backward_compatible "1.0.0" "1.2.0" ≡ true
        → backward_compatible "1.2.0" "1.0.0" ≡ true
        → parse_version "1.2.0" ≡ some v1)
backward_compatible-IsOrder_example =
    backward_compatible-IsOrder "1.0.0" "1.2.0" "1.10.0" v1 v1_text

abbrev priority_type : TypeRef
priority_type = type_ref enum "" "priority" "" ("high" ∷ "low" ∷ []) no_element

abbrev hints : UiHints
hints = record {
  icon = "";
  group = "";
  control = "";
  placeholder = "";
  unit = "";
  order = pos 0;
  advanced = false;
  options = [];
}

-- The schema offers one of the two values that the type has.
abbrev priority : FieldSchema
priority = record {
  name = "priority";
  type = priority_type;
  is_required = true;
  description = "";
  values = "low" ∷ [];
  default = none;
}

abbrev unlock_at : String → Descriptor
unlock_at version = record {
  key = record { id = "door.unlock"; version = version };
  provider_id = "core";
  integration_id = "door";
  kind = action;
  category = "door";
  title = "Unlock";
  description = "";
  entity_kinds = "door" ∷ [];
  input = priority ∷ [];
  output = [];
  status = [];
  risk = low;
  permission = "door:unlock";
  visibility = operators;
  reversible = false;
  external_effect = true;
  idempotency = required;
  verification = no_verification;
  compensation = no_compensation;
  ui = hints;
  available = true;
  health = healthy;
}

abbrev front_door : EntityDescriptor
front_door = record {
  id = "door.front";
  kind = "door";
  provider_id = "core";
  integration_id = "door";
  title = "Front door";
  description = "";
  area = "";
  capabilities = record { id = "door.unlock"; version = "1.0.0" } ∷ [];
  visibility = operators;
  available = true;
  health = healthy;
}

abbrev filled : Registry
filled = record {
  capabilities =
      ("door.unlock@1.0.0", unlock_at "1.0.0") ∷ ("door.unlock@01.0.0", unlock_at "01.0.0") ∷ [];
  entities = ("door.front", front_door) ∷ [];
  usage = some no_dependencies;
}

abbrev history : List Operation
history =
    registers (unlock_at "1.0.0")
    ∷ registers (unlock_at "01.0.0")
    ∷ registers_entity front_door
    ∷ removes filled (record { id = "door.unlock"; version = "1.0.0" })
    ∷ []

-- The two texts of one version are two capabilities, and the one in use is not removed.
history_result : run json history (new_registry (some no_dependencies)) ≡ filled
unfolding run register register_entity remove
history_result = refl

run-IsIntact_example : IsIntact (run json history (new_registry (some no_dependencies)))
run-IsIntact_example = run-IsIntact json (some no_dependencies) history

resolve_compatible-IsResolved_example : IsResolved "door.unlock" "1.0.0" json filled
resolve_compatible-IsResolved_example =
    resolve_compatible-IsResolved "door.unlock" "1.0.0" json filled

best_over-IsFirst_example :
    (best_over "door.unlock" "1.0.0" filled.capabilities none ≡ some (unlock_at "1.0.0"))
    ↔ IsFirst "door.unlock" "1.0.0" (unlock_at "1.0.0") filled.capabilities
best_over-IsFirst_example =
    best_over-IsFirst "door.unlock" "1.0.0" filled.capabilities (unlock_at "1.0.0")

-- With the two entries in the other order, the loop keeps the other one.
best_over_other_order :
    best_over "door.unlock" "1.0.0"
      (("door.unlock@01.0.0", unlock_at "01.0.0") ∷ ("door.unlock@1.0.0", unlock_at "1.0.0") ∷ [])
      none
    ≡ some (unlock_at "01.0.0")
unfolding best_over is_candidate version_at compare_version
best_over_other_order = refl

abbrev by_operator : Filter
by_operator = record {
  role = operator;
  kind = other_kind "";
  category = "";
  entity_id = "door.front";
  include_unavailable = false;
}

front_listed : list json by_operator filled ≡ some (unlock_at "1.0.0" ∷ [])
unfolding list
front_listed = refl

entities_listed : list_entities operator false filled ≡ some (front_door ∷ [])
unfolding list_entities
entities_listed = refl

list-shows_example :
    (every (shows by_operator) (unlock_at "1.0.0" ∷ []) ≡ true)
    × (every (shows_entity operator false) (front_door ∷ []) ≡ true)
list-shows_example =
    list-shows json by_operator filled (unlock_at "1.0.0" ∷ []) (front_door ∷ []) front_listed
      entities_listed

abbrev high : Value
high = record { type = priority_type; raw = "high" }

abbrev arguments : Dict Expr
arguments = ("priority", expr "literal" "" (some high) no_args) ∷ []

priority_valid : valid_schema json (priority ∷ []) ≡ true
unfolding valid_schema
priority_valid = refl

-- An argument that the schema does not offer passes.
high_passes : validate_action_arguments json [] (unlock_at "1.0.0") arguments ≡ true
unfolding validate_action_arguments
high_passes = refl

validate_action_arguments-unlisted_example :
    validate_action_arguments json [] (unlock_at "1.0.0") arguments
    ≡ validate_action_arguments json []
        (record (unlock_at "1.0.0") { input = unlisted (priority ∷ []) })
        arguments
validate_action_arguments-unlisted_example =
    validate_action_arguments-unlisted json [] (unlock_at "1.0.0") arguments priority_valid
