-- ===== src/Scenario/Capability/Registry.antt =====
-- internal/scenario/capability/registry.go and usage.go. A map is a list of entries; Go ranges over it in any
-- order, and the theorems hold for each.
pub mod Integrity
pub mod Resolve
pub mod First
pub mod Listing
pub mod Shown
pub mod Visible
pub mod References
use home_sentinel.Base.{
  String, str_eq, trim_text, Bool, true, false, not, ◌&&◌, ◌||◌, Option, none, some, List, [], ◌∷◌,
  if◌then◌else◌, has_text, text_before, Dict, lookup, insert, erase,
}
use home_sentinel.Scenario.Values.{Json}
use home_sentinel.Scenario.Capability.Version.{
  SemVer, parse_version, compare_version, backward_compatible, is_lt, is_gt,
}
use home_sentinel.Scenario.Capability.Descriptor.{
  Kind, trigger, action, state, other_kind, HealthStatus, Role, Key, key_text, Descriptor,
  visible_to, valid_role, valid_health, is_some, is_empty,
}
use home_sentinel.Scenario.Capability.Descriptor.Validate.{clone_descriptor, normalize_descriptor}
use home_sentinel.Scenario.Capability.Entity.{EntityDescriptor, normalize_entity}

pub data Failure : Type 0 where
  invalid already_registered not_found in_use resolver_required entity_reference wrong_kind
        lookup_failed :
      Failure

pub record ScenarioUse : Type 0 where
  pub scenario : String
  pub version : String

-- `DependencyResolver`; `none` is an error.
pub record DependencyResolver : Type 0 where
  pub uses_capability : Key → Option (List ScenarioUse)
  pub uses_entity : String → Option (List ScenarioUse)

abbrev pub no_dependencies : DependencyResolver
no_dependencies = record { uses_capability = λ k. some []; uses_entity = λ id. some [] }

pub record Registry : Type 0 where
  pub capabilities : Dict Descriptor
  pub entities : Dict EntityDescriptor
  pub usage : Option DependencyResolver

-- `NewRegistry`.
abbrev pub new_registry : Option DependencyResolver → Registry
new_registry usage = record { capabilities = []; entities = []; usage = usage }

-- What an operation returns, and the registry after it.
pub data Outcome : Type 0 where
  done : Registry → Outcome
  refused : Failure → Registry → Outcome

abbrev pub after : Outcome → Registry
after (done r) = r
after (refused f r) = r

abbrev pub with_capability : String → Descriptor → Registry → Registry
with_capability key d r = record r { capabilities = insert key d r.capabilities }

abbrev pub with_entity : EntityDescriptor → Registry → Registry
with_entity e r = record r { entities = insert e.id e r.entities }

abbrev pub kind_fits : Descriptor → String → Bool
kind_fits d kind = is_empty d.entity_kinds || has_text kind d.entity_kinds

-- The loop over an entity's keys; `none` finds nothing wrong.
abbrev pub reference_fault : Option Descriptor → String → Option Failure → Option Failure
reference_fault none kind rest = some not_found
reference_fault (some d) kind rest = if kind_fits d kind then rest else some wrong_kind

unfoldable pub bad_reference : Dict Descriptor → String → List Key → Option Failure
unfolding lookup key_text has_text
bad_reference ds kind [] = none
bad_reference ds kind (k ∷ ks) =
    let rest = bad_reference ds kind ks in reference_fault (lookup (key_text k) ds) kind rest

-- `ref == key` on two structs.
abbrev pub same_key : Key → Key → Bool
same_key a b = str_eq a.id b.id && str_eq a.version b.version

unfoldable pub refers : Key → List Key → Bool
refers key [] = false
refers key (k ∷ ks) = let rest = refers key ks in if same_key k key then true else rest

-- `entityReferenceLocked`.
unfoldable pub entity_reference_to : Key → Dict EntityDescriptor → Option String
unfolding refers
entity_reference_to key [] = none
entity_reference_to key (entry ∷ rest) =
    let other = entity_reference_to key rest in
    if refers key entry.1.capabilities then some entry.1.id else other

abbrev pub answer : Registry → Option Failure → Registry → Outcome
answer r none next = done next
answer r (some f) next = refused f r

module _ (j : Json) where
  abbrev pub store_capability : Option Descriptor → Registry → Outcome
  store_capability none r = refused invalid r
  store_capability (some d) r =
      if is_some (lookup (key_text d.key) r.capabilities)
      then refused already_registered r
      else done (with_capability (key_text d.key) d r)

  -- `Register`.
  unfoldable pub register : Descriptor → Registry → Outcome
  unfolding normalize_descriptor lookup key_text insert
  register source r = store_capability (normalize_descriptor j source) r

  -- `Get`.
  unfoldable pub get : (id version : String) → Registry → Option Descriptor
  unfolding lookup key_text clone_descriptor
  get id version r =
      elim (lookup (key_text (record { id = id; version = version })) r.capabilities) [
        | none ↦ none
        | some d ↦ clone_descriptor j d
      ]

abbrev pub store_entity : Option EntityDescriptor → Registry → Outcome
store_entity none r = refused invalid r
store_entity (some e) r =
    if is_some (lookup e.id r.entities)
    then refused already_registered r
    else answer r (bad_reference r.capabilities e.kind e.capabilities) (with_entity e r)

-- `RegisterEntity`.
unfoldable pub register_entity : EntityDescriptor → Registry → Outcome
unfolding normalize_entity lookup insert bad_reference
register_entity source r = store_entity (normalize_entity source) r

-- `GetEntity`.
unfoldable pub get_entity : String → Registry → Option EntityDescriptor
unfolding lookup normalize_entity
get_entity id r = elim (lookup id r.entities) [ none ↦ none | some e ↦ normalize_entity e ]

abbrev pub set_if_found : Key → Bool → HealthStatus → Option Descriptor → Registry → Outcome
set_if_found key available level none r = refused not_found r
set_if_found key available level (some d) r =
    done (with_capability (key_text key) (record d { available = available; health = level }) r)

-- `SetCapabilityHealth`.
unfoldable pub set_capability_health : Key → Bool → HealthStatus → Registry → Outcome
unfolding lookup insert key_text
set_capability_health key available level r =
    if not (valid_health level)
    then refused invalid r
    else set_if_found key available level (lookup (key_text key) r.capabilities) r

abbrev pub set_entity_if_found :
    String → Bool → HealthStatus → Option EntityDescriptor → Registry → Outcome
set_entity_if_found id available level none r = refused not_found r
set_entity_if_found id available level (some e) r = done (record r {
  entities = insert id (record e { available = available; health = level }) r.entities;
})

-- `SetEntityHealth`; the entity is stored at `id`.
unfoldable pub set_entity_health : String → Bool → HealthStatus → Registry → Outcome
unfolding lookup insert
set_entity_health id available level r =
    if not (valid_health level)
    then refused invalid r
    else set_entity_if_found id available level (lookup id r.entities) r

-- The tests that `Remove` makes under the lock, before it asks for uses and again after it.
unfoldable pub removal_blocked : Key → Registry → Option Failure
unfolding lookup key_text entity_reference_to
removal_blocked key r =
    if not (is_some (lookup (key_text key) r.capabilities))
    then some not_found
    else if is_some (entity_reference_to key r.entities)
    then some entity_reference
    else none

abbrev pub unused : Option (List ScenarioUse) → Option Failure
unused none = some lookup_failed
unused (some []) = none
unused (some (u ∷ us)) = some in_use

abbrev capability_unused : Option DependencyResolver → Key → Option Failure
capability_unused none key = some resolver_required
capability_unused (some d) key = unused (d.uses_capability key)

abbrev entity_unused : Option DependencyResolver → String → Option Failure
entity_unused none id = some resolver_required
entity_unused (some d) id = unused (d.uses_entity id)

abbrev pub first_failure : Option Failure → Option Failure → Option Failure
first_failure none g = g
first_failure (some f) g = some f

-- `Remove`, which gives up the lock between its two parts: the first sees `before`, the second `now`.
unfoldable pub remove : (before : Registry) → Key → (now : Registry) → Outcome
unfolding removal_blocked erase key_text
remove before key now =
    let checked = first_failure (removal_blocked key before) (capability_unused before.usage key) in
    answer now (first_failure checked (removal_blocked key now))
      (record now { capabilities = erase (key_text key) now.capabilities })

-- `RemoveEntity`, in two parts like `Remove`.
abbrev pub entity_missing : String → Registry → Option Failure
entity_missing id r = if is_some (lookup id r.entities) then none else some not_found

unfoldable pub remove_entity : (before : Registry) → String → (now : Registry) → Outcome
unfolding lookup erase
remove_entity before id now =
    let checked = first_failure (entity_missing id before) (entity_unused before.usage id) in
    answer now (first_failure checked (entity_missing id now))
      (record now { entities = erase id now.entities })
