-- ===== src/Scenario/Capability/Registry/Listing.antt =====
-- internal/scenario/capability/registry.go: what is listed for a role. `none` is an error. The sort need not be
-- stable in Go, so that the order of entries that compare equal is open.
use home_sentinel.Base.{
  String, str_eq, trim_text, text_before, Bool, true, false, not, ◌&&◌, ◌||◌, Option, none, some,
  List, [], ◌∷◌, if◌then◌else◌, Dict, lookup,
}
use home_sentinel.Scenario.Values.{Json}
use home_sentinel.Scenario.Capability.Version.{compare_version, is_lt}
use home_sentinel.Scenario.Capability.Descriptor.{
  Kind, trigger, action, state, other_kind, Role, Key, key_text, Descriptor, visible_to, valid_role,
}
use home_sentinel.Scenario.Capability.Descriptor.Validate.{clone_descriptor}
use home_sentinel.Scenario.Capability.Entity.{EntityDescriptor, normalize_entity}
use home_sentinel.Scenario.Capability.Registry.{Registry}
use home_sentinel.Scenario.Capability.Registry.Resolve.{version_at}

-- An empty kind, category or entity asks for all.
pub record Filter : Type 0 where
  pub role : Role
  pub kind : Kind
  pub category : String
  pub entity_id : String
  pub include_unavailable : Bool

abbrev pub is_no_kind : Kind → Bool
is_no_kind (other_kind s) = str_eq s ""
is_no_kind _ = false

abbrev pub is_same_kind : Kind → Kind → Bool
is_same_kind trigger trigger = true
is_same_kind action action = true
is_same_kind state state = true
is_same_kind (other_kind s) (other_kind t) = str_eq s t
is_same_kind _ _ = false

unfoldable pub is_among : String → List Key → Bool
unfolding key_text
is_among key [] = false
is_among key (k ∷ ks) = let rest = is_among key ks in if str_eq (key_text k) key then true else rest

-- The keys that the entity of the filter has; `none` stands for all.
abbrev pub is_wanted : Option (List Key) → String → Bool
is_wanted none key = true
is_wanted (some ks) key = is_among key ks

-- The tests of the loop of `List`.
unfoldable pub is_listed : Filter → Option (List Key) → String → Descriptor → Bool
unfolding is_among
is_listed f keys key d =
    if not (is_wanted keys key)
    then false
    else if not (is_no_kind f.kind) && not (is_same_kind d.kind f.kind)
    then false
    else if not (str_eq f.category "") && not (str_eq d.category f.category)
    then false
    else if not (visible_to d.visibility f.role)
    then false
    else if not f.include_unavailable && not d.available
    then false
    else true

abbrev pub put {ℓ} : {A : Type ℓ} → Option A → Option (List A) → Option (List A)
put none rest = none
put (some x) none = none
put (some x) (some xs) = some (x ∷ xs)

unfoldable pub listed_over :
    Json → Filter → Option (List Key) → Dict Descriptor → Option (List Descriptor)
unfolding is_listed clone_descriptor
listed_over j f keys [] = some []
listed_over j f keys (entry ∷ rest) =
    let more = listed_over j f keys rest in
    if is_listed f keys entry.0 entry.1 then put (clone_descriptor j entry.1) more else more

-- The order of `sort.Slice` in `List`.
unfoldable pub listed_before : Descriptor → Descriptor → Bool
unfolding text_before compare_version version_at
listed_before a b =
    if not (str_eq a.category b.category)
    then text_before a.category b.category
    else if not (str_eq a.key.id b.key.id)
    then text_before a.key.id b.key.id
    else is_lt (compare_version (version_at a) (version_at b))

-- A sort by insertion.
module _ {A : Type 0} (before : A → A → Bool) where
  unfoldable pub put_in : A → List A → List A
  put_in a [] = a ∷ []
  put_in a (b ∷ bs) = let rest = put_in a bs in if before b a then b ∷ rest else a ∷ b ∷ bs

  unfoldable pub sort_by : List A → List A
  unfolding put_in
  sort_by [] = []
  sort_by (a ∷ rest) = put_in a (sort_by rest)

abbrev pub sorted_by : {A : Type 0} → (A → A → Bool) → Option (List A) → Option (List A)
sorted_by before none = none
sorted_by before (some xs) = some (sort_by before xs)

-- An entity that is not there has nothing to list.
abbrev pub listed_for :
    Json → Filter → Option EntityDescriptor → Registry → Option (List Descriptor)
listed_for j f none r = some []
listed_for j f (some e) r =
    sorted_by listed_before (listed_over j f (some e.capabilities) r.capabilities)

-- `List`.
unfoldable pub list : Json → Filter → Registry → Option (List Descriptor)
unfolding listed_over listed_before sort_by trim_text lookup
list j f r =
    if not (valid_role f.role)
    then none
    else if not (str_eq (trim_text f.entity_id) "")
    then listed_for j f (lookup f.entity_id r.entities) r
    else sorted_by listed_before (listed_over j f none r.capabilities)

-- `entityHasVisibleCapabilityLocked`.
unfoldable pub has_visible : List Key → Role → Bool → Registry → Bool
unfolding lookup key_text
has_visible [] role all r = false
has_visible (k ∷ ks) role all r =
    let rest = has_visible ks role all r in
    elim (lookup (key_text k) r.capabilities) [
      | none ↦ rest
      | some d ↦ if visible_to d.visibility role && (all || d.available) then true else rest
    ]

-- The tests of the loop of `ListEntities`.
unfoldable pub is_listed_entity : Role → Bool → Registry → EntityDescriptor → Bool
unfolding has_visible
is_listed_entity role all r e =
    visible_to e.visibility role && ((all || e.available) && has_visible e.capabilities role all r)

unfoldable pub entities_over :
    Role → Bool → Registry → Dict EntityDescriptor → Option (List EntityDescriptor)
unfolding is_listed_entity normalize_entity
entities_over role all r [] = some []
entities_over role all r (entry ∷ rest) =
    let more = entities_over role all r rest in
    if is_listed_entity role all r entry.1 then put (normalize_entity entry.1) more else more

-- `ListEntities`.
unfoldable pub list_entities : Role → Bool → Registry → Option (List EntityDescriptor)
unfolding entities_over sort_by text_before
list_entities role all r =
    if not (valid_role role)
    then none
    else sorted_by (λ a b. text_before a.id b.id) (entities_over role all r r.entities)
