-- ===== src/Scenario/Types.antt =====
-- internal/scenario/model/type.go: normalization, validity and compatibility of types. `none` is an error.
pub mod Fuel
pub mod Partial
use home_sentinel.Base.{
  ℕ, zero, suc, max, ◌==◌, String, str_eq, trim_text, lower_text, Bool, true, false, not, ◌&&◌,
  ◌||◌, Option, none, some, List, [], ◌∷◌, length, if◌then◌else◌, has_text, sort_texts,
}
use home_sentinel.Scenario.Model.{
  ValueKind, bool, string, int, float, duration, time_of_day, timestamp, percentage, confidence,
  temperature, illuminance, distance, enum, entity_ref, artifact_ref, list, unknown_kind, TypeRef,
  type_ref, Element, no_element, element,
}

unfoldable pub ValueKind-discrete : Discrete ValueKind
ValueKind-discrete = hlevel

-- `left.Kind == right.Kind`.
unfoldable pub same_kind : ValueKind → ValueKind → Bool
unfolding ValueKind-discrete
same_kind a b = elim (ValueKind-discrete a b) [ yes _ ↦ true | no _ ↦ false ]

abbrev pub kind : TypeRef → ValueKind
kind (type_ref k unit name entity values el) = k

-- A type that has a kind and nothing else.
abbrev pub plain : ValueKind → TypeRef
plain k = type_ref k "" "" "" [] no_element

-- `canonicalUnit`; `none` is a kind that is no quantity.
abbrev pub canonical_unit : ValueKind → Option String
canonical_unit duration = some "ns"
canonical_unit percentage = some "ratio"
canonical_unit confidence = some "ratio"
canonical_unit temperature = some "celsius"
canonical_unit illuminance = some "lux"
canonical_unit distance = some "meter"
canonical_unit _ = none

abbrev unit_fits : Option String → String → Bool
unit_fits none unit = str_eq unit ""
unit_fits (some canonical) unit = str_eq unit canonical

abbrev is_empty : List String → Bool
is_empty [] = true
is_empty (x ∷ xs) = false

abbrev has_element : Element → Bool
has_element no_element = false
has_element (element t) = true

-- The `switch` of `Validate`, with the verdict on the element type.
abbrev shape_fits : ValueKind → (name entity : String) → List String → Element → Bool → Bool
shape_fits enum name entity values el inner =
    not (str_eq name "") && (not (is_empty values) && (not (has_element el) && str_eq entity ""))
shape_fits entity_ref name entity values el inner =
    str_eq name "" && (not (str_eq entity "") && (not (has_element el) && is_empty values))
shape_fits list name entity values el inner =
    str_eq name "" && (has_element el && (is_empty values && (str_eq entity "" && inner)))
shape_fits unknown_kind name entity values el inner = false
shape_fits _ name entity values el inner =
    str_eq name "" && (not (has_element el) && (is_empty values && str_eq entity ""))

-- `TypeRef.Validate`.
unfoldable mutual
  pub valid_type : TypeRef → Bool
  valid_type (type_ref k unit name entity values el) =
      let inner = valid_element el in
      shape_fits k name entity values el inner && unit_fits (canonical_unit k) unit

  pub valid_element : Element → Bool
  valid_element no_element = true
  valid_element (element t) = valid_type t

-- The loop over the values of an enumeration, with the values found so far.
unfoldable pub trim_values : List String → List String → Option (List String)
unfolding trim_text has_text
trim_values [] found = some found
trim_values (value ∷ values) found =
    let v = trim_text value in
    let skip = trim_values values found in
    let keep = trim_values values (v ∷ found) in
    if str_eq v "" then none else if has_text v found then skip else keep

abbrev sorted : Option (List String) → Option (List String)
sorted none = none
sorted (some values) = some (sort_texts values)

unfoldable pub normalize_values : List String → Option (List String)
unfolding trim_values sort_texts
normalize_values values = sorted (trim_values values [])

abbrev checked : TypeRef → Option TypeRef
checked t = if valid_type t then some t else none

-- The normalized parts put together, and validated.
abbrev pub assemble :
    ValueKind → (unit name entity : String) → Option (List String) → Option Element → Option TypeRef
assemble k unit name entity none el = none
assemble k unit name entity (some values) none = none
assemble k unit name entity (some values) (some el) =
    checked (type_ref k unit name entity values el)

abbrev pub as_element : Option TypeRef → Option Element
as_element none = none
as_element (some t) = some (element t)

-- `TypeRef.Normalize`.
unfoldable mutual
  unfolding normalize_values trim_text lower_text valid_type

  pub normalize : TypeRef → Option TypeRef
  normalize (type_ref k unit name entity values el) =
      assemble k (trim_text (lower_text unit)) (trim_text name) (trim_text entity)
        (normalize_values values) (normalize_element el)

  pub normalize_element : Element → Option Element
  normalize_element no_element = some no_element
  normalize_element (element t) = as_element (normalize t)

-- The values of two enumerations, one by one.
unfoldable pub same_values : List String → List String → Bool
same_values [] [] = true
same_values (x ∷ xs) (y ∷ ys) = str_eq x y && same_values xs ys
same_values _ _ = false

-- A list that was normalized has an element type.
abbrev pub same_element : (TypeRef → TypeRef → Bool) → Element → Element → Bool
same_element same (element t) (element u) = same t u
same_element same _ _ = false

-- The `switch` of `Compatible` on two types of one kind.
abbrev pub same_detail : (TypeRef → TypeRef → Bool) → TypeRef → TypeRef → Bool
same_detail same (type_ref enum u n e v l) (type_ref k2 u2 n2 e2 v2 l2) =
    str_eq n n2 && (same_values v v2 && str_eq u u2)
same_detail same (type_ref entity_ref u n e v l) (type_ref k2 u2 n2 e2 v2 l2) = str_eq e e2
same_detail same (type_ref list u n e v l) (type_ref k2 u2 n2 e2 v2 l2) = same_element same l l2
same_detail same (type_ref _ u n e v l) (type_ref k2 u2 n2 e2 v2 l2) = str_eq u u2

abbrev pub same_normal : (TypeRef → TypeRef → Bool) → Option TypeRef → Option TypeRef → Bool
same_normal same none right = false
same_normal same (some l) none = false
same_normal same (some l) (some r) = same_kind (kind l) (kind r) && same_detail same l r

-- `Compatible` calls itself on the element types of the normalized types, as deep as `fuel`.
unfoldable pub compatible_within : ℕ → TypeRef → TypeRef → Bool
unfolding normalize same_kind same_values
compatible_within zero t u = false
compatible_within (suc fuel) t u = same_normal (compatible_within fuel) (normalize t) (normalize u)

-- How deep the element types of a type go.
abbrev mutual
  pub depth : TypeRef → ℕ
  depth (type_ref k unit name entity values el) = suc (element_depth el)

  pub element_depth : Element → ℕ
  element_depth no_element = 0
  element_depth (element t) = depth t

-- `TypeRef.Compatible`.
unfoldable pub compatible : TypeRef → TypeRef → Bool
unfolding compatible_within
compatible t u = compatible_within (depth t) t u

-- `TypeRef.Ordered`.
abbrev pub ordered : ValueKind → Bool
ordered bool = false
ordered enum = false
ordered entity_ref = false
ordered artifact_ref = false
ordered list = false
ordered unknown_kind = false
ordered _ = true

-- `TypeRef.Numeric`.
abbrev pub numeric : ValueKind → Bool
numeric int = true
numeric float = true
numeric percentage = true
numeric confidence = true
numeric temperature = true
numeric illuminance = true
numeric distance = true
numeric _ = false
