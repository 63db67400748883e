-- ===== src/Scenario/Capability/Descriptor/Validate.antt =====
-- internal/scenario/capability/descriptor.go, schema.go and ui_hints.go: normalization and validation. `none`
-- and `false` are an error. JSON is the parameter of Scenario/Values.
use home_sentinel.Base.{
  String, str_eq, trim_text, Bool, true, false, not, ◌&&◌, ◌||◌, Option, none, some, List, [], ◌∷◌,
  map, every, if◌then◌else◌, has_text, sort_texts, pos,
}
use home_sentinel.Scenario.Model.{TypeRef, type_ref, enum, Value, low}
use home_sentinel.Scenario.Types.{normalize, compatible, same_kind}
use home_sentinel.Scenario.Values.{Json, canonical}
use home_sentinel.Scenario.Capability.Version.{parse_version}
use home_sentinel.Scenario.Capability.Descriptor.{
  Kind, no_idempotency, no_verification, no_compensation, healthy, everyone, FieldSchema, UiHints,
  Descriptor, valid_id, valid_visibility, valid_health, valid_kind, valid_idempotency,
  valid_verification, valid_compensation, valid_risk, is_action, is_idempotent, is_some, is_empty,
  all,
}

-- The loop of `normalizeStrings`, with the values found so far.
unfoldable pub distinct_texts : List String → List String → List String
unfolding trim_text has_text
distinct_texts [] found = found
distinct_texts (value ∷ values) found =
    let v = trim_text value in
    let skip = distinct_texts values found in
    let keep = distinct_texts values (v ∷ found) in
    if str_eq v "" || has_text v found then skip else keep

-- `normalizeStrings`.
unfoldable pub normalize_strings : List String → List String
unfolding distinct_texts sort_texts
normalize_strings values = sort_texts (distinct_texts values [])

-- `normalizeUIHints`.
unfoldable pub normalize_hints : UiHints → UiHints
unfolding trim_text normalize_strings
normalize_hints h = record {
  icon = trim_text h.icon;
  group = trim_text h.group;
  control = trim_text h.control;
  placeholder = trim_text h.placeholder;
  unit = trim_text h.unit;
  order = h.order;
  advanced = h.advanced;
  options = normalize_strings h.options;
}

abbrev pub normal_or : TypeRef → Option TypeRef → TypeRef
normal_or t none = t
normal_or t (some u) = u

-- The loop's body in `normalizeSchema`.
unfoldable pub normalize_field : FieldSchema → FieldSchema
unfolding trim_text normalize
normalize_field f = record f {
  name = trim_text f.name;
  description = trim_text f.description;
  type = normal_or f.type (normalize f.type);
}

abbrev pub is_enum : TypeRef → Bool
is_enum (type_ref k unit name entity values el) = same_kind k enum

module _ (j : Json) where
  abbrev default_fits : TypeRef → Option Value → Bool
  default_fits t none = true
  default_fits t (some v) = is_some (canonical j v) && compatible t v.type

  abbrev pub field_fits : Option TypeRef → FieldSchema → Bool
  field_fits none f = false
  field_fits (some t) f = (is_empty f.values || is_enum t) && default_fits t f.default

  -- The loop of `Schema.Validate`, with the names seen so far.
  unfoldable pub valid_fields : List FieldSchema → List String → Bool
  unfolding valid_id normalize has_text compatible canonical same_kind
  valid_fields [] seen = true
  valid_fields (f ∷ fs) seen =
      valid_id f.name
      && (field_fits (normalize f.type) f
          && (not (has_text f.name seen) && valid_fields fs (f.name ∷ seen)))

  -- `Schema.Validate`.
  unfoldable pub valid_schema : List FieldSchema → Bool
  unfolding valid_fields
  valid_schema fs = valid_fields fs []

  -- `Descriptor.Validate`.
  unfoldable pub valid_descriptor : Descriptor → Bool
  unfolding valid_id parse_version trim_text valid_schema
  valid_descriptor d = all (
      valid_id d.key.id
      ∷ is_some (parse_version d.key.version)
      ∷ valid_id d.provider_id
      ∷ valid_id d.integration_id
      ∷ valid_kind d.kind
      ∷ not (str_eq (trim_text d.category) "")
      ∷ not (str_eq (trim_text d.title) "")
      ∷ valid_risk d.risk
      ∷ valid_id d.permission
      ∷ valid_visibility d.visibility
      ∷ valid_schema d.input
      ∷ valid_schema d.output
      ∷ valid_schema d.status
      ∷ valid_idempotency d.idempotency
      ∷ valid_verification d.verification
      ∷ valid_compensation d.compensation
      ∷ valid_health d.health
      ∷ (not d.external_effect || is_action d.kind)
      ∷ (not d.external_effect || is_idempotent d.idempotency)
      ∷ every valid_id d.entity_kinds
      ∷ [])

  -- A default goes through `MarshalJSON` and `UnmarshalJSON`, which both make it canonical.
  abbrev clone_value : Option Value → Option (Option Value)
  clone_value none = some none
  clone_value (some v) = elim (canonical j v) [
    | none ↦ none
    | some w ↦ elim (canonical j w) [ none ↦ none | some x ↦ some (some x) ]
  ]

  unfoldable pub clone_fields : List FieldSchema → Option (List FieldSchema)
  unfolding canonical
  clone_fields [] = some []
  clone_fields (f ∷ fs) = elim (clone_value f.default) [
    | none ↦ none
    | some v ↦ elim (clone_fields fs) [
      | none ↦ none
      | some gs ↦ some (record f { default = v } ∷ gs)
    ]
  ]

  abbrev pub with_fields :
      Descriptor → (input output status : Option (List FieldSchema)) → Option Descriptor
  with_fields d (some i) (some o) (some s) = some (record d { input = i; output = o; status = s })
  with_fields d _ _ _ = none

  -- `cloneDescriptor`: the copy by JSON.
  unfoldable pub clone_descriptor : Descriptor → Option Descriptor
  unfolding clone_fields
  clone_descriptor d =
      with_fields d (clone_fields d.input) (clone_fields d.output) (clone_fields d.status)

  unfoldable pub trimmed : Descriptor → Descriptor
  unfolding trim_text normalize_strings normalize_field normalize_hints
  trimmed d = record d {
    key = record { id = trim_text d.key.id; version = trim_text d.key.version };
    provider_id = trim_text d.provider_id;
    integration_id = trim_text d.integration_id;
    category = trim_text d.category;
    title = trim_text d.title;
    description = trim_text d.description;
    entity_kinds = normalize_strings d.entity_kinds;
    input = map normalize_field d.input;
    output = map normalize_field d.output;
    status = map normalize_field d.status;
    ui = normalize_hints d.ui;
  }

  abbrev validated : Option Descriptor → Option Descriptor
  validated none = none
  validated (some d) = if valid_descriptor (trimmed d) then some (trimmed d) else none

  -- `NormalizeDescriptor`.
  unfoldable pub normalize_descriptor : Descriptor → Option Descriptor
  unfolding clone_descriptor valid_descriptor trimmed
  normalize_descriptor source = validated (clone_descriptor source)

  -- `NewDescriptor`.
  unfoldable pub new_descriptor :
      Kind
      → (id version provider integration category title permission : String) → Option Descriptor
  unfolding normalize_descriptor
  new_descriptor k id version provider integration category title permission =
      normalize_descriptor (record {
        key = record { id = id; version = version };
        provider_id = provider;
        integration_id = integration;
        kind = k;
        category = category;
        title = title;
        description = "";
        entity_kinds = [];
        input = [];
        output = [];
        status = [];
        risk = low;
        permission = permission;
        visibility = everyone;
        reversible = false;
        external_effect = false;
        idempotency = no_idempotency;
        verification = no_verification;
        compensation = no_compensation;
        ui = record {
          icon = "";
          group = "";
          control = "";
          placeholder = "";
          unit = "";
          order = pos 0;
          advanced = false;
          options = [];
        };
        available = true;
        health = healthy;
      })
