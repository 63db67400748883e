-- ===== src/Scenario/Values.antt =====
-- internal/scenario/model/value.go: the canonical form of a value. JSON, floats and the standard
-- library's times are a parameter, `Json`. The text `raw` is a value's JSON.
pub mod Sample
use home_sentinel.Base.{
  String, str_eq, trim_text, Bool, true, false, not, ◌&&◌, Option, none, some, List, [], ◌∷◌,
  if◌then◌else◌, has_text, ℤ, pos, negsuc,
}
use home_sentinel.Scenario.Model.{
  ValueKind, bool, string, int, float, duration, time_of_day, timestamp, percentage, confidence,
  temperature, illuminance, distance, enum, entity_ref, artifact_ref, list, unknown_kind, TypeRef,
  type_ref, Element, no_element, element, Value,
}
use home_sentinel.Scenario.Types.{normalize, plain}

pub record ArtifactValue : Type 0 where
  pub uri : String
  pub digest : String
  pub size : ℤ
  pub media_type : String

pub record EntityValue : Type 0 where
  pub id : String
  pub kind : String

-- encoding/json, math, time. Each `as_` decodes a text and fails as the library's call does: `as_int` and
-- `as_float` are `json.Number` with `Int64` or a finite `Float64`, `as_double` is `Unmarshal` into a
-- float64. `as_clock` is `ParseTimeOfDay` with `String`, `as_instant` RFC 3339 in UTC.
pub record Json : Type 1 where
  pub Float : Type 0
  pub is_json : String → Bool
  pub as_bool : String → Option Bool
  pub as_text : String → Option String
  pub as_int : String → Option ℤ
  pub as_float : String → Option Float
  pub as_double : String → Option Float
  pub as_entity : String → Option EntityValue
  pub as_artifact : String → Option ArtifactValue
  pub as_items : String → Option (List String)
  pub put_bool : Bool → String
  pub put_text : String → String
  pub put_int : ℤ → String
  pub put_float : Float → String
  pub put_entity : EntityValue → String
  pub put_artifact : ArtifactValue → String
  pub put_items : List String → String
  pub as_clock : String → Option String
  pub as_instant : String → Option String
  pub in_unit_interval : Float → Bool
  pub above_zero_kelvin : Float → Bool
  pub not_negative : Float → Bool
  pub is_finite : Float → Bool
  pub has_point : String → Bool
  pub lt : Float → Float → Bool
  pub le : Float → Float → Bool
  pub add : Float → Float → Float
  pub sub : Float → Float → Float
  pub mul : Float → Float → Float
  pub div : Float → Float → Float
  pub is_zero : Float → Bool
  pub join : String → String → String

abbrev pub then_put {ℓ} : {A : Type ℓ} → Option A → (A → Option String) → Option String
then_put none f = none
then_put (some a) f = f a

abbrev pub keep_if : Bool → String → Option String
keep_if b s = if b then some s else none

abbrev nonneg : ℤ → Bool
nonneg (pos n) = true
nonneg (negsuc n) = false

module _ (j : Json) where
  -- The bounds of a number, by its kind.
  abbrev pub in_bounds : ValueKind → j.Float → Bool
  in_bounds percentage x = j.in_unit_interval x
  in_bounds confidence x = j.in_unit_interval x
  in_bounds temperature x = j.above_zero_kelvin x
  in_bounds illuminance x = j.not_negative x
  in_bounds distance x = j.not_negative x
  in_bounds _ x = true

  abbrev pub put_number : ValueKind → String → Option String
  put_number k raw = then_put (j.as_float raw) (λ x. keep_if (in_bounds k x) (j.put_float x))

  abbrev put_trimmed_entity : String → EntityValue → Option String
  put_trimmed_entity target e =
      let id = trim_text e.id in
      let k = trim_text e.kind in
      keep_if (not (str_eq id "") && str_eq k target) (j.put_entity (record { id = id; kind = k }))

  abbrev put_trimmed_artifact : ArtifactValue → Option String
  put_trimmed_artifact a =
      let uri = trim_text a.uri in
      let digest = trim_text a.digest in
      keep_if (not (str_eq uri "") && (not (str_eq digest "") && nonneg a.size)) (
        j.put_artifact (record {
          uri = uri;
          digest = digest;
          size = a.size;
          media_type = trim_text a.media_type;
        }))

  -- The loop over the items of a list.
  unfoldable pub put_each : (String → Option String) → List String → Option (List String)
  put_each f [] = some []
  put_each f (x ∷ xs) = elim (f x) [
    | none ↦ none
    | some y ↦ elim (put_each f xs) [ none ↦ none | some ys ↦ some (y ∷ ys) ]
  ]

  -- `canonicalData`.
  unfoldable mutual
    unfolding put_each has_text trim_text

    pub canonical_data : TypeRef → String → Option String
    canonical_data (type_ref bool u n e v l) raw =
        then_put (j.as_bool raw) (λ b. some (j.put_bool b))
    canonical_data (type_ref string u n e v l) raw =
        then_put (j.as_text raw) (λ s. some (j.put_text s))
    canonical_data (type_ref int u n e v l) raw = then_put (j.as_int raw) (λ z. some (j.put_int z))
    canonical_data (type_ref duration u n e v l) raw =
        then_put (j.as_int raw) (λ z. keep_if (nonneg z) (j.put_int z))
    canonical_data (type_ref float u n e v l) raw = put_number float raw
    canonical_data (type_ref percentage u n e v l) raw = put_number percentage raw
    canonical_data (type_ref confidence u n e v l) raw = put_number confidence raw
    canonical_data (type_ref temperature u n e v l) raw = put_number temperature raw
    canonical_data (type_ref illuminance u n e v l) raw = put_number illuminance raw
    canonical_data (type_ref distance u n e v l) raw = put_number distance raw
    canonical_data (type_ref time_of_day u n e v l) raw =
        then_put (j.as_text raw) (λ s. then_put (j.as_clock s) (λ t. some (j.put_text t)))
    canonical_data (type_ref timestamp u n e v l) raw =
        then_put (j.as_text raw) (λ s. then_put (j.as_instant s) (λ t. some (j.put_text t)))
    canonical_data (type_ref enum u n e v l) raw =
        then_put (j.as_text raw) (λ s. keep_if (has_text s v) (j.put_text s))
    canonical_data (type_ref entity_ref u n e v l) raw =
        then_put (j.as_entity raw) (put_trimmed_entity e)
    canonical_data (type_ref artifact_ref u n e v l) raw =
        then_put (j.as_artifact raw) put_trimmed_artifact
    canonical_data (type_ref list u n e v l) raw =
        let item = canonical_item l in
        then_put (j.as_items raw)
          (λ items. then_put (put_each item items) (λ out. some (j.put_items out)))
    canonical_data (type_ref unknown_kind u n e v l) raw = none

    -- A list that was normalized has an element type.
    pub canonical_item : Element → String → Option String
    canonical_item no_element raw = none
    canonical_item (element t) raw = canonical_data t raw

  abbrev pub with_type : TypeRef → Option String → Option Value
  with_type t none = none
  with_type t (some raw) = some (record { type = t; raw = raw })

  abbrev pub with_normal : Option TypeRef → String → Option Value
  with_normal none raw = none
  with_normal (some t) raw = if j.is_json raw then with_type t (canonical_data t raw) else none

  -- `Value.canonical`; an empty text is no JSON.
  unfoldable pub canonical : Value → Option Value
  unfolding canonical_data normalize
  canonical v = with_normal (normalize v.type) v.raw

  -- `ValueOf` on a Boolean and on a text, with the type that `inferType` finds.
  abbrev pub of_bool : Bool → Value
  of_bool b = record { type = plain bool; raw = j.put_bool b }

  abbrev pub of_text : String → Value
  of_text s = record { type = plain string; raw = j.put_text s }

  -- `inferDecodedType` on a number.
  abbrev pub infer_number : String → Option ValueKind
  infer_number raw =
      if j.has_point raw
      then elim (j.as_float raw) [ none ↦ none | some _ ↦ some float ]
      else elim (j.as_int raw) [ none ↦ none | some _ ↦ some int ]

  abbrev pub of_kind : String → Option ValueKind → Option Value
  of_kind raw none = none
  of_kind raw (some k) = canonical (record { type = plain k; raw = raw })

  -- `ValueOf` on a float; what is not finite has no JSON.
  unfoldable pub of_number : j.Float → Option Value
  unfolding canonical
  of_number x =
      let raw = j.put_float x in if j.is_finite x then of_kind raw (infer_number raw) else none
