-- ===== src/Scenario/Capability/Entity.antt =====
-- internal/scenario/capability/entity.go. `none` and `false` are an error.
pub mod Separator
use home_sentinel.Base.{
  String, str_eq, trim_text, Bool, true, false, not, ◌&&◌, Option, none, some, List, [], ◌∷◌, map,
  if◌then◌else◌, has_text, text_before,
}
use home_sentinel.Scenario.Capability.Version.{SemVer, parse_version}
use home_sentinel.Scenario.Capability.Descriptor.{
  Visibility, HealthStatus, Key, key_text, valid_id, valid_visibility, valid_health, is_some,
  is_empty, all,
}

pub record EntityDescriptor : Type 0 where
  pub id : String
  pub kind : String
  pub provider_id : String
  pub integration_id : String
  pub title : String
  pub description : String
  pub area : String
  pub capabilities : List Key
  pub visibility : Visibility
  pub available : Bool
  pub health : HealthStatus

-- The loop over the keys, with those seen so far.
unfoldable pub valid_keys : List Key → List String → Bool
unfolding valid_id parse_version has_text key_text
valid_keys [] seen = true
valid_keys (k ∷ ks) seen =
    valid_id k.id
    && (is_some (parse_version k.version)
        && (not (has_text (key_text k) seen) && valid_keys ks (key_text k ∷ seen)))

-- `EntityDescriptor.Validate`.
unfoldable pub valid_entity : EntityDescriptor → Bool
unfolding valid_id trim_text valid_keys
valid_entity e = all (
    valid_id e.id
    ∷ valid_id e.kind
    ∷ valid_id e.provider_id
    ∷ valid_id e.integration_id
    ∷ not (str_eq (trim_text e.title) "")
    ∷ valid_visibility e.visibility
    ∷ valid_health e.health
    ∷ not (is_empty e.capabilities)
    ∷ valid_keys e.capabilities []
    ∷ [])

abbrev trim_key : Key → Key
trim_key k = record { id = trim_text k.id; version = trim_text k.version }

-- `sort.Slice` on the keys' texts. It need not be stable; keys that are valid have different texts.
unfoldable pub key_in : Key → List Key → List Key
unfolding text_before key_text
key_in a [] = a ∷ []
key_in a (b ∷ bs) =
    let rest = key_in a bs in if text_before (key_text b) (key_text a) then b ∷ rest else a ∷ b ∷ bs

unfoldable pub sort_keys : List Key → List Key
unfolding key_in
sort_keys [] = []
sort_keys (a ∷ rest) = key_in a (sort_keys rest)

unfoldable pub trimmed_entity : EntityDescriptor → EntityDescriptor
unfolding trim_text sort_keys
trimmed_entity e = record e {
  id = trim_text e.id;
  kind = trim_text e.kind;
  provider_id = trim_text e.provider_id;
  integration_id = trim_text e.integration_id;
  title = trim_text e.title;
  description = trim_text e.description;
  area = trim_text e.area;
  capabilities = sort_keys (map trim_key e.capabilities);
}

-- `normalizeEntity`; the copy by JSON changes nothing.
unfoldable pub normalize_entity : EntityDescriptor → Option EntityDescriptor
unfolding valid_entity trimmed_entity
normalize_entity source =
    if valid_entity (trimmed_entity source) then some (trimmed_entity source) else none
