-- ===== src/Scenario/Capability/Descriptor.antt =====
-- internal/scenario/capability/descriptor.go, schema.go, ui_hints.go and permission.go: the data and their tests.
pub mod Validate
use home_sentinel.Base.{
  ℕ, ◌<>◌, String, str_eq, codes, trim_text, byte_len, Bool, true, false, not, ◌&&◌, ◌||◌, Option,
  none, some, List, [], ◌∷◌, map, every, leb, ◌==◌, if◌then◌else◌, has_text, sort_texts, ℤ,
}
use home_sentinel.Scenario.Model.{
  TypeRef, type_ref, ValueKind, enum, Value, RiskLevel, low, medium, high, critical, unknown_risk,
}
use home_sentinel.Scenario.Types.{normalize, compatible, same_kind}
use home_sentinel.Scenario.Values.{Json, canonical}
use home_sentinel.Scenario.Capability.Version.{SemVer, parse_version}

pub data Kind : Type 0 where
  trigger action state : Kind
  other_kind : String → Kind

pub data Idempotency : Type 0 where
  no_idempotency supported required : Idempotency
  other_idempotency : String → Idempotency

pub data Verification : Type 0 where
  no_verification provider_ack readback : Verification
  other_verification : String → Verification

pub data Compensation : Type 0 where
  no_compensation automatic manual reconcile : Compensation
  other_compensation : String → Compensation

pub data HealthStatus : Type 0 where
  unknown healthy degraded offline : HealthStatus
  other_health : String → HealthStatus

pub data Visibility : Type 0 where
  everyone operators admins internal : Visibility
  other_visibility : String → Visibility

pub data Role : Type 0 where
  viewer operator security_admin system : Role
  other_role : String → Role

pub record Key : Type 0 where
  pub id : String
  pub version : String

-- `Key.String`.
unfoldable pub key_text : Key → String
key_text k = k.id <> ("@" <> k.version)

pub record FieldSchema : Type 0 where
  pub name : String
  pub type : TypeRef
  pub is_required : Bool
  pub description : String
  pub values : List String
  pub default : Option Value

pub record UiHints : Type 0 where
  pub icon : String
  pub group : String
  pub control : String
  pub placeholder : String
  pub unit : String
  pub order : ℤ
  pub advanced : Bool
  pub options : List String

-- `ID` and `Version` stand together, as `Key()` reads them.
pub record Descriptor : Type 0 where
  pub key : Key
  pub provider_id : String
  pub integration_id : String
  pub kind : Kind
  pub category : String
  pub title : String
  pub description : String
  pub entity_kinds : List String
  pub input : List FieldSchema
  pub output : List FieldSchema
  pub status : List FieldSchema
  pub risk : RiskLevel
  pub permission : String
  pub visibility : Visibility
  pub reversible : Bool
  pub external_effect : Bool
  pub idempotency : Idempotency
  pub verification : Verification
  pub compensation : Compensation
  pub ui : UiHints
  pub available : Bool
  pub health : HealthStatus

abbrev pub id_char : ℕ → Bool
id_char c =
    leb b'a' c && leb c b'z'
    || leb b'A' c && leb c b'Z'
    || leb b'0' c && leb c b'9'
    || c == b'-'
    || c == b'_'
    || c == b'.'
    || c == b':'
    || c == b'/'

-- `validateID`.
unfoldable pub valid_id : String → Bool
unfolding trim_text byte_len
valid_id value =
    let s = trim_text value in
    not (str_eq s "") && (leb (byte_len s) 160 && every id_char (codes s))

-- `Visibility.valid`.
abbrev pub valid_visibility : Visibility → Bool
valid_visibility (other_visibility s) = false
valid_visibility _ = true

-- `visibleTo`.
abbrev pub visible_to : Visibility → Role → Bool
visible_to everyone viewer = true
visible_to everyone operator = true
visible_to everyone security_admin = true
visible_to operators operator = true
visible_to operators security_admin = true
visible_to admins security_admin = true
visible_to internal system = true
visible_to _ _ = false

-- `validateRole`.
abbrev pub valid_role : Role → Bool
valid_role (other_role s) = false
valid_role _ = true

abbrev pub valid_health : HealthStatus → Bool
valid_health (other_health s) = false
valid_health _ = true

abbrev pub valid_kind : Kind → Bool
valid_kind (other_kind s) = false
valid_kind _ = true

abbrev pub valid_idempotency : Idempotency → Bool
valid_idempotency (other_idempotency s) = false
valid_idempotency _ = true

abbrev pub valid_verification : Verification → Bool
valid_verification (other_verification s) = false
valid_verification _ = true

abbrev pub valid_compensation : Compensation → Bool
valid_compensation (other_compensation s) = false
valid_compensation _ = true

-- `RiskLevel.Validate`.
abbrev pub valid_risk : RiskLevel → Bool
valid_risk (unknown_risk s) = false
valid_risk _ = true

abbrev pub is_action : Kind → Bool
is_action action = true
is_action _ = false

abbrev pub is_idempotent : Idempotency → Bool
is_idempotent no_idempotency = false
is_idempotent _ = true

-- Tests that must all pass.
abbrev pub all : List Bool → Bool
all [] = true
all (b ∷ bs) = b && all bs

abbrev pub is_some {ℓ} : {A : Type ℓ} → Option A → Bool
is_some none = false
is_some (some x) = true

abbrev pub is_empty {ℓ} : {A : Type ℓ} → List A → Bool
is_empty [] = true
is_empty (x ∷ xs) = false
