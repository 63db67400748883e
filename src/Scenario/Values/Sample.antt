-- ===== src/Scenario/Values/Sample.antt =====
-- A small instance of JSON for tests: every number is zero.
use home_sentinel.Base.{ℕ, String, str_eq, Bool, true, false, Option, none, some, if◌then◌else◌}
use home_sentinel.Scenario.Values.{Json}

abbrev pub zero_text : String
zero_text = "0"

abbrev read_bool : String → Option Bool
read_bool s = if str_eq s "true" then some true else if str_eq s "false" then some false else none

abbrev read_zero : String → Option ℕ
read_zero s = if str_eq s zero_text then some 0 else none

abbrev pub json : Json
json = record {
  Float = ℕ;
  is_json = λ s. true;
  as_bool = read_bool;
  as_text = λ s. some s;
  as_int = λ s. none;
  as_float = read_zero;
  as_double = read_zero;
  as_entity = λ s. none;
  as_artifact = λ s. none;
  as_items = λ s. none;
  put_bool = λ b. if b then "true" else "false";
  put_text = λ s. s;
  put_int = λ z. zero_text;
  put_float = λ x. zero_text;
  put_entity = λ e. "";
  put_artifact = λ a. "";
  put_items = λ xs. "";
  as_clock = λ s. some s;
  as_instant = λ s. some s;
  in_unit_interval = λ x. true;
  above_zero_kelvin = λ x. true;
  not_negative = λ x. true;
  is_finite = λ x. true;
  has_point = λ s. true;
  lt = λ x y. false;
  le = λ x y. true;
  add = λ x y. 0;
  sub = λ x y. 0;
  mul = λ x y. 0;
  div = λ x y. 0;
  is_zero = λ x. true;
  join = λ s t. s;
}
