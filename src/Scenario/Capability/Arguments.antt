-- ===== src/Scenario/Capability/Arguments.antt =====
-- internal/scenario/capability/action.go. `false` and `none` are an error; `as_text` of `Json` is `Unmarshal`
-- into a string.
pub mod Choices
use home_sentinel.Base.{
  String, str_eq, codes, to_lower, bytes_eq, Bool, true, false, not, ◌&&◌, ◌||◌, Option, none, some,
  List, [], ◌∷◌, if◌then◌else◌, has_text, Dict, lookup,
}
use home_sentinel.Scenario.Model.{ValueKind, string, TypeRef, Value, Expr, expr, Exprs}
use home_sentinel.Scenario.Types.{kind, compatible, same_kind}
use home_sentinel.Scenario.Values.{Json, canonical}
use home_sentinel.Scenario.Expression.{is_zero_expr, is_one_of}
use home_sentinel.Scenario.Checking.{check_expr}
use home_sentinel.Scenario.Capability.Descriptor.{
  Kind, action, Descriptor, FieldSchema, is_action, is_some, is_empty,
}
use home_sentinel.Scenario.Capability.Descriptor.Validate.{new_descriptor}

-- `NewActionDescriptor`.
unfoldable pub new_action_descriptor :
    Json → (id version provider integration category title permission : String) → Option Descriptor
unfolding new_descriptor
new_action_descriptor j id version provider integration category title permission =
    new_descriptor j action id version provider integration category title permission

-- Whether the schema names an argument.
unfoldable pub has_field : String → List FieldSchema → Bool
has_field name [] = false
has_field name (f ∷ fs) = let rest = has_field name fs in if str_eq f.name name then true else rest

-- The first loop: no argument is unknown.
unfoldable pub known_arguments : Dict Expr → List FieldSchema → Bool
unfolding has_field
known_arguments [] fs = true
known_arguments (arg ∷ args) fs = has_field arg.0 fs && known_arguments args fs

-- `strings.ToLower(argExpr.Op) == "literal"`; the operator is not trimmed.
unfoldable pub is_literal : String → Bool
unfolding to_lower bytes_eq
is_literal op = bytes_eq (to_lower (codes op)) (codes "literal")

-- The value of a literal text.
abbrev pub literal_text : Json → Expr → Option String
literal_text j (expr op ref none args) = none
literal_text j (expr op ref (some v) args) =
    if is_literal op && same_kind (kind v.type) string then j.as_text v.raw else none

-- A text that is no `string` in JSON passes.
abbrev pub is_chosen : Option String → List String → Bool
is_chosen none values = true
is_chosen (some s) values = has_text s values

module _ (j : Json) (env : Dict TypeRef) where
  abbrev pub argument_fits : FieldSchema → Expr → Option TypeRef → Bool
  argument_fits f e none = false
  argument_fits f e (some t) =
      compatible f.type t && (is_empty f.values || is_chosen (literal_text j e) f.values)

  -- An argument that is missing, or the zero expression.
  abbrev pub may_miss : FieldSchema → Bool
  may_miss f = not f.is_required || is_some f.default

  -- The body of the second loop.
  abbrev pub field_filled : FieldSchema → Option Expr → Bool
  field_filled f none = may_miss f
  field_filled f (some e) =
      if is_zero_expr e then may_miss f else argument_fits f e (check_expr (canonical j) env e)

  unfoldable pub fields_filled : List FieldSchema → Dict Expr → Bool
  unfolding check_expr canonical compatible same_kind is_literal lookup has_text
  fields_filled [] args = true
  fields_filled (f ∷ fs) args = field_filled f (lookup f.name args) && fields_filled fs args

  -- `ValidateActionArguments`.
  unfoldable pub validate_action_arguments : Descriptor → Dict Expr → Bool
  unfolding known_arguments fields_filled
  validate_action_arguments d args =
      is_action d.kind && (known_arguments args d.input && fields_filled d.input args)
