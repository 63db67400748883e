-- ===== src/Scenario/Checking.antt =====
-- internal/scenario/model/expression.go and typecheck.go: the types of expressions and flows. `none` is an
-- error; its text is left out.
pub mod Flows
use home_sentinel.Base.{
  ℕ, String, str_eq, codes, to_lower, trim, trim_text, bytes_eq, Bool, true, false, not, ◌&&◌, ◌||◌,
  Option, none, some, List, [], ◌∷◌, if◌then◌else◌, Dict, lookup, insert,
}
use home_sentinel.Scenario.Model.{
  ValueKind, bool, string, int, float, list, TypeRef, type_ref, Element, no_element, element, Value,
  Expr, expr, Exprs, no_args, arg, ActionStep, SubflowStep, Head, Flow, nil, cons, Step, step,
  IfStep, no_if, if_step, OptFlow, no_flow, flow, SwitchStep, no_switch, switch_step, Cases,
  no_case, case, ParallelStep, no_parallel, parallel_step, Branches, no_branch, branch,
}
use home_sentinel.Scenario.Types.{kind, plain, normalize, compatible, ordered, numeric, same_kind}
use home_sentinel.Scenario.Expression.{is_present, is_one_of, valid_expr}

-- The operators of an expression.
pub data Op : Type 0 where
  literal ref exists missing changed not_op and_op or_op eq ne gt gte lt lte in_op between add sub
        mul div unknown_op :
      Op

abbrev pub op_of_codes : List ℕ → Op
op_of_codes s =
    let is = λ (w : String). is_one_of s (w ∷ []) in
    if is "literal"
    then literal
    else if is "ref"
    then ref
    else if is "not"
    then not_op
    else if is "exists"
    then exists
    else if is "missing"
    then missing
    else if is "changed"
    then changed
    else if is "and"
    then and_op
    else if is "or"
    then or_op
    else if is "eq"
    then eq
    else if is "ne"
    then ne
    else if is "gt"
    then gt
    else if is "gte"
    then gte
    else if is "lt"
    then lt
    else if is "lte"
    then lte
    else if is "in"
    then in_op
    else if is "add"
    then add
    else if is "sub"
    then sub
    else if is "mul"
    then mul
    else if is "div"
    then div
    else if is "between"
    then between
    else unknown_op

-- `strings.ToLower(strings.TrimSpace(e.Op))`.
unfoldable pub op_of : String → Op
unfolding to_lower trim bytes_eq
op_of op = op_of_codes (to_lower (trim (codes op)))

abbrev pub op_text : Expr → String
op_text (expr op r value args) = op

-- Whether the first argument is a reference, for `changed`.
abbrev pub is_ref : Op → Bool
is_ref ref = true
is_ref _ = false

unfoldable pub first_is_ref : Exprs → Bool
unfolding op_of
first_is_ref no_args = false
first_is_ref (arg e es) = is_ref (op_of (op_text e))

abbrev pub a_bool : Option TypeRef
a_bool = some (plain bool)

abbrev pub is_bool : Option TypeRef → Bool
is_bool none = false
is_bool (some t) = same_kind (kind t) bool

abbrev pub if_bool : Bool → Option TypeRef
if_bool b = if b then a_bool else none

-- The types of an operator's arguments, as far as the operator reads them.
abbrev pub first : List (Option TypeRef) → Option TypeRef
first [] = none
first (t ∷ ts) = t

unfoldable pub all_bool : List (Option TypeRef) → Bool
unfolding same_kind
all_bool [] = true
all_bool (t ∷ ts) = is_bool t && all_bool ts

abbrev pub on_two : List (Option TypeRef) → (TypeRef → TypeRef → Option TypeRef) → Option TypeRef
on_two (some t ∷ some u ∷ ts) f = f t u
on_two _ f = none

abbrev pub on_three :
    List (Option TypeRef) → (TypeRef → TypeRef → TypeRef → Option TypeRef) → Option TypeRef
on_three (some t ∷ some u ∷ some v ∷ ts) f = f t u v
on_three _ f = none

abbrev pub is_scalar : ValueKind → Bool
is_scalar int = true
is_scalar float = true
is_scalar _ = false

abbrev pub is_int : ValueKind → Bool
is_int int = true
is_int _ = false

abbrev pub is_text : ValueKind → Bool
is_text string = true
is_text _ = false

abbrev pub is_add : Op → Bool
is_add add = true
is_add _ = false

abbrev pub is_div : Op → Bool
is_div div = true
is_div _ = false

abbrev pub scales : Op → Bool
scales mul = true
scales div = true
scales _ = false

-- `arithmeticResult`.
unfoldable pub arithmetic_result : Op → TypeRef → TypeRef → Option TypeRef
unfolding compatible
arithmetic_result op l r =
    if is_add op && (is_text (kind l) && is_text (kind r))
    then some (plain string)
    else if not (numeric (kind l)) || not (numeric (kind r))
    then none
    else if is_int (kind l) && is_int (kind r)
    then some (plain (if is_div op then float else int))
    else if is_scalar (kind l) && is_scalar (kind r)
    then some (plain float)
    else if not (compatible l r)
    then none
    else if scales op
    then none
    else some l

abbrev pub item_fits : TypeRef → TypeRef → Bool
item_fits item (type_ref list u n e v (element t)) = compatible item t
item_fits item _ = false

-- The `switch` of `CheckExpr` on the operators with arguments, given their types.
unfoldable pub check_op : Op → Bool → List (Option TypeRef) → Option TypeRef
unfolding all_bool same_kind compatible arithmetic_result
check_op exists is_a_ref ts = if_bool (is_present (first ts))
check_op missing is_a_ref ts = if_bool (is_present (first ts))
check_op changed is_a_ref ts = if_bool (is_a_ref && is_present (first ts))
check_op not_op is_a_ref ts = if_bool (is_bool (first ts))
check_op and_op is_a_ref ts = if_bool (all_bool ts)
check_op or_op is_a_ref ts = if_bool (all_bool ts)
check_op eq is_a_ref ts = on_two ts (λ t u. if_bool (compatible t u))
check_op ne is_a_ref ts = on_two ts (λ t u. if_bool (compatible t u))
check_op gt is_a_ref ts = on_two ts (λ t u. if_bool (compatible t u && ordered (kind t)))
check_op gte is_a_ref ts = on_two ts (λ t u. if_bool (compatible t u && ordered (kind t)))
check_op lt is_a_ref ts = on_two ts (λ t u. if_bool (compatible t u && ordered (kind t)))
check_op lte is_a_ref ts = on_two ts (λ t u. if_bool (compatible t u && ordered (kind t)))
check_op in_op is_a_ref ts = on_two ts (λ t u. if_bool (item_fits t u))
check_op between is_a_ref ts =
    on_three ts (λ t u v. if_bool (ordered (kind t) && (compatible t u && compatible t v)))
check_op add is_a_ref ts = on_two ts (arithmetic_result add)
check_op sub is_a_ref ts = on_two ts (arithmetic_result sub)
check_op mul is_a_ref ts = on_two ts (arithmetic_result mul)
check_op div is_a_ref ts = on_two ts (arithmetic_result div)
check_op _ is_a_ref ts = none

abbrev pub normal_type : Option TypeRef → Option TypeRef
normal_type none = none
normal_type (some t) = normalize t

abbrev pub type_of : Option Value → Option TypeRef
type_of none = none
type_of (some v) = some v.type

-- A test that fails is an error.
abbrev pub on : {A : Type 0} → Bool → Option A → Option A
on b x = if b then x else none

module _ (canonical : Value → Option Value) (env : Dict TypeRef) where
  -- A literal has the type of its canonical value, a reference that of its name.
  unfoldable pub check_head :
      Op → String → Option Value → Bool → List (Option TypeRef) → Option TypeRef
  unfolding check_op
  check_head literal r none is_a_ref ts = none
  check_head literal r (some v) is_a_ref ts = type_of (canonical v)
  check_head ref r value is_a_ref ts = normal_type (lookup (trim_text r) env)
  check_head op r value is_a_ref ts = check_op op is_a_ref ts

  -- `CheckExpr`.
  unfoldable mutual
    unfolding valid_expr op_of check_head first_is_ref

    pub check_expr : Expr → Option TypeRef
    check_expr (expr op r value args) =
        let types = check_args args in
        on (valid_expr (λ v. is_present (canonical v)) (expr op r value args))
          (check_head (op_of op) r value (first_is_ref args) types)

    pub check_args : Exprs → List (Option TypeRef)
    check_args no_args = []
    check_args (arg e es) = check_expr e ∷ check_args es
