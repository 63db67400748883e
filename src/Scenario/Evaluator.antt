-- ===== src/Scenario/Evaluator.antt =====
-- internal/scenario/simulator/evaluator.go: the value of an expression. An argument that is missing is
-- a panic, since the source indexes the arguments without a test. Every argument is evaluated; one that
-- the source does not reach has no effect on the result.
pub mod Fits
pub mod Safety
pub mod Sound
pub mod Booleans
pub mod Kinds
pub mod Order
mod Tests
use home_sentinel.Base.{
  String, str_eq, ◌<>◌, trim_text, Bool, true, false, not, ◌&&◌, Option, none, some, List, [], ◌∷◌,
  if◌then◌else◌, Dict, lookup,
}
use home_sentinel.Scenario.Model.{
  ValueKind, string, TypeRef, type_ref, Value, Expr, expr, Exprs, no_args, arg,
}
use home_sentinel.Scenario.Types.{kind}
use home_sentinel.Scenario.Values.{Json, of_bool, of_text, of_number}
use home_sentinel.Scenario.Expression.{is_present, is_zero_expr}
use home_sentinel.Scenario.Checking.{
  Op, literal, ref, exists, missing, changed, not_op, and_op, or_op, eq, ne, gt, gte, lt, lte,
  in_op, between, add, sub, mul, div, unknown_op, op_of, is_text, is_add,
}

-- What an evaluation reports.
pub data Fault : Type 0 where
  empty no_value no_reference not_a_bool not_ordered not_a_number zero_division no_result
        unsupported :
      Fault

pub data Outcome : Type 0 where
  value : Value → Outcome
  fault : Fault → Outcome
  panic : Outcome

abbrev pub bind : Outcome → (Value → Outcome) → Outcome
bind (value v) f = f v
bind (fault x) f = fault x
bind panic f = panic

-- What an operator makes of a part that may be missing.
abbrev pub need {ℓ} : {A : Type ℓ} → Fault → Option A → (A → Outcome) → Outcome
need x none f = fault x
need x (some a) f = f a

-- The arguments at the first places.
abbrev pub one : List Outcome → (Outcome → Outcome) → Outcome
one [] f = panic
one (a ∷ rest) f = f a

abbrev pub two : List Outcome → (Value → Value → Outcome) → Outcome
two [] f = panic
two (a ∷ []) f = bind a (λ v. panic)
two (a ∷ b ∷ rest) f = bind a (λ v. bind b (f v))

abbrev pub three : List Outcome → (Value → Value → Value → Outcome) → Outcome
three [] f = panic
three (a ∷ []) f = bind a (λ v. panic)
three (a ∷ b ∷ []) f = bind a (λ v. bind b (λ w. panic))
three (a ∷ b ∷ c ∷ rest) f = bind a (λ v. bind b (λ w. bind c (f v w)))

abbrev pub EvalEnv : Type 0
EvalEnv = Dict Value

-- The text that a failed decoding leaves is empty.
abbrev or_empty : Option String → String
or_empty none = ""
or_empty (some s) = s

module _ (j : Json) where
  -- The loops of `and` and `or`: up to the first argument with the value `stop`.
  unfoldable pub until : Bool → List Outcome → Outcome
  until stop [] = value (of_bool j (not stop))
  until stop (a ∷ rest) =
      let others = until stop rest in
      bind a (λ v. need not_a_bool (j.as_bool v.raw) (λ b.
        if b
        then (if stop then value (of_bool j true) else others)
        else (if stop then others else value (of_bool j false))))

  abbrev pub of_result : Option Value → Outcome
  of_result none = fault no_result
  of_result (some v) = value v

  abbrev pub numbers : Fault → Value → Value → (j.Float → j.Float → Outcome) → Outcome
  numbers x v w f = need x (j.as_double v.raw) (λ a. need x (j.as_double w.raw) (f a))

  abbrev pub compare : List Outcome → (j.Float → j.Float → Bool) → Outcome
  compare args test =
      two args (λ v w. numbers not_ordered v w (λ a b. value (of_bool j (test a b))))

  unfoldable pub calculate : Op → j.Float → j.Float → Outcome
  unfolding of_number
  calculate add a b = of_result (of_number j (j.add a b))
  calculate sub a b = of_result (of_number j (j.sub a b))
  calculate mul a b = of_result (of_number j (j.mul a b))
  calculate div a b =
      if j.is_zero b then fault zero_division else of_result (of_number j (j.div a b))
  calculate _ a b = fault unsupported

  unfoldable pub arithmetic : Op → Value → Value → Outcome
  unfolding calculate
  arithmetic op v w =
      if is_add op && (is_text (kind v.type) && is_text (kind w.type))
      then value (of_text j (j.join (or_empty (j.as_text v.raw)) (or_empty (j.as_text w.raw))))
      else numbers not_a_number v w (calculate op)

  abbrev pub within : j.Float → j.Float → j.Float → Bool
  within x low high = j.le low x && j.le x high

  -- The operators with arguments, given what the arguments come to and the first one's reference.
  unfoldable pub apply_op : Op → Option Bool → List Outcome → Outcome
  unfolding until arithmetic
  apply_op not_op known args =
      one args
        (λ a. bind a (λ v. need not_a_bool (j.as_bool v.raw) (λ b. value (of_bool j (not b)))))
  apply_op exists none args = panic
  apply_op exists (some found) args = value (of_bool j found)
  apply_op missing none args = panic
  apply_op missing (some found) args = value (of_bool j (not found))
  apply_op and_op known args = until false args
  apply_op or_op known args = until true args
  apply_op eq known args = two args (λ v w. value (of_bool j (str_eq v.raw w.raw)))
  apply_op ne known args = two args (λ v w. value (of_bool j (not (str_eq v.raw w.raw))))
  apply_op gt known args = compare args (λ a b. j.lt b a)
  apply_op gte known args = compare args (λ a b. j.le b a)
  apply_op lt known args = compare args j.lt
  apply_op lte known args = compare args j.le
  apply_op between known args = three args (λ v w u. need not_ordered (j.as_double v.raw) (λ x.
      need not_ordered (j.as_double w.raw) (λ low.
        need not_ordered (j.as_double u.raw) (λ high. value (of_bool j (within x low high))))))
  apply_op add known args = two args (arithmetic add)
  apply_op sub known args = two args (arithmetic sub)
  apply_op mul known args = two args (arithmetic mul)
  apply_op div known args = two args (arithmetic div)
  apply_op _ known args = fault unsupported

  module _ (env : EvalEnv) where
    -- Whether the environment has the reference of the first argument, as it is written.
    unfoldable pub first_known : Exprs → Option Bool
    unfolding lookup
    first_known no_args = none
    first_known (arg (expr op r v args) es) = some (is_present (lookup r env))

    unfoldable pub apply_head : Op → String → Option Value → Option Bool → List Outcome → Outcome
    unfolding apply_op
    apply_head literal r v known args = need no_value v value
    apply_head ref r v known args = need no_reference (lookup (trim_text r) env) value
    apply_head op r v known args = apply_op op known args

    -- `Evaluate`.
    unfoldable mutual
      unfolding op_of apply_head first_known

      pub evaluate : Expr → Outcome
      evaluate (expr op r v args) =
          let outcomes = evaluate_args args in
          if is_zero_expr (expr op r v args)
          then fault empty
          else apply_head (op_of op) r v (first_known args) outcomes

      pub evaluate_args : Exprs → List Outcome
      evaluate_args no_args = []
      evaluate_args (arg e es) = evaluate e ∷ evaluate_args es

    -- `EvaluateBool`.
    unfoldable pub evaluate_bool : Expr → Outcome
    unfolding evaluate
    evaluate_bool e =
        bind (evaluate e) (λ v. need not_a_bool (j.as_bool v.raw) (λ b. value (of_bool j b)))
