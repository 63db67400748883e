-- ===== src/Scenario/Evaluator/Order.antt =====
-- internal/scenario/model/expression.go against internal/scenario/simulator/evaluator.go: an order of
-- texts.
use home_sentinel.Base.{
  ◌≡◌, refl, inl, inr, Bool, true, false, Option, none, some, Dict, Bool-cases,
}
use home_sentinel.Scenario.Model.{string, TypeRef, Value, Expr, expr, no_args, arg}
use home_sentinel.Scenario.Types.{plain}
use home_sentinel.Scenario.Values.{Json, canonical}
use home_sentinel.Scenario.Expression.{is_present, is_zero_expr, valid_expr}
use home_sentinel.Scenario.Checking.{a_bool, on, check_expr}
use home_sentinel.Scenario.Evaluator.{not_ordered, value, fault, evaluate}

-- `l < r`.
abbrev pub less : Expr → Expr → Expr
less l r = expr "lt" "" none (arg l (arg r no_args))

typed-valid :
    (j : Json) (types : Dict TypeRef) (e : Expr) (t : TypeRef)
    → check_expr (canonical j) types e ≡ some t
    → valid_expr (λ x. is_present (canonical j x)) e ≡ true
unfolding check_expr
typed-valid j types (expr op r v args) t h =
    elim (Bool-cases (valid_expr (λ x. is_present (canonical j x)) (expr op r v args))) [
      | inl e ↦ e
      | inr e ↦
          absurd (refuted (valid_expr (λ x. is_present (canonical j x)) (expr op r v args)) _ e h)
    ]
  where
    refuted : (b : Bool) (o : Option TypeRef) → b ≡ false → on b o ≡ some t → ⊥
    refuted true o q k = cc
    refuted false o q k = cc

-- The checker gives `l < r` the type of a Boolean where both sides are typed as texts, and the evaluator
-- fails on it where the left value does not read as a number.
pub check_expr-text_order :
    (j : Json) (types : Dict TypeRef) (env : Dict Value) (l r : Expr) (v w : Value)
    → is_zero_expr l ≡ false
    → is_zero_expr r ≡ false
    → check_expr (canonical j) types l ≡ some (plain string)
    → check_expr (canonical j) types r ≡ some (plain string)
    → evaluate j env l ≡ value v
    → evaluate j env r ≡ value w
    → j.as_double v.raw ≡ none
    → (check_expr (canonical j) types (less l r) ≡ a_bool)
      × (evaluate j env (less l r) ≡ fault not_ordered)
unfolding check_expr evaluate
check_expr-text_order j types env l r v w zl zr tl tr el er text = (
  rw
      (
        tl,
        tr,
        zl,
        zr,
        typed-valid j types l (plain string) tl,
        typed-valid j types r (plain string) tr,
      )
      refl,
  rw (el, er, text) refl,
)
