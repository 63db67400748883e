-- ===== src/Scenario/Evaluator/Sound.antt =====
-- internal/scenario/model/expression.go and internal/scenario/simulator/evaluator.go: type safety of
-- expressions.
use home_sentinel.Base.{
  ◌≡◌, refl, sym, subst, inl, inr, String, eq_iff, trim_text, Bool, true, false, Option, none, some,
  List, [], ◌∷◌, Dict, lookup, All, arith, Bool-cases, Option-cases,
}
use home_sentinel.Scenario.Model.{
  ValueKind, bool, TypeRef, Value, Expr, expr, Exprs, no_args, arg, Flow,
}
use home_sentinel.Scenario.Types.{kind, normalize}
use home_sentinel.Scenario.Types.Partial.{normalize-kind}
use home_sentinel.Scenario.Values.{Json, canonical}
use home_sentinel.Scenario.Expression.{is_present, is_zero_expr, valid_expr}
use home_sentinel.Scenario.Checking.{
  Op, literal, ref, op_of, first, check_op, check_head, check_expr, check_args, first_is_ref, on,
  type_of, normal_type,
}
use home_sentinel.Scenario.Checking.Flows.{
  typed_flow, conditions, IsTypedBool, typed_flow-IsTypedBool,
}
use home_sentinel.Scenario.Evaluator.{
  not_a_bool, no_reference, Outcome, value, need, EvalEnv, apply_head, first_known, evaluate,
  evaluate_args, evaluate_bool,
}
use home_sentinel.Scenario.Evaluator.Fits.{
  Lawful, Fits, IsSafe, bind-IsSafe, need-IsSafe, of_bool-Fits, canonical-Fits,
}
use home_sentinel.Scenario.Evaluator.Safety.{SafeFor, AllSafe, apply_op-IsSafe}

module _ (j : Json) where
  -- Each literal of an expression is in canonical form, as it is after decoding.
  abbrev mutual
    pub IsCanonical : Expr → Type 0
    IsCanonical (expr op r v args) =
        ((x : Value) → v ≡ some x → canonical j x ≡ some x) × AreCanonical args

    pub AreCanonical : Exprs → Type 0
    AreCanonical no_args = Unit
    AreCanonical (arg e es) = IsCanonical e × AreCanonical es

  -- The values at run time are of the types that were declared.
  abbrev pub EnvFits : Dict TypeRef → EvalEnv → Type 0
  EnvFits types env =
      (r : String) (t : TypeRef) (v : Value)
      → lookup r types ≡ some t
      → lookup r env ≡ some v
      → Fits j (kind t) v

  module _ (laws : Lawful j) (types : Dict TypeRef) (env : EvalEnv) (fits : EnvFits types env) where
    need_value :
        (k : ValueKind) (o : Option Value)
        → ((v : Value) → o ≡ some v → Fits j k v)
        → IsSafe j k (need no_reference o value)
    need_value k none f = refl
    need_value k (some v) f = f v refl

    literal-IsSafe :
        (v : Value) (t : TypeRef)
        → canonical j v ≡ some v
        → type_of (canonical j v) ≡ some t
        → Fits j (kind t) v
    literal-IsSafe v t same h =
        let named : v.type ≡ t = ground (arith, same, h) in
        subst (λ x. Fits j (kind x) v) named (canonical-Fits j laws v v same).0

    ref-IsSafe :
        (r : String) (t : TypeRef)
        → normal_type (lookup r types) ≡ some t
        → IsSafe j (kind t) (need no_reference (lookup r env) value)
    ref-IsSafe r t h = elim (Option-cases (lookup r types)) [
      | inl e ↦ absurd (ground (arith, e, h))
      | inr (s, e) ↦
          let normal : normalize s ≡ some t = ground (arith, e, h) in
          need_value (kind t) (lookup r env)
            (λ v q. subst (λ k. Fits j k v) (sym (normalize-kind s t normal)) (fits r s v e q))
    ]

    head-IsSafe :
        (op : Op) (r : String) (v : Option Value) (ar : Bool) (known : Option Bool)
        (ts : List (Option TypeRef)) (os : List Outcome) (t : TypeRef)
        → ((x : Value) → v ≡ some x → canonical j x ≡ some x)
        → check_head (canonical j) types op r v ar ts ≡ some t
        → AllSafe j laws ts os
        → (is_present (first ts) ≡ true → is_present known ≡ true)
        → IsSafe j (kind t) (apply_head j env op r v known os)
    unfolding check_head apply_head
    head-IsSafe literal r none ar known ts os t c h s here = absurd (cc)
    head-IsSafe literal r (some v) ar known ts os t c h s here = literal-IsSafe v t (c v refl) h
    head-IsSafe ref r v ar known ts os t c h s here = ref-IsSafe (trim_text r) t h
    head-IsSafe op r v ar known ts os t c h s here =
        apply_op-IsSafe j laws op ar known ts os t h s here

    -- The empty expression has no type.
    zero-untyped :
        (op r : String) (v : Option Value) (args : Exprs) (ar : Bool) (ts : List (Option TypeRef))
        → is_zero_expr (expr op r v args) ≡ true
        → check_head (canonical j) types (op_of op) r v ar ts ≡ none
    unfolding op_of check_head check_op
    zero-untyped op r v args ar ts h = rw ((eq_iff op "").0 (ground (arith, h))) refl

    -- The first argument has a type only where there is one.
    first-known :
        (args : Exprs)
        → is_present (first (check_args (canonical j) types args)) ≡ true
        → is_present (first_known j env args) ≡ true
    unfolding check_expr first_known
    first-known no_args h = absurd (cc)
    first-known (arg (expr op r v as_) es) h = refl

    run-IsSafe :
        (op r : String) (v : Option Value) (args : Exprs) (t : TypeRef)
        → ((x : Value) → v ≡ some x → canonical j x ≡ some x)
        → AllSafe j laws (check_args (canonical j) types args) (evaluate_args j env args)
        → check_expr (canonical j) types (expr op r v args) ≡ some t
        → IsSafe j (kind t) (evaluate j env (expr op r v args))
    unfolding check_expr evaluate
    run-IsSafe op r v args t c s h =
        let ts = check_args (canonical j) types args in
        let head : check_head (canonical j) types (op_of op) r v (first_is_ref args) ts ≡ some t =
          typed (valid_expr (λ x. is_present (canonical j x)) (expr op r v args)) _ h in
        elim (Bool-cases (is_zero_expr (expr op r v args))) [
          | inl z ↦ absurd (ground (arith, head, zero-untyped op r v args (first_is_ref args) ts z))
          | inr z ↦ rw (z) (
              head-IsSafe (op_of op) r v (first_is_ref args) (first_known j env args) ts
                (evaluate_args j env args) t c head s (first-known args))
        ]
      where
        typed : (b : Bool) (o : Option TypeRef) → on b o ≡ some t → o ≡ some t
        typed true o q = q
        typed false o q = absurd (cc)

    for_type :
        (o : Option TypeRef) (out : Outcome)
        → ((t : TypeRef) → o ≡ some t → IsSafe j (kind t) out)
        → SafeFor j laws o out
    for_type none out f = tt
    for_type (some t) out f = f t refl

    mutual
      unfolding check_expr evaluate

      evaluate-IsSafe :
          (e : Expr) (t : TypeRef)
          → IsCanonical e
          → check_expr (canonical j) types e ≡ some t
          → IsSafe j (kind t) (evaluate j env e)
      evaluate-IsSafe (expr op r v args) t (c, cs) h =
          run-IsSafe op r v args t c (evaluate_args-AllSafe args cs) h

      pub evaluate_args-AllSafe :
          (es : Exprs)
          → AreCanonical es
          → AllSafe j laws (check_args (canonical j) types es) (evaluate_args j env es)
      evaluate_args-AllSafe no_args cs = tt
      evaluate_args-AllSafe (arg e es) (c, cs) = (
        for_type (check_expr (canonical j) types e) (evaluate j env e)
            (λ t h. evaluate-IsSafe e t c h),
        evaluate_args-AllSafe es cs,
      )

pub check_expr-sound :
    (j : Json) (laws : Lawful j) (types : Dict TypeRef) (env : EvalEnv) (e : Expr) (t : TypeRef)
    → EnvFits j types env
    → IsCanonical j e
    → check_expr (canonical j) types e ≡ some t
    → IsSafe j (kind t) (evaluate j env e)
check_expr-sound j laws types env e t fits c h = evaluate-IsSafe j laws types env fits e t c h

-- A condition that is typed as a Boolean never fails for its result not
-- being one.
pub evaluate_bool-sound :
    (j : Json) (laws : Lawful j) (types : Dict TypeRef) (env : EvalEnv) (e : Expr) (t : TypeRef)
    → EnvFits j types env
    → IsCanonical j e
    → check_expr (canonical j) types e ≡ some t
    → kind t ≡ bool
    → IsSafe j bool (evaluate_bool j env e)
unfolding evaluate_bool
evaluate_bool-sound j laws types env e t fits c h k =
    bind-IsSafe j bool bool (evaluate j env e) _
      (subst (λ x. IsSafe j x (evaluate j env e)) k
        (check_expr-sound j laws types env e t fits c h))
      (λ v f. need-IsSafe j bool not_a_bool (j.as_bool v.raw) _ f (λ b. of_bool-Fits j laws b))

All-map : (P Q : Expr → Type 0) (xs : List Expr) → ((e : Expr) → P e → Q e) → All P xs → All Q xs
All-map P Q [] f a = tt
All-map P Q (x ∷ xs) f (p, a) = (f x p, All-map P Q xs f a)

-- In a flow that passes the type check, each condition of an `if` or a `switch`, in whatever branch,
-- evaluates to a Boolean or to a fault that no type rules out, where its literals are in canonical form
-- and the values at run time are of the declared types.
pub typed_flow-runs :
    (j : Json) (laws : Lawful j) (types : Dict TypeRef) (env : EvalEnv) (f : Flow)
    → EnvFits j types env
    → typed_flow (canonical j) types f ≡ true
    → All (λ e. IsCanonical j e → IsSafe j bool (evaluate_bool j env e)) (conditions f)
typed_flow-runs j laws types env f fits h =
    All-map (IsTypedBool (canonical j) types) _ (conditions f)
      (λ e (t, q, k) c. evaluate_bool-sound j laws types env e t fits c q k)
      (typed_flow-IsTypedBool (canonical j) types f h)
