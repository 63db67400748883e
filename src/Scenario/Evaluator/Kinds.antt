-- ===== src/Scenario/Evaluator/Kinds.antt =====
-- internal/scenario/model/expression.go and internal/scenario/simulator/evaluator.go: the kinds of the values
-- that expressions evaluate to.
use home_sentinel.Base.{
  ◌≡◌, refl, sym, ap, subst, ◌∙◌, inl, inr, String, trim_text, Bool, true, false, Option, none,
  some, List, [], ◌∷◌, Dict, lookup, arith, Bool-cases, Option-cases,
}
use home_sentinel.Scenario.Model.{ValueKind, TypeRef, Value, Expr, expr}
use home_sentinel.Scenario.Types.{kind, plain, normalize, numeric}
use home_sentinel.Scenario.Types.Partial.{normalize-kind}
use home_sentinel.Scenario.Values.{Json, canonical, of_number, infer_number, of_kind}
use home_sentinel.Scenario.Expression.{is_present, is_zero_expr, valid_expr}
use home_sentinel.Scenario.Checking.{
  Op, literal, ref, add, sub, mul, div, op_of, on_two, check_op, check_head, check_expr, check_args,
  first_is_ref, on, normal_type, arithmetic_result, is_add,
}
use home_sentinel.Scenario.Evaluator.{
  no_reference, not_a_number, Outcome, value, fault, panic, bind, need, two, calculate, arithmetic,
  of_result, EvalEnv, apply_op, apply_head, first_known, evaluate, evaluate_args,
}
use home_sentinel.Scenario.Evaluator.Fits.{
  Lawful, Fits, IsSafe, benign, canonical-Fits, infer_number-numeric, arithmetic_result-inv,
  is_text-string, Fits-IsNumber,
}
use home_sentinel.Scenario.Evaluator.Safety.{AllSafe}
use home_sentinel.Scenario.Evaluator.Sound.{
  EnvFits, IsCanonical, evaluate_args-AllSafe, check_expr-sound,
}
use home_sentinel.Scenario.Evaluator.Booleans.{
  OfKind, OfKind-same, Yields, need-Yields, IsBoolean, apply_op-Yields, check_op-kind,
}

module _ (j : Json) (laws : Lawful j) where
  of_kind-numeric :
      (raw : String) (o : Option ValueKind) (v : Value)
      → ((k : ValueKind) → o ≡ some k → numeric k ≡ true)
      → of_kind j raw o ≡ some v
      → numeric (kind v.type) ≡ true
  of_kind-numeric raw none v numeric_k h = absurd (cc)
  of_kind-numeric raw (some k) v numeric_k h =
      let made : Value = record { type = plain k; raw = raw } in
      ap numeric (canonical-Fits j laws made v h).1 ∙ numeric_k k refl

  of_number-numeric :
      (x : j.Float) (v : Value) → of_number j x ≡ some v → numeric (kind v.type) ≡ true
  unfolding of_number
  of_number-numeric x v h = elim (Bool-cases (j.is_finite x)) [
    | inr e ↦ absurd (ground (arith, e, h))
    | inl e ↦
        of_kind-numeric (j.put_float x) (infer_number j (j.put_float x)) v
          (infer_number-numeric j laws (j.put_float x)) (ground (arith, e, h))
  ]

  abbrev IsNumeric : Value → Type 0
  IsNumeric v = numeric (kind v.type) ≡ true

  of_result-Yields : (x : j.Float) → Yields IsNumeric (of_result j (of_number j x))
  of_result-Yields x = elim (Option-cases (of_number j x)) [
    | inl e ↦ rw (e) tt
    | inr (v, e) ↦ rw (e) (of_number-numeric x v e)
  ]

  calculate-Yields : (op : Op) (a b : j.Float) → Yields IsNumeric (calculate j op a b)
  unfolding calculate
  calculate-Yields add a b = of_result-Yields (j.add a b)
  calculate-Yields sub a b = of_result-Yields (j.sub a b)
  calculate-Yields mul a b = of_result-Yields (j.mul a b)
  calculate-Yields div a b = elim (Bool-cases (j.is_zero b)) [
    | inl e ↦ rw (e) tt
    | inr e ↦ rw (e) (of_result-Yields (j.div a b))
  ]
  calculate-Yields _ a b = tt

  Yields-imp :
      (P Q : Value → Type 0) (o : Outcome) → ((v : Value) → P v → Q v) → Yields P o → Yields Q o
  Yields-imp P Q (value v) f y = f v y
  Yields-imp P Q (fault x) f y = tt
  Yields-imp P Q panic f y = tt

  OfKind-numeric : (k : ValueKind) (v : Value) → numeric k ≡ true → IsNumeric v → OfKind k v
  OfKind-numeric k v n h = ((λ _. h), λ no_number. absurd (cc))

  arithmetic-Yields :
      (op : Op) (l r t : TypeRef) (v w : Value)
      → arithmetic_result op l r ≡ some t
      → Fits j (kind l) v
      → Fits j (kind r) w
      → Yields (OfKind (kind t)) (arithmetic j op v w)
  unfolding arithmetic
  arithmetic-Yields op l r t v w h fv fw = elim (arithmetic_result-inv j laws op l r t h) [
    | inl (a, tl, tr, k) ↦
        let tv = subst (λ x. Fits j x v) (is_text-string j laws (kind l) tl) fv in
        let tw = subst (λ x. Fits j x w) (is_text-string j laws (kind r) tr) fw in
        rw (a, tv, tw) ((λ n. ap numeric (sym k) ∙ n), λ n. sym k)
    | inr (nl, nr, nt) ↦
        let (dv, tv) = Fits-IsNumber j (kind l) v nl fv in
        let read = need-Yields (OfKind (kind t)) not_a_number (j.as_double v.raw) _ (λ a.
          need-Yields (OfKind (kind t)) not_a_number (j.as_double w.raw) _ (λ b.
            Yields-imp IsNumeric (OfKind (kind t)) (calculate j op a b)
              (λ u. OfKind-numeric (kind t) u nt) (calculate-Yields op a b))) in
        elim (Bool-cases (is_add op)) [ inl e ↦ rw (e, tv) read | inr e ↦ rw (e) read ]
  ]

  two-arithmetic :
      (op : Op) (ts : List (Option TypeRef)) (os : List Outcome) (t : TypeRef)
      → on_two ts (arithmetic_result op) ≡ some t
      → AllSafe j laws ts os
      → Yields (OfKind (kind t)) (two os (arithmetic j op))
  two-arithmetic op (some a ∷ some b ∷ ts) (o ∷ p ∷ os) t h (s, (r, _)) =
      safe_bind (kind a) o _ s
        (λ v fv. safe_bind (kind b) p _ r (λ w fw. arithmetic-Yields op a b t v w h fv fw))
    where
      safe_bind :
          (k : ValueKind) (o : Outcome) (f : Value → Outcome)
          → IsSafe j k o
          → ((v : Value) → Fits j k v → Yields (OfKind (kind t)) (f v))
          → Yields (OfKind (kind t)) (bind o f)
      safe_bind k (value v) f s y = y v s
      safe_bind k (fault x) f s y = tt
      safe_bind k panic f s y = tt
  two-arithmetic op [] os t h s = absurd (cc)
  two-arithmetic op (none ∷ ts) os t h s = absurd (cc)
  two-arithmetic op (some a ∷ []) os t h s = absurd (cc)
  two-arithmetic op (some a ∷ none ∷ ts) os t h s = absurd (cc)
  two-arithmetic op (some a ∷ some b ∷ ts) [] t h s = absurd s
  two-arithmetic op (some a ∷ some b ∷ ts) (o ∷ []) t h (_, s) = absurd s

  by_op :
      (op : Op) (ar : Bool) (known : Option Bool) (ts : List (Option TypeRef)) (os : List Outcome)
      (t : TypeRef)
      → check_op op ar ts ≡ some t
      → AllSafe j laws ts os
      → Yields (OfKind (kind t)) (apply_op j op known os)
  unfolding check_op apply_op
  by_op add ar known ts os t h s = two-arithmetic add ts os t h s
  by_op sub ar known ts os t h s = two-arithmetic sub ts os t h s
  by_op mul ar known ts os t h s = two-arithmetic mul ts os t h s
  by_op div ar known ts os t h s = two-arithmetic div ts os t h s
  by_op op ar known ts os t h s =
      Yields-imp IsBoolean (OfKind (kind t)) (apply_op j op known os)
        (λ v b. OfKind-same (kind t) v (b ∙ sym (check_op-kind op ar ts t refl h)))
        (apply_op-Yields j op known os refl)

  module _ (types : Dict TypeRef) (env : EvalEnv) where
    -- The values at run time are of the very kinds that were declared.
    abbrev pub EnvOfKind : Type 0
    EnvOfKind =
        (r : String) (t : TypeRef) (v : Value)
        → lookup r types ≡ some t
        → lookup r env ≡ some v
        → kind v.type ≡ kind t

    by_ref :
        (r : String) (t : TypeRef)
        → EnvOfKind
        → normal_type (lookup r types) ≡ some t
        → Yields (OfKind (kind t)) (need no_reference (lookup r env) value)
    by_ref r t k h = elim (Option-cases (lookup r types)) [
      | inl e ↦ absurd (ground (arith, e, h))
      | inr (s, e) ↦
          let normal : normalize s ≡ some t = ground (arith, e, h) in
          elim (Option-cases (lookup r env)) [
            | inl q ↦ rw (q) tt
            | inr (v, q) ↦
                rw (q) (OfKind-same (kind t) v (k r s v e q ∙ sym (normalize-kind s t normal)))
          ]
    ]

    by_head :
        (op : Op) (r : String) (v : Option Value) (ar : Bool) (known : Option Bool)
        (ts : List (Option TypeRef)) (os : List Outcome) (t : TypeRef)
        → EnvOfKind
        → ((x : Value) → v ≡ some x → canonical j x ≡ some x)
        → check_head (canonical j) types op r v ar ts ≡ some t
        → AllSafe j laws ts os
        → Yields (OfKind (kind t)) (apply_head j env op r v known os)
    unfolding check_head apply_head
    by_head literal r none ar known ts os t k c h s = tt
    by_head literal r (some x) ar known ts os t k c h s =
        let named : x.type ≡ t = ground (arith, c x refl, h) in
        OfKind-same (kind t) x (ap kind named)
    by_head ref r v ar known ts os t k c h s = by_ref (trim_text r) t k h
    by_head op r v ar known ts os t k c h s = by_op op ar known ts os t h s

    evaluate-Yields :
        (e : Expr) (t : TypeRef)
        → EnvFits j types env
        → EnvOfKind
        → IsCanonical j e
        → check_expr (canonical j) types e ≡ some t
        → Yields (OfKind (kind t)) (evaluate j env e)
    unfolding check_expr evaluate
    evaluate-Yields (expr op r v args) t fits k (c, cs) h =
        elim (Bool-cases (is_zero_expr (expr op r v args))) [
          | inl z ↦ rw (z) tt
          | inr z ↦ rw (z) (
              by_head (op_of op) r v (first_is_ref args) (first_known j env args)
                (check_args (canonical j) types args) (evaluate_args j env args) t k c
                (typed (valid_expr (λ x. is_present (canonical j x)) (expr op r v args)) _ h)
                (evaluate_args-AllSafe j laws types env fits args cs))
        ]
      where
        typed : (b : Bool) (o : Option TypeRef) → on b o ≡ some t → o ≡ some t
        typed true o q = q
        typed false o q = absurd (cc)

  -- A value that decodes as its kind asks and is of the kind, or a fault that is no matter of types.
  abbrev pub IsTyped : ValueKind → Outcome → Type 0
  IsTyped k (value v) = Fits j k v × OfKind k v
  IsTyped k (fault x) = benign x ≡ true
  IsTyped k panic = ⊥

  IsTyped-both : (k : ValueKind) (o : Outcome) → IsSafe j k o → Yields (OfKind k) o → IsTyped k o
  IsTyped-both k (value v) s y = (s, y)
  IsTyped-both k (fault x) s y = s
  IsTyped-both k panic s y = s

-- An expression that the checker gives a type either fails for a reason that no type rules out (a reference
-- without a value, an order on what are no numbers, a division by zero, a result out of range, an operator
-- that is not supported), and not by a missing argument or an operand of a wrong type; or it evaluates to a
-- value. Where the type is of a kind that is not numeric, the value is of that very kind, and a Boolean
-- decodes as one. Where it is of a numeric kind, the value is of some numeric kind, not always the same,
-- and decodes as a number. The literals are in canonical form, the values at run time are of the declared
-- kinds and decode like them, and JSON reads what it wrote.
pub check_expr-IsTyped :
    (j : Json) (laws : Lawful j) (types : Dict TypeRef) (env : EvalEnv) (e : Expr) (t : TypeRef)
    → EnvFits j types env
    → EnvOfKind j laws types env
    → IsCanonical j e
    → check_expr (canonical j) types e ≡ some t
    → IsTyped j laws (kind t) (evaluate j env e)
check_expr-IsTyped j laws types env e t fits k c h =
    IsTyped-both j laws (kind t) (evaluate j env e) (check_expr-sound j laws types env e t fits c h)
      (evaluate-Yields j laws types env e t fits k c h)
