-- ===== src/Scenario/Evaluator/Tests.antt =====
-- Runs of the type checker and of the evaluator, with a small instance of JSON: numbers are all zero.
use home_sentinel.Base.{
  ◌≡◌, refl, subst, sym, ap, ◌∙◌, String, str_eq, is_blank, Bool, true, false, none, some, [], ◌∷◌,
  All, Dict, lookup, arith, Bool-cases, inl, inr,
}
use home_sentinel.Scenario.Model.{
  int, string, bool, list, TypeRef, type_ref, element, Value, Expr, expr, no_args, Head, if_kind,
  Flow, nil, cons, step, if_step, no_flow, no_switch, no_parallel,
}
use home_sentinel.Scenario.Types.{kind, plain, normalize, compatible, same_normal}
use home_sentinel.Scenario.Types.Fuel.{compatible-unroll}
use home_sentinel.Scenario.Values.{canonical}
use home_sentinel.Scenario.Values.Sample.{json, zero_text}
use home_sentinel.Scenario.Checking.{a_bool, check_expr}
use home_sentinel.Scenario.Checking.Flows.{typed_flow}
use home_sentinel.Scenario.Evaluator.{fault, not_ordered, EvalEnv, evaluate, evaluate_bool}
use home_sentinel.Scenario.Evaluator.Fits.{Lawful, Fits, IsSafe}
use home_sentinel.Scenario.Evaluator.Sound.{EnvFits, IsCanonical, typed_flow-runs}
use home_sentinel.Scenario.Evaluator.Kinds.{EnvOfKind, IsTyped, check_expr-IsTyped}
use home_sentinel.Scenario.Evaluator.Order.{less, check_expr-text_order}

abbrev texts : TypeRef
texts = type_ref list "" "" "" [] (element (plain string))

compatible-unroll_example :
    compatible texts texts ≡ same_normal compatible (normalize texts) (normalize texts)
compatible-unroll_example = compatible-unroll texts texts

-- Two lists of texts are compatible.
lists : compatible texts texts ≡ true
unfolding compatible
lists = refl

bool_back : (b : Bool) → json.as_bool (json.put_bool b) ≡ some b
bool_back true = refl
bool_back false = refl

laws : Lawful json
laws = record {
  bool_back = bool_back;
  int_back = λ z. refl;
  float_back = λ x h. refl;
  float_finite = λ raw x h. refl;
}

abbrev reading : Value
reading = record { type = plain int; raw = zero_text }

abbrev types : Dict TypeRef
types = ("sensor.lux", plain int) ∷ ("sensor.name", plain string) ∷ []

abbrev label : Value
label = record { type = plain string; raw = "hall" }

abbrev env : EvalEnv
env = ("sensor.lux", reading) ∷ ("sensor.name", label) ∷ []

env-EnvFits : EnvFits json types env
unfolding lookup
env-EnvFits r t v ht hv = elim (Bool-cases (str_eq "sensor.lux" r)) [
  | inl e ↦
      let same_type : plain int ≡ t = ground (arith, e, ht) in
      let same_value : reading ≡ v = ground (arith, e, hv) in
      subst (λ k. Fits json (kind k) v) same_type
        (subst (λ x. Fits json int x) same_value (refl, refl))
  | inr e ↦ elim (Bool-cases (str_eq "sensor.name" r)) [
    | inl f ↦
        let same_type : plain string ≡ t = ground (arith, e, f, ht) in
        let same_value : label ≡ v = ground (arith, e, f, hv) in
        subst (λ k. Fits json (kind k) v) same_type
          (subst (λ x. Fits json string x) same_value refl)
    | inr f ↦ absurd (ground (arith, e, f, ht))
  ]
]

abbrev of_name : String → Expr
of_name r = expr "ref" r none no_args

abbrev dark : Expr
dark = less (of_name "sensor.lux") (of_name "sensor.lux")

env-EnvOfKind : EnvOfKind json laws types env
unfolding lookup
env-EnvOfKind r t v ht hv = elim (Bool-cases (str_eq "sensor.lux" r)) [
  | inl e ↦
      let same_type : plain int ≡ t = ground (arith, e, ht) in
      let same_value : reading ≡ v = ground (arith, e, hv) in
      ap (λ x. kind x.type) (sym same_value) ∙ ap kind same_type
  | inr e ↦ elim (Bool-cases (str_eq "sensor.name" r)) [
    | inl f ↦
        let same_type : plain string ≡ t = ground (arith, e, f, ht) in
        let same_value : label ≡ v = ground (arith, e, f, hv) in
        ap (λ x. kind x.type) (sym same_value) ∙ ap kind same_type
    | inr f ↦ absurd (ground (arith, e, f, ht))
  ]
]

check_expr-IsTyped_example : IsTyped json laws bool (evaluate json env dark)
unfolding check_expr compatible lookup is_blank
check_expr-IsTyped_example =
    check_expr-IsTyped json laws types env dark (plain bool) env-EnvFits env-EnvOfKind
      ((λ x h. absurd (cc)), (((λ x h. absurd (cc)), tt), (((λ x h. absurd (cc)), tt), tt))) refl

abbrev head : Head
head = record {
  id = "lamp";
  kind = if_kind;
  action = none;
  wait = none;
  join = none;
  human_approval = none;
  subflow = none;
  stop = none;
}

abbrev lamp : Flow
lamp = cons (step head (if_step dark nil no_flow) no_switch no_parallel) nil

typed_flow-runs_example :
    All (λ e. IsCanonical json e → IsSafe json bool (evaluate_bool json env e)) (dark ∷ [])
unfolding typed_flow is_blank lookup
typed_flow-runs_example = typed_flow-runs json laws types env lamp env-EnvFits refl

check_expr-text_order_example :
    (check_expr (canonical json) types (less (of_name "sensor.name") (of_name "sensor.name"))
      ≡ a_bool)
    × (evaluate json env (less (of_name "sensor.name") (of_name "sensor.name")) ≡ fault not_ordered)
unfolding check_expr evaluate lookup is_blank
check_expr-text_order_example =
    check_expr-text_order json types env (of_name "sensor.name") (of_name "sensor.name") label label
      refl refl refl refl refl refl refl
