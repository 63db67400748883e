-- ===== src/Scenario/Evaluator/Booleans.antt =====
-- internal/scenario/model/expression.go and internal/scenario/simulator/evaluator.go: the operators that make
-- Booleans, in the checker and in the evaluator.
use home_sentinel.Base.{
  ◌≡◌, refl, ap, ◌∙◌, Bool, true, false, Option, none, some, List, [], ◌∷◌, if◌then◌else◌,
}
use home_sentinel.Scenario.Model.{ValueKind, bool, TypeRef, Value}
use home_sentinel.Scenario.Types.{kind, numeric}
use home_sentinel.Scenario.Values.{Json, of_bool}
use home_sentinel.Scenario.Checking.{
  Op, literal, ref, exists, missing, changed, not_op, and_op, or_op, eq, ne, gt, gte, lt, lte,
  in_op, between, add, sub, mul, div, unknown_op, if_bool, on_two, on_three, check_op,
}
use home_sentinel.Scenario.Evaluator.{
  Fault, Outcome, value, fault, panic, bind, need, two, until, compare, apply_op,
}
use home_sentinel.Scenario.Evaluator.Safety.{if_bool-kind}

-- A value of some numeric kind, where a numeric kind is asked for; else a value of the very kind.
abbrev pub OfKind : ValueKind → Value → Type 0
OfKind k v =
    (numeric k ≡ true → numeric (kind v.type) ≡ true) × (numeric k ≡ false → kind v.type ≡ k)

pub OfKind-same : (k : ValueKind) (v : Value) → kind v.type ≡ k → OfKind k v
OfKind-same k v e = ((λ n. ap numeric e ∙ n), λ n. e)

-- If there is a value, it has the property.
abbrev pub Yields : (Value → Type 0) → Outcome → Type 0
Yields P (value v) = P v
Yields P (fault x) = Unit
Yields P panic = Unit

pub bind-Yields :
    (P : Value → Type 0) (o : Outcome) (f : Value → Outcome)
    → ((v : Value) → Yields P (f v))
    → Yields P (bind o f)
bind-Yields P (value v) f y = y v
bind-Yields P (fault x) f y = tt
bind-Yields P panic f y = tt

pub need-Yields :
    {A : Type 0}
    → (P : Value → Type 0) (x : Fault) (o : Option A) (f : A → Outcome) → ((a : A) → Yields P (f a))
    → Yields P (need x o f)
need-Yields P x none f y = tt
need-Yields P x (some a) f y = y a

two-Yields :
    (P : Value → Type 0) (os : List Outcome) (f : Value → Value → Outcome)
    → ((v w : Value) → Yields P (f v w))
    → Yields P (two os f)
two-Yields P [] f y = tt
two-Yields P (o ∷ []) f y = bind-Yields P o _ (λ v. tt)
two-Yields P (o ∷ p ∷ os) f y = bind-Yields P o _ (λ v. bind-Yields P p _ (λ w. y v w))

abbrev pub IsBoolean : Value → Type 0
IsBoolean v = kind v.type ≡ bool

-- The four operators that do not make a Boolean.
abbrev pub counts : Op → Bool
counts add = true
counts sub = true
counts mul = true
counts div = true
counts _ = false

module _ (j : Json) where
  until-Yields : (stop : Bool) (os : List Outcome) → Yields IsBoolean (until j stop os)
  unfolding until
  until-Yields stop [] = refl
  until-Yields stop (o ∷ os) =
      let others = until-Yields stop os in
      bind-Yields IsBoolean o _ (λ v.
        need-Yields IsBoolean _ (j.as_bool v.raw) _ (λ b. pick b stop (until j stop os) others))
    where
      pick :
          (b stop_ : Bool) (o : Outcome)
          → Yields IsBoolean o
          → Yields IsBoolean (
              if b
              then (if stop_ then value (of_bool j true) else o)
              else (if stop_ then o else value (of_bool j false)))
      pick true true o r = refl
      pick true false o r = r
      pick false true o r = r
      pick false false o r = refl

  compare-Yields :
      (os : List Outcome) (test : j.Float → j.Float → Bool) → Yields IsBoolean (compare j os test)
  compare-Yields os test = two-Yields IsBoolean os _ (λ v w.
      need-Yields IsBoolean _ (j.as_double v.raw) _
        (λ a. need-Yields IsBoolean _ (j.as_double w.raw) _ (λ b. refl)))

  -- The other operators make Booleans, whatever their arguments are.
  pub apply_op-Yields :
      (op : Op) (known : Option Bool) (os : List Outcome)
      → counts op ≡ false
      → Yields IsBoolean (apply_op j op known os)
  unfolding apply_op
  apply_op-Yields not_op known [] c = tt
  apply_op-Yields not_op known (o ∷ os) c =
      bind-Yields IsBoolean o _ (λ v. need-Yields IsBoolean _ (j.as_bool v.raw) _ (λ b. refl))
  apply_op-Yields exists none os c = tt
  apply_op-Yields exists (some b) os c = refl
  apply_op-Yields missing none os c = tt
  apply_op-Yields missing (some b) os c = refl
  apply_op-Yields and_op known os c = until-Yields false os
  apply_op-Yields or_op known os c = until-Yields true os
  apply_op-Yields eq known os c = two-Yields IsBoolean os _ (λ v w. refl)
  apply_op-Yields ne known os c = two-Yields IsBoolean os _ (λ v w. refl)
  apply_op-Yields gt known os c = compare-Yields os _
  apply_op-Yields gte known os c = compare-Yields os _
  apply_op-Yields lt known os c = compare-Yields os _
  apply_op-Yields lte known os c = compare-Yields os _
  apply_op-Yields between known (o ∷ p ∷ q ∷ os) c = bind-Yields IsBoolean o _ (λ v.
      bind-Yields IsBoolean p _ (λ w. bind-Yields IsBoolean q _ (λ u.
        need-Yields IsBoolean _ (j.as_double v.raw) _ (λ x.
          need-Yields IsBoolean _ (j.as_double w.raw) _
            (λ y. need-Yields IsBoolean _ (j.as_double u.raw) _ (λ z. refl))))))
  apply_op-Yields between known [] c = tt
  apply_op-Yields between known (o ∷ []) c = bind-Yields IsBoolean o _ (λ v. tt)
  apply_op-Yields between known (o ∷ p ∷ []) c =
      bind-Yields IsBoolean o _ (λ v. bind-Yields IsBoolean p _ (λ w. tt))
  apply_op-Yields add known os c = absurd (cc)
  apply_op-Yields sub known os c = absurd (cc)
  apply_op-Yields mul known os c = absurd (cc)
  apply_op-Yields div known os c = absurd (cc)
  apply_op-Yields changed known os c = tt
  apply_op-Yields in_op known os c = tt
  apply_op-Yields literal known os c = tt
  apply_op-Yields ref known os c = tt
  apply_op-Yields unknown_op known os c = tt

on_two-kind :
    (ts : List (Option TypeRef)) (check : TypeRef → TypeRef → Bool) (t : TypeRef)
    → on_two ts (λ a b. if_bool (check a b)) ≡ some t
    → kind t ≡ bool
on_two-kind (some a ∷ some b ∷ ts) check t h = if_bool-kind (check a b) t h
on_two-kind [] check t h = absurd (cc)
on_two-kind (none ∷ ts) check t h = absurd (cc)
on_two-kind (some a ∷ []) check t h = absurd (cc)
on_two-kind (some a ∷ none ∷ ts) check t h = absurd (cc)

on_three-kind :
    (ts : List (Option TypeRef)) (check : TypeRef → TypeRef → TypeRef → Bool) (t : TypeRef)
    → on_three ts (λ a b c. if_bool (check a b c)) ≡ some t
    → kind t ≡ bool
on_three-kind (some a ∷ some b ∷ some c ∷ ts) check t h = if_bool-kind (check a b c) t h
on_three-kind [] check t h = absurd (cc)
on_three-kind (none ∷ ts) check t h = absurd (cc)
on_three-kind (some a ∷ []) check t h = absurd (cc)
on_three-kind (some a ∷ none ∷ ts) check t h = absurd (cc)
on_three-kind (some a ∷ some b ∷ []) check t h = absurd (cc)
on_three-kind (some a ∷ some b ∷ none ∷ ts) check t h = absurd (cc)

pub check_op-kind :
    (op : Op) (ar : Bool) (ts : List (Option TypeRef)) (t : TypeRef)
    → counts op ≡ false
    → check_op op ar ts ≡ some t
    → kind t ≡ bool
unfolding check_op
check_op-kind exists ar ts t c h = if_bool-kind _ t h
check_op-kind missing ar ts t c h = if_bool-kind _ t h
check_op-kind changed ar ts t c h = if_bool-kind _ t h
check_op-kind not_op ar ts t c h = if_bool-kind _ t h
check_op-kind and_op ar ts t c h = if_bool-kind _ t h
check_op-kind or_op ar ts t c h = if_bool-kind _ t h
check_op-kind eq ar ts t c h = on_two-kind ts _ t h
check_op-kind ne ar ts t c h = on_two-kind ts _ t h
check_op-kind gt ar ts t c h = on_two-kind ts _ t h
check_op-kind gte ar ts t c h = on_two-kind ts _ t h
check_op-kind lt ar ts t c h = on_two-kind ts _ t h
check_op-kind lte ar ts t c h = on_two-kind ts _ t h
check_op-kind in_op ar ts t c h = on_two-kind ts _ t h
check_op-kind between ar ts t c h = on_three-kind ts _ t h
check_op-kind _ ar ts t c h = absurd (cc)
