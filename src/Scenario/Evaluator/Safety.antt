-- ===== src/Scenario/Evaluator/Safety.antt =====
-- internal/scenario/model/expression.go and internal/scenario/simulator/evaluator.go together: what the
-- checker accepts, the evaluator runs.
use home_sentinel.Base.{
  ◌≡◌, refl, sym, subst, str_eq, Bool, true, false, not, Option, none, some, List, [], ◌∷◌,
  if◌then◌else◌, arith,
}
use home_sentinel.Scenario.Model.{bool, TypeRef, Value}
use home_sentinel.Scenario.Types.{kind, compatible}
use home_sentinel.Scenario.Types.Partial.{same_kind-eq}
use home_sentinel.Scenario.Values.{Json, of_bool}
use home_sentinel.Scenario.Expression.{is_present}
use home_sentinel.Scenario.Checking.{
  Op, literal, ref, exists, missing, changed, not_op, and_op, or_op, eq, ne, gt, gte, lt, lte,
  in_op, between, add, sub, mul, div, unknown_op, is_bool, if_bool, first, all_bool, on_two,
  on_three, check_op,
}
use home_sentinel.Scenario.Evaluator.{
  not_a_bool, not_ordered, Outcome, value, bind, need, one, two, until, compare, within, apply_op,
}
use home_sentinel.Scenario.Evaluator.Fits.{
  Lawful, Fits, IsSafe, bind-IsSafe, need-IsSafe, need-benign, of_bool-Fits, arithmetic-IsSafe,
}

pub if_bool-kind : (b : Bool) (t : TypeRef) → if_bool b ≡ some t → kind t ≡ bool
if_bool-kind true t h = ground (arith, h)
if_bool-kind false t h = absurd (cc)

module _ (j : Json) (laws : Lawful j) where
  abbrev pub SafeFor : Option TypeRef → Outcome → Type 0
  SafeFor none o = Unit
  SafeFor (some t) o = IsSafe j (kind t) o

  -- Each argument is safe at its type.
  abbrev pub AllSafe : List (Option TypeRef) → List Outcome → Type 0
  AllSafe [] [] = Unit
  AllSafe (t ∷ ts) (o ∷ os) = SafeFor t o × AllSafe ts os
  AllSafe _ _ = ⊥

  at_bool : (t : TypeRef) (o : Outcome) → kind t ≡ bool → IsSafe j bool o → IsSafe j (kind t) o
  at_bool t o e s = subst (λ k. IsSafe j k o) (sym e) s

  -- A Boolean that is decoded and written again.
  again :
      (o : Outcome) (f : Bool → Bool)
      → IsSafe j bool o
      → IsSafe j bool
          (bind o (λ v. need not_a_bool (j.as_bool v.raw) (λ b. value (of_bool j (f b)))))
  again o f s = bind-IsSafe j bool bool o _ s (λ v fits.
      need-IsSafe j bool not_a_bool (j.as_bool v.raw) _ fits (λ b. of_bool-Fits j laws (f b)))

  one_op :
      (ts : List (Option TypeRef)) (os : List Outcome) (f : Outcome → Outcome)
      → is_bool (first ts) ≡ true
      → AllSafe ts os
      → ((o : Outcome) → IsSafe j bool o → IsSafe j bool (f o))
      → IsSafe j bool (one os f)
  one_op [] os f h s step = absurd (cc)
  one_op (none ∷ ts) os f h s step = absurd (cc)
  one_op (some t ∷ ts) [] f h s step = absurd s
  one_op (some t ∷ ts) (o ∷ os) f h (s, _) step =
      step o (subst (λ k. IsSafe j k o) (same_kind-eq (kind t) bool h) s)

  until-IsSafe :
      (stop : Bool) (ts : List (Option TypeRef)) (os : List Outcome)
      → all_bool ts ≡ true
      → AllSafe ts os
      → IsSafe j bool (until j stop os)
  unfolding until all_bool
  until-IsSafe stop [] [] h s = of_bool-Fits j laws (not stop)
  until-IsSafe stop [] (o ∷ os) h s = absurd s
  until-IsSafe stop (t ∷ ts) [] h s = absurd s
  until-IsSafe stop (none ∷ ts) (o ∷ os) h s = absurd (cc)
  until-IsSafe stop (some t ∷ ts) (o ∷ os) h (s, rest) =
      let others = until-IsSafe stop ts os (ground (arith, h)) rest in
      bind-IsSafe j bool bool o _
        (subst (λ k. IsSafe j k o) (same_kind-eq (kind t) bool (ground (arith, h))) s)
        (λ v fits.
          need-IsSafe j bool not_a_bool (j.as_bool v.raw) _ fits
            (λ b. pick b stop (until j stop os) others))
    where
      pick :
          (b stop_ : Bool) (o : Outcome)
          → IsSafe j bool o
          → IsSafe j bool (
              if b
              then (if stop_ then value (of_bool j true) else o)
              else (if stop_ then o else value (of_bool j false)))
      pick true true o r = of_bool-Fits j laws true
      pick true false o r = r
      pick false true o r = r
      pick false false o r = of_bool-Fits j laws false

  two_op :
      (ts : List (Option TypeRef)) (os : List Outcome) (check : TypeRef → TypeRef → Option TypeRef)
      (f : Value → Value → Outcome) (t : TypeRef)
      → on_two ts check ≡ some t
      → AllSafe ts os
      → ((a b : TypeRef) (v w : Value)
          → check a b ≡ some t
          → Fits j (kind a) v
          → Fits j (kind b) w
          → IsSafe j (kind t) (f v w))
      → IsSafe j (kind t) (two os f)
  two_op [] os check f t h s step = absurd (cc)
  two_op (none ∷ ts) os check f t h s step = absurd (cc)
  two_op (some a ∷ []) os check f t h s step = absurd (cc)
  two_op (some a ∷ none ∷ ts) os check f t h s step = absurd (cc)
  two_op (some a ∷ some b ∷ ts) [] check f t h s step = absurd s
  two_op (some a ∷ some b ∷ ts) (o ∷ []) check f t h (_, s) step = absurd s
  two_op (some a ∷ some b ∷ ts) (o ∷ p ∷ os) check f t h (s, (r, _)) step =
      bind-IsSafe j (kind a) (kind t) o _ s
        (λ v fv. bind-IsSafe j (kind b) (kind t) p _ r (λ w fw. step a b v w h fv fw))

  -- A comparison reports operands that are no numbers as such.
  compare_op :
      (ts : List (Option TypeRef)) (os : List Outcome) (check : TypeRef → TypeRef → Bool)
      (test : j.Float → j.Float → Bool) (t : TypeRef)
      → on_two ts (λ a b. if_bool (check a b)) ≡ some t
      → AllSafe ts os
      → IsSafe j (kind t) (compare j os test)
  compare_op ts os check test t h s = two_op ts os _ _ t h s (λ a b v w e fv fw.
      at_bool t _ (if_bool-kind (check a b) t e) (
        need-benign j bool not_ordered (j.as_double v.raw) _ refl (λ x.
          need-benign j bool not_ordered (j.as_double w.raw) _ refl
            (λ y. of_bool-Fits j laws (test x y)))))

  raw_op :
      (ts : List (Option TypeRef)) (os : List Outcome) (f : Bool → Bool) (t : TypeRef)
      → on_two ts (λ a b. if_bool (compatible a b)) ≡ some t
      → AllSafe ts os
      → IsSafe j (kind t) (two os (λ v w. value (of_bool j (f (str_eq v.raw w.raw)))))
  raw_op ts os f t h s = two_op ts os _ _ t h s (λ a b v w e fv fw.
      at_bool t (value (of_bool j (f (str_eq v.raw w.raw)))) (if_bool-kind (compatible a b) t e)
        (of_bool-Fits j laws (f (str_eq v.raw w.raw))))

  between_op :
      (ts : List (Option TypeRef)) (os : List Outcome) (check : TypeRef → TypeRef → TypeRef → Bool)
      (t : TypeRef)
      → on_three ts (λ a b c. if_bool (check a b c)) ≡ some t
      → AllSafe ts os
      → IsSafe j (kind t) (apply_op j between none os)
  unfolding apply_op
  between_op (some a ∷ some b ∷ some c ∷ ts) (o ∷ p ∷ q ∷ os) check t h (s, (r, (z, _))) =
      at_bool t _ (if_bool-kind (check a b c) t h) (
        bind-IsSafe j (kind a) bool o _ s (λ v fv. bind-IsSafe j (kind b) bool p _ r (λ w fw.
          bind-IsSafe j (kind c) bool q _ z (λ u fu.
            need-benign j bool not_ordered (j.as_double v.raw) _ refl (λ x.
              need-benign j bool not_ordered (j.as_double w.raw) _ refl (λ low.
                need-benign j bool not_ordered (j.as_double u.raw) _ refl
                  (λ high. of_bool-Fits j laws (within j x low high))))))))
  between_op [] os check t h s = absurd (cc)
  between_op (none ∷ ts) os check t h s = absurd (cc)
  between_op (some a ∷ []) os check t h s = absurd (cc)
  between_op (some a ∷ none ∷ ts) os check t h s = absurd (cc)
  between_op (some a ∷ some b ∷ []) os check t h s = absurd (cc)
  between_op (some a ∷ some b ∷ none ∷ ts) os check t h s = absurd (cc)
  between_op (some a ∷ some b ∷ some c ∷ ts) [] check t h s = absurd s
  between_op (some a ∷ some b ∷ some c ∷ ts) (o ∷ []) check t h (_, s) = absurd s
  between_op (some a ∷ some b ∷ some c ∷ ts) (o ∷ p ∷ []) check t h (_, (_, s)) = absurd s

  exists_op :
      (known : Option Bool) (os : List Outcome)
      → is_present known ≡ true
      → IsSafe j bool (apply_op j exists known os) × IsSafe j bool (apply_op j missing known os)
  unfolding apply_op
  exists_op none os h = absurd (cc)
  exists_op (some b) os h = (of_bool-Fits j laws b, of_bool-Fits j laws (not b))

  if_bool-true : (b : Bool) (t : TypeRef) → if_bool b ≡ some t → b ≡ true
  if_bool-true true t h = refl
  if_bool-true false t h = absurd (cc)

  -- An operator that is typed is safe on arguments that are.
  pub apply_op-IsSafe :
      (op : Op) (is_a_ref : Bool) (known : Option Bool) (ts : List (Option TypeRef))
      (os : List Outcome) (t : TypeRef)
      → check_op op is_a_ref ts ≡ some t
      → AllSafe ts os
      → (is_present (first ts) ≡ true → is_present known ≡ true)
      → IsSafe j (kind t) (apply_op j op known os)
  unfolding check_op apply_op
  apply_op-IsSafe exists ar known ts os t h s here =
      at_bool t _ (if_bool-kind _ t h) (exists_op known os (here (if_bool-true _ t h))).0
  apply_op-IsSafe missing ar known ts os t h s here =
      at_bool t _ (if_bool-kind _ t h) (exists_op known os (here (if_bool-true _ t h))).1
  apply_op-IsSafe changed ar known ts os t h s here = refl
  apply_op-IsSafe in_op ar known ts os t h s here = refl
  apply_op-IsSafe literal ar known ts os t h s here = refl
  apply_op-IsSafe ref ar known ts os t h s here = refl
  apply_op-IsSafe unknown_op ar known ts os t h s here = refl
  apply_op-IsSafe not_op ar known ts os t h s here =
      at_bool t _ (if_bool-kind _ t h)
        (one_op ts os _ (if_bool-true _ t h) s (λ o r. again o not r))
  apply_op-IsSafe and_op ar known ts os t h s here =
      at_bool t _ (if_bool-kind _ t h) (until-IsSafe false ts os (if_bool-true _ t h) s)
  apply_op-IsSafe or_op ar known ts os t h s here =
      at_bool t _ (if_bool-kind _ t h) (until-IsSafe true ts os (if_bool-true _ t h) s)
  apply_op-IsSafe eq ar known ts os t h s here = raw_op ts os (λ b. b) t h s
  apply_op-IsSafe ne ar known ts os t h s here = raw_op ts os not t h s
  apply_op-IsSafe gt ar known ts os t h s here = compare_op ts os _ (λ a b. j.lt b a) t h s
  apply_op-IsSafe gte ar known ts os t h s here = compare_op ts os _ (λ a b. j.le b a) t h s
  apply_op-IsSafe lt ar known ts os t h s here = compare_op ts os _ j.lt t h s
  apply_op-IsSafe lte ar known ts os t h s here = compare_op ts os _ j.le t h s
  apply_op-IsSafe between ar known ts os t h s here = between_op ts os _ t h s
  apply_op-IsSafe add ar known ts os t h s here =
      two_op ts os _ _ t h s (λ a b v w e. arithmetic-IsSafe j laws add a b t v w e)
  apply_op-IsSafe sub ar known ts os t h s here =
      two_op ts os _ _ t h s (λ a b v w e. arithmetic-IsSafe j laws sub a b t v w e)
  apply_op-IsSafe mul ar known ts os t h s here =
      two_op ts os _ _ t h s (λ a b v w e. arithmetic-IsSafe j laws mul a b t v w e)
  apply_op-IsSafe div ar known ts os t h s here =
      two_op ts os _ _ t h s (λ a b v w e. arithmetic-IsSafe j laws div a b t v w e)
