-- ===== src/Scenario/Evaluator/Fits.antt =====
-- internal/scenario/model/value.go and internal/scenario/simulator/evaluator.go: the values that an
-- operator accepts, and what the operators on numbers make of them.
use home_sentinel.Base.{
  ◌≡◌, refl, sym, ap, subst, ◌∙◌, inl, inr, ◌⊎◌, String, Bool, true, false, not, ◌&&◌, ◌||◌, Option,
  none, some, if◌then◌else◌, arith, Bool-cases, Option-cases, ℤ,
}
use home_sentinel.Scenario.Model.{
  ValueKind, bool, string, int, float, percentage, confidence, temperature, illuminance, distance,
  TypeRef, type_ref, Value,
}
use home_sentinel.Scenario.Types.{kind, plain, normalize, numeric, compatible}
use home_sentinel.Scenario.Types.Partial.{normalize-kind}
use home_sentinel.Scenario.Values.{
  Json, canonical_data, canonical, of_bool, of_number, then_put, keep_if, put_number, in_bounds,
  infer_number, of_kind,
}
use home_sentinel.Scenario.Expression.{is_present}
use home_sentinel.Scenario.Checking.{
  Op, add, sub, mul, div, is_text, is_add, is_div, is_int, is_scalar, scales, arithmetic_result,
}
use home_sentinel.Scenario.Evaluator.{
  Fault, no_reference, not_ordered, not_a_number, zero_division, no_result, unsupported, Outcome,
  value, fault, panic, bind, need, calculate, arithmetic, of_result,
}

-- What is relied on of encoding/json: what it writes, it reads.
pub record Lawful (j : Json) : Type 0 where
  pub bool_back : (b : Bool) → j.as_bool (j.put_bool b) ≡ some b
  pub int_back : (z : ℤ) → is_present (j.as_double (j.put_int z)) ≡ true
  pub float_back :
      (x : j.Float) → j.is_finite x ≡ true → is_present (j.as_double (j.put_float x)) ≡ true
  pub float_finite : (raw : String) (x : j.Float) → j.as_float raw ≡ some x → j.is_finite x ≡ true

-- The faults that are no matter of types.
abbrev pub benign : Fault → Bool
benign no_reference = true
benign not_ordered = true
benign zero_division = true
benign no_result = true
benign unsupported = true
benign _ = false

module _ (j : Json) where
  -- A value that reads as a number, and is no text.
  abbrev pub IsNumber : Value → Type 0
  IsNumber v = (is_present (j.as_double v.raw) ≡ true) × (is_text (kind v.type) ≡ false)

  -- A value that can be used as one of a kind.
  abbrev pub Fits : ValueKind → Value → Type 0
  Fits bool v = is_present (j.as_bool v.raw) ≡ true
  Fits string v = is_text (kind v.type) ≡ true
  Fits int v = IsNumber v
  Fits float v = IsNumber v
  Fits percentage v = IsNumber v
  Fits confidence v = IsNumber v
  Fits temperature v = IsNumber v
  Fits illuminance v = IsNumber v
  Fits distance v = IsNumber v
  Fits _ v = Unit

  -- A value of the kind, or a fault that is no matter of types.
  abbrev pub IsSafe : ValueKind → Outcome → Type 0
  IsSafe k (value v) = Fits k v
  IsSafe k (fault x) = benign x ≡ true
  IsSafe k panic = ⊥

  pub Fits-IsNumber : (k : ValueKind) (v : Value) → numeric k ≡ true → Fits k v → IsNumber v
  Fits-IsNumber int v h f = f
  Fits-IsNumber float v h f = f
  Fits-IsNumber percentage v h f = f
  Fits-IsNumber confidence v h f = f
  Fits-IsNumber temperature v h f = f
  Fits-IsNumber illuminance v h f = f
  Fits-IsNumber distance v h f = f
  Fits-IsNumber _ v h f = absurd (cc)

  pub IsNumber-Fits : (k : ValueKind) (v : Value) → numeric k ≡ true → IsNumber v → Fits k v
  IsNumber-Fits int v h f = f
  IsNumber-Fits float v h f = f
  IsNumber-Fits percentage v h f = f
  IsNumber-Fits confidence v h f = f
  IsNumber-Fits temperature v h f = f
  IsNumber-Fits illuminance v h f = f
  IsNumber-Fits distance v h f = f
  IsNumber-Fits _ v h f = absurd (cc)

  pub bind-IsSafe :
      (k l : ValueKind) (o : Outcome) (f : Value → Outcome)
      → IsSafe k o
      → ((v : Value) → Fits k v → IsSafe l (f v))
      → IsSafe l (bind o f)
  bind-IsSafe k l (value v) f s step = step v s
  bind-IsSafe k l (fault x) f s step = s
  bind-IsSafe k l panic f s step = elim s [ ]

  pub need-IsSafe :
      {A : Type 0} (l : ValueKind) (x : Fault) (o : Option A) (f : A → Outcome)
      → is_present o ≡ true
      → ((a : A) → IsSafe l (f a))
      → IsSafe l (need x o f)
  need-IsSafe l x none f s step = absurd (cc)
  need-IsSafe l x (some a) f s step = step a

  pub need-benign :
      {A : Type 0} (l : ValueKind) (x : Fault) (o : Option A) (f : A → Outcome)
      → benign x ≡ true
      → ((a : A) → IsSafe l (f a))
      → IsSafe l (need x o f)
  need-benign l x none f s step = s
  need-benign l x (some a) f s step = step a

  then_put-inv :
      {A : Type 0} (o : Option A) (f : A → Option String) (out : String)
      → then_put o f ≡ some out
      → (a : A) × (o ≡ some a) × (f a ≡ some out)
  then_put-inv none f out h = absurd (cc)
  then_put-inv (some a) f out h = (a, refl, h)

  keep_if-inv : (b : Bool) (s out : String) → keep_if b s ≡ some out → s ≡ out
  keep_if-inv true s out h = cc
  keep_if-inv false s out h = absurd (cc)

  module _ (laws : Lawful j) where
    put_number-reads :
        (k : ValueKind) (raw out : String)
        → put_number j k raw ≡ some out
        → is_present (j.as_double out) ≡ true
    put_number-reads k raw out h =
        let (x, e, q) = then_put-inv (j.as_float raw) _ out h in
        subst (λ r. is_present (j.as_double r) ≡ true)
          (keep_if-inv (in_bounds j k x) (j.put_float x) out q)
          (laws.float_back x (laws.float_finite raw x e))

    pub of_bool-Fits : (b : Bool) → Fits bool (of_bool j b)
    of_bool-Fits b = rw (laws.bool_back b) refl

    canonical_data-Fits :
        (t : TypeRef) (raw out : String)
        → canonical_data j t raw ≡ some out
        → Fits (kind t) (record { type = t; raw = out })
    unfolding canonical_data
    canonical_data-Fits (type_ref bool u n e v l) raw out h =
        let (b, _, q) = then_put-inv (j.as_bool raw) _ out h in
        let same : j.put_bool b ≡ out = ground (arith, q) in
        subst (λ r. is_present (j.as_bool r) ≡ true) same (of_bool-Fits b)
    canonical_data-Fits (type_ref string u n e v l) raw out h = refl
    canonical_data-Fits (type_ref int u n e v l) raw out h =
        let (z, _, q) = then_put-inv (j.as_int raw) _ out h in
        let same : j.put_int z ≡ out = ground (arith, q) in
        (subst (λ r. is_present (j.as_double r) ≡ true) same (laws.int_back z), refl)
    canonical_data-Fits (type_ref float u n e v l) raw out h =
        (put_number-reads float raw out h, refl)
    canonical_data-Fits (type_ref percentage u n e v l) raw out h =
        (put_number-reads percentage raw out h, refl)
    canonical_data-Fits (type_ref confidence u n e v l) raw out h =
        (put_number-reads confidence raw out h, refl)
    canonical_data-Fits (type_ref temperature u n e v l) raw out h =
        (put_number-reads temperature raw out h, refl)
    canonical_data-Fits (type_ref illuminance u n e v l) raw out h =
        (put_number-reads illuminance raw out h, refl)
    canonical_data-Fits (type_ref distance u n e v l) raw out h =
        (put_number-reads distance raw out h, refl)
    canonical_data-Fits (type_ref _ u n e v l) raw out h = tt

    -- A canonical value is one of its own kind.
    pub canonical-Fits :
        (v w : Value) → canonical j v ≡ some w → Fits (kind w.type) w × (kind w.type ≡ kind v.type)
    unfolding canonical
    canonical-Fits v w h = elim (Option-cases (normalize v.type)) [
      | inl e ↦ absurd (ground (arith, e, h))
      | inr (n, e) ↦ elim (Bool-cases (j.is_json v.raw)) [
        | inr e2 ↦ absurd (ground (arith, e, e2, h))
        | inl e2 ↦ elim (Option-cases (canonical_data j n v.raw)) [
          | inl e3 ↦ absurd (ground (arith, e, e2, e3, h))
          | inr (raw, e3) ↦
              let made : Value = record { type = n; raw = raw } in
              let same : made ≡ w = ground (arith, e, e2, e3, h) in
              (
                subst (λ x. Fits (kind x.type) x) same (canonical_data-Fits n v.raw raw e3),
                ap (λ x. kind x.type) (sym same) ∙ normalize-kind v.type n e,
              )
        ]
      ]
    ]

    pub infer_number-numeric :
        (raw : String) (k : ValueKind) → infer_number j raw ≡ some k → numeric k ≡ true
    infer_number-numeric raw k h = elim (Bool-cases (j.has_point raw)) [
      | inl e ↦ elim (Option-cases (j.as_float raw)) [
        | inl f ↦ absurd (ground (arith, e, f, h))
        | inr (x, f) ↦ ground (arith, e, f, h)
      ]
      | inr e ↦ elim (Option-cases (j.as_int raw)) [
        | inl f ↦ absurd (ground (arith, e, f, h))
        | inr (x, f) ↦ ground (arith, e, f, h)
      ]
    ]

    of_kind-IsNumber :
        (raw : String) (o : Option ValueKind) (v : Value)
        → ((k : ValueKind) → o ≡ some k → numeric k ≡ true)
        → of_kind j raw o ≡ some v
        → IsNumber v
    of_kind-IsNumber raw none v numeric_k h = absurd (cc)
    of_kind-IsNumber raw (some k) v numeric_k h =
        let made : Value = record { type = plain k; raw = raw } in
        let (fits, same) = canonical-Fits made v h in
        Fits-IsNumber k v (numeric_k k refl) (subst (λ l. Fits l v) same fits)

    of_number-IsNumber : (x : j.Float) (v : Value) → of_number j x ≡ some v → IsNumber v
    unfolding of_number
    of_number-IsNumber x v h = elim (Bool-cases (j.is_finite x)) [
      | inr e ↦ absurd (ground (arith, e, h))
      | inl e ↦
          of_kind-IsNumber (j.put_float x) (infer_number j (j.put_float x)) v
            (infer_number-numeric (j.put_float x)) (ground (arith, e, h))
    ]

    of_result-IsSafe :
        (k : ValueKind) (x : j.Float) → numeric k ≡ true → IsSafe k (of_result j (of_number j x))
    of_result-IsSafe k x h = elim (Option-cases (of_number j x)) [
      | inl e ↦ rw (e) refl
      | inr (v, e) ↦ rw (e) (IsNumber-Fits k v h (of_number-IsNumber x v e))
    ]

    calculate-IsSafe :
        (op : Op) (k : ValueKind) (a b : j.Float) → numeric k ≡ true → IsSafe k (calculate j op a b)
    unfolding calculate
    calculate-IsSafe add k a b h = of_result-IsSafe k (j.add a b) h
    calculate-IsSafe sub k a b h = of_result-IsSafe k (j.sub a b) h
    calculate-IsSafe mul k a b h = of_result-IsSafe k (j.mul a b) h
    calculate-IsSafe div k a b h = elim (Bool-cases (j.is_zero b)) [
      | inl e ↦ rw (e) refl
      | inr e ↦ rw (e) (of_result-IsSafe k (j.div a b) h)
    ]
    calculate-IsSafe _ k a b h = refl

    -- The two ways in which an arithmetic expression is typed.
    pub arithmetic_result-inv :
        (op : Op) (l r t : TypeRef)
        → arithmetic_result op l r ≡ some t
        → ((is_add op ≡ true)
            × (is_text (kind l) ≡ true)
            × (is_text (kind r) ≡ true)
            × (kind t ≡ string))
          ⊎ ((numeric (kind l) ≡ true) × (numeric (kind r) ≡ true) × (numeric (kind t) ≡ true))
    unfolding arithmetic_result
    arithmetic_result-inv op l r t h =
        texts (is_add op) (is_text (kind l)) (is_text (kind r)) _ h (λ q.
          numbers_only (numeric (kind l)) (numeric (kind r)) _ q (λ nl.
            scaled (is_int (kind l) && is_int (kind r)) (is_scalar (kind l) && is_scalar (kind r))
              (compatible l r) (scales op) (is_div op) nl))
      where
        some-inj : (x : TypeRef) → some x ≡ some t → x ≡ t
        some-inj x e = cc

        scaled :
            (ints scalars fit scales_ divides : Bool)
            → numeric (kind l) ≡ true
            → (if ints
                then some (plain (if divides then float else int))
                else if scalars
                then some (plain float)
                else if not fit
                then none
                else if scales_
                then none
                else some l)
              ≡ some t
            → numeric (kind t) ≡ true
        scaled true s f c true nl q = ap (λ x. numeric (kind x)) (sym (some-inj _ q))
        scaled true s f c false nl q = ap (λ x. numeric (kind x)) (sym (some-inj _ q))
        scaled false true f c d nl q = ap (λ x. numeric (kind x)) (sym (some-inj _ q))
        scaled false false false c d nl q = absurd (cc)
        scaled false false true true d nl q = absurd (cc)
        scaled false false true false d nl q = ap (λ x. numeric (kind x)) (sym (some-inj _ q)) ∙ nl

        numbers_only :
            (a b : Bool) (rest : Option TypeRef)
            → (if not a || not b then none else rest) ≡ some t
            → (a ≡ true → rest ≡ some t → numeric (kind t) ≡ true)
            → (a ≡ true) × (b ≡ true) × (numeric (kind t) ≡ true)
        numbers_only true true rest q k = (refl, refl, k refl q)
        numbers_only true false rest q k = absurd (cc)
        numbers_only false b rest q k = absurd (cc)

        texts :
            (a b c : Bool) (rest : Option TypeRef)
            → (if a && (b && c) then some (plain string) else rest) ≡ some t
            → (rest ≡ some t
                → (numeric (kind l) ≡ true) × (numeric (kind r) ≡ true) × (numeric (kind t) ≡ true))
            → ((a ≡ true) × (b ≡ true) × (c ≡ true) × (kind t ≡ string))
              ⊎ ((numeric (kind l) ≡ true) × (numeric (kind r) ≡ true) × (numeric (kind t) ≡ true))
        texts true true true rest q k = inl (refl, refl, refl, ap kind (sym (some-inj _ q)))
        texts true true false rest q k = inr (k q)
        texts true false c rest q k = inr (k q)
        texts false b c rest q k = inr (k q)

    pub is_text-string : (k : ValueKind) → is_text k ≡ true → k ≡ string
    is_text-string string h = refl
    is_text-string _ h = absurd (cc)

    pub arithmetic-IsSafe :
        (op : Op) (l r t : TypeRef) (v w : Value)
        → arithmetic_result op l r ≡ some t
        → Fits (kind l) v
        → Fits (kind r) w
        → IsSafe (kind t) (arithmetic j op v w)
    unfolding arithmetic
    arithmetic-IsSafe op l r t v w h fv fw = elim (arithmetic_result-inv op l r t h) [
      | inl (a, tl, tr, k) ↦
          let tv = subst (λ x. Fits x v) (is_text-string (kind l) tl) fv in
          let tw = subst (λ x. Fits x w) (is_text-string (kind r) tr) fw in rw (a, tv, tw, k) refl
      | inr (nl, nr, nt) ↦
          let (dv, tv) = Fits-IsNumber (kind l) v nl fv in
          let (dw, tw) = Fits-IsNumber (kind r) w nr fw in
          let read = need-IsSafe (kind t) not_a_number (j.as_double v.raw) _ dv (λ a.
            need-IsSafe (kind t) not_a_number (j.as_double w.raw) _ dw
              (λ b. calculate-IsSafe op (kind t) a b nt)) in
          elim (Bool-cases (is_add op)) [ inl e ↦ rw (e, tv) read | inr e ↦ rw (e) read ]
    ]
