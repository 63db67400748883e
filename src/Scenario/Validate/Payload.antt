-- ===== src/Scenario/Validate/Payload.antt =====
-- A valid step has the payload of its kind and no other.
use home_sentinel.Base.{
  ◌≡◌, refl, ap, sym, Bool, true, false, List, [], ◌∷◌, arith, &&-left, &&-right, ==_iff, ◌==◌,
  Option-cases,
}
use home_sentinel.Scenario.Model.{
  Value, Expr, StepKind, action, wait, if_kind, switch, parallel, join, human_approval, subflow,
  stop, other, Head, Flow, Step, step, IfStep, no_if, if_step, OptFlow, SwitchStep, no_switch,
  switch_step, Cases, ParallelStep, no_parallel, parallel_step, Branches,
}
use home_sentinel.Scenario.Expression.{valid_token, is_present}
use home_sentinel.Scenario.Validate.{
  has_if, has_switch, has_parallel, present, payload_count, count_true, valid_kind, valid_flow,
  valid_step, valid_if, valid_switch, valid_parallel,
}

-- The one payload of a kind, among the nine.
abbrev pub alone : StepKind → List Bool
alone action = true ∷ false ∷ false ∷ false ∷ false ∷ false ∷ false ∷ false ∷ false ∷ []
alone wait = false ∷ true ∷ false ∷ false ∷ false ∷ false ∷ false ∷ false ∷ false ∷ []
alone if_kind = false ∷ false ∷ true ∷ false ∷ false ∷ false ∷ false ∷ false ∷ false ∷ []
alone switch = false ∷ false ∷ false ∷ true ∷ false ∷ false ∷ false ∷ false ∷ false ∷ []
alone parallel = false ∷ false ∷ false ∷ false ∷ true ∷ false ∷ false ∷ false ∷ false ∷ []
alone join = false ∷ false ∷ false ∷ false ∷ false ∷ true ∷ false ∷ false ∷ false ∷ []
alone human_approval = false ∷ false ∷ false ∷ false ∷ false ∷ false ∷ true ∷ false ∷ false ∷ []
alone subflow = false ∷ false ∷ false ∷ false ∷ false ∷ false ∷ false ∷ true ∷ false ∷ []
alone stop = false ∷ false ∷ false ∷ false ∷ false ∷ false ∷ false ∷ false ∷ true ∷ []
alone (other _) = []

abbrev pub kind_of : Step → StepKind
kind_of (step h f sw p) = h.kind

abbrev pub head_of : Step → Head
head_of (step h f sw p) = h

-- The flag of a kind, among the nine.
abbrev own : StepKind → (a w i s p j h f t : Bool) → Bool
own action a w i s p j h f t = a
own wait a w i s p j h f t = w
own if_kind a w i s p j h f t = i
own switch a w i s p j h f t = s
own parallel a w i s p j h f t = p
own join a w i s p j h f t = j
own human_approval a w i s p j h f t = h
own subflow a w i s p j h f t = f
own stop a w i s p j h f t = t
own (other _) a w i s p j h f t = false

own-alone :
    (k : StepKind) (a w i s p j h f t : Bool)
    → count_true (a ∷ w ∷ i ∷ s ∷ p ∷ j ∷ h ∷ f ∷ t ∷ []) ≡ 1
    → own k a w i s p j h f t ≡ true
    → (a ∷ w ∷ i ∷ s ∷ p ∷ j ∷ h ∷ f ∷ t ∷ []) ≡ alone k
own-alone action a w i s p j h f t one here = ground arith
own-alone wait a w i s p j h f t one here = ground arith
own-alone if_kind a w i s p j h f t one here = ground arith
own-alone switch a w i s p j h f t one here = ground arith
own-alone parallel a w i s p j h f t one here = ground arith
own-alone join a w i s p j h f t one here = ground arith
own-alone human_approval a w i s p j h f t one here = ground arith
own-alone subflow a w i s p j h f t one here = ground arith
own-alone stop a w i s p j h f t one here = ground arith
own-alone (other _) a w i s p j h f t one here = absurd (ground arith)

module _ (valid_value : Value → Bool) where
  valid_if-has : (f : IfStep) → valid_if valid_value f ≡ true → has_if f ≡ true
  unfolding valid_flow
  valid_if-has no_if v = v
  valid_if-has (if_step c t e) v = refl

  valid_switch-has : (s : SwitchStep) → valid_switch valid_value s ≡ true → has_switch s ≡ true
  unfolding valid_flow
  valid_switch-has no_switch v = v
  valid_switch-has (switch_step cs d) v = refl

  valid_parallel-has :
      (p : ParallelStep) → valid_parallel valid_value p ≡ true → has_parallel p ≡ true
  unfolding valid_flow
  valid_parallel-has no_parallel v = v
  valid_parallel-has (parallel_step bs) v = refl

  abbrev own_flag : StepKind → Head → IfStep → SwitchStep → ParallelStep → Bool
  own_flag k h f sw p =
      own k (is_present h.action) (is_present h.wait) (has_if f) (has_switch sw) (has_parallel p)
        (is_present h.join) (is_present h.human_approval) (is_present h.subflow) (is_present h.stop)

  valid_kind-own :
      (k : StepKind) (h : Head) (f : IfStep) (sw : SwitchStep) (p : ParallelStep)
      → valid_kind valid_value k h
          (valid_if valid_value f)
          (valid_switch valid_value sw)
          (valid_parallel valid_value p)
        ≡ true
      → own_flag k h f sw p ≡ true
  unfolding valid_kind
  valid_kind-own action h f sw p v = ground (arith, Option-cases h.action)
  valid_kind-own wait h f sw p v = ground (arith, Option-cases h.wait)
  valid_kind-own if_kind h f sw p v = valid_if-has f v
  valid_kind-own switch h f sw p v = valid_switch-has sw v
  valid_kind-own parallel h f sw p v = valid_parallel-has p v
  valid_kind-own join h f sw p v = ground (arith, Option-cases h.join)
  valid_kind-own human_approval h f sw p v = ground (arith, Option-cases h.human_approval)
  valid_kind-own subflow h f sw p v = ground (arith, Option-cases h.subflow)
  valid_kind-own stop h f sw p v = ground (arith, Option-cases h.stop)
  valid_kind-own (other _) h f sw p v = absurd (ground arith)

  -- What a valid step satisfies.
  abbrev Checks : Step → Type 0
  Checks (step h f sw p) =
      (valid_token h.id ≡ true)
      × ((payload_count (step h f sw p) ≡ 1)
          × (valid_kind valid_value h.kind h (valid_if valid_value f) (valid_switch valid_value sw)
                (valid_parallel valid_value p)
              ≡ true))

  pub valid_step-Checks : (st : Step) → valid_step valid_value st ≡ true → Checks st
  unfolding valid_flow
  valid_step-Checks (step h f sw p) v =
      let rest = &&-right (valid_token h.id) _ v in
      (
        &&-left (valid_token h.id) _ v,
        (
          (==_iff (payload_count (step h f sw p)) 1).0
              (&&-left (payload_count (step h f sw p) == 1) _ rest),
          &&-right (payload_count (step h f sw p) == 1) _ rest,
        ),
      )

  pub valid_step-token :
      (st : Step) → valid_step valid_value st ≡ true → valid_token (head_of st).id ≡ true
  valid_step-token (step h f sw p) v = (valid_step-Checks (step h f sw p) v).0

  pub valid_step-alone :
      (st : Step) → valid_step valid_value st ≡ true → present st ≡ alone (kind_of st)
  unfolding payload_count
  valid_step-alone (step h f sw p) v =
      let (_, (one, fits)) = valid_step-Checks (step h f sw p) v in
      own-alone h.kind _ _ _ _ _ _ _ _ _ one (valid_kind-own h.kind h f sw p fits)

-- The third, fourth and fifth of the nine flags: those of the payloads that hold flows.
abbrev pub third : List Bool → Bool
third (_ ∷ _ ∷ b ∷ _) = b
third _ = false

abbrev fourth : List Bool → Bool
fourth (_ ∷ _ ∷ _ ∷ b ∷ _) = b
fourth _ = false

abbrev fifth : List Bool → Bool
fifth (_ ∷ _ ∷ _ ∷ _ ∷ b ∷ _) = b
fifth _ = false

module _ (valid_value : Value → Bool) where
  third-if :
      (k : StepKind) (h : Head) (i s p : Bool)
      → third (alone k) ≡ true
      → valid_kind valid_value k h i s p ≡ true
      → i ≡ true
  unfolding valid_kind
  third-if action h i s p here v = absurd (ground arith)
  third-if wait h i s p here v = absurd (ground arith)
  third-if if_kind h i s p here v = v
  third-if switch h i s p here v = absurd (ground arith)
  third-if parallel h i s p here v = absurd (ground arith)
  third-if join h i s p here v = absurd (ground arith)
  third-if human_approval h i s p here v = absurd (ground arith)
  third-if subflow h i s p here v = absurd (ground arith)
  third-if stop h i s p here v = absurd (ground arith)
  third-if (other _) h i s p here v = absurd (ground arith)

  fourth-switch :
      (k : StepKind) (h : Head) (i s p : Bool)
      → fourth (alone k) ≡ true
      → valid_kind valid_value k h i s p ≡ true
      → s ≡ true
  unfolding valid_kind
  fourth-switch action h i s p here v = absurd (ground arith)
  fourth-switch wait h i s p here v = absurd (ground arith)
  fourth-switch if_kind h i s p here v = absurd (ground arith)
  fourth-switch switch h i s p here v = v
  fourth-switch parallel h i s p here v = absurd (ground arith)
  fourth-switch join h i s p here v = absurd (ground arith)
  fourth-switch human_approval h i s p here v = absurd (ground arith)
  fourth-switch subflow h i s p here v = absurd (ground arith)
  fourth-switch stop h i s p here v = absurd (ground arith)
  fourth-switch (other _) h i s p here v = absurd (ground arith)

  fifth-parallel :
      (k : StepKind) (h : Head) (i s p : Bool)
      → fifth (alone k) ≡ true
      → valid_kind valid_value k h i s p ≡ true
      → p ≡ true
  unfolding valid_kind
  fifth-parallel action h i s p here v = absurd (ground arith)
  fifth-parallel wait h i s p here v = absurd (ground arith)
  fifth-parallel if_kind h i s p here v = absurd (ground arith)
  fifth-parallel switch h i s p here v = absurd (ground arith)
  fifth-parallel parallel h i s p here v = v
  fifth-parallel join h i s p here v = absurd (ground arith)
  fifth-parallel human_approval h i s p here v = absurd (ground arith)
  fifth-parallel subflow h i s p here v = absurd (ground arith)
  fifth-parallel stop h i s p here v = absurd (ground arith)
  fifth-parallel (other _) h i s p here v = absurd (ground arith)

  -- A payload that holds flows is checked wherever it is there.
  pub valid_step-if :
      (h : Head) (c : Expr) (t : Flow) (e : OptFlow) (sw : SwitchStep) (p : ParallelStep)
      → valid_step valid_value (step h (if_step c t e) sw p) ≡ true
      → valid_if valid_value (if_step c t e) ≡ true
  valid_step-if h c t e sw p v =
      third-if h.kind h _ (valid_switch valid_value sw) (valid_parallel valid_value p)
        (sym (ap third (valid_step-alone valid_value (step h (if_step c t e) sw p) v)))
        (valid_step-Checks valid_value (step h (if_step c t e) sw p) v).1.1

  pub valid_step-switch :
      (h : Head) (f : IfStep) (cs : Cases) (d : OptFlow) (p : ParallelStep)
      → valid_step valid_value (step h f (switch_step cs d) p) ≡ true
      → valid_switch valid_value (switch_step cs d) ≡ true
  valid_step-switch h f cs d p v =
      fourth-switch h.kind h (valid_if valid_value f) _ (valid_parallel valid_value p)
        (sym (ap fourth (valid_step-alone valid_value (step h f (switch_step cs d) p) v)))
        (valid_step-Checks valid_value (step h f (switch_step cs d) p) v).1.1

  pub valid_step-parallel :
      (h : Head) (f : IfStep) (sw : SwitchStep) (bs : Branches)
      → valid_step valid_value (step h f sw (parallel_step bs)) ≡ true
      → valid_parallel valid_value (parallel_step bs) ≡ true
  valid_step-parallel h f sw bs v =
      fifth-parallel h.kind h (valid_if valid_value f) (valid_switch valid_value sw) _
        (sym (ap fifth (valid_step-alone valid_value (step h f sw (parallel_step bs)) v)))
        (valid_step-Checks valid_value (step h f sw (parallel_step bs)) v).1.1
