-- ===== src/Scenario/Classify/Unlock.antt =====
-- An unlock is never given to the reactive runtime.
use home_sentinel.Base.{
  ◌≡◌, ◌≢◌, refl, String, Bool, true, some, List, [], ◌∷◌, ◌++◌, map, append-eq-nil, Dict, arith,
  Bool-cases, inl, inr, if◌then◌else◌,
}
use home_sentinel.Scenario.Model.{Value, ActionStep, Flow, Step}
use home_sentinel.Scenario.Safety.{Descriptor, Reason, Analysis, is_unlock, is_siren}
use home_sentinel.Scenario.Safety.Walk.{visit_action, visit_node, durable, apply_safety_pass}
use home_sentinel.Scenario.Safety.Chain.{Kept}
use home_sentinel.Scenario.Safety.Reach.{apply_safety_pass-reaches}
use home_sentinel.Scenario.Validate.{valid_flow}
use home_sentinel.Scenario.Validate.Payload.{head_of}
use home_sentinel.Scenario.Validate.Deep.{valid_flow-steps, valid_flow-alone}
use home_sentinel.Scenario.Validate.Gate.{Reached, In-Reached, UnlockIn-Reached}
use home_sentinel.Scenario.Temporal.{Trigger, Requirement, analyze_temporal}
use home_sentinel.Scenario.Classify.{
  axiom_runtime, adgo, Cause, by_safety, durable_causes, inspect_flow, causes, classify,
  select_runtime,
}

-- The safety pass asks for the durable runtime and says why.
abbrev Asks : String → Analysis → Type 0
Asks id s = (s.requires_adgo ≡ true) × (s.reasons ≢ [])

append-ne : (xs ys : List Reason) → ys ≢ [] → (xs ++ ys) ≢ []
append-ne [] ys h = h
append-ne (x ∷ xs) ys h = λ e. cc

append-ne_left : (xs ys : List Reason) → xs ≢ [] → (xs ++ ys) ≢ []
append-ne_left [] ys h = absurd (h refl)
append-ne_left (x ∷ xs) ys h = λ e. cc

module _ (resolved : Dict Descriptor) where
  visit_action-Asks :
      (id : String) (a : ActionStep) (s : Analysis)
      → is_unlock a.capability.id ≡ true
      → Asks id (visit_action resolved id a s)
  unfolding visit_action
  visit_action-Asks id a s unlock =
      rw (visit_action, unlock) (refl, append-ne s.reasons _ (λ e. cc))

  visit_action-keeps :
      (id j : String) (a : ActionStep) (s : Analysis)
      → Asks id s
      → Asks id (visit_action resolved j a s)
  unfolding visit_action
  visit_action-keeps id j a s (asks, why) = elim (Bool-cases (is_unlock a.capability.id)) [
    | inl unlock ↦ rw (visit_action, unlock) (refl, append-ne s.reasons _ (λ e. cc))
    | inr other ↦ elim (Bool-cases (is_siren a.capability.id)) [
      | inl siren ↦ rw (visit_action, other, siren) (refl, append-ne s.reasons _ (λ e. cc))
      | inr plain ↦ rw (visit_action, other, plain) (asks, why)
    ]
  ]

  Asks-Kept : (id : String) → Kept resolved (Asks id)
  unfolding visit_node durable
  Asks-Kept id = record {
    keep_action = visit_action-keeps id;
    keep_node = λ j kind risk s a. a;
    keep_durable = λ r s a. (refl, append-ne s.reasons (r ∷ []) (λ e. cc));
  }

  map-ne : (rs : List Reason) → rs ≢ [] → map by_safety rs ≢ []
  map-ne [] h = absurd (h refl)
  map-ne (r ∷ rs) h = λ e. cc

  classify-Asks :
      (f : Flow) (rs : List Requirement) (s : Analysis) (id : String)
      → Asks id s
      → classify resolved f rs s ≡ adgo
  unfolding classify causes
  classify-Asks f rs s id (asks, why) =
      let (split, _) =
        append-eq-nil (if s.requires_adgo then map by_safety s.reasons else [])
          (durable_causes rs ++ inspect_flow resolved f) in
      go (causes resolved f rs s) (λ e. map-ne s.reasons why (ground (arith, asks, (split e).0)))
    where
      go : (cs : List Cause) → cs ≢ [] → (elim cs [ [] ↦ axiom_runtime | _ ∷ _ ↦ adgo ]) ≡ adgo
      go [] h = absurd (h refl)
      go (c ∷ cs) h = refl

  -- A valid scenario with a step that unlocks, in sequence or in a branch of an `if`, is given to the
  -- durable runtime.
  pub select_runtime-unlock :
      (valid_value : Value → Bool) (triggers : List Trigger) (f : Flow) (st : Step) (a : ActionStep)
      → valid_flow valid_value f ≡ true
      → Reached st f
      → (head_of st).action ≡ some a
      → is_unlock a.capability.id ≡ true
      → select_runtime resolved triggers f ≡ adgo
  unfolding select_runtime
  select_runtime-unlock valid_value triggers f st a v r acts unlock =
      classify-Asks f (analyze_temporal triggers f) (apply_safety_pass resolved f) (head_of st).id (
        apply_safety_pass-reaches resolved Asks Asks-Kept visit_action-Asks (head_of st).id f (
          UnlockIn-Reached valid_value a acts unlock
            (valid_flow-alone valid_value f st v (In-Reached r)).1 r "flow" 0
            (valid_flow-steps valid_value f v)))
