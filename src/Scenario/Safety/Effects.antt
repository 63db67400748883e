-- ===== src/Scenario/Safety/Effects.antt =====
-- The external effects that the safety pass records.
use home_sentinel.Base.{
  ◌≤◌, ◌≡◌, refl, ap, String, true, false, Option, none, some, List, [], ◌∷◌, ◌++◌, All, All-append,
  Dict, lookup, if◌then◌else◌, arith, Bool-cases, inl, inr,
}
use home_sentinel.Scenario.Model.{critical, ActionStep, Flow}
use home_sentinel.Scenario.Safety.{
  Descriptor, required, ExternalEffect, Analysis, is_unlock, is_siren, max_siren_duration,
}
use home_sentinel.Scenario.Safety.Walk.{
  unlock_effect, siren_effect, ordinary_effects, visit_action, visit_node, durable,
  apply_safety_pass,
}
use home_sentinel.Scenario.Safety.Chain.{walk_flow-keeps}

-- What a branch for an action appends to the effects.
abbrev action_effects : Dict Descriptor → ActionStep → List ExternalEffect
action_effects resolved a =
    if is_unlock a.capability.id
    then unlock_effect a ∷ []
    else if is_siren a.capability.id
    then siren_effect a ∷ []
    else ordinary_effects a (lookup a.capability.id resolved)

module _ (resolved : Dict Descriptor) where
  effects-visit_action :
      (id : String) (a : ActionStep) (s : Analysis)
      → (visit_action resolved id a s).effects ≡ s.effects ++ action_effects resolved a
  unfolding visit_action
  effects-visit_action id a s = ground arith

  -- A property of each effect holds of all that the pass records, if it holds of those of one action.
  effects-All :
      (P : ExternalEffect → Type 0)
      → ((a : ActionStep) → All P (action_effects resolved a))
      → (f : Flow) → All P (apply_safety_pass resolved f).effects
  unfolding apply_safety_pass visit_node durable
  effects-All P each f =
      walk_flow-keeps resolved (λ s. All P s.effects)
        (record {
          keep_action = λ id a s h.
              rw (effects-visit_action id a s)
                (All-append P s.effects (action_effects resolved a) h (each a));
          keep_node = λ id kind risk s h. h;
          keep_durable = λ r s h. h;
        })
        f "flow" 0 _ tt

  abbrev pub Bounded : ExternalEffect → Type 0
  Bounded e = (e.timeout ≤ max_siren_duration) × (e.max_retries ≤ 3)

  action_effects-Bounded : (a : ActionStep) → All Bounded (action_effects resolved a)
  action_effects-Bounded a = ground arith

  -- No recorded effect may run longer than five minutes, or be tried more than three times again.
  pub effects-Bounded : (f : Flow) → All Bounded (apply_safety_pass resolved f).effects
  effects-Bounded f = effects-All Bounded action_effects-Bounded f

  -- The registry's descriptors are filed under their own IDs.
  abbrev pub IsKeyed : Type 0
  IsKeyed = (id : String) (d : Descriptor) → lookup id resolved ≡ some d → d.id ≡ id

  abbrev pub Guarded : ExternalEffect → Type 0
  Guarded e =
      is_unlock e.capability_id ≡ true
      → (e.risk ≡ critical)
        × (e.idempotency ≡ required)
        × (e.read_before_write ≡ true)
        × (e.verify_after_write ≡ true)
        × (e.reconciliation ≡ true)

  ordinary_effects-Guarded :
      (a : ActionStep) (o : Option Descriptor)
      → ((d : Descriptor) → o ≡ some d → d.id ≡ a.capability.id)
      → is_unlock a.capability.id ≡ false
      → All Guarded (ordinary_effects a o)
  ordinary_effects-Guarded a none keyed plain = tt
  ordinary_effects-Guarded a (some d) keyed plain = ground (arith, ap is_unlock (keyed d refl))

  action_effects-Guarded : IsKeyed → (a : ActionStep) → All Guarded (action_effects resolved a)
  action_effects-Guarded keyed a = elim (Bool-cases (is_unlock a.capability.id)) [
    | inl unlock ↦ rw unlock ((λ _. (refl, refl, refl, refl, refl)), tt)
    | inr other ↦ elim (Bool-cases (is_siren a.capability.id)) [
      | inl siren ↦ rw (other, siren) ((λ e. absurd (ground arith)), tt)
      | inr plain ↦ rw (other, plain) (ordinary_effects-Guarded a _ (keyed a.capability.id) other)
    ]
  ]

  -- Each recorded effect of an unlock is critical, idempotent, reads before it writes, verifies what
  -- it wrote and is reconciled, if the descriptors are filed under their own IDs.
  pub effects-Guarded : IsKeyed → (f : Flow) → All Guarded (apply_safety_pass resolved f).effects
  effects-Guarded keyed f = effects-All Guarded (action_effects-Guarded keyed) f
