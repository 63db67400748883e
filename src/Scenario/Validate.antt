-- ===== src/Scenario/Validate.antt =====
-- internal/scenario/model: `Validate` of steps and flows (step.go, flow.go) and of the references in
-- them (entity_ref.go, safety.go). As for expressions, a test is true where the error is nil.
pub mod Payload
pub mod Deep
pub mod Gate
pub mod Ids
mod Tests
use home_sentinel.Base.{
  ℕ, suc, ◌+◌, String, str_eq, codes, to_lower, trim, byte_len, bytes_eq, is_blank, Bool, true,
  false, not, ◌&&◌, ◌||◌, Option, none, some, List, [], ◌∷◌, if◌then◌else◌, leb, ltb, ◌==◌, length,
  every, ℤ, pos, negsuc, is_pos, pos_part,
}
use home_sentinel.Scenario.Model.{
  Value, Expr, expr, Exprs, no_args, arg, RiskLevel, EntityRef, CapabilityRef, RetryHint,
  ActionStep, WaitStep, JoinMode, JoinStep, HumanApprovalStep, SubflowStep, StopOutcome, StopStep,
  StepKind, Head, Flow, nil, cons, Step, step, IfStep, no_if, if_step, OptFlow, no_flow, flow,
  SwitchStep, no_switch, switch_step, Cases, no_case, case, ParallelStep, no_parallel,
  parallel_step, Branches, no_branch, branch,
}
use home_sentinel.Scenario.Expression.{is_present, valid_token, valid_arguments, valid_condition}

unfoldable pub valid_entity : EntityRef → Bool
unfolding valid_token
valid_entity e = valid_token e.id && valid_token e.kind

unfoldable pub valid_capability : CapabilityRef → Bool
unfolding valid_entity
valid_capability c =
    valid_token c.id
    && (not (is_blank c.version)
        && (leb (byte_len c.version) 64 && elim c.entity [ none ↦ true | some e ↦ valid_entity e ]))

abbrev is_zero_int : ℤ → Bool
is_zero_int (pos n) = n == 0
is_zero_int (negsuc n) = false

abbrev is_neg : ℤ → Bool
is_neg (pos n) = false
is_neg (negsuc n) = true

abbrev in_range : ℤ → Bool
in_range z = is_pos z && leb (pos_part z) 10

-- `validateJoin`.
unfoldable pub valid_join : JoinStep → Bool
valid_join j = elim j.mode [
  | JoinMode.all ↦ is_zero_int j.threshold
  | JoinMode.any ↦ is_zero_int j.threshold
  | JoinMode.n_of_m ↦ is_pos j.threshold
  | JoinMode.quorum ↦ is_pos j.threshold
  | JoinMode.unknown_mode _ ↦ false
]

-- `RetryHint.Validate`.
unfoldable pub valid_retry : RetryHint → Bool
valid_retry r =
    in_range r.max_attempts
    && (not (is_neg r.base_delay)
        && (not (is_neg r.max_delay)
            && not (is_pos r.max_delay && ltb (pos_part r.max_delay) (pos_part r.base_delay))))

abbrev is_known_risk : RiskLevel → Bool
is_known_risk (RiskLevel.unknown_risk _) = false
is_known_risk _ = true

unfoldable pub valid_approval : HumanApprovalStep → Bool
valid_approval a = is_known_risk a.risk && (not (is_blank a.prompt) && not (is_neg a.timeout))

abbrev is_known_outcome : StopOutcome → Bool
is_known_outcome (StopOutcome.unknown_outcome _) = false
is_known_outcome _ = true

abbrev pub has_if : IfStep → Bool
has_if no_if = false
has_if (if_step _ _ _) = true

abbrev pub has_switch : SwitchStep → Bool
has_switch no_switch = false
has_switch (switch_step _ _) = true

abbrev pub has_parallel : ParallelStep → Bool
has_parallel no_parallel = false
has_parallel (parallel_step _) = true

abbrev pub has_case : Cases → Bool
has_case no_case = false
has_case (case _ _ _) = true

abbrev pub has_two : Branches → Bool
has_two (branch _ (branch _ _)) = true
has_two _ = false

-- The payloads of a step that are there, in the source's order.
abbrev pub present : Step → List Bool
present (step h f sw p) =
    is_present h.action
    ∷ is_present h.wait
    ∷ has_if f
    ∷ has_switch sw
    ∷ has_parallel p
    ∷ is_present h.join
    ∷ is_present h.human_approval
    ∷ is_present h.subflow
    ∷ is_present h.stop
    ∷ []

abbrev pub count_true : List Bool → ℕ
count_true [] = 0
count_true (b ∷ bs) = (if b then 1 else 0) + count_true bs

unfoldable pub payload_count : Step → ℕ
payload_count st = count_true (present st)

module _ (valid_value : Value → Bool) where
  -- `validateAction`.
  unfoldable pub valid_action : ActionStep → Bool
  unfolding valid_capability valid_arguments valid_retry
  valid_action a =
      valid_capability a.capability
      && (valid_arguments valid_value a.arguments
          && elim a.retry [ none ↦ true | some r ↦ valid_retry r ])

  unfoldable pub valid_subflow : SubflowStep → Bool
  unfolding valid_token valid_arguments
  valid_subflow s =
      valid_token s.scenario_id && (not (s.version == 0) && valid_arguments valid_value s.arguments)

  -- The branch for the kind of a step, with the verdicts on the payloads that hold flows.
  unfoldable pub valid_kind : StepKind → Head → (if_ok switch_ok parallel_ok : Bool) → Bool
  unfolding valid_action valid_join valid_approval valid_subflow
  valid_kind StepKind.action h i s p = elim h.action [ none ↦ false | some a ↦ valid_action a ]
  valid_kind StepKind.wait h i s p = elim h.wait [ none ↦ false | some w ↦ is_pos w.duration ]
  valid_kind StepKind.if_kind h i s p = i
  valid_kind StepKind.switch h i s p = s
  valid_kind StepKind.parallel h i s p = p
  valid_kind StepKind.join h i s p = elim h.join [ none ↦ false | some j ↦ valid_join j ]
  valid_kind StepKind.human_approval h i s p = elim h.human_approval [
    | none ↦ false
    | some a ↦ valid_approval a
  ]
  valid_kind StepKind.subflow h i s p = elim h.subflow [ none ↦ false | some f ↦ valid_subflow f ]
  valid_kind StepKind.stop h i s p = elim h.stop [
    | none ↦ false
    | some t ↦ is_known_outcome t.outcome
  ]
  valid_kind (StepKind.other _) h i s p = false

  unfoldable mutual
    unfolding payload_count valid_token valid_condition valid_kind

    -- `Flow.Validate`: at least one step, and each is valid.
    pub valid_flow : Flow → Bool
    valid_flow nil = false
    valid_flow (cons st rest) = valid_step st && valid_steps rest

    pub valid_steps : Flow → Bool
    valid_steps nil = true
    valid_steps (cons st rest) = valid_step st && valid_steps rest

    -- `Step.Validate`.
    pub valid_step : Step → Bool
    valid_step (step h f sw p) =
        let if_ok = valid_if f in
        let switch_ok = valid_switch sw in
        let parallel_ok = valid_parallel p in
        valid_token h.id
        && (payload_count (step h f sw p) == 1 && valid_kind h.kind h if_ok switch_ok parallel_ok)

    pub valid_if : IfStep → Bool
    valid_if no_if = false
    valid_if (if_step c t e) = valid_condition valid_value c && (valid_flow t && valid_opt e)

    pub valid_opt : OptFlow → Bool
    valid_opt no_flow = true
    valid_opt (flow f) = valid_flow f

    pub valid_switch : SwitchStep → Bool
    valid_switch no_switch = false
    valid_switch (switch_step cs d) = has_case cs && (valid_cases cs && valid_opt d)

    pub valid_cases : Cases → Bool
    valid_cases no_case = true
    valid_cases (case w f cs) = valid_condition valid_value w && (valid_flow f && valid_cases cs)

    pub valid_parallel : ParallelStep → Bool
    valid_parallel no_parallel = false
    valid_parallel (parallel_step bs) = has_two bs && valid_branches bs

    pub valid_branches : Branches → Bool
    valid_branches no_branch = true
    valid_branches (branch f bs) = valid_flow f && valid_branches bs
