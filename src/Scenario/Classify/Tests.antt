-- ===== src/Scenario/Classify/Tests.antt =====
-- Runs of the classification.
use home_sentinel.Base.{
  ◌≡◌, refl, String, Bool, true, false, none, some, [], All, lookup, has_prefix, trim, is_blank,
  byte_len,
}
use home_sentinel.Scenario.Model.{
  StepKind, Value, ActionStep, Flow, nil, cons, Step, step, no_if, no_switch, no_parallel,
}
use home_sentinel.Scenario.Tree.{heads}
use home_sentinel.Scenario.Expression.{valid_arguments, valid_token}
use home_sentinel.Scenario.Safety.{is_unlock, is_siren}
use home_sentinel.Scenario.Safety.Walk.{apply_safety_pass}
use home_sentinel.Scenario.Validate.{
  valid_flow, valid_step, valid_kind, valid_capability, payload_count,
}
use home_sentinel.Scenario.Validate.Gate.{Reached}
use home_sentinel.Scenario.Temporal.{analyze_temporal}
use home_sentinel.Scenario.Classify.{axiom_runtime, adgo, causes, select_runtime}
use home_sentinel.Scenario.Classify.Durable.{Immediate, select_runtime-Immediate}
use home_sentinel.Scenario.Classify.Unlock.{select_runtime-unlock}

abbrev acts : String → ActionStep → Step
acts id a =
    step
      (record {
        id = id;
        kind = StepKind.action;
        action = some a;
        wait = none;
        join = none;
        human_approval = none;
        subflow = none;
        stop = none;
      })
      no_if no_switch no_parallel

abbrev using : String → ActionStep
using cap = record {
  capability = record { id = cap; version = "1.0.0"; entity = none };
  arguments = [];
  retry = none;
}

abbrev lamp : Flow
lamp = cons (acts "lamp" (using "light.on")) nil

lamp_run : select_runtime [] [] lamp ≡ axiom_runtime
unfolding select_runtime causes analyze_temporal apply_safety_pass is_unlock is_siren lookup
    has_prefix
lamp_run = refl

select_runtime-Immediate_example : All Immediate (heads lamp)
select_runtime-Immediate_example = select_runtime-Immediate [] [] lamp lamp_run

abbrev door : Step
door = acts "let_in" (using "door.unlock")

abbrev no_values : Value → Bool
no_values v = false

valid_run : valid_flow no_values (cons door nil) ≡ true
unfolding valid_flow valid_step valid_kind valid_capability valid_arguments trim is_blank byte_len
    payload_count valid_token
valid_run = refl

unlocks : is_unlock "door.unlock" ≡ true
unfolding is_unlock
unlocks = refl

select_runtime-unlock_example : select_runtime [] [] (cons door nil) ≡ adgo
select_runtime-unlock_example =
    select_runtime-unlock [] no_values [] (cons door nil) door (using "door.unlock") valid_run
      Reached.here refl unlocks
