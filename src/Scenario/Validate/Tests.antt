-- ===== src/Scenario/Validate/Tests.antt =====
-- Runs of the validation on a small flow.
use home_sentinel.Base.{
  ◌≡◌, ◌≢◌, ◌↔◌, refl, String, Bool, true, false, none, some, [], trim, is_blank, pos, byte_len,
}
use home_sentinel.Scenario.Model.{
  StepKind, Value, Expr, expr, no_args, ActionStep, Head, Flow, nil, cons, Step, step, no_if,
  if_step, no_flow, no_switch, no_parallel,
}
use home_sentinel.Scenario.Tree.{heads}
use home_sentinel.Scenario.Expression.{
  form, valid_expr, valid_arguments, valid_token, valid_condition, valid_reference,
}
use home_sentinel.Scenario.Safety.{is_unlock}
use home_sentinel.Scenario.Safety.Walk.{apply_safety_pass}
use home_sentinel.Scenario.Safety.Gates.{Gated}
use home_sentinel.Scenario.Validate.{
  present, valid_flow, valid_step, valid_kind, valid_capability, payload_count,
}
use home_sentinel.Scenario.Validate.Payload.{alone, kind_of, head_of}
use home_sentinel.Scenario.Validate.Deep.{first, after, within, Inside, valid_flow-alone}
use home_sentinel.Scenario.Validate.Gate.{Reached, valid_flow-Gated}
use home_sentinel.Scenario.Validate.Ids.{collect_ids, Distinct, collect_ids-Distinct}

abbrev bare : String → StepKind → Head
bare id kind = record {
  id = id;
  kind = kind;
  action = none;
  wait = none;
  join = none;
  human_approval = none;
  subflow = none;
  stop = none;
}

abbrev unlock : ActionStep
unlock = record {
  capability = record {
    id = "door.unlock";
    version = "1.0.0";
    entity = some (record { id = "front"; kind = "door" });
  };
  arguments = [];
  retry = none;
}

abbrev entry_step : Step
entry_step =
    step (record (bare "open" StepKind.action) { action = some unlock }) no_if no_switch no_parallel

abbrev pause : Step
pause =
    step (record (bare "pause" StepKind.wait) { wait = some (record { duration = pos 5 }) }) no_if
      no_switch no_parallel

abbrev home : Expr
home = expr "ref" "trigger.home" none no_args

-- Waits, then opens the door if somebody is home.
abbrev welcome : Flow
welcome = cons pause (
    cons
      (step (bare "check" StepKind.if_kind) (if_step home (cons entry_step nil) no_flow) no_switch
        no_parallel)
      nil)

abbrev no_values : Value → Bool
no_values v = false

valid_run : valid_flow no_values welcome ≡ true
unfolding valid_flow valid_step valid_kind valid_capability form valid_expr valid_arguments trim
    is_blank byte_len payload_count valid_token valid_condition valid_reference
valid_run = refl

valid_flow-alone_example :
    (present entry_step ≡ alone (kind_of entry_step)) × (valid_token (head_of entry_step).id ≡ true)
valid_flow-alone_example =
    valid_flow-alone no_values welcome entry_step valid_run (after (within (Inside.in_then first)))

unlocks : is_unlock "door.unlock" ≡ true
unfolding is_unlock
unlocks = refl

valid_flow-Gated_example : Gated "open" (apply_safety_pass [] welcome).system_nodes
valid_flow-Gated_example =
    valid_flow-Gated no_values [] welcome entry_step unlock valid_run
      (Reached.later (Reached.in_then Reached.here)) refl unlocks

collect_ids-Distinct_example : (collect_ids welcome [] ≢ none) ↔ Distinct (heads welcome)
collect_ids-Distinct_example = collect_ids-Distinct welcome

collect_run : collect_ids (cons entry_step (cons entry_step nil)) [] ≡ none
unfolding collect_ids
collect_run = refl
