-- ===== src/Scenario/Simulator/Tests.antt =====
-- Runs of the simulator on a small flow.
use home_sentinel.Base.{
  ◌≡◌, ◌≢◌, refl, String, Bool, true, false, Option, none, some, [], pos, trim, is_blank, byte_len,
}
use home_sentinel.Scenario.Model.{
  StepKind, Value, Expr, expr, no_args, ActionStep, Head, Flow, nil, cons, Step, step, no_if,
  no_switch, no_parallel,
}
use home_sentinel.Scenario.Expression.{
  form, valid_expr, valid_arguments, valid_token, valid_condition, valid_reference,
}
use home_sentinel.Scenario.Validate.{
  valid_flow, valid_step, valid_kind, valid_capability, payload_count,
}
use home_sentinel.Scenario.Simulator.{Sim, panic, no_outcome, execute}
use home_sentinel.Scenario.Simulator.Approval.{Accounted, execute-Accounted}
use home_sentinel.Scenario.Simulator.Panic.{execute_calm}

abbrev bare : String → StepKind → Head
bare id kind = record {
  id = id;
  kind = kind;
  action = none;
  wait = none;
  join = none;
  human_approval = none;
  subflow = none;
  stop = none;
}

abbrev unlock : ActionStep
unlock = record {
  capability = record { id = "door.unlock"; version = "1.0.0"; entity = none };
  arguments = [];
  retry = none;
}

abbrev pause : Step
pause =
    step (record (bare "pause" StepKind.wait) { wait = some (record { duration = pos 5 }) }) no_if
      no_switch no_parallel

abbrev let_in : Step
let_in =
    step (record (bare "let_in" StepKind.action) { action = some unlock }) no_if no_switch
      no_parallel

-- Waits, then unlocks.
abbrev welcome : Flow
welcome = cons pause (cons let_in nil)

abbrev no_values : Value → Bool
no_values v = false

abbrev undecided : Expr → Option Bool
undecided e = none

abbrev nobody : String → Option Bool
nobody id = some false

abbrev everybody : String → Option Bool
everybody id = some true

abbrev fresh : Sim
fresh = record {
  clock = 100;
  passed = true;
  traces = [];
  effects = [];
  final = no_outcome;
  errors = [];
}

valid_run : valid_flow no_values welcome ≡ true
unfolding valid_flow valid_step valid_kind valid_capability form valid_expr valid_arguments trim
    is_blank byte_len payload_count valid_token valid_condition valid_reference
valid_run = refl

execute_calm_example : (execute undecided everybody welcome fresh).0 ≢ panic
execute_calm_example = execute_calm no_values undecided everybody welcome fresh valid_run

execute-Accounted_example :
    Accounted everybody welcome
      (execute undecided everybody welcome fresh).1.traces
      (execute undecided everybody welcome fresh).1.effects
execute-Accounted_example = execute-Accounted undecided everybody welcome fresh refl refl

abbrev asking : Expr
asking = expr "ref" "state.home" none no_args
