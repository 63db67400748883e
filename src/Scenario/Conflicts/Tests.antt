-- ===== src/Scenario/Conflicts/Tests.antt =====
-- Runs of the static analysis on small flows.
use home_sentinel.Base.{
  ◌≡◌, ◌≢◌, refl, String, false, none, some, [], length, count_if, arith, eq_iff,
}
use home_sentinel.Scenario.Model.{
  StepKind, StopOutcome, Head, Flow, nil, cons, Step, step, no_if, no_switch, no_parallel,
  parallel_step, no_branch, branch,
}
use home_sentinel.Scenario.Tree.{heads}
use home_sentinel.Scenario.Conflicts.{calls, check_self, check_unreachable}
use home_sentinel.Scenario.Conflicts.Resources.{Use}
use home_sentinel.Scenario.Conflicts.Recursion.{check_self_counts}
use home_sentinel.Scenario.Conflicts.Unreachable.{check_unreachable-parallel}

abbrev bare : String → StepKind → Head
bare id kind = record {
  id = id;
  kind = kind;
  action = none;
  wait = none;
  join = none;
  human_approval = none;
  subflow = none;
  stop = none;
}

abbrev lights : String → String → Step
lights id cap =
    step
      (record (bare id StepKind.action) {
        action = some (record {
          capability = record {
            id = cap;
            version = "1.0.0";
            entity = some (record { id = "hall"; kind = "light" });
          };
          arguments = [];
          retry = none;
        });
      })
      no_if no_switch no_parallel

abbrev call : String → Step
call id =
    step
      (record (bare id StepKind.subflow) {
        subflow = some (record { scenario_id = "night"; version = 1; arguments = [] });
      })
      no_if no_switch no_parallel

abbrev stop : Step
stop =
    step
      (record (bare "end" StepKind.stop) {
        stop = some (record { outcome = StopOutcome.completed });
      })
      no_if no_switch no_parallel

-- The light is switched on and off in one branch.
abbrev blink : Flow
blink = cons (lights "on" "light.on") (cons (lights "off" "light.off") nil)

abbrev calls_itself : Flow
calls_itself =
    cons
      (step (bare "both" StepKind.parallel) no_if no_switch
        (parallel_step (branch (cons (call "again") nil) (branch blink no_branch))))
      nil

check_self_counts_example :
    length (check_self "night" calls_itself "flow" 0)
    ≡ count_if (calls "night") (heads calls_itself)
check_self_counts_example = check_self_counts "night" calls_itself

check_self_run : length (check_self "night" calls_itself "flow" 0) ≡ 1
unfolding check_self calls
check_self_run = refl

abbrev on : Use
on = record { resource = "light:hall"; capability = "light.on" }

abbrev off : Use
off = record { resource = "light:hall"; capability = "light.off" }

on_ne_off : on.capability ≢ off.capability
on_ne_off e = absurd (ground (arith, eq_iff "light.on" "light.off"))

check_unreachable-parallel_example :
    check_unreachable
      (cons
        (step
          (bare "both" StepKind.parallel)
          no_if
          no_switch
          (parallel_step (branch (cons stop blink) (branch blink no_branch))))
        nil)
      "flow"
      0
      false
    ≡ []
check_unreachable-parallel_example =
    check_unreachable-parallel (bare "both" StepKind.parallel)
      (branch (cons stop blink) (branch blink no_branch))
