-- ===== src/Scenario/Safety/Tests.antt =====
-- Runs of the safety pass on small flows.
use home_sentinel.Base.{
  ◌≡◌, refl, String, true, none, some, [], ◌∷◌, map, All, Dict, lookup, to_lower, contains,
  has_prefix, arith, eq_iff,
}
use home_sentinel.Scenario.Model.{
  StepKind, critical, Expr, expr, no_args, ActionStep, Head, Flow, nil, cons, Step, step, no_if,
  if_step, no_flow, SwitchStep, no_switch, switch_step, no_case, case, no_parallel, parallel_step,
  Branches, no_branch, branch,
}
use home_sentinel.Scenario.Safety.{
  Descriptor, no_verification, no_idempotency, no_compensation, GraphNode, is_unlock, is_siren,
  add_node, add_nodes, point_last,
}
use home_sentinel.Scenario.Safety.Walk.{apply_safety_pass}
use home_sentinel.Scenario.Safety.Effects.{Guarded, effects-Guarded}
use home_sentinel.Scenario.Safety.Gaps.{emptied, apply_safety_pass-emptied}

abbrev bare : String → StepKind → Head
bare id kind = record {
  id = id;
  kind = kind;
  action = none;
  wait = none;
  join = none;
  human_approval = none;
  subflow = none;
  stop = none;
}

abbrev acts : String → String → Step
acts id cap =
    step
      (record (bare id StepKind.action) {
        action = some (record {
          capability = record {
            id = cap;
            version = "1.0.0";
            entity = some (record { id = "front"; kind = "door" });
          };
          arguments = [];
          retry = none;
        });
      })
      no_if no_switch no_parallel

abbrev always : Expr
always = expr "ref" "state.armed" none no_args

-- An unlock behind an `if`.
abbrev guarded : Flow
guarded =
    cons
      (step (bare "check" StepKind.if_kind)
        (if_step always (cons (acts "open" "lock.unlock") nil) no_flow) no_switch no_parallel)
      (cons (acts "alarm" "siren.sound") nil)

-- A descriptor of critical risk, whose ID has none of the words.
abbrev valve : Descriptor
valve = record {
  id = "valve.release";
  risk = critical;
  permission = "valve:write";
  external_effect = true;
  idempotency = no_idempotency;
  verification = no_verification;
  compensation = no_compensation;
}

abbrev registry : Dict Descriptor
registry = ("valve.release", valve) ∷ []

registry-IsKeyed : (id : String) (d : Descriptor) → lookup id registry ≡ some d → d.id ≡ id
unfolding lookup
registry-IsKeyed id d h = ground (arith, eq_iff "valve.release" id)

effects-Guarded_example : All (Guarded registry) (apply_safety_pass registry guarded).effects
effects-Guarded_example = effects-Guarded registry registry-IsKeyed guarded

abbrev both_ways : Branches
both_ways =
    branch (cons (acts "open" "lock.unlock") nil)
      (branch (cons (acts "alarm" "siren.sound") nil) no_branch)

abbrev forked : Flow
forked = cons (step (bare "both" StepKind.parallel) no_if no_switch (parallel_step both_ways)) nil

apply_safety_pass-emptied_example :
    apply_safety_pass [] forked ≡ apply_safety_pass [] (emptied forked)
apply_safety_pass-emptied_example = apply_safety_pass-emptied [] forked

abbrev choice : SwitchStep
choice = switch_step (case always (cons (acts "open" "lock.unlock") nil) no_case) no_flow

abbrev release : ActionStep
release = record {
  capability = record { id = "valve.release"; version = "1.0.0"; entity = none };
  arguments = [];
  retry = none;
}

abbrev release_head : Head
release_head = record (bare "release" StepKind.action) { action = some release }

guarded_run :
    map (λ (n : GraphNode). n.id) (apply_safety_pass [] guarded).system_nodes
    ≡ "entry" ∷ "check" ∷ "system_safety_approval_open" ∷ "system_safety_lock_open"
      ∷ "system_safety_read_open" ∷ "system_action_open" ∷ "system_safety_verify_open"
      ∷ "system_safety_duration_alarm" ∷ "system_action_alarm" ∷ "system_safety_comp_alarm" ∷ []
unfolding apply_safety_pass is_unlock is_siren contains has_prefix to_lower lookup add_node
    add_nodes point_last
guarded_run = refl
