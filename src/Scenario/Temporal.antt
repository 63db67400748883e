-- ===== src/Scenario/Temporal.antt =====
-- internal/scenario/compiler/temporal.go: `AnalyzeTemporal`, with the types of model/temporal.go that
-- it reads.
use home_sentinel.Base.{
  ℕ, String, ◌<>◌, show, Bool, true, false, Option, none, some, List, [], ◌∷◌, ◌++◌, ltb, ◌==◌,
  if◌then◌else◌, ℤ, pos, is_pos, pos_part,
}
use home_sentinel.Scenario.Model.{
  WaitStep, HumanApprovalStep, Head, Flow, nil, cons, Step, step, IfStep, no_if, if_step, OptFlow,
  no_flow, flow, SwitchStep, no_switch, switch_step, Cases, no_case, case, ParallelStep,
  no_parallel, parallel_step, Branches, no_branch, branch,
}

-- A time of day; a negative part is not representable.
pub record TimeOfDay : Type 0 where
  pub hour : ℕ
  pub minute : ℕ
  pub second : ℕ

abbrev two_digits : ℕ → String
two_digits n = if ltb n 10 then "0" <> show n else show n

-- `TimeOfDay.String`.
unfoldable pub time_text : TimeOfDay → String
time_text t =
    let front = two_digits t.hour <> (":" <> two_digits t.minute) in
    if t.second == 0 then front else front <> (":" <> two_digits t.second)

-- The kinds that the analysis tells apart.
pub data TemporalKind : Type 0 where
  debounce throttle repeat_within schedule_window until : TemporalKind
  other : String → TemporalKind

pub record TemporalSpec : Type 0 where
  pub kind : TemporalKind
  pub duration : ℤ
  pub start : Option TimeOfDay
  pub end : Option TimeOfDay
  pub timezone : String

-- `scheduled` says that the kind is a schedule.
pub record Trigger : Type 0 where
  pub scheduled : Bool
  pub capability_id : String
  pub temporal : List TemporalSpec

pub data RequirementKind : Type 0 where
  schedule debounce throttle repeat_within schedule_window until wait approval_timeout :
      RequirementKind

pub record Requirement : Type 0 where
  pub kind : RequirementKind
  pub spec : String
  pub duration : ℤ
  pub timezone : String
  pub durable : Bool

abbrev five_seconds : ℕ
five_seconds = 5_000_000_000

abbrev longer : ℤ → Bool
longer d = ltb five_seconds (pos_part d)

abbrev timed : RequirementKind → ℤ → Bool → Requirement
timed kind d durable = record {
  kind = kind;
  spec = "";
  duration = d;
  timezone = "";
  durable = durable;
}

abbrev window : Option TimeOfDay → Option TimeOfDay → String
window (some s) (some e) = time_text s <> ("-" <> time_text e)
window _ _ = ""

-- The `switch` on the kind of a specification.
unfoldable pub spec_requirements : TemporalSpec → List Requirement
unfolding time_text
spec_requirements t = elim t.kind [
  | TemporalKind.debounce ↦ timed RequirementKind.debounce t.duration (longer t.duration) ∷ []
  | TemporalKind.throttle ↦ timed RequirementKind.throttle t.duration (longer t.duration) ∷ []
  | TemporalKind.repeat_within ↦ timed RequirementKind.repeat_within t.duration true ∷ []
  | TemporalKind.schedule_window ↦
      record {
        kind = RequirementKind.schedule_window;
        spec = window t.start t.end;
        duration = pos 0;
        timezone = t.timezone;
        durable = false;
      }
      ∷ []
  | TemporalKind.until ↦ timed RequirementKind.until (pos 0) true ∷ []
  | TemporalKind.other _ ↦ []
]

unfoldable pub specs_requirements : List TemporalSpec → List Requirement
unfolding spec_requirements
specs_requirements [] = []
specs_requirements (t ∷ ts) = spec_requirements t ++ specs_requirements ts

-- The loop over the triggers.
unfoldable pub trigger_requirements : List Trigger → List Requirement
unfolding specs_requirements
trigger_requirements [] = []
trigger_requirements (t ∷ ts) =
    (if t.scheduled
      then record {
        kind = RequirementKind.schedule;
        spec = t.capability_id;
        duration = pos 0;
        timezone = "";
        durable = true;
      }
        ∷ []
      else [])
    ++ (specs_requirements t.temporal ++ trigger_requirements ts)

abbrev pub wait_requirements : Option WaitStep → List Requirement
wait_requirements none = []
wait_requirements (some w) = timed RequirementKind.wait w.duration true ∷ []

abbrev pub approval_requirements : Option HumanApprovalStep → List Requirement
approval_requirements none = []
approval_requirements (some a) =
    if is_pos a.timeout then timed RequirementKind.approval_timeout a.timeout true ∷ [] else []

-- What a step asks for itself.
abbrev pub own_requirements : Head → List Requirement
own_requirements h = wait_requirements h.wait ++ approval_requirements h.human_approval

-- `scanFlow`.
unfoldable mutual
  pub scan_flow : Flow → List Requirement
  scan_flow nil = []
  scan_flow (cons st rest) = scan_step st ++ scan_flow rest

  pub scan_step : Step → List Requirement
  scan_step (step h f sw p) =
      own_requirements h ++ (scan_if f ++ (scan_switch sw ++ scan_parallel p))

  pub scan_if : IfStep → List Requirement
  scan_if no_if = []
  scan_if (if_step c t e) = scan_flow t ++ scan_opt e

  pub scan_opt : OptFlow → List Requirement
  scan_opt no_flow = []
  scan_opt (flow f) = scan_flow f

  pub scan_switch : SwitchStep → List Requirement
  scan_switch no_switch = []
  scan_switch (switch_step cs d) = scan_cases cs ++ scan_opt d

  pub scan_cases : Cases → List Requirement
  scan_cases no_case = []
  scan_cases (case w f cs) = scan_flow f ++ scan_cases cs

  pub scan_parallel : ParallelStep → List Requirement
  scan_parallel no_parallel = []
  scan_parallel (parallel_step bs) = scan_branches bs

  pub scan_branches : Branches → List Requirement
  scan_branches no_branch = []
  scan_branches (branch f bs) = scan_flow f ++ scan_branches bs

-- `AnalyzeTemporal`.
unfoldable pub analyze_temporal : List Trigger → Flow → List Requirement
unfolding trigger_requirements scan_flow
analyze_temporal triggers f = trigger_requirements triggers ++ scan_flow f
