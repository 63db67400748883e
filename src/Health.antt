-- ===== src/Health.antt =====
-- internal/health and internal/watchdog: the registry of component states, the diagnosis of failures
-- along dependencies, and the probe loop that feeds the registry. The lock of the registry makes each
-- call one step; the clock is an argument.
pub mod Sorted
pub mod Overall
pub mod Diagnosis
pub mod Since
pub mod Watchdog
mod Tests
use home_sentinel.Base.{
  ℕ, String, str_eq, Bool, true, false, not, ◌&&◌, ◌||◌, Option, none, some, List, [], ◌∷◌, map,
  if◌then◌else◌, Dict, lookup, insert, text_before,
}

pub data Status : Type 0 where
  unknown starting healthy degraded failed : Status

pub record Component : Type 0 where
  pub name : String
  pub status : Status
  pub since : ℕ
  pub reason_code : String
  pub cause : String

-- The registry's map.
abbrev pub Registry : Type 0
Registry = Dict Component

abbrev pub same_status : Status → Status → Bool
same_status unknown unknown = true
same_status starting starting = true
same_status healthy healthy = true
same_status degraded degraded = true
same_status failed failed = true
same_status _ _ = false

-- Whether `Set` would change nothing but the time.
abbrev pub unchanged : Component → Status → (reason cause : String) → Bool
unchanged c status reason cause =
    same_status c.status status && (str_eq c.reason_code reason && str_eq c.cause cause)

-- The time from which a component is as `Set` says.
abbrev pub since_when : Option Component → (now : ℕ) → Status → (reason cause : String) → ℕ
since_when none now status reason cause = now
since_when (some c) now status reason cause =
    if unchanged c status reason cause then c.since else now

-- `Registry.Set`.
unfoldable pub set :
    (now : ℕ) → (name : String) → Status → (reason cause : String) → Registry → Registry
set now name status reason cause r =
    if str_eq name ""
    then r
    else insert name
        (record {
          name = name;
          status = status;
          since = since_when (lookup name r) now status reason cause;
          reason_code = reason;
          cause = cause;
        })
        r

abbrev pub named_before : Component → Component → Bool
named_before a b = text_before a.name b.name

unfoldable pub sort_in : Component → List Component → List Component
unfolding text_before
sort_in a [] = a ∷ []
sort_in a (b ∷ bs) = let rest = sort_in a bs in if named_before b a then b ∷ rest else a ∷ b ∷ bs

unfoldable pub sort_names : List Component → List Component
unfolding sort_in
sort_names [] = []
sort_names (a ∷ rest) = sort_in a (sort_names rest)

-- `Registry.Snapshot`: the components in the order of their names.
unfoldable pub snapshot : Registry → List Component
unfolding sort_names
snapshot r = sort_names (map (λ e. e.1) r)

-- The `switch` of `Overall`, but for a failed component.
unfoldable pub worse : Status → Status → Status
worse worst degraded = degraded
worse healthy starting = starting
worse healthy unknown = unknown
worse worst _ = worst

-- The loop of `Overall`, from the worst status so far.
unfoldable pub overall_from : Status → List Status → Status
unfolding worse
overall_from worst [] = worst
overall_from worst (failed ∷ rest) = failed
overall_from worst (s ∷ rest) = overall_from (worse worst s) rest

-- `Overall`.
unfoldable pub overall : Registry → Status
unfolding overall_from snapshot
overall r = elim (snapshot r) [
  | [] ↦ unknown
  | c ∷ cs ↦ overall_from healthy (map (λ d. d.status) (c ∷ cs))
]

unfoldable pub is_failing : Status → Bool
is_failing failed = true
is_failing degraded = true
is_failing _ = false

-- The components on which a component depends, by name.
abbrev pub DependencyGraph : Type 0
DependencyGraph = String → List String

-- `Diagnosis` of the source.
pub record Finding : Type 0 where
  pub component : Component
  pub root_cause : Bool
  pub suppressed_by : Option String

abbrev pub is_failing_component : Option Component → Bool
is_failing_component none = false
is_failing_component (some c) = is_failing c.status

-- The loop over the dependencies of a failing component; a dependency has a name that is not empty.
unfoldable pub suppressor : Registry → List String → Option String
suppressor r [] = none
suppressor r (dep ∷ deps) =
    let rest = suppressor r deps in if is_failing_component (lookup dep r) then some dep else rest

abbrev is_none {ℓ} : {A : Type ℓ} → Option A → Bool
is_none none = true
is_none (some _) = false

unfoldable pub diagnose_one : Registry → DependencyGraph → Component → Finding
unfolding suppressor is_failing
diagnose_one r graph c =
    if is_failing c.status
    then record {
      component = c;
      root_cause = is_none (suppressor r (graph c.name));
      suppressed_by = suppressor r (graph c.name);
    }
    else record { component = c; root_cause = false; suppressed_by = none }

-- `Diagnose`.
unfoldable pub diagnose : Registry → DependencyGraph → List Finding
unfolding diagnose_one snapshot
diagnose r graph = map (diagnose_one r graph) (snapshot r)
