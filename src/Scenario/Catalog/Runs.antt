-- ===== src/Scenario/Catalog/Runs.antt =====
-- Calls of the catalog in any order: internal/scenario/catalog/catalog.go as a state machine.
use home_sentinel.Base.{ℕ, String, Bool, Option, List, [], ◌∷◌}
use home_sentinel.Scenario.Catalog.{Scenario, SimulationSummary, ScenarioStatus, Catalog}
use home_sentinel.Scenario.Catalog.Dependency.{Manifest}
use home_sentinel.Scenario.Catalog.Operations.{
  Reply, failed, done, create_draft, update_draft, validate_draft, record_simulation,
}
use home_sentinel.Scenario.Catalog.Releases.{publish_draft, rollback, set_status}

-- A call with its arguments, what the clock gives and, where it compiles, the compiler.
pub data Call (B : Type 0) : Type 0 where
  create : ℕ → Scenario B → String → Call B
  update : ℕ → (id rev tag : String) → Scenario B → String → Call B
  validate : (Scenario B → Option Manifest) → (id rev : String) → Call B
  simulate : (id rev : String) → SimulationSummary → Call B
  publish : (Scenario B → Option Manifest) → ℕ → (id rev author reason : String) → Call B
  roll_back : ℕ → (id : String) → ℕ → (author reason : String) → Call B
  set : ℕ → (id : String) → ScenarioStatus → (author reason : String) → Call B

-- The catalog after a call.
abbrev pub after : {A B : Type 0} → Catalog B → Reply B A → Catalog B
after c (failed e) = c
after c (done c' x) = c'

module _ {B : Type 0} (valid : Scenario B → Bool) (digest : String → String) where
  unfoldable pub step : Call B → Catalog B → Catalog B
  step (create now s author) c = after c (create_draft valid digest now s author c)
  step (update now id rev tag s author) c =
      after c (update_draft valid digest now id rev tag s author c)
  step (validate compile id rev) c = after c (validate_draft valid digest compile id rev c)
  step (simulate id rev sum) c = after c (record_simulation valid digest id rev sum c)
  step (publish compile now id rev author reason) c =
      after c (publish_draft valid digest compile now id rev author reason c)
  step (roll_back now id target author reason) c =
      after c (rollback valid digest now id target author reason c)
  step (set now id status author reason) c =
      after c (set_status valid digest now id status author reason c)

  unfoldable pub run : List (Call B) → Catalog B → Catalog B
  unfolding step
  run [] c = c
  run (call ∷ calls) c = run calls (step call c)
