-- ===== src/Scenario/Catalog.antt =====
-- internal/scenario/catalog/model.go: revisions and records of scenarios. `B` is the part of a scenario
-- that the catalog only stores. A time is a count of nanoseconds.
pub mod Dependency
pub mod Operations
pub mod Releases
pub mod Uses
pub mod Runs
pub mod Published
pub mod Frozen
pub mod Graph
pub mod Current
pub mod Reopened
mod Tests
use home_sentinel.Base.{
  ℕ, String, str_eq, Bool, true, false, ◌&&◌, Option, none, some, List, [], ◌∷◌, ◌==◌,
  if◌then◌else◌, Dict,
}
use home_sentinel.Scenario.Catalog.Dependency.{Manifest, DependencyGraph}

pub data Error : Type 0 where
  invalid not_found conflict immutable not_validated no_id no_active : Error

pub data RevisionState : Type 0 where
  draft validated simulated reviewed published : RevisionState

pub data ScenarioStatus : Type 0 where
  active disabled archived : ScenarioStatus

pub record Scenario (B : Type 0) : Type 0 where
  pub id : String
  pub revision_id : String
  pub name : String
  pub description : String
  pub body : B

pub record AuditEntry : Type 0 where
  pub timestamp : ℕ
  pub actor : String
  pub action : String
  pub reason : String
  pub revision_id : String
  pub version : ℕ

pub record SimulationSummary : Type 0 where
  pub simulated_at : ℕ
  pub passed : Bool
  pub trace_steps : ℕ
  pub summary : String

pub record Revision (B : Type 0) : Type 0 where
  pub scenario_id : String
  pub revision_id : String
  pub version : ℕ
  pub state : RevisionState
  pub e_tag : String
  pub author : String
  pub created_at : ℕ
  pub updated_at : ℕ
  pub published_at : Option ℕ
  pub published_by : String
  pub publish_reason : String
  pub scenario : Scenario B
  pub manifest : Option Manifest
  pub simulation : Option SimulationSummary

pub record ScenarioRecord (B : Type 0) : Type 0 where
  pub id : String
  pub name : String
  pub description : String
  pub status : ScenarioStatus
  pub active_revision_id : String
  pub active_version : ℕ
  pub draft_revision_id : String
  pub created_at : ℕ
  pub updated_at : ℕ
  pub revisions : List (Revision B)
  pub audit_log : List AuditEntry

-- `Catalog` of catalog.go, without its lock, its compiler and its clock.
pub record Catalog (B : Type 0) : Type 0 where
  pub records : Dict (ScenarioRecord B)
  pub deps : DependencyGraph

abbrev pub is_published : RevisionState → Bool
is_published published = true
is_published _ = false

module _ {B : Type 0} where
  -- `ScenarioRecord.GetRevision`.
  unfoldable pub get_revision : String → List (Revision B) → Option (Revision B)
  get_revision id [] = none
  get_revision id (v ∷ vs) = if str_eq v.revision_id id then some v else get_revision id vs

  -- `ScenarioRecord.GetVersion`.
  unfoldable pub get_version : ℕ → List (Revision B) → Option (Revision B)
  get_version n [] = none
  get_version n (v ∷ vs) =
      if v.version == n && is_published v.state then some v else get_version n vs

  -- A write through the pointer that `GetRevision` returns.
  unfoldable pub write : String → Revision B → List (Revision B) → List (Revision B)
  write id w [] = []
  write id w (v ∷ vs) =
      let rest = write id w vs in if str_eq v.revision_id id then w ∷ vs else v ∷ rest
