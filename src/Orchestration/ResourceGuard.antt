-- ===== src/Orchestration/ResourceGuard.antt =====
-- internal/orchestration/resourceguard/guard.go: the admission test for an execution that is to own
-- a physical resource. The durable store and its executions belong to a third-party engine: a store
-- is what its two operations answer, and an execution has the fields that the guard reads.
pub mod Admission
pub mod Exclusive
mod Tests
use home_sentinel.Base.{
  String, str_eq, is_blank, Bool, true, false, not, ◌||◌, Option, none, some, List, [], ◌∷◌,
  if◌then◌else◌,
}

pub data ExecutionStatus : Type 0 where
  completed failed canceled deadlocked : ExecutionStatus
  live : String → ExecutionStatus

-- `state` is what a resolver decodes.
pub record Execution : Type 0 where
  pub plan_id : String
  pub status : ExecutionStatus
  pub state : String

pub data Loaded : Type 0 where
  found : Execution → Loaded
  missing broken : Loaded

-- `list_ids` is `none` where listing fails.
pub record Store : Type 0 where
  pub has_catalog : Bool
  pub list_ids : Option (List String)
  pub load : String → Loaded

pub data Verdict : Type 0 where
  free arguments_required catalog_unsupported list_failed : Verdict
  busy load_failed resolve_failed : String → Verdict

unfoldable pub terminal : ExecutionStatus → Bool
terminal completed = true
terminal failed = true
terminal canceled = true
terminal deadlocked = true
terminal (live _) = false

module _ (store : Store) (plan_id candidate resource : String)
    (resolve : Execution → Option String) where
  -- The end of the loop's body, with the verdict on the executions that follow.
  abbrev pub against : String → Option String → Verdict → Verdict
  against id none rest = resolve_failed id
  against id (some owned) rest = if str_eq owned resource then busy id else rest

  -- The loop's body after `Load`.
  unfoldable pub weigh : String → Loaded → Verdict → Verdict
  unfolding terminal
  weigh id missing rest = rest
  weigh id broken rest = load_failed id
  weigh id (found e) rest =
      if not (str_eq e.plan_id plan_id) || terminal e.status
      then rest
      else against id (resolve e) rest

  unfoldable pub scan : List String → Verdict
  unfolding weigh
  scan [] = free
  scan (id ∷ ids) =
      let rest = scan ids in if str_eq id candidate then rest else weigh id (store.load id) rest

  -- `Check`; `free` is a nil error.
  unfoldable pub check : Verdict
  unfolding scan
  check =
      if is_blank plan_id || (is_blank candidate || is_blank resource)
      then arguments_required
      else if not store.has_catalog
      then catalog_unsupported
      else elim store.list_ids [ none ↦ list_failed | some ids ↦ scan ids ]
