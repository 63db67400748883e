-- ===== src/Orchestration/ResourceGuard/Tests.antt =====
-- Runs of the guard in front of a store with a door and a siren.
use home_sentinel.Base.{
  ◌≡◌, ◌↔◌, refl, String, Option, some, List, [], ◌∷◌, All, Dict, lookup, insert, is_blank,
}
use home_sentinel.Orchestration.ResourceGuard.{ExecutionStatus, Execution, free, busy, weigh, check}
use home_sentinel.Orchestration.ResourceGuard.Admission.{Asked, Clear, check_iff}
use home_sentinel.Orchestration.ResourceGuard.Exclusive.{
  store_of, Step, Run, Exclusive, Run-Exclusive,
}

-- A state that decodes to itself.
abbrev read : Execution → Option String
read e = some e.state

abbrev front : Execution
front = record { plan_id = "door"; status = ExecutionStatus.live "running"; state = "front" }

abbrev back : Execution
back = record { plan_id = "door"; status = ExecutionStatus.live "waiting"; state = "back" }

abbrev one : Dict Execution
one = ("e1", front) ∷ []

free_run : check (store_of one) "door" "e2" "back" read ≡ free
unfolding check weigh lookup is_blank
free_run = refl

busy_run : check (store_of one) "door" "e2" "front" read ≡ busy "e1"
unfolding check weigh lookup is_blank
busy_run = refl

empty_run : check (store_of []) "door" "e1" "front" read ≡ free
unfolding check weigh lookup is_blank
empty_run = refl

check_iff_example : (check (store_of one) "door" "e2" "back" read ≡ free) ↔ (
    (ids : List String) × (Asked (store_of one) "door" "e2" "back" read ids
      × All (Clear (store_of one) "door" "e2" "back" read) ids))
check_iff_example = check_iff (store_of one) "door" "e2" "back" read

two_doors : Run "door" read [] (insert "e2" back (insert "e1" front []))
unfolding lookup insert
two_doors =
    Run.next (Run.next Run.start (Step.admit "e1" "front" front empty_run refl refl))
      (Step.admit "e2" "back" back free_run refl refl)

Run-Exclusive_example : Exclusive "door" read (insert "e2" back (insert "e1" front []))
Run-Exclusive_example = Run-Exclusive "door" read two_doors
