-- ===== src/Correlation/Tests.antt =====
-- Runs of the correlator on observations of one room.
use home_sentinel.Base.{
  ℕ, ◌≡◌, ◌≢◌, refl, String, ◌<>◌, true, some, [], ◌∷◌, lookup, insert, is_blank, arith, has_prefix,
}
use home_sentinel.Correlation.{
  Observation, valid, new_group, duplicate, Config, Result, Candidate, Correlator, new, ingest,
}
use home_sentinel.Correlation.Dedup.{SeenInv, IsDuplicate, ingest_all, ingest_once}
use home_sentinel.Correlation.Groups.{GroupsInv, ingest-GroupsInv}

-- A name for a group, in place of the hash.
abbrev group_name : String → String → String
group_name subject first = subject <> ("/" <> first)

abbrev config : Config
config = record {
  window = 15;
  max_lateness = 5;
  max_events_per_group = 2;
  max_seen_events = 3;
  max_artifacts = 1;
}

abbrev empty : Correlator
empty = record { config = config; groups = []; seen = []; seen_order = [] }

abbrev seen_at : String → ℕ → Observation
seen_at id t = record {
  event_id = id;
  subject_key = "hall";
  source_id = "cam";
  kind = "motion";
  occurred_at = t;
  received_at = t;
  sound = true;
}

new_run : new config ≡ some empty
unfolding new
new_run = refl

abbrev first_candidate : Candidate
first_candidate = record {
  correlation_id = "hall/a";
  subject_key = "hall";
  event_ids = "a" ∷ [];
  source_count = 1;
  event_count = 1;
  source_id = "cam";
  kind = "motion";
  occurred_at = 100;
}

abbrev first_result : Result
first_result = record { status = new_group; candidate = some first_candidate }

first_run : (ingest group_name empty (seen_at "a" 100)).1 ≡ some first_result
unfolding ingest is_blank lookup insert has_prefix
first_run = refl

empty-SeenInv : SeenInv group_name empty
empty-SeenInv = record { bounded = omega arith; known = record { unique = tt; kept = tt } }

new_ne_duplicate : new_group ≢ duplicate
new_ne_duplicate h = cc

valid_run : valid (seen_at "a" 107) ≡ true
unfolding valid is_blank
valid_run = refl

ingest_once_example :
    IsDuplicate group_name
      (ingest_all group_name
        (ingest group_name empty (seen_at "a" 100)).0
        (seen_at "b" 101 ∷ seen_at "c" 140 ∷ []))
      (seen_at "a" 107)
ingest_once_example =
    ingest_once group_name empty (seen_at "a" 100) (seen_at "a" 107)
      (seen_at "b" 101 ∷ seen_at "c" 140 ∷ []) first_result empty-SeenInv first_run new_ne_duplicate
      (omega arith) valid_run refl

empty-GroupsInv : GroupsInv empty
unfolding lookup
empty-GroupsInv s g h = absurd (ground (arith, h))

ingest-GroupsInv_example : GroupsInv (ingest group_name empty (seen_at "a" 100)).0
ingest-GroupsInv_example =
    ingest-GroupsInv group_name empty (seen_at "a" 100) (omega arith) empty-GroupsInv
