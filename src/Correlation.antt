-- ===== src/Correlation.antt =====
-- internal/correlation/correlator.go: grouping of observations by subject, with deduplication by event
-- ID. An instant is a count of nanoseconds from the zero time. Confidence, context and artifacts, which
-- are floats and records that a candidate only aggregates, enter by the verdict of their checks. The
-- hash that names a group is a parameter. The mutex makes each call one step.
pub mod Seen
pub mod Dedup
pub mod Groups
mod Tests
use Prim.Native.Nat.{Ordering}
use Prim.Native.String.{compare}
use home_sentinel.Base.{
  ℕ, suc, ◌+◌, ◌-◌, max, String, str_eq, codes, to_lower, contains, is_blank, Bool, true, false,
  not, ◌&&◌, ◌||◌, Option, none, some, List, [], ◌∷◌, ◌++◌, map, length, drop, any, ltb, ◌==◌,
  if◌then◌else◌, Dict, lookup, insert, erase,
}

-- domain/observation/observation.go. `sound` is the verdict on confidence, context and artifacts.
pub record Observation : Type 0 where
  pub event_id : String
  pub subject_key : String
  pub source_id : String
  pub kind : String
  pub occurred_at : ℕ
  pub received_at : ℕ
  pub sound : Bool

-- `Observation.Validate`, true for a nil error.
unfoldable pub valid : Observation → Bool
valid o =
    not (is_blank o.event_id)
    && (not (is_blank o.subject_key)
        && (not (is_blank o.source_id || is_blank o.kind)
            && (not (o.occurred_at == 0 || o.received_at == 0) && o.sound)))

pub data Status : Type 0 where
  new_group updated duplicate late : Status

pub record Config : Type 0 where
  pub window : ℕ
  pub max_lateness : ℕ
  pub max_events_per_group : ℕ
  pub max_seen_events : ℕ
  pub max_artifacts : ℕ

-- The part of a candidate that is not a float or an aggregate of the context.
pub record Candidate : Type 0 where
  pub correlation_id : String
  pub subject_key : String
  pub event_ids : List String
  pub source_count : ℕ
  pub event_count : ℕ
  pub source_id : String
  pub kind : String
  pub occurred_at : ℕ

-- `none` is the zero candidate.
pub record Result : Type 0 where
  pub status : Status
  pub candidate : Option Candidate

pub record Group : Type 0 where
  pub id : String
  pub subject_key : String
  pub max_occurred : ℕ
  pub events : List Observation

pub record Correlator : Type 0 where
  pub config : Config
  pub groups : Dict Group
  pub seen : Dict String
  pub seen_order : List String

-- `New`; what a negative duration or capacity would give is not representable.
unfoldable pub new : Config → Option Correlator
new c =
    if c.window == 0
    then none
    else if ltb c.window c.max_lateness
    then none
    else if c.max_events_per_group == 0 || (c.max_seen_events == 0 || c.max_artifacts == 0)
    then none
    else some (record { config = c; groups = []; seen = []; seen_order = [] })

-- The loop of `remember`.
unfoldable pub evict : ℕ → Dict String → List String → Dict String × List String
evict max seen [] = (seen, [])
evict max seen (oldest ∷ order) =
    if ltb max (length (oldest ∷ order))
    then evict max (erase oldest seen) order
    else (seen, oldest ∷ order)

unfoldable pub note :
    ℕ → (event_id correlation_id : String) → Dict String → List String → Dict String × List String
unfolding evict
note max event_id correlation_id seen order = elim (lookup event_id seen) [
  | some _ ↦ (seen, order)
  | none ↦ evict max (insert event_id correlation_id seen) (order ++ event_id ∷ [])
]

-- `remember`.
unfoldable pub remember : Correlator → (event_id correlation_id : String) → Correlator
unfolding note
remember c event_id correlation_id =
    let (seen, order) = note c.config.max_seen_events event_id correlation_id c.seen c.seen_order in
    record c { seen = seen; seen_order = order }

-- The order of `sort.SliceStable`: by time, then by event ID.
unfoldable pub earlier : Observation → Observation → Bool
earlier a b =
    if a.occurred_at == b.occurred_at
    then elim (compare a.event_id b.event_id) [ Ordering.lt ↦ true | _ ↦ false ]
    else ltb a.occurred_at b.occurred_at

unfoldable pub sort_in : Observation → List Observation → List Observation
unfolding earlier
sort_in a [] = a ∷ []
sort_in a (b ∷ bs) = let rest = sort_in a bs in if earlier b a then b ∷ rest else a ∷ b ∷ bs

unfoldable pub sort_events : List Observation → List Observation
unfolding sort_in
sort_events [] = []
sort_events (a ∷ rest) = sort_in a (sort_events rest)

-- The newest events, as many as a group keeps.
unfoldable pub keep_newest : ℕ → List Observation → List Observation
keep_newest n events = drop (length events - n) events

-- The keys of the map `sources`.
unfoldable pub sources : List Observation → List String
sources [] = []
sources (e ∷ es) =
    let rest = sources es in
    if any (λ s. str_eq s e.source_id) rest then rest else e.source_id ∷ rest

abbrev last_of : Observation → List Observation → Observation
last_of e [] = e
last_of e (f ∷ fs) = last_of f fs

unfoldable pub is_person : Observation → Bool
unfolding contains to_lower
is_person e = contains (to_lower (codes e.kind)) (codes "person")

-- `buildCandidate` of a group with events.
unfoldable pub build : Group → Observation → List Observation → Candidate
unfolding sources is_person
build g first rest =
    let latest = last_of first rest in
    record {
      correlation_id = g.id;
      subject_key = g.subject_key;
      event_ids = map (λ e. e.event_id) (first ∷ rest);
      source_count = length (sources (first ∷ rest));
      event_count = length (first ∷ rest);
      source_id = latest.source_id;
      kind = if any is_person (first ∷ rest) then "correlated.person.activity.v1" else latest.kind;
      occurred_at = first.occurred_at;
    }

unfoldable pub build_candidate : Group → List Observation → Option Candidate
unfolding build
build_candidate g [] = none
build_candidate g (e ∷ es) = some (build g e es)

abbrev pub candidate : Group → Option Candidate
candidate g = build_candidate g g.events

abbrev pub is_late : Config → Group → Observation → Bool
is_late c g o = not (g.max_occurred == 0) && ltb (o.occurred_at + c.max_lateness) g.max_occurred

-- What a duplicate answers: the subject's group, if the event went there.
abbrev pub repeated : String → Option Group → Option Candidate
repeated id none = none
repeated id (some g) = if str_eq g.id id then candidate g else none

module _ (correlation_id : String → String → String) where
  -- The end of `Ingest`, for the group that the observation joins.
  unfoldable pub join : Correlator → Observation → Group → Status → Correlator × Option Result
  unfolding keep_newest sort_events remember build_candidate
  join c o g status =
      let g' = record g {
        events = keep_newest c.config.max_events_per_group (sort_events (g.events ++ o ∷ []));
        max_occurred = max g.max_occurred o.occurred_at;
      } in
      (
        remember (record c { groups = insert o.subject_key g' c.groups }) o.event_id g.id,
        some (record { status = status; candidate = candidate g' }),
      )

  abbrev pub fresh_group : Observation → Group
  fresh_group o = record {
    id = correlation_id o.subject_key o.event_id;
    subject_key = o.subject_key;
    max_occurred = o.occurred_at;
    events = [];
  }

  -- `Ingest` from the lookup of the subject's group on.
  unfoldable pub place : Correlator → Observation → Option Group → Correlator × Option Result
  unfolding join
  place c o none = join c o (fresh_group o) new_group
  place c o (some g) =
      if is_late c.config g o
      then (remember c o.event_id g.id, some (record { status = late; candidate = candidate g }))
      else if ltb (g.max_occurred + c.config.window) o.occurred_at
      then join c o (fresh_group o) new_group
      else join c o g updated

  -- `Ingest`; no result is an invalid observation.
  unfoldable pub ingest : Correlator → Observation → Correlator × Option Result
  unfolding place valid
  ingest c o = if not (valid o) then (c, none) else elim (lookup o.event_id c.seen) [
    | some id ↦ (
      c,
      some (record { status = duplicate; candidate = repeated id (lookup o.subject_key c.groups) }),
    )
    | none ↦ place c o (lookup o.subject_key c.groups)
  ]

-- The loop of `Prune` over the groups, with the count of those it drops.
unfoldable pub prune_groups : ℕ → Dict Group → Dict Group × ℕ
prune_groups before [] = ([], 0)
prune_groups before ((subject, g) ∷ groups) =
    let (kept, removed) = prune_groups before groups in
    if ltb g.max_occurred before then (kept, suc removed) else ((subject, g) ∷ kept, removed)

unfoldable pub prune : Correlator → ℕ → Correlator × ℕ
unfolding prune_groups
prune c before =
    let (groups, removed) = prune_groups before c.groups in (record c { groups = groups }, removed)
