-- ===== src/Correlation/Groups.antt =====
-- What each group keeps, and that an observation touches the group of its own subject alone.
use home_sentinel.Base.{
  ℕ, zero, suc, ◌+◌, ◌-◌, max, ◌≤◌, ◌<◌, ◌≡◌, refl, subst, String, str_eq, eq_iff, false, not,
  Option, none, some, List, [], ◌∷◌, ◌++◌, ltb, length, length-append, drop, All, All-append,
  lookup, lookup-insert, arith, Bool-cases, Option-cases, inl, inr,
}
use home_sentinel.Correlation.{
  Observation, valid, Status, new_group, updated, Config, Group, Correlator, earlier, sort_in,
  sort_events, keep_newest, remember, is_late, join, fresh_group, place, ingest,
}

length-sort_in : (a : Observation) (bs : List Observation) → length (sort_in a bs) ≡ suc (length bs)
unfolding sort_in
length-sort_in a [] = refl
length-sort_in a (b ∷ bs) = ground (arith, length-sort_in a bs)

length-sort_events : (es : List Observation) → length (sort_events es) ≡ length es
unfolding sort_events
length-sort_events [] = refl
length-sort_events (e ∷ es) =
    omega (arith, length-sort_in e (sort_events es), length-sort_events es)

length-drop : (n : ℕ) (es : List Observation) → length (drop n es) ≡ length es - n
length-drop zero es = omega arith
length-drop (suc n) [] = omega arith
length-drop (suc n) (e ∷ es) = omega (arith, length-drop n es)

module _ (P : Observation → Type 0) where
  All-sort_in : (a : Observation) (bs : List Observation) → P a → All P bs → All P (sort_in a bs)
  unfolding sort_in
  All-sort_in a [] p all = (p, tt)
  All-sort_in a (b ∷ bs) p all = elim (Bool-cases (earlier b a)) [
    | inl before ↦ rw (sort_in, before) (all.0, All-sort_in a bs p all.1)
    | inr not_before ↦ rw (sort_in, not_before) (p, all)
  ]

  All-sort_events : (es : List Observation) → All P es → All P (sort_events es)
  unfolding sort_events
  All-sort_events [] all = tt
  All-sort_events (e ∷ es) all = All-sort_in e (sort_events es) all.0 (All-sort_events es all.1)

  All-drop : (n : ℕ) (es : List Observation) → All P es → All P (drop n es)
  All-drop zero es all = all
  All-drop (suc n) [] all = tt
  All-drop (suc n) (e ∷ es) all = All-drop n es all.1

All-map :
    (P Q : Observation → Type 0) (es : List Observation)
    → ((e : Observation) → P e → Q e)
    → All P es
    → All Q es
All-map P Q [] f all = tt
All-map P Q (e ∷ es) f all = (f e all.0, All-map P Q es f all.1)

-- An event of the subject `s`, not after `t`.
abbrev pub Belongs : String → ℕ → Observation → Type 0
Belongs s t e = (e.subject_key ≡ s) × (e.occurred_at ≤ t)

-- The group of the subject `s`, which may have no events yet.
pub record Fits (c : Config) (s : String) (g : Group) : Type 0 where
  pub subject : g.subject_key ≡ s
  pub bounded : length g.events ≤ c.max_events_per_group
  pub belongs : All (Belongs s g.max_occurred) g.events

-- Each stored group fits, and has an event.
abbrev pub GroupsInv : Correlator → Type 0
GroupsInv c =
    (s : String) (g : Group)
    → lookup s c.groups ≡ some g
    → Fits c.config s g × (0 < length g.events)

-- The group after an observation joined it.
abbrev joined : Config → Observation → Group → Group
joined c o g = record g {
  events = keep_newest c.max_events_per_group (sort_events (g.events ++ o ∷ []));
  max_occurred = max g.max_occurred o.occurred_at;
}

joined-Fits :
    (c : Config) (o : Observation) (g : Group)
    → 0 < c.max_events_per_group
    → Fits c o.subject_key g
    → Fits c o.subject_key (joined c o g) × (0 < length (joined c o g).events)
unfolding keep_newest
joined-Fits c o g room f =
    let all = sort_events (g.events ++ o ∷ []) in
    let n = length all - c.max_events_per_group in
    let size : length all ≡ suc (length g.events) =
      omega (arith, length-sort_events (g.events ++ o ∷ []), length-append g.events (o ∷ [])) in
    (
      record {
        subject = f.subject;
        bounded = omega (arith, length-drop n all);
        belongs = All-drop _ n all (
            All-sort_events _ (g.events ++ o ∷ []) (
              All-append _ g.events (o ∷ [])
                (All-map _ _ g.events (λ e b. (b.0, omega (arith, b.1))) f.belongs)
                ((refl, omega arith), tt)));
      },
      omega (arith, length-drop n all, size, room),
    )

module _ (correlation_id : String → String → String) where
  fresh-Fits : (c : Config) (o : Observation) → Fits c o.subject_key (fresh_group correlation_id o)
  fresh-Fits c o = record { subject = refl; bounded = omega arith; belongs = tt }

  join-GroupsInv :
      (c : Correlator) (o : Observation) (g : Group) (status : Status)
      → 0 < c.config.max_events_per_group
      → Fits c.config o.subject_key g
      → GroupsInv c
      → GroupsInv (join correlation_id c o g status).0
  unfolding join remember
  join-GroupsInv c o g status room f v s h stored = elim (Bool-cases (str_eq o.subject_key s)) [
    | inl same ↦
        let is_new : joined c.config o g ≡ h =
          cc (lookup-insert o.subject_key s (joined c.config o g) c.groups, same, stored) in
        subst (λ k. Fits c.config s k × (0 < length k.events)) is_new
          (subst
            (λ z. Fits c.config z (joined c.config o g) × (0 < length (joined c.config o g).events))
            ((eq_iff o.subject_key s).0 same) (joined-Fits c.config o g room f))
    | inr other ↦ v s h (
        ground (arith, lookup-insert o.subject_key s (joined c.config o g) c.groups, other, stored))
  ]

  place_other :
      (c : Correlator) (o : Observation) (s : String)
      → str_eq o.subject_key s ≡ false
      → (g : Option Group) → lookup s (place correlation_id c o g).0.groups ≡ lookup s c.groups
  unfolding place join remember
  place_other c o s other none = ground (
    arith,
    lookup-insert o.subject_key s (joined c.config o (fresh_group correlation_id o)) c.groups,
    other,
  )
  place_other c o s other (some g) = ground (
    arith,
    lookup-insert o.subject_key s (joined c.config o (fresh_group correlation_id o)) c.groups,
    lookup-insert o.subject_key s (joined c.config o g) c.groups,
    other,
  )

  place-GroupsInv :
      (c : Correlator) (o : Observation)
      → 0 < c.config.max_events_per_group
      → GroupsInv c
      → GroupsInv (place correlation_id c o (lookup o.subject_key c.groups)).0
  unfolding place remember
  place-GroupsInv c o room v = elim (Option-cases (lookup o.subject_key c.groups)) [
    | inl absent ↦
        rw (place, absent)
          (join-GroupsInv c o (fresh_group correlation_id o) new_group room (fresh-Fits c.config o)
            v)
    | inr (g, there) ↦ elim (Bool-cases (is_late c.config g o)) [
      | inl tardy ↦ rw (place, there, tardy) v
      | inr timely ↦ elim (Bool-cases (ltb (g.max_occurred + c.config.window) o.occurred_at)) [
        | inl gap ↦
            rw (place, there, timely, gap)
              (join-GroupsInv c o (fresh_group correlation_id o) new_group room
                (fresh-Fits c.config o) v)
        | inr near ↦
            rw (place, there, timely, near)
              (join-GroupsInv c o g updated room (v o.subject_key g there).0 v)
      ]
    ]
  ]

  -- `Ingest` keeps what holds of the groups: each has between one and the configured number of events,
  -- all of its own subject and none after its newest instant.
  pub ingest-GroupsInv :
      (c : Correlator) (o : Observation)
      → 0 < c.config.max_events_per_group
      → GroupsInv c
      → GroupsInv (ingest correlation_id c o).0
  unfolding ingest
  ingest-GroupsInv c o room v = elim (Bool-cases (not (valid o))) [
    | inl bad ↦ rw (ingest, bad) v
    | inr good ↦ elim (Option-cases (lookup o.event_id c.seen)) [
      | inl new ↦ rw (ingest, good, new) (place-GroupsInv c o room v)
      | inr (id, old) ↦ rw (ingest, good, old) v
    ]
  ]

  -- `Ingest` leaves the group of every other subject as it is.
  pub ingest_other :
      (c : Correlator) (o : Observation) (s : String)
      → str_eq o.subject_key s ≡ false
      → lookup s (ingest correlation_id c o).0.groups ≡ lookup s c.groups
  unfolding ingest
  ingest_other c o s other = elim (Bool-cases (not (valid o))) [
    | inl bad ↦ rw (ingest, bad) refl
    | inr good ↦ elim (Option-cases (lookup o.event_id c.seen)) [
      | inl new ↦ rw (ingest, good, new) (place_other c o s other (lookup o.subject_key c.groups))
      | inr (id, old) ↦ rw (ingest, good, old) refl
    ]
  ]
