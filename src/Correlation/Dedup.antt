-- ===== src/Correlation/Dedup.antt =====
-- An event is ingested once: what its second arrival does.
use home_sentinel.Base.{
  ℕ, suc, ◌+◌, ◌≤◌, ◌<◌, ◌≡◌, ◌≢◌, refl, sym, subst, String, true, not, Option, none, some, List,
  [], ◌∷◌, ltb, length, Dict, lookup, arith, Bool-cases, Option-cases, inl, inr,
}
use home_sentinel.Correlation.{
  Observation, valid, duplicate, Result, Group, Correlator, note, remember, is_late, join, place,
  repeated, ingest,
}
use home_sentinel.Correlation.Seen.{
  Known, Held, Present, note-Known, length-note-le, note-Held, note_new-Held, Behind-weaken,
}

module _ (correlation_id : String → String → String) where
  -- What holds of the seen events of `c`, and after one is noted, holds after `Ingest`.
  module _ (P : Dict String → List String → Type 0) (c : Correlator) (o : Observation) where
    abbrev Noted : Type 0
    Noted =
        (id : String)
        → P (note c.config.max_seen_events o.event_id id c.seen c.seen_order).0
            (note c.config.max_seen_events o.event_id id c.seen c.seen_order).1

    place-keeps :
        (g : Option Group)
        → Noted
        → P (place correlation_id c o g).0.seen (place correlation_id c o g).0.seen_order
    unfolding place join remember
    place-keeps none p = p _
    place-keeps (some g) p = elim (Bool-cases (is_late c.config g o)) [
      | inl late ↦ rw (place, late) (p g.id)
      | inr timely ↦ elim (Bool-cases (ltb (g.max_occurred + c.config.window) o.occurred_at)) [
        | inl gap ↦ rw (place, timely, gap) (p _)
        | inr near ↦ rw (place, timely, near) (p g.id)
      ]
    ]

    ingest-keeps :
        P c.seen c.seen_order
        → Noted
        → P (ingest correlation_id c o).0.seen (ingest correlation_id c o).0.seen_order
    unfolding ingest
    ingest-keeps same p = elim (Bool-cases (not (valid o))) [
      | inl bad ↦ rw (ingest, bad) same
      | inr good ↦ elim (Option-cases (lookup o.event_id c.seen)) [
        | inl new ↦ rw (ingest, good, new) (place-keeps (lookup o.subject_key c.groups) p)
        | inr (id, old) ↦ rw (ingest, good, old) same
      ]
    ]

  config-place :
      (c : Correlator) (o : Observation) (g : Option Group)
      → (place correlation_id c o g).0.config ≡ c.config
  unfolding place join remember
  config-place c o none = refl
  config-place c o (some g) = ground arith

  pub config-ingest :
      (c : Correlator) (o : Observation) → (ingest correlation_id c o).0.config ≡ c.config
  unfolding ingest
  config-ingest c o = ground (arith, config-place c o (lookup o.subject_key c.groups))

  -- The seen events are bounded, and the queue and the map agree.
  pub record SeenInv (c : Correlator) : Type 0 where
    pub bounded : length c.seen_order ≤ c.config.max_seen_events
    pub known : Known c.seen c.seen_order

  -- `Ingest` keeps the seen events bounded by their capacity, each once in the queue, and each event of
  -- the queue in the map.
  pub ingest-SeenInv :
      (c : Correlator) (o : Observation) → SeenInv c → SeenInv (ingest correlation_id c o).0
  ingest-SeenInv c o v =
      let max = c.config.max_seen_events in
      record {
        bounded = rw (config-ingest c o) (
            ingest-keeps (λ seen order. length order ≤ max) c o v.bounded
              λ id. length-note-le max o.event_id id c.seen c.seen_order v.bounded);
        known =
            ingest-keeps Known c o v.known
              λ id. note-Known max o.event_id id c.seen c.seen_order v.known;
      }

  ingest-Held :
      (x : String) (n : ℕ) (c : Correlator) (o : Observation)
      → suc n < c.config.max_seen_events
      → SeenInv c
      → Held x n c.seen c.seen_order
      → Held x (suc n) (ingest correlation_id c o).0.seen (ingest correlation_id c o).0.seen_order
  ingest-Held x n c o room v h =
      ingest-keeps (Held x (suc n)) c o
        (record { present = h.present; behind = Behind-weaken x n c.seen_order h.behind })
        λ id.
          note-Held x n c.config.max_seen_events o.event_id id c.seen c.seen_order room v.known h

  unfoldable pub ingest_all : Correlator → List Observation → Correlator
  ingest_all c [] = c
  ingest_all c (o ∷ os) = ingest_all (ingest correlation_id c o).0 os

  ingest_all-Held :
      (x : String) (n : ℕ) (c : Correlator) (os : List Observation)
      → n + length os < c.config.max_seen_events
      → SeenInv c
      → Held x n c.seen c.seen_order
      → Present (ingest_all c os).seen x
  unfolding ingest_all
  ingest_all-Held x n c [] room v h = h.present
  ingest_all-Held x n c (o ∷ os) room v h =
      ingest_all-Held x (suc n) (ingest correlation_id c o).0 os
        (rw (config-ingest c o) (omega (arith, room))) (ingest-SeenInv c o v)
        (ingest-Held x n c o (omega (arith, room)) v h)

  -- What a duplicate gets: a duplicate's answer, and the state as it was.
  pub record IsDuplicate (c : Correlator) (o : Observation) : Type 0 where
    pub unchanged : (ingest correlation_id c o).0 ≡ c
    pub result : Result
    pub answered : (ingest correlation_id c o).1 ≡ some result
    pub said : result.status ≡ duplicate

  present-IsDuplicate :
      (c : Correlator) (o : Observation)
      → valid o ≡ true
      → Present c.seen o.event_id
      → IsDuplicate c o
  unfolding ingest
  present-IsDuplicate c o good p = elim (Option-cases (lookup o.event_id c.seen)) [
    | inl absent ↦ absurd (p absent)
    | inr (id, there) ↦ record {
      unchanged = rw (ingest, good, there) refl;
      result = record {
        status = duplicate;
        candidate = repeated id (lookup o.subject_key c.groups);
      };
      answered = rw (ingest, good, there) refl;
      said = refl;
    }
  ]

  ingest_new-Held :
      (c : Correlator) (o : Observation) (r : Result)
      → 0 < c.config.max_seen_events
      → SeenInv c
      → (ingest correlation_id c o).1 ≡ some r
      → r.status ≢ duplicate
      → Held o.event_id 0
          (ingest correlation_id c o).0.seen
          (ingest correlation_id c o).0.seen_order
  unfolding ingest
  ingest_new-Held c o r room v answer new = elim (Bool-cases (not (valid o))) [
    | inl bad ↦ absurd (ground (arith, answer, bad))
    | inr good ↦ elim (Option-cases (lookup o.event_id c.seen)) [
      | inl absent ↦
          rw (ingest, good, absent)
            (place-keeps (Held o.event_id 0) c o (lookup o.subject_key c.groups) λ id.
              note_new-Held o.event_id c.config.max_seen_events id c.seen c.seen_order room v.known
                absent)
      | inr (id, there) ↦ absurd (ground (arith, answer, good, there, new))
    ]
  ]

  -- Once an event was ingested, and not as a duplicate, any valid observation with its event ID is
  -- answered as a duplicate and changes nothing, after fewer other observations than are remembered.
  pub ingest_once :
      (c : Correlator) (o again : Observation) (os : List Observation) (r : Result)
      → SeenInv c
      → (ingest correlation_id c o).1 ≡ some r
      → r.status ≢ duplicate
      → length os < c.config.max_seen_events
      → valid again ≡ true
      → again.event_id ≡ o.event_id
      → IsDuplicate (ingest_all (ingest correlation_id c o).0 os) again
  ingest_once c o again os r v answer new room good same = present-IsDuplicate _ again good (
      subst (Present (ingest_all (ingest correlation_id c o).0 os).seen) (sym same) (
        ingest_all-Held o.event_id 0 (ingest correlation_id c o).0 os
          (rw (config-ingest c o) (omega (arith, room))) (ingest-SeenInv c o v)
          (ingest_new-Held c o r (omega (arith, room)) v answer new)))
