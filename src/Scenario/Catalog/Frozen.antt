-- ===== src/Scenario/Catalog/Frozen.antt =====
-- A published revision does not change, until it is given to `ValidateDraft`.
use home_sentinel.Base.{
  ◌≡◌, sym, ap, ◌∙◌, inl, inr, ℕ, String, str_eq, Bool, true, false, not, ◌&&◌, Option, none, some,
  List, [], ◌∷◌, arith, All, Bool-cases, Option-cases, lookup, lookup-insert,
}
use home_sentinel.Scenario.Catalog.{
  Scenario, SimulationSummary, Revision, ScenarioRecord, Catalog, is_published, get_revision,
  get_version,
}
use home_sentinel.Scenario.Catalog.Dependency.{Manifest}
use home_sentinel.Scenario.Catalog.Operations.{
  Reply, need, first_draft, with_draft, edited, simulated_as, create_draft, update_draft, edit,
  validate_draft, validate_with, record_simulation,
}
use home_sentinel.Scenario.Catalog.Releases.{
  promoted, released, publish_draft, publish_with, rollback, rolled_back, set_status, marked,
}
use home_sentinel.Scenario.Catalog.Runs.{
  Call, create, update, validate, simulate, publish, roll_back, set, after, step, run,
}
use home_sentinel.Scenario.Catalog.Published.{
  frozen, frozen_record, published_in, get_revision-name, insert-frozen, write-frozen,
  draft_not_frozen, append-frozen,
}

module _ {B : Type 0} (valid : Scenario B → Bool) (digest : String → String) (id rev : String)
    (p : Revision B) where
  -- The catalog shows the published revision.
  abbrev Shows : Catalog B → Type 0
  Shows c = published_in id rev c.records ≡ some p

  simulated_as-frozen :
      (sum : SimulationSummary) (v : Revision B)
      → frozen (some v) ≡ some p
      → frozen (some (simulated_as valid digest sum v)) ≡ some p
  unfolding simulated_as
  simulated_as-frozen sum v h = ground (arith, h)

  simulated_as-name :
      (sum : SimulationSummary) (v : Revision B) (name : String)
      → str_eq v.revision_id name ≡ true
      → str_eq (simulated_as valid digest sum v).revision_id name ≡ true
  unfolding simulated_as
  simulated_as-name sum v name h = h

  with_draft-frozen :
      (now : ℕ) (s : Scenario B) (author : String) (o : Option (ScenarioRecord B))
      → frozen_record rev o ≡ some p
      → frozen (get_revision rev (with_draft valid digest now s author o).revisions) ≡ some p
  unfolding with_draft
  with_draft-frozen now s author none h = absurd (cc)
  with_draft-frozen now s author (some r) h =
      append-frozen rev r.revisions (first_draft valid digest now s author ∷ []) p h

  create_draft-frozen :
      (now : ℕ) (s : Scenario B) (author : String) (c : Catalog B)
      → Shows c
      → Shows (after c (create_draft valid digest now s author c))
  unfolding create_draft
  create_draft-frozen now s author c h = elim (Bool-cases (valid s)) [
    | inr e ↦ rw (create_draft, e) h
    | inl e ↦ elim (Bool-cases (str_eq s.id "")) [
      | inl e2 ↦ rw (create_draft, e, e2) h
      | inr e2 ↦
          rw (create_draft, e, e2)
            (insert-frozen id rev s.id
              (with_draft valid digest now s author (lookup s.id c.records)) c.records p h
              (with_draft-frozen now s author (lookup s.id c.records)))
    ]
  ]

  edit-frozen :
      (now : ℕ) (at at_rev tag : String) (s : Scenario B) (author : String) (c : Catalog B)
      (r : ScenarioRecord B) (v : Revision B)
      → lookup at c.records ≡ some r
      → get_revision at_rev r.revisions ≡ some v
      → Shows c
      → Shows (after c (edit valid digest now at at_rev tag s author c r v))
  unfolding edit edited
  edit-frozen now at at_rev tag s author c r v found here h =
      elim (Bool-cases (is_published v.state)) [
        | inl e ↦ rw (edit, e) h
        | inr e ↦ elim (Bool-cases (not (str_eq tag "") && not (str_eq v.e_tag tag))) [
          | inl e2 ↦ rw (edit, e, e2) h
          | inr e2 ↦
              rw (edit, e, e2)
                (insert-frozen id rev at _ c.records p h (λ k.
                  write-frozen rev at_rev v _ r.revisions p here
                    (get_revision-name at_rev r.revisions v here)
                    (λ same f. draft_not_frozen v p _ e f)
                    (sym (ap (frozen_record rev) found) ∙ k)))
        ]
      ]

  validate_with-frozen :
      (at at_rev : String) (c : Catalog B) (r : ScenarioRecord B) (v : Revision B)
      (o : Option Manifest)
      → (str_eq at id && str_eq at_rev rev) ≡ false
      → lookup at c.records ≡ some r
      → get_revision at_rev r.revisions ≡ some v
      → Shows c
      → Shows (after c (validate_with valid digest at at_rev c r v o))
  unfolding validate_with
  validate_with-frozen at at_rev c r v none apart found here h = h
  validate_with-frozen at at_rev c r v (some m) apart found here h =
      elim (Bool-cases (str_eq at id)) [
        | inl e ↦ insert-frozen id rev at _ c.records p h (λ k.
            write-frozen rev at_rev v _ r.revisions p here
              (get_revision-name at_rev r.revisions v here)
              (λ same f. absurd (ground (arith, apart, e, same)))
              (sym (ap (frozen_record rev) found) ∙ k))
        | inr e ↦ rw (lookup-insert at id _ c.records, e) h
      ]

  publish_with-frozen :
      (now : ℕ) (at at_rev author reason : String) (c : Catalog B) (r : ScenarioRecord B)
      (v : Revision B) (o : Option Manifest)
      → is_published v.state ≡ false
      → lookup at c.records ≡ some r
      → get_revision at_rev r.revisions ≡ some v
      → Shows c
      → Shows (after c (publish_with valid digest now at at_rev author reason c r v o))
  unfolding publish_with promoted released
  publish_with-frozen now at at_rev author reason c r v none open_ found here h = h
  publish_with-frozen now at at_rev author reason c r v (some m) open_ found here h =
      insert-frozen id rev at _ c.records p h (λ k.
        write-frozen rev at_rev v _ r.revisions p here (get_revision-name at_rev r.revisions v here)
          (λ same f. draft_not_frozen v p _ open_ f) (sym (ap (frozen_record rev) found) ∙ k))

  -- A call that does not validate the revision.
  abbrev pub Spares : Call B → Type 0
  Spares (validate compile at at_rev) = (str_eq at id && str_eq at_rev rev) ≡ false
  Spares _ = Unit

  -- A call that looks a record up, then a revision of it, keeps what each of its ends keeps.
  need-frozen :
      {A : Type 0} (at at_rev : String) (c : Catalog B)
      (k : ScenarioRecord B → Revision B → Reply B A)
      → Shows c
      → ((r : ScenarioRecord B) (v : Revision B)
          → lookup at c.records ≡ some r
          → get_revision at_rev r.revisions ≡ some v
          → Shows (after c (k r v)))
      → Shows
          (after c (need (lookup at c.records) (λ r. need (get_revision at_rev r.revisions) (k r))))
  need-frozen at at_rev c k h keeps = elim (Option-cases (lookup at c.records)) [
    | inl e ↦ rw (e) h
    | inr (r, e) ↦ elim (Option-cases (get_revision at_rev r.revisions)) [
      | inl e2 ↦ rw (e, e2) h
      | inr (v, e2) ↦ rw (e, e2) (keeps r v e e2)
    ]
  ]

  update_draft-frozen :
      (now : ℕ) (at at_rev tag : String) (s : Scenario B) (author : String) (c : Catalog B)
      → Shows c
      → Shows (after c (update_draft valid digest now at at_rev tag s author c))
  unfolding update_draft
  update_draft-frozen now at at_rev tag s author c h = elim (Bool-cases (valid s)) [
    | inr e ↦ rw (update_draft, e) h
    | inl e ↦
        rw (update_draft, e)
          (need-frozen at at_rev c (edit valid digest now at at_rev tag s author c) h
            (λ r v found here. edit-frozen now at at_rev tag s author c r v found here h))
  ]

  publish_draft-frozen :
      (compile : Scenario B → Option Manifest) (now : ℕ) (at at_rev author reason : String)
      (c : Catalog B)
      → Shows c
      → Shows (after c (publish_draft valid digest compile now at at_rev author reason c))
  unfolding publish_draft
  publish_draft-frozen compile now at at_rev author reason c h =
      need-frozen at at_rev c _ h (λ r v found here. elim (Bool-cases (is_published v.state)) [
        | inl e ↦ rw (e) h
        | inr e ↦ rw (e) (
            publish_with-frozen now at at_rev author reason c r v (compile v.scenario) e found here
              h)
      ])

  pub step-frozen :
      (call : Call B) (c : Catalog B) → Spares call → Shows c → Shows (step valid digest call c)
  unfolding step validate_draft record_simulation rollback rolled_back set_status marked
  step-frozen (create now s author) c ok h = create_draft-frozen now s author c h
  step-frozen (update now at at_rev tag s author) c ok h =
      update_draft-frozen now at at_rev tag s author c h
  step-frozen (validate compile at at_rev) c ok h =
      need-frozen at at_rev c _ h (λ r v found here.
        validate_with-frozen at at_rev c r v (compile v.scenario) ok found here h)
  step-frozen (simulate at at_rev sum) c ok h = need-frozen at at_rev c _ h (λ r v found here.
      insert-frozen id rev at _ c.records p h (λ k.
        write-frozen rev at_rev v _ r.revisions p here
          (simulated_as-name sum v at_rev (get_revision-name at_rev r.revisions v here))
          (λ same. simulated_as-frozen sum v) (sym (ap (frozen_record rev) found) ∙ k)))
  step-frozen (publish compile now at at_rev author reason) c ok h =
      publish_draft-frozen compile now at at_rev author reason c h
  step-frozen (roll_back now at target author reason) c ok h =
      elim (Option-cases (lookup at c.records)) [
        | inl e ↦ rw (e) h
        | inr (r, e) ↦ elim (Option-cases (get_version target r.revisions)) [
          | inl e2 ↦ rw (e, e2) h
          | inr (v, e2) ↦
              rw (e, e2)
                (insert-frozen id rev at _ c.records p h (λ k. sym (ap (frozen_record rev) e) ∙ k))
        ]
      ]
  step-frozen (set now at status author reason) c ok h = elim (Option-cases (lookup at c.records)) [
    | inl e ↦ rw (e) h
    | inr (r, e) ↦
        rw (e) (insert-frozen id rev at _ c.records p h (λ k. sym (ap (frozen_record rev) e) ∙ k))
  ]

  -- In any run that does not validate it again, a published revision stays as it was, whatever else is
  -- created, updated, simulated, published, rolled back or archived: it keeps its scenario, version,
  -- state, manifest, tag and dates; only the record of a simulation may be new.
  pub run-frozen :
      (calls : List (Call B)) (c : Catalog B)
      → All Spares calls
      → published_in id rev c.records ≡ some p
      → published_in id rev (run valid digest calls c).records ≡ some p
  unfolding run
  run-frozen [] c ok h = h
  run-frozen (call ∷ calls) c (ok, oks) h =
      run-frozen calls (step valid digest call c) oks (step-frozen call c ok h)
