-- ===== src/Scenario/Catalog/Current.antt =====
-- The active revision of a scenario: internal/scenario/catalog/catalog.go, `GetActiveRevision` after the
-- other operations.
use home_sentinel.Base.{
  ◌≡◌, refl, sym, ap, ◌∙◌, inl, inr, ℕ, suc, String, str_eq, eq_refl, Bool, true, false, Option,
  none, some, arith, Bool-cases, Option-cases, lookup,
}
use home_sentinel.Scenario.Catalog.{
  Scenario, Revision, ScenarioRecord, Catalog, is_published, get_revision, write,
}
use home_sentinel.Scenario.Catalog.Dependency.{Manifest}
use home_sentinel.Scenario.Catalog.Published.{get_revision-name, get_revision-write, lookup-stored}
use home_sentinel.Scenario.Catalog.Operations.{Reply, failed, done}
use home_sentinel.Scenario.Catalog.Releases.{
  promoted, released, publish_draft, publish_with, active_of, get_active_revision,
}
use home_sentinel.Scenario.Catalog.Runs.{after}

module _ {B : Type 0} (valid : Scenario B → Bool) (digest : String → String) where
  -- The part of a reply that a call gives with the new catalog.
  abbrev answer : Revision B → Reply B (Revision B) → Revision B
  answer x (failed e) = x
  answer x (done c y) = y

  get_active_revision-named :
      (id : String) (c : Catalog B) (r : ScenarioRecord B) (v : Revision B)
      → lookup id c.records ≡ some r
      → str_eq r.active_revision_id "" ≡ false
      → get_revision r.active_revision_id r.revisions ≡ some v
      → get_active_revision valid digest id c ≡ done c v
  unfolding get_active_revision active_of
  get_active_revision-named id c r v known named here =
      rw (get_active_revision, active_of, known, named, here) refl

  -- What a publication gives back, and the record that it leaves.
  unfoldable IsPublication :
      (id rev : String) → ScenarioRecord B → (d : Catalog B) → Revision B → Type 0
  IsPublication id rev r d w =
      (q : ScenarioRecord B) × (lookup id d.records ≡ some q)
      × (q.active_revision_id ≡ rev)
      × (get_revision rev q.revisions ≡ some w)
      × (is_published w.state ≡ true)
      × (w.version ≡ suc r.active_version)

  publish_with-IsPublication :
      (now : ℕ) (id rev author reason : String) (c d : Catalog B) (r : ScenarioRecord B)
      (v w : Revision B) (o : Option Manifest)
      → get_revision rev r.revisions ≡ some v
      → publish_with valid digest now id rev author reason c r v o ≡ done d w
      → IsPublication id rev r d w
  unfolding IsPublication publish_with promoted released
  publish_with-IsPublication now id rev author reason c d r v w none here out = absurd (cc)
  publish_with-IsPublication now id rev author reason c d r v w (some m) here out =
      let g = promoted valid digest now id author reason (suc r.active_version) m v in
      let q = released valid digest now rev author reason (suc r.active_version) g r in
      let same = ap (answer v) out in
      let stored = lookup-stored id q c.records in
      let name = get_revision-name rev r.revisions v here in
      let written : get_revision rev (write rev g r.revisions) ≡ some g =
        rw (get_revision-write rev rev g r.revisions name, here, eq_refl rev) refl in
      (
        q,
        ap (λ x. lookup id x.records) (sym (ap (after c) out)) ∙ stored,
        refl,
        written ∙ ap some same,
        ap (λ x. is_published x.state) (sym same),
        ap (λ x. x.version) (sym same),
      )

  -- A publication that succeeds, of a revision with a name, is the active revision at once: it is
  -- published, and its version is one above the version that was active.
  pub publish_draft-current :
      (compile : Scenario B → Option Manifest) (now : ℕ) (id rev author reason : String)
      (c d : Catalog B) (r : ScenarioRecord B) (w : Revision B)
      → str_eq rev "" ≡ false
      → lookup id c.records ≡ some r
      → publish_draft valid digest compile now id rev author reason c ≡ done d w
      → (get_active_revision valid digest id d ≡ done d w)
        × (is_published w.state ≡ true)
        × (w.version ≡ suc r.active_version)
  unfolding publish_draft IsPublication
  publish_draft-current compile now id rev author reason c d r w named known out =
      elim (Option-cases (get_revision rev r.revisions)) [
        | inl e1 ↦ absurd (ground (arith, known, e1, out))
        | inr (v, e1) ↦ elim (Bool-cases (is_published v.state)) [
          | inl e2 ↦ absurd (ground (arith, known, e1, e2, out))
          | inr e2 ↦
              let open_ : publish_with valid digest now id rev author reason c r v
                    (compile v.scenario)
                  ≡ done d w =
                (let go : publish_draft valid digest compile now id rev author reason c
                      ≡ publish_with valid digest now id rev author reason c r v
                          (compile v.scenario) =
                    rw (publish_draft, known, e1, e2) refl in
                  sym go ∙ out) in
              let (q, stored, active_, here, out_, version) =
                publish_with-IsPublication now id rev author reason c d r v w (compile v.scenario)
                  e1 open_ in
              (
                get_active_revision-named id d q w stored (ap (λ x. str_eq x "") active_ ∙ named)
                    (ap (λ x. get_revision x q.revisions) active_ ∙ here),
                out_,
                version,
              )
        ]
      ]
