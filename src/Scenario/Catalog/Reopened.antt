-- ===== src/Scenario/Catalog/Reopened.antt =====
-- Where internal/scenario/catalog/catalog.go does other than the catalog's comments say.
use home_sentinel.Base.{
  ◌≡◌, refl, sym, ap, ◌∙◌, ℕ, suc, String, eq_refl, Bool, true, false, ◌&&◌, Option, some, List, [],
  ◌∷◌, ◌==◌, arith, Bool-cases, Option-cases, inl, inr, if◌then◌else◌, lookup, insert,
}
use home_sentinel.Scenario.Catalog.{
  immutable, validated, ScenarioStatus, active, archived, Scenario, Revision, ScenarioRecord,
  Catalog, is_published, get_revision, get_version, write,
}
use home_sentinel.Scenario.Catalog.Dependency.{
  Manifest, DependencyGraph, member, users, remove_scenario, update_dependencies,
}
use home_sentinel.Scenario.Catalog.Uses.{clear-users}
use home_sentinel.Scenario.Catalog.Graph.{GraphInv}
use home_sentinel.Scenario.Catalog.Operations.{
  failed, done, store, edited, update_draft, edit, validate_draft, validate_with,
}
use home_sentinel.Scenario.Catalog.Releases.{
  publish_draft, publish_with, promoted, rollback, rolled_back, set_status, marked, drops,
}
use home_sentinel.Scenario.Catalog.Published.{get_revision-name, get_revision-write, lookup-stored}
use home_sentinel.Scenario.Catalog.Runs.{after}

remove_scenario-users :
    (id dep : String) (d : DependencyGraph)
    → GraphInv d
    → member id (users dep (remove_scenario id d).capabilities) ≡ false
unfolding remove_scenario
remove_scenario-users id dep d inv =
    let listed = clear-users id dep id d.capabilities inv.on_capabilities in
    ground (arith, listed, eq_refl id)

module _ {B : Type 0} (valid : Scenario B → Bool) (digest : String → String) where
  set_status-known :
      (now : ℕ) (id : String) (status : ScenarioStatus) (author reason : String) (c : Catalog B)
      (r : ScenarioRecord B)
      → lookup id c.records ≡ some r
      → set_status valid digest now id status author reason c
        ≡ done
            (record {
              records = insert id (marked valid digest now status author reason r) c.records;
              deps = if drops status then remove_scenario id c.deps else c.deps;
            })
            tt
  unfolding set_status
  set_status-known now id status author reason c r known = rw (set_status, known) refl

  get_version-number :
      (n : ℕ) (vs : List (Revision B)) (v : Revision B) → get_version n vs ≡ some v → v.version ≡ n
  unfolding get_version
  get_version-number n [] v h = absurd (cc)
  get_version-number n (x ∷ xs) v h = elim (Bool-cases (x.version == n && is_published x.state)) [
    | inl e ↦ ground (arith, h, e)
    | inr e ↦ get_version-number n xs v (ground (arith, h, e))
  ]

  -- The revision after a validation with no error.
  abbrev reset : Manifest → Revision B → Revision B
  reset m v = record v { state = validated; manifest = some m }

  reset-found :
      (rev : String) (vs : List (Revision B)) (v : Revision B) (m : Manifest)
      → get_revision rev vs ≡ some v
      → get_revision rev (write rev (reset m v) vs) ≡ some (reset m v)
  reset-found rev vs v m here =
      rw
        (
          get_revision-write rev rev (reset m v) vs (get_revision-name rev vs v here),
          here,
          eq_refl rev,
        )
        refl

  abbrev validated_record : String → Manifest → Revision B → ScenarioRecord B → ScenarioRecord B
  validated_record rev m v r = record r { revisions = write rev (reset m v) r.revisions }

  update_draft-open :
      (now : ℕ) (id rev : String) (s : Scenario B) (author : String) (c : Catalog B)
      (r : ScenarioRecord B) (v : Revision B)
      → valid s ≡ true
      → lookup id c.records ≡ some r
      → get_revision rev r.revisions ≡ some v
      → is_published v.state ≡ false
      → update_draft valid digest now id rev "" s author c
        ≡ done
            (after c (edit valid digest now id rev "" s author c r v))
            (edited valid digest now id rev s author v)
  unfolding update_draft edit
  update_draft-open now id rev s author c r v ok known here open_ =
      rw (update_draft, edit, ok, known, here, open_) refl

  publish_draft-version :
      (compile : Scenario B → Option Manifest) (now : ℕ) (id rev author reason : String)
      (d e : Catalog B) (r : ScenarioRecord B) (w : Revision B)
      → lookup id d.records ≡ some r
      → publish_draft valid digest compile now id rev author reason d ≡ done e w
      → w.version ≡ suc r.active_version
  unfolding publish_draft publish_with promoted
  publish_draft-version compile now id rev author reason d e r w known out =
      elim (Option-cases (get_revision rev r.revisions)) [
        | inl e1 ↦ absurd (ground (arith, known, e1, out))
        | inr (v, e1) ↦ elim (Bool-cases (is_published v.state)) [
          | inl e2 ↦ absurd (ground (arith, known, e1, e2, out))
          | inr e2 ↦ elim (Option-cases (compile v.scenario)) [
            | inl e3 ↦ absurd (ground (arith, known, e1, e2, e3, out))
            | inr (m, e3) ↦ ground (arith, known, e1, e2, e3, out)
          ]
        ]
      ]

  -- A published revision refuses an update; after a validation that finds no error the same update,
  -- with no tag to compare, writes it over.
  pub validate-reopens :
      (compile : Scenario B → Option Manifest) (now : ℕ) (id rev : String) (s : Scenario B)
      (author : String) (c : Catalog B) (r : ScenarioRecord B) (v : Revision B) (m : Manifest)
      → valid s ≡ true
      → lookup id c.records ≡ some r
      → get_revision rev r.revisions ≡ some v
      → is_published v.state ≡ true
      → compile v.scenario ≡ some m
      → (update_draft valid digest now id rev "" s author c ≡ failed immutable)
        × ((d : Catalog B) × (w : Revision B) × (update_draft valid digest now id rev "" s author
                (after c (validate_draft valid digest compile id rev c))
              ≡ done d w)
            × (w.scenario ≡ record s { id = id; revision_id = rev }))
  unfolding update_draft edit edited validate_draft validate_with
  validate-reopens compile now id rev s author c r v m ok known here out compiled =
      let r1 = validated_record rev m v r in
      let c1 = store valid digest id r1 c in
      (
        rw (update_draft, edit, ok, known, here, out) refl,
        (
          after c1 (edit valid digest now id rev "" s author c1 r1 (reset m v)),
          edited valid digest now id rev s author (reset m v),
          rw (validate_draft, validate_with, known, here, compiled)
              (update_draft-open now id rev s author c1 r1 (reset m v) ok
                (lookup-stored id r1 c.records) (reset-found rev r.revisions v m here) refl),
          refl,
        ),
      )

  -- A publication after a rollback to a version numbers the new revision one above that version, also
  -- where a revision that was published before has that number.
  pub rollback-publish :
      (compile : Scenario B → Option Manifest) (now later : ℕ) (id rev : String) (target : ℕ)
      (author reason : String) (c d e : Catalog B) (v w : Revision B)
      → rollback valid digest now id target author reason c ≡ done d v
      → publish_draft valid digest compile later id rev author reason d ≡ done e w
      → w.version ≡ suc target
  unfolding rollback rolled_back
  rollback-publish compile now later id rev target author reason c d e v w back out =
      elim (Option-cases (lookup id c.records)) [
        | inl e1 ↦ absurd (ground (arith, e1, back))
        | inr (r, e1) ↦ elim (Option-cases (get_version target r.revisions)) [
          | inl e2 ↦ absurd (ground (arith, e1, e2, back))
          | inr (x, e2) ↦
              let c1 : Catalog B = record {
                records =
                    insert id (rolled_back valid digest now target author reason x r) c.records;
                deps = update_dependencies id x.manifest c.deps;
              } in
              let gone : rollback valid digest now id target author reason c ≡ done c1 x =
                rw (rollback, e1, e2) refl in
              let same = ap (after c) (sym gone ∙ back) in
              let r1 = rolled_back valid digest now target author reason x r in
              let here = ap (λ k. lookup id k.records) (sym same) ∙ lookup-stored id r1 c.records in
              publish_draft-version compile later id rev author reason d e r1 w here out
              ∙ ap suc (get_version-number target r.revisions x e2)
        ]
      ]

  -- A scenario that was archived and set active again is active, and no capability lists it.
  pub set_status-forgets :
      (now later : ℕ) (id dep : String) (author reason : String) (c : Catalog B)
      (r : ScenarioRecord B)
      → GraphInv c.deps
      → lookup id c.records ≡ some r
      → (d : Catalog B) × (q : ScenarioRecord B) × (set_status valid digest later id active author
            reason
            (after c (set_status valid digest now id archived author reason c))
          ≡ done d tt)
        × (lookup id d.records ≡ some q)
        × (q.status ≡ active)
        × (member id (users dep d.deps.capabilities) ≡ false)
  unfolding marked
  set_status-forgets now later id dep author reason c r inv known =
      let r1 = marked valid digest now archived author reason r in
      let c1 : Catalog B = record {
        records = insert id r1 c.records;
        deps = remove_scenario id c.deps;
      } in
      let first = set_status-known now id archived author reason c r known in
      let second =
        set_status-known later id active author reason c1 r1 (lookup-stored id r1 c.records) in
      let r2 = marked valid digest later active author reason r1 in
      (
        record { records = insert id r2 c1.records; deps = remove_scenario id c.deps },
        r2,
        rw (first) second,
        lookup-stored id r2 c1.records,
        refl,
        remove_scenario-users id dep c.deps inv,
      )
