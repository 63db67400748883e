-- ===== src/Scenario/Catalog/Operations.antt =====
-- internal/scenario/catalog/catalog.go: the operations on drafts. The lock makes each call one
-- step; every error is returned before the first write, so that a failed call leaves the catalog as it
-- was. `valid` is `Scenario.Validate`, `digest` the text of a SHA-256 sum, and `compile` what the
-- compiler gives at the time of the call, where `none` stands for diagnostics with errors.
use home_sentinel.Base.{
  ℕ, String, str_eq, ◌<>◌, show, Bool, true, false, not, ◌&&◌, Option, none, some, [], ◌∷◌, ◌++◌,
  if◌then◌else◌, lookup, insert,
}
use home_sentinel.Scenario.Catalog.{
  Error, invalid, not_found, conflict, immutable, no_id, RevisionState, draft, validated, simulated,
  disabled, Scenario, AuditEntry, SimulationSummary, Revision, ScenarioRecord, Catalog,
  is_published, get_revision, write,
}
use home_sentinel.Scenario.Catalog.Dependency.{Manifest, Index}

pub data Reply (B A : Type 0) : Type 0 where
  failed : Error → Reply B A
  done : Catalog B → A → Reply B A

abbrev pub need : {A X B : Type 0} → Option X → (X → Reply B A) → Reply B A
need none k = failed not_found
need (some x) k = k x

abbrev pub entry : ℕ → (actor action reason revision_id : String) → ℕ → AuditEntry
entry now actor action reason revision_id version = record {
  timestamp = now;
  actor = actor;
  action = action;
  reason = reason;
  revision_id = revision_id;
  version = version;
}

abbrev rev_name : ℕ → String
rev_name now = "rev_" <> show now

abbrev pub may_simulate : RevisionState → Bool
may_simulate draft = true
may_simulate validated = true
may_simulate _ = false

-- `NewCatalog`.
abbrev pub empty_index : Index
empty_index = record { forward = []; reverse = [] }

unfoldable pub new_catalog : {B : Type 0} → Catalog B
new_catalog = record {
  records = [];
  deps = record {
    capabilities = empty_index;
    entities = empty_index;
    subflows = empty_index;
    templates = [];
  };
}

module _ {B : Type 0} (valid : Scenario B → Bool) (digest : String → String) where
  abbrev pub store : String → ScenarioRecord B → Catalog B → Catalog B
  store id r c = record c { records = insert id r c.records }

  abbrev stamp : (id rev : String) → ℕ → String
  stamp id rev now = digest (id <> (":" <> (rev <> (":" <> show now))))

  -- The revision that `CreateDraft` makes.
  unfoldable pub first_draft : ℕ → Scenario B → String → Revision B
  first_draft now s author = record {
    scenario_id = s.id;
    revision_id = rev_name now;
    version = 0;
    state = draft;
    e_tag = stamp s.id (rev_name now) now;
    author = author;
    created_at = now;
    updated_at = now;
    published_at = none;
    published_by = "";
    publish_reason = "";
    scenario = record s { revision_id = rev_name now };
    manifest = none;
    simulation = none;
  }

  unfoldable pub with_draft : ℕ → Scenario B → String → Option (ScenarioRecord B) → ScenarioRecord B
  unfolding first_draft
  with_draft now s author none = record {
    id = s.id;
    name = s.name;
    description = s.description;
    status = disabled;
    active_revision_id = "";
    active_version = 0;
    draft_revision_id = rev_name now;
    created_at = now;
    updated_at = now;
    revisions = first_draft now s author ∷ [];
    audit_log = entry now author "create_scenario" "" (rev_name now) 0 ∷ [];
  }
  with_draft now s author (some r) = record r {
    draft_revision_id = rev_name now;
    updated_at = now;
    revisions = r.revisions ++ first_draft now s author ∷ [];
    audit_log = r.audit_log ++ entry now author "create_draft" "" (rev_name now) 0 ∷ [];
  }

  -- `Catalog.CreateDraft`.
  unfoldable pub create_draft : ℕ → Scenario B → String → Catalog B → Reply B (Revision B)
  unfolding with_draft
  create_draft now s author c =
      if not (valid s)
      then failed invalid
      else if str_eq s.id ""
      then failed no_id
      else done (store s.id (with_draft now s author (lookup s.id c.records)) c)
          (first_draft now s author)

  -- The revision after `UpdateDraft`.
  unfoldable pub edited : ℕ → (id rev : String) → Scenario B → String → Revision B → Revision B
  edited now id rev s author v = record v {
    scenario = record s { id = id; revision_id = rev };
    author = author;
    updated_at = now;
    state = draft;
    e_tag = stamp id rev now;
    manifest = none;
  }

  unfoldable pub edit :
      ℕ
      → (id rev tag : String) → Scenario B
      → String
      → Catalog B
      → ScenarioRecord B
      → Revision B
      → Reply B (Revision B)
  unfolding edited
  edit now id rev tag s author c r v =
      if is_published v.state
      then failed immutable
      else if not (str_eq tag "") && not (str_eq v.e_tag tag)
      then failed conflict
      else done
          (store id
            (record r {
              updated_at = now;
              name = s.name;
              description = s.description;
              revisions = write rev (edited now id rev s author v) r.revisions;
              audit_log = r.audit_log ++ entry now author "update_draft" "" rev 0 ∷ [];
            })
            c)
          (edited now id rev s author v)

  -- `Catalog.UpdateDraft`.
  unfoldable pub update_draft :
      ℕ → (id rev tag : String) → Scenario B → String → Catalog B → Reply B (Revision B)
  unfolding edit
  update_draft now id rev tag s author c =
      if not (valid s)
      then failed invalid
      else need (lookup id c.records)
          (λ r. need (get_revision rev r.revisions) (edit now id rev tag s author c r))

  unfoldable pub validate_with :
      (id rev : String)
      → Catalog B
      → ScenarioRecord B
      → Revision B
      → Option Manifest
      → Reply B (Option Manifest)
  validate_with id rev c r v none = done c none
  validate_with id rev c r v (some m) =
      done
        (store id
          (record r {
            revisions = write rev (record v { state = validated; manifest = some m }) r.revisions;
          })
          c)
        (some m)

  -- `Catalog.ValidateDraft`; the reply is the manifest where there is no error.
  unfoldable pub validate_draft :
      (Scenario B → Option Manifest) → (id rev : String) → Catalog B → Reply B (Option Manifest)
  unfolding validate_with
  validate_draft compile id rev c = need (lookup id c.records) (λ r.
      need (get_revision rev r.revisions) (λ v. validate_with id rev c r v (compile v.scenario)))

  -- The revision after `RecordSimulation`.
  unfoldable pub simulated_as : SimulationSummary → Revision B → Revision B
  simulated_as sum v = record v {
    simulation = some sum;
    state = if sum.passed && may_simulate v.state then simulated else v.state;
  }

  -- `Catalog.RecordSimulation`.
  unfoldable pub record_simulation :
      (id rev : String) → SimulationSummary → Catalog B → Reply B Unit
  unfolding simulated_as
  record_simulation id rev sum c = need (lookup id c.records) (λ r.
      need (get_revision rev r.revisions) (λ v.
        done (store id (record r { revisions = write rev (simulated_as sum v) r.revisions }) c) tt))
