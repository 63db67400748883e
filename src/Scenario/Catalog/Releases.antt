-- ===== src/Scenario/Catalog/Releases.antt =====
-- internal/scenario/catalog/catalog.go: publication, rollback and status of a scenario, and its active
-- revision.
use home_sentinel.Base.{
  ℕ, suc, String, str_eq, ◌<>◌, show, Bool, true, false, Option, none, some, List, [], ◌∷◌, ◌++◌,
  if◌then◌else◌, lookup, insert,
}
use home_sentinel.Scenario.Catalog.{
  immutable, not_validated, no_active, published, ScenarioStatus, active, disabled, archived,
  Scenario, Revision, ScenarioRecord, Catalog, is_published, get_revision, get_version, write,
}
use home_sentinel.Scenario.Catalog.Dependency.{Manifest, update_dependencies, remove_scenario}
use home_sentinel.Scenario.Catalog.Operations.{Reply, failed, done, need, entry}

abbrev status_name : ScenarioStatus → String
status_name active = "active"
status_name disabled = "disabled"
status_name archived = "archived"

abbrev pub drops : ScenarioStatus → Bool
drops archived = true
drops _ = false

module _ {B : Type 0} (valid : Scenario B → Bool) (digest : String → String) where
  -- The revision after `PublishDraft`.
  unfoldable pub promoted : ℕ → (id author reason : String) → ℕ → Manifest → Revision B → Revision B
  promoted now id author reason version m v = record v {
    state = published;
    version = version;
    manifest = some m;
    published_at = some now;
    published_by = author;
    publish_reason = reason;
    e_tag = digest (id <> (":v" <> (show version <> (":" <> m.plan_digest))));
  }

  -- The record after `PublishDraft`.
  unfoldable pub released :
      ℕ → (rev author reason : String) → ℕ → Revision B → ScenarioRecord B → ScenarioRecord B
  released now rev author reason next w r = record r {
    active_revision_id = rev;
    active_version = next;
    draft_revision_id = "";
    status = active;
    updated_at = now;
    revisions = write rev w r.revisions;
    audit_log = r.audit_log ++ entry now author "publish" reason rev next ∷ [];
  }

  unfoldable pub publish_with :
      ℕ
      → (id rev author reason : String) → Catalog B
      → ScenarioRecord B
      → Revision B
      → Option Manifest
      → Reply B (Revision B)
  unfolding promoted released
  publish_with now id rev author reason c r v none = failed not_validated
  publish_with now id rev author reason c r v (some m) =
      let next = suc r.active_version in
      let w = promoted now id author reason next m v in
      done
        (record {
          records = insert id (released now rev author reason next w r) c.records;
          deps = update_dependencies id (some m) c.deps;
        })
        w

  -- `Catalog.PublishDraft`.
  unfoldable pub publish_draft :
      (Scenario B → Option Manifest)
      → ℕ
      → (id rev author reason : String) → Catalog B
      → Reply B (Revision B)
  unfolding publish_with
  publish_draft compile now id rev author reason c = need (lookup id c.records) (λ r.
      need (get_revision rev r.revisions) (λ v.
        if is_published v.state
        then failed immutable
        else publish_with now id rev author reason c r v (compile v.scenario)))

  -- The record after `RollbackToVersion`.
  unfoldable pub rolled_back :
      ℕ → ℕ → (author reason : String) → Revision B → ScenarioRecord B → ScenarioRecord B
  rolled_back now target author reason v r = record r {
    active_revision_id = v.revision_id;
    active_version = v.version;
    status = active;
    updated_at = now;
    audit_log = r.audit_log ++ entry now author "rollback" reason v.revision_id target ∷ [];
  }

  -- `Catalog.RollbackToVersion`.
  unfoldable pub rollback :
      ℕ → (id : String) → ℕ → (author reason : String) → Catalog B → Reply B (Revision B)
  unfolding rolled_back
  rollback now id target author reason c = need (lookup id c.records) (λ r.
      need (get_version target r.revisions) (λ v.
        done
          (record {
            records = insert id (rolled_back now target author reason v r) c.records;
            deps = update_dependencies id v.manifest c.deps;
          })
          v))

  -- The record after `SetScenarioStatus`.
  unfoldable pub marked :
      ℕ → ScenarioStatus → (author reason : String) → ScenarioRecord B → ScenarioRecord B
  marked now status author reason r = record r {
    status = status;
    updated_at = now;
    audit_log =
        r.audit_log ++ entry now author ("set_status_" <> status_name status) reason "" 0 ∷ [];
  }

  -- `Catalog.SetScenarioStatus`.
  unfoldable pub set_status :
      ℕ → (id : String) → ScenarioStatus → (author reason : String) → Catalog B → Reply B Unit
  unfolding marked
  set_status now id status author reason c = need (lookup id c.records) (λ r.
      done
        (record {
          records = insert id (marked now status author reason r) c.records;
          deps = if drops status then remove_scenario id c.deps else c.deps;
        })
        tt)

  unfoldable pub active_of : ScenarioRecord B → Reply B (Revision B) → Reply B (Revision B)
  active_of r reply = if str_eq r.active_revision_id "" then failed no_active else reply

  -- `Catalog.GetActiveRevision`.
  unfoldable pub get_active_revision : String → Catalog B → Reply B (Revision B)
  unfolding active_of
  get_active_revision id c =
      need (lookup id c.records)
        (λ r. active_of r (need (get_revision r.active_revision_id r.revisions) (done c)))

-- `CanDeleteCapability` and `CanDeleteEntity`: whether no scenario is listed.
unfoldable pub nobody : List String → Bool
nobody [] = true
nobody (s ∷ ss) = false
