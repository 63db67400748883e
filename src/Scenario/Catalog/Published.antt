-- ===== src/Scenario/Catalog/Published.antt =====
-- What a write of a revision or of a record leaves of a published revision.
use home_sentinel.Base.{
  ◌≡◌, refl, sym, ap, ◌∙◌, inl, inr, String, str_eq, eq_iff, Bool, true, false, Option, none, some,
  List, [], ◌∷◌, ◌++◌, arith, Bool-cases, Option-cases, if◌then◌else◌, Dict, lookup, insert,
  lookup-insert, eq_refl,
}
use home_sentinel.Scenario.Catalog.{Revision, ScenarioRecord, is_published, get_revision, write}

module _ {B : Type 0} where
  -- A published revision, without its record of a simulation.
  abbrev pub frozen : Option (Revision B) → Option (Revision B)
  frozen none = none
  frozen (some v) = if is_published v.state then some (record v { simulation = none }) else none

  abbrev pub frozen_record : String → Option (ScenarioRecord B) → Option (Revision B)
  frozen_record rev none = none
  frozen_record rev (some r) = frozen (get_revision rev r.revisions)

  -- The published revision of a name in the catalog's records.
  abbrev pub published_in : (id rev : String) → Dict (ScenarioRecord B) → Option (Revision B)
  published_in id rev records = frozen_record rev (lookup id records)

  pub get_revision-name :
      (rev : String) (vs : List (Revision B)) (v : Revision B)
      → get_revision rev vs ≡ some v
      → str_eq v.revision_id rev ≡ true
  unfolding get_revision
  get_revision-name rev [] v h = absurd (cc)
  get_revision-name rev (x ∷ xs) v h = elim (Bool-cases (str_eq x.revision_id rev)) [
    | inl e ↦ ground (arith, h, e)
    | inr e ↦ get_revision-name rev xs v (ground (arith, h, e))
  ]

  -- What `GetRevision` finds after a write, where the revision keeps its name.
  abbrev pub over : Bool → Revision B → Option (Revision B) → Option (Revision B)
  over same w none = none
  over same w (some v) = if same then some w else some v

  pub over-other : (w : Revision B) (o : Option (Revision B)) → over false w o ≡ o
  over-other w none = refl
  over-other w (some v) = refl

  pub get_revision-write :
      (rev other : String) (w : Revision B) (vs : List (Revision B))
      → str_eq w.revision_id rev ≡ true
      → get_revision other (write rev w vs) ≡ over (str_eq rev other) w (get_revision other vs)
  unfolding get_revision write
  get_revision-write rev other w [] h = refl
  get_revision-write rev other w (v ∷ vs) h =
      let ih = get_revision-write rev other w vs h in
      ground (
        arith,
        h,
        ih,
        eq_iff w.revision_id rev,
        eq_iff v.revision_id rev,
        eq_iff rev other,
        eq_iff w.revision_id other,
        eq_iff v.revision_id other,
      )

  pub get_revision-append :
      (rev : String) (vs ws : List (Revision B)) (v : Revision B)
      → get_revision rev vs ≡ some v
      → get_revision rev (vs ++ ws) ≡ some v
  unfolding get_revision
  get_revision-append rev [] ws v h = absurd (cc)
  get_revision-append rev (x ∷ xs) ws v h = elim (Bool-cases (str_eq x.revision_id rev)) [
    | inl e ↦ ground (arith, h, e)
    | inr e ↦ rw (e) (get_revision-append rev xs ws v (ground (arith, h, e)))
  ]

  -- A record is replaced by one that shows the same published revision.
  pub insert-frozen :
      (id rev at : String) (w : ScenarioRecord B) (records : Dict (ScenarioRecord B))
      (p : Revision B)
      → published_in id rev records ≡ some p
      → (frozen_record rev (lookup at records) ≡ some p
          → frozen (get_revision rev w.revisions) ≡ some p)
      → published_in id rev (insert at w records) ≡ some p
  insert-frozen id rev at w records p h keeps = elim (Bool-cases (str_eq at id)) [
    | inl e ↦
        let q = (eq_iff at id).0 e in
        rw (lookup-insert at id w records, e)
          (keeps (ap (λ k. frozen_record rev (lookup k records)) q ∙ h))
    | inr e ↦ rw (lookup-insert at id w records, e) h
  ]

  -- A revision is written over by one that is published just as well.
  pub write-frozen :
      (rev at : String) (v w : Revision B) (vs : List (Revision B)) (p : Revision B)
      → get_revision at vs ≡ some v
      → str_eq w.revision_id at ≡ true
      → (str_eq at rev ≡ true → frozen (some v) ≡ some p → frozen (some w) ≡ some p)
      → frozen (get_revision rev vs) ≡ some p
      → frozen (get_revision rev (write at w vs)) ≡ some p
  write-frozen rev at v w vs p found named keeps h = elim (Bool-cases (str_eq at rev)) [
    | inl e ↦
        let q = (eq_iff at rev).0 e in
        let g = ap (λ k. get_revision k vs) (sym q) ∙ found in
        rw (get_revision-write at rev w vs named, e, g) (keeps e (ap frozen (sym g) ∙ h))
    | inr e ↦ rw (get_revision-write at rev w vs named, e, over-other w (get_revision rev vs)) h
  ]

  pub draft_not_frozen :
      (v p : Revision B) (A : Type 0) → is_published v.state ≡ false → frozen (some v) ≡ some p → A
  draft_not_frozen v p A h e = absurd (ground (arith, h, e))

  pub append-frozen :
      (rev : String) (vs ws : List (Revision B)) (p : Revision B)
      → frozen (get_revision rev vs) ≡ some p
      → frozen (get_revision rev (vs ++ ws)) ≡ some p
  append-frozen rev vs ws p h = elim (Option-cases (get_revision rev vs)) [
    | inl e ↦ absurd (ground (arith, e, h))
    | inr (v, e) ↦ rw (get_revision-append rev vs ws v e) (ap frozen (sym e) ∙ h)
  ]

  pub lookup-stored :
      (id : String) (r : ScenarioRecord B) (records : Dict (ScenarioRecord B))
      → lookup id (insert id r records) ≡ some r
  lookup-stored id r records = rw (lookup-insert id id r records, eq_refl id) refl
