-- ===== src/Orchestration/ResourceGuard/Exclusive.antt =====
-- The guard in front of a durable store: runs in which each execution of the plan starts after the
-- guard let it through, with no other step between the two.
use home_sentinel.Base.{
  ◌≡◌, ◌≢◌, ap, sym, ◌∙◌, subst, String, str_eq, eq_iff, true, false, Option, none, some, [], ◌∷◌,
  map, All, Dict, lookup, insert, lookup-insert, Bool-cases, inl, inr, arith,
}
use home_sentinel.Orchestration.ResourceGuard.{
  Execution, Loaded, found, missing, Store, free, terminal, check,
}
use home_sentinel.Orchestration.ResourceGuard.Admission.{
  IsLive, Clear, itself, gone, over, elsewhere, check_iff,
}

abbrev loaded : Option Execution → Loaded
loaded none = missing
loaded (some e) = found e

-- A store that keeps its executions by ID, and loses none.
abbrev pub store_of : Dict Execution → Store
store_of es = record {
  has_catalog = true;
  list_ids = some (map (λ e. e.0) es);
  load = λ id. loaded (lookup id es);
}

some-injective {ℓ} : {A : Type ℓ} {x y : A} → some x ≡ some y → x ≡ y
some-injective h = cc

-- What holds of all keys holds of a key that is there.
All-lookup :
    (P : String → Type 0) (es : Dict Execution) (id : String) (e : Execution)
    → All P (map (λ x. x.0) es)
    → lookup id es ≡ some e
    → P id
unfolding lookup
All-lookup P [] id e all h = absurd (ground arith)
All-lookup P (x ∷ es) id e all h = elim (Bool-cases (str_eq x.0 id)) [
  | inl same ↦ subst P ((eq_iff x.0 id).0 same) all.0
  | inr other ↦ All-lookup P es id e all.1 (ground (arith, h, other))
]

module _ (plan : String) (resolve : Execution → Option String) where
  -- The steps of the store: the guard lets a candidate through, which starts as a new execution of
  -- the plan on the resource; an execution of another plan starts; or an execution goes on, keeps its
  -- plan and its resource, and does not come back once it is over.
  pub data Step : Dict Execution → Dict Execution → Type 0 where
    admit :
        {es : Dict Execution} (id resource : String) (e : Execution)
        → check (store_of es) plan id resource resolve ≡ free
        → lookup id es ≡ none
        → resolve e ≡ some resource
        → Step es (insert id e es)
    foreign :
        {es : Dict Execution} (id : String) (e : Execution)
        → e.plan_id ≢ plan
        → lookup id es ≡ none
        → Step es (insert id e es)
    advance :
        {es : Dict Execution} (id : String) (e e' : Execution)
        → lookup id es ≡ some e
        → e'.plan_id ≡ e.plan_id
        → resolve e' ≡ resolve e
        → (terminal e.status ≡ true → terminal e'.status ≡ true)
        → Step es (insert id e' es)

  pub data Run (es : Dict Execution) : Dict Execution → Type 0 where
    start : Run es es
    next : {fs gs : Dict Execution} → Run es fs → Step fs gs → Run es gs

  pub record Owns (es : Dict Execution) (id resource : String) : Type 0 where
    pub execution : Execution
    pub stored : lookup id es ≡ some execution
    pub live : IsLive plan execution
    pub resolved : resolve execution ≡ some resource

  -- No resource has two owners.
  abbrev pub Exclusive : Dict Execution → Type 0
  Exclusive es = (r i j : String) → Owns es i r → Owns es j r → i ≡ j

  -- The entry after a write, at the same ID and at another.
  lookup-insert_same :
      (id : String) (e : Execution) (es : Dict Execution) → lookup id (insert id e es) ≡ some e
  lookup-insert_same id e es = ground (arith, lookup-insert id id e es, eq_iff id id)

  Owns-other :
      (es : Dict Execution) (id i r : String) (e : Execution)
      → str_eq id i ≡ false
      → Owns (insert id e es) i r
      → Owns es i r
  Owns-other es id i r e other o = record {
    execution = o.execution;
    stored = ground (arith, lookup-insert id i e es, other, o.stored);
    live = o.live;
    resolved = o.resolved;
  }

  new_owner :
      (es : Dict Execution) (id : String) (e : Execution) (i r : String)
      → str_eq id i ≡ true
      → Owns (insert id e es) i r
      → IsLive plan e × (resolve e ≡ some r)
  new_owner es id e i r same o =
      let is_e : o.execution ≡ e =
        some-injective (sym o.stored ∙ ground (arith, lookup-insert id i e es, same)) in
      (subst (IsLive plan) is_e o.live, ap resolve (sym is_e) ∙ o.resolved)

  -- A write keeps ownership exclusive, if what it makes live clashes with nobody.
  insert-Exclusive :
      (es : Dict Execution) (id : String) (e : Execution)
      → ((r j : String) → IsLive plan e → resolve e ≡ some r → Owns es j r → id ≡ j)
      → Exclusive es
      → Exclusive (insert id e es)
  insert-Exclusive es id e clash old r i j oi oj = elim (Bool-cases (str_eq id i)) [
    | inl same_i ↦ elim (Bool-cases (str_eq id j)) [
      | inl same_j ↦ sym ((eq_iff id i).0 same_i) ∙ (eq_iff id j).0 same_j
      | inr other_j ↦
          let mine = new_owner es id e i r same_i oi in
          sym ((eq_iff id i).0 same_i) ∙ clash r j mine.0 mine.1 (Owns-other es id j r e other_j oj)
    ]
    | inr other_i ↦ elim (Bool-cases (str_eq id j)) [
      | inl same_j ↦
          let mine = new_owner es id e j r same_j oj in
          sym (clash r i mine.0 mine.1 (Owns-other es id i r e other_i oi)) ∙ (eq_iff id j).0 same_j
      | inr other_j ↦
          old r i j (Owns-other es id i r e other_i oi) (Owns-other es id j r e other_j oj)
    ]
  ]

  loaded-found : (o : Option Execution) (e f : Execution) → o ≡ some e → loaded o ≡ found f → f ≡ e
  loaded-found none e f h l = absurd (ground arith)
  loaded-found (some g) e f h l = cc

  -- Nobody whom the guard found clear owns the resource, but the candidate itself.
  Clear-Owns :
      (es : Dict Execution) (candidate resource j : String)
      → Clear (store_of es) plan candidate resource resolve j
      → Owns es j resource
      → candidate ≡ j
  Clear-Owns es candidate resource j (itself e) o = sym e
  Clear-Owns es candidate resource j (gone l) o = absurd (ground (arith, ap loaded o.stored, l))
  Clear-Owns es candidate resource j (over {e} l dead) o =
      absurd (dead (subst (IsLive plan) (sym (loaded-found _ o.execution e o.stored l)) o.live))
  Clear-Owns es candidate resource j (elsewhere {e} {owned} l known apart) o = absurd (
      apart (
        some-injective
          (sym known ∙ (ap resolve (loaded-found _ o.execution e o.stored l) ∙ o.resolved))))

  -- One step keeps ownership exclusive.
  Step-Exclusive : {es fs : Dict Execution} → Step es fs → Exclusive es → Exclusive fs
  Step-Exclusive {es} (admit id resource e let_in new owns) old =
      insert-Exclusive es id e
        (λ r j live resolved o.
          let (ids, (asked, clear)) = (check_iff (store_of es) plan id resource resolve).0 let_in in
          let same : r ≡ resource = some-injective (sym resolved ∙ owns) in
          Clear-Owns es id resource j
            (All-lookup _ es j o.execution (subst (All _) (sym (some-injective asked.listed)) clear)
              o.stored)
            (subst (Owns es j) same o))
        old
  Step-Exclusive {es} (foreign id e other new) old =
      insert-Exclusive es id e (λ r j live resolved o. absurd (other live.0)) old
  Step-Exclusive {es} (advance id e e' stored plan_kept resource_kept done) old =
      insert-Exclusive es id e'
        (λ r j live resolved o.
          old r id j
            (record {
              execution = e;
              stored = stored;
              live = (
                sym plan_kept ∙ live.0,
                ground (arith, done, live.1, Bool-cases (terminal e.status)),
              );
              resolved = sym resource_kept ∙ resolved;
            })
            o)
        old

  -- However long the store has run, no two executions of the plan that are live own one resource.
  pub Run-Exclusive : {es : Dict Execution} → Run [] es → Exclusive es
  unfolding lookup
  Run-Exclusive start = λ r i j oi oj. absurd (ground (arith, oi.stored))
  Run-Exclusive (next run s) = Step-Exclusive s (Run-Exclusive run)
