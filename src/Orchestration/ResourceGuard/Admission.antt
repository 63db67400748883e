-- ===== src/Orchestration/ResourceGuard/Admission.antt =====
-- What the guard lets through, and that two live executions never own one resource.
use home_sentinel.Base.{
  ◌≡◌, ◌≢◌, ◌↔◌, inl, inr, refl, ◌∙◌, String, str_eq, eq_iff, true, false, not, ◌||◌, Option, some,
  List, [], ◌∷◌, All, Bool-cases, Option-cases, arith, is_blank,
}
use home_sentinel.Orchestration.ResourceGuard.{
  Execution, Loaded, found, missing, broken, Store, Verdict, free, terminal, weigh, scan, check,
}

-- An execution of the plan that is not over.
abbrev pub IsLive : String → Execution → Type 0
IsLive plan e = (e.plan_id ≡ plan) × (terminal e.status ≡ false)

module _ (store : Store) (plan candidate resource : String)
    (resolve : Execution → Option String) where
  -- An execution that stands in the way of nobody: it is the candidate, or it is gone, or it loads and
  -- is of another plan or over, or it owns something else.
  pub data Clear (id : String) : Type 0 where
    itself : id ≡ candidate → Clear id
    gone : store.load id ≡ missing → Clear id
    over : {e : Execution} → store.load id ≡ found e → (IsLive plan e → ⊥) → Clear id
    elsewhere :
        {e : Execution} {owned : String}
        → store.load id ≡ found e
        → resolve e ≡ some owned
        → owned ≢ resource
        → Clear id

  weigh-free :
      (id : String) (l : Loaded) (rest : Verdict)
      → store.load id ≡ l
      → weigh store plan candidate resource resolve id l rest ≡ free
      → Clear id × (rest ≡ free)
  unfolding weigh
  weigh-free id missing rest loaded h = (gone loaded, h)
  weigh-free id broken rest loaded h = absurd (ground arith)
  weigh-free id (found e) rest loaded h =
      elim (Bool-cases (not (str_eq e.plan_id plan) || terminal e.status)) [
        | inl skip ↦ (
          over loaded (λ live. ground (arith, (eq_iff e.plan_id plan).1 live.0, live.1, skip)),
          ground (arith, h, skip),
        )
        | inr live ↦ elim (Option-cases (resolve e)) [
          | inl unknown ↦ absurd (ground (arith, h, live, unknown))
          | inr (owned, known) ↦ elim (Bool-cases (str_eq owned resource)) [
            | inl same ↦ absurd (ground (arith, h, live, known, same))
            | inr other ↦ (
              elsewhere loaded known (λ e. ground (arith, (eq_iff owned resource).1 e, other)),
              ground (arith, h, live, known, other),
            )
          ]
        ]
      ]

  weigh-Clear :
      (id : String) (rest : Verdict)
      → Clear id
      → str_eq id candidate ≡ false
      → weigh store plan candidate resource resolve id (store.load id) rest ≡ rest
  unfolding weigh
  weigh-Clear id rest (itself e) other = absurd (ground (arith, (eq_iff id candidate).1 e, other))
  weigh-Clear id rest (gone loaded) other = rw loaded refl
  weigh-Clear id rest (over {e} loaded dead) other =
      elim (Bool-cases (not (str_eq e.plan_id plan) || terminal e.status)) [
        | inl skip ↦ rw (loaded, skip) refl
        | inr live ↦
            absurd (dead ((eq_iff e.plan_id plan).0 (ground (arith, live)), ground (arith, live)))
      ]
  weigh-Clear id rest (elsewhere {e} {owned} loaded known apart) other =
      elim (Bool-cases (not (str_eq e.plan_id plan) || terminal e.status)) [
        | inl skip ↦ rw (loaded, skip) refl
        | inr live ↦ elim (Bool-cases (str_eq owned resource)) [
          | inl same ↦ absurd (apart ((eq_iff owned resource).0 same))
          | inr differ ↦ rw (loaded, live, known, differ) refl
        ]
      ]

  scan_iff :
      (ids : List String) → (scan store plan candidate resource resolve ids ≡ free) ↔ All Clear ids
  unfolding scan
  scan_iff [] = ((λ _. tt), λ _. refl)
  scan_iff (id ∷ ids) =
      let ih = scan_iff ids in
      elim (Bool-cases (str_eq id candidate)) [
        | inl same ↦ rw same ((λ h. (itself ((eq_iff id candidate).0 same), ih.0 h)), λ c. ih.1 c.1)
        | inr other ↦ rw other (
          (λ h. let (clear, rest) = weigh-free id (store.load id) _ refl h in (clear, ih.0 rest)),
          λ c. weigh-Clear id _ c.0 other ∙ ih.1 c.1,
        )
      ]

  -- The arguments are given and the store lists its executions.
  pub record Asked (ids : List String) : Type 0 where
    pub named : (is_blank plan || (is_blank candidate || is_blank resource)) ≡ false
    pub catalog : store.has_catalog ≡ true
    pub listed : store.list_ids ≡ some ids

  -- `Check` lets a candidate through exactly when it is asked in full, the store lists its executions,
  -- and each of them stands in the way of nobody: a listed execution that cannot be loaded, or whose
  -- resource cannot be read while it is live, refuses the candidate as one that owns the resource does.
  pub check_iff :
      (check store plan candidate resource resolve ≡ free)
      ↔ ((ids : List String) × (Asked ids × All Clear ids))
  unfolding check
  check_iff = (
    (λ h. elim (Bool-cases (is_blank plan || (is_blank candidate || is_blank resource))) [
      | inl blank ↦ absurd (ground (arith, h, blank))
      | inr named ↦ elim (Bool-cases store.has_catalog) [
        | inl catalog ↦ elim (Option-cases store.list_ids) [
          | inl failed ↦ absurd (ground (arith, h, named, catalog, failed))
          | inr (ids, listed) ↦ (
            ids,
            (
              record { named = named; catalog = catalog; listed = listed },
              (scan_iff ids).0 (ground (arith, h, named, catalog, listed)),
            ),
          )
        ]
        | inr without ↦ absurd (ground (arith, h, named, without))
      ]
    ]),
    λ (ids, (asked, clear)). rw (asked.named, asked.catalog, asked.listed) ((scan_iff ids).1 clear),
  )
