-- ===== src/Health/Diagnosis.antt =====
-- What a diagnosis blames, and that some failure is a root cause where dependencies have no cycle.
use home_sentinel.Base.{
  ℕ, zero, suc, ◌<◌, ◌≡◌, sym, ap, subst, String, true, some, List, [], ◌∷◌, Any, inl, inr, lookup,
  arith, Bool-cases, Option-cases,
}
use home_sentinel.Health.{
  is_failing, Component, Registry, DependencyGraph, is_failing_component, suppressor, diagnose_one,
}

abbrev Is : String → String → Type 0
Is d x = x ≡ d

-- A dependency that suppresses a failure is listed, and fails itself.
suppressor-some :
    (r : Registry) (deps : List String) (d : String)
    → suppressor r deps ≡ some d
    → Any (Is d) deps × (is_failing_component (lookup d r) ≡ true)
unfolding suppressor
suppressor-some r [] d h = absurd (ground arith)
suppressor-some r (x ∷ deps) d h = elim (Bool-cases (is_failing_component (lookup x r))) [
  | inl fails ↦
      let same : x ≡ d = ground (arith, h, fails) in
      (inl same, subst (λ z. is_failing_component (lookup z r) ≡ true) same fails)
  | inr fine ↦
      let (listed, fails) = suppressor-some r deps d (ground (arith, h, fine)) in
      (inr listed, fails)
]

-- A component of the registry that fails, under its own name.
pub record Failing (r : Registry) (c : Component) : Type 0 where
  pub stored : lookup c.name r ≡ some c
  pub fails : is_failing c.status ≡ true

-- Each component is stored under its own name.
abbrev pub IsNamed : Registry → Type 0
IsNamed r = (n : String) (c : Component) → lookup n r ≡ some c → c.name ≡ n

Failing-stored :
    (r : Registry) (n : String)
    → IsNamed r
    → is_failing_component (lookup n r) ≡ true
    → (c : Component) × (Failing r c × (c.name ≡ n))
Failing-stored r n named h = elim (Option-cases (lookup n r)) [
  | inl absent ↦ absurd (ground (arith, h, absent))
  | inr (c, there) ↦
      let name = named n c there in
      (
        c,
        (
          record {
            stored = subst (λ m. lookup m r ≡ some c) (sym name) there;
            fails = ground (arith, h, there);
          },
          name,
        ),
      )
]

module _ (r : Registry) (graph : DependencyGraph) (rank : String → ℕ) where
  -- Each dependency has a smaller rank than what depends on it: there is no cycle.
  abbrev pub IsRanked : Type 0
  IsRanked = (n d : String) → Any (Is d) (graph n) → rank d < rank n

  search_root :
      (fuel : ℕ)
      → IsNamed r
      → IsRanked
      → (c : Component) → Failing r c
      → rank c.name < fuel
      → (root : Component) × (Failing r root × ((diagnose_one r graph root).root_cause ≡ true))
  unfolding diagnose_one
  search_root zero named ranked c f few = absurd (omega (arith, few))
  search_root (suc fuel) named ranked c f few = elim (Option-cases (suppressor r (graph c.name))) [
    | inl nobody ↦ (c, (f, ground (arith, f.fails, nobody)))
    | inr (d, blamed) ↦
        let (listed, fails) = suppressor-some r (graph c.name) d blamed in
        let (e, (g, name)) = Failing-stored r d named fails in
        let below = ranked c.name d listed in
        search_root fuel named ranked e g (ground (arith, few, below, ap rank name))
  ]

  -- Where a component fails and dependencies have no cycle, the diagnosis of some failing component
  -- says that it is a root cause.
  pub diagnose_finds :
      (c : Component)
      → IsNamed r
      → IsRanked
      → Failing r c
      → (root : Component) × (Failing r root × ((diagnose_one r graph root).root_cause ≡ true))
  diagnose_finds c named ranked f = search_root (suc (rank c.name)) named ranked c f (omega arith)
