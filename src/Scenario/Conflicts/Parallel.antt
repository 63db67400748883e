-- ===== src/Scenario/Conflicts/Parallel.antt =====
-- When the check for contradictory actions in parallel branches is silent.
use home_sentinel.Base.{
  ◌≡◌, ◌≢◌, ◌↔◌, refl, ◌∙◌, String, str_eq, eq_iff, false, some, List, [], ◌∷◌, ◌++◌, All, Dict,
  lookup, insert, lookup-insert, arith, Bool-cases, inl, inr,
}
use home_sentinel.Scenario.Model.{Flow, Branches, branch}
use home_sentinel.Scenario.Conflicts.Resources.{Use, flow_uses, branch_uses, differs, check_uses}

-- A later use of the same resource is of the same capability.
abbrev pub Consistent : Use → List Use → Type 0
Consistent u = All (λ v. u.resource ≡ v.resource → u.capability ≡ v.capability)

abbrev pub Uniform : List Use → Type 0
Uniform [] = Unit
Uniform (u ∷ us) = Consistent u us × Uniform us

-- No use differs from the last capability that the map holds for its resource.
abbrev Agrees : Dict String → List Use → Type 0
Agrees last = All (λ u. differs (lookup u.resource last) u.capability ≡ false)

module _ (u : Use) (last : Dict String)
    (fits : differs (lookup u.resource last) u.capability ≡ false) where
  abbrev next : Dict String
  next = insert u.resource u.capability last

  Agrees-split : (us : List Use) → Agrees next us → Agrees last us × Consistent u us
  Agrees-split [] h = (tt, tt)
  Agrees-split (v ∷ us) h =
      let (agrees, same) = Agrees-split us h.1 in
      let (one, two) = first v h.0 in ((one, agrees), (two, same))
    where
      first :
          (v : Use)
          → differs (lookup v.resource next) v.capability ≡ false
          → (differs (lookup v.resource last) v.capability ≡ false)
            × (u.resource ≡ v.resource → u.capability ≡ v.capability)
      first v h = elim (Bool-cases (str_eq u.resource v.resource)) [
        | inl same ↦
            let named = (eq_iff u.resource v.resource).0 same in
            let held : lookup v.resource next ≡ some u.capability =
              lookup-insert u.resource v.resource u.capability last ∙ rw same refl in
            let own : u.capability ≡ v.capability =
              ground (arith, eq_iff u.capability v.capability) in
            (rw (← named) (rw (← own) fits), λ _. own)
        | inr other ↦
            let held : lookup v.resource next ≡ lookup v.resource last =
              lookup-insert u.resource v.resource u.capability last ∙ rw other refl in
            (rw held at h, λ e. absurd (ground (arith, eq_iff u.resource v.resource)))
      ]

  Agrees-join : (us : List Use) → Agrees last us → Consistent u us → Agrees next us
  Agrees-join [] h c = tt
  Agrees-join (v ∷ us) h c = (
    ground (
      arith,
      lookup-insert u.resource v.resource u.capability last,
      eq_iff u.resource v.resource,
      eq_iff u.capability v.capability,
      c.0,
    ),
    Agrees-join us h.1 c.1,
  )

check_uses_iff :
    (last : Dict String) (us : List Use) → (check_uses last us ≡ []) ↔ (Agrees last us × Uniform us)
unfolding check_uses
check_uses_iff last [] = ((λ _. (tt, tt)), λ _. refl)
check_uses_iff last (u ∷ us) = elim (Bool-cases (differs (lookup u.resource last) u.capability)) [
  | inl clash ↦ (rw clash (λ h. cc), λ h. absurd (ground arith))
  | inr fits ↦
      let (there, back) = check_uses_iff (insert u.resource u.capability last) us in
      (
        rw fits (λ h.
            let (agrees, uniform) = there h in
            let (old, same) = Agrees-split u last fits us agrees in ((refl, old), (same, uniform))),
        λ h. rw fits (back (Agrees-join u last fits us h.0.1 h.1.0, h.1.1)),
      )
]

Agrees-nil : (us : List Use) → Agrees [] us
unfolding lookup
Agrees-nil [] = tt
Agrees-nil (u ∷ us) = (refl, Agrees-nil us)

-- The check of a parallel step is silent exactly when all uses of a resource by the steps of its
-- branches are of one capability.
pub check_uses-silent :
    (bs : Branches) → (check_uses [] (branch_uses bs) ≡ []) ↔ Uniform (branch_uses bs)
check_uses-silent bs =
    let (there, back) = check_uses_iff [] (branch_uses bs) in
    ((λ h. (there h).1), λ h. back (Agrees-nil (branch_uses bs), h))

-- Two steps of one branch, which run one after the other, that use a resource with different
-- capabilities are reported as a conflict of parallel branches, whatever the other branches do.
pub check_uses-one_branch :
    (f : Flow) (bs : Branches) (u v : Use) (us : List Use)
    → flow_uses f ≡ u ∷ v ∷ us
    → u.resource ≡ v.resource
    → u.capability ≢ v.capability
    → check_uses [] (branch_uses (branch f bs)) ≢ []
unfolding branch_uses
check_uses-one_branch f bs u v us shape same differ silent =
    let uniform = (check_uses-silent (branch f bs)).0 silent in
    let uniform' : Uniform (u ∷ v ∷ us ++ branch_uses bs) = rw shape at uniform in
    differ (uniform'.0.0 same)
