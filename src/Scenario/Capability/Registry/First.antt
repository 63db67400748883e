-- ===== src/Scenario/Capability/Registry/First.antt =====
-- internal/scenario/capability/registry.go: which of several capabilities with equal versions the loop of
-- `ResolveCompatible` keeps.
use home_sentinel.Base.{
  ◌≡◌, ◌↔◌, refl, sym, ◌∙◌, ap, inl, inr, ◌⊎◌, String, Bool, true, false, Option, none, some, [],
  ◌∷◌, Dict, arith, Bool-cases,
}
use home_sentinel.Scenario.Capability.Version.{SemVer, compare_version, is_gt}
use home_sentinel.Scenario.Capability.Descriptor.{Descriptor}
use home_sentinel.Scenario.Capability.Registry.Resolve.{
  version_at, is_candidate, better, best_over, IsLatest, IsUnserved, IsResult, best_over-IsResult,
  some-injective, none-some,
}

-- One version is later than another.
abbrev pub later : SemVer → SemVer → Bool
later a b = is_gt (compare_version a b)

later_trans : (a b c : SemVer) → later a b ≡ true → later b c ≡ true → later a c ≡ true
unfolding compare_version
later_trans a b c h k = ground arith

later_than_all : (a b c : SemVer) → later a b ≡ true → later c b ≡ false → later a c ≡ true
unfolding compare_version
later_than_all a b c h k = ground arith

module _ (id required : String) where
  -- A descriptor is an entry that serves the requirement; each one before it that serves it has an earlier
  -- version, and no one behind it that serves it has a later version.
  abbrev pub IsFirst : Descriptor → Dict Descriptor → Type 0
  IsFirst d [] = ⊥
  IsFirst d (entry ∷ rest) =
      ((d ≡ entry.1)
        × (is_candidate id required entry.1 ≡ true)
        × IsLatest id required (version_at d) rest)
      ⊎ ((is_candidate id required entry.1 ≡ true
            → later (version_at d) (version_at entry.1) ≡ true)
          × IsFirst d rest)

  -- The result is later than the best so far.
  abbrev IsAfter : Option Descriptor → Descriptor → Type 0
  IsAfter none d = Unit
  IsAfter (some b) d = later (version_at d) (version_at b) ≡ true

  -- The loop keeps the best so far, or finds the first of the latest entries.
  abbrev Keeps : Option Descriptor → Dict Descriptor → Descriptor → Type 0
  Keeps best ds d =
      ((best ≡ some d) × IsLatest id required (version_at d) ds) ⊎ (IsAfter best d × IsFirst d ds)

  Keeps-skip :
      (entry : String × Descriptor) (rest : Dict Descriptor) (best : Option Descriptor)
      → (d : Descriptor) → is_candidate id required entry.1 ≡ false
      → Keeps best rest d
      → Keeps best (entry ∷ rest) d
  Keeps-skip entry rest best d h (inl (e, l)) = inl (e, ((λ g. absurd (ground (arith, g, h))), l))
  Keeps-skip entry rest best d h (inr (a, f)) =
      inr (a, inr ((λ g. absurd (ground (arith, g, h))), f))

  Keeps-take :
      (entry : String × Descriptor) (rest : Dict Descriptor) (best : Option Descriptor)
      → (d : Descriptor) → is_candidate id required entry.1 ≡ true
      → Keeps (better entry.1 best) rest d
      → Keeps best (entry ∷ rest) d
  Keeps-take entry rest none d h (inl (e, l)) =
      inr (tt, inl (sym (some-injective entry.1 d e), h, l))
  Keeps-take entry rest none d h (inr (a, f)) = inr (tt, inr ((λ g. a), f))
  Keeps-take entry rest (some b) d h k =
      let split : Keeps (better entry.1 (some b)) rest d → Keeps (some b) (entry ∷ rest) d =
        elim (Bool-cases (later (version_at entry.1) (version_at b))) [
          | inl y ↦ rw (y) (newer y)
          | inr n ↦ rw (n) (older n)
        ] in
      split k
    where
      newer :
          later (version_at entry.1) (version_at b) ≡ true
          → Keeps (some entry.1) rest d
          → Keeps (some b) (entry ∷ rest) d
      newer y (inl (e, l)) =
          let same = some-injective entry.1 d e in inr (rw (sym same) y, inl (sym same, h, l))
      newer y (inr (a, f)) =
          inr
            (later_trans (version_at d) (version_at entry.1) (version_at b) a y, inr ((λ g. a), f))

      older :
          later (version_at entry.1) (version_at b) ≡ false
          → Keeps (some b) rest d
          → Keeps (some b) (entry ∷ rest) d
      older n (inl (e, l)) = inl (e, ((λ g. rw (sym (some-injective b d e)) n), l))
      older n (inr (a, f)) =
          inr (
            a,
            inr ((λ g. later_than_all (version_at d) (version_at b) (version_at entry.1) a n), f),
          )

  over_take :
      (entry : String × Descriptor) (rest : Dict Descriptor) (best : Option Descriptor)
      → is_candidate id required entry.1 ≡ true
      → best_over id required (entry ∷ rest) best ≡ best_over id required rest (better entry.1 best)
  unfolding best_over
  over_take entry rest best y = rw (y) refl

  over_skip :
      (entry : String × Descriptor) (rest : Dict Descriptor) (best : Option Descriptor)
      → is_candidate id required entry.1 ≡ false
      → best_over id required (entry ∷ rest) best ≡ best_over id required rest best
  unfolding best_over
  over_skip entry rest best n = rw (n) refl

  over_end : (best : Option Descriptor) → best_over id required [] best ≡ best
  unfolding best_over
  over_end best = refl

  best_over-Keeps :
      (ds : Dict Descriptor) (best : Option Descriptor) (d : Descriptor)
      → best_over id required ds best ≡ some d
      → Keeps best ds d
  best_over-Keeps [] best d e = inl (sym (over_end best) ∙ e, tt)
  best_over-Keeps (entry ∷ rest) best d e = elim (Bool-cases (is_candidate id required entry.1)) [
    | inl y ↦
        Keeps-take entry rest best d y
          (best_over-Keeps rest (better entry.1 best) d (sym (over_take entry rest best y) ∙ e))
    | inr n ↦
        Keeps-skip entry rest best d n
          (best_over-Keeps rest best d (sym (over_skip entry rest best n) ∙ e))
  ]

  -- An entry that is the first of the latest is later than no entry that none is later than.
  first_not_over :
      (ds : Dict Descriptor) (d x : Descriptor)
      → IsLatest id required (version_at d) ds
      → IsFirst x ds
      → later (version_at x) (version_at d) ≡ false
  first_not_over [] d x l f = absurd f
  first_not_over (entry ∷ rest) d x (a, l) (inl (e, c, m)) = rw (e) (a c)
  first_not_over (entry ∷ rest) d x (a, l) (inr (b, f)) = first_not_over rest d x l f

  first_clash :
      (ds : Dict Descriptor) (y d x : Descriptor)
      → d ≡ y
      → IsLatest id required (version_at d) ds
      → later (version_at x) (version_at y) ≡ true
      → IsFirst x ds
      → ⊥
  first_clash ds y d x e l b g =
      let n = first_not_over ds d x l g in
      let b2 : later (version_at x) (version_at d) ≡ true = rw (e) b in ground (arith, n, b2)

  first_unique : (ds : Dict Descriptor) (d x : Descriptor) → IsFirst d ds → IsFirst x ds → d ≡ x
  first_unique [] d x f g = absurd f
  first_unique (entry ∷ rest) d x (inl (e, c, l)) (inl (e2, c2, l2)) = cc
  first_unique (entry ∷ rest) d x (inl (e, c, l)) (inr (b, g)) =
      absurd (first_clash rest entry.1 d x e l (b c) g)
  first_unique (entry ∷ rest) d x (inr (a, f)) (inl (e, c, l)) =
      absurd (first_clash rest entry.1 x d e l (a c) f)
  first_unique (entry ∷ rest) d x (inr (a, f)) (inr (b, g)) = first_unique rest d x f g

  first_served :
      (ds : Dict Descriptor) (d : Descriptor) → IsFirst d ds → IsUnserved id required ds → ⊥
  first_served [] d f u = f
  first_served (entry ∷ rest) d (inl (e, c, l)) (n, u) = ground (arith, c, n)
  first_served (entry ∷ rest) d (inr (a, f)) (n, u) = first_served rest d f u

  kept : (ds : Dict Descriptor) (d : Descriptor) → Keeps none ds d → IsFirst d ds
  kept ds d (inl (e, l)) = absurd (none-some d (sym e))
  kept ds d (inr (a, f)) = f

  first-best_over :
      (ds : Dict Descriptor) (d : Descriptor) (x : Option Descriptor)
      → x ≡ best_over id required ds none
      → IsResult id required ds none x
      → IsFirst d ds
      → x ≡ some d
  first-best_over ds d none e (a, u) f = absurd (first_served ds d f u)
  first-best_over ds d (some x) e r f =
      ap some (first_unique ds x d (kept ds x (best_over-Keeps ds none x (sym e))) f)

  -- The loop of `ResolveCompatible` keeps a descriptor if and only if it is the first, in the order in which the
  -- map is ranged over, of those of the latest version that serves the requirement: each entry before it that
  -- serves the requirement has an earlier version, and no entry behind it that serves it has a later one. Two
  -- entries whose texts stand for one version, such as `1.0.0` and `01.0.0`, are told apart by that order only.
  pub best_over-IsFirst :
      (ds : Dict Descriptor) (d : Descriptor)
      → (best_over id required ds none ≡ some d) ↔ IsFirst d ds
  best_over-IsFirst ds d = (
    (λ e. kept ds d (best_over-Keeps ds none d e)),
    λ f.
        first-best_over ds d (best_over id required ds none) refl
          (best_over-IsResult id required ds none) f,
  )
