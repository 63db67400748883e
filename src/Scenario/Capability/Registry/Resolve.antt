-- ===== src/Scenario/Capability/Registry/Resolve.antt =====
-- internal/scenario/capability/registry.go: the version that serves a requirement.
use home_sentinel.Base.{
  ◌≡◌, refl, sym, ap, inl, inr, ◌⊎◌, String, str_eq, Bool, true, false, not, ◌||◌, Option, none,
  some, [], ◌∷◌, if◌then◌else◌, Dict, arith, Bool-cases,
}
use home_sentinel.Scenario.Values.{Json}
use home_sentinel.Scenario.Capability.Version.{
  SemVer, parse_version, compare_version, backward_compatible, both, serves, is_gt,
}
use home_sentinel.Scenario.Capability.Descriptor.{Descriptor, is_some}
use home_sentinel.Scenario.Capability.Descriptor.Validate.{clone_descriptor}
use home_sentinel.Scenario.Capability.Registry.{Registry}

-- `version, _ := ParseSemVer(...)`: an error leaves the zero version.
abbrev version_or_zero : Option SemVer → SemVer
version_or_zero none = record { major = 0; minor = 0; patch = 0 }
version_or_zero (some v) = v

unfoldable pub version_at : Descriptor → SemVer
unfolding parse_version
version_at d = version_or_zero (parse_version d.key.version)

unfoldable pub is_candidate : (id required : String) → Descriptor → Bool
unfolding backward_compatible
is_candidate id required d =
    if not (str_eq d.key.id id) || not (backward_compatible required d.key.version)
    then false
    else true

-- The best version so far, and its descriptor.
abbrev pub better : Descriptor → Option Descriptor → Option Descriptor
better d none = some d
better d (some b) = if is_gt (compare_version (version_at d) (version_at b)) then some d else some b

-- The loop of `ResolveCompatible`, with `best` so far; `bestVersion` is its version.
unfoldable pub best_over :
    (id required : String) → Dict Descriptor → Option Descriptor → Option Descriptor
unfolding is_candidate compare_version version_at
best_over id required [] best = best
best_over id required (entry ∷ rest) best =
    let skip = best_over id required rest best in
    let take = best_over id required rest (better entry.1 best) in
    if is_candidate id required entry.1 then take else skip

abbrev clone_of : Json → Option Descriptor → Option Descriptor
clone_of j none = none
clone_of j (some d) = clone_descriptor j d

-- `ResolveCompatible`.
unfoldable pub resolve_compatible : Json → (id required : String) → Registry → Option Descriptor
unfolding parse_version best_over clone_descriptor
resolve_compatible j id required r =
    if not (is_some (parse_version required))
    then none
    else clone_of j (best_over id required r.capabilities none)

pub some-injective : (d x : Descriptor) → some d ≡ some x → d ≡ x
some-injective d x e = ap (λ o. elim o as (λ _. Descriptor) [ none ↦ d | some y ↦ y ]) e

pub none-some : (d : Descriptor) → some d ≡ none → ⊥
none-some d e = ground (arith, ap is_some e)

both_none :
    (f : SemVer → SemVer → Bool) (a b : Option SemVer) → is_some a ≡ false → both f a b ≡ false
both_none f none b h = refl
both_none f (some a) b h = absurd (ground (arith, h))

module _ (id required : String) where
  -- No entry serves the requirement.
  abbrev pub IsUnserved : Dict Descriptor → Type 0
  IsUnserved [] = Unit
  IsUnserved (entry ∷ rest) = (is_candidate id required entry.1 ≡ false) × IsUnserved rest

  -- A descriptor is an entry that serves the requirement.
  abbrev pub IsServedBy : Descriptor → Dict Descriptor → Type 0
  IsServedBy d [] = ⊥
  IsServedBy d (entry ∷ rest) =
      ((d ≡ entry.1) × (is_candidate id required entry.1 ≡ true)) ⊎ IsServedBy d rest

  -- No entry that serves the requirement has a later version than `v`.
  abbrev pub IsLatest : SemVer → Dict Descriptor → Type 0
  IsLatest v [] = Unit
  IsLatest v (entry ∷ rest) =
      (is_candidate id required entry.1 ≡ true
        → is_gt (compare_version (version_at entry.1) v) ≡ false)
      × IsLatest v rest

  abbrev pub IsOver : Option Descriptor → SemVer → Type 0
  IsOver none v = Unit
  IsOver (some b) v = is_gt (compare_version (version_at b) v) ≡ false

  abbrev pub IsResult : Dict Descriptor → Option Descriptor → Option Descriptor → Type 0
  IsResult ds best none = (best ≡ none) × IsUnserved ds
  IsResult ds best (some d) =
      ((best ≡ some d) ⊎ IsServedBy d ds) × IsOver best (version_at d) × IsLatest (version_at d) ds

  gt_trans :
      (a b c : SemVer)
      → is_gt (compare_version a b) ≡ false
      → is_gt (compare_version b c) ≡ false
      → is_gt (compare_version a c) ≡ false
  unfolding compare_version
  gt_trans a b c h k = ground arith

  gt_flip :
      (a b : SemVer) → is_gt (compare_version a b) ≡ true → is_gt (compare_version b a) ≡ false
  unfolding compare_version
  gt_flip a b h = ground arith

  gt_refl : (a : SemVer) → is_gt (compare_version a a) ≡ false
  unfolding compare_version
  gt_refl a = ground arith

  skips :
      (entry : String × Descriptor) (rest : Dict Descriptor) (best x : Option Descriptor)
      → is_candidate id required entry.1 ≡ false
      → IsResult rest best x
      → IsResult (entry ∷ rest) best x
  skips entry rest best none h (a, b) = (a, (h, b))
  skips entry rest best (some d) h (inl a, b, c) =
      (inl a, b, ((λ g. absurd (ground (arith, g, h))), c))
  skips entry rest best (some d) h (inr a, b, c) =
      (inr (inr a), b, ((λ g. absurd (ground (arith, g, h))), c))

  -- What the loop keeps of two descriptors is one of them, and later than both.
  better-cases :
      (d : Descriptor) (best : Option Descriptor) (x : Descriptor)
      → (better d best ≡ some x → (d ≡ x) ⊎ (best ≡ some x))
        × (better d best ≡ none → ⊥)
        × (IsOver (better d best) (version_at x)
            → IsOver best (version_at x)
              × (is_gt (compare_version (version_at d) (version_at x)) ≡ false))
  better-cases d none x = ((λ e. inl (some-injective d x e)), (λ e. none-some d e), λ h. (tt, h))
  better-cases d (some b) x =
      elim (Bool-cases (is_gt (compare_version (version_at d) (version_at b)))) [
        | inl y ↦
            let g = gt_flip (version_at d) (version_at b) y in
            rw (y) (
              (λ e. inl (some-injective d x e)),
              (λ e. none-some d e),
              λ h. (gt_trans (version_at b) (version_at d) (version_at x) g h, h),
            )
        | inr n ↦ rw (n) (
          (λ e. inr e),
          (λ e. none-some b e),
          λ h. (h, gt_trans (version_at d) (version_at b) (version_at x) n h),
        )
      ]

  takes :
      (entry : String × Descriptor) (rest : Dict Descriptor) (best x : Option Descriptor)
      → is_candidate id required entry.1 ≡ true
      → IsResult rest (better entry.1 best) x
      → IsResult (entry ∷ rest) best x
  takes entry rest best none h (a, b) = absurd ((better-cases entry.1 best entry.1).1 a)
  takes entry rest best (some d) h (a, b, c) =
      let facts = better-cases entry.1 best d in
      let over = facts.2 b in
      (
        elim a [
          | inl e ↦ elim (facts.0 e) [ inl f ↦ inr (inl (sym f, h)) | inr f ↦ inl f ]
          | inr s ↦ inr (inr s)
        ],
        over.0,
        ((λ g. over.1), c),
      )

  pub best_over-IsResult :
      (ds : Dict Descriptor) (best : Option Descriptor)
      → IsResult ds best (best_over id required ds best)
  unfolding best_over
  best_over-IsResult [] none = (refl, tt)
  best_over-IsResult [] (some b) = (inl refl, gt_refl (version_at b), tt)
  best_over-IsResult (entry ∷ rest) best = elim (Bool-cases (is_candidate id required entry.1)) [
    | inl y ↦ rw (y) (takes entry rest best _ y (best_over-IsResult rest (better entry.1 best)))
    | inr n ↦ rw (n) (skips entry rest best _ n (best_over-IsResult rest best))
  ]

  not_served :
      (version : String)
      → is_some (parse_version required) ≡ false
      → backward_compatible required version ≡ false
  unfolding backward_compatible
  not_served version h = both_none serves (parse_version required) (parse_version version) h

  -- A requirement that is no version is served by nothing.
  unserved : (ds : Dict Descriptor) → is_some (parse_version required) ≡ false → IsUnserved ds
  unfolding is_candidate
  unserved [] h = tt
  unserved (entry ∷ rest) h =
      (rw (not_served entry.1.key.version h) (ground arith), unserved rest h)

  abbrev pub IsResolved : Json → Registry → Type 0
  IsResolved j r =
      (IsUnserved r.capabilities × (resolve_compatible j id required r ≡ none))
      ⊎ ((d : Descriptor) × IsServedBy d r.capabilities
          × IsLatest (version_at d) r.capabilities
          × (resolve_compatible j id required r ≡ clone_descriptor j d))

  -- `ResolveCompatible` finds nothing when no capability of the name serves the requirement. When one does, it
  -- returns a copy of one that serves it, and none that serves it has a later version; this is so for every
  -- order in which the map is ranged over.
  pub resolve_compatible-IsResolved : (j : Json) (r : Registry) → IsResolved j r
  unfolding resolve_compatible
  resolve_compatible-IsResolved j r = elim (Bool-cases (is_some (parse_version required))) [
    | inl y ↦
        rw (y) (
          found (best_over id required r.capabilities none)
            (best_over-IsResult r.capabilities none))
    | inr n ↦ rw (n) (inl (unserved r.capabilities n, refl))
  ]
    where
      found :
          (x : Option Descriptor)
          → IsResult r.capabilities none x
          → (IsUnserved r.capabilities × (clone_of j x ≡ none))
            ⊎ ((d : Descriptor) × IsServedBy d r.capabilities
                × IsLatest (version_at d) r.capabilities
                × (clone_of j x ≡ clone_descriptor j d))
      found none (a, b) = inl (b, refl)
      found (some d) (inl a, b, c) = absurd (none-some d (sym a))
      found (some d) (inr a, b, c) = inr (d, a, c, refl)
