-- ===== src/Scenario/Capability/Version/Order.antt =====
-- internal/scenario/capability/version.go: backward compatibility is an order.
use home_sentinel.Base.{◌≡◌, sym, ap, ◌∙◌, String, true, Option, none, some, arith}
use home_sentinel.Scenario.Capability.Version.{
  SemVer, parse_version, compare_version, serves, both, backward_compatible,
}

serves_refl : (v : SemVer) → serves v v ≡ true
unfolding serves compare_version
serves_refl v = ground arith

serves_trans : (a b c : SemVer) → serves a b ≡ true → serves b c ≡ true → serves a c ≡ true
unfolding serves compare_version
serves_trans a b c h k = ground arith

serves_antisymm : (a b : SemVer) → serves a b ≡ true → serves b a ≡ true → a ≡ b
unfolding serves compare_version
serves_antisymm a b h k = ground arith

both_refl : (a : Option SemVer) (v : SemVer) → a ≡ some v → both serves a a ≡ true
both_refl a v h = rw (h) (serves_refl v)

both_trans :
    (a b c : Option SemVer)
    → both serves a b ≡ true
    → both serves b c ≡ true
    → both serves a c ≡ true
both_trans (some a) (some b) (some c) h k = serves_trans a b c h k
both_trans (some a) (some b) none h k = k
both_trans (some a) none c h k = absurd (ground (arith, h))
both_trans none b c h k = h

both_antisymm : (a b : Option SemVer) → both serves a b ≡ true → both serves b a ≡ true → a ≡ b
both_antisymm (some a) (some b) h k = ap some (serves_antisymm a b h k)
both_antisymm (some a) none h k = absurd (ground (arith, h))
both_antisymm none b h k = absurd (ground (arith, h))

-- Backward compatibility is a preorder on the texts that are versions, and two texts that serve each other
-- stand for the same version: a later candidate that serves a candidate serves what that one serves.
pub backward_compatible-IsOrder :
    (a b c : String) (v : SemVer)
    → parse_version a ≡ some v
    → (backward_compatible a a ≡ true)
      × (backward_compatible a b ≡ true
          → backward_compatible b c ≡ true
          → backward_compatible a c ≡ true)
      × (backward_compatible a b ≡ true → backward_compatible b a ≡ true → parse_version b ≡ some v)
unfolding backward_compatible
backward_compatible-IsOrder a b c v h = (
  both_refl (parse_version a) v h,
  both_trans (parse_version a) (parse_version b) (parse_version c),
  λ p q. sym (both_antisymm (parse_version a) (parse_version b) p q) ∙ h,
)
