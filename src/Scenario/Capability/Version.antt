-- ===== src/Scenario/Capability/Version.antt =====
-- internal/scenario/capability/version.go, on code points; `int` has 64 bits.
pub mod RoundTrip
pub mod Order
use Prim.Native.Nat.{Ordering, compare}
use home_sentinel.Base.{
  ℕ, ◌+◌, ◌-◌, ◌*◌, ◌^◌, String, ◌<>◌, codes, trim, show, Bool, true, false, not, ◌&&◌, ◌||◌,
  Option, none, some, List, [], ◌∷◌, every, leb, ltb, ◌==◌, if◌then◌else◌,
}
use home_sentinel.Scenario.Expression.{split_codes}

pub record SemVer : Type 0 where
  pub major : ℕ
  pub minor : ℕ
  pub patch : ℕ

abbrev pub max_int : ℕ
max_int = 2 ^ 63 - 1

abbrev pub is_digit : ℕ → Bool
is_digit c = leb b'0' c && leb c b'9'

-- The number that digits stand for, after those that were read.
unfoldable pub value_from : ℕ → List ℕ → ℕ
value_from n [] = n
value_from n (c ∷ s) = value_from (n * 10 + (c - b'0')) s

abbrev pub is_empty : List ℕ → Bool
is_empty [] = true
is_empty (c ∷ s) = false

-- One part: digits only, and `strconv.Atoi`, which fails above the largest `int`.
unfoldable pub parse_part : List ℕ → Option ℕ
unfolding value_from
parse_part part =
    if is_empty part || not (every is_digit part)
    then none
    else if leb (value_from 0 part) max_int
    then some (value_from 0 part)
    else none

abbrev pub version_of : Option ℕ → Option ℕ → Option ℕ → Option SemVer
version_of (some a) (some b) (some c) = some (record { major = a; minor = b; patch = c })
version_of _ _ _ = none

abbrev pub of_parts : List (List ℕ) → Option SemVer
of_parts (a ∷ b ∷ c ∷ []) = version_of (parse_part a) (parse_part b) (parse_part c)
of_parts _ = none

-- `ParseSemVer`.
unfoldable pub parse_version : String → Option SemVer
unfolding parse_part trim split_codes
parse_version s = of_parts (split_codes (trim (codes s)))

-- `SemVer.String`.
unfoldable pub version_text : SemVer → String
unfolding show
version_text v = show v.major <> ("." <> (show v.minor <> ("." <> show v.patch)))

-- `compareVersion`, with the sign of its result.
unfoldable pub compare_version : SemVer → SemVer → Ordering
compare_version l r =
    if not (l.major == r.major)
    then (if ltb l.major r.major then Ordering.lt else Ordering.gt)
    else if not (l.minor == r.minor)
    then (if ltb l.minor r.minor then Ordering.lt else Ordering.gt)
    else if ltb l.patch r.patch
    then Ordering.lt
    else if ltb r.patch l.patch
    then Ordering.gt
    else Ordering.eq

abbrev pub is_lt : Ordering → Bool
is_lt Ordering.lt = true
is_lt _ = false

abbrev pub is_gt : Ordering → Bool
is_gt Ordering.gt = true
is_gt _ = false

-- The tests of `IsBackwardCompatible` on two versions.
unfoldable pub serves : (required candidate : SemVer) → Bool
unfolding compare_version
serves req cand =
    if not (cand.major == req.major) || is_lt (compare_version cand req)
    then false
    else if req.major == 0 && not (cand.minor == req.minor)
    then false
    else true

abbrev pub both : (SemVer → SemVer → Bool) → Option SemVer → Option SemVer → Bool
both f (some a) (some b) = f a b
both f _ _ = false

-- `IsBackwardCompatible`.
unfoldable pub backward_compatible : (required candidate : String) → Bool
unfolding parse_version serves
backward_compatible required candidate =
    both serves (parse_version required) (parse_version candidate)
