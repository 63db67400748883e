-- ===== src/Base/Order.antt =====
-- `<` on texts is a strict order.
use Prim.Native.Nat.{Ordering, compare as compare_ℕ}
use Prim.Native.Char.{Char, code}
use Prim.Native.String.compare
use Prim.Native.String.{String, compare, then}
use text.Mathlib.TextPositions.{compare_refl}
use mathlib.Core.Path.{◌≡◌, refl, ap, ◌∙◌}
use mathlib.Core.Bool.{Bool, true, false, ◌&&◌, ◌||◌}
use native.Mathlib.Omega.{arith}
use package.home_sentinel.Base.Tests.{ltb, ◌==◌}
use package.home_sentinel.Base.Sort.{text_before}

abbrev is_eq : Ordering → Bool
is_eq Ordering.eq = true
is_eq _ = false

abbrev is_lt : Ordering → Bool
is_lt Ordering.lt = true
is_lt _ = false

text_before-cons :
    (c d : Char) (s t : String)
    → text_before (String.◌∷◌ c s) (String.◌∷◌ d t)
      ≡ (ltb (code c) (code d) || (code c == code d && text_before s t))
unfolding text_before
text_before-cons c d s t =
    ap is_lt (compare.cons-cons c d s t) ∙ is_lt-then (compare_ℕ (code c) (code d)) (compare s t)
  where
    is_lt-then : (o p : Ordering) → is_lt (then o p) ≡ (is_lt o || (is_eq o && is_lt p))
    is_lt-then Ordering.lt p = refl
    is_lt-then Ordering.eq p = refl
    is_lt-then Ordering.gt p = refl

text_before-nil : (d : Char) (t : String) → text_before String.[] (String.◌∷◌ d t) ≡ true
unfolding text_before
text_before-nil d t = ap is_lt (compare.nil-cons d t)

nothing_before : (s : String) → text_before s String.[] ≡ false
unfolding text_before
nothing_before String.[] = ap is_lt compare.nil-nil
nothing_before (String.◌∷◌ c s) = ap is_lt (compare.cons-nil c s)

pub text_before_irrefl : (a : String) → text_before a a ≡ false
unfolding text_before
text_before_irrefl a = ap is_lt (compare_refl a)

pub text_before_asymm : (a b : String) → text_before a b ≡ true → text_before b a ≡ false
text_before_asymm (String.◌∷◌ c s) (String.◌∷◌ d t) h =
    ground (arith, h, text_before-cons c d s t, text_before-cons d c t s, text_before_asymm s t)
text_before_asymm String.[] String.[] h = text_before_irrefl String.[]
text_before_asymm String.[] (String.◌∷◌ d t) h = nothing_before (String.◌∷◌ d t)
text_before_asymm (String.◌∷◌ c s) String.[] h =
    absurd (ground (arith, h, nothing_before (String.◌∷◌ c s)))

-- `a ≤ b` and `b ≤ c` give `a ≤ c`.
pub text_before_trans :
    (a b c : String) → text_before b a ≡ false → text_before c b ≡ false → text_before c a ≡ false
text_before_trans (String.◌∷◌ x s) (String.◌∷◌ y t) (String.◌∷◌ z u) h k = ground (
  arith,
  h,
  k,
  text_before-cons y x t s,
  text_before-cons z y u t,
  text_before-cons z x u s,
  text_before_trans s t u,
)
text_before_trans String.[] b c h k = nothing_before c
text_before_trans (String.◌∷◌ x s) String.[] c h k = absurd (ground (arith, h, text_before-nil x s))
text_before_trans (String.◌∷◌ x s) (String.◌∷◌ y t) String.[] h k =
    absurd (ground (arith, k, text_before-nil y t))
