-- ===== src/Base/Trim.antt =====
-- Trimming, tests on every character, and code points: lemmas.
use Prim.Native.Char.{Char, code}
use Prim.Native.Nat.{ℕ, zero, suc, ◌+◌, ◌<◌}
use Prim.Native.String.{String}
use mathlib.Core.Path.{◌≡◌, refl, sym, ap, ◌∙◌}
use mathlib.Core.Logic.{inl, inr}
use mathlib.Core.Bool.{Bool, true, false, not}
use mathlib.Core.List.{List, [], ◌∷◌, ◌++◌}
use native.Mathlib.Omega.{arith}
use text.Mathlib.TextEquality.{Char-path}
use package.home_sentinel.Base.Tests.{if◌then◌else◌, &&-left, &&-right, Bool-cases}
use package.home_sentinel.Base.Lists.{every}
use package.home_sentinel.Base.Text.{
  codes, is_space, trim, trim_left, trim_right, trim_front, trim_back, keep_end,
}

pub not-true : (b : Bool) → not b ≡ true → b ≡ false
not-true b h = ground arith

pub trim_right-cons :
    (c : ℕ) (s : List ℕ) → is_space c ≡ false → trim_right s ≡ s → trim_right (c ∷ s) ≡ c ∷ s
unfolding trim_right
trim_right-cons c [] h e = ap (λ b. if b then [] else c ∷ []) h
trim_right-cons c (d ∷ t) h e = rw (e) refl

pub trim_right-solid : (s : List ℕ) → every (λ c. not (is_space c)) s ≡ true → trim_right s ≡ s
unfolding trim_right
trim_right-solid [] h = refl
trim_right-solid (c ∷ s) h =
    trim_right-cons c s
      (not-true (is_space c) (&&-left (not (is_space c)) (every (λ d. not (is_space d)) s) h))
      (trim_right-solid s (&&-right (not (is_space c)) (every (λ d. not (is_space d)) s) h))

pub trim_left-solid : (s : List ℕ) → every (λ c. not (is_space c)) s ≡ true → trim_left s ≡ s
unfolding trim_left
trim_left-solid [] h = refl
trim_left-solid (c ∷ s) h = ground (arith, h)

-- The numbers from `k` on, `n` of them.
abbrev pub numbers_from : ℕ → ℕ → List ℕ
numbers_from k zero = []
numbers_from k (suc n) = k ∷ numbers_from (suc k) n

-- A test of every character in a run is a test at each place.
pub every-numbers_from :
    (p : ℕ → Bool) (k n d : ℕ) → every p (numbers_from k n) ≡ true → d < n → p (k + d) ≡ true
every-numbers_from p k zero d h q = absurd (omega arith)
every-numbers_from p k (suc n) zero h q =
    let e : k + 0 ≡ k = omega arith in rw (e) (&&-left (p k) (every p (numbers_from (suc k) n)) h)
every-numbers_from p k (suc n) (suc d) h q =
    let e : k + suc d ≡ suc k + d = omega arith in
    rw (e) (
      every-numbers_from p (suc k) n d (&&-right (p k) (every p (numbers_from (suc k) n)) h)
        (omega arith))

pub every-append :
    (p : ℕ → Bool) (a b : List ℕ) → every p a ≡ true → every p b ≡ true → every p (a ++ b) ≡ true
every-append p [] b h k = k
every-append p (c ∷ a) b h k =
    rw (&&-left (p c) (every p a) h) (every-append p a b (&&-right (p c) (every p a) h) k)

pub trim-solid : (s : List ℕ) → every (λ c. not (is_space c)) s ≡ true → trim s ≡ s
unfolding trim
trim-solid s h = rw (trim_left-solid s h, trim_right-solid s h) refl

-- A character in front of what is left of a text.
abbrev pub kept : ℕ → List ℕ → List ℕ
kept c [] = if is_space c then [] else c ∷ []
kept c (d ∷ t) = c ∷ d ∷ t

pub trim_right-kept : (c : ℕ) (s t : List ℕ) → trim_right s ≡ t → trim_right (c ∷ s) ≡ kept c t
unfolding trim_right
trim_right-kept c s [] e = rw (e) refl
trim_right-kept c s (d ∷ t) e = rw (e) refl

pub codes-trim_front : (s : String) → codes (trim_front s) ≡ trim_left (codes s)
unfolding trim_front trim_left
codes-trim_front String.[] = refl
codes-trim_front (String.◌∷◌ c s) = elim (Bool-cases (is_space (code c))) [
  | inl y ↦ rw (y) (codes-trim_front s)
  | inr n ↦ rw (n) refl
]

pub codes-trim_back : (s : String) → codes (trim_back s) ≡ trim_right (codes s)
unfolding trim_back trim_right
codes-trim_back String.[] = refl
codes-trim_back (String.◌∷◌ c s) = sym (
    trim_right-kept (code c) (codes s) (codes (trim_back s)) (sym (codes-trim_back s))
    ∙ codes-keep_end c (trim_back s))
  where
    codes-keep_end :
        (c : Char) (t : String)
        → kept (code c) (codes t) ≡ codes (keep_end (is_space (code c)) (String.◌∷◌ c t) t)
    codes-keep_end c String.[] = elim (Bool-cases (is_space (code c))) [
      | inl y ↦ rw (y) refl
      | inr n ↦ rw (n) refl
    ]
    codes-keep_end c (String.◌∷◌ d t) = refl

pub codes_injective : (s t : String) → codes s ≡ codes t → s ≡ t
codes_injective String.[] String.[] e = refl
codes_injective String.[] (String.◌∷◌ d t) e = absurd (ground (arith, e))
codes_injective (String.◌∷◌ c s) String.[] e = absurd (ground (arith, e))
codes_injective (String.◌∷◌ c s) (String.◌∷◌ d t) e =
    let heads = Char-path c d (ground (arith, e)) in
    let tails = codes_injective s t (ground (arith, e)) in rw (heads, tails) refl
