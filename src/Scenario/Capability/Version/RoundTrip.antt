-- ===== src/Scenario/Capability/Version/RoundTrip.antt =====
-- internal/scenario/capability/version.go: a version that is printed reads as itself.
use home_sentinel.Base.{
  trim-solid, numbers_from, every-numbers_from, every-append, ◌≡◌, refl, ap, inl, inr, ℕ, zero, suc,
  ◌+◌, ◌/◌, ◌%◌, ◌≤◌, ◌<◌, String, ◌<>◌, codes, codes-append, is_space, show, show_from, digit,
  Bool, true, false, not, some, List, [], ◌∷◌, ◌++◌, every, ltb, ◌==◌, arith, Bool-cases,
}
use home_sentinel.Scenario.Expression.{split_codes}
use home_sentinel.Scenario.Capability.Version.{
  SemVer, max_int, is_digit, is_empty, value_from, parse_part, parse_version, version_text,
}

digit-codes : (d : ℕ) → d < 10 → codes (digit d) ≡ (b'0' + d) ∷ []
digit-codes zero h = refl
digit-codes (suc zero) h = refl
digit-codes (suc (suc zero)) h = refl
digit-codes (suc (suc (suc zero))) h = refl
digit-codes (suc (suc (suc (suc zero)))) h = refl
digit-codes (suc (suc (suc (suc (suc zero))))) h = refl
digit-codes (suc (suc (suc (suc (suc (suc zero)))))) h = refl
digit-codes (suc (suc (suc (suc (suc (suc (suc zero))))))) h = refl
digit-codes (suc (suc (suc (suc (suc (suc (suc (suc zero)))))))) h = refl
digit-codes (suc (suc (suc (suc (suc (suc (suc (suc (suc zero))))))))) h = refl
digit-codes (suc (suc (suc (suc (suc (suc (suc (suc (suc (suc d)))))))))) h = absurd (omega arith)

value_from-show :
    (fuel n : ℕ) (rest : String)
    → n < fuel
    → value_from 0 (codes (show_from fuel n rest)) ≡ value_from n (codes rest)
unfolding show_from value_from
value_from-show zero n rest h = absurd (omega arith)
value_from-show (suc fuel) n rest h =
    let d = digit-codes (n % 10) (omega arith) in
    let joined = codes-append (digit (n % 10)) rest in
    elim (Bool-cases (ltb n 10)) [
      | inl small ↦ rw (small, joined, d) (ap (λ x. value_from x (codes rest)) (ground arith))
      | inr large ↦
          rw
            (
              large,
              value_from-show fuel (n / 10) (digit (n % 10) <> rest) (ground arith),
              joined,
              d,
            )
            (ap (λ x. value_from x (codes rest)) (ground arith))
    ]

every-show :
    (p : ℕ → Bool) (fuel n : ℕ) (rest : String)
    → ((d : ℕ) → d < 10 → p (b'0' + d) ≡ true)
    → n < fuel
    → every p (codes (show_from fuel n rest)) ≡ every p (codes rest)
unfolding show_from
every-show p zero n rest digits h = absurd (omega arith)
every-show p (suc fuel) n rest digits h =
    let d = digit-codes (n % 10) (omega arith) in
    let joined = codes-append (digit (n % 10)) rest in
    let q = digits (n % 10) (omega arith) in
    elim (Bool-cases (ltb n 10)) [
      | inl small ↦ rw (small, joined, d, q) refl
      | inr large ↦
          rw
            (
              large,
              every-show p fuel (n / 10) (digit (n % 10) <> rest) digits (ground arith),
              joined,
              d,
              q,
            )
            refl
    ]

is_empty-show :
    (fuel n : ℕ) (rest : String) → n < fuel → is_empty (codes (show_from fuel n rest)) ≡ false
unfolding show_from
is_empty-show zero n rest h = absurd (omega arith)
is_empty-show (suc fuel) n rest h =
    let d = digit-codes (n % 10) (omega arith) in
    let joined = codes-append (digit (n % 10)) rest in
    elim (Bool-cases (ltb n 10)) [
      | inl small ↦ rw (small, joined, d) refl
      | inr large ↦ rw (large) (is_empty-show fuel (n / 10) (digit (n % 10) <> rest) (ground arith))
    ]

parse_part-show : (n : ℕ) → n ≤ max_int → parse_part (codes (show n)) ≡ some n
unfolding parse_part show
parse_part-show n h =
    let empty = is_empty-show (suc n) n "" (omega arith) in
    let digits = every-show is_digit (suc n) n "" (λ d q. ground arith) (omega arith) in
    let value = value_from-show (suc n) n "" (omega arith) in
    rw (empty, digits, value) (ground arith)

-- A part without a dot is split off.
split_codes-dot :
    (a b : List ℕ)
    → every (λ c. not (c == b'.')) a ≡ true
    → split_codes (a ++ b'.' ∷ b) ≡ a ∷ split_codes b
unfolding split_codes
split_codes-dot [] b h = refl
split_codes-dot (c ∷ a) b h = ground (arith, h, split_codes-dot a b)

split_codes-end : (a : List ℕ) → every (λ c. not (c == b'.')) a ≡ true → split_codes a ≡ a ∷ []
unfolding split_codes
split_codes-end [] h = refl
split_codes-end (c ∷ a) h = ground (arith, h, split_codes-end a)

-- A test that every digit passes is passed by the digits of a number.
every-digits :
    (p : ℕ → Bool) (n : ℕ) → every p (numbers_from b'0' 10) ≡ true → every p (codes (show n)) ≡ true
unfolding show
every-digits p n h =
    every-show p (suc n) n "" (λ d q. every-numbers_from p b'0' 10 d h q) (omega arith)

-- The code points of a version's text.
codes-version_text :
    (v : SemVer)
    → codes (version_text v)
      ≡ codes (show v.major) ++ b'.' ∷ (codes (show v.minor) ++ b'.' ∷ codes (show v.patch))
unfolding version_text
codes-version_text v =
    rw
      (
        codes-append (show v.major) ("." <> (show v.minor <> ("." <> show v.patch))),
        codes-append "." (show v.minor <> ("." <> show v.patch)),
        codes-append (show v.minor) ("." <> show v.patch),
        codes-append "." (show v.patch),
      )
      refl

solid-version_text : (v : SemVer) → every (λ c. not (is_space c)) (codes (version_text v)) ≡ true
solid-version_text v = rw (codes-version_text v) (
    every-append _ (codes (show v.major)) _ (every-digits _ v.major refl) (
      every-append _ (codes (show v.minor)) _ (every-digits _ v.minor refl)
        (every-digits _ v.patch refl)))

-- The three parts of a version's text.
split_codes-version_text :
    (v : SemVer)
    → split_codes (codes (version_text v))
      ≡ codes (show v.major) ∷ codes (show v.minor) ∷ codes (show v.patch) ∷ []
split_codes-version_text v =
    rw
      (
        codes-version_text v,
        split_codes-dot (codes (show v.major)) (codes (show v.minor) ++ b'.' ∷ codes (show v.patch))
            (every-digits _ v.major refl),
        split_codes-dot (codes (show v.minor)) (codes (show v.patch)) (every-digits _ v.minor refl),
        split_codes-end (codes (show v.patch)) (every-digits _ v.patch refl),
      )
      refl

-- A version whose numbers fit an `int` is read back from its text.
pub parse_version-text :
    (v : SemVer)
    → v.major ≤ max_int
    → v.minor ≤ max_int
    → v.patch ≤ max_int
    → parse_version (version_text v) ≡ some v
unfolding parse_version
parse_version-text v h k l =
    rw
      (
        trim-solid (codes (version_text v)) (solid-version_text v),
        split_codes-version_text v,
        parse_part-show v.major h,
        parse_part-show v.minor k,
        parse_part-show v.patch l,
      )
      refl
