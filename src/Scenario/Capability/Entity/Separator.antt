-- ===== src/Scenario/Capability/Entity/Separator.antt =====
-- internal/scenario/capability/descriptor.go and entity.go: what is valid has no `@`, so that a key's text
-- stands for one key.
use home_sentinel.Base.{
  kept, trim_right-kept, codes-trim_front, codes-trim_back, codes_injective, trim_text, trim_front,
  ◌≡◌, refl, sym, ap, ◌∙◌, String, ◌<>◌, codes, Bool, true, not, Option, List, [], ◌∷◌, ◌++◌, every,
  ◌==◌, ℕ, if◌then◌else◌, arith, Bool-cases, inl, inr, codes-append, trim, trim_left, trim_right,
  is_space, &&-left, &&-right,
}
use home_sentinel.Scenario.Expression.{split_codes, cons_head}
use home_sentinel.Scenario.Capability.Version.{
  parse_version, parse_part, of_parts, version_of, is_digit,
}
use home_sentinel.Scenario.Capability.Descriptor.{Key, key_text, valid_id, id_char, is_some}

abbrev pub is_at_free : List ℕ → Bool
is_at_free = every (λ c. not (c == b'@'))

at_inside : (a b d : List ℕ) → a ++ b'@' ∷ b ≡ d → is_at_free d ≡ true → ⊥
at_inside [] b [] e k = ground (arith, e)
at_inside [] b (y ∷ d) e k = ground (arith, e, k)
at_inside (x ∷ a) b [] e k = ground (arith, e)
at_inside (x ∷ a) b (y ∷ d) e k =
    at_inside a b d (ground (arith, e)) (&&-right (not (y == b'@')) (is_at_free d) k)

-- Texts with one `@` split in one way.
pub at_split :
    (a b c d : List ℕ)
    → is_at_free c ≡ true
    → is_at_free d ≡ true
    → a ++ b'@' ∷ b ≡ c ++ b'@' ∷ d
    → (a ≡ c) × (b ≡ d)
at_split [] b [] d h k e = ground (arith, e)
at_split [] b (x ∷ c) d h k e = absurd (ground (arith, e, h))
at_split (x ∷ a) b [] d h k e = absurd (at_inside a b d (ground (arith, e)) k)
at_split (x ∷ a) b (y ∷ c) d h k e =
    let tails : a ++ b'@' ∷ b ≡ c ++ b'@' ∷ d = ground (arith, e) in
    let heads : x ≡ y = ground (arith, e) in
    let ih = at_split a b c d (&&-right (not (y == b'@')) (is_at_free c) h) k tails in
    (rw (heads, ih.0) refl, ih.1)

is_space_at : is_space b'@' ≡ true → ⊥
is_space_at h = ground (arith, h)

-- `@` is no space.
at_free_space : (c : ℕ) → is_space c ≡ true → not (c == b'@') ≡ true
at_free_space c h = elim (Bool-cases (c == b'@')) [
  | inl y ↦ let e : c ≡ b'@' = ground (arith, y) in absurd (is_space_at (ap is_space (sym e) ∙ h))
  | inr n ↦ rw (n) refl
]

at_free-trim_left : (s : List ℕ) → is_at_free (trim_left s) ≡ true → is_at_free s ≡ true
unfolding trim_left
at_free-trim_left [] h = refl
at_free-trim_left (c ∷ s) h = elim (Bool-cases (is_space c)) [
  | inl y ↦
      let t : is_at_free (trim_left s) ≡ true =
        ap (λ b. is_at_free (if b then trim_left s else c ∷ s)) (sym y) ∙ h in
      rw (at_free_space c y, at_free-trim_left s t) refl
  | inr n ↦ ap (λ b. is_at_free (if b then trim_left s else c ∷ s)) (sym n) ∙ h
]

at_free-kept : (c : ℕ) (t : List ℕ) → is_at_free (kept c t) ≡ true → is_at_free (c ∷ t) ≡ true
at_free-kept c [] h = elim (Bool-cases (is_space c)) [
  | inl y ↦ rw (at_free_space c y) refl
  | inr n ↦ ap (λ b. is_at_free (if b then [] else c ∷ [])) (sym n) ∙ h
]
at_free-kept c (d ∷ t) h = h

at_free-trim_right : (s : List ℕ) → is_at_free (trim_right s) ≡ true → is_at_free s ≡ true
at_free-trim_right [] h = refl
at_free-trim_right (c ∷ s) h =
    let k =
      at_free-kept c (trim_right s)
        (ap is_at_free (sym (trim_right-kept c s (trim_right s) refl)) ∙ h) in
    let other = at_free-trim_right s (&&-right (not (c == b'@')) (is_at_free (trim_right s)) k) in
    rw (&&-left (not (c == b'@')) (is_at_free (trim_right s)) k, other) refl

at_free-trim : (s : List ℕ) → is_at_free (trim s) ≡ true → is_at_free s ≡ true
unfolding trim
at_free-trim s h = at_free-trim_left s (at_free-trim_right (trim_left s) h)

every-cons_head :
    (c : ℕ) (ss : List (List ℕ))
    → every is_at_free (cons_head c ss) ≡ true
    → (not (c == b'@') ≡ true) × (every is_at_free ss ≡ true)
every-cons_head c [] h = ground (arith, h)
every-cons_head c (s ∷ ss) h = ground (arith, h)

at_free-split_codes : (s : List ℕ) → every is_at_free (split_codes s) ≡ true → is_at_free s ≡ true
unfolding split_codes
at_free-split_codes [] h = refl
at_free-split_codes (c ∷ s) h = elim (Bool-cases (c == b'.')) [
  | inl y ↦
      let t : every is_at_free (split_codes s) ≡ true =
        ap (λ b. every is_at_free (if b then [] ∷ split_codes s else cons_head c (split_codes s)))
          (sym y)
        ∙ h in
      let e : c ≡ b'.' = ground (arith, y) in rw (e, at_free-split_codes s t) refl
  | inr n ↦
      let t = every-cons_head c (split_codes s) (
        ap (λ b. every is_at_free (if b then [] ∷ split_codes s else cons_head c (split_codes s)))
          (sym n)
        ∙ h) in
      rw (t.0, at_free-split_codes s t.1) refl
]

-- The parts of a version are digits.
at_free_digit : (c : ℕ) → is_digit c ≡ true → not (c == b'@') ≡ true
at_free_digit c h = ground (arith, h)

at_free_digits : (s : List ℕ) → every is_digit s ≡ true → is_at_free s ≡ true
at_free_digits [] h = refl
at_free_digits (c ∷ s) h =
    rw
      (
        at_free_digit c (&&-left (is_digit c) (every is_digit s) h),
        at_free_digits s (&&-right (is_digit c) (every is_digit s) h),
      )
      refl

at_free-parse_part : (s : List ℕ) → is_some (parse_part s) ≡ true → is_at_free s ≡ true
unfolding parse_part
at_free-parse_part s h = at_free_digits s (ground (arith, h))

version_of-is_some :
    (x y z : Option ℕ)
    → is_some (version_of x y z) ≡ true
    → (is_some x ≡ true) × (is_some y ≡ true) × (is_some z ≡ true)
version_of-is_some x y z h = ground (arith, h)

at_free-of_parts : (ss : List (List ℕ)) → is_some (of_parts ss) ≡ true → every is_at_free ss ≡ true
at_free-of_parts (a ∷ b ∷ c ∷ []) h =
    let t = version_of-is_some (parse_part a) (parse_part b) (parse_part c) h in
    rw (at_free-parse_part a t.0, at_free-parse_part b t.1, at_free-parse_part c t.2) refl
at_free-of_parts [] h = refl
at_free-of_parts (a ∷ []) h = absurd (ground (arith, h))
at_free-of_parts (a ∷ b ∷ []) h = absurd (ground (arith, h))
at_free-of_parts (a ∷ b ∷ c ∷ d ∷ e) h = absurd (ground (arith, h))

-- A text that is a version has no `@`.
pub at_free-parse_version :
    (s : String) → is_some (parse_version s) ≡ true → is_at_free (codes s) ≡ true
unfolding parse_version
at_free-parse_version s h =
    at_free-trim (codes s)
      (at_free-split_codes (trim (codes s)) (at_free-of_parts (split_codes (trim (codes s))) h))

id_chars : (s : List ℕ) → every id_char s ≡ true → is_at_free s ≡ true
id_chars [] h = refl
id_chars (c ∷ s) h =
    rw
      (
        id_char-at_free c (&&-left (id_char c) (every id_char s) h),
        id_chars s (&&-right (id_char c) (every id_char s) h),
      )
      refl
  where
    id_char-at_free : (c : ℕ) → id_char c ≡ true → not (c == b'@') ≡ true
    id_char-at_free c h = ground (arith, h)

-- An identifier that is valid has no `@`.
pub at_free-valid_id : (s : String) → valid_id s ≡ true → is_at_free (codes s) ≡ true
unfolding valid_id trim_text
at_free-valid_id s h =
    let chars = id_chars (codes (trim_text s)) (ground (arith, h)) in
    let t = codes-trim_back (trim_front s) ∙ ap trim_right (codes-trim_front s) in
    at_free-trim_left (codes s)
      (at_free-trim_right (trim_left (codes s)) (ap is_at_free (sym t) ∙ chars))

-- Two keys with the same text are the same key, when one of them has no `@`.
pub key_text_injective :
    (k l : Key)
    → is_at_free (codes l.id) ≡ true
    → is_at_free (codes l.version) ≡ true
    → key_text k ≡ key_text l
    → k ≡ l
unfolding key_text
key_text_injective k l h g e =
    let parts =
      at_split (codes k.id) (codes k.version) (codes l.id) (codes l.version) h g (joined e) in
    ground (arith, codes_injective k.id l.id parts.0, codes_injective k.version l.version parts.1)
  where
    at_join : (a b : String) → codes (a <> ("@" <> b)) ≡ codes a ++ b'@' ∷ codes b
    at_join a b = rw (codes-append a ("@" <> b), codes-append "@" b) refl

    joined :
        k.id <> ("@" <> k.version) ≡ l.id <> ("@" <> l.version)
        → codes k.id ++ b'@' ∷ codes k.version ≡ codes l.id ++ b'@' ∷ codes l.version
    joined e = sym (at_join k.id k.version) ∙ ap codes e ∙ at_join l.id l.version
