-- ===== src/Callback/Token/Split.antt =====
-- `strings.Split(s, ".")`.
use Prim.Native.Char.{Char, code}
use text.Mathlib.TextLemmas.{cons-append, nil-append}
use home_sentinel.Base.{
  ◌≡◌, refl, ap, ◌∙◌, String, ◌<>◌, Bool, true, false, not, ◌&&◌, List, [], ◌∷◌, ◌==◌,
  if◌then◌else◌, arith, Bool-cases, inl, inr, length, ◌+◌, ◌≤◌, ◌<◌,
}

abbrev cons_head : Char → List String → List String
cons_head c [] = String.◌∷◌ c "" ∷ []
cons_head c (s ∷ ss) = String.◌∷◌ c s ∷ ss

unfoldable pub split_dots : String → List String
split_dots String.[] = "" ∷ []
split_dots (String.◌∷◌ c s) =
    let rest = split_dots s in if code c == b'.' then "" ∷ rest else cons_head c rest

-- No character of the text is a dot.
unfoldable pub dotless : String → Bool
dotless String.[] = true
dotless (String.◌∷◌ c s) = not (code c == b'.') && dotless s

pub split_dots-dotless : (s : String) → dotless s ≡ true → split_dots s ≡ s ∷ []
unfolding split_dots dotless
split_dots-dotless String.[] h = refl
split_dots-dotless (String.◌∷◌ c s) h = ground (arith, split_dots-dotless s)

dot-append : (t : String) → "." <> t ≡ String.◌∷◌ "." t
dot-append t = cons-append "." "" t ∙ ap (String.◌∷◌ ".") (nil-append t)

-- A text without dots in front of a dot is the first part.
pub split_dots-append :
    (s t : String) → dotless s ≡ true → split_dots (s <> ("." <> t)) ≡ s ∷ split_dots t
unfolding split_dots dotless
split_dots-append String.[] t h = rw (nil-append, dot-append)
split_dots-append (String.◌∷◌ c s) t h =
    rw (cons-append c s ("." <> t)) (ground (arith, split_dots-append s t (ground arith)))

length-cons_head :
    (c : Char) (ss : List String) → 0 < length ss → length (cons_head c ss) ≡ length ss
length-cons_head c [] h = absurd (omega arith)
length-cons_head c (s ∷ ss) h = refl

pub split_dots-pos : (s : String) → 0 < length (split_dots s)
unfolding split_dots
split_dots-pos String.[] = omega arith
split_dots-pos (String.◌∷◌ c s) =
    ground (arith, split_dots-pos s, length-cons_head c (split_dots s) (split_dots-pos s))

-- The parts of two texts joined by a dot are counted together.
pub length-split_dots :
    (s t : String)
    → length (split_dots (s <> ("." <> t))) ≡ length (split_dots s) + length (split_dots t)
unfolding split_dots
length-split_dots String.[] t = rw (nil-append, dot-append) (omega arith)
length-split_dots (String.◌∷◌ c s) t = rw (cons-append c s ("." <> t)) (
    ground (
      arith,
      length-split_dots s t,
      length-cons_head c (split_dots s) (split_dots-pos s),
      length-cons_head c (split_dots (s <> ("." <> t))) (split_dots-pos (s <> ("." <> t))),
    ))

-- A text with a dot has at least two parts.
pub split_dots-dotted : (s : String) → dotless s ≡ false → 2 ≤ length (split_dots s)
unfolding split_dots dotless
split_dots-dotted String.[] h = absurd (ground arith)
split_dots-dotted (String.◌∷◌ c s) h = elim (Bool-cases (code c == b'.')) [
  | inl dot ↦ rw dot (omega (arith, split_dots-pos s))
  | inr other ↦
      let tail = split_dots-dotted s (ground arith) in
      ground (arith, length-cons_head c (split_dots s) (split_dots-pos s))
]
