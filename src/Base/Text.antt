-- ===== src/Base/Text.antt =====
-- Text as the source reads it: characters, white space, ASCII case, search, and equality of texts.
use Prim.Native.Nat.{ℕ, ◌+◌, ◌-◌}
use Prim.Native.Char.{Char, code}
use Prim.Native.String.{String, ◌++◌ as text_append}
use mathlib.Core.Path.{◌≡◌, refl}
use native.Mathlib.Omega.{arith}
use mathlib.Core.Bool.{Bool, true, false, ◌&&◌, ◌||◌}
use mathlib.Core.List.{List, [], ◌∷◌, ◌++◌}
pub use text.Mathlib.Text.{◌==◌ as str_eq}
pub use text.Mathlib.TextEquality.{eq_iff}
pub use text.Mathlib.TextPositions.{eq_refl}
use text.Mathlib.TextLemmas.{nil-append, cons-append}
use package.home_sentinel.Base.Tests.{ltb, leb, ◌==◌, if◌then◌else◌}

infixr 66 ◌<>◌
-- Concatenation of texts.
abbrev pub ◌<>◌ : String → String → String
s <> t = text_append s t

-- `unicode.IsSpace`: the Latin-1 spaces, then the characters of the property White_Space.
abbrev pub is_space : ℕ → Bool
is_space c =
    leb 9 c && leb c 13
    || c == 32
    || c == 0x85
    || c == 0xa0
    || c == 0x1680
    || leb 0x2000 c && leb c 0x200a
    || c == 0x2028
    || c == 0x2029
    || c == 0x202f
    || c == 0x205f
    || c == 0x3000

-- `strings.TrimSpace(s) == ""`: each character is a space.
unfoldable pub is_blank : String → Bool
is_blank String.[] = true
is_blank (String.◌∷◌ c s) = is_space (code c) && is_blank s

-- The code points of a text.
abbrev pub codes : String → List ℕ
codes String.[] = []
codes (String.◌∷◌ c s) = code c ∷ codes s

-- `unicode.ToLower`, on ASCII and on the two other characters that it sends to ASCII: the dotted
-- capital I and the Kelvin sign.
abbrev pub lower : ℕ → ℕ
lower c =
    if leb b'A' c && leb c b'Z'
    then c + 32
    else if c == 0x130
    then b'i'
    else if c == 0x212a
    then b'k'
    else c

-- `strings.ToLower`.
unfoldable pub to_lower : List ℕ → List ℕ
to_lower [] = []
to_lower (c ∷ s) = lower c ∷ to_lower s

unfoldable pub has_prefix : List ℕ → List ℕ → Bool
has_prefix s [] = true
has_prefix [] (d ∷ t) = false
has_prefix (c ∷ s) (d ∷ t) = c == d && has_prefix s t

-- `strings.Contains`.
unfoldable pub contains : List ℕ → List ℕ → Bool
contains [] t = has_prefix [] t
contains (c ∷ s) t = has_prefix (c ∷ s) t || contains s t

-- The bytes of a character, and of a text, in UTF-8.
abbrev pub char_len : ℕ → ℕ
char_len c = if ltb c 0x80 then 1 else if ltb c 0x800 then 2 else if ltb c 0x1_0000 then 3 else 4

unfoldable pub byte_len : String → ℕ
byte_len String.[] = 0
byte_len (String.◌∷◌ c s) = char_len (code c) + byte_len s

pub byte_len-append : (s t : String) → byte_len (s <> t) ≡ byte_len s + byte_len t
unfolding byte_len
byte_len-append String.[] t = rw (nil-append t) (omega arith)
byte_len-append (String.◌∷◌ c s) t = rw (cons-append c s t) (omega (arith, byte_len-append s t))

pub byte_len_dot : byte_len "." ≡ 1
unfolding byte_len
byte_len_dot = refl

-- `strings.TrimSpace`, on code points: the spaces at the front, then those at the end.
unfoldable pub trim_left : List ℕ → List ℕ
trim_left [] = []
trim_left (c ∷ s) = let rest = trim_left s in if is_space c then rest else c ∷ s

unfoldable pub trim_right : List ℕ → List ℕ
trim_right [] = []
trim_right (c ∷ s) = elim (trim_right s) [
  | [] ↦ if is_space c then [] else c ∷ []
  | d ∷ t ↦ c ∷ d ∷ t
]

unfoldable pub trim : List ℕ → List ℕ
unfolding trim_left trim_right
trim s = trim_right (trim_left s)

-- `strings.TrimSpace` on a text.
unfoldable pub trim_front : String → String
trim_front String.[] = String.[]
trim_front (String.◌∷◌ c s) = if is_space (code c) then trim_front s else String.◌∷◌ c s

abbrev pub keep_end : Bool → String → String → String
keep_end space whole String.[] = if space then String.[] else whole
keep_end space whole (String.◌∷◌ d t) = whole

unfoldable pub trim_back : String → String
trim_back String.[] = String.[]
trim_back (String.◌∷◌ c s) =
    let rest = trim_back s in keep_end (is_space (code c)) (String.◌∷◌ c rest) rest

unfoldable pub trim_text : String → String
unfolding trim_front trim_back
trim_text s = trim_back (trim_front s)

abbrev letter_at : ℕ → String → Char → Char
letter_at n String.[] c = c
letter_at ℕ.zero (String.◌∷◌ d t) c = d
letter_at (ℕ.suc n) (String.◌∷◌ d t) c = letter_at n t c

-- `lower` on a character.
abbrev lower_char : Char → Char
lower_char c =
    if leb b'A' (code c) && leb (code c) b'Z'
    then letter_at (code c - b'A') "abcdefghijklmnopqrstuvwxyz" c
    else if code c == 0x130
    then "i"
    else if code c == 0x212a
    then "k"
    else c

-- `strings.ToLower` on a text.
unfoldable pub lower_text : String → String
lower_text String.[] = String.[]
lower_text (String.◌∷◌ c s) = String.◌∷◌ (lower_char c) (lower_text s)

pub codes-append : (s t : String) → codes (s <> t) ≡ codes s ++ codes t
codes-append String.[] t = rw (nil-append t) refl
codes-append (String.◌∷◌ c s) t = rw (cons-append c s t, codes-append s t) refl
