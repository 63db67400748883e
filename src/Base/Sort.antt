-- ===== src/Base/Sort.antt =====
-- `sort.Strings`, as an insertion sort, and sets of texts as lists.
use Prim.Native.Nat.{Ordering}
use Prim.Native.String.{String, compare}
use mathlib.Core.Bool.{Bool, true, false}
use mathlib.Core.List.{List, [], ◌∷◌}
use text.Mathlib.Text.{◌==◌ as str_eq}
use package.home_sentinel.Base.Tests.{if◌then◌else◌}

-- `a < b` on texts.
unfoldable pub text_before : String → String → Bool
text_before a b = elim (compare a b) [ Ordering.lt ↦ true | _ ↦ false ]

unfoldable pub text_in : String → List String → List String
unfolding text_before
text_in a [] = a ∷ []
text_in a (b ∷ bs) = let rest = text_in a bs in if text_before b a then b ∷ rest else a ∷ b ∷ bs

unfoldable pub sort_texts : List String → List String
unfolding text_in
sort_texts [] = []
sort_texts (a ∷ rest) = text_in a (sort_texts rest)

unfoldable pub has_text : String → List String → Bool
has_text a [] = false
has_text a (b ∷ bs) = let rest = has_text a bs in if str_eq b a then true else rest
