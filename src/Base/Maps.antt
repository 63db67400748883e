-- ===== src/Base/Maps.antt =====
-- A Go map with text keys, as an association list in which each key stands at most once.
use mathlib.Core.Path.{◌≡◌, refl}
use mathlib.Core.Bool.{Bool}
use mathlib.Core.Option.{Option, none, some}
use mathlib.Core.List.{List, [], ◌∷◌}
use Prim.Native.String.{String}
use native.Mathlib.Omega.{arith}
use text.Mathlib.Text.{◌==◌ as str_eq}
use text.Mathlib.TextEquality.{eq_iff}
use package.home_sentinel.Base.Tests.{if◌then◌else◌}

abbrev pub Dict {ℓ} : Type ℓ → Type ℓ
Dict V = List (String × V)

module _ {ℓ} {V : Type ℓ} where
  -- `v, ok := m[key]`.
  unfoldable pub lookup : String → Dict V → Option V
  lookup key [] = none
  lookup key (entry ∷ rest) = if str_eq entry.0 key then some entry.1 else lookup key rest

  -- `m[key] = value`.
  unfoldable pub insert : String → V → Dict V → Dict V
  insert key value [] = (key, value) ∷ []
  insert key value (entry ∷ rest) =
      let others = insert key value rest in
      if str_eq entry.0 key then (key, value) ∷ rest else entry ∷ others

  -- `delete(m, key)`.
  unfoldable pub erase : String → Dict V → Dict V
  erase key [] = []
  erase key (entry ∷ rest) =
      let others = erase key rest in if str_eq entry.0 key then others else entry ∷ others

  -- What a write at `key` shows to a reader at `other`.
  abbrev pub written : Bool → V → Option V → Option V
  written same value old = if same then some value else old

  pub lookup-insert :
      (key other : String) (value : V) (m : Dict V)
      → lookup other (insert key value m) ≡ written (str_eq key other) value (lookup other m)
  unfolding lookup insert
  lookup-insert key other value [] = refl
  lookup-insert key other value (entry ∷ rest) =
      let ih = lookup-insert key other value rest in
      ground (arith, ih, eq_iff entry.0 key, eq_iff key other, eq_iff entry.0 other)

  pub lookup-erase :
      (key other : String) (m : Dict V)
      → lookup other (erase key m) ≡ (if str_eq key other then none else lookup other m)
  unfolding lookup erase
  lookup-erase key other [] = ground arith
  lookup-erase key other (entry ∷ rest) =
      let ih = lookup-erase key other rest in
      ground (arith, ih, eq_iff entry.0 key, eq_iff key other, eq_iff entry.0 other)
