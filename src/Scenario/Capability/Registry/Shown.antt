-- ===== src/Scenario/Capability/Registry/Shown.antt =====
-- internal/scenario/capability/registry.go: what the loops and the sort of a list keep.
use home_sentinel.Base.{
  ◌≡◌, refl, ap, inl, inr, Bool, true, false, Option, none, some, List, [], ◌∷◌, every,
  if◌then◌else◌, arith, subst, Bool-cases, &&-left, &&-right,
}
use home_sentinel.Scenario.Capability.Registry.Listing.{put, put_in, sort_by, sorted_by}

-- A sort by insertion keeps what holds of every element.
module _ {A : Type 0} (before : A → A → Bool) where
  every-put_in :
      (p : A → Bool) (a : A) (xs : List A)
      → p a ≡ true
      → every p xs ≡ true
      → every p (put_in before a xs) ≡ true
  unfolding put_in
  every-put_in p a [] h k = rw (h) refl
  every-put_in p a (b ∷ bs) h k = elim (Bool-cases (before b a)) [
    | inl y ↦
        rw (y, &&-left (p b) (every p bs) k, every-put_in p a bs h (&&-right (p b) (every p bs) k))
          refl
    | inr n ↦ rw (n, h, k) refl
  ]

  every-sort_by :
      (p : A → Bool) (xs : List A) → every p xs ≡ true → every p (sort_by before xs) ≡ true
  unfolding sort_by
  every-sort_by p [] h = refl
  every-sort_by p (a ∷ rest) h =
      every-put_in p a (sort_by before rest) (&&-left (p a) (every p rest) h)
        (every-sort_by p rest (&&-right (p a) (every p rest) h))

pub put-every :
    {A : Type 0}
    → (p : A → Bool) (x : Option A) (more : Option (List A)) (out : List A)
    → ((a : A) → x ≡ some a → p a ≡ true)
    → ((xs : List A) → more ≡ some xs → every p xs ≡ true)
    → put x more ≡ some out
    → every p out ≡ true
put-every p none more out h k e = absurd (ground (arith, e))
put-every p (some x) none out h k e = absurd (ground (arith, e))
put-every {A = A} p (some x) (some xs) out h k e =
    subst (λ ys. every p ys ≡ true) (some-list e) (rw (h x refl, k xs refl) refl)
  where
    some-list : some (x ∷ xs) ≡ some out → x ∷ xs ≡ out
    some-list e = ap (λ o. elim o as (λ _. List A) [ none ↦ x ∷ xs | some ys ↦ ys ]) e

pub sorted_by-every :
    {A : Type 0}
    → (before : A → A → Bool) (p : A → Bool) (x : Option (List A)) (out : List A)
    → ((xs : List A) → x ≡ some xs → every p xs ≡ true)
    → sorted_by before x ≡ some out
    → every p out ≡ true
sorted_by-every before p none out h e = absurd (ground (arith, e))
sorted_by-every {A = A} before p (some xs) out h e =
    subst (λ ys. every p ys ≡ true)
      (ap (λ o. elim o as (λ _. List A) [ none ↦ sort_by before xs | some ys ↦ ys ]) e)
      (every-sort_by before p xs (h xs refl))

-- Every element that is listed passes a test.
abbrev pub Shown : {A : Type 0} → (A → Bool) → Option (List A) → Type 0
Shown {A = A} p x = (out : List A) → x ≡ some out → every p out ≡ true

pub if-Shown :
    {A : Type 0}
    → (p : A → Bool) (b : Bool) (x y : Option (List A)) → Shown p x
    → Shown p y
    → Shown p (if b then x else y)
if-Shown p true x y h k = h
if-Shown p false x y h k = k

pub none-Shown : {A : Type 0} → (p : A → Bool) → Shown p none
none-Shown p out e = absurd (ground (arith, e))
