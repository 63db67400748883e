-- ===== src/Health/Sorted.antt =====
-- internal/health: the order of `Snapshot`, and what sorting keeps.
use home_sentinel.Base.{
  ◌≡◌, refl, sym, ap, ◌∙◌, inl, inr, Bool, true, false, not, ◌&&◌, List, [], ◌∷◌, any, every, Any,
  if◌then◌else◌, arith, Bool-cases, &&-right, text_before_asymm, text_before_trans,
}
use home_sentinel.Health.{Component, named_before, sort_in, sort_names}

-- No later component is named before an earlier one.
abbrev pub IsSorted : List Component → Type 0
IsSorted [] = Unit
IsSorted (c ∷ cs) = (every (λ d. not (named_before d c)) cs ≡ true) × IsSorted cs

pub every-sort_in :
    (p : Component → Bool) (a : Component) (bs : List Component)
    → every p (sort_in a bs) ≡ (p a && every p bs)
unfolding sort_in
every-sort_in p a [] = refl
every-sort_in p a (b ∷ bs) = elim (Bool-cases (named_before b a)) [
  | inl y ↦ rw (y, every-sort_in p a bs) (swapped (p a) (p b) (every p bs))
  | inr n ↦ rw (n) refl
]
  where
    swapped : (x y z : Bool) → (y && (x && z)) ≡ (x && (y && z))
    swapped x y z = ground arith

pub every-sort_names :
    (p : Component → Bool) (cs : List Component) → every p (sort_names cs) ≡ every p cs
unfolding sort_names
every-sort_names p [] = refl
every-sort_names p (a ∷ cs) =
    every-sort_in p a (sort_names cs) ∙ ap (λ b. p a && b) (every-sort_names p cs)

any-every :
    (p : Component → Bool) (cs : List Component) → any p cs ≡ not (every (λ c. not (p c)) cs)
any-every p [] = refl
any-every p (c ∷ cs) = ground (arith, any-every p cs)

pub any-sort_names : (p : Component → Bool) (cs : List Component) → any p (sort_names cs) ≡ any p cs
any-sort_names p cs =
    any-every p (sort_names cs)
    ∙ (ap not (every-sort_names (λ c. not (p c)) cs) ∙ sym (any-every p cs))

Any-sort_in :
    (P : Component → Type 0) (a : Component) (bs : List Component)
    → Any P (sort_in a bs)
    → Any P (a ∷ bs)
unfolding sort_in
Any-sort_in P a [] m = m
Any-sort_in P a (b ∷ bs) m = either (Any-sort_in P a bs) (named_before b a) m
  where
    either :
        (Any P (sort_in a bs) → Any P (a ∷ bs))
        → (t : Bool) → Any P (if t then b ∷ sort_in a bs else a ∷ b ∷ bs)
        → Any P (a ∷ b ∷ bs)
    either ih true (inl x) = inr (inl x)
    either ih true (inr m) = elim (ih m) [ inl x ↦ inl x | inr n ↦ inr (inr n) ]
    either ih false m = m

pub Any-sort_names :
    (P : Component → Type 0) (cs : List Component) → Any P (sort_names cs) → Any P cs
unfolding sort_names
Any-sort_names P [] m = m
Any-sort_names P (a ∷ cs) m = elim (Any-sort_in P a (sort_names cs) m) [
  | inl x ↦ inl x
  | inr n ↦ inr (Any-sort_names P cs n)
]

every_trans :
    (a b : Component) (bs : List Component)
    → named_before b a ≡ false
    → every (λ d. not (named_before d b)) bs ≡ true
    → every (λ d. not (named_before d a)) bs ≡ true
every_trans a b [] h k = refl
every_trans a b (c ∷ bs) h k = ground (
  arith,
  k,
  every_trans a b bs h (&&-right (not (named_before c b)) _ k),
  text_before_trans a.name b.name c.name h,
)

sort_in-IsSorted : (a : Component) (bs : List Component) → IsSorted bs → IsSorted (sort_in a bs)
unfolding sort_in
sort_in-IsSorted a [] s = (refl, tt)
sort_in-IsSorted a (b ∷ bs) (first, s) = elim (Bool-cases (named_before b a)) [
  | inl y ↦ rw (y) (
    every-sort_in (λ d. not (named_before d b)) a bs
        ∙ ground (arith, first, text_before_asymm b.name a.name y),
    sort_in-IsSorted a bs s,
  )
  | inr n ↦ rw (n) (ground (arith, n, every_trans a b bs n first), (first, s))
]

pub sort_names-IsSorted : (cs : List Component) → IsSorted (sort_names cs)
unfolding sort_names
sort_names-IsSorted [] = tt
sort_names-IsSorted (a ∷ cs) = sort_in-IsSorted a (sort_names cs) (sort_names-IsSorted cs)
