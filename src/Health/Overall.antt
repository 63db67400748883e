-- ===== src/Health/Overall.antt =====
-- The overall status against the statuses of the components.
use home_sentinel.Base.{
  ◌⊎◌, inl, inr, not, every, Any, ap, sym, subst, &&-right, text_before_irrefl, Bool-cases, ◌≡◌,
  ◌≢◌, refl, ◌∙◌, Bool, true, false, ◌||◌, List, [], ◌∷◌, map, any, if◌then◌else◌, arith,
}
use home_sentinel.Health.{
  Status, unknown, starting, healthy, degraded, failed, Component, worse, overall_from, snapshot,
  overall, Registry, named_before, sort_names,
}
use home_sentinel.Health.Sorted.{
  IsSorted, every-sort_names, any-sort_names, Any-sort_names, sort_names-IsSorted,
}

abbrev is_failed : Status → Bool
is_failed failed = true
is_failed _ = false

abbrev is_degraded : Status → Bool
is_degraded degraded = true
is_degraded _ = false

-- The first status that is not healthy.
abbrev first_ill : List Status → Status
first_ill [] = healthy
first_ill (healthy ∷ rest) = first_ill rest
first_ill (s ∷ rest) = s

-- A failure counts most, then a degradation; else the first component that is not healthy decides.
abbrev pub verdict : List Status → Status
verdict ss =
    if any is_failed ss then failed else if any is_degraded ss then degraded else first_ill ss

abbrev settle : Status → List Status → Status
settle healthy ss = first_ill ss
settle w ss = w

abbrev verdict_from : Status → List Status → Status
verdict_from w ss =
    if any is_failed ss
    then failed
    else if is_degraded w || any is_degraded ss
    then degraded
    else settle w ss

verdict_from-worse :
    (w s : Status) (ss : List Status)
    → w ≢ failed
    → s ≢ failed
    → verdict_from (worse w s) ss ≡ verdict_from w (s ∷ ss)
unfolding worse
verdict_from-worse w degraded ss h k = ground (arith, h)
verdict_from-worse w healthy ss h k = ground (arith, h)
verdict_from-worse w failed ss h k = absurd (k refl)
verdict_from-worse w starting ss h k = ground (arith, h)
verdict_from-worse w unknown ss h k = ground (arith, h)

worse-ne : (w s : Status) → w ≢ failed → worse w s ≢ failed
unfolding worse
worse-ne w degraded h e = cc
worse-ne w healthy h e = ground (arith, h, e)
worse-ne w failed h e = ground (arith, h, e)
worse-ne w starting h e = ground (arith, h, e)
worse-ne w unknown h e = ground (arith, h, e)

overall_from-verdict :
    (w : Status) (ss : List Status) → w ≢ failed → overall_from w ss ≡ verdict_from w ss
unfolding overall_from
overall_from-verdict failed ss h = absurd (h refl)
overall_from-verdict unknown [] h = refl
overall_from-verdict starting [] h = refl
overall_from-verdict healthy [] h = refl
overall_from-verdict degraded [] h = refl
overall_from-verdict w (failed ∷ ss) h = refl
overall_from-verdict w (unknown ∷ ss) h =
    overall_from-verdict (worse w unknown) ss (worse-ne w unknown h)
    ∙ verdict_from-worse w unknown ss h (λ e. cc)
overall_from-verdict w (starting ∷ ss) h =
    overall_from-verdict (worse w starting) ss (worse-ne w starting h)
    ∙ verdict_from-worse w starting ss h (λ e. cc)
overall_from-verdict w (healthy ∷ ss) h =
    overall_from-verdict (worse w healthy) ss (worse-ne w healthy h)
    ∙ verdict_from-worse w healthy ss h (λ e. cc)
overall_from-verdict w (degraded ∷ ss) h =
    overall_from-verdict (worse w degraded) ss (worse-ne w degraded h)
    ∙ verdict_from-worse w degraded ss h (λ e. cc)

overall-snapshot :
    (r : Registry)
    → overall r
      ≡ elim (snapshot r) [ [] ↦ unknown | c ∷ cs ↦ verdict (map (λ d. d.status) (c ∷ cs)) ]
unfolding overall
overall-snapshot r = go (snapshot r)
  where
    go :
        (cs : List Component)
        → (elim cs [ [] ↦ unknown | c ∷ cs ↦ overall_from healthy (map (λ d. d.status) (c ∷ cs)) ])
          ≡ (elim cs [ [] ↦ unknown | c ∷ cs ↦ verdict (map (λ d. d.status) (c ∷ cs)) ])
    go [] = refl
    go (c ∷ cs) = overall_from-verdict healthy (map (λ d. d.status) (c ∷ cs)) (λ e. cc)

abbrev pub is_healthy : Component → Bool
is_healthy c = elim c.status [ healthy ↦ true | _ ↦ false ]

abbrev pub has_failed : Component → Bool
has_failed c = is_failed c.status

abbrev pub has_degraded : Component → Bool
has_degraded c = is_degraded c.status

-- The status of a component that is not healthy, before which no other such component is named; or
-- `healthy`, where there is none.
abbrev pub IsFirstIll : List Component → Status → Type 0
IsFirstIll cs s =
    ((every is_healthy cs ≡ true) × (s ≡ healthy))
    ⊎ ((c : Component) × Any (λ d. d ≡ c) cs
        × (is_healthy c ≡ false)
        × (s ≡ c.status)
        × (every (λ d. is_healthy d || not (named_before d c)) cs ≡ true))

-- The verdict on the components of a registry, in whatever order they are given.
abbrev pub IsVerdict : List Component → Status → Type 0
IsVerdict [] s = s ≡ unknown
IsVerdict (c ∷ cs) s =
    ((any has_failed (c ∷ cs) ≡ true) × (s ≡ failed))
    ⊎ ((any has_failed (c ∷ cs) ≡ false) × (any has_degraded (c ∷ cs) ≡ true) × (s ≡ degraded))
    ⊎ ((any has_failed (c ∷ cs) ≡ false)
        × (any has_degraded (c ∷ cs) ≡ false)
        × IsFirstIll (c ∷ cs) s)

unmoved :
    (c : Component) (cs : List Component)
    → every (λ d. not (named_before d c)) cs ≡ true
    → every (λ d. is_healthy d || not (named_before d c)) cs ≡ true
unmoved c [] h = refl
unmoved c (d ∷ cs) h = ground (arith, h, unmoved c cs (&&-right (not (named_before d c)) _ h))

IsFirstIll-healthy :
    (c : Component) (cs : List Component) (s : Status)
    → is_healthy c ≡ true
    → IsFirstIll cs s
    → IsFirstIll (c ∷ cs) s
IsFirstIll-healthy c cs s k (inl (h, e)) = inl (rw (k, h) refl, e)
IsFirstIll-healthy c cs s k (inr (d, m, ill, e, rest)) = inr (d, inr m, ill, e, rw (k) rest)

-- What the loop finds first in the order of names is named before the others.
first_ill-IsFirstIll :
    (cs : List Component) → IsSorted cs → IsFirstIll cs (first_ill (map (λ d. d.status) cs))
first_ill-IsFirstIll [] s = inl (refl, refl)
first_ill-IsFirstIll (c ∷ cs) (first, s) = by_status (first_ill-IsFirstIll cs s) c.status refl
  where
    met :
        (st : Status)
        → c.status ≡ st
        → is_healthy c ≡ false
        → first_ill (map (λ d. d.status) (c ∷ cs)) ≡ c.status
        → IsFirstIll (c ∷ cs) (first_ill (map (λ d. d.status) (c ∷ cs)))
    met st e ill found = inr (
      c,
      inl refl,
      ill,
      found,
      ground (arith, ill, text_before_irrefl c.name, unmoved c cs first),
    )

    by_status :
        IsFirstIll cs (first_ill (map (λ d. d.status) cs))
        → (st : Status) → c.status ≡ st
        → IsFirstIll (c ∷ cs) (first_ill (map (λ d. d.status) (c ∷ cs)))
    by_status ih healthy e =
        subst (IsFirstIll (c ∷ cs)) (sym (ap (λ st. first_ill (st ∷ map (λ d. d.status) cs)) e))
          (IsFirstIll-healthy c cs (first_ill (map (λ d. d.status) cs)) (rw (e) refl) ih)
    by_status ih unknown e = met unknown e (rw (e) refl) (rw (e) refl)
    by_status ih starting e = met starting e (rw (e) refl) (rw (e) refl)
    by_status ih degraded e = met degraded e (rw (e) refl) (rw (e) refl)
    by_status ih failed e = met failed e (rw (e) refl) (rw (e) refl)

-- The verdict does not depend on the order of the components.
IsFirstIll-unsorted :
    (cs : List Component) (s : Status) → IsFirstIll (sort_names cs) s → IsFirstIll cs s
IsFirstIll-unsorted cs s (inl (h, e)) = inl (sym (every-sort_names is_healthy cs) ∙ h, e)
IsFirstIll-unsorted cs s (inr (c, m, ill, e, rest)) = inr (
  c,
  Any-sort_names (λ d. d ≡ c) cs m,
  ill,
  e,
  sym (every-sort_names (λ d. is_healthy d || not (named_before d c)) cs) ∙ rest,
)

any-map :
    (p : Status → Bool) (cs : List Component)
    → any p (map (λ d. d.status) cs) ≡ any (λ d. p d.status) cs
any-map p [] = refl
any-map p (c ∷ cs) = ap (λ b. p c.status || b) (any-map p cs)

abbrev judged : List Component → Status
judged cs = elim cs [ [] ↦ unknown | c ∷ cs ↦ verdict (map (λ d. d.status) (c ∷ cs)) ]

judged-verdict :
    (cs : List Component)
    → every (λ _. false) cs ≡ false
    → judged cs ≡ verdict (map (λ d. d.status) cs)
judged-verdict [] h = absurd (cc)
judged-verdict (c ∷ cs) h = refl

verdict-IsVerdict :
    (c : Component) (cs : List Component)
    → IsVerdict (c ∷ cs) (verdict (map (λ d. d.status) (sort_names (c ∷ cs))))
verdict-IsVerdict c cs =
    let xs = sort_names (c ∷ cs) in
    let ss = map (λ d. d.status) xs in
    let fe = any-map is_failed xs ∙ any-sort_names has_failed (c ∷ cs) in
    let de = any-map is_degraded xs ∙ any-sort_names has_degraded (c ∷ cs) in
    let at_failed = λ (f d : Bool). if f then failed else if d then degraded else first_ill ss in
    elim (Bool-cases (any has_failed (c ∷ cs))) [
      | inl f ↦ inl (f, ap (λ b. at_failed b (any is_degraded ss)) (fe ∙ f))
      | inr f ↦
          let alive = ap (λ b. at_failed b (any is_degraded ss)) (fe ∙ f) in
          elim (Bool-cases (any has_degraded (c ∷ cs))) [
            | inl d ↦ inr (inl (f, d, alive ∙ ap (at_failed false) (de ∙ d)))
            | inr d ↦ inr (
                inr (
                  f,
                  d,
                  subst (IsFirstIll (c ∷ cs)) (sym (alive ∙ ap (at_failed false) (de ∙ d))) (
                      IsFirstIll-unsorted (c ∷ cs) (first_ill ss)
                        (first_ill-IsFirstIll xs (sort_names-IsSorted (c ∷ cs)))),
                ))
          ]
    ]

judged-IsVerdict : (cs : List Component) → IsVerdict cs (judged (sort_names cs))
unfolding sort_names
judged-IsVerdict [] = refl
judged-IsVerdict (c ∷ cs) =
    subst (IsVerdict (c ∷ cs))
      (sym (judged-verdict (sort_names (c ∷ cs)) (every-sort_names (λ _. false) (c ∷ cs))))
      (verdict-IsVerdict c cs)

-- The components that the registry holds, in the order of its map.
abbrev pub components : Registry → List Component
components r = map (λ e. e.1) r

-- The overall status of a registry, whatever the order of its map, is unknown without components. Else it is
-- failed exactly if a component is failed, else degraded if a component is degraded; else it is healthy if
-- every component is, and if not, it is the status of a component that is not healthy and before whose name
-- stands the name of no other such component.
pub overall-IsVerdict : (r : Registry) → IsVerdict (components r) (overall r)
unfolding snapshot
overall-IsVerdict r =
    subst (IsVerdict (components r)) (sym (overall-snapshot r)) (judged-IsVerdict (components r))
