-- ===== src/Scenario/Validate/Ids.antt =====
-- internal/scenario/model/validate.go: collectFlowStepIDs. `none` is the error about a duplicate.
use home_sentinel.Base.{
  ◌≡◌, ◌≢◌, ◌↔◌, refl, sym, ◌∙◌, String, str_eq, eq_iff, Bool, false, Option, none, some, List, [],
  ◌∷◌, ◌++◌, any, if◌then◌else◌, All, Bool-cases, inl, inr, arith,
}
use home_sentinel.Scenario.Model.{
  Head, Flow, nil, cons, Step, step, IfStep, no_if, if_step, OptFlow, no_flow, flow, SwitchStep,
  no_switch, switch_step, Cases, no_case, case, ParallelStep, no_parallel, parallel_step, Branches,
  no_branch, branch,
}
use home_sentinel.Scenario.Tree.{
  heads, step_heads, if_heads, opt_heads, switch_heads, cases_heads, parallel_heads, branches_heads,
}

-- `seen` is the set of IDs, as a list.
abbrev pub is_seen : String → List String → Bool
is_seen id seen = any (λ s. str_eq s id) seen

-- The next part of the walk, where the one before it had no error.
abbrev after : Option (List String) → (List String → Option (List String)) → Option (List String)
after none next = none
after (some seen) next = next seen

unfoldable pub note_id : String → List String → Option (List String)
note_id id seen = if is_seen id seen then none else some (id ∷ seen)

unfoldable mutual
  unfolding note_id

  pub collect_ids : Flow → List String → Option (List String)
  collect_ids nil seen = some seen
  collect_ids (cons st rest) seen = after (collect_step st seen) (collect_ids rest)

  pub collect_step : Step → List String → Option (List String)
  collect_step (step h f sw p) seen =
      after (note_id h.id seen)
        λ s. after (collect_if f s) λ t. after (collect_switch sw t) (collect_parallel p)

  pub collect_if : IfStep → List String → Option (List String)
  collect_if no_if seen = some seen
  collect_if (if_step c t e) seen = after (collect_ids t seen) (collect_opt e)

  pub collect_opt : OptFlow → List String → Option (List String)
  collect_opt no_flow seen = some seen
  collect_opt (flow f) seen = collect_ids f seen

  pub collect_switch : SwitchStep → List String → Option (List String)
  collect_switch no_switch seen = some seen
  collect_switch (switch_step cs d) seen = after (collect_cases cs seen) (collect_opt d)

  pub collect_cases : Cases → List String → Option (List String)
  collect_cases no_case seen = some seen
  collect_cases (case w f cs) seen = after (collect_ids f seen) (collect_cases cs)

  pub collect_parallel : ParallelStep → List String → Option (List String)
  collect_parallel no_parallel seen = some seen
  collect_parallel (parallel_step bs) seen = collect_branches bs seen

  pub collect_branches : Branches → List String → Option (List String)
  collect_branches no_branch seen = some seen
  collect_branches (branch f bs) seen = after (collect_ids f seen) (collect_branches bs)

-- The same walk on a list of IDs.
note_all : List Head → List String → Option (List String)
note_all [] seen = some seen
note_all (h ∷ hs) seen = after (note_id h.id seen) (note_all hs)

after_assoc :
    (o : Option (List String)) (f g k : List String → Option (List String))
    → ((s : List String) → k s ≡ after (f s) g)
    → after o k ≡ after (after o f) g
after_assoc none f g k h = refl
after_assoc (some s) f g k h = h s

after_ext :
    (o : Option (List String)) (f g : List String → Option (List String))
    → ((s : List String) → f s ≡ g s)
    → after o f ≡ after o g
after_ext none f g h = refl
after_ext (some s) f g h = h s

note_all-append :
    (hs ks : List Head) (seen : List String)
    → note_all (hs ++ ks) seen ≡ after (note_all hs seen) (note_all ks)
unfolding note_all
note_all-append [] ks seen = refl
note_all-append (h ∷ hs) ks seen = after_assoc (note_id h.id seen) _ _ _ (note_all-append hs ks)

-- Two parts of the walk, each of which is the walk on a list.
joined :
    (hs ks : List Head) (seen : List String) (o : Option (List String))
    (next : List String → Option (List String))
    → o ≡ note_all hs seen
    → ((s : List String) → next s ≡ note_all ks s)
    → after o next ≡ note_all (hs ++ ks) seen
joined hs ks seen o next p q =
    rw p (after_ext (note_all hs seen) next (note_all ks) q ∙ sym (note_all-append hs ks seen))

mutual
  unfolding collect_ids heads note_all

  collect_ids-all : (f : Flow) (seen : List String) → collect_ids f seen ≡ note_all (heads f) seen
  collect_ids-all nil seen = refl
  collect_ids-all (cons st rest) seen =
      joined (step_heads st) (heads rest) seen (collect_step st seen) (collect_ids rest)
        (step-all st seen) (collect_ids-all rest)

  step-all : (st : Step) (seen : List String) → collect_step st seen ≡ note_all (step_heads st) seen
  step-all (step h f sw p) seen =
      after_ext (note_id h.id seen) _
        (note_all (if_heads f ++ (switch_heads sw ++ parallel_heads p)))
        λ s.
          joined (if_heads f) (switch_heads sw ++ parallel_heads p) s (collect_if f s) _
            (if-all f s)
            λ t.
              joined (switch_heads sw) (parallel_heads p) t (collect_switch sw t)
                (collect_parallel p) (switch-all sw t) (parallel-all p)

  if-all : (f : IfStep) (seen : List String) → collect_if f seen ≡ note_all (if_heads f) seen
  if-all no_if seen = refl
  if-all (if_step c t e) seen =
      joined (heads t) (opt_heads e) seen (collect_ids t seen) (collect_opt e)
        (collect_ids-all t seen) (opt-all e)

  opt-all : (e : OptFlow) (seen : List String) → collect_opt e seen ≡ note_all (opt_heads e) seen
  opt-all no_flow seen = refl
  opt-all (flow f) seen = collect_ids-all f seen

  switch-all :
      (sw : SwitchStep) (seen : List String)
      → collect_switch sw seen ≡ note_all (switch_heads sw) seen
  switch-all no_switch seen = refl
  switch-all (switch_step cs d) seen =
      joined (cases_heads cs) (opt_heads d) seen (collect_cases cs seen) (collect_opt d)
        (cases-all cs seen) (opt-all d)

  cases-all :
      (cs : Cases) (seen : List String) → collect_cases cs seen ≡ note_all (cases_heads cs) seen
  cases-all no_case seen = refl
  cases-all (case w f cs) seen =
      joined (heads f) (cases_heads cs) seen (collect_ids f seen) (collect_cases cs)
        (collect_ids-all f seen) (cases-all cs)

  parallel-all :
      (p : ParallelStep) (seen : List String)
      → collect_parallel p seen ≡ note_all (parallel_heads p) seen
  parallel-all no_parallel seen = refl
  parallel-all (parallel_step bs) seen = branches-all bs seen

  branches-all :
      (bs : Branches) (seen : List String)
      → collect_branches bs seen ≡ note_all (branches_heads bs) seen
  branches-all no_branch seen = refl
  branches-all (branch f bs) seen =
      joined (heads f) (branches_heads bs) seen (collect_ids f seen) (collect_branches bs)
        (collect_ids-all f seen) (branches-all bs)

-- No ID stands twice.
abbrev pub Distinct : List Head → Type 0
Distinct [] = Unit
Distinct (h ∷ hs) = All (λ k. h.id ≢ k.id) hs × Distinct hs

abbrev Unseen : List String → Head → Type 0
Unseen seen h = All (λ s. s ≢ h.id) seen

is_seen_iff :
    (id : String) (seen : List String) → (is_seen id seen ≡ false) ↔ All (λ s. s ≢ id) seen
is_seen_iff id [] = ((λ _. tt), λ _. refl)
is_seen_iff id (s ∷ seen) =
    let ih = is_seen_iff id seen in
    (
      (λ h. ((λ e. ground (arith, (eq_iff s id).1 e)), ih.0 (ground arith))),
      λ h. ground (arith, ih.1 h.1, h.0, (eq_iff s id).0),
    )

All-both : (P Q : Head → Type 0) (hs : List Head) → All (λ h. P h × Q h) hs ↔ (All P hs × All Q hs)
All-both P Q [] = ((λ _. (tt, tt)), λ _. tt)
All-both P Q (h ∷ hs) =
    let ih = All-both P Q hs in
    (
      (λ a. ((a.0.0, (ih.0 a.1).0), (a.0.1, (ih.0 a.1).1))),
      λ a. ((a.0.0, a.1.0), ih.1 (a.0.1, a.1.1)),
    )

note_all-Distinct :
    (hs : List Head) (seen : List String)
    → (note_all hs seen ≢ none) ↔ (All (Unseen seen) hs × Distinct hs)
unfolding note_all note_id
note_all-Distinct [] seen = ((λ _. (tt, tt)), λ _ e. cc)
note_all-Distinct (h ∷ hs) seen = elim (Bool-cases (is_seen h.id seen)) [
  | inl old ↦
      rw old ((λ n. absurd (n refl)), λ d. absurd (ground (arith, (is_seen_iff h.id seen).1 d.0.0)))
  | inr new ↦
      let ih = note_all-Distinct hs (h.id ∷ seen) in
      let split = All-both (λ k. h.id ≢ k.id) (Unseen seen) hs in
      rw new (
        (λ n.
            let (unseen, distinct) = ih.0 n in
            let (other, rest) = split.0 unseen in
            (((is_seen_iff h.id seen).0 new, rest), (other, distinct))),
        λ d. ih.1 (split.1 (d.1.0, d.0.1), d.1.1),
      )
]

All-Unseen_empty : (hs : List Head) → All (Unseen []) hs
All-Unseen_empty [] = tt
All-Unseen_empty (h ∷ hs) = (tt, All-Unseen_empty hs)

-- The IDs of a flow are collected without an error exactly when no two of its steps, at any depth,
-- have the same ID.
pub collect_ids-Distinct : (f : Flow) → (collect_ids f [] ≢ none) ↔ Distinct (heads f)
collect_ids-Distinct f =
    let all = note_all-Distinct (heads f) [] in
    rw (collect_ids-all f []) ((λ n. (all.0 n).1), λ d. all.1 (All-Unseen_empty (heads f), d))
