-- ===== src/Scenario/Capability/Registry/Visible.antt =====
-- internal/scenario/capability/registry.go: what is listed is visible.
use home_sentinel.Base.{
  ◌≡◌, refl, sym, ap, ◌∙◌, inl, inr, String, str_eq, trim_text, text_before, Bool, true, false, not,
  ◌&&◌, ◌||◌, Option, none, some, List, [], ◌∷◌, every, if◌then◌else◌, Dict, lookup, arith, subst,
  Bool-cases,
}
use home_sentinel.Scenario.Values.{Json}
use home_sentinel.Scenario.Capability.Descriptor.{
  Role, Key, FieldSchema, Descriptor, visible_to, valid_role,
}
use home_sentinel.Scenario.Capability.Descriptor.Validate.{
  clone_descriptor, clone_fields, with_fields,
}
use home_sentinel.Scenario.Capability.Entity.{
  EntityDescriptor, normalize_entity, trimmed_entity, valid_entity,
}
use home_sentinel.Scenario.Capability.Registry.{Registry}
use home_sentinel.Scenario.Capability.Registry.Listing.{
  Filter, is_wanted, is_no_kind, is_same_kind, is_listed, put, listed_over, listed_before,
  listed_for, list, is_listed_entity, has_visible, entities_over, list_entities,
}
use home_sentinel.Scenario.Capability.Registry.Shown.{
  put-every, sorted_by-every, Shown, if-Shown, none-Shown,
}

-- What a role may see of a list of capabilities, and of entities.
abbrev pub shows : Filter → Descriptor → Bool
shows f d = visible_to d.visibility f.role && (f.include_unavailable || d.available)

abbrev pub shows_entity : Role → Bool → EntityDescriptor → Bool
shows_entity role all e = visible_to e.visibility role && (all || e.available)

with_fields-shows :
    (j : Json) (f : Filter) (d c : Descriptor) (i o s : Option (List FieldSchema))
    → with_fields j d i o s ≡ some c
    → shows f d ≡ shows f c
with_fields-shows j f d c (some i) (some o) (some s) e =
    ap (λ x. elim x as (λ _. Bool) [ none ↦ shows f d | some y ↦ shows f y ]) e
with_fields-shows j f d c none o s e = absurd (ground (arith, e))
with_fields-shows j f d c (some i) none s e = absurd (ground (arith, e))
with_fields-shows j f d c (some i) (some o) none e = absurd (ground (arith, e))

shows-clone :
    (j : Json) (f : Filter) (d c : Descriptor)
    → clone_descriptor j d ≡ some c
    → shows f d ≡ shows f c
unfolding clone_descriptor
shows-clone j f d c e =
    with_fields-shows j f d c (clone_fields j d.input) (clone_fields j d.output)
      (clone_fields j d.status) e

is_listed-shows :
    (f : Filter) (keys : Option (List Key)) (key : String) (d : Descriptor)
    → is_listed f keys key d ≡ true
    → shows f d ≡ true
unfolding is_listed
is_listed-shows f keys key d h =
    tests (is_wanted keys key) (is_no_kind f.kind) (is_same_kind d.kind f.kind)
      (str_eq f.category "") (str_eq d.category f.category) (visible_to d.visibility f.role)
      f.include_unavailable d.available h
  where
    tests :
        (wanted none same all_categories same_category visible all available : Bool)
        → (if not wanted
            then false
            else if not none && not same
            then false
            else if not all_categories && not same_category
            then false
            else if not visible
            then false
            else if not all && not available
            then false
            else true)
          ≡ true
        → (visible && (all || available)) ≡ true
    tests a b c d e f g i h = ground (arith, h)

listed_over-shows :
    (j : Json) (f : Filter) (keys : Option (List Key)) (ds : Dict Descriptor)
    (out : List Descriptor)
    → listed_over j f keys ds ≡ some out
    → every (shows f) out ≡ true
unfolding listed_over
listed_over-shows j f keys [] out e =
    subst (λ ys. every (shows f) ys ≡ true)
      (ap (λ o. elim o as (λ _. List Descriptor) [ none ↦ [] | some ys ↦ ys ]) e) refl
listed_over-shows j f keys (entry ∷ rest) out e =
    elim (Bool-cases (is_listed f keys entry.0 entry.1)) [
      | inl y ↦
          put-every (shows f) (clone_descriptor j entry.1) (listed_over j f keys rest) out
            (λ c h. sym (shows-clone j f entry.1 c h) ∙ is_listed-shows f keys entry.0 entry.1 y)
            (listed_over-shows j f keys rest)
            (ap
                (λ b.
                  if b
                  then put (clone_descriptor j entry.1) (listed_over j f keys rest)
                  else listed_over j f keys rest)
                (sym y)
              ∙ e)
      | inr n ↦ listed_over-shows j f keys rest out (
          ap
            (λ b.
              if b
              then put (clone_descriptor j entry.1) (listed_over j f keys rest)
              else listed_over j f keys rest)
            (sym n)
          ∙ e)
    ]

listed_for-Shown :
    (j : Json) (f : Filter) (e : Option EntityDescriptor) (r : Registry)
    → Shown (shows f) (listed_for j f e r)
unfolding listed_over
listed_for-Shown j f none r out e = listed_over-shows j f none [] out e
listed_for-Shown j f (some e) r out h =
    sorted_by-every listed_before (shows f) (listed_over j f (some e.capabilities) r.capabilities)
      out (listed_over-shows j f (some e.capabilities) r.capabilities) h

list-Shown : (j : Json) (f : Filter) (r : Registry) → Shown (shows f) (list j f r)
unfolding list
list-Shown j f r = if-Shown (shows f) (not (valid_role f.role)) none _ (none-Shown (shows f)) (
    if-Shown (shows f) (not (str_eq (trim_text f.entity_id) "")) _ _
      (listed_for-Shown j f (lookup f.entity_id r.entities) r)
      (λ out.
        sorted_by-every listed_before (shows f) (listed_over j f none r.capabilities) out
          (listed_over-shows j f none r.capabilities)))

shows-normalize_entity :
    (role : Role) (all : Bool) (e n : EntityDescriptor)
    → normalize_entity e ≡ some n
    → shows_entity role all e ≡ true
    → shows_entity role all n ≡ true
unfolding normalize_entity trimmed_entity
shows-normalize_entity role all e n h s = elim (Bool-cases (valid_entity (trimmed_entity e))) [
  | inl y ↦
      let q = ap (λ b. if b then some (trimmed_entity e) else none) (sym y) ∙ h in
      subst (λ x. shows_entity role all x ≡ true)
        (ap (λ o. elim o as (λ _. EntityDescriptor) [ none ↦ trimmed_entity e | some x ↦ x ]) q) s
  | inr n2 ↦
      absurd (ground (arith, ap (λ b. if b then some (trimmed_entity e) else none) (sym n2) ∙ h))
]

entities_over-Shown :
    (role : Role) (all : Bool) (r : Registry) (es : Dict EntityDescriptor)
    → Shown (shows_entity role all) (entities_over role all r es)
unfolding entities_over is_listed_entity
entities_over-Shown role all r [] out e =
    subst (λ ys. every (shows_entity role all) ys ≡ true)
      (ap (λ o. elim o as (λ _. List EntityDescriptor) [ none ↦ [] | some ys ↦ ys ]) e) refl
entities_over-Shown role all r (entry ∷ rest) out e =
    let more = entities_over-Shown role all r rest in
    elim (Bool-cases (is_listed_entity role all r entry.1)) [
      | inl y ↦
          put-every (shows_entity role all) (normalize_entity entry.1)
            (entities_over role all r rest) out
            (λ n h. shows-normalize_entity role all entry.1 n h (
              seen (visible_to entry.1.visibility role) (all || entry.1.available)
                (has_visible entry.1.capabilities role all r) y))
            more
            (ap
                (λ b.
                  if b
                  then put (normalize_entity entry.1) (entities_over role all r rest)
                  else entities_over role all r rest)
                (sym y)
              ∙ e)
      | inr n2 ↦ more out (
          ap
            (λ b.
              if b
              then put (normalize_entity entry.1) (entities_over role all r rest)
              else entities_over role all r rest)
            (sym n2)
          ∙ e)
    ]
  where
    seen : (a b c : Bool) → (a && (b && c)) ≡ true → (a && b) ≡ true
    seen a b c h = ground (arith, h)

-- Every capability and every entity that is listed for a role is visible to that role, and is available unless
-- the request includes what is not.
pub list-shows :
    (j : Json) (f : Filter) (r : Registry) (ds : List Descriptor) (es : List EntityDescriptor)
    → list j f r ≡ some ds
    → list_entities f.role f.include_unavailable r ≡ some es
    → (every (shows f) ds ≡ true) × (every (shows_entity f.role f.include_unavailable) es ≡ true)
unfolding list_entities
list-shows j f r ds es h k = (
  list-Shown j f r ds h,
  if-Shown (shows_entity f.role f.include_unavailable) (not (valid_role f.role)) none _
      (none-Shown (shows_entity f.role f.include_unavailable))
      (λ out.
        sorted_by-every (λ a b. text_before a.id b.id) (shows_entity f.role f.include_unavailable)
          (entities_over f.role f.include_unavailable r r.entities) out
          (entities_over-Shown f.role f.include_unavailable r r.entities))
      es k,
)
