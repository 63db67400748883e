-- ===== src/Scenario/Capability/Registry/References.antt =====
-- internal/scenario/capability/registry.go: the references of an entity.
use home_sentinel.Base.{
  ◌⊎◌, ◌≡◌, refl, sym, ap, ◌∙◌, inl, inr, String, str_eq, eq_iff, codes, true, false, ◌||◌, Option,
  none, some, List, [], ◌∷◌, if◌then◌else◌, has_text, Dict, lookup, insert, erase, lookup-insert,
  written, lookup-erase, arith, Bool-cases,
}
use home_sentinel.Scenario.Capability.Descriptor.{Key, key_text, Descriptor, is_empty}
use home_sentinel.Scenario.Capability.Entity.{EntityDescriptor, valid_keys}
use home_sentinel.Scenario.Capability.Entity.Separator.{
  is_at_free, at_free-valid_id, at_free-parse_version, key_text_injective,
}
use home_sentinel.Scenario.Capability.Registry.{
  Registry, bad_reference, reference_fault, refers, entity_reference_to, kind_fits,
}

abbrev pub value_or : {A : Type 0} → A → Option A → A
value_or a none = a
value_or a (some x) = x

-- Every key of an entity is registered, for a kind that the capability takes.
abbrev pub AreRefs : Dict Descriptor → String → List Key → Type 0
AreRefs ds kind [] = Unit
AreRefs ds kind (k ∷ ks) =
    (is_at_free (codes k.id) ≡ true)
    × (is_at_free (codes k.version) ≡ true)
    × ((d : Descriptor) × (lookup (key_text k) ds ≡ some d) × (kind_fits d kind ≡ true))
    × AreRefs ds kind ks

abbrev pub IsIntact : Registry → Type 0
IsIntact r =
    (id : String) (e : EntityDescriptor)
    → lookup id r.entities ≡ some e
    → AreRefs r.capabilities e.kind e.capabilities

-- What is found after a write: the new value, or what stood there.
pub written-cases :
    (key other : String) (d : Descriptor) (ds : Dict Descriptor) (d0 : Descriptor)
    → lookup other ds ≡ some d0
    → ((lookup other (insert key d ds) ≡ some d) × (lookup key ds ≡ some d0))
      ⊎ (lookup other (insert key d ds) ≡ some d0)
written-cases key other d ds d0 h = elim (Bool-cases (str_eq key other)) [
  | inl y ↦
      let e : key ≡ other = ground (arith, y, eq_iff key other) in
      inl (
        lookup-insert key other d ds ∙ ap (λ b. written b d (lookup other ds)) y,
        ap (λ k. lookup k ds) e ∙ h,
      )
  | inr n ↦ inr (lookup-insert key other d ds ∙ ap (λ b. written b d (lookup other ds)) n ∙ h)
]

-- References survive a write that keeps the kinds of what it replaces.
pub AreRefs-insert :
    (key : String) (d : Descriptor) (ds : Dict Descriptor) (kind : String) (ks : List Key)
    → ((d0 : Descriptor) → lookup key ds ≡ some d0 → d0.entity_kinds ≡ d.entity_kinds)
    → AreRefs ds kind ks
    → AreRefs (insert key d ds) kind ks
AreRefs-insert key d ds kind [] same refs = tt
AreRefs-insert key d ds kind (k ∷ ks) same (a, b, (d0, found, fits), rest) = (
  a,
  b,
  elim (written-cases key (key_text k) d ds d0 found) [
    | inl new ↦ (d, new.0, ap (λ ws. is_empty ws || has_text kind ws) (sym (same d0 new.1)) ∙ fits)
    | inr old ↦ (d0, old, fits)
  ],
  AreRefs-insert key d ds kind ks same rest,
)

-- References survive the removal of a key that is not among them.
pub AreRefs-erase :
    (key : Key) (ds : Dict Descriptor) (kind : String) (ks : List Key)
    → refers key ks ≡ false
    → AreRefs ds kind ks
    → AreRefs (erase (key_text key) ds) kind ks
unfolding refers
AreRefs-erase key ds kind [] h refs = tt
AreRefs-erase key ds kind (k ∷ ks) h (a, b, (d, found, fits), rest) =
    let other : str_eq (key_text key) (key_text k) ≡ false =
      elim (Bool-cases (str_eq (key_text key) (key_text k))) [
        | inl y ↦
            let e =
              key_text_injective key k a b
                (ground (arith, y, eq_iff (key_text key) (key_text k))) in
            absurd (ground (arith, h, e, eq_iff k.id key.id, eq_iff k.version key.version))
        | inr n ↦ n
      ] in
    (
      a,
      b,
      (
        d,
        lookup-erase (key_text key) (key_text k) ds
            ∙ ap (λ b. if b then none else lookup (key_text k) ds) other
            ∙ found,
        fits,
      ),
      AreRefs-erase key ds kind ks (ground (arith, h)) rest,
    )

-- What `RegisterEntity` has checked are references.
pub AreRefs-checked :
    (ds : Dict Descriptor) (kind : String) (ks : List Key) (seen : List String)
    → valid_keys ks seen ≡ true
    → bad_reference ds kind ks ≡ none
    → AreRefs ds kind ks
unfolding valid_keys bad_reference
AreRefs-checked ds kind [] seen v h = tt
AreRefs-checked ds kind (k ∷ ks) seen v h = (
  at_free-valid_id k.id (ground (arith, v)),
  at_free-parse_version k.version (ground (arith, v)),
  found.0,
  AreRefs-checked ds kind ks (key_text k ∷ seen) (ground (arith, v)) found.1,
)
  where
    found :
        ((d : Descriptor) × (lookup (key_text k) ds ≡ some d) × (kind_fits d kind ≡ true))
        × (bad_reference ds kind ks ≡ none)
    found = fits_at (lookup (key_text k) ds) refl h
      where
        fits_at :
            (x : Option Descriptor)
            → lookup (key_text k) ds ≡ x
            → reference_fault x kind (bad_reference ds kind ks) ≡ none
            → ((d : Descriptor) × (lookup (key_text k) ds ≡ some d) × (kind_fits d kind ≡ true))
              × (bad_reference ds kind ks ≡ none)
        fits_at none e g = absurd (ground (arith, g))
        fits_at (some d) e g = ((d, e, ground (arith, g)), ground (arith, g))

-- An entity that no key refers to.
pub refers-none :
    (key : Key) (es : Dict EntityDescriptor) (id : String) (e : EntityDescriptor)
    → entity_reference_to key es ≡ none
    → lookup id es ≡ some e
    → refers key e.capabilities ≡ false
unfolding entity_reference_to lookup
refers-none key [] id e h g = absurd (ground (arith, g))
refers-none key (entry ∷ rest) id e h g = ground (arith, h, g, refers-none key rest id e)
