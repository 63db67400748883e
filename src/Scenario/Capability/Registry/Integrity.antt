-- ===== src/Scenario/Capability/Registry/Integrity.antt =====
-- internal/scenario/capability/registry.go: the references of entities, whatever operations run.
use home_sentinel.Base.{
  ◌≡◌, refl, sym, ap, ◌∙◌, inl, inr, String, str_eq, Bool, true, false, Option, none, some, List,
  [], ◌∷◌, if◌then◌else◌, lookup, insert, lookup-insert, written, lookup-erase, arith, Bool-cases,
}
use home_sentinel.Scenario.Values.{Json}
use home_sentinel.Scenario.Capability.Descriptor.{
  HealthStatus, Key, key_text, Descriptor, valid_health, is_some,
}
use home_sentinel.Scenario.Capability.Descriptor.Validate.{normalize_descriptor}
use home_sentinel.Scenario.Capability.Entity.{
  EntityDescriptor, normalize_entity, valid_entity, trimmed_entity,
}
use home_sentinel.Scenario.Capability.Registry.{
  Failure, already_registered, Registry, with_capability, with_entity, store_capability,
  store_entity, done, refused, after, bad_reference, entity_reference_to, register,
  DependencyResolver, new_registry, register_entity, set_capability_health, set_entity_health,
  removal_blocked, remove, remove_entity, answer, set_if_found, set_entity_if_found, first_failure,
}
use home_sentinel.Scenario.Capability.Registry.References.{
  value_or, AreRefs, IsIntact, AreRefs-insert, AreRefs-erase, AreRefs-checked, refers-none,
}

module _ (r : Registry) (intact : IsIntact r) where
  -- A write of a capability that keeps the kinds of what it replaces.
  IsIntact-after_capability :
      (key : String) (d : Descriptor)
      → ((d0 : Descriptor) → lookup key r.capabilities ≡ some d0 → d0.entity_kinds ≡ d.entity_kinds)
      → IsIntact (record r { capabilities = insert key d r.capabilities })
  IsIntact-after_capability key d same id e h =
      AreRefs-insert key d r.capabilities e.kind e.capabilities same (intact id e h)

  register-IsIntact : (j : Json) (source : Descriptor) → IsIntact (after (register j source r))
  unfolding register
  register-IsIntact j source = stored (normalize_descriptor j source)
    where
      fresh :
          (d : Descriptor) (b : Bool)
          → is_some (lookup (key_text d.key) r.capabilities) ≡ b
          → IsIntact (
              after (
                if b
                then refused already_registered r
                else done (with_capability (key_text d.key) d r)))
      fresh d true h = intact
      fresh d false h =
          IsIntact-after_capability (key_text d.key) d (λ d0 g. absurd (ground (arith, h, g)))

      stored : (x : Option Descriptor) → IsIntact (after (store_capability j x r))
      stored none = intact
      stored (some d) = fresh d (is_some (lookup (key_text d.key) r.capabilities)) refl

  -- A write of an entity whose references are registered.
  IsIntact-after_entity :
      (id : String) (e : EntityDescriptor)
      → AreRefs r.capabilities e.kind e.capabilities
      → IsIntact (record r { entities = insert id e r.entities })
  IsIntact-after_entity id e refs other e2 h = elim (Bool-cases (str_eq id other)) [
    | inl y ↦
        let p =
          sym (
            lookup-insert id other e r.entities ∙ ap (λ b. written b e (lookup other r.entities)) y)
          ∙ h in
        rw (sym (ap (value_or e) p)) refs
    | inr n ↦ intact other e2 (
        sym
          (lookup-insert id other e r.entities ∙ ap (λ b. written b e (lookup other r.entities)) n)
        ∙ h)
  ]

  kept_if_refused :
      (f : Option Failure) (next : Registry)
      → (f ≡ none → IsIntact next)
      → IsIntact (after (answer r f next))
  kept_if_refused none next k = k refl
  kept_if_refused (some f) next k = intact

  -- An entity that is valid is stored with its references.
  store_entity-IsIntact :
      (e : EntityDescriptor) → valid_entity e ≡ true → IsIntact (after (store_entity (some e) r))
  unfolding valid_entity
  store_entity-IsIntact e v = elim (Bool-cases (is_some (lookup e.id r.entities))) [
    | inl y ↦ rw (y) intact
    | inr n ↦ rw (n) (
        kept_if_refused (bad_reference r.capabilities e.kind e.capabilities) (with_entity e r) (λ h.
          IsIntact-after_entity e.id e
            (AreRefs-checked r.capabilities e.kind e.capabilities [] (ground (arith, v)) h)))
  ]

  register_entity-IsIntact :
      (source : EntityDescriptor) → IsIntact (after (register_entity source r))
  unfolding register_entity normalize_entity
  register_entity-IsIntact source = elim (Bool-cases (valid_entity (trimmed_entity source))) [
    | inl y ↦ rw (y) (store_entity-IsIntact (trimmed_entity source) y)
    | inr n ↦ rw (n) intact
  ]

  set_capability_health-IsIntact :
      (key : Key) (available : Bool) (level : HealthStatus)
      → IsIntact (after (set_capability_health key available level r))
  unfolding set_capability_health
  set_capability_health-IsIntact key available level = elim (Bool-cases (valid_health level)) [
    | inl y ↦ rw (y) (at (lookup (key_text key) r.capabilities) refl)
    | inr n ↦ rw (n) intact
  ]
    where
      at :
          (x : Option Descriptor)
          → lookup (key_text key) r.capabilities ≡ x
          → IsIntact (after (set_if_found key available level x r))
      at none e = intact
      at (some d) e =
          IsIntact-after_capability (key_text key) _
            (λ d0 g. ap (λ x. (value_or d x).entity_kinds) (sym g ∙ e))

  set_entity_health-IsIntact :
      (id : String) (available : Bool) (level : HealthStatus)
      → IsIntact (after (set_entity_health id available level r))
  unfolding set_entity_health
  set_entity_health-IsIntact id available level = elim (Bool-cases (valid_health level)) [
    | inl y ↦ rw (y) (at (lookup id r.entities) refl)
    | inr n ↦ rw (n) intact
  ]
    where
      at :
          (x : Option EntityDescriptor)
          → lookup id r.entities ≡ x
          → IsIntact (after (set_entity_if_found id available level x r))
      at none e = intact
      at (some e) p = IsIntact-after_entity id _ (intact id e p)

  remove-IsIntact : (before : Registry) (key : Key) → IsIntact (after (remove before key r))
  unfolding remove removal_blocked
  remove-IsIntact before key = kept_if_refused _ _ (λ h id e g.
      AreRefs-erase key r.capabilities e.kind e.capabilities
        (refers-none key r.entities id e (not_blocked _ h) g) (intact id e g))
    where
      not_blocked :
          (f : Option Failure)
          → first_failure f (removal_blocked key r) ≡ none
          → entity_reference_to key r.entities ≡ none
      not_blocked f h = ground (arith, h)

  remove_entity-IsIntact :
      (before : Registry) (id : String) → IsIntact (after (remove_entity before id r))
  unfolding remove_entity
  remove_entity-IsIntact before id =
      kept_if_refused _ _
        (λ h other e g. intact other e (ground (arith, g, lookup-erase id other r.entities)))

-- What may happen to the registry; a removal has made its first tests on any earlier registry.
pub data Operation : Type 0 where
  registers : Descriptor → Operation
  registers_entity : EntityDescriptor → Operation
  sets_health : Key → Bool → HealthStatus → Operation
  sets_entity_health : String → Bool → HealthStatus → Operation
  removes : (before : Registry) → Key → Operation
  removes_entity : (before : Registry) → String → Operation

module _ (j : Json) where
  abbrev pub step : Operation → Registry → Registry
  step (registers d) r = after (register j d r)
  step (registers_entity e) r = after (register_entity e r)
  step (sets_health key available level) r = after (set_capability_health key available level r)
  step (sets_entity_health id available level) r = after (set_entity_health id available level r)
  step (removes before key) r = after (remove before key r)
  step (removes_entity before id) r = after (remove_entity before id r)

  unfoldable pub run : List Operation → Registry → Registry
  run [] r = r
  run (o ∷ os) r = run os (step o r)

  step-IsIntact : (o : Operation) (r : Registry) → IsIntact r → IsIntact (step o r)
  step-IsIntact (registers d) r h = register-IsIntact r h j d
  step-IsIntact (registers_entity e) r h = register_entity-IsIntact r h e
  step-IsIntact (sets_health key available level) r h =
      set_capability_health-IsIntact r h key available level
  step-IsIntact (sets_entity_health id available level) r h =
      set_entity_health-IsIntact r h id available level
  step-IsIntact (removes before key) r h = remove-IsIntact r h before key
  step-IsIntact (removes_entity before id) r h = remove_entity-IsIntact r h before id

  run_keeps : (os : List Operation) (r : Registry) → IsIntact r → IsIntact (run os r)
  unfolding run
  run_keeps [] r h = h
  run_keeps (o ∷ os) r h = run_keeps os (step o r) (step-IsIntact o r h)

-- Whatever operations run on a new registry, in whatever order, and whatever a removal saw before it gave
-- up the lock, every capability of every registered entity stays registered, under the text of its key and
-- for a kind of entity that it takes.
pub run-IsIntact :
    (j : Json) (usage : Option DependencyResolver) (os : List Operation)
    → IsIntact (run j os (new_registry usage))
unfolding lookup
run-IsIntact j usage os = run_keeps j os (new_registry usage) (λ id e h. absurd (ground (arith, h)))
