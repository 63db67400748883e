-- ===== src/Scenario/Capability/Arguments/Choices.antt =====
-- internal/scenario/capability/action.go: the values that a field's schema lists.
use home_sentinel.Base.{
  trim-solid, ◌≡◌, refl, sym, ap, ◌∙◌, inl, inr, String, codes, to_lower, bytes_eq→eq, Bool, true,
  false, not, ◌&&◌, ◌||◌, Option, none, some, Option-cases, ℕ, is_space, lower, every, List, [],
  ◌∷◌, if◌then◌else◌, has_text, Dict, lookup, arith, Bool-cases, &&-left, &&-right,
}
use home_sentinel.Scenario.Model.{string, enum, TypeRef, type_ref, Value, Expr, expr, Exprs}
use home_sentinel.Scenario.Types.{kind, compatible, same_kind, normalize}
use home_sentinel.Scenario.Types.Partial.{normalize-kind, compatible-kind, same_kind-eq}
use home_sentinel.Scenario.Checking.{check_args, first_is_ref}
use home_sentinel.Scenario.Values.{Json, canonical, with_normal, canonical_data}
use home_sentinel.Scenario.Expression.{is_zero_expr, is_present, valid_expr}
use home_sentinel.Scenario.Checking.{check_expr, check_head, op_of, literal, on}
use home_sentinel.Scenario.Capability.Descriptor.{Descriptor, FieldSchema, is_empty, valid_id}
use home_sentinel.Scenario.Capability.Descriptor.Validate.{valid_fields, valid_schema, field_fits}
use home_sentinel.Scenario.Capability.Arguments.{
  has_field, known_arguments, is_literal, literal_text, argument_fits, may_miss, field_filled,
  fields_filled, validate_action_arguments,
}

-- A schema without the values that its fields list.
unfoldable pub unlisted : List FieldSchema → List FieldSchema
unlisted [] = []
unlisted (f ∷ fs) = record f { values = [] } ∷ unlisted fs

space-lower : (c : ℕ) → is_space c ≡ true → is_space (lower c) ≡ true
space-lower c h = ground (arith, h)

solid-to_lower :
    (s : List ℕ)
    → every (λ c. not (is_space c)) (to_lower s) ≡ true
    → every (λ c. not (is_space c)) s ≡ true
unfolding to_lower
solid-to_lower [] h = refl
solid-to_lower (c ∷ s) h =
    rw
      (
        solid c (&&-left (not (is_space (lower c))) (every (λ d. not (is_space d)) (to_lower s)) h),
        solid-to_lower s
            (&&-right (not (is_space (lower c))) (every (λ d. not (is_space d)) (to_lower s)) h),
      )
      refl
  where
    solid : (c : ℕ) → not (is_space (lower c)) ≡ true → not (is_space c) ≡ true
    solid c h = elim (Bool-cases (is_space c)) [
      | inl y ↦ absurd (true-not (ap not (space-lower c y)) h)
      | inr n ↦ rw (n) refl
    ]
      where
        true-not : {b : Bool} → b ≡ false → b ≡ true → ⊥
        true-not p q = ground (arith, p, q)

-- What the check takes for a literal is one for the type checker.
op_of-literal : (op : String) → is_literal op ≡ true → op_of op ≡ literal
unfolding is_literal op_of
op_of-literal op h =
    let e = bytes_eq→eq (to_lower (codes op)) (codes "literal") h in
    let solid = solid-to_lower (codes op) (ap (every (λ c. not (is_space c))) e) in
    rw (trim-solid (codes op) solid, e) refl

canonical-kind : (j : Json) (v w : Value) → canonical j v ≡ some w → kind w.type ≡ kind v.type
unfolding canonical
canonical-kind j v w h = elim (Option-cases (normalize v.type)) [
  | inl e ↦ absurd (ground (arith, e, h))
  | inr (n, e) ↦ with_normal-kind j v w n e (ap (λ x. with_normal j x v.raw) (sym e) ∙ h)
]
  where
    with_normal-kind :
        (j : Json) (v w : Value) (n : TypeRef)
        → normalize v.type ≡ some n
        → with_normal j (some n) v.raw ≡ some w
        → kind w.type ≡ kind v.type
    with_normal-kind j v w n e h = elim (Bool-cases (j.is_json v.raw)) [
      | inr e2 ↦ absurd (ground (arith, e2, h))
      | inl e2 ↦ elim (Option-cases (canonical_data j n v.raw)) [
        | inl e3 ↦ absurd (ground (arith, e2, e3, h))
        | inr (raw, e3) ↦
            let made : Value = record { type = n; raw = raw } in
            let same : made ≡ w = ground (arith, e2, e3, h) in
            ap (λ x. kind x.type) (sym same) ∙ normalize-kind v.type n e
      ]
    ]

on-inv : (b : Bool) (x : Option TypeRef) (t : TypeRef) → on b x ≡ some t → x ≡ some t
on-inv b x t h = ground (arith, h)

enum-string : enum ≡ string → ⊥
enum-string e = ground (arith, e)

has_field-unlisted :
    (name : String) (fs : List FieldSchema) → has_field name fs ≡ has_field name (unlisted fs)
unfolding has_field unlisted
has_field-unlisted name [] = refl
has_field-unlisted name (f ∷ fs) = rw (has_field-unlisted name fs) refl

module _ (j : Json) (env : Dict TypeRef) where
  literal-type :
      (op r : String) (v : Value) (args : Exprs) (t : TypeRef)
      → is_literal op ≡ true
      → check_expr (canonical j) env (expr op r (some v) args) ≡ some t
      → kind t ≡ kind v.type
  unfolding check_expr check_head
  literal-type op r v args t h e =
      let head =
        on-inv (valid_expr (λ x. is_present (canonical j x)) (expr op r (some v) args)) _ t e in
      let made =
        ap
          (λ o.
            check_head (canonical j) env o r (some v) (first_is_ref args)
              (check_args (canonical j) env args))
          (sym (op_of-literal op h))
        ∙ head in
      elim (Option-cases (canonical j v)) [
        | inl n ↦ absurd (ground (arith, n, made))
        | inr (w, n) ↦
            let same : w.type ≡ t = ground (arith, n, made) in
            ap kind (sym same) ∙ canonical-kind j v w n
      ]

  listed_kind :
      (f : FieldSchema) (a : TypeRef)
      → normalize f.type ≡ some a
      → field_fits j (normalize f.type) f ≡ true
      → is_empty f.values ≡ false
      → kind a ≡ enum
  listed_kind f (type_ref k u n e vs el) na v h =
      let fits = ap (λ o. field_fits j o f) (sym na) ∙ v in
      same_kind-eq k enum (or-left (is_empty f.values) (same_kind k enum) h (&&-left _ _ fits))
    where
      or-left : (a b : Bool) → a ≡ false → (a || b) ≡ true → b ≡ true
      or-left a b h k = ground (arith, h, k)

  -- The text of a literal is not read for a field that lists values.
  literal_text-unread :
      (f : FieldSchema) (e : Expr) (t : TypeRef)
      → field_fits j (normalize f.type) f ≡ true
      → is_empty f.values ≡ false
      → check_expr (canonical j) env e ≡ some t
      → compatible f.type t ≡ true
      → literal_text j e ≡ none
  literal_text-unread f (expr op r none args) t v h c k = refl
  literal_text-unread f (expr op r (some x) args) t v h c k = elim (Bool-cases (is_literal op)) [
    | inr n ↦ rw (n) refl
    | inl y ↦ elim (Bool-cases (same_kind (kind x.type) string)) [
      | inr n ↦ rw (n) (ground arith)
      | inl text ↦
          let (a, b, na, nb, same) = compatible-kind f.type t k in
          let is_text = same_kind-eq (kind x.type) string text in
          let listed = listed_kind f a na v h in
          absurd (
            enum-string (
              sym listed
              ∙ (same ∙ (normalize-kind t b nb ∙ (literal-type op r x args t y c ∙ is_text)))))
    ]
  ]

  argument_fits-unlisted :
      (f : FieldSchema) (e : Expr) (x : Option TypeRef)
      → check_expr (canonical j) env e ≡ x
      → field_fits j (normalize f.type) f ≡ true
      → argument_fits j env f e x ≡ argument_fits j env (record f { values = [] }) e x
  argument_fits-unlisted f e none c v = refl
  argument_fits-unlisted f e (some t) c v = elim (Bool-cases (compatible f.type t)) [
    | inr n ↦ rw (n) refl
    | inl k ↦ elim (Bool-cases (is_empty f.values)) [
      | inl y ↦ rw (y) refl
      | inr n ↦ rw (n, literal_text-unread f e t v n c k) refl
    ]
  ]

  field_filled-unlisted :
      (f : FieldSchema) (o : Option Expr)
      → field_fits j (normalize f.type) f ≡ true
      → field_filled j env f o ≡ field_filled j env (record f { values = [] }) o
  field_filled-unlisted f none v = refl
  field_filled-unlisted f (some e) v =
      ap (λ b. if is_zero_expr e then may_miss j env f else b) (argument_fits-unlisted f e _ refl v)

  fields_filled-unlisted :
      (fs : List FieldSchema) (args : Dict Expr) (seen : List String)
      → valid_fields j fs seen ≡ true
      → fields_filled j env fs args ≡ fields_filled j env (unlisted fs) args
  unfolding fields_filled valid_fields unlisted
  fields_filled-unlisted [] args seen v = refl
  fields_filled-unlisted (f ∷ fs) args seen v =
      let parts =
        four (valid_id f.name) (field_fits j (normalize f.type) f) (not (has_text f.name seen))
          (valid_fields j fs (f.name ∷ seen)) v in
      rw
        (
          field_filled-unlisted f (lookup f.name args) parts.0,
          fields_filled-unlisted fs args (f.name ∷ seen) parts.1,
        )
        refl
    where
      four : (a b c d : Bool) → (a && (b && (c && d))) ≡ true → (b ≡ true) × (d ≡ true)
      four a b c d h = ground (arith, h)

  known_arguments-unlisted :
      (args : Dict Expr) (fs : List FieldSchema)
      → known_arguments args fs ≡ known_arguments args (unlisted fs)
  unfolding known_arguments
  known_arguments-unlisted [] fs = refl
  known_arguments-unlisted (arg ∷ args) fs =
      rw (has_field-unlisted arg.0 fs, known_arguments-unlisted args fs) refl

  -- For a descriptor whose input schema is valid, as it is when it was registered, the check of an action's
  -- arguments gives the same answer when the values that the fields list are left out: a literal of an
  -- enumeration is never compared with them.
  pub validate_action_arguments-unlisted :
      (d : Descriptor) (args : Dict Expr)
      → valid_schema j d.input ≡ true
      → validate_action_arguments j env d args
        ≡ validate_action_arguments j env (record d { input = unlisted d.input }) args
  unfolding validate_action_arguments valid_schema
  validate_action_arguments-unlisted d args v =
      rw (known_arguments-unlisted args d.input, fields_filled-unlisted d.input args [] v) refl
