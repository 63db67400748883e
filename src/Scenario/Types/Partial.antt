-- ===== src/Scenario/Types/Partial.antt =====
-- internal/scenario/model/type.go: `Compatible` is symmetric and transitive.
use home_sentinel.Base.{
  ◌≡◌, refl, sym, ap, subst, ◌∙◌, ℕ, zero, suc, ◌≤◌, ◌+◌, String, eq_iff, Bool, true, false, ◌&&◌,
  Option, none, some, List, [], ◌∷◌, arith,
}
use home_sentinel.Scenario.Model.{
  ValueKind, enum, entity_ref, list, TypeRef, type_ref, Element, no_element, element,
}
use home_sentinel.Scenario.Types.{
  ValueKind-discrete, same_kind, kind, same_values, normalize, same_element, same_detail,
  same_normal, compatible_within, compatible, depth, assemble,
}
use home_sentinel.Scenario.Types.Fuel.{assemble-inv, compatible_within-fuel}

pub same_kind-eq : (a b : ValueKind) → same_kind a b ≡ true → a ≡ b
unfolding same_kind
same_kind-eq a b h = elim (ValueKind-discrete a b) [ yes e ↦ e | no e ↦ absurd (ground (arith, h)) ]

pub same_kind_refl : (a : ValueKind) → same_kind a a ≡ true
unfolding same_kind
same_kind_refl a =
    elim (ValueKind-discrete a a) as (λ d. (elim d [ yes _ ↦ true | no _ ↦ false ]) ≡ true) [
      | yes e ↦ refl
      | no e ↦ absurd (e refl)
    ]

same_values_symm : (x y : List String) → same_values x y ≡ true → same_values y x ≡ true
unfolding same_values
same_values_symm [] [] h = refl
same_values_symm [] (b ∷ bs) h = absurd (cc)
same_values_symm (a ∷ as_) [] h = absurd (cc)
same_values_symm (a ∷ as_) (b ∷ bs) h =
    ground (arith, h, same_values_symm as_ bs, eq_iff a b, eq_iff b a)

same_values_trans :
    (x y z : List String) → same_values x y ≡ true → same_values y z ≡ true → same_values x z ≡ true
unfolding same_values
same_values_trans [] [] [] h k = refl
same_values_trans (a ∷ as_) (b ∷ bs) (c ∷ cs) h k =
    ground (arith, h, k, same_values_trans as_ bs cs, eq_iff a b, eq_iff b c, eq_iff a c)
same_values_trans _ _ _ h k = absurd (cc)

abbrev IsSymm : (TypeRef → TypeRef → Bool) → Type 0
IsSymm f = (a b : TypeRef) → f a b ≡ true → f b a ≡ true

abbrev IsTrans : (TypeRef → TypeRef → Bool) → Type 0
IsTrans f = (a b c : TypeRef) → f a b ≡ true → f b c ≡ true → f a c ≡ true

same_element_symm :
    (f : TypeRef → TypeRef → Bool) (x y : Element)
    → IsSymm f
    → same_element f x y ≡ true
    → same_element f y x ≡ true
same_element_symm f (element a) (element b) s h = s a b h
same_element_symm f no_element y s h = absurd (cc)
same_element_symm f (element a) no_element s h = absurd (cc)

same_element_trans :
    (f : TypeRef → TypeRef → Bool) (x y z : Element)
    → IsTrans f
    → same_element f x y ≡ true
    → same_element f y z ≡ true
    → same_element f x z ≡ true
same_element_trans f (element a) (element b) (element c) s h k = s a b c h k
same_element_trans f no_element y z s h k = absurd (cc)
same_element_trans f (element a) no_element z s h k = absurd (cc)
same_element_trans f (element a) (element b) no_element s h k = absurd (cc)

-- On two types of one kind.
same_detail_symm :
    (f : TypeRef → TypeRef → Bool) (k : ValueKind) (u u2 n n2 e e2 : String) (v v2 : List String)
    (l l2 : Element)
    → IsSymm f
    → same_detail f (type_ref k u n e v l) (type_ref k u2 n2 e2 v2 l2) ≡ true
    → same_detail f (type_ref k u2 n2 e2 v2 l2) (type_ref k u n e v l) ≡ true
same_detail_symm f list u u2 n n2 e e2 v v2 l l2 s h = same_element_symm f l l2 s h
same_detail_symm f enum u u2 n n2 e e2 v v2 l l2 s h =
    ground (arith, h, same_values_symm v v2, eq_iff n n2, eq_iff n2 n, eq_iff u u2, eq_iff u2 u)
same_detail_symm f entity_ref u u2 n n2 e e2 v v2 l l2 s h =
    ground (arith, h, eq_iff e e2, eq_iff e2 e)
same_detail_symm f _ u u2 n n2 e e2 v v2 l l2 s h = ground (arith, h, eq_iff u u2, eq_iff u2 u)

same_detail_trans :
    (f : TypeRef → TypeRef → Bool) (k : ValueKind) (u u2 u3 n n2 n3 e e2 e3 : String)
    (v v2 v3 : List String) (l l2 l3 : Element)
    → IsTrans f
    → same_detail f (type_ref k u n e v l) (type_ref k u2 n2 e2 v2 l2) ≡ true
    → same_detail f (type_ref k u2 n2 e2 v2 l2) (type_ref k u3 n3 e3 v3 l3) ≡ true
    → same_detail f (type_ref k u n e v l) (type_ref k u3 n3 e3 v3 l3) ≡ true
same_detail_trans f list u u2 u3 n n2 n3 e e2 e3 v v2 v3 l l2 l3 s h k =
    same_element_trans f l l2 l3 s h k
same_detail_trans f enum u u2 u3 n n2 n3 e e2 e3 v v2 v3 l l2 l3 s h k = ground (
  arith,
  h,
  k,
  same_values_trans v v2 v3,
  eq_iff n n2,
  eq_iff n2 n3,
  eq_iff n n3,
  eq_iff u u2,
  eq_iff u2 u3,
  eq_iff u u3,
)
same_detail_trans f entity_ref u u2 u3 n n2 n3 e e2 e3 v v2 v3 l l2 l3 s h k =
    ground (arith, h, k, eq_iff e e2, eq_iff e2 e3, eq_iff e e3)
same_detail_trans f _ u u2 u3 n n2 n3 e e2 e3 v v2 v3 l l2 l3 s h k =
    ground (arith, h, k, eq_iff u u2, eq_iff u2 u3, eq_iff u u3)

same_normal_symm :
    (f : TypeRef → TypeRef → Bool) (x y : Option TypeRef)
    → IsSymm f
    → same_normal f x y ≡ true
    → same_normal f y x ≡ true
same_normal_symm f none y s h = absurd (cc)
same_normal_symm f (some a) none s h = absurd (cc)
same_normal_symm f (some (type_ref k u n e v l)) (some (type_ref k2 u2 n2 e2 v2 l2)) s h =
    subst
      (λ j.
        same_detail f (type_ref k u n e v l) (type_ref j u2 n2 e2 v2 l2) ≡ true
        → (same_kind j k && same_detail f (type_ref j u2 n2 e2 v2 l2) (type_ref k u n e v l))
          ≡ true)
      (same_kind-eq k k2 (ground (arith, h)))
      (λ d.
        let r = same_detail_symm f k u u2 n n2 e e2 v v2 l l2 s d in
        let q = same_kind_refl k in ground (arith, q, r))
      (ground (arith, h))

same_normal_trans :
    (f : TypeRef → TypeRef → Bool) (x y z : Option TypeRef)
    → IsTrans f
    → same_normal f x y ≡ true
    → same_normal f y z ≡ true
    → same_normal f x z ≡ true
same_normal_trans f none y z s h m = absurd (cc)
same_normal_trans f (some a) none z s h m = absurd (cc)
same_normal_trans f (some a) (some b) none s h m = absurd (ground (arith, m))
same_normal_trans f (some (type_ref k u n e v l)) (some (type_ref k2 u2 n2 e2 v2 l2))
      (some (type_ref k3 u3 n3 e3 v3 l3)) s h m =
    subst
      (λ j.
        same_detail f (type_ref k u n e v l) (type_ref j u2 n2 e2 v2 l2) ≡ true
        → (same_kind j k3 && same_detail f (type_ref j u2 n2 e2 v2 l2) (type_ref k3 u3 n3 e3 v3 l3))
          ≡ true
        → (same_kind k k3 && same_detail f (type_ref k u n e v l) (type_ref k3 u3 n3 e3 v3 l3))
          ≡ true)
      (same_kind-eq k k2 (ground (arith, h)))
      (λ d c.
        subst
          (λ j.
            same_detail f (type_ref k u2 n2 e2 v2 l2) (type_ref j u3 n3 e3 v3 l3) ≡ true
            → (same_kind k j && same_detail f (type_ref k u n e v l) (type_ref j u3 n3 e3 v3 l3))
              ≡ true)
          (same_kind-eq k k3 (ground (arith, c)))
          (λ g.
            let r = same_detail_trans f k u u2 u3 n n2 n3 e e2 e3 v v2 v3 l l2 l3 s d g in
            let q = same_kind_refl k in ground (arith, q, r))
          (ground (arith, c)))
      (ground (arith, h)) m

within-IsSymm : (k : ℕ) → IsSymm (compatible_within k)
unfolding compatible_within
within-IsSymm zero a b h = absurd (cc)
within-IsSymm (suc k) a b h =
    same_normal_symm (compatible_within k) (normalize a) (normalize b) (within-IsSymm k) h

within-IsTrans : (k : ℕ) → IsTrans (compatible_within k)
unfolding compatible_within
within-IsTrans zero a b c h m = absurd (cc)
within-IsTrans (suc k) a b c h m =
    same_normal_trans (compatible_within k) (normalize a) (normalize b) (normalize c)
      (within-IsTrans k) h m

deep : (k : ℕ) (t u : TypeRef) → depth t ≤ k → compatible_within k t u ≡ compatible t u
unfolding compatible
deep k t u h = compatible_within-fuel k (depth t) t u h (omega arith)

-- Whether two types are compatible does not depend on the order in which they are given, and is
-- transitive, through any nesting of lists.
pub compatible-IsPartial : IsSymm compatible × IsTrans compatible
compatible-IsPartial = (
  λ a b h.
      let k = depth a + depth b in
      sym (deep k b a (omega arith)) ∙ within-IsSymm k a b (deep k a b (omega arith) ∙ h),
  λ a b c h m.
      let k = depth a + depth b + depth c in
      sym (deep k a c (omega arith))
      ∙ within-IsTrans k a b c (deep k a b (omega arith) ∙ h) (deep k b c (omega arith) ∙ m),
)

same_normal-kind :
    (f : TypeRef → TypeRef → Bool) (x y : Option TypeRef)
    → same_normal f x y ≡ true
    → (a : TypeRef) × (b : TypeRef) × (x ≡ some a) × (y ≡ some b) × (kind a ≡ kind b)
same_normal-kind f none y h = absurd (cc)
same_normal-kind f (some a) none h = absurd (cc)
same_normal-kind f (some a) (some b) h =
    (a, b, refl, refl, same_kind-eq (kind a) (kind b) (ground (arith, h)))

-- Compatible types can be normalized, to one kind.
pub compatible-kind :
    (t u : TypeRef)
    → compatible t u ≡ true
    → (a : TypeRef) × (b : TypeRef) × (normalize t ≡ some a)
      × (normalize u ≡ some b)
      × (kind a ≡ kind b)
unfolding compatible_within
compatible-kind t u h = same_normal-kind (compatible_within (depth t)) (normalize t) (normalize u) (
    sym (compatible_within-fuel (depth t) (suc (depth t)) t u (omega arith) (omega arith))
    ∙ (deep (depth t) t u (omega arith) ∙ h))

normalize-kind_block :
    (k : ValueKind) (unit name entity : String) (vs : Option (List String)) (el : Option Element)
    (n : TypeRef)
    → assemble k unit name entity vs el ≡ some n
    → kind n ≡ k
normalize-kind_block k unit name entity vs el n h =
    let (values, inner, _, _, q, _) = assemble-inv k unit name entity vs el n h in ap kind q

-- Normalization keeps the kind.
pub normalize-kind : (t n : TypeRef) → normalize t ≡ some n → kind n ≡ kind t
unfolding normalize
normalize-kind (type_ref k unit name entity values el) n h = normalize-kind_block k _ _ _ _ _ n h
