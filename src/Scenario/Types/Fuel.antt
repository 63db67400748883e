-- ===== src/Scenario/Types/Fuel.antt =====
-- internal/scenario/model/type.go: the depth of a type is fuel enough for `Compatible`.
use home_sentinel.Base.{
  ◌≡◌, refl, ap, ◌∙◌, ℕ, zero, suc, ◌≤◌, min, String, Bool, true, ◌&&◌, Option, none, some, List,
  arith,
}
use home_sentinel.Scenario.Model.{
  ValueKind, enum, entity_ref, list, TypeRef, type_ref, Element, no_element, element,
}
use home_sentinel.Scenario.Types.{
  same_kind, kind, valid_type, assemble, as_element, normalize, normalize_element, same_element,
  same_detail, same_normal, compatible_within, compatible, depth, element_depth,
}

-- The parts of a type that was put together.
pub assemble-inv :
    (k : ValueKind) (unit name entity : String) (vs : Option (List String)) (el : Option Element)
    (n : TypeRef)
    → assemble k unit name entity vs el ≡ some n
    → (values : List String) × (inner : Element) × (vs ≡ some values)
      × (el ≡ some inner)
      × (n ≡ type_ref k unit name entity values inner)
      × (valid_type n ≡ true)
assemble-inv k unit name entity none el n h = absurd (cc)
assemble-inv k unit name entity (some values) none n h = absurd (cc)
assemble-inv k unit name entity (some values) (some inner) n h =
    (values, inner, refl, refl, ground (arith, h), ground (arith, h))

as_element-inv :
    (o : Option TypeRef) (inner : Element)
    → as_element o ≡ some inner
    → (t : TypeRef) × (o ≡ some t) × (inner ≡ element t)
as_element-inv none inner h = absurd (cc)
as_element-inv (some t) inner h = (t, refl, cc)

mutual
  unfolding normalize

  normalize-depth_block : (t n : TypeRef) → normalize t ≡ some n → depth n ≡ depth t
  normalize-depth_block (type_ref k unit name entity values el) n h =
      let (vs, inner, _, e, q, _) = assemble-inv k _ _ _ _ _ n h in
      ap depth q ∙ ap suc (normalize_element-depth el inner e)

  normalize_element-depth :
      (el inner : Element)
      → normalize_element el ≡ some inner
      → element_depth inner ≡ element_depth el
  normalize_element-depth no_element inner h = ground (arith, h)
  normalize_element-depth (element t) inner h =
      let (u, e, q) = as_element-inv (normalize t) inner h in
      ap element_depth q ∙ normalize-depth_block t u e

-- Normalization keeps the depth.
pub normalize-depth : (t n : TypeRef) → normalize t ≡ some n → depth n ≡ depth t
normalize-depth t n h = normalize-depth_block t n h

-- Two tests that agree on the types of a depth.
abbrev Agree : (f g : TypeRef → TypeRef → Bool) → ℕ → Type 0
Agree f g k = (a b : TypeRef) → depth a ≤ k → f a b ≡ g a b

same_element-cong :
    (f g : TypeRef → TypeRef → Bool) (k : ℕ) (x y : Element)
    → element_depth x ≤ k
    → Agree f g k
    → same_element f x y ≡ same_element g x y
same_element-cong f g k no_element y h agree = refl
same_element-cong f g k (element a) no_element h agree = refl
same_element-cong f g k (element a) (element b) h agree = agree a b h

same_detail-cong :
    (f g : TypeRef → TypeRef → Bool) (k : ℕ) (x y : TypeRef)
    → depth x ≤ suc k
    → Agree f g k
    → same_detail f x y ≡ same_detail g x y
same_detail-cong f g k (type_ref list u n e v l) (type_ref k2 u2 n2 e2 v2 l2) h agree =
    same_element-cong f g k l l2 (omega arith) agree
same_detail-cong f g k (type_ref enum u n e v l) (type_ref k2 u2 n2 e2 v2 l2) h agree = refl
same_detail-cong f g k (type_ref entity_ref u n e v l) (type_ref k2 u2 n2 e2 v2 l2) h agree = refl
same_detail-cong f g k (type_ref _ u n e v l) (type_ref k2 u2 n2 e2 v2 l2) h agree = refl

same_normal-cong :
    (f g : TypeRef → TypeRef → Bool) (k : ℕ) (x y : Option TypeRef)
    → ((t : TypeRef) → x ≡ some t → depth t ≤ suc k)
    → Agree f g k
    → same_normal f x y ≡ same_normal g x y
same_normal-cong f g k none y h agree = refl
same_normal-cong f g k (some a) none h agree = refl
same_normal-cong f g k (some a) (some b) h agree =
    ap (λ t. same_kind (kind a) (kind b) && t) (same_detail-cong f g k a b (h a refl) agree)

depth-pos : (t : TypeRef) → suc zero ≤ depth t
depth-pos (type_ref k unit name entity values el) = omega arith

-- Any two amounts of fuel that reach the depth of the left type give one verdict.
pub compatible_within-fuel :
    (m n : ℕ) (t u : TypeRef)
    → depth t ≤ m
    → depth t ≤ n
    → compatible_within m t u ≡ compatible_within n t u
unfolding compatible_within
compatible_within-fuel zero n t u h h' = absurd (omega (arith, depth-pos t))
compatible_within-fuel (suc m) zero t u h h' = absurd (omega (arith, depth-pos t))
compatible_within-fuel (suc m) (suc n) t u h h' =
    same_normal-cong (compatible_within m) (compatible_within n) (min m n) (normalize t)
      (normalize u) (λ x e. omega (arith, normalize-depth t x e))
      (λ a b d. compatible_within-fuel m n a b (omega arith) (omega arith))

-- `Compatible` meets the equation of the source, in which it calls itself on the element types of the
-- normalized types: the fuel never runs out.
pub compatible-unroll :
    (t u : TypeRef) → compatible t u ≡ same_normal compatible (normalize t) (normalize u)
unfolding compatible_within compatible
compatible-unroll t u =
    compatible_within-fuel (depth t) (suc (depth t)) t u (omega arith) (omega arith)
    ∙ same_normal-cong (compatible_within (depth t)) (λ a b. compatible_within (depth a) a b)
        (depth t) (normalize t) (normalize u) (λ x e. omega (arith, normalize-depth t x e))
        (λ a b d. compatible_within-fuel (depth t) (depth a) a b d (omega arith))
