-- ===== src/Correlation/Seen.antt =====
-- The set of seen events and its queue.
use home_sentinel.Base.{
  ℕ, suc, ◌≤◌, ◌<◌, ◌≡◌, ◌≢◌, refl, ◌⊎◌, inl, inr, sym, ◌∙◌, subst, String, eq_iff, none, List, [],
  ◌∷◌, ◌++◌, ltb, length, length-append, All, Dict, lookup, insert, erase, lookup-insert,
  lookup-erase, arith, Bool-cases, Option-cases,
}
use home_sentinel.Correlation.{evict, note}

-- No event stands twice in the queue.
abbrev pub Unique : List String → Type 0
Unique [] = Unit
Unique (x ∷ xs) = All (λ y. x ≢ y) xs × Unique xs

abbrev pub Present : Dict String → String → Type 0
Present seen x = lookup x seen ≢ none

pub record Known (seen : Dict String) (order : List String) : Type 0 where
  pub unique : Unique order
  pub kept : All (Present seen) order

Present-insert :
    (x y c : String) (seen : Dict String) → Present seen x → Present (insert y c seen) x
Present-insert x y c seen p e = p (ground (arith, lookup-insert y x c seen, e))

Present-insert_same : (y c : String) (seen : Dict String) → Present (insert y c seen) y
Present-insert_same y c seen e = ground (arith, lookup-insert y y c seen, eq_iff y y, e)

Present-erase :
    (x y : String) (seen : Dict String) → y ≢ x → Present seen x → Present (erase y seen) x
Present-erase x y seen apart p e = p (ground (arith, lookup-erase y x seen, eq_iff y x, e))

All-insert :
    (y c : String) (seen : Dict String) (xs : List String)
    → All (Present seen) xs
    → All (Present (insert y c seen)) xs
All-insert y c seen [] a = tt
All-insert y c seen (x ∷ xs) a = (Present-insert x y c seen a.0, All-insert y c seen xs a.1)

All-erase :
    (y : String) (seen : Dict String) (xs : List String)
    → All (λ x. y ≢ x) xs
    → All (Present seen) xs
    → All (Present (erase y seen)) xs
All-erase y seen [] apart a = tt
All-erase y seen (x ∷ xs) apart a =
    (Present-erase x y seen apart.0 a.0, All-erase y seen xs apart.1 a.1)

-- The queue with a new event at its end.
Unique-append :
    (x : String) (xs : List String) → All (λ y. y ≢ x) xs → Unique xs → Unique (xs ++ x ∷ [])
Unique-append x [] apart u = (tt, tt)
Unique-append x (y ∷ ys) apart u = (All-end ys apart.0 u.0, Unique-append x ys apart.1 u.1)
  where
    All-end : (zs : List String) → y ≢ x → All (λ z. y ≢ z) zs → All (λ z. y ≢ z) (zs ++ x ∷ [])
    All-end [] e a = (e, tt)
    All-end (z ∷ zs) e a = (a.0, All-end zs e a.1)

All-last :
    (P : String → Type 0) (x : String) (xs : List String) → All P xs → P x → All P (xs ++ x ∷ [])
All-last P x [] a p = (p, tt)
All-last P x (y ∷ ys) a p = (a.0, All-last P x ys a.1 p)

absent-apart :
    (x : String) (seen : Dict String) (xs : List String)
    → lookup x seen ≡ none
    → All (Present seen) xs
    → All (λ y. y ≢ x) xs
absent-apart x seen [] absent a = tt
absent-apart x seen (y ∷ ys) absent a = (
  (λ e. a.0 (subst (λ z. lookup z seen ≡ none) (sym e) absent)),
  absent-apart x seen ys absent a.1,
)

evict-Known :
    (max : ℕ) (seen : Dict String) (order : List String)
    → Known seen order
    → Known (evict max seen order).0 (evict max seen order).1
unfolding evict
evict-Known max seen [] k = k
evict-Known max seen (x ∷ xs) k = elim (Bool-cases (ltb max (length (x ∷ xs)))) [
  | inl full ↦ rw full (
      evict-Known max (erase x seen) xs
        (record { unique = k.unique.1; kept = All-erase x seen xs k.unique.0 k.kept.1 }))
  | inr fits ↦ rw fits k
]

pub length-evict-le :
    (max : ℕ) (seen : Dict String) (order : List String) → length (evict max seen order).1 ≤ max
unfolding evict
length-evict-le max seen [] = omega arith
length-evict-le max seen (x ∷ xs) = ground (arith, length-evict-le max (erase x seen) xs)

pub note-Known :
    (max : ℕ) (x c : String) (seen : Dict String) (order : List String)
    → Known seen order
    → Known (note max x c seen order).0 (note max x c seen order).1
unfolding note
note-Known max x c seen order k = elim (Option-cases (lookup x seen)) [
  | inl absent ↦
      rw (note, absent)
        (evict-Known max (insert x c seen) (order ++ x ∷ []) (record {
          unique = Unique-append x order (absent-apart x seen order absent k.kept) k.unique;
          kept =
              All-last _ x order (All-insert x c seen order k.kept) (Present-insert_same x c seen);
        }))
  | inr (_, there) ↦ rw (note, there) k
]

pub length-note-le :
    (max : ℕ) (x c : String) (seen : Dict String) (order : List String)
    → length order ≤ max
    → length (note max x c seen order).1 ≤ max
unfolding note
length-note-le max x c seen order le = elim (Option-cases (lookup x seen)) [
  | inl absent ↦ rw (note, absent) (length-evict-le max (insert x c seen) (order ++ x ∷ []))
  | inr (_, there) ↦ rw (note, there) le
]

-- At most `n` events stand behind `x` in the queue.
abbrev pub Behind : String → ℕ → List String → Type 0
Behind x n [] = ⊥
Behind x n (y ∷ ys) = ((y ≡ x) × (length ys ≤ n)) ⊎ Behind x n ys

Behind-apart :
    (x y : String) (n : ℕ) (ys : List String) → All (λ z. y ≢ z) ys → Behind x n ys → y ≢ x
Behind-apart x y n [] apart b = elim b [ ]
Behind-apart x y n (z ∷ zs) apart (inl (same, _)) = λ e. apart.0 (e ∙ sym same)
Behind-apart x y n (z ∷ zs) apart (inr b) = Behind-apart x y n zs apart.1 b

pub Behind-weaken : (x : String) (n : ℕ) (ys : List String) → Behind x n ys → Behind x (suc n) ys
Behind-weaken x n [] b = elim b [ ]
Behind-weaken x n (y ∷ ys) (inl (same, few)) = inl (same, omega (arith, few))
Behind-weaken x n (y ∷ ys) (inr b) = inr (Behind-weaken x n ys b)

Behind-append :
    (x z : String) (n : ℕ) (ys : List String) → Behind x n ys → Behind x (suc n) (ys ++ z ∷ [])
Behind-append x z n [] b = elim b [ ]
Behind-append x z n (y ∷ ys) (inl (same, few)) =
    inl (same, omega (arith, few, length-append ys (z ∷ [])))
Behind-append x z n (y ∷ ys) (inr b) = inr (Behind-append x z n ys b)

Behind-last : (x : String) (ys : List String) → Behind x 0 (ys ++ x ∷ [])
Behind-last x [] = inl (refl, omega arith)
Behind-last x (y ∷ ys) = inr (Behind-last x ys)

-- What is remembered, with at most `n` newer events.
pub record Held (x : String) (n : ℕ) (seen : Dict String) (order : List String) : Type 0 where
  pub present : Present seen x
  pub behind : Behind x n order

evict-Held :
    (x : String) (n max : ℕ) (seen : Dict String) (order : List String)
    → n < max
    → Unique order
    → Held x n seen order
    → Held x n (evict max seen order).0 (evict max seen order).1
unfolding evict
evict-Held x n max seen [] room u h = absurd h.behind
evict-Held x n max seen (y ∷ ys) room u h = elim (Bool-cases (ltb max (length (y ∷ ys)))) [
  | inr fits ↦ rw fits h
  | inl full ↦ rw full (elim h.behind [
    | inl (same, few) ↦ absurd (ground (arith, few, room, full))
    | inr b ↦ evict-Held x n max (erase y seen) ys room u.1 (record {
      present = Present-erase x y seen (Behind-apart x y n ys u.0 b) h.present;
      behind = b;
    })
  ])
]

-- Remembering another event moves what is held one place on at most.
pub note-Held :
    (x : String) (n max : ℕ) (y c : String) (seen : Dict String) (order : List String)
    → suc n < max
    → Known seen order
    → Held x n seen order
    → Held x (suc n) (note max y c seen order).0 (note max y c seen order).1
unfolding note
note-Held x n max y c seen order room k h = elim (Option-cases (lookup y seen)) [
  | inr (_, there) ↦
      rw (note, there) (record { present = h.present; behind = Behind-weaken x n order h.behind })
  | inl absent ↦
      rw (note, absent)
        (evict-Held x (suc n) max (insert y c seen) (order ++ y ∷ []) room
          (Unique-append y order (absent-apart y seen order absent k.kept) k.unique)
          (record {
            present = Present-insert x y c seen h.present;
            behind = Behind-append x y n order h.behind;
          }))
]

pub note_new-Held :
    (x : String) (max : ℕ) (c : String) (seen : Dict String) (order : List String)
    → 0 < max
    → Known seen order
    → lookup x seen ≡ none
    → Held x 0 (note max x c seen order).0 (note max x c seen order).1
unfolding note
note_new-Held x max c seen order room k absent =
    rw (note, absent)
      (evict-Held x 0 max (insert x c seen) (order ++ x ∷ []) room
        (Unique-append x order (absent-apart x seen order absent k.kept) k.unique)
        (record { present = Present-insert_same x c seen; behind = Behind-last x order }))
