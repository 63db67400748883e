-- ===== src/Callback/Replay/Invariant.antt =====
-- The invariant of the replay guard, and that its loops and `consume` keep it.
use home_sentinel.Base.{
  ℕ, ◌≤◌, ◌<◌, ◌≡◌, refl, ◌⊎◌, inl, inr, String, str_eq, eq_iff, false, Option, none, some, List,
  [], ◌∷◌, ◌++◌, ltb, leb, length, All, Any, Dict, lookup, insert, lookup-insert, lookup-erase,
  arith, Bool-cases, sym, ◌∙◌, ◌≢◌, ap, subst, is_blank, ◌||◌,
}
use home_sentinel.Callback.Claims.{Claims, time_unix, or_wall}
use home_sentinel.Callback.Replay.{
  Entry, ReplayGuard, forget, prune, evict, is_after, admit, consume, replay_key,
}

-- The map holds an expiry of the key, no earlier than `t`.
abbrev pub AtLeast : ℕ → Option ℕ → Type 0
AtLeast t none = ⊥
AtLeast t (some t') = t ≤ t'

-- Each queued admission is remembered by the map, under its own expiry or a later one.
abbrev pub Remembered : Dict ℕ → List Entry → Type 0
Remembered seen = All (λ e. AtLeast e.expires_at (lookup e.key seen))

-- A later admission of the same key has a later expiry.
abbrev pub Newer : Entry → List Entry → Type 0
Newer e = All (λ e'. e.key ≡ e'.key → e.expires_at < e'.expires_at)

abbrev pub Increasing : List Entry → Type 0
Increasing [] = Unit
Increasing (e ∷ es) = Newer e es × Increasing es

pub lookup-forget :
    (e : Entry) (j : String) (seen : Dict ℕ)
    → (lookup j (forget e seen) ≡ lookup j seen)
      ⊎ ((e.key ≡ j) × (lookup j seen ≡ some e.expires_at) × (lookup j (forget e seen) ≡ none))
unfolding forget
lookup-forget e j seen = ground (arith, lookup-erase e.key j seen, eq_iff e.key j)

pub forget-Remembered :
    (e : Entry) (seen : Dict ℕ) (es : List Entry)
    → Newer e es
    → Remembered seen es
    → Remembered (forget e seen) es
forget-Remembered e seen [] n r = tt
forget-Remembered e seen (e' ∷ es) n r =
    (ground (arith, lookup-forget e e'.key seen, n.0), forget-Remembered e seen es n.1 r.1)

-- Each remembered expiry stands in the queue, with its key.
abbrev pub Queued : String → ℕ → List Entry → Type 0
Queued k t = Any (λ e. (e.key ≡ k) × (e.expires_at ≡ t))

abbrev pub Backed : Dict ℕ → List Entry → Type 0
Backed seen es = (k : String) (t : ℕ) → lookup k seen ≡ some t → Queued k t es

forget_own : (e : Entry) (seen : Dict ℕ) → lookup e.key (forget e seen) ≢ some e.expires_at
unfolding forget
forget_own e seen = ground (arith, lookup-erase e.key e.key seen, eq_iff e.key e.key)

forget-Backed :
    (e : Entry) (seen : Dict ℕ) (es : List Entry) → Backed seen (e ∷ es) → Backed (forget e seen) es
forget-Backed e seen es b k t h = elim (lookup-forget e k seen) [
  | inr (_, _, gone) ↦ cc
  | inl same ↦ elim (b k t (sym same ∙ h)) [
    | inr later ↦ later
    | inl (named, due) ↦ absurd (forget_own e seen (ground (arith)))
  ]
]

-- What holds of the map and the queue together.
pub record Agree (seen : Dict ℕ) (es : List Entry) : Type 0 where
  pub increasing : Increasing es
  pub remembered : Remembered seen es
  pub backed : Backed seen es

pub forget-Agree :
    (e : Entry) (seen : Dict ℕ) (es : List Entry) → Agree seen (e ∷ es) → Agree (forget e seen) es
forget-Agree e seen es a = record {
  increasing = a.increasing.1;
  remembered = forget-Remembered e seen es a.increasing.0 a.remembered.1;
  backed = forget-Backed e seen es a.backed;
}

pub prune-Agree :
    (now : ℕ) (seen : Dict ℕ) (es : List Entry)
    → Agree seen es
    → Agree (prune now seen es).0 (prune now seen es).1
unfolding prune
prune-Agree now seen [] a = a
prune-Agree now seen (e ∷ es) a = elim (Bool-cases (ltb now e.expires_at)) [
  | inl live ↦ rw live a
  | inr due ↦ rw due (prune-Agree now (forget e seen) es (forget-Agree e seen es a))
]

pub evict-Agree :
    (max : ℕ) (seen : Dict ℕ) (es : List Entry)
    → Agree seen es
    → Agree (evict max seen es).0 (evict max seen es).1
unfolding evict
evict-Agree max seen [] a = a
evict-Agree max seen (e ∷ es) a = elim (Bool-cases (ltb max (length (e ∷ es)))) [
  | inr fits ↦ rw fits a
  | inl over ↦ rw over (evict-Agree max (forget e seen) es (forget-Agree e seen es a))
]

pub length-evict-le :
    (max : ℕ) (seen : Dict ℕ) (es : List Entry) → length (evict max seen es).1 ≤ max
unfolding evict
length-evict-le max seen [] = omega arith
length-evict-le max seen (e ∷ es) = ground (arith, length-evict-le max (forget e seen) es)

pub length-prune-le :
    (now : ℕ) (seen : Dict ℕ) (es : List Entry) → length (prune now seen es).1 ≤ length es
unfolding prune
length-prune-le now seen [] = omega arith
length-prune-le now seen (e ∷ es) = ground (arith, length-prune-le now (forget e seen) es)

-- A new admission of a key whose remembered expiry, if any, has passed.
module _ (key : String) (expires now : ℕ) (seen : Dict ℕ)
    (fresh : is_after (lookup key seen) now ≡ false) (live : now < expires) where
  abbrev admission : Entry
  admission = record { key = key; expires_at = expires }

  append-Newer :
      (e : Entry) (es : List Entry)
      → AtLeast e.expires_at (lookup e.key seen)
      → Newer e es
      → Newer e (es ++ admission ∷ [])
  append-Newer e [] r n = (λ same. ground (arith, ap (λ k. lookup k seen) same), tt)
  append-Newer e (x ∷ es) r n = (n.0, append-Newer e es r n.1)

  append-Increasing :
      (es : List Entry) → Remembered seen es → Increasing es → Increasing (es ++ admission ∷ [])
  append-Increasing [] r i = (tt, tt)
  append-Increasing (e ∷ es) r i = (append-Newer e es r.0 i.0, append-Increasing es r.1 i.1)

  append-Remembered :
      (es : List Entry)
      → Remembered seen es
      → Remembered (insert key expires seen) (es ++ admission ∷ [])
  append-Remembered [] r = (ground (arith, lookup-insert key key expires seen, eq_iff key key), tt)
  append-Remembered (e ∷ es) r = (
    ground (arith, lookup-insert key e.key expires seen, eq_iff key e.key),
    append-Remembered es r.1,
  )

  Queued-append :
      (k : String) (t : ℕ) (es : List Entry) → Queued k t es → Queued k t (es ++ admission ∷ [])
  Queued-append k t [] h = elim h [ ]
  Queued-append k t (e ∷ es) (inl q) = inl q
  Queued-append k t (e ∷ es) (inr q) = inr (Queued-append k t es q)

  Queued-last : (es : List Entry) → Queued key expires (es ++ admission ∷ [])
  Queued-last [] = inl (refl, refl)
  Queued-last (e ∷ es) = inr (Queued-last es)

  append-Backed :
      (es : List Entry) → Backed seen es → Backed (insert key expires seen) (es ++ admission ∷ [])
  append-Backed es b k t h = elim (Bool-cases (str_eq key k)) [
    | inl same ↦
        let here : lookup k (insert key expires seen) ≡ some expires =
          ground (arith, lookup-insert key k expires seen) in
        let named : key ≡ k = (eq_iff key k).0 same in
        let due : expires ≡ t = ground arith in
        subst (λ j. Queued j t (es ++ admission ∷ [])) named
          (subst (λ u. Queued key u (es ++ admission ∷ [])) due (Queued-last es))
    | inr other ↦ Queued-append k t es (b k t (ground (arith, lookup-insert key k expires seen)))
  ]

  pub append-Agree :
      (es : List Entry) → Agree seen es → Agree (insert key expires seen) (es ++ admission ∷ [])
  append-Agree es a = record {
    increasing = append-Increasing es a.remembered a.increasing;
    remembered = append-Remembered es a.remembered;
    backed = append-Backed es a.backed;
  }

-- The invariant of a guard: the queue is within its capacity, and it agrees with the map.
pub record Inv (g : ReplayGuard) : Type 0 where
  pub bounded : length g.ordered ≤ g.max
  pub agree : Agree g.seen g.ordered

-- A new guard satisfies it.
pub empty-Inv : (max : ℕ) → Inv (record { max = max; seen = []; ordered = [] })
unfolding lookup
empty-Inv max = record {
  bounded = omega arith;
  agree = record { increasing = tt; remembered = tt; backed = λ k t h. cc };
}

pub admit-Inv :
    (g : ReplayGuard) (key : String) (expires now : ℕ)
    → now < expires
    → Inv g
    → Inv (admit g key expires now).0
unfolding admit
admit-Inv g key expires now live v =
    let (seen, ordered) = prune now g.seen g.ordered in
    let a = prune-Agree now g.seen g.ordered v.agree in
    elim (Bool-cases (is_after (lookup key seen) now)) [
      | inl held ↦ rw held (record {
        bounded = omega (arith, length-prune-le now g.seen g.ordered, v.bounded);
        agree = a;
      })
      | inr fresh ↦ rw fresh (record {
        bounded = length-evict-le g.max _ _;
        agree = evict-Agree g.max _ _ (append-Agree key expires now seen fresh live ordered a);
      })
    ]

-- `Consume` keeps the invariant of the guard, whatever it answers.
pub consume-Inv :
    (wall : ℕ) (g : ReplayGuard) (c : Claims) (now : ℕ) → Inv g → Inv (consume wall g c now).0
unfolding consume
consume-Inv wall g c now v = elim (Bool-cases (is_blank c.key_id || is_blank c.nonce)) [
  | inl blank ↦ rw blank v
  | inr named ↦ elim (Bool-cases (leb (time_unix c.expires_at) (or_wall wall now))) [
    | inl due ↦ rw (named, due) v
    | inr live ↦
        rw (named, live)
          (admit-Inv g (replay_key c) (time_unix c.expires_at) (or_wall wall now) (ground arith) v)
  ]
]
