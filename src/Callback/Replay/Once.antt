-- ===== src/Callback/Replay/Once.antt =====
-- A token that was admitted is refused until `max` other admissions or its own expiry.
use home_sentinel.Base.{
  ℕ, suc, ◌+◌, ◌≤◌, ◌<◌, ◌≡◌, refl, ◌⊎◌, inl, inr, String, str_eq, eq_iff, false, none, some, List,
  [], ◌∷◌, ◌++◌, ltb, leb, length, All, Dict, lookup, lookup-insert, length-append, arith,
  Bool-cases, sym, ◌∙◌, ap, subst, is_blank, ◌||◌,
}
use home_sentinel.Callback.Claims.{Err, Claims, time_unix, or_wall}
use home_sentinel.Callback.Replay.{
  Entry, ReplayGuard, forget, prune, evict, is_after, admit, consume, replay_key,
}
use home_sentinel.Callback.Replay.Invariant.{
  Newer, Agree, Inv, lookup-forget, forget-Agree, prune-Agree, append-Agree, consume-Inv,
}

-- An entry of key `k` and expiry `t` stands in the queue, with at most `n` entries behind it.
abbrev pub Behind : String → ℕ → ℕ → List Entry → Type 0
Behind k t n [] = ⊥
Behind k t n (e ∷ es) = ((e.key ≡ k) × (e.expires_at ≡ t) × (length es ≤ n)) ⊎ Behind k t n es

-- The key is remembered under the expiry `t`, and at most `n` admissions are newer.
pub record Held (k : String) (t n : ℕ) (seen : Dict ℕ) (es : List Entry) : Type 0 where
  pub known : lookup k seen ≡ some t
  pub behind : Behind k t n es

module _ (k : String) (t : ℕ) where
  Newer-Behind :
      (e : Entry) (n : ℕ) (es : List Entry)
      → Newer e es
      → Behind k t n es
      → e.key ≡ k
      → e.expires_at < t
  Newer-Behind e n [] w b same = elim b [ ]
  Newer-Behind e n (x ∷ es) w (inl (named, due, _)) same =
      subst (λ u. e.expires_at < u) due (w.0 (same ∙ sym named))
  Newer-Behind e n (x ∷ es) w (inr b) same = Newer-Behind e n es w.1 b same

  -- An entry that leaves the queue and is not the held one changes nothing of what is held.
  forget-Held :
      (e : Entry) (n : ℕ) (seen : Dict ℕ) (es : List Entry)
      → Newer e es
      → lookup k seen ≡ some t
      → Behind k t n es
      → Held k t n (forget e seen) es
  forget-Held e n seen es w known b = record {
    known = elim (lookup-forget e k seen) [
      | inl same ↦ same ∙ known
      | inr (named, due, _) ↦ let early = Newer-Behind e n es w b named in absurd (ground arith)
    ];
    behind = b;
  }

  prune-Held :
      (n now : ℕ) (seen : Dict ℕ) (es : List Entry)
      → now < t
      → Agree seen es
      → Held k t n seen es
      → Held k t n (prune now seen es).0 (prune now seen es).1
  unfolding prune
  prune-Held n now seen [] live a h = h
  prune-Held n now seen (e ∷ es) live a h = elim (Bool-cases (ltb now e.expires_at)) [
    | inl fresh ↦ rw fresh h
    | inr due ↦ rw due (elim h.behind [
      | inl (_, own, _) ↦ absurd (ground arith)
      | inr b ↦
          prune-Held n now (forget e seen) es live (forget-Agree e seen es a)
            (forget-Held e n seen es a.increasing.0 h.known b)
    ])
  ]

  evict-Held :
      (n max : ℕ) (seen : Dict ℕ) (es : List Entry)
      → n < max
      → Agree seen es
      → Held k t n seen es
      → Held k t n (evict max seen es).0 (evict max seen es).1
  unfolding evict
  evict-Held n max seen [] room a h = h
  evict-Held n max seen (e ∷ es) room a h = elim (Bool-cases (ltb max (length (e ∷ es)))) [
    | inr fits ↦ rw fits h
    | inl over ↦ rw over (elim h.behind [
      | inl (_, _, last) ↦ absurd (ground arith)
      | inr b ↦
          evict-Held n max (forget e seen) es room (forget-Agree e seen es a)
            (forget-Held e n seen es a.increasing.0 h.known b)
    ])
  ]

  Behind-append :
      (e : Entry) (n : ℕ) (es : List Entry) → Behind k t n es → Behind k t (suc n) (es ++ e ∷ [])
  Behind-append e n [] b = elim b [ ]
  Behind-append e n (x ∷ es) (inl (named, due, last)) =
      inl (named, due, omega (arith, length-append es (e ∷ []), last))
  Behind-append e n (x ∷ es) (inr b) = inr (Behind-append e n es b)

  pub Behind-weaken : (n : ℕ) (es : List Entry) → Behind k t n es → Behind k t (suc n) es
  Behind-weaken n [] b = elim b [ ]
  Behind-weaken n (x ∷ es) (inl (named, due, last)) = inl (named, due, omega arith)
  Behind-weaken n (x ∷ es) (inr b) = inr (Behind-weaken n es b)

  Behind-last : (es : List Entry) → Behind k t 0 (es ++ record { key = k; expires_at = t } ∷ [])
  Behind-last [] = inl (refl, refl, omega arith)
  Behind-last (x ∷ es) = inr (Behind-last es)

  -- Another admission moves what is held one place on.
  admit-Held :
      (n : ℕ) (g : ReplayGuard) (key : String) (expires now : ℕ)
      → suc n < g.max
      → now < t
      → now < expires
      → Inv g
      → Held k t n g.seen g.ordered
      → Held k t (suc n) (admit g key expires now).0.seen (admit g key expires now).0.ordered
  unfolding admit
  admit-Held n g key expires now room live later v h =
      let (seen, ordered) = prune now g.seen g.ordered in
      let a = prune-Agree now g.seen g.ordered v.agree in
      let p = prune-Held n now g.seen g.ordered live v.agree h in
      elim (Bool-cases (is_after (lookup key seen) now)) [
        | inl held ↦ rw held (record { known = p.known; behind = Behind-weaken n ordered p.behind })
        | inr fresh ↦ rw fresh (
            evict-Held (suc n) g.max _ _ room
              (append-Agree key expires now seen fresh later ordered a)
              (record {
                known = elim (Bool-cases (str_eq key k)) [
                  | inl same ↦
                      let named = (eq_iff key k).0 same in
                      let known = p.known in
                      absurd (ground (arith, ap (λ j. is_after (lookup j seen) now) named))
                  | inr other ↦ lookup-insert key k expires seen ∙ rw other p.known
                ];
                behind = Behind-append _ n ordered p.behind;
              }))
      ]

  pub consume-Held :
      (n wall : ℕ) (g : ReplayGuard) (c : Claims) (now : ℕ)
      → suc n < g.max
      → or_wall wall now < t
      → Inv g
      → Held k t n g.seen g.ordered
      → Held k t (suc n) (consume wall g c now).0.seen (consume wall g c now).0.ordered
  unfolding consume
  consume-Held n wall g c now room live v h =
      let still : Held k t (suc n) g.seen g.ordered = record {
        known = h.known;
        behind = Behind-weaken n g.ordered h.behind;
      } in
      elim (Bool-cases (is_blank c.key_id || is_blank c.nonce)) [
        | inl blank ↦ rw blank still
        | inr named ↦ elim (Bool-cases (leb (time_unix c.expires_at) (or_wall wall now))) [
          | inl due ↦ rw (named, due) still
          | inr later ↦
              rw (named, later)
                (admit-Held n g (replay_key c) (time_unix c.expires_at) (or_wall wall now) room live
                  (ground arith) v h)
        ]
      ]

-- `Consume` of one token after another, each with the clock at its call.
unfoldable pub consume_all : ℕ → ReplayGuard → List (Claims × ℕ) → ReplayGuard
consume_all wall g [] = g
consume_all wall g ((c, now) ∷ rest) = consume_all wall (consume wall g c now).0 rest

pub max-consume :
    (wall : ℕ) (g : ReplayGuard) (c : Claims) (now : ℕ) → (consume wall g c now).0.max ≡ g.max
unfolding consume admit
max-consume wall g c now = ground arith

consume_all-Held :
    (k : String) (t n wall : ℕ) (g : ReplayGuard) (rest : List (Claims × ℕ))
    → n + length rest < g.max
    → All (λ step. or_wall wall step.1 < t) rest
    → Inv g
    → Held k t n g.seen g.ordered
    → Inv (consume_all wall g rest)
      × Held k t (n + length rest) (consume_all wall g rest).seen (consume_all wall g rest).ordered
unfolding consume_all
consume_all-Held k t n wall g [] room live v h = (v, let e : n + 0 ≡ n = omega arith in rw e h)
consume_all-Held k t n wall g ((c, now) ∷ rest) room live v h =
    let e : n + suc (length rest) ≡ suc n + length rest = omega arith in
    rw e (
      consume_all-Held k t (suc n) wall (consume wall g c now).0 rest
        (omega (arith, max-consume wall g c now)) live.1 (consume-Inv wall g c now v)
        (consume-Held k t n wall g c now (omega arith) live.0 v h))

-- An admission puts its key and expiry at the end of the queue.
pub consume-none-Held :
    (wall : ℕ) (g : ReplayGuard) (c : Claims) (now : ℕ)
    → 0 < g.max
    → Inv g
    → (consume wall g c now).1 ≡ none
    → Held
        (replay_key c)
        (time_unix c.expires_at)
        0
        (consume wall g c now).0.seen
        (consume wall g c now).0.ordered
unfolding consume admit
consume-none-Held wall g c now room v h =
    let key = replay_key c in
    let t = time_unix c.expires_at in
    let clock = or_wall wall now in
    let (seen, ordered) = prune clock g.seen g.ordered in
    let a = prune-Agree clock g.seen g.ordered v.agree in
    elim (Bool-cases (is_blank c.key_id || is_blank c.nonce)) [
      | inl blank ↦ absurd (ground arith)
      | inr named ↦ elim (Bool-cases (leb t clock)) [
        | inl due ↦ absurd (ground arith)
        | inr later ↦ elim (Bool-cases (is_after (lookup key seen) clock)) [
          | inl held ↦ absurd (ground arith)
          | inr fresh ↦
              rw (named, later, fresh)
                (evict-Held key t 0 g.max _ _ room
                  (append-Agree key t clock seen fresh (ground arith) ordered a)
                  (record {
                    known = ground (arith, lookup-insert key key t seen, eq_iff key key);
                    behind = Behind-last key t ordered;
                  }))
        ]
      ]
    ]

-- What is held when the clock stands before its expiry is refused as a replay.
pub consume-Held_replay :
    (n wall : ℕ) (g : ReplayGuard) (c : Claims) (now : ℕ)
    → Inv g
    → (is_blank c.key_id || is_blank c.nonce) ≡ false
    → or_wall wall now < time_unix c.expires_at
    → Held (replay_key c) (time_unix c.expires_at) n g.seen g.ordered
    → (consume wall g c now).1 ≡ some Err.replay
unfolding consume admit
consume-Held_replay n wall g c now v named live h =
    let p =
      prune-Held (replay_key c) (time_unix c.expires_at) n (or_wall wall now) g.seen g.ordered live
        v.agree h in
    let known = p.known in ground arith

pub consume-none_named :
    (wall : ℕ) (g : ReplayGuard) (c : Claims) (now : ℕ)
    → (consume wall g c now).1 ≡ none
    → (is_blank c.key_id || is_blank c.nonce) ≡ false
unfolding consume
consume-none_named wall g c now h = ground arith

pub consume-none-live :
    (wall : ℕ) (g : ReplayGuard) (c : Claims) (now : ℕ)
    → (consume wall g c now).1 ≡ none
    → or_wall wall now < time_unix c.expires_at
unfolding consume
consume-none-live wall g c now h = ground arith

-- From a guard that satisfies the invariant, a token that `Consume` admitted is refused as a replay
-- by a later `Consume` of the same claims, whatever claims were consumed in between, as long as
-- these are fewer than the capacity, and the clock stood before the token's expiry at each call.
pub consume_once :
    (wall : ℕ) (g : ReplayGuard) (c : Claims) (now later : ℕ) (between : List (Claims × ℕ))
    → Inv g
    → (consume wall g c now).1 ≡ none
    → length between < g.max
    → All (λ step. or_wall wall step.1 < time_unix c.expires_at) between
    → or_wall wall later < time_unix c.expires_at
    → (consume wall (consume_all wall (consume wall g c now).0 between) c later).1 ≡ some Err.replay
consume_once wall g c now later between v admitted few live before =
    let (v', h) =
      consume_all-Held (replay_key c) (time_unix c.expires_at) 0 wall (consume wall g c now).0
        between (omega (arith, max-consume wall g c now)) live (consume-Inv wall g c now v)
        (consume-none-Held wall g c now (omega arith) v admitted) in
    consume-Held_replay (0 + length between) wall _ c later v'
      (consume-none_named wall g c now admitted) before h
