-- ===== src/Callback/Accept/Once.antt =====
-- An accepted callback is accepted once, over any sequence of presented tokens.
use home_sentinel.Base.{
  ℕ, suc, ◌+◌, ◌<◌, ◌≡◌, sym, ap, subst, ◌∙◌, String, true, Option, none, some, List, [], ◌∷◌,
  length, All, arith, inl, inr,
}
use home_sentinel.Callback.Claims.{Err, Claims, time_unix, or_wall}
use home_sentinel.Callback.Replay.{ReplayGuard, consume, replay_key}
use home_sentinel.Callback.Replay.Invariant.{Inv, consume-Inv}
use home_sentinel.Callback.Replay.Once.{
  Held, Behind-weaken, consume-Held, max-consume, consume-none-Held, consume-Held_replay,
  consume-none_named,
}
use home_sentinel.Callback.Token.{Crypto, Keyring, ok, verify}
use home_sentinel.Callback.Accept.{Binding, complete_binding, matches, Accepted, accept}
use home_sentinel.Callback.Accept.Decide.{accept_cases, accept-verified}

-- A presented token: the clocks at the call, the token, and the route's binding.
pub record Attempt : Type 0 where
  pub verified_at : ℕ
  pub now : ℕ
  pub token : String
  pub expected : Binding

module _ (k : Crypto) (wall : ℕ) (keys : Keyring) where
  abbrev attempt : ReplayGuard → Attempt → ReplayGuard × Accepted
  attempt g a = accept k wall keys g a.verified_at a.now a.token a.expected

  unfoldable pub accept_all : ReplayGuard → List Attempt → ReplayGuard
  accept_all g [] = g
  accept_all g (a ∷ rest) = accept_all (attempt g a).0 rest

  pub attempt-Inv : (g : ReplayGuard) (a : Attempt) → Inv g → Inv (attempt g a).0
  attempt-Inv g a v = elim (accept_cases k wall keys g a.verified_at a.now a.token a.expected) [
    | inl (same, _, _) ↦ subst Inv (sym same) v
    | inr (c, _, _, same) ↦
        subst Inv (sym (ap (λ (o : ReplayGuard × Accepted). o.0) same))
          (consume-Inv wall g c a.now v)
  ]

  max-attempt : (g : ReplayGuard) (a : Attempt) → (attempt g a).0.max ≡ g.max
  max-attempt g a = elim (accept_cases k wall keys g a.verified_at a.now a.token a.expected) [
    | inl (same, _, _) ↦ ap (λ (h : ReplayGuard). h.max) same
    | inr (c, _, _, same) ↦
        ap (λ (o : ReplayGuard × Accepted). o.0.max) same ∙ max-consume wall g c a.now
  ]

  module _ (key : String) (t : ℕ) where
    abbrev HeldBy : ℕ → ReplayGuard → Type 0
    HeldBy n g = Held key t n g.seen g.ordered

    attempt-Held :
        (n : ℕ) (g : ReplayGuard) (a : Attempt)
        → suc n < g.max
        → or_wall wall a.now < t
        → Inv g
        → HeldBy n g
        → HeldBy (suc n) (attempt g a).0
    attempt-Held n g a room live v h =
        elim (accept_cases k wall keys g a.verified_at a.now a.token a.expected) [
          | inl (same, _, _) ↦
              subst (HeldBy (suc n)) (sym same)
                (record { known = h.known; behind = Behind-weaken key t n g.ordered h.behind })
          | inr (c, _, _, same) ↦
              subst (HeldBy (suc n)) (sym (ap (λ (o : ReplayGuard × Accepted). o.0) same))
                (consume-Held key t n wall g c a.now room live v h)
        ]

    accept_all-Held :
        (n : ℕ) (g : ReplayGuard) (rest : List Attempt)
        → n + length rest < g.max
        → All (λ a. or_wall wall a.now < t) rest
        → Inv g
        → HeldBy n g
        → Inv (accept_all g rest) × HeldBy (n + length rest) (accept_all g rest)
    unfolding accept_all
    accept_all-Held n g [] room live v h = (v, let e : n + 0 ≡ n = omega arith in rw e h)
    accept_all-Held n g (a ∷ rest) room live v h =
        let e : n + suc (length rest) ≡ suc n + length rest = omega arith in
        rw e (
          accept_all-Held (suc n) (attempt g a).0 rest (omega (arith, max-attempt g a)) live.1
            (attempt-Inv g a v) (attempt-Held n g a (omega arith) live.0 v h))

  admitted-consume :
      (g : ReplayGuard) (a : Attempt) (c : Claims)
      → (attempt g a).1.error ≡ none
      → (attempt g a).1.claims ≡ some c
      → ((attempt g a).0 ≡ (consume wall g c a.now).0) × ((consume wall g c a.now).1 ≡ none)
  admitted-consume g a c admitted given =
      elim (accept_cases k wall keys g a.verified_at a.now a.token a.expected) [
        | inl (_, _, failed) ↦ absurd (failed admitted)
        | inr (c', _, _, same) ↦
            let own : c' ≡ c = cc (ap (λ (o : ReplayGuard × Accepted). o.1.claims) same) in
            let result = ap (λ (o : ReplayGuard × Accepted). o.1.error) same in
            (
              ap (λ (o : ReplayGuard × Accepted). o.0) same
                  ∙ ap (λ (d : Claims). (consume wall g d a.now).0) own,
              ap (λ (d : Claims). (consume wall g d a.now).1) (sym own) ∙ (sym result ∙ admitted),
            )
      ]

  -- Take a token that was accepted. After any tokens, presented on any routes, that are fewer than
  -- the capacity of the guard, presenting it again on a route that its claims match is refused as a
  -- replay with its claims, as long as it still verifies and the clock stood before its expiry.
  pub accept_once :
      (g : ReplayGuard) (first again : Attempt) (between : List Attempt) (c : Claims)
      → Inv g
      → (attempt g first).1.error ≡ none
      → (attempt g first).1.claims ≡ some c
      → length between < g.max
      → All (λ a. or_wall wall a.now < time_unix c.expires_at) between
      → or_wall wall again.now < time_unix c.expires_at
      → complete_binding again.expected ≡ true
      → verify k wall keys again.verified_at again.token ≡ ok c
      → matches again.expected c ≡ true
      → (attempt (accept_all (attempt g first).0 between) again).1
        ≡ record { claims = some c; error = some Err.replay }
  accept_once g first again between c v admitted given few live before complete verified matched =
      let (same, none_err) = admitted-consume g first c admitted given in
      let start : HeldBy (replay_key c) (time_unix c.expires_at) 0 (attempt g first).0 =
        subst (HeldBy (replay_key c) (time_unix c.expires_at) 0) (sym same)
          (consume-none-Held wall g c first.now (omega arith) v none_err) in
      let (v', h) =
        accept_all-Held (replay_key c) (time_unix c.expires_at) 0 (attempt g first).0 between
          (omega (arith, max-attempt g first)) live (attempt-Inv g first v) start in
      let named = consume-none_named wall g c first.now none_err in
      let refused = consume-Held_replay (0 + length between) wall _ c again.now v' named before h in
      ap (λ (o : ReplayGuard × Accepted). o.1)
        (accept-verified k wall keys _ again.verified_at again.now again.token again.expected c
          complete verified matched)
      ∙ ap (λ (e : Option Err). record { claims = some c; error = e }) refused
