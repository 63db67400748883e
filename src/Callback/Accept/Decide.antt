-- ===== src/Callback/Accept/Decide.antt =====
-- What an acceptor admits, and what it keeps on each refusal.
use home_sentinel.Base.{
  ℕ, ◌<◌, ◌≡◌, ◌≢◌, sym, refl, ap, ◌∙◌, ◌⊎◌, String, eq_iff, true, none, some, arith, Bool-cases,
  inl, inr,
}
use home_sentinel.Callback.Claims.{Err, Claims, time_unix, or_wall}
use home_sentinel.Callback.Replay.{ReplayGuard, consume}
use home_sentinel.Callback.Replay.Once.{consume-none-live}
use home_sentinel.Callback.Token.{Crypto, Result, ok, err, Keyring, verify}
use home_sentinel.Callback.Accept.{Binding, complete_binding, matches, Accepted, accept}

-- The claims name exactly the execution, node, event and action of the binding.
pub record Bound (b : Binding) (c : Claims) : Type 0 where
  pub same_execution : c.execution_id ≡ b.execution_id
  pub same_node : c.node_id ≡ b.node_id
  pub same_event : c.event_id ≡ b.event_id
  pub same_action : c.action ≡ b.action

matches→Bound : (b : Binding) (c : Claims) → matches b c ≡ true → Bound b c
unfolding matches
matches→Bound b c h = ground (
  arith,
  eq_iff c.execution_id b.execution_id,
  eq_iff c.node_id b.node_id,
  eq_iff c.event_id b.event_id,
  eq_iff c.action b.action,
)

Result-cases {ℓ} : {A : Type ℓ} (r : Result A) → ((a : A) × (r ≡ ok a)) ⊎ ((e : Err) × (r ≡ err e))
Result-cases (ok a) = inl (a, refl)
Result-cases (err e) = inr (e, refl)

module _ (k : Crypto) (wall : ℕ) (keys : Keyring) (g : ReplayGuard) (verified_at now : ℕ)
    (token : String) (expected : Binding) where
  abbrev outcome : ReplayGuard × Accepted
  outcome = accept k wall keys g verified_at now token expected

  pub accept-verified :
      (c : Claims)
      → complete_binding expected ≡ true
      → verify k wall keys verified_at token ≡ ok c
      → matches expected c ≡ true
      → outcome
        ≡ ((consume wall g c now).0, record { claims = some c; error = (consume wall g c now).1 })
  unfolding accept
  accept-verified c complete v m = rw (complete, v, m)

  -- Either nothing is consumed, or the token verified for exactly this binding and is consumed.
  pub accept_cases :
      ((outcome.0 ≡ g) × (outcome.1.claims ≡ none) × (outcome.1.error ≢ none))
      ⊎ ((c : Claims) × (verify k wall keys verified_at token ≡ ok c)
          × Bound expected c
          × (outcome ≡ (
            (consume wall g c now).0,
            record { claims = some c; error = (consume wall g c now).1 },
          )))
  unfolding accept
  accept_cases = elim (Bool-cases (complete_binding expected)) [
    | inr missing ↦ inl (rw missing, rw missing, rw missing (λ e. cc))
    | inl complete ↦ elim (Result-cases (verify k wall keys verified_at token)) [
      | inr (e, bad) ↦ inl (rw (complete, bad), rw (complete, bad), rw (complete, bad) (λ e. cc))
      | inl (c, v) ↦ elim (Bool-cases (matches expected c)) [
        | inr other ↦
            inl
              (rw (complete, v, other), rw (complete, v, other), rw (complete, v, other) (λ e. cc))
        | inl m ↦ inr (c, v, matches→Bound expected c m, rw (complete, v, m))
      ]
    ]
  ]

  -- Without an error the token verified, its claims match the binding in all four fields, the
  -- replay guard admitted them, and the clock stood strictly before their expiry: the skew that
  -- verification allows after it does not count.
  pub accept_sound :
      outcome.1.error ≡ none
      → (c : Claims) × (outcome.1.claims ≡ some c)
        × (verify k wall keys verified_at token ≡ ok c)
        × Bound expected c
        × (consume wall g c now ≡ (outcome.0, none))
        × (or_wall wall now < time_unix c.expires_at)
  accept_sound h = elim accept_cases [
    | inl (_, _, failed) ↦ absurd (failed h)
    | inr (c, v, bound, same) ↦
        let admitted : (consume wall g c now).1 ≡ none =
          sym (ap (λ (o : ReplayGuard × Accepted). o.1.error) same) ∙ h in
        (
          c,
          ap (λ (o : ReplayGuard × Accepted). o.1.claims) same,
          v,
          bound,
          ground (arith, ap (λ (o : ReplayGuard × Accepted). o.0) same),
          consume-none-live wall g c now admitted,
        )
  ]

  -- The guard stays as it is unless the token verified for exactly this binding: a forged token, or
  -- one presented to a wrong route, is not used up, and no claims are returned.
  pub accept_keeps :
      ((c : Claims) → verify k wall keys verified_at token ≡ ok c → ¬ Bound expected c)
      → (outcome.0 ≡ g) × (outcome.1.claims ≡ none) × (outcome.1.error ≢ none)
  accept_keeps h = elim accept_cases [
    | inl kept ↦ kept
    | inr (c, v, bound, _) ↦ absurd (h c v bound)
  ]
