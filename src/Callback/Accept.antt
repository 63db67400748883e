-- ===== src/Callback/Accept.antt =====
-- internal/security/callback/accept.go: verification, exact binding and replay admission of a token
-- in one operation. The state that an acceptor keeps between calls is its replay guard.
pub mod Decide
pub mod Once
use home_sentinel.Base.{
  ℕ, String, str_eq, Bool, true, false, not, ◌&&◌, ◌||◌, Option, none, some, if◌then◌else◌,
  is_blank,
}
use home_sentinel.Callback.Claims.{Err, Claims}
use home_sentinel.Callback.Replay.{ReplayGuard, consume}
use home_sentinel.Callback.Token.{Crypto, Result, ok, err, Keyring, verify}

pub record Binding : Type 0 where
  pub execution_id : String
  pub node_id : String
  pub event_id : String
  pub action : String

-- `Binding.Validate`, true for a nil error.
unfoldable pub complete_binding : Binding → Bool
complete_binding b =
    not (is_blank b.execution_id || is_blank b.node_id || is_blank b.event_id || is_blank b.action)

unfoldable pub matches : Binding → Claims → Bool
matches b c =
    str_eq c.execution_id b.execution_id
    && str_eq c.node_id b.node_id
    && str_eq c.event_id b.event_id
    && str_eq c.action b.action

-- What `Accept` returns: claims and an error stand together on a replay.
pub record Accepted : Type 0 where
  pub claims : Option Claims
  pub error : Option Err

-- `a.replay.Consume`, and the claims that are returned in each case.
abbrev pub consumed : Claims → ReplayGuard × Option Err → ReplayGuard × Accepted
consumed c (g, e) = (g, record { claims = some c; error = e })

abbrev pub refused : ReplayGuard → Err → ReplayGuard × Accepted
refused g e = (g, record { claims = none; error = some e })

module _ (k : Crypto) (wall : ℕ) where
  -- The clocks of the key ring and of the acceptor are read one after the other.
  unfoldable pub accept :
      Keyring → ReplayGuard → (verified_at now : ℕ) → String → Binding → ReplayGuard × Accepted
  accept keys g verified_at now token expected =
      if not (complete_binding expected)
      then refused g Err.binding_invalid
      else elim (verify k wall keys verified_at token) [
        | err e ↦ refused g e
        | ok c ↦
            if not (matches expected c)
            then refused g Err.binding_mismatch
            else consumed c (consume wall g c now)
      ]
