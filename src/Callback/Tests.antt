-- ===== src/Callback/Tests.antt =====
-- Runs of the callback package on small inputs.
mod Toy
use Prim.Native.String.{len}
use home_sentinel.Base.{
  byte_len, ℕ, ◌+◌, ◌≤◌, ◌<◌, ◌≡◌, ◌≢◌, refl, ap, ◌∙◌, eq_iff, String, ◌<>◌, true, false, Option,
  none, some, List, [], ◌∷◌, arith, ◌*◌, length, Dict, lookup, insert, erase, is_blank, bytes_eq, ℤ,
  pos, All, str_eq,
}
use home_sentinel.Callback.Claims.{
  Err, Claims, Options, default_options, second, unix_epoch, validate, valid_key_id, time_unix,
  or_wall,
}
use home_sentinel.Callback.Replay.{ReplayGuard, consume, admit, prune, evict, forget}
use home_sentinel.Callback.Replay.Invariant.{Inv, empty-Inv, Queued}
use home_sentinel.Callback.Replay.Bounds.{new_guard, consume_all-bounds}
use home_sentinel.Callback.Replay.Once.{consume_all, consume_once}
use home_sentinel.Callback.Token.{
  Crypto, Result, ok, err, Parts, Keyring, min_key_bytes, fill, checked, sign, verify, token_parts,
  signer_sign, new_signer_with_id, verify_with_key, token_of,
}
use home_sentinel.Callback.Token.Split.{split_dots, dotless}
use home_sentinel.Callback.Token.RoundTrip.{verify-sign, verify-ok}
use home_sentinel.Callback.Token.Dotted.{verify-sign_dotted}
use home_sentinel.Callback.Accept.{Binding, Accepted, accept, complete_binding, matches}
use home_sentinel.Callback.Accept.Decide.{Bound, accept_sound, accept_keeps}
use home_sentinel.Callback.Accept.Once.{Attempt, accept_all, accept_once}
use Toy.{claims, toy, toy-Lawful}

abbrev key : List ℕ
key =
    1 ∷ 2 ∷ 3 ∷ 4 ∷ 5 ∷ 6 ∷ 7 ∷ 8 ∷ 9 ∷ 10 ∷ 11 ∷ 12 ∷ 13 ∷ 14 ∷ 15 ∷ 16 ∷ 17 ∷ 18 ∷ 19 ∷ 20 ∷ 21
    ∷ 22 ∷ 23 ∷ 24 ∷ 25 ∷ 26 ∷ 27 ∷ 28 ∷ 29 ∷ 30 ∷ 31 ∷ 32 ∷ []

abbrev ring : Keyring
ring = record { active_id = "k1"; keys = ("k1", key) ∷ []; options = default_options }

-- The instant of a Unix second.
abbrev at : ℕ → ℕ
at s = (unix_epoch + s) * second

-- A token of the ring for the claims.
abbrev token : String
token = "k1.ab.aaaaaaaaaaaaaaaaaaaaaaaaaaaaaaaabaaaaabbbbbbbbbbbbbbbbbbbbbbbbbbbbbbb"

sign_run : sign (toy claims) (at 1000) ring (at 1000) claims ≡ ok token
unfolding sign signer_sign toy validate valid_key_id byte_len lookup is_blank
sign_run = refl

verify_run : verify (toy claims) (at 1000) ring (at 1100) token ≡ ok claims
unfolding verify verify_with_key toy validate valid_key_id byte_len lookup is_blank token_parts
    split_dots bytes_eq
verify_run = refl

verify-sign_example :
    verify (toy claims) (at 1000) ring (at 1200) token
    ≡ checked
        (validate (at 1000) (at 1200) default_options (fill "k1" (at 1000) claims))
        (fill "k1" (at 1000) claims)
unfolding toy dotless fill
verify-sign_example =
    verify-sign (toy claims) (toy-Lawful claims) (at 1000) ring claims (at 1000) (at 1200) token
      refl refl sign_run

verify-ok_example :
    (p : Parts) × (key' bytes : List ℕ) × (token_parts token ≡ ok p)
    × (claims.key_id ≡ p.key_id)
    × (lookup claims.key_id ring.keys ≡ some key')
    × (min_key_bytes ≤ length key')
    × ((toy claims).decode64 p.signature
        ≡ some ((toy claims).hmac key' (p.key_id <> ("." <> p.payload))))
    × ((toy claims).decode64 p.payload ≡ some bytes)
    × ((toy claims).unmarshal bytes ≡ some claims)
    × (validate (at 1000) (at 1100) ring.options claims ≡ none)
verify-ok_example = verify-ok (toy claims) (at 1000) ring (at 1100) token claims verify_run

-- A ring whose key ID has a dot.
abbrev dotted_ring : Keyring
dotted_ring = record { active_id = "k.1"; keys = ("k.1", key) ∷ []; options = default_options }

abbrev dotted_claims : Claims
dotted_claims = record claims { key_id = "k.1" }

abbrev dotted_token : String
dotted_token = "k.1.ab.aaaaaaaaaaaaaaaaaaaaaaaaaaaaaaaabaaaaaabbbbbbbbbbbbbbbbbbbbbbbbbbbbbbb"

dotted_run :
    sign (toy dotted_claims) (at 1000) dotted_ring (at 1000) dotted_claims ≡ ok dotted_token
unfolding sign signer_sign toy validate valid_key_id byte_len lookup is_blank
dotted_run = refl

verify-sign_dotted_example :
    verify (toy dotted_claims) (at 1000) dotted_ring (at 1000) dotted_token ≡ err Err.invalid_token
unfolding dotless
verify-sign_dotted_example =
    verify-sign_dotted (toy dotted_claims) (at 1000) dotted_ring dotted_claims (at 1000) (at 1000)
      dotted_token refl dotted_run

abbrev guard : ReplayGuard
guard = record { max = 4; seen = []; ordered = [] }

-- Another token, consumed in between.
abbrev others : List (Claims × ℕ)
others = (record claims { nonce = "n-2" }, at 1110) ∷ []

consume_run : (consume (at 1000) guard claims (at 1100)).1 ≡ none
unfolding consume admit prune evict forget lookup insert erase is_blank
consume_run = refl

consume_once_example :
    (consume
      (at 1000)
      (consume_all (at 1000) (consume (at 1000) guard claims (at 1100)).0 others)
      claims
      (at 1120)).1
    ≡ some Err.replay
unfolding time_unix
consume_once_example =
    consume_once (at 1000) guard claims (at 1100) (at 1120) others (empty-Inv 4) consume_run
      (omega arith) (omega arith, tt) (omega arith)

abbrev route : Binding
route = record {
  execution_id = "incident-1";
  node_id = "decide";
  event_id = "event-1";
  action = "approve";
}

-- The claims' binding, but for its action.
abbrev wrong_route : Binding
wrong_route = record route { action = "reject" }

accept_run :
    (accept (toy claims) (at 1000) ring guard (at 1100) (at 1100) token route).1
    ≡ record { claims = some claims; error = none }
unfolding accept complete_binding matches verify verify_with_key toy validate valid_key_id byte_len
    lookup is_blank token_parts split_dots bytes_eq consume admit prune evict forget insert erase
accept_run = refl

accept_sound_example :
    (c : Claims) × ((accept
        (toy claims)
        (at 1000)
        ring
        guard
        (at 1100)
        (at 1100)
        token
        route).1.claims
      ≡ some c)
    × (verify (toy claims) (at 1000) ring (at 1100) token ≡ ok c)
    × Bound route c
    × (consume (at 1000) guard c (at 1100)
        ≡ ((accept (toy claims) (at 1000) ring guard (at 1100) (at 1100) token route).0, none))
    × (or_wall (at 1000) (at 1100) < time_unix c.expires_at)
accept_sound_example =
    accept_sound (toy claims) (at 1000) ring guard (at 1100) (at 1100) token route
      (ap (λ (a : Accepted). a.error) accept_run)

not-Bound :
    (c : Claims) → verify (toy claims) (at 1000) ring (at 1100) token ≡ ok c → ¬ Bound wrong_route c
not-Bound c h b =
    let own : claims ≡ c = cc verify_run in
    let clash : "approve" ≡ wrong_route.action =
      ap (λ (d : Claims). d.action) own ∙ b.same_action in
    absurd (ground (arith, eq_iff "approve" "reject"))

abbrev first : Attempt
first = record { verified_at = at 1100; now = at 1100; token = token; expected = route }

abbrev misrouted : Attempt
misrouted = record { verified_at = at 1105; now = at 1105; token = token; expected = wrong_route }

abbrev again : Attempt
again = record { verified_at = at 1110; now = at 1110; token = token; expected = route }

verify_again : verify (toy claims) (at 1000) ring (at 1110) token ≡ ok claims
unfolding verify verify_with_key toy validate valid_key_id byte_len lookup is_blank token_parts
    split_dots bytes_eq
verify_again = refl

accept_once_example :
    (accept
      (toy claims)
      (at 1000)
      ring
      (accept_all
        (toy claims)
        (at 1000)
        ring
        (accept (toy claims) (at 1000) ring guard (at 1100) (at 1100) token route).0
        (misrouted ∷ []))
      (at 1110)
      (at 1110)
      token
      route).1
    ≡ record { claims = some claims; error = some Err.replay }
unfolding time_unix complete_binding matches is_blank
accept_once_example =
    accept_once (toy claims) (at 1000) ring guard first again (misrouted ∷ []) claims (empty-Inv 4)
      (ap (λ (a : Accepted). a.error) accept_run) (ap (λ (a : Accepted). a.claims) accept_run)
      (omega arith) (omega arith, tt) (omega arith) refl verify_again refl

-- Three tokens and a replay, on a guard with room for two.
abbrev burst : List (Claims × ℕ)
burst =
    (claims, at 1100)
    ∷ (record claims { nonce = "n-2" }, at 1101)
    ∷ (record claims { nonce = "n-2" }, at 1102)
    ∷ (record claims { nonce = "n-3" }, at 1103)
    ∷ []

consume_all-bounds_example :
    (length (consume_all (at 1000) (new_guard 2) burst).ordered ≤ 2)
    × ((k : String) (t : ℕ)
        → lookup k (consume_all (at 1000) (new_guard 2) burst).seen ≡ some t
        → Queued k t (consume_all (at 1000) (new_guard 2) burst).ordered)
consume_all-bounds_example = consume_all-bounds (at 1000) 2 burst
