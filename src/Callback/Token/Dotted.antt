-- ===== src/Callback/Token/Dotted.antt =====
-- Key IDs with a dot: `validKeyID` admits them, and a token is split at its dots.
use home_sentinel.Base.{
  byte_len, ℕ, ◌≤◌, ◌≡◌, refl, String, ◌<>◌, false, List, [], ◌∷◌, Bool-cases, inl, inr, ◌||◌, ◌==◌,
  ltb, length, arith,
}
use home_sentinel.Callback.Claims.{Err, Claims, normalize_options}
use home_sentinel.Callback.Token.Split.{
  split_dots, dotless, split_dots-pos, length-split_dots, split_dots-dotted,
}
use home_sentinel.Callback.Token.{
  Crypto, ok, err, three_parts, max_token_bytes, token_parts, Signer, Keyring, fill, token_of, sign,
  verify,
}
use home_sentinel.Callback.Token.RoundTrip.{sign-ok, signer_sign-ok}

four_parts : (ss : List String) → 4 ≤ length ss → three_parts ss ≡ err Err.invalid_token
four_parts [] h = refl
four_parts (a ∷ []) h = refl
four_parts (a ∷ b ∷ []) h = refl
four_parts (a ∷ b ∷ c ∷ []) h = absurd (omega arith)
four_parts (a ∷ b ∷ c ∷ d ∷ ss) h = refl

token_parts-dotted :
    (a b c : String)
    → dotless a ≡ false
    → token_parts (a <> ("." <> (b <> ("." <> c)))) ≡ err Err.invalid_token
unfolding token_parts
token_parts-dotted a b c dotted =
    let token = a <> ("." <> (b <> ("." <> c))) in
    let many : 4 ≤ length (split_dots token) = omega (
      arith,
      length-split_dots a (b <> ("." <> c)),
      length-split_dots b c,
      split_dots-dotted a dotted,
      split_dots-pos b,
      split_dots-pos c,
    ) in
    elim (Bool-cases (byte_len token == 0 || ltb max_token_bytes (byte_len token))) [
      | inl bad ↦ rw bad
      | inr good ↦ rw good (four_parts _ many)
    ]

-- A ring whose active key ID holds a dot signs tokens that it never verifies: each is refused as
-- invalid, at any time.
pub verify-sign_dotted :
    (k : Crypto) (wall : ℕ) (r : Keyring) (c : Claims) (now later : ℕ) (token : String)
    → dotless r.active_id ≡ false
    → sign k wall r now c ≡ ok token
    → verify k wall r later token ≡ err Err.invalid_token
unfolding verify token_of
verify-sign_dotted k wall r c now later token dotted h =
    let (key, _, signed) = sign-ok k wall r now c token h in
    let s : Signer = record {
      key_id = r.active_id;
      key = key;
      options = normalize_options r.options;
    } in
    let (_, _, _, made, _) = signer_sign-ok k wall s now c token signed in
    let bytes = k.marshal (fill r.active_id now c) in
    let refused =
      token_parts-dotted r.active_id (k.encode64 bytes)
        (k.encode64 (k.hmac key (r.active_id <> ("." <> k.encode64 bytes)))) dotted in
    rw made (rw (refused, verify))
