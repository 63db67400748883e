-- ===== src/Callback/Token/RoundTrip.antt =====
-- What a key ring signs it verifies, and what it verifies was signed under one of its keys.
use home_sentinel.Base.{
  byte_len, byte_len_dot, byte_len-append, ℕ, ◌≤◌, ◌<◌, ◌⊎◌, ◌≡◌, refl, ap, ◌∙◌, sym, String, ◌<>◌,
  str_eq, eq_iff, eq_refl, true, false, Option, none, some, List, [], ◌∷◌, ltb, ◌==◌, length,
  lookup, bytes_eq, bytes_eq→eq, bytes_eq_refl, arith, Bool-cases, Option-cases, inl, inr,
}
use home_sentinel.Callback.Claims.{Err, Claims, Options, validate, valid_key_id, normalize_options}
use home_sentinel.Callback.Token.Split.{split_dots, dotless, split_dots-dotless, split_dots-append}
use home_sentinel.Callback.Token.{
  Crypto, Result, ok, err, Parts, min_key_bytes, max_token_bytes, token_parts, Signer, Keyring,
  fill, checked, token_of, signer_sign, sign, verify_payload, verify_signature, verify_with_key,
  verify,
}

-- What the token format relies on: base64 is decoded to what was encoded, its alphabet has no dot,
-- and neither a digest (of 32 bytes) nor a document is empty.
pub record Lawful (k : Crypto) : Type 0 where
  pub decode64-encode64 : (bytes : List ℕ) → k.decode64 (k.encode64 bytes) ≡ some bytes
  pub encode64-dotless : (bytes : List ℕ) → dotless (k.encode64 bytes) ≡ true
  pub encode64_filled : (bytes : List ℕ) → 0 < length bytes → str_eq (k.encode64 bytes) "" ≡ false
  pub length-hmac : (key : List ℕ) (message : String) → length (k.hmac key message) ≡ 32
  pub marshal_filled : (c : Claims) → 0 < length (k.marshal c)

token_parts-join :
    (a b c : String)
    → valid_key_id a ≡ true
    → dotless a ≡ true
    → dotless b ≡ true
    → dotless c ≡ true
    → str_eq b "" ≡ false
    → str_eq c "" ≡ false
    → ltb max_token_bytes (byte_len (a <> ("." <> (b <> ("." <> c))))) ≡ false
    → token_parts (a <> ("." <> (b <> ("." <> c))))
      ≡ ok (record { key_id = a; payload = b; signature = c })
unfolding token_parts
token_parts-join a b c valid da db dc fb fc small =
    let parts : split_dots (a <> ("." <> (b <> ("." <> c)))) ≡ a ∷ b ∷ c ∷ [] =
      split_dots-append a (b <> ("." <> c)) da
      ∙ ap (λ (l : List String). a ∷ l)
          (split_dots-append b c db ∙ ap (λ (l : List String). b ∷ l) (split_dots-dotless c dc)) in
    let some_byte : (byte_len (a <> ("." <> (b <> ("." <> c)))) == 0) ≡ false = ground (
      arith,
      byte_len-append a ("." <> (b <> ("." <> c))),
      byte_len-append "." (b <> ("." <> c)),
      byte_len_dot,
    ) in
    rw (some_byte, small, parts, valid, fb, fc)

Result-cases {ℓ} : {A : Type ℓ} (r : Result A) → ((a : A) × (r ≡ ok a)) ⊎ ((e : Err) × (r ≡ err e))
Result-cases (ok a) = inl (a, refl)
Result-cases (err e) = inr (e, refl)

module _ (k : Crypto) (wall : ℕ) where
  -- What a successful `Sign` has checked.
  pub signer_sign-ok :
      (s : Signer) (now : ℕ) (c : Claims) (token : String)
      → signer_sign k wall s now c ≡ ok token
      → (ltb (length s.key) min_key_bytes ≡ false)
        × (valid_key_id s.key_id ≡ true)
        × (str_eq (fill s.key_id now c).key_id s.key_id ≡ true)
        × (token ≡ token_of k wall s (fill s.key_id now c))
        × (ltb max_token_bytes (byte_len token) ≡ false)
  unfolding signer_sign
  signer_sign-ok s now c token h = ground arith

  pub sign-ok :
      (r : Keyring) (now : ℕ) (c : Claims) (token : String)
      → sign k wall r now c ≡ ok token
      → (key : List ℕ) × (lookup r.active_id r.keys ≡ some key)
        × (signer_sign k wall
              (record { key_id = r.active_id; key = key; options = normalize_options r.options })
              now
              c
            ≡ ok token)
  unfolding sign
  sign-ok r now c token h = elim (Option-cases (lookup r.active_id r.keys)) [
    | inl missing ↦ absurd (ground arith)
    | inr (key, found) ↦ (key, found, ground arith)
  ]

  verify_payload-ok :
      (p : Parts) (now : ℕ) (o : Options) (d : Option (List ℕ)) {c : Claims}
      → verify_payload k wall p now o d ≡ ok c
      → (bytes : List ℕ) × (d ≡ some bytes)
        × (k.unmarshal bytes ≡ some c)
        × (c.key_id ≡ p.key_id)
        × (validate wall now o c ≡ none)
  unfolding verify_payload
  verify_payload-ok p now o none h = absurd (ground arith)
  verify_payload-ok p now o (some bytes) {c} h = elim (Option-cases (k.unmarshal bytes)) [
    | inl bad ↦ absurd (ground arith)
    | inr (c', read) ↦ elim (Bool-cases (str_eq c'.key_id p.key_id)) [
      | inr other ↦ absurd (ground arith)
      | inl same ↦ elim (Option-cases (validate wall now o c')) [
        | inr (e, refused) ↦ absurd (ground arith)
        | inl valid ↦
            let own : c' ≡ c = ground arith in
            let named = (eq_iff c'.key_id p.key_id).0 same in
            (
              bytes,
              refl,
              rw own at read,
              ap (λ (x : Claims). x.key_id) (sym own) ∙ named,
              rw own at valid,
            )
      ]
    ]
  ]

  verify_signature-ok :
      (p : Parts) (key : List ℕ) (now : ℕ) (o : Options) (d : Option (List ℕ)) {c : Claims}
      → verify_signature k wall p key now o d ≡ ok c
      → (d ≡ some (k.hmac key (p.key_id <> ("." <> p.payload))))
        × (verify_payload k wall p now o (k.decode64 p.payload) ≡ ok c)
  unfolding verify_signature
  verify_signature-ok p key now o none h = absurd (ground arith)
  verify_signature-ok p key now o (some given) h =
      let digest = k.hmac key (p.key_id <> ("." <> p.payload)) in
      elim (Bool-cases (bytes_eq given digest)) [
        | inr forged ↦ absurd (ground arith)
        | inl same ↦ (ap some (bytes_eq→eq given digest same), ground arith)
      ]

  verify-steps :
      (r : Keyring) (now : ℕ) (token : String) {c : Claims}
      → verify k wall r now token ≡ ok c
      → (p : Parts) × (key : List ℕ) × (token_parts token ≡ ok p)
        × (lookup p.key_id r.keys ≡ some key)
        × (min_key_bytes ≤ length key)
        × (verify_signature k wall p key now r.options (k.decode64 p.signature) ≡ ok c)
  unfolding verify verify_with_key
  verify-steps r now token h = elim (Result-cases (token_parts token)) [
    | inr (e, bad) ↦ absurd (ground arith)
    | inl (p, split) ↦ elim (Option-cases (lookup p.key_id r.keys)) [
      | inl unknown ↦ absurd (ground arith)
      | inr (key, found) ↦
          (p, key, split, found, ground arith, ground (arith, eq_iff p.key_id p.key_id))
    ]
  ]

  -- A verified token was signed: its signature is the digest of its first two parts under the key of
  -- the ring that its claims name, its payload decodes to the claims, and these are valid now.
  pub verify-ok :
      (r : Keyring) (now : ℕ) (token : String) (c : Claims)
      → verify k wall r now token ≡ ok c
      → (p : Parts) × (key bytes : List ℕ) × (token_parts token ≡ ok p)
        × (c.key_id ≡ p.key_id)
        × (lookup c.key_id r.keys ≡ some key)
        × (min_key_bytes ≤ length key)
        × (k.decode64 p.signature ≡ some (k.hmac key (p.key_id <> ("." <> p.payload))))
        × (k.decode64 p.payload ≡ some bytes)
        × (k.unmarshal bytes ≡ some c)
        × (validate wall now r.options c ≡ none)
  verify-ok r now token c h =
      let (p, key, split, found, long, signed) = verify-steps r now token h in
      let (digest, payload) = verify_signature-ok p key now r.options _ signed in
      let (bytes, decoded, read, named, valid) = verify_payload-ok p now r.options _ payload in
      (p, key, bytes, split, named, rw named found, long, digest, decoded, read, valid)

module _ (k : Crypto) (laws : Lawful k) (wall : ℕ) where
  open laws use {decode64-encode64, encode64-dotless, encode64_filled, length-hmac, marshal_filled}

  token_parts-token_of :
      (s : Signer) (c : Claims)
      → valid_key_id s.key_id ≡ true
      → dotless s.key_id ≡ true
      → ltb max_token_bytes (byte_len (token_of k wall s c)) ≡ false
      → token_parts (token_of k wall s c)
        ≡ ok (record {
          key_id = s.key_id;
          payload = k.encode64 (k.marshal c);
          signature = k.encode64 (k.hmac s.key (s.key_id <> ("." <> k.encode64 (k.marshal c))));
        })
  unfolding token_of
  token_parts-token_of s c valid plain small =
      let bytes = k.marshal c in
      let digest = k.hmac s.key (s.key_id <> ("." <> k.encode64 bytes)) in
      token_parts-join s.key_id (k.encode64 bytes) (k.encode64 digest) valid plain
        (encode64-dotless bytes) (encode64-dotless digest)
        (encode64_filled bytes (marshal_filled c))
        (encode64_filled digest
          (omega (arith, length-hmac s.key (s.key_id <> ("." <> k.encode64 bytes)))))
        small

  verify-token_of :
      (s : Signer) (r : Keyring) (later : ℕ) (c : Claims)
      → token_parts (token_of k wall s c)
        ≡ ok (record {
          key_id = s.key_id;
          payload = k.encode64 (k.marshal c);
          signature = k.encode64 (k.hmac s.key (s.key_id <> ("." <> k.encode64 (k.marshal c))));
        })
      → lookup s.key_id r.keys ≡ some s.key
      → ltb (length s.key) min_key_bytes ≡ false
      → str_eq c.key_id s.key_id ≡ true
      → k.unmarshal (k.marshal c) ≡ some c
      → verify k wall r later (token_of k wall s c) ≡ checked (validate wall later r.options c) c
  unfolding verify verify_with_key
  verify-token_of s r later c split found long named json =
      let bytes = k.marshal c in
      let digest = k.hmac s.key (s.key_id <> ("." <> k.encode64 bytes)) in
      ground (
        arith,
        decode64-encode64 bytes,
        decode64-encode64 digest,
        eq_refl s.key_id,
        bytes_eq_refl digest,
        length-hmac s.key (s.key_id <> ("." <> k.encode64 bytes)),
      )

  -- A token that the ring signed under a key ID without dots verifies to the claims that were signed,
  -- or to the error of their validation at the later time; JSON gives these claims back.
  pub verify-sign :
      (r : Keyring) (c : Claims) (now later : ℕ) (token : String)
      → dotless r.active_id ≡ true
      → k.unmarshal (k.marshal (fill r.active_id now c)) ≡ some (fill r.active_id now c)
      → sign k wall r now c ≡ ok token
      → verify k wall r later token
        ≡ checked (validate wall later r.options (fill r.active_id now c)) (fill r.active_id now c)
  verify-sign r c now later token plain json h =
      let (key, found, signed) = sign-ok k wall r now c token h in
      let s : Signer = record {
        key_id = r.active_id;
        key = key;
        options = normalize_options r.options;
      } in
      let (long, valid, named, made, small) = signer_sign-ok k wall s now c token signed in
      let c' = fill r.active_id now c in
      let split = token_parts-token_of s c' valid plain (rw made at small) in
      ap (verify k wall r later) made ∙ verify-token_of s r later c' split found long named json
