-- ===== src/Callback/Token.antt =====
-- internal/security/callback/token.go: signing and verification of a token, with key rotation. The
-- standard library's HMAC-SHA256, base64 and JSON are a parameter.
pub mod Split
pub mod RoundTrip
pub mod Dotted
use Prim.Native.Char.{code}
use home_sentinel.Base.{
  byte_len, byte_len-append, ℕ, ◌≡◌, String, ◌<>◌, str_eq, eq_iff, Bool, true, false, not, ◌&&◌,
  ◌||◌, Option, none, some, List, [], ◌∷◌, ltb, ◌==◌, if◌then◌else◌, length, Dict, lookup, bytes_eq,
  ℤ, pos, ◌/◌, ◌-◌,
}
use home_sentinel.Callback.Claims.{
  Err, Claims, Options, validate, valid_key_id, normalize_options, unix_epoch, second,
}
use home_sentinel.Callback.Token.Split.{split_dots}

-- The standard library's functions that a token goes through. A key, a digest and a document are
-- lists of bytes.
pub record Crypto : Type 0 where
  pub hmac : List ℕ → String → List ℕ
  pub encode64 : List ℕ → String
  pub decode64 : String → Option (List ℕ)
  pub marshal : Claims → List ℕ
  pub unmarshal : List ℕ → Option Claims

pub data Result {ℓ} (A : Type ℓ) : Type ℓ where
  ok : A → Result A
  err : Err → Result A

abbrev pub min_key_bytes : ℕ
min_key_bytes = 32

abbrev pub max_token_bytes : ℕ
max_token_bytes = 4096

pub record Parts : Type 0 where
  pub key_id : String
  pub payload : String
  pub signature : String

abbrev pub checked_parts : String → String → String → Result Parts
checked_parts a b c =
    if not (valid_key_id a) || (str_eq b "" || str_eq c "")
    then err Err.invalid_token
    else ok (record { key_id = a; payload = b; signature = c })

-- Three parts, and no more or fewer.
abbrev pub three_parts : List String → Result Parts
three_parts (a ∷ b ∷ c ∷ []) = checked_parts a b c
three_parts _ = err Err.invalid_token

unfoldable pub token_parts : String → Result Parts
token_parts token =
    if byte_len token == 0 || ltb max_token_bytes (byte_len token)
    then err Err.invalid_token
    else three_parts (split_dots token)

-- `now()` of the source is an argument of each operation.
pub record Signer : Type 0 where
  pub key_id : String
  pub key : List ℕ
  pub options : Options

unfoldable pub new_signer_with_id : String → List ℕ → Options → Result Signer
new_signer_with_id key_id key options =
    if not (valid_key_id key_id)
    then err Err.invalid_key
    else if ltb (length key) min_key_bytes
    then err Err.invalid_key
    else ok (record { key_id = key_id; key = key; options = normalize_options options })

pub record Keyring : Type 0 where
  pub active_id : String
  pub keys : Dict (List ℕ)
  pub options : Options

-- The loop of `NewKeyring` over the configured keys, and the copies that it makes.
unfoldable pub usable_keys : Dict (List ℕ) → Bool
usable_keys [] = true
usable_keys ((id, key) ∷ keys) =
    not (not (valid_key_id id) || ltb (length key) min_key_bytes) && usable_keys keys

unfoldable pub new_keyring : String → Dict (List ℕ) → Options → Result Keyring
unfolding usable_keys
new_keyring active_id keys options =
    if not (valid_key_id active_id)
    then err Err.invalid_key
    else if not (usable_keys keys)
    then err Err.invalid_key
    else elim (lookup active_id keys) [
      | none ↦ err Err.invalid_key
      | some _ ↦
          ok (record { active_id = active_id; keys = keys; options = normalize_options options })
    ]

-- `now.Unix()`, for an instant after the epoch.
abbrev unix : ℕ → ℤ
unix now = pos (now / second - unix_epoch)

abbrev is_zero : ℤ → Bool
is_zero (pos n) = n == 0
is_zero (ℤ.negsuc n) = false

-- The claims that `Sign` signs: its key ID and the clock stand in for what the caller left out.
unfoldable pub fill : String → ℕ → Claims → Claims
fill key_id now c = record c {
  key_id = if str_eq c.key_id "" then key_id else c.key_id;
  issued_at = if is_zero c.issued_at then unix now else c.issued_at;
}

-- `return claims, nil` where the validation has no error.
abbrev pub checked : Option Err → Claims → Result Claims
checked none c = ok c
checked (some e) c = err e

module _ (k : Crypto) (wall : ℕ) where
  abbrev message : String → Claims → String
  message key_id c = key_id <> ("." <> k.encode64 (k.marshal c))

  -- The token of `Sign`, before its length is tested.
  unfoldable pub token_of : Signer → Claims → String
  token_of s c =
      s.key_id
      <> ("."
          <> (k.encode64 (k.marshal c) <> ("." <> k.encode64 (k.hmac s.key (message s.key_id c)))))

  unfoldable pub signer_sign : Signer → ℕ → Claims → Result String
  unfolding token_of fill
  signer_sign s now claims =
      let c = fill s.key_id now claims in
      if ltb (length s.key) min_key_bytes || not (valid_key_id s.key_id)
      then err Err.invalid_key
      else if not (str_eq c.key_id s.key_id)
      then err Err.unknown_key
      else elim (validate wall now s.options c) [
        | some e ↦ err e
        | none ↦
            if ltb max_token_bytes (byte_len (token_of s c))
            then err Err.invalid_token
            else ok (token_of s c)
      ]

  -- A missing active key is a nil slice in the source.
  abbrev key_of : Keyring → String → List ℕ
  key_of r id = elim (lookup id r.keys) [ none ↦ [] | some key ↦ key ]

  unfoldable pub sign : Keyring → ℕ → Claims → Result String
  unfolding new_signer_with_id
  sign r now c = elim (new_signer_with_id r.active_id (key_of r r.active_id) r.options) [
    | err e ↦ err e
    | ok s ↦ signer_sign s now c
  ]

  -- `verifyWithKey` from the decoded payload on.
  unfoldable pub verify_payload : Parts → ℕ → Options → Option (List ℕ) → Result Claims
  verify_payload p now options none = err Err.invalid_token
  verify_payload p now options (some bytes) = elim (k.unmarshal bytes) [
    | none ↦ err Err.invalid_token
    | some c ↦
        if not (str_eq c.key_id p.key_id)
        then err Err.invalid_token
        else checked (validate wall now options c) c
  ]

  -- `verifyWithKey` from the decoded signature on.
  unfoldable pub verify_signature : Parts → List ℕ → ℕ → Options → Option (List ℕ) → Result Claims
  unfolding verify_payload
  verify_signature p key now options none = err Err.invalid_token
  verify_signature p key now options (some provided) =
      if not (length provided == 32)
      then err Err.invalid_token
      else if not (bytes_eq provided (k.hmac key (p.key_id <> ("." <> p.payload))))
      then err Err.invalid_token
      else verify_payload p now options (k.decode64 p.payload)

  unfoldable pub verify_with_key : String → String → List ℕ → ℕ → Options → Result Claims
  unfolding verify_signature
  verify_with_key token expected key now options =
      if ltb (length key) min_key_bytes then err Err.invalid_key else elim (token_parts token) [
        | err e ↦ err e
        | ok p ↦
            if not (str_eq p.key_id expected)
            then err Err.unknown_key
            else verify_signature p key now options (k.decode64 p.signature)
      ]

  unfoldable pub verify : Keyring → ℕ → String → Result Claims
  verify r now token = elim (token_parts token) [
    | err e ↦ err e
    | ok p ↦ elim (lookup p.key_id r.keys) [
      | none ↦ err Err.unknown_key
      | some key ↦ verify_with_key token p.key_id key now r.options
    ]
  ]
