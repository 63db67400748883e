-- ===== src/Callback/Tests/Toy.antt =====
-- A concrete codec for the tests: bytes are written in unary, and a digest shows the lengths of its
-- arguments.
use Prim.Native.Char.{Char, code}
use Prim.Native.String.{len}
use mathlib.Core.Option
use text.Mathlib.TextLemmas.{cons-ne-nil}
use home_sentinel.Base.{
  ℕ, zero, suc, ◌+◌, ◌<◌, ◌≡◌, refl, ap, ◌∙◌, String, str_eq, eq_iff, Bool-cases, inl, inr, true,
  false, Option, some, List, [], ◌∷◌, length, ◌==◌, if◌then◌else◌, arith, pos,
}
use home_sentinel.Callback.Claims.{Claims}
use home_sentinel.Callback.Token.{Crypto}
use home_sentinel.Callback.Token.Split.{dotless}
use home_sentinel.Callback.Token.RoundTrip.{Lawful}

encode_byte : ℕ → String → String
encode_byte zero rest = String.◌∷◌ "b" rest
encode_byte (suc n) rest = String.◌∷◌ "a" (encode_byte n rest)

pub encode : List ℕ → String
unfolding encode_byte
encode [] = ""
encode (n ∷ ns) = encode_byte n (encode ns)

decode_from : ℕ → String → Option (List ℕ)
decode_from acc String.[] = some []
decode_from acc (String.◌∷◌ c s) =
    let more = decode_from (suc acc) s in
    let rest = Option.map (λ (l : List ℕ). acc ∷ l) (decode_from 0 s) in
    if code c == b'a' then more else rest

pub decode : String → Option (List ℕ)
unfolding decode_from
decode s = decode_from 0 s

decode_from-encode_byte :
    (acc n : ℕ) (rest : String)
    → decode_from acc (encode_byte n rest)
      ≡ Option.map (λ (l : List ℕ). (acc + n) ∷ l) (decode_from 0 rest)
unfolding decode_from encode_byte
decode_from-encode_byte acc zero rest = let e : acc + 0 ≡ acc = omega arith in rw e
decode_from-encode_byte acc (suc n) rest =
    let e : acc + suc n ≡ suc acc + n = omega arith in
    rw e (decode_from-encode_byte (suc acc) n rest)

decode-encode : (bytes : List ℕ) → decode (encode bytes) ≡ some bytes
unfolding decode encode
decode-encode [] = refl
decode-encode (n ∷ ns) =
    decode_from-encode_byte 0 n (encode ns)
    ∙ (ap (Option.map (λ (l : List ℕ). (0 + n) ∷ l)) (decode-encode ns)
        ∙ ap (λ (m : ℕ). some (m ∷ ns)) (omega arith))

encode_byte-dotless :
    (n : ℕ) (rest : String) → dotless rest ≡ true → dotless (encode_byte n rest) ≡ true
unfolding encode_byte dotless
encode_byte-dotless zero rest h = h
encode_byte-dotless (suc n) rest h = encode_byte-dotless n rest h

encode-dotless : (bytes : List ℕ) → dotless (encode bytes) ≡ true
unfolding encode dotless
encode-dotless [] = refl
encode-dotless (n ∷ ns) = encode_byte-dotless n (encode ns) (encode-dotless ns)

cons_filled : (c : Char) (s : String) → str_eq (String.◌∷◌ c s) "" ≡ false
cons_filled c s = elim (Bool-cases (str_eq (String.◌∷◌ c s) "")) [
  | inl e ↦ absurd (cons-ne-nil c s ((eq_iff (String.◌∷◌ c s) "").0 e))
  | inr e ↦ e
]

encode_byte_filled : (n : ℕ) (rest : String) → str_eq (encode_byte n rest) "" ≡ false
unfolding encode_byte
encode_byte_filled zero rest = cons_filled _ rest
encode_byte_filled (suc n) rest = cons_filled _ (encode_byte n rest)

encode_filled : (bytes : List ℕ) → 0 < length bytes → str_eq (encode bytes) "" ≡ false
unfolding encode
encode_filled [] h = absurd (omega arith)
encode_filled (n ∷ ns) h = encode_byte_filled n (encode ns)

zeros : ℕ → List ℕ
zeros zero = []
zeros (suc n) = 0 ∷ zeros n

digest : List ℕ → String → List ℕ
unfolding zeros
digest key message = length key ∷ len message ∷ zeros 30

-- The claims that the one document of the tests stands for.
abbrev pub claims : Claims
claims = record {
  key_id = "k1";
  execution_id = "incident-1";
  node_id = "decide";
  event_id = "event-1";
  subject = "";
  action = "approve";
  nonce = "n-1";
  issued_at = pos 1000;
  expires_at = pos 1300;
}

unfoldable pub toy : Claims → Crypto
unfolding encode decode digest
toy c = record {
  hmac = digest;
  encode64 = encode;
  decode64 = decode;
  marshal = λ _. 1 ∷ [];
  unmarshal = λ _. some c;
}

pub toy-Lawful : (c : Claims) → Lawful (toy c)
unfolding toy
toy-Lawful c = record {
  decode64-encode64 = decode-encode;
  encode64-dotless = encode-dotless;
  encode64_filled = encode_filled;
  length-hmac = λ key message. refl;
  marshal_filled = λ d. omega arith;
}
