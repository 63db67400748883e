-- ===== src/Callback/Claims.antt =====
-- internal/security/callback/token.go: the claims of a callback token and their validation. An
-- instant is a count of nanoseconds since Go's zero time, so that `IsZero` is equality with 0.
use Prim.Native.Char.{code}
use home_sentinel.Base.{
  byte_len, ℕ, ◌+◌, ◌-◌, ◌*◌, ◌^◌, min, String, Bool, true, false, not, ◌&&◌, ◌||◌, Option, none,
  some, ltb, leb, ◌==◌, if◌then◌else◌, is_blank, ℤ, pos, is_pos, pos_part,
}

-- The package's error variables; `not_configured` stands for the errors of a nil receiver.
pub data Err : Type 0 where
  invalid_key invalid_token expired not_yet_valid ttl_exceeded unknown_key : Err
  binding_invalid binding_mismatch replay not_configured invalid_capacity : Err

-- The seconds from year 1 to the Unix epoch, and the nanoseconds of a second.
abbrev pub unix_epoch : ℕ
unix_epoch = 62135596800

abbrev pub second : ℕ
second = 1_000_000_000

-- `time.Unix(s, 0)`.
unfoldable pub time_unix : ℤ → ℕ
time_unix s = (unix_epoch + pos_part s) * second

pub record Options : Type 0 where
  pub max_ttl : ℤ
  pub clock_skew : ℤ

abbrev pub default_options : Options
default_options = record { max_ttl = pos (15 * 60 * second); clock_skew = pos (30 * second) }

unfoldable pub normalize_options : Options → Options
normalize_options o = record {
  max_ttl = if is_pos o.max_ttl then o.max_ttl else default_options.max_ttl;
  clock_skew = pos (pos_part o.clock_skew);
}

pub record Claims : Type 0 where
  pub key_id : String
  pub execution_id : String
  pub node_id : String
  pub event_id : String
  pub subject : String
  pub action : String
  pub nonce : String
  pub issued_at : ℤ
  pub expires_at : ℤ

abbrev is_key_char : ℕ → Bool
is_key_char c =
    leb b'a' c && leb c b'z'
    || leb b'A' c && leb c b'Z'
    || leb b'0' c && leb c b'9'
    || c == b'-'
    || c == b'_'
    || c == b'.'

pub all_key_chars : String → Bool
all_key_chars String.[] = true
all_key_chars (String.◌∷◌ c s) = is_key_char (code c) && all_key_chars s

unfoldable pub valid_key_id : String → Bool
unfolding all_key_chars
valid_key_id value = not (byte_len value == 0 || ltb 64 (byte_len value)) && all_key_chars value

abbrev pub ltb_int : ℤ → ℤ → Bool
ltb_int (pos a) (pos b) = ltb a b
ltb_int (pos a) (ℤ.negsuc b) = false
ltb_int (ℤ.negsuc a) (pos b) = true
ltb_int (ℤ.negsuc a) (ℤ.negsuc b) = ltb b a

-- The largest `time.Duration`, at which `Sub` saturates.
abbrev pub max_duration : ℕ
max_duration = 2 ^ 63 - 1

-- `now`, or the wall clock where it is the zero time.
abbrev pub or_wall : ℕ → ℕ → ℕ
or_wall wall now = if now == 0 then wall else now

-- Whether a claim is complete and its interval is not empty.
unfoldable pub complete : Claims → Bool
complete c =
    valid_key_id c.key_id
    && not (is_blank c.execution_id)
    && not (is_blank c.node_id)
    && not (is_blank c.event_id)
    && not (is_blank c.nonce)

-- `Claims.validate`. `none` is a nil error.
unfoldable pub validate : (wall now : ℕ) → Options → Claims → Option Err
unfolding complete time_unix normalize_options
validate wall now options c =
    let o = normalize_options options in
    let max_ttl = pos_part o.max_ttl in
    let skew = pos_part o.clock_skew in
    let t = or_wall wall now in
    let issued = time_unix c.issued_at in
    let expires = time_unix c.expires_at in
    if not (complete c)
    then some invalid_token
    else if not (is_pos c.issued_at) || not (ltb_int c.issued_at c.expires_at)
    then some invalid_token
    else if ltb (t + skew) issued
    then some not_yet_valid
    else if leb expires (t - skew)
    then some expired
    else if ltb max_ttl (min (expires - issued) max_duration)
    then some ttl_exceeded
    else none
