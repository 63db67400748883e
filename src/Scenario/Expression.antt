-- ===== src/Scenario/Expression.antt =====
-- internal/scenario/model/expression.go and id.go: `Validate` of an expression, and `validateToken`.
-- Each test is true where the source returns a nil error; the error itself is display text. Whether
-- a literal's value is canonical (value.go decodes it as JSON) is a parameter.
use home_sentinel.Base.{
  char_len, ◌+◌, ℕ, suc, String, str_eq, codes, to_lower, trim, bytes_eq, is_blank, Bool, true,
  false, not, ◌&&◌, ◌||◌, Option, none, some, List, [], ◌∷◌, if◌then◌else◌, leb, ◌==◌, length,
  every,
}
use home_sentinel.Scenario.Model.{Value, Expr, expr, Exprs, no_args, arg}

abbrev max_identifier_bytes : ℕ
max_identifier_bytes = 160

abbrev is_token_char : ℕ → Bool
is_token_char c =
    leb b'a' c && leb c b'z'
    || leb b'A' c && leb c b'Z'
    || leb b'0' c && leb c b'9'
    || c == b'-'
    || c == b'_'
    || c == b'.'
    || c == b':'
    || c == b'/'

-- `validateToken` on code points: a text that passes is ASCII, so that these are its bytes.
unfoldable pub valid_codes : List ℕ → Bool
unfolding trim
valid_codes value =
    let s = trim value in
    not (length s == 0) && (leb (length s) max_identifier_bytes && every is_token_char s)

unfoldable pub valid_token : String → Bool
unfolding valid_codes
valid_token value = valid_codes (codes value)

-- `strings.Split` at dots.
abbrev pub cons_head : ℕ → List (List ℕ) → List (List ℕ)
cons_head c [] = (c ∷ []) ∷ []
cons_head c (s ∷ ss) = (c ∷ s) ∷ ss

unfoldable pub split_codes : List ℕ → List (List ℕ)
split_codes [] = [] ∷ []
split_codes (c ∷ s) = if c == b'.' then [] ∷ split_codes s else cons_head c (split_codes s)

-- `len` of a text, from its code points.
abbrev code_bytes : List ℕ → ℕ
code_bytes [] = 0
code_bytes (c ∷ s) = char_len c + code_bytes s

-- `validateReference`; white space around a segment need not be ASCII, and the limit is one of bytes.
unfoldable pub valid_reference : String → Bool
unfolding trim valid_codes split_codes
valid_reference ref =
    let s = trim (codes ref) in
    not (length s == 0) && (leb (code_bytes s) 256 && every valid_codes (split_codes s))

-- What the operator asks of an expression: a value, a reference, or so many arguments.
pub data Form : Type 0 where
  a_value a_ref no_form : Form
  exactly at_least : ℕ → Form

abbrev pub is_one_of : List ℕ → List String → Bool
is_one_of s [] = false
is_one_of s (w ∷ ws) = bytes_eq s (codes w) || is_one_of s ws

abbrev pub form_of : List ℕ → Form
form_of op =
    if is_one_of op ("literal" ∷ [])
    then Form.a_value
    else if is_one_of op ("ref" ∷ [])
    then Form.a_ref
    else if is_one_of op ("not" ∷ "exists" ∷ "missing" ∷ "changed" ∷ [])
    then exactly 1
    else if is_one_of op ("and" ∷ "or" ∷ [])
    then at_least 2
    else if is_one_of op
        ("eq" ∷ "ne" ∷ "gt" ∷ "gte" ∷ "lt" ∷ "lte" ∷ "in" ∷ "add" ∷ "sub" ∷ "mul" ∷ "div" ∷ [])
    then exactly 2
    else if is_one_of op ("between" ∷ [])
    then exactly 3
    else Form.no_form

unfoldable pub form : String → Form
unfolding to_lower trim bytes_eq
form op = form_of (to_lower (trim (codes op)))

abbrev count_args : Exprs → ℕ
count_args no_args = 0
count_args (arg e es) = suc (count_args es)

abbrev pub is_present {ℓ} : {A : Type ℓ} → Option A → Bool
is_present none = false
is_present (some _) = true

-- `IsZero`.
abbrev pub is_zero_expr : Expr → Bool
is_zero_expr (expr op ref value args) =
    str_eq op "" && (str_eq ref "" && (not (is_present value) && count_args args == 0))

module _ (valid_value : Value → Bool) where
  abbrev valid_literal : Option Value → Bool
  valid_literal none = false
  valid_literal (some v) = valid_value v

  unfoldable mutual
    unfolding form valid_reference

    pub valid_expr : Expr → Bool
    valid_expr (expr op ref value args) =
        let arguments = valid_args args in
        let n = count_args args in
        is_zero_expr (expr op ref value args) || elim (form op) [
          | Form.a_value ↦ valid_literal value && (str_eq ref "" && n == 0)
          | Form.a_ref ↦
              not (is_blank ref) && (not (is_present value) && (n == 0 && valid_reference ref))
          | exactly k ↦ n == k && (str_eq ref "" && (not (is_present value) && arguments))
          | at_least k ↦ leb k n && (str_eq ref "" && (not (is_present value) && arguments))
          | Form.no_form ↦ false
        ]

    pub valid_args : Exprs → Bool
    valid_args no_args = true
    valid_args (arg e es) = not (is_zero_expr e) && (valid_expr e && valid_args es)

  -- `validateExprMap`.
  unfoldable pub valid_arguments : List (String × Expr) → Bool
  unfolding valid_expr valid_token
  valid_arguments [] = true
  valid_arguments ((key, e) ∷ es) =
      valid_token key && (not (is_zero_expr e) && (valid_expr e && valid_arguments es))

  -- A condition, which may not be left out.
  unfoldable pub valid_condition : Expr → Bool
  unfolding valid_expr
  valid_condition e = not (is_zero_expr e) && valid_expr e
