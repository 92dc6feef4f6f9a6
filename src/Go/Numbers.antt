-- ===== src/Go/Numbers.antt =====
-- Package `strconv` and the verb `%d`, in decimal.
pub mod Decimal
use corv_client.Prelude.{
  ◌≡◌, ◌<◌, arith, ℕ, zero, suc, ◌+◌, ◌-◌, ◌*◌, ◌/◌, ◌%◌, ◌^◌, Bool, true, false, ◌&&◌, [], ◌∷◌,
  Bytes, Option, none, some, ltb, leb, ◌==◌, if◌then◌else◌,
}
use corv_client.Prelude.Int.{ℤ, pos, negsuc}

is_digit : ℕ → Bool
is_digit c = leb b'0' c && leb c b'9'

-- The number that digits spell behind `n`, with no bound.
unfoldable pub digits_value : ℕ → Bytes → Option ℕ
unfolding is_digit
digits_value n [] = some n
digits_value n (c ∷ s) = elim (is_digit c) [
  | true ↦ digits_value (n * 10 + (c - b'0')) s
  | false ↦ none
]

-- The digits of a number without its sign: there must be one.
unfoldable pub magnitude : Bytes → Option ℕ
unfolding digits_value
magnitude [] = none
magnitude (c ∷ s) = digits_value 0 (c ∷ s)

abbrev pub in_range : ℕ → Option ℕ → Option ℕ
in_range bound none = none
in_range bound (some n) = if ltb n bound then some n else none

abbrev pub as_pos : Option ℕ → Option ℤ
as_pos none = none
as_pos (some n) = some (pos n)

abbrev negate : ℕ → ℤ
negate zero = pos 0
negate (suc n) = negsuc n

abbrev as_neg : Option ℕ → Option ℤ
as_neg none = none
as_neg (some n) = some (negate n)

-- `strconv.ParseInt(s, 10, 64)`, and `strconv.Atoi` on a 64-bit platform: an optional sign, then
-- digits; `none` for a syntax error and for a number out of range.
unfoldable pub parse_int : Bytes → Option ℤ
unfolding magnitude
parse_int [] = none
parse_int (c ∷ s) =
    if c == b'-'
    then as_neg (in_range (2 ^ 63 + 1) (magnitude s))
    else if c == b'+'
    then as_pos (in_range (2 ^ 63) (magnitude s))
    else as_pos (in_range (2 ^ 63) (magnitude (c ∷ s)))

-- `strconv.ParseUint(s, 10, 63)`: no sign.
unfoldable pub parse_uint63 : Bytes → Option ℕ
unfolding magnitude
parse_uint63 s = in_range (2 ^ 63) (magnitude s)

-- The decimal digits of `n` before `out`; `n + 1` rounds are enough.
digits_of : ℕ → ℕ → Bytes → Bytes
digits_of zero n out = out
digits_of (suc f) n out =
    let out' = (b'0' + n % 10) ∷ out in
    elim (ltb n 10) [ true ↦ out' | false ↦ digits_of f (n / 10) out' ]

-- `%d` of a number that is not negative.
unfoldable pub decimal : ℕ → Bytes
unfolding digits_of
decimal n = digits_of (n + 1) n []

-- A parsed number that is not negative fits an `int64`.
pub parse_int-lt : (s : Bytes) {n : ℕ} → parse_int s ≡ some (pos n) → n < 2 ^ 63
unfolding parse_int
parse_int-lt [] h = cc
parse_int-lt (c ∷ s) h = ground arith
