-- ===== src/Broker/Ids.antt =====
-- internal/broker/jobs.go: run ids and run keys.
pub mod Safe
use corv_client.Prelude.{
  ℕ, zero, suc, ◌+◌, ◌-◌, ◌*◌, ◌/◌, ◌%◌, Bool, true, false, ◌&&◌, ◌||◌, List, [], ◌∷◌, ◌++◌, Bytes,
  codes, length, replicate, ltb, leb, ◌==◌, if◌then◌else◌,
}

-- The tests of the two loops. A byte from 0x80 on is part of a rune that both loops refuse.
unfoldable pub run_id_char : ℕ → Bool
run_id_char r = (leb b'a' r && leb r b'f') || (leb b'0' r && leb r b'9') || r == b'-'

unfoldable pub run_key_char : ℕ → Bool
run_key_char r =
    (leb b'a' r && leb r b'z')
    || (leb b'A' r && leb r b'Z')
    || (leb b'0' r && leb r b'9')
    || r == b'.'
    || r == b'_'
    || r == b':'
    || r == b'-'

unfoldable pub all_chars : (ℕ → Bool) → Bytes → Bool
all_chars test [] = true
all_chars test (c ∷ s) = test c && all_chars test s

unfoldable pub valid_run_id : Bytes → Bool
valid_run_id id =
    if ltb (length id) 18 || ltb 80 (length id) then false else all_chars run_id_char id

unfoldable pub valid_run_key : Bytes → Bool
valid_run_key key =
    if ltb (length key) 1 || ltb 128 (length key) then false else all_chars run_key_char key

unfoldable pub hex_digit : ℕ → ℕ
hex_digit d = if ltb d 10 then b'0' + d else b'a' + (d - 10)

-- The hexadecimal digits of `n` before `out`; `fuel` rounds.
unfoldable pub hex_from : ℕ → ℕ → Bytes → Bytes
unfolding hex_digit
hex_from zero n out = out
hex_from (suc f) n out =
    let out' = hex_digit (n % 16) ∷ out in
    elim (ltb n 16) [ true ↦ out' | false ↦ hex_from f (n / 16) out' ]

-- `%x`; `n + 1` rounds are enough.
unfoldable pub hex : ℕ → Bytes
unfolding hex_from
hex n = hex_from (n + 1) n []

-- `%016x`
unfoldable pub hex16 : ℕ → Bytes
unfolding hex
hex16 n = replicate (16 - length (hex n)) b'0' ++ hex n

-- `hex.EncodeToString`
unfoldable pub encode_hex : Bytes → Bytes
unfolding hex_digit
encode_hex [] = []
encode_hex (b ∷ bs) = hex_digit (b / 16 % 16) ∷ hex_digit (b % 16) ∷ encode_hex bs

-- The id that `newJob` makes from the clock's seconds and 8 random bytes.
unfoldable pub new_run_id : ℕ → Bytes → Bytes
unfolding hex16 encode_hex
new_run_id seconds random = hex16 seconds ++ (b'-' ∷ encode_hex random)
