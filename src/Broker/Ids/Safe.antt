-- ===== src/Broker/Ids/Safe.antt =====
-- internal/broker/jobs.go: the bytes of a run id that passes `validRunID`, and of a new one.
use native.Mathlib.Nat.{pow-suc}
use corv_client.Prelude.{
  ℕ, zero, suc, ◌+◌, ◌-◌, ◌*◌, ◌/◌, ◌%◌, ◌^◌, ◌≤◌, ◌<◌, ◌≡◌, ◌≢◌, refl, Bool, true, inl, inr, [],
  ◌∷◌, ◌++◌, Bytes, arith, All, All-append, All-replicate, length, replicate, length-append,
  length-replicate, ltb, Bool-cases,
}
use corv_client.Ssh.Shell.{is_literal}
use corv_client.Broker.Ids.{
  run_id_char, all_chars, valid_run_id, hex_digit, hex_from, hex, hex16, encode_hex, new_run_id,
}

-- A lower-case hexadecimal digit or a dash.
abbrev pub IsIdByte : ℕ → Type 0
IsIdByte c = (run_id_char c ≡ true)

-- A byte that stands for itself in a shell, outside quotes, and that is no part of a path's structure:
-- no `/`, no dot (`.` and `..`), and no `:` or `%`.
abbrev pub IsPlain : ℕ → Type 0
IsPlain c = (is_literal c ≡ true) × (c ≢ b'/') × (c ≢ b'.') × (c ≢ b':') × (c ≢ b'%') × (c ≢ b'=')

All-all_chars : (test : ℕ → Bool) (s : Bytes) → all_chars test s ≡ true → All (λ c. test c ≡ true) s
unfolding all_chars
All-all_chars test [] h = tt
All-all_chars test (c ∷ s) h = (ground (arith, h), All-all_chars test s (ground (arith, h)))

All→all_chars : (test : ℕ → Bool) (s : Bytes) → All (λ c. test c ≡ true) s → all_chars test s ≡ true
unfolding all_chars
All→all_chars test [] h = refl
All→all_chars test (c ∷ s) (hc, h) = rw (hc, All→all_chars test s h)

IsPlain-char : (c : ℕ) → run_id_char c ≡ true → IsPlain c
unfolding run_id_char is_literal
IsPlain-char c h = ground arith

IsPlain-chars : (s : Bytes) → All IsIdByte s → All IsPlain s
IsPlain-chars [] h = tt
IsPlain-chars (c ∷ s) (hc, h) = (IsPlain-char c hc, IsPlain-chars s h)

-- A valid run id has 18 to 80 bytes, each a printable one that stands for itself in a POSIX shell
-- outside quotes, wherever it is in a word, and none of them `/`, a dot, `:`, `%` or `=`.
pub valid_run_id-IsPlain :
    (id : Bytes) → valid_run_id id ≡ true → (18 ≤ length id) × (length id ≤ 80) × All IsPlain id
unfolding valid_run_id
valid_run_id-IsPlain id h =
    (ground arith, ground arith, IsPlain-chars id (All-all_chars run_id_char id (ground arith)))

id_digit : (d : ℕ) → d < 16 → IsIdByte (hex_digit d)
unfolding run_id_char hex_digit
id_digit d h = ground arith

hex_from-IsIdByte : (f n : ℕ) (out : Bytes) → All IsIdByte out → All IsIdByte (hex_from f n out)
unfolding hex_from
hex_from-IsIdByte zero n out h = h
hex_from-IsIdByte (suc f) n out h = elim (Bool-cases (ltb n 16)) [
  | inl e ↦ rw (e, hex_from) (id_digit (n % 16) (omega arith), h)
  | inr e ↦
      rw (e, hex_from)
        (hex_from-IsIdByte f (n / 16) (hex_digit (n % 16) ∷ out)
          (id_digit (n % 16) (omega arith), h))
]

-- A number below 16 ^ k has at most k digits.
length-hex_from :
    (k f n : ℕ) (out : Bytes) → n < 16 ^ suc k → length (hex_from f n out) ≤ suc k + length out
unfolding hex_from
length-hex_from k zero n out h = omega arith
length-hex_from zero (suc f) n out h = ground arith
length-hex_from (suc k) (suc f) n out h = elim (Bool-cases (ltb n 16)) [
  | inl e ↦ rw (e, hex_from) (omega arith)
  | inr e ↦
      rw (e, hex_from)
        (omega (
          arith,
          length-hex_from k f (n / 16) (hex_digit (n % 16) ∷ out)
              (omega (arith, pow-suc 16 (suc k))),
        ))
]

encode_hex-IsIdByte : (bs : Bytes) → All IsIdByte (encode_hex bs)
unfolding encode_hex
encode_hex-IsIdByte [] = tt
encode_hex-IsIdByte (b ∷ bs) = (
  id_digit (b / 16 % 16) (omega arith),
  (id_digit (b % 16) (omega arith), encode_hex-IsIdByte bs),
)

length-encode_hex : (bs : Bytes) → length (encode_hex bs) ≡ 2 * length bs
unfolding encode_hex
length-encode_hex [] = refl
length-encode_hex (b ∷ bs) = omega (arith, length-encode_hex bs)

hex16_fits : (n : ℕ) → n < 2 ^ 64 → (length (hex16 n) ≡ 16) × All IsIdByte (hex16 n)
unfolding hex16 hex
hex16_fits n h =
    let few : length (hex_from (n + 1) n []) ≤ 16 = length-hex_from 15 (n + 1) n [] h in
    (
      omega (
        arith,
        length-append (replicate (16 - length (hex_from (n + 1) n [])) b'0')
            (hex_from (n + 1) n []),
        length-replicate {A = ℕ} (16 - length (hex_from (n + 1) n [])) b'0',
      ),
      All-append IsIdByte (replicate (16 - length (hex_from (n + 1) n [])) b'0')
          (hex_from (n + 1) n [])
          (All-replicate IsIdByte (16 - length (hex_from (n + 1) n [])) b'0'
            (id_digit 0 (omega arith)))
          (hex_from-IsIdByte (n + 1) n [] tt),
    )

-- Every id that `newJob` makes is a valid run id.
pub valid_run_id-new_run_id :
    (seconds : ℕ) (random : Bytes)
    → seconds < 2 ^ 64
    → length random ≡ 8
    → valid_run_id (new_run_id seconds random) ≡ true
unfolding valid_run_id new_run_id
valid_run_id-new_run_id seconds random hs hr =
    let (front, ok) = hex16_fits seconds hs in
    let size : length (hex16 seconds ++ b'-' ∷ encode_hex random) ≡ 33 =
      omega (
        arith,
        length-append (hex16 seconds) (b'-' ∷ encode_hex random),
        length-encode_hex random,
      ) in
    rw (
      size,
      All→all_chars run_id_char (hex16 seconds ++ b'-' ∷ encode_hex random) (
          All-append IsIdByte (hex16 seconds) (b'-' ∷ encode_hex random) ok
            ((unfold run_id_char in refl), encode_hex-IsIdByte random)),
    )
