-- ===== src/Go/Numbers/Decimal.antt =====
-- Printing a number in decimal and reading it back.
use corv_client.Prelude.{
  ◌≡◌, refl, ap, sym, ◌∙◌, ◌<◌, arith, ℕ, zero, suc, ◌+◌, ◌-◌, ◌*◌, ◌/◌, ◌%◌, ◌^◌, true, [], ◌∷◌,
  Bytes, some, All, ltb, inl, inr, Bool-cases,
}
use corv_client.Prelude.Int.{pos}
use corv_client.Go.Numbers.{is_digit, digits_value, magnitude, parse_int, digits_of, decimal}

digit_value :
    (a d : ℕ) (out : Bytes)
    → d < 10
    → digits_value a ((b'0' + d) ∷ out) ≡ digits_value (a * 10 + d) out
unfolding digits_value is_digit
digit_value a d out h =
    let t : is_digit (b'0' + d) ≡ true = ground arith in
    let v : b'0' + d - b'0' ≡ d = omega arith in rw (digits_value, t, v) refl

digits_value-digits_of :
    (f n : ℕ) (out : Bytes) → n < f → digits_value 0 (digits_of f n out) ≡ digits_value n out
unfolding digits_of
digits_value-digits_of zero n out h = absurd (omega arith)
digits_value-digits_of (suc f) n out h = elim (Bool-cases (ltb n 10)) [
  | inl small ↦
      let last : n % 10 ≡ n = ground arith in
      let start : 0 * 10 + n ≡ n = omega arith in
      rw (digits_of, small, last)
        (digit_value 0 n out (ground arith) ∙ ap (λ (k : ℕ). digits_value k out) start)
  | inr large ↦
      let whole : n / 10 * 10 + n % 10 ≡ n = omega arith in
      rw (digits_of, large)
        (digits_value-digits_of f (n / 10) ((b'0' + n % 10) ∷ out) (ground arith)
          ∙ digit_value (n / 10) (n % 10) out (omega arith)
          ∙ ap (λ (k : ℕ). digits_value k out) whole)
]

-- The first digit, which is neither a sign nor missing.
digits_of-cons :
    (f n : ℕ) (out : Bytes)
    → (d : ℕ) × (rest : Bytes) × (d < 10) × (digits_of (suc f) n out ≡ (b'0' + d) ∷ rest)
unfolding digits_of
digits_of-cons zero n out = elim (Bool-cases (ltb n 10)) [
  | inl small ↦ (n % 10, out, omega arith, rw (digits_of, small))
  | inr large ↦ (n % 10, out, omega arith, rw (digits_of, large))
]
digits_of-cons (suc f) n out = elim (Bool-cases (ltb n 10)) [
  | inl small ↦ (n % 10, out, omega arith, rw (digits_of, small))
  | inr large ↦
      let (d, rest, h, e) = digits_of-cons f (n / 10) ((b'0' + n % 10) ∷ out) in
      (d, rest, h, rw (digits_of, large) e)
]

module _ (P : ℕ → Type 0) (digits : (d : ℕ) → d < 10 → P (b'0' + d)) where
  digits_of-All : (f n : ℕ) (out : Bytes) → All P out → All P (digits_of f n out)
  unfolding digits_of
  digits_of-All zero n out h = h
  digits_of-All (suc f) n out h = elim (Bool-cases (ltb n 10)) [
    | inl small ↦ rw (digits_of, small) (digits (n % 10) (omega arith), h)
    | inr large ↦
        rw (digits_of, large) (digits_of-All f (n / 10) _ (digits (n % 10) (omega arith), h))
  ]

  pub decimal-All : (n : ℕ) → All P (decimal n)
  unfolding decimal
  decimal-All n = digits_of-All (n + 1) n [] tt

pub parse_int-decimal : (n : ℕ) → n < 2 ^ 63 → parse_int (decimal n) ≡ some (pos n)
unfolding parse_int decimal magnitude
parse_int-decimal n h =
    let (d, rest, small, e) = digits_of-cons n n [] in
    let same : n + 1 ≡ suc n = omega arith in
    let e' : digits_of (n + 1) n [] ≡ (b'0' + d) ∷ rest = rw same e in
    let value : digits_value 0 ((b'0' + d) ∷ rest) ≡ some n =
      ap (digits_value 0) (sym e') ∙ digits_value-digits_of (n + 1) n [] (omega arith) in
    rw (e', value) (ground arith)
