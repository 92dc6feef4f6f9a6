-- ===== src/Go/Utf8.antt =====
-- Package `unicode/utf8` and `bytes.ToValidUTF8`.
use corv_client.Prelude.{
  ℕ, zero, suc, Bool, true, false, ◌&&◌, not, [], ◌∷◌, ◌++◌, Bytes, length, take, drop, ltb, leb,
  ◌==◌, if◌then◌else◌,
}

between : ℕ → ℕ → ℕ → Bool
between lo hi b = leb lo b && leb b hi

-- `utf8.RuneStart`: no continuation byte.
unfoldable pub rune_start : ℕ → Bool
rune_start b = not (leb 0x80 b && ltb b 0xc0)

-- The range of the second byte behind the first byte `a` of three.
second3 : ℕ → ℕ → Bool
unfolding between
second3 a b =
    if a == 0xe0
    then between 0xa0 0xbf b
    else if a == 0xed
    then between 0x80 0x9f b
    else between 0x80 0xbf b

second4 : ℕ → ℕ → Bool
unfolding between
second4 a b =
    if a == 0xf0
    then between 0x90 0xbf b
    else if a == 0xf4
    then between 0x80 0x8f b
    else between 0x80 0xbf b

is_seq2 : ℕ → ℕ → Bool
unfolding between
is_seq2 a b = between 0xc2 0xdf a && between 0x80 0xbf b

is_seq3 : ℕ → ℕ → ℕ → Bool
unfolding between second3
is_seq3 a b c = between 0xe0 0xef a && second3 a b && between 0x80 0xbf c

is_seq4 : ℕ → ℕ → ℕ → ℕ → Bool
unfolding between second4
is_seq4 a b c d = between 0xf0 0xf4 a && second4 a b && between 0x80 0xbf c && between 0x80 0xbf d

-- The bytes of the rune at the front, 0 if they are no valid encoding (or there are none).
unfoldable pub rune_width : Bytes → ℕ
unfolding is_seq2 is_seq3 is_seq4
rune_width [] = 0
rune_width (a ∷ []) = if ltb a 0x80 then 1 else 0
rune_width (a ∷ b ∷ []) = if ltb a 0x80 then 1 else if is_seq2 a b then 2 else 0
rune_width (a ∷ b ∷ c ∷ []) =
    if ltb a 0x80 then 1 else if is_seq2 a b then 2 else if is_seq3 a b c then 3 else 0
rune_width (a ∷ b ∷ c ∷ d ∷ s) =
    if ltb a 0x80
    then 1
    else if is_seq2 a b
    then 2
    else if is_seq3 a b c
    then 3
    else if is_seq4 a b c d
    then 4
    else 0

-- One round for each rune; a text has at most as many runes as bytes.
unfoldable pub valid_from : ℕ → Bytes → Bool
unfolding rune_width
valid_from f [] = true
valid_from zero (c ∷ s) = false
valid_from (suc f) (c ∷ s) = elim (rune_width (c ∷ s)) [
  | zero ↦ false
  | suc k ↦ valid_from f (drop (suc k) (c ∷ s))
]

-- `utf8.Valid`, `utf8.ValidString`.
unfoldable pub valid : Bytes → Bool
unfolding valid_from
valid s = valid_from (length s) s

abbrev replacement : Bytes
replacement = 0xef ∷ 0xbf ∷ 0xbd ∷ []

-- The flag tells that the byte before was invalid: a run of them has one replacement.
to_valid_from : ℕ → Bool → Bytes → Bytes
unfolding rune_width
to_valid_from f run [] = []
to_valid_from zero run (c ∷ s) = []
to_valid_from (suc f) run (c ∷ s) = elim (rune_width (c ∷ s)) [
  | zero ↦ (if run then [] else replacement) ++ to_valid_from f true s
  | suc k ↦ take (suc k) (c ∷ s) ++ to_valid_from f false (drop (suc k) (c ∷ s))
]

-- `bytes.ToValidUTF8(s, "\uFFFD")`
unfoldable pub to_valid : Bytes → Bytes
unfolding to_valid_from
to_valid s = to_valid_from (length s) false s
