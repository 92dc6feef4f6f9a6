-- ===== src/Go/Strings.antt =====
-- Package `strings` (and `bytes`), on lists of bytes.
pub mod Split
pub mod Search
pub mod Index
use corv_client.Prelude.{
  inl, inr, All, All-reverse, Bool-cases, ◌≤◌, arith, length-reverse, ℕ, zero, suc, Bool, true,
  false, ◌&&◌, ◌||◌, List, [], ◌∷◌, ◌++◌, reverse, Bytes, Option, none, some, length, drop, leb,
  ◌==◌, if◌then◌else◌, bytes_eq,
}

-- ASCII white space of `unicode.IsSpace`.
is_ascii_space : ℕ → Bool
is_ascii_space c = (leb 9 c && leb c 13) || c == 32

-- U+0085 and U+00A0.
is_space2 : ℕ → ℕ → Bool
is_space2 a b = a == 0xc2 && (b == 0x85 || b == 0xa0)

-- U+1680, U+2000 to U+200A, U+2028, U+2029, U+202F, U+205F, U+3000.
is_space3 : ℕ → ℕ → ℕ → Bool
is_space3 a b c =
    (a == 0xe1 && b == 0x9a && c == 0x80)
    || (a == 0xe2
        && b == 0x80
        && ((leb 0x80 c && leb c 0x8a) || c == 0xa8 || c == 0xa9 || c == 0xaf))
    || (a == 0xe2 && b == 0x81 && c == 0x9f)
    || (a == 0xe3 && b == 0x80 && c == 0x80)

-- The bytes of the white-space rune at the front, 0 if there is none.
unfoldable pub space_width : Bytes → ℕ
unfolding is_ascii_space is_space2 is_space3
space_width [] = 0
space_width (a ∷ []) = if is_ascii_space a then 1 else 0
space_width (a ∷ b ∷ []) = if is_ascii_space a then 1 else if is_space2 a b then 2 else 0
space_width (a ∷ b ∷ c ∷ s) =
    if is_ascii_space a then 1 else if is_space2 a b then 2 else if is_space3 a b c then 3 else 0

-- The same at the end, on the reversed bytes.
unfoldable pub space_width_back : Bytes → ℕ
unfolding is_ascii_space is_space2 is_space3
space_width_back [] = 0
space_width_back (a ∷ []) = if is_ascii_space a then 1 else 0
space_width_back (b ∷ a ∷ []) = if is_ascii_space b then 1 else if is_space2 a b then 2 else 0
space_width_back (c ∷ b ∷ a ∷ s) =
    if is_ascii_space c then 1 else if is_space2 b c then 2 else if is_space3 a b c then 3 else 0

-- One round for each rune; there are at most as many as bytes.
trim_by : (Bytes → ℕ) → ℕ → Bytes → Bytes
trim_by width zero s = s
trim_by width (suc f) s = elim (width s) [ zero ↦ s | suc k ↦ trim_by width f (drop (suc k) s) ]

-- `strings.TrimSpace`.
unfoldable pub trim_space : Bytes → Bytes
unfolding trim_by space_width space_width_back
trim_space s =
    let front = trim_by space_width (length s) s in
    reverse (trim_by space_width_back (length front) (reverse front))

-- `strings.TrimRight(s, string(c))`.
strip : ℕ → Bytes → Bytes
strip c [] = []
strip c (x ∷ s) = if x == c then strip c s else x ∷ s

unfoldable pub trim_right : ℕ → Bytes → Bytes
unfolding strip
trim_right c s = reverse (strip c (reverse s))

-- `strings.Fields`: the word so far, the words before it.
push_word : Bytes → List Bytes → List Bytes
push_word [] words = words
push_word (c ∷ w) words = words ++ (c ∷ w) ∷ []

unfoldable pub fields_from : ℕ → Bytes → Bytes → List Bytes → List Bytes
unfolding push_word space_width
fields_from zero s word words = push_word word words
fields_from (suc f) [] word words = push_word word words
fields_from (suc f) (c ∷ s) word words = elim (space_width (c ∷ s)) [
  | zero ↦ fields_from f s (word ++ c ∷ []) words
  | suc k ↦ fields_from f (drop (suc k) (c ∷ s)) [] (push_word word words)
]

unfoldable pub fields : Bytes → List Bytes
unfolding fields_from
fields s = fields_from (length s) s [] []

-- `strings.Split(s, string(sep))`.
unfoldable pub split : ℕ → Bytes → List Bytes
split sep [] = [] ∷ []
split sep (c ∷ s) = elim (split sep s) [
  | [] ↦ (c ∷ []) ∷ []
  | part ∷ parts ↦ if c == sep then [] ∷ part ∷ parts else (c ∷ part) ∷ parts
]

-- `strings.Join(parts, sep)`.
unfoldable pub join : Bytes → List Bytes → Bytes
join sep [] = []
join sep (p ∷ []) = p
join sep (p ∷ q ∷ ps) = p ++ (sep ++ join sep (q ∷ ps))

-- `bytes.IndexByte`.
unfoldable pub index_byte : ℕ → Bytes → Option ℕ
index_byte c [] = none
index_byte c (x ∷ s) =
    if x == c then some 0 else elim (index_byte c s) [ none ↦ none | some i ↦ some (suc i) ]

-- `strings.HasPrefix(s, p)`.
unfoldable pub has_prefix : Bytes → Bytes → Bool
has_prefix s [] = true
has_prefix [] (x ∷ p) = false
has_prefix (y ∷ s) (x ∷ p) = y == x && has_prefix s p

-- `strings.Contains(s, p)`.
unfoldable pub contains : Bytes → Bytes → Bool
unfolding has_prefix
contains [] p = has_prefix [] p
contains (c ∷ s) p = has_prefix (c ∷ s) p || contains s p

-- `strings.HasSuffix(s, p)`.
unfoldable pub has_suffix : Bytes → Bytes → Bool
unfolding has_prefix
has_suffix s p = has_prefix (reverse s) (reverse p)

-- Membership in a list of strings, for a Go `map[string]bool`.
unfoldable pub elem : Bytes → List Bytes → Bool
unfolding bytes_eq
elem t [] = false
elem t (x ∷ xs) = bytes_eq x t || elem t xs

length-strip : (c : ℕ) (s : Bytes) → length (strip c s) ≤ length s
unfolding strip
length-strip c [] = omega arith
length-strip c (x ∷ s) = ground (arith, length-strip c s)

pub length-trim_right : (c : ℕ) (s : Bytes) → length (trim_right c s) ≤ length s
unfolding trim_right
length-trim_right c s =
    omega
      (arith, length-reverse (strip c (reverse s)), length-strip c (reverse s), length-reverse s)

All-strip : (P : ℕ → Type 0) (c : ℕ) (s : Bytes) → All P s → All P (strip c s)
unfolding strip
All-strip P c [] h = tt
All-strip P c (x ∷ s) h = elim (Bool-cases (x == c)) [
  | inl e ↦ rw e (All-strip P c s h.1)
  | inr e ↦ rw e h
]

pub All-trim_right : (P : ℕ → Type 0) (c : ℕ) (s : Bytes) → All P s → All P (trim_right c s)
unfolding trim_right
All-trim_right P c s h =
    All-reverse P (strip c (reverse s)) (All-strip P c (reverse s) (All-reverse P s h))
