-- ===== src/Go/Strings/Search.antt =====
-- Package `strings`: searching, cutting and folding at one byte.
use corv_client.Prelude.{
  ℕ, suc, ◌+◌, ◌≡◌, ◌≢◌, refl, ap, subst, Bool, true, false, ◌&&◌, ◌||◌, [], ◌∷◌, ◌++◌, map, Bytes,
  Option, none, some, inl, inr, arith, All, ltb, leb, ◌==◌, if◌then◌else◌, bytes_eq, Option-cases,
  take, drop, length, reverse, ◌<◌,
}
use corv_client.Go.Strings.{index_byte}

abbrev after_found : ℕ → ℕ → Option ℕ → Option ℕ
after_found c x none = if x == c then some 0 else none
after_found c x (some i) = some (suc i)

-- `strings.LastIndex(s, string(c))`
unfoldable pub last_index : ℕ → Bytes → Option ℕ
last_index c [] = none
last_index c (x ∷ s) = after_found c x (last_index c s)

-- `strings.Count(s, string(c))`
unfoldable pub count_byte : ℕ → Bytes → ℕ
count_byte c [] = 0
count_byte c (x ∷ s) = let n = count_byte c s in if x == c then suc n else n

abbrev longer_cut : ℕ → Option (Bytes × Bytes) → Option (Bytes × Bytes)
longer_cut x none = none
longer_cut x (some (before, after)) = some (x ∷ before, after)

-- `strings.Cut(s, string(c))`: the parts around the first `c`, `none` if there is none.
unfoldable pub cut : ℕ → Bytes → Option (Bytes × Bytes)
cut c [] = none
cut c (x ∷ s) = if x == c then some ([], s) else longer_cut x (cut c s)

-- `strings.ContainsAny`, `strings.IndexByte(set, x) >= 0`
unfoldable pub has_byte : ℕ → Bytes → Bool
has_byte c [] = false
has_byte c (x ∷ s) = x == c || has_byte c s

unfoldable pub contains_any : Bytes → Bytes → Bool
unfolding has_byte
contains_any [] set = false
contains_any (x ∷ s) set = has_byte x set || contains_any s set

-- `strings.TrimLeft(s, set)` and `strings.Trim(s, set)` for a set of ASCII bytes
unfoldable pub trim_left : Bytes → Bytes → Bytes
unfolding has_byte
trim_left set [] = []
trim_left set (x ∷ s) = let rest = trim_left set s in if has_byte x set then rest else x ∷ s

unfoldable pub trim : Bytes → Bytes → Bytes
unfolding trim_left
trim set s = reverse (trim_left set (reverse (trim_left set s)))

unfoldable pub lower_byte : ℕ → ℕ
lower_byte c = if leb b'A' c && leb c b'Z' then c + 32 else c

-- `strings.EqualFold(s, t)` for a lower-case ASCII `t` without k and s: no other rune folds to its
-- letters.
unfoldable pub equal_fold : Bytes → Bytes → Bool
unfolding lower_byte bytes_eq
equal_fold s t = bytes_eq (map lower_byte s) t

unfoldable pub is_ascii : Bytes → Bool
is_ascii [] = true
is_ascii (c ∷ s) = ltb c 128 && is_ascii s

-- The letters outside ASCII: `strings.Map(unicode.ToLower, s)`.
pub record Letters : Type 0 where
  pub lower_text : Bytes → Bytes

-- `strings.ToLower`
unfoldable pub to_lower : ⦃l : Letters⦄ → Bytes → Bytes
unfolding is_ascii lower_byte
to_lower ⦃l⦄ s = if is_ascii s then map lower_byte s else l.lower_text s

-- How these see a text without the byte, and one that is built around it.
module _ (c : ℕ) where
  pub last_index-none : (s : Bytes) → All (λ x. x ≢ c) s → last_index c s ≡ none
  unfolding last_index
  last_index-none [] h = refl
  last_index-none (x ∷ s) (hx, h) = rw (last_index-none s h) (ground arith)

  pub last_index-append :
      (p s : Bytes) → All (λ x. x ≢ c) s → last_index c (p ++ c ∷ s) ≡ some (length p)
  unfolding last_index
  last_index-append [] s h = rw (last_index-none s h) (ground arith)
  last_index-append (x ∷ p) s h = rw (last_index-append p s h) refl

  pub count_byte-zero : (s : Bytes) → All (λ x. x ≢ c) s → count_byte c s ≡ 0
  unfolding count_byte
  count_byte-zero [] h = refl
  count_byte-zero (x ∷ s) (hx, h) = ground (arith, count_byte-zero s h)

  pub count_byte-append : (s t : Bytes) → count_byte c (s ++ t) ≡ count_byte c s + count_byte c t
  unfolding count_byte
  count_byte-append [] t = omega arith
  count_byte-append (x ∷ s) t = ground (arith, count_byte-append s t)

  pub cut-none : (s : Bytes) → All (λ x. x ≢ c) s → cut c s ≡ none
  unfolding cut
  cut-none [] h = refl
  cut-none (x ∷ s) (hx, h) = rw (cut-none s h) (ground arith)

  -- A text is cut exactly when it has the byte.
  pub cut-eq-none : (s : Bytes) → cut c s ≡ none → count_byte c s ≡ 0
  unfolding cut count_byte
  cut-eq-none [] h = refl
  cut-eq-none (x ∷ s) h = ground (arith, cut-eq-none s)

  pub cut-eq_none_of_count : (s : Bytes) → count_byte c s ≡ 0 → cut c s ≡ none
  unfolding cut count_byte
  cut-eq_none_of_count [] h = refl
  cut-eq_none_of_count (x ∷ s) h = ground (arith, cut-eq_none_of_count s)

  pub cut-append : (p s : Bytes) → All (λ x. x ≢ c) p → cut c (p ++ c ∷ s) ≡ some (p, s)
  unfolding cut
  cut-append [] s h = ground arith
  cut-append (x ∷ p) s (hx, h) = rw (cut-append p s h) (ground arith)

  pub index_byte-append :
      (p s : Bytes) → All (λ x. x ≢ c) p → index_byte c (p ++ c ∷ s) ≡ some (length p)
  unfolding index_byte
  index_byte-append [] s h = ground arith
  index_byte-append (x ∷ p) s (hx, h) = rw (index_byte-append p s h) (ground arith)

  -- The byte at `i` is the last `c`.
  abbrev pub IsLastAt : Bytes → ℕ → Type 0
  IsLastAt s i =
      (i < length s) × (s ≡ take i s ++ c ∷ drop (i + 1) s) × All (λ x. x ≢ c) (drop (i + 1) s)

  IsLastAt-suc : (x : ℕ) (s : Bytes) (i : ℕ) → IsLastAt s i → IsLastAt (x ∷ s) (suc i)
  IsLastAt-suc x s i (h, e, plain) =
      let next : suc i + 1 ≡ suc (i + 1) = omega arith in
      rw next (omega arith, ap (λ (t : Bytes). x ∷ t) e, plain)

  pub last_index-eq_none : (s : Bytes) → last_index c s ≡ none → All (λ x. x ≢ c) s
  unfolding last_index
  last_index-eq_none [] h = tt
  last_index-eq_none (x ∷ s) h = elim (Option-cases (last_index c s)) [
    | inl e ↦ (ground (arith, e), last_index-eq_none s e)
    | inr (j, e) ↦ absurd (ground (arith, e))
  ]

  pub last_index-IsLastAt : (s : Bytes) (i : ℕ) → last_index c s ≡ some i → IsLastAt s i
  unfolding last_index
  last_index-IsLastAt [] i h = cc
  last_index-IsLastAt (x ∷ s) i h = elim (Option-cases (last_index c s)) [
    | inl e ↦
        let here : (x ≡ c) × (0 ≡ i) = ground (arith, e) in
        subst (IsLastAt (x ∷ s)) here.1
          (omega arith, ap (λ (y : ℕ). y ∷ s) here.0, last_index-eq_none s e)
    | inr (j, e) ↦
        let later : suc j ≡ i = ground (arith, e) in
        subst (IsLastAt (x ∷ s)) later (IsLastAt-suc x s j (last_index-IsLastAt s j e))
  ]
