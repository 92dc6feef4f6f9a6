-- ===== src/Go/Strings/Index.antt =====
-- Package `strings`: what `IndexByte` finds.
use corv_client.Prelude.{
  ℕ, zero, suc, ◌<◌, ◌≡◌, ◌≢◌, ap, subst, [], ◌∷◌, ◌++◌, Bytes, none, some, arith, All, ◌==◌, take,
  drop, length, inl, inr, Bool-cases, Option-cases,
}
use corv_client.Go.Strings.{index_byte}

pub index_byte-none : (c : ℕ) (s : Bytes) → index_byte c s ≡ none → All (λ x. x ≢ c) s
unfolding index_byte
index_byte-none c [] h = tt
index_byte-none c (x ∷ s) h = elim (Bool-cases (x == c)) [
  | inl e ↦ absurd (ground (arith, e))
  | inr e ↦ (ground arith, index_byte-none c s (ground (arith, e)))
]

-- The first `c` of a text, found among its first bytes.
abbrev pub IsFirstAt : ℕ → Bytes → ℕ → Type 0
IsFirstAt c s i =
    (i < length s)
    × (s ≡ take i s ++ c ∷ drop (suc i) s)
    × (take (suc i) s ≡ take i s ++ c ∷ [])
    × All (λ x. x ≢ c) (take i s)

pub index_byte-IsFirstAt :
    (c b : ℕ) (s : Bytes) (i : ℕ) → index_byte c (take b s) ≡ some i → IsFirstAt c s i
unfolding index_byte
index_byte-IsFirstAt c zero s i h = cc h
index_byte-IsFirstAt c (suc b) [] i h = cc h
index_byte-IsFirstAt c (suc b) (x ∷ s) i h = elim (Bool-cases (x == c)) [
  | inl e ↦
      let here : (x ≡ c) × (0 ≡ i) = ground (arith, e) in
      subst (IsFirstAt c (x ∷ s)) here.1
        (omega arith, ap (λ (y : ℕ). y ∷ s) here.0, ap (λ (y : ℕ). y ∷ []) here.0, tt)
  | inr e ↦ elim (Option-cases (index_byte c (take b s))) [
    | inl n ↦ absurd (ground (arith, e, n))
    | inr (j, n) ↦
        let later : suc j ≡ i = ground (arith, e, n) in
        let (less, cut, front, plain) = index_byte-IsFirstAt c b s j n in
        subst (IsFirstAt c (x ∷ s)) later (
          omega arith,
          ap (λ (t : Bytes). x ∷ t) cut,
          ap (λ (t : Bytes). x ∷ t) front,
          (ground arith, plain),
        )
  ]
]
