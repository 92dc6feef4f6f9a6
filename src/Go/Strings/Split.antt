-- ===== src/Go/Strings/Split.antt =====
-- `strings.Split` at one byte.
use corv_client.Prelude.{
  ℕ, ◌≡◌, ◌≢◌, refl, ap, ◌∙◌, inl, inr, List, [], ◌∷◌, ◌++◌, Bytes, arith, All, ◌==◌, Bool-cases,
  ==-self,
}
use corv_client.Go.Strings.{split}

module _ (sep : ℕ) where
  -- A split has a part.
  pub split-parts : (s : Bytes) → (p : Bytes) × (ps : List Bytes) × (split sep s ≡ p ∷ ps)
  unfolding split
  split-parts [] = ([], [], refl)
  split-parts (c ∷ s) =
      let (p, ps, e) = split-parts s in
      elim (Bool-cases (c == sep)) [
        | inl t ↦ ([], p ∷ ps, rw (e, t))
        | inr t ↦ (c ∷ p, ps, rw (e, t))
      ]

  split_at_sep : (s : Bytes) → split sep (sep ∷ s) ≡ [] ∷ split sep s
  unfolding split
  split_at_sep s = let (p, ps, e) = split-parts s in rw (e, ==-self sep)

  split_other :
      (c : ℕ) (s p : Bytes) (ps : List Bytes)
      → c ≢ sep
      → split sep s ≡ p ∷ ps
      → split sep (c ∷ s) ≡ (c ∷ p) ∷ ps
  unfolding split
  split_other c s p ps h e = rw e (ground arith)

  -- A part without the separator, then the rest.
  pub split-append :
      (p s : Bytes) → All (λ c. c ≢ sep) p → split sep (p ++ sep ∷ s) ≡ p ∷ split sep s
  split-append [] s h = split_at_sep s
  split-append (c ∷ p) s (hc, h) =
      split_other c (p ++ sep ∷ s) p (split sep s) hc (split-append p s h)

  pub split_one : (p : Bytes) → All (λ c. c ≢ sep) p → split sep p ≡ p ∷ []
  unfolding split
  split_one [] h = refl
  split_one (c ∷ p) (hc, h) = split_other c p p [] hc (split_one p h)

  -- A separator splits a text into the parts before it and the parts behind it.
  pub split-append_sep : (a b : Bytes) → split sep (a ++ sep ∷ b) ≡ split sep a ++ split sep b
  unfolding split
  split-append_sep [] b = split_at_sep b
  split-append_sep (c ∷ a) b =
      let (p, ps, e) = split-parts a in
      let whole : split sep (a ++ sep ∷ b) ≡ p ∷ (ps ++ split sep b) =
        split-append_sep a b ∙ ap (λ (xs : List Bytes). xs ++ split sep b) e in
      elim (Bool-cases (c == sep)) [ inl t ↦ rw (e, whole, t) refl | inr t ↦ rw (e, whole, t) refl ]

  -- What stands before the first separator is the front of the first part.
  pub split_plain-append :
      (q s p : Bytes) (ps : List Bytes)
      → All (λ c. c ≢ sep) q
      → split sep s ≡ p ∷ ps
      → split sep (q ++ s) ≡ (q ++ p) ∷ ps
  split_plain-append [] s p ps h e = e
  split_plain-append (c ∷ q) s p ps (hc, h) e =
      split_other c (q ++ s) (q ++ p) ps hc (split_plain-append q s p ps h e)
