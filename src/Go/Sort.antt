-- ===== src/Go/Sort.antt =====
-- Package `sort`: `sort.Slice` with an order that tells the elements apart.
use corv_client.Prelude.{
  ◌≡◌, refl, Bool, true, false, List, [], ◌∷◌, Bytes, arith, All, ltb, ◌==◌, if◌then◌else◌, inl,
  inr, Bool-cases,
}
use mathlib.Core.List.{Perm}
use mathlib.Core.List.Perm

-- `<` of two texts
unfoldable pub text_less : Bytes → Bytes → Bool
text_less s [] = false
text_less [] (c ∷ t) = true
text_less (b ∷ s) (c ∷ t) = if b == c then text_less s t else ltb b c

-- `sort.Slice` for an order in which no two elements of the list are equal
unfoldable pub insert : {A : Type 0} → (A → A → Bool) → A → List A → List A
insert less x [] = x ∷ []
insert less x (y ∷ ys) = let rest = insert less x ys in if less x y then x ∷ (y ∷ ys) else y ∷ rest

unfoldable pub sort : {A : Type 0} → (A → A → Bool) → List A → List A
sort less [] = []
sort less (x ∷ xs) = insert less x (sort less xs)

-- No element stands behind one that it is less than.
abbrev pub IsSorted : {A : Type 0} → (A → A → Bool) → List A → Type 0
IsSorted less [] = Unit
IsSorted less (x ∷ xs) = All (λ y. less y x ≡ false) xs × IsSorted less xs

module _ {A : Type 0} (less : A → A → Bool) where
  insert-All : (P : A → Type 0) (x : A) (xs : List A) → P x → All P xs → All P (insert less x xs)
  unfolding insert
  insert-All P x [] hx h = (hx, tt)
  insert-All P x (y ∷ ys) hx (hy, h) = elim (Bool-cases (less x y)) [
    | inl e ↦ rw e (hx, (hy, h))
    | inr e ↦ rw e (hy, insert-All P x ys hx h)
  ]

  insert-perm : (x : A) (xs : List A) → Perm (insert less x xs) (x ∷ xs)
  unfolding insert
  insert-perm x [] = Perm.rfl
  insert-perm x (y ∷ ys) = elim (Bool-cases (less x y)) [
    | inl e ↦ rw e Perm.rfl
    | inr e ↦ rw e (Perm.trans (Perm.cons y (insert-perm x ys)) (Perm.swap x y ys))
  ]

  pub sort-perm : (xs : List A) → Perm (sort less xs) xs
  unfolding sort
  sort-perm [] = Perm.rfl
  sort-perm (x ∷ xs) = Perm.trans (insert-perm x (sort less xs)) (Perm.cons x (sort-perm xs))

  module _ (asymm : (x y : A) → less x y ≡ true → less y x ≡ false)
      (trans : (x y z : A) → less y x ≡ false → less z y ≡ false → less z x ≡ false) where
    All-below :
        (x y : A) (ys : List A)
        → less y x ≡ false
        → All (λ z. less z y ≡ false) ys
        → All (λ z. less z x ≡ false) ys
    All-below x y [] h hs = tt
    All-below x y (z ∷ ys) h (hz, hs) = (trans x y z h hz, All-below x y ys h hs)

    insert-IsSorted : (x : A) (xs : List A) → IsSorted less xs → IsSorted less (insert less x xs)
    unfolding insert
    insert-IsSorted x [] s = (tt, tt)
    insert-IsSorted x (y ∷ ys) (below, s) = elim (Bool-cases (less x y)) [
      | inl e ↦ rw e ((asymm x y e, All-below x y ys (asymm x y e) below), (below, s))
      | inr e ↦ rw e (insert-All (λ z. less z y ≡ false) x ys e below, insert-IsSorted x ys s)
    ]

    pub sort-IsSorted : (xs : List A) → IsSorted less (sort less xs)
    unfolding sort
    sort-IsSorted [] = tt
    sort-IsSorted (x ∷ xs) = insert-IsSorted x (sort less xs) (sort-IsSorted xs)

pub text_less_asymm : (a b : Bytes) → text_less a b ≡ true → text_less b a ≡ false
unfolding text_less
text_less_asymm a [] h = cc
text_less_asymm [] (y ∷ b) h = refl
text_less_asymm (x ∷ a) (y ∷ b) h = ground (arith, text_less_asymm a b)

pub text_less_trans :
    (a b c : Bytes) → text_less b a ≡ false → text_less c b ≡ false → text_less c a ≡ false
unfolding text_less
text_less_trans [] b c h k = refl
text_less_trans (x ∷ a) [] c h k = cc
text_less_trans (x ∷ a) (y ∷ b) [] h k = cc
text_less_trans (x ∷ a) (y ∷ b) (z ∷ c) h k = ground (arith, text_less_trans a b c)
