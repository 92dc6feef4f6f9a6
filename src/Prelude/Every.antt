-- ===== src/Prelude/Every.antt =====
-- `All` under the list operations.
use mathlib.Core.Path.{sym, subst}
use mathlib.Core.List.{List, [], ◌∷◌, reverse, reverse-cons}
use Prim.Native.Nat.{ℕ, zero, suc}
use corv_client.Prelude.Lists.{set, take, drop, replicate}
use corv_client.Prelude.Text.{All, All-append}

module _ {ℓ κ} {A : Type ℓ} (P : A → Type κ) where
  pub All-set : (xs : List A) (i : ℕ) (v : A) → P v → All P xs → All P (set xs i v)
  All-set [] i v h hs = hs
  All-set (x ∷ xs) zero v h (hx, hs) = (h, hs)
  All-set (x ∷ xs) (suc i) v h (hx, hs) = (hx, All-set xs i v h hs)

  pub All-take : (n : ℕ) (xs : List A) → All P xs → All P (take n xs)
  All-take zero xs h = tt
  All-take (suc n) [] h = tt
  All-take (suc n) (x ∷ xs) (hx, h) = (hx, All-take n xs h)

  pub All-drop : (n : ℕ) (xs : List A) → All P xs → All P (drop n xs)
  All-drop zero xs h = h
  All-drop (suc n) [] h = tt
  All-drop (suc n) (x ∷ xs) (hx, h) = All-drop n xs h

  pub All-replicate : (n : ℕ) (a : A) → P a → All P (replicate n a)
  All-replicate zero a h = tt
  All-replicate (suc n) a h = (h, All-replicate n a h)

  pub All-reverse : (xs : List A) → All P xs → All P (reverse xs)
  All-reverse [] h = tt
  All-reverse (x ∷ xs) (hx, h) =
      subst (All P) (sym (reverse-cons x xs))
        (All-append P (reverse xs) (x ∷ []) (All-reverse xs h) (hx, tt))
