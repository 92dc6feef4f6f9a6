-- ===== src/Prelude/Assoc.antt =====
-- A Go map with string keys, as an association list. Its order stands for the order in which Go
-- happens to iterate, which the program must not depend on.
use mathlib.Core.Path.{◌≡◌, refl, sym, ap, ◌∙◌}
use mathlib.Core.Bool.{Bool}
use mathlib.Core.Logic.{inl, inr}
use mathlib.Core.Option.{Option, none, some}
use mathlib.Core.List.{List, [], ◌∷◌}
use native.Mathlib.Omega.{arith}
use corv_client.Prelude.Tests.{if◌then◌else◌, Bool-cases}
use corv_client.Prelude.Text.{Bytes, bytes_eq, bytes_eq→eq, bytes_eq_self, bytes_eq_iff}

abbrev pub Assoc {ℓ} : Type ℓ → Type ℓ
Assoc V = List (Bytes × V)

module _ {ℓ} {V : Type ℓ} where
  -- `v, ok := m[k]`
  unfoldable pub lookup : Bytes → Assoc V → Option V
  lookup k [] = none
  lookup k ((j, v) ∷ m) = if bytes_eq j k then some v else lookup k m

  -- `delete(m, k)`
  unfoldable pub delete : Bytes → Assoc V → Assoc V
  delete k [] = []
  delete k ((j, v) ∷ m) = let rest = delete k m in if bytes_eq j k then rest else (j, v) ∷ rest

  -- `m[k] = v`
  unfoldable pub put : Bytes → V → Assoc V → Assoc V
  put k v m = (k, v) ∷ delete k m

  -- The entries that pass a test.
  unfoldable pub keep_if : (Bytes → V → Bool) → Assoc V → Assoc V
  keep_if p [] = []
  keep_if p ((j, v) ∷ m) = let rest = keep_if p m in if p j v then (j, v) ∷ rest else rest

  -- `m[k] = f(k, v)` for each entry
  unfoldable pub map_values : (Bytes → V → V) → Assoc V → Assoc V
  map_values f [] = []
  map_values f ((j, v) ∷ m) = (j, f j v) ∷ map_values f m

  -- Every key stands once.
  abbrev pub Unique : Assoc V → Type ℓ
  Unique [] = Unit
  Unique ((j, v) ∷ m) = (lookup j m ≡ none) × Unique m

  abbrev pub kept : (Bytes → V → Bool) → Bytes → Option V → Option V
  kept p k none = none
  kept p k (some v) = if p k v then some v else none

  abbrev pub mapped : (Bytes → V → V) → Bytes → Option V → Option V
  mapped f k none = none
  mapped f k (some v) = some (f k v)

module _ {ℓ} {V : Type ℓ} where
  pub lookup-delete :
      (k j : Bytes) (m : Assoc V)
      → lookup j (delete k m) ≡ (if bytes_eq k j then none else lookup j m)
  unfolding lookup delete
  lookup-delete k j [] = ground arith
  lookup-delete k j ((i, v) ∷ m) =
      ground (arith, lookup-delete k j m, bytes_eq_iff i k, bytes_eq_iff i j, bytes_eq_iff k j)

  pub lookup-put :
      (k j : Bytes) (v : V) (m : Assoc V)
      → lookup j (put k v m) ≡ (if bytes_eq k j then some v else lookup j m)
  unfolding lookup put
  lookup-put k j v m = ground (arith, lookup-delete k j m)

  pub lookup-put_self : (k : Bytes) (v : V) (m : Assoc V) → lookup k (put k v m) ≡ some v
  unfolding put lookup
  lookup-put_self k v m = rw (bytes_eq_self k)

  pub lookup-keep_if :
      (p : Bytes → V → Bool) (k : Bytes) (m : Assoc V)
      → Unique m
      → lookup k (keep_if p m) ≡ kept p k (lookup k m)
  unfolding lookup keep_if
  lookup-keep_if p k [] u = refl
  lookup-keep_if p k ((j, v) ∷ m) (new, u) = elim (Bool-cases (bytes_eq j k)) [
    | inl e ↦
        let same : j ≡ k = bytes_eq→eq j k e in
        let gone : lookup k m ≡ none = ap (λ x. lookup x m) (sym same) ∙ new in
        elim (Bool-cases (p j v)) [
          | inl t ↦ rw (e, t, e, ap (λ x. p x v) (sym same) ∙ t)
          | inr t ↦
              rw (e, t, ap (λ x. p x v) (sym same) ∙ t)
                (lookup-keep_if p k m u ∙ ap (kept p k) gone)
        ]
    | inr e ↦ elim (Bool-cases (p j v)) [
      | inl t ↦ rw (e, t, e) (lookup-keep_if p k m u)
      | inr t ↦ rw (e, t) (lookup-keep_if p k m u)
    ]
  ]

  pub lookup-map_values :
      (f : Bytes → V → V) (k : Bytes) (m : Assoc V)
      → lookup k (map_values f m) ≡ mapped f k (lookup k m)
  unfolding lookup map_values
  lookup-map_values f k [] = refl
  lookup-map_values f k ((j, v) ∷ m) = elim (Bool-cases (bytes_eq j k)) [
    | inl e ↦ rw e (ap (λ x. some (f x v)) (bytes_eq→eq j k e))
    | inr e ↦ rw e (lookup-map_values f k m)
  ]

  pub delete-Unique : (k : Bytes) (m : Assoc V) → Unique m → Unique (delete k m)
  unfolding delete
  delete-Unique k [] u = tt
  delete-Unique k ((j, v) ∷ m) (new, u) = elim (Bool-cases (bytes_eq j k)) [
    | inl e ↦ rw e (delete-Unique k m u)
    | inr e ↦ rw e (ground (arith, lookup-delete k j m, new), delete-Unique k m u)
  ]

  pub put-Unique : (k : Bytes) (v : V) (m : Assoc V) → Unique m → Unique (put k v m)
  unfolding put
  put-Unique k v m u = (ground (arith, lookup-delete k k m, bytes_eq_self k), delete-Unique k m u)

  pub keep_if-Unique : (p : Bytes → V → Bool) (m : Assoc V) → Unique m → Unique (keep_if p m)
  unfolding keep_if
  keep_if-Unique p [] u = tt
  keep_if-Unique p ((j, v) ∷ m) (new, u) = elim (Bool-cases (p j v)) [
    | inl t ↦ rw t (lookup-keep_if p j m u ∙ ap (kept p j) new, keep_if-Unique p m u)
    | inr t ↦ rw t (keep_if-Unique p m u)
  ]

  pub map_values-Unique : (f : Bytes → V → V) (m : Assoc V) → Unique m → Unique (map_values f m)
  unfolding map_values
  map_values-Unique f [] u = tt
  map_values-Unique f ((j, v) ∷ m) (new, u) =
      (lookup-map_values f j m ∙ ap (mapped f j) new, map_values-Unique f m u)
