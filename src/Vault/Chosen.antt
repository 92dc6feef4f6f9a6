-- ===== src/Vault/Chosen.antt =====
-- internal/vault/vault.go and key_file.go: the key that is chosen is the one that the backend gives.
use corv_client.Prelude.{
  ℕ, ◌≡◌, refl, sym, ap, subst, true, false, List, [], ◌∷◌, Bytes, some, is_empty, length, inl, inr,
  Bool-cases,
}
use corv_client.Prelude.Result.{ok}
use corv_client.Vault.{
  Action, ◌>>=◌, EncryptedVault, Store, System, then_do, backend_in, load, load_from,
}
use corv_client.Vault.Keys.{
  Candidate, key_for_backend, legacy_key_candidates, use_backend, first_opening, known_key,
  key_for_item, first_key, key_for_items, key_for_write, key_for, key_for_vault,
}
use corv_client.Vault.Candidates.{
  OnOk, OnOk-then_do, Result-cases, Settled, in_memory, in_marker, AreProvided, IsChosen,
  key_for_backend-IsProvided, legacy_key_candidates-AreProvided, first_opening-IsChosen,
  first_key-IsChosen,
}

module _ ⦃y : System⦄
    (random_size : (t n : ℕ) (r : Bytes) → y.random t n ≡ some r → length r ≡ n) where
  -- The backend in memory is settled.
  memory-IsChosen :
      (s : Store) (c : Candidate)
      → is_empty s.backend ≡ false
      → key_for_backend s.backend s ≡ ok c
      → IsChosen s s c
  memory-IsChosen s c some_backend h = record {
    vault = refl;
    provided = key_for_backend-IsProvided s.backend s h;
    settled = λ b t. the_same b t;
  }
    where
      the_same : (b : Bytes) → Settled s b → key_for_backend b s ≡ ok c
      the_same b (in_memory given e) = subst (λ (d : Bytes). key_for_backend d s ≡ ok c) e h
      the_same b (in_marker none_given m e) =
          let empty : is_empty s.backend ≡ true = ap (λ (d : Bytes). is_empty d) none_given in
          cc (empty, some_backend)

  -- So is the one in the marker, if there is none in memory.
  marker-IsChosen :
      (s : Store) (b : Bytes) (c : Candidate)
      → is_empty s.backend ≡ true
      → backend_in s.marker ≡ ok b
      → key_for_backend b s ≡ ok c
      → IsChosen s (record s { backend = c.backend }) c
  marker-IsChosen s b c no_backend marker h = record {
    vault = refl;
    provided = unfold key_for_backend in key_for_backend-IsProvided b s h;
    settled = λ d t. the_same d t;
  }
    where
      the_same : (d : Bytes) → Settled s d → key_for_backend d s ≡ ok c
      the_same d (in_memory given e) = cc (given, no_backend)
      the_same d (in_marker none_given m e) =
          let same : b ≡ d = cc (marker, m) in
          subst (λ (x : Bytes). key_for_backend x s ≡ ok c) same h

  never-Settled :
      (s : Store) (b : Bytes)
      → is_empty s.backend ≡ true
      → backend_in s.marker ≡ ok b
      → is_empty b ≡ true
      → (d : Bytes) → Settled s d
      → ⊥
  never-Settled s b no_backend marker empty d (in_memory given e) = cc (given, no_backend)
  never-Settled s b no_backend marker empty d (in_marker none_given m e) =
      let same : b ≡ d = cc (marker, m) in
      let full : is_empty b ≡ false = subst (λ (x : Bytes). is_empty x ≡ false) (sym same) e in
      cc (full, empty)

  known_key-IsChosen :
      (other : Action Candidate) (s : Store)
      → (((d : Bytes) → Settled s d → ⊥) → OnOk (other s) (IsChosen s))
      → OnOk (known_key other s) (IsChosen s)
  unfolding known_key use_backend
  known_key-IsChosen other s h = elim (Bool-cases (is_empty s.backend)) [
    | inr given ↦ elim (Result-cases (key_for_backend s.backend s)) [
      | inl (e, failed) ↦ rw (given, failed) tt
      | inr (c, key) ↦ rw (given, key) (memory-IsChosen s c given key)
    ]
    | inl no_backend ↦ elim (Result-cases (backend_in s.marker)) [
      | inl (e, failed) ↦ rw (no_backend, failed) tt
      | inr (b, marker) ↦ elim (Bool-cases (is_empty b)) [
        | inl empty ↦ rw (no_backend, marker, empty) (h (never-Settled s b no_backend marker empty))
        | inr full ↦ elim (Result-cases (key_for_backend b s)) [
          | inl (e, failed) ↦ rw (no_backend, marker, full, failed) tt
          | inr (c, key) ↦
              rw (no_backend, marker, full, key) (marker-IsChosen s b c no_backend marker key)
        ]
      ]
    ]
  ]

  key_for_item-IsChosen : (item : Bytes) (s : Store) → OnOk (key_for_item item s) (IsChosen s)
  unfolding key_for_item
  key_for_item-IsChosen item s =
      known_key-IsChosen
        (legacy_key_candidates false >>= (λ candidates. first_opening candidates item)) s
        (λ never.
          OnOk-then_do (legacy_key_candidates false s) (λ candidates. first_opening candidates item)
            (AreProvided s) (IsChosen s) (legacy_key_candidates-AreProvided random_size false s)
            (λ s1 cs p. first_opening-IsChosen random_size cs item s s1 p.vault p.provided never))

  key_for_items-IsChosen :
      (items : List (Bytes × Bytes)) (s : Store)
      → ((d : Bytes) → Settled s d → ⊥)
      → OnOk (key_for_items items s) (IsChosen s)
  unfolding key_for_items
  key_for_items-IsChosen [] s never =
      OnOk-then_do (legacy_key_candidates true s) first_key (AreProvided s) (IsChosen s)
        (legacy_key_candidates-AreProvided random_size true s)
        (λ s1 cs p. first_key-IsChosen random_size cs s s1 p.vault p.provided never)
  key_for_items-IsChosen ((ref, item) ∷ items) s never = key_for_item-IsChosen item s

  key_for_write-IsChosen : (s : Store) → OnOk (key_for_write s) (IsChosen s)
  unfolding key_for_write load
  key_for_write-IsChosen s =
      known_key-IsChosen (load >>= (λ v. key_for_items v.items)) s (λ never. loaded never)
    where
      loaded :
          ((d : Bytes) → Settled s d → ⊥)
          → OnOk (then_do (load s) (λ v. key_for_items v.items)) (IsChosen s)
      loaded never = elim (Result-cases (load_from s.vault_file)) [
        | inl (e, failed) ↦ rw failed tt
        | inr (v, h) ↦ rw h (key_for_items-IsChosen v.items s never)
      ]

  pub key_for_vault-IsChosen :
      (v : EncryptedVault) (s : Store) → OnOk (key_for_vault v s) (IsChosen s)
  unfolding key_for_vault
  key_for_vault-IsChosen v s = of_items v.items
    where
      of_items : (items : List (Bytes × Bytes)) → OnOk (key_for items s) (IsChosen s)
      of_items [] = key_for_write-IsChosen s
      of_items ((ref, item) ∷ items) = key_for_item-IsChosen item s
