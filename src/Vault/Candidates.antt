-- ===== src/Vault/Candidates.antt =====
-- internal/vault/key_file.go: each candidate key is the one that its backend gives.
use corv_client.Prelude.{
  ℕ, ◌≡◌, refl, sym, ap, subst, ◌∙◌, Bool, true, false, List, [], ◌∷◌, ◌++◌, Bytes, codes, Option,
  none, some, arith, All, All-append, ◌==◌, is_empty, bytes_eq, bytes_eq→eq, suc, length, inl, inr,
  Bool-cases, Option-cases, ◌⊎◌,
}
use corv_client.Prelude.Result.{Result, ok, err}
use corv_client.Vault.{
  Action, ◌>>◌, content, Store, System, then_do, give, backend_in, write_file, read_random,
  open_item,
}
use corv_client.Vault.Keys.{
  Candidate, os_candidates, file_candidates, file_backend, os_backend, key_in, key_for_backend,
  make_key, first_candidates, legacy_key_candidates, first_opening, first_key,
}

-- What holds if an action succeeds.
abbrev pub OnOk : {A : Type 0} → Store × Result Bytes A → (Store → A → Type 0) → Type 0
OnOk (s, err e) P = Unit
OnOk (s, ok a) P = P s a

pub Result-cases :
    {A : Type 0} (r : Result Bytes A) → ((e : Bytes) × (r ≡ err e)) ⊎ ((a : A) × (r ≡ ok a))
Result-cases (err e) = inl (e, refl)
Result-cases (ok a) = inr (a, refl)

pub OnOk-then_do :
    {A B : Type 0} (r : Store × Result Bytes A) (next : A → Action B) (P : Store → A → Type 0)
    (Q : Store → B → Type 0)
    → OnOk r P
    → ((s : Store) (a : A) → P s a → OnOk (next a s) Q)
    → OnOk (then_do r next) Q
OnOk-then_do (s, err e) next P Q h k = tt
OnOk-then_do (s, ok a) next P Q h k = k s a h

pub OnOk-weaken :
    {A : Type 0} (r : Store × Result Bytes A) (P Q : Store → A → Type 0)
    → OnOk r P
    → ((s : Store) (a : A) → P s a → Q s a)
    → OnOk r Q
OnOk-weaken (s, err e) P Q h k = tt
OnOk-weaken (s, ok a) P Q h k = k s a h

-- The backend is in memory, or else in the marker.
pub data Settled (s : Store) (b : Bytes) : Type 0 where
  in_memory : is_empty s.backend ≡ false → s.backend ≡ b → Settled s b
  in_marker : s.backend ≡ [] → backend_in s.marker ≡ ok b → is_empty b ≡ false → Settled s b

-- The key of a candidate is the one that its backend gives.
abbrev pub IsProvided : Store → Candidate → Type 0
IsProvided s c = key_for_backend c.backend s ≡ ok c

-- What is known of the key that is chosen in `s0`, with the store behind it.
pub record IsChosen (s0 s : Store) (c : Candidate) : Type 0 where
  pub vault : s.vault_file ≡ s0.vault_file
  pub provided : IsProvided s c
  pub settled : (b : Bytes) → Settled s0 b → key_for_backend b s0 ≡ ok c

os_backend_name :
    (r : Result Bytes (Option Bytes)) {c : Candidate} → os_backend r ≡ ok c → c.backend ≡ codes "os"
os_backend_name (err e) h = cc h
os_backend_name (ok none) h = cc h
os_backend_name (ok (some key)) h = cc h

file_backend_name :
    (r : Result Bytes (Option Bytes)) {c : Candidate}
    → file_backend r ≡ ok c
    → c.backend ≡ codes "file"
file_backend_name (err e) h = cc h
file_backend_name (ok none) h = cc h
file_backend_name (ok (some key)) h = cc h

pub backend_name :
    (b : Bytes) (s : Store) {c : Candidate} → key_for_backend b s ≡ ok c → c.backend ≡ b
unfolding key_for_backend
backend_name b s {c} h = elim (Bool-cases (bytes_eq b (codes "os"))) [
  | inl os ↦
      let given : os_backend s.keychain ≡ ok c = cc (os, h) in
      os_backend_name s.keychain given ∙ sym (bytes_eq→eq b (codes "os") os)
  | inr other ↦ elim (Bool-cases (bytes_eq b (codes "file"))) [
    | inl file ↦
        let given : file_backend (key_in s.key_file) ≡ ok c = cc (other, file, h) in
        file_backend_name (key_in s.key_file) given ∙ sym (bytes_eq→eq b (codes "file") file)
    | inr neither ↦ cc (other, neither, h)
  ]
]

pub key_for_backend-IsProvided :
    (b : Bytes) (s : Store) {c : Candidate} → key_for_backend b s ≡ ok c → IsProvided s c
key_for_backend-IsProvided b s {c} h =
    subst (λ (d : Bytes). key_for_backend d s ≡ ok c) (sym (backend_name b s h)) h

-- The key file gives its key.
file-IsProvided :
    (s : Store) (key : Bytes)
    → key_in s.key_file ≡ ok (some key)
    → IsProvided s (record { backend = codes "file"; key = key })
unfolding key_for_backend bytes_eq
file-IsProvided s key h = rw h refl

os_candidates-IsProvided :
    (s : Store) (r : Result Bytes (Option Bytes))
    → s.keychain ≡ r
    → All (IsProvided s) (os_candidates r)
unfolding key_for_backend bytes_eq
os_candidates-IsProvided s (err e) h = tt
os_candidates-IsProvided s (ok none) h = tt
os_candidates-IsProvided s (ok (some key)) h = (rw h refl, tt)

file_candidates-IsProvided :
    (s : Store) (key : Option Bytes)
    → key_in s.key_file ≡ ok key
    → All (IsProvided s) (file_candidates key)
file_candidates-IsProvided s none h = tt
file_candidates-IsProvided s (some key) h = (file-IsProvided s key h, tt)

-- Candidates with the store behind them
pub record AreProvided (s0 s : Store) (cs : List Candidate) : Type 0 where
  pub vault : s.vault_file ≡ s0.vault_file
  pub provided : All (IsProvided s) cs

module _ ⦃y : System⦄
    (random_size : (t n : ℕ) (r : Bytes) → y.random t n ≡ some r → length r ≡ n) where
  pub read_random-OnOk :
      (n : ℕ) (s : Store)
      → OnOk (read_random n s) (λ s1 r. (s1 ≡ record s { calls = suc s.calls }) × (length r ≡ n))
  unfolding read_random
  read_random-OnOk n s = elim (Option-cases (y.random s.calls n)) [
    | inl h ↦ rw (read_random, h) tt
    | inr (r, h) ↦ rw (read_random, h) (refl, random_size s.calls n r h)
  ]

  pub write_file-OnOk :
      (f : Store → Store) (s : Store)
      → OnOk (write_file f s) (λ s1 u. s1 ≡ record (f s) { calls = suc s.calls })
  unfolding write_file
  write_file-OnOk f s = elim (Option-cases (y.fault s.calls)) [
    | inl h ↦ rw (write_file, h) refl
    | inr (e, h) ↦ rw (write_file, h) tt
  ]

  -- A key that is made stands in the key file.
  make_key-OnOk :
      (s : Store)
      → OnOk
          (make_key s)
          (λ s1 key. (s1.vault_file ≡ s.vault_file) × (key_in s1.key_file ≡ ok (some key)))
  unfolding make_key
  make_key-OnOk s =
      OnOk-then_do (read_random 32 s)
        (λ key. write_file (λ t. record t { key_file = content key }) >> give (ok key))
        (λ s1 r. (s1 ≡ record s { calls = suc s.calls }) × (length r ≡ 32))
        (λ s1 key. (s1.vault_file ≡ s.vault_file) × (key_in s1.key_file ≡ ok (some key)))
        (read_random-OnOk 32 s)
        (λ s1 key made.
          OnOk-then_do (write_file (λ t. record t { key_file = content key }) s1)
            (λ u. give (ok key))
            (λ s2 u. s2 ≡ record s1 { key_file = content key; calls = suc s1.calls })
            (λ s2 k. (s2.vault_file ≡ s.vault_file) × (key_in s2.key_file ≡ ok (some k)))
            (write_file-OnOk (λ t. record t { key_file = content key }) s1)
            (λ s2 u written. written_key s1 s2 key made written))
    where
      written_key :
          (s1 s2 : Store) (key : Bytes)
          → (s1 ≡ record s { calls = suc s.calls }) × (length key ≡ 32)
          → s2 ≡ record s1 { key_file = content key; calls = suc s1.calls }
          → (s2.vault_file ≡ s.vault_file) × (key_in s2.key_file ≡ ok (some key))
      written_key s1 s2 key (same, size) written =
          let long : (length key == 32) ≡ true = ground arith in
          let read : key_in (content key) ≡ ok (some key) = unfold key_in in rw long refl in
          let files : s2.key_file ≡ content key = ap (λ (t : Store). t.key_file) written in
          (
            ap (λ (t : Store). t.vault_file) written ∙ ap (λ (t : Store). t.vault_file) same,
            ap key_in files ∙ read,
          )

  first_candidates-AreProvided :
      (cs : List Candidate) (create : Bool) (s : Store)
      → All (IsProvided s) cs
      → OnOk (first_candidates cs create s) (AreProvided s)
  first_candidates-AreProvided (c ∷ cs) create s p = record { vault = refl; provided = p }
  first_candidates-AreProvided [] false s p = record { vault = refl; provided = tt }
  first_candidates-AreProvided [] true s p =
      OnOk-then_do (make_key s) (λ key. give (ok (file_candidates (some key))))
        (λ s1 key. (s1.vault_file ≡ s.vault_file) × (key_in s1.key_file ≡ ok (some key)))
        (AreProvided s) (make_key-OnOk s)
        (λ s1 key (same, made). record {
          vault = same;
          provided = file_candidates-IsProvided s1 (some key) made;
        })

  pub legacy_key_candidates-AreProvided :
      (create : Bool) (s : Store) → OnOk (legacy_key_candidates create s) (AreProvided s)
  unfolding legacy_key_candidates
  legacy_key_candidates-AreProvided create s = elim (Result-cases (key_in s.key_file)) [
    | inl (e, h) ↦ rw (legacy_key_candidates, h) tt
    | inr (key, h) ↦
        let os = os_candidates-IsProvided s s.keychain refl in
        let file = file_candidates-IsProvided s key h in
        let both =
          All-append (IsProvided s) (os_candidates s.keychain) (file_candidates key) os file in
        rw (legacy_key_candidates, h)
          (first_candidates-AreProvided (os_candidates s.keychain ++ file_candidates key) create s
            both)
  ]

  -- The choice of a candidate, where nothing was settled.
  chosen :
      (s0 s : Store) (c : Candidate)
      → s.vault_file ≡ s0.vault_file
      → IsProvided s c
      → ((b : Bytes) → Settled s0 b → ⊥)
      → IsChosen s0 (record s { backend = c.backend }) c
  unfolding key_for_backend
  chosen s0 s c same p never = record {
    vault = same;
    provided = p;
    settled = λ b t. absurd (never b t);
  }

  pub first_opening-IsChosen :
      (cs : List Candidate) (item : Bytes) (s0 s : Store)
      → s.vault_file ≡ s0.vault_file
      → All (IsProvided s) cs
      → ((b : Bytes) → Settled s0 b → ⊥)
      → OnOk (first_opening cs item s) (IsChosen s0)
  unfolding first_opening
  first_opening-IsChosen [] item s0 s same p never = tt
  first_opening-IsChosen (c ∷ cs) item s0 s same (pc, p) never =
      elim (Result-cases (open_item c.key item)) [
        | inl (e, h) ↦ rw (first_opening, h) (first_opening-IsChosen cs item s0 s same p never)
        | inr (raw, h) ↦ rw (first_opening, h) (chosen s0 s c same pc never)
      ]

  pub first_key-IsChosen :
      (cs : List Candidate) (s0 s : Store)
      → s.vault_file ≡ s0.vault_file
      → All (IsProvided s) cs
      → ((b : Bytes) → Settled s0 b → ⊥)
      → OnOk (first_key cs s) (IsChosen s0)
  unfolding first_key
  first_key-IsChosen [] s0 s same p never = tt
  first_key-IsChosen (c ∷ cs) s0 s same (pc, p) never = chosen s0 s c same pc never
