-- ===== src/Vault/Stored.antt =====
-- internal/vault/vault.go: what `Set` leaves in the files.
use corv_client.Prelude.{
  ℕ, suc, ◌≡◌, refl, ap, subst, ◌∙◌, true, false, [], ◌∷◌, ◌++◌, Bytes, some, arith, ltb, take,
  drop, take-length, drop-length, length, length-append, inl, inr, Bool-cases,
}
use corv_client.Prelude.Assoc.{Assoc, lookup, put}
use corv_client.Prelude.Int.{eq_ℤ, pos}
use corv_client.Prelude.Result.{ok}
use corv_client.Vault.{
  Action, ◌>>=◌, EncryptedVault, content, Store, System, then_do, give, set_backend, valid_backend,
  write_file, read_random, seal, is_aes_key, open_item, load, load_from, with_version, save,
  persist_backend,
}
use corv_client.Vault.Keys.{Candidate, key_for_backend, key_for_vault}
use corv_client.Vault.Items.{set_raw}
use corv_client.Vault.Chosen.{key_for_vault-IsChosen}
use corv_client.Vault.Candidates.{
  OnOk, OnOk-then_do, OnOk-weaken, Result-cases, Settled, IsProvided, IsChosen, write_file-OnOk,
  read_random-OnOk,
}

-- JSON gives back the items of a vault that it wrote.
abbrev pub ReadsBack : System → EncryptedVault → Type 0
ReadsBack y v =
    (w : EncryptedVault) × (y.unmarshal_vault (y.marshal_vault v ++ 10 ∷ []) ≡ some w)
    × ((k : Bytes) → lookup k w.items ≡ lookup k v.items)

-- What the libraries promise.
pub record IsSystem (y : System) : Type 0 where
  pub random_size : (t n : ℕ) (r : Bytes) → y.random t n ≡ some r → length r ≡ n
  pub base64 : (d : Bytes) → y.decode64 (y.encode64 d) ≡ some d
  pub gcm : (key nonce raw : Bytes) → y.gcm_open key nonce (y.gcm_seal key nonce raw) ≡ some raw
  pub json : (v : EncryptedVault) → ReadsBack y v

module _ ⦃y : System⦄ where
  -- What a successful `Set` leaves.
  pub record IsStored (ref raw : Bytes) (s0 s : Store) : Type 0 where
    pub old : EncryptedVault
    pub new : EncryptedVault
    pub candidate : Candidate
    pub item : Bytes
    pub old_vault : load_from s0.vault_file ≡ ok old
    pub vault : load_from s.vault_file ≡ ok new
    pub items : (k : Bytes) → lookup k new.items ≡ lookup k (put ref item old.items)
    pub opens : open_item candidate.key item ≡ ok raw
    pub settled : (b : Bytes) → Settled s0 b → key_for_backend b s0 ≡ ok candidate
    pub backend : s.backend ≡ candidate.backend
    pub marker : s.marker ≡ content candidate.backend
    pub valid : valid_backend candidate.backend ≡ true
    pub provided : IsProvided s candidate

module _ ⦃y : System⦄ (laws : IsSystem y) where
  -- An item that is sealed opens with its key.
  open_item-sealed :
      (key nonce raw : Bytes)
      → is_aes_key key ≡ true
      → length nonce ≡ y.nonce_size
      → open_item key (y.encode64 (nonce ++ y.gcm_seal key nonce raw)) ≡ ok raw
  unfolding open_item
  open_item-sealed key nonce raw aes size =
      let sealed = y.gcm_seal key nonce raw in
      let all : ltb (length (nonce ++ sealed)) y.nonce_size ≡ false =
        ground (arith, length-append nonce sealed) in
      let first : take y.nonce_size (nonce ++ sealed) ≡ nonce =
        subst (λ (n : ℕ). take n (nonce ++ sealed) ≡ nonce) size (take-length nonce sealed) in
      let last : drop y.nonce_size (nonce ++ sealed) ≡ sealed =
        subst (λ (n : ℕ). drop n (nonce ++ sealed) ≡ sealed) size (drop-length nonce sealed) in
      rw (laws.base64 (nonce ++ sealed), aes, all, first, last, laws.gcm key nonce raw) refl

  seal-OnOk :
      (key raw : Bytes) (s : Store)
      → OnOk
          (seal key raw s)
          (λ s1 item. (s1 ≡ record s { calls = suc s.calls }) × (open_item key item ≡ ok raw))
  unfolding seal
  seal-OnOk key raw s = elim (Bool-cases (is_aes_key key)) [
    | inr e ↦ rw e tt
    | inl e ↦ rw e (
        OnOk-then_do (read_random y.nonce_size s)
          (λ nonce. give (ok (y.encode64 (nonce ++ y.gcm_seal key nonce raw))))
          (λ s1 r. (s1 ≡ record s { calls = suc s.calls }) × (length r ≡ y.nonce_size))
          (λ s1 item. (s1 ≡ record s { calls = suc s.calls }) × (open_item key item ≡ ok raw))
          (read_random-OnOk laws.random_size y.nonce_size s)
          (λ s1 nonce (same, size). (same, open_item-sealed key nonce raw e size)))
  ]

  -- The store behind a save
  abbrev saved : EncryptedVault → Bytes → Store → ℕ → Store
  saved v b s n = record s {
    vault_file = content (y.marshal_vault v ++ 10 ∷ []);
    marker = content b;
    backend = b;
    calls = n;
  }

  persist_backend-OnOk :
      (b : Bytes) (s : Store)
      → OnOk (persist_backend b s) (λ s1 u.
        (s1 ≡ record s { marker = content b; backend = b; calls = s1.calls })
        × (valid_backend b ≡ true))
  unfolding persist_backend
  persist_backend-OnOk b s =
      let marked =
        OnOk-then_do (write_file (λ t. record t { marker = content b }) s) (λ u. set_backend b)
          (λ s1 u. s1 ≡ record s { marker = content b; calls = suc s.calls })
          (λ s1 u. s1 ≡ record s { marker = content b; backend = b; calls = s1.calls })
          (write_file-OnOk laws.random_size (λ t. record t { marker = content b }) s)
          (λ s1 u marked. cc marked) in
      elim (Bool-cases (valid_backend b)) [
        | inr e ↦ rw e tt
        | inl e ↦ rw e (
            OnOk-weaken
              (then_do (write_file (λ t. record t { marker = content b }) s) (λ u. set_backend b))
              (λ s1 u. s1 ≡ record s { marker = content b; backend = b; calls = s1.calls })
              (λ s1 u.
                (s1 ≡ record s { marker = content b; backend = b; calls = s1.calls })
                × (true ≡ true))
              marked (λ s1 u same. (same, refl)))
      ]

  save-OnOk :
      (v : EncryptedVault) (b : Bytes) (s : Store)
      → OnOk (save v b s) (λ s1 u. (s1 ≡ saved v b s s1.calls) × (valid_backend b ≡ true))
  unfolding save
  save-OnOk v b s =
      let write : Store → Store =
        λ t. record t { vault_file = content (y.marshal_vault v ++ 10 ∷ []) } in
      OnOk-then_do (write_file write s) (λ u. persist_backend b)
        (λ s1 u. s1 ≡ record (write s) { calls = suc s.calls })
        (λ s1 u. (s1 ≡ saved v b s s1.calls) × (valid_backend b ≡ true))
        (write_file-OnOk laws.random_size write s)
        (λ s1 u written.
          OnOk-weaken (persist_backend b s1)
            (λ s2 u.
              (s2 ≡ record s1 { marker = content b; backend = b; calls = s2.calls })
              × (valid_backend b ≡ true))
            (λ s2 u. (s2 ≡ saved v b s s2.calls) × (valid_backend b ≡ true))
            (persist_backend-OnOk b s1) (λ s2 u (marked, valid). (cc (written, marked), valid)))

  loaded_version : (w : EncryptedVault) → (with_version w).items ≡ w.items
  loaded_version w = elim (Bool-cases (eq_ℤ w.version (pos 0))) [
    | inl e ↦ rw e refl
    | inr e ↦ rw e refl
  ]

  -- The saved vault is read back.
  load_from-saved :
      (v : EncryptedVault)
      → (w : EncryptedVault) × (load_from (content (y.marshal_vault v ++ 10 ∷ [])) ≡ ok w)
        × ((k : Bytes) → lookup k w.items ≡ lookup k v.items)
  unfolding load_from
  load_from-saved v =
      let (w, read, same) = laws.json v in
      (
        with_version w,
        rw read refl,
        λ k. ap (λ (m : Assoc Bytes). lookup k m) (loaded_version w) ∙ same k,
      )

  IsStored-saved :
      (ref raw item : Bytes) (s0 s s1 s2 : Store) (v : EncryptedVault) (c : Candidate)
      → load_from s0.vault_file ≡ ok v
      → IsChosen s0 s c
      → s1 ≡ record s { calls = suc s.calls }
      → open_item c.key item ≡ ok raw
      → s2 ≡ saved (record v { items = put ref item v.items }) c.backend s1 s2.calls
      → valid_backend c.backend ≡ true
      → IsStored ref raw s0 s2
  IsStored-saved ref raw item s0 s s1 s2 v c old ch same opens written valid =
      let (w, read, entries) = load_from-saved (record v { items = put ref item v.items }) in
      let key : key_for_backend c.backend s2 ≡ key_for_backend c.backend s = provided_later in
      record {
        old = v;
        new = w;
        candidate = c;
        item = item;
        old_vault = old;
        vault = ap (λ (t : Store). load_from t.vault_file) written ∙ read;
        items = entries;
        opens = opens;
        settled = ch.settled;
        backend = ap (λ (t : Store). t.backend) written;
        marker = ap (λ (t : Store). t.marker) written;
        valid = valid;
        provided = key ∙ ch.provided;
      }
    where
      provided_later : key_for_backend c.backend s2 ≡ key_for_backend c.backend s
      provided_later =
          let keychain : s2.keychain ≡ s.keychain = cc (written, same) in
          let file : s2.key_file ≡ s.key_file = cc (written, same) in
          unfold key_for_backend in rw (keychain, file) refl

  pub set_raw-IsStored :
      (ref raw : Bytes) (s0 : Store) → OnOk (set_raw ref raw s0) (λ s2 u. IsStored ref raw s0 s2)
  unfolding set_raw load
  set_raw-IsStored ref raw s0 = elim (Result-cases (load_from s0.vault_file)) [
    | inl (e, failed) ↦ rw failed tt
    | inr (v, old) ↦ rw old (
        OnOk-then_do (key_for_vault v s0) (with_key v) (IsChosen s0) stored
          (key_for_vault-IsChosen laws.random_size v s0)
          (λ s c ch.
            OnOk-then_do (seal c.key raw s) (with_item v c)
              (λ s1 item. (s1 ≡ record s { calls = suc s.calls }) × (open_item c.key item ≡ ok raw))
              stored (seal-OnOk c.key raw s)
              (λ s1 item (same, opens).
                OnOk-weaken (save (record v { items = put ref item v.items }) c.backend s1)
                  (λ s2 u.
                    (s2 ≡ saved (record v { items = put ref item v.items }) c.backend s1 s2.calls)
                    × (valid_backend c.backend ≡ true))
                  stored (save-OnOk (record v { items = put ref item v.items }) c.backend s1)
                  (λ s2 u (written, valid).
                    IsStored-saved ref raw item s0 s s1 s2 v c old ch same opens written valid))))
  ]
    where
      stored : Store → Unit {0} → Type 0
      stored s2 u = IsStored ref raw s0 s2

      with_item : EncryptedVault → Candidate → Bytes → Action (Unit {0})
      with_item v c item = save (record v { items = put ref item v.items }) c.backend

      with_key : EncryptedVault → Candidate → Action (Unit {0})
      with_key v c = seal c.key raw >>= with_item v c
