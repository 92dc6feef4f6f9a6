-- ===== src/Profile/Apply/Rollback.antt =====
-- internal/importstate/apply.go: the state behind a merge that failed and was rolled back.
use corv_client.Prelude.{
  ℕ, suc, ◌≡◌, refl, ap, ◌∙◌, List, ◌⊎◌, inl, inr, [], ◌∷◌, ◌++◌, Bytes, Option, none, some,
}
use corv_client.Prelude.Assoc.{lookup}
use corv_client.Profile.Csv.{Imported}
use corv_client.Profile.Apply.{
  Credentials, KeyFile, Local, Outside, Backup, Progress, Outcome, going, failed, Applied, merged,
  rolled_back, not_loaded, restore, attempt, then_marker, write_vault, nothing, apply_item,
  add_error, restore_secrets, restore_keys, rollback_import, roll_back, after_save, finish_apply,
  after_item, apply_items, start_of, after_load, apply,
}
use corv_client.Profile.Apply.Undo.{
  Same, SameBut, undo, Undoes, Misses, Reaches, counted, attempt-cases, recount, Reaches-apply_item,
}

module _ ⦃o : Outside⦄ where
  -- A rollback in which every restore succeeds puts the backups back.
  add_error-nil :
      (e : Option Bytes) (es : List Bytes) → add_error e es ≡ [] → (e ≡ none) × (es ≡ [])
  add_error-nil none es h = (refl, h)
  add_error-nil (some e) es h = cc h

  attempt_done :
      (f : Local → Local) (s : Local)
      → (attempt f s).1 ≡ none
      → (attempt f s).0 ≡ counted (f s) (suc s.calls)
  attempt_done f s =
      attempt-cases (λ r. r.1 ≡ none → r.0 ≡ counted (f s) (suc s.calls)) f s (λ h. refl)
        (λ e h. cc h)

  then_marker_done :
      (r : Local × Option Bytes)
      → (then_marker r).1 ≡ none
      → ((then_marker r).0 ≡ r.0) × (r.1 ≡ none)
  then_marker_done (s, none) h = (refl, refl)
  then_marker_done (s, some e) h = (refl, h)

  write_vault_done :
      (f : Local → Local) (s : Local)
      → (write_vault f s).1 ≡ none
      → (write_vault f s).0 ≡ counted (f s) (suc s.calls)
  unfolding write_vault
  write_vault_done f s h =
      let (same, done) = then_marker_done (attempt f s) h in same ∙ attempt_done f s done

  restore_secrets-undo :
      (bs : List (Backup Credentials)) (s : Local)
      → (restore_secrets bs s).1 ≡ []
      → ((restore_secrets bs s).0.vault ≡ undo bs s.vault)
        × ((restore_secrets bs s).0.keys ≡ s.keys)
        × ((restore_secrets bs s).0.saved ≡ s.saved)
  unfolding restore_secrets
  restore_secrets-undo [] s h = (refl, refl, refl)
  restore_secrets-undo (b ∷ bs) s h =
      let put_back = λ (t : Local). record t { vault = restore b t.vault } in
      let (fine, rest) =
        add_error-nil (write_vault put_back s).1 (restore_secrets bs (write_vault put_back s).0).1
          h in
      let (vault, keys, saved) = restore_secrets-undo bs (write_vault put_back s).0 rest in
      let done = write_vault_done put_back s fine in
      (
        vault ∙ ap (λ (t : Local). undo bs t.vault) done,
        keys ∙ ap (λ (t : Local). t.keys) done,
        saved ∙ ap (λ (t : Local). t.saved) done,
      )

  restore_keys-undo :
      (bs : List (Backup KeyFile)) (s : Local)
      → (restore_keys bs s).1 ≡ []
      → ((restore_keys bs s).0.keys ≡ undo bs s.keys)
        × ((restore_keys bs s).0.vault ≡ s.vault)
        × ((restore_keys bs s).0.saved ≡ s.saved)
  unfolding restore_keys
  restore_keys-undo [] s h = (refl, refl, refl)
  restore_keys-undo (b ∷ bs) s h =
      let put_back = λ (t : Local). record t { keys = restore b t.keys } in
      let (fine, rest) =
        add_error-nil (attempt put_back s).1 (restore_keys bs (attempt put_back s).0).1 h in
      let (keys, vault, saved) = restore_keys-undo bs (attempt put_back s).0 rest in
      let done = attempt_done put_back s fine in
      (
        keys ∙ ap (λ (t : Local). undo bs t.keys) done,
        vault ∙ ap (λ (t : Local). t.vault) done,
        saved ∙ ap (λ (t : Local). t.saved) done,
      )

  append-nil_inv : (es fs : List Bytes) → es ++ fs ≡ [] → (es ≡ []) × (fs ≡ [])
  append-nil_inv [] fs h = (refl, h)
  append-nil_inv (e ∷ es) fs h = cc h

  -- The local state is what it was.
  pub record IsUnchanged (s0 s : Local) : Type 0 where
    pub saved : s.saved ≡ s0.saved
    pub vault : Same s.vault s0.vault
    pub keys : Same s.keys s0.keys

  -- The write of the vault's marker failed with the error `e`, and one secret of the vault is lost or
  -- new; the rest is what it was.
  pub record IsUnchangedBut (s0 : Local) (e : Bytes) (s : Local) : Type 0 where
    pub call : ℕ
    pub marker : o.marker_fault call ≡ some e
    pub ref : Bytes
    pub saved : s.saved ≡ s0.saved
    pub vault : SameBut ref s.vault s0.vault
    pub keys : Same s.keys s0.keys

  -- How a merge may end: with the registry saved; or with the state as it was, unless a restore
  -- failed, and but for one secret if the write of the marker behind it was what failed.
  abbrev pub IsTransaction : Local → Local × Applied → Type 0
  IsTransaction s0 (s, merged p) = s.saved ≡ p.reg
  IsTransaction s0 (s, rolled_back e []) = IsUnchanged s0 s ⊎ IsUnchangedBut s0 e s
  IsTransaction s0 (s, rolled_back e (f ∷ fs)) = Unit
  IsTransaction s0 (s, not_loaded e) = IsUnchanged s0 s

  module _ (s0 : Local) where
    if_restored :
        (s : Local) (e : Bytes) (es : List Bytes)
        → (es ≡ [] → IsUnchanged s0 s ⊎ IsUnchangedBut s0 e s)
        → IsTransaction s0 (s, rolled_back e es)
    if_restored s e [] h = h refl
    if_restored s e (f ∷ fs) h = tt

    -- What the rollback makes of the state, if it did not fail.
    rollback_import-undo :
        (p : Progress) (s : Local)
        → (rollback_import p s).1 ≡ []
        → ((rollback_import p s).0.saved ≡ s.saved)
          × ((rollback_import p s).0.vault ≡ undo p.stored s.vault)
          × ((rollback_import p s).0.keys ≡ undo p.keys s.keys)
    unfolding rollback_import
    rollback_import-undo p s none_failed =
        let s1 = (restore_secrets p.stored s).0 in
        let (h1, h2) =
          append-nil_inv (restore_secrets p.stored s).1 (restore_keys p.keys s1).1 none_failed in
        let (v, k, w) = restore_secrets-undo p.stored s h1 in
        let (k', v', w') = restore_keys-undo p.keys s1 h2 in
        (w' ∙ w, v' ∙ v, k' ∙ ap (undo p.keys) k)

    Undoes-rollback :
        (p : Progress) (s : Local)
        → (rollback_import p s).1 ≡ []
        → Undoes s0 p s
        → IsUnchanged s0 (rollback_import p s).0
    Undoes-rollback p s none_failed u =
        let (w, v, k) = rollback_import-undo p s none_failed in
        record {
          saved = w ∙ u.saved;
          vault = λ r. ap (lookup r) v ∙ u.vault r;
          keys = λ r. ap (lookup r) k ∙ u.keys r;
        }

    Misses-rollback :
        (e : Bytes) (p : Progress) (s : Local)
        → (rollback_import p s).1 ≡ []
        → Misses s0 e p s
        → IsUnchangedBut s0 e (rollback_import p s).0
    Misses-rollback e p s none_failed u =
        let (w, v, k) = rollback_import-undo p s none_failed in
        record {
          call = u.call;
          marker = u.marker;
          ref = u.ref;
          saved = w ∙ u.saved;
          vault = λ r other. ap (lookup r) v ∙ u.vault r other;
          keys = λ r. ap (lookup r) k ∙ u.keys r;
        }

    IsTransaction-roll_back :
        (e : Bytes) (p : Progress) (s : Local)
        → Reaches s0 (s, failed e p)
        → IsTransaction s0 (roll_back e p s)
    unfolding roll_back
    IsTransaction-roll_back e p s (inl u) =
        if_restored (rollback_import p s).0 e (rollback_import p s).1
          (λ none_failed. inl (Undoes-rollback p s none_failed u))
    IsTransaction-roll_back e p s (inr u) =
        if_restored (rollback_import p s).0 e (rollback_import p s).1
          (λ none_failed. inr (Misses-rollback e p s none_failed u))

    IsTransaction-finish :
        (p : Progress) (s : Local) → Undoes s0 p s → IsTransaction s0 (finish_apply p s)
    unfolding finish_apply after_save
    IsTransaction-finish p s u =
        attempt-cases (λ r. IsTransaction s0 (after_save p r)) (λ t. record t { saved = p.reg }) s
          refl
          (λ e.
            IsTransaction-roll_back e p (counted s (suc s.calls))
              (inl (recount s0 p s (suc s.calls) u)))

    IsTransaction-after_item :
        (onward : Progress → Local → Local × Applied)
        → ((p : Progress) (s : Local) → Undoes s0 p s → IsTransaction s0 (onward p s))
        → (r : Local × Outcome) → Reaches s0 r
        → IsTransaction s0 (after_item onward r)
    unfolding after_item
    IsTransaction-after_item onward h (s, going p) u = h p s u
    IsTransaction-after_item onward h (s, failed e p) u = IsTransaction-roll_back e p s u

    IsTransaction-items :
        (items : List Imported) (p : Progress) (s : Local)
        → Undoes s0 p s
        → IsTransaction s0 (apply_items items p s)
    unfolding apply_items
    IsTransaction-items [] p s u = IsTransaction-finish p s u
    IsTransaction-items (i ∷ items) p s u =
        IsTransaction-after_item (apply_items items) (IsTransaction-items items) (apply_item i p s)
          (Reaches-apply_item s0 i p s u)

  -- Merging imported connections is a transaction. If `Apply` succeeds, the saved registry is the one
  -- that it made. If it fails and no restore fails, the saved registry is the old one, and the vault
  -- and the key files have for every reference and every path what they had, wherever the failure was;
  -- but for one reference of the vault, if what failed is the write of the marker of the vault's key,
  -- which comes after a secret is stored. (Any other call that fails has changed nothing itself.)
  pub apply-IsTransaction : (items : List Imported) (s : Local) → IsTransaction s (apply items s)
  unfolding apply after_load
  apply-IsTransaction items s =
      attempt-cases (λ r. IsTransaction s (after_load items r)) nothing s
        (IsTransaction-items s items (start_of s.saved) (counted s (suc s.calls))
          record { saved = refl; vault = λ r. refl; keys = λ r. refl })
        (λ e. record { saved = refl; vault = λ r. refl; keys = λ r. refl })
