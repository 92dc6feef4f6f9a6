-- ===== src/Profile/Apply/Undo.antt =====
-- internal/importstate/apply.go: the backups undo what the merge has done so far.
use corv_client.Prelude.{
  ℕ, suc, ◌≡◌, refl, ◌⊎◌, false, bytes_eq, ◌∙◌, not, ◌&&◌, List, [], ◌∷◌, Bytes, Option, none, some,
  arith, is_empty, bytes_eq_iff, inl, inr, Bool-cases, Option-cases,
}
use corv_client.Prelude.Assoc.{Assoc, lookup, put, lookup-put, lookup-delete}
use corv_client.Prelude.Result.{Result, ok, err}
use corv_client.Profile.{Profile, Registry, SetError, set_profile, get_profile}
use corv_client.Profile.Csv.{Imported}
use corv_client.Profile.Apply.{
  Local, Outside, Backup, Progress, Outcome, going, failed, restore, attempt, nothing, write_key,
  key_backup, secret_backup, set_secret, added, add_profile, secret_ref_of, after_set, after_get,
  store_secret, write_vault, then_marker, after_write, after_snapshot, store_key, candidate,
  apply_item,
}

-- Two maps with the same entries.
abbrev pub Same : {A : Type 0} → Assoc A → Assoc A → Type 0
Same m m' = (k : Bytes) → lookup k m ≡ lookup k m'

-- Two maps with the same entries, but for one key.
abbrev pub SameBut : {A : Type 0} → Bytes → Assoc A → Assoc A → Type 0
SameBut ref m m' = (k : Bytes) → bytes_eq ref k ≡ false → lookup k m ≡ lookup k m'

lookup-restore :
    {A : Type 0} (b : Backup A) (m m' : Assoc A) (k : Bytes)
    → lookup k m ≡ lookup k m'
    → lookup k (restore b m) ≡ lookup k (restore b m')
unfolding restore
lookup-restore b m m' k h = elim (Option-cases b.old) [
  | inl e ↦ rw e (ground (arith, lookup-delete b.at k m, lookup-delete b.at k m', h))
  | inr (a, e) ↦ rw e (ground (arith, lookup-put b.at k a m, lookup-put b.at k a m', h))
]

-- Putting back what a change replaced undoes the change.
restore-put :
    {A : Type 0} (at : Bytes) (a : A) (m : Assoc A)
    → Same (restore (record { at = at; old = lookup at m }) (put at a m)) m
unfolding restore
restore-put at a m k = elim (Option-cases (lookup at m)) [
  | inl e ↦
      rw (restore, e)
        (ground (arith, e, lookup-delete at k (put at a m), lookup-put at k a m, bytes_eq_iff at k))
  | inr (b, e) ↦
      rw (restore, e)
        (ground (arith, e, lookup-put at k b (put at a m), lookup-put at k a m, bytes_eq_iff at k))
]

-- All backups are put back, the newest first.
abbrev pub undo : {A : Type 0} → List (Backup A) → Assoc A → Assoc A
undo [] m = m
undo (b ∷ bs) m = undo bs (restore b m)

lookup-undo :
    {A : Type 0} (bs : List (Backup A)) (m m' : Assoc A) (k : Bytes)
    → lookup k m ≡ lookup k m'
    → lookup k (undo bs m) ≡ lookup k (undo bs m')
lookup-undo [] m m' k h = h
lookup-undo (b ∷ bs) m m' k h =
    lookup-undo bs (restore b m) (restore b m') k (lookup-restore b m m' k h)

undo-put :
    {A : Type 0} (bs : List (Backup A)) (at : Bytes) (a : A) (m m0 : Assoc A)
    → Same (undo bs m) m0
    → Same (undo (record { at = at; old = lookup at m } ∷ bs) (put at a m)) m0
undo-put bs at a m m0 h k =
    lookup-undo bs (restore (record { at = at; old = lookup at m }) (put at a m)) m k
      (restore-put at a m k)
    ∙ h k

-- An entry that is changed and not backed up does not touch the others.
undo-put_other :
    {A : Type 0} (bs : List (Backup A)) (at : Bytes) (a : A) (m m0 : Assoc A)
    → Same (undo bs m) m0
    → SameBut at (undo bs (put at a m)) m0
undo-put_other bs at a m m0 h k other =
    lookup-undo bs (put at a m) m k (lookup-put at k a m ∙ rw other refl) ∙ h k

-- The backups undo what was done to the vault and the key files since `s0`.
pub record Undoes (s0 : Local) (p : Progress) (s : Local) : Type 0 where
  pub saved : s.saved ≡ s0.saved
  pub vault : Same (undo p.stored s.vault) s0.vault
  pub keys : Same (undo p.keys s.keys) s0.keys

module _ ⦃o : Outside⦄ where
  -- The same, but for the one secret that was stored when the write of the marker behind it failed,
  -- with the error `e`.
  pub record Misses (s0 : Local) (e : Bytes) (p : Progress) (s : Local) : Type 0 where
    pub call : ℕ
    pub marker : o.marker_fault call ≡ some e
    pub ref : Bytes
    pub saved : s.saved ≡ s0.saved
    pub vault : SameBut ref (undo p.stored s.vault) s0.vault
    pub keys : Same (undo p.keys s.keys) s0.keys

  abbrev pub Reaches : Local → Local × Outcome → Type 0
  Reaches s0 (s, going p) = Undoes s0 p s
  Reaches s0 (s, failed e p) = Undoes s0 p s ⊎ Misses s0 e p s

  abbrev pub counted : Local → ℕ → Local
  counted s n = record s { calls = n }

  pub attempt-cases :
      (P : Local × Option Bytes → Type 0) (f : Local → Local) (s : Local)
      → P (counted (f s) (suc s.calls), none)
      → ((e : Bytes) → P (counted s (suc s.calls), some e))
      → P (attempt f s)
  unfolding attempt
  attempt-cases P f s done fault = elim (Option-cases (o.fault s.calls)) [
    | inl e ↦ rw (attempt, e) done
    | inr (x, e) ↦ rw (attempt, e) (fault x)
  ]

  then_marker-cases :
      (P : Local × Option Bytes → Type 0) (s : Local)
      → P (s, none)
      → ((e : Bytes) → o.marker_fault s.calls ≡ some e → P (s, some e))
      → P (then_marker (s, none))
  then_marker-cases P s done fault = elim (Option-cases (o.marker_fault s.calls)) [
    | inl x ↦ rw x done
    | inr (e, x) ↦ rw x (fault e x)
  ]

  -- A write of the vault is done; or it failed and changed nothing; or its marker failed after it.
  write_vault-cases :
      (P : Local × Option Bytes → Type 0) (f : Local → Local) (s : Local)
      → P (counted (f s) (suc s.calls), none)
      → ((e : Bytes) → P (counted s (suc s.calls), some e))
      → ((e : Bytes)
          → o.marker_fault (suc s.calls) ≡ some e
          → P (counted (f s) (suc s.calls), some e))
      → P (write_vault f s)
  unfolding write_vault
  write_vault-cases P f s done fault left =
      attempt-cases (λ r. P (then_marker r)) f s
        (then_marker-cases P (counted (f s) (suc s.calls)) done left) fault

  module _ (s0 : Local) where
    pub recount : (p : Progress) (s : Local) (n : ℕ) → Undoes s0 p s → Undoes s0 p (counted s n)
    recount p s n u = record { saved = u.saved; vault = u.vault; keys = u.keys }

    Reaches-added :
        (p : Progress) (s : Local) (r : Result SetError Registry)
        → Undoes s0 p s
        → Reaches s0 (s, added p r)
    Reaches-added p s (err e) u = inl u
    Reaches-added p s (ok reg) u = record { saved = u.saved; vault = u.vault; keys = u.keys }

    Reaches-after_set :
        (i : Imported) (q : Profile) (p : Progress) (s : Local)
        → Undoes s0 p s
        → Reaches s0 (
            after_set q p
              (secret_backup (secret_ref_of q) s)
              (write_vault (set_secret (secret_ref_of q) i) s))
    unfolding after_set add_profile
    Reaches-after_set i q p s u =
        let b = secret_backup (secret_ref_of q) s in
        write_vault-cases (λ r. Reaches s0 (after_set q p b r)) (set_secret (secret_ref_of q) i) s
          (Reaches-added (record p { stored = b ∷ p.stored })
            (counted (set_secret (secret_ref_of q) i s) (suc s.calls))
            (set_profile (record q { secret_ref = secret_ref_of q }) p.reg)
            record {
              saved = u.saved;
              vault =
                  undo-put p.stored (secret_ref_of q)
                    (record { password = i.password; passphrase = i.passphrase }) s.vault s0.vault
                    u.vault;
              keys = u.keys;
            })
          (λ e. inl (recount p s (suc s.calls) u))
          (λ e marker. inr (record {
            call = suc s.calls;
            marker = marker;
            ref = secret_ref_of q;
            saved = u.saved;
            vault =
                undo-put_other p.stored (secret_ref_of q)
                  (record { password = i.password; passphrase = i.passphrase }) s.vault s0.vault
                  u.vault;
            keys = u.keys;
          }))

    Reaches-store_secret :
        (i : Imported) (q : Profile) (p : Progress) (s : Local)
        → Undoes s0 p s
        → Reaches s0 (store_secret i q p s)
    unfolding store_secret after_get add_profile
    Reaches-store_secret i q p s u =
        elim (Bool-cases (is_empty i.password && is_empty i.passphrase)) [
          | inl e ↦ rw e (Reaches-added p s (set_profile q p.reg) u)
          | inr e ↦ rw e (
              attempt-cases (λ r. Reaches s0 (after_get i q p r)) nothing s
                (Reaches-after_set i q p (counted s (suc s.calls)) (recount p s (suc s.calls) u))
                (λ x. inl (recount p s (suc s.calls) u)))
        ]

    Reaches-after_write :
        (i : Imported) (q : Profile) (p : Progress) (s : Local) (path : Bytes)
        → Undoes s0 p s
        → Reaches s0
            (after_write i q p (key_backup path s) (attempt (write_key path i.key_material) s))
    unfolding after_write
    Reaches-after_write i q p s path u =
        let b = key_backup path s in
        attempt-cases (λ r. Reaches s0 (after_write i q p b r)) (write_key path i.key_material) s
          (Reaches-store_secret i (record q { identity_file = path })
            (record p { keys = b ∷ p.keys })
            (counted (write_key path i.key_material s) (suc s.calls))
            record {
              saved = u.saved;
              vault = u.vault;
              keys = undo-put p.keys path _ s.keys s0.keys u.keys;
            })
          (λ e. record { saved = u.saved; vault = u.vault; keys = u.keys })

    Reaches-store_key :
        (i : Imported) (q : Profile) (p : Progress) (s : Local)
        → Undoes s0 p s
        → Reaches s0 (store_key i q p s)
    unfolding store_key after_snapshot
    Reaches-store_key i q p s u =
        elim (Bool-cases (is_empty q.identity_file && not (is_empty i.key_material))) [
          | inl e ↦ rw e (
              attempt-cases (λ r. Reaches s0 (after_snapshot i q p r)) nothing s
                (Reaches-after_write i q p (counted s (suc s.calls)) (o.key_path q.name)
                  (recount p s (suc s.calls) u))
                (λ x. record { saved = u.saved; vault = u.vault; keys = u.keys }))
          | inr e ↦ rw e (Reaches-store_secret i q p s u)
        ]

    pub Reaches-apply_item :
        (i : Imported) (p : Progress) (s : Local) → Undoes s0 p s → Reaches s0 (apply_item i p s)
    unfolding apply_item
    Reaches-apply_item i p s u = elim (Option-cases (get_profile i.profile.name p.reg)) [
      | inr (old, e) ↦ rw (apply_item, e) u
      | inl e ↦ elim (Bool-cases (candidate (set_profile i.profile []))) [
        | inl fine ↦ rw (apply_item, e, fine) (Reaches-store_key i i.profile p s u)
        | inr bad ↦
            rw (apply_item, e, bad) record { saved = u.saved; vault = u.vault; keys = u.keys }
      ]
    ]
