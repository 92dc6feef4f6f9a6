-- ===== src/Profile/Apply.antt =====
-- internal/importstate/apply.go: imported connections are merged as one transaction over the registry,
-- the vault and the key files.
pub mod Undo
pub mod Rollback
use corv_client.Prelude.{
  ℕ, zero, suc, ◌+◌, Bool, true, false, not, ◌&&◌, ◌||◌, List, [], ◌∷◌, ◌++◌, Bytes, codes, Option,
  none, some, if◌then◌else◌, is_empty,
}
use corv_client.Prelude.Assoc.{Assoc, lookup, put, delete}
use corv_client.Prelude.Result.{Result, ok, err}
use corv_client.Go.Strings.{has_suffix}
use corv_client.Profile.{Profile, Registry, SetError, set_profile, get_profile}
use corv_client.Profile.Csv.{Imported}

-- `vault.Secret`
pub record Credentials : Type 0 where
  pub password : Bytes
  pub passphrase : Bytes

-- A key file with its permissions.
pub record KeyFile : Type 0 where
  pub content : Bytes
  pub perm : ℕ

-- The saved registry, the vault by reference, the key files by path, and the calls made so far.
pub record Local : Type 0 where
  pub saved : Registry
  pub vault : Assoc Credentials
  pub keys : Assoc KeyFile
  pub calls : ℕ

-- What fails: a call to the registry, the vault's file or a key file, which then changes nothing (these
-- files are replaced by a rename, their last step that may fail); and, after the `n`th call, the write
-- of the key's marker, which `Set` and `Delete` of the vault do last. `key_path` is `IdentityFilePath`.
pub record Outside : Type 0 where
  pub fault : ℕ → Option Bytes
  pub marker_fault : ℕ → Option Bytes
  pub key_path : Bytes → Bytes

-- `secretBackup` and `keyBackup`: what was there before, if anything.
pub record Backup (A : Type 0) : Type 0 where
  pub at : Bytes
  pub old : Option A

-- The variables of `Apply`; the newest backup and warning stand first.
pub record Progress : Type 0 where
  pub reg : Registry
  pub keys : List (Backup KeyFile)
  pub stored : List (Backup Credentials)
  pub added : ℕ
  pub warnings : List Bytes

pub data Outcome : Type 0 where
  going : Progress → Outcome
  failed : Bytes → Progress → Outcome

-- How `Apply` ends: with what was merged, or with the cause and the restores that failed.
pub data Applied : Type 0 where
  merged : Progress → Applied
  rolled_back : Bytes → List Bytes → Applied
  not_loaded : Bytes → Applied

-- A backup is put back, or what it did not find is removed.
unfoldable pub restore : {A : Type 0} → Backup A → Assoc A → Assoc A
unfolding put delete
restore b m = elim b.old [ none ↦ delete b.at m | some a ↦ put b.at a m ]

module _ ⦃o : Outside⦄ where
  -- A call that fails leaves everything as it was.
  unfoldable pub attempt : (Local → Local) → Local → Local × Option Bytes
  attempt f s = elim (o.fault s.calls) [
    | none ↦ (record (f s) { calls = suc s.calls }, none)
    | some e ↦ (record s { calls = suc s.calls }, some e)
  ]

  -- `persistBackend`, behind the write of the vault's file
  abbrev pub then_marker : Local × Option Bytes → Local × Option Bytes
  then_marker (s, some e) = (s, some e)
  then_marker (s, none) = (s, o.marker_fault s.calls)

  -- `Set` and `Delete` of the vault: they may fail when the vault has changed.
  unfoldable pub write_vault : (Local → Local) → Local → Local × Option Bytes
  unfolding attempt
  write_vault f s = then_marker (attempt f s)

  abbrev pub nothing : Local → Local
  nothing s = s

  abbrev pub warn : Bytes → Progress → Progress
  warn name p = record p { warnings = name ∷ p.warnings }

  -- `WriteIdentityFile` ends the material with a line feed.
  abbrev pub material_of : Bytes → Bytes
  material_of material = if has_suffix material (10 ∷ []) then material else material ++ 10 ∷ []

  abbrev pub write_key : Bytes → Bytes → Local → Local
  write_key path material s = record s {
    keys = put path (record { content = material_of material; perm = 0o600 }) s.keys;
  }

  abbrev pub key_backup : Bytes → Local → Backup KeyFile
  key_backup path s = record { at = path; old = lookup path s.keys }

  abbrev pub secret_backup : Bytes → Local → Backup Credentials
  secret_backup ref s = record { at = ref; old = lookup ref s.vault }

  abbrev pub set_secret : Bytes → Imported → Local → Local
  set_secret ref i s = record s {
    vault = put ref (record { password = i.password; passphrase = i.passphrase }) s.vault;
  }

  -- The end of the loop's body: `reg.Set(p)`
  abbrev pub added : Progress → Result SetError Registry → Outcome
  added p (err e) = failed (codes "invalid profile") p
  added p (ok reg) = going (record p { reg = reg; added = suc p.added })

  unfoldable pub add_profile : Profile → Progress → Local → Local × Outcome
  unfolding set_profile
  add_profile q p s = (s, added p (set_profile q p.reg))

  abbrev pub secret_ref_of : Profile → Bytes
  secret_ref_of q = codes "profile:" ++ q.name

  -- Behind `secrets.Set`, with the backup
  unfoldable pub after_set :
      Profile → Progress → Backup Credentials → Local × Option Bytes → Local × Outcome
  unfolding add_profile
  after_set q p b (s, some e) = (s, failed e p)
  after_set q p b (s, none) =
      add_profile (record q { secret_ref = secret_ref_of q }) (record p { stored = b ∷ p.stored }) s

  -- Behind `secrets.Get`
  unfoldable pub after_get : Imported → Profile → Progress → Local × Option Bytes → Local × Outcome
  unfolding attempt write_vault after_set
  after_get i q p (s, some e) = (s, failed e p)
  after_get i q p (s, none) =
      after_set q p (secret_backup (secret_ref_of q) s)
        (write_vault (set_secret (secret_ref_of q) i) s)

  -- The password and passphrase go to the vault.
  unfoldable pub store_secret : Imported → Profile → Progress → Local → Local × Outcome
  unfolding attempt add_profile after_get
  store_secret i q p s =
      if is_empty i.password && is_empty i.passphrase
      then add_profile q p s
      else after_get i q p (attempt nothing s)

  -- Behind `WriteIdentityFile`, with the backup
  unfoldable pub after_write :
      Imported → Profile → Progress → Backup KeyFile → Local × Option Bytes → Local × Outcome
  unfolding store_secret
  after_write i q p b (s, some e) = (s, going (warn q.name p))
  after_write i q p b (s, none) =
      store_secret i (record q { identity_file = b.at }) (record p { keys = b ∷ p.keys }) s

  -- Behind `snapshotIdentity`
  unfoldable pub after_snapshot :
      Imported → Profile → Progress → Local × Option Bytes → Local × Outcome
  unfolding attempt after_write
  after_snapshot i q p (s, some e) = (s, going (warn q.name p))
  after_snapshot i q p (s, none) =
      after_write i q p (key_backup (o.key_path q.name) s)
        (attempt (write_key (o.key_path q.name) i.key_material) s)

  -- Key material goes to a file of its own.
  unfoldable pub store_key : Imported → Profile → Progress → Local → Local × Outcome
  unfolding attempt store_secret after_snapshot
  store_key i q p s =
      if is_empty q.identity_file && not (is_empty i.key_material)
      then after_snapshot i q p (attempt nothing s)
      else store_secret i q p s

  abbrev pub candidate : Result SetError Registry → Bool
  candidate (err e) = false
  candidate (ok reg) = true

  -- The body of the loop: a name that is there is left alone, an invalid profile is skipped.
  unfoldable pub apply_item : Imported → Progress → Local → Local × Outcome
  unfolding store_key get_profile set_profile
  apply_item i p s = elim (get_profile i.profile.name p.reg) as (λ x. Local × Outcome) [
    | some old ↦ (s, going p)
    | none ↦
        if candidate (set_profile i.profile [])
        then store_key i i.profile p s
        else (s, going (warn i.profile.name p))
  ]

  abbrev pub add_error : Option Bytes → List Bytes → List Bytes
  add_error none es = es
  add_error (some e) es = e ∷ es

  -- `rollbackImport`: the newest backup first; a restore that fails is reported, and the rest goes on.
  unfoldable pub restore_secrets : List (Backup Credentials) → Local → Local × List Bytes
  unfolding write_vault restore
  restore_secrets [] s = (s, [])
  restore_secrets (b ∷ bs) s =
      let (s1, e) = write_vault (λ t. record t { vault = restore b t.vault }) s in
      let (s2, es) = restore_secrets bs s1 in (s2, add_error e es)

  unfoldable pub restore_keys : List (Backup KeyFile) → Local → Local × List Bytes
  unfolding attempt restore
  restore_keys [] s = (s, [])
  restore_keys (b ∷ bs) s =
      let (s1, e) = attempt (λ t. record t { keys = restore b t.keys }) s in
      let (s2, es) = restore_keys bs s1 in (s2, add_error e es)

  unfoldable pub rollback_import : Progress → Local → Local × List Bytes
  unfolding restore_secrets restore_keys
  rollback_import p s =
      let (s1, es) = restore_secrets p.stored s in
      let (s2, fs) = restore_keys p.keys s1 in (s2, es ++ fs)

  unfoldable pub roll_back : Bytes → Progress → Local → Local × Applied
  unfolding rollback_import
  roll_back cause p s = let (s', es) = rollback_import p s in (s', rolled_back cause es)

  unfoldable pub after_save : Progress → Local × Option Bytes → Local × Applied
  unfolding roll_back
  after_save p (s, none) = (s, merged p)
  after_save p (s, some e) = roll_back e p s

  -- `store.Save(reg)` after the loop
  unfoldable pub finish_apply : Progress → Local → Local × Applied
  unfolding attempt after_save
  finish_apply p s = after_save p (attempt (λ t. record t { saved = p.reg }) s)

  -- What follows an item: the rest of the loop, or the rollback.
  unfoldable pub after_item :
      (Progress → Local → Local × Applied) → Local × Outcome → Local × Applied
  unfolding roll_back
  after_item onward (s, going p) = onward p s
  after_item onward (s, failed e p) = roll_back e p s

  -- The loop over the items.
  unfoldable pub apply_items : List Imported → Progress → Local → Local × Applied
  unfolding apply_item finish_apply after_item
  apply_items [] p s = finish_apply p s
  apply_items (i ∷ items) p s = after_item (apply_items items) (apply_item i p s)

  abbrev pub start_of : Registry → Progress
  start_of reg = record { reg = reg; keys = []; stored = []; added = 0; warnings = [] }

  unfoldable pub after_load : List Imported → Local × Option Bytes → Local × Applied
  unfolding apply_items
  after_load items (s, none) = apply_items items (start_of s.saved) s
  after_load items (s, some e) = (s, not_loaded e)

  -- `Apply`, under the lock on the local state
  unfoldable pub apply : List Imported → Local → Local × Applied
  unfolding attempt after_load
  apply items s = after_load items (attempt nothing s)
