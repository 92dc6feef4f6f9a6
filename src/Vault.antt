-- ===== src/Vault.antt =====
-- internal/vault/vault.go: the encrypted store of passwords and passphrases, its files and their
-- encryption.
pub mod Keys
pub mod Items
pub mod Candidates
pub mod Chosen
pub mod Stored
pub mod Kept
use corv_client.Prelude.{
  ℕ, suc, Bool, true, false, not, ◌&&◌, ◌||◌, List, [], ◌∷◌, ◌++◌, Bytes, codes, Option, none, some,
  ltb, ◌==◌, if◌then◌else◌, bytes_eq, take, drop, length,
}
use corv_client.Prelude.Assoc.{Assoc}
use corv_client.Prelude.Int.{ℤ, pos, eq_ℤ}
use corv_client.Prelude.Result.{Result, ok, err}

-- `Secret`
pub record Secret : Type 0 where
  pub password : Bytes
  pub passphrase : Bytes

-- `encryptedVault`
pub record EncryptedVault : Type 0 where
  pub version : ℤ
  pub items : Assoc Bytes

-- A file: not there, there but not to be read, or read.
pub data File : Type 0 where
  missing : File
  unreadable : Bytes → File
  content : Bytes → File

-- `Store` with its files: the vault, the local key, the marker of the key's backend. `backend` is the
-- one in memory, empty for none; `keychain` is what `osKey` answers; `calls` counts the calls that
-- write a file or ask for random bytes.
pub record Store : Type 0 where
  pub vault_file : File
  pub key_file : File
  pub marker : File
  pub keychain : Result Bytes (Option Bytes)
  pub backend : Bytes
  pub calls : ℕ

-- Libraries and the system: a write fails with a text, or replaces the file; AES-GCM, base64, JSON.
pub record System : Type 0 where
  pub fault : ℕ → Option Bytes
  pub random : ℕ → ℕ → Option Bytes  -- call and size
  pub nonce_size : ℕ
  pub gcm_seal : Bytes → Bytes → Bytes → Bytes  -- key, nonce, plain text
  pub gcm_open : Bytes → Bytes → Bytes → Option Bytes
  pub encode64 : Bytes → Bytes
  pub decode64 : Bytes → Option Bytes
  pub marshal_vault : EncryptedVault → Bytes
  pub unmarshal_vault : Bytes → Option EncryptedVault
  pub marshal_secret : Secret → Bytes
  pub unmarshal_secret : Bytes → Option Secret
  pub hmac_hex : Bytes → Bytes → Bytes  -- HMAC-SHA256 of a key and a text, in hexadecimal

-- A method: it may change the store before it fails.
abbrev pub Action : Type 0 → Type 0
Action A = Store → Store × Result Bytes A

abbrev pub then_do :
    {A B : Type 0} → Store × Result Bytes A → (A → Action B) → Store × Result Bytes B
then_do (s, err e) next = (s, err e)
then_do (s, ok a) next = next a s

infixl 5 ◌>>=◌ ◌>>◌
abbrev pub ◌>>=◌ : {A B : Type 0} → Action A → (A → Action B) → Action B
(m >>= next) s = then_do (m s) next

abbrev pub ◌>>◌ : {A B : Type 0} → Action A → Action B → Action B
(m >> next) s = then_do (m s) (λ ignored. next)

abbrev pub give : {A : Type 0} → Result Bytes A → Action A
give r s = (s, r)

abbrev pub set_backend : Bytes → Action (Unit {0})
set_backend b s = (record s { backend = b }, ok tt)

-- `validBackend`
unfoldable pub valid_backend : Bytes → Bool
unfolding bytes_eq
valid_backend b = bytes_eq b (codes "file") || bytes_eq b (codes "os") || bytes_eq b (codes "dpapi")

-- `readBackend`
unfoldable pub backend_in : File → Result Bytes Bytes
unfolding valid_backend
backend_in missing = ok []
backend_in (unreadable e) = err (codes "read vault key backend")
backend_in (content b) = if valid_backend b then ok b else err (codes "invalid vault key backend")

-- The keys that `aes.NewCipher` takes.
abbrev pub is_aes_key : Bytes → Bool
is_aes_key key = length key == 16 || length key == 24 || length key == 32

module _ ⦃y : System⦄ where
  -- A write that fails changes nothing.
  unfoldable pub write_file : (Store → Store) → Action (Unit {0})
  write_file f s = elim (y.fault s.calls) [
    | none ↦ (record (f s) { calls = suc s.calls }, ok tt)
    | some e ↦ (record s { calls = suc s.calls }, err e)
  ]

  -- `io.ReadFull(rand.Reader, …)`
  unfoldable pub read_random : ℕ → Action Bytes
  read_random n s = elim (y.random s.calls n) [
    | none ↦ (record s { calls = suc s.calls }, err (codes "no random bytes"))
    | some bytes ↦ (record s { calls = suc s.calls }, ok bytes)
  ]

  -- `seal`
  unfoldable pub seal : Bytes → Bytes → Action Bytes
  unfolding read_random
  seal key raw =
      if is_aes_key key
      then read_random y.nonce_size
        >>= (λ nonce. give (ok (y.encode64 (nonce ++ y.gcm_seal key nonce raw))))
      else give (err (codes "invalid key size"))

  abbrev pub opened : Option Bytes → Result Bytes Bytes
  opened none = err (codes "message authentication failed")
  opened (some raw) = ok raw

  abbrev pub open_data : Bytes → Option Bytes → Result Bytes Bytes
  open_data key none = err (codes "illegal base64 data")
  open_data key (some sealed) =
      if not (is_aes_key key)
      then err (codes "invalid key size")
      else if ltb (length sealed) y.nonce_size
      then err (codes "vault item is truncated")
      else opened (y.gcm_open key (take y.nonce_size sealed) (drop y.nonce_size sealed))

  -- `open`
  unfoldable pub open_item : Bytes → Bytes → Result Bytes Bytes
  open_item key encoded = open_data key (y.decode64 encoded)

  abbrev pub empty_vault : EncryptedVault
  empty_vault = record { version = pos 1; items = [] }

  abbrev pub with_version : EncryptedVault → EncryptedVault
  with_version v = if eq_ℤ v.version (pos 0) then record v { version = pos 1 } else v

  abbrev pub decoded_vault : Option EncryptedVault → Result Bytes EncryptedVault
  decoded_vault none = err (codes "read vault")
  decoded_vault (some v) = ok (with_version v)

  -- `load`, on the file
  unfoldable pub load_from : File → Result Bytes EncryptedVault
  load_from missing = ok empty_vault
  load_from (unreadable e) = err e
  load_from (content text) = decoded_vault (y.unmarshal_vault text)

  unfoldable pub load : Action EncryptedVault
  unfolding load_from
  load s = (s, load_from s.vault_file)

  -- `persistBackend`
  unfoldable pub persist_backend : Bytes → Action (Unit {0})
  unfolding valid_backend write_file
  persist_backend b =
      if valid_backend b
      then write_file (λ s. record s { marker = content b }) >> set_backend b
      else give (err (codes "invalid vault key backend"))

  -- `save`
  unfoldable pub save : EncryptedVault → Bytes → Action (Unit {0})
  unfolding write_file persist_backend
  save v b =
      write_file (λ s. record s { vault_file = content (y.marshal_vault v ++ 10 ∷ []) })
      >> persist_backend b
