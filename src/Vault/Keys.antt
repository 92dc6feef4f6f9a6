-- ===== src/Vault/Keys.antt =====
-- internal/vault/vault.go and key_file.go: which key the vault is sealed and opened with.
use corv_client.Prelude.{
  Bool, true, false, not, List, [], ◌∷◌, ◌++◌, Bytes, codes, Option, none, some, ◌==◌,
  if◌then◌else◌, is_empty, bytes_eq, length,
}
use corv_client.Prelude.Result.{Result, ok, err}
use corv_client.Vault.{
  Action, ◌>>=◌, ◌>>◌, EncryptedVault, File, missing, unreadable, content, Store, System, then_do,
  give, set_backend, backend_in, write_file, read_random, load, open_item,
}

-- `keyCandidate`
pub record Candidate : Type 0 where
  pub backend : Bytes
  pub key : Bytes

-- `keychain`'s key, if there is one
abbrev pub os_candidates : Result Bytes (Option Bytes) → List Candidate
os_candidates (ok (some key)) = record { backend = codes "os"; key = key } ∷ []
os_candidates (ok none) = []
os_candidates (err e) = []

abbrev pub file_candidates : Option Bytes → List Candidate
file_candidates none = []
file_candidates (some key) = record { backend = codes "file"; key = key } ∷ []

-- `fileKey(false)`: none for a file that is not there.
unfoldable pub key_in : File → Result Bytes (Option Bytes)
key_in missing = ok none
key_in (unreadable e) = err e
key_in (content key) =
    if length key == 32 then ok (some key) else err (codes "invalid vault key length")

abbrev pub file_backend : Result Bytes (Option Bytes) → Result Bytes Candidate
file_backend (err e) = err e
file_backend (ok none) = err (codes "vault uses the file key, but the key file is missing")
file_backend (ok (some key)) = ok (record { backend = codes "file"; key = key })

abbrev pub os_backend : Result Bytes (Option Bytes) → Result Bytes Candidate
os_backend (err e) = err (codes "vault key is not accessible to this process")
os_backend (ok none) = err (codes "vault key is not accessible to this process")
os_backend (ok (some key)) = ok (record { backend = codes "os"; key = key })

-- `keyForBackend(backend, false)`
unfoldable pub key_for_backend : Bytes → Store → Result Bytes Candidate
unfolding key_in bytes_eq
key_for_backend b s =
    if bytes_eq b (codes "os")
    then os_backend s.keychain
    else if bytes_eq b (codes "file")
    then file_backend (key_in s.key_file)
    else err (codes "vault key backend is not supported on this OS")

module _ ⦃y : System⦄ where
  -- `fileKey(true)` without a file
  unfoldable pub make_key : Action Bytes
  unfolding read_random write_file
  make_key =
      read_random 32
      >>= (λ key. write_file (λ s. record s { key_file = content key }) >> give (ok key))

  abbrev pub first_candidates : List Candidate → Bool → Action (List Candidate)
  first_candidates (c ∷ cs) create = give (ok (c ∷ cs))
  first_candidates [] false = give (ok [])
  first_candidates [] true = make_key >>= (λ key. give (ok (file_candidates (some key))))

  abbrev pub with_file_key :
      Result Bytes (Option Bytes) → List Candidate → Bool → Action (List Candidate)
  with_file_key (err e) os create = give (err e)
  with_file_key (ok key) os create = first_candidates (os ++ file_candidates key) create

  -- `legacyKeyCandidates`: the key of the keychain, then the key file; a key is made if there is none.
  unfoldable pub legacy_key_candidates : Bool → Action (List Candidate)
  unfolding key_in make_key
  legacy_key_candidates create s =
      with_file_key (key_in s.key_file) (os_candidates s.keychain) create s

  -- `keyForBackend`, and the backend is kept in memory.
  unfoldable pub use_backend : Bytes → Action Candidate
  unfolding key_for_backend
  use_backend b s = then_do (s, key_for_backend b s) (λ c. set_backend c.backend >> give (ok c))

  -- The first of the keys that opens an item
  unfoldable pub first_opening : List Candidate → Bytes → Action Candidate
  unfolding open_item
  first_opening [] item = give (err (codes "vault cannot be decrypted with an available key"))
  first_opening (c ∷ cs) item = elim (open_item c.key item) [
    | ok raw ↦ set_backend c.backend >> give (ok c)
    | err e ↦ first_opening cs item
  ]

  -- With the backend in memory or the marker, or by `other` if there is neither.
  unfoldable pub known_key : Action Candidate → Action Candidate
  unfolding key_for_backend use_backend backend_in
  known_key other s =
      if not (is_empty s.backend)
      then (s, key_for_backend s.backend s)
      else then_do (s, backend_in s.marker) (λ b. if not (is_empty b) then use_backend b else other)

  -- `keyForVault` of a vault with items, of which `item` is one
  unfoldable pub key_for_item : Bytes → Action Candidate
  unfolding known_key legacy_key_candidates first_opening
  key_for_item item =
      known_key (legacy_key_candidates false >>= (λ candidates. first_opening candidates item))

  unfoldable pub first_key : List Candidate → Action Candidate
  first_key [] = give (err (codes "no vault key is available"))
  first_key (c ∷ cs) = set_backend c.backend >> give (ok c)

  unfoldable pub key_for_items : List (Bytes × Bytes) → Action Candidate
  unfolding key_for_item legacy_key_candidates first_key
  key_for_items [] = legacy_key_candidates true >>= first_key
  key_for_items ((ref, item) ∷ items) = key_for_item item

  -- `keyForWrite`
  unfoldable pub key_for_write : Action Candidate
  unfolding known_key key_for_items load
  key_for_write = known_key (load >>= (λ v. key_for_items v.items))

  abbrev pub key_for : List (Bytes × Bytes) → Action Candidate
  key_for [] = key_for_write
  key_for ((ref, item) ∷ items) = key_for_item item

  -- `keyForVault`
  unfoldable pub key_for_vault : EncryptedVault → Action Candidate
  unfolding key_for_write key_for_item
  key_for_vault v = key_for v.items

  abbrev pub only : Candidate → List Candidate
  only c = c ∷ []

  -- `keysForRead`
  unfoldable pub keys_for_read : Action (List Candidate)
  unfolding key_for_backend use_backend backend_in legacy_key_candidates
  keys_for_read s =
      if not (is_empty s.backend)
      then then_do (s, key_for_backend s.backend s) (λ c. give (ok (only c)))
      else then_do (s, backend_in s.marker)
          (λ b.
            if not (is_empty b)
            then use_backend b >>= (λ c. give (ok (only c)))
            else legacy_key_candidates false)
