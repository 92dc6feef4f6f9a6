-- ===== src/Vault/Items.antt =====
-- internal/vault/vault.go: the methods of the vault.
use corv_client.Prelude.{
  Bool, List, [], ◌∷◌, ◌++◌, Bytes, codes, Option, none, some, if◌then◌else◌, is_empty,
}
use corv_client.Prelude.Assoc.{lookup, put, delete}
use corv_client.Prelude.Result.{Result, ok, err}
use corv_client.Vault.{
  Action, ◌>>=◌, ◌>>◌, Secret, missing, Store, System, give, set_backend, seal, open_item, load,
  save, persist_backend, write_file,
}
use corv_client.Vault.Keys.{Candidate, key_for_vault, key_for_write, keys_for_read}

module _ ⦃y : System⦄ where
  -- The first candidate that opens the item; its backend is kept. `last` is the last error.
  unfoldable pub open_with : Bytes → List Candidate → Result Bytes Bytes → Action Bytes
  unfolding open_item
  open_with item [] last = give last
  open_with item (c ∷ cs) last = elim (open_item c.key item) [
    | ok raw ↦ set_backend c.backend >> give (ok raw)
    | err e ↦ open_with item cs (err e)
  ]

  -- `setRaw`
  unfoldable pub set_raw : Bytes → Bytes → Action (Unit {0})
  unfolding load key_for_vault seal save put
  set_raw ref raw = do
    v ← load
    c ← key_for_vault v
    item ← seal c.key raw
    save (record v { items = put ref item v.items }) c.backend

  -- `Set`
  unfoldable pub set : Bytes → Secret → Action (Unit {0})
  unfolding set_raw
  set ref secret =
      if is_empty ref
      then give (err (codes "secret ref is required"))
      else set_raw ref (y.marshal_secret secret)

  -- An item with no candidate is not found, without an error, as in the code.
  abbrev pub found : List Candidate → Bytes → Action (Option Bytes)
  found [] item = give (ok none)
  found (c ∷ cs) item = open_with item (c ∷ cs) (err []) >>= (λ raw. give (ok (some raw)))

  abbrev pub get_item : Option Bytes → Action (Option Bytes)
  get_item none = give (ok none)
  get_item (some item) = keys_for_read >>= (λ candidates. found candidates item)

  -- `getRaw`
  unfoldable pub get_raw : Bytes → Action (Option Bytes)
  unfolding load lookup keys_for_read open_with
  get_raw ref = load >>= (λ v. get_item (lookup ref v.items))

  abbrev pub decoded_secret : Option Secret → Result Bytes (Option Secret)
  decoded_secret none = err (codes "invalid secret")
  decoded_secret (some secret) = ok (some secret)

  abbrev pub read_secret : Option Bytes → Action (Option Secret)
  read_secret none = give (ok none)
  read_secret (some raw) = give (decoded_secret (y.unmarshal_secret raw))

  -- `Get`
  unfoldable pub get : Bytes → Action (Option Secret)
  unfolding get_raw
  get ref = get_raw ref >>= read_secret

  -- `Delete`
  unfoldable pub delete_secret : Bytes → Action (Unit {0})
  unfolding load key_for_vault save delete
  delete_secret ref = do
    v ← load
    c ← key_for_vault v
    save (record v { items = delete ref v.items }) c.backend

  -- `Seal`
  unfoldable pub seal_text : Bytes → Action Bytes
  unfolding key_for_write seal persist_backend
  seal_text plain = do
    c ← key_for_write
    encoded ← seal c.key plain
    persist_backend c.backend
    give (ok encoded)

  -- `Open`
  unfoldable pub open_text : Bytes → Action Bytes
  unfolding keys_for_read open_with
  open_text text =
      keys_for_read
      >>= (λ candidates. open_with text candidates (err (codes "no vault key is available")))

  -- `Fingerprint`
  unfoldable pub fingerprint : Bytes → Action Bytes
  unfolding key_for_write
  fingerprint text =
      key_for_write
      >>= (λ c. give (ok (y.hmac_hex c.key (codes "corv-connection-fingerprint-v1" ++ 0 ∷ text))))

  abbrev first_error : Option Bytes → Result Bytes (Unit {0}) → Option Bytes
  first_error (some e) r = some e
  first_error none (err e) = some e
  first_error none (ok u) = none

  -- A removal that fails is noted, and the others go on; a file that is missing is no failure.
  abbrev remove_file : (Store → Store) → Option Bytes → Store → Store × Option Bytes
  remove_file f first s = let (s1, r) = write_file f s in (s1, first_error first r)

  abbrev outcome : Option Bytes → Result Bytes (Unit {0})
  outcome none = ok tt
  outcome (some e) = err e

  -- `Reset`
  unfoldable pub reset : Bool → Action (Unit {0})
  unfolding write_file
  reset include_key s =
      let (s1, e1) = remove_file (λ t. record t { vault_file = missing }) none s in
      let (s2, e2) = remove_file (λ t. record t { marker = missing }) e1 s1 in
      let (s3, e3) = remove_file (λ t. record t { key_file = missing }) e2 s2 in
      if include_key then (record s3 { backend = [] }, outcome e3) else (s1, outcome e1)
