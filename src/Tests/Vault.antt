-- ===== src/Tests/Vault.antt =====
-- The theorems on the vault at concrete inputs.
use corv_client.Prelude.{
  ℕ, zero, suc, ◌≡◌, refl, ap, ◌∙◌, [], ◌∷◌, ◌++◌, append_assoc, sym, Bytes, codes, Option, none,
  some, arith, bytes_eq, take, drop, length, take-length, drop-length,
}
use corv_client.Prelude.Assoc.{Assoc, put}
use corv_client.Prelude.Int.{pos}
use corv_client.Prelude.Result.{ok, err}
use corv_client.Vault.{
  Secret, EncryptedVault, missing, Store, System, valid_backend, write_file, read_random, seal,
  load, load_from, persist_backend, save,
}
use corv_client.Vault.Keys.{
  key_in, key_for_backend, make_key, legacy_key_candidates, known_key, key_for_item, first_key,
  key_for_items, key_for_write, key_for_vault,
}
use corv_client.Vault.Items.{set, set_raw, get}
use corv_client.Vault.Candidates.{Settled, in_memory}
use corv_client.Vault.Stored.{IsSystem}
use corv_client.Vault.Kept.{restarted, get-set, get-set_other}

zeros : ℕ → Bytes
zeros zero = []
zeros (suc n) = 0 ∷ zeros n

length-zeros : (n : ℕ) → length (zeros n) ≡ n
unfolding zeros
length-zeros zero = refl
length-zeros (suc n) = omega (arith, length-zeros n)

-- A field stands behind its length.
cut_field : Bytes → Bytes × Bytes
cut_field [] = ([], [])
cut_field (n ∷ s) = (take n s, drop n s)

encode_items : Assoc Bytes → Bytes → Bytes
encode_items [] rest = rest
encode_items ((k, v) ∷ m) rest = length k ∷ (k ++ length v ∷ (v ++ encode_items m rest))

decode_items : ℕ → Bytes → Assoc Bytes
unfolding cut_field
decode_items zero s = []
decode_items (suc n) s =
    let (k, s1) = cut_field s in let (v, s2) = cut_field s1 in (k, v) ∷ decode_items n s2

encode_items-append :
    (m : Assoc Bytes) (rest t : Bytes) → encode_items m rest ++ t ≡ encode_items m (rest ++ t)
unfolding encode_items
encode_items-append [] rest t = refl
encode_items-append ((k, v) ∷ m) rest t =
    let inner : (v ++ encode_items m rest) ++ t ≡ v ++ encode_items m (rest ++ t) =
      append_assoc v (encode_items m rest) t
      ∙ ap (λ (s : Bytes). v ++ s) (encode_items-append m rest t) in
    ap (λ (s : Bytes). length k ∷ s)
      (append_assoc k (length v ∷ (v ++ encode_items m rest)) t
        ∙ ap (λ (s : Bytes). k ++ length v ∷ s) inner)

decode_items-encode_items :
    (m : Assoc Bytes) (rest : Bytes) → decode_items (length m) (encode_items m rest) ≡ m
unfolding decode_items encode_items cut_field
decode_items-encode_items [] rest = refl
decode_items-encode_items ((k, v) ∷ m) rest =
    let s = v ++ encode_items m rest in
    rw
      (
        take-length k (length v ∷ s),
        drop-length k (length v ∷ s),
        take-length v (encode_items m rest),
        drop-length v (encode_items m rest),
      )
      (ap (λ (l : Assoc Bytes). (k, v) ∷ l) (decode_items-encode_items m rest))

unmarshal_items : Bytes → Option EncryptedVault
unmarshal_items [] = none
unmarshal_items (n ∷ s) = some (record { version = pos 1; items = decode_items n s })

unmarshal_fields : Bytes → Option Secret
unmarshal_fields [] = none
unmarshal_fields (n ∷ s) = some (record { password = take n s; passphrase = drop n s })

-- A cipher that hides nothing.
instance abbrev test_system : System
test_system = record {
  fault = λ n. none;
  random = λ t n. some (zeros n);
  nonce_size = 12;
  gcm_seal = λ key nonce raw. raw;
  gcm_open = λ key nonce sealed. some sealed;
  encode64 = λ s. s;
  decode64 = λ s. some s;
  marshal_vault = λ v. length v.items ∷ encode_items v.items [];
  unmarshal_vault = unmarshal_items;
  marshal_secret = λ s. length s.password ∷ (s.password ++ s.passphrase);
  unmarshal_secret = unmarshal_fields;
  hmac_hex = λ key s. s;
}

test_system-IsSystem : IsSystem test_system
unfolding unmarshal_items
test_system-IsSystem = record {
  random_size = λ t n r h.
      let e : zeros n ≡ r = cc h in ap (λ (s : Bytes). length s) (sym e) ∙ length-zeros n;
  base64 = λ d. refl;
  gcm = λ key nonce raw. refl;
  json = λ v. (
    record { version = pos 1; items = v.items },
    ap (λ (s : Bytes). unmarshal_items (length v.items ∷ s))
          (encode_items-append v.items [] (10 ∷ []))
        ∙ ap (λ (m : Assoc Bytes). some (record { version = pos 1; items = m }))
            (decode_items-encode_items v.items (10 ∷ [])),
    λ k. refl,
  );
}

abbrev db_secret : Secret
db_secret = record { password = codes "pw"; passphrase = codes "open" }

abbrev web_secret : Secret
web_secret = record { password = codes "other"; passphrase = [] }

-- Nothing is there, and the keychain cannot be read.
abbrev new_store : Store
new_store = record {
  vault_file = missing;
  key_file = missing;
  marker = missing;
  keychain = err (codes "locked");
  backend = [];
  calls = 0;
}

abbrev db_store : Store
db_store = (set (codes "db") db_secret new_store).0

abbrev web_store : Store
web_store = (set (codes "web") web_secret db_store).0

db_is_set : set (codes "db") db_secret new_store ≡ (db_store, ok tt)
unfolding set set_raw load load_from key_for_vault key_for_write known_key key_for_items
    legacy_key_candidates first_key make_key read_random write_file seal save persist_backend
    valid_backend key_in zeros
db_is_set = refl

get-set_example :
    ((get (codes "db") db_store).1 ≡ ok (some db_secret))
    × ((get (codes "db") (restarted db_store)).1 ≡ ok (some db_secret))
unfolding unmarshal_fields
get-set_example =
    get-set test_system-IsSystem (codes "db") db_secret new_store db_store refl db_is_set

-- The marker and the memory have the backend of the new key.
db_store-Settled : Settled db_store (codes "file")
unfolding set set_raw load load_from key_for_vault key_for_write known_key key_for_items
    legacy_key_candidates first_key make_key read_random write_file seal save persist_backend
    valid_backend key_in zeros
db_store-Settled = in_memory refl refl

web_is_set : set (codes "web") web_secret db_store ≡ (web_store, ok tt)
unfolding set set_raw load load_from key_for_vault key_for_write known_key key_for_items
    legacy_key_candidates first_key make_key read_random write_file seal save persist_backend
    valid_backend key_in zeros key_for_item key_for_backend unmarshal_items decode_items
    encode_items cut_field put bytes_eq
web_is_set = refl

get-set_other_example :
    ((get (codes "db") web_store).1 ≡ (get (codes "db") db_store).1)
    × ((get (codes "db") (restarted web_store)).1 ≡ (get (codes "db") db_store).1)
unfolding bytes_eq
get-set_other_example =
    get-set_other test_system-IsSystem (codes "web") (codes "db") web_secret db_store web_store
      (codes "file") db_store-Settled refl web_is_set
