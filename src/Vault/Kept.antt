-- ===== src/Vault/Kept.antt =====
-- internal/vault/vault.go: `Get` behind `Set`.
use corv_client.Prelude.{
  ◌≡◌, refl, sym, ap, subst, ◌∙◌, true, false, [], ◌∷◌, Bytes, Option, none, some, is_empty,
  bytes_eq, inl, inr, Bool-cases,
}
use corv_client.Prelude.Assoc.{lookup, put, lookup-put, lookup-put_self}
use corv_client.Prelude.Result.{Result, ok, err}
use corv_client.Vault.{
  Secret, EncryptedVault, content, Store, System, then_do, backend_in, valid_backend, open_item,
  load, load_from,
}
use corv_client.Vault.Keys.{Candidate, key_for_backend, keys_for_read, use_backend, only}
use corv_client.Vault.Items.{
  set, set_raw, get, get_raw, get_item, read_secret, decoded_secret, found, open_with,
}
use corv_client.Vault.Candidates.{
  backend_name, key_for_backend-IsProvided, OnOk, Result-cases, Settled, in_memory, in_marker,
  IsProvided,
}
use corv_client.Vault.Stored.{IsSystem, IsStored, set_raw-IsStored}

-- A new process knows the files alone.
abbrev pub restarted : Store → Store
restarted s = record s { backend = [] }

module _ ⦃y : System⦄ where
  abbrev opened_secret : Result Bytes Bytes → Result Bytes (Option Secret)
  opened_secret (err e) = err e
  opened_secret (ok raw) = decoded_secret (y.unmarshal_secret raw)

  -- What `Get` gives with that key
  abbrev answer : Candidate → Option Bytes → Result Bytes (Option Secret)
  answer c none = ok none
  answer c (some item) = opened_secret (open_item c.key item)

  found-answer :
      (c : Candidate) (item : Bytes) (s : Store)
      → (then_do (found (only c) item s) read_secret).1 ≡ answer c (some item)
  unfolding open_with
  found-answer c item s = elim (Result-cases (open_item c.key item)) [
    | inl (e, h) ↦ rw (open_with, h) refl
    | inr (raw, h) ↦ rw (open_with, h) refl
  ]

  get_item-answer :
      (c : Candidate) (o : Option Bytes) (t : Store)
      → Settled t c.backend
      → IsProvided t c
      → (then_do (get_item o t) read_secret).1 ≡ answer c o
  unfolding keys_for_read use_backend
  get_item-answer c none t b p = refl
  get_item-answer c (some item) t (in_memory given e) p =
      let key : key_for_backend t.backend t ≡ ok c =
        ap (λ (d : Bytes). key_for_backend d t) e ∙ p in
      rw (given, key) (found-answer c item t)
  get_item-answer c (some item) t (in_marker none_given m full) p =
      let no_backend : is_empty t.backend ≡ true = ap (λ (d : Bytes). is_empty d) none_given in
      rw (no_backend, m, full, p) (found-answer c item (record t { backend = c.backend }))

  get-answer :
      (j : Bytes) (t : Store) (w : EncryptedVault) (c : Candidate)
      → load_from t.vault_file ≡ ok w
      → Settled t c.backend
      → IsProvided t c
      → (get j t).1 ≡ answer c (lookup j w.items)
  unfolding get get_raw load
  get-answer j t w c vault b p = rw vault (get_item-answer c (lookup j w.items) t b p)

valid-full : (b : Bytes) → valid_backend b ≡ true → is_empty b ≡ false
unfolding valid_backend bytes_eq
valid-full [] h = cc h
valid-full (c ∷ b) h = refl

module _ ⦃y : System⦄ (laws : IsSystem y) where
  set-IsStored :
      (ref : Bytes) (secret : Secret) (s s' : Store)
      → set ref secret s ≡ (s', ok tt)
      → IsStored ref (y.marshal_secret secret) s s'
  unfolding set
  set-IsStored ref secret s s' h = elim (Bool-cases (is_empty ref)) [
    | inl e ↦ cc (e, h)
    | inr e ↦
        let did : set_raw ref (y.marshal_secret secret) s ≡ (s', ok tt) = cc (e, h) in
        subst
          (λ (r : Store × Result Bytes (Unit {0})).
            OnOk r (λ s2 u. IsStored ref (y.marshal_secret secret) s s2))
          did (set_raw-IsStored laws ref (y.marshal_secret secret) s)
  ]

  -- What `Get` gives behind a `Set`, in the same process and in another.
  get-answer_stored :
      (ref raw j : Bytes) (s s' : Store) (d : IsStored ref raw s s')
      → ((get j s').1 ≡ answer d.candidate (lookup j (put ref d.item d.old.items)))
        × ((get j (restarted s')).1 ≡ answer d.candidate (lookup j (put ref d.item d.old.items)))
  get-answer_stored ref raw j s s' d =
      let b = d.candidate.backend in
      let full : is_empty b ≡ false = valid-full b d.valid in
      let here : Settled s' b =
        in_memory (ap (λ (x : Bytes). is_empty x) d.backend ∙ full) d.backend in
      let marked : backend_in s'.marker ≡ ok b = ap backend_in d.marker ∙ marker_read b d.valid in
      let there : Settled (restarted s') b = in_marker refl marked full in
      let provided : IsProvided (restarted s') d.candidate = unfold key_for_backend in d.provided in
      let item = ap (answer d.candidate) (d.items j) in
      (
        get-answer j s' d.new d.candidate d.vault here d.provided ∙ item,
        get-answer j (restarted s') d.new d.candidate d.vault there provided ∙ item,
      )
    where
      marker_read : (b : Bytes) → valid_backend b ≡ true → backend_in (content b) ≡ ok b
      marker_read b valid = unfold backend_in in rw valid refl

  -- What is stored is found again: behind a `Set` that succeeds, `Get` of the same reference gives the
  -- secret, in the same process and in a new one that knows the files alone, whichever key was chosen
  -- (the backend in memory or in the marker, a candidate that opens an old item, the keychain, the key
  -- file, or a new key) and whatever the vault held. The libraries keep their promises, and the JSON of
  -- this secret gives it back.
  pub get-set :
      (ref : Bytes) (secret : Secret) (s s' : Store)
      → y.unmarshal_secret (y.marshal_secret secret) ≡ some secret
      → set ref secret s ≡ (s', ok tt)
      → ((get ref s').1 ≡ ok (some secret)) × ((get ref (restarted s')).1 ≡ ok (some secret))
  get-set ref secret s s' json h =
      let d = set-IsStored ref secret s s' h in
      let (here, there) = get-answer_stored ref (y.marshal_secret secret) ref s s' d in
      let found : answer d.candidate (lookup ref (put ref d.item d.old.items)) ≡ ok (some secret) =
        rw (lookup-put_self ref d.item d.old.items, d.opens, json) refl in
      (here ∙ found, there ∙ found)

  -- A `Set` that succeeds leaves every other secret: once the backend of the key is settled, in memory
  -- or in its marker, `Get` of another reference gives what it gave before (a secret, nothing, or an
  -- error), in the same process and in a new one. The libraries keep their promises.
  pub get-set_other :
      (ref j : Bytes) (secret : Secret) (s s' : Store) (b : Bytes)
      → Settled s b
      → bytes_eq ref j ≡ false
      → set ref secret s ≡ (s', ok tt)
      → ((get j s').1 ≡ (get j s).1) × ((get j (restarted s')).1 ≡ (get j s).1)
  get-set_other ref j secret s s' b settled other h =
      let d = set-IsStored ref secret s s' h in
      let (here, there) = get-answer_stored ref (y.marshal_secret secret) j s s' d in
      let key : key_for_backend b s ≡ ok d.candidate = d.settled b settled in
      let before : Settled s d.candidate.backend =
        subst (λ (x : Bytes). Settled s x) (sym (backend_name b s key)) settled in
      let was =
        get-answer j s d.old d.candidate d.old_vault before (key_for_backend-IsProvided b s key) in
      let same : answer d.candidate (lookup j (put ref d.item d.old.items))
          ≡ answer d.candidate (lookup j d.old.items) =
        ap (answer d.candidate) (lookup-put ref j d.item d.old.items ∙ rw other refl) in
      (here ∙ same ∙ sym was, there ∙ same ∙ sym was)
