-- ===== src/Tests/Store.antt =====
-- The theorems on the profile store at concrete inputs.
use corv_client.Prelude.{
  ◌≡◌, refl, sym, ap, ◌∙◌, subst, true, false, [], ◌∷◌, ◌++◌, Bytes, codes, none, some, bytes_eq,
  bytes_eq→eq, if◌then◌else◌, is_empty, inl, inr, Bool-cases,
}
use corv_client.Prelude.Int.{pos}
use corv_client.Prelude.Result.{ok, err}
use corv_client.Go.Strings.{trim_space, has_prefix}
use corv_client.Vault.{content}
use corv_client.Profile.{Registry}
use corv_client.Profile.Store.{Store, Sealer, Backing, is_plain, write, save, load}
use corv_client.Profile.Store.Sealed.{IsSealer, ReadsBack, Gives, load-load}

abbrev db_registry : Registry
db_registry =
    (
      codes "db",
      record {
        name = codes "db";
        target = codes "ann@db";
        port = pos 22;
        identity_file = [];
        secret_ref = [];
        proxy_jump = [];
      },
    )
    ∷ []

-- The one text of JSON, and its envelope
abbrev db_text : Bytes
db_text = codes "{db}" ++ 10 ∷ []

abbrev test_sealer : Sealer
test_sealer = record {
  seal = λ n text. if bytes_eq text db_text then ok (codes "SEALED") else err (codes "no key");
  open_sealed = λ sealed. ok db_text;
}

instance abbrev test_backing : Backing
test_backing = record {
  sealer = some test_sealer;
  fault = λ n. none;
  marshal = λ reg. codes "{db}";
  unmarshal = λ text. some db_registry;
}

test_sealer-IsSealer : IsSealer test_backing.sealer
unfolding is_plain trim_space has_prefix
test_sealer-IsSealer z n text sealed e h =
    let same : test_sealer ≡ z = cc e in
    let did : test_sealer.seal n text ≡ ok sealed = cc (same, h) in
    elim (Bool-cases (bytes_eq text db_text)) [
      | inr other ↦ cc (other, did)
      | inl this ↦
          let envelope : codes "SEALED" ≡ sealed = cc (this, did) in
          let read : db_text ≡ text = sym (bytes_eq→eq text db_text this) in
          let opens : z.open_sealed (codes "SEALED") ≡ ok text =
            ap (λ (q : Sealer). q.open_sealed (codes "SEALED")) (sym same) ∙ ap ok read in
          subst
            (λ (s : Bytes).
              (is_empty s ≡ false)
              × (trim_space s ≡ s)
              × (is_plain s ≡ false)
              × (z.open_sealed s ≡ ok text))
            envelope (refl, refl, refl, opens)
    ]

db-ReadsBack : ReadsBack test_backing db_registry
db-ReadsBack = (db_registry, refl, λ k. refl)

abbrev plain_store : Store
plain_store = record { file = content db_text; calls = 0 }

abbrev sealed_store : Store
sealed_store = record { file = content (codes "SEALED"); calls = 1 }

plain_is_loaded : load true plain_store ≡ (sealed_store, ok db_registry)
unfolding load save write bytes_eq is_plain trim_space has_prefix
plain_is_loaded = refl

any-ReadsBack :
    (text : Bytes) (r : Registry)
    → plain_store.file ≡ content text
    → test_backing.unmarshal text ≡ some r
    → ReadsBack test_backing r
any-ReadsBack text r e h =
    let same : db_registry ≡ r = cc h in subst (ReadsBack test_backing) same db-ReadsBack

load-load_example : Gives test_backing db_registry sealed_store
load-load_example =
    load-load test_sealer-IsSealer db_registry plain_store sealed_store any-ReadsBack
      plain_is_loaded
