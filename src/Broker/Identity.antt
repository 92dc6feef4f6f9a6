-- ===== src/Broker/Identity.antt =====
-- internal/broker/server.go: `connectionSnapshotFor`, what a saved connection is and its fingerprints.
pub mod Injective
use corv_client.Prelude.{
  ℕ, zero, suc, ◌+◌, ◌/◌, ◌%◌, ◌-◌, Bool, true, false, List, [], ◌∷◌, ◌++◌, Bytes, codes, Option,
  none, some, if◌then◌else◌, is_empty, length,
}
use corv_client.Prelude.Int.{ℤ, pos, negsuc}
use corv_client.Prelude.Result.{Result, ok, err, ◌>>=◌}
use corv_client.Go.Numbers.{decimal}
use corv_client.Profile.{Profile, Registry}
use corv_client.Ssh.Jump.{JumpHost, JumpError, parse_jump_chain}
use corv_client.Ssh.Enrich.{SecretFunc, enrich_jump_chain}

-- `vault.Secret`
pub record Secret : Type 0 where
  pub password : Bytes
  pub passphrase : Bytes

-- The vault: its entries (`Get`) and the digest that is bound to its key (`Fingerprint`), with SHA-256
-- in hexadecimal. Errors carry the vault's text.
pub record Secrets : Type 0 where
  pub get : Bytes → Result Bytes (Option Secret)
  pub keyed_digest : Bytes → Result Bytes Bytes
  pub sha256_hex : Bytes → Bytes

pub data SnapshotError : Type 0 where
  unreadable_credentials : Bytes → Bytes → SnapshotError  -- of a profile
  missing_credentials : Bytes → SnapshotError
  invalid_proxy_jump : Bytes → JumpError → SnapshotError
  unreadable_jump_credentials : Bytes → Bytes → SnapshotError  -- of a reference
  missing_jump_credentials : Bytes → SnapshotError
  no_fingerprint : Bytes → SnapshotError

-- `connectionSnapshot`
pub record ConnectionSnapshot : Type 0 where
  pub profile : Profile
  pub registry : Registry
  pub secret : Secret
  pub jumps : List JumpHost
  pub fingerprint : Bytes
  pub legacy_fingerprint : Bytes

-- The `k` low bytes of a number, the most significant first: `binary.BigEndian`.
unfoldable pub big_endian : ℕ → ℕ → Bytes → Bytes
big_endian zero n out = out
big_endian (suc k) n out = big_endian k (n / 256) ((n % 256) ∷ out)

-- `writeFingerprintField` for each field: its length in eight bytes, then the field.
unfoldable pub write_fields : List Bytes → Bytes
unfolding big_endian
write_fields [] = []
write_fields (f ∷ fs) = big_endian 8 (length f) (f ++ write_fields fs)

-- The fields of the old digest, each before a zero byte.
unfoldable pub write_legacy : List Bytes → Bytes
write_legacy [] = []
write_legacy (f ∷ fs) = f ++ 0 ∷ write_legacy fs

-- `strconv.Itoa`
unfoldable pub itoa : ℤ → Bytes
unfolding decimal
itoa (pos n) = decimal n
itoa (negsuc n) = b'-' ∷ decimal (suc n)

unfoldable pub profile_fields : Profile → Secret → List Bytes
unfolding itoa
profile_fields p s =
    p.target
    ∷ (itoa p.port ∷ (p.identity_file ∷ (p.proxy_jump ∷ (s.password ∷ (s.passphrase ∷ [])))))

unfoldable pub hop_fields : JumpHost → List Bytes
unfolding itoa
hop_fields j =
    j.user ∷ (j.host ∷ (itoa j.port ∷ (j.identity_file ∷ (j.password ∷ (j.passphrase ∷ [])))))

unfoldable pub hops_fields : List JumpHost → List Bytes
unfolding hop_fields
hops_fields [] = []
hops_fields (j ∷ js) = hop_fields j ++ hops_fields js

-- What the fingerprint is taken of: `current.Bytes()`
unfoldable pub identity_bytes : Profile → Secret → List JumpHost → Bytes
unfolding write_fields profile_fields hops_fields
identity_bytes p s jumps = write_fields (profile_fields p s ++ hops_fields jumps)

module _ ⦃v : Secrets⦄ where
  unfoldable pub credentials_digest : Bytes → Bytes → Bytes
  credentials_digest password passphrase = v.sha256_hex (password ++ 0 ∷ passphrase)

  unfoldable pub legacy_hop_fields : List JumpHost → List Bytes
  unfolding itoa credentials_digest
  legacy_hop_fields [] = []
  legacy_hop_fields (j ∷ js) =
      j.user
      ∷ (j.host
          ∷ (itoa j.port
              ∷ (j.identity_file
                  ∷ (credentials_digest j.password j.passphrase ∷ legacy_hop_fields js))))

  unfoldable pub legacy_bytes : Profile → Secret → List JumpHost → Bytes
  unfolding write_legacy legacy_hop_fields
  legacy_bytes p s jumps = write_legacy (
      p.target
      ∷ (itoa p.port
          ∷ (p.identity_file
              ∷ (p.proxy_jump
                  ∷ (credentials_digest s.password s.passphrase ∷ legacy_hop_fields jumps)))))

  abbrev hop_secret : Bytes → Result Bytes (Option Secret) → Result SnapshotError (Bytes × Bytes)
  hop_secret ref (err e) = err (unreadable_jump_credentials ref e)
  hop_secret ref (ok none) = err (missing_jump_credentials ref)
  hop_secret ref (ok (some s)) = ok (s.password, s.passphrase)

  -- `jumpSecret`
  unfoldable pub jump_secret : SecretFunc SnapshotError
  jump_secret ref = hop_secret ref (v.get ref)

  abbrev pub no_secret : Secret
  no_secret = record { password = []; passphrase = [] }

  abbrev stored_secret : Bytes → Result Bytes (Option Secret) → Result SnapshotError Secret
  stored_secret name (err e) = err (unreadable_credentials name e)
  stored_secret name (ok none) = err (missing_credentials name)
  stored_secret name (ok (some s)) = ok s

  unfoldable pub secret_of : Profile → Result SnapshotError Secret
  secret_of p =
      if is_empty p.secret_ref then ok no_secret else stored_secret p.name (v.get p.secret_ref)

  abbrev parsed_chain :
      Bytes → Result JumpError (List JumpHost) → Result SnapshotError (List JumpHost)
  parsed_chain spec (err e) = err (invalid_proxy_jump spec e)
  parsed_chain spec (ok jumps) = ok jumps

  abbrev digest_or_error : Result Bytes Bytes → Result SnapshotError Bytes
  digest_or_error (err e) = err (no_fingerprint e)
  digest_or_error (ok digest) = ok digest

  -- `connectionSnapshotFor`
  unfoldable pub connection_snapshot_for :
      Profile → Registry → Result SnapshotError ConnectionSnapshot
  unfolding secret_of jump_secret identity_bytes legacy_bytes parse_jump_chain enrich_jump_chain
  connection_snapshot_for p reg = do
    secret ← secret_of p
    parsed ← parsed_chain p.proxy_jump (parse_jump_chain p.proxy_jump)
    jumps ← enrich_jump_chain (some jump_secret) reg parsed
    digest ← digest_or_error (v.keyed_digest (identity_bytes p secret jumps))
    ok (record {
      profile = p;
      registry = reg;
      secret = secret;
      jumps = jumps;
      fingerprint = digest;
      legacy_fingerprint = v.sha256_hex (legacy_bytes p secret jumps);
    })
