-- ===== src/Ssh/Enrich.antt =====
-- internal/sshconn/jump.go: the hops of a chain take what they lack from saved profiles.
use corv_client.Prelude.{
  ℕ, ◌+◌, Bool, false, ◌&&◌, ◌||◌, List, [], ◌∷◌, Bytes, Option, none, some, ltb, if◌then◌else◌,
  is_empty, take, drop, length, bytes_eq, ◌-◌, ◌≡◌, refl, sym, subst, ◌∙◌, inl, inr, Option-cases,
  Bool-cases, arith,
}
use corv_client.Prelude.Int.{ℤ, pos, eq_ℤ}
use corv_client.Prelude.Result.{Result, ok, ◌>>=◌, >>=-eq-ok}
use corv_client.Go.Strings.{has_prefix, has_suffix}
use corv_client.Go.Strings.Search.{last_index}
use corv_client.Profile.{Profile, Registry, get_profile, list_profiles}
use corv_client.Profile.Import.Match.{or_text, or_port}
use corv_client.Ssh.Jump.{JumpHost}

-- `unbracketHost`
unfoldable pub unbracket_host : Bytes → Bytes
unfolding has_prefix has_suffix
unbracket_host host =
    if has_prefix host (b'[' ∷ []) && has_suffix host (b']' ∷ [])
    then take (length (drop 1 host) - (if has_suffix (drop 1 host) (b']' ∷ []) then 1 else 0))
        (drop 1 host)
    else host

abbrev split_at : Bytes → Option ℕ → Bytes × Bytes
split_at target none = ([], unbracket_host target)
split_at target (some at) =
    if ltb 0 at
    then (take at target, unbracket_host (drop (at + 1) target))
    else ([], unbracket_host target)

-- `splitTarget`: user and host
unfoldable pub split_target : Bytes → Bytes × Bytes
unfolding unbracket_host last_index
split_target target = split_at target (last_index b'@' target)

abbrev pub or_22 : ℤ → ℤ
or_22 port = or_port port (pos 22)

unfoldable pub is_endpoint : JumpHost → Profile → Bool
unfolding split_target
is_endpoint jump p =
    let (user, host) = split_target p.target in
    bytes_eq host jump.host
    && eq_ℤ (or_22 p.port) (or_22 jump.port)
    && (is_empty jump.user || bytes_eq jump.user user)

unfoldable pub find_endpoint : JumpHost → List Profile → Option Profile
unfolding is_endpoint
find_endpoint jump [] = none
find_endpoint jump (p ∷ ps) =
    let rest = find_endpoint jump ps in if is_endpoint jump p then some p else rest

-- `findJumpProfile`
unfoldable pub find_jump_profile : JumpHost → Registry → Option Profile
unfolding get_profile find_endpoint list_profiles
find_jump_profile jump reg = elim (get_profile jump.host reg) [
  | none ↦ find_endpoint jump (list_profiles reg)
  | some p ↦ some p
]

-- Password and passphrase of a reference: `SecretFunc`. Without one there are no secrets.
abbrev pub SecretFunc : Type 0 → Type 0
SecretFunc E = Bytes → Result E (Bytes × Bytes)

-- The endpoint that a hop takes from a profile.
unfoldable pub with_endpoint : JumpHost → Profile → Registry → JumpHost
unfolding split_target get_profile
with_endpoint jump p reg =
    let (user, host) = split_target p.target in
    let named = elim (get_profile jump.host reg) as (λ o. JumpHost) [
      | none ↦ jump
      | some q ↦ record jump { host = host; port = or_port jump.port p.port }
    ] in
    record named {
      user = or_text jump.user user;
      identity_file = or_text jump.identity_file p.identity_file;
    }

abbrev pub with_secret : JumpHost → Bytes × Bytes → JumpHost
with_secret jump (password, passphrase) = record jump {
  password = or_text jump.password password;
  passphrase = or_text jump.passphrase passphrase;
}

module _ {E : Type 0} (secret_for : Option (SecretFunc E)) where
  abbrev add_secret : JumpHost → Bytes → Option (SecretFunc E) → Result E JumpHost
  add_secret jump ref none = ok jump
  add_secret jump ref (some get) =
      if is_empty ref then ok jump else get ref >>= (λ s. ok (with_secret jump s))

  abbrev enrich_from : JumpHost → Registry → Option Profile → Result E JumpHost
  enrich_from jump reg none = ok jump
  enrich_from jump reg (some p) = add_secret (with_endpoint jump p reg) p.secret_ref secret_for

  -- The body of the loop of `EnrichJumpChain`
  unfoldable pub enrich_jump : Registry → JumpHost → Result E JumpHost
  unfolding find_jump_profile with_endpoint
  enrich_jump reg jump = enrich_from jump reg (find_jump_profile jump reg)

  -- `EnrichJumpChain`; the hops that it changes are its result.
  unfoldable pub enrich_jump_chain : Registry → List JumpHost → Result E (List JumpHost)
  unfolding enrich_jump
  enrich_jump_chain reg [] = ok []
  enrich_jump_chain reg (jump ∷ jumps) = do
    j ← enrich_jump reg jump
    js ← enrich_jump_chain reg jumps
    ok (j ∷ js)

-- What a hop says is kept; its host is replaced only where it is the name of a saved profile.
pub record IsFilled (reg : Registry) (jump j : JumpHost) : Type 0 where
  pub user : is_empty jump.user ≡ false → j.user ≡ jump.user
  pub host : get_profile jump.host reg ≡ none → j.host ≡ jump.host
  pub port : eq_ℤ jump.port (pos 0) ≡ false → j.port ≡ jump.port
  pub identity : is_empty jump.identity_file ≡ false → j.identity_file ≡ jump.identity_file
  pub password : is_empty jump.password ≡ false → j.password ≡ jump.password
  pub passphrase : is_empty jump.passphrase ≡ false → j.passphrase ≡ jump.passphrase

-- Hop by hop.
abbrev pub AreFilled : Registry → List JumpHost → List JumpHost → Type 0
AreFilled reg [] [] = Unit
AreFilled reg [] (j ∷ js) = ⊥
AreFilled reg (jump ∷ jumps) [] = ⊥
AreFilled reg (jump ∷ jumps) (j ∷ js) = IsFilled reg jump j × AreFilled reg jumps js

IsFilled-self : (reg : Registry) (jump : JumpHost) → IsFilled reg jump jump
IsFilled-self reg jump = record {
  user = λ h. refl;
  host = λ h. refl;
  port = λ h. refl;
  identity = λ h. refl;
  password = λ h. refl;
  passphrase = λ h. refl;
}

with_endpoint-IsFilled :
    (reg : Registry) (jump : JumpHost) (p : Profile) → IsFilled reg jump (with_endpoint jump p reg)
unfolding with_endpoint
with_endpoint-IsFilled reg jump p = elim (Option-cases (get_profile jump.host reg)) [
  | inl e ↦ rw e record {
    user = λ h. ground arith;
    host = λ h. refl;
    port = λ h. refl;
    identity = λ h. ground arith;
    password = λ h. refl;
    passphrase = λ h. refl;
  }
  | inr (q, e) ↦ rw e record {
    user = λ h. ground arith;
    host = λ h. cc (e, h);
    port = λ h. ground arith;
    identity = λ h. ground arith;
    password = λ h. refl;
    passphrase = λ h. refl;
  }
]

with_secret-IsFilled :
    (reg : Registry) (jump j : JumpHost) (s : Bytes × Bytes)
    → IsFilled reg jump j
    → IsFilled reg jump (with_secret j s)
with_secret-IsFilled reg jump j (password, passphrase) f = record {
  user = f.user;
  host = f.host;
  port = f.port;
  identity = f.identity;
  password = λ h. let same = f.password h in ground arith;
  passphrase = λ h. let same = f.passphrase h in ground arith;
}

module _ {E : Type 0} (secret_for : Option (SecretFunc E)) where
  add_secret-IsFilled :
      (reg : Registry) (jump j : JumpHost) (ref : Bytes) (get : Option (SecretFunc E))
      {k : JumpHost}
      → IsFilled reg jump j
      → add_secret secret_for j ref get ≡ ok k
      → IsFilled reg jump k
  add_secret-IsFilled reg jump j ref none f h = subst (IsFilled reg jump) (cc h) f
  add_secret-IsFilled reg jump j ref (some get) {k} f h = elim (Bool-cases (is_empty ref)) [
    | inl e ↦
        let same : add_secret secret_for j ref (some get) ≡ ok j = rw e refl in
        subst (IsFilled reg jump) (cc (h, same)) f
    | inr e ↦
        let same : add_secret secret_for j ref (some get)
            ≡ (get ref >>= (λ s. ok (with_secret j s))) =
          rw e refl in
        let (s, got, made) = >>=-eq-ok (get ref) _ (sym same ∙ h) in
        subst (IsFilled reg jump) (cc made) (with_secret-IsFilled reg jump j s f)
  ]

  enrich_from-IsFilled :
      (reg : Registry) (jump : JumpHost) (o : Option Profile) {k : JumpHost}
      → enrich_from secret_for jump reg o ≡ ok k
      → IsFilled reg jump k
  enrich_from-IsFilled reg jump none h = subst (IsFilled reg jump) (cc h) (IsFilled-self reg jump)
  enrich_from-IsFilled reg jump (some p) h =
      add_secret-IsFilled reg jump (with_endpoint jump p reg) p.secret_ref secret_for
        (with_endpoint-IsFilled reg jump p) h

  -- Enriching a chain of jump hosts never overrides what a hop says: if it succeeds, the chain has as
  -- many hops as before, and each hop keeps the user, port, identity file, password and passphrase that
  -- were set on it, and its host unless that is the name of a saved profile.
  pub enrich_jump_chain-AreFilled :
      (reg : Registry) (jumps js : List JumpHost)
      → enrich_jump_chain secret_for reg jumps ≡ ok js
      → AreFilled reg jumps js
  unfolding enrich_jump_chain enrich_jump
  enrich_jump_chain-AreFilled reg [] js h = subst (AreFilled reg []) {x = []} (cc h) tt
  enrich_jump_chain-AreFilled reg (jump ∷ jumps) js h =
      let (j, first, h1) = >>=-eq-ok (enrich_jump secret_for reg jump) _ h in
      let (ks, rest, h2) = >>=-eq-ok (enrich_jump_chain secret_for reg jumps) _ h1 in
      subst (AreFilled reg (jump ∷ jumps)) {x = j ∷ ks} (cc h2) (
        enrich_from-IsFilled reg jump (find_jump_profile jump reg) first,
        enrich_jump_chain-AreFilled reg jumps ks rest,
      )
