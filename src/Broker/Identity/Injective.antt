-- ===== src/Broker/Identity/Injective.antt =====
-- internal/broker/server.go: the bytes that a connection's fingerprint is taken of.
use corv_client.Prelude.{
  ℕ, zero, suc, ◌+◌, ◌*◌, ◌/◌, ◌%◌, ◌^◌, ◌≤◌, ◌<◌, ◌≡◌, refl, ap, List, [], ◌∷◌, ◌++◌, Bytes, arith,
  All, length,
}
use corv_client.Prelude.Int.{ℤ, pos}
use corv_client.Go.Numbers.{parse_int, decimal}
use corv_client.Go.Numbers.Decimal.{parse_int-decimal}
use corv_client.Profile.{Profile}
use corv_client.Ssh.Jump.{JumpHost}
use corv_client.Broker.Identity.{
  Secret, big_endian, write_fields, itoa, profile_fields, hop_fields, hops_fields, identity_bytes,
}

-- 256 ^ k
abbrev pow256 : ℕ → ℕ
pow256 zero = 1
pow256 (suc k) = 256 * pow256 k

length-big_endian : (k n : ℕ) (out : Bytes) → length (big_endian k n out) ≡ k + length out
unfolding big_endian
length-big_endian zero n out = omega arith
length-big_endian (suc k) n out = omega (arith, length-big_endian k (n / 256) ((n % 256) ∷ out))

big_endian-injective :
    (k n m : ℕ) (s t : Bytes)
    → n < pow256 k
    → m < pow256 k
    → big_endian k n s ≡ big_endian k m t
    → (n ≡ m) × (s ≡ t)
unfolding big_endian
big_endian-injective zero n m s t hn hm e = (omega arith, e)
big_endian-injective (suc k) n m s t hn hm e =
    let (high, rest) =
      big_endian-injective k (n / 256) (m / 256) ((n % 256) ∷ s) ((m % 256) ∷ t) (omega arith)
        (omega arith) e in
    let low : n % 256 ≡ m % 256 = cc rest in (omega arith, cc rest)

append_cancel : (a b s t : Bytes) → length a ≡ length b → a ++ s ≡ b ++ t → (a ≡ b) × (s ≡ t)
append_cancel [] [] s t h e = (refl, e)
append_cancel [] (y ∷ b) s t h e = absurd (omega arith)
append_cancel (x ∷ a) [] s t h e = absurd (omega arith)
append_cancel (x ∷ a) (y ∷ b) s t h e =
    let tail : a ++ s ≡ b ++ t = cc e in
    let first : x ≡ y = cc e in
    let (same, rest) = append_cancel a b s t (omega arith) tail in (cc (first, same), rest)

abbrev Fits : List Bytes → Type 0
Fits = All (λ f. length f < 2 ^ 64)

-- A list of fields is read off the bytes that are written for it.
write_fields-injective :
    (fs gs : List Bytes) → Fits fs → Fits gs → write_fields fs ≡ write_fields gs → fs ≡ gs
unfolding write_fields
write_fields-injective [] [] hf hg e = refl
write_fields-injective [] (g ∷ gs) hf hg e = absurd (
    omega (
      arith,
      ap (λ (s : Bytes). length s) e,
      length-big_endian 8 (length g) (g ++ write_fields gs),
    ))
write_fields-injective (f ∷ fs) [] hf hg e = absurd (
    omega (
      arith,
      ap (λ (s : Bytes). length s) e,
      length-big_endian 8 (length f) (f ++ write_fields fs),
    ))
write_fields-injective (f ∷ fs) (g ∷ gs) (hf, hfs) (hg, hgs) e =
    let (size, rest) =
      big_endian-injective 8 (length f) (length g) (f ++ write_fields fs) (g ++ write_fields gs)
        (omega arith) (omega arith) e in
    let (first, others) = append_cancel f g (write_fields fs) (write_fields gs) size rest in
    cc (first, write_fields-injective fs gs hfs hgs others)

-- Ports print differently.
decimal-injective : (n m : ℕ) → n < 2 ^ 63 → m < 2 ^ 63 → decimal n ≡ decimal m → n ≡ m
decimal-injective n m hn hm e = cc (parse_int-decimal n hn, parse_int-decimal m hm, ap parse_int e)

-- A port in its range.
abbrev pub IsPort : ℤ → Type 0
IsPort z = (n : ℕ) × (z ≡ pos n) × (n ≤ 65535)

itoa-injective : (a b : ℤ) → IsPort a → IsPort b → itoa a ≡ itoa b → a ≡ b
itoa-injective a b (n, ea, ha) (m, eb, hb) e =
    let printed : decimal n ≡ decimal m =
      cc (unfold_itoa n, unfold_itoa m, ap itoa ea, ap itoa eb, e) in
    cc (ea, eb, decimal-injective n m (omega arith) (omega arith) printed)
  where
    unfold_itoa : (k : ℕ) → itoa (pos k) ≡ decimal k
    unfold_itoa k = unfold itoa in refl

-- What can be written: every field fits its length, and every port is in range.
pub record IsWritable (p : Profile) (s : Secret) (jumps : List JumpHost) : Type 0 where
  pub fields_fit : Fits (profile_fields p s ++ hops_fields jumps)
  pub port : IsPort p.port
  pub hop_ports : All (λ j. IsPort j.port) jumps

-- The settings that make up a connection are the same.
pub record IsSame (p : Profile) (s : Secret) (p' : Profile) (s' : Secret) : Type 0 where
  pub target : p.target ≡ p'.target
  pub port : p.port ≡ p'.port
  pub identity_file : p.identity_file ≡ p'.identity_file
  pub proxy_jump : p.proxy_jump ≡ p'.proxy_jump
  pub secret : s ≡ s'

hops_fields-injective :
    (js ks : List JumpHost)
    → All (λ j. IsPort j.port) js
    → All (λ j. IsPort j.port) ks
    → hops_fields js ≡ hops_fields ks
    → js ≡ ks
unfolding hops_fields hop_fields
hops_fields-injective [] [] hj hk e = refl
hops_fields-injective [] (k ∷ ks) hj hk e = cc e
hops_fields-injective (j ∷ js) [] hj hk e = cc e
hops_fields-injective (j ∷ js) (k ∷ ks) (pj, hj) (pk, hk) e =
    let printed : itoa j.port ≡ itoa k.port = cc e in
    let port : j.port ≡ k.port = itoa-injective j.port k.port pj pk printed in
    let rest : hops_fields js ≡ hops_fields ks = cc e in
    let others : js ≡ ks = hops_fields-injective js ks hj hk rest in
    let hop : j ≡ k = cc (e, port) in cc (hop, others)

-- The bytes that the fingerprint of a connection is taken of tell connections apart: where they are
-- the same for two connections, target, port, identity file, jump specification, password and
-- passphrase are the same, and so is each hop of the enriched chain with all its fields. Fields are
-- shorter than 2^64 bytes and ports at most 65535.
pub identity_bytes-injective :
    (p p' : Profile) (s s' : Secret) (jumps jumps' : List JumpHost)
    → IsWritable p s jumps
    → IsWritable p' s' jumps'
    → identity_bytes p s jumps ≡ identity_bytes p' s' jumps'
    → IsSame p s p' s' × (jumps ≡ jumps')
unfolding identity_bytes profile_fields
identity_bytes-injective p p' s s' jumps jumps' w w' e =
    let fields =
      write_fields-injective (profile_fields p s ++ hops_fields jumps)
        (profile_fields p' s' ++ hops_fields jumps') w.fields_fit w'.fields_fit e in
    let printed : itoa p.port ≡ itoa p'.port = cc fields in
    let hops : hops_fields jumps ≡ hops_fields jumps' = cc fields in
    (
      record {
        target = cc fields;
        port = itoa-injective p.port p'.port w.port w'.port printed;
        identity_file = cc fields;
        proxy_jump = cc fields;
        secret = cc fields;
      },
      hops_fields-injective jumps jumps' w.hop_ports w'.hop_ports hops,
    )
