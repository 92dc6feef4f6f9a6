-- ===== src/Profile/Import/Agree.antt =====
-- internal/profile/import.go and internal/sshconn/proxyjump.go: the two readers of a jump host.
use corv_client.Prelude.{
  ℕ, zero, suc, ◌+◌, ◌-◌, ◌≡◌, refl, Bool, false, not, [], ◌∷◌, Bytes, Option, none, some, arith,
  ltb, ◌==◌, is_empty, take, drop, inl, inr, Bool-cases, Option-cases,
}
use corv_client.Prelude.Int.{ℤ, pos, negsuc, eq_ℤ}
use corv_client.Prelude.Result.{Result, ok, err}
use corv_client.Go.Strings.{index_byte}
use corv_client.Go.Strings.Search.{last_index, count_byte, cut, cut-eq_none_of_count}
use corv_client.Go.Numbers.{parse_int}
use corv_client.Ssh.Jump.{
  JumpHost, JumpError, parse_port, checked_port, with_port, bracket_rest, read_bracketed, read_cut,
  read_plain, parse_host_port, hop, hop_of, read_user, parse_jump_host,
}
use corv_client.Profile.Import.Jump.{
  ImportJump, port_of, jump_at, bracket_jump_rest, bracket_jump, cut_jump, plain_jump, read_jump,
  jump_with_user, parse_import_jump,
}

-- A jump host of the import as the hop that the transport makes of it, with the flag that it spells out.
abbrev pub as_hop : ImportJump → JumpHost × Bool
as_hop j = (hop j.user (j.host, j.port), j.has_port)

abbrev pub hop_of_import : Option ImportJump → Option (JumpHost × Bool)
hop_of_import none = none
hop_of_import (some j) = some (as_hop j)

abbrev pub hop_of_transport : Result JumpError JumpHost → Option (JumpHost × Bool)
hop_of_transport (err e) = none
hop_of_transport (ok h) = some (h, not (eq_ℤ h.port (pos 0)))

module _ (user host : Bytes) where
  checked-agrees :
      (port : Option ℤ)
      → hop_of_import (jump_at user host (port_of port))
        ≡ hop_of_transport (hop_of user (with_port host (checked_port port)))
  checked-agrees none = refl
  checked-agrees (some (negsuc n)) = refl
  checked-agrees (some (pos n)) = ground arith

  port-agrees :
      (text : Bytes)
      → hop_of_import (jump_at user host (port_of (parse_int text)))
        ≡ hop_of_transport (hop_of user (with_port host (parse_port text)))
  port-agrees [] = unfold parse_port parse_int in refl
  port-agrees (c ∷ text) = unfold parse_port in checked-agrees (parse_int (c ∷ text))

  bracket_rest-agrees :
      (rest : Bytes)
      → hop_of_import (bracket_jump_rest user host rest)
        ≡ hop_of_transport (hop_of user (bracket_rest host rest))
  unfolding bracket_jump_rest bracket_rest
  bracket_rest-agrees [] = refl
  bracket_rest-agrees (c ∷ rest) = elim (Bool-cases (c == b':')) [
    | inl e ↦ rw e (port-agrees rest)
    | inr e ↦ rw e refl
  ]

module _ (user spec : Bytes) where
  bracketed-agrees :
      (end : Option ℕ)
      → hop_of_import (bracket_jump user spec end)
        ≡ hop_of_transport (hop_of user (read_bracketed spec end))
  unfolding bracket_jump read_bracketed
  bracketed-agrees none = refl
  bracketed-agrees (some end) = elim (Bool-cases (is_empty (take (end - 1) (drop 1 spec)))) [
    | inl e ↦ rw e refl
    | inr e ↦ rw e (bracket_rest-agrees user _ (drop (end + 1) spec))
  ]

  cut-agrees :
      (parts : Option (Bytes × Bytes))
      → hop_of_import (cut_jump user spec parts)
        ≡ hop_of_transport (hop_of user (read_cut spec parts))
  cut-agrees none = refl
  cut-agrees (some (host, text)) = elim (Bool-cases (is_empty host)) [
    | inl e ↦ rw e refl
    | inr e ↦ rw e (port-agrees user host text)
  ]

  plain-agrees :
      hop_of_import (plain_jump user spec) ≡ hop_of_transport (hop_of user (read_plain spec))
  unfolding plain_jump read_plain
  plain-agrees = elim (Bool-cases (ltb 1 (count_byte b':' spec))) [
    | inl e ↦ rw e refl
    | inr e ↦ elim (Bool-cases (count_byte b':' spec == 1)) [
      | inl t ↦ rw (e, t) (cut-agrees (cut b':' spec))
      | inr t ↦ rw (e, t, cut-eq_none_of_count b':' spec (ground arith)) refl
    ]
  ]

host_port-agrees :
    (user spec : Bytes)
    → hop_of_import (read_jump user spec) ≡ hop_of_transport (hop_of user (parse_host_port spec))
unfolding read_jump parse_host_port
host_port-agrees user [] = refl
host_port-agrees user (c ∷ spec) = elim (Bool-cases (c == b'[')) [
  | inl e ↦ rw e (bracketed-agrees user (c ∷ spec) (index_byte b']' (c ∷ spec)))
  | inr e ↦ rw e (plain-agrees user (c ∷ spec))
]

-- A text has no user exactly when its `@` stands first.
user-agrees :
    (c : ℕ) (spec : Bytes) (at : ℕ)
    → hop_of_import (jump_with_user (c ∷ spec) (some at))
      ≡ hop_of_transport (read_user (c ∷ spec) (some at))
user-agrees c spec zero = refl
user-agrees c spec (suc at) =
    let e : (suc at == 0) ≡ false = ground arith in
    rw e (host_port-agrees (c ∷ take at spec) (drop (suc at + 1) (c ∷ spec)))

-- On every text the parser of the import (`parseImportJump`) and the one of the transport
-- (`parseJumpHost`) agree: both refuse it, or both accept it with the same user, host and port, and
-- the import has seen a port exactly when the transport's port is not 0.
pub parse_import_jump-eq-parse_jump_host :
    (spec : Bytes)
    → hop_of_import (parse_import_jump spec) ≡ hop_of_transport (parse_jump_host spec)
unfolding parse_import_jump parse_jump_host
parse_import_jump-eq-parse_jump_host [] = refl
parse_import_jump-eq-parse_jump_host (c ∷ spec) = elim (Option-cases (last_index b'@' (c ∷ spec))) [
  | inl e ↦ rw e (host_port-agrees [] (c ∷ spec))
  | inr (at, e) ↦ rw e (user-agrees c spec at)
]
