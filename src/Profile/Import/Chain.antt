-- ===== src/Profile/Import/Chain.antt =====
-- internal/profile/import.go: jump hosts that name an alias of the configuration.
use corv_client.Prelude.{
  ℕ, ◌≤◌, ◌≡◌, refl, ap, ◌∙◌, false, not, Bytes, Option, none, some, All, if◌then◌else◌, is_empty,
}
use corv_client.Prelude.Assoc.{Assoc, lookup}
use corv_client.Prelude.Int.{pos, eq_ℤ}
use corv_client.Prelude.Result.{ok}
use corv_client.Ssh.Jump.{JumpHost, hop, parse_jump_host}
use corv_client.Profile.Import.Match.{Block, or_text}
use corv_client.Profile.Import.Jump.{ImportJump, parse_import_jump, resolve_jump_host}
use corv_client.Profile.Import.Agree.{
  hop_of_import, hop_of_transport, parse_import_jump-eq-parse_jump_host,
}
use corv_client.Profile.Import.RoundTrip.{IsHostByte, parse_jump_host-format_jump}

-- The hop that the transport reads from a specification, with the gaps filled from the alias's block:
-- what the specification says itself is kept.
abbrev pub filled : JumpHost → Block → JumpHost
filled h block =
    hop (or_text h.user block.user)
      (or_text block.host_name h.host, if not (eq_ℤ h.port (pos 0)) then h.port else block.port)

-- The endpoint of a hop can be written.
pub record IsWritable (h : JumpHost) : Type 0 where
  pub host_bytes : All IsHostByte h.host
  pub some_host : is_empty h.host ≡ false
  pub port : (n : ℕ) × (h.port ≡ pos n) × (n ≤ 65535)

-- What the import made of a text that the transport accepts.
import_of_hop :
    (o : Option ImportJump) (h : JumpHost)
    → hop_of_import o ≡ some (h, not (eq_ℤ h.port (pos 0)))
    → (j : ImportJump) × (o ≡ some j)
      × (hop j.user (j.host, j.port) ≡ h)
      × (j.has_port ≡ not (eq_ℤ h.port (pos 0)))
import_of_hop none h e = cc e
import_of_hop (some j) h e = (j, refl, cc e, cc e)

-- When the transport accepts a jump host and its host is an alias of the configuration, the
-- specification that the import writes in its place is accepted too, and gives the same hop with
-- user, host and port filled in from the alias's block; provided that this endpoint can be written.
pub parse_jump_host-resolve_jump_host :
    (aliases : Assoc Block) (spec : Bytes) (h : JumpHost) (block : Block)
    → parse_jump_host spec ≡ ok h
    → lookup h.host aliases ≡ some block
    → IsWritable (filled h block)
    → parse_jump_host (resolve_jump_host aliases spec) ≡ ok (filled h block)
unfolding resolve_jump_host
parse_jump_host-resolve_jump_host aliases spec h block accepted found w =
    let both = parse_import_jump-eq-parse_jump_host spec ∙ ap hop_of_transport accepted in
    let (j, e, same, flag) = import_of_hop (parse_import_jump spec) h both in
    let (n, port, small) = w.port in
    let host : j.host ≡ h.host = ap (λ (x : JumpHost). x.host) same in
    let user : j.user ≡ h.user = ap (λ (x : JumpHost). x.user) same in
    let number : j.port ≡ h.port = ap (λ (x : JumpHost). x.port) same in
    let entry : lookup j.host aliases ≡ some block =
      ap (λ (k : Bytes). lookup k aliases) host ∙ found in
    rw (e, entry, host, user, number, flag, port)
      (parse_jump_host-format_jump _ _ n w.host_bytes w.some_host small)
