-- ===== src/Profile/Import/Jump.antt =====
-- internal/profile/import.go: ProxyJump specifications whose hosts are aliases of the same file.
use corv_client.Prelude.{
  ℕ, zero, suc, ◌+◌, ◌-◌, Bool, true, false, not, ◌&&◌, ◌||◌, List, [], ◌∷◌, ◌++◌, Bytes, codes,
  Option, none, some, ltb, ◌==◌, if◌then◌else◌, is_empty, take, drop,
}
use corv_client.Prelude.Assoc.{Assoc, lookup}
use corv_client.Prelude.Int.{ℤ, pos, negsuc}
use corv_client.Go.Strings.{trim_space, split, join, has_prefix, has_suffix, index_byte}
use corv_client.Go.Strings.Search.{last_index, count_byte, cut, equal_fold, has_byte}
use corv_client.Go.Numbers.{parse_int, decimal}
use corv_client.Profile.Import.Match.{Block, or_text}

-- `importJump`
pub record ImportJump : Type 0 where
  pub user : Bytes
  pub host : Bytes
  pub port : ℤ
  pub has_port : Bool

abbrev pub port_of : Option ℤ → Option ℤ
port_of none = none
port_of (some (negsuc n)) = none
port_of (some (pos n)) = if n == 0 || ltb 65535 n then none else some (pos n)

abbrev pub jump_at : Bytes → Bytes → Option ℤ → Option ImportJump
jump_at user host none = none
jump_at user host (some port) =
    some (record { user = user; host = host; port = port; has_port = true })

abbrev pub jump_without_port : Bytes → Bytes → ImportJump
jump_without_port user host = record { user = user; host = host; port = pos 0; has_port = false }

unfoldable pub bracket_jump_rest : Bytes → Bytes → Bytes → Option ImportJump
unfolding parse_int
bracket_jump_rest user host [] = some (jump_without_port user host)
bracket_jump_rest user host (c ∷ rest) =
    if c == b':' then jump_at user host (port_of (parse_int rest)) else none

unfoldable pub bracket_jump : Bytes → Bytes → Option ℕ → Option ImportJump
unfolding bracket_jump_rest
bracket_jump user spec none = none
bracket_jump user spec (some end) =
    let host = take (end - 1) (drop 1 spec) in
    if is_empty host then none else bracket_jump_rest user host (drop (end + 1) spec)

abbrev pub cut_jump : Bytes → Bytes → Option (Bytes × Bytes) → Option ImportJump
cut_jump user spec none = some (jump_without_port user spec)
cut_jump user spec (some (host, text)) =
    if is_empty host then none else jump_at user host (port_of (parse_int text))

unfoldable pub plain_jump : Bytes → Bytes → Option ImportJump
unfolding parse_int
plain_jump user spec =
    if ltb 1 (count_byte b':' spec) then none else cut_jump user spec (cut b':' spec)

unfoldable pub read_jump : Bytes → Bytes → Option ImportJump
unfolding bracket_jump plain_jump
read_jump user [] = none
read_jump user (c ∷ spec) =
    if c == b'['
    then bracket_jump user (c ∷ spec) (index_byte b']' (c ∷ spec))
    else plain_jump user (c ∷ spec)

abbrev pub jump_with_user : Bytes → Option ℕ → Option ImportJump
jump_with_user spec none = read_jump [] spec
jump_with_user spec (some at) =
    if at == 0 then none else read_jump (take at spec) (drop (at + 1) spec)

-- `parseImportJump`
unfoldable pub parse_import_jump : Bytes → Option ImportJump
unfolding read_jump
parse_import_jump [] = none
parse_import_jump (c ∷ spec) = jump_with_user (c ∷ spec) (last_index b'@' (c ∷ spec))

unfoldable pub bracketed : Bytes → Bytes
unfolding has_byte has_prefix has_suffix
bracketed host =
    if has_byte b':' host && not (has_prefix host (b'[' ∷ []) && has_suffix host (b']' ∷ []))
    then b'[' ∷ (host ++ b']' ∷ [])
    else host

abbrev pub with_user : Bytes → Bytes → Bytes
with_user user s = if is_empty user then s else user ++ b'@' ∷ s

abbrev pub at_port : ℤ → Bytes → Bytes
at_port (negsuc n) s = s
at_port (pos zero) s = s
at_port (pos (suc n)) s = s ++ b':' ∷ decimal (suc n)

-- `formatJump`
unfoldable pub format_jump : Bytes → Bytes → ℤ → Bytes
unfolding bracketed decimal
format_jump user host port = at_port port (with_user user (bracketed host))

abbrev pub named_jump : ImportJump → Block → Bytes
named_jump jump block =
    format_jump (or_text jump.user block.user) (or_text block.host_name jump.host)
      (if jump.has_port then jump.port else block.port)

abbrev pub resolve_block : Bytes → ImportJump → Option Block → Bytes
resolve_block spec jump none = spec
resolve_block spec jump (some block) = named_jump jump block

abbrev pub resolve_jump : Bytes → Assoc Block → Option ImportJump → Bytes
resolve_jump spec aliases none = spec
resolve_jump spec aliases (some jump) = resolve_block spec jump (lookup jump.host aliases)

-- `resolveJumpHost`
unfoldable pub resolve_jump_host : Assoc Block → Bytes → Bytes
unfolding parse_import_jump lookup format_jump
resolve_jump_host aliases spec = resolve_jump spec aliases (parse_import_jump spec)

unfoldable pub resolve_jumps : Assoc Block → List Bytes → List Bytes
unfolding resolve_jump_host
resolve_jumps aliases [] = []
resolve_jumps aliases (part ∷ parts) =
    resolve_jump_host aliases (trim_space part) ∷ resolve_jumps aliases parts

-- `resolveProxyJump`
unfoldable pub resolve_proxy_jump : Assoc Block → Bytes → Bytes
unfolding resolve_jumps
resolve_proxy_jump aliases spec =
    let spec = trim_space spec in
    if is_empty spec || equal_fold spec (codes "none")
    then []
    else join (b',' ∷ []) (resolve_jumps aliases (split b',' spec))
