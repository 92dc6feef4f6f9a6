-- ===== src/Profile/Import.antt =====
-- internal/profile/import.go: connections from an OpenSSH client configuration.
pub mod Match
pub mod Config
pub mod Ends
pub mod Names
pub mod First
pub mod Agree
pub mod Chain
pub mod RoundTrip
pub mod Jump
use corv_client.Prelude.{
  ℕ, zero, suc, ◌+◌, ◌-◌, Bool, true, false, not, ◌&&◌, ◌||◌, List, [], ◌∷◌, ◌++◌, Bytes, codes,
  Option, none, some, ltb, leb, ◌==◌, if◌then◌else◌, is_empty, take, drop, length, bytes_eq,
}
use corv_client.Prelude.Assoc.{Assoc, lookup, put}
use corv_client.Prelude.Int.{ℤ, pos, eq_ℤ}
use corv_client.Prelude.Result.{Result, ok, err, ◌>>=◌}
use corv_client.Go.Strings.{trim_space, fields, split, has_prefix, has_suffix, elem}
use corv_client.Go.Strings.Search.{Letters, to_lower, contains_any, trim_left, trim, has_byte}
use corv_client.Go.Numbers.{parse_int}
use corv_client.Profile.Import.Match.{Block, empty_block, or_text, or_port}

-- What the import asks of the file system, and of `path/filepath` on the platform at hand.
pub record Files : Type 0 where
  pub home : Option Bytes  -- os.UserHomeDir
  pub abs : Bytes → Option Bytes  -- filepath.Abs
  pub is_abs : Bytes → Bool
  pub dir : Bytes → Bytes
  pub join_path : Bytes → Bytes → Bytes
  pub glob : Bytes → List Bytes  -- filepath.Glob, nothing for an error
  pub read : Bytes → Option Bytes  -- what is in a file, `none` if it cannot be opened

pub data ImportError : Type 0 where
  no_home : ImportError
  cannot_open : Bytes → ImportError
  line_too_long : ImportError
  nested_too_deep : ImportError

abbrev pub key_space : Bytes
key_space = 32 ∷ (9 ∷ (b'=' ∷ []))

-- The bytes before the first of a set.
before_any : Bytes → Bytes → Bytes
before_any set [] = []
before_any set (c ∷ s) = let rest = before_any set s in if has_byte c set then [] else c ∷ rest

from_any : Bytes → Bytes → Bytes
from_any set [] = []
from_any set (c ∷ s) = let rest = from_any set s in if has_byte c set then c ∷ s else rest

abbrev quoted_by : ℕ → Bytes → Bool
quoted_by q p = leb 2 (length p) && has_prefix p (q ∷ []) && has_suffix p (q ∷ [])

-- `TrimPath`: one pair of matching quotes goes, and what is in them stays as it is.
unfoldable pub trim_path : Bytes → Bytes
unfolding trim_space has_prefix has_suffix
trim_path text =
    let p = trim_space text in
    if quoted_by b'"' p || quoted_by b'\'' p then take (length p - 2) (drop 1 p) else p

-- `splitConfigLine`
unfoldable pub split_config_line : Bytes → Bytes × Bytes
unfolding before_any from_any
split_config_line line = if is_empty (from_any key_space line) then (line, []) else (
  trim_space (before_any key_space line),
  trim (b'"' ∷ []) (trim_space (trim_left key_space (from_any key_space line))),
)

-- `sshConfigParser`; `active` has the files that are being read.
pub record Parser : Type 0 where
  pub blocks : List Block
  pub current : Option Block
  pub active : List Bytes

-- `flush`
abbrev pub flush_block : List Block → Option Block → List Block
flush_block blocks none = blocks
flush_block blocks (some block) = blocks ++ block ∷ []

unfoldable pub flush : Parser → Parser
flush p = record p { blocks = flush_block p.blocks p.current; current = none }

-- `ensureCurrent`
abbrev pub block_or_any : Option Block → Block
block_or_any none = empty_block (codes "*" ∷ [])
block_or_any (some block) = block

unfoldable pub update_current : (Block → Block) → Parser → Parser
update_current f p = record p { current = some (f (block_or_any p.current)) }

abbrev pub port_value : Option ℤ → ℤ
port_value none = pos 0
port_value (some port) = port

module _ ⦃l : Letters⦄ ⦃fs : Files⦄ where
  -- `expandHome`
  unfoldable pub expand_home : Bytes → Bytes
  expand_home p =
      if has_prefix p (codes "~/")
      then elim fs.home [ none ↦ p | some home ↦ fs.join_path home (drop 2 p) ]
      else p

  -- The patterns of an Include: beside the file, and in ~/.ssh.
  abbrev in_ssh_home : Bytes → Option Bytes → List Bytes
  in_ssh_home pattern none = []
  in_ssh_home pattern (some home) = fs.join_path (fs.join_path home (codes ".ssh")) pattern ∷ []

  include_patterns : Bytes → Bytes → List Bytes
  include_patterns base pattern =
      if fs.is_abs pattern
      then pattern ∷ []
      else fs.join_path base pattern ∷ in_ssh_home pattern fs.home

  abbrev pub absolute : Bytes → Bytes
  absolute path = elim (fs.abs path) [ none ↦ path | some abs ↦ abs ]

  add_matches : List Bytes → List Bytes → List Bytes
  unfolding elem
  add_matches [] matches = matches
  add_matches (m ∷ globbed) matches =
      add_matches globbed
        (if elem (absolute m) matches then matches else matches ++ absolute m ∷ [])

  all_matches : List Bytes → List Bytes → List Bytes
  unfolding add_matches
  all_matches [] matches = matches
  all_matches (p ∷ patterns) matches = all_matches patterns (add_matches (fs.glob p) matches)

  -- `includeMatches`
  unfoldable pub include_matches : Bytes → Bytes → List Bytes
  unfolding expand_home include_patterns all_matches
  include_matches base pattern = all_matches (include_patterns base (expand_home pattern)) []

  -- The keywords that set a field of the current block; any other does nothing.
  unfoldable pub set_field : Bytes → Bytes → Parser → Parser
  unfolding update_current expand_home parse_int bytes_eq
  set_field key value p =
      if bytes_eq key (codes "hostname")
      then update_current (λ b. record b { host_name = or_text b.host_name value }) p
      else if bytes_eq key (codes "user")
      then update_current (λ b. record b { user = or_text b.user value }) p
      else if bytes_eq key (codes "port")
      then update_current (λ b. record b { port = or_port b.port (port_value (parse_int value)) }) p
      else if bytes_eq key (codes "identityfile")
      then update_current (λ b. record b { identity = or_text b.identity (expand_home value) }) p
      else if bytes_eq key (codes "proxyjump")
      then update_current (λ b. record b { proxy_jump = or_text b.proxy_jump value }) p
      else p

  -- A file is read by `parse`, for the files that it includes.
  module _ (parse : Bytes → Parser → Result ImportError Parser) where
    unfoldable pub parse_matches : List Bytes → Parser → Result ImportError Parser
    parse_matches [] p = ok p
    parse_matches (m ∷ matches) p = do p' ← parse m p; parse_matches matches p'

    unfoldable pub parse_includes : Bytes → List Bytes → Parser → Result ImportError Parser
    unfolding parse_matches include_matches
    parse_includes base [] p = ok p
    parse_includes base (pattern ∷ patterns) p = do
      p' ← parse_matches (include_matches base pattern) p
      parse_includes base patterns p'

    unfoldable pub parse_keyword : Bytes → Bytes → Bytes → Parser → Result ImportError Parser
    unfolding parse_includes flush set_field fields bytes_eq
    parse_keyword base key value p =
        if bytes_eq key (codes "host")
        then ok (record (flush p) { current = some (empty_block (fields value)) })
        else if bytes_eq key (codes "include")
        then parse_includes base (fields value) p
        else ok (set_field key value p)

    unfoldable pub parse_line : Bytes → Bytes → Parser → Result ImportError Parser
    unfolding parse_keyword split_config_line to_lower trim_space
    parse_line base text p =
        let line = trim_space text in
        let (key, value) = split_config_line line in
        if is_empty line || has_prefix line (b'#' ∷ [])
        then ok p
        else parse_keyword base (to_lower key) value p

    -- The lines of a `bufio.Scanner`: one of 64 KiB or more ends it with an error. A carriage return at
    -- the end of a line is trimmed with the white space.
    unfoldable pub parse_lines : Bytes → List Bytes → Parser → Result ImportError Parser
    unfolding parse_line
    parse_lines base [] p = ok p
    parse_lines base (line ∷ lines) p =
        if ltb (length line) 65536
        then parse_line base line p >>= (λ p'. parse_lines base lines p')
        else err line_too_long
