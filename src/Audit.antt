-- ===== src/Audit.antt =====
-- internal/audit/audit.go: the log of commands, one entry to a line.
pub mod Scan
pub mod Lines
pub mod Block
pub mod Reverse
pub mod Read
pub mod Tail
pub mod Forward
pub mod Agree
pub mod Complete
pub mod Once
use corv_client.Prelude.{
  ℕ, zero, suc, ◌+◌, ◌-◌, ◌*◌, Bool, true, false, not, ◌&&◌, ◌||◌, List, [], ◌∷◌, ◌++◌, reverse,
  Bytes, codes, Option, none, some, ltb, leb, ◌==◌, if◌then◌else◌, is_empty, bytes_eq, take, drop,
  length, min,
}
use corv_client.Prelude.Int.{ℤ, pos}
use corv_client.Go.Strings.{trim_space, index_byte}
use corv_client.Go.Strings.Search.{last_index}

-- `Entry`; times are what JSON keeps of them.
pub record Entry : Type 0 where
  pub started_at : Bytes
  pub finished_at : Bytes
  pub profile : Bytes
  pub target : Bytes
  pub command : Bytes
  pub exit_code : ℤ
  pub duration_ms : ℤ
  pub error : Bytes
  pub run_id : Bytes
  pub status : Bytes

abbrev pub max_logged_field : ℕ
max_logged_field = 4096

-- `truncateField`
unfoldable pub truncate_field : Bytes → ℕ → Bytes
truncate_field s max = if leb (length s) max then s else take max s ++ codes " ...[truncated]"

-- `OneLine`
unfoldable pub first_line : Bytes → Bytes × Bool
unfolding index_byte
first_line cmd = elim (index_byte 10 cmd) [ none ↦ (cmd, false) | some i ↦ (take i cmd, true) ]

unfoldable pub short_line : Bytes → Bool → Bytes
unfolding trim_space
short_line cmd trimmed =
    if ltb 100 (length cmd)
    then trim_space (take 100 cmd) ++ codes " ..."
    else if trimmed
    then cmd ++ codes " ..."
    else cmd

unfoldable pub one_line : Bytes → Bytes
unfolding first_line short_line trim_space
one_line cmd =
    let text = trim_space cmd in
    let (line, trimmed) = first_line text in
    if is_empty text then [] else short_line (trim_space line) trimmed

-- `encoding/json` on an entry, without the line feed.
pub record Codec : Type 0 where
  pub marshal : Entry → Bytes
  pub unmarshal : Bytes → Option Entry

-- `bytes.TrimSuffix(line, []byte{c})`
unfoldable pub trim_suffix : ℕ → Bytes → Bytes
trim_suffix c [] = []
trim_suffix c (x ∷ []) = if x == c then [] else x ∷ []
trim_suffix c (x ∷ y ∷ s) = x ∷ trim_suffix c (y ∷ s)

module _ ⦃codec : Codec⦄ where
  -- `decodeEntry`
  unfoldable pub decode_entry : Bytes → Option Entry
  unfolding trim_suffix
  decode_entry line =
      let text = trim_suffix 13 (trim_suffix 10 line) in
      if is_empty text then none else codec.unmarshal text

  -- What `append` writes behind the file.
  unfoldable pub entry_line : Entry → Bytes
  unfolding truncate_field
  entry_line e =
      codec.marshal (record e {
        command = truncate_field e.command max_logged_field;
        error = truncate_field e.error max_logged_field;
      })
      ++ 10 ∷ []
