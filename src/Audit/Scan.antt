-- ===== src/Audit/Scan.antt =====
-- internal/audit/audit.go: the two ways through the log, from its start and from its end.
use corv_client.Prelude.{
  ℕ, zero, suc, ◌+◌, ◌-◌, Bool, true, false, List, [], ◌∷◌, ◌++◌, Bytes, Option, none, some, ltb,
  if◌then◌else◌, take, drop, length, min,
}
use corv_client.Prelude.Result.{Result, ok, err}
use corv_client.Go.Strings.Search.{last_index}
use corv_client.Audit.{Entry, Codec, decode_entry}

-- A failed read of the file.
pub data ReadError : Type 0 where
  read_failed : ReadError

-- `file.ReadAt`: offset and size
abbrev pub ReadAt : Type 0
ReadAt = ℕ → ℕ → Option Bytes

abbrev pub concat : List Bytes → Bytes
concat [] = []
concat (s ∷ rest) = s ++ concat rest

-- The variables of `scanEntriesReverse`: `segments` has the newest first, which stands first in the
-- line; `seen` is what the visitor has gathered.
pub record Pending (S : Type 0) : Type 0 where
  pub segments : List Bytes
  pub segment_bytes : ℕ
  pub dropping_oversized : Bool
  pub seen : S

pub data Step (S : Type 0) : Type 0 where
  stopped : S → Step S
  going : Pending S → Bytes → Step S  -- with what is left of the block

module _ ⦃codec : Codec⦄ {S : Type 0} (max_line : ℕ) (visit : Entry → S → S × Bool) where
  abbrev pub visit_entry : Option Entry → S → S × Bool
  visit_entry none s = (s, true)
  visit_entry (some e) s = visit e s

  -- `visitLine`
  unfoldable pub visit_line : Bytes → Pending S → S × Bool
  unfolding decode_entry
  visit_line prefix r =
      if ltb max_line (length prefix + r.segment_bytes)
      then (r.seen, true)
      else visit_entry (decode_entry (prefix ++ concat r.segments)) r.seen

  abbrev pub next_line : S → Pending S
  next_line s = record { segments = []; segment_bytes = 0; dropping_oversized = false; seen = s }

  -- The loop over the lines of a block, from the last: one round for each line feed.
  unfoldable pub scan_block : ℕ → Bytes → Pending S → Step S
  unfolding visit_line last_index
  scan_block zero block r = going r block
  scan_block (suc f) block r = elim (last_index 10 block) [
    | none ↦ going r block
    | some newline ↦
        let (s, more) = visit_line (drop (newline + 1) block) r in
        let dropped = scan_block f (take newline block) (next_line r.seen) in
        let onward = scan_block f (take newline block) (next_line s) in
        if r.dropping_oversized then dropped else if more then onward else stopped s
  ]

  unfoldable pub add_segment : Pending S → Bytes → Pending S
  add_segment r end =
      if ltb 0 (length end)
      then record r { segments = end ∷ r.segments; segment_bytes = r.segment_bytes + length end }
      else r

  -- What the start of a block leaves for the line that it ends.
  unfoldable pub keep_segment : Pending S → Bytes → Pending S
  keep_segment r end =
      if r.dropping_oversized
      then r
      else if ltb max_line (add_segment r end).segment_bytes
      then record (add_segment r end) {
        segments = [];
        segment_bytes = 0;
        dropping_oversized = true;
      }
      else add_segment r end

  unfoldable pub end_scan : Pending S → S
  unfolding visit_line
  end_scan r = if r.dropping_oversized then r.seen else (visit_line [] r).0

  module _ (block_size : ℕ) (read_at : ReadAt) where
    -- The loop over the blocks, from the end of the file; each has a byte at least.
    unfoldable pub scan_blocks : ℕ → ℕ → Pending S → Result ReadError S
    unfolding scan_block keep_segment add_segment end_scan
    scan_blocks zero position r = ok (end_scan r)
    scan_blocks (suc f) zero r = ok (end_scan r)
    scan_blocks (suc f) (suc p) r =
        let size = min block_size (suc p) in
        elim (read_at (suc p - size) size) [
          | none ↦ err read_failed
          | some block ↦ elim (scan_block (length block) block r) [
            | stopped s ↦ ok s
            | going r' end ↦ scan_blocks f (suc p - size) (keep_segment r' end)
          ]
        ]

    -- `scanEntriesReverse` of a file of that size
    unfoldable pub scan_entries_reverse : ℕ → S → Result ReadError S
    unfolding scan_blocks
    scan_entries_reverse size s = scan_blocks size size (next_line s)
