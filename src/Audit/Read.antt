-- ===== src/Audit/Read.antt =====
-- internal/audit/audit.go: the scan from the start, and `Read`.
use corv_client.Prelude.{
  ℕ, zero, suc, ◌+◌, Bool, true, false, not, ◌&&◌, ◌||◌, List, [], ◌∷◌, ◌++◌, reverse, Bytes,
  Option, none, some, ltb, leb, if◌then◌else◌, is_empty, bytes_eq, take, drop, length,
}
use corv_client.Prelude.Result.{Result, ok, err}
use corv_client.Go.Strings.{index_byte}
use corv_client.Audit.{Entry, Codec, trim_suffix}
use corv_client.Audit.Scan.{ReadError, ReadAt, scan_entries_reverse}

-- How `ReadSlice` ended a fragment.
pub data Ending : Type 0 where
  line_feed : Ending
  buffer_full : Ending
  end_of_file : Ending

-- `bufio.Reader.ReadSlice('\n')` with a buffer of that size: the fragment, how it ended, the rest.
unfoldable pub read_slice : ℕ → Bytes → Bytes × Ending × Bytes
unfolding index_byte
read_slice buffer s = elim (index_byte 10 (take buffer s)) [
  | some i ↦ (take (suc i) s, line_feed, drop (suc i) s)
  | none ↦
      if leb buffer (length s)
      then (take buffer s, buffer_full, drop buffer s)
      else (s, end_of_file, [])
]

module _ ⦃codec : Codec⦄ {S : Type 0} (max_line buffer : ℕ) (visit : Entry → S → S) where
  abbrev visit_some : Option Entry → S → S
  visit_some none s = s
  visit_some (some e) s = visit e s

  -- The line that a fragment completes, unless it is oversized.
  unfoldable pub finish_line : Bytes → Bool → S → S
  unfolding trim_suffix
  finish_line line oversized s =
      if not oversized && not (is_empty line)
      then visit_some (codec.unmarshal (trim_suffix 13 (trim_suffix 10 line))) s
      else s

  -- `line` and `oversized` after a fragment
  unfoldable pub add_fragment : Bytes → Bool → Bytes → Bytes × Bool
  add_fragment line oversized fragment =
      if oversized
      then (line, oversized)
      else if ltb max_line (length line + length fragment)
      then ([], true)
      else (line ++ fragment, false)

  -- `scanEntries`: one round for each fragment; all but the last have a byte.
  unfoldable pub scan_from : ℕ → Bytes → Bytes → Bool → S → S
  unfolding read_slice finish_line add_fragment
  scan_from zero input line oversized s = s
  scan_from (suc f) input line oversized s =
      let (fragment, ending, rest) = read_slice buffer input in
      let (line', oversized') = add_fragment line oversized fragment in
      elim ending [
        | buffer_full ↦ scan_from f rest line' oversized' s
        | line_feed ↦ scan_from f rest [] false (finish_line line' oversized' s)
        | end_of_file ↦ finish_line line' oversized' s
      ]

  unfoldable pub scan_entries : Bytes → S → S
  unfolding scan_from
  scan_entries input s = scan_from (length input + 1) input [] false s

-- `profile == "" || entry.Profile == profile`
unfoldable pub is_of : Bytes → Entry → Bool
unfolding bytes_eq
is_of profile e = is_empty profile || bytes_eq e.profile profile

-- The visitor of `Read` with a tail, and the one without.
unfoldable pub take_entry : Bytes → ℕ → Entry → List Entry → List Entry × Bool
unfolding is_of
take_entry profile tail e entries =
    let entries' = if is_of profile e then entries ++ e ∷ [] else entries in
    (entries', ltb (length entries') tail)

unfoldable pub collect_entry : Bytes → Entry → List Entry → List Entry
unfolding is_of
collect_entry profile e entries = if is_of profile e then entries ++ e ∷ [] else entries

abbrev reversed : Result ReadError (List Entry) → Result ReadError (List Entry)
reversed (err e) = err e
reversed (ok entries) = ok (reverse entries)

module _ ⦃codec : Codec⦄ (max_line block_size buffer : ℕ) (read_at : ReadAt) where
  -- `Log.read` of a file with that content; a tail that is not positive is 0.
  unfoldable pub read_content : Bytes → Bytes → ℕ → Result ReadError (List Entry)
  unfolding scan_entries scan_entries_reverse take_entry collect_entry
  read_content content profile zero =
      ok (scan_entries max_line buffer (collect_entry profile) content [])
  read_content content profile (suc n) = reversed (
      scan_entries_reverse max_line (take_entry profile (suc n)) block_size read_at (length content)
        [])

  -- `Log.Read`: a file that is not there has no entries.
  unfoldable pub read_log : Option Bytes → Bytes → ℕ → Result ReadError (List Entry)
  unfolding read_content
  read_log none profile tail = ok []
  read_log (some content) profile tail = read_content content profile tail
