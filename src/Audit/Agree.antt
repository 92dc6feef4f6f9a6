-- ===== src/Audit/Agree.antt =====
-- internal/audit/audit.go: `Read` with a tail and without one, over the two scans.
use corv_client.Prelude.{
  ℕ, suc, ◌+◌, ◌-◌, ◌≤◌, ◌<◌, ◌≡◌, ap, List, [], ◌∷◌, reverse, Bytes, none, some, arith, All,
  All-reverse, take, drop, length,
}
use corv_client.Prelude.Result.{ok}
use corv_client.Go.Strings.{split}
use corv_client.Audit.{Entry, Codec}
use corv_client.Audit.Scan.{ReadAt}
use corv_client.Audit.Lines.{lines_back}
use corv_client.Audit.Reverse.{scan_entries_reverse-lines}
use corv_client.Audit.Read.{read_content, take_entry}
use corv_client.Audit.Tail.{entries_of, entries_of-reverse, visit_lines-take}
use corv_client.Audit.Forward.{scan_entries-lines}

-- The last `n` of a list.
abbrev pub last_of : ℕ → List Entry → List Entry
last_of n es = reverse (take n (reverse es))

module _ ⦃codec : Codec⦄ (max_line block_size buffer : ℕ) (read_at : ReadAt)
    (content profile : Bytes) where
  All-weaken :
      (ls : List Bytes) → All (λ l. length l < max_line) ls → All (λ l. length l ≤ max_line) ls
  All-weaken [] h = tt
  All-weaken (l ∷ ls) (hl, h) = (omega arith, All-weaken ls h)

  -- `Read` agrees with itself: where every line of the log is below the limit, `Read` without a tail
  -- gives the entries of all lines, in the order of the file and of the profile alone, and `Read` with
  -- a tail, which goes through the file from its end in blocks and stops early, gives the last of
  -- these, as many as the tail says. The blocks and the buffer have at least a byte, reads return what
  -- is in the file, and an empty text is not JSON.
  pub read_content-agrees :
      (n : ℕ)
      → codec.unmarshal [] ≡ none
      → 0 < block_size
      → 0 < buffer
      → ((at n : ℕ) → at + n ≤ length content → read_at at n ≡ some (take n (drop at content)))
      → All (λ line. length line < max_line) (split 10 content)
      → (read_content max_line block_size buffer read_at content profile 0
          ≡ ok (entries_of profile (split 10 content)))
        × (read_content max_line block_size buffer read_at content profile (suc n)
            ≡ ok (last_of (suc n) (entries_of profile (split 10 content))))
  unfolding read_content
  read_content-agrees n no_entry blocks sized reads short = (
    ap ok (scan_entries-lines profile no_entry max_line buffer sized content short),
    let lines = split 10 content in
        let fits = All-reverse (λ l. length l ≤ max_line) lines (All-weaken lines short) in
        let scanned =
          scan_entries_reverse-lines max_line (take_entry profile (suc n)) block_size read_at
            content blocks reads [] in
        let taken =
          visit_lines-take profile max_line (suc n) (lines_back content) [] fits (omega arith) in
        let whole : suc n - 0 ≡ suc n = omega arith in
        rw (scanned, taken, whole)
          (ap (λ (es : List Entry). ok (reverse (take (suc n) es)))
            (entries_of-reverse profile lines)),
  )
