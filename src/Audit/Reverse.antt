-- ===== src/Audit/Reverse.antt =====
-- The scan from the end sees the lines of the log from the last to the first, whatever its blocks.
use corv_client.Prelude.{
  ℕ, zero, suc, ◌+◌, ◌-◌, ◌≤◌, ◌<◌, ◌≡◌, refl, sym, ap, ◌∙◌, Bool, true, false, List, [], ◌∷◌, ◌++◌,
  append-nil, append_assoc, Bytes, some, arith, if◌then◌else◌, take, drop, length, min, take_all,
  inl, inr, Bool-cases,
}
use corv_client.Prelude.Result.{Result, ok}
use corv_client.Audit.{Entry, Codec}
use corv_client.Audit.Scan.{
  ReadError, ReadAt, Pending, Step, stopped, going, next_line, scan_block, keep_segment, end_scan,
  scan_blocks, scan_entries_reverse,
}
use corv_client.Audit.Lines.{lines_back, lines_back_one, visit_whole, visit_lines, visit_whole-long}
use corv_client.Audit.Block.{
  Holds, Holds-next_line, visit_line-whole, Scanned, scan_block-Scanned, keep_segment-Holds,
}

module _ ⦃codec : Codec⦄ {S : Type 0} (max_line : ℕ) (visit : Entry → S → S × Bool) where
  abbrev told : S × Bool → S × Bool
  told x = if x.1 then (x.0, true) else (x.0, false)

  first_of : (x : S × Bool) → (told x).0 ≡ x.0
  first_of (s, true) = refl
  first_of (s, false) = refl

  visit_lines_one :
      (t : Bytes) (s : S)
      → (visit_lines max_line visit (t ∷ []) s).0 ≡ (visit_whole max_line visit t s).0
  unfolding visit_lines
  visit_lines_one t s = first_of (visit_whole max_line visit t s)

  end_scan-lines :
      (t : Bytes) (r : Pending S)
      → Holds max_line visit t r
      → end_scan max_line visit r ≡ (visit_lines max_line visit (lines_back t) r.seen).0
  unfolding end_scan
  end_scan-lines t r h =
      let one =
        ap (λ (ls : List Bytes). (visit_lines max_line visit ls r.seen).0)
          (lines_back_one t h.plain)
        ∙ visit_lines_one t r.seen in
      elim (Bool-cases r.dropping_oversized) [
        | inl d ↦ rw d (
            sym (
              one
              ∙ ap (λ (x : S × Bool). x.0)
                  (visit_whole-long max_line visit t r.seen (h.dropped d))))
        | inr d ↦
            rw d (ap (λ (x : S × Bool). x.0) (visit_line-whole max_line visit [] t r h d) ∙ sym one)
      ]

  le_self : (n : ℕ) → n ≤ n
  le_self n = omega arith

  take-split : (a b : ℕ) (s : Bytes) → take (a + b) s ≡ take a s ++ take b (drop a s)
  take-split zero b s = let e : 0 + b ≡ b = omega arith in rw e refl
  take-split (suc a) b [] =
      let e : suc a + b ≡ suc (a + b) = omega arith in
      rw (e, take_all {A = ℕ} b [] (omega arith)) refl
  take-split (suc a) b (x ∷ s) =
      let e : suc a + b ≡ suc (a + b) = omega arith in
      rw e (ap (λ (t : Bytes). x ∷ t) (take-split a b s))

  module _ (block_size : ℕ) (read_at : ReadAt) (content : Bytes) (sized : 0 < block_size)
      (reads : (at n : ℕ)
        → at + n ≤ length content
        → read_at at n ≡ some (take n (drop at content))) where
    -- What follows a block, by what the block came to.
    after_block : ℕ → ℕ → Step S → Result ReadError S
    after_block f at (stopped s) = ok s
    after_block f at (going r end) =
        scan_blocks max_line visit block_size read_at f at (keep_segment max_line visit r end)

    after_block-lines :
        (f at : ℕ) (all : Bytes) (s : S)
        → ((t : Bytes) (r : Pending S)
            → Holds max_line visit t r
            → scan_blocks max_line visit block_size read_at f at r
              ≡ ok (visit_lines max_line visit (lines_back (take at content ++ t)) r.seen).0)
        → (st : Step S) → Scanned max_line visit (take at content) all s st
        → after_block f at st
          ≡ ok (visit_lines max_line visit (lines_back (take at content ++ all)) s).0
    unfolding after_block
    after_block-lines f at all s ih (stopped s') h = ap ok (sym h)
    after_block-lines f at all s ih (going r end) (t, holds, plain, same) =
        let (kept, seen) = keep_segment-Holds max_line visit t end r holds plain in
        ih (end ++ t) (keep_segment max_line visit r end) kept
        ∙ ap
            (λ (u : S).
              ok (visit_lines max_line visit (lines_back (take at content ++ (end ++ t))) u).0)
            seen
        ∙ ap (λ (x : S × Bool). ok x.0) same

    scan_blocks-lines :
        (f q : ℕ) (t : Bytes) (r : Pending S)
        → q ≤ f
        → q ≤ length content
        → Holds max_line visit t r
        → scan_blocks max_line visit block_size read_at f q r
          ≡ ok (visit_lines max_line visit (lines_back (take q content ++ t)) r.seen).0
    unfolding scan_blocks after_block
    scan_blocks-lines zero zero t r h inside holds = ap ok (end_scan-lines t r holds)
    scan_blocks-lines zero (suc q) t r h inside holds = absurd (omega arith)
    scan_blocks-lines (suc f) zero t r h inside holds = ap ok (end_scan-lines t r holds)
    scan_blocks-lines (suc f) (suc q) t r h inside holds =
        let size = min block_size (suc q) in
        let at = suc q - size in
        let pre = take at content in
        let block = take size (drop at content) in
        let got : read_at at size ≡ some block = reads at size (omega arith) in
        let both : at + size ≡ suc q = omega arith in
        let shape : pre ++ (block ++ t) ≡ take (suc q) content ++ t =
          sym (append_assoc pre block t)
          ∙ ap (λ (b : Bytes). b ++ t)
              (sym (take-split at size content) ∙ ap (λ (n : ℕ). take n content) both) in
        let scanned =
          scan_block-Scanned max_line visit (length block) pre block t r (le_self (length block))
            holds in
        rw (scan_blocks, got)
          (after_block-lines f at (block ++ t) r.seen
              (λ t' r' h'. scan_blocks-lines f at t' r' (omega arith) (omega arith) h')
              (scan_block max_line visit (length block) block r) scanned
            ∙ ap (λ (b : Bytes). ok (visit_lines max_line visit (lines_back b) r.seen).0) shape)

    -- The scan of a file from its end, in blocks of any size, gives the visitor the lines of the file
    -- one by one, the last one first, until it has enough, and passes over lines longer than the limit.
    pub scan_entries_reverse-lines :
        (s : S)
        → scan_entries_reverse max_line visit block_size read_at (length content) s
          ≡ ok (visit_lines max_line visit (lines_back content) s).0
    unfolding scan_entries_reverse
    scan_entries_reverse-lines s =
        scan_blocks-lines (length content) (length content) [] (next_line max_line visit s)
          (le_self (length content)) (le_self (length content)) (Holds-next_line max_line visit s)
        ∙ ap (λ (b : Bytes). ok (visit_lines max_line visit (lines_back b) s).0)
            (append-nil (take (length content) content)
              ∙ take_all (length content) content (le_self (length content)))
