-- ===== src/Audit/Block.antt =====
-- internal/audit/audit.go: what the scan from the end does with one block.
use corv_client.Prelude.{
  ℕ, zero, suc, ◌+◌, ◌≤◌, ◌<◌, ◌≡◌, ◌≢◌, refl, sym, ap, ◌∙◌, Bool, true, false, List, [], ◌∷◌, ◌++◌,
  append-nil, append_assoc, Bytes, some, arith, All, All-append, ltb, take, drop, length,
  length-append, length-take, inl, inr, Bool-cases, Option-cases,
}
use corv_client.Go.Strings.Search.{last_index, last_index-eq_none, last_index-IsLastAt}
use corv_client.Audit.{Entry, Codec}
use corv_client.Audit.Scan.{
  concat, Pending, Step, stopped, going, visit_line, next_line, scan_block, add_segment,
  keep_segment,
}
use corv_client.Audit.Lines.{
  lines_back, lines_back-append, visit_whole, visit_lines, visit_whole-long, visit_lines-more,
  visit_lines-enough,
}

module _ ⦃codec : Codec⦄ {S : Type 0} (max_line : ℕ) (visit : Entry → S → S × Bool) where
  -- The pending segments are the text `t`, which has no line feed.
  pub record Holds (t : Bytes) (r : Pending S) : Type 0 where
    pub plain : All (λ c. c ≢ 10) t
    pub kept : r.dropping_oversized ≡ false → (concat r.segments ≡ t) × (r.segment_bytes ≡ length t)
    pub dropped : r.dropping_oversized ≡ true → max_line < length t

  pub Holds-next_line : (s : S) → Holds [] (next_line max_line visit s)
  Holds-next_line s = record { plain = tt; kept = λ h. (refl, refl); dropped = λ h. cc h }

  pub visit_line-whole :
      (p t : Bytes) (r : Pending S)
      → Holds t r
      → r.dropping_oversized ≡ false
      → visit_line max_line visit p r ≡ visit_whole max_line visit (p ++ t) r.seen
  unfolding visit_line
  visit_line-whole p t r h e =
      let (text, size) = h.kept e in
      let total : length p + r.segment_bytes ≡ length (p ++ t) =
        omega (arith, size, length-append p t) in
      rw (total, text) refl

  -- What a block came to: the visitor had enough, or what is left of the block goes on as the start of
  -- the line `t'`.
  abbrev pub Scanned : Bytes → Bytes → S → Step S → Type 0
  Scanned pre all s (stopped s') = (visit_lines max_line visit (lines_back (pre ++ all)) s).0 ≡ s'
  Scanned pre all s (going r end) =
      (t : Bytes) × Holds t r
      × All (λ c. c ≢ 10) end
      × (visit_lines max_line visit (lines_back (pre ++ (end ++ t))) r.seen
          ≡ visit_lines max_line visit (lines_back (pre ++ all)) s)

  -- A block whose last line feed is at `newline`: its last line, and what stands before it.
  Scanned-line :
      (pre block t : Bytes) (newline : ℕ)
      → last_index 10 block ≡ some newline
      → All (λ c. c ≢ 10) t
      → lines_back (pre ++ (block ++ t))
        ≡ (drop (newline + 1) block ++ t) ∷ lines_back (pre ++ take newline block)
  Scanned-line pre block t newline e plain =
      let (_, cut, last) = last_index-IsLastAt 10 block newline e in
      let front = take newline block in
      let back = drop (newline + 1) block in
      let shape : pre ++ (block ++ t) ≡ (pre ++ front) ++ 10 ∷ (back ++ t) =
        ap (λ (b : Bytes). pre ++ (b ++ t)) cut
        ∙ ap (λ (b : Bytes). pre ++ b) (append_assoc front (10 ∷ back) t)
        ∙ sym (append_assoc pre front (10 ∷ (back ++ t))) in
      ap lines_back shape
      ∙ lines_back-append (pre ++ front) (back ++ t) (All-append (λ c. c ≢ 10) back t last plain)

  Scanned-trans :
      (pre all all' : Bytes) (s s' : S) (st : Step S)
      → visit_lines max_line visit (lines_back (pre ++ all')) s'
        ≡ visit_lines max_line visit (lines_back (pre ++ all)) s
      → Scanned pre all' s' st
      → Scanned pre all s st
  Scanned-trans pre all all' s s' (stopped u) e h = sym (ap (λ (x : S × Bool). x.0) e) ∙ h
  Scanned-trans pre all all' s s' (going r end) e (t, holds, plain, same) =
      (t, holds, plain, same ∙ e)

  Scanned-front :
      (pre front : Bytes) (s : S)
      → visit_lines max_line visit (lines_back (pre ++ (front ++ []))) s
        ≡ visit_lines max_line visit (lines_back (pre ++ front)) s
  Scanned-front pre front s =
      ap (λ (b : Bytes). visit_lines max_line visit (lines_back (pre ++ b)) s) (append-nil front)

  pub scan_block-Scanned :
      (f : ℕ) (pre block t : Bytes) (r : Pending S)
      → length block ≤ f
      → Holds t r
      → Scanned pre (block ++ t) r.seen (scan_block max_line visit f block r)
  unfolding scan_block
  scan_block-Scanned zero pre [] t r h holds = (t, holds, tt, refl)
  scan_block-Scanned zero pre (c ∷ block) t r h holds = absurd (omega arith)
  scan_block-Scanned (suc f) pre block t r h holds = elim (Option-cases (last_index 10 block)) [
    | inl e ↦ rw (scan_block, e) (t, holds, last_index-eq_none 10 block e, refl)
    | inr (newline, e) ↦
        let (short, _, _) = last_index-IsLastAt 10 block newline e in
        let front = take newline block in
        let back = drop (newline + 1) block in
        let less : length front ≤ f = omega (arith, length-take newline block) in
        let lines = Scanned-line pre block t newline e holds.plain in
        let whole : visit_lines max_line visit (lines_back (pre ++ (block ++ t))) r.seen
            ≡ visit_lines max_line visit ((back ++ t) ∷ lines_back (pre ++ front)) r.seen =
          ap (λ (ls : List Bytes). visit_lines max_line visit ls r.seen) lines in
        let onward = λ (s : S) (more : visit_whole max_line visit (back ++ t) r.seen ≡ (s, true)).
          Scanned-trans pre (block ++ t) (front ++ []) r.seen s
            (scan_block max_line visit f front (next_line max_line visit s))
            (Scanned-front pre front s
              ∙ sym (
                  whole
                  ∙ visit_lines-more max_line visit (back ++ t) (lines_back (pre ++ front)) r.seen s
                      more))
            (scan_block-Scanned f pre front [] (next_line max_line visit s) less
              (Holds-next_line s)) in
        elim (Bool-cases r.dropping_oversized) [
          | inl d ↦
              let long = holds.dropped d in
              rw (scan_block, e, d)
                (onward r.seen (
                  visit_whole-long max_line visit (back ++ t) r.seen
                    (omega (arith, length-append back t))))
          | inr d ↦
              let seen = visit_line-whole back t r holds d in
              elim (Bool-cases (visit_line max_line visit back r).1) [
                | inl m ↦
                    rw (scan_block, e, d, m)
                      (onward (visit_line max_line visit back r).0
                        (sym seen ∙ ap (λ (b : Bool). ((visit_line max_line visit back r).0, b)) m))
                | inr m ↦
                    let enough : visit_whole max_line visit (back ++ t) r.seen
                        ≡ ((visit_line max_line visit back r).0, false) =
                      sym seen ∙ ap (λ (b : Bool). ((visit_line max_line visit back r).0, b)) m in
                    rw (scan_block, e, d, m)
                      (ap (λ (x : S × Bool). x.0)
                        (whole
                          ∙ visit_lines-enough max_line visit (back ++ t)
                              (lines_back (pre ++ front)) r.seen _ enough))
              ]
        ]
  ]

  -- A segment at the front of the pending text; an empty one is left out.
  add_segment-Holds :
      (t end : Bytes) (r : Pending S)
      → Holds t r
      → r.dropping_oversized ≡ false
      → (concat (add_segment max_line visit r end).segments ≡ end ++ t)
        × ((add_segment max_line visit r end).segment_bytes ≡ length (end ++ t))
        × ((add_segment max_line visit r end).dropping_oversized ≡ false)
        × ((add_segment max_line visit r end).seen ≡ r.seen)
  unfolding add_segment
  add_segment-Holds t [] r h d = let (text, size) = h.kept d in (text, size, d, refl)
  add_segment-Holds t (c ∷ end) r h d =
      let (text, size) = h.kept d in
      let some_bytes : ltb 0 (suc (length end)) ≡ true = ground arith in
      rw some_bytes
        (ap (λ (b : Bytes). (c ∷ end) ++ b) text, omega (arith, size, length-append end t), d, refl)

  pub keep_segment-Holds :
      (t end : Bytes) (r : Pending S)
      → Holds t r
      → All (λ c. c ≢ 10) end
      → Holds (end ++ t) (keep_segment max_line visit r end)
        × ((keep_segment max_line visit r end).seen ≡ r.seen)
  unfolding keep_segment
  keep_segment-Holds t end r h plain =
      let no_feed = All-append (λ c. c ≢ 10) end t plain h.plain in
      elim (Bool-cases r.dropping_oversized) [
        | inl d ↦ simp d (
          record {
            plain = no_feed;
            kept = λ e. cc (d, e);
            dropped = λ e. let long = h.dropped d in omega (arith, length-append end t);
          },
          refl,
        )
        | inr d ↦
            let (text, size, on, seen) = add_segment-Holds t end r h d in
            elim (Bool-cases (ltb max_line (add_segment max_line visit r end).segment_bytes)) [
              | inl long ↦
                  simp (d, long)
                    (
                      record {
                        plain = no_feed;
                        kept = λ e. cc e;
                        dropped = λ e. ground (arith, size, long);
                      },
                      seen,
                    )
              | inr short ↦
                  simp (d, short)
                    (
                      record {
                        plain = no_feed;
                        kept = λ e. (text, size);
                        dropped = λ e. cc (on, e);
                      },
                      seen,
                    )
            ]
      ]
