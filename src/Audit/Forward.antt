-- ===== src/Audit/Forward.antt =====
-- The scan from the start collects the entries of all lines, where no line reaches the limit.
use corv_client.Prelude.{
  ℕ, zero, suc, ◌+◌, ◌≤◌, ◌<◌, ◌≡◌, ◌≢◌, refl, sym, ap, subst, ◌∙◌, true, false, List, [], ◌∷◌,
  ◌++◌, append-nil, append_assoc, Bytes, Option, none, some, arith, All, All-append, ltb, leb,
  leb→le, is_empty, take, drop, length, length-append, length-drop, take-append-drop, take_all, inl,
  inr, Bool-cases, Option-cases,
}
use corv_client.Go.Strings.{split, index_byte}
use corv_client.Go.Strings.Split.{split-append, split_one, split-parts, split_plain-append}
use corv_client.Go.Strings.Index.{index_byte-none, index_byte-IsFirstAt}
use corv_client.Audit.{Entry, Codec, decode_entry, trim_suffix}
use corv_client.Audit.Read.{
  read_slice, line_feed, buffer_full, end_of_file, finish_line, add_fragment, scan_from,
  scan_entries, is_of, collect_entry,
}
use corv_client.Audit.Tail.{wanted, entries_of, entries_of_cons, entries_of_one}

trim_suffix-feed : (c : ℕ) (p : Bytes) → trim_suffix c (p ++ c ∷ []) ≡ p
unfolding trim_suffix
trim_suffix-feed c [] = ground arith
trim_suffix-feed c (x ∷ []) = ground arith
trim_suffix-feed c (x ∷ y ∷ p) = ap (λ (s : Bytes). x ∷ s) (trim_suffix-feed c (y ∷ p))

trim_suffix-plain : (c : ℕ) (p : Bytes) → All (λ x. x ≢ c) p → trim_suffix c p ≡ p
unfolding trim_suffix
trim_suffix-plain c [] h = refl
trim_suffix-plain c (x ∷ []) (hx, h) = ground arith
trim_suffix-plain c (x ∷ y ∷ p) (hx, h) = ap (λ (s : Bytes). x ∷ s) (trim_suffix-plain c (y ∷ p) h)

module _ ⦃codec : Codec⦄ (profile : Bytes) (no_entry : codec.unmarshal [] ≡ none)
    (max_line buffer : ℕ) (sized : 0 < buffer) where
  decode_entry-plain :
      (p : Bytes) → All (λ x. x ≢ 10) p → decode_entry p ≡ codec.unmarshal (trim_suffix 13 p)
  unfolding decode_entry
  decode_entry-plain p h = elim (Bool-cases (is_empty (trim_suffix 13 p))) [
    | inl e ↦ rw (trim_suffix-plain 10 p h, e) (sym (empty_text (trim_suffix 13 p) e))
    | inr e ↦ rw (trim_suffix-plain 10 p h, e) refl
  ]
    where
      empty_text : (t : Bytes) → is_empty t ≡ true → codec.unmarshal t ≡ none
      empty_text [] e = no_entry
      empty_text (c ∷ t) e = cc e

  abbrev found : Option Entry → List Entry → List Entry
  found none got = got
  found (some e) got = collect_entry profile e got

  finish_line-feed :
      (p : Bytes) (got : List Entry)
      → All (λ x. x ≢ 10) p
      → finish_line max_line buffer (collect_entry profile) (p ++ 10 ∷ []) false got
        ≡ found (decode_entry p) got
  unfolding finish_line
  finish_line-feed p got h = rw (not_empty p, trim_suffix-feed 10 p, decode_entry-plain p h) refl
    where
      not_empty : (q : Bytes) → is_empty (q ++ 10 ∷ []) ≡ false
      not_empty [] = refl
      not_empty (c ∷ q) = refl

  finish_line-plain :
      (p : Bytes) (got : List Entry)
      → All (λ x. x ≢ 10) p
      → finish_line max_line buffer (collect_entry profile) p false got ≡ found (decode_entry p) got
  unfolding finish_line
  finish_line-plain [] got h =
      let nothing : decode_entry [] ≡ none = unfold decode_entry trim_suffix in refl in
      rw nothing refl
  finish_line-plain (c ∷ p) got h =
      rw (decode_entry-plain (c ∷ p) h, trim_suffix-plain 10 (c ∷ p) h) refl

  found-wanted : (o : Option Entry) (got : List Entry) → found o got ≡ got ++ wanted profile o
  unfolding wanted collect_entry
  found-wanted none got = sym (append-nil got)
  found-wanted (some e) got = elim (Bool-cases (is_of profile e)) [
    | inl t ↦ rw t refl
    | inr t ↦ rw t (sym (append-nil got))
  ]

  -- A fragment of a line that stays below the limit.
  add_fragment-fits :
      (line fragment : Bytes)
      → length line + length fragment ≤ max_line
      → add_fragment max_line buffer (collect_entry profile) line false fragment
        ≡ (line ++ fragment, false)
  unfolding add_fragment
  add_fragment-fits line fragment h =
      let fits : ltb max_line (length line + length fragment) ≡ false = ground arith in rw fits refl

  abbrev Short : List Bytes → Type 0
  Short = All (λ line. length line < max_line)

  -- The fragments of a line feed, a full buffer and the end of the file.
  read_slice-feed :
      (input : Bytes) (i : ℕ)
      → index_byte 10 (take buffer input) ≡ some i
      → read_slice buffer input ≡ (take i input ++ 10 ∷ [], line_feed, drop (suc i) input)
  unfolding read_slice
  read_slice-feed input i e =
      let (_, _, front, _) = index_byte-IsFirstAt 10 buffer input i e in
      rw (read_slice, e, front) refl

  read_slice-full :
      (input : Bytes)
      → index_byte 10 (take buffer input) ≡ none
      → leb buffer (length input) ≡ true
      → read_slice buffer input ≡ (take buffer input, buffer_full, drop buffer input)
  unfolding read_slice
  read_slice-full input e full = rw (read_slice, e, full) refl

  read_slice-end :
      (input : Bytes)
      → index_byte 10 (take buffer input) ≡ none
      → leb buffer (length input) ≡ false
      → read_slice buffer input ≡ (input, end_of_file, [])
  unfolding read_slice
  read_slice-end input e last = rw (read_slice, e, last) refl

  abbrev collected : ℕ → Bytes → Bytes → List Entry → List Entry
  collected f input line got =
      scan_from max_line buffer (collect_entry profile) f input line false got

  abbrev Collects : ℕ → Type 0
  Collects f =
      (input line : Bytes) (got : List Entry)
      → length input < f
      → All (λ x. x ≢ 10) line
      → Short (split 10 (line ++ input))
      → collected f input line got ≡ got ++ entries_of profile (split 10 (line ++ input))

  Collects-feed :
      (f i : ℕ) (input line : Bytes) (got : List Entry)
      → index_byte 10 (take buffer input) ≡ some i
      → length input < suc f
      → All (λ x. x ≢ 10) line
      → Short (split 10 (line ++ input))
      → Collects f
      → collected (suc f) input line got ≡ got ++ entries_of profile (split 10 (line ++ input))
  unfolding scan_from
  Collects-feed f i input line got e h plain short ih =
      let (less, cut, front, before) = index_byte-IsFirstAt 10 buffer input i e in
      let p = line ++ take i input in
      let rest = drop (suc i) input in
      let no_feed = All-append (λ x. x ≢ 10) line (take i input) plain before in
      let whole : line ++ input ≡ p ++ 10 ∷ rest =
        ap (λ (t : Bytes). line ++ t) cut ∙ sym (append_assoc line (take i input) (10 ∷ rest)) in
      let parts : split 10 (line ++ input) ≡ p ∷ split 10 rest =
        ap (split 10) whole ∙ split-append 10 p rest no_feed in
      let (first, others) = subst Short parts short in
      let fits : length line + length (take i input ++ 10 ∷ []) ≤ max_line =
        omega (arith, length-append line (take i input), length-append (take i input) (10 ∷ [])) in
      let fewer : length rest < f = omega (arith, length-drop (suc i) input) in
      let more = wanted profile (decode_entry p) in
      let got' : finish_line max_line buffer (collect_entry profile)
            (line ++ (take i input ++ 10 ∷ [])) false got
          ≡ got ++ more =
        ap (λ (t : Bytes). finish_line max_line buffer (collect_entry profile) t false got)
          (sym (append_assoc line (take i input) (10 ∷ [])))
        ∙ finish_line-feed p got no_feed
        ∙ found-wanted (decode_entry p) got in
      rw
        (
          scan_from,
          read_slice-feed input i e,
          read_slice-feed input i e,
          add_fragment-fits line (take i input ++ 10 ∷ []) fits,
          got',
        )
        (ih rest [] (got ++ more) fewer tt others
          ∙ append_assoc got more (entries_of profile (split 10 rest))
          ∙ ap (λ (es : List Entry). got ++ es) (entries_of_cons profile p (split 10 rest))
          ∙ sym (ap (λ (ls : List Bytes). got ++ entries_of profile ls) parts))

  Collects-full :
      (f : ℕ) (input line : Bytes) (got : List Entry)
      → index_byte 10 (take buffer input) ≡ none
      → leb buffer (length input) ≡ true
      → length input < suc f
      → All (λ x. x ≢ 10) line
      → Short (split 10 (line ++ input))
      → Collects f
      → collected (suc f) input line got ≡ got ++ entries_of profile (split 10 (line ++ input))
  unfolding scan_from
  Collects-full f input line got e full h plain short ih =
      let front = take buffer input in
      let rest = drop buffer input in
      let size = leb→le buffer (length input) full in
      let no_feed = All-append (λ x. x ≢ 10) line front plain (index_byte-none 10 front e) in
      let same : (line ++ front) ++ rest ≡ line ++ input =
        append_assoc line front rest
        ∙ ap (λ (t : Bytes). line ++ t) (take-append-drop buffer input) in
      let (p, ps, parts) = split-parts 10 rest in
      let cut : split 10 (line ++ input) ≡ ((line ++ front) ++ p) ∷ ps =
        ap (split 10) (sym same) ∙ split_plain-append 10 (line ++ front) rest p ps no_feed parts in
      let (first, _) = subst Short cut short in
      let fits : length line + length front ≤ max_line =
        omega (arith, length-append line front, length-append (line ++ front) p) in
      let fewer : length rest < f = omega (arith, length-drop buffer input) in
      rw
        (
          scan_from,
          read_slice-full input e full,
          read_slice-full input e full,
          add_fragment-fits line front fits,
        )
        (ih rest (line ++ front) got fewer no_feed
            (subst (λ t. Short (split 10 t)) (sym same) short)
          ∙ ap (λ (t : Bytes). got ++ entries_of profile (split 10 t)) same)

  collects-end :
      (f : ℕ) (input line : Bytes) (got : List Entry)
      → index_byte 10 (take buffer input) ≡ none
      → leb buffer (length input) ≡ false
      → All (λ x. x ≢ 10) line
      → Short (split 10 (line ++ input))
      → collected (suc f) input line got ≡ got ++ entries_of profile (split 10 (line ++ input))
  unfolding scan_from
  collects-end f input line got e last plain short =
      let small : length input ≤ buffer = ground arith in
      let bare : All (λ x. x ≢ 10) input =
        subst (All (λ x. x ≢ 10)) (take_all buffer input small)
          (index_byte-none 10 (take buffer input) e) in
      let no_feed = All-append (λ x. x ≢ 10) line input plain bare in
      let one = split_one 10 (line ++ input) no_feed in
      let (first, _) = subst Short one short in
      let fits : length line + length input ≤ max_line = omega (arith, length-append line input) in
      rw
        (
          scan_from,
          read_slice-end input e last,
          read_slice-end input e last,
          add_fragment-fits line input fits,
        )
        (finish_line-plain (line ++ input) got no_feed
          ∙ found-wanted (decode_entry (line ++ input)) got
          ∙ ap (λ (es : List Entry). got ++ es) (sym (entries_of_one profile (line ++ input)))
          ∙ sym (ap (λ (ls : List Bytes). got ++ entries_of profile ls) one))

  scan_from-lines : (f : ℕ) → Collects f
  scan_from-lines zero input line got h plain short = absurd (omega arith)
  scan_from-lines (suc f) input line got h plain short =
      elim (Option-cases (index_byte 10 (take buffer input))) [
        | inr (i, e) ↦ Collects-feed f i input line got e h plain short (scan_from-lines f)
        | inl e ↦ elim (Bool-cases (leb buffer (length input))) [
          | inl full ↦ Collects-full f input line got e full h plain short (scan_from-lines f)
          | inr last ↦ collects-end f input line got e last plain short
        ]
      ]

  pub scan_entries-lines :
      (content : Bytes)
      → Short (split 10 content)
      → scan_entries max_line buffer (collect_entry profile) content []
        ≡ entries_of profile (split 10 content)
  unfolding scan_entries
  scan_entries-lines content short =
      scan_from-lines (length content + 1) content [] [] (omega arith) tt short
