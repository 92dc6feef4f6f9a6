-- ===== src/Audit/Tail.antt =====
-- internal/audit/audit.go: `Read` with a tail, over the scan from the end.
use corv_client.Prelude.{
  ℕ, zero, suc, ◌-◌, ◌≤◌, ◌<◌, ◌≡◌, refl, sym, ap, ◌∙◌, Bool, false, List, [], ◌∷◌, ◌++◌, reverse,
  append-nil, append_assoc, Bytes, Option, none, some, arith, All, ltb, ltb→lt, lt→ltb, not_ltb→le,
  if◌then◌else◌, take, length, length-append, inl, inr, Bool-cases,
}
use mathlib.Core.List.{reverse-append, reverse-cons}
use corv_client.Audit.{Entry, Codec, decode_entry}
use corv_client.Audit.Scan.{visit_entry}
use corv_client.Audit.Lines.{visit_lines}
use corv_client.Audit.Read.{is_of, take_entry}

abbrev option_list : Option Entry → List Entry
option_list none = []
option_list (some e) = e ∷ []

module _ ⦃codec : Codec⦄ (profile : Bytes) where
  -- The entries that lines hold, of the profile alone.
  unfoldable pub wanted : Option Entry → List Entry
  wanted none = []
  wanted (some e) = if is_of profile e then e ∷ [] else []

  unfoldable pub entries_of : List Bytes → List Entry
  unfolding wanted
  entries_of [] = []
  entries_of (line ∷ lines) = wanted (decode_entry line) ++ entries_of lines

  entries_of-append : (ls ms : List Bytes) → entries_of (ls ++ ms) ≡ entries_of ls ++ entries_of ms
  unfolding entries_of
  entries_of-append [] ms = refl
  entries_of-append (line ∷ ls) ms =
      ap (λ (es : List Entry). wanted (decode_entry line) ++ es) (entries_of-append ls ms)
      ∙ sym (append_assoc (wanted (decode_entry line)) (entries_of ls) (entries_of ms))

  reverse-wanted : (o : Option Entry) → reverse (wanted o) ≡ wanted o
  unfolding wanted
  reverse-wanted none = refl
  reverse-wanted (some e) = elim (Bool-cases (is_of profile e)) [
    | inl t ↦ rw t refl
    | inr t ↦ rw t refl
  ]

  pub entries_of_one : (line : Bytes) → entries_of (line ∷ []) ≡ wanted (decode_entry line)
  unfolding entries_of
  entries_of_one line = append-nil (wanted (decode_entry line))

  pub entries_of_cons :
      (line : Bytes) (lines : List Bytes)
      → wanted (decode_entry line) ++ entries_of lines ≡ entries_of (line ∷ lines)
  unfolding entries_of
  entries_of_cons line lines = refl

  pub entries_of-reverse :
      (lines : List Bytes) → entries_of (reverse lines) ≡ reverse (entries_of lines)
  entries_of-reverse [] = unfold entries_of in refl
  entries_of-reverse (line ∷ lines) =
      let first = wanted (decode_entry line) in
      ap entries_of (reverse-cons line lines)
      ∙ entries_of-append (reverse lines) (line ∷ [])
      ∙ rw (entries_of_one line, entries_of-reverse lines)
          (ap (λ (es : List Entry). reverse (entries_of lines) ++ es)
              (sym (reverse-wanted (decode_entry line)))
            ∙ sym (reverse-append first (entries_of lines))
            ∙ ap (λ (es : List Entry). reverse es) (entries_of_cons line lines))

  take_none : (k : ℕ) → take {A = Entry} k [] ≡ []
  take_none zero = refl
  take_none (suc k) = refl

  take_next :
      (k : ℕ) (e : Entry) (es got : List Entry)
      → 0 < k
      → got ++ take k (e ∷ es) ≡ (got ++ e ∷ []) ++ take (k - 1) es
  take_next zero e es got h = absurd (omega arith)
  take_next (suc k) e es got h =
      let n : suc k - 1 ≡ k = omega arith in rw n (sym (append_assoc got (e ∷ []) (take k es)))

  module _ (max_line tail : ℕ) where
    -- One line that is not too long.
    visit_entry-take :
        (o : Option Entry) (got es : List Entry) (rest : List Entry → List Entry × Bool)
        → length got < tail
        → ((got' : List Entry)
            → length got' < tail
            → (rest got').0 ≡ got' ++ take (tail - length got') es)
        → (if (visit_entry max_line (take_entry profile tail) o got).1
            then rest (visit_entry max_line (take_entry profile tail) o got).0
            else ((visit_entry max_line (take_entry profile tail) o got).0, false)).0
          ≡ got ++ take (tail - length got) (wanted o ++ es)
    unfolding wanted take_entry
    visit_entry-take none got es rest less ih = ih got less
    visit_entry-take (some e) got es rest less ih =
        let size = length-append got (e ∷ []) in
        let room : 0 < tail - length got = omega arith in
        let step = take_next (tail - length got) e es got room in
        elim (Bool-cases (is_of profile e)) [
          | inl t ↦ elim (Bool-cases (ltb (length (got ++ e ∷ [])) tail)) [
            | inl more ↦
                let left : tail - length (got ++ e ∷ []) ≡ tail - length got - 1 =
                  omega (arith, size) in
                rw (t, more)
                  (ih (got ++ e ∷ []) (ltb→lt _ _ more)
                    ∙ ap (λ (n : ℕ). (got ++ e ∷ []) ++ take n es) left
                    ∙ sym step)
            | inr enough ↦
                let least = not_ltb→le _ _ enough in
                let left : tail - length got - 1 ≡ 0 = omega (arith, size) in
                rw (t, enough)
                  (sym (append-nil (got ++ e ∷ []))
                    ∙ sym (ap (λ (n : ℕ). (got ++ e ∷ []) ++ take n es) left)
                    ∙ sym step)
          ]
          | inr t ↦ rw (t, lt→ltb (length got) tail less) (ih got less)
        ]

    pub visit_lines-take :
        (lines : List Bytes) (got : List Entry)
        → All (λ line. length line ≤ max_line) lines
        → length got < tail
        → (visit_lines max_line (take_entry profile tail) lines got).0
          ≡ got ++ take (tail - length got) (entries_of lines)
    unfolding visit_lines entries_of
    visit_lines-take [] got short less =
        sym (ap (λ (es : List Entry). got ++ es) (take_none (tail - length got)) ∙ append-nil got)
    visit_lines-take (line ∷ lines) got (fits, short) less =
        let kept : ltb max_line (length line) ≡ false = ground arith in
        rw (visit_lines, kept, ← entries_of_cons line lines)
          (visit_entry-take (decode_entry line) got (entries_of lines)
            (visit_lines max_line (take_entry profile tail) lines) less
            (λ got' less'. visit_lines-take lines got' short less'))
