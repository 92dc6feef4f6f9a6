-- ===== src/Audit/Lines.antt =====
-- internal/audit/audit.go: what a visitor sees of a log, line by line from the last.
use corv_client.Prelude.{
  ℕ, ◌<◌, ◌≡◌, ◌≢◌, refl, ap, ◌∙◌, Bool, true, false, List, [], ◌∷◌, ◌++◌, reverse, Bytes, arith,
  All, ltb, if◌then◌else◌, length,
}
use mathlib.Core.List.{reverse-append}
use corv_client.Go.Strings.{split}
use corv_client.Go.Strings.Split.{split-append_sep, split_one}
use corv_client.Audit.{Entry, Codec, decode_entry}
use corv_client.Audit.Scan.{visit_entry}

-- The lines of a text, the last one first; behind a last line feed there is an empty one.
abbrev pub lines_back : Bytes → List Bytes
lines_back s = reverse (split 10 s)

pub lines_back-append :
    (a b : Bytes) → All (λ c. c ≢ 10) b → lines_back (a ++ 10 ∷ b) ≡ b ∷ lines_back a
lines_back-append a b h =
    ap (λ (xs : List Bytes). reverse xs) (split-append_sep 10 a b)
    ∙ rw (split_one 10 b h) (reverse-append (split 10 a) (b ∷ []))

pub lines_back_one : (b : Bytes) → All (λ c. c ≢ 10) b → lines_back b ≡ b ∷ []
lines_back_one b h = rw (split_one 10 b h) refl

module _ ⦃codec : Codec⦄ {S : Type 0} (max_line : ℕ) (visit : Entry → S → S × Bool) where
  -- A line that is longer than the limit is passed over.
  abbrev pub visit_whole : Bytes → S → S × Bool
  visit_whole line s =
      if ltb max_line (length line)
      then (s, true)
      else visit_entry max_line visit (decode_entry line) s

  -- One line after the other, until the visitor has enough.
  unfoldable pub visit_lines : List Bytes → S → S × Bool
  visit_lines [] s = (s, true)
  visit_lines (line ∷ lines) s =
      let (s', more) = visit_whole line s in
      let rest = visit_lines lines s' in if more then rest else (s', false)

  pub visit_whole-long :
      (line : Bytes) (s : S) → max_line < length line → visit_whole line s ≡ (s, true)
  visit_whole-long line s h = let e : ltb max_line (length line) ≡ true = ground arith in rw e refl

  pub visit_lines-more :
      (line : Bytes) (lines : List Bytes) (s s' : S)
      → visit_whole line s ≡ (s', true)
      → visit_lines (line ∷ lines) s ≡ visit_lines lines s'
  unfolding visit_lines
  visit_lines-more line lines s s' e =
      ap (λ (x : S × Bool). if x.1 then visit_lines lines x.0 else (x.0, false)) e

  pub visit_lines-enough :
      (line : Bytes) (lines : List Bytes) (s s' : S)
      → visit_whole line s ≡ (s', false)
      → visit_lines (line ∷ lines) s ≡ (s', false)
  unfolding visit_lines
  visit_lines-enough line lines s s' e =
      ap (λ (x : S × Bool). if x.1 then visit_lines lines x.0 else (x.0, false)) e
