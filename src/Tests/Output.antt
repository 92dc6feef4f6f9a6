-- ===== src/Tests/Output.antt =====
-- The theorems on output at concrete inputs.
use corv_client.Prelude.{
  ◌≡◌, ◌≢◌, refl, ◌<◌, ◌≤◌, ℕ, ◌+◌, ◌-◌, ◌/◌, false, [], ◌∷◌, ◌++◌, Bytes, codes, arith, All,
  length, take, drop,
}
use Prim.{absurd}
use corv_client.Go.Strings.{split}
use corv_client.Output.Filter.{
  Options, with_defaults, new, write, to_text, lines, hidden, write_lines, marker,
}
use corv_client.Output.Filter.View.{middle_out, all_lines, to_text-eq-middle_out, hidden_lines}
use corv_client.Output.Filter.Bounds.{IsBounded, write-IsBounded, new-IsBounded}
use corv_client.Output.Filter.Clean.{IsClean, IsText, write-IsClean, new-IsClean}
use corv_client.Output.Process.{clean, cut_head, cut_tail, bound_bytes}
use corv_client.Output.Process.Budget.{IsTrimmedView, bound_bytes_view}
use corv_client.Output.Process.Laws.{
  IsBoundary, clean-IsText, cut_head-IsBoundary, cut_tail-IsBoundary, bound_bytes_over_budget,
}
use corv_client.Tests.World.{test_patterns}

-- One line at each end of the text.
abbrev two_lines : Options
two_lines = record {
  head_lines = 1;
  tail_lines = 1;
  max_line_bytes = 80;
  max_bytes = 0;
  unbounded = false;
}

-- Four lines, the last without its newline; a colour and a carriage return.
abbrev four_lines : Bytes
four_lines =
    27
    ∷ (91
        ∷ (51 ∷ (49 ∷ (109 ∷ (97 ∷ (10 ∷ (98 ∷ (10 ∷ (99 ∷ (13 ∷ (100 ∷ (10 ∷ (69 ∷ [])))))))))))))

to_text-eq-middle_out_example :
    (to_text test_patterns (write test_patterns four_lines (new two_lines))).1
    ≡ middle_out
        (with_defaults two_lines).head_lines
        (with_defaults two_lines).tail_lines
        (all_lines test_patterns two_lines four_lines)
to_text-eq-middle_out_example = to_text-eq-middle_out test_patterns two_lines four_lines refl

hidden_lines_example :
    ((lines test_patterns (write test_patterns four_lines (new two_lines))).1
      ≡ length (all_lines test_patterns two_lines four_lines))
    × ((hidden test_patterns (write test_patterns four_lines (new two_lines))).1
        ≡ length (all_lines test_patterns two_lines four_lines)
          - (with_defaults two_lines).head_lines
          - (with_defaults two_lines).tail_lines)
hidden_lines_example = hidden_lines test_patterns two_lines four_lines refl

write-IsBounded_example : IsBounded (write test_patterns four_lines (new two_lines))
write-IsBounded_example =
    write-IsBounded test_patterns four_lines (new two_lines) (new-IsBounded two_lines refl)

write-IsClean_example : IsClean (write test_patterns four_lines (new two_lines))
write-IsClean_example =
    write-IsClean test_patterns four_lines (new two_lines) (new-IsClean two_lines)

clean-IsText_example : All IsText (clean test_patterns four_lines)
clean-IsText_example = clean-IsText test_patterns four_lines

-- An `a`, and the two bytes of an e with an accent.
abbrev accented : Bytes
accented = 97 ∷ (195 ∷ (169 ∷ []))

cut_head-IsBoundary_example :
    (k : ℕ) × (cut_head accented 2 ≡ take k accented)
    × (length (cut_head accented 2) ≤ 2)
    × IsBoundary accented k
cut_head-IsBoundary_example = cut_head-IsBoundary accented 2

cut_tail-IsBoundary_example :
    (k : ℕ) × (cut_tail accented 1 ≡ drop k accented)
    × (length (cut_tail accented 1) ≤ 1)
    × IsBoundary accented k
cut_tail-IsBoundary_example = cut_tail-IsBoundary accented 1

-- Four lines of one byte.
abbrev letters : Bytes
letters = 97 ∷ (10 ∷ (98 ∷ (10 ∷ (99 ∷ (10 ∷ (100 ∷ []))))))

letters_over : 6 < length letters
letters_over = omega arith

letters_short : All (λ l. length l + 1 ≤ 6 / 2) (split 10 letters)
unfolding split
letters_short = (omega arith, (omega arith, (omega arith, (omega arith, tt))))

bound_bytes_view_example : IsTrimmedView 6 (split 10 letters) (bound_bytes letters letters 6)
bound_bytes_view_example = bound_bytes_view letters letters 6 letters_over letters_short

-- A line of six bytes.
abbrev six : Bytes
six = codes "aaaaaa"

a-no_newline : ◌≢◌ {A = ℕ} b'a' 10
a-no_newline e = absurd (omega arith)

six-no_newline : All (λ c. c ≢ 10) six
six-no_newline = (
  a-no_newline,
  (a-no_newline, (a-no_newline, (a-no_newline, (a-no_newline, (a-no_newline, tt))))),
)

six_long : 4 / 2 ≤ length six
six_long = omega arith

six_over : 4 < length (six ++ 10 ∷ (six ++ 10 ∷ six))
six_over = omega arith

bound_bytes_over_budget_example :
    bound_bytes [] (six ++ 10 ∷ (six ++ 10 ∷ six)) 4
    ≡ write_lines (six ∷ []) ++ (marker 1 ++ write_lines (six ∷ []))
bound_bytes_over_budget_example =
    bound_bytes_over_budget [] six six six 4 six-no_newline six-no_newline six-no_newline six_long
      six_long six_over
