-- ===== src/Output/Process.antt =====
-- internal/output/process.go: the clean text of a stored log, and its bounded view.
pub mod Laws
pub mod Budget
use corv_client.Prelude.{
  ℕ, zero, suc, ◌+◌, ◌-◌, ◌/◌, Bool, true, false, ◌&&◌, not, List, [], ◌∷◌, ◌++◌, reverse, Bytes,
  codes, length, take, drop, get_or, ltb, leb, ◌==◌, if◌then◌else◌, is_empty,
}
use corv_client.Go.Strings.{trim_space, trim_right, split, elem}
use corv_client.Go.Utf8.{valid, to_valid, rune_start}
use corv_client.Output.Patterns.{Patterns, actionable_signal}
use corv_client.Output.Filter.{
  Options, with_defaults, new, write, to_text, write_lines, marker, clip,
}

-- `Clean`
unfoldable pub clean : Patterns → Bytes → Bytes
clean p raw =
    let text = if valid raw then raw else to_valid raw in
    let opt : Options = record {
      head_lines = 0;
      tail_lines = 0;
      max_line_bytes = 0;
      max_bytes = 0;
      unbounded = true;
    } in
    (to_text p (write p text (new opt))).1

-- The first loop of `boundBytes`: how many lines the head takes, `used` bytes and `count` lines on.
unfoldable pub head_count : ℕ → List Bytes → ℕ → ℕ → ℕ
head_count half [] used count = count
head_count half (l ∷ ls) used count =
    if ltb half (used + (length l + 1)) && ltb 0 count
    then count
    else head_count half ls (used + (length l + 1)) (count + 1)

-- The second loop walks the lines behind the head from the last one on; it has the same tests.
unfoldable pub tail_count : ℕ → List Bytes → ℕ
tail_count half rest = head_count half (reverse rest) 0 0

-- The loop of `cutHead`.
unfoldable pub cut_at : Bytes → ℕ → ℕ
cut_at s zero = 0
cut_at s (suc n) = elim (rune_start (get_or s (suc n) 0)) [ true ↦ suc n | false ↦ cut_at s n ]

unfoldable pub cut_head : Bytes → ℕ → Bytes
cut_head s n = if leb (length s) n then s else take (cut_at s n) s

-- The loop of `cutTail`.
unfoldable pub skip_rune : Bytes → Bytes
skip_rune [] = []
skip_rune (c ∷ s) = if rune_start c then c ∷ s else skip_rune s

unfoldable pub cut_tail : Bytes → ℕ → Bytes
cut_tail s n = if leb (length s) n then s else skip_rune (drop (length s - n) s)

abbrev pub trimmed_marker : Bytes
trimmed_marker = 10 ∷ (codes "... output trimmed ..." ++ 10 ∷ [])

unfoldable pub bound_bytes : Bytes → Bytes → ℕ → Bytes
bound_bytes full trimmed max =
    let ls = split 10 trimmed in
    let half = max / 2 in
    let head_end = head_count half ls 0 0 in
    let tail_start = length ls - tail_count half (drop head_end ls) in
    if leb (length trimmed) max
    then full
    else if ltb 0 (tail_start - head_end)
    then write_lines (take head_end ls)
      ++ (marker (tail_start - head_end) ++ write_lines (drop tail_start ls))
    else cut_head trimmed half ++ (trimmed_marker ++ cut_tail trimmed half)

-- `Bound`
unfoldable pub bound : Bytes → Options → Bytes
bound text opt =
    let o = with_defaults opt in
    let trimmed = trim_right 10 text in
    let ls = split 10 trimmed in
    let hidden = length ls - o.head_lines - o.tail_lines in
    if opt.unbounded
    then text
    else if is_empty trimmed
    then []
    else if ltb 0 o.max_bytes
    then bound_bytes text trimmed o.max_bytes
    else if leb (length ls) (o.head_lines + o.tail_lines)
    then text
    else write_lines (take o.head_lines ls)
      ++ (marker hidden ++ write_lines (drop (length ls - o.tail_lines) ls))

-- The loop of `Signals`: the keys of `seen`, the lines so far. The test on `max` follows the append.
unfoldable pub signals_from : Patterns → ℕ → List Bytes → List Bytes → List Bytes → List Bytes
signals_from p max [] seen out = out
signals_from p max (l ∷ ls) seen out =
    let t = trim_space l in
    let skip = signals_from p max ls seen out in
    let out' = out ++ clip t ∷ [] in
    let more = signals_from p max ls (t ∷ seen) out' in
    if is_empty t
    then skip
    else if not (actionable_signal p t)
    then skip
    else if elem t seen
    then skip
    else if leb max (length out')
    then out'
    else more

-- `Signals`
unfoldable pub signals : Patterns → Bytes → ℕ → List Bytes
signals p text max = signals_from p max (split 10 text) [] []
