-- ===== src/Output/Filter.antt =====
-- internal/output/filter.go: the filter that resolves terminal control bytes and keeps a head and a
-- tail of the lines. The sizes of `Options` are never negative in the program, so they are ℕ, and
-- the test `<= 0` is `== 0`. The proofs are in the modules below.
pub mod Ring
pub mod Steps
pub mod View
pub mod Clean
pub mod Bounds
use corv_client.Prelude.{
  ℕ, zero, suc, ◌+◌, ◌-◌, ◌*◌, ◌%◌, Bool, true, false, ◌&&◌, ◌||◌, not, List, [], ◌∷◌, ◌++◌, Bytes,
  codes, length, take, drop, set, get_or, replicate, ltb, leb, ◌==◌, if◌then◌else◌, bytes_eq,
  is_empty,
}
use corv_client.Go.Strings.{trim_space, trim_right, elem}
use corv_client.Go.Numbers.{decimal}
use corv_client.Output.Patterns.{Patterns, actionable_signal}

abbrev pub default_head_lines : ℕ
default_head_lines = 40

abbrev pub default_tail_lines : ℕ
default_tail_lines = 120

abbrev pub default_max_line_bytes : ℕ
default_max_line_bytes = 64 * 1024

abbrev pub unbounded_max_line_bytes : ℕ
unbounded_max_line_bytes = 20 * 1024 * 1024

abbrev pub max_signals : ℕ
max_signals = 8

pub record Options : Type 0 where
  pub head_lines : ℕ
  pub tail_lines : ℕ
  pub max_line_bytes : ℕ
  pub max_bytes : ℕ
  pub unbounded : Bool

abbrev pub or_default : ℕ → ℕ → ℕ
or_default n d = if n == 0 then d else n

unfoldable pub with_defaults : Options → Options
with_defaults o = record o {
  head_lines = or_default o.head_lines default_head_lines;
  tail_lines = or_default o.tail_lines default_tail_lines;
  max_line_bytes =
      or_default o.max_line_bytes
        (if o.unbounded then unbounded_max_line_bytes else default_max_line_bytes);
}

pub record Filter : Type 0 where
  pub opt : Options
  pub line : Bytes
  pub col : ℕ
  pub in_esc : Bool
  pub esc : Bytes
  pub head : List Bytes
  pub tail : List Bytes
  pub tail_next : ℕ
  pub tail_len : ℕ
  pub n : ℕ
  pub signals : List Bytes
  pub signals_seen : List Bytes  -- the keys of the map

unfoldable pub new : Options → Filter
unfolding with_defaults
new o =
    let opt = with_defaults o in
    record {
      opt = opt;
      line = [];
      col = 0;
      in_esc = false;
      esc = [];
      head = [];
      tail = if opt.unbounded then [] else replicate opt.tail_lines [];
      tail_next = 0;
      tail_len = 0;
      n = 0;
      signals = [];
      signals_seen = [];
    }

-- `put`
unfoldable pub put : ℕ → Filter → Filter
put b f =
    if ltb f.col (length f.line)
    then record f { line = set f.line f.col b; col = f.col + 1 }
    else if leb f.opt.max_line_bytes (length f.line)
    then record f { col = f.col + 1 }
    else record f { line = f.line ++ b ∷ []; col = f.col + 1 }

-- The loop of `applyCSI`'s case "1".
unfoldable pub blank : ℕ → Bytes → Bytes
blank zero line = line
blank (suc n) [] = []
blank (suc n) (c ∷ line) = 32 ∷ blank n line

-- Case "", "0": cursor to end of line.
unfoldable pub erase_right : Filter → Filter
erase_right f = if ltb f.col (length f.line) then record f { line = take f.col f.line } else f

unfoldable pub apply_csi : ℕ → Filter → Filter
apply_csi final f =
    let param = drop 1 f.esc in
    if not (final == b'K')
    then f
    else if is_empty param || bytes_eq param (codes "0")
    then erase_right f
    else if bytes_eq param (codes "1")
    then record f { line = blank f.col f.line }
    else if bytes_eq param (codes "2")
    then record f { line = []; col = 0 }
    else f

unfoldable pub feed_esc : ℕ → Filter → Filter
feed_esc b f =
    let longer = record f { esc = f.esc ++ b ∷ [] } in
    if length f.esc == 0
    then (if b == b'[' then longer else record f { in_esc = false })
    else if leb 0x40 b && leb b 0x7e
    then record (apply_csi b f) { in_esc = false }
    else if ltb 32 (length longer.esc)
    then record longer { in_esc = false }
    else longer

-- What `emit` does after `scanSignal`.
unfoldable pub keep : Bytes → Filter → Filter
keep line f =
    if f.opt.unbounded
    then record f { head = f.head ++ line ∷ [] }
    else if ltb (length f.head) f.opt.head_lines
    then record f { head = f.head ++ line ∷ [] }
    else record f {
      tail = set f.tail f.tail_next line;
      tail_next = (f.tail_next + 1) % f.opt.tail_lines;
      tail_len = if ltb f.tail_len f.opt.tail_lines then f.tail_len + 1 else f.tail_len;
    }

-- The subtraction is cut off at 0, which is the `if hidden < 0`.
abbrev pub hidden_of : Filter → ℕ
hidden_of f = f.n - length f.head - f.tail_len

-- `t[:200] + "..."` of a long line.
unfoldable pub clip : Bytes → Bytes
clip t = if ltb 200 (length t) then take 200 t ++ codes "..." else t

module _ (p : Patterns) where
  unfoldable pub scan_signal : Bytes → Filter → Filter
  scan_signal line f =
      let t = trim_space line in
      if leb max_signals (length f.signals)
      then f
      else if is_empty t
      then f
      else if not (actionable_signal p t)
      then f
      else if elem t f.signals_seen
      then f
      else record f { signals_seen = t ∷ f.signals_seen; signals = f.signals ++ clip t ∷ [] }

  unfoldable pub emit : Bytes → Filter → Filter
  emit line f = keep line (scan_signal line (record f { n = f.n + 1 }))

  unfoldable pub finish_line : Filter → Filter
  finish_line f = record (emit (trim_right 32 f.line) f) { line = []; col = 0 }

  unfoldable pub feed : ℕ → Filter → Filter
  feed b f =
      if f.in_esc
      then feed_esc b f
      else if b == 0x1b
      then record f { in_esc = true; esc = [] }
      else if b == 10
      then finish_line f
      else if b == 13
      then record f { col = 0 }
      else if b == 8
      then (if ltb 0 f.col then record f { col = f.col - 1 } else f)
      else if b == 9
      then put 9 f
      else if b == 7
      then f
      else if ltb b 0x20
      then f
      else put b f

  unfoldable pub write : Bytes → Filter → Filter
  write [] f = f
  write (b ∷ bs) f = write bs (feed b f)

  unfoldable pub flush_partial : Filter → Filter
  flush_partial f = if ltb 0 (length f.line) then finish_line f else f

  -- The accessors flush, so each returns the filter too.
  unfoldable pub all_signals : Filter → Filter × List Bytes
  all_signals f = let f' = flush_partial f in (f', f'.signals)

  unfoldable pub hidden : Filter → Filter × ℕ
  hidden f = let f' = flush_partial f in (f', hidden_of f')

  unfoldable pub lines : Filter → Filter × ℕ
  lines f = let f' = flush_partial f in (f', f'.n)

-- Each line with its newline, as the loops of `String` write them.
unfoldable pub write_lines : List Bytes → Bytes
write_lines [] = []
write_lines (l ∷ ls) = (l ++ 10 ∷ []) ++ write_lines ls

abbrev pub marker : ℕ → Bytes
marker k = codes "... " ++ (decimal k ++ (codes " line(s) hidden ..." ++ 10 ∷ []))

-- The loop that reads the ring, `k` rounds from `i` on. `tail_len` is at most `tail_lines`, so the
-- index of the source is not negative.
unfoldable pub read_ring : ℕ → ℕ → Filter → List Bytes
read_ring zero i f = []
read_ring (suc k) i f =
    get_or f.tail ((f.tail_next + f.opt.tail_lines + i - f.tail_len) % f.opt.tail_lines) []
    ∷ read_ring k (i + 1) f

-- `String` after the flush.
unfoldable pub render : Filter → Bytes
render f =
    let hid = hidden_of f in
    if f.opt.unbounded
    then write_lines f.head
    else write_lines f.head
      ++ ((if ltb 0 hid then marker hid else []) ++ write_lines (read_ring f.tail_len 0 f))

-- `String`
unfoldable pub to_text : Patterns → Filter → Filter × Bytes
to_text p f = let f' = flush_partial p f in (f', render f')
