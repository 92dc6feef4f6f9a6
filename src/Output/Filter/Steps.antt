-- ===== src/Output/Filter/Steps.antt =====
-- What each step of the filter changes, and what it leaves alone.
use corv_client.Prelude.{ℕ, ◌+◌, ◌≡◌, ◌≢◌, true, false, ◌⊎◌, Bytes, arith}
use corv_client.Output.Patterns.{Patterns}
use corv_client.Output.Filter.{
  Filter, put, erase_right, apply_csi, feed_esc, keep, scan_signal, emit, finish_line, feed,
}

-- The fields that only a finished line changes.
pub record Quiet (f g : Filter) : Type 0 where
  pub opt : g.opt ≡ f.opt
  pub head : g.head ≡ f.head
  pub tail : g.tail ≡ f.tail
  pub tail_next : g.tail_next ≡ f.tail_next
  pub tail_len : g.tail_len ≡ f.tail_len
  pub n : g.n ≡ f.n

-- The fields that an emitted line leaves alone.
pub record SameCursor (f g : Filter) : Type 0 where
  pub opt : g.opt ≡ f.opt
  pub line : g.line ≡ f.line
  pub col : g.col ≡ f.col
  pub in_esc : g.in_esc ≡ f.in_esc
  pub esc : g.esc ≡ f.esc

pub put-Quiet : (b : ℕ) (f : Filter) → Quiet f (put b f)
unfolding put
put-Quiet b f = ground arith

erase_right-Quiet : (f : Filter) → Quiet f (erase_right f)
unfolding erase_right
erase_right-Quiet f = ground arith

apply_csi-Quiet : (b : ℕ) (f : Filter) → Quiet f (apply_csi b f)
unfolding apply_csi
apply_csi-Quiet b f = ground (arith, erase_right-Quiet f)

pub feed_esc-Quiet : (b : ℕ) (f : Filter) → Quiet f (feed_esc b f)
unfolding feed_esc
feed_esc-Quiet b f = ground (arith, apply_csi-Quiet b f)

pub keep-SameCursor : (line : Bytes) (f : Filter) → SameCursor f (keep line f)
unfolding keep
keep-SameCursor line f = ground arith

module _ (p : Patterns) where
  pub scan_signal-Quiet : (line : Bytes) (f : Filter) → Quiet f (scan_signal p line f)
  unfolding scan_signal
  scan_signal-Quiet line f = ground arith

  pub scan_signal-SameCursor : (line : Bytes) (f : Filter) → SameCursor f (scan_signal p line f)
  unfolding scan_signal
  scan_signal-SameCursor line f = ground arith

  pub emit-SameCursor : (line : Bytes) (f : Filter) → SameCursor f (emit p line f)
  unfolding emit
  emit-SameCursor line f =
      let g = record f { n = f.n + 1 } in
      ground (arith, scan_signal-SameCursor line g, keep-SameCursor line (scan_signal p line g))

  -- Only a newline outside an escape sequence finishes a line.
  pub feed-Quiet : (b : ℕ) (f : Filter) → (f.in_esc ≡ true) ⊎ (b ≢ 10) → Quiet f (feed p b f)
  unfolding feed
  feed-Quiet b f h = ground (arith, feed_esc-Quiet b f, put-Quiet 9 f, put-Quiet b f)

  pub feed_newline : (f : Filter) → f.in_esc ≡ false → feed p 10 f ≡ finish_line p f
  unfolding feed
  feed_newline f h = ground arith
