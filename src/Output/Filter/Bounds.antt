-- ===== src/Output/Filter/Bounds.antt =====
-- internal/output/filter.go: what the filter retains, against its options.
use corv_client.Prelude.{
  ◌≢◌, ◌⊎◌, ℕ, zero, suc, ◌+◌, ◌≤◌, ◌<◌, ◌≡◌, refl, ap, ◌∙◌, true, false, List, [], ◌∷◌, ◌++◌,
  Bytes, arith, length, take, set, replicate, length-append, length-take, length-set,
  length-replicate, All, All-append, ltb, codes, Bool-cases, inl, inr,
}
use native.Mathlib.Decide.{ℕ_discrete}
use corv_client.Go.Strings.{trim_space, trim_right, length-trim_right}
use corv_client.Output.Patterns.{Patterns}
use corv_client.Output.Filter.Steps.{
  feed-Quiet, feed_newline, Quiet, scan_signal-Quiet, emit-SameCursor,
}
use corv_client.Output.Filter.{
  Options, Filter, max_signals, put, blank, clip, erase_right, apply_csi, feed_esc, keep,
  scan_signal, emit, finish_line, feed, write, new, with_defaults,
}

abbrev pub Fits : ℕ → List Bytes → Type 0
Fits cap = All (λ l. length l ≤ cap)

length-blank : (k : ℕ) (line : Bytes) → length (blank k line) ≡ length line
unfolding blank
length-blank zero line = refl
length-blank (suc k) [] = refl
length-blank (suc k) (c ∷ line) = ap suc (length-blank k line)

Fits-set :
    (cap : ℕ) (ls : List Bytes) (i : ℕ) (l : Bytes)
    → length l ≤ cap
    → Fits cap ls
    → Fits cap (set ls i l)
Fits-set cap [] i l h hs = hs
Fits-set cap (x ∷ ls) zero l h (hx, hs) = (h, hs)
Fits-set cap (x ∷ ls) (suc i) l h (hx, hs) = (hx, Fits-set cap ls i l h hs)

Fits-replicate : (cap n : ℕ) → Fits cap (replicate n [])
Fits-replicate cap zero = tt
Fits-replicate cap (suc n) = (omega arith, Fits-replicate cap n)

-- The line buffer and the escape buffer.
pub record IsLineBounded (f : Filter) : Type 0 where
  pub line_capped : length f.line ≤ f.opt.max_line_bytes
  pub esc_capped : length f.esc ≤ 33
  pub esc_open : f.in_esc ≡ true → length f.esc ≤ 32

put-IsLineBounded : (b : ℕ) (f : Filter) → IsLineBounded f → IsLineBounded (put b f)
unfolding put
put-IsLineBounded b f h = ground (arith, length-set f.line f.col b, length-append f.line (b ∷ []))

apply_csi-IsLineBounded : (b : ℕ) (f : Filter) → IsLineBounded f → IsLineBounded (apply_csi b f)
unfolding apply_csi erase_right
apply_csi-IsLineBounded b f h = ground (arith, length-blank f.col f.line, length-take f.col f.line)

feed_esc-IsLineBounded :
    (b : ℕ) (f : Filter) → IsLineBounded f → f.in_esc ≡ true → IsLineBounded (feed_esc b f)
unfolding feed_esc
feed_esc-IsLineBounded b f h e =
    ground (arith, apply_csi-IsLineBounded b f h, length-append f.esc (b ∷ []))

-- What is kept of the finished lines. `scanSignal` cuts a line to 200 bytes and three dots.
pub record IsStoreBounded (f : Filter) : Type 0 where
  pub head_capped : length f.head ≤ f.opt.head_lines
  pub head_fits : Fits f.opt.max_line_bytes f.head
  pub tail_size : length f.tail ≡ f.opt.tail_lines
  pub tail_fits : Fits f.opt.max_line_bytes f.tail
  pub signals_capped : length f.signals ≤ max_signals
  pub signals_fit : Fits 203 f.signals

IsStoreBounded-of_Quiet :
    (f g : Filter) → Quiet f g → g.signals ≡ f.signals → IsStoreBounded f → IsStoreBounded g
IsStoreBounded-of_Quiet f g q e h = record {
  head_capped = ground (arith, h.head_capped);
  head_fits = rw (q.opt, q.head) h.head_fits;
  tail_size = ground (arith, h.tail_size);
  tail_fits = rw (q.opt, q.tail) h.tail_fits;
  signals_capped = ground (arith, h.signals_capped);
  signals_fit = rw e h.signals_fit;
}

keep-IsStoreBounded :
    (line : Bytes) (f : Filter)
    → f.opt.unbounded ≡ false
    → length line ≤ f.opt.max_line_bytes
    → IsStoreBounded f
    → IsStoreBounded (keep line f)
unfolding keep
keep-IsStoreBounded line f o l h = elim (Bool-cases (ltb (length f.head) f.opt.head_lines)) [
  | inl e ↦
      rw (o, e)
        (record {
          head_capped = ground (arith, length-append f.head (line ∷ []));
          head_fits = All-append _ f.head (line ∷ []) h.head_fits (l, tt);
          tail_size = h.tail_size;
          tail_fits = h.tail_fits;
          signals_capped = h.signals_capped;
          signals_fit = h.signals_fit;
        })
  | inr e ↦
      rw (o, e)
        (record {
          head_capped = h.head_capped;
          head_fits = h.head_fits;
          tail_size = length-set f.tail f.tail_next line ∙ h.tail_size;
          tail_fits = Fits-set _ f.tail f.tail_next line l h.tail_fits;
          signals_capped = h.signals_capped;
          signals_fit = h.signals_fit;
        })
]

length-take-append : (n : ℕ) (t : Bytes) → length (take n t ++ codes "...") ≤ n + 3
length-take-append n t = omega (arith, length-append (take n t) (codes "..."), length-take n t)

pub length-clip : (t : Bytes) → length (clip t) ≤ 203
unfolding clip
length-clip t = elim (Bool-cases (ltb 200 (length t))) [
  | inl long ↦ rw long (length-take-append 200 t)
  | inr short ↦ rw short (ground arith)
]

-- A line adds no signal, or one while there is room.
scan_signal-cases :
    (p : Patterns) (line : Bytes) (f : Filter)
    → ((scan_signal p line f).signals ≡ f.signals)
      ⊎ ((length f.signals < max_signals)
          × ((scan_signal p line f).signals ≡ f.signals ++ clip (trim_space line) ∷ []))
unfolding scan_signal
scan_signal-cases p line f = ground arith

scan_signal-IsStoreBounded :
    (p : Patterns) (line : Bytes) (f : Filter)
    → IsStoreBounded f
    → IsStoreBounded (scan_signal p line f)
scan_signal-IsStoreBounded p line f h = elim (scan_signal-cases p line f) [
  | inl same ↦ IsStoreBounded-of_Quiet f (scan_signal p line f) (scan_signal-Quiet p line f) same h
  | inr (room, more) ↦
      let q = scan_signal-Quiet p line f in
      record {
        head_capped = ground (arith, h.head_capped);
        head_fits = rw (q.opt, q.head) h.head_fits;
        tail_size = ground (arith, h.tail_size);
        tail_fits = rw (q.opt, q.tail) h.tail_fits;
        signals_capped = omega (
          arith,
          ap (λ (xs : List Bytes). length xs) more
              ∙ length-append f.signals (clip (trim_space line) ∷ []),
        );
        signals_fit = rw more (
            All-append _ f.signals (clip (trim_space line) ∷ []) h.signals_fit
              (length-clip (trim_space line), tt));
      }
]

-- The bounds of a filter that is not `Unbounded`.
pub record IsBounded (f : Filter) : Type 0 where
  pub closed : f.opt.unbounded ≡ false
  pub buffers : IsLineBounded f
  pub store : IsStoreBounded f

module _ (p : Patterns) where
  emit-IsStoreBounded :
      (line : Bytes) (f : Filter)
      → f.opt.unbounded ≡ false
      → length line ≤ f.opt.max_line_bytes
      → IsStoreBounded f
      → IsStoreBounded (emit p line f)
  unfolding emit
  emit-IsStoreBounded line f o l h =
      let f' = record f { n = f.n + 1 } in
      let s = scan_signal p line f' in
      let q = scan_signal-Quiet p line f' in
      keep-IsStoreBounded line s (ground arith) (ground arith) (
        scan_signal-IsStoreBounded p line f' (record {
          head_capped = h.head_capped;
          head_fits = h.head_fits;
          tail_size = h.tail_size;
          tail_fits = h.tail_fits;
          signals_capped = h.signals_capped;
          signals_fit = h.signals_fit;
        }))

  finish_line-IsBounded : (f : Filter) → IsBounded f → IsBounded (finish_line p f)
  unfolding finish_line
  finish_line-IsBounded f h =
      let l = trim_right 32 f.line in
      let c = emit-SameCursor p l f in
      let s =
        emit-IsStoreBounded l f h.closed
          (omega (arith, h.buffers.line_capped, length-trim_right 32 f.line)) h.store in
      record {
        closed = ground (arith, c, h.closed);
        buffers = ground (arith, c, h.buffers);
        store = record {
          head_capped = s.head_capped;
          head_fits = s.head_fits;
          tail_size = s.tail_size;
          tail_fits = s.tail_fits;
          signals_capped = s.signals_capped;
          signals_fit = s.signals_fit;
        };
      }

  feed-IsLineBounded : (b : ℕ) (f : Filter) → IsBounded f → IsLineBounded (feed p b f)
  unfolding feed
  feed-IsLineBounded b f h =
      let lines = h.buffers in
      ground (
        arith,
        feed_esc-IsLineBounded b f lines,
        (finish_line-IsBounded f h).buffers,
        put-IsLineBounded 9 f lines,
        put-IsLineBounded b f lines,
      )

  signals-feed :
      (b : ℕ) (f : Filter) → (f.in_esc ≡ true) ⊎ (b ≢ 10) → (feed p b f).signals ≡ f.signals
  unfolding feed feed_esc apply_csi erase_right put
  signals-feed b f h = ground arith

  pub feed-IsBounded : (b : ℕ) (f : Filter) → IsBounded f → IsBounded (feed p b f)
  feed-IsBounded b f h = elim (Bool-cases f.in_esc) [
    | inl e ↦ quiet (inl e)
    | inr e ↦ elim (ℕ_discrete b 10) [
      | yes nl ↦ rw (nl, feed_newline p f e) (finish_line-IsBounded f h)
      | no other ↦ quiet (inr other)
    ]
  ]
    where
      quiet : (f.in_esc ≡ true) ⊎ (b ≢ 10) → IsBounded (feed p b f)
      quiet why =
          let q = feed-Quiet p b f why in
          record {
            closed = ground (arith, q, h.closed);
            buffers = feed-IsLineBounded b f h;
            store = IsStoreBounded-of_Quiet f (feed p b f) q (signals-feed b f why) h.store;
          }

  -- A filter that is bounded stays within its options whatever it is fed: the current line, each
  -- kept line and the escape buffer are capped, the head and the ring do not grow past their sizes,
  -- and there are at most `max_signals` signals of at most 203 bytes.
  pub write-IsBounded : (bs : Bytes) (f : Filter) → IsBounded f → IsBounded (write p bs f)
  unfolding write
  write-IsBounded [] f h = h
  write-IsBounded (b ∷ bs) f h = write-IsBounded bs (feed p b f) (feed-IsBounded b f h)

-- A new filter is bounded.
pub new-IsBounded : (o : Options) → o.unbounded ≡ false → IsBounded (new o)
unfolding new with_defaults
new-IsBounded o h = record {
  closed = h;
  buffers = ground arith;
  store = record {
    head_capped = ground arith;
    head_fits = tt;
    tail_size = rw h (length-replicate _ []);
    tail_fits = rw h (Fits-replicate _ _);
    signals_capped = ground arith;
    signals_fit = tt;
  };
}
