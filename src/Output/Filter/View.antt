-- ===== src/Output/Filter/View.antt =====
-- The text that a bounded filter returns, as a head, a marker and a tail of all cleaned lines.
use corv_client.Prelude.{
  ℕ, zero, suc, ◌+◌, ◌-◌, ◌%◌, min, ◌≡◌, refl, sym, ap, subst, length-append, ◌∙◌, true, false, inl,
  inr, List, [], ◌∷◌, ◌++◌, Bytes, arith, length, take, drop, ltb, if◌then◌else◌, Bool-cases,
  length-replicate, length-take,
}
use native.Mathlib.Decide.{ℕ_discrete}
use native.Mathlib.Nat.{zero-mod}
use corv_client.Go.Strings.{trim_right}
use corv_client.Output.Patterns.{Patterns}
use corv_client.Output.Filter.{
  Options, Filter, with_defaults, new, keep, emit, scan_signal, finish_line, feed, feed_esc, put,
  erase_right, apply_csi, write, flush_partial, read_ring, write_lines, marker, render, to_text,
  lines, hidden,
}
use corv_client.Output.Filter.Ring.{Holds, keep-Holds, read_ring-eq-drop}
use corv_client.Output.Filter.Steps.{
  Quiet, put-Quiet, feed_esc-Quiet, scan_signal-Quiet, emit-SameCursor, feed-Quiet, feed_newline,
}

-- Two filters that stand at the same place of the same line.
pub record SamePlace (f g : Filter) : Type 0 where
  pub cap : f.opt.max_line_bytes ≡ g.opt.max_line_bytes
  pub line : f.line ≡ g.line
  pub col : f.col ≡ g.col
  pub in_esc : f.in_esc ≡ g.in_esc
  pub esc : f.esc ≡ g.esc

put-SamePlace : (b : ℕ) (f g : Filter) → SamePlace f g → SamePlace (put b f) (put b g)
unfolding put
put-SamePlace b f g h = ground arith

erase_right-SamePlace : (f g : Filter) → SamePlace f g → SamePlace (erase_right f) (erase_right g)
unfolding erase_right
erase_right-SamePlace f g h = ground arith

apply_csi-SamePlace :
    (b : ℕ) (f g : Filter) → SamePlace f g → SamePlace (apply_csi b f) (apply_csi b g)
unfolding apply_csi
apply_csi-SamePlace b f g h = ground (arith, erase_right-SamePlace f g h)

feed_esc-SamePlace :
    (b : ℕ) (f g : Filter) → SamePlace f g → SamePlace (feed_esc b f) (feed_esc b g)
unfolding feed_esc
feed_esc-SamePlace b f g h = ground (arith, apply_csi-SamePlace b f g h)

module _ (p : Patterns) where
  finish_line-SamePlace :
      (f g : Filter) → SamePlace f g → SamePlace (finish_line p f) (finish_line p g)
  unfolding finish_line
  finish_line-SamePlace f g h = ground (
    arith,
    emit-SameCursor p (trim_right 32 f.line) f,
    emit-SameCursor p (trim_right 32 g.line) g,
  )

  feed-SamePlace : (b : ℕ) (f g : Filter) → SamePlace f g → SamePlace (feed p b f) (feed p b g)
  unfolding feed
  feed-SamePlace b f g h = ground (
    arith,
    finish_line-SamePlace f g h,
    feed_esc-SamePlace b f g h,
    put-SamePlace 9 f g h,
    put-SamePlace b f g h,
  )

-- A bounded filter, and one that keeps every line of the same input.
pub record Twin (f g : Filter) : Type 0 where
  pub place : SamePlace f g
  pub twin_open : g.opt.unbounded ≡ true
  pub count : f.n ≡ length g.head
  pub holds : Holds f g.head

-- The fields that `Quiet` does not speak of, from another filter.
Holds-elsewhere :
    (f f' : Filter) (all : List Bytes)
    → Holds f all
    → Holds
        (record f {
          line = f'.line;
          col = f'.col;
          in_esc = f'.in_esc;
          esc = f'.esc;
          n = f'.n;
          signals = f'.signals;
          signals_seen = f'.signals_seen;
        })
        all
Holds-elsewhere f f' all h = record {
  bounded = h.bounded;
  room = h.room;
  front = h.front;
  kept = h.kept;
  next = h.next;
  size = h.size;
  window = h.window;
}

-- `Holds` reads only what a quiet step leaves alone, and not the count of lines.
Holds-of_same :
    (f f' : Filter) (all : List Bytes)
    → f'.opt ≡ f.opt
    → f'.head ≡ f.head
    → f'.tail ≡ f.tail
    → f'.tail_next ≡ f.tail_next
    → f'.tail_len ≡ f.tail_len
    → Holds f all
    → Holds f' all
Holds-of_same f f' all o hd t tn tl h =
    subst (λ x. Holds x all) (ground arith) (Holds-elsewhere f f' all h)

Twin-of_Quiet :
    (f g f' g' : Filter) → Twin f g → Quiet f f' → Quiet g g' → SamePlace f' g' → Twin f' g'
Twin-of_Quiet f g f' g' t qf qg same = record {
  place = same;
  twin_open = ground (arith, t.twin_open);
  count = ground (arith, t.count);
  holds =
      subst (λ xs. Holds f' xs) (sym qg.head)
        (Holds-of_same f f' g.head qf.opt qf.head qf.tail qf.tail_next qf.tail_len t.holds);
}

module _ (p : Patterns) where
  head-emit :
      (line : Bytes) (g : Filter)
      → g.opt.unbounded ≡ true
      → (emit p line g).head ≡ g.head ++ line ∷ []
  unfolding emit keep
  head-emit line g h = ground (arith, scan_signal-Quiet p line (record g { n = g.n + 1 }))

  n-emit : (line : Bytes) (g : Filter) → (emit p line g).n ≡ g.n + 1
  unfolding emit keep
  n-emit line g = ground (arith, scan_signal-Quiet p line (record g { n = g.n + 1 }))

  emit-Holds :
      (f : Filter) (all : List Bytes) (line : Bytes)
      → Holds f all
      → Holds (emit p line f) (all ++ line ∷ [])
  unfolding emit
  emit-Holds f all line h =
      let f' = record f { n = f.n + 1 } in
      let q = scan_signal-Quiet p line f' in
      keep-Holds (scan_signal p line f') all line
        (Holds-of_same f (scan_signal p line f') all q.opt q.head q.tail q.tail_next q.tail_len h)

  finish_line-Twin : (f g : Filter) → Twin f g → Twin (finish_line p f) (finish_line p g)
  unfolding finish_line
  finish_line-Twin f g t =
      let l = trim_right 32 f.line in
      let same : trim_right 32 g.line ≡ l = ap (trim_right 32) (sym t.place.line) in
      let lines : (emit p (trim_right 32 g.line) g).head ≡ g.head ++ l ∷ [] =
        head-emit (trim_right 32 g.line) g t.twin_open ∙ ap (λ x. g.head ++ x ∷ []) same in
      record {
        place = unfold finish_line in finish_line-SamePlace p f g t.place;
        twin_open = ground (arith, emit-SameCursor p (trim_right 32 g.line) g, t.twin_open);
        count =
            n-emit l f
            ∙ ap (λ k. k + 1) t.count
            ∙ sym (length-append g.head (l ∷ []))
            ∙ ap (λ (xs : List Bytes). length xs) (sym lines);
        holds =
            subst (λ xs. Holds (finish_line p f) xs) (sym lines)
              (Holds-of_same (emit p l f) (finish_line p f) (g.head ++ l ∷ []) refl refl refl refl
                refl (emit-Holds f g.head l t.holds));
      }

  feed-Twin : (b : ℕ) (f g : Filter) → Twin f g → Twin (feed p b f) (feed p b g)
  feed-Twin b f g t = elim (Bool-cases f.in_esc) [
    | inl e ↦
        Twin-of_Quiet f g (feed p b f) (feed p b g) t (feed-Quiet p b f (inl e))
          (feed-Quiet p b g (inl (sym t.place.in_esc ∙ e))) (feed-SamePlace p b f g t.place)
    | inr e ↦ elim (ℕ_discrete b 10) [
      | yes nl ↦
          rw (nl, feed_newline p f e, feed_newline p g (sym t.place.in_esc ∙ e))
            (finish_line-Twin f g t)
      | no other ↦
          Twin-of_Quiet f g (feed p b f) (feed p b g) t (feed-Quiet p b f (inr other))
            (feed-Quiet p b g (inr other)) (feed-SamePlace p b f g t.place)
    ]
  ]

  write-Twin : (bs : Bytes) (f g : Filter) → Twin f g → Twin (write p bs f) (write p bs g)
  unfolding write
  write-Twin [] f g t = t
  write-Twin (b ∷ bs) f g t = write-Twin bs (feed p b f) (feed p b g) (feed-Twin b f g t)

  flush_partial-Twin : (f g : Filter) → Twin f g → Twin (flush_partial p f) (flush_partial p g)
  unfolding flush_partial
  flush_partial-Twin f g t = elim (Bool-cases (ltb 0 (length f.line))) [
    | inl e ↦
        rw (e, ap (λ (xs : Bytes). ltb 0 (length xs)) (sym t.place.line) ∙ e)
          (finish_line-Twin f g t)
    | inr e ↦ rw (e, ap (λ (xs : Bytes). ltb 0 (length xs)) (sym t.place.line) ∙ e) t
  ]

take-nil : (n : ℕ) → take {A = Bytes} n [] ≡ []
take-nil zero = refl
take-nil (suc n) = refl

nothing_yet : (h t : ℕ) → 0 ≡ (0 - h) % t
nothing_yet h t = let e : 0 ≡ 0 - h = omega arith in sym (zero-mod t) ∙ ap (λ x. x % t) e

-- The options of the filter that keeps every line: the same cap on a line.
abbrev pub keep_all : Options → Options
keep_all o = record (with_defaults o) { unbounded = true }

new-Twin : (o : Options) → o.unbounded ≡ false → Twin (new o) (new (keep_all o))
unfolding new with_defaults
new-Twin o h = record {
  place = ground arith;
  twin_open = refl;
  count = refl;
  holds = record {
    bounded = h;
    room = ground arith;
    front = sym (take-nil _);
    kept = ground arith;
    next = nothing_yet (new o).opt.head_lines (new o).opt.tail_lines;
    size = rw h (length-replicate _ []);
    window = λ k a b. absurd (omega arith);
  };
}

-- The head, the marker for what is left out, and the tail of a list of lines.
abbrev pub middle_out : ℕ → ℕ → List Bytes → Bytes
middle_out h t all =
    write_lines (take h all)
    ++ ((if ltb 0 (length all - h - t) then marker (length all - h - t) else [])
        ++ write_lines (drop (length all - min t (length all - h)) all))

hidden-Twin :
    (f g : Filter)
    → Twin f g
    → f.n - length f.head - f.tail_len ≡ length g.head - f.opt.head_lines - f.opt.tail_lines
hidden-Twin f g t = omega (
  arith,
  t.holds.kept,
  t.count,
  ap (λ (xs : List Bytes). length xs) t.holds.front ∙ length-take f.opt.head_lines g.head,
)

render-Twin :
    (f g : Filter) → Twin f g → render f ≡ middle_out f.opt.head_lines f.opt.tail_lines g.head
unfolding render
render-Twin f g t =
    let ring : read_ring f.tail_len 0 f
        ≡ drop (length g.head - min f.opt.tail_lines (length g.head - f.opt.head_lines)) g.head =
      read_ring-eq-drop f g.head t.holds f.tail_len 0 (omega arith)
      ∙ ap (λ k. drop (length g.head - k) g.head) t.holds.kept in
    rw (ring, hidden-Twin f g t, t.holds.front, t.holds.bounded)

opt-feed : (p : Patterns) (b : ℕ) (f : Filter) → (feed p b f).opt ≡ f.opt
unfolding feed finish_line
opt-feed p b f = ground (
  arith,
  feed_esc-Quiet b f,
  put-Quiet 9 f,
  put-Quiet b f,
  emit-SameCursor p (trim_right 32 f.line) f,
)

pub opt-write : (p : Patterns) (bs : Bytes) (f : Filter) → (write p bs f).opt ≡ f.opt
unfolding write
opt-write p [] f = refl
opt-write p (b ∷ bs) f = opt-write p bs (feed p b f) ∙ opt-feed p b f

pub opt-flush_partial : (p : Patterns) (f : Filter) → (flush_partial p f).opt ≡ f.opt
unfolding flush_partial finish_line
opt-flush_partial p f = ground (arith, emit-SameCursor p (trim_right 32 f.line) f)

-- All the cleaned lines of an input, an unfinished one included.
unfoldable pub all_lines : Patterns → Options → Bytes → List Bytes
all_lines p o bs = (flush_partial p (write p bs (new (keep_all o)))).head

-- Whatever bytes a bounded filter is given, with whatever options, its text is exactly the first
-- `head_lines` of all cleaned lines, then a marker with the number of lines left out if there are
-- any, then the last `tail_lines` of the lines behind the head: no line is lost without the marker,
-- none is shown twice, and the ring keeps the order.
pub to_text-eq-middle_out :
    (p : Patterns) (o : Options) (bs : Bytes)
    → o.unbounded ≡ false
    → (to_text p (write p bs (new o))).1
      ≡ middle_out (with_defaults o).head_lines (with_defaults o).tail_lines (all_lines p o bs)
unfolding to_text all_lines
to_text-eq-middle_out p o bs h =
    let f = write p bs (new o) in
    let t =
      flush_partial-Twin p f (write p bs (new (keep_all o)))
        (write-Twin p bs (new o) (new (keep_all o)) (new-Twin o h)) in
    let same : (flush_partial p f).opt ≡ with_defaults o =
      opt-flush_partial p f ∙ opt-write p bs (new o) ∙ (unfold new in refl) in
    render-Twin (flush_partial p f) (flush_partial p (write p bs (new (keep_all o)))) t
    ∙ ap (λ (x : Options). middle_out x.head_lines x.tail_lines (all_lines p o bs)) same

-- `Hidden` is the number of lines that the text leaves out, and `Lines` the number of all lines.
pub hidden_lines :
    (p : Patterns) (o : Options) (bs : Bytes)
    → o.unbounded ≡ false
    → ((lines p (write p bs (new o))).1 ≡ length (all_lines p o bs))
      × ((hidden p (write p bs (new o))).1
          ≡ length (all_lines p o bs) - (with_defaults o).head_lines - (with_defaults o).tail_lines)
unfolding lines hidden all_lines
hidden_lines p o bs h =
    let f = write p bs (new o) in
    let t =
      flush_partial-Twin p f (write p bs (new (keep_all o)))
        (write-Twin p bs (new o) (new (keep_all o)) (new-Twin o h)) in
    let same : (flush_partial p f).opt ≡ with_defaults o =
      opt-flush_partial p f ∙ opt-write p bs (new o) ∙ (unfold new in refl) in
    (
      t.count,
      hidden-Twin (flush_partial p f) (flush_partial p (write p bs (new (keep_all o)))) t
          ∙ ap (λ (x : Options). length (all_lines p o bs) - x.head_lines - x.tail_lines) same,
    )
