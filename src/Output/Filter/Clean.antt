-- ===== src/Output/Filter/Clean.antt =====
-- internal/output/filter.go: the bytes of the filtered lines.
use native.Mathlib.Decide.{ℕ_discrete}
use corv_client.Prelude.{
  ℕ, zero, suc, ◌+◌, ◌≤◌, ◌≡◌, refl, ◌⊎◌, inl, inr, List, [], ◌∷◌, ◌++◌, Bytes, arith, length, take,
  set, All, All-append, All-set, All-take, All-replicate, leb, ltb, Bool-cases,
}
use corv_client.Go.Strings.{trim_right, All-trim_right}
use corv_client.Output.Patterns.{Patterns}
use corv_client.Output.Filter.Steps.{feed-Quiet, feed_newline, Quiet, scan_signal-Quiet}
use corv_client.Output.Filter.{
  Options, Filter, put, blank, erase_right, apply_csi, feed_esc, keep, scan_signal, emit,
  finish_line, feed, write, flush_partial, new, write_lines,
}

-- A tab, or no control byte.
abbrev pub IsShown : ℕ → Type 0
IsShown b = (b ≡ 9) ⊎ (32 ≤ b)

abbrev pub Shown : Bytes → Type 0
Shown = All IsShown

pub record IsClean (f : Filter) : Type 0 where
  pub line : Shown f.line
  pub head : All Shown f.head
  pub tail : All Shown f.tail

Shown-blank : (n : ℕ) (s : Bytes) → Shown s → Shown (blank n s)
unfolding blank
Shown-blank zero s h = h
Shown-blank (suc n) [] h = tt
Shown-blank (suc n) (c ∷ s) (hc, h) = (inr (omega arith), Shown-blank n s h)

line-put : (b : ℕ) (f : Filter) → IsShown b → Shown f.line → Shown (put b f).line
unfolding put
line-put b f hb h = elim (Bool-cases (ltb f.col (length f.line))) [
  | inl e ↦ rw e (All-set IsShown f.line f.col b hb h)
  | inr e ↦ elim (Bool-cases (leb f.opt.max_line_bytes (length f.line))) [
    | inl e' ↦ rw (e, e') h
    | inr e' ↦ rw (e, e') (All-append IsShown f.line (b ∷ []) h (hb, tt))
  ]
]

-- Each way in which a sequence can change the line.
line-apply_csi :
    (b : ℕ) (f : Filter)
    → ((apply_csi b f).line ≡ f.line)
      ⊎ ((apply_csi b f).line ≡ take f.col f.line)
      ⊎ ((apply_csi b f).line ≡ blank f.col f.line)
      ⊎ ((apply_csi b f).line ≡ [])
unfolding apply_csi erase_right
line-apply_csi b f = ground arith

Shown-apply_csi : (b : ℕ) (f : Filter) → Shown f.line → Shown (apply_csi b f).line
Shown-apply_csi b f h = elim (line-apply_csi b f) [
  | inl e ↦ rw e h
  | inr (inl e) ↦ rw e (All-take IsShown f.col f.line h)
  | inr (inr (inl e)) ↦ rw e (Shown-blank f.col f.line h)
  | inr (inr (inr e)) ↦ rw e tt
]

module _ (p : Patterns) where
  line-feed :
      (b : ℕ) (f : Filter)
      → ((feed p b f).line ≡ f.line)
        ⊎ (IsShown b × ((feed p b f).line ≡ (put b f).line))
        ⊎ ((feed p b f).line ≡ (put 9 f).line)
        ⊎ ((feed p b f).line ≡ (apply_csi b f).line)
        ⊎ ((feed p b f).line ≡ [])
  unfolding feed feed_esc finish_line
  line-feed b f = ground arith

  Shown-feed : (b : ℕ) (f : Filter) → Shown f.line → Shown (feed p b f).line
  Shown-feed b f h = elim (line-feed b f) [
    | inl e ↦ rw e h
    | inr (inl (hb, e)) ↦ rw e (line-put b f hb h)
    | inr (inr (inl e)) ↦ rw e (line-put 9 f (inl refl) h)
    | inr (inr (inr (inl e))) ↦ rw e (Shown-apply_csi b f h)
    | inr (inr (inr (inr e))) ↦ rw e tt
  ]

  keep-lists :
      (line : Bytes) (f : Filter)
      → (((keep line f).head ≡ f.head ++ line ∷ []) ⊎ ((keep line f).head ≡ f.head))
        × (((keep line f).tail ≡ f.tail) ⊎ ((keep line f).tail ≡ set f.tail f.tail_next line))
  unfolding keep
  keep-lists line f = ground arith

  Shown-keep :
      (line : Bytes) (f : Filter)
      → Shown line
      → All Shown f.head
      → All Shown f.tail
      → All Shown (keep line f).head × All Shown (keep line f).tail
  Shown-keep line f hl hh ht =
      let (front, ring) = keep-lists line f in
      (
        elim front [
          | inl e ↦ rw e (All-append Shown f.head (line ∷ []) hh (hl, tt))
          | inr e ↦ rw e hh
        ],
        elim ring [ inl e ↦ rw e ht | inr e ↦ rw e (All-set Shown f.tail f.tail_next line hl ht) ],
      )

  finish_line-IsClean : (f : Filter) → IsClean f → IsClean (finish_line p f)
  unfolding finish_line emit
  finish_line-IsClean f h =
      let l = trim_right 32 f.line in
      let f' = record f { n = f.n + 1 } in
      let q = scan_signal-Quiet p l f' in
      let (front, ring) =
        Shown-keep l (scan_signal p l f') (All-trim_right IsShown 32 f.line h.line)
          (rw q.head h.head) (rw q.tail h.tail) in
      record { line = tt; head = front; tail = ring }

  IsClean-of_Quiet : (f g : Filter) → Quiet f g → Shown g.line → IsClean f → IsClean g
  IsClean-of_Quiet f g q l h = record { line = l; head = rw q.head h.head; tail = rw q.tail h.tail }

  feed-IsClean : (b : ℕ) (f : Filter) → IsClean f → IsClean (feed p b f)
  feed-IsClean b f h = elim (Bool-cases f.in_esc) [
    | inl e ↦ IsClean-of_Quiet f (feed p b f) (feed-Quiet p b f (inl e)) (Shown-feed b f h.line) h
    | inr e ↦ elim (ℕ_discrete b 10) [
      | yes nl ↦ rw (nl, feed_newline p f e) (finish_line-IsClean f h)
      | no other ↦
          IsClean-of_Quiet f (feed p b f) (feed-Quiet p b f (inr other)) (Shown-feed b f h.line) h
    ]
  ]

  -- Whatever the filter is fed, its current line and every line that it keeps hold only tabs and
  -- bytes from 0x20 on: no escape, carriage return, backspace, bell or newline is left.
  pub write-IsClean : (bs : Bytes) (f : Filter) → IsClean f → IsClean (write p bs f)
  unfolding write
  write-IsClean [] f h = h
  write-IsClean (b ∷ bs) f h = write-IsClean bs (feed p b f) (feed-IsClean b f h)

  pub flush_partial-IsClean : (f : Filter) → IsClean f → IsClean (flush_partial p f)
  unfolding flush_partial
  flush_partial-IsClean f h = elim (Bool-cases (ltb 0 (length f.line))) [
    | inl e ↦ rw e (finish_line-IsClean f h)
    | inr e ↦ rw e h
  ]

pub new-IsClean : (o : Options) → IsClean (new o)
unfolding new
new-IsClean o = record {
  line = tt;
  head = tt;
  tail = elim (Bool-cases o.unbounded) [
    | inl e ↦ rw e tt
    | inr e ↦ rw e (All-replicate Shown _ [] tt)
  ];
}

-- A newline, or a byte that is shown.
abbrev pub IsText : ℕ → Type 0
IsText b = (b ≡ 10) ⊎ IsShown b

IsText-of_Shown : (s : Bytes) → Shown s → All IsText s
IsText-of_Shown [] h = tt
IsText-of_Shown (c ∷ s) (hc, h) = (inr hc, IsText-of_Shown s h)

pub write_lines-IsText : (ls : List Bytes) → All Shown ls → All IsText (write_lines ls)
unfolding write_lines
write_lines-IsText [] h = tt
write_lines-IsText (l ∷ ls) (hl, h) =
    All-append IsText (l ++ 10 ∷ []) (write_lines ls)
      (All-append IsText l (10 ∷ []) (IsText-of_Shown l hl) (inl refl, tt))
      (write_lines-IsText ls h)
