-- ===== src/Output/Process/Laws.antt =====
-- The clean text, the cuts at rune boundaries, the signals, and where the budget fails.
use corv_client.Prelude.{
  ℕ, zero, suc, ◌+◌, ◌-◌, ◌/◌, ◌≤◌, ◌<◌, ◌≡◌, ◌≢◌, refl, sym, ap, ◌∙◌, true, ◌⊎◌, inl, inr, not,
  List, [], ◌∷◌, ◌++◌, Bytes, arith, All, All-append, length, take, drop, get_or, length-append,
  length-take, ltb, leb, if◌then◌else◌, Bool-cases, is_empty, take_all, tests, length-drop,
  drop-drop, get_or-drop, lt→ltb, lt→not_leb,
}
use corv_client.Go.Strings.{split, trim_space, elem}
use corv_client.Go.Strings.Split.{split-append, split_one}
use corv_client.Go.Utf8.{rune_start, valid, to_valid}
use corv_client.Output.Patterns.{Patterns, actionable_signal}
use corv_client.Output.Filter.{
  Options, Filter, with_defaults, new, write, flush_partial, to_text, render, write_lines, marker,
  clip,
}
use corv_client.Output.Filter.Clean.{
  IsText, write-IsClean, flush_partial-IsClean, new-IsClean, write_lines-IsText,
}
use corv_client.Output.Filter.View.{opt-write, opt-flush_partial}
use corv_client.Output.Filter.Bounds.{Fits, length-clip}
use corv_client.Output.Process.{
  clean, head_count, tail_count, bound_bytes, cut_at, cut_head, skip_rune, cut_tail, signals_from,
  signals,
}

render_open : (f : Filter) → f.opt.unbounded ≡ true → render f ≡ write_lines f.head
unfolding render
render_open f h = rw h

-- The clean text of any log holds only tabs, newlines and bytes from 0x20 on.
pub clean-IsText : (p : Patterns) (raw : Bytes) → All IsText (clean p raw)
unfolding clean to_text
clean-IsText p raw =
    let text = if valid raw then raw else to_valid raw in
    let opt : Options = record {
      head_lines = 0;
      tail_lines = 0;
      max_line_bytes = 0;
      max_bytes = 0;
      unbounded = true;
    } in
    let f = write p text (new opt) in
    let h = flush_partial-IsClean p f (write-IsClean p text (new opt) (new-IsClean opt)) in
    let o : (flush_partial p f).opt.unbounded ≡ true =
      ap (λ (x : Options). x.unbounded) (opt-flush_partial p f ∙ opt-write p text (new opt))
      ∙ (unfold new with_defaults in refl) in
    rw (render_open (flush_partial p f) o) (write_lines-IsText (flush_partial p f).head h.head)

-- `Signals` returns at most `max` lines, each of at most 203 bytes.
signals_from-IsBounded :
    (p : Patterns) (max : ℕ) (ls seen out : List Bytes)
    → length out < max
    → Fits 203 out
    → (length (signals_from p max ls seen out) ≤ max) × Fits 203 (signals_from p max ls seen out)
unfolding signals_from
signals_from-IsBounded p max [] seen out few fit = (omega arith, fit)
signals_from-IsBounded p max (l ∷ ls) seen out few fit =
    let t = trim_space l in
    let out' = out ++ clip t ∷ [] in
    let skip = signals_from-IsBounded p max ls seen out few fit in
    let fit' : Fits 203 out' =
      All-append (λ x. length x ≤ 203) out (clip t ∷ []) fit (length-clip t, tt) in
    let one : length out' ≡ length out + 1 = length-append out (clip t ∷ []) in
    elim (Bool-cases (is_empty t)) [
      | inl e ↦ rw e skip
      | inr e ↦ elim (Bool-cases (not (actionable_signal p t))) [
        | inl a ↦ rw (e, a) skip
        | inr a ↦ elim (Bool-cases (elem t seen)) [
          | inl s ↦ rw (e, a, s) skip
          | inr s ↦ elim (Bool-cases (leb max (length out'))) [
            | inl m ↦ rw (e, a, s, m) (omega (arith, one), fit')
            | inr m ↦
                rw (e, a, s, m)
                  (signals_from-IsBounded p max ls (t ∷ seen) out' (ground (arith, m)) fit')
          ]
        ]
      ]
    ]

-- `Signals` returns at most `max` lines of at most 203 bytes, for a `max` that is not 0.
signals-IsBounded :
    (p : Patterns) (text : Bytes) (max : ℕ)
    → 0 < max
    → (length (signals p text max) ≤ max) × Fits 203 (signals p text max)
unfolding signals
signals-IsBounded p text max h = signals_from-IsBounded p max (split 10 text) [] [] h tt

cut_at-le : (s : Bytes) (n : ℕ) → cut_at s n ≤ n
unfolding cut_at
cut_at-le s zero = omega arith
cut_at-le s (suc n) = ground (arith, cut_at-le s n)

cut_at-boundary :
    (s : Bytes) (n : ℕ) → (cut_at s n ≡ 0) ⊎ (rune_start (get_or s (cut_at s n) 0) ≡ true)
unfolding cut_at
cut_at-boundary s zero = inl refl
cut_at-boundary s (suc n) = elim (Bool-cases (rune_start (get_or s (suc n) 0))) [
  | inl e ↦ rw (e, cut_at) (inr e)
  | inr e ↦ rw (e, cut_at) (cut_at-boundary s n)
]

-- A place in a text where no rune is cut: its beginning, its end, or in front of a first byte.
abbrev pub IsBoundary : Bytes → ℕ → Type 0
IsBoundary s k = (k ≡ 0) ⊎ (length s ≤ k) ⊎ (rune_start (get_or s k 0) ≡ true)

-- `cutHead` is a beginning of the text of at most `n` bytes that ends at a rune boundary.
pub cut_head-IsBoundary :
    (s : Bytes) (n : ℕ)
    → (k : ℕ) × (cut_head s n ≡ take k s) × (length (cut_head s n) ≤ n) × IsBoundary s k
unfolding cut_head
cut_head-IsBoundary s n = elim (Bool-cases (leb (length s) n)) [
  | inl e ↦ (
    length s,
    rw e (sym (take_all (length s) s (omega arith))),
    rw e (omega tests),
    inr (inl (omega arith)),
  )
  | inr e ↦ (
    cut_at s n,
    rw e,
    rw e (omega (arith, length-take (cut_at s n) s, cut_at-le s n)),
    elim (cut_at-boundary s n) [ inl z ↦ inl z | inr b ↦ inr (inr b) ],
  )
]

-- `skip_rune` drops continuation bytes.
skip_rune-drop :
    (s : Bytes)
    → (k : ℕ) × (skip_rune s ≡ drop k s)
      × (k ≤ length s)
      × ((length s ≤ k) ⊎ (rune_start (get_or s k 0) ≡ true))
unfolding skip_rune
skip_rune-drop [] = (0, refl, omega arith, inl (omega arith))
skip_rune-drop (c ∷ s) = elim (Bool-cases (rune_start c)) [
  | inl e ↦ (0, rw e, omega arith, inr e)
  | inr e ↦
      let (k, same, few, at) = skip_rune-drop s in
      (suc k, rw e same, omega arith, elim at [ inl z ↦ inl (omega arith) | inr b ↦ inr b ])
]

-- `cutTail` is an end of the text of at most `n` bytes that starts at a rune boundary.
pub cut_tail-IsBoundary :
    (s : Bytes) (n : ℕ)
    → (k : ℕ) × (cut_tail s n ≡ drop k s) × (length (cut_tail s n) ≤ n) × IsBoundary s k
unfolding cut_tail
cut_tail-IsBoundary s n = elim (Bool-cases (leb (length s) n)) [
  | inl e ↦ (0, rw e, rw e (omega tests), inl refl)
  | inr e ↦
      let at = length s - n in
      let (k, same, few, edge) = skip_rune-drop (drop at s) in
      let whole : skip_rune (drop at s) ≡ drop (at + k) s = same ∙ drop-drop k at s in
      (
        at + k,
        rw e whole,
        rw (e, whole) (ground (arith, length-drop (at + k) s, e)),
        elim edge [
          | inl z ↦ inr (inl (omega (arith, length-drop at s)))
          | inr b ↦ inr (inr (ap rune_start (sym (get_or-drop at s k 0)) ∙ b))
        ],
      )
]

-- A long first line is taken, and nothing behind it.
takes_one :
    (half : ℕ) (l m : Bytes) (ls : List Bytes)
    → half ≤ length l
    → head_count half (l ∷ m ∷ ls) 0 0 ≡ 1
unfolding head_count
takes_one half l m ls h =
    rw (lt→ltb half (0 + (length l + 1) + (length m + 1)) (omega arith))
      (elim (Bool-cases (ltb half (0 + (length l + 1)))) [ inl e ↦ rw e | inr e ↦ rw e ])

-- Where the budget fails: a text of three lines whose first and last are each at least half the
-- budget long is returned with both in full, however long they are.
pub bound_bytes_over_budget :
    (full x y z : Bytes) (max : ℕ)
    → All (λ c. c ≢ 10) x
    → All (λ c. c ≢ 10) y
    → All (λ c. c ≢ 10) z
    → max / 2 ≤ length x
    → max / 2 ≤ length z
    → max < length (x ++ 10 ∷ (y ++ 10 ∷ z))
    → bound_bytes full (x ++ 10 ∷ (y ++ 10 ∷ z)) max
      ≡ write_lines (x ∷ []) ++ (marker 1 ++ write_lines (z ∷ []))
unfolding bound_bytes tail_count
bound_bytes_over_budget full x y z max hx hy hz lx lz large = rw (
  lines,
  lt→not_leb _ max large,
  takes_one (max / 2) x y (z ∷ []) lx,
  takes_one (max / 2) z y [] lz,
)
  where
    lines : split 10 (x ++ 10 ∷ (y ++ 10 ∷ z)) ≡ x ∷ y ∷ z ∷ []
    lines =
        split-append 10 x (y ++ 10 ∷ z) hx
        ∙ ap (λ ls. x ∷ ls) (split-append 10 y z hy ∙ ap (λ ls. y ∷ ls) (split_one 10 z hz))
