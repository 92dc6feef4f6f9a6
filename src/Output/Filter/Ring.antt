-- ===== src/Output/Filter/Ring.antt =====
-- The head and the ring of `emit` against the list of all lines.
use native.Mathlib.Nat.{mod-lt, div-add-mod, mod-add-mod, add-mod_right}
use native.Mathlib.Decide.{dec_lt}
use corv_client.Prelude.{
  ℕ, zero, suc, ◌+◌, ◌-◌, ◌*◌, ◌%◌, ◌/◌, ◌≤◌, ◌<◌, min, ◌≡◌, ◌≢◌, sym, ap, ap₂, ◌∙◌, false, List,
  [], ◌∷◌, ◌++◌, Bytes, arith, length, take, drop, set, get_or, ltb, if◌then◌else◌, length-append,
  length-set, get_or-set_self, get_or-set_ne, get_or-append_left, get_or-concat, take-append_left,
  length-take, take_all, drop_all, drop_step,
}
use corv_client.Output.Filter.{Filter, keep, read_ring}

-- What the fields of a bounded filter say of all the lines that it was given.
pub record Holds (f : Filter) (all : List Bytes) : Type 0 where
  pub bounded : f.opt.unbounded ≡ false
  pub room : 0 < f.opt.tail_lines
  pub front : f.head ≡ take f.opt.head_lines all
  pub kept : f.tail_len ≡ min f.opt.tail_lines (length all - f.opt.head_lines)
  pub next : f.tail_next ≡ (length all - f.opt.head_lines) % f.opt.tail_lines
  pub size : length f.tail ≡ f.opt.tail_lines
  pub window :
      (k : ℕ)
      → k < length all - f.opt.head_lines
      → length all - f.opt.head_lines ≤ k + f.opt.tail_lines
      → get_or f.tail (k % f.opt.tail_lines) [] ≡ get_or all (f.opt.head_lines + k) []

-- Two positions less than `t` apart use different slots.
mul_gap : (t a b : ℕ) → a < b → t * a + t ≤ t * b
mul_gap t a b h = grind arith

mul_le : (t a b : ℕ) → b ≤ a → t * b ≤ t * a
mul_le t a b h = grind arith

mod_ne : (k n t : ℕ) → k < n → n < k + t → k % t ≢ n % t
mod_ne k n t h g e = elim (dec_lt (k / t) (n / t)) [
  | yes p ↦ omega (arith, div-add-mod k t, div-add-mod n t, mul_gap t (k / t) (n / t) p)
  | no p ↦ omega (arith, div-add-mod k t, div-add-mod n t, mul_le t (k / t) (n / t) (omega arith))
]

next_mod : (n t : ℕ) → (n % t + 1) % t ≡ (n + 1) % t
next_mod n t = mod-add-mod n t 1

read_mod : (n t i l : ℕ) → l ≤ t → l ≤ n → (n % t + t + i - l) % t ≡ (n - l + i) % t
read_mod n t i l k j =
    let e : n % t + t + i - l ≡ n % t + (t - l + i) = omega arith in
    let e' : n + (t - l + i) ≡ n - l + i + t = omega arith in
    ap (λ x. x % t) e
    ∙ mod-add-mod n t (t - l + i)
    ∙ ap (λ x. x % t) e'
    ∙ add-mod_right (n - l + i) t

module _ (f : Filter) (all : List Bytes) (line : Bytes) (h : Holds f all) where
  length-head : length f.head ≡ min f.opt.head_lines (length all)
  length-head = ap (λ (xs : List Bytes). length xs) h.front ∙ length-take f.opt.head_lines all

  -- The head is not full.
  keep_front :
      length f.head < f.opt.head_lines → keep line f ≡ record f { head = f.head ++ line ∷ [] }
  unfolding keep
  keep_front q = ground (arith, h.bounded)

  keep_front-Holds : length f.head < f.opt.head_lines → Holds (keep line f) (all ++ line ∷ [])
  keep_front-Holds q =
      let few : length all < f.opt.head_lines = omega (arith, length-head) in
      let more : length (all ++ line ∷ []) ≡ length all + 1 = length-append all (line ∷ []) in
      let same : f.head ≡ all = h.front ∙ take_all f.opt.head_lines all (omega arith) in
      rw (keep_front q) (record {
        bounded = h.bounded;
        room = h.room;
        front =
            ap (λ xs. xs ++ line ∷ []) same
            ∙ sym (take_all f.opt.head_lines (all ++ line ∷ []) (omega (arith, more)));
        kept = omega (arith, h.kept, more);
        next =
            h.next
            ∙ ap (λ x. x % f.opt.tail_lines) {x = length all - f.opt.head_lines}
                (omega (arith, more));
        size = h.size;
        window = λ k a b. absurd (omega (arith, more));
      })

  -- The head is full: the line goes into the ring.
  keep_ring :
      f.opt.head_lines ≤ length f.head
      → keep line f ≡ record f {
        tail = set f.tail f.tail_next line;
        tail_next = (f.tail_next + 1) % f.opt.tail_lines;
        tail_len = if ltb f.tail_len f.opt.tail_lines then f.tail_len + 1 else f.tail_len;
      }
  unfolding keep
  keep_ring q = ground (arith, h.bounded)

  slot : f.tail_next < length f.tail
  slot = omega (arith, h.next, h.size, h.room, mod-lt (length all - f.opt.head_lines) h.room)

  -- The slots that still count keep their line, and the new slot has the new one.
  ring_window :
      (k : ℕ)
      → f.opt.head_lines ≤ length all
      → k < length all - f.opt.head_lines + 1
      → length all - f.opt.head_lines + 1 ≤ k + f.opt.tail_lines
      → get_or (set f.tail f.tail_next line) (k % f.opt.tail_lines) []
        ≡ get_or (all ++ line ∷ []) (f.opt.head_lines + k) []
  ring_window k full a b = elim (dec_lt k (length all - f.opt.head_lines)) [
    | yes p ↦
        get_or-set_ne f.tail f.tail_next (k % f.opt.tail_lines) line [] (λ e.
          mod_ne k (length all - f.opt.head_lines) f.opt.tail_lines p (omega arith)
            (sym e ∙ h.next))
        ∙ h.window k p (omega arith)
        ∙ sym (get_or-append_left all (line ∷ []) (f.opt.head_lines + k) [] (omega arith))
    | no p ↦
        let here : k ≡ length all - f.opt.head_lines = omega arith in
        let last : length all ≡ f.opt.head_lines + k = omega arith in
        ap (λ x. get_or (set f.tail f.tail_next line) x [])
          (ap (λ x. x % f.opt.tail_lines) here ∙ sym h.next)
        ∙ get_or-set_self f.tail f.tail_next line [] slot
        ∙ sym (get_or-concat all line [])
        ∙ ap (λ x. get_or (all ++ line ∷ []) x []) last
  ]

  keep_ring-Holds : f.opt.head_lines ≤ length f.head → Holds (keep line f) (all ++ line ∷ [])
  keep_ring-Holds q =
      let full : f.opt.head_lines ≤ length all = omega (arith, length-head) in
      let more : length (all ++ line ∷ []) ≡ length all + 1 = length-append all (line ∷ []) in
      let step : length (all ++ line ∷ []) - f.opt.head_lines ≡ length all - f.opt.head_lines + 1 =
        omega (arith, more) in
      rw (keep_ring q) (record {
        bounded = h.bounded;
        room = h.room;
        front = h.front ∙ sym (take-append_left f.opt.head_lines all (line ∷ []) full);
        kept = ground (arith, h.kept, more, h.room);
        next =
            ap (λ x. (x + 1) % f.opt.tail_lines) h.next
            ∙ next_mod (length all - f.opt.head_lines) f.opt.tail_lines
            ∙ ap (λ x. x % f.opt.tail_lines) (sym step);
        size = length-set f.tail f.tail_next line ∙ h.size;
        window = λ k a b. ring_window k full (omega (arith, step)) (omega (arith, step));
      })

-- Each line that `emit` keeps is accounted for, on all its branches.
pub keep-Holds :
    (f : Filter) (all : List Bytes) (line : Bytes)
    → Holds f all
    → Holds (keep line f) (all ++ line ∷ [])
keep-Holds f all line h = elim (dec_lt (length f.head) f.opt.head_lines) [
  | yes p ↦ keep_front-Holds f all line h p
  | no p ↦ keep_ring-Holds f all line h (omega arith)
]

module _ (f : Filter) (all : List Bytes) (h : Holds f all) where
  -- The slot that round `i` of `String` reads.
  read_slot :
      (k i : ℕ)
      → i + suc k ≡ f.tail_len
      → get_or f.tail ((f.tail_next + f.opt.tail_lines + i - f.tail_len) % f.opt.tail_lines) []
        ≡ get_or all (length all - suc k) []
  read_slot k i e =
      let m = length all - f.opt.head_lines - suc k in
      let slot_eq : m ≡ length all - f.opt.head_lines - f.tail_len + i = omega (arith, h.kept) in
      let place : f.opt.head_lines + m ≡ length all - suc k = omega (arith, h.kept) in
      ap (λ x. get_or f.tail ((x + f.opt.tail_lines + i - f.tail_len) % f.opt.tail_lines) []) h.next
      ∙ ap (λ x. get_or f.tail x [])
          (read_mod (length all - f.opt.head_lines) f.opt.tail_lines i f.tail_len
              (omega (arith, h.kept)) (omega (arith, h.kept))
            ∙ ap (λ x. x % f.opt.tail_lines) (sym slot_eq))
      ∙ h.window m (omega (arith, h.kept)) (omega (arith, h.kept))
      ∙ ap (λ x. get_or all x []) place

  -- The ring is read in order: it holds the last lines.
  pub read_ring-eq-drop :
      (k i : ℕ) → i + k ≡ f.tail_len → read_ring k i f ≡ drop (length all - k) all
  unfolding read_ring
  read_ring-eq-drop zero i e = sym (drop_all (length all - 0) all (omega arith))
  read_ring-eq-drop (suc k) i e =
      let next : suc (length all - suc k) ≡ length all - k = omega (arith, h.kept) in
      ap₂ (λ x xs. x ∷ xs) (read_slot k i e) (read_ring-eq-drop k (i + 1) (omega arith))
      ∙ ap (λ x. get_or all (length all - suc k) [] ∷ drop x all) (sym next)
      ∙ sym (drop_step (length all - suc k) all [] (omega (arith, h.kept)))
