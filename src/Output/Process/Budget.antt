-- ===== src/Output/Process/Budget.antt =====
-- internal/output/process.go: the two loops of `boundBytes` over a text with moderate lines.
use corv_client.Prelude.{
  ℕ, zero, suc, ◌+◌, ◌-◌, ◌/◌, ◌≤◌, ◌<◌, ◌≡◌, refl, sym, ap, subst, ◌∙◌, ◌&&◌, drop-drop, inl, inr,
  List, [], ◌∷◌, ◌++◌, append_assoc, reverse, Bytes, arith, All, All-append, length, take, drop,
  length-append, length-take, length-drop, length-reverse, take-append-drop, take_all,
  take-append_left, ltb, ◌==◌, Bool-cases, ==_iff, lt→not_leb, lt→ltb,
}
use native.Mathlib.Decide.{dec_lt}
use mathlib.Core.List.{reverse-append, reverse-reverse, reverse-cons}
use corv_client.Go.Strings.{split}
use corv_client.Go.Strings.Split.{split-parts}
use corv_client.Output.Filter.{write_lines, marker}
use corv_client.Output.Process.{head_count, tail_count, bound_bytes}

-- The lines of a text, each with its newline, are the text and a newline.
pub write_lines-split : (s : Bytes) → write_lines (split 10 s) ≡ s ++ 10 ∷ []
unfolding write_lines split
write_lines-split [] = refl
write_lines-split (c ∷ s) =
    let (p, ps, e) = split-parts 10 s in
    let ih : write_lines (p ∷ ps) ≡ s ++ 10 ∷ [] = ap write_lines (sym e) ∙ write_lines-split s in
    elim (Bool-cases (c == 10)) [
      | inl t ↦
          rw (e, t) (ap (λ x. 10 ∷ x) ih ∙ ap (λ d. d ∷ (s ++ 10 ∷ [])) (sym ((==_iff c 10).0 t)))
      | inr t ↦ rw (e, t) (ap (λ x. c ∷ x) ih)
    ]

write_lines-append :
    (xs ys : List Bytes) → write_lines (xs ++ ys) ≡ write_lines xs ++ write_lines ys
unfolding write_lines
write_lines-append [] ys = refl
write_lines-append (x ∷ xs) ys =
    rw (write_lines-append xs ys)
      (sym (append_assoc (x ++ 10 ∷ []) (write_lines xs) (write_lines ys)))

-- The bytes that lines take with their newlines.
cost : List Bytes → ℕ
cost ls = length (write_lines ls)

cost-cons : (l : Bytes) (ls : List Bytes) → cost (l ∷ ls) ≡ length l + 1 + cost ls
unfolding cost write_lines
cost-cons l ls =
    omega (arith, length-append (l ++ 10 ∷ []) (write_lines ls), length-append l (10 ∷ []))

cost-append : (xs ys : List Bytes) → cost (xs ++ ys) ≡ cost xs + cost ys
unfolding cost
cost-append xs ys =
    ap (λ (s : Bytes). length s) (write_lines-append xs ys)
    ∙ length-append (write_lines xs) (write_lines ys)

cost-nil : cost [] ≡ 0
unfolding cost write_lines
cost-nil = refl

cost-reverse : (xs : List Bytes) → cost (reverse xs) ≡ cost xs
cost-reverse [] = refl
cost-reverse (x ∷ xs) =
    ap cost (reverse-cons x xs)
    ∙ cost-append (reverse xs) (x ∷ [])
    ∙ omega (arith, cost-reverse xs, cost-cons x xs, cost-cons x [], cost-nil)

-- The head loop stops within half the budget.
abbrev Short : ℕ → List Bytes → Type 0
Short half = All (λ l. length l + 1 ≤ half)

head_count_fits :
    (half : ℕ) (ls : List Bytes) (used count : ℕ)
    → Short half ls
    → used ≤ half
    → (count ≡ 0 → used ≡ 0)
    → (m : ℕ) × (head_count half ls used count ≡ count + m)
      × (m ≤ length ls)
      × (used + cost (take m ls) ≤ half)
unfolding head_count
head_count_fits half [] used count short fits start =
    (0, omega arith, omega arith, omega (arith, cost-nil))
head_count_fits half (l ∷ ls) used count short fits start =
    elim (Bool-cases (ltb half (used + (length l + 1)) && ltb 0 count)) [
      | inl t ↦ (0, rw t (omega arith), omega arith, omega (arith, cost-nil))
      | inr t ↦
          let still : used + (length l + 1) ≤ half = ground (arith, t, start, short) in
          let (m, e, few, sum) =
            head_count_fits half ls (used + (length l + 1)) (count + 1) short.1 still
              (λ z. absurd (omega arith)) in
          (suc m, rw t (e ∙ omega arith), omega arith, omega (arith, cost-cons l (take m ls)))
    ]

Short-take : (half n : ℕ) (ls : List Bytes) → Short half ls → Short half (drop n ls)
Short-take half zero ls h = h
Short-take half (suc n) [] h = tt
Short-take half (suc n) (l ∷ ls) h = Short-take half n ls h.1

Short-reverse : (half : ℕ) (ls : List Bytes) → Short half ls → Short half (reverse ls)
Short-reverse half [] h = tt
Short-reverse half (l ∷ ls) h =
    subst (Short half) (sym (reverse-cons l ls))
      (All-append _ (reverse ls) (l ∷ []) (Short-reverse half ls h.1) (h.0, tt))

-- The last `k` of some lines.
drop-reverse :
    (k : ℕ) (xs : List Bytes)
    → k ≤ length xs
    → drop (length xs - k) xs ≡ reverse (take k (reverse xs))
drop-reverse k xs h =
    let j = length xs - k in
    let back : List Bytes = drop j xs in
    let size : length (reverse back) ≡ k = omega (arith, length-reverse back, length-drop j xs) in
    let parts : reverse xs ≡ reverse back ++ reverse (take j xs) =
      ap reverse (sym (take-append-drop j xs)) ∙ reverse-append (take j xs) back in
    sym (
      ap (λ (ys : List Bytes). reverse (take k ys)) parts
      ∙ ap reverse (
          take-append_left k (reverse back) (reverse (take j xs)) (omega arith)
          ∙ take_all k (reverse back) (omega arith))
      ∙ reverse-reverse back)

-- The second loop leaves at most the lines behind the head, and they fit the other half.
tail_count_fits :
    (half : ℕ) (rest : List Bytes)
    → Short half rest
    → (tail_count half rest ≤ length rest)
      × (cost (drop (length rest - tail_count half rest) rest) ≤ half)
unfolding tail_count
tail_count_fits half rest short =
    let (m, e, few, sum) =
      head_count_fits half (reverse rest) 0 0 (Short-reverse half rest short) (omega arith)
        (λ z. refl) in
    let e' : head_count half (reverse rest) 0 0 ≡ m = e ∙ omega arith in
    let few' : m ≤ length rest = omega (arith, length-reverse rest) in
    rw e' (few', rw (drop-reverse m rest few', cost-reverse (take m (reverse rest))) (omega arith))

-- A view of some lines that leaves out the middle ones and fits a budget, but for its marker.
pub record IsTrimmedView (max : ℕ) (ls : List Bytes) (out : Bytes) : Type 0 where
  pub head : List Bytes
  pub hidden : List Bytes
  pub tail : List Bytes
  pub whole : head ++ (hidden ++ tail) ≡ ls
  pub text : out ≡ write_lines head ++ (marker (length hidden) ++ write_lines tail)
  pub some_hidden : 0 < length hidden
  pub budget : length (write_lines head) + length (write_lines tail) ≤ max

module _ (full trimmed : Bytes) (max : ℕ) (large : max < length trimmed)
    (short : Short (max / 2) (split 10 trimmed)) where
  half : ℕ
  half = max / 2

  ls : List Bytes
  ls = split 10 trimmed

  head_end : ℕ
  head_end = head_count half ls 0 0

  rest : List Bytes
  rest = drop head_end ls

  kept : ℕ
  kept = tail_count half rest

  front : (head_end ≤ length ls) × (cost (take head_end ls) ≤ half)
  unfolding head_end half ls
  front =
      let (m, e, few, sum) =
        head_count_fits (max / 2) (split 10 trimmed) 0 0 short (omega arith) (λ z. refl) in
      let e' : head_count (max / 2) (split 10 trimmed) 0 0 ≡ m = e ∙ omega arith in
      rw e' (few, omega arith)

  back : (kept ≤ length rest) × (cost (drop (length rest - kept) rest) ≤ half)
  unfolding kept rest half ls
  back =
      tail_count_fits (max / 2) (drop head_end (split 10 trimmed))
        (Short-take (max / 2) head_end (split 10 trimmed) short)

  rest_size : length rest ≡ length ls - head_end
  unfolding rest
  rest_size = length-drop head_end ls

  -- The lines behind the place where the tail starts.
  tail_lines : drop (length ls - kept) ls ≡ drop (length rest - kept) rest
  unfolding rest
  tail_lines =
      let e : length ls - kept ≡ head_end + (length rest - kept) =
        omega (arith, rest_size, back.0, front.0) in
      ap (λ k. drop k ls) e ∙ sym (drop-drop (length rest - kept) head_end ls)

  total : cost ls ≡ length trimmed + 1
  unfolding cost ls
  total = ap (λ (s : Bytes). length s) (write_lines-split trimmed) ∙ length-append trimmed (10 ∷ [])

  total_parts : cost ls ≡ cost (take head_end ls) + cost rest
  unfolding rest
  total_parts =
      ap cost (sym (take-append-drop head_end ls))
      ∙ cost-append (take head_end ls) (drop head_end ls)

  -- The two loops do not meet.
  hides : head_end < length ls - kept
  unfolding half
  hides = elim (dec_lt head_end (length ls - kept)) [
    | yes p ↦ p
    | no p ↦
        let all_kept : length rest - kept ≡ 0 = omega (arith, rest_size, back.0, front.0) in
        let tail_cost : cost rest ≤ half = rw (ap (λ k. cost (drop k rest)) all_kept) at back.1 in
        absurd (omega (arith, total, total_parts, front, tail_cost, large))
  ]

  shown :
      bound_bytes full trimmed max
      ≡ write_lines (take head_end ls)
        ++ (marker (length ls - kept - head_end) ++ write_lines (drop (length ls - kept) ls))
  unfolding bound_bytes half ls head_end rest kept
  shown = rw (
    lt→not_leb (length trimmed) max large,
    lt→ltb 0 (length ls - kept - head_end) (omega (arith, hides)),
  )

  -- The lines between the two loops.
  middle : List Bytes
  middle = take (length ls - kept - head_end) (drop head_end ls)

  middle_size : length middle ≡ length ls - kept - head_end
  unfolding middle
  middle_size =
      omega (
        arith,
        length-take (length ls - kept - head_end) (drop head_end ls),
        length-drop head_end ls,
      )

  lines_whole : take head_end ls ++ (middle ++ drop (length ls - kept) ls) ≡ ls
  unfolding middle
  lines_whole =
      let gap = length ls - kept - head_end in
      let place : length ls - kept ≡ head_end + gap = omega (arith, hides) in
      let behind : drop (length ls - kept) ls ≡ drop gap (drop head_end ls) =
        ap (λ k. drop k ls) place ∙ sym (drop-drop gap head_end ls) in
      ap (λ xs. take head_end ls ++ xs)
        (ap (λ xs. middle ++ xs) behind ∙ take-append-drop gap (drop head_end ls))
      ∙ take-append-drop head_end ls

  budget_kept :
      length (write_lines (take head_end ls)) + length (write_lines (drop (length ls - kept) ls))
      ≤ max
  unfolding half cost
  budget_kept = omega (arith, front.1, back.1, ap cost tail_lines)

  -- If no line with its newline is longer than half the budget (rounded down), a text over the budget
  -- is shown as whole lines of its beginning and end, with a marker between them that counts the lines
  -- left out. The lines shown fit the budget together, each with its newline; the marker comes on top.
  pub bound_bytes_view : IsTrimmedView max (split 10 trimmed) (bound_bytes full trimmed max)
  bound_bytes_view = record {
    head = take head_end ls;
    hidden = middle;
    tail = drop (length ls - kept) ls;
    whole = (unfold ls in lines_whole);
    text =
        shown
        ∙ ap
            (λ k.
              write_lines (take head_end ls)
              ++ (marker k ++ write_lines (drop (length ls - kept) ls)))
            (sym middle_size);
    some_hidden = omega (arith, middle_size, hides);
    budget = budget_kept;
  }
