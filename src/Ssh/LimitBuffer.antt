-- ===== src/Ssh/LimitBuffer.antt =====
-- internal/sshconn/raw.go: the buffer that keeps a bounded part of a stream and counts all of it.
use corv_client.Prelude.{
  ℕ, ◌+◌, ◌-◌, ◌≡◌, refl, sym, ap, ◌∙◌, Bool, ◌&&◌, List, [], ◌∷◌, ◌++◌, append_assoc, append-nil,
  Bytes, ◌==◌, arith, ltb, if◌then◌else◌, length, take, length-append, length-take, take_all, inl,
  inr, Bool-cases, zero, suc,
}
use corv_client.Prelude.Int.{ℤ, pos, negsuc}

-- `limitBuffer`
pub record LimitBuffer : Type 0 where
  pub buf : Bytes
  pub max : ℤ
  pub n : ℕ

-- `max` where it is positive, 0 where nothing is kept
abbrev pub room : ℤ → ℕ
room (pos m) = m
room (negsuc m) = 0

-- `limitBuffer.Write`, which reports the whole length as written
unfoldable pub write : Bytes → LimitBuffer → LimitBuffer × ℕ
write p w =
    let counted = record w { n = w.n + length p } in
    let remain = room w.max - length w.buf in
    if room w.max == 0
    then (counted, length p)
    else if ltb 0 remain
    then (
      record counted { buf = w.buf ++ (if ltb remain (length p) then take remain p else p) },
      length p,
    )
    else (counted, length p)

-- `limitBuffer.Truncated`
unfoldable pub truncated : LimitBuffer → Bool
truncated w = ltb 0 (room w.max) && ltb (room w.max) w.n

-- `&limitBuffer{max: max}`
abbrev pub fresh : ℤ → LimitBuffer
fresh max = record { buf = []; max = max; n = 0 }

-- A stream comes in pieces.
abbrev pub write_all : List Bytes → LimitBuffer → LimitBuffer
write_all [] w = w
write_all (p ∷ ps) w = write_all ps (write p w).0

abbrev pub whole : List Bytes → Bytes
whole [] = []
whole (p ∷ ps) = p ++ whole ps

-- What the buffer has of the stream so far.
pub record Holds (max : ℤ) (s : Bytes) (w : LimitBuffer) : Type 0 where
  pub limit : w.max ≡ max
  pub kept : w.buf ≡ take (room max) s
  pub counted : w.n ≡ length s

take-append_min : (m : ℕ) (s p : Bytes) → take m (s ++ p) ≡ take m s ++ take (m - length s) p
take-append_min zero s p = let e : 0 - length s ≡ 0 = omega arith in rw e refl
take-append_min (suc m) [] p = let e : suc m - 0 ≡ suc m = omega arith in rw e refl
take-append_min (suc m) (x ∷ s) p =
    let e : suc m - suc (length s) ≡ m - length s = omega arith in
    rw e (ap (λ (q : Bytes). x ∷ q) (take-append_min m s p))

take_cut : (k : ℕ) (p : Bytes) → (if ltb k (length p) then take k p else p) ≡ take k p
take_cut k p = elim (Bool-cases (ltb k (length p))) [
  | inl e ↦ rw e refl
  | inr e ↦ rw e (sym (take_all k p (ground arith)))
]

take_zero : (k : ℕ) (p : Bytes) → k ≡ 0 → take k p ≡ []
take_zero k p e = rw e refl

-- The piece that is appended is cut to what is left, whichever branch is taken.
buf-write :
    (p : Bytes) (w : LimitBuffer) → (write p w).0.buf ≡ w.buf ++ take (room w.max - length w.buf) p
unfolding write
buf-write p w =
    let nothing = append-nil w.buf in
    elim (Bool-cases (room w.max == 0)) [
      | inl e ↦ rw (e, take_zero (room w.max - length w.buf) p (ground arith)) (sym nothing)
      | inr e ↦ elim (Bool-cases (ltb 0 (room w.max - length w.buf))) [
        | inl t ↦ rw (e, t, take_cut (room w.max - length w.buf) p) refl
        | inr t ↦ rw (e, t, take_zero (room w.max - length w.buf) p (ground arith)) (sym nothing)
      ]
    ]

write_counts :
    (p : Bytes) (w : LimitBuffer)
    → ((write p w).0.max ≡ w.max) × ((write p w).0.n ≡ w.n + length p) × ((write p w).1 ≡ length p)
unfolding write
write_counts p w = ground arith

write-Holds :
    (max : ℤ) (s p : Bytes) (w : LimitBuffer) → Holds max s w → Holds max (s ++ p) (write p w).0
write-Holds max s p w h =
    let (m, n, _) = write_counts p w in
    let left : take (room max - length (take (room max) s)) p ≡ take (room max - length s) p =
      left_over (room max) in
    record {
      limit = m ∙ h.limit;
      kept =
          buf-write p w
          ∙ rw (h.limit, h.kept)
              (ap (λ (q : Bytes). take (room max) s ++ q) left
                ∙ sym (take-append_min (room max) s p));
      counted = omega (arith, n, h.counted, length-append s p);
    }
  where
    left_over : (m : ℕ) → take (m - length (take m s)) p ≡ take (m - length s) p
    left_over m =
        let e : m - length (take m s) ≡ m - length s = omega (arith, length-take m s) in
        ap (λ (k : ℕ). take k p) e

write_all-Holds :
    (max : ℤ) (ps : List Bytes) (s : Bytes) (w : LimitBuffer)
    → Holds max s w
    → Holds max (s ++ whole ps) (write_all ps w)
write_all-Holds max [] s w h = rw (append-nil s) h
write_all-Holds max (p ∷ ps) s w h =
    rw (← append_assoc s p (whole ps))
      (write_all-Holds max ps (s ++ p) (write p w).0 (write-Holds max s p w h))

-- In whatever pieces a stream comes, the buffer has the first `max` bytes of it (none if `max` is not
-- positive), its count is the length of the whole stream, and it counts as truncated exactly when
-- `max` is positive and less than that length.
pub write_all-eq-take :
    (max : ℤ) (ps : List Bytes)
    → ((write_all ps (fresh max)).buf ≡ take (room max) (whole ps))
      × ((write_all ps (fresh max)).n ≡ length (whole ps))
      × (truncated (write_all ps (fresh max))
          ≡ (ltb 0 (room max) && ltb (room max) (length (whole ps))))
unfolding truncated
write_all-eq-take max ps =
    let nothing : take (room max) [] ≡ [] = take_all (room max) [] (omega arith) in
    let h =
      write_all-Holds max ps [] (fresh max)
        (record { limit = refl; kept = sym nothing; counted = refl }) in
    (h.kept, h.counted, rw (h.limit, h.counted) refl)
