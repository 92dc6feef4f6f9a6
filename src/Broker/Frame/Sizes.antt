-- ===== src/Broker/Frame/Sizes.antt =====
-- internal/broker/run_output.go: `parseRetainedLog`, what it accepts and which slices it takes.
use native.Mathlib.Decide.{dec_lt}
use corv_client.Prelude.{
  ℕ, suc, ◌+◌, ◌-◌, ◌^◌, ◌≤◌, ◌<◌, ◌≡◌, ◌≢◌, refl, sym, ap, subst, ◌∙◌, true, false, inl, inr, not,
  List, [], ◌∷◌, codes, All, take_all, bytes_eq→eq, Option, none, ◌++◌, Bytes, some, arith, length,
  take, drop, length-append, length-take, length-drop, take-append-drop, ltb, bytes_eq, Bool-cases,
  le→not_ltb, not_ltb→le,
}
use corv_client.Prelude.Int.{ℤ, pos, negsuc, add64, add64_fits, add64_overflow, eq_ℤ}
use corv_client.Prelude.Result.{Result, ok, err, or_err-cases}
use corv_client.Go.Strings.{fields, index_byte}
use corv_client.Go.Strings.Index.{index_byte-IsFirstAt}
use corv_client.Go.Numbers.{parse_int, parse_int-lt}
use corv_client.Broker.Frame.{
  FrameError, RetainedLog, invalid_frame, invalid_sizes, slice_panic, header_end, log_words,
  check_sizes, assemble, cut_middle, omission_marker, parse_log_frame, parse_retained_log,
  missing_frame, max_local_log_bytes,
}

-- The `int64` sum is exact where it equals a length: a sum that wrapped is negative.
sum_exact :
    (n h t : ℕ)
    → h < 2 ^ 63
    → t < 2 ^ 63
    → eq_ℤ (pos n) (add64 (pos h) (pos t)) ≡ true
    → (n ≡ h + t) × (h + t < 2 ^ 63)
sum_exact n h t lh lt e = elim (dec_lt (h + t) (2 ^ 63)) [
  | yes p ↦ (ground (arith, add64_fits h t p, e), p)
  | no p ↦ absurd (ground (arith, add64_overflow h t lh lt (omega arith), e))
]

check_sizes-pos :
    (a b c : ℤ) {o h t : ℕ}
    → check_sizes a b c ≡ some (o, h, t)
    → (a ≡ pos o) × (b ≡ pos h) × (c ≡ pos t)
unfolding check_sizes
check_sizes-pos (pos a) (pos b) (pos c) e = ground arith
check_sizes-pos (negsuc a) b c e = cc
check_sizes-pos (pos a) (negsuc b) c e = cc
check_sizes-pos (pos a) (pos b) (negsuc c) e = cc

-- A header line with the three sizes.
pub record IsHeader (header : Bytes) (original head tail : ℕ) : Type 0 where
  pub original_word : Bytes
  pub head_word : Bytes
  pub tail_word : Bytes
  pub one_line : All (λ x. x ≢ 10) header
  pub words : fields header ≡ codes "CORV_LOG_V1" ∷ (original_word ∷ (head_word ∷ (tail_word ∷ [])))
  pub original_size : parse_int original_word ≡ some (pos original)
  pub head_size : parse_int head_word ≡ some (pos head)
  pub tail_size : parse_int tail_word ≡ some (pos tail)

-- What the bytes that were sent may be, for a log that is accepted.
pub data IsRetained (raw : Bytes) : RetainedLog → Type 0 where
  gone :
      (r : RetainedLog)
      → raw ≡ codes "CORV_LOG_MISSING" ++ 10 ∷ []
      → r.missing ≡ true
      → r.bytes ≡ []
      → IsRetained raw r
  complete :
      (r : RetainedLog) (header : Bytes) (head tail : ℕ)
      → IsHeader header r.original_bytes head tail
      → raw ≡ header ++ 10 ∷ r.bytes
      → r.missing ≡ false
      → r.truncated ≡ false
      → length r.bytes ≡ r.original_bytes
      → head + tail ≡ r.original_bytes
      → IsRetained raw r
  cut :
      (r : RetainedLog) (header head tail : Bytes)
      → IsHeader header r.original_bytes (length head) (length tail)
      → raw ≡ header ++ 10 ∷ (head ++ tail)
      → r.missing ≡ false
      → r.truncated ≡ true
      → length head + length tail < r.original_bytes
      → r.bytes
        ≡ head
          ++ (omission_marker
                (length head)
                (length tail)
                (r.original_bytes - length head - length tail)
              ++ tail)
      → IsRetained raw r

-- A retained log within the local limit.
abbrev pub Sound : Bytes → RetainedLog → Type 0
Sound raw r = IsRetained raw r × (length r.bytes ≤ max_local_log_bytes)

eq_ℤ→eq : (a b : ℕ) → eq_ℤ (pos a) (pos b) ≡ true → a ≡ b
eq_ℤ→eq a b h = ground arith

-- The cut of the payload after its first `h` bytes.
cut-IsRetained :
    (raw header : Bytes) (o h t : ℕ) (payload : Bytes)
    → IsHeader header o h t
    → raw ≡ header ++ 10 ∷ payload
    → length payload ≡ h + t
    → h + t < o
    → IsRetained raw (record {
      bytes = take h payload ++ (omission_marker h t (o - h - t) ++ drop h payload);
      original_bytes = o;
      truncated = true;
      missing = false;
    })
cut-IsRetained raw header o h t payload hd sent size less =
    let front : length (take h payload) ≡ h = omega (arith, length-take h payload) in
    let back : length (drop h payload) ≡ t = omega (arith, length-drop h payload) in
    cut _ header (take h payload) (drop h payload) (rw (front, back) hd)
      (sent ∙ ap (λ (x : Bytes). header ++ 10 ∷ x) (sym (take-append-drop h payload))) refl refl
      (omega (arith, front, back)) (rw (front, back))

-- The bytes of the cut: the marker is the only addition.
length-cut :
    (h : ℕ) (payload mark : Bytes)
    → length (take h payload ++ (mark ++ drop h payload)) ≡ length payload + length mark
length-cut h payload mark =
    length-append (take h payload) (mark ++ drop h payload)
    ∙ omega (
      arith,
      length-append mark (drop h payload),
      length-append (take h payload) (drop h payload),
      ap (λ (s : Bytes). length s) (take-append-drop h payload),
    )

cut_middle-Sound :
    (raw header : Bytes) (o h t : ℕ) (payload : Bytes) {r : RetainedLog}
    → IsHeader header o h t
    → raw ≡ header ++ 10 ∷ payload
    → length payload ≡ h + t
    → h + t < o
    → cut_middle o h t payload ≡ ok r
    → Sound raw r
unfolding cut_middle
cut_middle-Sound raw header o h t payload {r} hd sent size less e =
    let mark = omission_marker h t (o - h - t) in
    elim (Bool-cases (ltb max_local_log_bytes (length payload + length mark))) [
      | inl q ↦ cc (rw q at e)
      | inr q ↦
          let e1 = rw (q, le→not_ltb (length payload) h (omega arith)) at e in
          let log : RetainedLog = record {
            bytes = take h payload ++ (mark ++ drop h payload);
            original_bytes = o;
            truncated = true;
            missing = false;
          } in
          let same : log ≡ r = cc in
          subst (Sound raw) same (
            cut-IsRetained raw header o h t payload hd sent size less,
            omega (arith, length-cut h payload mark, not_ltb→le _ _ q),
          )
    ]

assemble-Sound :
    (raw header : Bytes) (o h t : ℕ) (payload : Bytes) {r : RetainedLog}
    → IsHeader header o h t
    → raw ≡ header ++ 10 ∷ payload
    → h < 2 ^ 63
    → t < 2 ^ 63
    → (h + t < 2 ^ 63 → (h + t ≤ max_local_log_bytes) × (h + t ≤ o))
    → assemble o h t payload ≡ ok r
    → Sound raw r
unfolding assemble
assemble-Sound raw header o h t payload {r} hd sent lh lt fit e =
    elim (Bool-cases (eq_ℤ (pos (length payload)) (add64 (pos h) (pos t)))) [
      | inr q ↦ cc (rw q at e)
      | inl q ↦
          let (size, small) = sum_exact (length payload) h t lh lt q in
          let (room, within) = fit small in
          let e1 = rw q at e in
          elim (Bool-cases (eq_ℤ (pos o) (pos (length payload)))) [
            | inl w ↦
                let e2 = rw w at e1 in
                let same : record {
                  bytes = payload;
                  original_bytes = o;
                  truncated = false;
                  missing = false;
                }
                    ≡ r =
                  cc in
                let all : o ≡ length payload = eq_ℤ→eq o (length payload) w in
                subst (Sound raw) same (
                  complete _ header h t hd sent refl refl (sym all) (sym size ∙ sym all),
                  omega arith,
                )
            | inr w ↦
                cut_middle-Sound raw header o h t payload hd sent size (ground (arith, w, within))
                  (rw w at e1)
          ]
    ]

assemble-ne-panic :
    (o h t : ℕ) (payload : Bytes)
    → h < 2 ^ 63
    → t < 2 ^ 63
    → assemble o h t payload ≢ err slice_panic
unfolding assemble cut_middle
assemble-ne-panic o h t payload lh lt e =
    elim (Bool-cases (eq_ℤ (pos (length payload)) (add64 (pos h) (pos t)))) [
      | inl q ↦ ground (arith, sum_exact (length payload) h t lh lt q, q, e)
      | inr q ↦ cc (ap not q)
    ]

check_sizes-fit :
    (o h t : ℕ) {x : ℕ × ℕ × ℕ}
    → check_sizes (pos o) (pos h) (pos t) ≡ some x
    → h + t < 2 ^ 63
    → (h + t ≤ max_local_log_bytes) × (h + t ≤ o)
unfolding check_sizes
check_sizes-fit o h t e small = ground (arith, add64_fits h t small, e)

-- No panic, and a sound log.
record IsFine (raw : Bytes) (r : Result FrameError RetainedLog) : Type 0 where
  no_panic : r ≢ err slice_panic
  sound : (log : RetainedLog) → r ≡ ok log → Sound raw log

plain_error : (raw : Bytes) (e : FrameError) → e ≢ slice_panic → IsFine raw (err e)
plain_error raw e h = record { no_panic = λ x. h (cc); sound = λ log x. cc }

log_words-fields :
    (ws : List Bytes) {w : Bytes × Bytes × Bytes}
    → log_words ws ≡ some w
    → ws ≡ codes "CORV_LOG_V1" ∷ (w.0 ∷ (w.1 ∷ (w.2 ∷ [])))
unfolding log_words
log_words-fields [] h = cc h
log_words-fields (a ∷ []) h = cc h
log_words-fields (a ∷ b ∷ []) h = cc h
log_words-fields (a ∷ b ∷ c ∷ []) h = cc h
log_words-fields (tag ∷ a ∷ b ∷ c ∷ []) {w} h =
    elim (Bool-cases (bytes_eq tag (codes "CORV_LOG_V1"))) [
      | inl e ↦
          let same : (a, b, c) ≡ w = cc (e, h) in cc (bytes_eq→eq tag (codes "CORV_LOG_V1") e, same)
      | inr e ↦ cc (e, h)
    ]
log_words-fields (a ∷ b ∷ c ∷ d ∷ e ∷ ws) h = cc h

header_end-some : (o : Option ℕ) {i : ℕ} → header_end o ≡ some i → o ≡ some i
header_end-some none h = cc h
header_end-some (some j) h = ground (arith, h)

-- The header is what stands before the first line feed.
header-cut :
    (raw : Bytes) (i : ℕ)
    → header_end (index_byte 10 raw) ≡ some i
    → (raw ≡ take i raw ++ 10 ∷ drop (suc i) raw) × All (λ x. x ≢ 10) (take i raw)
header-cut raw i h =
    let whole : take (length raw) raw ≡ raw = take_all (length raw) raw (omega arith) in
    let at : index_byte 10 (take (length raw) raw) ≡ some i =
      ap (λ (s : Bytes). index_byte 10 s) whole ∙ header_end-some (index_byte 10 raw) h in
    let (less, cut_there, front, plain) = index_byte-IsFirstAt 10 (length raw) raw i at in
    (cut_there, plain)

assemble-IsFine :
    (raw header : Bytes) (w : Bytes × Bytes × Bytes) (a b c : ℤ) (x : ℕ × ℕ × ℕ) (payload : Bytes)
    → raw ≡ header ++ 10 ∷ payload
    → All (λ x. x ≢ 10) header
    → fields header ≡ codes "CORV_LOG_V1" ∷ (w.0 ∷ (w.1 ∷ (w.2 ∷ [])))
    → parse_int w.0 ≡ some a
    → parse_int w.1 ≡ some b
    → parse_int w.2 ≡ some c
    → check_sizes a b c ≡ some x
    → IsFine raw (assemble x.0 x.1 x.2 payload)
assemble-IsFine raw header w a b c (o, h, t) payload sent plain ws pa pb pc e =
    let (ea, eb, ec) = check_sizes-pos a b c e in
    let fits = check_sizes-fit o h t (exact ea eb ec) in
    let lh = parse_int-lt w.1 (pb ∙ ap some eb) in
    let lt = parse_int-lt w.2 (pc ∙ ap some ec) in
    let hd : IsHeader header o h t = record {
      original_word = w.0;
      head_word = w.1;
      tail_word = w.2;
      one_line = plain;
      words = ws;
      original_size = pa ∙ ap some ea;
      head_size = pb ∙ ap some eb;
      tail_size = pc ∙ ap some ec;
    } in
    record {
      no_panic = assemble-ne-panic o h t payload lh lt;
      sound = λ log r. assemble-Sound raw header o h t payload hd sent lh lt fits r;
    }
  where
    exact : a ≡ pos o → b ≡ pos h → c ≡ pos t → check_sizes (pos o) (pos h) (pos t) ≡ some (o, h, t)
    exact ea eb ec = cc

parse_log_frame-IsFine : (raw : Bytes) → IsFine raw (parse_log_frame raw)
unfolding parse_log_frame
parse_log_frame-IsFine raw =
    let fine = IsFine raw in
    let plain = λ (e : FrameError) (h : e ≢ slice_panic). plain_error raw e h in
    or_err-cases fine invalid_frame (header_end (index_byte 10 raw)) _ (plain _ (λ x. cc))
      λ line_end h1.
        or_err-cases fine invalid_frame (log_words (fields (take line_end raw))) _
          (plain _ (λ x. cc))
          λ w h2. or_err-cases fine invalid_sizes (parse_int w.0) _ (plain _ (λ x. cc)) λ a h3.
            or_err-cases fine invalid_sizes (parse_int w.1) _ (plain _ (λ x. cc)) λ b h4.
              or_err-cases fine invalid_sizes (parse_int w.2) _ (plain _ (λ x. cc)) λ c h5.
                or_err-cases fine invalid_sizes (check_sizes a b c) _ (plain _ (λ x. cc)) λ x h6.
                  let (sent, one_line) = header-cut raw line_end h1 in
                  assemble-IsFine raw (take line_end raw) w a b c x (drop (suc line_end) raw) sent
                    one_line (log_words-fields (fields (take line_end raw)) h2) h3 h4 h5 h6

parse_retained_log-parts :
    (raw : Bytes)
    → (parse_retained_log raw ≢ err slice_panic)
      × ((log : RetainedLog) → parse_retained_log raw ≡ ok log → Sound raw log)
unfolding parse_retained_log
parse_retained_log-parts raw = elim (Bool-cases (bytes_eq raw missing_frame)) [
  | inl e ↦ (
    rw e (λ x. cc),
    rw e (λ log x.
        let empty : RetainedLog = record {
          bytes = [];
          original_bytes = 0;
          truncated = false;
          missing = true;
        } in
        let same : empty ≡ log = cc in
        subst (Sound raw) same (gone _ (bytes_eq→eq raw missing_frame e) refl refl, omega arith)),
  )
  | inr e ↦ let fine = parse_log_frame-IsFine raw in (rw e fine.no_panic, rw e fine.sound)
]

-- A parse never ends in a slice out of range, and a log that it accepts is one that was sent.
abbrev pub IsSoundParse : Bytes → Result FrameError RetainedLog → Type 0
IsSoundParse raw (ok log) = Sound raw log
IsSoundParse raw (err e) = e ≢ slice_panic

sound_parse :
    (raw : Bytes) (r : Result FrameError RetainedLog)
    → (r ≢ err slice_panic)
    → ((log : RetainedLog) → r ≡ ok log → Sound raw log)
    → IsSoundParse raw r
sound_parse raw (ok log) calm sound = sound log refl
sound_parse raw (err e) calm sound = λ x. calm (ap err x)

-- Whatever bytes a remote host sends, the parser of a retained log never slices out of range. What it
-- accepts is the mark of a missing log, with an empty log; or a header line with the log's size and two
-- sizes that add up to it, and behind its line feed the log, which is kept as it is; or a header line
-- with the sizes of a longer log, of its beginning and of its end, and behind its line feed these two,
-- which are kept with a marker between them that tells their sizes and that of the gap. What is kept is
-- never longer than the local limit. The `int64` sum of the two sizes in the header may wrap around.
pub parse_retained_log-IsSoundParse : (raw : Bytes) → IsSoundParse raw (parse_retained_log raw)
parse_retained_log-IsSoundParse raw =
    let (calm, sound) = parse_retained_log-parts raw in
    sound_parse raw (parse_retained_log raw) calm sound
