-- ===== src/Broker/Exit.antt =====
-- internal/broker/jobs.go: the exit record of a remote run and its times. A time is a number of
-- nanoseconds since the epoch, and Go's zero time is `none`; the remote finish time alone may lie before
-- the epoch.
use corv_client.Prelude.{
  ℕ, ◌+◌, ◌-◌, ◌*◌, ◌^◌, ◌≤◌, ◌<◌, min, max, ◌≡◌, refl, subst, ◌⊎◌, inl, inr, List, [], ◌∷◌, Bytes,
  codes, Option, none, some, arith, ltb, if◌then◌else◌, bytes_eq, Bool-cases, ap,
}
use corv_client.Prelude.Result.{
  Result, ok, err, ◌>>=◌, ◌>>◌, or_err, guard, >>=-eq-ok, or_err-eq-ok,
}
use corv_client.Prelude.Int.{ℤ, pos, negsuc}
use corv_client.Go.Strings.{fields}
use corv_client.Go.Numbers.{parse_int, parse_int-lt}
use corv_client.Broker.Wait.{second}

pub record RemoteExit : Type 0 where
  pub code : ℕ
  pub finished_at : Option ℤ
  pub duration : ℕ

pub data ExitError : Type 0 where
  invalid_legacy_status invalid_record invalid_code invalid_finish_time invalid_duration : ExitError

-- 365 days in seconds
abbrev pub max_duration_seconds : ℕ
max_duration_seconds = 365 * 24 * 3600

-- `err != nil || code < 0 || code > 255`
abbrev pub exit_code : Option ℤ → Option ℕ
exit_code none = none
exit_code (some (negsuc n)) = none
exit_code (some (pos n)) = if ltb 255 n then none else some n

-- `err != nil || finishedUnix <= 0`
abbrev pub finish_seconds : Option ℤ → Option ℕ
finish_seconds none = none
finish_seconds (some (negsuc n)) = none
finish_seconds (some (pos n)) = if ltb 0 n then some n else none

-- `err != nil || durationSeconds < 0 || durationSeconds > …`
abbrev pub duration_seconds : Option ℤ → Option ℕ
duration_seconds none = none
duration_seconds (some (negsuc n)) = none
duration_seconds (some (pos n)) = if ltb max_duration_seconds n then none else some n

-- `time.Unix(f, 0)`: Go counts the seconds from the year 1 in an `int64`, which wraps for the largest `f`.
unfoldable pub unix_time : ℕ → ℤ
unix_time f =
    if ltb f (2 ^ 63 - 62135596800) then pos (f * second) else negsuc ((2 ^ 64 - f) * second - 1)

unfoldable pub read_v2 : Bytes → Bytes → Bytes → Bytes → Result ExitError RemoteExit
unfolding unix_time
read_v2 kind code finished duration = do
  guard invalid_record (bytes_eq kind (codes "CORV_RC_V2"))
  c ← or_err invalid_code (exit_code (parse_int code))
  f ← or_err invalid_finish_time (finish_seconds (parse_int finished))
  d ← or_err invalid_duration (duration_seconds (parse_int duration))
  ok (record { code = c; finished_at = some (unix_time f); duration = d * second })

unfoldable pub read_legacy : Bytes → Result ExitError RemoteExit
read_legacy code = do
  c ← or_err invalid_legacy_status (exit_code (parse_int code))
  ok (record { code = c; finished_at = none; duration = 0 })

-- The tests on the number of fields are the patterns.
unfoldable pub read_fields : List Bytes → Result ExitError RemoteExit
read_fields (code ∷ []) = read_legacy code
read_fields (kind ∷ code ∷ finished ∷ duration ∷ []) = read_v2 kind code finished duration
read_fields _ = err invalid_record

-- `parseRemoteExit`
unfoldable pub parse_remote_exit : Bytes → Result ExitError RemoteExit
parse_remote_exit raw = read_fields (fields raw)

-- `t.Sub(u)` stops at the largest `time.Duration`; here `u` is not after `t`.
abbrev pub duration_between : ℕ → ℕ → ℕ
duration_between t u = min (t - u) (2 ^ 63 - 1)

-- A finish time before the start is replaced.
abbrev pub not_before : ℕ → ℕ → ℤ → ℕ
not_before started duration (negsuc n) = started + duration
not_before started duration (pos t) = if ltb t started then started + duration else t

-- The clamping of a remote finish time.
unfoldable pub clamp_finish : ℕ → ℕ → ℕ → ℤ → ℕ
clamp_finish started observed duration finished =
    let a = not_before started duration finished in
    let b = if ltb observed a then observed else a in if ltb b started then started else b

-- `resolveRemoteTiming`: the finish time and the duration.
unfoldable pub resolve_remote_timing : ℕ → ℕ → RemoteExit → ℕ × ℕ
unfolding clamp_finish
resolve_remote_timing started observed exit = elim exit.finished_at [
  | some finished ↦ (clamp_finish started observed exit.duration finished, exit.duration)
  | none ↦
      let end = if ltb observed started then started else observed in
      (end, duration_between end started)
]

-- What is known of an accepted exit record.
pub record IsInRange (e : RemoteExit) : Type 0 where
  pub code : e.code ≤ 255
  pub finish :
      (e.finished_at ≡ none)
      ⊎ (((t : ℕ) × (e.finished_at ≡ some (pos t)) × (second ≤ t))
          ⊎ ((n : ℕ) × (e.finished_at ≡ some (negsuc n)) × (2 ^ 63 * second ≤ n)))
  pub duration : e.duration ≤ max_duration_seconds * second

exit_code-le : (o : Option ℤ) {n : ℕ} → exit_code o ≡ some n → n ≤ 255
exit_code-le o h = ground arith

finish_seconds-pos : (o : Option ℤ) {n : ℕ} → finish_seconds o ≡ some n → 0 < n
finish_seconds-pos o h = ground arith

duration_seconds-le :
    (o : Option ℤ) {n : ℕ} → duration_seconds o ≡ some n → n ≤ max_duration_seconds
duration_seconds-le o h = ground arith

-- The time of a positive number of seconds.
unix_time-cases :
    (f : ℕ)
    → 0 < f
    → f < 2 ^ 63
    → ((t : ℕ) × (unix_time f ≡ pos t) × (second ≤ t))
      ⊎ ((n : ℕ) × (unix_time f ≡ negsuc n) × (2 ^ 63 * second ≤ n))
unfolding unix_time
unix_time-cases f some_time fits = elim (Bool-cases (ltb f (2 ^ 63 - 62135596800))) [
  | inl e ↦ inl (f * second, rw e refl, omega arith)
  | inr e ↦ inr ((2 ^ 64 - f) * second - 1, rw e refl, omega arith)
]

finish_seconds-parsed : (o : Option ℤ) {n : ℕ} → finish_seconds o ≡ some n → o ≡ some (pos n)
finish_seconds-parsed none h = cc h
finish_seconds-parsed (some (negsuc n)) h = cc h
finish_seconds-parsed (some (pos n)) h = ground (arith, h)

read_v2-IsInRange :
    (kind code finished duration : Bytes) {e : RemoteExit}
    → read_v2 kind code finished duration ≡ ok e
    → IsInRange e
unfolding read_v2
read_v2-IsInRange kind code finished duration {e} h =
    let (_, _, h1) = >>=-eq-ok (guard invalid_record (bytes_eq kind (codes "CORV_RC_V2"))) _ h in
    let (c, hc, h2) = >>=-eq-ok (or_err invalid_code (exit_code (parse_int code))) _ h1 in
    let (f, hf, h3) =
      >>=-eq-ok (or_err invalid_finish_time (finish_seconds (parse_int finished))) _ h2 in
    let (d, hd, h4) =
      >>=-eq-ok (or_err invalid_duration (duration_seconds (parse_int duration))) _ h3 in
    let same : record { code = c; finished_at = some (unix_time f); duration = d * second } ≡ e =
      cc in
    let bc = exit_code-le (parse_int code) (or_err-eq-ok invalid_code _ hc) in
    let bf = finish_seconds-pos (parse_int finished) (or_err-eq-ok invalid_finish_time _ hf) in
    let bd = duration_seconds-le (parse_int duration) (or_err-eq-ok invalid_duration _ hd) in
    let small : f < 2 ^ 63 =
      parse_int-lt finished
        (finish_seconds-parsed (parse_int finished) (or_err-eq-ok invalid_finish_time _ hf)) in
    subst IsInRange same record {
      code = bc;
      finish = inr (elim (unix_time-cases f bf small) [
        | inl (t, e, late) ↦ inl (t, ap some e, late)
        | inr (n, e, early) ↦ inr (n, ap some e, early)
      ]);
      duration = omega arith;
    }

read_legacy-IsInRange : (code : Bytes) {e : RemoteExit} → read_legacy code ≡ ok e → IsInRange e
unfolding read_legacy
read_legacy-IsInRange code {e} h =
    let (c, hc, h1) = >>=-eq-ok (or_err invalid_legacy_status (exit_code (parse_int code))) _ h in
    let same : record { code = c; finished_at = none; duration = 0 } ≡ e = cc in
    let bc = exit_code-le (parse_int code) (or_err-eq-ok invalid_legacy_status _ hc) in
    subst IsInRange same (record { code = bc; finish = inl refl; duration = omega arith })

read_fields-IsInRange :
    (words : List Bytes) {e : RemoteExit} → read_fields words ≡ ok e → IsInRange e
unfolding read_fields
read_fields-IsInRange (code ∷ []) h = read_legacy-IsInRange code h
read_fields-IsInRange (kind ∷ code ∷ finished ∷ duration ∷ []) h =
    read_v2-IsInRange kind code finished duration h
read_fields-IsInRange _ h = cc

-- An accepted exit record has a code from 0 to 255 and a duration of at most 365 days. If it has a
-- finish time, that is a second or more after the epoch, or the remote seconds are so many that Go's
-- count has wrapped around, and then it is more than 2^63 seconds before the epoch.
pub parse_remote_exit-IsInRange :
    (raw : Bytes) {e : RemoteExit} → parse_remote_exit raw ≡ ok e → IsInRange e
unfolding parse_remote_exit
parse_remote_exit-IsInRange raw h = read_fields-IsInRange (fields raw) h

-- The finish time of a run is between its start and the later one of the start and the observation,
-- whatever time the remote host reports, and whichever clock is behind.
pub resolve_remote_timing_lem :
    (started observed : ℕ) (e : RemoteExit)
    → (started ≤ (resolve_remote_timing started observed e).0)
      × ((resolve_remote_timing started observed e).0 ≤ max started observed)
unfolding resolve_remote_timing
resolve_remote_timing_lem started observed e = (ground arith, ground arith)

-- A remote finish time between the start and the observation is taken as it is, with the remote
-- duration.
resolve_remote_timing-exact :
    (started observed t : ℕ) (e : RemoteExit)
    → e.finished_at ≡ some (pos t)
    → started ≤ t
    → t ≤ observed
    → resolve_remote_timing started observed e ≡ (t, e.duration)
unfolding resolve_remote_timing
resolve_remote_timing-exact started observed t e f h k = ground arith
