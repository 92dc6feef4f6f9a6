-- ===== src/Broker/Frame.antt =====
-- The frames in which a remote host sends a log: `parseRetainedLog` of
-- internal/broker/run_output.go and `parseJobProgress` of internal/broker/run_protocol.go.
pub mod Sizes
use corv_client.Prelude.{
  ℕ, suc, ◌+◌, ◌-◌, ◌*◌, ◌^◌, Bool, true, false, ◌||◌, not, List, [], ◌∷◌, ◌++◌, Bytes, codes,
  Option, none, some, length, take, drop, ltb, leb, if◌then◌else◌, bytes_eq,
}
use corv_client.Prelude.Int.{ℤ, pos, negsuc, add64, ltb_ℤ, eq_ℤ}
use corv_client.Prelude.Result.{Result, ok, err, ◌>>=◌, ◌>>◌, or_err, guard}
use corv_client.Go.Strings.{fields, index_byte}
use corv_client.Go.Numbers.{parse_int, decimal}

abbrev pub max_local_log_bytes : ℕ
max_local_log_bytes = 20 * 1024 * 1024

abbrev pub max_running_output_bytes : ℕ
max_running_output_bytes = 16 * 1024

abbrev pub retained_log_head_bytes : ℕ
retained_log_head_bytes = 4 * 1024 * 1024

abbrev pub retained_log_frame_margin : ℕ
retained_log_frame_margin = 256

abbrev pub retained_log_tail_bytes : ℕ
retained_log_tail_bytes = max_local_log_bytes - retained_log_head_bytes - retained_log_frame_margin

-- `lossy` is set by the caller, so it is no field here.
pub record RetainedLog : Type 0 where
  pub bytes : Bytes  -- data
  pub original_bytes : ℕ
  pub truncated : Bool
  pub missing : Bool

-- The errors, and the panic of a slice out of range.
pub data FrameError : Type 0 where
  invalid_frame invalid_sizes incomplete_frame over_limit : FrameError
  invalid_state invalid_size payload_over_limit : FrameError
  slice_panic : FrameError

-- `lineEnd < 0 || lineEnd >= retainedLogFrameMargin`
abbrev pub header_end : Option ℕ → Option ℕ
header_end none = none
header_end (some i) = if leb retained_log_frame_margin i then none else some i

-- The four words of the header line: the three behind the tag.
unfoldable pub log_words : List Bytes → Option (Bytes × Bytes × Bytes)
log_words (tag ∷ a ∷ b ∷ c ∷ []) =
    if bytes_eq tag (codes "CORV_LOG_V1") then some (a, b, c) else none
log_words _ = none

-- The test on the three sizes; the sum is an `int64` and may wrap.
unfoldable pub check_sizes : ℤ → ℤ → ℤ → Option (ℕ × ℕ × ℕ)
check_sizes (pos original) (pos head) (pos tail) =
    let sum = add64 (pos head) (pos tail) in
    if ltb_ℤ (pos max_local_log_bytes) sum || ltb_ℤ (pos original) sum
    then none
    else some (original, head, tail)
check_sizes _ _ _ = none

abbrev pub omission_marker : ℕ → ℕ → ℕ → Bytes
omission_marker head tail omitted =
    10
    ∷ (codes "[Corv retained first "
        ++ (decimal head
            ++ (codes " bytes and last "
                ++ (decimal tail
                    ++ (codes " bytes; "
                        ++ (decimal omitted ++ (codes " bytes omitted]" ++ 10 ∷ [])))))))

-- The payload with the marker in its middle. The slices of the source panic if `head` is past the
-- payload.
unfoldable pub cut_middle : ℕ → ℕ → ℕ → Bytes → Result FrameError RetainedLog
cut_middle original head tail payload =
    let mark = omission_marker head tail (original - head - tail) in
    if ltb max_local_log_bytes (length payload + length mark)
    then err over_limit
    else if ltb (length payload) head
    then err slice_panic
    else ok (record {
      bytes = take head payload ++ (mark ++ drop head payload);
      original_bytes = original;
      truncated = true;
      missing = false;
    })

-- What follows the header.
unfoldable pub assemble : ℕ → ℕ → ℕ → Bytes → Result FrameError RetainedLog
assemble original head tail payload =
    if not (eq_ℤ (pos (length payload)) (add64 (pos head) (pos tail)))
    then err incomplete_frame
    else if eq_ℤ (pos original) (pos (length payload))
    then ok
        (record { bytes = payload; original_bytes = original; truncated = false; missing = false })
    else cut_middle original head tail payload

-- `parseRetainedLog` on a frame that is not the one for a missing log.
unfoldable pub parse_log_frame : Bytes → Result FrameError RetainedLog
parse_log_frame raw = do
  line_end ← or_err invalid_frame (header_end (index_byte 10 raw))
  (a, b, c) ← or_err invalid_frame (log_words (fields (take line_end raw)))
  original ← or_err invalid_sizes (parse_int a)
  head ← or_err invalid_sizes (parse_int b)
  tail ← or_err invalid_sizes (parse_int c)
  (o, h, t) ← or_err invalid_sizes (check_sizes original head tail)
  assemble o h t (drop (suc line_end) raw)

abbrev pub missing_frame : Bytes
missing_frame = codes "CORV_LOG_MISSING" ++ 10 ∷ []

unfoldable pub parse_retained_log : Bytes → Result FrameError RetainedLog
parse_retained_log raw =
    if bytes_eq raw missing_frame
    then ok (record { bytes = []; original_bytes = 0; truncated = false; missing = true })
    else parse_log_frame raw

pub data RunState : Type 0 where
  remote_running remote_done remote_missing : RunState

pub record JobProgress : Type 0 where
  pub state : RunState
  pub bytes : Bytes  -- data
  pub original_bytes : ℕ

unfoldable pub progress_words : List Bytes → Option (Bytes × Bytes)
progress_words (tag ∷ a ∷ b ∷ []) =
    if bytes_eq tag (codes "CORV_PROGRESS_V1") then some (a, b) else none
progress_words _ = none

unfoldable pub run_state : Bytes → Option RunState
run_state s =
    if bytes_eq s (codes "running")
    then some remote_running
    else if bytes_eq s (codes "done")
    then some remote_done
    else if bytes_eq s (codes "missing")
    then some remote_missing
    else none

-- `err != nil || size < 0`
abbrev pub not_negative : Option ℤ → Option ℕ
not_negative none = none
not_negative (some (negsuc n)) = none
not_negative (some (pos n)) = some n

unfoldable pub parse_job_progress : Bytes → Result FrameError JobProgress
parse_job_progress raw = do
  line_end ← or_err invalid_frame (header_end (index_byte 10 raw))
  (a, b) ← or_err invalid_frame (progress_words (fields (take line_end raw)))
  state ← or_err invalid_state (run_state a)
  size ← or_err invalid_size (not_negative (parse_int b))
  let payload = drop (suc line_end) raw
  guard payload_over_limit (leb (length payload) max_running_output_bytes)
  ok (record {
    state = state;
    bytes = payload;
    original_bytes = if ltb size (length payload) then length payload else size;
  })
