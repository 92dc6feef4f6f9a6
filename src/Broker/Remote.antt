-- ===== src/Broker/Remote.antt =====
-- internal/broker/run_protocol.go: the reads from a remote host.
use corv_client.Prelude.{ℕ, ◌+◌, ◌++◌, Bytes, codes, if◌then◌else◌}
use corv_client.Prelude.Result.{Result, ok, err}
use corv_client.Go.Strings.{trim_space}
use corv_client.Broker.Errors.{Failure, kind_text, ssh_error}
use corv_client.Broker.Frame.{
  FrameError, JobProgress, parse_job_progress, max_running_output_bytes, retained_log_frame_margin,
}
use corv_client.Broker.State.{World, RawResult, succeeded, M, ◌>>=◌, pure}
use corv_client.Broker.Keeps.{Keeps, keeps_rules}
use corv_client.Broker.Conn.{max_delta_bytes, run_raw}
use corv_client.Broker.Conn.Sound.{conn_rules}
use corv_client.Broker.Commands.{
  tail_job_command, rc_job_command, state_job_command, progress_job_command,
}
use corv_client.Broker.Reply.{
  Response, refused, unreachable_response, failed_response, frame_error_text,
}

-- The two tests that the readers share: a connection, and a command that succeeded.
unfoldable pub output_of : Bytes → Result Failure RawResult → Result Response Bytes
output_of id (err e) = err (unreachable_response id e)
output_of id (ok r) = if succeeded r then ok r.stdout else err (failed_response id r)

unfoldable pub trimmed : Result Response Bytes → Result Response Bytes
trimmed (err r) = err r
trimmed (ok out) = ok (trim_space out)

abbrev progress_of : Bytes → Result FrameError JobProgress → Result Response JobProgress
progress_of id (ok p) = ok p
progress_of id (err e) =
    err
      (refused (codes "read remote run progress: " ++ frame_error_text e) (kind_text ssh_error) id)

unfoldable pub read_progress : Bytes → Result Response Bytes → Result Response JobProgress
read_progress id (err r) = err r
read_progress id (ok out) = progress_of id (parse_job_progress out)

module _ ⦃w : World⦄ where
  -- `readRemoteDelta`; its byte count is the length of the text.
  unfoldable pub read_remote_delta : ℕ → Bytes → ℕ → ℕ → M (Result Response Bytes)
  read_remote_delta e id offset max = do
    r ← run_raw e (tail_job_command id offset max) max
    pure (output_of id r)

  -- `readRemoteRC`
  unfoldable pub read_remote_rc : ℕ → Bytes → M (Result Response Bytes)
  read_remote_rc e id = do
    r ← run_raw e (rc_job_command id) max_delta_bytes
    pure (trimmed (output_of id r))

  unfoldable pub read_remote_state : ℕ → Bytes → M (Result Response Bytes)
  read_remote_state e id = do
    r ← run_raw e (state_job_command id) max_delta_bytes
    pure (trimmed (output_of id r))

  unfoldable pub read_remote_progress : ℕ → Bytes → M (Result Response JobProgress)
  read_remote_progress e id = do
    r ← run_raw e (progress_job_command id) (max_running_output_bytes + retained_log_frame_margin)
    pure (read_progress id (output_of id r))

  pub Keeps-read_remote_delta :
      (e : ℕ) (id : Bytes) (offset max : ℕ) → Keeps (read_remote_delta e id offset max)
  unfolding read_remote_delta
  Keeps-read_remote_delta e id offset max = search (keeps_rules, conn_rules)

  pub Keeps-read_remote_rc : (e : ℕ) (id : Bytes) → Keeps (read_remote_rc e id)
  unfolding read_remote_rc
  Keeps-read_remote_rc e id = search (keeps_rules, conn_rules)

  pub Keeps-read_remote_state : (e : ℕ) (id : Bytes) → Keeps (read_remote_state e id)
  unfolding read_remote_state
  Keeps-read_remote_state e id = search (keeps_rules, conn_rules)

  pub Keeps-read_remote_progress : (e : ℕ) (id : Bytes) → Keeps (read_remote_progress e id)
  unfolding read_remote_progress
  Keeps-read_remote_progress e id = search (keeps_rules, conn_rules)

pub ruleset remote_rules = (
  Keeps-read_remote_delta, Keeps-read_remote_rc, Keeps-read_remote_state,
  Keeps-read_remote_progress,
)
