-- ===== src/Broker/Output.antt =====
-- internal/broker/run_output.go: the output of a run, from its saved log or from the remote host.
pub mod Sound
use corv_client.Prelude.{
  ℕ, ◌+◌, ◌-◌, ◌*◌, ◌/◌, Bool, true, false, not, ◌&&◌, ◌||◌, List, [], ◌∷◌, ◌++◌, Bytes, codes,
  length, Option, none, some, ltb, leb, ◌==◌, if◌then◌else◌, bytes_eq, is_empty,
}
use corv_client.Prelude.Assoc.{lookup}
use corv_client.Prelude.Result.{Result, ok, err}
use corv_client.Go.Strings.{split, contains}
use corv_client.Go.Utf8.{valid}
use corv_client.Output.Process.{bound, signals}
use corv_client.Broker.Errors.{Failure, kind_text, ssh_error}
use corv_client.Broker.Ids.{valid_run_id}
use corv_client.Broker.Exit.{RemoteExit, ExitError, parse_remote_exit, resolve_remote_timing}
use corv_client.Broker.Frame.{
  max_running_output_bytes, RunState, remote_running, remote_done, remote_missing, JobProgress,
}
use corv_client.Broker.Job.{expired, finalize_pending, Job, JobRecord, record_to_job, of_unix}
use corv_client.Broker.State.{
  World, Broker, Snapshot, RunMetadata, M, ◌>>=◌, ◌>>◌, pure, gets, ask, quiet, job_of, modify_job,
  entry_of, add_job, entry_for,
}
use corv_client.Broker.Store.{
  now, status_eq, persisted_job_by_run_id, save_persisted_job, migrate_legacy_fingerprints,
}
use corv_client.Broker.Conn.{prepare_entry}
use corv_client.Broker.Reply.{
  Response, blank_response, refused, expired_run_response, unavailable_run_output_response,
}
use corv_client.Broker.Remote.{read_remote_rc, read_remote_progress}
use corv_client.Broker.Run.{expire_job, release_job, remove_job}
use corv_client.Broker.RunLog.{Finalized, finalize_run_log}
use corv_client.Broker.Watch.{
  max_inline_output_bytes, byte_budget, signal_count, start_time, millisecond, knows_end,
  expiry_response, clean_text,
}
use corv_client.Broker.Finalize.{local_failure, text_of, finalize_output}

-- How `readRunFile` ends: its last answer, behind all its retries.
pub data ReadRun (A : Type 0) : Type 0 where
  read_run : A → ReadRun A
  no_file : ReadRun A
  unreadable : Failure → ReadRun A

abbrev pub read_answer : {A : Type 0} → Option Failure → Option A → ReadRun A
read_answer e none = no_file
read_answer none (some a) = read_run a
read_answer (some e) (some a) = unreadable e

-- `metadata.FinishedAt.Before(metadata.StartedAt)` and the two tests for a zero time
abbrev times_are_valid : Option ℕ → Option ℕ → Bool
times_are_valid (some started) (some finished) = leb started finished
times_are_valid started finished = false

unfoldable pub with_metadata : Response → Result Failure RunMetadata → Response
with_metadata resp (err f) =
    refused (codes "read run metadata: " ++ f.text) (codes "local_error") resp.run_id
with_metadata resp (ok m) =
    if is_empty m.connection || not (times_are_valid m.started_at m.finished_at)
    then refused (codes "read run metadata: invalid metadata") (codes "local_error") resp.run_id
    else record resp {
      ok = m.ok;
      exit_code = m.exit_code;
      connection = m.connection;
      started_at = m.started_at;
      finished_at = m.finished_at;
      duration_ms = m.duration_ms;
      truncated = m.truncated;
      lossy = resp.lossy || m.lossy;
      original_bytes = if ltb 0 m.original_bytes then m.original_bytes else resp.original_bytes;
      saved_bytes = if ltb 0 m.saved_bytes then m.saved_bytes else resp.saved_bytes;
      highlights =
          resp.highlights
          ++ (if m.truncated
              then codes "retained log exceeded 20 MiB; middle bytes were omitted" ∷ []
              else []);
      run_metadata = true;
    }

unfoldable pub add_metadata : Response → ReadRun (Result Failure RunMetadata) → Response
add_metadata resp no_file = resp
add_metadata resp (unreadable f) = local_failure resp.run_id f
add_metadata resp (read_run m) = with_metadata resp m

module _ ⦃w : World⦄ where
  unfoldable pub read_log : Bytes → M (ReadRun Bytes)
  read_log id = do e ← ask w.delay w.read_error quiet; gets (λ s. read_answer e (lookup id s.logs))

  unfoldable pub read_meta : Bytes → M (ReadRun (Result Failure RunMetadata))
  read_meta id = do
    e ← ask w.delay w.read_error quiet
    gets (λ s. read_answer e (lookup id s.metas))

  unfoldable pub log_response : Bytes → Bytes → Bytes → Response
  log_response id pattern bytes =
      let text = text_of pattern bytes in
      let rendered = bound text (byte_budget max_inline_output_bytes) in
      record blank_response {
        ok = true;
        stdout = rendered;
        highlights = signals w.patterns text signal_count;
        run_id = id;
        output_truncated = not (bytes_eq rendered text);
        original_bytes = length bytes;
        saved_bytes = length bytes;
        returned_bytes = length rendered;
        lossy = not (valid bytes);
      }

  unfoldable pub output_log : Bytes → Bytes → ReadRun Bytes → M Response
  output_log id pattern no_file = pure (refused (codes "unknown run id") (codes "bad_request") id)
  output_log id pattern (unreadable f) = pure (local_failure id f)
  output_log id pattern (read_run bytes) = do
    m ← read_meta id
    pure (add_metadata (log_response id pattern bytes) m)

  -- What follows `finalizeOutput`: its response, or the log is read again.
  unfoldable pub output_finalized : Bytes → Bytes → Option Response → M Response
  output_finalized id pattern (some resp) = pure resp
  output_finalized id pattern none = do l ← read_log id; output_log id pattern l

  unfoldable pub output_first : Bytes → Bytes → ReadRun Bytes → M Response
  output_first id pattern no_file = do x ← finalize_output id pattern; output_finalized id pattern x
  output_first id pattern l = output_log id pattern l

  unfoldable pub output_paths : Bytes → Bytes → Option Failure → M Response
  output_paths id pattern (some f) = pure (local_failure id f)
  output_paths id pattern none = do l ← read_log id; output_first id pattern l

  -- `output`; the audit log's note of the completion is not modelled.
  unfoldable pub output : Bytes → Bytes → M Response
  output id pattern =
      if not (valid_run_id id)
      then pure (refused (codes "valid run id is required") (codes "bad_request") [])
      else (do f ← ask w.delay w.paths_error quiet; output_paths id pattern f)
