-- ===== src/Broker/RunLog.antt =====
-- internal/broker/run_output.go: a finished run's log is fetched and saved, and its remote files are
-- removed.
pub mod Sound
pub mod Kept
use corv_client.Prelude.{
  ℕ, ◌+◌, ◌*◌, ◌/◌, Bool, true, false, not, ◌&&◌, List, [], ◌∷◌, ◌++◌, Bytes, codes, length, Option,
  none, some, if◌then◌else◌, bytes_eq, is_empty,
}
use corv_client.Prelude.Assoc.{lookup, put, delete}
use corv_client.Prelude.Result.{Result, ok, err}
use corv_client.Go.Strings.{trim_space, contains}
use corv_client.Go.Numbers.{decimal}
use corv_client.Go.Utf8.{valid}
use corv_client.Broker.Errors.{Failure, kind_text, ssh_error, classify}
use corv_client.Broker.Frame.{
  RetainedLog, FrameError, parse_retained_log, max_local_log_bytes, retained_log_frame_margin,
}
use corv_client.Broker.Job.{done, finalize_pending}
use corv_client.Broker.State.{
  World, Broker, RawResult, RunMetadata, is_no_error, succeeded, M, ◌>>=◌, ◌>>◌, pure, ask, quiet,
  modify_job, job_of,
}
use corv_client.Broker.Store.{save_persisted_job}
use corv_client.Broker.Conn.{max_delta_bytes, run_raw}
use corv_client.Broker.Commands.{full_log_command, cleanup_job_command}
use corv_client.Broker.Reply.{
  Response, blank_response, unavailable_run_output_response, log_error_text,
}

-- `retainedLogError`
pub record LogError : Type 0 where
  pub kind : Bytes
  pub text : Bytes

-- What `copyRemoteLog` returns: whether there is a path, the log with its `lossy`, and the error.
pub record Copied : Type 0 where
  pub saved : Bool
  pub log : RetainedLog
  pub lossy : Bool
  pub failure : Option LogError

-- What `finalizeRunLog` returns
pub record Finalized : Type 0 where
  pub saved : Bool
  pub log : RetainedLog
  pub lossy : Bool
  pub refusal : Option Response

-- `retainedLog{}`
abbrev pub no_log : RetainedLog
no_log = record { bytes = []; original_bytes = 0; truncated = false; missing = false }

abbrev pub not_copied : Bytes → Bytes → Copied
not_copied kind text = record {
  saved = false;
  log = no_log;
  lossy = false;
  failure = some (record { kind = kind; text = text });
}

unfoldable pub put_meta : Bytes → Result Failure RunMetadata → M (Unit {0})
put_meta id m s = (tt, record s { metas = put id m s.metas })

unfoldable pub delete_meta : Bytes → M (Unit {0})
delete_meta id s = (tt, record s { metas = delete id s.metas })

unfoldable pub put_log : Bytes → Bytes → M (Unit {0})
put_log id bytes s = (tt, record s { logs = put id bytes s.logs })

unfoldable pub unless_failed : Option Failure → M (Option Failure) → M (Option Failure)
unless_failed (some e) m = pure (some e)
unless_failed none m = m

-- The end of `saveRunLog`
unfoldable pub finish_log : Bytes → Bytes → Option Failure → M (Option Failure)
finish_log id bytes (some e) = delete_meta id >> pure (some e)
finish_log id bytes none = put_log id bytes >> pure none

unfoldable pub log_failure_detail : RawResult → Bytes
log_failure_detail r =
    if is_empty (trim_space r.stderr)
    then codes "remote log command exited with status " ++ decimal r.exit_code
    else trim_space r.stderr

unfoldable pub saved_or_not : RetainedLog → Bool → Option Failure → Copied
saved_or_not log lossy none = record { saved = true; log = log; lossy = lossy; failure = none }
saved_or_not log lossy (some e) = record {
  saved = false;
  log = log;
  lossy = lossy;
  failure = some (record {
    kind = codes "local_error";
    text = codes "save retained run log locally: " ++ e.text;
  });
}

abbrev pub retry_hint : Bytes
retry_hint =
    codes
      "Remote output was retained and finalization can be retried with the same command or run id"

unfoldable pub refusal_of : Bytes → LogError → Response
refusal_of id e =
    let local =
      bytes_eq e.kind (codes "local_error")
      && contains e.text (codes "save retained run log locally") in
    record blank_response {
      exit_code = 1;
      error = e.text;
      kind = e.kind;
      highlights =
          retry_hint
          ∷ (if local
              then codes "Corv could not save the run log locally; remote copy retained" ∷ []
              else []);
      run_id = id;
    }

module _ ⦃w : World⦄ where
  -- `saveRunLog`: the metadata first, and without them no log.
  unfoldable pub save_run_log : Bytes → Bytes → RunMetadata → M (Option Failure)
  save_run_log id bytes metadata = do
    p ← ask w.delay w.paths_error quiet
    unless_failed p (do
      d ← ask w.delay w.write_error quiet
      unless_failed d (do
        m ← ask w.delay w.write_error quiet
        unless_failed m (do
          put_meta id (ok metadata)
          l ← ask w.delay w.write_error quiet
          finish_log id bytes l)))

  -- `copyRemoteLog` from the frame on
  unfoldable pub save_frame : Bytes → RunMetadata → Result FrameError RetainedLog → M Copied
  save_frame id metadata (err x) =
      pure (not_copied (kind_text ssh_error) (codes "read retained run log: " ++ log_error_text x))
  save_frame id metadata (ok log) =
      if log.missing
      then pure (record { saved = false; log = log; lossy = false; failure = none })
      else (do
        let lossy = not (valid log.bytes)
        x ← save_run_log id log.bytes (record metadata {
          truncated = log.truncated;
          original_bytes = log.original_bytes;
          saved_bytes = length log.bytes;
          lossy = lossy;
        })
        pure (saved_or_not log lossy x))

  unfoldable pub save_fetched : Bytes → RunMetadata → Result Failure RawResult → M Copied
  save_fetched id metadata (err e) =
      pure (not_copied (kind_text (classify e)) (codes "fetch retained run log: " ++ e.text))
  save_fetched id metadata (ok r) =
      if succeeded r
      then save_frame id metadata (parse_retained_log r.stdout)
      else pure (
          not_copied (kind_text (if is_no_error r.kind then ssh_error else r.kind))
            (codes "fetch retained run log: " ++ log_failure_detail r))

  -- `copyRemoteLog`
  unfoldable pub copy_remote_log : ℕ → Bytes → RunMetadata → M Copied
  copy_remote_log e id metadata = do
    r ← run_raw e (full_log_command id) (max_local_log_bytes + retained_log_frame_margin)
    save_fetched id metadata r

  -- `cleanupRemoteJob`, whose failure is only logged
  unfoldable pub cleanup_remote_job : ℕ → Bytes → M (Unit {0})
  cleanup_remote_job e id = do _ ← run_raw e (cleanup_job_command id) max_delta_bytes; pure tt

  -- The save of `jobStatusDone` decides.
  unfoldable pub finish_run : ℕ → ℕ → Bytes → Copied → Option Failure → M Finalized
  finish_run e a id c (some f) = do
    modify_job a (λ j. record j { status = finalize_pending })
    pure (record {
      saved = false;
      log = c.log;
      lossy = c.lossy;
      refusal = some (record blank_response {
        exit_code = 1;
        error =
            codes "retained run log was saved, but Corv could not persist its final state: "
            ++ f.text;
        kind = codes "local_error";
        highlights = retry_hint ∷ [];
        run_id = id;
      });
    })
  finish_run e a id c none = do
    cleanup_remote_job e id
    pure (record { saved = c.saved; log = c.log; lossy = c.lossy; refusal = none })

  unfoldable pub finalize_copied :
      ℕ → Bytes → ℕ → Bytes → ℕ → Copied → Option LogError → M Finalized
  finalize_copied e profile a id code c (some x) =
      pure
        (record { saved = false; log = c.log; lossy = c.lossy; refusal = some (refusal_of id x) })
  finalize_copied e profile a id code c none =
      if c.log.missing
      then pure (record {
        saved = false;
        log = c.log;
        lossy = c.lossy;
        refusal = some (unavailable_run_output_response id code);
      })
      else (do
        modify_job a (λ j. record j { status = done })
        x ← save_persisted_job profile a
        finish_run e a id c x)

  -- `finalizeRunLog`
  unfoldable pub finalize_run_log : ℕ → Bytes → ℕ → RunMetadata → M Finalized
  finalize_run_log e profile a metadata = do
    j ← job_of a
    c ← copy_remote_log e j.id metadata
    finalize_copied e profile a j.id metadata.exit_code c c.failure
