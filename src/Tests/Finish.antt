-- ===== src/Tests/Finish.antt =====
-- Finishing a run, at a concrete input.
use corv_client.Prelude.{◌≡◌, refl, none, some, true, false, codes, bytes_eq}
use corv_client.Prelude.Int.{add64}
use corv_client.Prelude.Assoc.{lookup, put, delete}
use corv_client.Broker.State.{
  RunMetadata, ◌>>=◌, pure, job_of, gets, ask, update, modify_job, modify_entry, entry_of,
  succeeded,
}
use corv_client.Broker.Store.{is_current, key_of, save_persisted_job, commit, settle, now}
use corv_client.Broker.Conn.{
  run_raw, run_raw_stdin, conn_for, held_or_dialled, dial_snapshot, keep_dialled, use_conn, sweep,
  exec_raw, run_first, retry,
}
use corv_client.Go.Strings.{fields, index_byte}
use corv_client.Go.Numbers.{parse_int}
use corv_client.Broker.Job.{new_job_record}
use corv_client.Broker.Frame.{parse_retained_log, parse_log_frame, log_words, check_sizes, assemble}
use corv_client.Broker.RunLog.{
  finalize_run_log, copy_remote_log, save_fetched, save_frame, save_run_log, unless_failed,
  put_meta, put_log, finish_log, saved_or_not, finalize_copied, finish_run, cleanup_remote_job,
}
use corv_client.Broker.RunLog.Kept.{finalize_run_log-saved}
use corv_client.Tests.World.{log_world, web_broker, make_job}

abbrev done_metadata : RunMetadata
done_metadata = record {
  exit_code = 0;
  ok = true;
  connection = codes "web";
  started_at = some 1;
  finished_at = some 2;
  duration_ms = 0;
  truncated = false;
  lossy = false;
  original_bytes = 0;
  saved_bytes = 0;
}

log_is_finished :
    (finalize_run_log ⦃w = log_world⦄ 0 (codes "web") 0 done_metadata web_broker).0.refusal ≡ none
unfolding finalize_run_log copy_remote_log save_fetched save_frame save_run_log unless_failed
    put_meta put_log finish_log saved_or_not finalize_copied finish_run cleanup_remote_job ◌>>=◌
    pure job_of gets ask update modify_job modify_entry entry_of succeeded is_current key_of
    save_persisted_job commit settle now run_raw run_raw_stdin conn_for held_or_dialled
    dial_snapshot keep_dialled use_conn sweep exec_raw run_first retry fields index_byte parse_int
    new_job_record parse_retained_log parse_log_frame log_words check_sizes assemble lookup put
    delete bytes_eq add64
log_is_finished = refl

finalize_run_log-saved_example :
    lookup make_job.id
      (finalize_run_log ⦃w = log_world⦄ 0 (codes "web") 0 done_metadata web_broker).1.logs
    ≡ some (finalize_run_log ⦃w = log_world⦄ 0 (codes "web") 0 done_metadata web_broker).0.log.bytes
finalize_run_log-saved_example =
    finalize_run_log-saved ⦃w = log_world⦄ 0 (codes "web") 0 done_metadata web_broker
      log_is_finished
