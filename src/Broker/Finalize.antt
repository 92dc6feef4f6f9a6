-- ===== src/Broker/Finalize.antt =====
-- internal/broker/run_output.go: a run whose log is not saved yet is finished by a request for its output.
pub mod Sound
use corv_client.Prelude.{
  ℕ, ◌+◌, ◌-◌, ◌*◌, ◌/◌, Bool, true, false, not, ◌&&◌, ◌||◌, List, [], ◌∷◌, ◌++◌, Bytes, codes,
  length, Option, none, some, ltb, leb, ◌==◌, if◌then◌else◌, bytes_eq, is_empty,
}
use corv_client.Prelude.Assoc.{lookup}
use corv_client.Prelude.Result.{Result, ok, err}
use corv_client.Go.Strings.{split, contains}
use corv_client.Go.Utf8.{valid}
use corv_client.Output.Process.{bound, signals}
use corv_client.Broker.Errors.{Failure, kind_text, ssh_error}
use corv_client.Broker.Ids.{valid_run_id}
use corv_client.Broker.Exit.{RemoteExit, ExitError, parse_remote_exit, resolve_remote_timing}
use corv_client.Broker.Frame.{
  max_running_output_bytes, RunState, remote_running, remote_done, remote_missing, JobProgress,
}
use corv_client.Broker.Job.{expired, finalize_pending, Job, JobRecord, record_to_job, of_unix}
use corv_client.Broker.State.{
  World, Broker, Snapshot, RunMetadata, M, ◌>>=◌, ◌>>◌, pure, gets, ask, quiet, job_of, modify_job,
  entry_of, add_job, entry_for,
}
use corv_client.Broker.Store.{
  now, status_eq, persisted_job_by_run_id, save_persisted_job, migrate_legacy_fingerprints,
}
use corv_client.Broker.Conn.{prepare_entry}
use corv_client.Broker.Reply.{
  Response, blank_response, refused, expired_run_response, unavailable_run_output_response,
}
use corv_client.Broker.Remote.{read_remote_rc, read_remote_progress}
use corv_client.Broker.Run.{expire_job, release_job, remove_job}
use corv_client.Broker.RunLog.{Finalized, finalize_run_log}
use corv_client.Broker.Watch.{
  max_inline_output_bytes, byte_budget, signal_count, start_time, millisecond, knows_end,
  expiry_response, clean_text,
}

abbrev pub local_failure : Bytes → Failure → Response
local_failure id f = refused f.text (codes "local_error") id

unfoldable pub keep_lines : (Bytes → Bool) → List Bytes → Bytes
keep_lines test [] = []
keep_lines test (l ∷ ls) =
    let rest = keep_lines test ls in if test l then l ++ (10 ∷ rest) else rest

abbrev line_test : Bytes → Option (Bytes → Bool) → Bytes → Bool
line_test pattern none line = contains line pattern
line_test pattern (some matches) line = matches line

-- The job's update in `finalizeOutput` on its exit
unfoldable pub note_output_exit : ℕ → RemoteExit → Job → Job
note_output_exit observed x j =
    let timing = resolve_remote_timing (start_time j.started_at) observed x in
    record j {
      is_done = true;
      exit_code = x.code;
      status = finalize_pending;
      finished_at = some timing.0;
      duration_ms = timing.1 / millisecond;
    }

module _ ⦃w : World⦄ where
  -- `grepText`
  unfoldable pub grep_text : Bytes → Bytes → Bytes
  grep_text text pattern = keep_lines (line_test pattern (w.compile pattern)) (split 10 text)

  unfoldable pub text_of : Bytes → Bytes → Bytes
  text_of pattern bytes =
      if is_empty pattern then clean_text bytes else grep_text (clean_text bytes) pattern

  -- `loadConnectionSnapshot`
  abbrev migration_failure : Failure → Failure
  migration_failure f = record f { text = codes "migrate saved run identity: " ++ f.text }

  unfoldable pub migrated : Snapshot → Option Failure → Result Failure (Option Snapshot)
  migrated n none = ok (some n)
  migrated n (some f) = err (migration_failure f)

  unfoldable pub migrate_loaded :
      Bytes → Result Failure (Option Snapshot) → M (Result Failure (Option Snapshot))
  migrate_loaded name (err f) = pure (err f)
  migrate_loaded name (ok none) = pure (ok none)
  migrate_loaded name (ok (some n)) = do
    x ← migrate_legacy_fingerprints name n.fingerprint n.legacy_fingerprint
    pure (migrated n x)

  unfoldable pub load_connection_snapshot : Bytes → M (Result Failure (Option Snapshot))
  load_connection_snapshot name = do
    r ← ask w.delay (λ n. w.load_snapshot n name) quiet
    migrate_loaded name r

  -- The job in memory that `finalizeOutput` goes on with.
  unfoldable pub rebuild_job : ℕ → Bytes → JobRecord → M ℕ
  rebuild_job e fingerprint r = do
    t ← now
    add_job e r.key (record (record_to_job t r) { fingerprint = fingerprint })

  unfoldable pub job_of_slot : ℕ → Bytes → JobRecord → Option ℕ → M ℕ
  job_of_slot e fingerprint r none = rebuild_job e fingerprint r
  job_of_slot e fingerprint r (some a) = do
    j ← job_of a
    if bytes_eq j.id r.run_id then pure a else rebuild_job e fingerprint r

  unfoldable pub progress_response : Bytes → Bytes → JobRecord → JobProgress → ℕ → Response
  progress_response id pattern r p time =
      let cleaned = text_of pattern p.bytes in
      let rendered = bound cleaned (byte_budget max_running_output_bytes) in
      record blank_response {
        exit_code = 75;
        stdout = rendered;
        highlights = signals w.patterns cleaned signal_count;
        duration_ms = (time - start_time (of_unix 0 r.started_at)) / millisecond;
        error = codes "remote process has not exited; recent output follows";
        running = true;
        run_id = id;
        output_truncated = ltb (length p.bytes) p.original_bytes || not (bytes_eq rendered cleaned);
        lossy = not (valid p.bytes);
        original_bytes = p.original_bytes;
        returned_bytes = length rendered;
      }

  unfoldable pub observe_running :
      Bytes → ℕ → Bytes → Bytes → JobRecord → JobProgress → M (Option Response)
  observe_running profile a id pattern r p = do
    t ← now
    modify_job a (λ j. record j { last_seen_at = some t })
    _ ← save_persisted_job profile a
    t2 ← now
    pure (some (progress_response id pattern r p t2))

  unfoldable pub observe_missing : ℕ → Bytes → ℕ → Bytes → M (Option Response)
  observe_missing e profile a id = do
    j ← job_of a
    if knows_end j
        then pure (some (unavailable_run_output_response id j.exit_code))
        else (do x ← expire_job e profile a; pure (some (expiry_response id x)))

  -- The end of `finalizeOutput`: a keyed run keeps its record.
  unfoldable pub leave_job : ℕ → Bytes → ℕ → JobRecord → Option Response → M (Option Response)
  leave_job e profile a r (some resp) = pure (some resp)
  leave_job e profile a r none =
      if is_empty r.run_key_hash
      then remove_job e profile r.key a >> pure none
      else release_job e a >> pure none

  unfoldable pub finalize_noted :
      ℕ → Bytes → ℕ → JobRecord → RemoteExit → Option Failure → M (Option Response)
  finalize_noted e profile a r x (some f) =
      pure (some (refused (codes "save run state: " ++ f.text) (codes "local_error") r.run_id))
  finalize_noted e profile a r x none = do
    j ← job_of a
    f ← finalize_run_log e profile a (record {
      exit_code = x.code;
      ok = x.code == 0;
      connection = profile;
      started_at = j.started_at;
      finished_at = j.finished_at;
      duration_ms = j.duration_ms;
      truncated = false;
      lossy = false;
      original_bytes = 0;
      saved_bytes = 0;
    })
    leave_job e profile a r f.refusal

  unfoldable pub note_end :
      ℕ → Bytes → ℕ → JobRecord → Result ExitError RemoteExit → M (Option Response)
  note_end e profile a r (err x) = pure (
      some (refused (codes "remote run has an invalid exit status") (kind_text ssh_error) r.run_id))
  note_end e profile a r (ok x) = do
    t ← now
    modify_job a (note_output_exit t x)
    f ← save_persisted_job profile a
    finalize_noted e profile a r x f

  unfoldable pub note_rc : ℕ → Bytes → ℕ → JobRecord → Result Response Bytes → M (Option Response)
  note_rc e profile a r (err resp) = pure (some resp)
  note_rc e profile a r (ok rc) = note_end e profile a r (parse_remote_exit rc)

  unfoldable pub observe_state :
      RunState → ℕ → Bytes → ℕ → Bytes → JobRecord → JobProgress → M (Option Response)
  observe_state remote_running e profile a pattern r p =
      observe_running profile a r.run_id pattern r p
  observe_state remote_missing e profile a pattern r p = observe_missing e profile a r.run_id
  observe_state remote_done e profile a pattern r p = do
    rc ← read_remote_rc e r.run_id
    note_rc e profile a r rc

  unfoldable pub observe :
      ℕ → Bytes → ℕ → Bytes → JobRecord → Result Response JobProgress → M (Option Response)
  observe e profile a pattern r (err resp) = pure (some resp)
  observe e profile a pattern r (ok p) = observe_state p.state e profile a pattern r p

  -- `os.Stat` of the log: another finalizer may have been there.
  abbrev is_there : Option Failure → Option Bytes → Bool
  is_there none (some log) = true
  is_there e o = false

  unfoldable pub finalize_with : Bytes → JobRecord → Snapshot → M (Option Response)
  finalize_with pattern r n =
      if not (is_empty r.fingerprint) && not (bytes_eq r.fingerprint n.fingerprint)
      then pure (
          some (
            refused
              (codes "saved connection changed; cannot finalize the previous remote run safely")
              (codes "run_key_conflict") r.run_id))
      else (do
        e ← entry_for n.name
        prepare_entry e n
        x ← entry_of e
        a ← job_of_slot e n.fingerprint r (lookup r.key x.jobs)
        f ← ask w.delay w.paths_error quiet
        there ← gets (λ s. is_there f (lookup r.run_id s.logs))
        if there
            then pure none
            else (do p ← read_remote_progress e r.run_id; observe e n.name a pattern r p))

  abbrev or_record : JobRecord → Option JobRecord → JobRecord
  or_record r none = r
  or_record r (some x) = x

  unfoldable pub finalize_loaded :
      Bytes → JobRecord → Result Failure (Option Snapshot) → M (Option Response)
  finalize_loaded pattern r (err f) = pure (some (local_failure r.run_id f))
  finalize_loaded pattern r (ok none) = pure (
      some (
        refused (codes "saved connection for this run no longer exists")
          (codes "unknown_connection") r.run_id))
  finalize_loaded pattern r (ok (some n)) = do
    m ← persisted_job_by_run_id r.run_id
    finalize_with pattern (or_record r m) n

  unfoldable pub finalize_record : Bytes → Bytes → Option JobRecord → M (Option Response)
  finalize_record id pattern none = pure none
  finalize_record id pattern (some r) =
      if status_eq r.status expired
      then pure (some (expired_run_response id))
      else (do l ← load_connection_snapshot r.profile; finalize_loaded pattern r l)

  -- `finalizeOutput`: `none` where its second result is false.
  unfoldable pub finalize_output : Bytes → Bytes → M (Option Response)
  finalize_output id pattern = do r ← persisted_job_by_run_id id; finalize_record id pattern r
