-- ===== src/Broker/Run.antt =====
-- internal/broker/server.go and jobs.go: which job serves a request, and how it is started.
pub mod Sound
pub mod Start
pub mod Order
pub mod Claims
pub mod Attach
use corv_client.Prelude.{
  ℕ, zero, suc, ◌+◌, ◌-◌, ◌*◌, ◌/◌, Bool, true, false, not, ◌&&◌, ◌||◌, List, [], ◌∷◌, ◌++◌, Bytes,
  codes, length, Option, none, some, ◌==◌, if◌then◌else◌, bytes_eq, is_empty,
}
use corv_client.Prelude.Assoc.{Assoc, lookup}
use corv_client.Prelude.Result.{Result, ok, err}
use corv_client.Go.Strings.{trim_space, contains}
use corv_client.Broker.Errors.{ErrorKind, no_error, kind_text, Failure, plain, wrap}
use corv_client.Broker.Wait.{second}
use corv_client.Broker.Ids.{new_run_id}
use corv_client.Broker.Job.{
  Status, pending, starting, running, finalize_pending, failed, done, expired, unknown, Job,
  JobRecord, job_key, keyed_job_key, value_hash, new_job, record_to_job,
}
use corv_client.Broker.State.{
  World, Broker, Entry, RawResult, is_no_error, succeeded, M, ◌>>=◌, ◌>>◌, pure, gets, ask, quiet,
  job_of, modify_job, entry_of, add_job, drop_job,
}
use corv_client.Broker.Store.{
  now, status_eq, persisted_job_by_key, save_persisted_job, delete_persisted_job_by_key,
  prune_expired_keyed_jobs,
}
use corv_client.Broker.Conn.{max_delta_bytes, is_timeout, is_disconnected, run_raw_stdin}
use corv_client.Broker.Commands.{start_job_command}

-- What a request stands for: the keys and hashes that `jobForRequest` makes of it.
pub record Claim : Type 0 where
  pub key : Bytes
  pub command : Bytes
  pub command_hash : Bytes
  pub run_key_hash : Bytes
  pub fingerprint : Bytes
  pub keyed : Bool  -- runKey != ""

-- The test for `errRunKeyConflict`
unfoldable pub conflicts : Claim → Bytes → Bytes → Bytes → Bool
conflicts c command_hash run_key_hash fingerprint =
    c.keyed
    && (not (bytes_eq command_hash c.command_hash)
        || not (bytes_eq run_key_hash c.run_key_hash)
        || not (bytes_eq fingerprint c.fingerprint))

-- The job of a record that serves the claim: `recordToJob`, with the claim's own words.
unfoldable pub adopt : Claim → ℕ → Bool → JobRecord → Job
adopt c time needs_finalization r =
    let j = record_to_job time r in
    record j {
      status = if needs_finalization then finalize_pending else j.status;
      key = c.key;
      command = c.command;
      command_hash = c.command_hash;
      run_key_hash = c.run_key_hash;
      fingerprint = c.fingerprint;
    }

-- The test on a record: it may serve the claim.
unfoldable pub can_adopt : Claim → Bool → JobRecord → Bool
can_adopt c needs_finalization r =
    (is_empty r.fingerprint || bytes_eq r.fingerprint c.fingerprint)
    && (status_eq r.status starting
        || status_eq r.status running
        || status_eq r.status finalize_pending
        || needs_finalization
        || (c.keyed && (status_eq r.status done || status_eq r.status expired)))

unfoldable pub fresh_job : Claim → Bytes → Job
fresh_job c id = record (new_job id c.command c.fingerprint) {
  key = c.key;
  command_hash = c.command_hash;
  run_key_hash = c.run_key_hash;
}

-- A job in memory that stays: `!j.finished() || j.finalizePending() || runKey != ""`.
unfoldable pub stays : Claim → Job → Bool
stays c j = not j.is_done || status_eq j.status finalize_pending || c.keyed

-- `errRunKeyConflict`
abbrev pub run_key_conflict : Failure
run_key_conflict =
    plain (codes "run key was already used with different command or connection state")

-- How `ensureJobStarted` ends: `errStartUncertain` is told apart from the other errors.
pub data StartOutcome : Type 0 where
  started uncertain : StartOutcome
  start_failed : Failure → StartOutcome

unfoldable pub outcome_of : Option Failure → StartOutcome
outcome_of none = started
outcome_of (some e) = start_failed e

-- The error of a command that did not report the start.
unfoldable pub start_error : RawResult → Failure
start_error r = record {
  text =
      if is_no_error r.kind
      then codes "start remote job failed: " ++ trim_space r.stderr
      else codes "start remote job: " ++ kind_text r.kind;
  is_host_key = false;
  start_kind = some r.kind;
}

module _ ⦃w : World⦄ where
  unfoldable pub claim_of : Bytes → Bytes → Bytes → Bytes → Claim
  claim_of profile command fingerprint run_key =
      if is_empty run_key
      then record {
        key = job_key w.digest profile command;
        command = command;
        command_hash = [];
        run_key_hash = [];
        fingerprint = fingerprint;
        keyed = false;
      }
      else record {
        key = keyed_job_key w.digest profile run_key;
        command = command;
        command_hash = value_hash w.digest command;
        run_key_hash = value_hash w.digest run_key;
        fingerprint = fingerprint;
        keyed = true;
      }

  -- `retainedRunLogExists`
  abbrev exists_in : Option Failure → Option Bytes → Bool
  exists_in none (some log) = true
  exists_in e o = false

  unfoldable pub retained_run_log_exists : Bytes → M Bool
  retained_run_log_exists id = do
    e ← ask w.delay w.paths_error quiet
    gets (λ s. exists_in e (lookup id s.logs))

  -- `newJob` and the entry's new slot
  unfoldable pub make_job : ℕ → Claim → M ℕ
  make_job e c = do
    t ← now
    bytes ← ask w.delay w.random quiet
    add_job e c.key (fresh_job c (new_run_id (t / second) bytes))

  unfoldable pub serve_new : ℕ → Claim → M (Result Failure ℕ)
  serve_new e c = do a ← make_job e c; pure (ok a)

  unfoldable pub serve_old : ℕ → Claim → Bool → JobRecord → M (Result Failure ℕ)
  serve_old e c needs_finalization r = do
    t ← now
    a ← add_job e c.key (adopt c t needs_finalization r)
    pure (ok a)

  -- `needsFinalization`
  unfoldable pub needs_finalization : JobRecord → M Bool
  needs_finalization r =
      if status_eq r.status done
      then (do kept ← retained_run_log_exists r.run_id; pure (not kept))
      else pure false

  -- The part of `jobForRequest` on the record.
  unfoldable pub job_from_record : ℕ → Claim → Option JobRecord → M (Result Failure ℕ)
  job_from_record e c none = serve_new e c
  job_from_record e c (some r) =
      if conflicts c r.command_hash r.run_key_hash r.fingerprint
      then pure (err run_key_conflict)
      else (do
        missing ← needs_finalization r
        if can_adopt c missing r then serve_old e c missing r else serve_new e c)

  unfoldable pub job_from_registry : ℕ → Claim → M (Result Failure ℕ)
  job_from_registry e c = do r ← persisted_job_by_key c.key; job_from_record e c r

  -- The part on the entry's own job.
  unfoldable pub job_from_entry : ℕ → Claim → Option ℕ → M (Result Failure ℕ)
  job_from_entry e c none = job_from_registry e c
  job_from_entry e c (some a) = do
    j ← job_of a
    if conflicts c j.command_hash j.run_key_hash j.fingerprint
        then pure (err run_key_conflict)
        else if not (bytes_eq j.fingerprint c.fingerprint)
        then drop_job e c.key >> job_from_registry e c
        else if stays c j
        then pure (ok a)
        else job_from_registry e c

  unfoldable pub serve : ℕ → Claim → M (Result Failure ℕ)
  serve e c = do n ← entry_of e; job_from_entry e c (lookup c.key n.jobs)

  -- `jobForRequest`
  unfoldable pub job_for_request : ℕ → Bytes → Bytes → Bytes → Bytes → M (Result Failure ℕ)
  job_for_request e profile command fingerprint run_key = do
    (if is_empty run_key then pure tt else now >>= prune_expired_keyed_jobs)
    serve e (claim_of profile command fingerprint run_key)

  abbrev drop_if : Bool → ℕ → Bytes → M (Unit {0})
  drop_if test e key = if test then drop_job e key else pure tt

  abbrev is_slot : ℕ → Option ℕ → Bool
  is_slot a none = false
  is_slot a (some b) = b == a

  -- `releaseJob`
  unfoldable pub release_job : ℕ → ℕ → M (Unit {0})
  release_job e a = do
    j ← job_of a
    n ← entry_of e
    drop_if (is_slot a (lookup j.key n.jobs)) e j.key

  unfoldable pub expire_saved : ℕ → ℕ → Option Failure → M (Option Failure)
  expire_saved e a (some f) = pure (some f)
  expire_saved e a none = release_job e a >> pure none

  -- `expireJob`
  unfoldable pub expire_job : ℕ → Bytes → ℕ → M (Option Failure)
  expire_job e profile a = do
    modify_job a
        (λ j. record j { is_done = true; status = expired; finished_at = none; duration_ms = 0 })
    x ← save_persisted_job profile a
    expire_saved e a x

  -- `removeJob`
  unfoldable pub remove_job : ℕ → Bytes → Bytes → ℕ → M (Unit {0})
  remove_job e profile command a = do
    j ← job_of a
    n ← entry_of e
    let key = if is_empty j.key then job_key w.digest profile command else j.key
    drop_if (is_slot a (lookup key n.jobs)) e key
    delete_persisted_job_by_key key

  -- `failJobStart`, and the `return` after it
  unfoldable pub fail_job_start : Bytes → ℕ → ℕ → Failure → M StartOutcome
  fail_job_start profile a code e = do
    modify_job a
        (λ j. record j { is_done = true; exit_code = code; start_err = some e; status = failed })
    _ ← save_persisted_job profile a
    pure (start_failed e)

  -- `j.status = jobStatusRunning` and its save, whose failure is only logged
  unfoldable pub mark_running : Bytes → ℕ → StartOutcome → M StartOutcome
  mark_running profile a out = do
    modify_job a (λ j. record j { status = running })
    _ ← save_persisted_job profile a
    pure out

  -- What the start command's result means.
  unfoldable pub judge_start : Bytes → ℕ → Result Failure RawResult → M StartOutcome
  judge_start profile a (err e) = fail_job_start profile a 1 e
  judge_start profile a (ok r) =
      if is_disconnected r.kind || is_timeout r.kind
      then mark_running profile a uncertain
      else if contains r.stdout (codes "CORV_NO_POSIX")
      then fail_job_start profile a r.exit_code
          (plain (codes "remote shell lacks required POSIX tools"))
      else if contains r.stdout (codes "CORV_UPLOAD_INCOMPLETE")
      then fail_job_start profile a r.exit_code
          (plain (codes "remote command upload was incomplete; the job was not started"))
      else if not (succeeded r) || not (contains r.stdout (codes "CORV_STARTED"))
      then fail_job_start profile a r.exit_code (start_error r)
      else mark_running profile a started

  -- What follows the save before the start.
  unfoldable pub start_saved : ℕ → Bytes → ℕ → Option Failure → M StartOutcome
  start_saved e profile a (some f) = do
    modify_job a (λ j. record j { started = false; started_at = none; status = pending })
    pure (start_failed (wrap (codes "persist remote job before start: ") f))
  start_saved e profile a none = do
    j ← job_of a
    r ← run_raw_stdin e (start_job_command j.id (length j.command)) j.command max_delta_bytes
    judge_start profile a r

  unfoldable pub start_job : ℕ → Bytes → ℕ → M StartOutcome
  start_job e profile a = do
    t ← now
    modify_job a (λ j. record j { started = true; started_at = some t; status = starting })
    x ← save_persisted_job profile a
    start_saved e profile a x

  -- `ensureJobStarted`
  unfoldable pub ensure_job_started : ℕ → Bytes → ℕ → M StartOutcome
  ensure_job_started e profile a = do
    j ← job_of a
    if j.started then pure (outcome_of j.start_err) else start_job e profile a
