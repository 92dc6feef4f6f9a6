-- ===== src/Broker/Watch.antt =====
-- internal/broker/jobs.go: a started run is polled until it ends or the request has waited enough.
pub mod Sound
pub mod Ends
use corv_client.Prelude.{
  ℕ, zero, suc, ◌+◌, ◌-◌, ◌*◌, ◌/◌, Bool, true, false, not, ◌&&◌, ◌||◌, List, [], ◌∷◌, ◌++◌, Bytes,
  codes, length, Option, none, some, ltb, leb, ◌==◌, if◌then◌else◌, bytes_eq, is_empty, min,
}
use corv_client.Prelude.Result.{Result, ok, err}
use corv_client.Go.Utf8.{valid}
use corv_client.Output.Filter.{Options}
use corv_client.Output.Process.{clean, bound, signals}
use corv_client.Broker.Errors.{Failure, plain, kind_text, ssh_error}
use corv_client.Broker.Wait.{second}
use corv_client.Broker.Exit.{RemoteExit, ExitError, parse_remote_exit, resolve_remote_timing}
use corv_client.Broker.Frame.{max_running_output_bytes}
use corv_client.Broker.Job.{Status, done, failed, finalize_pending, Job}
use corv_client.Broker.State.{
  World, Broker, RunMetadata, M, ◌>>=◌, ◌>>◌, pure, gets, ask, quiet, job_of, modify_job,
}
use corv_client.Broker.Store.{now, status_eq, save_persisted_job}
use corv_client.Broker.Conn.{max_delta_bytes}
use corv_client.Broker.Reply.{
  Response, blank_response, refused, expired_run_response, unavailable_run_output_response,
}
use corv_client.Broker.Remote.{read_remote_delta, read_remote_rc, read_remote_state}
use corv_client.Broker.Run.{expire_job}
use corv_client.Broker.RunLog.{Finalized, retry_hint, finalize_run_log}

abbrev pub max_inline_output_bytes : ℕ
max_inline_output_bytes = 32 * 1024

-- `output.Options{MaxBytes: n}`
abbrev pub byte_budget : ℕ → Options
byte_budget n = record {
  head_lines = 0;
  tail_lines = 0;
  max_line_bytes = 0;
  max_bytes = n;
  unbounded = false;
}

abbrev pub signal_count : ℕ
signal_count = 8

-- `jobPoll`: `done` and `exit` are one optional exit.
pub data JobPoll : Type 0 where
  refused_poll : Response → JobPoll
  polled : Bytes → Option RemoteExit → JobPoll

abbrev pub start_time : Option ℕ → ℕ
start_time none = 0
start_time (some t) = t

abbrev pub millisecond : ℕ
millisecond = 1000000

-- The end of `pollJob`
unfoldable pub exit_of : Bytes → Bytes → Result ExitError RemoteExit → JobPoll
exit_of id delta (ok x) = polled delta (some x)
exit_of id delta (err e) =
    refused_poll (refused (codes "remote run has an invalid exit status") (kind_text ssh_error) id)

unfoldable pub read_exit : Bytes → Bytes → Result Response Bytes → JobPoll
read_exit id delta (err r) = refused_poll r
read_exit id delta (ok rc) =
    if is_empty rc then polled delta none else exit_of id delta (parse_remote_exit rc)

unfoldable pub knows_end : Job → Bool
knows_end j = j.is_done && (status_eq j.status finalize_pending || status_eq j.status done)

unfoldable pub expiry_response : Bytes → Option Failure → Response
expiry_response id none = expired_run_response id
expiry_response id (some f) =
    refused (codes "save expired run state: " ++ f.text) (codes "local_error") id

-- `j.finishedAt` and `j.durationMS` on the first sight of the exit
unfoldable pub note_exit : ℕ → RemoteExit → Job → Job
note_exit observed x j =
    let ended = record j { is_done = true; exit_code = x.code; status = finalize_pending } in
    let timing = resolve_remote_timing (start_time j.started_at) observed x in
    elim j.finished_at [
      | some t ↦ ended
      | none ↦ record ended { finished_at = some timing.0; duration_ms = timing.1 / millisecond }
    ]

-- The update of the job in `finishJobPoll`
unfoldable pub note_poll : ℕ → ℕ → Option RemoteExit → Job → Job
note_poll observed emitted none j = record j {
  offset = j.offset + emitted;
  last_seen_at = some observed;
}
note_poll observed emitted (some x) j =
    note_exit observed x (record j { offset = j.offset + emitted; last_seen_at = some observed })

module _ ⦃w : World⦄ where
  -- A missing run in `pollJob`
  unfoldable pub lose_run : Bytes → ℕ → Bytes → M JobPoll
  lose_run profile a id = do
    let text = codes "remote job did not start or its state was lost"
    modify_job a (λ j. record j {
      is_done = true;
      exit_code = 1;
      start_err = some (plain text);
      status = failed;
    })
    _ ← save_persisted_job profile a
    pure (
        refused_poll (record blank_response {
          exit_code = 1;
          error = text;
          kind = kind_text ssh_error;
          run_id = id;
        }))

  unfoldable pub poll_missing : ℕ → Bytes → ℕ → M JobPoll
  poll_missing e profile a = do
    j ← job_of a
    if knows_end j
        then pure (refused_poll (unavailable_run_output_response j.id j.exit_code))
        else if not (is_empty j.run_key_hash)
        then (do x ← expire_job e profile a; pure (refused_poll (expiry_response j.id x)))
        else lose_run profile a j.id

  unfoldable pub poll_delta : ℕ → Bytes → Result Response Bytes → M JobPoll
  poll_delta e id (err r) = pure (refused_poll r)
  poll_delta e id (ok delta) = do rc ← read_remote_rc e id; pure (read_exit id delta rc)

  unfoldable pub poll_state : ℕ → Bytes → ℕ → Job → ℕ → ℕ → Result Response Bytes → M JobPoll
  poll_state e profile a j pending_bytes max_read (err r) = pure (refused_poll r)
  poll_state e profile a j pending_bytes max_read (ok state) =
      if bytes_eq state (codes "missing") then poll_missing e profile a else (do
        delta ← read_remote_delta e j.id (j.offset + pending_bytes) max_read
        poll_delta e j.id delta)

  -- `pollJob`
  unfoldable pub poll_job : ℕ → Bytes → ℕ → ℕ → ℕ → M JobPoll
  poll_job e profile a pending_bytes max_read = do
    j ← job_of a
    state ← read_remote_state e j.id
    poll_state e profile a j pending_bytes max_read state

  abbrev pub clean_text : Bytes → Bytes
  clean_text = clean w.patterns

  -- The response for a finished run: the fields that both outcomes share.
  unfoldable pub finished_response : ℕ → Bytes → ℕ → Finalized → Response
  finished_response code id duration f =
      let cleaned = clean_text f.log.bytes in
      let rendered = bound cleaned (byte_budget max_inline_output_bytes) in
      let hints =
        signals w.patterns cleaned signal_count
        ++ (if f.log.truncated
            then codes "Corv retained log exceeded 20 MiB; middle bytes were omitted" ∷ []
            else []) in
      let base : Response = elim f.refusal [
        | none ↦ record blank_response {
          ok = code == 0;
          exit_code = code;
          highlights = hints;
          run_id = id;
        }
        | some r ↦ record r { highlights = hints ++ r.highlights }
      ] in
      record base {
        stdout = rendered;
        duration_ms = duration;
        truncated = f.log.truncated;
        output_truncated = not (bytes_eq rendered cleaned);
        lossy = f.lossy;
        original_bytes = f.log.original_bytes;
        saved_bytes = length f.log.bytes;
        returned_bytes = length rendered;
      }

  -- The response for a run that goes on.
  unfoldable pub running_response : Job → Bytes → ℕ → Response
  running_response j delta time =
      let cleaned = clean_text delta in
      let rendered = bound cleaned (byte_budget max_running_output_bytes) in
      record blank_response {
        exit_code = 75;
        stdout = rendered;
        highlights = signals w.patterns cleaned signal_count;
        duration_ms = (time - start_time j.started_at) / millisecond;
        running = true;
        run_id = j.id;
        output_truncated = not (bytes_eq rendered cleaned);
        lossy = not (valid delta);
        returned_bytes = length rendered;
      }

  unfoldable pub unpersisted_response : Bytes → Failure → Response
  unpersisted_response id f = record blank_response {
    exit_code = 1;
    error = codes "remote process exited, but Corv could not persist its run state: " ++ f.text;
    kind = codes "local_error";
    highlights = retry_hint ∷ [];
    run_id = id;
  }

  unfoldable pub finish_done : ℕ → Bytes → ℕ → Job → M (Response × Bool)
  finish_done e profile a j = do
    f ← finalize_run_log e profile a (record {
      exit_code = j.exit_code;
      ok = j.exit_code == 0;
      connection = profile;
      started_at = j.started_at;
      finished_at = j.finished_at;
      duration_ms = j.duration_ms;
      truncated = false;
      lossy = false;
      original_bytes = 0;
      saved_bytes = 0;
    })
    pure (finished_response j.exit_code j.id j.duration_ms f, f.saved)

  -- What follows the save of the progress, whose failure matters only once the run has ended.
  unfoldable pub finish_saved : ℕ → Bytes → ℕ → Bytes → Job → Option Failure → M (Response × Bool)
  finish_saved e profile a delta j none =
      if j.is_done
      then finish_done e profile a j
      else (do t ← now; pure (running_response j delta t, false))
  finish_saved e profile a delta j (some f) =
      if j.is_done
      then pure (unpersisted_response j.id f, false)
      else (do t ← now; pure (running_response j delta t, false))

  -- `finishJobPoll`; a poll is here only its exit.
  unfoldable pub finish_job_poll :
      ℕ → Bytes → ℕ → Option RemoteExit → Bytes → ℕ → M (Response × Bool)
  finish_job_poll e profile a exit delta emitted = do
    t ← now
    modify_job a (note_poll t emitted exit)
    j ← job_of a
    x ← save_persisted_job profile a
    finish_saved e profile a delta j x

  unfoldable pub sleep : ℕ → M (Unit {0})
  sleep d = ask (λ n. d + w.delay n) (λ n. tt) quiet

  -- Results of the loop: `none` is a loop that has not ended.
  unfoldable pub ended : M (Response × Bool) → M (Option (Response × Bool))
  ended m = do r ← m; pure (some r)

  abbrev pub has_exit : Option RemoteExit → Bool
  has_exit none = false
  has_exit (some x) = true

  -- The sleep at the end of a round, and the next round.
  unfoldable pub rest : M (Option (Response × Bool)) → ℕ → M (Option (Response × Bool))
  rest again deadline = do
    t ← now
    (if ltb t deadline then sleep (min (deadline - t) second) else pure tt)
    again

  -- A round behind its poll.
  unfoldable pub after_poll :
      (Bytes → ℕ → M (Option (Response × Bool)))
      → ℕ
      → Bytes
      → ℕ
      → ℕ
      → Bytes
      → ℕ
      → JobPoll
      → M (Option (Response × Bool))
  after_poll again e profile a deadline delta emitted (refused_poll r) = pure (some (r, false))
  after_poll again e profile a deadline delta emitted (polled d exit) = do
    t ← now
    if has_exit exit || leb max_delta_bytes (emitted + length d) || ltb deadline t
        then ended (finish_job_poll e profile a exit (delta ++ d) (emitted + length d))
        else rest (again (delta ++ d) (emitted + length d)) deadline

  -- The loop of `watchJob`
  unfoldable pub watch_rounds : ℕ → ℕ → Bytes → ℕ → ℕ → Bytes → ℕ → M (Option (Response × Bool))
  watch_rounds zero e profile a deadline delta emitted = pure none
  watch_rounds (suc fuel) e profile a deadline delta emitted =
      if leb max_delta_bytes emitted
      then ended (finish_job_poll e profile a none delta emitted)
      else (do
        p ← poll_job e profile a emitted (max_delta_bytes - emitted)
        after_poll (watch_rounds fuel e profile a deadline) e profile a deadline delta emitted p)

  -- Enough rounds for the longest wait: each takes a second or reaches the deadline.
  abbrev pub watch_fuel : ℕ
  watch_fuel = 121

  -- `watchJob`
  unfoldable pub watch_job : ℕ → Bytes → ℕ → ℕ → M (Option (Response × Bool))
  watch_job e profile a wait = do t ← now; watch_rounds watch_fuel e profile a (t + wait) [] 0
