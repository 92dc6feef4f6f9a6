-- ===== src/Broker/Exec.antt =====
-- internal/broker/server.go: a request to run a command, and the dispatch on the kind of request.
use corv_client.Prelude.{
  ℕ, Bool, true, false, not, ◌&&◌, ◌||◌, List, [], ◌∷◌, ◌++◌, Bytes, codes, Option, none, some,
  if◌then◌else◌, is_empty,
}
use corv_client.Prelude.Result.{Result, ok, err}
use corv_client.Broker.Errors.{ErrorKind, kind_text, Failure, classify}
use corv_client.Broker.Ids.{valid_run_key}
use corv_client.Broker.Wait.{parse_wait, default_wait}
use corv_client.Broker.Job.{failed, done, expired}
use corv_client.Broker.State.{
  Broker, World, Snapshot, is_no_error, M, ◌>>=◌, ◌>>◌, pure, gets, job_of, entry_for,
}
use corv_client.Broker.Keeps.{IsSound, Since, Keeps, keeps_rules}
use corv_client.Broker.Store.{status_eq}
use corv_client.Broker.Conn.{prepare_entry, close_one}
use corv_client.Broker.Conn.Sound.{conn_rules, Keeps-close_one}
use corv_client.Broker.Reply.{
  Op, op_ping, op_exec, op_output, op_jobs, op_close, op_list, op_status, op_shutdown, op_unknown,
  Request, Response, RunInfo, blank_response, refused, expired_run_response,
}
use corv_client.Broker.Run.{
  StartOutcome, started, uncertain, start_failed, job_for_request, ensure_job_started, release_job,
  remove_job,
}
use corv_client.Broker.Run.Sound.{run_rules}
use corv_client.Broker.Watch.{watch_job}
use corv_client.Broker.Watch.Sound.{Keeps-watch_job}
use corv_client.Broker.Finalize.{load_connection_snapshot}
use corv_client.Broker.Output.{output}
use corv_client.Broker.Finalize.Sound.{Keeps-load_connection_snapshot}
use corv_client.Broker.Output.Sound.{Keeps-output}
use corv_client.Broker.Listing.{held_of, status_of, list_runs}
use corv_client.Broker.Listing.Sound.{Keeps-list_runs}
use corv_client.Ssh.Command.{command_string}

-- The kind in the response to a failed start: that of a `startError` first.
unfoldable pub start_kind : Failure → Option ErrorKind → ErrorKind
start_kind f none = classify f
start_kind f (some k) = if is_no_error k then classify f else k

unfoldable pub not_started : Bytes → Failure → Response
not_started id f = refused f.text (kind_text (start_kind f f.start_kind)) id

unfoldable pub uncertain_response : Bytes → Response
uncertain_response id = record blank_response {
  exit_code = 75;
  highlights =
      codes "Remote start timed out; Corv will verify the existing run on the next call" ∷ [];
  running = true;
  run_id = id;
}

-- A watched run's response; the loop always has one.
unfoldable pub watched : Option (Response × Bool) → Response × Bool
watched none = (blank_response, false)
watched (some p) = p

module _ ⦃w : World⦄ where
  -- `parseWait(req.Wait, waitWindow())`
  unfoldable pub wait_of : Bytes → ℕ
  wait_of raw =
      parse_wait w.parse_duration raw (parse_wait w.parse_duration w.wait_variable default_wait)

  -- What becomes of the job once its response is there.
  unfoldable pub settle_job : ℕ → Bytes → Bytes → Bytes → ℕ → Response × Bool → M Response
  settle_job e profile command run_key a (resp, saved) = do
    j ← job_of a
    let keyed = not (is_empty run_key)
    let has_failed = status_eq j.status failed
    if keyed && status_eq j.status expired
        then release_job e a >> pure resp
        else if not resp.running && (saved || has_failed)
        then (if keyed && saved && not has_failed
            then release_job e a
            else remove_job e profile command a)
          >> pure resp
        else pure resp

  -- `exec` behind `ensureJobStarted`
  unfoldable pub exec_started : ℕ → Bytes → Bytes → Request → ℕ → StartOutcome → M Response
  exec_started e profile command req a uncertain = do j ← job_of a; pure (uncertain_response j.id)
  exec_started e profile command req a (start_failed f) = do
    j ← job_of a
    remove_job e profile command a
    pure (not_started j.id f)
  exec_started e profile command req a started = do
    p ← watch_job e profile a (wait_of req.wait)
    settle_job e profile command req.run_key a (watched p)

  -- `exec` behind `jobForRequest`
  unfoldable pub exec_job : ℕ → Bytes → Bytes → Request → Result Failure ℕ → M Response
  exec_job e profile command req (err f) = pure (refused f.text (codes "run_key_conflict") [])
  exec_job e profile command req (ok a) = do
    j ← job_of a
    if not (is_empty req.run_key) && status_eq j.status expired
        then pure (expired_run_response j.id)
        else if not (is_empty req.run_key) && status_eq j.status done
        then output j.id []
        else (do out ← ensure_job_started e profile a; exec_started e profile command req a out)

  unfoldable pub exec_loaded : Request → Result Failure (Option Snapshot) → M Response
  exec_loaded req (err f) = pure (refused f.text (codes "local_error") [])
  exec_loaded req (ok none) =
      pure (refused (codes "unknown connection: " ++ req.name) (codes "unknown_connection") [])
  exec_loaded req (ok (some n)) = do
    e ← entry_for req.name
    prepare_entry e n
    a ← job_for_request e n.name (command_string req.command) n.fingerprint req.run_key
    exec_job e n.name (command_string req.command) req a

  -- `exec`
  unfoldable pub exec : Request → M Response
  exec req =
      if not (is_empty req.run_key) && not (valid_run_key req.run_key)
      then pure (
          refused
            (codes "run key must be 1-128 characters using letters, numbers, '.', '_', ':', or '-'")
            (codes "bad_request") [])
      else (do l ← load_connection_snapshot req.name; exec_loaded req l)

  abbrev runs_response : Result Failure (List RunInfo) → Response
  runs_response (ok rs) = record blank_response { ok = true; runs = rs }
  runs_response (err f) = record blank_response { error = f.text }

  abbrev success : Response
  success = record blank_response { ok = true }

  -- The `switch` of `handle` on a request with the right token
  unfoldable pub dispatch : Op → Request → M Response
  dispatch op_ping req = pure success
  dispatch op_exec req = exec req
  dispatch op_output req = output req.run_id req.pattern
  dispatch op_jobs req = do r ← list_runs; pure (runs_response r)
  dispatch op_close req = do close_one req.name; pure success
  dispatch op_list req = gets (λ s. record success { held = held_of s })
  dispatch op_status req = gets (λ s. record success { connections = status_of s })
  dispatch op_shutdown req = pure success
  dispatch op_unknown req = pure (record blank_response { error = codes "unknown op" })

  unfoldable pub handle : Request → M Response
  handle req = dispatch req.op req

  Keeps-settle_job :
      (e : ℕ) (profile command run_key : Bytes) (a : ℕ) (p : Response × Bool)
      → Keeps (settle_job e profile command run_key a p)
  unfolding settle_job
  Keeps-settle_job e profile command run_key a (resp, saved) =
      search (keeps_rules, run_rules) depth 9

  Keeps-exec_started :
      (e : ℕ) (profile command : Bytes) (req : Request) (a : ℕ) (x : StartOutcome)
      → Keeps (exec_started e profile command req a x)
  unfolding exec_started
  Keeps-exec_started e profile command req a uncertain = search keeps_rules
  Keeps-exec_started e profile command req a (start_failed f) = search (keeps_rules, run_rules)
  Keeps-exec_started e profile command req a started =
      search (keeps_rules, Keeps-watch_job, Keeps-settle_job)

  Keeps-exec_job :
      (e : ℕ) (profile command : Bytes) (req : Request) (x : Result Failure ℕ)
      → Keeps (exec_job e profile command req x)
  unfolding exec_job
  Keeps-exec_job e profile command req (err f) = search keeps_rules
  Keeps-exec_job e profile command req (ok a) =
      search (keeps_rules, run_rules, Keeps-output, Keeps-exec_started) depth 8

  Keeps-exec_loaded :
      (req : Request) (x : Result Failure (Option Snapshot)) → Keeps (exec_loaded req x)
  unfolding exec_loaded
  Keeps-exec_loaded req (err f) = search keeps_rules
  Keeps-exec_loaded req (ok none) = search keeps_rules
  Keeps-exec_loaded req (ok (some n)) =
      search (keeps_rules, conn_rules, run_rules, Keeps-exec_job) depth 8

  pub Keeps-exec : (req : Request) → Keeps (exec req)
  unfolding exec
  Keeps-exec req = search (keeps_rules, Keeps-load_connection_snapshot, Keeps-exec_loaded)

  Keeps-dispatch : (op : Op) (req : Request) → Keeps (dispatch op req)
  unfolding dispatch
  Keeps-dispatch op_ping req = search keeps_rules
  Keeps-dispatch op_exec req = Keeps-exec req
  Keeps-dispatch op_output req = Keeps-output req.run_id req.pattern
  Keeps-dispatch op_jobs req = search (keeps_rules, Keeps-list_runs)
  Keeps-dispatch op_close req = search (keeps_rules, Keeps-close_one)
  Keeps-dispatch op_list req = search keeps_rules
  Keeps-dispatch op_status req = search keeps_rules
  Keeps-dispatch op_shutdown req = search keeps_rules
  Keeps-dispatch op_unknown req = search keeps_rules

  Keeps-handle : (req : Request) → Keeps (handle req)
  unfolding handle
  Keeps-handle req = Keeps-dispatch req.op req

  -- Every request that the broker handles in a sound state, whatever the outside answers, keeps it
  -- sound: the registry in memory stays the one in jobs.json, with each key once and each record under
  -- its own key, and the entries hold allocated jobs under their own keys. And afterwards what was done
  -- before is still in the history, no job is lost, and none has changed its id, key, command,
  -- fingerprint or hashes.
  pub handle-IsSound :
      (req : Request) (s : Broker) → IsSound s → IsSound (handle req s).1 × Since s (handle req s).1
  handle-IsSound req s h = ((Keeps-handle req).at s h, (Keeps-handle req).since s h)
