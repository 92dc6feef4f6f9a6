-- ===== src/Broker/Conn.antt =====
-- internal/broker/server.go: the held connections.
pub mod Sound
pub mod Leaves
use corv_client.Prelude.{
  ℕ, zero, suc, ◌+◌, ◌-◌, ◌*◌, ◌/◌, Bool, true, false, not, ◌&&◌, ◌||◌, List, [], ◌∷◌, ◌++◌, Bytes,
  codes, Option, none, some, ◌==◌, if◌then◌else◌, bytes_eq, is_empty,
}
use corv_client.Prelude.Assoc.{Assoc, lookup, delete}
use corv_client.Prelude.Result.{Result, ok, err}
use corv_client.Broker.Errors.{ErrorKind, timeout, disconnected, Failure, plain}
use corv_client.Broker.Wait.{second}
use corv_client.Broker.Ids.{hex16}
use corv_client.Go.Numbers.{decimal}
use corv_client.Broker.State.{
  World, Broker, Entry, Snapshot, RawResult, Event, dialled, ran, hung_up, M, ◌>>=◌, ◌>>◌, pure,
  gets, ask, quiet, entry_of, modify_entry,
}
use corv_client.Broker.Store.{now, job_ttl, delete_unkeyed_persisted_jobs}
use corv_client.Broker.Commands.{sweep_remote_command}

abbrev pub max_delta_bytes : ℕ
max_delta_bytes = 512 * 1024

abbrev pub to_login : Option Snapshot → Snapshot
to_login (some s) = s
to_login none = record {
  name = [];
  target = [];
  login = [];
  fingerprint = [];
  legacy_fingerprint = [];
}

module _ ⦃w : World⦄ where
  -- `conn.ExecRawStdin`, within its timeout
  unfoldable pub exec_raw : ℕ → Bytes → Bytes → ℕ → M RawResult
  exec_raw conn cmd stdin max =
      ask w.delay (λ n. w.exec n conn cmd stdin max) (λ r. ran conn cmd stdin r.started ∷ [])

  -- `conn.Close()` of a connection that may be there
  unfoldable pub hang_up : Option ℕ → M (Unit {0})
  hang_up none = pure tt
  hang_up (some c) = ask w.delay (λ n. tt) (λ u. hung_up c ∷ [])

  -- `dialSnapshot`
  unfoldable pub dial_snapshot : Snapshot → M (Result Failure ℕ)
  dial_snapshot s = ask w.delay (λ n. w.dial n s) (λ r. dialled s.name ∷ [])

  -- The sweep of old remote files, once for an entry.
  unfoldable pub sweep : Bool → ℕ → M (Unit {0})
  sweep false conn = pure tt
  sweep true conn = do
    t ← now
    _ ← exec_raw conn (sweep_remote_command t) [] max_delta_bytes
    pure tt

  -- `e.lastUsed = time.Now()`, `e.swept = true`, and the sweep
  unfoldable pub use_conn : ℕ → ℕ → M (Result Failure ℕ)
  use_conn e conn = do
    t ← now
    n ← entry_of e
    modify_entry e (λ x. record x { last_used = t; swept = true })
    sweep (not n.swept) conn
    pure (ok conn)

  -- What follows a dial.
  unfoldable pub keep_dialled : ℕ → Bytes → Bytes → Result Failure ℕ → M (Result Failure ℕ)
  keep_dialled e fingerprint target (err f) = pure (err f)
  keep_dialled e fingerprint target (ok conn) = do
    n ← entry_of e
    if n.closed || not (bytes_eq n.fingerprint fingerprint)
        then (do
          hang_up (some conn)
          pure (
              err (
                plain (
                  if n.closed
                  then codes "connection closed"
                  else codes "connection profile changed during dial"))))
        else (do
          modify_entry e (λ x. record x { conn = some conn; target = target })
          use_conn e conn)

  unfoldable pub held_or_dialled : ℕ → Bytes → Entry → Option ℕ → M (Result Failure ℕ)
  held_or_dialled e fingerprint n (some conn) = use_conn e conn
  held_or_dialled e fingerprint n none = do
    r ← dial_snapshot (to_login n.snapshot)
    keep_dialled e fingerprint (to_login n.snapshot).target r

  -- `connFor`; a request never meets its own dial, so the loop runs once.
  unfoldable pub conn_for : ℕ → Bytes → M (Result Failure ℕ)
  conn_for e fingerprint = do
    n ← entry_of e
    if n.closed
        then pure (err (plain (codes "connection closed")))
        else if not (bytes_eq n.fingerprint fingerprint)
        then pure (err (plain (codes "connection profile changed during dial")))
        else held_or_dialled e fingerprint n n.conn

  -- `resetConn`
  unfoldable pub reset_conn : ℕ → M (Unit {0})
  reset_conn e = do n ← entry_of e; modify_entry e (λ x. record x { conn = none }); hang_up n.conn

  abbrev pub is_timeout : ErrorKind → Bool
  is_timeout timeout = true
  is_timeout _ = false

  abbrev pub is_disconnected : ErrorKind → Bool
  is_disconnected disconnected = true
  is_disconnected _ = false

  unfoldable pub run_again : Bytes → Bytes → ℕ → Result Failure ℕ → M (Result Failure RawResult)
  run_again cmd stdin max (err f) = pure (err f)
  run_again cmd stdin max (ok conn) = do r ← exec_raw conn cmd stdin max; pure (ok r)

  -- What follows the first run: one more over a new connection if the request cannot have started.
  unfoldable pub retry : ℕ → Bytes → Bytes → Bytes → ℕ → RawResult → M (Result Failure RawResult)
  retry e fingerprint cmd stdin max r =
      if is_timeout r.kind
      then reset_conn e >> pure (ok r)
      else if is_disconnected r.kind && not r.started
      then (do reset_conn e; c ← conn_for e fingerprint; run_again cmd stdin max c)
      else pure (ok r)

  unfoldable pub run_first :
      ℕ → Bytes → Bytes → Bytes → ℕ → Result Failure ℕ → M (Result Failure RawResult)
  run_first e fingerprint cmd stdin max (err f) = pure (err f)
  run_first e fingerprint cmd stdin max (ok conn) = do
    r ← exec_raw conn cmd stdin max
    retry e fingerprint cmd stdin max r

  -- `runRawStdinTimeout`, and `runRawStdin` of it
  unfoldable pub run_raw_stdin : ℕ → Bytes → Bytes → ℕ → M (Result Failure RawResult)
  run_raw_stdin e cmd stdin max = do
    n ← entry_of e
    c ← conn_for e n.fingerprint
    run_first e n.fingerprint cmd stdin max c

  -- `runRaw` and `runRawTimeout`
  unfoldable pub run_raw : ℕ → Bytes → ℕ → M (Result Failure RawResult)
  run_raw e cmd max = run_raw_stdin e cmd [] max

  -- `prepareEntry`
  unfoldable pub prepare_entry : ℕ → Snapshot → M (Unit {0})
  prepare_entry e s = do
    n ← entry_of e
    if is_empty n.fingerprint
        then modify_entry e (λ x. record x { fingerprint = s.fingerprint; snapshot = some s })
        else if bytes_eq n.fingerprint s.fingerprint
        then modify_entry e (λ x. record x { snapshot = some s })
        else (do
          modify_entry e (λ x. record x {
            conn = none;
            target = [];
            fingerprint = s.fingerprint;
            snapshot = some s;
            jobs = [];
            swept = false;
          })
          hang_up n.conn
          _ ← delete_unkeyed_persisted_jobs s.name
          pure tt)

  -- `closeOne`: the entry, if there is one, leaves the map and is closed.
  unfoldable pub close_entry : ℕ → M (Unit {0})
  close_entry e = do
    n ← entry_of e
    modify_entry e (λ x. record x { conn = none; closed = true })
    hang_up n.conn

  unfoldable pub close_found : Option ℕ → M (Unit {0})
  close_found none = pure tt
  close_found (some e) = close_entry e

  unfoldable pub close_all_of : Assoc ℕ → M (Unit {0})
  close_all_of [] = pure tt
  close_all_of ((name, e) ∷ es) = close_entry e >> close_all_of es

  unfoldable pub remove_entry : Bytes → M (Option ℕ)
  remove_entry name s = (lookup name s.entries, record s { entries = delete name s.entries })

  unfoldable pub close_one : Bytes → M (Unit {0})
  close_one name = do e ← remove_entry name; close_found e

  unfoldable pub remove_entries : M (Assoc ℕ)
  remove_entries s = (s.entries, record s { entries = [] })

  -- `closeAll`
  unfoldable pub close_all : M (Unit {0})
  close_all = do es ← remove_entries; close_all_of es
