-- ===== src/Audit/Complete.antt =====
-- internal/audit/audit.go: `Append`, `Complete` and `Clear`.
use corv_client.Prelude.{
  ℕ, Bool, true, false, not, ◌&&◌, ◌||◌, [], ◌++◌, Bytes, codes, Option, none, some, if◌then◌else◌,
  is_empty, bytes_eq, length,
}
use corv_client.Prelude.Int.{ℤ, pos, eq_ℤ}
use corv_client.Prelude.Result.{Result, ok, err}
use corv_client.Audit.{Entry, Codec, entry_line}
use corv_client.Audit.Scan.{ReadError, ReadAt, scan_entries_reverse}

-- The file, `none` if there is none.
abbrev pub Log : Type 0
Log = Option Bytes

-- What `Complete` is told of the outcome; the duration is `finishedAt.Sub(startedAt).Milliseconds()`.
pub record Outcome : Type 0 where
  pub run_id : Bytes
  pub started_at : Bytes
  pub finished_at : Bytes
  pub exit_code : ℤ
  pub duration_ms : ℤ

-- The visitor of `Complete`: the entry of a run that is still open.
unfoldable pub find_started : Bytes → Entry → Option Entry → Option Entry × Bool
unfolding bytes_eq
find_started run_id e started =
    if not (bytes_eq e.run_id run_id)
    then (started, true)
    else if bytes_eq e.status (codes "completed")
    then (started, false)
    else if bytes_eq e.status (codes "running") || (is_empty e.status && eq_ℤ e.exit_code (pos 75))
    then (some e, false)
    else (started, not (is_empty e.status))

unfoldable pub completed : Outcome → Entry → Entry
completed o e = record e {
  started_at = o.started_at;
  finished_at = o.finished_at;
  exit_code = o.exit_code;
  duration_ms = o.duration_ms;
  error = [];
  status = codes "completed";
}

abbrev pub content_of : Log → Bytes
content_of none = []
content_of (some content) = content

-- `Clear`
unfoldable pub clear : Log → Log
clear log = none

module _ ⦃codec : Codec⦄ where
  -- `Append`: the file is made if it is missing.
  unfoldable pub append : Entry → Log → Log
  unfolding entry_line
  append e log = some (content_of log ++ entry_line e)

  abbrev pub append_completed :
      Outcome → Log → Result ReadError (Option Entry) → Result ReadError Log
  append_completed o log (err e) = err e
  append_completed o log (ok none) = ok log
  append_completed o log (ok (some e)) = ok (append (completed o e) log)

  module _ (max_line block_size : ℕ) (reader : Bytes → ReadAt) where
    abbrev pub started_in : Bytes → Bytes → Result ReadError (Option Entry)
    started_in run_id content =
        scan_entries_reverse max_line (find_started run_id) block_size (reader content)
          (length content) none

    -- `Complete`
    unfoldable pub complete : Outcome → Log → Result ReadError Log
    unfolding find_started scan_entries_reverse append completed
    complete o none = ok none
    complete o (some content) =
        if is_empty o.run_id
        then ok (some content)
        else append_completed o (some content) (started_in o.run_id content)
