-- ===== src/Broker/Job.antt =====
-- internal/broker/jobs.go and job_store.go: a run in memory, its record on disk, and the two
-- conversions. A time is a number of nanoseconds since the epoch, `none` for Go's zero time. Texts
-- are never anything but bytes; the digests come from `Digest`.
pub mod RoundTrip
use corv_client.Prelude.{
  ℕ, zero, suc, ◌+◌, ◌*◌, ◌/◌, Bool, true, false, ◌||◌, List, [], ◌∷◌, ◌++◌, Bytes, codes, Option,
  none, some, if◌then◌else◌, is_empty,
}
use corv_client.Prelude.Int.{ℤ, pos, negsuc}
use corv_client.Broker.Wait.{second}
use corv_client.Broker.Errors.{Failure}

-- The `jobStatus…` constants.
pub data Status : Type 0 where
  pending starting running finalize_pending failed done expired unknown : Status

pub record Job : Type 0 where
  pub id : Bytes
  pub key : Bytes
  pub command : Bytes
  pub command_hash : Bytes
  pub run_key_hash : Bytes
  pub fingerprint : Bytes
  pub fingerprint_version : ℕ
  pub offset : ℕ
  pub started : Bool
  pub started_at : Option ℕ
  pub last_seen_at : Option ℕ
  pub finished_at : Option ℕ
  pub duration_ms : ℕ
  pub is_done : Bool  -- done
  pub exit_code : ℕ
  pub start_err : Option Failure
  pub status : Status

pub record JobRecord : Type 0 where
  pub key : Bytes
  pub run_id : Bytes
  pub profile : Bytes
  pub command : Bytes
  pub command_hash : Bytes
  pub run_key_hash : Bytes
  pub fingerprint : Bytes
  pub fingerprint_version : ℕ
  pub remote_dir : Bytes
  pub log_path : Bytes
  pub rc_path : Bytes
  pub offset : ℕ
  pub started_at : ℤ  -- seconds
  pub last_seen_at : ℕ  -- nanoseconds, 0 for none
  pub finished_at : ℕ
  pub duration_ms : ℕ
  pub status : Status
  pub exit_code : ℕ
  pub pid : Bytes

abbrev pub remote_job_dir : Bytes
remote_job_dir = codes "${TMPDIR:-/tmp}/corv-jobs-$(id -u)"

unfoldable pub remote_log_path : Bytes → Bytes
remote_log_path id = remote_job_dir ++ (b'/' ∷ (id ++ codes ".log"))

unfoldable pub remote_rc_path : Bytes → Bytes
remote_rc_path id = remote_job_dir ++ (b'/' ∷ (id ++ codes ".rc"))

-- SHA-256 in hexadecimal, of Go's crypto library.
pub record Digest : Type 0 where
  pub sum : Bytes → Bytes

unfoldable pub job_key : Digest → Bytes → Bytes → Bytes
job_key d profile command = d.sum (profile ++ 0 ∷ command)

unfoldable pub keyed_job_key : Digest → Bytes → Bytes → Bytes
keyed_job_key d profile run_key = d.sum (profile ++ (0 ∷ (codes "run-key" ++ 0 ∷ run_key)))

unfoldable pub value_hash : Digest → Bytes → Bytes
value_hash d value = d.sum value

-- `newJob`, with the id that the clock and the random source make.
unfoldable pub new_job : Bytes → Bytes → Bytes → Job
new_job id command fingerprint = record {
  id = id;
  key = [];
  command = command;
  command_hash = [];
  run_key_hash = [];
  fingerprint = fingerprint;
  fingerprint_version = 1;
  offset = 0;
  started = false;
  started_at = none;
  last_seen_at = none;
  finished_at = none;
  duration_ms = 0;
  is_done = false;
  exit_code = 0;
  start_err = none;
  status = pending;
}

-- `t.Unix()`: the zero time lies 62135596800 seconds before the epoch.
abbrev pub unix : Option ℕ → ℤ
unix none = negsuc 62135596799
unix (some t) = pos (t / second)

-- `if !t.IsZero() { t.UnixNano() }`
abbrev pub unix_nano : Option ℕ → ℕ
unix_nano none = 0
unix_nano (some t) = t

-- `if n != 0 { time.Unix(0, n) }`
abbrev pub of_nano : ℕ → Option ℕ
of_nano zero = none
of_nano (suc n) = some (suc n)

-- `time.Unix(n, 0)`, or now where `n` is 0; a negative number is only ever that of the zero time.
abbrev pub of_unix : ℕ → ℤ → Option ℕ
of_unix now (negsuc n) = none
of_unix now (pos zero) = some now
of_unix now (pos (suc n)) = some (suc n * second)

-- `newJobRecord`
unfoldable pub new_job_record : Digest → Bytes → Job → JobRecord
unfolding remote_log_path remote_rc_path job_key
new_job_record d profile j = record {
  key = if is_empty j.key then job_key d profile j.command else j.key;
  run_id = j.id;
  profile = profile;
  command = [];
  command_hash = j.command_hash;
  run_key_hash = j.run_key_hash;
  fingerprint = j.fingerprint;
  fingerprint_version = j.fingerprint_version;
  remote_dir = remote_job_dir;
  log_path = remote_log_path j.id;
  rc_path = remote_rc_path j.id;
  offset = j.offset;
  started_at = unix j.started_at;
  last_seen_at = unix_nano j.last_seen_at;
  finished_at = unix_nano j.finished_at;
  duration_ms = j.duration_ms;
  status = j.status;
  exit_code = j.exit_code;
  pid = [];
}

-- The test on the status in `recordToJob`.
abbrev pub is_terminal : Status → Bool
is_terminal done = true
is_terminal finalize_pending = true
is_terminal failed = true
is_terminal expired = true
is_terminal _ = false

-- `recordToJob` at the time `now`
unfoldable pub record_to_job : ℕ → JobRecord → Job
record_to_job now r = record {
  id = r.run_id;
  key = r.key;
  command = r.command;
  command_hash = r.command_hash;
  run_key_hash = r.run_key_hash;
  fingerprint = r.fingerprint;
  fingerprint_version = r.fingerprint_version;
  offset = r.offset;
  started = true;
  started_at = of_unix now r.started_at;
  last_seen_at = of_nano r.last_seen_at;
  finished_at = of_nano r.finished_at;
  duration_ms = r.duration_ms;
  is_done = is_terminal r.status;
  exit_code = r.exit_code;
  start_err = none;
  status = r.status;
}
