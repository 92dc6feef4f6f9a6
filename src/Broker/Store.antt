-- ===== src/Broker/Store.antt =====
-- internal/broker/job_registry.go and job_store.go: the registry of jobs in memory and in jobs.json.
pub mod Sound
pub mod Cases
pub mod Prune
use corv_client.Prelude.{
  ℕ, zero, ◌+◌, ◌-◌, ◌*◌, Bool, true, false, not, ◌&&◌, ◌||◌, List, [], ◌∷◌, ◌++◌, Bytes, codes,
  Option, none, some, ltb, ◌==◌, if◌then◌else◌, bytes_eq, is_empty,
}
use corv_client.Prelude.Assoc.{Assoc, lookup, delete, put, keep_if, map_values}
use corv_client.Broker.Wait.{second}
use corv_client.Broker.Errors.{Failure}
use corv_client.Broker.Job.{
  Status, pending, starting, running, finalize_pending, failed, done, expired, unknown, Job,
  JobRecord, job_key, new_job_record,
}
use corv_client.Broker.State.{
  World, Broker, Entry, Event, saved_registry, save_failed, M, ◌>>=◌, ◌>>◌, pure, gets, ask, quiet,
  job_of,
}

abbrev pub job_ttl : ℕ
job_ttl = 24 * 3600 * second

-- `==` on the status texts
abbrev status_code : Status → ℕ
status_code pending = 0
status_code starting = 1
status_code running = 2
status_code finalize_pending = 3
status_code failed = 4
status_code done = 5
status_code expired = 6
status_code unknown = 7

unfoldable pub status_eq : Status → Status → Bool
status_eq a b = status_code a == status_code b

-- The test in the loop of `migrateLegacyFingerprints`
unfoldable pub is_legacy : Bytes → Bytes → Bytes → JobRecord → Bool
is_legacy profile current legacy r =
    if not (bytes_eq r.profile profile) || not (r.fingerprint_version == 0)
    then false
    else if not (is_empty r.fingerprint)
        && not (bytes_eq r.fingerprint current)
        && not (bytes_eq r.fingerprint legacy)
    then false
    else true

unfoldable pub migrate : Bytes → Bytes → Bytes → Bytes → JobRecord → JobRecord
migrate profile current legacy key r =
    if is_legacy profile current legacy r
    then record r { fingerprint = current; fingerprint_version = 1 }
    else r

unfoldable pub any_value : (JobRecord → Bool) → Assoc JobRecord → Bool
any_value test [] = false
any_value test ((k, r) ∷ m) = test r || any_value test m

-- The tests of `pruneExpiredKeyedJobs`; all times are after the first day of 1970.
unfoldable pub is_outdated : ℕ → Bytes → JobRecord → Bool
is_outdated now key r =
    if is_empty r.run_key_hash || not (status_eq r.status done) || r.finished_at == 0
    then false
    else ltb r.finished_at (now - job_ttl)

unfoldable pub is_unkeyed_of : Bytes → Bytes → JobRecord → Bool
is_unkeyed_of profile key r = bytes_eq r.profile profile && is_empty r.run_key_hash

unfoldable pub find_run : Bytes → Assoc JobRecord → Option JobRecord
find_run id [] = none
find_run id ((k, r) ∷ m) = if bytes_eq r.run_id id then some r else find_run id m

-- `or` of two errors, the first first
abbrev pub first_error : Option Failure → Option Failure → Option Failure
first_error (some e) other = some e
first_error none other = other

abbrev note_save : Assoc JobRecord → Option Failure → List Event
note_save next none = saved_registry next ∷ []
note_save next (some e) = save_failed ∷ []

-- `s.jobs = next` if the file could be written
unfoldable pub settle : Assoc JobRecord → Option Failure → M (Unit {0})
settle next none s = (tt, record s { jobs = next; jobs_file = next })
settle next (some e) s = (tt, s)

module _ ⦃w : World⦄ where
  -- `time.Now()`
  unfoldable pub now : M ℕ
  now = do _ ← ask w.delay (λ n. tt {0}) quiet; gets (λ s. s.clock)

  -- `saveJobRegistry(next)`, and `s.jobs = next` after it: every caller does the two under one lock.
  unfoldable pub commit : Assoc JobRecord → M (Option Failure)
  commit next = do
    e ← ask w.delay (λ n. first_error (w.paths_error n) (w.save_error n)) (note_save next)
    settle next e
    pure e

  unfoldable pub migrate_legacy_fingerprints : Bytes → Bytes → Bytes → M (Option Failure)
  migrate_legacy_fingerprints profile current legacy = do
    jobs ← gets (λ s. s.jobs)
    if any_value (is_legacy profile current legacy) jobs
        then commit (map_values (migrate profile current legacy) jobs)
        else pure none

  unfoldable pub persisted_job_by_key : Bytes → M (Option JobRecord)
  persisted_job_by_key key = gets (λ s. lookup key s.jobs)

  unfoldable pub persisted_job_by_run_id : Bytes → M (Option JobRecord)
  persisted_job_by_run_id id = gets (λ s. find_run id s.jobs)

  -- `key := j.key; if key == "" { key = jobKey(…) }`
  unfoldable pub key_of : Bytes → Job → Bytes
  key_of profile j = if is_empty j.key then job_key w.digest profile j.command else j.key

  abbrev points_to : ℕ → Option ℕ → Bool
  points_to a none = false
  points_to a (some b) = b == a

  abbrev pub is_current_in : Broker → Bytes → ℕ → Option ℕ → Bool
  is_current_in s profile a none = false
  is_current_in s profile a (some e) =
      points_to a (lookup (key_of profile (s.job_at a)) (s.entry_at e).jobs)
      && bytes_eq (s.entry_at e).fingerprint (s.job_at a).fingerprint

  -- `currentJob`
  unfoldable pub is_current : Bytes → ℕ → Broker → Bool
  is_current profile a s = is_current_in s profile a (lookup profile s.entries)

  unfoldable pub save_persisted_job : Bytes → ℕ → M (Option Failure)
  save_persisted_job profile a = do
    current ← gets (is_current profile a)
    j ← job_of a
    jobs ← gets (λ s. s.jobs)
    let r = new_job_record w.digest profile j
    if current then commit (put r.key r jobs) else pure none

  unfoldable pub delete_persisted_job_by_key : Bytes → M (Unit {0})
  delete_persisted_job_by_key key = do
    jobs ← gets (λ s. s.jobs)
    _ ← commit (delete key jobs)
    pure tt

  unfoldable pub delete_unkeyed_persisted_jobs : Bytes → M (Option Failure)
  delete_unkeyed_persisted_jobs profile = do
    jobs ← gets (λ s. s.jobs)
    commit (keep_if (λ k r. not (is_unkeyed_of profile k r)) jobs)

  unfoldable pub prune_expired_keyed_jobs : ℕ → M (Unit {0})
  prune_expired_keyed_jobs time = do
    jobs ← gets (λ s. s.jobs)
    if any_value (is_outdated time []) jobs
        then commit (keep_if (λ k r. not (is_outdated time k r)) jobs) >> pure tt
        else pure tt
