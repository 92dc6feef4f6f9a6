-- ===== src/Tests/Broker.antt =====
-- The theorems on the broker at concrete inputs.
use corv_client.Prelude.{
  ap, ◌≡◌, refl, ◌<◌, ◌⊎◌, inl, inr, ℕ, zero, suc, ◌+◌, ◌*◌, true, false, [], ◌∷◌, Bytes, codes,
  Option, none, some, arith, ◌≢◌, sym, ◌∙◌, bytes_eq, bytes_eq→eq, Bool-cases,
}
use mathlib.Core.Option.{none-ne-some}
use Prim.{absurd}
use corv_client.Prelude.Assoc.{lookup, put, delete}
use corv_client.Prelude.Result.{ok}
use corv_client.Broker.Wait.{second}
use corv_client.Prelude.Int.{pos}
use corv_client.Broker.Job.{Job, JobRecord, running, done, new_job_record, record_to_job}
use corv_client.Broker.Job.RoundTrip.{open_running, record_to_job-new_job_record}
use corv_client.Broker.State.{
  Broker, fresh_entry, ◌>>=◌, pure, job_of, gets, ask, update, modify_job, modify_entry, entry_of,
  succeeded,
}
use corv_client.Broker.Conn.{
  run_raw_stdin, conn_for, held_or_dialled, dial_snapshot, keep_dialled, use_conn, sweep, exec_raw,
  run_first, retry,
}
use corv_client.Go.Strings.{contains, has_prefix}
use corv_client.Broker.Keeps.{IsSound, Since}
use corv_client.Broker.Store.{
  is_current, key_of, save_persisted_job, commit, settle, now, prune_expired_keyed_jobs,
}
use corv_client.Broker.Store.Prune.{IsPruned, lookup-prune_expired_keyed_jobs}
use corv_client.Broker.Run.{
  ensure_job_started, start_job, start_saved, judge_start, mark_running, job_from_entry, conflicts,
  stays, serve, started,
}
use corv_client.Broker.Run.Start.{has_failed}
use corv_client.Broker.Run.Order.{IsOrdered, ensure_job_started-IsOrdered}
use corv_client.Broker.Run.Attach.{IsAttached, IsClaimOf, restarted, restart-runs_once}
use corv_client.Broker.Run.Claims.{IsClaimed, HasNoClash, serve-IsClaimed}
use corv_client.Broker.Watch.{watch_job}
use corv_client.Broker.Watch.Ends.{Returns, Returns-watch_job}
use corv_client.Broker.Exec.{handle, handle-IsSound}
use corv_client.Tests.World.{
  test_world, test_digest, make_job, make_claim, web_entry, empty_broker, web_broker, entries_of,
  make_request,
}

none-ne : (o : Option ℕ) → o ≡ none → o ≢ some 0
none-ne o n e = none-ne-some _ (sym n ∙ e)

no_record : (k : Bytes) (r : JobRecord) → lookup {V = JobRecord} k [] ≡ some r → r.key ≡ k
unfolding lookup
no_record k r e = absurd (none-ne-some _ e)

no_slot : (k : Bytes) (a : ℕ) → lookup {V = ℕ} k [] ≡ some a → ⊥
unfolding lookup
no_slot k a e = none-ne-some _ e

idle_slots :
    (e : ℕ) (k : Bytes) (a : ℕ)
    → lookup k (entries_of fresh_entry e).jobs ≡ some a
    → (a < 1) × (make_job.key ≡ k)
idle_slots zero k a found = absurd (no_slot k a found)
idle_slots (suc e) k a found = absurd (no_slot k a found)

one_slot : (k : Bytes) (a : ℕ) → lookup k ((codes "k", 0) ∷ []) ≡ some a → (a < 1) × (codes "k" ≡ k)
unfolding lookup
one_slot k a found = elim (Bool-cases (bytes_eq (codes "k") k)) [
  | inl e ↦ let found' = rw e at found in (ground arith, bytes_eq→eq (codes "k") k e)
  | inr e ↦ let found' = rw e at found in absurd (none-ne-some _ found')
]

web_slots :
    (e : ℕ) (k : Bytes) (a : ℕ)
    → lookup k (entries_of web_entry e).jobs ≡ some a
    → (a < 1) × (make_job.key ≡ k)
web_slots zero k a found = one_slot k a found
web_slots (suc e) k a found = absurd (no_slot k a found)

idle-IsSound : IsSound empty_broker
idle-IsSound = record { synced = refl; unique = tt; keyed = no_record; slots = idle_slots }

web-IsSound : IsSound web_broker
web-IsSound = record { synced = refl; unique = tt; keyed = no_record; slots = web_slots }

handle-IsSound_example :
    IsSound (handle make_request web_broker).1 × Since web_broker (handle make_request web_broker).1
handle-IsSound_example = handle-IsSound make_request web_broker web-IsSound

web_is_current : is_current (codes "web") 0 web_broker ≡ true
unfolding is_current key_of lookup bytes_eq
web_is_current = refl

web_starts : has_failed (ensure_job_started 0 (codes "web") 0 web_broker).0 ≡ false
unfolding ensure_job_started start_job ◌>>=◌ pure job_of gets ask update modify_job modify_entry
    entry_of start_saved judge_start mark_running save_persisted_job is_current key_of commit settle
    now lookup bytes_eq put delete new_job_record run_raw_stdin conn_for held_or_dialled
    dial_snapshot keep_dialled use_conn sweep exec_raw run_first retry succeeded contains has_prefix
web_starts = refl

ensure_job_started-IsOrdered_example :
    IsOrdered make_job web_broker (ensure_job_started 0 (codes "web") 0 web_broker)
ensure_job_started-IsOrdered_example =
    ensure_job_started-IsOrdered 0 (codes "web") 0 web_broker web-IsSound refl refl web_is_current

make-IsClaimOf : IsClaimOf make_claim make_job
make-IsClaimOf = record { key = refl; command_hash = refl; run_key_hash = refl; fingerprint = refl }

restart-runs_once_example :
    let t = restarted (ensure_job_started 0 (codes "web") 0 web_broker).1 in
    (p : IsAttached make_job.id t (serve 0 make_claim t)) × (ensure_job_started 0
        (codes "web")
        p.job
        (serve 0 make_claim t).1
      ≡ (started, (serve 0 make_claim t).1))
restart-runs_once_example =
    restart-runs_once 0 0 (codes "web") 0 make_claim web_broker refl refl web_is_current web_starts
      make-IsClaimOf

web_serves : (serve 0 make_claim web_broker).0 ≡ ok 0
unfolding serve ◌>>=◌ job_from_entry lookup entry_of gets bytes_eq conflicts job_of stays pure
web_serves = refl

serve-IsClaimed_example :
    IsClaimed make_claim ((serve 0 make_claim web_broker).1.job_at 0)
    × ((make_claim.keyed ≡ false) ⊎ HasNoClash 0 make_claim web_broker)
serve-IsClaimed_example = serve-IsClaimed 0 make_claim web_broker 0 web-IsSound web_serves

Returns-watch_job_example : Returns (watch_job 0 (codes "web") 0 (5 * second)) web_broker
Returns-watch_job_example =
    Returns-watch_job 0 (codes "web") 0 (5 * second) web_broker web-IsSound (omega arith)

-- A run under a run key that ended at the first second of 1970.
abbrev old_record : JobRecord
old_record = record {
  key = codes "old";
  run_id = codes "r1";
  profile = codes "web";
  command = [];
  command_hash = codes "ch";
  run_key_hash = codes "rh";
  fingerprint = [];
  fingerprint_version = 2;
  remote_dir = [];
  log_path = [];
  rc_path = [];
  offset = 0;
  started_at = pos 1;
  last_seen_at = 0;
  finished_at = second;
  duration_ms = 0;
  status = done;
  exit_code = 0;
  pid = [];
}

abbrev stale_broker : Broker
stale_broker = record web_broker {
  jobs = (codes "old", old_record) ∷ [];
  jobs_file = (codes "old", old_record) ∷ [];
}

one_record :
    (k : Bytes) (r : JobRecord) → lookup k ((codes "old", old_record) ∷ []) ≡ some r → r.key ≡ k
unfolding lookup
one_record k r found = elim (Bool-cases (bytes_eq (codes "old") k)) [
  | inl e ↦
      let found' = rw e at found in
      let same : old_record ≡ r = cc found' in
      ap (λ (x : JobRecord). x.key) (sym same) ∙ bytes_eq→eq (codes "old") k e
  | inr e ↦ let found' = rw e at found in absurd (none-ne-some _ found')
]

stale-IsSound : IsSound stale_broker
unfolding lookup
stale-IsSound = record { synced = refl; unique = (refl, tt); keyed = one_record; slots = web_slots }

lookup-prune_expired_keyed_jobs_example :
    IsPruned
      (200000 * second)
      (codes "old")
      stale_broker
      (prune_expired_keyed_jobs (200000 * second) stale_broker).1
lookup-prune_expired_keyed_jobs_example =
    lookup-prune_expired_keyed_jobs (200000 * second) (codes "old") stale_broker stale-IsSound

abbrev running_job : Job
running_job = record make_job {
  started = true;
  started_at = some (7 * second + 3);
  status = running;
}

record_to_job-new_job_record_example :
    record_to_job 9 (new_job_record test_digest (codes "web") running_job)
    ≡ record running_job { command = []; start_err = none; started_at = some (7 * second) }
record_to_job-new_job_record_example =
    record_to_job-new_job_record test_digest (codes "web") 9 (7 * second + 3) running_job refl refl
      refl (omega arith) (none-ne none refl) (none-ne none refl) open_running
