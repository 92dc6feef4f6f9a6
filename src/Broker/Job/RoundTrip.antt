-- ===== src/Broker/Job/RoundTrip.antt =====
-- internal/broker/job_store.go: a job that is written to its record and read back.
use corv_client.Prelude.{
  ℕ, zero, suc, ◌*◌, ◌/◌, ◌≤◌, ◌≡◌, ◌≢◌, refl, Bool, true, false, [], Bytes, arith, Option, none,
  some, is_empty,
}
use corv_client.Broker.Wait.{second}
use corv_client.Broker.Job.{
  Status, pending, starting, running, finalize_pending, failed, done, expired, unknown, Job, Digest,
  unix, unix_nano, of_nano, of_unix, new_job_record, is_terminal, record_to_job,
}

nano_round_trip : (t : Option ℕ) → t ≢ some 0 → of_nano (unix_nano t) ≡ t
nano_round_trip none h = refl
nano_round_trip (some zero) h = absurd (h refl)
nano_round_trip (some (suc t)) h = refl

unix_round_trip :
    (now t : ℕ) → second ≤ t → of_unix now (unix (some t)) ≡ some (t / second * second)
unix_round_trip now t h = ground arith

-- Which statuses a run ends with. A run whose log is still to be fetched has ended; one whose state is
-- not known has not, as far as the broker can tell.
pub data Ends : Status → Bool → Type 0 where
  open_pending : Ends pending false
  open_starting : Ends starting false
  open_running : Ends running false
  open_unknown : Ends unknown false
  ended_done : Ends done true
  ended_unfetched : Ends finalize_pending true
  ended_failed : Ends failed true
  ended_expired : Ends expired true

Ends-is_terminal : {x : Status} {b : Bool} → Ends x b → b ≡ is_terminal x
Ends-is_terminal open_pending = refl
Ends-is_terminal open_starting = refl
Ends-is_terminal open_running = refl
Ends-is_terminal open_unknown = refl
Ends-is_terminal ended_done = refl
Ends-is_terminal ended_unfetched = refl
Ends-is_terminal ended_failed = refl
Ends-is_terminal ended_expired = refl

-- A started job comes back from its record with every field as it was, but for its command, which
-- is never stored, its start error, and its start time, which is cut to whole seconds. The job has a
-- key; it was started a second after the epoch or later, and the other two times, where they are set,
-- are not the epoch itself, which a record takes for no time; and the job counts as done exactly if
-- its status is one that a run ends with: done, done with its log still to be fetched, failed or
-- expired.
pub record_to_job-new_job_record :
    (d : Digest) (profile : Bytes) (now t : ℕ) (j : Job)
    → is_empty j.key ≡ false
    → j.started ≡ true
    → j.started_at ≡ some t
    → second ≤ t
    → j.last_seen_at ≢ some 0
    → j.finished_at ≢ some 0
    → Ends j.status j.is_done
    → record_to_job now (new_job_record d profile j)
      ≡ record j { command = []; start_err = none; started_at = some (t / second * second) }
unfolding record_to_job new_job_record
record_to_job-new_job_record d profile now t j hk hs ht late hl hf hd = ground (
  arith,
  Ends-is_terminal hd,
  unix_round_trip now t late,
  nano_round_trip j.last_seen_at hl,
  nano_round_trip j.finished_at hf,
)
