-- ===== src/Broker/Run/Start.antt =====
-- internal/broker/jobs.go: `ensureJobStarted`, its record of the run and its remote commands.
use corv_client.Prelude.{
  codes, not, ◌||◌, ◌≡◌, refl, sym, ap, ◌∙◌, Bool, true, false, ◌⊎◌, inl, inr, Bytes, Option, none,
  some, if◌then◌else◌, ℕ, is_empty, Bool-cases, subst, ==-self, length,
}
use Prim.{absurd}
use mathlib.Core.Bool.{true≢false}
use corv_client.Prelude.Assoc.{Assoc, lookup, put, lookup-put_self}
use corv_client.Prelude.Result.{Result, ok, err}
use corv_client.Broker.Errors.{Failure}
use corv_client.Broker.Job.{Status, starting, running, Job, JobRecord, Digest, new_job_record}
use corv_client.Broker.State.{
  World, Broker, RawResult, succeeded, M, ◌>>=◌, pure, gets, ask, job_of, modify_job, update,
}
use corv_client.Broker.Keeps.{identity}
use corv_client.Broker.Store.{now, key_of, is_current_in, is_current, save_persisted_job}
use corv_client.Broker.Store.Cases.{commit-cases, save-current, save-other}
use corv_client.Broker.Conn.{max_delta_bytes, is_disconnected, is_timeout}
use corv_client.Broker.Conn.Leaves.{Leaves-run_raw_stdin}
use corv_client.Broker.Commands.{start_job_command}
use corv_client.Broker.Run.{
  StartOutcome, started, uncertain, start_failed, fail_job_start, mark_running, judge_start,
  start_saved, start_job, ensure_job_started, start_error,
}
use corv_client.Go.Strings.{contains}

-- A run that may still go on.
abbrev pub IsOpen : Status → Type 0
IsOpen x = (x ≡ starting) ⊎ (x ≡ running)

-- A registry has a record of the run of job `j`, with the job's hashes, as a run that may still go on.
pub record HasRecord (j : Job) (m : Assoc JobRecord) : Type 0 where
  pub kept : JobRecord
  pub there : lookup j.key m ≡ some kept
  pub run_id : kept.run_id ≡ j.id
  pub command_hash : kept.command_hash ≡ j.command_hash
  pub run_key_hash : kept.run_key_hash ≡ j.run_key_hash
  pub fingerprint : kept.fingerprint ≡ j.fingerprint
  pub status : IsOpen kept.status

-- The file has such a record.
abbrev pub IsRecorded : Job → Broker → Type 0
IsRecorded j s = HasRecord j s.jobs_file

abbrev pub has_failed : StartOutcome → Bool
has_failed started = false
has_failed uncertain = false
has_failed (start_failed e) = true

HasRecord-same : (j : Job) (m n : Assoc JobRecord) → n ≡ m → HasRecord j m → HasRecord j n
HasRecord-same j m n same h = subst (HasRecord j) (sym same) h

pub HasRecord-put :
    (d : Digest) (profile : Bytes) (j x : Job) (m : Assoc JobRecord)
    → identity x ≡ identity j
    → is_empty j.key ≡ false
    → IsOpen x.status
    → HasRecord j (put (new_job_record d profile x).key (new_job_record d profile x) m)
unfolding new_job_record
HasRecord-put d profile j x m same key going = record {
  kept = new_job_record d profile x;
  there =
      let key_x : is_empty x.key ≡ false = ap is_empty (ap (λ y. y.1) same) ∙ key in
      let own : (new_job_record d profile x).key ≡ j.key = rw key_x (ap (λ y. y.1) same) in
      ap (λ k. lookup k (put (new_job_record d profile x).key (new_job_record d profile x) m))
        (sym own)
      ∙ lookup-put_self (new_job_record d profile x).key (new_job_record d profile x) m;
  run_id = ap (λ y. y.0) same;
  command_hash = ap (λ y. y.4) same;
  run_key_hash = ap (λ y. y.5) same;
  fingerprint = ap (λ y. y.3) same;
  status = going;
}

-- The run is recorded after `m`, unless the start failed.
record Stands (j : Job) (s : Broker) (m : M StartOutcome) : Type 0 where
  pub stands : has_failed (m s).0 ≡ false → IsRecorded j (m s).1

Stands-if :
    (j : Job) (b : Bool) (m n : M StartOutcome) (s : Broker)
    → Stands j s m
    → Stands j s n
    → Stands j s (if b then m else n)
Stands-if j true m n s h k = h
Stands-if j false m n s h k = k

Stands-else :
    (j : Job) (b : Bool) (m n : M StartOutcome) (s : Broker)
    → b ≡ false
    → Stands j s n
    → Stands j s (if b then m else n)
Stands-else j true m n s e h = absurd (true≢false e)
Stands-else j false m n s e h = h

module _ ⦃w : World⦄ where
  -- Whether a job is the held one depends on the entries and on what a job never changes.
  pub is_current_in-same :
      (profile : Bytes) (a : ℕ) (s t : Broker) (o : Option ℕ)
      → t.entry_at ≡ s.entry_at
      → identity (t.job_at a) ≡ identity (s.job_at a)
      → is_current_in t profile a o ≡ is_current_in s profile a o
  unfolding key_of
  is_current_in-same profile a s t none same_entry same = refl
  is_current_in-same profile a s t (some e) same_entry same =
      rw (same_entry, ap (λ y. y.1) same, ap (λ y. y.2) same, ap (λ y. y.3) same) refl

  -- Saving an open job leaves its run recorded, however the save ends.
  save-IsRecorded :
      (profile : Bytes) (j : Job) (a : ℕ) (s : Broker)
      → identity (s.job_at a) ≡ identity j
      → is_empty j.key ≡ false
      → IsOpen (s.job_at a).status
      → IsRecorded j s
      → IsRecorded j (save_persisted_job profile a s).1
  save-IsRecorded profile j a s same key going h = elim (Bool-cases (is_current profile a s)) [
    | inr e ↦ rw (save-other profile a s e) h
    | inl e ↦ rw (save-current profile a s e) (elim (commit-cases _ s) [
      | inl y ↦
          HasRecord-same j _ _ y.jobs_file
            (HasRecord-put w.digest profile j (s.job_at a) s.jobs same key going)
      | inr n ↦ HasRecord-same j _ _ n.jobs_file h
    ])
  ]

  Stands-fail_job_start :
      (profile : Bytes) (j : Job) (a code : ℕ) (e : Failure) (s : Broker)
      → Stands j s (fail_job_start profile a code e)
  unfolding fail_job_start ◌>>=◌ pure
  Stands-fail_job_start profile j a code e s = record { stands = λ good. absurd (true≢false good) }

  Stands-unless :
      (profile : Bytes) (j : Job) (a : ℕ) (b : Bool) (code : ℕ) (e : Failure) (m : M StartOutcome)
      (s : Broker)
      → Stands j s m
      → Stands j s (if b then fail_job_start profile a code e else m)
  Stands-unless profile j a b code e m s h =
      Stands-if j b _ m s (Stands-fail_job_start profile j a code e s) h

  Stands-mark_running :
      (profile : Bytes) (j : Job) (a : ℕ) (out : StartOutcome) (s : Broker)
      → identity (s.job_at a) ≡ identity j
      → is_empty j.key ≡ false
      → IsRecorded j s
      → Stands j s (mark_running profile a out)
  unfolding mark_running ◌>>=◌ pure modify_job update
  Stands-mark_running profile j a out s same key h = record {
    stands = λ good.
        save-IsRecorded profile j a _ (rw (==-self a) same) key (rw (==-self a) (inr refl)) h;
  }

  Stands-judge_start :
      (profile : Bytes) (j : Job) (a : ℕ) (r : Result Failure RawResult) (s : Broker)
      → identity (s.job_at a) ≡ identity j
      → is_empty j.key ≡ false
      → IsRecorded j s
      → Stands j s (judge_start profile a r)
  unfolding judge_start
  Stands-judge_start profile j a (err e) s same key h = Stands-fail_job_start profile j a 1 e s
  Stands-judge_start profile j a (ok r) s same key h =
      let start_ok = Stands-mark_running profile j a started s same key h in
      let reported =
        Stands-unless profile j a
          (not (succeeded r) || not (contains r.stdout (codes "CORV_STARTED"))) r.exit_code
          (start_error r) _ s start_ok in
      let uploaded =
        Stands-unless profile j a (contains r.stdout (codes "CORV_UPLOAD_INCOMPLETE")) r.exit_code _
          _ s reported in
      let has_tools =
        Stands-unless profile j a (contains r.stdout (codes "CORV_NO_POSIX")) r.exit_code _ _ s
          uploaded in
      Stands-if j (is_disconnected r.kind || is_timeout r.kind) _ _ s
        (Stands-mark_running profile j a uncertain s same key h) has_tools

  -- Sending the start command, once the record is in the file.
  Stands-start_saved :
      (e : ℕ) (profile : Bytes) (j : Job) (a : ℕ) (s : Broker)
      → identity (s.job_at a) ≡ identity j
      → is_empty j.key ≡ false
      → IsRecorded j s
      → Stands j s (start_saved e profile a none)
  unfolding start_saved ◌>>=◌ job_of gets
  Stands-start_saved e profile j a s same key h =
      let k =
        Leaves-run_raw_stdin e (start_job_command (s.job_at a).id (length (s.job_at a).command))
          (s.job_at a).command max_delta_bytes in
      record {
        stands =
            (Stands-judge_start profile j a _ _ (ap (λ f. identity (f a)) (k.job_at s) ∙ same) key
              (HasRecord-same j _ _ (k.jobs_file s) h)).stands;
      }

  start_unsaved :
      (e : ℕ) (profile : Bytes) (j : Job) (a : ℕ) (f : Failure) (s : Broker)
      → has_failed (start_saved e profile a (some f) s).0 ≡ false
      → IsRecorded j (start_saved e profile a (some f) s).1
  unfolding start_saved ◌>>=◌ pure
  start_unsaved e profile j a f s bad = absurd (true≢false bad)

  -- The save, and what follows it.
  Stands-saved :
      (e : ℕ) (profile : Bytes) (j : Job) (a : ℕ) (s : Broker)
      → identity (s.job_at a) ≡ identity j
      → is_empty j.key ≡ false
      → (s.job_at a).status ≡ starting
      → is_current profile a s ≡ true
      → Stands j s (save_persisted_job profile a >>= start_saved e profile a)
  unfolding ◌>>=◌
  Stands-saved e profile j a s same key status current = record {
    stands = rw (save-current profile a s current) (elim (commit-cases _ s) [
      | inl y ↦
          let recorded =
            HasRecord-same j _ _ y.jobs_file
              (HasRecord-put w.digest profile j (s.job_at a) s.jobs same key (inl status)) in
          rw y.result
            (Stands-start_saved e profile j a _ (ap (λ f. identity (f a)) y.job_at ∙ same) key
              recorded).stands
      | inr n ↦ rw n.result.1 (start_unsaved e profile j a n.result.0 _)
    ]);
  }

  -- The state in which the record is saved.
  abbrev pub begun : Broker → ℕ → Broker
  begun s a =
      (modify_job a
        (λ j. record j { started = true; started_at = some (now s).0; status = starting })
        (now s).1).1

  Stands-start_job :
      (e : ℕ) (profile : Bytes) (a : ℕ) (s : Broker)
      → is_empty (s.job_at a).key ≡ false
      → is_current profile a s ≡ true
      → Stands (s.job_at a) s (start_job e profile a)
  unfolding start_job ◌>>=◌ modify_job now ask gets update is_current
  Stands-start_job e profile a s key current = record {
    stands =
        (Stands-saved e profile (s.job_at a) a _ (rw (==-self a) refl) key (rw (==-self a) refl) (
          is_current_in-same profile a s (begun s a) (lookup profile s.entries) refl
            (rw (==-self a) refl)
          ∙ current)).stands;
  }

  -- If the start of a job that the broker holds for the profile is not reported as failed, then
  -- afterwards jobs.json has a record under the job's key with the run's id, the job's hashes and its
  -- fingerprint, as a run that is starting or running. This covers the start whose outcome is
  -- uncertain, and saves that fail behind the first one.
  pub ensure_job_started-IsRecorded :
      (e : ℕ) (profile : Bytes) (a : ℕ) (s : Broker)
      → (s.job_at a).started ≡ false
      → is_empty (s.job_at a).key ≡ false
      → is_current profile a s ≡ true
      → has_failed (ensure_job_started e profile a s).0 ≡ false
      → IsRecorded (s.job_at a) (ensure_job_started e profile a s).1
  unfolding ensure_job_started start_job ◌>>=◌ job_of gets
  ensure_job_started-IsRecorded e profile a s fresh key current good =
      (Stands-else (s.job_at a) (s.job_at a).started _ _ s fresh
          (Stands-start_job e profile a s key current)).stands
        good
