-- ===== src/Broker/Run/Sound.antt =====
-- Choosing and starting a job keeps the broker sound.
use corv_client.Prelude.{◌≡◌, refl, Bool, Bytes, Option, none, some, ℕ}
use corv_client.Prelude.Result.{Result, ok, err}
use corv_client.Broker.Errors.{Failure}
use corv_client.Broker.Job.{JobRecord}
use corv_client.Broker.State.{World, RawResult}
use corv_client.Broker.Keeps.{Keeps, keeps_rules}
use corv_client.Broker.Store.Sound.{store_rules}
use corv_client.Broker.Conn.Sound.{conn_rules}
use corv_client.Broker.Run.{
  Claim, adopt, fresh_job, StartOutcome, retained_run_log_exists, make_job, serve_new, serve_old,
  needs_finalization, job_from_record, job_from_registry, job_from_entry, serve, job_for_request,
  release_job, expire_saved, expire_job, remove_job, fail_job_start, mark_running, judge_start,
  start_saved, start_job, ensure_job_started,
}

module _ ⦃w : World⦄ where
  Keeps-retained_run_log_exists : (id : Bytes) → Keeps (retained_run_log_exists id)
  unfolding retained_run_log_exists
  Keeps-retained_run_log_exists id = search keeps_rules

  fresh-key : (c : Claim) (id : Bytes) → (fresh_job c id).key ≡ c.key
  unfolding fresh_job
  fresh-key c id = refl

  adopt-key : (c : Claim) (t : ℕ) (b : Bool) (r : JobRecord) → (adopt c t b r).key ≡ c.key
  unfolding adopt
  adopt-key c t b r = refl

  Keeps-make_job : (e : ℕ) (c : Claim) → Keeps (make_job e c)
  unfolding make_job
  Keeps-make_job e c = search (keeps_rules, store_rules, fresh-key)

  Keeps-serve_new : (e : ℕ) (c : Claim) → Keeps (serve_new e c)
  unfolding serve_new
  Keeps-serve_new e c = search (keeps_rules, Keeps-make_job)

  Keeps-serve_old : (e : ℕ) (c : Claim) (b : Bool) (r : JobRecord) → Keeps (serve_old e c b r)
  unfolding serve_old
  Keeps-serve_old e c b r = search (keeps_rules, store_rules, adopt-key)

  Keeps-needs_finalization : (r : JobRecord) → Keeps (needs_finalization r)
  unfolding needs_finalization
  Keeps-needs_finalization r = search (keeps_rules, Keeps-retained_run_log_exists)

  Keeps-job_from_record : (e : ℕ) (c : Claim) (r : Option JobRecord) → Keeps (job_from_record e c r)
  unfolding job_from_record
  Keeps-job_from_record e c none = Keeps-serve_new e c
  Keeps-job_from_record e c (some r) =
      search (keeps_rules, Keeps-needs_finalization, Keeps-serve_new, Keeps-serve_old) depth 8

  Keeps-job_from_registry : (e : ℕ) (c : Claim) → Keeps (job_from_registry e c)
  unfolding job_from_registry
  Keeps-job_from_registry e c = search (keeps_rules, store_rules, Keeps-job_from_record)

  Keeps-job_from_entry : (e : ℕ) (c : Claim) (o : Option ℕ) → Keeps (job_from_entry e c o)
  unfolding job_from_entry
  Keeps-job_from_entry e c none = Keeps-job_from_registry e c
  Keeps-job_from_entry e c (some a) = search (keeps_rules, Keeps-job_from_registry) depth 8

  pub Keeps-job_for_request :
      (e : ℕ) (profile command fingerprint run_key : Bytes)
      → Keeps (job_for_request e profile command fingerprint run_key)
  unfolding job_for_request serve
  Keeps-job_for_request e profile command fingerprint run_key =
      search (keeps_rules, store_rules, Keeps-job_from_entry) depth 8

  pub Keeps-release_job : (e a : ℕ) → Keeps (release_job e a)
  unfolding release_job
  Keeps-release_job e a = search keeps_rules

  Keeps-expire_saved : (e a : ℕ) (x : Option Failure) → Keeps (expire_saved e a x)
  unfolding expire_saved
  Keeps-expire_saved e a none = search (keeps_rules, Keeps-release_job)
  Keeps-expire_saved e a (some f) = search keeps_rules

  pub Keeps-expire_job : (e : ℕ) (profile : Bytes) (a : ℕ) → Keeps (expire_job e profile a)
  unfolding expire_job
  Keeps-expire_job e profile a = search (keeps_rules, store_rules, Keeps-expire_saved)

  pub Keeps-remove_job :
      (e : ℕ) (profile command : Bytes) (a : ℕ) → Keeps (remove_job e profile command a)
  unfolding remove_job
  Keeps-remove_job e profile command a = search (keeps_rules, store_rules) depth 8

  Keeps-fail_job_start :
      (profile : Bytes) (a code : ℕ) (f : Failure) → Keeps (fail_job_start profile a code f)
  unfolding fail_job_start
  Keeps-fail_job_start profile a code f = search (keeps_rules, store_rules)

  Keeps-mark_running :
      (profile : Bytes) (a : ℕ) (out : StartOutcome) → Keeps (mark_running profile a out)
  unfolding mark_running
  Keeps-mark_running profile a out = search (keeps_rules, store_rules)

  Keeps-judge_start :
      (profile : Bytes) (a : ℕ) (r : Result Failure RawResult) → Keeps (judge_start profile a r)
  unfolding judge_start
  Keeps-judge_start profile a (err f) = Keeps-fail_job_start profile a 1 f
  Keeps-judge_start profile a (ok r) =
      search (keeps_rules, Keeps-fail_job_start, Keeps-mark_running) depth 8

  pub Keeps-start_saved :
      (e : ℕ) (profile : Bytes) (a : ℕ) (x : Option Failure) → Keeps (start_saved e profile a x)
  unfolding start_saved
  Keeps-start_saved e profile a none = search (keeps_rules, conn_rules, Keeps-judge_start)
  Keeps-start_saved e profile a (some f) = search keeps_rules

  pub Keeps-ensure_job_started :
      (e : ℕ) (profile : Bytes) (a : ℕ) → Keeps (ensure_job_started e profile a)
  unfolding ensure_job_started start_job
  Keeps-ensure_job_started e profile a =
      search (keeps_rules, store_rules, Keeps-start_saved) depth 9

pub ruleset run_rules = (
  Keeps-job_for_request, Keeps-release_job, Keeps-expire_job, Keeps-remove_job,
  Keeps-ensure_job_started,
)
