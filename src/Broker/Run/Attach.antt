-- ===== src/Broker/Run/Attach.antt =====
-- internal/broker/server.go: a broker that comes up again, and the runs that its predecessor
-- recorded.
use corv_client.Prelude.{
  ◌≡◌, refl, sym, ap, ◌∙◌, Bool, true, false, inl, inr, [], Bytes, none, some, ℕ, is_empty,
  bytes_eq, bytes_eq_self, ==-self, arith,
}
use corv_client.Prelude.Assoc.{lookup}
use corv_client.Prelude.Result.{Result, ok}
use corv_client.Broker.Errors.{Failure}
use corv_client.Broker.Job.{Status, done, Job, JobRecord, record_to_job}
use corv_client.Broker.State.{
  World, Broker, fresh_entry, ◌>>=◌, pure, gets, ask, job_of, entry_of, add_job, update,
}
use corv_client.Broker.Store.{now, status_eq, is_current, persisted_job_by_key}
use corv_client.Broker.Run.{
  Claim, conflicts, adopt, can_adopt, needs_finalization, serve, serve_old, job_from_entry,
  job_from_registry, job_from_record, started, outcome_of, ensure_job_started,
}
use corv_client.Broker.Run.Start.{IsOpen, IsRecorded, has_failed, ensure_job_started-IsRecorded}

-- The broker after `Serve` has loaded jobs.json: the connections and the jobs in memory are gone.
unfoldable pub restarted : Broker → Broker
restarted s = record s {
  entries = [];
  entry_at = λ e. fresh_entry;
  entry_next = 0;
  jobs = s.jobs_file;
}

-- The job stands for the claim.
pub record IsClaimOf (c : Claim) (j : Job) : Type 0 where
  pub key : j.key ≡ c.key
  pub command_hash : j.command_hash ≡ c.command_hash
  pub run_key_hash : j.run_key_hash ≡ c.run_key_hash
  pub fingerprint : j.fingerprint ≡ c.fingerprint

-- The claim is served by the run `id`: a job that counts as started, with no error.
pub record IsAttached (run_id : Bytes) (s : Broker) (p : Result Failure ℕ × Broker) : Type 0 where
  pub job : ℕ
  pub result : p.0 ≡ ok job
  pub id : (p.1.job_at job).id ≡ run_id
  pub started : (p.1.job_at job).started ≡ true
  pub start_err : (p.1.job_at job).start_err ≡ none
  pub events : p.1.events ≡ s.events
  pub jobs : p.1.jobs ≡ s.jobs

open-not_done : (x : Status) → IsOpen x → status_eq x done ≡ false
unfolding status_eq
open-not_done x (inl e) = rw e refl
open-not_done x (inr e) = rw e refl

open-adopted :
    (c : Claim) (r : JobRecord)
    → IsOpen r.status
    → bytes_eq r.fingerprint c.fingerprint ≡ true
    → can_adopt c false r ≡ true
unfolding can_adopt status_eq
open-adopted c r (inl e) f = rw (e, f) (ground arith)
open-adopted c r (inr e) f = rw (e, f) (ground arith)

module _ ⦃w : World⦄ where
  serve_old-IsAttached :
      (e : ℕ) (c : Claim) (b : Bool) (r : JobRecord) (s : Broker)
      → IsAttached r.run_id s (serve_old e c b r s)
  unfolding serve_old adopt record_to_job add_job now ask gets update pure ◌>>=◌
  serve_old-IsAttached e c b r s = record {
    job = s.job_next;
    result = refl;
    id = rw (==-self s.job_next) refl;
    started = rw (==-self s.job_next) refl;
    start_err = rw (==-self s.job_next) refl;
    events = refl;
    jobs = refl;
  }

  job_from_record-IsAttached :
      (e : ℕ) (c : Claim) (r : JobRecord) (s : Broker)
      → IsOpen r.status
      → conflicts c r.command_hash r.run_key_hash r.fingerprint ≡ false
      → bytes_eq r.fingerprint c.fingerprint ≡ true
      → IsAttached r.run_id s (job_from_record e c (some r) s)
  unfolding job_from_record needs_finalization ◌>>=◌ pure
  job_from_record-IsAttached e c r s x calm f =
      rw (calm, open-not_done r.status x, open-adopted c r x f) (serve_old-IsAttached e c false r s)

  calm :
      (c : Claim) (h k f : Bytes)
      → h ≡ c.command_hash
      → k ≡ c.run_key_hash
      → f ≡ c.fingerprint
      → conflicts c h k f ≡ false
  unfolding conflicts
  calm c h k f eh ek ef =
      rw
        (
          eh,
          ek,
          ef,
          bytes_eq_self c.command_hash,
          bytes_eq_self c.run_key_hash,
          bytes_eq_self c.fingerprint,
        )
        (ground arith)

  serve-restarted :
      (e : ℕ) (c : Claim) (j : Job) (s : Broker)
      → IsClaimOf c j
      → IsRecorded j s
      → IsAttached j.id (restarted s) (serve e c (restarted s))
  unfolding serve job_from_entry job_from_registry persisted_job_by_key restarted ◌>>=◌ gets
      entry_of lookup
  serve-restarted e c j s m h =
      let there : lookup c.key s.jobs_file ≡ some h.kept =
        ap (λ k. lookup k s.jobs_file) (sym m.key) ∙ h.there in
      let quiet =
        calm c h.kept.command_hash h.kept.run_key_hash h.kept.fingerprint
          (h.command_hash ∙ m.command_hash) (h.run_key_hash ∙ m.run_key_hash)
          (h.fingerprint ∙ m.fingerprint) in
      let own : bytes_eq h.kept.fingerprint c.fingerprint ≡ true =
        rw (h.fingerprint ∙ m.fingerprint) (bytes_eq_self c.fingerprint) in
      let attached = job_from_record-IsAttached e c h.kept (restarted s) h.status quiet own in
      rw (there, sym h.run_id) attached

  -- A job that counts as started is not started again.
  ensure_job_started-again :
      (e : ℕ) (profile : Bytes) (a : ℕ) (s : Broker)
      → (s.job_at a).started ≡ true
      → (s.job_at a).start_err ≡ none
      → ensure_job_started e profile a s ≡ (started, s)
  unfolding ensure_job_started outcome_of pure job_of gets ◌>>=◌
  ensure_job_started-again e profile a s h k = rw (h, k) refl

  -- After a start that was not reported as failed, its outcome uncertain perhaps, a broker that dies and
  -- comes up again serves the same request with the same run, and starting that run again sends
  -- nothing: it changes nothing, and reports success.
  pub restart-runs_once :
      (e d : ℕ) (profile : Bytes) (a : ℕ) (c : Claim) (s : Broker)
      → (s.job_at a).started ≡ false
      → is_empty (s.job_at a).key ≡ false
      → is_current profile a s ≡ true
      → has_failed (ensure_job_started e profile a s).0 ≡ false
      → IsClaimOf c (s.job_at a)
      → let t = restarted (ensure_job_started e profile a s).1 in
        (p : IsAttached (s.job_at a).id t (serve d c t)) × (ensure_job_started d profile p.job
            (serve d c t).1
          ≡ (started, (serve d c t).1))
  restart-runs_once e d profile a c s fresh key current good m =
      let p =
        serve-restarted d c (s.job_at a) _ m
          (ensure_job_started-IsRecorded e profile a s fresh key current good) in
      (p, ensure_job_started-again d profile p.job _ p.started p.start_err)
