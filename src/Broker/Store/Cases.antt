-- ===== src/Broker/Store/Cases.antt =====
-- How a save ends: the registry takes the new content in memory and in the file, or neither.
use corv_client.Prelude.{
  ◌≡◌, refl, true, false, ◌⊎◌, inl, inr, ◌∷◌, Bytes, Option, none, some, ℕ, Option-cases,
}
use corv_client.Prelude.Assoc.{Assoc, put}
use corv_client.Broker.Errors.{Failure}
use corv_client.Broker.Job.{JobRecord, new_job_record}
use corv_client.Broker.State.{
  World, Broker, saved_registry, save_failed, ◌>>=◌, pure, gets, ask, job_of,
}
use corv_client.Broker.Store.{first_error, settle, commit, is_current, save_persisted_job}

pub record IsSaved (next : Assoc JobRecord) (s : Broker) (r : Option Failure) (t : Broker)
    : Type 0 where
  pub result : r ≡ none
  pub jobs : t.jobs ≡ next
  pub jobs_file : t.jobs_file ≡ next
  pub job_at : t.job_at ≡ s.job_at
  pub logs : t.logs ≡ s.logs
  pub events : t.events ≡ saved_registry next ∷ s.events

pub record IsUnsaved (s : Broker) (r : Option Failure) (t : Broker) : Type 0 where
  pub result : (f : Failure) × (r ≡ some f)
  pub jobs : t.jobs ≡ s.jobs
  pub jobs_file : t.jobs_file ≡ s.jobs_file
  pub job_at : t.job_at ≡ s.job_at
  pub logs : t.logs ≡ s.logs
  pub events : t.events ≡ save_failed ∷ s.events

module _ ⦃w : World⦄ where
  pub commit-cases :
      (next : Assoc JobRecord) (s : Broker)
      → IsSaved next s (commit next s).0 (commit next s).1
        ⊎ IsUnsaved s (commit next s).0 (commit next s).1
  unfolding commit settle ask ◌>>=◌ pure
  commit-cases next s =
      elim (Option-cases (first_error (w.paths_error s.tick) (w.save_error s.tick))) [
        | inl e ↦ inl (
            rw e (record {
              result = refl;
              jobs = refl;
              jobs_file = refl;
              job_at = refl;
              logs = refl;
              events = refl;
            }))
        | inr (f, e) ↦ inr (
            rw e (record {
              result = (f, refl);
              jobs = refl;
              jobs_file = refl;
              job_at = refl;
              logs = refl;
              events = refl;
            }))
      ]

  pub save-current :
      (profile : Bytes) (a : ℕ) (s : Broker)
      → is_current profile a s ≡ true
      → save_persisted_job profile a s
        ≡ commit
            (put
              (new_job_record w.digest profile (s.job_at a)).key
              (new_job_record w.digest profile (s.job_at a))
              s.jobs)
            s
  unfolding save_persisted_job ◌>>=◌ gets job_of
  save-current profile a s e = rw e refl

  pub save-other :
      (profile : Bytes) (a : ℕ) (s : Broker)
      → is_current profile a s ≡ false
      → save_persisted_job profile a s ≡ (none, s)
  unfolding save_persisted_job ◌>>=◌ gets job_of pure
  save-other profile a s e = rw e refl
