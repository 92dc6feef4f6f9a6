-- ===== src/Broker/Run/Order.antt =====
-- internal/broker/jobs.go: what `ensureJobStarted` does to the outside, and in which order.
use corv_client.Prelude.{
  ◌≡◌, refl, sym, subst, ap, ◌∙◌, true, false, ◌⊎◌, inl, inr, List, ◌∷◌, ◌++◌, Bytes, Option, ℕ,
  is_empty, Bool-cases, ==-self,
}
use corv_client.Prelude.Assoc.{Assoc, lookup}
use corv_client.Broker.Errors.{Failure}
use corv_client.Broker.Job.{Job, JobRecord}
use corv_client.Broker.State.{
  World, Broker, Event, saved_registry, save_failed, ◌>>=◌, pure, gets, ask, job_of, modify_job,
  update,
}
use corv_client.Broker.Keeps.{IsSound, Keeps-modify_job}
use corv_client.Broker.Store.{now, is_current}
use corv_client.Broker.Store.Sound.{Keeps-now, Keeps-save_persisted_job}
use corv_client.Broker.Store.Cases.{IsSaved, IsUnsaved, commit-cases, save-current}
use corv_client.Broker.Run.{StartOutcome, start_failed, start_saved, start_job, ensure_job_started}
use corv_client.Broker.Run.Sound.{Keeps-start_saved}
use corv_client.Broker.Run.Start.{
  HasRecord, IsRecorded, HasRecord-put, is_current_in-same, begun, has_failed,
  ensure_job_started-IsRecorded,
}

-- The save failed, nothing else was done to the outside, and the start is reported as failed.
pub record IsRefused (s : Broker) (r : StartOutcome × Broker) : Type 0 where
  pub events : r.1.events ≡ save_failed ∷ s.events
  pub result : (f : Failure) × (r.0 ≡ start_failed f)

-- The first thing done to the outside is the save of a registry with the run of `j`; whatever else is
-- done comes `later`.
pub record IsAnnounced (j : Job) (s : Broker) (r : StartOutcome × Broker) : Type 0 where
  pub registry : Assoc JobRecord
  pub recorded : HasRecord j registry
  pub later : List Event
  pub events : r.1.events ≡ later ++ saved_registry registry ∷ s.events

module _ ⦃w : World⦄ where
  -- What follows the save, by how the save ended.
  start_saved-cases :
      (e : ℕ) (profile : Bytes) (j : Job) (a : ℕ) (next : Assoc JobRecord) (s0 s : Broker)
      (x : Option Failure) (t : Broker)
      → IsSound t
      → s.events ≡ s0.events
      → HasRecord j next
      → IsSaved next s x t ⊎ IsUnsaved s x t
      → IsRefused s0 (start_saved e profile a x t) ⊎ IsAnnounced j s0 (start_saved e profile a x t)
  unfolding start_saved ◌>>=◌ pure modify_job
  start_saved-cases e profile j a next s0 s x t h same recorded (inl y) =
      let (later, since) = ((Keeps-start_saved e profile a x).since t h).events in
      inr (record {
        registry = next;
        recorded = recorded;
        later = later;
        events = since ∙ ap (λ l. later ++ l) (y.events ∙ ap (λ l. saved_registry next ∷ l) same);
      })
  start_saved-cases e profile j a next s0 s x t h same recorded (inr n) = inl (
      rw n.result.1
        (record { events = n.events ∙ ap (λ l. save_failed ∷ l) same; result = (_, refl) }))

  begun-IsSound : (s : Broker) (a : ℕ) → IsSound s → IsSound (begun s a)
  begun-IsSound s a h = (Keeps-modify_job a _ (λ j. refl)).at (now s).1 (Keeps-now.at s h)

  start_job-cases :
      (e : ℕ) (profile : Bytes) (a : ℕ) (s : Broker)
      → IsSound s
      → is_empty (s.job_at a).key ≡ false
      → is_current profile a s ≡ true
      → IsRefused s (start_job e profile a s) ⊎ IsAnnounced (s.job_at a) s (start_job e profile a s)
  unfolding start_job ◌>>=◌ modify_job now ask gets update is_current
  start_job-cases e profile a s h key current =
      let same_slot =
        is_current_in-same profile a s (begun s a) (lookup profile s.entries) refl
          (rw (==-self a) refl) in
      start_saved-cases e profile (s.job_at a) a _ s (begun s a) _ _
        ((Keeps-save_persisted_job profile a).at (begun s a) (begun-IsSound s a h)) refl
        (HasRecord-put w.digest profile (s.job_at a) ((begun s a).job_at a) s.jobs
          (rw (==-self a) refl) key (rw (==-self a) (inl refl)))
        (rw (save-current profile a (begun s a) (same_slot ∙ current)) (commit-cases _ (begun s a)))

  -- How a start goes: it is refused, as the run could not be recorded; or it is announced, and then
  -- the start is reported as failed, or the run is still recorded.
  abbrev pub IsOrdered : Job → Broker → StartOutcome × Broker → Type 0
  IsOrdered j s r =
      IsRefused s r ⊎ (IsAnnounced j s r × ((has_failed r.0 ≡ true) ⊎ IsRecorded j r.1))

  start_job-started :
      (e : ℕ) (profile : Bytes) (a : ℕ) (s : Broker)
      → (s.job_at a).started ≡ false
      → ensure_job_started e profile a s ≡ start_job e profile a s
  unfolding ensure_job_started ◌>>=◌ job_of gets
  start_job-started e profile a s fresh = rw fresh refl

  -- In a sound state, a job that the broker holds for the profile is started only once its run is
  -- recorded. Of all that `ensureJobStarted` does to the outside (a dial, a command on a connection, the
  -- end of a connection, a save of jobs.json), the first thing is the save of a registry that has a
  -- record under the job's key with the run's id, the job's hashes and its fingerprint, as a run that is
  -- starting or running. If that save fails, then nothing else is done, and the start is reported as
  -- failed. If it does not, then the start is reported as failed later, or jobs.json still has such a
  -- record at the end: this covers the start whose outcome is uncertain, and saves that fail later.
  pub ensure_job_started-IsOrdered :
      (e : ℕ) (profile : Bytes) (a : ℕ) (s : Broker)
      → IsSound s
      → (s.job_at a).started ≡ false
      → is_empty (s.job_at a).key ≡ false
      → is_current profile a s ≡ true
      → IsOrdered (s.job_at a) s (ensure_job_started e profile a s)
  ensure_job_started-IsOrdered e profile a s h fresh key current =
      let r = ensure_job_started e profile a s in
      let same = start_job-started e profile a s fresh in
      elim (start_job-cases e profile a s h key current) [
        | inl refused ↦ inl (subst (IsRefused s) (sym same) refused)
        | inr announced ↦ inr (
          subst (IsAnnounced (s.job_at a) s) (sym same) announced,
          elim (Bool-cases (has_failed r.0)) [
            | inl bad ↦ inl bad
            | inr good ↦ inr (ensure_job_started-IsRecorded e profile a s fresh key current good)
          ],
        )
      ]
