-- ===== src/Broker/Watch/Sound.antt =====
-- Watching a run keeps the broker sound.
use corv_client.Prelude.{◌≡◌, refl, Bool, Bytes, Option, none, some, ℕ, zero, suc}
use corv_client.Prelude.Result.{Result, ok, err}
use corv_client.Broker.Errors.{Failure}
use corv_client.Broker.Exit.{RemoteExit}
use corv_client.Broker.Job.{Job}
use corv_client.Broker.State.{World, M}
use corv_client.Broker.Keeps.{identity, Keeps, Keeps-if, Keeps-bind, keeps_rules}
use corv_client.Broker.Store.Sound.{store_rules}
use corv_client.Broker.Reply.{Response}
use corv_client.Broker.Remote.{remote_rules}
use corv_client.Broker.Run.Sound.{run_rules}
use corv_client.Broker.RunLog.Sound.{Keeps-finalize_run_log}
use corv_client.Broker.Watch.{
  JobPoll, refused_poll, polled, note_exit, note_poll, lose_run, poll_missing, poll_delta,
  poll_state, poll_job, finish_done, finish_saved, finish_job_poll, sleep, ended, rest, after_poll,
  watch_rounds, watch_job,
}

note_exit-identity :
    (t : ℕ) (x : RemoteExit) (j : Job) (o : Option ℕ)
    → o ≡ j.finished_at
    → identity (note_exit t x j) ≡ identity j
unfolding note_exit
note_exit-identity t x j none e = rw (← e) refl
note_exit-identity t x j (some n) e = rw (← e) refl

note_poll-identity :
    (t n : ℕ) (x : Option RemoteExit) (j : Job) → identity (note_poll t n x j) ≡ identity j
unfolding note_poll
note_poll-identity t n none j = refl
note_poll-identity t n (some x) j = note_exit-identity t x _ j.finished_at refl

module _ ⦃w : World⦄ where
  Keeps-lose_run : (profile : Bytes) (a : ℕ) (id : Bytes) → Keeps (lose_run profile a id)
  unfolding lose_run
  Keeps-lose_run profile a id = search (keeps_rules, store_rules)

  Keeps-poll_missing : (e : ℕ) (profile : Bytes) (a : ℕ) → Keeps (poll_missing e profile a)
  unfolding poll_missing
  Keeps-poll_missing e profile a = search (keeps_rules, run_rules, Keeps-lose_run) depth 8

  Keeps-poll_delta : (e : ℕ) (id : Bytes) (r : Result Response Bytes) → Keeps (poll_delta e id r)
  unfolding poll_delta
  Keeps-poll_delta e id (err r) = search keeps_rules
  Keeps-poll_delta e id (ok d) = search (keeps_rules, remote_rules)

  Keeps-poll_state :
      (e : ℕ) (profile : Bytes) (a : ℕ) (j : Job) (n m : ℕ) (r : Result Response Bytes)
      → Keeps (poll_state e profile a j n m r)
  unfolding poll_state
  Keeps-poll_state e profile a j n m (err r) = search keeps_rules
  Keeps-poll_state e profile a j n m (ok d) =
      search (keeps_rules, remote_rules, Keeps-poll_missing, Keeps-poll_delta)

  pub Keeps-poll_job : (e : ℕ) (profile : Bytes) (a n m : ℕ) → Keeps (poll_job e profile a n m)
  unfolding poll_job
  Keeps-poll_job e profile a n m = search (keeps_rules, remote_rules, Keeps-poll_state)

  Keeps-finish_done :
      (e : ℕ) (profile : Bytes) (a : ℕ) (j : Job) → Keeps (finish_done e profile a j)
  unfolding finish_done
  Keeps-finish_done e profile a j = search (keeps_rules, Keeps-finalize_run_log)

  Keeps-finish_saved :
      (e : ℕ) (profile : Bytes) (a : ℕ) (d : Bytes) (j : Job) (x : Option Failure)
      → Keeps (finish_saved e profile a d j x)
  unfolding finish_saved
  Keeps-finish_saved e profile a d j none = search (keeps_rules, store_rules, Keeps-finish_done)
  Keeps-finish_saved e profile a d j (some f) = search (keeps_rules, store_rules)

  pub Keeps-finish_job_poll :
      (e : ℕ) (profile : Bytes) (a : ℕ) (x : Option RemoteExit) (d : Bytes) (n : ℕ)
      → Keeps (finish_job_poll e profile a x d n)
  unfolding finish_job_poll
  Keeps-finish_job_poll e profile a x d n =
      search (keeps_rules, store_rules, Keeps-finish_saved, note_poll-identity) depth 8

  pub Keeps-sleep : (d : ℕ) → Keeps (sleep d)
  unfolding sleep
  Keeps-sleep d = search keeps_rules

  Keeps-ended : (m : M (Response × Bool)) → Keeps m → Keeps (ended m)
  unfolding ended
  Keeps-ended m h = search keeps_rules

  Keeps-rest : (m : M (Option (Response × Bool))) (d : ℕ) → Keeps m → Keeps (rest m d)
  unfolding rest
  Keeps-rest m d h = search (keeps_rules, store_rules, Keeps-sleep)

  Keeps-after_poll :
      (again : Bytes → ℕ → M (Option (Response × Bool))) (e : ℕ) (profile : Bytes) (a deadline : ℕ)
      (d : Bytes) (n : ℕ) (p : JobPoll)
      → ((x : Bytes) (m : ℕ) → Keeps (again x m))
      → Keeps (after_poll again e profile a deadline d n p)
  unfolding after_poll
  Keeps-after_poll again e profile a deadline d n (refused_poll r) h = search keeps_rules
  Keeps-after_poll again e profile a deadline d n (polled y x) h =
      search (keeps_rules, store_rules, Keeps-ended, Keeps-finish_job_poll, Keeps-rest, h) depth 8

  pub Keeps-watch_rounds :
      (fuel e : ℕ) (profile : Bytes) (a deadline : ℕ) (d : Bytes) (n : ℕ)
      → Keeps (watch_rounds fuel e profile a deadline d n)
  unfolding watch_rounds
  Keeps-watch_rounds zero e profile a deadline d n = search keeps_rules
  Keeps-watch_rounds (suc fuel) e profile a deadline d n =
      Keeps-if _ _ _ (Keeps-ended _ (Keeps-finish_job_poll e profile a none d n)) (
        Keeps-bind _ _ (Keeps-poll_job e profile a n _) λ p.
          Keeps-after_poll _ e profile a deadline d n p
            (Keeps-watch_rounds fuel e profile a deadline))

  pub Keeps-watch_job : (e : ℕ) (profile : Bytes) (a wait : ℕ) → Keeps (watch_job e profile a wait)
  unfolding watch_job
  Keeps-watch_job e profile a wait = search (keeps_rules, store_rules, Keeps-watch_rounds)
