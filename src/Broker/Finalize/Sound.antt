-- ===== src/Broker/Finalize/Sound.antt =====
-- Finishing a run on a request for its output keeps the broker sound.
use corv_client.Prelude.{◌≡◌, refl, Bytes, Option, none, some, ℕ}
use corv_client.Prelude.Result.{Result, ok, err}
use corv_client.Broker.Errors.{Failure}
use corv_client.Broker.Exit.{RemoteExit, ExitError}
use corv_client.Broker.Frame.{RunState, remote_running, remote_done, remote_missing, JobProgress}
use corv_client.Broker.Job.{Job, JobRecord, record_to_job}
use corv_client.Broker.State.{World, Snapshot}
use corv_client.Broker.Keeps.{identity, Keeps, keeps_rules}
use corv_client.Broker.Store.Sound.{store_rules}
use corv_client.Broker.Conn.Sound.{conn_rules}
use corv_client.Broker.Reply.{Response}
use corv_client.Broker.Remote.{remote_rules}
use corv_client.Broker.Run.Sound.{run_rules}
use corv_client.Broker.RunLog.Sound.{Keeps-finalize_run_log}
use corv_client.Broker.Finalize.{
  note_output_exit, migrate_loaded, load_connection_snapshot, rebuild_job, job_of_slot,
  observe_running, observe_missing, leave_job, finalize_noted, note_end, note_rc, observe_state,
  observe, finalize_with, finalize_loaded, finalize_record, finalize_output,
}

note_output_exit-identity :
    (t : ℕ) (x : RemoteExit) (j : Job) → identity (note_output_exit t x j) ≡ identity j
unfolding note_output_exit
note_output_exit-identity t x j = refl

rebuilt-key :
    (t : ℕ) (f : Bytes) (r : JobRecord)
    → (record (record_to_job t r) { fingerprint = f }).key ≡ r.key
unfolding record_to_job
rebuilt-key t f r = refl

module _ ⦃w : World⦄ where
  Keeps-migrate_loaded :
      (name : Bytes) (r : Result Failure (Option Snapshot)) → Keeps (migrate_loaded name r)
  unfolding migrate_loaded
  Keeps-migrate_loaded name (err f) = search keeps_rules
  Keeps-migrate_loaded name (ok none) = search keeps_rules
  Keeps-migrate_loaded name (ok (some n)) = search (keeps_rules, store_rules)

  pub Keeps-load_connection_snapshot : (name : Bytes) → Keeps (load_connection_snapshot name)
  unfolding load_connection_snapshot
  Keeps-load_connection_snapshot name = search (keeps_rules, Keeps-migrate_loaded)

  Keeps-rebuild_job : (e : ℕ) (f : Bytes) (r : JobRecord) → Keeps (rebuild_job e f r)
  unfolding rebuild_job
  Keeps-rebuild_job e f r = search (keeps_rules, store_rules, rebuilt-key)

  Keeps-job_of_slot :
      (e : ℕ) (f : Bytes) (r : JobRecord) (o : Option ℕ) → Keeps (job_of_slot e f r o)
  unfolding job_of_slot
  Keeps-job_of_slot e f r none = Keeps-rebuild_job e f r
  Keeps-job_of_slot e f r (some a) = search (keeps_rules, Keeps-rebuild_job)

  Keeps-observe_running :
      (profile : Bytes) (a : ℕ) (id pattern : Bytes) (r : JobRecord) (p : JobProgress)
      → Keeps (observe_running profile a id pattern r p)
  unfolding observe_running
  Keeps-observe_running profile a id pattern r p = search (keeps_rules, store_rules) depth 9

  Keeps-observe_missing :
      (e : ℕ) (profile : Bytes) (a : ℕ) (id : Bytes) → Keeps (observe_missing e profile a id)
  unfolding observe_missing
  Keeps-observe_missing e profile a id = search (keeps_rules, run_rules) depth 8

  Keeps-leave_job :
      (e : ℕ) (profile : Bytes) (a : ℕ) (r : JobRecord) (o : Option Response)
      → Keeps (leave_job e profile a r o)
  unfolding leave_job
  Keeps-leave_job e profile a r none = search (keeps_rules, run_rules)
  Keeps-leave_job e profile a r (some x) = search keeps_rules

  Keeps-finalize_noted :
      (e : ℕ) (profile : Bytes) (a : ℕ) (r : JobRecord) (x : RemoteExit) (o : Option Failure)
      → Keeps (finalize_noted e profile a r x o)
  unfolding finalize_noted
  Keeps-finalize_noted e profile a r x none =
      search (keeps_rules, Keeps-finalize_run_log, Keeps-leave_job)
  Keeps-finalize_noted e profile a r x (some f) = search keeps_rules

  Keeps-note_end :
      (e : ℕ) (profile : Bytes) (a : ℕ) (r : JobRecord) (x : Result ExitError RemoteExit)
      → Keeps (note_end e profile a r x)
  unfolding note_end
  Keeps-note_end e profile a r (err x) = search keeps_rules
  Keeps-note_end e profile a r (ok x) =
      search (keeps_rules, store_rules, note_output_exit-identity, Keeps-finalize_noted) depth 8

  Keeps-note_rc :
      (e : ℕ) (profile : Bytes) (a : ℕ) (r : JobRecord) (x : Result Response Bytes)
      → Keeps (note_rc e profile a r x)
  unfolding note_rc
  Keeps-note_rc e profile a r (err x) = search keeps_rules
  Keeps-note_rc e profile a r (ok x) = search (Keeps-note_end)

  Keeps-observe_state :
      (x : RunState) (e : ℕ) (profile : Bytes) (a : ℕ) (pattern : Bytes) (r : JobRecord)
      (p : JobProgress)
      → Keeps (observe_state x e profile a pattern r p)
  unfolding observe_state
  Keeps-observe_state remote_running e profile a pattern r p = search (Keeps-observe_running)
  Keeps-observe_state remote_missing e profile a pattern r p = search (Keeps-observe_missing)
  Keeps-observe_state remote_done e profile a pattern r p =
      search (keeps_rules, remote_rules, Keeps-note_rc)

  Keeps-observe :
      (e : ℕ) (profile : Bytes) (a : ℕ) (pattern : Bytes) (r : JobRecord)
      (x : Result Response JobProgress)
      → Keeps (observe e profile a pattern r x)
  unfolding observe
  Keeps-observe e profile a pattern r (err x) = search keeps_rules
  Keeps-observe e profile a pattern r (ok p) = Keeps-observe_state p.state e profile a pattern r p

  Keeps-finalize_with :
      (pattern : Bytes) (r : JobRecord) (n : Snapshot) → Keeps (finalize_with pattern r n)
  unfolding finalize_with
  Keeps-finalize_with pattern r n =
      search (keeps_rules, conn_rules, remote_rules, Keeps-job_of_slot, Keeps-observe) depth 16

  Keeps-finalize_loaded :
      (pattern : Bytes) (r : JobRecord) (x : Result Failure (Option Snapshot))
      → Keeps (finalize_loaded pattern r x)
  unfolding finalize_loaded
  Keeps-finalize_loaded pattern r (err f) = search keeps_rules
  Keeps-finalize_loaded pattern r (ok none) = search keeps_rules
  Keeps-finalize_loaded pattern r (ok (some n)) =
      search (keeps_rules, store_rules, Keeps-finalize_with)

  Keeps-finalize_record :
      (id pattern : Bytes) (o : Option JobRecord) → Keeps (finalize_record id pattern o)
  unfolding finalize_record
  Keeps-finalize_record id pattern none = search keeps_rules
  Keeps-finalize_record id pattern (some r) =
      search (keeps_rules, Keeps-load_connection_snapshot, Keeps-finalize_loaded)

  pub Keeps-finalize_output : (id pattern : Bytes) → Keeps (finalize_output id pattern)
  unfolding finalize_output
  Keeps-finalize_output id pattern = search (keeps_rules, store_rules, Keeps-finalize_record)
