-- ===== src/Broker/RunLog/Sound.antt =====
-- Finishing a run keeps the broker sound.
use corv_client.Prelude.{refl, arith, [], Bytes, Option, none, some, ℕ}
use corv_client.Prelude.Result.{Result, ok, err}
use corv_client.Broker.Errors.{Failure}
use corv_client.Broker.Frame.{RetainedLog, FrameError}
use corv_client.Broker.State.{World, RawResult, RunMetadata, M}
use corv_client.Broker.Keeps.{Keeps, keeps_rules}
use corv_client.Broker.Store.Sound.{store_rules}
use corv_client.Broker.Conn.Sound.{conn_rules}
use corv_client.Broker.RunLog.{
  LogError, Copied, put_meta, delete_meta, put_log, unless_failed, finish_log, save_run_log,
  save_frame, save_fetched, copy_remote_log, cleanup_remote_job, finish_run, finalize_copied,
  finalize_run_log,
}

Keeps-put_meta : (id : Bytes) (m : Result Failure RunMetadata) → Keeps (put_meta id m)
unfolding put_meta
Keeps-put_meta id m = record {
  at = λ s h. record { synced = h.synced; unique = h.unique; keyed = h.keyed; slots = h.slots };
  since = λ s h. record {
    events = ([], refl);
    clock = omega arith;
    job_next = omega arith;
    jobs = λ b less. refl;
  };
}

Keeps-delete_meta : (id : Bytes) → Keeps (delete_meta id)
unfolding delete_meta
Keeps-delete_meta id = record {
  at = λ s h. record { synced = h.synced; unique = h.unique; keyed = h.keyed; slots = h.slots };
  since = λ s h. record {
    events = ([], refl);
    clock = omega arith;
    job_next = omega arith;
    jobs = λ b less. refl;
  };
}

Keeps-put_log : (id bytes : Bytes) → Keeps (put_log id bytes)
unfolding put_log
Keeps-put_log id bytes = record {
  at = λ s h. record { synced = h.synced; unique = h.unique; keyed = h.keyed; slots = h.slots };
  since = λ s h. record {
    events = ([], refl);
    clock = omega arith;
    job_next = omega arith;
    jobs = λ b less. refl;
  };
}

Keeps-unless_failed :
    (e : Option Failure) (m : M (Option Failure)) → Keeps m → Keeps (unless_failed e m)
unfolding unless_failed
Keeps-unless_failed none m h = h
Keeps-unless_failed (some e) m h = search keeps_rules

Keeps-finish_log : (id bytes : Bytes) (e : Option Failure) → Keeps (finish_log id bytes e)
unfolding finish_log
Keeps-finish_log id bytes none = search (keeps_rules, Keeps-put_log)
Keeps-finish_log id bytes (some e) = search (keeps_rules, Keeps-delete_meta)

module _ ⦃w : World⦄ where
  Keeps-save_run_log :
      (id bytes : Bytes) (metadata : RunMetadata) → Keeps (save_run_log id bytes metadata)
  unfolding save_run_log
  Keeps-save_run_log id bytes metadata =
      search (keeps_rules, Keeps-unless_failed, Keeps-put_meta, Keeps-finish_log) depth 14

  Keeps-save_frame :
      (id : Bytes) (metadata : RunMetadata) (r : Result FrameError RetainedLog)
      → Keeps (save_frame id metadata r)
  unfolding save_frame
  Keeps-save_frame id metadata (err x) = search keeps_rules
  Keeps-save_frame id metadata (ok log) = search (keeps_rules, Keeps-save_run_log) depth 8

  Keeps-save_fetched :
      (id : Bytes) (metadata : RunMetadata) (r : Result Failure RawResult)
      → Keeps (save_fetched id metadata r)
  unfolding save_fetched
  Keeps-save_fetched id metadata (err x) = search keeps_rules
  Keeps-save_fetched id metadata (ok r) = search (keeps_rules, Keeps-save_frame)

  Keeps-copy_remote_log :
      (e : ℕ) (id : Bytes) (metadata : RunMetadata) → Keeps (copy_remote_log e id metadata)
  unfolding copy_remote_log
  Keeps-copy_remote_log e id metadata = search (keeps_rules, conn_rules, Keeps-save_fetched)

  Keeps-cleanup_remote_job : (e : ℕ) (id : Bytes) → Keeps (cleanup_remote_job e id)
  unfolding cleanup_remote_job
  Keeps-cleanup_remote_job e id = search (keeps_rules, conn_rules)

  Keeps-finish_run :
      (e a : ℕ) (id : Bytes) (c : Copied) (x : Option Failure) → Keeps (finish_run e a id c x)
  unfolding finish_run
  Keeps-finish_run e a id c none = search (keeps_rules, Keeps-cleanup_remote_job)
  Keeps-finish_run e a id c (some f) = search keeps_rules

  Keeps-finalize_copied :
      (e : ℕ) (profile : Bytes) (a : ℕ) (id : Bytes) (code : ℕ) (c : Copied) (x : Option LogError)
      → Keeps (finalize_copied e profile a id code c x)
  unfolding finalize_copied
  Keeps-finalize_copied e profile a id code c none =
      search (keeps_rules, store_rules, Keeps-finish_run) depth 8
  Keeps-finalize_copied e profile a id code c (some x) = search keeps_rules

  pub Keeps-finalize_run_log :
      (e : ℕ) (profile : Bytes) (a : ℕ) (m : RunMetadata) → Keeps (finalize_run_log e profile a m)
  unfolding finalize_run_log
  Keeps-finalize_run_log e profile a m =
      search (keeps_rules, Keeps-copy_remote_log, Keeps-finalize_copied)
