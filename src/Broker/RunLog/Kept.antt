-- ===== src/Broker/RunLog/Kept.antt =====
-- internal/broker/run_output.go: `finalizeRunLog`, and the log file of a run that was finished.
use corv_client.Prelude.{
  ◌≡◌, refl, sym, ap, ◌∙◌, Bool, true, false, Bytes, Option, none, some, if◌then◌else◌, ℕ,
  Bool-cases, inl, inr,
}
use mathlib.Core.Option.{none-ne-some}
use mathlib.Core.Bool.{true≢false}
use Prim.{absurd}
use corv_client.Prelude.Assoc.{lookup, lookup-put_self}
use corv_client.Prelude.Result.{Result, ok, err}
use corv_client.Broker.Errors.{Failure}
use corv_client.Broker.Frame.{RetainedLog, FrameError, parse_retained_log}
use corv_client.Broker.State.{
  World, Broker, RawResult, RunMetadata, succeeded, M, ◌>>=◌, pure, job_of, gets, modify_job,
}
use corv_client.Broker.Store.{is_current, save_persisted_job}
use corv_client.Broker.Store.Cases.{commit-cases, save-current, save-other}
use corv_client.Broker.Conn.Leaves.{Leaves-run_raw}
use corv_client.Broker.Conn.{max_delta_bytes}
use corv_client.Broker.Commands.{cleanup_job_command}
use corv_client.Broker.RunLog.{
  LogError, Copied, Finalized, put_log, unless_failed, finish_log, saved_or_not, save_run_log,
  save_frame, save_fetched, copy_remote_log, cleanup_remote_job, finish_run, finalize_copied,
  finalize_run_log,
}

some-ne-none : {A : Type 0} (a : A) → ¬ (some a ≡ none)
some-ne-none a e = none-ne-some a (sym e)

-- A save that reports no error has put the log in its place.
record Saves (id bytes : Bytes) (m : M (Option Failure)) : Type 0 where
  pub saves : (s : Broker) → (m s).0 ≡ none → lookup id (m s).1.logs ≡ some bytes

Saves-finish_log : (id bytes : Bytes) (e : Option Failure) → Saves id bytes (finish_log id bytes e)
unfolding finish_log put_log ◌>>=◌ pure
Saves-finish_log id bytes none = record { saves = λ s good. lookup-put_self id bytes s.logs }
Saves-finish_log id bytes (some f) = record { saves = λ s good. absurd (some-ne-none f good) }

Saves-unless_failed :
    (id bytes : Bytes) (e : Option Failure) (m : M (Option Failure))
    → Saves id bytes m
    → Saves id bytes (unless_failed e m)
unfolding unless_failed pure
Saves-unless_failed id bytes none m h = h
Saves-unless_failed id bytes (some f) m h = record {
  saves = λ s good. absurd (some-ne-none f good);
}

Saves-bind :
    {A : Type 0} (id bytes : Bytes) (m : M A) (f : A → M (Option Failure))
    → ((a : A) → Saves id bytes (f a))
    → Saves id bytes (m >>= f)
unfolding ◌>>=◌
Saves-bind id bytes m f h = record { saves = λ s good. (h (m s).0).saves (m s).1 good }

-- A copy that reports neither an error nor a missing log is in its place.
record Copies (id : Bytes) (m : M Copied) : Type 0 where
  pub copies :
      (s : Broker)
      → (m s).0.failure ≡ none
      → (m s).0.log.missing ≡ false
      → lookup id (m s).1.logs ≡ some (m s).0.log.bytes

-- What `m` returns at `s` without a refusal is a log in its place.
record Ends (id : Bytes) (s : Broker) (m : M Finalized) : Type 0 where
  pub ends : (m s).0.refusal ≡ none → lookup id (m s).1.logs ≡ some (m s).0.log.bytes

Ends-if :
    (id : Bytes) (s : Broker) (b : Bool) (m n : M Finalized)
    → (b ≡ true → Ends id s m)
    → (b ≡ false → Ends id s n)
    → Ends id s (if b then m else n)
Ends-if id s true m n h k = h refl
Ends-if id s false m n h k = k refl

module _ ⦃w : World⦄ where
  Saves-save_run_log :
      (id bytes : Bytes) (metadata : RunMetadata) → Saves id bytes (save_run_log id bytes metadata)
  unfolding save_run_log
  Saves-save_run_log id bytes metadata =
      search (Saves-bind, Saves-unless_failed, Saves-finish_log) depth 12

  Copies-saved :
      (id : Bytes) (log : RetainedLog) (lossy : Bool) (metadata : RunMetadata)
      → Copies id (save_run_log id log.bytes metadata >>= λ x. pure (saved_or_not log lossy x))
  unfolding ◌>>=◌ pure saved_or_not
  Copies-saved id log lossy metadata = record {
    copies = λ s.
        after (save_run_log id log.bytes metadata s).0 (save_run_log id log.bytes metadata s).1
          ((Saves-save_run_log id log.bytes metadata).saves s);
  }
    where
      after :
          (x : Option Failure) (t : Broker)
          → (x ≡ none → lookup id t.logs ≡ some log.bytes)
          → (saved_or_not log lossy x).failure ≡ none
          → (saved_or_not log lossy x).log.missing ≡ false
          → lookup id t.logs ≡ some (saved_or_not log lossy x).log.bytes
      after none t h good there = h refl
      after (some f) t h good there = absurd (some-ne-none _ good)

  Copies-failed : (id : Bytes) (c : Copied) (x : LogError) → c.failure ≡ some x → Copies id (pure c)
  unfolding pure
  Copies-failed id c x bad = record {
    copies = λ s good there. absurd (some-ne-none x (sym bad ∙ good));
  }

  Copies-gone : (id : Bytes) (c : Copied) → c.log.missing ≡ true → Copies id (pure c)
  unfolding pure
  Copies-gone id c gone = record { copies = λ s good there. absurd (true≢false (sym gone ∙ there)) }

  Copies-if :
      (id : Bytes) (b : Bool) (m n : M Copied)
      → (b ≡ true → Copies id m)
      → (b ≡ false → Copies id n)
      → Copies id (if b then m else n)
  Copies-if id true m n h k = h refl
  Copies-if id false m n h k = k refl

  Copies-save_frame :
      (id : Bytes) (metadata : RunMetadata) (r : Result FrameError RetainedLog)
      → Copies id (save_frame id metadata r)
  unfolding save_frame
  Copies-save_frame id metadata (err x) = Copies-failed id _ _ refl
  Copies-save_frame id metadata (ok log) =
      Copies-if id log.missing _ _ (λ gone. Copies-gone id _ gone)
        (λ there. Copies-saved id log _ _)

  Copies-save_fetched :
      (id : Bytes) (metadata : RunMetadata) (r : Result Failure RawResult)
      → Copies id (save_fetched id metadata r)
  unfolding save_fetched
  Copies-save_fetched id metadata (err x) = Copies-failed id _ _ refl
  Copies-save_fetched id metadata (ok r) =
      Copies-if id (succeeded r) _ _
        (λ good. Copies-save_frame id metadata (parse_retained_log r.stdout))
        (λ bad. Copies-failed id _ _ refl)

  save-logs :
      (profile : Bytes) (a : ℕ) (s : Broker) → (save_persisted_job profile a s).1.logs ≡ s.logs
  save-logs profile a s = elim (Bool-cases (is_current profile a s)) [
    | inr e ↦ ap (λ p. p.1.logs) (save-other profile a s e)
    | inl e ↦
        ap (λ p. p.1.logs) (save-current profile a s e)
        ∙ elim (commit-cases _ s) [ inl y ↦ y.logs | inr n ↦ n.logs ]
  ]

  -- The end of a run, after a copy that is in its place.
  after_finish :
      (e a : ℕ) (id : Bytes) (c : Copied) (x : Option Failure) (s : Broker)
      → lookup id s.logs ≡ some c.log.bytes
      → (finish_run e a id c x s).0.refusal ≡ none
      → lookup id (finish_run e a id c x s).1.logs ≡ some (finish_run e a id c x s).0.log.bytes
  unfolding finish_run cleanup_remote_job ◌>>=◌ pure
  after_finish e a id c none s h good =
      ap (lookup id) ((Leaves-run_raw e (cleanup_job_command id) max_delta_bytes).logs s) ∙ h
  after_finish e a id c (some f) s h bad = absurd (some-ne-none _ bad)

  Ends-copied :
      (e : ℕ) (profile : Bytes) (a : ℕ) (id : Bytes) (code : ℕ) (c : Copied) (x : Option LogError)
      (s : Broker)
      → (x ≡ none → c.log.missing ≡ false → lookup id s.logs ≡ some c.log.bytes)
      → Ends id s (finalize_copied e profile a id code c x)
  unfolding finalize_copied ◌>>=◌ pure modify_job
  Ends-copied e profile a id code c (some x) s h = record {
    ends = λ bad. absurd (some-ne-none _ bad);
  }
  Ends-copied e profile a id code c none s h =
      Ends-if id s c.log.missing _ _ (λ gone. record { ends = λ bad. absurd (some-ne-none _ bad) })
        λ there. record {
          ends = after_finish e a id c _ _ (ap (lookup id) (save-logs profile a _) ∙ h refl there);
        }

  -- Where finishing a run ends without a refusal, whatever the outside answers, the run's local log
  -- file holds the log that the response is made of.
  pub finalize_run_log-saved :
      (e : ℕ) (profile : Bytes) (a : ℕ) (m : RunMetadata) (s : Broker)
      → (finalize_run_log e profile a m s).0.refusal ≡ none
      → lookup (s.job_at a).id (finalize_run_log e profile a m s).1.logs
        ≡ some (finalize_run_log e profile a m s).0.log.bytes
  unfolding finalize_run_log copy_remote_log ◌>>=◌ job_of gets
  finalize_run_log-saved e profile a m s good =
      (Ends-copied e profile a (s.job_at a).id m.exit_code _ _ _
          ((Copies-save_fetched (s.job_at a).id m _).copies _)).ends
        good
