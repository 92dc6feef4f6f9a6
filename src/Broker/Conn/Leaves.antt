-- ===== src/Broker/Conn/Leaves.antt =====
-- Running a remote command leaves the jobs and the registry alone.
use corv_client.Prelude.{
  ◌≡◌, refl, ◌∙◌, Bool, true, false, List, [], Bytes, Option, none, some, if◌then◌else◌, ℕ,
}
use corv_client.Prelude.Result.{Result, ok, err}
use corv_client.Broker.Errors.{Failure}
use corv_client.Broker.State.{
  World, Broker, Entry, Event, Snapshot, RawResult, M, ◌>>=◌, pure, gets, ask, entry_of,
  modify_entry,
}
use corv_client.Broker.Store.{now}
use corv_client.Broker.Conn.{
  exec_raw, hang_up, dial_snapshot, sweep, use_conn, keep_dialled, held_or_dialled, conn_for,
  reset_conn, run_again, retry, run_first, run_raw_stdin, run_raw,
}

pub record Leaves {A : Type 0} (m : M A) : Type 0 where
  pub job_at : (s : Broker) → (m s).1.job_at ≡ s.job_at
  pub jobs : (s : Broker) → (m s).1.jobs ≡ s.jobs
  pub jobs_file : (s : Broker) → (m s).1.jobs_file ≡ s.jobs_file
  pub logs : (s : Broker) → (m s).1.logs ≡ s.logs

module _ {A : Type 0} where
  Leaves-pure : (a : A) → Leaves (pure a)
  unfolding pure
  Leaves-pure a = record {
    job_at = λ s. refl;
    jobs = λ s. refl;
    jobs_file = λ s. refl;
    logs = λ s. refl;
  }

  Leaves-gets : (f : Broker → A) → Leaves (gets f)
  unfolding gets
  Leaves-gets f = record {
    job_at = λ s. refl;
    jobs = λ s. refl;
    jobs_file = λ s. refl;
    logs = λ s. refl;
  }

  Leaves-ask :
      (delay : ℕ → ℕ) (answer : ℕ → A) (note : A → List Event) → Leaves (ask delay answer note)
  unfolding ask
  Leaves-ask delay answer note = record {
    job_at = λ s. refl;
    jobs = λ s. refl;
    jobs_file = λ s. refl;
    logs = λ s. refl;
  }

  Leaves-if : (b : Bool) (m n : M A) → Leaves m → Leaves n → Leaves (if b then m else n)
  Leaves-if true m n km kn = km
  Leaves-if false m n km kn = kn

module _ {A B : Type 0} where
  Leaves-bind : (m : M A) (f : A → M B) → Leaves m → ((a : A) → Leaves (f a)) → Leaves (m >>= f)
  unfolding ◌>>=◌
  Leaves-bind m f km kf = record {
    job_at = λ s. (kf (m s).0).job_at (m s).1 ∙ km.job_at s;
    jobs = λ s. (kf (m s).0).jobs (m s).1 ∙ km.jobs s;
    jobs_file = λ s. (kf (m s).0).jobs_file (m s).1 ∙ km.jobs_file s;
    logs = λ s. (kf (m s).0).logs (m s).1 ∙ km.logs s;
  }

Leaves-entry_of : (e : ℕ) → Leaves (entry_of e)
unfolding entry_of
Leaves-entry_of e = Leaves-gets (λ s. s.entry_at e)

Leaves-modify_entry : (e : ℕ) (f : Entry → Entry) → Leaves (modify_entry e f)
unfolding modify_entry
Leaves-modify_entry e f = record {
  job_at = λ s. refl;
  jobs = λ s. refl;
  jobs_file = λ s. refl;
  logs = λ s. refl;
}

ruleset leaves_rules = (
  Leaves-pure, Leaves-gets, Leaves-ask, Leaves-if, Leaves-bind, Leaves-entry_of,
  Leaves-modify_entry,
)

module _ ⦃w : World⦄ where
  Leaves-now : Leaves now
  unfolding now
  Leaves-now = search leaves_rules

  Leaves-exec_raw : (conn : ℕ) (cmd stdin : Bytes) (max : ℕ) → Leaves (exec_raw conn cmd stdin max)
  unfolding exec_raw
  Leaves-exec_raw conn cmd stdin max = search leaves_rules

  Leaves-hang_up : (c : Option ℕ) → Leaves (hang_up c)
  unfolding hang_up
  Leaves-hang_up none = search leaves_rules
  Leaves-hang_up (some c) = search leaves_rules

  Leaves-dial_snapshot : (s : Snapshot) → Leaves (dial_snapshot s)
  unfolding dial_snapshot
  Leaves-dial_snapshot s = search leaves_rules

  Leaves-sweep : (b : Bool) (conn : ℕ) → Leaves (sweep b conn)
  unfolding sweep
  Leaves-sweep false conn = search leaves_rules
  Leaves-sweep true conn = search (leaves_rules, Leaves-now, Leaves-exec_raw)

  Leaves-use_conn : (e conn : ℕ) → Leaves (use_conn e conn)
  unfolding use_conn
  Leaves-use_conn e conn = search (leaves_rules, Leaves-now, Leaves-sweep)

  Leaves-keep_dialled :
      (e : ℕ) (fingerprint target : Bytes) (r : Result Failure ℕ)
      → Leaves (keep_dialled e fingerprint target r)
  unfolding keep_dialled
  Leaves-keep_dialled e fingerprint target (err f) = search leaves_rules
  Leaves-keep_dialled e fingerprint target (ok conn) =
      search (leaves_rules, Leaves-hang_up, Leaves-use_conn)

  Leaves-held_or_dialled :
      (e : ℕ) (fingerprint : Bytes) (n : Entry) (c : Option ℕ)
      → Leaves (held_or_dialled e fingerprint n c)
  unfolding held_or_dialled
  Leaves-held_or_dialled e fingerprint n none =
      search (leaves_rules, Leaves-dial_snapshot, Leaves-keep_dialled)
  Leaves-held_or_dialled e fingerprint n (some conn) = Leaves-use_conn e conn

  Leaves-conn_for : (e : ℕ) (fingerprint : Bytes) → Leaves (conn_for e fingerprint)
  unfolding conn_for
  Leaves-conn_for e fingerprint = search (leaves_rules, Leaves-held_or_dialled)

  Leaves-reset_conn : (e : ℕ) → Leaves (reset_conn e)
  unfolding reset_conn
  Leaves-reset_conn e = search (leaves_rules, Leaves-hang_up)

  Leaves-run_again :
      (cmd stdin : Bytes) (max : ℕ) (r : Result Failure ℕ) → Leaves (run_again cmd stdin max r)
  unfolding run_again
  Leaves-run_again cmd stdin max (err f) = search leaves_rules
  Leaves-run_again cmd stdin max (ok conn) = search (leaves_rules, Leaves-exec_raw)

  Leaves-retry :
      (e : ℕ) (fingerprint cmd stdin : Bytes) (max : ℕ) (r : RawResult)
      → Leaves (retry e fingerprint cmd stdin max r)
  unfolding retry
  Leaves-retry e fingerprint cmd stdin max r =
      search (leaves_rules, Leaves-reset_conn, Leaves-conn_for, Leaves-run_again)

  Leaves-run_first :
      (e : ℕ) (fingerprint cmd stdin : Bytes) (max : ℕ) (r : Result Failure ℕ)
      → Leaves (run_first e fingerprint cmd stdin max r)
  unfolding run_first
  Leaves-run_first e fingerprint cmd stdin max (err f) = search leaves_rules
  Leaves-run_first e fingerprint cmd stdin max (ok conn) =
      search (leaves_rules, Leaves-exec_raw, Leaves-retry)

  pub Leaves-run_raw_stdin :
      (e : ℕ) (cmd stdin : Bytes) (max : ℕ) → Leaves (run_raw_stdin e cmd stdin max)
  unfolding run_raw_stdin
  Leaves-run_raw_stdin e cmd stdin max = search (leaves_rules, Leaves-conn_for, Leaves-run_first)

  pub Leaves-run_raw : (e : ℕ) (cmd : Bytes) (max : ℕ) → Leaves (run_raw e cmd max)
  unfolding run_raw
  Leaves-run_raw e cmd max = Leaves-run_raw_stdin e cmd [] max
