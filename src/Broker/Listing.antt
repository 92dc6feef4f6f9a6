-- ===== src/Broker/Listing.antt =====
-- internal/broker/server.go and run_output.go: the lists of connections and of runs.
pub mod Sound
use corv_client.Prelude.{
  ℕ, zero, suc, ◌+◌, ◌-◌, ◌*◌, ◌/◌, Bool, true, false, not, ◌&&◌, ◌||◌, List, [], ◌∷◌, ◌++◌, map,
  Bytes, codes, Option, none, some, ltb, ◌==◌, if◌then◌else◌, bytes_eq, is_empty,
}
use corv_client.Prelude.Assoc.{Assoc, lookup, put}
use corv_client.Prelude.Result.{Result, ok, err}
use corv_client.Go.Sort.{text_less, sort}
use corv_client.Broker.Errors.{Failure}
use corv_client.Broker.Ids.{valid_run_id}
use corv_client.Broker.Job.{
  Status, starting, running, done, expired, unknown, Job, JobRecord, of_unix, of_nano,
}
use corv_client.Broker.State.{
  World, Broker, Entry, RunMetadata, M, ◌>>=◌, ◌>>◌, pure, gets, ask, quiet,
}
use corv_client.Broker.Store.{now, status_eq, job_ttl, prune_expired_keyed_jobs}
use corv_client.Broker.Reply.{HeldInfo, StatusInfo, RunInfo}
use corv_client.Broker.Watch.{millisecond}
use corv_client.Broker.Output.{ReadRun, read_run, no_file, unreadable, read_answer}

-- The jobs of an entry that are not finished
unfoldable pub running_jobs : (ℕ → Job) → Assoc ℕ → ℕ
running_jobs job_at [] = 0
running_jobs job_at ((k, a) ∷ m) =
    let n = running_jobs job_at m in if (job_at a).is_done then n else suc n

abbrev add_status : Broker → Bytes → Entry → Option ℕ → List StatusInfo → List StatusInfo
add_status s name e none rest = rest
add_status s name e (some conn) rest =
    record {
      name = name;
      target = e.target;
      idle_ms = (s.clock - e.last_used) / millisecond;
      running_jobs = running_jobs s.job_at e.jobs;
    }
    ∷ rest

unfoldable pub statuses : Broker → Assoc ℕ → List StatusInfo
statuses s [] = []
statuses s ((name, a) ∷ m) = add_status s name (s.entry_at a) (s.entry_at a).conn (statuses s m)

-- `status`
unfoldable pub status_of : Broker → List StatusInfo
status_of s = sort (λ a b. text_less a.name b.name) (statuses s s.entries)

-- `list`
unfoldable pub held_of : Broker → List HeldInfo
held_of s =
    map (λ i. record { name = i.name; target = i.target; idle_ms = i.idle_ms }) (status_of s)

-- `hasRunningJobs`
unfoldable pub has_running_jobs : Broker → Assoc ℕ → Bool
has_running_jobs s [] = false
has_running_jobs s ((name, a) ∷ m) =
    not (running_jobs s.job_at (s.entry_at a).jobs == 0) || has_running_jobs s m

-- `time.Unix(n, 0)` of a record's start, `none` for the zero time
abbrev record_start : JobRecord → Option ℕ
record_start r = of_unix 0 r.started_at

abbrev or_zero : Option ℕ → ℕ
or_zero none = 0
or_zero (some t) = t

unfoldable pub observed_at : JobRecord → ℕ
observed_at r = if r.last_seen_at == 0 then or_zero (record_start r) else r.last_seen_at

unfoldable pub seems_running : ℕ → JobRecord → Bool
seems_running time r =
    (status_eq r.status starting || status_eq r.status running)
    && not (ltb (observed_at r) (time - job_ttl))

-- The status in the list: a run that was not seen for a day is unknown.
unfoldable pub listed_status : ℕ → JobRecord → Status
listed_status time r =
    if (status_eq r.status starting || status_eq r.status running)
      && ltb (observed_at r) (time - job_ttl)
    then unknown
    else r.status

abbrev is_known : Status → Bool
is_known x = not (status_eq x unknown) && not (status_eq x expired)

-- The loop over the registry in `listRuns`
unfoldable pub record_info : ℕ → JobRecord → RunInfo
record_info time r =
    let status = listed_status time r in
    record {
      run_id = r.run_id;
      connection = r.profile;
      status = status;
      running = seems_running time r;
      exit_code =
          if seems_running time r
          then some 75
          else if is_known status
          then some r.exit_code
          else none;
      started_at = record_start r;
      finished_at = if is_known status then of_nano r.finished_at else none;
      truncated = false;
    }

unfoldable pub record_infos : ℕ → Assoc JobRecord → Assoc RunInfo → Assoc RunInfo
record_infos time [] runs = runs
record_infos time ((k, r) ∷ m) runs = record_infos time m (put r.run_id (record_info time r) runs)

abbrev has_times : Option ℕ → Option ℕ → Bool
has_times (some a) (some b) = true
has_times a b = false

-- A run's metadata in the list, unless it is not valid
unfoldable pub add_meta :
    Bytes → ReadRun (Result Failure RunMetadata) → Assoc RunInfo → Assoc RunInfo
add_meta id (read_run (ok m)) runs =
    if is_empty m.connection || not (has_times m.started_at m.finished_at)
    then runs
    else put id
        (record {
          run_id = id;
          connection = m.connection;
          status = done;
          running = false;
          exit_code = some m.exit_code;
          started_at = m.started_at;
          finished_at = m.finished_at;
          truncated = m.truncated;
        })
        runs
add_meta id r runs = runs

-- The order of the list: the latest start first, then the run id.
unfoldable pub listed_before : RunInfo → RunInfo → Bool
listed_before a b =
    if or_zero a.started_at == or_zero b.started_at
    then text_less a.run_id b.run_id
    else ltb (or_zero b.started_at) (or_zero a.started_at)

unfoldable pub values : {A : Type 0} → Assoc A → List A
values [] = []
values ((k, v) ∷ m) = v ∷ values m

module _ ⦃w : World⦄ where
  -- The loop over the metadata files
  unfoldable pub meta_infos : Assoc (Result Failure RunMetadata) → Assoc RunInfo → M (Assoc RunInfo)
  meta_infos [] runs = pure runs
  meta_infos ((id, m) ∷ ms) runs =
      if valid_run_id id
      then (do
        e ← ask w.delay w.read_error quiet
        meta_infos ms (add_meta id (read_answer e (some m)) runs))
      else meta_infos ms runs

  unfoldable pub list_metas :
      Assoc RunInfo → Option Failure → Option Failure → M (Result Failure (List RunInfo))
  list_metas runs (some f) d = pure (err f)
  list_metas runs none (some f) =
      pure (err (record f { text = codes "read retained runs: " ++ f.text }))
  list_metas runs none none = do
    metas ← gets (λ s. s.metas)
    rs ← meta_infos metas runs
    pure (ok (sort listed_before (values rs)))

  -- `listRuns`
  unfoldable pub list_runs : M (Result Failure (List RunInfo))
  list_runs = do
    t ← now
    prune_expired_keyed_jobs t
    jobs ← gets (λ s. s.jobs)
    p ← ask w.delay w.paths_error quiet
    d ← ask w.delay w.read_error quiet
    list_metas (record_infos t jobs []) p d
