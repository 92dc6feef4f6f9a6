-- ===== src/Broker/State.antt =====
-- internal/broker/server.go: the server, its entries and jobs, and what it asks of the outside. A
-- handler is an action on the whole state: each of its locked sections runs without another
-- between. Pointers to entries and jobs are addresses in two heaps.
use corv_client.Prelude.{
  ℕ, ◌+◌, Bool, true, false, ◌&&◌, List, [], ◌++◌, Bytes, Option, none, some, ◌==◌, if◌then◌else◌,
}
use corv_client.Prelude.Assoc.{Assoc, lookup, delete, put}
use corv_client.Prelude.Result.{Result}
use corv_client.Prelude.Int.{ℤ}
use corv_client.Output.Patterns.{Patterns}
use corv_client.Broker.Errors.{ErrorKind, no_error, Failure}
use corv_client.Broker.Job.{Job, JobRecord, Digest}

-- `sshconn.RawResult`, the fields that the broker reads
pub record RawResult : Type 0 where
  pub exit_code : ℕ
  pub stdout : Bytes
  pub stderr : Bytes
  pub kind : ErrorKind
  pub started : Bool

-- `RawResult.OK`
abbrev pub is_no_error : ErrorKind → Bool
is_no_error no_error = true
is_no_error _ = false

unfoldable pub succeeded : RawResult → Bool
succeeded r = is_no_error r.kind && r.exit_code == 0

-- `connectionSnapshot`; the secrets and the jump hosts, which only dialling reads, are in `login`.
pub record Snapshot : Type 0 where
  pub name : Bytes  -- profile.Name
  pub target : Bytes  -- profile.Target
  pub login : Bytes
  pub fingerprint : Bytes
  pub legacy_fingerprint : Bytes

-- `entry`; a connection is the number that dialling gave it. `dialing` is only ever seen by another
-- request in the middle of a dial.
pub record Entry : Type 0 where
  pub conn : Option ℕ
  pub target : Bytes
  pub fingerprint : Bytes
  pub snapshot : Option Snapshot
  pub closed : Bool
  pub last_used : ℕ
  pub jobs : Assoc ℕ
  pub swept : Bool

-- `runMetadata`
pub record RunMetadata : Type 0 where
  pub exit_code : ℕ
  pub ok : Bool
  pub connection : Bytes
  pub started_at : Option ℕ
  pub finished_at : Option ℕ
  pub duration_ms : ℕ
  pub truncated : Bool
  pub lossy : Bool
  pub original_bytes : ℕ
  pub saved_bytes : ℕ

-- What the broker does to the outside.
pub data Event : Type 0 where
  dialled : Bytes → Event
  ran : ℕ → Bytes → Bytes → Bool → Event  -- connection, command, input, whether it may have started
  hung_up : ℕ → Event
  saved_registry : Assoc JobRecord → Event
  save_failed : Event

-- `server` with the files it owns: jobs.json, and the logs and their metadata in the runs directory,
-- where an error is what `json.Unmarshal` makes of the metadata. `events` has the newest first.
pub record Broker : Type 0 where
  pub entries : Assoc ℕ
  pub entry_at : ℕ → Entry
  pub entry_next : ℕ
  pub job_at : ℕ → Job
  pub job_next : ℕ
  pub jobs : Assoc JobRecord
  pub jobs_file : Assoc JobRecord
  pub logs : Assoc Bytes
  pub metas : Assoc (Result Failure RunMetadata)
  pub events : List Event
  pub clock : ℕ
  pub tick : ℕ

-- The outside: what the `n`th question is answered. Time goes by between two questions, at least a
-- nanosecond.
pub record World : Type 0 where
  pub delay : ℕ → ℕ
  pub random : ℕ → Bytes  -- crypto/rand
  pub paths_error : ℕ → Option Failure  -- paths.Default
  pub save_error : ℕ → Option Failure  -- writing jobs.json
  pub write_error : ℕ → Option Failure  -- writing a run's file
  pub read_error : ℕ → Option Failure  -- reading a run's file that is there
  pub load_snapshot : ℕ → Bytes → Result Failure (Option Snapshot)  -- the profile store and the vault
  pub dial : ℕ → Snapshot → Result Failure ℕ  -- sshconn.Dial
  pub exec : ℕ → ℕ → Bytes → Bytes → ℕ → RawResult  -- ExecRawStdin
  pub digest : Digest
  pub patterns : Patterns
  pub compile : Bytes → Option (Bytes → Bool)  -- regexp.Compile
  pub parse_duration : Bytes → Option ℤ
  pub wait_variable : Bytes  -- CORV_WAIT of the broker

abbrev pub M : Type 0 → Type 0
M A = Broker → A × Broker

infixl 5 ◌>>=◌ ◌>>◌
unfoldable pub ◌>>=◌ : {A B : Type 0} → M A → (A → M B) → M B
(m >>= f) s = f (m s).0 (m s).1

abbrev pub ◌>>◌ : {A B : Type 0} → M A → M B → M B
m >> k = m >>= λ _. k

unfoldable pub pure : {A : Type 0} → A → M A
pure a s = (a, s)

unfoldable pub gets : {A : Type 0} → (Broker → A) → M A
gets f s = (f s, s)

-- A question to the outside, and what is noted of it.
unfoldable pub ask : {A : Type 0} → (ℕ → ℕ) → (ℕ → A) → (A → List Event) → M A
ask delay answer note s = (
  answer s.tick,
  record s {
    events = note (answer s.tick) ++ s.events;
    clock = s.clock + 1 + delay s.tick;
    tick = s.tick + 1;
  },
)

abbrev pub quiet : {A : Type 0} → A → List Event
quiet a = []

-- The heaps.
unfoldable pub update : {A : Type 0} → (ℕ → A) → ℕ → A → ℕ → A
update heap a x b = if a == b then x else heap b

unfoldable pub job_of : ℕ → M Job
job_of a = gets (λ s. s.job_at a)

unfoldable pub modify_job : ℕ → (Job → Job) → M (Unit {0})
modify_job a f s = (tt, record s { job_at = update s.job_at a (f (s.job_at a)) })

unfoldable pub entry_of : ℕ → M Entry
entry_of a = gets (λ s. s.entry_at a)

unfoldable pub modify_entry : ℕ → (Entry → Entry) → M (Unit {0})
modify_entry a f s = (tt, record s { entry_at = update s.entry_at a (f (s.entry_at a)) })

-- `e.jobs[key] = &j`: a new job in the heap and in the entry's map.
unfoldable pub add_job : ℕ → Bytes → Job → M ℕ
add_job e key j s = (
  s.job_next,
  record s {
    entry_at =
        update s.entry_at e
          (record (s.entry_at e) { jobs = put key s.job_next (s.entry_at e).jobs });
    job_at = update s.job_at s.job_next j;
    job_next = s.job_next + 1;
  },
)

-- `delete(e.jobs, key)`
unfoldable pub drop_job : ℕ → Bytes → M (Unit {0})
drop_job e key = modify_entry e (λ n. record n { jobs = delete key n.jobs })

abbrev pub fresh_entry : Entry
fresh_entry = record {
  conn = none;
  target = [];
  fingerprint = [];
  snapshot = none;
  closed = false;
  last_used = 0;
  jobs = [];
  swept = false;
}

-- `entryFor`
unfoldable pub entry_for : Bytes → M ℕ
entry_for name s = elim (lookup name s.entries) [
  | some a ↦ (a, s)
  | none ↦ (
    s.entry_next,
    record s {
      entries = put name s.entry_next s.entries;
      entry_at = update s.entry_at s.entry_next fresh_entry;
      entry_next = s.entry_next + 1;
    },
  )
]
