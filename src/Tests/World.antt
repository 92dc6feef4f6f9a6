-- ===== src/Tests/World.antt =====
-- A world and a broker to try the theorems on: a host that starts every job, and a broker that holds one
-- job of the profile `web`.
use corv_client.Prelude.{
  ◌==◌, ℕ, zero, suc, ◌*◌, Bool, true, false, [], ◌∷◌, ◌++◌, Bytes, codes, none, some,
}
use corv_client.Prelude.Assoc.{Assoc}
use corv_client.Prelude.Result.{ok}
use corv_client.Output.Patterns.{Patterns}
use corv_client.Broker.Errors.{no_error}
use corv_client.Broker.Wait.{second}
use corv_client.Broker.Job.{Job, Digest, pending}
use corv_client.Broker.Reply.{Request, op_exec}
use corv_client.Broker.Run.{Claim}
use corv_client.Broker.State.{World, Broker, Entry, Snapshot, RawResult, fresh_entry}

-- Lines with an `E` in front are signals.
abbrev starts_with_e : Bytes → Bool
starts_with_e (c ∷ s) = c == b'E'
starts_with_e [] = false

abbrev pub test_patterns : Patterns
test_patterns = record {
  signal = starts_with_e;
  false_positive = λ s. false;
  heading = λ s. false;
  clauses = λ s. s ∷ [];
}

abbrev pub test_digest : Digest
test_digest = record { sum = λ s. s }

abbrev pub web_snapshot : Snapshot
web_snapshot = record {
  name = codes "web";
  target = codes "web.example";
  login = [];
  fingerprint = codes "f1";
  legacy_fingerprint = codes "f0";
}

abbrev pub started_answer : RawResult
started_answer = record {
  exit_code = 0;
  stdout = codes "CORV_STARTED";
  stderr = [];
  kind = no_error;
  started = true;
}

instance abbrev pub test_world : World
test_world = record {
  delay = λ n. 5;
  random = λ n. 1 ∷ (2 ∷ (3 ∷ (4 ∷ (5 ∷ (6 ∷ (7 ∷ (8 ∷ [])))))));
  paths_error = λ n. none;
  save_error = λ n. none;
  write_error = λ n. none;
  read_error = λ n. none;
  load_snapshot = λ n name. ok (some web_snapshot);
  dial = λ n s. ok n;
  exec = λ n conn cmd stdin max. started_answer;
  digest = test_digest;
  patterns = test_patterns;
  compile = λ s. none;
  parse_duration = λ s. none;
  wait_variable = [];
}

-- A keyed job that was not started yet.
abbrev pub make_job : Job
make_job = record {
  id = codes "0000000000000010-0102030405060708";
  key = codes "k";
  command = codes "make";
  command_hash = codes "make";
  run_key_hash = codes "nightly";
  fingerprint = codes "f1";
  fingerprint_version = 1;
  offset = 0;
  started = false;
  started_at = none;
  last_seen_at = none;
  finished_at = none;
  duration_ms = 0;
  is_done = false;
  exit_code = 0;
  start_err = none;
  status = pending;
}

abbrev pub make_claim : Claim
make_claim = record {
  key = codes "k";
  command = codes "make";
  command_hash = codes "make";
  run_key_hash = codes "nightly";
  fingerprint = codes "f1";
  keyed = true;
}

abbrev pub web_entry : Entry
web_entry = record fresh_entry {
  fingerprint = codes "f1";
  snapshot = some web_snapshot;
  jobs = (codes "k", 0) ∷ [];
}

abbrev pub entries_of : Entry → ℕ → Entry
entries_of e zero = e
entries_of e (suc n) = fresh_entry

-- A broker with these entries and jobs and an empty registry.
abbrev pub broker_of : Assoc ℕ → Entry → Job → Broker
broker_of entries e j = record {
  entries = entries;
  entry_at = entries_of e;
  entry_next = 1;
  job_at = λ a. j;
  job_next = 1;
  jobs = [];
  jobs_file = [];
  logs = [];
  metas = [];
  events = [];
  clock = 1700000000 * second;
  tick = 0;
}

abbrev pub empty_broker : Broker
empty_broker = broker_of [] fresh_entry make_job

abbrev pub web_broker : Broker
web_broker = broker_of ((codes "web", 0) ∷ []) web_entry make_job

abbrev pub make_request : Request
make_request = record {
  op = op_exec;
  name = codes "web";
  command = codes "make" ∷ [];
  run_id = [];
  pattern = [];
  run_key = codes "nightly";
  wait = codes "5";
}

-- A host that answers everything with a log of two bytes.
abbrev pub log_answer : RawResult
log_answer = record {
  exit_code = 0;
  stdout = codes "CORV_LOG_V1 2 2 0" ++ 10 ∷ codes "ab";
  stderr = [];
  kind = no_error;
  started = true;
}

abbrev pub log_world : World
log_world = record test_world { exec = λ n conn cmd stdin max. log_answer }
