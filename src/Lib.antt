-- ===== src/Lib.antt =====
-- corv-client keeps SSH connections open and runs commands over them for command-line tools and agents.
-- A background process, the broker, holds the connections, starts each command as a detached remote
-- job, and keeps a registry of jobs on disk, so that a caller may go away and ask again. This library
-- models the broker (internal/broker), the filter that cleans and bounds a program's output
-- (internal/output), the command strings and jump chains of the transport (internal/sshconn), the saved
-- connections and their import (internal/profile, internal/importstate), the log of commands
-- (internal/audit), and the vault of passwords (internal/vault).
--
-- The parts, and how they stand for the code:
--   Prelude, Go        shared types and lemmas; what the code uses of Go's `strings`, `strconv` and
--                      `utf8`, on texts as lists of bytes; `sort.Slice` is an insertion sort.
--   Output.Filter      internal/output/filter.go. `Filter` is the struct, with the ring of last lines;
--                      `feed` takes one byte, `to_text` is `String`.
--   Output.Process     internal/output/process.go: `clean`, `bound`, `signals`.
--   Broker.Ids, Wait, Exit, Frame, Job
--                      internal/broker/jobs.go, run_protocol.go, run_output.go, job_store.go: ids, waits,
--                      exit records, log frames, jobs and their records.
--   Broker.State       internal/broker/server.go: `Broker` is the server with its files, its heaps of
--                      entries and jobs, a history of what was done to the outside, and a clock. A handler is
--                      an action `M A`. `World` answers what is asked of the outside: files, dialling, remote
--                      commands, random bytes, the profile store.
--   Broker.Store       job_registry.go: the registry in memory and in jobs.json, which is written first.
--   Broker.Conn        server.go: dialling, the retry, closing.
--   Broker.Commands, Remote
--                      run_protocol.go: the shell commands and the readers of their answers.
--   Broker.Run         server.go and jobs.go: `job_for_request`, `ensure_job_started` and the removal of jobs.
--   Broker.Watch, RunLog, Finalize, Output, Listing
--                      jobs.go and run_output.go: polling, finishing, reading and listing runs.
--   Broker.Exec        server.go: `exec` and the dispatch of `handle`.
--   Broker.Identity    server.go: `connectionSnapshotFor`, the bytes that identify a connection.
--   Ssh.Command        internal/sshconn/command.go; `Words` splits a command as a shell does, and Ssh.Shell
--                      says which bytes a shell takes as they are.
--   Ssh.Jump, Enrich   internal/sshconn/proxyjump.go and jump.go: a chain of jump hosts is parsed, and filled
--                      from the saved profiles.
--   Ssh.LimitBuffer    internal/sshconn/raw.go: `limitBuffer`.
--   Profile            internal/profile/profile.go: the registry, a map from names to profiles;
--                      `Store` keeps it in a sealed file.
--   Profile.Import     internal/profile/import.go: `Parser` is the parser with its blocks and the files that
--                      are open; `Match` resolves a host against the blocks, `Jump` its jump hosts, and
--                      `Config` reads the files and makes the profiles.
--   Profile.Csv        internal/profile/import_csv.go, from the rows of the table.
--   Profile.Apply      internal/importstate/apply.go: the merge of an import over the registry, the vault and
--                      the key files, with its backups. A write of the vault is that of its file and that of
--                      the key's marker.
--   Audit              internal/audit/audit.go: the entries and their lines; `Scan` goes through the file from
--                      its end in blocks, `Read` from its start, `Complete` appends the end of a run.
--   Vault              internal/vault/vault.go and key_file.go: `Store` is the store with its files; `Keys`
--                      chooses the key, `Items` has the methods.
--   Tests              the theorems at concrete inputs.
--
-- A request comes to `handle`. `exec` loads the connection, prepares its entry (Conn), finds or makes the
-- job (Run), starts it by a remote command (Conn, Commands), and watches it (Watch), which polls by
-- remote commands (Remote) and finishes the run (RunLog). Each of them saves the job's record (Store).
-- What is imported (Profile.Import, Profile.Csv) goes through the merge (Profile.Apply) to the registry,
-- from which the broker takes a connection with its jump hosts (Ssh.Jump, Ssh.Enrich, Broker.Identity).
--
-- Numbers are natural numbers; where the code's `int64` may wrap, the wrap is written out (Prelude.Int).
-- A time is a number of nanoseconds since the epoch, `none` for Go's zero time; the finish time that a
-- remote host reports is an integer, whose seconds wrap as `time.Unix` does. The clock does not go
-- back, and at least a nanosecond passes between two questions to the outside. Loops are recursions on
-- lists, but for the watch loop, which has 121 rounds: one for each second of the longest wait and one
-- more, and they are always enough; and for the files of an ssh_config, which include one another: more
-- fuel than there are files is enough. The scans of the log have a round for each byte of the file at
-- most.
--
-- Requests do not interleave in the model, as if each held the locks to its end; the locks and the
-- condition variable are not in it, and neither is the interleaving of the log's `Append` with its
-- readers. Not modelled: sockets, tokens and JSON, the processes and locks of the client, the SSH
-- library, the keychains, the command line and the terminal interface. Parameters are the regular
-- expressions, SHA-256, `regexp`, `time.ParseDuration`, JSON, the rows of `encoding/csv`, the answers of
-- the file system and of `path/filepath`, the lower case of letters outside ASCII, the sealer of the
-- profile store, the vault's digest for a fingerprint, and AES-GCM, HMAC and base64 for the vault itself.
-- That a log file cannot be opened or written is left out.
pub mod Prelude
pub mod Go
pub mod Output
pub mod Broker
pub mod Ssh
pub mod Profile
pub mod Audit
pub mod Vault
pub mod Tests
