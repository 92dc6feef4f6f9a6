-- ===== src/Broker/Conn/Sound.antt =====
-- The connections' operations keep the broker sound.
use corv_client.Prelude.{arith, refl, Bool, true, false, [], ◌∷◌, Bytes, Option, none, some, ℕ}
use corv_client.Prelude.Assoc.{Assoc}
use corv_client.Prelude.Result.{Result, ok, err}
use corv_client.Broker.Errors.{Failure}
use corv_client.Broker.State.{World, Entry, Snapshot, RawResult}
use corv_client.Broker.Keeps.{Keeps, Keeps-bind, keeps_rules}
use corv_client.Broker.Store.Sound.{store_rules}
use corv_client.Broker.Conn.{
  exec_raw, hang_up, dial_snapshot, sweep, use_conn, keep_dialled, held_or_dialled, conn_for,
  reset_conn, run_again, retry, run_first, run_raw_stdin, run_raw, prepare_entry, close_entry,
  close_found, close_all_of, remove_entry, close_one, remove_entries, close_all,
}

module _ ⦃w : World⦄ where
  pub Keeps-exec_raw :
      (conn : ℕ) (cmd stdin : Bytes) (max : ℕ) → Keeps (exec_raw conn cmd stdin max)
  unfolding exec_raw
  Keeps-exec_raw conn cmd stdin max = search keeps_rules

  pub Keeps-hang_up : (c : Option ℕ) → Keeps (hang_up c)
  unfolding hang_up
  Keeps-hang_up none = search keeps_rules
  Keeps-hang_up (some c) = search keeps_rules

  pub Keeps-dial_snapshot : (s : Snapshot) → Keeps (dial_snapshot s)
  unfolding dial_snapshot
  Keeps-dial_snapshot s = search keeps_rules

  pub Keeps-sweep : (b : Bool) (conn : ℕ) → Keeps (sweep b conn)
  unfolding sweep
  Keeps-sweep false conn = search keeps_rules
  Keeps-sweep true conn = search (keeps_rules, store_rules, Keeps-exec_raw)

  pub Keeps-use_conn : (e conn : ℕ) → Keeps (use_conn e conn)
  unfolding use_conn
  Keeps-use_conn e conn = search (keeps_rules, store_rules, Keeps-sweep)

  pub Keeps-keep_dialled :
      (e : ℕ) (fingerprint target : Bytes) (r : Result Failure ℕ)
      → Keeps (keep_dialled e fingerprint target r)
  unfolding keep_dialled
  Keeps-keep_dialled e fingerprint target (err f) = search keeps_rules
  Keeps-keep_dialled e fingerprint target (ok conn) =
      search (keeps_rules, Keeps-hang_up, Keeps-use_conn)

  Keeps-held_or_dialled :
      (e : ℕ) (fingerprint : Bytes) (n : Entry) (c : Option ℕ)
      → Keeps (held_or_dialled e fingerprint n c)
  unfolding held_or_dialled
  Keeps-held_or_dialled e fingerprint n none =
      search (keeps_rules, Keeps-dial_snapshot, Keeps-keep_dialled)
  Keeps-held_or_dialled e fingerprint n (some conn) = Keeps-use_conn e conn

  pub Keeps-conn_for : (e : ℕ) (fingerprint : Bytes) → Keeps (conn_for e fingerprint)
  unfolding conn_for
  Keeps-conn_for e fingerprint = search (keeps_rules, Keeps-held_or_dialled)

  pub Keeps-reset_conn : (e : ℕ) → Keeps (reset_conn e)
  unfolding reset_conn
  Keeps-reset_conn e = search (keeps_rules, Keeps-hang_up)

  Keeps-run_again :
      (cmd stdin : Bytes) (max : ℕ) (r : Result Failure ℕ) → Keeps (run_again cmd stdin max r)
  unfolding run_again
  Keeps-run_again cmd stdin max (err f) = search keeps_rules
  Keeps-run_again cmd stdin max (ok conn) = search (keeps_rules, Keeps-exec_raw)

  Keeps-retry :
      (e : ℕ) (fingerprint cmd stdin : Bytes) (max : ℕ) (r : RawResult)
      → Keeps (retry e fingerprint cmd stdin max r)
  unfolding retry
  Keeps-retry e fingerprint cmd stdin max r =
      search (keeps_rules, Keeps-reset_conn, Keeps-conn_for, Keeps-run_again)

  Keeps-run_first :
      (e : ℕ) (fingerprint cmd stdin : Bytes) (max : ℕ) (r : Result Failure ℕ)
      → Keeps (run_first e fingerprint cmd stdin max r)
  unfolding run_first
  Keeps-run_first e fingerprint cmd stdin max (err f) = search keeps_rules
  Keeps-run_first e fingerprint cmd stdin max (ok conn) =
      search (keeps_rules, Keeps-exec_raw, Keeps-retry)

  pub Keeps-run_raw_stdin :
      (e : ℕ) (cmd stdin : Bytes) (max : ℕ) → Keeps (run_raw_stdin e cmd stdin max)
  unfolding run_raw_stdin
  Keeps-run_raw_stdin e cmd stdin max = search (keeps_rules, Keeps-conn_for, Keeps-run_first)

  pub Keeps-run_raw : (e : ℕ) (cmd : Bytes) (max : ℕ) → Keeps (run_raw e cmd max)
  unfolding run_raw
  Keeps-run_raw e cmd max = Keeps-run_raw_stdin e cmd [] max

  pub Keeps-prepare_entry : (e : ℕ) (s : Snapshot) → Keeps (prepare_entry e s)
  unfolding prepare_entry
  Keeps-prepare_entry e s = search (keeps_rules, store_rules, Keeps-hang_up) depth 9

  Keeps-close_entry : (e : ℕ) → Keeps (close_entry e)
  unfolding close_entry
  Keeps-close_entry e = search (keeps_rules, Keeps-hang_up)

  Keeps-close_found : (e : Option ℕ) → Keeps (close_found e)
  unfolding close_found
  Keeps-close_found none = search keeps_rules
  Keeps-close_found (some e) = Keeps-close_entry e

  Keeps-close_all_of : (es : Assoc ℕ) → Keeps (close_all_of es)
  unfolding close_all_of
  Keeps-close_all_of [] = search keeps_rules
  Keeps-close_all_of ((name, e) ∷ es) =
      Keeps-bind _ _ (Keeps-close_entry e) λ _. Keeps-close_all_of es

  Keeps-remove_entry : (name : Bytes) → Keeps (remove_entry name)
  unfolding remove_entry
  Keeps-remove_entry name = record {
    at = λ s h. record { synced = h.synced; unique = h.unique; keyed = h.keyed; slots = h.slots };
    since = λ s h. record {
      events = ([], refl);
      clock = omega arith;
      job_next = omega arith;
      jobs = λ b less. refl;
    };
  }

  Keeps-remove_entries : Keeps remove_entries
  unfolding remove_entries
  Keeps-remove_entries = record {
    at = λ s h. record { synced = h.synced; unique = h.unique; keyed = h.keyed; slots = h.slots };
    since = λ s h. record {
      events = ([], refl);
      clock = omega arith;
      job_next = omega arith;
      jobs = λ b less. refl;
    };
  }

  pub Keeps-close_one : (name : Bytes) → Keeps (close_one name)
  unfolding close_one
  Keeps-close_one name = search (keeps_rules, Keeps-remove_entry, Keeps-close_found)

  pub Keeps-close_all : Keeps close_all
  unfolding close_all
  Keeps-close_all = search (keeps_rules, Keeps-remove_entries, Keeps-close_all_of)

pub ruleset conn_rules = (
  Keeps-hang_up, Keeps-conn_for, Keeps-reset_conn, Keeps-run_raw_stdin, Keeps-run_raw,
  Keeps-prepare_entry,
)
