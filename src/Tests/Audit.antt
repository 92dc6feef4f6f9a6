-- ===== src/Tests/Audit.antt =====
-- The theorems on the audit log, the import and the identity of connections at concrete inputs.
use corv_client.Prelude.{
  ℕ, ◌+◌, ◌≡◌, ◌≢◌, ◌≤◌, ◌<◌, refl, subst, true, false, [], ◌∷◌, ◌++◌, Bytes, codes, none, some,
  arith, List, All, Bool-cases, inl, inr, bytes_eq, if◌then◌else◌, length, take, drop, ltb, ◌==◌,
}
use corv_client.Prelude.Int.{pos}
use corv_client.Prelude.Assoc.{lookup, put}
use corv_client.Prelude.Result.{ok}
use corv_client.Go.Strings.{trim_space, split}
use corv_client.Audit.{Entry, Codec, decode_entry, truncate_field}
use corv_client.Audit.Scan.{ReadAt, scan_entries_reverse}
use corv_client.Audit.Read.{read_content}
use corv_client.Audit.Tail.{entries_of}
use corv_client.Audit.Agree.{last_of, read_content-agrees}
use corv_client.Audit.Complete.{Outcome, completed, complete, started_in, find_started}
use corv_client.Audit.Once.{IsReadable, stored, complete_once}
use corv_client.Profile.{Profile}
use corv_client.Profile.Csv.{Imported}
use corv_client.Profile.Apply.{rolled_back, Local, Outside, apply}
use corv_client.Profile.Apply.Rollback.{IsTransaction, apply-IsTransaction}
use corv_client.Ssh.Jump.{JumpHost, hop}
use corv_client.Ssh.LimitBuffer.{truncated, fresh, write_all, write_all-eq-take}
use corv_client.Broker.Identity.{Secret, profile_fields, hops_fields, itoa}
use corv_client.Broker.Identity.Injective.{IsWritable, IsSame, identity_bytes-injective}

write_all-eq-take_example :
    ((write_all (codes "abc" ∷ (codes "de" ∷ [])) (fresh (pos 4))).buf ≡ codes "abcd")
    × ((write_all (codes "abc" ∷ (codes "de" ∷ [])) (fresh (pos 4))).n ≡ 5)
    × (truncated (write_all (codes "abc" ∷ (codes "de" ∷ [])) (fresh (pos 4))) ≡ true)
write_all-eq-take_example = write_all-eq-take (pos 4) (codes "abc" ∷ (codes "de" ∷ []))

abbrev open_entry : Entry
open_entry = record {
  started_at = [];
  finished_at = [];
  profile = codes "web";
  target = codes "ann@web";
  command = codes "make";
  exit_code = pos 75;
  duration_ms = pos 0;
  error = [];
  run_id = codes "r1";
  status = codes "running";
}

abbrev test_outcome : Outcome
test_outcome = record {
  run_id = codes "r1";
  started_at = codes "10:00";
  finished_at = codes "10:01";
  exit_code = pos 0;
  duration_ms = pos 60000;
}

abbrev done_entry : Entry
done_entry = record open_entry {
  started_at = codes "10:00";
  finished_at = codes "10:01";
  exit_code = pos 0;
  duration_ms = pos 60000;
  status = codes "completed";
}

-- Two lines: `C` for a run that is done, `R` for one that runs.
instance abbrev test_codec : Codec
test_codec = record {
  marshal = λ e. if bytes_eq e.status (codes "completed") then codes "C" else codes "R";
  unmarshal = λ line.
      if bytes_eq line (codes "C")
      then some done_entry
      else if bytes_eq line (codes "R")
      then some open_entry
      else none;
}

abbrev test_reader : Bytes → ReadAt
test_reader content at n =
    if ltb (length content) (at + n) then none else some (take n (drop at content))

reader-reads :
    (c : Bytes) (at n : ℕ) → at + n ≤ length c → test_reader c at n ≡ some (take n (drop at c))
reader-reads c at n h = let e : ltb (length c) (at + n) ≡ false = ground arith in rw e refl

abbrev two_lines : Bytes
two_lines = codes "R" ++ 10 ∷ (codes "C" ++ 10 ∷ [])

lines_are_short : All (λ line. length line < 100) (split 10 two_lines)
unfolding split
lines_are_short = (omega arith, (omega arith, (omega arith, tt)))

read_content-agrees_example :
    (read_content 100 2 3 (test_reader two_lines) two_lines (codes "web") 0
      ≡ ok (entries_of (codes "web") (split 10 two_lines)))
    × (read_content 100 2 3 (test_reader two_lines) two_lines (codes "web") 1
        ≡ ok (last_of 1 (entries_of (codes "web") (split 10 two_lines))))
unfolding bytes_eq
read_content-agrees_example =
    read_content-agrees 100 2 3 (test_reader two_lines) two_lines (codes "web") 0 refl (omega arith)
      (omega arith) (reader-reads two_lines) lines_are_short

codec_one_line : (e : Entry) → All (λ c. c ≢ 10) (test_codec.marshal e)
codec_one_line e = elim (Bool-cases (bytes_eq e.status (codes "completed"))) [
  | inl t ↦ rw t (omega arith, tt)
  | inr t ↦ rw t (omega arith, tt)
]

-- The open run is found, and its completed entry is read back.
open_is_found :
    started_in 100 2 test_reader (codes "r1") (codes "R" ++ 10 ∷ []) ≡ ok (some open_entry)
unfolding scan_entries_reverse find_started decode_entry bytes_eq
open_is_found = refl

done-IsReadable : IsReadable test_codec 100 (stored (completed test_outcome open_entry))
unfolding stored completed truncate_field decode_entry bytes_eq
done-IsReadable = record { in_limit = omega arith; decoded = refl }

run_is_completed :
    complete 100 2 test_reader test_outcome (some (codes "R" ++ 10 ∷ [])) ≡ ok (some two_lines)
unfolding complete completed
run_is_completed = refl

found-IsReadable :
    (e : Entry)
    → started_in 100 2 test_reader (codes "r1") (codes "R" ++ 10 ∷ []) ≡ ok (some e)
    → IsReadable test_codec 100 (stored (completed test_outcome e))
found-IsReadable e h =
    let same : open_entry ≡ e = cc (open_is_found, h) in
    subst (λ (x : Entry). IsReadable test_codec 100 (stored (completed test_outcome x))) same
      done-IsReadable

-- What another observer of the same run reports.
abbrev late_outcome : Outcome
late_outcome = record test_outcome { finished_at = codes "10:05"; exit_code = pos 1 }

complete_once_example :
    complete 100 2 test_reader late_outcome (some two_lines) ≡ ok (some two_lines)
complete_once_example =
    complete_once 100 2 test_reader codec_one_line (omega arith) reader-reads test_outcome
      late_outcome (codes "R") (some two_lines) refl found-IsReadable run_is_completed

abbrev saved_profile : Profile
saved_profile = record {
  name = codes "db";
  target = codes "ann@db";
  port = pos 22;
  identity_file = [];
  secret_ref = [];
  proxy_jump = codes "gate";
}

abbrev test_secret : Secret
test_secret = record { password = codes "pw"; passphrase = [] }

abbrev gate_hops : List JumpHost
gate_hops = hop (codes "ann") (codes "gate", pos 22) ∷ []

identity-IsWritable : IsWritable saved_profile test_secret gate_hops
unfolding profile_fields hops_fields itoa
identity-IsWritable = record {
  fields_fit = (
    omega arith,
    (
      omega arith,
      (
        omega arith,
        (
          omega arith,
          (
            omega arith,
            (
              omega arith,
              (
                omega arith,
                (omega arith, (omega arith, (omega arith, (omega arith, (omega arith, tt))))),
              ),
            ),
          ),
        ),
      ),
    ),
  );
  port = (22, refl, omega arith);
  hop_ports = ((22, refl, omega arith), tt);
}

identity_bytes-injective_example :
    IsSame saved_profile test_secret saved_profile test_secret × (gate_hops ≡ gate_hops)
identity_bytes-injective_example =
    identity_bytes-injective saved_profile saved_profile test_secret test_secret gate_hops gate_hops
      identity-IsWritable identity-IsWritable refl

-- The fifth call, which stores the secret, fails.
instance abbrev test_outside : Outside
test_outside = record {
  fault = λ n. if n == 4 then some (codes "vault is locked") else none;
  marker_fault = λ n. none;
  key_path = λ name. name;
}

abbrev test_import : Imported
test_import = record {
  profile = record saved_profile { proxy_jump = [] };
  password = codes "pw";
  passphrase = [];
  key_material = codes "KEY";
}

abbrev empty_local : Local
empty_local = record { saved = []; vault = []; keys = []; calls = 0 }

apply-IsTransaction_example : IsTransaction empty_local (apply (test_import ∷ []) empty_local)
apply-IsTransaction_example = apply-IsTransaction (test_import ∷ []) empty_local

-- That import is rolled back, and every restore succeeds.
import_is_rolled_back :
    (apply (test_import ∷ []) empty_local).1 ≡ rolled_back (codes "vault is locked") []
unfolding apply lookup trim_space
import_is_rolled_back = refl

-- Another outside, where the marker of the vault's key cannot be written when the secret is stored.
abbrev unmarked : Outside
unmarked = record {
  fault = λ n. none;
  marker_fault = λ n. if n == 5 then some (codes "no space") else none;
  key_path = λ name. name;
}

-- That import is rolled back without an error, and leaves the new password in the vault.
secret_is_left :
    ((apply ⦃o = unmarked⦄ (test_import ∷ []) empty_local).1 ≡ rolled_back (codes "no space") [])
    × (lookup (codes "profile:db") (apply ⦃o = unmarked⦄ (test_import ∷ []) empty_local).0.vault
        ≡ some (record { password = codes "pw"; passphrase = [] }))
unfolding apply lookup trim_space put bytes_eq
secret_is_left = (refl, refl)
