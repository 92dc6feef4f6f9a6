-- ===== src/Tests/Texts.antt =====
-- The theorems on ids, waits, exit records, log frames and commands at concrete inputs.
use corv_client.Prelude.{
  ◌≡◌, refl, ◌≤◌, max, ◌*◌, true, false, List, [], ◌∷◌, ◌++◌, Bytes, codes, none, some, arith, All,
  length, bytes_eq, ◌==◌,
}
use corv_client.Prelude.Result.{ok}
use corv_client.Prelude.Int.{pos}
use corv_client.Broker.Ids.{valid_run_id, all_chars, run_id_char, new_run_id}
use corv_client.Broker.Ids.Safe.{IsPlain, valid_run_id-IsPlain, valid_run_id-new_run_id}
use corv_client.Broker.Wait.{second, parse_wait, max_wait, default_wait, parse_wait-le-max_wait}
use corv_client.Broker.Exit.{
  RemoteExit, IsInRange, read_fields, read_v2, parse_remote_exit, resolve_remote_timing,
  parse_remote_exit-IsInRange, resolve_remote_timing_lem,
}
use corv_client.Go.Strings.{fields}
use corv_client.Go.Numbers.{parse_int}
use corv_client.Broker.Frame.{parse_retained_log}
use corv_client.Broker.Frame.Sizes.{IsSoundParse, parse_retained_log-IsSoundParse}
use corv_client.Ssh.Command.{command_string}
use corv_client.Ssh.Command.Words.{shell_words, shell_words-command_string}

abbrev run_id : Bytes
run_id = codes "0000000000000010-0102030405060708"

run_id_is_valid : valid_run_id run_id ≡ true
unfolding valid_run_id all_chars run_id_char
run_id_is_valid = refl

valid_run_id-IsPlain_example : (18 ≤ length run_id) × (length run_id ≤ 80) × All IsPlain run_id
valid_run_id-IsPlain_example = valid_run_id-IsPlain run_id run_id_is_valid

abbrev random_bytes : Bytes
random_bytes = 1 ∷ (2 ∷ (3 ∷ (4 ∷ (5 ∷ (6 ∷ (7 ∷ (255 ∷ [])))))))

eight_bytes : length random_bytes ≡ 8
eight_bytes = refl

valid_run_id-new_run_id_example : valid_run_id (new_run_id 1700000000 random_bytes) ≡ true
valid_run_id-new_run_id_example =
    valid_run_id-new_run_id 1700000000 random_bytes (omega arith) eight_bytes

parse_wait-le-max_wait_example : parse_wait (λ s. none) (codes "5000") default_wait ≤ max_wait
parse_wait-le-max_wait_example =
    parse_wait-le-max_wait (λ s. none) (codes "5000") default_wait (omega arith)

-- An exit record of the second version.
abbrev exit_record : Bytes
exit_record = codes "CORV_RC_V2 3 100 7"

abbrev remote_exit : RemoteExit
remote_exit = record { code = 3; finished_at = some (pos (100 * second)); duration = 7 * second }

exit_record_is_read : parse_remote_exit exit_record ≡ ok remote_exit
unfolding parse_remote_exit read_fields fields read_v2 bytes_eq parse_int
exit_record_is_read = refl

parse_remote_exit-IsInRange_example : IsInRange remote_exit
parse_remote_exit-IsInRange_example = parse_remote_exit-IsInRange exit_record exit_record_is_read

resolve_remote_timing_lem_example :
    (50 * second ≤ (resolve_remote_timing (50 * second) (90 * second) remote_exit).0)
    × ((resolve_remote_timing (50 * second) (90 * second) remote_exit).0
        ≤ max (50 * second) (90 * second))
resolve_remote_timing_lem_example =
    resolve_remote_timing_lem (50 * second) (90 * second) remote_exit

-- A log of ten bytes of which the first and the last are sent.
abbrev cut_frame : Bytes
cut_frame = codes "CORV_LOG_V1 10 1 1" ++ 10 ∷ codes "az"

parse_retained_log-IsSoundParse_example : IsSoundParse cut_frame (parse_retained_log cut_frame)
parse_retained_log-IsSoundParse_example = parse_retained_log-IsSoundParse cut_frame

-- A program with an empty argument and one with a quote and a space.
abbrev printf_command : List Bytes
printf_command = codes "printf" ∷ (codes "" ∷ (codes "it's a" ∷ []))

three_words : (length printf_command == 1) ≡ false
three_words = refl

shell_words-command_string_example :
    shell_words (command_string printf_command) ≡ some printf_command
shell_words-command_string_example = shell_words-command_string printf_command three_words
