-- ===== src/Broker/Commands.antt =====
-- internal/broker/run_protocol.go, run_output.go and jobs.go: the shell commands sent to a remote host.
use corv_client.Prelude.{ℕ, ◌+◌, ◌-◌, ◌*◌, ◌/◌, ◌++◌, Bytes, codes}
use corv_client.Go.Numbers.{decimal}
use corv_client.Broker.Wait.{second}
use corv_client.Broker.Ids.{hex16}
use corv_client.Broker.Frame.{
  max_local_log_bytes, max_running_output_bytes, retained_log_head_bytes, retained_log_tail_bytes,
}

-- `startJobCommand`
unfoldable pub start_job_command : Bytes → ℕ → Bytes
start_job_command id payload_bytes =
    codes
      "umask 077; for tool in id tail head wc mkdir chmod cat rm mv sh date; do command -v \"$tool\" >/dev/null 2>&1 || { echo CORV_NO_POSIX; exit 127; }; done; if command -v setsid >/dev/null 2>&1; then runner=setsid; elif command -v nohup >/dev/null 2>&1; then runner=nohup; else echo CORV_NO_POSIX; exit 127; fi; dir=${TMPDIR:-/tmp}/corv-jobs-$(id -u); mkdir -p \"$dir\" && chmod 700 \"$dir\" || exit 1; upload=\"$dir/"
    ++ (id
        ++ (codes ".upload\"; script=\"$dir/"
            ++ (id
                ++ (codes
                      ".sh\"; rm -f \"$upload\"; if ! cat > \"$upload\"; then rm -f \"$upload\"; echo CORV_UPLOAD_INCOMPLETE; exit 125; fi; size=$(wc -c < \"$upload\") || exit 1; if [ \"$size\" -ne "
                    ++ (decimal payload_bytes
                        ++ (codes
                              " ]; then rm -f \"$upload\"; echo CORV_UPLOAD_INCOMPLETE; exit 125; fi; mv \"$upload\" \"$script\" && : > \"$dir/"
                            ++ (id
                                ++ (codes
                                      ".log\" && { \"$runner\" sh -c 'started=$(date +%s); sh \"$0\" > \"$1\" 2>&1; code=$?; finished=$(date +%s); duration=$((finished-started)); [ \"$duration\" -ge 0 ] || duration=0; printf \"CORV_RC_V2 %s %s %s\\n\" \"$code\" \"$finished\" \"$duration\" > \"$2.tmp\" && mv \"$2.tmp\" \"$2\"' \"$script\" \"$dir/"
                                    ++ (id
                                        ++ (codes ".log\" \"$dir/"
                                            ++ (id
                                                ++ (codes
                                                    ".rc\" >/dev/null 2>&1 & echo CORV_STARTED; }"))))))))))))

-- `tailJobCommand`
unfoldable pub tail_job_command : Bytes → ℕ → ℕ → Bytes
tail_job_command id offset max_bytes =
    codes "dir=${TMPDIR:-/tmp}/corv-jobs-$(id -u); tail -c +"
    ++ (decimal (offset + 1)
        ++ (codes " \"$dir/"
            ++ (id
                ++ (codes ".log\" 2>/dev/null | head -c "
                    ++ (decimal max_bytes ++ (codes " || true"))))))

-- `rcJobCommand`
unfoldable pub rc_job_command : Bytes → Bytes
rc_job_command id =
    codes "dir=${TMPDIR:-/tmp}/corv-jobs-$(id -u); cat \"$dir/"
    ++ (id ++ (codes ".rc\" 2>/dev/null || true"))

-- `stateJobCommand`
unfoldable pub state_job_command : Bytes → Bytes
state_job_command id =
    codes "dir=${TMPDIR:-/tmp}/corv-jobs-$(id -u); if [ -f \"$dir/"
    ++ (id
        ++ (codes ".rc\" ]; then printf done; elif [ -f \"$dir/"
            ++ (id ++ (codes ".log\" ]; then printf running; else printf missing; fi"))))

-- `cleanupJobCommand`
unfoldable pub cleanup_job_command : Bytes → Bytes
cleanup_job_command id =
    codes "dir=${TMPDIR:-/tmp}/corv-jobs-$(id -u); rm -f \"$dir/"
    ++ (id
        ++ (codes ".upload\" \"$dir/"
            ++ (id
                ++ (codes ".sh\" \"$dir/"
                    ++ (id
                        ++ (codes ".log\" \"$dir/"
                            ++ (id ++ (codes ".rc\" \"$dir/" ++ (id ++ (codes ".rc.tmp\""))))))))))

-- `progressJobCommand`
unfoldable pub progress_job_command : Bytes → Bytes
progress_job_command id =
    codes "dir=${TMPDIR:-/tmp}/corv-jobs-$(id -u); log=\"$dir/"
    ++ (id
        ++ (codes ".log\"; if [ -f \"$dir/"
            ++ (id
                ++ (codes
                      ".rc\" ]; then state=done; elif [ -f \"$log\" ]; then state=running; else state=missing; fi; size=$(wc -c < \"$log\" 2>/dev/null) || size=0; printf 'CORV_PROGRESS_V1 %s %s\\n' \"$state\" \"$size\"; [ -f \"$log\" ] && tail -c "
                    ++ (decimal max_running_output_bytes
                        ++ (codes " \"$log\" 2>/dev/null || true"))))))

-- `fullLogCommand`
unfoldable pub full_log_command : Bytes → Bytes
full_log_command id =
    codes "dir=${TMPDIR:-/tmp}/corv-jobs-$(id -u); log=\"$dir/"
    ++ (id
        ++ (codes
              ".log\"; if [ ! -f \"$log\" ]; then printf 'CORV_LOG_MISSING\\n'; exit 0; fi; size=$(wc -c < \"$log\") || exit 1; size=$((size + 0)); if [ \"$size\" -le "
            ++ (decimal max_local_log_bytes
                ++ (codes
                      " ]; then printf 'CORV_LOG_V1 %s %s 0\\n' \"$size\" \"$size\"; cat \"$log\"; else printf 'CORV_LOG_V1 %s "
                    ++ (decimal retained_log_head_bytes
                        ++ (codes " "
                            ++ (decimal retained_log_tail_bytes
                                ++ (codes "\\n' \"$size\"; head -c "
                                    ++ (decimal retained_log_head_bytes
                                        ++ (codes " \"$log\"; tail -c "
                                            ++ (decimal retained_log_tail_bytes
                                                ++ (codes " \"$log\"; fi"))))))))))))

-- `sweepRemoteCommand` at a time after the first day of 1970
unfoldable pub sweep_remote_command : ℕ → Bytes
sweep_remote_command now =
    codes
      "dir=${TMPDIR:-/tmp}/corv-jobs-$(id -u); now=$(date +%s 2>/dev/null) || now=; for rc in \"$dir\"/*.rc; do [ -s \"$rc\" ] || continue; base=${rc##*/}; stem=${base%.*}; kind= code= finished= duration=; IFS=' ' read -r kind code finished duration < \"$rc\" || true; if [ \"$kind\" = CORV_RC_V2 ]; then case \"$finished\" in ''|*[!0-9]*) continue ;; esac; [ -n \"$now\" ] || continue; cutoff=$((now-"
    ++ (decimal (24 * 3600)
        ++ (codes
              ")); [ \"$finished\" -lt \"$cutoff\" ] || continue; else ts=${stem%%-*}; [ \"$ts\" \\< \""
            ++ (hex16 ((now - 24 * 3600 * second) / second)
                ++ (codes
                    "\" ] || continue; fi; rm -f \"$dir/$stem.sh\" \"$dir/$stem.log\" \"$dir/$stem.rc\"; done"))))
