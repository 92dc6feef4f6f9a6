-- ===== src/Broker/Reply.antt =====
-- internal/broker/protocol.go: requests and responses, and the responses that several handlers of
-- internal/broker/run_output.go give.
use corv_client.Prelude.{ℕ, Bool, false, List, [], ◌++◌, Bytes, codes, Option, none}
use corv_client.Go.Numbers.{decimal}
use corv_client.Go.Strings.{trim_space}
use corv_client.Broker.Errors.{kind_text, Failure, classify}
use corv_client.Broker.Frame.{
  FrameError, invalid_frame, invalid_sizes, incomplete_frame, over_limit, invalid_state,
  invalid_size, payload_over_limit, slice_panic,
}
use corv_client.Broker.Job.{Status}
use corv_client.Broker.State.{RawResult}

-- `Op`
pub data Op : Type 0 where
  op_ping op_exec op_output op_jobs op_close op_list op_status op_shutdown op_unknown : Op

pub record Request : Type 0 where
  pub op : Op
  pub name : Bytes
  pub command : List Bytes
  pub run_id : Bytes
  pub pattern : Bytes
  pub run_key : Bytes
  pub wait : Bytes

pub record RunInfo : Type 0 where
  pub run_id : Bytes
  pub connection : Bytes
  pub status : Status
  pub running : Bool
  pub exit_code : Option ℕ
  pub started_at : Option ℕ
  pub finished_at : Option ℕ
  pub truncated : Bool

pub record StatusInfo : Type 0 where
  pub name : Bytes
  pub target : Bytes
  pub idle_ms : ℕ
  pub running_jobs : ℕ

pub record HeldInfo : Type 0 where
  pub name : Bytes
  pub target : Bytes
  pub idle_ms : ℕ

pub record Response : Type 0 where
  pub ok : Bool
  pub exit_code : ℕ
  pub stdout : Bytes
  pub duration_ms : ℕ
  pub kind : Bytes
  pub error : Bytes
  pub highlights : List Bytes
  pub running : Bool
  pub run_id : Bytes
  pub connection : Bytes
  pub started_at : Option ℕ
  pub finished_at : Option ℕ
  pub truncated : Bool
  pub run_metadata : Bool
  pub output_truncated : Bool
  pub lossy : Bool
  pub original_bytes : ℕ
  pub saved_bytes : ℕ
  pub returned_bytes : ℕ
  pub held : List HeldInfo
  pub connections : List StatusInfo
  pub runs : List RunInfo

-- `Response{}`
abbrev pub blank_response : Response
blank_response = record {
  ok = false;
  exit_code = 0;
  stdout = [];
  duration_ms = 0;
  kind = [];
  error = [];
  highlights = [];
  running = false;
  run_id = [];
  connection = [];
  started_at = none;
  finished_at = none;
  truncated = false;
  run_metadata = false;
  output_truncated = false;
  lossy = false;
  original_bytes = 0;
  saved_bytes = 0;
  returned_bytes = 0;
  held = [];
  connections = [];
  runs = [];
}

-- `Response{OK: false, Error: …, Kind: …, RunID: …}`
abbrev pub refused : Bytes → Bytes → Bytes → Response
refused text kind id = record blank_response { error = text; kind = kind; run_id = id }

unfoldable pub expired_run_response : Bytes → Response
expired_run_response id =
    refused (codes "remote run state is no longer available; its exit status is unknown")
      (codes "run_expired") id

unfoldable pub unavailable_run_output_response : Bytes → ℕ → Response
unavailable_run_output_response id code = record blank_response {
  exit_code = 1;
  error =
      codes "remote run exited with status "
      ++ (decimal code ++ codes ", but its output is no longer available");
  kind = codes "output_unavailable";
  run_id = id;
}

-- The responses of the four readers in internal/broker/run_protocol.go.
unfoldable pub unreachable_response : Bytes → Failure → Response
unreachable_response id e = refused e.text (kind_text (classify e)) id

unfoldable pub failed_response : Bytes → RawResult → Response
failed_response id r = record blank_response {
  exit_code = r.exit_code;
  kind = kind_text r.kind;
  error = trim_space r.stderr;
  run_id = id;
}

abbrev pub frame_error_text : FrameError → Bytes
frame_error_text invalid_frame = codes "invalid progress frame"
frame_error_text invalid_sizes = codes "invalid remote log sizes"
frame_error_text incomplete_frame = codes "incomplete remote log frame"
frame_error_text over_limit = codes "retained log exceeds local limit"
frame_error_text invalid_state = codes "invalid progress state"
frame_error_text invalid_size = codes "invalid progress size"
frame_error_text payload_over_limit = codes "progress payload exceeds limit"
frame_error_text slice_panic = []

-- The errors of `parseRetainedLog`; the first has a text of its own there.
abbrev pub log_error_text : FrameError → Bytes
log_error_text invalid_frame = codes "invalid remote log frame"
log_error_text e = frame_error_text e
