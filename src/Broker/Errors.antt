-- ===== src/Broker/Errors.antt =====
-- internal/sshconn/result.go: the kinds of error and how an error's text is classified. Also the
-- errors of internal/broker/server.go that the handlers pass on.
use corv_client.Prelude.{
  ℕ, ◌+◌, Bool, false, ◌&&◌, ◌||◌, List, [], ◌∷◌, ◌++◌, Bytes, codes, Option, none, leb, ◌==◌, drop,
  if◌then◌else◌,
}
use corv_client.Go.Strings.{contains, has_prefix}

pub data ErrorKind : Type 0 where
  no_error auth_failed unknown_host unreachable host_key : ErrorKind
  timeout disconnected resource_exhausted ssh_error : ErrorKind

abbrev pub kind_text : ErrorKind → Bytes
kind_text no_error = []
kind_text auth_failed = codes "auth_failed"
kind_text unknown_host = codes "unknown_host"
kind_text unreachable = codes "unreachable"
kind_text host_key = codes "host_key"
kind_text timeout = codes "timeout"
kind_text disconnected = codes "disconnected"
kind_text resource_exhausted = codes "resource_exhausted"
kind_text ssh_error = codes "ssh_error"

-- A Go error: its text, whether a `HostKeyError` is in its chain, and the kind of the `startError`
-- in its chain.
pub record Failure : Type 0 where
  pub text : Bytes
  pub is_host_key : Bool
  pub start_kind : Option ErrorKind

-- `errors.New`
abbrev pub plain : Bytes → Failure
plain text = record { text = text; is_host_key = false; start_kind = none }

-- `fmt.Errorf("prefix%w", err)`
abbrev pub wrap : Bytes → Failure → Failure
wrap prefix e = record {
  text = prefix ++ e.text;
  is_host_key = e.is_host_key;
  start_kind = e.start_kind;
}

abbrev pub lower_char : ℕ → ℕ
lower_char c = if leb b'A' c && leb c b'Z' then c + 32 else c

-- `strings.ToLower`, up to letters that are not ASCII before and after: the Kelvin sign and the
-- dotted capital I are the only ones that become ASCII.
unfoldable pub to_lower : Bytes → Bytes
to_lower [] = []
to_lower (c ∷ s) =
    let rest = to_lower s in
    if c == 226 && has_prefix s (132 ∷ 170 ∷ [])
    then b'k' ∷ drop 2 rest
    else if c == 196 && has_prefix s (176 ∷ [])
    then b'i' ∷ drop 1 rest
    else lower_char c ∷ rest

unfoldable pub contains_any : Bytes → List Bytes → Bool
contains_any s [] = false
contains_any s (phrase ∷ ps) = contains s phrase || contains_any s ps

-- The phrases of the `switch`, in its order.
abbrev host_key_phrases : List Bytes
host_key_phrases = codes "knownhosts" ∷ codes "host key" ∷ codes "key mismatch" ∷ []

abbrev auth_phrases : List Bytes
auth_phrases =
    codes "unable to authenticate"
    ∷ codes "no supported methods"
    ∷ codes "no authentication methods"
    ∷ codes "permission denied"
    ∷ []

abbrev unknown_host_phrases : List Bytes
unknown_host_phrases = codes "no such host" ∷ codes "could not resolve" ∷ []

abbrev unreachable_phrases : List Bytes
unreachable_phrases =
    codes "connection refused"
    ∷ codes "actively refused"
    ∷ codes "no connection could be made"
    ∷ codes "no route to host"
    ∷ codes "network is unreachable"
    ∷ codes "host is unreachable"
    ∷ []

abbrev timeout_phrases : List Bytes
timeout_phrases =
    codes "i/o timeout"
    ∷ codes "deadline exceeded"
    ∷ codes "timed out"
    ∷ codes "did not properly respond"
    ∷ []

abbrev disconnect_phrases : List Bytes
disconnect_phrases =
    codes "eof"
    ∷ codes "disconnected"
    ∷ codes "connection reset"
    ∷ codes "broken pipe"
    ∷ codes "use of closed"
    ∷ []

-- `classifyErr` of an error that is there.
unfoldable pub classify_text : Bytes → ErrorKind
classify_text text =
    let s = to_lower text in
    if contains_any s host_key_phrases
    then host_key
    else if contains_any s auth_phrases
    then auth_failed
    else if contains_any s unknown_host_phrases
    then unknown_host
    else if contains_any s unreachable_phrases
    then unreachable
    else if contains_any s timeout_phrases
    then timeout
    else if contains_any s (codes "handshake failed" ∷ [])
    then ssh_error
    else if contains_any s disconnect_phrases
    then disconnected
    else ssh_error

-- `Classify`
unfoldable pub classify : Failure → ErrorKind
classify e = if e.is_host_key then host_key else classify_text e.text
