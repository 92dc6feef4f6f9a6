-- ===== src/Ssh/Jump.antt =====
-- internal/sshconn/proxyjump.go: the hops of a ProxyJump specification.
use corv_client.Prelude.{
  ℕ, ◌+◌, ◌-◌, ◌||◌, List, [], ◌∷◌, Bytes, codes, Option, none, some, ltb, ◌==◌, if◌then◌else◌,
  is_empty, take, drop,
}
use corv_client.Prelude.Int.{ℤ, pos, negsuc}
use corv_client.Prelude.Result.{Result, ok, err, ◌>>=◌}
use corv_client.Go.Strings.{index_byte, trim_space, split}
use corv_client.Go.Strings.Search.{last_index, count_byte, cut, equal_fold}
use corv_client.Go.Numbers.{parse_int}

-- `JumpHost`; port 0 means 22.
pub record JumpHost : Type 0 where
  pub user : Bytes
  pub host : Bytes
  pub port : ℤ
  pub identity_file : Bytes
  pub password : Bytes
  pub passphrase : Bytes

-- The errors of the parser, and the part of the specification that they quote.
pub data JumpError : Type 0 where
  empty_jump_host : JumpError
  empty_jump_user : Bytes → JumpError
  empty_host : JumpError
  missing_bracket : JumpError
  data_after_bracket : JumpError
  not_bracketed : JumpError
  empty_port : JumpError
  invalid_port : JumpError
  port_out_of_range : JumpError

abbrev pub checked_port : Option ℤ → Result JumpError ℤ
checked_port none = err invalid_port
checked_port (some (negsuc n)) = err port_out_of_range
checked_port (some (pos n)) = if ltb n 1 || ltb 65535 n then err port_out_of_range else ok (pos n)

-- `parsePort`
unfoldable pub parse_port : Bytes → Result JumpError ℤ
parse_port [] = err empty_port
parse_port (c ∷ text) = checked_port (parse_int (c ∷ text))

abbrev pub with_port : Bytes → Result JumpError ℤ → Result JumpError (Bytes × ℤ)
with_port host (err e) = err e
with_port host (ok port) = ok (host, port)

-- What follows the closing bracket.
unfoldable pub bracket_rest : Bytes → Bytes → Result JumpError (Bytes × ℤ)
unfolding parse_port
bracket_rest host [] = ok (host, pos 0)
bracket_rest host (c ∷ rest) =
    if c == b':' then with_port host (parse_port rest) else err data_after_bracket

unfoldable pub read_bracketed : Bytes → Option ℕ → Result JumpError (Bytes × ℤ)
unfolding bracket_rest
read_bracketed spec none = err missing_bracket
read_bracketed spec (some end) =
    let host = take (end - 1) (drop 1 spec) in
    if is_empty host then err empty_host else bracket_rest host (drop (end + 1) spec)

abbrev pub read_cut : Bytes → Option (Bytes × Bytes) → Result JumpError (Bytes × ℤ)
read_cut spec none = ok (spec, pos 0)
read_cut spec (some (host, text)) =
    if is_empty host then err empty_host else with_port host (parse_port text)

unfoldable pub read_plain : Bytes → Result JumpError (Bytes × ℤ)
unfolding parse_port
read_plain spec =
    if ltb 1 (count_byte b':' spec)
    then err not_bracketed
    else if count_byte b':' spec == 1
    then read_cut spec (cut b':' spec)
    else ok (spec, pos 0)

-- `parseHostPort`
unfoldable pub parse_host_port : Bytes → Result JumpError (Bytes × ℤ)
unfolding read_bracketed read_plain
parse_host_port [] = err empty_host
parse_host_port (c ∷ spec) =
    if c == b'['
    then read_bracketed (c ∷ spec) (index_byte b']' (c ∷ spec))
    else read_plain (c ∷ spec)

abbrev pub hop : Bytes → Bytes × ℤ → JumpHost
hop user (host, port) = record {
  user = user;
  host = host;
  port = port;
  identity_file = [];
  password = [];
  passphrase = [];
}

abbrev pub hop_of : Bytes → Result JumpError (Bytes × ℤ) → Result JumpError JumpHost
hop_of user (err e) = err e
hop_of user (ok endpoint) = ok (hop user endpoint)

abbrev pub read_user : Bytes → Option ℕ → Result JumpError JumpHost
read_user spec none = hop_of [] (parse_host_port spec)
read_user spec (some at) =
    if is_empty (take at spec)
    then err (empty_jump_user spec)
    else hop_of (take at spec) (parse_host_port (drop (at + 1) spec))

-- `parseJumpHost`
unfoldable pub parse_jump_host : Bytes → Result JumpError JumpHost
unfolding parse_host_port
parse_jump_host [] = err empty_jump_host
parse_jump_host (c ∷ spec) = read_user (c ∷ spec) (last_index b'@' (c ∷ spec))

unfoldable pub parse_hops : List Bytes → Result JumpError (List JumpHost)
unfolding parse_jump_host
parse_hops [] = ok []
parse_hops (part ∷ parts) = do
  h ← parse_jump_host (trim_space part)
  hs ← parse_hops parts
  ok (h ∷ hs)

-- `ParseJumpChain`
unfoldable pub parse_jump_chain : Bytes → Result JumpError (List JumpHost)
unfolding parse_hops
parse_jump_chain spec =
    let spec = trim_space spec in
    if is_empty spec || equal_fold spec (codes "none") then ok [] else parse_hops (split b',' spec)
