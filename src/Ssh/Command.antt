-- ===== src/Ssh/Command.antt =====
-- internal/sshconn/command.go: how a command becomes the one string that SSH hands to the remote shell.
pub mod Words
use corv_client.Prelude.{
  ℕ, Bool, true, false, ◌||◌, ◌&&◌, List, [], ◌∷◌, ◌++◌, map, Bytes, codes, leb, ◌==◌,
  if◌then◌else◌, is_empty,
}
use corv_client.Go.Strings.{join}

abbrev quote : ℕ
quote = 39

abbrev double_quote : ℕ
double_quote = 34

-- The test in the loop of `isShellSafe`
unfoldable pub is_safe_char : ℕ → Bool
is_safe_char r =
    (leb b'a' r && leb r b'z')
    || (leb b'A' r && leb r b'Z')
    || (leb b'0' r && leb r b'9')
    || r == b'@'
    || r == b'%'
    || r == b'_'
    || r == b'+'
    || r == b'='
    || r == b':'
    || r == b','
    || r == b'.'
    || r == b'/'
    || r == b'-'

unfoldable pub is_shell_safe : Bytes → Bool
is_shell_safe [] = true
is_shell_safe (r ∷ s) = is_safe_char r && is_shell_safe s

-- `strings.ReplaceAll(arg, "'", "'\"'\"'")`
unfoldable pub escape_quotes : Bytes → Bytes
escape_quotes [] = []
escape_quotes (c ∷ s) =
    let rest = escape_quotes s in
    if c == quote
    then quote ∷ (double_quote ∷ (quote ∷ (double_quote ∷ (quote ∷ rest))))
    else c ∷ rest

unfoldable pub shell_quote : Bytes → Bytes
shell_quote arg =
    if is_empty arg
    then quote ∷ (quote ∷ [])
    else if is_shell_safe arg
    then arg
    else quote ∷ (escape_quotes arg ++ (quote ∷ []))

-- `CommandString`
unfoldable pub command_string : List Bytes → Bytes
command_string (command ∷ []) = command
command_string command = join (codes " ") (map shell_quote command)
