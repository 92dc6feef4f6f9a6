-- ===== src/Ssh/Command/Words.antt =====
-- How a POSIX shell splits a line into words, for the strings of internal/sshconn/command.go.
use corv_client.Prelude.{
  ◌≡◌, refl, sym, ap, ◌∙◌, ℕ, Bool, true, false, ◌||◌, not, inl, inr, List, [], ◌∷◌, ◌++◌, map,
  append-nil, append_assoc, Bytes, codes, Option, none, some, ◌==◌, ==_iff, if◌then◌else◌, length,
  Bool-cases, arith,
}
use Prim.{absurd}
use mathlib.Core.Bool.{true≢false}
use corv_client.Go.Strings.{join}
use corv_client.Ssh.Shell.{is_literal}
use corv_client.Ssh.Command.{
  quote, double_quote, is_safe_char, is_shell_safe, escape_quotes, shell_quote, command_string,
}

-- Outside quotes, between single quotes, between double quotes.
data Mode : Type 0 where
  unquoted single double : Mode

-- The word that is read, if one has begun, with one more character.
unfoldable grow : Option Bytes → ℕ → Option Bytes
grow none c = some (c ∷ [])
grow (some word) c = some (word ++ (c ∷ []))

unfoldable begin : Option Bytes → Option Bytes
begin none = some []
begin (some word) = some word

unfoldable close : Option Bytes → Option (List Bytes) → Option (List Bytes)
close none rest = rest
close (some word) none = none
close (some word) (some rest) = some (word ∷ rest)

-- What stands for itself in double quotes.
unfoldable is_plain_in_double : ℕ → Bool
is_plain_in_double c = not (c == b'$' || c == b'`' || c == b'\\')

-- Field splitting and quote removal (POSIX.1, Shell Command Language, 2.2 and 2.6): the words of a
-- line, `none` if it has an open quote or a character that means something else to the shell.
unfoldable read_words : Mode → Option Bytes → Bytes → Option (List Bytes)
read_words unquoted word [] = close word (some [])
read_words single word [] = none
read_words double word [] = none
read_words unquoted word (c ∷ s) =
    let gap = read_words unquoted none s in
    let in_single = read_words single (begin word) s in
    let in_double = read_words double (begin word) s in
    let grown = read_words unquoted (grow word c) s in
    if c == b' '
    then close word gap
    else if c == quote
    then in_single
    else if c == double_quote
    then in_double
    else if is_literal c
    then grown
    else none
read_words single word (c ∷ s) =
    let out = read_words unquoted word s in
    let grown = read_words single (grow word c) s in if c == quote then out else grown
read_words double word (c ∷ s) =
    let out = read_words unquoted word s in
    let grown = read_words double (grow word c) s in
    if c == double_quote then out else if is_plain_in_double c then grown else none

pub shell_words : Bytes → Option (List Bytes)
shell_words line = read_words unquoted none line

safe-plain :
    (c : ℕ)
    → is_safe_char c ≡ true
    → (c == b' ') ≡ false
      × (c == quote) ≡ false
      × (c == double_quote) ≡ false
      × (is_literal c ≡ true)
unfolding is_safe_char is_literal
safe-plain c h = (ground arith, ground arith, ground arith, ground arith)

snoc : (word : Bytes) (c : ℕ) (s : Bytes) → (word ++ (c ∷ [])) ++ s ≡ word ++ (c ∷ s)
snoc word c s = append_assoc word (c ∷ []) s

read_safe :
    (s rest word : Bytes)
    → is_shell_safe s ≡ true
    → read_words unquoted (some word) (s ++ rest) ≡ read_words unquoted (some (word ++ s)) rest
unfolding is_shell_safe read_words grow
read_safe [] rest word h = ap (λ x. read_words unquoted (some x) rest) (sym (append-nil word))
read_safe (c ∷ s) rest word h =
    let safe : is_safe_char c ≡ true = ground arith in
    let tail : is_shell_safe s ≡ true = ground arith in
    let (a, b, d, l) = safe-plain c safe in
    rw (a, b, d, l)
      (read_safe s rest (word ++ (c ∷ [])) tail
        ∙ ap (λ x. read_words unquoted (some x) rest) (snoc word c s))

read_escaped :
    (s rest word : Bytes)
    → read_words single (some word) (escape_quotes s ++ rest)
      ≡ read_words single (some (word ++ s)) rest
unfolding escape_quotes read_words grow begin is_plain_in_double
read_escaped [] rest word = ap (λ x. read_words single (some x) rest) (sym (append-nil word))
read_escaped (c ∷ s) rest word = elim (Bool-cases (c == quote)) [
  | inl e ↦ rw e (
      read_escaped s rest (word ++ (quote ∷ []))
      ∙ ap (λ x. read_words single (some x) rest)
          (snoc word quote s ∙ ap (λ x. word ++ (x ∷ s)) (sym ((==_iff c quote).0 e))))
  | inr e ↦
      rw (e, e)
        (read_escaped s rest (word ++ (c ∷ []))
          ∙ ap (λ x. read_words single (some x) rest) (snoc word c s))
]

read_first :
    (c : ℕ) (s rest : Bytes)
    → is_shell_safe (c ∷ s) ≡ true
    → read_words unquoted none (c ∷ (s ++ rest)) ≡ read_words unquoted (some (c ∷ s)) rest
unfolding is_shell_safe read_words grow
read_first c s rest h =
    let safe : is_safe_char c ≡ true = ground arith in
    let tail : is_shell_safe s ≡ true = ground arith in
    let (a, b, d, l) = safe-plain c safe in rw (a, b, d, l) (read_safe s rest (c ∷ []) tail)

read_quoted :
    (a rest : Bytes)
    → read_words unquoted none (shell_quote a ++ rest) ≡ read_words unquoted (some a) rest
unfolding shell_quote read_words begin grow
read_quoted [] rest = refl
read_quoted (c ∷ s) rest = elim (Bool-cases (is_shell_safe (c ∷ s))) [
  | inl e ↦ rw e (read_first c s rest e)
  | inr e ↦ rw e (
      ap (read_words single (some [])) (append_assoc (escape_quotes (c ∷ s)) (quote ∷ []) rest)
      ∙ read_escaped (c ∷ s) (quote ∷ rest) [])
]

read_joined :
    (a : Bytes) (args : List Bytes)
    → read_words unquoted none (join (codes " ") (map shell_quote (a ∷ args))) ≡ some (a ∷ args)
unfolding join read_words close
read_joined a [] =
    ap (read_words unquoted none) (sym (append-nil (shell_quote a))) ∙ read_quoted a []
read_joined a (b ∷ bs) =
    read_quoted a (codes " " ++ join (codes " ") (map shell_quote (b ∷ bs)))
    ∙ ap (close (some a)) (read_joined b bs)

-- A POSIX shell that splits `CommandString` of no argument or of several into words gets exactly the
-- arguments, whatever bytes are in them: each byte is quoted, or is one that stands for itself outside
-- quotes. (What a shell makes of whole words is not considered: a first word like `a=b` is an
-- assignment to it, and a first word like `if` is reserved. A command of one argument is a line for the
-- shell to interpret, and is passed on verbatim.)
pub shell_words-command_string :
    (command : List Bytes)
    → (length command == 1) ≡ false
    → shell_words (command_string command) ≡ some command
unfolding shell_words command_string read_words join close
shell_words-command_string [] many = refl
shell_words-command_string (a ∷ []) many = absurd (true≢false many)
shell_words-command_string (a ∷ b ∷ cs) many = read_joined a (b ∷ cs)
