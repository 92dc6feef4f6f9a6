-- ===== src/Ssh/Shell.antt =====
-- POSIX.1, Shell Command Language, 2.2: which bytes stand for themselves outside quotes.
use corv_client.Prelude.{ℕ, Bool, false, not, ◌&&◌, ◌||◌, [], ◌∷◌, Bytes, codes, leb, ◌==◌}

-- Those that must be quoted: `|`, `&`, `;`, `<`, `>`, `(`, `)`, `$`, the backquote, the backslash and the
-- two quotes (space, tab and newline are not printable); and those that are special in some places:
-- `*`, `?`, `[` and `]` in patterns, `#` and `~` at the start of a word, `{`, `}`, `!` and `^` in words
-- that shells reserve or expand. `=` and `%`, which POSIX names too, matter to assignments and job
-- control alone.
abbrev special_bytes : Bytes
special_bytes = codes "|&;<>()$`\\\"'*?[]#~{}!^"

abbrev occurs : ℕ → Bytes → Bool
occurs c [] = false
occurs c (d ∷ s) = c == d || occurs c s

-- A printable ASCII byte that is none of these.
unfoldable pub is_literal : ℕ → Bool
is_literal c = leb 33 c && leb c 126 && not (occurs c special_bytes)
