-- ===== src/Output/Patterns.antt =====
-- The regular expressions of internal/output/process.go are run by Go's `regexp`; here they are the
-- tests that they make on a line, and `actionableSignal` is what the code builds of them.
use corv_client.Prelude.{Bool, false, ◌&&◌, ◌||◌, not, List, [], ◌∷◌, Bytes, if◌then◌else◌}
use corv_client.Go.Strings.{trim_space}

pub record Patterns : Type 0 where
  pub signal : Bytes → Bool  -- signalRE.MatchString
  pub false_positive : Bytes → Bool  -- falsePositiveRE.MatchString
  pub heading : Bytes → Bool  -- signalHeadingRE.MatchString
  pub clauses : Bytes → List Bytes  -- signalClauseRE.Split(line, -1)

any_clause : Patterns → List Bytes → Bool
any_clause p [] = false
any_clause p (c ∷ cs) = (p.signal c && not (p.false_positive c)) || any_clause p cs

unfoldable pub actionable_signal : Patterns → Bytes → Bool
unfolding any_clause trim_space
actionable_signal p line =
    if p.heading (trim_space line) then false else any_clause p (p.clauses line)
