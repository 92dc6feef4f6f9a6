-- ===== src/Profile/Import/Match.antt =====
-- internal/profile/import.go: `sshConfigBlock`, which blocks apply to a host, and what they give it.
-- Package `path`: `Match`.
use corv_client.Prelude.{
  ℕ, zero, suc, ◌+◌, Bool, true, false, not, ◌&&◌, ◌||◌, List, [], ◌∷◌, Bytes, Option, none, some,
  ltb, ◌==◌, if◌then◌else◌, is_empty, take, drop, length,
}
use corv_client.Prelude.Int.{ℤ, pos, eq_ℤ}
use corv_client.Go.Strings.{has_prefix}
use corv_client.Go.Strings.Search.{Letters, to_lower}
use corv_client.Go.Utf8.{rune_width}

-- `sshConfigBlock`
pub record Block : Type 0 where
  pub aliases : List Bytes
  pub host_name : Bytes
  pub user : Bytes
  pub port : ℤ
  pub identity : Bytes
  pub proxy_jump : Bytes

abbrev pub empty_block : List Bytes → Block
empty_block aliases = record {
  aliases = aliases;
  host_name = [];
  user = [];
  port = pos 0;
  identity = [];
  proxy_jump = [];
}

-- The bytes of the rune at the front; a byte that is no encoding counts as a rune.
abbrev at_least_one : ℕ → ℕ
at_least_one zero = 1
at_least_one (suc n) = suc n

rune_size : Bytes → ℕ
unfolding rune_width
rune_size s = at_least_one (rune_width s)

unfoldable escaped : Bytes → Option (Bytes × Bytes)
unfolding rune_width
escaped p = elim (rune_width p) [ zero ↦ none | suc k ↦ some (take (suc k) p, drop (suc k) p) ]

-- `getEsc`: one bound of a range in a class, and what is behind it.
class_rune : Bytes → Option (Bytes × Bytes)
unfolding escaped
class_rune [] = none
class_rune (c ∷ p) =
    if c == b'-' || c == b']' then none else if c == b'\\' then escaped p else escaped (c ∷ p)

-- Two encodings of the same length compare as their runes do, a longer one is the greater.
le_bytes : Bytes → Bytes → Bool
le_bytes [] t = true
le_bytes (b ∷ s) [] = false
le_bytes (b ∷ s) (c ∷ t) = if b == c then le_bytes s t else ltb b c

rune_le : Bytes → Bytes → Bool
unfolding le_bytes
rune_le a b = if length a == length b then le_bytes a b else ltb (length a) (length b)

abbrev in_bounds : Bytes → Bytes → Bytes → Bool
in_bounds r lo hi = rune_le lo r && rune_le r hi

abbrev range_end : Bytes → Bytes → Option (Bytes × Bytes)
range_end lo [] = some (lo, [])
range_end lo (c ∷ p) = if c == b'-' then class_rune p else some (lo, c ∷ p)

-- The ranges of a class: does one hold the rune, and what is behind the `]`.
class_ranges : ℕ → Bytes → Bool → Bool → Bytes → Option (Bool × Bytes)
unfolding class_rune rune_le
class_ranges zero r some_range found p = none
class_ranges (suc f) r some_range found p =
    let rest : Option (Bool × Bytes) = elim (class_rune p) [
      | none ↦ none
      | some (lo, p') ↦ elim (range_end lo p') [
        | none ↦ none
        | some (hi, q) ↦ class_ranges f r true (found || in_bounds r lo hi) q
      ]
    ] in
    if some_range && has_prefix p (b']' ∷ []) then some (found, drop 1 p) else rest

abbrev class_from : Bytes → Bytes → Option (Bool × Bytes)
class_from r [] = none
class_from r (c ∷ p) =
    if c == b'^'
    then elim (class_ranges (length p + 1) r false false p) [
      | none ↦ none
      | some (found, q) ↦ some (not found, q)
    ]
    else class_ranges (length (c ∷ p) + 1) r false false (c ∷ p)

-- The rune at the front of a name; a byte that is no encoding reads as U+FFFD.
front_rune : Bytes → Bytes
unfolding rune_width
front_rune s = elim (rune_width s) [ zero ↦ 0xef ∷ 0xbf ∷ 0xbd ∷ [] | suc k ↦ take (suc k) s ]

-- `matchChunk`: what is left of the name behind a part of the pattern without `*`. `?` is a rune other
-- than `/`, `[…]` a class, `\` escapes. A malformed pattern matches nothing here, and in the code is an
-- error, which `hostBlockMatches` takes for no match. Each round takes a byte of the chunk.
match_chunk : ℕ → Bytes → Bytes → Option Bytes
unfolding class_ranges rune_size front_rune
match_chunk zero p s = none
match_chunk (suc f) [] s = some s
match_chunk (suc f) (c ∷ p) s =
    let behind_rune = match_chunk f p (drop (rune_size s) s) in
    let behind_byte = match_chunk f p (drop 1 s) in
    let behind_escaped : Option Bytes = elim p [
      | [] ↦ none
      | d ∷ q ↦
          let rest = match_chunk f q (drop 1 s) in if has_prefix s (d ∷ []) then rest else none
    ] in
    let behind_class : Option Bytes = elim (class_from (front_rune s) p) [
      | none ↦ none
      | some (found, q) ↦
          let rest = match_chunk f q (drop (rune_size s) s) in if found then rest else none
    ] in
    if is_empty s
    then none
    else if c == b'['
    then behind_class
    else if c == b'?'
    then if has_prefix s (b'/' ∷ []) then none else behind_rune
    else if c == b'\\'
    then behind_escaped
    else if has_prefix s (c ∷ [])
    then behind_byte
    else none

-- `scanChunk`, behind the stars: the part up to the next `*` that is in no class and not escaped, and
-- the rest.
scan_chunk : Bool → Bytes → Bytes × Bytes
scan_chunk in_range [] = ([], [])
scan_chunk in_range (c ∷ []) = if c == b'*' && not in_range then ([], c ∷ []) else (c ∷ [], [])
scan_chunk in_range (c ∷ (d ∷ p)) =
    let (chunk, rest) = scan_chunk in_range p in
    let (chunk', rest') =
      scan_chunk (if c == b'[' then true else if c == b']' then false else in_range) (d ∷ p) in
    if c == b'\\'
    then (c ∷ d ∷ chunk, rest)
    else if c == b'*' && not in_range
    then ([], c ∷ d ∷ p)
    else (c ∷ chunk', rest')

-- The last chunk must reach the end of the name.
abbrev accepted : Bytes → Option Bytes → Option Bytes
accepted rest none = none
accepted rest (some t) = if is_empty t || not (is_empty rest) then some t else none

-- The first place of a chunk in the name; behind a star, bytes other than `/` may be skipped.
place_chunk : Bool → Bytes → Bytes → Bytes → Option Bytes
unfolding match_chunk
place_chunk star chunk rest [] = accepted rest (match_chunk (length chunk + 1) chunk [])
place_chunk star chunk rest (b ∷ s) =
    let later = place_chunk star chunk rest s in
    elim (accepted rest (match_chunk (length chunk + 1) chunk (b ∷ s))) [
      | some t ↦ some t
      | none ↦ if star && not (b == b'/') then later else none
    ]

abbrev drop_stars : Bytes → Bytes
drop_stars [] = []
drop_stars (c ∷ p) = if c == b'*' then drop_stars p else c ∷ p

abbrev has_slash : Bytes → Bool
has_slash [] = false
has_slash (b ∷ s) = b == b'/' || has_slash s

-- `path.Match`: the chunks of the pattern are placed one after the other, each at its first place. Each
-- round takes at least a byte of the pattern.
match_chunks : ℕ → Bytes → Bytes → Bool
unfolding scan_chunk place_chunk
match_chunks zero p s = false
match_chunks (suc f) [] s = is_empty s
match_chunks (suc f) (c ∷ p) s =
    let star = c == b'*' in
    let (chunk, rest) = scan_chunk false (drop_stars (c ∷ p)) in
    if star && is_empty chunk
    then not (has_slash s)
    else elim (place_chunk star chunk rest s) [ none ↦ false | some t ↦ match_chunks f rest t ]

unfoldable pub path_matches : Bytes → Bytes → Bool
unfolding match_chunks
path_matches p s = match_chunks (length p + 1) p s

abbrev without_bang : Bytes → Bytes
without_bang [] = []
without_bang (c ∷ p) = if c == b'!' then p else c ∷ p

abbrev pub or_text : Bytes → Bytes → Bytes
or_text s t = if is_empty s then t else s

abbrev pub or_port : ℤ → ℤ → ℤ
or_port m n = if eq_ℤ m (pos 0) then n else m

-- The body of the loop in `resolveSSHConfig`: a field that is set is kept.
unfoldable pub fill : Block → Block → Block
fill resolved block = record resolved {
  host_name = or_text resolved.host_name block.host_name;
  user = or_text resolved.user block.user;
  port = or_port resolved.port block.port;
  identity = or_text resolved.identity block.identity;
  proxy_jump = or_text resolved.proxy_jump block.proxy_jump;
}

module _ ⦃l : Letters⦄ where
  -- The loop of `hostBlockMatches`: `matched` so far.
  match_patterns : Bytes → List Bytes → Bool → Bool
  unfolding path_matches to_lower
  match_patterns name [] matched = matched
  match_patterns name (pattern ∷ patterns) matched =
      let onward = match_patterns name patterns matched in
      let hit = match_patterns name patterns true in
      if not (path_matches (without_bang (to_lower pattern)) name)
      then onward
      else if has_prefix pattern (b'!' ∷ [])
      then false
      else hit

  -- `hostBlockMatches`
  unfoldable pub host_block_matches : Bytes → List Bytes → Bool
  unfolding match_patterns to_lower
  host_block_matches name patterns = match_patterns (to_lower name) patterns false

  unfoldable pub resolve_from : Bytes → List Block → Block → Block
  unfolding host_block_matches fill
  resolve_from name [] resolved = resolved
  resolve_from name (block ∷ blocks) resolved =
      resolve_from name blocks
        (if host_block_matches name block.aliases then fill resolved block else resolved)

  -- `resolveSSHConfig`
  unfoldable pub resolve_config : Bytes → List Block → Block
  unfolding resolve_from
  resolve_config name blocks = resolve_from name blocks (empty_block [])
