-- ===== src/Profile/Import/Config.antt =====
-- internal/profile/import.go: reading a configuration with the files that it includes, and the
-- profiles that come of it.
use corv_client.Prelude.{
  ℕ, zero, suc, Bool, not, ◌&&◌, List, [], ◌∷◌, ◌++◌, Bytes, codes, Option, none, some,
  if◌then◌else◌, is_empty, bytes_eq,
}
use corv_client.Prelude.Assoc.{Assoc, lookup, put}
use corv_client.Prelude.Result.{Result, ok, err, ◌>>=◌}
use corv_client.Go.Strings.{split, has_prefix, elem}
use corv_client.Go.Strings.Search.{Letters, contains_any}
use corv_client.Profile.{Profile}
use corv_client.Profile.Import.{
  Files, ImportError, no_home, cannot_open, nested_too_deep, Parser, flush, absolute, parse_lines,
}
use corv_client.Profile.Import.Match.{Block, empty_block, or_text, resolve_config}
use corv_client.Profile.Import.Jump.{resolve_proxy_jump}

-- The lines of a text: nothing follows a last line feed.
unfoldable pub without_last_empty : List Bytes → List Bytes
without_last_empty [] = []
without_last_empty (line ∷ []) = if is_empty line then [] else line ∷ []
without_last_empty (line ∷ next ∷ lines) = line ∷ without_last_empty (next ∷ lines)

unfoldable pub lines_of : Bytes → List Bytes
unfolding without_last_empty split
lines_of content = without_last_empty (split 10 content)

unfoldable pub remove_path : Bytes → List Bytes → List Bytes
unfolding bytes_eq
remove_path path [] = []
remove_path path (x ∷ xs) =
    let rest = remove_path path xs in if bytes_eq x path then rest else x ∷ rest

module _ ⦃l : Letters⦄ ⦃fs : Files⦄ where
  -- `delete(p.active, path)` when the file is done
  unfoldable pub leave_file : Bytes → Parser → Result ImportError Parser
  unfolding remove_path
  leave_file file p = ok (record p { active = remove_path file p.active })

  -- `parseFile`: on fuel, for files that include one another. A file that is being read is not read
  -- again.
  unfoldable pub parse_file : ℕ → Bytes → Parser → Result ImportError Parser
  unfolding parse_lines lines_of leave_file elem
  parse_file zero path p = err nested_too_deep
  parse_file (suc f) path p =
      let read = elim (fs.read (absolute path)) as (λ o. Result ImportError Parser) [
        | none ↦ err (cannot_open (absolute path))
        | some content ↦
            parse_lines (parse_file f) (fs.dir (absolute path)) (lines_of content)
              (record p { active = absolute path ∷ p.active })
            >>= leave_file (absolute path)
      ] in
      if elem (absolute path) p.active then ok p else read

  abbrev pub empty_parser : Parser
  empty_parser = record { blocks = []; current = none; active = [] }

  -- `parseSSHConfig`
  unfoldable pub parse_config : ℕ → Bytes → Result ImportError (List Block)
  unfolding parse_file flush
  parse_config f path = do p ← parse_file f path empty_parser; ok (flush p).blocks

  -- A Host alias that is a host: no negation and no wildcard.
  unfoldable pub is_concrete : Bytes → Bool
  unfolding has_prefix contains_any
  is_concrete alias =
      not (is_empty alias)
      && not (has_prefix alias (b'!' ∷ []))
      && not (contains_any alias (codes "*?"))

  unfoldable pub add_names : List Bytes → List Bytes → List Bytes
  unfolding is_concrete elem
  add_names [] names = names
  add_names (alias ∷ aliases) names =
      add_names aliases
        (if is_concrete alias && not (elem alias names) then names ++ alias ∷ [] else names)

  unfoldable pub names_of : List Block → List Bytes → List Bytes
  unfolding add_names
  names_of [] names = names
  names_of (b ∷ blocks) names = names_of blocks (add_names b.aliases names)

  unfoldable pub resolve_all : List Block → List Bytes → Assoc Block
  unfolding put resolve_config
  resolve_all blocks [] = []
  resolve_all blocks (name ∷ names) =
      put name (resolve_config name blocks) (resolve_all blocks names)

  -- A missing key gives the empty block, as in Go.
  abbrev pub block_of : Option Block → Block
  block_of none = empty_block []
  block_of (some block) = block

  abbrev pub target_of : Bytes → Bytes → Bytes
  target_of user host = if is_empty user then host else user ++ b'@' ∷ host

  unfoldable pub profile_of : Assoc Block → Bytes → Profile
  unfolding lookup resolve_proxy_jump
  profile_of aliases alias =
      let resolved = block_of (lookup alias aliases) in
      record {
        name = alias;
        target = target_of resolved.user (or_text resolved.host_name alias);
        port = resolved.port;
        identity_file = resolved.identity;
        secret_ref = [];
        proxy_jump = resolve_proxy_jump aliases resolved.proxy_jump;
      }

  unfoldable pub profiles_from : Assoc Block → List Bytes → List Profile
  unfolding profile_of
  profiles_from aliases [] = []
  profiles_from aliases (name ∷ names) = profile_of aliases name ∷ profiles_from aliases names

  -- `importSSHConfig`
  unfoldable pub import_config : ℕ → Bytes → Result ImportError (List Profile)
  unfolding parse_config names_of resolve_all profiles_from
  import_config f path = do
    blocks ← parse_config f path
    let names = names_of blocks []
    ok (profiles_from (resolve_all blocks names) names)

  -- `ImportSSHConfig`
  unfoldable pub import_ssh_config : ℕ → Bytes → Result ImportError (List Profile)
  unfolding import_config
  import_ssh_config f [] = elim fs.home as (λ o. Result ImportError (List Profile)) [
    | none ↦ err no_home
    | some home ↦ import_config f (fs.join_path (fs.join_path home (codes ".ssh")) (codes "config"))
  ]
  import_ssh_config f (c ∷ path) = import_config f (c ∷ path)
