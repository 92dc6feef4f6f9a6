-- ===== src/Tests/Profile.antt =====
-- The theorems on profiles, their import and jump hosts at concrete inputs.
use Prim.{absurd}
use corv_client.Prelude.{
  ◌≡◌, ◌≢◌, refl, true, [], ◌∷◌, ◌++◌, Bytes, codes, Option, none, some, arith, List, All, bytes_eq,
  bytes_eq_iff, if◌then◌else◌,
}
use corv_client.Prelude.Assoc.{Assoc, lookup, put, delete}
use corv_client.Prelude.Int.{pos}
use corv_client.Prelude.Result.{ok, err}
use corv_client.Go.Strings.{elem, trim_space}
use corv_client.Go.Strings.Search.{Letters, contains_any, last_index, count_byte, cut, trim}
use corv_client.Profile.{Profile, Registry, trimmed, check_profile, is_valid_name, set_profile}
use corv_client.Profile.Registry.{IsSound, IsSetBy, set_profile-IsSetBy}
use corv_client.Profile.Import.{Files, nested_too_deep}
use corv_client.Profile.Import.Match.{Block, resolve_config}
use corv_client.Profile.Import.Jump.{parse_import_jump, format_jump, resolve_jump_host}
use corv_client.Profile.Import.Agree.{
  hop_of_import, hop_of_transport, parse_import_jump-eq-parse_jump_host,
}
use corv_client.Profile.Import.RoundTrip.{parse_jump_host-format_jump}
use corv_client.Profile.Import.Chain.{filled, parse_jump_host-resolve_jump_host}
use corv_client.Profile.Import.First.{IsFirst, resolve_config-IsFirst}
use corv_client.Profile.Import.Config.{parse_config, import_config}
use corv_client.Profile.Import.Ends.{parse_config_ends}
use corv_client.Profile.Import.Names.{Distinct, names, IsImported, import_config-IsImported}
use corv_client.Ssh.Jump.{JumpHost, hop, parse_jump_host, parse_host_port, read_plain}
use corv_client.Ssh.Enrich.{SecretFunc, AreFilled, enrich_jump_chain, enrich_jump_chain-AreFilled}

instance abbrev test_letters : Letters
test_letters = record { lower_text = λ s. s }

abbrev web : Profile
web = record {
  name = codes " web ";
  target = codes "ann@web.example";
  port = pos 2222;
  identity_file = [];
  secret_ref = [];
  proxy_jump = [];
}

empty-IsSound : IsSound []
unfolding lookup
empty-IsSound = record { unique = tt; valid = λ name p h. absurd (none-ne_some h) }
  where
    none-ne_some : {p : Profile} → none ≡ some p → ⊥
    none-ne_some h = cc h

abbrev web_registry : Registry
web_registry = (codes "web", record web { name = codes "web" }) ∷ []

web_is_set : set_profile web [] ≡ ok web_registry
unfolding set_profile trimmed check_profile is_valid_name put delete trim_space contains_any
web_is_set = refl

set_profile-IsSetBy_example : IsSetBy web [] web_registry
set_profile-IsSetBy_example = set_profile-IsSetBy web [] empty-IsSound web_is_set

parse_import_jump-eq-parse_jump_host_example :
    hop_of_import (parse_import_jump (codes "ann@[::1]:22"))
    ≡ hop_of_transport (parse_jump_host (codes "ann@[::1]:22"))
parse_import_jump-eq-parse_jump_host_example =
    parse_import_jump-eq-parse_jump_host (codes "ann@[::1]:22")

parse_jump_host-format_jump_example :
    parse_jump_host (format_jump (codes "a@b") (codes "::1") (pos 22))
    ≡ ok (hop (codes "a@b") (codes "::1", pos 22))
parse_jump_host-format_jump_example =
    parse_jump_host-format_jump (codes "a@b") (codes "::1") 22 (omega arith) refl (omega arith)

abbrev gate : Block
gate = record {
  aliases = [];
  host_name = codes "10.0.0.1";
  user = codes "ops";
  port = pos 2200;
  identity = [];
  proxy_jump = [];
}

abbrev gate_hop : JumpHost
gate_hop = hop [] (codes "gate", pos 0)

gate_is_read : parse_jump_host (codes "gate") ≡ ok gate_hop
unfolding parse_jump_host parse_host_port read_plain last_index count_byte cut
gate_is_read = refl

abbrev gate_aliases : Assoc Block
gate_aliases = (codes "gate", gate) ∷ []

gate_is_alias : lookup (codes "gate") gate_aliases ≡ some gate
unfolding lookup bytes_eq
gate_is_alias = refl

parse_jump_host-resolve_jump_host_example :
    parse_jump_host (resolve_jump_host gate_aliases (codes "gate")) ≡ ok (filled gate_hop gate)
parse_jump_host-resolve_jump_host_example =
    parse_jump_host-resolve_jump_host gate_aliases (codes "gate") gate_hop gate gate_is_read
      gate_is_alias
      record { host_bytes = omega arith; some_host = refl; port = (2200, refl, omega arith) }

abbrev any_host : Block
any_host = record gate { aliases = codes "*" ∷ []; host_name = [] }

resolve_config-IsFirst_example :
    IsFirst (codes "web") (any_host ∷ []) (resolve_config (codes "web") (any_host ∷ []))
resolve_config-IsFirst_example = resolve_config-IsFirst (codes "web") (any_host ∷ [])

abbrev config_text : Bytes
config_text = codes "Host web" ++ 10 ∷ (codes "User=ann" ++ 10 ∷ codes "Include config")

abbrev read_config : Bytes → Option Bytes
read_config path = if bytes_eq path (codes "config") then some config_text else none

-- One file, which includes itself.
instance abbrev test_files : Files
test_files = record {
  home = none;
  abs = λ p. none;
  is_abs = λ p. true;
  dir = λ p. [];
  join_path = λ p q. p ++ q;
  glob = λ p. p ∷ [];
  read = read_config;
}

config_is_known : (path : Bytes) → read_config path ≢ none → elem path (codes "config" ∷ []) ≡ true
unfolding elem
config_is_known path h =
    ground (arith, bytes_eq_iff path (codes "config"), bytes_eq_iff (codes "config") path)

parse_config_ends_example : parse_config 2 (codes "config") ≢ err nested_too_deep
parse_config_ends_example =
    parse_config_ends (codes "config" ∷ []) config_is_known 2 (codes "config") (omega arith)

abbrev web_profile : Profile
web_profile = record {
  name = codes "web";
  target = codes "ann@web";
  port = pos 0;
  identity_file = [];
  secret_ref = [];
  proxy_jump = [];
}

web_is_imported : import_config 2 (codes "config") ≡ ok (web_profile ∷ [])
unfolding import_config trim
web_is_imported = refl

import_config-IsImported_example :
    (blocks : List Block) × (parse_config 2 (codes "config") ≡ ok blocks)
    × Distinct (names (web_profile ∷ []))
    × All (IsImported blocks) (web_profile ∷ [])
import_config-IsImported_example =
    import_config-IsImported 2 (codes "config") (web_profile ∷ []) web_is_imported

abbrev test_secrets : Option (SecretFunc Bytes)
test_secrets = some (λ ref. ok (codes "pw", []))

abbrev enriched_hop : JumpHost
enriched_hop = record (hop (codes "ann") (codes "web.example", pos 2222)) { password = [] }

hop_is_enriched :
    enrich_jump_chain test_secrets web_registry (hop [] (codes "web", pos 0) ∷ [])
    ≡ ok (enriched_hop ∷ [])
unfolding enrich_jump_chain lookup bytes_eq
hop_is_enriched = refl

enrich_jump_chain-AreFilled_example :
    AreFilled web_registry (hop [] (codes "web", pos 0) ∷ []) (enriched_hop ∷ [])
enrich_jump_chain-AreFilled_example =
    enrich_jump_chain-AreFilled test_secrets web_registry (hop [] (codes "web", pos 0) ∷ [])
      (enriched_hop ∷ []) hop_is_enriched
