-- ===== src/Profile.antt =====
-- internal/profile/profile.go: a saved connection, and the store's registry of them.
pub mod Registry
pub mod Store
pub mod Import
pub mod Csv
pub mod Apply
use corv_client.Prelude.{
  ◌≡◌, ℕ, Bool, true, false, ◌&&◌, ◌||◌, not, List, [], ◌∷◌, map, Bytes, codes, Option, none, some,
  ltb, leb, ◌==◌, if◌then◌else◌, is_empty, length,
}
use corv_client.Prelude.Assoc.{Assoc, lookup, delete, put}
use corv_client.Prelude.Int.{ℤ, pos, ltb_ℤ}
use corv_client.Prelude.Result.{Result, ok, err, ◌>>=◌, ◌>>◌, guard}
use corv_client.Go.Strings.{trim_space}
use corv_client.Go.Strings.Search.{contains_any}
use corv_client.Go.Sort.{text_less, sort}

pub record Profile : Type 0 where
  pub name : Bytes
  pub target : Bytes
  pub port : ℤ
  pub identity_file : Bytes
  pub secret_ref : Bytes
  pub proxy_jump : Bytes

-- `Registry`: profiles by name. A nil map is an empty one.
abbrev pub Registry : Type 0
Registry = Assoc Profile

name_start : ℕ → Bool
name_start c =
    (leb b'A' c && leb c b'Z') || (leb b'a' c && leb c b'z') || (leb b'0' c && leb c b'9')

name_char : ℕ → Bool
unfolding name_start
name_char c = name_start c || c == b'_' || c == b'.' || c == b'-'

all_name_chars : Bytes → Bool
unfolding name_char
all_name_chars [] = true
all_name_chars (c ∷ s) = name_char c && all_name_chars s

-- `nameRE`: a letter or digit, then up to 63 more of those, `_`, `.` and `-`
unfoldable pub is_valid_name : Bytes → Bool
unfolding name_start all_name_chars
is_valid_name [] = false
is_valid_name (c ∷ s) = name_start c && all_name_chars s && leb (length s) 63

pub data SetError : Type 0 where
  invalid_name : Bytes → SetError
  target_required : SetError
  target_has_space : SetError
  invalid_port : ℤ → SetError

-- The profile that `Set` stores.
unfoldable pub trimmed : Profile → Profile
trimmed p = record {
  name = trim_space p.name;
  target = trim_space p.target;
  port = p.port;
  identity_file = trim_space p.identity_file;
  secret_ref = trim_space p.secret_ref;
  proxy_jump = trim_space p.proxy_jump;
}

abbrev pub white_space : Bytes
white_space = 13 ∷ (10 ∷ (9 ∷ (32 ∷ [])))

unfoldable pub check_profile : Profile → Result SetError (Unit {0})
unfolding is_valid_name contains_any
check_profile p = do
  guard (invalid_name p.name) (is_valid_name p.name)
  guard target_required (not (is_empty p.target))
  guard target_has_space (not (contains_any p.target white_space))
  guard (invalid_port p.port) (not (ltb_ℤ p.port (pos 0) || ltb_ℤ (pos 65535) p.port))

-- `Registry.Set`; the registry that it changes is its result.
unfoldable pub set_profile : Profile → Registry → Result SetError Registry
unfolding trimmed check_profile
set_profile p reg = check_profile (trimmed p) >> ok (put (trimmed p).name (trimmed p) reg)

-- `Registry.Get`
unfoldable pub get_profile : Bytes → Registry → Option Profile
get_profile name reg = lookup name reg

-- The values of a map
unfoldable pub profiles_of : Registry → List Profile
profiles_of [] = []
profiles_of ((k, p) ∷ reg) = p ∷ profiles_of reg

abbrev pub before : Profile → Profile → Bool
before p q = text_less p.name q.name

-- `Registry.List`
unfoldable pub list_profiles : Registry → List Profile
unfolding profiles_of
list_profiles reg = sort before (profiles_of reg)

-- `Registry.Remove`
unfoldable pub remove_profile : Bytes → Registry → Registry × Bool
remove_profile name reg = elim (lookup name reg) [
  | none ↦ (reg, false)
  | some p ↦ (delete name reg, true)
]
