-- ===== src/Profile/Csv.antt =====
-- internal/profile/import_csv.go: connections from a table with a header.
use corv_client.Prelude.{
  ℕ, suc, Bool, false, ◌||◌, List, [], ◌∷◌, ◌++◌, Bytes, codes, Option, none, some, ltb, ◌==◌,
  if◌then◌else◌, is_empty, bytes_eq, get_or,
}
use corv_client.Prelude.Int.{ℤ, pos, negsuc}
use corv_client.Prelude.Result.{Result, ok, err, ◌>>=◌}
use corv_client.Go.Strings.{trim_space, has_prefix, contains}
use corv_client.Go.Strings.Search.{Letters, to_lower, contains_any}
use corv_client.Go.Numbers.{parse_int}
use corv_client.Profile.{Profile}
use corv_client.Profile.Import.{Files, expand_home}

-- `Imported`
pub record Imported : Type 0 where
  pub profile : Profile
  pub password : Bytes
  pub passphrase : Bytes
  pub key_material : Bytes

-- The fields that `csvAliases` names.
pub data Field : Type 0 where
  name : Field
  host : Field
  user : Field
  port : Field
  key : Field
  key_data : Field
  key_type : Field
  password : Field
  passphrase : Field
  jump : Field

abbrev pub key_names : List Bytes
key_names =
    codes "identity_file"
    ∷ (codes "identityfile"
        ∷ (codes "key" ∷ (codes "key_file" ∷ (codes "keyfile" ∷ (codes "key_path" ∷ [])))))

abbrev pub key_data_names : List Bytes
key_data_names =
    codes "key_string"
    ∷ (codes "keystring"
        ∷ (codes "private_key"
            ∷ (codes "privatekey"
                ∷ (codes "key_data"
                    ∷ (codes "keydata"
                        ∷ (codes "public_key" ∷ (codes "publickey" ∷ (codes "pem" ∷ []))))))))

abbrev pub csv_names : List (Field × List Bytes)
csv_names =
    (Field.name, codes "name" ∷ (codes "alias" ∷ []))
    ∷ ((Field.host, codes "host" ∷ (codes "hostname" ∷ (codes "address" ∷ (codes "ip" ∷ []))))
        ∷ ((Field.user, codes "user" ∷ (codes "username" ∷ (codes "login" ∷ [])))
            ∷ ((Field.port, codes "port" ∷ [])
                ∷ ((Field.key, key_names)
                    ∷ ((Field.key_data, key_data_names)
                        ∷ ((Field.key_type, codes "key_type" ∷ (codes "keytype" ∷ []))
                            ∷ ((
                              Field.password,
                              codes "password" ∷ (codes "pass" ∷ (codes "pwd" ∷ [])),
                            )
                                ∷ ((
                                  Field.passphrase,
                                  codes "passphrase" ∷ (codes "key_passphrase" ∷ []),
                                )
                                    ∷ ((
                                      Field.jump,
                                      codes "proxy_jump"
                                          ∷ (codes "proxyjump"
                                              ∷ (codes "jump" ∷ (codes "bastion" ∷ []))),
                                    )
                                        ∷ [])))))))))

is_one_of : Bytes → List Bytes → Bool
unfolding bytes_eq
is_one_of s [] = false
is_one_of s (t ∷ ts) = bytes_eq s t || is_one_of s ts

field_in : Bytes → List (Field × List Bytes) → Option Field
unfolding is_one_of
field_in s [] = none
field_in s ((f, names) ∷ rest) =
    let later = field_in s rest in if is_one_of s names then some f else later

-- `csvAliases[s]`
unfoldable pub csv_alias : Bytes → Option Field
unfolding field_in
csv_alias s = field_in s csv_names

field_number : Field → ℕ
field_number Field.name = 0
field_number Field.host = 1
field_number Field.user = 2
field_number Field.port = 3
field_number Field.key = 4
field_number Field.key_data = 5
field_number Field.key_type = 6
field_number Field.password = 7
field_number Field.passphrase = 8
field_number Field.jump = 9

-- `col`: the column of each field, none for a field without one.
abbrev pub Columns : Type 0
Columns = Field → Option ℕ

abbrev pub no_columns : Columns
no_columns f = none

unfoldable pub set_column : Option Field → ℕ → Columns → Columns
unfolding field_number
set_column none i col = col
set_column (some g) i col = λ f. if field_number g == field_number f then some i else col f

-- `formatKey`
unfoldable pub format_key : ⦃l : Letters⦄ → Bytes → Bytes → Bytes
unfolding trim_space to_lower contains contains_any has_prefix
format_key kind_text text =
    let body = trim_space text in
    let lower = to_lower body in
    let kind = trim_space kind_text in
    if is_empty body
    then []
    else if contains body (codes "BEGIN")
        || contains_any body (32 ∷ (9 ∷ []))
        || has_prefix lower (codes "ssh-")
        || has_prefix lower (codes "ecdsa-")
        || has_prefix lower (codes "sk-")
    then body
    else if is_empty kind
    then body
    else kind ++ 32 ∷ body

-- A port of a row: no text is port 0, anything but 1 to 65535 spoils the row.
abbrev pub row_port_value : Option ℤ → Option ℤ
row_port_value none = none
row_port_value (some (negsuc n)) = none
row_port_value (some (pos n)) = if n == 0 || ltb 65535 n then none else some (pos n)

unfoldable pub row_port : Bytes → Option ℤ
unfolding parse_int
row_port [] = some (pos 0)
row_port (c ∷ text) = row_port_value (parse_int (c ∷ text))

module _ (col : Columns) (row : List Bytes) where
  abbrev cell : Option ℕ → Bytes
  cell none = []
  cell (some i) = get_or row i []

  -- `getSecret`: the cell as it stands; a ragged row has no cell.
  unfoldable pub get_secret : Field → Bytes
  get_secret f = cell (col f)

  -- `get`
  unfoldable pub get : Field → Bytes
  unfolding get_secret trim_space
  get f = trim_space (get_secret f)

-- A row as `csv.Reader.Read` gives it, or its error.
pub data Row : Type 0 where
  cells : List Bytes → Row
  malformed : Bytes → Row

pub data CsvError : Type 0 where
  bad_header : Bytes → CsvError
  no_host_column : List Bytes → CsvError
  bad_row : ℕ → Bytes → CsvError

module _ ⦃l : Letters⦄ ⦃fs : Files⦄ where
  -- The loop over the header; a later column of a field replaces an earlier one.
  unfoldable pub columns_from : ℕ → List Bytes → Columns → Columns
  unfolding set_column csv_alias to_lower trim_space
  columns_from i [] col = col
  columns_from i (h ∷ header) col =
      columns_from (suc i) header (set_column (csv_alias (to_lower (trim_space h))) i col)

  abbrev or_host : Bytes → Bytes → Bytes
  or_host given host_name = if is_empty given then host_name else given

  unfoldable pub imported_row : Columns → List Bytes → ℤ → Imported
  unfolding get get_secret expand_home format_key
  imported_row col row number =
      let host = get col row Field.host in
      let user = get col row Field.user in
      let identity = expand_home (get col row Field.key) in
      record {
        profile = record {
          name = or_host (get col row Field.name) host;
          target = if is_empty user then host else user ++ b'@' ∷ host;
          port = number;
          identity_file = identity;
          secret_ref = [];
          proxy_jump = get col row Field.jump;
        };
        password = get_secret col row Field.password;
        passphrase = get_secret col row Field.passphrase;
        key_material =
            if is_empty identity
            then format_key (get col row Field.key_type) (get col row Field.key_data)
            else [];
      }

  abbrev imported_if : Columns → List Bytes → Option ℤ → Option Imported
  imported_if col row none = none
  imported_if col row (some number) = some (imported_row col row number)

  -- A row without a host, or with a malformed port, is skipped.
  unfoldable pub read_row : Columns → List Bytes → Option Imported
  unfolding get row_port imported_row
  read_row col row =
      if is_empty (get col row Field.host)
      then none
      else imported_if col row (row_port (get col row Field.port))

  abbrev add_imported : Option Imported → List Imported → List Imported
  add_imported none out = out
  add_imported (some i) out = i ∷ out

  unfoldable pub read_rows : ℕ → Columns → List Row → Result CsvError (List Imported)
  unfolding read_row
  read_rows line col [] = ok []
  read_rows line col (malformed e ∷ rows) = err (bad_row (suc line) e)
  read_rows line col (cells row ∷ rows) = do
    out ← read_rows (suc line) col rows
    ok (add_imported (read_row col row) out)

  abbrev with_host : List Bytes → List Row → Columns → Option ℕ → Result CsvError (List Imported)
  with_host header rows col none = err (no_host_column header)
  with_host header rows col (some i) = read_rows 1 col rows

  -- `ImportCSV`, from the rows of the file
  unfoldable pub import_csv : List Row → Result CsvError (List Imported)
  unfolding read_rows columns_from
  import_csv [] = ok []
  import_csv (malformed e ∷ rows) = err (bad_header e)
  import_csv (cells header ∷ rows) =
      let col = columns_from 0 header no_columns in with_host header rows col (col Field.host)
