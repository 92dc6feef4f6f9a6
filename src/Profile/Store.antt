-- ===== src/Profile/Store.antt =====
-- internal/profile/profile.go: the store that keeps the registry in a sealed file.
pub mod Sealed
use corv_client.Prelude.{
  ℕ, suc, Bool, true, false, List, [], ◌∷◌, ◌++◌, Bytes, codes, Option, none, some, if◌then◌else◌,
}
use corv_client.Prelude.Result.{Result, ok, err}
use corv_client.Go.Strings.{trim_space, has_prefix}
use corv_client.Vault.{File, missing, unreadable, content}
use corv_client.Profile.{Registry}

-- `Store` with its file; `calls` counts the calls that write it.
pub record Store : Type 0 where
  pub file : File
  pub calls : ℕ

-- `Sealer`; a call may fail.
pub record Sealer : Type 0 where
  pub seal : ℕ → Bytes → Result Bytes Bytes
  pub open_sealed : Bytes → Result Bytes Bytes

-- The sealer that the store has, if any; writes, which may fail; JSON.
pub record Backing : Type 0 where
  pub sealer : Option Sealer
  pub fault : ℕ → Option Bytes
  pub marshal : Registry → Bytes
  pub unmarshal : Bytes → Option Registry

-- A plain file starts with a brace.
unfoldable pub is_plain : Bytes → Bool
unfolding has_prefix trim_space
is_plain text = has_prefix (trim_space text) (b'{' ∷ [])

module _ ⦃y : Backing⦄ where
  unfoldable pub write : Bytes → Store → Store × Result Bytes (Unit {0})
  write sealed s = elim (y.fault s.calls) [
    | none ↦ (record { file = content sealed; calls = suc s.calls }, ok tt)
    | some e ↦ (record s { calls = suc s.calls }, err e)
  ]

  abbrev pub write_sealed : Result Bytes Bytes → Store → Store × Result Bytes (Unit {0})
  write_sealed (err e) s = (s, err (codes "encrypt config"))
  write_sealed (ok sealed) s = write sealed s

  abbrev pub seal_with : Option Sealer → ℕ → Bytes → Result Bytes Bytes
  seal_with none n text = err (codes "profile store sealer is required")
  seal_with (some z) n text = z.seal n text

  -- `Save`
  unfoldable pub save : Registry → Store → Store × Result Bytes (Unit {0})
  unfolding write
  save reg s = write_sealed (seal_with y.sealer s.calls (y.marshal reg ++ 10 ∷ [])) s

  abbrev pub open_with : Option Sealer → Bytes → Result Bytes Bytes
  open_with none text = err (codes "profile store sealer is required")
  open_with (some z) text = z.open_sealed text

  abbrev pub parsed : Option Registry → Result Bytes Registry
  parsed none = err (codes "read config")
  parsed (some reg) = ok reg

  abbrev pub opened : Result Bytes Bytes → Result Bytes Registry
  opened (err e) = err (codes "encrypted connection store cannot be read")
  opened (ok text) = parsed (y.unmarshal text)

  abbrev pub saved_or : Registry → Store × Result Bytes (Unit {0}) → Store × Result Bytes Registry
  saved_or reg (s, err e) = (s, err e)
  saved_or reg (s, ok u) = (s, ok reg)

  abbrev pub migrated : Bool → Result Bytes Registry → Store → Store × Result Bytes Registry
  migrated migrate (err e) s = (s, err e)
  migrated true (ok reg) s = saved_or reg (save reg s)
  migrated false (ok reg) s = (s, ok reg)

  abbrev pub load_file : Bool → File → Store → Store × Result Bytes Registry
  load_file migrate missing s = (s, ok [])
  load_file migrate (unreadable e) s = (s, err e)
  load_file migrate (content []) s = (s, ok [])
  load_file migrate (content (c ∷ text)) s =
      if is_plain (c ∷ text)
      then migrated migrate (parsed (y.unmarshal (c ∷ text))) s
      else (s, opened (open_with y.sealer (trim_space (c ∷ text))))

  -- `load`: a plain file is sealed on the way, unless the caller only reads.
  unfoldable pub load : Bool → Store → Store × Result Bytes Registry
  unfolding save is_plain trim_space
  load migrate s = load_file migrate s.file s

  -- `Remove`: a file that is missing is no failure.
  unfoldable pub remove : Store → Store × Result Bytes (Unit {0})
  remove s = elim (y.fault s.calls) [
    | none ↦ (record { file = missing; calls = suc s.calls }, ok tt)
    | some e ↦ (record s { calls = suc s.calls }, err e)
  ]
