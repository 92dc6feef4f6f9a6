-- ===== src/Profile/Store/Sealed.antt =====
-- internal/profile/profile.go: `Load` behind `Save`, and the form of the file.
use corv_client.Prelude.{
  ℕ, suc, ◌≡◌, refl, sym, ap, subst, ◌∙◌, Bool, true, false, [], ◌∷◌, ◌++◌, Bytes, Option, some,
  is_empty, inl, inr, Bool-cases, Option-cases,
}
use corv_client.Prelude.Assoc.{lookup}
use corv_client.Prelude.Result.{Result, ok, err}
use corv_client.Go.Strings.{trim_space}
use corv_client.Vault.{File, missing, unreadable, content}
use corv_client.Vault.Candidates.{Result-cases}
use corv_client.Profile.{Registry}
use corv_client.Profile.Store.{
  Store, Sealer, Backing, is_plain, write, save, open_with, opened, saved_or, load_file, load,
}

-- What a sealer promises: an envelope is not empty, has no white space at its ends and no brace at its
-- start, and opens to what was sealed.
abbrev pub IsSealer : Option Sealer → Type 0
IsSealer o =
    (z : Sealer) (n : ℕ) (text sealed : Bytes)
    → o ≡ some z
    → z.seal n text ≡ ok sealed
    → (is_empty sealed ≡ false)
      × (trim_space sealed ≡ sealed)
      × (is_plain sealed ≡ false)
      × (z.open_sealed sealed ≡ ok text)

-- JSON gives back the entries of a registry.
abbrev pub ReadsBack : Backing → Registry → Type 0
ReadsBack y reg =
    (w : Registry) × (y.unmarshal (y.marshal reg ++ 10 ∷ []) ≡ some w)
    × ((k : Bytes) → lookup k w ≡ lookup k reg)

-- The file is not a plain registry.
abbrev pub IsSealed : File → Type 0
IsSealed missing = Unit
IsSealed (unreadable e) = Unit
IsSealed (content []) = Unit
IsSealed (content (c ∷ text)) = is_plain (c ∷ text) ≡ false

-- The store is sealed, and every load of it gives the entries of that registry and changes nothing.
pub record Gives (y : Backing) (reg : Registry) (s : Store) : Type 0 where
  pub is_sealed : IsSealed s.file
  pub given : Registry
  pub loads : (migrate : Bool) → load ⦃y = y⦄ migrate s ≡ (s, ok given)
  pub entries : (k : Bytes) → lookup k given ≡ lookup k reg

module _ ⦃y : Backing⦄ (envelope : IsSealer y.sealer) where
  Gives-content :
      (reg given : Registry) (sealed text : Bytes) (s : Store) (z : Sealer)
      → s.file ≡ content sealed
      → is_empty sealed ≡ false
      → is_plain sealed ≡ false
      → trim_space sealed ≡ sealed
      → y.sealer ≡ some z
      → z.open_sealed sealed ≡ ok text
      → y.unmarshal text ≡ some given
      → ((k : Bytes) → lookup k given ≡ lookup k reg)
      → Gives y reg s
  unfolding load
  Gives-content reg given [] text s z file full plain trimmed sealer opens json same = cc full
  Gives-content reg given (c ∷ sealed) text s z file full plain trimmed sealer opens json same =
      record {
        is_sealed = subst IsSealed (sym file) plain;
        given = given;
        loads = λ migrate.
            ap (λ (f : File). load_file migrate f s) file
            ∙ rw (plain, trimmed, sealer, opens, json) refl;
        entries = same;
      }

  -- What is saved is loaded again: behind a `Save` that succeeds, the file is sealed, and `Load` and
  -- `LoadReadOnly` give the entries of the registry and change nothing. The sealer keeps its promise,
  -- and JSON gives back the registry.
  load-save :
      (reg : Registry) (s s' : Store) → ReadsBack y reg → save reg s ≡ (s', ok tt) → Gives y reg s'
  unfolding save write
  load-save reg s s' (w, read, same) h =
      let text = y.marshal reg ++ 10 ∷ [] in
      elim (Option-cases y.sealer) [
        | inl e ↦ cc (e, h)
        | inr (z, e) ↦ elim (Result-cases (z.seal s.calls text)) [
          | inl (x, failed) ↦ cc (e, failed, h)
          | inr (sealed, did) ↦ elim (Option-cases (y.fault s.calls)) [
            | inr (x, failed) ↦ cc (e, did, failed, h)
            | inl fine ↦
                let stored : s' ≡ record { file = content sealed; calls = suc s.calls } =
                  cc (e, did, fine, h) in
                let (full, trimmed, plain, opens) = envelope z s.calls text sealed e did in
                Gives-content reg w sealed text s' z (ap (λ (t : Store). t.file) stored) full plain
                  trimmed e opens read same
          ]
        ]
      ]

  -- A load that leaves the store as it is does so again.
  Gives-unchanged :
      (reg : Registry) (s s' : Store)
      → s ≡ s'
      → IsSealed s.file
      → ((migrate : Bool) → load migrate s ≡ (s, ok reg))
      → Gives y reg s'
  Gives-unchanged reg s s' same sealed again =
      subst (Gives y reg) same
        (record { is_sealed = sealed; given = reg; loads = again; entries = λ k. refl })

  Gives-migrated :
      (reg r : Registry) (s s' : Store)
      → ReadsBack y r
      → saved_or r (save r s) ≡ (s', ok reg)
      → Gives y reg s'
  Gives-migrated reg r s s' json h = of_save (save r s) refl h
    where
      of_save :
          (x : Store × Result Bytes (Unit {0}))
          → save r s ≡ x
          → saved_or r x ≡ (s', ok reg)
          → Gives y reg s'
      of_save (s1, err e) did k = cc k
      of_save (s1, ok u) did k =
          let same : s1 ≡ s' = cc k in
          let this : r ≡ reg = cc k in
          subst (λ (q : Registry). Gives y q s') this
            (subst (Gives y r) same (load-save r s s1 json did))

  -- A file that was loaded is sealed: behind a `Load` that succeeds, the file is not plain, even if it
  -- was before, and each further `Load` or `LoadReadOnly` gives the same entries and changes nothing.
  -- The sealer keeps its promise, and JSON gives back the registry of a plain file.
  pub load-load :
      (reg : Registry) (s s' : Store)
      → ((text : Bytes) (r : Registry)
          → s.file ≡ content text
          → y.unmarshal text ≡ some r
          → ReadsBack y r)
      → load true s ≡ (s', ok reg)
      → Gives y reg s'
  unfolding load
  load-load reg s s' json h = of_file s.file refl (h_of s.file refl)
    where
      h_of : (f : File) → s.file ≡ f → load_file true f s ≡ (s', ok reg)
      h_of f e = ap (λ (g : File). load_file true g s) (sym e) ∙ h

      again :
          (f : File)
          → s.file ≡ f
          → ((m : Bool) → load_file m f s ≡ (s, ok reg))
          → (m : Bool) → load m s ≡ (s, ok reg)
      again f e k m = ap (λ (g : File). load_file m g s) e ∙ k m

      of_file : (f : File) → s.file ≡ f → load_file true f s ≡ (s', ok reg) → Gives y reg s'
      of_file missing e k =
          let none_there : [] ≡ reg = cc k in
          Gives-unchanged reg s s' (cc k) (subst IsSealed (sym e) tt)
            (again missing e (λ m. ap (λ (r : Registry). (s, ok r)) none_there))
      of_file (unreadable x) e k = cc k
      of_file (content []) e k =
          let none_there : [] ≡ reg = cc k in
          Gives-unchanged reg s s' (cc k) (subst IsSealed (sym e) tt)
            (again (content []) e (λ m. ap (λ (r : Registry). (s, ok r)) none_there))
      of_file (content (c ∷ text)) e k = elim (Bool-cases (is_plain (c ∷ text))) [
        | inr sealed ↦
            let read : opened (open_with y.sealer (trim_space (c ∷ text))) ≡ ok reg =
              cc (sealed, k) in
            Gives-unchanged reg s s' (cc (sealed, k)) (subst IsSealed (sym e) sealed)
              (again (content (c ∷ text)) e (λ m. rw (sealed, read) refl))
        | inl plain ↦ elim (Option-cases (y.unmarshal (c ∷ text))) [
          | inl bad ↦ cc (plain, bad, k)
          | inr (r, good) ↦
              let went : saved_or r (save r s) ≡ (s', ok reg) = cc (plain, good, k) in
              Gives-migrated reg r s s' (json (c ∷ text) r e good) went
        ]
      ]
