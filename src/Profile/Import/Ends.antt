-- ===== src/Profile/Import/Ends.antt =====
-- internal/profile/import.go: the fuel for configurations that include one another.
use corv_client.Prelude.{
  ℕ, zero, suc, ◌≤◌, ◌<◌, ◌≡◌, ◌≢◌, refl, ap, ◌∙◌, true, false, ◌||◌, List, [], ◌∷◌, Bytes, none,
  arith, inl, inr, Bool-cases, Option-cases, if◌then◌else◌, is_empty, length, bytes_eq, bytes_eq→eq,
  bytes_eq_self, ltb, codes,
}
use corv_client.Prelude.Result.{Result, ok, err, ◌>>=◌}
use corv_client.Go.Strings.{elem, has_prefix, trim_space, fields}
use corv_client.Go.Strings.Search.{Letters, to_lower}
use corv_client.Profile.Import.{
  Files, ImportError, no_home, cannot_open, line_too_long, nested_too_deep, Parser, flush, absolute,
  split_config_line, include_matches, set_field, parse_matches, parse_includes, parse_keyword,
  parse_line, parse_lines,
}
use corv_client.Profile.Import.Config.{
  lines_of, remove_path, leave_file, parse_file, empty_parser, parse_config,
}

-- The reader did not run out of fuel, and left the files that are being read as they were.
abbrev pub Ends : Parser → Result ImportError Parser → Type 0
Ends p (ok p') = p'.active ≡ p.active
Ends p (err nested_too_deep) = ⊥
Ends p (err no_home) = Unit
Ends p (err (cannot_open path)) = Unit
Ends p (err line_too_long) = Unit

Ends-bind :
    (p p' : Parser) (m : Result ImportError Parser) (next : Parser → Result ImportError Parser)
    → Ends p' m
    → ((q : Parser) → q.active ≡ p'.active → Ends p (next q))
    → Ends p (m >>= next)
Ends-bind p p' (ok q) next h k = k q h
Ends-bind p p' (err nested_too_deep) next h k = h
Ends-bind p p' (err no_home) next h k = tt
Ends-bind p p' (err (cannot_open path)) next h k = tt
Ends-bind p p' (err line_too_long) next h k = tt

Ends-trans :
    (p q : Parser) (m : Result ImportError Parser) → q.active ≡ p.active → Ends q m → Ends p m
Ends-trans p q (ok r) e h = h ∙ e
Ends-trans p q (err nested_too_deep) e h = h
Ends-trans p q (err no_home) e h = tt
Ends-trans p q (err (cannot_open path)) e h = tt
Ends-trans p q (err line_too_long) e h = tt

-- The files of a list that are not being read.
unfoldable pub unread : List Bytes → List Bytes → ℕ
unfolding elem
unread [] active = 0
unread (x ∷ known) active = let n = unread known active in if elem x active then n else suc n

unread-le :
    (known active : List Bytes) (path : Bytes) → unread known (path ∷ active) ≤ unread known active
unfolding unread elem
unread-le [] active path = omega arith
unread-le (x ∷ known) active path = ground (arith, unread-le known active path)

unread-lt :
    (known active : List Bytes) (path : Bytes)
    → elem path known ≡ true
    → elem path active ≡ false
    → unread known (path ∷ active) < unread known active
unfolding unread elem
unread-lt [] active path h k = cc
unread-lt (x ∷ known) active path h k = elim (Bool-cases (bytes_eq x path)) [
  | inl e ↦
      let same : x ≡ path = bytes_eq→eq x path e in
      let new : elem x active ≡ false = ap (λ y. elem y active) same ∙ k in
      let back : bytes_eq path x ≡ true = ap (bytes_eq path) same ∙ bytes_eq_self path in
      rw (new, back) (ground (arith, unread-le known active path))
  | inr e ↦ ground (arith, unread-lt known active path)
]

unread-le-length : (known active : List Bytes) → unread known active ≤ length known
unfolding unread
unread-le-length [] active = omega arith
unread-le-length (x ∷ known) active = ground (arith, unread-le-length known active)

remove_path-absent :
    (path : Bytes) (xs : List Bytes) → elem path xs ≡ false → remove_path path xs ≡ xs
unfolding remove_path elem
remove_path-absent path [] h = refl
remove_path-absent path (x ∷ xs) h = ground (arith, remove_path-absent path xs)

remove_path_self :
    (path : Bytes) (xs : List Bytes) → elem path xs ≡ false → remove_path path (path ∷ xs) ≡ xs
unfolding remove_path
remove_path_self path xs h = rw (bytes_eq_self path) (remove_path-absent path xs h)

module _ ⦃l : Letters⦄ ⦃fs : Files⦄ where
  set_field-active : (key value : Bytes) (p : Parser) → (set_field key value p).active ≡ p.active
  unfolding set_field
  set_field-active key value p = ground arith

  module _ (active : List Bytes) (parse : Bytes → Parser → Result ImportError Parser)
      (ends : (m : Bytes) (q : Parser) → q.active ≡ active → Ends q (parse m q)) where
    Ends-parse_matches :
        (ms : List Bytes) (p : Parser) → p.active ≡ active → Ends p (parse_matches parse ms p)
    unfolding parse_matches
    Ends-parse_matches [] p e = refl
    Ends-parse_matches (m ∷ ms) p e =
        Ends-bind p p (parse m p) _ (ends m p e)
          λ q k. Ends-trans p q _ k (Ends-parse_matches ms q (k ∙ e))

    Ends-parse_includes :
        (base : Bytes) (patterns : List Bytes) (p : Parser)
        → p.active ≡ active
        → Ends p (parse_includes parse base patterns p)
    unfolding parse_includes
    Ends-parse_includes base [] p e = refl
    Ends-parse_includes base (pattern ∷ patterns) p e =
        Ends-bind p p _ _ (Ends-parse_matches (include_matches base pattern) p e)
          λ q k. Ends-trans p q _ k (Ends-parse_includes base patterns q (k ∙ e))

    Ends-parse_keyword :
        (base key value : Bytes) (p : Parser)
        → p.active ≡ active
        → Ends p (parse_keyword parse base key value p)
    unfolding parse_keyword
    Ends-parse_keyword base key value p e = elim (Bool-cases (bytes_eq key (codes "host"))) [
      | inl host ↦ rw host (unfold flush in refl)
      | inr other ↦ elim (Bool-cases (bytes_eq key (codes "include"))) [
        | inl include ↦ rw (other, include) (Ends-parse_includes base (fields value) p e)
        | inr field ↦ rw (other, field) (set_field-active key value p)
      ]
    ]

    Ends-parse_line :
        (base text : Bytes) (p : Parser) → p.active ≡ active → Ends p (parse_line parse base text p)
    unfolding parse_line
    Ends-parse_line base text p e =
        let line = trim_space text in
        elim (Bool-cases (is_empty line || has_prefix line (b'#' ∷ []))) [
          | inl skip ↦ rw skip refl
          | inr more ↦ rw more (
              let (key, value) = split_config_line line in
              Ends-parse_keyword base (to_lower key) value p e)
        ]

    Ends-parse_lines :
        (base : Bytes) (lines : List Bytes) (p : Parser)
        → p.active ≡ active
        → Ends p (parse_lines parse base lines p)
    unfolding parse_lines
    Ends-parse_lines base [] p e = refl
    Ends-parse_lines base (line ∷ lines) p e = elim (Bool-cases (ltb (length line) 65536)) [
      | inl short ↦ rw short (
          Ends-bind p p (parse_line parse base line p) _ (Ends-parse_line base line p e)
            λ q k. Ends-trans p q _ k (Ends-parse_lines base lines q (k ∙ e)))
      | inr long ↦ rw long tt
    ]

  -- What a file was read as, once it is no longer being read.
  Ends-leave_file :
      (file : Bytes) (p q : Parser)
      → elem file p.active ≡ false
      → q.active ≡ file ∷ p.active
      → Ends p (leave_file file q)
  unfolding leave_file
  Ends-leave_file file p q new e = rw e (remove_path_self file p.active new)

  -- The files that can be opened are among the known ones.
  module _ (known : List Bytes)
      (opens : (path : Bytes) → fs.read path ≢ none → elem path known ≡ true) where
    Ends-parse_file :
        (f : ℕ) (path : Bytes) (p : Parser)
        → unread known p.active < f
        → Ends p (parse_file f path p)
    unfolding parse_file
    Ends-parse_file zero path p h = absurd (omega arith)
    Ends-parse_file (suc f) path p h = elim (Bool-cases (elem (absolute path) p.active)) [
      | inl open_file ↦ rw open_file refl
      | inr new ↦ rw new (elim (Option-cases (fs.read (absolute path))) [
        | inl missing ↦ rw missing tt
        | inr (content, found) ↦ rw found (
            let file = absolute path in
            let inside = record p { active = file ∷ p.active } in
            let reads = opens file (λ e. cc (found, e)) in
            let fewer = unread-lt known p.active file reads new in
            Ends-bind p inside _ (leave_file file)
              (Ends-parse_lines (file ∷ p.active) (parse_file f)
                (λ m q e. Ends-parse_file f m q (rw e (omega arith))) (fs.dir file)
                (lines_of content) inside refl)
              (λ q e. Ends-leave_file file p q new e))
      ])
    ]

    err-of_ok :
        {A : Type 0} (f : Parser → A) {e : ImportError} (m : Result ImportError Parser)
        → (m >>= (λ p. ok (f p))) ≡ err e
        → m ≡ err e
    err-of_ok f (ok p) h = cc h
    err-of_ok f (err e) h = cc h

    never_too_deep :
        (p : Parser) (r : Result ImportError Parser) → Ends p r → r ≢ err nested_too_deep
    never_too_deep p (ok q) h = λ e. cc e
    never_too_deep p (err nested_too_deep) h = absurd h
    never_too_deep p (err no_home) h = λ e. cc e
    never_too_deep p (err (cannot_open path)) h = λ e. cc e
    never_too_deep p (err line_too_long) h = λ e. cc e

    -- If every file that can be opened is one of the known ones, reading a configuration with more fuel
    -- than there are known files ends: with its blocks, or with an error that the code has. However the
    -- files include one another, the fuel does not run out.
    pub parse_config_ends :
        (f : ℕ) (path : Bytes) → length known < f → parse_config f path ≢ err nested_too_deep
    unfolding parse_config
    parse_config_ends f path h e =
        let ends = Ends-parse_file f path empty_parser (omega (arith, unread-le-length known [])) in
        never_too_deep empty_parser _ ends (err-of_ok _ (parse_file f path empty_parser) e)
