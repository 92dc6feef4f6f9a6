-- ===== src/Profile/Import/Names.antt =====
-- internal/profile/import.go: the names of the profiles that an import makes.
use corv_client.Prelude.{
  ◌≡◌, refl, ap, ◌∙◌, true, false, not, ◌&&◌, ◌||◌, List, [], ◌∷◌, ◌++◌, Bytes, ℕ, arith, All,
  All-append, inl, inr, some, Bool-cases, bytes_eq, bytes_eq→eq, bytes_eq_self, bytes_eq_iff, subst,
}
use corv_client.Prelude.Assoc.{Assoc, lookup, lookup-put}
use corv_client.Prelude.Result.{ok, >>=-eq-ok}
use corv_client.Go.Strings.{elem}
use corv_client.Go.Strings.Search.{Letters}
use corv_client.Profile.{Profile}
use corv_client.Profile.Import.{Files}
use corv_client.Profile.Import.Match.{Block, or_text, resolve_config}
use corv_client.Profile.Import.Config.{
  parse_config, is_concrete, add_names, names_of, resolve_all, target_of, profile_of, profiles_from,
  import_config,
}

-- No text stands twice.
abbrev pub Distinct : List Bytes → Type 0
Distinct [] = Unit
Distinct (x ∷ xs) = (elem x xs ≡ false) × Distinct xs

elem-append :
    (t : Bytes) (xs : List Bytes) (a : Bytes) → elem t (xs ++ a ∷ []) ≡ elem t xs || bytes_eq a t
unfolding elem
elem-append t [] a = ground arith
elem-append t (x ∷ xs) a = ground (arith, elem-append t xs a)

append-Distinct :
    (xs : List Bytes) (a : Bytes) → Distinct xs → elem a xs ≡ false → Distinct (xs ++ a ∷ [])
append-Distinct [] a d new = (unfold elem in refl, tt)
append-Distinct (x ∷ xs) a (first, d) new =
    let apart : (bytes_eq x a ≡ false) × (elem a xs ≡ false) =
      unfold elem in (ground arith, ground arith) in
    (
      ground (arith, elem-append x xs a, bytes_eq_iff x a, bytes_eq_iff a x),
      append-Distinct xs a d apart.1,
    )

module _ ⦃l : Letters⦄ ⦃fs : Files⦄ where
  abbrev AreNames : List Bytes → Type 0
  AreNames names = Distinct names × All (λ n. is_concrete n ≡ true) names

  add_names-AreNames :
      (aliases names : List Bytes) → AreNames names → AreNames (add_names aliases names)
  unfolding add_names
  add_names-AreNames [] names h = h
  add_names-AreNames (a ∷ aliases) names (d, c) =
      elim (Bool-cases (is_concrete a && not (elem a names))) [
        | inl new ↦ rw new (
            add_names-AreNames aliases (names ++ a ∷ []) (
              append-Distinct names a d (ground arith),
              All-append (λ n. is_concrete n ≡ true) names (a ∷ []) c (ground arith, tt),
            ))
        | inr old ↦ rw old (add_names-AreNames aliases names (d, c))
      ]

  names_of-AreNames :
      (blocks : List Block) (names : List Bytes) → AreNames names → AreNames (names_of blocks names)
  unfolding names_of
  names_of-AreNames [] names h = h
  names_of-AreNames (b ∷ blocks) names h =
      names_of-AreNames blocks (add_names b.aliases names) (add_names-AreNames b.aliases names h)

  lookup-resolve_all :
      (blocks : List Block) (names : List Bytes) (name : Bytes)
      → elem name names ≡ true
      → lookup name (resolve_all blocks names) ≡ some (resolve_config name blocks)
  unfolding resolve_all elem
  lookup-resolve_all blocks [] name h = cc
  lookup-resolve_all blocks (n ∷ names) name h = elim (Bool-cases (bytes_eq n name)) [
    | inl e ↦
        lookup-put n name (resolve_config n blocks) (resolve_all blocks names)
        ∙ rw e (ap (λ x. some (resolve_config x blocks)) (bytes_eq→eq n name e))
    | inr e ↦
        lookup-put n name (resolve_config n blocks) (resolve_all blocks names)
        ∙ rw e (lookup-resolve_all blocks names name (ground arith))
  ]

  -- A profile that says of its name what the blocks say of it.
  pub record IsImported (blocks : List Block) (p : Profile) : Type 0 where
    pub concrete : is_concrete p.name ≡ true
    pub target :
        p.target
        ≡ target_of
            (resolve_config p.name blocks).user
            (or_text (resolve_config p.name blocks).host_name p.name)
    pub port : p.port ≡ (resolve_config p.name blocks).port
    pub identity : p.identity_file ≡ (resolve_config p.name blocks).identity
    pub no_secret : p.secret_ref ≡ []

  abbrev pub names : List Profile → List Bytes
  names [] = []
  names (p ∷ ps) = p.name ∷ names ps

  names-profiles_from :
      (aliases : Assoc Block) (ns : List Bytes) → names (profiles_from aliases ns) ≡ ns
  unfolding profiles_from profile_of
  names-profiles_from aliases [] = refl
  names-profiles_from aliases (n ∷ ns) =
      ap (λ (xs : List Bytes). n ∷ xs) (names-profiles_from aliases ns)

  all_elem :
      (xs ys : List Bytes)
      → ((n : Bytes) → elem n xs ≡ true → elem n ys ≡ true)
      → All (λ n. elem n ys ≡ true) xs
  all_elem [] ys h = tt
  all_elem (x ∷ xs) ys h = (
    h x (unfold elem in rw (bytes_eq_self x) refl),
    all_elem xs ys (λ n e. h n (unfold elem in ground arith)),
  )

  profile_of-IsImported :
      (blocks : List Block) (ns : List Bytes) (name : Bytes)
      → is_concrete name ≡ true
      → elem name ns ≡ true
      → IsImported blocks (profile_of (resolve_all blocks ns) name)
  unfolding profile_of
  profile_of-IsImported blocks ns name c h =
      let found = lookup-resolve_all blocks ns name h in
      record {
        concrete = c;
        target = rw found refl;
        port = rw found refl;
        identity = rw found refl;
        no_secret = refl;
      }

  profiles_from-All :
      (blocks : List Block) (ns xs : List Bytes)
      → All (λ n. is_concrete n ≡ true) xs
      → All (λ n. elem n ns ≡ true) xs
      → All (IsImported blocks) (profiles_from (resolve_all blocks ns) xs)
  unfolding profiles_from
  profiles_from-All blocks ns [] c h = tt
  profiles_from-All blocks ns (x ∷ xs) (cx, c) (hx, h) =
      (profile_of-IsImported blocks ns x cx hx, profiles_from-All blocks ns xs c h)

  -- When an import succeeds, its configuration was read into some blocks; no two of its profiles have
  -- the same name, and each of them is named like a host, without a wildcard or a negation, and has the
  -- user, host, port and identity file that `resolveSSHConfig` finds for that name in those blocks
  -- (the host is the name itself if they give none), and no stored secret.
  pub import_config-IsImported :
      (f : ℕ) (path : Bytes) (ps : List Profile)
      → import_config f path ≡ ok ps
      → (blocks : List Block) × (parse_config f path ≡ ok blocks)
        × Distinct (names ps)
        × All (IsImported blocks) ps
  unfolding import_config
  import_config-IsImported f path ps h =
      let (blocks, parsed, made) = >>=-eq-ok (parse_config f path) _ h in
      let ns = names_of blocks [] in
      let (d, c) = names_of-AreNames blocks [] (tt, tt) in
      let out : profiles_from (resolve_all blocks ns) ns ≡ ps = cc made in
      (
        blocks,
        parsed,
        subst (λ qs. Distinct (names qs)) out
            (rw (names-profiles_from (resolve_all blocks ns) ns) d),
        subst (All (IsImported blocks)) out
            (profiles_from-All blocks ns ns c (all_elem ns ns (λ n e. e))),
      )
