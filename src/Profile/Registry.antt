-- ===== src/Profile/Registry.antt =====
-- internal/profile/profile.go: the registry's entries, their names and their order.
use corv_client.Prelude.{
  ◌≡◌, refl, true, false, inl, inr, Bytes, none, some, arith, is_empty, bytes_eq, bytes_eq_iff,
  bytes_eq→eq, bytes_eq_self, Option-cases, ◌↔◌, Bool-cases, ◌≢◌, subst,
}
use mathlib.Core.List.{Perm}
use corv_client.Prelude.Assoc.{
  lookup, delete, put, Unique, lookup-put, lookup-put_self, lookup-delete, put-Unique,
  delete-Unique,
}
use corv_client.Prelude.Int.{pos, ltb_ℤ}
use corv_client.Prelude.Result.{ok, >>=-eq-ok}
use corv_client.Go.Strings.Search.{contains_any}
use corv_client.Go.Sort.{IsSorted, sort-IsSorted, sort-perm, text_less_asymm, text_less_trans}
use corv_client.Profile.{
  Profile, Registry, is_valid_name, trimmed, white_space, check_profile, set_profile, get_profile,
  profiles_of, before, list_profiles, remove_profile,
}

-- What `Set` lets in.
pub record IsValid (name : Bytes) (p : Profile) : Type 0 where
  pub own_name : p.name ≡ name
  pub plain_name : is_valid_name p.name ≡ true
  pub some_target : is_empty p.target ≡ false
  pub no_space : contains_any p.target white_space ≡ false
  pub not_negative : ltb_ℤ p.port (pos 0) ≡ false
  pub in_range : ltb_ℤ (pos 65535) p.port ≡ false

check_profile-IsValid : (p : Profile) → check_profile p ≡ ok tt → IsValid p.name p
unfolding check_profile
check_profile-IsValid p h = record {
  own_name = refl;
  plain_name = ground arith;
  some_target = ground arith;
  no_space = ground arith;
  not_negative = ground arith;
  in_range = ground arith;
}

-- Valid profiles under their own names, each name once.
pub record IsSound (reg : Registry) : Type 0 where
  pub unique : Unique reg
  pub valid : (name : Bytes) (p : Profile) → lookup name reg ≡ some p → IsValid name p

pub set_profile-eq-ok :
    (p : Profile) (reg : Registry) {reg' : Registry}
    → set_profile p reg ≡ ok reg'
    → (check_profile (trimmed p) ≡ ok tt) × (reg' ≡ put (trimmed p).name (trimmed p) reg)
unfolding set_profile
set_profile-eq-ok p reg h = let (_, c, e) = >>=-eq-ok (check_profile (trimmed p)) _ h in (c, cc e)

put-IsSound :
    (q : Profile) (reg : Registry) → IsValid q.name q → IsSound reg → IsSound (put q.name q reg)
put-IsSound q reg v s = record {
  unique = put-Unique q.name q reg s.unique;
  valid = λ name r l. elim (Bool-cases (bytes_eq q.name name)) [
    | inl same ↦
        let at : q.name ≡ name = bytes_eq→eq q.name name same in
        let this : some q ≡ some r = ground (arith, lookup-put q.name name q reg) in
        subst (λ x. IsValid name x) (cc this) (subst (λ n. IsValid n q) at v)
    | inr other ↦ s.valid name r (ground (arith, lookup-put q.name name q reg))
  ];
}

delete-IsSound : (name : Bytes) (reg : Registry) → IsSound reg → IsSound (delete name reg)
delete-IsSound name reg s = record {
  unique = delete-Unique name reg s.unique;
  valid = λ n r l. s.valid n r (ground (arith, lookup-delete name n reg));
}

-- What `Set` did: the registry is still sound, and has the trimmed profile, a valid one, under its
-- name and under every other name what it had.
pub record IsSetBy (p : Profile) (reg reg' : Registry) : Type 0 where
  pub sound : IsSound reg'
  pub stored : get_profile (trimmed p).name reg' ≡ some (trimmed p)
  pub others :
      (name : Bytes) → name ≢ (trimmed p).name → get_profile name reg' ≡ get_profile name reg

-- Whenever `Set` succeeds on a sound registry, the new registry is sound, has the trimmed profile
-- under the trimmed name, and is unchanged under every other name.
pub set_profile-IsSetBy :
    (p : Profile) (reg : Registry) {reg' : Registry}
    → IsSound reg
    → set_profile p reg ≡ ok reg'
    → IsSetBy p reg reg'
unfolding get_profile
set_profile-IsSetBy p reg {reg'} s h =
    let (c, e) = set_profile-eq-ok p reg h in
    let q = trimmed p in
    rw e record {
      sound = put-IsSound q reg (check_profile-IsValid q c) s;
      stored = lookup-put_self q.name q reg;
      others = λ name ne. ground (arith, lookup-put q.name name q reg, bytes_eq_iff q.name name);
    }

-- `Remove` keeps the registry sound, says whether it had the name, and takes that name out of it.
pub remove_profile-IsSound :
    (name : Bytes) (reg : Registry)
    → IsSound reg
    → IsSound (remove_profile name reg).0
      × (get_profile name (remove_profile name reg).0 ≡ none)
      × ((remove_profile name reg).1 ≡ false ↔ get_profile name reg ≡ none)
unfolding remove_profile get_profile
remove_profile-IsSound name reg s = elim (Option-cases (lookup name reg)) [
  | inl e ↦ rw (remove_profile, e) (s, e, (λ h. refl, λ h. refl))
  | inr (p, e) ↦
      rw (remove_profile, e)
        (
          delete-IsSound name reg s,
          ground (arith, lookup-delete name name reg, bytes_eq_self name),
          (λ h. cc, λ h. cc),
        )
]

-- `List` has the profiles of the registry, each as often as the registry has it, in ascending order
-- of their names.
list_profiles-IsSorted :
    (reg : Registry)
    → IsSorted before (list_profiles reg) × Perm (list_profiles reg) (profiles_of reg)
unfolding list_profiles
list_profiles-IsSorted reg = (
  sort-IsSorted before (λ p q. text_less_asymm p.name q.name)
      (λ p q r. text_less_trans p.name q.name r.name) (profiles_of reg),
  sort-perm before (profiles_of reg),
)
