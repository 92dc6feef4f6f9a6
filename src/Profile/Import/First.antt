-- ===== src/Profile/Import/First.antt =====
-- What the blocks give a host: for each field the first value that is set, over the blocks that match.
use corv_client.Prelude.{
  ◌≡◌, refl, sym, ap, ◌∙◌, List, [], ◌∷◌, Bytes, arith, inl, inr, Bool-cases, if◌then◌else◌,
}
use corv_client.Prelude.Int.{ℤ, pos, negsuc, eq_ℤ}
use corv_client.Go.Strings.Search.{Letters}
use corv_client.Profile.Import.Match.{
  Block, empty_block, host_block_matches, or_text, or_port, fill, resolve_from, resolve_config,
}

-- The first value that is set, for a way to keep one of two.
abbrev pub first_set : {A : Type 0} → (A → A → A) → A → List A → A
first_set or unset [] = unset
first_set or unset (a ∷ rest) = or a (first_set or unset rest)

abbrev pub first_text : List Bytes → Bytes
first_text = first_set or_text []

abbrev pub first_port : List ℤ → ℤ
first_port = first_set or_port (pos 0)

or_text_unset : (a : Bytes) → or_text a [] ≡ a
or_text_unset [] = refl
or_text_unset (x ∷ a) = refl

or_text_assoc : (a b c : Bytes) → or_text (or_text a b) c ≡ or_text a (or_text b c)
or_text_assoc [] b c = refl
or_text_assoc (x ∷ a) b c = refl

or_port_unset : (a : ℤ) → or_port a (pos 0) ≡ a
or_port_unset (pos n) = ground arith
or_port_unset (negsuc n) = ground arith

or_port_assoc : (a b c : ℤ) → or_port (or_port a b) c ≡ or_port a (or_port b c)
or_port_assoc a b c = elim (Bool-cases (eq_ℤ a (pos 0))) [
  | inl e ↦ rw e refl
  | inr e ↦ rw (e, e) refl
]

module _ ⦃l : Letters⦄ where
  -- The values that the blocks for a host have for a field.
  unfoldable pub values : {A : Type 0} → (Block → A) → Bytes → List Block → List A
  values field name [] = []
  values field name (b ∷ blocks) =
      let rest = values field name blocks in
      if host_block_matches name b.aliases then field b ∷ rest else rest

  module _ {A : Type 0} (or : A → A → A) (unset : A) (or_unset : (a : A) → or a unset ≡ a)
      (or_assoc : (a b c : A) → or (or a b) c ≡ or a (or b c)) (field : Block → A)
      (fills : (r b : Block) → field (fill r b) ≡ or (field r) (field b)) where
    resolve_from-field :
        (name : Bytes) (blocks : List Block) (r : Block)
        → field (resolve_from name blocks r)
          ≡ or (field r) (first_set or unset (values field name blocks))
    unfolding resolve_from values
    resolve_from-field name [] r = sym (or_unset (field r))
    resolve_from-field name (b ∷ blocks) r = elim (Bool-cases (host_block_matches name b.aliases)) [
      | inl e ↦ rw e (
          resolve_from-field name blocks (fill r b)
          ∙ ap (λ x. or x (first_set or unset (values field name blocks))) (fills r b)
          ∙ or_assoc (field r) (field b) (first_set or unset (values field name blocks)))
      | inr e ↦ rw e (resolve_from-field name blocks r)
    ]

  -- A block has for each field the first value of the blocks that match the name.
  pub record IsFirst (name : Bytes) (blocks : List Block) (r : Block) : Type 0 where
    pub host_name : r.host_name ≡ first_text (values (λ b. b.host_name) name blocks)
    pub user : r.user ≡ first_text (values (λ b. b.user) name blocks)
    pub port : r.port ≡ first_port (values (λ b. b.port) name blocks)
    pub identity : r.identity ≡ first_text (values (λ b. b.identity) name blocks)
    pub proxy_jump : r.proxy_jump ≡ first_text (values (λ b. b.proxy_jump) name blocks)

  -- `resolveSSHConfig` gives a host, for each of the five settings, the first value that is set in the
  -- blocks whose patterns match the host, in the order of the file; and no value if there is none.
  pub resolve_config-IsFirst :
      (name : Bytes) (blocks : List Block) → IsFirst name blocks (resolve_config name blocks)
  unfolding resolve_config
  resolve_config-IsFirst name blocks =
      let text = resolve_from-field or_text [] or_text_unset or_text_assoc in
      record {
        host_name =
            text (λ b. b.host_name) (λ r b. unfold fill in refl) name blocks (empty_block []);
        user = text (λ b. b.user) (λ r b. unfold fill in refl) name blocks (empty_block []);
        port =
            resolve_from-field or_port (pos 0) or_port_unset or_port_assoc (λ b. b.port)
              (λ r b. unfold fill in refl) name blocks (empty_block []);
        identity = text (λ b. b.identity) (λ r b. unfold fill in refl) name blocks (empty_block []);
        proxy_jump =
            text (λ b. b.proxy_jump) (λ r b. unfold fill in refl) name blocks (empty_block []);
      }
