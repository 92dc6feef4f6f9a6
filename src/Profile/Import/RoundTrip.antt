-- ===== src/Profile/Import/RoundTrip.antt =====
-- internal/profile/import.go: `formatJump`, and what the transport reads of it.
use corv_client.Prelude.{
  take-length, ℕ, zero, suc, ◌+◌, ◌-◌, ◌≤◌, ◌<◌, ◌≡◌, ◌≢◌, refl, sym, ap, ◌∙◌, true, false, [], ◌∷◌,
  ◌++◌, append-nil, append_assoc, Bytes, some, arith, All, All-append, ◌==◌, is_empty, drop, length,
  inl, inr, Bool-cases,
}
use corv_client.Prelude.Int.{pos}
use corv_client.Prelude.Result.{ok, err}
use corv_client.Go.Strings.{has_prefix}
use corv_client.Go.Strings.Search.{
  count_byte, has_byte, last_index-none, last_index-append, count_byte-zero, count_byte-append,
  cut-append, index_byte-append,
}
use corv_client.Go.Numbers.{parse_int, decimal}
use corv_client.Go.Numbers.Decimal.{parse_int-decimal, decimal-All}
use corv_client.Ssh.Jump.{
  JumpError, parse_port, bracket_rest, read_bracketed, read_cut, read_plain, parse_host_port, hop,
  hop_of, parse_jump_host,
}
use corv_client.Profile.Import.Jump.{bracketed, with_user, at_port, format_jump}

-- No byte of a host name that the syntax of jump hosts uses, but the colon of an IPv6 address.
abbrev pub IsHostByte : ℕ → Type 0
IsHostByte c = (c ≢ b'@') × (c ≢ b'[') × (c ≢ b']')

abbrev port_text : ℕ → Bytes
port_text zero = []
port_text (suc n) = b':' ∷ decimal (suc n)

at_port-eq-append : (n : ℕ) (s : Bytes) → at_port (pos n) s ≡ s ++ port_text n
at_port-eq-append zero s = sym (append-nil s)
at_port-eq-append (suc n) s = refl

drop_past : (c : ℕ) (p s : Bytes) → drop (length p + 1) (p ++ c ∷ s) ≡ s
drop_past c p s = let e : length p + 1 ≡ suc (length p) = omega arith in rw e (drop_suc p s)
  where
    drop_suc : (p s : Bytes) → drop (suc (length p)) (p ++ c ∷ s) ≡ s
    drop_suc [] s = refl
    drop_suc (x ∷ p) s = drop_suc p s

parse_port-suc :
    (text : Bytes) (n : ℕ)
    → parse_int text ≡ some (pos (suc n))
    → suc n ≤ 65535
    → parse_port text ≡ ok (pos (suc n))
parse_port-suc [] n e h = unfold parse_int in cc e
parse_port-suc (c ∷ text) n e h = unfold parse_port in rw e (ground arith)

parse_port-decimal : (n : ℕ) → suc n ≤ 65535 → parse_port (decimal (suc n)) ≡ ok (pos (suc n))
parse_port-decimal n h =
    parse_port-suc (decimal (suc n)) n (parse_int-decimal (suc n) (omega arith)) h

bracket_rest-port_text :
    (host : Bytes) (n : ℕ) → n ≤ 65535 → bracket_rest host (port_text n) ≡ ok (host, pos n)
unfolding bracket_rest
bracket_rest-port_text host zero h = refl
bracket_rest-port_text host (suc n) h = rw (parse_port-decimal n h) refl

digit-ne : (c d : ℕ) → 57 < c → d < 10 → b'0' + d ≢ c
digit-ne c d h k = λ e. omega arith

port_text-All : (n : ℕ) → All (λ c. c ≢ b'@') (port_text n)
port_text-All zero = tt
port_text-All (suc n) =
    (λ e. omega arith, decimal-All (λ c. c ≢ b'@') (λ d. digit-ne b'@' d (omega arith)) (suc n))

module _ (host : Bytes) (n : ℕ) (h : n ≤ 65535) where
  read_bracketed-host :
      All (λ c. c ≢ b']') host
      → is_empty host ≡ false
      → parse_host_port (b'[' ∷ (host ++ b']' ∷ port_text n)) ≡ ok (host, pos n)
  unfolding parse_host_port read_bracketed
  read_bracketed-host plain full =
      let at = index_byte-append b']' (b'[' ∷ host) (port_text n) ((λ e. omega arith), plain) in
      let len : suc (length host) - 1 ≡ length host = omega arith in
      rw
        (
          at,
          len,
          take-length host (b']' ∷ port_text n),
          full,
          drop_past b']' (b'[' ∷ host) (port_text n),
        )
        (bracket_rest-port_text host n h)

read_cut-host :
    (spec host : Bytes) (n : ℕ)
    → suc n ≤ 65535
    → is_empty host ≡ false
    → read_cut spec (some (host, decimal (suc n))) ≡ ok (host, pos (suc n))
read_cut-host spec host n h full = rw (full, parse_port-decimal n h) refl

read_plain-host :
    (host : Bytes) (n : ℕ)
    → n ≤ 65535
    → All (λ c. c ≢ b':') host
    → is_empty host ≡ false
    → read_plain (host ++ port_text n) ≡ ok (host, pos n)
unfolding read_plain
read_plain-host host zero h plain full = rw (append-nil host, count_byte-zero b':' host plain) refl
read_plain-host host (suc n) h plain full =
    let digits : count_byte b':' (decimal (suc n)) ≡ 0 =
      count_byte-zero b':' (decimal (suc n))
        (decimal-All (λ c. c ≢ b':') (λ d. digit-ne b':' d (omega arith)) (suc n)) in
    let one : count_byte b':' (b':' ∷ decimal (suc n)) ≡ 1 = unfold count_byte in ap suc digits in
    let whole : count_byte b':' (host ++ b':' ∷ decimal (suc n)) ≡ 1 = omega (
      arith,
      count_byte-append b':' host (b':' ∷ decimal (suc n)),
      count_byte-zero b':' host plain,
    ) in
    rw (whole, cut-append b':' host (decimal (suc n)) plain)
      (read_cut-host (host ++ b':' ∷ decimal (suc n)) host n h full)

has_byte-All : (c : ℕ) (s : Bytes) → has_byte c s ≡ false → All (λ x. x ≢ c) s
unfolding has_byte
has_byte-All c [] h = tt
has_byte-All c (x ∷ s) h = (ground arith, has_byte-All c s (ground arith))

All_host :
    (c : ℕ) (host : Bytes)
    → ((x : ℕ) → IsHostByte x → x ≢ c)
    → All IsHostByte host
    → All (λ x. x ≢ c) host
All_host c [] h hs = tt
All_host c (x ∷ host) h (hx, hs) = (h x hx, All_host c host h hs)

bracketed-colon :
    (host : Bytes)
    → has_byte b':' host ≡ true
    → All IsHostByte host
    → bracketed host ≡ b'[' ∷ (host ++ b']' ∷ [])
unfolding bracketed
bracketed-colon [] e plain = unfold has_byte in cc e
bracketed-colon (x ∷ host) e (hx, plain) =
    let bare : has_prefix (x ∷ host) (b'[' ∷ []) ≡ false = unfold has_prefix in ground arith in
    rw (bracketed, e, bare) refl

bracketed-plain : (host : Bytes) → has_byte b':' host ≡ false → bracketed host ≡ host
unfolding bracketed
bracketed-plain host e = rw (bracketed, e) refl

parse_host_port-plain :
    (host : Bytes) (n : ℕ)
    → n ≤ 65535
    → All IsHostByte host
    → All (λ c. c ≢ b':') host
    → is_empty host ≡ false
    → parse_host_port (host ++ port_text n) ≡ ok (host, pos n)
unfolding parse_host_port
parse_host_port-plain [] n h ok_bytes plain full = cc full
parse_host_port-plain (x ∷ host) n h (hx, ok_bytes) plain full =
    let shut : (x == b'[') ≡ false = ground arith in
    rw (parse_host_port, shut) (read_plain-host (x ∷ host) n h plain full)

parse_host_port-bracketed :
    (host : Bytes) (n : ℕ)
    → n ≤ 65535
    → All IsHostByte host
    → is_empty host ≡ false
    → parse_host_port (bracketed host ++ port_text n) ≡ ok (host, pos n)
parse_host_port-bracketed host n h plain full = elim (Bool-cases (has_byte b':' host)) [
  | inl e ↦
      rw (bracketed-colon host e plain, append_assoc host (b']' ∷ []) (port_text n))
        (read_bracketed-host host n h (All_host b']' host (λ x p. p.2) plain) full)
  | inr e ↦
      rw (bracketed-plain host e)
        (parse_host_port-plain host n h plain (has_byte-All b':' host e) full)
]

bracketed-All : (host : Bytes) → All IsHostByte host → All (λ c. c ≢ b'@') (bracketed host)
bracketed-All host plain =
    let bare = All_host b'@' host (λ x p. p.0) plain in
    elim (Bool-cases (has_byte b':' host)) [
      | inl e ↦ rw (bracketed-colon host e plain) (
        λ k. omega arith,
        All-append (λ c. c ≢ b'@') host (b']' ∷ []) bare (λ k. omega arith, tt),
      )
      | inr e ↦ rw (bracketed-plain host e) bare
    ]

-- A user is what stands before the last `@`.
read_user-append :
    (user host : Bytes)
    → All (λ c. c ≢ b'@') host
    → parse_host_port host ≢ err JumpError.empty_host
    → parse_jump_host (with_user user host) ≡ hop_of user (parse_host_port host)
unfolding parse_jump_host
read_user-append [] [] plain full = absurd (full (unfold parse_host_port in refl))
read_user-append [] (c ∷ host) plain full =
    rw (parse_jump_host, last_index-none b'@' (c ∷ host) plain) refl
read_user-append (u ∷ user) host plain full =
    rw
      (
        parse_jump_host,
        last_index-append b'@' (u ∷ user) host plain,
        take-length (u ∷ user) (b'@' ∷ host),
        drop_past b'@' (u ∷ user) host,
      )
      refl

with_user-append : (user s t : Bytes) → with_user user s ++ t ≡ with_user user (s ++ t)
with_user-append [] s t = refl
with_user-append (u ∷ user) s t = append_assoc (u ∷ user) (b'@' ∷ s) t

-- What `formatJump` writes for a user, a host and a port, `parseJumpHost` reads back, whatever the
-- user's name is. The host is not empty and has no `@` and no bracket; it may have colons. The port is
-- at most 65535.
pub parse_jump_host-format_jump :
    (user host : Bytes) (n : ℕ)
    → All IsHostByte host
    → is_empty host ≡ false
    → n ≤ 65535
    → parse_jump_host (format_jump user host (pos n)) ≡ ok (hop user (host, pos n))
parse_jump_host-format_jump user host n plain full h =
    let read = parse_host_port-bracketed host n h plain full in
    let bare =
      All-append (λ c. c ≢ b'@') (bracketed host) (port_text n) (bracketed-All host plain)
        (port_text-All n) in
    let text : format_jump user host (pos n) ≡ with_user user (bracketed host ++ port_text n) =
      unfold format_jump in
      at_port-eq-append n (with_user user (bracketed host))
      ∙ with_user-append user (bracketed host) (port_text n) in
    rw text (
      read_user-append user (bracketed host ++ port_text n) bare (λ e. cc (e, read))
      ∙ ap (hop_of user) read)
