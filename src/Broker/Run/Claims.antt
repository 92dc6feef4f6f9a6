-- ===== src/Broker/Run/Claims.antt =====
-- internal/broker/server.go: `jobForRequest`, the job that serves a request against the request.
use corv_client.Prelude.{
  ◌⊎◌, inl, inr, Bool-cases, not, ◌≡◌, refl, sym, ap, ◌∙◌, Bool, true, false, Bytes, Option, none,
  some, if◌then◌else◌, ℕ, bytes_eq, bytes_eq→eq, ==-self, arith,
}
use corv_client.Prelude.Assoc.{lookup}
use corv_client.Prelude.Result.{Result, ok, err}
use corv_client.Broker.Errors.{Failure}
use corv_client.Broker.Job.{Job, JobRecord, new_job, record_to_job}
use corv_client.Broker.State.{
  World, Broker, M, ◌>>=◌, pure, gets, ask, job_of, entry_of, add_job, update,
}
use corv_client.Broker.Keeps.{IsSound}
use corv_client.Broker.Store.{now, persisted_job_by_key}
use corv_client.Broker.Run.{
  Claim, conflicts, adopt, can_adopt, fresh_job, stays, run_key_conflict, needs_finalization,
  make_job, serve, serve_old, serve_new, job_from_entry, job_from_registry, job_from_record,
}

-- A job of the claim; the hashes are compared only where the claim has a run key.
pub record IsClaimed (c : Claim) (j : Job) : Type 0 where
  pub key : j.key ≡ c.key
  pub fingerprint : j.fingerprint ≡ c.fingerprint
  pub hashes :
      (c.keyed ≡ false) ⊎ ((j.command_hash ≡ c.command_hash) × (j.run_key_hash ≡ c.run_key_hash))

IsClaimed-job :
    (c : Claim) (j : Job)
    → j.key ≡ c.key
    → j.fingerprint ≡ c.fingerprint
    → (c.keyed ≡ false) ⊎ ((j.command_hash ≡ c.command_hash) × (j.run_key_hash ≡ c.run_key_hash))
    → IsClaimed c j
IsClaimed-job c j key fingerprint hashes = record {
  key = key;
  fingerprint = fingerprint;
  hashes = hashes;
}

-- Words that are those of the claim.
pub record IsSameRequest (c : Claim) (h k f : Bytes) : Type 0 where
  pub command_hash : h ≡ c.command_hash
  pub run_key_hash : k ≡ c.run_key_hash
  pub fingerprint : f ≡ c.fingerprint

-- What memory has under the key of a claim, or else what the registry has, is of the same request.
abbrev pub Fits : Claim → Broker → Option ℕ → Option JobRecord → Type 0
Fits c s (some b) o =
    IsSameRequest c (s.job_at b).command_hash (s.job_at b).run_key_hash (s.job_at b).fingerprint
Fits c s none (some r) = IsSameRequest c r.command_hash r.run_key_hash r.fingerprint
Fits c s none none = Unit

abbrev pub HasNoClash : ℕ → Claim → Broker → Type 0
HasNoClash e c s = Fits c s (lookup c.key (s.entry_at e).jobs) (lookup c.key s.jobs)

-- A result of `serve` is an error, or the address of a job of the claim: its key, its fingerprint, and
-- its hashes where the claim has a run key.
record IsServed (c : Claim) (p : Result Failure ℕ × Broker) : Type 0 where
  pub key : (a : ℕ) → p.0 ≡ ok a → (p.1.job_at a).key ≡ c.key
  pub fingerprint : (a : ℕ) → p.0 ≡ ok a → (p.1.job_at a).fingerprint ≡ c.fingerprint
  pub command_hash :
      (a : ℕ) → p.0 ≡ ok a → c.keyed ≡ true → (p.1.job_at a).command_hash ≡ c.command_hash
  pub run_key_hash :
      (a : ℕ) → p.0 ≡ ok a → c.keyed ≡ true → (p.1.job_at a).run_key_hash ≡ c.run_key_hash

IsServed-error : (c : Claim) (f : Failure) (s : Broker) → IsServed c (err f, s)
IsServed-error c f s = record {
  key = λ a e. cc;
  fingerprint = λ a e. cc;
  command_hash = λ a e k. cc;
  run_key_hash = λ a e k. cc;
}

ok-inj : (x y : ℕ) → ◌≡◌ {A = Result Failure ℕ} (ok x) (ok y) → x ≡ y
ok-inj x y e = cc

-- A job whose words are those of the claim.
IsServed-job :
    (c : Claim) (a : ℕ) (s : Broker)
    → (s.job_at a).key ≡ c.key
    → (s.job_at a).fingerprint ≡ c.fingerprint
    → (c.keyed ≡ true → (s.job_at a).command_hash ≡ c.command_hash)
    → (c.keyed ≡ true → (s.job_at a).run_key_hash ≡ c.run_key_hash)
    → IsServed c (ok a, s)
IsServed-job c a s k f h r = record {
  key = λ b e. ap (λ x. (s.job_at x).key) (sym (ok-inj a b e)) ∙ k;
  fingerprint = λ b e. ap (λ x. (s.job_at x).fingerprint) (sym (ok-inj a b e)) ∙ f;
  command_hash = λ b e keyed. ap (λ x. (s.job_at x).command_hash) (sym (ok-inj a b e)) ∙ h keyed;
  run_key_hash = λ b e keyed. ap (λ x. (s.job_at x).run_key_hash) (sym (ok-inj a b e)) ∙ r keyed;
}

calm-hashes :
    (c : Claim) (h k f : Bytes)
    → conflicts c h k f ≡ false
    → c.keyed ≡ true
    → (bytes_eq h c.command_hash ≡ true) × (bytes_eq k c.run_key_hash ≡ true)
unfolding conflicts
calm-hashes c h k f calm keyed = (ground arith, ground arith)

calm-fingerprint :
    (c : Claim) (h k f : Bytes)
    → conflicts c h k f ≡ false
    → c.keyed ≡ true
    → bytes_eq f c.fingerprint ≡ true
unfolding conflicts
calm-fingerprint c h k f calm keyed = ground arith

err-ne-ok : {a : ℕ} {f : Failure} → ◌≡◌ {A = Result Failure ℕ} (err f) (ok a) → ⊥
err-ne-ok e = cc e

module _ ⦃w : World⦄ where
  IsServed-serve_new : (e : ℕ) (c : Claim) (s : Broker) → IsServed c (serve_new e c s)
  unfolding serve_new make_job fresh_job new_job add_job now ask gets update pure ◌>>=◌
  IsServed-serve_new e c s =
      IsServed-job c s.job_next (serve_new e c s).1 (rw (==-self s.job_next) refl)
        (rw (==-self s.job_next) refl) (λ k. rw (==-self s.job_next) refl)
        (λ k. rw (==-self s.job_next) refl)

  IsServed-serve_old :
      (e : ℕ) (c : Claim) (b : Bool) (r : JobRecord) (s : Broker) → IsServed c (serve_old e c b r s)
  unfolding serve_old adopt record_to_job add_job now ask gets update pure ◌>>=◌
  IsServed-serve_old e c b r s =
      IsServed-job c s.job_next (serve_old e c b r s).1 (rw (==-self s.job_next) refl)
        (rw (==-self s.job_next) refl) (λ k. rw (==-self s.job_next) refl)
        (λ k. rw (==-self s.job_next) refl)

  IsServed-if :
      (c : Claim) (b : Bool) (m n : M (Result Failure ℕ)) (s : Broker)
      → (b ≡ true → IsServed c (m s))
      → (b ≡ false → IsServed c (n s))
      → IsServed c ((if b then m else n) s)
  IsServed-if c true m n s h k = h refl
  IsServed-if c false m n s h k = k refl

  IsServed-record :
      (e : ℕ) (c : Claim) (o : Option JobRecord) (s : Broker) → IsServed c (job_from_record e c o s)
  unfolding job_from_record pure ◌>>=◌
  IsServed-record e c none s = IsServed-serve_new e c s
  IsServed-record e c (some r) s =
      IsServed-if c (conflicts c r.command_hash r.run_key_hash r.fingerprint) _ _ s
        (λ x. IsServed-error c run_key_conflict s)
        λ calm.
          IsServed-if c (can_adopt c (needs_finalization r s).0 r) _ _ (needs_finalization r s).1
            (λ x. IsServed-serve_old e c _ r _) (λ x. IsServed-serve_new e c _)

  IsServed-registry : (e : ℕ) (c : Claim) (s : Broker) → IsServed c (job_from_registry e c s)
  unfolding job_from_registry persisted_job_by_key gets ◌>>=◌
  IsServed-registry e c s = IsServed-record e c (lookup c.key s.jobs) s

  IsServed-entry :
      (e : ℕ) (c : Claim) (o : Option ℕ) (s : Broker)
      → ((a : ℕ) → o ≡ some a → (s.job_at a).key ≡ c.key)
      → IsServed c (job_from_entry e c o s)
  unfolding job_from_entry job_of gets pure ◌>>=◌
  IsServed-entry e c none s own = IsServed-registry e c s
  IsServed-entry e c (some a) s own =
      let j = s.job_at a in
      IsServed-if c (conflicts c j.command_hash j.run_key_hash j.fingerprint) _ _ s
        (λ x. IsServed-error c run_key_conflict s)
        λ calm.
          IsServed-if c (not (bytes_eq j.fingerprint c.fingerprint)) _ _ s
            (λ x. IsServed-registry e c _)
            λ same.
              IsServed-if c (stays c j) _ _ s
                (λ x.
                  IsServed-job c a s (own a refl)
                    (bytes_eq→eq j.fingerprint c.fingerprint (ground arith))
                    (λ keyed.
                      bytes_eq→eq j.command_hash c.command_hash (calm-hashes c _ _ _ calm keyed).0)
                    (λ keyed.
                      bytes_eq→eq j.run_key_hash c.run_key_hash (calm-hashes c _ _ _ calm keyed).1))
                (λ x. IsServed-registry e c s)

  IsServed-serve : (e : ℕ) (c : Claim) (s : Broker) → IsSound s → IsServed c (serve e c s)
  unfolding serve entry_of gets ◌>>=◌
  IsServed-serve e c s h =
      IsServed-entry e c (lookup c.key (s.entry_at e).jobs) s
        (λ a found. (h.slots e c.key a found).1)

  conflicts-entry :
      (e : ℕ) (c : Claim) (b : ℕ) (s : Broker)
      → conflicts c (s.job_at b).command_hash (s.job_at b).run_key_hash (s.job_at b).fingerprint
        ≡ true
      → (job_from_entry e c (some b) s).0 ≡ err run_key_conflict
  unfolding job_from_entry job_of gets pure ◌>>=◌
  conflicts-entry e c b s h = rw h refl

  conflicts-record :
      (e : ℕ) (c : Claim) (r : JobRecord) (s : Broker)
      → conflicts c r.command_hash r.run_key_hash r.fingerprint ≡ true
      → (job_from_record e c (some r) s).0 ≡ err run_key_conflict
  unfolding job_from_record pure ◌>>=◌
  conflicts-record e c r s h = rw h refl

  -- Words that do not conflict with a claim under a run key are those of the claim.
  unclashed :
      (c : Claim) (h k f : Bytes) (a : ℕ) (x : Result Failure ℕ)
      → c.keyed ≡ true
      → (conflicts c h k f ≡ true → x ≡ err run_key_conflict)
      → x ≡ ok a
      → IsSameRequest c h k f
  unclashed c h k f a x keyed refused served = elim (Bool-cases (conflicts c h k f)) [
    | inl clash ↦ absurd (err-ne-ok (sym (refused clash) ∙ served))
    | inr calm ↦
        let (hash, key_hash) = calm-hashes c h k f calm keyed in
        record {
          command_hash = bytes_eq→eq h c.command_hash hash;
          run_key_hash = bytes_eq→eq k c.run_key_hash key_hash;
          fingerprint = bytes_eq→eq f c.fingerprint (calm-fingerprint c h k f calm keyed);
        }
  ]

  Fits-entry :
      (e : ℕ) (c : Claim) (s : Broker) (a : ℕ) (held : Option ℕ) (recorded : Option JobRecord)
      → c.keyed ≡ true
      → lookup c.key s.jobs ≡ recorded
      → (job_from_entry e c held s).0 ≡ ok a
      → Fits c s held recorded
  unfolding job_from_entry job_from_registry persisted_job_by_key gets ◌>>=◌
  Fits-entry e c s a (some b) o keyed found served =
      unclashed c _ _ _ a _ keyed (conflicts-entry e c b s) served
  Fits-entry e c s a none (some r) keyed found served =
      unclashed c _ _ _ a _ keyed (conflicts-record e c r s)
        (ap (λ (o : Option JobRecord). (job_from_record e c o s).0) (sym found) ∙ served)
  Fits-entry e c s a none none keyed found served = tt

  HasNoClash-serve :
      (e : ℕ) (c : Claim) (s : Broker) (a : ℕ)
      → c.keyed ≡ true
      → (serve e c s).0 ≡ ok a
      → HasNoClash e c s
  unfolding serve entry_of gets ◌>>=◌
  HasNoClash-serve e c s a keyed served =
      Fits-entry e c s a (lookup c.key (s.entry_at e).jobs) (lookup c.key s.jobs) keyed refl served

  -- In a sound state, the job that serves a request is under the request's key and has the
  -- connection's present fingerprint. If the request has a run key, the job is one of the same command
  -- and run key, as their hashes tell, whether it was in memory, in the registry, or is new; and no
  -- other request is under that key: the job that memory has under it, or else the record that the
  -- registry has, is one of the same command, run key and fingerprint.
  pub serve-IsClaimed :
      (e : ℕ) (c : Claim) (s : Broker) (a : ℕ)
      → IsSound s
      → (serve e c s).0 ≡ ok a
      → IsClaimed c ((serve e c s).1.job_at a) × ((c.keyed ≡ false) ⊎ HasNoClash e c s)
  serve-IsClaimed e c s a h served =
      let p = IsServed-serve e c s h in
      elim (Bool-cases c.keyed) [
        | inl keyed ↦ (
          IsClaimed-job c _ (p.key a served) (p.fingerprint a served)
              (inr (p.command_hash a served keyed, p.run_key_hash a served keyed)),
          inr (HasNoClash-serve e c s a keyed served),
        )
        | inr plain ↦
            (IsClaimed-job c _ (p.key a served) (p.fingerprint a served) (inl plain), inl plain)
      ]
