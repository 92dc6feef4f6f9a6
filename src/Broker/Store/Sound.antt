-- ===== src/Broker/Store/Sound.antt =====
-- The registry's operations keep the broker sound: what is in memory is what is in the file.
use corv_client.Prelude.{
  ◌≡◌, refl, sym, ap, ◌∙◌, Bool, [], Bytes, Option, none, some, bytes_eq, bytes_eq→eq, inl, inr,
  Bool-cases, arith, ℕ,
}
use mathlib.Core.Option.{none-ne-some}
use Prim.{absurd}
use corv_client.Prelude.Assoc.{
  Assoc, lookup, delete, put, keep_if, map_values, Unique, kept, mapped, lookup-put, lookup-delete,
  lookup-keep_if, lookup-map_values, put-Unique, delete-Unique, keep_if-Unique, map_values-Unique,
}
use corv_client.Broker.Errors.{Failure}
use corv_client.Broker.Job.{JobRecord}
use corv_client.Broker.State.{World, Broker, M, ◌>>=◌, gets}
use corv_client.Broker.Keeps.{
  IsKeyed, IsSound, Since, Since-refl, Keeps, Keeps-bind, Keeps-pure, Keeps-gets, Keeps-ask,
  Keeps-if, Keeps-job_of, keeps_rules,
}
use corv_client.Broker.Store.{
  migrate, settle, commit, now, migrate_legacy_fingerprints, persisted_job_by_key,
  persisted_job_by_run_id, save_persisted_job, delete_persisted_job_by_key,
  delete_unkeyed_persisted_jobs, prune_expired_keyed_jobs,
}

-- A registry that may take the place of another one.
pub record IsRegistry (m : Assoc JobRecord) : Type 0 where
  pub unique : Unique m
  pub keyed : IsKeyed m

some-eq-some : {x y : JobRecord} → some x ≡ some y → x ≡ y
some-eq-some h = ground arith

kept-eq-some :
    (p : Bytes → JobRecord → Bool) (k : Bytes) (o : Option JobRecord) {x : JobRecord}
    → kept p k o ≡ some x
    → o ≡ some x
kept-eq-some p k none h = h
kept-eq-some p k (some y) h = ground arith

mapped-eq-some :
    (f : Bytes → JobRecord → JobRecord) (k : Bytes) (o : Option JobRecord) {x : JobRecord}
    → mapped f k o ≡ some x
    → (y : JobRecord) × (o ≡ some y) × (f k y ≡ x)
mapped-eq-some f k none h = absurd (none-ne-some _ h)
mapped-eq-some f k (some y) h = (y, refl, some-eq-some h)

put-IsRegistry : (r : JobRecord) (m : Assoc JobRecord) → IsRegistry m → IsRegistry (put r.key r m)
put-IsRegistry r m h = record {
  unique = put-Unique r.key r m h.unique;
  keyed = λ k x found.
      let read = sym (lookup-put r.key k r m) ∙ found in
      elim (Bool-cases (bytes_eq r.key k)) [
        | inl t ↦
            let read' = rw t at read in
            ap (λ y. y.key) (sym (some-eq-some read')) ∙ bytes_eq→eq r.key k t
        | inr t ↦ let read' = rw t at read in h.keyed k x read'
      ];
}

delete-IsRegistry : (key : Bytes) (m : Assoc JobRecord) → IsRegistry m → IsRegistry (delete key m)
delete-IsRegistry key m h = record {
  unique = delete-Unique key m h.unique;
  keyed = λ k x found. h.keyed k x (ground (arith, lookup-delete key k m));
}

keep_if-IsRegistry :
    (p : Bytes → JobRecord → Bool) (m : Assoc JobRecord) → IsRegistry m → IsRegistry (keep_if p m)
keep_if-IsRegistry p m h = record {
  unique = keep_if-Unique p m h.unique;
  keyed = λ k x found.
      h.keyed k x (kept-eq-some p k (lookup k m) (sym (lookup-keep_if p k m h.unique) ∙ found));
}

map_values-IsRegistry :
    (f : Bytes → JobRecord → JobRecord) (m : Assoc JobRecord)
    → ((k : Bytes) (r : JobRecord) → (f k r).key ≡ r.key)
    → IsRegistry m
    → IsRegistry (map_values f m)
map_values-IsRegistry f m same h = record {
  unique = map_values-Unique f m h.unique;
  keyed = λ k x found.
      let (y, there, eq) =
        mapped-eq-some f k (lookup k m) (sym (lookup-map_values f k m) ∙ found) in
      ap (λ z. z.key) (sym eq) ∙ (same k y ∙ h.keyed k y there);
}

settle-IsSound :
    (next : Assoc JobRecord) (e : Option Failure) (s : Broker)
    → IsRegistry next
    → IsSound s
    → IsSound (settle next e s).1
unfolding settle
settle-IsSound next none s r h = record {
  synced = refl;
  unique = r.unique;
  keyed = r.keyed;
  slots = h.slots;
}
settle-IsSound next (some e) s r h = h

settle-Since :
    (next : Assoc JobRecord) (e : Option Failure) (s : Broker) → Since s (settle next e s).1
unfolding settle
settle-Since next none s = record {
  events = ([], refl);
  clock = omega arith;
  job_next = omega arith;
  jobs = λ b less. refl;
}
settle-Since next (some e) s = Since-refl s

IsSound→IsRegistry : (s : Broker) → IsSound s → IsRegistry s.jobs
IsSound→IsRegistry s h = record { unique = h.unique; keyed = h.keyed }

module _ ⦃w : World⦄ where
  pub Keeps-now : Keeps now
  unfolding now
  Keeps-now = search keeps_rules

  pub Keeps-commit : (next : Assoc JobRecord) → IsRegistry next → Keeps (commit next)
  unfolding commit
  Keeps-commit next r = Keeps-bind _ _ (Keeps-ask _ _ _) λ e.
      Keeps-bind _ _
        (record { at = λ s. settle-IsSound next e s r; since = λ s h. settle-Since next e s })
        λ _. Keeps-pure e

  -- A save that may use the registry it starts from.
  Keeps-change :
      {A : Type 0} (f : Assoc JobRecord → M A)
      → ((m : Assoc JobRecord) → IsRegistry m → Keeps (f m))
      → Keeps (gets (λ s. s.jobs) >>= f)
  unfolding ◌>>=◌ gets
  Keeps-change f kf = record {
    at = λ s h. (kf s.jobs (IsSound→IsRegistry s h)).at s h;
    since = λ s h. (kf s.jobs (IsSound→IsRegistry s h)).since s h;
  }

  migrate-key :
      (profile current legacy k : Bytes) (r : JobRecord)
      → (migrate profile current legacy k r).key ≡ r.key
  unfolding migrate
  migrate-key profile current legacy k r = ground arith

  pub Keeps-migrate_legacy_fingerprints :
      (profile current legacy : Bytes) → Keeps (migrate_legacy_fingerprints profile current legacy)
  unfolding migrate_legacy_fingerprints
  Keeps-migrate_legacy_fingerprints profile current legacy = Keeps-change _ λ m r.
      Keeps-if _ _ _
        (Keeps-commit _ (map_values-IsRegistry _ m (migrate-key profile current legacy) r))
        (Keeps-pure none)

  pub Keeps-persisted_job_by_key : (key : Bytes) → Keeps (persisted_job_by_key key)
  unfolding persisted_job_by_key
  Keeps-persisted_job_by_key key = search keeps_rules

  pub Keeps-persisted_job_by_run_id : (id : Bytes) → Keeps (persisted_job_by_run_id id)
  unfolding persisted_job_by_run_id
  Keeps-persisted_job_by_run_id id = search keeps_rules

  pub Keeps-save_persisted_job : (profile : Bytes) (a : ℕ) → Keeps (save_persisted_job profile a)
  unfolding save_persisted_job
  Keeps-save_persisted_job profile a = Keeps-bind _ _ (Keeps-gets _) λ current.
      Keeps-bind _ _ (Keeps-job_of a) λ j.
        Keeps-change _
          λ m r. Keeps-if _ _ _ (Keeps-commit _ (put-IsRegistry _ m r)) (Keeps-pure none)

  pub Keeps-delete_persisted_job_by_key : (key : Bytes) → Keeps (delete_persisted_job_by_key key)
  unfolding delete_persisted_job_by_key
  Keeps-delete_persisted_job_by_key key =
      Keeps-change _
        λ m r. Keeps-bind _ _ (Keeps-commit _ (delete-IsRegistry key m r)) λ _. Keeps-pure tt

  pub Keeps-delete_unkeyed_persisted_jobs :
      (profile : Bytes) → Keeps (delete_unkeyed_persisted_jobs profile)
  unfolding delete_unkeyed_persisted_jobs
  Keeps-delete_unkeyed_persisted_jobs profile =
      Keeps-change _ λ m r. Keeps-commit _ (keep_if-IsRegistry _ m r)

  pub Keeps-prune_expired_keyed_jobs : (time : ℕ) → Keeps (prune_expired_keyed_jobs time)
  unfolding prune_expired_keyed_jobs
  Keeps-prune_expired_keyed_jobs time = Keeps-change _ λ m r.
      Keeps-if _ _ _ (Keeps-bind _ _ (Keeps-commit _ (keep_if-IsRegistry _ m r)) λ _. Keeps-pure tt)
        (Keeps-pure tt)

-- The rules above together, for the handlers.
pub ruleset store_rules = (
  Keeps-now, Keeps-migrate_legacy_fingerprints, Keeps-persisted_job_by_key,
  Keeps-persisted_job_by_run_id, Keeps-save_persisted_job, Keeps-delete_persisted_job_by_key,
  Keeps-delete_unkeyed_persisted_jobs, Keeps-prune_expired_keyed_jobs,
)
