-- ===== src/Broker/Store/Prune.antt =====
-- internal/broker/job_registry.go: the records that `pruneExpiredKeyedJobs` drops.
use corv_client.Prelude.{
  ◌≡◌, refl, sym, ◌∙◌, ap, Bool, true, false, not, ◌⊎◌, inl, inr, [], Bytes, Option, none, some, ℕ,
  ◌+◌, ◌*◌, ◌<◌, ◌≢◌, ◌∷◌, ◌||◌, arith, Bool-cases, is_empty, bytes_eq,
}
use Prim.{absurd}
use mathlib.Core.Bool.{true≢false}
use mathlib.Core.Option.{none-ne-some}
use corv_client.Prelude.Assoc.{Assoc, lookup, keep_if, kept, lookup-keep_if}
use corv_client.Broker.Job.{
  Status, pending, starting, running, finalize_pending, failed, done, expired, unknown, JobRecord,
}
use corv_client.Broker.State.{World, Broker, save_failed, ◌>>=◌, pure, gets}
use corv_client.Broker.Keeps.{IsSound}
use corv_client.Broker.Store.{status_eq, any_value, is_outdated, prune_expired_keyed_jobs}
use corv_client.Broker.Store.Cases.{commit-cases}

some-inj : (x y : JobRecord) → ◌≡◌ {A = Option JobRecord} (some x) (some y) → x ≡ y
some-inj x y e = cc

kept-cases :
    (p : Bytes → JobRecord → Bool) (k : Bytes) (o : Option JobRecord)
    → ((kept p k o ≡ o) × ((r : JobRecord) → o ≡ some r → p k r ≡ true))
      ⊎ ((r : JobRecord) × (o ≡ some r) × (p k r ≡ false) × (kept p k o ≡ none))
kept-cases p k none = inl (refl, λ r e. cc e)
kept-cases p k (some r) = elim (Bool-cases (p k r)) [
  | inl e ↦ inl (rw e refl, λ r' same. ap (p k) (sym (some-inj r r' same)) ∙ e)
  | inr e ↦ inr (r, refl, e, rw e refl)
]

not-eq-false : (b : Bool) → not b ≡ false → b ≡ true
not-eq-false true e = refl
not-eq-false false e = sym e

not-eq-true : (b : Bool) → not b ≡ true → b ≡ false
not-eq-true true e = sym e
not-eq-true false e = refl

-- A run under a run key that is done and has a known end, more than a day before the given time; times
-- are in nanoseconds.
pub record IsOld (time : ℕ) (r : JobRecord) : Type 0 where
  pub keyed : r.run_key_hash ≢ []
  pub status : r.status ≡ done
  pub ended : r.finished_at ≢ 0
  pub age : r.finished_at + 24 * 60 * 60 * 1000000000 < time

status_eq-done : (x : Status) → status_eq x done ≡ true → x ≡ done
unfolding status_eq
status_eq-done done h = refl
status_eq-done pending h = cc h
status_eq-done starting h = cc h
status_eq-done running h = cc h
status_eq-done finalize_pending h = cc h
status_eq-done failed h = cc h
status_eq-done expired h = cc h
status_eq-done unknown h = cc h

is_outdated-IsOld :
    (time : ℕ) (k : Bytes) (r : JobRecord) → is_outdated time k r ≡ true → IsOld time r
unfolding is_outdated
is_outdated-IsOld time k r h = record {
  keyed = λ e. ground (arith, h, e);
  status = status_eq-done r.status (ground (arith, h));
  ended = λ e. ground (arith, h, e);
  age = ground (arith, h);
}

is_empty-ne : (s : Bytes) → s ≢ [] → is_empty s ≡ false
is_empty-ne [] h = absurd (h refl)
is_empty-ne (b ∷ s) h = refl

IsOld-is_outdated :
    (time : ℕ) (k : Bytes) (r : JobRecord) → IsOld time r → is_outdated time k r ≡ true
unfolding is_outdated status_eq
IsOld-is_outdated time k r old =
    let e = is_empty-ne r.run_key_hash old.keyed in
    let f = old.ended in let g = old.age in rw (e, old.status) (ground arith)

-- No record, or one that is not old.
abbrev pub IsFresh : ℕ → Option JobRecord → Type 0
IsFresh time none = Unit
IsFresh time (some r) = ¬ (IsOld time r)

IsFresh-from :
    (time : ℕ) (k : Bytes) (o : Option JobRecord)
    → ((r : JobRecord) → o ≡ some r → is_outdated time k r ≡ false)
    → IsFresh time o
IsFresh-from time k none h = tt
IsFresh-from time k (some r) h = λ old. true≢false (sym (IsOld-is_outdated time k r old) ∙ h r refl)

or-false : (a b : Bool) → (a || b) ≡ false → (a ≡ false) × (b ≡ false)
or-false a b h = (ground arith, ground arith)

none_outdated :
    (time : ℕ) (k : Bytes) (m : Assoc JobRecord) (r : JobRecord)
    → any_value (is_outdated time []) m ≡ false
    → lookup k m ≡ some r
    → is_outdated time [] r ≡ false
unfolding any_value lookup
none_outdated time k [] r h found = absurd (none-ne-some _ found)
none_outdated time k ((j, x) ∷ m) r h found =
    let (here, later) = or-false (is_outdated time [] x) (any_value (is_outdated time []) m) h in
    elim (Bool-cases (bytes_eq j k)) [
      | inl e ↦
          let same : x ≡ r = some-inj x r (rw e at found) in
          ap (is_outdated time []) (sym same) ∙ here
      | inr e ↦ none_outdated time k m r later (rw e at found)
    ]

-- What the key `k` finds before and after: the same, and then it is no old record, or the new registry
-- could not be saved; or an old record before, and none after.
abbrev pub IsPruned : ℕ → Bytes → Broker → Broker → Type 0
IsPruned time k s t =
    ((lookup k t.jobs ≡ lookup k s.jobs)
      × (IsFresh time (lookup k s.jobs) ⊎ (t.events ≡ save_failed ∷ s.events)))
    ⊎ ((r : JobRecord) × (lookup k s.jobs ≡ some r) × IsOld time r × (lookup k t.jobs ≡ none))

module _ ⦃w : World⦄ where
  -- Pruning drops the records of runs under a run key that are done and ended more than a day before the
  -- given time, and no others. In a sound state, what a key finds afterwards is what it found before,
  -- which then is no such record, unless the new registry could not be saved; or it found such a record
  -- before, and finds none afterwards.
  pub lookup-prune_expired_keyed_jobs :
      (time : ℕ) (k : Bytes) (s : Broker)
      → IsSound s
      → IsPruned time k s (prune_expired_keyed_jobs time s).1
  unfolding prune_expired_keyed_jobs ◌>>=◌ gets pure
  lookup-prune_expired_keyed_jobs time k s h =
      let keeps = λ (k : Bytes) (r : JobRecord). not (is_outdated time k r) in
      elim (Bool-cases (any_value (is_outdated time []) s.jobs)) [
        | inr e ↦ rw e (
            inl (
              refl,
              inl (IsFresh-from time [] (lookup k s.jobs) (λ r. none_outdated time k s.jobs r e)),
            ))
        | inl e ↦ rw e (elim (commit-cases (keep_if keeps s.jobs) s) [
          | inr n ↦ inl (ap (lookup k) n.jobs, inr n.events)
          | inl y ↦
              let found = ap (lookup k) y.jobs ∙ lookup-keep_if keeps k s.jobs h.unique in
              elim (kept-cases keeps k (lookup k s.jobs)) [
                | inl (same, fresh) ↦ inl (
                  found ∙ same,
                  inl (
                      IsFresh-from time k (lookup k s.jobs)
                        (λ r at. not-eq-true (is_outdated time k r) (fresh r at))),
                )
                | inr (r, there, old, gone) ↦ inr (
                  r,
                  there,
                  is_outdated-IsOld time k r (not-eq-false (is_outdated time k r) old),
                  found ∙ gone,
                )
              ]
        ])
      ]
