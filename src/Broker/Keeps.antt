-- ===== src/Broker/Keeps.antt =====
-- The invariant of the broker's state, and rules for actions that keep it.
use corv_client.Prelude.{
  ℕ, ◌+◌, ◌<◌, ◌≤◌, ◌++◌, append_assoc, ◌≡◌, refl, sym, ap, ◌∙◌, Bool, true, false, List, [], Bytes,
  some, ◌==◌, if◌then◌else◌, bytes_eq, bytes_eq→eq, inl, inr, Bool-cases, Option-cases, ==_iff,
  arith,
}
use mathlib.Core.Option.{none-ne-some}
use Prim.{absurd}
use corv_client.Prelude.Assoc.{Assoc, lookup, Unique, lookup-put, lookup-delete}
use corv_client.Broker.Job.{Job, JobRecord}
use corv_client.Broker.State.{
  Broker, Entry, Event, M, ◌>>=◌, pure, gets, ask, update, job_of, entry_of, modify_job,
  modify_entry, add_job, drop_job, fresh_entry, entry_for,
}

-- Each record stands under its own key.
abbrev pub IsKeyed : Assoc JobRecord → Type 0
IsKeyed m = (k : Bytes) (r : JobRecord) → lookup k m ≡ some r → r.key ≡ k

-- The memory's registry is the one in the file, has each key once and each record under its own key;
-- what an entry holds under a key is an allocated job that has this key.
pub record IsSound (s : Broker) : Type 0 where
  pub synced : s.jobs ≡ s.jobs_file
  pub unique : Unique s.jobs
  pub keyed : IsKeyed s.jobs
  pub slots :
      (e : ℕ) (k : Bytes) (a : ℕ)
      → lookup k (s.entry_at e).jobs ≡ some a
      → (a < s.job_next) × ((s.job_at a).key ≡ k)

-- What a job never changes.
abbrev pub identity : Job → Bytes × Bytes × Bytes × Bytes × Bytes × Bytes
identity j = (j.id, j.key, j.command, j.fingerprint, j.command_hash, j.run_key_hash)

-- `t` comes after `s`: what was done stays done, time does not go back, no job is lost or changes its
-- identity.
pub record Since (s t : Broker) : Type 0 where
  pub events : (l : List Event) × (t.events ≡ l ++ s.events)
  pub clock : s.clock ≤ t.clock
  pub job_next : s.job_next ≤ t.job_next
  pub jobs : (a : ℕ) → a < s.job_next → identity (t.job_at a) ≡ identity (s.job_at a)

pub Since-refl : (s : Broker) → Since s s
Since-refl s = record {
  events = ([], refl);
  clock = omega arith;
  job_next = omega arith;
  jobs = λ a h. refl;
}

pub Since-trans : (s t u : Broker) → Since s t → Since t u → Since s u
Since-trans s t u h k = record {
  events = (
    k.events.0 ++ h.events.0,
    k.events.1
        ∙ (ap (λ x. k.events.0 ++ x) h.events.1
            ∙ sym (append_assoc k.events.0 h.events.0 s.events)),
  );
  clock = (let a = h.clock in let b = k.clock in omega arith);
  job_next = (let a = h.job_next in let b = k.job_next in omega arith);
  jobs = λ a less. (let n = h.job_next in k.jobs a (omega arith)) ∙ h.jobs a less;
}

pub record Keeps {A : Type 0} (m : M A) : Type 0 where
  pub at : (s : Broker) → IsSound s → IsSound (m s).1
  pub since : (s : Broker) → IsSound s → Since s (m s).1

module _ {A : Type 0} where
  pub Keeps-pure : (a : A) → Keeps (pure a)
  unfolding pure
  Keeps-pure a = record { at = λ s h. h; since = λ s h. Since-refl s }

  pub Keeps-gets : (f : Broker → A) → Keeps (gets f)
  unfolding gets
  Keeps-gets f = record { at = λ s h. h; since = λ s h. Since-refl s }

  pub Keeps-ask :
      (delay : ℕ → ℕ) (answer : ℕ → A) (note : A → List Event) → Keeps (ask delay answer note)
  unfolding ask
  Keeps-ask delay answer note = record {
    at = λ s h. record { synced = h.synced; unique = h.unique; keyed = h.keyed; slots = h.slots };
    since = λ s h. record {
      events = (note (answer s.tick), refl);
      clock = omega arith;
      job_next = omega arith;
      jobs = λ a less. refl;
    };
  }

  pub Keeps-if : (b : Bool) (m n : M A) → Keeps m → Keeps n → Keeps (if b then m else n)
  Keeps-if true m n km kn = km
  Keeps-if false m n km kn = kn

module _ {A B : Type 0} where
  pub Keeps-bind : (m : M A) (f : A → M B) → Keeps m → ((a : A) → Keeps (f a)) → Keeps (m >>= f)
  unfolding ◌>>=◌
  Keeps-bind m f km kf = record {
    at = λ s h. (kf (m s).0).at (m s).1 (km.at s h);
    since = λ s h.
        Since-trans s (m s).1 (f (m s).0 (m s).1).1 (km.since s h)
          ((kf (m s).0).since (m s).1 (km.at s h));
  }

pub Keeps-job_of : (a : ℕ) → Keeps (job_of a)
unfolding job_of
Keeps-job_of a = Keeps-gets (λ s. s.job_at a)

pub Keeps-entry_of : (a : ℕ) → Keeps (entry_of a)
unfolding entry_of
Keeps-entry_of a = Keeps-gets (λ s. s.entry_at a)

pub Keeps-modify_job :
    (a : ℕ) (f : Job → Job) → ((j : Job) → identity (f j) ≡ identity j) → Keeps (modify_job a f)
unfolding modify_job update
Keeps-modify_job a f same = record {
  at = λ s h. record {
    synced = h.synced;
    unique = h.unique;
    keyed = h.keyed;
    slots = λ e k b found. elim (Bool-cases (a == b)) [
      | inl t ↦ rw t (
        (h.slots e k b found).0,
        ap (λ x. x.1) (same (s.job_at a))
            ∙ (ap (λ x. (s.job_at x).key) ((==_iff a b).0 t) ∙ (h.slots e k b found).1),
      )
      | inr t ↦ rw t (h.slots e k b found)
    ];
  };
  since = λ s h. record {
    events = ([], refl);
    clock = omega arith;
    job_next = omega arith;
    jobs = λ b less. elim (Bool-cases (a == b)) [
      | inl t ↦ rw t (same (s.job_at a) ∙ ap (λ x. identity (s.job_at x)) ((==_iff a b).0 t))
      | inr t ↦ rw t refl
    ];
  };
}

pub Keeps-modify_entry :
    (a : ℕ) (f : Entry → Entry) → ((n : Entry) → (f n).jobs ≡ n.jobs) → Keeps (modify_entry a f)
unfolding modify_entry update
Keeps-modify_entry a f same = record {
  at = λ s h. record {
    synced = h.synced;
    unique = h.unique;
    keyed = h.keyed;
    slots = λ e k b found. elim (Bool-cases (a == e)) [
      | inl t ↦
          let found' = rw t at found in
          h.slots a k b (ap (lookup k) (sym (same (s.entry_at a))) ∙ found')
      | inr t ↦ let found' = rw t at found in h.slots e k b found'
    ];
  };
  since = λ s h. record {
    events = ([], refl);
    clock = omega arith;
    job_next = omega arith;
    jobs = λ b less. refl;
  };
}

nothing_there : (k : Bytes) {b : ℕ} → ¬ (lookup k fresh_entry.jobs ≡ some b)
unfolding lookup
nothing_there k h = none-ne-some _ h

pub Keeps-clear_entry :
    (a : ℕ) (f : Entry → Entry) → ((n : Entry) → (f n).jobs ≡ []) → Keeps (modify_entry a f)
unfolding modify_entry update
Keeps-clear_entry a f none_left = record {
  at = λ s h. record {
    synced = h.synced;
    unique = h.unique;
    keyed = h.keyed;
    slots = λ e k b found. elim (Bool-cases (a == e)) [
      | inl t ↦
          let found' = rw t at found in
          absurd (nothing_there k (ap (lookup k) (sym (none_left (s.entry_at a))) ∙ found'))
      | inr t ↦ let found' = rw t at found in h.slots e k b found'
    ];
  };
  since = λ s h. record {
    events = ([], refl);
    clock = omega arith;
    job_next = omega arith;
    jobs = λ b less. refl;
  };
}

pub Keeps-drop_job : (e : ℕ) (key : Bytes) → Keeps (drop_job e key)
unfolding drop_job modify_entry update
Keeps-drop_job e key = record {
  at = λ s h. record {
    synced = h.synced;
    unique = h.unique;
    keyed = h.keyed;
    slots = λ d k b found. elim (Bool-cases (e == d)) [
      | inl t ↦
          let found' = rw t at found in
          h.slots e k b (ground (arith, lookup-delete key k (s.entry_at e).jobs, found'))
      | inr t ↦ let found' = rw t at found in h.slots d k b found'
    ];
  };
  since = λ s h. record {
    events = ([], refl);
    clock = omega arith;
    job_next = omega arith;
    jobs = λ b less. refl;
  };
}

pub Keeps-entry_for : (name : Bytes) → Keeps (entry_for name)
unfolding entry_for update
Keeps-entry_for name = record {
  at = λ s h. elim (Option-cases (lookup name s.entries)) [
    | inr (a, e) ↦ rw (e, entry_for) h
    | inl e ↦
        rw (e, entry_for)
          (record {
            synced = h.synced;
            unique = h.unique;
            keyed = h.keyed;
            slots = λ d k b found. elim (Bool-cases (s.entry_next == d)) [
              | inl t ↦ let found' = rw t at found in absurd (nothing_there k found')
              | inr t ↦ let found' = rw t at found in h.slots d k b found'
            ];
          })
  ];
  since = λ s h. elim (Option-cases (lookup name s.entries)) [
    | inr (a, e) ↦ rw (e, entry_for) (Since-refl s)
    | inl e ↦
        rw (e, entry_for)
          (record {
            events = ([], refl);
            clock = omega arith;
            job_next = omega arith;
            jobs = λ b less. refl;
          })
  ];
}

-- An older job is not the new one.
old_slot :
    (s : Broker) (k : Bytes) (b : ℕ) (j : Job)
    → (b < s.job_next) × ((s.job_at b).key ≡ k)
    → (b < s.job_next + 1) × ((update s.job_at s.job_next j b).key ≡ k)
unfolding update
old_slot s k b j (less, key) =
    (omega arith, (let other : (s.job_next == b) ≡ false = ground arith in rw other key))

pub Keeps-add_job : (e : ℕ) (key : Bytes) (j : Job) → j.key ≡ key → Keeps (add_job e key j)
unfolding add_job update
Keeps-add_job e key j same = record {
  at = λ s h. record {
    synced = h.synced;
    unique = h.unique;
    keyed = h.keyed;
    slots = λ d k b found. elim (Bool-cases (e == d)) [
      | inr t ↦ let found' = rw t at found in old_slot s k b j (h.slots d k b found')
      | inl t ↦
          let found' = rw t at found in
          let read = sym (lookup-put key k s.job_next (s.entry_at e).jobs) ∙ found' in
          elim (Bool-cases (bytes_eq key k)) [
            | inl u ↦
                let read' = rw u at read in
                let at_b : s.job_next ≡ b = ground arith in
                let eq : (s.job_next == b) ≡ true = ground arith in
                (omega arith, rw eq (same ∙ bytes_eq→eq key k u))
            | inr u ↦ let read' = rw u at read in old_slot s k b j (h.slots e k b read')
          ]
    ];
  };
  since = λ s h. record {
    events = ([], refl);
    clock = omega arith;
    job_next = omega arith;
    jobs = λ b less. (let other : (s.job_next == b) ≡ false = ground arith in rw other refl);
  };
}

pub ruleset keeps_rules = (
  Keeps-pure, Keeps-gets, Keeps-ask, Keeps-if, Keeps-bind, Keeps-job_of, Keeps-entry_of,
  Keeps-modify_job, Keeps-modify_entry, Keeps-clear_entry, Keeps-drop_job, Keeps-entry_for,
  Keeps-add_job,
)
