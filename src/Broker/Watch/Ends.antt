-- ===== src/Broker/Watch/Ends.antt =====
-- internal/broker/jobs.go: the rounds of `watchJob`, and the longest wait.
use corv_client.Prelude.{
  ◌≡◌, refl, Bool, true, false, ◌||◌, inl, inr, Bytes, length, ◌++◌, [], Option, none, some,
  if◌then◌else◌, ℕ, zero, suc, ◌+◌, ◌-◌, ◌*◌, ◌<◌, ◌≤◌, min, ltb, leb, not_ltb→le, Bool-cases,
  arith,
}
use corv_client.Broker.Wait.{second, max_wait}
use corv_client.Broker.State.{World, Broker, M, ◌>>=◌, pure, gets, ask}
use corv_client.Broker.Keeps.{IsSound}
use corv_client.Broker.Store.{now}
use corv_client.Broker.Store.Sound.{Keeps-now}
use corv_client.Broker.Conn.{max_delta_bytes}
use corv_client.Broker.Reply.{Response}
use corv_client.Broker.Watch.{
  JobPoll, refused_poll, polled, finish_job_poll, poll_job, sleep, ended, has_exit, rest,
  after_poll, watch_rounds, watch_job,
}
use corv_client.Broker.Watch.Sound.{Keeps-sleep, Keeps-poll_job}

-- `m` returns a result at `s`.
pub record Returns {A : Type 0} (m : M (Option A)) (s : Broker) : Type 0 where
  pub result : A
  pub is_result : (m s).0 ≡ some result

Returns-if :
    {A : Type 0} (b : Bool) (m n : M (Option A)) (s : Broker)
    → Returns m s
    → (b ≡ false → Returns n s)
    → Returns (if b then m else n) s
Returns-if true m n s h k = h
Returns-if false m n s h k = k refl

-- Later enough for `n` more rounds.
record IsInTime (n deadline : ℕ) (s : Broker) : Type 0 where
  pub sound : IsSound s
  pub time : deadline ≤ s.clock + n * second

module _ ⦃w : World⦄ where
  Returns-ended : (m : M (Response × Bool)) (s : Broker) → Returns (ended m) s
  unfolding ended ◌>>=◌ pure
  Returns-ended m s = record { result = (m s).0; is_result = refl }

  now-clock : (s : Broker) → s.clock < (now s).0
  unfolding now ask gets ◌>>=◌
  now-clock s = omega arith

  now-same : (s : Broker) → (now s).0 ≡ (now s).1.clock
  unfolding now ask gets ◌>>=◌
  now-same s = refl

  sleep-clock : (d : ℕ) (s : Broker) → s.clock + d < (sleep d s).1.clock
  unfolding sleep ask
  sleep-clock d s = omega arith

  Returns-rest :
      (m : M (Option (Response × Bool))) (n deadline : ℕ) (s : Broker)
      → IsInTime (suc n) deadline s
      → ((t : Broker) → IsInTime n deadline t → Returns m t)
      → Returns (rest m deadline) s
  unfolding rest ◌>>=◌ pure
  Returns-rest m n deadline s h k =
      let early = now-clock s in
      let same = now-same s in
      let time = h.time in
      let sound = Keeps-now.at s h.sound in
      elim (Bool-cases (ltb (now s).0 deadline)) [
        | inr e ↦
            let late = not_ltb→le (now s).0 deadline e in
            let there = k (now s).1 (record { sound = sound; time = omega arith }) in
            record { result = there.result; is_result = rw e there.is_result }
        | inl e ↦
            let d = min (deadline - (now s).0) second in
            let slept = sleep-clock d (now s).1 in
            let there =
              k (sleep d (now s).1).1
                (record { sound = (Keeps-sleep d).at (now s).1 sound; time = ground arith }) in
            record { result = there.result; is_result = rw e there.is_result }
      ]

  after_now : (n deadline : ℕ) (s : Broker) → IsInTime n deadline s → IsInTime n deadline (now s).1
  after_now n deadline s h =
      let time = h.time in
      let early = now-clock s in
      let same = now-same s in record { sound = Keeps-now.at s h.sound; time = omega arith }

  -- What the next round promises, where there is one.
  abbrev IsNext : ℕ → ℕ → (Bytes → ℕ → M (Option (Response × Bool))) → Type 0
  IsNext zero deadline again = Unit
  IsNext (suc i) deadline again =
      (x : Bytes) (y : ℕ) (t : Broker) → IsInTime i deadline t → Returns (again x y) t

  Returns-after_poll :
      (again : Bytes → ℕ → M (Option (Response × Bool))) (e : ℕ) (profile : Bytes)
      (a n deadline : ℕ) (d : Bytes) (m : ℕ) (p : JobPoll) (s : Broker)
      → IsInTime n deadline s
      → IsNext n deadline again
      → Returns (after_poll again e profile a deadline d m p) s
  unfolding after_poll ◌>>=◌ pure
  Returns-after_poll again e profile a n deadline d m (refused_poll r) s h k = record {
    result = (r, false);
    is_result = refl;
  }
  Returns-after_poll again e profile a zero deadline d m (polled y x) s h k =
      let time = h.time in
      let early = now-clock s in
      let over : ltb deadline (now s).0 ≡ true = ground arith in
      let last : (has_exit x || leb max_delta_bytes (m + length y) || ltb deadline (now s).0)
          ≡ true =
        ground arith in
      let r = Returns-ended (finish_job_poll e profile a x (d ++ y) (m + length y)) (now s).1 in
      record { result = r.result; is_result = rw last r.is_result }
  Returns-after_poll again e profile a (suc n) deadline d m (polled y x) s h k =
      let r =
        Returns-if (has_exit x || leb max_delta_bytes (m + length y) || ltb deadline (now s).0) _ _
          (now s).1
          (Returns-ended (finish_job_poll e profile a x (d ++ y) (m + length y)) (now s).1)
          (λ going.
            Returns-rest (again (d ++ y) (m + length y)) n deadline (now s).1
              (after_now (suc n) deadline s h) (k _ _)) in
      record { result = r.result; is_result = r.is_result }

  Returns-round :
      (n e : ℕ) (profile : Bytes) (a deadline : ℕ) (d : Bytes) (m : ℕ) (s : Broker)
      → IsInTime n deadline s
      → IsNext n deadline (watch_rounds n e profile a deadline)
      → Returns (watch_rounds (suc n) e profile a deadline d m) s
  unfolding watch_rounds ◌>>=◌
  Returns-round n e profile a deadline d m s h k =
      Returns-if (leb max_delta_bytes m) _ _ s
        (Returns-ended (finish_job_poll e profile a none d m) s)
        λ going.
          let poll = Keeps-poll_job e profile a m (max_delta_bytes - m) in
          let time = h.time in
          let later = (poll.since s h.sound).clock in
          let r =
            Returns-after_poll (watch_rounds n e profile a deadline) e profile a n deadline d m
              (poll_job e profile a m (max_delta_bytes - m) s).0
              (poll_job e profile a m (max_delta_bytes - m) s).1
              (record { sound = poll.at s h.sound; time = omega arith }) k in
          record { result = r.result; is_result = r.is_result }

  Returns-watch_rounds :
      (n e : ℕ) (profile : Bytes) (a deadline : ℕ) (d : Bytes) (m : ℕ) (s : Broker)
      → IsInTime n deadline s
      → Returns (watch_rounds (suc n) e profile a deadline d m) s
  Returns-watch_rounds zero e profile a deadline d m s h =
      Returns-round zero e profile a deadline d m s h tt
  Returns-watch_rounds (suc n) e profile a deadline d m s h =
      Returns-round (suc n) e profile a deadline d m s h
        (Returns-watch_rounds n e profile a deadline)

  -- In a sound state, watching a run for at most `maxWait` ends with a response: the rounds that the
  -- loop is given are enough, whatever the remote host answers and however long each answer takes.
  pub Returns-watch_job :
      (e : ℕ) (profile : Bytes) (a wait : ℕ) (s : Broker)
      → IsSound s
      → wait ≤ max_wait
      → Returns (watch_job e profile a wait) s
  unfolding watch_job ◌>>=◌
  Returns-watch_job e profile a wait s h short =
      let same = now-same s in
      let r =
        Returns-watch_rounds 120 e profile a ((now s).0 + wait) [] 0 (now s).1
          (record { sound = Keeps-now.at s h; time = omega arith }) in
      record { result = r.result; is_result = r.is_result }
