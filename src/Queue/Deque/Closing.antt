-- ===== src/Queue/Deque/Closing.antt =====
-- A closed Deque has no sleeper: every wait is entered under the mutex after a test of `closed`.
use libraft.Prelude.{ℕ, ◌≡◌, inl, inr, subst, sym, true, false, arith, update, Bool-cases, ◌==◌}
use libraft.Queue.Deque.{Deque, done, waits, put, take, close, reset}
use libraft.Queue.Deque.Threads.{
  System, Pc, wake, IsAsleep, IsCall, moved, Step, calls, puts, put_raises, takes, sleeps,
  take_raises, mutex_times_out, wait_times_out, woken_times_out, closes, resets, spurious, Reach,
  here, next, start, timed_out, raised, returned, put_start,
}

module _ {A : Type 0} where
  abbrev pub NoSleeper : System A → Type 0
  NoSleeper s = s.deque.closed ≡ true → (i : ℕ) → IsAsleep (s.pc i) → ⊥

  wake-awake : (p : Pc A) → IsAsleep (wake p) → ⊥
  wake-awake Pc.take_asleep a = a
  wake-awake Pc.poll_asleep a = a
  wake-awake p a = a

  IsCall-awake : (p : Pc A) → IsCall p → IsAsleep p → ⊥
  IsCall-awake (put_start v) c a = a
  IsCall-awake Pc.take_asleep c a = c
  IsCall-awake Pc.poll_asleep c a = c
  IsCall-awake p c a = a

  -- One thread moves to where it does not sleep.
  update-awake :
      (pc : ℕ → Pc A) (i : ℕ) (p : Pc A)
      → ((j : ℕ) → IsAsleep (pc j) → ⊥)
      → (IsAsleep p → ⊥)
      → (j : ℕ) → IsAsleep (update pc i p j)
      → ⊥
  update-awake pc i p h n j a = elim (Bool-cases (i == j)) [
    | inl e ↦ n (rw e at a)
    | inr e ↦ h j (rw e at a)
  ]

  moved-NoSleeper :
      (s : System A) {t : System A} (i : ℕ) (p : Pc A)
      → NoSleeper s
      → (IsAsleep p → ⊥)
      → t ≡ moved s i p
      → NoSleeper t
  moved-NoSleeper s i p h n m = subst NoSleeper (sym m) (λ c. update-awake s.pc i p (h c) n)

  -- `closed` is what `put` and `take` leave alone when they succeed, and refuse when it is set.
  put_open : (d d' : Deque A) (v : A) → put d v ≡ done d' → d'.closed ≡ false
  unfolding put
  put_open d d' v e = ground arith

  take_open : (d d' : Deque A) (v : A) → take d ≡ done (v, d') → d'.closed ≡ false
  unfolding take
  take_open d d' v e = ground arith

  sleep_open : (d : Deque A) → take d ≡ waits → d.closed ≡ false
  unfolding take
  sleep_open d e = ground arith

  open-NoSleeper : (s t : System A) → t ≡ s → s.deque.closed ≡ false → NoSleeper t
  open-NoSleeper s t e o c i a = cc (e, o, c)

  Step-NoSleeper : {s t : System A} → NoSleeper s → Step s t → NoSleeper t
  unfolding close reset
  Step-NoSleeper {s} h (calls i p _ c m) = moved-NoSleeper s i p h (IsCall-awake p c) m
  Step-NoSleeper h (puts i v d pc _ e _ m) = open-NoSleeper _ _ m (put_open _ d v e)
  Step-NoSleeper {s} h (put_raises i v _ _ m) = moved-NoSleeper s i raised h (λ a. a) m
  Step-NoSleeper h (takes i v d _ _ e m) = open-NoSleeper _ _ m (take_open _ d v e)
  Step-NoSleeper {s} h (sleeps i {p' = p} _ _ e m) =
      open-NoSleeper (moved s i p) _ m (sleep_open s.deque e)
  Step-NoSleeper {s} h (take_raises i _ _ _ m) = moved-NoSleeper s i raised h (λ a. a) m
  Step-NoSleeper {s} h (mutex_times_out i _ m) = moved-NoSleeper s i timed_out h (λ a. a) m
  Step-NoSleeper {s} h (wait_times_out i _ m) = moved-NoSleeper s i timed_out h (λ a. a) m
  Step-NoSleeper {s} h (woken_times_out i _ m) = moved-NoSleeper s i timed_out h (λ a. a) m
  Step-NoSleeper {s} h (closes i _ m) =
      subst NoSleeper (sym m) (λ _. update-awake _ i returned (λ j. wake-awake (s.pc j)) (λ a. a))
  Step-NoSleeper {s} h (resets i _ m) =
      subst NoSleeper (sym m) (λ _. update-awake _ i returned (λ j. wake-awake (s.pc j)) (λ a. a))
  Step-NoSleeper {s} h (spurious i m) =
      moved-NoSleeper s i (wake (s.pc i)) h (wake-awake (s.pc i)) m

  -- In every state that threads can reach from the idle one, no thread sleeps in a closed Deque:
  -- `close` wakes those that sleep, and none goes to sleep after it.
  pub closed_no_sleeper :
      (d : Deque A) {s : System A}
      → Reach (start d) s
      → s.deque.closed ≡ true
      → (i : ℕ) → IsAsleep (s.pc i)
      → ⊥
  closed_no_sleeper d here = λ c i a. a
  closed_no_sleeper d (next r st) = Step-NoSleeper (closed_no_sleeper d r) st
