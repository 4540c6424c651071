-- ===== src/Queue/Deque.antt =====
-- Deque of queue.h, an unbounded queue whose calls test `closed` under the mutex. A call is cut
-- where other threads can act: at the mutex, and at each wait.
pub mod Threads
pub mod Closing
pub mod Wakeups
pub mod Order
use libraft.Prelude.{Bool, true, false, List, [], ◌∷◌, ◌++◌, Option, none, some, if◌then◌else◌}

pub record Deque {ℓ} (A : Type ℓ) : Type ℓ where
  pub items : List A
  pub closed : Bool

-- How a stretch under the mutex ends.
pub data Attempt {ℓ} (R : Type ℓ) : Type ℓ where
  done : R → Attempt R
  waits : Attempt R
  throws_closed : Attempt R

infixl 5 ◌>>=◌ ◌>>◌
abbrev pub ◌>>=◌ {ℓ κ} : {R : Type ℓ} {S : Type κ} → Attempt R → (R → Attempt S) → Attempt S
done r >>= f = f r
waits >>= f = waits
throws_closed >>= f = throws_closed

abbrev pub ◌>>◌ {ℓ} : {S : Type ℓ} → Attempt (Unit {0}) → Attempt S → Attempt S
m >> k = m >>= λ _. k

-- What `poll_until` finds each time that it can look: the mutex free with these members, or the end
-- of its time, at the mutex or in the wait. A run of it is a list of such events.
pub data PollEvent {ℓ} (A : Type ℓ) : Type ℓ where
  mutex_timed_out : PollEvent A
  looks : Deque A → PollEvent A
  wait_timed_out : PollEvent A

module _ {ℓ} {A : Type ℓ} where
  check_closed : Deque A → Attempt (Unit {0})
  check_closed d = if d.closed then throws_closed else done tt

  abbrev pop_front : Deque A → List A → Attempt (A × Deque A)
  pop_front d [] = waits
  pop_front d (v ∷ rest) = done (v, record d { items = rest })

  -- `emplace` builds the value in place and is `put` otherwise.
  unfoldable pub put : Deque A → A → Attempt (Deque A)
  unfolding check_closed
  put d v = do check_closed d; done (record d { items = d.items ++ v ∷ [] })

  -- The stretch from the mutex to the first wait, and each one between two waits, are alike.
  unfoldable pub take : Deque A → Attempt (A × Deque A)
  unfolding check_closed
  take d = do check_closed d; pop_front d d.items

  unfoldable pub close : Deque A → Deque A
  close d = record d { closed = true }

  unfoldable pub reset : Deque A → Deque A
  reset d = record { items = []; closed = false }

  -- `none` in the pair is `{ false, T() }`.
  unfoldable pub poll_until : List (PollEvent A) → Attempt (Option (A × Deque A))
  unfolding check_closed
  poll_until [] = waits
  poll_until (mutex_timed_out ∷ es) = done none
  poll_until (wait_timed_out ∷ es) = done none
  poll_until (looks d ∷ es) = elim (take d) [
    | done r ↦ done (some r)
    | throws_closed ↦ throws_closed
    | waits ↦ poll_until es
  ]
