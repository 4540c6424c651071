-- ===== src/Queue/Blocking.antt =====
-- ArrayBlockingQueue of queue.h. A call is cut where other threads can act: its unlocked test of
-- `closed`, and its stretches under the mutex, each up to a return, an exception or a wait.
-- `Fifo` is what the queue promises to one caller; `Threads` lets many callers interleave.
pub mod Fifo
pub mod Represents
pub mod Refine
pub mod Threads
pub mod History
pub mod Closing
pub mod Heard
pub mod Wakeups
use libraft.Prelude.{
  ℕ, ◌+◌, ◌-◌, ◌%◌, ◌^◌, Bool, true, List, Option, none, some, get_elem?, set, ◌==◌, if◌then◌else◌,
}

-- The data members. `head` is the index that `put` writes, `tail` the one that `take` reads.
pub record Queue {ℓ} (A : Type ℓ) : Type ℓ where
  pub array : List A
  pub head : ℕ
  pub tail : ℕ
  pub count : ℕ
  pub closed : Bool

-- How a stretch of a call ends; `fault` is an access outside the array.
pub data Attempt {ℓ} (R : Type ℓ) : Type ℓ where
  done : R → Attempt R
  waits : Attempt R
  throws_closed : Attempt R
  fault : Attempt R

infixl 5 ◌>>=◌ ◌>>◌
abbrev pub ◌>>=◌ {ℓ κ} : {R : Type ℓ} {S : Type κ} → Attempt R → (R → Attempt S) → Attempt S
done r >>= f = f r
waits >>= f = waits
throws_closed >>= f = throws_closed
fault >>= f = fault

abbrev pub ◌>>◌ {ℓ} : {S : Type ℓ} → Attempt (Unit {0}) → Attempt S → Attempt S
m >> k = m >>= λ _. k

abbrev pub word : ℕ
word = 2 ^ 32

-- The old index, and the next one: `Capacity-1` and `++i` are taken in 32 bits.
unfoldable pub inc : ℕ → ℕ → ℕ × ℕ
inc limit i = if i == (limit + word - 1) % word then (i, 0) else (i, (i + 1) % word)

module _ {ℓ} {A : Type ℓ} where
  unfoldable pub check_closed : Queue A → Attempt (Unit {0})
  check_closed q = if q.closed then throws_closed else done tt

  -- The statements of `put` and of `take` after their loops.
  unfoldable pub store : ℕ → Queue A → A → Queue A
  unfolding inc
  store limit q v =
      let (i, next) = inc limit q.head in
      record q { array = set q.array i v; head = next; count = (q.count + 1) % word }

  pub fetch : ℕ → Queue A → Attempt (A × Queue A)
  unfolding inc
  fetch limit q =
      let (i, next) = inc limit q.tail in
      elim (get_elem? q.array i) [
        | none ↦ fault
        | some v ↦ done (v, record q { tail = next; count = (q.count + word - 1) % word })
      ]

  -- The test of the loop when the mutex is first held, and after a wait.
  unfoldable pub put_locked : ℕ → Queue A → A → Attempt (Queue A)
  unfolding store
  put_locked limit q v = if q.count == limit then waits else done (store limit q v)

  pub put_resumed : ℕ → Queue A → A → Attempt (Queue A)
  unfolding check_closed put_locked
  put_resumed limit q v = do check_closed q; put_locked limit q v

  unfoldable pub take_locked : ℕ → Queue A → Attempt (A × Queue A)
  unfolding fetch
  take_locked limit q = if q.count == 0 then waits else fetch limit q

  unfoldable pub take_resumed : ℕ → Queue A → Attempt (A × Queue A)
  unfolding check_closed take_locked
  take_resumed limit q = do check_closed q; take_locked limit q

  -- A whole call that no other thread disturbs.
  unfoldable pub put : ℕ → Queue A → A → Attempt (Queue A)
  unfolding check_closed put_locked
  put limit q v = do check_closed q; put_locked limit q v

  unfoldable pub take : ℕ → Queue A → Attempt (A × Queue A)
  unfolding check_closed take_locked
  take limit q = do check_closed q; take_locked limit q

  unfoldable pub close : Queue A → Queue A
  close q = record q { closed = true }
