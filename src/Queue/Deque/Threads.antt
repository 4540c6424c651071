-- ===== src/Queue/Deque/Threads.antt =====
-- Any number of threads in calls of one Deque, with the wait of `take` and of `poll_until`.
use libraft.Prelude.{ℕ, ◌≡◌, update}
use libraft.Queue.Deque.{Deque, done, waits, throws_closed, put, take, close, reset}

-- `asleep` is in a wait, `woken` on its way back to the mutex; `timed` is a call of `poll_until`.
pub data Pc {ℓ} (A : Type ℓ) : Type ℓ where
  idle : Pc A
  put_start : A → Pc A
  take_start take_asleep take_woken : Pc A
  poll_start poll_asleep poll_woken : Pc A
  close_start reset_start : Pc A
  returned timed_out raised : Pc A
  got : A → Pc A

pub record System {ℓ} (A : Type ℓ) : Type ℓ where
  pub deque : Deque A
  pub pc : ℕ → Pc A

module _ {ℓ} {A : Type ℓ} where
  abbrev pub wake : Pc A → Pc A
  wake take_asleep = take_woken
  wake poll_asleep = poll_woken
  wake p = p

  abbrev pub IsAsleep : Pc A → Type 0
  IsAsleep take_asleep = Unit
  IsAsleep poll_asleep = Unit
  IsAsleep p = ⊥

  abbrev pub AtRest : Pc A → Type 0
  AtRest idle = Unit
  AtRest returned = Unit
  AtRest timed_out = Unit
  AtRest raised = Unit
  AtRest (got v) = Unit
  AtRest p = ⊥

  abbrev pub IsCall : Pc A → Type 0
  IsCall (put_start v) = Unit
  IsCall take_start = Unit
  IsCall poll_start = Unit
  IsCall close_start = Unit
  IsCall reset_start = Unit
  IsCall p = ⊥

  -- Where a call that `take` has the body of stands, and where it sleeps.
  pub data Looks : Pc A → Pc A → Type ℓ where
    take_first : Looks take_start take_asleep
    take_again : Looks take_woken take_asleep
    poll_first : Looks poll_start poll_asleep
    poll_again : Looks poll_woken poll_asleep

  pub data Notifies (pc pc' : ℕ → Pc A) : Type ℓ where
    one : (i : ℕ) → IsAsleep (pc i) → pc' ≡ update pc i (wake (pc i)) → Notifies pc pc'
    nobody : ((i : ℕ) → ¬ IsAsleep (pc i)) → pc' ≡ pc → Notifies pc pc'

  abbrev pub moved : System A → ℕ → Pc A → System A
  moved s i p = record s { pc = update s.pc i p }

  -- One step of thread `i`. In `takes`, `sleeps` and `take_raises` it stands at `p`.
  pub data Step (s t : System A) : Type ℓ where
    calls : (i : ℕ) (p : Pc A) → AtRest (s.pc i) → IsCall p → t ≡ moved s i p → Step s t
    puts :
        (i : ℕ) (v : A) (d : Deque A) (pc : ℕ → Pc A)
        → s.pc i ≡ put_start v
        → put s.deque v ≡ done d
        → Notifies (update s.pc i returned) pc
        → t ≡ record { deque = d; pc = pc }
        → Step s t
    put_raises :
        (i : ℕ) (v : A)
        → s.pc i ≡ put_start v
        → put s.deque v ≡ throws_closed
        → t ≡ moved s i raised
        → Step s t
    takes :
        (i : ℕ) {p p' : Pc A} (v : A) (d : Deque A)
        → s.pc i ≡ p
        → Looks p p'
        → take s.deque ≡ done (v, d)
        → t ≡ record { deque = d; pc = update s.pc i (got v) }
        → Step s t
    sleeps :
        (i : ℕ) {p p' : Pc A}
        → s.pc i ≡ p
        → Looks p p'
        → take s.deque ≡ waits
        → t ≡ moved s i p'
        → Step s t
    take_raises :
        (i : ℕ) {p p' : Pc A}
        → s.pc i ≡ p
        → Looks p p'
        → take s.deque ≡ throws_closed
        → t ≡ moved s i raised
        → Step s t
    -- The time of `poll_until` is up, at the mutex or in the wait.
    mutex_times_out : (i : ℕ) → s.pc i ≡ poll_start → t ≡ moved s i timed_out → Step s t
    wait_times_out : (i : ℕ) → s.pc i ≡ poll_asleep → t ≡ moved s i timed_out → Step s t
    -- A thread that was notified is late: `wait_until` reports the timeout all the same.
    woken_times_out : (i : ℕ) → s.pc i ≡ poll_woken → t ≡ moved s i timed_out → Step s t
    closes :
        (i : ℕ)
        → s.pc i ≡ close_start
        → t ≡ record { deque = close s.deque; pc = update (λ j. wake (s.pc j)) i returned }
        → Step s t
    resets :
        (i : ℕ)
        → s.pc i ≡ reset_start
        → t ≡ record { deque = reset s.deque; pc = update (λ j. wake (s.pc j)) i returned }
        → Step s t
    spurious : (i : ℕ) → t ≡ moved s i (wake (s.pc i)) → Step s t

  pub data Reach (s : System A) : System A → Type ℓ where
    here : Reach s s
    next : {t u : System A} → Reach s t → Step t u → Reach s u

  abbrev pub start : Deque A → System A
  start d = record { deque = d; pc = λ _. idle }
