-- ===== src/Queue/Blocking/Threads.antt =====
-- Any number of threads in calls of one ArrayBlockingQueue. A step is what one thread does between
-- two points where others can act; a wait gives the mutex up, and `notify_one` wakes some waiter.
use libraft.Prelude.{ℕ, ◌≡◌, ◌≢◌, List, [], ◌∷◌, ◌++◌, update}
use libraft.Queue.Blocking.{
  Queue, Attempt, done, waits, throws_closed, check_closed, put_locked, put_resumed, take_locked,
  take_resumed, close,
}

-- Where a thread stands. `asleep` is in the wait of the loop, `woken` on its way back to the mutex.
pub data Pc {ℓ} (A : Type ℓ) : Type ℓ where
  idle : Pc A
  put_start put_passed put_asleep put_woken : A → Pc A
  take_start take_passed take_asleep take_woken : Pc A
  close_start : Pc A
  returned : Pc A
  got : A → Pc A
  raised : Pc A

-- `entered` and `left` are the values stored and fetched so far, in order.
pub record System {ℓ} (A : Type ℓ) : Type ℓ where
  pub queue : Queue A
  pub pc : ℕ → Pc A
  pub entered : List A
  pub left : List A

module _ {ℓ} {A : Type ℓ} where
  abbrev pub wake : Pc A → Pc A
  wake (put_asleep v) = put_woken v
  wake take_asleep = take_woken
  wake p = p

  -- A thread that is in no call can make one.
  abbrev pub AtRest : Pc A → Type 0
  AtRest idle = Unit
  AtRest returned = Unit
  AtRest (got v) = Unit
  AtRest raised = Unit
  AtRest p = ⊥

  -- `notify_one` on `not_empty` and on `not_full`: one waiter, or nobody if none waits.
  pub data NotifiesTaker (pc pc' : ℕ → Pc A) : Type ℓ where
    taker : (i : ℕ) → pc i ≡ take_asleep → pc' ≡ update pc i take_woken → NotifiesTaker pc pc'
    no_taker : ((i : ℕ) → pc i ≢ take_asleep) → pc' ≡ pc → NotifiesTaker pc pc'

  pub data NotifiesPutter (pc pc' : ℕ → Pc A) : Type ℓ where
    putter :
        (i : ℕ) (v : A)
        → pc i ≡ put_asleep v
        → pc' ≡ update pc i (put_woken v)
        → NotifiesPutter pc pc'
    no_putter : ((i : ℕ) (v : A) → pc i ≢ put_asleep v) → pc' ≡ pc → NotifiesPutter pc pc'

  -- What thread `i` stores or fetches, and whom it wakes.
  pub record Stores (s t : System A) (i : ℕ) (v : A) (r : Attempt (Queue A)) : Type ℓ where
    pub stored : r ≡ done t.queue
    pub notified : NotifiesTaker (update s.pc i returned) t.pc
    pub entered : t.entered ≡ s.entered ++ v ∷ []
    pub left : t.left ≡ s.left

  pub record Fetches (s t : System A) (i : ℕ) (v : A) (r : Attempt (A × Queue A)) : Type ℓ where
    pub fetched : r ≡ done (v, t.queue)
    pub notified : NotifiesPutter (update s.pc i (got v)) t.pc
    pub entered : t.entered ≡ s.entered
    pub left : t.left ≡ s.left ++ v ∷ []

  abbrev pub moved : System A → ℕ → Pc A → System A
  moved s i p = record s { pc = update s.pc i p }

  -- One step of thread `i`. `limit` is the capacity.
  pub data Step (limit : ℕ) (s t : System A) : Type ℓ where
    call_put : (i : ℕ) (v : A) → AtRest (s.pc i) → t ≡ moved s i (put_start v) → Step limit s t
    call_take : (i : ℕ) → AtRest (s.pc i) → t ≡ moved s i take_start → Step limit s t
    call_close : (i : ℕ) → AtRest (s.pc i) → t ≡ moved s i close_start → Step limit s t
    put_check :
        (i : ℕ) (v : A)
        → s.pc i ≡ put_start v
        → check_closed s.queue ≡ done tt
        → t ≡ moved s i (put_passed v)
        → Step limit s t
    put_refused :
        (i : ℕ) (v : A)
        → s.pc i ≡ put_start v
        → check_closed s.queue ≡ throws_closed
        → t ≡ moved s i raised
        → Step limit s t
    put_waits :
        (i : ℕ) (v : A)
        → s.pc i ≡ put_passed v
        → put_locked limit s.queue v ≡ waits
        → t ≡ moved s i (put_asleep v)
        → Step limit s t
    put_stores :
        (i : ℕ) (v : A)
        → s.pc i ≡ put_passed v
        → Stores s t i v (put_locked limit s.queue v)
        → Step limit s t
    put_waits_again :
        (i : ℕ) (v : A)
        → s.pc i ≡ put_woken v
        → put_resumed limit s.queue v ≡ waits
        → t ≡ moved s i (put_asleep v)
        → Step limit s t
    put_stores_late :
        (i : ℕ) (v : A)
        → s.pc i ≡ put_woken v
        → Stores s t i v (put_resumed limit s.queue v)
        → Step limit s t
    put_raises :
        (i : ℕ) (v : A)
        → s.pc i ≡ put_woken v
        → put_resumed limit s.queue v ≡ throws_closed
        → t ≡ moved s i raised
        → Step limit s t
    take_check :
        (i : ℕ)
        → s.pc i ≡ take_start
        → check_closed s.queue ≡ done tt
        → t ≡ moved s i take_passed
        → Step limit s t
    take_refused :
        (i : ℕ)
        → s.pc i ≡ take_start
        → check_closed s.queue ≡ throws_closed
        → t ≡ moved s i raised
        → Step limit s t
    take_waits :
        (i : ℕ)
        → s.pc i ≡ take_passed
        → take_locked limit s.queue ≡ waits
        → t ≡ moved s i take_asleep
        → Step limit s t
    take_fetches :
        (i : ℕ) (v : A)
        → s.pc i ≡ take_passed
        → Fetches s t i v (take_locked limit s.queue)
        → Step limit s t
    take_waits_again :
        (i : ℕ)
        → s.pc i ≡ take_woken
        → take_resumed limit s.queue ≡ waits
        → t ≡ moved s i take_asleep
        → Step limit s t
    take_fetches_late :
        (i : ℕ) (v : A)
        → s.pc i ≡ take_woken
        → Fetches s t i v (take_resumed limit s.queue)
        → Step limit s t
    take_raises :
        (i : ℕ)
        → s.pc i ≡ take_woken
        → take_resumed limit s.queue ≡ throws_closed
        → t ≡ moved s i raised
        → Step limit s t
    closes :
        (i : ℕ)
        → s.pc i ≡ close_start
        → t ≡ record s { queue = close s.queue; pc = update (λ j. wake (s.pc j)) i returned }
        → Step limit s t
    -- A wait may also end with no notification.
    spurious : (i : ℕ) → t ≡ moved s i (wake (s.pc i)) → Step limit s t

  -- Everything that can happen from `s` on.
  pub data Reach (limit : ℕ) (s : System A) : System A → Type ℓ where
    here : Reach limit s s
    next : {t u : System A} → Reach limit s t → Step limit t u → Reach limit s u

  -- No thread is in a call yet.
  abbrev pub start : Queue A → System A
  start q = record { queue = q; pc = λ _. idle; entered = []; left = [] }
