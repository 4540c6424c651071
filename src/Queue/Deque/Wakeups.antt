-- ===== src/Queue/Deque/Wakeups.antt =====
-- The threads that wait in the Deque of queue.h, counted against its values.
use libraft.Prelude.{
  ℕ, suc, ◌+◌, ◌-◌, ◌≡◌, refl, sym, subst, ap, Bool, true, false, [], ◌∷◌, arith, length,
  length-append, update,
}
use libraft.Queue.Deque.{Deque, done, waits, throws_closed, put, take, close, reset}
use libraft.Queue.Deque.Threads.{
  Pc, System, idle, take_asleep, take_woken, poll_asleep, poll_woken, returned, timed_out, raised,
  got, wake, IsAsleep, AtRest, IsCall, Notifies, one, nobody, moved, Step, calls, puts, put_raises,
  takes, sleeps, take_raises, mutex_times_out, wait_times_out, woken_times_out, closes, resets,
  spurious, Reach, here, next, start,
}
use libraft.Queue.Sleepers.{
  Alert, Watched, fewer-Watched, kept, spent, notified, moved-Watched, idle-Watched,
  unslept-Watched,
}

module _ {A : Type 0} where
  abbrev pub asleep : Pc A → Bool
  asleep take_asleep = true
  asleep poll_asleep = true
  asleep _ = false

  abbrev pub woken : Pc A → Bool
  woken take_woken = true
  woken poll_woken = true
  woken _ = false

  asleep-IsAsleep : (p : Pc A) → ¬ IsAsleep p → asleep p ≡ false
  asleep-IsAsleep take_asleep h = absurd (h tt)
  asleep-IsAsleep poll_asleep h = absurd (h tt)
  asleep-IsAsleep idle h = refl
  asleep-IsAsleep p h = refl

  wake-IsAsleep :
      (p : Pc A)
      → IsAsleep p
      → (woken p ≡ false) × (woken (wake p) ≡ true) × (asleep (wake p) ≡ false)
  wake-IsAsleep take_asleep h = (refl, refl, refl)
  wake-IsAsleep poll_asleep h = (refl, refl, refl)
  wake-IsAsleep p h = elim h [ ]

  wake_lem : (p : Pc A) → (asleep (wake p) ≡ false) × (woken p ≡ true → woken (wake p) ≡ true)
  wake_lem idle = (refl, (λ e. e))
  wake_lem take_asleep = (refl, (λ e. refl))
  wake_lem poll_asleep = (refl, (λ e. refl))
  wake_lem p = (refl, (λ e. e))

  AtRest-unwoken : (p : Pc A) → AtRest p → woken p ≡ false
  AtRest-unwoken take_woken r = elim r [ ]
  AtRest-unwoken poll_woken r = elim r [ ]
  AtRest-unwoken idle r = refl
  AtRest-unwoken p r = refl

  IsCall-unslept : (p : Pc A) → IsCall p → asleep p ≡ false
  IsCall-unslept take_asleep r = elim r [ ]
  IsCall-unslept poll_asleep r = elim r [ ]
  IsCall-unslept idle r = refl
  IsCall-unslept p r = refl

  -- How many notifications were lost since a thread last went to sleep or the Deque was reset: a call
  -- of `poll_until` was woken, but its time was up before it looked again.
  abbrev pub after : {s t : System A} → Step s t → ℕ → ℕ
  after (woken_times_out i e m) n = suc n
  after (sleeps i e l w m) n = 0
  after (resets i e m) n = 0
  after st n = n

  abbrev pub lost : {s t : System A} → Reach s t → ℕ
  lost here = 0
  lost (next r st) = after st (lost r)

  -- The invariant, with `n` notifications lost, as long as the Deque is open.
  abbrev pub Heard : ℕ → System A → Type 0
  Heard n s = s.deque.closed ≡ false → Watched asleep woken s.pc (length s.deque.items - n)

  -- A thread that is not woken goes on.
  moved-Heard :
      (n : ℕ) (s : System A) {t : System A} (i : ℕ) (p : Pc A)
      → asleep p ≡ false
      → (woken (s.pc i) ≡ true → woken p ≡ true)
      → Heard n s
      → t ≡ moved s i p
      → Heard n t
  moved-Heard n s i p a b h m =
      subst (Heard n) (sym m)
        λ o. moved-Watched asleep woken i p a (kept asleep woken i p b (omega arith)) (h o)

  put_done :
      (d d' : Deque A) (v : A)
      → put d v ≡ done d'
      → (d.closed ≡ false) × (length d'.items ≡ length d.items + 1)
  unfolding put
  put_done d d' v e = ground (arith, length-append d.items (v ∷ []))

  take_done :
      (d d' : Deque A) (v : A)
      → take d ≡ done (v, d')
      → (d.closed ≡ false) × (length d.items ≡ length d'.items + 1)
  unfolding take
  take_done d d' v e = ground arith

  take_raises_closed : (d : Deque A) → take d ≡ throws_closed → d.closed ≡ true
  unfolding take
  take_raises_closed d e = ground arith

  waits_empty : (d : Deque A) → take d ≡ waits → length d.items ≡ 0
  unfolding take
  waits_empty d e = ground arith

  -- A value was put by thread `i`, and a waiter was woken if one slept.
  put-Watched :
      (pc : ℕ → Pc A) {pc' : ℕ → Pc A} (count i : ℕ)
      → woken (pc i) ≡ false
      → Notifies (update pc i returned) pc'
      → Watched asleep woken pc count
      → Watched asleep woken pc' (count + 1)
  put-Watched pc count i w n h = go n
    where
      waiting : Watched asleep woken (update pc i returned) count
      waiting =
          moved-Watched asleep woken i returned refl
            (kept asleep woken i returned (λ e. absurd (ground arith)) (omega arith)) h

      go :
          {pc' : ℕ → Pc A}
          → Notifies (update pc i returned) pc'
          → Watched asleep woken pc' (count + 1)
      go (one j a m) =
          let (off, on, awake) = wake-IsAsleep (update pc i returned j) a in
          subst (λ q. Watched asleep woken q (count + 1)) (sym m)
            (moved-Watched asleep woken j (wake (update pc i returned j)) awake
              (notified asleep woken j (wake (update pc i returned j)) off on (omega arith))
              waiting)
      go (nobody none m) =
          subst (λ q. Watched asleep woken q (count + 1)) (sym m)
            (unslept-Watched asleep woken λ k. asleep-IsAsleep (update pc i returned k) (none k))

  Step-Heard : {s t : System A} (n : ℕ) → Heard n s → (st : Step s t) → Heard (after st n) t
  unfolding close reset
  Step-Heard {s} n h (calls i p r c m) =
      moved-Heard n s i p (IsCall-unslept p c)
        (λ e. absurd (ground (arith, AtRest-unwoken (s.pc i) r))) h m
  Step-Heard {s} n h (puts i v d pc e p note m) =
      let (o, l) = put_done s.deque d v p in
      subst (Heard n) (sym m) λ _.
        fewer-Watched asleep woken (omega (arith, l))
          (put-Watched s.pc (length s.deque.items - n) i (ap woken e) note (h o))
  Step-Heard {s} n h (put_raises i v e _ m) =
      moved-Heard n s i raised refl (λ on. absurd (ground (arith, ap woken e))) h m
  Step-Heard {s} n h (takes i v d e looks p m) =
      let (o, l) = take_done s.deque d v p in
      subst (Heard n) (sym m) λ _.
        moved-Watched asleep woken i (got v) refl (spent asleep woken i (got v) (omega (arith, l)))
          (h o)
  Step-Heard {s} n h (sleeps i e l w m) =
      subst (Heard 0) (sym m) λ _. idle-Watched asleep woken (omega (arith, waits_empty s.deque w))
  Step-Heard {s} n h (take_raises i e l p m) =
      let shut : s.deque.closed ≡ true = take_raises_closed s.deque p in
      subst (Heard n) (sym m) λ o. absurd (ground arith)
  Step-Heard {s} n h (mutex_times_out i e m) =
      moved-Heard n s i timed_out refl (λ on. absurd (ground (arith, ap woken e))) h m
  Step-Heard {s} n h (wait_times_out i e m) =
      moved-Heard n s i timed_out refl (λ on. absurd (ground (arith, ap woken e))) h m
  Step-Heard {s} n h (woken_times_out i e m) = subst (Heard (suc n)) (sym m) λ o.
      moved-Watched asleep woken i timed_out refl (spent asleep woken i timed_out (omega arith))
        (h o)
  Step-Heard {s} n h (closes i e m) = subst (Heard n) (sym m) λ o. absurd (ground arith)
  Step-Heard {s} n h (resets i e m) =
      subst (Heard 0) (sym m) λ _. idle-Watched asleep woken (omega arith)
  Step-Heard {s} n h (spurious i m) =
      moved-Heard n s i (wake (s.pc i)) (wake_lem (s.pc i)).0 (wake_lem (s.pc i)).1 h m

  Reach-Heard : (d : Deque A) {s : System A} (r : Reach (start d) s) → Heard (lost r) s
  Reach-Heard d here = λ _. unslept-Watched asleep woken (λ i. refl)
  Reach-Heard d (next r st) = Step-Heard (lost r) (Reach-Heard d r) st

  -- What a thread that stands at `p` may rely on, with `n` notifications lost.
  abbrev pub Relieved : ℕ → System A → Pc A → Type 0
  Relieved n s take_asleep = Alert asleep woken s.pc (length s.deque.items - n)
  Relieved n s poll_asleep = Alert asleep woken s.pc (length s.deque.items - n)
  Relieved n s p = Unit

  Watched-Relieved :
      (n : ℕ) (s : System A) (i : ℕ) (p : Pc A)
      → s.pc i ≡ p
      → Watched asleep woken s.pc (length s.deque.items - n)
      → Relieved n s p
  Watched-Relieved n s i take_asleep e w = w i (ap asleep e)
  Watched-Relieved n s i poll_asleep e w = w i (ap asleep e)
  Watched-Relieved n s i idle e w = tt
  Watched-Relieved n s i p e w = tt

  -- However threads interleave from the idle state, and while the Deque is open: if thread `i` sleeps
  -- in `take` or in `poll_until`, enough threads have been woken in these calls and are on their way
  -- to the mutex: one for each value, save for those notifications that went to a call of `poll_until`
  -- whose time was up when it came back, counted since a thread last went to sleep or the Deque was
  -- reset.
  pub Reach-Relieved :
      (d : Deque A) {s : System A} (r : Reach (start d) s)
      → s.deque.closed ≡ false
      → (i : ℕ) → Relieved (lost r) s (s.pc i)
  Reach-Relieved d {s} r o i = Watched-Relieved (lost r) s i (s.pc i) refl (Reach-Heard d r o)
