-- ===== src/Queue/Blocking/Closing.antt =====
-- What `close` reaches, and the waiter that it misses.
use libraft.Prelude.{
  ℕ, ◌≡◌, ◌≢◌, ◌⊎◌, inl, inr, refl, ap, ◌∙◌, subst, sym, Bool-cases, ◌==◌, length, List, true,
  arith, update, update_self, update_ne,
}
use libraft.Queue.Blocking.{
  Queue, check_closed, done, throws_closed, put_locked, put_resumed, take_locked, take_resumed,
  close,
}
use libraft.Queue.Blocking.Threads.{
  System, Pc, idle, put_start, put_passed, take_start, put_asleep, put_woken, take_passed,
  take_asleep, take_woken, close_start, returned, raised, got, AtRest, wake, moved, NotifiesTaker,
  taker, no_taker, NotifiesPutter, putter, no_putter, Stores, Fetches, Step, call_put, call_take,
  call_close, put_check, put_refused, put_waits, put_stores, put_waits_again, put_stores_late,
  put_raises, take_check, take_refused, take_waits, take_fetches, take_waits_again,
  take_fetches_late, take_raises, closes, spurious, Reach, here, next, start,
}
use libraft.Queue.Blocking.Refine.{zeroed}

module _ {A : Type 0} where
  AtRest-eq : {p : Pc A} (q : Pc A) → p ≡ q → AtRest q → AtRest p
  AtRest-eq q e r = subst AtRest (sym e) r

  -- From zeroed memory, any two threads `i` and `j` can act so that the queue is closed, `i` sleeps in
  -- `take`, and every other thread is at rest, `j` having closed the queue.
  pub close_misses_taker :
      (array : List A) (i j : ℕ)
      → i ≢ j
      → (t : System A) × Reach (length array) (start (zeroed array)) t
        × (t.queue.closed ≡ true)
        × (t.pc i ≡ take_asleep)
        × (t.pc j ≡ returned)
        × ((k : ℕ) → i ≢ k → AtRest (t.pc k))
  unfolding close take_locked check_closed zeroed
  close_misses_taker array i j ne = (
    moved closed i take_asleep,
    next
        (next
          (next (next (next here (call_take i tt refl)) (take_check i (ground arith) refl refl))
            (call_close j (AtRest-eq idle (ground arith) tt) refl))
          (closes j (ground arith) refl))
        (take_waits i (ground arith) refl refl),
    refl,
    update_self closed.pc i take_asleep,
    ground arith,
    λ k n. elim (Bool-cases (j == k)) [
      | inl e ↦ AtRest-eq returned (ground arith) tt
      | inr e ↦ AtRest-eq idle (ground arith) tt
    ],
  )
    where
      called : System A
      called = moved (moved (start (zeroed array)) i take_start) i take_passed

      closing : System A
      closing = moved called j close_start

      closed : System A
      closed = record closing {
        queue = close closing.queue;
        pc = update (λ k. wake (closing.pc k)) j returned;
      }

  abbrev Woken : Pc A → Type 0
  Woken (put_woken v) = Unit
  Woken take_woken = Unit
  Woken p = ⊥

  -- What a closed queue lets become of a woken thread.
  abbrev pub Settles : System A → System A → ℕ → Type 0
  Settles s t k = (t.queue.closed ≡ true) × ((t.pc k ≡ s.pc k) ⊎ (t.pc k ≡ raised))

  Woken-ne : (pc : ℕ → Pc A) (i k : ℕ) (p : Pc A) → pc i ≡ p → (Woken p → ⊥) → Woken (pc k) → i ≢ k
  Woken-ne pc i k p e h w same = h (subst Woken e (rw same w))

  moved-Settles :
      (s t : System A) (i k : ℕ) (p : Pc A)
      → s.queue.closed ≡ true
      → ((i ≢ k) ⊎ (p ≡ raised))
      → t ≡ moved s i p
      → Settles s t k
  moved-Settles s t i k p c h m = ground (arith, ap (λ u. u.pc k) m, ap (λ u. u.queue.closed) m)

  notified_taker : {pc pc' : ℕ → Pc A} (k : ℕ) → Woken (pc k) → NotifiesTaker pc pc' → pc' k ≡ pc k
  notified_taker {pc} k w (taker j e m) =
      ap (λ f. f k) m ∙ update_ne pc take_woken (Woken-ne pc j k take_asleep e (λ b. b) w)
  notified_taker k w (no_taker h m) = ap (λ f. f k) m

  notified_putter :
      {pc pc' : ℕ → Pc A} (k : ℕ) → Woken (pc k) → NotifiesPutter pc pc' → pc' k ≡ pc k
  notified_putter {pc} k w (putter j v e m) =
      ap (λ f. f k) m ∙ update_ne pc (put_woken v) (Woken-ne pc j k (put_asleep v) e (λ b. b) w)
  notified_putter k w (no_putter h m) = ap (λ f. f k) m

  put_locked-closed :
      (limit : ℕ) (q q' : Queue A) (v : A) → put_locked limit q v ≡ done q' → q'.closed ≡ q.closed
  unfolding put_locked
  put_locked-closed limit q q' v e = ground arith

  take_locked-closed :
      (limit : ℕ) (q q' : Queue A) (v : A)
      → take_locked limit q ≡ done (v, q')
      → q'.closed ≡ q.closed
  unfolding take_locked
  take_locked-closed limit q q' v e = ground arith

  -- A thread that holds the mutex for the first time stores or fetches; thread `k` is another.
  Stores-Settles :
      (limit : ℕ) {s t : System A} (i k : ℕ) (v : A)
      → s.queue.closed ≡ true
      → Woken (s.pc k)
      → i ≢ k
      → Stores s t i v (put_locked limit s.queue v)
      → Settles s t k
  Stores-Settles limit {s} {t} i k v c w ne st = (
    put_locked-closed limit s.queue t.queue v st.stored ∙ c,
    inl (
        notified_taker k (rw (update_ne s.pc returned ne) w) st.notified
        ∙ update_ne s.pc returned ne),
  )

  Fetches-Settles :
      (limit : ℕ) {s t : System A} (i k : ℕ) (v : A)
      → s.queue.closed ≡ true
      → Woken (s.pc k)
      → i ≢ k
      → Fetches s t i v (take_locked limit s.queue)
      → Settles s t k
  Fetches-Settles limit {s} {t} i k v c w ne f = (
    take_locked-closed limit s.queue t.queue v f.fetched ∙ c,
    inl (
        notified_putter k (rw (update_ne s.pc (got v) ne) w) f.notified
        ∙ update_ne s.pc (got v) ne),
  )

  put_resumed_raises :
      (limit : ℕ) (q : Queue A) (v : A) → q.closed ≡ true → put_resumed limit q v ≡ throws_closed
  unfolding put_resumed
  put_resumed_raises limit q v c = ground arith

  take_resumed_raises :
      (limit : ℕ) (q : Queue A) → q.closed ≡ true → take_resumed limit q ≡ throws_closed
  unfolding take_resumed
  take_resumed_raises limit q c = ground arith

  AtRest-Woken : (p : Pc A) → AtRest p → Woken p → ⊥
  AtRest-Woken Pc.idle r w = w
  AtRest-Woken p r w = assumption

  rest_ne : (pc : ℕ → Pc A) (i k : ℕ) → AtRest (pc i) → Woken (pc k) → i ≢ k
  rest_ne pc i k r w = Woken-ne pc i k (pc i) refl (AtRest-Woken (pc i) r) w

  wake-Woken : (p : Pc A) → Woken p → wake p ≡ p
  wake-Woken (put_asleep v) w = absurd w
  wake-Woken take_asleep w = absurd w
  wake-Woken p w = refl

  spurious-Settles :
      (s t : System A) (i k : ℕ)
      → s.queue.closed ≡ true
      → Woken (s.pc k)
      → t ≡ moved s i (wake (s.pc i))
      → Settles s t k
  spurious-Settles s t i k c w m = ground (
    arith,
    ap (λ u. u.pc k) m,
    ap (λ u. u.queue.closed) m,
    wake-Woken (s.pc k) w,
    ap (λ (n : ℕ). wake (s.pc n)) {x = i} {y = k},
  )

  -- Once the queue is closed it stays so, and a woken thread is left where it is or throws
  -- `queue_closed`: it neither stores, fetches nor goes back to sleep.
  pub Woken-raises :
      {limit : ℕ} {s t : System A} (k : ℕ)
      → Step limit s t
      → s.queue.closed ≡ true
      → Woken (s.pc k)
      → Settles s t k
  unfolding close
  Woken-raises {s} {t} k (call_put i v e m) c w =
      moved-Settles s t i k _ c (inl (rest_ne s.pc i k e w)) m
  Woken-raises {s} {t} k (call_take i e m) c w =
      moved-Settles s t i k _ c (inl (rest_ne s.pc i k e w)) m
  Woken-raises {s} {t} k (call_close i e m) c w =
      moved-Settles s t i k _ c (inl (rest_ne s.pc i k e w)) m
  Woken-raises {s} {t} k (put_check i v e _ m) c w =
      moved-Settles s t i k _ c (inl (Woken-ne s.pc i k (put_start v) e (λ b. b) w)) m
  Woken-raises {s} {t} k (put_refused i v e _ m) c w =
      moved-Settles s t i k _ c (inl (Woken-ne s.pc i k (put_start v) e (λ b. b) w)) m
  Woken-raises {s} {t} k (put_waits i v e _ m) c w =
      moved-Settles s t i k _ c (inl (Woken-ne s.pc i k (put_passed v) e (λ b. b) w)) m
  Woken-raises {limit} {s} k (put_stores i v e st) c w =
      Stores-Settles limit i k v c w (Woken-ne s.pc i k (put_passed v) e (λ b. b) w) st
  Woken-raises {limit} {s} k (put_waits_again i v e h m) c w =
      absurd (cc (put_resumed_raises limit s.queue v c))
  Woken-raises {limit} {s} k (put_stores_late i v e st) c w =
      absurd (cc (st.stored, put_resumed_raises limit s.queue v c))
  Woken-raises {s} {t} k (put_raises i v e h m) c w = moved-Settles s t i k raised c (inr refl) m
  Woken-raises {s} {t} k (take_check i e _ m) c w =
      moved-Settles s t i k _ c (inl (Woken-ne s.pc i k take_start e (λ b. b) w)) m
  Woken-raises {s} {t} k (take_refused i e _ m) c w =
      moved-Settles s t i k _ c (inl (Woken-ne s.pc i k take_start e (λ b. b) w)) m
  Woken-raises {s} {t} k (take_waits i e _ m) c w =
      moved-Settles s t i k _ c (inl (Woken-ne s.pc i k take_passed e (λ b. b) w)) m
  Woken-raises {limit} {s} k (take_fetches i v e f) c w =
      Fetches-Settles limit i k v c w (Woken-ne s.pc i k take_passed e (λ b. b) w) f
  Woken-raises {limit} {s} k (take_waits_again i e h m) c w =
      absurd (cc ((take_resumed_raises limit s.queue c)))
  Woken-raises {limit} {s} k (take_fetches_late i v e f) c w =
      absurd (cc (f.fetched, take_resumed_raises limit s.queue c))
  Woken-raises {s} {t} k (take_raises i e h m) c w = moved-Settles s t i k raised c (inr refl) m
  Woken-raises {s} {t} k (closes i e m) c w = ground (
    arith,
    ap (λ u. u.pc k) m,
    ap (λ u. u.queue.closed) m,
    wake-Woken (s.pc k) w,
    Woken-ne s.pc i k close_start e (λ b. b) w,
  )
  Woken-raises {s} {t} k (spurious i m) c w = spurious-Settles s t i k c w m
