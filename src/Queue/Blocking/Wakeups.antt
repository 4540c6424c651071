-- ===== src/Queue/Blocking/Wakeups.antt =====
-- The threads that wait in the ArrayBlockingQueue of queue.h, counted against its values and places.
use libraft.Prelude.{
  ℕ, ◌+◌, ◌-◌, ◌≤◌, ◌<◌, ◌≡◌, refl, sym, subst, ap, ◌∙◌, true, false, List, arith, length, update,
}
use libraft.Queue.Blocking.{
  Queue, done, word, check_closed, put_locked, put_resumed, take_locked, take_resumed, close,
  throws_closed,
}
use libraft.Queue.Blocking.Refine.{zeroed}
use libraft.Queue.Blocking.Threads.{
  System, Pc, idle, put_start, put_passed, put_asleep, put_woken, take_start, take_passed,
  take_asleep, take_woken, close_start, Stores, Fetches, Step, call_put, call_take, call_close,
  put_check, put_refused, put_waits, put_stores, put_waits_again, put_stores_late, put_raises,
  take_check, take_refused, take_waits, take_fetches, take_waits_again, take_fetches_late,
  take_raises, closes, spurious, Reach, here, next, start, moved,
}
use libraft.Queue.Blocking.History.{InOrder, late_store, late_fetch, start-InOrder, Reach-InOrder}
use libraft.Queue.Sleepers.{Alert, unslept-Watched}
use libraft.Queue.Blocking.Heard.{
  Heard, taker_asleep, taker_woken, putter_asleep, putter_woken, AtRest-unwoken, moved-Heard,
  stored-Heard, fetched-Heard, taker_sleeps-Heard, putter_sleeps-Heard, spurious-Heard,
}

module _ {A : Type 0} where
  put_locked_done :
      (limit : ℕ) (q q' : Queue A) (v : A)
      → q.count ≤ limit
      → limit < word
      → put_locked limit q v ≡ done q'
      → (q.count < limit) × (q'.count ≡ q.count + 1) × (q'.closed ≡ q.closed)
  unfolding put_locked
  put_locked_done limit q q' v le small e = ground arith

  take_locked_done :
      (limit : ℕ) (q q' : Queue A) (v : A)
      → q.count ≤ limit
      → limit < word
      → take_locked limit q ≡ done (v, q')
      → (q'.count < limit) × (q.count ≡ q'.count + 1) × (q'.closed ≡ q.closed)
  unfolding take_locked
  take_locked_done limit q q' v le small e = ground arith

  put_resumed_raises :
      (limit : ℕ) (q : Queue A) (v : A) → put_resumed limit q v ≡ throws_closed → q.closed ≡ true
  unfolding put_resumed check_closed put_locked
  put_resumed_raises limit q v e = ground arith

  take_resumed_raises :
      (limit : ℕ) (q : Queue A) → take_resumed limit q ≡ throws_closed → q.closed ≡ true
  unfolding take_resumed check_closed take_locked
  take_resumed_raises limit q e = ground arith

  -- The invariant of a state: as long as the queue is open.
  abbrev OpenHeard : ℕ → System A → Type 0
  OpenHeard limit s = s.queue.closed ≡ false → Heard limit s.pc s.queue.count

  moved-OpenHeard :
      {limit : ℕ} (s : System A) {t : System A} (i : ℕ) (p : Pc A)
      → (Heard limit s.pc s.queue.count → Heard limit (update s.pc i p) s.queue.count)
      → OpenHeard limit s
      → t ≡ moved s i p
      → OpenHeard limit t
  moved-OpenHeard {limit} s i p f h m = subst (OpenHeard limit) (sym m) (λ o. f (h o))

  -- A step by a thread that stands at `old`.
  plain-OpenHeard :
      {limit : ℕ} (s : System A) {t : System A} (i : ℕ) (old p : Pc A)
      → s.pc i ≡ old
      → taker_asleep p ≡ false
      → putter_asleep p ≡ false
      → taker_woken old ≡ false
      → putter_woken old ≡ false
      → OpenHeard limit s
      → t ≡ moved s i p
      → OpenHeard limit t
  plain-OpenHeard {limit} s i old p e a b c d h m =
      moved-OpenHeard s i p
        (moved-Heard limit s.pc s.queue.count i p a b (ap taker_woken e ∙ c)
          (ap putter_woken e ∙ d))
        h m

  Stores-OpenHeard :
      {limit : ℕ} {s t : System A} {v : A} (i : ℕ) (old : Pc A)
      → InOrder limit s
      → s.pc i ≡ old
      → taker_woken old ≡ false
      → Stores s t i v (put_locked limit s.queue v)
      → OpenHeard limit s
      → OpenHeard limit t
  Stores-OpenHeard {limit} {s} {t} {v} i old o e w st h c =
      let (lt, n, same) =
        put_locked_done limit s.queue t.queue v
          (omega (arith, o.well_formed.fits, o.well_formed.counted)) o.well_formed.small
          st.stored in
      subst (Heard limit t.pc) (sym n) (
        stored-Heard limit s.pc s.queue.count i (ap taker_woken e ∙ w) lt st.notified
          (h (sym same ∙ c)))

  Fetches-OpenHeard :
      {limit : ℕ} {s t : System A} {v : A} (i : ℕ) (old : Pc A)
      → InOrder limit s
      → s.pc i ≡ old
      → putter_woken old ≡ false
      → Fetches s t i v (take_locked limit s.queue)
      → OpenHeard limit s
      → OpenHeard limit t
  Fetches-OpenHeard {limit} {s} {t} {v} i old o e w f h c =
      let (lt, n, same) =
        take_locked_done limit s.queue t.queue v
          (omega (arith, o.well_formed.fits, o.well_formed.counted)) o.well_formed.small
          f.fetched in
      fetched-Heard limit s.pc t.queue.count i v (ap putter_woken e ∙ w) lt f.notified
        (subst (Heard limit s.pc) n (h (sym same ∙ c)))

  Step-OpenHeard :
      {limit : ℕ} {s t : System A}
      → InOrder limit s
      → OpenHeard limit s
      → Step limit s t
      → OpenHeard limit t
  unfolding put_locked put_resumed check_closed take_locked take_resumed close
  Step-OpenHeard {limit} {s} o h (call_put i v r m) =
      moved-OpenHeard s i _
        (moved-Heard limit s.pc s.queue.count i (put_start v) refl refl
          (AtRest-unwoken (s.pc i) r).0 (AtRest-unwoken (s.pc i) r).1)
        h m
  Step-OpenHeard {limit} {s} o h (call_take i r m) =
      moved-OpenHeard s i _
        (moved-Heard limit s.pc s.queue.count i take_start refl refl (AtRest-unwoken (s.pc i) r).0
          (AtRest-unwoken (s.pc i) r).1)
        h m
  Step-OpenHeard {limit} {s} o h (call_close i r m) =
      moved-OpenHeard s i _
        (moved-Heard limit s.pc s.queue.count i close_start refl refl (AtRest-unwoken (s.pc i) r).0
          (AtRest-unwoken (s.pc i) r).1)
        h m
  Step-OpenHeard {s} o h (put_check i v e _ m) =
      plain-OpenHeard s i (put_start v) _ e refl refl refl refl h m
  Step-OpenHeard {s} o h (put_refused i v e _ m) =
      plain-OpenHeard s i (put_start v) _ e refl refl refl refl h m
  Step-OpenHeard {limit} {s} o h (put_waits i v e b m) =
      moved-OpenHeard s i _
        (putter_sleeps-Heard limit s.pc s.queue.count i v (ap taker_woken e) (ground arith)) h m
  Step-OpenHeard o h (put_stores i v e st) = Stores-OpenHeard i (put_passed v) o e refl st h
  Step-OpenHeard {limit} {s} o h (put_waits_again i v e b m) =
      moved-OpenHeard s i _
        (putter_sleeps-Heard limit s.pc s.queue.count i v (ap taker_woken e) (ground arith)) h m
  Step-OpenHeard {limit} o h (put_stores_late i v e st) =
      Stores-OpenHeard i (put_woken v) o e refl (late_store limit st) h
  Step-OpenHeard {limit} {s} o h (put_raises i v e b m) =
      let shut : s.queue.closed ≡ true = put_resumed_raises limit s.queue v b in
      λ c. absurd (ground (arith, ap (λ u. u.queue.closed) m))
  Step-OpenHeard {s} o h (take_check i e _ m) =
      plain-OpenHeard s i take_start _ e refl refl refl refl h m
  Step-OpenHeard {s} o h (take_refused i e _ m) =
      plain-OpenHeard s i take_start _ e refl refl refl refl h m
  Step-OpenHeard {limit} {s} o h (take_waits i e b m) =
      moved-OpenHeard s i _
        (taker_sleeps-Heard limit s.pc s.queue.count i (ap putter_woken e) (ground arith)) h m
  Step-OpenHeard o h (take_fetches i v e f) = Fetches-OpenHeard i take_passed o e refl f h
  Step-OpenHeard {limit} {s} o h (take_waits_again i e b m) =
      moved-OpenHeard s i _
        (taker_sleeps-Heard limit s.pc s.queue.count i (ap putter_woken e) (ground arith)) h m
  Step-OpenHeard {limit} o h (take_fetches_late i v e f) =
      Fetches-OpenHeard i take_woken o e refl (late_fetch limit f) h
  Step-OpenHeard {limit} {s} o h (take_raises i e b m) =
      let shut : s.queue.closed ≡ true = take_resumed_raises limit s.queue b in
      λ c. absurd (ground (arith, ap (λ u. u.queue.closed) m))
  Step-OpenHeard {limit} {s} {t} o h (closes i e m) =
      λ open_t. absurd (ground (arith, ap (λ u. u.queue.closed) m))
  Step-OpenHeard {limit} {s} o h (spurious i m) =
      moved-OpenHeard s i _ (spurious-Heard limit s.pc s.queue.count i) h m

  Reach-OpenHeard :
      {limit : ℕ} {s t : System A}
      → InOrder limit s
      → OpenHeard limit s
      → Reach limit s t
      → OpenHeard limit t
  Reach-OpenHeard o h here = h
  Reach-OpenHeard o h (next r st) = Step-OpenHeard (Reach-InOrder o r) (Reach-OpenHeard o h r) st

  zeroed-Heard :
      (array : List A) {t : System A}
      → 0 < length array
      → length array < word
      → Reach (length array) (start (zeroed array)) t
      → OpenHeard (length array) t
  zeroed-Heard array positive small r =
      Reach-OpenHeard (start-InOrder array positive small)
        (λ _. record {
          takers = unslept-Watched taker_asleep taker_woken (λ i. refl);
          putters = unslept-Watched putter_asleep putter_woken (λ i. refl);
        })
        r

  -- What a thread that stands at `p` may rely on.
  abbrev pub Relieved : ℕ → System A → Pc A → Type 0
  Relieved limit s take_asleep = Alert taker_asleep taker_woken s.pc s.queue.count
  Relieved limit s (put_asleep v) = Alert putter_asleep putter_woken s.pc (limit - s.queue.count)
  Relieved limit s p = Unit

  Heard-Relieved :
      (limit : ℕ) (s : System A) (i : ℕ) (p : Pc A)
      → s.pc i ≡ p
      → Heard limit s.pc s.queue.count
      → Relieved limit s p
  Heard-Relieved limit s i take_asleep e h = h.takers i (ap taker_asleep e)
  Heard-Relieved limit s i (put_asleep v) e h = h.putters i (ap putter_asleep e)
  Heard-Relieved limit s i idle e h = tt
  Heard-Relieved limit s i p e h = tt

  -- However the threads interleave, from zeroed memory with a capacity that is positive and fits 32
  -- bits, and as long as the queue is open: if thread `i` sleeps in `take`, at least as many
  -- threads as there are values have been woken in `take` and are on their way to the mutex; and if it
  -- sleeps in `put`, at least as many as there are free places have been woken in `put`.
  pub zeroed-Relieved :
      (array : List A) {t : System A}
      → 0 < length array
      → length array < word
      → Reach (length array) (start (zeroed array)) t
      → t.queue.closed ≡ false
      → (i : ℕ) → Relieved (length array) t (t.pc i)
  zeroed-Relieved array {t} positive small r o i =
      Heard-Relieved (length array) t i (t.pc i) refl (zeroed-Heard array positive small r o)
