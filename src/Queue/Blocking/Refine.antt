-- ===== src/Queue/Blocking/Refine.antt =====
-- One thread's calls of ArrayBlockingQueue against the line of values of `Fifo`.
use libraft.Prelude.{ℕ, ◌<◌, ◌≡◌, refl, ap₂, Bool, true, false, List, [], ◌∷◌, arith, length}
use libraft.Queue.Blocking.{
  Queue, Attempt, done, waits, throws_closed, fault, word, put, take, close,
}
use libraft.Queue.Blocking.Fifo.{
  Op, puts, takes, closes, Reply, accepted, got, would_wait, raised, broken, Fifo,
}
use libraft.Queue.Blocking.Fifo
use libraft.Queue.Blocking.Represents.{Represents, store-Represents, fetch-Represents}

module _ {A : Type 0} where
  -- The members as `ArrayBlockingQueue() = default` leaves them in memory filled with zeros.
  unfoldable pub zeroed : List A → Queue A
  zeroed array = record { array = array; head = 0; tail = 0; count = 0; closed = false }

  abbrev after_put : Queue A → Attempt (Queue A) → Queue A × Reply A
  after_put q (done q') = (q', accepted)
  after_put q waits = (q, would_wait)
  after_put q throws_closed = (q, raised)
  after_put q fault = (q, broken)

  abbrev after_take : Queue A → Attempt (A × Queue A) → Queue A × Reply A
  after_take q (done (v, q')) = (q', got v)
  after_take q waits = (q, would_wait)
  after_take q throws_closed = (q, raised)
  after_take q fault = (q, broken)

  -- A call, and what its caller sees. A call that would wait leaves the members as they are.
  pub step : ℕ → Queue A → Op A → Queue A × Reply A
  unfolding put take close
  step limit q (puts v) = after_put q (put limit q v)
  step limit q takes = after_take q (take limit q)
  step limit q closes = (close q, accepted)

  pub run : ℕ → Queue A → List (Op A) → List (Reply A)
  run limit q [] = []
  run limit q (o ∷ os) = let (q', r) = step limit q o in r ∷ run limit q' os

  pub zeroed-Represents :
      (array : List A)
      → 0 < length array
      → length array < word
      → Represents (length array) (zeroed array) []
  unfolding zeroed
  zeroed-Represents array pos small = record {
    storage = refl;
    small = small;
    tail_in = pos;
    counted = refl;
    fits = omega arith;
    head_at = ground arith;
    held = tt;
  }

  pub Represents-closed :
      (limit : ℕ) (q : Queue A) (xs : List A) (b : Bool)
      → Represents limit q xs
      → Represents limit (record q { closed = b }) xs
  Represents-closed limit q xs b r = record {
    storage = r.storage;
    small = r.small;
    tail_in = r.tail_in;
    counted = r.counted;
    fits = r.fits;
    head_at = r.head_at;
    held = r.held;
  }

  -- What a step leaves represents the abstract line, and it answers as the line does.
  abbrev StepsTo : ℕ → Fifo A × Reply A → Queue A × Reply A → Type 0
  StepsTo limit (f, r) (q, r') = Represents limit q f.items × (q.closed ≡ f.closed) × (r' ≡ r)

  -- `xs` and `b` are the fields of the line, so that the proof can split on `xs`.
  step_refines :
      (limit : ℕ) (q : Queue A) (xs : List A) (b : Bool) (o : Op A)
      → Represents limit q xs
      → q.closed ≡ b
      → StepsTo limit (Fifo.step limit (record { items = xs; closed = b }) o) (step limit q o)
  unfolding step Fifo.step
  step_refines limit q xs b (puts v) r e = ground (arith, store-Represents limit q v xs r)
  step_refines limit q [] b takes r e = ground arith
  step_refines limit q (x ∷ xs) b takes r e = ground (arith, fetch-Represents limit q x xs r)
  step_refines limit q xs b closes r e = (Represents-closed limit q xs true r, refl, refl)

  run_refines :
      (limit : ℕ) (q : Queue A) (f : Fifo A) (ops : List (Op A))
      → Represents limit q f.items
      → q.closed ≡ f.closed
      → run limit q ops ≡ Fifo.run limit f ops
  unfolding run Fifo.run
  run_refines limit q f [] r e = refl
  run_refines limit q f (o ∷ ops) r e =
      ap₂ ◌∷◌ s.2 (run_refines limit (step limit q o).0 (Fifo.step limit f o).0 ops s.0 s.1)
    where
      s : StepsTo limit (Fifo.step limit f o) (step limit q o)
      s = step_refines limit q f.items f.closed o r e

  -- From zeroed memory, with a capacity that is positive and fits 32 bits, every sequence of calls
  -- by one thread gets the answers of a bounded first-in first-out line that starts empty and open:
  -- `put` is accepted, would wait when full or throws when closed, `take` returns the oldest value,
  -- would wait when empty or throws when closed, and no access leaves the array.
  pub zeroed-run_refines :
      (array : List A) (ops : List (Op A))
      → 0 < length array
      → length array < word
      → run (length array) (zeroed array) ops
        ≡ Fifo.run (length array) (record { items = []; closed = false }) ops
  unfolding zeroed
  zeroed-run_refines array ops positive small =
      run_refines (length array) (zeroed array) (record { items = []; closed = false }) ops
        (zeroed-Represents array positive small) refl
