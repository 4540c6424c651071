-- ===== src/Tests/Queues.antt =====
-- Runs of the two queues.
use libraft.Prelude.{
  ℕ, ◌<◌, ◌≡◌, ◌≢◌, refl, true, false, List, [], ◌∷◌, arith, update, update_self, ◌++◌,
}
use libraft.Queue.Blocking.{
  take_locked, take_resumed, fault, close, check_closed, done, waits, put_locked, store, inc,
}
use libraft.Queue.Blocking.Fifo
use libraft.Queue.Blocking.Fifo.{Op, puts, takes, closes}
use libraft.Queue.Blocking.Refine
use libraft.Queue.Blocking.Refine.{zeroed, zeroed-run_refines}
use libraft.Queue.Blocking.Threads
use libraft.Queue.Blocking.History.{InOrder, zeroed-Reach}
use libraft.Queue.Blocking.Closing.{Settles, close_misses_taker, Woken-raises}
use libraft.Queue.Deque.{Deque}
use libraft.Queue.Deque
use libraft.Queue.Deque.Threads as Lots
use libraft.Queue.Deque.Closing.{closed_no_sleeper}
use libraft.Queue.Deque.Wakeups as Heard
use libraft.Queue.Deque.Wakeups.{Reach-Relieved}
use libraft.Queue.Deque.Order.{entered, taken, entered-taken}
use libraft.Queue.Blocking.Wakeups
use libraft.Queue.Blocking.Wakeups.{zeroed-Relieved}

abbrev two_cells : List ℕ
two_cells = 0 ∷ 0 ∷ []

-- More values than places, so the indices go round and `put` would wait.
abbrev ops : List (Op ℕ)
ops =
    puts 5
    ∷ puts 6
    ∷ puts 7
    ∷ takes
    ∷ puts 7
    ∷ takes
    ∷ takes
    ∷ takes
    ∷ puts 8
    ∷ closes
    ∷ takes
    ∷ puts 9
    ∷ []

zeroed-run_refines_example :
    Refine.run 2 (zeroed two_cells) ops ≡ Fifo.run 2 (record { items = []; closed = false }) ops
zeroed-run_refines_example = zeroed-run_refines two_cells ops (omega arith) (omega arith)

-- One thread has called `put`.
abbrev one_call : Threads.System ℕ
one_call = Threads.moved (Threads.start (zeroed two_cells)) 3 (Threads.put_start 5)

zeroed-Reach_example :
    InOrder 2 one_call
    × (take_locked 2 one_call.queue ≢ fault)
    × (one_call.queue.head < 2)
    × (one_call.queue.tail < 2)
zeroed-Reach_example =
    zeroed-Reach two_cells {t = one_call} (omega arith) (omega arith)
      (Threads.next Threads.here (Threads.call_put 3 5 tt refl))

close_misses_taker_example :
    (t : Threads.System ℕ) × Threads.Reach 2 (Threads.start (zeroed two_cells)) t
    × (t.queue.closed ≡ true)
    × (t.pc 0 ≡ Threads.take_asleep)
    × (t.pc 1 ≡ Threads.returned)
    × ((k : ℕ) → 0 ≢ k → Threads.AtRest (t.pc k))
close_misses_taker_example = close_misses_taker two_cells 0 1 (λ e. omega arith)

-- Thread 0 was woken by the close.
abbrev woken : Threads.System ℕ
woken = record {
  queue = close (zeroed two_cells);
  pc = update (λ _. Threads.idle) 0 Threads.take_woken;
  entered = [];
  left = [];
}

abbrev thrown : Threads.System ℕ
thrown = Threads.moved woken 0 Threads.raised

Woken-raises_example : Settles woken thrown 0
unfolding zeroed close take_resumed
Woken-raises_example =
    Woken-raises {limit = 2} {s = woken} {t = thrown} 0 (Threads.take_raises 0 refl refl refl) refl
      tt

-- The collector called `take` on an empty queue, waits, and another thread closes it.
abbrev empty : Deque ℕ
empty = record { items = []; closed = false }

abbrev waiting : Lots.System ℕ
waiting = Lots.moved (Lots.moved (Lots.start empty) 0 Lots.take_start) 0 Lots.take_asleep

abbrev closing : Lots.System ℕ
closing = Lots.moved waiting 1 Lots.close_start

abbrev closed : Lots.System ℕ
closed = record {
  deque = Deque.close empty;
  pc = update (λ j. Lots.wake (closing.pc j)) 1 Lots.returned;
}

steps : Lots.Reach (Lots.start empty) closed
unfolding libraft.Queue.Deque.take
steps =
    Lots.next
      (Lots.next
        (Lots.next (Lots.next Lots.here (Lots.calls 0 Lots.take_start tt tt refl))
          (Lots.sleeps 0 refl Lots.take_first refl refl))
        (Lots.calls 1 Lots.close_start tt tt refl))
      (Lots.closes 1 refl refl)

closed_no_sleeper_example : ¬ Lots.IsAsleep (closed.pc 0)
unfolding libraft.Queue.Deque.close
closed_no_sleeper_example = closed_no_sleeper empty {s = closed} steps refl 0

-- Two threads wait in `take`, a third puts a value and wakes the first.
abbrev sleeper : Lots.System ℕ → ℕ → Lots.System ℕ
sleeper s i = Lots.moved (Lots.moved s i Lots.take_start) i Lots.take_asleep

abbrev two_wait : Lots.System ℕ
two_wait = sleeper (sleeper (Lots.start empty) 0) 1

abbrev putting : Lots.System ℕ
putting = Lots.moved two_wait 2 (Lots.put_start 7)

abbrev one_woken : Lots.System ℕ
one_woken = record {
  deque = record { items = 7 ∷ []; closed = false };
  pc = update (update putting.pc 2 Lots.returned) 0 Lots.take_woken;
}

falls_asleep :
    {s : Lots.System ℕ} (i : ℕ)
    → Lots.AtRest (s.pc i)
    → Deque.take s.deque ≡ Deque.waits
    → Lots.Reach (Lots.start empty) s
    → Lots.Reach (Lots.start empty) (sleeper s i)
falls_asleep {s} i a e r =
    Lots.next (Lots.next r (Lots.calls i Lots.take_start a tt refl))
      (Lots.sleeps i (update_self s.pc i Lots.take_start) Lots.take_first e refl)

put_to_waiters : Lots.Reach (Lots.start empty) one_woken
unfolding libraft.Queue.Deque.take libraft.Queue.Deque.put
put_to_waiters =
    Lots.next
      (Lots.next (falls_asleep 1 tt refl (falls_asleep 0 tt refl Lots.here))
        (Lots.calls 2 (Lots.put_start 7) tt tt refl))
      (Lots.puts 2 7 one_woken.deque one_woken.pc refl refl (Lots.one 0 tt refl) refl)

Reach-Relieved_example : Heard.Relieved (Heard.lost put_to_waiters) one_woken (one_woken.pc 1)
Reach-Relieved_example = Reach-Relieved empty {s = one_woken} put_to_waiters refl 1

entered-taken_example : entered put_to_waiters ≡ taken put_to_waiters ++ one_woken.deque.items
entered-taken_example = entered-taken empty {s = one_woken} put_to_waiters

-- The same in an ArrayBlockingQueue of two places.
abbrev ready : Threads.System ℕ
ready = Threads.start (zeroed two_cells)

abbrev taker : Threads.System ℕ → ℕ → Threads.System ℕ
taker s i =
    Threads.moved (Threads.moved (Threads.moved s i Threads.take_start) i Threads.take_passed) i
      Threads.take_asleep

taker_waits :
    {s : Threads.System ℕ} (i : ℕ)
    → Threads.AtRest (s.pc i)
    → check_closed s.queue ≡ done tt
    → take_locked 2 s.queue ≡ waits
    → Threads.Reach 2 ready s
    → Threads.Reach 2 ready (taker s i)
taker_waits {s} i a c e r =
    Threads.next
      (Threads.next (Threads.next r (Threads.call_take i a refl))
        (Threads.take_check i (update_self s.pc i Threads.take_start) c refl))
      (Threads.take_waits i (update_self (update s.pc i Threads.take_start) i Threads.take_passed) e
        refl)

abbrev storing : Threads.System ℕ
storing =
    Threads.moved (Threads.moved (taker (taker ready 0) 1) 2 (Threads.put_start 5)) 2
      (Threads.put_passed 5)

abbrev stored : Threads.System ℕ
stored = record {
  queue = record { array = 5 ∷ 0 ∷ []; head = 1; tail = 0; count = 1; closed = false };
  pc = update (update storing.pc 2 Threads.returned) 0 Threads.take_woken;
  entered = 5 ∷ [];
  left = [];
}

stored_for_waiters : Threads.Reach 2 ready stored
unfolding take_locked check_closed put_locked store zeroed inc
stored_for_waiters =
    Threads.next
      (Threads.next
        (Threads.next (taker_waits 1 tt refl refl (taker_waits 0 tt refl refl Threads.here))
          (Threads.call_put 2 5 tt refl))
        (Threads.put_check 2 5 refl refl refl))
      (Threads.put_stores 2 5 refl (record {
        stored = refl;
        notified = Threads.taker 0 refl refl;
        entered = refl;
        left = refl;
      }))

zeroed-Relieved_example : Wakeups.Relieved 2 stored (stored.pc 1)
zeroed-Relieved_example =
    zeroed-Relieved two_cells {t = stored} (omega arith) (omega arith) stored_for_waiters refl 1
