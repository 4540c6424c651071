-- ===== src/Shutdown/Ends.antt =====
-- That a shutdown ends, and what it leaves.
use libraft.Prelude.{ℕ, suc, ◌≡◌, ◌≢◌, refl, Bool, true, false, List, [], ◌∷◌, none, arith}
use libraft.Queue.Blocking
use libraft.Queue.Deque
use libraft.World.{World, Outcome, ret, blocked}
use libraft.Fsm.{RaftFsm, Place, step_from, fsm_worker_from}
use libraft.Snapshots.{Sinks, Worker, run_snapshot_worker}
use libraft.Orphans.{next_orphan, gc_round, orphan_gc_from}
use libraft.Process.{Verdict}
use libraft.Shutdown.{Threads, shm_cleanup, raft_cleanup}

-- The world that is left: the queues closed, no slot mapped, all else as it was.
abbrev pub shut_down : World → World
shut_down w = record w {
  fsm_queue = record w.fsm_queue { closed = true };
  api_queue = record w.api_queue { closed = true };
  orphaned_calls = record w.orphaned_calls { closed = true };
  slots = λ _. none;
}

-- A worker that stands anywhere but between the test of `closed` and the mutex sees the close.
fsm_worker_ends :
    {S : Type 0} (address_of : ℕ → ℕ) (fsm : RaftFsm S) (place : Place) (n : ℕ) (st : S) (w : World)
    → place ≢ Place.past_check
    → w.fsm_queue.closed ≡ true
    → fsm_worker_from address_of fsm place n st w ≡ ret st w
unfolding fsm_worker_from step_from libraft.Queue.Blocking.take libraft.Queue.Blocking.take_resumed
fsm_worker_ends address_of fsm Place.head n st w h c = ground arith
fsm_worker_ends address_of fsm Place.past_check n st w h c = absurd (h refl)
fsm_worker_ends address_of fsm Place.waiting n st w h c = ground arith

-- One that stands there goes to sleep if the queue is empty.
fsm_worker_sleeps :
    {S : Type 0} (address_of : ℕ → ℕ) (fsm : RaftFsm S) (n : ℕ) (st : S) (w : World)
    → w.fsm_queue.count ≡ 0
    → fsm_worker_from address_of fsm Place.past_check n st w ≡ blocked w
unfolding fsm_worker_from step_from libraft.Queue.Blocking.take_locked
fsm_worker_sleeps address_of fsm n st w e = ground arith

snapshot_worker_ends :
    (sinks : Sinks) (n : ℕ) (k : Worker) (w : World)
    → k.snapshot_queue.closed ≡ true
    → run_snapshot_worker sinks (suc n) k w ≡ ret k w
unfolding run_snapshot_worker libraft.Queue.Deque.take
snapshot_worker_ends sinks n k w c = ground arith

-- Whatever is in its backlog, if the time of its next look is not up.
orphan_gc_ends :
    (backlog : List ℕ) (late : Bool) (readings : List (Bool × Bool)) (w : World)
    → w.orphaned_calls.closed ≡ true
    → orphan_gc_from backlog ((false, late) ∷ readings) w ≡ ret tt w
unfolding orphan_gc_from gc_round next_orphan libraft.Queue.Deque.take
orphan_gc_ends [] late readings w c = ground arith
orphan_gc_ends (b ∷ bs) late readings w c = ground arith

abbrev pub fsm_closed : World → World
fsm_closed w = record w { fsm_queue = record w.fsm_queue { closed = true } }

-- What `raft_cleanup` comes to, by where the FSM worker stands when the queue is closed.
abbrev pub ended : {S : Type 0} → Place → S → Worker → World → Outcome (S × Worker × Threads)
ended Place.past_check st k w = blocked (fsm_closed w)
ended place st k w =
    ret
      (
        st,
        record k { snapshot_queue = record k.snapshot_queue { closed = true }; joinable = false },
        record { fsm_worker = false; orphan_gc_thread = false; raft_watcher = false },
      )
      (shut_down w)

-- The worker sees the close.
pub seen_close :
    {S : Type 0} (address_of : ℕ → ℕ) (fsm : RaftFsm S) (sinks : Sinks) (place : Place) (n : ℕ)
    (backlog : List ℕ) (late : Bool) (readings : List (Bool × Bool)) (st : S) (k : Worker)
    (t : Threads) (w : World)
    → t.fsm_worker ≡ true
    → t.orphan_gc_thread ≡ true
    → place ≢ Place.past_check
    → raft_cleanup address_of fsm sinks place
        (suc n)
        backlog
        ((false, late) ∷ readings)
        Verdict.returns
        st
        k
        t
        w
      ≡ ended Place.head st k w
unfolding raft_cleanup shm_cleanup libraft.Queue.Blocking.close libraft.Queue.Deque.close
seen_close address_of fsm sinks place n backlog late readings st k t w f g h =
    let w₂ : World = record (fsm_closed w) {
      api_queue = record w.api_queue { closed = true };
      orphaned_calls = record w.orphaned_calls { closed = true };
    } in
    let k₁ : Worker = record k { snapshot_queue = record k.snapshot_queue { closed = true } } in
    ground (
      arith,
      fsm_worker_ends address_of fsm place (suc n) st (fsm_closed w) h refl,
      snapshot_worker_ends sinks n k₁ (fsm_closed w) refl,
      orphan_gc_ends backlog late readings w₂ refl,
    )

-- The worker misses it.
missed_close :
    {S : Type 0} (address_of : ℕ → ℕ) (fsm : RaftFsm S) (sinks : Sinks) (n : ℕ) (backlog : List ℕ)
    (readings : List (Bool × Bool)) (st : S) (k : Worker) (t : Threads) (w : World)
    → t.fsm_worker ≡ true
    → w.fsm_queue.count ≡ 0
    → raft_cleanup address_of fsm sinks Place.past_check n backlog readings Verdict.returns st k t w
      ≡ blocked (fsm_closed w)
unfolding raft_cleanup libraft.Queue.Blocking.close
missed_close address_of fsm sinks n backlog readings st k t w f e =
    ground (arith, fsm_worker_sleeps address_of fsm n st (fsm_closed w) e)

-- With all of the library's threads started and none of them in the middle of a round, a Raft process
-- whose watcher returns, and a collector whose next look at its queue is not cut short by the time,
-- whatever is in its backlog. If the FSM
-- worker stands at the head of its loop or waits for a call when the queues are closed,
-- `raft_cleanup` ends: whatever is still queued, the FSM worker, the snapshot worker, if there is one,
-- and the collector stop at the next look at their queues, with no call served or freed any more;
-- the four queues are closed, no slot is mapped, and no thread is left to join. If the FSM worker
-- has tested `closed` before the close and comes to the mutex after it, and no call is queued,
-- `raft_cleanup` waits for it for ever, with the other queues as they
-- were.
pub raft_cleanup_ends :
    {S : Type 0} (address_of : ℕ → ℕ) (fsm : RaftFsm S) (sinks : Sinks) (place : Place) (n : ℕ)
    (backlog : List ℕ) (late : Bool) (readings : List (Bool × Bool)) (st : S) (k : Worker)
    (t : Threads) (w : World)
    → t.fsm_worker ≡ true
    → t.orphan_gc_thread ≡ true
    → (place ≡ Place.past_check → w.fsm_queue.count ≡ 0)
    → raft_cleanup address_of fsm sinks place
        (suc n)
        backlog
        ((false, late) ∷ readings)
        Verdict.returns
        st
        k
        t
        w
      ≡ ended place st k w
raft_cleanup_ends address_of fsm sinks Place.head n backlog late readings st k t w f g e =
    seen_close address_of fsm sinks Place.head n backlog late readings st k t w f g (λ q. cc)
raft_cleanup_ends address_of fsm sinks Place.waiting n backlog late readings st k t w f g e =
    seen_close address_of fsm sinks Place.waiting n backlog late readings st k t w f g (λ q. cc)
raft_cleanup_ends address_of fsm sinks Place.past_check n backlog late readings st k t w f g e =
    missed_close address_of fsm sinks (suc n) backlog ((false, late) ∷ readings) st k t w f (e refl)
