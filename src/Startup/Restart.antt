-- ===== src/Startup/Restart.antt =====
-- A client that stops the library and starts it again, in one process.
use libraft.Prelude.{ℕ, ◌≡◌, ◌≢◌, refl, ◌∷◌, [], Bool, true, false, List, Option, none, suc}
use libraft.Config.{RaftConfig}
use libraft.Queue.Blocking.Refine.{zeroed}
use libraft.World.{World, ret}
use libraft.Fsm.{RaftFsm, Place}
use libraft.Snapshots.{Sinks}
use libraft.Process.{Verdict}
use libraft.Shutdown.{raft_cleanup}
use libraft.Shutdown.Ends.{seen_close, shut_down}
use libraft.Startup.{System, Client, raft_init}
use libraft.Startup.Ready.{none_started}

-- What a process holds before its first start.
abbrev pub new_client : Client
new_client = record {
  messages = [];
  snapshots = record { snapshot_queue = record { items = []; closed = false }; joinable = false };
  threads = none_started;
}

-- No shared memory: only the clock, what went back to the allocators, and what the stack holds.
abbrev pub unmapped : World → World
unmapped w = record w {
  slots = λ _. none;
  api_queue = zeroed [];
  fsm_queue = zeroed [];
  orphaned_calls = record { items = []; closed = false };
  stats = record { buffer_alloc = 0; buffer_free = 0; call_alloc = 0; call_free = 0 };
  is_leader = false;
  shutdown_requested = false;
  raft_killed = false;
  msg_timing = false;
  shm_base = 0;
  shm_size = 0;
}

-- However the library was used since it was started, and whatever is still queued, in use or in the
-- collector's backlog when `raft_cleanup` is called with the FSM worker and the collector running and
-- with a watcher that returns: if no thread is in the middle of a round then, the FSM worker is not
-- between the test of `closed` and the mutex, and the collector's next look at its queue is not cut short by the time, `raft_cleanup` ends,
-- and a `raft_init` after it does what the first start of a process does. It gives the same outcome,
-- be it an error, with the same queues, counters, flags, threads and configuration.
pub restarted :
    {S : Type 0} (address_of : ℕ → ℕ) (fsm : RaftFsm S) (sinks : Sinks) (place : Place) (n : ℕ)
    (backlog : List ℕ) (late : Bool) (readings : List (Bool × Bool)) (st : S) (client : Client)
    (w : World) (sys : System) (junk : RaftConfig) (arg : Option RaftConfig)
    → client.threads.fsm_worker ≡ true
    → client.threads.orphan_gc_thread ≡ true
    → place ≢ Place.past_check
    → (client' : Client) × (w' : World) × (raft_cleanup address_of fsm sinks place
          (suc n)
          backlog
          ((false, late) ∷ readings)
          Verdict.returns
          st
          client.snapshots
          client.threads
          w
        ≡ ret (st, client'.snapshots, client'.threads) w')
      × (raft_init sys junk arg client' w' ≡ raft_init sys junk arg new_client (unmapped w))
unfolding raft_init libraft.Startup.shm_init libraft.Queue.Deque.reset
restarted address_of fsm sinks place n backlog late readings st client w sys junk arg f g h = (
  record {
    messages = client.messages;
    snapshots = record {
      snapshot_queue = record client.snapshots.snapshot_queue { closed = true };
      joinable = false;
    };
    threads = none_started;
  },
  shut_down w,
  seen_close address_of fsm sinks place n backlog late readings st client.snapshots client.threads w
      f g h,
  refl,
)
