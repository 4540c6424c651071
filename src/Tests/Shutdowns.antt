-- ===== src/Tests/Shutdowns.antt =====
-- A start and a shutdown.
use libraft.Prelude.{ℕ, ◌≡◌, refl, true, false, [], ◌∷◌, ◌++◌, none, some, arith, replicate}
use libraft.Text.{codes, c_str}
use libraft.Config.{RaftConfig}
use libraft.Queue.Blocking.Represents.{Represents}
use libraft.World.{World, ret, blocked}
use libraft.Fsm.{RaftFsm, Place}
use libraft.Snapshots.{Sinks, Worker}
use libraft.Process.{Verdict}
use libraft.Shutdown.{raft_cleanup}
use libraft.Shutdown.Ends.{ended, fsm_closed, raft_cleanup_ends}
use libraft.Startup.{System, FileState, Forked, Init, Client, raft_init}
use libraft.Startup.Ready.{none_started, all_started, raft_init_lem}
use libraft.Startup.Restart.{new_client, unmapped, restarted}
use libraft.Tests.Samples.{config, world}

abbrev path_config : RaftConfig
path_config = record config { shm_path = codes "/shm" ++ replicate 252 0 }

-- An old file that can be removed, and a Raft process seen running at the second look.
abbrev pub system : System
system = record {
  file = FileState.there;
  unlinks = true;
  maps = true;
  verbose = none;
  timing = none;
  base = 4096;
  forked = Forked.parent 77;
  running = false ∷ true ∷ [];
}

abbrev pub worker : Worker
worker = record { snapshot_queue = record { items = []; closed = true }; joinable = false }

abbrev pub client : Client
client = record { messages = []; snapshots = worker; threads = none_started }

raft_init_lem_example :
    (client' : Client) × (w' : World) × (shared : RaftConfig) × (raft_init system path_config
        (some path_config)
        client
        world
      ≡ Init.ready (77, client', w', shared))
    × Represents 8 w'.api_queue []
    × Represents 8 w'.fsm_queue []
    × (w'.api_queue.closed ≡ false)
    × (w'.fsm_queue.closed ≡ false)
    × (w'.orphaned_calls ≡ record { items = []; closed = false })
    × (client'.snapshots.snapshot_queue ≡ record { items = []; closed = false })
    × ((p : ℕ) → w'.slots p ≡ none)
    × (c_str shared.shm_path ≡ some (codes "/shm"))
    × (client'.threads ≡ all_started)
unfolding c_str
raft_init_lem_example =
    raft_init_lem system path_config (some path_config) client world (codes "/shm") 77 0 refl
      (omega arith) refl refl refl refl refl refl

abbrev pub machine : RaftFsm ℕ
machine = record {
  apply = λ st index term t buf len. (st, 0);
  begin_snapshot = λ st path p w. (st, w);
  restore = λ st path. (st, 0);
}

abbrev pub sinks : Sinks
sinks = record { fopen = λ path w. none; call = λ f h sink w. (0, w); fclose = λ sink w. 0 }

-- The FSM worker waits for a call, and the collector has an orphan in its backlog.
raft_cleanup_ends_example :
    raft_cleanup
      (λ h. h)
      machine
      sinks
      Place.waiting
      1
      (5000 ∷ [])
      ((false, true) ∷ [])
      Verdict.returns
      5
      (record worker { joinable = true })
      all_started
      world
    ≡ ended Place.waiting 5 (record worker { joinable = true }) world
raft_cleanup_ends_example =
    raft_cleanup_ends (λ h. h) machine sinks Place.waiting 0 (5000 ∷ []) true [] 5
      (record worker { joinable = true }) all_started world refl refl (λ e. absurd (ground arith))

-- The FSM worker misses the close.
cleanup_hangs :
    raft_cleanup
      (λ h. h)
      machine
      sinks
      Place.past_check
      1
      []
      ((false, true) ∷ [])
      Verdict.returns
      5
      worker
      all_started
      world
    ≡ blocked (fsm_closed world)
cleanup_hangs =
    raft_cleanup_ends (λ h. h) machine sinks Place.past_check 0 [] true [] 5 worker all_started
      world refl refl (λ e. refl)

-- The client with its snapshot worker started and all of its threads running.
abbrev running_client : Client
running_client = record {
  messages = [];
  snapshots = record worker { joinable = true };
  threads = all_started;
}

restarted_example :
    (client' : Client) × (w' : World) × (raft_cleanup
        (λ h. h)
        machine
        sinks
        Place.head
        1
        (5000 ∷ [])
        ((false, true) ∷ [])
        Verdict.returns
        5
        running_client.snapshots
        running_client.threads
        world
      ≡ ret (5, client'.snapshots, client'.threads) w')
    × (raft_init system path_config none client' w'
        ≡ raft_init system path_config none new_client (unmapped world))
restarted_example =
    restarted (λ h. h) machine sinks Place.head 0 (5000 ∷ []) true [] 5 running_client world system
      path_config none refl refl (λ e. absurd (ground arith))
