-- ===== src/Startup.antt =====
-- How the library is started on the client's side: raft_init of raft_c_if.cc, and shm_init, run_raft,
-- log_init and wait_for_raft of raft_shm.cc. What the operating system answers is an argument.
pub mod Handed
pub mod Ready
pub mod Restart
use libraft.Prelude.{
  ℕ, Bool, true, false, not, ◌&&◌, ◌||◌, List, [], ◌∷◌, Option, none, some, replicate, ◌==◌,
  if◌then◌else◌,
}
use libraft.Text.{codes, strncpy, c_str}
use libraft.Errors.{Messages, init_err_msgs}
use libraft.Call.{CallTag}
use libraft.Config.{RaftConfig, default_config}
use libraft.Queue.Blocking.{Queue}
use libraft.Queue.Blocking.Refine.{zeroed}
use libraft.Queue.Deque
use libraft.Request.{queue_capacity}
use libraft.World.{World}
use libraft.Fsm.{nonempty}
use libraft.Snapshots.{Worker}
use libraft.Process.{build_raft_argv}
use libraft.Shutdown.{Threads}

-- What `stat` says of the file: it is there, it is missing (ENOENT), or another error.
pub data FileState : Type 0 where
  there missing unreadable : FileState

-- How `fork` returns.
pub data Forked : Type 0 where
  failed child : Forked
  parent : ℕ → Forked

-- `unlinks` and `maps` say whether `unlink` and the mapping of a new file succeed; `verbose` and
-- `timing` are the variables VERBOSE and RAFT_TIMING; `base` is where the file is mapped; `running`
-- is what each look at `is_raft_running` sees.
pub record System : Type 0 where
  pub file : FileState
  pub unlinks : Bool
  pub maps : Bool
  pub verbose : Option (List ℕ)
  pub timing : Option (List ℕ)
  pub base : ℕ
  pub forked : Forked
  pub running : List Bool

-- How a function of this module ends: with a value, by `exit(1)`, by a failed assertion, by reading
-- a text without an end, in the endless wait for the Raft process, or as the child with the command
-- line that it runs.
pub data Init {ℓ} (A : Type ℓ) : Type ℓ where
  ready : A → Init A
  exits : Init A
  aborts : Init A
  overruns : Init A
  waits : Init A
  runs : List (Option (List ℕ)) → Init A

infixl 5 ◌>>=◌
abbrev pub ◌>>=◌ : {A B : Type 0} → Init A → (A → Init B) → Init B
◌>>=◌ (ready a) k = k a
◌>>=◌ exits k = exits
◌>>=◌ aborts k = aborts
◌>>=◌ overruns k = overruns
◌>>=◌ waits k = waits
◌>>=◌ (runs argv) k = runs argv

-- `v && *v` for what `getenv` returns.
abbrev is_set : Option (List ℕ) → Bool
is_set none = false
is_set (some v) = nonempty v

abbrev is_verbose : Option RaftConfig → Bool
is_verbose none = false
is_verbose (some c) = c.verbose

-- The file that zlog is set up from. A failure of zlog is only reported.
unfoldable pub log_init : System → Option RaftConfig → List ℕ
log_init sys cfg =
    if is_set sys.verbose || is_verbose cfg then codes "zlog_verbose.conf" else codes "zlog.conf"

abbrev remove_old : System → FileState → Init (Unit {0})
remove_old sys FileState.there = if sys.unlinks then ready tt else exits
remove_old sys FileState.missing = ready tt
remove_old sys FileState.unreadable = exits

abbrev map_new : System → Init (Unit {0})
map_new sys = if sys.maps then ready tt else exits

abbrev empty_queue : Queue (CallTag × ℕ)
empty_queue = zeroed (replicate queue_capacity (CallTag.invalid, 0))

-- The new file: it holds a scoreboard in zeroed memory, the counters, and no slot.
abbrev pub constructed : System → RaftConfig → World → World
constructed sys c w = record w {
  slots = λ _. none;
  api_queue = empty_queue;
  fsm_queue = empty_queue;
  orphaned_calls = Deque.reset w.orphaned_calls;
  stats = record { buffer_alloc = 0; buffer_free = 0; call_alloc = 0; call_free = 0 };
  is_leader = false;
  shutdown_requested = false;
  raft_killed = false;
  msg_timing = is_set sys.timing;
  shm_base = sys.base;
  shm_size = c.shm_size;
}

-- `shm_init(path, true, &c)`: the world, and the configuration that the Raft process will find.
unfoldable pub shm_init : System → List ℕ → RaftConfig → World → Init (World × RaftConfig)
shm_init sys path c w = remove_old sys sys.file >>= λ _. map_new sys >>= λ _.
    ready (constructed sys c w, record c { shm_path = strncpy c.shm_path path 255 })

-- What the file of the shared memory holds.
pub record ShmFile : Type 0 where
  pub world : World
  pub config : RaftConfig

abbrev pub same_text : List ℕ → List ℕ → Bool
same_text [] [] = true
same_text [] (d ∷ ds) = false
same_text (c ∷ cs) [] = false
same_text (c ∷ cs) (d ∷ ds) = c == d && same_text cs ds

-- The file that `raft_init` has made for the configuration `c`, by the path that is asked for.
abbrev pub file_made : RaftConfig → World → RaftConfig → List ℕ → Option ShmFile
file_made c w shared asked = elim (c_str c.shm_path) [
  | none ↦ none
  | some path ↦ if same_text asked path then some (record { world = w; config = shared }) else none
]

-- `shm_init(path, false, nullptr)` in the Raft process, where `files` says what the file at a path
-- holds, if it can be mapped; an exception of the mapping is not caught. The file is unlinked, and
-- zlog is set up from the configuration that is found.
unfoldable pub attach :
    System → List ℕ → (List ℕ → Option ShmFile) → Init (World × RaftConfig × List ℕ)
unfolding log_init
attach sys path files = elim (files path) [
  | none ↦ aborts
  | some f ↦ (if sys.unlinks then ready tt else exits) >>= λ _.
      ready (f.world, f.config, log_init sys (some f.config))
]

-- The watcher and the collector are started in the parent.
unfoldable pub run_raft : Forked → RaftConfig → Threads → Init (ℕ × Threads)
run_raft Forked.failed c t = exits
run_raft Forked.child c t = runs (build_raft_argv c)
run_raft (Forked.parent pid) c t =
    if t.raft_watcher || t.orphan_gc_thread
    then aborts
    else ready (pid, record t { raft_watcher = true; orphan_gc_thread = true })

unfoldable pub wait_for_raft : List Bool → Init (Unit {0})
wait_for_raft [] = waits
wait_for_raft (running ∷ later) =
    let rest = wait_for_raft later in if running then ready tt else rest

unfoldable pub start_fsm_worker : Threads → Init Threads
start_fsm_worker t = if t.fsm_worker then aborts else ready (record t { fsm_worker = true })

abbrev read : Option (List ℕ) → Init (List ℕ)
read none = overruns
read (some path) = ready path

-- What the client's process holds besides the shared memory.
pub record Client : Type 0 where
  pub messages : Messages
  pub snapshots : Worker
  pub threads : Threads

abbrev pub config_of : RaftConfig → Option RaftConfig → RaftConfig
config_of junk none = default_config junk
config_of junk (some c) = c

-- `junk` is what the variable `config` holds before it is assigned.
unfoldable pub raft_init :
    System
    → RaftConfig
    → Option RaftConfig
    → Client
    → World
    → Init (ℕ × Client × World × RaftConfig)
unfolding shm_init run_raft wait_for_raft start_fsm_worker
raft_init sys junk config_arg client w =
    let c = config_of junk config_arg in
    read (c_str c.shm_path) >>= λ path. shm_init sys path c w >>= λ (w', shared).
    run_raft sys.forked shared client.threads >>= λ (pid, t). start_fsm_worker t >>= λ t'.
    wait_for_raft sys.running >>= λ _. ready (
      pid,
      record {
        messages = init_err_msgs;
        snapshots = record client.snapshots {
          snapshot_queue = Deque.reset client.snapshots.snapshot_queue;
        };
        threads = t';
      },
      w',
      shared,
    )
